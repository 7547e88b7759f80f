-- ===== src/Gc/Leaf/Tests.antt =====
-- A leaf, a function that calls it, and a function that allocates.
use lona_mvm.Prelude.{ℕ, suc, ◌≡◌, Bool, false, true, some, List, [], ◌∷◌, length, Among}
use lona_mvm.Gc.Leaf.{
  CallSite, FunctionSummary, LeafState, mark_known_runtime_gc_leaf_functions,
  infer_managed_gc_leaf_functions,
}
use lona_mvm.Gc.Leaf.Safe.{SafeAddress, Refused}
use lona_mvm.Gc.Leaf.Complete.{infer_leaf_functions_lem}

abbrev call_of : ℕ → CallSite
call_of a = record { is_inline_asm = false; called_function = some a }

abbrev defined : ℕ → List CallSite → FunctionSummary
defined a calls = record {
  address = a;
  name = "f";
  is_declaration = false;
  is_intrinsic = false;
  is_body_empty = false;
  has_loops = false;
  blocks = calls ∷ [];
}

abbrev functions : List FunctionSummary
functions =
    defined 3 (call_of 1 ∷ [])
    ∷ defined 2 (call_of 4 ∷ [])
    ∷ record (defined 1 []) { name = "__mvm_malloc"; is_declaration = true }
    ∷ defined 4 []
    ∷ []

abbrev none_marked : ℕ → Bool
none_marked a = false

infer_leaf_functions_lem_example :
    (t : LeafState) × (infer_managed_gc_leaf_functions functions none_marked
        (suc (length functions))
      ≡ some t)
    × ((a : ℕ)
        → t.attribute a ≡ true
        → SafeAddress functions (mark_known_runtime_gc_leaf_functions functions none_marked) a)
    × ((f : FunctionSummary)
        → Among f functions
        → t.attribute f.address ≡ false
        → Refused functions t f)
infer_leaf_functions_lem_example = infer_leaf_functions_lem functions none_marked
