-- ===== src/Gc/Leaf.antt =====
-- gc.cc: which functions of a module need no safepoint polls. A function is its address, with what
-- LLVM answers about it; of its instructions, the calls of each block count.
pub mod Terminates
pub mod Safe
pub mod Complete
mod Tests
use Prim.Native.String.{String}
use text.Mathlib.Text.{◌==◌ as ◌≐◌}
use lona_mvm.Prelude.{
  ℕ, zero, suc, Bool, true, false, not, ◌&&◌, ◌||◌, Option, none, some, List, [], ◌∷◌,
  if◌then◌else◌, ◌==◌,
}

pub record CallSite : Type 0 where
  pub is_inline_asm : Bool
  pub called_function : Option ℕ

-- `has_loops` is what LLVM's loop analysis answers for a function that is not empty.
pub record FunctionSummary : Type 0 where
  pub address : ℕ
  pub name : String
  pub is_declaration : Bool
  pub is_intrinsic : Bool
  pub is_body_empty : Bool
  pub has_loops : Bool
  pub blocks : List (List CallSite)

-- The functions with the attribute "gc-leaf-function", and the set of the inference.
pub record LeafState : Type 0 where
  pub attribute : ℕ → Bool
  pub leaf_functions : ℕ → Bool

abbrev pub is_explicit_runtime_safepoint_function_name : String → Bool
is_explicit_runtime_safepoint_function_name name =
    (name ≐ "__mvm_gc_safepoint_poll") || (name ≐ "__mvm_request_gc")

abbrev pub is_runtime_allocation_function_name : String → Bool
is_runtime_allocation_function_name name =
    (name ≐ "__mvm_malloc")
    || (name ≐ "__mvm_malloc_typed")
    || (name ≐ "__mvm_array_malloc")
    || (name ≐ "__mvm_array_malloc_typed")

abbrev pub is_known_runtime_gc_leaf_function_name : String → Bool
is_known_runtime_gc_leaf_function_name name =
    (name ≐ "__mvm_malloc")
    || (name ≐ "__mvm_malloc_typed")
    || (name ≐ "__mvm_array_malloc")
    || (name ≐ "__mvm_array_malloc_typed")
    || (name ≐ "__mvm_array_length")

abbrev pub function_has_loop : FunctionSummary → Bool
function_has_loop f = if f.is_body_empty then false else f.has_loops

abbrev insert_address : ℕ → (ℕ → Bool) → ℕ → Bool
insert_address a set b = (b == a) || set b

-- The function at an address.
unfoldable pub callee_of : List FunctionSummary → ℕ → Option FunctionSummary
callee_of [] a = none
callee_of (f ∷ fs) a = if f.address == a then some f else callee_of fs a

abbrev pub called : List FunctionSummary → CallSite → Option FunctionSummary
called fs c = elim c.called_function [ none ↦ none | some a ↦ callee_of fs a ]

abbrev pub allocates : Option FunctionSummary → Bool
allocates none = false
allocates (some callee) = is_runtime_allocation_function_name callee.name

abbrev pub is_runtime_allocation_call : List FunctionSummary → CallSite → Bool
is_runtime_allocation_call fs c = allocates (called fs c)

abbrev pub callee_can_remain_leaf : LeafState → Option FunctionSummary → Bool
callee_can_remain_leaf s none = false
callee_can_remain_leaf s (some callee) =
    if callee.is_intrinsic
    then true
    else if is_explicit_runtime_safepoint_function_name callee.name
    then false
    else s.attribute callee.address || s.leaf_functions callee.address

abbrev pub call_can_remain_leaf : List FunctionSummary → LeafState → CallSite → Bool
call_can_remain_leaf fs s c =
    if c.is_inline_asm then false else callee_can_remain_leaf s (called fs c)

-- The loops over the blocks and their calls.
unfoldable pub calls_can_remain_leaf : List FunctionSummary → LeafState → List CallSite → Bool
calls_can_remain_leaf fs s [] = true
calls_can_remain_leaf fs s (c ∷ cs) =
    let rest = calls_can_remain_leaf fs s cs in
    if is_runtime_allocation_call fs c
    then false
    else if not (call_can_remain_leaf fs s c)
    then false
    else rest

unfoldable pub blocks_can_remain_leaf :
    List FunctionSummary → LeafState → List (List CallSite) → Bool
blocks_can_remain_leaf fs s [] = true
blocks_can_remain_leaf fs s (b ∷ bs) =
    let rest = blocks_can_remain_leaf fs s bs in
    if not (calls_can_remain_leaf fs s b) then false else rest

-- What one function does to the state, and whether the inference changed.
unfoldable pub infer_function :
    List FunctionSummary → FunctionSummary → LeafState × Bool → LeafState × Bool
infer_function fs f (s, changed) =
    if f.is_declaration || f.is_intrinsic || s.attribute f.address
    then (s, changed)
    else if function_has_loop f
    then (s, changed)
    else if not (blocks_can_remain_leaf fs s f.blocks)
    then (s, changed)
    else (
      record {
        attribute = insert_address f.address s.attribute;
        leaf_functions = insert_address f.address s.leaf_functions;
      },
      true,
    )

unfoldable pub infer_functions :
    (all rest : List FunctionSummary) → LeafState × Bool → LeafState × Bool
infer_functions all [] r = r
infer_functions all (f ∷ fs) r = infer_functions all fs (infer_function all f r)

-- The loop, with the count of rounds left; none if they do not suffice.
unfoldable pub infer_rounds : List FunctionSummary → ℕ → LeafState → Option LeafState
infer_rounds fs zero s = none
infer_rounds fs (suc n) s =
    let (t, changed) = infer_functions fs fs (s, false) in
    let rest = infer_rounds fs n t in if changed then rest else some t

unfoldable pub mark_known_runtime_gc_leaf_functions : List FunctionSummary → (ℕ → Bool) → ℕ → Bool
mark_known_runtime_gc_leaf_functions [] attribute = attribute
mark_known_runtime_gc_leaf_functions (f ∷ fs) attribute = mark_known_runtime_gc_leaf_functions fs (
    if is_known_runtime_gc_leaf_function_name f.name
    then insert_address f.address attribute
    else attribute)

-- The functions of the module with the attribute.
unfoldable pub attributed : List FunctionSummary → (attribute : ℕ → Bool) → ℕ → Bool
attributed [] attribute a = false
attributed (f ∷ fs) attribute a = ((f.address == a) && attribute a) || attributed fs attribute a

unfoldable pub infer_managed_gc_leaf_functions :
    List FunctionSummary → (attribute : ℕ → Bool) → (rounds : ℕ) → Option LeafState
infer_managed_gc_leaf_functions fs attribute rounds =
    let marked = mark_known_runtime_gc_leaf_functions fs attribute in
    infer_rounds fs rounds (record { attribute = marked; leaf_functions = attributed fs marked })

-- The functions that get the strategy of the collector.
abbrev pub should_attach_managed_gc : LeafState → FunctionSummary → Bool
should_attach_managed_gc s f =
    if f.is_declaration || f.is_intrinsic then false else not (s.attribute f.address)
