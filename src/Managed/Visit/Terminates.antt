-- ===== src/Managed/Visit/Terminates.antt =====
-- The analysis comes to an end, with states that are closed under the flow of pointers.
use lona_mvm.Prelude.{
  ℕ, zero, suc, ◌+◌, ◌*◌, ◌<◌, ◌≡◌, ap, inl, inr, ◌||◌, some, List, [], ◌∷◌, length, Among, here,
  there, arith, Bool-cases,
}
use lona_mvm.Managed.Module.{ModuleView, FunctionView}
use lona_mvm.Managed.Store.{States, no_states}
use lona_mvm.Managed.Store.Progress.{Progress-weight, weight, weight-le}
use lona_mvm.Managed.Visit.{visit_function, visit_functions, run_rounds, run}
use lona_mvm.Managed.Visit.Progress.{
  module_cells, visit_function-Progress, visit_params-Progress, visit_functions-Progress,
}
use lona_mvm.Managed.Visit.Consistent.{FunctionConsistent, ModuleConsistent}
use lona_mvm.Managed.Visit.Flow.{Quiet-instructions}
use lona_mvm.Managed.Visit.Quiet.{Quiet, Quiet-then_also, Quiet-params}

module _ (m : ModuleView) where
  -- Enough rounds end the loop, in states that another round does not change.
  run_rounds-Quiet :
      (n : ℕ) (s : States)
      → 4 * length (module_cells m) < n + weight (module_cells m) s
      → (t : States) × (run_rounds m n s ≡ some t) × Quiet (visit_functions m m.functions) t
  unfolding run_rounds
  run_rounds-Quiet zero s h = absurd (omega (arith, weight-le (module_cells m) s))
  run_rounds-Quiet (suc n) s h =
      let p = visit_functions-Progress m m.functions in
      elim (Bool-cases (visit_functions m m.functions s).1) [
        | inl changed ↦
            let (t, e, q) =
              run_rounds-Quiet n (visit_functions m m.functions s).0
                (omega (arith, Progress-weight p s changed)) in
            (t, rw changed e, q)
        | inr still ↦ (s, rw still (ap some (p.kept s still)), still)
      ]

module _ (m : ModuleView) (s : States) where
  Quiet-function : (f : FunctionView) → Quiet (visit_function m f) s → FunctionConsistent m s f
  unfolding visit_function
  Quiet-function f h =
      let is_open = f.is_declaration || f.has_address_taken in
      let (params, instructions) =
        Quiet-then_also _ _ s (visit_params-Progress m f.address is_open 0 f.args) h in
      record {
        params = Quiet-params m s f.address is_open 0 f.args params;
        instructions = Quiet-instructions m s f.instructions instructions;
      }

  Quiet-functions :
      (fs : List FunctionView)
      → Quiet (visit_functions m fs) s
      → (f : FunctionView) → Among f fs
      → FunctionConsistent m s f
  unfolding visit_functions
  Quiet-functions [] h f among = elim among [ ]
  Quiet-functions (f ∷ fs) h g here =
      Quiet-function g (Quiet-then_also _ _ s (visit_function-Progress m g) h).0
  Quiet-functions (f ∷ fs) h g (there among) =
      Quiet-functions fs (Quiet-then_also _ _ s (visit_function-Progress m f) h).1 g among

-- The analysis comes to an end: four rounds for each cell that the instructions and the parameters of
-- the module name, and one more, suffice. In the states that it ends with, the pointer that an
-- instruction of the module yields has every flag that flows into it: from its operands, from the
-- location that it is loaded from, or from the callee, as has a location or slot that is stored to, a
-- parameter for its arguments, and the result of a function; and the parameters of a function that
-- is declared only, or whose address is taken, may be raw.
pub run-Consistent :
    (m : ModuleView)
    → (s : States) × (run m (suc (4 * length (module_cells m))) ≡ some s) × ModuleConsistent m s
unfolding run
run-Consistent m =
    let (s, e, quiet) =
      run_rounds-Quiet m (suc (4 * length (module_cells m))) no_states (omega arith) in
    (s, e, Quiet-functions m s m.functions quiet)
