-- ===== src/Jit/Resolve.antt =====
-- Which function is chosen as the entry point.
use Prim.Native.String.{String}
use mathlib.Core.Option.{some-injective}
use text.Mathlib.Text.{◌==◌ as ◌≐◌}
use text.Mathlib.TextEquality.{eq_iff}
use lona_mvm.Prelude.{
  ◌≡◌, refl, not, Option, none, some, List, [], ◌∷◌, if◌then◌else◌, Among, here, there, arith,
  Bool-cases, inl, inr, ap, ◌∙◌, sym, subst,
}
use lona_mvm.Prelude.Expected.{Expected, success, failure}
use lona_mvm.Jit.{
  IrFunction, EntryPoint, EntryError, classify_entry_point, get_function, resolve_default, first_of,
  resolve_named, default_candidates, resolve_entry_point,
}
use lona_mvm.Jit.Typed.{Typed, Answers, classify-Typed}

get_function-Among :
    (fs : List IrFunction) (name : String) (f : IrFunction)
    → get_function fs name ≡ some f
    → Among f fs × (f.name ≡ name)
get_function-Among [] name f h = cc
get_function-Among (g ∷ fs) name f h = elim (Bool-cases (g.name ≐ name)) [
  | inl same ↦
      let found : g ≡ f = some-injective _ _ (ground arith) in
      (
        subst (λ x. Among x (g ∷ fs)) found here,
        ap (λ (x : IrFunction). x.name) (sym found) ∙ (eq_iff g.name name).0 same,
      )
  | inr other ↦ let (m, named) = get_function-Among fs name f (ground arith) in (there m, named)
]

abbrev pub or_next : Option IrFunction → String → Option String → Option String
or_next (some f) candidate next = some candidate
or_next none candidate next = next

-- The name of the first candidate that the module has a function for.
abbrev pub first_present : List IrFunction → List String → Option String
first_present fs [] = none
first_present fs (c ∷ cs) = or_next (get_function fs c) c (first_present fs cs)

module _ (fs : List IrFunction) where
  -- What an answer for a name means, if there is one.
  abbrev Named : Option String → Expected EntryError EntryPoint → Type 0
  Named name (failure error) = Unit {0}
  Named name (success e) = (f : IrFunction) × (some e.symbol ≡ name) × Typed fs e f

  named :
      (name : String) (f : IrFunction) (r : Expected EntryError EntryPoint)
      → f.name ≡ name
      → Answers fs f r
      → Named (some name) r
  named name f (failure error) same answers = tt
  named name f (success e) same answers = (f, ap some (sym answers.name ∙ same), answers)

  candidate-Named :
      (c : String) (o : Option IrFunction) (next : Option String)
      (rest : Expected EntryError EntryPoint)
      → Named next rest
      → get_function fs c ≡ o
      → Named (or_next o c next) (first_of o rest)
  candidate-Named c none next rest later found = later
  candidate-Named c (some f) next rest later found =
      let (m, same) = get_function-Among fs c f found in
      named c f (classify_entry_point f) same (classify-Typed fs f m)

  resolve_default-Named :
      (candidates : List String)
      → Named (first_present fs candidates) (resolve_default fs candidates)
  unfolding resolve_default
  resolve_default-Named [] = tt
  resolve_default-Named (c ∷ cs) =
      candidate-Named c (get_function fs c) (first_present fs cs) (resolve_default fs cs)
        (resolve_default-Named cs) refl

  resolve_named-Named :
      (symbol : String) (o : Option IrFunction)
      → get_function fs symbol ≡ o
      → Named (some symbol) (resolve_named symbol o)
  resolve_named-Named symbol none found = tt
  resolve_named-Named symbol (some f) found =
      let (m, same) = get_function-Among fs symbol f found in
      named symbol f (classify_entry_point f) same (classify-Typed fs f m)

  -- The name that the entry point has to have.
  abbrev pub wanted : (requested_symbol : String) → Option String
  wanted requested_symbol =
      if not (requested_symbol ≐ "")
      then some requested_symbol
      else first_present fs default_candidates

  resolve-Named :
      (requested_symbol : String)
      → Named (wanted requested_symbol) (resolve_entry_point fs requested_symbol)
  unfolding resolve_entry_point
  resolve-Named requested_symbol = elim (Bool-cases (not (requested_symbol ≐ ""))) [
    | inl given ↦ rw given (resolve_named-Named requested_symbol _ refl)
    | inr missing ↦ rw missing (resolve_default-Named default_candidates)
  ]

  -- An entry point that is resolved is the requested symbol, or without one, the first default symbol
  -- that the module has; and the module has a function of this name, which is not variadic, returns
  -- what the call of the entry's signature returns, and takes what that call passes.
  pub resolve_entry_point-Typed :
      (requested_symbol : String) (e : EntryPoint)
      → resolve_entry_point fs requested_symbol ≡ success e
      → (f : IrFunction) × (some e.symbol ≡ wanted requested_symbol) × Typed fs e f
  resolve_entry_point-Typed requested_symbol e h =
      subst (Named (wanted requested_symbol)) h (resolve-Named requested_symbol)
