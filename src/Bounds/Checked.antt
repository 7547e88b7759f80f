-- ===== src/Bounds/Checked.antt =====
-- What a GEP indexes, and what the planned checks are.
use lona_mvm.Prelude.{ℕ, ◌≡◌, some, List, [], ◌∷◌, Option-cases, inl, inr}
use lona_mvm.Prelude.Among.{here, there}
use lona_mvm.Prelude.{Among}
use lona_mvm.Bounds.{
  IndexValue, GepType, structure, array, vector, other_type, Elements, StaticCheckPlan, struct_step,
  walk_indices,
}

-- The index is one into an array of that many elements on the way that the indices go through the
-- type.
pub data Checked : GepType → List IndexValue → IndexValue → ℕ → Type 0 where
  array_here :
      {n : ℕ} {t : GepType} {i : IndexValue} {rest : List IndexValue}
      → Checked (array n t) (i ∷ rest) i n
  array_later :
      {n : ℕ} {t : GepType} {i : IndexValue} {rest : List IndexValue} {j : IndexValue} {m : ℕ}
      → Checked t rest j m
      → Checked (array n t) (i ∷ rest) j m
  vector_later :
      {t : GepType} {i : IndexValue} {rest : List IndexValue} {j : IndexValue} {m : ℕ}
      → Checked t rest j m
      → Checked (vector t) (i ∷ rest) j m
  field_later :
      {ts : Elements} {t : GepType} {i : IndexValue} {rest : List IndexValue} {j : IndexValue}
      {m : ℕ}
      → struct_step ts i ≡ some t
      → Checked t rest j m
      → Checked (structure ts) (i ∷ rest) j m

abbrev pub plan : IndexValue → ℕ → StaticCheckPlan
plan i n = record { index = i; length = n }

pub Checked→Among :
    {t : GepType} {indices : List IndexValue} {i : IndexValue} {n : ℕ}
    → Checked t indices i n
    → Among (plan i n) (walk_indices t indices)
unfolding walk_indices
Checked→Among array_here = here
Checked→Among (array_later c) = there (Checked→Among c)
Checked→Among (vector_later c) = Checked→Among c
Checked→Among (field_later e c) = rw (e, walk_indices) (Checked→Among c)

pub Among→Checked :
    (t : GepType) (indices : List IndexValue) (p : StaticCheckPlan)
    → Among p (walk_indices t indices)
    → Checked t indices p.index p.length
unfolding walk_indices
Among→Checked t [] p m = elim m [ ]
Among→Checked other_type (i ∷ rest) p m = elim m [ ]
Among→Checked (structure ts) (i ∷ rest) p m = elim (Option-cases (struct_step ts i)) [
  | inl e ↦ elim (rw (e, walk_indices) at m) [ ]
  | inr (t, e) ↦ field_later e (Among→Checked t rest p (rw (e, walk_indices) at m))
]
Among→Checked (array n t) (i ∷ rest) p here = array_here
Among→Checked (array n t) (i ∷ rest) p (there m) = array_later (Among→Checked t rest p m)
Among→Checked (vector t) (i ∷ rest) p m = vector_later (Among→Checked t rest p m)
