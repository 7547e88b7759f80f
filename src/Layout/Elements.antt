-- ===== src/Layout/Elements.antt =====
-- What is collected from the elements of an array.
use lona_mvm.Prelude.{
  ℕ, zero, suc, ◌+◌, ◌*◌, ◌%◌, ◌<◌, ◌≡◌, inl, inr, true, List, has, has-append, arith, Bool-cases,
  ap, ◌∙◌,
}
use lona_mvm.Memory.Words.{word}
use lona_mvm.Layout.{each_element}

-- The address is collected from the element with this number, counted from `start`.
abbrev pub FromElement : (collect : ℕ → List ℕ) (stride base start a index : ℕ) → Type 0
FromElement collect stride base start a index =
    has (collect ((base + (start + index) * stride) % word)) a ≡ true

pub renumber :
    (collect : ℕ → List ℕ) (stride base a i j : ℕ)
    → i ≡ j
    → has (collect ((base + i * stride) % word)) a ≡ has (collect ((base + j * stride) % word)) a
renumber collect stride base a i j e = ap (λ k. has (collect ((base + k * stride) % word)) a) e

pub has-each :
    (collect : ℕ → List ℕ) (stride base n start a index : ℕ)
    → index < n
    → FromElement collect stride base start a index
    → has (each_element collect stride base n start) a ≡ true
unfolding each_element
has-each collect stride base zero start a index lt h = absurd (omega arith)
has-each collect stride base (suc n) start a zero lt h =
    let first = renumber collect stride base a start (start + 0) (omega arith) ∙ h in
    has-append (collect ((base + start * stride) % word))
      (each_element collect stride base n (start + 1)) a
    ∙ ground (arith, first)
has-each collect stride base (suc n) start a (suc index) lt h =
    let rest =
      has-each collect stride base n (start + 1) a index (omega arith) (
        renumber collect stride base a (start + 1 + index) (start + suc index) (omega arith) ∙ h) in
    has-append (collect ((base + start * stride) % word))
      (each_element collect stride base n (start + 1)) a
    ∙ ground (arith, rest)

pub each-has :
    (collect : ℕ → List ℕ) (stride base n start a : ℕ)
    → has (each_element collect stride base n start) a ≡ true
    → (index : ℕ) × (index < n) × FromElement collect stride base start a index
unfolding each_element
each-has collect stride base zero start a h = cc
each-has collect stride base (suc n) start a h =
    let split =
      has-append (collect ((base + start * stride) % word))
        (each_element collect stride base n (start + 1)) a in
    elim (Bool-cases (has (collect ((base + start * stride) % word)) a)) [
      | inl first ↦
          (0, omega arith, renumber collect stride base a (start + 0) start (omega arith) ∙ first)
      | inr later ↦
          let (index, lt, found) =
            each-has collect stride base n (start + 1) a (ground (arith, split)) in
          (
            suc index,
            omega arith,
            renumber collect stride base a (start + suc index) (start + 1 + index) (omega arith)
                ∙ found,
          )
    ]
