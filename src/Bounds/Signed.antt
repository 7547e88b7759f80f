-- ===== src/Bounds/Signed.antt =====
-- A GEP reads its indices with their sign; the test before it does not.
use lona_mvm.Prelude.{
  ℕ, ◌≡◌, ◌%◌, ◌+◌, ◌-◌, ◌^◌, ◌≤◌, ◌<◌, ◌*◌, zero, suc, le→ltb, true, false, List, ◌∷◌, leb, ltb,
  ◌↔◌, ◌⊎◌, inl, inr, if◌then◌else◌, arith, sym, ◌∙◌, le→leb, lt→ltb,
}
use native.Mathlib.Nat.{pow-le-pow_right, pow-suc}
use native.Mathlib.Decide.{dec_lt}
use mathlib.Core.Bool.{false≢true}
use lona_mvm.Memory.Words.{word}
use lona_mvm.Bounds.{IndexValue, GepInstruction, instrument_gep}
use lona_mvm.Bounds.Base.{Body}
use lona_mvm.Bounds.Checked.{Checked}
use lona_mvm.Bounds.Trap.{Run, is_integer, index_value, traps, Violates, instrument_gep_lem}

abbrev pub index_bits : IndexValue → ℕ
index_bits (IndexValue.constant_int bits value) = bits
index_bits (IndexValue.run_time bits address) = bits
index_bits (IndexValue.not_integer address) = 0

-- The value as one of 64 bits: a shorter one keeps its sign.
abbrev pub sign_extended : (bits value : ℕ) → ℕ
sign_extended bits value =
    if leb 64 bits
    then value % word
    else if ltb value (2 ^ (bits - 1))
    then value
    else value + word - 2 ^ bits

-- The bits fit in the width, and the sign bit is not set or all 64 bits are there.
abbrev pub KeepsSign : (bits value : ℕ) → Type 0
KeepsSign bits value = (64 ≤ bits) ⊎ (value < 2 ^ (bits - 1))

half_pow : (bits : ℕ) → 0 < bits → 2 ^ bits ≡ 2 ^ (bits - 1) * 2
half_pow zero pos = absurd (omega arith)
half_pow (suc k) pos = let e : suc k - 1 ≡ k = omega arith in rw e (pow-suc 2 k)

not_below :
    (bits value n : ℕ)
    → 2 ^ bits ≡ 2 ^ (bits - 1) * 2
    → 2 ^ bits ≤ 2 ^ 63
    → (¬ value < 2 ^ (bits - 1))
    → n ≤ 2 ^ 63
    → ¬ value + word - 2 ^ bits < n
not_below bits value n half bound high small lt = omega arith

gt→leb : (a b : ℕ) → b < a → leb a b ≡ false
gt→leb a b h = ground arith

sign_extended-lt :
    (bits value n : ℕ)
    → 0 < bits
    → value < 2 ^ bits
    → value % word < n
    → n ≤ 2 ^ 63
    → (sign_extended bits value < n) ↔ KeepsSign bits value
sign_extended-lt bits value n pos fits below small = elim (dec_lt bits 64) [
  | no wide ↦ (λ _. inl (omega arith), λ _. rw (le→leb 64 bits (omega arith)) below)
  | yes narrow ↦
      let bound : 2 ^ bits ≤ 2 ^ 63 = pow-le-pow_right (omega arith) {j = 63} (omega arith) in
      elim (dec_lt value (2 ^ (bits - 1))) [
        | yes low ↦ (
          λ _. inr low,
          λ _.
              rw (gt→leb 64 bits narrow, lt→ltb value (2 ^ (bits - 1)) low)
                (omega (arith, half_pow bits pos)),
        )
        | no high ↦ (
          λ lt. absurd (
              not_below bits value n (half_pow bits pos) bound high small
                (rw (gt→leb 64 bits narrow, le→ltb value (2 ^ (bits - 1)) (omega arith)) at lt)),
          λ keeps. absurd (elim keeps [ inl wide ↦ omega arith | inr low ↦ high low ]),
        )
      ]
]

-- A GEP whose code did not trap, with an index into an array on its way that has bits enough for its
-- value, for fewer than 2 ^ 63 elements. The index is in bounds, as the GEP reads it, exactly when
-- the bits are 64 at least or the sign bit is not set: a shorter negative index that is below the
-- number of elements without its sign passes, and leads out of the array.
pub not_trapped :
    (run : Run) (body : Body) (fuel : ℕ) (gep : GepInstruction) (first : IndexValue)
    (rest : List IndexValue) (index : IndexValue) (length : ℕ)
    → gep.indices ≡ first ∷ rest
    → Checked gep.source_element_type rest index length
    → is_integer index ≡ true
    → 0 < index_bits index
    → index_value run index < 2 ^ index_bits index
    → length ≤ 2 ^ 63
    → traps run (instrument_gep body fuel gep) ≡ false
    → (sign_extended (index_bits index) (index_value run index) < length)
      ↔ KeepsSign (index_bits index) (index_value run index)
not_trapped run body fuel gep first rest index length e c int pos fits small quiet =
    sign_extended-lt (index_bits index) (index_value run index) length pos fits
      (elim (dec_lt (index_value run index % word) length) [
        | yes below ↦ below
        | no above ↦ absurd (
            false≢true (
              sym quiet
              ∙ (instrument_gep_lem run body fuel gep).1
                  (Violates.on_the_way first rest index length e c (int, omega arith))))
      ])
      small
