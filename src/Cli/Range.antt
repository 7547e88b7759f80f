-- ===== src/Cli/Range.antt =====
-- The bounds of an optimization level and of a heap size.
use mathlib.Core.Option.{some-injective}
use lona_mvm.Prelude.{
  ℕ, ◌*◌, ◌/◌, ◌≤◌, ◌≡◌, refl, ◌⊎◌, inl, inr, false, ◌||◌, Option, none, some, [], ltb, ◌==◌, arith,
  Bool-cases, sym,
}
use lona_mvm.Prelude.Expected.{success}
use lona_mvm.Cli.Text.{Bytes, text, is_same, take_digits, drop_digits}
use lona_mvm.Cli.{ParsedLong, max_u64, multiplier, parse_opt_level, scaled, parse_heap_size}

pub multiplier-cases :
    (suffix : Bytes) (f : ℕ)
    → multiplier suffix ≡ some f
    → (f ≡ 1) ⊎ (f ≡ 1024) ⊎ (f ≡ 1024 * 1024) ⊎ (f ≡ 1024 * 1024 * 1024)
multiplier-cases suffix f h = elim (Bool-cases (is_same suffix [])) [
  | inl none_given ↦ inl (sym (some-injective _ _ (ground arith)))
  | inr given ↦ elim (Bool-cases (is_same suffix (text "K") || is_same suffix (text "k"))) [
    | inl kilo ↦ inr (inl (sym (some-injective _ _ (ground arith))))
    | inr bigger ↦ elim (Bool-cases (is_same suffix (text "M") || is_same suffix (text "m"))) [
      | inl mega ↦ inr (inr (inl (sym (some-injective _ _ (ground arith)))))
      | inr biggest ↦ elim (Bool-cases (is_same suffix (text "G") || is_same suffix (text "g"))) [
        | inl giga ↦ inr (inr (inr (sym (some-injective _ _ (ground arith)))))
        | inr no_unit ↦ absurd (ground arith)
      ]
    ]
  ]
]

-- A product that the division says does not overflow.
pub scaled-bounds :
    (suffix : Bytes) (f parsed : ℕ)
    → multiplier suffix ≡ some f
    → ltb (max_u64 / f) parsed ≡ false
    → (parsed == 0) ≡ false
    → (1 ≤ parsed * f) × (parsed * f ≤ max_u64)
scaled-bounds suffix f parsed e h positive = elim (multiplier-cases suffix f e) [
  | inl one ↦ ground (arith, one)
  | inr (inl kilo) ↦ ground (arith, kilo)
  | inr (inr (inl mega)) ↦ ground (arith, mega)
  | inr (inr (inr giga)) ↦ ground (arith, giga)
]

scaled-range :
    (value suffix : Bytes) (parsed n : ℕ) (factor : Option ℕ)
    → multiplier suffix ≡ factor
    → (parsed == 0) ≡ false
    → scaled value parsed factor ≡ success n
    → (1 ≤ n) × (n ≤ max_u64)
unfolding scaled
scaled-range value suffix parsed n none e positive h = absurd (ground arith)
scaled-range value suffix parsed n (some f) e positive h =
    elim (Bool-cases (ltb (max_u64 / f) parsed)) [
      | inl large ↦ absurd (ground arith)
      | inr fits ↦ by_product (scaled-bounds suffix f parsed e fits positive) (ground arith)
    ]
  where
    by_product : {k : ℕ} → (1 ≤ k) × (k ≤ max_u64) → k ≡ n → (1 ≤ n) × (n ≤ max_u64)
    by_product (least, most) same = (omega arith, omega arith)

module _ (strtol : Bytes → ParsedLong) (strtoull : Bytes → ℕ) where
  pub parse_opt_level-range :
      (value : Bytes) (n : ℕ)
      → parse_opt_level strtol strtoull value ≡ success n
      → (1 ≤ n) × (n ≤ 3)
  unfolding parse_opt_level
  parse_opt_level-range value n h = ground arith

  pub parse_heap_size-range :
      (value : Bytes) (n : ℕ)
      → parse_heap_size strtol strtoull value ≡ success n
      → (1 ≤ n) × (n ≤ max_u64)
  unfolding parse_heap_size
  parse_heap_size-range value n h =
      scaled-range value (drop_digits value) (strtoull (take_digits value)) n
        (multiplier (drop_digits value)) refl (ground arith) (ground arith)
