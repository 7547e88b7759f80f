-- ===== src/Cli/HeapSize.antt =====
-- Which heap size a text of digits with a unit stands for.
use lona_mvm.Prelude.{
  ℕ, ◌+◌, ◌-◌, ◌*◌, ◌<◌, ◌≡◌, refl, inl, inr, true, false, some, [], ◌∷◌, ◌++◌, if◌then◌else◌, leb,
  ◌==◌, length, arith, subst, sym, ap₂, ◌∙◌,
}
use lona_mvm.Prelude.Expected.{Expected, success, failure}
use lona_mvm.Cli.Text.{Bytes, is_same, is_digit, take_digits, drop_digits}
use lona_mvm.Cli.{
  CliError, ParsedLong, max_u64, multiplier, scaled, size_of, parse_heap_size, heap_size_too_large,
}
use lona_mvm.Cli.Range.{multiplier-cases}

-- The number that digits stand for, after the digits of `n`.
abbrev pub decimal_from : ℕ → Bytes → ℕ
decimal_from n [] = n
decimal_from n (d ∷ ds) = decimal_from (n * 10 + (d - 48)) ds

abbrev pub decimal : Bytes → ℕ
decimal ds = decimal_from 0 ds

abbrev pub AllDigits : Bytes → Type 0
AllDigits [] = Unit {0}
AllDigits (d ∷ ds) = (is_digit d ≡ true) × AllDigits ds

-- What the C library documents of strtoull on digits: the number, or else ULLONG_MAX.
abbrev pub ReadsDecimal : (Bytes → ℕ) → Type 0
ReadsDecimal strtoull =
    (d : ℕ) (ds : Bytes)
    → AllDigits (d ∷ ds)
    → strtoull (d ∷ ds) ≡ (if leb (decimal (d ∷ ds)) max_u64 then decimal (d ∷ ds) else max_u64)

multiplier-head : (b : ℕ) (bs : Bytes) (f : ℕ) → multiplier (b ∷ bs) ≡ some f → is_digit b ≡ false
multiplier-head b bs f h = ground arith

split_digits :
    (ds suffix : Bytes) (f : ℕ)
    → AllDigits ds
    → multiplier suffix ≡ some f
    → (take_digits (ds ++ suffix) ≡ ds) × (drop_digits (ds ++ suffix) ≡ suffix)
split_digits [] [] f all h = (refl, refl)
split_digits [] (b ∷ bs) f all h =
    let no_digit = multiplier-head b bs f h in (ground arith, ground arith)
split_digits (d ∷ ds) suffix f all h =
    let (taken, dropped) = split_digits ds suffix f all.1 h in (ground arith, ground arith)

-- The size that is meant, if it fits in 64 bits.
abbrev pub expected_size : Bytes → (n factor : ℕ) → Expected CliError ℕ
expected_size value n factor =
    if leb (n * factor) max_u64
    then success (n * factor)
    else if factor == 1
    then success max_u64
    else failure (heap_size_too_large value)

abbrev ScaledAs : Bytes → (n factor : ℕ) → Type 0
ScaledAs value n factor =
    scaled value (if leb n max_u64 then n else max_u64) (some factor) ≡ expected_size value n factor

scaled-expected : (value suffix : Bytes) (n f : ℕ) → multiplier suffix ≡ some f → ScaledAs value n f
unfolding scaled
scaled-expected value suffix n f e = elim (multiplier-cases suffix f e) [
  | inl one ↦ subst (ScaledAs value n) (sym one) (ground arith)
  | inr (inl kilo) ↦ subst (ScaledAs value n) (sym kilo) (ground arith)
  | inr (inr (inl mega)) ↦ subst (ScaledAs value n) (sym mega) (ground arith)
  | inr (inr (inr giga)) ↦ subst (ScaledAs value n) (sym giga) (ground arith)
]

module _ (strtol : Bytes → ParsedLong) (strtoull : Bytes → ℕ) where
  size_of-expected :
      (value : Bytes) (d : ℕ) (ds suffix : Bytes) (f : ℕ)
      → ReadsDecimal strtoull
      → AllDigits (d ∷ ds)
      → multiplier suffix ≡ some f
      → 0 < decimal (d ∷ ds)
      → is_same value [] ≡ false
      → size_of strtol strtoull value (d ∷ ds) suffix ≡ expected_size value (decimal (d ∷ ds)) f
  size_of-expected value d ds suffix f reads all e positive there =
      let n = decimal (d ∷ ds) in
      let read = reads d ds all in
      let non_zero : ((if leb n max_u64 then n else max_u64) == 0) ≡ false = ground arith in
      let counted : (length (d ∷ ds) == 0) ≡ false = ground arith in
      simp (there, counted, read, non_zero, e, scaled-expected value suffix n f e)

  -- Where strtoull reads digits as documented: for digits that stand for a number above 0, and a
  -- valid unit behind them, the size is the number times the unit if that is below 2 ^ 64. If it is
  -- not, it is refused as too large, but without a unit it is taken to be 2 ^ 64 - 1.
  pub parse_heap_size_lem :
      (d : ℕ) (ds suffix : Bytes) (f : ℕ)
      → ReadsDecimal strtoull
      → AllDigits (d ∷ ds)
      → multiplier suffix ≡ some f
      → 0 < decimal (d ∷ ds)
      → parse_heap_size strtol strtoull (d ∷ ds ++ suffix)
        ≡ expected_size (d ∷ ds ++ suffix) (decimal (d ∷ ds)) f
  unfolding parse_heap_size
  parse_heap_size_lem d ds suffix f reads all e positive =
      let (taken, dropped) = split_digits (d ∷ ds) suffix f all e in
      ap₂ (size_of strtol strtoull (d ∷ ds ++ suffix)) taken dropped
      ∙ size_of-expected (d ∷ ds ++ suffix) d ds suffix f reads all e positive refl
