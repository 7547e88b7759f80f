-- ===== src/Memory/Words/Laws.antt =====
-- What the checked arithmetic, the alignment and the address range of runtime_memory.cc compute.
use native.Mathlib.Nat.{
  le-div_iff_mul-le, one-le-pow, pow-le-pow_right, mod-eq_of_lt, lt-div-mul-add, div-mul-le_self,
  mul-mod_left, zero-lt-suc, mul_comm, pow-suc,
}
use lona_mvm.Prelude.{
  ℕ, zero, suc, ◌+◌, ◌-◌, ◌*◌, ◌/◌, ◌%◌, ◌^◌, ◌≤◌, ◌<◌, ◌≡◌, ◌≢◌, true, some, none, arith,
  if◌then◌else◌, ltb, bit_and, ap, ◌↔◌, Bool-cases, inl, inr,
}
use lona_mvm.Prelude.Bits.{and-high_mask, power_of_two, and-pow_pred}
use lona_mvm.Memory.Words.{
  word, size_max, is_power_of_two, checked_add, checked_mul, align_up, allocation_last_address,
}

-- For two sizes, `checkedAdd` returns the exact sum where it fits in a word, and fails where not.
pub checked_add_lem :
    (lhs rhs : ℕ)
    → lhs < word
    → rhs < word
    → checked_add lhs rhs ≡ (if ltb (lhs + rhs) word then some (lhs + rhs) else none)
unfolding checked_add
checked_add_lem lhs rhs hl hr = ground arith

-- For two sizes, `checkedMul` returns the exact product where it fits in a word, and fails where not.
pub checked_mul_lem :
    (lhs rhs : ℕ)
    → lhs < word
    → rhs < word
    → checked_mul lhs rhs ≡ (if ltb (lhs * rhs) word then some (lhs * rhs) else none)
unfolding checked_mul
checked_mul_lem zero rhs hl hr = ground arith
checked_mul_lem (suc l) rhs hl hr =
    let fits = le-div_iff_mul-le {x = rhs} {y = size_max} (zero-lt-suc l) in
    ground (arith, fits.0, fits.1, mul_comm rhs (suc l))

pub pow-lt_word : (k : ℕ) → k < 64 → 2 ^ k < word
pow-lt_word k h =
    let p = pow-suc 2 k in
    let q = pow-le-pow_right {n = 2} (omega arith) {i = suc k} {j = 64} h in
    let pos = one-le-pow k 2 (omega arith) in omega arith

-- alignment - 1 does not wrap where the alignment is not 0.
pub low_eq : (a : ℕ) → 1 ≤ a → a ≤ word → (a + word - 1) % word ≡ a - 1
low_eq a lo hi = omega arith

pub is_power_of_two-pow : (k : ℕ) → k < 64 → is_power_of_two (2 ^ k) ≡ true
unfolding is_power_of_two
is_power_of_two-pow k h =
    let lo = one-le-pow k 2 (omega arith) in
    let hi = pow-lt_word k h in
    let e = low_eq (2 ^ k) lo (omega arith) in rw (e, and-pow_pred k) (ground arith)

pow-is_power_of_two : (x : ℕ) → x < word → is_power_of_two x ≡ true → (k : ℕ) × (x ≡ 2 ^ k)
unfolding is_power_of_two
pow-is_power_of_two x h e =
    let pos : x ≢ 0 = ground arith in
    let p : (x + word - 1) % word ≡ x - 1 = omega arith in
    power_of_two x pos (ground (arith, ap (bit_and x) p))

exponent_lt : (k : ℕ) → 2 ^ k < word → k < 64
exponent_lt k h = elim (Bool-cases (ltb k 64)) [
  | inl lo ↦ ground arith
  | inr hi ↦
      absurd
        (omega (arith, h, pow-le-pow_right {n = 2} (omega arith) {i = 64} {j = k} (ground arith)))
]

-- For a word, `isPowerOfTwo` accepts the powers of two and nothing else.
pub is_power_of_two_iff : (x : ℕ) → x < word → (is_power_of_two x ≡ true) ↔ ((k : ℕ) × (x ≡ 2 ^ k))
is_power_of_two_iff x h = (
  pow-is_power_of_two x h,
  λ (k, e). rw e (is_power_of_two-pow k (exponent_lt k (omega (arith, e)))),
)

-- Rounding up to 2 ^ k.
pub align_up-eq :
    (value k : ℕ)
    → k ≤ 64
    → value + 2 ^ k ≤ word
    → align_up value (2 ^ k) ≡ (value + (2 ^ k - 1)) / 2 ^ k * 2 ^ k
unfolding align_up
align_up-eq value k hk h =
    let lo = one-le-pow k 2 (omega arith) in
    let low : (2 ^ k + word - 1) % word ≡ 2 ^ k - 1 = low_eq (2 ^ k) lo (omega arith) in
    let sum : (value + (2 ^ k - 1)) % word ≡ value + (2 ^ k - 1) = mod-eq_of_lt (omega arith) in
    let mask : word - 1 - (2 ^ k - 1) ≡ word - 2 ^ k = omega arith in
    rw (low, sum, mask) (and-high_mask k 64 (value + (2 ^ k - 1)) hk (omega arith))

-- For an alignment 2 ^ k and an address that leaves room for it, `alignUp` returns the least
-- multiple of the alignment that is not below the address.
pub align_up_bounds :
    (value k : ℕ)
    → k ≤ 64
    → value + 2 ^ k ≤ word
    → (value ≤ align_up value (2 ^ k))
      × (align_up value (2 ^ k) < value + 2 ^ k)
      × (align_up value (2 ^ k) % 2 ^ k ≡ 0)
align_up_bounds value k hk h =
    let pos = one-le-pow k 2 (omega arith) in
    let up = value + (2 ^ k - 1) in
    rw (align_up-eq value k hk h) (
      omega (arith, lt-div-mul-add {a = up} pos),
      omega (arith, div-mul-le_self up (2 ^ k)),
      mul-mod_left (up / 2 ^ k) (2 ^ k),
    )

-- For a payload of at least one byte that starts inside the address space, the last address is the
-- end of the range, cut off at the end of the address space.
pub allocation_last_address_lem :
    (address size : ℕ)
    → address < word
    → 0 < size
    → size < word
    → allocation_last_address address size
      ≡ (if ltb (address + size) word then address + size - 1 else size_max)
unfolding allocation_last_address
allocation_last_address_lem address size ha pos hs = ground arith
