-- ===== src/Prelude/Bits.antt =====
-- Bitwise "and" at variables: the digit recursion, masks of high bits, and the test for powers of two.
use Prim.Native.Nat.{
  ℕ, zero, suc, ◌+◌, ◌-◌, ◌*◌, ◌/◌, ◌%◌, ◌^◌, ◌≤◌, ◌<◌, min, digits, bit_and, bit_and-bitwise,
}
use native.Mathlib.Nat.{pow-suc, div-div-eq-div-mul, mul_comm, mul_assoc, one-le-pow, div-one}
use native.Mathlib.Omega.{arith}
use native.Mathlib.Decide.{ℕ_discrete}
use mathlib.Core.Path.{◌≡◌, refl, ap}
use mathlib.Core.Logic.{◌≢◌}

-- The recursion behind `bit_and`, with the count of digits to go set free.
abbrev and_layers : ℕ → ℕ → ℕ → ℕ
and_layers = digits (λ _. zero) min

-- Any count that is not below the first number gives the same digits.
and_layers_enough : (i j x y : ℕ) → x ≤ i → x ≤ j → and_layers i x y ≡ and_layers j x y
and_layers_enough zero zero x y hi hj = refl
and_layers_enough zero (suc j) zero y hi hj = refl
and_layers_enough zero (suc j) (suc x) y hi hj = absurd (omega arith)
and_layers_enough (suc i) zero zero y hi hj = refl
and_layers_enough (suc i) zero (suc x) y hi hj = absurd (omega arith)
and_layers_enough (suc i) (suc j) zero y hi hj = refl
and_layers_enough (suc i) (suc j) (suc x) y hi hj =
    omega (arith, and_layers_enough i j (suc x / 2) (y / 2) (omega arith) (omega arith))

zero-and : (y : ℕ) → bit_and 0 y ≡ 0
zero-and y = bit_and-bitwise 0 y

-- The lowest digit is the smaller of the two lowest digits.
pub and-halves : (x y : ℕ) → bit_and x y ≡ bit_and (x / 2) (y / 2) * 2 + min (x % 2) (y % 2)
and-halves zero y = omega (arith, zero-and y, zero-and (y / 2))
and-halves (suc x) y =
    let whole = bit_and-bitwise (suc x) y in
    let half = bit_and-bitwise (suc x / 2) (y / 2) in
    let same = and_layers_enough x (suc x / 2) (suc x / 2) (y / 2) (omega arith) (omega arith) in
    omega (arith, whole, half, same)

-- 2 ^ n - 1 keeps every number below 2 ^ n.
and_ones : (n x : ℕ) → x < 2 ^ n → bit_and x (2 ^ n - 1) ≡ x
and_ones zero zero h = zero-and 0
and_ones zero (suc x) h = absurd (omega arith)
and_ones (suc n) x h =
    let p = pow-suc 2 n in
    let pos = one-le-pow n 2 (omega arith) in
    let e : (2 ^ suc n - 1) / 2 ≡ 2 ^ n - 1 = omega arith in
    let ih = and_ones n (x / 2) (omega arith) in
    let step = and-halves x (2 ^ suc n - 1) in rw (step, e, ih) (omega arith)

-- The mask of the digits from `k` up to `n` rounds down to a multiple of 2 ^ k.
pub and-high_mask : (k n x : ℕ) → k ≤ n → x < 2 ^ n → bit_and x (2 ^ n - 2 ^ k) ≡ x / 2 ^ k * 2 ^ k
and-high_mask zero n x h lt = omega (arith, and_ones n x lt, div-one x)
and-high_mask (suc k) zero x h lt = absurd (omega arith)
and-high_mask (suc k) (suc n) x h lt =
    let p = pow-suc 2 n in
    let q = pow-suc 2 k in
    let e : (2 ^ suc n - 2 ^ suc k) / 2 ≡ 2 ^ n - 2 ^ k = omega arith in
    let ih = and-high_mask k n (x / 2) (omega arith) (omega arith) in
    let d : x / 2 / 2 ^ k ≡ x / 2 ^ suc k =
      rw (div-div-eq-div-mul x 2 (2 ^ k), mul_comm 2 (2 ^ k), pow-suc 2 k) in
    let even : (2 ^ suc n - 2 ^ suc k) % 2 ≡ 0 = omega arith in
    rw (and-halves x (2 ^ suc n - 2 ^ suc k), e, ih, d, even)
      (rw (pow-suc 2 k) (omega (arith, mul_assoc (x / (2 ^ k * 2)) (2 ^ k) 2)))

and_self_fuel : (n x : ℕ) → x ≤ n → bit_and x x ≡ x
and_self_fuel zero zero h = zero-and 0
and_self_fuel zero (suc x) h = absurd (omega arith)
and_self_fuel (suc n) zero h = zero-and 0
and_self_fuel (suc n) (suc x) h =
    omega (arith, and-halves (suc x) (suc x), and_self_fuel n (suc x / 2) (omega arith))

power_of_two_fuel : (n x : ℕ) → x ≤ n → 0 < x → bit_and x (x - 1) ≡ 0 → (k : ℕ) × (x ≡ 2 ^ k)
power_of_two_fuel zero x h pos e = absurd (omega arith)
power_of_two_fuel (suc n) x h pos e = elim (ℕ_discrete (x % 2) 0) [
  | yes even ↦
      let half : (x - 1) / 2 ≡ x / 2 - 1 = omega arith in
      let (k, p) =
        power_of_two_fuel n (x / 2) (omega arith) (omega arith)
          (omega (arith, and-halves x (x - 1), ap (bit_and (x / 2)) half)) in
      (suc k, omega (arith, pow-suc 2 k))
  | no odd ↦
      let half : (x - 1) / 2 ≡ x / 2 = omega arith in
      let self = and_self_fuel (x / 2) (x / 2) (omega arith) in
      (0, omega (arith, and-halves x (x - 1), ap (bit_and (x / 2)) half))
]

-- x & (x - 1) is zero at powers of two only.
pub power_of_two : (x : ℕ) → x ≢ 0 → bit_and x (x - 1) ≡ 0 → (k : ℕ) × (x ≡ 2 ^ k)
power_of_two x h e = power_of_two_fuel x x (omega arith) (omega arith) e

-- And it is zero at each of them.
pub and-pow_pred : (k : ℕ) → bit_and (2 ^ k) (2 ^ k - 1) ≡ 0
and-pow_pred zero = refl
and-pow_pred (suc k) =
    let p = pow-suc 2 k in
    let pos = one-le-pow k 2 (omega arith) in
    let whole : 2 ^ suc k / 2 ≡ 2 ^ k = omega arith in
    let half : (2 ^ suc k - 1) / 2 ≡ 2 ^ k - 1 = omega arith in
    let even : 2 ^ suc k % 2 ≡ 0 = omega arith in
    rw (and-halves (2 ^ suc k) (2 ^ suc k - 1), whole, half, even, and-pow_pred k) (omega arith)
