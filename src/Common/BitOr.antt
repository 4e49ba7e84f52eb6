-- ===== src/Common/BitOr.antt =====
-- `|` on numbers: digit by digit, shifted, and with a number of ones.
use Prim.Native.Nat.{digits, bit_or-bitwise, max}
use native.Mathlib.Nat.{div-lt_iff_lt-mul, div-eq_of_lt, pow-succ', div-div-eq-div-mul, div-one}
use android_bootable_recover.Common.{
  ℕ, zero, suc, ◌+◌, ◌-◌, ◌*◌, ◌/◌, ◌%◌, ◌^◌, ◌≤◌, ◌<◌, bit_or, max, ◌≡◌, refl, arith,
}
use android_bootable_recover.Common.Bits.{one-le-two_pow}

abbrev either_digits : ℕ → ℕ → ℕ → ℕ
either_digits count x y = digits (λ y. y) max count x y

either_digits_count : (c d x y : ℕ) → x ≤ c → x ≤ d → either_digits c x y ≡ either_digits d x y
either_digits_count zero zero x y h k = refl
either_digits_count zero (suc d) zero y h k = refl
either_digits_count zero (suc d) (suc x) y h k = absurd (omega arith)
either_digits_count (suc c) zero zero y h k = refl
either_digits_count (suc c) zero (suc x) y h k = absurd (omega arith)
either_digits_count (suc c) (suc d) zero y h k = refl
either_digits_count (suc c) (suc d) (suc x) y h k =
    omega (arith, either_digits_count c d (suc x / 2) (y / 2) (omega arith) (omega arith))

-- the lowest digit, and the others
pub bit_or_halves : (x y : ℕ) → bit_or x y ≡ max (x % 2) (y % 2) + 2 * bit_or (x / 2) (y / 2)
bit_or_halves zero y = omega (arith, bit_or-bitwise 0 y, bit_or-bitwise 0 (y / 2))
bit_or_halves (suc x) y = omega (
  arith,
  bit_or-bitwise (suc x) y,
  bit_or-bitwise (suc x / 2) (y / 2),
  either_digits_count x (suc x / 2) (suc x / 2) (y / 2) (omega arith) (omega arith),
)

-- `|` commutes with a shift to the right.
pub bit_or-shift : (k x y : ℕ) → bit_or x y / 2 ^ k ≡ bit_or (x / 2 ^ k) (y / 2 ^ k)
bit_or-shift zero x y = simp div-one
bit_or-shift (suc k) x y =
    let p = 2 ^ k in
    let half : bit_or x y / 2 ≡ bit_or (x / 2) (y / 2) = omega (arith, bit_or_halves x y) in
    rw
      (
        pow-succ' 2 k,
        ← div-div-eq-div-mul (bit_or x y) 2 p,
        ← div-div-eq-div-mul x 2 p,
        ← div-div-eq-div-mul y 2 p,
        half,
      )
      (bit_or-shift k (x / 2) (y / 2))

bit_or-zero_bounded : (n x : ℕ) → x ≤ n → bit_or x 0 ≡ x
bit_or-zero_bounded n zero h = bit_or-bitwise 0 0
bit_or-zero_bounded zero (suc x) h = absurd (omega arith)
bit_or-zero_bounded (suc n) (suc x) h =
    omega (arith, bit_or_halves (suc x) 0, bit_or-zero_bounded n (suc x / 2) (omega arith))

-- with 2^k - 1: the lowest k digits become ones
pub bit_or_mask : (k x : ℕ) → bit_or x (2 ^ k - 1) ≡ x / 2 ^ k * 2 ^ k + (2 ^ k - 1)
bit_or_mask zero x = omega (arith, bit_or-zero_bounded x x (omega arith))
bit_or_mask (suc k) x =
    let p = 2 ^ k in
    let positive = one-le-two_pow k in
    let half : (2 * p - 1) / 2 ≡ p - 1 = omega arith in
    let odd : (2 * p - 1) % 2 ≡ 1 = omega arith in
    let q = x / 2 / p in
    let regroup : q * (2 * p) ≡ 2 * (q * p) = grind arith in
    rw
      (
        pow-succ' 2 k,
        ← div-div-eq-div-mul x 2 p,
        bit_or_halves x (2 * p - 1),
        half,
        odd,
        bit_or_mask k (x / 2),
        regroup,
      )
      (omega arith)

pub bit_or-lt : (k x y : ℕ) → x < 2 ^ k → y < 2 ^ k → bit_or x y < 2 ^ k
bit_or-lt k x y hx hy =
    let positive = one-le-two_pow k in
    let shifted : bit_or x y / 2 ^ k ≡ 0 =
      rw (bit_or-shift k x y, div-eq_of_lt hx, div-eq_of_lt hy) (bit_or-bitwise 0 0) in
    omega (arith, (div-lt_iff_lt-mul {x = bit_or x y} {y = 1} positive).0 (omega (arith, shifted)))

le-bit_or_bounded : (n x y : ℕ) → x ≤ n → x ≤ bit_or x y
le-bit_or_bounded n zero y h = omega arith
le-bit_or_bounded zero (suc x) y h = absurd (omega arith)
le-bit_or_bounded (suc n) (suc x) y h =
    omega (arith, bit_or_halves (suc x) y, le-bit_or_bounded n (suc x / 2) (y / 2) (omega arith))

pub le-bit_or : (x y : ℕ) → x ≤ bit_or x y
le-bit_or x y = le-bit_or_bounded x x y (omega arith)

pub two_pow_add : (a b : ℕ) → 2 ^ (a + b) ≡ 2 ^ a * 2 ^ b
two_pow_add zero b = let e : 0 + b ≡ b = omega arith in rw e (omega arith)
two_pow_add (suc a) b =
    let e : suc a + b ≡ suc (a + b) = omega arith in
    rw (e, pow-succ' 2 (a + b), pow-succ' 2 a, two_pow_add a b) (grind arith)
