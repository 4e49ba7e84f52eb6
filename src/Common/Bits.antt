-- ===== src/Common/Bits.antt =====
-- `x & (2^k - 1)` is the remainder by 2^k, and `&` never exceeds its right side.
use Prim.Native.Nat.{digits, bit_and-bitwise}
use native.Mathlib.Nat.{
  pow-suc, mod-lt, mod-eq_of_lt, mod_self, div-add-mod, mul-add-mod_self_right,
}
use android_bootable_recover.Common.{
  ℕ, zero, suc, ◌+◌, ◌-◌, ◌*◌, ◌/◌, ◌%◌, ◌^◌, ◌≤◌, ◌<◌, bit_and, min, ◌≡◌, refl, ap, arith, ◌==◌,
  if◌then◌else◌,
}

-- `&` digit by digit, with a count that bounds the digits of the left side
abbrev both_digits : ℕ → ℕ → ℕ → ℕ
both_digits count x y = digits (λ y. zero) min count x y

both_digits_count : (c d x y : ℕ) → x ≤ c → x ≤ d → both_digits c x y ≡ both_digits d x y
both_digits_count zero zero x y h k = refl
both_digits_count zero (suc d) zero y h k = refl
both_digits_count zero (suc d) (suc x) y h k = absurd (omega arith)
both_digits_count (suc c) zero zero y h k = refl
both_digits_count (suc c) zero (suc x) y h k = absurd (omega arith)
both_digits_count (suc c) (suc d) zero y h k = refl
both_digits_count (suc c) (suc d) (suc x) y h k =
    omega (arith, both_digits_count c d (suc x / 2) (y / 2) (omega arith) (omega arith))

-- the lowest digit, and the others
bit_and_halves : (x y : ℕ) → bit_and x y ≡ min (x % 2) (y % 2) + 2 * bit_and (x / 2) (y / 2)
bit_and_halves zero y = omega (arith, bit_and-bitwise 0 y, bit_and-bitwise 0 (y / 2))
bit_and_halves (suc x) y = omega (
  arith,
  bit_and-bitwise (suc x) y,
  bit_and-bitwise (suc x / 2) (y / 2),
  both_digits_count x (suc x / 2) (suc x / 2) (y / 2) (omega arith) (omega arith),
)

bit_and-le_bounded : (n x y : ℕ) → x ≤ n → bit_and x y ≤ y
bit_and-le_bounded n zero y h = omega (arith, bit_and-bitwise 0 y)
bit_and-le_bounded zero (suc x) y h = absurd (omega arith)
bit_and-le_bounded (suc n) (suc x) y h =
    omega (arith, bit_and_halves (suc x) y, bit_and-le_bounded n (suc x / 2) (y / 2) (omega arith))

pub bit_and-le : (x y : ℕ) → bit_and x y ≤ y
bit_and-le x y = bit_and-le_bounded x x y (omega arith)

pub one-le-two_pow : (k : ℕ) → 1 ≤ 2 ^ k
one-le-two_pow zero = omega arith
one-le-two_pow (suc k) = rw (pow-suc 2 k) (omega (arith, one-le-two_pow k))

-- the remainder by twice `p`, from the lowest digit and the remainder of the others by `p`
mod_halves : (p x : ℕ) → 1 ≤ p → x % (p * 2) ≡ x % 2 + 2 * (x / 2 % p)
mod_halves p x h =
    let r = x % 2 + 2 * (x / 2 % p) in
    let small : r < p * 2 = omega (arith, mod-lt (x / 2) h) in
    let whole : x ≡ (x / 2 / p) * (p * 2) + r = grind (arith, div-add-mod (x / 2) p) in
    rw (ap (λ (t : ℕ). t % (p * 2)) whole, mul-add-mod_self_right (x / 2 / p) (p * 2) r)
      (mod-eq_of_lt small)

pub bit_and_mask : (k x : ℕ) → bit_and x (2 ^ k - 1) ≡ x % 2 ^ k
bit_and_mask zero x = omega (arith, bit_and-le x 0)
bit_and_mask (suc k) x =
    let p = 2 ^ k in
    let positive = one-le-two_pow k in
    let half : (p * 2 - 1) / 2 ≡ p - 1 = omega arith in
    let odd : (p * 2 - 1) % 2 ≡ 1 = omega arith in
    rw
      (
        pow-suc 2 k,
        bit_and_halves x (p * 2 - 1),
        half,
        odd,
        bit_and_mask k (x / 2),
        mod_halves p x positive,
      )
      (omega arith)

-- one step of a ring of 2^k places
pub bit_and_next :
    (k i : ℕ) → i < 2 ^ k → bit_and (i + 1) (2 ^ k - 1) ≡ (if i + 1 == 2 ^ k then 0 else i + 1)
bit_and_next k i h =
    ground (arith, bit_and_mask k (i + 1), mod-eq_of_lt {n = i + 1} {m = 2 ^ k}, mod_self (2 ^ k))
