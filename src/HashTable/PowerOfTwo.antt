-- ===== src/HashTable/PowerOfTwo.antt =====
-- `roundUpPower2` of minzip/Hash.c gives the next power of two, so that a created table is valid.
use native.Mathlib.Nat.{
  mod-lt, div-one, pow-succ', div-le_self, pow-le-pow_right, div-add-mod, mul_comm,
  div-div-eq-div-mul, div-eq_of_lt-le,
}
use android_bootable_recover.Common.{
  ℕ, zero, suc, ◌+◌, ◌-◌, ◌*◌, ◌/◌, ◌%◌, ◌^◌, ◌≤◌, ◌<◌, bit_or, ◌≡◌, refl, sym, ap, ◌∙◌, ◌⊎◌, inl,
  inr, true, false, none, some, arith, ltb, leb, ◌==◌, tests, Bool-cases, replicate,
}
use android_bootable_recover.Common.Bits.{one-le-two_pow}
use android_bootable_recover.Common.BitOr.{
  bit_or-shift, bit_or_mask, bit_or-lt, le-bit_or, two_pow_add,
}
use android_bootable_recover.HashTable.{
  free_entry, HashEntry, ok, HashTable, create, round_up_power2,
}
use android_bootable_recover.HashTable.Contents.{copies, IsValid}
use android_bootable_recover.HashTable.Operations.{empty-IsValid}
use android_bootable_recover.HashTable.Resize.{copies-replicate}

-- The highest `j` digits of a number of m + j digits are ones.
abbrev Ones : ℕ → ℕ → ℕ → Type 0
Ones m j x = x / 2 ^ m ≡ 2 ^ j - 1

pred-mul : (a b : ℕ) → 1 ≤ a → (a - 1) * b + b ≡ a * b
pred-mul zero b h = absurd (omega arith)
pred-mul (suc a) b h =
    let e : (a + 1) * b ≡ a * b + b = grind arith in
    let f : suc a - 1 ≡ a = omega arith in rw f (omega (arith, e))

ones_join : (q p : ℕ) → 1 ≤ q → 1 ≤ p → (q - 1) * p + (p - 1) ≡ q * p - 1
ones_join q p h k = omega (arith, pred-mul q p h)

Ones-double : (m j x : ℕ) → Ones (j + m) j x → Ones m (j + j) (bit_or x (x / 2 ^ j))
Ones-double m j x h =
    let p = 2 ^ m in
    let q = 2 ^ j in
    let high : x / q / p ≡ q - 1 =
      div-div-eq-div-mul x q p ∙ (ap (λ d. x / d) (sym (two_pow_add j m)) ∙ h) in
    let low : x / p / q ≡ q - 1 =
      div-div-eq-div-mul x p q ∙ (ap (λ d. x / d) (mul_comm p q ∙ sym (two_pow_add j m)) ∙ h) in
    rw (bit_or-shift m x (x / q), high, bit_or_mask j (x / p), low, two_pow_add j j)
      (ones_join q q (one-le-two_pow j) (one-le-two_pow j))

-- When fewer digits remain than are ones, all become ones.
Ones-all :
    (m j x : ℕ) → m ≤ j → x < 2 ^ (m + j) → Ones m j x → bit_or x (x / 2 ^ j) ≡ 2 ^ (m + j) - 1
Ones-all m j x h lt e =
    let p = 2 ^ m in
    let q = 2 ^ j in
    let one_p = one-le-two_pow m in
    let one_q = one-le-two_pow j in
    let split : p * (x / p) + x % p ≡ x = div-add-mod x p in
    let whole : 2 ^ (m + j) ≡ q * p = two_pow_add m j ∙ mul_comm p q in
    let p-le-q : p ≤ q = pow-le-pow_right (omega arith) h in
    let product : x / p * p ≡ p * (x / p) = mul_comm (x / p) p in
    let lower : (p - 1) * q ≤ x = omega (
      arith,
      split,
      product,
      pred-mul q p one_q,
      pred-mul p q one_p,
      mul_comm p q,
      ap (λ d. d * p) e,
    ) in
    let back : p - 1 + 1 ≡ p = omega arith in
    let upper : x < (p - 1 + 1) * q = rw back (omega (arith, mul_comm p q, whole, lt)) in
    let shifted : x / q ≡ p - 1 = div-eq_of_lt-le q lower upper in
    rw (shifted, bit_or_mask m x, e, whole) (ones_join q p one_q one_p)

-- After the digits were doubled to `J` ones: all of the n digits, or the highest `J`.
abbrev Smeared : ℕ → ℕ → ℕ → Type 0
Smeared n J x = (x ≡ 2 ^ n - 1) ⊎ ((m : ℕ) × (m + J ≡ n) × Ones m J x)

smear :
    (n J x : ℕ)
    → x < 2 ^ n
    → Smeared n J x
    → Smeared n (J + J) (bit_or x (x / 2 ^ J)) × (bit_or x (x / 2 ^ J) < 2 ^ n)
smear n J x lt s =
    let less : x / 2 ^ J ≤ x = div-le_self x (2 ^ J) in
    let lt' : bit_or x (x / 2 ^ J) < 2 ^ n = bit_or-lt n x (x / 2 ^ J) lt (omega arith) in
    (
      elim s [
        | inl e ↦ inl (omega (arith, le-bit_or x (x / 2 ^ J)))
        | inr (m, w, ones) ↦ elim (Bool-cases (ltb m J)) [
          | inl few ↦ inl (Ones-all m J x (omega tests) (rw w lt) ones ∙ ap (λ k. 2 ^ k - 1) w)
          | inr many ↦
              let e : m ≡ J + (m - J) = ground arith in
              inr (m - J, ground arith, Ones-double (m - J) J x (rw e at ones))
        ]
      ],
      lt',
    )

-- the place of the highest one
highest : (fuel x : ℕ) → 1 ≤ x → x ≤ fuel → (m : ℕ) × (x / 2 ^ m ≡ 1)
highest zero x h k = absurd (omega arith)
highest (suc fuel) x h k = elim (Bool-cases (x == 1)) [
  | inl one ↦ (0, ground arith)
  | inr more ↦
      let (m, e) = highest fuel (x / 2) (ground arith) (omega arith) in
      (suc m, rw (pow-succ' 2 m, ← div-div-eq-div-mul x 2 (2 ^ m)) e)
]

-- what the five steps leave of x
abbrev smeared : ℕ → ℕ
smeared v0 =
    let v1 = bit_or v0 (v0 / 2 ^ 1) in
    let v2 = bit_or v1 (v1 / 2 ^ 2) in
    let v3 = bit_or v2 (v2 / 2 ^ 4) in let v4 = bit_or v3 (v3 / 2 ^ 8) in bit_or v4 (v4 / 2 ^ 16)

smeared-pow : (x n : ℕ) → n ≤ 32 → x < 2 ^ n → Smeared n 1 x → smeared x ≡ 2 ^ n - 1
smeared-pow x n few lt s =
    let (s1, lt1) = smear n 1 x lt s in
    let (s2, lt2) = smear n 2 (bit_or x (x / 2 ^ 1)) lt1 s1 in
    let (s3, lt3) = smear n 4 _ lt2 s2 in
    let (s4, lt4) = smear n 8 _ lt3 s3 in
    let (s5, lt5) = smear n 16 _ lt4 s4 in
    elim s5 [
      | inl e ↦ e
      | inr (m, w, ones) ↦
          let none_left : m ≡ 0 = omega arith in
          let all : n ≡ 32 = omega arith in rw all (sym (div-one _) ∙ rw none_left at ones)
    ]

-- a number between two powers of two
bracket : (x m : ℕ) → x / 2 ^ m ≡ 1 → (2 ^ m ≤ x) × (x < 2 ^ suc m)
bracket x m e =
    let p = 2 ^ m in
    let split : p * (x / p) + x % p ≡ x = div-add-mod x p in
    let one : p * (x / p) ≡ p = rw (e) (omega arith) in
    let small = mod-lt x (one-le-two_pow m) in (omega arith, rw (pow-succ' 2 m) (omega arith))

exponent_small : (x m : ℕ) → 2 ^ m ≤ x → x < 2 ^ 31 → m < 31
exponent_small x m ge lt = elim (Bool-cases (ltb m 31)) [
  | inl few ↦ omega tests
  | inr many ↦
      absurd (omega (arith, pow-le-pow_right {n = 2} (omega arith) {i = 31} {j = m} (ground arith)))
]

smeared_next :
    (x : ℕ)
    → 1 ≤ x
    → x < 2 ^ 31
    → (n : ℕ) × (n ≤ 31) × (smeared x ≡ 2 ^ n - 1) × (x < 2 ^ n) × (2 ^ n ≤ 2 * x)
smeared_next x h lt =
    let (m, e) = highest x x h (omega arith) in
    let (ge, below) = bracket x m e in
    let few = exponent_small x m ge lt in
    (
      suc m,
      few,
      smeared-pow x (suc m) (omega arith) below (inr (m, omega arith, e)),
      below,
      rw (pow-succ' 2 m) (omega arith),
    )

wrapped : (n : ℕ) → n ≤ 31 → (2 ^ n - 1 + 1) % 2 ^ 32 ≡ 2 ^ n
wrapped n few =
    let whole : 2 ^ n ≤ 2 ^ 31 = pow-le-pow_right {n = 2} (omega arith) few in
    omega (arith, one-le-two_pow n)

round_of :
    (val x n : ℕ)
    → (val + 2 ^ 32 - 1) % 2 ^ 32 ≡ x
    → smeared x ≡ 2 ^ n - 1
    → n ≤ 31
    → round_up_power2 val ≡ 2 ^ n
unfolding round_up_power2
round_of val x n start e few = rw (start, e) (wrapped n few)

-- `roundUpPower2` gives the smallest power of two that is not below its argument, for an argument
-- from 1 to 2^31.
pub round_up_power2-pow :
    (val : ℕ)
    → 1 ≤ val
    → val ≤ 2 ^ 31
    → (n : ℕ) × (n ≤ 31) × (round_up_power2 val ≡ 2 ^ n) × (val ≤ 2 ^ n) × (2 ^ n < 2 * val)
unfolding round_up_power2
round_up_power2-pow zero h k = absurd (omega arith)
round_up_power2-pow (suc zero) h k = (0, omega arith, refl, omega arith, omega arith)
round_up_power2-pow (suc (suc y)) h k =
    let x = suc y in
    let start : (suc x + 2 ^ 32 - 1) % 2 ^ 32 ≡ x = omega arith in
    let (n, few, e, lt, le) = smeared_next x (omega arith) (omega arith) in
    (n, few, round_of (suc x) x n start e few, omega arith, omega arith)

below_half : (n : ℕ) → n ≤ 31 → 2 ^ n < 2 ^ 31 → leb (2 ^ 31) (2 ^ n) ≡ false
below_half n few lt = ground (arith, lt)

at_half : (n val : ℕ) → n ≤ 31 → 2 ^ 30 < val → val ≤ 2 ^ n → leb (2 ^ 31) (2 ^ n) ≡ true
at_half n val few big ge = elim (Bool-cases (ltb n 31)) [
  | inl less ↦ absurd (
      omega
        (arith, big, ge, pow-le-pow_right {n = 2} (omega arith) {i = n} {j = 30} (ground arith)))
  | inr more ↦ let e : n ≡ 31 = ground arith in rw e refl
]

small_power : (n val : ℕ) → n ≤ 31 → val ≤ 2 ^ 30 → 2 ^ n < 2 * val → 2 ^ n < 2 ^ 31
small_power n val few small lt = omega (arith, small, lt)

-- `mzHashTableCreate` with an initial size from 1 to 2^30 gives a valid table that holds nothing. Its
-- size is the smallest power of two that is not below the initial size. From there to 2^31 it gives
-- NULL.
pub create-IsValid :
    (initial_size : ℕ)
    → 1 ≤ initial_size
    → initial_size ≤ 2 ^ 31
    → ((initial_size ≤ 2 ^ 30)
        × ((t : HashTable) × (create initial_size ≡ ok (some t))
            × IsValid t
            × (initial_size ≤ t.table_size)
            × (t.table_size < 2 * initial_size)
            × (t.num_entries ≡ 0)
            × (t.num_dead_entries ≡ 0)
            × ((f : HashEntry) → copies f t.entries ≡ 0)))
      ⊎ ((2 ^ 30 < initial_size) × (create initial_size ≡ ok none))
unfolding create
create-IsValid initial_size h k =
    let (n, few, e, ge, lt) = round_up_power2-pow initial_size h k in
    let some_size : (initial_size == 0) ≡ false = ground arith in
    elim (Bool-cases (leb initial_size (2 ^ 30))) [
      | inr big ↦
          let big' : 2 ^ 30 < initial_size = ground arith in
          inr (big', rw (some_size, e, at_half n initial_size few big' ge))
      | inl small ↦
          let small' : initial_size ≤ 2 ^ 30 = ground arith in
          inl (
            small',
            (
              record {
                table_size = 2 ^ n;
                num_entries = 0;
                num_dead_entries = 0;
                entries = replicate (2 ^ n) free_entry;
              },
              rw (some_size, e, below_half n few (small_power n initial_size few small' lt)),
              empty-IsValid n,
              ge,
              lt,
              refl,
              refl,
              λ f. copies-replicate f (2 ^ n),
            ),
          )
    ]
