-- ===== src/Edify/Number/Print.antt =====
-- `strtol` reads what `%d` prints.
use android_bootable_recover.Common.{
  ℕ, zero, suc, ◌+◌, ◌-◌, ◌*◌, ◌/◌, ◌%◌, ◌≤◌, ◌<◌, ◌≡◌, refl, inl, inr, true, false, [], ◌∷◌, arith,
  ltb, ◌==◌, ltb→lt, Bool-cases,
}
use android_bootable_recover.Common.Int.{ℤ, pos, negsuc, pos_part, neg_part}
use android_bootable_recover.Edify.Text.{CString}
use android_bootable_recover.Edify.Number.{
  is_digit, is_space, read_digits, long_max, clamp, strtol, show_onto, show, show_int,
}

digit : (n : ℕ) → is_digit (n % 10 + 48) ≡ true
digit n = ground arith

read_digits-show_onto :
    (fuel n : ℕ) (tail : CString)
    → n < fuel
    → read_digits 0 (show_onto fuel n tail) ≡ read_digits n tail
unfolding show_onto read_digits
read_digits-show_onto zero n tail h = absurd (omega arith)
read_digits-show_onto (suc fuel) n tail h = elim (Bool-cases (ltb n 10)) [
  | inl small ↦
      let whole : 0 * 10 + (n % 10 + 48 - 48) ≡ n = omega (arith, ltb→lt) in
      rw (small, digit n, whole)
  | inr large ↦
      let whole : n / 10 * 10 + (n % 10 + 48 - 48) ≡ n = omega arith in
      rw (
        large,
        read_digits-show_onto fuel (n / 10) ((n % 10 + 48) ∷ tail) (ground arith),
        read_digits,
        digit n,
        whole,
      )
]

-- a text that begins with a digit
data Numeral : CString → Type 0 where
  numeral : (c : ℕ) (cs : CString) → is_digit c ≡ true → Numeral (c ∷ cs)

show_onto-Numeral : (fuel n : ℕ) (tail : CString) → n < fuel → Numeral (show_onto fuel n tail)
unfolding show_onto
show_onto-Numeral zero n tail h = absurd (omega arith)
show_onto-Numeral (suc fuel) n tail h = elim (Bool-cases (ltb n 10)) [
  | inl small ↦ rw small (numeral (n % 10 + 48) tail (digit n))
  | inr large ↦ rw large (show_onto-Numeral fuel (n / 10) ((n % 10 + 48) ∷ tail) (ground arith))
]

-- no blank, no sign and some digit: the text is read from its first byte on
strtol-Numeral :
    {s : CString} → Numeral s → strtol s ≡ (clamp false (read_digits 0 s).0, (read_digits 0 s).1)
unfolding strtol read_digits
strtol-Numeral (numeral c cs h) =
    let blank : is_space c ≡ false = ground arith in
    let minus : (c == b'-') ≡ false = ground arith in
    let plus : (c == b'+') ≡ false = ground arith in rw (blank, minus, plus, h)

-- a number of the type `long`
abbrev pub IsLong : ℤ → Type 0
IsLong v = (pos_part v ≤ long_max) × (neg_part v ≤ long_max + 1)

strtol-show : (n : ℕ) → n ≤ long_max → strtol (show n) ≡ (pos n, [])
unfolding show clamp read_digits
strtol-show n h =
    rw
      (
        strtol-Numeral (show_onto-Numeral (n + 1) n [] (omega arith)),
        read_digits-show_onto (n + 1) n [] (omega arith),
      )
      (ground arith)

-- behind a minus the digits are read with the sign
strtol-minus :
    {s : CString}
    → Numeral s
    → strtol (b'-' ∷ s) ≡ (clamp true (read_digits 0 s).0, (read_digits 0 s).1)
unfolding strtol read_digits
strtol-minus (numeral c cs h) = rw h

-- `strtol` reads back every number of the type `long` that `%ld` printed, to the end of the text.
pub strtol-show_int : (v : ℤ) → IsLong v → strtol (show_int v) ≡ (v, [])
unfolding show_int show clamp read_digits
strtol-show_int (pos n) h = strtol-show n h.0
strtol-show_int (negsuc n) h =
    rw
      (
        strtol-minus (show_onto-Numeral (n + 1 + 1) (n + 1) [] (omega arith)),
        read_digits-show_onto (n + 1 + 1) (n + 1) [] (omega arith),
      )
      (ground (arith, h.1))

show-cons : (n : ℕ) → (c : ℕ) × (cs : CString) × (show n ≡ c ∷ cs)
unfolding show
show-cons n = first (show_onto-Numeral (n + 1) n [] (omega arith))
  where
    first : {s : CString} → Numeral s → (c : ℕ) × (cs : CString) × (s ≡ c ∷ cs)
    first (numeral c cs h) = (c, cs, refl)

pub show_int-cons : (v : ℤ) → (c : ℕ) × (cs : CString) × (show_int v ≡ c ∷ cs)
unfolding show_int
show_int-cons (pos n) = show-cons n
show_int-cons (negsuc n) = (b'-', show (n + 1), refl)
