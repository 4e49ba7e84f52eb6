-- ===== src/Edify/Number.antt =====
-- Numbers in text: `strtol` of the C library as edify/expr.c calls it, and `%d`.
pub mod Print
use android_bootable_recover.Common.{
  ℕ, zero, suc, ◌+◌, ◌-◌, ◌*◌, ◌/◌, ◌%◌, ◌^◌, Bool, true, false, ◌&&◌, ◌||◌, [], ◌∷◌, ltb, leb,
  ◌==◌, if◌then◌else◌,
}
use android_bootable_recover.Common.Int.{ℤ, pos, negsuc}
use android_bootable_recover.Edify.Text.{CString}

abbrev pub is_digit : ℕ → Bool
is_digit c = leb b'0' c && leb c b'9'

-- `isspace`: tab, newline, vertical tab, form feed, carriage return and the blank
abbrev pub is_space : ℕ → Bool
is_space c = leb 9 c && leb c 13 || c == 32

unfoldable pub skip_spaces : CString → CString
skip_spaces [] = []
skip_spaces (c ∷ cs) = if is_space c then skip_spaces cs else c ∷ cs

-- The digits at the front, on top of what was read before, and the rest.
unfoldable pub read_digits : ℕ → CString → ℕ × CString
read_digits acc [] = (acc, [])
read_digits acc (c ∷ cs) =
    let rest = read_digits (acc * 10 + (c - 48)) cs in if is_digit c then rest else (acc, c ∷ cs)

-- `long` has 32 bits on the platform of the recovery image.
abbrev pub long_max : ℕ
long_max = 2 ^ 31 - 1

-- Out of range, `strtol` returns LONG_MAX or LONG_MIN.
unfoldable pub clamp : Bool → ℕ → ℤ
clamp false n = if leb n long_max then pos n else pos long_max
clamp true n =
    if n == 0 then pos 0 else if leb n (long_max + 1) then negsuc (n - 1) else negsuc long_max

-- With no digit the result is 0 and `end` is the start of the whole text, `s`.
unfoldable pub magnitude : Bool → CString → CString → ℤ × CString
unfolding read_digits clamp
magnitude negative s [] = (pos 0, s)
magnitude negative s (c ∷ cs) =
    if is_digit c
    then (clamp negative (read_digits 0 (c ∷ cs)).0, (read_digits 0 (c ∷ cs)).1)
    else (pos 0, s)

unfoldable pub signed : CString → CString → ℤ × CString
unfolding magnitude
signed s [] = (pos 0, s)
signed s (c ∷ cs) =
    if c == b'-'
    then magnitude true s cs
    else if c == b'+'
    then magnitude false s cs
    else magnitude false s (c ∷ cs)

-- `strtol(s, &end, 10)`: the value, and the text at `end`
unfoldable pub strtol : CString → ℤ × CString
unfolding skip_spaces signed
strtol s = signed s (skip_spaces s)

-- The decimal digits of a number below 10 ^ fuel, in front of `tail`.
unfoldable pub show_onto : ℕ → ℕ → CString → CString
show_onto zero n tail = tail
show_onto (suc fuel) n tail =
    let digit = n % 10 + 48 in
    let more = show_onto fuel (n / 10) (digit ∷ tail) in if ltb n 10 then digit ∷ tail else more

-- `%d` of a number that is not negative; n + 1 rounds are more than its digits
unfoldable pub show : ℕ → CString
unfolding show_onto
show n = show_onto (n + 1) n []

-- `%ld`
unfoldable pub show_int : ℤ → CString
unfolding show
show_int (pos n) = show n
show_int (negsuc n) = b'-' ∷ show (n + 1)
