-- ===== src/ApplyPatch/Bytes.antt =====
-- Integers in files: applypatch/utils.c, and the sign-magnitude numbers of bsdiff patches
-- (`offtin` of applypatch/bspatch.c, `offtout` of applypatch/bsdiff.c).
--
-- A byte is a number below 256. What `|` joins in utils.c are disjoint fields of bytes, so it is `+`.
use android_bootable_recover.Common.{
  ℕ, zero, suc, ◌+◌, ◌-◌, ◌*◌, ◌/◌, ◌%◌, ◌^◌, ◌<◌, ◌≡◌, refl, true, false, List, [], ◌∷◌, ◌++◌,
  arith, ltb, ◌==◌, if◌then◌else◌, length, get_or,
}
use android_bootable_recover.Common.Int.{neg_part, pos_part, ℤ, pos, negsuc}

abbrev pub byte_at : List ℕ → ℕ → ℕ
byte_at bs i = get_or bs i 0

-- `Write4` and `Write8` of a value given by its bit pattern
unfoldable pub write4 : ℕ → List ℕ
write4 v = v % 256 ∷ v / 2 ^ 8 % 256 ∷ v / 2 ^ 16 % 256 ∷ v / 2 ^ 24 % 256 ∷ []

unfoldable pub write8 : ℕ → List ℕ
write8 v =
    v % 256
    ∷ v / 2 ^ 8 % 256
    ∷ v / 2 ^ 16 % 256
    ∷ v / 2 ^ 24 % 256
    ∷ v / 2 ^ 32 % 256
    ∷ v / 2 ^ 40 % 256
    ∷ v / 2 ^ 48 % 256
    ∷ v / 2 ^ 56 % 256
    ∷ []

-- the bit patterns that `Read2`, `Read4` and `Read8` put together, before the cast
unfoldable pub read2 : List ℕ → ℕ
read2 p = byte_at p 1 * 2 ^ 8 + byte_at p 0

unfoldable pub read4 : List ℕ → ℕ
read4 p = byte_at p 3 * 2 ^ 24 + byte_at p 2 * 2 ^ 16 + byte_at p 1 * 2 ^ 8 + byte_at p 0

unfoldable pub read8 : List ℕ → ℕ
read8 p =
    byte_at p 7 * 2 ^ 56
    + byte_at p 6 * 2 ^ 48
    + byte_at p 5 * 2 ^ 40
    + byte_at p 4 * 2 ^ 32
    + byte_at p 3 * 2 ^ 24
    + byte_at p 2 * 2 ^ 16
    + byte_at p 1 * 2 ^ 8
    + byte_at p 0

-- the cast to `int`
abbrev pub as_int : ℕ → ℤ
as_int w = if ltb w (2 ^ 31) then pos w else negsuc (2 ^ 32 - w - 1)

-- `buf[7] & 0x7F` and then Horner's rule
unfoldable pub magnitude : List ℕ → ℕ
magnitude buf =
    ((((((byte_at buf 7 % 128 * 256 + byte_at buf 6) * 256 + byte_at buf 5) * 256 + byte_at buf 4)
                  * 256
                + byte_at buf 3)
              * 256
            + byte_at buf 2)
          * 256
        + byte_at buf 1)
      * 256
    + byte_at buf 0

abbrev pub negate : ℕ → ℤ
negate zero = pos 0
negate (suc n) = negsuc n

-- `if (buf[7] & 0x80) y = -y`
unfoldable pub offtin : List ℕ → ℤ
unfolding magnitude
offtin buf = if byte_at buf 7 / 128 % 2 == 1 then negate (magnitude buf) else pos (magnitude buf)

-- the bytes of `y`, the highest with the sign bit
abbrev pub sign_bytes : ℕ → ℕ → List ℕ
sign_bytes y sign =
    y % 256
    ∷ y / 256 % 256
    ∷ y / 256 / 256 % 256
    ∷ y / 256 / 256 / 256 % 256
    ∷ y / 256 / 256 / 256 / 256 % 256
    ∷ y / 256 / 256 / 256 / 256 / 256 % 256
    ∷ y / 256 / 256 / 256 / 256 / 256 / 256 % 256
    ∷ (y / 256 / 256 / 256 / 256 / 256 / 256 / 256 % 256 + sign)
    ∷ []

-- A magnitude stays below 2^63, so the bit that `|= 0x80` sets is clear.
unfoldable pub offtout : ℤ → List ℕ
offtout (pos n) = sign_bytes n 0
offtout (negsuc n) = sign_bytes (n + 1) 128

-- `Read4` gives back every 32-bit pattern that `Write4` wrote.
pub read4-write4 : (v : ℕ) → v < 2 ^ 32 → read4 (write4 v) ≡ v
unfolding read4 write4
read4-write4 v h = omega arith

-- `Read8` gives back every 64-bit pattern that `Write8` wrote.
pub read8-write8 : (v : ℕ) → v < 2 ^ 64 → read8 (write8 v) ≡ v
unfolding read8 write8
read8-write8 v h = omega arith

abbrev top : ℕ → ℕ
top y = y / 256 / 256 / 256 / 256 / 256 / 256 / 256 % 256

top-lt : (y : ℕ) → y < 2 ^ 63 → top y < 128
top-lt y h = omega arith

magnitude-sign_bytes :
    (y sign : ℕ) (rest : List ℕ)
    → y < 2 ^ 63
    → (top y + sign) % 128 ≡ top y
    → magnitude (sign_bytes y sign ++ rest) ≡ y
unfolding magnitude
magnitude-sign_bytes y sign rest h e = omega arith

pub length-offtout : (x : ℤ) → length (offtout x) ≡ 8
unfolding offtout
length-offtout (pos n) = refl
length-offtout (negsuc n) = refl

-- `offtin` gives back every number of magnitude below 2^63 that `offtout` wrote, whatever follows.
pub offtin-offtout :
    (x : ℤ) (rest : List ℕ)
    → pos_part x < 2 ^ 63
    → neg_part x < 2 ^ 63
    → offtin (offtout x ++ rest) ≡ x
unfolding offtin offtout
offtin-offtout (pos n) rest h k =
    let small = top-lt n h in
    let clear : ((top n + 0) / 128 % 2 == 1) ≡ false = ground arith in
    rw (clear, magnitude-sign_bytes n 0 rest h (omega arith))
offtin-offtout (negsuc n) rest h k =
    let small : top (n + 1) < 128 = top-lt (n + 1) (omega arith) in
    let marked : ((top (n + 1) + 128) / 128 % 2 == 1) ≡ true = ground arith in
    rw (marked, magnitude-sign_bytes (n + 1) 128 rest (omega arith) (omega arith)) (ground arith)
