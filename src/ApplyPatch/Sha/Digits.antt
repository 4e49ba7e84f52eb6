-- ===== src/ApplyPatch/Sha/Digits.antt =====
-- Hexadecimal text and the digest that `ParseSha1` of applypatch/applypatch.c reads in it.
use android_bootable_recover.Common.{
  ℕ, zero, suc, ◌+◌, ◌-◌, ◌*◌, ◌/◌, ◌%◌, ◌<◌, ◌≡◌, refl, sym, ap, ◌∙◌, ◌≢◌, ◌↔◌, ◌⊎◌, inl, inr,
  Bool, true, ◌&&◌, none, some, List, [], ◌∷◌, arith, ltb, leb, if◌then◌else◌, Bool-cases, length,
  get_or, drop,
}
use android_bootable_recover.Edify.Text.{CString}
use android_bootable_recover.ApplyPatch.Sha.{parse_sha1, parse_bytes, hex_digit}

-- the digit below 16, in lower case
abbrev pub hex_char : ℕ → ℕ
hex_char d = if ltb d 10 then d + 48 else d + 87

abbrev pub lower : ℕ → ℕ
lower c = if leb b'A' c && leb c b'F' then c + 32 else c

unfoldable pub show_sha1 : List ℕ → CString
show_sha1 [] = []
show_sha1 (b ∷ bytes) = hex_char (b / 16) ∷ hex_char (b % 16) ∷ show_sha1 bytes

unfoldable pub lower_all : CString → CString
lower_all [] = []
lower_all (c ∷ s) = lower c ∷ lower_all s

unfoldable pub all_bytes : List ℕ → Bool
all_bytes [] = true
all_bytes (b ∷ bytes) = ltb b 256 && all_bytes bytes

hex_digit-lower :
    (c : ℕ)
    → ((h : ℕ) × (hex_digit c ≡ some h) × (h < 16) × (lower c ≡ hex_char h))
      ⊎ ((hex_digit c ≡ none) × ((h : ℕ) → h < 16 → lower c ≢ hex_char h))
unfolding hex_digit
hex_digit-lower c = elim (Bool-cases (leb b'0' c && leb c b'9')) [
  | inl digit ↦ inl (c - 48, rw digit, ground arith, ground arith)
  | inr other ↦ elim (Bool-cases (leb b'a' c && leb c b'f')) [
    | inl small ↦ inl (c - 97 + 10, rw (other, small), ground arith, ground arith)
    | inr more ↦ elim (Bool-cases (leb b'A' c && leb c b'F')) [
      | inl large ↦ inl (c - 65 + 10, rw (other, more, large), ground arith, ground arith)
      | inr none_of ↦ inr (rw (other, more, none_of), λ h lt e. absurd (ground arith))
    ]
  ]
]

-- what a text of a digest of `n` bytes is, in either case of the letters
abbrev pub Spells : ℕ → CString → List ℕ → Type 0
Spells n s d = (lower_all s ≡ show_sha1 d) × (length d ≡ n) × (all_bytes d ≡ true)

abbrev Read : ℕ → CString → Type 0
Read n s =
    ((d : List ℕ) × (parse_bytes n s ≡ some d) × Spells n s d)
    ⊎ ((parse_bytes n s ≡ none) × ((d : List ℕ) → Spells n s d → ⊥))

-- a digit that is none at either place of the first byte
bad_high :
    (n a b : ℕ) (s : CString)
    → ((h : ℕ) → h < 16 → lower a ≢ hex_char h)
    → (d : List ℕ) → Spells (suc n) (a ∷ b ∷ s) d
    → ⊥
unfolding lower_all show_sha1 all_bytes
bad_high n a b s bad [] (e, l, bytes) = absurd (omega arith)
bad_high n a b s bad (x ∷ d) (e, l, bytes) = bad (x / 16) (ground arith) (ap (λ t. get_or t 0 0) e)

bad_low :
    (n a b : ℕ) (s : CString)
    → ((h : ℕ) → h < 16 → lower b ≢ hex_char h)
    → (d : List ℕ) → Spells (suc n) (a ∷ b ∷ s) d
    → ⊥
unfolding lower_all show_sha1 all_bytes
bad_low n a b s bad [] (e, l, bytes) = absurd (omega arith)
bad_low n a b s bad (x ∷ d) (e, l, bytes) = bad (x % 16) (omega arith) (ap (λ t. get_or t 1 0) e)

bad_rest :
    (n a b : ℕ) (s : CString)
    → ((d : List ℕ) → Spells n s d → ⊥)
    → (d : List ℕ) → Spells (suc n) (a ∷ b ∷ s) d
    → ⊥
unfolding lower_all show_sha1 all_bytes
bad_rest n a b s bad [] (e, l, bytes) = absurd (omega arith)
bad_rest n a b s bad (x ∷ d) (e, l, bytes) = bad d (ap (drop 2) e, omega arith, ground arith)

short : (n a : ℕ) (d : List ℕ) → Spells (suc n) (a ∷ []) d → ⊥
unfolding lower_all show_sha1
short n a [] (e, l, bytes) = absurd (omega arith)
short n a (x ∷ d) (e, l, bytes) = absurd (omega (arith, ap length e))

none_left : (n : ℕ) (d : List ℕ) → Spells (suc n) [] d → ⊥
unfolding lower_all show_sha1
none_left n [] (e, l, bytes) = absurd (omega arith)
none_left n (x ∷ d) (e, l, bytes) = absurd (omega (arith, ap length e))

too_long : (c : ℕ) (s : CString) (d : List ℕ) → Spells 0 (c ∷ s) d → ⊥
unfolding lower_all show_sha1
too_long c s [] (e, l, bytes) = absurd (omega (arith, ap length e))
too_long c s (x ∷ d) (e, l, bytes) = absurd (omega arith)

spelt :
    (n a b high low : ℕ) (s : CString) (d : List ℕ)
    → (high < 16) × (lower a ≡ hex_char high)
    → (low < 16) × (lower b ≡ hex_char low)
    → Spells n s d
    → Spells (suc n) (a ∷ b ∷ s) ((high * 16 + low) ∷ d)
unfolding lower_all show_sha1 all_bytes
spelt n a b high low s d (hh, eh) (hl, el) (e, l, bytes) =
    let up : (high * 16 + low) / 16 ≡ high = omega arith in
    let down : (high * 16 + low) % 16 ≡ low = omega arith in
    (rw (up, down, eh, el, e), omega arith, ground arith)

parse_bytes-Read : (n : ℕ) (s : CString) → Read n s
unfolding parse_bytes lower_all show_sha1 all_bytes
parse_bytes-Read zero [] = inl ([], refl, (refl, refl, refl))
parse_bytes-Read zero (c ∷ s) = inr (refl, too_long c s)
parse_bytes-Read (suc n) [] = inr (refl, none_left n)
parse_bytes-Read (suc n) (a ∷ []) = inr (refl, short n a)
parse_bytes-Read (suc n) (a ∷ b ∷ s) = elim (hex_digit-lower a) [
  | inr (ea, bad) ↦ inr (rw (parse_bytes, ea), bad_high n a b s bad)
  | inl (high, ea, ha, sa) ↦ elim (hex_digit-lower b) [
    | inr (eb, bad) ↦ inr (rw (parse_bytes, ea, eb), bad_low n a b s bad)
    | inl (low, eb, hb, sb) ↦ elim (parse_bytes-Read n s) [
      | inr (es, bad) ↦ inr (rw (parse_bytes, ea, eb, es), bad_rest n a b s bad)
      | inl (d, es, sd) ↦ inl (
        (high * 16 + low) ∷ d,
        rw (parse_bytes, ea, eb, es),
        spelt n a b high low s d (ha, sa) (hb, sb) sd,
      )
    ]
  ]
]

-- Two digests of one text are the same.
show_sha1-inj :
    (d d' : List ℕ) → all_bytes d ≡ true → all_bytes d' ≡ true → show_sha1 d ≡ show_sha1 d' → d ≡ d'
unfolding show_sha1 all_bytes
show_sha1-inj [] [] h h' e = refl
show_sha1-inj [] (x ∷ d') h h' e = absurd (omega (arith, ap length e))
show_sha1-inj (x ∷ d) [] h h' e = absurd (omega (arith, ap length e))
show_sha1-inj (x ∷ d) (y ∷ d') h h' e =
    let high : hex_char (x / 16) ≡ hex_char (y / 16) = ap (λ t. get_or t 0 0) e in
    let low : hex_char (x % 16) ≡ hex_char (y % 16) = ap (λ t. get_or t 1 0) e in
    let here : x ≡ y = ground arith in
    let rest : d ≡ d' = show_sha1-inj d d' (ground arith) (ground arith) (ap (drop 2) e) in cc

-- `ParseSha1` reads a digest in a text exactly if the text is the digest in 40 hexadecimal digits, in
-- either case, and nothing more.
pub parse_sha1_iff : (s : CString) (d : List ℕ) → (parse_sha1 s ≡ some d) ↔ Spells 20 s d
unfolding parse_sha1
parse_sha1_iff s d = elim (parse_bytes-Read 20 s) [
  | inr (e, bad) ↦ (λ k. absurd (ground arith), λ k. absurd (bad d k))
  | inl (d', e, k) ↦ (
    λ q. let same : d' ≡ d = ground arith in rw same at k,
    λ q. let same : d' ≡ d = show_sha1-inj d' d k.2 q.2 (sym k.0 ∙ q.0) in rw same at e,
  )
]
