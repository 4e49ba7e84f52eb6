-- ===== src/ApplyPatch/Sha/Matching.antt =====
-- The patch that `FindMatchingPatch` of applypatch/applypatch.c chooses.
use android_bootable_recover.Common.{
  ℕ, zero, suc, ◌+◌, ◌<◌, ◌≡◌, refl, ap, ◌∙◌, ◌≢◌, ◌⊎◌, inl, inr, true, false, Option, none, some,
  List, [], ◌∷◌, arith, Bool-cases, Option-cases, length, get_or,
}
use android_bootable_recover.Edify.Text.{CString}
use android_bootable_recover.ApplyPatch.BsPatch.{bytes_eq}
use android_bootable_recover.ApplyPatch.Sha.{parse_sha1, has_sha1, find_from, find_matching_patch}

pub bytes_eq-eq : (a b : List ℕ) → bytes_eq a b ≡ true → a ≡ b
unfolding bytes_eq
bytes_eq-eq [] [] h = refl
bytes_eq-eq [] (y ∷ b) h = absurd (ground arith)
bytes_eq-eq (x ∷ a) [] h = absurd (ground arith)
bytes_eq-eq (x ∷ a) (y ∷ b) h =
    let here : x ≡ y = ground arith in let behind : a ≡ b = bytes_eq-eq a b (ground arith) in cc

pub bytes_eq_refl : (a : List ℕ) → bytes_eq a a ≡ true
unfolding bytes_eq
bytes_eq_refl [] = refl
bytes_eq_refl (x ∷ a) = ground (arith, bytes_eq_refl a)

-- the test of the loop is that for the digest
has_sha1-cases :
    (sha1 : List ℕ) (s : CString)
    → ((has_sha1 sha1 s ≡ true) × (parse_sha1 s ≡ some sha1))
      ⊎ ((has_sha1 sha1 s ≡ false) × (parse_sha1 s ≢ some sha1))
unfolding has_sha1
has_sha1-cases sha1 s = elim (Option-cases (parse_sha1 s)) [
  | inl e ↦ inr (rw e, λ k. absurd (ground arith))
  | inr (d, e) ↦ elim (Bool-cases (bytes_eq d sha1)) [
    | inl t ↦ inl (rw (e, t), rw (bytes_eq-eq d sha1 t) at e)
    | inr f ↦ inr (
      rw (e, f),
      λ k.
          let same : d ≡ sha1 = ground arith in
          let t : bytes_eq d sha1 ≡ true = rw same (bytes_eq_refl sha1) in absurd (ground arith),
    )
  ]
]

abbrev text_at : List CString → ℕ → CString
text_at patches i = get_or patches i []

-- The first of the texts from `base` on that holds the digest, or none of them.
abbrev pub First : List ℕ → List CString → ℕ → Option ℕ → Type 0
First sha1 patches base found =
    ((i : ℕ) × (found ≡ some (base + i))
      × (i < length patches)
      × (parse_sha1 (get_or patches i []) ≡ some sha1)
      × ((j : ℕ) → j < i → parse_sha1 (get_or patches j []) ≢ some sha1))
    ⊎ ((found ≡ none)
        × ((j : ℕ) → j < length patches → parse_sha1 (get_or patches j []) ≢ some sha1))

find_from-First :
    (sha1 : List ℕ) (patches : List CString) (base : ℕ)
    → First sha1 patches base (find_from sha1 base patches)
unfolding find_from
find_from-First sha1 [] base = inr (refl, λ j h. absurd (omega arith))
find_from-First sha1 (s ∷ patches) base = elim (has_sha1-cases sha1 s) [
  | inl (t, e) ↦ inl (0, rw t (ap some (omega arith)), omega arith, e, λ j h. absurd (omega arith))
  | inr (f, no_match) ↦ elim (find_from-First sha1 patches (base + 1)) [
    | inl (i, e, lt, here, before) ↦ inl (
      suc i,
      rw f (e ∙ ap some (omega arith)),
      omega arith,
      here,
      earlier s patches no_match i before,
    )
    | inr (e, past) ↦ inr (rw f e, earlier s patches no_match (length patches) past)
  ]
]
  where
    earlier :
        (s : CString) (patches : List CString)
        → parse_sha1 s ≢ some sha1
        → (i : ℕ) → ((j : ℕ) → j < i → parse_sha1 (get_or patches j []) ≢ some sha1)
        → (j : ℕ) → j < suc i
        → parse_sha1 (get_or (s ∷ patches) j []) ≢ some sha1
    earlier s patches bad i before zero h = bad
    earlier s patches bad i before (suc j) h = before j (omega arith)

-- `FindMatchingPatch` gives the first patch whose SHA-1 text holds the digest of the file, and -1 if
-- there is none.
pub find_matching_patch-First :
    (sha1 : List ℕ) (patches : List CString)
    → First sha1 patches 0 (find_matching_patch sha1 patches)
unfolding find_matching_patch
find_matching_patch-First sha1 patches = find_from-First sha1 patches 0
