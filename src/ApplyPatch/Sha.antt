-- ===== src/ApplyPatch/Sha.antt =====
-- SHA-1 sums in text: `ParseSha1` and `FindMatchingPatch` of applypatch/applypatch.c.
--
-- A string is the list of its bytes before the NUL; a digest is the list of its 20 bytes.
pub mod Digits
pub mod Matching
use android_bootable_recover.Common.{
  ℕ, zero, suc, ◌+◌, ◌-◌, ◌*◌, Bool, false, ◌&&◌, Option, none, some, List, [], ◌∷◌, leb,
  if◌then◌else◌,
}
use android_bootable_recover.ApplyPatch.BsPatch.{bytes_eq}
use android_bootable_recover.Edify.Text.{CString}

abbrev pub sha_digest_size : ℕ
sha_digest_size = 20

unfoldable pub hex_digit : ℕ → Option ℕ
hex_digit c =
    if leb b'0' c && leb c b'9'
    then some (c - 48)
    else if leb b'a' c && leb c b'f'
    then some (c - 97 + 10)
    else if leb b'A' c && leb c b'F'
    then some (c - 65 + 10)
    else none

-- The loop, two digits a round; the NUL is no digit.
unfoldable pub parse_bytes : ℕ → CString → Option (List ℕ)
unfolding hex_digit
parse_bytes zero [] = some []
parse_bytes zero (c ∷ s) = none
parse_bytes (suc n) [] = none
parse_bytes (suc n) (a ∷ []) = none
parse_bytes (suc n) (a ∷ b ∷ s) = elim (hex_digit a) [
  | none ↦ none
  | some high ↦ elim (hex_digit b) [
    | none ↦ none
    | some low ↦ elim (parse_bytes n s) [
      | none ↦ none
      | some bytes ↦ some ((high * 16 + low) ∷ bytes)
    ]
  ]
]

unfoldable pub parse_sha1 : CString → Option (List ℕ)
unfolding parse_bytes
parse_sha1 s = parse_bytes sha_digest_size s

-- the string is a digest in hexadecimal, and it is this one
unfoldable pub has_sha1 : List ℕ → CString → Bool
unfolding parse_sha1 bytes_eq
has_sha1 sha1 s = elim (parse_sha1 s) [ none ↦ false | some digest ↦ bytes_eq digest sha1 ]

-- the loop from the index `i` on
unfoldable pub find_from : List ℕ → ℕ → List CString → Option ℕ
unfolding has_sha1
find_from sha1 i [] = none
find_from sha1 i (s ∷ patches) =
    let later = find_from sha1 (i + 1) patches in if has_sha1 sha1 s then some i else later

-- `FindMatchingPatch`; `none` is -1
unfoldable pub find_matching_patch : List ℕ → List CString → Option ℕ
unfolding find_from
find_matching_patch sha1 patches = find_from sha1 0 patches
