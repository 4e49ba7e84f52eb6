-- ===== src/Edify/Text/Substring.antt =====
-- `strstr` finds a text exactly if it occurs.
use android_bootable_recover.Common.{
  ◌≡◌, refl, ap, ◌↔◌, inl, inr, true, [], ◌∷◌, ◌++◌, arith, Bool-cases,
}
use android_bootable_recover.Edify.Text.{CString, starts_with, strstr}

pub starts_with-append : (n post : CString) → starts_with n (n ++ post) ≡ true
unfolding starts_with
starts_with-append [] post = refl
starts_with-append (x ∷ n) post = ground (arith, starts_with-append n post)

starts_with→append : (n h : CString) → starts_with n h ≡ true → (post : CString) × (h ≡ n ++ post)
unfolding starts_with
starts_with→append [] h e = (h, refl)
starts_with→append (x ∷ n) [] e = cc
starts_with→append (x ∷ n) (y ∷ h) e =
    let (post, p) = starts_with→append n h (ground arith) in (post, ground arith)

-- `needle` stands somewhere in the text
abbrev pub Occurs : CString → CString → Type 0
Occurs needle haystack = (pre : CString) × (post : CString) × (haystack ≡ pre ++ (needle ++ post))

strstr_found : (h n : CString) → strstr h n ≡ true → Occurs n h
unfolding strstr
strstr_found [] n e = let (post, p) = starts_with→append n [] e in ([], post, p)
strstr_found (c ∷ h) n e = elim (Bool-cases (starts_with n (c ∷ h))) [
  | inl here ↦ let (post, p) = starts_with→append n (c ∷ h) here in ([], post, p)
  | inr later ↦
      let (pre, post, p) = strstr_found h n (rw later at e) in (c ∷ pre, post, ap (λ t. c ∷ t) p)
]

strstr_complete : (pre n post : CString) → strstr (pre ++ (n ++ post)) n ≡ true
unfolding strstr starts_with
strstr_complete [] [] [] = refl
strstr_complete [] [] (y ∷ post) = refl
strstr_complete [] (x ∷ n) post = ground (arith, starts_with-append n post)
strstr_complete (c ∷ pre) n post = ground (arith, strstr_complete pre n post)

pub strstr_iff : (h n : CString) → (strstr h n ≡ true) ↔ Occurs n h
strstr_iff h n = (strstr_found h n, λ o. rw o.2 (strstr_complete o.0 n o.1))
