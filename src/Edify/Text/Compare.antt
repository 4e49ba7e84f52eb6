-- ===== src/Edify/Text/Compare.antt =====
-- `strcmp` is a strict total order on texts.
use android_bootable_recover.Common.{
  ◌≡◌, refl, ap, ◌≢◌, ◌⊎◌, inl, inr, [], ◌∷◌, arith, ◌==◌, Bool-cases, length, get_or, drop,
}
use android_bootable_recover.Edify.Text.{CString, Order, strcmp, before, same, after}

pub strcmp_refl : (a : CString) → strcmp a a ≡ same
unfolding strcmp
strcmp_refl [] = refl
strcmp_refl (x ∷ a) = ground (arith, strcmp_refl a)

pub strcmp-eq_same : (a b : CString) → strcmp a b ≡ same → a ≡ b
unfolding strcmp
strcmp-eq_same [] [] h = refl
strcmp-eq_same [] (y ∷ b) h = cc
strcmp-eq_same (x ∷ a) [] h = cc
strcmp-eq_same (x ∷ a) (y ∷ b) h = ground (arith, strcmp-eq_same a b)

abbrev pub flip : Order → Order
flip before = after
flip same = same
flip after = before

pub strcmp-flip : (a b : CString) → strcmp b a ≡ flip (strcmp a b)
unfolding strcmp
strcmp-flip [] [] = refl
strcmp-flip [] (y ∷ b) = refl
strcmp-flip (x ∷ a) [] = refl
strcmp-flip (x ∷ a) (y ∷ b) = ground (arith, strcmp-flip a b)

pub strcmp_trans :
    (a b c : CString) → strcmp a b ≡ before → strcmp b c ≡ before → strcmp a c ≡ before
unfolding strcmp
strcmp_trans [] [] c h k = cc
strcmp_trans [] (y ∷ b) [] h k = cc
strcmp_trans [] (y ∷ b) (z ∷ c) h k = refl
strcmp_trans (x ∷ a) [] c h k = cc
strcmp_trans (x ∷ a) (y ∷ b) [] h k = cc
strcmp_trans (x ∷ a) (y ∷ b) (z ∷ c) h k = ground (arith, strcmp_trans a b c)

pub names_decided : (a b : CString) → (a ≡ b) ⊎ (a ≢ b)
unfolding strcmp
names_decided [] [] = inl refl
names_decided [] (y ∷ b) = inr (λ e. absurd (omega (arith, ap length e)))
names_decided (x ∷ a) [] = inr (λ e. absurd (omega (arith, ap length e)))
names_decided (x ∷ a) (y ∷ b) = elim (Bool-cases (x == y)) [
  | inr other ↦ inr (λ e. let h : x ≡ y = ap (λ l. get_or l 0 0) e in absurd (ground arith))
  | inl here ↦ elim (names_decided a b) [
    | inr other ↦ inr (λ e. other (ap (drop 1) e))
    | inl rest ↦ let h : x ≡ y = ground arith in inl cc
  ]
]
