-- ===== src/Zip/Names.antt =====
-- The order of names that minzip/Zip.c sorts by, and what its hash comparisons compare.
use android_bootable_recover.Common.{
  ℕ, suc, ◌≡◌, refl, true, List, [], ◌∷◌, arith, ltb, if◌then◌else◌, length,
}
use android_bootable_recover.Edify.Text.{strcmp}
use android_bootable_recover.Zip.{all_printable, strncmp, name_order, length_order}

shorter_suc :
    (a b : List ℕ) (n : ℕ)
    → n ≡ (if ltb (length a) (length b) then length a else length b)
    → (if ltb (suc (length a)) (suc (length b)) then suc (length a) else suc (length b)) ≡ suc n
shorter_suc a b n e = ground arith

length_order-suc : (a b : ℕ) → length_order (suc a) (suc b) ≡ length_order a b
length_order-suc a b = ground arith

-- The order by the common length and then by the lengths is the order of `strcmp`.
pub name_order-strcmp : (a b : List ℕ) → all_printable a ≡ true → name_order a b ≡ strcmp a b
unfolding name_order strncmp strcmp all_printable
name_order-strcmp [] [] h = refl
name_order-strcmp [] (y ∷ b) h = ground arith
name_order-strcmp (x ∷ a) [] h = ground arith
name_order-strcmp (x ∷ a) (y ∷ b) h =
    let later = name_order-strcmp a b (ground arith) in
    rw (name_order, shorter_suc a b _ refl)
      (ground (arith, later, length_order-suc (length a) (length b)))
