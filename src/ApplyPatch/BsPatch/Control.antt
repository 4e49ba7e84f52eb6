-- ===== src/ApplyPatch/BsPatch/Control.antt =====
-- Control triples of bsdiff patches: what `offtin` of applypatch/bspatch.c reads of them.
use android_bootable_recover.Common.{
  ℕ, ◌^◌, ◌<◌, ◌≡◌, refl, sym, ap, ◌∙◌, List, [], ◌∷◌, ◌++◌, append_assoc, append-nil, arith,
  length, length-append, take, drop, take-append-drop,
}
use android_bootable_recover.Common.Int.{ℤ, pos, sub_ℕ, ◌+ℤ◌, pos_part, neg_part}
use android_bootable_recover.ApplyPatch.Bytes.{offtin, offtout, offtin-offtout, length-offtout}
use android_bootable_recover.ApplyPatch.BsPatch.{◌+ℤ◌}
use android_bootable_recover.ApplyPatch.BsPatch.Stream.{drop-append_exact}

abbrev pub triple : ℤ → ℤ → ℤ → List ℕ
triple x y z = offtout x ++ (offtout y ++ offtout z)

pub length-triple : (x y z : ℤ) → length (triple x y z) ≡ 24
length-triple x y z = omega (
  arith,
  length-append (offtout x) (offtout y ++ offtout z),
  length-append (offtout y) (offtout z),
  length-offtout x,
  length-offtout y,
  length-offtout z,
)

pub triple-append :
    (x y z : ℤ) (rest : List ℕ)
    → offtout x ++ (offtout y ++ (offtout z ++ rest)) ≡ triple x y z ++ rest
triple-append x y z rest = rw (
  append_assoc (offtout x) (offtout y ++ offtout z) rest,
  append_assoc (offtout y) (offtout z) rest,
)

-- a number that `offtout` writes in eight bytes
abbrev pub IsSmall : ℤ → Type 0
IsSmall x = (pos_part x < 2 ^ 63) × (neg_part x < 2 ^ 63)

drop-offtout : (x : ℤ) (rest : List ℕ) → drop 8 (offtout x ++ rest) ≡ rest
drop-offtout x rest = drop-append_exact 8 (offtout x) rest (length-offtout x)

pub offtin-triple :
    (x y z : ℤ)
    → IsSmall x
    → IsSmall y
    → IsSmall z
    → (offtin (triple x y z) ≡ x)
      × (offtin (drop 8 (triple x y z)) ≡ y)
      × (offtin (drop 16 (triple x y z)) ≡ z)
offtin-triple x y z hx hy hz = (
  offtin-offtout x (offtout y ++ offtout z) hx.0 hx.1,
  rw (drop-offtout x (offtout y ++ offtout z), offtin-offtout y (offtout z) hy.0 hy.1),
  ap offtin (sym (append-nil _) ∙ ap (λ l. l ++ []) third) ∙ offtin-offtout z [] hz.0 hz.1,
)
  where
    third : drop 16 (triple x y z) ≡ offtout z
    third = rw (← append_assoc (offtout x) (offtout y) (offtout z)) (
        drop-append_exact 16 (offtout x ++ offtout y) (offtout z) (
          omega (arith, length-append (offtout x) (offtout y), length-offtout x, length-offtout y)))

-- The seek leads to the place that was meant.
pub pos-+ℤ-sub_ℕ : (l next : ℕ) → pos l +ℤ sub_ℕ next l ≡ pos next
unfolding ◌+ℤ◌
pos-+ℤ-sub_ℕ l next = ground arith

-- the three parts of what was left
pub rejoin :
    (before : List ℕ) (a b : ℕ) (new : List ℕ)
    → before ++ take a new ++ take b (drop a new) ++ drop b (drop a new) ≡ before ++ new
rejoin before a b new = rw (
  append_assoc (before ++ take a new) (take b (drop a new)) (drop b (drop a new)),
  take-append-drop b (drop a new),
  append_assoc before (take a new) (drop a new),
  take-append-drop a new,
)

pub empty : (xs : List ℕ) → length xs ≡ 0 → xs ≡ []
empty [] h = refl
empty (x ∷ xs) h = absurd (omega arith)
