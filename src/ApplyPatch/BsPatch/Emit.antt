-- ===== src/ApplyPatch/BsPatch/Emit.antt =====
-- What applypatch/bsdiff.c writes for a segmentation of the new file: the control, diff and extra
-- blocks. How `bsdiff` searches for the segments is not modelled: any segments serve.
use android_bootable_recover.Common.{
  ℕ, zero, suc, ◌+◌, ◌-◌, ◌%◌, ◌≤◌, ◌<◌, ◌≡◌, refl, ap, some, List, [], ◌∷◌, ◌++◌, arith, length,
  get_elem?, get_or, take, drop,
}
use android_bootable_recover.Common.Int.{pos, sub_ℕ, ◌+ℤ◌}
use android_bootable_recover.ApplyPatch.Bytes.{offtout}
use android_bootable_recover.ApplyPatch.BsPatch.{add_old}

-- `lenf` bytes that are close to the old file, `lenx` bytes without a counterpart, and the place
-- in the old file that goes on (`pos - lenb`)
pub record Segment : Type 0 where
  pub lenf : ℕ
  pub lenx : ℕ
  pub next : ℕ

-- `db[dblen+i] = new[lastscan+i] - old[lastpos+i]`
unfoldable pub diff_bytes : List ℕ → ℕ → List ℕ → List ℕ
diff_bytes old p [] = []
diff_bytes old p (b ∷ bs) = (b + 256 - get_or old p 0) % 256 ∷ diff_bytes old (p + 1) bs

abbrev pub rest_of : Segment → List ℕ → List ℕ
rest_of g new = drop g.lenx (drop g.lenf new)

-- the three numbers of each segment, written by `offtout`
unfoldable pub ctrl_block : ℕ → List Segment → List ℕ
ctrl_block p [] = []
ctrl_block p (g ∷ gs) =
    offtout (pos g.lenf)
    ++ (offtout (pos g.lenx) ++ (offtout (sub_ℕ g.next (p + g.lenf)) ++ ctrl_block g.next gs))

unfoldable pub diff_block : List ℕ → List ℕ → ℕ → List Segment → List ℕ
unfolding diff_bytes
diff_block old new p [] = []
diff_block old new p (g ∷ gs) =
    diff_bytes old p (take g.lenf new) ++ diff_block old (rest_of g new) g.next gs

unfoldable pub extra_block : List ℕ → List Segment → List ℕ
extra_block new [] = []
extra_block new (g ∷ gs) = take g.lenx (drop g.lenf new) ++ extra_block (rest_of g new) gs

-- The segments cover the new file, and stay inside the old one.
abbrev pub Fits : List ℕ → List ℕ → ℕ → List Segment → Type 0
Fits old new p [] = new ≡ []
Fits old new p (g ∷ gs) =
    (g.lenf + g.lenx ≤ length new)
    × (p + g.lenf ≤ length old)
    × (g.next ≤ length old)
    × Fits old (rest_of g new) g.next gs

abbrev pub AllBytes : List ℕ → Type 0
AllBytes [] = Unit
AllBytes (b ∷ bs) = (b < 256) × AllBytes bs

pub AllBytes-take : (n : ℕ) (bs : List ℕ) → AllBytes bs → AllBytes (take n bs)
AllBytes-take zero bs h = tt
AllBytes-take (suc n) [] h = tt
AllBytes-take (suc n) (b ∷ bs) h = (h.0, AllBytes-take n bs h.1)

pub AllBytes-drop : (n : ℕ) (bs : List ℕ) → AllBytes bs → AllBytes (drop n bs)
AllBytes-drop zero bs h = h
AllBytes-drop (suc n) [] h = tt
AllBytes-drop (suc n) (b ∷ bs) h = AllBytes-drop n bs h.1

byte_inside :
    (old : List ℕ) (p : ℕ)
    → AllBytes old
    → p < length old
    → (get_elem? old p ≡ some (get_or old p 0)) × (get_or old p 0 < 256)
byte_inside [] p h k = absurd (omega arith)
byte_inside (b ∷ old) zero h k = (refl, h.0)
byte_inside (b ∷ old) (suc p) h k = byte_inside old p h.1 (omega arith)

pub length-diff_bytes :
    (old : List ℕ) (p : ℕ) (bs : List ℕ) → length (diff_bytes old p bs) ≡ length bs
unfolding diff_bytes
length-diff_bytes old p [] = refl
length-diff_bytes old p (b ∷ bs) = ap suc (length-diff_bytes old (p + 1) bs)

pub pos-+ℤ : (a b : ℕ) → pos a +ℤ pos b ≡ pos (a + b)
unfolding ◌+ℤ◌
pos-+ℤ a b = ground arith

-- Adding the old bytes to the differences gives the new bytes.
pub add_old-diff_bytes :
    (old : List ℕ) (p : ℕ) (bs : List ℕ)
    → AllBytes old
    → AllBytes bs
    → p + length bs ≤ length old
    → add_old old (pos p) (diff_bytes old p bs) ≡ bs
unfolding add_old diff_bytes
add_old-diff_bytes old p [] ho hb h = refl
add_old-diff_bytes old p (b ∷ bs) ho hb h =
    let (there, small) = byte_inside old p ho (omega arith) in
    let o = get_or old p 0 in
    let back : ((b + 256 - o) % 256 + o) % 256 ≡ b = omega (arith, hb.0, small) in
    rw (there, back, pos-+ℤ p 1, add_old-diff_bytes old (p + 1) bs ho hb.1 (omega arith))
