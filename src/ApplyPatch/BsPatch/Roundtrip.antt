-- ===== src/ApplyPatch/BsPatch/Roundtrip.antt =====
-- The whole patch file of applypatch/bsdiff.c, and what `ApplyBSDiffPatchMem` of
-- applypatch/bspatch.c makes of it.
use android_bootable_recover.Common.{
  ℕ, zero, suc, ◌+◌, ◌^◌, ◌≤◌, ◌<◌, ◌≡◌, refl, ap, ◌∙◌, true, false, List, [], ◌∷◌, ◌++◌, arith,
  ltb, length, length-append, take, drop,
}
use android_bootable_recover.Common.Int.{pos}
use android_bootable_recover.ApplyPatch.Bytes.{offtin, offtout, offtin-offtout, length-offtout}
use android_bootable_recover.ApplyPatch.BsPatch.{
  Bz, done, apply_bs_diff_patch_mem, start_patch, magic, bytes_eq,
}
use android_bootable_recover.ApplyPatch.BsPatch.Stream.{
  Decodes, drop-append_exact, take-append_exact,
}
use android_bootable_recover.ApplyPatch.BsPatch.Emit.{
  extra_block, diff_block, ctrl_block, Segment, Fits, AllBytes,
}
use android_bootable_recover.ApplyPatch.BsPatch.Correct.{patch_loop-Waits, Waits}

-- The header and the three compressed blocks.
unfoldable pub patch_file : List ℕ → List ℕ → List ℕ → ℕ → List ℕ
patch_file ctrl diff extra new_size =
    magic
    ++ (offtout (pos (length ctrl))
        ++ (offtout (pos (length diff)) ++ (offtout (pos new_size) ++ (ctrl ++ (diff ++ extra)))))

-- the four header fields
record Header (ctrl diff extra : List ℕ) (new_size : ℕ) (file : List ℕ) : Type 0 where
  long : 32 ≤ length file
  magical : bytes_eq (take 8 file) magic ≡ true
  ctrl_len : offtin (drop 8 file) ≡ pos (length ctrl)
  data_len : offtin (drop 16 file) ≡ pos (length diff)
  size : offtin (drop 24 file) ≡ pos new_size
  body : drop 32 file ≡ ctrl ++ (diff ++ extra)

magic-bytes_eq : bytes_eq magic magic ≡ true
unfolding bytes_eq
magic-bytes_eq = refl

offtin_small : (n : ℕ) (rest : List ℕ) → n < 2 ^ 31 → offtin (offtout (pos n) ++ rest) ≡ pos n
offtin_small n rest h = offtin-offtout (pos n) rest (omega arith) (omega arith)

drop_nil : (n : ℕ) → drop {A = ℕ} n [] ≡ []
drop_nil zero = refl
drop_nil (suc n) = refl

pub drop-drop : (k n : ℕ) (xs : List ℕ) → drop (k + n) xs ≡ drop n (drop k xs)
drop-drop zero n xs = let e : 0 + n ≡ n = omega arith in rw e
drop-drop (suc k) n [] = let e : suc k + n ≡ suc (k + n) = omega arith in rw (e, drop_nil n)
drop-drop (suc k) n (x ∷ xs) =
    let e : suc k + n ≡ suc (k + n) = omega arith in rw (e, drop-drop k n xs)

-- a field of eight bytes, and what follows
skip :
    (n k : ℕ) (x : ℕ) (rest xs : List ℕ)
    → drop k xs ≡ offtout (pos x) ++ rest
    → n ≡ k + 8
    → drop n xs ≡ rest
skip n k x rest xs e h =
    rw (h, drop-drop k 8 xs, e)
      (drop-append_exact 8 (offtout (pos x)) rest (length-offtout (pos x)))

patch_file-Header :
    (ctrl diff extra : List ℕ) (new_size : ℕ)
    → length ctrl < 2 ^ 31
    → length diff < 2 ^ 31
    → new_size < 2 ^ 31
    → Header ctrl diff extra new_size (patch_file ctrl diff extra new_size)
unfolding patch_file
patch_file-Header ctrl diff extra new_size hc hd hn =
    let body = ctrl ++ (diff ++ extra) in
    let f3 = offtout (pos new_size) ++ body in
    let f2 = offtout (pos (length diff)) ++ f3 in
    let f1 = offtout (pos (length ctrl)) ++ f2 in
    let d1 : drop 8 (magic ++ f1) ≡ f1 = refl in
    let d2 : drop 16 (magic ++ f1) ≡ f2 =
      skip 16 8 (length ctrl) f2 (magic ++ f1) d1 (omega arith) in
    let d3 : drop 24 (magic ++ f1) ≡ f3 =
      skip 24 16 (length diff) f3 (magic ++ f1) d2 (omega arith) in
    let d4 : drop 32 (magic ++ f1) ≡ body =
      skip 32 24 new_size body (magic ++ f1) d3 (omega arith) in
    record {
      long = omega (
        arith,
        length-append (offtout (pos (length ctrl))) f2,
        length-append (offtout (pos (length diff))) f3,
        length-append (offtout (pos new_size)) body,
        length-offtout (pos (length ctrl)),
        length-offtout (pos (length diff)),
        length-offtout (pos new_size),
      );
      magical = magic-bytes_eq;
      ctrl_len = offtin_small (length ctrl) f2 hc;
      data_len = ap offtin d2 ∙ offtin_small (length diff) f3 hd;
      size = ap offtin d3 ∙ offtin_small new_size body hn;
      body = d4;
    }

module _ {bz : Bz} (d : Decodes bz) where
  -- Three compressed blocks that the decompressor reads back to what `bsdiff` puts in them.
  pub record Blocks (old new : List ℕ) (gs : List Segment) (ctrl diff extra : List ℕ) : Type 0 where
    pub ctrl_packs : d.pending (bz.init ctrl) ≡ ctrl_block 0 gs
    pub diff_packs : d.pending (bz.init diff) ≡ diff_block old new 0 gs
    pub extra_packs : d.pending (bz.init extra) ≡ extra_block new gs
    pub ctrl_small : length ctrl < 2 ^ 31
    pub diff_small : length diff < 2 ^ 31

  -- the streams at the start
  started :
      (rounds : ℕ) (old new : List ℕ) (gs : List Segment) (ctrl diff extra : List ℕ)
      → Blocks old new gs ctrl diff extra
      → Waits d rounds
          (length new)
          old
          (record {
            cstream = bz.init (take (length ctrl) (ctrl ++ (diff ++ extra)));
            dstream = bz.init (take (length diff) (drop (length ctrl) (ctrl ++ (diff ++ extra))));
            estream = bz.init (drop (length ctrl + length diff) (ctrl ++ (diff ++ extra)));
            oldpos = pos 0;
            new_data = [];
          })
          0
          new
          gs
  started rounds old new gs ctrl diff extra b =
      let t1 = take-append_exact (length ctrl) ctrl (diff ++ extra) refl in
      let t2 = drop-append_exact (length ctrl) ctrl (diff ++ extra) refl in
      let t3 = take-append_exact (length diff) diff extra refl in
      let t4 = drop-append_exact (length diff) diff extra refl in
      record {
        control = ap (λ l. d.pending (bz.init l)) t1 ∙ b.ctrl_packs;
        diff = ap (λ l. d.pending (bz.init l)) (ap (take (length diff)) t2 ∙ t3) ∙ b.diff_packs;
        extra =
            ap (λ l. d.pending (bz.init l))
              (drop-drop (length ctrl) (length diff) (ctrl ++ (diff ++ extra))
                ∙ (ap (drop (length diff)) t2 ∙ t4))
            ∙ b.extra_packs;
        place = refl;
        left = omega arith;
      }

  -- The patch of two files, at any offset of a larger file, turns the old one into the new one:
  -- whatever segments `bsdiff` chose, if they cover the new file and stay inside the old one, and the
  -- files are below 2 GB. As many rounds as there are segments are enough, and as many calls of the
  -- decompressor as the new file has bytes, 24 at least.
  pub apply_bs_diff_patch_mem-patch_file :
      (old new : List ℕ) (gs : List Segment) (ctrl diff extra before : List ℕ) (n rounds : ℕ)
      → AllBytes old
      → AllBytes new
      → length old < 2 ^ 31
      → length new < 2 ^ 31
      → Fits old new 0 gs
      → Blocks old new gs ctrl diff extra
      → length gs ≤ n
      → 24 ≤ rounds
      → length new ≤ rounds
      → apply_bs_diff_patch_mem bz n rounds old
          (before ++ patch_file ctrl diff extra (length new))
          (length before)
        ≡ done new
  unfolding apply_bs_diff_patch_mem start_patch
  apply_bs_diff_patch_mem-patch_file old new gs ctrl diff extra before n rounds ho hn ho2 hn2 fits b
        hg h24 room =
      let file = patch_file ctrl diff extra (length new) in
      let header = patch_file-Header ctrl diff extra (length new) b.ctrl_small b.diff_small hn2 in
      let here : drop (length before) (before ++ file) ≡ file =
        drop-append_exact (length before) before file refl in
      let eight : ltb (length file) 8 ≡ false = ground (arith, header.long) in
      let whole : ltb (length file) 32 ≡ false = ground (arith, header.long) in
      let enough : ltb (length (ctrl ++ (diff ++ extra))) (length ctrl + length diff) ≡ false =
        ground (arith, length-append ctrl (diff ++ extra), length-append diff extra) in
      rw
        (
          here, eight, header.magical, whole, header.ctrl_len, header.data_len, header.size,
          header.body, enough,
        )
        (patch_loop-Waits d rounds (length new) old n 0 new gs _ hg h24 room ho2 hn2 ho hn fits
          (started rounds old new gs ctrl diff extra b))
