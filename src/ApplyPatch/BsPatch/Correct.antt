-- ===== src/ApplyPatch/BsPatch/Correct.antt =====
-- The decoder of applypatch/bspatch.c on what applypatch/bsdiff.c writes: one round of the loop, and
-- then all of them.
use android_bootable_recover.Common.{
  ℕ, zero, suc, ◌+◌, ◌^◌, ◌≤◌, ◌<◌, ◌≡◌, refl, sym, ap, ◌∙◌, inl, inr, false, List, [], ◌∷◌, ◌++◌,
  append-nil, arith, ltb, Bool-cases, length, length-append, take, drop, length-take, length-drop,
}
use android_bootable_recover.Common.Int.{ℤ, pos, sub_ℕ}
use android_bootable_recover.ApplyPatch.Bytes.{offtout}
use android_bootable_recover.ApplyPatch.BsPatch.{
  patch_loop, patch_round, ◌>>=◌, add_diff, copy_extra, Bz, Progress, done, fill_buffer,
}
use android_bootable_recover.ApplyPatch.BsPatch.Stream.{
  take-append_exact, drop-append_exact, Decodes, fill_buffer-take,
}
use android_bootable_recover.ApplyPatch.BsPatch.Emit.{
  AllBytes-drop, AllBytes-take, rest_of, Fits, add_old-diff_bytes, pos-+ℤ, length-diff_bytes,
  diff_bytes, AllBytes, extra_block, diff_block, ctrl_block, Segment,
}
use android_bootable_recover.ApplyPatch.BsPatch.Control.{
  length-triple, triple-append, rejoin, empty, triple, pos-+ℤ-sub_ℕ, offtin-triple,
}

module _ {bz : Bz} (d : Decodes bz) (rounds new_size : ℕ) (old : List ℕ) where
  -- The state when segments remain: the streams hold the rest of their blocks, maybe with more behind.
  pub record Waits (p : Progress bz) (lastpos : ℕ) (new : List ℕ) (gs : List Segment) : Type 0 where
    pub control : d.pending p.cstream ≡ ctrl_block lastpos gs
    pub diff : d.pending p.dstream ≡ diff_block old new lastpos gs
    pub extra : d.pending p.estream ≡ extra_block new gs
    pub place : p.oldpos ≡ pos lastpos
    pub left : length p.new_data + length new ≡ new_size

  control_read :
      (x y z : ℤ) (rest : List ℕ) (s : Bz.Stream bz)
      → 24 ≤ rounds
      → d.pending s ≡ offtout x ++ (offtout y ++ (offtout z ++ rest))
      → (s' : Bz.Stream bz) × (fill_buffer bz rounds 24 s ≡ done (triple x y z, s'))
        × (d.pending s' ≡ rest)
  control_read x y z rest s h e =
      let e' : d.pending s ≡ triple x y z ++ rest = e ∙ triple-append x y z rest in
      let long : 24 ≤ length (d.pending s) =
        omega (arith, ap length e', length-append (triple x y z) rest, length-triple x y z) in
      let (s', p, q) = fill_buffer-take d rounds 24 s h long in
      (
        s',
        rw (p, e', take-append_exact 24 (triple x y z) rest (length-triple x y z)),
        rw (q, e', drop-append_exact 24 (triple x y z) rest (length-triple x y z)),
      )

  -- A block that the stream starts with is read whole.
  block_read :
      (n : ℕ) (block rest : List ℕ) (s : Bz.Stream bz)
      → length block ≡ n
      → n ≤ rounds
      → d.pending s ≡ block ++ rest
      → (s' : Bz.Stream bz) × (fill_buffer bz rounds n s ≡ done (block, s')) × (d.pending s' ≡ rest)
  block_read n block rest s width h e =
      let (s', p, q) =
        fill_buffer-take d rounds n s h
          (omega (arith, width, ap length e, length-append block rest)) in
      (
        s',
        rw (p, e, take-append_exact n block rest width),
        rw (q, e, drop-append_exact n block rest width),
      )

  add_diff_step :
      (p : Progress bz) (n l : ℕ) (bs rest : List ℕ)
      → length bs ≡ n
      → n ≤ rounds
      → length p.new_data + n ≤ new_size
      → p.oldpos ≡ pos l
      → l + n ≤ length old
      → AllBytes old
      → AllBytes bs
      → d.pending p.dstream ≡ diff_bytes old l bs ++ rest
      → (s' : Bz.Stream bz) × (add_diff bz rounds new_size old (pos n) p
          ≡ done (record p { dstream = s'; new_data = p.new_data ++ bs; oldpos = pos (l + n) }))
        × (d.pending s' ≡ rest)
  unfolding add_diff
  add_diff_step p n l bs rest width h room place inside ho hb e =
      let (s', r, q) =
        block_read n (diff_bytes old l bs) rest p.dstream (length-diff_bytes old l bs ∙ width) h
          e in
      let fits : ltb new_size (length p.new_data + n) ≡ false = ground arith in
      (
        s',
        rw (
          fits,
          r,
          ◌>>=◌,
          place,
          pos-+ℤ l n,
          add_old-diff_bytes old l bs ho hb (omega (arith, width, inside)),
        ),
        q,
      )

  copy_extra_step :
      (p : Progress bz) (n l next : ℕ) (bs rest : List ℕ)
      → length bs ≡ n
      → n ≤ rounds
      → length p.new_data + n ≤ new_size
      → p.oldpos ≡ pos l
      → d.pending p.estream ≡ bs ++ rest
      → (s' : Bz.Stream bz) × (copy_extra bz rounds new_size (pos n) (sub_ℕ next l) p
          ≡ done (record p { estream = s'; new_data = p.new_data ++ bs; oldpos = pos next }))
        × (d.pending s' ≡ rest)
  unfolding copy_extra
  copy_extra_step p n l next bs rest width h room place e =
      let (s', r, q) = block_read n bs rest p.estream width h e in
      let fits : ltb new_size (length p.new_data + n) ≡ false = ground arith in
      (s', rw (fits, r, ◌>>=◌, place, pos-+ℤ-sub_ℕ l next), q)

  -- One round decodes one segment.
  round_step :
      (p : Progress bz) (l : ℕ) (new : List ℕ) (g : Segment) (gs : List Segment)
      → 24 ≤ rounds
      → new_size ≤ rounds
      → length old < 2 ^ 31
      → new_size < 2 ^ 31
      → AllBytes old
      → AllBytes new
      → Fits old new l (g ∷ gs)
      → Waits p l new (g ∷ gs)
      → (p' : Progress bz) × (patch_round bz rounds new_size old p ≡ done p')
        × Waits p' g.next (rest_of g new) gs
        × (p'.new_data ++ rest_of g new ≡ p.new_data ++ new)
  unfolding patch_round diff_block ctrl_block extra_block
  round_step p l new g gs h24 room ho2 hn2 ho hn fits w =
      let x = pos g.lenf in
      let y = pos g.lenx in
      let z = sub_ℕ g.next (l + g.lenf) in
      let wx : length (take g.lenf new) ≡ g.lenf = omega (arith, length-take g.lenf new, fits) in
      let wy : length (take g.lenx (drop g.lenf new)) ≡ g.lenx =
        omega (arith, length-take g.lenx (drop g.lenf new), length-drop g.lenf new, fits) in
      let (s1, p1, q1) = control_read x y z (ctrl_block g.next gs) p.cstream h24 w.control in
      let (rx, ry, rz) =
        offtin-triple x y z (omega (arith, fits, w.left)) (omega (arith, fits, w.left))
          (ground (arith, fits)) in
      let bs = take g.lenf new in
      let es = take g.lenx (drop g.lenf new) in
      let c = record p { cstream = s1 } in
      let (s2, p2, q2) =
        add_diff_step c g.lenf l bs (diff_block old (rest_of g new) g.next gs) wx
          (omega (arith, fits, w.left)) (omega (arith, fits, w.left)) w.place fits.1 ho
          (AllBytes-take g.lenf new hn) w.diff in
      let c2 = record c { dstream = s2; new_data = p.new_data ++ bs; oldpos = pos (l + g.lenf) } in
      let long = length-append p.new_data bs in
      let (s3, p3, q3) =
        copy_extra_step c2 g.lenx (l + g.lenf) g.next es (extra_block (rest_of g new) gs) wy
          (omega (arith, fits, w.left)) (omega (arith, fits, w.left, long, wx)) refl w.extra in
      (
        record c2 { estream = s3; new_data = p.new_data ++ bs ++ es; oldpos = pos g.next },
        rw (p1, ◌>>=◌, rx, ry, rz, p2, ◌>>=◌, p3),
        record {
          control = q1;
          diff = q2;
          extra = q3;
          place = refl;
          left = omega (
            arith,
            w.left,
            fits,
            wx,
            wy,
            long,
            length-append (p.new_data ++ bs) es,
            length-drop g.lenx (drop g.lenf new),
            length-drop g.lenf new,
          );
        },
        rejoin p.new_data g.lenf g.lenx new,
      )

  finished :
      (n : ℕ) (p : Progress bz)
      → new_size ≤ length p.new_data
      → patch_loop bz n rounds new_size old p ≡ done p.new_data
  unfolding patch_loop
  finished zero p h = let full : ltb (length p.new_data) new_size ≡ false = ground arith in rw full
  finished (suc n) p h =
      let full : ltb (length p.new_data) new_size ≡ false = ground arith in rw full

  -- Nothing is left when the new file is complete, whether or not empty segments remain.
  complete :
      (n l : ℕ) (new : List ℕ) (gs : List Segment) (p : Progress bz)
      → Waits p l new gs
      → new_size ≤ length p.new_data
      → patch_loop bz n rounds new_size old p ≡ done (p.new_data ++ new)
  complete n l new gs p w h =
      finished n p h
      ∙ ap done (
          sym (
            ap (λ xs. p.new_data ++ xs) (empty new (omega (arith, w.left)))
            ∙ append-nil p.new_data))

  pub patch_loop-Waits :
      (n l : ℕ) (new : List ℕ) (gs : List Segment) (p : Progress bz)
      → length gs ≤ n
      → 24 ≤ rounds
      → new_size ≤ rounds
      → length old < 2 ^ 31
      → new_size < 2 ^ 31
      → AllBytes old
      → AllBytes new
      → Fits old new l gs
      → Waits p l new gs
      → patch_loop bz n rounds new_size old p ≡ done (p.new_data ++ new)
  unfolding patch_loop
  patch_loop-Waits n l new [] p h h24 room ho2 hn2 ho hn fits w =
      complete n l new [] p w (omega (arith, w.left, ap length fits))
  patch_loop-Waits zero l new (g ∷ gs) p h h24 room ho2 hn2 ho hn fits w = absurd (omega arith)
  patch_loop-Waits (suc n) l new (g ∷ gs) p h h24 room ho2 hn2 ho hn fits w =
      let (p', r, w', e) = round_step p l new g gs h24 room ho2 hn2 ho hn fits w in
      let later =
        patch_loop-Waits n g.next (rest_of g new) gs p' (omega arith) h24 room ho2 hn2 ho
          (AllBytes-drop g.lenx (drop g.lenf new) (AllBytes-drop g.lenf new hn)) fits.3 w' in
      elim (Bool-cases (ltb (length p.new_data) new_size)) [
        | inl more ↦ rw (more, r, ◌>>=◌, later, e)
        | inr full ↦ complete (suc n) l new (g ∷ gs) p w (ground (arith, full))
      ]
