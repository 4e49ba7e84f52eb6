-- ===== src/ApplyPatch/BsPatch.antt =====
-- Applying a bsdiff patch: applypatch/bspatch.c. The decompressor is libbz2, which the source only
-- calls: a parameter.
--
-- Offsets are whole numbers, for patches of files below 2 GB; the output is the list of the bytes
-- written so far, so that `newpos` is its length. `malloc` does not fail.
pub mod Stream
pub mod Emit
pub mod Control
pub mod Correct
pub mod Roundtrip
use android_bootable_recover.Common.{
  ℕ, zero, suc, ◌+◌, ◌-◌, ◌%◌, Bool, true, false, ◌&&◌, ◌||◌, Option, none, some, List, [], ◌∷◌,
  ◌++◌, ltb, ◌==◌, if◌then◌else◌, length, get_elem?, take, drop,
}
use android_bootable_recover.Common.Int.{ℤ, pos, negsuc, ◌+ℤ◌}
use android_bootable_recover.ApplyPatch.Bytes.{offtin}

-- A `bz_stream`: `init` is `BZ2_bzDecompressInit` on `next_in` and `avail_in`; `decompress n s` is
-- `BZ2_bzDecompress` with `avail_out = n`. It gives the bytes put out, the stream after, and whether
-- the code was BZ_OK or BZ_STREAM_END.
pub record Bz : Type 1 where
  pub Stream : Type 0
  pub init : List ℕ → Stream
  pub decompress : ℕ → Stream → List ℕ × Stream × Bool

pub data Outcome (A : Type 0) : Type 0 where
  done : A → Outcome A
  -- a return that is not 0
  corrupt : Outcome A
  -- a read outside the patch
  fault : Outcome A
  -- the rounds ran out
  hang : Outcome A

infixl 5 ◌>>=◌
abbrev pub ◌>>=◌ : {A B : Type 0} → Outcome A → (A → Outcome B) → Outcome B
done a >>= f = f a
corrupt >>= f = corrupt
fault >>= f = fault
hang >>= f = hang

-- `oldpos + i`, if it is an index of the old file
abbrev pub old_byte : List ℕ → ℤ → Option ℕ
old_byte old (pos p) = get_elem? old p
old_byte old (negsuc p) = none

-- "Add old data to diff string", on unsigned chars
unfoldable pub add_old : List ℕ → ℤ → List ℕ → List ℕ
unfolding ◌+ℤ◌
add_old old p [] = []
add_old old p (d ∷ ds) =
    (elim (old_byte old p) [ none ↦ d | some o ↦ (d + o) % 256 ]) ∷ add_old old (p +ℤ pos 1) ds

abbrev pub is_negative : ℤ → Bool
is_negative (pos _) = false
is_negative (negsuc _) = true

unfoldable pub bytes_eq : List ℕ → List ℕ → Bool
bytes_eq [] [] = true
bytes_eq (x ∷ xs) (y ∷ ys) = x == y && bytes_eq xs ys
bytes_eq _ _ = false

abbrev pub magic : List ℕ
magic = b'B' ∷ b'S' ∷ b'D' ∷ b'I' ∷ b'F' ∷ b'F' ∷ b'4' ∷ b'0' ∷ []

module _ (bz : Bz) where
  open bz use {Stream, init, decompress}

  -- `FillBuffer`; `rounds` bounds the calls of the decompressor
  unfoldable pub fill_buffer : ℕ → ℕ → Stream → Outcome (List ℕ × Stream)
  fill_buffer rounds zero s = done ([], s)
  fill_buffer zero (suc size) s = hang
  fill_buffer (suc rounds) (suc size) s =
      let (out, s', good) = decompress (suc size) s in
      let rest = fill_buffer rounds (suc size - length out) s' in
      if good then (rest >>= λ (more, s''). done (out ++ more, s'')) else corrupt

  -- what the loop keeps: the three streams, the old position and the new file
  pub record Progress : Type 0 where
    pub cstream : Stream
    pub dstream : Stream
    pub estream : Stream
    pub oldpos : ℤ
    pub new_data : List ℕ

  -- the copy of `y` extra bytes, and the move in the old file by `z`
  unfoldable pub copy_extra : ℕ → ℕ → ℤ → ℤ → Progress → Outcome Progress
  copy_extra rounds new_size (negsuc _) z p = corrupt
  copy_extra rounds new_size (pos y) z p =
      if ltb new_size (length p.new_data + y)
      then corrupt
      else (fill_buffer rounds y p.estream >>= λ (extra, s).
          done (record p { estream = s; new_data = p.new_data ++ extra; oldpos = p.oldpos +ℤ z }))

  -- the addition of `x` bytes of the old file to the diff
  unfoldable pub add_diff : ℕ → ℕ → List ℕ → ℤ → Progress → Outcome Progress
  unfolding add_old
  add_diff rounds new_size old (negsuc _) p = corrupt
  add_diff rounds new_size old (pos x) p =
      if ltb new_size (length p.new_data + x)
      then corrupt
      else (fill_buffer rounds x p.dstream >>= λ (diff, s). done (record p {
        dstream = s;
        new_data = p.new_data ++ add_old old p.oldpos diff;
        oldpos = p.oldpos +ℤ pos x;
      }))

  -- one round of the loop: a control triple, and what it says
  unfoldable pub patch_round : ℕ → ℕ → List ℕ → Progress → Outcome Progress
  unfolding fill_buffer add_diff copy_extra
  patch_round rounds new_size old p = fill_buffer rounds 24 p.cstream >>= λ (buf, s).
      let x = offtin buf in
      let y = offtin (drop 8 buf) in
      let z = offtin (drop 16 buf) in
      if is_negative x || is_negative y
      then corrupt
      else (add_diff rounds new_size old x (record p { cstream = s })
          >>= copy_extra rounds new_size y z)

  -- `while (newpos < *new_size)`; `rounds` bounds its rounds too
  unfoldable pub patch_loop : ℕ → ℕ → ℕ → List ℕ → Progress → Outcome (List ℕ)
  unfolding patch_round
  patch_loop zero rounds new_size old p =
      if ltb (length p.new_data) new_size then hang else done p.new_data
  patch_loop (suc n) rounds new_size old p =
      let next = patch_round rounds new_size old p >>= patch_loop n rounds new_size old in
      if ltb (length p.new_data) new_size then next else done p.new_data

  -- the streams of a patch with these lengths, from the byte behind the header
  unfoldable pub start_patch : ℕ → ℕ → List ℕ → List ℕ → ℤ → ℤ → ℤ → Outcome (List ℕ)
  unfolding patch_loop
  start_patch n rounds old body (pos ctrl_len) (pos data_len) (pos new_size) =
      if ltb (length body) (ctrl_len + data_len)
      then fault
      else patch_loop n rounds new_size old (record {
        cstream = init (take ctrl_len body);
        dstream = init (take data_len (drop ctrl_len body));
        estream = init (drop (ctrl_len + data_len) body);
        oldpos = pos 0;
        new_data = [];
      })
  start_patch n rounds old body _ _ _ = corrupt

  -- `ApplyBSDiffPatchMem`. The header is read with no look at the size of the patch; `fault` is a
  -- read behind its end.
  unfoldable pub apply_bs_diff_patch_mem : ℕ → ℕ → List ℕ → List ℕ → ℕ → Outcome (List ℕ)
  unfolding bytes_eq start_patch
  apply_bs_diff_patch_mem n rounds old patch patch_offset =
      let header = drop patch_offset patch in
      if ltb (length header) 8
      then fault
      else if bytes_eq (take 8 header) magic
      then (if ltb (length header) 32
          then fault
          else start_patch n rounds old (drop 32 header) (offtin (drop 8 header))
              (offtin (drop 16 header)) (offtin (drop 24 header)))
      else corrupt
