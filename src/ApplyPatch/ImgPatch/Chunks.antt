-- ===== src/ApplyPatch/ImgPatch/Chunks.antt =====
-- Image patches of normal and raw chunks, as applypatch/imgdiff.c writes their records.
use android_bootable_recover.Common.{
  ℕ, ◌+◌, ◌^◌, ◌≤◌, ◌<◌, ◌≡◌, refl, ap, ◌∙◌, true, false, Option, List, [], ◌∷◌, ◌++◌, append_assoc,
  arith, ltb, ◌==◌, length, length-append, take, drop, length-drop,
}
use android_bootable_recover.Common.Int.{ℤ, pos, ltb_ℤ}
use android_bootable_recover.ApplyPatch.Bytes.{
  read4, read8, write4, write8, read4-write4, read8-write8,
}
use android_bootable_recover.ApplyPatch.BsPatch
use android_bootable_recover.ApplyPatch.BsPatch.{Bz, bytes_eq, apply_bs_diff_patch_mem}
use android_bootable_recover.ApplyPatch.BsPatch.Stream.{take-append_exact, drop-append_exact}
use android_bootable_recover.ApplyPatch.ImgPatch.{
  bonus_of, ◌>>=◌, magic, Zlib, Output, applied, int_field, size_field, normal_chunk, raw_chunk,
  chunk, chunks, apply_image_patch, apply_bs_diff_patch,
}
use android_bootable_recover.ApplyPatch.BsPatch.Roundtrip.{drop-drop}

-- A chunk record: raw bytes, or a range of the source with the offset of a patch, and what the chunk
-- is in the target.
pub data Piece : Type 0 where
  raw : List ℕ → Piece
  normal : (start len offset : ℕ) → List ℕ → Piece

abbrev pub target : Piece → List ℕ
target (raw bs) = bs
target (normal _ _ _ new) = new

unfoldable pub encode : Piece → List ℕ
encode (raw bs) = write4 3 ++ (write4 (length bs) ++ bs)
encode (normal start len offset new) = write4 0 ++ (write8 start ++ (write8 len ++ write8 offset))

length-encode_raw : (bs : List ℕ) → length (encode (raw bs)) ≡ 8 + length bs
unfolding encode write4
length-encode_raw bs = omega arith

length-encode_normal :
    (start len offset : ℕ) (new : List ℕ) → length (encode (normal start len offset new)) ≡ 28
unfolding encode write4 write8
length-encode_normal start len offset new = refl

abbrev pub encode_all : List Piece → List ℕ
encode_all [] = []
encode_all (c ∷ cs) = encode c ++ encode_all cs

-- A field of the patch: its value, what follows it, and that it is inside.
module _ (patch : List ℕ) (at v : ℕ) (rest : List ℕ) where
  int_field-write4 :
      v < 2 ^ 31
      → drop at patch ≡ write4 v ++ rest
      → (int_field patch at ≡ pos v) × (drop (at + 4) patch ≡ rest) × (at + 4 ≤ length patch)
  unfolding write4 read4
  int_field-write4 h e =
      let back : read4 (write4 v) ≡ v = read4-write4 v (omega arith) in
      let small : ltb v (2 ^ 31) ≡ true = ground arith in
      (
        rw (e, back, small),
        rw (drop-drop at 4 patch, e),
        omega (arith, length-drop at patch, ap length e),
      )

  size_field-write8 :
      v < 2 ^ 32
      → drop at patch ≡ write8 v ++ rest
      → (size_field patch at ≡ v) × (drop (at + 8) patch ≡ rest) × (at + 8 ≤ length patch)
  unfolding write8 read8
  size_field-write8 h e =
      let back : read8 (write8 v) ≡ v = read8-write8 v (omega arith) in
      (
        rw (e, back) (omega arith),
        rw (drop-drop at 8 patch, e),
        omega (arith, length-drop at patch, ap length e),
      )

magic-bytes_eq : bytes_eq magic magic ≡ true
unfolding bytes_eq
magic-bytes_eq = refl

module _ (bz : Bz) (zlib : Zlib) {T : Type 0} (sink : List ℕ → T → T × ℤ) (rounds : ℕ)
    (old patch : List ℕ) where
  -- The sink takes all that it is given.
  abbrev pub TakesAll : (List ℕ → T → T) → Type 0
  TakesAll put = (bs : List ℕ) (t : T) → sink bs t ≡ (put bs t, pos (length bs))

  -- The bsdiff patch of a normal chunk turns its range of the source into its target.
  abbrev pub Works : Piece → Type 0
  Works (raw bs) = length bs < 2 ^ 31
  Works (normal start len offset new) =
      (start < 2 ^ 32)
      × (len < 2 ^ 32)
      × (offset < 2 ^ 32)
      × (start + len ≤ length old)
      × (apply_bs_diff_patch_mem bz rounds rounds (take len (drop start old)) patch offset
          ≡ BsPatch.done new)

  abbrev pub AllWork : List Piece → Type 0
  AllWork [] = Unit
  AllWork (c ∷ cs) = Works c × AllWork cs

  module _ (put : List ℕ → T → T) (takes : TakesAll put) where
    abbrev pub sent : List ℕ → Output T → Output T
    sent bs out = record { token = put bs out.token; hashed = out.hashed ++ bs }

    abbrev pub sent_all : List Piece → Output T → Output T
    sent_all [] out = out
    sent_all (c ∷ cs) out = sent_all cs (sent (target c) out)

    raw_step :
        (bonus bs rest : List ℕ) (at : ℕ) (out : Output T)
        → length bs < 2 ^ 31
        → drop at patch ≡ encode (raw bs) ++ rest
        → chunk bz zlib sink rounds bonus old patch at out
          ≡ applied (at + length (encode (raw bs)), sent bs out)
    unfolding chunk raw_chunk encode
    raw_step bonus bs rest at out h e =
        let e0 : drop at patch ≡ write4 3 ++ (write4 (length bs) ++ (bs ++ rest)) =
          e
          ∙ (append_assoc (write4 3) (write4 (length bs) ++ bs) rest
              ∙ ap (λ l. write4 3 ++ l) (append_assoc (write4 (length bs)) bs rest)) in
        let (f1, e1, b1) =
          int_field-write4 patch at 3 (write4 (length bs) ++ (bs ++ rest)) (omega arith) e0 in
        let (f2, e2, b2) = int_field-write4 patch (at + 4) (length bs) (bs ++ rest) h e1 in
        let read_bs : take (length bs) (drop (at + 4 + 4) patch) ≡ bs =
          ap (take (length bs)) e2 ∙ take-append_exact (length bs) bs rest refl in
        let t1 : ltb (length patch) (at + 4) ≡ false = ground arith in
        let t2 : ltb (length patch) (at + 4 + 4) ≡ false = ground arith in
        let t3 : ltb (length patch) (at + 4 + 4 + length bs) ≡ false =
          ground (arith, length-drop (at + 4 + 4) patch, ap length e2, length-append bs rest) in
        let same_bs : (length bs == length bs) ≡ true = ground arith in
        let end : at + length (encode (raw bs)) ≡ at + 4 + 4 + length bs =
          omega (arith, length-encode_raw bs) in
        rw (end, t1, f1, t2, f2, read_bs, t3, takes bs out.token, same_bs)

    patch_sent :
        (source : List ℕ) (offset : ℕ) (new : List ℕ) (out : Output T)
        → apply_bs_diff_patch_mem bz rounds rounds source patch offset ≡ BsPatch.done new
        → apply_bs_diff_patch bz zlib sink rounds source patch offset out ≡ applied (sent new out)
    unfolding apply_bs_diff_patch
    patch_sent source offset new out works =
        let whole : ltb_ℤ (pos (length new)) (pos (length new)) ≡ false = ground arith in
        rw (apply_bs_diff_patch, works, takes new out.token, whole)

    normal_step :
        (bonus : List ℕ) (start len offset : ℕ) (new rest : List ℕ) (at : ℕ) (out : Output T)
        → Works (normal start len offset new)
        → drop at patch ≡ encode (normal start len offset new) ++ rest
        → chunk bz zlib sink rounds bonus old patch at out
          ≡ applied (at + length (encode (normal start len offset new)), sent new out)
    unfolding chunk normal_chunk encode
    normal_step bonus start len offset new rest at out (hs, hl, ho, inside, works) e =
        let e0 : drop at patch
            ≡ write4 0 ++ (write8 start ++ (write8 len ++ (write8 offset ++ rest))) =
          e
          ∙ rw (
            append_assoc (write4 0) (write8 start ++ (write8 len ++ write8 offset)) rest,
            append_assoc (write8 start) (write8 len ++ write8 offset) rest,
            append_assoc (write8 len) (write8 offset) rest,
          ) in
        let (f1, e1, b1) =
          int_field-write4 patch at 0 (write8 start ++ (write8 len ++ (write8 offset ++ rest)))
            (omega arith) e0 in
        let (f2, e2, b2) =
          size_field-write8 patch (at + 4) start (write8 len ++ (write8 offset ++ rest)) hs e1 in
        let (f3, e3, b3) = size_field-write8 patch (at + 4 + 8) len (write8 offset ++ rest) hl e2 in
        let step : at + 4 + 16 ≡ at + 4 + 8 + 8 = omega arith in
        let (f4, e4, b4) =
          size_field-write8 patch (at + 4 + 16) offset rest ho (ap (λ k. drop k patch) step ∙ e3) in
        let t1 : ltb (length patch) (at + 4) ≡ false = ground arith in
        let t2 : ltb (length patch) (at + 4 + 24) ≡ false = ground arith in
        let t3 : ltb (length old) (start + len) ≡ false = ground arith in
        let end : at + length (encode (normal start len offset new)) ≡ at + 4 + 24 =
          omega (arith, length-encode_normal start len offset new) in
        rw (
          end,
          t1,
          f1,
          t2,
          f2,
          f3,
          f4,
          t3,
          patch_sent (take len (drop start old)) offset new out works,
        )

    chunks_step :
        (cs : List Piece) (tail : List ℕ) (i at : ℕ) (bonus_data : Option (List ℕ)) (out : Output T)
        → AllWork cs
        → drop at patch ≡ encode_all cs ++ tail
        → chunks bz zlib sink rounds (length cs) i bonus_data old patch at out
          ≡ applied (sent_all cs out)
    unfolding chunks
    chunks_step [] tail i at bonus_data out h e = refl
    chunks_step (c ∷ cs) tail i at bonus_data out h e =
        let e' : drop at patch ≡ encode c ++ (encode_all cs ++ tail) =
          e ∙ append_assoc (encode c) (encode_all cs) tail in
        let e2 : drop (at + length (encode c)) patch ≡ encode_all cs ++ tail =
          drop-drop at (length (encode c)) patch
          ∙ (ap (drop (length (encode c))) e'
              ∙ drop-append_exact (length (encode c)) (encode c) (encode_all cs ++ tail) refl) in
        rw
          (
            step (bonus_of bz zlib sink rounds i bonus_data) c (encode_all cs ++ tail) at out h.0
                e',
            ◌>>=◌,
          )
          (chunks_step cs tail (i + 1) (at + length (encode c)) bonus_data (sent (target c) out) h.1
            e2)
      where
        step :
            (bonus : List ℕ) (c : Piece) (rest : List ℕ) (at : ℕ) (out : Output T)
            → Works c
            → drop at patch ≡ encode c ++ rest
            → chunk bz zlib sink rounds bonus old patch at out
              ≡ applied (at + length (encode c), sent (target c) out)
        step bonus (raw bs) rest at out h e = raw_step bonus bs rest at out h e
        step bonus (normal start len offset new) rest at out h e =
            normal_step bonus start len offset new rest at out h e

    -- A patch that starts with the magic number, the number of its chunks and their records, normal
    -- and raw ones, makes the whole target: what the chunks are in the target goes to the sink and to
    -- the context, in order. The sink takes all it is given, and the bsdiff patch of each normal
    -- chunk turns its range of the source into its target.
    pub apply_image_patch-encode_all :
        (cs : List Piece) (tail : List ℕ) (bonus_data : Option (List ℕ)) (out : Output T)
        → length cs < 2 ^ 31
        → AllWork cs
        → patch ≡ magic ++ (write4 (length cs) ++ (encode_all cs ++ tail))
        → apply_image_patch bz zlib sink rounds bonus_data old patch out ≡ applied (sent_all cs out)
    unfolding apply_image_patch
    apply_image_patch-encode_all cs tail bonus_data out h works e =
        let e8 : drop 8 patch ≡ write4 (length cs) ++ (encode_all cs ++ tail) = ap (drop 8) e in
        let (f, e12, b) = int_field-write4 patch 8 (length cs) (encode_all cs ++ tail) h e8 in
        let long : ltb (length patch) 12 ≡ false = ground arith in
        let magical : bytes_eq (take 8 patch) magic ≡ true =
          ap (λ p. bytes_eq (take 8 p) magic) e ∙ magic-bytes_eq in
        rw (long, magical, f) (chunks_step cs tail 0 12 bonus_data out works e12)
