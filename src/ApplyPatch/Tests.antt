-- ===== src/ApplyPatch/Tests.antt =====
-- The theorems on patches at a small old file, with a decompressor that hands out what it was given.
use android_bootable_recover.Common.{
  ℕ, ◌^◌, ◌<◌, ◌≡◌, refl, true, none, some, List, [], ◌∷◌, ◌++◌, arith, length, take, drop,
  take-append-drop, length-take,
}
use android_bootable_recover.Common.Int.{pos, ℤ, negsuc}
use android_bootable_recover.ApplyPatch.Bytes.{
  read4, write4, read4-write4, read8, write8, read8-write8, offtin, offtout, offtin-offtout,
}
use android_bootable_recover.ApplyPatch.BsPatch.{
  bytes_eq, Bz, done, apply_bs_diff_patch_mem, fill_buffer,
}
use android_bootable_recover.ApplyPatch.BsPatch.Stream.{Decodes, fill_buffer-take}
use android_bootable_recover.ApplyPatch.BsPatch.Emit.{
  Segment, Fits, ctrl_block, diff_block, extra_block,
}
use android_bootable_recover.ApplyPatch.BsPatch.Roundtrip.{
  patch_file, Blocks, apply_bs_diff_patch_mem-patch_file,
}
use android_bootable_recover.ApplyPatch.ImgPatch
use android_bootable_recover.ApplyPatch.ImgPatch.{deflate_chunk, Zlib, applied, apply_image_patch}
use android_bootable_recover.ApplyPatch.ImgPatch.Chunks.{
  Piece, raw, normal, encode, encode_all, AllWork, apply_image_patch-encode_all,
}
use android_bootable_recover.ApplyPatch.ImgPatch.Mirror.{Ends, whole, apply_image_patch-Mirrored}

read4-write4_example : read4 (write4 0x12345678) ≡ 0x12345678
read4-write4_example = read4-write4 0x12345678 (omega arith)

read8-write8_example : read8 (write8 0x123456789abcdef0) ≡ 0x123456789abcdef0
read8-write8_example = read8-write8 0x123456789abcdef0 (omega arith)

offtin-offtout_example : offtin (offtout (negsuc 299) ++ (7 ∷ [])) ≡ negsuc 299
offtin-offtout_example = offtin-offtout (negsuc 299) (7 ∷ []) (omega arith) (omega arith)

abbrev stored : Bz
stored = record { Stream = List ℕ; init = λ xs. xs; decompress = λ n s. (take n s, drop n s, true) }

stored-Decodes : Decodes stored
stored-Decodes = record {
  pending = λ s. s;
  succeeds = λ n s h k. refl;
  progress = λ n s h k. omega (arith, length-take n s);
  fits = λ n s. omega (arith, length-take n s);
  delivers = λ n s. take-append-drop n s;
}

abbrev old_file : List ℕ
old_file = 10 ∷ 20 ∷ 30 ∷ 40 ∷ []

abbrev new_file : List ℕ
new_file = 31 ∷ 40 ∷ 7 ∷ 10 ∷ []

-- nothing and then the end of the old file, with one new byte behind, and then its start
abbrev segments : List Segment
segments =
    record { lenf = 0; lenx = 0; next = 2 }
    ∷ record { lenf = 2; lenx = 1; next = 0 }
    ∷ record { lenf = 1; lenx = 0; next = 1 }
    ∷ []

abbrev ctrl : List ℕ
ctrl = ctrl_block 0 segments

abbrev diff : List ℕ
diff = diff_block old_file new_file 0 segments

abbrev extra : List ℕ
extra = extra_block new_file segments

small : (length ctrl < 2 ^ 31) × (length diff < 2 ^ 31)
unfolding ctrl_block diff_block offtout
small = omega arith

packed : Blocks stored-Decodes old_file new_file segments ctrl diff extra
unfolding ctrl_block diff_block extra_block stored-Decodes
packed = record {
  ctrl_packs = refl;
  diff_packs = refl;
  extra_packs = refl;
  ctrl_small = small.0;
  diff_small = small.1;
}

fill_buffer-take_example :
    (s' : List ℕ) × (fill_buffer stored 5 3 old_file ≡ done (10 ∷ 20 ∷ 30 ∷ [], s'))
    × (s' ≡ 40 ∷ [])
unfolding stored-Decodes
fill_buffer-take_example = fill_buffer-take stored-Decodes 5 3 old_file (omega arith) (omega arith)

apply_bs_diff_patch_mem-patch_file_example :
    apply_bs_diff_patch_mem stored 3 24 old_file ((1 ∷ 2 ∷ []) ++ patch_file ctrl diff extra 4) 2
    ≡ done new_file
apply_bs_diff_patch_mem-patch_file_example =
    apply_bs_diff_patch_mem-patch_file stored-Decodes old_file new_file segments ctrl diff extra
      (1 ∷ 2 ∷ []) 3 24 (omega arith) (omega arith) (omega arith) (omega arith) fit packed
      (omega arith) (omega arith) (omega arith)
  where
    fit : Fits old_file new_file 0 segments
    fit = (
      omega arith,
      omega arith,
      omega arith,
      (omega arith, omega arith, omega arith, (omega arith, omega arith, omega arith, refl)),
    )

-- nothing is inflated
abbrev no_zlib : Zlib
no_zlib = record {
  Stream = Unit {0};
  inflate = λ n bs. none;
  deflate_init = λ d bs. tt;
  deflate = λ n s. ([], tt, true);
}

-- a sink that keeps what it is given
abbrev keep : List ℕ → List ℕ → List ℕ × ℤ
keep bs t = (t ++ bs, pos (length bs))

abbrev pieces : List Piece
pieces = raw (8 ∷ 9 ∷ []) ∷ normal 0 4 50 new_file ∷ []

abbrev image_patch : List ℕ
image_patch = ImgPatch.magic ++ (write4 2 ++ (encode_all pieces ++ patch_file ctrl diff extra 4))

inner_patch : apply_bs_diff_patch_mem stored 24 24 old_file image_patch 50 ≡ done new_file
unfolding apply_bs_diff_patch_mem patch_file ctrl_block diff_block extra_block write4 write8 encode
    offtin offtout
inner_patch = refl

apply_image_patch-encode_all_example :
    apply_image_patch stored no_zlib keep 24 none old_file image_patch
      (record { token = []; hashed = [] })
    ≡ applied (record { token = 8 ∷ 9 ∷ new_file; hashed = 8 ∷ 9 ∷ new_file })
apply_image_patch-encode_all_example =
    apply_image_patch-encode_all stored no_zlib keep 24 old_file image_patch (λ bs t. t ++ bs)
      (λ bs t. refl) pieces (patch_file ctrl diff extra 4) none (record { token = []; hashed = [] })
      (omega arith) works refl
  where
    works : AllWork stored no_zlib keep 24 old_file image_patch pieces
    works = (omega arith, ((omega arith, omega arith, omega arith, omega arith, inner_patch), tt))

-- zlib that stores
abbrev stored_zlib : Zlib
stored_zlib = record {
  Stream = List ℕ;
  inflate = λ n bs. some bs;
  deflate_init = λ d bs. bs;
  deflate = λ n s. (s, s, true);
}

-- the record of a deflate chunk whose bsdiff patch stands at byte 85
abbrev deflate_record : List ℕ
deflate_record =
    write8 0
    ++ (write8 4
        ++ (write8 85
            ++ (write8 4
                ++ (write8 4
                    ++ (write4 6 ++ (write4 8 ++ (write4 15 ++ (write4 8 ++ write4 0))))))))

appended : (bs t : List ℕ) → ((keep bs t).1 ≡ pos (length bs)) × ((keep bs t).0 ≡ t ++ bs)
appended bs t = (refl, refl)

-- a deflate chunk behind a raw one
abbrev mixed_patch : List ℕ
mixed_patch =
    ImgPatch.magic
    ++ (write4 2
        ++ (write4 3
            ++ (write4 1 ++ (9 ∷ write4 2 ++ (deflate_record ++ patch_file ctrl diff extra 4)))))

mixed_patch_works :
    apply_image_patch stored stored_zlib keep 24 none old_file mixed_patch
      (record { token = []; hashed = [] })
    ≡ applied (record { token = 9 ∷ new_file; hashed = 9 ∷ new_file })
unfolding apply_image_patch apply_bs_diff_patch_mem patch_file ctrl_block diff_block extra_block
    write4 write8 offtin offtout bytes_eq read4 read8
mixed_patch_works = refl

apply_image_patch-Mirrored_example :
    Ends stored stored_zlib keep 24
      (λ t. t)
      appended
      (whole stored stored_zlib keep 24 (λ t. t) appended)
      (record { token = []; hashed = [] })
      (apply_image_patch stored stored_zlib keep 24 none old_file mixed_patch
        (record { token = []; hashed = [] }))
apply_image_patch-Mirrored_example =
    apply_image_patch-Mirrored stored stored_zlib keep 24 (λ t. t) appended none old_file
      mixed_patch (record { token = []; hashed = [] })
