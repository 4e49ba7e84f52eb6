-- ===== src/Retouch/Tests.antt =====
-- A small retouched binary.
use android_bootable_recover.Common.{ℕ, ◌≡◌, refl, none, some, List, [], ◌∷◌, ◌++◌, arith}
use android_bootable_recover.Edify.Text.{codes, strcmp}
use android_bootable_recover.ApplyPatch.Bytes.{read4, write4}
use android_bootable_recover.Retouch.{
  returned, matched, mismatched, retouch_mask_data, put_word, write_entry, decode_bytes, input_size,
  mask_loop,
}
use android_bootable_recover.Retouch.Entries.{Ends}
use android_bootable_recover.Retouch.Safety.{retouch_mask_data-Ends}

-- Two words, 100 and 200, each with its entry: the first in eight bytes, the second in two.
abbrev binary : ℕ → ℕ → List ℕ
binary v w =
    write4 v
    ++ (write4 w
        ++ ((0 ∷ 0 ∷ 0 ∷ 0 ∷ 0 ∷ 0 ∷ 0 ∷ 100 ∷ 128 ∷ 100 ∷ [])
            ++ (codes "RETOUCH " ++ (write4 10 ++ (write4 0 ++ codes "PRE ")))))

runs : Unit {0}
unfolding retouch_mask_data put_word write_entry decode_bytes input_size mask_loop strcmp write4
    read4
runs = tt

infers : retouch_mask_data (binary 107 207) none ≡ returned (binary 107 207) matched 7
unfolding runs
infers = refl

differs : retouch_mask_data (binary 107 208) none ≡ returned (binary 107 208) mismatched 0
unfolding runs
differs = refl

applies : retouch_mask_data (binary 107 208) (some 9) ≡ returned (binary 109 209) matched 9
unfolding runs
applies = refl

retouch_mask_data-Ends_example :
    Ends (some 9) (binary 107 208) (retouch_mask_data (binary 107 208) (some 9))
unfolding write4
retouch_mask_data-Ends_example =
    retouch_mask_data-Ends (binary 107 208) (some 9) (omega arith) (omega arith)
