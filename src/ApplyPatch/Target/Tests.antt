-- ===== src/ApplyPatch/Target/Tests.antt =====
-- A file of four bytes that is patched in a store that is a function from names.
use android_bootable_recover.Common.{
  ℕ, zero, suc, ◌^◌, ◌≡◌, refl, ap, subst, ◌≢◌, inl, inr, Bool, true, false, ◌&&◌, Option, none,
  some, List, [], ◌∷◌, ◌++◌, arith, leb, if◌then◌else◌, Bool-cases, length, get_elem?, get_or, take,
  drop, replicate,
}
use android_bootable_recover.Edify.Text.{
  CString, codes, strcmp, is_same, Order, before, same, after,
}
use android_bootable_recover.Edify.Text.Compare.{strcmp-eq_same, strcmp_refl}
use android_bootable_recover.ApplyPatch.Bytes.{write8, offtin, offtout}
use android_bootable_recover.ApplyPatch.BsPatch
use android_bootable_recover.ApplyPatch.BsPatch.{bytes_eq, Bz, apply_bs_diff_patch_mem}
use android_bootable_recover.ApplyPatch.BsPatch.Emit.{Segment, ctrl_block, diff_block, extra_block}
use android_bootable_recover.ApplyPatch.BsPatch.Roundtrip.{patch_file}
use android_bootable_recover.ApplyPatch.ImgPatch.{Zlib}
use android_bootable_recover.ApplyPatch.FreeCache.{System, cache_temp_source, free_space_for_file}
use android_bootable_recover.ApplyPatch.FreeCache.Expendable.{IsExpendable}
use android_bootable_recover.Retouch.{retouch_mask_data}
use android_bootable_recover.ApplyPatch.Load.{
  Files, Pair, Meta, Opened, absent, opened, no_meta, is_partition, load_file_contents,
}
use android_bootable_recover.ApplyPatch.Sha.{parse_sha1, find_matching_patch}
use android_bootable_recover.ApplyPatch.Target.{
  is_enough, Disk, Patch, Chosen, from_source, Result, returned, crashed, patch_name, generate_file,
  target_fs, Stale, applypatch,
}
use android_bootable_recover.ApplyPatch.Target.Whole.{is_bsdiff, Ends, applypatch-Ends}
use android_bootable_recover.ApplyPatch.Target.Writes.{take-length, IsDisk}
use android_bootable_recover.ApplyPatch.Target.Safety.{Loaded, Final, generate_file-Final}
use android_bootable_recover.ApplyPatch.Target.Success.{Works, generate_file-success}

abbrev Store : Type 0
Store = CString → Option (List ℕ)

abbrev named : CString → CString → Bool
named q n = is_same (strcmp q n)

-- no directory is listed, and there is 1 GB of room
abbrev sys : System
sys = record {
  Fs = Store;
  list_dir = λ w n. none;
  is_regular = λ w n. true;
  read_link = λ w n. none;
  unlink = λ n w q. if named q n then none else w q;
  statfs = λ w n. some (2 ^ 20, 2 ^ 10);
}

abbrev appended : Option (List ℕ) → List ℕ → Option (List ℕ)
appended none d = some d
appended (some old) d = some (old ++ d)

abbrev opened_as : Option (List ℕ) → Opened
opened_as none = absent
opened_as (some raw) = opened raw no_meta

abbrev files_of : Store → Files
files_of w = record {
  open_file = λ n. opened_as (w n);
  find_partition = λ n. false;
  open_device = λ n. false;
  read_partition = λ n p k. [];
  read_device = λ n p k. [];
}

abbrev store : Disk sys
store = record {
  files = λ w. files_of w;
  create = λ n w. (true, λ q. if named q n then some [] else w q);
  write = λ n d w. (length d, λ q. if named q n then appended (w n) d else w q);
  chmod = λ n m w. (true, w);
  chown = λ n u g w. (true, w);
  rename = λ a b w. (true, λ q. if named q b then w a else if named q a then none else w q);
  write_to_partition = λ d n w. (false, w);
}

abbrev content : Store → CString → Option (List ℕ)
content w q = w q

itself : (n : CString) → named n n ≡ true
itself n = rw (strcmp_refl n)

other : (q n : CString) → q ≢ n → named q n ≡ false
other q n h = elim (Bool-cases (named q n)) [
  | inr e ↦ e
  | inl e ↦ absurd (h (strcmp-eq_same q n (is_same_of (strcmp q n) e)))
]
  where
    is_same_of : (o : Order) → is_same o ≡ true → o ≡ same
    is_same_of same e = refl
    is_same_of before e = absurd cc
    is_same_of after e = absurd cc

disk : IsDisk sys content store
disk = record {
  created = λ n w. (λ q h. rw (other q n h), λ e. rw (itself n));
  wrote = λ n d w. (λ q h. rw (other q n h), λ old e. rw (itself n, e, take-length d), omega arith);
  moded = λ n m w q. refl;
  owned = λ n u g w q. refl;
  unlinked = λ n w. (λ q h. rw (other q n h), inl (rw (itself n)));
  renamed = λ a b w. (λ e. (rw (itself b), λ q h k. rw (other q b k, other q a h)), λ e. absurd cc);
}

works : Works sys content store disk
works = record {
  creates = λ n w. refl;
  writes = λ n d w. refl;
  chmods = λ n m w. refl;
  chowns = λ n u g w. refl;
  renames = λ a b w. refl;
}

abbrev stored : Bz
stored = record { Stream = List ℕ; init = λ xs. xs; decompress = λ n s. (take n s, drop n s, true) }

abbrev no_zlib : Zlib
no_zlib = record {
  Stream = Unit {0};
  inflate = λ n bs. none;
  deflate_init = λ d bs. tt;
  deflate = λ n s. ([], s, false);
}

abbrev old_file : List ℕ
old_file = 10 ∷ 20 ∷ 30 ∷ 40 ∷ []

abbrev new_file : List ℕ
new_file = 31 ∷ 40 ∷ 7 ∷ []

abbrev segments : List Segment
segments = record { lenf = 0; lenx = 3; next = 0 } ∷ []

abbrev small_patch : List ℕ
small_patch =
    patch_file (ctrl_block 0 segments) (diff_block old_file new_file 0 segments)
      (extra_block new_file segments) 3

abbrev chosen : Chosen
chosen =
    from_source (record { sha1 = old_file; bytes = old_file; st = no_meta })
      (record { is_blob = true; bytes = small_patch })

runs : Unit {0}
unfolding apply_bs_diff_patch_mem patch_file ctrl_block diff_block extra_block write8 offtin offtout
    free_space_for_file target_fs bytes_eq
runs = tt

patched : apply_bs_diff_patch_mem stored 24 24 old_file small_patch 0 ≡ BsPatch.done new_file
unfolding runs
patched = refl

abbrev name : CString
name = codes "/system/a"

abbrev before_run : Store
before_run q = if named q name then some old_file else none

not_cache : name ≢ cache_temp_source
not_cache e = absurd (omega (arith, ap (λ l. get_or l 1 0) e))

patch_not_cache : patch_name name ≢ cache_temp_source
patch_not_cache e = absurd (omega (arith, ap (λ l. get_or l 1 0) e))

never : (w : Store) → IsExpendable sys w name → ⊥
never w e = none_listed e.listed
  where
    none_listed : {names : List CString} → none ≡ some names → ⊥
    none_listed e = ground arith

small_is_bsdiff :
    (leb 8 (length small_patch) && bytes_eq (take 8 small_patch) (codes "BSDIFF40")) ≡ true
unfolding runs
small_is_bsdiff = refl

roomy : is_enough (free_space_for_file sys before_run (target_fs name)) 3 ≡ true
unfolding runs
roomy = refl

before_run-Loaded :
    Loaded sys content store disk stored no_zlib 24
      (λ bs. bs)
      name
      name
      new_file
      3
      none
      chosen
      small_is_bsdiff
      not_cache
      patch_not_cache
      never
      before_run
unfolding runs retouch_mask_data strcmp
before_run-Loaded used file = (old_file, refl, (0, refl))

generate_file-Final_example :
    Final sys content store disk stored no_zlib 24
      (λ bs. bs)
      name
      name
      new_file
      3
      none
      chosen
      small_is_bsdiff
      not_cache
      patch_not_cache
      never
      before_run
      (generate_file stored no_zlib 24 (λ bs. bs) store name name new_file 3 none chosen before_run)
generate_file-Final_example =
    generate_file-Final sys content store disk stored no_zlib 24 (λ bs. bs) name name new_file 3
      none chosen small_is_bsdiff not_cache patch_not_cache never not_cache before_run
      before_run-Loaded

generate_file-success_example :
    (w' : Store) × (generate_file stored no_zlib 24
        (λ bs. bs)
        store
        name
        name
        new_file
        3
        none
        chosen
        before_run
      ≡ returned 0 w')
    × (content w' name ≡ some new_file)
generate_file-success_example =
    generate_file-success sys content store disk works stored no_zlib 24 (λ bs. bs) name name
      new_file 3 none chosen before_run new_file roomy refl small_is_bsdiff patched refl

what_was_read :
    (o : Option (List ℕ)) (raw : List ℕ) (st : Meta) → opened_as o ≡ opened raw st → o ≡ some raw
what_was_read none raw st h = absurd cc
what_was_read (some bs) raw st h = cc

reads :
    (w : Store) (n : CString) (raw : List ℕ) (st : Meta)
    → (files_of w).open_file n ≡ opened raw st
    → content w n ≡ some raw
reads w n raw st h = what_was_read (w n) raw st h

-- a digest of 20 bytes
abbrev padded : List ℕ → List ℕ
padded bs = take 20 (bs ++ replicate 20 0)

abbrev patches : List Patch
patches = record { is_blob = true; bytes = small_patch } ∷ []

abbrev new_text : CString
new_text = codes "1f28070000000000000000000000000000000000"

abbrev old_text : CString
old_text = codes "0A141e2800000000000000000000000000000000"

abbrev unsorted : List Pair → List Pair
unsorted ps = ps

abbrev not_stale : Stale
not_stale = record { size = 0; st = no_meta }

abbrev applied_run : Result Store
applied_run =
    applypatch stored no_zlib 24 padded store unsorted name (codes "-") new_text 3 (old_text ∷ [])
      patches none not_stale before_run

abbrev code_of : Result Store → Option ℕ
code_of (returned code w) = some code
code_of crashed = none

applies : code_of applied_run ≡ some 0
unfolding runs applypatch load_file_contents retouch_mask_data parse_sha1 find_matching_patch strcmp
applies = refl

all_bsdiff : (i : ℕ) (p : Patch) → get_elem? patches i ≡ some p → is_bsdiff p ≡ true
unfolding runs
all_bsdiff zero p h =
    let first : record { is_blob = true; bytes = small_patch } ≡ p = cc in
    subst (λ q. is_bsdiff q ≡ true) first refl
all_bsdiff (suc i) p h = absurd cc

name_is_file : is_partition name ≡ false
unfolding strcmp
name_is_file = refl

applypatch-Ends_example :
    Ends stored no_zlib 24 padded sys content store unsorted reads disk name name new_text not_cache
      name_is_file not_cache patch_not_cache never patches all_bsdiff before_run applied_run
unfolding runs strcmp
applypatch-Ends_example =
    applypatch-Ends stored no_zlib 24 padded sys content store unsorted reads disk name (codes "-")
      new_text not_cache name_is_file not_cache patch_not_cache never patches all_bsdiff 3
      (old_text ∷ []) none not_stale before_run
