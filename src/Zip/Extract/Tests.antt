-- ===== src/Zip/Extract/Tests.antt =====
-- The theorems on the order of entries and on extraction, at three entries.
use mathlib.Core.List.{Perm}
use android_bootable_recover.Common.{
  ℕ, zero, suc, ◌+◌, ◌<◌, ◌≡◌, refl, inl, Bool, true, false, ◌||◌, none, some, List, [], ◌∷◌, ◌++◌,
  arith, if◌then◌else◌, length, drop,
}
use android_bootable_recover.DirUtil.{FileSystem, directory, missing}
use android_bootable_recover.Edify.Text.{codes, strcmp, is_same}
use android_bootable_recover.Zip.{
  ZipEntry, ok, no_entry, name_at, all_printable, insert_entry, find_target, name_order,
}
use android_bootable_recover.Zip.Insert.{◌≼◌, IsSorted, insert_entry-IsSorted}
use android_bootable_recover.Zip.Names.{name_order-strcmp}
use android_bootable_recover.Zip.Archive.{ZipArchive}
use android_bootable_recover.Zip.Extract.{
  MzPathHelper, Contents, next, with_slash, target_entry_path, canonical, extract_loop,
  extract_recursive,
}
use android_bootable_recover.Zip.Extract.Path.{Ready, target_entry_path-Ready}
use android_bootable_recover.Zip.Extract.Sorted.{under, visit_all, extract_loop-all}
use android_bootable_recover.Zip.Extract.Whole.{extract_all, extract_recursive-all}

abbrev named : List ℕ → ZipEntry
named n = record no_entry { file_name = n }

abbrev two : List ZipEntry
two = named (codes "a/c") ∷ named (codes "b") ∷ []

abbrev three : List ZipEntry
three = named (codes "a/b") ∷ two

runs : Unit {0}
unfolding strcmp all_printable extract_recursive under find_target insert_entry target_entry_path
runs = tt

ordered_cons :
    (e : ZipEntry) (es : List ZipEntry)
    → all_printable e.file_name ≡ true
    → ((i : ℕ) → i < length es → e.file_name ≼ name_at es i)
    → IsSorted es
    → IsSorted (e ∷ es)
ordered_cons e es p below sorted = record { ordered = order; printable = print }
  where
    order : (i j : ℕ) → i < j → j < length (e ∷ es) → name_at (e ∷ es) i ≼ name_at (e ∷ es) j
    order i zero h k = absurd (omega arith)
    order zero (suc j) h k = below j (omega arith)
    order (suc i) (suc j) h k = sorted.ordered i j (omega arith) (omega arith)

    print : (i : ℕ) → i < length (e ∷ es) → all_printable (name_at (e ∷ es) i) ≡ true
    print zero h = p
    print (suc i) h = sorted.printable i (omega arith)

none-IsSorted : IsSorted []
none-IsSorted = record {
  ordered = λ i j h k. absurd (omega arith);
  printable = λ i h. absurd (omega arith);
}

below_c : (i : ℕ) → i < 1 → codes "a/c" ≼ name_at (named (codes "b") ∷ []) i
unfolding runs
below_c zero h e = cc
below_c (suc i) h e = omega arith

below_b : (i : ℕ) → i < 2 → codes "a/b" ≼ name_at two i
unfolding runs
below_b zero h e = cc
below_b (suc zero) h e = cc
below_b (suc (suc i)) h e = omega arith

two-IsSorted : IsSorted two
unfolding runs
two-IsSorted =
    ordered_cons (named (codes "a/c")) (named (codes "b") ∷ []) refl below_c
      (ordered_cons (named (codes "b")) [] refl (λ i h. absurd (omega arith)) none-IsSorted)

three-IsSorted : IsSorted three
unfolding runs
three-IsSorted = ordered_cons (named (codes "a/b")) two refl below_b two-IsSorted

b_printable : all_printable (codes "a/b") ≡ true
unfolding runs
b_printable = refl

insert_entry-IsSorted_example :
    (es' : List ZipEntry) × (insert_entry (named (codes "a/b")) two ≡ ok es')
    × IsSorted es'
    × Perm es' (named (codes "a/b") ∷ two)
    × (length es' ≡ suc (length two))
insert_entry-IsSorted_example =
    insert_entry-IsSorted two (named (codes "a/b")) two-IsSorted b_printable

inserts : insert_entry (named (codes "a/b")) two ≡ ok three
unfolding runs
inserts = refl

name_order-strcmp_example : name_order (codes "a/b") (codes "b") ≡ strcmp (codes "a/b") (codes "b")
name_order-strcmp_example = name_order-strcmp (codes "a/b") (codes "b") b_printable

extract_loop-all_example :
    extract_loop (λ e n. ok (next (n + 1))) (codes "a/") three false 0
    ≡ visit_all (λ e n. ok (next (n + 1))) (under (codes "a/") three) 0
extract_loop-all_example =
    extract_loop-all (λ e n. ok (next (n + 1))) (codes "a/") three 0 three-IsSorted

abbrev fresh : MzPathHelper
fresh = record {
  target_dir = codes "/t";
  zip_dir_len = 2;
  buf = none;
  target_dir_len = 2;
  buf_len = 0;
}

target_entry_path-Ready_example :
    (helper : MzPathHelper) × (target_entry_path fresh (codes "a/b")
      ≡ ok (helper, with_slash (codes "/t") ++ drop 2 (codes "a/b")))
    × Ready (codes "/t") 2 helper
target_entry_path-Ready_example =
    target_entry_path-Ready (codes "/t") 2 fresh (codes "a/b")
      (record { same_dir = refl; same_len = refl; written = inl (refl, refl) }) (omega arith)

-- a system whose state is the list of the paths that were made
abbrev holds : List ℕ → List (List ℕ) → Bool
holds path [] = false
holds path (p ∷ made) = is_same (strcmp path p) || holds path made

abbrev made_fs : FileSystem (List (List ℕ))
made_fs = record {
  stat = λ path made. if holds path made then directory else missing;
  mkdir = λ path made. (true, path ∷ made);
  utime = λ path made. (true, made);
}

abbrev plain : Contents (List (List ℕ))
plain = record {
  read_entry = λ e n made. (none, made);
  symlink = λ link path made. (true, path ∷ made);
  creat = λ path made. (some 3, path ∷ made);
  extract_to_file = λ e fd made. (true, made);
  close = λ fd made. made;
}

abbrev archive : ZipArchive
archive = record {
  num_entries = 3;
  entries = three;
  hash = record { table_size = 0; num_entries = 0; num_dead_entries = 0; entries = [] };
}

extracts :
    extract_recursive made_fs plain archive (codes "a") (codes "/t") 0 false (λ path made. made) []
    ≡ ok (true, codes "/t/c" ∷ codes "/t/b" ∷ codes "/t" ∷ [])
unfolding runs
extracts = refl

extract_recursive-all_example :
    extract_recursive made_fs plain archive (codes "a") (codes "/t") 0 false (λ path made. made) []
    ≡ ok (
        extract_all made_fs plain 0 false
          (λ path made. made)
          (codes "/t")
          (length (canonical (codes "a")))
          (under (canonical (codes "a")) three)
          [])
extract_recursive-all_example =
    extract_recursive-all made_fs plain 0 false (λ path made. made) archive 0x61 [] (codes "/t") []
      three-IsSorted (omega arith) refl
