-- ===== src/Zip/Tests.antt =====
-- Runs of the archive reader on a small archive.
use android_bootable_recover.Common.{
  ℕ, zero, suc, ◌+◌, ◌-◌, ◌^◌, ◌<◌, ◌≡◌, refl, ◌≢◌, ◌⊎◌, Bool, true, ◌&&◌, some, List, [], ◌∷◌,
  ◌++◌, arith, ltb, length, take,
}
use android_bootable_recover.HashTable.{null, probe, add_entry}
use android_bootable_recover.Zip.Parse.Eocd.{Last, find_eocd-Last}
use android_bootable_recover.Zip.{name_at, get4_le, get2_le, valid_filename, compute_hash}
use android_bootable_recover.Zip.{Parsed, ok, bail, fault, byte}
use android_bootable_recover.Zip.Parse.{Machine}
use android_bootable_recover.Zip.Parse.Safety.{Ensures, Wide}
use android_bootable_recover.Zip.Archive.{
  same_name, Layout, ZipArchive, open_zip_archive, find_zip_entry,
}
use android_bootable_recover.Zip.Archive.Index.{IsLayout}
use android_bootable_recover.Zip.Archive.Open.{
  IsOpen, open_zip_archive-IsOpen, find_zip_entry-Found,
}

-- 64-bit addresses, and tests that are those of `safe_add`
abbrev machine : Machine
machine = record {
  word = 2 ^ 64;
  map_addr = 0x70000000;
  safe_add_pointer = λ a b. ltb (a + b) (2 ^ 64);
  safe_add_long = λ a b. ltb (a + b) (2 ^ 63);
}

-- entry `i` stands at the address `i + 1`
abbrev layout : Layout
layout = record { place = λ i. i + 1; index = λ a. a - 1 }

abbrev local_header : List ℕ
local_header =
    0x50 ∷ 0x4b ∷ 3 ∷ 4 ∷ 10 ∷ 0 ∷ 0 ∷ 0 ∷ 0 ∷ 0 ∷ 0 ∷ 0 ∷ 0 ∷ 0 ∷ 0x43 ∷ 0xbe ∷ 0xb7 ∷ 0xe8 ∷ 1 ∷ 0
    ∷ 0 ∷ 0 ∷ 1 ∷ 0 ∷ 0 ∷ 0 ∷ 3 ∷ 0 ∷ 0 ∷ 0 ∷ []

abbrev central_header : List ℕ
central_header =
    0x50 ∷ 0x4b ∷ 1 ∷ 2 ∷ 10 ∷ 3 ∷ 10 ∷ 0 ∷ 0 ∷ 0 ∷ 0 ∷ 0 ∷ 0 ∷ 0 ∷ 0 ∷ 0 ∷ 0x43 ∷ 0xbe ∷ 0xb7
    ∷ 0xe8 ∷ 1 ∷ 0 ∷ 0 ∷ 0 ∷ 1 ∷ 0 ∷ 0 ∷ 0 ∷ 3 ∷ 0 ∷ 0 ∷ 0 ∷ 0 ∷ 0 ∷ 0 ∷ 0 ∷ 0 ∷ 0 ∷ 0 ∷ 0 ∷ 0 ∷ 0
    ∷ 0 ∷ 0 ∷ 0 ∷ 0 ∷ []

abbrev end_header : List ℕ
end_header =
    0x50 ∷ 0x4b ∷ 5 ∷ 6 ∷ 0 ∷ 0 ∷ 0 ∷ 0 ∷ 1 ∷ 0 ∷ 1 ∷ 0 ∷ 49 ∷ 0 ∷ 0 ∷ 0 ∷ 34 ∷ 0 ∷ 0 ∷ 0 ∷ 0 ∷ 0
    ∷ []

-- "a/b"
abbrev name : List ℕ
name = 0x61 ∷ 0x2f ∷ 0x62 ∷ []

-- an archive with the entry "a/b" that holds one byte
abbrev archive_file : List ℕ
archive_file = local_header ++ name ++ 0x41 ∷ central_header ++ name ++ end_header

laid : IsLayout layout (2 ^ 16)
laid = record {
  proper = λ i h. record {
    not_null = λ e. absurd (omega arith);
    not_tombstone = λ e. absurd (omega arith);
  };
  back = λ i h. omega arith;
}

wide : Wide machine archive_file
wide = record { fits = omega arith; reach = omega arith; long = omega arith }

open_zip_archive-IsOpen_example :
    Ensures (open_zip_archive layout machine (some archive_file)) (IsOpen layout archive_file)
open_zip_archive-IsOpen_example = open_zip_archive-IsOpen layout laid machine archive_file wide

abbrev empty_archive : ZipArchive
empty_archive = record {
  num_entries = 0;
  entries = [];
  hash = record { table_size = 0; num_entries = 0; num_dead_entries = 0; entries = [] };
}

abbrev archive_of : Parsed ZipArchive → ZipArchive
archive_of (ok a) = a
archive_of bail = empty_archive
archive_of fault = empty_archive

abbrev archive : ZipArchive
archive = archive_of (open_zip_archive layout machine (some archive_file))

runs : Unit {0}
unfolding open_zip_archive get4_le get2_le valid_filename probe compute_hash add_entry
    find_zip_entry same_name Ensures
runs = tt

opens : IsOpen layout archive_file archive
unfolding runs
opens = open_zip_archive-IsOpen_example

counts : archive.num_entries ≡ 1
unfolding runs
counts = refl

-- a file without its last byte has no record of the end
truncated : open_zip_archive layout machine (some (take 104 archive_file)) ≡ bail
unfolding runs
truncated = refl

finds : find_zip_entry layout archive name 7 ≡ ok 1
unfolding runs
finds = refl

misses : find_zip_entry layout archive (0x61 ∷ []) 7 ≡ ok null
unfolding runs
misses = refl

find_zip_entry-Found_example :
    (r : ℕ) × (find_zip_entry layout archive name 7 ≡ ok r)
    × (((i : ℕ) × (i < length archive.entries)
          × (r ≡ layout.place i)
          × (name_at archive.entries i ≡ name))
        ⊎ ((r ≡ null) × ((i : ℕ) → i < length archive.entries → name_at archive.entries i ≢ name)))
find_zip_entry-Found_example =
    find_zip_entry-Found layout laid archive_file archive opens name 7 (omega arith)

abbrev all_bytes : List ℕ → Bool
all_bytes [] = true
all_bytes (c ∷ cs) = ltb c (2 ^ 8) && all_bytes cs

bytes_of : (m : List ℕ) → all_bytes m ≡ true → (i : ℕ) → byte m i < 2 ^ 8
bytes_of [] h i = omega arith
bytes_of (c ∷ cs) h zero = ground arith
bytes_of (c ∷ cs) h (suc i) = bytes_of cs (ground arith) i

find_eocd-Last_example : Last archive_file (bytes_of archive_file refl) 85
find_eocd-Last_example = find_eocd-Last archive_file (bytes_of archive_file refl) 85 (omega arith)
