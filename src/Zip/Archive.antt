-- ===== src/Zip/Archive.antt =====
-- An open archive: `parseZipArchive`, `mzOpenZipArchive`, `mzFindZipEntry` and the calls of the hash
-- table in minzip/Zip.c.
--
-- The table holds addresses of entries: `layout.place i` is the address of the entry `i` of the array,
-- and `layout.index` goes back. An archive that could not be opened is closed, which is `bail`.
pub mod Index
pub mod Open
use android_bootable_recover.Common.{
  ℕ, zero, suc, ◌+◌, ◌-◌, ◌/◌, ◌%◌, ◌^◌, bit_and, Bool, true, false, not, ◌&&◌, Option, none, some,
  List, [], ◌∷◌, ltb, leb, ◌==◌, if◌then◌else◌, length,
}
use android_bootable_recover.HashTable
use android_bootable_recover.HashTable.{HashTable, create, hash_size, lookup}
use android_bootable_recover.Zip.{
  ZipEntry, Parsed, ok, bail, fault, ◌>>=◌, ◌>>◌, require, endsig, locsig, get2_le, get4_le,
  compute_hash, name_at,
}
use android_bootable_recover.Zip.Parse.{Machine, find_eocd, parse_entries}

pub record Layout : Type 0 where
  pub place : ℕ → ℕ
  pub index : ℕ → ℕ

pub record ZipArchive : Type 0 where
  pub num_entries : ℕ
  pub entries : List ZipEntry
  pub hash : HashTable

-- two names of the same length and the same bytes
unfoldable pub same_name : List ℕ → List ℕ → Bool
same_name [] [] = true
same_name [] (y ∷ ys) = false
same_name (x ∷ xs) [] = false
same_name (x ∷ xs) (y ∷ ys) = x == y && same_name xs ys

unfoldable pub of_run : {A : Type 0} → HashTable.Run A → Parsed A
of_run (HashTable.ok a) = ok a
of_run HashTable.fault = fault
of_run HashTable.hang = fault

-- a NULL leads to `bail`
unfoldable pub granted : {A : Type 0} → Option A → Parsed A
granted none = bail
granted (some a) = ok a

module _ (layout : Layout) where
  -- the name of the entry at an address
  abbrev pub name_of : List ZipEntry → ℕ → List ℕ
  name_of es address = name_at es (layout.index address)

  -- `hashcmpZipEntry` returns 0
  abbrev pub compare_entries : List ZipEntry → ℕ → ℕ → Bool
  compare_entries es item item' = same_name (name_of es item) (name_of es item')

  -- `hashcmpZipName` returns 0; `key` is the address of `name`
  abbrev pub compare_name : List ZipEntry → List ℕ → ℕ → ℕ → Bool
  compare_name es name item key = same_name (name_of es item) name

  -- `addEntryToHashTable`; another entry of the same name is only logged
  unfoldable pub add_entry_to_hash_table : List ZipEntry → HashTable → ℕ → Parsed HashTable
  unfolding of_run ◌>>=◌ lookup
  add_entry_to_hash_table es t i =
      of_run (lookup (compare_entries es) t (compute_hash (name_at es i)) (layout.place i) true)
      >>= λ found. ok found.0

  -- the loop over the entries from `i` on
  unfoldable pub add_entries : List ZipEntry → ℕ → ℕ → HashTable → Parsed HashTable
  unfolding add_entry_to_hash_table ◌>>=◌
  add_entries es zero i t = ok t
  add_entries es (suc n) i t = add_entry_to_hash_table es t i >>= λ t'. add_entries es n (i + 1) t'

  unfoldable pub parse_zip_archive : Machine → List ℕ → Parsed ZipArchive
  unfolding find_eocd parse_entries add_entries of_run granted create hash_size ◌>>=◌ ◌>>◌ require
  parse_zip_archive machine m = do
    val ← get4_le m 0
    require (not (val == endsig))
    require (val == locsig)
    ptr ← find_eocd m (length m + 1 - 22)
    num_entries ← get2_le m (ptr + 8)
    cd_offset ← get4_le m (ptr + 16)
    require (not (num_entries == 0))
    require (ltb cd_offset (length m))
    created ← of_run (create (hash_size num_entries))
    hash ← granted created
    entries ← parse_entries machine m num_entries cd_offset []
    filled ← add_entries entries num_entries 0 hash
    ok (record { num_entries = num_entries; entries = entries; hash = filled })

  -- `mzOpenZipArchive`: `mapped` is the file, if it could be opened and mapped
  unfoldable pub open_zip_archive : Machine → Option (List ℕ) → Parsed ZipArchive
  unfolding parse_zip_archive ◌>>◌ require
  open_zip_archive machine none = bail
  open_zip_archive machine (some m) = do require (leb 22 (length m)); parse_zip_archive machine m

  -- `mzFindZipEntry`: the address of an entry, or NULL
  unfoldable pub find_zip_entry : ZipArchive → List ℕ → ℕ → Parsed ℕ
  unfolding of_run lookup ◌>>=◌
  find_zip_entry archive name key =
      of_run (lookup (compare_name archive.entries name) archive.hash (compute_hash name) key false)
      >>= λ found. ok found.1

-- `mzIsZipEntrySymlink`, with S_ISLNK
unfoldable pub is_zip_entry_symlink : ZipEntry → Bool
is_zip_entry_symlink e =
    if e.version_made_by / 2 ^ 8 % 2 ^ 8 == 3
    then bit_and (e.external_file_attributes / 2 ^ 16) 0o170000 == 0o120000
    else false
