-- ===== src/Zip/Parse.antt =====
-- Reading the central directory: `parseZipArchive` and `mzOpenZipArchive` of minzip/Zip.c.
--
-- An entry is inserted once it was checked; the source makes its place in the middle of the checks,
-- which is not seen from outside, since a failed check ends the parse.
pub mod Safety
pub mod Eocd
use android_bootable_recover.Common.{
  ℕ, zero, suc, ◌+◌, ◌/◌, ◌%◌, ◌^◌, Bool, ◌||◌, List, leb, ◌==◌, if◌then◌else◌, length, take, drop,
}
use android_bootable_recover.HashTable
use android_bootable_recover.HashTable.{HashTable, create, hash_size, lookup}
use android_bootable_recover.ApplyPatch.BsPatch.{bytes_eq}
use android_bootable_recover.Zip.{
  ZipEntry, Parsed, ok, bail, fault, ◌>>=◌, ◌>>◌, require, censig, endsig, locsig, byte, get2_le,
  get4_le, valid_filename, compute_hash, name_at, insert_entry, find_target,
}

-- The machine: the number of values of a pointer and of a `long`, and the address of the map. The two
-- functions are `safe_add` of libsafe_iop, on pointers and on `long`.
pub record Machine : Type 0 where
  pub word : ℕ
  pub map_addr : ℕ
  pub safe_add_pointer : ℕ → ℕ → Bool
  pub safe_add_long : ℕ → ℕ → Bool

-- the backward search for the end-of-central-directory record, from the offset below the first one
unfoldable pub find_eocd : List ℕ → ℕ → Parsed ℕ
find_eocd m zero = bail
find_eocd m (suc at) =
    let earlier = find_eocd m at in
    if byte m at == endsig % 256
    then (get4_le m at >>= λ sig. if sig == endsig then ok at else earlier)
    else earlier

-- the high byte of "version made by" is 0 or that of Unix
abbrev pub is_compatible : ℕ → Bool
is_compatible version = version / 256 == 0 || version / 256 == 3

module _ (machine : Machine) where
  -- the local header of an entry: the offset of its data
  unfoldable pub read_local : List ℕ → ℕ → ℕ → Parsed ℕ
  read_local m local_hdr_offset comp_len = do
    require (machine.safe_add_pointer machine.map_addr local_hdr_offset)
    let local_hdr = (machine.map_addr + local_hdr_offset) % machine.word
    require (leb ((local_hdr + 30) % machine.word) (machine.map_addr + length m))
    sig ← get4_le m local_hdr_offset
    require (sig == locsig)
    name_len ← get2_le m (local_hdr_offset + 26)
    extra_len ← get2_le m (local_hdr_offset + 28)
    let offset = (local_hdr_offset + 30 + name_len + extra_len) % 2 ^ 32
    require (machine.safe_add_long offset comp_len)
    require (leb ((offset + comp_len) % machine.word) (length m))
    ok offset

  -- one central directory record, and the offset of the next one
  unfoldable pub parse_entry : List ℕ → ℕ → Parsed (ZipEntry × ℕ)
  unfolding read_local ◌>>=◌ ◌>>◌ require
  parse_entry m ptr = do
    require (leb (ptr + 46) (length m))
    sig ← get4_le m ptr
    require (sig == censig)
    local_hdr_offset ← get4_le m (ptr + 42)
    file_name_len ← get2_le m (ptr + 28)
    extra_len ← get2_le m (ptr + 30)
    comment_len ← get2_le m (ptr + 32)
    require (leb (ptr + 46 + file_name_len) (length m))
    let file_name = take file_name_len (drop (ptr + 46) m)
    require (valid_filename file_name)
    comp_len ← get4_le m (ptr + 20)
    uncomp_len ← get4_le m (ptr + 24)
    compression ← get2_le m (ptr + 10)
    mod_time ← get4_le m (ptr + 12)
    crc32 ← get4_le m (ptr + 16)
    version_made_by ← get2_le m (ptr + 4)
    require (is_compatible version_made_by)
    external_file_attributes ← get4_le m (ptr + 38)
    offset ← read_local m local_hdr_offset comp_len
    ok (
      record {
        file_name = file_name;
        offset = offset;
        comp_len = comp_len;
        uncomp_len = uncomp_len;
        compression = compression;
        mod_time = mod_time;
        crc32 = crc32;
        version_made_by = version_made_by;
        external_file_attributes = external_file_attributes;
      },
      ptr + 46 + file_name_len + extra_len + comment_len,
    )

  -- the entries of the central directory
  unfoldable pub parse_entries : List ℕ → ℕ → ℕ → List ZipEntry → Parsed (List ZipEntry)
  unfolding parse_entry insert_entry
  parse_entries m zero ptr es = ok es
  parse_entries m (suc n) ptr es = do
    (e, next) ← parse_entry m ptr
    es' ← insert_entry e es
    parse_entries m n next es'
