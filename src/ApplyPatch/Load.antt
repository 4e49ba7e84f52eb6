-- ===== src/ApplyPatch/Load.antt =====
-- Reading what is to be patched: `LoadFileContents`, `LoadPartitionContents` and `applypatch_check` of
-- applypatch/applypatch.c.
--
-- The calls on files and partitions are parameters, on a state that they do not change. So is SHA-1,
-- of the bytes that went into its context. A name is the list of its bytes before the NUL.
pub mod Partition
mod Tests
use android_bootable_recover.Common.{
  ℕ, zero, suc, ◌+◌, ◌-◌, ◌/◌, ◌%◌, ◌^◌, Bool, true, false, not, ◌||◌, Option, none, some, List, [],
  ◌∷◌, ◌++◌, ltb, leb, ◌==◌, if◌then◌else◌, length, get_elem?, take, drop,
}
use android_bootable_recover.Common.Int.{ℤ, pos, negsuc}
use android_bootable_recover.Edify.Text.{CString, codes, strcmp, is_same}
use android_bootable_recover.Edify.Number.{strtol}
use android_bootable_recover.Retouch
use android_bootable_recover.Retouch.{retouch_mask_data}
use android_bootable_recover.ApplyPatch.BsPatch.{bytes_eq}
use android_bootable_recover.ApplyPatch.FreeCache.{cache_temp_source}
use android_bootable_recover.ApplyPatch.Sha.{parse_sha1, find_matching_patch}

pub record Meta : Type 0 where
  pub st_mode : ℕ
  pub st_uid : ℕ
  pub st_gid : ℕ

pub record FileContents : Type 0 where
  pub sha1 : List ℕ
  pub bytes : List ℕ
  pub st : Meta

-- `stat`, `fopen` and `fread` of a file: not there, some other error, or what was read, with what
-- `stat` said of it
pub data Opened : Type 0 where
  absent unreadable : Opened
  opened : List ℕ → Meta → Opened

-- A partition is found by name, or a device is opened: then `n` bytes from the place `p` on are
-- `read_device name p n`, fewer at the end or on an error.
pub record Files : Type 0 where
  pub open_file : CString → Opened
  pub find_partition : CString → Bool
  pub open_device : CString → Bool
  pub read_partition : CString → ℕ → ℕ → List ℕ
  pub read_device : CString → ℕ → ℕ → List ℕ

-- a size and the text of a digest, which may be missing at the end
pub record Pair : Type 0 where
  pub size : ℕ
  pub sha1sum : Option CString

-- How a load ends: `enoent` is -ENOENT, `failed` is -1, `fault` a crash on a NULL from `strtok` or on
-- an empty array, and in the retouching.
pub data Loading : Type 0 where
  loaded : FileContents → Loading
  enoent failed fault : Loading

abbrev pub colon : ℕ
colon = 0x3a

-- The pieces that `strtok` gives, one after the other: none of them is empty.
unfoldable pub tokens_from : CString → CString → List CString
tokens_from [] [] = []
tokens_from (t ∷ token) [] = (t ∷ token) ∷ []
tokens_from [] (c ∷ s) = if c == colon then tokens_from [] s else tokens_from (c ∷ []) s
tokens_from (t ∷ token) (c ∷ s) =
    if c == colon then (t ∷ token) ∷ tokens_from [] s else tokens_from ((t ∷ token) ++ c ∷ []) s

unfoldable pub tokens : CString → List CString
unfolding tokens_from
tokens s = tokens_from [] s

unfoldable pub count_colons : CString → ℕ
count_colons [] = 0
count_colons (c ∷ s) = (if c == colon then 1 else 0) + count_colons s

-- a `long` as a `size_t` of 32 bits
abbrev pub as_size : ℤ → ℕ
as_size (pos n) = n % 2 ^ 32
as_size (negsuc n) = 2 ^ 32 - 1 - n % 2 ^ 32

-- What the loop over the pairs makes of the pieces: `bad_size` is a size of 0, `no_piece` a
-- missing size.
pub data Pairs : Type 0 where
  pairs : List Pair → Pairs
  bad_size no_piece : Pairs

unfoldable pub read_pairs : ℕ → List CString → Pairs
unfolding strtol
read_pairs zero ts = pairs []
read_pairs (suc n) [] = no_piece
read_pairs (suc n) (s ∷ ts) =
    let rest = read_pairs n (drop 1 ts) in
    if as_size (strtol s).0 == 0 then bad_size else elim rest [
      | pairs ps ↦ pairs (record { size = as_size (strtol s).0; sha1sum = get_elem? ts 0 } ∷ ps)
      | bad_size ↦ bad_size
      | no_piece ↦ no_piece
    ]

-- what is put in place of `stat`
abbrev pub no_meta : Meta
no_meta = record { st_mode = 0o644; st_uid = 0; st_gid = 0 }

abbrev pub is_partition : CString → Bool
is_partition name =
    is_same (strcmp (take 4 name) (codes "MTD:")) || is_same (strcmp (take 5 name) (codes "EMMC:"))

module _ (sha : List ℕ → List ℕ) where
  -- One pair: `more` was read to reach its size, `next` bytes were asked for, and `file` is all that
  -- was read; `later` goes on with the next pair.
  unfoldable pub attempt : Pair → List ℕ → ℕ → List ℕ → Loading → Loading
  unfolding parse_sha1 bytes_eq
  attempt p more next file later =
      if length more == next
      then elim p.sha1sum [
        | none ↦ fault
        | some text ↦ elim (parse_sha1 text) [
          | none ↦ failed
          | some digest ↦
              if bytes_eq (sha file) digest
              then loaded (record { sha1 = sha file; bytes = file; st = no_meta })
              else later
        ]
      ]
      else failed

  -- The loop over the pairs in the order of their sizes; `so_far` is what was read before.
  unfoldable pub load_pairs : (ℕ → ℕ → List ℕ) → List Pair → List ℕ → Loading
  unfolding attempt
  load_pairs read [] so_far = failed
  load_pairs read (p ∷ ps) so_far =
      let next = (p.size + 2 ^ 32 - length so_far) % 2 ^ 32 in
      let more = if ltb 0 next then read (length so_far) next else [] in
      attempt p more next (so_far ++ more) (load_pairs read ps (so_far ++ more))

  module _ (files : Files) (sort : List Pair → List Pair) where
    -- `LoadPartitionContents`, with `qsort` for the order. A name with a bad number of colons is only
    -- logged.
    unfoldable pub load_partition_contents : CString → Loading
    unfolding tokens count_colons read_pairs load_pairs
    load_partition_contents filename =
        let n = (count_colons filename - 1) / 2 in
        elim (tokens filename) [
          | [] ↦ fault
          | magic ∷ rest ↦
              let mtd = is_same (strcmp magic (codes "MTD")) in
              let emmc = is_same (strcmp magic (codes "EMMC")) in
              if mtd || emmc
              then elim rest [
                | [] ↦ fault
                | partition ∷ pieces ↦ elim (read_pairs n pieces) [
                  | bad_size ↦ failed
                  | no_piece ↦ fault
                  | pairs ps ↦
                      let found =
                        if mtd
                        then files.find_partition partition
                        else files.open_device partition in
                      let read =
                        if mtd
                        then files.read_partition partition
                        else files.read_device partition in
                      if not found
                      then failed
                      else if n == 0
                      then fault
                      else load_pairs read (sort ps) []
                ]
              ]
              else failed
        ]

    -- what was read of a file, with the retouched entries masked
    unfoldable pub mask_file : List ℕ → Meta → Bool → Loading
    unfolding retouch_mask_data
    mask_file data' st retouch_flag =
        if retouch_flag
        then elim (retouch_mask_data data' (some 0)) [
          | Retouch.returned masked verdict offset ↦ elim verdict [
            | Retouch.matched ↦ loaded (record { sha1 = sha masked; bytes = masked; st = st })
            | Retouch.mismatched ↦ failed
            | Retouch.error ↦ failed
            | Retouch.not_applicable ↦ failed
          ]
          | Retouch.fault ↦ fault
          | Retouch.hang ↦ fault
        ]
        else loaded (record { sha1 = sha data'; bytes = data'; st = st })

    -- `LoadFileContents`
    unfoldable pub load_file_contents : CString → Bool → Loading
    unfolding load_partition_contents mask_file
    load_file_contents filename retouch_flag =
        if is_partition filename
        then load_partition_contents filename
        else elim (files.open_file filename) [
          | absent ↦ enoent
          | unreadable ↦ failed
          | opened read st ↦ mask_file read st retouch_flag
        ]

    -- whether the digest of a file is one of those given; none need be given
    abbrev pub expected : List ℕ → List CString → Bool
    expected sha1 patches = elim (find_matching_patch sha1 patches) [ none ↦ false | some i ↦ true ]

    -- the look at the saved copy
    unfoldable pub check_cache : List CString → Option ℤ
    unfolding load_file_contents find_matching_patch
    check_cache patches = elim (load_file_contents cache_temp_source true) [
      | loaded file ↦ if expected file.sha1 patches then some (pos 0) else some (pos 1)
      | enoent ↦ some (pos 1)
      | failed ↦ some (pos 1)
      | fault ↦ none
    ]

    -- `applypatch_check`; ENOENT is 2
    unfoldable pub applypatch_check : CString → List CString → Option ℤ
    unfolding load_file_contents find_matching_patch check_cache
    applypatch_check filename patches =
        let cached = check_cache patches in
        elim (load_file_contents filename true) [
          | loaded file ↦
              if leb (length patches) 0 || expected file.sha1 patches then some (pos 0) else cached
          | enoent ↦ some (negsuc 1)
          | failed ↦ cached
          | fault ↦ none
        ]
