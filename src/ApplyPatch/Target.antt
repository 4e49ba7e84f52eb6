-- ===== src/ApplyPatch/Target.antt =====
-- Patching a file: `applypatch`, `GenerateTarget`, `SaveFileContents` and `FileSink` of
-- applypatch/applypatch.c.
--
-- The state is that of the file system, and an open file is known by its name. SHA-1, libbz2, zlib, the
-- order of `qsort` and the calls of the system are parameters; so is `WriteToPartition`. `close` and
-- `fsync` do nothing, and memory is granted.
pub mod Writes
pub mod Safety
pub mod Success
pub mod Choosing
pub mod Whole
mod Tests
use android_bootable_recover.Common.{
  ℕ, zero, suc, ◌+◌, ◌-◌, ◌*◌, ◌/◌, ◌%◌, ◌^◌, Bool, true, false, not, ◌&&◌, ◌||◌, Option, none,
  some, List, [], ◌∷◌, ◌++◌, ltb, leb, ◌==◌, if◌then◌else◌, length, get_elem?, set, take, drop,
}
use android_bootable_recover.Common.Int.{ℤ, pos, negsuc}
use android_bootable_recover.Edify.Text.{CString, codes, strcmp, is_same}
use android_bootable_recover.ApplyPatch.BsPatch.{Bz, bytes_eq}
use android_bootable_recover.ApplyPatch.ImgPatch.{
  Zlib, Output, Applied, applied, failed, fault, hang, apply_bs_diff_patch, apply_image_patch,
}
use android_bootable_recover.ApplyPatch.FreeCache.{
  System, cache_temp_source, free_space_for_file, make_free_space_on_cache,
}
use android_bootable_recover.ApplyPatch.Sha.{parse_sha1, find_matching_patch}
use android_bootable_recover.ApplyPatch.Load
use android_bootable_recover.ApplyPatch.Load.{
  Meta, FileContents, Files, Pair, Loading, load_file_contents, is_partition,
}

-- The calls on files beside those of `System`. `create` is `open` with O_CREAT and O_TRUNC; `write`
-- gives the number of bytes written, or 0 on an error.
pub record Disk (sys : System) : Type 0 where
  pub files : sys.Fs → Files
  pub create : CString → sys.Fs → Bool × sys.Fs
  pub write : CString → List ℕ → sys.Fs → ℕ × sys.Fs
  pub chmod : CString → ℕ → sys.Fs → Bool × sys.Fs
  pub chown : CString → ℕ → ℕ → sys.Fs → Bool × sys.Fs
  pub rename : CString → CString → sys.Fs → Bool × sys.Fs
  pub write_to_partition : List ℕ → CString → sys.Fs → Bool × sys.Fs

-- a `Value` with a patch
pub record Patch : Type 0 where
  pub is_blob : Bool
  pub bytes : List ℕ

-- what a source that is bad is left with
pub record Stale : Type 0 where
  pub size : ℕ
  pub st : Meta

-- What applypatch returns, with the files as they are then, or no return.
pub data Result (W : Type 0) : Type 0 where
  returned : ℕ → W → Result W
  crashed : Result W

module _ {sys : System} (store : Disk sys) where
  -- `FileSink`: the bytes written; each round writes one or more
  unfoldable pub file_sink : ℕ → CString → List ℕ → sys.Fs → ℕ × sys.Fs
  file_sink fuel name [] w = (0, w)
  file_sink zero name (b ∷ data') w = (0, w)
  file_sink (suc fuel) name (b ∷ data') w =
      let (wrote, w') = store.write name (b ∷ data') w in
      let (more, w'') = file_sink fuel name (drop wrote (b ∷ data')) w' in
      if wrote == 0 then (0, w') else (wrote + more, w'')

  -- the attributes of a file
  unfoldable pub set_meta : CString → Meta → sys.Fs → Bool × sys.Fs
  set_meta name st w =
      let (moded, w') = store.chmod name st.st_mode w in
      let (owned, w'') = store.chown name st.st_uid st.st_gid w' in
      if moded then (owned, w'') else (false, w')

  -- `SaveFileContents` returns 0
  unfoldable pub save_file_contents : CString → FileContents → sys.Fs → Bool × sys.Fs
  unfolding file_sink set_meta
  save_file_contents name file w =
      let (opened, w') = store.create name w in
      let (wrote, w'') = file_sink (length file.bytes) name file.bytes w' in
      if opened
      then (if wrote == length file.bytes then set_meta name file.st w'' else (false, w''))
      else (false, w')

-- the largest part of a name that is on the same file system: its first directory
unfoldable pub target_fs : CString → CString
target_fs [] = []
target_fs (c ∷ cs) = c ∷ first_part cs
  where
    first_part : CString → CString
    first_part [] = []
    first_part (c ∷ cs) = if c == 0x2f then [] else c ∷ first_part cs

abbrev pub patch_name : CString → CString
patch_name target = target ++ codes ".patch"

-- The margin: 256k, and half as much again as the target, as a `size_t` of 32 bits.
abbrev pub is_enough : ℕ → ℕ → Bool
is_enough free target_size = ltb (256 * 2 ^ 10) free && ltb (target_size * 3 % 2 ^ 32 / 2) free

-- What is patched: the source, or the saved copy if the source is bad.
pub data Chosen : Type 0 where
  from_source from_copy : FileContents → Patch → Chosen

abbrev pub to_use : Chosen → FileContents
to_use (from_source file patch) = file
to_use (from_copy file patch) = file

abbrev pub patch_of : Chosen → Patch
patch_of (from_source file patch) = patch
patch_of (from_copy file patch) = patch

abbrev pub is_source : Chosen → Bool
is_source (from_source file patch) = true
is_source (from_copy file patch) = false

pub data Choice : Type 0 where
  none_fits load_crashes : Choice
  fits : Chosen → Choice

-- How a round of the loop ends: with a return or a crash, or with another round.
pub data Round (W : Type 0) : Type 0 where
  stop : Result W → Round W
  again : W → Round W

-- `MemorySink`: the bytes in the buffer so far; the return is -1 if there is no room
unfoldable pub memory_sink : ℕ → List ℕ → List ℕ → List ℕ × ℤ
memory_sink size data' buffer =
    if ltb (size - length buffer) (length data')
    then (buffer, negsuc 0)
    else (buffer ++ data', pos (length data'))

module _ (bz : Bz) (zlib : Zlib) (rounds : ℕ) (sha : List ℕ → List ℕ) {sys : System}
    (store : Disk sys) where
  -- The kind of a patch is read off its first bytes; `none` is an unknown one.
  unfoldable pub apply_patch :
      {T : Type 0}
      → (List ℕ → T → T × ℤ)
      → Option (List ℕ)
      → List ℕ
      → List ℕ
      → T
      → Option (Applied (Output T) T)
  unfolding bytes_eq apply_bs_diff_patch apply_image_patch
  apply_patch {T = T} sink bonus old patch token =
      let out : Output T = record { token = token; hashed = [] } in
      if leb 8 (length patch) && bytes_eq (take 8 patch) (codes "BSDIFF40")
      then some (apply_bs_diff_patch bz zlib sink rounds old patch 0 out)
      else if leb 8 (length patch) && bytes_eq (take 8 patch) (codes "IMGDIFF2")
      then some (apply_image_patch bz zlib sink rounds bonus old patch out)
      else none

  -- `FileSink` as the sink of a patch
  abbrev pub sink_to : CString → List ℕ → sys.Fs → sys.Fs × ℤ
  sink_to name data' w =
      let (wrote, w') = file_sink store (length data') name data' w in (w', pos wrote)

  -- room on /cache, and a copy of the file there
  unfoldable pub back_up : FileContents → sys.Fs → Bool × sys.Fs
  unfolding make_free_space_on_cache save_file_contents
  back_up file w =
      let (w', made) = make_free_space_on_cache sys (length file.bytes) w in
      if made then save_file_contents store cache_temp_source file w' else (false, w')

  module _ (source target : CString) (target_sha1 : List ℕ) (target_size : ℕ)
      (bonus : Option (List ℕ)) (chosen : Chosen) where
    -- the end of `GenerateTarget` for a file: the digest, the attributes, and the new name
    unfoldable pub finish : Bool → Output sys.Fs → Result sys.Fs
    unfolding bytes_eq set_meta
    finish made_copy out =
        let name = patch_name target in
        let (set, w1) = set_meta store name (to_use chosen).st out.token in
        let (moved, w2) = store.rename name target w1 in
        if bytes_eq (sha out.hashed) target_sha1
        then (if set
            then (if moved
                then returned 0 (if made_copy then sys.unlink cache_temp_source w2 else w2)
                else returned 1 w2)
            else returned 1 w1)
        else returned 1 out.token

    -- the patch is applied to a file beside the target; `retry` says whether another try is left
    unfoldable pub write_patch : Bool → Bool → sys.Fs → Round sys.Fs
    unfolding apply_patch finish
    write_patch retry made_copy w =
        let name = patch_name target in
        let (opened, w1) = store.create name w in
        if not (patch_of chosen).is_blob
        then stop (returned 1 w)
        else if not opened
        then stop (returned 1 w1)
        else elim (apply_patch (sink_to name) bonus (to_use chosen).bytes (patch_of chosen).bytes
            w1) [
              | none ↦ stop (returned 1 w1)
              | some r ↦ elim r [
                | applied out ↦ stop (finish made_copy out)
                | failed out ↦
                    if retry then again (sys.unlink name out.token) else stop (returned 1 out.token)
                | fault ↦ stop crashed
                | hang ↦ stop crashed
              ]
            ]

    -- One round for a file: without room enough the source is saved and deleted.
    unfoldable pub file_round : Bool → sys.Fs → Round sys.Fs
    unfolding write_patch back_up target_fs free_space_for_file
    file_round retry w =
        let enough =
          retry && is_enough (free_space_for_file sys w (target_fs target)) target_size in
        let (saved, w1) = back_up (to_use chosen) w in
        if enough || not (is_source chosen)
        then write_patch enough false w
        else if is_partition source
        then stop (returned 1 w)
        else if not saved
        then stop (returned 1 w1)
        else write_patch false true (sys.unlink source w1)

    -- two rounds at most: the second one has no retry left
    unfoldable pub generate_file : sys.Fs → Result sys.Fs
    unfolding file_round
    generate_file w = elim (file_round true w) [
      | stop r ↦ r
      | again w1 ↦ elim (file_round false w1) [ stop r ↦ r | again w2 ↦ crashed ]
    ]

    -- The save of a partition's source. If the source is bad its data is NULL, with the size and the
    -- attributes that are left: opening the copy empties it, and nothing is written to it.
    unfoldable pub back_up_partition : Stale → sys.Fs → Bool × sys.Fs
    unfolding back_up make_free_space_on_cache set_meta
    back_up_partition stale w =
        let (w1, made) = make_free_space_on_cache sys stale.size w in
        let (opened, w2) = store.create cache_temp_source w1 in
        if is_source chosen
        then back_up (to_use chosen) w
        else if made
        then (if opened
            then (if stale.size == 0
                then set_meta store cache_temp_source stale.st w2
                else (false, w2))
            else (false, w2))
        else (false, w1)

    -- `GenerateTarget` for a partition: the target is made in memory
    unfoldable pub generate_partition : Stale → sys.Fs → Result sys.Fs
    unfolding back_up_partition apply_patch memory_sink bytes_eq
    generate_partition stale w =
        let (saved, w1) = back_up_partition stale w in
        let buffer : List ℕ = [] in
        if not saved
        then returned 1 w1
        else if not (patch_of chosen).is_blob
        then returned 1 w1
        else elim (apply_patch (memory_sink target_size) bonus (to_use chosen).bytes
            (patch_of chosen).bytes buffer) [
              | none ↦ returned 1 w1
              | some r ↦ elim r [
                | applied out ↦
                    let (written, w2) = store.write_to_partition out.token target w1 in
                    if bytes_eq (sha out.hashed) target_sha1
                    then (if written
                        then returned 0 (sys.unlink cache_temp_source w2)
                        else returned 1 w2)
                    else returned 1 w1
                | failed out ↦ returned 1 w1
                | fault ↦ crashed
                | hang ↦ crashed
              ]
            ]

    unfoldable pub generate_target : Stale → sys.Fs → Result sys.Fs
    unfolding generate_file generate_partition
    generate_target stale w =
        if is_partition target then generate_partition stale w else generate_file w

  module _ (sort : List Pair → List Pair) where
    abbrev load : CString → sys.Fs → Loading
    load name w = load_file_contents sha (store.files w) sort name true

    -- the patch for a file, if one of the digests is that of the file
    unfoldable pub patch_for : List CString → List Patch → FileContents → Option Patch
    unfolding find_matching_patch
    patch_for patch_sha1s patches file = elim (find_matching_patch file.sha1 patch_sha1s) [
      | none ↦ none
      | some i ↦ get_elem? patches i
    ]

    -- the source file, unless it is the target that was read already
    unfoldable pub source_file : CString → CString → Loading → sys.Fs → Loading
    unfolding load_file_contents
    source_file source target target_file w = elim target_file [
      | Load.loaded file ↦
          if is_same (strcmp target source) then Load.loaded file else load source w
      | Load.enoent ↦ load source w
      | Load.failed ↦ load source w
      | Load.fault ↦ Load.fault
    ]

    unfoldable pub choose_copy : List CString → List Patch → Loading → Choice
    unfolding patch_for
    choose_copy patch_sha1s patches saved = elim saved [
      | Load.loaded copy ↦ elim (patch_for patch_sha1s patches copy) [
        | none ↦ none_fits
        | some patch ↦ fits (from_copy copy patch)
      ]
      | Load.enoent ↦ none_fits
      | Load.failed ↦ none_fits
      | Load.fault ↦ load_crashes
    ]

    -- The choice: the source, if a patch is for it, or else the saved copy.
    unfoldable pub choose : List CString → List Patch → Loading → sys.Fs → Choice
    unfolding choose_copy load_file_contents
    choose patch_sha1s patches file w =
        let saved = choose_copy patch_sha1s patches (load cache_temp_source w) in
        elim file [
          | Load.loaded f ↦ elim (patch_for patch_sha1s patches f) [
            | none ↦ saved
            | some patch ↦ fits (from_source f patch)
          ]
          | Load.enoent ↦ saved
          | Load.failed ↦ saved
          | Load.fault ↦ load_crashes
        ]

    -- `applypatch`; `stale` is what a bad source is left with
    unfoldable pub applypatch :
        CString
        → CString
        → CString
        → ℕ
        → List CString
        → List Patch
        → Option (List ℕ)
        → Stale
        → sys.Fs
        → Result sys.Fs
    unfolding parse_sha1 source_file choose generate_target load_file_contents bytes_eq
    applypatch source named target_sha1_str target_size patch_sha1s patches bonus stale w =
        let target = if is_same (strcmp named (codes "-")) then source else named in
        let old = load target w in
        elim (parse_sha1 target_sha1_str) [
          | none ↦ returned 1 w
          | some target_sha1 ↦
              let already : Bool = elim old [
                | Load.loaded file ↦ bytes_eq file.sha1 target_sha1
                | Load.enoent ↦ false
                | Load.failed ↦ false
                | Load.fault ↦ false
              ] in
              if already
              then returned 0 w
              else elim (choose patch_sha1s patches (source_file source target old w) w) [
                | none_fits ↦ returned 1 w
                | load_crashes ↦ crashed
                | fits chosen ↦
                    generate_target source target target_sha1 target_size bonus chosen stale w
              ]
        ]
