-- ===== src/Zip/Extract.antt =====
-- Extracting what stands under a directory of an archive: `mzExtractRecursive` of minzip/Zip.c.
--
-- Reading an entry and writing it are operations of `Contents`. Formats of log lines, the security
-- context and memory are not modelled; lengths stay far below the limits of `int`.
pub mod Path
pub mod Calls
pub mod Sorted
pub mod Whole
mod Tests
use android_bootable_recover.Common.{
  ℕ, ◌+◌, ◌-◌, ◌*◌, bit_and, Bool, true, false, not, ◌&&◌, Option, none, some, List, [], ◌∷◌, ◌++◌,
  ltb, leb, ◌==◌, if◌then◌else◌, length, get_or, take, drop,
}
use android_bootable_recover.DirUtil.{FileSystem, dir_create_hierarchy, slash}
use android_bootable_recover.Edify.Text.{is_same}
use android_bootable_recover.Zip.{ZipEntry, Parsed, ok, bail, fault, ◌>>=◌, strncmp}
use android_bootable_recover.Zip.Archive.{ZipArchive, is_zip_entry_symlink}

pub record MzPathHelper : Type 0 where
  pub target_dir : List ℕ
  pub zip_dir_len : ℕ
  pub buf : Option (List ℕ)
  pub target_dir_len : ℕ
  pub buf_len : ℕ

-- the target path and the slash after it, if there is none at its end
unfoldable pub with_slash : List ℕ → List ℕ
with_slash dir =
    if length dir == 0
    then slash ∷ []
    else if get_or dir (length dir - 1) 0 == slash
    then dir
    else dir ++ slash ∷ []

-- The buffer is grown if it is too small.
abbrev pub need_len : MzPathHelper → List ℕ → ℕ
need_len helper name = helper.target_dir_len + 1 + (length name - helper.zip_dir_len) + 1

abbrev pub grown : MzPathHelper → List ℕ → ℕ
grown helper name =
    if ltb helper.buf_len (need_len helper name) then need_len helper name * 2 else helper.buf_len

-- `targetEntryPath`: the buffer holds what was written to it from its start. A write past the end of
-- the buffer, or a copy of a name shorter than `zipDir`, is `fault`.
unfoldable pub target_entry_path : MzPathHelper → List ℕ → Parsed (MzPathHelper × List ℕ)
unfolding with_slash
target_entry_path helper name =
    let start : List ℕ = elim helper.buf [
      | some written ↦ take helper.target_dir_len written
      | none ↦ with_slash helper.target_dir
    ] in
    let path = start ++ drop helper.zip_dir_len name in
    if leb helper.zip_dir_len (length name) && ltb (length path) (grown helper name)
    then ok (
      record helper { buf = some path; target_dir_len = length start; buf_len = grown helper name },
      path,
    )
    else fault

-- The calls that an extraction makes beside those on directories: reading an entry into memory,
-- `symlink`, and `creat`, writing and closing a file.
pub record Contents (W : Type 0) : Type 0 where
  pub read_entry : ZipEntry → ℕ → W → Option (List ℕ) × W
  pub symlink : List ℕ → List ℕ → W → Bool × W
  pub creat : List ℕ → W → Option ℕ × W
  pub extract_to_file : ZipEntry → ℕ → W → Bool × W
  pub close : ℕ → W → W

-- How the body of the loop ends: with the next entry, or with a `break` and the value of `ok` then.
pub data Step (W : Type 0) : Type 0 where
  next : W → Step W
  stop : Bool → W → Step W

abbrev pub has_flag : ℕ → ℕ → Bool
has_flag flags flag = not (bit_and flags flag == 0)

abbrev pub files_only : ℕ
files_only = 1

abbrev pub dry_run : ℕ
dry_run = 2

module _ {W : Type 0} (fs : FileSystem W) (contents : Contents W) (flags : ℕ) (timestamp : Bool)
    (callback : List ℕ → W → W) where
  -- An entry whose name ends in a slash. `callback` does nothing where the source has a NULL there.
  unfoldable pub extract_directory : List ℕ → W → Step W
  unfolding dir_create_hierarchy
  extract_directory target w =
      let (made, w') = dir_create_hierarchy fs timestamp target false w in
      if has_flag flags files_only
      then next (callback target w)
      else if made
      then next (callback target w')
      else stop false w'

  -- The text of a link ends at a NUL, if it has one.
  unfoldable pub extract_symlink : ZipEntry → List ℕ → W → Step W
  extract_symlink e target w =
      if e.uncomp_len == 0
      then stop false w
      else let (read, w') = contents.read_entry e e.uncomp_len w in
        elim read [
          | none ↦ stop false w'
          | some link ↦
              let (made, w'') = contents.symlink link target w' in
              if made then next (callback target w'') else stop false w''
        ]

  -- After a failed write or `utime` the `ok` that is set is a variable of the inner block: the outer one
  -- stays true.
  unfoldable pub extract_file : ZipEntry → List ℕ → W → Step W
  extract_file e target w =
      let (opened, w') = contents.creat target w in
      elim opened [
        | none ↦ stop false w'
        | some fd ↦
            let (written, w2) = contents.extract_to_file e fd w' in
            let w3 = contents.close fd w2 in
            let (touched, w4) = fs.utime target w3 in
            if written
            then (if timestamp
                then (if touched then next (callback target w4) else stop true w4)
                else next (callback target w3))
            else stop true w3
      ]

  -- What is done with an entry under `zipDir`, its target path known. The name is not empty: of an
  -- empty one the source looks at the byte in front of it.
  unfoldable pub extract_entry : ZipEntry → List ℕ → W → Step W
  unfolding extract_directory extract_symlink extract_file dir_create_hierarchy is_zip_entry_symlink
  extract_entry e target w =
      let (made, w') = dir_create_hierarchy fs timestamp target true w in
      if has_flag flags dry_run
      then next (callback target w)
      else if get_or e.file_name (length e.file_name - 1) 0 == slash
      then extract_directory target w
      else if not made
      then stop false w'
      else if not (has_flag flags files_only) && is_zip_entry_symlink e
      then extract_symlink e target w'
      else extract_file e target w'

  -- The state of the loop: the paths and the system.
  abbrev pub Walk : Type 0
  Walk = MzPathHelper × W

  -- an entry under `zipDir`
  unfoldable pub visit : ZipEntry → Walk → Parsed (Step Walk)
  unfolding target_entry_path extract_entry ◌>>=◌
  visit e (helper, w) = target_entry_path helper e.file_name >>= λ (helper', target).
      if length e.file_name == 0 && not (has_flag flags dry_run)
      then fault
      else ok (elim (extract_entry e target w) [
        | next w' ↦ next (helper', w')
        | stop result w' ↦ stop result (helper', w')
      ])

-- the entry begins with `zpath`
unfoldable pub begins_with : List ℕ → List ℕ → Bool
unfolding strncmp
begins_with zpath name =
    if ltb (length name) (length zpath) then false else is_same (strncmp (length zpath) name zpath)

module _ {S : Type 0} (visit_entry : ZipEntry → S → Parsed (Step S)) (zpath : List ℕ) where
  -- The loop over the entries. After a match the first entry that does not match ends it.
  unfoldable pub extract_loop : List ZipEntry → Bool → S → Parsed (Bool × S)
  unfolding begins_with ◌>>=◌
  extract_loop [] seen_match s = ok (true, s)
  extract_loop (e ∷ es) seen_match s =
      let skipped = extract_loop es seen_match s in
      if begins_with zpath e.file_name
      then (visit_entry e s >>= λ r. elim r [
        | next s' ↦ extract_loop es true s'
        | stop result s' ↦ ok (result, s')
      ])
      else if seen_match
      then ok (true, s)
      else skipped

-- `zipDir` with a slash at its end, unless it is empty
unfoldable pub canonical : List ℕ → List ℕ
canonical [] = []
canonical (c ∷ cs) =
    if get_or (c ∷ cs) (length cs) 0 == slash then c ∷ cs else (c ∷ cs) ++ slash ∷ []

unfoldable pub extract_recursive :
    {W : Type 0}
    → FileSystem W
    → Contents W
    → ZipArchive
    → List ℕ
    → List ℕ
    → ℕ
    → Bool
    → (List ℕ → W → W)
    → W
    → Parsed (Bool × W)
unfolding visit extract_loop canonical ◌>>=◌
extract_recursive fs contents archive zip_dir target_dir flags timestamp callback w =
    let zpath = canonical zip_dir in
    let helper : MzPathHelper = record {
      target_dir = target_dir;
      zip_dir_len = length zpath;
      buf = none;
      target_dir_len = length target_dir;
      buf_len = 0;
    } in
    if get_or zip_dir 0 0 == slash
    then ok (false, w)
    else if not (get_or target_dir 0 0 == slash)
    then ok (false, w)
    else (extract_loop (visit fs contents flags timestamp callback) zpath archive.entries false
          (helper, w)
        >>= λ (result, (helper', w')). ok (result, w'))
