-- ===== src/Zip/Extract/Calls.antt =====
-- What `mzExtractRecursive` of minzip/Zip.c tries for one entry, as a list of attempts.
use android_bootable_recover.Common.{
  ℕ, ◌-◌, ◌≡◌, Bool, true, false, none, some, List, [], ◌∷◌, arith, ◌==◌, if◌then◌else◌, length,
  get_or,
}
use android_bootable_recover.DirUtil.{FileSystem, dir_create_hierarchy, slash}
use android_bootable_recover.Zip.{ZipEntry}
use android_bootable_recover.Zip.Archive.{is_zip_entry_symlink}
use android_bootable_recover.Zip.Extract.{
  Contents, Step, next, stop, has_flag, files_only, dry_run, extract_directory, extract_symlink,
  extract_file, extract_entry,
}

-- How an attempt ends: a failure stops the extraction, and a lost one does so unnoticed.
pub data Verdict : Type 0 where
  done failed lost : Verdict

abbrev pub Attempt : Type 0 → Type 0
Attempt W = W → Verdict × W

abbrev pub or_failed : Bool → Verdict
or_failed b = if b then done else failed

abbrev pub or_lost : Bool → Verdict
or_lost b = if b then done else lost

-- one attempt after the other, up to the first that is not done
unfoldable pub run_attempts : {W : Type 0} → List (Attempt W) → W → Verdict × W
run_attempts [] w = (done, w)
run_attempts (a ∷ attempts) w = elim (a w).0 [
  | done ↦ run_attempts attempts (a w).1
  | failed ↦ (failed, (a w).1)
  | lost ↦ (lost, (a w).1)
]

-- what an entry is taken for
pub data Kind : Type 0 where
  listed directory link file : Kind

abbrev pub kind : ℕ → ZipEntry → Kind
kind flags e =
    if has_flag flags dry_run
    then listed
    else if get_or e.file_name (length e.file_name - 1) 0 == slash
    then directory
    else if has_flag flags files_only
    then file
    else if is_zip_entry_symlink e
    then link
    else file

module _ {W : Type 0} (fs : FileSystem W) (contents : Contents W) (flags : ℕ)
    (timestamp : Bool) where
  abbrev pub directories : List ℕ → Bool → Attempt W
  directories target strip w =
      let (made, w') = dir_create_hierarchy fs timestamp target strip w in (or_failed made, w')

  abbrev pub make_link : ZipEntry → List ℕ → Attempt W
  make_link e target w =
      let (read, w') = contents.read_entry e e.uncomp_len w in
      if e.uncomp_len == 0 then (failed, w) else elim read [
        | none ↦ (failed, w')
        | some text ↦
            (or_failed (contents.symlink text target w').0, (contents.symlink text target w').1)
      ]

  abbrev pub write_file : ZipEntry → List ℕ → Attempt W
  write_file e target w =
      let (opened, w') = contents.creat target w in
      elim opened [
        | none ↦ (failed, w')
        | some fd ↦
            let (written, w'') = contents.extract_to_file e fd w' in
            (or_lost written, contents.close fd w'')
      ]

  abbrev pub touch : List ℕ → Attempt W
  touch target w =
      if timestamp then (or_lost (fs.utime target w).0, (fs.utime target w).1) else (done, w)

  abbrev pub attempts_of : Kind → ZipEntry → List ℕ → List (Attempt W)
  attempts_of listed e target = []
  attempts_of directory e target =
      if has_flag flags files_only then [] else directories target false ∷ []
  attempts_of link e target = directories target true ∷ make_link e target ∷ []
  attempts_of file e target = directories target true ∷ write_file e target ∷ touch target ∷ []

  module _ (callback : List ℕ → W → W) where
    -- The callback is told of an entry that is done.
    abbrev pub as_step : List ℕ → Verdict × W → Step W
    as_step target (done, w) = next (callback target w)
    as_step target (failed, w) = stop false w
    as_step target (lost, w) = stop true w

    extract_directory-attempts :
        (e : ZipEntry) (target : List ℕ) (w : W)
        → extract_directory fs contents flags timestamp callback target w
          ≡ as_step target (run_attempts (attempts_of directory e target) w)
    unfolding extract_directory run_attempts
    extract_directory-attempts e target w = ground arith

    extract_symlink-attempts :
        (e : ZipEntry) (target : List ℕ) (w : W)
        → extract_symlink fs contents flags timestamp callback e target w
          ≡ as_step target (run_attempts (make_link e target ∷ []) w)
    unfolding extract_symlink run_attempts
    extract_symlink-attempts e target w = ground arith

    extract_file-attempts :
        (e : ZipEntry) (target : List ℕ) (w : W)
        → extract_file fs contents flags timestamp callback e target w
          ≡ as_step target (run_attempts (write_file e target ∷ touch target ∷ []) w)
    unfolding extract_file run_attempts
    extract_file-attempts e target w = ground arith

    pub extract_entry-attempts :
        (e : ZipEntry) (target : List ℕ) (w : W)
        → extract_entry fs contents flags timestamp callback e target w
          ≡ as_step target (run_attempts (attempts_of (kind flags e) e target) w)
    unfolding extract_entry run_attempts
    extract_entry-attempts e target w = ground (
      arith,
      extract_directory-attempts e target w,
      extract_symlink-attempts e target (dir_create_hierarchy fs timestamp target true w).1,
      extract_file-attempts e target (dir_create_hierarchy fs timestamp target true w).1,
    )
