-- ===== src/Zip/Extract/Whole.antt =====
-- What `mzExtractRecursive` of minzip/Zip.c does to an archive, from the sorting to the paths.
use android_bootable_recover.Common.{
  ℕ, zero, suc, ◌≤◌, ◌<◌, ◌≡◌, refl, ◌≢◌, inl, inr, Bool, true, false, not, ◌&&◌, none, List, [],
  ◌∷◌, ◌++◌, arith, ◌==◌, Bool-cases, length, length-append, get_or, drop,
}
use android_bootable_recover.Edify.Text.{starts_with}
use android_bootable_recover.DirUtil.{FileSystem, slash}
use android_bootable_recover.Zip.{name_at, ZipEntry, Parsed, ok, ◌>>=◌}
use android_bootable_recover.Zip.Insert.{IsSorted}
use android_bootable_recover.Zip.Extract.{
  ZipArchive, MzPathHelper, with_slash, Contents, Step, next, stop, has_flag, dry_run, visit,
  canonical, extract_recursive,
}
use android_bootable_recover.Zip.Extract.Calls.{
  kind, attempts_of, run_attempts, as_step, extract_entry-attempts,
}
use android_bootable_recover.Zip.Extract.Path.{Ready, target_entry_path-Ready}
use android_bootable_recover.Zip.Extract.Sorted.{
  starts_with-short, under, visit_all, extract_loop-all,
}

module _ {W : Type 0} (fs : FileSystem W) (contents : Contents W) (flags : ℕ) (timestamp : Bool)
    (callback : List ℕ → W → W) where
  -- The entries one after the other, each to its path: the target directory, a slash, and the name
  -- without the directory in the archive. The attempts for an entry are made in their order, and the
  -- first that fails ends the extraction with false, or with true if it is lost.
  unfoldable pub extract_all : List ℕ → ℕ → List ZipEntry → W → Bool × W
  extract_all target_dir zip_dir_len [] w = (true, w)
  extract_all target_dir zip_dir_len (e ∷ es) w =
      let target = with_slash target_dir ++ drop zip_dir_len e.file_name in
      elim (as_step fs contents flags timestamp callback target
        (run_attempts (attempts_of fs contents flags timestamp (kind flags e) e target) w)) [
          | next w' ↦ extract_all target_dir zip_dir_len es w'
          | stop result w' ↦ (result, w')
        ]

  module _ (target_dir : List ℕ) (z : ℕ) where
    abbrev AllLong : List ZipEntry → Type 0
    AllLong es = (i : ℕ) → i < length es → (z ≤ length (name_at es i)) × (0 < length (name_at es i))

    abbrev Visited : List ZipEntry → MzPathHelper → W → Type 0
    Visited es helper w =
        (helper' : MzPathHelper) × (visit_all (visit fs contents flags timestamp callback) es
            (helper, w)
          ≡ ok ((extract_all target_dir z es w).0, (helper', (extract_all target_dir z es w).1)))

    visits_step :
        (step : Step W) (helper : MzPathHelper) (es : List ZipEntry)
        → ((w : W) → Visited es helper w)
        → (helper' : MzPathHelper) × (elim (elim step as (λ r. Step (MzPathHelper × W)) [
          | next w' ↦ next (helper, w')
          | stop result w' ↦ stop result (helper, w')
        ])
              as (λ r. Parsed (Bool × (MzPathHelper × W))) [
                | next s' ↦ visit_all (visit fs contents flags timestamp callback) es s'
                | stop result s' ↦ ok (result, s')
              ]
            ≡ ok (
              (elim step as (λ r. Bool × W) [
                | next w' ↦ extract_all target_dir z es w'
                | stop result w' ↦ (result, w')
              ]).0,
              (
                helper',
                (elim step as (λ r. Bool × W) [
                  | next w' ↦ extract_all target_dir z es w'
                  | stop result w' ↦ (result, w')
                ]).1,
              ),
            ))
    visits_step (next w) helper es rest = rest w
    visits_step (stop result w) helper es rest = (helper, refl)

    visits :
        (es : List ZipEntry) (helper : MzPathHelper) (w : W)
        → AllLong es
        → Ready target_dir z helper
        → Visited es helper w
    unfolding visit_all visit extract_all ◌>>=◌
    visits [] helper w long ready = (helper, refl)
    visits (e ∷ es) helper w long ready =
        let (helper', run, ready') =
          target_entry_path-Ready target_dir z helper e.file_name ready (long 0 (omega arith)).0 in
        let named : (length e.file_name == 0 && not (has_flag flags dry_run)) ≡ false =
          ground (arith, (long 0 (omega arith)).1) in
        let target = with_slash target_dir ++ drop z e.file_name in
        let (helper2, rest) =
          visits_step
            (as_step fs contents flags timestamp callback target
              (run_attempts (attempts_of fs contents flags timestamp (kind flags e) e target) w))
            helper' es (λ w'. visits es helper' w' (λ i h. long (suc i) (omega arith)) ready') in
        (
          helper2,
          rw
              (
                run,
                ◌>>=◌,
                named,
                ◌>>=◌,
                extract_entry-attempts fs contents flags timestamp callback e target w,
              )
              rest,
        )

each_long :
    (n : ℕ) (e : ZipEntry) (es : List ZipEntry) (i : ℕ)
    → n ≤ length e.file_name
    → ((j : ℕ) → j < length es → n ≤ length (name_at es j))
    → i < length (e ∷ es)
    → n ≤ length (name_at (e ∷ es) i)
each_long n e es zero here rest h = here
each_long n e es (suc i) here rest h = rest i (omega arith)

-- Each entry under a directory has a name at least as long as that of the directory.
under-long :
    (zpath : List ℕ) (es : List ZipEntry) (i : ℕ)
    → i < length (under zpath es)
    → length zpath ≤ length (name_at (under zpath es) i)
unfolding under
under-long zpath [] i h = absurd (omega arith)
under-long zpath (e ∷ es) i h = elim (Bool-cases (starts_with zpath e.file_name)) [
  | inl here ↦
      let fits : length zpath ≤ length e.file_name =
        ground (arith, starts_with-short zpath e.file_name) in
      rw here
        (each_long (length zpath) e (under zpath es) i fits (under-long zpath es) (rw here at h))
  | inr past ↦ rw past (under-long zpath es i (rw past at h))
]

canonical-positive : (c : ℕ) (cs : List ℕ) → 0 < length (canonical (c ∷ cs))
unfolding canonical
canonical-positive c cs = ground (arith, length-append (c ∷ cs) (slash ∷ []))

module _ {W : Type 0} (fs : FileSystem W) (contents : Contents W) (flags : ℕ) (timestamp : Bool)
    (callback : List ℕ → W → W) where
  -- For a directory of the archive that is not empty, a relative path, and an absolute target,
  -- extraction of an archive with sorted entries makes exactly the attempts for the entries whose name
  -- starts with the directory and a slash, in their order, each to the target directory, a slash and
  -- the rest of its name: none in a dry run, the directories for a name that ends in a slash, unless
  -- only files are asked for, the directories and a link, or the directories, the file and its time.
  -- The first attempt that does not succeed ends it: with false, but with true if it is the writing of
  -- an opened file or its time. After each entry that is done the callback is called, and if all are
  -- the result is true. The path buffer is never overrun.
  pub extract_recursive-all :
      (archive : ZipArchive) (c : ℕ) (cs target_dir : List ℕ) (w : W)
      → IsSorted archive.entries
      → c ≢ slash
      → get_or target_dir 0 0 ≡ slash
      → extract_recursive fs contents archive (c ∷ cs) target_dir flags timestamp callback w
        ≡ ok (
            extract_all fs contents flags timestamp callback target_dir
              (length (canonical (c ∷ cs)))
              (under (canonical (c ∷ cs)) archive.entries)
              w)
  unfolding extract_recursive
  extract_recursive-all archive c cs target_dir w sorted relative absolute =
      let z = canonical (c ∷ cs) in
      let rel : (c == slash) ≡ false = ground arith in
      let abs : (get_or target_dir 0 0 == slash) ≡ true = ground arith in
      let helper : MzPathHelper = record {
        target_dir = target_dir;
        zip_dir_len = length z;
        buf = none;
        target_dir_len = length target_dir;
        buf_len = 0;
      } in
      let (helper', run) =
        visits fs contents flags timestamp callback target_dir (length z) (under z archive.entries)
          helper w
          (λ i h. (
            under-long z archive.entries i h,
            omega (arith, under-long z archive.entries i h, canonical-positive c cs),
          ))
          (record { same_dir = refl; same_len = refl; written = inl (refl, refl) }) in
      rw (
        rel,
        abs,
        extract_loop-all (visit fs contents flags timestamp callback) z archive.entries (helper, w)
            sorted,
        run,
        ◌>>=◌,
      )
