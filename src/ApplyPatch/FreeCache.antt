-- ===== src/ApplyPatch/FreeCache.antt =====
-- Making room in the cache partition: applypatch/freecache.c, with `FreeSpaceForFile` and
-- `CacheSizeCheck` of applypatch/applypatch.c.
--
-- The file system and its calls are parameters. Paths are shorter than FILENAME_MAX, and `malloc`
-- does not fail; the growth of the array of names is that of a list.
pub mod Closed
pub mod Expendable
pub mod Deletions
mod Tests
use android_bootable_recover.Common.{
  ℕ, ◌-◌, ◌*◌, ◌/◌, ◌%◌, ◌^◌, Bool, true, false, ◌&&◌, Option, none, some, List, [], ◌∷◌, ◌++◌, ltb,
  leb, if◌then◌else◌, take,
}
use android_bootable_recover.Edify.Text.{CString, codes, strcmp, is_same}

-- The calls of the system. `list_dir` is `opendir` with all that `readdir` returns, `is_regular` is
-- `stat` and `S_ISREG`, `read_link` is `readlink`, `statfs` gives `f_bsize` and `f_bfree`.
pub record System : Type 1 where
  pub Fs : Type 0
  pub list_dir : Fs → CString → Option (List CString)
  pub is_regular : Fs → CString → Bool
  pub read_link : Fs → CString → Option CString
  pub unlink : CString → Fs → Fs
  pub statfs : Fs → CString → Option (ℕ × ℕ)

abbrev pub cache_temp_source : CString
cache_temp_source = codes "/cache/saved.file"

abbrev pub dirs : List CString
dirs = codes "/cache" ∷ codes "/cache/recovery/otatest" ∷ []

-- `isdigit` of every character
unfoldable pub is_number : CString → Bool
is_number [] = true
is_number (c ∷ cs) = leb b'0' c && leb c b'9' && is_number cs

abbrev pub fd_dir : CString → CString
fd_dir pid = codes "/proc/" ++ pid ++ codes "/fd/"

-- A name that is freed becomes NULL.
abbrev pub strike_one : CString → Option CString → Option CString
strike_one link none = none
strike_one link (some file) = if is_same (strcmp file link) then none else some file

unfoldable pub strike : CString → List (Option CString) → List (Option CString)
strike link [] = []
strike link (file ∷ files) = strike_one link file ∷ strike link files

module _ (sys : System) where
  open sys use {Fs, list_dir, is_regular, read_link, unlink, statfs}

  -- `FreeSpaceForFile`: a `size_t` of 32 bits, so that -1 is the largest
  unfoldable pub free_space_for_file : Fs → CString → ℕ
  free_space_for_file fs path = elim (statfs fs path) [
    | none ↦ 2 ^ 32 - 1
    | some (size, free) ↦ size * free % 2 ^ 32
  ]

  -- the descriptors of one process
  unfoldable pub strike_links :
      Fs → CString → List CString → List (Option CString) → List (Option CString)
  unfolding strike
  strike_links fs path [] files = files
  strike_links fs path (fd ∷ fds) files = elim (read_link fs (path ++ fd)) [
    | none ↦ strike_links fs path fds files
    | some link ↦
        if is_same (strcmp (take 7 link) (codes "/cache/"))
        then strike_links fs path fds (strike link files)
        else strike_links fs path fds files
  ]

  -- the entries of /proc
  unfoldable pub strike_processes :
      Fs → List CString → List (Option CString) → List (Option CString)
  unfolding strike_links is_number
  strike_processes fs [] files = files
  strike_processes fs (pid ∷ pids) files =
      if is_number pid
      then elim (list_dir fs (fd_dir pid)) [
        | none ↦ strike_processes fs pids files
        | some fds ↦ strike_processes fs pids (strike_links fs (fd_dir pid) fds files)
      ]
      else strike_processes fs pids files

  unfoldable pub eliminate_open_files : Fs → List (Option CString) → Option (List (Option CString))
  unfolding strike_processes
  eliminate_open_files fs files = elim (list_dir fs (codes "/proc")) [
    | none ↦ none
    | some pids ↦ some (strike_processes fs pids files)
  ]

  -- the regular files of one directory
  unfoldable pub regular_files : Fs → CString → List CString → List (Option CString)
  regular_files fs dir [] = []
  regular_files fs dir (name ∷ names) =
      let rest = regular_files fs dir names in
      let path = dir ++ codes "/" ++ name in
      if is_same (strcmp path cache_temp_source)
      then rest
      else if is_regular fs path
      then some path ∷ rest
      else rest

  unfoldable pub candidates : Fs → List CString → List (Option CString)
  unfolding regular_files
  candidates fs [] = []
  candidates fs (dir ∷ ds) = elim (list_dir fs dir) [
    | none ↦ candidates fs ds
    | some names ↦ regular_files fs dir names ++ candidates fs ds
  ]

  unfoldable pub find_expendable_files : Fs → Option (List (Option CString))
  unfolding candidates eliminate_open_files
  find_expendable_files fs = eliminate_open_files fs (candidates fs dirs)

  -- the loop that deletes; it gives the free space that was last seen
  unfoldable pub delete_until : ℕ → List (Option CString) → ℕ → Fs → Fs × ℕ
  unfolding free_space_for_file
  delete_until needed [] free_now fs = (fs, free_now)
  delete_until needed (none ∷ names) free_now fs =
      let rest = delete_until needed names free_now fs in
      if ltb free_now needed then rest else (fs, free_now)
  delete_until needed (some name ∷ names) free_now fs =
      let fs' = unlink name fs in
      let rest = delete_until needed names (free_space_for_file fs' (codes "/cache")) fs' in
      if ltb free_now needed then rest else (fs, free_now)

  -- `MakeFreeSpaceOnCache`; true is a return of 0
  unfoldable pub make_free_space_on_cache : ℕ → Fs → Fs × Bool
  unfolding find_expendable_files delete_until
  make_free_space_on_cache needed fs =
      let free_now = free_space_for_file fs (codes "/cache") in
      if leb needed free_now then (fs, true) else elim (find_expendable_files fs) [
        | none ↦ (fs, false)
        | some [] ↦ (fs, false)
        | some (name ∷ names) ↦
            let (fs', free) = delete_until needed (name ∷ names) free_now fs in
            (fs', leb needed free)
      ]

  -- `CacheSizeCheck`
  unfoldable pub cache_size_check : ℕ → Fs → Fs × ℕ
  unfolding make_free_space_on_cache
  cache_size_check bytes fs =
      let (fs', made) = make_free_space_on_cache bytes fs in (fs', if made then 0 else 1)
