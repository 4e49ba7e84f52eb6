-- ===== src/DirUtil/Tests.antt =====
-- The directories of a path, made in a system whose directories are the paths below some length.
use android_bootable_recover.Common.{
  ℕ, ◌+◌, ◌≡◌, refl, Bool, true, false, ltb, ◌==◌, if◌then◌else◌, length,
}
use android_bootable_recover.Edify.Text.{codes}
use android_bootable_recover.DirUtil.{directory, missing, FileSystem, dir_create_hierarchy, Stat}

abbrev stat_of : ℕ → ℕ → Stat
stat_of k bound = if k == 0 then missing else if ltb k bound then directory else missing

abbrev mkdir_of : ℕ → ℕ → Bool × ℕ
mkdir_of k bound = if k == 0 then (false, bound) else (true, bound + k + 1)

abbrev small : FileSystem ℕ
small = record {
  stat = λ p bound. stat_of (length p) bound;
  mkdir = λ p bound. mkdir_of (length p) bound;
  utime = λ p bound. (true, bound);
}

-- "/a//b/c" without its file name: two levels are made
creates : dir_create_hierarchy small true (codes "/a//b/c") true 0 ≡ (true, 9)
unfolding dir_create_hierarchy
creates = refl
