-- ===== src/ApplyPatch/FreeCache/Tests.antt =====
-- A cache of three files, one of them open, on a disk whose files each take 100 bytes.
use android_bootable_recover.Common.{
  ◌-◌, ◌≡◌, refl, Bool, true, false, ◌||◌, Option, none, some, List, [], ◌∷◌, if◌then◌else◌, length,
}
use android_bootable_recover.Edify.Text.{CString, codes, strcmp, is_same}
use android_bootable_recover.ApplyPatch.FreeCache.{
  System, make_free_space_on_cache, find_expendable_files, delete_until,
}

abbrev without : CString → List CString → List CString
without p [] = []
without p (f ∷ fs) = if is_same (strcmp p f) then without p fs else f ∷ without p fs

abbrev dir_of : List CString → CString → Option (List CString)
dir_of fs path =
    if is_same (strcmp path (codes "/cache"))
    then some (codes "saved.file" ∷ codes "log" ∷ codes "old" ∷ codes "spare" ∷ [])
    else if is_same (strcmp path (codes "/proc"))
    then some (codes "7" ∷ codes "self" ∷ [])
    else if is_same (strcmp path (codes "/proc/7/fd/"))
    then some (codes "3" ∷ [])
    else none

abbrev exists : List CString → CString → Bool
exists [] path = false
exists (f ∷ fs) path = is_same (strcmp f path) || exists fs path

abbrev disk : System
disk = record {
  Fs = List CString;
  list_dir = dir_of;
  is_regular = exists;
  read_link = λ fs path. some (codes "/cache/log");
  unlink = without;
  statfs = λ fs path. some (100, 10 - length fs);
}

abbrev start : List CString
start =
    codes "/cache/saved.file" ∷ codes "/cache/log" ∷ codes "/cache/old" ∷ codes "/cache/spare" ∷ []

runs : Unit {0}
unfolding make_free_space_on_cache find_expendable_files delete_until strcmp
runs = tt

frees :
    make_free_space_on_cache disk 650 start
    ≡ (codes "/cache/saved.file" ∷ codes "/cache/log" ∷ codes "/cache/spare" ∷ [], true)
unfolding runs
frees = refl

spares_open :
    make_free_space_on_cache disk 900 start
    ≡ (codes "/cache/saved.file" ∷ codes "/cache/log" ∷ [], false)
unfolding runs
spares_open = refl
