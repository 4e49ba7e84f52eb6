-- ===== src/DirUtil.antt =====
-- Making directories: minzip/DirUtil.c.
--
-- A path is the list of its bytes before the NUL. The calls of the system are parameters, on a state
-- `W` of theirs. The security context that a call is made under is not modelled, nor is memory.
pub mod Levels
mod Tests
use android_bootable_recover.Common.{
  ℕ, zero, suc, ◌+◌, ◌-◌, Bool, true, false, not, ◌&&◌, Option, none, some, List, [], ◌∷◌, ◌++◌,
  ◌==◌, if◌then◌else◌, length, get_or, take,
}

-- what `stat` says: `failed` is an error other than ENOENT
pub data Stat : Type 0 where
  directory other missing failed : Stat

pub record FileSystem (W : Type 0) : Type 0 where
  pub stat : List ℕ → W → Stat
  pub mkdir : List ℕ → W → Bool × W
  pub utime : List ℕ → W → Bool × W

pub data DirStatus : Type 0 where
  dmissing ddir dillegal : DirStatus

abbrev pub slash : ℕ
slash = 0x2f

unfoldable pub path_dir_status : Stat → DirStatus
path_dir_status directory = ddir
path_dir_status other = dillegal
path_dir_status missing = dmissing
path_dir_status failed = dillegal

-- the place of the last slash, or 0
unfoldable pub last_slash : List ℕ → ℕ → ℕ
last_slash path zero = 0
last_slash path (suc i) =
    let earlier = last_slash path i in if get_or path (suc i) 0 == slash then suc i else earlier

-- The path with a slash at its end; a file name is stripped first, and there is none to strip if the
-- last slash is the first byte.
unfoldable pub slashed : Bool → List ℕ → Option (List ℕ)
unfolding last_slash
slashed false path = some (path ++ slash ∷ [])
slashed true path =
    let c = last_slash path (length path - 1) in if c == 0 then none else some (take (c + 1) path)

module _ {W : Type 0} (fs : FileSystem W) (timestamp : Bool) where
  -- one level of the path
  unfoldable pub make_level : List ℕ → W → Bool × W
  unfolding path_dir_status
  make_level path w = elim (path_dir_status (fs.stat path w)) [
    | ddir ↦ (true, w)
    | dillegal ↦ (false, w)
    | dmissing ↦
        let (made, w') = fs.mkdir path w in
        if made then (if timestamp then fs.utime path w' else (true, w')) else (false, w')
  ]

  -- The walk over the path from `done` on; `inside` says that a component has begun.
  unfoldable pub make_levels : List ℕ → Bool → List ℕ → W → Bool × W
  unfolding make_level
  make_levels done inside [] w = (true, w)
  make_levels done inside (c ∷ cs) w =
      let (made, w') = make_level done w in
      let next = make_levels (done ++ c ∷ []) (not (c == slash)) cs in
      if c == slash && inside then (if made then next w' else (false, w')) else next w

  -- `dirCreateHierarchy` returns 0
  unfoldable pub dir_create_hierarchy : List ℕ → Bool → W → Bool × W
  unfolding slashed make_levels path_dir_status
  dir_create_hierarchy [] strip w = (false, w)
  dir_create_hierarchy (c ∷ cs) strip w = elim (slashed strip (c ∷ cs)) [
    | none ↦ (false, w)
    | some cpath ↦ elim (path_dir_status (fs.stat cpath w)) [
      | ddir ↦ (true, w)
      | dillegal ↦ (false, w)
      | dmissing ↦ make_levels [] false cpath w
    ]
  ]
