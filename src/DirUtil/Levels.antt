-- ===== src/DirUtil/Levels.antt =====
-- What `dirCreateHierarchy` of minzip/DirUtil.c leaves, and why it fails.
use android_bootable_recover.Common.{
  ℕ, ◌≡◌, ◌≢◌, ◌⊎◌, Bool, true, false, not, Option, none, some, List, [], ◌∷◌, ◌++◌, ◌==◌,
}
use android_bootable_recover.DirUtil.{directory, FileSystem, dillegal, slash, path_dir_status}

-- The calls on directories: a directory that was made is there, none goes away, and what a path with
-- more behind a slash leads through is a directory.
pub record IsFileSystem {W : Type 0} (fs : FileSystem W) : Type 0 where
  pub makes :
      (p : List ℕ) (w : W) → (fs.mkdir p w).0 ≡ true → fs.stat p (fs.mkdir p w).1 ≡ directory
  pub mkdir_keeps :
      (p q : List ℕ) (w : W) → fs.stat q w ≡ directory → fs.stat q (fs.mkdir p w).1 ≡ directory
  pub utime_keeps :
      (p q : List ℕ) (w : W) → fs.stat q w ≡ directory → fs.stat q (fs.utime p w).1 ≡ directory
  pub resolves :
      (p rest : List ℕ) (w : W)
      → p ≢ []
      → fs.stat (p ++ slash ∷ rest) w ≡ directory
      → fs.stat p w ≡ directory

-- a component that ends in front of a place
unfoldable pub inside_after : Bool → List ℕ → Bool
inside_after inside [] = inside
inside_after inside (c ∷ cs) = inside_after (not (c == slash)) cs

module _ {W : Type 0} (fs : FileSystem W) (laws : IsFileSystem fs) (timestamp : Bool) where
  -- A call at a front part of the path fails: something that is no directory stands there, or it
  -- cannot be made, or cannot get its time.
  abbrev pub Fails : List ℕ → Type 0
  Fails path =
      (p : List ℕ) × (rest : List ℕ) × (w : W) × (path ≡ p ++ rest)
      × ((path_dir_status (fs.stat p w) ≡ dillegal)
          ⊎ ((fs.mkdir p w).0 ≡ false)
          ⊎ ((timestamp ≡ true) × ((fs.utime p w).0 ≡ false)))

  abbrev Keeps : W → W → Type 0
  Keeps w w' = (q : List ℕ) → fs.stat q w ≡ directory → fs.stat q w' ≡ directory

  abbrev Leveled : List ℕ → List ℕ → W → Bool × W → Type 0
  Leveled p rest w r =
      (r.0 ≡ true → fs.stat p r.1 ≡ directory) × Keeps w r.1 × (r.0 ≡ false → Fails (p ++ rest))

  -- every component that the walk passes, and that it ends in front of a slash, is a directory
  abbrev Walked : List ℕ → Bool → List ℕ → W → Bool × W → Type 0
  Walked done inside cs w r =
      (r.0 ≡ true
        → (pre rest : List ℕ) → cs ≡ pre ++ slash ∷ rest
        → inside_after inside pre ≡ true
        → fs.stat (done ++ pre) r.1 ≡ directory)
      × Keeps w r.1
      × (r.0 ≡ false → Fails (done ++ cs))

  -- What a run is to do for a path: a true result means that every component of the path that ends in
  -- front of a slash is a directory, and a false one that a call failed.
  abbrev pub Created : Option (List ℕ) → Bool × W → Type 0
  Created none r = r.0 ≡ false
  Created (some cpath) r =
      (r.0 ≡ true
        → (p : List ℕ) (c : ℕ) (rest : List ℕ) → c ≢ slash
        → cpath ≡ (p ++ c ∷ []) ++ slash ∷ rest
        → fs.stat (p ++ c ∷ []) r.1 ≡ directory)
      × (r.0 ≡ false → Fails cpath)
