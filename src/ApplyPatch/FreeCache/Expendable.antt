-- ===== src/ApplyPatch/FreeCache/Expendable.antt =====
-- What the files are that `FindExpendableFiles` of applypatch/freecache.c gives.
use mathlib.Core.List.{Memᴰ}
use android_bootable_recover.Common.{
  ◌≡◌, refl, sym, ap, ◌∙◌, subst, ◌≢◌, ◌⊎◌, inl, inr, Bool, true, false, Option, none, some, List,
  [], ◌∷◌, ◌++◌, arith, Bool-cases, Option-cases,
}
use android_bootable_recover.Edify.Text.{CString, codes, strcmp, is_same}
use android_bootable_recover.ApplyPatch.FreeCache.{
  dirs, cache_temp_source, eliminate_open_files, regular_files, candidates, find_expendable_files,
  strike_processes, System,
}
use android_bootable_recover.ApplyPatch.FreeCache.Closed.{
  is_same_iff, InCache, HeldBy, strike_processes_kept,
}

Memᴰ_append :
    {x : Option CString} (xs : List (Option CString)) {ys : List (Option CString)}
    → Memᴰ x (xs ++ ys)
    → Memᴰ x xs ⊎ Memᴰ x ys
Memᴰ_append [] m = inr m
Memᴰ_append (a ∷ xs) (Memᴰ.head e) = inl (Memᴰ.head e)
Memᴰ_append (a ∷ xs) (Memᴰ.tail m) = elim (Memᴰ_append xs m) [
  | inl k ↦ inl (Memᴰ.tail k)
  | inr k ↦ inr k
]

module _ (sys : System) (fs : System.Fs sys) where
  open sys use {list_dir, is_regular}

  -- a listed process has the file open
  abbrev pub IsOpen : CString → Type 0
  IsOpen p =
      (pids : List CString) × (list_dir fs (codes "/proc") ≡ some pids) × HeldBy sys fs pids p

  -- a regular file of the two directories other than the saved one
  pub record IsExpendable (p : CString) : Type 0 where
    pub dir : CString
    pub dir_listed : Memᴰ dir dirs
    pub names : List CString
    pub listed : list_dir fs dir ≡ some names
    pub name : CString
    pub named : Memᴰ name names
    pub path : p ≡ dir ++ codes "/" ++ name
    pub regular : is_regular fs p ≡ true
    pub not_saved : p ≢ cache_temp_source

  -- where a candidate was found in one directory
  abbrev pub FoundIn : CString → List CString → CString → Type 0
  FoundIn dir names p =
      (name : CString) × Memᴰ name names
      × (p ≡ dir ++ codes "/" ++ name)
      × (is_regular fs p ≡ true)
      × (p ≢ cache_temp_source)

  regular_files_kept :
      (dir p : CString) (names : List CString)
      → Memᴰ (some p) (regular_files sys fs dir names)
      → FoundIn dir names p
  unfolding regular_files
  regular_files_kept dir p [] m = elim m [ ]
  regular_files_kept dir p (name ∷ names) m =
      let path = dir ++ codes "/" ++ name in
      elim (Bool-cases (is_same (strcmp path cache_temp_source))) [
        | inl saved ↦ deeper (regular_files_kept dir p names (rw (regular_files, saved) at m))
        | inr other ↦ elim (Bool-cases (is_regular fs path)) [
          | inr special ↦
              deeper (regular_files_kept dir p names (rw (regular_files, other, special) at m))
          | inl regular ↦ elim (rw (regular_files, other, regular) at m) [
            | Memᴰ.head q ↦
                let e : p ≡ path = some_inj q in
                (
                  name,
                  Memᴰ.head refl,
                  e,
                  ap (is_regular fs) e ∙ regular,
                  λ saved. clash ((is_same_iff path cache_temp_source).1 (sym e ∙ saved)) other,
                )
            | Memᴰ.tail k ↦ deeper (regular_files_kept dir p names k)
          ]
        ]
      ]
    where
      deeper : FoundIn dir names p → FoundIn dir (name ∷ names) p
      deeper r = (r.0, Memᴰ.tail r.1, r.2, r.3, r.4)

      clash : {b : Bool} → b ≡ true → b ≡ false → ⊥
      clash e k = cc

      some_inj : {x y : CString} → some x ≡ some y → x ≡ y
      some_inj e = ground arith

  candidates_kept :
      (p : CString) (ds : List CString) (sub : (d : CString) → Memᴰ d ds → Memᴰ d dirs)
      → Memᴰ (some p) (candidates sys fs ds)
      → IsExpendable p
  unfolding candidates
  candidates_kept p [] sub m = elim m [ ]
  candidates_kept p (d ∷ ds) sub m = elim (Option-cases (list_dir fs d)) [
    | inl e ↦ candidates_kept p ds (λ n k. sub n (Memᴰ.tail k)) (rw (candidates, e) at m)
    | inr (names, e) ↦ elim (Memᴰ_append (regular_files sys fs d names) (rw (candidates, e) at m)) [
      | inl here ↦
          let r = regular_files_kept d p names here in
          record {
            dir = d;
            dir_listed = sub d (Memᴰ.head refl);
            names = names;
            listed = e;
            name = r.0;
            named = r.1;
            path = r.2;
            regular = r.3;
            not_saved = r.4;
          }
      | inr later ↦ candidates_kept p ds (λ n k. sub n (Memᴰ.tail k)) later
    ]
  ]

  IsExpendable-InCache : {p : CString} → IsExpendable p → InCache p
  unfolding strcmp
  IsExpendable-InCache x = elim x.dir_listed [
    | Memᴰ.head e ↦ rw (x.path, e)
    | Memᴰ.tail (Memᴰ.head e) ↦ rw (x.path, e)
    | Memᴰ.tail (Memᴰ.tail k) ↦ elim k [ ]
  ]

  -- Every name that is left is an expendable file that no listed process has open.
  pub find_expendable_files_kept :
      (files : List (Option CString)) (p : CString)
      → find_expendable_files sys fs ≡ some files
      → Memᴰ (some p) files
      → IsExpendable p × (IsOpen p → ⊥)
  unfolding find_expendable_files eliminate_open_files
  find_expendable_files_kept files p e m = elim (Option-cases (list_dir fs (codes "/proc"))) [
    | inl none_there ↦
        absurd (none_some (rw (find_expendable_files, eliminate_open_files, none_there) at e))
    | inr (pids, there) ↦
        let e' : strike_processes sys fs pids (candidates sys fs dirs) ≡ files =
          some_inj (rw (find_expendable_files, eliminate_open_files, there) at e) in
        let m' : Memᴰ (some p) (strike_processes sys fs pids (candidates sys fs dirs)) =
          subst (Memᴰ (some p)) (sym e') m in
        let (found, closed) = strike_processes_kept sys fs p pids (candidates sys fs dirs) m' in
        let x = candidates_kept p dirs (λ d k. k) found in
        (
          x,
          λ o.
              closed (IsExpendable-InCache x)
                (subst (λ l. HeldBy sys fs l p) (some_inj (sym o.1 ∙ there)) o.2),
        )
  ]
    where
      none_some : none ≡ some files → ⊥
      none_some e = cc

      some_inj : {A : Type 0} {x y : A} → some x ≡ some y → x ≡ y
      some_inj e = ground arith
