-- ===== src/ApplyPatch/FreeCache/Deletions.antt =====
-- What `MakeFreeSpaceOnCache` of applypatch/freecache.c deletes, and what it returns.
use mathlib.Core.List.{Memᴰ}
use android_bootable_recover.Common.{
  ℕ, ◌≤◌, ◌<◌, ◌≡◌, refl, sym, ap, ◌∙◌, subst, inl, inr, Option, none, some, List, [], ◌∷◌, arith,
  ltb, leb, Bool-cases, Option-cases,
}
use android_bootable_recover.Edify.Text.{CString, codes}
use android_bootable_recover.ApplyPatch.FreeCache.{
  System, free_space_for_file, find_expendable_files, delete_until, make_free_space_on_cache,
}
use android_bootable_recover.ApplyPatch.FreeCache.Expendable.{
  IsExpendable, IsOpen, find_expendable_files_kept,
}

module _ (sys : System) where
  open sys use {Fs, unlink}

  abbrev cache_space : Fs → ℕ
  cache_space fs = free_space_for_file sys fs (codes "/cache")

  abbrev pub unlink_all : List CString → Fs → Fs
  unlink_all [] fs = fs
  unlink_all (d ∷ ds) fs = unlink_all ds (unlink d fs)

  -- There was too little room before each of these deletions.
  abbrev pub AllNeeded : ℕ → List CString → Fs → Type 0
  AllNeeded needed [] fs = Unit
  AllNeeded needed (d ∷ ds) fs = (cache_space fs < needed) × AllNeeded needed ds (unlink d fs)

  -- The deletions made from a list of names.
  record Deleted (needed : ℕ) (names : List (Option CString)) (fs : Fs) (ds : List CString)
      : Type 0 where
    listed : (d : CString) → Memᴰ d ds → Memᴰ (some d) names
    all_needed : AllNeeded needed ds fs
    exhausted :
        cache_space (unlink_all ds fs) < needed → (p : CString) → Memᴰ (some p) names → Memᴰ p ds

  nothing-Deleted :
      (needed : ℕ) (names : List (Option CString)) (fs : Fs)
      → needed ≤ cache_space fs
      → Deleted needed names fs []
  nothing-Deleted needed names fs h = record {
    listed = λ d m. elim m [ ];
    all_needed = tt;
    exhausted = λ k p m. absurd (omega arith);
  }

  delete_until-Deleted :
      (needed : ℕ) (names : List (Option CString)) (fs : Fs)
      → (ds : List CString) × (delete_until sys needed names (cache_space fs) fs
          ≡ (unlink_all ds fs, cache_space (unlink_all ds fs)))
        × Deleted needed names fs ds
  unfolding delete_until
  delete_until-Deleted needed [] fs = (
    [],
    refl,
    record { listed = λ d m. elim m [ ]; all_needed = tt; exhausted = λ k p m. elim m [ ] },
  )
  delete_until-Deleted needed (none ∷ names) fs =
      let (ds, e, d) = delete_until-Deleted needed names fs in
      elim (Bool-cases (ltb (cache_space fs) needed)) [
        | inl short ↦ (
          ds,
          rw (short, e),
          record {
            listed = λ x m. Memᴰ.tail (d.listed x m);
            all_needed = d.all_needed;
            exhausted =
                λ k p m. elim m [ Memᴰ.head q ↦ absurd cc | Memᴰ.tail t ↦ d.exhausted k p t ];
          },
        )
        | inr enough ↦ ([], rw enough, nothing-Deleted needed (none ∷ names) fs (ground arith))
      ]
  delete_until-Deleted needed (some name ∷ names) fs =
      let (ds, e, d) = delete_until-Deleted needed names (unlink name fs) in
      elim (Bool-cases (ltb (cache_space fs) needed)) [
        | inl short ↦ (
          name ∷ ds,
          rw (short, e),
          record {
            listed = λ x m. elim m [
              | Memᴰ.head q ↦ Memᴰ.head (ap some q)
              | Memᴰ.tail t ↦ Memᴰ.tail (d.listed x t)
            ];
            all_needed = (ground arith, d.all_needed);
            exhausted = λ k p m. elim m [
              | Memᴰ.head q ↦ Memᴰ.head (some_inj q)
              | Memᴰ.tail t ↦ Memᴰ.tail (d.exhausted k p t)
            ];
          },
        )
        | inr enough ↦ ([], rw enough, nothing-Deleted needed (some name ∷ names) fs (ground arith))
      ]
    where
      some_inj : {x y : CString} → some x ≡ some y → x ≡ y
      some_inj e = ground arith

  -- A call that deleted these files, in this order.
  pub record Freed (needed : ℕ) (fs : Fs) (ds : List CString) : Type 0 where
    pub outcome : make_free_space_on_cache sys needed fs ≡ (
      unlink_all ds fs,
      leb needed (free_space_for_file sys (unlink_all ds fs) (codes "/cache")),
    )
    pub allowed : (d : CString) → Memᴰ d ds → IsExpendable sys fs d × (IsOpen sys fs d → ⊥)
    pub all_needed : AllNeeded needed ds fs
    pub exhausted :
        cache_space (unlink_all ds fs) < needed
        → (files : List (Option CString)) → find_expendable_files sys fs ≡ some files
        → (p : CString) → Memᴰ (some p) files
        → Memᴰ p ds

  nothing_tried-Freed :
      (needed : ℕ) (fs : Fs)
      → make_free_space_on_cache sys needed fs ≡ (fs, leb needed (cache_space fs))
      → ((files : List (Option CString)) (p : CString)
          → cache_space fs < needed
          → find_expendable_files sys fs ≡ some files
          → Memᴰ (some p) files
          → ⊥)
      → Freed needed fs []
  nothing_tried-Freed needed fs e none_left = record {
    outcome = e;
    allowed = λ d m. elim m [ ];
    all_needed = tt;
    exhausted = λ k files f p m. absurd (none_left files p k f m);
  }

  pub make_free_space_on_cache-Freed :
      (needed : ℕ) (fs : Fs) → (ds : List CString) × Freed needed fs ds
  unfolding make_free_space_on_cache
  make_free_space_on_cache-Freed needed fs = elim (Bool-cases (leb needed (cache_space fs))) [
    | inl enough ↦ ([], nothing_tried-Freed needed fs (rw enough) (λ files p k f m. ground arith))
    | inr short ↦ elim (Option-cases (find_expendable_files sys fs)) [
      | inl e ↦ ([], nothing_tried-Freed needed fs (rw (short, e)) (λ files p k f m. absurd cc))
      | inr ([], e) ↦ (
        [],
        nothing_tried-Freed needed fs (rw (short, e))
            (λ files p k f m. elim (subst (Memᴰ (some p)) (some_inj (sym f ∙ e)) m) [ ]),
      )
      | inr (name ∷ names, e) ↦
          let (ds, run, d) = delete_until-Deleted needed (name ∷ names) fs in
          (
            ds,
            record {
              outcome = rw (short, e, run);
              allowed = λ x m. find_expendable_files_kept sys fs (name ∷ names) x e (d.listed x m);
              all_needed = d.all_needed;
              exhausted =
                  λ k files f p m. d.exhausted k p (subst (Memᴰ (some p)) (some_inj (sym f ∙ e)) m);
            },
          )
    ]
  ]
    where
      some_inj : {x y : List (Option CString)} → some x ≡ some y → x ≡ y
      some_inj e = ground arith
