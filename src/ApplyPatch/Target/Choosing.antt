-- ===== src/ApplyPatch/Target/Choosing.antt =====
-- What `applypatch` of applypatch/applypatch.c loads and chooses to patch.
use android_bootable_recover.Common.{
  ℕ, ◌≡◌, refl, ◌∙◌, subst, inl, inr, true, false, Option, none, some, List, Bool-cases, get_elem?,
}
use android_bootable_recover.Edify.Text.{CString, strcmp, is_same}
use android_bootable_recover.Edify.Text.{Order, same, before, after}
use android_bootable_recover.Edify.Text.Compare.{strcmp-eq_same}
use android_bootable_recover.Retouch
use android_bootable_recover.Retouch.{retouch_mask_data}
use android_bootable_recover.ApplyPatch.FreeCache.{System, cache_temp_source}
use android_bootable_recover.ApplyPatch.BsPatch.{Bz}
use android_bootable_recover.ApplyPatch.ImgPatch.{Zlib}
use android_bootable_recover.ApplyPatch.Sha.{find_matching_patch}
use android_bootable_recover.ApplyPatch.Load
use android_bootable_recover.ApplyPatch.Load.{
  Meta, FileContents, Pair, Loading, Opened, absent, unreadable, opened, load_file_contents,
  mask_file, is_partition,
}
use android_bootable_recover.ApplyPatch.Target.{
  Disk, Patch, Chosen, from_source, from_copy, to_use, patch_of, is_source, Choice, none_fits, fits,
  patch_for, source_file, choose_copy, choose,
}
use android_bootable_recover.ApplyPatch.Target.Safety.{Masks}

same_of : (o : Order) → is_same o ≡ true → o ≡ same
same_of same e = refl
same_of before e = absurd cc
same_of after e = absurd cc

module _ (bz : Bz) (zlib : Zlib) (rounds : ℕ) (sha : List ℕ → List ℕ) (sys : System)
    (content : sys.Fs → CString → Option (List ℕ)) (store : Disk sys) (sort : List Pair → List Pair)
    (reads : (w : sys.Fs) (n : CString) (raw : List ℕ) (st : Meta)
      → (store.files w).open_file n ≡ opened raw st
      → content w n ≡ some raw) where
  -- What was loaded of a file: its bytes with the retouched entries masked, and their digest.
  abbrev pub WasRead : CString → sys.Fs → FileContents → Type 0
  WasRead n w f =
      (raw : List ℕ) × (content w n ≡ some raw) × Masks raw f.bytes × (f.sha1 ≡ sha f.bytes)

  made_of :
      (raw : List ℕ) (st : Meta) (f : FileContents) (m : List ℕ) (o : ℕ)
      → retouch_mask_data raw (some 0) ≡ Retouch.returned m Retouch.matched o
      → Load.loaded (record { sha1 = sha m; bytes = m; st = st }) ≡ Load.loaded f
      → Masks raw f.bytes × (f.sha1 ≡ sha f.bytes)
  made_of raw st f m o e h =
      let same_file : record { sha1 = sha m; bytes = m; st = st } ≡ f = cc in
      subst (λ (g : FileContents). Masks raw g.bytes × (g.sha1 ≡ sha g.bytes)) same_file
        ((o, e), refl)

  masked :
      (raw : List ℕ) (st : Meta) (f : FileContents) (r : Retouch.Outcome)
      → retouch_mask_data raw (some 0) ≡ r
      → elim r as (λ _. Loading) [
        | Retouch.returned m verdict offset ↦ elim verdict as (λ _. Loading) [
          | Retouch.matched ↦ Load.loaded (record { sha1 = sha m; bytes = m; st = st })
          | Retouch.mismatched ↦ Load.failed
          | Retouch.error ↦ Load.failed
          | Retouch.not_applicable ↦ Load.failed
        ]
        | Retouch.fault ↦ Load.fault
        | Retouch.hang ↦ Load.fault
      ]
        ≡ Load.loaded f
      → Masks raw f.bytes × (f.sha1 ≡ sha f.bytes)
  masked raw st f (Retouch.returned m Retouch.matched o) e h = made_of raw st f m o e h
  masked raw st f (Retouch.returned m Retouch.mismatched o) e h = absurd cc
  masked raw st f (Retouch.returned m Retouch.error o) e h = absurd cc
  masked raw st f (Retouch.returned m Retouch.not_applicable o) e h = absurd cc
  masked raw st f Retouch.fault e h = absurd cc
  masked raw st f Retouch.hang e h = absurd cc

  opened-WasRead :
      (n : CString) (w : sys.Fs) (f : FileContents) (o : Opened)
      → (store.files w).open_file n ≡ o
      → elim o as (λ _. Loading) [
        | absent ↦ Load.enoent
        | unreadable ↦ Load.failed
        | opened read st ↦ mask_file sha (store.files w) sort read st true
      ]
        ≡ Load.loaded f
      → WasRead n w f
  unfolding mask_file
  opened-WasRead n w f absent e h = absurd cc
  opened-WasRead n w f unreadable e h = absurd cc
  opened-WasRead n w f (opened raw st) e h =
      let (masks, digest) = masked raw st f (retouch_mask_data raw (some 0)) refl h in
      (raw, reads w n raw st e, masks, digest)

  pub load-WasRead :
      (n : CString) (w : sys.Fs) (f : FileContents)
      → is_partition n ≡ false
      → load_file_contents sha (store.files w) sort n true ≡ Load.loaded f
      → WasRead n w f
  unfolding load_file_contents
  load-WasRead n w f file h = opened-WasRead n w f ((store.files w).open_file n) refl (rw file at h)

  -- the source is loaded from its name, or as the target of the same name
  pub source_file-load :
      (source t : CString) (old : Loading) (w : sys.Fs) (f : FileContents)
      → load_file_contents sha (store.files w) sort t true ≡ old
      → source_file bz zlib rounds sha store sort source t old w ≡ Load.loaded f
      → load_file_contents sha (store.files w) sort source true ≡ Load.loaded f
  unfolding source_file
  source_file-load source t (Load.loaded g) w f e h =
      elim (Bool-cases (is_same (strcmp t source))) [
        | inr other ↦ rw other at h
        | inl one ↦
            let name : t ≡ source = strcmp-eq_same t source (same_of (strcmp t source) one) in
            (subst (λ q. load_file_contents sha (store.files w) sort q true ≡ Load.loaded g) name e)
            ∙ (rw one at h)
      ]
  source_file-load source t Load.enoent w f e h = h
  source_file-load source t Load.failed w f e h = h
  source_file-load source t Load.fault w f e h = absurd cc

  -- What is chosen has a patch of the list, and a source that is chosen was loaded.
  abbrev pub IsChoice : List Patch → Loading → Chosen → Type 0
  IsChoice patches file c =
      ((i : ℕ) × (get_elem? patches i ≡ some (patch_of c)))
      × (is_source c ≡ true → file ≡ Load.loaded (to_use c))

  listed :
      (patches : List Patch) (p : Patch) (o : Option ℕ)
      → elim o as (λ _. Option Patch) [ none ↦ none | some i ↦ get_elem? patches i ] ≡ some p
      → (i : ℕ) × (get_elem? patches i ≡ some p)
  listed patches p none h = absurd cc
  listed patches p (some i) h = (i, h)

  patch_for-listed :
      (sums : List CString) (patches : List Patch) (f : FileContents) (p : Patch)
      → patch_for bz zlib rounds sha store sort sums patches f ≡ some p
      → (i : ℕ) × (get_elem? patches i ≡ some p)
  unfolding patch_for
  patch_for-listed sums patches f p h = listed patches p (find_matching_patch f.sha1 sums) h

  copied :
      (sums : List CString) (patches : List Patch) (file : Loading) (copy : FileContents)
      (c : Chosen) (o : Option Patch)
      → patch_for bz zlib rounds sha store sort sums patches copy ≡ o
      → elim o as (λ _. Choice) [ none ↦ none_fits | some patch ↦ fits (from_copy copy patch) ]
        ≡ fits c
      → IsChoice patches file c
  copied sums patches file copy c none e h = absurd cc
  copied sums patches file copy c (some p) e h =
      let same_choice : from_copy copy p ≡ c = cc in
      subst (IsChoice patches file) same_choice
        (patch_for-listed sums patches copy p e, λ k. absurd (clash k))
    where
      clash : false ≡ true → ⊥
      clash k = cc

  choose_copy-IsChoice :
      (sums : List CString) (patches : List Patch) (file saved : Loading) (c : Chosen)
      → choose_copy bz zlib rounds sha store sort sums patches saved ≡ fits c
      → IsChoice patches file c
  unfolding choose_copy
  choose_copy-IsChoice sums patches file (Load.loaded copy) c h =
      copied sums patches file copy c (patch_for bz zlib rounds sha store sort sums patches copy)
        refl h
  choose_copy-IsChoice sums patches file Load.enoent c h = absurd cc
  choose_copy-IsChoice sums patches file Load.failed c h = absurd cc
  choose_copy-IsChoice sums patches file Load.fault c h = absurd cc

  source_taken :
      (sums : List CString) (patches : List Patch) (f : FileContents) (saved : Loading) (c : Chosen)
      (o : Option Patch)
      → patch_for bz zlib rounds sha store sort sums patches f ≡ o
      → elim o as (λ _. Choice) [
        | none ↦ choose_copy bz zlib rounds sha store sort sums patches saved
        | some patch ↦ fits (from_source f patch)
      ]
        ≡ fits c
      → IsChoice patches (Load.loaded f) c
  source_taken sums patches f saved c none e h =
      choose_copy-IsChoice sums patches (Load.loaded f) saved c h
  source_taken sums patches f saved c (some p) e h =
      let same_choice : from_source f p ≡ c = cc in
      subst (IsChoice patches (Load.loaded f)) same_choice
        (patch_for-listed sums patches f p e, λ k. refl)

  pub choose-IsChoice :
      (sums : List CString) (patches : List Patch) (file : Loading) (w : sys.Fs) (c : Chosen)
      → choose bz zlib rounds sha store sort sums patches file w ≡ fits c
      → IsChoice patches file c
  unfolding choose
  choose-IsChoice sums patches (Load.loaded f) w c h =
      source_taken sums patches f
        (load_file_contents sha (store.files w) sort cache_temp_source true) c
        (patch_for bz zlib rounds sha store sort sums patches f) refl h
  choose-IsChoice sums patches Load.enoent w c h =
      choose_copy-IsChoice sums patches Load.enoent _ c h
  choose-IsChoice sums patches Load.failed w c h =
      choose_copy-IsChoice sums patches Load.failed _ c h
  choose-IsChoice sums patches Load.fault w c h = absurd cc
