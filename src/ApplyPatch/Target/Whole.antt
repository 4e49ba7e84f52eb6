-- ===== src/ApplyPatch/Target/Whole.antt =====
-- What a whole run of `applypatch` of applypatch/applypatch.c leaves of the target.
use android_bootable_recover.Common.{
  ℕ, ◌≡◌, refl, sym, ◌∙◌, ◌≢◌, ◌⊎◌, inl, inr, Bool, true, false, ◌&&◌, Option, none, some, List,
  leb, if◌then◌else◌, Bool-cases, length, get_elem?, take,
}
use android_bootable_recover.Edify.Text.{CString, codes, strcmp, is_same}
use android_bootable_recover.ApplyPatch.FreeCache.{System, cache_temp_source}
use android_bootable_recover.ApplyPatch.FreeCache.Expendable.{IsExpendable}
use android_bootable_recover.ApplyPatch.BsPatch.{bytes_eq, Bz}
use android_bootable_recover.ApplyPatch.ImgPatch.{Zlib}
use android_bootable_recover.ApplyPatch.Sha.{parse_sha1}
use android_bootable_recover.ApplyPatch.Load
use android_bootable_recover.ApplyPatch.Load.{
  Meta, FileContents, Pair, Loading, Opened, absent, unreadable, opened, load_file_contents,
  mask_file, is_partition,
}
use android_bootable_recover.ApplyPatch.Target.{
  Disk, Patch, Result, returned, crashed, patch_name, Chosen, to_use, patch_of, Choice, none_fits,
  load_crashes, fits, source_file, choose, generate_target, Stale, applypatch,
}
use android_bootable_recover.ApplyPatch.Target.Choosing.{
  choose-IsChoice, source_file-load, load-WasRead,
}
use android_bootable_recover.ApplyPatch.Target.Writes.{IsDisk}
use android_bootable_recover.ApplyPatch.Target.Safety.{generate_file-Final, Masks, Final}
use android_bootable_recover.ApplyPatch.Sha.Matching.{bytes_eq-eq}

-- a patch that begins with the magic number of bsdiff
abbrev pub is_bsdiff : Patch → Bool
is_bsdiff p = leb 8 (length p.bytes) && bytes_eq (take 8 p.bytes) (codes "BSDIFF40")

abbrev pub target_of : CString → CString → CString
target_of source named = if is_same (strcmp named (codes "-")) then source else named

module _ (bz : Bz) (zlib : Zlib) (rounds : ℕ) (sha : List ℕ → List ℕ) (sys : System)
    (content : sys.Fs → CString → Option (List ℕ)) (store : Disk sys) (sort : List Pair → List Pair)
    (reads : (w : sys.Fs) (n : CString) (raw : List ℕ) (st : Meta)
      → (store.files w).open_file n ≡ opened raw st
      → content w n ≡ some raw) where
  module _ (disk : IsDisk sys content store) (source t : CString) (text : CString)
      (other : source ≢ cache_temp_source) (file : is_partition t ≡ false)
      (apart : t ≢ cache_temp_source) (beside : patch_name t ≢ cache_temp_source)
      (never : (w : sys.Fs) → IsExpendable sys w t → ⊥) (patches : List Patch)
      (bsdiffs : (i : ℕ) (p : Patch) → get_elem? patches i ≡ some p → is_bsdiff p ≡ true) where
    -- The target is as it was, or it is the source and was deleted, with the bytes that it had, the
    -- retouched entries masked, in the saved copy.
    abbrev pub Kept : sys.Fs → sys.Fs → Type 0
    Kept w w' =
        (content w' t ≡ content w t)
        ⊎ ((t ≡ source)
            × (content w' t ≡ none)
            × ((raw : List ℕ) × (kept : List ℕ) × (content w t ≡ some raw)
                × Masks raw kept
                × (content w' cache_temp_source ≡ some kept)))

    -- The target has the digest that the text gives: it is new, or nothing was changed and it has the
    -- digest once the retouched entries are masked.
    abbrev pub Reached : sys.Fs → sys.Fs → Type 0
    Reached w w' =
        (digest : List ℕ) × (parse_sha1 text ≡ some digest)
        × (((new : List ℕ) × (content w' t ≡ some new) × (sha new ≡ digest))
            ⊎ ((w' ≡ w)
                × ((raw : List ℕ) × (bytes : List ℕ) × (content w t ≡ some raw)
                    × Masks raw bytes
                    × (sha bytes ≡ digest))))

    unfoldable pub Ends : sys.Fs → Result sys.Fs → Type 0
    Ends w (returned code w') = ((code ≡ 1) × Kept w w') ⊎ ((code ≡ 0) × Reached w w')
    Ends w crashed = Unit

    Final-Ends :
        (w : sys.Fs) (digest : List ℕ) (size : ℕ) (bonus : Option (List ℕ)) (c : Chosen)
        (b : is_bsdiff (patch_of c) ≡ true) (r : Result sys.Fs)
        → parse_sha1 text ≡ some digest
        → Final sys content store disk bz zlib rounds sha source t digest size bonus c b apart
            beside never w r
        → Ends w r
    unfolding Final Ends
    Final-Ends w digest size bonus c b (returned code w') e (inl (k, safe)) = inl (k, safe)
    Final-Ends w digest size bonus c b (returned code w') e (inr (k, new)) =
        inr (k, (digest, e, inl new))
    Final-Ends w digest size bonus c b crashed e h = tt

    module _ (size : ℕ) (sums : List CString) (bonus : Option (List ℕ)) (stale : Stale) where
      chosen-Ends :
          (w : sys.Fs) (digest : List ℕ) (o : Choice)
          → parse_sha1 text ≡ some digest
          → choose bz zlib rounds sha store sort sums patches
              (source_file bz zlib rounds sha store sort source t
                (load_file_contents sha (store.files w) sort t true)
                w)
              w
            ≡ o
          → Ends w (elim o as (λ _. Result sys.Fs) [
            | none_fits ↦ returned 1 w
            | load_crashes ↦ crashed
            | fits chosen ↦
                generate_target bz zlib rounds sha store source t digest size bonus chosen stale w
          ])
      unfolding Ends generate_target
      chosen-Ends w digest none_fits e h = inl (refl, inl refl)
      chosen-Ends w digest load_crashes e h = tt
      chosen-Ends w digest (fits c) e h =
          let old = load_file_contents sha (store.files w) sort t true in
          let (known, from) =
            choose-IsChoice bz zlib rounds sha sys content store sort reads sums patches _ w c h in
          let bsdiff : is_bsdiff (patch_of c) ≡ true = bsdiffs known.0 (patch_of c) known.1 in
          rw file (
            Final-Ends w digest size bonus c bsdiff _ e (
              generate_file-Final sys content store disk bz zlib rounds sha source t digest size
                bonus c bsdiff apart beside never other w
                (λ used plain.
                  let (raw, was, masks, _) =
                    load-WasRead bz zlib rounds sha sys content store sort reads source w (to_use c)
                      plain
                      (source_file-load bz zlib rounds sha sys content store sort reads source t old
                        w (to_use c) refl (from used)) in
                  (raw, was, masks))))

      already-Ends :
          (w : sys.Fs) (digest : List ℕ) (old : Loading) (r : Result sys.Fs)
          → parse_sha1 text ≡ some digest
          → load_file_contents sha (store.files w) sort t true ≡ old
          → Ends w r
          → Ends w (
              if elim old as (λ _. Bool) [
                | Load.loaded f ↦ bytes_eq f.sha1 digest
                | Load.enoent ↦ false
                | Load.failed ↦ false
                | Load.fault ↦ false
              ]
              then returned 0 w
              else r)
      unfolding Ends
      already-Ends w digest (Load.loaded f) r e h rest =
          elim (Bool-cases (bytes_eq f.sha1 digest)) [
            | inr stale_digest ↦ rw stale_digest rest
            | inl reached ↦
                let (raw, was, masks, hashed) =
                  load-WasRead bz zlib rounds sha sys content store sort reads t w f file h in
                rw reached (
                  inr (
                    refl,
                    (
                      digest,
                      e,
                      inr (
                        refl,
                        (raw, f.bytes, was, masks, sym hashed ∙ bytes_eq-eq f.sha1 digest reached),
                      ),
                    ),
                  ))
          ]
      already-Ends w digest Load.enoent r e h rest = rest
      already-Ends w digest Load.failed r e h rest = rest
      already-Ends w digest Load.fault r e h rest = rest

      parsed-Ends :
          (w : sys.Fs) (o : Option (List ℕ))
          → parse_sha1 text ≡ o
          → Ends w (elim o as (λ _. Result sys.Fs) [
            | none ↦ returned 1 w
            | some digest ↦
                if elim (load_file_contents sha (store.files w) sort t true) as (λ _. Bool) [
                  | Load.loaded f ↦ bytes_eq f.sha1 digest
                  | Load.enoent ↦ false
                  | Load.failed ↦ false
                  | Load.fault ↦ false
                ]
                then returned 0 w
                else elim (choose bz zlib rounds sha store sort sums patches
                      (source_file bz zlib rounds sha store sort source t
                        (load_file_contents sha (store.files w) sort t true)
                        w)
                      w)
                    as (λ _. Result sys.Fs) [
                      | none_fits ↦ returned 1 w
                      | load_crashes ↦ crashed
                      | fits chosen ↦
                          generate_target bz zlib rounds sha store source t digest size bonus chosen
                            stale w
                    ]
          ])
      unfolding Ends
      parsed-Ends w none e = inl (refl, inl refl)
      parsed-Ends w (some digest) e =
          already-Ends w digest _ _ e refl (chosen-Ends w digest _ e refl)

  -- Whatever call fails, a run of `applypatch` with bsdiff patches for a target that is a file ends in
  -- one of three ways. It returns 1 and the target is as it was, or it is the source and was deleted,
  -- with the bytes that it had, the retouched entries masked, in the saved copy. Or it returns 0, the
  -- text given is a digest, and the target has it: it is new, or nothing was changed and the target has
  -- the digest once its retouched entries are masked. Or the patch or the load crashes. The name "-"
  -- is that of the source. The calls, of which any may fail, change the files that they name, and what
  -- is read of a file is what it holds. Neither the source, the target nor the file beside it is the
  -- saved copy, and the target is not expendable.
  pub applypatch-Ends :
      (disk : IsDisk sys content store) (source named text : CString)
      (other : source ≢ cache_temp_source) (file : is_partition (target_of source named) ≡ false)
      (apart : target_of source named ≢ cache_temp_source)
      (beside : patch_name (target_of source named) ≢ cache_temp_source)
      (never : (w : sys.Fs) → IsExpendable sys w (target_of source named) → ⊥)
      (patches : List Patch)
      (bsdiffs : (i : ℕ) (p : Patch) → get_elem? patches i ≡ some p → is_bsdiff p ≡ true) (size : ℕ)
      (sums : List CString) (bonus : Option (List ℕ)) (stale : Stale) (w : sys.Fs)
      → Ends disk source
          (target_of source named)
          text
          other
          file
          apart
          beside
          never
          patches
          bsdiffs
          w
          (applypatch bz zlib rounds sha store sort source named text size sums patches bonus stale
            w)
  unfolding applypatch
  applypatch-Ends disk source named text other file apart beside never patches bsdiffs size sums
        bonus stale w =
      parsed-Ends disk source (target_of source named) text other file apart beside never patches
        bsdiffs size sums bonus stale w (parse_sha1 text) refl
