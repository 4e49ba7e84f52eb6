-- ===== src/ApplyPatch/Target/Safety.antt =====
-- What a run of `GenerateTarget` of applypatch/applypatch.c leaves of the target, whatever fails.
use android_bootable_recover.Common.{
  ℕ, ◌≡◌, refl, sym, ap, ◌∙◌, subst, ◌≢◌, ◌⊎◌, inl, inr, Bool, true, false, not, ◌&&◌, ◌||◌, Option,
  none, some, List, arith, leb, if◌then◌else◌, Bool-cases, length, length-append, take,
}
use android_bootable_recover.Edify.Text.{CString, codes}
use android_bootable_recover.ApplyPatch.FreeCache.{free_space_for_file, System, cache_temp_source}
use android_bootable_recover.ApplyPatch.FreeCache.Expendable.{IsExpendable}
use android_bootable_recover.ApplyPatch.BsPatch.{bytes_eq, Bz}
use android_bootable_recover.ApplyPatch.ImgPatch.{
  Zlib, Output, Applied, applied, failed, fault, hang, apply_bs_diff_patch,
}
use android_bootable_recover.Retouch
use android_bootable_recover.Retouch.{retouch_mask_data}
use android_bootable_recover.ApplyPatch.Sha.Matching.{bytes_eq-eq}
use android_bootable_recover.Edify.Text.Compare.{names_decided}
use android_bootable_recover.ApplyPatch.Load.{is_partition}
use android_bootable_recover.ApplyPatch.Target.{
  is_enough, target_fs, to_use, Result, finish, patch_name, patch_of, Chosen, Disk, set_meta,
  back_up,
}
use android_bootable_recover.ApplyPatch.Target.{
  Chosen, patch_of, to_use, is_source, patch_name, Result, returned, crashed, Round, stop, again,
  finish, write_patch, file_round, generate_file, apply_patch,
}
use android_bootable_recover.ApplyPatch.Target.Writes.{
  Only, Unchanged, IsDisk, set_meta-Unchanged, back_up-Only, Applies, written_to-Applies,
}
use android_bootable_recover.ApplyPatch.BsPatch.{apply_bs_diff_patch_mem}

-- With the offset 0 `retouch_mask_data` makes the second out of the first.
abbrev pub Masks : List ℕ → List ℕ → Type 0
Masks raw bytes =
    (offset : ℕ) × (retouch_mask_data raw (some 0) ≡ Retouch.returned bytes Retouch.matched offset)

module _ (sys : System) (content : sys.Fs → CString → Option (List ℕ)) (store : Disk sys)
    (disk : IsDisk sys content store) (bz : Bz) (zlib : Zlib) (rounds : ℕ)
    (sha : List ℕ → List ℕ) where
  module _ (source t : CString) (target_sha1 : List ℕ) (target_size : ℕ) (bonus : Option (List ℕ))
      (chosen : Chosen)
      (bsdiff : (leb 8 (length (patch_of chosen).bytes)
          && bytes_eq (take 8 (patch_of chosen).bytes) (codes "BSDIFF40"))
        ≡ true)
      (apart : t ≢ cache_temp_source) (beside : patch_name t ≢ cache_temp_source)
      (never : (w : sys.Fs) → IsExpendable sys w t → ⊥) where
    -- the target and the saved copy are as they were
    abbrev Same : sys.Fs → sys.Fs → Type 0
    Same w w' =
        (content w' t ≡ content w t) × (content w' cache_temp_source ≡ content w cache_temp_source)

    -- the target has the digest asked for
    abbrev pub IsTarget : sys.Fs → Type 0
    IsTarget w = (new : List ℕ) × (content w t ≡ some new) × (sha new ≡ target_sha1)

    Ended : sys.Fs → Result sys.Fs → Type 0
    Ended w (returned code w') = ((code ≡ 1) × Same w w') ⊎ ((code ≡ 0) × IsTarget w')
    Ended w crashed = Unit

    other_name : t ≢ patch_name t
    other_name e = absurd (omega (arith, ap length e, length-append t (codes ".patch")))

    -- a change of the file beside the target
    beside_Same : (w w' : sys.Fs) → Only sys content (patch_name t) w w' → Same w w'
    beside_Same w w' only = (only t other_name, only cache_temp_source (λ e. beside (sym e)))

    Same-trans : (w w1 w2 : sys.Fs) → Same w w1 → Same w1 w2 → Same w w2
    Same-trans w w1 w2 a b = (b.0 ∙ a.0, b.1 ∙ a.1)

    Unchanged-Same : (w w' : sys.Fs) → Unchanged sys content w w' → Same w w'
    Unchanged-Same w w' u = (u t, u cache_temp_source)

    finish-Ended :
        (made_copy : Bool) (w : sys.Fs) (out : Output sys.Fs)
        → Same w out.token
        → content out.token (patch_name t) ≡ some out.hashed
        → Ended w (
            finish bz zlib rounds sha store source t target_sha1 target_size bonus chosen made_copy
              out)
    unfolding finish Ended
    finish-Ended made_copy w out same wrote =
        let name = patch_name t in
        let set = set_meta-Unchanged sys content store disk name (to_use chosen).st out.token in
        let w1 = (set_meta store name (to_use chosen).st out.token).1 in
        let moved = disk.renamed name t w1 in
        let w2 = (store.rename name t w1).1 in
        let same1 : Same w w1 = Same-trans w out.token w1 same (Unchanged-Same out.token w1 set) in
        elim (Bool-cases (bytes_eq (sha out.hashed) target_sha1)) [
          | inr other ↦ rw other (inl (refl, same))
          | inl match ↦ elim (Bool-cases (set_meta store name (to_use chosen).st out.token).0) [
            | inr unset ↦ rw (match, unset) (inl (refl, same1))
            | inl is_set ↦ elim (Bool-cases (store.rename name t w1).0) [
              | inr failed_rename ↦
                  rw (match, is_set, failed_rename)
                    (inl (
                      refl,
                      Same-trans w w1 w2 same1 (Unchanged-Same w1 w2 (moved.1 failed_rename)),
                    ))
              | inl renamed ↦
                  let there : content w2 t ≡ some out.hashed =
                    (moved.0 renamed).0 ∙ set name ∙ wrote in
                  rw (match, is_set, renamed)
                    (inr (refl, (out.hashed, dropped made_copy w2 ∙ there, bytes_eq-eq _ _ match)))
            ]
          ]
        ]
      where
        dropped :
            (made_copy : Bool) (w : sys.Fs)
            → content (if made_copy then sys.unlink cache_temp_source w else w) t ≡ content w t
        dropped true w = (disk.unlinked cache_temp_source w).0 t apart
        dropped false w = refl

    -- a round that writes, from `w` on; there is another one only if `retry` is set
    Wrote : Bool → sys.Fs → Round sys.Fs → Type 0
    Wrote retry w (stop r) = Ended w r
    Wrote retry w (again w') = Same w w' × (retry ≡ true)

    after_apply :
        (retry made_copy : Bool) (w w1 : sys.Fs)
        → Same w w1
        → (r : Applied (Output sys.Fs) sys.Fs)
        → Applies sys content store disk bz zlib rounds sha (patch_name t) w1 r
        → Wrote retry w (elim r as (λ _. Round sys.Fs) [
          | applied out ↦ stop (
              finish bz zlib rounds sha store source t target_sha1 target_size bonus chosen
                made_copy out)
          | failed out ↦
              if retry
              then again (sys.unlink (patch_name t) out.token)
              else stop (returned 1 out.token)
          | fault ↦ stop crashed
          | hang ↦ stop crashed
        ])
    unfolding Wrote Ended Applies
    after_apply retry made_copy w w1 same (applied out) (only, wrote) =
        finish-Ended made_copy w out
          (Same-trans w w1 out.token same (beside_Same w1 out.token only)) wrote
    after_apply true made_copy w w1 same (failed out) only =
        let w2 = sys.unlink (patch_name t) out.token in
        (
          Same-trans w w1 w2 same (
              Same-trans w1 out.token w2 (beside_Same w1 out.token only)
                (beside_Same out.token w2 (disk.unlinked (patch_name t) out.token).0)),
          refl,
        )
    after_apply false made_copy w w1 same (failed out) only =
        inl (refl, Same-trans w w1 out.token same (beside_Same w1 out.token only))
    after_apply retry made_copy w w1 same fault h = tt
    after_apply retry made_copy w w1 same hang h = tt

    write_patch-Wrote :
        (retry made_copy : Bool) (w : sys.Fs)
        → Wrote retry w (
            write_patch bz zlib rounds sha store source t target_sha1 target_size bonus chosen retry
              made_copy w)
    unfolding write_patch apply_patch apply_bs_diff_patch Wrote Ended
    write_patch-Wrote retry made_copy w =
        let name = patch_name t in
        let w1 = (store.create name w).1 in
        let created = disk.created name w in
        let same : Same w w1 = beside_Same w w1 created.0 in
        elim (Bool-cases (patch_of chosen).is_blob) [
          | inr no_blob ↦ rw no_blob (inl (refl, (refl, refl)))
          | inl blob ↦ elim (Bool-cases (store.create name w).0) [
            | inr closed ↦ rw (blob, closed) (inl (refl, same))
            | inl is_open ↦
                rw (blob, is_open, bsdiff)
                  (after_apply retry made_copy w w1 same _ (
                    written_to-Applies sys content store disk bz zlib rounds sha name w1
                      (created.1 is_open)
                      (apply_bs_diff_patch_mem bz rounds rounds (to_use chosen).bytes
                        (patch_of chosen).bytes 0)))
          ]
        ]

    -- A source that is used, and is a file, is used as it was loaded: what is used are its bytes with
    -- the retouched entries masked.
    abbrev pub Loaded : sys.Fs → Type 0
    Loaded w =
        is_source chosen ≡ true
        → is_partition source ≡ false
        → (raw : List ℕ) × (content w source ≡ some raw) × Masks raw (to_use chosen).bytes

    -- The target is as it was, or it is the source, was deleted to make room, and the saved copy
    -- has the bytes that it had, with the retouched entries masked.
    abbrev pub Safe : sys.Fs → sys.Fs → Type 0
    Safe w w' =
        (content w' t ≡ content w t)
        ⊎ ((t ≡ source)
            × (content w' t ≡ none)
            × ((raw : List ℕ) × (kept : List ℕ) × (content w t ≡ some raw)
                × Masks raw kept
                × (content w' cache_temp_source ≡ some kept)))

    -- The ends of a run: a failure that leaves the target safe, or the target asked for.
    unfoldable pub Final : sys.Fs → Result sys.Fs → Type 0
    Final w (returned code w') = ((code ≡ 1) × Safe w w') ⊎ ((code ≡ 0) × IsTarget w')
    Final w crashed = Unit

    Left : Bool → sys.Fs → Round sys.Fs → Type 0
    Left retry w (stop r) = Final w r
    Left retry w (again w') = (content w' t ≡ content w t) × (retry ≡ true)

    Safe-Same : (w w1 w2 : sys.Fs) → Safe w w1 → Same w1 w2 → Safe w w2
    Safe-Same w w1 w2 (inl kept) same = inl (same.0 ∙ kept)
    Safe-Same w w1 w2 (inr (e, gone, (raw, kept, was, masks, saved))) same =
        inr (e, same.0 ∙ gone, (raw, kept, was, masks, same.1 ∙ saved))

    -- a round that writes from a safe state on; without another try it does not ask for one
    Wrote-Left :
        (retry : Bool) (w w1 : sys.Fs) (r : Round sys.Fs)
        → Safe w w1
        → (retry ≡ true → content w1 t ≡ content w t)
        → Wrote retry w1 r
        → Left retry w r
    unfolding Wrote Ended Left Final
    Wrote-Left retry w w1 (stop (returned code w2)) safe whole (inl (e, same)) =
        inl (e, Safe-Same w w1 w2 safe same)
    Wrote-Left retry w w1 (stop (returned code w2)) safe whole (inr good) = inr good
    Wrote-Left retry w w1 (stop crashed) safe whole h = tt
    Wrote-Left retry w w1 (again w2) safe whole (same, more) = (same.0 ∙ whole more, more)

    -- a target that is the source was loaded from its bytes
    abbrev Known : sys.Fs → Type 0
    Known w =
        is_source chosen ≡ true
        → is_partition source ≡ false
        → t ≡ source
        → (raw : List ℕ) × (content w t ≡ some raw) × Masks raw (to_use chosen).bytes

    Loaded-Known : (w w1 : sys.Fs) → content w1 t ≡ content w t → Loaded w → Known w1
    Loaded-Known w w1 same loaded used file e =
        let (raw, was, masks) = loaded used file in
        (raw, same ∙ subst (λ q. content w q ≡ some raw) (sym e) was, masks)

    -- the source is saved and deleted
    deleted-Safe :
        (w w1 : sys.Fs)
        → source ≢ cache_temp_source
        → content w1 t ≡ content w t
        → content w1 cache_temp_source ≡ some (to_use chosen).bytes
        → (t ≡ source → (raw : List ℕ) × (content w t ≡ some raw) × Masks raw (to_use chosen).bytes)
        → (t ≡ source) ⊎ (t ≢ source)
        → Safe w (sys.unlink source w1)
    deleted-Safe w w1 other kept saved known (inl e) =
        let w2 = sys.unlink source w1 in
        let unlinked = disk.unlinked source w1 in
        elim unlinked.1 [
          | inr failed_unlink ↦
              inl (subst (λ q. content w2 q ≡ content w1 q) (sym e) failed_unlink ∙ kept)
          | inl gone ↦
              let (raw, was, masks) = known e in
              inr (
                e,
                subst (λ q. content w2 q ≡ none) (sym e) gone,
                (
                  raw,
                  (to_use chosen).bytes,
                  was,
                  masks,
                  unlinked.0 cache_temp_source (λ q. other (sym q)) ∙ saved,
                ),
              )
        ]
    deleted-Safe w w1 other kept saved known (inr e) = inl ((disk.unlinked source w1).0 t e ∙ kept)

    Left-more :
        (a b : Bool) (w : sys.Fs) (r : Round sys.Fs)
        → (a ≡ true → b ≡ true)
        → Left a w r
        → Left b w r
    unfolding Left
    Left-more a b w (stop r) h l = l
    Left-more a b w (again w') h (kept, e) = (kept, h e)

    -- the branches of a round
    branches :
        (retry : Bool) (w : sys.Fs) (ready partition saved : Bool) (q r s u : Round sys.Fs)
        → Left retry w q
        → Left retry w r
        → Left retry w s
        → (ready ≡ false → partition ≡ false → saved ≡ true → Left retry w u)
        → Left retry w (if ready then q else if partition then r else if not saved then s else u)
    branches retry w true partition saved q r s u lq lr ls lu = lq
    branches retry w false true saved q r s u lq lr ls lu = lr
    branches retry w false false false q r s u lq lr ls lu = ls
    branches retry w false false true q r s u lq lr ls lu = lu refl refl refl

    -- the second round, if there is one
    third :
        (w w1 : sys.Fs) (r : Round sys.Fs)
        → content w1 t ≡ content w t
        → Left false w1 r
        → Final w (elim r as (λ _. Result sys.Fs) [ stop r ↦ r | again w2 ↦ crashed ])
    unfolding Left Final
    third w w1 (stop (returned code w2)) kept (inl (e, inl same)) = inl (e, inl (same ∙ kept))
    third w w1 (stop (returned code w2)) kept
          (inl (e, inr (is, gone, (raw, bytes, was, masks, saved)))) =
        inl (e, inr (is, gone, (raw, bytes, sym kept ∙ was, masks, saved)))
    third w w1 (stop (returned code w2)) kept (inr good) = inr good
    third w w1 (stop crashed) kept l = tt
    third w w1 (again w2) kept l = tt

    second :
        (w : sys.Fs) (r : Round sys.Fs)
        → Left true w r
        → ((w1 : sys.Fs)
            → content w1 t ≡ content w t
            → Left false w1 (
                file_round bz zlib rounds sha store source t target_sha1 target_size bonus chosen
                  false w1))
        → Final w (elim r as (λ _. Result sys.Fs) [
          | stop r ↦ r
          | again w1 ↦
              elim (file_round bz zlib rounds sha store source t target_sha1 target_size bonus
                  chosen false w1)
                as (λ _. Result sys.Fs) [ stop r ↦ r | again w2 ↦ crashed ]
        ])
    unfolding Left Final
    second w (stop r) l next = l
    second w (again w1) l next = third w w1 _ l.0 (next w1 l.0)

    file_round-Left :
        source ≢ cache_temp_source
        → (retry : Bool) (w : sys.Fs) → Known w
        → Left retry w (
            file_round bz zlib rounds sha store source t target_sha1 target_size bonus chosen retry
              w)
    unfolding file_round Left Final
    file_round-Left other retry w known =
        let enough = retry && is_enough (free_space_for_file sys w (target_fs t)) target_size in
        let backed = back_up bz zlib rounds sha store (to_use chosen) w in
        let kept =
          back_up-Only sys content store disk bz zlib rounds sha t (to_use chosen) w apart never in
        branches retry w (enough || not (is_source chosen)) (is_partition source) backed.0
          (write_patch bz zlib rounds sha store source t target_sha1 target_size bonus chosen enough
            false w)
          (stop (returned 1 w)) (stop (returned 1 backed.1))
          (write_patch bz zlib rounds sha store source t target_sha1 target_size bonus chosen false
            true (sys.unlink source backed.1))
          (Left-more enough retry w _ (λ e. ground arith)
            (Wrote-Left enough w w _ (inl refl) (λ e. refl) (write_patch-Wrote enough false w)))
          (inl (refl, inl refl)) (inl (refl, inl kept.0))
          (λ unready file saved.
            Left-more false retry w _ (λ e. absurd (clash e))
              (Wrote-Left false w (sys.unlink source backed.1) _
                (deleted-Safe w backed.1 other kept.0 (kept.1 saved)
                  (known (used (is_source chosen) enough unready) file) (names_decided t source))
                (λ e. absurd (clash e))
                (write_patch-Wrote false true (sys.unlink source backed.1))))
      where
        clash : false ≡ true → ⊥
        clash e = cc

        used : (b enough : Bool) → (enough || not b) ≡ false → b ≡ true
        used b enough e = ground arith

    -- Whatever call fails, `GenerateTarget` with a bsdiff patch for a file either returns 1 and
    -- leaves the target as it was, or deleted if it is the source, with the bytes that it had, the
    -- retouched entries masked, in the saved copy; or it returns 0 and the target has the digest asked
    -- for; or the patch crashes the decoder. The calls, of which any may fail, change the files that
    -- they name. If a source that is a file is used it was loaded from its bytes, with the retouched
    -- entries masked. Neither the source, the target nor the file beside it is the saved copy, and the
    -- target is not expendable.
    pub generate_file-Final :
        source ≢ cache_temp_source
        → (w : sys.Fs) → Loaded w
        → Final w
            (generate_file bz zlib rounds sha store source t target_sha1 target_size bonus chosen w)
    unfolding generate_file
    generate_file-Final other w loaded =
        second w
          (file_round bz zlib rounds sha store source t target_sha1 target_size bonus chosen true w)
          (file_round-Left other true w (Loaded-Known w w refl loaded))
          (λ w1 same. file_round-Left other false w1 (Loaded-Known w w1 same loaded))
