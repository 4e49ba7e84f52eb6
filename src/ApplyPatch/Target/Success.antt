-- ===== src/ApplyPatch/Target/Success.antt =====
-- A run of `GenerateTarget` of applypatch/applypatch.c in which every call succeeds.
use android_bootable_recover.Common.{
  ℕ, zero, suc, ◌+◌, ◌≡◌, refl, ap, ◌∙◌, true, false, ◌&&◌, Option, some, List, [], ◌∷◌, arith, leb,
  ◌==◌, if◌then◌else◌, length, take, drop,
}
use android_bootable_recover.Edify.Text.{CString, codes}
use android_bootable_recover.ApplyPatch.FreeCache.{free_space_for_file, System}
use android_bootable_recover.ApplyPatch.BsPatch
use android_bootable_recover.ApplyPatch.BsPatch.{bytes_eq, Bz}
use android_bootable_recover.ApplyPatch.ImgPatch.{Zlib, Output, apply_bs_diff_patch}
use android_bootable_recover.ApplyPatch.Sha.Matching.{bytes_eq_refl}
use android_bootable_recover.ApplyPatch.Load.{Meta}
use android_bootable_recover.ApplyPatch.Target.{
  pos, file_sink, is_enough, target_fs, to_use, finish, patch_name, patch_of, Chosen, Disk,
  set_meta,
}
use android_bootable_recover.ApplyPatch.Target.{
  Chosen, patch_of, to_use, patch_name, returned, stop, finish, write_patch, file_round,
  generate_file, apply_patch,
}
use android_bootable_recover.ApplyPatch.Target.Writes.{
  file_sink-Sunk, take-length, IsDisk, set_meta-Unchanged,
}
use android_bootable_recover.ApplyPatch.BsPatch.{bytes_eq, apply_bs_diff_patch_mem}
use android_bootable_recover.Common.Int.{ltb_ℤ}

drop_all : (xs : List ℕ) → drop (length xs) xs ≡ []
drop_all [] = refl
drop_all (x ∷ xs) = drop_all xs

module _ (sys : System) (content : sys.Fs → CString → Option (List ℕ)) (store : Disk sys)
    (disk : IsDisk sys content store) where
  -- every call on files succeeds, and a write takes all it is given
  pub record Works : Type 0 where
    pub creates : (n : CString) (w : sys.Fs) → (store.create n w).0 ≡ true
    pub writes : (n : CString) (d : List ℕ) (w : sys.Fs) → (store.write n d w).0 ≡ length d
    pub chmods : (n : CString) (mode : ℕ) (w : sys.Fs) → (store.chmod n mode w).0 ≡ true
    pub chowns : (n : CString) (u g : ℕ) (w : sys.Fs) → (store.chown n u g w).0 ≡ true
    pub renames : (a b : CString) (w : sys.Fs) → (store.rename a b w).0 ≡ true

  module _ (works : Works) where
    sink_none : (fuel : ℕ) (name : CString) (w : sys.Fs) → file_sink store fuel name [] w ≡ (0, w)
    unfolding file_sink
    sink_none zero name w = refl
    sink_none (suc fuel) name w = refl

    -- a write that takes all there is
    one_write :
        (k n : ℕ) (l : List ℕ) (name : CString) (w : sys.Fs)
        → k ≡ suc n
        → (file_sink store n name (drop (suc n) l) w).0 ≡ 0
        → (if◌then◌else◌ {A = ℕ × sys.Fs}
            (k == 0)
            (0, w)
            (
              k + (file_sink store n name (drop k l) w).0,
              (file_sink store n name (drop k l) w).1,
            )).0
          ≡ suc n
    one_write zero n l name w e rest = absurd (omega arith)
    one_write (suc k) n l name w e rest =
        let more : (suc k == 0) ≡ false = ground arith in rw (more, e, rest) (omega arith)

    sink_whole :
        (name : CString) (d : List ℕ) (w : sys.Fs)
        → (file_sink store (length d) name d w).0 ≡ length d
    unfolding file_sink
    sink_whole name [] w = refl
    sink_whole name (b ∷ d) w =
        let w1 = (store.write name (b ∷ d) w).1 in
        let none_left : drop (length (b ∷ d)) (b ∷ d) ≡ [] = drop_all (b ∷ d) in
        let rest : (file_sink store (length d) name (drop (length (b ∷ d)) (b ∷ d)) w1).0 ≡ 0 =
          ap (λ l. (file_sink store (length d) name l w1).0) none_left
          ∙ ap (λ (r : ℕ × sys.Fs). r.0) (sink_none (length d) name w1) in
        one_write (store.write name (b ∷ d) w).0 (length d) (b ∷ d) name w1
          (works.writes name (b ∷ d) w) rest

    meta_set : (name : CString) (st : Meta) (w : sys.Fs) → (set_meta store name st w).0 ≡ true
    unfolding set_meta
    meta_set name st w =
        rw (works.chmods name st.st_mode w)
          (works.chowns name st.st_uid st.st_gid (store.chmod name st.st_mode w).1)

    module _ (bz : Bz) (zlib : Zlib) (rounds : ℕ) (sha : List ℕ → List ℕ) (source t : CString)
        (target_sha1 : List ℕ) (target_size : ℕ) (bonus : Option (List ℕ)) (chosen : Chosen) where
      finish_works :
          (out : Output sys.Fs)
          → sha out.hashed ≡ target_sha1
          → (w' : sys.Fs) × (finish bz zlib rounds sha store source t target_sha1 target_size bonus
                chosen false out
              ≡ returned 0 w')
            × (content w' t ≡ content out.token (patch_name t))
      unfolding finish
      finish_works out e =
          let name = patch_name t in
          let w1 = (set_meta store name (to_use chosen).st out.token).1 in
          let match : bytes_eq (sha out.hashed) target_sha1 ≡ true =
            rw e (bytes_eq_refl target_sha1) in
          let renamed = works.renames name t w1 in
          (
            (store.rename name t w1).1,
            rw (match, meta_set name (to_use chosen).st out.token, renamed),
            ((disk.renamed name t w1).0 renamed).0
                ∙ set_meta-Unchanged sys content store disk name (to_use chosen).st out.token name,
          )

      -- With room enough, and a bsdiff patch that makes bytes of the digest asked for out of the
      -- file that is used, `GenerateTarget` returns 0 in its first round, and the target has these
      -- bytes, if every call on files succeeds and changes the files that it names.
      pub generate_file-success :
          (w : sys.Fs) (new : List ℕ)
          → is_enough (free_space_for_file sys w (target_fs t)) target_size ≡ true
          → (patch_of chosen).is_blob ≡ true
          → (leb 8 (length (patch_of chosen).bytes)
              && bytes_eq (take 8 (patch_of chosen).bytes) (codes "BSDIFF40"))
            ≡ true
          → apply_bs_diff_patch_mem bz rounds rounds (to_use chosen).bytes (patch_of chosen).bytes 0
            ≡ BsPatch.done new
          → sha new ≡ target_sha1
          → (w' : sys.Fs) × (generate_file bz zlib rounds sha store source t target_sha1 target_size
                bonus chosen w
              ≡ returned 0 w')
            × (content w' t ≡ some new)
      unfolding generate_file file_round write_patch apply_patch apply_bs_diff_patch
      generate_file-success w new room blob bsdiff patched e =
          let name = patch_name t in
          let w1 = (store.create name w).1 in
          let created = disk.created name w in
          let opened = works.creates name w in
          let sent = file_sink store (length new) name new w1 in
          let full : ltb_ℤ (pos sent.0) (pos (length new)) ≡ false =
            not_less sent.0 (length new) (sink_whole name new w1) in
          let sunk = file_sink-Sunk sys content store disk (length new) name new w1 in
          let there : content sent.1 name ≡ some new =
            sunk.1 [] (created.1 opened)
            ∙ ap some (ap (λ n. take n new) (sink_whole name new w1) ∙ take-length new) in
          let out : Output sys.Fs = record { token = sent.1; hashed = new } in
          let (w', run, same_bytes) = finish_works out e in
          let wrote : write_patch bz zlib rounds sha store source t target_sha1 target_size bonus
                chosen true false w
              ≡ stop (
                  finish bz zlib rounds sha store source t target_sha1 target_size bonus chosen
                    false out) =
            rw (
              write_patch, blob, opened, apply_patch, bsdiff, apply_bs_diff_patch, patched, full,
            ) in
          let round : file_round bz zlib rounds sha store source t target_sha1 target_size bonus
                chosen true w
              ≡ stop (returned 0 w') =
            rw (file_round, room)
              (ap
                  (λ b.
                    write_patch bz zlib rounds sha store source t target_sha1 target_size bonus
                      chosen b false w)
                  room
                ∙ wrote
                ∙ ap stop run) in
          (w', rw (generate_file, round), same_bytes ∙ there)
        where
          not_less : (a b : ℕ) → a ≡ b → ltb_ℤ (pos a) (pos b) ≡ false
          not_less a b e = ground arith
