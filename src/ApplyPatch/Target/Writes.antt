-- ===== src/ApplyPatch/Target/Writes.antt =====
-- What the steps of applypatch/applypatch.c that write change: `FileSink`, `SaveFileContents`, and the
-- application of a bsdiff patch to a file.
use mathlib.Core.List.{Memᴰ}
use android_bootable_recover.Common.{
  ℕ, zero, suc, ◌≤◌, ◌≡◌, refl, sym, ap, ◌∙◌, subst, ◌≢◌, ◌⊎◌, inl, inr, true, false, Option, none,
  some, List, [], ◌∷◌, ◌++◌, append_assoc, append-nil, arith, leb, ◌==◌, if◌then◌else◌, ==_iff,
  Bool-cases, length, take, drop, length-drop,
}
use android_bootable_recover.Common.Int.{ltb_ℤ, pos}
use android_bootable_recover.Edify.Text.{CString, codes}
use android_bootable_recover.ApplyPatch.FreeCache.{free_space_for_file, System, cache_temp_source}
use android_bootable_recover.ApplyPatch.FreeCache.Expendable.{IsExpendable}
use android_bootable_recover.ApplyPatch.FreeCache.Deletions.{
  unlink_all, make_free_space_on_cache-Freed,
}
use android_bootable_recover.ApplyPatch.BsPatch
use android_bootable_recover.ApplyPatch.BsPatch.{bytes_eq, Bz}
use android_bootable_recover.ApplyPatch.ImgPatch.{
  Zlib, Output, Applied, applied, failed, fault, hang,
}
use android_bootable_recover.ApplyPatch.Load.{Meta, FileContents}
use android_bootable_recover.ApplyPatch.Load.Partition.{take_join}
use android_bootable_recover.ApplyPatch.Target.{
  Disk, file_sink, set_meta, save_file_contents, back_up,
}

zero_of : (k : ℕ) → (k == 0) ≡ true → k ≡ 0
zero_of k h = ground arith

equal_of : (a b : ℕ) → (a == b) ≡ true → a ≡ b
equal_of a b h = (==_iff a b).0 h

pub take-length : (xs : List ℕ) → take (length xs) xs ≡ xs
take-length [] = refl
take-length (x ∷ xs) = rw (take-length xs)

module _ (sys : System) (content : sys.Fs → CString → Option (List ℕ)) where
  -- nothing but this file was changed
  abbrev pub Only : CString → sys.Fs → sys.Fs → Type 0
  Only name w w' = (q : CString) → q ≢ name → content w' q ≡ content w q

  abbrev pub Unchanged : sys.Fs → sys.Fs → Type 0
  Unchanged w w' = (q : CString) → content w' q ≡ content w q

  -- The files as the calls of the system leave them. Each call may fail, `unlink` included.
  pub record IsDisk (store : Disk sys) : Type 0 where
    pub created :
        (n : CString) (w : sys.Fs)
        → Only n w (store.create n w).1
          × ((store.create n w).0 ≡ true → content (store.create n w).1 n ≡ some [])
    pub wrote :
        (n : CString) (d : List ℕ) (w : sys.Fs)
        → Only n w (store.write n d w).1
          × ((old : List ℕ)
              → content w n ≡ some old
              → content (store.write n d w).1 n ≡ some (old ++ take (store.write n d w).0 d))
          × ((store.write n d w).0 ≤ length d)
    pub moded : (n : CString) (mode : ℕ) (w : sys.Fs) → Unchanged w (store.chmod n mode w).1
    pub owned : (n : CString) (u g : ℕ) (w : sys.Fs) → Unchanged w (store.chown n u g w).1
    pub unlinked :
        (n : CString) (w : sys.Fs)
        → Only n w (sys.unlink n w)
          × ((content (sys.unlink n w) n ≡ none) ⊎ (content (sys.unlink n w) n ≡ content w n))
    pub renamed :
        (a b : CString) (w : sys.Fs)
        → ((store.rename a b w).0 ≡ true
            → (content (store.rename a b w).1 b ≡ content w a)
              × ((q : CString) → q ≢ a → q ≢ b → content (store.rename a b w).1 q ≡ content w q))
          × ((store.rename a b w).0 ≡ false → Unchanged w (store.rename a b w).1)

  module _ (store : Disk sys) (disk : IsDisk store) where
    abbrev pub Sunk : CString → List ℕ → sys.Fs → ℕ × sys.Fs → Type 0
    Sunk name data' w r =
        Only name w r.1
        × ((old : List ℕ)
            → content w name ≡ some old
            → content r.1 name ≡ some (old ++ take r.0 data'))
        × (r.0 ≤ length data')

    pub file_sink-Sunk :
        (fuel : ℕ) (name : CString) (data' : List ℕ) (w : sys.Fs)
        → Sunk name data' w (file_sink store fuel name data' w)
    unfolding file_sink
    file_sink-Sunk fuel name [] w =
        (λ q h. refl, λ old h. h ∙ ap some (sym (append-nil old)), omega arith)
    file_sink-Sunk zero name (b ∷ data') w =
        (λ q h. refl, λ old h. h ∙ ap some (sym (append-nil old)), omega arith)
    file_sink-Sunk (suc fuel) name (b ∷ data') w =
        let k = (store.write name (b ∷ data') w).0 in
        let w1 = (store.write name (b ∷ data') w).1 in
        let first = disk.wrote name (b ∷ data') w in
        let r = file_sink store fuel name (drop k (b ∷ data')) w1 in
        let rest = file_sink-Sunk fuel name (drop k (b ∷ data')) w1 in
        elim (Bool-cases (k == 0)) [
          | inl zero' ↦ rw zero' (
            first.0,
            λ old h. first.1 old h ∙ ap (λ n. some (old ++ take n (b ∷ data'))) (zero_of k zero'),
            omega arith,
          )
          | inr some' ↦ rw some' (
            λ q h. rest.0 q h ∙ first.0 q h,
            λ old h.
                rest.1 (old ++ take k (b ∷ data')) (first.1 old h)
                ∙ ap some (
                    append_assoc old (take k (b ∷ data')) (take r.0 (drop k (b ∷ data')))
                    ∙ ap (λ l. old ++ l) (take_join k r.0 (b ∷ data'))),
            omega (arith, first.2, rest.2, length-drop k (b ∷ data')),
          )
        ]

    pub set_meta-Unchanged :
        (name : CString) (st : Meta) (w : sys.Fs) → Unchanged w (set_meta store name st w).1
    unfolding set_meta
    set_meta-Unchanged name st w q =
        let m = disk.moded name st.st_mode w q in
        let o = disk.owned name st.st_uid st.st_gid (store.chmod name st.st_mode w).1 q in
        elim (Bool-cases (store.chmod name st.st_mode w).0) [
          | inl done ↦ rw done (o ∙ m)
          | inr not_done ↦ rw not_done m
        ]

    -- A save that succeeds leaves the bytes of the file under the name, and nothing else changes.
    save-Only :
        (name : CString) (file : FileContents) (w : sys.Fs)
        → Only name w (save_file_contents store name file w).1
          × ((save_file_contents store name file w).0 ≡ true
              → content (save_file_contents store name file w).1 name ≡ some file.bytes)
    unfolding save_file_contents
    save-Only name file w =
        let opened = disk.created name w in
        let w1 = (store.create name w).1 in
        let r = file_sink store (length file.bytes) name file.bytes w1 in
        let sunk = file_sink-Sunk (length file.bytes) name file.bytes w1 in
        let set = set_meta-Unchanged name file.st r.1 in
        elim (Bool-cases (store.create name w).0) [
          | inr closed ↦ rw closed (opened.0, λ e. absurd (clash e))
          | inl open' ↦ elim (Bool-cases (r.0 == length file.bytes)) [
            | inr short ↦
                rw (open', short) (λ q h. sunk.0 q h ∙ opened.0 q h, λ e. absurd (clash e))
            | inl whole ↦
                rw (open', whole)
                  (
                    λ q h. set q ∙ sunk.0 q h ∙ opened.0 q h,
                    λ e.
                        set name
                        ∙ sunk.1 [] (opened.1 open')
                        ∙ ap some (
                            ap (λ n. take n file.bytes) (equal_of _ _ whole)
                            ∙ take-length file.bytes),
                  )
          ]
        ]
      where
        clash : false ≡ true → ⊥
        clash e = cc

    -- room is made on /cache by deleting expendable files
    unlink_all-same :
        (t : CString) (ds : List CString) (w : sys.Fs)
        → ((d : CString) → Memᴰ d ds → t ≢ d)
        → content (unlink_all sys ds w) t ≡ content w t
    unlink_all-same t [] w h = refl
    unlink_all-same t (d ∷ ds) w h =
        unlink_all-same t ds (sys.unlink d w) (λ e m. h e (Memᴰ.tail m))
        ∙ (disk.unlinked d w).0 t (h d (Memᴰ.head refl))

    module _ (bz : Bz) (zlib : Zlib) (rounds : ℕ) (sha : List ℕ → List ℕ) where
      pub back_up-Only :
          (t : CString) (file : FileContents) (w : sys.Fs)
          → t ≢ cache_temp_source
          → ((w : sys.Fs) → IsExpendable sys w t → ⊥)
          → (content (back_up bz zlib rounds sha store file w).1 t ≡ content w t)
            × ((back_up bz zlib rounds sha store file w).0 ≡ true
                → content (back_up bz zlib rounds sha store file w).1 cache_temp_source
                  ≡ some file.bytes)
      unfolding back_up
      back_up-Only t file w apart never =
          let (ds, freed) = make_free_space_on_cache-Freed sys (length file.bytes) w in
          let w1 = unlink_all sys ds w in
          let kept : content w1 t ≡ content w t =
            unlink_all-same t ds w
              (λ d m e. never w (subst (IsExpendable sys w) (sym e) (freed.allowed d m).0)) in
          let saved = save-Only cache_temp_source file w1 in
          elim (Bool-cases
            (leb (length file.bytes) (free_space_for_file sys w1 (codes "/cache")))) [
              | inl room ↦ rw (freed.outcome, room) (saved.0 t apart ∙ kept, saved.1)
              | inr none_left ↦ rw (freed.outcome, none_left) (kept, λ e. absurd (clash e))
            ]
        where
          clash : false ≡ true → ⊥
          clash e = cc

      -- what applying a patch to a file leaves, when the file was empty
      unfoldable pub Applies : CString → sys.Fs → Applied (Output sys.Fs) sys.Fs → Type 0
      Applies name w (applied out) =
          Only name w out.token × (content out.token name ≡ some out.hashed)
      Applies name w (failed out) = Only name w out.token
      Applies name w fault = Unit
      Applies name w hang = Unit

      abbrev written_to : CString → sys.Fs → List ℕ → ℕ × sys.Fs
      written_to name w new = file_sink store (length new) name new w

      pub written_to-Applies :
          (name : CString) (w : sys.Fs)
          → content w name ≡ some []
          → (o : BsPatch.Outcome (List ℕ))
          → Applies name w (elim o as (λ _. Applied (Output sys.Fs) sys.Fs) [
            | BsPatch.done new ↦
                if ltb_ℤ (pos (written_to name w new).0) (pos (length new))
                then failed (record { token = (written_to name w new).1; hashed = [] })
                else applied (record { token = (written_to name w new).1; hashed = [] ++ new })
            | BsPatch.corrupt ↦ failed (record { token = w; hashed = [] })
            | BsPatch.fault ↦ fault
            | BsPatch.hang ↦ hang
          ])
      unfolding Applies
      written_to-Applies name w empty (BsPatch.done new) =
          let sunk = file_sink-Sunk (length new) name new w in
          elim (Bool-cases (ltb_ℤ (pos (written_to name w new).0) (pos (length new)))) [
            | inl short ↦ rw short sunk.0
            | inr whole ↦
                let all : (written_to name w new).0 ≡ length new = whole_of _ _ whole sunk.2 in
                rw whole
                  (sunk.0, sunk.1 [] empty ∙ ap some (ap (λ n. take n new) all ∙ take-length new))
          ]
        where
          whole_of : (a b : ℕ) → ltb_ℤ (pos a) (pos b) ≡ false → a ≤ b → a ≡ b
          whole_of a b h k = ground arith
      written_to-Applies name w empty BsPatch.corrupt = λ q h. refl
      written_to-Applies name w empty BsPatch.fault = tt
      written_to-Applies name w empty BsPatch.hang = tt
