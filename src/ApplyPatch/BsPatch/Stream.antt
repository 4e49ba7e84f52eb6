-- ===== src/ApplyPatch/BsPatch/Stream.antt =====
-- What applypatch/bspatch.c relies on in libbz2, and what its `FillBuffer` then does.
use android_bootable_recover.Common.{
  ℕ, zero, suc, ◌-◌, ◌≤◌, ◌<◌, ◌≡◌, refl, ap, true, List, [], ◌∷◌, ◌++◌, arith, length,
  length-append, take, drop,
}
use android_bootable_recover.ApplyPatch.BsPatch.{Bz, done, ◌>>=◌, fill_buffer}

-- The documented behaviour on an intact block: `pending` is what is still to come; a call with room
-- succeeds while something is pending, and puts out some of it, no more than there is room for.
pub record Decodes (bz : Bz) : Type 0 where
  pub pending : Bz.Stream bz → List ℕ
  pub succeeds :
      (n : ℕ) (s : Bz.Stream bz) → 0 < n → 0 < length (pending s) → (bz.decompress n s).2 ≡ true
  pub progress :
      (n : ℕ) (s : Bz.Stream bz) → 0 < n → 0 < length (pending s) → 0 < length (bz.decompress n s).0
  pub fits : (n : ℕ) (s : Bz.Stream bz) → length (bz.decompress n s).0 ≤ n
  pub delivers :
      (n : ℕ) (s : Bz.Stream bz)
      → (bz.decompress n s).0 ++ pending (bz.decompress n s).1 ≡ pending s

module _ {A : Type 0} where
  pub take-append_long :
      (n : ℕ) (xs ys : List A) → length xs ≤ n → take n (xs ++ ys) ≡ xs ++ take (n - length xs) ys
  take-append_long zero [] ys h = refl
  take-append_long zero (x ∷ xs) ys h = absurd (omega arith)
  take-append_long (suc n) [] ys h = let e : suc n - 0 ≡ suc n = omega arith in rw e
  take-append_long (suc n) (x ∷ xs) ys h =
      let e : suc n - suc (length xs) ≡ n - length xs = omega arith in
      rw (e, take-append_long n xs ys (omega arith))

  pub drop-append_long :
      (n : ℕ) (xs ys : List A) → length xs ≤ n → drop n (xs ++ ys) ≡ drop (n - length xs) ys
  drop-append_long zero [] ys h = refl
  drop-append_long zero (x ∷ xs) ys h = absurd (omega arith)
  drop-append_long (suc n) [] ys h = let e : suc n - 0 ≡ suc n = omega arith in rw e
  drop-append_long (suc n) (x ∷ xs) ys h =
      let e : suc n - suc (length xs) ≡ n - length xs = omega arith in
      rw (e, drop-append_long n xs ys (omega arith))

  pub take-append_exact : (n : ℕ) (xs ys : List A) → length xs ≡ n → take n (xs ++ ys) ≡ xs
  take-append_exact zero [] ys h = refl
  take-append_exact zero (x ∷ xs) ys h = absurd (omega arith)
  take-append_exact (suc n) [] ys h = absurd (omega arith)
  take-append_exact (suc n) (x ∷ xs) ys h =
      ap (λ l. x ∷ l) (take-append_exact n xs ys (omega arith))

  pub drop-append_exact : (n : ℕ) (xs ys : List A) → length xs ≡ n → drop n (xs ++ ys) ≡ ys
  drop-append_exact zero [] ys h = refl
  drop-append_exact zero (x ∷ xs) ys h = absurd (omega arith)
  drop-append_exact (suc n) [] ys h = absurd (omega arith)
  drop-append_exact (suc n) (x ∷ xs) ys h = drop-append_exact n xs ys (omega arith)

module _ {bz : Bz} (d : Decodes bz) where
  -- Of an intact stream `FillBuffer` reads exactly the bytes asked for, within as many calls as there
  -- are bytes, and leaves the others.
  pub fill_buffer-take :
      (rounds size : ℕ) (s : Bz.Stream bz)
      → size ≤ rounds
      → size ≤ length (d.pending s)
      → (s' : Bz.Stream bz) × (fill_buffer bz rounds size s ≡ done (take size (d.pending s), s'))
        × (d.pending s' ≡ drop size (d.pending s))
  unfolding fill_buffer
  fill_buffer-take rounds zero s h k = (s, refl, refl)
  fill_buffer-take zero (suc size) s h k = absurd (omega arith)
  fill_buffer-take (suc rounds) (suc size) s h k =
      let r = bz.decompress (suc size) s in
      let fits = d.fits (suc size) s in
      let delivers = d.delivers (suc size) s in
      let progress = d.progress (suc size) s (omega arith) (omega arith) in
      let total = length-append r.0 (d.pending r.1) in
      let (s', p, q) =
        fill_buffer-take rounds (suc size - length r.0) r.1 (omega arith)
          (omega (arith, ap length delivers)) in
      (
        s',
        rw (
          d.succeeds (suc size) s (omega arith) (omega arith),
          p,
          ◌>>=◌,
          ← delivers,
          take-append_long (suc size) r.0 (d.pending r.1) fits,
        ),
        rw (q, ← delivers, drop-append_long (suc size) r.0 (d.pending r.1) fits),
      )
