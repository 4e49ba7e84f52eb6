-- ===== src/ApplyPatch/ImgPatch/Mirror.antt =====
-- What applypatch/imgpatch.c passes to the sink and to the context of SHA-1, for any patch.
use android_bootable_recover.Common.{
  ℕ, zero, suc, ◌+◌, ◌≡◌, refl, sym, ap, ◌∙◌, inl, inr, Bool, true, false, Option, none, some, List,
  [], ◌++◌, append_assoc, append-nil, arith, ltb, ◌==◌, if◌then◌else◌, Bool-cases, length, take,
  drop,
}
use android_bootable_recover.Common.Int.{ℤ, pos, negsuc, ltb_ℤ}
use android_bootable_recover.ApplyPatch.BsPatch
use android_bootable_recover.ApplyPatch.BsPatch.{bytes_eq, Bz, apply_bs_diff_patch_mem}
use android_bootable_recover.ApplyPatch.ImgPatch.{
  Zlib, Output, Applied, applied, failed, fault, hang, ◌>>=◌, size_field, int_field, magic,
  apply_bs_diff_patch, ignore_result, normal_chunk, raw_data, raw_chunk, deflate_loop, expand,
  deflation, deflate_chunk, chunk_of, chunk, bonus_of, chunks, chunk_count, apply_image_patch,
}

module _ (bz : Bz) (zlib : Zlib) {T : Type 0} (sink : List ℕ → T → T × ℤ) (rounds : ℕ)
    (holds : T → List ℕ)
    (appends : (bs : List ℕ) (t : T)
      → ((sink bs t).1 ≡ pos (length bs)) × (holds (sink bs t).0 ≡ holds t ++ bs)) where
  -- From one output to the next the sink and the context got the same bytes.
  abbrev pub Mirrored : Output T → Output T → Type 0
  Mirrored out out' =
      (more : List ℕ) × (holds out'.token ≡ holds out.token ++ more)
      × (out'.hashed ≡ out.hashed ++ more)

  -- So at an end with success, and at one with a failure.
  unfoldable pub Ends : {A : Type 0} → (A → Output T) → Output T → Applied A T → Type 0
  Ends of out (applied a) = Mirrored out (of a)
  Ends of out (failed out') = Mirrored out out'
  Ends of out fault = Unit
  Ends of out hang = Unit

  abbrev pub whole : Output T → Output T
  whole out = out

  abbrev behind : ℕ × Output T → Output T
  behind r = r.1

  Mirrored-refl : (out : Output T) → Mirrored out out
  Mirrored-refl out = ([], sym (append-nil (holds out.token)), sym (append-nil out.hashed))

  Mirrored-trans : (a b c : Output T) → Mirrored a b → Mirrored b c → Mirrored a c
  Mirrored-trans a b c (xs, p, q) (ys, r, s) = (
    xs ++ ys,
    r ∙ ap (λ l. l ++ ys) p ∙ append_assoc (holds a.token) xs ys,
    s ∙ ap (λ l. l ++ ys) q ∙ append_assoc a.hashed xs ys,
  )

  Ends-trans :
      {A : Type 0} (of : A → Output T) (a b : Output T) (r : Applied A T)
      → Mirrored a b
      → Ends of b r
      → Ends of a r
  unfolding Ends
  Ends-trans of a b (applied x) m h = Mirrored-trans a b (of x) m h
  Ends-trans of a b (failed out) m h = Mirrored-trans a b out m h
  Ends-trans of a b fault m h = tt
  Ends-trans of a b hang m h = tt

  Ends-bind :
      {A B : Type 0} (of : A → Output T) (of' : B → Output T) (out : Output T) (r : Applied A T)
      (f : A → Applied B T)
      → Ends of out r
      → ((a : A) → Ends of' (of a) (f a))
      → Ends of' out (r >>= f)
  unfolding Ends
  Ends-bind of of' out (applied a) f h k = Ends-trans of' out (of a) (f a) h (k a)
  Ends-bind of of' out (failed o) f h k = h
  Ends-bind of of' out fault f h k = tt
  Ends-bind of of' out hang f h k = tt

  -- bytes that were sent and hashed
  sent :
      (bs : List ℕ) (out : Output T)
      → Mirrored out (record { token = (sink bs out.token).0; hashed = out.hashed ++ bs })
  sent bs out = (bs, (appends bs out.token).1, refl)

  patched-Ends :
      (out : Output T) (o : BsPatch.Outcome (List ℕ))
      → Ends whole out (elim o as (λ _. Applied (Output T) T) [
        | BsPatch.done new ↦
            if ltb_ℤ (sink new out.token).1 (pos (length new))
            then failed (record out { token = (sink new out.token).0 })
            else applied (record { token = (sink new out.token).0; hashed = out.hashed ++ new })
        | BsPatch.corrupt ↦ failed out
        | BsPatch.fault ↦ fault
        | BsPatch.hang ↦ hang
      ])
  unfolding Ends
  patched-Ends out (BsPatch.done new) =
      let full : ltb_ℤ (pos (length new)) (pos (length new)) ≡ false = ground arith in
      rw ((appends new out.token).0, full) (sent new out)
  patched-Ends out BsPatch.corrupt = Mirrored-refl out
  patched-Ends out BsPatch.fault = tt
  patched-Ends out BsPatch.hang = tt

  pub apply_bs_diff_patch-Ends :
      (old patch : List ℕ) (at : ℕ) (out : Output T)
      → Ends whole out (apply_bs_diff_patch bz zlib sink rounds old patch at out)
  unfolding apply_bs_diff_patch
  apply_bs_diff_patch-Ends old patch at out =
      patched-Ends out (apply_bs_diff_patch_mem bz rounds rounds old patch at)

  ignored-Ends :
      (out : Output T) (r : Applied (Output T) T)
      → Ends whole out r
      → Ends whole out (ignore_result bz zlib sink rounds r)
  unfolding Ends
  ignored-Ends out (applied o) h = h
  ignored-Ends out (failed o) h = h
  ignored-Ends out fault h = tt
  ignored-Ends out hang h = tt

  normal_chunk-Ends :
      (old patch : List ℕ) (at : ℕ) (out : Output T)
      → Ends behind out (normal_chunk bz zlib sink rounds old patch at out)
  unfolding normal_chunk Ends
  normal_chunk-Ends old patch at out = elim (Bool-cases (ltb (length patch) (at + 24))) [
    | inl short ↦ rw short (Mirrored-refl out)
    | inr long ↦
        elim (Bool-cases (ltb (length old) (size_field patch at + size_field patch (at + 8)))) [
          | inl beyond ↦ rw (long, beyond) tt
          | inr ranged ↦
              rw (long, ranged)
                (Ends-bind whole behind out _ (λ o. applied (at + 24, o))
                  (ignored-Ends out _ (
                    apply_bs_diff_patch-Ends
                      (take (size_field patch (at + 8)) (drop (size_field patch at) old)) patch
                      (size_field patch (at + 16)) out))
                  (λ o. Mirrored-refl o))
        ]
  ]

  raw_data-Ends :
      (patch : List ℕ) (at : ℕ) (n : ℤ) (out : Output T)
      → Ends behind out (raw_data bz zlib sink rounds patch at n out)
  unfolding Ends
  raw_data-Ends patch at (negsuc n) out = tt
  raw_data-Ends patch at (pos n) out =
      let bs = take n (drop at patch) in
      let full : (length bs == length bs) ≡ true = ground arith in
      elim (Bool-cases (ltb (length patch) (at + n))) [
        | inl short ↦ rw short (Mirrored-refl out)
        | inr long ↦ rw (long, (appends bs out.token).0, full) (sent bs out)
      ]

  raw_chunk-Ends :
      (patch : List ℕ) (at : ℕ) (out : Output T)
      → Ends behind out (raw_chunk bz zlib sink rounds patch at out)
  unfolding raw_chunk Ends
  raw_chunk-Ends patch at out = elim (Bool-cases (ltb (length patch) (at + 4))) [
    | inl short ↦ rw short (Mirrored-refl out)
    | inr long ↦ rw long (raw_data-Ends patch (at + 4) (int_field patch at) out)
  ]

  deflate_loop-Ends :
      (n size : ℕ) (strm : Zlib.Stream zlib) (out : Output T)
      → Ends whole out (deflate_loop bz zlib sink rounds n size strm out)
  unfolding deflate_loop Ends
  deflate_loop-Ends zero size strm out = tt
  deflate_loop-Ends (suc n) size strm out =
      let have = (zlib.deflate size strm).0 in
      let strm' = (zlib.deflate size strm).1 in
      let out' : Output T = record {
        token = (sink have out.token).0;
        hashed = out.hashed ++ have;
      } in
      let full : (length have == length have) ≡ true = ground arith in
      elim (Bool-cases (zlib.deflate size strm).2) [
        | inl end ↦ rw ((appends have out.token).0, full, end) (sent have out)
        | inr more ↦
            rw ((appends have out.token).0, full, more)
              (Ends-trans whole out out' _ (sent have out) (deflate_loop-Ends n size strm' out'))
      ]

  recompressed-Ends :
      (patch : List ℕ) (at size : ℕ) (out : Output T) (o : BsPatch.Outcome (List ℕ))
      → Ends behind out (elim o as (λ _. Applied (ℕ × Output T) T) [
        | BsPatch.done target ↦
            deflate_loop bz zlib sink rounds rounds size
              (zlib.deflate_init (deflation bz zlib sink rounds patch at) target)
              out
            >>= λ o. applied (at + 60, o)
        | BsPatch.corrupt ↦ failed out
        | BsPatch.fault ↦ fault
        | BsPatch.hang ↦ hang
      ])
  unfolding Ends
  recompressed-Ends patch at size out (BsPatch.done target) =
      Ends-bind whole behind out _ (λ o. applied (at + 60, o))
        (deflate_loop-Ends rounds size
          (zlib.deflate_init (deflation bz zlib sink rounds patch at) target) out)
        (λ o. Mirrored-refl o)
  recompressed-Ends patch at size out BsPatch.corrupt = Mirrored-refl out
  recompressed-Ends patch at size out BsPatch.fault = tt
  recompressed-Ends patch at size out BsPatch.hang = tt

  -- A step that sends nothing is followed by one that ends well.
  expand-then :
      (source : List ℕ) (n : ℕ) (bonus : List ℕ) (out : Output T)
      (f : List ℕ → Applied (ℕ × Output T) T)
      → ((expanded : List ℕ) → Ends behind out (f expanded))
      → Ends behind out (expand bz zlib sink rounds source n bonus out >>= f)
  unfolding expand Ends
  expand-then source n bonus out f h = inflated (zlib.inflate n source)
    where
      filled :
          (b : Bool) (bs : List ℕ)
          → Ends behind out ((if b then applied (bs ++ bonus) else failed out) >>= f)
      filled true bs = h (bs ++ bonus)
      filled false bs = Mirrored-refl out

      inflated :
          (r : Option (List ℕ))
          → Ends behind out (
              (elim r as (λ _. Applied (List ℕ) T) [
                | none ↦ failed out
                | some bs ↦
                    if length bs + length bonus == n then applied (bs ++ bonus) else failed out
              ])
              >>= f)
      inflated none = Mirrored-refl out
      inflated (some bs) = filled (length bs + length bonus == n) bs

  deflate_chunk-Ends :
      (bonus old patch : List ℕ) (at : ℕ) (out : Output T)
      → Ends behind out (deflate_chunk bz zlib sink rounds bonus old patch at out)
  unfolding deflate_chunk Ends
  deflate_chunk-Ends bonus old patch at out = elim (Bool-cases (ltb (length patch) (at + 60))) [
    | inl short ↦ rw short (Mirrored-refl out)
    | inr long ↦
        elim (Bool-cases (ltb (length old) (size_field patch at + size_field patch (at + 8)))) [
          | inl beyond ↦ rw (long, beyond) tt
          | inr ranged ↦
              rw (long, ranged)
                (expand-then _ _ bonus out _ (λ source. recompressed-Ends patch at _ out _))
        ]
  ]

  chunk_of-Ends :
      (kind : ℤ) (bonus old patch : List ℕ) (at : ℕ) (out : Output T)
      → Ends behind out (chunk_of bz zlib sink rounds kind bonus old patch at out)
  unfolding Ends
  chunk_of-Ends (pos zero) bonus old patch at out = normal_chunk-Ends old patch at out
  chunk_of-Ends (pos (suc zero)) bonus old patch at out = Mirrored-refl out
  chunk_of-Ends (pos (suc (suc zero))) bonus old patch at out =
      deflate_chunk-Ends bonus old patch at out
  chunk_of-Ends (pos (suc (suc (suc zero)))) bonus old patch at out = raw_chunk-Ends patch at out
  chunk_of-Ends (pos (suc (suc (suc (suc n))))) bonus old patch at out = Mirrored-refl out
  chunk_of-Ends (negsuc n) bonus old patch at out = Mirrored-refl out

  chunk-Ends :
      (bonus old patch : List ℕ) (at : ℕ) (out : Output T)
      → Ends behind out (chunk bz zlib sink rounds bonus old patch at out)
  unfolding chunk Ends
  chunk-Ends bonus old patch at out = elim (Bool-cases (ltb (length patch) (at + 4))) [
    | inl short ↦ rw short (Mirrored-refl out)
    | inr long ↦ rw long (chunk_of-Ends (int_field patch at) bonus old patch (at + 4) out)
  ]

  chunks-Ends :
      (n i : ℕ) (bonus : Option (List ℕ)) (old patch : List ℕ) (at : ℕ) (out : Output T)
      → Ends whole out (chunks bz zlib sink rounds n i bonus old patch at out)
  unfolding chunks Ends
  chunks-Ends zero i bonus old patch at out = Mirrored-refl out
  chunks-Ends (suc n) i bonus old patch at out =
      Ends-bind behind whole out _ _
        (chunk-Ends (bonus_of bz zlib sink rounds i bonus) old patch at out)
        (λ r. chunks-Ends n (i + 1) bonus old patch r.0 r.1)

  -- For any patch of an image, of normal, raw and deflate chunks, a wrong one too, the bytes that are
  -- hashed are the bytes that the sink got, in the same order, when it succeeds and when it fails.
  -- The sink takes all it is given.
  pub apply_image_patch-Mirrored :
      (bonus : Option (List ℕ)) (old patch : List ℕ) (out : Output T)
      → Ends whole out (apply_image_patch bz zlib sink rounds bonus old patch out)
  unfolding apply_image_patch Ends
  apply_image_patch-Mirrored bonus old patch out = elim (Bool-cases (ltb (length patch) 12)) [
    | inl short ↦ rw short (Mirrored-refl out)
    | inr long ↦ elim (Bool-cases (bytes_eq (take 8 patch) magic)) [
      | inr other ↦ rw (long, other) (Mirrored-refl out)
      | inl same ↦
          rw (long, same)
            (chunks-Ends (chunk_count bz zlib sink rounds (int_field patch 8)) 0 bonus old patch 12
              out)
    ]
  ]
