-- ===== src/ApplyPatch/Load/Partition.antt =====
-- Which prefix of a partition `LoadPartitionContents` of applypatch/applypatch.c loads.
use mathlib.Core.List.{Memᴰ}
use android_bootable_recover.Common.{
  ℕ, zero, suc, ◌+◌, ◌-◌, ◌%◌, ◌^◌, ◌≤◌, ◌<◌, ◌≡◌, refl, sym, ap, ◌∙◌, subst, ◌↔◌, ◌⊎◌, inl, inr,
  Bool, true, false, none, some, List, [], ◌∷◌, ◌++◌, arith, ltb, ◌==◌, if◌then◌else◌, ==_iff,
  Bool-cases, length, take, drop, length-take, length-drop,
}
use android_bootable_recover.Edify.Text.{CString}
use android_bootable_recover.ApplyPatch.BsPatch.{bytes_eq}
use android_bootable_recover.ApplyPatch.Sha.{parse_sha1}
use android_bootable_recover.ApplyPatch.Sha.Matching.{bytes_eq-eq, bytes_eq_refl}
use android_bootable_recover.ApplyPatch.Load.{
  attempt, Pair, Loading, loaded, failed, no_meta, load_pairs,
}

-- The pairs stand in the order of their sizes, from `base` on.
unfoldable pub IsAscending : ℕ → List Pair → Type 0
IsAscending base [] = Unit
IsAscending base (p ∷ ps) = (base ≤ p.size) × IsAscending p.size ps

-- the order of `qsort`: the same pairs, by size
pub record IsSort (sort : List Pair → List Pair) : Type 0 where
  pub kept : (ps : List Pair) (p : Pair) → Memᴰ p (sort ps) ↔ Memᴰ p ps
  pub ascending : (ps : List Pair) → IsAscending 0 (sort ps)

take_nil : (n : ℕ) → take {A = ℕ} n [] ≡ []
take_nil zero = refl
take_nil (suc n) = refl

pub take_join : (a b : ℕ) (xs : List ℕ) → take a xs ++ take b (drop a xs) ≡ take (a + b) xs
take_join zero b xs = ap (λ n. take n xs) (omega arith)
take_join (suc a) b [] = take_nil b ∙ sym (take_nil (suc a + b))
take_join (suc a) b (x ∷ xs) =
    let next : suc a + b ≡ suc (a + b) = omega arith in rw (next, take_join a b xs)

some_inj : {A : Type 0} {x y : A} → some x ≡ some y → x ≡ y
some_inj {A} {x} e = ap (λ o. elim o as (λ _. A) [ none ↦ x | some v ↦ v ]) e

lowest : (base : ℕ) (ps : List Pair) (q : Pair) → IsAscending base ps → Memᴰ q ps → base ≤ q.size
unfolding IsAscending
lowest base [] q asc m = elim m [ ]
lowest base (p ∷ ps) q asc (Memᴰ.head e) = rw e asc.0
lowest base (p ∷ ps) q asc (Memᴰ.tail m) = omega (arith, asc.0, lowest p.size ps q asc.1 m)

module _ (sha : List ℕ → List ℕ) (device : List ℕ) where
  -- the pair names a prefix of the device, and its digest is one
  pub record IsPrefix (p : Pair) : Type 0 where
    pub inside : p.size ≤ length device
    pub text : CString
    pub given : p.sha1sum ≡ some text
    pub digest : List ℕ
    pub parsed : parse_sha1 text ≡ some digest

  -- the digest of that prefix is the one that the pair gives
  abbrev pub Agrees : Pair → Type 0
  Agrees p =
      (text : CString) × (p.sha1sum ≡ some text)
      × (parse_sha1 text ≡ some (sha (take p.size device)))

  -- The shortest prefix that agrees with its pair is loaded, and the load fails if none does.
  abbrev pub Shortest : List Pair → Loading → Type 0
  Shortest ps run =
      ((p : Pair) × Memᴰ p ps
        × Agrees p
        × (run
            ≡ loaded (record {
              sha1 = sha (take p.size device);
              bytes = take p.size device;
              st = no_meta;
            }))
        × ((q : Pair) → Memᴰ q ps → q.size < p.size → Agrees q → ⊥))
      ⊎ ((run ≡ failed) × ((q : Pair) → Memᴰ q ps → Agrees q → ⊥))

  judged :
      (p : Pair) (more : List ℕ) (n : ℕ) (file : List ℕ) (later : Loading) (good : IsPrefix p)
      → length more ≡ n
      → attempt sha p more n file later ≡ (
          if bytes_eq (sha file) good.digest
          then loaded (record { sha1 = sha file; bytes = file; st = no_meta })
          else later)
  unfolding attempt
  judged p more n file later good e =
      let full : (length more == n) ≡ true = (==_iff (length more) n).1 e in
      rw (full, good.given, good.parsed)

  -- a pair whose digest is another does not agree
  differs :
      (p : Pair) (good : IsPrefix p)
      → bytes_eq (sha (take p.size device)) good.digest ≡ false
      → Agrees p
      → ⊥
  differs p good other (text, given, parsed) =
      let same_text : good.text ≡ text = some_inj (sym good.given ∙ given) in
      let same_digest : good.digest ≡ sha (take p.size device) =
        some_inj (sym good.parsed ∙ ap parse_sha1 same_text ∙ parsed) in
      clash other (rw same_digest (bytes_eq_refl (sha (take p.size device))))
    where
      clash : {b : Bool} → b ≡ false → b ≡ true → ⊥
      clash e f = cc

  module _ (read : ℕ → ℕ → List ℕ) (reads : (p n : ℕ) → read p n ≡ take n (drop p device))
      (small : length device < 2 ^ 32) where
    more_read : (base n : ℕ) → (if ltb 0 n then read base n else []) ≡ take n (drop base device)
    more_read base zero = refl
    more_read base (suc n) =
        let some_more : ltb 0 (suc n) ≡ true = ground arith in rw some_more (reads base (suc n))

    -- One pair: the bytes up to its size are read, and their digest is looked at.
    tried :
        (base : ℕ) (p : Pair) (ps : List Pair)
        → base ≤ p.size
        → (good : IsPrefix p)
        → load_pairs sha read (p ∷ ps) (take base device) ≡ (
            if bytes_eq (sha (take p.size device)) good.digest
            then loaded (record {
              sha1 = sha (take p.size device);
              bytes = take p.size device;
              st = no_meta;
            })
            else load_pairs sha read ps (take p.size device))
    unfolding load_pairs
    tried base p ps h good =
        let so_far = take base device in
        let gap = p.size - base in
        let read_to : List ℕ → Loading = λ file. load_pairs sha read ps file in
        ap
          (λ n.
            let next = (p.size + 2 ^ 32 - n) % 2 ^ 32 in
            let more = if ltb 0 next then read n next else [] in
            attempt sha p more next (so_far ++ more) (read_to (so_far ++ more)))
          (at base p h good)
        ∙ ap
            (λ next.
              let more = if ltb 0 next then read base next else [] in
              attempt sha p more next (so_far ++ more) (read_to (so_far ++ more)))
            (distance base p h good)
        ∙ ap (λ more. attempt sha p more gap (so_far ++ more) (read_to (so_far ++ more)))
            (more_read base gap)
        ∙ ap (λ file. attempt sha p (take gap (drop base device)) gap file (read_to file))
            (whole base p h)
        ∙ judged p (take gap (drop base device)) gap (take p.size device)
            (read_to (take p.size device)) good (long base p h good)
      where
        at : (base : ℕ) (p : Pair) → base ≤ p.size → IsPrefix p → length (take base device) ≡ base
        at base p h good = omega (arith, length-take base device, good.inside)

        distance :
            (base : ℕ) (p : Pair)
            → base ≤ p.size
            → IsPrefix p
            → (p.size + 2 ^ 32 - base) % 2 ^ 32 ≡ p.size - base
        distance base p h good = omega (arith, good.inside)

        long :
            (base : ℕ) (p : Pair)
            → base ≤ p.size
            → IsPrefix p
            → length (take (p.size - base) (drop base device)) ≡ p.size - base
        long base p h good = omega (
          arith,
          length-take (p.size - base) (drop base device),
          length-drop base device,
          good.inside,
        )

        whole :
            (base : ℕ) (p : Pair)
            → base ≤ p.size
            → take base device ++ take (p.size - base) (drop base device) ≡ take p.size device
        whole base p h =
            let there : base + (p.size - base) ≡ p.size = omega arith in
            take_join base (p.size - base) device ∙ ap (λ n. take n device) there

    load_pairs-Shortest :
        (base : ℕ) (ps : List Pair)
        → IsAscending base ps
        → ((p : Pair) → Memᴰ p ps → IsPrefix p)
        → Shortest ps (load_pairs sha read ps (take base device))
    unfolding IsAscending load_pairs
    load_pairs-Shortest base [] asc ok = inr (refl, λ q m. elim m [ ])
    load_pairs-Shortest base (p ∷ ps) asc ok =
        let good = ok p (Memᴰ.head refl) in
        let step = tried base p ps asc.0 good in
        elim (Bool-cases (bytes_eq (sha (take p.size device)) good.digest)) [
          | inl match ↦ inl (
            p,
            Memᴰ.head refl,
            (good.text, good.given, good.parsed ∙ ap some (sym (bytes_eq-eq _ _ match))),
            step ∙ rw match,
            λ q m lt agrees. elim m [
              | Memᴰ.head e ↦ absurd (omega (arith, ap (λ (r : Pair). r.size) e))
              | Memᴰ.tail t ↦ absurd (omega (arith, lowest p.size ps q asc.1 t))
            ],
          )
          | inr other ↦ elim (load_pairs-Shortest p.size ps asc.1 (λ q m. ok q (Memᴰ.tail m))) [
            | inl (q, m, agrees, run, least) ↦ inl (
              q,
              Memᴰ.tail m,
              agrees,
              step ∙ rw other run,
              λ r n lt agrees'. elim n [
                | Memᴰ.head e ↦ differs p good other (subst Agrees e agrees')
                | Memᴰ.tail t ↦ least r t lt agrees'
              ],
            )
            | inr (run, none_agrees) ↦ inr (
              step ∙ rw other run,
              λ r n agrees'. elim n [
                | Memᴰ.head e ↦ differs p good other (subst Agrees e agrees')
                | Memᴰ.tail t ↦ none_agrees r t agrees'
              ],
            )
          ]
        ]

    -- Of the pairs in a name the load takes the one with the shortest prefix that has its digest, in
    -- whatever order the name gives them, and it fails if no prefix has. Each size is inside of the
    -- device, each digest can be read, and the reads return what the device holds.
    pub load_sorted-Shortest :
        (sort : List Pair → List Pair)
        → IsSort sort
        → (ps : List Pair) → ((p : Pair) → Memᴰ p ps → IsPrefix p)
        → Shortest ps (load_pairs sha read (sort ps) [])
    load_sorted-Shortest sort sorts ps ok =
        elim (load_pairs-Shortest 0 (sort ps) (sorts.ascending ps)
          (λ p m. ok p ((sorts.kept ps p).0 m))) [
            | inl (p, m, agrees, run, least) ↦
                inl (p, (sorts.kept ps p).0 m, agrees, run, λ q n. least q ((sorts.kept ps q).1 n))
            | inr (run, none_agrees) ↦ inr (run, λ q n. none_agrees q ((sorts.kept ps q).1 n))
          ]
