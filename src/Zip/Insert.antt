-- ===== src/Zip/Insert.antt =====
-- The sorted insertion of minzip/Zip.c.
use mathlib.Core.List.{Perm, perm_middle}
use android_bootable_recover.Common.{
  ℕ, zero, suc, ◌+◌, ◌-◌, ◌/◌, ◌≤◌, ◌<◌, ◌≡◌, refl, sym, ap, ◌∙◌, subst, ◌≢◌, inl, inr, true, List,
  [], ◌∷◌, arith, ltb, leb, ◌==◌, if◌then◌else◌, tests, Bool-cases, length, length-append, get_or,
  take, drop, take-append-drop, length-take, length-drop,
}
use android_bootable_recover.Edify.Text.{Order, strcmp, before, same, after}
use android_bootable_recover.Edify.Text.Compare.{strcmp-eq_same, strcmp-flip, strcmp_trans, flip}
use android_bootable_recover.Zip.{
  ZipEntry, ok, ◌>>=◌, all_printable, name_at, no_entry, find_target, insert_at, insert_entry,
}
use android_bootable_recover.Zip.Names.{name_order-strcmp}
use android_bootable_recover.Edify.Table.Lookup.{Order-cases}

-- not beyond in the order of names
infix 50 ◌≼◌
abbrev pub ◌≼◌ : List ℕ → List ℕ → Type 0
a ≼ b = strcmp a b ≢ after

≼-trans : (a b c : List ℕ) → a ≼ b → b ≼ c → a ≼ c
≼-trans a b c h k e =
    let back : strcmp c a ≡ before = ground (arith, strcmp-flip a c) in
    elim (Order-cases (strcmp a b)) [
      | inr (inl same_names) ↦ k (ap (λ n. strcmp n c) (sym (strcmp-eq_same a b same_names)) ∙ e)
      | inl less ↦ k (ground (arith, strcmp_trans c a b, strcmp-flip c b))
      | inr (inr more) ↦ h more
    ]

-- Entries in the order of their names, all of them printable.
pub record IsSorted (es : List ZipEntry) : Type 0 where
  pub ordered : (i j : ℕ) → i < j → j < length es → name_at es i ≼ name_at es j
  pub printable : (i : ℕ) → i < length es → all_printable (name_at es i) ≡ true

-- A place for a name: what stands before is not beyond it, and it is not beyond what follows.
pub record Splits (es : List ZipEntry) (name : List ℕ) (t : ℕ) : Type 0 where
  pub inside : t ≤ length es
  pub left : (i : ℕ) → i < t → name_at es i ≼ name
  pub right : (i : ℕ) → t ≤ i → i < length es → name ≼ name_at es i

module _ (es : List ZipEntry) (name : List ℕ) (sorted : IsSorted es) where
  -- what the search has left open
  record Range (low high : ℕ) : Type 0 where
    inside : high ≤ length es
    left : (i : ℕ) → i < low → name_at es i ≼ name
    right : (i : ℕ) → high ≤ i → i < length es → name ≼ name_at es i

  upper :
      (low mid high : ℕ)
      → mid < high
      → name_at es mid ≼ name
      → Range low high
      → Range (mid + 1) high
  upper low mid high h le r = record {
    inside = r.inside;
    left = λ i hi. elim (Bool-cases (ltb i mid)) [
      | inl less ↦
          ≼-trans (name_at es i) (name_at es mid) name
            (sorted.ordered i mid (omega tests) (omega (arith, r.inside))) le
      | inr at ↦ let e : i ≡ mid = ground arith in rw e le
    ];
    right = r.right;
  }

  lower : (low mid high : ℕ) → mid < high → name ≼ name_at es mid → Range low high → Range low mid
  lower low mid high h le r = record {
    inside = omega (arith, r.inside);
    left = r.left;
    right = λ i hi hl. elim (Bool-cases (ltb mid i)) [
      | inl more ↦
          ≼-trans name (name_at es mid) (name_at es i) le (sorted.ordered mid i (omega tests) hl)
      | inr at ↦ let e : i ≡ mid = ground arith in rw e le
    ];
  }

  find_target-Splits :
      (fuel low high : ℕ)
      → low ≤ high
      → high - low < fuel
      → Range low high
      → (t : ℕ) × (find_target fuel es name low high ≡ ok t) × Splits es name t
  unfolding find_target
  find_target-Splits zero low high h k r = absurd (omega arith)
  find_target-Splits (suc fuel) low high h k r =
      let mid = low + (high - 1 - low) / 2 in
      elim (Bool-cases (ltb low high)) [
        | inr over ↦ (
          high,
          rw over,
          record { inside = r.inside; left = λ i hi. r.left i (ground arith); right = r.right },
        )
        | inl more ↦
            let inside : mid < high = ground arith in
            let o =
              name_order-strcmp (name_at es mid) name
                (sorted.printable mid (omega (arith, r.inside))) in
            elim (Order-cases (strcmp (name_at es mid) name)) [
              | inr (inl e) ↦
                  let u = upper low mid high inside (λ q. absurd (clash e q)) r in
                  let eq = strcmp-eq_same (name_at es mid) name e in
                  (
                    mid + 1,
                    rw (more, o, e),
                    record {
                      inside = omega (arith, r.inside);
                      left = u.left;
                      right = λ i hi hl. rw (← eq) (sorted.ordered mid i (omega arith) hl);
                    },
                  )
              | inl e ↦
                  let (t, p, s) =
                    find_target-Splits fuel (mid + 1) high (omega arith) (omega arith)
                      (upper low mid high inside (λ q. absurd (clash2 e q)) r) in
                  (t, rw (more, o, e) p, s)
              | inr (inr e) ↦
                  let (t, p, s) = find_target-Splits fuel low mid (omega arith) (ground arith) (
                    lower low mid high inside
                      (λ q. absurd (clash3 e (strcmp-flip (name_at es mid) name) q)) r) in
                  (t, rw (more, o, e) p, s)
            ]
      ]
    where
      clash : {x : Order} → x ≡ same → x ≡ after → ⊥
      clash e q = cc

      clash2 : {x : Order} → x ≡ before → x ≡ after → ⊥
      clash2 e q = cc

      clash3 : {x y : Order} → x ≡ after → y ≡ flip x → y ≡ after → ⊥
      clash3 e f q = clash2 (f ∙ ap flip e) q

get_or-insert_at :
    (t i : ℕ) (e : ZipEntry) (es : List ZipEntry)
    → t ≤ length es
    → get_or (insert_at t e es) i no_entry
      ≡ (if ltb i t then get_or es i no_entry else if i == t then e else get_or es (i - 1) no_entry)
get_or-insert_at zero zero e es h = refl
get_or-insert_at zero (suc i) e es h = ground arith
get_or-insert_at (suc t) i e [] h = absurd (omega arith)
get_or-insert_at (suc t) zero e (d ∷ es) h = ground arith
get_or-insert_at (suc t) (suc zero) e (d ∷ es) h = ground (arith, get_or-insert_at t 0 e es)
get_or-insert_at (suc t) (suc (suc i)) e (d ∷ es) h =
    let back : suc (suc i) - 1 ≡ suc i = omega arith in
    let back' : suc i - 1 ≡ i = omega arith in
    rw (back, get_or-insert_at t (suc i) e es (omega arith), back') (ground arith)

length-insert_at :
    (t : ℕ) (e : ZipEntry) (es : List ZipEntry)
    → t ≤ length es
    → length (insert_at t e es) ≡ suc (length es)
length-insert_at t e es h =
    omega (arith, length-append (take t es) (e ∷ drop t es), length-take t es, length-drop t es)

insert_at-perm : (t : ℕ) (e : ZipEntry) (es : List ZipEntry) → Perm (insert_at t e es) (e ∷ es)
insert_at-perm t e es =
    subst (λ l. Perm (insert_at t e es) (e ∷ l)) (take-append-drop t es)
      (perm_middle (take t es) (drop t es))

module _ (es : List ZipEntry) (e : ZipEntry) (sorted : IsSorted es)
    (printable : all_printable e.file_name ≡ true) where
  name_at-insert_at :
      (t i : ℕ)
      → t ≤ length es
      → name_at (insert_at t e es) i
        ≡ (if ltb i t then name_at es i else if i == t then e.file_name else name_at es (i - 1))
  name_at-insert_at t i h =
      ap (λ (d : ZipEntry). d.file_name) (get_or-insert_at t i e es h) ∙ ground arith

  insert_at_kept :
      (t : ℕ)
      → t ≤ length es
      → (P : ZipEntry → Type 0) → P e
      → ((i : ℕ) → i < length es → P (get_or es i no_entry))
      → (i : ℕ) → i < length (insert_at t e es)
      → P (get_or (insert_at t e es) i no_entry)
  insert_at_kept t h P new old i k =
      let long = length-insert_at t e es h in
      rw (get_or-insert_at t i e es h) (elim (Bool-cases (ltb i t)) [
        | inl less ↦ rw less (old i (ground arith))
        | inr more ↦ elim (Bool-cases (i == t)) [
          | inl here ↦ rw (more, here) new
          | inr behind ↦ rw (more, behind) (old (i - 1) (ground arith))
        ]
      ])

  insert_at-IsSorted : (t : ℕ) → Splits es e.file_name t → IsSorted (insert_at t e es)
  insert_at-IsSorted t s =
      let long = length-insert_at t e es s.inside in
      record {
        ordered = λ i j h k.
            rw (name_at-insert_at t i s.inside, name_at-insert_at t j s.inside)
              (ground (
                arith,
                s.left i,
                s.right (j - 1),
                sorted.ordered i j,
                sorted.ordered i (j - 1),
                sorted.ordered (i - 1) (j - 1),
              ));
        printable = λ i h.
            rw (name_at-insert_at t i s.inside)
              (ground (arith, sorted.printable i, sorted.printable (i - 1)));
      }

  -- The insertion, with what it keeps: what all entries have, all have afterwards.
  pub insert_entry_kept :
      (es' : List ZipEntry) × (insert_entry e es ≡ ok es')
      × IsSorted es'
      × Perm es' (e ∷ es)
      × (length es' ≡ suc (length es))
      × ((P : ZipEntry → Type 0)
          → P e
          → ((i : ℕ) → i < length es → P (get_or es i no_entry))
          → (i : ℕ) → i < length es'
          → P (get_or es' i no_entry))
  unfolding insert_entry
  insert_entry_kept =
      let (t, p, s) =
        find_target-Splits es e.file_name sorted (suc (length es)) 0 (length es) (omega arith)
          (omega arith)
          (record {
            inside = omega arith;
            left = λ i h. absurd (omega arith);
            right = λ i h k. absurd (omega arith);
          }) in
      let fits : leb t (length es) ≡ true = ground (arith, s.inside) in
      (
        insert_at t e es,
        rw (p, ◌>>=◌, fits),
        insert_at-IsSorted t s,
        insert_at-perm t e es,
        length-insert_at t e es s.inside,
        insert_at_kept t s.inside,
      )

  -- Inserting a printable name into sorted entries succeeds: the search for its place ends, the entries
  -- are sorted again, they are the old ones and the new one, and there is one more.
  pub insert_entry-IsSorted :
      (es' : List ZipEntry) × (insert_entry e es ≡ ok es')
      × IsSorted es'
      × Perm es' (e ∷ es)
      × (length es' ≡ suc (length es))
  insert_entry-IsSorted =
      let (es', run, sorted', perm, long, _) = insert_entry_kept in (es', run, sorted', perm, long)
