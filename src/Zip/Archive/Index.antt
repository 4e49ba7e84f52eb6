-- ===== src/Zip/Archive/Index.antt =====
-- The hash table over the entries of an archive: what minzip/Zip.c makes of minzip/Hash.c.
use android_bootable_recover.Common.{
  ℕ, zero, suc, ◌+◌, ◌<◌, ◌≡◌, refl, sym, ap, ◌∙◌, ◌≢◌, ◌⊎◌, inl, inr, Bool, true, false, List, [],
  ◌∷◌, arith, ltb, ◌==◌, Bool-cases,
}
use android_bootable_recover.HashTable
use android_bootable_recover.HashTable.{hash_tombstone, matches, lookup, HashTable, HashEntry, null}
use android_bootable_recover.Zip.{name_at, compute_hash, ZipEntry, ok, ◌>>=◌}
use android_bootable_recover.Zip.Archive.{
  compare_name, add_entries, name_of, compare_entries, of_run, add_entry_to_hash_table, same_name,
  Layout,
}
use android_bootable_recover.HashTable.Operations.{lookup-Answer, lookup-Added, IsItem}
use android_bootable_recover.HashTable.Contents.{same, bit, copies, IsValid}

pub same_name-eq : (a b : List ℕ) → same_name a b ≡ true → a ≡ b
unfolding same_name
same_name-eq [] [] h = refl
same_name-eq [] (y ∷ b) h = absurd (ground arith)
same_name-eq (x ∷ a) [] h = absurd (ground arith)
same_name-eq (x ∷ a) (y ∷ b) h =
    let here : x ≡ y = ground arith in let behind : a ≡ b = same_name-eq a b (ground arith) in cc

pub same_name_refl : (a : List ℕ) → same_name a a ≡ true
unfolding same_name
same_name_refl [] = refl
same_name_refl (x ∷ a) = ground (arith, same_name_refl a)

-- The addresses of the first `n` entries: each is one that an item may have, and leads back.
pub record IsLayout (layout : Layout) (n : ℕ) : Type 0 where
  pub proper : (i : ℕ) → i < n → IsItem (layout.place i)
  pub back : (i : ℕ) → i < n → layout.index (layout.place i) ≡ i

module _ (layout : Layout) (es : List ZipEntry) where
  -- `f` is the table's record of the entry `i`, one of the first `k`
  abbrev pub Stands : ℕ → HashEntry → ℕ → Type 0
  Stands k f i = (i < k) × (f.item ≡ layout.place i) × (f.hash_value ≡ compute_hash (name_at es i))

  -- The table holds addresses of the first `k` entries, and for each of them one of its name.
  pub record Indexes (k : ℕ) (t : HashTable) : Type 0 where
    pub valid : IsValid t
    pub sound : (f : HashEntry) → 0 < copies f t.entries → (i : ℕ) × Stands k f i
    pub complete :
        (i : ℕ)
        → i < k
        → (f : HashEntry) × (j : ℕ) × (0 < copies f t.entries)
          × Stands k f j
          × (name_at es j ≡ name_at es i)

  later : (k : ℕ) (f : HashEntry) (i : ℕ) → Stands k f i → Stands (k + 1) f i
  later k f i s = (omega (arith, s.0), s.1, s.2)

  module _ (n : ℕ) (laid : IsLayout layout n) where
    pub name_found :
        (i item : ℕ) (name : List ℕ)
        → i < n
        → item ≡ layout.place i
        → same_name (name_of layout es item) name ≡ true
        → name_at es i ≡ name
    name_found i item name lt at h = same_name-eq _ _ (rw (at, laid.back i lt) at h)

    old-Indexes :
        (k : ℕ) (t : HashTable) (e : HashEntry) (i : ℕ)
        → Indexes k t
        → 0 < copies e t.entries
        → Stands k e i
        → name_at es i ≡ name_at es k
        → Indexes (k + 1) t
    old-Indexes k t e i ix held stands names = record {
      valid = ix.valid;
      sound = λ f h. let (j, s) = ix.sound f h in (j, later k f j s);
      complete = λ j hj. elim (Bool-cases (j == k)) [
        | inl last ↦
            let here : j ≡ k = ground arith in (e, i, held, later k e i stands, rw here names)
        | inr before ↦
            let (f, j', h, s, same_names) = ix.complete j (ground arith) in
            (f, j', h, later k f j' s, same_names)
      ];
    }

    new-Indexes :
        (k : ℕ) (t t' : HashTable)
        → Indexes k t
        → IsValid t'
        → ((f : HashEntry)
            → copies f t'.entries
              ≡ copies f t.entries
                + bit (
                    same
                      (record { hash_value = compute_hash (name_at es k); item = layout.place k })
                      f))
        → Indexes (k + 1) t'
    new-Indexes k t t' ix valid more =
        let new : HashEntry = record {
          hash_value = compute_hash (name_at es k);
          item = layout.place k;
        } in
        record {
          valid = valid;
          sound = λ f h. elim (Bool-cases (ltb 0 (copies f t.entries))) [
            | inl old ↦ let (j, s) = ix.sound f (ground arith) in (j, later k f j s)
            | inr fresh ↦
                let it : same new f ≡ true = ground (arith, more f) in
                (k, (omega arith, ground arith, ground arith))
          ];
          complete = λ j hj. elim (Bool-cases (j == k)) [
            | inl last ↦
                let here : j ≡ k = ground arith in
                let it : same new new ≡ true = ground arith in
                let held : 0 < copies new t'.entries = ground (arith, more new) in
                (new, k, held, (omega arith, refl, refl), rw here)
            | inr before ↦
                let (f, j', h, s, same_names) = ix.complete j (ground arith) in
                (f, j', omega (arith, more f), later k f j' s, same_names)
          ];
        }

    add_entry-Indexes :
        (k : ℕ) (t : HashTable)
        → k < n
        → Indexes k t
        → (t' : HashTable) × (add_entry_to_hash_table layout es t k ≡ ok t') × Indexes (k + 1) t'
    unfolding add_entry_to_hash_table of_run
    add_entry-Indexes k t lt ix =
        let hash = compute_hash (name_at es k) in
        elim (lookup-Added (compare_entries layout es) ix.valid hash (layout.place k)
          (laid.proper k lt)) [
            | inl (r, used, run, answer) ↦
                let (e, held, hit, same_item) = answer.found used in
                let (i, stands) = ix.sound e held in
                let alike : same_name (name_of layout es e.item)
                      (name_of layout es (layout.place k))
                    ≡ true =
                  ground arith in
                let named : same_name (name_of layout es e.item) (name_at es k) ≡ true =
                  rw (laid.back k lt) at alike in
                (
                  t,
                  rw (run, of_run, ◌>>=◌),
                  old-Indexes k t e i ix held stands
                      (name_found i e.item (name_at es k) (omega (arith, stands.0)) stands.1 named),
                )
            | inr (t', run, missing, added) ↦
                (t', rw (run, of_run, ◌>>=◌), new-Indexes k t t' ix added.valid' added.copies_more)
          ]

    -- Adding the remaining entries succeeds, and the table then holds one of each name.
    pub add_entries-Indexes :
        (rest k : ℕ) (t : HashTable)
        → k + rest ≡ n
        → Indexes k t
        → (t' : HashTable) × (add_entries layout es rest k t ≡ ok t') × Indexes n t'
    unfolding add_entries
    add_entries-Indexes zero k t e ix = let here : k ≡ n = omega arith in (t, refl, rw here at ix)
    add_entries-Indexes (suc rest) k t e ix =
        let (t1, run, ix1) = add_entry-Indexes k t (omega arith) ix in
        let (t2, run2, ix2) = add_entries-Indexes rest (k + 1) t1 (omega arith) ix1 in
        (t2, rw (run, ◌>>=◌) run2, ix2)

    -- the record of an entry of the name is what the search looks for
    matches_named :
        (f : HashEntry) (j : ℕ) (name : List ℕ) (key : ℕ)
        → Stands n f j
        → name_at es j ≡ name
        → matches (compare_name layout es name) (compute_hash name) key f ≡ true
    matches_named f j name key (lt, at, hash) e =
        let proper = laid.proper j lt in
        let used : f.item ≢ null = λ q. proper.not_null (sym at ∙ q) in
        let whole : f.item ≢ hash_tombstone = λ q. proper.not_tombstone (sym at ∙ q) in
        let hashed : f.hash_value ≡ compute_hash name = hash ∙ ap compute_hash e in
        let named : same_name (name_of layout es f.item) name ≡ true =
          rw (at, laid.back j lt, e) (same_name_refl name) in
        ground (arith, used, whole, hashed, named)

    -- A lookup by name finds an entry of that name if there is one.
    pub find-Found :
        (t : HashTable) (name : List ℕ) (key : ℕ)
        → Indexes n t
        → IsItem key
        → (r : ℕ) × (lookup (compare_name layout es name) t (compute_hash name) key false
            ≡ HashTable.ok (t, r))
          × (((i : ℕ) × (i < n) × (r ≡ layout.place i) × (name_at es i ≡ name))
              ⊎ ((r ≡ null) × ((i : ℕ) → i < n → name_at es i ≢ name)))
    find-Found t name key ix proper =
        let (r, run, answer) =
          lookup-Answer (compare_name layout es name) ix.valid (compute_hash name) key proper in
        (
          r,
          run,
          elim (Bool-cases (r == null)) [
            | inr used ↦
                let (e, held, hit, same_item) = answer.found (ground arith) in
                let (i, stands) = ix.sound e held in
                let named : same_name (name_of layout es e.item) name ≡ true = ground arith in
                inl (
                  i,
                  stands.0,
                  same_item ∙ stands.1,
                  name_found i e.item name stands.0 stands.1 named,
                )
            | inl gone ↦
                let is_null : r ≡ null = ground arith in
                inr (
                  is_null,
                  λ i hi e.
                      let (f, j, held, stands, alike) = ix.complete i hi in
                      let hit : matches (compare_name layout es name) (compute_hash name) key f
                          ≡ true =
                        matches_named f j name key stands (alike ∙ e) in
                      clash (answer.missing is_null f held) hit,
                )
          ],
        )
      where
        clash : {b : Bool} → b ≡ false → b ≡ true → ⊥
        clash e f = cc
