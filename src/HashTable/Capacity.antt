-- ===== src/HashTable/Capacity.antt =====
-- The capacity that `mzHashSize` of minzip/Hash.c computes.
use android_bootable_recover.Common.{
  ℕ, ◌+◌, ◌*◌, ◌≤◌, ◌<◌, ◌≡◌, refl, ◌⊎◌, inl, inr, Bool, true, false, not, ◌&&◌, arith, ltb, ◌==◌,
  Bool-cases, set,
}
use android_bootable_recover.HashTable.{
  HashTable, ok, null, hash_tombstone, entry, lookup, add_entry, hash_size, ◌>>=◌,
}
use android_bootable_recover.HashTable.Contents.{IsValid}
use android_bootable_recover.HashTable.Operations.{IsItem}
use android_bootable_recover.HashTable.Lookup.{search}

module _ (compare_items : ℕ → ℕ → Bool) (t : HashTable) (n h item : ℕ)
    (room : t.num_entries + t.num_dead_entries < n) (sized : hash_size n ≤ t.table_size) where
  -- the table with the entry at a place
  abbrev pub added : ℕ → HashTable
  added i = record t {
    entries = set t.entries i (record { hash_value = h; item = item });
    num_entries = t.num_entries + 1;
  }

  add_entry-added : (i : ℕ) → add_entry compare_items t i h item ≡ ok (added i, item)
  unfolding add_entry hash_size
  add_entry-added i =
      let light : ltb (t.table_size * 5) ((t.num_entries + 1 + t.num_dead_entries) * 8) ≡ false =
        ground (arith, sized) in
      let fits : ltb (t.num_entries + 1) t.table_size ≡ true = ground (arith, sized) in
      rw (light, ◌>>=◌, fits)

  -- A valid table at least as large as `mzHashSize` says for `n` entries is not resized by a lookup
  -- that may add while it has fewer than `n` entries and tombstones: it stays as it is, or one place
  -- is written and one entry more is counted.
  pub lookup-hash_size :
      IsValid t
      → IsItem item
      → (t' : HashTable) × (r : ℕ) × (lookup compare_items t h item true ≡ ok (t', r))
        × ((t' ≡ t) ⊎ ((i : ℕ) × (i < t.table_size) × (t' ≡ added i) × (r ≡ item)))
  unfolding lookup
  lookup-hash_size valid proper =
      let stop = search compare_items t h item valid in
      let asserts : (ltb 0 t.table_size && (not (item == hash_tombstone) && not (item == null)))
          ≡ true =
        ground (arith, stop.inside, proper.not_null, proper.not_tombstone) in
      elim (Bool-cases ((entry t.entries stop.place).item == null)) [
        | inl free ↦ (
          added stop.place,
          item,
          rw (asserts, stop.run, ◌>>=◌, free, add_entry-added stop.place),
          inr (stop.place, stop.inside, refl, refl),
        )
        | inr used ↦
            (t, (entry t.entries stop.place).item, rw (asserts, stop.run, ◌>>=◌, used), inl refl)
      ]
