-- ===== src/HashTable/Operations.antt =====
-- The operations of minzip/Hash.c on a valid table, as changes of what the table holds.
use native.Mathlib.Nat.{pow-suc}
use android_bootable_recover.Common.{
  ℕ, suc, ◌+◌, ◌*◌, ◌^◌, ◌≤◌, ◌<◌, ◌≡◌, refl, sym, ◌∙◌, ◌≢◌, ◌⊎◌, inl, inr, Bool, true, false, not,
  ◌&&◌, List, arith, ltb, ◌==◌, Bool-cases, set, replicate, length-replicate,
}
use android_bootable_recover.HashTable.{
  HashEntry, HashTable, ok, null, hash_tombstone, free_entry, entry, is_live, matches, lookup,
  add_entry, ◌>>=◌,
}
use android_bootable_recover.HashTable.Probing.{IsFree}
use android_bootable_recover.HashTable.Contents.{bit, same, copies, IsValid}
use android_bootable_recover.HashTable.Place.{home, Placed, set-Placed}
use android_bootable_recover.HashTable.Resize.{
  replicate-IsPlaced, no_tomb_stones, copies-replicate, live-replicate, Moved, resize_hash-Moved,
}
use android_bootable_recover.HashTable.Lookup.{
  Stop, Missing, Answer, search, free-Missing, Stop-Answer,
}
use android_bootable_recover.Common.Bits.{one-le-two_pow}

-- an address that an item may have
pub record IsItem (item : ℕ) : Type 0 where
  pub not_null : item ≢ null
  pub not_tombstone : item ≢ hash_tombstone

module _ (compare_items : ℕ → ℕ → Bool) {t : HashTable} (valid : IsValid t) (h item : ℕ)
    (proper : IsItem item) where
  -- A lookup that does not add returns an item that matches if the table holds one, and NULL if not,
  -- and leaves the table as it is. It neither fails nor runs for ever.
  pub lookup-Answer :
      (r : ℕ) × (lookup compare_items t h item false ≡ ok (t, r)) × Answer compare_items t h item r
  unfolding lookup
  lookup-Answer =
      let stop = search compare_items t h item valid in
      let asserts : (ltb 0 t.table_size && (not (item == hash_tombstone) && not (item == null)))
          ≡ true =
        ground (arith, stop.inside, proper.not_null, proper.not_tombstone) in
      (
        (entry t.entries stop.place).item,
        rw (asserts, stop.run, ◌>>=◌) (ground arith),
        Stop-Answer compare_items t h item valid stop,
      )

  abbrev new_entry : HashEntry
  new_entry = record { hash_value = h; item = item }

  -- The table after the item was added: valid, and holding one copy more.
  pub record Added (t' : HashTable) : Type 0 where
    pub valid' : IsValid t'
    pub copies_more :
        (f : HashEntry) → copies f t'.entries ≡ copies f t.entries + bit (same new_entry f)

  module _ (place : ℕ) (inside : place < t.table_size) (es : List HashEntry)
      (step : Placed t.entries t.table_size new_entry es) where
    -- the table once the entry is written and counted
    abbrev written : HashTable
    written = record t { entries = es; num_entries = t.num_entries + 1 }

    bounds : (t.num_entries + t.num_dead_entries < t.table_size) × (1 ≤ t.table_size)
    bounds = omega (arith, valid.load, valid.sized, one-le-two_pow valid.exponent)

    kept-Added :
        (written.num_entries + written.num_dead_entries) * 8 ≤ t.table_size * 5 → Added written
    kept-Added load = record {
      valid' = record {
        exponent = valid.exponent;
        sized = valid.sized;
        width = step.width ∙ valid.width;
        counted = omega (arith, step.live_more, valid.counted);
        dead = valid.dead ∙ sym step.dead_same;
        load = load;
        placed = step.placed;
      };
      copies_more = step.copies_more;
    }

    resized-Added :
        (es' : List HashEntry)
        → Moved (2 ^ suc valid.exponent) es (replicate (2 ^ suc valid.exponent) free_entry) es'
        → Added (record written {
          entries = es';
          table_size = 2 ^ suc valid.exponent;
          num_dead_entries = 0;
        })
    resized-Added es' m = record {
      valid' = record {
        exponent = suc valid.exponent;
        sized = refl;
        width = m.width;
        counted = omega (
          arith,
          m.live_sum,
          step.live_more,
          valid.counted,
          live-replicate (2 ^ suc valid.exponent),
        );
        dead = sym m.no_dead;
        load = rw (pow-suc 2 valid.exponent, ← valid.sized) (omega (arith, valid.load, bounds));
        placed = m.placed;
      };
      copies_more = λ f.
          omega (
            arith,
            m.copies_sum f,
            step.copies_more f,
            copies-replicate f (2 ^ suc valid.exponent),
          );
    }

  add_entry-Added :
      (stop : Stop t (matches compare_items h item) (home h t.table_size))
      → IsFree t.entries stop.place
      → (t' : HashTable) × (add_entry compare_items t stop.place h item ≡ ok (t', item)) × Added t'
  unfolding add_entry
  add_entry-Added stop free =
      let es = set t.entries stop.place new_entry in
      let alive : is_live new_entry ≡ true =
        ground (arith, proper.not_null, proper.not_tombstone) in
      let step : Placed t.entries t.table_size new_entry es =
        set-Placed t.entries t.table_size stop.place stop.inside valid.width new_entry stop.way.0
          free alive valid.placed stop.way.1 in
      let room = bounds stop.place stop.inside es step in
      elim (Bool-cases (ltb (t.table_size * 5) ((t.num_entries + 1 + t.num_dead_entries) * 8))) [
        | inr light ↦
            let fits : ltb (t.num_entries + 1) t.table_size ≡ true =
              ground (arith, room, valid.load) in
            (
              written stop.place stop.inside es step,
              rw (light, ◌>>=◌, fits),
              kept-Added stop.place stop.inside es step (ground arith),
            )
        | inl heavy ↦
            let double : t.table_size * 2 ≡ 2 ^ suc valid.exponent =
              rw (pow-suc 2 valid.exponent, valid.sized) in
            let (es', p, m) =
              resize_hash-Moved (written stop.place stop.inside es step) (suc valid.exponent)
                (valid.dead ∙ sym step.dead_same)
                (omega (arith, step.live_more, valid.counted, room, double)) in
            let fits : ltb (t.num_entries + 1) (2 ^ suc valid.exponent) ≡ true =
              rw (← double) (ground (arith, room)) in
            (
              _,
              rw (heavy, double, p, ◌>>=◌, fits),
              resized-Added stop.place stop.inside es step es' m,
            )
      ]

  -- A lookup that may add returns a matching item that the table holds and leaves the table as it
  -- is; if there is none, the new table is valid, holds the item once more and everything else as
  -- often as before, and the item itself is returned. It neither fails nor runs for ever.
  pub lookup-Added :
      ((r : ℕ) × (r ≢ null)
        × (lookup compare_items t h item true ≡ ok (t, r))
        × Answer compare_items t h item r)
      ⊎ ((t' : HashTable) × (lookup compare_items t h item true ≡ ok (t', item))
          × Missing compare_items t h item
          × Added t')
  unfolding lookup
  lookup-Added =
      let stop = search compare_items t h item valid in
      let asserts : (ltb 0 t.table_size && (not (item == hash_tombstone) && not (item == null)))
          ≡ true =
        ground (arith, stop.inside, proper.not_null, proper.not_tombstone) in
      elim (Bool-cases ((entry t.entries stop.place).item == null)) [
        | inl free ↦
            let (t', p, added) = add_entry-Added stop (ground arith) in
            inr (
              t',
              rw (asserts, stop.run, ◌>>=◌, free) p,
              free-Missing compare_items t h item valid stop (ground arith),
              added,
            )
        | inr used ↦ inl (
          (entry t.entries stop.place).item,
          ground arith,
          rw (asserts, stop.run, ◌>>=◌, used),
          Stop-Answer compare_items t h item valid stop,
        )
      ]

-- An empty array of 2^k places is a valid table.
pub empty-IsValid :
    (k : ℕ)
    → IsValid (record {
      table_size = 2 ^ k;
      num_entries = 0;
      num_dead_entries = 0;
      entries = replicate (2 ^ k) free_entry;
    })
empty-IsValid k = record {
  exponent = k;
  sized = refl;
  width = length-replicate (2 ^ k) free_entry;
  counted = sym (live-replicate (2 ^ k));
  dead = sym (no_tomb_stones (2 ^ k));
  load = omega arith;
  placed = replicate-IsPlaced (2 ^ k) (2 ^ k);
}
