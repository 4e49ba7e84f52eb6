-- ===== src/HashTable/Removal.antt =====
-- `mzHashTableRemove` of minzip/Hash.c on a valid table.
use android_bootable_recover.Common.{
  ℕ, ◌+◌, ◌-◌, ◌<◌, ◌≡◌, refl, ◌∙◌, ◌≢◌, inl, inr, Bool, true, false, ◌&&◌, arith, ltb, ◌==◌,
  Bool-cases, length, set, length-set,
}
use android_bootable_recover.HashTable.{
  HashEntry, HashTable, ok, null, hash_tombstone, entry, is_live, count_tomb_stones, remove, ◌>>=◌,
}
use android_bootable_recover.HashTable.Probing.{IsFree, IsUsed}
use android_bootable_recover.HashTable.Operations.{IsItem}
use android_bootable_recover.HashTable.Contents.{
  bit, same, is_tombstone, copies, live, IsValid, total-set, count_tomb_stones-total,
}
use android_bootable_recover.HashTable.Place.{home, IsPlaced-set}
use android_bootable_recover.HashTable.Lookup.{
  Stop, probe-Stop, home_inside, copies_some, Stop-finds,
}

module _ {t : HashTable} (valid : IsValid t) (h item : ℕ) (proper : IsItem item) where
  -- What a removal returned, and the table after it.
  pub record Removed (t' : HashTable) (result : Bool) : Type 0 where
    pub valid' : IsValid t'
    pub gone :
        result ≡ true
        → (e : HashEntry) × (e.item ≡ item)
          × ((f : HashEntry) → copies f t'.entries + bit (same e f) ≡ copies f t.entries)
    pub absent :
        result ≡ false
        → (t' ≡ t) × ((e : HashEntry) → 0 < copies e t.entries → e.hash_value ≡ h → e.item ≢ item)

  abbrev dead_entry : ℕ → HashEntry
  dead_entry place = record (entry t.entries place) { item = hash_tombstone }

  -- the table with a tombstone at a place
  abbrev taken : ℕ → HashTable
  taken place = record t {
    entries = set t.entries place (dead_entry place);
    num_entries = t.num_entries - 1;
    num_dead_entries = t.num_dead_entries + 1;
  }

  none_held :
      (stop : Stop t (λ e. e.item == item) (home h t.table_size))
      → IsFree t.entries stop.place
      → (e : HashEntry) → 0 < copies e t.entries
      → e.hash_value ≡ h
      → e.item ≢ item
  none_held stop free e held hash e' =
      let (j, hj, alive, hash', same_item) = copies_some e t.entries held in
      (Stop-finds valid (λ e. e.item == item) h stop j hj alive (hash' ∙ hash) (ground arith)).0
        free

  taken-Removed :
      (stop : Stop t (λ e. e.item == item) (home h t.table_size))
      → IsUsed t.entries stop.place × (((entry t.entries stop.place).item == item) ≡ true)
      → Removed (taken stop.place) true
  taken-Removed stop hit =
      let place = stop.place in
      let es = set t.entries place (dead_entry place) in
      let inside : place < length t.entries = rw valid.width stop.inside in
      let alive : is_live (entry t.entries place) ≡ true =
        ground (arith, hit, proper.not_null, proper.not_tombstone) in
      let lost : live es + 1 ≡ live t.entries =
        ground
          (arith, total-set (λ e. bit (is_live e)) t.entries place (dead_entry place) inside) in
      let buried : count_tomb_stones es ≡ count_tomb_stones t.entries + 1 = ground (
        arith,
        alive,
        count_tomb_stones-total t.entries,
        count_tomb_stones-total es,
        total-set (λ e. bit (is_tombstone e)) t.entries place (dead_entry place) inside,
      ) in
      record {
        valid' = record {
          exponent = valid.exponent;
          sized = valid.sized;
          width = length-set t.entries place (dead_entry place) ∙ valid.width;
          counted = omega (arith, lost, valid.counted);
          dead = omega (arith, buried, valid.dead);
          load = omega (arith, lost, valid.counted, valid.load);
          placed =
              IsPlaced-set t.entries t.table_size place stop.inside valid.width (dead_entry place)
                (λ e. absurd (omega (arith, e))) valid.placed (λ e. absurd (buried_is_dead e));
        };
        gone = λ _. (
          entry t.entries place,
          ground (arith, hit),
          λ f. ground (
            arith,
            alive,
            total-set (λ e. bit (is_live e && same e f)) t.entries place (dead_entry place) inside,
          ),
        );
        absent = λ e. cc;
      }
    where
      buried_is_dead : is_live (dead_entry stop.place) ≡ true → ⊥
      buried_is_dead e = cc

  -- A removal neither fails nor runs for ever, and leaves a valid table. If it returns true, one
  -- entry with this address is gone and all else is held as often as before; if it returns false the
  -- table is as it was and holds no entry with this hash value and this address.
  pub remove-Removed :
      (t' : HashTable) × (result : Bool) × (remove t h item ≡ ok (t', result)) × Removed t' result
  unfolding remove
  remove-Removed =
      let stop = probe-Stop valid (λ e. e.item == item) _ (home_inside valid h) in
      let positive : ltb 0 t.table_size ≡ true = ground (arith, stop.inside) in
      elim (Bool-cases ((entry t.entries stop.place).item == null)) [
        | inl free ↦ (
          t,
          false,
          rw (positive, stop.run, ◌>>=◌, free),
          record {
            valid' = valid;
            gone = λ e. cc;
            absent = λ _. (refl, none_held stop (ground arith));
          },
        )
        | inr used ↦ (
          taken stop.place,
          true,
          rw (positive, stop.run, ◌>>=◌, used),
          taken-Removed stop
              (elim stop.why [ inl free ↦ absurd (ground (arith, free)) | inr hit ↦ hit ]),
        )
      ]
