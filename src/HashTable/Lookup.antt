-- ===== src/HashTable/Lookup.antt =====
-- What `mzHashTableLookup` and `mzHashTableRemove` of minzip/Hash.c promise, and that they keep it.
use android_bootable_recover.Common.{
  ℕ, ◌+◌, ◌≤◌, ◌<◌, ◌≡◌, refl, ap, ◌≢◌, ◌⊎◌, inl, inr, Bool, true, false, ◌&&◌, List, arith,
  Bool-cases, length,
}
use android_bootable_recover.HashTable.{
  HashEntry, HashTable, ok, null, entry, is_live, count_tomb_stones, probe, matches,
}
use android_bootable_recover.HashTable.Probing.{Walks, IsFree, IsUsed, probe_stops, probe_finds}
use android_bootable_recover.HashTable.Contents.{
  bit, same, copies, live, some-IsFree, IsValid, total_some, weight_some,
}
use android_bootable_recover.HashTable.Place.{home, home-lt}
use android_bootable_recover.HashTable.Resize.{distance-lt}
use android_bootable_recover.Common.Bits.{one-le-two_pow}

-- Where a probe of a valid table stops.
pub record Stop (t : HashTable) (found : HashEntry → Bool) (start : ℕ) : Type 0 where
  pub place : ℕ
  pub run : probe found t.table_size t.entries t.table_size start ≡ ok place
  pub inside : place < t.table_size
  pub way : (n : ℕ) × Walks t.entries t.table_size n start place
  pub why :
      IsFree t.entries place ⊎ (IsUsed t.entries place × (found (entry t.entries place) ≡ true))

module _ {t : HashTable} (valid : IsValid t) where
  pub roomy : live t.entries + count_tomb_stones t.entries < length t.entries
  roomy = omega (
    arith,
    valid.load,
    valid.sized,
    valid.width,
    valid.counted,
    valid.dead,
    one-le-two_pow valid.exponent,
  )

  pub probe-Stop :
      (found : HashEntry → Bool) (start : ℕ) → start < t.table_size → Stop t found start
  probe-Stop found start inside =
      let (z, hz, free) = some-IsFree t.entries roomy in
      let (place, run, within, way, why) =
        probe_stops t.entries t.table_size found t.table_size start z inside (rw valid.width at hz)
          free (distance-lt t.entries t.table_size start z inside (rw valid.width at hz)) in
      record { place = place; run = run; inside = within; way = way; why = why }

  pub home_inside : (h : ℕ) → home h t.table_size < t.table_size
  home_inside h = rw valid.sized (home-lt valid.exponent h)

  -- A live entry that is looked for, at the place that its hash value names, is not missed.
  pub Stop-finds :
      (found : HashEntry → Bool) (h : ℕ) (stop : Stop t found (home h t.table_size))
      → (j : ℕ) → j < length t.entries
      → is_live (entry t.entries j) ≡ true
      → (entry t.entries j).hash_value ≡ h
      → found (entry t.entries j) ≡ true
      → IsUsed t.entries stop.place × (found (entry t.entries stop.place) ≡ true)
  Stop-finds found h stop j hj alive hash hit =
      let (n, w) = valid.placed j (rw (← valid.width) hj) alive in
      let one : 1 ≤ live t.entries =
        omega (arith, ap bit alive, weight_some (λ e. bit (is_live e)) t.entries j hj) in
      let many : t.table_size ≢ 1 = λ e. absurd (omega (arith, roomy, valid.width)) in
      probe_finds t.entries t.table_size found t.table_size n (home h t.table_size) j stop.place
        many (rw hash at w) (ground arith) hit stop.run

-- an entry that the table holds stands at some place
pub copies_some :
    (f : HashEntry) (es : List HashEntry)
    → 0 < copies f es
    → (j : ℕ) × (j < length es)
      × (is_live (entry es j) ≡ true)
      × ((entry es j).hash_value ≡ f.hash_value)
      × ((entry es j).item ≡ f.item)
copies_some f es h =
    let (j, hj, w) = total_some (λ e. bit (is_live e && same e f)) es h in
    (j, hj, ground arith, ground arith, ground arith)

pub copies_self :
    (es : List HashEntry) (j : ℕ)
    → j < length es
    → is_live (entry es j) ≡ true
    → 0 < copies (entry es j) es
copies_self es j hj alive =
    let f = entry es j in
    let w = weight_some (λ e. bit (is_live e && same e f)) es j hj in
    let one : bit (is_live f && same f f) ≡ 1 = ground arith in omega (arith, w, one)

module _ (compare_items : ℕ → ℕ → Bool) (t : HashTable) (h item : ℕ) where
  abbrev pub Missing : Type 0
  Missing = (e : HashEntry) → 0 < copies e t.entries → matches compare_items h item e ≡ false

  -- What a search for the item returned: an item that the table holds and that matches, or NULL,
  -- and then nothing in the table matches.
  pub record Answer (r : ℕ) : Type 0 where
    pub found :
        r ≢ null
        → (e : HashEntry) × (0 < copies e t.entries)
          × (matches compare_items h item e ≡ true)
          × (r ≡ e.item)
    pub missing : r ≡ null → Missing

  module _ (valid : IsValid t) where
    pub search : Stop t (matches compare_items h item) (home h t.table_size)
    search = probe-Stop valid (matches compare_items h item) _ (home_inside valid h)

    pub free-Missing :
        (stop : Stop t (matches compare_items h item) (home h t.table_size))
        → IsFree t.entries stop.place
        → Missing
    free-Missing stop free e held = elim (Bool-cases (matches compare_items h item e)) [
      | inr no_match ↦ no_match
      | inl match ↦
          let (j, hj, alive, hash, same_item) = copies_some e t.entries held in
          absurd (
            (Stop-finds valid (matches compare_items h item) h stop j hj alive (ground arith)
                (ground arith)).0
              free)
    ]

    hit_of_used :
        (stop : Stop t (matches compare_items h item) (home h t.table_size))
        → IsUsed t.entries stop.place
        → matches compare_items h item (entry t.entries stop.place) ≡ true
    hit_of_used stop used = elim stop.why [ inl free ↦ absurd (used free) | inr hit ↦ hit.1 ]

    pub Stop-Answer :
        (stop : Stop t (matches compare_items h item) (home h t.table_size))
        → Answer (entry t.entries stop.place).item
    Stop-Answer stop = record {
      found = λ used.
          let hit = hit_of_used stop used in
          (
            entry t.entries stop.place,
            copies_self t.entries stop.place (rw valid.width stop.inside) (ground arith),
            hit,
            refl,
          );
      missing = λ free. free-Missing stop free;
    }
