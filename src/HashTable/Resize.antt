-- ===== src/HashTable/Resize.antt =====
-- `resizeHash` of minzip/Hash.c moves every live entry to its place in the new array.
use android_bootable_recover.Common.{
  ℕ, zero, suc, ◌+◌, ◌^◌, ◌<◌, ◌≡◌, refl, sym, ◌∙◌, inl, inr, true, false, List, [], ◌∷◌, arith,
  ◌==◌, Bool-cases, length, set, replicate, length-replicate,
}
use android_bootable_recover.HashTable.{
  HashTable, entry, free_entry, resize_hash, HashEntry, ok, is_live, count_tomb_stones, reinsert,
}
use android_bootable_recover.HashTable.Probing.{distance}
use android_bootable_recover.HashTable.Contents.{
  count_tomb_stones-total, bit, total, copies, live, some-IsFree, IsPlaced,
}
use android_bootable_recover.HashTable.Place.{home, home-lt, Placed, set-Placed, free_place_stops}

-- `es'` holds what `fresh` and `es` hold, in an array of `size` places with no tombstone.
pub record Moved (size : ℕ) (es fresh es' : List HashEntry) : Type 0 where
  pub width : length es' ≡ size
  pub placed : IsPlaced es' size
  pub no_dead : count_tomb_stones es' ≡ 0
  pub live_sum : live es' ≡ live fresh + live es
  pub copies_sum : (f : HashEntry) → copies f es' ≡ copies f fresh + copies f es

module _ {size : ℕ} {es fresh : List HashEntry} (e : HashEntry) where
  Moved-skip :
      {es' : List HashEntry}
      → is_live e ≡ false
      → Moved size es fresh es'
      → Moved size (e ∷ es) fresh es'
  unfolding total
  Moved-skip other m = record {
    width = m.width;
    placed = m.placed;
    no_dead = m.no_dead;
    live_sum = ground (arith, m.live_sum);
    copies_sum = λ f. ground (arith, m.copies_sum f);
  }

  Moved-put :
      {fresh' es' : List HashEntry}
      → is_live e ≡ true
      → Placed fresh size e fresh'
      → Moved size es fresh' es'
      → Moved size (e ∷ es) fresh es'
  unfolding total
  Moved-put alive step m = record {
    width = m.width;
    placed = m.placed;
    no_dead = m.no_dead;
    live_sum = ground (arith, m.live_sum, step.live_more);
    copies_sum = λ f. ground (arith, m.copies_sum f, step.copies_more f);
  }

live_cons : (e : HashEntry) (es : List HashEntry) → live (e ∷ es) ≡ bit (is_live e) + live es
unfolding total
live_cons e es = refl

pub distance-lt :
    (es : List HashEntry) (size i z : ℕ) → i < size → z < size → distance es size i z < size
distance-lt es size i z hi hz = ground arith

module _ (k : ℕ) where
  pub reinsert-Moved :
      (es fresh : List HashEntry)
      → length fresh ≡ 2 ^ k
      → IsPlaced fresh (2 ^ k)
      → count_tomb_stones fresh ≡ 0
      → live fresh + live es < 2 ^ k
      → (es' : List HashEntry) × (reinsert (2 ^ k) es fresh ≡ ok es') × Moved (2 ^ k) es fresh es'
  unfolding reinsert
  reinsert-Moved [] fresh w placed dead room = (
    fresh,
    refl,
    record {
      width = w;
      placed = placed;
      no_dead = dead;
      live_sum = sym (total_nil _ _);
      copies_sum = λ f. sym (total_nil _ _);
    },
  )
    where
      total_nil : (weight : HashEntry → ℕ) (n : ℕ) → n + total weight [] ≡ n
      total_nil weight n = unfold total in omega arith
  reinsert-Moved (e ∷ es) fresh w placed dead room = elim (Bool-cases (is_live e)) [
    | inr other ↦
        let (es', p, m) = reinsert-Moved es fresh w placed dead (ground (arith, live_cons e es)) in
        (es', rw other p, Moved-skip e other m)
    | inl alive ↦
        let (z, hz, free) = some-IsFree fresh (ground (arith, live_cons e es)) in
        let start = home-lt k e.hash_value in
        let (r, p, hr, (n, way), empty) =
          free_place_stops fresh k (2 ^ k) (home e.hash_value (2 ^ k)) z start (omega arith) free
            (distance-lt fresh (2 ^ k) _ z start (omega arith)) in
        let step = set-Placed fresh (2 ^ k) r hr w e n empty alive placed way in
        let (es', q, m) =
          reinsert-Moved es (set fresh r e) (step.width ∙ w) step.placed (step.dead_same ∙ dead)
            (ground (arith, live_cons e es, step.live_more)) in
        (es', rw (alive, p) q, Moved-put e alive step m)
  ]

entry-replicate : (n j : ℕ) → entry (replicate n free_entry) j ≡ free_entry
entry-replicate zero j = refl
entry-replicate (suc n) zero = refl
entry-replicate (suc n) (suc j) = entry-replicate n j

total-replicate :
    (weight : HashEntry → ℕ) (n : ℕ)
    → weight free_entry ≡ 0
    → total weight (replicate n free_entry) ≡ 0
unfolding total
total-replicate weight zero h = refl
total-replicate weight (suc n) h = omega (arith, total-replicate weight n h)

pub replicate-IsPlaced : (n size : ℕ) → IsPlaced (replicate n free_entry) size
replicate-IsPlaced n size j hj alive = absurd (dead (rw entry-replicate at alive))
  where
    dead : is_live free_entry ≡ true → ⊥
    dead h = cc

pub no_tomb_stones : (n : ℕ) → count_tomb_stones (replicate n free_entry) ≡ 0
no_tomb_stones n = count_tomb_stones-total _ ∙ total-replicate _ n refl

-- A resize to twice the size does not fail; it keeps the live entries and drops the tombstones.
pub resize_hash-Moved :
    (t : HashTable) (k : ℕ)
    → t.num_dead_entries ≡ count_tomb_stones t.entries
    → live t.entries < 2 ^ k
    → (es' : List HashEntry) × (resize_hash t (2 ^ k)
        ≡ ok (record t { entries = es'; table_size = 2 ^ k; num_dead_entries = 0 }))
      × Moved (2 ^ k) t.entries (replicate (2 ^ k) free_entry) es'
unfolding resize_hash
resize_hash-Moved t k dead room =
    let fresh = replicate (2 ^ k) free_entry in
    let none_live : live fresh ≡ 0 = total-replicate _ (2 ^ k) refl in
    let (es', p, m) =
      reinsert-Moved k t.entries fresh (length-replicate (2 ^ k) free_entry)
        (replicate-IsPlaced (2 ^ k) (2 ^ k)) (no_tomb_stones (2 ^ k)) (omega arith) in
    let agree : (count_tomb_stones t.entries == t.num_dead_entries) ≡ true = ground arith in
    (es', rw (agree, p), m)

pub live-replicate : (n : ℕ) → live (replicate n free_entry) ≡ 0
live-replicate n = total-replicate _ n refl

pub copies-replicate : (f : HashEntry) (n : ℕ) → copies f (replicate n free_entry) ≡ 0
copies-replicate f n = total-replicate _ n refl
