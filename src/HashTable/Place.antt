-- ===== src/HashTable/Place.antt =====
-- Writes to one place of the array of minzip/Hash.c: an entry put at a free place, and a tombstone.
use android_bootable_recover.Common.{
  ℕ, zero, suc, ◌+◌, ◌-◌, ◌^◌, ◌<◌, bit_and, ◌≡◌, refl, ap, ◌≢◌, inl, inr, true, ◌&&◌, List, arith,
  ◌==◌, Bool-cases, length, set, length-set,
}
use android_bootable_recover.Common.Bits.{bit_and-le, bit_and_next, one-le-two_pow}
use android_bootable_recover.HashTable.{
  HashEntry, ok, null, entry, is_live, count_tomb_stones, free_place,
}
use android_bootable_recover.HashTable.Probing.{Walks, IsFree, IsUsed, Walks-more, next, distance}
use android_bootable_recover.HashTable.Contents.{
  bit, same, is_tombstone, copies, live, count_tomb_stones-total, total-set, entry-set, IsPlaced,
}

abbrev pub home : ℕ → ℕ → ℕ
home hash_value size = bit_and hash_value (size - 1)

pub home-lt : (k hash_value : ℕ) → home hash_value (2 ^ k) < 2 ^ k
home-lt k h = omega (arith, bit_and-le h (2 ^ k - 1), one-le-two_pow k)

-- What one write changes: `e` took the place of a free entry.
pub record Placed (es : List HashEntry) (size : ℕ) (e : HashEntry) (es' : List HashEntry)
    : Type 0 where
  pub width : length es' ≡ length es
  pub placed : IsPlaced es' size
  pub live_more : live es' ≡ live es + 1
  pub dead_same : count_tomb_stones es' ≡ count_tomb_stones es
  pub copies_more : (f : HashEntry) → copies f es' ≡ copies f es + bit (same e f)

module _ (es : List HashEntry) (size r : ℕ) (hr : r < size) (wide : length es ≡ size) where
  inside : r < length es
  inside = rw wide hr

  used_set :
      (e : HashEntry) → e.item ≢ null → (k : ℕ) → IsUsed es k → (entry (set es r e) k).item ≢ null
  used_set e ne k used = rw (entry-set es r k e inside) (ground arith)

  pub IsPlaced-set :
      (e : HashEntry)
      → e.item ≢ null
      → IsPlaced es size
      → (is_live e ≡ true → (n : ℕ) × Walks es size n (home e.hash_value size) r)
      → IsPlaced (set es r e) size
  IsPlaced-set e ne placed way j hj lj = elim (Bool-cases (r == j)) [
    | inl here ↦
        let at : entry (set es r e) j ≡ e = rw (entry-set es r j e inside, here) in
        let e' : r ≡ j = ground arith in
        let (n, w) = way (rw at at lj) in
        (n, rw at (Walks-more es size (set es r e) (used_set e ne) n _ j (rw e' at w)))
    | inr there ↦
        let at : entry (set es r e) j ≡ entry es j = rw (entry-set es r j e inside, there) in
        let (n, w) = placed j hj (rw at at lj) in
        (n, rw at (Walks-more es size (set es r e) (used_set e ne) n _ j w))
  ]

  pub set-Placed :
      (e : HashEntry) (n : ℕ)
      → IsFree es r
      → is_live e ≡ true
      → IsPlaced es size
      → Walks es size n (home e.hash_value size) r
      → Placed es size e (set es r e)
  set-Placed e n free alive placed way = record {
    width = length-set es r e;
    placed = IsPlaced-set e (ground arith) placed (λ _. (n, way));
    live_more = ground (arith, total-set (λ e. bit (is_live e)) es r e inside);
    dead_same = ground (
      arith,
      count_tomb_stones-total es,
      count_tomb_stones-total (set es r e),
      total-set (λ e. bit (is_tombstone e)) es r e inside,
    );
    copies_more = λ f. ground (arith, total-set (λ e. bit (is_live e && same e f)) es r e inside);
  }

-- The loop of `resizeHash` finds a free place, over used places only.
module _ (es : List HashEntry) (k : ℕ) where
  pub free_place_stops :
      (fuel i z : ℕ)
      → i < 2 ^ k
      → z < 2 ^ k
      → IsFree es z
      → distance es (2 ^ k) i z < fuel
      → (r : ℕ) × (free_place fuel es (2 ^ k) i ≡ ok r)
        × (r < 2 ^ k)
        × ((n : ℕ) × Walks es (2 ^ k) n i r)
        × IsFree es r
  unfolding free_place
  free_place_stops zero i z hi hz free d = absurd (omega arith)
  free_place_stops (suc fuel) i z hi hz free d = elim (Bool-cases ((entry es i).item == null)) [
    | inl stop ↦ (i, rw stop, hi, (0, refl), ground arith)
    | inr used ↦
        let apart : i ≢ z = λ e. (ground (arith, ap (λ k. (entry es k).item) e)) in
        let (r, p, hr, (n, w), stop) =
          free_place_stops fuel (next (2 ^ k) i) z (ground arith) hz free (ground arith) in
        (r, rw (used, bit_and_next k i hi) p, hr, (suc n, (ground arith, w)), stop)
  ]
