-- ===== src/HashTable/Contents.antt =====
-- What a table holds, and the invariant between calls of minzip/Hash.c.
use android_bootable_recover.Common.{
  ℕ, zero, suc, ◌+◌, ◌-◌, ◌*◌, ◌^◌, ◌≤◌, ◌<◌, bit_and, ◌≡◌, refl, inl, inr, Bool, true, false, ◌&&◌,
  List, [], ◌∷◌, arith, ltb, ◌==◌, if◌then◌else◌, ltb→lt, Bool-cases, length, set,
}
use android_bootable_recover.HashTable.{
  HashEntry, HashTable, null, hash_tombstone, entry, is_live, count_tomb_stones,
}
use android_bootable_recover.HashTable.Probing.{Walks, IsFree}

abbrev pub bit : Bool → ℕ
bit true = 1
bit false = 0

-- the sum of a weight over all entries
unfoldable pub total : (HashEntry → ℕ) → List HashEntry → ℕ
total weight [] = 0
total weight (e ∷ es) = weight e + total weight es

abbrev pub same : HashEntry → HashEntry → Bool
same e f = e.hash_value == f.hash_value && e.item == f.item

abbrev pub is_tombstone : HashEntry → Bool
is_tombstone e = e.item == hash_tombstone

-- how often the table holds `f`
abbrev pub copies : HashEntry → List HashEntry → ℕ
copies f es = total (λ e. bit (is_live e && same e f)) es

abbrev pub live : List HashEntry → ℕ
live es = total (λ e. bit (is_live e)) es

pub count_tomb_stones-total :
    (es : List HashEntry) → count_tomb_stones es ≡ total (λ e. bit (is_tombstone e)) es
unfolding count_tomb_stones total
count_tomb_stones-total [] = refl
count_tomb_stones-total (e ∷ es) = ground (arith, count_tomb_stones-total es)

pub total-set :
    (weight : HashEntry → ℕ) (es : List HashEntry) (i : ℕ) (e : HashEntry)
    → i < length es
    → total weight (set es i e) + weight (entry es i) ≡ total weight es + weight e
unfolding total
total-set weight [] i e h = absurd (omega arith)
total-set weight (x ∷ es) zero e h = omega arith
total-set weight (x ∷ es) (suc i) e h = omega (arith, total-set weight es i e (omega arith))

pub total_some :
    (weight : HashEntry → ℕ) (es : List HashEntry)
    → 0 < total weight es
    → (j : ℕ) × (j < length es) × (0 < weight (entry es j))
unfolding total
total_some weight [] h = absurd (omega arith)
total_some weight (e ∷ es) h = elim (Bool-cases (ltb 0 (weight e))) [
  | inl here ↦ (0, omega arith, omega (arith, ltb→lt))
  | inr other ↦ let (j, p, q) = total_some weight es (ground arith) in (suc j, omega arith, q)
]

pub weight_some :
    (weight : HashEntry → ℕ) (es : List HashEntry) (j : ℕ)
    → j < length es
    → weight (entry es j) ≤ total weight es
unfolding total
weight_some weight [] j h = absurd (omega arith)
weight_some weight (e ∷ es) zero h = omega arith
weight_some weight (e ∷ es) (suc j) h = omega (arith, weight_some weight es j (omega arith))

pub entry-set :
    (es : List HashEntry) (i j : ℕ) (e : HashEntry)
    → i < length es
    → entry (set es i e) j ≡ (if i == j then e else entry es j)
entry-set [] i j e h = absurd (omega arith)
entry-set (x ∷ es) zero zero e h = refl
entry-set (x ∷ es) zero (suc j) e h = ground arith
entry-set (x ∷ es) (suc i) zero e h = ground arith
entry-set (x ∷ es) (suc i) (suc j) e h = ground (arith, entry-set es i j e (omega arith))

-- fewer live entries and tombstones than places leave a free place
pub some-IsFree :
    (es : List HashEntry)
    → live es + count_tomb_stones es < length es
    → (z : ℕ) × (z < length es) × IsFree es z
unfolding total count_tomb_stones
some-IsFree [] h = absurd (omega arith)
some-IsFree (e ∷ es) h = elim (Bool-cases (e.item == null)) [
  | inl free ↦ (0, omega arith, ground arith)
  | inr used ↦ let (z, p, q) = some-IsFree es (ground arith) in (suc z, omega arith, q)
]

-- From the place that its hash value names, used places lead to each live entry.
abbrev pub IsPlaced : List HashEntry → ℕ → Type 0
IsPlaced es size =
    (j : ℕ)
    → j < size
    → is_live (entry es j) ≡ true
    → (n : ℕ) × Walks es size n (bit_and (entry es j).hash_value (size - 1)) j

pub record IsValid (t : HashTable) : Type 0 where
  pub exponent : ℕ
  pub sized : t.table_size ≡ 2 ^ exponent
  pub width : length t.entries ≡ t.table_size
  pub counted : t.num_entries ≡ live t.entries
  pub dead : t.num_dead_entries ≡ count_tomb_stones t.entries
  pub load : (t.num_entries + t.num_dead_entries) * 8 ≤ t.table_size * 5
  pub placed : IsPlaced t.entries t.table_size
