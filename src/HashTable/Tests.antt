-- ===== src/HashTable/Tests.antt =====
-- A table of four places that is filled, doubled and emptied, and the theorems at it.
use android_bootable_recover.Common.{
  ℕ, zero, suc, ◌+◌, ◌*◌, ◌^◌, ◌≤◌, ◌<◌, ◌≡◌, refl, ◌≢◌, ◌⊎◌, Bool, true, false, Option, none, some,
  [], ◌∷◌, arith, ◌==◌, set, replicate,
}
use android_bootable_recover.HashTable.{
  HashEntry, hash_size, count_tomb_stones, null, free_entry, HashTable, Run, ok, create, lookup,
  fault, round_up_power2, remove, foreach, clear, resize_hash, probe, add_entry, ◌>>=◌,
}
use android_bootable_recover.HashTable.Operations.{IsItem, lookup-Answer, lookup-Added, Added}
use android_bootable_recover.HashTable.Lookup.{Answer, Missing}
use android_bootable_recover.HashTable.Capacity.{added, lookup-hash_size}
use android_bootable_recover.HashTable.Clearing.{Cleared, clear-Cleared}
use android_bootable_recover.HashTable.Removal.{remove-Removed, Removed}
use android_bootable_recover.HashTable.PowerOfTwo.{create-IsValid}
use android_bootable_recover.HashTable.Contents.{copies, IsValid, IsPlaced, total}

abbrev same_item : ℕ → ℕ → Bool
same_item a b = a == b

runs : Unit {0}
unfolding create lookup remove add_entry resize_hash probe foreach clear
runs = tt

abbrev add : ℕ → ℕ → HashTable → Run HashTable
add h item t = lookup same_item t h item true >>= λ r. ok r.0

abbrev held : Option HashTable → Run HashTable
held none = fault
held (some t) = ok t

-- the third entry brings the load over five eighths
abbrev filled : Run HashTable
filled = create 3 >>= held >>= λ t. add 1 10 t >>= λ t. add 5 20 t >>= λ t. add 1 30 t

abbrev counts : HashTable → ℕ × ℕ × ℕ
counts t = (t.table_size, t.num_entries, t.num_dead_entries)

grows : (filled >>= λ t. ok (counts t)) ≡ ok (8, 3, 0)
unfolding runs
grows = refl

finds : (filled >>= λ t. lookup same_item t 5 20 false >>= λ r. ok r.1) ≡ ok 20
unfolding runs
finds = refl

removes : (filled >>= λ t. remove t 1 30 >>= λ r. ok (counts r.0)) ≡ ok (8, 2, 1)
unfolding runs
removes = refl

visits : (filled >>= λ t. ok (foreach (λ item s. (0, s + item)) t.entries 0)) ≡ ok (0, 60)
unfolding runs
visits = refl

abbrev four : HashTable
four = record {
  table_size = 2 ^ 2;
  num_entries = 0;
  num_dead_entries = 0;
  entries = replicate (2 ^ 2) free_entry;
}

ten : IsItem 10
ten = omega arith

-- the table of four places that holds item 10 under the hash value 1
abbrev one : HashTable
one = record four {
  num_entries = 1;
  entries = set four.entries 1 (record { hash_value = 1; item = 10 });
}

one-IsPlaced : IsPlaced one.entries 4
one-IsPlaced zero hj alive = cc
one-IsPlaced (suc zero) hj alive = (0, refl)
one-IsPlaced (suc (suc zero)) hj alive = cc
one-IsPlaced (suc (suc (suc zero))) hj alive = cc
one-IsPlaced (suc (suc (suc (suc j)))) hj alive = absurd (omega arith)

one-IsValid : IsValid one
unfolding total count_tomb_stones
one-IsValid = record {
  exponent = 2;
  sized = refl;
  width = refl;
  counted = refl;
  dead = refl;
  load = omega arith;
  placed = one-IsPlaced;
}

lookup-Answer_example :
    (r : ℕ) × (lookup same_item one 1 10 false ≡ ok (one, r)) × Answer same_item one 1 10 r
lookup-Answer_example = lookup-Answer same_item one-IsValid 1 10 ten

twenty : IsItem 20
twenty = omega arith

lookup-Added_example :
    ((r : ℕ) × (r ≢ null)
      × (lookup same_item one 5 20 true ≡ ok (one, r))
      × Answer same_item one 5 20 r)
    ⊎ ((t' : HashTable) × (lookup same_item one 5 20 true ≡ ok (t', 20))
        × Missing same_item one 5 20
        × Added same_item one-IsValid 5 20 twenty t')
lookup-Added_example = lookup-Added same_item one-IsValid 5 20 twenty

remove-Removed_example :
    (t' : HashTable) × (result : Bool) × (remove one 1 10 ≡ ok (t', result))
    × Removed one-IsValid 1 10 ten t' result
remove-Removed_example = remove-Removed one-IsValid 1 10 ten

clear-Cleared_example : Cleared one (clear one).0 (clear one).1
clear-Cleared_example = clear-Cleared one one-IsValid

clears : (filled >>= λ t. ok (clear t).1) ≡ ok (10 ∷ 30 ∷ 20 ∷ [])
unfolding runs
clears = refl

two_fit : hash_size 2 ≤ one.table_size
unfolding hash_size
two_fit = omega arith

-- Four places are enough for two entries.
lookup-hash_size_example :
    (t' : HashTable) × (r : ℕ) × (lookup same_item one 5 20 true ≡ ok (t', r))
    × ((t' ≡ one)
        ⊎ ((i : ℕ) × (i < 4)
            × (t' ≡ added same_item one 2 5 20 (omega arith) two_fit i)
            × (r ≡ 20)))
lookup-hash_size_example =
    lookup-hash_size same_item one 2 5 20 (omega arith) two_fit one-IsValid twenty

create-IsValid_example :
    ((3 ≤ 2 ^ 30)
      × ((t : HashTable) × (create 3 ≡ ok (some t))
          × IsValid t
          × (3 ≤ t.table_size)
          × (t.table_size < 2 * 3)
          × (t.num_entries ≡ 0)
          × (t.num_dead_entries ≡ 0)
          × ((f : HashEntry) → copies f t.entries ≡ 0)))
    ⊎ ((2 ^ 30 < 3) × (create 3 ≡ ok none))
create-IsValid_example = create-IsValid 3 (omega arith) (omega arith)

created_too_large : create (2 ^ 30 + 1) ≡ ok none
unfolding create round_up_power2
created_too_large = refl
