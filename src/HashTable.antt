-- ===== src/HashTable.antt =====
-- The hash table of minzip/Hash.c and minzip/Hash.h: open addressing with linear probing,
-- tombstones, and a resize that reinserts.
--
-- An item is an address. NULL and HASH_TOMBSTONE are addresses that no item has. But for the size of a
-- new table, counts stay far below the limits of `int`, so they are plain numbers.
pub mod Probing
pub mod Contents
pub mod Place
pub mod PowerOfTwo
pub mod Lookup
pub mod Operations
pub mod Capacity
pub mod Clearing
pub mod Removal
pub mod Resize
mod Tests
use android_bootable_recover.Common.{
  ℕ, zero, suc, ◌+◌, ◌-◌, ◌*◌, ◌/◌, ◌%◌, ◌^◌, bit_and, bit_or, Bool, true, false, not, ◌&&◌, Option,
  none, some, List, [], ◌∷◌, ltb, leb, ◌==◌, if◌then◌else◌, set, get_or, replicate,
}

abbrev pub null : ℕ
null = 0

abbrev pub hash_tombstone : ℕ
hash_tombstone = 0xcbcacccd

pub record HashEntry : Type 0 where
  pub hash_value : ℕ
  pub item : ℕ

pub record HashTable : Type 0 where
  pub table_size : ℕ
  pub num_entries : ℕ
  pub num_dead_entries : ℕ
  pub entries : List HashEntry

-- `fault` is a failed `assert` or a step past the end of the array, `hang` a probe that goes round
-- the table for ever.
pub data Run (A : Type 0) : Type 0 where
  ok : A → Run A
  fault hang : Run A

infixl 5 ◌>>=◌
abbrev pub ◌>>=◌ : {A B : Type 0} → Run A → (A → Run B) → Run B
ok a >>= f = f a
fault >>= f = fault
hang >>= f = hang

abbrev pub free_entry : HashEntry
free_entry = record { hash_value = 0; item = null }

abbrev pub entry : List HashEntry → ℕ → HashEntry
entry es i = get_or es i free_entry

abbrev pub is_live : HashEntry → Bool
is_live e = not (e.item == null) && not (e.item == hash_tombstone)

-- `mzHashSize`
unfoldable pub hash_size : ℕ → ℕ
hash_size size = size * 8 / 5 + 1

-- `roundUpPower2`, on an unsigned int: `val--` wraps, and so does `val++`
unfoldable pub round_up_power2 : ℕ → ℕ
round_up_power2 val =
    let v0 = (val + 2 ^ 32 - 1) % 2 ^ 32 in
    let v1 = bit_or v0 (v0 / 2 ^ 1) in
    let v2 = bit_or v1 (v1 / 2 ^ 2) in
    let v3 = bit_or v2 (v2 / 2 ^ 4) in
    let v4 = bit_or v3 (v3 / 2 ^ 8) in let v5 = bit_or v4 (v4 / 2 ^ 16) in (v5 + 1) % 2 ^ 32

-- `mzHashTableCreate`; `none` is NULL. A size of 2^31 is negative as an `int`, so that `calloc` fails;
-- other sizes are granted.
unfoldable pub create : ℕ → Run (Option HashTable)
unfolding round_up_power2
create initial_size =
    let size = round_up_power2 initial_size in
    if initial_size == 0
    then fault
    else if leb (2 ^ 31) size
    then ok none
    else ok (
        some (record {
          table_size = size;
          num_entries = 0;
          num_dead_entries = 0;
          entries = replicate size free_entry;
        }))

-- `mzHashTableClear` keeps the hash values; the second part is what the free function is called on.
unfoldable pub clear_entries : List HashEntry → List HashEntry × List ℕ
clear_entries [] = ([], [])
clear_entries (e ∷ es) =
    let (cleared, freed) = clear_entries es in
    (record e { item = null } ∷ cleared, if is_live e then e.item ∷ freed else freed)

unfoldable pub clear : HashTable → HashTable × List ℕ
unfolding clear_entries
clear t =
    let (cleared, freed) = clear_entries t.entries in
    (record t { num_entries = 0; num_dead_entries = 0; entries = cleared }, freed)

-- `countTombStones`
unfoldable pub count_tomb_stones : List HashEntry → ℕ
count_tomb_stones [] = 0
count_tomb_stones (e ∷ es) = (if e.item == hash_tombstone then 1 else 0) + count_tomb_stones es

-- The loop of `resizeHash` that looks for a free place, from `i` on. `fuel` bounds its rounds.
unfoldable pub free_place : ℕ → List HashEntry → ℕ → ℕ → Run ℕ
free_place zero es size i = hang
free_place (suc fuel) es size i =
    let next = free_place fuel es size (bit_and (i + 1) (size - 1)) in
    if (entry es i).item == null then ok i else next

unfoldable pub reinsert : ℕ → List HashEntry → List HashEntry → Run (List HashEntry)
unfolding free_place
reinsert size [] fresh = ok fresh
reinsert size (e ∷ es) fresh =
    let skip = reinsert size es fresh in
    let place = free_place size fresh size (bit_and e.hash_value (size - 1)) in
    if is_live e then (place >>= λ i. reinsert size es (set fresh i e)) else skip

unfoldable pub resize_hash : HashTable → ℕ → Run HashTable
unfolding reinsert count_tomb_stones
resize_hash t new_size =
    if count_tomb_stones t.entries == t.num_dead_entries
    then (reinsert new_size t.entries (replicate new_size free_entry) >>= λ fresh.
        ok (record t { entries = fresh; table_size = new_size; num_dead_entries = 0 }))
    else fault

-- The probe loops step to the next entry and wrap round at the end; in a table of one entry they
-- leave the loop one past the end.
unfoldable pub probe : (HashEntry → Bool) → ℕ → List HashEntry → ℕ → ℕ → Run ℕ
probe found zero es size i = hang
probe found (suc fuel) es size i =
    let wrapped = if size == 1 then fault else probe found fuel es size 0 in
    let next = if i + 1 == size then wrapped else probe found fuel es size (i + 1) in
    if (entry es i).item == null then ok i else if found (entry es i) then ok i else next

-- `mzHashTableRemove` compares addresses, and a failed search returns false.
unfoldable pub remove : HashTable → ℕ → ℕ → Run (HashTable × Bool)
remove t item_hash item =
    if ltb 0 t.table_size
    then (probe (λ e. e.item == item) t.table_size t.entries t.table_size
          (bit_and item_hash (t.table_size - 1))
        >>= λ i.
            if (entry t.entries i).item == null
            then ok (t, false)
            else ok (
              record t {
                entries = set t.entries i (record (entry t.entries i) { item = hash_tombstone });
                num_entries = t.num_entries - 1;
                num_dead_entries = t.num_dead_entries + 1;
              },
              true,
            ))
    else fault

module _ (compare_items : ℕ → ℕ → Bool) where
  -- the test of `mzHashTableLookup`; `compare_items` says whether the comparison returns 0
  abbrev pub matches : ℕ → ℕ → HashEntry → Bool
  matches item_hash item e = is_live e && (e.hash_value == item_hash && compare_items e.item item)

  -- `numEntries` is counted up before the load is looked at
  unfoldable pub add_entry : HashTable → ℕ → ℕ → ℕ → Run (HashTable × ℕ)
  add_entry t i item_hash item =
      let t' = record t {
        entries = set t.entries i (record { hash_value = item_hash; item = item });
        num_entries = t.num_entries + 1;
      } in
      (if ltb (t'.table_size * 5) ((t'.num_entries + t'.num_dead_entries) * 8)
        then resize_hash t' (t'.table_size * 2)
        else ok t')
      >>= λ t''. if ltb t''.num_entries t''.table_size then ok (t'', item) else fault

  unfoldable pub lookup : HashTable → ℕ → ℕ → Bool → Run (HashTable × ℕ)
  lookup t item_hash item do_add =
      if ltb 0 t.table_size && (not (item == hash_tombstone) && not (item == null))
      then (probe (matches item_hash item) t.table_size t.entries t.table_size
            (bit_and item_hash (t.table_size - 1))
          >>= λ i.
              if (entry t.entries i).item == null
              then (if do_add then add_entry t i item_hash item else ok (t, null))
              else ok (t, (entry t.entries i).item))
      else fault

-- `mzHashForeach`: the first result that is not 0 ends the walk. `visit` gets the state that its
-- earlier calls left.
unfoldable pub foreach : {S : Type 0} → (ℕ → S → ℕ × S) → List HashEntry → S → ℕ × S
foreach visit [] s = (0, s)
foreach visit (e ∷ es) s =
    let (val, s') = visit e.item s in
    let rest = foreach visit es s' in
    let skipped = foreach visit es s in
    if is_live e then (if val == 0 then rest else (val, s')) else skipped
