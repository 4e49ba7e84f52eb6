-- ===== src/HashTable/Clearing.antt =====
-- `mzHashTableClear` and `mzHashForeach` of minzip/Hash.c.
use android_bootable_recover.Common.{
  ℕ, zero, suc, ◌≡◌, refl, sym, ap, ◌∙◌, inl, inr, List, [], ◌∷◌, arith, ◌==◌, if◌then◌else◌,
  Bool-cases, length,
}
use android_bootable_recover.HashTable.{
  HashEntry, HashTable, null, entry, is_live, count_tomb_stones, clear, clear_entries, foreach,
}
use android_bootable_recover.HashTable.Contents.{copies, live, total, IsValid}

-- The items are visited until one visit gives a number other than 0.
abbrev pub visit_all : {S : Type 0} → (ℕ → S → ℕ × S) → List ℕ → S → ℕ × S
visit_all visit [] s = (0, s)
visit_all visit (item ∷ items) s =
    let (val, s') = visit item s in
    let rest = visit_all visit items s' in if val == 0 then rest else (val, s')

clear_entries-visit :
    {S : Type 0} (visit : ℕ → S → ℕ × S) (es : List HashEntry) (s : S)
    → foreach visit es s ≡ visit_all visit (clear_entries es).1 s
unfolding foreach clear_entries
clear_entries-visit visit [] s = refl
clear_entries-visit visit (e ∷ es) s = elim (Bool-cases (is_live e)) [
  | inl alive ↦ rw (alive, clear_entries-visit visit es (visit e.item s).1)
  | inr gone ↦ rw (gone, clear_entries-visit visit es s)
]

all_free : (es : List HashEntry) (i : ℕ) → (entry (clear_entries es).0 i).item ≡ null
unfolding clear_entries
all_free [] i = refl
all_free (e ∷ es) zero = refl
all_free (e ∷ es) (suc i) = all_free es i

length-clear_entries : (es : List HashEntry) → length (clear_entries es).0 ≡ length es
unfolding clear_entries
length-clear_entries [] = refl
length-clear_entries (e ∷ es) = ap suc (length-clear_entries es)

length_freed : (es : List HashEntry) → length (clear_entries es).1 ≡ live es
unfolding clear_entries total
length_freed [] = refl
length_freed (e ∷ es) = ground (arith, length_freed es)

nothing_live : (es : List HashEntry) → live (clear_entries es).0 ≡ 0
unfolding clear_entries total
nothing_live [] = refl
nothing_live (e ∷ es) = ground (arith, nothing_live es)

nothing_dead : (es : List HashEntry) → count_tomb_stones (clear_entries es).0 ≡ 0
unfolding clear_entries count_tomb_stones
nothing_dead [] = refl
nothing_dead (e ∷ es) = ground (arith, nothing_dead es)

nothing_held : (f : HashEntry) (es : List HashEntry) → copies f (clear_entries es).0 ≡ 0
unfolding clear_entries total
nothing_held f [] = refl
nothing_held f (e ∷ es) = ground (arith, nothing_held f es)

-- A table after it was cleared, with the items that were freed.
pub record Cleared (t : HashTable) (t' : HashTable) (freed : List ℕ) : Type 1 where
  pub valid' : IsValid t'
  pub same_size : t'.table_size ≡ t.table_size
  pub empty : (f : HashEntry) → copies f t'.entries ≡ 0
  pub each_freed : length freed ≡ t.num_entries
  pub visited :
      {S : Type 0} (visit : ℕ → S → ℕ × S) (s : S)
      → foreach visit t.entries s ≡ visit_all visit freed s

-- Clearing a valid table leaves a valid table of the same size that holds nothing. The free function
-- is called as often as there are entries, on the items that `mzHashForeach` visits, in its order.
pub clear-Cleared : (t : HashTable) → IsValid t → Cleared t (clear t).0 (clear t).1
unfolding clear
clear-Cleared t valid = record {
  valid' = record {
    exponent = valid.exponent;
    sized = valid.sized;
    width = length-clear_entries t.entries ∙ valid.width;
    counted = sym (nothing_live t.entries);
    dead = sym (nothing_dead t.entries);
    load = omega arith;
    placed = λ j h alive. absurd (ground (arith, all_free t.entries j));
  };
  same_size = refl;
  empty = λ f. nothing_held f t.entries;
  each_freed = length_freed t.entries ∙ sym valid.counted;
  visited = λ visit s. clear_entries-visit visit t.entries s;
}
