-- ===== src/ApplyPatch/Load/Tests.antt =====
-- A device of four bytes, a sum that is its length, and digests of two and of four bytes.
use mathlib.Core.List.{Memᴰ}
use android_bootable_recover.Common.{
  ℕ, ◌≤◌, ◌≡◌, refl, sym, subst, ◌↔◌, inl, inr, true, false, none, some, List, [], ◌∷◌, ◌++◌, arith,
  leb, if◌then◌else◌, leb→le, Bool-cases, length, take, drop, replicate,
}
use android_bootable_recover.Common.Int.{pos, negsuc}
use android_bootable_recover.Edify.Text.{CString, codes, strcmp}
use android_bootable_recover.Edify.Number.{strtol}
use android_bootable_recover.ApplyPatch.Sha.{parse_sha1, find_matching_patch}
use android_bootable_recover.ApplyPatch.Sha.Digits.{
  Spells, parse_sha1_iff, lower_all, show_sha1, all_bytes,
}
use android_bootable_recover.ApplyPatch.Sha.Matching.{First, find_matching_patch-First}
use android_bootable_recover.ApplyPatch.Load.{
  Pair, Files, loaded, absent, no_meta, load_pairs, load_partition_contents, applypatch_check,
}
use android_bootable_recover.ApplyPatch.Load.Partition.{
  IsAscending, IsSort, IsPrefix, Shortest, load_sorted-Shortest,
}

abbrev device : List ℕ
device = 7 ∷ 8 ∷ 9 ∷ 10 ∷ []

abbrev sum : List ℕ → List ℕ
sum bytes = length bytes ∷ replicate 19 0

abbrev two_bytes : CString
two_bytes = codes "0200000000000000000000000000000000000000"

abbrev four_bytes : CString
four_bytes = codes "0400000000000000000000000000000000000000"

runs : Unit {0}
unfolding parse_sha1 find_matching_patch lower_all show_sha1 all_bytes strtol
    load_partition_contents applypatch_check strcmp
runs = tt

parse_sha1_iff_example :
    (parse_sha1 two_bytes ≡ some (2 ∷ replicate 19 0)) ↔ Spells 20 two_bytes (2 ∷ replicate 19 0)
parse_sha1_iff_example = parse_sha1_iff two_bytes (2 ∷ replicate 19 0)

parses :
    parse_sha1 (codes "aB00000000000000000000000000000000000010")
    ≡ some (171 ∷ replicate 18 0 ++ 16 ∷ [])
unfolding runs
parses = refl

-- what follows the digits is not read over
rejects : parse_sha1 (two_bytes ++ codes ":x") ≡ none
unfolding runs
rejects = refl

find_matching_patch-First_example :
    First
      (4 ∷ replicate 19 0)
      (two_bytes ∷ four_bytes ∷ [])
      0
      (find_matching_patch (4 ∷ replicate 19 0) (two_bytes ∷ four_bytes ∷ []))
find_matching_patch-First_example =
    find_matching_patch-First (4 ∷ replicate 19 0) (two_bytes ∷ four_bytes ∷ [])

-- an order of the pairs as `qsort` gives one
unfoldable insert : Pair → List Pair → List Pair
insert p [] = p ∷ []
insert p (q ∷ qs) = let rest = insert p qs in if leb p.size q.size then p ∷ q ∷ qs else q ∷ rest

unfoldable sort : List Pair → List Pair
unfolding insert
sort [] = []
sort (p ∷ ps) = insert p (sort ps)

insert-IsAscending :
    (base : ℕ) (p : Pair) (qs : List Pair)
    → base ≤ p.size
    → IsAscending base qs
    → IsAscending base (insert p qs)
unfolding insert IsAscending
insert-IsAscending base p [] h asc = (h, tt)
insert-IsAscending base p (q ∷ qs) h asc = elim (Bool-cases (leb p.size q.size)) [
  | inl first ↦ rw first (h, (leb→le _ _ first, asc.1))
  | inr later ↦ rw later (asc.0, insert-IsAscending q.size p qs (ground arith) asc.1)
]

sort-IsAscending : (ps : List Pair) → IsAscending 0 (sort ps)
unfolding sort IsAscending
sort-IsAscending [] = tt
sort-IsAscending (p ∷ ps) = insert-IsAscending 0 p (sort ps) (omega arith) (sort-IsAscending ps)

insert_kept : (p : Pair) (qs : List Pair) (r : Pair) → Memᴰ r (insert p qs) ↔ Memᴰ r (p ∷ qs)
unfolding insert
insert_kept p [] r = (λ m. m, λ m. m)
insert_kept p (q ∷ qs) r = elim (Bool-cases (leb p.size q.size)) [
  | inl first ↦ rw first (λ m. m, λ m. m)
  | inr later ↦ rw later (forth (insert_kept p qs r), back (insert_kept p qs r))
]
  where
    forth :
        (Memᴰ r (insert p qs) ↔ Memᴰ r (p ∷ qs)) → Memᴰ r (q ∷ insert p qs) → Memᴰ r (p ∷ q ∷ qs)
    forth below (Memᴰ.head e) = Memᴰ.tail (Memᴰ.head e)
    forth below (Memᴰ.tail m) = elim (below.0 m) [
      | Memᴰ.head e ↦ Memᴰ.head e
      | Memᴰ.tail n ↦ Memᴰ.tail (Memᴰ.tail n)
    ]

    back : (Memᴰ r (insert p qs) ↔ Memᴰ r (p ∷ qs)) → Memᴰ r (p ∷ q ∷ qs) → Memᴰ r (q ∷ insert p qs)
    back below (Memᴰ.head e) = Memᴰ.tail (below.1 (Memᴰ.head e))
    back below (Memᴰ.tail (Memᴰ.head e)) = Memᴰ.head e
    back below (Memᴰ.tail (Memᴰ.tail m)) = Memᴰ.tail (below.1 (Memᴰ.tail m))

sort_kept : (ps : List Pair) (p : Pair) → Memᴰ p (sort ps) ↔ Memᴰ p ps
unfolding sort
sort_kept [] p = (λ m. m, λ m. m)
sort_kept (q ∷ ps) p = (
  λ m. elim ((insert_kept q (sort ps) p).0 m) [
    | Memᴰ.head e ↦ Memᴰ.head e
    | Memᴰ.tail n ↦ Memᴰ.tail ((sort_kept ps p).0 n)
  ],
  λ m.
      (insert_kept q (sort ps) p).1
        (elim m [ Memᴰ.head e ↦ Memᴰ.head e | Memᴰ.tail n ↦ Memᴰ.tail ((sort_kept ps p).1 n) ]),
)

sort-IsSort : IsSort sort
sort-IsSort = record { kept = sort_kept; ascending = sort-IsAscending }

abbrev larger : Pair
larger = record { size = 4; sha1sum = some four_bytes }

abbrev smaller : Pair
smaller = record { size = 2; sha1sum = some two_bytes }

prefixes : (p : Pair) → Memᴰ p (larger ∷ smaller ∷ []) → IsPrefix sum device p
unfolding runs
prefixes p (Memᴰ.head e) = subst (IsPrefix sum device) (sym e) (record {
  inside = omega arith;
  text = four_bytes;
  given = refl;
  digest = 4 ∷ replicate 19 0;
  parsed = refl;
})
prefixes p (Memᴰ.tail (Memᴰ.head e)) = subst (IsPrefix sum device) (sym e) (record {
  inside = omega arith;
  text = two_bytes;
  given = refl;
  digest = 2 ∷ replicate 19 0;
  parsed = refl;
})
prefixes p (Memᴰ.tail (Memᴰ.tail m)) = elim m [ ]

load_sorted-Shortest_example :
    Shortest sum device
      (larger ∷ smaller ∷ [])
      (load_pairs sum (λ p n. take n (drop p device)) (sort (larger ∷ smaller ∷ [])) [])
load_sorted-Shortest_example =
    load_sorted-Shortest sum device (λ p n. take n (drop p device)) (λ p n. refl) (omega arith) sort
      sort-IsSort (larger ∷ smaller ∷ []) prefixes

abbrev files : Files
files = record {
  open_file = λ name. absent;
  find_partition = λ name. false;
  open_device = λ name. true;
  read_partition = λ name p n. [];
  read_device = λ name p n. take n (drop p device);
}

abbrev source_name : CString
source_name = codes "EMMC:/dev/b:4:" ++ four_bytes ++ codes ":2:" ++ two_bytes

loads :
    load_partition_contents sum files sort source_name
    ≡ loaded (record { sha1 = sum (7 ∷ 8 ∷ []); bytes = 7 ∷ 8 ∷ []; st = no_meta })
unfolding runs sort
loads = refl

checks : applypatch_check sum files sort source_name (two_bytes ∷ []) ≡ some (pos 0)
unfolding runs sort
checks = refl

checks_missing :
    applypatch_check sum files sort (codes "/system/a") (two_bytes ∷ []) ≡ some (negsuc 1)
unfolding runs sort
checks_missing = refl
