-- ===== src/Zip/Archive/Open.antt =====
-- What opening an archive promises: the entry points of minzip/Zip.c.
use android_bootable_recover.Common.{
  ℕ, ◌+◌, ◌-◌, ◌*◌, ◌^◌, ◌≤◌, ◌<◌, ◌≡◌, ◌≢◌, ◌⊎◌, inl, inr, not, some, List, [], arith, ltb, leb,
  ◌==◌, leb→le, length,
}
use android_bootable_recover.HashTable
use android_bootable_recover.HashTable.{null, HashTable, HashEntry, hash_size}
use android_bootable_recover.HashTable.Contents.{copies, IsValid}
use android_bootable_recover.HashTable.PowerOfTwo.{create-IsValid}
use android_bootable_recover.Zip.{ZipEntry, ok, ◌>>=◌, endsig, locsig, name_at}
use android_bootable_recover.Zip.Insert.{IsSorted}
use android_bootable_recover.Zip.Parse.{Machine, find_eocd, parse_entries}
use android_bootable_recover.Zip.Parse.Safety.{
  Ensures, require-Ensures, get4_le-Ensures, get2_le-Ensures, bind-Ensures, ok-Ensures, Wide,
  AllGood, find_eocd-Ensures, parse_entries-Ensures,
}
use android_bootable_recover.Zip.Archive.{
  Layout, ZipArchive, of_run, granted, add_entries, parse_zip_archive, open_zip_archive,
  find_zip_entry,
}
use android_bootable_recover.Zip.Archive.Index.{IsLayout, Indexes, add_entries-Indexes, find-Found}
use android_bootable_recover.HashTable.Operations.{IsItem}

-- An open archive: its entries are sorted and good, and its table holds one of each name.
pub record IsOpen (layout : Layout) (m : List ℕ) (a : ZipArchive) : Type 0 where
  pub counted : length a.entries ≡ a.num_entries
  pub some_entry : 0 < a.num_entries
  pub few : a.num_entries < 2 ^ 16
  pub sorted : IsSorted a.entries
  pub good : AllGood m a.entries
  pub indexed : Indexes layout a.entries a.num_entries a.hash

created_Indexes :
    (layout : Layout) (es : List ZipEntry) (t : HashTable)
    → IsValid t
    → ((f : HashEntry) → copies f t.entries ≡ 0)
    → Indexes layout es 0 t
created_Indexes layout es t valid empty = record {
  valid = valid;
  sound = λ f h. absurd (omega (arith, empty f));
  complete = λ i h. absurd (omega arith);
}

hash_size_bounds : (n : ℕ) → n < 2 ^ 16 → (1 ≤ hash_size n) × (hash_size n ≤ 2 ^ 30)
unfolding hash_size
hash_size_bounds n h = (omega arith, omega arith)

none-IsSorted : IsSorted []
none-IsSorted = record {
  ordered = λ i j h k. absurd (omega arith);
  printable = λ i h. absurd (omega arith);
}

none-AllGood : (m : List ℕ) → AllGood m []
none-AllGood m i h = absurd (omega arith)

created :
    (n : ℕ)
    → 1 ≤ n
    → n ≤ 2 ^ 30
    → (t : HashTable) × (HashTable.create n ≡ HashTable.ok (some t))
      × IsValid t
      × (n ≤ t.table_size)
      × (t.table_size < 2 * n)
      × (t.num_entries ≡ 0)
      × (t.num_dead_entries ≡ 0)
      × ((f : HashEntry) → copies f t.entries ≡ 0)
created n h k = elim (create-IsValid n h (omega arith)) [
  | inl made ↦ made.1
  | inr none_made ↦ absurd (omega (arith, none_made.0))
]

few-IsLayout :
    (layout : Layout) → IsLayout layout (2 ^ 16) → (n : ℕ) → n < 2 ^ 16 → IsLayout layout n
few-IsLayout layout laid n h = record {
  proper = λ i k. laid.proper i (omega arith);
  back = λ i k. laid.back i (omega arith);
}

module _ (layout : Layout) (laid : IsLayout layout (2 ^ 16)) (machine : Machine) (m : List ℕ)
    (wide : Wide machine m) where
  -- the entries once read: the table is made and filled
  fill :
      (n at : ℕ)
      → 0 < n
      → n < 2 ^ 16
      → Ensures
          (of_run (HashTable.create (hash_size n)) >>= λ created. granted created >>= λ hash.
            parse_entries machine m n at [] >>= λ es. add_entries layout es n 0 hash >>= λ filled.
            ok (record { num_entries = n; entries = es; hash = filled }))
          (IsOpen layout m)
  unfolding of_run granted ◌>>=◌
  fill n at positive hn =
      let P = IsOpen layout m in
      let size = hash_size_bounds n hn in
      let (t, made, valid, _, _, _, _, empty) = created (hash_size n) size.0 size.1 in
      rw (made, of_run, ◌>>=◌, granted, ◌>>=◌)
        (bind-Ensures (λ es. IsSorted es × AllGood m es × (length es ≡ n + 0)) P
          (parse_entries machine m n at []) _
          (parse_entries-Ensures machine m wide n at [] none-IsSorted (none-AllGood m))
          (λ es r.
            let (t', run, ix) =
              add_entries-Indexes layout es n (few-IsLayout layout laid n hn) n 0 t (omega arith)
                (created_Indexes layout es t valid empty) in
            rw (run, ◌>>=◌)
              (ok-Ensures P (record { num_entries = n; entries = es; hash = t' })
                (record {
                  counted = omega (arith, r.2);
                  some_entry = positive;
                  few = hn;
                  sorted = r.0;
                  good = r.1;
                  indexed = ix;
                }))))

  parse_zip_archive-Ensures :
      22 ≤ length m → Ensures (parse_zip_archive layout machine m) (IsOpen layout m)
  unfolding parse_zip_archive
  parse_zip_archive-Ensures h =
      let P = IsOpen layout m in
      get4_le-Ensures P m 0 _ (omega arith) (λ val _.
        require-Ensures P (not (val == endsig)) _ (λ _. require-Ensures P (val == locsig) _ (λ _.
          bind-Ensures (λ at. at < length m + 1 - 22) P (find_eocd m (length m + 1 - 22)) _
            (find_eocd-Ensures m (length m + 1 - 22) (omega arith))
            (λ ptr found. get2_le-Ensures P m (ptr + 8) _ (omega arith) (λ n hn.
              get4_le-Ensures P m (ptr + 16) _ (omega arith) (λ at _.
                require-Ensures P (not (n == 0)) _ (λ filled.
                  require-Ensures P (ltb at (length m)) _ (λ _. fill n at (ground arith) hn))))))))

  -- Opening any file of bytes ends in an open archive or in an error: it reads nothing outside of the
  -- map, every loop of it ends, and neither the table nor the search for a place fails an assert.
  -- The machine has 64-bit addresses, and the array of entries addresses that lead back to its places.
  pub open_zip_archive-IsOpen : Ensures (open_zip_archive layout machine (some m)) (IsOpen layout m)
  unfolding open_zip_archive
  open_zip_archive-IsOpen =
      require-Ensures (IsOpen layout m) (leb 22 (length m)) _
        (λ h. parse_zip_archive-Ensures (leb→le _ _ h))

-- In an open archive `mzFindZipEntry` returns the address of an entry of the name asked for if there is
-- one, and NULL if there is none. It neither fails nor runs for ever.
pub find_zip_entry-Found :
    (layout : Layout) (laid : IsLayout layout (2 ^ 16)) (m : List ℕ) (a : ZipArchive)
    → IsOpen layout m a
    → (name : List ℕ) (key : ℕ) → IsItem key
    → (r : ℕ) × (find_zip_entry layout a name key ≡ ok r)
      × (((i : ℕ) × (i < length a.entries) × (r ≡ layout.place i) × (name_at a.entries i ≡ name))
          ⊎ ((r ≡ null) × ((i : ℕ) → i < length a.entries → name_at a.entries i ≢ name)))
unfolding find_zip_entry of_run
find_zip_entry-Found layout laid m a opened name key proper =
    let (r, run, found) =
      find-Found layout a.entries a.num_entries (few-IsLayout layout laid a.num_entries opened.few)
        a.hash name key opened.indexed proper in
    (r, rw (run, ◌>>=◌), rw opened.counted found)
