-- ===== src/Zip/Parse/Safety.antt =====
-- What the reads of minzip/Zip.c keep to.
use native.Mathlib.Nat.{mod-eq_of_lt}
use android_bootable_recover.Common.{
  ℕ, zero, suc, ◌+◌, ◌%◌, ◌^◌, ◌≤◌, ◌<◌, ◌≡◌, refl, inl, inr, Bool, true, false, List, arith, leb,
  ◌==◌, leb→le, Bool-cases, length, get_or, take, drop, length-take, length-drop,
}
use android_bootable_recover.Zip.{
  endsig, word_le, byte, censig, no_entry, ZipEntry, Parsed, ok, bail, fault, ◌>>=◌, ◌>>◌, require,
  get2_le, get4_le, all_printable, valid_filename,
}
use android_bootable_recover.Zip.Insert.{IsSorted, insert_entry_kept}
use android_bootable_recover.Zip.Parse.{
  is_compatible, Machine, find_eocd, read_local, parse_entry, parse_entries,
}

-- A run that does not fault, and whose result, if there is one, is as said.
unfoldable pub Ensures : {A : Type 0} → Parsed A → (A → Type 0) → Type 0
Ensures (ok a) P = P a
Ensures bail P = Unit
Ensures fault P = ⊥

module _ {B : Type 0} (Q : B → Type 0) where
  pub require-Ensures :
      (b : Bool) (n : Parsed B) → (b ≡ true → Ensures n Q) → Ensures (require b >> n) Q
  unfolding Ensures require ◌>>◌ ◌>>=◌
  require-Ensures true n h = h refl
  require-Ensures false n h = tt

  pub get4_le-Ensures :
      (m : List ℕ) (i : ℕ) (f : ℕ → Parsed B)
      → i + 4 ≤ length m
      → ((v : ℕ) → v < 2 ^ 32 → Ensures (f v) Q)
      → Ensures (get4_le m i >>= f) Q
  unfolding get4_le Ensures ◌>>=◌
  get4_le-Ensures m i f h k =
      let inside : leb (i + 4) (length m) ≡ true = ground arith in
      rw (inside, ◌>>=◌) (k _ (omega arith))

  pub get2_le-Ensures :
      (m : List ℕ) (i : ℕ) (f : ℕ → Parsed B)
      → i + 2 ≤ length m
      → ((v : ℕ) → v < 2 ^ 16 → Ensures (f v) Q)
      → Ensures (get2_le m i >>= f) Q
  unfolding get2_le Ensures ◌>>=◌
  get2_le-Ensures m i f h k =
      let inside : leb (i + 2) (length m) ≡ true = ground arith in
      rw (inside, ◌>>=◌) (k _ (omega arith))

pub ok-Ensures : {A : Type 0} (P : A → Type 0) (a : A) → P a → Ensures (ok a) P
unfolding Ensures
ok-Ensures P a h = h

pub weaken-Ensures :
    {A : Type 0} (P Q : A → Type 0) (m : Parsed A)
    → ((a : A) → P a → Q a)
    → Ensures m P
    → Ensures m Q
unfolding Ensures
weaken-Ensures P Q (ok a) k h = k a h
weaken-Ensures P Q bail k h = tt
weaken-Ensures P Q fault k h = h

pub bind-Ensures :
    {A B : Type 0} (P : A → Type 0) (Q : B → Type 0) (m : Parsed A) (f : A → Parsed B)
    → Ensures m P
    → ((a : A) → P a → Ensures (f a) Q)
    → Ensures (m >>= f) Q
unfolding Ensures ◌>>=◌
bind-Ensures P Q (ok a) f h k = k a h
bind-Ensures P Q bail f h k = tt
bind-Ensures P Q fault f h k = h

pub find_eocd-Ensures :
    (m : List ℕ) (start : ℕ)
    → start + 4 ≤ length m + 1
    → Ensures (find_eocd m start) (λ at. at < start)
unfolding find_eocd Ensures get4_le ◌>>=◌
find_eocd-Ensures m zero h = tt
find_eocd-Ensures m (suc at) h =
    let inside : leb (at + 4) (length m) ≡ true = ground arith in
    let back : Ensures (find_eocd m at) (λ at'. at' < suc at) =
      weaken-Ensures (λ at'. at' < at) (λ at'. at' < suc at) (find_eocd m at) (λ at' k. omega arith)
        (find_eocd-Ensures m at (omega arith)) in
    elim (Bool-cases (byte m at == 80)) [
      | inr other ↦ rw other back
      | inl first ↦ elim (Bool-cases (word_le m at == endsig)) [
        | inl here ↦ rw (first, inside, here) (omega arith)
        | inr miss ↦ rw (first, inside, miss) back
      ]
    ]

-- The map does not wrap round, and no 32-bit offset from it does: 64-bit addresses.
pub record Wide (machine : Machine) (m : List ℕ) : Type 0 where
  pub fits : machine.map_addr + length m < machine.word
  pub reach : machine.map_addr + 2 ^ 32 + 30 < machine.word
  pub long : 2 ^ 33 ≤ machine.word

module _ (machine : Machine) (m : List ℕ) (wide : Wide machine m) where
  header_inside :
      (at : ℕ)
      → at < 2 ^ 32
      → leb
          (((machine.map_addr + at) % machine.word + 30) % machine.word)
          (machine.map_addr + length m)
        ≡ true
      → at + 30 ≤ length m
  header_inside at h e =
      let here : (machine.map_addr + at) % machine.word ≡ machine.map_addr + at =
        mod-eq_of_lt (omega (arith, wide.reach)) in
      let behind : (machine.map_addr + at + 30) % machine.word ≡ machine.map_addr + at + 30 =
        mod-eq_of_lt (omega (arith, wide.reach)) in
      omega (arith, leb→le _ _ (rw (here, behind) at e))

  data_inside :
      (offset comp_len : ℕ)
      → offset < 2 ^ 32
      → comp_len < 2 ^ 32
      → leb ((offset + comp_len) % machine.word) (length m) ≡ true
      → offset + comp_len ≤ length m
  data_inside offset comp_len ho hc e =
      let total : (offset + comp_len) % machine.word ≡ offset + comp_len =
        mod-eq_of_lt (omega (arith, wide.long)) in
      leb→le _ _ (rw total at e)

  read_local-Ensures :
      (at comp_len : ℕ)
      → at < 2 ^ 32
      → comp_len < 2 ^ 32
      → Ensures (read_local machine m at comp_len) (λ offset. offset + comp_len ≤ length m)
  unfolding read_local
  read_local-Ensures at comp_len ha hc =
      let P : ℕ → Type 0 = λ offset. offset + comp_len ≤ length m in
      let local_hdr = (machine.map_addr + at) % machine.word in
      require-Ensures P _ _ (λ safe.
        require-Ensures P (leb ((local_hdr + 30) % machine.word) (machine.map_addr + length m)) _
          (λ inside.
            let room : at + 30 ≤ length m = header_inside at ha inside in
            get4_le-Ensures P m at _ (omega arith) (λ sig _. require-Ensures P _ _ (λ s.
              get2_le-Ensures P m (at + 26) _ (omega arith) (λ name_len hn.
                get2_le-Ensures P m (at + 28) _ (omega arith) (λ extra_len he.
                  let offset = (at + 30 + name_len + extra_len) % 2 ^ 32 in
                  require-Ensures P _ _ (λ safe'.
                    require-Ensures P (leb ((offset + comp_len) % machine.word) (length m)) _
                      (λ bound.
                        ok-Ensures P offset
                          (data_inside offset comp_len (omega arith) hc bound)))))))))

-- What a parsed entry keeps to: its name is printable and short and stands in the file, and so does
-- its data.
pub record IsGood (m : List ℕ) (e : ZipEntry) : Type 0 where
  pub printable : all_printable e.file_name ≡ true
  pub short : length e.file_name < 4096
  pub named :
      (at : ℕ) × (at + length e.file_name ≤ length m)
      × (e.file_name ≡ take (length e.file_name) (drop at m))
  pub stored : e.offset + e.comp_len ≤ length m

abbrev pub AllGood : List ℕ → List ZipEntry → Type 0
AllGood m es = (i : ℕ) → i < length es → IsGood m (get_or es i no_entry)

module _ (machine : Machine) (m : List ℕ) (wide : Wide machine m) where
  parse_entry-Ensures :
      (ptr : ℕ) → Ensures (parse_entry machine m ptr) (λ r. IsGood m r.0 × (ptr + 46 ≤ r.1))
  unfolding parse_entry valid_filename
  parse_entry-Ensures ptr =
      let P : ZipEntry × ℕ → Type 0 = λ r. IsGood m r.0 × (ptr + 46 ≤ r.1) in
      require-Ensures P (leb (ptr + 46) (length m)) _ (λ h.
        let room : ptr + 46 ≤ length m = leb→le _ _ h in
        get4_le-Ensures P m ptr _ (omega arith) (λ sig _. require-Ensures P (sig == censig) _ (λ s.
          get4_le-Ensures P m (ptr + 42) _ (omega arith) (λ at ha.
            get2_le-Ensures P m (ptr + 28) _ (omega arith) (λ n hn.
              get2_le-Ensures P m (ptr + 30) _ (omega arith) (λ x hx.
                get2_le-Ensures P m (ptr + 32) _ (omega arith) (λ c hc.
                  require-Ensures P (leb (ptr + 46 + n) (length m)) _ (λ named.
                    require-Ensures P (valid_filename (take n (drop (ptr + 46) m))) _ (λ valid.
                      get4_le-Ensures P m (ptr + 20) _ (omega arith) (λ comp_len hcl.
                        get4_le-Ensures P m (ptr + 24) _ (omega arith) (λ uncomp_len _.
                          get2_le-Ensures P m (ptr + 10) _ (omega arith) (λ how _.
                            get4_le-Ensures P m (ptr + 12) _ (omega arith) (λ time _.
                              get4_le-Ensures P m (ptr + 16) _ (omega arith) (λ crc _.
                                get2_le-Ensures P m (ptr + 4) _ (omega arith) (λ version _.
                                  require-Ensures P (is_compatible version) _ (λ compatible.
                                    get4_le-Ensures P m (ptr + 38) _ (omega arith) (λ attributes _.
                                      bind-Ensures (λ offset. offset + comp_len ≤ length m) P
                                        (read_local machine m at comp_len) _
                                        (read_local-Ensures machine m wide at comp_len ha hcl)
                                        (λ offset stored.
                                          let on : ptr + 46 ≤ ptr + 46 + n + x + c = omega arith in
                                          let e : ZipEntry = record {
                                            file_name = take n (drop (ptr + 46) m);
                                            offset = offset;
                                            comp_len = comp_len;
                                            uncomp_len = uncomp_len;
                                            compression = how;
                                            mod_time = time;
                                            crc32 = crc;
                                            version_made_by = version;
                                            external_file_attributes = attributes;
                                          } in
                                          let good : IsGood m e = record {
                                            printable =
                                                (valid_parts (take n (drop (ptr + 46) m)) valid).1;
                                            short =
                                                (valid_parts (take n (drop (ptr + 46) m)) valid).0;
                                            named = name_place ptr n (leb→le _ _ named);
                                            stored = stored;
                                          } in
                                          ok-Ensures P (e, ptr + 46 + n + x + c)
                                            (good, on)))))))))))))))))))
    where
      valid_parts :
          (name : List ℕ)
          → valid_filename name ≡ true
          → (length name < 4096) × (all_printable name ≡ true)
      valid_parts name h = ground arith

      name_place :
          (ptr n : ℕ)
          → ptr + 46 + n ≤ length m
          → (at : ℕ) × (at + length (take n (drop (ptr + 46) m)) ≤ length m)
            × (take n (drop (ptr + 46) m) ≡ take (length (take n (drop (ptr + 46) m))) (drop at m))
      name_place ptr n h =
          let w : length (take n (drop (ptr + 46) m)) ≡ n =
            omega (arith, length-take n (drop (ptr + 46) m), length-drop (ptr + 46) m) in
          (ptr + 46, omega arith, rw w)

  pub parse_entries-Ensures :
      (n ptr : ℕ) (es : List ZipEntry)
      → IsSorted es
      → AllGood m es
      → Ensures
          (parse_entries machine m n ptr es)
          (λ es'. IsSorted es' × AllGood m es' × (length es' ≡ n + length es))
  unfolding parse_entries
  parse_entries-Ensures zero ptr es sorted good = ok-Ensures _ es (sorted, good, omega arith)
  parse_entries-Ensures (suc n) ptr es sorted good =
      let P : List ZipEntry → Type 0 =
        λ es'. IsSorted es' × AllGood m es' × (length es' ≡ suc n + length es) in
      bind-Ensures _ P (parse_entry machine m ptr) _ (parse_entry-Ensures ptr) (λ r gr.
        let (es', p, s, perm, long, kept) = insert_entry_kept es r.0 sorted gr.0.printable in
        rw (p, ◌>>=◌)
          (weaken-Ensures (λ l. IsSorted l × AllGood m l × (length l ≡ n + length es')) P
            (parse_entries machine m n r.1 es') (λ l h. (h.0, h.1, omega (arith, h.2, long)))
            (parse_entries-Ensures n r.1 es' s (kept (IsGood m) gr.0 good))))
