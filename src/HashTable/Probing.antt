-- ===== src/HashTable/Probing.antt =====
-- The probe loops of minzip/Hash.c: where they stop, and that they stop.
use android_bootable_recover.Common.{
  ℕ, zero, suc, ◌+◌, ◌-◌, ◌<◌, ◌≡◌, refl, sym, ap, ◌∙◌, ◌≢◌, ◌⊎◌, inl, inr, Bool, true, false, List,
  arith, leb, ◌==◌, if◌then◌else◌, Bool-cases,
}
use android_bootable_recover.HashTable.{HashEntry, ok, null, entry, probe}

-- the place after `i`, round the end
abbrev pub next : ℕ → ℕ → ℕ
next size i = if i + 1 == size then 0 else i + 1

abbrev pub IsFree : List HashEntry → ℕ → Type 0
IsFree es i = (entry es i).item ≡ null

abbrev pub IsUsed : List HashEntry → ℕ → Type 0
IsUsed es i = (entry es i).item ≢ null

-- `n` steps lead from `i` to `j`, each from a place that is not free
abbrev pub Walks : List HashEntry → ℕ → ℕ → ℕ → ℕ → Type 0
Walks es size zero i j = i ≡ j
Walks es size (suc n) i j = IsUsed es i × Walks es size n (next size i) j

module _ (es : List HashEntry) (size : ℕ) where
  -- the steps from `i` to `z`
  abbrev pub distance : ℕ → ℕ → ℕ
  distance i z = if leb i z then z - i else size - i + z

  probe_step :
      (found : HashEntry → Bool) (fuel i : ℕ)
      → size ≢ 1
      → ((entry es i).item == null) ≡ false
      → found (entry es i) ≡ false
      → probe found (suc fuel) es size i ≡ probe found fuel es size (next size i)
  unfolding probe
  probe_step found fuel i many used miss = elim (Bool-cases (i + 1 == size)) [
    | inl last ↦ let more : (size == 1) ≡ false = ground arith in rw (used, miss, last, more)
    | inr inside ↦ rw (used, miss, inside)
  ]

  probe_here :
      (found : HashEntry → Bool) (fuel i : ℕ)
      → (IsFree es i ⊎ (IsUsed es i × (found (entry es i) ≡ true)))
      → probe found (suc fuel) es size i ≡ ok i
  unfolding probe
  probe_here found fuel i (inl free) = rw free
  probe_here found fuel i (inr (used, hit)) =
      let occupied : ((entry es i).item == null) ≡ false = ground arith in rw (occupied, hit)

  -- A probe with fuel for the way to a free place stops at a free place or at one that it looks for,
  -- and steps over used places only.
  pub probe_stops :
      (found : HashEntry → Bool) (fuel i z : ℕ)
      → i < size
      → z < size
      → IsFree es z
      → distance i z < fuel
      → (r : ℕ) × (probe found fuel es size i ≡ ok r)
        × (r < size)
        × ((n : ℕ) × Walks es size n i r)
        × (IsFree es r ⊎ (IsUsed es r × (found (entry es r) ≡ true)))
  unfolding probe
  probe_stops found zero i z hi hz free d = absurd (omega arith)
  probe_stops found (suc fuel) i z hi hz free d = elim (Bool-cases ((entry es i).item == null)) [
    | inl stop ↦ (i, rw stop, hi, (0, refl), inl (ground arith))
    | inr used ↦ elim (Bool-cases (found (entry es i))) [
      | inl hit ↦ (i, rw (used, hit), hi, (0, refl), inr (ground arith, hit))
      | inr miss ↦
          let apart : i ≢ z = λ e. (ground (arith, ap (λ k. (entry es k).item) e)) in
          let (r, p, hr, (n, w), stop) =
            probe_stops found fuel (next size i) z (ground arith) hz free (ground arith) in
          (
            r,
            probe_step found fuel i (ground arith) used miss ∙ p,
            hr,
            (suc n, (ground arith, w)),
            stop,
          )
    ]
  ]

  -- A used place that is looked for, and that the steps lead to, is not missed.
  pub probe_finds :
      (found : HashEntry → Bool) (fuel n i j r : ℕ)
      → size ≢ 1
      → Walks es size n i j
      → IsUsed es j
      → found (entry es j) ≡ true
      → probe found fuel es size i ≡ ok r
      → IsUsed es r × (found (entry es r) ≡ true)
  unfolding probe
  probe_finds found zero n i j r many w used hit p = cc
  probe_finds found (suc fuel) zero i j r many w used hit p =
      let e : i ≡ r = cc (probe_here found fuel i (inr (rw w used, rw w hit))) in
      rw (← e, w) (used, hit)
  probe_finds found (suc fuel) (suc n) i j r many w used hit p =
      elim (Bool-cases (found (entry es i))) [
        | inl here ↦
            let e : i ≡ r = cc (probe_here found fuel i (inr (w.0, here))) in rw (← e) (w.0, here)
        | inr miss ↦
            probe_finds found fuel n (next size i) j r many w.1 used hit
              (sym (probe_step found fuel i many (ground arith) miss) ∙ p)
      ]

  -- More used places keep every way.
  pub Walks-more :
      (es' : List HashEntry)
      → ((k : ℕ) → IsUsed es k → (entry es' k).item ≢ null)
      → (n i j : ℕ) → Walks es size n i j
      → Walks es' size n i j
  Walks-more es' more zero i j w = w
  Walks-more es' more (suc n) i j w = (more i w.0, Walks-more es' more n (next size i) j w.1)
