-- ===== src/Edify/Table/Lookup.antt =====
-- The binary search in the sorted table is the plain search in what was registered.
use android_bootable_recover.Common.{
  ◌≡◌, refl, ap, ◌∙◌, ◌≢◌, ◌⊎◌, inl, inr, Option, none, some, List, [], ◌∷◌, if◌then◌else◌,
}
use android_bootable_recover.Edify.Text.{CString, Order, strcmp, before, same, after, is_same}
use android_bootable_recover.Edify.Text.Compare.{strcmp-eq_same, strcmp-flip, strcmp_trans, flip}
use android_bootable_recover.Edify.Table.{Named, insert_entry, qsort}

pub Order-cases : (o : Order) → (o ≡ before) ⊎ (o ≡ same) ⊎ (o ≡ after)
Order-cases before = inl refl
Order-cases same = inr (inl refl)
Order-cases after = inr (inr refl)

module _ {F : Type 0} where
  -- the first entry with the name
  unfoldable pub registered : CString → List (Named F) → Option F
  registered key [] = none
  registered key (e ∷ es) = if is_same (strcmp key e.0) then some e.1 else registered key es

  abbrev pub AllSide : Order → CString → List (Named F) → Type 0
  AllSide o key [] = Unit
  AllSide o key (e ∷ es) = (strcmp key e.0 ≡ o) × AllSide o key es

  -- Each name is before all that follow it.
  abbrev pub IsSorted : List (Named F) → Type 0
  IsSorted [] = Unit
  IsSorted (e ∷ es) = AllSide before e.0 es × IsSorted es

  abbrev pub Absent : CString → List (Named F) → Type 0
  Absent key [] = Unit
  Absent key (e ∷ es) = (strcmp key e.0 ≢ same) × Absent key es

  -- A given name is used only once.
  abbrev pub Distinct : List (Named F) → Type 0
  Distinct [] = Unit
  Distinct (e ∷ es) = Absent e.0 es × Distinct es

  pub AllSide-trans :
      (a b : CString) (es : List (Named F))
      → strcmp a b ≡ before
      → AllSide before b es
      → AllSide before a es
  AllSide-trans a b [] h k = tt
  AllSide-trans a b (e ∷ es) h k = (strcmp_trans a b e.0 h k.0, AllSide-trans a b es h k.1)

  AllSide-insert :
      (a : CString) (e : Named F) (es : List (Named F))
      → strcmp a e.0 ≡ before
      → AllSide before a es
      → AllSide before a (insert_entry e es)
  unfolding insert_entry
  AllSide-insert a e [] h k = (h, tt)
  AllSide-insert a e (d ∷ es) h k = elim (Order-cases (strcmp e.0 d.0)) [
    | inl p ↦ rw (p, AllSide) (h, k)
    | inr (inl p) ↦ rw (p, AllSide) (h, k)
    | inr (inr p) ↦ rw (p, AllSide) (k.0, AllSide-insert a e es h k.1)
  ]

  insert_entry-IsSorted :
      (e : Named F) (es : List (Named F))
      → Absent e.0 es
      → IsSorted es
      → IsSorted (insert_entry e es)
  unfolding insert_entry
  insert_entry-IsSorted e [] h k = (tt, tt)
  insert_entry-IsSorted e (d ∷ es) h k = elim (Order-cases (strcmp e.0 d.0)) [
    | inl p ↦ rw (p, IsSorted) ((p, AllSide-trans e.0 d.0 es p k.0), k)
    | inr (inl p) ↦ absurd (h.0 p)
    | inr (inr p) ↦
        rw (p, IsSorted)
          (
            AllSide-insert d.0 e es (strcmp-flip e.0 d.0 ∙ ap flip p) k.0,
            insert_entry-IsSorted e es h.1 k.1,
          )
  ]

  Absent-insert :
      (a : CString) (e : Named F) (es : List (Named F))
      → strcmp a e.0 ≢ same
      → Absent a es
      → Absent a (insert_entry e es)
  unfolding insert_entry
  Absent-insert a e [] h k = (h, tt)
  Absent-insert a e (d ∷ es) h k = elim (Order-cases (strcmp e.0 d.0)) [
    | inl p ↦ rw (p, Absent) (h, k)
    | inr (inl p) ↦ rw (p, Absent) (h, k)
    | inr (inr p) ↦ rw (p, Absent) (k.0, Absent-insert a e es h k.1)
  ]

  Absent-qsort : (a : CString) (es : List (Named F)) → Absent a es → Absent a (qsort es)
  unfolding qsort
  Absent-qsort a [] h = tt
  Absent-qsort a (e ∷ es) h = Absent-insert a e (qsort es) h.0 (Absent-qsort a es h.1)

  pub qsort-IsSorted : (es : List (Named F)) → Distinct es → IsSorted (qsort es)
  unfolding qsort
  qsort-IsSorted [] h = tt
  qsort-IsSorted (e ∷ es) h =
      insert_entry-IsSorted e (qsort es) (Absent-qsort e.0 es h.0) (qsort-IsSorted es h.1)

  registered-insert :
      (key : CString) (e : Named F) (es : List (Named F))
      → Absent e.0 es
      → registered key (insert_entry e es)
        ≡ (if is_same (strcmp key e.0) then some e.1 else registered key es)
  unfolding registered insert_entry
  registered-insert key e [] h = refl
  registered-insert key e (d ∷ es) h = elim (Order-cases (strcmp e.0 d.0)) [
    | inl p ↦ rw (p, registered)
    | inr (inl p) ↦ rw (p, registered)
    | inr (inr p) ↦
        rw (p, registered, registered-insert key e es h.1)
          (swapped _ _ _ (strcmp key e.0) (strcmp key d.0)
            (λ a b. h.0 (cc (strcmp-eq_same key e.0 a, strcmp-eq_same key d.0 b))))
  ]
    where
      swapped :
          {A : Type 0} (x y z : A) (o o' : Order)
          → (o ≡ same → o' ≡ same → ⊥)
          → (if is_same o' then y else if is_same o then x else z)
            ≡ (if is_same o then x else if is_same o' then y else z)
      swapped x y z same same k = absurd (k refl refl)
      swapped x y z _ _ k = refl

  pub registered-qsort :
      (key : CString) (es : List (Named F))
      → Distinct es
      → registered key (qsort es) ≡ registered key es
  unfolding registered qsort
  registered-qsort key [] h = refl
  registered-qsort key (e ∷ es) h =
      rw (registered-insert key e (qsort es) (Absent-qsort e.0 es h.0), registered-qsort key es h.1)
