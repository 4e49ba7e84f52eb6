-- ===== src/Edify/Table/Search.antt =====
-- `FindFunction` after `FinishRegistration` finds what was registered.
use android_bootable_recover.Common.{
  ℕ, zero, suc, ◌/◌, ◌≤◌, ◌≡◌, refl, sym, ap, ◌∙◌, ◌≢◌, ◌⊎◌, inl, inr, none, some, List, [], ◌∷◌,
  ◌++◌, append_assoc, append-nil, arith, length, length-append, take, drop, take-append-drop,
  length-take, length-drop,
}
use android_bootable_recover.Edify.Text.{CString, Order, strcmp, before, same, after}
use android_bootable_recover.Edify.Text.Compare.{strcmp-eq_same, strcmp-flip, strcmp_trans, flip}
use android_bootable_recover.Edify.Table.{
  Named, FnTable, empty, register_function, register_all, qsort, finish_registration, bsearch,
  find_function,
}
use android_bootable_recover.Edify.Table.Lookup.{
  registered, AllSide, IsSorted, Distinct, Order-cases, AllSide-trans, registered-qsort,
  qsort-IsSorted,
}

module _ {F : Type 0} where
  AllSide-append :
      (o : Order) (key : CString) (l : List (Named F)) (e : Named F) (r : List (Named F))
      → AllSide o key (l ++ e ∷ r)
      → strcmp key e.0 ≡ o
  AllSide-append o key [] e r h = h.0
  AllSide-append o key (d ∷ l) e r h = AllSide-append o key l e r h.1

  IsSorted-append :
      (l : List (Named F)) (e : Named F) (r : List (Named F))
      → IsSorted (l ++ e ∷ r)
      → AllSide before e.0 r × IsSorted r
  IsSorted-append [] e r h = h
  IsSorted-append (d ∷ l) e r h = IsSorted-append l e r h.1

  IsSorted-take : (n : ℕ) (es : List (Named F)) → IsSorted es → IsSorted (take n es)
  IsSorted-take zero es h = tt
  IsSorted-take (suc n) [] h = tt
  IsSorted-take (suc n) (e ∷ es) h = (AllSide-take n es h.0, IsSorted-take n es h.1)
    where
      AllSide-take :
          (n : ℕ) (es : List (Named F)) → AllSide before e.0 es → AllSide before e.0 (take n es)
      AllSide-take zero es k = tt
      AllSide-take (suc n) [] k = tt
      AllSide-take (suc n) (d ∷ es) k = (k.0, AllSide-take n es k.1)

  after_all :
      (key : CString) (es : List (Named F)) → AllSide before key es → registered key es ≡ none
  unfolding registered
  after_all key [] h = refl
  after_all key (e ∷ es) h = rw (h.0, after_all key es h.1)

  -- what stands before an entry that is not beyond the key does not have the key
  skip_left :
      (key : CString) (l : List (Named F)) (e : Named F) (r : List (Named F))
      → IsSorted (l ++ e ∷ r)
      → strcmp key e.0 ≢ before
      → registered key (l ++ e ∷ r) ≡ registered key (e ∷ r)
  unfolding registered
  skip_left key [] e r h k = refl
  skip_left key (d ∷ l) e r h k =
      rw (beyond (Order-cases (strcmp key e.0)), skip_left key l e r h.1 k)
    where
      below : strcmp d.0 e.0 ≡ before
      below = AllSide-append before d.0 l e r h.0

      beyond :
          (strcmp key e.0 ≡ before) ⊎ (strcmp key e.0 ≡ same) ⊎ (strcmp key e.0 ≡ after)
          → strcmp key d.0 ≡ after
      beyond (inl p) = absurd (k p)
      beyond (inr (inl p)) =
          let e' : strcmp d.0 key ≡ before = rw (strcmp-eq_same key e.0 p) below in
          strcmp-flip d.0 key ∙ ap flip e'
      beyond (inr (inr p)) =
          strcmp-flip d.0 key
          ∙ ap flip (strcmp_trans d.0 e.0 key below (strcmp-flip key e.0 ∙ ap flip p))

  skip_right :
      (key : CString) (l : List (Named F)) (e : Named F) (r : List (Named F))
      → IsSorted (l ++ e ∷ r)
      → strcmp key e.0 ≡ before
      → registered key (l ++ e ∷ r) ≡ registered key l
  unfolding registered
  skip_right key [] e r h k = after_all key (e ∷ r) (k, AllSide-trans key e.0 r k h.0)
  skip_right key (d ∷ l) e r h k = rw (skip_right key l e r h.1 k)

  -- one halving, on a list that is cut at any place
  halving :
      (fuel : ℕ) (key : CString) (l d es : List (Named F))
      → l ++ d ≡ es
      → (d ≡ [] → es ≡ [])
      → IsSorted es
      → bsearch fuel key l ≡ registered key l
      → ((e : Named F) (r : List (Named F)) → d ≡ e ∷ r → bsearch fuel key r ≡ registered key r)
      → elim d [
        | [] ↦ none
        | e ∷ right ↦ elim (strcmp key e.0) [
          | same ↦ some e.1
          | before ↦ bsearch fuel key l
          | after ↦ bsearch fuel key right
        ]
      ]
        ≡ registered key es
  unfolding registered
  halving fuel key l [] es p z h left right = rw (z refl, registered)
  halving fuel key l (e ∷ r) es p z h left right =
      let sorted : IsSorted (l ++ e ∷ r) = rw p h in
      elim (Order-cases (strcmp key e.0)) [
        | inl q ↦ rw (q, left, ← p, skip_right key l e r sorted q)
        | inr (inl q) ↦ rw (q, ← p, skip_left key l e r sorted (λ b. cc), registered, q)
        | inr (inr q) ↦
            rw (q, right e r refl, ← p, skip_left key l e r sorted (λ b. cc), registered, q)
      ]

  IsSorted-drop : (n : ℕ) (es : List (Named F)) → IsSorted es → IsSorted (drop n es)
  IsSorted-drop zero es h = h
  IsSorted-drop (suc n) [] h = tt
  IsSorted-drop (suc n) (e ∷ es) h = IsSorted-drop n es h.1

  nil_of_length : (es : List (Named F)) → length es ≡ 0 → es ≡ []
  nil_of_length [] n = refl
  nil_of_length (e ∷ es) n = absurd (omega arith)

  pub bsearch-registered :
      (fuel : ℕ) (key : CString) (es : List (Named F))
      → length es ≤ fuel
      → IsSorted es
      → bsearch fuel key es ≡ registered key es
  unfolding bsearch registered
  bsearch-registered zero key es n h = rw (nil_of_length es (omega arith))
  bsearch-registered (suc fuel) key es n h =
      let k = length es / 2 in
      halving fuel key (take k es) (drop k es) es (take-append-drop k es)
        (λ p. nil_of_length es (omega (arith, length-drop k es, ap length p))) h
        (bsearch-registered fuel key (take k es) (omega (arith, length-take k es))
          (IsSorted-take k es h))
        (λ e r p.
          bsearch-registered fuel key r (omega (arith, length-drop k es, ap length p))
            (rw p at (IsSorted-drop k es h)).1)

  entries-register_all :
      (regs : List (Named F)) (t : FnTable F) → (register_all regs t).entries ≡ t.entries ++ regs
  unfolding register_all register_function
  entries-register_all [] t = sym (append-nil t.entries)
  entries-register_all ((name, fn) ∷ regs) t =
      entries-register_all regs _ ∙ append_assoc t.entries ((name, fn) ∷ []) regs

  -- After the names of `regs`, all different, are registered in an empty table and the registration
  -- is finished, `FindFunction` returns for each name the function that it was registered with, and
  -- NULL for every other name.
  pub find_function-finish :
      (regs : List (Named F)) (name : CString)
      → Distinct regs
      → find_function name (finish_registration (register_all regs empty)) ≡ registered name regs
  unfolding find_function finish_registration
  find_function-finish regs name h = rw (entries-register_all regs empty) (
      bsearch-registered _ name (qsort regs) (omega arith) (qsort-IsSorted regs h)
      ∙ registered-qsort name regs h)

  -- `RegisterFunction` never writes beyond what `realloc` gave it.
  pub register_all_room :
      (regs : List (Named F)) (t : FnTable F)
      → length t.entries ≤ t.size
      → length (register_all regs t).entries ≤ (register_all regs t).size
  unfolding register_all register_function
  register_all_room [] t h = h
  register_all_room ((name, fn) ∷ regs) t h =
      register_all_room regs _ (ground (arith, length-append t.entries ((name, fn) ∷ [])))
