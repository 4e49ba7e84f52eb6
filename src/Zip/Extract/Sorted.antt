-- ===== src/Zip/Extract/Sorted.antt =====
-- Leaving the loop early over sorted entries: `mzExtractRecursive` of minzip/Zip.c.
use android_bootable_recover.Common.{
  ℕ, suc, ◌≤◌, ◌<◌, ◌≡◌, refl, inl, inr, Bool, true, false, List, [], ◌∷◌, arith, ltb,
  if◌then◌else◌, Bool-cases, length,
}
use android_bootable_recover.Edify.Text.{strcmp, starts_with, is_same}
use android_bootable_recover.Zip.{
  ZipEntry, Parsed, ok, bail, fault, ◌>>=◌, strncmp, all_printable, name_at,
}
use android_bootable_recover.Zip.Insert.{IsSorted, ◌≼◌}
use android_bootable_recover.Zip.Extract.{Step, next, stop, begins_with, extract_loop}

-- the entries whose name starts with `zpath`, in their order
unfoldable pub under : List ℕ → List ZipEntry → List ZipEntry
unfolding starts_with
under zpath [] = []
under zpath (e ∷ es) = if starts_with zpath e.file_name then e ∷ under zpath es else under zpath es

-- Each of the entries in its order, until one of them stops.
unfoldable pub visit_all :
    {S : Type 0} → (ZipEntry → S → Parsed (Step S)) → List ZipEntry → S → Parsed (Bool × S)
unfolding ◌>>=◌
visit_all visit [] s = ok (true, s)
visit_all visit (e ∷ es) s =
    visit e s >>= λ r. elim r [ next s' ↦ visit_all visit es s' | stop result s' ↦ ok (result, s') ]

strncmp-starts_with :
    (zpath name : List ℕ)
    → length zpath ≤ length name
    → all_printable name ≡ true
    → is_same (strncmp (length zpath) name zpath) ≡ starts_with zpath name
unfolding strncmp starts_with all_printable
strncmp-starts_with [] name h k = refl
strncmp-starts_with (x ∷ zpath) [] h k = absurd (omega arith)
strncmp-starts_with (x ∷ zpath) (y ∷ name) h k =
    let rest : is_same (strncmp (length zpath) name zpath) ≡ starts_with zpath name =
      strncmp-starts_with zpath name (omega arith) (ground arith) in
    ground (arith, rest)

pub starts_with-short :
    (zpath name : List ℕ) → length name < length zpath → starts_with zpath name ≡ false
unfolding starts_with
starts_with-short [] name h = absurd (omega arith)
starts_with-short (x ∷ zpath) [] h = refl
starts_with-short (x ∷ zpath) (y ∷ name) h = ground (arith, starts_with-short zpath name)

-- The test of the loop is that for a prefix.
begins_with-starts_with :
    (zpath name : List ℕ)
    → all_printable name ≡ true
    → begins_with zpath name ≡ starts_with zpath name
unfolding begins_with
begins_with-starts_with zpath name h = elim (Bool-cases (ltb (length name) (length zpath))) [
  | inl short ↦ rw (short, starts_with-short zpath name (ground arith))
  | inr long ↦ rw (long, strncmp-starts_with zpath name (ground arith) h)
]

-- Between two names that start with `p` every name does.
between :
    (p a b c : List ℕ)
    → starts_with p a ≡ true
    → starts_with p c ≡ true
    → a ≼ b
    → b ≼ c
    → starts_with p b ≡ true
unfolding starts_with strcmp
between [] a b c ha hc ab bc = refl
between (x ∷ p) [] b c ha hc ab bc = absurd (ground arith)
between (x ∷ p) (y ∷ a) b [] ha hc ab bc = absurd (ground arith)
between (x ∷ p) (y ∷ a) [] (z ∷ c) ha hc ab bc = absurd (ab refl)
between (x ∷ p) (y ∷ a) (w ∷ b) (z ∷ c) ha hc ab bc =
    let ex : y ≡ x = ground arith in
    let ez : z ≡ x = ground arith in
    let lo : ltb w y ≡ false = ground arith in
    let hi : ltb z w ≡ false = ground arith in
    let ew : w ≡ x = ground arith in
    let ab' : a ≼ b = ground arith in
    let bc' : b ≼ c = ground arith in ground (arith, between p a b c)

module _ {S : Type 0} (visit : ZipEntry → S → Parsed (Step S)) (zpath : List ℕ) where
  -- Once the entries are past the prefix, none of the rest is under it.
  under_none :
      (es : List ZipEntry)
      → ((i : ℕ) → i < length es → starts_with zpath (name_at es i) ≡ false)
      → under zpath es ≡ []
  unfolding under
  under_none [] h = refl
  under_none (e ∷ es) h = rw (h 0 (omega arith)) (under_none es (λ i k. h (suc i) (omega arith)))

  behind : (e : ZipEntry) (es : List ZipEntry) → IsSorted (e ∷ es) → IsSorted es
  behind e es sorted = record {
    ordered = λ i j h k. sorted.ordered (suc i) (suc j) (omega arith) (omega arith);
    printable = λ i h. sorted.printable (suc i) (omega arith);
  }

  -- `seen_match` is set only once an entry under the prefix was left behind.
  abbrev Seen : Bool → List ZipEntry → Type 0
  Seen false es = Unit {0}
  Seen true es =
      (a : List ℕ) × (starts_with zpath a ≡ true) × ((i : ℕ) → i < length es → a ≼ name_at es i)

  step_all :
      (es : List ZipEntry) (o : Parsed (Step S))
      → ((s : S) → extract_loop visit zpath es true s ≡ visit_all visit (under zpath es) s)
      → (o >>= λ r. elim r as (λ r. Parsed (Bool × S)) [
        | next s' ↦ extract_loop visit zpath es true s'
        | stop result s' ↦ ok (result, s')
      ])
        ≡ (o >>= λ r. elim r as (λ r. Parsed (Bool × S)) [
          | next s' ↦ visit_all visit (under zpath es) s'
          | stop result s' ↦ ok (result, s')
        ])
  unfolding ◌>>=◌
  step_all es (ok (next s)) h = h s
  step_all es (ok (stop result s)) h = refl
  step_all es bail h = refl
  step_all es fault h = refl

  past_all :
      (e : ZipEntry) (es : List ZipEntry)
      → IsSorted (e ∷ es)
      → Seen true (e ∷ es)
      → starts_with zpath e.file_name ≡ false
      → under zpath es ≡ []
  past_all e es sorted (a, ha, order) past = under_none es (λ i k.
      elim (Bool-cases (starts_with zpath (name_at es i))) [
        | inr other ↦ other
        | inl again ↦ absurd (
            clash past (
              between zpath a e.file_name (name_at es i) ha again (order 0 (omega arith))
                (sorted.ordered 0 (suc i) (omega arith) (omega arith))))
      ])
    where
      clash : {b : Bool} → b ≡ false → b ≡ true → ⊥
      clash e f = cc

  from_here :
      (e : ZipEntry) (es : List ZipEntry)
      → IsSorted (e ∷ es)
      → starts_with zpath e.file_name ≡ true
      → Seen true es
  from_here e es sorted here =
      (e.file_name, here, λ i k. sorted.ordered 0 (suc i) (omega arith) (omega arith))

  loop_all :
      (es : List ZipEntry) (seen : Bool) (s : S)
      → IsSorted es
      → Seen seen es
      → extract_loop visit zpath es seen s ≡ visit_all visit (under zpath es) s
  unfolding extract_loop under visit_all
  loop_all [] seen s sorted left = refl
  loop_all (e ∷ es) seen s sorted left =
      let test = begins_with-starts_with zpath e.file_name (sorted.printable 0 (omega arith)) in
      elim (Bool-cases (starts_with zpath e.file_name)) [
        | inl here ↦
            rw (test, here)
              (step_all es (visit e s)
                (λ s'. loop_all es true s' (behind e es sorted) (from_here e es sorted here)))
        | inr past ↦
            rw (test, past) (left_out seen left past (loop_all es false s (behind e es sorted) tt))
      ]
    where
      left_out :
          (seen : Bool)
          → Seen seen (e ∷ es)
          → starts_with zpath e.file_name ≡ false
          → extract_loop visit zpath es false s ≡ visit_all visit (under zpath es) s
          → (if seen then ok (true, s) else extract_loop visit zpath es seen s)
            ≡ visit_all visit (under zpath es) s
      left_out true left past rest = rw (past_all e es sorted left past)
      left_out false left past rest = rest

  -- Over sorted entries the loop does what a visit of each entry under the prefix does, in the same
  -- order: leaving it at the first mismatch after a match loses none of them.
  pub extract_loop-all :
      (es : List ZipEntry) (s : S)
      → IsSorted es
      → extract_loop visit zpath es false s ≡ visit_all visit (under zpath es) s
  extract_loop-all es s sorted = loop_all es false s sorted tt
