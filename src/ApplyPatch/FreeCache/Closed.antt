-- ===== src/ApplyPatch/FreeCache/Closed.antt =====
-- The names that applypatch/freecache.c strikes out: those of open files.
use mathlib.Core.List.{Memᴰ}
use android_bootable_recover.Common.{
  ◌≡◌, refl, sym, ap, ◌∙◌, subst, ◌≢◌, ◌↔◌, inl, inr, Bool, true, false, Option, none, some, List,
  [], ◌∷◌, ◌++◌, arith, Bool-cases, Option-cases, take,
}
use android_bootable_recover.Edify.Text.{
  Order, before, after, CString, codes, strcmp, is_same, same,
}
use android_bootable_recover.Edify.Text.Compare.{strcmp_refl, strcmp-eq_same}
use android_bootable_recover.ApplyPatch.FreeCache.{
  strike_processes, System, fd_dir, is_number, strike, strike_links,
}

pub is_same_iff : (a b : CString) → (is_same (strcmp a b) ≡ true) ↔ (a ≡ b)
is_same_iff a b = (
  λ e. strcmp-eq_same a b (same_of (strcmp a b) e),
  λ e. ap is_same (ap (strcmp a) (sym e) ∙ strcmp_refl a),
)
  where
    same_of : (o : Order) → is_same o ≡ true → o ≡ same
    same_of same e = refl
    same_of before e = absurd cc
    same_of after e = absurd cc

abbrev pub InCache : CString → Type 0
InCache p = is_same (strcmp (take 7 p) (codes "/cache/")) ≡ true

strike_kept :
    (link p : CString) (files : List (Option CString))
    → Memᴰ (some p) (strike link files)
    → Memᴰ (some p) files × (p ≢ link)
unfolding strike
strike_kept link p [] m = elim m [ ]
strike_kept link p (none ∷ files) (Memᴰ.head e) = absurd cc
strike_kept link p (none ∷ files) (Memᴰ.tail m) =
    let (m', n) = strike_kept link p files m in (Memᴰ.tail m', n)
strike_kept link p (some file ∷ files) (Memᴰ.head e) =
    elim (Bool-cases (is_same (strcmp file link))) [
      | inl hit ↦ absurd (none_some (rw hit at e))
      | inr miss ↦ (Memᴰ.head (rw miss at e), λ q. absurd (differ (rw miss at e) q miss))
    ]
  where
    none_some : some p ≡ none → ⊥
    none_some e = cc

    differ : some p ≡ some file → p ≡ link → is_same (strcmp file link) ≡ false → ⊥
    differ e q miss =
        let hit : is_same (strcmp file link) ≡ true = (is_same_iff file link).1 (ground arith) in cc
strike_kept link p (some file ∷ files) (Memᴰ.tail m) =
    let (m', n) = strike_kept link p files m in (Memᴰ.tail m', n)

module _ (sys : System) (fs : System.Fs sys) where
  open sys use {Fs, list_dir, is_regular, read_link}

  -- a descriptor among these names leads to the file
  abbrev pub LinkedIn : CString → List CString → CString → Type 0
  LinkedIn path fds p = (fd : CString) × Memᴰ fd fds × (read_link fs (path ++ fd) ≡ some p)

  -- a process among these entries of /proc has the file open
  abbrev pub HeldBy : List CString → CString → Type 0
  HeldBy pids p =
      (pid : CString) × Memᴰ pid pids
      × (is_number pid ≡ true)
      × (fds : List CString) × (list_dir fs (fd_dir pid) ≡ some fds)
      × LinkedIn (fd_dir pid) fds p

  strike_links_kept :
      (path p : CString) (fds : List CString) (files : List (Option CString))
      → Memᴰ (some p) (strike_links sys fs path fds files)
      → Memᴰ (some p) files × (InCache p → LinkedIn path fds p → ⊥)
  unfolding strike_links
  strike_links_kept path p [] files m = (m, λ c l. elim l.1 [ ])
  strike_links_kept path p (fd ∷ fds) files m = elim (Option-cases (read_link fs (path ++ fd))) [
    | inl e ↦
        let (m', clear) = strike_links_kept path p fds files (rw (strike_links, e) at m) in
        (
          m',
          λ c l. elim l.1 [
            | Memᴰ.head q ↦
                absurd (none_some (sym e ∙ (ap (λ n. read_link fs (path ++ n)) (sym q) ∙ l.2)))
            | Memᴰ.tail k ↦ clear c (l.0, k, l.2)
          ],
        )
    | inr (link, e) ↦ elim (Bool-cases (is_same (strcmp (take 7 link) (codes "/cache/")))) [
      | inl hit ↦
          let (m', clear) =
            strike_links_kept path p fds (strike link files) (rw (strike_links, e, hit) at m) in
          let (m'', other) = strike_kept link p files m' in
          (
            m'',
            λ c l. elim l.1 [
              | Memᴰ.head q ↦
                  other (some_inj (sym l.2 ∙ (ap (λ n. read_link fs (path ++ n)) q ∙ e)))
              | Memᴰ.tail k ↦ clear c (l.0, k, l.2)
            ],
          )
      | inr miss ↦
          let (m', clear) = strike_links_kept path p fds files (rw (strike_links, e, miss) at m) in
          (
            m',
            λ c l. elim l.1 [
              | Memᴰ.head q ↦
                  outside c (some_inj (sym l.2 ∙ (ap (λ n. read_link fs (path ++ n)) q ∙ e))) miss
              | Memᴰ.tail k ↦ clear c (l.0, k, l.2)
            ],
          )
    ]
  ]
    where
      none_some : none ≡ some p → ⊥
      none_some e = cc

      some_inj : {x y : CString} → some x ≡ some y → x ≡ y
      some_inj e = ground arith

      outside :
          {link : CString}
          → InCache p
          → p ≡ link
          → is_same (strcmp (take 7 link) (codes "/cache/")) ≡ false
          → ⊥
      outside c e miss = cc

  pub strike_processes_kept :
      (p : CString) (pids : List CString) (files : List (Option CString))
      → Memᴰ (some p) (strike_processes sys fs pids files)
      → Memᴰ (some p) files × (InCache p → HeldBy pids p → ⊥)
  unfolding strike_processes
  strike_processes_kept p [] files m = (m, λ c l. elim l.1 [ ])
  strike_processes_kept p (pid ∷ pids) files m = elim (Bool-cases (is_number pid)) [
    | inr skip ↦
        let (m', clear) = strike_processes_kept p pids files (rw (strike_processes, skip) at m) in
        (
          m',
          λ c l. elim l.1 [
            | Memᴰ.head q ↦ absurd (clash (sym (ap is_number q) ∙ l.2) skip)
            | Memᴰ.tail k ↦ clear c (l.0, k, l.2, l.3, l.4, l.5)
          ],
        )
    | inl number ↦ elim (Option-cases (list_dir fs (fd_dir pid))) [
      | inl e ↦
          let (m', clear) =
            strike_processes_kept p pids files (rw (strike_processes, number, e) at m) in
          (
            m',
            λ c l. elim l.1 [
              | Memᴰ.head q ↦
                  absurd (none_some (sym e ∙ (ap (λ n. list_dir fs (fd_dir n)) (sym q) ∙ l.4)))
              | Memᴰ.tail k ↦ clear c (l.0, k, l.2, l.3, l.4, l.5)
            ],
          )
      | inr (fds, e) ↦
          let (m', clear) =
            strike_processes_kept p pids (strike_links sys fs (fd_dir pid) fds files)
              (rw (strike_processes, number, e) at m) in
          let (m'', closed) = strike_links_kept (fd_dir pid) p fds files m' in
          (
            m'',
            λ c l. elim l.1 [
              | Memᴰ.head q ↦
                  let same_fds : l.3 ≡ fds =
                    some_inj (sym l.4 ∙ (ap (λ n. list_dir fs (fd_dir n)) q ∙ e)) in
                  closed c (
                    l.5.0,
                    subst (Memᴰ l.5.0) same_fds l.5.1,
                    sym (ap (λ n. read_link fs (fd_dir n ++ l.5.0)) q) ∙ l.5.2,
                  )
              | Memᴰ.tail k ↦ clear c (l.0, k, l.2, l.3, l.4, l.5)
            ],
          )
    ]
  ]
    where
      clash : {b : Bool} → b ≡ true → b ≡ false → ⊥
      clash e k = cc

      none_some : {x : List CString} → none ≡ some x → ⊥
      none_some e = cc

      some_inj : {x y : List CString} → some x ≡ some y → x ≡ y
      some_inj e = ground arith
