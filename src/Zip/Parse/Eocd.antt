-- ===== src/Zip/Parse/Eocd.antt =====
-- The backward search of minzip/Zip.c for the end-of-central-directory record.
use android_bootable_recover.Common.{
  ℕ, zero, suc, ◌+◌, ◌^◌, ◌≤◌, ◌<◌, ◌≡◌, refl, ◌∙◌, ◌≢◌, ◌⊎◌, inl, inr, true, List, arith, leb,
  ◌==◌, Bool-cases, length,
}
use android_bootable_recover.Zip.{ok, bail, ◌>>=◌, byte, word_le, get4_le, endsig}
use android_bootable_recover.Zip.Parse.{find_eocd}

module _ (m : List ℕ) (bytes : (i : ℕ) → byte m i < 2 ^ 8) where
  abbrev pub None : ℕ → ℕ → Type 0
  None from start = (j : ℕ) → from ≤ j → j < start → word_le m j ≢ endsig

  -- a word of the signature starts with its first byte
  first_byte : (at : ℕ) → word_le m at ≡ endsig → byte m at ≡ 80
  first_byte at e = omega (arith, bytes at)

  abbrev pub Last : ℕ → Type 0
  Last start =
      ((at : ℕ) × (find_eocd m start ≡ ok at)
        × (at < start)
        × (word_le m at ≡ endsig)
        × None (at + 1) start)
      ⊎ ((find_eocd m start ≡ bail) × None 0 start)

  -- The search from below `start` gives the last place before it at which the four bytes of the signature
  -- stand, and fails if they stand at none. Only one byte in most places is looked at.
  pub find_eocd-Last : (start : ℕ) → start + 4 ≤ length m + 1 → Last start
  unfolding find_eocd get4_le ◌>>=◌
  find_eocd-Last zero h = inr (refl, λ j lo hi e. absurd (omega arith))
  find_eocd-Last (suc at) h =
      let inside : leb (at + 4) (length m) ≡ true = ground arith in
      elim (Bool-cases (byte m at == 80)) [
        | inr other ↦
            later at (λ e. absurd (ground (arith, first_byte at e))) (rw other)
              (find_eocd-Last at (omega arith))
        | inl first ↦ elim (Bool-cases (word_le m at == endsig)) [
          | inl here ↦ inl (
            at,
            rw (first, inside, here),
            omega arith,
            ground arith,
            λ j lo hi e. absurd (omega arith),
          )
          | inr miss ↦
              later at (ground arith) (rw (first, inside, miss)) (find_eocd-Last at (omega arith))
        ]
      ]
    where
      further : (at from : ℕ) → word_le m at ≢ endsig → None from at → None from (suc at)
      further at from miss unseen j lo hi = elim (Bool-cases (j == at)) [
        | inl here ↦ let e : j ≡ at = ground arith in rw e miss
        | inr before ↦ unseen j lo (ground arith)
      ]

      later :
          (at : ℕ)
          → word_le m at ≢ endsig
          → find_eocd m (suc at) ≡ find_eocd m at
          → Last at
          → Last (suc at)
      later at miss step (inl (i, e, lt, w, unseen)) =
          inl (i, step ∙ e, omega arith, w, further at (i + 1) miss unseen)
      later at miss step (inr (e, unseen)) = inr (step ∙ e, further at 0 miss unseen)
