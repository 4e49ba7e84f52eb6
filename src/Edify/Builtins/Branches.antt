-- ===== src/Edify/Builtins/Branches.antt =====
-- The functions of edify/expr.c that check how many arguments they have keep the contract.
use android_bootable_recover.Common.{
  ℕ, zero, suc, ◌≤◌, ◌≡◌, ◌∙◌, ◌⊎◌, inl, inr, not, ◌&&◌, List, [], ◌∷◌, arith, ◌==◌, Bool-cases,
  length, get_or,
}
use android_bootable_recover.Edify.Machine.{State, argument, ◌>>=◌}
use android_bootable_recover.Edify.Text.{CString}
use android_bootable_recover.Edify.Builtins.{
  is_int, boolean_string, evaluate, complain, Arg, greater_than_int_fn, if_else_branch, if_else_fn,
  less_than_int_fn, compare_ints, read_args,
}
use android_bootable_recover.Edify.Builtins.Discipline.{
  Runs-wrote, evaluate-Runs, Runs-pure, Runs-if, Runs, Runs-fails, AllRun, Runs-then, FnRuns,
}

module _ {W : Type 0} (script : CString) where
  compare_ints-Runs : (l r : CString) (s : State W) → Runs s (compare_ints l r s)
  unfolding compare_ints complain
  compare_ints-Runs l r s =
      Runs-if (is_int l) _ _ s (Runs-if (is_int r) _ _ s (Runs-pure _ s) (Runs-wrote _ _ s))
        (Runs-wrote _ _ s)

  read_args-Runs :
      (count : ℕ) (argv : List (Arg W))
      → count ≤ length argv
      → AllRun script argv
      → (s : State W) → s.script ≡ script
      → Runs s (read_args count argv s)
  unfolding read_args
  read_args-Runs zero argv n h s e = Runs-pure [] s
  read_args-Runs (suc count) [] n h s e = absurd (omega arith)
  read_args-Runs (suc count) (a ∷ argv) n h s e = Runs-then (evaluate-Runs h.0 s e) λ v t p.
      Runs-then (read_args-Runs count argv (omega arith) h.1 t (p ∙ e))
        λ vs u _. Runs-pure (v ∷ vs) u

  pub less_than_int_fn-Runs : FnRuns {W = W} script 0 less_than_int_fn
  unfolding less_than_int_fn
  less_than_int_fn-Runs name argv n h s e = elim (Bool-cases (length argv == 2)) [
    | inl two ↦ rw two (
        Runs-then (read_args-Runs 2 argv (ground arith) h s e)
          λ vs t _. compare_ints-Runs (get_or vs 0 []) (get_or vs 1 []) t)
    | inr other ↦ rw other (Runs-fails _ s)
  ]

  pub greater_than_int_fn-Runs : FnRuns {W = W} script 0 greater_than_int_fn
  unfolding greater_than_int_fn argument
  greater_than_int_fn-Runs name [] n h s e = Runs-fails _ s
  greater_than_int_fn-Runs name (a ∷ []) n h s e = Runs-fails _ s
  greater_than_int_fn-Runs name (a ∷ b ∷ argv) n h s e =
      Runs-if (length (a ∷ b ∷ argv) == 2) _ _ s
        (less_than_int_fn-Runs name (b ∷ a ∷ []) (omega arith) (h.1.0, (h.0, tt)) s e)
        (Runs-fails _ s)

  if_else_branch-Runs :
      (test : CString) (argv : List (Arg W))
      → (length argv ≡ 2) ⊎ (length argv ≡ 3)
      → AllRun script argv
      → (s : State W) → s.script ≡ script
      → Runs s (if_else_branch test argv s)
  unfolding if_else_branch argument
  if_else_branch-Runs test (a ∷ b ∷ []) n h s e =
      Runs-if (boolean_string test) _ _ s (h.1.0.runs s e) (Runs-pure _ s)
  if_else_branch-Runs test (a ∷ b ∷ c ∷ argv) n h s e =
      Runs-if (boolean_string test) _ _ s (h.1.0.runs s e)
        (Runs-if (length (a ∷ b ∷ c ∷ argv) == 3) _ _ s (h.1.1.0.runs s e) (Runs-pure _ s))
  if_else_branch-Runs test _ n h s e = absurd (omega arith)

  if_else_test-Runs :
      (argv : List (Arg W))
      → (length argv ≡ 2) ⊎ (length argv ≡ 3)
      → AllRun script argv
      → (s : State W) → s.script ≡ script
      → Runs s ((argument argv 0 >>= λ a. evaluate a >>= λ test. if_else_branch test argv) s)
  unfolding argument
  if_else_test-Runs [] n h s e = absurd (omega arith)
  if_else_test-Runs (a ∷ argv) n h s e =
      Runs-then (evaluate-Runs h.0 s e) λ v t p. if_else_branch-Runs v (a ∷ argv) n h t (p ∙ e)

  pub if_else_fn-Runs : FnRuns {W = W} script 0 if_else_fn
  unfolding if_else_fn
  if_else_fn-Runs name argv n h s e =
      elim (Bool-cases (not (length argv == 2) && not (length argv == 3))) [
        | inl wrong ↦ rw wrong (Runs-fails _ s)
        | inr right ↦ rw right (if_else_test-Runs argv (ground arith) h s e)
      ]
