-- ===== src/Edify/Builtins/Safety.antt =====
-- Each function of edify/expr.c keeps the contract, given the arguments that it reads.
use android_bootable_recover.Common.{
  ◌≡◌, refl, sym, ◌∙◌, Bool, true, ◌&&◌, List, [], ◌∷◌, append-nil, arith, leb, length,
}
use android_bootable_recover.Edify.Text.{CString}
use android_bootable_recover.Edify.Machine.{State, Outcome, Arg}
use android_bootable_recover.Edify.Builtins.Discipline.{
  Runs-if, FnRuns, Runs, returns, aborts, Runs-then, Runs-pure, Runs-fails, ArgRuns, AllRun,
  evaluate-Runs,
}
use android_bootable_recover.Edify.Builtins.{
  abort_with, script_slice, assert_failed, boolean_string, sleep_fn, logical_or_fn, logical_and_fn,
  sequence_fn, logical_not_fn, assert_fn, literal, of_two, put, stdout_fn, abort_fn, concat_fn,
  read_var_args,
}

module _ {W : Type 0} (script : CString) where
  pub read_var_args-Runs :
      (argv : List (Arg W))
      → AllRun script argv
      → (s : State W) → s.script ≡ script
      → Runs s (read_var_args argv s)
  unfolding read_var_args
  read_var_args-Runs [] h s e = Runs-pure [] s
  read_var_args-Runs (a ∷ argv) h s e =
      Runs-then (evaluate-Runs h.0 s e)
        λ v t p. Runs-then (read_var_args-Runs argv h.1 t (p ∙ e)) λ vs u _. Runs-pure (v ∷ vs) u

  pub concat_fn-Runs : FnRuns {W = W} script 0 concat_fn
  unfolding concat_fn
  concat_fn-Runs name argv n h s e =
      Runs-then (read_var_args-Runs argv h s e) λ v t _. Runs-pure _ t

  put-Runs : (text : CString) (s : State W) → Runs s (put text s)
  put-Runs text s =
      returns
        (record {
          cookie = refl;
          script = refl;
          out = (text, refl);
          slept = ([], sym (append-nil _));
        })
        refl

  pub literal-Runs : FnRuns {W = W} script 0 literal
  unfolding literal
  literal-Runs name argv n h s e = Runs-pure _ s

  abort_with-Runs : {s : State W} {r : Outcome W CString} → Runs s r → Runs s (abort_with r)
  abort_with-Runs (returns h p) =
      aborts (record { cookie = h.cookie; script = h.script; out = h.out; slept = h.slept }) refl
  abort_with-Runs (aborts h p) =
      aborts (record { cookie = h.cookie; script = h.script; out = h.out; slept = h.slept }) refl

  pub abort_fn-Runs : FnRuns {W = W} script 0 abort_fn
  unfolding abort_fn
  abort_fn-Runs name [] n h s e = Runs-fails _ s
  abort_fn-Runs name (a ∷ argv) n h s e = abort_with-Runs (evaluate-Runs h.0 s e)

  assert_failed-Runs :
      (a : Arg W)
      → ArgRuns script a
      → (s : State W) → s.script ≡ script
      → Runs s (assert_failed a s)
  unfolding assert_failed script_slice
  assert_failed-Runs a h s e =
      let fits : (leb a.start a.end && leb a.end (length s.script)) ≡ true =
        rw e (ground (arith, h.ordered, h.within)) in
      rw fits (Runs-fails _ s)

  pub assert_fn-Runs : FnRuns {W = W} script 0 assert_fn
  unfolding assert_fn
  assert_fn-Runs name [] n h s e = Runs-pure _ s
  assert_fn-Runs name (a ∷ argv) n h s e = Runs-then (evaluate-Runs h.0 s e) λ v t p.
      Runs-if (boolean_string v) _ _ t (assert_fn-Runs name argv (omega arith) h.1 t (p ∙ e))
        (assert_failed-Runs a h.0 t (p ∙ e))

  pub sleep_fn-Runs : FnRuns {W = W} script 1 sleep_fn
  unfolding sleep_fn
  sleep_fn-Runs name [] n h s e = absurd (omega arith)
  sleep_fn-Runs name (a ∷ argv) n h s e = Runs-then (evaluate-Runs h.0 s e) λ v t _.
      returns
        (record { cookie = refl; script = refl; out = ([], sym (append-nil _)); slept = (_, refl) })
        refl

  pub stdout_fn-Runs : FnRuns {W = W} script 0 stdout_fn
  unfolding stdout_fn
  stdout_fn-Runs name [] n h s e = Runs-pure _ s
  stdout_fn-Runs name (a ∷ argv) n h s e = Runs-then (evaluate-Runs h.0 s e) λ v t p.
      Runs-then (put-Runs v t) λ _ u q. stdout_fn-Runs name argv (omega arith) h.1 u (q ∙ p ∙ e)

  pub logical_and_fn-Runs : FnRuns {W = W} script 2 logical_and_fn
  unfolding logical_and_fn
  logical_and_fn-Runs name (a ∷ b ∷ argv) n h s e =
      Runs-then (evaluate-Runs h.0 s e)
        λ v t p. Runs-if (boolean_string v) _ _ t (h.1.0.runs t (p ∙ e)) (Runs-pure _ t)
  logical_and_fn-Runs name _ n h s e = absurd (omega arith)

  pub logical_or_fn-Runs : FnRuns {W = W} script 2 logical_or_fn
  unfolding logical_or_fn
  logical_or_fn-Runs name (a ∷ b ∷ argv) n h s e =
      Runs-then (evaluate-Runs h.0 s e)
        λ v t p. Runs-if (boolean_string v) _ _ t (Runs-pure _ t) (h.1.0.runs t (p ∙ e))
  logical_or_fn-Runs name _ n h s e = absurd (omega arith)

  pub logical_not_fn-Runs : FnRuns {W = W} script 1 logical_not_fn
  unfolding logical_not_fn
  logical_not_fn-Runs name (a ∷ argv) n h s e =
      Runs-then (evaluate-Runs h.0 s e) λ v t _. Runs-pure _ t
  logical_not_fn-Runs name [] n h s e = absurd (omega arith)

  pub of_two-Runs : (test : CString → CString → Bool) → FnRuns {W = W} script 2 (of_two test)
  unfolding of_two
  of_two-Runs test name (a ∷ b ∷ argv) n h s e =
      Runs-then (evaluate-Runs h.0 s e)
        λ v t p. Runs-then (evaluate-Runs h.1.0 t (p ∙ e)) λ w u _. Runs-pure _ u
  of_two-Runs test name _ n h s e = absurd (omega arith)

  pub sequence_fn-Runs : FnRuns {W = W} script 2 sequence_fn
  unfolding sequence_fn
  sequence_fn-Runs name (a ∷ b ∷ argv) n h s e =
      Runs-then (h.0.runs s e) λ v t p. h.1.0.runs t (p ∙ e)
  sequence_fn-Runs name _ n h s e = absurd (omega arith)
