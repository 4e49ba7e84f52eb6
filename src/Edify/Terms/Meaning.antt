-- ===== src/Edify/Terms/Meaning.antt =====
-- The evaluator of edify/expr.c computes what a term means.
use android_bootable_recover.Common.{ℕ, ◌≡◌, refl, List, append-nil, arith}
use android_bootable_recover.Edify.Machine.{
  State, value, string_value, evaluate, evaluate_value, arguments, Arg,
}
use android_bootable_recover.Edify.Builtins
use android_bootable_recover.Edify.Terms.{
  Term, meaning, compile, text, plus, both, either, equal, differ, sequence, contains, negate,
  if_then, if_then_else,
}

module _ {W : Type 0} where
  evaluate-string :
      (a : Arg W) (s t : State W) (v : List ℕ)
      → a.run s ≡ value (string_value v) t
      → evaluate a s ≡ value v t
  unfolding evaluate string_value
  evaluate-string a s t v h = ground arith

  module _ (begin end : Term → ℕ) (s : State W) where
    -- Every term over literals, `+`, `&&`, `||`, `==`, `!=`, `;`, `!`, `is_substring` and `if`, built
    -- as the grammar builds it, evaluates in every state to the text that it means, as a string
    -- value, and leaves the state as it was.
    pub evaluate_value-compile :
        (t : Term) → evaluate_value (compile W begin end t) s ≡ value (string_value (meaning t)) s
    unfolding evaluate_value compile meaning arguments Builtins.concat_fn Builtins.literal
        Builtins.read_var_args Builtins.logical_and_fn Builtins.logical_or_fn
        Builtins.logical_not_fn Builtins.equality_fn Builtins.inequality_fn Builtins.substring_fn
        Builtins.if_else_fn Builtins.sequence_fn evaluate string_value
    evaluate_value-compile (text x) = refl
    evaluate_value-compile (plus a b) =
        ground (arith, evaluate_value-compile a, evaluate_value-compile b, append-nil (meaning b))
    evaluate_value-compile (both a b) =
        ground (arith, evaluate_value-compile a, evaluate_value-compile b)
    evaluate_value-compile (either a b) =
        ground (arith, evaluate_value-compile a, evaluate_value-compile b)
    evaluate_value-compile (equal a b) =
        ground (arith, evaluate_value-compile a, evaluate_value-compile b)
    evaluate_value-compile (differ a b) =
        ground (arith, evaluate_value-compile a, evaluate_value-compile b)
    evaluate_value-compile (contains a b) =
        ground (arith, evaluate_value-compile a, evaluate_value-compile b)
    evaluate_value-compile (sequence a b) =
        ground (arith, evaluate_value-compile a, evaluate_value-compile b)
    evaluate_value-compile (negate a) = ground (arith, evaluate_value-compile a)
    evaluate_value-compile (if_then a b) =
        ground (arith, evaluate_value-compile a, evaluate_value-compile b)
    evaluate_value-compile (if_then_else a b c) =
        ground (arith, evaluate_value-compile a, evaluate_value-compile b, evaluate_value-compile c)
