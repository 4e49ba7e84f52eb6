-- ===== src/Edify/Terms.antt =====
-- What an expression means: the operators of the edify grammar (edify/parser.y) as a language of
-- its own, with its meaning as a text and its translation to the nodes that `Build` makes.
pub mod Meaning
use android_bootable_recover.Common.{ℕ, not, [], ◌++◌, if◌then◌else◌}
use android_bootable_recover.Edify.Text.{CString, codes, strstr, strcmp, is_same}
use android_bootable_recover.Edify.Machine.{
  Value, State, Outcome, M, ◌>>=◌, ◌>>◌, Arg, Function, Expr, Exprs, expr, nil, cons, build,
  arguments, string_value, evaluate, expect_string, evaluate_value, argument, value, null, fault,
}
use android_bootable_recover.Edify.Builtins

pub data Term : Type 0 where
  text : CString → Term
  plus both either equal differ sequence contains : Term → Term → Term
  negate : Term → Term
  if_then : Term → Term → Term
  if_then_else : Term → Term → Term → Term

-- The text that a term stands for. The empty text is false.
unfoldable pub meaning : Term → CString
meaning (text s) = s
meaning (plus a b) = meaning a ++ meaning b
meaning (both a b) = if Builtins.boolean_string (meaning a) then meaning b else []
meaning (either a b) = if Builtins.boolean_string (meaning a) then meaning a else meaning b
meaning (equal a b) = Builtins.flag (is_same (strcmp (meaning a) (meaning b)))
meaning (differ a b) = Builtins.flag (not (is_same (strcmp (meaning a) (meaning b))))
meaning (sequence a b) = meaning b
meaning (contains a b) = Builtins.flag (strstr (meaning b) (meaning a))
meaning (negate a) = Builtins.flag (not (Builtins.boolean_string (meaning a)))
meaning (if_then a b) = if Builtins.boolean_string (meaning a) then meaning b else []
meaning (if_then_else a b c) = if Builtins.boolean_string (meaning a) then meaning b else meaning c

module _ {W : Type 0} where
  abbrev pub one : Expr W → Exprs W
  one a = cons a nil

  abbrev pub two : Expr W → Expr W → Exprs W
  two a b = cons a (cons b nil)

-- `begin` and `end` are the places in the script that the parser notes at a node.
module _ (W : Type 0) (begin end : Term → ℕ) where
  unfoldable pub compile : Term → Expr W
  unfolding build
  compile (text s) = expr Builtins.literal s nil (begin (text s)) (end (text s))
  compile (plus a b) =
      build Builtins.concat_fn (begin (plus a b)) (end (plus a b)) (two (compile a) (compile b))
  compile (both a b) =
      build Builtins.logical_and_fn (begin (both a b)) (end (both a b))
        (two (compile a) (compile b))
  compile (either a b) =
      build Builtins.logical_or_fn (begin (either a b)) (end (either a b))
        (two (compile a) (compile b))
  compile (equal a b) =
      build Builtins.equality_fn (begin (equal a b)) (end (equal a b)) (two (compile a) (compile b))
  compile (differ a b) =
      build Builtins.inequality_fn (begin (differ a b)) (end (differ a b))
        (two (compile a) (compile b))
  compile (sequence a b) =
      build Builtins.sequence_fn (begin (sequence a b)) (end (sequence a b))
        (two (compile a) (compile b))
  compile (contains a b) =
      expr Builtins.substring_fn (codes "is_substring") (two (compile a) (compile b))
        (begin (contains a b)) (end (contains a b))
  compile (negate a) =
      build Builtins.logical_not_fn (begin (negate a)) (end (negate a)) (one (compile a))
  compile (if_then a b) =
      build Builtins.if_else_fn (begin (if_then a b)) (end (if_then a b))
        (two (compile a) (compile b))
  compile (if_then_else a b c) =
      build Builtins.if_else_fn (begin (if_then_else a b c)) (end (if_then_else a b c))
        (cons (compile a) (two (compile b) (compile c)))
