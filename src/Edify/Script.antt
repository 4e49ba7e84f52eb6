-- ===== src/Edify/Script.antt =====
-- Whole scripts: every node's function has the arguments that it reads.
use android_bootable_recover.Common.{ℕ, suc, ◌≤◌, ◌≡◌, refl, ap, length}
use android_bootable_recover.Edify.Text.{CString}
use android_bootable_recover.Edify.Machine.{
  State, Function, Expr, Exprs, expr, nil, cons, evaluate_value, arguments,
}
use android_bootable_recover.Edify.Builtins
use android_bootable_recover.Edify.Builtins.Discipline.{Runs, FnRuns, AllRun}
use android_bootable_recover.Edify.Builtins.Safety
use android_bootable_recover.Edify.Builtins.Branches

-- The functions of edify/expr.c: those of the operators and those of `RegisterBuiltins`.
pub data Builtin : Type 0 where
  literal concat if_else abort assert sleep stdout logical_and logical_or logical_not : Builtin
  substring equality inequality sequence less_than_int greater_than_int : Builtin

unfoldable pub function : {W : Type 0} → Builtin → Function W
function literal = Builtins.literal
function concat = Builtins.concat_fn
function if_else = Builtins.if_else_fn
function abort = Builtins.abort_fn
function assert = Builtins.assert_fn
function sleep = Builtins.sleep_fn
function stdout = Builtins.stdout_fn
function logical_and = Builtins.logical_and_fn
function logical_or = Builtins.logical_or_fn
function logical_not = Builtins.logical_not_fn
function substring = Builtins.substring_fn
function equality = Builtins.equality_fn
function inequality = Builtins.inequality_fn
function sequence = Builtins.sequence_fn
function less_than_int = Builtins.less_than_int_fn
function greater_than_int = Builtins.greater_than_int_fn

-- The arguments that a function reads without a check that they are there.
abbrev pub arity : Builtin → ℕ
arity sleep = 1
arity logical_not = 1
arity logical_and = 2
arity logical_or = 2
arity substring = 2
arity equality = 2
arity inequality = 2
arity sequence = 2
arity _ = 0

pub function-Runs :
    {W : Type 0} (script : CString) (b : Builtin) → FnRuns {W = W} script (arity b) (function b)
unfolding function Builtins.substring_fn Builtins.equality_fn Builtins.inequality_fn
function-Runs script literal = Safety.literal-Runs script
function-Runs script concat = Safety.concat_fn-Runs script
function-Runs script if_else = Branches.if_else_fn-Runs script
function-Runs script abort = Safety.abort_fn-Runs script
function-Runs script assert = Safety.assert_fn-Runs script
function-Runs script sleep = Safety.sleep_fn-Runs script
function-Runs script stdout = Safety.stdout_fn-Runs script
function-Runs script logical_and = Safety.logical_and_fn-Runs script
function-Runs script logical_or = Safety.logical_or_fn-Runs script
function-Runs script logical_not = Safety.logical_not_fn-Runs script
function-Runs script substring = Safety.of_two-Runs script _
function-Runs script equality = Safety.of_two-Runs script _
function-Runs script inequality = Safety.of_two-Runs script _
function-Runs script sequence = Safety.sequence_fn-Runs script
function-Runs script less_than_int = Branches.less_than_int_fn-Runs script
function-Runs script greater_than_int = Branches.greater_than_int_fn-Runs script

-- A script over the builtins: the function and name of a node, its place and its arguments.
mutual
  pub data Source : Type 0 where
    node : Builtin → CString → Sources → ℕ → ℕ → Source

  pub data Sources : Type 0 where
    none_left : Sources
    more : Source → Sources → Sources

abbrev pub count : Sources → ℕ
count none_left = 0
count (more e es) = suc (count es)

unfoldable mutual
  pub parsed : {W : Type 0} → Source → Expr W
  parsed (node b name argv start end) = expr (function b) name (parsed_all argv) start end

  pub parsed_all : {W : Type 0} → Sources → Exprs W
  parsed_all none_left = nil
  parsed_all (more e es) = cons (parsed e) (parsed_all es)

-- Every node lies in the script and has the arguments that its function reads.
abbrev mutual
  pub WellMade : CString → Source → Type 0
  WellMade script (node b name argv start end) =
      (arity b ≤ count argv) × (start ≤ end) × (end ≤ length script) × AllMade script argv

  pub AllMade : CString → Sources → Type 0
  AllMade script none_left = Unit
  AllMade script (more e es) = WellMade script e × AllMade script es

length-arguments :
    (W : Type 0) (es : Sources) → length (arguments {W = W} (parsed_all es)) ≡ count es
unfolding arguments parsed_all
length-arguments W none_left = refl
length-arguments W (more e es) = ap suc (length-arguments W es)

mutual
  unfolding evaluate_value arguments parsed parsed_all

  parsed-Runs :
      {W : Type 0} (script : CString) (e : Source)
      → WellMade script e
      → (s : State W) → s.script ≡ script
      → Runs s (evaluate_value (parsed e) s)
  parsed-Runs script (node b name argv start end) h s p =
      function-Runs script b name _ (rw length-arguments h.0) (parsed_all-Runs _ script argv h.3) s
        p

  parsed_all-Runs :
      (W : Type 0) (script : CString) (es : Sources)
      → AllMade script es
      → AllRun {W = W} script (arguments (parsed_all es))
  parsed_all-Runs _ script none_left h = tt
  parsed_all-Runs _ script (more (node b name argv start end) es) h = (
    record {
      runs = parsed-Runs script (node b name argv start end) h.0;
      ordered = h.0.1;
      within = h.0.2;
    },
    parsed_all-Runs _ script es h.1,
  )

-- A script over the builtins, each with the arguments that it reads and every node inside the script
-- text, does not read past its arguments or the script; it keeps the cookie and the script and only
-- adds to what is printed and slept. If it returns a value the error message is what it was, and if
-- it returns NULL there is an error message.
pub evaluate_value-Runs :
    {W : Type 0} (e : Source) (s : State W)
    → WellMade s.script e
    → Runs s (evaluate_value (parsed e) s)
evaluate_value-Runs e s h = parsed-Runs s.script e h s refl
