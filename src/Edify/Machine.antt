-- ===== src/Edify/Machine.antt =====
-- The evaluator's data: values, the state, expressions (edify/expr.h), and `Evaluate`.
--
-- `malloc` and `strdup` do not fail here, and what is freed is not followed. A call through a pointer
-- `Expr.fn` gets its arguments as `Arg`s, which it may evaluate or not, as often as it likes; so a
-- function that another component registers is any value of `Function`.
use android_bootable_recover.Common.{
  ℕ, Option, none, some, List, [], ◌∷◌, ◌++◌, ◌==◌, if◌then◌else◌, length, get_elem?, take,
}
use android_bootable_recover.Edify.Text.{CString, codes}
use android_bootable_recover.Edify.Number.{show}

abbrev pub val_string : ℕ
val_string = 1

-- For a string, `contents` is what stands before the NUL.
pub record Value : Type 0 where
  pub type : ℕ
  pub size : ℕ
  pub contents : List ℕ

-- `W` is what `cookie` points at. `out` is what was written to stdout and `slept` the arguments of
-- `sleep`, in order; `errmsg` is `none` for NULL.
pub record State (W : Type 0) : Type 0 where
  pub cookie : W
  pub script : CString
  pub errmsg : Option CString
  pub out : CString
  pub slept : List ℕ

-- `null` is the return of NULL, `fault` a read past the end of `argv` or of the script.
pub data Outcome (W A : Type 0) : Type 0 where
  value : A → State W → Outcome W A
  null : State W → Outcome W A
  fault : Outcome W A

abbrev pub M : Type 0 → Type 0 → Type 0
M W A = State W → Outcome W A

module _ {W A : Type 0} where
  abbrev pub pure : A → M W A
  pure a s = value a s

  abbrev pub return_null : M W A
  return_null s = null s

  abbrev pub crash : M W A
  crash s = fault

abbrev pub and_then : {W A B : Type 0} → Outcome W A → (A → M W B) → Outcome W B
and_then (value a s) f = f a s
and_then (null s) f = null s
and_then fault f = fault

-- `if (x == NULL) return NULL;` after a call
infixl 5 ◌>>=◌ ◌>>◌
abbrev pub ◌>>=◌ : {W A B : Type 0} → M W A → (A → M W B) → M W B
◌>>=◌ m f s = and_then (m s) f

abbrev pub ◌>>◌ : {W B : Type 0} → M W (Unit {0}) → M W B → M W B
m >> k = m >>= λ _. k

pub record Arg (W : Type 0) : Type 0 where
  pub run : M W Value
  pub start : ℕ
  pub end : ℕ

-- `Value* (*Function)(const char* name, State* state, int argc, Expr* argv[])`
abbrev pub Function : Type 0 → Type 0
Function W = CString → List (Arg W) → M W Value

mutual
  pub data Expr (W : Type 0) : Type 0 where
    expr : Function W → CString → Exprs W → ℕ → ℕ → Expr W

  pub data Exprs (W : Type 0) : Type 0 where
    nil : Exprs W
    cons : Expr W → Exprs W → Exprs W

unfoldable pub string_value : CString → Value
string_value str = record { type = val_string; size = length str; contents = str }

module _ {W : Type 0} where
  abbrev pub set_errmsg : CString → M W (Unit {0})
  set_errmsg msg s = value tt (record s { errmsg = some msg })

  -- `vsnprintf(buffer, 4096, …)` keeps 4095 bytes
  unfoldable pub error_abort : {A : Type 0} → CString → M W A
  error_abort msg = do set_errmsg (take 4095 msg); return_null

  unfoldable pub expect_string : Value → M W CString
  unfolding error_abort show
  expect_string v =
      if v.type == val_string
      then pure v.contents
      else error_abort (codes "expecting string, got value type " ++ show v.type)

  -- `EvaluateValue` and `Evaluate` of one of the arguments
  unfoldable pub evaluate : Arg W → M W CString
  unfolding expect_string
  evaluate a = do v ← a.run; expect_string v

  -- `argv[i]`
  unfoldable pub argument : List (Arg W) → ℕ → M W (Arg W)
  argument argv i = elim (get_elem? argv i) [ none ↦ crash | some a ↦ pure a ]

abbrev pub start_of : {W : Type 0} → Expr W → ℕ
start_of (expr fn name argv start end) = start

abbrev pub end_of : {W : Type 0} → Expr W → ℕ
end_of (expr fn name argv start end) = end

-- `EvaluateValue`
unfoldable mutual
  pub evaluate_value : {W : Type 0} → Expr W → M W Value
  evaluate_value (expr fn name argv start end) = fn name (arguments argv)

  pub arguments : {W : Type 0} → Exprs W → List (Arg W)
  arguments nil = []
  arguments (cons e es) =
      record { run = evaluate_value e; start = start_of e; end = end_of e } ∷ arguments es

-- `Build` gives an operator's node its arguments.
unfoldable pub build : {W : Type 0} → Function W → ℕ → ℕ → Exprs W → Expr W
build fn start end argv = expr fn (codes "(operator)") argv start end
