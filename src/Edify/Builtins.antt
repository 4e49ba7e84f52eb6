-- ===== src/Edify/Builtins.antt =====
-- The functions of edify/expr.c, one definition for each, and the helpers that read arguments.
pub mod Discipline
pub mod Safety
pub mod Branches
pub mod Ints
use android_bootable_recover.Common.{
  ℕ, zero, suc, ◌-◌, ◌^◌, Bool, true, false, not, ◌&&◌, some, List, [], ◌∷◌, ◌++◌, leb, ◌==◌,
  if◌then◌else◌, length, get_or, take, drop,
}
use android_bootable_recover.Common.Int.{ℤ, pos, negsuc, ltb_ℤ}
use android_bootable_recover.Edify.Text.{CString, codes, strcmp, is_same, strstr}
use android_bootable_recover.Edify.Number.{strtol}
use android_bootable_recover.Edify.Machine.{
  Outcome, crash, Value, M, pure, return_null, ◌>>=◌, ◌>>◌, Arg, Function, string_value, set_errmsg,
  evaluate, argument, value, null, fault,
}

-- `BooleanString`: a text is true unless it is empty.
abbrev pub boolean_string : CString → Bool
boolean_string [] = false
boolean_string (c ∷ s) = true

abbrev pub flag : Bool → CString
flag b = if b then codes "t" else []

abbrev pub concat : List CString → CString
concat [] = []
concat (s ∷ ss) = s ++ concat ss

-- `sleep` takes an unsigned int: a negative number wraps.
abbrev pub as_unsigned : ℤ → ℕ
as_unsigned (pos n) = n
as_unsigned (negsuc n) = 2 ^ 32 - 1 - n

-- `left[0] == '\0' || *end != '\0'`
unfoldable pub is_int : CString → Bool
is_int [] = false
is_int (c ∷ s) = elim ((strtol (c ∷ s)).1) [ [] ↦ true | _ ∷ _ ↦ false ]

module _ {W : Type 0} where
  -- `StringValue` as the last thing that a function does
  abbrev pub return_string : CString → M W Value
  return_string s = pure (string_value s)

  -- `ReadVarArgs`, and the loops of `ConcatFn` and `ReadArgs`: the arguments in order, up to a NULL
  unfoldable pub read_var_args : List (Arg W) → M W (List CString)
  read_var_args [] = pure []
  read_var_args (a ∷ argv) = do v ← evaluate a; vs ← read_var_args argv; pure (v ∷ vs)

  -- `ReadValueVarArgs`
  unfoldable pub read_value_var_args : List (Arg W) → M W (List Value)
  read_value_var_args [] = pure []
  read_value_var_args (a ∷ argv) = do v ← a.run; vs ← read_value_var_args argv; pure (v ∷ vs)

  -- `ReadArgs` and `ReadValueArgs`: the first `count` arguments
  unfoldable pub read_args : ℕ → List (Arg W) → M W (List CString)
  read_args zero argv = pure []
  read_args (suc count) [] = crash
  read_args (suc count) (a ∷ argv) = do v ← evaluate a; vs ← read_args count argv; pure (v ∷ vs)

  unfoldable pub read_value_args : ℕ → List (Arg W) → M W (List Value)
  read_value_args zero argv = pure []
  read_value_args (suc count) [] = crash
  read_value_args (suc count) (a ∷ argv) = do
    v ← a.run
    vs ← read_value_args count argv
    pure (v ∷ vs)

  unfoldable pub concat_fn : Function W
  unfolding read_var_args
  concat_fn name argv = do strings ← read_var_args argv; return_string (concat strings)

  unfoldable pub if_else_branch : CString → List (Arg W) → M W Value
  unfolding argument
  if_else_branch test argv =
      if boolean_string test
      then (do a ← argument argv 1; a.run)
      else if length argv == 3
      then (do a ← argument argv 2; a.run)
      else return_string test

  unfoldable pub if_else_fn : Function W
  unfolding if_else_branch
  if_else_fn name argv =
      if not (length argv == 2) && not (length argv == 3)
      then (do set_errmsg (codes "ifelse expects 2 or 3 arguments"); return_null)
      else (do a ← argument argv 0; test ← evaluate a; if_else_branch test argv)

  -- A NULL message is no error: `abort` goes on with its default.
  abbrev pub abort_with : Outcome W CString → Outcome W Value
  abort_with (value msg s) = null (record s { errmsg = some msg })
  abort_with (null s) = null (record s { errmsg = some (codes "called abort()") })
  abort_with fault = fault

  unfoldable pub abort_fn : Function W
  unfolding evaluate
  abort_fn name [] s = null (record s { errmsg = some (codes "called abort()") })
  abort_fn name (a ∷ argv) s = abort_with (evaluate a s)

  -- `memcpy(err_src + prefix_len, state->script + start, len)`
  unfoldable pub script_slice : Arg W → M W CString
  script_slice a s =
      if leb a.start a.end && leb a.end (length s.script)
      then value (take (a.end - a.start) (drop a.start s.script)) s
      else fault

  unfoldable pub assert_failed : Arg W → M W Value
  unfolding script_slice
  assert_failed a = do
    source ← script_slice a
    set_errmsg (codes "assert failed: " ++ source)
    return_null

  unfoldable pub assert_fn : Function W
  unfolding assert_failed evaluate
  assert_fn name [] = return_string []
  assert_fn name (a ∷ argv) =
      let rest = assert_fn name argv in
      (do v ← evaluate a; if boolean_string v then rest else assert_failed a)

  abbrev pub sleep : ℕ → M W (Unit {0})
  sleep n s = value tt (record s { slept = s.slept ++ n ∷ [] })

  unfoldable pub sleep_fn : Function W
  unfolding argument evaluate
  sleep_fn name argv = do
    a ← argument argv 0
    val ← evaluate a
    sleep (as_unsigned (strtol val).0)
    return_string val

  -- `fputs(v, stdout)` and `printf`
  abbrev pub put : CString → M W (Unit {0})
  put text s = value tt (record s { out = s.out ++ text })

  unfoldable pub stdout_fn : Function W
  unfolding evaluate
  stdout_fn name [] = return_string []
  stdout_fn name (a ∷ argv) = do v ← evaluate a; put v; stdout_fn name argv

  unfoldable pub logical_and_fn : Function W
  unfolding argument evaluate
  logical_and_fn name argv = do
    a ← argument argv 0
    left ← evaluate a
    if boolean_string left then (do b ← argument argv 1; b.run) else return_string left

  unfoldable pub logical_or_fn : Function W
  unfolding argument evaluate
  logical_or_fn name argv = do
    a ← argument argv 0
    left ← evaluate a
    if boolean_string left then return_string left else (do b ← argument argv 1; b.run)

  unfoldable pub logical_not_fn : Function W
  unfolding argument evaluate
  logical_not_fn name argv = do
    a ← argument argv 0
    val ← evaluate a
    return_string (flag (not (boolean_string val)))

  -- What the three functions of two texts share: both are evaluated, the left one first.
  unfoldable pub of_two : (CString → CString → Bool) → Function W
  unfolding argument evaluate
  of_two test name argv = do
    a ← argument argv 0
    left ← evaluate a
    b ← argument argv 1
    right ← evaluate b
    return_string (flag (test left right))

  unfoldable pub substring_fn : Function W
  unfolding of_two strstr
  substring_fn = of_two (λ needle haystack. strstr haystack needle)

  unfoldable pub equality_fn : Function W
  unfolding of_two strcmp
  equality_fn = of_two (λ left right. is_same (strcmp left right))

  unfoldable pub inequality_fn : Function W
  unfolding of_two strcmp
  inequality_fn = of_two (λ left right. not (is_same (strcmp left right)))

  unfoldable pub sequence_fn : Function W
  unfolding argument
  sequence_fn name argv = do a ← argument argv 0; left ← a.run; b ← argument argv 1; b.run

  unfoldable pub complain : CString → M W (Unit {0})
  complain s = put (codes "[" ++ (s ++ codes "] is not an int\n"))

  unfoldable pub compare_ints : CString → CString → M W Value
  unfolding is_int complain
  compare_ints left right =
      if is_int left
      then if is_int right
        then return_string (flag (ltb_ℤ (strtol left).0 (strtol right).0))
        else (do complain right; return_string [])
      else (do complain left; return_string [])

  unfoldable pub less_than_int_fn : Function W
  unfolding read_args compare_ints
  less_than_int_fn name argv =
      if length argv == 2
      then (do args ← read_args 2 argv; compare_ints (get_or args 0 []) (get_or args 1 []))
      else (do set_errmsg (codes "less_than_int expects 2 arguments"); return_null)

  unfoldable pub greater_than_int_fn : Function W
  unfolding less_than_int_fn
  greater_than_int_fn name argv =
      if length argv == 2
      then (do b ← argument argv 1; a ← argument argv 0; less_than_int_fn name (b ∷ a ∷ []))
      else (do set_errmsg (codes "greater_than_int expects 2 arguments"); return_null)

  unfoldable pub literal : Function W
  literal name argv = return_string name
