-- ===== src/Edify/Tests.antt =====
-- Runs of the evaluator, and its theorems at concrete scripts.
use android_bootable_recover.Common.{
  ℕ, ◌≤◌, ◌≡◌, refl, ◌↔◌, Bool, true, none, some, List, [], ◌∷◌, arith, length,
}
use android_bootable_recover.Edify.Text.{CString, codes, strcmp}
use android_bootable_recover.Edify.Number.{show_int, strtol}
use android_bootable_recover.Edify.Machine.{
  State, Arg, value, null, fault, string_value, evaluate, evaluate_value, arguments,
}
use android_bootable_recover.Edify.Builtins
use android_bootable_recover.Edify.Builtins.Discipline.{Runs}
use android_bootable_recover.Edify.Builtins.Ints.{
  less_than_int_fn-show_int, greater_than_int_fn-show_int, substring_fn-Occurs, concat_fn-stops,
}
use android_bootable_recover.Edify.Terms.{
  Term, text, plus, either, negate, equal, contains, if_then_else, sequence, meaning, compile,
}
use android_bootable_recover.Edify.Terms.Meaning.{evaluate_value-compile}
use android_bootable_recover.Edify.Script.{
  Source, node, more, none_left, assert, literal, stdout, sequence, parsed, evaluate_value-Runs,
}
use android_bootable_recover.Edify.Table.{empty, register_all, finish_registration, find_function}
use android_bootable_recover.Edify.Table.Lookup.{Distinct, registered}
use android_bootable_recover.Edify.Table.Search.{find_function-finish, register_all_room}
use android_bootable_recover.Common.Int.{pos, negsuc, ltb_ℤ}
use android_bootable_recover.Edify.Text.Substring.{Occurs}

abbrev start_state : State (Unit {0})
start_state = record {
  cookie = tt;
  script = codes "assert(a);";
  errmsg = none;
  out = [];
  slept = [];
}

abbrev quoted : CString → Arg (Unit {0})
quoted s = record { run = λ t. value (string_value s) t; start = 0; end = 0 }

abbrev failing : Arg (Unit {0})
failing = record { run = λ t. null (record t { errmsg = some (codes "no") }); start = 0; end = 0 }

run_all : Unit {0}
unfolding Builtins.sleep_fn Builtins.assert_fn Builtins.less_than_int_fn Builtins.abort_fn
    evaluate_value arguments strtol strcmp
run_all = tt

-- `sleep("7")`
sleep_runs :
    Builtins.sleep_fn [] (quoted (codes "7") ∷ []) start_state
    ≡ value (string_value (codes "7")) (record start_state { slept = 7 ∷ [] })
unfolding run_all string_value
sleep_runs = refl

-- `sleep()` reads an argument that is not there.
sleep_faults : Builtins.sleep_fn [] [] start_state ≡ fault
unfolding run_all
sleep_faults = refl

-- a false assertion quotes the script
assert_quotes :
    Builtins.assert_fn [] (record (quoted []) { start = 7; end = 8 } ∷ []) start_state
    ≡ null (record start_state { errmsg = some (codes "assert failed: a") })
unfolding run_all string_value
assert_quotes = refl

not_an_int :
    Builtins.less_than_int_fn [] (quoted (codes "3x") ∷ quoted (codes "4") ∷ []) start_state
    ≡ value (string_value []) (record start_state { out = codes "[3x] is not an int\n" })
unfolding run_all string_value
not_an_int = refl

negative_ints :
    Builtins.less_than_int_fn [] (quoted (codes " -3") ∷ quoted (codes "+4") ∷ []) start_state
    ≡ value (string_value (codes "t")) start_state
unfolding run_all string_value
negative_ints = refl

abbrev sample : Term
sample =
    if_then_else (either (text []) (contains (text (codes "ab")) (text (codes "xaby"))))
      (plus (text (codes "a")) (negate (text (codes "z")))) (equal (text []) (text []))

evaluate_value-compile_example :
    evaluate_value (compile (Unit {0}) (λ _. 0) (λ _. 3) sample) start_state
    ≡ value (string_value (meaning sample)) start_state
evaluate_value-compile_example = evaluate_value-compile (λ _. 0) (λ _. 3) start_state sample

-- `assert("") ; stdout("x")`
abbrev script_tree : Source
script_tree =
    node sequence (codes "(operator)")
      (more (node assert (codes "assert") (more (node literal [] none_left 7 8) none_left) 0 9)
        (more (node stdout (codes "stdout") none_left 0 9) none_left))
      0 9

evaluate_value-Runs_example : Runs start_state (evaluate_value (parsed script_tree) start_state)
evaluate_value-Runs_example = evaluate_value-Runs script_tree start_state (omega arith)

abbrev names : List (CString × ℕ)
names = (codes "stdout", 1) ∷ (codes "abort", 2) ∷ (codes "sleep", 3) ∷ []

names-Distinct : Distinct names
unfolding strcmp
names-Distinct = ((λ e. cc, (λ e. cc, tt)), ((λ e. cc, tt), (tt, tt)))

find_function-finish_example :
    find_function (codes "abort") (finish_registration (register_all names empty))
    ≡ registered (codes "abort") names
find_function-finish_example = find_function-finish names (codes "abort") names-Distinct

register_all_room_example :
    length (register_all names empty).entries ≤ (register_all names empty).size
register_all_room_example = register_all_room names empty (omega arith)

below_zero : show_int (negsuc 6) ≡ codes "-7"
unfolding show_int
below_zero = refl

less_than_int_fn-show_int_example :
    Builtins.less_than_int_fn []
      (quoted (show_int (negsuc 11)) ∷ quoted (show_int (negsuc 6)) ∷ [])
      start_state
    ≡ value (string_value (Builtins.flag (ltb_ℤ (negsuc 11) (negsuc 6)))) start_state
unfolding evaluate string_value
less_than_int_fn-show_int_example =
    less_than_int_fn-show_int [] (quoted (show_int (negsuc 11))) (quoted (show_int (negsuc 6)))
      (negsuc 11) (negsuc 6) start_state start_state start_state (omega arith) (omega arith) refl
      refl

greater_than_int_fn-show_int_example :
    Builtins.greater_than_int_fn []
      (quoted (show_int (pos 12)) ∷ quoted (show_int (negsuc 6)) ∷ [])
      start_state
    ≡ value (string_value (Builtins.flag (ltb_ℤ (negsuc 6) (pos 12)))) start_state
unfolding evaluate string_value
greater_than_int_fn-show_int_example =
    greater_than_int_fn-show_int [] (quoted (show_int (pos 12))) (quoted (show_int (negsuc 6)))
      (pos 12) (negsuc 6) start_state start_state start_state (omega arith) (omega arith) refl refl

substring_fn-Occurs_example :
    (found : Bool) × (Builtins.substring_fn []
        (quoted (codes "ab") ∷ quoted (codes "xaby") ∷ [])
        start_state
      ≡ value (string_value (Builtins.flag found)) start_state)
    × ((found ≡ true) ↔ Occurs (codes "ab") (codes "xaby"))
unfolding evaluate string_value
substring_fn-Occurs_example =
    substring_fn-Occurs [] (quoted (codes "ab")) (quoted (codes "xaby")) (codes "ab") (codes "xaby")
      start_state start_state start_state refl refl

abbrev after_failure : State (Unit {0})
after_failure = record start_state { errmsg = some (codes "no") }

concat_fn-stops_example :
    Builtins.concat_fn [] (quoted (codes "a") ∷ failing ∷ quoted (codes "b") ∷ []) start_state
    ≡ null after_failure
unfolding evaluate string_value Builtins.read_var_args
concat_fn-stops_example =
    concat_fn-stops [] (quoted (codes "a") ∷ []) failing (quoted (codes "b") ∷ []) (codes "a" ∷ [])
      start_state start_state after_failure refl refl
