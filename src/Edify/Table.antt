-- ===== src/Edify/Table.antt =====
-- The table of named functions of edify/expr.c. `fn_entries` is the length of `entries`.
pub mod Lookup
pub mod Search
use android_bootable_recover.Common.{
  ℕ, zero, suc, ◌+◌, ◌*◌, ◌/◌, Option, none, some, List, [], ◌∷◌, ◌++◌, leb, if◌then◌else◌, length,
  take, drop,
}
use android_bootable_recover.Edify.Text.{CString, codes, Order, strcmp, before, same, after}
use android_bootable_recover.Edify.Machine.{Function}
use android_bootable_recover.Edify.Builtins

-- `NamedFunction`; the functions are not looked into, so any type serves.
abbrev pub Named : Type 0 → Type 0
Named F = CString × F

pub record FnTable (F : Type 0) : Type 0 where
  pub entries : List (Named F)
  pub size : ℕ

module _ {F : Type 0} where
  abbrev pub empty : FnTable F
  empty = record { entries = []; size = 0 }

  -- `realloc` to twice the size and one, when the table is full
  unfoldable pub register_function : CString → F → FnTable F → FnTable F
  register_function name fn t =
      let size' = if leb t.size (length t.entries) then t.size * 2 + 1 else t.size in
      record { entries = t.entries ++ (name, fn) ∷ []; size = size' }

  unfoldable pub register_all : List (Named F) → FnTable F → FnTable F
  register_all [] t = t
  register_all ((name, fn) ∷ rest) t = register_all rest (register_function name fn t)

  -- `fn_entry_compare`
  unfoldable pub fn_entry_compare : Named F → Named F → Order
  fn_entry_compare a b = strcmp a.0 b.0

  -- `qsort(fn_table, …, fn_entry_compare)`, by insertion
  unfoldable pub insert_entry : Named F → List (Named F) → List (Named F)
  unfolding fn_entry_compare
  insert_entry e [] = e ∷ []
  insert_entry e (d ∷ ds) = elim (fn_entry_compare e d) [
    | after ↦ d ∷ insert_entry e ds
    | _ ↦ e ∷ d ∷ ds
  ]

  unfoldable pub qsort : List (Named F) → List (Named F)
  unfolding insert_entry
  qsort [] = []
  qsort (e ∷ es) = insert_entry e (qsort es)

  unfoldable pub finish_registration : FnTable F → FnTable F
  unfolding qsort
  finish_registration t = record t { entries = qsort t.entries }

  -- `bsearch`: the middle entry, then one of the halves. `fuel` bounds the number of halvings.
  unfoldable pub bsearch : ℕ → CString → List (Named F) → Option F
  unfolding strcmp
  bsearch zero key es = none
  bsearch (suc fuel) key es = elim (drop (length es / 2) es) [
    | [] ↦ none
    | e ∷ right ↦ elim (strcmp key e.0) [
      | same ↦ some e.1
      | before ↦ bsearch fuel key (take (length es / 2) es)
      | after ↦ bsearch fuel key right
    ]
  ]

  unfoldable pub find_function : CString → FnTable F → Option F
  unfolding bsearch
  find_function name t = bsearch (length t.entries) name t.entries

-- `RegisterBuiltins`
unfoldable pub builtins : {W : Type 0} → List (Named (Function W))
builtins =
    (codes "ifelse", Builtins.if_else_fn)
    ∷ (codes "abort", Builtins.abort_fn)
    ∷ (codes "assert", Builtins.assert_fn)
    ∷ (codes "concat", Builtins.concat_fn)
    ∷ (codes "is_substring", Builtins.substring_fn)
    ∷ (codes "stdout", Builtins.stdout_fn)
    ∷ (codes "sleep", Builtins.sleep_fn)
    ∷ (codes "less_than_int", Builtins.less_than_int_fn)
    ∷ (codes "greater_than_int", Builtins.greater_than_int_fn)
    ∷ []

unfoldable pub register_builtins : {W : Type 0} → FnTable (Function W) → FnTable (Function W)
unfolding register_all builtins
register_builtins = register_all builtins
