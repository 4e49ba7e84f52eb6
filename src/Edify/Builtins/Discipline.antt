-- ===== src/Edify/Builtins/Discipline.antt =====
-- The contract that edify/expr.c states for its functions, as a relation between the state before a
-- call and what the call returns.
use android_bootable_recover.Common.{
  ℕ, ◌≤◌, ◌≡◌, refl, sym, ◌∙◌, inl, inr, Bool, true, false, some, List, [], ◌∷◌, ◌++◌, append_assoc,
  append-nil, ◌==◌, if◌then◌else◌, Bool-cases, length,
}
use android_bootable_recover.Edify.Text.{CString}
use android_bootable_recover.Edify.Machine.{
  Function, Value, State, Outcome, M, and_then, Arg, evaluate, expect_string, error_abort, value,
  null,
}

module _ {W : Type 0} where
  -- What no builtin touches stays as it was, and the effects are only added to.
  pub record Keeps (s t : State W) : Type 0 where
    pub cookie : t.cookie ≡ s.cookie
    pub script : t.script ≡ s.script
    pub out : (more : CString) × (t.out ≡ s.out ++ more)
    pub slept : (more : List ℕ) × (t.slept ≡ s.slept ++ more)

  -- A call that returns a value leaves the error message alone, and one that returns NULL leaves
  -- some message. There is no constructor for a fault.
  pub data Runs {A : Type 0} (s : State W) : Outcome W A → Type 0 where
    returns : {a : A} {t : State W} → Keeps s t → t.errmsg ≡ s.errmsg → Runs s (value a t)
    aborts : {t : State W} {m : CString} → Keeps s t → t.errmsg ≡ some m → Runs s (null t)

  pub Keeps-refl : (s : State W) → Keeps s s
  Keeps-refl s = record {
    cookie = refl;
    script = refl;
    out = ([], sym (append-nil _));
    slept = ([], sym (append-nil _));
  }

  pub Keeps-trans : {s t u : State W} → Keeps s t → Keeps t u → Keeps s u
  Keeps-trans {s} h k = record {
    cookie = k.cookie ∙ h.cookie;
    script = k.script ∙ h.script;
    out = (h.out.0 ++ k.out.0, rw (k.out.1, h.out.1) (append_assoc s.out h.out.0 k.out.0));
    slept = (
      h.slept.0 ++ k.slept.0,
      rw (k.slept.1, h.slept.1) (append_assoc s.slept h.slept.0 k.slept.0),
    );
  }

  pub Runs-after :
      {A : Type 0} {s t : State W} {r : Outcome W A}
      → Keeps s t
      → t.errmsg ≡ s.errmsg
      → Runs t r
      → Runs s r
  Runs-after h e (returns k p) = returns (Keeps-trans h k) (p ∙ e)
  Runs-after h e (aborts k p) = aborts (Keeps-trans h k) p

  pub Runs-then :
      {A B : Type 0} {s : State W} {r : Outcome W A} {f : A → M W B}
      → Runs s r
      → ((a : A) (t : State W) → t.script ≡ s.script → Runs t (f a t))
      → Runs s (and_then r f)
  Runs-then (returns h e) k = Runs-after h e (k _ _ h.script)
  Runs-then (aborts h e) k = aborts h e

  pub Runs-pure : {A : Type 0} (a : A) (s : State W) → Runs s (value a s)
  Runs-pure a s = returns (Keeps-refl s) refl

  pub Runs-fails :
      {A : Type 0} (m : CString) (s : State W)
      → Runs {A = A} s (null (record s { errmsg = some m }))
  Runs-fails m s =
      aborts
        (record {
          cookie = refl;
          script = refl;
          out = ([], sym (append-nil _));
          slept = ([], sym (append-nil _));
        })
        refl

  -- An argument of a call: it keeps the contract on every state with this script, and its place in
  -- the script is a part of the script.
  pub record ArgRuns (script : CString) (a : Arg W) : Type 0 where
    pub runs : (s : State W) → s.script ≡ script → Runs s (a.run s)
    pub ordered : a.start ≤ a.end
    pub within : a.end ≤ length script

  abbrev pub AllRun : CString → List (Arg W) → Type 0
  AllRun script [] = Unit
  AllRun script (a ∷ argv) = ArgRuns script a × AllRun script argv

  pub expect_string-Runs : (v : Value) (s : State W) → Runs s (expect_string v s)
  unfolding expect_string error_abort
  expect_string-Runs v s = elim (Bool-cases (v.type == 1)) [
    | inl e ↦ rw e (Runs-pure v.contents s)
    | inr e ↦ rw e (Runs-fails _ s)
  ]

  pub evaluate-Runs :
      {script : CString} {a : Arg W}
      → ArgRuns script a
      → (s : State W) → s.script ≡ script
      → Runs s (evaluate a s)
  unfolding evaluate
  evaluate-Runs h s e = Runs-then (h.runs s e) (λ v t _. expect_string-Runs v t)

  -- a test that both outcomes of keep the contract
  pub Runs-if :
      {A : Type 0} (b : Bool) (m k : M W A) (s : State W)
      → Runs s (m s)
      → Runs s (k s)
      → Runs s ((if b then m else k) s)
  Runs-if true m k s x y = x
  Runs-if false m k s x y = y

  pub Runs-wrote :
      {A : Type 0} (a : A) (text : CString) (s : State W)
      → Runs s (value a (record s { out = s.out ++ text }))
  Runs-wrote a text s =
      returns
        (record {
          cookie = refl;
          script = refl;
          out = (text, refl);
          slept = ([], sym (append-nil _));
        })
        refl

-- `fn` keeps the contract when it is called with `n` arguments or more.
module _ {W : Type 0} (script : CString) where
  abbrev pub FnRuns : ℕ → Function W → Type 0
  FnRuns n fn =
      (name : CString) (argv : List (Arg W))
      → n ≤ length argv
      → AllRun script argv
      → (s : State W) → s.script ≡ script
      → Runs s (fn name argv s)
