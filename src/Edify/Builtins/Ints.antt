-- ===== src/Edify/Builtins/Ints.antt =====
-- What the comparisons of numbers and the search in a text compute, and where the evaluation of
-- arguments stops.
use android_bootable_recover.Common.{ℕ, ◌≡◌, refl, ◌↔◌, Bool, true, List, [], ◌∷◌, ◌++◌}
use android_bootable_recover.Common.Int.{ℤ, ltb_ℤ}
use android_bootable_recover.Edify.Text.{CString, strstr}
use android_bootable_recover.Edify.Text.Substring.{strstr_iff, Occurs}
use android_bootable_recover.Edify.Number.{strtol, show_int}
use android_bootable_recover.Edify.Number.Print.{IsLong, strtol-show_int, show_int-cons}
use android_bootable_recover.Edify.Machine.{
  State, Outcome, M, and_then, Arg, evaluate, argument, value, null, fault, string_value,
}
use android_bootable_recover.Edify.Builtins.{
  concat_fn, read_args, flag, read_var_args, greater_than_int_fn, less_than_int_fn, is_int,
  compare_ints, substring_fn,
}

is_int_cons : (c : ℕ) (cs : CString) (v : ℤ) → strtol (c ∷ cs) ≡ (v, []) → is_int (c ∷ cs) ≡ true
unfolding is_int
is_int_cons c cs v h = rw (h, is_int)

is_int-show_int : (v : ℤ) → IsLong v → is_int (show_int v) ≡ true
is_int-show_int v h =
    let (c, cs, e) = show_int-cons v in rw e (is_int_cons c cs v (rw (← e) (strtol-show_int v h)))

module _ {W : Type 0} where
  -- The argument returns this text, and changes the state from `s` to `t`.
  abbrev pub Yields : Arg W → CString → State W → State W → Type 0
  Yields a v s t = evaluate a s ≡ value v t

  compare_ints-show_int :
      (x y : ℤ) (s : State W)
      → IsLong x
      → IsLong y
      → compare_ints (show_int x) (show_int y) s ≡ value (string_value (flag (ltb_ℤ x y))) s
  unfolding compare_ints
  compare_ints-show_int x y s h k =
      rw (is_int-show_int x h, is_int-show_int y k, strtol-show_int x h, strtol-show_int y k)

  -- `less_than_int` of two numbers of the type `long`, printed in decimal with a minus if they are
  -- negative, is "t" exactly if the first is smaller, and the empty text otherwise. The first is
  -- evaluated first.
  pub less_than_int_fn-show_int :
      (name : CString) (a b : Arg W) (x y : ℤ) (s t u : State W)
      → IsLong x
      → IsLong y
      → Yields a (show_int x) s t
      → Yields b (show_int y) t u
      → less_than_int_fn name (a ∷ b ∷ []) s ≡ value (string_value (flag (ltb_ℤ x y))) u
  unfolding less_than_int_fn read_args
  less_than_int_fn-show_int name a b x y s t u h k p q =
      rw (p, and_then, q, and_then) (compare_ints-show_int x y u h k)

  -- `greater_than_int` of two numbers of the type `long`, printed in decimal with a minus if they are
  -- negative, is "t" exactly if the first is larger, and the empty text otherwise. The second is
  -- evaluated first.
  pub greater_than_int_fn-show_int :
      (name : CString) (a b : Arg W) (x y : ℤ) (s t u : State W)
      → IsLong x
      → IsLong y
      → Yields b (show_int y) s t
      → Yields a (show_int x) t u
      → greater_than_int_fn name (a ∷ b ∷ []) s ≡ value (string_value (flag (ltb_ℤ y x))) u
  unfolding greater_than_int_fn argument
  greater_than_int_fn-show_int name a b x y s t u h k p q =
      less_than_int_fn-show_int name b a y x s t u k h p q

  -- `is_substring` of two texts is "t" exactly if the first occurs somewhere in the second, and the
  -- empty text otherwise. The first is evaluated first.
  pub substring_fn-Occurs :
      (name : CString) (a b : Arg W) (needle haystack : CString) (s t u : State W)
      → Yields a needle s t
      → Yields b haystack t u
      → (found : Bool) × (substring_fn name (a ∷ b ∷ []) s ≡ value (string_value (flag found)) u)
        × ((found ≡ true) ↔ Occurs needle haystack)
  unfolding substring_fn argument
  substring_fn-Occurs name a b needle haystack s t u p q =
      (strstr haystack needle, rw (p, and_then, q, and_then), strstr_iff haystack needle)

  and_then-value :
      {A B : Type 0} (r : Outcome W A) (f : A → M W B) {b : B} {u : State W}
      → and_then r f ≡ value b u
      → (a : A) × (t : State W) × (r ≡ value a t) × (f a t ≡ value b u)
  and_then-value (value a t) f h = (a, t, refl, h)
  and_then-value (null t) f h = cc
  and_then-value fault f h = cc

  read_var_args-stops :
      (pre : List (Arg W)) (a : Arg W) (post : List (Arg W)) (vs : List CString) (s t u : State W)
      → read_var_args pre s ≡ value vs t
      → evaluate a t ≡ null u
      → read_var_args (pre ++ a ∷ post) s ≡ null u
  unfolding read_var_args
  read_var_args-stops [] a post vs s t u h k = let e : s ≡ t = cc in rw (e, k)
  read_var_args-stops (b ∷ pre) a post vs s t u h k =
      let (v, s', p, q) = and_then-value (evaluate b s) _ h in
      let (ws, t', p', q') = and_then-value (read_var_args pre s') _ q in
      let e : t' ≡ t = cc in
      rw (p, and_then, read_var_args-stops pre a post ws s' t u (rw e at p') k)

  -- `concat` stops at the first argument that evaluates to NULL: the arguments before it are
  -- evaluated, the result is NULL with the state that this argument left, and what stands behind
  -- it plays no part.
  pub concat_fn-stops :
      (name : CString) (pre : List (Arg W)) (a : Arg W) (post : List (Arg W)) (vs : List CString)
      (s t u : State W)
      → read_var_args pre s ≡ value vs t
      → evaluate a t ≡ null u
      → concat_fn name (pre ++ a ∷ post) s ≡ null u
  unfolding concat_fn
  concat_fn-stops name pre a post vs s t u h k = rw (read_var_args-stops pre a post vs s t u h k)
