-- ===== src/Edify/Text.antt =====
-- C strings as edify uses them. A string is the list of its bytes before the terminating NUL.

pub mod Compare
pub mod Substring
use Prim.Native.Char.{code}
use android_bootable_recover.Common.{
  ℕ, String, Bool, true, false, ◌&&◌, ◌||◌, List, [], ◌∷◌, ltb, ◌==◌, if◌then◌else◌,
}

abbrev pub CString : Type 0
CString = List ℕ

-- A string literal of the source.
abbrev pub codes : String → CString
codes String.[] = []
codes (String.◌∷◌ c s) = code c ∷ codes s

-- `strcmp(a, b)`: negative, zero or positive. Bytes compare as unsigned.
pub data Order : Type 0 where
  before same after : Order

unfoldable pub strcmp : CString → CString → Order
strcmp [] [] = same
strcmp [] (y ∷ ys) = before
strcmp (x ∷ xs) [] = after
strcmp (x ∷ xs) (y ∷ ys) = if ltb x y then before else if ltb y x then after else strcmp xs ys

abbrev pub is_same : Order → Bool
is_same same = true
is_same _ = false

unfoldable pub starts_with : CString → CString → Bool
starts_with [] ys = true
starts_with (x ∷ xs) [] = false
starts_with (x ∷ xs) (y ∷ ys) = x == y && starts_with xs ys

-- `strstr(haystack, needle) != NULL`
unfoldable pub strstr : CString → CString → Bool
unfolding starts_with
strstr [] needle = starts_with needle []
strstr (c ∷ haystack) needle = starts_with needle (c ∷ haystack) || strstr haystack needle
