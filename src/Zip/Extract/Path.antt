-- ===== src/Zip/Extract/Path.antt =====
-- The buffer that `targetEntryPath` of minzip/Zip.c keeps.
use android_bootable_recover.Common.{
  ℕ, ◌+◌, ◌≤◌, ◌≡◌, refl, ap, ◌∙◌, ◌⊎◌, inl, inr, true, none, some, List, [], ◌∷◌, ◌++◌, arith, ltb,
  leb, length, length-append, take, drop, length-drop,
}
use android_bootable_recover.DirUtil.{slash}
use android_bootable_recover.Zip.{ok}
use android_bootable_recover.Zip.Extract.{MzPathHelper, with_slash, grown, target_entry_path}

-- Between calls: nothing is allocated, or the buffer starts with the target directory and its slash.
pub record Ready (dir : List ℕ) (zip_dir_len : ℕ) (helper : MzPathHelper) : Type 0 where
  pub same_dir : helper.target_dir ≡ dir
  pub same_len : helper.zip_dir_len ≡ zip_dir_len
  pub written :
      ((helper.buf ≡ none) × (helper.target_dir_len ≡ length dir))
      ⊎ ((path : List ℕ) × (helper.buf ≡ some path)
          × (take helper.target_dir_len path ≡ with_slash dir)
          × (helper.target_dir_len ≡ length (with_slash dir)))

with_slash-length : (dir : List ℕ) → length (with_slash dir) ≤ length dir + 1
unfolding with_slash
with_slash-length dir = ground (arith, length-append dir (slash ∷ []))

take_all : (a b : List ℕ) → take (length a) (a ++ b) ≡ a
take_all [] b = refl
take_all (x ∷ a) b = ap (λ l. x ∷ l) (take_all a b)

module _ (dir : List ℕ) (helper : MzPathHelper) (name : List ℕ) where
  -- the path, once it is known what the buffer starts with
  path_of :
      (start : List ℕ)
      → (elim helper.buf as (λ b. List ℕ) [
        | some written ↦ take helper.target_dir_len written
        | none ↦ with_slash helper.target_dir
      ])
        ≡ start
      → length start ≤ helper.target_dir_len + 1
      → helper.zip_dir_len ≤ length name
      → target_entry_path helper name
        ≡ ok (
          record helper {
            buf = some (start ++ drop helper.zip_dir_len name);
            target_dir_len = length start;
            buf_len = grown helper name;
          },
          start ++ drop helper.zip_dir_len name,
        )
  unfolding target_entry_path
  path_of start e h k =
      let fits : ltb (length (start ++ drop helper.zip_dir_len name)) (grown helper name) ≡ true =
        ground (
          arith,
          length-append start (drop helper.zip_dir_len name),
          length-drop helper.zip_dir_len name,
        ) in
      let long : leb helper.zip_dir_len (length name) ≡ true = ground arith in rw (e, long, fits)

-- The path is that of the target directory, a slash and the rest of the name, at every call: the first one,
-- that writes the directory, and the later ones, that keep it. No write goes past the buffer.
pub target_entry_path-Ready :
    (dir : List ℕ) (zip_dir_len : ℕ) (helper : MzPathHelper) (name : List ℕ)
    → Ready dir zip_dir_len helper
    → zip_dir_len ≤ length name
    → (helper' : MzPathHelper) × (target_entry_path helper name
        ≡ ok (helper', with_slash dir ++ drop zip_dir_len name))
      × Ready dir zip_dir_len helper'
target_entry_path-Ready dir z helper name ready k =
    let start = with_slash dir in
    let helper' : MzPathHelper = record helper {
      buf = some (start ++ drop helper.zip_dir_len name);
      target_dir_len = length start;
      buf_len = grown helper name;
    } in
    let kept : Ready dir z helper' = record {
      same_dir = ready.same_dir;
      same_len = ready.same_len;
      written = inr (_, refl, take_all start (drop helper.zip_dir_len name), refl);
    } in
    let run : target_entry_path helper name ≡ ok (helper', start ++ drop helper.zip_dir_len name) =
      elim ready.written [
        | inl (fresh, len) ↦
            path_of dir helper name start (rw (fresh, ready.same_dir))
              (omega (arith, len, with_slash-length dir)) (omega (arith, ready.same_len))
        | inr (path, held, starts, len) ↦
            path_of dir helper name start (rw (held, starts)) (omega (arith, len))
              (omega (arith, ready.same_len))
      ] in
    (helper', run ∙ ap (λ n. ok (helper', start ++ drop n name)) ready.same_len, kept)
