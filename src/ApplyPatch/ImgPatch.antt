-- ===== src/ApplyPatch/ImgPatch.antt =====
-- Applying an image patch: applypatch/imgpatch.c, with `ApplyBSDiffPatch` of applypatch/bspatch.c.
-- libbz2, zlib and the sink that takes the output are parameters.
--
-- A context of SHA_update is the list of the bytes it was given. `size_t` has 32 bits. A source range
-- outside of the old data is a fault, and so is a raw chunk of negative length.
pub mod Chunks
pub mod Mirror
use android_bootable_recover.Common.{
  ℕ, zero, suc, ◌+◌, ◌%◌, ◌^◌, Bool, false, ◌||◌, Option, none, some, List, [], ◌∷◌, ◌++◌, ltb, leb,
  ◌==◌, if◌then◌else◌, length, take, drop,
}
use android_bootable_recover.Common.Int.{ℤ, pos, negsuc, ltb_ℤ}
use android_bootable_recover.ApplyPatch.Bytes.{read4, read8, as_int}
use android_bootable_recover.ApplyPatch.BsPatch
use android_bootable_recover.ApplyPatch.BsPatch.{Bz, bytes_eq, apply_bs_diff_patch_mem}

abbrev pub magic : List ℕ
magic = b'I' ∷ b'M' ∷ b'G' ∷ b'D' ∷ b'I' ∷ b'F' ∷ b'F' ∷ b'2' ∷ []

-- the parameters of `deflateInit2`
pub record Deflation : Type 0 where
  pub level : ℤ
  pub method : ℤ
  pub window_bits : ℤ
  pub mem_level : ℤ
  pub strategy : ℤ

-- `inflate n bs` is `inflateInit2` with -15 and one call of `inflate` with `avail_out = n`: what it
-- puts out, if the calls return Z_OK and Z_STREAM_END. `deflate n s` is a call with `avail_out = n` and
-- Z_FINISH: the bytes put out, the stream after, and whether it returned Z_STREAM_END.
pub record Zlib : Type 1 where
  pub Stream : Type 0
  pub inflate : ℕ → List ℕ → Option (List ℕ)
  pub deflate_init : Deflation → List ℕ → Stream
  pub deflate : ℕ → Stream → List ℕ × Stream × Bool

-- what the token of the sink holds, and the context
pub record Output (T : Type 0) : Type 0 where
  pub token : T
  pub hashed : List ℕ

-- `failed` is a return that is not 0, `fault` a read outside of memory; `hang`: the rounds ran out.
pub data Applied (A : Type 0) (T : Type 0) : Type 0 where
  applied : A → Applied A T
  failed : Output T → Applied A T
  fault hang : Applied A T

infixl 5 ◌>>=◌
abbrev pub ◌>>=◌ : {A B T : Type 0} → Applied A T → (A → Applied B T) → Applied B T
applied a >>= f = f a
failed o >>= f = failed o
fault >>= f = fault
hang >>= f = hang

abbrev pub size_field : List ℕ → ℕ → ℕ
size_field patch at = read8 (drop at patch) % 2 ^ 32

abbrev pub int_field : List ℕ → ℕ → ℤ
int_field patch at = as_int (read4 (drop at patch))

module _ (bz : Bz) (zlib : Zlib) {T : Type 0} (sink : List ℕ → T → T × ℤ) (rounds : ℕ) where
  -- `ApplyBSDiffPatch`
  unfoldable pub apply_bs_diff_patch : List ℕ → List ℕ → ℕ → Output T → Applied (Output T) T
  apply_bs_diff_patch old patch patch_offset out =
      elim (apply_bs_diff_patch_mem bz rounds rounds old patch patch_offset) [
        | BsPatch.done new ↦
            let (token, written) = sink new out.token in
            if ltb_ℤ written (pos (length new))
            then failed (record out { token = token })
            else applied (record { token = token; hashed = out.hashed ++ new })
        | BsPatch.corrupt ↦ failed out
        | BsPatch.fault ↦ fault
        | BsPatch.hang ↦ hang
      ]

  -- The result of a normal chunk is not looked at.
  abbrev pub ignore_result : Applied (Output T) T → Applied (Output T) T
  ignore_result (failed out) = applied out
  ignore_result r = r

  unfoldable pub normal_chunk : List ℕ → List ℕ → ℕ → Output T → Applied (ℕ × Output T) T
  unfolding apply_bs_diff_patch
  normal_chunk old patch at out =
      let src_start = size_field patch at in
      let src_len = size_field patch (at + 8) in
      let patch_offset = size_field patch (at + 16) in
      if ltb (length patch) (at + 24)
      then failed out
      else if ltb (length old) (src_start + src_len)
      then fault
      else (ignore_result
            (apply_bs_diff_patch (take src_len (drop src_start old)) patch patch_offset out)
          >>= λ o. applied (at + 24, o))

  -- `sink(...) != n` for `n` bytes
  abbrev pub took : ℤ → List ℕ → Bool
  took (pos n) bs = n == length bs
  took (negsuc _) bs = false

  abbrev pub raw_data : List ℕ → ℕ → ℤ → Output T → Applied (ℕ × Output T) T
  raw_data patch at (negsuc _) out = fault
  raw_data patch at (pos data_len) out =
      let bs = take data_len (drop at patch) in
      let (token, written) = sink bs out.token in
      if ltb (length patch) (at + data_len)
      then failed out
      else if took written bs
      then applied (at + data_len, record { token = token; hashed = out.hashed ++ bs })
      else failed (record { token = token; hashed = out.hashed ++ bs })

  unfoldable pub raw_chunk : List ℕ → ℕ → Output T → Applied (ℕ × Output T) T
  raw_chunk patch at out =
      if ltb (length patch) (at + 4)
      then failed out
      else raw_data patch (at + 4) (int_field patch at) out

  -- the loop that compresses, into a buffer of `temp_size` bytes
  unfoldable pub deflate_loop : ℕ → ℕ → Zlib.Stream zlib → Output T → Applied (Output T) T
  deflate_loop zero temp_size strm out = hang
  deflate_loop (suc n) temp_size strm out =
      let (have, strm', end) = zlib.deflate temp_size strm in
      let (token, written) = sink have out.token in
      let out' : Output T = record { token = token; hashed = out.hashed ++ have } in
      let rest = deflate_loop n temp_size strm' out' in
      if took written have
      then (if end then applied out' else rest)
      else failed (record out { token = token })

  -- The expanded source, with the bonus data at its end: what `inflate` puts out has to fill the
  -- buffer but for the bonus.
  unfoldable pub expand : List ℕ → ℕ → List ℕ → Output T → Applied (List ℕ) T
  expand source expanded_len bonus out = elim (zlib.inflate expanded_len source) [
    | none ↦ failed out
    | some bs ↦
        if length bs + length bonus == expanded_len then applied (bs ++ bonus) else failed out
  ]

  abbrev pub deflation : List ℕ → ℕ → Deflation
  deflation patch at = record {
    level = int_field patch (at + 40);
    method = int_field patch (at + 44);
    window_bits = int_field patch (at + 48);
    mem_level = int_field patch (at + 52);
    strategy = int_field patch (at + 56);
  }

  -- `temp_size` is an `ssize_t`: a length of 2^31 or more is negative there
  abbrev pub temp_size : ℕ → ℕ
  temp_size expanded_len =
      if ltb expanded_len 32768 || leb (2 ^ 31) expanded_len then 32768 else expanded_len

  unfoldable pub deflate_chunk : List ℕ → List ℕ → List ℕ → ℕ → Output T → Applied (ℕ × Output T) T
  unfolding deflate_loop expand
  deflate_chunk bonus old patch at out =
      let src_start = size_field patch at in
      let src_len = size_field patch (at + 8) in
      let patch_offset = size_field patch (at + 16) in
      let expanded_len = size_field patch (at + 24) in
      if ltb (length patch) (at + 60)
      then failed out
      else if ltb (length old) (src_start + src_len)
      then fault
      else (expand (take src_len (drop src_start old)) expanded_len bonus out >>= λ source.
          elim (apply_bs_diff_patch_mem bz rounds rounds source patch patch_offset) [
            | BsPatch.done target ↦
                deflate_loop rounds (temp_size expanded_len)
                  (zlib.deflate_init (deflation patch at) target) out
                >>= λ o. applied (at + 60, o)
            | BsPatch.corrupt ↦ failed out
            | BsPatch.fault ↦ fault
            | BsPatch.hang ↦ hang
          ])

  -- one chunk record: CHUNK_NORMAL, CHUNK_DEFLATE and CHUNK_RAW
  abbrev pub chunk_of : ℤ → List ℕ → List ℕ → List ℕ → ℕ → Output T → Applied (ℕ × Output T) T
  chunk_of (pos zero) bonus old patch at out = normal_chunk old patch at out
  chunk_of (pos (suc (suc zero))) bonus old patch at out = deflate_chunk bonus old patch at out
  chunk_of (pos (suc (suc (suc zero)))) bonus old patch at out = raw_chunk patch at out
  chunk_of _ bonus old patch at out = failed out

  unfoldable pub chunk : List ℕ → List ℕ → List ℕ → ℕ → Output T → Applied (ℕ × Output T) T
  unfolding normal_chunk raw_chunk deflate_chunk
  chunk bonus old patch at out =
      if ltb (length patch) (at + 4)
      then failed out
      else chunk_of (int_field patch at) bonus old patch (at + 4) out

  -- The bonus data goes to the chunk of index 1.
  abbrev pub bonus_of : ℕ → Option (List ℕ) → List ℕ
  bonus_of (suc zero) (some bonus) = bonus
  bonus_of _ _ = []

  unfoldable pub chunks :
      ℕ → ℕ → Option (List ℕ) → List ℕ → List ℕ → ℕ → Output T → Applied (Output T) T
  unfolding chunk
  chunks zero i bonus_data old patch at out = applied out
  chunks (suc n) i bonus_data old patch at out =
      chunk (bonus_of i bonus_data) old patch at out >>= λ (at', out').
      chunks n (i + 1) bonus_data old patch at' out'

  abbrev pub chunk_count : ℤ → ℕ
  chunk_count (pos n) = n
  chunk_count (negsuc _) = 0

  -- `ApplyImagePatch`
  unfoldable pub apply_image_patch :
      Option (List ℕ) → List ℕ → List ℕ → Output T → Applied (Output T) T
  unfolding chunks
  apply_image_patch bonus_data old patch out =
      if ltb (length patch) 12
      then failed out
      else if bytes_eq (take 8 patch) magic
      then chunks (chunk_count (int_field patch 8)) 0 bonus_data old patch 12 out
      else failed out
