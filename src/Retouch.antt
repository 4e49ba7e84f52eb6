-- ===== src/Retouch.antt =====
-- Undoing and applying the randomized relocation of binaries: minelf/Retouch.c.
--
-- A binary is the list of its bytes. An `int32_t` and a `uint32_t` are 32-bit patterns; sums wrap.
-- Words in the binary are little-endian. What `|` joins are disjoint fields, so it is `+`.
pub mod Entries
pub mod Safety
mod Tests
use android_bootable_recover.Common.{
  ℕ, zero, suc, ◌+◌, ◌-◌, ◌*◌, ◌/◌, ◌%◌, ◌^◌, Bool, true, false, not, ◌&&◌, Option, none, some,
  List, ◌++◌, ltb, leb, ◌==◌, if◌then◌else◌, length, take, drop,
}
use android_bootable_recover.Common.Int.{ℤ, pos, negsuc}
use android_bootable_recover.ApplyPatch.Bytes.{byte_at, read4, write4, as_int}
use android_bootable_recover.Edify.Text.{CString, codes, strcmp, is_same}

-- `offs_prev` and `cont_prev`, which are also what `decode_bytes` gives
pub record Decoder : Type 0 where
  pub offs_prev : ℕ
  pub cont_prev : ℕ

abbrev pub init_compression_state : Decoder
init_compression_state = record { offs_prev = 0; cont_prev = 0 }

abbrev pub big_endian : List ℕ → ℕ → ℕ
big_endian bs i =
    (byte_at bs i * 2 ^ 24
      + byte_at bs (i + 1) * 2 ^ 16
      + byte_at bs (i + 2) * 2 ^ 8
      + byte_at bs (i + 3))
    % 2 ^ 32

abbrev pub decode_short : List ℕ → Decoder → Decoder
decode_short bs st =
    let tmp = byte_at bs 0 % 32 * 2 ^ 8 + byte_at bs 1 in
    let padded = if tmp / 2 ^ 12 % 2 == 1 then 0xffffe000 + tmp else tmp in
    record {
      offs_prev = (st.offs_prev + (byte_at bs 0 / 2 ^ 5 % 4 + 1) * 4) % 2 ^ 32;
      cont_prev = (st.cont_prev + padded) % 2 ^ 32;
    }

abbrev pub decode_medium : List ℕ → Decoder → Decoder
decode_medium bs st =
    let tmp = byte_at bs 0 % 16 * 2 ^ 16 + byte_at bs 1 * 2 ^ 8 + byte_at bs 2 in
    let padded = if tmp / 2 ^ 19 % 2 == 1 then 0xfff00000 + tmp else tmp in
    record {
      offs_prev = (st.offs_prev + (byte_at bs 0 / 2 ^ 4 % 4 + 1) * 4) % 2 ^ 32;
      cont_prev = (st.cont_prev + padded) % 2 ^ 32;
    }

abbrev pub decode_long : List ℕ → Decoder
decode_long bs =
    let offset = big_endian bs 0 in
    record {
      offs_prev = if offset == 0x3fffffff then 0xffffffff else offset;
      cont_prev = big_endian bs 4;
    }

-- the size of an entry, from its first byte
unfoldable pub input_size : ℕ → ℕ
input_size b = if b / 128 % 2 == 1 then 2 else if b / 64 % 2 == 1 then 3 else 8

unfoldable pub decode_bytes : List ℕ → ℕ → Decoder → Decoder
decode_bytes bs size st =
    if size == 2
    then decode_short bs st
    else if size == 3
    then decode_medium bs st
    else decode_long bs

pub data Verdict : Type 0 where
  matched mismatched error not_applicable : Verdict

-- The binary, the value returned, and `*retouch_offset`. `fault` is an access outside of the binary,
-- `hang`: the rounds ran out.
pub data Outcome : Type 0 where
  returned : List ℕ → Verdict → ℕ → Outcome
  fault hang : Outcome

-- what the loop infers: `offset_candidate`, `offset_set`, `offset_mismatch`
pub record Shift : Type 0 where
  pub candidate : ℕ
  pub is_set : Bool
  pub mismatch : Bool

abbrev pub infer : ℕ → Shift → Shift
infer offset s =
    if not s.is_set
    then record s { candidate = offset; is_set = true }
    else if s.candidate == offset
    then s
    else record s { mismatch = true }

-- The place of an entry: -1 stands for `mmap_addr`.
abbrev pub entry_place : ℕ → ℕ → ℤ → Option ℕ
entry_place b_offs p_offs (pos o) = if ltb o b_offs then some o else none
entry_place b_offs p_offs (negsuc zero) = some p_offs
entry_place b_offs p_offs (negsuc (suc _)) = none

unfoldable pub put_word : ℕ → ℕ → List ℕ → List ℕ
put_word i v bs = take i bs ++ (write4 v ++ drop (i + 4) bs)

-- `if (desired_offset) *retouch_entry = retouch_original_value + target_offset`
unfoldable pub write_entry : Option ℕ → ℕ → ℕ → List ℕ → List ℕ
unfolding put_word
write_entry none place original bs = bs
write_entry (some target) place original bs = put_word place ((original + target) % 2 ^ 32) bs

abbrev pub offset_of : List ℕ → ℕ → ℕ → ℕ
offset_of bs place original = (read4 (drop place bs) + 2 ^ 32 - original) % 2 ^ 32

abbrev pub target_of : Option ℕ → ℕ
target_of none = 0
target_of (some target) = target

abbrev pub unretouched : Option ℕ → Verdict
unretouched none = not_applicable
unretouched (some _) = matched

module _ (desired : Option ℕ) (r_offs b_offs : ℕ) where
  abbrev pub finish : List ℕ → ℕ → Shift → Outcome
  finish bs b s =
      if ltb r_offs b
      then returned bs error (target_of desired)
      else if s.mismatch
      then returned bs mismatched (target_of desired)
      else returned bs matched s.candidate

  -- The loop over the blob; `b` is `b_ptr`. `fuel` bounds its rounds.
  unfoldable pub mask_loop : ℕ → List ℕ → ℕ → Decoder → Shift → Outcome
  unfolding decode_bytes input_size write_entry
  mask_loop zero bs b st s = hang
  mask_loop (suc fuel) bs b st s =
      let size = input_size (byte_at bs b) in
      let st' = decode_bytes (drop b bs) size st in
      if not (ltb b r_offs)
      then finish bs b s
      else if ltb (length bs) (b + size)
      then fault
      else elim (entry_place b_offs (r_offs + 12) (as_int st'.offs_prev)) [
        | none ↦ returned bs error (target_of desired)
        | some place ↦
            if ltb (length bs) (place + 4)
            then fault
            else (let bs' = write_entry desired place st'.cont_prev bs in
                mask_loop fuel bs' (b + size) st' (infer (offset_of bs' place st'.cont_prev) s))
      ]

-- both trailers carry their tags
abbrev pub tagged : List ℕ → Bool
tagged bs =
    is_same (strcmp (take 4 (drop (length bs - 20 + 16) bs)) (codes "PRE "))
    && is_same (strcmp (take 8 (drop (length bs - 20) bs)) (codes "RETOUCH "))

-- `retouch_mask_data`: the two trailers take 20 bytes.
unfoldable pub retouch_mask_data : List ℕ → Option ℕ → Outcome
unfolding mask_loop
retouch_mask_data bs desired =
    let r_offs = length bs - 20 in
    let blob_size = read4 (drop (r_offs + 8) bs) in
    let b_offs = (r_offs + 2 ^ 32 - blob_size) % 2 ^ 32 in
    let s : Shift = record { candidate = target_of desired; is_set = false; mismatch = false } in
    if ltb (length bs) 20
    then returned bs (unretouched desired) (target_of desired)
    else if not (tagged bs)
    then returned bs (unretouched desired) (target_of desired)
    else if leb (2 ^ 31) b_offs
    then returned bs error (target_of desired)
    else mask_loop desired r_offs b_offs (length bs) bs b_offs init_compression_state s
