-- ===== src/Retouch/Safety.antt =====
-- What `retouch_mask_data` of minelf/Retouch.c does on every binary.
use android_bootable_recover.Common.{
  ℕ, zero, suc, ◌+◌, ◌-◌, ◌%◌, ◌^◌, ◌≤◌, ◌<◌, ◌≡◌, refl, ◌∙◌, ◌≢◌, inl, inr, false, not, Option,
  none, some, List, arith, ltb, leb, Bool-cases, Option-cases, length, drop,
}
use android_bootable_recover.ApplyPatch.Bytes.{byte_at, read4, as_int}
use android_bootable_recover.Retouch.{
  unretouched, retouch_mask_data, tagged, error, Decoder, Shift, mismatched, infer, entry_place,
  write_entry, offset_of, target_of, mask_loop, input_size, decode_bytes,
}
use android_bootable_recover.Retouch.Entries.{
  decode_bytes_bounds, Agrees-infer, length-write_entry, carry, entry_place_bounds, finish-Ends,
  input_size_bounds, stop, Agrees, Ends, Proper,
}

module _ (desired : Option ℕ) (proper : Proper desired) (r_offs b_offs : ℕ) where
  mask_loop-Ends :
      (fuel : ℕ) (bs : List ℕ) (b : ℕ) (st : Decoder) (s : Shift)
      → length bs ≡ r_offs + 20
      → b_offs ≤ b
      → 0 < fuel
      → r_offs < b + fuel
      → Agrees desired s
      → Ends desired bs (mask_loop desired r_offs b_offs fuel bs b st s)
  unfolding mask_loop
  mask_loop-Ends zero bs b st s width hb h0 hf a = absurd (omega arith)
  mask_loop-Ends (suc fuel) bs b st s width hb h0 hf a =
      let size = input_size (byte_at bs b) in
      let st' = decode_bytes (drop b bs) size st in
      let sizes = input_size_bounds (byte_at bs b) in
      elim (Bool-cases (ltb b r_offs)) [
        | inr over ↦ rw over (finish-Ends desired r_offs b_offs b bs s a)
        | inl inside ↦
            let readable : ltb (length bs) (b + size) ≡ false = ground arith in
            elim (Option-cases (entry_place b_offs (r_offs + 12) (as_int st'.offs_prev))) [
              | inl bad ↦ rw (inside, readable, bad) (stop desired bs error (λ e. cc))
              | inr (place, e) ↦
                  let room : place + 4 ≤ length bs = ground (
                    arith,
                    entry_place_bounds b_offs (r_offs + 12) place (as_int st'.offs_prev) e,
                  ) in
                  let writable : ltb (length bs) (place + 4) ≡ false = ground arith in
                  let bs' = write_entry desired place st'.cont_prev bs in
                  rw (inside, readable, e, writable)
                    (carry desired place st'.cont_prev bs _ room (
                      mask_loop-Ends fuel bs' (b + size) st'
                        (infer (offset_of bs' place st'.cont_prev) s)
                        (length-write_entry desired place st'.cont_prev bs room ∙ width)
                        (omega arith) (ground arith) (ground arith)
                        (Agrees-infer desired place st'.cont_prev bs s proper
                          (decode_bytes_bounds (drop b bs) size st) room a)))
            ]
      ]

-- On every binary below 2 GB `retouch_mask_data` returns: it neither runs for ever nor reads or writes
-- outside of the binary, and it keeps its length. Without a desired offset it leaves the binary as it
-- is. With one, it never finds a mismatch, and the offset that it gives is the desired one.
pub retouch_mask_data-Ends :
    (bs : List ℕ) (desired : Option ℕ)
    → length bs < 2 ^ 31
    → Proper desired
    → Ends desired bs (retouch_mask_data bs desired)
unfolding retouch_mask_data
retouch_mask_data-Ends bs desired small proper =
    let r_offs = length bs - 20 in
    let b_offs = (r_offs + 2 ^ 32 - read4 (drop (r_offs + 8) bs)) % 2 ^ 32 in
    elim (Bool-cases (ltb (length bs) 20)) [
      | inl short ↦ rw short (stop desired bs (unretouched desired) (plain desired))
      | inr long ↦ elim (Bool-cases (not (tagged bs))) [
        | inl other ↦ rw (long, other) (stop desired bs (unretouched desired) (plain desired))
        | inr tags ↦ elim (Bool-cases (leb (2 ^ 31) b_offs)) [
          | inl negative ↦ rw (long, tags, negative) (stop desired bs error (λ e. cc))
          | inr positive ↦
              rw (long, tags, positive)
                (mask_loop-Ends desired proper r_offs b_offs (length bs) bs b_offs _ _
                  (ground arith) (omega arith) (ground arith) (ground arith) (start desired))
        ]
      ]
    ]
  where
    plain : (desired : Option ℕ) → unretouched desired ≢ mismatched
    plain none e = cc
    plain (some _) e = cc

    start :
        (desired : Option ℕ)
        → Agrees desired
            (record { candidate = target_of desired; is_set = false; mismatch = false })
    start none = tt
    start (some target) = (refl, refl)
