-- ===== src/Retouch/Entries.antt =====
-- Single entries of minelf/Retouch.c, and how a call of `retouch_mask_data` may end.
use android_bootable_recover.Common.{
  ℕ, ◌+◌, ◌-◌, ◌%◌, ◌^◌, ◌≤◌, ◌<◌, ◌≡◌, refl, ◌∙◌, ◌≢◌, ◌⊎◌, inl, inr, false, Option, none, some,
  List, ◌++◌, arith, ltb, if◌then◌else◌, Bool-cases, length, length-append, take, drop, length-take,
  length-drop,
}
use android_bootable_recover.Common.Int.{ℤ}
use android_bootable_recover.ApplyPatch.Bytes.{read4, write4, read4-write4}
use android_bootable_recover.ApplyPatch.BsPatch.Stream.{drop-append_exact}
use android_bootable_recover.Retouch.{
  error, matched, Decoder, Verdict, Outcome, Shift, returned, mismatched, infer, entry_place,
  put_word, write_entry, offset_of, target_of, finish, input_size, decode_bytes,
}

-- an offset is a pattern of 32 bits
abbrev pub Proper : Option ℕ → Type 0
Proper none = Unit
Proper (some target) = target < 2 ^ 32

-- With no offset given, the binary is as it was; with one, the result is no mismatch, and the offset
-- is the one given.
abbrev pub EndsWell : Option ℕ → List ℕ → List ℕ → Verdict → ℕ → Type 0
EndsWell none bs bs' verdict offset = bs' ≡ bs
EndsWell (some target) bs bs' verdict offset = (verdict ≢ mismatched) × (offset ≡ target)

-- The call returns, with a binary of the same length.
pub record Ends (desired : Option ℕ) (bs : List ℕ) (o : Outcome) : Type 0 where
  pub binary : List ℕ
  pub verdict : Verdict
  pub offset : ℕ
  pub outcome : o ≡ returned binary verdict offset
  pub width : length binary ≡ length bs
  pub well : EndsWell desired bs binary verdict offset

length-put_word : (i v : ℕ) (bs : List ℕ) → i + 4 ≤ length bs → length (put_word i v bs) ≡ length bs
unfolding put_word write4
length-put_word i v bs h = omega (
  arith,
  length-append (take i bs) (write4 v ++ drop (i + 4) bs),
  length-take i bs,
  length-drop (i + 4) bs,
)

read4-put_word :
    (i v : ℕ) (bs : List ℕ) → i + 4 ≤ length bs → v < 2 ^ 32 → read4 (drop i (put_word i v bs)) ≡ v
unfolding put_word write4 read4
read4-put_word i v bs h small =
    let there : drop i (take i bs ++ (write4 v ++ drop (i + 4) bs)) ≡ write4 v ++ drop (i + 4) bs =
      drop-append_exact i (take i bs) (write4 v ++ drop (i + 4) bs)
        (omega (arith, length-take i bs)) in
    rw there (read4-write4 v small)

-- The bytes that an entry takes are one, two or seven more than the first.
pub input_size_bounds : (b : ℕ) → (2 ≤ input_size b) × (input_size b ≤ 8)
unfolding input_size
input_size_bounds b = ground arith

pub decode_bytes_bounds :
    (bs : List ℕ) (size : ℕ) (st : Decoder) → (decode_bytes bs size st).cont_prev < 2 ^ 32
unfolding decode_bytes
decode_bytes_bounds bs size st = ground arith

pub entry_place_bounds :
    (b_offs p_offs place : ℕ) (o : ℤ)
    → entry_place b_offs p_offs o ≡ some place
    → (place < b_offs) ⊎ (place ≡ p_offs)
entry_place_bounds b_offs p_offs place o e = ground arith

-- what the loop has inferred when an offset is applied
abbrev pub Agrees : Option ℕ → Shift → Type 0
Agrees none s = Unit
Agrees (some target) s = (s.candidate ≡ target) × (s.mismatch ≡ false)

-- The call ends here, with the binary as it is.
pub stop :
    (desired : Option ℕ) (bs : List ℕ) (verdict : Verdict)
    → verdict ≢ mismatched
    → Ends desired bs (returned bs verdict (target_of desired))
stop none bs verdict h = record {
  binary = bs;
  verdict = verdict;
  offset = 0;
  outcome = refl;
  width = refl;
  well = refl;
}
stop (some target) bs verdict h = record {
  binary = bs;
  verdict = verdict;
  offset = target;
  outcome = refl;
  width = refl;
  well = (h, refl);
}

inspected :
    (bs : List ℕ) (verdict : Verdict) (offset : ℕ) → Ends none bs (returned bs verdict offset)
inspected bs verdict offset = record {
  binary = bs;
  verdict = verdict;
  offset = offset;
  outcome = refl;
  width = refl;
  well = refl;
}

pub finish-Ends :
    (desired : Option ℕ) (r_offs b_offs b : ℕ) (bs : List ℕ) (s : Shift)
    → Agrees desired s
    → Ends desired bs (finish desired r_offs b_offs bs b s)
finish-Ends desired r_offs b_offs b bs s a = elim (Bool-cases (ltb r_offs b)) [
  | inl far ↦ rw far (stop desired bs error (λ e. cc))
  | inr near ↦ rw near (agreed desired a)
]
  where
    agreed :
        (desired : Option ℕ)
        → Agrees desired s
        → Ends desired bs (
            if s.mismatch
            then returned bs mismatched (target_of desired)
            else returned bs matched s.candidate)
    agreed none a = elim (Bool-cases s.mismatch) [
      | inl e ↦ rw e (inspected bs mismatched 0)
      | inr e ↦ rw e (inspected bs matched s.candidate)
    ]
    agreed (some target) (c, m) = rw (m, c) (stop (some target) bs matched (λ e. cc))

-- An entry that was written gives the offset that it was written with.
pub Agrees-infer :
    (desired : Option ℕ) (place original : ℕ) (bs : List ℕ) (s : Shift)
    → Proper desired
    → original < 2 ^ 32
    → place + 4 ≤ length bs
    → Agrees desired s
    → Agrees desired (infer (offset_of (write_entry desired place original bs) place original) s)
unfolding write_entry
Agrees-infer none place original bs s proper small h a = tt
Agrees-infer (some target) place original bs s proper small h (c, m) =
    let back : read4 (drop place (put_word place ((original + target) % 2 ^ 32) bs))
        ≡ (original + target) % 2 ^ 32 =
      read4-put_word place ((original + target) % 2 ^ 32) bs h (omega arith) in
    let shift : ((original + target) % 2 ^ 32 + 2 ^ 32 - original) % 2 ^ 32 ≡ target =
      omega arith in
    rw (back, shift) (ground arith)

pub carry :
    (desired : Option ℕ) (place original : ℕ) (bs : List ℕ) (o : Outcome)
    → place + 4 ≤ length bs
    → Ends desired (write_entry desired place original bs) o
    → Ends desired bs o
unfolding write_entry
carry none place original bs o h r = r
carry (some target) place original bs o h r = record {
  binary = r.binary;
  verdict = r.verdict;
  offset = r.offset;
  outcome = r.outcome;
  width = r.width ∙ length-put_word place ((original + target) % 2 ^ 32) bs h;
  well = r.well;
}

pub length-write_entry :
    (desired : Option ℕ) (place original : ℕ) (bs : List ℕ)
    → place + 4 ≤ length bs
    → length (write_entry desired place original bs) ≡ length bs
unfolding write_entry
length-write_entry none place original bs h = refl
length-write_entry (some target) place original bs h =
    length-put_word place ((original + target) % 2 ^ 32) bs h
