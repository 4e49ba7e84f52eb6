-- ===== src/Zip.antt =====
-- The archive reader: minzip/Zip.c, minzip/Zip.h and the little-endian readers of minzip/Bits.h.
--
-- The mapped file is the list of its bytes, and a pointer into it is an offset. A name stands for the
-- pointer and the length that the source keeps, since the map is read-only. Memory is granted.
pub mod Names
pub mod Insert
pub mod Parse
pub mod Archive
pub mod Extract
mod Tests
use android_bootable_recover.Common.{
  ℕ, zero, suc, ◌+◌, ◌-◌, ◌*◌, ◌/◌, ◌%◌, ◌^◌, Bool, true, false, ◌&&◌, List, [], ◌∷◌, ◌++◌, ltb,
  leb, ◌==◌, if◌then◌else◌, length, get_or, take, drop,
}
use android_bootable_recover.Edify.Text.{Order, before, same, after}

pub record ZipEntry : Type 0 where
  pub file_name : List ℕ
  pub offset : ℕ
  pub comp_len : ℕ
  pub uncomp_len : ℕ
  pub compression : ℕ
  pub mod_time : ℕ
  pub crc32 : ℕ
  pub version_made_by : ℕ
  pub external_file_attributes : ℕ

-- `bail` is the jump to that label, `fault` a read outside of the file, a failed assert, or a step of
-- the hash table that is none.
pub data Parsed (A : Type 0) : Type 0 where
  ok : A → Parsed A
  bail fault : Parsed A

infixl 5 ◌>>=◌ ◌>>◌
unfoldable pub ◌>>=◌ : {A B : Type 0} → Parsed A → (A → Parsed B) → Parsed B
ok a >>= f = f a
bail >>= f = bail
fault >>= f = fault

unfoldable pub ◌>>◌ : {A B : Type 0} → Parsed A → Parsed B → Parsed B
unfolding ◌>>=◌
m >> n = m >>= λ _. n

-- `if (!b) goto bail`
unfoldable pub require : Bool → Parsed (Unit {0})
require true = ok tt
require false = bail

abbrev pub censig : ℕ
censig = 0x02014b50

abbrev pub endsig : ℕ
endsig = 0x06054b50

abbrev pub locsig : ℕ
locsig = 0x04034b50

abbrev pub byte : List ℕ → ℕ → ℕ
byte m i = get_or m i 0

-- `get2LE` and `get4LE`
unfoldable pub get2_le : List ℕ → ℕ → Parsed ℕ
get2_le m i =
    if leb (i + 2) (length m) then ok ((byte m i + byte m (i + 1) * 2 ^ 8) % 2 ^ 16) else fault

abbrev pub word_le : List ℕ → ℕ → ℕ
word_le m i =
    (byte m i + byte m (i + 1) * 2 ^ 8 + byte m (i + 2) * 2 ^ 16 + byte m (i + 3) * 2 ^ 24) % 2 ^ 32

unfoldable pub get4_le : List ℕ → ℕ → Parsed ℕ
get4_le m i = if leb (i + 4) (length m) then ok (word_le m i) else fault

abbrev pub is_printable : ℕ → Bool
is_printable c = leb 32 c && ltb c 127

unfoldable pub all_printable : List ℕ → Bool
all_printable [] = true
all_printable (c ∷ cs) = is_printable c && all_printable cs

-- `validFilename`; PATH_MAX is 4096
unfoldable pub valid_filename : List ℕ → Bool
unfolding all_printable
valid_filename name = ltb (length name) 4096 && all_printable name

-- `computeHash`, on unsigned characters
unfoldable pub hash_from : ℕ → List ℕ → ℕ
hash_from hash [] = hash
hash_from hash (c ∷ cs) = hash_from ((hash * 31 + c) % 2 ^ 32) cs

unfoldable pub compute_hash : List ℕ → ℕ
unfolding hash_from
compute_hash name = hash_from 2 name

-- `strncmp` of two texts of at least `n` characters, up to a NUL
unfoldable pub strncmp : ℕ → List ℕ → List ℕ → Order
strncmp zero xs ys = same
strncmp (suc n) [] ys = same
strncmp (suc n) (x ∷ xs) [] = same
strncmp (suc n) (x ∷ xs) (y ∷ ys) =
    let rest = strncmp n xs ys in
    if ltb x y then before else if ltb y x then after else if x == 0 then same else rest

abbrev pub length_order : ℕ → ℕ → Order
length_order a b = if ltb a b then before else if ltb b a then after else same

-- `diff` of the binary search
unfoldable pub name_order : List ℕ → List ℕ → Order
unfolding strncmp
name_order a b =
    let shorter = if ltb (length a) (length b) then length a else length b in
    elim (strncmp shorter a b) [
      | before ↦ before
      | after ↦ after
      | same ↦ length_order (length a) (length b)
    ]

abbrev pub no_entry : ZipEntry
no_entry = record {
  file_name = [];
  offset = 0;
  comp_len = 0;
  uncomp_len = 0;
  compression = 0;
  mod_time = 0;
  crc32 = 0;
  version_made_by = 0;
  external_file_attributes = 0;
}

abbrev pub name_at : List ZipEntry → ℕ → List ℕ
name_at es i = (get_or es i no_entry).file_name

-- The binary search; `high` is one more than in the source. `fuel` bounds its rounds.
unfoldable pub find_target : ℕ → List ZipEntry → List ℕ → ℕ → ℕ → Parsed ℕ
unfolding name_order
find_target zero es name low high = fault
find_target (suc fuel) es name low high =
    let mid = low + (high - 1 - low) / 2 in
    let right = find_target fuel es name (mid + 1) high in
    let left = find_target fuel es name low mid in
    if ltb low high
    then elim (name_order (name_at es mid) name) [
      | before ↦ right
      | after ↦ left
      | same ↦ ok (mid + 1)
    ]
    else ok high

abbrev pub insert_at : ℕ → ZipEntry → List ZipEntry → List ZipEntry
insert_at target e es = take target es ++ e ∷ drop target es

-- The entry goes to its place among the entries so far.
unfoldable pub insert_entry : ZipEntry → List ZipEntry → Parsed (List ZipEntry)
unfolding find_target ◌>>=◌
insert_entry e es = do
  target ← find_target (suc (length es)) es e.file_name 0 (length es)
  if leb target (length es) then ok (insert_at target e es) else fault
