-- ===== src/Extractors/Dbc.antt =====
-- crates/extractors/src/dbc.rs: the client's database tables.
-- A record refers to its file; a slice of the data is taken only behind the test on its end.
pub mod Table
use cmangos_tbc.Base.{
  ℕ, ◌+◌, ◌*◌, ◌^◌, ◌%◌, Bool, Option, none, some, List, [], ◌∷◌, if◌then◌else◌, ltb, leb, ◌==◌,
  length, take, drop, zero, suc, ◌||◌,
}
use cmangos_tbc.Base.Bytes.{from_le}
use cmangos_tbc.Base.Text.{Text, text, from_utf8_lossy}
use cmangos_tbc.Extractors.Reader.{Reader, pure, ◌>>=◌, ◌>>◌, read_exact, read_u32, read_tag}

pub record DbcFile : Type 0 where
  pub record_count : ℕ
  pub field_count : ℕ
  pub record_size : ℕ
  pub record_data : List ℕ
  pub string_table : List ℕ

pub record DbcRecord : Type 0 where
  pub file : DbcFile
  pub index : ℕ

-- `u32::checked_mul`.
abbrev pub checked_mul_u32 : ℕ → ℕ → Reader ℕ
checked_mul_u32 a b bs = if ltb (a * b) (2 ^ 32) then some (a * b, bs) else none

unfoldable pub read_file : Reader DbcFile
unfolding read_tag
read_file = do
  read_tag (text "WDBC")
  record_count ← read_u32
  field_count ← read_u32
  record_size ← read_u32
  string_size ← read_u32
  data_size ← checked_mul_u32 record_count record_size
  record_data ← read_exact data_size
  string_table ← read_exact string_size
  pure (record {
    record_count = record_count;
    field_count = field_count;
    record_size = record_size;
    record_data = record_data;
    string_table = string_table;
  })

-- What is left behind the string table is ignored.
unfoldable pub from_bytes : List ℕ → Option DbcFile
unfolding read_file
from_bytes bytes = elim (read_file bytes) [ none ↦ none | some (file, rest) ↦ some file ]

-- The method `record`, whose name is a keyword here.
unfoldable pub record_at : ℕ → DbcFile → Option DbcRecord
record_at index file =
    if leb file.record_count index then none else some (record { file = file; index = index })

-- The four bytes at `start`, if they lie in the data.
unfoldable pub word_at : ℕ → List ℕ → Option ℕ
word_at start bytes =
    if ltb (length bytes) (start + 4) then none else some (from_le (take 4 (drop start bytes)))

-- The offset of a field is a `checked_mul` of machine words.
unfoldable pub get_u32 : ℕ → DbcRecord → Option ℕ
unfolding word_at
get_u32 field r =
    if ltb (field * 4) (2 ^ 64)
    then word_at (r.index * r.file.record_size + field * 4) r.file.record_data
    else none

-- The bytes before the first null byte, or all of them.
unfoldable pub c_string : List ℕ → List ℕ
c_string [] = []
c_string (b ∷ bs) = let rest = b ∷ c_string bs in if b == 0 then [] else rest

unfoldable pub string_at : Option ℕ → List ℕ → Option Text
unfolding c_string
string_at none table = none
string_at (some offset) table =
    if leb (length table) offset
    then some []
    else some (from_utf8_lossy (c_string (drop offset table)))

unfoldable pub get_string : ℕ → DbcRecord → Option Text
unfolding string_at
get_string field r = string_at (get_u32 field r) r.file.string_table

abbrev pub unwrap_or : {A : Type 0} → A → Option A → A
unwrap_or d none = d
unwrap_or d (some a) = a

-- The number in the first column of a record, 0 where there is none.
unfoldable pub id_of : Option DbcRecord → ℕ
unfolding get_u32
id_of none = 0
id_of (some r) = unwrap_or 0 (get_u32 0 r)

-- `for idx in 0..record_count`, with the rounds left for fuel. A missing record changes nothing.
unfoldable pub max_loop : (rounds idx max_id : ℕ) → DbcFile → ℕ
unfolding record_at id_of
max_loop zero idx max_id file = max_id
max_loop (suc rounds) idx max_id file =
    let id = id_of (record_at idx file) in
    max_loop rounds (suc idx) (if ltb max_id id then id else max_id) file

unfoldable pub max_id : DbcFile → ℕ
unfolding max_loop
max_id file = max_loop file.record_count 0 0 file

-- The product of two u32 wraps, as a release build computes it.
unfoldable pub validate : DbcFile → Bool
validate file = ((file.field_count * 4) % 2 ^ 32) == file.record_size
