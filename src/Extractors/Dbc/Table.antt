-- ===== src/Extractors/Dbc/Table.antt =====
-- What a table that was read guarantees to the code that looks records up in it.
use cmangos_tbc.Base.{
  ℕ, ◌+◌, ◌*◌, ◌^◌, ◌<◌, ◌≤◌, ◌≡◌, Option-cases, lt_or_ge, if-cases, ◌∙◌, ◌⊎◌, inl, inr, refl, sym,
  true, some, List, length, take, drop, zero, suc, arith, ltb, if◌then◌else◌,
}
use native.Mathlib.Nat.{mul-le-mul_right, zero-add, add-zero}
use cmangos_tbc.Base.Bytes.{from_le}
use cmangos_tbc.Extractors.Reader.{
  Ensures, bind-Ensures, after-Ensures, pure-Ensures, read_exact-cases,
}
use cmangos_tbc.Extractors.Dbc.{
  DbcFile, DbcRecord, read_file, from_bytes, record_at, word_at, get_u32, id_of, max_loop, max_id,
  validate,
}

-- The data of a file that was read are as many bytes as its header says.
IsWhole : DbcFile → Type 0
IsWhole file = length file.record_data ≡ file.record_count * file.record_size

read_file-IsWhole : Ensures IsWhole read_file
unfolding read_file IsWhole
read_file-IsWhole = after-Ensures IsWhole _ _ λ _. after-Ensures IsWhole _ _ λ count.
    after-Ensures IsWhole _ _ λ _. after-Ensures IsWhole _ _ λ size. after-Ensures IsWhole _ _ λ _.
      bind-Ensures (λ n. n ≡ count * size) IsWhole _ _ (λ bs rest a h. ground arith)
        λ n e.
          bind-Ensures (λ bs. length bs ≡ n) IsWhole _ _
            (λ bs rest a h. (read_exact-cases n bs a rest h).0)
            λ bs e'. after-Ensures IsWhole _ _ λ _. pure-Ensures IsWhole _ (e' ∙ e)

-- `validate` without wrap-around.
pub word_at_inside :
    (start : ℕ) (bytes : List ℕ)
    → start + 4 ≤ length bytes
    → word_at start bytes ≡ some (from_le (take 4 (drop start bytes)))
unfolding word_at
word_at_inside start bytes h = ground arith

-- A field of a record lies in the data.
field_inside :
    (index count field size : ℕ)
    → index < count
    → field * 4 + 4 ≤ size
    → index * size + field * 4 + 4 ≤ count * size
field_inside index count field size hi hf = omega (arith, mul-le-mul_right size hi)

from_bytes-IsWhole : (bytes : List ℕ) (file : DbcFile) → from_bytes bytes ≡ some file → IsWhole file
unfolding from_bytes
from_bytes-IsWhole bytes file h = elim (Option-cases (read_file bytes)) [
  | inl e ↦ absurd (let h' = rw (from_bytes, e) at h in cc)
  | inr ((f, rest), e) ↦
      let h' = rw (from_bytes, e) at h in
      let same : file ≡ f = cc in rw same (read_file-IsWhole bytes rest f e)
]

-- In a file that was read and validated, with fewer than 2^30 columns, each column of each record
-- can be read. (With more columns the product of four and their number wraps.)
pub get_u32_total :
    (bytes : List ℕ) (file : DbcFile) (index field : ℕ)
    → from_bytes bytes ≡ some file
    → validate file ≡ true
    → file.field_count < 2 ^ 30
    → index < file.record_count
    → field < file.field_count
    → (r : DbcRecord) × (record_at index file ≡ some r) × ((v : ℕ) × (get_u32 field r ≡ some v))
unfolding validate record_at get_u32 IsWhole
get_u32_total bytes file index field h hv hc hi hf =
    let whole : IsWhole file = from_bytes-IsWhole bytes file h in
    let size : file.field_count * 4 ≡ file.record_size = ground arith in
    let inside = field_inside index file.record_count field file.record_size hi (omega arith) in
    let start = index * file.record_size + field * 4 in
    (
      record { file = file; index = index },
      ground arith,
      (
        from_le (take 4 (drop start file.record_data)),
        let small : ltb (field * 4) (2 ^ 64) ≡ true = ground arith in
            rw small (word_at_inside start file.record_data (omega arith)),
      ),
    )

-- The largest number in the first column: no record's is larger, and it is 0 or some record's.
IsMax : ℕ → ℕ → DbcFile → Type 0
IsMax m count file =
    ((index : ℕ) → index < count → id_of (record_at index file) ≤ m)
    × ((m ≡ 0) ⊎ ((index : ℕ) × (index < count) × (id_of (record_at index file) ≡ m)))

-- One more record, whose number is `id`.
IsMax-more :
    (m idx id best : ℕ) (file : DbcFile)
    → id_of (record_at idx file) ≡ id
    → m ≤ best
    → id ≤ best
    → (best ≡ id) ⊎ (best ≡ m)
    → IsMax m idx file
    → IsMax best (suc idx) file
unfolding IsMax
IsMax-more m idx id best file e hm hid here (above, hit) = (
  λ index h. elim (lt_or_ge index idx) [
    | inl before ↦ omega (arith, above index before)
    | inr later ↦ let last : index ≡ idx = omega arith in rw (last, e) hid
  ],
  elim here [
    | inl new ↦ inr (idx, omega arith, e ∙ sym new)
    | inr old ↦ elim hit [
      | inl none_yet ↦ inl (old ∙ none_yet)
      | inr (index, small, found) ↦ inr (index, omega arith, found ∙ sym old)
    ]
  ],
)

max_loop-IsMax :
    (rounds idx m : ℕ) (file : DbcFile)
    → IsMax m idx file
    → IsMax (max_loop rounds idx m file) (idx + rounds) file
unfolding max_loop
max_loop-IsMax zero idx m file h = rw add-zero h
max_loop-IsMax (suc rounds) idx m file h =
    let id = id_of (record_at idx file) in
    let best = if ltb m id then id else m in
    let total : idx + suc rounds ≡ suc idx + rounds = omega arith in
    rw total (
      max_loop-IsMax rounds (suc idx) best file (
        IsMax-more m idx id best file refl (ground arith) (ground arith) (if-cases (ltb m id) id m)
          h))

-- `max_id` is the largest number in the first column: no record's is larger, and it is 0 or the
-- number of some record.
pub max_id_exact :
    (file : DbcFile)
    → ((index : ℕ) → index < file.record_count → id_of (record_at index file) ≤ max_id file)
      × ((max_id file ≡ 0)
          ⊎ ((index : ℕ) × (index < file.record_count)
              × (id_of (record_at index file) ≡ max_id file)))
unfolding max_id IsMax
max_id_exact file =
    rw zero-add at
      (max_loop-IsMax file.record_count 0 0 file ((λ index h. absurd (omega arith)), inl refl))
