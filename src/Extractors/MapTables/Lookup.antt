-- ===== src/Extractors/MapTables/Lookup.antt =====
-- Looking a number up in the vectors that the tables fill.
use cmangos_tbc.Base.{
  ℕ, ◌+◌, ◌^◌, ◌%◌, ◌<◌, ◌≤◌, ◌≡◌, ◌≢◌, ◌∙◌, inl, inr, refl, ap, true, false, Option, none, some,
  List, [], ◌∷◌, length, get_or, replicate, length-replicate, zero, suc, arith, ltb, leb, false,
  Bool-cases, lt_or_ge,
}
use cmangos_tbc.Extractors.Dbc.{DbcFile, DbcRecord, record_at, get_u32, unwrap_or, id_of, max_id}
use cmangos_tbc.Extractors.Dbc.Table.{max_id_exact}
use cmangos_tbc.Extractors.MapTables.{set_at, assign, fill, flag_table}

pub length-set_at : (id flag : ℕ) (xs : List ℕ) → length (set_at id flag xs) ≡ length xs
unfolding set_at
length-set_at id flag [] = refl
length-set_at zero flag (x ∷ xs) = refl
length-set_at (suc id) flag (x ∷ xs) = ap suc (length-set_at id flag xs)

get_or-set_at :
    (id flag d : ℕ) (xs : List ℕ) → id < length xs → get_or (set_at id flag xs) id d ≡ flag
unfolding set_at
get_or-set_at id flag d [] h = absurd (omega arith)
get_or-set_at zero flag d (x ∷ xs) h = refl
get_or-set_at (suc id) flag d (x ∷ xs) h = get_or-set_at id flag d xs (omega arith)

get_or-set_other :
    (id flag d other : ℕ) (xs : List ℕ)
    → other ≢ id
    → get_or (set_at id flag xs) other d ≡ get_or xs other d
unfolding set_at
get_or-set_other id flag d other [] h = refl
get_or-set_other zero flag d zero (x ∷ xs) h = absurd (h refl)
get_or-set_other zero flag d (suc other) (x ∷ xs) h = refl
get_or-set_other (suc id) flag d zero (x ∷ xs) h = refl
get_or-set_other (suc id) flag d (suc other) (x ∷ xs) h =
    get_or-set_other id flag d other xs (λ e. h (ap suc e))

length-assign : (r : Option DbcRecord) (areas : List ℕ) → length (assign r areas) ≡ length areas
unfolding assign
length-assign none areas = refl
length-assign (some r) areas =
    let id = unwrap_or 0 (get_u32 0 r) in
    ground (arith, length-set_at id (unwrap_or 0 (get_u32 3 r) % 2 ^ 16) areas)

pub length-fill :
    (rounds idx : ℕ) (dbc : DbcFile) (areas : List ℕ)
    → length (fill rounds idx dbc areas) ≡ length areas
unfolding fill
length-fill zero idx dbc areas = refl
length-fill (suc rounds) idx dbc areas =
    length-fill rounds (suc idx) dbc (assign (record_at idx dbc) areas)
    ∙ length-assign (record_at idx dbc) areas

-- The flag of a record, 0 where there is none.
pub flag_of : Option DbcRecord → ℕ
flag_of none = 0
flag_of (some r) = unwrap_or 0 (get_u32 3 r) % 2 ^ 16

-- A record assigns its own number's place, and no other.
assign_hit :
    (r : DbcRecord) (areas : List ℕ) (d : ℕ)
    → id_of (some r) < length areas
    → get_or (assign (some r) areas) (id_of (some r)) d ≡ flag_of (some r)
unfolding assign id_of flag_of
assign_hit r areas d h =
    let id = unwrap_or 0 (get_u32 0 r) in
    let inside : ltb id (length areas) ≡ true = ground arith in
    rw inside (get_or-set_at id (unwrap_or 0 (get_u32 3 r) % 2 ^ 16) d areas h)

assign_miss :
    (r : Option DbcRecord) (areas : List ℕ) (n d : ℕ)
    → n ≢ id_of r
    → get_or (assign r areas) n d ≡ get_or areas n d
unfolding assign id_of
assign_miss none areas n d h = refl
assign_miss (some r) areas n d h =
    let id = unwrap_or 0 (get_u32 0 r) in
    let flag = unwrap_or 0 (get_u32 3 r) % 2 ^ 16 in
    elim (Bool-cases (ltb id (length areas))) [
      | inl inside ↦ rw inside (get_or-set_other id flag d n areas h)
      | inr outside ↦ rw outside refl
    ]

record_hit :
    (index : ℕ) (dbc : DbcFile) (areas : List ℕ) (d : ℕ)
    → index < dbc.record_count
    → id_of (record_at index dbc) < length areas
    → get_or (assign (record_at index dbc) areas) (id_of (record_at index dbc)) d
      ≡ flag_of (record_at index dbc)
unfolding record_at
record_hit index dbc areas d h small =
    let there : leb dbc.record_count index ≡ false = ground arith in
    let r : DbcRecord = record { file = dbc; index = index } in
    let found : record_at index dbc ≡ some r = rw there refl in
    rw found (assign_hit r areas d (rw found at small))

get_or-replicate : (n i flag : ℕ) → i < n → get_or (replicate n flag) i 0 ≡ flag
get_or-replicate zero i flag h = absurd (omega arith)
get_or-replicate (suc n) zero flag h = refl
get_or-replicate (suc n) (suc i) flag h = get_or-replicate n i flag (omega arith)

-- Records from `idx` on that do not have the number leave its place alone.
fill_miss :
    (rounds idx : ℕ) (dbc : DbcFile) (areas : List ℕ) (n d : ℕ)
    → ((i : ℕ) → idx ≤ i → i < idx + rounds → n ≢ id_of (record_at i dbc))
    → get_or (fill rounds idx dbc areas) n d ≡ get_or areas n d
unfolding fill
fill_miss zero idx dbc areas n d h = refl
fill_miss (suc rounds) idx dbc areas n d h =
    fill_miss rounds (suc idx) dbc (assign (record_at idx dbc) areas) n d
      (λ i lo hi. h i (omega arith) (omega arith))
    ∙ assign_miss (record_at idx dbc) areas n d (h idx (omega arith) (omega arith))

-- The last record with a number gives its place the flag.
fill_last :
    (rounds idx : ℕ) (dbc : DbcFile) (areas : List ℕ) (index d : ℕ)
    → idx + rounds ≤ dbc.record_count
    → idx ≤ index
    → index < idx + rounds
    → id_of (record_at index dbc) < length areas
    → ((i : ℕ)
        → index < i
        → i < idx + rounds
        → id_of (record_at index dbc) ≢ id_of (record_at i dbc))
    → get_or (fill rounds idx dbc areas) (id_of (record_at index dbc)) d
      ≡ flag_of (record_at index dbc)
unfolding fill
fill_last zero idx dbc areas index d hc lo hi small last = absurd (omega arith)
fill_last (suc rounds) idx dbc areas index d hc lo hi small last = elim (lt_or_ge idx index) [
  | inl before ↦
      fill_last rounds (suc idx) dbc (assign (record_at idx dbc) areas) index d (omega arith)
        (omega arith) (omega arith) (omega (arith, length-assign (record_at idx dbc) areas))
        (λ i h k. last i h (omega arith))
  | inr here ↦
      let same : idx ≡ index = omega arith in
      fill_miss rounds (suc idx) dbc (assign (record_at idx dbc) areas)
        (id_of (record_at index dbc)) d (λ i h k. last i (omega arith) (omega arith))
      ∙ rw same (record_hit index dbc areas d (omega arith) small)
]

empty_table : DbcFile → List ℕ
empty_table dbc = replicate (max_id dbc + 1) 0xFFFF

-- The vector reaches up to the largest number.
length-flag_table : (dbc : DbcFile) → length (flag_table dbc) ≡ max_id dbc + 1
unfolding flag_table empty_table
length-flag_table dbc =
    length-fill dbc.record_count 0 dbc (empty_table dbc)
    ∙ length-replicate {0} (max_id dbc + 1) 0xFFFF

-- The vector reaches up to the largest number, so that no record is dropped. The place of a number
-- holds the low 16 bits of the fourth column of the last record that has the number.
pub flag_table_last :
    (dbc : DbcFile) (index : ℕ)
    → index < dbc.record_count
    → ((i : ℕ)
        → index < i
        → i < dbc.record_count
        → id_of (record_at index dbc) ≢ id_of (record_at i dbc))
    → (id_of (record_at index dbc) < length (flag_table dbc))
      × (get_or (flag_table dbc) (id_of (record_at index dbc)) 0 ≡ flag_of (record_at index dbc))
unfolding flag_table empty_table
flag_table_last dbc index h last =
    let size : length (empty_table dbc) ≡ max_id dbc + 1 =
      length-replicate {0} (max_id dbc + 1) 0xFFFF in
    let small = (max_id_exact dbc).0 index h in
    (
      omega (arith, small, length-flag_table dbc),
      fill_last dbc.record_count 0 dbc (empty_table dbc) index 0 (omega arith) (omega arith)
          (omega arith) (omega (arith, small, size)) (λ i lo hi. last i lo (omega arith)),
    )

-- The place of a number up to the largest that no record has holds 0xffff.
pub flag_table_absent :
    (dbc : DbcFile) (n : ℕ)
    → n ≤ max_id dbc
    → ((i : ℕ) → i < dbc.record_count → n ≢ id_of (record_at i dbc))
    → get_or (flag_table dbc) n 0 ≡ 0xFFFF
unfolding flag_table
flag_table_absent dbc n h absent =
    fill_miss dbc.record_count 0 dbc (replicate (max_id dbc + 1) 0xFFFF) n 0
      (λ i lo hi. absent i (omega arith))
    ∙ get_or-replicate (max_id dbc + 1) n 0xFFFF (omega arith)
