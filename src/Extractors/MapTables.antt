-- ===== src/Extractors/MapTables.antt =====
-- The tables that crates/extractors/src/map_dbc.rs reads: Map.dbc, AreaTable.dbc, LiquidType.dbc.
pub mod Lookup
use cmangos_tbc.Base.{
  ℕ, ◌+◌, ◌^◌, ◌%◌, Option, none, some, List, [], ◌∷◌, if◌then◌else◌, ltb, length, replicate, zero,
  suc,
}
use cmangos_tbc.Base.Text.{Text, text}
use cmangos_tbc.Extractors.Dbc.{
  DbcFile, DbcRecord, from_bytes, record_at, get_u32, get_string, unwrap_or, max_id, validate,
}
use cmangos_tbc.Extractors.Mpq.{MpqManager, open_file}

pub record MapEntry : Type 0 where
  pub id : ℕ
  pub name : Text

-- The file in the archives, read and validated; `none` for each of the errors on the way.
unfoldable pub validated : Option DbcFile → Option DbcFile
validated none = none
validated (some file) = if validate file then some file else none

unfoldable pub parsed : Option (List ℕ) → Option DbcFile
unfolding validated
parsed none = none
parsed (some bytes) = validated (from_bytes bytes)

unfoldable pub open_table : Text → MpqManager → Option DbcFile
unfolding parsed
open_table filename mpq = parsed (open_file filename mpq)

-- One record's entry, if there is a record.
unfoldable pub push_entry : Option DbcRecord → List MapEntry → List MapEntry
push_entry none entries = entries
push_entry (some r) entries =
    record { id = unwrap_or 0 (get_u32 0 r); name = unwrap_or [] (get_string 1 r) } ∷ entries

-- `for idx in 0..record_count`, with the rounds left for fuel.
unfoldable pub map_entries : (rounds idx : ℕ) → DbcFile → List MapEntry
unfolding push_entry
map_entries zero idx dbc = []
map_entries (suc rounds) idx dbc = push_entry (record_at idx dbc) (map_entries rounds (suc idx) dbc)

unfoldable pub all_entries : Option DbcFile → Option (List MapEntry)
unfolding map_entries
all_entries none = none
all_entries (some dbc) = some (map_entries dbc.record_count 0 dbc)

unfoldable pub read_map_dbc : MpqManager → Option (List MapEntry)
unfolding open_table all_entries
read_map_dbc mpq = all_entries (open_table (text "DBFilesClient\\Map.dbc") mpq)

-- `areas[id] = flag` on a vector.
unfoldable pub set_at : ℕ → ℕ → List ℕ → List ℕ
set_at id flag [] = []
set_at zero flag (x ∷ xs) = flag ∷ xs
set_at (suc id) flag (x ∷ xs) = x ∷ set_at id flag xs

-- One record's assignment: the fourth column `as u16`, if the number lies in the vector.
unfoldable pub assign : Option DbcRecord → List ℕ → List ℕ
unfolding set_at
assign none areas = areas
assign (some r) areas =
    let id = unwrap_or 0 (get_u32 0 r) in
    if ltb id (length areas) then set_at id (unwrap_or 0 (get_u32 3 r) % 2 ^ 16) areas else areas

unfoldable pub fill : (rounds idx : ℕ) → DbcFile → List ℕ → List ℕ
unfolding assign
fill zero idx dbc areas = areas
fill (suc rounds) idx dbc areas = fill rounds (suc idx) dbc (assign (record_at idx dbc) areas)

-- 0xffff for the numbers without a record.
unfoldable pub flag_table : DbcFile → List ℕ
unfolding fill
flag_table dbc = fill dbc.record_count 0 dbc (replicate (max_id dbc + 1) 0xFFFF)

unfoldable pub with_max : Option DbcFile → Option (List ℕ × ℕ)
unfolding flag_table
with_max none = none
with_max (some dbc) = some (flag_table dbc, max_id dbc)

unfoldable pub read_area_table_dbc : MpqManager → Option (List ℕ × ℕ)
unfolding open_table with_max
read_area_table_dbc mpq = with_max (open_table (text "DBFilesClient\\AreaTable.dbc") mpq)

unfoldable pub types_of : Option DbcFile → Option (List ℕ)
unfolding flag_table
types_of none = none
types_of (some dbc) = some (flag_table dbc)

unfoldable pub read_liquid_type_dbc : MpqManager → Option (List ℕ)
unfolding open_table types_of
read_liquid_type_dbc mpq = types_of (open_table (text "DBFilesClient\\LiquidType.dbc") mpq)
