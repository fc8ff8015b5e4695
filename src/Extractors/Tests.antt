-- ===== src/Extractors/Tests.antt =====
-- Concrete inputs for the tables and the spawns.
pub mod Files
pub mod Load
pub mod DirBin
pub mod Mesh
pub mod Models
pub mod Vmaps
pub mod TileFiles
use cmangos_tbc.Base.{
  ℕ, ◌+◌, ◌*◌, ◌-◌, ◌^◌, ◌<◌, ◌≤◌, ◌≡◌, ◌≢◌, ◌↔◌, refl, true, false, none, some, Option, List, [],
  ◌∷◌, ◌++◌, length, bytes_eq, length-append, length-replicate, replicate, get_or, map, ltb, All,
  arith, zero, suc, if◌then◌else◌, ◌==◌,
}
use cmangos_tbc.Base.Bytes.{from_le, to_le}
use cmangos_tbc.Base.Text.{Text, text, from_utf8_lossy}
use cmangos_tbc.Extractors.Reader.{
  concat_map, read_tag, read_u32, read_number, read_exact, ensure, ◌>>=◌,
}
use cmangos_tbc.Extractors.Float.{FloatOps, FloatLaws}
use cmangos_tbc.Extractors.Dbc.{
  DbcFile, DbcRecord, from_bytes, read_file, record_at, get_u32, id_of, validate, word_at,
}
use cmangos_tbc.Extractors.Dbc.Table.{get_u32_total}
use cmangos_tbc.Extractors.MapTables.{flag_table}
use cmangos_tbc.Extractors.MapTables.Lookup.{flag_of, flag_table_last}
use cmangos_tbc.Extractors.Spawn.{
  ModelSpawn, TreeMap, MapSpawns, DirEntry, Vec3, get, read_map_spawns,
}
use cmangos_tbc.Extractors.Spawn.RoundTrip.{IsVec3, IsEntry, write_entry, add_entries}
use cmangos_tbc.Extractors.Spawn.Collect.{
  map_of, listed_tiles, first_spawn, read_map_spawns_collects,
}
use cmangos_tbc.Extractors.Instances.{UniqueIds, generate}
use cmangos_tbc.Extractors.Instances.Ids.{generate_exact}

-- A table of one record with two columns: the id 7 and the number 5.
abbrev table_bytes : List ℕ
table_bytes =
    text "WDBC"
    ++ (1 ∷ 0 ∷ 0 ∷ 0 ∷ 2 ∷ 0 ∷ 0 ∷ 0 ∷ 8 ∷ 0 ∷ 0 ∷ 0 ∷ 1 ∷ 0 ∷ 0 ∷ 0 ∷ 7 ∷ 0 ∷ 0 ∷ 0 ∷ 5 ∷ 0 ∷ 0
        ∷ 0 ∷ 0 ∷ [])

abbrev table : DbcFile
table = record {
  record_count = 1;
  field_count = 2;
  record_size = 8;
  record_data = 7 ∷ 0 ∷ 0 ∷ 0 ∷ 5 ∷ 0 ∷ 0 ∷ 0 ∷ [];
  string_table = 0 ∷ [];
}

table_read : from_bytes table_bytes ≡ some table
unfolding from_bytes ◌>>=◌ read_exact ensure bytes_eq read_u32 read_number from_le
table_read = refl

get_u32_total_example :
    (r : DbcRecord) × (record_at 0 table ≡ some r) × ((v : ℕ) × (get_u32 1 r ≡ some v))
unfolding validate
get_u32_total_example =
    get_u32_total table_bytes table 0 1 table_read refl (omega arith) (omega arith) (omega arith)

flag_table_last_example :
    (id_of (record_at 0 table) < length (flag_table table))
    × (get_or (flag_table table) (id_of (record_at 0 table)) 0 ≡ flag_of (record_at 0 table))
flag_table_last_example = flag_table_last table 0 (omega arith) (λ i lo hi. absurd (omega arith))

generate_exact_example :
    ((generate 7 0 []).0 ≡ (generate 9 0 (generate 7 0 []).1).0) ↔ (Path (ℕ × ℕ) (7, 0) (9, 0))
generate_exact_example = generate_exact (7, 0) (9, 0) [] tt (omega arith)

abbrev origin : Vec3
origin = record { x = 0; y = 0; z = 0 }

-- A tree, as the extractor writes it.
abbrev tree : ModelSpawn
tree = record {
  flags = 1;
  adt_id = 0;
  id = 1;
  pos = origin;
  rot = origin;
  scale = 0x3F800000;
  bound = none;
  name = text "Tree.m2";
}

abbrev entries : List DirEntry
entries = record { map_id = 0; tile_x = 32; tile_y = 48; spawn = tree } ∷ []

origin_small : IsVec3 origin
origin_small = (omega arith, (omega arith, omega arith))

entries_valid : All IsEntry entries
unfolding from_utf8_lossy
entries_valid = (
  (
    omega arith,
    (
      omega arith,
      (
        omega arith,
        (
          omega arith,
          (
            omega arith,
            (omega arith, (origin_small, (origin_small, (omega arith, (tt, (omega arith, refl)))))),
          ),
        ),
      ),
    ),
  ),
  tt,
)

read_map_spawns_collects_example :
    (map_data : TreeMap MapSpawns) × ((read_map_spawns (concat_map write_entry entries)
        ≡ some map_data)
      × (((map_of 0 map_data).tile_entries ≡ listed_tiles 0 entries)
          × (get 1 (map_of 0 map_data).unique_entries ≡ first_spawn 0 1 entries)))
read_map_spawns_collects_example = read_map_spawns_collects entries 0 1 entries_valid
