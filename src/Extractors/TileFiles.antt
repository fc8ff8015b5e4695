-- ===== src/Extractors/TileFiles.antt =====
-- `write_map_files` of crates/extractors/src/vmap_assemble.rs: the tree file of a map and the files of
-- its tiles. The bounding hierarchy is an argument, from the boxes of the spawns to the bytes that it
-- writes.
pub mod Runs
pub mod Numbers
pub mod Listed
use cmangos_tbc.Base.{
  ℕ, ◌+◌, ◌%◌, ◌^◌, Bool, true, false, not, Option, none, some, List, [], ◌∷◌, ◌++◌, if◌then◌else◌,
  ◌==◌, ◌||◌, leb, length, bit_and, zero, suc, map,
}
use cmangos_tbc.Base.Bytes.{to_le}
use cmangos_tbc.Base.Text.{text}
use cmangos_tbc.Extractors.Reader.{concat_map}
use cmangos_tbc.Extractors.Dbc.{unwrap_or}
use cmangos_tbc.Extractors.Spawn.{
  ModelSpawn, AaBox, MapSpawns, TreeMap, Vec3, get, write_to, pack_tile_id, unpack_tile_id,
  mod_worldspawn,
}

-- The spawns with a bound, in the order of their ids.
unfoldable pub with_bound : Option AaBox → ModelSpawn → List ModelSpawn → List ModelSpawn
with_bound none spawn rest = rest
with_bound (some b) spawn rest = spawn ∷ rest

unfoldable pub bounded : TreeMap ModelSpawn → List ModelSpawn
unfolding with_bound
bounded [] = []
bounded ((id, spawn) ∷ entries) = with_bound spawn.bound spawn (bounded entries)

-- `bound.unwrap_or_default()`.
unfoldable pub box_of : ModelSpawn → AaBox
box_of s =
    let zero_vec : Vec3 = record { x = 0; y = 0; z = 0 } in
    unwrap_or (record { low = zero_vec; high = zero_vec }) s.bound

-- `node_index` as the list of its insertions: the last one of an id counts.
unfoldable pub node_index : (idx : ℕ) → List ModelSpawn → List (ℕ × ℕ)
node_index idx [] = []
node_index idx (s ∷ spawns) = (s.id, idx % 2 ^ 32) ∷ node_index (suc idx) spawns

unfoldable pub last_of : (key : ℕ) → List (ℕ × ℕ) → ℕ → ℕ
last_of key [] default = default
last_of key ((k, v) ∷ entries) default = last_of key entries (if k == key then v else default)

unfoldable pub has_global : List (ℕ × ℕ) → Bool
unfolding pack_tile_id
has_global [] = false
has_global ((tile_id, id) ∷ entries) = (tile_id == pack_tile_id 65 65) || has_global entries

-- `sort_by_key`, which keeps the order of entries with the same key.
unfoldable pub insert_by_key : ℕ × ℕ → List (ℕ × ℕ) → List (ℕ × ℕ)
insert_by_key e [] = e ∷ []
insert_by_key e (x ∷ xs) =
    let rest = insert_by_key e xs in if leb e.0 x.0 then e ∷ x ∷ xs else x ∷ rest

unfoldable pub sort_by_key : List (ℕ × ℕ) → List (ℕ × ℕ)
unfolding insert_by_key
sort_by_key [] = []
sort_by_key (e ∷ entries) = insert_by_key e (sort_by_key entries)

-- The runs of neighbours with the same tile: the tile and the ids.
unfoldable pub start_run : ℕ × ℕ → List (ℕ × List ℕ) → List (ℕ × List ℕ)
start_run (tile_id, id) [] = (tile_id, id ∷ []) ∷ []
start_run (tile_id, id) ((next, ids) ∷ runs) =
    if tile_id == next then (next, id ∷ ids) ∷ runs else (tile_id, id ∷ []) ∷ (next, ids) ∷ runs

unfoldable pub runs_of : List (ℕ × ℕ) → List (ℕ × List ℕ)
unfolding start_run
runs_of [] = []
runs_of (e ∷ entries) = start_run e (runs_of entries)

-- A spawn of a file, and behind it the number of its node.
unfoldable pub spawn_bytes : List (ℕ × ℕ) → ℕ × ModelSpawn → List ℕ
unfolding last_of write_to
spawn_bytes nodes (id, spawn) = write_to spawn ++ to_le 4 (last_of id nodes 0)

unfoldable pub tile_bytes : List (ℕ × ℕ) → List (ℕ × ModelSpawn) → List ℕ
unfolding spawn_bytes concat_map
tile_bytes nodes listed =
    text "VMAP_7.0" ++ (to_le 4 (length listed % 2 ^ 32) ++ concat_map (spawn_bytes nodes) listed)

module _ (unique_entries : TreeMap ModelSpawn) where
  -- The spawns of the ids that are known and are not marked as world spawns.
  unfoldable pub if_tiled : ℕ → Option ModelSpawn → List (ℕ × ModelSpawn) → List (ℕ × ModelSpawn)
  if_tiled id none rest = rest
  if_tiled id (some s) rest = if bit_and s.flags mod_worldspawn == 0 then (id, s) ∷ rest else rest

  unfoldable pub non_worldspawn : List ℕ → List (ℕ × ModelSpawn)
  unfolding if_tiled get
  non_worldspawn [] = []
  non_worldspawn (id ∷ ids) = if_tiled id (get id unique_entries) (non_worldspawn ids)

  -- The files of the tiles that list a spawn, in the order of the tiles.
  unfoldable pub tile_file :
      List (ℕ × ℕ) → ℕ → List (ℕ × ModelSpawn) → List (ℕ × List ℕ) → List (ℕ × List ℕ)
  unfolding tile_bytes
  tile_file nodes tile_id [] rest = rest
  tile_file nodes tile_id (e ∷ listed) rest = (tile_id, tile_bytes nodes (e ∷ listed)) ∷ rest

  unfoldable pub run_files : List (ℕ × ℕ) → List (ℕ × List ℕ) → List (ℕ × List ℕ)
  unfolding tile_file non_worldspawn
  run_files nodes [] = []
  run_files nodes ((tile_id, ids) ∷ runs) =
      tile_file nodes tile_id (non_worldspawn ids) (run_files nodes runs)

  -- The spawns of the global tile; `none` where one is missing.
  unfoldable pub global_spawn :
      List (ℕ × ℕ) → ℕ → Option ModelSpawn → Option (List ℕ) → Option (List ℕ)
  unfolding spawn_bytes
  global_spawn nodes id (some s) (some rest) = some (spawn_bytes nodes (id, s) ++ rest)
  global_spawn nodes id (some s) none = none
  global_spawn nodes id none rest = none

  unfoldable pub global_bytes : List (ℕ × ℕ) → List (ℕ × ℕ) → Option (List ℕ)
  unfolding pack_tile_id global_spawn get
  global_bytes nodes [] = some []
  global_bytes nodes ((tile_id, id) ∷ entries) =
      let rest = global_bytes nodes entries in
      if tile_id == pack_tile_id 65 65
      then global_spawn nodes id (get id unique_entries) rest
      else rest

-- The bytes of the tree file in front of its global spawns.
unfoldable pub tree_head : (has_global : Bool) → (bih : List ℕ) → List ℕ
tree_head global bih =
    text "VMAP_7.0" ++ ((if global then 0 else 1) ∷ (text "NODE" ++ (bih ++ text "GOBJ")))

unfoldable pub tile_files : MapSpawns → List (ℕ × List ℕ)
unfolding node_index bounded run_files runs_of sort_by_key
tile_files spawns =
    run_files spawns.unique_entries (node_index 0 (bounded spawns.unique_entries))
      (runs_of (sort_by_key spawns.tile_entries))

-- The files of the tiles follow the tree file; the name of each has the two numbers of its tile. An
-- error leaves nothing behind the head of the tree file.
unfoldable pub named : ℕ × List ℕ → (ℕ × ℕ) × List ℕ
unfolding unpack_tile_id
named (tile_id, bytes) = (unpack_tile_id tile_id, bytes)

unfoldable pub after_global :
    (head : List ℕ)
    → List ((ℕ × ℕ) × List ℕ)
    → Option (List ℕ)
    → Option (List ℕ × List ((ℕ × ℕ) × List ℕ))
after_global head files none = none
after_global head files (some global) = some (head ++ global, files)

unfoldable pub write_map_files :
    (bih : List AaBox → List ℕ) → MapSpawns → Option (List ℕ × List ((ℕ × ℕ) × List ℕ))
unfolding tree_head has_global global_bytes tile_files named after_global node_index bounded box_of
write_map_files bih spawns =
    let listed = bounded spawns.unique_entries in
    after_global (tree_head (has_global spawns.tile_entries) (bih (map box_of listed)))
      (map named (tile_files spawns))
      (global_bytes spawns.unique_entries (node_index 0 listed) spawns.tile_entries)
