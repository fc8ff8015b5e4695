-- ===== src/Extractors/TileFiles/Listed.antt =====
-- The file of a tile lists the spawns that were placed on it, in their order.
use cmangos_tbc.Base.{
  ℕ, ◌%◌, ◌^◌, ◌<◌, ◌≡◌, ◌∙◌, refl, sym, ap, Bool, true, false, Option, none, some, List, [], ◌∷◌,
  ◌++◌, ◌==◌, ◌&&◌, length, map, All, arith, inl, inr, Bool-cases, Option-cases, bit_and,
}
use cmangos_tbc.Base.Bytes.{to_le}
use cmangos_tbc.Base.Text.{text}
use cmangos_tbc.Extractors.Reader.{concat_map}
use cmangos_tbc.Extractors.Spawn.{
  AaBox, ModelSpawn, MapSpawns, TreeMap, get, write_to, unpack_tile_id, pack_tile_id,
}
use cmangos_tbc.Extractors.TileFiles.{
  bounded, node_index, sort_by_key, runs_of, spawn_bytes, tile_bytes, if_tiled, non_worldspawn,
  tile_file, run_files, global_spawn, global_bytes, tile_files, named, after_global,
  write_map_files,
}
use cmangos_tbc.Extractors.TileFiles.Runs.{
  ids_at, IsRuns, run_at, run_at-runs_of, runs_of-IsRuns, sort_by_key-IsSorted, ids_at-sort_by_key,
  sort_by_key-All, runs_of-All,
}
use cmangos_tbc.Extractors.TileFiles.Numbers.{
  on_disk, Lists, lists_end, world_spawn, tile_spawn, node_of, expected_file, IsSpawnMap,
  last_of-node_of,
}

module _ (spawns : TreeMap ModelSpawn) where
  Known : ℕ → Type 0
  Known id = (s : ModelSpawn) × (get id spawns ≡ some s)

  concat_map-spawn_bytes :
      (listed : List (ℕ × ModelSpawn))
      → IsSpawnMap spawns
      → concat_map (spawn_bytes (node_index 0 (bounded spawns))) listed
        ≡ concat_map (λ (id, s). write_to s ++ to_le 4 (node_of id spawns)) listed
  unfolding concat_map spawn_bytes
  concat_map-spawn_bytes [] h = refl
  concat_map-spawn_bytes ((id, s) ∷ listed) h =
      rw (last_of-node_of id spawns h, concat_map-spawn_bytes listed h) refl

  -- The file of the code is the one that is expected.
  file_of : List (ℕ × ModelSpawn) → Option (List ℕ)
  file_of [] = none
  file_of (e ∷ listed) = some (tile_bytes (node_index 0 (bounded spawns)) (e ∷ listed))

  file_of-expected :
      (listed : List (ℕ × ModelSpawn))
      → IsSpawnMap spawns
      → file_of listed ≡ expected_file spawns listed
  unfolding file_of expected_file tile_bytes
  file_of-expected [] h = refl
  file_of-expected (e ∷ listed) h =
      ap (λ bytes. some (text "VMAP_7.0" ++ (to_le 4 (length (e ∷ listed) % 2 ^ 32) ++ bytes)))
        (concat_map-spawn_bytes (e ∷ listed) h)

  non_worldspawn-Lists :
      (ids : List ℕ) → All Known ids → Lists spawns ids (non_worldspawn spawns ids)
  unfolding non_worldspawn if_tiled Known
  non_worldspawn-Lists [] h = lists_end
  non_worldspawn-Lists (id ∷ ids) h =
      let (s, found) = h.0 in
      let rest = non_worldspawn-Lists ids h.1 in
      elim (Bool-cases (bit_and s.flags 2 == 0)) [
        | inl tile ↦ rw (found, tile) (tile_spawn found (ground arith) rest)
        | inr world ↦ rw (found, world) (world_spawn found (ground arith) rest)
      ]

  -- A file of another tile has another name.
  Apart : ℕ → ℕ → Type 0
  Apart tile_id t = unpack_tile_id t ≡ unpack_tile_id tile_id → t ≡ tile_id

  abbrev same_name : ℕ × ℕ → ℕ × ℕ → Bool
  same_name m n = (m.0 == n.0) && (m.1 == n.1)

  same_name-eq : (m n : ℕ × ℕ) → same_name m n ≡ true → m ≡ n
  same_name-eq (a, b) (c, d) h = ground arith

  same_name_refl : (m : ℕ × ℕ) → same_name m m ≡ true
  same_name_refl (a, b) = ground arith

  same_name-unpack :
      (tile_id t : ℕ)
      → Apart tile_id t
      → (t == tile_id) ≡ false
      → same_name (unpack_tile_id t) (unpack_tile_id tile_id) ≡ false
  unfolding Apart
  same_name-unpack tile_id t apart other =
      elim (Bool-cases (same_name (unpack_tile_id t) (unpack_tile_id tile_id))) [
        | inl same ↦ let eq = apart (same_name-eq _ _ same) in absurd (ground arith)
        | inr differ ↦ differ
      ]

  abbrev nodes : List (ℕ × ℕ)
  nodes = node_index 0 (bounded spawns)

  on_disk-other :
      (tile_id t : ℕ) (listed : List (ℕ × ModelSpawn)) (rest : List (ℕ × List ℕ))
      → Apart tile_id t
      → (t == tile_id) ≡ false
      → on_disk (unpack_tile_id tile_id) (map named (tile_file spawns nodes t listed rest))
        ≡ on_disk (unpack_tile_id tile_id) (map named rest)
  unfolding on_disk tile_file named
  on_disk-other tile_id t [] rest apart h = refl
  on_disk-other tile_id t (e ∷ listed) rest apart h =
      elim (Option-cases (on_disk (unpack_tile_id tile_id) (map named rest))) [
        | inl gone ↦ rw (gone, same_name-unpack tile_id t apart h) refl
        | inr (bytes, there) ↦ rw there refl
      ]

  on_disk-here :
      (tile_id : ℕ) (listed : List (ℕ × ModelSpawn)) (rest : List (ℕ × List ℕ))
      → on_disk (unpack_tile_id tile_id) (map named rest) ≡ none
      → on_disk (unpack_tile_id tile_id) (map named (tile_file spawns nodes tile_id listed rest))
        ≡ file_of listed
  unfolding on_disk tile_file named file_of
  on_disk-here tile_id [] rest gone = gone
  on_disk-here tile_id (e ∷ listed) rest gone =
      rw (gone, same_name_refl (unpack_tile_id tile_id)) refl

  on_disk-above :
      (tile_id : ℕ) (rs : List (ℕ × List ℕ))
      → All (λ r. tile_id < r.0) rs
      → All (λ r. Apart tile_id r.0) rs
      → on_disk (unpack_tile_id tile_id) (map named (run_files spawns nodes rs)) ≡ none
  unfolding on_disk run_files
  on_disk-above tile_id [] h apart = refl
  on_disk-above tile_id ((t, ids) ∷ rs) h apart =
      let lt : tile_id < t = h.0 in
      on_disk-other tile_id t (non_worldspawn spawns ids) _ apart.0 (ground arith)
      ∙ on_disk-above tile_id rs h.1 apart.1

  on_disk-run_files :
      (tile_id : ℕ) (rs : List (ℕ × List ℕ))
      → IsRuns rs
      → All (λ r. Apart tile_id r.0) rs
      → on_disk (unpack_tile_id tile_id) (map named (run_files spawns nodes rs))
        ≡ file_of (non_worldspawn spawns (run_at tile_id rs))
  unfolding on_disk run_files file_of run_at non_worldspawn
  on_disk-run_files tile_id [] h apart = refl
  on_disk-run_files tile_id ((t, ids) ∷ rs) h apart = elim (Bool-cases (t == tile_id)) [
    | inl here ↦
        let eq : t ≡ tile_id = ground arith in
        let gone = on_disk-above tile_id rs (rw (sym eq) h.0) apart.1 in
        rw (run_at, here) (rw eq (on_disk-here tile_id (non_worldspawn spawns ids) _ gone))
    | inr there ↦
        rw (run_at, there)
          (on_disk-other tile_id t (non_worldspawn spawns ids) _ apart.0 there
            ∙ on_disk-run_files tile_id rs h.1 apart.1)
  ]

  ids_at-Known :
      (tile_id : ℕ) (entries : List (ℕ × ℕ))
      → All (λ e. Known e.1) entries
      → All Known (ids_at tile_id entries)
  unfolding ids_at
  ids_at-Known tile_id [] h = tt
  ids_at-Known tile_id ((t, id) ∷ entries) h = elim (Bool-cases (t == tile_id)) [
    | inl here ↦ rw here (h.0, ids_at-Known tile_id entries h.1)
    | inr there ↦ rw there (ids_at-Known tile_id entries h.1)
  ]

  global_bytes-Known :
      (entries : List (ℕ × ℕ))
      → All (λ e. Known e.1) entries
      → (bytes : List ℕ) × (global_bytes spawns nodes entries ≡ some bytes)
  unfolding global_bytes global_spawn Known
  global_bytes-Known [] h = ([], refl)
  global_bytes-Known ((t, id) ∷ entries) h =
      let (rest, more) = global_bytes-Known entries h.1 in
      let (s, found) = h.0 in
      elim (Bool-cases (t == pack_tile_id 65 65)) [
        | inl global ↦ rw (global, found, more) (_, refl)
        | inr tile ↦ rw (tile, more) (rest, refl)
      ]

-- Where the spawns stand under their own ids, in order, every id that is placed on a tile is known and
-- no other tile has the same file name, the files of the map are written without an error, and what is left under the name of the tile is the
-- magic, the number of spawns, and the spawns that were placed on the tile and do not have flag 2, in
-- the order in which they were placed, each followed by its place among the spawns with a bound, 0 for
-- one without. There is no such file where the tile has no such spawn.
pub write_map_files_exact :
    (bih : List AaBox → List ℕ) (spawns : MapSpawns) (tile_id : ℕ)
    → IsSpawnMap spawns.unique_entries
    → All (λ e. (s : ModelSpawn) × (get e.1 spawns.unique_entries ≡ some s)) spawns.tile_entries
    → All (λ e. unpack_tile_id e.0 ≡ unpack_tile_id tile_id → e.0 ≡ tile_id) spawns.tile_entries
    → (out : List ℕ × List ((ℕ × ℕ) × List ℕ)) × ((listed : List (ℕ × ModelSpawn))
        × ((write_map_files bih spawns ≡ some out)
            × (Lists spawns.unique_entries (ids_at tile_id spawns.tile_entries) listed
                × (on_disk (unpack_tile_id tile_id) out.1
                    ≡ expected_file spawns.unique_entries listed))))
unfolding write_map_files after_global tile_files Known Apart
write_map_files_exact bih spawns tile_id sound known apart =
    let all = spawns.unique_entries in
    let entries = spawns.tile_entries in
    let sorted = sort_by_key entries in
    let ids = ids_at tile_id entries in
    let listed = non_worldspawn all ids in
    let (bytes, global) = global_bytes-Known all entries known in
    let in_order = sort_by_key-IsSorted entries in
    let apart' =
      runs_of-All (Apart all tile_id) sorted (sort_by_key-All (Apart all tile_id) entries apart) in
    let found =
      on_disk-run_files all tile_id (runs_of sorted) (runs_of-IsRuns sorted in_order) apart'
      ∙ ap (λ k. file_of all (non_worldspawn all k))
          (run_at-runs_of tile_id sorted in_order ∙ ids_at-sort_by_key tile_id entries)
      ∙ file_of-expected all listed sound in
    rw global (
      (_, _),
      (
        listed,
        (refl, (non_worldspawn-Lists all ids (ids_at-Known all tile_id entries known), found)),
      ),
    )
