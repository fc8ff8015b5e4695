-- ===== src/Extractors/Tests/TileFiles.antt =====
-- Spawns on two tiles, one of them a world spawn and one with a bound.
use cmangos_tbc.Base.{ℕ, ◌≡◌, refl, Option, none, some, List, [], ◌∷◌, All, arith}
use cmangos_tbc.Base.Text.{text}
use cmangos_tbc.Extractors.Spawn.{AaBox, ModelSpawn, Vec3, MapSpawns, get, unpack_tile_id}
use cmangos_tbc.Extractors.TileFiles.{write_map_files}
use cmangos_tbc.Extractors.TileFiles.Runs.{ids_at}
use cmangos_tbc.Extractors.TileFiles.Numbers.{on_disk, expected_file, IsSpawnMap, Lists}
use cmangos_tbc.Extractors.TileFiles.Listed.{write_map_files_exact}

abbrev place : Vec3
place = record { x = 0; y = 0; z = 0 }

abbrev box : AaBox
box = record { low = place; high = place }

abbrev spawn : (id flags : ℕ) → Option AaBox → ModelSpawn
spawn id flags bound = record {
  flags = flags;
  adt_id = 0;
  id = id;
  pos = place;
  rot = place;
  scale = 1;
  bound = bound;
  name = text "A";
}

abbrev spawns : MapSpawns
spawns = record {
  unique_entries = (1, spawn 1 0 none) ∷ (2, spawn 2 2 (some box)) ∷ (3, spawn 3 4 (some box)) ∷ [];
  tile_entries = (9, 3) ∷ (5, 2) ∷ (9, 1) ∷ (5, 3) ∷ (9, 2) ∷ [];
}

spawns_sound : IsSpawnMap spawns.unique_entries
spawns_sound =
    (refl, ((omega arith, (omega arith, tt)), (refl, ((omega arith, tt), (refl, (tt, tt))))))

spawns_known :
    All (λ e. (s : ModelSpawn) × (get e.1 spawns.unique_entries ≡ some s)) spawns.tile_entries
unfolding get
spawns_known = ((_, refl), ((_, refl), ((_, refl), ((_, refl), ((_, refl), tt)))))

names_differ : All (λ e. unpack_tile_id e.0 ≡ unpack_tile_id 9 → e.0 ≡ 9) spawns.tile_entries
unfolding unpack_tile_id
names_differ = (λ _. refl, (λ e. cc, (λ _. refl, (λ e. cc, (λ _. refl, tt)))))

write_map_files_exact_example :
    (out : List ℕ × List ((ℕ × ℕ) × List ℕ)) × ((listed : List (ℕ × ModelSpawn)) × ((write_map_files
            (λ _. [])
            spawns
          ≡ some out)
        × (Lists spawns.unique_entries (ids_at 9 spawns.tile_entries) listed
            × (on_disk (unpack_tile_id 9) out.1 ≡ expected_file spawns.unique_entries listed))))
write_map_files_exact_example =
    write_map_files_exact (λ _. []) spawns 9 spawns_sound spawns_known names_differ
