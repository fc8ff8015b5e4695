-- ===== src/Extractors/Tests/DirBin.antt =====
-- A concrete placement that is written to dir_bin and read back.
use cmangos_tbc.Base.{ℕ, ◌≡◌, refl, some, Option, List, [], ◌∷◌, All, arith}
use cmangos_tbc.Base.Bytes.{to_le, from_le}
use cmangos_tbc.Base.Text.{Text, text, from_utf8_lossy}
use cmangos_tbc.Extractors.Reader.{read_exact, read_u32, read_number, ◌>>=◌}
use cmangos_tbc.Extractors.Spawn.{Vec3, DirEntry, read_map_spawns, write_vec3}
use cmangos_tbc.Extractors.Spawn.RoundTrip.{add_entries, IsVec3}
use cmangos_tbc.Extractors.Instances.{
  ModelInstanceData, Written, model_bytes, write_model_instance, read_model_vertex_count,
  read_vertex_count, first_of, if_vertices,
}
use cmangos_tbc.Extractors.Instances.Record.{Placed, model, IsPlaced}
use cmangos_tbc.Extractors.Instances.DirBin.{
  Listed, write_instance, write_instances, then_append, read_map_spawns-write_instances,
}
use cmangos_tbc.Extractors.Tests.Files.{float}

-- Every file holds a model of three vertices.
abbrev files : Text → Option (List ℕ)
files name = some (1 ∷ 1 ∷ 1 ∷ 1 ∷ 1 ∷ 1 ∷ 1 ∷ 1 ∷ 3 ∷ 0 ∷ 0 ∷ 0 ∷ [])

abbrev place : Vec3
place = record { x = 1; y = 2; z = 3 }

abbrev tree_data : ModelInstanceData
tree_data = record { id = 7; position = place; rotation = place; scale = 1024 }

abbrev placed : Placed
placed = record {
  map_id = 0;
  tile_x = 32;
  tile_y = 48;
  name = text "Tree.m2";
  inst = model tree_data;
}

abbrev written : Written
written = model_bytes float 0 32 48 (text "Tree.m2") tree_data []

place_small : IsVec3 place
place_small = (omega arith, (omega arith, omega arith))

placed_valid : All (IsPlaced float) (placed ∷ [])
unfolding from_utf8_lossy
placed_valid = (
  (
    omega arith,
    (omega arith, (omega arith, ((omega arith, refl), (place_small, (place_small, omega arith))))),
  ),
  tt,
)

run_ends : write_instances float files (placed ∷ []) [] ≡ some written
unfolding write_instances write_instance write_model_instance read_model_vertex_count
    read_vertex_count first_of if_vertices then_append read_exact read_u32 read_number ◌>>=◌ from_le
    model_bytes write_vec3 to_le
run_ends = refl

read_map_spawns-write_instances_example :
    (es : List DirEntry) × (Listed float files (placed ∷ []) es
      × (read_map_spawns written.1 ≡ some (add_entries es [])))
read_map_spawns-write_instances_example =
    read_map_spawns-write_instances float files (placed ∷ []) [] written tt placed_valid run_ends
