-- ===== src/Extractors/Tests/Vmaps.antt =====
-- A concrete tree file with one spawn of a model of one triangle and one tile of liquid.
use cmangos_tbc.Base.{
  ℕ, ◌≡◌, refl, sym, ◌∙◌, Bool, false, Option, some, List, [], ◌∷◌, ◌++◌, All, arith, length,
  replicate, some_injective,
}
use cmangos_tbc.Base.Bytes.{from_le}
use cmangos_tbc.Base.Text.{Text, text}
use cmangos_tbc.Extractors.Dbc.{unwrap_or}
use cmangos_tbc.Extractors.Reader
use cmangos_tbc.Extractors.Terrain.Shape.{MeshData}
use cmangos_tbc.Extractors.Terrain.WellFormed.{IsMesh}
use cmangos_tbc.Extractors.Vmap.{
  GroupData, load_world_model, read_world_model, read_tree_header, read_model_spawn,
}
use cmangos_tbc.Extractors.Vmap.Inside.{IsGroup}
use cmangos_tbc.Extractors.Vmap.Models.{load_vmap}
use cmangos_tbc.Extractors.Vmap.LoadVmap.{HasModels, load_vmap-IsMesh}
use cmangos_tbc.Extractors.Vmap.Total.{HasCounted, load_vmap_total}
use cmangos_tbc.Extractors.Tests.Files.{float}
use cmangos_tbc.Extractors.Tests.Mesh.{no_mesh, no_mesh_valid}

abbrev zeros : ℕ → List ℕ
zeros n = replicate n 0

abbrev one : List ℕ
one = 1 ∷ 0 ∷ 0 ∷ 0 ∷ []

abbrev three : List ℕ
three = 3 ∷ 0 ∷ 0 ∷ 0 ∷ []

-- Behind the mark: a tile in each direction, corner, type, four heights, one flag.
abbrev liquid_part : List ℕ
liquid_part = one ++ (one ++ (one ++ zeros 33))

abbrev model : List ℕ
model =
    zeros 12
    ++ (one
        ++ (zeros 36
            ++ (zeros 64
                ++ (text "VERT"
                    ++ (three
                        ++ (zeros 36
                            ++ (text "TRIM"
                                ++ (one
                                    ++ (zeros 4
                                        ++ (one
                                            ++ ((2 ∷ 0 ∷ 0 ∷ 0 ∷ [])
                                                ++ (zeros 32 ++ liquid_part))))))))))))

abbrev vmtree : List ℕ
vmtree = zeros 44 ++ (one ++ (zeros 38 ++ (one ++ text "A")))

abbrev files : Text → Option (List ℕ)
files name = some model

abbrev groups : List GroupData
groups =
    record {
      vertices =
          record { x = 0; y = 0; z = 0 }
          ∷ record { x = 0; y = 0; z = 0 }
          ∷ record { x = 0; y = 0; z = 0 }
          ∷ [];
      triangles = (0, 1, 2) ∷ [];
      liquid = some (record {
        tiles_x = 1;
        tiles_y = 1;
        corner = record { x = 0; y = 0; z = 0 };
        liq_type = 0;
        heights = replicate 4 0;
        flags = 0 ∷ [];
      });
    }
    ∷ []

model_read : load_world_model (some model) ≡ some groups
unfolding load_world_model read_world_model Reader.◌>>=◌ Reader.read_exact Reader.repeat
    Reader.read_number from_le
model_read = refl

groups_valid : All IsGroup groups
groups_valid = ((((omega arith, (omega arith, omega arith)), tt), (omega arith, omega arith)), tt)

files_valid : HasModels float files
files_valid name gs h =
    let same : groups ≡ gs = some_injective (sym model_read ∙ h) in rw (sym same) groups_valid

abbrev loaded : Bool × MeshData
loaded = unwrap_or (false, no_mesh) (load_vmap float files (some vmtree) no_mesh)

vmtree-loaded : load_vmap float files (some vmtree) no_mesh ≡ some loaded
unfolding load_vmap read_tree_header Reader.◌>>=◌ Reader.read_exact Reader.repeat Reader.read_number
    from_le read_model_spawn load_world_model
vmtree-loaded = refl

sizes : (length loaded.1.solid_verts ≡ 9) × (length loaded.1.liquid_verts ≡ 12)
unfolding load_vmap read_tree_header Reader.◌>>=◌ Reader.read_exact Reader.repeat Reader.read_number
    from_le read_model_spawn load_world_model
sizes = (refl, refl)

load_vmap-IsMesh_example : IsMesh loaded.1
load_vmap-IsMesh_example =
    load_vmap-IsMesh float files (some vmtree) no_mesh loaded files_valid no_mesh_valid
      vmtree-loaded (rw sizes.0 (omega arith)) (rw sizes.1 (omega arith))

files_counted : HasCounted float files
files_counted name gs h =
    let same : groups ≡ gs = some_injective (sym model_read ∙ h) in rw (sym same) (omega arith, tt)

load_vmap_total_example :
    (out : Bool × MeshData) × (load_vmap float files (some vmtree) no_mesh ≡ some out)
load_vmap_total_example = load_vmap_total float files (some vmtree) no_mesh files_counted
