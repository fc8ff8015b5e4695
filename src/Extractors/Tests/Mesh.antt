-- ===== src/Extractors/Tests/Mesh.antt =====
-- Concrete meshes: a tile with terrain that is loaded, and vertices that are cleaned.
use cmangos_tbc.Base.{
  ℕ, ◌&&◌, ◌≡◌, refl, false, Option, none, some, List, [], ◌∷◌, if◌then◌else◌, ◌==◌, arith, map,
  length,
}
use cmangos_tbc.Extractors.MapFile.{map_file}
use cmangos_tbc.Extractors.Terrain.Shape.{MeshData}
use cmangos_tbc.Extractors.Terrain.Portion.{load_map}
use cmangos_tbc.Extractors.Terrain.WellFormed.{IsMesh, IsInside}
use cmangos_tbc.Extractors.Terrain.Loading.{load_map-IsMesh}
use cmangos_tbc.Extractors.Terrain.Clean.{
  clean_vertices, collect, number, vertex_at, renumber, key_of,
}
use cmangos_tbc.Extractors.Spawn.{update_or, get}
use cmangos_tbc.Extractors.Terrain.{as_usize}
use cmangos_tbc.Extractors.Terrain.Clean.Corners.{corner, clean_vertices_corners}
use cmangos_tbc.Extractors.Tests.Files.{float}
use cmangos_tbc.Extractors.Tests.Load.{hill}

-- One tile has a map file.
abbrev files : (tile_x tile_y : ℕ) → Option (List ℕ)
files tile_x tile_y = if (tile_x == 32) && (tile_y == 48) then some (map_file hill) else none

abbrev pub no_mesh : MeshData
no_mesh = record {
  solid_verts = [];
  solid_tris = [];
  liquid_verts = [];
  liquid_tris = [];
  liquid_type = [];
}

pub no_mesh_valid : IsMesh no_mesh
no_mesh_valid = record {
  solid_inside = tt;
  liquid_inside = tt;
  solid_threes = omega arith;
  liquid_typed = omega arith;
}

load_map-IsMesh_example : IsMesh (load_map float false files 32 48 no_mesh)
load_map-IsMesh_example =
    load_map-IsMesh float false files 32 48 no_mesh no_mesh_valid (omega arith) (omega arith)

-- Three vertices, of which the triangle uses two.
abbrev verts : List ℕ
verts = 1 ∷ 2 ∷ 3 ∷ 4 ∷ 5 ∷ 6 ∷ 7 ∷ 8 ∷ 9 ∷ []

abbrev tris : List ℕ
tris = 2 ∷ 0 ∷ 2 ∷ []

cleaned : clean_vertices verts tris ≡ (1 ∷ 2 ∷ 3 ∷ 7 ∷ 8 ∷ 9 ∷ [], 1 ∷ 0 ∷ 1 ∷ [])
unfolding clean_vertices collect number vertex_at renumber key_of update_or get as_usize
cleaned = refl

clean_vertices_corners_example :
    (map (corner (clean_vertices verts tris).0) (clean_vertices verts tris).1
      ≡ map (corner verts) tris)
    × IsInside (length (clean_vertices verts tris).0) (clean_vertices verts tris).1
clean_vertices_corners_example =
    clean_vertices_corners verts tris (omega arith) (omega arith) (omega arith)
