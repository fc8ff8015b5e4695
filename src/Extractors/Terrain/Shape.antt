-- ===== src/Extractors/Terrain/Shape.antt =====
-- The vertices and the triangles of a portion: the first half of `load_map_portion` of
-- crates/extractors/src/movemap_gen.rs.
use cmangos_tbc.Base.{
  ℕ, ◌+◌, ◌*◌, ◌/◌, ◌%◌, Bool, true, false, not, ◌||◌, Option, none, some, List, [], ◌∷◌, ◌++◌,
  if◌then◌else◌, ◌==◌, leb, ltb, get_or, zero, suc, bit_and,
}
use cmangos_tbc.Extractors.Reader.{concat_map}
use cmangos_tbc.Extractors.Float.{FloatOps}
use cmangos_tbc.Extractors.MapFile.Load.{Liquid, v9_size_sq, v8_size_sq}
use cmangos_tbc.Extractors.Terrain.{
  Spot, top, right, left, bottom, v8_grid, v9_grid, v9_size, as_usize, squares, get_height_triangle,
  stored_triangle, get_liquid_type, get_height_coord, get_liquid_coord, grid_coord, tile_offset,
  invalid_map_liq_height, map_liquid_type_no_water, map_liquid_type_deep_water, nav_area_water,
  nav_area_magma_slime,
}

-- The fields of the off-mesh connections, which no function here touches, are left out.
pub record MeshData : Type 0 where
  pub solid_verts : List ℕ
  pub solid_tris : List ℕ
  pub liquid_verts : List ℕ
  pub liquid_tris : List ℕ
  pub liquid_type : List ℕ

-- The numbers below `n`, from `i` on.
unfoldable pub count_up : (n i : ℕ) → List ℕ
count_up zero i = []
count_up (suc n) i = i ∷ count_up n (suc i)

abbrev pub is_empty : List ℕ → Bool
is_empty [] = true
is_empty (x ∷ xs) = false

-- Recast's order of the coordinates: y and z are swapped.
unfoldable pub pushed : ℕ × ℕ × ℕ → List ℕ
pushed (x, y, z) = x ∷ z ∷ y ∷ []

-- The four triangles of a square of the terrain, the two of a square of the liquid.
unfoldable pub solid_square : (count square : ℕ) → List ℕ
unfolding stored_triangle get_height_triangle
solid_square count square =
    stored_triangle count (get_height_triangle square top false)
    ++ (stored_triangle count (get_height_triangle square right false)
        ++ (stored_triangle count (get_height_triangle square left false)
            ++ stored_triangle count (get_height_triangle square bottom false)))

unfoldable pub liquid_square : (count square : ℕ) → List ℕ
unfolding stored_triangle get_height_triangle
liquid_square count square =
    stored_triangle count (get_height_triangle square top true)
    ++ stored_triangle count (get_height_triangle square bottom true)

unfoldable pub terrain_triangles : (count : ℕ) → Spot → List ℕ
unfolding concat_map solid_square squares
terrain_triangles count portion = concat_map (solid_square count) (squares portion)

unfoldable pub liquid_triangles : (count : ℕ) → Spot → List ℕ
unfolding concat_map liquid_square squares
liquid_triangles count portion = concat_map (liquid_square count) (squares portion)

-- The type of a square's liquid as an area: whether the terrain and the liquid are used, and the type.
unfoldable pub area_of : ℕ → Bool × Bool × ℕ
area_of t =
    if not (bit_and t map_liquid_type_deep_water == 0)
    then (false, false, t)
    else if not (bit_and t 0x0A == 0)
    then (true, true, nav_area_water)
    else if not (bit_and t 0x05 == 0)
    then (true, true, nav_area_magma_slime)
    else (true, false, t)

unfoldable pub liquid_choice :
    (liquid_type_loaded : Bool)
    → (liquid_verts ltriangles liquid_flags : List ℕ) → (square : ℕ) → Bool × Bool × ℕ
unfolding area_of get_liquid_type
liquid_choice liquid_type_loaded liquid_verts ltriangles liquid_flags square =
    if not liquid_type_loaded || (is_empty liquid_verts || is_empty ltriangles)
    then (true, false, map_liquid_type_no_water)
    else area_of (get_liquid_type square liquid_flags)

-- The place of a vertex's height among the coordinates.
unfoldable pub height_place : (tris : List ℕ) → ℕ → ℕ
unfolding as_usize
height_place tris k = as_usize (get_or tris k 0) * 3 + 1

module _ (float : FloatOps) where
  unfoldable pub terrain_verts : (tile_x tile_y : ℕ) → (v9 v8 : List ℕ) → List ℕ
  unfolding concat_map count_up pushed get_height_coord tile_offset
  terrain_verts tile_x tile_y v9 v8 =
      let xoffset = tile_offset float tile_x in
      let yoffset = tile_offset float tile_y in
      concat_map (λ i. pushed (get_height_coord float i v9_grid xoffset yoffset v9))
        (count_up v9_size_sq 0)
      ++ concat_map (λ i. pushed (get_height_coord float i v8_grid xoffset yoffset v8))
          (count_up v8_size_sq 0)

  -- The vertices of a liquid with heights: a vertex outside its window is a dummy, the others
  -- take the heights in their order.
  unfoldable pub window_verts : (rounds i j xoffset yoffset : ℕ) → Liquid → List ℕ → List ℕ
  unfolding pushed get_liquid_coord grid_coord
  window_verts zero i j xoffset yoffset l lmap = []
  window_verts (suc rounds) i j xoffset yoffset l lmap =
      let row = i / v9_size in
      let col = i % v9_size in
      let outside =
        ltb row l.offset_y
        || (leb (l.offset_y + l.height) row
            || (ltb col l.offset_x || leb (l.offset_x + l.width) col)) in
      let dummy =
        grid_coord float xoffset col ∷ invalid_map_liq_height ∷ grid_coord float yoffset row ∷ [] in
      let after_dummy = window_verts rounds (suc i) j xoffset yoffset l lmap in
      let after_vert = window_verts rounds (suc i) (suc j) xoffset yoffset l lmap in
      if outside
      then dummy ++ after_dummy
      else pushed (get_liquid_coord float i j xoffset yoffset lmap) ++ after_vert

  unfoldable pub level_verts : (xoffset yoffset level : ℕ) → List ℕ
  unfolding concat_map count_up grid_coord
  level_verts xoffset yoffset level =
      concat_map
        (λ i.
          grid_coord float xoffset (i % v9_size)
          ∷ level
          ∷ grid_coord float yoffset (i / v9_size)
          ∷ [])
        (count_up v9_size_sq 0)

  unfoldable pub liquid_verts_of : (tile_x tile_y : ℕ) → Liquid → Option (List ℕ) → List ℕ
  unfolding window_verts level_verts tile_offset
  liquid_verts_of tile_x tile_y l none =
      level_verts (tile_offset float tile_x) (tile_offset float tile_y) l.liquid_level
  liquid_verts_of tile_x tile_y l (some lmap) =
      window_verts v9_size_sq 0 0 (tile_offset float tile_x) (tile_offset float tile_y) l lmap
