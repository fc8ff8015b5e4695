-- ===== src/Extractors/Terrain/Portion.antt =====
-- `load_map_portion` and `load_map` of crates/extractors/src/movemap_gen.rs, from the loaded grids on.
use cmangos_tbc.Base.{
  ℕ, ◌+◌, ◌-◌, ◌/◌, ◌%◌, ◌^◌, Bool, false, not, ◌&&◌, ◌||◌, Option, none, some, List, [], ◌∷◌, ◌++◌,
  if◌then◌else◌, ◌==◌, ltb, get_or, length, take, drop, zero, suc,
}
use cmangos_tbc.Extractors.Float.{FloatOps}
use cmangos_tbc.Extractors.MapTables.{set_at}
use cmangos_tbc.Extractors.MapFile.Load.{Terrain, Liquid, v9_size_sq, v8_size_sq}
use cmangos_tbc.Extractors.MapFile.Load
use cmangos_tbc.Extractors.Terrain.{
  Spot, top, right, left, bottom, entire, as_i32, squares, is_hole, invalid_map_liq_height,
  invalid_map_liq_height_max,
}
use cmangos_tbc.Extractors.Terrain.Shape.{
  MeshData, is_empty, terrain_triangles, liquid_triangles, liquid_choice, height_place,
  terrain_verts, liquid_verts_of,
}

module _ (float : FloatOps) where
  -- One of the three vertices of a liquid triangle: the sum of the valid heights, and their number.
  unfoldable pub add_valid : (verts tris : List ℕ) → (k : ℕ) → ℕ × ℕ → ℕ × ℕ
  unfolding height_place
  add_valid verts tris k (sum, valid) =
      let place = height_place tris k in
      let h = get_or verts place 0 in
      if ltb place (length verts)
        && (not (float.eq h invalid_map_liq_height) && float.lt h invalid_map_liq_height_max)
      then (float.add sum h, suc valid)
      else (sum, valid)

  unfoldable pub valid_heights : (verts tris : List ℕ) → (lt_idx : ℕ) → ℕ × ℕ
  unfolding add_valid
  valid_heights verts tris lt_idx =
      add_valid verts tris (lt_idx + 2)
        (add_valid verts tris (lt_idx + 1) (add_valid verts tris lt_idx (0, 0)))

  -- A vertex without a valid height gets the mean of the others.
  unfoldable pub patch_vert : (tris : List ℕ) → (quad_height k : ℕ) → List ℕ → List ℕ
  unfolding height_place set_at
  patch_vert tris quad_height k verts =
      let place = height_place tris k in
      let h = get_or verts place 0 in
      if ltb place (length verts)
        && (float.eq h invalid_map_liq_height || float.lt invalid_map_liq_height_max h)
      then set_at place quad_height verts
      else verts

  unfoldable pub patch_verts : (tris : List ℕ) → (lt_idx : ℕ) → ℕ × ℕ → List ℕ → List ℕ
  unfolding patch_vert
  patch_verts tris lt_idx (sum, valid) verts =
      let mean = float.div sum (float.from_int valid) in
      if ltb 0 valid && ltb valid 3
      then patch_vert tris mean (lt_idx + 2)
          (patch_vert tris mean (lt_idx + 1) (patch_vert tris mean lt_idx verts))
      else verts

  -- The highest of the liquid's vertices and the lowest of the terrain's.
  unfoldable pub highest : (rounds k : ℕ) → (verts tris : List ℕ) → ℕ → ℕ
  unfolding height_place
  highest zero k verts tris level = level
  highest (suc rounds) k verts tris level =
      let place = height_place tris k in
      let h = get_or verts place 0 in
      highest rounds (suc k) verts tris
        (if ltb k (length tris) && (ltb place (length verts) && float.lt level h) then h else level)

  unfoldable pub lowest : (rounds k : ℕ) → (verts tris : List ℕ) → ℕ → ℕ
  unfolding height_place
  lowest zero k verts tris level = level
  lowest (suc rounds) k verts tris level =
      let place = height_place tris k in
      let h = get_or verts place 0 in
      lowest rounds (suc k) verts tris
        (if ltb k (length tris) && (ltb place (length verts) && float.lt h level) then h else level)

  -- The terrain lies over the liquid everywhere.
  unfoldable pub is_covered :
      (m : MeshData) → (ltriangles ttriangles : List ℕ) → (lt_idx tt_idx : ℕ) → Bool
  unfolding highest lowest
  is_covered m ltriangles ttriangles lt_idx tt_idx =
      float.lt (highest 3 lt_idx m.liquid_verts ltriangles invalid_map_liq_height)
        (lowest 6 tt_idx m.solid_verts ttriangles invalid_map_liq_height_max)

  module _ (liquid_type_loaded : Bool)
      (liquid_flags holes lverts_copy ltriangles ttriangles : List ℕ) where
    -- The vertices after the patch, and whether the liquid is still used.
    unfoldable pub patched : (use_liquid : Bool) → (lt_idx : ℕ) → MeshData → Bool × MeshData
    unfolding valid_heights patch_verts
    patched use_liquid lt_idx m =
        let heights = valid_heights lverts_copy ltriangles lt_idx in
        if use_liquid && ltb (lt_idx + 2) (length ltriangles)
        then (
          not (heights.1 == 0),
          record m { liquid_verts = patch_verts ltriangles lt_idx heights m.liquid_verts },
        )
        else (use_liquid, m)

    unfoldable pub store_liquid : (use_liquid : Bool) → (area lt_idx : ℕ) → MeshData → MeshData
    store_liquid use_liquid area lt_idx m =
        if use_liquid
        then record m {
          liquid_type = m.liquid_type ++ (area ∷ []);
          liquid_tris = m.liquid_tris ++ take 3 (drop lt_idx ltriangles);
        }
        else m

    unfoldable pub store_terrain : (use_terrain : Bool) → (tt_idx : ℕ) → MeshData → MeshData
    store_terrain use_terrain tt_idx m =
        if use_terrain
        then record m { solid_tris = m.solid_tris ++ take 6 (drop tt_idx ttriangles) }
        else m

    -- One half of a square: which of the two surfaces is kept.
    unfoldable pub resolve_half : (square lt_idx tt_idx : ℕ) → MeshData → MeshData
    unfolding liquid_choice patched is_hole is_covered store_liquid store_terrain
    resolve_half square lt_idx tt_idx m =
        let (terrain, liquid, area) =
          liquid_choice liquid_type_loaded m.liquid_verts ltriangles liquid_flags square in
        let (use_liquid, m') = patched liquid lt_idx m in
        let use_terrain = (terrain && not (is_empty ttriangles)) && not (is_hole square holes) in
        let covered =
          use_terrain && (use_liquid && is_covered m' ltriangles ttriangles lt_idx tt_idx) in
        store_terrain use_terrain tt_idx (store_liquid (use_liquid && not covered) area lt_idx m')

    unfoldable pub resolve : (squares : List ℕ) → (lt_idx tt_idx : ℕ) → MeshData → MeshData
    unfolding resolve_half
    resolve [] lt_idx tt_idx m = m
    resolve (i ∷ rest) lt_idx tt_idx m =
        resolve rest (lt_idx + 6) (tt_idx + 12)
          (resolve_half i (lt_idx + 3) (tt_idx + 6) (resolve_half i lt_idx tt_idx m))

  -- The vertices and triangles of the terrain: `none` where the tile has none.
  unfoldable pub with_terrain :
      (tile_x tile_y : ℕ) → Spot → Option Terrain → MeshData → List ℕ × MeshData
  unfolding terrain_verts terrain_triangles
  with_terrain tile_x tile_y portion none m = ([], m)
  with_terrain tile_x tile_y portion (some t) m = (
    terrain_triangles (as_i32 (length m.solid_verts / 3)) portion,
    record m { solid_verts = m.solid_verts ++ terrain_verts float tile_x tile_y t.v9 t.v8 },
  )

  unfoldable pub with_liquid :
      (tile_x tile_y : ℕ) → Spot → Option Liquid → MeshData → List ℕ × MeshData
  unfolding liquid_verts_of liquid_triangles
  with_liquid tile_x tile_y portion none m = ([], m)
  with_liquid tile_x tile_y portion (some l) m = (
    liquid_triangles (as_i32 (length m.liquid_verts / 3)) portion,
    record m {
      liquid_verts = m.liquid_verts ++ liquid_verts_of float tile_x tile_y l l.liquid_map;
    },
  )

  abbrev pub type_loaded : Option Liquid → Bool
  type_loaded none = false
  type_loaded (some l) = l.liquid_type_loaded

  abbrev pub flags_of : Option Liquid → List ℕ
  flags_of none = []
  flags_of (some l) = l.liquid_flags

  abbrev pub holes_of : Option Terrain → List ℕ
  holes_of none = []
  holes_of (some t) = t.holes

  -- What was loaded as a part of the mesh, and whether the mesh has triangles then.
  unfoldable pub add_portion :
      (tile_x tile_y : ℕ) → Spot → Option Terrain × Option Liquid → MeshData → Bool × MeshData
  unfolding with_terrain with_liquid resolve squares
  add_portion tile_x tile_y portion (t, l) m =
      let (ttriangles, m1) = with_terrain tile_x tile_y portion t m in
      let (ltriangles, m2) = with_liquid tile_x tile_y portion l m1 in
      let m3 =
        resolve (type_loaded l) (flags_of l) (holes_of t) m2.liquid_verts ltriangles ttriangles
          (squares portion) 0 0 m2 in
      if is_empty ltriangles && is_empty ttriangles
      then (false, m2)
      else (not (is_empty m3.solid_tris) || not (is_empty m3.liquid_tris), m3)

  unfoldable pub if_loaded :
      (tile_x tile_y : ℕ)
      → Spot
      → Option (Option Terrain × Option Liquid)
      → MeshData
      → Bool × MeshData
  unfolding add_portion
  if_loaded tile_x tile_y portion none m = (false, m)
  if_loaded tile_x tile_y portion (some loaded) m = add_portion tile_x tile_y portion loaded m

  abbrev pub open_portion :
      (skip_liquid : Bool) → Option (List ℕ) → Option (Option Terrain × Option Liquid)
  open_portion skip_liquid none = none
  open_portion skip_liquid (some file) = Load.load_map float skip_liquid file

  -- The map files of a map are the parameter `files`, by the tile's x and y.
  module _ (skip_liquid : Bool) (files : (tile_x tile_y : ℕ) → Option (List ℕ)) where
    unfoldable pub load_map_portion : (tile_x tile_y : ℕ) → MeshData → Spot → Bool × MeshData
    unfolding if_loaded
    load_map_portion tile_x tile_y m portion =
        if_loaded tile_x tile_y portion (open_portion skip_liquid (files tile_x tile_y)) m

    -- The tile itself, and the borders of its four neighbours. `wrapping_sub(1)` adds 2^32 - 1.
    unfoldable pub load_map : (tile_x tile_y : ℕ) → MeshData → MeshData
    unfolding load_map_portion
    load_map tile_x tile_y m =
        let (loaded, m0) = load_map_portion tile_x tile_y m entire in
        let before = 2 ^ 32 - 1 in
        let m1 = (load_map_portion ((tile_x + 1) % 2 ^ 32) tile_y m0 left).1 in
        let m2 = (load_map_portion ((tile_x + before) % 2 ^ 32) tile_y m1 right).1 in
        let m3 = (load_map_portion tile_x ((tile_y + 1) % 2 ^ 32) m2 top).1 in
        let m4 = (load_map_portion tile_x ((tile_y + before) % 2 ^ 32) m3 bottom).1 in
        if loaded then m4 else m0
