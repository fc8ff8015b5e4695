-- ===== src/Extractors/Terrain/Loading.antt =====
-- A mesh stays well formed while the portions of a tile and its neighbours are added.
use cmangos_tbc.Base.{
  ℕ, ◌+◌, ◌*◌, ◌/◌, ◌%◌, ◌^◌, ◌<◌, ◌≤◌, ◌≡◌, refl, Bool, ◌&&◌, Option, none, some, List, [], ◌∷◌,
  ◌++◌, length, length-append, arith, zero, suc, inl, inr, Bool-cases, ◌-◌,
}
use cmangos_tbc.Extractors.Float.{FloatOps}
use cmangos_tbc.Extractors.MapFile.Load.{Terrain as Loaded, Liquid, v9_size_sq, v8_size_sq}
use cmangos_tbc.Extractors.Terrain
use cmangos_tbc.Extractors.Terrain.{
  Spot, top, right, left, bottom, entire, as_i32, squares, get_liquid_type, is_hole,
  get_height_coord, v8_grid, v9_grid,
}
use cmangos_tbc.Extractors.Terrain.Portion
use cmangos_tbc.Extractors.Terrain.Shape.{
  MeshData, is_empty, count_up, pushed, terrain_verts, window_verts, level_verts, liquid_verts_of,
  terrain_triangles, liquid_triangles,
}
use cmangos_tbc.Extractors.Terrain.Portion.{
  patch_vert, patch_verts, patched, valid_heights, store_liquid, store_terrain, is_covered,
  resolve_half, resolve, with_terrain, with_liquid, type_loaded, flags_of, holes_of, add_portion,
  if_loaded, open_portion, load_map_portion,
}
use cmangos_tbc.Extractors.Terrain.Indices.{
  All-imply, length-concat_map_of, length-count_up, terrain_triangles-lt, liquid_triangles-lt,
  length-terrain_triangles, length-liquid_triangles,
}
use cmangos_tbc.Extractors.Terrain.WellFormed.{
  IsInside, IsMesh, IsInside-more, HasLeft, resolve-Kept,
}

length-terrain_verts :
    (float : FloatOps) (tile_x tile_y : ℕ) (v9 v8 : List ℕ)
    → length (terrain_verts float tile_x tile_y v9 v8) ≡ 99075
unfolding terrain_verts pushed get_height_coord
length-terrain_verts float tile_x tile_y v9 v8 =
    let first =
      length-concat_map_of 3
        (λ i. pushed (
          get_height_coord float i v9_grid (Terrain.tile_offset float tile_x)
            (Terrain.tile_offset float tile_y) v9))
        (count_up v9_size_sq 0) (λ i. refl) in
    let second =
      length-concat_map_of 3
        (λ i. pushed (
          get_height_coord float i v8_grid (Terrain.tile_offset float tile_x)
            (Terrain.tile_offset float tile_y) v8))
        (count_up v8_size_sq 0) (λ i. refl) in
    omega (
      arith,
      first,
      second,
      length-count_up v9_size_sq 0,
      length-count_up v8_size_sq 0,
      length-append {0},
    )

length-window_verts :
    (float : FloatOps) (rounds i j xoffset yoffset : ℕ) (l : Liquid) (lmap : List ℕ)
    → length (window_verts float rounds i j xoffset yoffset l lmap) ≡ rounds * 3
unfolding window_verts
length-window_verts float zero i j xoffset yoffset l lmap = refl
length-window_verts float (suc rounds) i j xoffset yoffset l lmap = ground (
  arith,
  length-window_verts float rounds (suc i) j xoffset yoffset l lmap,
  length-window_verts float rounds (suc i) (suc j) xoffset yoffset l lmap,
)

length-liquid_verts_of :
    (float : FloatOps) (tile_x tile_y : ℕ) (l : Liquid) (heights : Option (List ℕ))
    → length (liquid_verts_of float tile_x tile_y l heights) ≡ 49923
unfolding liquid_verts_of level_verts
length-liquid_verts_of float tile_x tile_y l none = omega (
  arith,
  length-concat_map_of 3
      (λ i.
        Terrain.grid_coord float (Terrain.tile_offset float tile_x) (i % 129)
        ∷ l.liquid_level
        ∷ Terrain.grid_coord float (Terrain.tile_offset float tile_y) (i / 129)
        ∷ [])
      (count_up v9_size_sq 0) (λ i. refl),
  length-count_up v9_size_sq 0,
)
length-liquid_verts_of float tile_x tile_y l (some lmap) =
    length-window_verts float v9_size_sq 0 0 (Terrain.tile_offset float tile_x)
      (Terrain.tile_offset float tile_y) l lmap

-- What a portion adds before its triangles are chosen: the mesh is well formed, with the new vertices,
-- and all of the portion's triangles name vertices.
module _ (float : FloatOps) (tile_x tile_y : ℕ) (portion : Spot) where
  record HasTerrain (m : MeshData) (added : List ℕ × MeshData) : Type 0 where
    pub mesh : IsMesh added.1
    pub inside : IsInside (length added.1.solid_verts) added.0
    pub left : HasLeft added.0 0 (length (squares portion) * 12)
    pub grown : length added.1.solid_verts ≤ length m.solid_verts + 99075
    pub same : length added.1.liquid_verts ≡ length m.liquid_verts

  with_terrain-HasTerrain :
      (t : Option Loaded) (m : MeshData)
      → IsMesh m
      → length m.solid_verts + 99075 < 2 ^ 32
      → HasTerrain m (with_terrain float tile_x tile_y portion t m)
  unfolding with_terrain
  with_terrain-HasTerrain none m w small = record {
    mesh = w;
    inside = tt;
    left = inl refl;
    grown = omega arith;
    same = refl;
  }
  with_terrain-HasTerrain (some t) m w small =
      let count = length m.solid_verts / 3 in
      let new = terrain_verts float tile_x tile_y t.v9 t.v8 in
      let size : length new ≡ 99075 = length-terrain_verts float tile_x tile_y t.v9 t.v8 in
      let total : length (m.solid_verts ++ new) ≡ length m.solid_verts + length new =
        length-append m.solid_verts new in
      let exact : as_i32 count ≡ count = omega arith in
      record {
        mesh = record {
          solid_inside = IsInside-more _ _ m.solid_tris (omega arith) w.solid_inside;
          liquid_inside = w.liquid_inside;
          solid_threes = w.solid_threes;
          liquid_typed = w.liquid_typed;
        };
        inside = rw exact (
            All-imply (λ v. v < count + 33025) _ (terrain_triangles count portion)
              (λ v h. omega arith) (terrain_triangles-lt count portion (omega arith)));
        left = inr (omega (arith, length-terrain_triangles (as_i32 count) portion));
        grown = omega arith;
        same = refl;
      }

  record HasLiquid (m : MeshData) (added : List ℕ × MeshData) : Type 0 where
    pub mesh : IsMesh added.1
    pub inside : IsInside (length added.1.liquid_verts) added.0
    pub left : HasLeft added.0 0 (length (squares portion) * 6)
    pub grown : length added.1.liquid_verts ≤ length m.liquid_verts + 49923
    pub same : length added.1.solid_verts ≡ length m.solid_verts

  with_liquid-HasLiquid :
      (l : Option Liquid) (m : MeshData)
      → IsMesh m
      → length m.liquid_verts + 49923 < 2 ^ 32
      → HasLiquid m (with_liquid float tile_x tile_y portion l m)
  unfolding with_liquid
  with_liquid-HasLiquid none m w small = record {
    mesh = w;
    inside = tt;
    left = inl refl;
    grown = omega arith;
    same = refl;
  }
  with_liquid-HasLiquid (some l) m w small =
      let count = length m.liquid_verts / 3 in
      let new = liquid_verts_of float tile_x tile_y l l.liquid_map in
      let size : length new ≡ 49923 = length-liquid_verts_of float tile_x tile_y l l.liquid_map in
      let total : length (m.liquid_verts ++ new) ≡ length m.liquid_verts + length new =
        length-append m.liquid_verts new in
      let exact : as_i32 count ≡ count = omega arith in
      record {
        mesh = record {
          solid_inside = w.solid_inside;
          liquid_inside = IsInside-more _ _ m.liquid_tris (omega arith) w.liquid_inside;
          solid_threes = w.solid_threes;
          liquid_typed = w.liquid_typed;
        };
        inside = rw exact (
            All-imply (λ v. v < count + 16641) _ (liquid_triangles count portion)
              (λ v h. omega arith) (liquid_triangles-lt count portion (omega arith)));
        left = inr (omega (arith, length-liquid_triangles (as_i32 count) portion));
        grown = omega arith;
        same = refl;
      }

-- A well-formed mesh, and how far its vertices have grown.
record Grown (solid liquid : ℕ) (m : MeshData) : Type 0 where
  pub mesh : IsMesh m
  pub solid_size : length m.solid_verts ≤ solid
  pub liquid_size : length m.liquid_verts ≤ liquid

add_portion-Grown :
    (float : FloatOps) (tile_x tile_y : ℕ) (portion : Spot) (loaded : Option Loaded × Option Liquid)
    (solid liquid : ℕ) (m : MeshData)
    → solid + 99075 < 2 ^ 32
    → liquid + 49923 < 2 ^ 32
    → Grown solid liquid m
    → Grown (solid + 99075) (liquid + 49923) (add_portion float tile_x tile_y portion loaded m).1
unfolding add_portion
add_portion-Grown float tile_x tile_y portion (t, l) solid liquid m small_s small_l g =
    let in_s = g.solid_size in
    let in_l = g.liquid_size in
    let (tts, m1) = with_terrain float tile_x tile_y portion t m in
    let a = with_terrain-HasTerrain float tile_x tile_y portion t m g.mesh (omega arith) in
    let a_grown = a.grown in
    let a_same = a.same in
    let (lts, m2) = with_liquid float tile_x tile_y portion l m1 in
    let b = with_liquid-HasLiquid float tile_x tile_y portion l m1 a.mesh (omega arith) in
    let b_grown = b.grown in
    let b_same = b.same in
    let inside : IsInside (length m2.solid_verts) tts = rw b_same a.inside in
    let kept =
      resolve-Kept float (type_loaded float l) (flags_of float l) (holes_of float t) m2.liquid_verts
        lts tts (length m2.solid_verts) (length m2.liquid_verts) inside b.inside (squares portion) 0
        0 m2 b.left a.left (record { mesh = b.mesh; solid_size = refl; liquid_size = refl }) in
    let kept_s = kept.solid_size in
    let kept_l = kept.liquid_size in
    elim (Bool-cases (is_empty lts && is_empty tts)) [
      | inl nothing ↦
          rw nothing (record { mesh = b.mesh; solid_size = omega arith; liquid_size = omega arith })
      | inr something ↦
          rw something
            (record { mesh = kept.mesh; solid_size = omega arith; liquid_size = omega arith })
    ]

if_loaded-Grown :
    (float : FloatOps) (tile_x tile_y : ℕ) (portion : Spot)
    (loaded : Option (Option Loaded × Option Liquid)) (solid liquid : ℕ) (m : MeshData)
    → solid + 99075 < 2 ^ 32
    → liquid + 49923 < 2 ^ 32
    → Grown solid liquid m
    → Grown (solid + 99075) (liquid + 49923) (if_loaded float tile_x tile_y portion loaded m).1
unfolding if_loaded
if_loaded-Grown float tile_x tile_y portion none solid liquid m small_s small_l g =
    let in_s = g.solid_size in
    let in_l = g.liquid_size in
    record { mesh = g.mesh; solid_size = omega arith; liquid_size = omega arith }
if_loaded-Grown float tile_x tile_y portion (some loaded) solid liquid m small_s small_l g =
    add_portion-Grown float tile_x tile_y portion loaded solid liquid m small_s small_l g

-- Whatever the map files hold, loading a tile with the borders of its neighbours leaves a well-formed
-- mesh well formed: each triangle of the terrain and of the liquid names vertices that are there,
-- the numbers come in threes, and each triangle of the liquid has one type. The mesh had so few
-- vertices that the numbers of five portions more fit an i32.
pub load_map-IsMesh :
    (float : FloatOps) (skip_liquid : Bool) (files : (tile_x tile_y : ℕ) → Option (List ℕ))
    (tile_x tile_y : ℕ) (m : MeshData)
    → IsMesh m
    → length m.solid_verts + 5 * 99075 < 2 ^ 31
    → length m.liquid_verts + 5 * 49923 < 2 ^ 31
    → IsMesh (Portion.load_map float skip_liquid files tile_x tile_y m)
unfolding Portion.load_map load_map_portion
load_map-IsMesh float skip_liquid files tile_x tile_y m w small_s small_l =
    let s = length m.solid_verts in
    let l = length m.liquid_verts in
    let load : ℕ → ℕ → MeshData → Spot → Bool × MeshData =
      load_map_portion float skip_liquid files in
    let step =
      λ (x y : ℕ) (p : Spot) (a b : ℕ) (n : MeshData) (ha : a + 99075 < 2 ^ 32)
          (hb : b + 49923 < 2 ^ 32) (g : Grown a b n).
        if_loaded-Grown float x y p (open_portion float skip_liquid (files x y)) a b n ha hb g in
    let before = 2 ^ 32 - 1 in
    let start : Grown s l m = record {
      mesh = w;
      solid_size = omega arith;
      liquid_size = omega arith;
    } in
    let g0 = step tile_x tile_y entire s l m (omega arith) (omega arith) start in
    let (loaded, m0) = load tile_x tile_y m entire in
    let g1 = step ((tile_x + 1) % 2 ^ 32) tile_y left _ _ m0 (omega arith) (omega arith) g0 in
    let m1 = (load ((tile_x + 1) % 2 ^ 32) tile_y m0 left).1 in
    let g2 = step ((tile_x + before) % 2 ^ 32) tile_y right _ _ m1 (omega arith) (omega arith) g1 in
    let m2 = (load ((tile_x + before) % 2 ^ 32) tile_y m1 right).1 in
    let g3 = step tile_x ((tile_y + 1) % 2 ^ 32) top _ _ m2 (omega arith) (omega arith) g2 in
    let m3 = (load tile_x ((tile_y + 1) % 2 ^ 32) m2 top).1 in
    let g4 =
      step tile_x ((tile_y + before) % 2 ^ 32) bottom _ _ m3 (omega arith) (omega arith) g3 in
    elim (Bool-cases loaded) [
      | inl yes_loaded ↦ rw yes_loaded g4.mesh
      | inr not_loaded ↦ rw not_loaded g0.mesh
    ]
