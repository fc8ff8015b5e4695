-- ===== src/Extractors/Vmap/Models.antt =====
-- `load_vmap` of crates/extractors/src/movemap_gen.rs: the models of a map's tree file are added to the
-- mesh. `none` is a panic, at a height that a liquid does not have.
use cmangos_tbc.Base.{
  ℕ, ◌+◌, ◌*◌, ◌/◌, ◌%◌, ◌^◌, Bool, true, false, not, ◌&&◌, Option, none, some, List, [], ◌∷◌, ◌++◌,
  map, if◌then◌else◌, ◌==◌, ltb, length, get_or, bit_and, zero, suc,
}
use cmangos_tbc.Base.Text.{Text}
use cmangos_tbc.Extractors.Reader.{concat_map}
use cmangos_tbc.Extractors.Float.{FloatOps}
use cmangos_tbc.Extractors.Spawn.{Vec3}
use cmangos_tbc.Extractors.Terrain.{as_i32, grid_part_size, nav_area_water, nav_area_magma_slime}
use cmangos_tbc.Extractors.Terrain.Shape.{MeshData}
use cmangos_tbc.Extractors.Vmap.{
  ModelSpawnData, VmapLiquidData, Triple, GroupData, read_model_spawn, load_world_model,
  read_tree_header, is_m2_name,
}

infixl 5 ◌>>=◌
abbrev pub ◌>>=◌ : {A B : Type 0} → Option A → (A → Option B) → Option B
none >>= f = none
some a >>= f = f a

abbrev pub Matrix3 : Type 0
Matrix3 = Vec3 × Vec3 × Vec3

-- The types of liquids as areas.
unfoldable pub vmap_area : ℕ → ℕ
vmap_area liq_type = if ltb (bit_and liq_type 3) 2 then nav_area_water else nav_area_magma_slime

-- A triangle is turned for a model of the kind M2.
unfoldable pub pushed_triple : (is_m2 : Bool) → (offset : ℕ) → Triple → List ℕ
pushed_triple true offset (a, b, c) =
    as_i32 (c + offset) ∷ as_i32 (b + offset) ∷ as_i32 (a + offset) ∷ []
pushed_triple false offset (a, b, c) =
    as_i32 (a + offset) ∷ as_i32 (b + offset) ∷ as_i32 (c + offset) ∷ []

-- The triangles of a tile of a liquid are stored from their second index on.
unfoldable pub pushed_liquid : (offset : ℕ) → Triple → List ℕ
pushed_liquid offset (a, b, c) =
    as_i32 (b + offset) ∷ as_i32 (c + offset) ∷ as_i32 (a + offset) ∷ []

-- Recast's order of the coordinates: y, z, x.
unfoldable pub pushed_vertex : Vec3 → List ℕ
pushed_vertex v = v.y ∷ v.z ∷ v.x ∷ []

-- The two triangles of a tile that is not marked as dry.
unfoldable pub tile_triples : (l : VmapLiquidData) → (x y : ℕ) → List Triple
tile_triples l x y =
    let flag_idx = (x + y * l.tiles_x) % 2 ^ 32 in
    let square = x * l.tiles_y + y in
    let idx1 = as_i32 (square + x) in
    let idx2 = as_i32 (square + 1 + x) in
    let idx3 = as_i32 (square + l.tiles_y + 1 + 1 + x) in
    let idx4 = as_i32 (square + l.tiles_y + 1 + x) in
    if ltb flag_idx (length l.flags) && not (bit_and (get_or l.flags flag_idx 0) 0x0F == 0x0F)
    then (idx3, idx2, idx1) ∷ (idx4, idx3, idx1) ∷ []
    else []

unfoldable pub row_triples : (l : VmapLiquidData) → (rounds x y : ℕ) → List Triple
unfolding tile_triples
row_triples l zero x y = []
row_triples l (suc rounds) x y = tile_triples l x y ++ row_triples l rounds x (suc y)

unfoldable pub liquid_triples : (l : VmapLiquidData) → (rounds x : ℕ) → List Triple
unfolding row_triples
liquid_triples l zero x = []
liquid_triples l (suc rounds) x = row_triples l l.tiles_y x 0 ++ liquid_triples l rounds (suc x)

module _ (float : FloatOps) where
  unfoldable pub matrix3_from_euler_xyz : (x y z : ℕ) → Matrix3
  matrix3_from_euler_xyz x y z =
      let cx = float.cos x in
      let sx = float.sin x in
      let cy = float.cos y in
      let sy = float.sin y in
      let cz = float.cos z in
      let sz = float.sin z in
      let mul = float.mul in
      let add = float.add in
      let neg = float.neg in
      (
        record { x = mul cy cz; y = mul (neg cy) sz; z = sy },
        record {
          x = add (mul (mul cz sx) sy) (mul cx sz);
          y = float.sub (mul cx cz) (mul (mul sx sy) sz);
          z = mul (neg cy) sx;
        },
        record {
          x = add (mul (mul (neg cx) cz) sy) (mul sx sz);
          y = add (mul cz sx) (mul (mul cx sy) sz);
          z = mul cx cy;
        },
      )

  unfoldable pub row_product : (row v : Vec3) → ℕ
  row_product row v =
      float.add (float.add (float.mul row.x v.x) (float.mul row.y v.y)) (float.mul row.z v.z)

  unfoldable pub mat3_mul_vec3 : Matrix3 → Vec3 → Vec3
  unfolding row_product
  mat3_mul_vec3 (a, b, c) v = record {
    x = row_product a v;
    y = row_product b v;
    z = row_product c v;
  }

  -- `PI * angle / -180.0`.
  unfoldable pub turned : ℕ → ℕ
  turned angle = float.div (float.mul 0x40490FDB angle) 0xC3340000

  unfoldable pub rotation_of : ModelSpawnData → Matrix3
  unfolding matrix3_from_euler_xyz turned
  rotation_of spawn =
      matrix3_from_euler_xyz (turned spawn.rot.z) (turned spawn.rot.x) (turned spawn.rot.y)

  -- 32 tiles less in x and y; `32.0 * GRID_SIZE` is 0x46855555.
  unfoldable pub position_of : ModelSpawnData → Vec3
  position_of spawn = record {
    x = float.sub spawn.pos.x 0x46855555;
    y = float.sub spawn.pos.y 0x46855555;
    z = spawn.pos.z;
  }

  -- A vertex is turned, scaled and moved; then x and y are multiplied by -1.0.
  unfoldable pub transformed : Matrix3 → (scale : ℕ) → (position : Vec3) → Vec3 → Vec3
  unfolding mat3_mul_vec3
  transformed rotation scale position v =
      let rotated = mat3_mul_vec3 rotation v in
      let moved : ℕ → ℕ → ℕ = λ r p. float.add (float.mul r scale) p in
      record {
        x = float.mul (moved rotated.x position.x) 0xBF800000;
        y = float.mul (moved rotated.y position.y) 0xBF800000;
        z = moved rotated.z position.z;
      }

  -- The corner of the tiles at `x` and `y`: `none` where the height is missing.
  unfoldable pub liquid_vertex : (l : VmapLiquidData) → (x y : ℕ) → Option Vec3
  liquid_vertex l x y =
      let place = (y * ((l.tiles_x + 1) % 2 ^ 32) + x) % 2 ^ 32 in
      let at : ℕ → ℕ → ℕ = λ c n. float.add c (float.mul (float.from_int n) grid_part_size) in
      if ltb place (length l.heights)
      then some (record { x = at l.corner.x x; y = at l.corner.y y; z = get_or l.heights place 0 })
      else none

  unfoldable pub row_vertices : (l : VmapLiquidData) → (rounds x y : ℕ) → Option (List Vec3)
  unfolding liquid_vertex
  row_vertices l zero x y = some []
  row_vertices l (suc rounds) x y = do
    v ← liquid_vertex l x y
    vs ← row_vertices l rounds x (suc y)
    some (v ∷ vs)

  unfoldable pub liquid_vertices : (l : VmapLiquidData) → (rounds x : ℕ) → Option (List Vec3)
  unfolding row_vertices
  liquid_vertices l zero x = some []
  liquid_vertices l (suc rounds) x = do
    row ← row_vertices l ((l.tiles_y + 1) % 2 ^ 32) x 0
    rows ← liquid_vertices l rounds (suc x)
    some (row ++ rows)

  -- The vertices and the triangles of a group.
  unfoldable pub add_solid :
      (is_m2 : Bool) → (place : Vec3 → Vec3) → GroupData → MeshData → MeshData
  unfolding concat_map pushed_vertex pushed_triple
  add_solid is_m2 place g m =
      let offset = as_i32 (length m.solid_verts / 3) in
      record m {
        solid_verts = m.solid_verts ++ concat_map pushed_vertex (map place g.vertices);
        solid_tris = m.solid_tris ++ concat_map (pushed_triple is_m2 offset) g.triangles;
      }

  -- One area for each triangle.
  unfoldable pub add_liquid_parts :
      (place : Vec3 → Vec3)
      → (area : ℕ) → (vertices : List Vec3) → (triples : List Triple) → MeshData
      → MeshData
  unfolding concat_map pushed_vertex pushed_liquid
  add_liquid_parts place area vertices triples m =
      let offset = as_i32 (length m.liquid_verts / 3) in
      record m {
        liquid_verts = m.liquid_verts ++ concat_map pushed_vertex (map place vertices);
        liquid_tris = m.liquid_tris ++ concat_map (pushed_liquid offset) triples;
        liquid_type = m.liquid_type ++ map (λ _. area) triples;
      }

  unfoldable pub add_liquid :
      (place : Vec3 → Vec3) → Option VmapLiquidData → MeshData → Option MeshData
  unfolding liquid_vertices liquid_triples add_liquid_parts vmap_area
  add_liquid place none m = some m
  add_liquid place (some l) m = do
    vertices ← liquid_vertices l ((l.tiles_x + 1) % 2 ^ 32) 0
    some (add_liquid_parts place (vmap_area l.liq_type) vertices (liquid_triples l l.tiles_x 0) m)

  unfoldable pub add_groups :
      (is_m2 : Bool) → (place : Vec3 → Vec3) → List GroupData → MeshData → Option MeshData
  unfolding add_solid add_liquid
  add_groups is_m2 place [] m = some m
  add_groups is_m2 place (g ∷ gs) m = do
    m' ← add_liquid place g.liquid (add_solid is_m2 place g m)
    add_groups is_m2 place gs m'

  unfoldable pub add_spawn : ModelSpawnData → List GroupData → MeshData → Option MeshData
  unfolding rotation_of position_of transformed is_m2_name add_groups
  add_spawn spawn groups m =
      add_groups (is_m2_name spawn.name)
        (transformed (rotation_of spawn) spawn.scale (position_of spawn)) groups m

  -- The models are the parameter `files`, by their names.
  module _ (files : Text → Option (List ℕ)) where
    -- A model that is not there or cannot be read is left out; the second value is whether one was read.
    unfoldable pub add_model :
        ModelSpawnData → Option (List GroupData) → Bool × MeshData → Option (Bool × MeshData)
    unfolding add_spawn
    add_model spawn none (found, m) = some (found, m)
    add_model spawn (some groups) (found, m) = do m' ← add_spawn spawn groups m; some (true, m')

    -- The spawns, until one cannot be read.
    unfoldable pub spawn_rounds : (rounds : ℕ) → List ℕ → Bool × MeshData → Option (Bool × MeshData)
    unfolding add_model
    spawn_rounds zero bytes state = some state
    spawn_rounds (suc rounds) bytes state = elim (read_model_spawn bytes) [
      | none ↦ some state
      | some (spawn, rest) ↦
          add_model spawn (load_world_model (files spawn.name)) state >>= spawn_rounds rounds rest
    ]

    unfoldable pub after_header : Option (ℕ × List ℕ) → MeshData → Option (Bool × MeshData)
    unfolding spawn_rounds
    after_header none m = some (false, m)
    after_header (some (n_values, bytes)) m = spawn_rounds n_values bytes (false, m)

    unfoldable pub load_vmap : (vmtree : Option (List ℕ)) → MeshData → Option (Bool × MeshData)
    unfolding after_header
    load_vmap none m = some (false, m)
    load_vmap (some vmtree) m =
        let rest = after_header (read_tree_header vmtree) m in
        if ltb (length vmtree) 12 then some (false, m) else rest
