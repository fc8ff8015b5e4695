-- ===== src/Extractors/Terrain/Clean.antt =====
-- `clean_vertices` and `get_tile_bounds` of crates/extractors/src/movemap_gen.rs.
pub mod Corners
use cmangos_tbc.Base.{
  ℕ, ◌+◌, ◌-◌, ◌*◌, ◌%◌, ◌^◌, Bool, List, [], ◌∷◌, ◌++◌, if◌then◌else◌, ltb, get_or, length, map,
  zero, suc, true, false,
}
use cmangos_tbc.Extractors.Float.{FloatOps}
use cmangos_tbc.Extractors.Dbc.{unwrap_or}
use cmangos_tbc.Extractors.Spawn.{TreeMap, get, update_or}
use cmangos_tbc.Extractors.Terrain.{as_i32, as_usize, grid_size}

-- An i32 as a key: the order of the keys is that of the i32 values. The inverse is the same.
unfoldable pub key_of : ℕ → ℕ
key_of v = (v + 2 ^ 31) % 2 ^ 32

-- The numbers that the triangles use, each with 0.
unfoldable pub collect : (tris : List ℕ) → TreeMap ℕ → TreeMap ℕ
unfolding key_of update_or
collect [] vert_map = vert_map
collect (t ∷ tris) vert_map = collect tris (update_or (key_of t) 0 (λ old. old) vert_map)

-- The coordinates of a vertex, if they are there.
unfoldable pub vertex_at : (verts : List ℕ) → (key : ℕ) → List ℕ
unfolding key_of as_usize
vertex_at verts key =
    let idx = as_usize (key_of key) in
    if ltb (idx * 3 + 2) (length verts)
    then get_or verts (idx * 3) 0 ∷ get_or verts (idx * 3 + 1) 0 ∷ get_or verts (idx * 3 + 2) 0 ∷ []
    else []

-- The entries of the map get their new numbers, and their vertices are copied, in the same order.
unfoldable pub number : (verts : List ℕ) → (count : ℕ) → TreeMap ℕ → TreeMap ℕ × List ℕ
unfolding vertex_at
number verts count [] = ([], [])
number verts count ((key, old) ∷ vert_map) =
    let (numbered, clean_verts) = number verts (suc count) vert_map in
    ((key, as_i32 count) ∷ numbered, vertex_at verts key ++ clean_verts)

unfoldable pub renumber : TreeMap ℕ → ℕ → ℕ
unfolding key_of get
renumber vert_map t = unwrap_or t (get (key_of t) vert_map)

unfoldable pub clean_vertices : (verts tris : List ℕ) → List ℕ × List ℕ
unfolding collect number renumber
clean_vertices verts [] = (verts, [])
clean_vertices verts (t ∷ tris) =
    let (vert_map, clean_verts) = number verts 0 (collect (t ∷ tris) []) in
    (clean_verts, map (renumber vert_map) (t ∷ tris))

module _ (float : FloatOps) where
  -- The lowest and the highest of each coordinate.
  unfoldable pub bounds_loop :
      (rounds i : ℕ) → (verts : List ℕ) → (low high : ℕ × ℕ × ℕ) → (ℕ × ℕ × ℕ) × (ℕ × ℕ × ℕ)
  bounds_loop zero i verts low high = (low, high)
  bounds_loop (suc rounds) i verts (lx, ly, lz) (hx, hy, hz) =
      let x = get_or verts (i * 3) 0 in
      let y = get_or verts (i * 3 + 1) 0 in
      let z = get_or verts (i * 3 + 2) 0 in
      bounds_loop rounds (suc i) verts (float.min lx x, float.min ly y, float.min lz z)
        (float.max hx x, float.max hy y, float.max hz z)

  -- `(32 - tile as i32) as f32 * GRID_SIZE`; the tile is the i32 with its bits.
  unfoldable pub tile_end : ℕ → ℕ
  tile_end tile =
      let n = (32 + (2 ^ 32 - tile % 2 ^ 32)) % 2 ^ 32 in
      float.mul
        (if ltb n (2 ^ 31) then float.from_int n else float.neg (float.from_int (2 ^ 32 - n)))
        grid_size

  -- f32::MAX and f32::MIN.
  abbrev pub f32_max : ℕ
  f32_max = 0x7F7FFFFF

  abbrev pub f32_min : ℕ
  f32_min = 0xFF7FFFFF

  unfoldable pub vertex_bounds : (verts : List ℕ) → (vert_count : ℕ) → (ℕ × ℕ × ℕ) × (ℕ × ℕ × ℕ)
  unfolding bounds_loop
  vertex_bounds verts zero = ((0, f32_min, 0), (0, f32_max, 0))
  vertex_bounds verts (suc n) =
      bounds_loop (suc n) 0 verts (f32_max, f32_max, f32_max) (f32_min, f32_min, f32_min)

  -- The height comes from the vertices, the width and the depth from the tile.
  unfoldable pub get_tile_bounds :
      (tile_x tile_y : ℕ) → (verts : List ℕ) → (vert_count : ℕ) → (ℕ × ℕ × ℕ) × (ℕ × ℕ × ℕ)
  unfolding vertex_bounds tile_end
  get_tile_bounds tile_x tile_y verts vert_count =
      let (low, high) = vertex_bounds verts vert_count in
      let x = tile_end tile_x in
      let z = tile_end tile_y in
      ((float.sub x grid_size, low.1, float.sub z grid_size), (x, high.1, z))
