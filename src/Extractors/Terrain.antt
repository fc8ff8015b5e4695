-- ===== src/Extractors/Terrain.antt =====
-- The geometry of a tile in crates/extractors/src/movemap_gen.rs: the squares of a portion, the
-- vertices of the grids, the triangles of a square, holes and liquid types. An i32 is the u32 with the
-- same bits.
pub mod Shape
pub mod Portion
pub mod Indices
pub mod WellFormed
pub mod Loading
pub mod Clean
use cmangos_tbc.Base.{
  ℕ, ◌+◌, ◌-◌, ◌*◌, ◌/◌, ◌%◌, ◌^◌, Bool, true, false, not, ◌||◌, List, [], ◌∷◌, ◌++◌, if◌then◌else◌,
  ◌==◌, leb, ltb, get_or, length, zero, suc, bit_and,
}
use cmangos_tbc.Extractors.Float.{FloatOps}

abbrev pub v9_size : ℕ
v9_size = 129

abbrev pub v8_size : ℕ
v8_size = 128

-- 533.3333, that divided by 128, and half of this.
abbrev pub grid_size : ℕ
grid_size = 0x44055555

abbrev pub grid_part_size : ℕ
grid_part_size = 0x40855555

abbrev pub half_part_size : ℕ
half_part_size = 0x40055555

-- -500.0 and 5000.0.
abbrev pub invalid_map_liq_height : ℕ
invalid_map_liq_height = 0xC3FA0000

abbrev pub invalid_map_liq_height_max : ℕ
invalid_map_liq_height_max = 0x459C4000

abbrev pub map_liquid_type_no_water : ℕ
map_liquid_type_no_water = 0

abbrev pub map_liquid_type_magma : ℕ
map_liquid_type_magma = 0x01

abbrev pub map_liquid_type_ocean : ℕ
map_liquid_type_ocean = 0x02

abbrev pub map_liquid_type_slime : ℕ
map_liquid_type_slime = 0x04

abbrev pub map_liquid_type_water : ℕ
map_liquid_type_water = 0x08

abbrev pub map_liquid_type_deep_water : ℕ
map_liquid_type_deep_water = 0x10

abbrev pub nav_area_water : ℕ
nav_area_water = 9

abbrev pub nav_area_magma_slime : ℕ
nav_area_magma_slime = 8

pub data Spot : Type 0 where
  top : Spot
  right : Spot
  left : Spot
  bottom : Spot
  entire : Spot

pub data Grid : Type 0 where
  v8_grid : Grid
  v9_grid : Grid

-- A sum of i32 values, and an i32 `as usize`.
abbrev pub as_i32 : ℕ → ℕ
as_i32 n = n % 2 ^ 32

unfoldable pub as_usize : ℕ → ℕ
as_usize v = if ltb v (2 ^ 31) then v else v + (2 ^ 64 - 2 ^ 32)

-- Where the loop over a portion's squares starts, where it stops, and its step.
unfoldable pub get_loop_vars : Spot → ℕ × ℕ × ℕ
get_loop_vars entire = (0, 128 * 128, 1)
get_loop_vars top = (0, 128, 1)
get_loop_vars left = (0, 128 * 128 - 128 + 1, 128)
get_loop_vars right = (127, 128 * 128, 128)
get_loop_vars bottom = (128 * 128 - 128, 128 * 128, 1)

-- The values of `i` in `while i < stop { …; i += inc; }`.
unfoldable pub while_below : (fuel i stop inc : ℕ) → List ℕ
while_below zero i stop inc = []
while_below (suc fuel) i stop inc =
    let rest = while_below fuel (i + inc) stop inc in if ltb i stop then i ∷ rest else []

unfoldable pub squares : Spot → List ℕ
unfolding get_loop_vars while_below
squares portion = let (start, stop, inc) = get_loop_vars portion in while_below stop start stop inc

-- The vertices of a triangle, as places behind the vertices that were there before. A square's
-- corners are in the grid of 129, its middle in the grid of 128 behind it.
unfoldable pub get_height_triangle : (square : ℕ) → Spot → (liquid : Bool) → ℕ × ℕ × ℕ
get_height_triangle square top false =
    let r = square / v8_size in
    (as_i32 (square + r), as_i32 (square + 1 + r), as_i32 (129 * 129 + square))
get_height_triangle square left false =
    let r = square / v8_size in
    (as_i32 (square + r), as_i32 (129 * 129 + square), as_i32 (square + v9_size + r))
get_height_triangle square right false =
    let r = square / v8_size in
    (as_i32 (square + 1 + r), as_i32 (square + v9_size + 1 + r), as_i32 (129 * 129 + square))
get_height_triangle square bottom false =
    let r = square / v8_size in
    (as_i32 (129 * 129 + square), as_i32 (square + v9_size + 1 + r), as_i32 (square + v9_size + r))
get_height_triangle square entire false = (0, 0, 0)
get_height_triangle square top true =
    let r = square / v8_size in
    (as_i32 (square + r), as_i32 (square + 1 + r), as_i32 (square + v9_size + 1 + r))
get_height_triangle square bottom true =
    let r = square / v8_size in
    (as_i32 (square + r), as_i32 (square + v9_size + 1 + r), as_i32 (square + v9_size + r))
get_height_triangle square left true = (0, 0, 0)
get_height_triangle square right true = (0, 0, 0)
get_height_triangle square entire true = (0, 0, 0)

-- A triangle is stored back to front.
unfoldable pub stored_triangle : (count : ℕ) → ℕ × ℕ × ℕ → List ℕ
stored_triangle count (a, b, c) = as_i32 (c + count) ∷ as_i32 (b + count) ∷ as_i32 (a + count) ∷ []

abbrev pub holetab_h : List ℕ
holetab_h = 0x1111 ∷ 0x2222 ∷ 0x4444 ∷ 0x8888 ∷ []

abbrev pub holetab_v : List ℕ
holetab_v = 0x000F ∷ 0x00F0 ∷ 0x0F00 ∷ 0xF000 ∷ []

-- The 16 rows of holes lie one behind the other.
unfoldable pub is_hole : (square : ℕ) → (holes : List ℕ) → Bool
is_hole square holes =
    let row = square / 128 in
    let col = square % 128 in
    let cell_row = row / 8 in
    let cell_col = col / 8 in
    let hole_row = row % 8 / 2 in
    let hole_col = (square - (row * 128 + cell_col * 8)) / 2 in
    let hole = get_or holes (cell_row * 16 + cell_col) 0 in
    if leb 16 cell_row || (leb 16 cell_col || (leb 4 hole_col || leb 4 hole_row))
    then false
    else not
        (bit_and (bit_and hole (get_or holetab_h hole_col 0)) (get_or holetab_v hole_row 0) == 0)

unfoldable pub get_liquid_type : (square : ℕ) → (liquid_flags : List ℕ) → ℕ
get_liquid_type square liquid_flags =
    let cell_row = square / 128 / 8 in
    let cell_col = square % 128 / 8 in
    if leb 16 cell_row || leb 16 cell_col
    then map_liquid_type_no_water
    else get_or liquid_flags (cell_row * 16 + cell_col) 0

module _ (float : FloatOps) where
  -- `-(offset + n as f32 * GRID_PART_SIZE)`.
  unfoldable pub grid_coord : (offset n : ℕ) → ℕ
  grid_coord offset n = float.neg (float.add offset (float.mul (float.from_int n) grid_part_size))

  unfoldable pub middle_coord : (offset n : ℕ) → ℕ
  middle_coord offset n =
      float.neg
        (float.add (float.add offset (float.mul (float.from_int n) grid_part_size)) half_part_size)

  -- The vertex of a height; the callers' indices lie in the grid.
  unfoldable pub get_height_coord :
      (index : ℕ) → Grid → (x_offset y_offset : ℕ) → List ℕ → ℕ × ℕ × ℕ
  unfolding grid_coord middle_coord
  get_height_coord index v9_grid x_offset y_offset v = (
    grid_coord x_offset (index % v9_size),
    grid_coord y_offset (index / v9_size),
    get_or v index 0,
  )
  get_height_coord index v8_grid x_offset y_offset v = (
    middle_coord x_offset (index % v8_size),
    middle_coord y_offset (index / v8_size),
    get_or v index 0,
  )

  unfoldable pub get_liquid_coord : (index index2 x_offset y_offset : ℕ) → List ℕ → ℕ × ℕ × ℕ
  unfolding grid_coord
  get_liquid_coord index index2 x_offset y_offset v = (
    grid_coord x_offset (index % v9_size),
    grid_coord y_offset (index / v9_size),
    get_or v index2 0,
  )

  -- Where a tile starts: `(tile as f32 - 32.0) * GRID_SIZE`.
  unfoldable pub tile_offset : ℕ → ℕ
  tile_offset tile = float.mul (float.sub (float.from_int tile) 0x42000000) grid_size
