-- ===== src/Extractors/MapFile/Load.antt =====
-- What `load_map_portion` of crates/extractors/src/movemap_gen.rs reads from a map file.
-- A read at the end of the file gives 0. A seek goes to an offset from the start.
use cmangos_tbc.Base.{
  ℕ, ◌*◌, Bool, not, ◌&&◌, Option, none, some, List, [], ◌∷◌, if◌then◌else◌, ◌==◌, map, drop,
  replicate, zero, suc, bit_and,
}
use cmangos_tbc.Extractors.Float.{FloatOps}
use cmangos_tbc.Extractors.Reader.{read_number}
use cmangos_tbc.Extractors.MapFile.{GridMapFileHeader, GridMapHeightHeader, map_version_magic}
use cmangos_tbc.Extractors.MapFile.Build.{
  map_height_no_height, map_height_as_int8, map_height_as_int16,
}
use cmangos_tbc.Extractors.MapFile.Liquid.{map_liquid_no_type, map_liquid_no_height}

abbrev pub v9_size_sq : ℕ
v9_size_sq = 129 * 129

abbrev pub v8_size_sq : ℕ
v8_size_sq = 128 * 128

unfoldable pub or_zero : Option (ℕ × List ℕ) → ℕ × List ℕ
or_zero none = (0, [])
or_zero (some out) = out

-- `read_u8`, `read_u16_le`, `read_u32_le` and `read_f32_le`, for 1, 2 and 4 bytes.
unfoldable pub read_le : ℕ → List ℕ → ℕ × List ℕ
unfolding or_zero
read_le k bs = or_zero (read_number k bs)

-- The loops that fill an array.
unfoldable pub read_array : (k n : ℕ) → List ℕ → List ℕ × List ℕ
unfolding read_le
read_array k zero bs = ([], bs)
read_array k (suc n) bs =
    let (v, rest) = read_le k bs in let (vs, rest') = read_array k n rest in (v ∷ vs, rest')

abbrev pub has_flag : ℕ → ℕ → Bool
has_flag flags flag = not (bit_and flags flag == 0)

-- Two arrays, one behind the other.
unfoldable pub read_arrays : (k m n : ℕ) → List ℕ → List ℕ × List ℕ
unfolding read_array
read_arrays k m n bs =
    let (first, rest) = read_array k m bs in
    let (second, rest') = read_array k n rest in (first, second)

-- Both grids of heights, as they are stored.
unfoldable pub read_grids : ℕ → List ℕ → List ℕ × List ℕ
read_grids k = read_arrays k v9_size_sq v8_size_sq

pub record Terrain : Type 0 where
  pub v9 : List ℕ
  pub v8 : List ℕ
  pub holes : List ℕ

pub record Liquid : Type 0 where
  pub liquid_entry : List ℕ
  pub liquid_flags : List ℕ
  pub liquid_type_loaded : Bool
  pub liquid_map : Option (List ℕ)
  pub liquid_level : ℕ
  pub offset_x : ℕ
  pub offset_y : ℕ
  pub width : ℕ
  pub height : ℕ

unfoldable pub read_holes : (holes_offset holes_size : ℕ) → List ℕ → List ℕ
read_holes holes_offset holes_size file =
    if holes_size == 0 then replicate 256 0 else (read_array 2 256 (drop holes_offset file)).0

-- The liquid section at the start of `bs`.
unfoldable pub read_liquid : List ℕ → Liquid
read_liquid bs =
    let (fourcc, b1) = read_le 4 bs in
    let (flags, b2) = read_le 1 b1 in
    let (liquid_flags, b3) = read_le 1 b2 in
    let (liquid_type, b4) = read_le 2 b3 in
    let (offset_x, b5) = read_le 1 b4 in
    let (offset_y, b6) = read_le 1 b5 in
    let (width, b7) = read_le 1 b6 in
    let (height, b8) = read_le 1 b7 in
    let (level, b9) = read_le 4 b8 in
    let typed = not (has_flag flags map_liquid_no_type) in
    let (entries, b10) = if typed then read_array 2 256 b9 else (replicate 256 liquid_type, b9) in
    let (cell_flags, b11) =
      if typed then read_array 1 256 b10 else (replicate 256 liquid_flags, b10) in
    let (heights, b12) = read_array 4 (width * height) b11 in
    record {
      liquid_entry = entries;
      liquid_flags = cell_flags;
      liquid_type_loaded = typed;
      liquid_map = if has_flag flags map_liquid_no_height then none else some heights;
      liquid_level = level;
      offset_x = offset_x;
      offset_y = offset_y;
      width = width;
      height = height;
    }

unfoldable pub read_header : List ℕ → GridMapFileHeader
unfolding read_le
read_header file =
    let (magic, f1) = read_le 4 file in
    let (version_magic, f2) = read_le 4 f1 in
    let (area_map_offset, f3) = read_le 4 f2 in
    let (area_map_size, f4) = read_le 4 f3 in
    let (height_map_offset, f5) = read_le 4 f4 in
    let (height_map_size, f6) = read_le 4 f5 in
    let (liquid_map_offset, f7) = read_le 4 f6 in
    let (liquid_map_size, f8) = read_le 4 f7 in
    let (holes_offset, f9) = read_le 4 f8 in
    let (holes_size, f10) = read_le 4 f9 in
    record {
      magic = magic;
      version_magic = version_magic;
      area_map_offset = area_map_offset;
      area_map_size = area_map_size;
      height_map_offset = height_map_offset;
      height_map_size = height_map_size;
      liquid_map_offset = liquid_map_offset;
      liquid_map_size = liquid_map_size;
      holes_offset = holes_offset;
      holes_size = holes_size;
    }

unfoldable pub read_height_header : List ℕ → GridMapHeightHeader × List ℕ
unfolding read_le
read_height_header bs =
    let (fourcc, h1) = read_le 4 bs in
    let (flags, h2) = read_le 4 h1 in
    let (grid_height, h3) = read_le 4 h2 in
    let (grid_max_height, h4) = read_le 4 h3 in
    (
      record {
        fourcc = fourcc;
        flags = flags;
        grid_height = grid_height;
        grid_max_height = grid_max_height;
      },
      h4,
    )

unfoldable pub read_liquid_at : (skip_liquid : Bool) → (offset : ℕ) → List ℕ → Option Liquid
read_liquid_at skip_liquid offset file =
    if not (offset == 0) && not skip_liquid then some (read_liquid (drop offset file)) else none

-- The function returns false where there is neither.
unfoldable pub if_any : Option Terrain → Option Liquid → Option (Option Terrain × Option Liquid)
if_any none none = none
if_any none (some l) = some (none, some l)
if_any (some t) l = some (some t, l)

module _ (float : FloatOps) where
  -- A stored number as a height: `raw as f32 * multiplier + grid_height`.
  unfoldable pub restored : (multiplier grid_height raw : ℕ) → ℕ
  restored multiplier grid_height raw =
      float.add (float.mul (float.from_int raw) multiplier) grid_height

  unfoldable pub restored_grids : (multiplier grid_height : ℕ) → List ℕ × List ℕ → List ℕ × List ℕ
  unfolding restored
  restored_grids multiplier grid_height (v9, v8) =
      (map (restored multiplier grid_height) v9, map (restored multiplier grid_height) v8)

  -- The heights behind a height header: first the grid of 129, then that of 128.
  unfoldable pub read_heights : GridMapHeightHeader × List ℕ → List ℕ × List ℕ
  unfolding restored_grids
  read_heights (h, bs) =
      let range = float.sub h.grid_max_height h.grid_height in
      if has_flag h.flags map_height_as_int8
      then restored_grids (float.div range 0x437F0000) h.grid_height (read_grids 1 bs)
      else if has_flag h.flags map_height_as_int16
      then restored_grids (float.div range 0x477FFF00) h.grid_height (read_grids 2 bs)
      else read_grids 4 bs

  unfoldable pub read_terrain :
      GridMapFileHeader → GridMapHeightHeader × List ℕ → List ℕ → Option Terrain
  read_terrain header height file =
      let (v9, v8) = read_heights height in
      if has_flag height.0.flags map_height_no_height
      then none
      else some (record {
        v9 = v9;
        v8 = v8;
        holes = read_holes header.holes_offset header.holes_size file;
      })

  -- The terrain and the liquid of a file, each if it is there; `none` where the function returns
  -- false before it builds any vertex.
  unfoldable pub load_map : (skip_liquid : Bool) → List ℕ → Option (Option Terrain × Option Liquid)
  load_map skip_liquid file =
      let header = read_header file in
      let height = read_height_header (drop header.height_map_offset file) in
      if not (header.version_magic == map_version_magic)
      then none
      else if_any (read_terrain header height file)
          (read_liquid_at skip_liquid header.liquid_map_offset file)
