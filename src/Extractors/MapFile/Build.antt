-- ===== src/Extractors/MapFile/Build.antt =====
-- The area and height sections, which crates/extractors/src/map_dbc.rs builds from a tile's grids.
-- Constants of type f32 are written as their bit patterns.
use cmangos_tbc.Base.{
  ℕ, Bool, false, not, ◌||◌, ◌&&◌, List, [], ◌∷◌, ◌++◌, if◌then◌else◌, ◌==◌, map,
}
use cmangos_tbc.Base.Bytes.{to_le}
use cmangos_tbc.Extractors.Float.{FloatOps}
use cmangos_tbc.Extractors.Reader.{concat_map}
use cmangos_tbc.Extractors.MapFile.{
  GridMapAreaHeader, GridMapHeightHeader, map_area_magic, map_height_magic,
}

abbrev pub map_area_no_area : ℕ
map_area_no_area = 0x0001

abbrev pub map_height_no_height : ℕ
map_height_no_height = 0x0001

abbrev pub map_height_as_int16 : ℕ
map_height_as_int16 = 0x0002

abbrev pub map_height_as_int8 : ℕ
map_height_as_int8 = 0x0004

-- 2.0, 2048.0, 0.005 and f32::EPSILON.
abbrev pub conf_float_to_int8_limit : ℕ
conf_float_to_int8_limit = 0x40000000

abbrev pub conf_float_to_int16_limit : ℕ
conf_float_to_int16_limit = 0x45000000

abbrev pub conf_flat_height_delta_limit : ℕ
conf_flat_height_delta_limit = 0x3BA3D70A

abbrev pub epsilon : ℕ
epsilon = 0x34000000

-- 20000.0 and -20000.0, where the ranges start.
abbrev pub high_start : ℕ
high_start = 0x469C4000

abbrev pub low_start : ℕ
low_start = 0xC69C4000

pub record ExtractConfig : Type 0 where
  pub allow_height_limit : Bool
  pub min_height : ℕ
  pub allow_float_to_int : Bool

abbrev pub first_or : ℕ → List ℕ → ℕ
first_or d [] = d
first_or d (x ∷ xs) = x

-- The loop that breaks at the first value that differs.
unfoldable pub any_other : ℕ → List ℕ → Bool
any_other first [] = false
any_other first (x ∷ xs) = not (x == first) || any_other first xs

unfoldable pub build_area_header : List ℕ → GridMapAreaHeader × List ℕ
unfolding any_other
build_area_header area_flags =
    let first = first_or 0xFFFF area_flags in
    if any_other first area_flags
    then (
      record { fourcc = map_area_magic; flags = 0; grid_area = 0 },
      concat_map (to_le 2) area_flags,
    )
    else (record { fourcc = map_area_magic; flags = map_area_no_area; grid_area = first }, [])

-- How the heights are stored.
pub data HeightStore : Type 0 where
  as_int8 as_int16 as_float : HeightStore

unfoldable pub store_flags : HeightStore → ℕ
store_flags as_int8 = map_height_as_int8
store_flags as_int16 = map_height_as_int16
store_flags as_float = 0

module _ (float : FloatOps) where
  unfoldable pub select_uint8_step_store : ℕ → ℕ
  select_uint8_step_store max_diff = float.div 0x437F0000 max_diff

  unfoldable pub select_uint16_step_store : ℕ → ℕ
  select_uint16_step_store max_diff = float.div 0x477FFF00 max_diff

  -- The range so far is the pair of the smallest and the largest value.
  unfoldable pub widen : ℕ × ℕ → List ℕ → ℕ × ℕ
  widen range [] = range
  widen (low, high) (v ∷ vs) =
      widen (if float.lt v low then v else low, if float.lt high v then v else high) vs

  unfoldable pub compute_height_range : List ℕ → List ℕ → ℕ × ℕ
  unfolding widen
  compute_height_range v8 v9 = widen (high_start, low_start) (v8 ++ v9)

  unfoldable pub clamp_height : ℕ → ℕ → ℕ
  clamp_height min_height v = if float.lt v min_height then min_height else v

  unfoldable pub clamp_heights : List ℕ → List ℕ → ℕ → List ℕ × List ℕ
  unfolding clamp_height
  clamp_heights v8 v9 min_height =
      (map (clamp_height min_height) v8, map (clamp_height min_height) v9)

  -- The heights and their range after the limit of the configuration.
  unfoldable pub limit_heights : ExtractConfig → List ℕ → List ℕ → (ℕ × ℕ) × (List ℕ × List ℕ)
  unfolding compute_height_range clamp_heights
  limit_heights config v8 v9 =
      let range = compute_height_range v8 v9 in
      if config.allow_height_limit && float.lt range.0 config.min_height
      then (
        (
          config.min_height,
          (if float.lt range.1 config.min_height then config.min_height else range.1),
        ),
        clamp_heights v8 v9 config.min_height,
      )
      else (range, (v8, v9))

  -- `(value - min_height) * step + 0.5`, before it is clamped and cast.
  unfoldable pub scaled : (min_height step value : ℕ) → ℕ
  scaled min_height step value = float.add (float.mul (float.sub value min_height) step) 0x3F000000

  unfoldable pub pack_u8 : (min_height step value : ℕ) → List ℕ
  unfolding scaled
  pack_u8 min_height step value = to_le 1 (float.clamp_u8 (scaled min_height step value))

  unfoldable pub pack_u16 : (min_height step value : ℕ) → List ℕ
  unfolding scaled
  pack_u16 min_height step value = to_le 2 (float.clamp_u16 (scaled min_height step value))

  unfoldable pub height_store : ExtractConfig → ℕ → HeightStore
  height_store config diff =
      if config.allow_float_to_int
      then if float.lt diff conf_float_to_int8_limit
        then as_int8
        else if float.lt diff conf_float_to_int16_limit
        then as_int16
        else as_float
      else as_float

  unfoldable pub height_payload : HeightStore → (min_height diff : ℕ) → List ℕ → List ℕ → List ℕ
  unfolding pack_u8 pack_u16 select_uint8_step_store select_uint16_step_store
  height_payload as_int8 min_height diff v8 v9 =
      let packed = pack_u8 min_height (select_uint8_step_store diff) in
      concat_map packed v9 ++ concat_map packed v8
  height_payload as_int16 min_height diff v8 v9 =
      let packed = pack_u16 min_height (select_uint16_step_store diff) in
      concat_map packed v9 ++ concat_map packed v8
  height_payload as_float min_height diff v8 v9 = concat_map (to_le 4) v9 ++ concat_map (to_le 4) v8

  unfoldable pub is_flat : ExtractConfig → (min_height max_height : ℕ) → Bool
  is_flat config min_height max_height =
      float.lt (float.abs (float.sub max_height min_height)) epsilon
      || (config.allow_float_to_int
          && float.lt (float.sub max_height min_height) conf_flat_height_delta_limit)

  unfoldable pub build_height_header :
      (v8 v9 : List ℕ) (min_height max_height : ℕ) → ExtractConfig → GridMapHeightHeader × List ℕ
  unfolding is_flat height_store store_flags height_payload
  build_height_header v8 v9 min_height max_height config =
      let header : ℕ → GridMapHeightHeader = λ flags. record {
        fourcc = map_height_magic;
        flags = flags;
        grid_height = min_height;
        grid_max_height = max_height;
      } in
      let diff = float.sub max_height min_height in
      let store = height_store config diff in
      if is_flat config min_height max_height
      then (header map_height_no_height, [])
      else (header (store_flags store), height_payload store min_height diff v8 v9)
