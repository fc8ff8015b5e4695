-- ===== src/Extractors/MapFile/Liquid.antt =====
-- The liquid section, which `build_liquid_header` of crates/extractors/src/map_dbc.rs builds.
-- The grids are vectors of 16384 and 16641 values; reading behind the end, which the sizes exclude, is 0.
pub mod Window
use cmangos_tbc.Base.{
  ℕ, ◌+◌, ◌*◌, ◌-◌, ◌^◌, ◌%◌, Bool, true, false, not, ◌||◌, ◌&&◌, Option, none, some, List, [], ◌∷◌,
  ◌++◌, if◌then◌else◌, ◌==◌, ltb, get_or, take, drop, zero, suc, bit_or,
}
use cmangos_tbc.Base.Bytes.{to_le}
use cmangos_tbc.Extractors.Float.{FloatOps}
use cmangos_tbc.Extractors.Reader.{concat_map}
use cmangos_tbc.Extractors.MapTables.{set_at}
use cmangos_tbc.Extractors.MapFile.{GridMapLiquidHeader, map_liquid_magic}
use cmangos_tbc.Extractors.MapFile.Build.{ExtractConfig, epsilon, high_start, low_start, first_or}

abbrev pub map_liquid_no_type : ℕ
map_liquid_no_type = 0x01

abbrev pub map_liquid_no_height : ℕ
map_liquid_no_height = 0x02

-- 0.001
abbrev pub conf_flat_liquid_delta_limit : ℕ
conf_flat_liquid_delta_limit = 0x3A83126F

abbrev pub adt_grid_size : ℕ
adt_grid_size = 128

unfoldable pub idx_v8 : (y x : ℕ) → ℕ
idx_v8 y x = y * adt_grid_size + x

unfoldable pub idx_v9 : (y x : ℕ) → ℕ
idx_v9 y x = y * (adt_grid_size + 1) + x

-- `for i in 0..n`.
unfoldable pub for_range : {S : Type 0} → ℕ → (ℕ → S → S) → S → S
for_range zero f s = s
for_range (suc n) f s = f n (for_range n f s)

-- Does an entry or a flag differ from the first? The loop ends with the shorter vector.
unfoldable pub is_mixed : (first_entry first_flag : ℕ) → List ℕ → List ℕ → Bool
is_mixed e f [] flags = false
is_mixed e f (x ∷ xs) [] = false
is_mixed e f (x ∷ xs) (y ∷ ys) = (not (x == e) || not (y == f)) || is_mixed e f xs ys

-- What the scan of the grid collects, and the heights that it resets.
pub record Scan : Type 0 where
  pub min_x : ℕ
  pub min_y : ℕ
  pub max_x : ℕ
  pub max_y : ℕ
  pub min_height : ℕ
  pub max_height : ℕ
  pub liquid_height : List ℕ

unfoldable pub scan_start : List ℕ → Scan
scan_start heights = record {
  min_x = 255;
  min_y = 255;
  max_x = 0;
  max_y = 0;
  min_height = high_start;
  max_height = low_start;
  liquid_height = heights;
}

abbrev pub lower : ℕ → ℕ → ℕ
lower a b = if ltb b a then b else a

abbrev pub higher : ℕ → ℕ → ℕ
higher a b = if ltb a b then b else a

-- No cell showed liquid.
unfoldable pub reset_window : Scan → Scan
reset_window s =
    if (s.min_x == 255) || (s.min_y == 255)
    then record s { min_x = 0; min_y = 0; max_x = 0; max_y = 0 }
    else s

-- The rows of the window, each `liquid_height[start..end]`.
unfoldable pub window_row : List ℕ → GridMapLiquidHeader → ℕ → List ℕ
unfolding idx_v9
window_row heights h y = take h.width (drop (idx_v9 (y + h.offset_y) h.offset_x) heights)

unfoldable pub window_rows : List ℕ → GridMapLiquidHeader → (rounds y : ℕ) → List ℕ
unfolding window_row
window_rows heights h zero y = []
window_rows heights h (suc rounds) y =
    window_row heights h y ++ window_rows heights h rounds (suc y)

module _ (float : FloatOps) (config : ExtractConfig) where
  -- A cell that shows liquid.
  unfoldable pub scan_shown : (y x : ℕ) → Scan → Scan
  unfolding idx_v9
  scan_shown y x s =
      let h = get_or s.liquid_height (idx_v9 y x) 0 in
      record s {
        min_x = lower s.min_x x;
        max_x = higher s.max_x x;
        min_y = lower s.min_y y;
        max_y = higher s.max_y y;
        max_height = if float.lt s.max_height h then h else s.max_height;
        min_height = if float.lt h s.min_height then h else s.min_height;
      }

  -- A cell without liquid gets the least height of the configuration.
  unfoldable pub scan_hidden : (y x : ℕ) → Scan → Scan
  unfolding idx_v9
  scan_hidden y x s = record s {
    liquid_height = set_at (idx_v9 y x) config.min_height s.liquid_height;
    min_height =
        if float.lt config.min_height s.min_height then config.min_height else s.min_height;
  }

  unfoldable pub scan_cell : List ℕ → (y x : ℕ) → Scan → Scan
  unfolding scan_shown scan_hidden idx_v8
  scan_cell liquid_show y x s =
      if get_or liquid_show (idx_v8 y x) 0 == 0 then scan_hidden y x s else scan_shown y x s

  unfoldable pub scan_row : List ℕ → ℕ → Scan → Scan
  unfolding scan_cell
  scan_row liquid_show y s = for_range adt_grid_size (scan_cell liquid_show y) s

  unfoldable pub scan_grid : List ℕ → List ℕ → Scan
  unfolding scan_row scan_start
  scan_grid liquid_show liquid_height =
      for_range adt_grid_size (scan_row liquid_show) (scan_start liquid_height)

  unfoldable pub is_level : Scan → Bool
  is_level s =
      float.lt (float.abs (float.sub s.max_height s.min_height)) epsilon
      || (config.allow_float_to_int
          && float.lt (float.sub s.max_height s.min_height) conf_flat_liquid_delta_limit)

  unfoldable pub window_header :
      (is_full : Bool) (first_entry first_flag : ℕ) → Scan → GridMapLiquidHeader
  unfolding is_level
  window_header is_full first_entry first_flag s = record {
    fourcc = map_liquid_magic;
    flags =
        bit_or (if is_level s then map_liquid_no_height else 0)
          (if is_full then 0 else map_liquid_no_type);
    liquid_flags = if is_full then 0 else first_flag;
    liquid_type = if is_full then 0 else first_entry;
    offset_x = s.min_x % 2 ^ 8;
    offset_y = s.min_y % 2 ^ 8;
    width = ((s.max_x - s.min_x) + 2) % 2 ^ 8;
    height = ((s.max_y - s.min_y) + 2) % 2 ^ 8;
    liquid_level = s.min_height;
  }

  unfoldable pub liquid_payload :
      (is_full : Bool) → List ℕ → List ℕ → Scan → GridMapLiquidHeader → List ℕ
  unfolding window_rows
  liquid_payload is_full liquid_entry liquid_flags s h =
      (if is_full
        then concat_map (to_le 2) liquid_entry ++ concat_map (to_le 1) liquid_flags
        else [])
      ++ (if is_level s
          then []
          else concat_map (to_le 4) (window_rows s.liquid_height h h.height 0))

  unfoldable pub build_liquid_header :
      (liquid_show liquid_height liquid_entry liquid_flags : List ℕ)
      → Option GridMapLiquidHeader × List ℕ
  unfolding is_mixed scan_grid reset_window window_header liquid_payload
  build_liquid_header liquid_show liquid_height liquid_entry liquid_flags =
      let first_entry = first_or 0 liquid_entry in
      let first_flag = first_or 0 liquid_flags in
      let is_full = is_mixed first_entry first_flag liquid_entry liquid_flags in
      if (first_flag == 0) && not is_full
      then (none, [])
      else let s = reset_window (scan_grid liquid_show liquid_height) in
        let h = window_header is_full first_entry first_flag s in
        (some h, liquid_payload is_full liquid_entry liquid_flags s h)
