-- ===== src/Extractors/Tests/Files.antt =====
-- Concrete inputs for the map files and dir_bin, with stand-ins for the operations on floats.
use cmangos_tbc.Base.{
  ℕ, ◌+◌, ◌*◌, ◌-◌, ◌^◌, ◌<◌, ◌≤◌, ◌≡◌, refl, true, false, none, List, [], ◌∷◌, length,
  length-replicate, replicate, ltb, All, arith, zero, suc, if◌then◌else◌, ◌%◌, ◌==◌,
}
use cmangos_tbc.Base.Bytes.{to_le}
use cmangos_tbc.Extractors.Float.{FloatOps, FloatLaws}
use cmangos_tbc.Extractors.MapFile.{
  GridMapLiquidHeader, MapFileSections, map_file, layout_header, area_bytes, height_bytes,
  liquid_section,
}
use cmangos_tbc.Extractors.MapFile.Build.{ExtractConfig}
use cmangos_tbc.Extractors.MapFile.Liquid.{idx_v8, Scan, window_header, window_rows}
use cmangos_tbc.Extractors.MapFile.Liquid.Window.{scan_of, Shows, window_rows_fit, window_covers}
use cmangos_tbc.Extractors.MapFile.Layout.{
  section, area_part, height_part, holes_part, file_size, sections_placed,
}

-- Operations on bit patterns that agree with those on floats where the samples use them.
abbrev pub float : FloatOps
float = record {
  lt = ltb;
  eq = λ a b. a == b;
  add = λ a b. a + b;
  sub = λ a b. a - b;
  mul = λ a b. a * b;
  div = λ a b. a;
  abs = λ a. a;
  neg = λ a. a;
  sin = λ a. a;
  cos = λ a. a;
  min = λ a b. if ltb b a then b else a;
  max = λ a b. if ltb a b then b else a;
  clamp_u8 = λ a. a % 2 ^ 8;
  clamp_u16 = λ a. a % 2 ^ 16;
  from_int = λ a. a;
}

pub float-FloatLaws : FloatLaws float
float-FloatLaws = record {
  clamp_u8_small = λ v. omega arith;
  clamp_u16_small = λ v. omega arith;
  neg_small = λ v h. h;
  neg_neg = λ v h. refl;
}

abbrev pub config : ExtractConfig
config = record { allow_height_limit = true; min_height = 0; allow_float_to_int = false }

-- A file with short payloads and no liquid.
abbrev short : MapFileSections
short = record {
  area_header = record { fourcc = 1; flags = 1; grid_area = 12 };
  area_payload = [];
  height_header = record { fourcc = 2; flags = 0; grid_height = 3; grid_max_height = 4 };
  height_payload = 5 ∷ 6 ∷ 7 ∷ 8 ∷ [];
  liquid_header = none;
  liquid_payload = [];
  holes = 9 ∷ 10 ∷ [];
}

short_small : file_size short < 2 ^ 32
unfolding area_bytes height_bytes liquid_section to_le
short_small = omega arith

sections_placed_example :
    (section
        (layout_header short).area_map_offset
        (layout_header short).area_map_size
        (map_file short)
      ≡ area_part short)
    × (section
          (layout_header short).height_map_offset
          (layout_header short).height_map_size
          (map_file short)
        ≡ height_part short)
    × (section (layout_header short).holes_offset (layout_header short).holes_size (map_file short)
        ≡ holes_part short)
    × (length (map_file short)
        ≡ (layout_header short).holes_offset + (layout_header short).holes_size)
sections_placed_example = sections_placed short (layout_header short) short_small refl

-- `n` times a value, which stays shut.
pub grid : (n value : ℕ) → List ℕ
grid n value = replicate n value

pub length-grid : (n value : ℕ) → length (grid n value) ≡ n
unfolding grid
length-grid n value = length-replicate {0} n value

pub All-grid : (n value bound : ℕ) → value < bound → All (λ v. v < bound) (grid n value)
unfolding grid
All-grid zero value bound h = tt
All-grid (suc n) value bound h = (h, All-grid n value bound h)

abbrev corner_shows : List ℕ
corner_shows = 1 ∷ []

abbrev levels : List ℕ
levels = grid (129 * 129) 0x40000000

abbrev scan : Scan
scan = scan_of float config corner_shows levels

abbrev window : GridMapLiquidHeader
window = window_header float config false 1 8 scan

window_rows_fit_example :
    ((window.offset_x ≡ scan.min_x) × (window.offset_x + window.width ≡ scan.max_x + 2))
    × ((window.offset_y ≡ scan.min_y) × (window.offset_y + window.height ≡ scan.max_y + 2))
    × (window.offset_x + window.width ≤ 129)
    × (window.offset_y + window.height ≤ 129)
    × (length (window_rows scan.liquid_height window window.height 0)
        ≡ window.height * window.width)
window_rows_fit_example =
    window_rows_fit float config corner_shows levels false 1 8 scan window
      (length-grid (129 * 129) 0x40000000) refl refl

corner : Shows corner_shows 0 0
unfolding idx_v8
corner = λ e. cc

window_covers_example :
    (window.offset_x ≤ 0)
    × (0 + 1 < window.offset_x + window.width)
    × (window.offset_y ≤ 0)
    × (0 + 1 < window.offset_y + window.height)
window_covers_example =
    window_covers float config corner_shows levels false 1 8 window 0 0
      (length-grid (129 * 129) 0x40000000) refl (omega arith) (omega arith) corner
