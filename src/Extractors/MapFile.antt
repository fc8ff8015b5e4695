-- ===== src/Extractors/MapFile.antt =====
-- The map files: the structs and `write_map_file` of crates/extractors/src/map_dbc.rs, and the end of
-- `convert_adt`, which lays the sections out. A file is its bytes.
pub mod Build
pub mod Liquid
pub mod Load
pub mod Layout
pub mod Stored
pub mod RoundTrip
use cmangos_tbc.Base.{ℕ, ◌+◌, ◌*◌, ◌^◌, ◌%◌, Option, none, some, List, [], ◌++◌, ◌∷◌, length}
use cmangos_tbc.Base.Bytes.{from_le, to_le}
use cmangos_tbc.Base.Text.{text}
use cmangos_tbc.Extractors.Reader.{concat_map}

abbrev pub map_magic : ℕ
map_magic = from_le (text "MAPS")

abbrev pub map_version_magic : ℕ
map_version_magic = from_le (text "s1.4")

abbrev pub map_area_magic : ℕ
map_area_magic = from_le (text "AREA")

abbrev pub map_height_magic : ℕ
map_height_magic = from_le (text "MHGT")

abbrev pub map_liquid_magic : ℕ
map_liquid_magic = from_le (text "MLIQ")

abbrev pub grid_map_file_header_size : ℕ
grid_map_file_header_size = 40

abbrev pub grid_map_area_header_size : ℕ
grid_map_area_header_size = 8

abbrev pub grid_map_height_header_size : ℕ
grid_map_height_header_size = 16

abbrev pub grid_map_liquid_header_size : ℕ
grid_map_liquid_header_size = 16

pub record GridMapFileHeader : Type 0 where
  pub magic : ℕ
  pub version_magic : ℕ
  pub area_map_offset : ℕ
  pub area_map_size : ℕ
  pub height_map_offset : ℕ
  pub height_map_size : ℕ
  pub liquid_map_offset : ℕ
  pub liquid_map_size : ℕ
  pub holes_offset : ℕ
  pub holes_size : ℕ

pub record GridMapAreaHeader : Type 0 where
  pub fourcc : ℕ
  pub flags : ℕ
  pub grid_area : ℕ

pub record GridMapHeightHeader : Type 0 where
  pub fourcc : ℕ
  pub flags : ℕ
  pub grid_height : ℕ
  pub grid_max_height : ℕ

pub record GridMapLiquidHeader : Type 0 where
  pub fourcc : ℕ
  pub flags : ℕ
  pub liquid_flags : ℕ
  pub liquid_type : ℕ
  pub offset_x : ℕ
  pub offset_y : ℕ
  pub width : ℕ
  pub height : ℕ
  pub liquid_level : ℕ

pub record MapFileSections : Type 0 where
  pub area_header : GridMapAreaHeader
  pub area_payload : List ℕ
  pub height_header : GridMapHeightHeader
  pub height_payload : List ℕ
  pub liquid_header : Option GridMapLiquidHeader
  pub liquid_payload : List ℕ
  pub holes : List ℕ

unfoldable pub header_bytes : GridMapFileHeader → List ℕ
header_bytes h =
    to_le 4 h.magic
    ++ (to_le 4 h.version_magic
        ++ (to_le 4 h.area_map_offset
            ++ (to_le 4 h.area_map_size
                ++ (to_le 4 h.height_map_offset
                    ++ (to_le 4 h.height_map_size
                        ++ (to_le 4 h.liquid_map_offset
                            ++ (to_le 4 h.liquid_map_size
                                ++ (to_le 4 h.holes_offset ++ to_le 4 h.holes_size))))))))

unfoldable pub area_bytes : GridMapAreaHeader → List ℕ
area_bytes h = to_le 4 h.fourcc ++ (to_le 2 h.flags ++ to_le 2 h.grid_area)

unfoldable pub height_bytes : GridMapHeightHeader → List ℕ
height_bytes h =
    to_le 4 h.fourcc ++ (to_le 4 h.flags ++ (to_le 4 h.grid_height ++ to_le 4 h.grid_max_height))

unfoldable pub liquid_bytes : GridMapLiquidHeader → List ℕ
liquid_bytes h =
    to_le 4 h.fourcc
    ++ (to_le 1 h.flags
        ++ (to_le 1 h.liquid_flags
            ++ (to_le 2 h.liquid_type
                ++ (to_le 1 h.offset_x
                    ++ (to_le 1 h.offset_y
                        ++ (to_le 1 h.width ++ (to_le 1 h.height ++ to_le 4 h.liquid_level)))))))

unfoldable pub liquid_section : Option GridMapLiquidHeader → List ℕ → List ℕ
unfolding liquid_bytes
liquid_section none payload = []
liquid_section (some h) payload = liquid_bytes h ++ payload

-- The bytes of the file. Its folder and the writing itself are I/O.
unfoldable pub write_map_file : GridMapFileHeader → MapFileSections → List ℕ
unfolding header_bytes area_bytes height_bytes liquid_section
write_map_file map_header s =
    header_bytes map_header
    ++ ((area_bytes s.area_header ++ s.area_payload)
        ++ ((height_bytes s.height_header ++ s.height_payload)
            ++ (liquid_section s.liquid_header s.liquid_payload ++ concat_map (to_le 2) s.holes)))

-- Sums of u32 wrap.
abbrev pub u32 : ℕ → ℕ
u32 n = n % 2 ^ 32

-- The offset and the size of the liquid section, 0 and 0 without one.
unfoldable pub liquid_place : Option GridMapLiquidHeader → ℕ → ℕ → ℕ × ℕ
liquid_place none start size = (0, 0)
liquid_place (some h) start size = (start, u32 (grid_map_liquid_header_size + u32 size))

unfoldable pub holes_place : Option GridMapLiquidHeader → (height_end liquid_end : ℕ) → ℕ
holes_place none height_end liquid_end = height_end
holes_place (some h) height_end liquid_end = liquid_end

-- The header that `convert_adt` computes from its sections.
unfoldable pub layout_header : MapFileSections → GridMapFileHeader
unfolding liquid_place holes_place
layout_header s =
    let area_size = u32 (grid_map_area_header_size + u32 (length s.area_payload)) in
    let height_offset = u32 (grid_map_file_header_size + area_size) in
    let height_size = u32 (grid_map_height_header_size + u32 (length s.height_payload)) in
    let height_end = u32 (height_offset + height_size) in
    let (liquid_offset, liquid_size) =
      liquid_place s.liquid_header height_end (length s.liquid_payload) in
    record {
      magic = map_magic;
      version_magic = map_version_magic;
      area_map_offset = grid_map_file_header_size;
      area_map_size = area_size;
      height_map_offset = height_offset;
      height_map_size = height_size;
      liquid_map_offset = liquid_offset;
      liquid_map_size = liquid_size;
      holes_offset = holes_place s.liquid_header height_end (u32 (liquid_offset + liquid_size));
      holes_size = u32 (length s.holes * 2);
    }

-- The file of a tile.
unfoldable pub map_file : MapFileSections → List ℕ
unfolding write_map_file layout_header
map_file s = write_map_file (layout_header s) s
