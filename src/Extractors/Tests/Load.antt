-- ===== src/Extractors/Tests/Load.antt =====
-- A concrete map file that is written and loaded.
use cmangos_tbc.Base.{
  ℕ, ◌+◌, ◌*◌, ◌^◌, ◌<◌, ◌≡◌, refl, false, none, some, List, [], ◌++◌, length, map, arith,
  length-append,
}
use cmangos_tbc.Base.Bytes.{to_le}
use cmangos_tbc.Extractors.Reader.{concat_map}
use cmangos_tbc.Extractors.MapFile.{
  GridMapHeightHeader, MapFileSections, map_file, layout_header, area_bytes, height_bytes,
  liquid_section,
}
use cmangos_tbc.Extractors.MapFile.Build.{
  as_float, height_store, height_payload, is_flat, build_height_header,
}
use cmangos_tbc.Extractors.MapFile.Layout.{file_size, length-concat_map}
use cmangos_tbc.Extractors.MapFile.Load.{load_map, read_liquid_at}
use cmangos_tbc.Extractors.MapFile.Stored.{stored_value}
use cmangos_tbc.Extractors.MapFile.RoundTrip.{load_map-map_file}
use cmangos_tbc.Extractors.Tests.Files.{float, float-FloatLaws, config, grid, length-grid, All-grid}

-- A hill between the heights 0.0 and 128.0, most of it at 1.0.
abbrev pub corners : List ℕ
corners = grid (129 * 129) 0x3F800000

abbrev pub middles : List ℕ
middles = grid (128 * 128) 0x3F800000

abbrev pub hill_heights : GridMapHeightHeader × List ℕ
hill_heights = build_height_header float middles corners 0 0x43000000 config

abbrev pub hill : MapFileSections
hill = record {
  area_header = record { fourcc = 1; flags = 1; grid_area = 12 };
  area_payload = [];
  height_header = hill_heights.0;
  height_payload = hill_heights.1;
  liquid_header = none;
  liquid_payload = [];
  holes = grid 256 0;
}

hill_payload : hill_heights.1 ≡ concat_map (to_le 4) corners ++ concat_map (to_le 4) middles
unfolding build_height_header is_flat height_store height_payload
hill_payload = refl

length-hill_payload : length hill_heights.1 ≡ 129 * 129 * 4 + 128 * 128 * 4
length-hill_payload =
    rw
      (
        hill_payload,
        length-append {0} (concat_map (to_le 4) corners) (concat_map (to_le 4) middles),
        length-concat_map 4 corners,
        length-concat_map 4 middles,
        length-grid (129 * 129) 0x3F800000,
        length-grid (128 * 128) 0x3F800000,
      )
      refl

length-height_bytes_4 : (h : GridMapHeightHeader) → length (height_bytes h) ≡ 16
unfolding height_bytes to_le
length-height_bytes_4 h = refl

hill_small : file_size hill < 2 ^ 32
unfolding area_bytes liquid_section to_le
hill_small = omega (
  arith,
  length-append {0} (height_bytes hill.height_header) hill.height_payload,
  length-height_bytes_4 hill.height_header,
  length-hill_payload,
  length-grid 256 0,
)

hill_steep : is_flat float config 0 0x43000000 ≡ false
unfolding is_flat
hill_steep = refl

hill_store : as_float ≡ height_store float config 0x43000000
unfolding height_store
hill_store = refl

load_map-map_file_example :
    load_map float false (map_file hill)
    ≡ some (
      some (record {
        v9 = map (stored_value float as_float 0 0x43000000) corners;
        v8 = map (stored_value float as_float 0 0x43000000) middles;
        holes = grid 256 0;
      }),
      read_liquid_at false (layout_header hill).liquid_map_offset (map_file hill),
    )
load_map-map_file_example =
    load_map-map_file float config false hill middles corners 0 0x43000000 0x43000000 as_float
      float-FloatLaws hill_small refl hill_store refl hill_steep (omega arith) (omega arith)
      (length-grid (129 * 129) 0x3F800000) (length-grid (128 * 128) 0x3F800000) (length-grid 256 0)
      (All-grid (129 * 129) 0x3F800000 (2 ^ 32) (omega arith))
      (All-grid (128 * 128) 0x3F800000 (2 ^ 32) (omega arith))
      (All-grid 256 0 (2 ^ 16) (omega arith))
