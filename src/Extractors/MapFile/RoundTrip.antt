-- ===== src/Extractors/MapFile/RoundTrip.antt =====
-- The terrain that the map extractor writes is the terrain that the navigation mesh generator reads.
use cmangos_tbc.Base.{
  ℕ, ◌*◌, ◌^◌, ◌<◌, ◌≡◌, ◌∙◌, refl, sym, ap, Bool, false, Option, some, List, ◌++◌, length, drop,
  arith, All, map, not, ◌==◌,
}
use cmangos_tbc.Base.Bytes.{from_le}
use cmangos_tbc.Extractors.Float.{FloatOps, FloatLaws}
use cmangos_tbc.Extractors.MapFile.{
  GridMapFileHeader, GridMapHeightHeader, MapFileSections, layout_header, map_file,
  map_version_magic, map_height_magic,
}
use cmangos_tbc.Extractors.MapFile.Build.{
  map_height_no_height, ExtractConfig, HeightStore, as_int8, as_int16, as_float, height_store,
  height_payload, is_flat, build_height_header, store_flags,
}
use cmangos_tbc.Extractors.MapFile.Load.{
  read_header, read_height_header, read_heights, read_terrain, read_liquid_at, read_holes, load_map,
  if_any, Terrain, Liquid, has_flag,
}
use cmangos_tbc.Extractors.MapFile.Layout.{file_size, liquid_part, holes_part, drop-height}
use cmangos_tbc.Extractors.MapFile.Stored.{
  read_height_header-height_bytes, stored_value, map_file_header, map_file_holes,
  read_heights_stored,
}

-- What is loaded from a file with a given header and height section.
load_map_by :
    (float : FloatOps) (skip_liquid : Bool) (file : List ℕ) (header : GridMapFileHeader)
    (height : GridMapHeightHeader × List ℕ)
    → read_header file ≡ header
    → read_height_header (drop header.height_map_offset file) ≡ height
    → header.version_magic ≡ map_version_magic
    → load_map float skip_liquid file
      ≡ if_any
          (read_terrain float header height file)
          (read_liquid_at skip_liquid header.liquid_map_offset file)
unfolding load_map from_le
load_map_by float skip_liquid file header height e1 e2 e3 =
    let right : not (header.version_magic == map_version_magic) ≡ false = rw e3 refl in
    rw e1 (rw (e2, right) refl)

read_terrain_by :
    (float : FloatOps) (header : GridMapFileHeader) (height : GridMapHeightHeader × List ℕ)
    (file v9 v8 holes : List ℕ)
    → has_flag height.0.flags map_height_no_height ≡ false
    → read_heights float height ≡ (v9, v8)
    → read_holes header.holes_offset header.holes_size file ≡ holes
    → read_terrain float header height file ≡ some (record { v9 = v9; v8 = v8; holes = holes })
unfolding read_terrain
read_terrain_by float header height file v9 v8 holes flag heights e = rw (flag, heights, e) refl

-- The flags of a store are a u32, and do not say that there are no heights.
store_flags_small : (store : HeightStore) → store_flags store < 2 ^ 32
unfolding store_flags
store_flags_small as_int8 = omega arith
store_flags_small as_int16 = omega arith
store_flags_small as_float = omega arith

store_flags_high : (store : HeightStore) → has_flag (store_flags store) map_height_no_height ≡ false
unfolding store_flags
store_flags_high as_int8 = refl
store_flags_high as_int16 = refl
store_flags_high as_float = refl

height_magic_small : map_height_magic < 2 ^ 32
unfolding from_le
height_magic_small = omega arith

version_of : (s : MapFileSections) → (layout_header s).version_magic ≡ map_version_magic
unfolding layout_header
version_of s = refl

if_any_terrain : (t : Terrain) (l : Option Liquid) → if_any (some t) l ≡ some (some t, l)
unfolding if_any
if_any_terrain t l = refl

-- The terrain of a tile that is not flat is read back from the tile's file: the heights as
-- their way of storing keeps them (unchanged when they are stored as floats), and the holes. The file
-- is below 4 GiB and the numbers fit their types.
pub load_map-map_file :
    (float : FloatOps) (config : ExtractConfig) (skip_liquid : Bool) (s : MapFileSections)
    (v8 v9 : List ℕ) (min_height max_height diff : ℕ) (store : HeightStore)
    → FloatLaws float
    → file_size s < 2 ^ 32
    → diff ≡ float.sub max_height min_height
    → store ≡ height_store float config diff
    → (s.height_header, s.height_payload)
      ≡ build_height_header float v8 v9 min_height max_height config
    → is_flat float config min_height max_height ≡ false
    → min_height < 2 ^ 32
    → max_height < 2 ^ 32
    → length v9 ≡ 129 * 129
    → length v8 ≡ 128 * 128
    → length s.holes ≡ 256
    → All (λ v. v < 2 ^ 32) v9
    → All (λ v. v < 2 ^ 32) v8
    → All (λ v. v < 2 ^ 16) s.holes
    → load_map float skip_liquid (map_file s)
      ≡ some (
        some (record {
          v9 = map (stored_value float store min_height diff) v9;
          v8 = map (stored_value float store min_height diff) v8;
          holes = s.holes;
        }),
        read_liquid_at skip_liquid (layout_header s).liquid_map_offset (map_file s),
      )
unfolding build_height_header
load_map-map_file float config skip_liquid s v8 v9 min_height max_height diff store laws small ed es
      eh flat hmin hmax e9 e8 eo h9 h8 ho =
    let hd : GridMapHeightHeader = record {
      fourcc = map_height_magic;
      flags = store_flags store;
      grid_height = min_height;
      grid_max_height = max_height;
    } in
    let payload = height_payload float store min_height diff v8 v9 in
    let built : build_height_header float v8 v9 min_height max_height config ≡ (hd, payload) =
      rw (flat, sym ed, sym es) refl in
    let header : s.height_header ≡ hd = ap (λ p. p.0) (eh ∙ built) in
    let body : s.height_payload ≡ payload = ap (λ p. p.1) (eh ∙ built) in
    let rest = liquid_part s ++ holes_part s in
    let height : read_height_header (drop (layout_header s).height_map_offset (map_file s))
        ≡ (hd, payload ++ rest) =
      ap read_height_header (drop-height s small)
      ∙ rw (header, body)
          (read_height_header-height_bytes hd payload rest height_magic_small
            (store_flags_small store) hmin hmax) in
    let heights : read_heights float (hd, payload ++ rest) ≡ (
      map (stored_value float store min_height diff) v9,
      map (stored_value float store min_height diff) v8,
    ) =
      rw ed (read_heights_stored float laws store hd v9 v8 rest refl e9 e8 h9 h8) in
    load_map_by float skip_liquid (map_file s) (layout_header s) (hd, payload ++ rest)
      (map_file_header s small) height (version_of s)
    ∙ ap
        (λ t.
          if_any t (read_liquid_at skip_liquid (layout_header s).liquid_map_offset (map_file s)))
        (read_terrain_by float (layout_header s) (hd, payload ++ rest) (map_file s) _ _ s.holes
          (store_flags_high store) heights (map_file_holes s small eo ho))
    ∙ if_any_terrain _ _
