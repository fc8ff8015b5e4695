-- ===== src/Extractors/MapFile/Stored.antt =====
-- What is read from each section of a map file: the headers, the stored heights, the holes.
use cmangos_tbc.Base.{
  ℕ, ◌*◌, ◌^◌, ◌<◌, ◌≡◌, ◌∙◌, refl, sym, ap, List, [], ◌∷◌, ◌++◌, length, drop, append_assoc,
  append-nil, arith, suc, All, map,
}
use cmangos_tbc.Base.Bytes.{from_le, to_le}
use cmangos_tbc.Extractors.Reader.{concat_map, read_number-Reads}
use cmangos_tbc.Extractors.Float.{FloatOps, FloatLaws}
use cmangos_tbc.Extractors.MapFile.{
  GridMapFileHeader, GridMapHeightHeader, MapFileSections, header_bytes, height_bytes,
  layout_header, map_file, write_map_file,
}
use cmangos_tbc.Extractors.MapFile.Build.{
  HeightStore, as_int8, as_int16, as_float, height_payload, scaled, store_flags, pack_u8, pack_u16,
  select_uint8_step_store, select_uint16_step_store,
}
use cmangos_tbc.Extractors.MapFile.Load.{
  or_zero, read_le, read_array, read_arrays, v8_size_sq, read_grids, read_header,
  read_height_header, read_heights, restored, restored_grids, read_holes,
}
use cmangos_tbc.Extractors.MapFile.Layout.{
  Placed, layout-Placed, layout_liquid_offset_small, file_size, drop-holes,
}

read_le_here : (k v : ℕ) (rest : List ℕ) → v < 256 ^ k → read_le k (to_le k v ++ rest) ≡ (v, rest)
unfolding read_le or_zero
read_le_here k v rest h = rw (read_number-Reads k v h rest) refl

-- A field in front of the other fields of its record.
read_le_next :
    (k v : ℕ) (more rest : List ℕ)
    → v < 256 ^ k
    → read_le k ((to_le k v ++ more) ++ rest) ≡ (v, more ++ rest)
read_le_next k v more rest h =
    ap (read_le k) (append_assoc (to_le k v) more rest) ∙ read_le_here k v (more ++ rest) h

read_array_here :
    (k : ℕ) (xs rest : List ℕ)
    → All (λ v. v < 256 ^ k) xs
    → read_array k (length xs) (concat_map (to_le k) xs ++ rest) ≡ (xs, rest)
unfolding read_array concat_map
read_array_here k [] rest h = refl
read_array_here k (x ∷ xs) rest h =
    rw (read_le_next k x (concat_map (to_le k) xs) rest h.0, read_array_here k xs rest h.1) refl

-- The fields of a file header are u32.
IsHeader : GridMapFileHeader → Type 0
IsHeader h =
    (h.magic < 2 ^ 32)
    × (h.version_magic < 2 ^ 32)
    × (h.area_map_offset < 2 ^ 32)
    × (h.area_map_size < 2 ^ 32)
    × (h.height_map_offset < 2 ^ 32)
    × (h.height_map_size < 2 ^ 32)
    × (h.liquid_map_offset < 2 ^ 32)
    × (h.liquid_map_size < 2 ^ 32)
    × (h.holes_offset < 2 ^ 32)
    × (h.holes_size < 2 ^ 32)

read_header-header_bytes :
    (h : GridMapFileHeader) (rest : List ℕ) → IsHeader h → read_header (header_bytes h ++ rest) ≡ h
unfolding read_header header_bytes IsHeader
read_header-header_bytes h rest (a, b, c, d, e, f, g, i, j, k) =
    rw
      (
        read_le_next 4 h.magic _ rest a,
        read_le_next 4 h.version_magic _ rest b,
        read_le_next 4 h.area_map_offset _ rest c,
        read_le_next 4 h.area_map_size _ rest d,
        read_le_next 4 h.height_map_offset _ rest e,
        read_le_next 4 h.height_map_size _ rest f,
        read_le_next 4 h.liquid_map_offset _ rest g,
        read_le_next 4 h.liquid_map_size _ rest i,
        read_le_next 4 h.holes_offset _ rest j,
        read_le_here 4 h.holes_size rest k,
      )
      refl

pub read_height_header-height_bytes :
    (h : GridMapHeightHeader) (payload rest : List ℕ)
    → h.fourcc < 2 ^ 32
    → h.flags < 2 ^ 32
    → h.grid_height < 2 ^ 32
    → h.grid_max_height < 2 ^ 32
    → read_height_header ((height_bytes h ++ payload) ++ rest) ≡ (h, payload ++ rest)
unfolding read_height_header height_bytes
read_height_header-height_bytes h payload rest a b c d =
    ap read_height_header (append_assoc (height_bytes h) payload rest)
    ∙ rw
        (
          read_le_next 4 h.fourcc _ (payload ++ rest) a,
          read_le_next 4 h.flags _ (payload ++ rest) b,
          read_le_next 4 h.grid_height _ (payload ++ rest) c,
          read_le_here 4 h.grid_max_height (payload ++ rest) d,
        )
        refl

read_arrays_here :
    (k : ℕ) (xs ys rest : List ℕ)
    → All (λ v. v < 256 ^ k) xs
    → All (λ v. v < 256 ^ k) ys
    → read_arrays k
        (length xs)
        (length ys)
        ((concat_map (to_le k) xs ++ concat_map (to_le k) ys) ++ rest)
      ≡ (xs, ys)
unfolding read_arrays
read_arrays_here k xs ys rest hx hy =
    rw
      (
        append_assoc (concat_map (to_le k) xs) (concat_map (to_le k) ys) rest,
        read_array_here k xs (concat_map (to_le k) ys ++ rest) hx,
        read_array_here k ys rest hy,
      )
      refl

read_grids_here :
    (k : ℕ) (v9 v8 rest : List ℕ)
    → length v9 ≡ 129 * 129
    → length v8 ≡ 128 * 128
    → All (λ v. v < 256 ^ k) v9
    → All (λ v. v < 256 ^ k) v8
    → read_grids k ((concat_map (to_le k) v9 ++ concat_map (to_le k) v8) ++ rest) ≡ (v9, v8)
unfolding read_grids
read_grids_here k v9 v8 rest e9 e8 h9 h8 =
    let bs = (concat_map (to_le k) v9 ++ concat_map (to_le k) v8) ++ rest in
    ap (λ m. read_arrays k m v8_size_sq bs) (sym e9)
    ∙ ap (λ n. read_arrays k (length v9) n bs) (sym e8)
    ∙ read_arrays_here k v9 v8 rest h9 h8

-- A height as it comes back from each way of storing it.
abbrev pub stored_value : (float : FloatOps) → HeightStore → (min_height diff value : ℕ) → ℕ
stored_value float as_int8 min_height diff value =
    restored float (float.div diff 0x437F0000) min_height
      (float.clamp_u8 (scaled float min_height (select_uint8_step_store float diff) value))
stored_value float as_int16 min_height diff value =
    restored float (float.div diff 0x477FFF00) min_height
      (float.clamp_u16 (scaled float min_height (select_uint16_step_store float diff) value))
stored_value float as_float min_height diff value = value

concat_map-map :
    (f : ℕ → List ℕ) (g : ℕ → ℕ) (xs : List ℕ)
    → concat_map (λ x. f (g x)) xs ≡ concat_map f (map g xs)
unfolding concat_map
concat_map-map f g [] = refl
concat_map-map f g (x ∷ xs) = ap (λ t. f (g x) ++ t) (concat_map-map f g xs)

length-map : (g : ℕ → ℕ) (xs : List ℕ) → length (map g xs) ≡ length xs
length-map g [] = refl
length-map g (x ∷ xs) = ap suc (length-map g xs)

map-map : (f g : ℕ → ℕ) (xs : List ℕ) → map f (map g xs) ≡ map (λ x. f (g x)) xs
map-map f g [] = refl
map-map f g (x ∷ xs) = ap (λ t. f (g x) ∷ t) (map-map f g xs)

map_id : (xs : List ℕ) → map (λ x. x) xs ≡ xs
map_id [] = refl
map_id (x ∷ xs) = ap (λ t. x ∷ t) (map_id xs)

All-map :
    (bound : ℕ) (g : ℕ → ℕ) (xs : List ℕ)
    → ((x : ℕ) → g x < bound)
    → All (λ v. v < bound) (map g xs)
All-map bound g [] h = tt
All-map bound g (x ∷ xs) h = (h x, All-map bound g xs h)

-- Grids whose heights were packed into `k` bytes by `g`.
read_packed :
    (k : ℕ) (g : ℕ → ℕ) (v9 v8 rest : List ℕ)
    → length v9 ≡ 129 * 129
    → length v8 ≡ 128 * 128
    → ((x : ℕ) → g x < 256 ^ k)
    → read_grids k
        ((concat_map (λ v. to_le k (g v)) v9 ++ concat_map (λ v. to_le k (g v)) v8) ++ rest)
      ≡ (map g v9, map g v8)
read_packed k g v9 v8 rest e9 e8 h =
    rw (concat_map-map (to_le k) g v9, concat_map-map (to_le k) g v8)
      (read_grids_here k (map g v9) (map g v8) rest (length-map g v9 ∙ e9) (length-map g v8 ∙ e8)
        (All-map (256 ^ k) g v9 h) (All-map (256 ^ k) g v8 h))

-- The header of the file is read back.
pub map_file_header :
    (s : MapFileSections) → file_size s < 2 ^ 32 → read_header (map_file s) ≡ layout_header s
unfolding map_file write_map_file Placed IsHeader layout_header from_le
map_file_header s small =
    let (area_off, area_size, height_off, height_size, liquid_size, holes_off, holes_size) =
      layout-Placed s small in
    read_header-header_bytes (layout_header s) _ (
      omega arith,
      omega arith,
      omega arith,
      omega arith,
      omega arith,
      omega arith,
      layout_liquid_offset_small s small,
      omega arith,
      omega arith,
      omega arith,
    )

-- The holes are read back.
pub map_file_holes :
    (s : MapFileSections)
    → file_size s < 2 ^ 32
    → length s.holes ≡ 256
    → All (λ v. v < 2 ^ 16) s.holes
    → read_holes (layout_header s).holes_offset (layout_header s).holes_size (map_file s) ≡ s.holes
unfolding read_holes Placed
map_file_holes s small len holes =
    let size : (layout_header s).holes_size ≡ 512 = omega (arith, (layout-Placed s small).6) in
    let d = layout_header s in
    let there : drop d.holes_offset (map_file s) ≡ concat_map (to_le 2) s.holes ++ [] =
      drop-holes s small ∙ sym (append-nil (concat_map (to_le 2) s.holes)) in
    ap (λ n. read_holes d.holes_offset n (map_file s)) size
    ∙ ap (λ n. (read_array 2 n (drop d.holes_offset (map_file s))).0) (sym len)
    ∙ ap (λ bs. (read_array 2 (length s.holes) bs).0) there
    ∙ ap (λ p. p.0) (read_array_here 2 s.holes [] holes)

module _ (float : FloatOps) (laws : FloatLaws float) where
  -- Each way of storing the heights is read by its own flag.
  pub read_heights_stored :
      (store : HeightStore) (h : GridMapHeightHeader) (v9 v8 rest : List ℕ)
      → h.flags ≡ store_flags store
      → length v9 ≡ 129 * 129
      → length v8 ≡ 128 * 128
      → All (λ v. v < 2 ^ 32) v9
      → All (λ v. v < 2 ^ 32) v8
      → let diff = float.sub h.grid_max_height h.grid_height in
        read_heights float (h, height_payload float store h.grid_height diff v8 v9 ++ rest) ≡ (
          map (stored_value float store h.grid_height diff) v9,
          map (stored_value float store h.grid_height diff) v8,
        )
  unfolding read_heights height_payload pack_u8 pack_u16 restored_grids store_flags
  read_heights_stored as_int8 h v9 v8 rest flags e9 e8 h9 h8 =
      let diff = float.sub h.grid_max_height h.grid_height in
      let g : ℕ → ℕ =
        λ v. float.clamp_u8 (scaled float h.grid_height (select_uint8_step_store float diff) v) in
      let r : ℕ → ℕ = restored float (float.div diff 0x437F0000) h.grid_height in
      let packed = read_packed 1 g v9 v8 rest e9 e8 (λ x. laws.clamp_u8_small _) in
      rw (read_heights, flags, packed) (rw (map-map r g v9, map-map r g v8) refl)
  read_heights_stored as_int16 h v9 v8 rest flags e9 e8 h9 h8 =
      let diff = float.sub h.grid_max_height h.grid_height in
      let g : ℕ → ℕ =
        λ v. float.clamp_u16 (scaled float h.grid_height (select_uint16_step_store float diff) v) in
      let r : ℕ → ℕ = restored float (float.div diff 0x477FFF00) h.grid_height in
      let packed = read_packed 2 g v9 v8 rest e9 e8 (λ x. laws.clamp_u16_small _) in
      rw (read_heights, flags, packed) (rw (map-map r g v9, map-map r g v8) refl)
  read_heights_stored as_float h v9 v8 rest flags e9 e8 h9 h8 =
      rw (read_heights, flags, read_grids_here 4 v9 v8 rest e9 e8 h9 h8)
        (rw (map_id v9, map_id v8) refl)
