-- ===== src/Extractors/RawModel/Single.antt =====
-- The raw model of a single model file: `parse_model_header` and `extract_single_model` of
-- crates/extractors/src/vmap_extract.rs, from the file's bytes to the bytes that are written.
use cmangos_tbc.Base.{
  ℕ, ◌+◌, ◌*◌, ◌%◌, ◌^◌, Option, none, some, List, [], ◌∷◌, ◌++◌, if◌then◌else◌, ◌==◌, ltb, length,
  take, drop, replicate, zero, suc,
}
use cmangos_tbc.Base.Bytes.{to_le}
use cmangos_tbc.Base.Text.{text}
use cmangos_tbc.Extractors.Reader.{
  Reader, pure, ◌>>=◌, read_exact, read_u16, read_u32, repeat, concat_map,
}
use cmangos_tbc.Extractors.Float.{FloatOps}
use cmangos_tbc.Extractors.Spawn.{Vec3, read_vec3, write_vec3}
use cmangos_tbc.Extractors.RawModel.{value_of}

pub record ModelHeaderInfo : Type 0 where
  pub n_bounding_triangles : ℕ
  pub ofs_bounding_triangles : ℕ
  pub n_bounding_vertices : ℕ
  pub ofs_bounding_vertices : ℕ

unfoldable pub read_model_header : Reader ModelHeaderInfo
read_model_header = do
  id ← read_exact 4
  version ← read_exact 4
  numbers ← repeat read_u32 43
  floats ← repeat (read_exact 4) 14
  n_bounding_triangles ← read_u32
  ofs_bounding_triangles ← read_u32
  n_bounding_vertices ← read_u32
  ofs_bounding_vertices ← read_u32
  pure (record {
    n_bounding_triangles = n_bounding_triangles;
    ofs_bounding_triangles = ofs_bounding_triangles;
    n_bounding_vertices = n_bounding_vertices;
    ofs_bounding_vertices = ofs_bounding_vertices;
  })

unfoldable pub parse_model_header : List ℕ → Option ModelHeaderInfo
unfolding read_model_header value_of
parse_model_header file = value_of (read_model_header file)

unfoldable pub get_slice : (offset size : ℕ) → List ℕ → Option (List ℕ)
get_slice offset size file =
    if ltb (length file) (offset + size) then none else some (take size (drop offset file))

-- The loop that swaps the second and the third index of each triangle, on the indices from `i` on.
unfoldable pub swap_from : (rounds i : ℕ) → List ℕ → List ℕ
swap_from zero i xs = xs
swap_from (suc rounds) i (x ∷ y ∷ rest) =
    let swapped = swap_from rounds (suc i) (x ∷ rest) in
    let kept = swap_from rounds (suc i) (y ∷ rest) in if i % 3 == 1 then y ∷ swapped else x ∷ kept
swap_from (suc rounds) i (x ∷ []) = x ∷ []
swap_from (suc rounds) i [] = []

-- The indices and the vertices of a model: `some none` where it has none to write, `none` for an error.
abbrev pub Parts : Type 0
Parts = List ℕ × List Vec3

unfoldable pub both : Option (List ℕ) → Option (List Vec3) → Option (Option Parts)
both none vertices = none
both (some indices) none = none
both (some indices) (some vertices) = some (some (indices, vertices))

unfoldable pub read_parts :
    ModelHeaderInfo → (vertices_slice indices_slice : Option (List ℕ)) → Option (Option Parts)
unfolding value_of both
read_parts h none indices_slice = some none
read_parts h (some vertices_slice) none = some none
read_parts h (some vertices_slice) (some indices_slice) =
    both (value_of (repeat read_u16 h.n_bounding_triangles indices_slice))
      (value_of (repeat read_vec3 h.n_bounding_vertices vertices_slice))

unfoldable pub model_parts : List ℕ → Option ModelHeaderInfo → Option (Option Parts)
unfolding get_slice read_parts
model_parts file none = none
model_parts file (some h) =
    if h.n_bounding_triangles == 0
    then some none
    else read_parts h (get_slice h.ofs_bounding_vertices (h.n_bounding_vertices * 12) file)
        (get_slice h.ofs_bounding_triangles (h.n_bounding_triangles * 2) file)

module _ (float : FloatOps) where
  unfoldable pub fix_coord_system : Vec3 → Vec3
  fix_coord_system v = record { x = v.x; y = v.z; z = float.neg v.y }

  -- The swap of y and z when a vertex is written.
  unfoldable pub unfixed : Vec3 → Vec3
  unfixed v = record { x = v.x; y = float.neg v.z; z = v.y }

  unfoldable pub written_vertex : Vec3 → List ℕ
  unfolding fix_coord_system unfixed write_vec3
  written_vertex v = write_vec3 (unfixed (fix_coord_system v))

  -- The magic, the counts, and what a file of this kind leaves 0.
  unfoldable pub head_bytes : (n_vertices : ℕ) → List ℕ
  head_bytes n_vertices =
      (text "VMAPs05" ++ (0 ∷ []))
      ++ (to_le 4 n_vertices
          ++ (to_le 4 1 ++ (replicate 12 0 ++ (replicate 24 0 ++ replicate 4 0))))

  -- The sizes of the blocks wrap.
  unfoldable pub grp_bytes : (n_indexes : ℕ) → List ℕ
  grp_bytes n_indexes = text "GRP " ++ (to_le 4 8 ++ (to_le 4 1 ++ to_le 4 n_indexes))

  unfoldable pub index_bytes : List ℕ → List ℕ
  unfolding swap_from concat_map
  index_bytes indices =
      let n_indexes = length indices in
      text "INDX"
      ++ (to_le 4 ((4 + 2 * n_indexes) % 2 ^ 32)
          ++ (to_le 4 n_indexes ++ concat_map (to_le 2) (swap_from n_indexes 0 indices)))

  unfoldable pub vertex_bytes : List Vec3 → List ℕ
  unfolding written_vertex concat_map
  vertex_bytes vertices =
      let n_vertices = length vertices in
      text "VERT"
      ++ (to_le 4 ((4 + 12 * n_vertices) % 2 ^ 32)
          ++ (to_le 4 n_vertices ++ concat_map written_vertex vertices))

  unfoldable pub raw_model_bytes : Parts → List ℕ
  unfolding head_bytes grp_bytes index_bytes vertex_bytes
  raw_model_bytes (indices, vertices) =
      head_bytes (length vertices)
      ++ (grp_bytes (length indices) ++ (index_bytes indices ++ vertex_bytes vertices))

  unfoldable pub write_parts : Option (Option Parts) → Option (Option (List ℕ))
  unfolding raw_model_bytes
  write_parts none = none
  write_parts (some none) = some none
  write_parts (some (some parts)) = some (some (raw_model_bytes parts))

  -- What is written for a model file; `some none` where nothing is.
  unfoldable pub single_model_bytes : List ℕ → Option (Option (List ℕ))
  unfolding parse_model_header model_parts write_parts
  single_model_bytes file = write_parts (model_parts file (parse_model_header file))
