-- ===== src/Extractors/RawModel/RoundTrip.antt =====
-- The assembler reads the single models that the extractor writes.
use cmangos_tbc.Base.{
  ℕ, ◌+◌, ◌*◌, ◌%◌, ◌^◌, ◌<◌, ◌≤◌, ◌≡◌, ◌∙◌, refl, sym, ap, true, false, Option, none, some, List,
  [], ◌∷◌, ◌++◌, length, All, arith, append-nil, drop, take, get_or, ltb, bytes_eq, map,
}
use cmangos_tbc.Base.Bytes.{to_le}
use cmangos_tbc.Base.Text.{text}
use cmangos_tbc.Extractors.Reader.{
  Reader, Reads, pure, ◌>>=◌, read_u16, read_u32, read_tag, repeat, concat_map, bind-Reads,
  read_tag-Reads, repeat-Reads,
}
use cmangos_tbc.Extractors.Float.{FloatOps, FloatLaws}
use cmangos_tbc.Extractors.Spawn.{Vec3, read_vec3, write_vec3}
use cmangos_tbc.Extractors.Spawn.RoundTrip.{IsVec3, read_u32-Reads, read_vec3-Reads, finish-Reads}
use cmangos_tbc.Extractors.RawModel.{
  WmoLiquid, RawGroup, RawModel, triangles_of, read_if_liquid, read_entries, read_raw_group,
  read_groups, value_of, parse_raw_model_with_header, or_parse, read_raw_model,
}
use cmangos_tbc.Extractors.RawModel.Single.{
  Parts, swap_from, head_bytes, grp_bytes, index_bytes, vertex_bytes, raw_model_bytes,
}
use cmangos_tbc.Extractors.RawModel.Swapped.{
  flipped, triangles_of-swap_from, length-swap_from, All-swap_from, All-Reads-vec3, All-Reads-u16,
  concat_map-vertices,
}

-- A chunk of entries, as it is written.
read_entries-Reads :
    {A : Type 0} (tag : List ℕ) (size : ℕ) (r : Reader A) (f : A → List ℕ) (xs : List A)
    → size < 2 ^ 32
    → length xs < 2 ^ 32
    → All (λ x. Reads r (f x) x) xs
    → Reads
        (read_entries tag r)
        (tag ++ (to_le 4 size ++ (to_le 4 (length xs) ++ concat_map f xs)))
        xs
unfolding read_entries
read_entries-Reads tag size r f xs hs hl h =
    bind-Reads (read_tag tag) _ tag _ (read_tag-Reads tag) (
      bind-Reads read_u32 _ (to_le 4 size) _ (read_u32-Reads size hs) (
        bind-Reads read_u32 _ (to_le 4 (length xs)) _ (read_u32-Reads (length xs) hl)
          (repeat-Reads r f xs h)))

abbrev zeros : Vec3
zeros = record { x = 0; y = 0; z = 0 }

-- The one group of a single model: only its triangles and its vertices are filled in.
abbrev pub single_group : Parts → RawGroup
single_group (indices, vertices) = record {
  mogp_flags = 0;
  group_wmo_id = 0;
  bounds = record { low = zeros; high = zeros };
  liquid_flags = 0;
  triangles = map flipped (triangles_of indices);
  vertices = vertices;
  liquid = none;
}

abbrev zeros_small : IsVec3 zeros
zeros_small = (omega arith, (omega arith, omega arith))

grp-Reads :
    (float : FloatOps) (n : ℕ)
    → n < 2 ^ 32
    → Reads (read_entries (text "GRP ") read_u32) (grp_bytes float n) (n ∷ [])
unfolding grp_bytes concat_map
grp-Reads float n h =
    let e : to_le 4 n ++ [] ≡ to_le 4 n = append-nil (to_le 4 n) in
    rw (sym e) (
      read_entries-Reads (text "GRP ") 8 read_u32 (to_le 4) (n ∷ []) (omega arith) (omega arith)
        (read_u32-Reads n h, tt))

index-Reads :
    (float : FloatOps) (indices : List ℕ)
    → length indices < 2 ^ 32
    → All (λ i. i < 2 ^ 16) indices
    → Reads
        (read_entries (text "INDX") read_u16)
        (index_bytes float indices)
        (swap_from (length indices) 0 indices)
unfolding index_bytes
index-Reads float indices few h =
    let xs = swap_from (length indices) 0 indices in
    let size : length xs ≡ length indices = length-swap_from (length indices) 0 indices in
    let block = (4 + 2 * length indices) % 2 ^ 32 in
    let reads =
      read_entries-Reads (text "INDX") block read_u16 (to_le 2) xs (omega arith) (omega arith)
        (All-Reads-u16 xs (All-swap_from (λ i. i < 2 ^ 16) (length indices) 0 indices h)) in
    let same : text "INDX" ++ (to_le 4 block ++ (to_le 4 (length xs) ++ concat_map (to_le 2) xs))
        ≡ text "INDX" ++ (to_le 4 block ++ (to_le 4 (length indices) ++ concat_map (to_le 2) xs)) =
      ap (λ k. text "INDX" ++ (to_le 4 block ++ (to_le 4 k ++ concat_map (to_le 2) xs))) size in
    λ rest. ap (λ bs. read_entries (text "INDX") read_u16 (bs ++ rest)) (sym same) ∙ reads rest

vertex-Reads :
    (float : FloatOps) (vertices : List Vec3)
    → FloatLaws float
    → length vertices < 2 ^ 32
    → All IsVec3 vertices
    → Reads (read_entries (text "VERT") read_vec3) (vertex_bytes float vertices) vertices
unfolding vertex_bytes
vertex-Reads float vertices laws few h = rw (concat_map-vertices float vertices laws h) (
    read_entries-Reads (text "VERT") ((4 + 12 * length vertices) % 2 ^ 32) read_vec3 write_vec3
      vertices (omega arith) few (All-Reads-vec3 vertices h))

-- The last chunk, where no liquid follows.
finish_dry :
    {A B : Type 0} (r : Reader A) (g : A → Option WmoLiquid → B) (bs : List ℕ) {a : A}
    → Reads r bs a
    → Reads (r >>= λ x. read_if_liquid false >>= λ l. pure (g x l)) bs (g a none)
unfolding ◌>>=◌ read_if_liquid
finish_dry r g bs h rest = rw (◌>>=◌, h rest) refl

once-Reads :
    {A : Type 0} (r : Reader A) (bs : List ℕ) {a : A}
    → Reads r bs a
    → Reads (repeat r 1) bs (a ∷ [])
unfolding ◌>>=◌ repeat
once-Reads r bs h rest = rw (◌>>=◌, h rest) refl

-- The bytes of the group: 40 zeros, and the three chunks.
abbrev group_bytes : FloatOps → Parts → List ℕ
group_bytes float (indices, vertices) =
    to_le 4 0
    ++ (to_le 4 0
        ++ (write_vec3 zeros
            ++ (write_vec3 zeros
                ++ (to_le 4 0
                    ++ (grp_bytes float (length indices)
                        ++ (index_bytes float indices ++ vertex_bytes float vertices))))))

group-Reads :
    (float : FloatOps) (indices : List ℕ) (vertices : List Vec3)
    → FloatLaws float
    → length indices < 2 ^ 32
    → length vertices < 2 ^ 32
    → All (λ i. i < 2 ^ 16) indices
    → All IsVec3 vertices
    → Reads read_raw_group
        (group_bytes float (indices, vertices))
        (single_group (indices, vertices))
unfolding read_raw_group read_if_liquid
group-Reads float indices vertices laws few_i few_v hi hv =
    let tris = triangles_of-swap_from (length indices) 0 indices (omega arith) (omega arith) in
    rw (sym tris) (
      bind-Reads read_u32 _ (to_le 4 0) _ (read_u32-Reads 0 (omega arith)) (
        bind-Reads read_u32 _ (to_le 4 0) _ (read_u32-Reads 0 (omega arith)) (
          bind-Reads read_vec3 _ (write_vec3 zeros) _ (read_vec3-Reads zeros zeros_small) (
            bind-Reads read_vec3 _ (write_vec3 zeros) _ (read_vec3-Reads zeros zeros_small) (
              bind-Reads read_u32 _ (to_le 4 0) _ (read_u32-Reads 0 (omega arith)) (
                bind-Reads _ _ (grp_bytes float (length indices)) _
                  (grp-Reads float (length indices) few_i)
                  (bind-Reads _ _ (index_bytes float indices) _ (index-Reads float indices few_i hi)
                    (finish_dry (read_entries (text "VERT") read_vec3) _
                      (vertex_bytes float vertices)
                      (vertex-Reads float vertices laws few_v hv)))))))))

model_bytes-Reads :
    (float : FloatOps) (indices : List ℕ) (vertices : List Vec3)
    → FloatLaws float
    → length indices < 2 ^ 32
    → length vertices < 2 ^ 32
    → All (λ i. i < 2 ^ 16) indices
    → All IsVec3 vertices
    → Reads read_groups
        (to_le 4 (length vertices)
          ++ (to_le 4 1 ++ (to_le 4 0 ++ group_bytes float (indices, vertices))))
        (record { root_wmo_id = 0; groups = single_group (indices, vertices) ∷ [] })
unfolding read_groups
model_bytes-Reads float indices vertices laws few_i few_v hi hv =
    bind-Reads read_u32 _ (to_le 4 (length vertices)) _ (read_u32-Reads (length vertices) few_v) (
      bind-Reads read_u32 _ (to_le 4 1) _ (read_u32-Reads 1 (omega arith)) (
        bind-Reads read_u32 _ (to_le 4 0) _ (read_u32-Reads 0 (omega arith)) (
          finish-Reads (repeat read_raw_group 1) _ (group_bytes float (indices, vertices)) (
            once-Reads read_raw_group (group_bytes float (indices, vertices))
              (group-Reads float indices vertices laws few_i few_v hi hv)))))

-- The file is the magic with its eight bytes, and then what `read_groups` reads.
raw_model_bytes_split :
    (float : FloatOps) (indices : List ℕ) (vertices : List Vec3)
    → raw_model_bytes float (indices, vertices)
      ≡ (text "VMAPs05" ++ (0 ∷ []))
        ++ (to_le 4 (length vertices)
            ++ (to_le 4 1 ++ (to_le 4 0 ++ group_bytes float (indices, vertices))))
unfolding raw_model_bytes head_bytes to_le write_vec3
raw_model_bytes_split float indices vertices = refl

parse_by :
    (file : List ℕ) (m : RawModel)
    → ltb (length file) (8 + 12) ≡ false
    → bytes_eq (take 7 file) (text "VMAPs05") ≡ true
    → read_groups (drop 8 file) ≡ some (m, [])
    → parse_raw_model_with_header file 8 ≡ some m
unfolding parse_raw_model_with_header value_of
parse_by file m long magic e = rw (long, magic, e) refl

read_by :
    (file : List ℕ) (m : RawModel)
    → ltb (length file) 8 ≡ false
    → get_or file 7 0 ≡ 0
    → parse_raw_model_with_header file 8 ≡ some m
    → read_raw_model (some file) ≡ some m
unfolding read_raw_model or_parse
read_by file m long last e = rw (long, last, e) refl

read_raw_model_magic :
    (bytes : List ℕ) (m : RawModel)
    → 12 ≤ length bytes
    → read_groups bytes ≡ some (m, [])
    → read_raw_model (some ((text "VMAPs05" ++ (0 ∷ [])) ++ bytes)) ≡ some m
unfolding bytes_eq
read_raw_model_magic bytes m h e =
    let file = (text "VMAPs05" ++ (0 ∷ [])) ++ bytes in
    let size : length file ≡ 8 + length bytes = omega arith in
    read_by file m (rw size (ground arith)) refl (parse_by file m (rw size (ground arith)) refl e)

length-counts : (n : ℕ) (xs : List ℕ) → 12 ≤ length (to_le 4 n ++ (to_le 4 1 ++ (to_le 4 0 ++ xs)))
unfolding to_le
length-counts n xs = omega arith

-- The assembler reads what the extractor writes for a single model: one group without liquid, with
-- the vertices of the model, and the triangles of its indices with the second and the third corner
-- swapped. There are less than 2^32 of each, and the numbers fit their types.
pub read_raw_model-raw_model_bytes :
    (float : FloatOps) (indices : List ℕ) (vertices : List Vec3)
    → FloatLaws float
    → length indices < 2 ^ 32
    → length vertices < 2 ^ 32
    → All (λ i. i < 2 ^ 16) indices
    → All IsVec3 vertices
    → read_raw_model (some (raw_model_bytes float (indices, vertices)))
      ≡ some (record { root_wmo_id = 0; groups = single_group (indices, vertices) ∷ [] })
read_raw_model-raw_model_bytes float indices vertices laws few_i few_v hi hv =
    let body =
      to_le 4 (length vertices)
      ++ (to_le 4 1 ++ (to_le 4 0 ++ group_bytes float (indices, vertices))) in
    let reads = model_bytes-Reads float indices vertices laws few_i few_v hi hv [] in
    ap (λ bs. read_raw_model (some bs)) (raw_model_bytes_split float indices vertices)
    ∙ read_raw_model_magic body _
        (length-counts (length vertices) (group_bytes float (indices, vertices)))
        (ap read_groups (sym (append-nil body)) ∙ reads)
