-- ===== src/Extractors/RawModel.antt =====
-- The raw models that crates/extractors/src/vmap_assemble.rs reads. An i32 or i16 is the number without
-- a sign that has the same bits.
pub mod Single
pub mod Swapped
pub mod RoundTrip
use cmangos_tbc.Base.{
  ℕ, ◌+◌, ◌*◌, ◌%◌, ◌^◌, Bool, true, false, not, ◌||◌, Option, none, some, List, [], ◌∷◌, ◌++◌,
  if◌then◌else◌, ◌==◌, ltb, length, take, drop, get_or, bit_and, bytes_eq, replicate, zero, suc,
}
use cmangos_tbc.Base.Bytes.{to_le}
use cmangos_tbc.Base.Text.{text}
use cmangos_tbc.Extractors.Reader.{
  Reader, pure, ◌>>=◌, ◌>>◌, read_exact, read_u16, read_u32, read_f32, read_tag, repeat, concat_map,
}
use cmangos_tbc.Extractors.Float.{FloatOps}
use cmangos_tbc.Extractors.Spawn.{Vec3, AaBox, read_vec3, write_vec3}

pub record MeshTriangle : Type 0 where
  pub idx0 : ℕ
  pub idx1 : ℕ
  pub idx2 : ℕ

pub record WmoLiquid : Type 0 where
  pub tiles_x : ℕ
  pub tiles_y : ℕ
  pub corner : Vec3
  pub liquid_type : ℕ
  pub heights : List ℕ
  pub flags : List ℕ

pub record RawGroup : Type 0 where
  pub mogp_flags : ℕ
  pub group_wmo_id : ℕ
  pub bounds : AaBox
  pub liquid_flags : ℕ
  pub triangles : List MeshTriangle
  pub vertices : List Vec3
  pub liquid : Option WmoLiquid

pub record RawModel : Type 0 where
  pub root_wmo_id : ℕ
  pub groups : List RawGroup

-- `.max(0)` of an i32 and of an i16.
unfoldable pub positive_i32 : ℕ → ℕ
positive_i32 v = if ltb v (2 ^ 31) then v else 0

unfoldable pub positive_i16 : ℕ → ℕ
positive_i16 v = if ltb v (2 ^ 15) then v else 0

-- `chunks(3)` without a shorter last one.
unfoldable pub triangles_of : List ℕ → List MeshTriangle
triangles_of (a ∷ b ∷ c ∷ rest) = record { idx0 = a; idx1 = b; idx2 = c } ∷ triangles_of rest
triangles_of (a ∷ b ∷ []) = []
triangles_of (a ∷ []) = []
triangles_of [] = []

unfoldable pub read_wmo_liquid : Reader WmoLiquid
unfolding read_vec3 positive_i32 positive_i16
read_wmo_liquid = do
  read_tag (text "LIQU")
  block_size ← read_u32
  xverts ← read_u32
  yverts ← read_u32
  xtiles ← read_u32
  ytiles ← read_u32
  pos ← read_vec3
  liquid_type ← read_u16
  pad ← read_u16
  heights ← repeat read_f32 (positive_i32 ((xverts * yverts) % 2 ^ 32))
  flags ← read_exact (positive_i32 ((xtiles * ytiles) % 2 ^ 32))
  pure (record {
    tiles_x = positive_i32 xtiles;
    tiles_y = positive_i32 ytiles;
    corner = pos;
    liquid_type = positive_i16 liquid_type;
    heights = heights;
    flags = flags;
  })

unfoldable pub read_if_liquid : Bool → Reader (Option WmoLiquid)
unfolding read_wmo_liquid
read_if_liquid false = pure none
read_if_liquid true = read_wmo_liquid >>= λ l. pure (some l)

-- A chunk: its tag, the size of its block, and a number of entries.
unfoldable pub read_entries : {A : Type 0} → (tag : List ℕ) → Reader A → Reader (List A)
read_entries tag r = do read_tag tag; block_size ← read_u32; count ← read_u32; repeat r count

unfoldable pub read_raw_group : Reader RawGroup
unfolding read_vec3 read_entries triangles_of read_if_liquid
read_raw_group = do
  mogp_flags ← read_u32
  group_wmo_id ← read_u32
  low ← read_vec3
  high ← read_vec3
  liquid_flags ← read_u32
  branches ← read_entries (text "GRP ") read_u32
  indices ← read_entries (text "INDX") read_u16
  vertices ← read_entries (text "VERT") read_vec3
  liquid ← read_if_liquid (not (bit_and liquid_flags 1 == 0))
  pure (record {
    mogp_flags = mogp_flags;
    group_wmo_id = group_wmo_id;
    bounds = record { low = low; high = high };
    liquid_flags = liquid_flags;
    triangles = triangles_of indices;
    vertices = vertices;
    liquid = liquid;
  })

-- What follows the magic.
unfoldable pub read_groups : Reader RawModel
unfolding read_raw_group
read_groups = do
  temp_vectors ← read_u32
  group_count ← read_u32
  root_wmo_id ← read_u32
  groups ← repeat read_raw_group group_count
  pure (record { root_wmo_id = root_wmo_id; groups = groups })

unfoldable pub value_of : {A : Type 0} → Option (A × List ℕ) → Option A
value_of none = none
value_of (some (a, rest)) = some a

unfoldable pub parse_raw_model_with_header : (file : List ℕ) → (header_len : ℕ) → Option RawModel
unfolding bytes_eq read_groups value_of
parse_raw_model_with_header file header_len =
    let parsed = value_of (read_groups (drop header_len file)) in
    if ltb (length file) (header_len + 12)
    then none
    else if not (bytes_eq (take 7 file) (text "VMAPs05"))
    then none
    else parsed

unfoldable pub or_parse : Option RawModel → Option RawModel → Option RawModel
or_parse none second = second
or_parse (some m) second = some m

-- The magic has eight bytes, the last one 0, or seven. The file may be missing.
unfoldable pub read_raw_model : Option (List ℕ) → Option RawModel
unfolding parse_raw_model_with_header or_parse
read_raw_model none = none
read_raw_model (some file) =
    let long = parse_raw_model_with_header file 8 in
    let short = parse_raw_model_with_header file 7 in
    if ltb (length file) 8 || not (get_or file 7 0 == 0) then short else or_parse long short

-- The first `n` values, the default for those that are missing.
unfoldable pub first_values : (n default : ℕ) → List ℕ → List ℕ
first_values zero default xs = []
first_values (suc n) default [] = default ∷ first_values n default []
first_values (suc n) default (x ∷ xs) = x ∷ first_values n default xs

-- `(tiles_x + 1) * (tiles_y + 1)` and `tiles_x * tiles_y` on u32.
abbrev pub height_size : WmoLiquid → ℕ
height_size l = ((l.tiles_x + 1) % 2 ^ 32 * ((l.tiles_y + 1) % 2 ^ 32)) % 2 ^ 32

abbrev pub flag_size : WmoLiquid → ℕ
flag_size l = (l.tiles_x * l.tiles_y) % 2 ^ 32

-- `write_to` of a liquid, and the size that is written in front of it.
unfoldable pub liquid_bytes : WmoLiquid → List ℕ
unfolding write_vec3 first_values concat_map
liquid_bytes l =
    to_le 4 l.tiles_x
    ++ (to_le 4 l.tiles_y
        ++ (write_vec3 l.corner
            ++ (to_le 4 l.liquid_type
                ++ (concat_map (to_le 4) (first_values (height_size l) 0 l.heights)
                    ++ first_values (flag_size l) 0 l.flags))))

unfoldable pub file_size : WmoLiquid → ℕ
file_size l = (2 * 4 + 12 + height_size l * 4 + flag_size l) % 2 ^ 32

module _ (float : FloatOps) where
  -- The lowest and the highest corner of the vertices: `AaBox::from_point`, then `merge`.
  unfoldable pub merge : AaBox → Vec3 → AaBox
  merge b p = record {
    low = record {
      x = float.min b.low.x p.x;
      y = float.min b.low.y p.y;
      z = float.min b.low.z p.z;
    };
    high = record {
      x = float.max b.high.x p.x;
      y = float.max b.high.y p.y;
      z = float.max b.high.z p.z;
    };
  }

  unfoldable pub merge_point : Vec3 → Option AaBox → Option AaBox
  unfolding merge
  merge_point p none = some (record { low = p; high = p })
  merge_point p (some b) = some (merge b p)

  unfoldable pub merge_points : List Vec3 → Option AaBox → Option AaBox
  unfolding merge_point
  merge_points [] bound = bound
  merge_points (v ∷ vs) bound = merge_points vs (merge_point v bound)

  unfoldable pub merge_groups : List RawGroup → Option AaBox → Option AaBox
  unfolding merge_points
  merge_groups [] bound = bound
  merge_groups (g ∷ gs) bound = merge_groups gs (merge_points g.vertices bound)

  unfoldable pub compute_model_bounds : RawModel → Option AaBox
  unfolding merge_groups
  compute_model_bounds model = merge_groups model.groups none
