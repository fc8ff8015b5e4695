-- ===== src/Extractors/Vmap.antt =====
-- What crates/extractors/src/movemap_gen.rs reads from the assembler's files: spawns, models and their
-- groups. A number that cannot be read is 0, and nothing is left then.
pub mod Models
pub mod Inside
pub mod LoadVmap
pub mod Total
use cmangos_tbc.Base.{
  ℕ, ◌+◌, ◌*◌, ◌%◌, ◌^◌, Bool, true, false, not, ◌&&◌, ◌||◌, Option, none, some, List, [], ◌∷◌,
  if◌then◌else◌, ◌==◌, ltb, length, drop, take, bit_and, bytes_eq, zero, suc,
}
use cmangos_tbc.Base.Text.{Text, text, from_utf8_lossy}
use cmangos_tbc.Extractors.Reader.{Reader, pure, ◌>>=◌, ◌>>◌, read_exact, repeat}
use cmangos_tbc.Extractors.Spawn.{Vec3}
use cmangos_tbc.Extractors.MapFile.Load.{read_le}
use cmangos_tbc.Extractors.RawModel.{value_of}

unfoldable pub read_or_zero : ℕ → Reader ℕ
unfolding read_le
read_or_zero k bs = some (read_le k bs)

abbrev pub read_u32_le : Reader ℕ
read_u32_le = read_or_zero 4

abbrev pub read_f32_le : Reader ℕ
read_f32_le = read_or_zero 4

unfoldable pub read_vec3_le : Reader Vec3
unfolding read_or_zero
read_vec3_le = do
  x ← read_f32_le
  y ← read_f32_le
  z ← read_f32_le
  pure (record { x = x; y = y; z = z })

-- `set_position`, forwards.
unfoldable pub skip : ℕ → Reader (Unit {0})
skip n bs = some (tt, drop n bs)

-- The bounds, the tree and the objects of a hierarchy, which are not used.
unfoldable pub skip_bih : Reader (Unit {0})
unfolding read_or_zero skip
skip_bih = do
  bounds ← repeat read_f32_le 6
  tree_size ← read_u32_le
  skip (tree_size * 4)
  obj_count ← read_u32_le
  skip (obj_count * 4)

pub record ModelSpawnData : Type 0 where
  pub name : Text
  pub pos : Vec3
  pub rot : Vec3
  pub scale : ℕ
  pub flags : ℕ

pub record VmapLiquidData : Type 0 where
  pub tiles_x : ℕ
  pub tiles_y : ℕ
  pub corner : Vec3
  pub liq_type : ℕ
  pub heights : List ℕ
  pub flags : List ℕ

-- Three indices of a triangle.
abbrev pub Triple : Type 0
Triple = ℕ × ℕ × ℕ

pub record GroupData : Type 0 where
  pub vertices : List Vec3
  pub triangles : List Triple
  pub liquid : Option VmapLiquidData

-- `trim_end_matches('\0')`.
unfoldable pub trim_nul : Text → Text
trim_nul [] = []
trim_nul (c ∷ cs) =
    let rest = trim_nul cs in if (c == 0) && (length rest == 0) then [] else c ∷ rest

unfoldable pub skip_bounds : Bool → Reader (List ℕ)
unfolding read_or_zero
skip_bounds false = pure []
skip_bounds true = repeat read_f32_le 6

unfoldable pub read_model_spawn : Reader ModelSpawnData
unfolding read_or_zero read_vec3_le skip_bounds trim_nul
read_model_spawn = do
  flags ← read_u32_le
  adt_id ← read_or_zero 2
  id ← read_u32_le
  pos ← read_vec3_le
  rot ← read_vec3_le
  scale ← read_f32_le
  bounds ← skip_bounds (not (bit_and flags 4 == 0))
  name_len ← read_u32_le
  name_bytes ← read_exact name_len
  pure (record {
    name = trim_nul (from_utf8_lossy name_bytes);
    pos = pos;
    rot = rot;
    scale = scale;
    flags = flags;
  })

unfoldable pub read_triple : Reader Triple
unfolding read_or_zero
read_triple = do i0 ← read_u32_le; i1 ← read_u32_le; i2 ← read_u32_le; pure (i0, i1, i2)

-- The numbers of heights and of flags are products on u32.
unfoldable pub read_vmap_liquid : Reader VmapLiquidData
unfolding read_or_zero read_vec3_le
read_vmap_liquid = do
  tiles_x ← read_u32_le
  tiles_y ← read_u32_le
  corner ← read_vec3_le
  liq_type ← read_u32_le
  heights ← repeat read_f32_le (((tiles_x + 1) % 2 ^ 32 * ((tiles_y + 1) % 2 ^ 32)) % 2 ^ 32)
  flags ← read_exact ((tiles_x * tiles_y) % 2 ^ 32)
  pure (record {
    tiles_x = tiles_x;
    tiles_y = tiles_y;
    corner = corner;
    liq_type = liq_type;
    heights = heights;
    flags = flags;
  })

unfoldable pub read_vmap_liquid_if : Bool → Reader (Option VmapLiquidData)
unfolding read_vmap_liquid
read_vmap_liquid_if false = pure none
read_vmap_liquid_if true = read_vmap_liquid >>= λ l. pure (some l)

-- The tags of the chunks are read but not compared.
unfoldable pub read_group_model : Reader GroupData
unfolding read_or_zero skip_bih read_vec3_le read_triple read_vmap_liquid_if
read_group_model = do
  mogp_flags ← read_u32_le
  group_wmo_id ← read_u32_le
  bounds ← repeat read_f32_le 6
  skip_bih
  vert_tag ← read_exact 4
  n_verts ← read_u32_le
  vertices ← repeat read_vec3_le n_verts
  trim_tag ← read_exact 4
  n_tris ← read_u32_le
  triangles ← repeat read_triple n_tris
  skip_bih
  has_liquid ← read_u32_le
  liquid ← read_vmap_liquid_if (not (has_liquid == 0))
  pure (record { vertices = vertices; triangles = triangles; liquid = liquid })

unfoldable pub read_world_model : Reader (List GroupData)
unfolding read_or_zero skip_bih read_group_model
read_world_model = do
  magic ← read_exact 8
  root_wmo_id ← read_u32_le
  n_groups ← read_u32_le
  model_flags ← read_u32_le
  skip_bih
  repeat read_group_model n_groups

-- The groups of a model's file, if it is there and long enough.
unfoldable pub load_world_model : Option (List ℕ) → Option (List GroupData)
unfolding read_world_model value_of
load_world_model none = none
load_world_model (some file) =
    let groups = value_of (read_world_model file) in if ltb (length file) 12 then none else groups

-- The header of a tree file: the number of its spawns.
unfoldable pub read_tree_header : Reader ℕ
unfolding read_or_zero skip_bih
read_tree_header = do magic ← read_exact 8; is_tiled ← read_u32_le; skip_bih; read_u32_le

-- Whether a text stands in another one.
unfoldable pub starts_with : (needle : Text) → Text → Bool
starts_with needle s = bytes_eq (take (length needle) s) needle

unfoldable pub contains_text : (needle : Text) → Text → Bool
unfolding starts_with bytes_eq
contains_text needle [] = length needle == 0
contains_text needle (c ∷ s) = starts_with needle (c ∷ s) || contains_text needle s

unfoldable pub is_m2_name : Text → Bool
unfolding contains_text
is_m2_name name = contains_text (text ".m2") name || contains_text (text ".M2") name
