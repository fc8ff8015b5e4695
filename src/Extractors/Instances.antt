-- ===== src/Extractors/Instances.antt =====
-- The instances that crates/extractors/src/vmap_extract.rs appends to dir_bin, and its unique ids.
-- The folder of extracted models is the parameter `files`: a model's bytes, if the file exists.
pub mod Ids
pub mod Record
pub mod DirBin
use cmangos_tbc.Base.{
  ℕ, ◌+◌, ◌^◌, ◌%◌, Bool, true, false, not, ◌||◌, ◌&&◌, Option, none, some, List, [], ◌∷◌, ◌++◌,
  if◌then◌else◌, ◌==◌, length, drop, bit_and, bit_or,
}
use cmangos_tbc.Base.Bytes.{to_le}
use cmangos_tbc.Base.Text.{Text}
use cmangos_tbc.Extractors.Reader.{Reader, pure, ◌>>=◌, read_exact, read_u32}
use cmangos_tbc.Extractors.Float.{FloatOps}
use cmangos_tbc.Extractors.Spawn.{Vec3, AaBox, mod_m2, mod_worldspawn, mod_has_bound, write_vec3}

-- The client's id and the number of a doodad, 0 for an instance of its own.
abbrev pub Key : Type 0
Key = ℕ × ℕ

abbrev pub key_eq : Key → Key → Bool
key_eq a b = (a.0 == b.0) && (a.1 == b.1)

-- The newest entry first.
abbrev pub UniqueIds : Type 0
UniqueIds = List (Key × ℕ)

unfoldable pub find : Key → UniqueIds → Option ℕ
find key [] = none
find key ((k, v) ∷ map) = let rest = find key map in if key_eq key k then some v else rest

unfoldable pub or_next : Key → Option ℕ → UniqueIds → ℕ × UniqueIds
or_next key (some value) map = (value, map)
or_next key none map = let next = (length map + 1) % 2 ^ 32 in (next, (key, next) ∷ map)

unfoldable pub generate : (client_id doodad_id : ℕ) → UniqueIds → ℕ × UniqueIds
unfolding find or_next
generate client_id doodad_id map =
    or_next (client_id, doodad_id) (find (client_id, doodad_id) map) map

unfoldable pub fix_coords : Vec3 → Vec3
fix_coords v = record { x = v.z; y = v.x; z = v.y }

unfoldable pub write_aabox : AaBox → List ℕ
unfolding write_vec3
write_aabox b = write_vec3 b.low ++ write_vec3 b.high

-- The u32 in the last four of the first twelve bytes.
unfoldable pub read_vertex_count : Reader ℕ
read_vertex_count bytes = (read_exact 12 >>= λ buf _. (read_u32 >>= pure) (drop 8 buf)) bytes

unfoldable pub first_of : Option (ℕ × List ℕ) → Option ℕ
first_of none = none
first_of (some (n, rest)) = some n

-- The vertices of a model: `some none` if its file is not there, `none` if it cannot be read.
unfoldable pub read_model_vertex_count : Option (List ℕ) → Option (Option ℕ)
unfolding read_vertex_count first_of
read_model_vertex_count none = some none
read_model_vertex_count (some bytes) = elim (first_of (read_vertex_count bytes)) [
  | none ↦ none
  | some n ↦ some (some n)
]

pub record ModelInstanceData : Type 0 where
  pub id : ℕ
  pub position : Vec3
  pub rotation : Vec3
  pub scale : ℕ

pub record WmoInstanceData : Type 0 where
  pub unique_id : ℕ
  pub position : Vec3
  pub rotation : Vec3
  pub bounds : AaBox
  pub flags : ℕ
  pub doodad_set : ℕ
  pub name_set : ℕ

abbrev pub is_global : (tile_x tile_y : ℕ) → Bool
is_global tile_x tile_y = (tile_x == 65) && (tile_y == 65)

-- A value of type f32 is 0.0 or -0.0.
abbrev pub is_zero : ℕ → Bool
is_zero bits = (bits == 0) || (bits == 0x80000000)

-- 533.3333 * 32, where models without a position of their own lie.
abbrev pub map_centre : ℕ
map_centre = 0x46855555

unfoldable pub centred : Vec3 → Vec3
centred v = if is_zero v.x && is_zero v.z then record v { x = map_centre; z = map_centre } else v

-- The result of a write: the ids, and what is appended to dir_bin.
abbrev pub Written : Type 0
Written = UniqueIds × List ℕ

module _ (float : FloatOps) (map_id tile_x tile_y : ℕ) (name : Text) where
  unfoldable pub model_bytes : ModelInstanceData → UniqueIds → Written
  unfolding generate fix_coords write_vec3
  model_bytes inst ids =
      let flags = if is_global tile_x tile_y then bit_or mod_m2 mod_worldspawn else mod_m2 in
      let (unique_id, ids') = generate inst.id 0 ids in
      (
        ids',
        to_le 4 map_id
            ++ (to_le 4 tile_x
                ++ (to_le 4 tile_y
                    ++ (to_le 4 flags
                        ++ (to_le 2 0
                            ++ (to_le 4 unique_id
                                ++ (write_vec3 (fix_coords inst.position)
                                    ++ (write_vec3 inst.rotation
                                        ++ (to_le 4
                                              (float.div (float.from_int inst.scale) 0x44800000)
                                            ++ (to_le 4 (length name) ++ name))))))))),
      )

  unfoldable pub wmo_bytes : WmoInstanceData → UniqueIds → Written
  unfolding generate fix_coords centred write_vec3 write_aabox
  wmo_bytes inst ids =
      let flags =
        if is_global tile_x tile_y then bit_or mod_has_bound mod_worldspawn else mod_has_bound in
      let (unique_id, ids') = generate inst.unique_id 0 ids in
      let bounds : AaBox = record {
        low = fix_coords inst.bounds.low;
        high = fix_coords inst.bounds.high;
      } in
      (
        ids',
        to_le 4 map_id
            ++ (to_le 4 tile_x
                ++ (to_le 4 tile_y
                    ++ (to_le 4 flags
                        ++ (to_le 2 inst.name_set
                            ++ (to_le 4 unique_id
                                ++ (write_vec3 (fix_coords (centred inst.position))
                                    ++ (write_vec3 inst.rotation
                                        ++ (to_le 4 0x3F800000
                                            ++ (write_aabox bounds
                                                ++ (to_le 4 (length name) ++ name)))))))))),
      )

  -- A model that is not there or has no vertices writes nothing; one that cannot be read is an error.
  unfoldable pub if_vertices : Option (Option ℕ) → Written → UniqueIds → Option Written
  if_vertices none written ids = none
  if_vertices (some none) written ids = some (ids, [])
  if_vertices (some (some n)) written ids = if n == 0 then some (ids, []) else some written

  module _ (files : Text → Option (List ℕ)) where
    unfoldable pub write_model_instance : ModelInstanceData → UniqueIds → Option Written
    unfolding if_vertices model_bytes read_model_vertex_count
    write_model_instance inst ids =
        if_vertices (read_model_vertex_count (files name)) (model_bytes inst ids) ids

    unfoldable pub write_wmo_instance : WmoInstanceData → UniqueIds → Option Written
    unfolding if_vertices wmo_bytes read_model_vertex_count
    write_wmo_instance inst ids =
        if bit_and inst.flags 1 == 0
        then if_vertices (read_model_vertex_count (files name)) (wmo_bytes inst ids) ids
        else some (ids, [])
