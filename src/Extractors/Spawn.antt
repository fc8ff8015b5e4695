-- ===== src/Extractors/Spawn.antt =====
-- The model spawns of crates/extractors/src/vmap_assemble.rs: the record, its bytes, and the file
-- dir_bin that lists them.
pub mod RoundTrip
pub mod Collect
use cmangos_tbc.Base.{
  ℕ, ◌+◌, ◌*◌, ◌/◌, ◌^◌, ◌%◌, Bool, true, false, not, Option, none, some, List, [], ◌∷◌, ◌++◌,
  if◌then◌else◌, ltb, leb, ◌==◌, length, zero, suc, bit_and, bit_or,
}
use cmangos_tbc.Base.Bytes.{to_le}
use cmangos_tbc.Base.Text.{Text, from_utf8_lossy}
use cmangos_tbc.Extractors.Reader.{
  Reader, pure, ◌>>=◌, ◌>>◌, ensure, read_exact, read_u16, read_u32, read_f32,
}

abbrev pub mod_m2 : ℕ
mod_m2 = 1

abbrev pub mod_worldspawn : ℕ
mod_worldspawn = 2

abbrev pub mod_has_bound : ℕ
mod_has_bound = 4

pub record Vec3 : Type 0 where
  pub x : ℕ
  pub y : ℕ
  pub z : ℕ

-- The type AaBox.
pub record AaBox : Type 0 where
  pub low : Vec3
  pub high : Vec3

pub record ModelSpawn : Type 0 where
  pub flags : ℕ
  pub adt_id : ℕ
  pub id : ℕ
  pub pos : Vec3
  pub rot : Vec3
  pub scale : ℕ
  pub bound : Option AaBox
  pub name : Text

unfoldable pub read_vec3 : Reader Vec3
read_vec3 = do x ← read_f32; y ← read_f32; z ← read_f32; pure (record { x = x; y = y; z = z })

unfoldable pub write_vec3 : Vec3 → List ℕ
write_vec3 v = to_le 4 v.x ++ (to_le 4 v.y ++ to_le 4 v.z)

unfoldable pub read_aabox : Reader AaBox
unfolding read_vec3
read_aabox = do low ← read_vec3; high ← read_vec3; pure (record { low = low; high = high })

abbrev pub has_bound : ℕ → Bool
has_bound flags = not (bit_and flags mod_has_bound == 0)

unfoldable pub read_bound : Bool → Reader (Option AaBox)
unfolding read_aabox
read_bound false = pure none
read_bound true = read_aabox >>= λ b. pure (some b)

-- The length and the bytes of a name, at most 500.
unfoldable pub read_name : Reader Text
read_name = do
  name_len ← read_u32
  ensure (leb name_len 500)
  name_buf ← read_exact name_len
  pure (from_utf8_lossy name_buf)

-- What follows the flags.
unfoldable pub read_body : ℕ → Reader ModelSpawn
unfolding read_vec3 read_bound read_name
read_body flags = do
  adt_id ← read_u16
  id ← read_u32
  pos ← read_vec3
  rot ← read_vec3
  scale ← read_f32
  bound ← read_bound (has_bound flags)
  name ← read_name
  pure (record {
    flags = flags;
    adt_id = adt_id;
    id = id;
    pos = pos;
    rot = rot;
    scale = scale;
    bound = bound;
    name = name;
  })

unfoldable pub with_flags : Option (ℕ × List ℕ) → Option (Option ModelSpawn × List ℕ)
unfolding read_body
with_flags none = some (none, [])
with_flags (some (flags, rest)) = (read_body flags >>= λ spawn. pure (some spawn)) rest

-- The end of the file in place of the flags is no error.
unfoldable pub read_from : Reader (Option ModelSpawn)
unfolding with_flags
read_from bytes = with_flags (read_u32 bytes)

unfoldable pub bound_bytes : Option AaBox → List ℕ
unfolding write_vec3
bound_bytes none = []
bound_bytes (some b) = write_vec3 b.low ++ write_vec3 b.high

unfoldable pub write_to : ModelSpawn → List ℕ
unfolding write_vec3 bound_bytes
write_to s =
    to_le 4 s.flags
    ++ (to_le 2 s.adt_id
        ++ (to_le 4 s.id
            ++ (write_vec3 s.pos
                ++ (write_vec3 s.rot
                    ++ (to_le 4 s.scale
                        ++ (bound_bytes s.bound ++ (to_le 4 (length s.name) ++ s.name)))))))

-- `(tile_x << 16) | tile_y` on u32.
unfoldable pub pack_tile_id : (tile_x tile_y : ℕ) → ℕ
pack_tile_id tile_x tile_y = bit_or ((tile_x * 2 ^ 16) % 2 ^ 32) tile_y

unfoldable pub unpack_tile_id : ℕ → ℕ × ℕ
unpack_tile_id tile_id = (tile_id / 2 ^ 16, bit_and tile_id 0xFF)

-- A BTreeMap: its entries in the order of their keys.
abbrev pub TreeMap : Type 0 → Type 0
TreeMap A = List (ℕ × A)

unfoldable pub get : {A : Type 0} → ℕ → TreeMap A → Option A
get key [] = none
get key ((k, v) ∷ entries) =
    let rest = get key entries in if key == k then some v else if ltb key k then none else rest

-- `entry(key).or_insert(new)`, then a change of the value.
unfoldable pub update_or : {A : Type 0} → (key : ℕ) → A → (A → A) → TreeMap A → TreeMap A
update_or key new f [] = (key, f new) ∷ []
update_or key new f ((k, v) ∷ entries) =
    let rest = update_or key new f entries in
    if key == k
    then (k, f v) ∷ entries
    else if ltb key k
    then (key, f new) ∷ (k, v) ∷ entries
    else (k, v) ∷ rest

pub record MapSpawns : Type 0 where
  pub unique_entries : TreeMap ModelSpawn
  pub tile_entries : List (ℕ × ℕ)

abbrev pub no_spawns : MapSpawns
no_spawns = record { unique_entries = []; tile_entries = [] }

-- A record of dir_bin: the map, the tile and the spawn.
pub record DirEntry : Type 0 where
  pub map_id : ℕ
  pub tile_x : ℕ
  pub tile_y : ℕ
  pub spawn : ModelSpawn

-- The first spawn with an id is kept; each record adds its tile.
unfoldable pub add_to : DirEntry → MapSpawns → MapSpawns
unfolding update_or pack_tile_id
add_to e spawns = record {
  unique_entries = update_or e.spawn.id e.spawn (λ old. old) spawns.unique_entries;
  tile_entries = spawns.tile_entries ++ ((pack_tile_id e.tile_x e.tile_y, e.spawn.id) ∷ []);
}

unfoldable pub add_entry : DirEntry → TreeMap MapSpawns → TreeMap MapSpawns
unfolding update_or add_to
add_entry e map_data = update_or e.map_id no_spawns (add_to e) map_data

unfoldable pub dir_entry : (map_id tile_x tile_y : ℕ) → Option ModelSpawn → Option DirEntry
dir_entry map_id tile_x tile_y none = none
dir_entry map_id tile_x tile_y (some spawn) =
    some (record { map_id = map_id; tile_x = tile_x; tile_y = tile_y; spawn = spawn })

-- The record behind a map's id; `none` inside where the file ends in place of the flags.
unfoldable pub read_entry : ℕ → Reader (Option DirEntry)
unfolding read_from dir_entry
read_entry map_id = do
  tile_x ← read_u32
  tile_y ← read_u32
  found ← read_from
  pure (dir_entry map_id tile_x tile_y found)

-- What the next round of the loop finds: the end of the file, an error, or a record.
pub data Next : Type 0 where
  finished broken : Next
  entry : DirEntry → List ℕ → Next

unfoldable pub after_entry : Option (Option DirEntry × List ℕ) → Next
after_entry none = broken
after_entry (some (none, rest)) = finished
after_entry (some (some e, rest)) = entry e rest

unfoldable pub after_map : Option (ℕ × List ℕ) → Next
unfolding after_entry read_entry
after_map none = finished
after_map (some (map_id, rest)) = after_entry (read_entry map_id rest)

unfoldable pub next_entry : List ℕ → Next
unfolding after_map
next_entry bytes = after_map (read_u32 bytes)

-- A round per record; each takes bytes, so that the length is fuel enough. An error ends it.
unfoldable pub spawn_loop : (fuel : ℕ) → List ℕ → TreeMap MapSpawns → Option (TreeMap MapSpawns)
unfolding next_entry add_entry
spawn_loop zero bytes map_data = some map_data
spawn_loop (suc fuel) bytes map_data = elim (next_entry bytes) [
  | finished ↦ some map_data
  | broken ↦ none
  | entry e rest ↦ spawn_loop fuel rest (add_entry e map_data)
]

-- The file dir_bin, which starts from no maps.
unfoldable pub read_map_spawns : List ℕ → Option (TreeMap MapSpawns)
unfolding spawn_loop
read_map_spawns bytes = spawn_loop (length bytes) bytes []
