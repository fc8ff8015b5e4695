-- ===== src/Extractors/Spawn/RoundTrip.antt =====
-- What is written to dir_bin is read back, record by record.
use cmangos_tbc.Base.{
  ℕ, ◌^◌, ◌<◌, ◌≤◌, ◌≡◌, ◌∙◌, refl, ap, Bool, true, false, Option, none, some, List, [], ◌∷◌, ◌++◌,
  length, length-append, append_assoc, arith, zero, suc, All, leb,
}
use cmangos_tbc.Base.Bytes.{to_le, length-to_le}
use cmangos_tbc.Base.Text.{Text, IsUtf8, from_utf8_lossy}
use cmangos_tbc.Extractors.Reader.{
  Reader, Reads, pure, ◌>>=◌, ensure, read_exact, read_u16, read_u32, read_f32, read_number,
  read_number-Reads, read_exact-Reads, bind-Reads, pure-Reads, concat_map,
}
use cmangos_tbc.Extractors.Spawn.{
  Vec3, AaBox, ModelSpawn, read_vec3, write_vec3, read_aabox, has_bound, read_bound, bound_bytes,
  read_name, read_body, with_flags, read_from, write_to, TreeMap, MapSpawns, DirEntry, add_entry,
  read_entry, dir_entry, finished, entry, after_entry, after_map, next_entry, spawn_loop,
  read_map_spawns,
}

-- The values that the types admit.
abbrev pub IsVec3 : Vec3 → Type 0
IsVec3 v = (v.x < 2 ^ 32) × ((v.y < 2 ^ 32) × (v.z < 2 ^ 32))

-- A bound is there exactly when the flag says so.
abbrev pub IsBound : Bool → Option AaBox → Type 0
IsBound true none = ⊥
IsBound true (some b) = IsVec3 b.low × IsVec3 b.high
IsBound false none = Unit
IsBound false (some b) = ⊥

abbrev pub IsName : Text → Type 0
IsName s = (length s ≤ 500) × IsUtf8 s

abbrev pub IsSpawn : ModelSpawn → Type 0
IsSpawn s =
    (s.flags < 2 ^ 32)
    × ((s.adt_id < 2 ^ 16)
        × ((s.id < 2 ^ 32)
            × (IsVec3 s.pos
                × (IsVec3 s.rot
                    × ((s.scale < 2 ^ 32)
                        × (IsBound (has_bound s.flags) s.bound × IsName s.name))))))

pub read_u32-Reads : (v : ℕ) → v < 2 ^ 32 → Reads read_u32 (to_le 4 v) v
unfolding read_u32
read_u32-Reads v h = read_number-Reads 4 v h

pub read_f32-Reads : (v : ℕ) → v < 2 ^ 32 → Reads read_f32 (to_le 4 v) v
unfolding read_f32
read_f32-Reads v h = read_number-Reads 4 v h

pub read_u16-Reads : (v : ℕ) → v < 2 ^ 16 → Reads read_u16 (to_le 2 v) v
unfolding read_u16
read_u16-Reads v h = read_number-Reads 2 v h

-- The last step of a chain gives its value and takes nothing.
pub finish-Reads :
    {A B : Type 0} (r : Reader A) (g : A → B) (bs : List ℕ) {a : A}
    → Reads r bs a
    → Reads (r >>= λ x. pure (g x)) bs (g a)
unfolding ◌>>=◌
finish-Reads r g bs h rest = rw (◌>>=◌, h rest) refl

pub read_vec3-Reads : (v : Vec3) → IsVec3 v → Reads read_vec3 (write_vec3 v) v
unfolding read_vec3 write_vec3
read_vec3-Reads v (hx, (hy, hz)) =
    bind-Reads read_f32 _ (to_le 4 v.x) (to_le 4 v.y ++ to_le 4 v.z) (read_f32-Reads v.x hx) (
      bind-Reads read_f32 _ (to_le 4 v.y) (to_le 4 v.z) (read_f32-Reads v.y hy)
        (finish-Reads read_f32 _ (to_le 4 v.z) (read_f32-Reads v.z hz)))

read_bound-Reads :
    (flag : Bool) (b : Option AaBox) → IsBound flag b → Reads (read_bound flag) (bound_bytes b) b
unfolding read_bound bound_bytes read_aabox
read_bound-Reads true none h = absurd h
read_bound-Reads true (some b) h =
    finish-Reads read_aabox some (write_vec3 b.low ++ write_vec3 b.high) (
      bind-Reads read_vec3 _ (write_vec3 b.low) (write_vec3 b.high) (read_vec3-Reads b.low h.0)
        (finish-Reads read_vec3 _ (write_vec3 b.high) (read_vec3-Reads b.high h.1)))
read_bound-Reads false none h = pure-Reads none
read_bound-Reads false (some b) h = absurd h

ensure-Reads : (b : Bool) → b ≡ true → Reads (ensure b) [] tt
unfolding ensure
ensure-Reads b e rest = rw e refl

read_name-Reads : (s : Text) → IsName s → Reads read_name (to_le 4 (length s) ++ s) s
unfolding read_name
read_name-Reads s (short, utf8) rest =
    bind-Reads read_u32 _ (to_le 4 (length s)) s (read_u32-Reads (length s) (omega arith))
      (bind-Reads (ensure (leb (length s) 500)) _ [] s
        (ensure-Reads (leb (length s) 500) (ground arith))
        (finish-Reads (read_exact (length s)) from_utf8_lossy s (read_exact-Reads s)))
      rest
    ∙ ap (λ t. some (t, rest)) utf8

-- The bytes of a spawn behind its flags.
abbrev body_bytes : ModelSpawn → List ℕ
body_bytes s =
    to_le 2 s.adt_id
    ++ (to_le 4 s.id
        ++ (write_vec3 s.pos
            ++ (write_vec3 s.rot
                ++ (to_le 4 s.scale
                    ++ (bound_bytes s.bound ++ (to_le 4 (length s.name) ++ s.name))))))

read_body-Reads : (s : ModelSpawn) → IsSpawn s → Reads (read_body s.flags) (body_bytes s) s
unfolding read_body
read_body-Reads s (flags, (adt_id, (id, (pos, (rot, (scale, (bound, name))))))) =
    bind-Reads read_u16 _ (to_le 2 s.adt_id) _ (read_u16-Reads s.adt_id adt_id) (
      bind-Reads read_u32 _ (to_le 4 s.id) _ (read_u32-Reads s.id id) (
        bind-Reads read_vec3 _ (write_vec3 s.pos) _ (read_vec3-Reads s.pos pos) (
          bind-Reads read_vec3 _ (write_vec3 s.rot) _ (read_vec3-Reads s.rot rot) (
            bind-Reads read_f32 _ (to_le 4 s.scale) _ (read_f32-Reads s.scale scale) (
              bind-Reads (read_bound (has_bound s.flags)) _ (bound_bytes s.bound) _
                (read_bound-Reads (has_bound s.flags) s.bound bound)
                (finish-Reads read_name _ (to_le 4 (length s.name) ++ s.name)
                  (read_name-Reads s.name name)))))))

-- A spawn that the assembler writes is the spawn that it reads.
pub read_from-write_to : (s : ModelSpawn) → IsSpawn s → Reads read_from (write_to s) (some s)
unfolding read_from write_to with_flags
read_from-write_to s h rest =
    ap with_flags (
      ap read_u32 (append_assoc (to_le 4 s.flags) (body_bytes s) rest)
      ∙ read_u32-Reads s.flags h.0 (body_bytes s ++ rest))
    ∙ finish-Reads (read_body s.flags) some (body_bytes s) (read_body-Reads s h) rest

-- The bytes of a record of dir_bin, as the extractor writes them.
unfoldable pub write_entry : DirEntry → List ℕ
write_entry e = to_le 4 e.map_id ++ (to_le 4 e.tile_x ++ (to_le 4 e.tile_y ++ write_to e.spawn))

abbrev pub IsEntry : DirEntry → Type 0
IsEntry e = (e.map_id < 2 ^ 32) × ((e.tile_x < 2 ^ 32) × ((e.tile_y < 2 ^ 32) × IsSpawn e.spawn))

next_entry-write_entry :
    (e : DirEntry) (rest : List ℕ) → IsEntry e → next_entry (write_entry e ++ rest) ≡ entry e rest
unfolding next_entry write_entry after_map after_entry read_entry dir_entry
next_entry-write_entry e rest (map_id, (tile_x, (tile_y, spawn))) =
    let tail = to_le 4 e.tile_x ++ (to_le 4 e.tile_y ++ write_to e.spawn) in
    let read : Reads (read_entry e.map_id) tail (some e) =
      bind-Reads read_u32 _ (to_le 4 e.tile_x) _ (read_u32-Reads e.tile_x tile_x) (
        bind-Reads read_u32 _ (to_le 4 e.tile_y) _ (read_u32-Reads e.tile_y tile_y) (
          finish-Reads read_from (dir_entry e.map_id e.tile_x e.tile_y) (write_to e.spawn)
            (read_from-write_to e.spawn spawn))) in
    ap after_map (
      ap read_u32 (append_assoc (to_le 4 e.map_id) tail rest)
      ∙ read_u32-Reads e.map_id map_id (tail ++ rest))
    ∙ ap after_entry (read rest)

-- The records one after the other, each added to what is there.
unfoldable pub add_entries : List DirEntry → TreeMap MapSpawns → TreeMap MapSpawns
add_entries [] map_data = map_data
add_entries (e ∷ es) map_data = add_entries es (add_entry e map_data)

next_entry_end : next_entry [] ≡ finished
unfolding next_entry after_map read_u32 read_number ◌>>=◌ read_exact
next_entry_end = refl

spawn_loop_entries :
    (fuel : ℕ) (es : List DirEntry) (map_data : TreeMap MapSpawns)
    → All IsEntry es
    → length es ≤ fuel
    → spawn_loop fuel (concat_map write_entry es) map_data ≡ some (add_entries es map_data)
unfolding spawn_loop concat_map add_entries
spawn_loop_entries zero [] map_data h k = refl
spawn_loop_entries (suc fuel) [] map_data h k = rw (spawn_loop, next_entry_end) refl
spawn_loop_entries zero (e ∷ es) map_data h k = absurd (omega arith)
spawn_loop_entries (suc fuel) (e ∷ es) map_data h k =
    rw (spawn_loop, next_entry-write_entry e (concat_map write_entry es) h.0)
      (spawn_loop_entries fuel es (add_entry e map_data) h.1 (omega arith))

-- Every record takes bytes.
entries_long : (es : List DirEntry) → length es ≤ length (concat_map write_entry es)
unfolding concat_map write_entry
entries_long [] = omega arith
entries_long (e ∷ es) =
    let tail = to_le 4 e.tile_x ++ (to_le 4 e.tile_y ++ write_to e.spawn) in
    omega (
      arith,
      entries_long es,
      length-to_le 4 e.map_id,
      length-append {0} (to_le 4 e.map_id) tail,
      length-append {0} (to_le 4 e.map_id ++ tail) (concat_map write_entry es),
    )

-- A file that holds records one after the other is read without an error to its end: the result is
-- that of adding every record in turn.
pub read_map_spawns-write_entry :
    (es : List DirEntry)
    → All IsEntry es
    → read_map_spawns (concat_map write_entry es) ≡ some (add_entries es [])
unfolding read_map_spawns
read_map_spawns-write_entry es h =
    spawn_loop_entries (length (concat_map write_entry es)) es [] h (entries_long es)
