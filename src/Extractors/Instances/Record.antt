-- ===== src/Extractors/Instances/Record.antt =====
-- The placements that are written to dir_bin, and the record of each, as the assembler sees it.
use cmangos_tbc.Base.{
  ℕ, ◌^◌, ◌<◌, ◌≡◌, inl, inr, refl, Option-cases, none, some, [], ◌∷◌, arith, Bool-cases,
  if◌then◌else◌, All, bit_or, ◌&&◌,
}
use cmangos_tbc.Base.Text.{Text}
use cmangos_tbc.Extractors.Float.{FloatOps}
use cmangos_tbc.Extractors.Spawn.{
  Vec3, DirEntry, mod_m2, mod_worldspawn, mod_has_bound, write_to, bound_bytes,
}
use cmangos_tbc.Extractors.Spawn.RoundTrip.{IsVec3, IsName, IsEntry, write_entry}
use cmangos_tbc.Extractors.Instances.{
  UniqueIds, key_eq, generate, or_next, find, fix_coords, write_aabox, ModelInstanceData,
  WmoInstanceData, is_global, centred, is_zero, model_bytes, wmo_bytes,
}

-- What one call of either function gets. The tiles of a map are numbered below 64; 65 stands for the
-- whole map.
pub data Instance : Type 0 where
  model : ModelInstanceData → Instance
  wmo : WmoInstanceData → Instance

pub record Placed : Type 0 where
  pub map_id : ℕ
  pub tile_x : ℕ
  pub tile_y : ℕ
  pub name : Text
  pub inst : Instance

abbrev pub IsInstance : FloatOps → Instance → Type 0
IsInstance float (model inst) =
    IsVec3 inst.position
    × (IsVec3 inst.rotation × (float.div (float.from_int inst.scale) 0x44800000 < 2 ^ 32))
IsInstance float (wmo inst) =
    IsVec3 inst.position
    × (IsVec3 inst.rotation
        × (IsVec3 inst.bounds.low × (IsVec3 inst.bounds.high × (inst.name_set < 2 ^ 16))))

-- The values that the types admit, and a name of at most 500 bytes.
abbrev pub IsPlaced : FloatOps → Placed → Type 0
IsPlaced float p =
    (p.map_id < 2 ^ 32)
    × ((p.tile_x < 2 ^ 32) × ((p.tile_y < 2 ^ 32) × (IsName p.name × IsInstance float p.inst)))

-- The ids are u32.
abbrev pub IsIds : UniqueIds → Type 0
IsIds = All (λ e. e.1 < 2 ^ 32)

find_small : (k : ℕ × ℕ) (ids : UniqueIds) (v : ℕ) → IsIds ids → find k ids ≡ some v → v < 2 ^ 32
unfolding find
find_small k [] v h e = cc
find_small k ((j, w) ∷ ids) v h e = elim (Bool-cases (key_eq k j)) [
  | inl same ↦ let e' = rw same at e in ground arith
  | inr other ↦ find_small k ids v h.1 (rw other at e)
]

pub generate_small :
    (a b : ℕ) (ids : UniqueIds)
    → IsIds ids
    → ((generate a b ids).0 < 2 ^ 32) × IsIds (generate a b ids).1
unfolding generate or_next
generate_small a b ids h = elim (Option-cases (find (a, b) ids)) [
  | inl fresh ↦ rw fresh (omega arith, (omega arith, h))
  | inr (v, known) ↦ rw known (find_small (a, b) ids v h known, h)
]

fix_coords_small : (v : Vec3) → IsVec3 v → IsVec3 (fix_coords v)
unfolding fix_coords
fix_coords_small v (x, (y, z)) = (z, (x, y))

centred_small : (v : Vec3) → IsVec3 v → IsVec3 (centred v)
unfolding centred
centred_small v (x, (y, z)) = elim (Bool-cases (is_zero v.x && is_zero v.z)) [
  | inl lost ↦ rw lost (omega arith, (y, omega arith))
  | inr placed ↦ rw placed (x, (y, z))
]

module _ (float : FloatOps) (map_id tile_x tile_y : ℕ) (name : Text) where
  -- The record that a call writes.
  unfoldable pub model_entry : ModelInstanceData → UniqueIds → DirEntry
  model_entry inst ids = record {
    map_id = map_id;
    tile_x = tile_x;
    tile_y = tile_y;
    spawn = record {
      flags = if is_global tile_x tile_y then bit_or mod_m2 mod_worldspawn else mod_m2;
      adt_id = 0;
      id = (generate inst.id 0 ids).0;
      pos = fix_coords inst.position;
      rot = inst.rotation;
      scale = float.div (float.from_int inst.scale) 0x44800000;
      bound = none;
      name = name;
    };
  }

  unfoldable pub wmo_entry : WmoInstanceData → UniqueIds → DirEntry
  wmo_entry inst ids = record {
    map_id = map_id;
    tile_x = tile_x;
    tile_y = tile_y;
    spawn = record {
      flags =
          if is_global tile_x tile_y then bit_or mod_has_bound mod_worldspawn else mod_has_bound;
      adt_id = inst.name_set;
      id = (generate inst.unique_id 0 ids).0;
      pos = fix_coords (centred inst.position);
      rot = inst.rotation;
      scale = 0x3F800000;
      bound =
          some (record { low = fix_coords inst.bounds.low; high = fix_coords inst.bounds.high });
      name = name;
    };
  }

  pub model_bytes-write_entry :
      (inst : ModelInstanceData) (ids : UniqueIds)
      → (model_bytes float map_id tile_x tile_y name inst ids).1
        ≡ write_entry (model_entry inst ids)
  unfolding model_bytes write_entry model_entry write_to bound_bytes
  model_bytes-write_entry inst ids = refl

  pub wmo_bytes-write_entry :
      (inst : WmoInstanceData) (ids : UniqueIds)
      → (wmo_bytes float map_id tile_x tile_y name inst ids).1 ≡ write_entry (wmo_entry inst ids)
  unfolding wmo_bytes write_entry wmo_entry write_to bound_bytes write_aabox
  wmo_bytes-write_entry inst ids = refl

  pub model_entry-IsEntry :
      (inst : ModelInstanceData) (ids : UniqueIds)
      → IsPlaced float (record {
        map_id = map_id;
        tile_x = tile_x;
        tile_y = tile_y;
        name = name;
        inst = model inst;
      })
      → IsIds ids
      → IsEntry (model_entry inst ids)
  unfolding model_entry
  model_entry-IsEntry inst ids (m, (x, (y, (n, (pos, (rot, scale)))))) small =
      let id = (generate_small inst.id 0 ids small).0 in
      elim (Bool-cases (is_global tile_x tile_y)) [
        | inl all ↦ rw all (
          m,
          (
            x,
            (
              y,
              (
                omega arith,
                (omega arith, (id, (fix_coords_small inst.position pos, (rot, (scale, (tt, n)))))),
              ),
            ),
          ),
        )
        | inr one ↦ rw one (
          m,
          (
            x,
            (
              y,
              (
                omega arith,
                (omega arith, (id, (fix_coords_small inst.position pos, (rot, (scale, (tt, n)))))),
              ),
            ),
          ),
        )
      ]

  pub wmo_entry-IsEntry :
      (inst : WmoInstanceData) (ids : UniqueIds)
      → IsPlaced float (record {
        map_id = map_id;
        tile_x = tile_x;
        tile_y = tile_y;
        name = name;
        inst = wmo inst;
      })
      → IsIds ids
      → IsEntry (wmo_entry inst ids)
  unfolding wmo_entry
  wmo_entry-IsEntry inst ids (m, (x, (y, (n, (pos, (rot, (low, (high, name_set)))))))) small =
      let id = (generate_small inst.unique_id 0 ids small).0 in
      let pos' = fix_coords_small (centred inst.position) (centred_small inst.position pos) in
      let box : IsVec3 (fix_coords inst.bounds.low) × IsVec3 (fix_coords inst.bounds.high) =
        (fix_coords_small inst.bounds.low low, fix_coords_small inst.bounds.high high) in
      elim (Bool-cases (is_global tile_x tile_y)) [
        | inl all ↦
            rw all
              (m, (x, (y, (omega arith, (name_set, (id, (pos', (rot, (omega arith, (box, n))))))))))
        | inr one ↦
            rw one
              (m, (x, (y, (omega arith, (name_set, (id, (pos', (rot, (omega arith, (box, n))))))))))
      ]
