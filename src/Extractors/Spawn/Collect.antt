-- ===== src/Extractors/Spawn/Collect.antt =====
-- What the collected maps hold: the first spawn of each id, and the tile of every record.
use cmangos_tbc.Base.{
  ℕ, ◌≡◌, ◌∙◌, inl, inr, refl, sym, ap, true, false, Option, none, some, List, [], ◌∷◌, ◌++◌,
  append_assoc, append-nil, if◌then◌else◌, ◌==◌, arith, Bool-cases, Option-cases, All,
}
use cmangos_tbc.Extractors.Reader.{concat_map}
use cmangos_tbc.Extractors.Dbc.{unwrap_or}
use cmangos_tbc.Extractors.Spawn.{
  ModelSpawn, TreeMap, get, update_or, MapSpawns, no_spawns, DirEntry, add_to, add_entry,
  pack_tile_id, read_map_spawns,
}
use cmangos_tbc.Extractors.Spawn.RoundTrip.{
  IsEntry, write_entry, add_entries, read_map_spawns-write_entry,
}

pub get-update_same :
    {A : Type 0} (key : ℕ) (new : A) (f : A → A) (m : TreeMap A)
    → get key (update_or key new f m) ≡ some (f (unwrap_or new (get key m)))
unfolding get update_or
get-update_same key new f [] = ground arith
get-update_same key new f ((k, v) ∷ m) = ground (arith, get-update_same key new f m)

pub get-update_other :
    {A : Type 0} (key other : ℕ) (new : A) (f : A → A) (m : TreeMap A)
    → (other == key) ≡ false
    → get other (update_or key new f m) ≡ get other m
unfolding get update_or
get-update_other key other new f [] h = ground arith
get-update_other key other new f ((k, v) ∷ m) h = ground (arith, get-update_other key other new f m)

pub ==→eq : (a b : ℕ) → (a == b) ≡ true → a ≡ b
==→eq a b h = ground arith

-- What is collected for a map, nothing for a map that is not there.
abbrev pub map_of : ℕ → TreeMap MapSpawns → MapSpawns
map_of map_id map_data = unwrap_or no_spawns (get map_id map_data)

map_of_same :
    (map_id : ℕ) (e : DirEntry) (map_data : TreeMap MapSpawns)
    → (map_id == e.map_id) ≡ true
    → map_of map_id (add_entry e map_data) ≡ add_to e (map_of map_id map_data)
unfolding add_entry
map_of_same map_id e map_data h =
    let here : map_id ≡ e.map_id = ==→eq map_id e.map_id h in
    rw here (ap (unwrap_or no_spawns) (get-update_same e.map_id no_spawns (add_to e) map_data))

map_of_other :
    (map_id : ℕ) (e : DirEntry) (map_data : TreeMap MapSpawns)
    → (map_id == e.map_id) ≡ false
    → map_of map_id (add_entry e map_data) ≡ map_of map_id map_data
unfolding add_entry
map_of_other map_id e map_data h =
    ap (unwrap_or no_spawns) (get-update_other e.map_id map_id no_spawns (add_to e) map_data h)

-- The tiles that records list for a map, in their order.
abbrev pub listed_tiles : ℕ → List DirEntry → List (ℕ × ℕ)
listed_tiles map_id [] = []
listed_tiles map_id (e ∷ es) =
    let rest = listed_tiles map_id es in
    if map_id == e.map_id then (pack_tile_id e.tile_x e.tile_y, e.spawn.id) ∷ rest else rest

-- The first spawn with an id that records list for a map.
abbrev pub first_spawn : (map_id id : ℕ) → List DirEntry → Option ModelSpawn
first_spawn map_id id [] = none
first_spawn map_id id (e ∷ es) =
    let rest = first_spawn map_id id es in
    if map_id == e.map_id then if id == e.spawn.id then some e.spawn else rest else rest

-- Each record adds its tile to its map and no other, in the order of the records.
pub tiles-add_entries :
    (map_id : ℕ) (es : List DirEntry) (map_data : TreeMap MapSpawns)
    → (map_of map_id (add_entries es map_data)).tile_entries
      ≡ (map_of map_id map_data).tile_entries ++ listed_tiles map_id es
unfolding add_entries add_to
tiles-add_entries map_id [] map_data = sym (append-nil (map_of map_id map_data).tile_entries)
tiles-add_entries map_id (e ∷ es) map_data =
    tiles-add_entries map_id es (add_entry e map_data) ∙ elim (Bool-cases (map_id == e.map_id)) [
      | inl same ↦ rw same (
          ap (λ s. s.tile_entries ++ listed_tiles map_id es) (map_of_same map_id e map_data same)
          ∙ append_assoc (map_of map_id map_data).tile_entries _ (listed_tiles map_id es))
      | inr other ↦ rw (other, map_of_other map_id e map_data other) refl
    ]

abbrev pub or_first : Option ModelSpawn → Option ModelSpawn → Option ModelSpawn
or_first none later = later
or_first (some s) later = some s

add_to_first :
    (id : ℕ) (e : DirEntry) (s : MapSpawns) (later : Option ModelSpawn)
    → or_first (get id (add_to e s).unique_entries) later
      ≡ or_first (get id s.unique_entries) (if id == e.spawn.id then some e.spawn else later)
unfolding add_to
add_to_first id e s later = elim (Bool-cases (id == e.spawn.id)) [
  | inl same ↦
      let here : id ≡ e.spawn.id = ==→eq id e.spawn.id same in
      let kept = get-update_same e.spawn.id e.spawn (λ old. old) s.unique_entries in
      rw (same, here, kept)
        (elim (Option-cases (get e.spawn.id s.unique_entries)) [
          | inl fresh ↦ rw fresh refl
          | inr (v, known) ↦ rw known refl
        ])
  | inr other ↦
      rw (other, get-update_other e.spawn.id id e.spawn (λ old. old) s.unique_entries other) refl
]

-- The spawn of an id in a map is the first that a record lists.
pub spawns-add_entries :
    (map_id id : ℕ) (es : List DirEntry) (map_data : TreeMap MapSpawns)
    → get id (map_of map_id (add_entries es map_data)).unique_entries
      ≡ or_first (get id (map_of map_id map_data).unique_entries) (first_spawn map_id id es)
unfolding add_entries
spawns-add_entries map_id id [] map_data =
    elim (Option-cases (get id (map_of map_id map_data).unique_entries)) [
      | inl e ↦ rw e refl
      | inr (v, e) ↦ rw e refl
    ]
spawns-add_entries map_id id (e ∷ es) map_data =
    spawns-add_entries map_id id es (add_entry e map_data)
    ∙ elim (Bool-cases (map_id == e.map_id)) [
      | inl same ↦ rw same (
          ap (λ s. or_first (get id s.unique_entries) (first_spawn map_id id es))
            (map_of_same map_id e map_data same)
          ∙ add_to_first id e (map_of map_id map_data) (first_spawn map_id id es))
      | inr other ↦ rw (other, map_of_other map_id e map_data other) refl
    ]

-- A dir_bin that lists records is read to its end. A map's tiles are then those that the records list
-- for it, in their order, and the spawn of an id is the first that they list with the id.
pub read_map_spawns_collects :
    (es : List DirEntry) (map_id id : ℕ)
    → All IsEntry es
    → (map_data : TreeMap MapSpawns) × ((read_map_spawns (concat_map write_entry es)
          ≡ some map_data)
        × (((map_of map_id map_data).tile_entries ≡ listed_tiles map_id es)
            × (get id (map_of map_id map_data).unique_entries ≡ first_spawn map_id id es)))
unfolding get
read_map_spawns_collects es map_id id h = (
  add_entries es [],
  (
    read_map_spawns-write_entry es h,
    (tiles-add_entries map_id es [], spawns-add_entries map_id id es []),
  ),
)
