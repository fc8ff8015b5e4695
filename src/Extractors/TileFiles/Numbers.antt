-- ===== src/Extractors/TileFiles/Numbers.antt =====
-- What the file of a tile should hold, and the numbers of the spawns with a bound.
use cmangos_tbc.Base.{
  ℕ, ◌+◌, ◌%◌, ◌^◌, ◌≤◌, ◌<◌, ◌≡◌, ◌≢◌, ◌∙◌, refl, ap, Bool, true, false, Option, none, some, List,
  [], ◌∷◌, ◌++◌, if◌then◌else◌, ◌==◌, ◌&&◌, ltb, length, All, arith, inl, inr, Bool-cases,
  Option-cases, lt_or_ge, bit_and, suc,
}
use cmangos_tbc.Base.Bytes.{to_le}
use cmangos_tbc.Base.Text.{text}
use cmangos_tbc.Extractors.Reader.{concat_map}
use cmangos_tbc.Extractors.Spawn.{AaBox, ModelSpawn, TreeMap, get, write_to}
use cmangos_tbc.Extractors.TileFiles.{with_bound, bounded, node_index, last_of}

-- The bytes of the file with a name, after all files were written: a later one replaces an earlier one.
unfoldable pub on_disk : (name : ℕ × ℕ) → List ((ℕ × ℕ) × List ℕ) → Option (List ℕ)
on_disk name [] = none
on_disk name ((n, bytes) ∷ files) = elim (on_disk name files) [
  | none ↦ if (n.0 == name.0) && (n.1 == name.1) then some bytes else none
  | some later ↦ some later
]

-- What the file of a tile should list for the ids placed on it: the spawn of each id, with the id,
-- unless its flag 2 is set.
pub data Lists (spawns : TreeMap ModelSpawn) : List ℕ → List (ℕ × ModelSpawn) → Type 0 where
  lists_end : Lists spawns [] []
  world_spawn :
      {id : ℕ} {ids : List ℕ} {listed : List (ℕ × ModelSpawn)} {s : ModelSpawn}
      → get id spawns ≡ some s
      → bit_and s.flags 2 ≢ 0
      → Lists spawns ids listed
      → Lists spawns (id ∷ ids) listed
  tile_spawn :
      {id : ℕ} {ids : List ℕ} {listed : List (ℕ × ModelSpawn)} {s : ModelSpawn}
      → get id spawns ≡ some s
      → bit_and s.flags 2 ≡ 0
      → Lists spawns ids listed
      → Lists spawns (id ∷ ids) ((id, s) ∷ listed)

-- The spawns with a bound are numbered in the order of their ids; the others have the number 0.
abbrev pub is_boxed : Option AaBox → Bool
is_boxed none = false
is_boxed (some b) = true

abbrev pub is_numbered : Option ModelSpawn → Bool
is_numbered none = false
is_numbered (some s) = is_boxed s.bound

unfoldable pub boxed_before : (id : ℕ) → TreeMap ModelSpawn → ℕ
boxed_before id [] = 0
boxed_before id ((k, s) ∷ spawns) =
    let rest = boxed_before id spawns in if ltb k id && is_boxed s.bound then suc rest else rest

unfoldable pub node_of : (id : ℕ) → TreeMap ModelSpawn → ℕ
unfolding boxed_before get
node_of id spawns = if is_numbered (get id spawns) then boxed_before id spawns % 2 ^ 32 else 0

-- The bytes that the file should have: no file without spawns.
unfoldable pub expected_file : TreeMap ModelSpawn → List (ℕ × ModelSpawn) → Option (List ℕ)
unfolding concat_map node_of
expected_file spawns [] = none
expected_file spawns (e ∷ listed) =
    let all = e ∷ listed in
    some (
      text "VMAP_7.0"
      ++ (to_le 4 (length all % 2 ^ 32)
          ++ concat_map (λ (id, s). write_to s ++ to_le 4 (node_of id spawns)) all))

-- The ids are in order, each once, and each stands for a spawn with that id.
abbrev pub IsSpawnMap : TreeMap ModelSpawn → Type 0
IsSpawnMap [] = Unit
IsSpawnMap (e ∷ spawns) = (e.1.id ≡ e.0) × (All (λ d. e.0 < d.0) spawns × IsSpawnMap spawns)

get-above :
    (id : ℕ) (spawns : TreeMap ModelSpawn) → All (λ d. id < d.0) spawns → get id spawns ≡ none
unfolding get
get-above id [] h = refl
get-above id ((k, s) ∷ spawns) h = let lt : id < k = h.0 in ground arith

boxed_before-above :
    (id : ℕ) (spawns : TreeMap ModelSpawn) → All (λ d. id < d.0) spawns → boxed_before id spawns ≡ 0
unfolding boxed_before
boxed_before-above id [] h = refl
boxed_before-above id ((k, s) ∷ spawns) h =
    let lt : id < k = h.0 in ground (arith, boxed_before-above id spawns h.1)

All-lt :
    (a b : ℕ) (spawns : TreeMap ModelSpawn)
    → a ≤ b
    → All (λ d. b < d.0) spawns
    → All (λ d. a < d.0) spawns
All-lt a b [] h ok = tt
All-lt a b (d ∷ spawns) h ok = (omega (arith, ok.0), All-lt a b spawns h ok.1)

-- The number of an id behind the first spawn, whose id is `k`.
node_step :
    (id idx default k : ℕ) (s : ModelSpawn) (spawns : TreeMap ModelSpawn)
    → s.id ≡ k
    → All (λ d. k < d.0) spawns
    → ((i d : ℕ)
        → last_of id (node_index i (bounded spawns)) d
          ≡ (if is_numbered (get id spawns) then (i + boxed_before id spawns) % 2 ^ 32 else d))
    → last_of id (node_index idx (bounded ((k, s) ∷ spawns))) default ≡ (
        if is_numbered (get id ((k, s) ∷ spawns))
        then (idx + boxed_before id ((k, s) ∷ spawns)) % 2 ^ 32
        else default)
unfolding last_of node_index bounded get boxed_before with_bound
node_step id idx default k s spawns own above ih = elim (lt_or_ge k id) [
  | inl after ↦ elim (Option-cases s.bound) [
    | inl unboxed ↦
        let same = ih idx default in
        let first : (id == k) ≡ false = ground arith in
        let early : ltb id k ≡ false = ground arith in
        let late : ltb k id ≡ true = ground arith in rw (first, early, late, unboxed) same
    | inr (b, boxed) ↦
        let same = ih (suc idx) default in
        let first : (id == k) ≡ false = ground arith in
        let first' : (s.id == id) ≡ false = ground arith in
        let early : ltb id k ≡ false = ground arith in
        let late : ltb k id ≡ true = ground arith in
        let shift : suc idx + boxed_before id spawns ≡ idx + suc (boxed_before id spawns) =
          omega arith in
        rw (first, early, late, boxed)
          (rw (last_of, first')
            (same ∙ ap (λ v. if is_numbered (get id spawns) then v % 2 ^ 32 else default) shift))
  ]
  | inr before ↦
      let missing = get-above id spawns (All-lt id k spawns before above) in
      let least = boxed_before-above id spawns (All-lt id k spawns before above) in
      let late : ltb k id ≡ false = ground arith in
      elim (Option-cases s.bound) [
        | inl unboxed ↦
            let same = rw missing at (ih idx default) in
            elim (Bool-cases (id == k)) [
              | inl here ↦ rw (here, unboxed) same
              | inr other ↦
                  let early : ltb id k ≡ true = ground arith in rw (other, early, unboxed) same
            ]
        | inr (b, boxed) ↦ elim (Bool-cases (id == k)) [
          | inl here ↦
              let same = rw missing at (ih (suc idx) (idx % 2 ^ 32)) in
              let own' : (s.id == id) ≡ true = ground arith in
              let plus : idx ≡ idx + 0 = omega arith in
              rw (here, late, boxed) (rw (last_of, own', least) (same ∙ ap (λ v. v % 2 ^ 32) plus))
          | inr other ↦
              let same = rw missing at (ih (suc idx) default) in
              let early : ltb id k ≡ true = ground arith in
              let own' : (s.id == id) ≡ false = ground arith in
              rw (other, early, boxed) (rw (last_of, own') same)
        ]
      ]
]

-- The list of insertions gives each id its number.
last_of-node_index :
    (id idx default : ℕ) (spawns : TreeMap ModelSpawn)
    → IsSpawnMap spawns
    → last_of id (node_index idx (bounded spawns)) default
      ≡ (if is_numbered (get id spawns) then (idx + boxed_before id spawns) % 2 ^ 32 else default)
unfolding last_of node_index bounded get boxed_before
last_of-node_index id idx default [] h = refl
last_of-node_index id idx default ((k, s) ∷ spawns) h =
    node_step id idx default k s spawns h.0 h.1.0 (λ i d. last_of-node_index id i d spawns h.1.1)

pub last_of-node_of :
    (id : ℕ) (spawns : TreeMap ModelSpawn)
    → IsSpawnMap spawns
    → last_of id (node_index 0 (bounded spawns)) 0 ≡ node_of id spawns
unfolding node_of
last_of-node_of id spawns h =
    let start : 0 + boxed_before id spawns ≡ boxed_before id spawns = omega arith in
    last_of-node_index id 0 0 spawns h
    ∙ ap (λ v. if is_numbered (get id spawns) then v % 2 ^ 32 else 0) start
