-- ===== src/Extractors/Vmap/Total.antt =====
-- `load_vmap` does not panic: the heights that a liquid needs have been read.
use cmangos_tbc.Base.{
  ℕ, ◌+◌, ◌*◌, ◌%◌, ◌^◌, ◌<◌, ◌≤◌, ◌≡◌, ◌∙◌, refl, sym, ap, Bool, true, false, not, Option, none,
  some, Option-cases, some_injective, List, [], ◌∷◌, ◌++◌, length, All, arith, zero, suc, inl, inr,
  Bool-cases, ltb, ◌==◌,
}
use cmangos_tbc.Base.Text.{Text}
use cmangos_tbc.Extractors.Float.{FloatOps}
use cmangos_tbc.Extractors.Spawn.{Vec3}
use cmangos_tbc.Extractors.Reader.{
  Reader, repeat, Ensures, bind-Ensures, after-Ensures, pure-Ensures,
}
use cmangos_tbc.Extractors.RawModel.{value_of}
use cmangos_tbc.Extractors.Terrain.Shape.{MeshData}
use cmangos_tbc.Extractors.Vmap.{
  ModelSpawnData, VmapLiquidData, GroupData, read_model_spawn, load_world_model, read_tree_header,
  read_vmap_liquid, read_vmap_liquid_if, read_group_model, read_world_model, is_m2_name,
}
use cmangos_tbc.Extractors.Vmap.Models.{
  liquid_vertex, row_vertices, liquid_vertices, add_solid, add_liquid, add_groups, add_spawn,
  add_model, spawn_rounds, after_header, load_vmap, transformed, rotation_of, position_of, ◌>>=◌,
}

-- A liquid has the heights that its reader counts.
abbrev HasHeights : Option VmapLiquidData → Type 0
HasHeights none = Unit
HasHeights (some l) =
    length l.heights ≡ ((l.tiles_x + 1) % 2 ^ 32 * ((l.tiles_y + 1) % 2 ^ 32)) % 2 ^ 32

-- The vertices of a liquid can be counted by a u32.
abbrev pub IsCounted : Option VmapLiquidData → Type 0
IsCounted none = Unit
IsCounted (some l) = (l.tiles_x + 1) * (l.tiles_y + 1) < 2 ^ 32

repeat-Ensures :
    {A : Type 0} (P : A → Type 0) (r : Reader A) (n : ℕ)
    → Ensures P r
    → Ensures (λ xs. All P xs × (length xs ≡ n)) (repeat r n)
unfolding repeat
repeat-Ensures P r zero h = pure-Ensures _ [] (tt, refl)
repeat-Ensures P r (suc n) h = bind-Ensures P _ r _ h λ a p.
    bind-Ensures (λ xs. All P xs × (length xs ≡ n)) _ (repeat r n) _ (repeat-Ensures P r n h)
      λ xs q. pure-Ensures _ (a ∷ xs) ((p, q.0), ap suc q.1)

read_vmap_liquid-HasHeights : Ensures (λ l. HasHeights (some l)) read_vmap_liquid
unfolding read_vmap_liquid
read_vmap_liquid-HasHeights =
    let P : VmapLiquidData → Type 0 = λ l. HasHeights (some l) in
    after-Ensures P _ _ λ tiles_x. after-Ensures P _ _ λ tiles_y. after-Ensures P _ _ λ corner.
      after-Ensures P _ _ λ liq_type.
        bind-Ensures _ P _ _ (repeat-Ensures (λ _. Unit) _ _ (λ _ _ _ _. tt))
          λ heights q. after-Ensures P _ _ λ flags. pure-Ensures P _ q.1

read_vmap_liquid_if-HasHeights : (b : Bool) → Ensures HasHeights (read_vmap_liquid_if b)
unfolding read_vmap_liquid_if
read_vmap_liquid_if-HasHeights false = pure-Ensures HasHeights none tt
read_vmap_liquid_if-HasHeights true =
    bind-Ensures (λ l. HasHeights (some l)) HasHeights _ _ read_vmap_liquid-HasHeights
      λ l q. pure-Ensures HasHeights (some l) q

read_group_model-HasHeights : Ensures (λ g. HasHeights g.liquid) read_group_model
unfolding read_group_model
read_group_model-HasHeights =
    let P : GroupData → Type 0 = λ g. HasHeights g.liquid in
    after-Ensures P _ _ λ _. after-Ensures P _ _ λ _. after-Ensures P _ _ λ _.
      after-Ensures P _ _ λ _. after-Ensures P _ _ λ _. after-Ensures P _ _ λ _.
        after-Ensures P _ _ λ _. after-Ensures P _ _ λ _. after-Ensures P _ _ λ _.
          after-Ensures P _ _ λ _. after-Ensures P _ _ λ _. after-Ensures P _ _ λ has_liquid.
            bind-Ensures HasHeights P _ _ (read_vmap_liquid_if-HasHeights (not (has_liquid == 0)))
              λ liquid q. pure-Ensures P _ q

read_world_model-HasHeights : Ensures (All (λ g. HasHeights g.liquid)) read_world_model
unfolding read_world_model
read_world_model-HasHeights =
    let P : List GroupData → Type 0 = All (λ g. HasHeights g.liquid) in
    let One : GroupData → Type 0 = λ g. HasHeights g.liquid in
    after-Ensures P _ _ λ _. after-Ensures P _ _ λ _. after-Ensures P _ _ λ n_groups.
      after-Ensures P _ _ λ _. after-Ensures P _ _ λ _. λ bs rest gs h.
        (repeat-Ensures One read_group_model n_groups read_group_model-HasHeights bs rest gs h).0

load_world_model-HasHeights :
    (file : Option (List ℕ)) (groups : List GroupData)
    → load_world_model file ≡ some groups
    → All (λ g. HasHeights g.liquid) groups
unfolding load_world_model value_of
load_world_model-HasHeights none groups h = cc
load_world_model-HasHeights (some file) groups h = elim (Bool-cases (ltb (length file) 12)) [
  | inl short ↦ absurd (let h' = rw (load_world_model, short) at h in cc)
  | inr long ↦ elim (Option-cases (read_world_model file)) [
    | inl broken ↦ absurd (let h' = rw (load_world_model, long, broken) at h in cc)
    | inr ((gs, rest), read) ↦
        let same : gs ≡ groups = some_injective (rw (load_world_model, long, read) at h) in
        rw (sym same) (read_world_model-HasHeights file rest gs read)
  ]
]

-- The place of a corner among the heights, and the sides that it needs.
corner_place : (w h x y : ℕ) → x < w → y < h → y * w + x < w * h
corner_place w h x y p q = grind arith

sides : (w h : ℕ) → (w + 1) * (h + 1) < 2 ^ 32 → (w + 1 < 2 ^ 32) × (h + 1 < 2 ^ 32)
sides w h small = (grind arith, grind arith)

below : (a b : ℕ) → a < b → ltb a b ≡ true
below a b h = ground arith

-- A value comes out.
abbrev Gives : {A : Type 0} → Option A → Type 0
Gives {A} r = (a : A) × (r ≡ some a)

bind-Gives :
    {A B : Type 0} (first : Option A) (next : A → Option B)
    → Gives first
    → ((a : A) → Gives (next a))
    → Gives (first >>= next)
bind-Gives first next (a, h) k = rw h (k a)

liquid_vertex-Gives :
    (float : FloatOps) (l : VmapLiquidData) (x y : ℕ)
    → HasHeights (some l)
    → IsCounted (some l)
    → x < l.tiles_x + 1
    → y < l.tiles_y + 1
    → Gives (liquid_vertex float l x y)
unfolding liquid_vertex
liquid_vertex-Gives float l x y heights counted p q =
    let (wide, high) = sides l.tiles_x l.tiles_y counted in
    let exact_x : (l.tiles_x + 1) % 2 ^ 32 ≡ l.tiles_x + 1 = omega arith in
    let exact_y : (l.tiles_y + 1) % 2 ^ 32 ≡ l.tiles_y + 1 = omega arith in
    let place = corner_place (l.tiles_x + 1) (l.tiles_y + 1) x y p q in
    let size : length l.heights ≡ ((l.tiles_x + 1) * (l.tiles_y + 1)) % 2 ^ 32 =
      heights
      ∙ ap (λ k. (k * ((l.tiles_y + 1) % 2 ^ 32)) % 2 ^ 32) exact_x
      ∙ ap (λ k. ((l.tiles_x + 1) * k) % 2 ^ 32) exact_y in
    let inside : ltb ((y * (l.tiles_x + 1) + x) % 2 ^ 32) (length l.heights) ≡ true =
      below _ _ (omega arith) in
    rw (exact_x, inside) (_, refl)

row_vertices-Gives :
    (float : FloatOps) (l : VmapLiquidData) (rounds x y : ℕ)
    → HasHeights (some l)
    → IsCounted (some l)
    → x < l.tiles_x + 1
    → rounds + y ≤ l.tiles_y + 1
    → Gives (row_vertices float l rounds x y)
unfolding row_vertices
row_vertices-Gives float l zero x y heights counted p q = ([], refl)
row_vertices-Gives float l (suc rounds) x y heights counted p q =
    bind-Gives (liquid_vertex float l x y) _
      (liquid_vertex-Gives float l x y heights counted p (omega arith))
      λ v.
        bind-Gives (row_vertices float l rounds x (suc y)) _
          (row_vertices-Gives float l rounds x (suc y) heights counted p (omega arith))
          λ vs. (v ∷ vs, refl)

liquid_vertices-Gives :
    (float : FloatOps) (l : VmapLiquidData) (rounds x : ℕ)
    → HasHeights (some l)
    → IsCounted (some l)
    → rounds + x ≤ l.tiles_x + 1
    → Gives (liquid_vertices float l rounds x)
unfolding liquid_vertices
liquid_vertices-Gives float l zero x heights counted p = ([], refl)
liquid_vertices-Gives float l (suc rounds) x heights counted p =
    let (wide, high) = sides l.tiles_x l.tiles_y counted in
    bind-Gives (row_vertices float l ((l.tiles_y + 1) % 2 ^ 32) x 0) _
      (row_vertices-Gives float l ((l.tiles_y + 1) % 2 ^ 32) x 0 heights counted (omega arith)
        (omega arith))
      λ row.
        bind-Gives (liquid_vertices float l rounds (suc x)) _
          (liquid_vertices-Gives float l rounds (suc x) heights counted (omega arith))
          λ rows. (row ++ rows, refl)

add_liquid-Gives :
    (float : FloatOps) (place : Vec3 → Vec3) (liquid : Option VmapLiquidData) (m : MeshData)
    → HasHeights liquid
    → IsCounted liquid
    → Gives (add_liquid float place liquid m)
unfolding add_liquid
add_liquid-Gives float place none m heights counted = (m, refl)
add_liquid-Gives float place (some l) m heights counted =
    let (wide, high) = sides l.tiles_x l.tiles_y counted in
    bind-Gives (liquid_vertices float l ((l.tiles_x + 1) % 2 ^ 32) 0) _
      (liquid_vertices-Gives float l ((l.tiles_x + 1) % 2 ^ 32) 0 heights counted (omega arith))
      λ vertices. (_, refl)

add_groups-Gives :
    (float : FloatOps) (is_m2 : Bool) (place : Vec3 → Vec3) (gs : List GroupData) (m : MeshData)
    → All (λ g. HasHeights g.liquid) gs
    → All (λ g. IsCounted g.liquid) gs
    → Gives (add_groups float is_m2 place gs m)
unfolding add_groups
add_groups-Gives float is_m2 place [] m heights counted = (m, refl)
add_groups-Gives float is_m2 place (g ∷ gs) m heights counted =
    bind-Gives (add_liquid float place g.liquid (add_solid float is_m2 place g m)) _
      (add_liquid-Gives float place g.liquid _ heights.0 counted.0)
      λ m'. add_groups-Gives float is_m2 place gs m' heights.1 counted.1

module _ (float : FloatOps) (files : Text → Option (List ℕ)) where
  -- The vertices of each liquid of a model can be counted by a u32.
  abbrev pub HasCounted : Type 0
  HasCounted =
      (name : Text) (groups : List GroupData)
      → load_world_model (files name) ≡ some groups
      → All (λ g. IsCounted g.liquid) groups

  add_model-Gives :
      (spawn : ModelSpawnData) (model : Option (List GroupData)) (state : Bool × MeshData)
      → ((groups : List GroupData)
          → model ≡ some groups
          → All (λ g. HasHeights g.liquid) groups × All (λ g. IsCounted g.liquid) groups)
      → Gives (add_model float files spawn model state)
  unfolding add_model add_spawn
  add_model-Gives spawn none (found, m) ok = ((found, m), refl)
  add_model-Gives spawn (some groups) (found, m) ok =
      let (heights, counted) = ok groups refl in
      let place =
        transformed float (rotation_of float spawn) spawn.scale (position_of float spawn) in
      bind-Gives (add_groups float (is_m2_name spawn.name) place groups m) _
        (add_groups-Gives float (is_m2_name spawn.name) place groups m heights counted)
        λ m'. ((true, m'), refl)

  spawn_rounds-Gives :
      (rounds : ℕ) (bytes : List ℕ) (state : Bool × MeshData)
      → HasCounted
      → Gives (spawn_rounds float files rounds bytes state)
  unfolding spawn_rounds
  spawn_rounds-Gives zero bytes state ok = (state, refl)
  spawn_rounds-Gives (suc rounds) bytes state ok = elim (Option-cases (read_model_spawn bytes)) [
    | inl ended ↦ rw (spawn_rounds, ended) (state, refl)
    | inr ((spawn, rest), read) ↦
        rw (spawn_rounds, read)
          (bind-Gives (add_model float files spawn (load_world_model (files spawn.name)) state)
            (spawn_rounds float files rounds rest)
            (add_model-Gives spawn (load_world_model (files spawn.name)) state λ groups e.
              (load_world_model-HasHeights (files spawn.name) groups e, ok spawn.name groups e))
            λ state'. spawn_rounds-Gives rounds rest state' ok)
  ]

-- Adding the models of a tree file ends with a mesh and never takes a height that is missing, if the
-- vertices of each liquid of a model that can be read can be counted by a u32.
pub load_vmap_total :
    (float : FloatOps) (files : Text → Option (List ℕ)) (vmtree : Option (List ℕ)) (m : MeshData)
    → HasCounted float files
    → (out : Bool × MeshData) × (load_vmap float files vmtree m ≡ some out)
unfolding load_vmap after_header
load_vmap_total float files none m ok = ((false, m), refl)
load_vmap_total float files (some vmtree) m ok = elim (Bool-cases (ltb (length vmtree) 12)) [
  | inl short ↦ rw (load_vmap, short) ((false, m), refl)
  | inr long ↦ elim (Option-cases (read_tree_header vmtree)) [
    | inl broken ↦ rw (load_vmap, long, broken) ((false, m), refl)
    | inr ((n, bytes), read) ↦
        rw (load_vmap, long, read) (spawn_rounds-Gives float files n bytes (false, m) ok)
  ]
]
