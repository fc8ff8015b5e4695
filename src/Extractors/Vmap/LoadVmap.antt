-- ===== src/Extractors/Vmap/LoadVmap.antt =====
-- `load_vmap` leaves a mesh well formed.
use cmangos_tbc.Base.{
  ℕ, ◌+◌, ◌*◌, ◌%◌, ◌^◌, ◌<◌, ◌≡◌, ◌∙◌, refl, sym, ap, Bool, Option, none, some, Option-cases,
  some_injective, List, [], ◌∷◌, ◌++◌, length, length-append, All, arith, zero, suc, inl, inr,
  Bool-cases, ltb,
}
use cmangos_tbc.Base.Text.{Text}
use cmangos_tbc.Extractors.Float.{FloatOps}
use cmangos_tbc.Extractors.Spawn.{Vec3}
use cmangos_tbc.Extractors.Terrain.Shape.{MeshData}
use cmangos_tbc.Extractors.Terrain.WellFormed.{IsMesh}
use cmangos_tbc.Extractors.Vmap.{
  ModelSpawnData, VmapLiquidData, GroupData, read_model_spawn, load_world_model, read_tree_header,
  is_m2_name,
}
use cmangos_tbc.Extractors.Vmap.Models.{
  vmap_area, liquid_triples, liquid_vertex, row_vertices, liquid_vertices, add_solid, add_liquid,
  add_groups, add_spawn, add_model, spawn_rounds, after_header, load_vmap, ◌>>=◌, transformed,
  rotation_of, position_of,
}
use cmangos_tbc.Extractors.Vmap.Inside.{
  IsLiquid, IsGroup, Adds, Adds-refl, Adds-trans, add_solid-Adds, add_liquid_parts-Adds,
  liquid_triples-IsTriple,
}

-- What comes first gives a value, and what follows takes it.
bind_some :
    {A B : Type 0} (first : Option A) (next : A → Option B) {b : B}
    → first >>= next ≡ some b
    → (a : A) × ((first ≡ some a) × (next a ≡ some b))
bind_some none next h = cc
bind_some (some a) next h = (a, (refl, h))

length-row_vertices :
    (float : FloatOps) (l : VmapLiquidData) (rounds x y : ℕ) (vs : List Vec3)
    → row_vertices float l rounds x y ≡ some vs
    → length vs ≡ rounds
unfolding row_vertices
length-row_vertices float l zero x y vs h = sym (ap length (some_injective h))
length-row_vertices float l (suc rounds) x y vs h =
    let (v, (here, h1)) = bind_some (liquid_vertex float l x y) _ h in
    let (rest, (there, h2)) = bind_some (row_vertices float l rounds x (suc y)) _ h1 in
    sym (ap length (some_injective h2))
    ∙ ap suc (length-row_vertices float l rounds x (suc y) rest there)

length-liquid_vertices :
    (float : FloatOps) (l : VmapLiquidData) (rounds x : ℕ) (vs : List Vec3)
    → liquid_vertices float l rounds x ≡ some vs
    → length vs ≡ rounds * ((l.tiles_y + 1) % 2 ^ 32)
unfolding liquid_vertices
length-liquid_vertices float l zero x vs h =
    let empty : length vs ≡ 0 = sym (ap length (some_injective h)) in omega arith
length-liquid_vertices float l (suc rounds) x vs h =
    let height = (l.tiles_y + 1) % 2 ^ 32 in
    let (row, (here, h1)) = bind_some (row_vertices float l height x 0) _ h in
    let (rows, (there, h2)) = bind_some (liquid_vertices float l rounds (suc x)) _ h1 in
    let split : length (row ++ rows) ≡ length row + length rows = length-append row rows in
    let one = length-row_vertices float l height x 0 row here in
    let more = length-liquid_vertices float l rounds (suc x) rows there in
    let whole : length vs ≡ length (row ++ rows) = sym (ap length (some_injective h2)) in
    omega arith

add_liquid-Adds :
    (float : FloatOps) (place : Vec3 → Vec3) (liquid : Option VmapLiquidData) (m m' : MeshData)
    → IsLiquid liquid
    → add_liquid float place liquid m ≡ some m'
    → Adds m m'
unfolding add_liquid
add_liquid-Adds float place none m m' ok h = rw (sym (some_injective h)) (Adds-refl m)
add_liquid-Adds float place (some l) m m' (wide, high) h =
    let width = (l.tiles_x + 1) % 2 ^ 32 in
    let (vs, (there, h1)) = bind_some (liquid_vertices float l width 0) _ h in
    let size = length-liquid_vertices float l width 0 vs there in
    let exact_x : (l.tiles_x + 1) % 2 ^ 32 ≡ l.tiles_x + 1 = omega arith in
    let exact_y : (l.tiles_y + 1) % 2 ^ 32 ≡ l.tiles_y + 1 = omega arith in
    let all : length vs ≡ (l.tiles_x + 1) * (l.tiles_y + 1) =
      size
      ∙ ap (λ k. k * ((l.tiles_y + 1) % 2 ^ 32)) exact_x
      ∙ ap (λ k. (l.tiles_x + 1) * k) exact_y in
    rw (sym (some_injective h1)) (
      add_liquid_parts-Adds float place (vmap_area l.liq_type) vs (liquid_triples l l.tiles_x 0) m
        (λ small. rw all (liquid_triples-IsTriple l l.tiles_x 0 (omega arith) (omega arith))))

add_groups-Adds :
    (float : FloatOps) (is_m2 : Bool) (place : Vec3 → Vec3) (gs : List GroupData) (m m' : MeshData)
    → All IsGroup gs
    → add_groups float is_m2 place gs m ≡ some m'
    → Adds m m'
unfolding add_groups
add_groups-Adds float is_m2 place [] m m' ok h = rw (sym (some_injective h)) (Adds-refl m)
add_groups-Adds float is_m2 place (g ∷ gs) m m' ok h =
    let solid = add_solid float is_m2 place g m in
    let (mid, (here, h1)) = bind_some (add_liquid float place g.liquid solid) _ h in
    Adds-trans m mid m'
      (Adds-trans m solid mid (add_solid-Adds float is_m2 place g m ok.0.0)
        (add_liquid-Adds float place g.liquid solid mid ok.0.1 here))
      (add_groups-Adds float is_m2 place gs mid m' ok.1 h1)

module _ (float : FloatOps) (files : Text → Option (List ℕ)) where
  -- The models of the files are well formed.
  abbrev pub HasModels : Type 0
  HasModels =
      (name : Text) (groups : List GroupData)
      → load_world_model (files name) ≡ some groups
      → All IsGroup groups

  add_model-Adds :
      (spawn : ModelSpawnData) (model : Option (List GroupData)) (state out : Bool × MeshData)
      → ((groups : List GroupData) → model ≡ some groups → All IsGroup groups)
      → add_model float files spawn model state ≡ some out
      → Adds state.1 out.1
  unfolding add_model add_spawn
  add_model-Adds spawn none (found, m) out ok h =
      let same = ap (λ s. s.1) (some_injective h) in rw (sym same) (Adds-refl m)
  add_model-Adds spawn (some groups) (found, m) out ok h =
      let place =
        transformed float (rotation_of float spawn) spawn.scale (position_of float spawn) in
      let (m', (here, h1)) =
        bind_some (add_groups float (is_m2_name spawn.name) place groups m) _ h in
      let same = ap (λ s. s.1) (some_injective h1) in
      rw (sym same)
        (add_groups-Adds float (is_m2_name spawn.name) place groups m m' (ok groups refl) here)

  spawn_rounds-Adds :
      (rounds : ℕ) (bytes : List ℕ) (state out : Bool × MeshData)
      → HasModels
      → spawn_rounds float files rounds bytes state ≡ some out
      → Adds state.1 out.1
  unfolding spawn_rounds
  spawn_rounds-Adds zero bytes state out ok h =
      let same = ap (λ s. s.1) (some_injective h) in rw (sym same) (Adds-refl state.1)
  spawn_rounds-Adds (suc rounds) bytes state out ok h =
      elim (Option-cases (read_model_spawn bytes)) [
        | inl ended ↦
            let same =
              ap (λ (s : Bool × MeshData). s.1) (some_injective (rw (spawn_rounds, ended) at h)) in
            rw (sym same) (Adds-refl state.1)
        | inr ((spawn, rest), read) ↦
            let (mid, (here, h1)) =
              bind_some (add_model float files spawn (load_world_model (files spawn.name)) state)
                (spawn_rounds float files rounds rest) (rw (spawn_rounds, read) at h) in
            Adds-trans state.1 mid.1 out.1
              (add_model-Adds spawn (load_world_model (files spawn.name)) state mid
                (λ groups e. ok spawn.name groups e) here)
              (spawn_rounds-Adds rounds rest mid out ok h1)
      ]

-- Adding the models of a tree file leaves a well-formed mesh well formed, if in each model that can
-- be read the triangles of a group name vertices of the group and the sides of its liquid are below
-- 2^32 - 1, and the coordinates of the mesh that results can be counted by an i32.
pub load_vmap-IsMesh :
    (float : FloatOps) (files : Text → Option (List ℕ)) (vmtree : Option (List ℕ)) (m : MeshData)
    (out : Bool × MeshData)
    → HasModels float files
    → IsMesh m
    → load_vmap float files vmtree m ≡ some out
    → length out.1.solid_verts < 2 ^ 31
    → length out.1.liquid_verts < 2 ^ 31
    → IsMesh out.1
unfolding load_vmap after_header
load_vmap-IsMesh float files none m out ok w h s l =
    let same = ap (λ (s : Bool × MeshData). s.1) (some_injective h) in rw (sym same) w
load_vmap-IsMesh float files (some vmtree) m out ok w h s l =
    elim (Bool-cases (ltb (length vmtree) 12)) [
      | inl short ↦
          let same =
            ap (λ (s : Bool × MeshData). s.1) (some_injective (rw (load_vmap, short) at h)) in
          rw (sym same) w
      | inr long ↦ elim (Option-cases (read_tree_header vmtree)) [
        | inl broken ↦
            let same =
              ap (λ (s : Bool × MeshData). s.1)
                (some_injective (rw (load_vmap, long, broken) at h)) in
            rw (sym same) w
        | inr ((n, bytes), read) ↦
            (spawn_rounds-Adds float files n bytes _ out ok (rw (load_vmap, long, read) at h)).keeps
              w s l
      ]
    ]
