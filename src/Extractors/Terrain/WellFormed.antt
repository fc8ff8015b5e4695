-- ===== src/Extractors/Terrain/WellFormed.antt =====
-- Well-formed meshes, and that storing the triangles of a portion keeps a mesh well formed.
use cmangos_tbc.Base.{
  ℕ, ◌+◌, ◌*◌, ◌%◌, ◌<◌, ◌≤◌, ◌≡◌, ◌∙◌, ◌⊎◌, refl, Bool, true, false, not, ◌&&◌, ◌||◌, List, [],
  ◌∷◌, ◌++◌, length, take, drop, length-append, length-take, length-drop, All, All-append, arith,
  inl, inr, Bool-cases, ltb,
}
use cmangos_tbc.Extractors.Float.{FloatOps}
use cmangos_tbc.Extractors.MapTables.Lookup.{length-set_at}
use cmangos_tbc.Extractors.Terrain.{is_hole}
use cmangos_tbc.Extractors.Terrain.Shape.{height_place, MeshData, is_empty, area_of, liquid_choice}
use cmangos_tbc.Extractors.Terrain.Portion.{
  patch_vert, patch_verts, patched, valid_heights, store_liquid, store_terrain, is_covered,
  resolve_half, resolve,
}
use cmangos_tbc.Extractors.Terrain.Indices.{All-take, All-drop, All-imply}

-- Each number names a vertex that has all its three coordinates among `count` of them.
abbrev pub IsInside : (count : ℕ) → List ℕ → Type 0
IsInside count tris = All (λ t. t * 3 + 2 < count) tris

-- The triangles name vertices, the numbers come in threes, and each triangle of the liquid has
-- one type.
pub record IsMesh (m : MeshData) : Type 0 where
  pub solid_inside : IsInside (length m.solid_verts) m.solid_tris
  pub liquid_inside : IsInside (length m.liquid_verts) m.liquid_tris
  pub solid_threes : length m.solid_tris % 3 ≡ 0
  pub liquid_typed : length m.liquid_tris ≡ 3 * length m.liquid_type

pub IsInside-more : (a b : ℕ) (tris : List ℕ) → a ≤ b → IsInside a tris → IsInside b tris
IsInside-more a b tris h =
    All-imply (λ t. t * 3 + 2 < a) (λ t. t * 3 + 2 < b) tris (λ t i. omega arith)

length-taken : (n k : ℕ) (xs : List ℕ) → n + k ≤ length xs → length (take k (drop n xs)) ≡ k
length-taken n k xs h = omega (arith, length-take {0} k (drop n xs), length-drop {0} n xs)

-- The triangles that are left from a place on are all there, or there are none at all.
abbrev pub HasLeft : (tris : List ℕ) (place size : ℕ) → Type 0
HasLeft tris place size = (is_empty tris ≡ true) ⊎ (place + size ≤ length tris)

HasLeft-take :
    (tris : List ℕ) (place size : ℕ)
    → is_empty tris ≡ false
    → HasLeft tris place size
    → place + size ≤ length tris
HasLeft-take tris place size h (inl e) = cc
HasLeft-take tris place size h (inr e) = e

HasLeft-less :
    (tris : List ℕ) (p p' k k' : ℕ) → p' + k' ≤ p + k → HasLeft tris p k → HasLeft tris p' k'
HasLeft-less tris p p' k k' h (inl e) = inl e
HasLeft-less tris p p' k k' h (inr e) = inr (omega arith)

length-patch_vert :
    (float : FloatOps) (tris : List ℕ) (mean k : ℕ) (verts : List ℕ)
    → length (patch_vert float tris mean k verts) ≡ length verts
unfolding patch_vert
length-patch_vert float tris mean k verts =
    ground (arith, length-set_at (height_place tris k) mean verts)

length-patch_verts :
    (float : FloatOps) (tris : List ℕ) (lt_idx : ℕ) (h : ℕ × ℕ) (verts : List ℕ)
    → length (patch_verts float tris lt_idx h verts) ≡ length verts
unfolding patch_verts
length-patch_verts float tris lt_idx (sum, valid) verts =
    let mean = float.div sum (float.from_int valid) in
    let v1 = patch_vert float tris mean lt_idx verts in
    let v2 = patch_vert float tris mean (lt_idx + 1) v1 in
    let e1 : length v1 ≡ length verts = length-patch_vert float tris mean lt_idx verts in
    let e2 : length v2 ≡ length v1 = length-patch_vert float tris mean (lt_idx + 1) v1 in
    let e3 = length-patch_vert float tris mean (lt_idx + 2) v2 in
    elim (Bool-cases (ltb 0 valid && ltb valid 3)) [
      | inl some_valid ↦ rw some_valid (e3 ∙ e2 ∙ e1)
      | inr other ↦ rw other refl
    ]

area_of-liquid : (t : ℕ) → (area_of t).1 ≡ true → (area_of t).0 ≡ true
unfolding area_of
area_of-liquid t h = ground arith

-- Liquid is used only where there are triangles of it.
liquid_choice-used :
    (loaded : Bool) (verts ltriangles flags : List ℕ) (i : ℕ)
    → (liquid_choice loaded verts ltriangles flags i).1 ≡ true
    → is_empty ltriangles ≡ false
unfolding liquid_choice
liquid_choice-used loaded verts ltriangles flags i h = elim (Bool-cases (is_empty ltriangles)) [
  | inr used ↦ used
  | inl none_there ↦ absurd (
      let off : (not loaded || (is_empty verts || is_empty ltriangles)) ≡ true = ground arith in
      let h' = rw off at h in cc)
]

module _ (float : FloatOps) (loaded : Bool) (flags holes copy ltriangles ttriangles : List ℕ)
    (solid liquid : ℕ) (inside_t : IsInside solid ttriangles)
    (inside_l : IsInside liquid ltriangles) where
  -- While triangles are stored, the numbers of the coordinates do not change.
  pub record Kept (m : MeshData) : Type 0 where
    pub mesh : IsMesh m
    pub solid_size : length m.solid_verts ≡ solid
    pub liquid_size : length m.liquid_verts ≡ liquid

  store_terrain-Kept :
      (used : Bool) (tt_idx : ℕ) (m : MeshData)
      → (used ≡ true → tt_idx + 6 ≤ length ttriangles)
      → Kept m
      → Kept (store_terrain float loaded flags holes copy ltriangles ttriangles used tt_idx m)
  unfolding store_terrain
  store_terrain-Kept true tt_idx m room k =
      let new = take 6 (drop tt_idx ttriangles) in
      let size : length new ≡ 6 = length-taken tt_idx 6 ttriangles (room refl) in
      let total : length (m.solid_tris ++ new) ≡ length m.solid_tris + length new =
        length-append m.solid_tris new in
      let here : IsInside (length m.solid_verts) new =
        rw k.solid_size
          (All-take _ 6 (drop tt_idx ttriangles) (All-drop _ tt_idx ttriangles inside_t)) in
      let threes = k.mesh.solid_threes in
      record {
        mesh = record {
          solid_inside = All-append _ m.solid_tris new k.mesh.solid_inside here;
          liquid_inside = k.mesh.liquid_inside;
          solid_threes = omega arith;
          liquid_typed = k.mesh.liquid_typed;
        };
        solid_size = k.solid_size;
        liquid_size = k.liquid_size;
      }
  store_terrain-Kept false tt_idx m room k = k

  store_liquid-Kept :
      (used : Bool) (area lt_idx : ℕ) (m : MeshData)
      → (used ≡ true → lt_idx + 3 ≤ length ltriangles)
      → Kept m
      → Kept (store_liquid float loaded flags holes copy ltriangles ttriangles used area lt_idx m)
  unfolding store_liquid
  store_liquid-Kept true area lt_idx m room k =
      let new = take 3 (drop lt_idx ltriangles) in
      let size : length new ≡ 3 = length-taken lt_idx 3 ltriangles (room refl) in
      let total : length (m.liquid_tris ++ new) ≡ length m.liquid_tris + length new =
        length-append m.liquid_tris new in
      let types : length (m.liquid_type ++ (area ∷ [])) ≡ length m.liquid_type + 1 =
        length-append m.liquid_type (area ∷ []) in
      let here : IsInside (length m.liquid_verts) new =
        rw k.liquid_size
          (All-take _ 3 (drop lt_idx ltriangles) (All-drop _ lt_idx ltriangles inside_l)) in
      let typed = k.mesh.liquid_typed in
      record {
        mesh = record {
          solid_inside = k.mesh.solid_inside;
          liquid_inside = All-append _ m.liquid_tris new k.mesh.liquid_inside here;
          solid_threes = k.mesh.solid_threes;
          liquid_typed = omega arith;
        };
        solid_size = k.solid_size;
        liquid_size = k.liquid_size;
      }
  store_liquid-Kept false area lt_idx m room k = k

  patched-Kept :
      (used : Bool) (lt_idx : ℕ) (m : MeshData)
      → Kept m
      → Kept (patched float loaded flags holes copy ltriangles ttriangles used lt_idx m).1
  unfolding patched
  patched-Kept used lt_idx m k = elim (Bool-cases (used && ltb (lt_idx + 2) (length ltriangles))) [
    | inr other ↦ rw other k
    | inl patch ↦
        let size =
          length-patch_verts float ltriangles lt_idx (valid_heights float copy ltriangles lt_idx)
            m.liquid_verts in
        rw patch (record {
          mesh = record {
            solid_inside = k.mesh.solid_inside;
            liquid_inside = rw size k.mesh.liquid_inside;
            solid_threes = k.mesh.solid_threes;
            liquid_typed = k.mesh.liquid_typed;
          };
          solid_size = k.solid_size;
          liquid_size = size ∙ k.liquid_size;
        })
  ]

  patched_used :
      (used : Bool) (lt_idx : ℕ) (m : MeshData)
      → (patched float loaded flags holes copy ltriangles ttriangles used lt_idx m).0 ≡ true
      → used ≡ true
  unfolding patched
  patched_used true lt_idx m h = refl
  patched_used false lt_idx m h = h

  terrain_used : (a e b : Bool) → ((a && not e) && b) ≡ true → e ≡ false
  terrain_used a e b h = ground arith

  resolve_half-Kept :
      (i lt_idx tt_idx : ℕ) (m : MeshData)
      → HasLeft ltriangles lt_idx 3
      → HasLeft ttriangles tt_idx 6
      → Kept m
      → Kept (resolve_half float loaded flags holes copy ltriangles ttriangles i lt_idx tt_idx m)
  unfolding resolve_half
  resolve_half-Kept i lt_idx tt_idx m left_l left_t k =
      let (terrain, liquid_on, area) = liquid_choice loaded m.liquid_verts ltriangles flags i in
      let (used, m') =
        patched float loaded flags holes copy ltriangles ttriangles liquid_on lt_idx m in
      let use_terrain = (terrain && not (is_empty ttriangles)) && not (is_hole i holes) in
      let covered =
        use_terrain && (used && is_covered float m' ltriangles ttriangles lt_idx tt_idx) in
      store_terrain-Kept use_terrain tt_idx _
        (λ e.
          HasLeft-take ttriangles tt_idx 6
            (terrain_used terrain (is_empty ttriangles) (not (is_hole i holes)) e) left_t)
        (store_liquid-Kept (used && not covered) area lt_idx m'
          (λ e.
            HasLeft-take ltriangles lt_idx 3
              (liquid_choice-used loaded m.liquid_verts ltriangles flags i
                (patched_used liquid_on lt_idx m (let u : used ≡ true = ground arith in u)))
              left_l)
          (patched-Kept liquid_on lt_idx m k))

  pub resolve-Kept :
      (rest : List ℕ) (lt_idx tt_idx : ℕ) (m : MeshData)
      → HasLeft ltriangles lt_idx (length rest * 6)
      → HasLeft ttriangles tt_idx (length rest * 12)
      → Kept m
      → Kept (resolve float loaded flags holes copy ltriangles ttriangles rest lt_idx tt_idx m)
  unfolding resolve
  resolve-Kept [] lt_idx tt_idx m left_l left_t k = k
  resolve-Kept (i ∷ rest) lt_idx tt_idx m left_l left_t k =
      resolve-Kept rest (lt_idx + 6) (tt_idx + 12) _
        (HasLeft-less ltriangles lt_idx (lt_idx + 6) _ _ (omega arith) left_l)
        (HasLeft-less ttriangles tt_idx (tt_idx + 12) _ _ (omega arith) left_t)
        (resolve_half-Kept i (lt_idx + 3) (tt_idx + 6) _
          (HasLeft-less ltriangles lt_idx (lt_idx + 3) _ 3 (omega arith) left_l)
          (HasLeft-less ttriangles tt_idx (tt_idx + 6) _ 6 (omega arith) left_t)
          (resolve_half-Kept i lt_idx tt_idx m
            (HasLeft-less ltriangles lt_idx lt_idx _ 3 (omega arith) left_l)
            (HasLeft-less ttriangles tt_idx tt_idx _ 6 (omega arith) left_t) k))
