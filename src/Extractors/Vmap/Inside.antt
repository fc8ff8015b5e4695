-- ===== src/Extractors/Vmap/Inside.antt =====
-- Models whose triangles name their own vertices leave a mesh well formed.
use cmangos_tbc.Base.{
  ℕ, ◌+◌, ◌*◌, ◌/◌, ◌%◌, ◌^◌, ◌<◌, ◌≤◌, ◌≡◌, refl, ap, Bool, true, false, not, ◌&&◌, Option, none,
  some, List, [], ◌∷◌, ◌++◌, length, length-append, All, All-append, arith, zero, suc, inl, inr,
  Bool-cases, map, ltb, ◌==◌, bit_and, get_or,
}
use cmangos_tbc.Extractors.Reader.{concat_map}
use cmangos_tbc.Extractors.Float.{FloatOps}
use cmangos_tbc.Extractors.Spawn.{Vec3}
use cmangos_tbc.Extractors.Terrain.{as_i32}
use cmangos_tbc.Extractors.Terrain.Shape.{MeshData}
use cmangos_tbc.Extractors.Terrain.WellFormed.{IsMesh, IsInside, IsInside-more}
use cmangos_tbc.Extractors.Terrain.Indices.{All-concat_map, length-concat_map_of}
use cmangos_tbc.Extractors.Vmap.{VmapLiquidData, Triple, GroupData}
use cmangos_tbc.Extractors.Vmap.Models.{
  pushed_triple, pushed_liquid, pushed_vertex, tile_triples, row_triples, liquid_triples, add_solid,
  add_liquid_parts,
}

-- The three numbers name some of `n` vertices.
abbrev pub IsTriple : ℕ → Triple → Type 0
IsTriple n (a, b, c) = (a < n) × ((b < n) × (c < n))

abbrev pub IsLiquid : Option VmapLiquidData → Type 0
IsLiquid none = Unit
IsLiquid (some l) = (l.tiles_x + 1 < 2 ^ 32) × (l.tiles_y + 1 < 2 ^ 32)

-- The triangles of a group name its vertices, and the sides of its liquid do not wrap.
abbrev pub IsGroup : GroupData → Type 0
IsGroup g = All (IsTriple (length g.vertices)) g.triangles × IsLiquid g.liquid

-- A step that only adds vertices, and keeps a mesh well formed while its vertices fit an i32.
pub record Adds (m m' : MeshData) : Type 0 where
  pub solid_more : length m.solid_verts ≤ length m'.solid_verts
  pub liquid_more : length m.liquid_verts ≤ length m'.liquid_verts
  pub keeps :
      IsMesh m → length m'.solid_verts < 2 ^ 31 → length m'.liquid_verts < 2 ^ 31 → IsMesh m'

pub Adds-refl : (m : MeshData) → Adds m m
Adds-refl m = record { solid_more = omega arith; liquid_more = omega arith; keeps = λ w _ _. w }

pub Adds-trans : (a b c : MeshData) → Adds a b → Adds b c → Adds a c
Adds-trans a b c p q =
    let p1 = p.solid_more in
    let p2 = p.liquid_more in
    let q1 = q.solid_more in
    let q2 = q.liquid_more in
    record {
      solid_more = omega arith;
      liquid_more = omega arith;
      keeps = λ w s l. q.keeps (p.keeps w (omega arith) (omega arith)) s l;
    }

length-map_of : {A B : Type 0} (f : A → B) (xs : List A) → length (map f xs) ≡ length xs
length-map_of f [] = refl
length-map_of f (x ∷ xs) = ap suc (length-map_of f xs)

length-pushed :
    (place : Vec3 → Vec3) (vs : List Vec3)
    → length (concat_map pushed_vertex (map place vs)) ≡ length vs * 3
unfolding pushed_vertex
length-pushed place vs =
    omega (
      arith,
      length-concat_map_of 3 pushed_vertex (map place vs) (λ v. refl),
      length-map_of place vs,
    )

-- The numbers behind `count` coordinates that were there before.
pushed_triple-IsInside :
    (is_m2 : Bool) (count n : ℕ) (t : Triple)
    → count + n * 3 < 2 ^ 31
    → IsTriple n t
    → IsInside (count + n * 3) (pushed_triple is_m2 (as_i32 (count / 3)) t)
unfolding pushed_triple
pushed_triple-IsInside true count n (a, b, c) small h = omega arith
pushed_triple-IsInside false count n (a, b, c) small h = omega arith

pushed_liquid-IsInside :
    (count n : ℕ) (t : Triple)
    → count + n * 3 < 2 ^ 31
    → IsTriple n t
    → IsInside (count + n * 3) (pushed_liquid (as_i32 (count / 3)) t)
unfolding pushed_liquid
pushed_liquid-IsInside count n (a, b, c) small h = omega arith

length-pushed_triple :
    (is_m2 : Bool) (offset : ℕ) (t : Triple) → length (pushed_triple is_m2 offset t) ≡ 3
unfolding pushed_triple
length-pushed_triple true offset (a, b, c) = refl
length-pushed_triple false offset (a, b, c) = refl

length-pushed_liquid : (offset : ℕ) (t : Triple) → length (pushed_liquid offset t) ≡ 3
unfolding pushed_liquid
length-pushed_liquid offset (a, b, c) = refl

pub add_solid-Adds :
    (float : FloatOps) (is_m2 : Bool) (place : Vec3 → Vec3) (g : GroupData) (m : MeshData)
    → All (IsTriple (length g.vertices)) g.triangles
    → Adds m (add_solid float is_m2 place g m)
unfolding add_solid
add_solid-Adds float is_m2 place g m h =
    let offset = as_i32 (length m.solid_verts / 3) in
    let new = concat_map pushed_vertex (map place g.vertices) in
    let tris = concat_map (pushed_triple is_m2 offset) g.triangles in
    let n = length g.vertices in
    let size : length new ≡ n * 3 = length-pushed place g.vertices in
    let total : length (m.solid_verts ++ new) ≡ length m.solid_verts + length new =
      length-append m.solid_verts new in
    let tri_size : length tris ≡ length g.triangles * 3 =
      length-concat_map_of 3 (pushed_triple is_m2 offset) g.triangles
        (length-pushed_triple is_m2 offset) in
    let tri_total : length (m.solid_tris ++ tris) ≡ length m.solid_tris + length tris =
      length-append m.solid_tris tris in
    let sum : length (m.solid_verts ++ new) ≡ length m.solid_verts + n * 3 = omega arith in
    record {
      solid_more = omega arith;
      liquid_more = omega arith;
      keeps = λ w s l.
          let threes = w.solid_threes in
          record {
            solid_inside =
                All-append _ m.solid_tris tris
                  (IsInside-more _ _ m.solid_tris (omega arith) w.solid_inside)
                  (rw sum (
                    All-concat_map (IsTriple n) _ (pushed_triple is_m2 offset) g.triangles
                      (λ t i.
                        pushed_triple-IsInside is_m2 (length m.solid_verts) n t (omega arith) i)
                      h));
            liquid_inside = w.liquid_inside;
            solid_threes = omega arith;
            liquid_typed = w.liquid_typed;
          };
    }

pub add_liquid_parts-Adds :
    (float : FloatOps) (place : Vec3 → Vec3) (area : ℕ) (vertices : List Vec3)
    (triples : List Triple) (m : MeshData)
    → (length vertices * 3 < 2 ^ 31 → All (IsTriple (length vertices)) triples)
    → Adds m (add_liquid_parts float place area vertices triples m)
unfolding add_liquid_parts
add_liquid_parts-Adds float place area vertices triples m h =
    let offset = as_i32 (length m.liquid_verts / 3) in
    let new = concat_map pushed_vertex (map place vertices) in
    let tris = concat_map (pushed_liquid offset) triples in
    let n = length vertices in
    let size : length new ≡ n * 3 = length-pushed place vertices in
    let total : length (m.liquid_verts ++ new) ≡ length m.liquid_verts + length new =
      length-append m.liquid_verts new in
    let tri_size : length tris ≡ length triples * 3 =
      length-concat_map_of 3 (pushed_liquid offset) triples (length-pushed_liquid offset) in
    let tri_total : length (m.liquid_tris ++ tris) ≡ length m.liquid_tris + length tris =
      length-append m.liquid_tris tris in
    let areas = map (λ (t : Triple). area) triples in
    let area_size : length areas ≡ length triples = length-map_of (λ (t : Triple). area) triples in
    let area_total : length (m.liquid_type ++ areas) ≡ length m.liquid_type + length areas =
      length-append m.liquid_type areas in
    let sum : length (m.liquid_verts ++ new) ≡ length m.liquid_verts + n * 3 = omega arith in
    record {
      solid_more = omega arith;
      liquid_more = omega arith;
      keeps = λ w s l.
          let typed = w.liquid_typed in
          record {
            solid_inside = w.solid_inside;
            liquid_inside =
                All-append _ m.liquid_tris tris
                  (IsInside-more _ _ m.liquid_tris (omega arith) w.liquid_inside)
                  (rw sum (
                    All-concat_map (IsTriple n) _ (pushed_liquid offset) triples
                      (λ t i. pushed_liquid-IsInside (length m.liquid_verts) n t (omega arith) i)
                      (h (omega arith))));
            solid_threes = w.solid_threes;
            liquid_typed = omega arith;
          };
    }

-- The last corner of a tile lies in the grid of the liquid's vertices.
corner-lt : (tx ty x y : ℕ) → x < tx → y < ty → x * ty + y + ty + 1 + 1 + x < (tx + 1) * (ty + 1)
corner-lt tx ty x y hx hy = grind arith

tile_triples-IsTriple :
    (l : VmapLiquidData) (x y : ℕ)
    → (l.tiles_x + 1) * (l.tiles_y + 1) < 2 ^ 31
    → x < l.tiles_x
    → y < l.tiles_y
    → All (IsTriple ((l.tiles_x + 1) * (l.tiles_y + 1))) (tile_triples l x y)
unfolding tile_triples
tile_triples-IsTriple l x y small hx hy =
    let n = (l.tiles_x + 1) * (l.tiles_y + 1) in
    let square = x * l.tiles_y + y in
    let last : square + l.tiles_y + 1 + 1 + x < n = corner-lt l.tiles_x l.tiles_y x y hx hy in
    let flag_idx = (x + y * l.tiles_x) % 2 ^ 32 in
    elim (Bool-cases
      (ltb flag_idx (length l.flags) && not (bit_and (get_or l.flags flag_idx 0) 0x0F == 0x0F))) [
        | inl wet ↦ rw wet (
          ((omega arith, (omega arith, omega arith))),
          ((omega arith, (omega arith, omega arith)), tt),
        )
        | inr dry ↦ rw dry tt
      ]

row_triples-IsTriple :
    (l : VmapLiquidData) (rounds x y : ℕ)
    → (l.tiles_x + 1) * (l.tiles_y + 1) < 2 ^ 31
    → x < l.tiles_x
    → rounds + y ≤ l.tiles_y
    → All (IsTriple ((l.tiles_x + 1) * (l.tiles_y + 1))) (row_triples l rounds x y)
unfolding row_triples
row_triples-IsTriple l zero x y small hx hy = tt
row_triples-IsTriple l (suc rounds) x y small hx hy =
    All-append _ (tile_triples l x y) (row_triples l rounds x (suc y))
      (tile_triples-IsTriple l x y small hx (omega arith))
      (row_triples-IsTriple l rounds x (suc y) small hx (omega arith))

pub liquid_triples-IsTriple :
    (l : VmapLiquidData) (rounds x : ℕ)
    → (l.tiles_x + 1) * (l.tiles_y + 1) < 2 ^ 31
    → rounds + x ≤ l.tiles_x
    → All (IsTriple ((l.tiles_x + 1) * (l.tiles_y + 1))) (liquid_triples l rounds x)
unfolding liquid_triples
liquid_triples-IsTriple l zero x small hx = tt
liquid_triples-IsTriple l (suc rounds) x small hx =
    All-append _ (row_triples l l.tiles_y x 0) (liquid_triples l rounds (suc x))
      (row_triples-IsTriple l l.tiles_y x 0 small (omega arith) (omega arith))
      (liquid_triples-IsTriple l rounds (suc x) small (omega arith))
