-- ===== src/Extractors/Terrain/Indices.antt =====
-- The places that the triangles of a portion name: all of them are vertices of the portion.
use cmangos_tbc.Base.{
  ℕ, ◌+◌, ◌*◌, ◌^◌, ◌<◌, ◌≤◌, ◌≡◌, refl, List, [], ◌∷◌, length, take, drop, length-append, All,
  All-append, arith, zero, suc, ap, inl, inr, Bool-cases, ltb, ◌-◌,
}
use cmangos_tbc.Extractors.Reader.{concat_map}
use cmangos_tbc.Extractors.Terrain.{
  Spot, top, right, left, bottom, entire, while_below, get_loop_vars, squares, get_height_triangle,
  stored_triangle,
}
use cmangos_tbc.Extractors.Terrain.Shape.{
  count_up, solid_square, liquid_square, terrain_triangles, liquid_triangles,
}

pub All-concat_map :
    {A : Type 0} (P : A → Type 0) (Q : ℕ → Type 0) (f : A → List ℕ) (xs : List A)
    → ((x : A) → P x → All Q (f x))
    → All P xs
    → All Q (concat_map f xs)
unfolding concat_map
All-concat_map P Q f [] step h = tt
All-concat_map P Q f (x ∷ xs) step h =
    All-append Q (f x) (concat_map f xs) (step x h.0) (All-concat_map P Q f xs step h.1)

pub length-concat_map_of :
    {A : Type 0} (k : ℕ) (f : A → List ℕ) (xs : List A)
    → ((x : A) → length (f x) ≡ k)
    → length (concat_map f xs) ≡ length xs * k
unfolding concat_map
length-concat_map_of k f [] step = omega arith
length-concat_map_of k f (x ∷ xs) step =
    omega
      (arith, step x, length-append {0} (f x) (concat_map f xs), length-concat_map_of k f xs step)

pub length-count_up : (n i : ℕ) → length (count_up n i) ≡ n
unfolding count_up
length-count_up zero i = refl
length-count_up (suc n) i = ap suc (length-count_up n (suc i))

pub All-take : (P : ℕ → Type 0) (n : ℕ) (xs : List ℕ) → All P xs → All P (take n xs)
All-take P zero xs h = tt
All-take P (suc n) [] h = tt
All-take P (suc n) (x ∷ xs) h = (h.0, All-take P n xs h.1)

pub All-drop : (P : ℕ → Type 0) (n : ℕ) (xs : List ℕ) → All P xs → All P (drop n xs)
All-drop P zero xs h = h
All-drop P (suc n) [] h = tt
All-drop P (suc n) (x ∷ xs) h = All-drop P n xs h.1

pub All-imply : (P Q : ℕ → Type 0) (xs : List ℕ) → ((x : ℕ) → P x → Q x) → All P xs → All Q xs
All-imply P Q [] step h = tt
All-imply P Q (x ∷ xs) step h = (step x h.0, All-imply P Q xs step h.1)

while_below-lt : (fuel i stop inc : ℕ) → All (λ k. k < stop) (while_below fuel i stop inc)
unfolding while_below
while_below-lt zero i stop inc = tt
while_below-lt (suc fuel) i stop inc = elim (Bool-cases (ltb i stop)) [
  | inl inside ↦ rw inside (ground arith, while_below-lt fuel (i + inc) stop inc)
  | inr done ↦ rw done tt
]

-- More fuel than there are numbers up to `stop` changes nothing: the loop has ended.
while_below_ends :
    (fuel i stop inc : ℕ)
    → 0 < inc
    → stop ≤ fuel + i
    → while_below (suc fuel) i stop inc ≡ while_below fuel i stop inc
unfolding while_below
while_below_ends zero i stop inc pos h = ground arith
while_below_ends (suc fuel) i stop inc pos h = elim (Bool-cases (ltb i stop)) [
  | inl inside ↦
      rw inside (ap (λ t. i ∷ t) (while_below_ends fuel (i + inc) stop inc pos (omega arith)))
  | inr done ↦ rw done refl
]

squares-lt : (portion : Spot) → All (λ k. k < 128 * 128) (squares portion)
unfolding squares get_loop_vars
squares-lt top =
    All-imply (λ k. k < 128) (λ k. k < 128 * 128) (while_below 128 0 128 1) (λ x h. omega arith)
      (while_below-lt 128 0 128 1)
squares-lt right = while_below-lt (128 * 128) 127 (128 * 128) 128
squares-lt left =
    All-imply (λ k. k < 128 * 128 - 128 + 1) (λ k. k < 128 * 128)
      (while_below (128 * 128 - 128 + 1) 0 (128 * 128 - 128 + 1) 128) (λ x h. omega arith)
      (while_below-lt (128 * 128 - 128 + 1) 0 (128 * 128 - 128 + 1) 128)
squares-lt bottom = while_below-lt (128 * 128) (128 * 128 - 128) (128 * 128) 1
squares-lt entire = while_below-lt (128 * 128) 0 (128 * 128) 1

-- The vertices of a square's triangles lie in the two grids; those of its liquid in the first one.
solid_square-lt :
    (count i : ℕ)
    → count + 33025 < 2 ^ 32
    → i < 128 * 128
    → All (λ t. t < count + 33025) (solid_square count i)
unfolding solid_square get_height_triangle stored_triangle
solid_square-lt count i small h = omega arith

liquid_square-lt :
    (count i : ℕ)
    → count + 16641 < 2 ^ 32
    → i < 128 * 128
    → All (λ t. t < count + 16641) (liquid_square count i)
unfolding liquid_square get_height_triangle stored_triangle
liquid_square-lt count i small h = omega arith

pub terrain_triangles-lt :
    (count : ℕ) (portion : Spot)
    → count + 33025 < 2 ^ 32
    → All (λ t. t < count + 33025) (terrain_triangles count portion)
unfolding terrain_triangles
terrain_triangles-lt count portion small =
    All-concat_map (λ i. i < 128 * 128) (λ t. t < count + 33025) (solid_square count)
      (squares portion) (λ i h. solid_square-lt count i small h) (squares-lt portion)

pub liquid_triangles-lt :
    (count : ℕ) (portion : Spot)
    → count + 16641 < 2 ^ 32
    → All (λ t. t < count + 16641) (liquid_triangles count portion)
unfolding liquid_triangles
liquid_triangles-lt count portion small =
    All-concat_map (λ i. i < 128 * 128) (λ t. t < count + 16641) (liquid_square count)
      (squares portion) (λ i h. liquid_square-lt count i small h) (squares-lt portion)

length-solid_square : (count i : ℕ) → length (solid_square count i) ≡ 12
unfolding solid_square get_height_triangle stored_triangle
length-solid_square count i = refl

length-liquid_square : (count i : ℕ) → length (liquid_square count i) ≡ 6
unfolding liquid_square get_height_triangle stored_triangle
length-liquid_square count i = refl

-- Twelve numbers for each square of the terrain, six for each of the liquid.
pub length-terrain_triangles :
    (count : ℕ) (portion : Spot)
    → length (terrain_triangles count portion) ≡ length (squares portion) * 12
unfolding terrain_triangles
length-terrain_triangles count portion =
    length-concat_map_of 12 (solid_square count) (squares portion) (length-solid_square count)

pub length-liquid_triangles :
    (count : ℕ) (portion : Spot)
    → length (liquid_triangles count portion) ≡ length (squares portion) * 6
unfolding liquid_triangles
length-liquid_triangles count portion =
    length-concat_map_of 6 (liquid_square count) (squares portion) (length-liquid_square count)
