-- ===== src/Extractors/RawModel/Swapped.antt =====
-- The indices and the axes that the extractor swaps in a single model.
use cmangos_tbc.Base.{
  ℕ, ◌%◌, ◌^◌, ◌<◌, ◌≤◌, ◌≡◌, refl, sym, ap, true, false, Bool-cases, inl, inr, List, [], ◌∷◌,
  length, All, arith, zero, suc, map, ◌==◌,
}
use cmangos_tbc.Base.Bytes.{to_le}
use cmangos_tbc.Extractors.Reader.{Reads, read_u16, concat_map}
use cmangos_tbc.Extractors.Float.{FloatOps, FloatLaws}
use cmangos_tbc.Extractors.Spawn.{Vec3, read_vec3, write_vec3}
use cmangos_tbc.Extractors.Spawn.RoundTrip.{IsVec3, read_u16-Reads, read_vec3-Reads}
use cmangos_tbc.Extractors.RawModel.{MeshTriangle, triangles_of}
use cmangos_tbc.Extractors.RawModel.Single.{swap_from, fix_coord_system, unfixed, written_vertex}

-- The triangles that are meant: of each one, the second and the third corner are swapped.
abbrev pub flipped : MeshTriangle → MeshTriangle
flipped t = record { idx0 = t.idx0; idx1 = t.idx2; idx2 = t.idx1 }

swap_from_nil : (n i : ℕ) → swap_from n i [] ≡ []
unfolding swap_from
swap_from_nil zero i = refl
swap_from_nil (suc n) i = refl

-- A step that is not at the second corner keeps its index.
swap_from_keeps :
    (n i x : ℕ) (rest : List ℕ)
    → (i % 3 == 1) ≡ false
    → swap_from (suc n) i (x ∷ rest) ≡ x ∷ swap_from n (suc i) rest
unfolding swap_from
swap_from_keeps n i x [] other = ap (λ t. x ∷ t) (sym (swap_from_nil n (suc i)))
swap_from_keeps n i x (y ∷ rest) other = rw other refl

swap_from_swaps :
    (n i x y : ℕ) (rest : List ℕ)
    → (i % 3 == 1) ≡ true
    → swap_from (suc n) i (x ∷ y ∷ rest) ≡ y ∷ swap_from n (suc i) (x ∷ rest)
unfolding swap_from
swap_from_swaps n i x y rest same = rw same refl

pub triangles_of-swap_from :
    (n i : ℕ) (xs : List ℕ)
    → i % 3 ≡ 0
    → length xs ≤ n
    → triangles_of (swap_from n i xs) ≡ map flipped (triangles_of xs)
unfolding triangles_of
triangles_of-swap_from n i [] at small = rw (swap_from_nil n i) refl
triangles_of-swap_from zero i (a ∷ rest) at small = absurd (omega arith)
triangles_of-swap_from (suc n) i (a ∷ []) at small =
    let e0 : (i % 3 == 1) ≡ false = ground arith in
    rw (swap_from_keeps n i a [] e0, swap_from_nil n (suc i)) refl
triangles_of-swap_from (suc zero) i (a ∷ b ∷ rest) at small = absurd (omega arith)
triangles_of-swap_from (suc (suc n)) i (a ∷ b ∷ []) at small =
    let e0 : (i % 3 == 1) ≡ false = ground arith in
    rw (swap_from_keeps (suc n) i a (b ∷ []) e0) (unfold swap_from in refl)
triangles_of-swap_from (suc (suc zero)) i (a ∷ b ∷ c ∷ rest) at small = absurd (omega arith)
triangles_of-swap_from (suc (suc (suc n))) i (a ∷ b ∷ c ∷ rest) at small =
    let e0 : (i % 3 == 1) ≡ false = ground arith in
    let e1 : (suc i % 3 == 1) ≡ true = let m : suc i % 3 ≡ 1 = omega arith in rw m refl in
    let e2 : (suc (suc i) % 3 == 1) ≡ false =
      let m : suc (suc i) % 3 ≡ 2 = omega arith in rw m refl in
    rw
      (
        swap_from_keeps (suc (suc n)) i a (b ∷ c ∷ rest) e0,
        swap_from_swaps (suc n) (suc i) b c rest e1,
        swap_from_keeps n (suc (suc i)) b rest e2,
      )
      (ap (λ t. record { idx0 = a; idx1 = c; idx2 = b } ∷ t)
        (triangles_of-swap_from n (suc (suc (suc i))) rest (omega arith) (omega arith)))

pub length-swap_from : (n i : ℕ) (xs : List ℕ) → length (swap_from n i xs) ≡ length xs
unfolding swap_from
length-swap_from zero i xs = refl
length-swap_from (suc n) i (x ∷ y ∷ rest) =
    ground (arith, length-swap_from n (suc i) (x ∷ rest), length-swap_from n (suc i) (y ∷ rest))
length-swap_from (suc n) i (x ∷ []) = refl
length-swap_from (suc n) i [] = refl

pub All-swap_from : (P : ℕ → Type 0) (n i : ℕ) (xs : List ℕ) → All P xs → All P (swap_from n i xs)
unfolding swap_from
All-swap_from P zero i xs h = h
All-swap_from P (suc n) i (x ∷ y ∷ rest) h = elim (Bool-cases (i % 3 == 1)) [
  | inl same ↦ rw same (h.1.0, All-swap_from P n (suc i) (x ∷ rest) (h.0, h.1.1))
  | inr other ↦ rw other (h.0, All-swap_from P n (suc i) (y ∷ rest) h.1)
]
All-swap_from P (suc n) i (x ∷ []) h = h
All-swap_from P (suc n) i [] h = h

-- The two swaps of the axes cancel.
written_vertex-write_vec3 :
    (float : FloatOps) (v : Vec3)
    → FloatLaws float
    → IsVec3 v
    → written_vertex float v ≡ write_vec3 v
unfolding written_vertex unfixed fix_coord_system write_vec3
written_vertex-write_vec3 float v laws (x, (y, z)) = rw (laws.neg_neg v.y y) refl

pub All-Reads-vec3 :
    (vs : List Vec3) → All IsVec3 vs → All (λ v. Reads read_vec3 (write_vec3 v) v) vs
All-Reads-vec3 [] h = tt
All-Reads-vec3 (v ∷ vs) h = (read_vec3-Reads v h.0, All-Reads-vec3 vs h.1)

pub All-Reads-u16 :
    (xs : List ℕ) → All (λ x. x < 2 ^ 16) xs → All (λ x. Reads read_u16 (to_le 2 x) x) xs
All-Reads-u16 [] h = tt
All-Reads-u16 (x ∷ xs) h = (read_u16-Reads x h.0, All-Reads-u16 xs h.1)

pub concat_map-vertices :
    (float : FloatOps) (vs : List Vec3)
    → FloatLaws float
    → All IsVec3 vs
    → concat_map (written_vertex float) vs ≡ concat_map write_vec3 vs
unfolding concat_map
concat_map-vertices float [] laws h = refl
concat_map-vertices float (v ∷ vs) laws h =
    rw (written_vertex-write_vec3 float v laws h.0, concat_map-vertices float vs laws h.1) refl
