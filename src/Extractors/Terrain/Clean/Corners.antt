-- ===== src/Extractors/Terrain/Clean/Corners.antt =====
-- Cleaning the vertices leaves every triangle where it was.
use cmangos_tbc.Base.{
  ℕ, ◌+◌, ◌*◌, ◌^◌, ◌<◌, ◌≤◌, ◌≡◌, ◌∙◌, refl, ap, true, some, List, [], ◌∷◌, inl, inr, All, arith,
  ltb, get_or, length, map, suc, Bool-cases, ◌==◌,
}
use cmangos_tbc.Extractors.Spawn.{TreeMap, get, update_or}
use cmangos_tbc.Extractors.Spawn.Collect.{get-update_same, get-update_other, ==→eq}
use cmangos_tbc.Extractors.Terrain.{as_i32, as_usize}
use cmangos_tbc.Extractors.Terrain.WellFormed.{IsInside}
use cmangos_tbc.Extractors.Terrain.Clean.{
  key_of, collect, vertex_at, number, renumber, clean_vertices,
}

-- The coordinates of the vertex with a number.
abbrev pub corner : List ℕ → ℕ → ℕ × ℕ × ℕ
corner verts t = (get_or verts (t * 3) 0, get_or verts (t * 3 + 1) 0, get_or verts (t * 3 + 2) 0)

key_of-key_of : (t : ℕ) → t < 2 ^ 32 → key_of (key_of t) ≡ t
unfolding key_of
key_of-key_of t h = omega arith

-- An entry whose vertex is there.
abbrev Valid : List ℕ → ℕ × ℕ → Type 0
Valid verts e = (as_usize (key_of e.0) * 3 + 2 < length verts)

key-Valid :
    (verts : List ℕ) (t v : ℕ)
    → length verts < 2 ^ 31
    → t * 3 + 2 < length verts
    → Valid verts (key_of t, v)
unfolding as_usize
key-Valid verts t v small h =
    let same = key_of-key_of t (omega arith) in
    let low : ltb t (2 ^ 31) ≡ true = ground arith in rw (same, low) h

All-update :
    (P : ℕ × ℕ → Type 0) (key new : ℕ) (m : TreeMap ℕ)
    → P (key, new)
    → All P m
    → All P (update_or key new (λ old. old) m)
unfolding update_or
All-update P key new [] p h = (p, tt)
All-update P key new ((k, v) ∷ m) p h = elim (Bool-cases (key == k)) [
  | inl same ↦ rw same h
  | inr other ↦ elim (Bool-cases (ltb key k)) [
    | inl before ↦ rw (other, before) (p, h)
    | inr after ↦ rw (other, after) (h.0, All-update P key new m p h.1)
  ]
]

length-update :
    (key new : ℕ) (m : TreeMap ℕ) → length (update_or key new (λ old. old) m) ≤ suc (length m)
unfolding update_or
length-update key new [] = omega arith
length-update key new ((k, v) ∷ m) = ground (arith, length-update key new m)

collect-Valid :
    (verts tris : List ℕ) (m : TreeMap ℕ)
    → length verts < 2 ^ 31
    → IsInside (length verts) tris
    → All (Valid verts) m
    → All (Valid verts) (collect tris m)
unfolding collect
collect-Valid verts [] m small h valid = valid
collect-Valid verts (t ∷ tris) m small h valid =
    collect-Valid verts tris (update_or (key_of t) 0 (λ old. old) m) small h.1
      (All-update (Valid verts) (key_of t) 0 m (key-Valid verts t 0 small h.0) valid)

length-collect : (tris : List ℕ) (m : TreeMap ℕ) → length (collect tris m) ≤ length tris + length m
unfolding collect
length-collect [] m = omega arith
length-collect (t ∷ tris) m = omega (
  arith,
  length-collect tris (update_or (key_of t) 0 (λ old. old) m),
  length-update (key_of t) 0 m,
)

-- A key that is in the map stays there, and the numbers of the triangles come into it.
abbrev Known : (key : ℕ) → TreeMap ℕ → Type 0
Known key m = (v : ℕ) × (get key m ≡ some v)

update-Known :
    (key new other : ℕ) (m : TreeMap ℕ)
    → Known other m
    → Known other (update_or key new (λ old. old) m)
update-Known key new other m (v, e) = elim (Bool-cases (other == key)) [
  | inl same ↦ rw (==→eq other key same) (_, get-update_same key new (λ old. old) m)
  | inr apart ↦ (v, get-update_other key other new (λ old. old) m apart ∙ e)
]

collect-keeps : (tris : List ℕ) (m : TreeMap ℕ) (key : ℕ) → Known key m → Known key (collect tris m)
unfolding collect
collect-keeps [] m key k = k
collect-keeps (t ∷ tris) m key k =
    collect-keeps tris (update_or (key_of t) 0 (λ old. old) m) key
      (update-Known (key_of t) 0 key m k)

collect-Known : (tris : List ℕ) (m : TreeMap ℕ) → All (λ t. Known (key_of t) (collect tris m)) tris
unfolding collect
collect-Known [] m = tt
collect-Known (t ∷ tris) m = (
  collect-keeps tris (update_or (key_of t) 0 (λ old. old) m) (key_of t)
      (_, get-update_same (key_of t) 0 (λ old. old) m),
  collect-Known tris (update_or (key_of t) 0 (λ old. old) m),
)

-- What a key in the map gets: a place of the map, whose vertex is a copy of the key's.
abbrev Placed : (verts : List ℕ) (count key : ℕ) (m : TreeMap ℕ) → Type 0
Placed verts count key m =
    (p : ℕ) × ((get key (number verts count m).0 ≡ some (as_i32 (count + p)))
      × ((p < length m)
          × ((p * 3 + 2 < length (number verts count m).1)
              × (corner (number verts count m).1 p ≡ corner verts (as_usize (key_of key))))))

vertex_there :
    (verts : List ℕ) (key v : ℕ)
    → Valid verts (key, v)
    → vertex_at verts key
      ≡ get_or verts (as_usize (key_of key) * 3) 0
        ∷ get_or verts (as_usize (key_of key) * 3 + 1) 0
        ∷ get_or verts (as_usize (key_of key) * 3 + 2) 0
        ∷ []
unfolding vertex_at
vertex_there verts key v h =
    let inside : ltb (as_usize (key_of key) * 3 + 2) (length verts) ≡ true = ground arith in
    rw inside refl

corner-next : (a b c : ℕ) (vs : List ℕ) (p : ℕ) → corner (a ∷ b ∷ c ∷ vs) (suc p) ≡ corner vs p
corner-next a b c vs p =
    let e : suc p * 3 ≡ suc (suc (suc (p * 3))) = omega arith in
    let e1 : suc p * 3 + 1 ≡ suc (suc (suc (p * 3 + 1))) = omega arith in
    let e2 : suc p * 3 + 2 ≡ suc (suc (suc (p * 3 + 2))) = omega arith in rw (e1, e2, e) refl

number-Placed :
    (verts : List ℕ) (count key : ℕ) (m : TreeMap ℕ)
    → All (Valid verts) m
    → Known key m
    → Placed verts count key m
unfolding number get
number-Placed verts count key [] valid (v, e) = cc
number-Placed verts count key ((k, old) ∷ m) valid (v, e) = elim (Bool-cases (key == k)) [
  | inl same ↦
      let here = vertex_there verts k old valid.0 in
      let zero_count : count + 0 ≡ count = omega arith in
      let equal : key ≡ k = ==→eq key k same in
      (
        0,
        (rw (same, zero_count) refl, (omega arith, (rw here (omega arith), rw (here, equal) refl))),
      )
  | inr other ↦ elim (Bool-cases (ltb key k)) [
    | inl before ↦ absurd (let e' = rw (other, before) at e in cc)
    | inr after ↦
        let here = vertex_there verts k old valid.0 in
        let (p, (found, (small, (inside, same)))) =
          number-Placed verts (suc count) key m valid.1 (v, rw (other, after) at e) in
        let shifted : count + suc p ≡ suc count + p = omega arith in
        (
          suc p,
          (
            rw (other, after, shifted) found,
            (omega arith, (rw here (omega arith), rw here (corner-next _ _ _ _ p ∙ same))),
          ),
        )
  ]
]

map-All :
    {A B : Type 0} (f g : A → B) (P : A → Type 0) (xs : List A)
    → ((x : A) → P x → f x ≡ g x)
    → All P xs
    → map f xs ≡ map g xs
map-All f g P [] step h = refl
map-All f g P (x ∷ xs) step h = rw (step x h.0) (ap (λ t. g x ∷ t) (map-All f g P xs step h.1))

map-map :
    {A B C : Type 0} (f : B → C) (g : A → B) (xs : List A)
    → map f (map g xs) ≡ map (λ x. f (g x)) xs
map-map f g [] = refl
map-map f g (x ∷ xs) = ap (λ t. f (g x) ∷ t) (map-map f g xs)

All-both :
    {A : Type 0} (P Q : A → Type 0) (xs : List A) → All P xs → All Q xs → All (λ x. P x × Q x) xs
All-both P Q [] p q = tt
All-both P Q (x ∷ xs) p q = ((p.0, q.0), All-both P Q xs p.1 q.1)

All-map :
    {A : Type 0} (P : A → Type 0) (Q : ℕ → Type 0) (f : A → ℕ) (xs : List A)
    → ((x : A) → P x → Q (f x))
    → All P xs
    → All Q (map f xs)
All-map P Q f [] step h = tt
All-map P Q f (x ∷ xs) step h = (step x h.0, All-map P Q f xs step h.1)

-- A number that a triangle uses: its new number names a copy of its vertex.
renumbered :
    (verts : List ℕ) (m : TreeMap ℕ) (t : ℕ)
    → length verts < 2 ^ 31
    → length m < 2 ^ 31
    → All (Valid verts) m
    → t * 3 + 2 < length verts
    → Known (key_of t) m
    → (corner (number verts 0 m).1 (renumber (number verts 0 m).0 t) ≡ corner verts t)
      × (renumber (number verts 0 m).0 t * 3 + 2 < length (number verts 0 m).1)
unfolding renumber as_usize
renumbered verts m t small few valid inside known =
    let (p, (found, (low, (there, same)))) = number-Placed verts 0 (key_of t) m valid known in
    let back = key_of-key_of t (omega arith) in
    let is_low : ltb t (2 ^ 31) ≡ true = ground arith in
    let exact : as_i32 (0 + p) ≡ p = omega arith in
    let own : corner (number verts 0 m).1 p ≡ corner verts t = same ∙ rw (back, is_low) refl in
    rw (found, exact) (own, there)

-- The triangles have the same corners after the vertices are cleaned, and name vertices that are
-- there, provided that they named vertices before and that there are less than 2^31 numbers of each.
pub clean_vertices_corners :
    (verts tris : List ℕ)
    → length verts < 2 ^ 31
    → length tris < 2 ^ 31
    → IsInside (length verts) tris
    → (map (corner (clean_vertices verts tris).0) (clean_vertices verts tris).1
        ≡ map (corner verts) tris)
      × IsInside (length (clean_vertices verts tris).0) (clean_vertices verts tris).1
unfolding clean_vertices
clean_vertices_corners verts [] small few h = (refl, tt)
clean_vertices_corners verts (t ∷ tris) small few h =
    let m = collect (t ∷ tris) [] in
    let size : length m < 2 ^ 31 = omega (arith, length-collect (t ∷ tris) []) in
    let valid = collect-Valid verts (t ∷ tris) [] small h tt in
    let both =
      All-both (λ v. v * 3 + 2 < length verts) (λ v. Known (key_of v) m) (t ∷ tris) h
        (collect-Known (t ∷ tris) []) in
    let vs = (number verts 0 m).1 in
    let new = renumber (number verts 0 m).0 in
    let step = λ (v : ℕ) (b : (v * 3 + 2 < length verts) × Known (key_of v) m).
      renumbered verts m v small size valid b.0 b.1 in
    (
      map-map (corner vs) new (t ∷ tris)
          ∙ map-All (λ v. corner vs (new v)) (corner verts) _ (t ∷ tris) (λ v b. (step v b).0) both,
      All-map _ (λ v. v * 3 + 2 < length vs) new (t ∷ tris) (λ v b. (step v b).1) both,
    )
