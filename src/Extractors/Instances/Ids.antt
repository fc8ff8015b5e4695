-- ===== src/Extractors/Instances/Ids.antt =====
-- Different instances get different ids, and an instance keeps its id.
use cmangos_tbc.Base.{
  ℕ, ◌+◌, ◌^◌, ◌<◌, ◌≤◌, ◌≡◌, ◌↔◌, ◌∙◌, inl, inr, refl, sym, ap, true, Option-cases, some, [], ◌∷◌,
  length, arith, suc, Bool-cases,
}
use cmangos_tbc.Extractors.Instances.{Key, key_eq, UniqueIds, find, or_next, generate}

-- The ids count up from 1 in the order of the first use.
abbrev pub Counted : UniqueIds → Type 0
Counted [] = Unit
Counted ((k, v) ∷ map) = (v ≡ suc (length map)) × Counted map

found_small :
    (key : Key) (map : UniqueIds) (v : ℕ) → Counted map → find key map ≡ some v → v ≤ length map
unfolding find
found_small key [] v c h = cc
found_small key ((k, w) ∷ map) v c h = elim (Bool-cases (key_eq key k)) [
  | inl same ↦ let h' = rw same at h in ground arith
  | inr other ↦ let h' = rw other at h in omega (arith, found_small key map v c.1 h')
]

key_eq→eq : (a b : Key) → key_eq a b ≡ true → a ≡ b
key_eq→eq (a, b) (c, d) h =
    let first : a ≡ c = ground arith in let second : b ≡ d = ground arith in rw (first, second) refl

-- One id belongs to one key.
pub find_injective :
    (a b : Key) (map : UniqueIds) (v : ℕ)
    → Counted map
    → find a map ≡ some v
    → find b map ≡ some v
    → a ≡ b
unfolding find
find_injective a b [] v c ha hb = cc
find_injective a b ((k, w) ∷ map) v c ha hb = elim (Bool-cases (key_eq a k)) [
  | inl here_a ↦ elim (Bool-cases (key_eq b k)) [
    | inl here_b ↦ key_eq→eq a k here_a ∙ sym (key_eq→eq b k here_b)
    | inr later_b ↦
        let fa = rw here_a at ha in
        let fb = rw later_b at hb in let small = found_small b map v c.1 fb in absurd (ground arith)
  ]
  | inr later_a ↦ elim (Bool-cases (key_eq b k)) [
    | inl here_b ↦
        let fa = rw later_a at ha in
        let fb = rw here_b at hb in let small = found_small a map v c.1 fa in absurd (ground arith)
    | inr later_b ↦ find_injective a b map v c.1 (rw later_a at ha) (rw later_b at hb)
  ]
]

key_eq_refl : (a : Key) → key_eq a a ≡ true
key_eq_refl (a, b) = ground arith

-- A call records the id that it returns, and the ids keep counting up.
generate_records :
    (a : Key) (ids : UniqueIds)
    → Counted ids
    → length ids + 1 < 2 ^ 32
    → (find a (generate a.0 a.1 ids).1 ≡ some (generate a.0 a.1 ids).0)
      × (Counted (generate a.0 a.1 ids).1 × (length (generate a.0 a.1 ids).1 ≤ length ids + 1))
unfolding generate or_next find
generate_records a ids c small = elim (Option-cases (find a ids)) [
  | inl fresh ↦ rw fresh (rw (key_eq_refl a) refl, ((omega arith, c), omega arith))
  | inr (v, known) ↦ rw known (known, (c, omega arith))
]

-- The next id is new, and an id that was given stays.
generate_keeps :
    (a b : Key) (ids : UniqueIds) (v : ℕ)
    → find a ids ≡ some v
    → find a (generate b.0 b.1 ids).1 ≡ some v
unfolding generate or_next find
generate_keeps a b ids v h = elim (Option-cases (find b ids)) [
  | inl fresh ↦ rw fresh (elim (Bool-cases (key_eq a b)) [
    | inl same ↦ let e : a ≡ b = key_eq→eq a b same in absurd (let fa = rw e at h in cc)
    | inr other ↦ rw other h
  ])
  | inr (w, known) ↦ rw known h
]

-- Two calls, one after the other, give the same id exactly when they are for the same pair of client
-- and doodad number, as long as there are fewer than 2^32 ids. The ids counted up from 1 before.
pub generate_exact :
    (a b : Key) (ids : UniqueIds)
    → Counted ids
    → length ids + 2 < 2 ^ 32
    → ((generate a.0 a.1 ids).0 ≡ (generate b.0 b.1 (generate a.0 a.1 ids).1).0) ↔ (a ≡ b)
generate_exact a b ids c small =
    let (found_a, (c1, len1)) = generate_records a ids c (omega arith) in
    let (found_b, (c2, len2)) = generate_records b (generate a.0 a.1 ids).1 c1 (omega arith) in
    let kept = generate_keeps a b (generate a.0 a.1 ids).1 (generate a.0 a.1 ids).0 found_a in
    let last = (generate b.0 b.1 (generate a.0 a.1 ids).1).1 in
    (
      λ same.
          find_injective a b last (generate b.0 b.1 (generate a.0 a.1 ids).1).0 c2
            (kept ∙ ap some same) found_b,
      λ e. let shared = ap (λ k. find k last) e in cc,
    )
