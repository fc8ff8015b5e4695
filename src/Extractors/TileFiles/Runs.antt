-- ===== src/Extractors/TileFiles/Runs.antt =====
-- The runs of the sorted entries: one for each tile, with the ids placed on it in their order.
use cmangos_tbc.Base.{
  ℕ, ◌≤◌, ◌<◌, ◌≡◌, ◌∙◌, refl, sym, ap, List, [], ◌∷◌, if◌then◌else◌, ◌==◌, leb, All, arith, inl,
  inr, Bool-cases,
}
use cmangos_tbc.Extractors.TileFiles.{insert_by_key, sort_by_key, start_run, runs_of}

-- The ids that a list of entries gives for a tile, in their order.
unfoldable pub ids_at : (tile_id : ℕ) → List (ℕ × ℕ) → List ℕ
ids_at tile_id [] = []
ids_at tile_id ((t, id) ∷ entries) =
    let rest = ids_at tile_id entries in if t == tile_id then id ∷ rest else rest

ids_at-insert_by_key :
    (tile_id : ℕ) (e : ℕ × ℕ) (xs : List (ℕ × ℕ))
    → ids_at tile_id (insert_by_key e xs) ≡ ids_at tile_id (e ∷ xs)
unfolding ids_at insert_by_key
ids_at-insert_by_key tile_id e [] = refl
ids_at-insert_by_key tile_id (t, id) ((t', id') ∷ xs) =
    ground (arith, ids_at-insert_by_key tile_id (t, id) xs)

pub ids_at-sort_by_key :
    (tile_id : ℕ) (xs : List (ℕ × ℕ)) → ids_at tile_id (sort_by_key xs) ≡ ids_at tile_id xs
unfolding sort_by_key ids_at
ids_at-sort_by_key tile_id [] = refl
ids_at-sort_by_key tile_id ((t, id) ∷ xs) =
    ids_at-insert_by_key tile_id (t, id) (sort_by_key xs)
    ∙ ap (λ rest. if t == tile_id then id ∷ rest else rest) (ids_at-sort_by_key tile_id xs)

-- The keys are in order.
abbrev IsSorted : List (ℕ × ℕ) → Type 0
IsSorted [] = Unit
IsSorted (x ∷ xs) = All (λ y. x.0 ≤ y.0) xs × IsSorted xs

insert_by_key-All :
    (P : ℕ → Type 0) (e : ℕ × ℕ) (xs : List (ℕ × ℕ))
    → P e.0
    → All (λ y. P y.0) xs
    → All (λ y. P y.0) (insert_by_key e xs)
unfolding insert_by_key
insert_by_key-All P e [] h a = (h, tt)
insert_by_key-All P e (x ∷ xs) h a = elim (Bool-cases (leb e.0 x.0)) [
  | inl first ↦ rw first (h, a)
  | inr later ↦ rw later (a.0, insert_by_key-All P e xs h a.1)
]

pub sort_by_key-All :
    (P : ℕ → Type 0) (xs : List (ℕ × ℕ)) → All (λ y. P y.0) xs → All (λ y. P y.0) (sort_by_key xs)
unfolding sort_by_key
sort_by_key-All P [] h = tt
sort_by_key-All P (e ∷ xs) h = insert_by_key-All P e (sort_by_key xs) h.0 (sort_by_key-All P xs h.1)

above-less : (a b : ℕ) (xs : List (ℕ × ℕ)) → a ≤ b → All (λ y. b ≤ y.0) xs → All (λ y. a ≤ y.0) xs
above-less a b [] h ok = tt
above-less a b (x ∷ xs) h ok = (omega (arith, ok.0), above-less a b xs h ok.1)

insert_by_key-IsSorted :
    (e : ℕ × ℕ) (xs : List (ℕ × ℕ)) → IsSorted xs → IsSorted (insert_by_key e xs)
unfolding insert_by_key
insert_by_key-IsSorted e [] h = (tt, tt)
insert_by_key-IsSorted e (x ∷ xs) h = elim (Bool-cases (leb e.0 x.0)) [
  | inl first ↦
      let le : e.0 ≤ x.0 = ground arith in rw first ((le, above-less e.0 x.0 xs le h.0), h)
  | inr later ↦
      let le : x.0 ≤ e.0 = ground arith in
      rw later (insert_by_key-All (λ k. x.0 ≤ k) e xs le h.0, insert_by_key-IsSorted e xs h.1)
]

pub sort_by_key-IsSorted : (xs : List (ℕ × ℕ)) → IsSorted (sort_by_key xs)
unfolding sort_by_key
sort_by_key-IsSorted [] = tt
sort_by_key-IsSorted (e ∷ xs) = insert_by_key-IsSorted e (sort_by_key xs) (sort_by_key-IsSorted xs)

-- The ids of the first run of a tile.
unfoldable pub run_at : (tile_id : ℕ) → List (ℕ × List ℕ) → List ℕ
run_at tile_id [] = []
run_at tile_id ((t, ids) ∷ runs) =
    let rest = run_at tile_id runs in if t == tile_id then ids else rest

ids_at-above :
    (tile_id : ℕ) (xs : List (ℕ × ℕ)) → All (λ y. tile_id < y.0) xs → ids_at tile_id xs ≡ []
unfolding ids_at
ids_at-above tile_id [] h = refl
ids_at-above tile_id ((t, id) ∷ xs) h = ground (arith, ids_at-above tile_id xs h.1)

-- The tiles of the runs increase.
abbrev pub IsRuns : List (ℕ × List ℕ) → Type 0
IsRuns [] = Unit
IsRuns (r ∷ rs) = All (λ s. r.0 < s.0) rs × IsRuns rs

All-lt : (a b : ℕ) (rs : List (ℕ × List ℕ)) → a ≤ b → All (λ r. b < r.0) rs → All (λ r. a < r.0) rs
All-lt a b [] h ok = tt
All-lt a b (r ∷ rs) h ok = (omega (arith, ok.0), All-lt a b rs h ok.1)

start_run-All :
    (P : ℕ → Type 0) (e : ℕ × ℕ) (rs : List (ℕ × List ℕ))
    → P e.0
    → All (λ r. P r.0) rs
    → All (λ r. P r.0) (start_run e rs)
unfolding start_run
start_run-All P (t, id) [] h ok = (h, tt)
start_run-All P (t, id) ((next, ids) ∷ rs) h ok = elim (Bool-cases (t == next)) [
  | inl same ↦ rw same ok
  | inr other ↦ rw other (h, ok)
]

pub runs_of-All :
    (P : ℕ → Type 0) (xs : List (ℕ × ℕ)) → All (λ y. P y.0) xs → All (λ r. P r.0) (runs_of xs)
unfolding runs_of
runs_of-All P [] h = tt
runs_of-All P (e ∷ xs) h = start_run-All P e (runs_of xs) h.0 (runs_of-All P xs h.1)

start_run-IsRuns :
    (e : ℕ × ℕ) (rs : List (ℕ × List ℕ))
    → All (λ r. e.0 ≤ r.0) rs
    → IsRuns rs
    → IsRuns (start_run e rs)
unfolding start_run
start_run-IsRuns (t, id) [] h ok = (tt, tt)
start_run-IsRuns (t, id) ((next, ids) ∷ rs) h ok = elim (Bool-cases (t == next)) [
  | inl same ↦ rw same ok
  | inr other ↦
      let h0 : t ≤ next = h.0 in
      let lt : t < next = ground arith in
      let le : t ≤ next = h.0 in rw other ((lt, All-lt t next rs le ok.0), ok)
]

pub runs_of-IsRuns : (xs : List (ℕ × ℕ)) → IsSorted xs → IsRuns (runs_of xs)
unfolding runs_of
runs_of-IsRuns [] h = tt
runs_of-IsRuns (e ∷ xs) h =
    start_run-IsRuns e (runs_of xs) (runs_of-All (λ k. e.0 ≤ k) xs h.0) (runs_of-IsRuns xs h.1)

run_at-above :
    (tile_id : ℕ) (rs : List (ℕ × List ℕ)) → All (λ r. tile_id < r.0) rs → run_at tile_id rs ≡ []
unfolding run_at
run_at-above tile_id [] h = refl
run_at-above tile_id ((t, ids) ∷ rs) h = ground (arith, h.0, run_at-above tile_id rs h.1)

run_at-start_run :
    (tile_id t id : ℕ) (rs : List (ℕ × List ℕ))
    → All (λ r. t ≤ r.0) rs
    → IsRuns rs
    → run_at tile_id (start_run (t, id) rs)
      ≡ (if t == tile_id then id ∷ run_at tile_id rs else run_at tile_id rs)
unfolding run_at start_run
run_at-start_run tile_id t id [] h ok = ground arith
run_at-start_run tile_id t id ((next, ids) ∷ rs) h ok = elim (Bool-cases (t == next)) [
  | inl same ↦ let eq : t ≡ next = ground arith in rw eq (ground arith)
  | inr other ↦
      let le : t ≤ next = h.0 in
      let lt : t < next = ground arith in
      let nothing : run_at t ((next, ids) ∷ rs) ≡ [] =
        run_at-above t ((next, ids) ∷ rs) (lt, All-lt t next rs le ok.0) in
      elim (Bool-cases (t == tile_id)) [
        | inl here ↦
            let eq : t ≡ tile_id = ground arith in
            rw (other, here)
              (ap (◌∷◌ id) (sym (ap (λ k. run_at k ((next, ids) ∷ rs)) (sym eq) ∙ nothing)))
        | inr there ↦ rw (other, there) refl
      ]
]

pub run_at-runs_of :
    (tile_id : ℕ) (xs : List (ℕ × ℕ))
    → IsSorted xs
    → run_at tile_id (runs_of xs) ≡ ids_at tile_id xs
unfolding runs_of run_at ids_at
run_at-runs_of tile_id [] h = refl
run_at-runs_of tile_id ((t, id) ∷ xs) h =
    run_at-start_run tile_id t id (runs_of xs) (runs_of-All (λ k. t ≤ k) xs h.0)
      (runs_of-IsRuns xs h.1)
    ∙ ap (λ rest. if t == tile_id then id ∷ rest else rest) (run_at-runs_of tile_id xs h.1)
