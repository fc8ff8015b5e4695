-- ===== src/Realmd/RealmList/Order.antt =====
-- The realms as a map: lookups, and the order of the keys, in which the packet lists them.
use cmangos_tbc.Base.{
  Bool-cases, inl, inr, ◌≡◌, refl, true, false, some, [], ◌∷◌, if◌then◌else◌, arith, All, bytes_eq,
  bytes_eq→eq, bytes_eq_refl,
}
use cmangos_tbc.Base.Text.{Text}
use cmangos_tbc.Realmd.RealmList.{Realm, Realms, bytes_lt, insert, get}

-- A lookup after an insertion.
pub get-insert :
    (j k : Text) (r : Realm) (m : Realms)
    → get j (insert k r m) ≡ (if bytes_eq j k then some r else get j m)
unfolding get insert
get-insert j k r [] = refl
get-insert j k r ((k', r') ∷ m) = ground (
  arith,
  bytes_eq→eq k k',
  bytes_eq→eq j k,
  bytes_eq→eq j k',
  bytes_eq_refl k,
  get-insert j k r m,
)

pub bytes_lt_trans :
    (xs ys zs : Text) → bytes_lt xs ys ≡ true → bytes_lt ys zs ≡ true → bytes_lt xs zs ≡ true
unfolding bytes_lt
bytes_lt_trans xs [] [] h k = cc
bytes_lt_trans xs (y ∷ ys) [] h k = cc
bytes_lt_trans [] ys (z ∷ zs) h k = refl
bytes_lt_trans (x ∷ xs) [] (z ∷ zs) h k = cc
bytes_lt_trans (x ∷ xs) (y ∷ ys) (z ∷ zs) h k = ground (arith, bytes_lt_trans xs ys zs)

-- Of two different strings one comes first.
bytes_lt_total :
    (xs ys : Text) → bytes_eq xs ys ≡ false → bytes_lt xs ys ≡ false → bytes_lt ys xs ≡ true
unfolding bytes_lt bytes_eq
bytes_lt_total [] [] h k = cc
bytes_lt_total [] (y ∷ ys) h k = cc
bytes_lt_total (x ∷ xs) [] h k = refl
bytes_lt_total (x ∷ xs) (y ∷ ys) h k = ground (arith, bytes_lt_total xs ys)

-- `k` comes before every key.
abbrev pub IsBefore : Text → Realms → Type 0
IsBefore k = All (λ e. bytes_lt k e.0 ≡ true)

-- The keys are in strictly increasing order.
abbrev pub IsSorted : Realms → Type 0
IsSorted [] = Unit
IsSorted ((k, r) ∷ m) = IsBefore k m × IsSorted m

IsBefore-trans : (j k : Text) (m : Realms) → bytes_lt j k ≡ true → IsBefore k m → IsBefore j m
IsBefore-trans j k [] h hm = tt
IsBefore-trans j k ((k', r') ∷ m) h hm = (bytes_lt_trans j k k' h hm.0, IsBefore-trans j k m h hm.1)

-- What holds of the new entry and of the old ones holds after an insertion.
pub insert-All {κ} :
    (P : Text × Realm → Type κ) (k : Text) (r : Realm) (m : Realms)
    → P (k, r)
    → All P m
    → All P (insert k r m)
unfolding insert
insert-All P k r [] h hm = (h, tt)
insert-All P k r ((k', r') ∷ m) h hm =
    let later = insert-All P k r m h hm.1 in
    elim (Bool-cases (bytes_eq k k')) [
      | inl same ↦ rw same (h, hm.1)
      | inr other ↦ rw other (elim (Bool-cases (bytes_lt k k')) [
        | inl before ↦ rw before (h, hm)
        | inr behind ↦ rw behind (hm.0, later)
      ])
    ]

-- Insertion keeps the keys in order, each key once.
pub insert-IsSorted : (k : Text) (r : Realm) (m : Realms) → IsSorted m → IsSorted (insert k r m)
unfolding insert
insert-IsSorted k r [] h = (tt, tt)
insert-IsSorted k r ((k', r') ∷ m) h = ground (
  arith,
  bytes_eq→eq k k',
  bytes_lt_total k k',
  IsBefore-trans k k' m,
  insert-All (λ e. bytes_lt k' e.0 ≡ true) k r m,
  insert-IsSorted k r m h.1,
)
