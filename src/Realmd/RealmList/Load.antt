-- ===== src/Realmd/RealmList/Load.antt =====
-- What one row of the database becomes.
use cmangos_tbc.Base.{
  ℕ, ◌^◌, ◌<◌, ◌≤◌, ◌≡◌, ◌≢◌, Bool, Option, none, some, List, [], ◌∷◌, arith, All, bit_and, ◌==◌,
  Bool-cases, Option-cases, inl, inr,
}
use cmangos_tbc.Base.Text.{Text}
use cmangos_tbc.Base.Space.{parse_u32}
use cmangos_tbc.Base.Int.{ℤ, as_unsigned, as_unsigned-lt}
use cmangos_tbc.Base.Bits.{and_mask-lt, and_mask-valid, or_offline-valid}
use cmangos_tbc.Shared.Types.{sec_administrator}
use cmangos_tbc.Shared.Database.{Row, get_string, unwrap_or, map_opt, get_u8, get_u32}
use cmangos_tbc.Realmd.RealmList.Order.{IsSorted, insert-IsSorted, insert-All}
use cmangos_tbc.Realmd.RealmList.{
  Realm, Realms, insert_build, add_build, parse_builds, realm_of, load_row, mask_flags,
  clamp_security, load_rows,
}

-- What every realm of the list satisfies: an id, no invalid flag, a security level of at most 3,
-- and its builds in increasing order without repetition.
abbrev IsIncreasing : List ℕ → Type 0
IsIncreasing [] = Unit
IsIncreasing (b ∷ bs) = All (λ c. b < c) bs × IsIncreasing bs

pub record IsRealm (realm : Realm) : Type 0 where
  pub id_set : realm.id ≢ 0
  pub flags_valid : bit_and realm.realm_flags 0x99 ≡ 0
  pub security_bound : realm.allowed_security_level ≤ sec_administrator
  pub builds_increasing : IsIncreasing realm.realm_builds

unwrap-lt : (o : Option ℤ) → unwrap_or (map_opt (as_unsigned (2 ^ 8)) o) 0 < 256
unwrap-lt none = omega arith
unwrap-lt (some z) = as_unsigned-lt 256 z (omega arith)

get_u8-lt : (row : Row) (i : ℕ) → get_u8 row i < 256
unfolding get_u8
get_u8-lt row i = unwrap-lt (row.try_i32 i)

mask_flags-valid :
    (flags : ℕ) → flags < 256 → (bit_and (mask_flags flags) 0x99 ≡ 0) × (mask_flags flags < 256)
unfolding mask_flags
mask_flags-valid flags h = ground (arith, and_mask-valid flags, and_mask-lt flags)

All-trans : (a b : ℕ) (bs : List ℕ) → a < b → All (λ c. b < c) bs → All (λ c. a < c) bs
All-trans a b [] h hb = tt
All-trans a b (c ∷ cs) h hb = (omega arith, All-trans a b cs h hb.1)

insert_build-above :
    (a b : ℕ) (bs : List ℕ) → a < b → All (λ c. a < c) bs → All (λ c. a < c) (insert_build b bs)
unfolding insert_build
insert_build-above a b [] h hb = (h, tt)
insert_build-above a b (c ∷ cs) h hb = ground (arith, insert_build-above a b cs h hb.1)

insert_build-IsIncreasing :
    (b : ℕ) (bs : List ℕ) → IsIncreasing bs → IsIncreasing (insert_build b bs)
unfolding insert_build
insert_build-IsIncreasing b [] h = (tt, tt)
insert_build-IsIncreasing b (c ∷ cs) h =
    ground (arith, All-trans b c cs, insert_build-above c b cs, insert_build-IsIncreasing b cs h.1)

add_build-IsIncreasing :
    (token : Text) (bs : List ℕ) → IsIncreasing bs → IsIncreasing (add_build token bs)
unfolding add_build
add_build-IsIncreasing token bs h = elim (Option-cases (parse_u32 token)) [
  | inl e ↦ rw (e, add_build) h
  | inr (b, e) ↦ rw (e, add_build) (insert_build-IsIncreasing b bs h)
]

parse_builds-IsIncreasing :
    (tokens : List Text) (bs : List ℕ) → IsIncreasing bs → IsIncreasing (parse_builds tokens bs)
unfolding parse_builds
parse_builds-IsIncreasing [] bs h = h
parse_builds-IsIncreasing (token ∷ tokens) bs h =
    parse_builds-IsIncreasing tokens (add_build token bs) (add_build-IsIncreasing token bs h)

module _ (stale_timeout : ℤ) (init : Bool) (now : ℕ) (old : Realms) where
  realm_of-IsRealm :
      (row : Row) → get_u32 row 0 ≢ 0 → IsRealm (realm_of stale_timeout init now old row)
  unfolding realm_of clamp_security
  realm_of-IsRealm row h =
      let raw = mask_flags (get_u8 row 5) in
      let alive = (realm_of stale_timeout init now old row).last_seen_alive in
      let valid = mask_flags-valid (get_u8 row 5) (get_u8-lt row 5) in
      record {
        id_set = h;
        flags_valid = ground (arith, or_offline-valid raw);
        security_bound = ground arith;
        builds_increasing = parse_builds-IsIncreasing _ [] tt;
      }

  load_row-IsValid :
      (row : Row) (m : Realms)
      → IsSorted m
      → All (λ e. IsRealm e.1) m
      → IsSorted (load_row stale_timeout init now old row m)
        × All (λ e. IsRealm e.1) (load_row stale_timeout init now old row m)
  unfolding load_row
  load_row-IsValid row m hs hr =
      let name = get_string row 1 in
      let realm = realm_of stale_timeout init now old row in
      elim (Bool-cases (get_u32 row 0 == 0)) [
        | inl skipped ↦ rw skipped (hs, hr)
        | inr kept ↦ rw kept (
          insert-IsSorted name realm m hs,
          insert-All (λ e. IsRealm e.1) name realm m (realm_of-IsRealm row (ground arith)) hr,
        )
      ]

  -- Whatever rows the query returns, each realm of the list is well formed and the names are in
  -- order, each once.
  pub load_rows-IsValid :
      (rows : List Row) (m : Realms)
      → IsSorted m
      → All (λ e. IsRealm e.1) m
      → IsSorted (load_rows stale_timeout init now old rows m)
        × All (λ e. IsRealm e.1) (load_rows stale_timeout init now old rows m)
  unfolding load_rows
  load_rows-IsValid [] m hs hr = (hs, hr)
  load_rows-IsValid (row ∷ rows) m hs hr =
      let next = load_row-IsValid row m hs hr in
      load_rows-IsValid rows (load_row stale_timeout init now old row m) next.0 next.1
