-- ===== src/Realmd/RealmList.antt =====
-- crates/realmd/src/realm_list.rs: the realms, and their refresh from the database.
-- A BTreeMap is an association list in the order of its keys, a BTreeSet a list in increasing order.
-- The clock and the rows of the query are arguments; an f32 is its bit pattern.
pub mod Order
pub mod Load
pub mod Refresh
use cmangos_tbc.Base.{
  ℕ, zero, suc, ◌+◌, ◌-◌, ◌*◌, ◌/◌, ◌%◌, ◌^◌, Bool, true, false, not, ◌&&◌, ◌||◌, Option, none,
  some, List, [], ◌∷◌, ◌++◌, if◌then◌else◌, ltb, leb, ◌==◌, length, bit_and, bit_or, bytes_eq,
}
use cmangos_tbc.Base.Text.{Text, text}
use cmangos_tbc.Base.Space.{split_whitespace, parse_u32}
use cmangos_tbc.Base.Int.{ℤ, pos, negsuc}
use cmangos_tbc.Shared.Types.{
  sec_administrator, realm_flag_offline, realm_flag_new_players, realm_flag_recommended,
  realm_flag_specifybuild,
}
use cmangos_tbc.Shared.Database.{Row, get_string, get_u8, get_u32, get_f32}
use cmangos_tbc.Realmd.Builds.{RealmBuildInfo, find_build_info, zeros}

pub record Realm : Type 0 where
  pub id : ℕ
  pub address : Text
  pub icon : ℕ
  pub realm_flags : ℕ
  pub timezone : ℕ
  pub allowed_security_level : ℕ
  pub population_level : ℕ
  pub realm_builds : List ℕ
  pub realm_build_info : RealmBuildInfo
  pub last_seen_alive : ℕ
  pub prev_population : ℕ
  pub prev_realm_flags : ℕ

abbrev pub Realms : Type 0
Realms = List (Text × Realm)

pub record RealmList : Type 0 where
  pub realms : Realms
  pub update_interval : ℕ
  pub next_update_time : ℕ
  pub stale_timeout : ℤ

abbrev pub new : RealmList
new = record { realms = []; update_interval = 0; next_update_time = 0; stale_timeout = pos 0 }

-- The order of strings, byte by byte.
unfoldable pub bytes_lt : Text → Text → Bool
bytes_lt [] [] = false
bytes_lt [] (y ∷ ys) = true
bytes_lt (x ∷ xs) [] = false
bytes_lt (x ∷ xs) (y ∷ ys) = ltb x y || ((x == y) && bytes_lt xs ys)

-- `BTreeMap::insert`
unfoldable pub insert : Text → Realm → Realms → Realms
insert name realm [] = (name, realm) ∷ []
insert name realm ((k, r) ∷ m) =
    if bytes_eq name k
    then (name, realm) ∷ m
    else if bytes_lt name k
    then (name, realm) ∷ (k, r) ∷ m
    else (k, r) ∷ insert name realm m

-- `BTreeMap::get`
unfoldable pub get : Text → Realms → Option Realm
get name [] = none
get name ((k, r) ∷ m) = if bytes_eq name k then some r else get name m

-- `BTreeSet::insert`
unfoldable pub insert_build : ℕ → List ℕ → List ℕ
insert_build b [] = b ∷ []
insert_build b (c ∷ cs) =
    if b == c then c ∷ cs else if ltb b c then b ∷ c ∷ cs else c ∷ insert_build b cs

-- The builds of a realm: the words of its list that parse as numbers.
unfoldable pub add_build : Text → List ℕ → List ℕ
add_build token builds = elim (parse_u32 token) [
  | some build ↦ insert_build build builds
  | none ↦ builds
]

unfoldable pub parse_builds : List Text → List ℕ → List ℕ
unfolding add_build insert_build
parse_builds [] builds = builds
parse_builds (token ∷ tokens) builds = parse_builds tokens (add_build token builds)

-- Neither is a NaN, and they are the same number; the two zeros are equal.
is_nan : ℕ → Bool
is_nan x = (x / 2 ^ 23 % 256 == 255) && not (x % 2 ^ 23 == 0)

unfoldable pub f32_eq : ℕ → ℕ → Bool
unfolding is_nan
f32_eq x y =
    not (is_nan x) && (not (is_nan y) && ((x == y) || ((x % 2 ^ 31 == 0) && (y % 2 ^ 31 == 0))))

abbrev pub f32_nan : ℕ
f32_nan = 0x7FC00000

-- The decimal digits of a number, as `format!("{}", _)` prints them.
digits_loop : ℕ → ℕ → Text → Text
digits_loop zero n acc = acc
digits_loop (suc fuel) n acc =
    let rest = digits_loop fuel (n / 10) ((b'0' + n % 10) ∷ acc) in
    if ltb n 10 then (b'0' + n) ∷ acc else rest

-- A number below 10 ^ 20 has at most 20 digits.
unfoldable pub show_number : ℕ → Text
unfolding digits_loop
show_number n = digits_loop 20 n []

abbrev pub valid_flags : ℕ
valid_flags = 0x66

-- The flags of the database without invalid ones; `!valid_flags` is 0x99.
unfoldable pub mask_flags : ℕ → ℕ
mask_flags flags = if bit_and flags 0x99 == 0 then flags else bit_and flags valid_flags

unfoldable pub clamp_security : ℕ → ℕ
clamp_security level = if leb level sec_administrator then level else sec_administrator

unknown_build : ℕ → RealmBuildInfo
unknown_build build = record {
  build = build;
  major_version = 0;
  minor_version = 0;
  bugfix_version = 0;
  hotfix_version = b' ';
  windows_hash = zeros;
  mac_hash = zeros;
}

-- The build info for the first supported build, `first_build as u16`.
unfoldable pub first_build_info : List ℕ → RealmBuildInfo
unfolding unknown_build
first_build_info [] = unknown_build 0
first_build_info (first ∷ _) =
    let build = first % 2 ^ 16 in
    if first == 0 then unknown_build 0 else elim (find_build_info build) [
      | none ↦ unknown_build build
      | some info ↦ if info.build == build then info else unknown_build build
    ]

-- When the realm was last seen alive: now if its data changed, at the start, or if it is new.
unfoldable pub heartbeat : (init : Bool) (now : ℕ) → Option Realm → (population raw_flags : ℕ) → ℕ
heartbeat init now none population raw_flags =
    let data_changed = not (f32_eq population f32_nan) || not (raw_flags == 0xFF) in
    if data_changed || init then now else now
heartbeat init now (some old) population raw_flags =
    let data_changed =
      not (f32_eq population old.prev_population) || not (raw_flags == old.prev_realm_flags) in
    if data_changed || init then now else old.last_seen_alive

-- Whether the realm is shown as offline although the database says online.
unfoldable pub is_stale : (stale_timeout : ℤ) (now last_seen_alive raw_flags : ℕ) → Bool
is_stale (negsuc _) now last_seen_alive raw_flags = false
is_stale (pos timeout) now last_seen_alive raw_flags =
    ltb 0 timeout
    && ((bit_and raw_flags realm_flag_offline == 0) && ltb (last_seen_alive + timeout) now)

-- The realm that a row of the query becomes.
unfoldable pub realm_of : (stale_timeout : ℤ) (init : Bool) (now : ℕ) → Realms → Row → Realm
realm_of stale_timeout init now old_realms row =
    let raw_realm_flags = mask_flags (get_u8 row 5) in
    let population = get_f32 row 8 in
    let builds = parse_builds (split_whitespace (get_string row 9)) [] in
    let old = get (get_string row 1) old_realms in
    let alive = heartbeat init now old population raw_realm_flags in
    record {
      id = get_u32 row 0;
      address = get_string row 2 ++ (text ":" ++ show_number (get_u32 row 3));
      icon = get_u8 row 4;
      realm_flags =
          if is_stale stale_timeout now alive raw_realm_flags
          then bit_or raw_realm_flags realm_flag_offline
          else raw_realm_flags;
      timezone = get_u8 row 6;
      allowed_security_level = clamp_security (get_u8 row 7);
      population_level = population;
      realm_builds = builds;
      realm_build_info = first_build_info builds;
      last_seen_alive = alive;
      prev_population = population;
      prev_realm_flags = raw_realm_flags;
    }

-- One round of the loop over the rows: a row with the id 0 is skipped.
unfoldable pub load_row :
    (stale_timeout : ℤ) (init : Bool) (now : ℕ) → Realms → Row → Realms → Realms
load_row stale_timeout init now old_realms row realms =
    if get_u32 row 0 == 0
    then realms
    else insert (get_string row 1) (realm_of stale_timeout init now old_realms row) realms

-- The loop.
unfoldable pub load_rows :
    (stale_timeout : ℤ) (init : Bool) (now : ℕ) → Realms → List Row → Realms → Realms
unfolding load_row
load_rows stale_timeout init now old_realms [] realms = realms
load_rows stale_timeout init now old_realms (row ∷ rows) realms =
    load_rows stale_timeout init now old_realms rows
      (load_row stale_timeout init now old_realms row realms)

-- `answer` is the query's: `none` is an error, which is logged.
unfoldable pub update_realms :
    (now : ℕ) (answer : Option (List Row)) (init : Bool) → Realms → RealmList → RealmList
unfolding load_rows
update_realms now answer init old_realms list = elim answer [
  | none ↦ list
  | some rows ↦ record list {
    realms = load_rows list.stale_timeout init now old_realms rows list.realms;
  }
]

unfoldable pub initialize :
    (now : ℕ) (answer : Option (List Row)) (update_interval : ℕ) (stale_timeout : ℤ)
    → RealmList
    → RealmList
unfolding update_realms
initialize now answer update_interval stale_timeout list =
    update_realms now answer true []
      (record list { update_interval = update_interval; stale_timeout = stale_timeout })

-- `now` is the clock's answer here, `now'` its answer in `update_realms`.
unfoldable pub update_if_needed :
    (now now' : ℕ) (answer : Option (List Row)) → RealmList → RealmList
unfolding update_realms
update_if_needed now now' answer list =
    if list.update_interval == 0
    then list
    else if ltb now list.next_update_time
    then list
    else update_realms now' answer false list.realms
        (record list { realms = []; next_update_time = now + list.update_interval })

unfoldable pub size : RealmList → ℕ
size list = length list.realms
