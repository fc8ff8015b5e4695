-- ===== src/Realmd/Tests/Realms.antt =====
-- Concrete inputs for the realm list, the packets and the tables.
use cmangos_tbc.Base.{
  ◌≢◌, ℕ, ◌+◌, ◌/◌, ◌^◌, ◌%◌, ◌<◌, ◌≤◌, ◌≡◌, ◌↔◌, ◌⊎◌, inr, refl, true, false, none, some, List, [],
  ◌∷◌, ◌++◌, if◌then◌else◌, length, replicate, get_or, All, arith, bytes_eq,
}
use cmangos_tbc.Base.Bytes.{to_le}
use cmangos_tbc.Base.Text.{Text, text}
use cmangos_tbc.Base.Int.{pos, negsuc}
use cmangos_tbc.Shared.Database.{get_string}
use cmangos_tbc.Shared.Base32.{base32_decode}
use cmangos_tbc.Shared.Samples.{sample_hashes-IsHashes}
use cmangos_tbc.Realmd.Checks.{generate_token}
use cmangos_tbc.Realmd.Checks.Token.{from_be, token_value, generate_token_value}
use cmangos_tbc.Realmd.Protocol.{AuthLogonChallengeBody, parse_body, AuthLogonProofServer}
use cmangos_tbc.Realmd.Protocol.Layout.{
  encode_body, IsBody, parse_body-encode_body, parse_body_total,
}
use cmangos_tbc.Realmd.Builds.{newest_build}
use cmangos_tbc.Realmd.RealmList
use cmangos_tbc.Realmd.RealmList.{
  Realm, Realms, RealmList, get, insert, realm_of, load_rows, f32_eq, initialize, update_if_needed,
}
use cmangos_tbc.Realmd.RealmList.Order.{IsSorted}
use cmangos_tbc.Realmd.RealmList.Load.{IsRealm, load_rows-IsValid}
use cmangos_tbc.Realmd.RealmList.Refresh.{
  IsValid, Poll, poll, run_polls, run_polls-IsValid, update_if_needed_throttled,
}
use cmangos_tbc.Realmd.RealmPacket.{eligible_count, is_legacy, load_realm_list}
use cmangos_tbc.Realmd.RealmPacket.Count.{
  listed, join, entries, eligible_count_exact, load_realm_list_layout,
}
use cmangos_tbc.Realmd.ConnectionTracker.{ConnectionTracker, count_of, try_add, remove}
use cmangos_tbc.Realmd.ConnectionTracker.Active.{
  occurrences, close, Represents, HasRoom, try_add_exact, remove_exact,
}
use cmangos_tbc.Realmd.Tests.{env, sample_row}

abbrev realm : Realm
realm = record {
  id = 1;
  address = text "127.0.0.1:8085";
  icon = 0;
  realm_flags = 0;
  timezone = 1;
  allowed_security_level = 2;
  population_level = 0;
  realm_builds = 8606 ∷ [];
  realm_build_info = newest_build;
  last_seen_alive = 50;
  prev_population = 0;
  prev_realm_flags = 0;
}

abbrev realms : Realms
realms = (text "Alpha", record realm { allowed_security_level = 0 }) ∷ (text "Beta", realm) ∷ []

abbrev game_master : ℕ
game_master = 1

-- A game master of level 1: one realm is counted, two are listed.
eligible_count_exact_example :
    (eligible_count 1 realms ≤ length (listed 1 realms))
    × ((eligible_count 1 realms ≡ length (listed 1 realms))
        ↔ ((game_master ≡ 0) ⊎ All (λ e. e.1.allowed_security_level ≤ 1) realms))
eligible_count_exact_example = eligible_count_exact 1 realms

load_realm_list_layout_example :
    let count = eligible_count 1 realms in
    let counts = if is_legacy 8606 then (count % 2 ^ 8) ∷ [] else to_le 2 (count % 2 ^ 16) in
    let footer = to_le 2 (if is_legacy 8606 then 0x0002 else 0x0010) in
    ((load_realm_list env 7 1 8606 1 0 realms).0.bytes
      ≡ 0 ∷ 0 ∷ 0 ∷ 0 ∷ (counts ++ (join (entries env 7 1 8606 1 0 (listed 1 realms)) ++ footer)))
    × (length (entries env 7 1 8606 1 0 (listed 1 realms)) ≡ length (listed 1 realms))
load_realm_list_layout_example = load_realm_list_layout env 7 1 8606 1 0 realms

-- The database answers, fails, and answers again.
abbrev polls : List Poll
polls = poll 30 31 none ∷ poll 70 71 (some (sample_row ∷ [])) ∷ []

run_polls-IsValid_example :
    IsValid (run_polls polls (initialize 0 (some (sample_row ∷ [])) 20 (pos 60) RealmList.new))
run_polls-IsValid_example = run_polls-IsValid 0 (some (sample_row ∷ [])) 20 (pos 60) polls

load_rows-IsValid_example :
    IsSorted (load_rows (pos 60) false 200 realms (sample_row ∷ []) [])
    × All (λ e. IsRealm e.1) (load_rows (pos 60) false 200 realms (sample_row ∷ []) [])
load_rows-IsValid_example = load_rows-IsValid (pos 60) false 200 realms (sample_row ∷ []) [] tt tt

abbrev known : Realms
known = (text "1", realm) ∷ []

known_found : get (get_string sample_row 1) known ≡ some realm
unfolding get get_string bytes_eq
known_found = refl

abbrev list : RealmList
list = record {
  realms = realms;
  update_interval = 20;
  next_update_time = 100;
  stale_timeout = pos 60;
}

update_if_needed_throttled_example :
    (run_polls (poll 119 120 none ∷ poll 105 106 none ∷ []) (update_if_needed 100 101 none list)
      ≡ update_if_needed 100 101 none list)
    × ((list.update_interval ≢ 0) ⊎ (update_if_needed 100 101 none list ≡ list))
update_if_needed_throttled_example =
    update_if_needed_throttled 100 101 none (poll 119 120 none ∷ poll 105 106 none ∷ []) list
      (omega arith) (inr (omega arith, (omega arith, tt)))

abbrev body : AuthLogonChallengeBody
body = record {
  gamename = text "WoW" ++ (0 ∷ []);
  version1 = 2;
  version2 = 4;
  version3 = 3;
  build = 8606;
  platform = text "68x" ++ (0 ∷ []);
  os = text "niW" ++ (0 ∷ []);
  country = text "SUne";
  timezone_bias = 60;
  ip = 16777343;
  username_len = 3;
  username = text "JOE";
}

body-IsBody : IsBody body
body-IsBody = record {
  gamename_size = refl;
  platform_size = refl;
  os_size = refl;
  country_size = refl;
  build_range = omega arith;
  timezone_range = omega arith;
  ip_range = omega arith;
  username_size = refl;
}

parse_body-encode_body_example : parse_body (encode_body body ++ (1 ∷ 2 ∷ [])) ≡ some body
parse_body-encode_body_example = parse_body-encode_body body (1 ∷ 2 ∷ []) body-IsBody

-- A packet whose last byte of the name is missing.
abbrev cut : List ℕ
cut = replicate 29 0 ++ (2 ∷ 65 ∷ [])

parse_body_total_example :
    ((30 ≤ length cut) × (30 + get_or cut 29 0 ≤ length cut)
      → (b : AuthLogonChallengeBody) × (parse_body cut ≡ some b)
        × (length b.username ≡ get_or cut 29 0))
    × (¬ ((30 ≤ length cut) × (30 + get_or cut 29 0 ≤ length cut)) → parse_body cut ≡ none)
parse_body_total_example = parse_body_total cut

abbrev answer : AuthLogonProofServer
answer = record {
  cmd = 1;
  error = 0;
  m2 = replicate 20 7;
  account_flags = 0x00800000;
  survey_id = 0;
  unk_flags = 0;
}

-- One connection from the address `a`, at most two for each address.
abbrev tracker : ConnectionTracker
tracker = record { per_ip = (text "a", 1) ∷ []; total = 1; max_per_ip = 2; max_total = 5 }

abbrev active : List Text
active = text "a" ∷ []

tracker-Represents : Represents tracker active
unfolding count_of occurrences bytes_eq
tracker-Represents = record { total_counts = refl; per_ip_counts = λ h ip. refl }

try_add_exact_example :
    let (t', added) = try_add (text "a") tracker in
    ((added ≡ true) ↔ HasRoom tracker (text "a") active)
    × Represents t' (if added then text "a" ∷ active else active)
try_add_exact_example = try_add_exact tracker (text "a") active tracker-Represents (omega arith)

one_from_a : 0 < occurrences (text "a") active
unfolding occurrences bytes_eq
one_from_a = omega arith

remove_exact_example : Represents (remove (text "a") tracker) (close (text "a") active)
remove_exact_example = remove_exact tracker (text "a") active tracker-Represents one_from_a

generate_token_value_example :
    ((base32_decode env.base32 (text "ABC") ≡ none)
      × (generate_token env 61 (text "ABC") ≡ negsuc 0))
    ⊎ ((decoded message : List ℕ) × ((base32_decode env.base32 (text "ABC") ≡ some decoded)
          × ((length message ≡ 8)
              × ((from_be message ≡ 61 / 30)
                  × (generate_token env 61 (text "ABC")
                      ≡ pos (token_value (env.hashes.hmac decoded message)))))))
generate_token_value_example =
    generate_token_value env 61 (text "ABC") sample_hashes-IsHashes (omega arith)
