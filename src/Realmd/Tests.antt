-- ===== src/Realmd/Tests.antt =====
-- Concrete inputs at which the theorems about crates/realmd apply.
pub mod Realms
use cmangos_tbc.Base.{
  ℕ, suc, zero, ◌+◌, ◌*◌, ◌^◌, ◌%◌, ◌/◌, ◌<◌, ◌≤◌, ◌≡◌, ◌≢◌, ◌↔◌, ◌⊎◌, inl, inr, refl, Bool, true,
  false, ◌==◌, ◌&&◌, Option, none, some, List, [], ◌∷◌, ◌++◌, if◌then◌else◌, length, replicate,
  take, drop, get_or, leb, All, arith, bit_and, bytes_eq,
}
use cmangos_tbc.Base.Bytes.{to_le, from_le}
use cmangos_tbc.Base.Text.{Text, text, from_utf8_lossy}
use cmangos_tbc.Base.Int.{ℤ, pos, negsuc, as_unsigned}
use cmangos_tbc.Base.Space.{trim}
use cmangos_tbc.Shared.ByteBuffer
use cmangos_tbc.Shared.BigNumber.{as_byte_array, set_binary}
use cmangos_tbc.Realmd.Builds.{find_build}
use cmangos_tbc.Shared.Srp6.{Srp6, calculate_session_key}
use cmangos_tbc.Shared.Database.{Row, get_string, get_u32}
use cmangos_tbc.Shared.Samples.{sample_num, sample_hashes}
use cmangos_tbc.Shared.Config
use cmangos_tbc.Realmd.Env.{Env, Query, Reply}
use cmangos_tbc.Realmd.Session.{SessionStatus, Session}
use cmangos_tbc.Realmd.LogonProof.{handle_logon_proof, prepared}
use cmangos_tbc.Realmd.Reconnect.{handle_reconnect_proof}
use cmangos_tbc.Realmd.Client.{start, round, handle_client}
use cmangos_tbc.Realmd.Client.Termination.{handle_client_ends}
use cmangos_tbc.Realmd.Client.Authed.{LogonProved, handle_logon_proof_authed}
use cmangos_tbc.Realmd.Client.Reconnected.{ReconnectProved, handle_reconnect_proof_authed}
use cmangos_tbc.Realmd.Client.Reach.{Reachable, begin, next, behind_byte, authed_origin}
use cmangos_tbc.Realmd.RealmList

abbrev pub sample_row : Row
sample_row = record {
  try_string = λ i. some (text "1");
  try_str = λ i. none;
  try_bytes = λ i. none;
  try_i32 = λ i. some (pos (2 * i));
  try_i64 = λ i. some (pos 4);
  try_f32 = λ i. some 0;
  try_f64_as_f32 = λ i. none;
  try_bool = λ i. none;
}

-- A database that answers each query, and an empty configuration.
abbrev pub env : Env
env = record {
  num = sample_num;
  hashes = sample_hashes;
  base32 = λ bs. some bs;
  to_uppercase = λ s. s;
  config = record { values = []; filename = []; env_prefix = [] };
  env_var = λ s. none;
  ip = text "127.0.0.1";
  query_one = λ m q. Reply.row sample_row;
  query_realms = λ m. none;
  execute = λ m st. true;
  write_ok = λ m. true;
  random = λ m n. 5;
  now = λ m. 100 + m;
}

-- A reconnection of the account `A`: the challenge, then the proof.
abbrev reconnect_body : List ℕ
reconnect_body = replicate 29 0 ++ (1 ∷ text "A")

abbrev digest : List ℕ
digest = 69 ∷ 0 ∷ 5 ∷ 1 ∷ replicate 16 0

abbrev proof_part : List ℕ
proof_part = 0x03 ∷ (replicate 16 0 ++ (digest ++ replicate 21 0))

abbrev input : List ℕ
input = 0x02 ∷ 0 ∷ 31 ∷ 0 ∷ (reconnect_body ++ proof_part)

abbrev s0 : Session
s0 = start input RealmList.new

abbrev s1 : Session
s1 = (round env s0).0

abbrev s2 : Session
s2 = (round env s1).0

round_0 : round env s0 ≡ (s1, true)
unfolding start round sample_num trim from_utf8_lossy from_le
round_0 = refl

round_1 : round env s1 ≡ (s2, true)
unfolding start round sample_num sample_hashes trim from_utf8_lossy bytes_eq
    Config.get_env_or_config Config.get
round_1 = refl

s2_authed : s2.status ≡ SessionStatus.authed
unfolding start round sample_num sample_hashes trim from_utf8_lossy bytes_eq
    Config.get_env_or_config Config.get
s2_authed = refl

reached : Reachable env s0 s2
reached = next s1 s2 (next s0 s1 begin round_0) round_1

authed_origin_example :
    (t : Session) × Reachable env s0 t
    × (((t.status ≡ SessionStatus.logon_proof) × LogonProved env (behind_byte env t))
        ⊎ ((t.status ≡ SessionStatus.recon_proof) × ReconnectProved env (behind_byte env t)))
authed_origin_example = authed_origin env input RealmList.new s2 reached s2_authed

handle_client_ends_example :
    (t : Session) × (Reachable env s0 t
      × (round env t ≡ (handle_client env input RealmList.new, false)))
handle_client_ends_example = handle_client_ends env input RealmList.new

abbrev asked : Session
asked = record s1 { input = drop 1 s1.input }

asked_status : asked.status ≡ SessionStatus.recon_proof
unfolding start round sample_num trim from_utf8_lossy from_le
asked_status = refl

asked_authed : (handle_reconnect_proof env asked).1.status ≡ SessionStatus.authed
unfolding handle_reconnect_proof start round sample_num sample_hashes trim from_utf8_lossy bytes_eq
    Config.get_env_or_config Config.get
asked_authed = refl

handle_reconnect_proof_authed_example : ReconnectProved env asked
handle_reconnect_proof_authed_example =
    handle_reconnect_proof_authed env asked asked_status asked_authed

-- A small group: modulus 23, generator 7, the verifier of x = 5, the server's secret 6.
abbrev srp : Srp6
srp = record {
  n = 23;
  g = 7;
  s = 9;
  v = 7 ^ 5 % 23;
  b = 6;
  big_b = (7 ^ 5 % 23 * 3 + 7 ^ 6 % 23) % 23;
  big_a = 0;
  u = 0;
  big_s = 0;
  k = 0;
  m = 0;
}

abbrev client_a : List ℕ
client_a = 21 ∷ replicate 31 0

abbrev client_m : List ℕ
client_m =
    as_byte_array sample_num
      (prepared env (text "A") (calculate_session_key sample_num sample_hashes client_a srp).0).m 20

-- The proof of the password, without a token.
abbrev challenged : Session
challenged = record s0 {
  status = SessionStatus.logon_proof;
  srp = srp;
  login = text "A";
  build = 8606;
  input = client_a ++ (client_m ++ replicate 22 0);
}

challenged_authed : (handle_logon_proof env challenged).1.status ≡ SessionStatus.authed
unfolding handle_logon_proof start sample_num sample_hashes as_byte_array set_binary find_build
    bytes_eq Config.get_bool_default Config.get_env_or_config Config.get
challenged_authed = refl

handle_logon_proof_authed_example : LogonProved env challenged
handle_logon_proof_authed_example = handle_logon_proof_authed env challenged refl challenged_authed
