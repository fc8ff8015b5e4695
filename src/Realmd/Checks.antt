-- ===== src/Realmd/Checks.antt =====
-- crates/realmd/src/auth_socket.rs: the version check, the one-time token, the password hash.
pub mod Token
use cmangos_tbc.Base.{
  ℕ, ◌+◌, ◌-◌, ◌*◌, ◌/◌, ◌%◌, ◌^◌, Bool, true, false, not, Option, none, some, List, [], ◌∷◌,
  if◌then◌else◌, ltb, length, get_or, take, reverse, bytes_eq, min,
}
use cmangos_tbc.Base.Bytes.{to_le}
use cmangos_tbc.Base.Text.{Text, text}
use cmangos_tbc.Base.Int.{ℤ, pos, negsuc}
use cmangos_tbc.Shared.Config.{get_bool_default}
use cmangos_tbc.Shared.Base32.{base32_decode}
use cmangos_tbc.Shared.Crypto.Sha1
use cmangos_tbc.Shared.Crypto.Hmac.{hmac_sha1}
use cmangos_tbc.Realmd.Builds.{RealmBuildInfo, find_build_info, zeros}
use cmangos_tbc.Realmd.Env.{Env}

-- The hash that is stored for the client's system; `none` for a system that is not known.
abbrev pub hash_for_os : Text → RealmBuildInfo → Option (List ℕ)
hash_for_os os info =
    if bytes_eq os (text "Win")
    then some info.windows_hash
    else if bytes_eq os (text "OSX")
    then some info.mac_hash
    else none

module _ (env : Env) where
  -- SHA1(A || hash) against the client's proof.
  hash_matches : List ℕ → List ℕ → List ℕ → Bool
  unfolding Sha1.new Sha1.update_data_bytes Sha1.finalize
  hash_matches a version_hash version_proof =
      let sha = Sha1.update_data_bytes version_hash (Sha1.update_data_bytes a Sha1.new) in
      bytes_eq (Sha1.finalize env.hashes sha).digest
        (take (min 20 (length version_proof)) version_proof)

  unfoldable pub verify_version :
      (build : ℕ) (os : Text) (a version_proof : List ℕ) (is_reconnect : Bool) → Bool
  unfolding hash_matches
  verify_version build os a version_proof is_reconnect =
      if not (get_bool_default env.env_var env.config (text "StrictVersionCheck") false)
      then true
      else if is_reconnect
      then hash_matches a zeros version_proof
      else elim (find_build_info build) [
        | none ↦ false
        | some info ↦ elim (hash_for_os os info) [
          | none ↦ false
          | some hash ↦ if bytes_eq hash zeros then true else hash_matches a hash version_proof
        ]
      ]

  -- The dynamic truncation of RFC 4226, on the MAC.
  unfoldable pub truncate : List ℕ → ℕ
  truncate mac =
      let offset = get_or mac 19 0 % 16 in
      let word =
        get_or mac offset 0 * 2 ^ 24
        + get_or mac (offset + 1) 0 * 2 ^ 16
        + get_or mac (offset + 2) 0 * 2 ^ 8
        + get_or mac (offset + 3) 0 in
      word % 2 ^ 31 % 1000000

  -- The token of a half minute, whose number is hashed in big-endian order; -1 for a key that
  -- does not decode.
  unfoldable pub token_of_step : (timestamp : ℕ) → Text → ℤ
  unfolding hmac_sha1 truncate
  token_of_step timestamp b32key = elim (base32_decode env.base32 b32key) [
    | none ↦ negsuc 0
    | some decoded ↦ pos (truncate (hmac_sha1 env.hashes decoded (reverse (to_le 8 timestamp))))
  ]

  unfoldable pub generate_token : (seconds : ℕ) → Text → ℤ
  unfolding token_of_step
  generate_token seconds b32key = token_of_step (seconds / 30) b32key

  hex_digit : ℕ → ℕ
  hex_digit n = if ltb n 10 then b'0' + n else b'A' + (n - 10)

  hex_bytes : List ℕ → Text
  hex_bytes [] = []
  hex_bytes (b ∷ bs) = hex_digit (b / 16) ∷ hex_digit (b % 16) ∷ hex_bytes bs

  -- SHA1(UPPER(username) + ":" + UPPER(password)), as upper-case hexadecimal digits.
  unfoldable pub calculate_sha_pass_hash : (username password : Text) → Text
  unfolding hex_bytes hex_digit Sha1.new Sha1.update_data Sha1.finalize
  calculate_sha_pass_hash username password =
      let sha =
        Sha1.update_data (text ":") (Sha1.update_data (env.to_uppercase username) Sha1.new) in
      hex_bytes (Sha1.finalize env.hashes (Sha1.update_data (env.to_uppercase password) sha)).digest
