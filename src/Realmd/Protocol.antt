-- ===== src/Realmd/Protocol.antt =====
-- crates/realmd/src/protocol.rs: the packets of the authentication protocol.
-- A fixed-size array is the list of its bytes; a struct is parsed from the bytes behind the command.
pub mod Layout
use cmangos_tbc.Base.{
  ℕ, ◌+◌, ◌-◌, Bool, true, false, Option, none, some, List, [], ◌∷◌, if◌then◌else◌, ltb, ◌==◌,
  length, get_or, take, drop, reverse,
}
use cmangos_tbc.Base.Bytes.{from_le}
use cmangos_tbc.Base.Text.{Text, from_utf8_lossy, from_chars}
use cmangos_tbc.Shared.ByteBuffer
use cmangos_tbc.Shared.ByteBuffer.{ByteBuffer}

-- `data[a..b]`, for a bound that was checked.
abbrev pub slice : ℕ → ℕ → List ℕ → List ℕ
slice a b bytes = take (b - a) (drop a bytes)

pub record AuthLogonChallengeHeader : Type 0 where
  pub error : ℕ
  pub size : ℕ

abbrev pub header_size : ℕ
header_size = 3

unfoldable pub parse_header : List ℕ → Option AuthLogonChallengeHeader
parse_header bytes =
    if ltb (length bytes) header_size
    then none
    else some (record { error = get_or bytes 0 0; size = from_le (slice 1 3 bytes) })

pub record AuthLogonChallengeBody : Type 0 where
  pub gamename : List ℕ
  pub version1 : ℕ
  pub version2 : ℕ
  pub version3 : ℕ
  pub build : ℕ
  pub platform : List ℕ
  pub os : List ℕ
  pub country : List ℕ
  pub timezone_bias : ℕ
  pub ip : ℕ
  pub username_len : ℕ
  pub username : List ℕ

-- `MIN_SIZE`
abbrev pub body_min_size : ℕ
body_min_size = 30

-- The fields, from bytes that are long enough.
abbrev pub body_fields : List ℕ → AuthLogonChallengeBody
body_fields bytes = record {
  gamename = slice 0 4 bytes;
  version1 = get_or bytes 4 0;
  version2 = get_or bytes 5 0;
  version3 = get_or bytes 6 0;
  build = from_le (slice 7 9 bytes);
  platform = slice 9 13 bytes;
  os = slice 13 17 bytes;
  country = slice 17 21 bytes;
  timezone_bias = from_le (slice 21 25 bytes);
  ip = from_le (slice 25 29 bytes);
  username_len = get_or bytes 29 0;
  username = slice 30 (30 + get_or bytes 29 0) bytes;
}

unfoldable pub parse_body : List ℕ → Option AuthLogonChallengeBody
parse_body bytes =
    if ltb (length bytes) body_min_size
    then none
    else if ltb (length bytes) (30 + get_or bytes 29 0)
    then none
    else some (body_fields bytes)

-- `iter().take_while(|&&b| b != 0)`
unfoldable pub take_until_nul : List ℕ → List ℕ
take_until_nul [] = []
take_until_nul (b ∷ bs) = if b == 0 then [] else b ∷ take_until_nul bs

-- The fourth byte is cleared, the text ends at the first null byte, and its order is reversed.
unfoldable pub reversed_tag : List ℕ → Text
unfolding take_until_nul from_chars
reversed_tag bytes = from_chars (reverse (take_until_nul (take 3 bytes)))

unfoldable pub os_string : AuthLogonChallengeBody → Text
unfolding reversed_tag
os_string body = reversed_tag body.os

unfoldable pub platform_string : AuthLogonChallengeBody → Text
unfolding reversed_tag
platform_string body = reversed_tag body.platform

unfoldable pub locale_string : AuthLogonChallengeBody → Text
unfolding from_chars
locale_string body = from_chars (reverse body.country)

unfoldable pub username_string : AuthLogonChallengeBody → Text
username_string body = from_utf8_lossy body.username

pub record AuthLogonProofClient : Type 0 where
  pub a : List ℕ
  pub m1 : List ℕ
  pub crc_hash : List ℕ
  pub number_of_keys : ℕ
  pub security_flags : ℕ

abbrev pub size_without_pin : ℕ
size_without_pin = 74

abbrev pub size_with_pin : ℕ
size_with_pin = 110

abbrev pub proof_size : Bool → ℕ
proof_size with_pin = if with_pin then size_with_pin else size_without_pin

unfoldable pub parse_proof : List ℕ → Bool → Option AuthLogonProofClient
parse_proof bytes with_pin =
    if ltb (length bytes) (proof_size with_pin)
    then none
    else some (record {
      a = slice 0 32 bytes;
      m1 = slice 32 52 bytes;
      crc_hash = slice 52 72 bytes;
      number_of_keys = get_or bytes 72 0;
      security_flags = get_or bytes 73 0;
    })

pub record AuthLogonProofServer : Type 0 where
  pub cmd : ℕ
  pub error : ℕ
  pub m2 : List ℕ
  pub account_flags : ℕ
  pub survey_id : ℕ
  pub unk_flags : ℕ

unfoldable pub proof_server_bytes : AuthLogonProofServer → List ℕ
unfolding ByteBuffer.with_capacity ByteBuffer.write_u8 ByteBuffer.append ByteBuffer.write_u32
    ByteBuffer.write_u16 ByteBuffer.contents
proof_server_bytes p =
    let buf =
      ByteBuffer.write_u8 p.error (ByteBuffer.write_u8 p.cmd (ByteBuffer.with_capacity 32)) in
    let buf' = ByteBuffer.write_u32 p.account_flags (ByteBuffer.append p.m2 buf) in
    ByteBuffer.contents (ByteBuffer.write_u16 p.unk_flags (ByteBuffer.write_u32 p.survey_id buf'))

pub record AuthLogonProofServerLegacy : Type 0 where
  pub cmd : ℕ
  pub error : ℕ
  pub m2 : List ℕ
  pub login_flags : ℕ

unfoldable pub proof_server_legacy_bytes : AuthLogonProofServerLegacy → List ℕ
unfolding ByteBuffer.with_capacity ByteBuffer.write_u8 ByteBuffer.append ByteBuffer.write_u32
    ByteBuffer.contents
proof_server_legacy_bytes p =
    let buf =
      ByteBuffer.write_u8 p.error (ByteBuffer.write_u8 p.cmd (ByteBuffer.with_capacity 26)) in
    ByteBuffer.contents (ByteBuffer.write_u32 p.login_flags (ByteBuffer.append p.m2 buf))

pub record AuthReconnectProofClient : Type 0 where
  pub r1 : List ℕ
  pub r2 : List ℕ
  pub r3 : List ℕ
  pub number_of_keys : ℕ

abbrev pub reconnect_proof_size : ℕ
reconnect_proof_size = 57

unfoldable pub parse_reconnect_proof : List ℕ → Option AuthReconnectProofClient
parse_reconnect_proof bytes =
    if ltb (length bytes) reconnect_proof_size
    then none
    else some (record {
      r1 = slice 0 16 bytes;
      r2 = slice 16 36 bytes;
      r3 = slice 36 56 bytes;
      number_of_keys = get_or bytes 56 0;
    })
