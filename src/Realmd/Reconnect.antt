-- ===== src/Realmd/Reconnect.antt =====
-- crates/realmd/src/auth_socket.rs: the two steps of a reconnection.
use cmangos_tbc.Base.{
  ℕ, ◌*◌, Bool, true, ◌||◌, Option, none, some, List, [], ◌∷◌, if◌then◌else◌, ltb, ◌==◌, length,
  take, bytes_eq,
}
use cmangos_tbc.Shared.ByteBuffer
use cmangos_tbc.Shared.BigNumber.{set_binary, as_byte_array, get_num_bytes}
use cmangos_tbc.Shared.Crypto.Sha1
use cmangos_tbc.Shared.Srp6.{set_strong_session_key}
use cmangos_tbc.Shared.Database.{Row, escape_string, get_string}
use cmangos_tbc.Realmd.AuthCodes.{
  AuthCmd, cmd_byte, AuthLogonResult, result_byte, version_challenge,
}
use cmangos_tbc.Realmd.Protocol.{
  AuthLogonChallengeHeader, AuthLogonChallengeBody, AuthReconnectProofClient, header_size,
  parse_header, parse_body, username_string, reconnect_proof_size, parse_reconnect_proof,
}
use cmangos_tbc.Realmd.Env.{Env, Query, Reply}
use cmangos_tbc.Realmd.Session.{
  SessionStatus, Session, err, Done, ◌>>=◌, finish, set_status, read_with_timeout, tick,
  write_with_timeout, query_one,
}
use cmangos_tbc.Realmd.Checks.{verify_version}

module _ (env : Env) where
  -- The answer with 128 random bits, once the session key is known.
  unfoldable pub send_reconnect_challenge : Row → Session → Done
  unfolding get_string set_strong_session_key as_byte_array write_with_timeout ByteBuffer.new
      ByteBuffer.write_u8 ByteBuffer.append ByteBuffer.contents
  send_reconnect_challenge row s0 =
      let random = env.random s0.moment (16 * 8) in
      let s = record (tick s0) {
        srp = set_strong_session_key env.num env.hashes (get_string row 0) s0.srp;
        status = SessionStatus.recon_proof;
        reconnect_proof = random;
      } in
      let pkt =
        ByteBuffer.write_u8 0x00
          (ByteBuffer.write_u8 (cmd_byte AuthCmd.reconnect_challenge) ByteBuffer.new) in
      let pkt' = ByteBuffer.append (take 16 (as_byte_array env.num random 16)) pkt in
      write_with_timeout env (ByteBuffer.contents (ByteBuffer.append version_challenge pkt')) s

  unfoldable pub after_session_key : Reply → Session → Done
  unfolding send_reconnect_challenge
  after_session_key Reply.failed s = (err, s)
  after_session_key Reply.no_row s = (err, s)
  after_session_key (Reply.row row) s = send_reconnect_challenge row s

  unfoldable pub find_session_key : Session → Done
  unfolding after_session_key
  find_session_key s = after_session_key (query_one env (Query.session_key s.safe_login) s) (tick s)

  unfoldable pub with_body : Option AuthLogonChallengeBody → Session → Done
  unfolding username_string escape_string find_session_key
  with_body none s = (err, s)
  with_body (some body) s =
      if ltb 10 body.username_len
      then (err, s)
      else find_session_key (record s {
        login = username_string body;
        safe_login = escape_string (username_string body);
        build = body.build;
      })

  unfoldable pub with_header : Option AuthLogonChallengeHeader → Session → Done
  unfolding read_with_timeout parse_body with_body
  with_header none s = (err, s)
  with_header (some header) s0 = do
    (buf, s) ← read_with_timeout header.size (set_status SessionStatus.closed s0)
    with_body (parse_body buf) s

  unfoldable pub handle_reconnect_challenge : Session → Done
  unfolding read_with_timeout parse_header with_header
  handle_reconnect_challenge s0 = do
    (buf, s) ← read_with_timeout header_size s0
    with_header (parse_header buf) s

  -- Whether the login, the challenge or the key is missing.
  unfoldable pub is_missing : Session → Bool
  unfolding get_num_bytes
  is_missing s =
      (length s.login == 0)
      || ((get_num_bytes env.num s.reconnect_proof == 0) || (get_num_bytes env.num s.srp.k == 0))

  -- SHA1(login || R1 || the challenge || K).
  unfoldable pub reconnect_digest : AuthReconnectProofClient → Session → List ℕ
  unfolding set_binary Sha1.new Sha1.initialize Sha1.update_data Sha1.update_big_numbers
      Sha1.finalize
  reconnect_digest p s =
      let t1 = set_binary env.num p.r1 in
      let sha = Sha1.update_data s.login (Sha1.initialize Sha1.new) in
      (Sha1.finalize env.hashes
        (Sha1.update_big_numbers env.num (t1 ∷ s.reconnect_proof ∷ s.srp.k ∷ []) sha)).digest

  unfoldable pub accept_reconnect : Session → Done
  unfolding write_with_timeout ByteBuffer.new ByteBuffer.write_u8 ByteBuffer.write_u16
      ByteBuffer.contents
  accept_reconnect s0 = do
    let pkt = ByteBuffer.write_u8 (cmd_byte AuthCmd.reconnect_proof) ByteBuffer.new
    let pkt' =
        ByteBuffer.write_u16 0x00 (ByteBuffer.write_u8 (result_byte AuthLogonResult.success) pkt)
    (_, s) ← write_with_timeout env (ByteBuffer.contents pkt') s0
    finish (set_status SessionStatus.authed s)

  -- On a status that is `Closed`.
  unfoldable pub check_reconnect : AuthReconnectProofClient → Session → Done
  unfolding is_missing reconnect_digest verify_version write_with_timeout accept_reconnect
  check_reconnect p s =
      if is_missing s
      then finish s
      else if bytes_eq (reconnect_digest p s) p.r2
      then (if verify_version env s.build s.os p.r1 p.r3 true
          then accept_reconnect s
          else write_with_timeout env
              (cmd_byte AuthCmd.reconnect_proof
                ∷ result_byte AuthLogonResult.failed_version_invalid
                ∷ [])
              s)
      else finish s

  unfoldable pub with_proof : Option AuthReconnectProofClient → Session → Done
  unfolding check_reconnect
  with_proof none s = (err, s)
  with_proof (some p) s = check_reconnect p (set_status SessionStatus.closed s)

  unfoldable pub handle_reconnect_proof : Session → Done
  unfolding read_with_timeout parse_reconnect_proof with_proof
  handle_reconnect_proof s0 = do
    (buf, s) ← read_with_timeout reconnect_proof_size s0
    with_proof (parse_reconnect_proof buf) s
