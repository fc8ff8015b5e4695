-- ===== src/Realmd/LogonChallenge.antt =====
-- crates/realmd/src/auth_socket.rs: `handle_logon_challenge` and the account that it may create.
use Prim.Native.Nat.{bit_and}
use cmangos_tbc.Base.{
  ℕ, suc, ◌-◌, ◌*◌, ◌^◌, Bool, true, false, ◌&&◌, not, Option, none, some, if◌then◌else◌, ltb, leb,
  ◌==◌, length, take, bytes_eq,
}
use cmangos_tbc.Base.Text.{Text, text}
use cmangos_tbc.Base.Int.{pos, as_unsigned}
use cmangos_tbc.Shared.ByteBuffer
use cmangos_tbc.Shared.ByteBuffer.{ByteBuffer}
use cmangos_tbc.Shared.BigNumber.{set_hex_str, as_byte_array, as_hex_str}
use cmangos_tbc.Shared.Srp6
use cmangos_tbc.Shared.Srp6.{
  Srp6, set_verifier, set_salt, calculate_host_public_ephemeral, calculate_verifier_random,
}
use cmangos_tbc.Shared.Config.{get_int_default, get_bool_default}
use cmangos_tbc.Shared.Database.{Row, escape_string, get_string, get_u8, get_u32, get_u64}
use cmangos_tbc.Shared.Types.{sec_administrator}
use cmangos_tbc.Realmd.AuthCodes.{
  AuthCmd, cmd_byte, AuthLogonResult, result_byte, version_challenge, auth_logon_max_name,
  security_flag_pin, security_flag_unk, security_flag_authenticator,
}
use cmangos_tbc.Realmd.Protocol.{
  AuthLogonChallengeHeader, AuthLogonChallengeBody, header_size, parse_header, body_min_size,
  parse_body, username_string, os_string, platform_string, locale_string,
}
use cmangos_tbc.Realmd.Env.{Env, Query, Statement, Reply}
use cmangos_tbc.Realmd.Session.{
  SessionStatus, Session, err, panicked, Done, ◌>>=◌, set_status, read_with_timeout, tick,
  write_with_timeout, query_one, execute,
}
use cmangos_tbc.Realmd.Checks.{calculate_sha_pass_hash}

-- `Store client info`
unfoldable pub store_client_info : AuthLogonChallengeBody → Session → Session
unfolding username_string os_string platform_string locale_string escape_string
store_client_info body s = record s {
  login = username_string body;
  build = body.build;
  os = escape_string (os_string body);
  platform = platform_string body;
  locale = locale_string body;
  safe_login = escape_string (username_string body);
  safe_locale = escape_string (locale_string body);
}

-- The first two bytes of every answer.
unfoldable pub challenge_head : ByteBuffer
unfolding ByteBuffer.new ByteBuffer.write_u8
challenge_head =
    ByteBuffer.write_u8 0x00 (ByteBuffer.write_u8 (cmd_byte AuthCmd.logon_challenge) ByteBuffer.new)

-- The flags by the account's token and the build.
unfoldable pub security_flags_of : (token : Text) (build : ℕ) → ℕ
security_flags_of token build =
    let late =
      if not (length token == 0) && leb 8606 build then security_flag_authenticator else 0 in
    if not (length token == 0) && leb build 6141 then security_flag_pin else late

abbrev pub clamp_level : ℕ → ℕ
clamp_level sec_level = if leb sec_level sec_administrator then sec_level else sec_administrator

module _ (env : Env) where
  -- `pkt.write_u8(result)` and the write of the packet, which is the last step of each answer.
  unfoldable pub answer : AuthLogonResult → Session → Done
  unfolding write_with_timeout challenge_head ByteBuffer.write_u8 ByteBuffer.contents
  answer result s =
      write_with_timeout env
        (ByteBuffer.contents (ByteBuffer.write_u8 (result_byte result) challenge_head)) s

  -- B, g, N, the salt and the version challenge behind the head.
  unfoldable pub challenge_packet : Srp6 → (database_s : Text) → ByteBuffer
  unfolding challenge_head as_byte_array set_hex_str ByteBuffer.write_u8 ByteBuffer.append
  challenge_packet srp database_s =
      let head = ByteBuffer.write_u8 (result_byte AuthLogonResult.success) challenge_head in
      let b = ByteBuffer.append (as_byte_array env.num srp.big_b 32) head in
      let g = ByteBuffer.append (as_byte_array env.num srp.g 0) (ByteBuffer.write_u8 1 b) in
      let n = ByteBuffer.append (as_byte_array env.num srp.n 32) (ByteBuffer.write_u8 32 g) in
      let salt_bn = (set_hex_str env.num database_s 0).0 in
      ByteBuffer.append version_challenge (ByteBuffer.append (as_byte_array env.num salt_bn 0) n)

  -- The PIN part: the seed, which is 0, and 16 bytes of a random salt.
  unfoldable pub pin_part : ℕ → ByteBuffer → Session → ByteBuffer × Session
  unfolding as_byte_array ByteBuffer.write_u32 ByteBuffer.append
  pin_part security_flags pkt s =
      let salt = env.random s.moment (16 * 8) in
      if not (bit_and security_flags security_flag_pin == 0)
      then (
        ByteBuffer.append (take 16 (as_byte_array env.num salt 16)) (ByteBuffer.write_u32 0 pkt),
        record (tick s) { grid_seed = 0; server_security_salt = salt; prompt_pin = true },
      )
      else (pkt, s)

  unfoldable pub unk_part : ℕ → ByteBuffer → ByteBuffer
  unfolding ByteBuffer.write_u8 ByteBuffer.write_u64
  unk_part security_flags pkt =
      let four =
        ByteBuffer.write_u8 0
          (ByteBuffer.write_u8 0 (ByteBuffer.write_u8 0 (ByteBuffer.write_u8 0 pkt))) in
      if not (bit_and security_flags security_flag_unk == 0)
      then ByteBuffer.write_u64 0 four
      else pkt

  unfoldable pub authenticator_part : ℕ → ByteBuffer → ByteBuffer
  unfolding ByteBuffer.write_u8
  authenticator_part security_flags pkt =
      if not (bit_and security_flags security_flag_authenticator == 0)
      then ByteBuffer.write_u8 1 pkt
      else pkt

  -- The challenge of an account that exists, its flags and the level it plays at.
  unfoldable pub send_challenge : Row → Srp6 → Session → Done
  unfolding challenge_packet get_string get_u8 security_flags_of pin_part unk_part
      authenticator_part write_with_timeout ByteBuffer.write_u8 ByteBuffer.contents
  send_challenge row srp s0 =
      let token = get_string row 6 in
      let security_flags = security_flags_of token s0.build in
      let pkt = ByteBuffer.write_u8 security_flags (challenge_packet srp (get_string row 5)) in
      let (pkt', s) = pin_part security_flags pkt (record s0 { srp = srp; token = token }) in
      write_with_timeout env
        (ByteBuffer.contents (authenticator_part security_flags (unk_part security_flags pkt')))
        (record s {
          account_security_level = clamp_level (get_u8 row 3);
          status = SessionStatus.logon_proof;
        })

  -- The challenge of an account that was just created: no flags.
  unfoldable pub send_created_challenge : Row → Srp6 → Session → Done
  unfolding challenge_packet get_string get_u8 write_with_timeout ByteBuffer.write_u8
      ByteBuffer.contents
  send_created_challenge row srp s =
      write_with_timeout env
        (ByteBuffer.contents (ByteBuffer.write_u8 0 (challenge_packet srp (get_string row 5))))
        (record s {
          srp = srp;
          account_security_level = clamp_level (get_u8 row 3);
          status = SessionStatus.logon_proof;
        })

  -- `none` is the failed assertion of `calculate_host_public_ephemeral`.
  unfoldable pub proceed : (Srp6 → Session → Done) → Option Srp6 → Session → Done
  proceed next none s = (panicked, s)
  proceed next (some srp) s = next srp s

  unfoldable pub with_ephemeral : (Srp6 → Session → Done) → Session → Done
  unfolding calculate_host_public_ephemeral proceed
  with_ephemeral next s =
      proceed next
        (calculate_host_public_ephemeral env.num env.hashes (env.random s.moment (19 * 8)) s.srp)
        (tick s)

  -- The verifier and the salt of the row; the salt is only set if the verifier is sound.
  unfoldable pub set_verifier_and_salt : Row → Srp6 → Srp6 × Bool
  unfolding get_string set_verifier set_salt
  set_verifier_and_salt row srp =
      let (srp1, sound_v) = set_verifier env.num env.hashes (get_string row 4) srp in
      if sound_v then set_salt env.num env.hashes (get_string row 5) srp1 else (srp1, false)

  -- The answer to a ban row.
  ban_result : Row → AuthLogonResult
  unfolding get_u64
  ban_result row =
      if get_u64 row 0 == get_u64 row 1
      then AuthLogonResult.failed_banned
      else AuthLogonResult.failed_suspended

  -- A query that fails lets the client pass.
  unfoldable pub after_account_ban : Row → Reply → Session → Done
  unfolding ban_result answer with_ephemeral send_challenge
  after_account_ban row Reply.failed s = with_ephemeral (send_challenge row) s
  after_account_ban row Reply.no_row s = with_ephemeral (send_challenge row) s
  after_account_ban row (Reply.row ban_row) s = answer (ban_result ban_row) s

  unfoldable pub check_account_ban : Row → Session → Done
  unfolding get_u32 after_account_ban
  check_account_ban row s =
      after_account_ban row (query_one env (Query.account_ban (get_u32 row 0)) s) (tick s)

  -- Whether the account is locked to another address.
  unfoldable pub is_locked_out : Row → Bool
  unfolding get_u8 get_string
  is_locked_out row = (get_u8 row 1 == 1) && not (bytes_eq (get_string row 2) env.ip)

  unfoldable pub account_found : Row → Session → Done
  unfolding is_locked_out answer set_verifier_and_salt check_account_ban
  account_found row s =
      let (srp, sound) = set_verifier_and_salt row s.srp in
      if is_locked_out row
      then answer AuthLogonResult.failed_suspended s
      else if sound
      then check_account_ban row (record s { srp = srp })
      else answer AuthLogonResult.failed_fail_noaccess (record s { srp = srp })

  -- The password is the user name. The session and whether the account was made.
  unfoldable pub auto_create_account : Session → Session × Bool
  unfolding calculate_sha_pass_hash calculate_verifier_random Srp6.new as_hex_str get_int_default
  auto_create_account s =
      let ri = calculate_sha_pass_hash env s.login s.login in
      let (srp, sound) =
        calculate_verifier_random env.num env.hashes (env.random s.moment 256) ri Srp6.new in
      let expansion =
        as_unsigned (2 ^ 32)
          (get_int_default env.env_var env.config (text "AutoCreateAccounts.Expansion") (pos 1)) in
      let insert =
        Statement.create_account s.safe_login (as_hex_str env.num srp.v) (as_hex_str env.num srp.s)
          expansion in
      if sound
      then (execute env insert (tick s), env.execute (suc s.moment) insert)
      else (tick s, false)

  unfoldable pub account_created : Row → Session → Done
  unfolding set_verifier_and_salt answer with_ephemeral send_created_challenge
  account_created row s =
      let (srp, sound) = set_verifier_and_salt row s.srp in
      if sound
      then with_ephemeral (send_created_challenge row) (record s { srp = srp })
      else answer AuthLogonResult.failed_fail_noaccess (record s { srp = srp })

  unfoldable pub after_requery : Reply → Session → Done
  unfolding account_created answer
  after_requery Reply.failed s = (err, s)
  after_requery Reply.no_row s = answer AuthLogonResult.failed_unknown_account s
  after_requery (Reply.row row) s = account_created row s

  -- The account is queried again.
  unfoldable pub requery : Session → Done
  unfolding after_requery
  requery s = after_requery (query_one env (Query.account s.safe_login) s) (tick s)

  unfoldable pub account_missing : Session → Done
  unfolding get_bool_default auto_create_account requery answer
  account_missing s =
      let (s', made) = auto_create_account s in
      if get_bool_default env.env_var env.config (text "AutoCreateAccounts") false
      then (if made then requery s' else answer AuthLogonResult.failed_unknown_account s')
      else answer AuthLogonResult.failed_unknown_account s

  unfoldable pub after_account : Reply → Session → Done
  unfolding account_found account_missing
  after_account Reply.failed s = (err, s)
  after_account Reply.no_row s = account_missing s
  after_account (Reply.row row) s = account_found row s

  unfoldable pub find_account : Session → Done
  unfolding after_account
  find_account s = after_account (query_one env (Query.account s.safe_login) s) (tick s)

  -- A query that fails lets the client pass.
  unfoldable pub after_ip_ban : Reply → Session → Done
  unfolding answer find_account
  after_ip_ban Reply.failed s = find_account s
  after_ip_ban Reply.no_row s = find_account s
  after_ip_ban (Reply.row _) s = answer AuthLogonResult.failed_fail_noaccess s

  unfoldable pub check_ip_ban : Session → Done
  unfolding escape_string after_ip_ban
  check_ip_ban s = after_ip_ban (query_one env (Query.ip_ban (escape_string env.ip)) s) (tick s)

  unfoldable pub with_body : Option AuthLogonChallengeBody → Session → Done
  unfolding store_client_info check_ip_ban
  with_body none s = (err, s)
  with_body (some body) s =
      if ltb auth_logon_max_name body.username_len
      then (err, s)
      else check_ip_ban (store_client_info body s)

  unfoldable pub read_body : ℕ → Session → Done
  unfolding read_with_timeout parse_body with_body
  read_body size s0 = do
    (buf, s) ← read_with_timeout size (set_status SessionStatus.closed s0)
    with_body (parse_body buf) s

  unfoldable pub with_header : Option AuthLogonChallengeHeader → Session → Done
  unfolding read_body
  with_header none s = (err, s)
  with_header (some header) s =
      if ltb header.size (body_min_size - auth_logon_max_name)
      then (err, s)
      else read_body header.size s

  unfoldable pub handle_logon_challenge : Session → Done
  unfolding read_with_timeout parse_header with_header
  handle_logon_challenge s0 = do
    (buf, s) ← read_with_timeout header_size s0
    with_header (parse_header buf) s
