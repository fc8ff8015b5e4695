-- ===== src/Realmd/LogonProof.antt =====
-- crates/realmd/src/auth_socket.rs: `handle_logon_proof`, the client's answer to the challenge.
use Prim.Native.Nat.{bit_and}
use cmangos_tbc.Base.{
  ℕ, ◌^◌, Bool, false, not, ◌&&◌, ◌||◌, Option, none, some, List, [], ◌∷◌, if◌then◌else◌, ltb, ◌==◌,
  length, get_or,
}
use cmangos_tbc.Base.Text.{Text, text, from_utf8_lossy}
use cmangos_tbc.Base.Int.{ℤ, pos, negsuc, as_unsigned, int_eq, parse_i32}
use cmangos_tbc.Shared.BigNumber.{as_hex_str}
use cmangos_tbc.Shared.Crypto.Sha1
use cmangos_tbc.Shared.Crypto.Sha1.{Sha1Hash}
use cmangos_tbc.Shared.Srp6
use cmangos_tbc.Shared.Srp6.{Srp6, calculate_session_key, hash_session_key, calculate_proof, proof}
use cmangos_tbc.Shared.Config.{get_int_default, get_bool_default}
use cmangos_tbc.Shared.Database.{Row, escape_string, get_u32, unwrap_or}
use cmangos_tbc.Realmd.AuthCodes.{
  AuthCmd, cmd_byte, AuthLogonResult, result_byte, account_flag_pro_pass,
  security_flag_authenticator,
}
use cmangos_tbc.Realmd.Protocol.{
  AuthLogonProofClient, proof_size, parse_proof, proof_server_bytes, proof_server_legacy_bytes,
}
use cmangos_tbc.Realmd.Builds.{find_build_info}
use cmangos_tbc.Realmd.Env.{Env, Query, Statement, Reply}
use cmangos_tbc.Realmd.Session.{
  SessionStatus, Session, ok, err, panicked, Step, Done, ◌>>=◌, finish, set_status,
  read_with_timeout, tick, write_with_timeout, query_one, execute,
}
use cmangos_tbc.Realmd.Checks.{verify_version, generate_token}

module _ (env : Env) where
  unfoldable pub send_logon_proof_error : Session → Done
  unfolding write_with_timeout
  send_logon_proof_error s =
      let code = result_byte AuthLogonResult.failed_unknown_account in
      write_with_timeout env
        (if ltb 6005 s.build
          then cmd_byte AuthCmd.logon_proof ∷ code ∷ 0 ∷ 0 ∷ []
          else cmd_byte AuthCmd.logon_proof ∷ code ∷ [])
        s

  -- The ban itself, once the limit is reached.
  unfoldable pub ban_statement : Row → Statement
  ban_statement row =
      let ban_time =
        as_unsigned (2 ^ 32)
          (get_int_default env.env_var env.config (text "WrongPass.BanTime") (pos 600)) in
      if get_bool_default env.env_var env.config (text "WrongPass.BanType") false
      then Statement.ban_account (get_u32 row 0) ban_time
      else Statement.ban_ip (escape_string env.ip) ban_time

  unfoldable pub max_wrong : ℕ
  max_wrong =
      as_unsigned (2 ^ 32)
        (get_int_default env.env_var env.config (text "WrongPass.MaxCount") (pos 0))

  abbrev pub autoban : Row → Session → Session
  autoban row s = if ltb (get_u32 row 1) max_wrong then s else execute env (ban_statement row) s

  unfoldable pub handle_failed_login : Session → Session
  handle_failed_login s =
      if max_wrong == 0
      then s
      else let s1 = execute env (Statement.count_failed_login s.safe_login) s in
        elim (query_one env (Query.failed_logins s.safe_login) s1) [
          | Reply.failed ↦ tick s1
          | Reply.no_row ↦ tick s1
          | Reply.row row ↦ autoban row (tick s1)
        ]

  is_legacy_proof : ℕ → Bool
  is_legacy_proof build = (build == 5875) || ((build == 6005) || (build == 6141))

  unfoldable pub send_proof : Sha1Hash → Session → Done
  unfolding write_with_timeout proof_server_bytes proof_server_legacy_bytes is_legacy_proof
  send_proof sha s =
      write_with_timeout env
        (if is_legacy_proof s.build
          then proof_server_legacy_bytes (record {
            cmd = cmd_byte AuthCmd.logon_proof;
            error = 0;
            m2 = sha.digest;
            login_flags = 0x00;
          })
          else proof_server_bytes (record {
            cmd = cmd_byte AuthCmd.logon_proof;
            error = 0;
            m2 = sha.digest;
            account_flags = account_flag_pro_pass;
            survey_id = 0;
            unk_flags = 0;
          }))
        s

  -- The row of `account_logons`, if the account's id is found.
  unfoldable pub log_login : Session → Session
  log_login s = elim (query_one env (Query.account_id s.safe_login) s) [
    | Reply.failed ↦ tick s
    | Reply.no_row ↦ tick s
    | Reply.row row ↦
        execute env (Statement.record_login (get_u32 row 0) (escape_string env.ip)) (tick s)
  ]

  -- The statement that keeps the session key.
  abbrev pub store : Session → Statement
  store s =
      Statement.store_session (as_hex_str env.num s.srp.k) s.safe_locale s.os s.platform
        s.safe_login

  unfoldable pub finalize_login : Session → Done
  unfolding send_proof log_login Srp6.finalize Sha1.new
  finalize_login s0 = do
    let s1 = log_login (execute env (store s0) s0)
    (_, s) ← send_proof (Srp6.finalize env.num env.hashes s1.srp Sha1.new) s1
    finish (set_status SessionStatus.authed s)

  unfoldable pub verify_and_finalize : AuthLogonProofClient → Session → Done
  unfolding verify_version write_with_timeout finalize_login
  verify_and_finalize p s =
      if verify_version env s.build s.os p.a p.crc_hash false
      then finalize_login s
      else write_with_timeout env
          (cmd_byte AuthCmd.logon_proof ∷ result_byte AuthLogonResult.failed_version_invalid ∷ []) s

  -- The token that the client typed; -1 if it is no number.
  unfoldable pub client_token : List ℕ → ℤ
  client_token keys = unwrap_or (parse_i32 (from_utf8_lossy keys)) (negsuc 0)

  unfoldable pub compare_tokens : AuthLogonProofClient → List ℕ → Session → Done
  unfolding generate_token client_token send_logon_proof_error verify_and_finalize
  compare_tokens p keys s =
      if int_eq (generate_token env (env.now s.moment) s.token) (client_token keys)
      then verify_and_finalize p (tick s)
      else send_logon_proof_error (tick s)

  -- A failed read is answered like a wrong token.
  unfoldable pub with_keys : AuthLogonProofClient → Step (List ℕ) → Done
  unfolding compare_tokens send_logon_proof_error
  with_keys p (ok keys, s) = compare_tokens p keys s
  with_keys p (err, s) = send_logon_proof_error s
  with_keys p (panicked, s) = (panicked, s)

  unfoldable pub with_pin_count : AuthLogonProofClient → Step (List ℕ) → Done
  unfolding read_with_timeout with_keys send_logon_proof_error
  with_pin_count p (ok buf, s) =
      if ltb 16 (get_or buf 0 0)
      then send_logon_proof_error s
      else with_keys p (read_with_timeout (get_or buf 0 0) s)
  with_pin_count p (err, s) = send_logon_proof_error s
  with_pin_count p (panicked, s) = (panicked, s)

  -- Whether a token is read: builds after 6141, if the client or the account has one.
  unfoldable pub needs_token : AuthLogonProofClient → Session → Bool
  needs_token p s =
      ltb 6141 s.build
      && (not (bit_and p.security_flags security_flag_authenticator == 0)
          || not (length s.token == 0))

  -- After the password was proved.
  unfoldable pub password_correct : AuthLogonProofClient → Session → Done
  unfolding needs_token read_with_timeout with_pin_count verify_and_finalize
  password_correct p s =
      if needs_token p s then with_pin_count p (read_with_timeout 1 s) else verify_and_finalize p s

  -- K and M from S.
  abbrev pub prepared : Text → Srp6 → Srp6
  prepared login srp =
      calculate_proof env.num env.hashes login (hash_session_key env.num env.hashes srp)

  unfoldable pub wrong_password : Session → Done
  unfolding send_logon_proof_error handle_failed_login
  wrong_password s0 = do (_, s) ← send_logon_proof_error s0; finish (handle_failed_login s)

  -- The comparison of the client's M with ours.
  unfoldable pub check_m1 : AuthLogonProofClient → Session → Done
  unfolding proof password_correct wrong_password
  check_m1 p s =
      if proof env.num env.hashes p.m1 s.srp then password_correct p s else wrong_password s

  -- The password check, on a status that is `Closed`.
  unfoldable pub check_password : AuthLogonProofClient → Session → Done
  unfolding calculate_session_key hash_session_key calculate_proof check_m1
  check_password p s =
      let (srp, valid) = calculate_session_key env.num env.hashes p.a s.srp in
      if valid
      then check_m1 p (record s { srp = prepared s.login srp })
      else finish (record s { srp = srp })

  unfoldable pub check_build : AuthLogonProofClient → Session → Done
  unfolding find_build_info write_with_timeout check_password
  check_build p s = elim (find_build_info s.build) [
    | none ↦
        write_with_timeout env
          (cmd_byte AuthCmd.logon_challenge
            ∷ 0x00
            ∷ result_byte AuthLogonResult.failed_version_invalid
            ∷ [])
          s
    | some _ ↦ check_password p s
  ]

  -- The status is `Closed` unless a later step changes it.
  unfoldable pub with_proof : Option AuthLogonProofClient → Session → Done
  unfolding check_build
  with_proof none s = (err, s)
  with_proof (some p) s = check_build p (set_status SessionStatus.closed s)

  unfoldable pub handle_logon_proof : Session → Done
  unfolding read_with_timeout parse_proof with_proof
  handle_logon_proof s0 = do
    (buf, s) ← read_with_timeout (proof_size s0.prompt_pin) s0
    with_proof (parse_proof buf s0.prompt_pin) s
