-- ===== src/Realmd/Client/Challenge.antt =====
-- The states after the two challenge handlers.
use cmangos_tbc.Base.{
  not, bit_and, ◌==◌, ℕ, ◌≡◌, ◌≢◌, inl, inr, Bool, true, false, Option, none, some, List, [], drop,
  length, ltb, arith, Bool-cases, if◌then◌else◌, ◌-◌,
}
use cmangos_tbc.Base.Text.{text}
use cmangos_tbc.Shared.Config.{get_bool_default}
use cmangos_tbc.Shared.ByteBuffer.{ByteBuffer, write_u8}
use cmangos_tbc.Shared.Srp6
use cmangos_tbc.Shared.Srp6.{Srp6, calculate_verifier_random}
use cmangos_tbc.Realmd.Checks.{calculate_sha_pass_hash}
use cmangos_tbc.Shared.Database.{Row, escape_string, get_string, get_u8}
use cmangos_tbc.Realmd.AuthCodes.{AuthLogonResult, auth_logon_max_name, security_flag_pin}
use cmangos_tbc.Realmd.Protocol.{
  AuthLogonChallengeBody, AuthLogonChallengeHeader, header_size, parse_header, parse_body,
  body_min_size,
}
use cmangos_tbc.Realmd.Env.{Env, Query, Reply}
use cmangos_tbc.Realmd.Session.{
  SessionStatus, Session, err, Done, ◌>>=◌, set_status, read_with_timeout, tick, write_with_timeout,
  query_one,
}
use cmangos_tbc.Realmd.Client.Authed.{bind-keeps}
use cmangos_tbc.Realmd.Reconnect
use cmangos_tbc.Realmd.LogonChallenge.{
  answer, send_challenge, send_created_challenge, proceed, with_ephemeral, after_account_ban,
  check_account_ban, account_found, auto_create_account, account_created, after_requery, requery,
  account_missing, after_account, find_account, after_ip_ban, check_ip_ban, with_body, read_body,
  with_header, handle_logon_challenge, is_locked_out, pin_part, security_flags_of, challenge_packet,
  clamp_level, set_verifier_and_salt, store_client_info,
}

-- A read does not change the status.
pub read-status : (n : ℕ) (s : Session) → (read_with_timeout n s).1.status ≡ s.status
unfolding read_with_timeout
read-status n s = ground arith

-- A property of the status and of the bytes that still arrive, which a read keeps.
module _ (env : Env) (Q : SessionStatus → List ℕ → Type 0)
    (shorter : (st : SessionStatus) (n : ℕ) (input : List ℕ) → Q st input → Q st (drop n input))
    (emptied : (st : SessionStatus) (input : List ℕ) → Q st input → Q st []) where
  abbrev Holds : Session → Type 0
  Holds s = Q s.status s.input

  -- A step that keeps the property.
  abbrev Keeps : (Session → Done) → Type 0
  Keeps f = (s : Session) → Holds s → Holds (f s).1

  if-Keeps :
      (b : Bool) (f g : Session → Done) → Keeps f → Keeps g → Keeps (λ s. if b then f s else g s)
  if-Keeps true f g hf hg = hf
  if-Keeps false f g hf hg = hg

  pub write-Keeps : (bytes : List ℕ) → Keeps (write_with_timeout env bytes)
  unfolding write_with_timeout
  write-Keeps bytes s h = elim (Bool-cases (env.write_ok s.moment)) [
    | inl sent ↦ rw sent h
    | inr failed ↦ rw failed h
  ]

  pub read-Holds : (n : ℕ) (s : Session) → Holds s → Holds (read_with_timeout n s).1
  unfolding read_with_timeout
  read-Holds n s h = elim (Bool-cases (ltb (length s.input) n)) [
    | inl short ↦ rw short (emptied s.status s.input h)
    | inr long ↦ rw long (shorter s.status n s.input h)
  ]

  pub read-Keeps :
      (n : ℕ) (f : List ℕ → Session → Done)
      → ((buf : List ℕ) → Keeps (f buf))
      → Keeps (λ s. read_with_timeout n s >>= (λ r. f r.0 r.1))
  read-Keeps n f k s h =
      let h' = read-Holds n s h in
      bind-keeps Holds (read_with_timeout n s) (λ r. f r.0 r.1) h'
        (λ buf. k buf (read_with_timeout n s).1 h')

  answer-Keeps : (result : AuthLogonResult) → Keeps (answer env result)
  unfolding answer
  answer-Keeps result = write-Keeps _

  module _
      (hl : (st : SessionStatus) (input : List ℕ) → Q st input → Q SessionStatus.logon_proof input)
      (hc : (st : SessionStatus) (input : List ℕ) → Q st input → Q SessionStatus.closed input) where
    pin_part-Holds :
        (flags : ℕ) (pkt : ByteBuffer) (s : Session)
        → Q SessionStatus.logon_proof s.input
        → Q SessionStatus.logon_proof (pin_part env flags pkt s).1.input
    unfolding pin_part
    pin_part-Holds flags pkt s h = elim (Bool-cases (not (bit_and flags security_flag_pin == 0))) [
      | inl pin ↦ rw pin h
      | inr no_pin ↦ rw no_pin h
    ]

    send_challenge-Keeps : (row : Row) (srp : Srp6) → Keeps (send_challenge env row srp)
    unfolding send_challenge
    send_challenge-Keeps row srp s h =
        let token = get_string row 6 in
        let flags = security_flags_of token s.build in
        let pkt = write_u8 flags (challenge_packet env srp (get_string row 5)) in
        let s0 : Session = record s { srp = srp; token = token } in
        let (pkt', s1) = pin_part env flags pkt s0 in
        let s2 : Session = record s1 {
          account_security_level = clamp_level (get_u8 row 3);
          status = SessionStatus.logon_proof;
        } in
        write-Keeps _ s2 (pin_part-Holds flags pkt s0 (hl s.status s.input h))

    send_created-Keeps : (row : Row) (srp : Srp6) → Keeps (send_created_challenge env row srp)
    unfolding send_created_challenge
    send_created-Keeps row srp s h = write-Keeps _ _ (hl s.status s.input h)

    proceed-Keeps :
        (next : Srp6 → Session → Done) (drawn : Option Srp6)
        → ((srp : Srp6) → Keeps (next srp))
        → Keeps (proceed env next drawn)
    unfolding proceed
    proceed-Keeps next none k s h = h
    proceed-Keeps next (some srp) k s h = k srp s h

    after_account_ban-Keeps : (row : Row) (reply : Reply) → Keeps (after_account_ban env row reply)
    unfolding after_account_ban with_ephemeral
    after_account_ban-Keeps row Reply.failed s h =
        proceed-Keeps _ _ (send_challenge-Keeps row) (tick s) h
    after_account_ban-Keeps row Reply.no_row s h =
        proceed-Keeps _ _ (send_challenge-Keeps row) (tick s) h
    after_account_ban-Keeps row (Reply.row ban_row) s h = answer-Keeps _ s h

    account_found-Keeps : (row : Row) → Keeps (account_found env row)
    unfolding account_found check_account_ban
    account_found-Keeps row s h =
        let (srp, sound) = set_verifier_and_salt env row s.srp in
        let s1 : Session = record s { srp = srp } in
        if-Keeps (is_locked_out env row) (answer env AuthLogonResult.failed_suspended)
          (λ t.
            if sound
            then check_account_ban env row (record t { srp = srp })
            else answer env AuthLogonResult.failed_fail_noaccess (record t { srp = srp }))
          (answer-Keeps AuthLogonResult.failed_suspended)
          (if-Keeps sound _ _
            (λ t k. after_account_ban-Keeps row _ (tick (record t { srp = srp })) k)
            (λ t k. answer-Keeps AuthLogonResult.failed_fail_noaccess (record t { srp = srp }) k))
          s h

    account_created-Keeps : (row : Row) → Keeps (account_created env row)
    unfolding account_created with_ephemeral
    account_created-Keeps row s h =
        let (srp, sound) = set_verifier_and_salt env row s.srp in
        if-Keeps sound
          (λ t. with_ephemeral env (send_created_challenge env row) (record t { srp = srp }))
          (λ t. answer env AuthLogonResult.failed_fail_noaccess (record t { srp = srp }))
          (λ t k. proceed-Keeps _ _ (send_created-Keeps row) (tick (record t { srp = srp })) k)
          (λ t k. answer-Keeps AuthLogonResult.failed_fail_noaccess (record t { srp = srp }) k) s h

    after_requery-Keeps : (reply : Reply) → Keeps (after_requery env reply)
    unfolding after_requery
    after_requery-Keeps Reply.failed s h = h
    after_requery-Keeps Reply.no_row s h = answer-Keeps AuthLogonResult.failed_unknown_account s h
    after_requery-Keeps (Reply.row row) s h = account_created-Keeps row s h

    auto_create-Holds : (s : Session) → Holds s → Holds (auto_create_account env s).0
    unfolding auto_create_account
    auto_create-Holds s h =
        let ri = calculate_sha_pass_hash env s.login s.login in
        let drawn =
          calculate_verifier_random env.num env.hashes (env.random s.moment 256) ri Srp6.new in
        elim (Bool-cases drawn.1) [ inl sound ↦ rw sound h | inr broken ↦ rw broken h ]

    account_missing-Keeps : Keeps (account_missing env)
    unfolding account_missing requery
    account_missing-Keeps s h =
        let (s', made) = auto_create_account env s in
        let h' = auto_create-Holds s h in
        let refused = answer-Keeps AuthLogonResult.failed_unknown_account in
        elim (Bool-cases
          (get_bool_default env.env_var env.config (text "AutoCreateAccounts") false)) [
            | inl on ↦ rw on (
                if-Keeps made (requery env) (answer env AuthLogonResult.failed_unknown_account)
                  (λ t k. after_requery-Keeps _ (tick t) k) refused s' h')
            | inr off ↦ rw off (refused s h)
          ]

    after_account-Keeps : (reply : Reply) → Keeps (after_account env reply)
    unfolding after_account
    after_account-Keeps Reply.failed s h = h
    after_account-Keeps Reply.no_row s h = account_missing-Keeps s h
    after_account-Keeps (Reply.row row) s h = account_found-Keeps row s h

    find_account-Keeps : Keeps (find_account env)
    unfolding find_account
    find_account-Keeps s h =
        after_account-Keeps (query_one env (Query.account s.safe_login) s) (tick s) h

    after_ip_ban-Keeps : (reply : Reply) → Keeps (after_ip_ban env reply)
    unfolding after_ip_ban
    after_ip_ban-Keeps Reply.failed s h = find_account-Keeps s h
    after_ip_ban-Keeps Reply.no_row s h = find_account-Keeps s h
    after_ip_ban-Keeps (Reply.row _) s h = answer-Keeps AuthLogonResult.failed_fail_noaccess s h

    check_ip_ban-Keeps : Keeps (check_ip_ban env)
    unfolding check_ip_ban
    check_ip_ban-Keeps s h =
        after_ip_ban-Keeps (query_one env (Query.ip_ban (escape_string env.ip)) s) (tick s) h

    with_body-Keeps : (body : Option AuthLogonChallengeBody) → Keeps (with_body env body)
    unfolding with_body store_client_info
    with_body-Keeps none s h = h
    with_body-Keeps (some body) s h =
        if-Keeps (ltb auth_logon_max_name body.username_len) (λ t. (err, t))
          (λ t. check_ip_ban env (store_client_info body t)) (λ t k. k)
          (λ t k. check_ip_ban-Keeps (store_client_info body t) k) s h

    read_body-Keeps : (size : ℕ) → Keeps (read_body env size)
    unfolding read_body
    read_body-Keeps size s h =
        read-Keeps size (λ buf t. with_body env (parse_body buf) t)
          (λ buf. with_body-Keeps (parse_body buf)) (set_status SessionStatus.closed s)
          (hc s.status s.input h)

    with_header-Keeps : (header : Option AuthLogonChallengeHeader) → Keeps (with_header env header)
    unfolding with_header
    with_header-Keeps none s h = h
    with_header-Keeps (some header) s h =
        if-Keeps (ltb header.size (body_min_size - auth_logon_max_name)) (λ t. (err, t))
          (read_body env header.size) (λ t k. k) (read_body-Keeps header.size) s h

    -- The logon challenge only reads, and sets no other status than `Closed` and `LogonProof`.
    pub handle_logon_challenge-Keeps : Keeps (handle_logon_challenge env)
    unfolding handle_logon_challenge
    handle_logon_challenge-Keeps =
        read-Keeps header_size (λ buf t. with_header env (parse_header buf) t)
          (λ buf. with_header-Keeps (parse_header buf))

  module _
      (hr : (st : SessionStatus) (input : List ℕ) → Q st input → Q SessionStatus.recon_proof input)
      (hc : (st : SessionStatus) (input : List ℕ) → Q st input → Q SessionStatus.closed input) where
    session_key-Keeps : (reply : Reply) → Keeps (Reconnect.after_session_key env reply)
    unfolding Reconnect.after_session_key Reconnect.send_reconnect_challenge
    session_key-Keeps Reply.failed s h = h
    session_key-Keeps Reply.no_row s h = h
    session_key-Keeps (Reply.row row) s h = write-Keeps _ _ (hr s.status s.input h)

    reconnect_body-Keeps :
        (body : Option AuthLogonChallengeBody) → Keeps (Reconnect.with_body env body)
    unfolding Reconnect.with_body Reconnect.find_session_key
    reconnect_body-Keeps none s h = h
    reconnect_body-Keeps (some body) s h = elim (Bool-cases (ltb 10 body.username_len)) [
      | inl long ↦ rw long h
      | inr short ↦ rw short (session_key-Keeps _ _ h)
    ]

    reconnect_header-Keeps :
        (header : Option AuthLogonChallengeHeader) → Keeps (Reconnect.with_header env header)
    unfolding Reconnect.with_header
    reconnect_header-Keeps none s h = h
    reconnect_header-Keeps (some header) s h =
        read-Keeps header.size (λ buf t. Reconnect.with_body env (parse_body buf) t)
          (λ buf. reconnect_body-Keeps (parse_body buf)) (set_status SessionStatus.closed s)
          (hc s.status s.input h)

    -- The reconnect challenge likewise, with `ReconProof`.
    pub handle_reconnect_challenge-Keeps : Keeps (Reconnect.handle_reconnect_challenge env)
    unfolding Reconnect.handle_reconnect_challenge
    handle_reconnect_challenge-Keeps =
        read-Keeps header_size (λ buf t. Reconnect.with_header env (parse_header buf) t)
          (λ buf. reconnect_header-Keeps (parse_header buf))

-- A property of the status alone.
module _ (env : Env) (st : SessionStatus) where
  abbrev pub Avoids : (Session → Done) → Type 0
  Avoids f = (s : Session) → s.status ≢ st → (f s).1.status ≢ st

  -- The logon challenge ends in no other state than the one before, `Closed` or `LogonProof`.
  pub handle_logon_challenge-Avoids :
      SessionStatus.logon_proof ≢ st
      → SessionStatus.closed ≢ st
      → Avoids (handle_logon_challenge env)
  handle_logon_challenge-Avoids hl hc =
      handle_logon_challenge-Keeps env (λ t _. t ≢ st) (λ _ _ _ h. h) (λ _ _ h. h) (λ _ _ _. hl)
        (λ _ _ _. hc)

  -- The reconnect challenge likewise, with `ReconProof`.
  pub handle_reconnect_challenge-Avoids :
      SessionStatus.recon_proof ≢ st
      → SessionStatus.closed ≢ st
      → Avoids (Reconnect.handle_reconnect_challenge env)
  handle_reconnect_challenge-Avoids hr hc =
      handle_reconnect_challenge-Keeps env (λ t _. t ≢ st) (λ _ _ _ h. h) (λ _ _ h. h) (λ _ _ _. hr)
        (λ _ _ _. hc)
