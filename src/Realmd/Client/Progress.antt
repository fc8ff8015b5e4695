-- ===== src/Realmd/Client/Progress.antt =====
-- No handler makes the input longer: what is left after each step of a command.
use cmangos_tbc.Base.{
  bytes_eq, ℕ, ◌≤◌, ◌≡◌, inl, inr, Bool, true, false, Option, none, some, List, [], length, drop,
  take, get_or, length-drop, ltb, arith, Bool-cases, if◌then◌else◌,
}
use cmangos_tbc.Base.Int.{int_eq}
use cmangos_tbc.Shared.Crypto.Sha1
use cmangos_tbc.Shared.Srp6
use cmangos_tbc.Shared.Srp6.{calculate_session_key, proof}
use cmangos_tbc.Realmd.Checks.{verify_version, generate_token}
use cmangos_tbc.Realmd.AuthCodes.{AuthCmd}
use cmangos_tbc.Realmd.Protocol.{
  AuthLogonProofClient, AuthReconnectProofClient, proof_size, parse_proof, reconnect_proof_size,
  parse_reconnect_proof,
}
use cmangos_tbc.Realmd.Env.{Env}
use cmangos_tbc.Realmd.Session.{
  SessionStatus, Session, ok, err, panicked, Step, Done, ◌>>=◌, finish, set_status,
  read_with_timeout, tick, write_with_timeout, execute,
}
use cmangos_tbc.Realmd.LogonProof.{
  send_logon_proof_error, handle_failed_login, wrong_password, send_proof, log_login,
  finalize_login, verify_and_finalize, compare_tokens, with_keys, with_pin_count, password_correct,
  check_m1, check_password, check_build, with_proof, handle_logon_proof, store, needs_token,
  client_token, prepared,
}
use cmangos_tbc.Realmd.Reconnect
use cmangos_tbc.Realmd.RealmPacket.{handle_realm_list}
use cmangos_tbc.Realmd.Client.{skip_8, handle_command}
use cmangos_tbc.Realmd.Client.Authed.{bind-keeps}
use cmangos_tbc.Realmd.Client.Challenge.{
  write-Keeps, read-Holds, read-Keeps, handle_logon_challenge-Keeps,
  handle_reconnect_challenge-Keeps,
}

-- At most `n` bytes still arrive.
abbrev Short : ℕ → SessionStatus → List ℕ → Type 0
Short n st input = length input ≤ n

module _ (env : Env) (n : ℕ) where
  drop-Short :
      (st : SessionStatus) (k : ℕ) (input : List ℕ) → Short n st input → Short n st (drop k input)
  drop-Short st k input h = omega (arith, length-drop {0} k input)

  empty-Short : (st : SessionStatus) (input : List ℕ) → Short n st input → Short n st []
  empty-Short st input h = omega arith

  -- The handlers keep that bound.
  abbrev KeepsShort : (Session → Done) → Type 0
  KeepsShort f = (s : Session) → length s.input ≤ n → length (f s).1.input ≤ n

  write-Short : (bytes : List ℕ) → KeepsShort (write_with_timeout env bytes)
  write-Short = write-Keeps env (Short n) drop-Short empty-Short

  read-Short :
      (k : ℕ) (s : Session) → length s.input ≤ n → length (read_with_timeout k s).1.input ≤ n
  read-Short = read-Holds env (Short n) drop-Short empty-Short

  then-Short :
      (k : ℕ) (f : List ℕ → Session → Done)
      → ((buf : List ℕ) → KeepsShort (f buf))
      → KeepsShort (λ s. read_with_timeout k s >>= (λ r. f r.0 r.1))
  then-Short = read-Keeps env (Short n) drop-Short empty-Short

  error-Short : KeepsShort (send_logon_proof_error env)
  unfolding send_logon_proof_error
  error-Short s h = write-Short _ s h

  failed_login-input : (s : Session) → (handle_failed_login env s).input ≡ s.input
  unfolding handle_failed_login
  failed_login-input s = ground arith

  wrong_password-Short : KeepsShort (wrong_password env)
  unfolding wrong_password
  wrong_password-Short s h =
      bind-keeps (λ t. length t.input ≤ n) (send_logon_proof_error env s)
        (λ r. finish (handle_failed_login env r.1)) (error-Short s h)
        (λ a. rw (failed_login-input (send_logon_proof_error env s).1) (error-Short s h))

  log_login-input : (s : Session) → (log_login env s).input ≡ s.input
  unfolding log_login
  log_login-input s = ground arith

  finalize_login-Short : KeepsShort (finalize_login env)
  unfolding finalize_login send_proof
  finalize_login-Short s h =
      let s1 = log_login env (execute env (store env s) s) in
      let h1 : length s1.input ≤ n = rw (log_login-input (execute env (store env s) s)) h in
      let sha = Srp6.finalize env.num env.hashes s1.srp Sha1.new in
      let h2 : length (send_proof env sha s1).1.input ≤ n = write-Short _ s1 h1 in
      bind-keeps (λ t. length t.input ≤ n) (send_proof env sha s1)
        (λ r. finish (set_status SessionStatus.authed r.1)) h2 (λ a. h2)

  if-Short :
      (b : Bool) (f g : Session → Done)
      → KeepsShort f
      → KeepsShort g
      → KeepsShort (λ s. if b then f s else g s)
  if-Short true f g hf hg = hf
  if-Short false f g hf hg = hg

  verify-Short : (p : AuthLogonProofClient) → KeepsShort (verify_and_finalize env p)
  unfolding verify_and_finalize
  verify-Short p s h = elim (Bool-cases (verify_version env s.build s.os p.a p.crc_hash false)) [
    | inl right ↦ rw right (finalize_login-Short s h)
    | inr wrong ↦ rw wrong (write-Short _ s h)
  ]

  tokens-Short : (p : AuthLogonProofClient) (keys : List ℕ) → KeepsShort (compare_tokens env p keys)
  unfolding compare_tokens
  tokens-Short p keys s h =
      if-Short (int_eq (generate_token env (env.now s.moment) s.token) (client_token env keys))
        (λ t. verify_and_finalize env p (tick t)) (λ t. send_logon_proof_error env (tick t))
        (λ t. verify-Short p (tick t)) (λ t. error-Short (tick t)) s h

  -- A step on the outcome of a read.
  after-Short :
      (f : Step (List ℕ) → Done)
      → ((buf : List ℕ) → KeepsShort (λ s. f (ok buf, s)))
      → KeepsShort (λ s. f (err, s))
      → KeepsShort (λ s. f (panicked, s))
      → (k : ℕ) → KeepsShort (λ s. f (read_with_timeout k s))
  unfolding read_with_timeout
  after-Short f hok herr hpanic k s h = elim (Bool-cases (ltb (length s.input) k)) [
    | inl few ↦ rw few (herr (record s { input = [] }) (omega arith))
    | inr enough ↦ rw enough (
        hok (take k s.input) (record s { input = drop k s.input })
          (drop-Short s.status k s.input h))
  ]

  keys-Short :
      (p : AuthLogonProofClient) (k : ℕ) → KeepsShort (λ s. with_keys env p (read_with_timeout k s))
  unfolding with_keys
  keys-Short p = after-Short (with_keys env p) (tokens-Short p) error-Short (λ s h. h)

  pin-Short :
      (p : AuthLogonProofClient) (k : ℕ)
      → KeepsShort (λ s. with_pin_count env p (read_with_timeout k s))
  unfolding with_pin_count
  pin-Short p =
      after-Short (with_pin_count env p)
        (λ buf.
          if-Short (ltb 16 (get_or buf 0 0)) (send_logon_proof_error env)
            (λ s. with_keys env p (read_with_timeout (get_or buf 0 0) s)) error-Short
            (keys-Short p (get_or buf 0 0)))
        error-Short (λ s h. h)

  password-Short : (p : AuthLogonProofClient) → KeepsShort (password_correct env p)
  unfolding password_correct
  password-Short p s h =
      if-Short (needs_token env p s) (λ t. with_pin_count env p (read_with_timeout 1 t))
        (verify_and_finalize env p) (pin-Short p 1) (verify-Short p) s h

  m1-Short : (p : AuthLogonProofClient) → KeepsShort (check_m1 env p)
  unfolding check_m1
  m1-Short p s h =
      if-Short (proof env.num env.hashes p.m1 s.srp) (password_correct env p) (wrong_password env)
        (password-Short p) wrong_password-Short s h

  check_password-Short : (p : AuthLogonProofClient) → KeepsShort (check_password env p)
  unfolding check_password
  check_password-Short p s h =
      let (srp, valid) = calculate_session_key env.num env.hashes p.a s.srp in
      if-Short valid (λ t. check_m1 env p (record t { srp = prepared env s.login srp }))
        (λ t. finish (record t { srp = srp }))
        (λ t. m1-Short p (record t { srp = prepared env s.login srp })) (λ t k. k) s h

  build-Short : (p : AuthLogonProofClient) → KeepsShort (check_build env p)
  unfolding check_build
  build-Short p s h = ground (arith, write-Short _ s h, check_password-Short p s h)

  with_proof-Short : (p : Option AuthLogonProofClient) → KeepsShort (with_proof env p)
  unfolding with_proof
  with_proof-Short none s h = h
  with_proof-Short (some p) s h = build-Short p (set_status SessionStatus.closed s) h

  logon_proof-Short : KeepsShort (handle_logon_proof env)
  unfolding handle_logon_proof
  logon_proof-Short s h =
      then-Short (proof_size s.prompt_pin)
        (λ buf t. with_proof env (parse_proof buf s.prompt_pin) t)
        (λ buf. with_proof-Short (parse_proof buf s.prompt_pin)) s h

  accept-Short : KeepsShort (Reconnect.accept_reconnect env)
  unfolding Reconnect.accept_reconnect
  accept-Short s h =
      bind-keeps (λ t. length t.input ≤ n) (write_with_timeout env _ s)
        (λ r. finish (set_status SessionStatus.authed r.1)) (write-Short _ s h)
        (λ a. write-Short _ s h)

  reconnect-Short : (p : AuthReconnectProofClient) → KeepsShort (Reconnect.check_reconnect env p)
  unfolding Reconnect.check_reconnect
  reconnect-Short p s h = elim (Bool-cases (Reconnect.is_missing env s)) [
    | inl missing ↦ rw missing h
    | inr complete ↦
        rw complete (elim (Bool-cases (bytes_eq (Reconnect.reconnect_digest env p s) p.r2)) [
          | inl right ↦
              rw right (elim (Bool-cases (verify_version env s.build s.os p.r1 p.r3 true)) [
                | inl known ↦ rw known (accept-Short s h)
                | inr unknown ↦ rw unknown (write-Short _ s h)
              ])
          | inr wrong ↦ rw wrong h
        ])
  ]

  reconnect_with_proof-Short :
      (p : Option AuthReconnectProofClient) → KeepsShort (Reconnect.with_proof env p)
  unfolding Reconnect.with_proof
  reconnect_with_proof-Short none s h = h
  reconnect_with_proof-Short (some p) s h = reconnect-Short p (set_status SessionStatus.closed s) h

  realm_list-Short : KeepsShort (handle_realm_list env)
  unfolding handle_realm_list
  realm_list-Short s h = ground (arith, read-Short 4 s h)

  skip-Short : KeepsShort (skip_8 env)
  unfolding skip_8
  skip-Short s h =
      bind-keeps (λ t. length t.input ≤ n) (read_with_timeout 8 s) (λ r. finish r.1)
        (read-Short 8 s h) (λ buf. read-Short 8 s h)

  -- The reads and status changes of the two challenges.
  keep : (st : SessionStatus) (input : List ℕ) → Short n st input → Short n st input
  keep st input h = h

  pub command-Short : (cmd : AuthCmd) → KeepsShort (handle_command env cmd)
  unfolding handle_command Reconnect.handle_reconnect_proof
  command-Short AuthCmd.logon_challenge s h =
      handle_logon_challenge-Keeps env (Short n) drop-Short empty-Short keep keep s h
  command-Short AuthCmd.logon_proof s h = logon_proof-Short s h
  command-Short AuthCmd.reconnect_challenge s h =
      handle_reconnect_challenge-Keeps env (Short n) drop-Short empty-Short keep keep s h
  command-Short AuthCmd.reconnect_proof s h =
      then-Short reconnect_proof_size
        (λ buf t. Reconnect.with_proof env (parse_reconnect_proof buf) t)
        (λ buf. reconnect_with_proof-Short (parse_reconnect_proof buf)) s h
  command-Short AuthCmd.realm_list s h = realm_list-Short s h
  command-Short AuthCmd.xfer_resume s h = skip-Short s h
  command-Short AuthCmd.xfer_cancel s h = h
  command-Short AuthCmd.xfer_accept s h = h
  command-Short AuthCmd.xfer_initiate s h = h
  command-Short AuthCmd.xfer_data s h = h
