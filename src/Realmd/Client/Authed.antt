-- ===== src/Realmd/Client/Authed.antt =====
-- Which sessions are authenticated.
use cmangos_tbc.Base.{
  ℕ, ◌≡◌, ◌≢◌, ◌∙◌, inl, inr, sym, refl, true, false, none, some, List, [], ltb, length, take, drop,
  get_or, arith, Bool-cases, Option-cases,
}
use cmangos_tbc.Shared.Srp6.{calculate_session_key, proof}
use cmangos_tbc.Realmd.Protocol.{AuthLogonProofClient, proof_size, parse_proof}
use cmangos_tbc.Realmd.Builds.{find_build_info}
use cmangos_tbc.Realmd.Env.{Env}
use cmangos_tbc.Realmd.Session.{
  SessionStatus, Session, ok, err, panicked, Step, ◌>>=◌, finish, read_with_timeout, tick,
  write_with_timeout,
}
use cmangos_tbc.Realmd.Checks.{verify_version, generate_token}
use cmangos_tbc.Base.Int.{int_eq}
use cmangos_tbc.Realmd.LogonProof.{
  handle_logon_proof, with_proof, check_build, check_password, check_m1, password_correct,
  wrong_password, handle_failed_login, prepared, needs_token, with_pin_count, with_keys,
  compare_tokens, verify_and_finalize, send_logon_proof_error, client_token,
}

some_not_none : {A : Type 0} {a : A} → some a ≡ none → ⊥
some_not_none h = cc

-- The two states exclude each other.
pub not_both : {st : SessionStatus} → st ≡ SessionStatus.closed → st ≡ SessionStatus.authed → ⊥
not_both h k = cc

-- What holds after the first part of a step and is kept by the second holds after both.
pub bind-keeps {κ} :
    {A B : Type 0} (P : Session → Type κ) (e : Step A) (f : A × Session → Step B)
    → P e.1
    → ((a : A) → P (f (a, e.1)).1)
    → P (e >>= f).1
bind-keeps P (ok a, s) f h k = k a
bind-keeps P (err, s) f h k = h
bind-keeps P (panicked, s) f h k = h

module _ (env : Env) where
  pub write-status :
      (bytes : List ℕ) (s : Session) → (write_with_timeout env bytes s).1.status ≡ s.status
  unfolding write_with_timeout
  write-status bytes s = ground arith

  error-status : (s : Session) → (send_logon_proof_error env s).1.status ≡ s.status
  unfolding send_logon_proof_error
  error-status s = write-status _ s

  failed_login-status : (s : Session) → (handle_failed_login env s).status ≡ s.status
  unfolding handle_failed_login
  failed_login-status s = ground arith

  wrong_password-status : (s : Session) → (wrong_password env s).1.status ≡ s.status
  unfolding wrong_password
  wrong_password-status s =
      bind-keeps (λ t. t.status ≡ s.status) (send_logon_proof_error env s)
        (λ r. finish (handle_failed_login env r.1)) (error-status s)
        (λ a. failed_login-status (send_logon_proof_error env s).1 ∙ error-status s)

  verify_and_finalize-authed :
      (p : AuthLogonProofClient) (s : Session)
      → s.status ≡ SessionStatus.closed
      → (verify_and_finalize env p s).1.status ≡ SessionStatus.authed
      → verify_version env s.build s.os p.a p.crc_hash false ≡ true
  unfolding verify_and_finalize
  verify_and_finalize-authed p s hc h = ground (arith, write-status _ s)

  compare_tokens-authed :
      (p : AuthLogonProofClient) (keys : List ℕ) (s : Session)
      → s.status ≡ SessionStatus.closed
      → (compare_tokens env p keys s).1.status ≡ SessionStatus.authed
      → (verify_version env s.build s.os p.a p.crc_hash false ≡ true)
        × (int_eq (generate_token env (env.now s.moment) s.token) (client_token env keys) ≡ true)
  unfolding compare_tokens
  compare_tokens-authed p keys s hc h =
      ground (arith, error-status (tick s), verify_and_finalize-authed p (tick s) hc)

  -- The keys that follow the proof: a count and so many bytes.
  abbrev pub keys_of : List ℕ → List ℕ
  keys_of rest = take (get_or (take 1 rest) 0 0) (drop 1 rest)

  keys-authed :
      (p : AuthLogonProofClient) (n : ℕ) (s : Session)
      → s.status ≡ SessionStatus.closed
      → (with_keys env p (read_with_timeout n s)).1.status ≡ SessionStatus.authed
      → (verify_version env s.build s.os p.a p.crc_hash false ≡ true)
        × (int_eq
              (generate_token env (env.now s.moment) s.token)
              (client_token env (take n s.input))
            ≡ true)
  unfolding with_keys read_with_timeout
  keys-authed p n s hc h = elim (Bool-cases (ltb (length s.input) n)) [
    | inl short ↦
        let h' = rw short at h in absurd (not_both (error-status (record s { input = [] }) ∙ hc) h')
    | inr long ↦
        compare_tokens-authed p (take n s.input) (record s { input = drop n s.input }) hc
          (rw long at h)
  ]

  pin-authed :
      (p : AuthLogonProofClient) (s : Session)
      → s.status ≡ SessionStatus.closed
      → (with_pin_count env p (read_with_timeout 1 s)).1.status ≡ SessionStatus.authed
      → (verify_version env s.build s.os p.a p.crc_hash false ≡ true)
        × (int_eq
              (generate_token env (env.now s.moment) s.token)
              (client_token env (keys_of s.input))
            ≡ true)
  unfolding with_pin_count read_with_timeout
  pin-authed p s hc h =
      let s1 : Session = record s { input = drop 1 s.input } in
      let n = get_or (take 1 s.input) 0 0 in
      elim (Bool-cases (ltb (length s.input) 1)) [
        | inl short ↦
            let h' = rw short at h in
            absurd (not_both (error-status (record s { input = [] }) ∙ hc) h')
        | inr long ↦
            let h' = rw long at h in
            elim (Bool-cases (ltb 16 n)) [
              | inl many ↦ let h'' = rw many at h' in absurd (not_both (error-status s1 ∙ hc) h'')
              | inr few ↦ keys-authed p n s1 hc (rw few at h')
            ]
      ]

  -- What `handle_logon_proof` has established when it sets the status to `Authed`.
  pub record LogonProved (s : Session) : Type 0 where
    pub p : AuthLogonProofClient
    pub parsed : parse_proof (take (proof_size s.prompt_pin) s.input) s.prompt_pin ≡ some p
    pub build_known : find_build_info s.build ≢ none
    pub valid_a : (calculate_session_key env.num env.hashes p.a s.srp).1 ≡ true
    pub password :
        proof env.num env.hashes p.m1
          (prepared env s.login (calculate_session_key env.num env.hashes p.a s.srp).0)
        ≡ true
    pub version : verify_version env s.build s.os p.a p.crc_hash false ≡ true
    pub tokens :
        needs_token env p s ≡ true
        → int_eq
            (generate_token env (env.now s.moment) s.token)
            (client_token env (keys_of (drop (proof_size s.prompt_pin) s.input)))
          ≡ true

  password_correct-authed :
      (p : AuthLogonProofClient) (s : Session)
      → s.status ≡ SessionStatus.closed
      → (password_correct env p s).1.status ≡ SessionStatus.authed
      → (verify_version env s.build s.os p.a p.crc_hash false ≡ true)
        × (needs_token env p s ≡ true
            → int_eq
                (generate_token env (env.now s.moment) s.token)
                (client_token env (keys_of s.input))
              ≡ true)
  unfolding password_correct
  password_correct-authed p s hc h = elim (Bool-cases (needs_token env p s)) [
    | inl needed ↦ let r = pin-authed p s hc (rw needed at h) in (r.0, λ _. r.1)
    | inr other ↦
        (verify_and_finalize-authed p s hc (rw other at h), λ needed. absurd (ground arith))
  ]

  check_password-authed :
      (p : AuthLogonProofClient) (s : Session)
      → s.status ≡ SessionStatus.closed
      → (check_password env p s).1.status ≡ SessionStatus.authed
      → let (srp, valid) = calculate_session_key env.num env.hashes p.a s.srp in
        (valid ≡ true)
        × (proof env.num env.hashes p.m1 (prepared env s.login srp) ≡ true)
        × ((password_correct env p (record s { srp = prepared env s.login srp })).1.status
            ≡ SessionStatus.authed)
  unfolding check_password check_m1
  check_password-authed p s hc h =
      let k = calculate_session_key env.num env.hashes p.a s.srp in
      ground (arith, wrong_password-status (record s { srp = prepared env s.login k.0 }))

  check_build-authed :
      (p : AuthLogonProofClient) (s : Session)
      → s.status ≡ SessionStatus.closed
      → (check_build env p s).1.status ≡ SessionStatus.authed
      → (find_build_info s.build ≢ none)
        × ((check_password env p s).1.status ≡ SessionStatus.authed)
  unfolding check_build
  check_build-authed p s hc h = elim (Option-cases (find_build_info s.build)) [
    | inl unknown ↦
        let h' = rw (unknown, check_build) at h in absurd (not_both (write-status _ s ∙ hc) h')
    | inr (info, known) ↦ (λ e. some_not_none (sym known ∙ e), rw (known, check_build) at h)
  ]

  check_build-LogonProved :
      (p : AuthLogonProofClient) (s : Session)
      → (check_build env p (record s {
        status = SessionStatus.closed;
        input = drop (proof_size s.prompt_pin) s.input;
      })).1.status
        ≡ SessionStatus.authed
      → parse_proof (take (proof_size s.prompt_pin) s.input) s.prompt_pin ≡ some p
      → LogonProved s
  unfolding needs_token
  check_build-LogonProved p s h parsed =
      let s1 : Session = record s {
        status = SessionStatus.closed;
        input = drop (proof_size s.prompt_pin) s.input;
      } in
      let b = check_build-authed p s1 refl h in
      let c = check_password-authed p s1 refl b.1 in
      let t =
        password_correct-authed p
          (record s1 {
            srp = prepared env s.login (calculate_session_key env.num env.hashes p.a s.srp).0;
          })
          refl c.2 in
      record {
        p = p;
        parsed = parsed;
        build_known = b.0;
        valid_a = c.0;
        password = c.1;
        version = t.0;
        tokens = t.1;
      }

  -- Whatever the database, the clock and the client do, `handle_logon_proof` after a challenge only
  -- authenticates a client whose packet parses, whose build is known, whose A passes the safeguard,
  -- whose M is the server's own, whose version check passes and, where a token is asked for, whose
  -- token is the server's.
  pub handle_logon_proof_authed :
      (s : Session)
      → s.status ≡ SessionStatus.logon_proof
      → (handle_logon_proof env s).1.status ≡ SessionStatus.authed
      → LogonProved s
  unfolding handle_logon_proof read_with_timeout
  handle_logon_proof_authed s hs h =
      elim (Bool-cases (ltb (length s.input) (proof_size s.prompt_pin))) [
        | inl short ↦ let h' = rw short at h in absurd (cc)
        | inr long ↦
            let h' = rw long at h in
            elim (Option-cases
              (parse_proof (take (proof_size s.prompt_pin) s.input) s.prompt_pin)) [
                | inl bad ↦ let h'' = rw (bad, with_proof) at h' in absurd cc
                | inr (p, good) ↦ check_build-LogonProved p s (rw (good, with_proof) at h') good
              ]
      ]
