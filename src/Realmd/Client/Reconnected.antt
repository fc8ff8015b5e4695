-- ===== src/Realmd/Client/Reconnected.antt =====
-- What a reconnection has established.
use cmangos_tbc.Base.{
  ◌≡◌, inl, inr, refl, true, false, some, ltb, length, take, drop, arith, Bool-cases, Option-cases,
  bytes_eq→eq,
}
use cmangos_tbc.Realmd.Protocol.{
  AuthReconnectProofClient, parse_reconnect_proof, reconnect_proof_size,
}
use cmangos_tbc.Realmd.Env.{Env}
use cmangos_tbc.Realmd.Session.{SessionStatus, Session, read_with_timeout}
use cmangos_tbc.Realmd.Checks.{verify_version}
use cmangos_tbc.Realmd.Client.Authed.{write-status}
use cmangos_tbc.Realmd.Reconnect.{
  handle_reconnect_proof, with_proof, check_reconnect, is_missing, reconnect_digest,
}

module _ (env : Env) where
  -- What `handle_reconnect_proof` has established when it sets the status to `Authed`.
  pub record ReconnectProved (s : Session) : Type 0 where
    pub p : AuthReconnectProofClient
    pub parsed : parse_reconnect_proof (take reconnect_proof_size s.input) ≡ some p
    pub complete : is_missing env s ≡ false
    pub digest : reconnect_digest env p s ≡ p.r2
    pub version : verify_version env s.build s.os p.r1 p.r3 true ≡ true

  check_reconnect-authed :
      (p : AuthReconnectProofClient) (s : Session)
      → s.status ≡ SessionStatus.closed
      → (check_reconnect env p s).1.status ≡ SessionStatus.authed
      → (is_missing env s ≡ false)
        × (reconnect_digest env p s ≡ p.r2)
        × (verify_version env s.build s.os p.r1 p.r3 true ≡ true)
  unfolding check_reconnect
  check_reconnect-authed p s hc h =
      ground (arith, write-status env _ s, bytes_eq→eq (reconnect_digest env p s) p.r2)

  check_reconnect-ReconnectProved :
      (p : AuthReconnectProofClient) (s : Session)
      → (check_reconnect env p (record s {
        status = SessionStatus.closed;
        input = drop reconnect_proof_size s.input;
      })).1.status
        ≡ SessionStatus.authed
      → parse_reconnect_proof (take reconnect_proof_size s.input) ≡ some p
      → ReconnectProved s
  unfolding is_missing reconnect_digest
  check_reconnect-ReconnectProved p s h parsed =
      let s1 : Session = record s {
        status = SessionStatus.closed;
        input = drop reconnect_proof_size s.input;
      } in
      let c = check_reconnect-authed p s1 refl h in
      record { p = p; parsed = parsed; complete = c.0; digest = c.1; version = c.2 }

  -- `handle_reconnect_proof` only authenticates a client that was found with a name, a challenge
  -- and a session key, that knows the key, and whose version check passes.
  pub handle_reconnect_proof_authed :
      (s : Session)
      → s.status ≡ SessionStatus.recon_proof
      → (handle_reconnect_proof env s).1.status ≡ SessionStatus.authed
      → ReconnectProved s
  unfolding handle_reconnect_proof read_with_timeout
  handle_reconnect_proof_authed s hs h =
      elim (Bool-cases (ltb (length s.input) reconnect_proof_size)) [
        | inl short ↦ let h' = rw short at h in absurd cc
        | inr long ↦
            let h' = rw long at h in
            elim (Option-cases (parse_reconnect_proof (take reconnect_proof_size s.input))) [
              | inl bad ↦ let h'' = rw (bad, with_proof) at h' in absurd cc
              | inr (p, good) ↦
                  check_reconnect-ReconnectProved p s (rw (good, with_proof) at h') good
            ]
      ]
