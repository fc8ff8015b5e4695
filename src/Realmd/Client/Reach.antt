-- ===== src/Realmd/Client/Reach.antt =====
-- The sessions that the loop of `handle_client` passes through.
use cmangos_tbc.Base.{
  ℕ, ◌≡◌, ◌∙◌, ◌⊎◌, inl, inr, sym, ap, refl, true, Option, none, some, List, [], ◌∷◌, drop, arith,
  Bool-cases,
}
use cmangos_tbc.Realmd.AuthCodes.{AuthCmd, from_u8}
use cmangos_tbc.Realmd.RealmList.{RealmList}
use cmangos_tbc.Realmd.Env.{Env}
use cmangos_tbc.Realmd.Session.{
  SessionStatus, Session, ok, err, panicked, Done, finish, read_with_timeout,
}
use cmangos_tbc.Realmd.Client.{
  start, expected_status, status_eq, skip_8, handle_command, after_handler, dispatch, take_command,
  round,
}
use cmangos_tbc.Realmd.Client.Authed.{bind-keeps, LogonProved, handle_logon_proof_authed}
use cmangos_tbc.Realmd.Client.Reconnected.{ReconnectProved, handle_reconnect_proof_authed}
use cmangos_tbc.Realmd.Client.Challenge.{
  read-status, handle_logon_challenge-Avoids, handle_reconnect_challenge-Avoids,
}

status_eq→eq : (a b : SessionStatus) → status_eq a b ≡ true → a ≡ b
status_eq→eq a b h = ground arith

-- The sessions before a round of the loop, on a connection that starts with `s0`.
pub data Reachable (env : Env) (s0 : Session) : Session → Type 0 where
  begin : Reachable env s0 s0
  next : (s s' : Session) → Reachable env s0 s → round env s ≡ (s', true) → Reachable env s0 s'

module _ (env : Env) where
  pub after_handler-session : (d : Done) → (after_handler env d).0 ≡ d.1
  after_handler-session (ok _, s) = refl
  after_handler-session (err, s) = refl
  after_handler-session (panicked, s) = refl

  -- Where the status can be `Authed` after a command from: it was before, or a proof was accepted.
  abbrev pub Origin : Session → Type 0
  Origin s =
      (s.status ≡ SessionStatus.authed)
      ⊎ ((s.status ≡ SessionStatus.logon_proof) × LogonProved env s)
      ⊎ ((s.status ≡ SessionStatus.recon_proof) × ReconnectProved env s)

  skip_8-status : (s : Session) → (skip_8 env s).1.status ≡ s.status
  unfolding skip_8
  skip_8-status s =
      bind-keeps (λ t. t.status ≡ s.status) (read_with_timeout 8 s) (λ r. finish r.1)
        (read-status 8 s) (λ buf. read-status 8 s)

  command-Origin :
      (cmd : AuthCmd) (s : Session)
      → expected_status cmd ≡ s.status
      → (handle_command env cmd s).1.status ≡ SessionStatus.authed
      → Origin s
  unfolding handle_command
  command-Origin AuthCmd.logon_challenge s e h =
      absurd
        (handle_logon_challenge-Avoids env SessionStatus.authed (λ q. cc) (λ q. cc) s (λ q. cc) h)
  command-Origin AuthCmd.logon_proof s e h =
      inr (inl (sym e, handle_logon_proof_authed env s (sym e) h))
  command-Origin AuthCmd.reconnect_challenge s e h =
      absurd (
        handle_reconnect_challenge-Avoids env SessionStatus.authed (λ q. cc) (λ q. cc) s (λ q. cc)
          h)
  command-Origin AuthCmd.reconnect_proof s e h =
      inr (inr (sym e, handle_reconnect_proof_authed env s (sym e) h))
  command-Origin AuthCmd.realm_list s e h = inl (sym e)
  command-Origin AuthCmd.xfer_resume s e h = inl (sym (skip_8-status s) ∙ h)
  command-Origin AuthCmd.xfer_cancel s e h = inl h
  command-Origin AuthCmd.xfer_accept s e h = inl h
  command-Origin AuthCmd.xfer_initiate s e h = inl h
  command-Origin AuthCmd.xfer_data s e h = inl h

  dispatch-Origin :
      (cmd : Option AuthCmd) (s : Session)
      → (dispatch env cmd s).0.status ≡ SessionStatus.authed
      → Origin s
  unfolding dispatch
  dispatch-Origin none s h = inl h
  dispatch-Origin (some cmd) s h = elim (Bool-cases (status_eq (expected_status cmd) s.status)) [
    | inl expected ↦ command-Origin cmd s (status_eq→eq (expected_status cmd) s.status expected) (
        ap (λ t. t.status) (sym (after_handler-session (handle_command env cmd s)))
        ∙ rw expected at h)
    | inr other ↦ inl (rw other at h)
  ]

  -- The session after its command byte was read.
  abbrev pub behind_byte : Session → Session
  behind_byte s = record s { input = drop 1 s.input }

  take_command-Origin :
      (input : List ℕ) (s : Session)
      → (take_command env input s).0.status ≡ SessionStatus.authed
      → Origin (record s { input = drop 1 input })
  unfolding take_command
  take_command-Origin [] s h = inl h
  take_command-Origin (byte ∷ rest) s h =
      dispatch-Origin (from_u8 byte) (record s { input = rest }) h

  -- On every connection, if the session is ever authenticated, then in an earlier round it stood
  -- after a challenge and the client's proof of the password was accepted, or after a reconnect
  -- challenge and the client's proof of the session key was accepted.
  pub authed_origin :
      (input : List ℕ) (realm_list : RealmList) (s : Session)
      → Reachable env (start input realm_list) s
      → s.status ≡ SessionStatus.authed
      → (s1 : Session) × Reachable env (start input realm_list) s1
        × (((s1.status ≡ SessionStatus.logon_proof) × LogonProved env (behind_byte s1))
            ⊎ ((s1.status ≡ SessionStatus.recon_proof) × ReconnectProved env (behind_byte s1)))
  unfolding start round
  authed_origin input realm_list s begin h = absurd cc
  authed_origin input realm_list s (next s1 _ r e) h =
      elim (take_command-Origin s1.input s1 (ap (λ t. t.0.status) e ∙ h)) [
        | inl before ↦ authed_origin input realm_list s1 r before
        | inr proved ↦ (s1, r, proved)
      ]
