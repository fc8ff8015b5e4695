-- ===== src/Realmd/Client/Termination.antt =====
-- The loop of `handle_client` ends: each round takes its command byte, and no handler adds input.
use cmangos_tbc.Base.{
  ℕ, ◌<◌, ◌≤◌, ◌≡◌, inl, inr, ap, true, false, Option, none, some, List, [], ◌∷◌, length, arith,
  Bool-cases, zero, suc,
}
use cmangos_tbc.Realmd.AuthCodes.{AuthCmd, from_u8}
use cmangos_tbc.Realmd.RealmList.{RealmList}
use cmangos_tbc.Realmd.Env.{Env}
use cmangos_tbc.Realmd.Session.{Session}
use cmangos_tbc.Realmd.Client.{
  start, expected_status, status_eq, handle_command, dispatch, take_command, round, loop,
  handle_client,
}
use cmangos_tbc.Realmd.Client.Reach.{Reachable, begin, next, after_handler-session}
use cmangos_tbc.Realmd.Client.Progress.{command-Short}

module _ (env : Env) where
  dispatch_short :
      (cmd : Option AuthCmd) (s : Session) → length (dispatch env cmd s).0.input ≤ length s.input
  unfolding dispatch
  dispatch_short none s = omega arith
  dispatch_short (some cmd) s = elim (Bool-cases (status_eq (expected_status cmd) s.status)) [
    | inl expected ↦
        let kept = command-Short env (length s.input) cmd s (omega arith) in
        let same = after_handler-session env (handle_command env cmd s) in rw (expected, same) kept
    | inr other ↦ rw other (omega arith)
  ]

  -- A round that goes on has taken the command byte.
  command_shorter :
      (input : List ℕ) (s : Session)
      → (take_command env input s).1 ≡ true
      → length (take_command env input s).0.input < length input
  unfolding take_command
  command_shorter [] s on = cc
  command_shorter (byte ∷ rest) s on =
      omega (arith, dispatch_short (from_u8 byte) (record s { input = rest }))

  pub round_shorter :
      (s : Session) → (round env s).1 ≡ true → length (round env s).0.input < length s.input
  unfolding round
  round_shorter s on = command_shorter s.input s on

  loop_ends :
      (fuel : ℕ) (s0 s : Session)
      → Reachable env s0 s
      → length s.input < fuel
      → (t : Session) × (Reachable env s0 t × (round env t ≡ (loop env fuel s, false)))
  unfolding loop
  loop_ends zero s0 s r h = absurd (omega arith)
  loop_ends (suc fuel) s0 s r h = elim (Bool-cases (round env s).1) [
    | inl on ↦
        let again : Reachable env s0 (round env s).0 =
          next s (round env s).0 r (ap (λ b. ((round env s).0, b)) on) in
        let shorter : length (round env s).0.input < fuel = omega (arith, round_shorter s on) in
        let (t, (reached, stopped)) = loop_ends fuel s0 (round env s).0 again shorter in
        (t, (reached, rw on stopped))
    | inr off ↦ (s, (r, rw off (ap (λ b. ((round env s).0, b)) off)))
  ]

  -- On every connection the loop comes to an end by itself: it passes through a session whose round
  -- does not go on, and the result is what that round leaves. The fuel never cuts it short.
  pub handle_client_ends :
      (input : List ℕ) (realm_list : RealmList)
      → (t : Session) × (Reachable env (start input realm_list) t
          × (round env t ≡ (handle_client env input realm_list, false)))
  unfolding handle_client start
  handle_client_ends input realm_list =
      loop_ends (suc (length input)) (start input realm_list) (start input realm_list) begin
        (omega arith)
