-- ===== src/Realmd/Client.antt =====
-- crates/realmd/src/auth_socket.rs: `handle_client`, the loop over the commands of a connection.
pub mod Authed
pub mod Reconnected
pub mod Challenge
pub mod Reach
pub mod Progress
pub mod Termination
use cmangos_tbc.Base.{
  ℕ, zero, suc, Bool, true, false, Option, none, some, List, [], ◌∷◌, if◌then◌else◌, length,
}
use cmangos_tbc.Base.Text.{Text}
use cmangos_tbc.Shared.BigNumber.{BigNumber}
use cmangos_tbc.Shared.Srp6
use cmangos_tbc.Shared.Types.{sec_player}
use cmangos_tbc.Realmd.AuthCodes.{AuthCmd, from_u8}
use cmangos_tbc.Realmd.RealmList.{RealmList}
use cmangos_tbc.Realmd.Env.{Env}
use cmangos_tbc.Realmd.Session.{
  SessionStatus, Session, Result, ok, err, panicked, Step, Done, ◌>>=◌, finish, read_with_timeout,
}
use cmangos_tbc.Realmd.LogonChallenge.{handle_logon_challenge}
use cmangos_tbc.Realmd.LogonProof.{handle_logon_proof}
use cmangos_tbc.Realmd.Reconnect.{handle_reconnect_challenge, handle_reconnect_proof}
use cmangos_tbc.Realmd.RealmPacket.{handle_realm_list}

-- The variables before the first command.
unfoldable pub start : List ℕ → RealmList → Session
unfolding Srp6.new
start input realm_list = record {
  status = SessionStatus.challenge;
  srp = Srp6.new;
  reconnect_proof = 0;
  login = [];
  safe_login = [];
  token = [];
  os = [];
  platform = [];
  locale = [];
  safe_locale = [];
  build = 0;
  account_security_level = sec_player;
  server_security_salt = 0;
  grid_seed = 0;
  prompt_pin = false;
  input = input;
  sent = [];
  executed = [];
  moment = 0;
  realm_list = realm_list;
}

abbrev pub expected_status : AuthCmd → SessionStatus
expected_status AuthCmd.logon_challenge = SessionStatus.challenge
expected_status AuthCmd.logon_proof = SessionStatus.logon_proof
expected_status AuthCmd.reconnect_challenge = SessionStatus.challenge
expected_status AuthCmd.reconnect_proof = SessionStatus.recon_proof
expected_status AuthCmd.realm_list = SessionStatus.authed
expected_status AuthCmd.xfer_accept = SessionStatus.patch
expected_status AuthCmd.xfer_resume = SessionStatus.patch
expected_status AuthCmd.xfer_cancel = SessionStatus.patch
expected_status AuthCmd.xfer_initiate = SessionStatus.closed
expected_status AuthCmd.xfer_data = SessionStatus.closed

abbrev pub status_eq : SessionStatus → SessionStatus → Bool
status_eq SessionStatus.challenge SessionStatus.challenge = true
status_eq SessionStatus.logon_proof SessionStatus.logon_proof = true
status_eq SessionStatus.recon_proof SessionStatus.recon_proof = true
status_eq SessionStatus.patch SessionStatus.patch = true
status_eq SessionStatus.authed SessionStatus.authed = true
status_eq SessionStatus.closed SessionStatus.closed = true
status_eq _ _ = false

module _ (env : Env) where
  unfoldable pub skip_8 : Session → Done
  unfolding read_with_timeout
  skip_8 s0 = do (_, s) ← read_with_timeout 8 s0; finish s

  -- The handler of each command. A `return` ends the connection as an error does.
  unfoldable pub handle_command : AuthCmd → Session → Done
  unfolding handle_logon_challenge handle_logon_proof handle_reconnect_challenge
      handle_reconnect_proof handle_realm_list skip_8
  handle_command AuthCmd.logon_challenge s = handle_logon_challenge env s
  handle_command AuthCmd.logon_proof s = handle_logon_proof env s
  handle_command AuthCmd.reconnect_challenge s = handle_reconnect_challenge env s
  handle_command AuthCmd.reconnect_proof s = handle_reconnect_proof env s
  handle_command AuthCmd.realm_list s = handle_realm_list env s
  handle_command AuthCmd.xfer_resume s = skip_8 s
  handle_command AuthCmd.xfer_cancel s = (err, s)
  handle_command AuthCmd.xfer_accept s = finish s
  handle_command AuthCmd.xfer_initiate s = (err, s)
  handle_command AuthCmd.xfer_data s = (err, s)

  -- Whether the loop goes on after a handler, and the session.
  abbrev pub after_handler : Done → Session × Bool
  after_handler (ok _, s) = (s, if status_eq s.status SessionStatus.closed then false else true)
  after_handler (err, s) = (s, false)
  after_handler (panicked, s) = (s, false)

  unfoldable pub dispatch : Option AuthCmd → Session → Session × Bool
  unfolding handle_command
  dispatch none s = (s, false)
  dispatch (some cmd) s =
      if status_eq (expected_status cmd) s.status
      then after_handler (handle_command cmd s)
      else (s, false)

  -- The command byte; the connection ends where the client sends no more.
  unfoldable pub take_command : List ℕ → Session → Session × Bool
  unfolding from_u8 dispatch
  take_command [] s = (s, false)
  take_command (byte ∷ rest) s = dispatch (from_u8 byte) (record s { input = rest })

  -- One round of the loop: the session, and whether the loop goes on.
  unfoldable pub round : Session → Session × Bool
  unfolding take_command
  round s = take_command s.input s

  -- The loop. Each round takes a byte at least, so the length of the input is fuel enough.
  unfoldable pub loop : ℕ → Session → Session
  unfolding round
  loop zero s = s
  loop (suc fuel) s = let (s', on) = round s in let rest = loop fuel s' in if on then rest else s'

  unfoldable pub handle_client : List ℕ → RealmList → Session
  unfolding start loop
  handle_client input realm_list = loop (suc (length input)) (start input realm_list)
