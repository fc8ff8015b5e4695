-- ===== src/Realmd/Session.antt =====
-- crates/realmd/src/auth_socket.rs: the variables of `handle_client`, and its input and output.
use cmangos_tbc.Base.{ℕ, suc, Bool, List, [], ◌∷◌, ◌++◌, if◌then◌else◌, ltb, length, take, drop}
use cmangos_tbc.Base.Text.{Text}
use cmangos_tbc.Shared.BigNumber.{BigNumber}
use cmangos_tbc.Shared.Srp6.{Srp6}
use cmangos_tbc.Realmd.RealmList.{RealmList}
use cmangos_tbc.Realmd.Env.{Env, Query, Statement, Reply}

pub data SessionStatus : Type 0 where
  challenge logon_proof recon_proof patch authed closed : SessionStatus

pub record Session : Type 0 where
  pub status : SessionStatus
  pub srp : Srp6
  pub reconnect_proof : BigNumber
  pub login : Text
  pub safe_login : Text
  pub token : Text
  pub os : Text
  pub platform : Text
  pub locale : Text
  pub safe_locale : Text
  pub build : ℕ
  pub account_security_level : ℕ
  pub server_security_salt : BigNumber
  pub grid_seed : ℕ
  pub prompt_pin : Bool
  -- the bytes that still arrive from the client
  pub input : List ℕ
  -- the packets sent, the first one first
  pub sent : List (List ℕ)
  -- the statements that were issued to the database
  pub executed : List Statement
  -- how many calls were made to the outside
  pub moment : ℕ
  -- the shared list, as this connection finds it
  pub realm_list : RealmList

-- How a step ends: a value, an `Err` that `?` passes on, or a panic.
pub data Result (A : Type 0) : Type 0 where
  ok : A → Result A
  err panicked : Result A

-- A result, and the session after it.
abbrev pub Step : Type 0 → Type 0
Step A = Result A × Session

abbrev pub Done : Type 0
Done = Step (Unit {0})

infixl 5 ◌>>=◌
abbrev pub ◌>>=◌ : {A B : Type 0} → Step A → (A × Session → Step B) → Step B
(ok a, s) >>= f = f (a, s)
(err, s) >>= f = (err, s)
(panicked, s) >>= f = (panicked, s)

-- `Ok(())`
abbrev pub finish : Session → Done
finish s = (ok tt, s)

abbrev pub set_status : SessionStatus → Session → Session
set_status status s = record s { status = status }

-- `read_with_timeout`: `n` bytes, or an error if the client closes or stalls before.
unfoldable pub read_with_timeout : ℕ → Session → Step (List ℕ)
read_with_timeout n s =
    if ltb (length s.input) n
    then (err, record s { input = [] })
    else (ok (take n s.input), record s { input = drop n s.input })

-- A moment passes with every call to the outside.
abbrev pub tick : Session → Session
tick s = record s { moment = suc s.moment }

module _ (env : Env) where
  -- `write_with_timeout`
  unfoldable pub write_with_timeout : List ℕ → Session → Done
  write_with_timeout bytes s =
      if env.write_ok s.moment
      then (ok tt, record s { sent = s.sent ++ (bytes ∷ []); moment = suc s.moment })
      else (err, tick s)

  -- `db.query_one(_).await`
  abbrev pub query_one : Query → Session → Reply
  query_one q s = env.query_one s.moment q

  -- `let _ = db.execute(_).await`
  abbrev pub execute : Statement → Session → Session
  execute statement s = record s {
    executed = s.executed ++ (statement ∷ []);
    moment = suc s.moment;
  }
