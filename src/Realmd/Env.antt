-- ===== src/Realmd/Env.antt =====
-- What a connection meets outside the code: the client, the database, the clock, the random source
-- and the crates. Every answer may depend on the moment, which counts the calls made so far.
use cmangos_tbc.Base.{ℕ, Bool, Option, List}
use cmangos_tbc.Base.Text.{Text}
use cmangos_tbc.Shared.Digits.{NumBigint}
use cmangos_tbc.Shared.Crypto.{Hashes}
use cmangos_tbc.Shared.Config.{Config}
use cmangos_tbc.Shared.Database.{Row}

-- The SELECT statements of auth_socket.rs, with what each splices into its text.
pub data Query : Type 0 where
  ip_ban : (escaped_ip : Text) → Query
  account : (safe_login : Text) → Query
  account_ban : (account_id : ℕ) → Query
  failed_logins : (safe_login : Text) → Query
  account_id : (safe_login : Text) → Query
  session_key : (safe_login : Text) → Query
  account_level : (safe_login : Text) → Query
  char_count : (realm_id account_id : ℕ) → Query

-- The statements that change the database, likewise.
pub data Statement : Type 0 where
  count_failed_login : (safe_login : Text) → Statement
  ban_account : (account_id ban_time : ℕ) → Statement
  ban_ip : (escaped_ip : Text) (ban_time : ℕ) → Statement
  store_session : (k_hex safe_locale os platform safe_login : Text) → Statement
  record_login : (account_id : ℕ) (escaped_ip : Text) → Statement
  create_account : (safe_login v_hex s_hex : Text) (expansion : ℕ) → Statement

pub data Reply : Type 0 where
  failed no_row : Reply
  row : Row → Reply

pub record Env : Type 0 where
  pub num : NumBigint
  pub hashes : Hashes
  -- `data_encoding::BASE32.decode`
  pub base32 : List ℕ → Option (List ℕ)
  -- `str::to_uppercase`
  pub to_uppercase : Text → Text
  pub config : Config
  pub env_var : Text → Option Text
  -- `addr.ip().to_string()`
  pub ip : Text
  pub query_one : ℕ → Query → Reply
  pub query_realms : ℕ → Option (List Row)
  pub execute : ℕ → Statement → Bool
  pub write_ok : ℕ → Bool
  -- a random number of so many bits
  pub random : ℕ → (num_bits : ℕ) → ℕ
  -- seconds since the epoch
  pub now : ℕ → ℕ
