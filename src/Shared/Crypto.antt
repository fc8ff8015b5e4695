-- ===== src/Shared/Crypto.antt =====
-- crates/shared/src/auth/crypto_hash.rs and hmac_sha1.rs: the wrappers of the hash crates.
-- The compression functions are parameters; a hasher is the bytes that it has absorbed.
pub mod Sha1
pub mod Md5
pub mod Hmac
use cmangos_tbc.Base.{ℕ, ◌≡◌, List, [], ◌∷◌, ◌++◌, replicate, length, All}
use cmangos_tbc.Base.Bytes.{IsByte}
use cmangos_tbc.Base.Text.{Text}
use cmangos_tbc.Shared.Digits.{NumBigint}
use cmangos_tbc.Shared.BigNumber.{BigNumber, as_byte_array}

-- The crates sha1, md-5 and hmac: a digest of a message, and a code of a key and a message.
pub record Hashes : Type 0 where
  pub sha1 : List ℕ → List ℕ
  pub md5 : List ℕ → List ℕ
  pub hmac : List ℕ → List ℕ → List ℕ

-- The sizes of their digests.
pub record IsHashes (h : Hashes) : Type 0 where
  pub length-sha1 : (msg : List ℕ) → length (h.sha1 msg) ≡ 20
  pub sha1-IsByte : (msg : List ℕ) → All IsByte (h.sha1 msg)
  pub length-hmac : (key msg : List ℕ) → length (h.hmac key msg) ≡ 20
