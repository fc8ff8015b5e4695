-- ===== src/Shared/Crypto/Md5.antt =====
-- crates/shared/src/auth/crypto_hash.rs: `Md5Hash`.
use cmangos_tbc.Base.{ℕ, List, [], ◌++◌, replicate}
use cmangos_tbc.Base.Text.{Text}
use cmangos_tbc.Shared.Crypto.{Hashes}

pub record Md5Hash : Type 0 where
  pub hasher : List ℕ
  pub digest : List ℕ

unfoldable pub new : Md5Hash
new = record { hasher = []; digest = replicate 16 0 }

unfoldable pub initialize : Md5Hash → Md5Hash
initialize md5 = record md5 { hasher = [] }

unfoldable pub update_data_bytes : List ℕ → Md5Hash → Md5Hash
update_data_bytes bs md5 = record md5 { hasher = md5.hasher ++ bs }

unfoldable pub update_data : Text → Md5Hash → Md5Hash
unfolding update_data_bytes
update_data s md5 = update_data_bytes s md5

unfoldable pub finalize : Hashes → Md5Hash → Md5Hash
finalize h md5 = record md5 { digest = h.md5 md5.hasher }
