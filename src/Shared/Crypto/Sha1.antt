-- ===== src/Shared/Crypto/Sha1.antt =====
-- crates/shared/src/auth/crypto_hash.rs: `Sha1Hash`.
use cmangos_tbc.Base.{ℕ, List, [], ◌∷◌, ◌++◌, replicate}
use cmangos_tbc.Base.Text.{Text}
use cmangos_tbc.Shared.Digits.{NumBigint}
use cmangos_tbc.Shared.BigNumber.{BigNumber, as_byte_array}
use cmangos_tbc.Shared.Crypto.{Hashes}

pub record Sha1Hash : Type 0 where
  pub hasher : List ℕ
  pub digest : List ℕ

unfoldable pub new : Sha1Hash
new = record { hasher = []; digest = replicate 20 0 }

unfoldable pub initialize : Sha1Hash → Sha1Hash
initialize sha = record sha { hasher = [] }

unfoldable pub update_data_bytes : List ℕ → Sha1Hash → Sha1Hash
update_data_bytes bs sha = record sha { hasher = sha.hasher ++ bs }

unfoldable pub update_data : Text → Sha1Hash → Sha1Hash
unfolding update_data_bytes
update_data s sha = update_data_bytes s sha

unfoldable pub update_big_numbers : NumBigint → List BigNumber → Sha1Hash → Sha1Hash
unfolding update_data_bytes
update_big_numbers num [] sha = sha
update_big_numbers num (bn ∷ bns) sha =
    update_big_numbers num bns (update_data_bytes (as_byte_array num bn 0) sha)

-- The hasher is cloned: it keeps what it has absorbed.
unfoldable pub finalize : Hashes → Sha1Hash → Sha1Hash
finalize h sha = record sha { digest = h.sha1 sha.hasher }
