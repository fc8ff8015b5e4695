-- ===== src/Shared/Crypto/Hmac.antt =====
-- crates/shared/src/auth/hmac_sha1.rs.
use cmangos_tbc.Base.{ℕ, List, [], ◌++◌, replicate}
use cmangos_tbc.Shared.Digits.{NumBigint}
use cmangos_tbc.Shared.BigNumber.{BigNumber, as_byte_array}
use cmangos_tbc.Shared.Crypto.{Hashes}

pub record HmacSha1 : Type 0 where
  pub key : List ℕ
  pub mac : List ℕ
  pub digest : List ℕ

unfoldable pub new : List ℕ → HmacSha1
new key = record { key = key; mac = []; digest = replicate 20 0 }

unfoldable pub update_data : List ℕ → HmacSha1 → HmacSha1
update_data bs h = record h { mac = h.mac ++ bs }

unfoldable pub update_big_number : NumBigint → BigNumber → HmacSha1 → HmacSha1
unfolding update_data
update_big_number num bn h = update_data (as_byte_array num bn 0) h

unfoldable pub finalize : Hashes → HmacSha1 → HmacSha1
finalize hashes h = record h { digest = hashes.hmac h.key h.mac }

unfoldable pub compute_hash : NumBigint → Hashes → BigNumber → HmacSha1 → HmacSha1
unfolding update_big_number finalize
compute_hash num hashes bn h = finalize hashes (update_big_number num bn h)

-- The MAC in one shot.
unfoldable pub hmac_sha1 : Hashes → List ℕ → List ℕ → List ℕ
hmac_sha1 hashes key msg = hashes.hmac key msg
