-- ===== src/Shared/Digits.antt =====
-- crates.io num-bigint: what the sources call of `BigUint`. A value is a natural number; its `+`,
-- `*` and `%` are those of the natural numbers, and the conversions are parameters with their laws.
use cmangos_tbc.Base.{ℕ, ◌^◌, ◌%◌, ◌<◌, ◌≤◌, ◌≡◌, Option, some, List, reverse, length, All, suc}
use cmangos_tbc.Base.Bytes.{IsByte, from_le}
use cmangos_tbc.Base.Text.{Text}

pub record NumBigint : Type 0 where
  pub from_bytes_be : List ℕ → ℕ
  pub to_bytes_be : ℕ → List ℕ
  pub modpow : ℕ → ℕ → ℕ → ℕ
  pub bits : ℕ → ℕ
  -- `BigUint::parse_bytes(_, 16)` and `format!("{:X}", _)`
  pub parse_hex : Text → Option ℕ
  pub format_hex : ℕ → Text

-- The documented behaviour of those calls.
pub record IsNumBigint (b : NumBigint) : Type 0 where
  -- the big-endian value of a byte string
  pub from_bytes_be-value : (bs : List ℕ) → b.from_bytes_be bs ≡ from_le (reverse bs)
  -- the shortest big-endian byte string of a value, one byte for zero
  pub to_bytes_be-value : (n : ℕ) → from_le (reverse (b.to_bytes_be n)) ≡ n
  pub to_bytes_be-IsByte : (n : ℕ) → All IsByte (reverse (b.to_bytes_be n))
  pub to_bytes_be-shortest : (n k : ℕ) → n < 256 ^ suc k → length (b.to_bytes_be n) ≤ suc k
  pub modpow-value : (g e m : ℕ) → 0 < m → b.modpow g e m ≡ g ^ e % m
  pub bits-bound : (n : ℕ) → n < 2 ^ b.bits n
  pub bits-least : (n k : ℕ) → n < 2 ^ k → b.bits n ≤ k
  pub parse_hex-format_hex : (n : ℕ) → b.parse_hex (b.format_hex n) ≡ some n
