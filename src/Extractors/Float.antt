-- ===== src/Extractors/Float.antt =====
-- What crates/extractors computes with f32 values: their operations are parameters, a value is its
-- bit pattern, and `clamp … as u8` gives a byte.
use cmangos_tbc.Base.{ℕ, ◌<◌, ◌^◌, ◌≡◌, Bool}

pub record FloatOps : Type 0 where
  pub lt : ℕ → ℕ → Bool
  pub eq : ℕ → ℕ → Bool
  pub add : ℕ → ℕ → ℕ
  pub sub : ℕ → ℕ → ℕ
  pub mul : ℕ → ℕ → ℕ
  pub div : ℕ → ℕ → ℕ
  pub abs : ℕ → ℕ
  pub neg : ℕ → ℕ
  pub sin : ℕ → ℕ
  pub cos : ℕ → ℕ
  pub min : ℕ → ℕ → ℕ
  pub max : ℕ → ℕ → ℕ
  -- `.clamp(0.0, 255.0) as u8` and `.clamp(0.0, 65535.0) as u16`.
  pub clamp_u8 : ℕ → ℕ
  pub clamp_u16 : ℕ → ℕ
  -- An unsigned integer `as f32`.
  pub from_int : ℕ → ℕ

-- What the casts promise: the value fits its type. Negation flips the sign bit.
pub record FloatLaws (float : FloatOps) : Type 0 where
  pub clamp_u8_small : (v : ℕ) → float.clamp_u8 v < 2 ^ 8
  pub clamp_u16_small : (v : ℕ) → float.clamp_u16 v < 2 ^ 16
  pub neg_small : (v : ℕ) → v < 2 ^ 32 → float.neg v < 2 ^ 32
  pub neg_neg : (v : ℕ) → v < 2 ^ 32 → float.neg (float.neg v) ≡ v
