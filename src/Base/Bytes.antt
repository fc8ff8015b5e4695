-- ===== src/Base/Bytes.antt =====
-- Bytes and little-endian numbers: what the byteorder calls and `from_le_bytes` compute.
use Prim.Native.Nat.{ℕ, zero, suc, ◌+◌, ◌*◌, ◌/◌, ◌%◌, ◌^◌, ◌<◌}
use mathlib.Core.Path.{◌≡◌, refl, ap}
use mathlib.Core.List.{List, [], ◌∷◌, ◌++◌}
use native.Mathlib.Omega.{arith}
use native.Mathlib.Nat.{pow-suc}
use cmangos_tbc.Base.Tests.{All}
use cmangos_tbc.Base.Lists.{length, replicate}

abbrev pub IsByte : ℕ → Type 0
IsByte b = b < 256

-- The value of a little-endian byte string.
unfoldable pub from_le : List ℕ → ℕ
from_le [] = 0
from_le (b ∷ bs) = b + 256 * from_le bs

-- The `k` low bytes of `v`, the lowest first.
unfoldable pub to_le : ℕ → ℕ → List ℕ
to_le zero v = []
to_le (suc k) v = (v % 256) ∷ to_le k (v / 256)

pub length-to_le : (k v : ℕ) → length (to_le k v) ≡ k
unfolding to_le
length-to_le zero v = refl
length-to_le (suc k) v = ap suc (length-to_le k (v / 256))

pub to_le-IsByte : (k v : ℕ) → All IsByte (to_le k v)
unfolding to_le
to_le-IsByte zero v = tt
to_le-IsByte (suc k) v = (omega arith, to_le-IsByte k (v / 256))

pub pow_256-suc : (k : ℕ) → 256 ^ suc k ≡ 256 * 256 ^ k
pow_256-suc k = omega (arith, pow-suc 256 k)

pub from_le-to_le : (k v : ℕ) → v < 256 ^ k → from_le (to_le k v) ≡ v
unfolding from_le to_le
from_le-to_le zero v h = omega arith
from_le-to_le (suc k) v h = omega (arith, from_le-to_le k (v / 256) (omega (arith, pow_256-suc k)))

pub from_le_bound : (bs : List ℕ) → All IsByte bs → from_le bs < 256 ^ length bs
unfolding from_le
from_le_bound [] h = omega arith
from_le_bound (b ∷ bs) h = let ih = from_le_bound bs h.1 in omega (arith, pow_256-suc (length bs))

pub to_le-from_le : (bs : List ℕ) → All IsByte bs → to_le (length bs) (from_le bs) ≡ bs
unfolding from_le to_le
to_le-from_le [] h = refl
to_le-from_le (b ∷ bs) h =
    let lo : (b + 256 * from_le bs) % 256 ≡ b = omega arith in
    let hi : (b + 256 * from_le bs) / 256 ≡ from_le bs = omega arith in
    rw (lo, hi) (ap (λ t. b ∷ t) (to_le-from_le bs h.1))

-- Zero bytes at the high end do not change the value.
pub from_le-pad : (bs : List ℕ) (k : ℕ) → from_le (bs ++ replicate k 0) ≡ from_le bs
unfolding from_le
from_le-pad [] zero = refl
from_le-pad [] (suc k) = omega (arith, from_le-pad [] k)
from_le-pad (b ∷ bs) k = omega (arith, from_le-pad bs k)
