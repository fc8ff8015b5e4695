-- ===== src/Base/Bits.antt =====
-- Facts about the bits of a byte, each checked on all 256 values.
use Prim.Native.Nat.{ℕ, zero, suc, ◌<◌, bit_and, bit_or}
use mathlib.Core.Path.{◌≡◌, refl}
use mathlib.Core.Bool.{Bool, true, ◌&&◌}
use native.Mathlib.Omega.{arith}
use cmangos_tbc.Base.Tests.{◌==◌, ltb, ==_iff, ltb→lt}

-- A test on every value from 0 up to a bound, which is left out.
unfoldable holds_under : (test : ℕ → Bool) (bound : ℕ) → Bool
holds_under test zero = true
holds_under test (suc bound) = holds_under test bound && test bound

holds_under-at :
    (test : ℕ → Bool) (bound value : ℕ)
    → value < bound
    → holds_under test bound ≡ true
    → test value ≡ true
unfolding holds_under
holds_under-at test zero value small all = absurd (omega arith)
holds_under-at test (suc bound) value small all = ground (arith, holds_under-at test bound value)

-- The mask 0x66 and its complement 0x99.
masked : holds_under (λ x. bit_and (bit_and x 0x66) 0x99 == 0) 256 ≡ true
unfolding holds_under
masked = refl

-- Setting the offline bit makes no invalid bit.
valid_offline : holds_under (λ x. (bit_and (bit_or x 0x02) 0x99) == bit_and x 0x99) 256 ≡ true
unfolding holds_under
valid_offline = refl

mask_small : holds_under (λ x. ltb (bit_and x 0x66) 256) 256 ≡ true
unfolding holds_under
mask_small = refl

pub and_mask-lt : (x : ℕ) → x < 256 → bit_and x 0x66 < 256
and_mask-lt x h = ltb→lt _ _ (holds_under-at _ 256 x h mask_small)

pub and_mask-valid : (x : ℕ) → x < 256 → bit_and (bit_and x 0x66) 0x99 ≡ 0
and_mask-valid x h = (==_iff _ _).0 (holds_under-at _ 256 x h masked)

pub or_offline-valid : (x : ℕ) → x < 256 → bit_and (bit_or x 0x02) 0x99 ≡ bit_and x 0x99
or_offline-valid x h = (==_iff _ _).0 (holds_under-at _ 256 x h valid_offline)
