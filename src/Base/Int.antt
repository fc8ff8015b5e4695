-- ===== src/Base/Int.antt =====
-- Signed numbers: the i32 and i64 values that the sources read, and `as` between integer types.
use Prim.Native.Nat.{ℕ, zero, suc, ◌+◌, ◌-◌, ◌*◌, ◌%◌, ◌^◌, ◌<◌}
use mathlib.Core.Bool.{Bool, ◌&&◌}
use mathlib.Core.Option.{Option, none, some}
use mathlib.Core.List.{[], ◌∷◌}
use native.Mathlib.Omega.{arith}
use cmangos_tbc.Base.Tests.{leb, ◌==◌, if◌then◌else◌}
use cmangos_tbc.Base.Text.{Text, is_between}

-- `negsuc n` is -(n + 1).
pub data ℤ : Type 0 where
  pos : ℕ → ℤ
  negsuc : ℕ → ℤ

-- `value as uN`, for the modulus 2 ^ N: two's complement.
unfoldable pub as_unsigned : ℕ → ℤ → ℕ
as_unsigned modulus (pos n) = n % modulus
as_unsigned modulus (negsuc n) = modulus - 1 - n % modulus

-- Equality of signed numbers.
unfoldable pub int_eq : ℤ → ℤ → Bool
int_eq (pos a) (pos b) = a == b
int_eq (negsuc a) (negsuc b) = a == b
int_eq _ _ = Bool.false

digits_bounded : ℕ → ℕ → Text → Option ℕ
digits_bounded limit acc [] = some acc
digits_bounded limit acc (b ∷ bs) =
    let next = acc * 10 + (b - b'0') in
    let rest = digits_bounded limit next bs in
    if is_between b'0' b'9' b && leb next limit then rest else none

-- The number with a minus sign.
abbrev negate : ℕ → ℤ
negate zero = pos 0
negate (suc n) = negsuc n

abbrev map_int : (ℕ → ℤ) → Option ℕ → Option ℤ
map_int f none = none
map_int f (some n) = some (f n)

-- `str::parse::<i32>`: an optional sign, then one digit or more, in the range of the type.
unfoldable pub parse_i32 : Text → Option ℤ
unfolding digits_bounded
parse_i32 [] = none
parse_i32 (b ∷ []) = map_int pos (digits_bounded (2 ^ 31 - 1) 0 (b ∷ []))
parse_i32 (b ∷ c ∷ bs) =
    if b == b'+'
    then map_int pos (digits_bounded (2 ^ 31 - 1) 0 (c ∷ bs))
    else if b == b'-'
    then map_int negate (digits_bounded (2 ^ 31) 0 (c ∷ bs))
    else map_int pos (digits_bounded (2 ^ 31 - 1) 0 (b ∷ c ∷ bs))

pub as_unsigned-lt : (modulus : ℕ) (z : ℤ) → 0 < modulus → as_unsigned modulus z < modulus
unfolding as_unsigned
as_unsigned-lt modulus (pos n) h = omega arith
as_unsigned-lt modulus (negsuc n) h = omega arith
