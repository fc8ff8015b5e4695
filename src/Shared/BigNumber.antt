-- ===== src/Shared/BigNumber.antt =====
-- crates/shared/src/auth/big_number.rs: the wrapper of num-bigint's BigUint.
-- A BigNumber is the value of its `bn`.
pub mod RoundTrip
use cmangos_tbc.Base.{
  ℕ, ◌+◌, ◌-◌, ◌*◌, ◌/◌, ◌%◌, ◌^◌, Bool, Option, none, some, List, [], ◌∷◌, ◌++◌, reverse, length,
  replicate, if◌then◌else◌, ltb, leb, ◌==◌,
}
use cmangos_tbc.Base.Text.{Text, text}
use cmangos_tbc.Base.Space.{trim}
use cmangos_tbc.Shared.Digits.{NumBigint}

abbrev pub BigNumber : Type 0
BigNumber = ℕ

abbrev pub new : BigNumber
new = 0

-- `from_u32`, `from_u64`, `set_dword`, `set_qword`: the value itself.
unfoldable pub from_u32 : ℕ → BigNumber
from_u32 val = val

unfoldable pub from_u64 : ℕ → BigNumber
from_u64 val = val

unfoldable pub set_dword : ℕ → BigNumber → BigNumber
set_dword val bn = val

unfoldable pub set_qword : ℕ → BigNumber → BigNumber
set_qword val bn = val

unfoldable pub is_zero : BigNumber → Bool
is_zero bn = bn == 0

-- How many zero bytes go before the big-endian bytes: `padding_offset`.
abbrev padding_offset : List ℕ → ℕ → ℕ
padding_offset be_bytes min_size =
    let size = if ltb (length be_bytes) min_size then min_size else length be_bytes in
    size - length be_bytes

module _ (num : NumBigint) where
  -- The bytes are little-endian: they are reversed first.
  unfoldable pub set_binary : List ℕ → BigNumber
  set_binary bytes = num.from_bytes_be (reverse bytes)

  -- The new value, and the number of characters processed: 0 on an error, which changes nothing.
  unfoldable pub set_hex_str : Text → BigNumber → BigNumber × ℕ
  set_hex_str hex bn =
      let hex' = trim hex in
      if length hex' == 0
      then (bn, 0)
      else elim (num.parse_hex hex') [ some val ↦ (val, length hex') | none ↦ (bn, 0) ]

  unfoldable pub mod_exp : BigNumber → BigNumber → BigNumber → BigNumber
  mod_exp bn exp modulus = num.modpow bn exp modulus

  -- `bits.div_ceil(8)`
  unfoldable pub get_num_bytes : BigNumber → ℕ
  get_num_bytes bn = (num.bits bn + 7) / 8

  unfoldable pub as_byte_array_be : BigNumber → ℕ → List ℕ
  as_byte_array_be bn min_size =
      let be_bytes = num.to_bytes_be bn in
      replicate (padding_offset be_bytes min_size) 0 ++ be_bytes

  -- Little-endian, with zero bytes at the end up to `min_size`.
  unfoldable pub as_byte_array : BigNumber → ℕ → List ℕ
  as_byte_array bn min_size =
      let be_bytes = num.to_bytes_be bn in
      reverse (replicate (padding_offset be_bytes min_size) 0 ++ be_bytes)

  unfoldable pub as_hex_str : BigNumber → Text
  as_hex_str bn = if bn == 0 then text "0" else num.format_hex bn

-- `to_u32().unwrap_or(0)`
unfoldable pub as_dword : BigNumber → ℕ
as_dword bn = if ltb bn (2 ^ 32) then bn else 0

unfoldable pub exp : BigNumber → BigNumber → BigNumber
exp bn e = bn ^ e

-- The operators `+`, `-`, `*`, `/`, `%`, `+=` and `==`. A difference below zero is zero.
unfoldable pub add : BigNumber → BigNumber → BigNumber
add a b = a + b

unfoldable pub sub : BigNumber → BigNumber → BigNumber
sub a b = if leb b a then a - b else 0

unfoldable pub mul : BigNumber → BigNumber → BigNumber
mul a b = a * b

unfoldable pub div : BigNumber → BigNumber → BigNumber
div a b = a / b

unfoldable pub rem : BigNumber → BigNumber → BigNumber
rem a b = a % b

unfoldable pub add_assign : BigNumber → BigNumber → BigNumber
add_assign a b = a + b

unfoldable pub eq : BigNumber → BigNumber → Bool
eq a b = a == b
