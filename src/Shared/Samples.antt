-- ===== src/Shared/Samples.antt =====
-- Sample instances of the parameters: numbers as num-bigint computes them, and stand-in digests.
use cmangos_tbc.Base.{
  ℕ, zero, suc, ◌+◌, ◌-◌, ◌*◌, ◌/◌, ◌%◌, ◌^◌, ◌<◌, ◌≤◌, ◌≡◌, refl, Option, none, some, List, [],
  ◌∷◌, ◌++◌, if◌then◌else◌, ltb, ◌==◌, reverse, length, All, arith, length-reverse,
}
use cmangos_tbc.Base.Bytes.{IsByte, from_le, to_le, length-to_le, to_le-IsByte, pow_256-suc}
use cmangos_tbc.Base.Text.{Text, is_between}
use mathlib.Core.List.{reverse-reverse}
use native.Mathlib.Nat.{pow-suc}
use cmangos_tbc.Shared.Digits.{NumBigint, IsNumBigint}
use cmangos_tbc.Shared.Crypto.{Hashes, IsHashes}

-- The shortest little-endian bytes; the fuel is above the value.
unfoldable le_loop : (fuel n : ℕ) → List ℕ
le_loop zero n = []
le_loop (suc fuel) n =
    let rest = le_loop fuel (n / 256) in if ltb n 256 then n ∷ [] else n % 256 ∷ rest

unfoldable bits_loop : (fuel n : ℕ) → ℕ
bits_loop zero n = 0
bits_loop (suc fuel) n = let rest = bits_loop fuel (n / 2) in if n == 0 then 0 else suc rest

abbrev hex_digit : ℕ → ℕ
hex_digit d = if ltb d 10 then b'0' + d else b'A' + (d - 10)

abbrev nibble : ℕ → Option ℕ
nibble c =
    if is_between b'0' b'9' c
    then some (c - b'0')
    else if is_between b'A' b'F' c
    then some (c - b'A' + 10)
    else if is_between b'a' b'f' c
    then some (c - b'a' + 10)
    else none

unfoldable hex_loop : (fuel n : ℕ) → Text
hex_loop zero n = []
hex_loop (suc fuel) n =
    let rest = hex_loop fuel (n / 16) in
    if ltb n 16 then hex_digit n ∷ [] else hex_digit (n % 16) ∷ rest

abbrev shift_in : Option ℕ → Option ℕ → Option ℕ
shift_in (some d) (some v) = some (d + 16 * v)
shift_in _ _ = none

-- The digits in little-endian order.
unfoldable hex_value : Text → Option ℕ
hex_value [] = some 0
hex_value (c ∷ cs) = shift_in (nibble c) (hex_value cs)

unfoldable parse_digits : Text → Option ℕ
unfolding hex_value
parse_digits [] = none
parse_digits (c ∷ cs) = hex_value (c ∷ cs)

unfoldable pub sample_num : NumBigint
unfolding le_loop bits_loop hex_loop parse_digits
sample_num = record {
  from_bytes_be = λ bs. from_le (reverse bs);
  to_bytes_be = λ n. reverse (le_loop (suc n) n);
  modpow = λ g e m. g ^ e % m;
  bits = λ n. bits_loop (suc n) n;
  parse_hex = λ s. parse_digits (reverse s);
  format_hex = λ n. reverse (hex_loop (suc n) n);
}

le_loop-value : (fuel n : ℕ) → n < fuel → from_le (le_loop fuel n) ≡ n
unfolding le_loop from_le
le_loop-value zero n h = omega arith
le_loop-value (suc fuel) n h = ground (arith, le_loop-value fuel (n / 256))

le_loop-IsByte : (fuel n : ℕ) → All IsByte (le_loop fuel n)
unfolding le_loop
le_loop-IsByte zero n = tt
le_loop-IsByte (suc fuel) n = ground (arith, le_loop-IsByte fuel (n / 256))

le_loop-shortest : (fuel n k : ℕ) → n < 256 ^ suc k → length (le_loop fuel n) ≤ suc k
unfolding le_loop
le_loop-shortest zero n k h = omega arith
le_loop-shortest (suc fuel) n zero h = ground arith
le_loop-shortest (suc fuel) n (suc k) h =
    ground (arith, pow_256-suc (suc k), le_loop-shortest fuel (n / 256) k)

bits_loop-bound : (fuel n : ℕ) → n < fuel → n < 2 ^ bits_loop fuel n
unfolding bits_loop
bits_loop-bound zero n h = omega arith
bits_loop-bound (suc fuel) n h =
    ground (arith, pow-suc 2 (bits_loop fuel (n / 2)), bits_loop-bound fuel (n / 2))

bits_loop-least : (fuel n k : ℕ) → n < 2 ^ k → bits_loop fuel n ≤ k
unfolding bits_loop
bits_loop-least zero n k h = omega arith
bits_loop-least (suc fuel) n zero h = ground arith
bits_loop-least (suc fuel) n (suc k) h = ground (arith, pow-suc 2 k, bits_loop-least fuel (n / 2) k)

nibble-hex_digit : (d : ℕ) → d < 16 → nibble (hex_digit d) ≡ some d
nibble-hex_digit d h = ground arith

hex_value-hex_loop : (fuel n : ℕ) → n < fuel → hex_value (hex_loop fuel n) ≡ some n
unfolding hex_value hex_loop
hex_value-hex_loop zero n h = absurd (omega arith)
hex_value-hex_loop (suc fuel) n h =
    ground (arith, nibble-hex_digit n, nibble-hex_digit (n % 16), hex_value-hex_loop fuel (n / 16))

parse_digits-hex_loop : (n : ℕ) → parse_digits (hex_loop (suc n) n) ≡ some n
unfolding parse_digits hex_loop hex_value
parse_digits-hex_loop n =
    ground (arith, hex_value-hex_loop n (n / 16), nibble-hex_digit n, nibble-hex_digit (n % 16))

pub sample_num-IsNumBigint : IsNumBigint sample_num
unfolding sample_num from_le
sample_num-IsNumBigint = record {
  from_bytes_be-value = λ bs. refl;
  to_bytes_be-value = λ n. rw reverse-reverse (le_loop-value (suc n) n (omega arith));
  to_bytes_be-IsByte = λ n. rw reverse-reverse (le_loop-IsByte (suc n) n);
  to_bytes_be-shortest = λ n k h. rw length-reverse (le_loop-shortest (suc n) n k h);
  modpow-value = λ g e m h. refl;
  bits-bound = λ n. bits_loop-bound (suc n) n (omega arith);
  bits-least = λ n k h. bits_loop-least (suc n) n k h;
  parse_hex-format_hex = λ n. rw reverse-reverse (parse_digits-hex_loop n);
}

-- Digests of the right sizes that depend on the message.
unfoldable pub sample_hashes : Hashes
unfolding from_le to_le
sample_hashes = record {
  sha1 = λ msg. to_le 20 (from_le msg + length msg);
  md5 = λ msg. to_le 16 (from_le msg + length msg);
  hmac = λ key msg. to_le 20 (from_le (key ++ msg) + length msg);
}

pub sample_hashes-IsHashes : IsHashes sample_hashes
unfolding sample_hashes to_le
sample_hashes-IsHashes = record {
  length-sha1 = λ msg. length-to_le 20 (from_le msg + length msg);
  sha1-IsByte = λ msg. to_le-IsByte 20 (from_le msg + length msg);
  length-hmac = λ key msg. length-to_le 20 (from_le (key ++ msg) + length msg);
}
