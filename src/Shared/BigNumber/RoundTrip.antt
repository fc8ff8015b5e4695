-- ===== src/Shared/BigNumber/RoundTrip.antt =====
-- Little-endian byte strings and values: `set_binary` and `as_byte_array` are inverse.
use cmangos_tbc.Base.{
  ℕ, ◌^◌, ◌<◌, ◌≡◌, ◌∙◌, sym, ap, refl, suc, zero, List, [], ◌∷◌, ◌++◌, reverse, length, arith, All,
  replicate, length-append, length-replicate, length-reverse, All-append,
}
use mathlib.Core.List.{reverse-append, reverse-reverse, reverse-cons}
use cmangos_tbc.Base.Bytes.{IsByte, from_le, from_le_bound, to_le-from_le, from_le-pad}
use cmangos_tbc.Shared.Digits.{NumBigint, IsNumBigint}
use cmangos_tbc.Shared.BigNumber.{padding_offset, set_binary, as_byte_array}

replicate-snoc : (k : ℕ) → replicate k 0 ++ (let z : List ℕ = 0 ∷ [] in z) ≡ 0 ∷ replicate k 0
replicate-snoc zero = refl
replicate-snoc (suc k) = ap (λ t. 0 ∷ t) (replicate-snoc k)

reverse-zeros : (k : ℕ) → reverse (let z : List ℕ = replicate k 0 in z) ≡ replicate k 0
reverse-zeros zero = refl
reverse-zeros (suc k) = rw (reverse-cons, reverse-zeros k) (replicate-snoc k)

pub zeros-IsByte : (k : ℕ) → All IsByte (replicate k 0)
zeros-IsByte zero = tt
zeros-IsByte (suc k) = (omega arith, zeros-IsByte k)

-- Equal lengths and equal values make equal byte strings.
pub from_le-injective :
    (xs ys : List ℕ)
    → All IsByte xs
    → All IsByte ys
    → length xs ≡ length ys
    → from_le xs ≡ from_le ys
    → xs ≡ ys
from_le-injective xs ys hx hy hl hv = sym (to_le-from_le xs hx) ∙ rw (hl, hv) (to_le-from_le ys hy)

module _ (num : NumBigint) (laws : IsNumBigint num) where
  -- The bytes of a value, padded to a size that holds it: exactly that many.
  pub length-as_byte_array :
      (bn k : ℕ) → bn < 256 ^ suc k → length (as_byte_array num bn (suc k)) ≡ suc k
  unfolding as_byte_array
  length-as_byte_array bn k h =
      let be = num.to_bytes_be bn in
      rw length-reverse (
        ground (
          arith,
          laws.to_bytes_be-shortest bn k,
          length-append {0} (replicate (padding_offset be (suc k)) 0) be,
          length-replicate {0} (padding_offset be (suc k)) (let z : ℕ = 0 in z),
        ))

  -- With no minimum there is no padding.
  pub length-as_byte_array_short :
      (bn : ℕ) → length (as_byte_array num bn 0) ≡ length (num.to_bytes_be bn)
  unfolding as_byte_array
  length-as_byte_array_short bn =
      let be = num.to_bytes_be bn in
      rw length-reverse (
        ground (
          arith,
          length-append {0} (replicate (padding_offset be 0) 0) be,
          length-replicate {0} (padding_offset be 0) (let z : ℕ = 0 in z),
        ))

  padded : (n : ℕ) (bn : ℕ) → from_le (reverse (replicate n 0 ++ num.to_bytes_be bn)) ≡ bn
  padded n bn = rw (reverse-append, reverse-zeros n, from_le-pad) (laws.to_bytes_be-value bn)

  padded-IsByte : (n bn : ℕ) → All IsByte (reverse (replicate n 0 ++ num.to_bytes_be bn))
  padded-IsByte n bn =
      rw (reverse-append, reverse-zeros n)
        (All-append IsByte _ _ (laws.to_bytes_be-IsByte bn) (zeros-IsByte n))

  pub from_le-as_byte_array : (bn min_size : ℕ) → from_le (as_byte_array num bn min_size) ≡ bn
  unfolding as_byte_array
  from_le-as_byte_array bn min_size = padded (padding_offset (num.to_bytes_be bn) min_size) bn

  pub as_byte_array-IsByte : (bn min_size : ℕ) → All IsByte (as_byte_array num bn min_size)
  unfolding as_byte_array
  as_byte_array-IsByte bn min_size = padded-IsByte (padding_offset (num.to_bytes_be bn) min_size) bn

  pub set_binary-value : (bs : List ℕ) → set_binary num bs ≡ from_le bs
  unfolding set_binary
  set_binary-value bs = laws.from_bytes_be-value (reverse bs) ∙ ap from_le (reverse-reverse bs)

  -- A value is read back from its bytes, whatever the padding.
  pub set_binary-as_byte_array :
      (bn min_size : ℕ) → set_binary num (as_byte_array num bn min_size) ≡ bn
  set_binary-as_byte_array bn min_size =
      set_binary-value (as_byte_array num bn min_size) ∙ from_le-as_byte_array bn min_size

  -- A byte string that is not empty is read back from its value, at its own length.
  pub as_byte_array-set_binary :
      (bs : List ℕ)
      → All IsByte bs
      → 0 < length bs
      → as_byte_array num (set_binary num bs) (length bs) ≡ bs
  as_byte_array-set_binary [] h hl = absurd (omega arith)
  as_byte_array-set_binary (b ∷ bs) h hl =
      from_le-injective _ (b ∷ bs) (as_byte_array-IsByte _ _) h
        (length-as_byte_array (set_binary num (b ∷ bs)) (length bs)
          (rw (set_binary-value (b ∷ bs)) (from_le_bound (b ∷ bs) h)))
        (from_le-as_byte_array _ _ ∙ set_binary-value (b ∷ bs))
