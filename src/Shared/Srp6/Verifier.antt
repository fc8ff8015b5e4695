-- ===== src/Shared/Srp6/Verifier.antt =====
-- The password verifier, and the setters' errors.
use cmangos_tbc.Base.{
  ℕ, suc, ◌+◌, ◌%◌, ◌^◌, ◌<◌, ◌≤◌, ◌≡◌, ◌≢◌, ◌∙◌, refl, ◌-◌, ◌/◌, All-append, le→leb, true, arith,
  List, ◌++◌, length, replicate, reverse, All, length-append, length-replicate, length-reverse, min,
}
use mathlib.Core.List.{reverse-reverse}
use mathlib.Core.Path.{subst}
use cmangos_tbc.Base.Bytes.{IsByte, from_le, from_le_bound, from_le-pad}
use cmangos_tbc.Base.Text.{Text}
use cmangos_tbc.Shared.Digits.{NumBigint, IsNumBigint}
use cmangos_tbc.Shared.BigNumber.{set_hex_str, as_byte_array}
use cmangos_tbc.Shared.BigNumber.RoundTrip.{
  from_le-injective, length-as_byte_array_short, from_le-as_byte_array, as_byte_array-IsByte,
  zeros-IsByte, set_binary-value,
}
use cmangos_tbc.Shared.Crypto.{Hashes}
use cmangos_tbc.Shared.Srp6.{Srp6, restore_digest, calculate_verifier}
use cmangos_tbc.Shared.Srp6.Proof.{take_all}

module _ (num : NumBigint) (laws : IsNumBigint num) (hashes : Hashes) where
  -- A digest of 20 bytes whose value was read as a number comes back whole, leading zeros included.
  restore_digest-from_le :
      (d : List ℕ)
      → length d ≡ 20
      → All IsByte (reverse d)
      → restore_digest num hashes (from_le (reverse d)) ≡ d
  unfolding restore_digest
  restore_digest-from_le d hl hb =
      let i = from_le (reverse d) in
      let vi = as_byte_array num i 0 in
      let lr : length (reverse d) ≡ 20 = length-reverse d ∙ hl in
      let hi : i < 256 ^ 20 = subst (λ k. i < 256 ^ k) lr (from_le_bound (reverse d) hb) in
      let short : length vi ≤ 20 =
        omega (arith, length-as_byte_array_short num laws i, laws.to_bytes_be-shortest i 19 hi) in
      let fits : (num.bits i + 7) / 8 ≤ 20 = omega (arith, laws.bits-least i 160 (omega arith)) in
      let m : min (length vi) 20 ≡ length vi = omega arith in
      let whole : vi ++ replicate (20 - length vi) 0 ≡ reverse d =
        from_le-injective _ (reverse d)
          (All-append IsByte vi _ (as_byte_array-IsByte num laws i 0)
            (zeros-IsByte (20 - length vi)))
          hb
          (length-append vi (replicate (20 - length vi) 0)
            ∙ omega (arith, length-replicate {0} (20 - length vi) (let z : ℕ = 0 in z)))
          (from_le-pad vi (20 - length vi) ∙ from_le-as_byte_array num laws i 0) in
      rw (le→leb _ _ fits, m, take_all (length vi) vi refl, whole) (reverse-reverse d)

  -- Where the salt parses to a number that is not 0 and `ri` parses to the value of a SHA-1 digest
  -- `d`, leading zeros of `d` or not, the verifier is g^x mod N for x = SHA1(s || d), s as its
  -- shortest bytes; nothing but the salt and the verifier changes.
  pub calculate_verifier_value :
      (ri salt : Text) (srp : Srp6) (d : List ℕ) (s' i j : ℕ)
      → 0 < srp.n
      → length d ≡ 20
      → All IsByte (reverse d)
      → set_hex_str num ri 0 ≡ (from_le (reverse d), i)
      → set_hex_str num salt srp.s ≡ (s', suc j)
      → s' ≢ 0
      → calculate_verifier num hashes ri salt srp ≡ (
        record srp {
          s = s';
          v = srp.g ^ from_le (hashes.sha1 (as_byte_array num s' 0 ++ d)) % srp.n;
        },
        true,
      )
  unfolding calculate_verifier
  calculate_verifier_value ri salt srp d s' i j hn hl hb hri hs nz =
      let back = restore_digest-from_le d hl hb in
      let digest = hashes.sha1 (as_byte_array num s' 0 ++ d) in
      rw
        (
          hs,
          hri,
          back,
          set_binary-value num laws digest,
          laws.modpow-value srp.g (from_le digest) srp.n hn,
        )
        (ground arith)
