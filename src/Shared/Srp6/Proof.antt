-- ===== src/Shared/Srp6/Proof.antt =====
-- The proofs that the two sides exchange, and the challenge.
use cmangos_tbc.Base.{
  ℕ, zero, suc, ◌+◌, ◌*◌, ◌^◌, ◌<◌, ◌≤◌, ◌≡◌, ◌∙◌, ◌↔◌, sym, ap, refl, true, arith, List, [], ◌∷◌,
  ◌++◌, length, take, drop, get_or, All, bytes_eq→eq, bytes_eq_refl, append_assoc,
}
use cmangos_tbc.Base.Bytes.{IsByte}
use cmangos_tbc.Base.Text.{Text}
use cmangos_tbc.Shared.Digits.{NumBigint, IsNumBigint}
use cmangos_tbc.Shared.BigNumber.{set_binary, as_byte_array}
use cmangos_tbc.Shared.BigNumber.RoundTrip.{as_byte_array-set_binary, length-as_byte_array}
use cmangos_tbc.Shared.Crypto.{Hashes, IsHashes}
use cmangos_tbc.Shared.Srp6.{
  Srp6, xor_bytes, every_other, interleave, calculate_proof, hash_session_key, proof,
}

pub take_all : (n : ℕ) (xs : List ℕ) → length xs ≡ n → take n xs ≡ xs
take_all zero [] h = refl
take_all zero (x ∷ xs) h = absurd (omega arith)
take_all (suc n) [] h = refl
take_all (suc n) (x ∷ xs) h = ap (λ t. x ∷ t) (take_all n xs (omega arith))

module _ (num : NumBigint) (laws : IsNumBigint num) (hashes : Hashes)
    (sizes : IsHashes hashes) where
  -- The message whose digest both sides send:
  -- (H(N) xor H(g)) || H(username) || s || A || B || K, each number as its shortest bytes.
  abbrev pub proof_message : Text → Srp6 → List ℕ
  proof_message username srp =
      let bytes = λ (x : ℕ). as_byte_array num x 0 in
      xor_bytes (hashes.sha1 (bytes srp.n)) (hashes.sha1 (bytes srp.g))
      ++ (hashes.sha1 username
          ++ (bytes srp.s ++ (bytes srp.big_a ++ (bytes srp.big_b ++ bytes srp.k))))

  calculate_proof-m :
      (username : Text) (srp : Srp6)
      → (calculate_proof num hashes username srp).m
        ≡ set_binary num (hashes.sha1 (proof_message username srp))
  unfolding calculate_proof
  calculate_proof-m username srp = simp append_assoc

  -- After `calculate_proof` a client's proof of 20 bytes is accepted exactly if it is the digest of
  -- the message (H(N) xor H(g)) || H(username) || s || A || B || K, numbers as their shortest bytes.
  pub proof-calculate_proof :
      (username : Text) (srp : Srp6) (client_m : List ℕ)
      → length client_m ≡ 20
      → (proof num hashes client_m (calculate_proof num hashes username srp) ≡ true)
        ↔ (client_m ≡ hashes.sha1 (proof_message username srp))
  unfolding proof
  proof-calculate_proof username srp client_m hl =
      let d = hashes.sha1 (proof_message username srp) in
      let size = sizes.length-sha1 (proof_message username srp) in
      let ours : as_byte_array num (calculate_proof num hashes username srp).m 20 ≡ d =
        ap (λ t. as_byte_array num t 20) (calculate_proof-m username srp)
        ∙ ap (as_byte_array num (set_binary num d)) (sym size)
        ∙ as_byte_array-set_binary num laws d (sizes.sha1-IsByte (proof_message username srp))
            (omega arith) in
      rw (hl, ours, take_all 20 d size)
        (λ h. sym (bytes_eq→eq d client_m h), λ e. rw e (bytes_eq_refl d))

drop-cons : (i : ℕ) (t : List ℕ) → i < length t → drop i t ≡ get_or t i 0 ∷ drop (i + 1) t
drop-cons i [] h = absurd (omega arith)
drop-cons zero (x ∷ xs) h = refl
drop-cons (suc i) (x ∷ xs) h =
    let e : suc i + 1 ≡ suc (i + 1) = omega arith in rw e (drop-cons i xs (omega arith))

length-interleave :
    (xs ys : List ℕ) → length xs ≡ length ys → length (interleave xs ys) ≡ 2 * length xs
unfolding interleave
length-interleave [] [] h = refl
length-interleave [] (y ∷ ys) h = absurd (omega arith)
length-interleave (x ∷ xs) [] h = absurd (omega arith)
length-interleave (x ∷ xs) (y ∷ ys) h = omega (arith, length-interleave xs ys (omega arith))

interleave-IsByte : (xs ys : List ℕ) → All IsByte xs → All IsByte ys → All IsByte (interleave xs ys)
unfolding interleave
interleave-IsByte [] ys hx hy = tt
interleave-IsByte (x ∷ xs) [] hx hy = tt
interleave-IsByte (x ∷ xs) (y ∷ ys) hx hy = (hx.0, (hy.0, interleave-IsByte xs ys hx.1 hy.1))

-- The even and the odd bytes of a stretch of `t`, put together again, are that stretch.
interleave-every_other :
    (n i : ℕ) (t : List ℕ)
    → i + 2 * n ≤ length t
    → interleave (every_other n i t) (every_other n (i + 1) t) ≡ take (2 * n) (drop i t)
unfolding every_other interleave
interleave-every_other zero i t h = refl
interleave-every_other (suc n) i t h =
    let two : 2 * suc n ≡ suc (suc (2 * n)) = omega arith in
    let next : i + 1 + 2 ≡ i + 2 + 1 = omega arith in
    let ii : i + 1 + 1 ≡ i + 2 = omega arith in
    rw (two, next, drop-cons i t (omega arith), drop-cons (i + 1) t (omega arith), ii)
      (ap (λ r. get_or t i 0 ∷ get_or t (i + 1) 0 ∷ r)
        (interleave-every_other n (i + 2) t (omega arith)))

module _ (num : NumBigint) (laws : IsNumBigint num) (hashes : Hashes)
    (sizes : IsHashes hashes) where
  -- The session key S, as 32 little-endian bytes, is exactly its even and odd bytes interleaved,
  -- and the strong session key K, as 40 bytes, is the digests of the two halves interleaved.
  pub hash_session_key_halves :
      (srp : Srp6)
      → srp.big_s < 2 ^ 256
      → let t = as_byte_array num srp.big_s 32 in
        let even = every_other 16 0 t in
        let odd = every_other 16 1 t in
        (interleave even odd ≡ t)
        × (as_byte_array num (hash_session_key num hashes srp).k 40
            ≡ interleave (hashes.sha1 even) (hashes.sha1 odd))
  unfolding hash_session_key
  hash_session_key_halves srp h =
      let t = as_byte_array num srp.big_s 32 in
      let even = every_other 16 0 t in
      let odd = every_other 16 1 t in
      let lt : length t ≡ 32 = length-as_byte_array num laws srp.big_s 31 (omega arith) in
      let vk = interleave (hashes.sha1 even) (hashes.sha1 odd) in
      let le = sizes.length-sha1 even in
      let lo = sizes.length-sha1 odd in
      let lvk : length vk ≡ 40 =
        omega
          (arith, le, lo, length-interleave (hashes.sha1 even) (hashes.sha1 odd) (le ∙ sym lo)) in
      let bytes = interleave-IsByte _ _ (sizes.sha1-IsByte even) (sizes.sha1-IsByte odd) in
      (
        interleave-every_other 16 0 t (omega arith) ∙ take_all 32 t lt,
        ap (as_byte_array num (set_binary num vk)) (sym lvk)
            ∙ as_byte_array-set_binary num laws vk bytes (omega arith),
      )
