-- ===== src/Realmd/Checks/Token.antt =====
-- The one-time token against RFC 4226 and RFC 6238, which describe it.
use cmangos_tbc.Base.{
  ℕ, ◌+◌, ◌*◌, ◌/◌, ◌%◌, ◌^◌, ◌<◌, ◌≤◌, ◌≡◌, ◌∙◌, refl, sym, ap, Option-cases, inl, inr, ◌⊎◌, none,
  some, List, [], ◌∷◌, length, get_or, take, drop, reverse, length-reverse, arith, zero, suc,
}
use mathlib.Core.List.{reverse-reverse}
use cmangos_tbc.Base.Bytes.{to_le, from_le, from_le-to_le, length-to_le}
use cmangos_tbc.Base.Text.{Text}
use cmangos_tbc.Base.Int.{pos, negsuc}
use cmangos_tbc.Shared.Base32.{base32_decode}
use cmangos_tbc.Shared.Crypto.{IsHashes}
use cmangos_tbc.Shared.Crypto.Hmac.{hmac_sha1}
use cmangos_tbc.Realmd.Env.{Env}
use cmangos_tbc.Realmd.Checks.{truncate, token_of_step, generate_token}

-- A number from its bytes, the highest first.
abbrev pub from_be : List ℕ → ℕ
from_be bs = from_le (reverse bs)

-- The value of a token for a MAC: four bytes from the place that the low four bits of the last byte
-- give, without the highest bit, and of this number the last six decimal digits.
abbrev pub token_value : List ℕ → ℕ
token_value mac = from_be (take 4 (drop (get_or mac 19 0 % 16) mac)) % 2 ^ 31 % 10 ^ 6

from_be-four :
    (k : ℕ) (xs : List ℕ)
    → k + 4 ≤ length xs
    → from_be (take 4 (drop k xs))
      ≡ get_or xs k 0 * 2 ^ 24
        + get_or xs (k + 1) 0 * 2 ^ 16
        + get_or xs (k + 2) 0 * 2 ^ 8
        + get_or xs (k + 3) 0
unfolding from_le
from_be-four zero (a ∷ b ∷ c ∷ d ∷ xs) h = omega arith
from_be-four zero (a ∷ b ∷ c ∷ []) h = absurd (omega arith)
from_be-four zero (a ∷ b ∷ []) h = absurd (omega arith)
from_be-four zero (a ∷ []) h = absurd (omega arith)
from_be-four zero [] h = absurd (omega arith)
from_be-four (suc k) [] h = absurd (omega arith)
from_be-four (suc k) (x ∷ xs) h =
    let at1 : suc k + 1 ≡ suc (k + 1) = omega arith in
    let at2 : suc k + 2 ≡ suc (k + 2) = omega arith in
    let at3 : suc k + 3 ≡ suc (k + 3) = omega arith in
    rw (at1, at2, at3) (from_be-four k xs (omega arith))

truncate-token_value :
    (env : Env) (mac : List ℕ) → length mac ≡ 20 → truncate env mac ≡ token_value mac
unfolding truncate
truncate-token_value env mac size =
    let four = from_be-four (get_or mac 19 0 % 16) mac (omega arith) in
    ap (λ word. word % 2 ^ 31 % 10 ^ 6) (sym four)

-- The token of a key that does not decode is -1. That of any other key is taken from the key's MAC of
-- a message of eight bytes, which are the number of the half minute, the highest byte first: the last
-- six decimal digits of the number, without its top bit, that four bytes of the MAC make, from the place
-- that the low four bits of its last byte give. The MAC
-- has 20 bytes, and the clock is before 2^64 seconds.
pub generate_token_value :
    (env : Env) (seconds : ℕ) (key : Text)
    → IsHashes env.hashes
    → seconds < 2 ^ 64
    → ((base32_decode env.base32 key ≡ none) × (generate_token env seconds key ≡ negsuc 0))
      ⊎ ((decoded message : List ℕ) × ((base32_decode env.base32 key ≡ some decoded)
            × ((length message ≡ 8)
                × ((from_be message ≡ seconds / 30)
                    × (generate_token env seconds key
                        ≡ pos (token_value (env.hashes.hmac decoded message)))))))
unfolding generate_token token_of_step hmac_sha1
generate_token_value env seconds key laws small =
    elim (Option-cases (base32_decode env.base32 key)) [
      | inl bad ↦ rw (token_of_step, bad) (inl (refl, refl))
      | inr (decoded, good) ↦
          let step = seconds / 30 in
          let message = reverse (to_le 8 step) in
          let size : length message ≡ 8 = length-reverse {0} (to_le 8 step) ∙ length-to_le 8 step in
          let value : from_be message ≡ step =
            ap from_le (reverse-reverse (to_le 8 step)) ∙ from_le-to_le 8 step (omega arith) in
          let token : generate_token env seconds key
              ≡ pos (token_value (env.hashes.hmac decoded message)) =
            rw (token_of_step, good)
              (ap pos (truncate-token_value env _ (laws.length-hmac decoded message))) in
          inr (decoded, message, (good, (size, (value, token))))
    ]
