-- ===== src/Shared/Srp6/SessionKey.antt =====
-- The session key of SRP6: the safeguard on A, and that server and client compute one secret.
use cmangos_tbc.Base.{
  ℕ, ◌+◌, ◌-◌, ◌*◌, ◌%◌, ◌^◌, ◌<◌, ◌≤◌, ◌≡◌, ◌∙◌, sym, ap, true, not, some, ◌==◌, arith, List,
}
use native.Mathlib.Nat.{mod-mod, mod-add-mod, add-mul-mod_self_left}
use cmangos_tbc.Base.Bytes.{from_le}
use cmangos_tbc.Base.Modular.{pow-add, pow-mul, mod-mul-mod, mul-mod-mod, mod-pow}
use cmangos_tbc.Shared.Digits.{NumBigint, IsNumBigint}
use cmangos_tbc.Shared.BigNumber.{as_byte_array}
use cmangos_tbc.Shared.BigNumber.RoundTrip.{set_binary-value, set_binary-as_byte_array}
use cmangos_tbc.Shared.Crypto.{Hashes}
use cmangos_tbc.Shared.Srp6.{Srp6, calculate_host_public_ephemeral, calculate_session_key}

-- What the client computes from its password's x, its secret a and the challenge B:
-- (B - 3 * g^x)^(a + u * x) modulo N, where u is the scrambler.
abbrev pub client_session_key : (n g x a u big_b : ℕ) → ℕ
client_session_key n g x a u big_b = ((big_b + 3 * (n - g ^ x % n)) % n) ^ (a + u * x) % n

-- B without the three verifiers is g^b.
unmask : (n v w : ℕ) → 0 < n → v ≤ n → ((v * 3 + w) % n + 3 * (n - v)) % n ≡ w % n
unmask n v w hn hv =
    let e : v * 3 + w + 3 * (n - v) ≡ w + n * 3 = omega arith in
    mod-add-mod (v * 3 + w) n (3 * (n - v)) ∙ ap (λ t. t % n) e ∙ add-mul-mod_self_left w n 3

client_power :
    (n g x a b u : ℕ)
    → 0 < n
    → client_session_key n g x a u ((g ^ x % n * 3 + g ^ b % n) % n) ≡ g ^ (b * (a + u * x)) % n
client_power n g x a b u hn =
    ap (λ t. t ^ (a + u * x) % n)
      (unmask n (g ^ x % n) (g ^ b % n) hn (omega arith) ∙ mod-mod (g ^ b) n)
    ∙ mod-pow (g ^ b) (a + u * x) n
    ∙ ap (λ t. t % n) (pow-mul g b (a + u * x))

server_power :
    (n g x a b u : ℕ) → ((g ^ a % n) * ((g ^ x % n) ^ u % n)) ^ b % n ≡ g ^ (b * (a + u * x)) % n
server_power n g x a b u =
    let e : (a + x * u) * b ≡ b * (a + u * x) = omega arith in
    ap (λ t. ((g ^ a % n) * t) ^ b % n) (mod-pow (g ^ x) u n)
    ∙ sym (mod-pow ((g ^ a % n) * ((g ^ x) ^ u % n)) b n)
    ∙ ap (λ t. t ^ b % n)
        (mod-mul-mod (g ^ a) ((g ^ x) ^ u % n) n ∙ mul-mod-mod (g ^ a) ((g ^ x) ^ u) n)
    ∙ mod-pow (g ^ a * (g ^ x) ^ u) b n
    ∙ ap (λ t. (g ^ a * t) ^ b % n) (pow-mul g x u)
    ∙ ap (λ t. t ^ b % n) (sym (pow-add g a (x * u)))
    ∙ ap (λ t. t % n) (pow-mul g (a + x * u) b)
    ∙ ap (λ t. g ^ t % n) e

module _ (num : NumBigint) (laws : IsNumBigint num) (hashes : Hashes) where
  -- `calculate_session_key` answers false exactly on those A that are 0 modulo N; and in any case
  -- it stores A and leaves the modulus, the verifier and the server's secret alone.
  pub calculate_session_key_safeguard :
      (client_a : List ℕ) (srp : Srp6)
      → 0 < srp.n
      → let (srp', ok) = calculate_session_key num hashes client_a srp in
        (ok ≡ not (from_le client_a % srp.n == 0))
        × (srp'.big_a ≡ from_le client_a)
        × (srp'.n ≡ srp.n)
        × (srp'.v ≡ srp.v)
        × (srp'.b ≡ srp.b)
  unfolding calculate_session_key
  calculate_session_key_safeguard client_a srp hn =
      ground (arith, set_binary-value num laws client_a)

  -- Where the verifier is g^x mod N, the client sends g^a mod N and the server's challenge was
  -- drawn with any secret, the server's session key is the one that the client computes from x, a,
  -- the challenge B and the scrambler u; this under the assertion on the size of g^b mod N, and on
  -- an A that the safeguard lets through.
  pub session_key_agreement :
      (srp srp1 srp2 : Srp6) (random x a size : ℕ)
      → 0 < srp.n
      → srp.v ≡ srp.g ^ x % srp.n
      → calculate_host_public_ephemeral num hashes random srp ≡ some srp1
      → calculate_session_key num hashes (as_byte_array num (srp.g ^ a % srp.n) size) srp1
        ≡ (srp2, true)
      → srp2.big_s ≡ client_session_key srp.n srp.g x a srp2.u srp1.big_b
  unfolding calculate_host_public_ephemeral calculate_session_key
  session_key_agreement srp srp1 srp2 random x a size hn hv h1 h2 = ground (
    arith,
    set_binary-as_byte_array num laws (srp.g ^ a % srp.n) size,
    laws.modpow-value srp.g random srp.n hn,
    laws.modpow-value srp.v srp2.u srp.n hn,
    laws.modpow-value (srp.g ^ a % srp.n * (srp.v ^ srp2.u % srp.n)) random srp.n hn,
    client_power srp.n srp.g x a random srp2.u hn,
    server_power srp.n srp.g x a random srp2.u,
  )
