-- ===== src/Shared/Srp6.antt =====
-- crates/shared/src/auth/srp6.rs: the server side of the SRP6 handshake.
pub mod SessionKey
pub mod Proof
pub mod Verifier
use Prim.Native.Nat.{bit_xor}
use cmangos_tbc.Base.{
  ℕ, zero, suc, ◌+◌, ◌-◌, Bool, true, false, Option, none, some, List, [], ◌∷◌, ◌++◌, if◌then◌else◌,
  ltb, leb, ◌==◌, ◌||◌, length, get_or, take, replicate, reverse, min, bytes_eq,
}
use cmangos_tbc.Base.Text.{Text, text}
use cmangos_tbc.Shared.Digits.{NumBigint}
use cmangos_tbc.Shared.BigNumber.{
  BigNumber, from_u32, is_zero, set_binary, set_hex_str, mod_exp, get_num_bytes, as_byte_array,
  as_hex_str, add, mul, rem,
}
use cmangos_tbc.Shared.Crypto.{Hashes}
use cmangos_tbc.Shared.Crypto.Sha1
use cmangos_tbc.Shared.Crypto.Sha1.{Sha1Hash}

pub record Srp6 : Type 0 where
  pub n : BigNumber
  pub g : BigNumber
  pub s : BigNumber
  pub v : BigNumber
  pub b : BigNumber
  pub big_b : BigNumber
  pub big_a : BigNumber
  pub u : BigNumber
  pub big_s : BigNumber
  pub k : BigNumber
  pub m : BigNumber

-- The prime that `new` sets by `set_hex_str`.
abbrev pub prime : BigNumber
prime = 0x894B645E89E1535BBDAD5B8B290650530801B18EBFBF5E8FAB3C82872A3E9BB7

unfoldable pub new : Srp6
new = record {
  n = prime;
  g = 7;
  s = 0;
  v = 0;
  b = 0;
  big_b = 0;
  big_a = 0;
  u = 0;
  big_s = 0;
  k = 0;
  m = 0;
}

-- `hash[i] ^= digest[i]`
unfoldable pub xor_bytes : List ℕ → List ℕ → List ℕ
xor_bytes (x ∷ xs) (y ∷ ys) = bit_xor x y ∷ xor_bytes xs ys
xor_bytes xs ys = xs

-- `t[i], t[i + 2], …`: `n` bytes, every other one from `i` on.
unfoldable pub every_other : ℕ → ℕ → List ℕ → List ℕ
every_other zero i t = []
every_other (suc n) i t = get_or t i 0 ∷ every_other n (i + 2) t

-- Two digests byte by byte: `vk[2 * i]` from the first and `vk[2 * i + 1]` from the second.
unfoldable pub interleave : List ℕ → List ℕ → List ℕ
interleave (x ∷ xs) (y ∷ ys) = x ∷ y ∷ interleave xs ys
interleave _ _ = []

module _ (num : NumBigint) (hashes : Hashes) where
  -- `random` is what `set_rand` draws; `none` is the failed assertion.
  unfoldable pub calculate_host_public_ephemeral : ℕ → Srp6 → Option Srp6
  unfolding mod_exp add mul rem get_num_bytes
  calculate_host_public_ephemeral random srp =
      let g_mod = mod_exp num srp.g random srp.n in
      let big_b' = rem (add (mul srp.v 3) g_mod) srp.n in
      if leb (get_num_bytes num g_mod) 32
      then some (record srp { b = random; big_b = big_b' })
      else none

  -- The digest of a list of numbers alone.
  digest_of : List BigNumber → List ℕ
  unfolding Sha1.new Sha1.update_big_numbers Sha1.finalize
  digest_of numbers = (Sha1.finalize hashes (Sha1.update_big_numbers num numbers Sha1.new)).digest

  unfoldable pub calculate_proof : Text → Srp6 → Srp6
  unfolding digest_of xor_bytes Sha1.initialize Sha1.update_data Sha1.update_data_bytes
      Sha1.update_big_numbers Sha1.finalize Sha1.new
  calculate_proof username srp =
      let hash = xor_bytes (digest_of (srp.n ∷ [])) (digest_of (srp.g ∷ [])) in
      let t4 = (Sha1.finalize hashes (Sha1.update_data username Sha1.new)).digest in
      let sha = Sha1.update_data_bytes t4 (Sha1.update_data_bytes hash Sha1.new) in
      let sha' = Sha1.update_big_numbers num (srp.s ∷ srp.big_a ∷ srp.big_b ∷ srp.k ∷ []) sha in
      record srp { m = set_binary num (Sha1.finalize hashes sha').digest }

  -- The flag is false if A is 0 modulo N; `big_a` is set all the same.
  unfoldable pub calculate_session_key : List ℕ → Srp6 → Srp6 × Bool
  unfolding digest_of is_zero rem mul mod_exp
  calculate_session_key client_a srp =
      let a = set_binary num client_a in
      if is_zero a
      then (record srp { big_a = a }, false)
      else if is_zero (rem a srp.n)
      then (record srp { big_a = a }, false)
      else let u' = set_binary num (digest_of (a ∷ srp.big_b ∷ [])) in
        let v_mod = mod_exp num srp.v u' srp.n in
        (record srp { big_a = a; u = u'; big_s = mod_exp num (mul a v_mod) srp.b srp.n }, true)

  -- The digest whose hexadecimal form is `ri`: leading zeros, which a number drops, come back.
  unfoldable pub restore_digest : BigNumber → List ℕ
  unfolding get_num_bytes
  restore_digest i =
      let vect_i = as_byte_array num i 0 in
      let copy_len = min (length vect_i) 20 in
      reverse (
        if leb (get_num_bytes num i) 20
        then take copy_len vect_i ++ replicate (20 - copy_len) 0
        else replicate 20 0)

  unfoldable pub calculate_verifier : Text → Text → Srp6 → Srp6 × Bool
  unfolding is_zero mod_exp Sha1.new Sha1.update_data_bytes Sha1.finalize
  calculate_verifier ri salt srp =
      let (s', count) = set_hex_str num salt srp.s in
      if (count == 0) || is_zero s'
      then (record srp { s = s' }, false)
      else let m_digest = restore_digest (set_hex_str num ri 0).0 in
        let sha = Sha1.update_data_bytes (as_byte_array num s' 0) Sha1.new in
        let sha' = Sha1.finalize hashes (Sha1.update_data_bytes m_digest sha) in
        let x = set_binary num sha'.digest in
        (record srp { s = s'; v = mod_exp num srp.g x srp.n }, true)

  -- `random` is what `set_rand` draws: 256 bits.
  unfoldable pub calculate_verifier_random : ℕ → Text → Srp6 → Srp6 × Bool
  unfolding calculate_verifier
  calculate_verifier_random random ri srp = calculate_verifier ri (as_hex_str num random) srp

  unfoldable pub hash_session_key : Srp6 → Srp6
  unfolding every_other interleave Sha1.new Sha1.update_data_bytes Sha1.finalize
  hash_session_key srp =
      let t = as_byte_array num srp.big_s 32 in
      let even =
        (Sha1.finalize hashes (Sha1.update_data_bytes (every_other 16 0 t) Sha1.new)).digest in
      let odd =
        (Sha1.finalize hashes (Sha1.update_data_bytes (every_other 16 1 t) Sha1.new)).digest in
      record srp { k = set_binary num (interleave even odd) }

  -- Whether the client's M is ours.
  unfoldable pub proof : List ℕ → Srp6 → Bool
  proof client_m srp =
      bytes_eq (take (length client_m) (as_byte_array num srp.m (length client_m))) client_m

  unfoldable pub proof_verifier : Text → Srp6 → Bool
  proof_verifier vc srp = bytes_eq vc (as_hex_str num srp.v)

  -- SHA1(A || M || K), which the client checks.
  unfoldable pub finalize : Srp6 → Sha1Hash → Sha1Hash
  unfolding Sha1.initialize Sha1.update_big_numbers Sha1.finalize
  finalize srp sha =
      Sha1.finalize hashes
        (Sha1.update_big_numbers num (srp.big_a ∷ srp.m ∷ srp.k ∷ []) (Sha1.initialize sha))

  unfoldable pub set_salt : Text → Srp6 → Srp6 × Bool
  unfolding is_zero
  set_salt new_s srp =
      let (s', count) = set_hex_str num new_s srp.s in
      (record srp { s = s' }, if (count == 0) || is_zero s' then false else true)

  unfoldable pub set_strong_session_key : Text → Srp6 → Srp6
  set_strong_session_key new_k srp = record srp { k = (set_hex_str num new_k srp.k).0 }

  unfoldable pub set_verifier : Text → Srp6 → Srp6 × Bool
  unfolding is_zero
  set_verifier new_v srp =
      let (v', count) = set_hex_str num new_v srp.v in
      (record srp { v = v' }, if (count == 0) || is_zero v' then false else true)
