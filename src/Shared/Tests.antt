-- ===== src/Shared/Tests.antt =====
-- Concrete inputs at which the theorems about crates/shared apply.
use cmangos_tbc.Base.{
  ℕ, ◌+◌, ◌*◌, ◌^◌, ◌%◌, ◌≡◌, ◌↔◌, inl, refl, true, false, not, ◌==◌, some, List, [], ◌∷◌, ◌++◌,
  reverse, All, arith,
}
use cmangos_tbc.Base.Bytes.{IsByte, from_le}
use cmangos_tbc.Base.Space.{trim}
use cmangos_tbc.Base.Text.{Text, text, from_utf8_lossy}
use cmangos_tbc.Shared.ByteBuffer
use cmangos_tbc.Shared.ByteBuffer.WellFormed.{
  IsWellFormed, AllLeaveRead, Op, run_ops, run_ops-IsWellFormed,
}
use cmangos_tbc.Shared.ByteBuffer.RoundTrip.{
  Field, IsField, write_fields, read_fields, read_fields-write_fields,
}
use cmangos_tbc.Shared.BigNumber.{set_binary, as_byte_array, set_hex_str}
use cmangos_tbc.Shared.BigNumber.RoundTrip.{as_byte_array-set_binary}
use cmangos_tbc.Shared.Srp6.{
  Srp6, calculate_host_public_ephemeral, calculate_session_key, calculate_proof, proof,
  calculate_verifier, hash_session_key, interleave, every_other,
}
use cmangos_tbc.Shared.Srp6.SessionKey.{
  client_session_key, calculate_session_key_safeguard, session_key_agreement,
}
use cmangos_tbc.Shared.Srp6.Proof.{proof_message, proof-calculate_proof, hash_session_key_halves}
use cmangos_tbc.Shared.Srp6.Verifier.{calculate_verifier_value}
use cmangos_tbc.Shared.Database.{escape_string}
use cmangos_tbc.Shared.Database.Escape.{read_mysql_literal, read_mysql_literal-escape_string}
use cmangos_tbc.Shared.Samples.{
  sample_num, sample_num-IsNumBigint, sample_hashes, sample_hashes-IsHashes,
}

-- A small group: modulus 23, generator 7, the verifier of x = 5.
abbrev srp : Srp6
srp = record {
  n = 23;
  g = 7;
  s = 9;
  v = 7 ^ 5 % 23;
  b = 0;
  big_b = 0;
  big_a = 0;
  u = 0;
  big_s = 1000;
  k = 77;
  m = 0;
}

-- After the challenge with the secret 6.
abbrev srp1 : Srp6
srp1 = record srp { b = 6; big_b = (7 ^ 5 % 23 * 3 + 7 ^ 6 % 23) % 23 }

abbrev client_a : List ℕ
client_a = as_byte_array sample_num (7 ^ 3 % 23) 4

abbrev srp2 : Srp6
srp2 = (calculate_session_key sample_num sample_hashes client_a srp1).0

srp1_drawn : calculate_host_public_ephemeral sample_num sample_hashes 6 srp ≡ some srp1
unfolding calculate_host_public_ephemeral sample_num
srp1_drawn = refl

srp2_computed : calculate_session_key sample_num sample_hashes client_a srp1 ≡ (srp2, true)
unfolding calculate_session_key sample_num set_binary as_byte_array from_le
srp2_computed = refl

session_key_agreement_example : srp2.big_s ≡ client_session_key 23 7 5 3 srp2.u srp1.big_b
session_key_agreement_example =
    session_key_agreement sample_num sample_num-IsNumBigint sample_hashes srp srp1 srp2 6 5 3 4
      (omega arith) refl srp1_drawn srp2_computed

-- A client that sends A = 0.
calculate_session_key_safeguard_example :
    let (srp', ok) = calculate_session_key sample_num sample_hashes (0 ∷ 0 ∷ []) srp1 in
    (ok ≡ not (from_le (0 ∷ 0 ∷ []) % 23 == 0))
    × (srp'.big_a ≡ from_le (0 ∷ 0 ∷ []))
    × (srp'.n ≡ 23)
    × (srp'.v ≡ srp1.v)
    × (srp'.b ≡ 6)
calculate_session_key_safeguard_example =
    calculate_session_key_safeguard sample_num sample_num-IsNumBigint sample_hashes (0 ∷ 0 ∷ [])
      srp1 (omega arith)

abbrev client_m : List ℕ
client_m =
    1 ∷ 2 ∷ 3 ∷ 4 ∷ 5 ∷ 6 ∷ 7 ∷ 8 ∷ 9 ∷ 10 ∷ 11 ∷ 12 ∷ 13 ∷ 14 ∷ 15 ∷ 16 ∷ 17 ∷ 18 ∷ 19 ∷ 20 ∷ []

proof-calculate_proof_example :
    (proof sample_num sample_hashes client_m
        (calculate_proof sample_num sample_hashes (text "JOE") srp)
      ≡ true)
    ↔ (client_m
        ≡ sample_hashes.sha1 (
            proof_message sample_num sample_num-IsNumBigint sample_hashes sample_hashes-IsHashes
              (text "JOE")
              srp))
proof-calculate_proof_example =
    proof-calculate_proof sample_num sample_num-IsNumBigint sample_hashes sample_hashes-IsHashes
      (text "JOE") srp client_m refl

hash_session_key_halves_example :
    let t = as_byte_array sample_num 1000 32 in
    let even = every_other 16 0 t in
    let odd = every_other 16 1 t in
    (interleave even odd ≡ t)
    × (as_byte_array sample_num (hash_session_key sample_num sample_hashes srp).k 40
        ≡ interleave (sample_hashes.sha1 even) (sample_hashes.sha1 odd))
hash_session_key_halves_example =
    hash_session_key_halves sample_num sample_num-IsNumBigint sample_hashes sample_hashes-IsHashes
      srp (omega arith)

-- A digest with a leading zero.
abbrev digest : List ℕ
digest =
    0 ∷ 0 ∷ 3 ∷ 4 ∷ 5 ∷ 6 ∷ 7 ∷ 8 ∷ 9 ∷ 10 ∷ 11 ∷ 12 ∷ 13 ∷ 14 ∷ 15 ∷ 16 ∷ 17 ∷ 18 ∷ 19 ∷ 1 ∷ []

digest_IsByte : All IsByte (reverse digest)
digest_IsByte = ground arith

abbrev digest_hex : Text
digest_hex = text "0000030405060708090A0B0C0D0E0F1011121301"

digest_parsed : set_hex_str sample_num digest_hex 0 ≡ (from_le (reverse digest), 40)
unfolding set_hex_str sample_num from_le trim
digest_parsed = refl

salt_parsed : set_hex_str sample_num (text "1F4") 9 ≡ (500, 3)
unfolding set_hex_str sample_num trim
salt_parsed = refl

calculate_verifier_value_example :
    calculate_verifier sample_num sample_hashes digest_hex (text "1F4") srp ≡ (
      record srp {
        s = 500;
        v = 7 ^ from_le (sample_hashes.sha1 (as_byte_array sample_num 500 0 ++ digest)) % 23;
      },
      true,
    )
calculate_verifier_value_example =
    calculate_verifier_value sample_num sample_num-IsNumBigint sample_hashes digest_hex (text "1F4")
      srp digest 500 40 2 (omega arith) refl digest_IsByte digest_parsed salt_parsed (omega arith)

broken_salt : (set_hex_str sample_num (text "  ") 9).1 ≡ 0
unfolding set_hex_str trim
broken_salt = refl

as_byte_array-set_binary_example :
    as_byte_array sample_num (set_binary sample_num (1 ∷ 2 ∷ 0 ∷ 0 ∷ [])) 4 ≡ 1 ∷ 2 ∷ 0 ∷ 0 ∷ []
as_byte_array-set_binary_example =
    as_byte_array-set_binary sample_num sample_num-IsNumBigint (1 ∷ 2 ∷ 0 ∷ 0 ∷ []) (ground arith)
      (omega arith)

-- A quote, a backslash and a line feed.
abbrev nasty : Text
nasty = 39 ∷ 92 ∷ 10 ∷ text " OR 1=1"

read_mysql_literal-escape_string_example :
    read_mysql_literal (escape_string nasty ++ (39 ∷ text " LIMIT 1"))
    ≡ some (nasty, text " LIMIT 1")
read_mysql_literal-escape_string_example =
    read_mysql_literal-escape_string nasty (text " LIMIT 1") (omega arith)

abbrev operations : List Op
operations =
    Op.put_u32 7
    ∷ Op.get_u16
    ∷ Op.get_u32
    ∷ Op.put_string (text "a")
    ∷ Op.get_string
    ∷ Op.skip 100
    ∷ Op.change_data (1 ∷ 2 ∷ 3 ∷ 4 ∷ 5 ∷ 6 ∷ 7 ∷ [])
    ∷ []

operations_leave : AllLeaveRead operations ByteBuffer.new
unfolding AllLeaveRead ByteBuffer.new ByteBuffer.write_u32 ByteBuffer.read_u16 ByteBuffer.read_u32
    ByteBuffer.write_string ByteBuffer.read_string ByteBuffer.read_skip cmangos_tbc.Base.Bytes.to_le
operations_leave = (tt, (tt, (tt, (tt, (tt, (tt, (omega arith, tt)))))))

run_ops-IsWellFormed_example : IsWellFormed (run_ops operations ByteBuffer.new)
run_ops-IsWellFormed_example = run_ops-IsWellFormed operations operations_leave

abbrev fields : List Field
fields = Field.u8 5 ∷ Field.string (text "realm") ∷ Field.u32 70000 ∷ Field.raw (0 ∷ 1 ∷ []) ∷ []

fields-IsField : All IsField fields
unfolding from_utf8_lossy
fields-IsField = (omega arith, ((refl, ground arith), (omega arith, (tt, tt))))

read_fields-write_fields_example :
    read_fields fields (write_fields fields ByteBuffer.new)
    ≡ some (
      fields,
      record (write_fields fields ByteBuffer.new) {
        read_pos = ByteBuffer.size (write_fields fields ByteBuffer.new);
      },
    )
read_fields-write_fields_example = read_fields-write_fields fields fields-IsField
