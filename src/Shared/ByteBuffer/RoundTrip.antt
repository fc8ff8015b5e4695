-- ===== src/Shared/ByteBuffer/RoundTrip.antt =====
-- What was written to a buffer is read back, field by field.
use cmangos_tbc.Base.{
  ℕ, ◌+◌, ◌^◌, ◌<◌, Option, none, some, List, [], ◌∷◌, ◌++◌, length, drop, take, arith,
  length-append, length-drop, sym, ◌∙◌, ◌%◌, ◌/◌, ◌≤◌, ◌≡◌, refl, ap, append_assoc, append-nil,
  drop-drop, drop-append, take-append, All, get_or, ◌≢◌, suc, zero,
}
use native.Mathlib.Nat.{zero-add}
use cmangos_tbc.Base.Bytes.{to_le, length-to_le, from_le-to_le}
use cmangos_tbc.Base.Text.{Text, IsUtf8}
use cmangos_tbc.Shared.ByteBuffer.{
  ByteBuffer, new, append, write_u8, write_u16, write_u32, write_u64, write_f32, write_string, size,
  read_le, read_u8, read_u16, read_u32, read_u64, read_f32, until_nul, read_string, read_bytes,
}

-- A field of a packet, with its value.
pub data Field : Type 0 where
  u8 u16 u32 u64 f32 : ℕ → Field
  string : Text → Field
  raw : List ℕ → Field

-- The values that the Rust types admit; a string holds no null character.
abbrev pub IsField : Field → Type 0
IsField (u8 v) = v < 2 ^ 8
IsField (u16 v) = v < 2 ^ 16
IsField (u32 v) = v < 2 ^ 32
IsField (u64 v) = v < 2 ^ 64
IsField (f32 v) = v < 2 ^ 32
IsField (string s) = IsUtf8 s × All (λ b. b ≢ 0) s
IsField (raw bs) = Unit

-- What `write_…` appends.
abbrev pub encode : Field → List ℕ
encode (u8 v) = v ∷ []
encode (u16 v) = to_le 2 v
encode (u32 v) = to_le 4 v
encode (u64 v) = to_le 8 v
encode (f32 v) = to_le 4 v
encode (string s) = s ++ (0 ∷ [])
encode (raw bs) = bs

pub write_field : Field → ByteBuffer → ByteBuffer
write_field (u8 v) = write_u8 v
write_field (u16 v) = write_u16 v
write_field (u32 v) = write_u32 v
write_field (u64 v) = write_u64 v
write_field (f32 v) = write_f32 v
write_field (string s) = write_string s
write_field (raw bs) = append bs

abbrev wrap : {A : Type 0} → (A → Field) → Option (A × ByteBuffer) → Option (Field × ByteBuffer)
wrap f none = none
wrap f (some (a, buf)) = some (f a, buf)

-- Reads a field of the same kind; of `raw`, as many bytes.
pub read_field : Field → ByteBuffer → Option (Field × ByteBuffer)
read_field (u8 _) buf = wrap u8 (read_u8 buf)
read_field (u16 _) buf = wrap u16 (read_u16 buf)
read_field (u32 _) buf = wrap u32 (read_u32 buf)
read_field (u64 _) buf = wrap u64 (read_u64 buf)
read_field (f32 _) buf = wrap f32 (read_f32 buf)
read_field (string _) buf = wrap string (read_string buf)
read_field (raw bs) buf = wrap raw (read_bytes (length bs) buf)

pub write_fields : List Field → ByteBuffer → ByteBuffer
write_fields [] buf = buf
write_fields (f ∷ fs) buf = write_fields fs (write_field f buf)

abbrev cons_field : Field → Option (List Field × ByteBuffer) → Option (List Field × ByteBuffer)
cons_field f none = none
cons_field f (some (fs, buf)) = some (f ∷ fs, buf)

-- Reads fields of the kinds listed, until a read fails.
pub read_fields : List Field → ByteBuffer → Option (List Field × ByteBuffer)
read_fields [] buf = some ([], buf)
read_fields (k ∷ ks) buf = elim (read_field k buf) [
  | none ↦ none
  | some (f, buf') ↦ cons_field f (read_fields ks buf')
]

pub encode_all : List Field → List ℕ
encode_all [] = []
encode_all (f ∷ fs) = encode f ++ encode_all fs

write_field-encode :
    (f : Field) (buf : ByteBuffer)
    → write_field f buf ≡ record buf { bytes = buf.bytes ++ encode f }
unfolding write_field write_u8 write_u16 write_u32 write_u64 write_f32 write_string append
write_field-encode (u8 v) buf = refl
write_field-encode _ buf = refl

pub write_fields-encode_all :
    (fs : List Field) (buf : ByteBuffer)
    → write_fields fs buf ≡ record buf { bytes = buf.bytes ++ encode_all fs }
unfolding write_fields encode_all
write_fields-encode_all [] buf = rw append-nil
write_fields-encode_all (f ∷ fs) buf =
    rw (write_fields-encode_all fs (write_field f buf), write_field-encode f buf, append_assoc)

until_nul-stop :
    (s : Text) (rest : List ℕ) → All (λ b. b ≢ 0) s → until_nul (s ++ (0 ∷ rest)) ≡ length s
unfolding until_nul
until_nul-stop [] rest h = refl
until_nul-stop (b ∷ bs) rest h = ground (arith, until_nul-stop bs rest)

take-to_le : (k v : ℕ) (rest : List ℕ) → take k (to_le k v ++ rest) ≡ to_le k v
unfolding to_le
take-to_le zero v rest = refl
take-to_le (suc k) v rest = ap (λ t. (v % 256) ∷ t) (take-to_le k (v / 256) rest)

-- The lengths around the read position.
remaining :
    (bytes : List ℕ) (pos : ℕ) (front rest : List ℕ)
    → pos ≤ length bytes
    → drop pos bytes ≡ front ++ rest
    → pos + length front + length rest ≡ length bytes
remaining bytes pos front rest h e =
    omega (arith, length-drop {0} pos bytes, ap length e, length-append {0} front rest)

read_number :
    (k v : ℕ) (bytes : List ℕ) (pos : ℕ) (rest : List ℕ)
    → v < 256 ^ k
    → pos ≤ length bytes
    → drop pos bytes ≡ to_le k v ++ rest
    → read_le k (record { bytes = bytes; read_pos = pos })
      ≡ some (v, record { bytes = bytes; read_pos = pos + k })
unfolding read_le
read_number k v bytes pos rest hv h e =
    rw (e, take-to_le, from_le-to_le k v hv)
      (ground (arith, remaining bytes pos (to_le k v) rest h e, length-to_le k v))

get_or-drop :
    (bytes : List ℕ) (pos v : ℕ) (rest : List ℕ)
    → drop pos bytes ≡ v ∷ rest
    → get_or bytes pos 0 ≡ v
get_or-drop [] zero v rest e = cc
get_or-drop [] (suc pos) v rest e = cc
get_or-drop (b ∷ bs) zero v rest e = ground arith
get_or-drop (b ∷ bs) (suc pos) v rest e = get_or-drop bs pos v rest e

read_string-stop :
    (s : Text) (bytes : List ℕ) (pos : ℕ) (rest : List ℕ)
    → IsField (string s)
    → pos ≤ length bytes
    → drop pos bytes ≡ s ++ (0 ∷ rest)
    → read_string (record { bytes = bytes; read_pos = pos })
      ≡ some (s, record { bytes = bytes; read_pos = pos + (length s + 1) })
unfolding read_string
read_string-stop s bytes pos rest h hp e =
    rw (e, until_nul-stop s rest h.1, take-append s (0 ∷ rest), h.0)
      (ground (arith, remaining bytes pos s (0 ∷ rest) hp e))

-- One field at the read position is read, and the position moves behind it.
read_field-encode :
    (f : Field) (bytes : List ℕ) (pos : ℕ) (rest : List ℕ)
    → IsField f
    → pos ≤ length bytes
    → drop pos bytes ≡ encode f ++ rest
    → read_field f (record { bytes = bytes; read_pos = pos })
      ≡ some (f, record { bytes = bytes; read_pos = pos + length (encode f) })
unfolding read_field read_u8 read_u16 read_u32 read_u64 read_f32 read_bytes
read_field-encode (u8 v) bytes pos rest h hp e =
    ground (arith, get_or-drop bytes pos v rest e, remaining bytes pos (v ∷ []) rest hp e)
read_field-encode (u16 v) bytes pos rest h hp e =
    rw (read_number 2 v bytes pos rest h hp e, length-to_le 2 v)
read_field-encode (u32 v) bytes pos rest h hp e =
    rw (read_number 4 v bytes pos rest h hp e, length-to_le 4 v)
read_field-encode (u64 v) bytes pos rest h hp e =
    rw (read_number 8 v bytes pos rest h hp e, length-to_le 8 v)
read_field-encode (f32 v) bytes pos rest h hp e =
    rw (read_number 4 v bytes pos rest h hp e, length-to_le 4 v)
read_field-encode (string s) bytes pos rest h hp e = rw (
  read_string-stop s bytes pos rest h hp (e ∙ append_assoc s (0 ∷ []) rest),
  length-append {0} s (0 ∷ []),
)
read_field-encode (raw bs) bytes pos rest h hp e =
    rw (e, take-append bs rest) (ground (arith, remaining bytes pos bs rest hp e))

read_fields-encode :
    (fs : List Field) (bytes : List ℕ) (pos : ℕ) (rest : List ℕ)
    → All IsField fs
    → pos ≤ length bytes
    → drop pos bytes ≡ encode_all fs ++ rest
    → read_fields fs (record { bytes = bytes; read_pos = pos })
      ≡ some (fs, record { bytes = bytes; read_pos = pos + length (encode_all fs) })
unfolding read_fields encode_all
read_fields-encode [] bytes pos rest h hp e = ground arith
read_fields-encode (f ∷ fs) bytes pos rest h hp e =
    let here : drop pos bytes ≡ encode f ++ (encode_all fs ++ rest) =
      e ∙ append_assoc (encode f) (encode_all fs) rest in
    let len = remaining bytes pos (encode f) (encode_all fs ++ rest) hp here in
    let later : drop (pos + length (encode f)) bytes ≡ encode_all fs ++ rest =
      sym (drop-drop pos (length (encode f)) bytes)
      ∙ ap (drop (length (encode f))) here
      ∙ drop-append (encode f) (encode_all fs ++ rest) in
    rw (read_field-encode f bytes pos (encode_all fs ++ rest) h.0 hp here, read_fields)
      (rw (read_fields-encode fs bytes (pos + length (encode f)) rest h.1 (omega arith) later)
        (ground (arith, length-append {0} (encode f) (encode_all fs))))

-- Fields that are written to a new buffer, one after the other, are read back in the same order
-- with the same values, and reading ends at the end of the buffer.
pub read_fields-write_fields :
    (fs : List Field)
    → All IsField fs
    → read_fields fs (write_fields fs new)
      ≡ some (fs, record (write_fields fs new) { read_pos = size (write_fields fs new) })
unfolding new size
read_fields-write_fields fs h =
    rw (write_fields-encode_all fs new)
      (read_fields-encode fs (encode_all fs) 0 [] h (omega arith) (rw append-nil) ∙ rw zero-add)
