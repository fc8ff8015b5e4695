-- ===== src/Shared/ByteBuffer.antt =====
-- crates/shared/src/util/byte_buffer.rs: the packet buffer.
-- A `usize` is a number: sums of a position and a count stay below the size of the address space.
-- An f32 is its bit pattern. The one I/O error, UnexpectedEof, is `none`; it leaves the buffer.
pub mod WellFormed
pub mod RoundTrip
use cmangos_tbc.Base.{
  ℕ, ◌+◌, ◌≤◌, min, Bool, Option, none, some, List, [], ◌∷◌, ◌++◌, if◌then◌else◌, ltb, leb, ◌==◌,
  ◌&&◌, not, length, get_or, take, drop, zero, suc,
}
use cmangos_tbc.Base.Bytes.{from_le, to_le}
use cmangos_tbc.Base.Text.{Text, from_utf8_lossy}

pub record ByteBuffer : Type 0 where
  pub bytes : List ℕ
  pub read_pos : ℕ

unfoldable pub new : ByteBuffer
new = record { bytes = []; read_pos = 0 }

-- The capacity is only a hint to the allocator.
unfoldable pub with_capacity : ℕ → ByteBuffer
unfolding new
with_capacity capacity = new

unfoldable pub size : ByteBuffer → ℕ
size buf = length buf.bytes

unfoldable pub is_empty : ByteBuffer → Bool
is_empty buf = length buf.bytes == 0

unfoldable pub contents : ByteBuffer → List ℕ
contents buf = buf.bytes

-- `data_mut` hands out the vector; `bs` is what the caller leaves in it.
unfoldable pub data_mut : (bs : List ℕ) → ByteBuffer → ByteBuffer
data_mut bs buf = record buf { bytes = bs }

unfoldable pub clear : ByteBuffer → ByteBuffer
clear buf = record buf { bytes = []; read_pos = 0 }

-- The write operations append.
unfoldable pub append : List ℕ → ByteBuffer → ByteBuffer
append bs buf = record buf { bytes = buf.bytes ++ bs }

unfoldable pub write_u8 : ℕ → ByteBuffer → ByteBuffer
write_u8 v buf = record buf { bytes = buf.bytes ++ (v ∷ []) }

unfoldable pub write_u16 : ℕ → ByteBuffer → ByteBuffer
write_u16 v buf = record buf { bytes = buf.bytes ++ to_le 2 v }

unfoldable pub write_u32 : ℕ → ByteBuffer → ByteBuffer
write_u32 v buf = record buf { bytes = buf.bytes ++ to_le 4 v }

unfoldable pub write_u64 : ℕ → ByteBuffer → ByteBuffer
write_u64 v buf = record buf { bytes = buf.bytes ++ to_le 8 v }

unfoldable pub write_f32 : ℕ → ByteBuffer → ByteBuffer
write_f32 v buf = record buf { bytes = buf.bytes ++ to_le 4 v }

unfoldable pub write_string : Text → ByteBuffer → ByteBuffer
write_string s buf = record buf { bytes = buf.bytes ++ (s ++ (0 ∷ [])) }

unfoldable pub read_u8 : ByteBuffer → Option (ℕ × ByteBuffer)
read_u8 buf =
    if leb (length buf.bytes) buf.read_pos
    then none
    else some (get_or buf.bytes buf.read_pos 0, record buf { read_pos = buf.read_pos + 1 })

-- The shared shape of the fixed-width reads: a little-endian number of `k` bytes.
read_le : ℕ → ByteBuffer → Option (ℕ × ByteBuffer)
read_le k buf =
    if ltb (length buf.bytes) (buf.read_pos + k)
    then none
    else some
        (from_le (take k (drop buf.read_pos buf.bytes)), record buf { read_pos = buf.read_pos + k })

unfoldable pub read_u16 : ByteBuffer → Option (ℕ × ByteBuffer)
unfolding read_le
read_u16 = read_le 2

unfoldable pub read_u32 : ByteBuffer → Option (ℕ × ByteBuffer)
unfolding read_le
read_u32 = read_le 4

unfoldable pub read_u64 : ByteBuffer → Option (ℕ × ByteBuffer)
unfolding read_le
read_u64 = read_le 8

unfoldable pub read_f32 : ByteBuffer → Option (ℕ × ByteBuffer)
unfolding read_le
read_f32 = read_le 4

-- The `while` loop of `read_string` over the bytes that are left: how far it moves `read_pos`.
unfoldable pub until_nul : List ℕ → ℕ
until_nul [] = 0
until_nul (b ∷ bs) = if b == 0 then 0 else suc (until_nul bs)

-- Reads up to a null byte or the end, and skips the null byte.
unfoldable pub read_string : ByteBuffer → Option (Text × ByteBuffer)
unfolding until_nul
read_string buf =
    let start = buf.read_pos in
    let stop = start + until_nul (drop start buf.bytes) in
    some (
      from_utf8_lossy (take (until_nul (drop start buf.bytes)) (drop start buf.bytes)),
      record buf { read_pos = if ltb stop (length buf.bytes) then stop + 1 else stop },
    )

unfoldable pub read_bytes : ℕ → ByteBuffer → Option (List ℕ × ByteBuffer)
read_bytes count buf =
    if ltb (length buf.bytes) (buf.read_pos + count)
    then none
    else some
        (take count (drop buf.read_pos buf.bytes), record buf { read_pos = buf.read_pos + count })

unfoldable pub read_skip : ℕ → ByteBuffer → ByteBuffer
read_skip count buf = record buf { read_pos = min (buf.read_pos + count) (length buf.bytes) }
