-- ===== src/Shared/ByteBuffer/WellFormed.antt =====
-- The read position never passes the end of the buffer.
use cmangos_tbc.Base.{
  ℕ, ◌≤◌, Option, none, some, List, [], ◌∷◌, length, drop, arith, length-append, length-drop,
}
use cmangos_tbc.Base.Text.{Text}
use cmangos_tbc.Shared.ByteBuffer.{
  ByteBuffer, new, clear, append, write_u8, write_u16, write_u32, write_u64, write_f32,
  write_string, read_u8, read_u16, read_u32, read_u64, read_f32, until_nul, read_string, read_bytes,
  read_skip, data_mut,
}

-- The read position is at most the length.
abbrev pub IsWellFormed : ByteBuffer → Type 0
IsWellFormed buf = buf.read_pos ≤ length buf.bytes

-- The operations that change a buffer; `change_data` is a use of `data_mut` and what the caller leaves
-- in the vector.
pub data Op : Type 0 where
  clear_all : Op
  put_raw : List ℕ → Op
  put_u8 put_u16 put_u32 put_u64 put_f32 : ℕ → Op
  put_string : Text → Op
  get_u8 get_u16 get_u32 get_u64 get_f32 get_string : Op
  get_raw : ℕ → Op
  skip : ℕ → Op
  change_data : List ℕ → Op

-- A failed read leaves the buffer as it is.
abbrev pub after : {A : Type 0} → ByteBuffer → Option (A × ByteBuffer) → ByteBuffer
after buf none = buf
after buf (some (a, buf')) = buf'

unfoldable pub run_op : Op → ByteBuffer → ByteBuffer
run_op clear_all buf = clear buf
run_op (put_raw bs) buf = append bs buf
run_op (put_u8 v) buf = write_u8 v buf
run_op (put_u16 v) buf = write_u16 v buf
run_op (put_u32 v) buf = write_u32 v buf
run_op (put_u64 v) buf = write_u64 v buf
run_op (put_f32 v) buf = write_f32 v buf
run_op (put_string s) buf = write_string s buf
run_op get_u8 buf = after buf (read_u8 buf)
run_op get_u16 buf = after buf (read_u16 buf)
run_op get_u32 buf = after buf (read_u32 buf)
run_op get_u64 buf = after buf (read_u64 buf)
run_op get_f32 buf = after buf (read_f32 buf)
run_op get_string buf = after buf (read_string buf)
run_op (get_raw n) buf = after buf (read_bytes n buf)
run_op (skip n) buf = read_skip n buf
run_op (change_data bs) buf = data_mut bs buf

pub run_ops : List Op → ByteBuffer → ByteBuffer
run_ops [] buf = buf
run_ops (op ∷ ops) buf = run_ops ops (run_op op buf)

-- Through `data_mut`, no caller leaves less than has been read.
abbrev pub LeavesRead : Op → ByteBuffer → Type 0
LeavesRead (change_data bs) buf = buf.read_pos ≤ length bs
LeavesRead _ buf = Unit

unfoldable pub AllLeaveRead : List Op → ByteBuffer → Type 0
unfolding run_op
AllLeaveRead [] buf = Unit
AllLeaveRead (op ∷ ops) buf = LeavesRead op buf × AllLeaveRead ops (run_op op buf)

until_nul-le : (bs : List ℕ) → until_nul bs ≤ length bs
unfolding until_nul
until_nul-le [] = omega arith
until_nul-le (b ∷ bs) = ground (arith, until_nul-le bs)

read_string-IsWellFormed :
    (buf : ByteBuffer) → IsWellFormed buf → IsWellFormed (after buf (read_string buf))
unfolding read_string
read_string-IsWellFormed buf h =
    ground
      (arith, until_nul-le (drop buf.read_pos buf.bytes), length-drop {0} buf.read_pos buf.bytes)

run_op-IsWellFormed :
    (op : Op) (buf : ByteBuffer)
    → LeavesRead op buf
    → IsWellFormed buf
    → IsWellFormed (run_op op buf)
unfolding run_op clear append write_u8 write_u16 write_u32 write_u64 write_f32 write_string read_u8
    read_u16 read_u32 read_u64 read_f32 read_bytes read_skip data_mut
run_op-IsWellFormed clear_all buf ok h = omega arith
run_op-IsWellFormed (put_raw bs) buf ok h = omega (arith, length-append {0} buf.bytes bs)
run_op-IsWellFormed (put_u8 v) buf ok h = omega (arith, length-append {0} buf.bytes)
run_op-IsWellFormed (put_u16 v) buf ok h = omega (arith, length-append {0} buf.bytes)
run_op-IsWellFormed (put_u32 v) buf ok h = omega (arith, length-append {0} buf.bytes)
run_op-IsWellFormed (put_u64 v) buf ok h = omega (arith, length-append {0} buf.bytes)
run_op-IsWellFormed (put_f32 v) buf ok h = omega (arith, length-append {0} buf.bytes)
run_op-IsWellFormed (put_string s) buf ok h = omega (arith, length-append {0} buf.bytes)
run_op-IsWellFormed get_string buf ok h = read_string-IsWellFormed buf h
run_op-IsWellFormed (change_data bs) buf ok h = ok
run_op-IsWellFormed _ buf ok h = ground arith

run_from :
    (ops : List Op) (buf : ByteBuffer)
    → AllLeaveRead ops buf
    → IsWellFormed buf
    → IsWellFormed (run_ops ops buf)
unfolding run_ops AllLeaveRead
run_from [] buf ok h = h
run_from (op ∷ ops) buf ok h = run_from ops (run_op op buf) ok.1 (run_op-IsWellFormed op buf ok.0 h)

-- Whatever operations a client makes on a new buffer, failed reads included, the read position
-- stays at or before the end of the data, provided that each use of `data_mut` leaves at least as many
-- bytes in the vector as have been read.
pub run_ops-IsWellFormed : (ops : List Op) → AllLeaveRead ops new → IsWellFormed (run_ops ops new)
unfolding new
run_ops-IsWellFormed ops ok = run_from ops new ok (omega arith)
