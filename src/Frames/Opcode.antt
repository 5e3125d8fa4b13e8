-- ===== src/Frames/Opcode.antt =====
-- src/frames/opcode.rs: the opcodes and their codes.
use wust_socket.Prelude.{
  ℕ, ◌<◌, ◌≡◌, ◌↔◌, Bool, true, false, Option, none, some, ◌==◌, if◌then◌else◌, arith,
}

pub data Opcode : Type 0 where
  cont text bin close ping pong : Opcode

-- `opcode as u8`
abbrev pub as_u8 : Opcode → ℕ
as_u8 Opcode.cont = 0x0
as_u8 Opcode.text = 0x1
as_u8 Opcode.bin = 0x2
as_u8 Opcode.close = 0x8
as_u8 Opcode.ping = 0x9
as_u8 Opcode.pong = 0xA

abbrev pub is_control : Opcode → Bool
is_control Opcode.close = true
is_control Opcode.ping = true
is_control Opcode.pong = true
is_control _ = false

abbrev pub is_data : Opcode → Bool
is_data Opcode.bin = true
is_data Opcode.text = true
is_data Opcode.cont = true
is_data _ = false

-- The derived `==`.
abbrev pub opcode_eq : Opcode → Opcode → Bool
opcode_eq a b = as_u8 a == as_u8 b

-- `Opcode::try_from`, with `none` for `Err(())`.
unfoldable pub try_from : ℕ → Option Opcode
try_from value =
    if value == 0x0
    then some Opcode.cont
    else if value == 0x1
    then some Opcode.text
    else if value == 0x2
    then some Opcode.bin
    else if value == 0x8
    then some Opcode.close
    else if value == 0x9
    then some Opcode.ping
    else if value == 0xA
    then some Opcode.pong
    else none

-- `try_from` reads exactly the codes of opcodes.
pub try_from_iff : (value : ℕ) (op : Opcode) → (try_from value ≡ some op) ↔ (value ≡ as_u8 op)
unfolding try_from
try_from_iff value op = ground arith

pub as_u8-lt : (op : Opcode) → as_u8 op < 16
as_u8-lt op = ground arith
