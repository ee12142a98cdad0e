-- ===== src/Device/Modbus.antt =====
-- The Modbus RTU slave of devices/src/unit_modbus_model.cpp.
pub mod Replies
use embed_bench.Prelude.{
  ℕ, zero, suc, ◌+◌, ◌-◌, ◌*◌, ◌/◌, ◌%◌, bit_xor, Bool, true, false, ◌&&◌, ◌||◌, Option, none, some,
  List, [], ◌∷◌, ◌++◌, ltb, leb, ◌==◌, not, if◌then◌else◌, length, get_or, set, take, ◌^◌,
}
use embed_bench.Label.{codes, dec, hex_byte}
use embed_bench.Trace.{word32}
use embed_bench.Device.Port.{HostPort, say, printed}

-- The bit loop of crc16: shift right, and reduce where the low bit was set.
unfoldable pub crc_bits : ℕ → ℕ → ℕ
crc_bits zero crc = crc
crc_bits (suc n) crc = crc_bits n (if crc % 2 == 1 then bit_xor (crc / 2) 0xA001 else crc / 2)

unfoldable pub crc_from : ℕ → List ℕ → ℕ
crc_from crc [] = crc
crc_from crc (b ∷ bs) = crc_from (crc_bits 8 (bit_xor crc b)) bs

unfoldable pub crc16 : List ℕ → ℕ
crc16 = crc_from 0xFFFF

-- `frame` has the frameLength_ bytes that came.
pub record Modbus : Type 0 where
  pub frame : List ℕ
  pub idle_at_us : ℕ
  pub pending : Bool
  pub registers : List ℕ
  pub answered : ℕ
  pub bad_crc : ℕ
  pub foreign : ℕ

abbrev pub address : ℕ
address = 17

abbrev pub read_holding : ℕ
read_holding = 3

abbrev pub register_count : ℕ
register_count = 4

abbrev pub frame_size : ℕ
frame_size = 16

abbrev pub frame_gap_us : ℕ
frame_gap_us = 1500

-- reset.
abbrev pub fresh : Modbus
fresh = record {
  frame = [];
  idle_at_us = 0;
  pending = false;
  registers = 0x1000 ∷ 0x1001 ∷ 0x1002 ∷ 0x1003 ∷ [];
  answered = 0;
  bad_crc = 0;
  foreign = 0;
}

-- A number of two bytes: the first and the second of them are the high and the low one, or the low and
-- the high one.
abbrev pub big_endian : List ℕ → ℕ → ℕ
big_endian bytes i = get_or bytes i 0 * 256 + get_or bytes (i + 1) 0

abbrev pub little_endian : List ℕ → ℕ → ℕ
little_endian bytes i = get_or bytes i 0 + get_or bytes (i + 1) 0 * 256

-- The comparison of handleFrame: the last two bytes against the checksum of the rest.
unfoldable pub crc_ok : List ℕ → Bool
crc_ok bytes = little_endian bytes (length bytes - 2) == crc16 (take (length bytes - 2) bytes)

-- The loop over the registers.
unfoldable pub register_bytes : ℕ → ℕ → List ℕ → List ℕ
register_bytes zero first registers = []
register_bytes (suc count) first registers =
    (get_or registers first 0 / 256 ∷ get_or registers first 0 % 256 ∷ [])
    ++ register_bytes count (first + 1) registers

-- The body of a reply, and the reply with its checksum.
abbrev pub reply_body : (first count : ℕ) → List ℕ → List ℕ
reply_body first count registers =
    address ∷ read_holding ∷ (count * 2 % 256) ∷ register_bytes count first registers

unfoldable pub reply : (first count : ℕ) → List ℕ → List ℕ
reply first count registers =
    reply_body first count registers
    ++ (crc16 (reply_body first count registers) % 256
        ∷ crc16 (reply_body first count registers) / 256
        ∷ [])

-- The bytes that fit are kept.
abbrev pub gather : List ℕ → List ℕ → List ℕ
gather [] frame = frame
gather (b ∷ bs) frame = gather bs (if ltb (length frame) frame_size then frame ++ b ∷ [] else frame)

module _ {ℓ} {P : Type ℓ} where
  unfoldable pub serial_in : Option (HostPort P) → List ℕ → Modbus → P → Modbus × P
  serial_in none bytes c p = (c, p)
  serial_in (some h) bytes c p =
      let due = (h.now_micros p + frame_gap_us) % 2 ^ 64 in
      (
        record c { frame = gather bytes c.frame; idle_at_us = due; pending = true },
        (h.request_wake due p).1,
      )

  -- handleFrame, once the checksum and the address are right.
  unfoldable pub serve : HostPort P → Modbus → P → Modbus × P
  serve h c p =
      let first = big_endian c.frame 2 in
      let count = big_endian c.frame 4 in
      if not (get_or c.frame 1 0 == read_holding) || not (length c.frame == 8)
      then (c, (h.diagnose (codes "unsupported function") p).1)
      else if ltb register_count (first + count) || (count == 0)
      then (c, (h.diagnose (codes "register out of range") p).1)
      else (
        record c { answered = (c.answered + 1) % word32 },
        (h.serial_out (reply first count c.registers) p).1,
      )

  unfoldable pub handle_frame : Option (HostPort P) → Modbus → P → Modbus × P
  handle_frame none c p = (c, p)
  handle_frame (some h) c p =
      if ltb (length c.frame) 4
      then (c, p)
      else if not (crc_ok c.frame)
      then (
        record c { bad_crc = (c.bad_crc + 1) % word32 },
        (h.diagnose (codes "frame dropped: bad crc") p).1,
      )
      else if not (get_or c.frame 0 0 == address)
      then (record c { foreign = (c.foreign + 1) % word32 }, p)
      else serve h c p

  unfoldable pub advance_to : Option (HostPort P) → ℕ → Modbus → P → Modbus × P
  advance_to port now c p =
      let r = handle_frame port (record c { pending = false }) p in
      if not c.pending || ltb now c.idle_at_us then (c, p) else (record r.0 { frame = [] }, r.1)

unfoldable pub channel_write : ℕ → List ℕ → Modbus → Bool × Modbus
channel_write channel bytes c =
    if not (channel == 0) || not (length bytes == 3)
    then (false, c)
    else if leb register_count (get_or bytes 0 0)
    then (false, c)
    else (true, record c { registers = set c.registers (get_or bytes 0 0) (big_endian bytes 1) })

unfoldable pub dump : ℕ → Modbus → ℕ × List ℕ
dump cap c =
    let r0 = get_or c.registers 0 0 in
    printed cap (
      codes "modbus answered="
      ++ dec c.answered
      ++ codes " bad_crc="
      ++ dec c.bad_crc
      ++ codes " foreign="
      ++ dec c.foreign
      ++ codes " r0="
      ++ hex_byte (r0 / 256)
      ++ hex_byte (r0 % 256))
