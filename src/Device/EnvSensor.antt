-- ===== src/Device/EnvSensor.antt =====
-- The environmental sensor of devices/src/env_sensor_model.cpp.
pub mod Measuring
use embed_bench.Prelude.{
  ℕ, ◌+◌, ◌*◌, ◌/◌, ◌%◌, Bool, true, false, ◌&&◌, ◌||◌, Option, none, some, List, [], ◌∷◌, ◌++◌,
  ltb, leb, ◌==◌, not, if◌then◌else◌, take,
}
use embed_bench.Label.{codes, dec, hex_byte}
use embed_bench.Trace.{word32}
use embed_bench.Device.Port.{
  HostPort, say, drive, printed, ack, data_nack, channel_unsupported, Transfer,
}

pub record EnvSensor : Type 0 where
  pub pointer : ℕ
  pub ctrl : ℕ
  pub measuring : Bool
  pub ready_at_us : ℕ
  pub raw_temp : ℕ
  pub latched : ℕ
  pub measurements : ℕ
  pub bad_registers : ℕ

abbrev pub reg_chip_id : ℕ
reg_chip_id = 0xD0

abbrev pub reg_status : ℕ
reg_status = 0xF3

abbrev pub reg_ctrl : ℕ
reg_ctrl = 0xF4

abbrev pub reg_temp : ℕ
reg_temp = 0xFA

abbrev pub chip_id : ℕ
chip_id = 0x60

abbrev pub cmd_forced : ℕ
cmd_forced = 0x25

abbrev pub status_measuring : ℕ
status_measuring = 8

abbrev pub measure_us : ℕ
measure_us = 7500

-- reset, and the initial values.
abbrev pub fresh : EnvSensor
fresh = record {
  pointer = 0;
  ctrl = 0;
  measuring = false;
  ready_at_us = 0;
  raw_temp = 0;
  latched = 0;
  measurements = 0;
  bad_registers = 0;
}

-- The bytes of a 24-bit value, the highest first.
abbrev pub bytes_of : ℕ → List ℕ
bytes_of n = n / 65536 % 256 ∷ n / 256 % 256 ∷ n % 256 ∷ []

module _ {ℓ} {P : Type ℓ} where
  -- A command in the control register.
  unfoldable pub command : Option (HostPort P) → ℕ → EnvSensor → P → EnvSensor × P
  command none value c p = (record c { pointer = reg_ctrl; ctrl = value }, p)
  command (some h) value c p =
      let c' = record c { pointer = reg_ctrl; ctrl = value } in
      let due = h.now_micros p + measure_us in
      if value == cmd_forced && not c.measuring
      then (record c' { measuring = true; ready_at_us = due }, (h.request_wake due p).1)
      else (c', p)

  unfoldable pub i2c_write : Option (HostPort P) → List ℕ → EnvSensor → P → ℕ × EnvSensor × P
  i2c_write port (reg ∷ []) c p = (ack, record c { pointer = reg }, p)
  i2c_write port (reg ∷ value ∷ []) c p =
      let r = command port value c p in
      if reg == reg_ctrl then (ack, r.0, r.1) else (data_nack, c, p)
  i2c_write port bytes c p = (data_nack, c, p)

  -- The bytes that came, their count being what the source returns.
  unfoldable pub i2c_read :
      Option (HostPort P) → ℕ → Transfer → EnvSensor → P → List ℕ × EnvSensor × P
  i2c_read port len xfer c p =
      let n = c.latched in
      if not xfer.continued
      then ([], c, p)
      else if c.pointer == reg_chip_id
      then ((if ltb len 1 then [] else chip_id ∷ []), c, p)
      else if c.pointer == reg_status
      then ((if ltb len 1 then [] else (if c.measuring then status_measuring else 0) ∷ []), c, p)
      else if c.pointer == reg_temp
      then ((if ltb len 3 then [] else n / 4096 % 256 ∷ n / 16 % 256 ∷ n * 16 % 256 ∷ []), c, p)
      else (
        [],
        record c { bad_registers = (c.bad_registers + 1) % word32 },
        say port (codes "read of unmapped register") p,
      )

  unfoldable pub advance_to : Option (HostPort P) → ℕ → EnvSensor → P → EnvSensor × P
  advance_to port now c p =
      if c.measuring && leb c.ready_at_us now
      then (
        record c {
          measuring = false;
          latched = c.raw_temp;
          measurements = (c.measurements + 1) % word32;
          ctrl = 0;
        },
        drive port 0 1 p,
      )
      else (c, p)

unfoldable pub channel_write : ℕ → List ℕ → EnvSensor → Bool × EnvSensor
channel_write channel (a ∷ b ∷ d ∷ []) c =
    if not (channel == 0)
    then (false, c)
    else (true, record c { raw_temp = a * 65536 + b * 256 + d })
channel_write channel bytes c = (false, c)

-- What channelRead returns and writes.
unfoldable pub channel_read : ℕ → ℕ → EnvSensor → ℕ × List ℕ
channel_read channel cap c =
    if not (channel == 0) then (channel_unsupported, []) else (3, take cap (bytes_of c.latched))

unfoldable pub dump : ℕ → EnvSensor → ℕ × List ℕ
dump cap c =
    let six =
      λ (n : ℕ). hex_byte (n / 65536 % 256) ++ (hex_byte (n / 256 % 256) ++ hex_byte (n % 256)) in
    printed cap (
      codes "env raw="
      ++ six c.raw_temp
      ++ codes " latched="
      ++ six c.latched
      ++ codes " meas="
      ++ dec c.measurements
      ++ codes " bad_reg="
      ++ dec c.bad_registers)
