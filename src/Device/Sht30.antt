-- ===== src/Device/Sht30.antt =====
-- The SHT30 humidity and temperature sensor of devices/src/sht30_model.cpp.
pub mod Polls
use embed_bench.Prelude.{
  ℕ, zero, suc, ◌+◌, ◌-◌, ◌*◌, ◌/◌, ◌%◌, bit_xor, Bool, true, false, ◌&&◌, ◌||◌, Option, none, some,
  List, [], ◌∷◌, ◌++◌, ltb, leb, ◌==◌, not, if◌then◌else◌, length, get_or, take, drop, replicate,
}
use embed_bench.Label.{codes, dec, hex_byte}
use embed_bench.Trace.{word32}
use embed_bench.Device.Port.{
  HostPort, clock, say, printed, ack, address_nack, data_nack, channel_unsupported,
}

-- The bit loop of crc8: shift left in eight bits, and reduce where the top bit was set.
unfoldable pub crc_bits : ℕ → ℕ → ℕ
crc_bits zero crc = crc
crc_bits (suc n) crc =
    crc_bits n (if leb 128 crc then bit_xor (crc * 2 % 256) 0x31 else crc * 2 % 256)

unfoldable pub crc_from : ℕ → List ℕ → ℕ
crc_from crc [] = crc
crc_from crc (b ∷ bs) = crc_from (crc_bits 8 (bit_xor crc b)) bs

unfoldable pub crc8 : List ℕ → ℕ
crc8 = crc_from 255

pub data Pending : Type 0 where
  nothing measurement status reset_pending : Pending

-- The status word has four bits that are ever set. `samples` has sampleCount_ samples, of four bytes
-- each; `result` and `held` have four bytes.
pub record Sht30 : Type 0 where
  pub alert : Bool
  pub heater : Bool
  pub reset_seen : Bool
  pub bad_command : Bool
  pub pending : Pending
  pub stretch : Bool
  pub ready_at_us : ℕ
  pub samples : List (List ℕ)
  pub next_sample : ℕ
  pub result : List ℕ
  pub held : List ℕ
  pub holding : Bool
  pub after_reset : Bool
  pub stretch_limit_us : ℕ
  pub measurements : ℕ
  pub refused : ℕ
  pub stretched : ℕ
  pub gave_up : ℕ

abbrev pub high_us : ℕ
high_us = 12400

abbrev pub medium_us : ℕ
medium_us = 4500

abbrev pub low_us : ℕ
low_us = 2500

abbrev pub soft_reset_us : ℕ
soft_reset_us = 1500

abbrev pub max_samples : ℕ
max_samples = 16

-- reset; the samples, the results and the limit stay as they are.
unfoldable pub reset : Sht30 → Sht30
reset c = record c {
  alert = true;
  heater = false;
  reset_seen = true;
  bad_command = false;
  pending = nothing;
  holding = false;
  after_reset = false;
  stretch = false;
  ready_at_us = 0;
  next_sample = 0;
  measurements = 0;
  refused = 0;
  stretched = 0;
  gave_up = 0;
}

abbrev pub status_high : Sht30 → ℕ
status_high c = (if c.alert then 128 else 0) + (if c.heater then 32 else 0)

abbrev pub status_low : Sht30 → ℕ
status_low c = (if c.reset_seen then 16 else 0) + (if c.bad_command then 2 else 0)

abbrev pub is_busy : ℕ → Sht30 → Bool
is_busy now c = ltb now c.ready_at_us

abbrev pub is_measurement : Pending → Bool
is_measurement measurement = true
is_measurement _ = false

abbrev pub is_status : Pending → Bool
is_status status = true
is_status _ = false

abbrev pub is_reset : Pending → Bool
is_reset reset_pending = true
is_reset _ = false

-- A result that nobody read is kept.
abbrev pub keep : Sht30 → Sht30
keep c = record c {
  held = if is_measurement c.pending then c.result else c.held;
  holding = is_measurement c.pending || c.holding;
}

-- The next sample becomes the result.
abbrev pub sample : Sht30 → Sht30
sample c = record c {
  result = if ltb 0 (length c.samples) then get_or c.samples c.next_sample [] else c.result;
  next_sample =
      if ltb 0 (length c.samples) then (c.next_sample + 1) % length c.samples else c.next_sample;
}

unfoldable pub start : ℕ → (duration : ℕ) → (stretch : Bool) → Sht30 → Sht30
start now duration stretch c = record (sample (keep c)) {
  pending = measurement;
  stretch = stretch;
  ready_at_us = now + duration;
  measurements = (c.measurements + 1) % word32;
}

-- The soft reset.
abbrev pub soft_reset : ℕ → Sht30 → Sht30
soft_reset now c = record (keep c) {
  alert = true;
  heater = false;
  reset_seen = true;
  bad_command = false;
  pending = reset_pending;
  after_reset = true;
  ready_at_us = now + soft_reset_us;
}

-- The switch of i2cWrite over the command; none is a command that the model has not.
unfoldable pub obey : ℕ → (command : ℕ) → Sht30 → Option Sht30
obey now command c =
    if command == 0x2400
    then some (start now high_us false c)
    else if command == 0x240B
    then some (start now medium_us false c)
    else if command == 0x2416
    then some (start now low_us false c)
    else if command == 0x2C06
    then some (start now high_us true c)
    else if command == 0x2C0D
    then some (start now medium_us true c)
    else if command == 0x2C10
    then some (start now low_us true c)
    else if command == 0xF32D
    then some (record c { pending = status })
    else if command == 0x3041
    then some (record c { alert = false; reset_seen = false })
    else if command == 0x306D
    then some (record c { heater = true })
    else if command == 0x3066
    then some (record c { heater = false })
    else if command == 0x3093
    then some (record c { pending = nothing })
    else if command == 0x30A2
    then some (soft_reset now c)
    else none

module _ {ℓ} {P : Type ℓ} where
  -- i2cWrite with a command, while the part is free.
  unfoldable pub take_command : Option (HostPort P) → (high low : ℕ) → Sht30 → P → ℕ × Sht30 × P
  take_command port high low c p =
      let c' = record c { bad_command = false } in
      elim (obey (clock port p) (high * 256 + low) c') [
        | none ↦ (
          data_nack,
          record c { bad_command = true },
          say port (codes "command " ++ hex_byte high ++ hex_byte low ++ codes " not modelled") p,
        )
        | some d ↦ (ack, d, p)
      ]

  unfoldable pub i2c_write : Option (HostPort P) → List ℕ → Sht30 → P → ℕ × Sht30 × P
  i2c_write port bytes c p =
      let c' = record c { after_reset = false } in
      let obeyed = take_command port (get_or bytes 0 0) (get_or bytes 1 0) c' p in
      if is_busy (clock port p) c
      then (
        if is_reset c.pending then data_nack else address_nack,
        record c' { refused = (c.refused + 1) % word32 },
        p,
      )
      else if length bytes == 0
      then (ack, c', p)
      else if not (length bytes == 2)
      then (data_nack, record c' { bad_command = true }, p)
      else obeyed

-- answer: each word of two bytes with its checksum, cut to `len` bytes.
unfoldable pub answer : ℕ → List ℕ → List ℕ
answer len [] = []
answer len (a ∷ []) = []
answer len (a ∷ b ∷ words) =
    let rest = answer (len - 3) words in
    if leb len 3
    then take len (a ∷ b ∷ crc8 (a ∷ b ∷ []) ∷ [])
    else a ∷ b ∷ crc8 (a ∷ b ∷ []) ∷ rest

-- i2cRead while the part is not busy, or holds the clock line until it is done.
unfoldable pub read_ready : ℕ → Sht30 → List ℕ × Sht30
read_ready len c =
    let zeros = answer len (0 ∷ 0 ∷ []) in
    if len == 0
    then ([], c)
    else if c.after_reset
    then (zeros ++ replicate (len - length zeros) 255, c)
    else if is_measurement c.pending
    then (answer len c.result, record c { pending = nothing; holding = false })
    else if is_status c.pending
    then (answer len (status_high c ∷ status_low c ∷ []), record c { pending = nothing })
    else ([], c)

-- The bytes that came, their count being what the source returns.
unfoldable pub i2c_read : (now : ℕ) → (len : ℕ) → Sht30 → List ℕ × Sht30
i2c_read now len c =
    if is_busy now c && c.holding && ltb 0 len
    then (answer len c.held, record c { holding = false })
    else if is_busy now c
    then (if not (is_measurement c.pending) || not c.stretch
        then ([], record c { refused = (c.refused + 1) % word32 })
        else if not (c.stretch_limit_us == 0) && ltb c.stretch_limit_us (c.ready_at_us - now)
        then ([], record c { gave_up = (c.gave_up + 1) % word32 })
        else read_ready len (record c { stretched = (c.stretched + 1) % word32 }))
    else read_ready len c

-- The samples of four bytes each.
unfoldable pub split_samples : ℕ → List ℕ → List (List ℕ)
split_samples zero bytes = []
split_samples (suc n) bytes = take 4 bytes ∷ split_samples n (drop 4 bytes)

unfoldable pub channel_write : ℕ → List ℕ → Sht30 → Bool × Sht30
channel_write channel bytes c =
    let n = length bytes in
    if channel == 0
    then (if n == 0 || not (n % 4 == 0) || ltb (max_samples * 4) n
        then (false, c)
        else (true, record c { samples = split_samples (n / 4) bytes; next_sample = 0 }))
    else if channel == 1
    then (if not (n == 4) then (false, c) else (
      true,
      record c {
        stretch_limit_us =
            get_or bytes 0 0 * 16777216
            + get_or bytes 1 0 * 65536
            + get_or bytes 2 0 * 256
            + get_or bytes 3 0;
      },
    ))
    else (false, c)

abbrev pub join_samples : List (List ℕ) → List ℕ
join_samples [] = []
join_samples (s ∷ ss) = s ++ join_samples ss

-- What channelRead returns and writes.
unfoldable pub channel_read : ℕ → ℕ → Sht30 → ℕ × List ℕ
channel_read channel cap c =
    let limit = c.stretch_limit_us in
    if channel == 0
    then (length c.samples * 4, take cap (join_samples c.samples))
    else if channel == 1
    then (
      4,
      take cap
          (limit / 16777216 % 256 ∷ limit / 65536 % 256 ∷ limit / 256 % 256 ∷ limit % 256 ∷ []),
    )
    else (channel_unsupported, [])

unfoldable pub dump : ℕ → Sht30 → ℕ × List ℕ
dump cap c = printed cap (
    codes "sht30 status="
    ++ hex_byte (status_high c)
    ++ hex_byte (status_low c)
    ++ codes " measurements="
    ++ dec c.measurements
    ++ codes " refused="
    ++ dec c.refused
    ++ codes " stretched="
    ++ dec c.stretched
    ++ codes " gave_up="
    ++ dec c.gave_up)
