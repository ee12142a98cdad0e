-- ===== src/Device/Encoder.antt =====
-- The rotary encoder unit of devices/src/unit_encoder_model.cpp.
pub mod Counter
use embed_bench.Prelude.{
  ℕ, ◌+◌, ◌-◌, ◌*◌, ◌/◌, ◌%◌, Bool, true, false, ◌&&◌, Option, List, [], ◌∷◌, ◌++◌, ltb, leb, ◌==◌,
  not, if◌then◌else◌, get_or,
}
use embed_bench.Label.{codes, dec, hex_byte}
use embed_bench.Trace.{word32}
use embed_bench.Device.Port.{HostPort, say, printed, ack, data_nack}

-- `counter` is the sixteen bits of counter_, which is signed in two's complement.
pub record Encoder : Type 0 where
  pub pointer : ℕ
  pub counter : ℕ
  pub pressed : Bool
  pub led : List ℕ
  pub led_writes : ℕ

abbrev pub reg_counter : ℕ
reg_counter = 0

abbrev pub reg_button : ℕ
reg_button = 16

abbrev pub reg_led : ℕ
reg_led = 32

-- reset.
abbrev pub fresh : Encoder
fresh = record { pointer = 0; counter = 0; pressed = false; led = 0 ∷ 0 ∷ 0 ∷ []; led_writes = 0 }

-- The sixteen bits of a signed byte.
abbrev pub extended : ℕ → ℕ
extended b = if ltb b 128 then b else b + 65280

module _ {ℓ} {P : Type ℓ} where
  abbrev pub read_only : Option (HostPort P) → Encoder → P → ℕ × Encoder × P
  read_only port c p = (data_nack, c, say port (codes "write to a read-only register") p)

  unfoldable pub i2c_write : Option (HostPort P) → List ℕ → Encoder → P → ℕ × Encoder × P
  i2c_write port [] c p = (data_nack, c, p)
  i2c_write port (reg ∷ []) c p = (ack, record c { pointer = reg }, p)
  i2c_write port (reg ∷ low ∷ high ∷ []) c p =
      if reg == reg_counter
      then (ack, record c { pointer = reg; counter = low + high * 256 }, p)
      else read_only port (record c { pointer = reg }) p
  i2c_write port (reg ∷ x ∷ y ∷ z ∷ []) c p =
      if reg == reg_led
      then (
        ack,
        record c { pointer = reg; led = x ∷ y ∷ z ∷ []; led_writes = (c.led_writes + 1) % word32 },
        p,
      )
      else read_only port (record c { pointer = reg }) p
  i2c_write port (reg ∷ rest) c p = read_only port (record c { pointer = reg }) p

-- The bytes that came, their count being what the source returns.
unfoldable pub i2c_read : ℕ → Encoder → List ℕ
i2c_read len c =
    if c.pointer == reg_counter && leb 2 len
    then c.counter % 256 ∷ c.counter / 256 ∷ []
    else if c.pointer == reg_button && leb 1 len
    then (if c.pressed then 1 else 0) ∷ []
    else []

unfoldable pub channel_write : ℕ → List ℕ → Encoder → Bool × Encoder
channel_write channel (b ∷ []) c =
    if channel == 0
    then (true, record c { counter = (c.counter + extended b) % 65536 })
    else if channel == 1
    then (true, record c { pressed = not (b == 0) })
    else (false, c)
channel_write channel bytes c = (false, c)

-- `%d` of the counter.
abbrev pub signed : ℕ → List ℕ
signed n = if ltb n 32768 then dec n else codes "-" ++ dec (65536 - n)

unfoldable pub dump : ℕ → Encoder → ℕ × List ℕ
dump cap c = printed cap (
    codes "encoder count="
    ++ signed c.counter
    ++ codes " pressed="
    ++ (if c.pressed then codes "1" else codes "0")
    ++ codes " led="
    ++ hex_byte (get_or c.led 0 0)
    ++ hex_byte (get_or c.led 1 0)
    ++ hex_byte (get_or c.led 2 0)
    ++ codes " w="
    ++ dec c.led_writes)
