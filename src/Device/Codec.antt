-- ===== src/Device/Codec.antt =====
-- The audio codec of devices/src/unit_codec_model.cpp: a control bus and a data bus.
use embed_bench.Prelude.{
  ℕ, ◌+◌, ◌*◌, ◌/◌, ◌%◌, Bool, false, ◌||◌, Option, List, [], ◌∷◌, ◌++◌, ◌==◌, not, if◌then◌else◌,
}
use embed_bench.Label.{codes, dec, hex_byte}
use embed_bench.Trace.{word32}
use embed_bench.Device.Port.{HostPort, say, printed, ack, address_nack, data_nack}

pub record Codec : Type 0 where
  pub reg : ℕ
  pub volume : ℕ
  pub muted : Bool
  pub selected : Bool
  pub samples : ℕ
  pub unselected : ℕ
  pub last : ℕ

abbrev pub reg_volume : ℕ
reg_volume = 0

abbrev pub reg_mute : ℕ
reg_mute = 1

abbrev pub reg_count : ℕ
reg_count = 2

-- reset.
abbrev pub fresh : Codec
fresh = record {
  reg = 0;
  volume = 255;
  muted = false;
  selected = false;
  samples = 0;
  unselected = 0;
  last = 0;
}

module _ {ℓ} {P : Type ℓ} where
  -- i2cWrite with a register number alone, or for a register that takes no value.
  unfoldable pub write_pointer : Option (HostPort P) → Codec → P → ℕ × Codec × P
  write_pointer port c p =
      if c.reg == reg_volume || (c.reg == reg_mute) || (c.reg == reg_count)
      then (ack, c, p)
      else (data_nack, c, say port (codes "write to unmapped register") p)

  unfoldable pub i2c_write : Option (HostPort P) → List ℕ → Codec → P → ℕ × Codec × P
  i2c_write port [] c p = (address_nack, c, p)
  i2c_write port (reg ∷ []) c p = write_pointer port (record c { reg = reg }) p
  i2c_write port (reg ∷ value ∷ rest) c p =
      if reg == reg_volume
      then (ack, record c { reg = reg; volume = value }, p)
      else if reg == reg_mute
      then (ack, record c { reg = reg; muted = not (value == 0) }, p)
      else write_pointer port (record c { reg = reg }) p

  -- A sample on the data bus.
  unfoldable pub spi_transfer : Option (HostPort P) → ℕ → Codec → P → ℕ × Codec × P
  spi_transfer port mosi c p =
      let out = if c.muted then 0 else mosi * c.volume / 255 % 256 in
      if not c.selected
      then (
        0,
        record c { unselected = (c.unselected + 1) % word32 },
        say port (codes "sample while unselected") p,
      )
      else (out, record c { samples = (c.samples + 1) % word32; last = out }, p)

-- The bytes that came, their count being what the source returns.
unfoldable pub i2c_read : ℕ → Codec → List ℕ
i2c_read len c =
    if len == 0
    then []
    else if c.reg == reg_count
    then c.samples % 256 ∷ []
    else if c.reg == reg_volume
    then c.volume ∷ []
    else if c.reg == reg_mute
    then (if c.muted then 1 else 0) ∷ []
    else []

unfoldable pub line_in : (line level : ℕ) → Codec → Codec
line_in line level c = if not (line == 0) then c else record c { selected = level == 0 }

unfoldable pub dump : ℕ → Codec → ℕ × List ℕ
dump cap c = printed cap (
    codes "codec vol="
    ++ dec c.volume
    ++ codes " mute="
    ++ (if c.muted then codes "1" else codes "0")
    ++ codes " n="
    ++ dec c.samples
    ++ codes " last="
    ++ hex_byte c.last
    ++ codes " stray="
    ++ dec c.unselected)
