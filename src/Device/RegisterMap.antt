-- ===== src/Device/RegisterMap.antt =====
-- The register map behind a pointer of devices/src/regmap_model.cpp.
pub mod Registers
use embed_bench.Prelude.{
  ℕ, ◌+◌, ◌%◌, Bool, true, false, ◌&&◌, List, [], ◌∷◌, ◌++◌, ltb, leb, ◌==◌, not, if◌then◌else◌,
  get_or, set, take, drop,
}
use embed_bench.Label.{codes, dec, hex_byte}
use embed_bench.Trace.{word32}
use embed_bench.Device.Port.{printed, ack, data_nack, Transfer}

pub record RegisterMap : Type 0 where
  pub regs : List ℕ
  pub pointer : ℕ
  pub repeated_start_reads : ℕ
  pub plain_reads : ℕ

abbrev pub register_count : ℕ
register_count = 4

-- reset.
abbrev pub fresh : RegisterMap
fresh = record {
  regs = 0 ∷ 0x5A ∷ 0 ∷ 0 ∷ [];
  pointer = 0;
  repeated_start_reads = 0;
  plain_reads = 0;
}

unfoldable pub i2c_write : List ℕ → RegisterMap → ℕ × RegisterMap
i2c_write (reg ∷ []) c =
    if leb register_count reg then (data_nack, c) else (ack, record c { pointer = reg })
i2c_write (reg ∷ value ∷ []) c =
    if ltb reg register_count
    then (ack, record c { regs = set c.regs reg value; pointer = reg })
    else (data_nack, c)
i2c_write bytes c = (data_nack, c)

-- The bytes that came, their count being what the source returns.
unfoldable pub i2c_read : ℕ → Transfer → RegisterMap → List ℕ × RegisterMap
i2c_read len xfer c =
    if not xfer.continued then ([], record c { plain_reads = (c.plain_reads + 1) % word32 }) else (
      take len (drop c.pointer c.regs),
      record c { repeated_start_reads = (c.repeated_start_reads + 1) % word32 },
    )

unfoldable pub dump : ℕ → RegisterMap → ℕ × List ℕ
dump cap c = printed cap (
    codes "regmap ptr="
    ++ dec c.pointer
    ++ codes " r1="
    ++ hex_byte (get_or c.regs 1 0)
    ++ codes " rs="
    ++ dec c.repeated_start_reads
    ++ codes " plain="
    ++ dec c.plain_reads)
