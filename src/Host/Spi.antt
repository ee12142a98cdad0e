-- ===== src/Host/Spi.antt =====
-- The SPI hooks of src/embedbench_host.cpp: `onSpiTransfer` and `onSpiTransaction`.
use embed_bench.Prelude.{ℕ, ◌+◌, ◌%◌, Bool, true, false, ◌++◌, ◌==◌, if◌then◌else◌}
use embed_bench.Label.{codes, dec, hex_byte, crc8_step}
use embed_bench.Trace.{app, dev, word32}
use embed_bench.Host.State.{State, Spi}
use embed_bench.Host.Monad.{M, pure, ◌>>=◌, ◌>>◌, get, modify, Outside}
use embed_bench.Host.Record.{recordf, note, diagnose}
use embed_bench.Host.Deferral.{in_device, deliver_deferred}

abbrev pub on_spi : (Spi → Spi) → State → State
on_spi f s = record s { spi = f s.spi }

-- The answer of a bus that nobody drives.
abbrev pub idle_bus : ℕ
idle_bus = 0xFF

-- One byte pair joins the running summary.
unfoldable pub add_pair : ℕ → ℕ → Spi → Spi
unfolding crc8_step
add_pair mosi miso t = record t {
  bulk_count = (t.bulk_count + 1) % word32;
  mosi_sum = crc8_step t.mosi_sum mosi;
  miso_sum = crc8_step t.miso_sum miso;
}

module _ {ℓ} {W : Type ℓ} (o : Outside W) where
  -- Inside a transaction a byte is exchanged and summed, and not recorded.
  unfoldable pub bulk_transfer : ℕ → M W ℕ
  bulk_transfer mosi = do
    handler ← get (λ s. s.bindings.spi_device)
    miso ← (if handler.fn == 0 then pure idle_bus else in_device (o.spi_transfer handler mosi))
    modify (on_spi (add_pair mosi miso))
    pure miso

  unfoldable pub single_transfer : ℕ → M W ℕ
  single_transfer mosi = do
    req ← recordf o app 0 (codes "spi.req mosi=" ++ hex_byte mosi)
    handler ← get (λ s. s.bindings.spi_device)
    miso ←
        (if handler.fn == 0
          then (do diagnose o req (codes "diag.unbound spi"); pure idle_bus)
          else in_device (o.spi_transfer handler mosi))
    note o dev req (codes "spi.resp miso=" ++ hex_byte miso)
    deliver_deferred o
    pure miso

  unfoldable pub on_spi_transfer : ℕ → M W ℕ
  on_spi_transfer mosi = do
    bulk ← get (λ s. s.spi.in_transaction)
    if bulk then bulk_transfer mosi else single_transfer mosi

  unfoldable pub on_spi_transaction : Bool → M W (Unit {0})
  on_spi_transaction true = do
    modify
        (on_spi (λ _. record { in_transaction = true; bulk_count = 0; mosi_sum = 0; miso_sum = 0 }))
    note o app 0 (codes "spi.begin")
  on_spi_transaction false = do
    modify (on_spi (λ t. record t { in_transaction = false }))
    spi ← get (λ s. s.spi)
    note o app 0 (
        codes "spi.bulk n="
        ++ dec spi.bulk_count
        ++ codes " mosi_crc="
        ++ hex_byte spi.mosi_sum
        ++ codes " miso_crc="
        ++ hex_byte spi.miso_sum)
    deliver_deferred o
