-- ===== src/Host/Analog.antt =====
-- Analog pins, notes and dumps in src/embedbench_host.cpp: `onAnalogRead`, `onAnalogMilliVolts`,
-- `onAnalogReadConfig`, `analogEventName`, `onAnalogWrite`, `analogInject`, `analogInjectMilliVolts`,
-- `deviceNote` and `dumpf`.
use embed_bench.Prelude.{ℕ, List, ◌++◌}
use embed_bench.Label.{codes, dec, fit}
use embed_bench.Trace.{Origin, app, dir, dev, core}
use embed_bench.Host.Monad.{M, pure, ◌>>=◌, ◌>>◌, outside, Outside}
use embed_bench.Host.Record.{recordf, note}

-- HostArduino::AnalogWriteEvent
pub data AnalogWrite : Type 0 where
  attach write config tone detach dac : AnalogWrite

abbrev pub event_name : AnalogWrite → List ℕ
event_name attach = codes "attach"
event_name write = codes "write"
event_name config = codes "config"
event_name tone = codes "tone"
event_name detach = codes "detach"
event_name dac = codes "dac"

module _ {ℓ} {W : Type ℓ} (o : Outside W) where
  unfoldable pub on_analog_read : ℕ → ℕ → M W ℕ
  on_analog_read pin held = do
    req ← recordf o app 0 (codes "analog.req pin=" ++ dec pin)
    note o core req (codes "analog.resp val=" ++ dec held)
    pure held

  unfoldable pub on_analog_milli_volts : ℕ → ℕ → M W ℕ
  on_analog_milli_volts pin held = do
    req ← recordf o app 0 (codes "analog.mv.req pin=" ++ dec pin)
    note o core req (codes "analog.mv.resp mv=" ++ dec held)
    pure held

  unfoldable pub on_analog_read_config : ℕ → M W (Unit {0})
  on_analog_read_config bits = note o app 0 (codes "analog.config bits=" ++ dec bits)

  unfoldable pub on_analog_write : AnalogWrite → ℕ → ℕ → ℕ → M W (Unit {0})
  on_analog_write event pin duty hz = note o app 0 (
      codes "analog.out "
      ++ event_name event
      ++ codes " pin="
      ++ dec pin
      ++ codes " duty="
      ++ dec duty
      ++ codes " hz="
      ++ dec hz)

  unfoldable pub analog_inject : Origin → ℕ → ℕ → M W (Unit {0})
  analog_inject origin pin raw = do
    note o origin 0 (codes "analog.inject pin=" ++ dec pin ++ codes " val=" ++ dec raw)
    outside (o.set_analog_value pin raw)

  unfoldable pub analog_inject_milli_volts : Origin → ℕ → ℕ → M W (Unit {0})
  analog_inject_milli_volts origin pin mv = do
    note o origin 0 (codes "analog.inject.mv pin=" ++ dec pin ++ codes " mv=" ++ dec mv)
    outside (o.set_analog_milli_volts pin mv)

  unfoldable pub device_note : List ℕ → M W (Unit {0})
  device_note text = note o dev 0 (codes "dev.note " ++ text)

  -- dumpf: 49 characters of the text at most.
  unfoldable pub dumpf : List ℕ → M W (Unit {0})
  dumpf text = note o dir 0 (codes "dump " ++ fit 50 text)
