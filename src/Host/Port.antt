-- ===== src/Host/Port.antt =====
-- `DevicePort` of src/embedbench_host.h and .cpp: the ready-made HostPort.
pub mod Lookup
use embed_bench.Prelude.{
  ℕ, zero, suc, ◌+◌, Bool, true, false, ◌&&◌, Option, none, some, List, [], ◌∷◌, ◌==◌,
  if◌then◌else◌, get_or, set, replicate,
}
use embed_bench.Trace.{dev}
use embed_bench.Host.Monad.{Sys, M, pure, ◌>>=◌, ◌>>◌, maybe, Outside}
use embed_bench.Host.Clock.{request_wake, now_us}
use embed_bench.Host.Gpio.{pin_inject}
use embed_bench.Host.Uart.{Port, serial1, uart_inject_on}
use embed_bench.Host.Analog.{analog_inject, analog_inject_milli_volts, device_note}
use embed_bench.Host.Formats.{frame_rx, register_format, max_frame_bits}

pub record Mapping : Type 0 where
  pub line : ℕ
  pub pin : ℕ
  pub used : Bool

abbrev pub unmapped : Mapping
unmapped = record { line = 0; pin = 0; used = false }

pub record DevicePort : Type 0 where
  pub lines : List Mapping
  pub analog : List Mapping
  pub serial : Port

-- A new port: eight unused slots in each table, Serial1.
abbrev pub new_port : DevicePort
new_port = record { lines = replicate 8 unmapped; analog = replicate 8 unmapped; serial = serial1 }

-- DevicePort::find, as the pin of the first slot in use for that line.
unfoldable pub find_pin : List Mapping → ℕ → Option ℕ
find_pin [] line = none
find_pin (m ∷ ms) line = if m.used && m.line == line then some m.pin else find_pin ms line

-- The slot that `find` names gets another pin.
unfoldable pub repin : List Mapping → ℕ → ℕ → List Mapping
repin [] line pin = []
repin (m ∷ ms) line pin =
    if m.used && m.line == line then record m { pin = pin } ∷ ms else m ∷ repin ms line pin

-- The first free slot is taken; none if there is none.
unfoldable pub take_mapping : List Mapping → ℕ → ℕ → Option (List Mapping)
take_mapping [] line pin = none
take_mapping (m ∷ ms) line pin =
    if m.used
    then elim (take_mapping ms line pin) [ none ↦ none | some ms' ↦ some (m ∷ ms') ]
    else some (record { line = line; pin = pin; used = true } ∷ ms)

-- The body that mapLine and mapAnalog share; none where it returns false.
unfoldable pub map_table : List Mapping → ℕ → ℕ → Option (List Mapping)
unfolding find_pin repin take_mapping
map_table ms line pin = elim (find_pin ms line) [
  | some _ ↦ some (repin ms line pin)
  | none ↦ take_mapping ms line pin
]

-- A refused mapping leaves the port as it was.
unfoldable pub map_line : DevicePort → ℕ → ℕ → Bool × DevicePort
unfolding map_table
map_line p line pin = elim (map_table p.lines line pin) [
  | some ms ↦ (true, record p { lines = ms })
  | none ↦ (false, p)
]

unfoldable pub map_analog : DevicePort → ℕ → ℕ → Bool × DevicePort
unfolding map_table
map_analog p line pin = elim (map_table p.analog line pin) [
  | some ms ↦ (true, record p { analog = ms })
  | none ↦ (false, p)
]

unfoldable pub use_serial : DevicePort → Port → DevicePort
use_serial p port = record p { serial = port }

module _ {ℓ} {W : Type ℓ} (o : Outside W) (p : DevicePort) where
  -- nowMicros
  unfoldable pub now_micros : M W ℕ
  now_micros = now_us o

  -- An unmapped line goes nowhere.
  unfoldable pub line_out : ℕ → ℕ → M W (Unit {0})
  line_out line level = maybe (find_pin p.lines line) (pure tt) (λ pin. pin_inject o dev pin level)

  unfoldable pub serial_out : List ℕ → M W Bool
  serial_out bytes = uart_inject_on o dev p.serial bytes

  unfoldable pub analog_out : ℕ → ℕ → M W Bool
  analog_out line raw =
      maybe (find_pin p.analog line) (pure false) (λ pin. do analog_inject o dev pin raw; pure true)

  unfoldable pub analog_out_milli_volts : ℕ → ℕ → M W Bool
  analog_out_milli_volts line mv =
      maybe (find_pin p.analog line) (pure false)
        (λ pin. do analog_inject_milli_volts o dev pin mv; pure true)

  -- DevicePort::requestWake
  unfoldable pub port_request_wake : ℕ → M W Bool
  port_request_wake due = request_wake o due

  -- DevicePort::diagnose
  unfoldable pub port_diagnose : List ℕ → M W Bool
  port_diagnose text = do device_note o text; pure true

  unfoldable pub frame_out : ℕ → ℕ → Option (List ℕ) → ℕ → M W Bool
  frame_out bus format bytes bits = frame_rx o dev bus format bytes bits

  unfoldable pub format_id : List ℕ → ℕ → M W ℕ
  format_id name schema = register_format o name schema
