-- ===== src/Device/Port.antt =====
-- `HostPort` and the statuses of src/embedbench_device.h: what a device sees of its environment.
use embed_bench.Prelude.{ℕ, ◌-◌, ◌^◌, Bool, Option, none, some, List, length}
use embed_bench.Label.{fit}

-- `P` is all that the environment keeps; every service may change it.
pub record HostPort {ℓ} (P : Type ℓ) : Type ℓ where
  pub now_micros : P → ℕ
  pub line_out : (line level : ℕ) → P → P
  pub analog_out : (line raw : ℕ) → P → Bool × P
  pub request_wake : (due : ℕ) → P → Bool × P
  pub diagnose : List ℕ → P → Bool × P
  pub serial_out : List ℕ → P → Bool × P
  pub frame_out : (bus format : ℕ) → Option (List ℕ) → (bits : ℕ) → P → Bool × P
  pub format_id : List ℕ → (schema : ℕ) → P → ℕ × P
  pub max_frame_bits : (bus : ℕ) → ℕ

-- I2cStatus
abbrev pub ack : ℕ
ack = 0

abbrev pub address_nack : ℕ
address_nack = 2

abbrev pub data_nack : ℕ
data_nack = 3

-- kChannelUnsupported: size_t(-1), on 64 bits.
abbrev pub channel_unsupported : ℕ
channel_unsupported = 2 ^ 64 - 1

-- I2cTransfer
pub record Transfer : Type 0 where
  pub stop : Bool
  pub continued : Bool

-- `port()` is null until the device is attached; these are the calls under `port() != nullptr`.
module _ {ℓ} {P : Type ℓ} where
  abbrev pub clock : Option (HostPort P) → P → ℕ
  clock none p = 0
  clock (some h) p = h.now_micros p

  abbrev pub say : Option (HostPort P) → List ℕ → P → P
  say none text p = p
  say (some h) text p = (h.diagnose text p).1

  abbrev pub wake : Option (HostPort P) → ℕ → P → P
  wake none due p = p
  wake (some h) due p = (h.request_wake due p).1

  abbrev pub drive : Option (HostPort P) → (line level : ℕ) → P → P
  drive none line level p = p
  drive (some h) line level p = h.line_out line level p

  abbrev pub send : Option (HostPort P) → List ℕ → P → P
  send none bytes p = p
  send (some h) bytes p = (h.serial_out bytes p).1

-- `snprintf(out, cap, …)` with a positive count: what it returns, and what it writes.
abbrev pub printed : ℕ → List ℕ → ℕ × List ℕ
printed cap text = (length text, fit cap text)
