-- ===== src/Device/Tape.antt =====
-- The playback of a recorded session of devices/src/tape_model.cpp.
pub mod Moved
pub mod Requests
pub mod Output
pub mod Playing
use embed_bench.Prelude.{
  ℕ, zero, suc, ◌+◌, ◌-◌, ◌*◌, ◌%◌, ◌^◌, Bool, true, false, ◌&&◌, ◌||◌, Option, none, some, List,
  [], ◌∷◌, ◌++◌, ltb, leb, ◌==◌, not, if◌then◌else◌, min, length, get_or, take, str_eq,
}
use embed_bench.Label.{codes, dec, fit, hex_byte, hex_of}
use embed_bench.Trace.{word32}
use embed_bench.Device.Port.{
  HostPort, clock, say, send, printed, ack, address_nack, data_nack, Transfer,
}

-- TapeModel::Kind; `unknown` is any other number.
pub data Kind : Type 0 where
  write read serial_in serial_out spi busy unknown : Kind

-- TapeStep; `len` is its length.
pub record Step : Type 0 where
  pub kind : Kind
  pub status : ℕ
  pub stop : Bool
  pub len : ℕ
  pub request : ℕ
  pub bytes : List ℕ
  pub delay_us : ℕ

-- `steps` is the recording, the others are the model's state.
pub record Tape : Type 0 where
  pub steps : List Step
  pub step : ℕ
  pub armed : Bool
  pub due_us : ℕ
  pub progress : ℕ
  pub step_bad : Bool
  pub exhausted_said : Bool
  pub mismatches : ℕ
  pub busy_refusals : ℕ

unfoldable pub kind_name : Kind → List ℕ
kind_name write = codes "write"
kind_name read = codes "read"
kind_name serial_in = codes "serial in"
kind_name serial_out = codes "serial out"
kind_name spi = codes "spi"
kind_name busy = codes "busy"
kind_name unknown = codes "?"

abbrev pub is_write : Kind → Bool
is_write write = true
is_write _ = false

abbrev pub is_read : Kind → Bool
is_read read = true
is_read _ = false

abbrev pub is_serial_in : Kind → Bool
is_serial_in serial_in = true
is_serial_in _ = false

abbrev pub is_serial_out : Kind → Bool
is_serial_out serial_out = true
is_serial_out _ = false

abbrev pub is_spi : Kind → Bool
is_spi spi = true
is_spi _ = false

abbrev pub is_busy : Kind → Bool
is_busy busy = true
is_busy _ = false

-- reset, and the initial values.
abbrev pub rewound : List Step → Tape
rewound steps = record {
  steps = steps;
  step = 0;
  armed = false;
  due_us = 0;
  progress = 0;
  step_bad = false;
  exhausted_said = false;
  mismatches = 0;
  busy_refusals = 0;
}

abbrev pub step_at : List Step → ℕ → Option Step
step_at [] i = none
step_at (s ∷ ss) zero = some s
step_at (s ∷ ss) (suc i) = step_at ss i

abbrev pub current : Tape → Option Step
current c = step_at c.steps c.step

unfoldable pub finished : Tape → Bool
finished c = leb (length c.steps) c.step

-- The number of the step in a message.
abbrev pub on_tape : Tape → List ℕ
on_tape c = codes "tape " ++ dec c.step

-- mismatch, its count and the step's own flags aside.
abbrev pub mismatched : Tape → Tape
mismatched c = record c { mismatches = (c.mismatches + 1) % word32 }

abbrev pub exhausted : Tape → Tape
exhausted c = record c {
  mismatches = if c.exhausted_said then c.mismatches else (c.mismatches + 1) % word32;
  exhausted_said = true;
}

-- A byte that differs from the recording, said once in a step.
abbrev pub bad_step : Tape → Tape
bad_step c = record c {
  mismatches = if c.step_bad then c.mismatches else (c.mismatches + 1) % word32;
  step_bad = true;
}

abbrev pub next_step : Tape → Tape
next_step c = record c { step = c.step + 1; progress = 0; step_bad = false; armed = false }

module _ {ℓ} {P : Type ℓ} where
  -- The text of a mismatch, cut to its buffer.
  abbrev pub tell : Option (HostPort P) → List ℕ → P → P
  tell port text p = say port (fit 64 text) p

  abbrev pub tell_unless : Bool → Option (HostPort P) → List ℕ → P → P
  tell_unless said port text p = if said then p else tell port text p

  -- arm, at the current step.
  unfoldable pub arm_step : HostPort P → Step → Tape → P → Tape × P
  arm_step h s c p =
      let due = (h.now_micros p + s.delay_us) % 2 ^ 64 in
      if c.armed || not (is_serial_out s.kind || is_busy s.kind) then (c, p) else (
        record c { armed = true; due_us = due },
        if is_serial_out s.kind then (h.request_wake due p).1 else p,
      )

  unfoldable pub arm : Option (HostPort P) → Tape → P → Tape × P
  arm none c p = (c, p)
  arm (some h) c p = elim (current c) [ none ↦ (c, p) | some s ↦ arm_step h s c p ]

  unfoldable pub finish_step : Option (HostPort P) → Tape → P → Tape × P
  finish_step port c p = arm port (next_step c) p

  -- The clock, or without an environment the due time itself.
  abbrev pub clock_or_due : Option (HostPort P) → Tape → P → ℕ
  clock_or_due none c p = c.due_us
  clock_or_due (some h) c p = h.now_micros p

  -- busy, at a busy step.
  unfoldable pub busy_step : Option (HostPort P) → Tape → P → Bool × Tape × P
  busy_step port c p =
      let a = arm port c p in
      let f = finish_step port a.0 a.1 in
      if ltb (clock_or_due port a.0 a.1) a.0.due_us
      then (true, record a.0 { busy_refusals = (a.0.busy_refusals + 1) % word32 }, a.1)
      else (false, f.0, f.1)

  unfoldable pub check_busy : Option (HostPort P) → Tape → P → Bool × Tape × P
  check_busy port c p = elim (current c) [
    | none ↦ (false, c, p)
    | some s ↦ if is_busy s.kind then busy_step port c p else (false, c, p)
  ]

  -- The comparison of a STOP bit with the recorded one.
  unfoldable pub check_stop : Option (HostPort P) → Step → Bool → Tape → P → Tape × P
  check_stop port s stop c p =
      let bit = λ (b : Bool). if b then codes "1" else codes "0" in
      if (stop && not s.stop) || (not stop && s.stop)
      then (
        mismatched c,
        tell port (on_tape c ++ codes ": stop=" ++ bit stop ++ codes ", recorded " ++ bit s.stop) p,
      )
      else (c, p)

  -- i2cWrite at a recorded write.
  unfoldable pub play_write : Option (HostPort P) → Step → List ℕ → Bool → Tape → P → ℕ × Tape × P
  play_write port s bytes stop c p =
      let same = length bytes == s.len && str_eq bytes (take s.len s.bytes) in
      let told =
        tell port
          (on_tape c
            ++ codes ": want write "
            ++ hex_of (take s.len s.bytes) 24
            ++ codes ", got "
            ++ hex_of bytes 24)
          p in
      let k =
        check_stop port s stop (if same then c else mismatched c) (if same then p else told) in
      let f = finish_step port k.0 k.1 in (s.status, f.0, f.1)

  -- i2cWrite, once no busy step is in the way.
  unfoldable pub write_at :
      Option (HostPort P) → Option Step → List ℕ → Transfer → Tape → P → ℕ × Tape × P
  write_at port none bytes xfer c p = (
    address_nack,
    exhausted c,
    tell_unless c.exhausted_said port (codes "tape ended: write " ++ hex_of bytes 24) p,
  )
  write_at port (some s) bytes xfer c p =
      if is_write s.kind then play_write port s bytes xfer.stop c p else (
        data_nack,
        mismatched c,
        tell port
            (on_tape c
              ++ codes ": want "
              ++ kind_name s.kind
              ++ codes ", got write "
              ++ hex_of bytes 24)
            p,
      )

  abbrev pub write_after : Option (HostPort P) → List ℕ → Transfer → Bool × Tape × P → ℕ × Tape × P
  write_after port bytes xfer b =
      if b.0 then (address_nack, b.1, b.2) else write_at port (current b.1) bytes xfer b.1 b.2

  unfoldable pub i2c_write : Option (HostPort P) → List ℕ → Transfer → Tape → P → ℕ × Tape × P
  i2c_write port bytes xfer c p = write_after port bytes xfer (check_busy port c p)

  -- i2cRead at a recorded read.
  unfoldable pub play_read : Option (HostPort P) → Step → ℕ → Bool → Tape → P → List ℕ × Tape × P
  play_read port s len stop c p =
      let same = s.request == 0 || (len == s.request) in
      let told =
        tell port
          (on_tape c ++ codes ": read of " ++ dec len ++ codes ", recorded " ++ dec s.request) p in
      let k =
        check_stop port s stop (if same then c else mismatched c) (if same then p else told) in
      let f = finish_step port k.0 k.1 in (take (min len s.len) s.bytes, f.0, f.1)

  -- i2cRead, once no busy step is in the way.
  unfoldable pub read_at :
      Option (HostPort P) → Option Step → ℕ → Transfer → Tape → P → List ℕ × Tape × P
  read_at port none len xfer c p = (
    [],
    exhausted c,
    tell_unless c.exhausted_said port (codes "tape ended: read of " ++ dec len) p,
  )
  read_at port (some s) len xfer c p =
      if is_read s.kind then play_read port s len xfer.stop c p else (
        [],
        mismatched c,
        tell port
            (on_tape c ++ codes ": want " ++ kind_name s.kind ++ codes ", got read of " ++ dec len)
            p,
      )

  abbrev pub read_after : Option (HostPort P) → ℕ → Transfer → Bool × Tape × P → List ℕ × Tape × P
  read_after port len xfer b =
      if b.0 then ([], b.1, b.2) else read_at port (current b.1) len xfer b.1 b.2

  -- The bytes that came, their count being what the source returns.
  unfoldable pub i2c_read : Option (HostPort P) → ℕ → Transfer → Tape → P → List ℕ × Tape × P
  i2c_read port len xfer c p = read_after port len xfer (check_busy port c p)

  -- A byte that was matched, or not, moves the step on.
  unfoldable pub next_byte : Option (HostPort P) → Step → Tape → P → Tape × P
  next_byte port s c p =
      let c' = record c { progress = c.progress + 1 } in
      let f = finish_step port c' p in if leb s.len (c.progress + 1) then f else (c', p)

  -- A byte that the application sends, against the recorded one.
  unfoldable pub match_byte : Option (HostPort P) → List ℕ → Step → ℕ → Tape → P → Tape × P
  match_byte port name s byte c p =
      let want = get_or s.bytes c.progress 0 in
      let told =
        tell port
          (on_tape c
            ++ codes ": "
            ++ name
            ++ dec c.progress
            ++ codes " want "
            ++ hex_byte want
            ++ codes ", got "
            ++ hex_byte byte)
          p in
      if byte == want || c.step_bad
      then next_byte port s c p
      else next_byte port s (bad_step c) told

  -- A byte at a step of another kind.
  unfoldable pub stray_byte : Option (HostPort P) → List ℕ → Step → ℕ → Tape → P → Tape × P
  stray_byte port name s byte c p = (
    bad_step c,
    tell_unless c.step_bad port
        (on_tape c
          ++ codes ": want "
          ++ kind_name s.kind
          ++ codes ", got "
          ++ name
          ++ hex_byte byte)
        p,
  )

  -- A byte that serialIn takes, at a step.
  unfoldable pub serial_byte : Option (HostPort P) → Step → ℕ → Tape → P → Tape × P
  serial_byte port s b c p =
      if is_serial_in s.kind
      then match_byte port (codes "serial byte ") s b c p
      else stray_byte port (codes "serial byte ") s b c p

  -- The loop of serialIn; a tape that has ended ends it.
  unfoldable pub serial_bytes : Option (HostPort P) → List ℕ → Tape → P → Tape × P
  serial_bytes port [] c p = (c, p)
  serial_bytes port (b ∷ bs) c p =
      let next = λ (r : Tape × P). serial_bytes port bs r.0 r.1 in
      elim (current c) [
        | none ↦ (
          exhausted c,
          tell_unless c.exhausted_said port (codes "tape ended: serial byte " ++ hex_byte b) p,
        )
        | some s ↦ next (serial_byte port s b c p)
      ]

  -- spiTransfer at a step. The reply byte stands behind the `len` recorded bytes; a recording that has
  -- none there, which the source would read past its end, gives 0 here.
  unfoldable pub spi_byte : Option (HostPort P) → Step → ℕ → Tape → P → ℕ × Tape × P
  spi_byte port s mosi c p =
      let m = match_byte port (codes "spi byte ") s mosi c p in
      let k = stray_byte port (codes "spi byte ") s mosi c p in
      if is_spi s.kind then (get_or s.bytes (s.len + c.progress) 0, m.0, m.1) else (255, k.0, k.1)

  unfoldable pub spi_transfer : Option (HostPort P) → ℕ → Tape → P → ℕ × Tape × P
  spi_transfer port mosi c p = elim (current c) [
    | none ↦ (
      255,
      exhausted c,
      tell_unless c.exhausted_said port (codes "tape ended: spi byte " ++ hex_byte mosi) p,
    )
    | some s ↦ spi_byte port s mosi c p
  ]

  -- The loop of advanceTo, on rounds.
  unfoldable pub advance_rounds : ℕ → Option (HostPort P) → ℕ → Tape → P → Tape × P
  advance_rounds zero port now c p = (c, p)
  advance_rounds (suc rounds) port now c p =
      let next = λ (r : Tape × P). advance_rounds rounds port now r.0 r.1 in
      elim (current c) [
        | none ↦ (c, p)
        | some s ↦
            if not (is_serial_out s.kind) || not c.armed || ltb now c.due_us
            then (c, p)
            else next (finish_step port c (send port (take s.len s.bytes) p))
      ]

  -- Each round leaves a step behind, and the recording has no more than its length.
  unfoldable pub advance_to : Option (HostPort P) → ℕ → Tape → P → Tape × P
  advance_to port now c p =
      let a = arm port c p in advance_rounds (length c.steps + 1) port now a.0 a.1

unfoldable pub dump : ℕ → Tape → ℕ × List ℕ
dump cap c =
    let line =
      codes "tape step="
      ++ dec c.step
      ++ codes "/"
      ++ dec (length c.steps)
      ++ codes " mismatch="
      ++ dec c.mismatches in
    if c.busy_refusals == 0
    then printed cap line
    else printed cap (line ++ codes " busy=" ++ dec c.busy_refusals)
