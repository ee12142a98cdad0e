-- ===== src/Device/Ir.antt =====
-- The infrared unit of devices/src/unit_ir_model.cpp: a code, and repeats while a key is held.
pub mod Repeats
use embed_bench.Prelude.{
  ℕ, zero, suc, ◌+◌, ◌-◌, ◌%◌, ◌^◌, Bool, true, false, ◌&&◌, ◌||◌, Option, none, some, List, [],
  ◌∷◌, ◌++◌, ltb, leb, ◌==◌, not, if◌then◌else◌, get_or,
}
use embed_bench.Label.{codes, dec, hex_byte}
use embed_bench.Trace.{word32}
use embed_bench.Frame.{schema_fingerprint}
use embed_bench.Device.Port.{HostPort, clock, wake, printed}

pub record Ir : Type 0 where
  pub code_format : ℕ
  pub repeat_format : ℕ
  pub resolved : Bool
  pub address : ℕ
  pub command : ℕ
  pub repeats_left : ℕ
  pub next_due_us : ℕ
  pub holding : Bool
  pub rx_address : ℕ
  pub rx_command : ℕ
  pub sent : ℕ
  pub received : ℕ

-- reset, and the initial values.
abbrev pub fresh : Ir
fresh = record {
  code_format = 0;
  repeat_format = 0;
  resolved = false;
  address = 0;
  command = 0;
  repeats_left = 0;
  next_due_us = 0;
  holding = false;
  rx_address = 0;
  rx_command = 0;
  sent = 0;
  received = 0;
}

abbrev pub repeat_period_us : ℕ
repeat_period_us = 2000

-- A frame that counts.
abbrev pub heard : Ir → Ir
heard c = record c { received = (c.received + 1) % word32 }

-- frameIn, once the formats are resolved.
unfoldable pub receive : (bus format : ℕ) → List ℕ → (bits : ℕ) → Ir → Ir
receive bus format frame bits c =
    if not (bus == 0)
    then c
    else if format == c.repeat_format && (bits == 0)
    then heard c
    else if not (format == c.code_format) || not (bits == 16)
    then c
    else heard (record c { rx_address = get_or frame 0 0; rx_command = get_or frame 1 0 })

module _ {ℓ} {P : Type ℓ} where
  unfoldable pub resolve : Option (HostPort P) → Ir → P → Ir × P
  resolve none c p = (c, p)
  resolve (some h) c p =
      if c.resolved
      then (c, p)
      else (let code =
            h.format_id (codes "m5.ir.nec.1") (schema_fingerprint (codes "u8 addr,u8 cmd")) p in
          let rep = h.format_id (codes "m5.ir.rep.1") (schema_fingerprint (codes "empty")) code.1 in
          (record c { code_format = code.0; repeat_format = rep.0; resolved = true }, rep.1))

  unfoldable pub frame_in :
      Option (HostPort P) → (bus format : ℕ) → List ℕ → (bits : ℕ) → Ir → P → Ir × P
  frame_in port bus format frame bits c p =
      let r = resolve port c p in (receive bus format frame bits r.0, r.1)

  -- The frame of emit, once the formats are resolved.
  unfoldable pub emit_frame : HostPort P → (repeat : Bool) → Ir → P → P
  emit_frame h repeat c p =
      if repeat
      then (if c.repeat_format == 0 then p else (h.frame_out 0 c.repeat_format none 0 p).1)
      else if c.code_format == 0
      then p
      else (h.frame_out 0 c.code_format (some (c.address ∷ c.command ∷ [])) 16 p).1

  unfoldable pub emit : Option (HostPort P) → (repeat : Bool) → Ir → P → Ir × P
  emit none repeat c p = (c, p)
  emit (some h) repeat c p =
      let r = resolve (some h) c p in
      (record r.0 { sent = (r.0.sent + 1) % word32 }, emit_frame h repeat r.0 r.1)

  -- The loop of advanceTo, on rounds: a round that goes on counts one repeat off.
  unfoldable pub advance_rounds : ℕ → Option (HostPort P) → ℕ → Ir → P → Ir × P
  advance_rounds zero port now c p = (c, p)
  advance_rounds (suc rounds) port now c p =
      let e = emit port true c p in
      let due = (e.0.next_due_us + repeat_period_us) % 2 ^ 64 in
      let rest =
        advance_rounds rounds port now
          (record e.0 { repeats_left = e.0.repeats_left - 1; next_due_us = due })
          (wake port due e.1) in
      if not c.holding || ltb now c.next_due_us
      then (c, p)
      else if e.0.repeats_left == 0
      then (record e.0 { holding = false }, e.1)
      else rest

  -- repeatsLeft_ is a byte.
  unfoldable pub advance_to : Option (HostPort P) → ℕ → Ir → P → Ir × P
  advance_to = advance_rounds 256

  unfoldable pub press : Option (HostPort P) → (address command repeats : ℕ) → Ir → P → Ir × P
  press port address command repeats c p =
      let e = emit port false (record c { address = address; command = command }) p in
      let due = (clock port e.1 + repeat_period_us) % 2 ^ 64 in
      if repeats == 0 then (record e.0 { repeats_left = 0 }, e.1) else (
        record e.0 { repeats_left = repeats - 1; holding = true; next_due_us = due },
        wake port due e.1,
      )

  unfoldable pub channel_write : Option (HostPort P) → ℕ → List ℕ → Ir → P → Bool × Ir × P
  channel_write port channel (a ∷ b ∷ n ∷ rest) c p =
      let r = press port a b n c p in if channel == 0 then (true, r.0, r.1) else (false, c, p)
  channel_write port channel bytes c p = (false, c, p)

-- What channelRead returns and writes.
unfoldable pub channel_read : ℕ → ℕ → Ir → ℕ × List ℕ
channel_read channel cap c =
    if not (channel == 1) || ltb cap 2 then (0, []) else (2, c.rx_address ∷ c.rx_command ∷ [])

unfoldable pub dump : ℕ → Ir → ℕ × List ℕ
dump cap c = printed cap (
    codes "ir sent="
    ++ dec c.sent
    ++ codes " rx="
    ++ dec c.received
    ++ codes " last="
    ++ hex_byte c.rx_address
    ++ hex_byte c.rx_command
    ++ codes " held="
    ++ (if c.holding then codes "1" else codes "0"))
