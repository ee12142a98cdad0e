-- ===== src/Host/Wire.antt =====
-- The I2C side of src/embedbench_host.cpp: `findWireDevice`, `bindWireDeviceOn`, `bindWireDevice`,
-- `onWireWriteOn`, `onWireReadOn` and the four hooks that call them.
pub mod Lookup
pub mod Answers
use embed_bench.Prelude.{
  ℕ, zero, suc, ◌+◌, ◌-◌, ◌%◌, Bool, true, false, ◌&&◌, Option, none, some, List, [], ◌∷◌, ◌++◌,
  ltb, ◌==◌, not, if◌then◌else◌, get_or, set, take,
}
use embed_bench.Label.{codes, dec, hex_byte, hex_of}
use embed_bench.Trace.{app, dev}
use embed_bench.Host.State.{State, WireSlot}
use embed_bench.Host.Monad.{Sys, M, pure, ◌>>=◌, ◌>>◌, get, modify, when, maybe, Outside}
use embed_bench.Host.Record.{recordf, note, diagnose, count_diag}
use embed_bench.Host.Deferral.{in_device, deliver_deferred}

-- findWireDevice: the operations of the first slot in use at that address of that bus.
unfoldable pub find_wire_device : List WireSlot → ℕ → ℕ → Option ℕ
find_wire_device [] bus address = none
find_wire_device (d ∷ ds) bus address =
    if d.used && (d.bus == bus && d.address == address)
    then some d.ops
    else find_wire_device ds bus address

-- The first free slot is taken; none if every slot is in use.
unfoldable pub bind_slot : List WireSlot → WireSlot → Option (List WireSlot)
bind_slot [] w = none
bind_slot (d ∷ ds) w =
    if d.used
    then elim (bind_slot ds w) [ none ↦ none | some ds' ↦ some (d ∷ ds') ]
    else some (w ∷ ds)

-- kI2cOther, the last of the five status values; 2 is the address NACK; 0xFFFF closes a bus.
abbrev pub i2c_other : ℕ
i2c_other = 4

abbrev pub address_nack : ℕ
address_nack = 2

abbrev pub no_address : ℕ
no_address = 0xFFFF

abbrev pub bus_tag : ℕ → List ℕ
bus_tag bus = if bus == 0 then [] else codes " bus=" ++ dec bus

abbrev pub flag : Bool → List ℕ
flag b = if b then codes "1" else codes "0"

-- " rs" in the line of a continued transfer.
abbrev pub restart : Bool → List ℕ
restart b = if b then codes " rs" else []

-- A transfer continues the one before it on the bus if that went to the same bound device without STOP.
unfoldable pub is_continued : State → ℕ → ℕ → Bool
is_continued s bus address =
    elim (find_wire_device s.wire bus address) [ none ↦ false | some _ ↦ true ]
    && get_or s.open_address bus no_address == address

abbrev pub leave_open : ℕ → ℕ → Bool → State → State
leave_open bus address stop s = record s {
  open_address = set s.open_address bus (if stop then no_address else address);
}

module _ {ℓ} {W : Type ℓ} (o : Outside W) where
  unfoldable pub bind_wire_device_on : ℕ → ℕ → ℕ → M W Bool
  bind_wire_device_on bus address ops = do
    slots ← get (λ s. s.wire)
    maybe (find_wire_device slots bus address)
        (maybe (bind_slot slots (record { used = true; bus = bus; address = address; ops = ops }))
          (do modify count_diag; pure false)
          (λ ds. do modify (λ s. record s { wire = ds }); pure true))
        (λ _. do modify count_diag; pure false)

  -- The device's answer to a write; a status beyond the five is diagnosed and passed on.
  unfoldable pub answer_write : Option ℕ → ℕ → ℕ → List ℕ → Bool → Bool → M W ℕ
  answer_write none req address bytes stop continued = do
    diagnose o req (codes "diag.unbound addr=" ++ hex_byte address)
    pure address_nack
  answer_write (some ops) req address bytes stop continued = do
    status ← in_device (o.wire_write ops bytes stop continued)
    when (ltb i2c_other status) (
        diagnose o req
          (codes "diag.i2c_status addr=" ++ hex_byte address ++ codes " status=" ++ dec status))
    pure status

  unfoldable pub on_wire_write_on : ℕ → ℕ → List ℕ → Bool → M W ℕ
  on_wire_write_on bus address bytes stop = do
    device ← get (λ s. find_wire_device s.wire bus address)
    continued ← get (λ s. is_continued s bus address)
    req ← recordf o app 0 (
        codes "i2c.req addr="
        ++ hex_byte address
        ++ bus_tag bus
        ++ codes " data="
        ++ hex_of bytes 12
        ++ codes " stop="
        ++ flag stop
        ++ restart continued)
    status ← answer_write device req address bytes stop continued
    modify (leave_open bus address stop)
    note o dev req (codes "i2c.resp status=" ++ dec status)
    deliver_deferred o
    pure status

  -- The device's answer to a read of `len` bytes: one that claims more than that supplies nothing.
  unfoldable pub answer_read : Option ℕ → ℕ → ℕ → ℕ → Bool → Bool → M W (ℕ × List ℕ)
  answer_read none req address len stop continued = do
    diagnose o req (codes "diag.unbound addr=" ++ hex_byte address)
    pure (0, [])
  answer_read (some ops) req address len stop continued = do
    got ← in_device (o.wire_read ops len stop continued)
    if ltb len got.0
        then (do
          diagnose o req (
              codes "diag.i2c_read_length addr="
              ++ hex_byte address
              ++ codes " got="
              ++ dec got.0
              ++ codes " max="
              ++ dec len)
          pure (0, []))
        else pure (got.0, take got.0 got.1)

  unfoldable pub on_wire_read_on : ℕ → ℕ → ℕ → Bool → M W (ℕ × List ℕ)
  on_wire_read_on bus address len stop = do
    device ← get (λ s. find_wire_device s.wire bus address)
    continued ← get (λ s. is_continued s bus address)
    req ← recordf o app 0 (
        codes "i2c.rd.req addr="
        ++ hex_byte address
        ++ bus_tag bus
        ++ codes " req="
        ++ dec len
        ++ codes " stop="
        ++ flag stop
        ++ restart continued)
    got ← answer_read device req address len stop continued
    modify (leave_open bus address stop)
    note o dev req (codes "i2c.rd.resp len=" ++ dec got.0 ++ codes " data=" ++ hex_of got.1 12)
    deliver_deferred o
    pure got
