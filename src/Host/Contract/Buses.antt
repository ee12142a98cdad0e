-- ===== src/Host/Contract/Buses.antt =====
-- The pin, I2C, SPI and serial entry points evolve the environment, whatever the devices do.
use embed_bench.Prelude.{
  ℕ, suc, ◌≡◌, refl, Bool, true, false, Option, none, some, List, [], ◌∷◌, arith, length,
  Option-cases, inl, inr,
}
use embed_bench.Trace.{Origin}
use embed_bench.Host.State.{State, WireSlot, isr}
use embed_bench.Host.Monad.{Sys, Outside, pure, modify, ◌>>=◌, ◌>>◌}
use embed_bench.Host.Record.{count_diag}
use embed_bench.Host.Gpio.{on_pin_write, pin_inject}
use embed_bench.Host.Wire.{
  bind_slot, leave_open, bind_wire_device_on, answer_write, on_wire_write_on, answer_read,
  on_wire_read_on,
}
use embed_bench.Host.Spi.{
  on_spi, bulk_transfer, single_transfer, on_spi_transfer, on_spi_transaction,
}
use embed_bench.Host.State.{Spi}
use embed_bench.Host.Uart.{
  Port, Activity, tx, rx, begin, finish, config, rx_discard, on_uart_activity, push, uart_inject_on,
  call_channel, chan_write,
}
use embed_bench.Host.Contract.{Evolves, Keeps, Tame}
use embed_bench.Host.Contract.Rules.{
  Keeps-modify, Keeps-call, Keeps-bind, Keeps-then, Keeps-when, Keeps-if, Keeps-get, Keeps-peek,
  Keeps-pure, Keeps-outside, Keeps-read, maybe-Evolves, Keeps-in_device,
}
use embed_bench.Host.Contract.Recording.{
  recordf-Keeps, note-Keeps, diagnose-Keeps, count_diag-Evolves,
}
use embed_bench.Host.Contract.Held.{refuse-Keeps, queue-Keeps, deliver_deferred-Keeps}

-- Changes that a sound state does not see.
leave_open-Evolves :
    {n : ℕ} (bus address : ℕ) (stop : Bool) (s : State)
    → Evolves n s (leave_open bus address stop s)
leave_open-Evolves bus address stop s = record {
  depth = λ _. refl;
  director = λ _. refl;
  interrupt = λ _. refl;
  sound = λ v. ground arith;
}

on_spi-Evolves : {n : ℕ} (f : Spi → Spi) (s : State) → Evolves n s (on_spi f s)
on_spi-Evolves f s = record {
  depth = λ _. refl;
  director = λ _. refl;
  interrupt = λ _. refl;
  sound = λ v. ground arith;
}

length-bind_slot :
    (ds : List WireSlot) (w : WireSlot) (ds' : List WireSlot)
    → bind_slot ds w ≡ some ds'
    → length ds' ≡ length ds
unfolding bind_slot
length-bind_slot [] w ds' e = cc
length-bind_slot (d ∷ ds) w ds' e = elim (Option-cases (bind_slot ds w)) [
  | inl n ↦ ground arith
  | inr (rest, n) ↦ ground (arith, length-bind_slot ds w rest n)
]

set_wire-Evolves :
    {n : ℕ} (ds : List WireSlot) (s : State)
    → length ds ≡ length s.wire
    → Evolves n s (record s { wire = ds })
set_wire-Evolves ds s h = record {
  depth = λ _. refl;
  director = λ _. refl;
  interrupt = λ _. refl;
  sound = λ v. ground (arith, h);
}

module _ {ℓ} {W : Type ℓ} (o : Outside W) {n : ℕ} (tame : Tame n o) where
  -- onPinWrite
  pub on_pin_write-Keeps : (pin value : ℕ) → Keeps (suc n) (on_pin_write o pin value)
  unfolding on_pin_write
  on_pin_write-Keeps pin value = Keeps-then _ _ (note-Keeps o tame _ _ _) (
      Keeps-bind _ _ (Keeps-get _) λ forward. Keeps-when _ _ (
        Keeps-then _ _ (Keeps-in_device _ (tame.pin_write_forward forward pin value))
          (deliver_deferred-Keeps o tame)))

  -- pinInject
  pub pin_inject-Keeps :
      (origin : Origin) (pin level : ℕ) → Keeps (suc n) (pin_inject o origin pin level)
  unfolding pin_inject
  pin_inject-Keeps origin pin level = Keeps-bind _ _ (Keeps-peek _) λ previous.
      Keeps-bind _ _ (Keeps-peek _) λ trigger. Keeps-then _ _ (note-Keeps o tame _ _ _) (
        Keeps-then _ _ (Keeps-outside _) (
          Keeps-bind _ _ (Keeps-get _) λ depth. Keeps-if _ _ _ (Keeps-pure tt) (
            Keeps-if _ _ _ (queue-Keeps o tame (isr pin))
              (Keeps-call _ (tame.trigger_interrupt pin)))))

  count_diag-Keeps : Keeps {W = W} (suc n) (modify count_diag)
  count_diag-Keeps = Keeps-modify _ count_diag-Evolves

  rejected-Keeps : Keeps {W = W} (suc n) (do modify count_diag; pure false)
  rejected-Keeps = Keeps-then _ _ count_diag-Keeps (Keeps-pure false)

  bound-at :
      (ds : List WireSlot) (s : Sys W)
      → length ds ≡ length s.host.wire
      → Evolves (suc n) s.host ((do modify (λ s. record s { wire = ds }); pure true) s).1.host
  unfolding ◌>>◌ ◌>>=◌
  bound-at ds s h = set_wire-Evolves ds s.host h

  -- bindWireDeviceOn
  pub bind_wire-Keeps :
      (bus address ops : ℕ) → Keeps (suc n) (bind_wire_device_on o bus address ops)
  unfolding bind_wire_device_on
  bind_wire-Keeps bus address ops = Keeps-read _ _ λ s.
      maybe-Evolves _ _ _ s
        (λ _.
          maybe-Evolves _ _ _ s (λ _. rejected-Keeps.at s)
            (λ ds e. bound-at ds s (length-bind_slot s.host.wire _ ds e)))
        (λ _ _. rejected-Keeps.at s)

  answer_write-Keeps :
      (device : Option ℕ) (req address : ℕ) (bytes : List ℕ) (stop continued : Bool)
      → Keeps (suc n) (answer_write o device req address bytes stop continued)
  unfolding answer_write
  answer_write-Keeps none req address bytes stop continued =
      Keeps-then _ _ (diagnose-Keeps o tame _ _) (Keeps-pure _)
  answer_write-Keeps (some ops) req address bytes stop continued =
      Keeps-bind _ _ (Keeps-in_device _ (tame.wire_write ops bytes stop continued))
        λ status. Keeps-then _ _ (Keeps-when _ _ (diagnose-Keeps o tame _ _)) (Keeps-pure _)

  leave_open-Keeps :
      (bus address : ℕ) (stop : Bool) → Keeps {W = W} (suc n) (modify (leave_open bus address stop))
  leave_open-Keeps bus address stop = Keeps-modify _ (leave_open-Evolves bus address stop)

  -- onWireWriteOn
  pub wire_write-Keeps :
      (bus address : ℕ) (bytes : List ℕ) (stop : Bool)
      → Keeps (suc n) (on_wire_write_on o bus address bytes stop)
  unfolding on_wire_write_on
  wire_write-Keeps bus address bytes stop = Keeps-bind _ _ (Keeps-get _) λ device.
      Keeps-bind _ _ (Keeps-get _) λ continued. Keeps-bind _ _ (recordf-Keeps o tame _ _ _) λ req.
        Keeps-bind _ _ (answer_write-Keeps device req address bytes stop continued) λ status.
          Keeps-then _ _ (leave_open-Keeps bus address stop) (
            Keeps-then _ _ (note-Keeps o tame _ _ _)
              (Keeps-then _ _ (deliver_deferred-Keeps o tame) (Keeps-pure status)))

  answer_read-Keeps :
      (device : Option ℕ) (req address len : ℕ) (stop continued : Bool)
      → Keeps (suc n) (answer_read o device req address len stop continued)
  unfolding answer_read
  answer_read-Keeps none req address len stop continued =
      Keeps-then _ _ (diagnose-Keeps o tame _ _) (Keeps-pure _)
  answer_read-Keeps (some ops) req address len stop continued =
      Keeps-bind _ _ (Keeps-in_device _ (tame.wire_read ops len stop continued)) λ got.
        Keeps-if _ _ _ (Keeps-then _ _ (diagnose-Keeps o tame _ _) (Keeps-pure _)) (Keeps-pure _)

  -- onWireReadOn
  pub wire_read-Keeps :
      (bus address len : ℕ) (stop : Bool) → Keeps (suc n) (on_wire_read_on o bus address len stop)
  unfolding on_wire_read_on
  wire_read-Keeps bus address len stop = Keeps-bind _ _ (Keeps-get _) λ device.
      Keeps-bind _ _ (Keeps-get _) λ continued. Keeps-bind _ _ (recordf-Keeps o tame _ _ _) λ req.
        Keeps-bind _ _ (answer_read-Keeps device req address len stop continued) λ got.
          Keeps-then _ _ (leave_open-Keeps bus address stop) (
            Keeps-then _ _ (note-Keeps o tame _ _ _)
              (Keeps-then _ _ (deliver_deferred-Keeps o tame) (Keeps-pure got)))

  spi-Keeps : (f : Spi → Spi) → Keeps {W = W} (suc n) (modify (on_spi f))
  spi-Keeps f = Keeps-modify _ (on_spi-Evolves f)

  -- onSpiTransfer
  pub spi_transfer-Keeps : (mosi : ℕ) → Keeps (suc n) (on_spi_transfer o mosi)
  unfolding on_spi_transfer bulk_transfer single_transfer
  spi_transfer-Keeps mosi = Keeps-bind _ _ (Keeps-get _) λ bulk.
      Keeps-if _ _ _
        (Keeps-bind _ _ (Keeps-get _) λ handler.
          Keeps-bind _ _
            (Keeps-if _ _ _ (Keeps-pure _) (Keeps-in_device _ (tame.spi_transfer handler mosi)))
            λ miso. Keeps-then _ _ (spi-Keeps _) (Keeps-pure miso))
        (Keeps-bind _ _ (recordf-Keeps o tame _ _ _) λ req. Keeps-bind _ _ (Keeps-get _) λ handler.
          Keeps-bind _ _
            (Keeps-if _ _ _ (Keeps-then _ _ (diagnose-Keeps o tame _ _) (Keeps-pure _))
              (Keeps-in_device _ (tame.spi_transfer handler mosi)))
            λ miso.
              Keeps-then _ _ (note-Keeps o tame _ _ _)
                (Keeps-then _ _ (deliver_deferred-Keeps o tame) (Keeps-pure miso)))

  -- onSpiTransaction
  pub spi_transaction-Keeps : (begin : Bool) → Keeps (suc n) (on_spi_transaction o begin)
  unfolding on_spi_transaction
  spi_transaction-Keeps true = Keeps-then _ _ (spi-Keeps _) (note-Keeps o tame _ _ _)
  spi_transaction-Keeps false = Keeps-then _ _ (spi-Keeps _) (
      Keeps-bind _ _ (Keeps-get _)
        λ spi. Keeps-then _ _ (note-Keeps o tame _ _ _) (deliver_deferred-Keeps o tame))

  -- onUartActivity
  pub uart_activity-Keeps : (port : Port) (a : Activity) → Keeps (suc n) (on_uart_activity o port a)
  unfolding on_uart_activity
  uart_activity-Keeps port (tx bytes) = Keeps-bind _ _ (Keeps-get _) λ handler.
      Keeps-then _ _ (note-Keeps o tame _ _ _) (
        Keeps-when _ _ (
          Keeps-then _ _ (Keeps-in_device _ (tame.uart_tx_handler handler bytes))
            (deliver_deferred-Keeps o tame)))
  uart_activity-Keeps port (rx b) = note-Keeps o tame _ _ _
  uart_activity-Keeps port begin = note-Keeps o tame _ _ _
  uart_activity-Keeps port finish = note-Keeps o tame _ _ _
  uart_activity-Keeps port config = note-Keeps o tame _ _ _
  uart_activity-Keeps port (rx_discard len) = note-Keeps o tame _ _ _

  push-Keeps : (port : Port) (bytes : List ℕ) → Keeps (suc n) (push o port bytes)
  unfolding push
  push-Keeps port bytes =
      Keeps-bind _ _ (Keeps-peek _) λ r. Keeps-then _ _ (Keeps-outside _) (Keeps-pure _)

  -- uartInjectOn
  pub uart_inject-Keeps :
      (origin : Origin) (port : Port) (bytes : List ℕ)
      → Keeps (suc n) (uart_inject_on o origin port bytes)
  unfolding uart_inject_on
  uart_inject-Keeps origin port bytes = Keeps-then _ _ (note-Keeps o tame _ _ _) (
      Keeps-bind _ _ (push-Keeps port bytes) λ accepted.
        Keeps-if _ _ _ (Keeps-then _ _ (diagnose-Keeps o tame _ _) (Keeps-pure _)) (Keeps-pure _))

  call_channel-Keeps : (channel : ℕ) (bytes : List ℕ) → Keeps (suc n) (call_channel o channel bytes)
  unfolding call_channel
  call_channel-Keeps channel bytes = Keeps-bind _ _ (Keeps-get _) λ handler. Keeps-when _ _ (
      Keeps-bind _ _ (Keeps-in_device _ (tame.channel_handler handler channel bytes)) λ applied.
        Keeps-then _ _ (Keeps-when _ _ (diagnose-Keeps o tame _ _)) (deliver_deferred-Keeps o tame))

  -- chanWrite
  pub chan_write-Keeps :
      (origin : Origin) (channel : ℕ) (bytes : List ℕ)
      → Keeps (suc n) (chan_write o origin channel bytes)
  unfolding chan_write
  chan_write-Keeps origin channel bytes = Keeps-then _ _ (note-Keeps o tame _ _ _) (
      Keeps-bind _ _ (refuse-Keeps o tame _)
        λ refused. Keeps-if _ _ _ (Keeps-pure tt) (call_channel-Keeps channel bytes))
