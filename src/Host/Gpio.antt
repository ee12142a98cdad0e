-- ===== src/Host/Gpio.antt =====
-- Pins and interrupts in src/embedbench_host.cpp: `onPinWrite`, `onPinRead`, `onPinMode`,
-- `onInterruptEvent` and `pinInject`.
use embed_bench.Prelude.{
  ℕ, ◌+◌, ◌-◌, ◌%◌, Bool, true, false, ◌&&◌, ◌++◌, ltb, ◌==◌, not, if◌then◌else◌,
}
use embed_bench.Label.{codes, dec}
use embed_bench.Trace.{Origin, app, core, word32}
use embed_bench.Host.State.{State, Context, isr}
use embed_bench.Host.Monad.{
  M, pure, ◌>>=◌, ◌>>◌, get, peek, modify, outside, when, Outside, Trigger, rising, falling, change,
}
use embed_bench.Host.Record.{note}
use embed_bench.Host.Deferral.{in_device, deliver_deferred, queue_deferred}

abbrev pub on_context : (Context → Context) → State → State
on_context f s = record s { context = f s.context }

-- HostArduino::InterruptEvent with the slot's pin, and its trigger where the source prints it.
pub data InterruptEvent : Type 0 where
  attach : (pin trigger : ℕ) → InterruptEvent
  detach enter_isr exit_isr : (pin : ℕ) → InterruptEvent

abbrev pub is_rising : Trigger → Bool
is_rising rising = true
is_rising change = true
is_rising _ = false

abbrev pub is_falling : Trigger → Bool
is_falling falling = true
is_falling change = true
is_falling _ = false

-- Whether an edge from `previous` to `level` (LOW is 0, HIGH is 1) fires the pin's trigger.
unfoldable pub edge_matches : ℕ → ℕ → Trigger → Bool
edge_matches previous level trigger =
    if previous == 0 && level == 1
    then is_rising trigger
    else if previous == 1 && level == 0
    then is_falling trigger
    else false

module _ {ℓ} {W : Type ℓ} (o : Outside W) where
  unfoldable pub on_pin_write : ℕ → ℕ → M W (Unit {0})
  on_pin_write pin value = do
    note o app 0 (codes "gpio.write pin=" ++ dec pin ++ codes " val=" ++ dec value)
    forward ← get (λ s. s.bindings.pin_forward)
    when (not (forward.fn == 0))
        (do in_device (o.pin_write_forward forward pin value); deliver_deferred o)

  unfoldable pub on_pin_read : ℕ → ℕ → M W ℕ
  on_pin_read pin held = do
    note o app 0 (codes "gpio.read pin=" ++ dec pin ++ codes " val=" ++ dec held)
    pure held

  unfoldable pub on_pin_mode : ℕ → ℕ → M W (Unit {0})
  on_pin_mode pin mode =
      note o app 0 (codes "gpio.mode pin=" ++ dec pin ++ codes " mode=" ++ dec mode)

  unfoldable pub on_interrupt_event : InterruptEvent → M W (Unit {0})
  on_interrupt_event (attach pin trigger) =
      note o app 0 (codes "int.attach pin=" ++ dec pin ++ codes " trig=" ++ dec trigger)
  on_interrupt_event (detach pin) = note o app 0 (codes "int.detach pin=" ++ dec pin)
  on_interrupt_event (enter_isr pin) = do
    modify (on_context (λ c. record c { isr_depth = (c.isr_depth + 1) % word32 }))
    note o core 0 (codes "isr.enter pin=" ++ dec pin)
  on_interrupt_event (exit_isr pin) = do
    note o core 0 (codes "isr.exit pin=" ++ dec pin)
    modify (
        on_context (λ c. record c {
          isr_depth = if ltb 0 c.isr_depth then c.isr_depth - 1 else c.isr_depth;
        }))

  unfoldable pub pin_inject : Origin → ℕ → ℕ → M W (Unit {0})
  pin_inject origin pin level = do
    previous ← peek (λ s. o.pin_value pin s.world)
    trigger ← peek (λ s. o.interrupt_trigger pin s.world)
    let match = edge_matches previous level trigger
    note o origin 0 (
        codes "gpio.inject pin="
        ++ dec pin
        ++ codes " "
        ++ dec previous
        ++ codes "->"
        ++ dec level
        ++ codes " match="
        ++ dec (if match then 1 else 0))
    outside (o.set_pin_value pin level)
    depth ← get (λ s. s.reentry.device_depth)
    if not match
        then pure tt
        else if ltb 0 depth
        then queue_deferred o (isr pin)
        else o.trigger_interrupt pin
