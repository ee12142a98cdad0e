-- ===== src/Host/Contract/Session.antt =====
-- Whole sequences of calls and run windows, and code that consists of calls.
use embed_bench.Prelude.{
  ℕ, suc, ◌+◌, ◌≡◌, refl, true, some, List, [], ◌∷◌, arith, length, ◌++◌, ◌%◌, Option-cases, inl,
  inr,
}
use embed_bench.Trace.{Origin, core, word32}
use embed_bench.Label.{fit, codes, dec}
use embed_bench.Host.State.{State, Bindings, Handler, FormatSlot}
use embed_bench.Host.Monad.{Sys, M, Outside, pure, modify, ◌>>=◌, ◌>>◌}
use embed_bench.Host.Formats.{
  take_format, find_format, register, Registration, known, added, empty_name, long_name, conflict,
  full, settle, register_format,
}
use embed_bench.Host.Session.{
  Call, Step, Setting, assign, drop_result, perform, perform_all, handle_interrupt, perform_step,
  perform_steps,
}
use embed_bench.Host.Bind.{
  bind_uart_device_on, set_channel_handler, bind_spi_device, set_pin_write_forward,
  bind_frame_device, set_frame_receiver, set_tick_handler, bind_tick_device, set_zero_wait_handler,
}
use embed_bench.Host.Uart.{serial1, serial2}
use embed_bench.Host.Record.{diagnose}
use embed_bench.Host.Gpio.{on_context, attach, detach, on_interrupt_event, on_pin_read, on_pin_mode}
use embed_bench.Host.Analog.{
  AnalogWrite, on_analog_read, on_analog_milli_volts, on_analog_read_config,
  analog_inject_milli_volts, on_analog_write, analog_inject, device_note, dumpf,
}
use embed_bench.Host.Contract.{Evolves, Keeps, Tame}
use embed_bench.Host.Contract.Rules.{
  Keeps-bind, Keeps-then, Keeps-pure, Keeps-read, Keeps-call, Keeps-modify, isr-Evolves,
  keeps_rules,
}
use embed_bench.Host.Contract.Recording.{
  recordf-Keeps, note-Keeps, diagnose-Keeps, add_listener-Keeps, remove_listener-Keeps,
}
use embed_bench.Host.Contract.Time.{on_wait-Keeps, request_wake-Keeps}
use embed_bench.Host.Contract.Buses.{
  on_pin_write-Keeps, pin_inject-Keeps, bind_wire-Keeps, wire_write-Keeps, wire_read-Keeps,
  spi_transfer-Keeps, spi_transaction-Keeps, uart_activity-Keeps, uart_inject-Keeps,
  chan_write-Keeps,
}
use embed_bench.Host.Contract.Routing.{frame_tx-Keeps, frame_rx-Keeps}

length-take_format :
    (fs : List FormatSlot) (new : FormatSlot) (i k : ℕ) (fs' : List FormatSlot)
    → take_format fs new i ≡ some (k, fs')
    → length fs' ≡ length fs
unfolding take_format
length-take_format [] new i k fs' e = cc
length-take_format (f ∷ fs) new i k fs' e = elim (Option-cases (take_format fs new (i + 1))) [
  | inl n ↦ ground (arith, n)
  | inr ((j, rest), n) ↦ ground (arith, length-take_format fs new (i + 1) j rest n)
]

-- A registration leaves the registry at its size.
Fits : ℕ → Registration → Type 0
Fits size (added id fs) = length fs ≡ size
Fits size _ = Unit {0}

register-Fits :
    (fs : List FormatSlot) (name : List ℕ) (schema : ℕ) → Fits (length fs) (register fs name schema)
unfolding register Fits
register-Fits fs name schema = elim (Option-cases (find_format fs name 0)) [
  | inr ((i, f), e) ↦ ground (arith, e)
  | inl e ↦
      elim (Option-cases
        (take_format fs (record { used = true; name = fit 20 name; schema = schema }) 0)) [
          | inl e' ↦ ground (arith, e, e')
          | inr ((i, fs'), e') ↦ ground (arith, e, e', length-take_format fs _ 0 i fs' e')
        ]
]

module _ {ℓ} {W : Type ℓ} (o : Outside W) {n : ℕ} (tame : Tame n o) where
  drop_result-Keeps {κ} : {A : Type κ} (m : M W A) → Keeps (suc n) m → Keeps (suc n) (drop_result m)
  unfolding drop_result
  drop_result-Keeps m h = Keeps-bind _ _ h (λ _. Keeps-pure tt)

  on_pin_read-Keeps : (pin held : ℕ) → Keeps (suc n) (on_pin_read o pin held)
  unfolding on_pin_read
  on_pin_read-Keeps pin held = search (keeps_rules, note-Keeps o tame)

  on_pin_mode-Keeps : (pin mode : ℕ) → Keeps (suc n) (on_pin_mode o pin mode)
  unfolding on_pin_mode
  on_pin_mode-Keeps pin mode = note-Keeps o tame _ _ _

  on_analog_read-Keeps : (pin held : ℕ) → Keeps (suc n) (on_analog_read o pin held)
  unfolding on_analog_read
  on_analog_read-Keeps pin held = search (keeps_rules, note-Keeps o tame, recordf-Keeps o tame)

  on_analog_write-Keeps :
      (event : AnalogWrite) (pin duty hz : ℕ) → Keeps (suc n) (on_analog_write o event pin duty hz)
  unfolding on_analog_write
  on_analog_write-Keeps event pin duty hz = note-Keeps o tame _ _ _

  analog_inject-Keeps :
      (origin : Origin) (pin raw : ℕ) → Keeps (suc n) (analog_inject o origin pin raw)
  unfolding analog_inject
  analog_inject-Keeps origin pin raw = search (keeps_rules, note-Keeps o tame)

  device_note-Keeps : (text : List ℕ) → Keeps (suc n) (device_note o text)
  unfolding device_note
  device_note-Keeps text = note-Keeps o tame _ _ _

  dumpf-Keeps : (text : List ℕ) → Keeps (suc n) (dumpf o text)
  unfolding dumpf
  dumpf-Keeps text = note-Keeps o tame _ _ _

  added-at :
      (fs : List FormatSlot) (id : ℕ) (s : Sys W)
      → length fs ≡ length s.host.formats
      → Evolves (suc n) s.host ((do modify (λ s. record s { formats = fs }); pure id) s).1.host
  unfolding ◌>>◌ ◌>>=◌
  added-at fs id s h = record {
    depth = λ _. refl;
    director = λ _. refl;
    interrupt = λ _. refl;
    sound = λ v. ground (arith, h);
  }

  refused-Keeps : (text : List ℕ) → Keeps {A = ℕ} (suc n) (do diagnose o 0 text; pure 0)
  refused-Keeps text = Keeps-then _ _ (diagnose-Keeps o tame 0 text) (Keeps-pure 0)

  settle-at :
      (name : List ℕ) (r : Registration) (s : Sys W)
      → Fits (length s.host.formats) r
      → Evolves (suc n) s.host (settle o name r s).1.host
  unfolding settle Fits
  settle-at name empty_name s h = (Keeps-pure 0).at s
  settle-at name long_name s h = (refused-Keeps _).at s
  settle-at name (known id) s h = (Keeps-pure id).at s
  settle-at name conflict s h = (refused-Keeps _).at s
  settle-at name (added id fs) s h = added-at fs id s h
  settle-at name full s h = (refused-Keeps _).at s

  register_format-Keeps :
      (name : List ℕ) (schema : ℕ) → Keeps (suc n) (register_format o name schema)
  unfolding register_format
  register_format-Keeps name schema =
      Keeps-read _ _ λ s. settle-at name _ s (register-Fits s.host.formats name schema)

  analog_milli_volts-Keeps : (pin held : ℕ) → Keeps (suc n) (on_analog_milli_volts o pin held)
  unfolding on_analog_milli_volts
  analog_milli_volts-Keeps pin held = search (keeps_rules, note-Keeps o tame, recordf-Keeps o tame)

  analog_config-Keeps : (bits : ℕ) → Keeps (suc n) (on_analog_read_config o bits)
  unfolding on_analog_read_config
  analog_config-Keeps bits = note-Keeps o tame _ _ _

  inject_milli_volts-Keeps :
      (origin : Origin) (pin mv : ℕ) → Keeps (suc n) (analog_inject_milli_volts o origin pin mv)
  unfolding analog_inject_milli_volts
  inject_milli_volts-Keeps origin pin mv = search (keeps_rules, note-Keeps o tame)

  attach-Keeps : (pin trigger : ℕ) → Keeps (suc n) (on_interrupt_event o (attach pin trigger))
  unfolding on_interrupt_event
  attach-Keeps pin trigger = note-Keeps o tame _ _ _

  detach-Keeps : (pin : ℕ) → Keeps (suc n) (on_interrupt_event o (detach pin))
  unfolding on_interrupt_event
  detach-Keeps pin = note-Keeps o tame _ _ _

  bindings-Evolves : (b : Bindings) (s : State) → Evolves (suc n) s (record s { bindings = b })
  bindings-Evolves b s = record {
    depth = λ _. refl;
    director = λ _. refl;
    interrupt = λ _. refl;
    sound = λ v. record {
      buffer = v.buffer;
      books = v.books;
      queue = v.queue;
      peak = v.peak;
      wakes = v.wakes;
      wire = v.wire;
      formats = v.formats;
      listeners = v.listeners;
      director = v.director;
    };
  }

  assign-Evolves : (x : Setting) (h : Handler) (s : State) → Evolves (suc n) s (assign x h s)
  unfolding assign bind_uart_device_on set_channel_handler bind_spi_device set_pin_write_forward
      bind_frame_device set_frame_receiver set_tick_handler bind_tick_device set_zero_wait_handler
  assign-Evolves (Setting.uart_device serial1) h s = bindings-Evolves _ s
  assign-Evolves (Setting.uart_device serial2) h s = bindings-Evolves _ s
  assign-Evolves Setting.channel_handler h s = bindings-Evolves _ s
  assign-Evolves Setting.spi_device h s = bindings-Evolves _ s
  assign-Evolves Setting.pin_forward h s = bindings-Evolves _ s
  assign-Evolves Setting.frame_device h s = bindings-Evolves _ s
  assign-Evolves Setting.frame_receiver h s = bindings-Evolves _ s
  assign-Evolves Setting.tick_handler h s = bindings-Evolves _ s
  assign-Evolves Setting.tick_device h s = bindings-Evolves _ s
  assign-Evolves Setting.zero_wait_handler h s = bindings-Evolves _ s

  -- Every entry point keeps the contract.
  pub perform-Keeps : (c : Call) → Keeps (suc n) (perform o c)
  unfolding perform
  perform-Keeps (Call.wait us) = on_wait-Keeps o tame us
  perform-Keeps (Call.wake due) = drop_result-Keeps _ (request_wake-Keeps o tame due)
  perform-Keeps (Call.pin_write pin value) = on_pin_write-Keeps o tame pin value
  perform-Keeps (Call.pin_read pin value) = drop_result-Keeps _ (on_pin_read-Keeps pin value)
  perform-Keeps (Call.pin_mode pin value) = on_pin_mode-Keeps pin value
  perform-Keeps (Call.inject_pin origin pin level) = pin_inject-Keeps o tame origin pin level
  perform-Keeps (Call.bind_wire bus address ops) =
      drop_result-Keeps _ (bind_wire-Keeps o tame bus address ops)
  perform-Keeps (Call.wire_write bus address bytes stop) =
      drop_result-Keeps _ (wire_write-Keeps o tame bus address bytes stop)
  perform-Keeps (Call.wire_read bus address len stop) =
      drop_result-Keeps _ (wire_read-Keeps o tame bus address len stop)
  perform-Keeps (Call.spi_transfer mosi) = drop_result-Keeps _ (spi_transfer-Keeps o tame mosi)
  perform-Keeps (Call.spi_transaction begin) = spi_transaction-Keeps o tame begin
  perform-Keeps (Call.uart port activity) = uart_activity-Keeps o tame port activity
  perform-Keeps (Call.inject_uart origin port bytes) =
      drop_result-Keeps _ (uart_inject-Keeps o tame origin port bytes)
  perform-Keeps (Call.channel origin number bytes) = chan_write-Keeps o tame origin number bytes
  perform-Keeps (Call.register name schema) =
      drop_result-Keeps _ (register_format-Keeps name schema)
  perform-Keeps (Call.send_frame origin bus format bytes bits) =
      drop_result-Keeps _ (frame_tx-Keeps o tame origin bus format bytes bits)
  perform-Keeps (Call.receive_frame origin bus format bytes bits) =
      drop_result-Keeps _ (frame_rx-Keeps o tame origin bus format bytes bits)
  perform-Keeps (Call.analog_read pin held) = drop_result-Keeps _ (on_analog_read-Keeps pin held)
  perform-Keeps (Call.analog_write event pin duty hz) = on_analog_write-Keeps event pin duty hz
  perform-Keeps (Call.inject_analog origin pin raw) = analog_inject-Keeps origin pin raw
  perform-Keeps (Call.say text) = device_note-Keeps text
  perform-Keeps (Call.dump text) = dumpf-Keeps text
  perform-Keeps (Call.listen l) = drop_result-Keeps _ (add_listener-Keeps o tame l)
  perform-Keeps (Call.unlisten fn) = drop_result-Keeps _ (remove_listener-Keeps o tame fn)
  perform-Keeps (Call.attach_interrupt pin trigger) = attach-Keeps pin trigger
  perform-Keeps (Call.detach_interrupt pin) = detach-Keeps pin
  perform-Keeps (Call.analog_milli_volts pin held) =
      drop_result-Keeps _ (analog_milli_volts-Keeps pin held)
  perform-Keeps (Call.analog_config bits) = analog_config-Keeps bits
  perform-Keeps (Call.inject_milli_volts origin pin mv) = inject_milli_volts-Keeps origin pin mv
  perform-Keeps (Call.set setting h) = Keeps-modify _ (assign-Evolves setting h)

  pub perform_all-Keeps : (cs : List Call) → Keeps (suc n) (perform_all o cs)
  unfolding perform_all
  perform_all-Keeps [] = Keeps-pure tt
  perform_all-Keeps (c ∷ cs) = Keeps-then _ _ (perform-Keeps c) (perform_all-Keeps cs)

  -- An interrupt is one level more of nesting.
  pub handle_interrupt-Keeps :
      (pin : ℕ) (cs : List Call) → Keeps (suc (suc n)) (handle_interrupt o pin cs)
  unfolding handle_interrupt on_interrupt_event ◌>>◌ ◌>>=◌
  handle_interrupt-Keeps pin cs =
      let body = Keeps-then _ _ (note-Keeps o tame core 0 (codes "isr.enter pin=" ++ dec pin)) (
        Keeps-then _ _ (perform_all-Keeps cs)
          (note-Keeps o tame core 0 (codes "isr.exit pin=" ++ dec pin))) in
      record {
        at = λ s. isr-Evolves s.host _ (
            body.at (record s {
              host = on_context (λ c. record c { isr_depth = (c.isr_depth + 1) % word32 }) s.host;
            }));
      }

  perform_step-Keeps : (c : Step) → Keeps (suc (suc n)) (perform_step o c)
  unfolding perform_step
  perform_step-Keeps (Step.calling c) = Keeps-call _ (perform-Keeps c)
  perform_step-Keeps (Step.interrupt pin cs) = handle_interrupt-Keeps pin cs

  -- Take a session: any sequence of the calls that `Call` lists and of interrupts, whose handlers make
  -- such calls between the hooks on entry and exit, over code behind the pointers that is tame. It leaves
  -- the device depth, the director depth and the interrupt depth as it found them (as far as the
  -- nesting cannot wrap the 32-bit depths), and a sound state sound: no table, queue or buffer outgrows its
  -- array, the books of an open run window balance, and the recorded peak depth is never below the
  -- present one.
  pub perform_steps-Keeps : (cs : List Step) → Keeps (suc (suc n)) (perform_steps o cs)
  unfolding perform_steps
  perform_steps-Keeps [] = Keeps-pure tt
  perform_steps-Keeps (c ∷ cs) = Keeps-then _ _ (perform_step-Keeps c) (perform_steps-Keeps cs)
