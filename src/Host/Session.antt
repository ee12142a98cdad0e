-- ===== src/Host/Session.antt =====
-- Calls of the entry points of src/embedbench_host.cpp as values, sequences of them, and code that
-- consists of such calls behind the pointers of the environment.
use embed_bench.Prelude.{ℕ, zero, suc, Bool, true, Option, List, [], ◌∷◌}
use embed_bench.Trace.{Origin}
use embed_bench.Host.State.{State, Handler}
use embed_bench.Host.Monad.{M, pure, ◌>>=◌, ◌>>◌, modify, Outside, change}
use embed_bench.Host.Record.{add_listener, remove_listener}
use embed_bench.Host.Clock.{on_wait, request_wake}
use embed_bench.Host.Gpio.{
  on_pin_write, on_pin_read, on_pin_mode, pin_inject, attach, detach, enter_isr, exit_isr,
  on_interrupt_event,
}
use embed_bench.Host.Wire.{bind_wire_device_on, on_wire_write_on, on_wire_read_on}
use embed_bench.Host.Spi.{on_spi_transfer, on_spi_transaction}
use embed_bench.Host.Uart.{Port, Activity, on_uart_activity, uart_inject_on, chan_write}
use embed_bench.Host.Formats.{register_format, frame_tx, frame_rx}
use embed_bench.Host.Analog.{
  on_analog_read, on_analog_milli_volts, on_analog_read_config, on_analog_write, AnalogWrite,
  analog_inject, analog_inject_milli_volts, device_note, dumpf,
}
use embed_bench.Host.Bind.{
  bind_uart_device_on, set_channel_handler, bind_spi_device, set_pin_write_forward,
  bind_frame_device, set_frame_receiver, set_tick_handler, bind_tick_device, set_zero_wait_handler,
}
use embed_bench.Host.Window.{run_begin, run_end}

-- The setters of a single binding.
pub data Setting : Type 0 where
  uart_device : Port → Setting
  channel_handler spi_device pin_forward frame_device frame_receiver : Setting
  tick_handler tick_device zero_wait_handler : Setting

unfoldable pub assign : Setting → Handler → State → State
assign (uart_device port) h = bind_uart_device_on port h
assign channel_handler h = set_channel_handler h
assign spi_device h = bind_spi_device h
assign pin_forward h = set_pin_write_forward h
assign frame_device h = bind_frame_device h
assign frame_receiver h = set_frame_receiver h
assign tick_handler h = set_tick_handler h
assign tick_device h = bind_tick_device h
assign zero_wait_handler h = set_zero_wait_handler h

-- The hooks of the application and the calls of directors and devices, with their arguments.
pub data Call : Type 0 where
  wait : (us : ℕ) → Call
  wake : (due : ℕ) → Call
  pin_write pin_read pin_mode : (pin value : ℕ) → Call
  inject_pin : Origin → (pin level : ℕ) → Call
  bind_wire : (bus address ops : ℕ) → Call
  wire_write : (bus address : ℕ) → List ℕ → (stop : Bool) → Call
  wire_read : (bus address len : ℕ) → (stop : Bool) → Call
  spi_transfer : (mosi : ℕ) → Call
  spi_transaction : (begin : Bool) → Call
  uart : Port → Activity → Call
  inject_uart : Origin → Port → List ℕ → Call
  channel : Origin → (number : ℕ) → List ℕ → Call
  register : List ℕ → (schema : ℕ) → Call
  send_frame receive_frame : Origin → (bus format : ℕ) → Option (List ℕ) → (bits : ℕ) → Call
  analog_read : (pin held : ℕ) → Call
  analog_write : AnalogWrite → (pin duty hz : ℕ) → Call
  inject_analog : Origin → (pin raw : ℕ) → Call
  say dump : List ℕ → Call
  listen : Handler → Call
  unlisten : (fn : ℕ) → Call
  attach_interrupt : (pin trigger : ℕ) → Call
  detach_interrupt : (pin : ℕ) → Call
  analog_milli_volts : (pin held : ℕ) → Call
  analog_config : (bits : ℕ) → Call
  inject_milli_volts : Origin → (pin mv : ℕ) → Call
  set : Setting → Handler → Call

-- What happens in a session: a call, or an interrupt, whose handler makes calls between the two hooks
-- that the host core calls round it.
pub data Step : Type 0 where
  calling : Call → Step
  interrupt : (pin : ℕ) → List Call → Step

unfoldable pub drop_result {ℓ κ} : {W : Type ℓ} {A : Type κ} → M W A → M W (Unit {0})
drop_result m = m >>= λ _. pure tt

module _ {ℓ} {W : Type ℓ} (o : Outside W) where
  unfoldable pub perform : Call → M W (Unit {0})
  perform (wait us) = on_wait o us
  perform (wake due) = drop_result (request_wake o due)
  perform (pin_write pin value) = on_pin_write o pin value
  perform (pin_read pin value) = drop_result (on_pin_read o pin value)
  perform (pin_mode pin value) = on_pin_mode o pin value
  perform (inject_pin origin pin level) = pin_inject o origin pin level
  perform (bind_wire bus address ops) = drop_result (bind_wire_device_on o bus address ops)
  perform (wire_write bus address bytes stop) =
      drop_result (on_wire_write_on o bus address bytes stop)
  perform (wire_read bus address len stop) = drop_result (on_wire_read_on o bus address len stop)
  perform (spi_transfer mosi) = drop_result (on_spi_transfer o mosi)
  perform (spi_transaction begin) = on_spi_transaction o begin
  perform (uart port activity) = on_uart_activity o port activity
  perform (inject_uart origin port bytes) = drop_result (uart_inject_on o origin port bytes)
  perform (channel origin number bytes) = chan_write o origin number bytes
  perform (register name schema) = drop_result (register_format o name schema)
  perform (send_frame origin bus format bytes bits) =
      drop_result (frame_tx o origin bus format bytes bits)
  perform (receive_frame origin bus format bytes bits) =
      drop_result (frame_rx o origin bus format bytes bits)
  perform (analog_read pin held) = drop_result (on_analog_read o pin held)
  perform (analog_write event pin duty hz) = on_analog_write o event pin duty hz
  perform (inject_analog origin pin raw) = analog_inject o origin pin raw
  perform (say text) = device_note o text
  perform (dump text) = dumpf o text
  perform (listen l) = drop_result (add_listener o l)
  perform (unlisten fn) = drop_result (remove_listener o fn)
  perform (attach_interrupt pin trigger) = on_interrupt_event o (attach pin trigger)
  perform (detach_interrupt pin) = on_interrupt_event o (detach pin)
  perform (analog_milli_volts pin held) = drop_result (on_analog_milli_volts o pin held)
  perform (analog_config bits) = on_analog_read_config o bits
  perform (inject_milli_volts origin pin mv) = analog_inject_milli_volts o origin pin mv
  perform (set setting h) = modify (assign setting h)

  unfoldable pub perform_all : List Call → M W (Unit {0})
  perform_all [] = pure tt
  perform_all (c ∷ cs) = do perform c; perform_all cs

  -- An interrupt handler that makes the calls given, between its two hooks.
  unfoldable pub handle_interrupt : ℕ → List Call → M W (Unit {0})
  handle_interrupt pin cs = do
    on_interrupt_event o (enter_isr pin)
    perform_all cs
    on_interrupt_event o (exit_isr pin)

  unfoldable pub perform_step : Step → M W (Unit {0})
  perform_step (calling c) = perform c
  perform_step (interrupt pin cs) = handle_interrupt pin cs

  unfoldable pub perform_steps : List Step → M W (Unit {0})
  perform_steps [] = pure tt
  perform_steps (c ∷ cs) = do perform_step c; perform_steps cs

  -- A run window round a session.
  unfoldable pub run_window : ℕ → List Step → M W (Unit {0})
  run_window tick_us cs = do run_begin o tick_us; perform_steps cs; run_end o

-- Code behind the pointers that does nothing, and code that makes the calls its `fn` stands for, whose
-- own pointers nest one level less; loops get the rounds given. The interrupt handler of a pin, between
-- its two hooks, has the pin's number for `fn`, and the devices answer with zeros.
unfoldable pub scripted {ℓ} : {W : Type ℓ} → ℕ → (ℕ → List Call) → ℕ → Outside W
scripted rounds script zero = record {
  rounds = rounds;
  listener = λ h e. pure tt;
  tick_device = λ h now. pure tt;
  tick_handler = λ h tick. pure tt;
  zero_wait_handler = λ h count. pure tt;
  pin_write_forward = λ h pin value. pure tt;
  uart_tx_handler = λ h bytes. pure tt;
  frame_handler = λ h bus format bytes bits. pure tt;
  channel_handler = λ h channel bytes. pure true;
  spi_transfer = λ h mosi. pure 0;
  wire_write = λ ops bytes stop continued. pure 0;
  wire_read = λ ops len stop continued. pure (0, []);
  trigger_interrupt = λ pin. pure tt;
  pin_value = λ pin w. 0;
  interrupt_trigger = λ pin w. change;
  set_pin_value = λ pin level w. w;
  set_analog_value = λ pin raw w. w;
  set_analog_milli_volts = λ pin mv w. w;
  push_rx = λ port bytes w. (0, w);
  install_hooks = λ w. w;
  clear_hooks = λ w. w;
  set_lifecycle_hook = λ w. w;
}
scripted rounds script (suc n) =
    let inner = scripted rounds script n in
    record inner {
      listener = λ h e. perform_all inner (script h.fn);
      tick_device = λ h now. perform_all inner (script h.fn);
      tick_handler = λ h tick. perform_all inner (script h.fn);
      zero_wait_handler = λ h count. perform_all inner (script h.fn);
      pin_write_forward = λ h pin value. perform_all inner (script h.fn);
      uart_tx_handler = λ h bytes. perform_all inner (script h.fn);
      frame_handler = λ h bus format bytes bits. perform_all inner (script h.fn);
      channel_handler = λ h channel bytes. (do perform_all inner (script h.fn); pure true);
      spi_transfer = λ h mosi. (do perform_all inner (script h.fn); pure 0);
      wire_write = λ ops bytes stop continued. (do perform_all inner (script ops); pure 0);
      wire_read = λ ops len stop continued. (do perform_all inner (script ops); pure (0, []));
      trigger_interrupt = λ pin. handle_interrupt inner pin (script pin);
    }
