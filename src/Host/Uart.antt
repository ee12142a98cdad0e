-- ===== src/Host/Uart.antt =====
-- Serial ports and channels in src/embedbench_host.cpp: `onUartActivity`, `uartInjectOn`,
-- `uartInject` and `chanWrite`.
use embed_bench.Prelude.{
  ℕ, Bool, true, false, List, [], ◌∷◌, ◌++◌, ltb, ◌==◌, not, if◌then◌else◌, length,
}
use embed_bench.Label.{codes, dec, hex_byte, hex_of, bytes_label, is_text}
use embed_bench.Trace.{Origin, app}
use embed_bench.Host.State.{State, Handler}
use embed_bench.Host.Monad.{M, pure, ◌>>=◌, ◌>>◌, get, peek, outside, when, Outside}
use embed_bench.Host.Record.{note, diagnose}
use embed_bench.Host.Deferral.{in_device, deliver_deferred, refuse_reentrant_call}

-- SerialPort
pub data Port : Type 0 where
  serial1 serial2 : Port

abbrev pub port_tag : Port → List ℕ
port_tag serial1 = []
port_tag serial2 = codes " port=2"

abbrev pub port_num : Port → ℕ
port_num serial1 = 1
port_num serial2 = 2

abbrev pub uart_handler : Port → State → Handler
uart_handler serial1 s = s.bindings.uart
uart_handler serial2 s = s.bindings.uart2

-- HostUart::ActivityEvent with what the source reads of it.
pub data Activity : Type 0 where
  tx : List ℕ → Activity
  rx : ℕ → Activity
  begin finish config : Activity
  rx_discard : ℕ → Activity

-- A received byte prints as itself or as 0xNN.
abbrev pub rx_text : ℕ → List ℕ
rx_text b = if is_text b then b ∷ [] else codes "0x" ++ hex_byte b

module _ {ℓ} {W : Type ℓ} (o : Outside W) where
  unfoldable pub on_uart_activity : Port → Activity → M W (Unit {0})
  on_uart_activity port (tx bytes) = do
    handler ← get (uart_handler port)
    note o app 0 (codes "uart.tx" ++ port_tag port ++ codes " " ++ bytes_label bytes 24)
    when (not (handler.fn == 0))
        (do in_device (o.uart_tx_handler handler bytes); deliver_deferred o)
  on_uart_activity port (rx b) =
      note o app 0 (codes "uart.rx" ++ port_tag port ++ codes " " ++ rx_text b)
  on_uart_activity port begin = note o app 0 (codes "uart.begin" ++ port_tag port)
  on_uart_activity port finish = note o app 0 (codes "uart.end" ++ port_tag port)
  on_uart_activity port config = note o app 0 (codes "uart.config" ++ port_tag port)
  on_uart_activity port (rx_discard len) =
      note o app 0 (codes "uart.rx_discard" ++ port_tag port ++ codes " len=" ++ dec len)

  -- The receive queue takes what it can.
  unfoldable pub push : Port → List ℕ → M W ℕ
  push port bytes = do
    r ← peek (λ s. o.push_rx (port_num port) bytes s.world)
    outside (λ _. r.1)
    pure r.0

  unfoldable pub uart_inject_on : Origin → Port → List ℕ → M W Bool
  uart_inject_on origin port bytes = do
    note o origin 0 (codes "dev.tx" ++ port_tag port ++ codes " " ++ bytes_label bytes 24)
    accepted ← push port bytes
    if ltb accepted (length bytes)
        then (do
          diagnose o 0 (
              codes "diag.uart_rx_full accepted="
              ++ dec accepted
              ++ codes " len="
              ++ dec (length bytes))
          pure false)
        else pure true

  -- The channel's device answers, outside any other device call.
  unfoldable pub call_channel : ℕ → List ℕ → M W (Unit {0})
  call_channel channel bytes = do
    handler ← get (λ s. s.bindings.channel)
    when (not (handler.fn == 0)) (do
      applied ← in_device (o.channel_handler handler channel bytes)
      when (not applied) (
          diagnose o 0
            (codes "diag.chan_reject chan=" ++ dec channel ++ codes " len=" ++ dec (length bytes)))
      deliver_deferred o)

  unfoldable pub chan_write : Origin → ℕ → List ℕ → M W (Unit {0})
  chan_write origin channel bytes = do
    note o origin 0 (codes "chan.write chan=" ++ dec channel ++ codes " data=" ++ hex_of bytes 12)
    refused ← refuse_reentrant_call o (codes "chan.write")
    if refused then pure tt else call_channel channel bytes
