-- ===== src/Host/Bind.antt =====
-- The setters of src/embedbench_host.cpp: one binding each, which persists across runs.
use embed_bench.Host.State.{State, Handler, Bindings}
use embed_bench.Host.Uart.{Port, serial1, serial2}

abbrev pub on_bindings : (Bindings → Bindings) → State → State
on_bindings f s = record s { bindings = f s.bindings }

unfoldable pub bind_uart_device_on : Port → Handler → State → State
bind_uart_device_on serial1 h = on_bindings (λ b. record b { uart = h })
bind_uart_device_on serial2 h = on_bindings (λ b. record b { uart2 = h })

unfoldable pub bind_uart_device : Handler → State → State
unfolding bind_uart_device_on
bind_uart_device = bind_uart_device_on serial1

unfoldable pub set_channel_handler : Handler → State → State
set_channel_handler h = on_bindings (λ b. record b { channel = h })

unfoldable pub bind_spi_device : Handler → State → State
bind_spi_device h = on_bindings (λ b. record b { spi_device = h })

unfoldable pub set_pin_write_forward : Handler → State → State
set_pin_write_forward h = on_bindings (λ b. record b { pin_forward = h })

unfoldable pub bind_frame_device : Handler → State → State
bind_frame_device h = on_bindings (λ b. record b { frame_device = h })

unfoldable pub set_frame_receiver : Handler → State → State
set_frame_receiver h = on_bindings (λ b. record b { frame_receiver = h })

unfoldable pub set_tick_handler : Handler → State → State
set_tick_handler h = on_bindings (λ b. record b { tick = h })

unfoldable pub bind_tick_device : Handler → State → State
bind_tick_device h = on_bindings (λ b. record b { tick_device = h })

unfoldable pub set_zero_wait_handler : Handler → State → State
set_zero_wait_handler h = on_bindings (λ b. record b { zero_wait = h })
