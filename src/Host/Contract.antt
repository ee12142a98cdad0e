-- ===== src/Host/Contract.antt =====
-- What the entry points of src/embedbench_host.cpp that a session calls keep true, whatever the devices and the
-- application do inside it: `Evolves` for one call, with a rule for each way to build an action.
pub mod Rules
pub mod Recording
pub mod Held
pub mod Time
pub mod Buses
pub mod Routing
pub mod Session
pub mod Whole
use embed_bench.Prelude.{ℕ, ◌+◌, ◌≤◌, ◌<◌, ◌≡◌, Bool, true, List, length}
use embed_bench.Trace.{Event, capacity, word32}
use embed_bench.Trace.Accounting.{IsAccounted}
use embed_bench.Host.State.{State, Handler}
use embed_bench.Host.Monad.{Sys, M, Outside}
use embed_bench.Host.Deferral.{deferral_capacity}

-- The tables keep their sizes, the queue and the buffer stay within theirs, the books of a run window
-- are kept, and the recorded peak of the device depth is no lie.
pub record Sound (s : State) : Type 0 where
  pub buffer : length s.trace.buf ≤ capacity
  pub books : s.trace.running ≡ true → IsAccounted s.trace
  pub queue : length s.reentry.deferred ≤ deferral_capacity
  pub peak : s.reentry.device_depth ≤ s.reentry.max_device_depth
  pub wakes : length s.clock.wakes ≡ 8
  pub wire : length s.wire ≡ 4
  pub formats : length s.formats ≡ 8
  pub listeners : length s.listeners.slots ≡ 4
  pub director : s.context.dir_depth < word32

-- One call leaves every depth as it found it, and what is sound stays so. `n` is how deep calls into
-- devices, and interrupts, may still nest in it: `++` on a depth of 2^32 - 1 would wrap.
pub record Evolves (n : ℕ) (a b : State) : Type 0 where
  pub depth : a.reentry.device_depth + n < word32 → b.reentry.device_depth ≡ a.reentry.device_depth
  pub director : a.context.dir_depth < word32 → b.context.dir_depth ≡ a.context.dir_depth
  pub interrupt : a.context.isr_depth + n < word32 → b.context.isr_depth ≡ a.context.isr_depth
  pub sound : Sound a → Sound b

pub record Keeps {ℓ κ} {W : Type ℓ} {A : Type κ} (n : ℕ) (m : M W A) : Type (ℓ ⊔ κ) where
  pub at : (s : Sys W) → Evolves n s.host (m s).1.host

-- The contract for the code behind the pointers and for interrupt handlers: each such call returns
-- with the depths that it found, and acts on the environment in no way that breaks it.
-- `Host.Contract.Whole` shows that code which makes calls that `Host.Session` lists is of this kind.
pub record Tame {ℓ} {W : Type ℓ} (n : ℕ) (o : Outside W) : Type ℓ where
  pub listener : (h : Handler) (e : Event) → Keeps n (o.listener h e)
  pub tick_device : (h : Handler) (now : ℕ) → Keeps n (o.tick_device h now)
  pub tick_handler : (h : Handler) (tick : ℕ) → Keeps n (o.tick_handler h tick)
  pub zero_wait_handler : (h : Handler) (count : ℕ) → Keeps n (o.zero_wait_handler h count)
  pub pin_write_forward : (h : Handler) (pin value : ℕ) → Keeps n (o.pin_write_forward h pin value)
  pub uart_tx_handler : (h : Handler) (bytes : List ℕ) → Keeps n (o.uart_tx_handler h bytes)
  pub frame_handler :
      (h : Handler) (bus format : ℕ) (bytes : List ℕ) (bits : ℕ)
      → Keeps n (o.frame_handler h bus format bytes bits)
  pub channel_handler :
      (h : Handler) (channel : ℕ) (bytes : List ℕ) → Keeps n (o.channel_handler h channel bytes)
  pub spi_transfer : (h : Handler) (mosi : ℕ) → Keeps n (o.spi_transfer h mosi)
  pub wire_write :
      (ops : ℕ) (bytes : List ℕ) (stop continued : Bool)
      → Keeps n (o.wire_write ops bytes stop continued)
  pub wire_read :
      (ops len : ℕ) (stop continued : Bool) → Keeps n (o.wire_read ops len stop continued)
  pub trigger_interrupt : (pin : ℕ) → Keeps n (o.trigger_interrupt pin)
