-- ===== src/Host/Monad.antt =====
-- The environment with the world round it, the calls that leave src/embedbench_host.cpp, and the
-- state monad in which its functions are written.
use embed_bench.Prelude.{ℕ, Bool, true, false, Option, none, some, List}
use embed_bench.Trace.{Event}
use embed_bench.Host.State.{Handler, State}

-- `world` is all that the host core, the devices and the application keep. `stuck` is set where a
-- loop of the model used up its rounds.
pub record Sys {ℓ} (W : Type ℓ) : Type ℓ where
  pub host : State
  pub world : W
  pub stuck : Bool

-- An action: it returns a result and the system after it.
abbrev pub M {ℓ κ} : Type ℓ → Type κ → Type (ℓ ⊔ κ)
M W A = Sys W → A × Sys W

module _ {ℓ κ} {W : Type ℓ} {A : Type κ} where
  unfoldable pub pure : A → M W A
  pure a s = (a, s)

  -- What an action reads of the state, and of everything.
  unfoldable pub get : (State → A) → M W A
  get f s = (f s.host, s)

  unfoldable pub peek : (Sys W → A) → M W A
  peek f s = (f s, s)

module _ {ℓ} {W : Type ℓ} where
  unfoldable pub modify : (State → State) → M W (Unit {0})
  modify f s = (tt, record s { host = f s.host })

  -- A change outside the environment.
  unfoldable pub outside : (W → W) → M W (Unit {0})
  outside f s = (tt, record s { world = f s.world })

  unfoldable pub when : Bool → M W (Unit {0}) → M W (Unit {0})
  unfolding pure
  when true m = m
  when false m = pure tt

  -- A loop that ran out of rounds.
  unfoldable pub give_up : M W (Unit {0})
  give_up s = (tt, record s { stuck = true })

infixl 5 ◌>>=◌ ◌>>◌
unfoldable pub ◌>>=◌ {ℓ κ μ} : {W : Type ℓ} {A : Type κ} {B : Type μ} → M W A → (A → M W B) → M W B
unfolding pure get peek modify outside when give_up
◌>>=◌ m f s = f (m s).0 (m s).1

unfoldable pub ◌>>◌ {ℓ κ} : {W : Type ℓ} {B : Type κ} → M W (Unit {0}) → M W B → M W B
unfolding ◌>>=◌
m >> k = m >>= λ _. k

-- The two branches of a pointer that may be null.
unfoldable pub maybe {ℓ κ μ} :
    {W : Type ℓ} {A : Type κ} {B : Type μ} → Option A → M W B → (A → M W B) → M W B
maybe none m k = m
maybe (some a) m k = k a

-- HostArduino::InterruptTrigger, as far as the source tells them apart.
pub data Trigger : Type 0 where
  rising falling change other : Trigger

-- The code behind the pointers that the environment holds, and the host core's functions that it
-- calls. None of it stands in the repository's src/; each call may use the whole environment.
-- `rounds` bounds the loops whose length such calls decide.
pub record Outside {ℓ} (W : Type ℓ) : Type ℓ where
  pub rounds : ℕ
  -- EventListener, TickDeviceFn, TickHandler, ZeroWaitHandler, PinWriteForward, UartTxHandler.
  pub listener : Handler → Event → M W (Unit {0})
  pub tick_device : Handler → ℕ → M W (Unit {0})
  pub tick_handler : Handler → ℕ → M W (Unit {0})
  pub zero_wait_handler : Handler → ℕ → M W (Unit {0})
  pub pin_write_forward : Handler → ℕ → ℕ → M W (Unit {0})
  pub uart_tx_handler : Handler → List ℕ → M W (Unit {0})
  -- FrameHandler: bus, format, data, bits.
  pub frame_handler : Handler → ℕ → ℕ → List ℕ → ℕ → M W (Unit {0})
  -- ChannelHandler: whether the device applied the whole payload.
  pub channel_handler : Handler → ℕ → List ℕ → M W Bool
  -- SpiTransferFn
  pub spi_transfer : Handler → ℕ → M W ℕ
  -- WireDeviceOps: data, stop, continued; the status. Length, stop, continued; the number of bytes
  -- that the device claims, and the caller's buffer of that length as the device leaves it: bytes that it
  -- claims and does not write are the caller's own.
  pub wire_write : ℕ → List ℕ → Bool → Bool → M W ℕ
  pub wire_read : ℕ → ℕ → Bool → Bool → M W (ℕ × List ℕ)
  -- HostArduino: it runs the pin's interrupt handler between the hook's enter and exit events.
  pub trigger_interrupt : ℕ → M W (Unit {0})
  pub pin_value : ℕ → W → ℕ
  pub interrupt_trigger : ℕ → W → Trigger
  pub set_pin_value : ℕ → ℕ → W → W
  pub set_analog_value : ℕ → ℕ → W → W
  pub set_analog_milli_volts : ℕ → ℕ → W → W
  -- Serial1 or Serial2 `pushRx`: how many bytes were accepted.
  pub push_rx : ℕ → List ℕ → W → ℕ × W
  -- The hooks that runBegin installs and runEnd clears, and the lifecycle hook.
  pub install_hooks : W → W
  pub clear_hooks : W → W
  pub set_lifecycle_hook : W → W
