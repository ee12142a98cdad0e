-- ===== src/Host/Contract/Whole.antt =====
-- Run windows as a whole, and code behind the pointers that consists of calls.
use embed_bench.Prelude.{ℕ, zero, suc, ◌<◌, ◌≡◌, refl, true, false, List, [], arith}
use mathlib.Core.Bool.{false≢true}
use embed_bench.Trace.{word32}
use embed_bench.Host.State.{State, initial}
use embed_bench.Host.Monad.{Sys, Outside, ◌>>=◌, ◌>>◌}
use embed_bench.Host.Window.{begin_state, stop_running, run_begin, run_end}
use embed_bench.Host.Session.{Call, Step, run_window, scripted}
use embed_bench.Host.Contract.{Sound, Evolves, Tame}
use embed_bench.Host.Contract.Rules.{Keeps-then, Keeps-pure, Keeps-call}
use embed_bench.Host.Contract.Session.{
  perform_all-Keeps, handle_interrupt-Keeps, perform_steps-Keeps,
}

begin_state-Sound : (tick_us : ℕ) (s : State) → Sound s → Sound (begin_state tick_us s)
unfolding begin_state
begin_state-Sound tick_us s v = record {
  buffer = omega arith;
  books = λ _. record {
    bounded = omega arith;
    full = λ h. ground (arith, h);
    exhausted = refl;
    fresh = λ h. ground (arith, h);
    tally = refl;
    slots = refl;
  };
  queue = omega arith;
  peak = omega arith;
  wakes = refl;
  wire = v.wire;
  formats = v.formats;
  listeners = v.listeners;
  director = omega arith;
}

-- What holds at the end of a run window: the state is sound, recording has stopped, and no call is
-- left open.
pub record Closed (s : State) : Type 0 where
  pub sound : Sound s
  pub stopped : s.trace.running ≡ false
  pub outside_devices : s.reentry.device_depth ≡ 0
  pub outside_directors : s.context.dir_depth ≡ 0
  pub outside_interrupts : s.context.isr_depth ≡ 0

closed :
    (tick_us : ℕ) {n : ℕ} (s b : State)
    → n < word32
    → Evolves n (begin_state tick_us s) b
    → Sound (begin_state tick_us s)
    → Closed (stop_running b)
unfolding begin_state
closed tick_us s b room e v =
    let t = e.sound v in
    record {
      sound = record {
        buffer = t.buffer;
        books = λ h. ground (arith, h);
        queue = t.queue;
        peak = t.peak;
        wakes = t.wakes;
        wire = t.wire;
        formats = t.formats;
        listeners = t.listeners;
        director = t.director;
      };
      stopped = refl;
      outside_devices = e.depth (omega (arith, room));
      outside_directors = e.director (omega arith);
      outside_interrupts = e.interrupt (omega (arith, room));
    }

module _ {ℓ} {W : Type ℓ} (o : Outside W) {n : ℕ} (tame : Tame n o) where
  -- A run window over a session, begun in a sound state over tame code that may nest `n` deep, with
  -- `n + 2` below 2^32, ends sound and stopped, outside every device, director and interrupt. A session
  -- is any sequence of the calls that `Call` lists and of interrupts whose handlers make such calls.
  pub run_window-Closed :
      (tick_us : ℕ) (cs : List Step) (s : Sys W)
      → suc (suc n) < word32
      → Sound s.host
      → Closed (run_window o tick_us cs s).1.host
  unfolding run_window run_begin run_end ◌>>◌ ◌>>=◌
  run_window-Closed tick_us cs s room v =
      let e = (perform_steps-Keeps o tame cs).at (run_begin o tick_us s).1 in
      closed tick_us s.host _ room e (begin_state-Sound tick_us s.host v)

-- How deep code nests whose calls nest `n` deep: each may be into a device and from an interrupt.
abbrev pub levels : ℕ → ℕ
levels zero = 0
levels (suc n) = suc (suc (levels n))

module _ {ℓ} {W : Type ℓ} where
  -- Code that makes the calls its `fn` stands for, nested `n` deep at most, is tame.
  pub scripted-Tame :
      (rounds : ℕ) (script : ℕ → List Call) (n : ℕ)
      → Tame {W = W} (levels n) (scripted rounds script n)
  unfolding scripted
  scripted-Tame rounds script zero = record {
    listener = λ h e. Keeps-pure tt;
    tick_device = λ h now. Keeps-pure tt;
    tick_handler = λ h tick. Keeps-pure tt;
    zero_wait_handler = λ h count. Keeps-pure tt;
    pin_write_forward = λ h pin value. Keeps-pure tt;
    uart_tx_handler = λ h bytes. Keeps-pure tt;
    frame_handler = λ h bus format bytes bits. Keeps-pure tt;
    channel_handler = λ h channel bytes. Keeps-pure true;
    spi_transfer = λ h mosi. Keeps-pure 0;
    wire_write = λ ops bytes stop continued. Keeps-pure 0;
    wire_read = λ ops len stop continued. Keeps-pure (0, []);
    trigger_interrupt = λ pin. Keeps-pure tt;
  }
  scripted-Tame rounds script (suc n) =
      let calls = λ (fn : ℕ). Keeps-call _ (
        perform_all-Keeps (scripted {W = W} rounds script n) (scripted-Tame rounds script n)
          (script fn)) in
      let served = λ (pin : ℕ).
        handle_interrupt-Keeps (scripted {W = W} rounds script n) (scripted-Tame rounds script n)
          pin (script pin) in
      record {
        listener = λ h e. calls h.fn;
        tick_device = λ h now. calls h.fn;
        tick_handler = λ h tick. calls h.fn;
        zero_wait_handler = λ h count. calls h.fn;
        pin_write_forward = λ h pin value. calls h.fn;
        uart_tx_handler = λ h bytes. calls h.fn;
        frame_handler = λ h bus format bytes bits. calls h.fn;
        channel_handler = λ h channel bytes. Keeps-then _ _ (calls h.fn) (Keeps-pure true);
        spi_transfer = λ h mosi. Keeps-then _ _ (calls h.fn) (Keeps-pure 0);
        wire_write = λ ops bytes stop continued. Keeps-then _ _ (calls ops) (Keeps-pure 0);
        wire_read = λ ops len stop continued. Keeps-then _ _ (calls ops) (Keeps-pure (0, []));
        trigger_interrupt = λ pin. served pin;
      }

-- A default-constructed environment is sound.
pub initial-Sound : Sound initial
initial-Sound = record {
  buffer = omega arith;
  books = λ h. absurd (false≢true h);
  queue = omega arith;
  peak = omega arith;
  wakes = refl;
  wire = refl;
  formats = refl;
  listeners = refl;
  director = omega arith;
}
