-- ===== src/Host/Window.antt =====
-- The run window of src/embedbench_host.cpp: `runBegin`, `runEnd`, `armRunWindow`, `onLifecycle`,
-- `runWindowClosed` and `completedLoops`.
use embed_bench.Prelude.{
  ℕ, ◌+◌, ◌%◌, Bool, true, false, ◌&&◌, [], ◌++◌, ltb, leb, not, if◌then◌else◌,
}
use embed_bench.Label.{codes, dec}
use embed_bench.Trace.{core, word32}
use embed_bench.Wake.{no_wakes}
use embed_bench.Host.State.{State, Window, closed_bus, idle_spi, quiet_reentry}
use embed_bench.Host.Monad.{M, ◌>>=◌, ◌>>◌, get, modify, outside, when, Outside}
use embed_bench.Host.Record.{note}

-- The fields that runBegin resets, and the three it keeps: `outsideWindow`, `windows`, counted up, and
-- the bindings with all that belongs to them.
unfoldable pub begin_state : ℕ → State → State
begin_state tick_us s = record s {
  trace = record s.trace {
    buf = [];
    next_seq = 1;
    dropped = 0;
    folded = 0;
    windows = (s.trace.windows + 1) % word32;
    fold_exhausted = false;
    truncated = false;
    diag_count = 0;
    running = true;
  };
  clock = record {
    tick_us = tick_us;
    vnow = 0;
    next_tick = tick_us;
    ticks = 0;
    pending_ticks = 0;
    late_ticks = 0;
    zero_waits = 0;
    zero_in_director = 0;
    wakes = no_wakes;
    dropped_wakes = 0;
  };
  context = record { dir_depth = 0; isr_depth = 0 };
  reentry = quiet_reentry;
  open_address = closed_bus;
  spi = idle_spi;
}

abbrev pub stop_running : State → State
stop_running s = record s { trace = record s.trace { running = false } }

abbrev pub on_window : (Window → Window) → State → State
on_window f s = record s { window = f s.window }

-- HostArduino::LifecyclePhase
pub data Phase : Type 0 where
  pre_setup post_setup pre_loop post_loop : Phase

abbrev pub is_open : Window → Bool
is_open w = w.armed && not w.closed

module _ {ℓ} {W : Type ℓ} (o : Outside W) where
  unfoldable pub run_begin : ℕ → M W (Unit {0})
  run_begin tick_us = do modify (begin_state tick_us); outside o.install_hooks

  unfoldable pub run_end : M W (Unit {0})
  run_end = do modify stop_running; outside o.clear_hooks

  unfoldable pub arm_run_window : ℕ → ℕ → M W (Unit {0})
  arm_run_window tick_us loops = do
    modify (
        on_window (λ _. record {
          armed = true;
          closed = false;
          loops = if ltb 0 loops then loops else 1;
          tick_us = if ltb 0 tick_us then tick_us else 1;
          loops_done = 0;
        }))
    outside o.set_lifecycle_hook

  -- The postLoop of the configured loop closes the window.
  unfoldable pub end_window : M W (Unit {0})
  end_window = do
    w ← get (λ s. s.window)
    when (is_open w && leb w.loops w.loops_done) (do
      note o core 0 (codes "life.window_end loops=" ++ dec w.loops_done)
      modify (on_window (λ w. record w { closed = true }))
      run_end)

  unfoldable pub on_lifecycle : Phase → M W (Unit {0})
  on_lifecycle pre_setup = do
    w ← get (λ s. s.window)
    when (is_open w) (do run_begin w.tick_us; note o core 0 (codes "life.pre_setup"))
  on_lifecycle post_setup = note o core 0 (codes "life.post_setup")
  on_lifecycle pre_loop = do
    done ← get (λ s. s.window.loops_done)
    note o core 0 (codes "life.pre_loop n=" ++ dec ((done + 1) % word32))
  on_lifecycle post_loop = do
    modify (on_window (λ w. record w { loops_done = (w.loops_done + 1) % word32 }))
    done ← get (λ s. s.window.loops_done)
    note o core 0 (codes "life.post_loop n=" ++ dec done)
    end_window
