-- ===== src/Host/Clock.antt =====
-- The clock of src/embedbench_host.cpp: `fireTick`, `onWait`, `requestWake`, `onNow` and
-- `pendingWakeUs`.
pub mod Exact
use embed_bench.Prelude.{
  ℕ, zero, suc, ◌+◌, ◌-◌, ◌%◌, Bool, true, false, ◌&&◌, ◌||◌, Option, none, some, List, [], ◌∷◌,
  ◌++◌, ltb, leb, ◌==◌, not, if◌then◌else◌,
}
use embed_bench.Label.{codes, dec}
use embed_bench.Trace.{diag, word32}
use embed_bench.Wake.{next_wake_after, retire_wakes_up_to, request, wake_slots}
use embed_bench.Host.State.{State, Clock, Context, word64}
use embed_bench.Host.Monad.{Sys, M, pure, ◌>>=◌, ◌>>◌, get, modify, when, give_up, maybe, Outside}
use embed_bench.Host.Record.{note}
use embed_bench.Host.Deferral.{in_device, deliver_deferred}

abbrev pub on_clock : (Clock → Clock) → State → State
on_clock f s = record s { clock = f s.clock }

abbrev pub enter_director : State → State
enter_director s = record s {
  context = record s.context { dir_depth = (s.context.dir_depth + 1) % word32 };
}

abbrev pub leave_director : State → State
leave_director s = record s {
  context = record s.context { dir_depth = (s.context.dir_depth + word32 - 1) % word32 };
}

-- Inside a director or an interrupt handler.
abbrev pub nested : State → Bool
nested s = ltb 0 s.context.dir_depth || ltb 0 s.context.isr_depth

-- kCoreLoopSliceUs
abbrev pub core_loop_slice_us : ℕ
core_loop_slice_us = 1000

-- `while (nextTick <= target) { ++pendingTicks; nextTick += tickUs; }`, on rounds.
unfoldable pub defer_ticks : ℕ → ℕ → Clock → Option Clock
defer_ticks zero target c = if leb c.next_tick target then none else some c
defer_ticks (suc rounds) target c =
    let rest = defer_ticks rounds target (record c {
      pending_ticks = (c.pending_ticks + 1) % word32;
      next_tick = (c.next_tick + c.tick_us) % word64;
    }) in
    if leb c.next_tick target then rest else some c

-- The next stop of a wait: a tick boundary, or an earlier wake.
pub record Stop : Type 0 where
  pub time : ℕ
  pub is_wake : Bool

unfoldable pub next_stop : Clock → Stop
next_stop c =
    let wake = next_wake_after c.wakes c.vnow in
    if not (wake == 0) && ltb wake c.next_tick
    then record { time = wake; is_wake = true }
    else record { time = c.next_tick; is_wake = false }

-- Time moves to a stop, and the wakes that are due there are retired; a tick boundary also moves the
-- next one on.
unfoldable pub reach : Stop → Clock → Clock
reach p c = record c {
  vnow = p.time;
  next_tick = if p.is_wake then c.next_tick else (c.next_tick + c.tick_us) % word64;
  wakes = retire_wakes_up_to c.wakes p.time;
}

-- What runs between ++dirDepth and --dirDepth.
unfoldable pub as_director {ℓ κ} : {W : Type ℓ} {A : Type κ} → M W A → M W A
as_director m = do modify enter_director; r ← m; modify leave_director; pure r

module _ {ℓ} {W : Type ℓ} (o : Outside W) where
  -- The device's part of a tick: it is advanced to the present.
  unfoldable pub advance_devices : M W (Unit {0})
  advance_devices = do
    device ← get (λ s. s.bindings.tick_device)
    when (not (device.fn == 0))
        (do now ← get (λ s. s.clock.vnow); in_device (o.tick_device device now); deliver_deferred o)

  -- A wake: the device's part alone, as a director.
  unfoldable pub serve_wake : M W (Unit {0})
  serve_wake = as_director advance_devices

  -- fireTick
  unfoldable pub fire_tick : M W (Unit {0})
  fire_tick = do
    modify (on_clock (λ c. record c { ticks = (c.ticks + 1) % word32 }))
    as_director (do
      advance_devices
      handler ← get (λ s. s.bindings.tick)
      ticks ← get (λ s. s.clock.ticks)
      when (not (handler.fn == 0)) (o.tick_handler handler ticks))

  -- The loop over the ticks that nested waits held back, on rounds.
  unfoldable pub late_ticks : ℕ → M W (Unit {0})
  late_ticks zero = do pending ← get (λ s. s.clock.pending_ticks); when (ltb 0 pending) give_up
  late_ticks (suc rounds) =
      let rest = late_ticks rounds in
      (do
        pending ← get (λ s. s.clock.pending_ticks)
        when (ltb 0 pending) (do
          modify (
              on_clock (λ c. record c {
                pending_ticks = c.pending_ticks - 1;
                late_ticks = (c.late_ticks + 1) % word32;
              }))
          fire_tick
          rest))

  -- The end of the slice, where nothing is left to serve: time moves to the target.
  abbrev pub arrive : ℕ → M W (Unit {0})
  arrive target =
      modify (on_clock (λ c. if ltb c.vnow target then record c { vnow = target } else c))

  -- The `for (;;)` loop of onWait, on rounds. `loops` tells a slice that its caller resumes.
  unfoldable pub wait_rounds : ℕ → ℕ → Bool → M W (Unit {0})
  wait_rounds zero target loops = give_up
  wait_rounds (suc rounds) target loops =
      let rest = wait_rounds rounds target loops in
      (do
        stop ← get (λ s. next_stop s.clock)
        if ltb target stop.time
            then arrive target
            else if stop.is_wake
            then (do modify (on_clock (reach stop)); serve_wake; if loops then pure tt else rest)
            else (do modify (on_clock (reach stop)); fire_tick; late_ticks o.rounds; rest))

  -- onWait with us == 0.
  unfoldable pub zero_wait : M W (Unit {0})
  zero_wait = do
    inside ← get nested
    if inside
        then modify
            (on_clock (λ c. record c { zero_in_director = (c.zero_in_director + 1) % word32 }))
        else (do
          modify (on_clock (λ c. record c { zero_waits = (c.zero_waits + 1) % word32 }))
          handler ← get (λ s. s.bindings.zero_wait)
          when (not (handler.fn == 0)) (
              as_director
                (do count ← get (λ s. s.clock.zero_waits); o.zero_wait_handler handler count)))

  -- A wait inside a director or an interrupt handler: time moves, the ticks are held back.
  unfoldable pub nested_wait : ℕ → M W (Unit {0})
  nested_wait target = do
    clock ← get (λ s. s.clock)
    maybe (defer_ticks o.rounds target clock) give_up
        (λ c. modify (on_clock (λ _. record c { vnow = target })))

  -- onWait
  unfoldable pub on_wait : ℕ → M W (Unit {0})
  on_wait us = if us == 0 then zero_wait else (do
    inside ← get nested
    now ← get (λ s. s.clock.vnow)
    if inside
        then nested_wait ((now + us) % word64)
        else wait_rounds o.rounds ((now + us) % word64) (us == core_loop_slice_us))

  -- requestWake
  unfoldable pub request_wake : ℕ → M W Bool
  request_wake due = do
    clock ← get (λ s. s.clock)
    maybe (request clock.wakes clock.vnow due)
        (do
          modify (on_clock (λ c. record c { dropped_wakes = (c.dropped_wakes + 1) % word32 }))
          note o diag 0 (codes "diag.wake_full pending=" ++ dec wake_slots)
          pure false)
        (λ ws. do modify (on_clock (λ c. record c { wakes = ws })); pure true)

  -- onNow and nowUs
  abbrev pub now_us : M W ℕ
  now_us = get (λ s. s.clock.vnow)

  -- pendingWakeUs
  unfoldable pub pending_wake_us : M W ℕ
  pending_wake_us = get (λ s. next_wake_after s.clock.wakes s.clock.vnow)
