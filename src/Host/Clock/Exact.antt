-- ===== src/Host/Clock/Exact.antt =====
-- How long a wait lasts.
pub mod Ticks
pub mod Stops
use embed_bench.Prelude.{
  ℕ, zero, suc, ◌+◌, ◌%◌, ◌≤◌, ◌<◌, ◌≡◌, ◌≢◌, refl, ◌∙◌, sym, ap, ap₂, subst, Bool, true, false,
  max, ltb, ◌==◌, not, if◌then◌else◌, if_rule, Bool-cases, inl, inr, arith,
}
use mathlib.Core.Bool.{false≢true}
use embed_bench.Trace.{word32}
use embed_bench.Wake.Table.{Has, next_wake_after_lem, Has-retire}
use embed_bench.Host.State.{Clock, Handler, word64}
use embed_bench.Host.Monad.{Sys, M, ◌>>=◌, ◌>>◌, get, modify, when, Outside}
use embed_bench.Host.Clock.{
  on_clock, enter_director, nested, core_loop_slice_us, Stop, next_stop, reach, as_director,
  advance_devices, serve_wake, fire_tick, late_ticks, zero_wait, nested_wait, arrive, wait_rounds,
  on_wait,
}
use embed_bench.Host.Clock.Exact.Ticks.{
  Still, Patient, serve_nobody, fire_tick-Still, late_ticks_none,
}
use embed_bench.Host.Clock.Exact.Stops.{
  Nearest, next_stop-Nearest, Ready, reach-Ready, reach-wake, reach-tick, stopped_at-ticks,
  stopped_at, stopped_at-Ready, Ready-ticks,
}

-- The boundary that is `n` periods after `b`, and the number of the tick that is `n` after tick `k`.
abbrev pub boundary_after : (n period b : ℕ) → ℕ
boundary_after zero period b = b
boundary_after (suc n) period b = boundary_after n period (b + period)

abbrev pub tick_after : (n k : ℕ) → ℕ
tick_after zero k = k
tick_after (suc n) k = tick_after n ((k + 1) % word32)

-- What the handler does to the world for `n` ticks, one after the other, the first of them after tick `k`.
abbrev pub serve {ℓ} : {W : Type ℓ} → (mark : ℕ → W → W) → (n k : ℕ) → W → W
serve mark zero k w = w
serve mark (suc n) k w = serve mark n ((k + 1) % word32) (mark ((k + 1) % word32) w)

-- The system at the end of a wait that asked for `target`: the time is exactly that, every wake that is
-- left lies ahead, and no loop ran out of rounds. The handler was called for each of `served` ticks in
-- turn, which are those with a boundary up to `target`: the next boundary lies ahead, by one period at
-- most if it is not the one that was next all along.
pub record Arrived {ℓ} {W : Type ℓ} (mark : ℕ → W → W) (target : ℕ) (s t : Sys W) : Type ℓ where
  pub time : t.host.clock.vnow ≡ target
  pub ready : Ready t.host.clock
  pub stuck : t.stuck ≡ s.stuck
  pub served : ℕ
  pub boundary :
      t.host.clock.next_tick ≡ boundary_after served s.host.clock.tick_us s.host.clock.next_tick
  pub latest : t.host.clock.next_tick ≤ max s.host.clock.next_tick (target + s.host.clock.tick_us)
  pub counted : t.host.clock.ticks ≡ tick_after served s.host.clock.ticks
  pub world : t.world ≡ serve mark served s.host.clock.ticks s.world

module _ {ℓ} {W : Type ℓ} (o : Outside W) {mark : ℕ → W → W} (p : Patient o mark) where
  -- What one more round needs.
  record Waits (rounds target : ℕ) (s : Sys W) : Type ℓ where
    nobody : s.host.bindings.tick_device.fn ≡ 0
    bound : s.host.bindings.tick.fn ≢ 0
    ready : Ready s.host.clock
    before : s.host.clock.vnow ≤ target
    room : target + s.host.clock.tick_us < word64
    enough : target < s.host.clock.vnow + rounds

  abbrev reached : Sys W → Sys W
  reached s = record s { host = on_clock (reach (next_stop s.host.clock)) s.host }

  reached-Waits :
      (rounds target : ℕ) (s : Sys W)
      → (next_stop s.host.clock).time ≤ target
      → Waits (suc rounds) target s
      → Waits rounds target (reached s)
  unfolding reach
  reached-Waits rounds target s le w =
      let n = next_stop-Nearest s.host.clock w.ready.ahead in
      record {
        nobody = w.nobody;
        bound = w.bound;
        ready = reach-Ready s.host.clock target w.ready le w.room;
        before = le;
        room = w.room;
        enough = omega (arith, n.later, w.enough);
      }

  Waits-Still :
      (rounds target k : ℕ) (g : W → W) (s t : Sys W)
      → Still (λ c. record c { ticks = k }) g s t
      → Waits rounds target s
      → Waits rounds target t
  Waits-Still rounds target k g s t h w = record {
    nobody = ap (λ b. b.tick_device.fn) h.bindings ∙ w.nobody;
    bound = λ z. w.bound (sym (ap (λ b. b.tick.fn) h.bindings) ∙ z);
    ready = subst Ready (sym h.clock) (Ready-ticks s.host.clock w.ready k);
    before = omega (arith, w.before, ap (λ c. c.vnow) h.clock);
    room = omega (arith, w.room, ap (λ c. c.tick_us) h.clock);
    enough = omega (arith, w.enough, ap (λ c. c.vnow) h.clock);
  }

  if_Arrived :
      (b : Bool) (m k : M W (Unit {0})) (target : ℕ) (s : Sys W)
      → (b ≡ true → Arrived mark target s (m s).1)
      → (b ≡ false → Arrived mark target s (k s).1)
      → Arrived mark target s ((if b then m else k) s).1
  if_Arrived true m k target s h g = h refl
  if_Arrived false m k target s h g = g refl

  arrived :
      (target : ℕ) (s : Sys W)
      → Ready s.host.clock
      → s.host.clock.vnow ≤ target
      → target < (next_stop s.host.clock).time
      → Arrived mark target s (arrive o target s).1
  unfolding modify
  arrived target s r le over =
      let e = stopped_at-Ready s.host.clock target r le over in
      let k = stopped_at-ticks target s.host.clock in
      record {
        time = e.0;
        ready = e.1;
        stuck = refl;
        served = 0;
        boundary = k.0;
        latest = omega (arith, k.0);
        counted = k.1;
        world = refl;
      }

  woken :
      (rounds target : ℕ) (s : Sys W)
      → ((t : Sys W)
          → Waits rounds target t
          → Arrived mark target t (wait_rounds o rounds target false t).1)
      → (next_stop s.host.clock).is_wake ≡ true
      → Waits rounds target (reached s)
      → Arrived mark target s (wait_rounds o rounds target false (serve_wake o (reached s)).1).1
  unfolding reach
  woken rounds target s rest b v =
      let h = serve_nobody o (reached s) v.nobody in
      let u = (serve_wake o (reached s)).1 in
      let a = rest _ (
        Waits-Still rounds target _ (λ w. w) (reached s) _
          (record { clock = h.clock; bindings = h.bindings; stuck = h.stuck; world = h.world })
          v) in
      let period : u.host.clock.tick_us ≡ s.host.clock.tick_us = ap (λ c. c.tick_us) h.clock in
      let next : u.host.clock.next_tick ≡ s.host.clock.next_tick =
        ap (λ c. c.next_tick) h.clock ∙ reach-wake s.host.clock b in
      let ticks : u.host.clock.ticks ≡ s.host.clock.ticks = ap (λ c. c.ticks) h.clock in
      record {
        time = a.time;
        ready = a.ready;
        stuck = a.stuck ∙ h.stuck;
        served = a.served;
        boundary = a.boundary ∙ ap₂ (boundary_after a.served) period next;
        latest = omega (arith, a.latest, period, next);
        counted = a.counted ∙ ap (tick_after a.served) ticks;
        world = a.world ∙ ap₂ (serve mark a.served) ticks h.world;
      }

  ticked :
      (rounds target : ℕ) (s : Sys W)
      → ((t : Sys W)
          → Waits rounds target t
          → Arrived mark target t (wait_rounds o rounds target false t).1)
      → s.host.clock.vnow < s.host.clock.next_tick
      → (next_stop s.host.clock).is_wake ≡ false
      → (next_stop s.host.clock).time ≤ target
      → Waits rounds target (reached s)
      → Arrived mark target s
          (wait_rounds o rounds target false
            (late_ticks o o.rounds (fire_tick o (reached s)).1).1).1
  unfolding reach
  ticked rounds target s rest ahead b le v =
      let h = fire_tick-Still o p (reached s) v.nobody v.bound in
      let u = (fire_tick o (reached s)).1 in
      let k =
        Waits-Still rounds target _ (mark ((s.host.clock.ticks + 1) % word32)) (reached s) _
          (record { clock = h.clock; bindings = h.bindings; stuck = h.stuck; world = h.world }) v in
      let a = rest _ k in
      let n = reach-tick s.host.clock target ahead b le v.room in
      let period : u.host.clock.tick_us ≡ s.host.clock.tick_us = ap (λ c. c.tick_us) h.clock in
      let next : u.host.clock.next_tick ≡ s.host.clock.next_tick + s.host.clock.tick_us =
        ap (λ c. c.next_tick) h.clock ∙ n.0 in
      let ticks : u.host.clock.ticks ≡ (s.host.clock.ticks + 1) % word32 =
        ap (λ c. c.ticks) h.clock in
      subst (λ u. Arrived mark target s (wait_rounds o rounds target false u).1)
        (sym (late_ticks_none o o.rounds _ k.ready.none_held))
        (record {
          time = a.time;
          ready = a.ready;
          stuck = a.stuck ∙ h.stuck;
          served = suc a.served;
          boundary = a.boundary ∙ ap₂ (boundary_after a.served) period next;
          latest = omega (arith, a.latest, period, next, n.1);
          counted = a.counted ∙ ap (tick_after a.served) ticks;
          world = a.world ∙ ap₂ (serve mark a.served) ticks h.world;
        })

  -- The three ways in which a round goes on.
  abbrev on_wake : ℕ → ℕ → Stop → M W (Unit {0})
  on_wake rounds target stop = do
    modify (on_clock (reach stop))
    serve_wake o
    wait_rounds o rounds target false

  abbrev on_tick : ℕ → ℕ → Stop → M W (Unit {0})
  on_tick rounds target stop = do
    modify (on_clock (reach stop))
    fire_tick o
    late_ticks o o.rounds
    wait_rounds o rounds target false

  abbrev on_stop : ℕ → ℕ → Stop → M W (Unit {0})
  on_stop rounds target stop =
      if stop.is_wake then on_wake rounds target stop else on_tick rounds target stop

  wait_rounds-Arrived :
      (rounds target : ℕ) (s : Sys W)
      → Waits rounds target s
      → Arrived mark target s (wait_rounds o rounds target false s).1
  unfolding wait_rounds ◌>>=◌ ◌>>◌
  wait_rounds-Arrived zero target s w = absurd (omega (arith, w.before, w.enough))
  wait_rounds-Arrived (suc rounds) target s w =
      if_Arrived (ltb target (next_stop s.host.clock).time) (arrive o target)
        (on_stop rounds target (next_stop s.host.clock)) target s
        (λ b. arrived target s w.ready w.before (ground (arith, b)))
        (λ b.
          if_Arrived (next_stop s.host.clock).is_wake
            (on_wake rounds target (next_stop s.host.clock))
            (on_tick rounds target (next_stop s.host.clock)) target s
            (λ k.
              woken rounds target s (wait_rounds-Arrived rounds target) k
                (reached-Waits rounds target s (ground (arith, b)) w))
            (λ k.
              ticked rounds target s (wait_rounds-Arrived rounds target) w.ready.ahead k
                (ground (arith, b)) (reached-Waits rounds target s (ground (arith, b)) w)))

  abbrev some_wait : ℕ → M W (Unit {0})
  some_wait us = do
    inside ← get nested
    now ← get (λ s. s.clock.vnow)
    if inside
        then nested_wait o ((now + us) % word64)
        else wait_rounds o o.rounds ((now + us) % word64) (us == core_loop_slice_us)

  pub on_wait-Arrived :
      (us : ℕ) (s : Sys W)
      → 0 < us
      → us ≢ core_loop_slice_us
      → us < o.rounds
      → nested s.host ≡ false
      → s.host.bindings.tick_device.fn ≡ 0
      → s.host.bindings.tick.fn ≢ 0
      → Ready s.host.clock
      → s.host.clock.vnow + us + s.host.clock.tick_us < word64
      → Arrived mark (s.host.clock.vnow + us) s (on_wait o us s).1
  unfolding on_wait ◌>>=◌ ◌>>◌
  on_wait-Arrived us s pos one_shot enough outside nobody bound r room =
      if_Arrived (us == 0) (zero_wait o) (some_wait us) (s.host.clock.vnow + us) s
        (λ b. absurd (ground (arith, b, pos)))
        (λ _.
          if_Arrived (nested s.host) (nested_wait o ((s.host.clock.vnow + us) % word64))
            (wait_rounds o o.rounds ((s.host.clock.vnow + us) % word64) (us == core_loop_slice_us))
            (s.host.clock.vnow + us) s (λ b. absurd (false≢true (sym outside ∙ b)))
            (λ _.
              subst
                (λ b.
                  Arrived mark (s.host.clock.vnow + us) s
                    (wait_rounds o o.rounds ((s.host.clock.vnow + us) % word64) b s).1)
                (sym other)
                (subst
                  (λ t.
                    Arrived mark (s.host.clock.vnow + us) s (wait_rounds o o.rounds t false s).1)
                  (sym no_wrap)
                  (wait_rounds-Arrived o.rounds (s.host.clock.vnow + us) s (record {
                    nobody = nobody;
                    bound = bound;
                    ready = r;
                    before = omega arith;
                    room = room;
                    enough = omega (arith, enough);
                  })))))
    where
      other : (us == core_loop_slice_us) ≡ false
      other = ground (arith, one_shot)

      no_wrap : (s.host.clock.vnow + us) % word64 ≡ s.host.clock.vnow + us
      no_wrap = omega (arith, room)
