-- ===== src/Host/Clock/Exact/Ticks.antt =====
-- Ticks and wakes that leave the rest of the clock alone.
use embed_bench.Prelude.{
  ℕ, zero, suc, ◌+◌, ◌%◌, ◌≡◌, ◌≢◌, refl, ◌∙◌, sym, ap, subst, true, ltb, ◌==◌, not, arith,
}
use embed_bench.Trace.{word32}
use embed_bench.Host.State.{Clock, Handler}
use embed_bench.Host.Monad.{Sys, M, ◌>>=◌, ◌>>◌, when, Outside}
use embed_bench.Host.Clock.{
  on_clock, enter_director, as_director, advance_devices, serve_wake, fire_tick, late_ticks,
}

-- A change of the system that leaves all but the trace and the context: the clock changes by `f`, and
-- the world by `g`.
pub record Still {ℓ} {W : Type ℓ} (f : Clock → Clock) (g : W → W) (a b : Sys W) : Type ℓ where
  pub clock : b.host.clock ≡ f a.host.clock
  pub bindings : b.host.bindings ≡ a.host.bindings
  pub stuck : b.stuck ≡ a.stuck
  pub world : b.world ≡ g a.world

module _ {ℓ} {W : Type ℓ} (o : Outside W) where
  -- Tick handlers that neither wait nor bind anything, and do `mark tick` to the world.
  pub record Patient (mark : ℕ → W → W) : Type ℓ where
    pub clock :
        (h : Handler) (tick : ℕ) (s : Sys W) → (o.tick_handler h tick s).1.host.clock ≡ s.host.clock
    pub bindings :
        (h : Handler) (tick : ℕ) (s : Sys W)
        → (o.tick_handler h tick s).1.host.bindings ≡ s.host.bindings
    pub stuck : (h : Handler) (tick : ℕ) (s : Sys W) → (o.tick_handler h tick s).1.stuck ≡ s.stuck
    pub world :
        (h : Handler) (tick : ℕ) (s : Sys W) → (o.tick_handler h tick s).1.world ≡ mark tick s.world

  when_null :
      (fn : ℕ) → fn ≡ 0 → (m : M W (Unit {0})) (s : Sys W) → (when (not (fn == 0)) m s).1 ≡ s
  unfolding when
  when_null fn e m s = subst (λ n. (when (not (n == 0)) m s).1 ≡ s) (sym e) refl

  when_zero : (n : ℕ) → n ≡ 0 → (m : M W (Unit {0})) (s : Sys W) → (when (ltb 0 n) m s).1 ≡ s
  unfolding when
  when_zero n e m s = subst (λ n. (when (ltb 0 n) m s).1 ≡ s) (sym e) refl

  abbrev directed : Sys W → Sys W
  directed s = record s { host = enter_director s.host }

  abbrev counted : Sys W → Sys W
  counted s = record s { host = on_clock (λ c. record c { ticks = (c.ticks + 1) % word32 }) s.host }

  handler-Still :
      {mark : ℕ → W → W}
      → Patient mark
      → (h : Handler) (tick : ℕ) (s : Sys W) → h.fn ≢ 0
      → Still (λ c. c) (mark tick) s (when (not (h.fn == 0)) (o.tick_handler h tick) s).1
  unfolding when
  handler-Still {mark} p h tick s ne =
      let bound : not (h.fn == 0) ≡ true = ground (arith, ne) in
      subst (λ b. Still (λ c. c) (mark tick) s (when b (o.tick_handler h tick) s).1) (sym bound)
        (record {
          clock = p.clock h tick s;
          bindings = p.bindings h tick s;
          stuck = p.stuck h tick s;
          world = p.world h tick s;
        })

  advance_nobody : (s : Sys W) → s.host.bindings.tick_device.fn ≡ 0 → (advance_devices o s).1 ≡ s
  unfolding advance_devices ◌>>=◌ ◌>>◌
  advance_nobody s e = when_null _ e _ s

  pub serve_nobody :
      (s : Sys W)
      → s.host.bindings.tick_device.fn ≡ 0
      → Still (λ c. c) (λ w. w) s (serve_wake o s).1
  unfolding serve_wake as_director ◌>>=◌ ◌>>◌
  serve_nobody s e =
      let a = advance_nobody (directed s) e in
      record {
        clock = ap (λ t. t.host.clock) a;
        bindings = ap (λ t. t.host.bindings) a;
        stuck = ap (λ t. t.stuck) a;
        world = ap (λ t. t.world) a;
      }

  pub fire_tick-Still :
      {mark : ℕ → W → W}
      → Patient mark
      → (s : Sys W) → s.host.bindings.tick_device.fn ≡ 0
      → s.host.bindings.tick.fn ≢ 0
      → Still
          (λ c. record c { ticks = (c.ticks + 1) % word32 })
          (mark ((s.host.clock.ticks + 1) % word32))
          s
          (fire_tick o s).1
  unfolding fire_tick as_director ◌>>=◌ ◌>>◌
  fire_tick-Still {mark} p s e bound =
      let a = advance_nobody (directed (counted s)) e in
      let h =
        handler-Still p _ _ (advance_devices o (directed (counted s))).1
          (λ z. bound (sym (ap (λ t. t.host.bindings.tick.fn) a) ∙ z)) in
      record {
        clock = h.clock ∙ ap (λ t. t.host.clock) a;
        bindings = h.bindings ∙ ap (λ t. t.host.bindings) a;
        stuck = h.stuck ∙ ap (λ t. t.stuck) a;
        world = h.world ∙ ap (λ t. mark t.host.clock.ticks t.world) a;
      }

  -- With no tick held back, there is none to make up for.
  pub late_ticks_none :
      (rounds : ℕ) (s : Sys W) → s.host.clock.pending_ticks ≡ 0 → (late_ticks o rounds s).1 ≡ s
  unfolding late_ticks ◌>>=◌ ◌>>◌
  late_ticks_none zero s e = when_zero _ e _ s
  late_ticks_none (suc rounds) s e = when_zero _ e _ s
