-- ===== src/Host/Contract/Time.antt =====
-- The clock evolves the environment, whatever the devices and the director do in a tick.
use embed_bench.Prelude.{
  ℕ, zero, suc, ◌+◌, ◌%◌, ◌≡◌, refl, ◌∙◌, ap, Bool, true, false, Option, none, some, List, [], ◌∷◌,
  ◌++◌, arith, length, leb, Bool-cases, inl, inr,
}
use embed_bench.Label.{codes, dec}
use embed_bench.Trace.{diag, word32}
use embed_bench.Wake.{retire_wakes_up_to, request, wake_slots}
use embed_bench.Wake.Table.{Answers, request-Answers}
use embed_bench.Host.State.{State, Clock, word64}
use embed_bench.Host.Monad.{Sys, Outside, pure, modify, ◌>>=◌, ◌>>◌}
use embed_bench.Host.Record.{note}
use embed_bench.Host.Clock.{
  on_clock, Stop, reach, advance_devices, serve_wake, fire_tick, late_ticks, arrive, wait_rounds,
  zero_wait, nested_wait, on_wait, request_wake, defer_ticks,
}
use embed_bench.Host.Contract.{Evolves, Keeps, Tame}
use embed_bench.Host.Contract.Rules.{
  Keeps-modify, Keeps-call, Keeps-bind, Keeps-then, Keeps-when, Keeps-if, Keeps-get, Keeps-pure,
  Keeps-give_up, Keeps-read, maybe-Evolves, Keeps-in_device, Keeps-as_director,
}
use embed_bench.Host.Contract.Recording.{note-Keeps}
use embed_bench.Host.Contract.Held.{deliver_deferred-Keeps}

length-retire : (ws : List ℕ) (due : ℕ) → length (retire_wakes_up_to ws due) ≡ length ws
unfolding retire_wakes_up_to
length-retire [] due = refl
length-retire (w ∷ ws) due = ap suc (length-retire ws due)

-- A change of the clock alone that keeps the size of the wake table.
on_clock-Evolves :
    {n : ℕ} (f : Clock → Clock) (s : State)
    → (length s.clock.wakes ≡ 8 → length (f s.clock).wakes ≡ 8)
    → Evolves n s (on_clock f s)
on_clock-Evolves f s h = record {
  depth = λ _. refl;
  director = λ _. refl;
  interrupt = λ _. refl;
  sound = λ v. record {
    buffer = v.buffer;
    books = v.books;
    queue = v.queue;
    peak = v.peak;
    wakes = h v.wakes;
    wire = v.wire;
    formats = v.formats;
    listeners = v.listeners;
    director = v.director;
  };
}

-- The ticks that a nested wait holds back leave the wakes alone.
defer_ticks-wakes :
    (rounds target : ℕ) (c c' : Clock) → defer_ticks rounds target c ≡ some c' → c'.wakes ≡ c.wakes
unfolding defer_ticks
defer_ticks-wakes zero target c c' e = ground arith
defer_ticks-wakes (suc rounds) target c c' e = ground (
  arith,
  defer_ticks-wakes rounds target
      (record c {
        pending_ticks = (c.pending_ticks + 1) % word32;
        next_tick = (c.next_tick + c.tick_us) % word64;
      })
      c',
)

-- A granted request leaves the table at its size.
Answers-length :
    (ws : List ℕ) (due : ℕ) (r : Option (List ℕ)) (ws' : List ℕ)
    → Answers ws due r
    → r ≡ some ws'
    → length ws' ≡ length ws
Answers-length ws due none ws' a e = cc
Answers-length ws due (some ws'') ws' a e = let q : ws'' ≡ ws' = cc in rw (← q) a.0

request-length :
    (ws : List ℕ) (now due : ℕ) (ws' : List ℕ)
    → request ws now due ≡ some ws'
    → length ws' ≡ length ws
unfolding request
request-length ws now due ws' e = elim (Bool-cases (leb due now)) [
  | inl past ↦ request_past past
  | inr later ↦ Answers-length ws due _ ws' (request-Answers ws now due (ground arith)) e
]
  where
    request_past : leb due now ≡ true → length ws' ≡ length ws
    request_past past = let q : some ws ≡ some ws' = ground arith in ground arith

module _ {ℓ} {W : Type ℓ} (o : Outside W) {n : ℕ} (tame : Tame n o) where
  -- The device's part of a tick runs under the brackets, and what it held back follows.
  advance-Keeps : Keeps (suc n) (advance_devices o)
  unfolding advance_devices
  advance-Keeps = Keeps-bind _ _ (Keeps-get _) λ device. Keeps-when _ _ (
      Keeps-bind _ _ (Keeps-get _) λ now.
        Keeps-then _ _ (Keeps-in_device _ (tame.tick_device device now))
          (deliver_deferred-Keeps o tame))

  serve_wake-Keeps : Keeps (suc n) (serve_wake o)
  unfolding serve_wake
  serve_wake-Keeps = Keeps-as_director _ advance-Keeps

  clock-Keeps :
      (f : Clock → Clock)
      → ((c : Clock) → length c.wakes ≡ 8 → length (f c).wakes ≡ 8)
      → Keeps {W = W} (suc n) (modify (on_clock f))
  clock-Keeps f h = Keeps-modify _ (λ s. on_clock-Evolves f s (h s.clock))

  fire_tick-Keeps : Keeps (suc n) (fire_tick o)
  unfolding fire_tick
  fire_tick-Keeps = Keeps-then _ _ (clock-Keeps _ (λ c h. h)) (
      Keeps-as_director _ (
        Keeps-then _ _ advance-Keeps (
          Keeps-bind _ _ (Keeps-get _) λ handler.
            Keeps-bind _ _ (Keeps-get _)
              λ ticks. Keeps-when _ _ (Keeps-call _ (tame.tick_handler handler ticks)))))

  late_ticks-Keeps : (rounds : ℕ) → Keeps (suc n) (late_ticks o rounds)
  unfolding late_ticks
  late_ticks-Keeps zero = Keeps-bind _ _ (Keeps-get _) λ n. Keeps-when _ _ Keeps-give_up
  late_ticks-Keeps (suc rounds) = Keeps-bind _ _ (Keeps-get _) λ n. Keeps-when _ _ (
      Keeps-then _ _ (clock-Keeps _ (λ c h. h))
        (Keeps-then _ _ fire_tick-Keeps (late_ticks-Keeps rounds)))

  reach-Keeps : (p : Stop) → Keeps {W = W} (suc n) (modify (on_clock (reach p)))
  unfolding reach
  reach-Keeps p = clock-Keeps _ (λ c h. length-retire c.wakes p.time ∙ h)

  arrive-Keeps : (target : ℕ) → Keeps (suc n) (arrive o target)
  arrive-Keeps target = clock-Keeps _ (λ c h. ground arith)

  wait_rounds-Keeps :
      (rounds target : ℕ) (loops : Bool) → Keeps (suc n) (wait_rounds o rounds target loops)
  unfolding wait_rounds
  wait_rounds-Keeps zero target loops = Keeps-give_up
  wait_rounds-Keeps (suc rounds) target loops =
      let rest = wait_rounds-Keeps rounds target loops in
      Keeps-bind _ _ (Keeps-get _) λ stop. Keeps-if _ _ _ (arrive-Keeps target) (
        Keeps-if _ _ _
          (Keeps-then _ _ (reach-Keeps stop)
            (Keeps-then _ _ serve_wake-Keeps (Keeps-if _ _ _ (Keeps-pure tt) rest)))
          (Keeps-then _ _ (reach-Keeps stop)
            (Keeps-then _ _ fire_tick-Keeps (Keeps-then _ _ (late_ticks-Keeps o.rounds) rest))))

  zero_wait-Keeps : Keeps (suc n) (zero_wait o)
  unfolding zero_wait
  zero_wait-Keeps = Keeps-bind _ _ (Keeps-get _) λ inside.
      Keeps-if _ _ _ (clock-Keeps _ (λ c h. h)) (
        Keeps-then _ _ (clock-Keeps _ (λ c h. h)) (
          Keeps-bind _ _ (Keeps-get _) λ handler. Keeps-when _ _ (
            Keeps-as_director _ (
              Keeps-bind _ _ (Keeps-get _)
                λ count. Keeps-call _ (tame.zero_wait_handler handler count)))))

  set_clock-at :
      (c : Clock) (s : Sys W)
      → (length s.host.clock.wakes ≡ 8 → length c.wakes ≡ 8)
      → Evolves (suc n) s.host (modify (on_clock (λ _. c)) s).1.host
  unfolding modify
  set_clock-at c s h = on_clock-Evolves (λ _. c) s.host h

  nested_wait-Keeps : (target : ℕ) → Keeps (suc n) (nested_wait o target)
  unfolding nested_wait
  nested_wait-Keeps target = Keeps-read _ _ λ s.
      maybe-Evolves (defer_ticks o.rounds target s.host.clock) _ _ s (λ _. Keeps-give_up.at s)
        λ c e.
          (set_clock-at (record c { vnow = target }) s
            (λ h. ap length (defer_ticks-wakes _ _ _ _ e) ∙ h))

  -- onWait
  pub on_wait-Keeps : (us : ℕ) → Keeps (suc n) (on_wait o us)
  unfolding on_wait
  on_wait-Keeps us = Keeps-if _ _ _ zero_wait-Keeps (
      Keeps-bind _ _ (Keeps-get _) λ inside.
        Keeps-bind _ _ (Keeps-get _)
          λ now. Keeps-if _ _ _ (nested_wait-Keeps _) (wait_rounds-Keeps o.rounds _ _))

  refused-Keeps : Keeps (suc n) (do
    modify (on_clock (λ c. record c { dropped_wakes = (c.dropped_wakes + 1) % word32 }))
    note o diag 0 (codes "diag.wake_full pending=" ++ dec wake_slots)
    pure {W = W} false)
  refused-Keeps =
      Keeps-then _ _ (clock-Keeps _ (λ c h. h))
        (Keeps-then _ _ (note-Keeps o tame _ _ _) (Keeps-pure false))

  granted-at :
      (ws : List ℕ) (due : ℕ) (s : Sys W)
      → request s.host.clock.wakes s.host.clock.vnow due ≡ some ws
      → Evolves
          (suc n)
          s.host
          ((do modify (on_clock (λ c. record c { wakes = ws })); pure true) s).1.host
  unfolding ◌>>◌ ◌>>=◌
  granted-at ws due s e =
      on_clock-Evolves (λ c. record c { wakes = ws }) s.host
        (λ h. request-length s.host.clock.wakes _ due ws e ∙ h)

  -- requestWake
  pub request_wake-Keeps : (due : ℕ) → Keeps (suc n) (request_wake o due)
  unfolding request_wake
  request_wake-Keeps due = Keeps-read _ _ λ s.
      maybe-Evolves (request s.host.clock.wakes s.host.clock.vnow due) _ _ s
        (λ _. refused-Keeps.at s) (λ ws e. granted-at ws due s e)
