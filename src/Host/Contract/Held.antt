-- ===== src/Host/Contract/Held.antt =====
-- The queue of held effects and its delivery evolve the environment, whatever the receivers do.
use embed_bench.Prelude.{
  ℕ, zero, suc, ◌≤◌, ◌<◌, ◌≡◌, refl, List, [], ◌∷◌, arith, length, length-append, ltb, Bool-cases,
  inl, inr,
}
use embed_bench.Host.State.{State, Reentry, Deferred, isr, frame}
use embed_bench.Host.Monad.{Outside, get, modify, ◌>>=◌}
use embed_bench.Host.Deferral.{
  on_reentry, hold, pop, refuse_reentrant_call, queue_deferred, deliver, deliver_rounds,
  deliver_deferred, drop_effect, queue_full,
}
use embed_bench.Host.Contract.{Evolves, Keeps, Tame}
use embed_bench.Host.Contract.Rules.{
  Keeps-modify, Keeps-call, Keeps-bind, Keeps-then, Keeps-when, Keeps-get, Keeps-pure, Keeps-maybe,
  keeps_rules,
}
use embed_bench.Host.Contract.Recording.{diagnose-Keeps}

-- A change of the re-entrancy counters that keeps the depths and the queue's bound.
on_reentry-Evolves :
    {n : ℕ} (f : Reentry → Reentry) (s : State)
    → (f s.reentry).device_depth ≡ s.reentry.device_depth
    → (f s.reentry).max_device_depth ≡ s.reentry.max_device_depth
    → (length s.reentry.deferred ≤ 4 → length (f s.reentry).deferred ≤ 4)
    → Evolves n s (on_reentry f s)
on_reentry-Evolves f s d m h = record {
  depth = λ _. d;
  director = λ _. refl;
  interrupt = λ _. refl;
  sound = λ v. record {
    buffer = v.buffer;
    books = v.books;
    queue = h v.queue;
    peak = omega (arith, v.peak);
    wakes = v.wakes;
    wire = v.wire;
    formats = v.formats;
    listeners = v.listeners;
    director = v.director;
  };
}

pop-Evolves : {n : ℕ} (s : State) → Evolves n s (on_reentry pop s)
unfolding pop
pop-Evolves s = on_reentry-Evolves pop s refl refl (shrinks s.reentry.deferred)
  where
    shrinks :
        (es : List Deferred)
        → length es ≤ 4
        → length (elim es as (λ _. List Deferred) [ [] ↦ [] | e ∷ rest ↦ rest ]) ≤ 4
    shrinks [] h = h
    shrinks (e ∷ es) h = omega arith

drop_effect-Evolves : {n : ℕ} (s : State) → Evolves n s (on_reentry drop_effect s)
unfolding drop_effect
drop_effect-Evolves s = on_reentry-Evolves drop_effect s refl refl (λ h. h)

hold-Evolves :
    {n : ℕ} (e : Deferred) (s : State)
    → length s.reentry.deferred < 4
    → Evolves n s (on_reentry (hold e) s)
unfolding hold
hold-Evolves (isr pin) s h =
    on_reentry-Evolves (hold (isr pin)) s refl refl
      (λ _. omega (arith, length-append s.reentry.deferred (isr pin ∷ [])))
hold-Evolves (frame bus format bytes bits) s h =
    on_reentry-Evolves (hold (frame bus format bytes bits)) s refl refl
      (λ _. omega (arith, length-append s.reentry.deferred (frame bus format bytes bits ∷ [])))

module _ {ℓ} {W : Type ℓ} (o : Outside W) {n : ℕ} (tame : Tame n o) where
  pub refuse-Keeps : (what : List ℕ) → Keeps (suc n) (refuse_reentrant_call o what)
  unfolding refuse_reentrant_call
  refuse-Keeps what = search (keeps_rules, diagnose-Keeps o tame) depth 9

  drop_effect-Keeps : Keeps {W = W} (suc n) (modify (on_reentry drop_effect))
  drop_effect-Keeps = Keeps-modify _ drop_effect-Evolves

  full-Keeps : (e : Deferred) → Keeps (suc n) (queue_full o e)
  unfolding queue_full
  full-Keeps e = search (keeps_rules, drop_effect-Keeps, diagnose-Keeps o tame) depth 9

  -- The queue is only extended where there is room.
  pub queue-Keeps : (e : Deferred) → Keeps (suc n) (queue_deferred o e)
  unfolding queue_deferred ◌>>=◌ get modify
  queue-Keeps e = record {
    at = λ s. elim (Bool-cases (ltb (length s.host.reentry.deferred) 4)) [
      | inl r ↦ simp r (hold-Evolves e s.host (ground arith))
      | inr r ↦ simp r ((full-Keeps e).at s)
    ];
  }

  deliver-Keeps : (e : Deferred) → Keeps (suc n) (deliver o e)
  unfolding deliver
  deliver-Keeps (isr pin) = Keeps-call _ (tame.trigger_interrupt pin)
  deliver-Keeps (frame bus format bytes bits) =
      Keeps-bind _ _ (Keeps-get _)
        λ h. Keeps-when _ _ (Keeps-call _ (tame.frame_handler h bus format bytes bits))

  pop-Keeps : Keeps {W = W} (suc n) (modify (on_reentry pop))
  pop-Keeps = Keeps-modify _ pop-Evolves

  deliver_rounds-Keeps : (rounds : ℕ) → Keeps (suc n) (deliver_rounds o rounds)
  unfolding deliver_rounds
  deliver_rounds-Keeps zero = search (keeps_rules) depth 9
  deliver_rounds-Keeps (suc rounds) = Keeps-bind _ _ (Keeps-get _) λ next.
      Keeps-maybe next _ _ (Keeps-pure tt) λ e.
        Keeps-then _ _ pop-Keeps (Keeps-then _ _ (deliver-Keeps e) (deliver_rounds-Keeps rounds))

  pub deliver_deferred-Keeps : Keeps (suc n) (deliver_deferred o)
  unfolding deliver_deferred
  deliver_deferred-Keeps = deliver_rounds-Keeps o.rounds
