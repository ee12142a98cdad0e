-- ===== src/Host/Contract/Recording.antt =====
-- Recording evolves the environment, whatever the listeners do in between.
use embed_bench.Prelude.{
  ℕ, zero, suc, ◌+◌, ◌≤◌, ◌≡◌, refl, ◌∙◌, sym, ap, Bool, true, Option, none, some, List, [], ◌∷◌,
  arith, length, Bool-cases, inl, inr,
}
use embed_bench.Trace.{Origin, Event, Trace, Stamp, log}
use embed_bench.Trace.Accounting.{IsAccounted, log-IsAccounted, running-log, log_stopped}
use embed_bench.Host.State.{State, Handler}
use embed_bench.Host.Monad.{Outside, modify}
use embed_bench.Host.Record.{
  stamp_of, with_trace, set_dispatching, count_diag, put_listener, set_slot, notify, fan_out, offer,
  store, recordf, note, diagnose, reject_listener, add_listener, remove_listener,
}
use embed_bench.Host.Contract.{Sound, Evolves, Keeps, Tame}
use embed_bench.Host.Contract.Rules.{Keeps-modify, Keeps-call, Keeps-bind, Keeps-then, keeps_rules}

length-set_slot : (i : ℕ) (h : Handler) (ls : List Handler) → length (set_slot i h ls) ≡ length ls
length-set_slot i h [] = refl
length-set_slot zero h (l ∷ ls) = refl
length-set_slot (suc i) h (l ∷ ls) = ap suc (length-set_slot i h ls)

-- A change of the trace alone that keeps its books.
with_trace-Evolves :
    {n : ℕ} (s : State) (t : Trace)
    → (Sound s → (length t.buf ≤ 64) × (t.running ≡ true → IsAccounted t))
    → Evolves n s (with_trace s t)
with_trace-Evolves s t h = record {
  depth = λ _. refl;
  director = λ _. refl;
  interrupt = λ _. refl;
  sound = λ v. record {
    buffer = (h v).0;
    books = (h v).1;
    queue = v.queue;
    peak = v.peak;
    wakes = v.wakes;
    wire = v.wire;
    formats = v.formats;
    listeners = v.listeners;
    director = v.director;
  };
}

log-books :
    (t : Trace) (at : Stamp) (origin : Origin) (link : ℕ) (text : List ℕ)
    → length t.buf ≤ 64
    → (t.running ≡ true → IsAccounted t)
    → (length (log t at origin link text).0.buf ≤ 64)
      × ((log t at origin link text).0.running ≡ true → IsAccounted (log t at origin link text).0)
log-books t at origin link text b h =
    (bound, λ r. books (sym (running-log t at origin link text) ∙ r))
  where
    books : t.running ≡ true → IsAccounted (log t at origin link text).0
    books r = log-IsAccounted t at origin link text r (h r)

    bound : length (log t at origin link text).0.buf ≤ 64
    bound = elim (Bool-cases t.running) [
      | inl r ↦ (books r).bounded
      | inr r ↦ omega (arith, ap length (log_stopped t at origin link text r))
    ]

set_dispatching-Evolves : {n : ℕ} (b : Bool) (s : State) → Evolves n s (set_dispatching b s)
set_dispatching-Evolves b s = record {
  depth = λ _. refl;
  director = λ _. refl;
  interrupt = λ _. refl;
  sound = λ v. ground arith;
}

-- Changes that a sound state does not see.
pub count_diag-Evolves : {n : ℕ} (s : State) → Evolves n s (count_diag s)
count_diag-Evolves s =
    with_trace-Evolves s _ (λ v. (v.buffer, λ r. let b = v.books r in ground arith))

reject_listener-Evolves : {n : ℕ} (s : State) → Evolves n s (reject_listener s)
reject_listener-Evolves s = record {
  depth = λ _. refl;
  director = λ _. refl;
  interrupt = λ _. refl;
  sound = λ v. ground arith;
}

put_listener-Evolves : {n : ℕ} (i : ℕ) (l : Handler) (s : State) → Evolves n s (put_listener i l s)
put_listener-Evolves i l s = record {
  depth = λ _. refl;
  director = λ _. refl;
  interrupt = λ _. refl;
  sound = λ v. let n = length-set_slot i l s.listeners.slots in ground (arith, n);
}

module _ {ℓ} {W : Type ℓ} (o : Outside W) {n : ℕ} (tame : Tame n o) where
  notify-Keeps : (slots i : ℕ) (e : Event) → Keeps (suc n) (notify o slots i e)
  unfolding notify
  notify-Keeps zero i e = search keeps_rules
  notify-Keeps (suc slots) i e = Keeps-bind _ _ (search keeps_rules) (λ l.
      Keeps-then _ _ (search (keeps_rules, Keeps-call (o.listener l e) (tame.listener l e)))
        (notify-Keeps slots (i + 1) e))

  dispatching-Keeps : (b : Bool) → Keeps {W = W} (suc n) (modify (set_dispatching b))
  dispatching-Keeps b = Keeps-modify _ (set_dispatching-Evolves b)

  fan_out-Keeps : (e : Event) → Keeps (suc n) (fan_out o e)
  unfolding fan_out
  fan_out-Keeps e = search (keeps_rules, notify-Keeps, dispatching-Keeps) depth 9

  offer-Keeps : (e : Option Event) → Keeps (suc n) (offer o e)
  unfolding offer
  offer-Keeps none = search keeps_rules
  offer-Keeps (some e) = fan_out-Keeps e

  store-Keeps :
      (origin : Origin) (link : ℕ) (text : List ℕ)
      → Keeps {W = W} (suc n) (store o origin link text)
  unfolding store
  store-Keeps origin link text = record {
    at = λ s.
        with_trace-Evolves s.host _
          (λ v. log-books s.host.trace (stamp_of s.host) origin link text v.buffer v.books);
  }

  pub recordf-Keeps :
      (origin : Origin) (link : ℕ) (text : List ℕ) → Keeps (suc n) (recordf o origin link text)
  unfolding recordf
  recordf-Keeps origin link text = search (keeps_rules, store-Keeps, offer-Keeps)

  pub note-Keeps :
      (origin : Origin) (link : ℕ) (text : List ℕ) → Keeps (suc n) (note o origin link text)
  note-Keeps origin link text = search (keeps_rules, recordf-Keeps)

  count_diag-Keeps : Keeps {W = W} (suc n) (modify count_diag)
  count_diag-Keeps = Keeps-modify _ count_diag-Evolves

  pub diagnose-Keeps : (link : ℕ) (text : List ℕ) → Keeps (suc n) (diagnose o link text)
  diagnose-Keeps link text = search (keeps_rules, count_diag-Keeps, note-Keeps)

  put_listener-Keeps : (i : ℕ) (l : Handler) → Keeps {W = W} (suc n) (modify (put_listener i l))
  put_listener-Keeps i l = Keeps-modify _ (put_listener-Evolves i l)

  reject_listener-Keeps : Keeps {W = W} (suc n) (modify reject_listener)
  reject_listener-Keeps = Keeps-modify _ reject_listener-Evolves

  pub add_listener-Keeps : (l : Handler) → Keeps (suc n) (add_listener o l)
  unfolding add_listener
  add_listener-Keeps l =
      search (keeps_rules, put_listener-Keeps, reject_listener-Keeps, diagnose-Keeps) depth 12

  pub remove_listener-Keeps : (fn : ℕ) → Keeps (suc n) (remove_listener o fn)
  unfolding remove_listener
  remove_listener-Keeps fn = search (keeps_rules, put_listener-Keeps) depth 9
