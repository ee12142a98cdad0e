-- ===== src/Host/Record.antt =====
-- `currentCtx`, `vrecord` with its fan-out to listeners, `recordf`, `addListener` and
-- `removeListener` of src/embedbench_host.cpp.
use embed_bench.Prelude.{
  ℕ, zero, suc, ◌+◌, ◌%◌, Bool, true, false, Option, none, some, List, [], ◌∷◌, ◌++◌, ltb, ◌==◌,
  not, if◌then◌else◌, get_or,
}
use embed_bench.Label.{codes, dec}
use embed_bench.Trace.{Origin, diag, Event, Trace, Stamp, word32, log}
use embed_bench.Host.State.{Handler, null, State}
use embed_bench.Host.Monad.{M, pure, ◌>>=◌, ◌>>◌, get, modify, when, maybe, Outside}

-- currentCtx
unfoldable pub current_ctx : State → ℕ
current_ctx s = if ltb 0 s.context.isr_depth then 2 else if ltb 0 s.context.dir_depth then 1 else 0

abbrev pub stamp_of : State → Stamp
stamp_of s = record { now = s.clock.vnow; ctx = current_ctx s }

abbrev pub with_trace : State → Trace → State
with_trace s t = record s { trace = t }

abbrev pub set_dispatching : Bool → State → State
set_dispatching b s = record s { listeners = record s.listeners { dispatching = b } }

-- ++diagCount
abbrev pub count_diag : State → State
count_diag s = record s {
  trace = record s.trace { diag_count = (s.trace.diag_count + 1) % word32 };
}

abbrev pub set_slot : ℕ → Handler → List Handler → List Handler
set_slot i h [] = []
set_slot zero h (l ∷ ls) = h ∷ ls
set_slot (suc i) h (l ∷ ls) = l ∷ set_slot i h ls

-- The first slot whose function is `fn`, counted from `i`.
unfoldable pub find_listener : List Handler → ℕ → ℕ → Option ℕ
find_listener [] fn i = none
find_listener (l ∷ ls) fn i = if l.fn == fn then some i else find_listener ls fn (i + 1)

abbrev pub put_listener : ℕ → Handler → State → State
put_listener i h s = record s {
  listeners = record s.listeners { slots = set_slot i h s.listeners.slots };
}

-- ++rejectedListeners
abbrev pub reject_listener : State → State
reject_listener s = record s {
  listeners = record s.listeners { rejected = (s.listeners.rejected + 1) % word32 };
}

module _ {ℓ} {W : Type ℓ} (o : Outside W) where
  -- The slots are read one by one, since a listener may remove itself or another one.
  unfoldable pub notify : ℕ → ℕ → Event → M W (Unit {0})
  notify zero i e = pure tt
  notify (suc rounds) i e = do
    l ← get (λ s. get_or s.listeners.slots i null)
    when (not (l.fn == 0)) (o.listener l e)
    notify rounds (i + 1) e

  -- The guard stops a listener that records from recursing.
  unfoldable pub fan_out : Event → M W (Unit {0})
  fan_out e = do
    busy ← get (λ s. s.listeners.dispatching)
    when (not busy) (do modify (set_dispatching true); notify 4 0 e; modify (set_dispatching false))

  unfoldable pub offer : Option Event → M W (Unit {0})
  offer none = pure tt
  offer (some e) = fan_out e

  -- vrecord up to the fan-out: the event that was stored, if one was.
  unfoldable pub store : Origin → ℕ → List ℕ → M W (Option Event)
  store origin link text s =
      let r = log s.host.trace (stamp_of s.host) origin link text in
      (r.1, record s { host = with_trace s.host r.0 })

  -- recordf: the format's text is `text`; the event's sequence number is returned.
  unfoldable pub recordf : Origin → ℕ → List ℕ → M W ℕ
  recordf origin link text = do
    seq ← get (λ s. s.trace.next_seq)
    event ← store origin link text
    offer event
    pure seq

  -- A record whose sequence number nobody links to.
  abbrev pub note : Origin → ℕ → List ℕ → M W (Unit {0})
  note origin link text = recordf origin link text >>= λ _. pure tt

  -- A diagnostic: counted, then recorded.
  abbrev pub diagnose : ℕ → List ℕ → M W (Unit {0})
  diagnose link text = do modify count_diag; note diag link text

  -- addListener
  unfoldable pub add_listener : Handler → M W Bool
  add_listener l = if l.fn == 0 then pure false else do
    free ← get (λ s. find_listener s.listeners.slots 0 0)
    maybe free
        (do
          modify reject_listener
          diagnose 0 (codes "diag.listener_full cap=" ++ dec 4)
          pure false)
        (λ i. do modify (put_listener i l); pure true)

  -- removeListener
  unfoldable pub remove_listener : ℕ → M W Bool
  remove_listener fn = do
    found ← get (λ s. find_listener s.listeners.slots fn 0)
    maybe found (pure false) (λ i. do modify (put_listener i null); pure true)
