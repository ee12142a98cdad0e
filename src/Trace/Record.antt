-- ===== src/Trace/Record.antt =====
-- `markTruncated` and `vrecord` of src/embedbench_host.cpp, up to the fan-out to listeners.
use embed_bench.Prelude.{
  ℕ, ◌+◌, ◌-◌, ◌%◌, true, Option, none, some, List, [], ◌∷◌, ◌++◌, leb, if◌then◌else◌, length, set,
}
use embed_bench.Label.{codes, dec, fit}
use embed_bench.Trace.Buffer.{Origin, Event, Trace, diag, capacity, text_size, word32}
use embed_bench.Trace.Cycle.{Cycle, removed}
use embed_bench.Trace.Fold.{fold_cycle}
use embed_bench.Trace.Shape.{fold_shape_cycle}

-- When an event happens, and in which context.
pub record Stamp : Type 0 where
  pub now : ℕ
  pub ctx : ℕ

-- The standing notice, with the number of the events dropped so far.
abbrev pub notice_event : Stamp → ℕ → ℕ → Event
notice_event at seq dropped = record {
  seq = seq;
  time_us = at.now;
  ctx = at.ctx;
  origin = diag;
  link = 0;
  repeats = 1;
  last_time_us = at.now;
  text = fit text_size (codes "trace.truncated lost=" ++ dec dropped);
}

unfoldable pub mark_truncated : Trace → Stamp → ℕ → Trace
mark_truncated t at seq = record t {
  buf = set t.buf (capacity - 1) (notice_event at seq t.dropped);
}

-- What a fold leaves, with the slots that it freed counted.
abbrev pub after_fold : Trace → List Event × Cycle → Trace
after_fold t (buf, c) = record t { buf = buf; folded = (t.folded + removed c) % word32 }

-- Lossless first, then the shape summary.
unfoldable pub make_room : Trace → Option Trace
make_room t = elim (fold_cycle t.buf) [
  | some r ↦ some (after_fold t r)
  | none ↦ elim (fold_shape_cycle t.buf) [ some r ↦ some (after_fold t r) | none ↦ none ]
]

-- A full buffer with nothing left to fold: the first time, the notice takes a real event's slot.
unfoldable pub drop_event : Trace → Stamp → ℕ → Trace
unfolding mark_truncated
drop_event t at seq =
    let lost = if t.fold_exhausted then t.dropped else (t.dropped + 1) % word32 in
    mark_truncated
      (record t {
        fold_exhausted = true;
        truncated = if t.fold_exhausted then t.truncated else true;
        dropped = (lost + 1) % word32;
      })
      at seq

-- The event of a call of `vrecord`.
abbrev pub event_of : Stamp → ℕ → Origin → ℕ → List ℕ → Event
event_of at seq origin link text = record {
  seq = seq;
  time_us = at.now;
  ctx = at.ctx;
  origin = origin;
  link = link;
  repeats = 1;
  last_time_us = at.now;
  text = fit text_size text;
}

abbrev pub append_event : Trace → Event → Trace
append_event t e = record t { buf = t.buf ++ e ∷ [] }

abbrev pub stored : Trace → Event → Trace × Option Event
stored t e = (append_event t e, some e)

-- The call in a run window, its sequence number taken: the new trace, and the event where one was
-- stored.
unfoldable pub place : Trace → Stamp → Event → Trace × Option Event
place t at e =
    if leb capacity (length t.buf)
    then if t.fold_exhausted
      then (drop_event t at e.seq, none)
      else elim (make_room t) [ some t' ↦ stored t' e | none ↦ (drop_event t at e.seq, none) ]
    else stored t e

-- `vrecord` without the fan-out. Outside a window nothing is recorded, and that is counted.
unfoldable pub log : Trace → Stamp → Origin → ℕ → List ℕ → Trace × Option Event
log t at origin link text =
    let t' = record t { next_seq = (t.next_seq + 1) % word32 } in
    if t.running
    then place t' at (event_of at t.next_seq origin link text)
    else (record t' { outside_window = (t.outside_window + 1) % word32 }, none)
