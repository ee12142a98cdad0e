-- ===== src/Trace/Accounting.antt =====
-- Nothing that happened in a run window is lost unaccounted: what `vrecord` keeps true of the buffer
-- and its counters.
use embed_bench.Prelude.{
  ℕ, suc, ◌+◌, ◌-◌, ◌%◌, ◌≤◌, ◌<◌, ◌≡◌, refl, ◌∙◌, sym, ap, subst, Bool, true, false, ◌⊎◌, Option,
  none, some, List, [], ◌∷◌, map, arith, length, get_or, set, leb, Bool-cases, if_rule,
  Option-cases, inl, inr, if◌then◌else◌, sum_of-append, sum_of-set, length-append, length-set,
  get_or-set_self, get_or-append_last,
}
use mathlib.Core.Bool.{false≢true}
use embed_bench.Trace.Buffer.{Origin, Event, Trace, blank, capacity, text_size, word32, empty_trace}
use embed_bench.Trace.Cycle.{Cycle, removed}
use embed_bench.Trace.Fold.{first_cycle, texts, fold_cycle}
use embed_bench.Trace.Shape.{best_cycle, shapes_of, fold_shape_cycle, shape_of}
use embed_bench.Trace.Record.{
  Stamp, mark_truncated, after_fold, make_room, drop_event, event_of, append_event, notice_event,
  place, log,
}
use embed_bench.Trace.Repeats.{
  total, IsWithin, total-fold, total-shape_fold, length-fold, length-shape_fold, removed-pos,
}
use embed_bench.Trace.Search.{IsCycle, Found, first_cycle-Found, best_cycle-Found}

length-map : (f : Event → List ℕ) (xs : List Event) → length (map f xs) ≡ length xs
length-map f [] = refl
length-map f (x ∷ xs) = ap suc (length-map f xs)

-- What a fold does to the buffer: fewer slots, all of them accounted for.
record Folds (buf new : List Event) (c : Cycle) : Type 0 where
  gain : 0 < removed c
  shorter : length new + removed c ≡ length buf
  same_total : total new % word32 ≡ total buf % word32

abbrev FoldsTo : List Event → Option (List Event × Cycle) → Type 0
FoldsTo buf none = Unit {0}
FoldsTo buf (some (new, c)) = Folds buf new c

IsWithin-buf :
    (f : Event → List ℕ) (buf : List Event) (c : Cycle)
    → IsCycle (map f buf) c
    → IsWithin c (length buf)
IsWithin-buf f buf c v = subst (IsWithin c) (length-map f buf) v.within

fold_cycle-Folds : (buf : List Event) → FoldsTo buf (fold_cycle buf)
unfolding fold_cycle
fold_cycle-Folds buf = elim (Option-cases (first_cycle (texts buf))) [
  | inl e ↦ rw (e, FoldsTo, fold_cycle) tt
  | inr (c, e) ↦
      let w =
        IsWithin-buf (λ e. e.text) buf c
          (subst (Found (texts buf)) e (first_cycle-Found (texts buf))) in
      rw (e, FoldsTo, fold_cycle)
        (record {
          gain = removed-pos c w;
          shorter = length-fold buf c w;
          same_total = total-fold buf c w;
        })
]

fold_shape_cycle-Folds : (buf : List Event) → FoldsTo buf (fold_shape_cycle buf)
unfolding fold_shape_cycle
fold_shape_cycle-Folds buf = elim (Option-cases (best_cycle (shapes_of buf))) [
  | inl e ↦ rw (e, FoldsTo, fold_shape_cycle) tt
  | inr (c, e) ↦
      let w =
        IsWithin-buf (λ e. shape_of e.text text_size) buf c
          (subst (Found (shapes_of buf)) e (best_cycle-Found (shapes_of buf))) in
      rw (e, FoldsTo, fold_shape_cycle)
        (record {
          gain = removed-pos c w;
          shorter = length-shape_fold buf (shapes_of buf) c w;
          same_total = total-shape_fold buf (shapes_of buf) c w;
        })
]

-- 1 where the standing notice occupies a slot.
abbrev pub notice : Trace → ℕ
notice t = if t.truncated then 1 else 0

-- The counters of a run window after `n` calls too many, modulo the 32 bits that each of them has.
-- `tally`: the calls made so far are the events that the buffer stands for (its repeats), less the
-- notice, and those dropped. `slots`: they are also its slots, less the notice, those folded away and
-- those dropped. `fresh`: the last slot of a full buffer stands for one event.
pub record Accounts (n : ℕ) (t : Trace) : Type 0 where
  pub bounded : length t.buf ≤ capacity
  pub full : t.truncated ≡ true → length t.buf ≡ capacity
  pub exhausted : t.fold_exhausted ≡ t.truncated
  pub fresh : length t.buf ≡ capacity → (get_or t.buf (capacity - 1) blank).repeats ≡ 1
  pub tally : (t.next_seq + notice t) % word32 ≡ (1 + n + total t.buf + t.dropped) % word32
  pub slots :
      (t.next_seq + notice t) % word32 ≡ (1 + n + length t.buf + t.folded + t.dropped) % word32

abbrev pub IsAccounted : Trace → Type 0
IsAccounted = Accounts 0

-- A stored event settles the call that is open.
stored-IsAccounted :
    (t : Trace) (e : Event)
    → Accounts 1 t
    → length t.buf < capacity
    → e.repeats ≡ 1
    → IsAccounted (append_event t e)
stored-IsAccounted t e v room once =
    let len = length-append t.buf (e ∷ []) in
    let sums = sum_of-append (λ (e : Event). e.repeats) t.buf (e ∷ []) in
    record {
      bounded = omega (arith, len);
      full = λ h. absurd (omega (arith, v.full h));
      exhausted = v.exhausted;
      fresh = λ h. rw (get_or-append_last t.buf e blank (capacity - 1) (omega (arith, len))) once;
      tally = omega (arith, sums, v.tally);
      slots = omega (arith, len, v.slots);
    }

-- A fold changes what the buffer holds, not what it stands for.
after_fold-Accounts :
    (t : Trace) (new : List Event) (c : Cycle)
    → t.truncated ≡ false
    → Accounts 1 t
    → Folds t.buf new c
    → Accounts 1 (after_fold t (new, c)) × (length new < capacity)
after_fold-Accounts t new c clear v f = (
  record {
    bounded = omega (arith, f.shorter, v.bounded);
    full = λ h. absurd (false≢true (sym clear ∙ h));
    exhausted = v.exhausted;
    fresh = λ h. absurd (omega (arith, f.shorter, f.gain, v.bounded));
    tally = omega (arith, f.same_total, v.tally);
    slots = omega (arith, f.shorter, v.slots);
  },
  omega (arith, f.shorter, f.gain, v.bounded),
)

-- The standing notice takes the last slot of a full buffer.
module _ (t : Trace) (e : Event) (v : Accounts 1 t) (h : length t.buf ≡ capacity) where
  -- The notice stands for one event where a fresh event stood.
  last_slot :
      e.repeats ≡ 1
      → (length (set t.buf 63 e) ≡ length t.buf)
        × (total (set t.buf 63 e) ≡ total t.buf)
        × ((get_or (set t.buf 63 e) 63 blank).repeats ≡ 1)
  last_slot once = (
    length-set t.buf 63 e,
    omega (arith, sum_of-set (λ (e : Event). e.repeats) t.buf 63 e blank (omega arith), v.fresh h),
    rw (get_or-set_self t.buf 63 e blank (omega arith)) once,
  )

  dropped-IsAccounted :
      (dropped : ℕ)
      → e.repeats ≡ 1
      → (dropped + notice t) % word32 ≡ (t.dropped + 2) % word32
      → IsAccounted (record t {
        fold_exhausted = true;
        truncated = true;
        dropped = dropped;
        buf = set t.buf 63 e;
      })
  dropped-IsAccounted dropped once d =
      let s = last_slot once in
      record {
        bounded = omega (arith, s.0);
        full = λ _. s.0 ∙ h;
        exhausted = refl;
        fresh = λ _. s.2;
        tally = omega (arith, s.1, v.tally, d);
        slots = omega (arith, s.0, v.slots, d);
      }

-- The events dropped after one more is, the notice's slot counted when it is taken.
abbrev lost_at : Trace → ℕ
lost_at t = ((if t.fold_exhausted then t.dropped else (t.dropped + 1) % word32) + 1) % word32

drop_event-IsAccounted :
    (t : Trace) (at : Stamp) (seq : ℕ)
    → Accounts 1 t
    → length t.buf ≡ capacity
    → IsAccounted (drop_event t at seq)
unfolding drop_event
drop_event-IsAccounted t at seq v h =
    subst
      (λ b. IsAccounted (record t {
        fold_exhausted = true;
        truncated = b;
        dropped = lost_at t;
        buf = set t.buf 63 (notice_event at seq (lost_at t));
      }))
      (sym (marked t.truncated refl))
      (dropped-IsAccounted t (notice_event at seq (lost_at t)) v h (lost_at t) refl
        (count t.truncated refl))
  where
    marked : (b : Bool) → t.truncated ≡ b → (if t.fold_exhausted then t.truncated else true) ≡ true
    marked true e = rw (v.exhausted, e) refl
    marked false e = rw (v.exhausted, e) refl

    count :
        (b : Bool) → t.truncated ≡ b → (lost_at t + notice t) % word32 ≡ (t.dropped + 2) % word32
    count true e = rw (v.exhausted, e) (omega arith)
    count false e = rw (v.exhausted, e) (omega arith)

make_room-Accounts :
    (t : Trace)
    → t.truncated ≡ false
    → Accounts 1 t
    → (make_room t ≡ none)
      ⊎ ((t' : Trace) × (make_room t ≡ some t') × Accounts 1 t' × (length t'.buf < capacity))
unfolding make_room
make_room-Accounts t clear v = elim (Option-cases (fold_cycle t.buf)) [
  | inr ((new, c), e) ↦
      let f =
        after_fold-Accounts t new c clear v (subst (FoldsTo t.buf) e (fold_cycle-Folds t.buf)) in
      inr (after_fold t (new, c), rw (e, make_room), f.0, f.1)
  | inl e ↦ elim (Option-cases (fold_shape_cycle t.buf)) [
    | inr ((new, c), e') ↦
        let f =
          after_fold-Accounts t new c clear v
            (subst (FoldsTo t.buf) e' (fold_shape_cycle-Folds t.buf)) in
        inr (after_fold t (new, c), rw (e, e', make_room), f.0, f.1)
    | inl e' ↦ inl (rw (e, e', make_room))
  ]
]

place-IsAccounted :
    (t : Trace) (at : Stamp) (e : Event)
    → Accounts 1 t
    → e.repeats ≡ 1
    → IsAccounted (place t at e).0
unfolding place
place-IsAccounted t at e v once = elim (Bool-cases (leb capacity (length t.buf))) [
  | inr room ↦ rw room (stored-IsAccounted t e v (ground arith) once)
  | inl full ↦
      let h : length t.buf ≡ capacity = ground (arith, v.bounded) in
      elim (Bool-cases t.fold_exhausted) [
        | inl x ↦ simp (full, x) (drop_event-IsAccounted t at e.seq v h)
        | inr x ↦ elim (make_room-Accounts t (sym v.exhausted ∙ x) v) [
          | inl m ↦ simp (full, x, m) (drop_event-IsAccounted t at e.seq v h)
          | inr (t', m, v', room) ↦ simp (full, x, m) (stored-IsAccounted t' e v' room once)
        ]
      ]
]

-- Every call of `vrecord` inside a run window whose books are kept keeps them: after it the buffer still fits its 64
-- slots, and the number of calls equals, modulo 2^32, the events that the buffer stands for plus those
-- dropped, less the truncation notice; the same holds of the slots with those folded away. So no event
-- is lost unaccounted, whether it was stored, folded by either tier or dropped.
pub log-IsAccounted :
    (t : Trace) (at : Stamp) (origin : Origin) (link : ℕ) (text : List ℕ)
    → t.running ≡ true
    → IsAccounted t
    → IsAccounted (log t at origin link text).0
unfolding log
log-IsAccounted t at origin link text run v =
    if_rule (λ (r : Trace × Option Event). IsAccounted r.0)
      (λ _. place-IsAccounted _ at (event_of at t.next_seq origin link text) opened refl)
      (λ stopped. absurd (false≢true (sym stopped ∙ run)))
  where
    opened : Accounts 1 (record t { next_seq = (t.next_seq + 1) % word32 })
    opened = record {
      bounded = v.bounded;
      full = v.full;
      exhausted = v.exhausted;
      fresh = v.fresh;
      tally = omega (arith, v.tally);
      slots = omega (arith, v.slots);
    }

pub empty_trace-IsAccounted : IsAccounted (record empty_trace { running = true })
empty_trace-IsAccounted = record {
  bounded = omega arith;
  full = λ h. absurd (false≢true h);
  exhausted = refl;
  fresh = λ h. absurd (omega arith);
  tally = refl;
  slots = refl;
}

-- Recording neither opens nor closes the window.
pub running-log :
    (t : Trace) (at : Stamp) (origin : Origin) (link : ℕ) (text : List ℕ)
    → (log t at origin link text).0.running ≡ t.running
unfolding log place make_room drop_event mark_truncated
running-log t at origin link text = ground arith

-- Outside a window nothing is recorded.
pub log_stopped :
    (t : Trace) (at : Stamp) (origin : Origin) (link : ℕ) (text : List ℕ)
    → t.running ≡ false
    → (log t at origin link text).0.buf ≡ t.buf
unfolding log
log_stopped t at origin link text h = ground arith
