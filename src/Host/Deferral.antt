-- ===== src/Host/Deferral.antt =====
-- The re-entrancy contract of src/embedbench_host.cpp: `enterDevice`, `leaveDevice`,
-- `refuseReentrantCall`, `queueDeferred` and `deliverDeferred`.
pub mod Order
use embed_bench.Prelude.{
  ℕ, zero, suc, ◌+◌, ◌-◌, ◌%◌, Bool, true, false, Option, none, some, List, [], ◌∷◌, ◌++◌, ltb,
  ◌==◌, not, if◌then◌else◌, length,
}
use embed_bench.Label.{codes, dec}
use embed_bench.Trace.{diag, word32}
use embed_bench.Host.State.{State, Reentry, Deferred, isr, frame, Handler}
use embed_bench.Host.Monad.{Sys, M, pure, ◌>>=◌, ◌>>◌, get, modify, when, give_up, maybe, Outside}
use embed_bench.Host.Record.{diagnose}

abbrev pub with_reentry : State → Reentry → State
with_reentry s r = record s { reentry = r }

-- kDeferralCapacity
abbrev pub deferral_capacity : ℕ
deferral_capacity = 4

-- enterDevice
unfoldable pub enter : Reentry → Reentry
enter r =
    let depth = (r.device_depth + 1) % word32 in
    record r {
      device_depth = depth;
      max_device_depth = if ltb r.max_device_depth depth then depth else r.max_device_depth;
    }

-- leaveDevice
unfoldable pub leave : Reentry → Reentry
leave r = record r {
  device_depth = if ltb 0 r.device_depth then r.device_depth - 1 else r.device_depth;
}

-- queueDeferred, where there is room.
unfoldable pub hold : Deferred → Reentry → Reentry
hold (isr pin) r = record r {
  deferred = r.deferred ++ isr pin ∷ [];
  deferred_isrs = (r.deferred_isrs + 1) % word32;
}
hold (frame bus format bytes bits) r = record r {
  deferred = r.deferred ++ frame bus format bytes bits ∷ [];
  deferred_frames = (r.deferred_frames + 1) % word32;
}

-- ++deferredDropped
unfoldable pub drop_effect : Reentry → Reentry
drop_effect r = record r { deferred_dropped = (r.deferred_dropped + 1) % word32 }

-- The effect that is delivered next leaves the queue.
unfoldable pub pop : Reentry → Reentry
pop r = record r { deferred = elim r.deferred [ [] ↦ [] | e ∷ rest ↦ rest ] }

-- The effect at the head of the queue, outside every device call.
unfoldable pub next_due : State → Option Deferred
next_due s =
    if s.reentry.device_depth == 0
    then elim s.reentry.deferred [ [] ↦ none | e ∷ rest ↦ some e ]
    else none

unfoldable pub is_due : State → Bool
unfolding next_due
is_due s = elim (next_due s) [ none ↦ false | some _ ↦ true ]

unfoldable pub full_text : Deferred → List ℕ
full_text (isr pin) = codes "diag.deferred_full kind=isr pin=" ++ dec pin
full_text (frame bus format bytes bits) = codes "diag.deferred_full kind=frame bus=" ++ dec bus

abbrev pub on_reentry : (Reentry → Reentry) → State → State
on_reentry f s = with_reentry s (f s.reentry)

-- A call into a device, between enterDevice and leaveDevice.
unfoldable pub in_device {ℓ κ} : {W : Type ℓ} {A : Type κ} → M W A → M W A
in_device call = do modify (on_reentry enter); r ← call; modify (on_reentry leave); pure r

module _ {ℓ} {W : Type ℓ} (o : Outside W) where
  -- refuseReentrantCall
  unfoldable pub refuse_reentrant_call : List ℕ → M W Bool
  refuse_reentrant_call what = do
    depth ← get (λ s. s.reentry.device_depth)
    if depth == 0
        then pure false
        else (do diagnose o 0 (codes "diag.reentrant " ++ what); pure true)

  -- Beyond the capacity the effect is diagnosed and dropped.
  unfoldable pub queue_full : Deferred → M W (Unit {0})
  queue_full e = do modify (on_reentry drop_effect); diagnose o 0 (full_text e)

  -- queueDeferred
  unfoldable pub queue_deferred : Deferred → M W (Unit {0})
  queue_deferred e = do
    held ← get (λ s. length s.reentry.deferred)
    if ltb held deferral_capacity then modify (on_reentry (hold e)) else queue_full e

  -- One held effect reaches its receiver.
  unfoldable pub deliver : Deferred → M W (Unit {0})
  deliver (isr pin) = o.trigger_interrupt pin
  deliver (frame bus format bytes bits) = do
    receiver ← get (λ s. s.bindings.frame_receiver)
    when (not (receiver.fn == 0)) (o.frame_handler receiver bus format bytes bits)

  -- The loop of deliverDeferred, on rounds.
  unfoldable pub deliver_rounds : ℕ → M W (Unit {0})
  deliver_rounds zero = do waiting ← get is_due; when waiting give_up
  deliver_rounds (suc rounds) =
      let rest = deliver_rounds rounds in
      (do
        next ← get next_due
        maybe next (pure tt) (λ e. do modify (on_reentry pop); deliver e; rest))

  unfoldable pub deliver_deferred : M W (Unit {0})
  deliver_deferred = deliver_rounds o.rounds
