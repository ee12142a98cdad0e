-- ===== src/Host/Deferral/Order.antt =====
-- The order in which held effects reach their receivers.
use embed_bench.Prelude.{
  ℕ, zero, suc, ◌≤◌, ◌≡◌, refl, ◌∙◌, sym, ap, subst, if_rule, true, false, none, some, List, [],
  ◌∷◌, ◌==◌, if◌then◌else◌, arith, length,
}
use embed_bench.Host.State.{State, Deferred}
use embed_bench.Host.Monad.{Sys, M, pure, ◌>>=◌, ◌>>◌, modify, when, maybe, give_up, Outside}
use embed_bench.Host.Deferral.{next_due, is_due, pop, on_reentry, deliver, deliver_rounds}

module _ {ℓ} {W : Type ℓ} (o : Outside W) where
  -- Every effect of a list reaches its receiver, first to last, each when it has left the queue.
  unfoldable pub deliver_each : List Deferred → M W (Unit {0})
  deliver_each [] = pure tt
  deliver_each (e ∷ es) = do modify (on_reentry pop); deliver o e; deliver_each es

  -- Receivers that hold no further effect and return at the device depth that they found. They may
  -- call devices, record, and do whatever else leaves these two as they are.
  pub record Quiet : Type ℓ where
    pub depth :
        (e : Deferred) (s : Sys W)
        → (deliver o e s).1.host.reentry.device_depth ≡ s.host.reentry.device_depth
    pub queue :
        (e : Deferred) (s : Sys W)
        → (deliver o e s).1.host.reentry.deferred ≡ s.host.reentry.deferred

  next_due_empty : (s : State) → s.reentry.deferred ≡ [] → next_due s ≡ none
  unfolding next_due
  next_due_empty s e =
      subst
        (λ q.
          (if s.reentry.device_depth == 0 then elim q [ [] ↦ none | e ∷ rest ↦ some e ] else none)
          ≡ none)
        (sym e) (if_rule (λ x. x ≡ none) (λ _. refl) (λ _. refl))

  next_due_head :
      (s : State) (d : Deferred) (q : List Deferred)
      → s.reentry.device_depth ≡ 0
      → s.reentry.deferred ≡ d ∷ q
      → next_due s ≡ some d
  unfolding next_due
  next_due_head s d q depth e =
      subst
        (λ q.
          (if s.reentry.device_depth == 0 then elim q [ [] ↦ none | e ∷ rest ↦ some e ] else none)
          ≡ some d)
        (sym e) (subst (λ n. (if n == 0 then some d else none) ≡ some d) (sym depth) refl)

  -- One round on a queue with a head.
  abbrev deliver_head : ℕ → Deferred → M W (Unit {0})
  deliver_head rounds d = do modify (on_reentry pop); deliver o d; deliver_rounds o rounds

  abbrev popped : Sys W → Sys W
  popped s = record s { host = on_reentry pop s.host }

  Delivers : ℕ → List Deferred → Sys W → M W (Unit {0}) → Type ℓ
  Delivers rounds q s m = (m s ≡ deliver_each q s) × ((m s).1.host.reentry.deferred ≡ [])

  delivers :
      Quiet
      → (rounds : ℕ) (q : List Deferred) (s : Sys W) → s.host.reentry.device_depth ≡ 0
      → s.host.reentry.deferred ≡ q
      → length q ≤ rounds
      → Delivers rounds q s (deliver_rounds o rounds)
  unfolding Delivers deliver_rounds deliver_each ◌>>◌ ◌>>=◌ maybe is_due pop
  delivers quiet zero [] s depth e room =
      subst (λ x. Delivers 0 [] s (λ s. when (elim x [ none ↦ false | some _ ↦ true ]) give_up s))
        (sym (next_due_empty s.host e)) (refl, e)
  delivers quiet zero (d ∷ q) s depth e room = absurd (omega (arith, room))
  delivers quiet (suc rounds) [] s depth e room =
      subst (λ x. Delivers rounds [] s (maybe x (pure tt) (deliver_head rounds)))
        (sym (next_due_empty s.host e)) (refl, e)
  delivers quiet (suc rounds) (d ∷ q) s depth e room =
      subst (λ x. Delivers rounds (d ∷ q) s (maybe x (pure tt) (deliver_head rounds)))
        (sym (next_due_head s.host d q depth e))
        (delivers quiet rounds q (deliver o d (popped s)).1 (quiet.depth d (popped s) ∙ depth)
          (quiet.queue d (popped s) ∙ ap (λ q. elim q [ [] ↦ [] | e ∷ rest ↦ rest ]) e)
          (omega (arith, room)))

  pub deliver_rounds-in_order :
      Quiet
      → (rounds : ℕ) (s : Sys W) → s.host.reentry.device_depth ≡ 0
      → length s.host.reentry.deferred ≤ rounds
      → (deliver_rounds o rounds s ≡ deliver_each s.host.reentry.deferred s)
        × ((deliver_rounds o rounds s).1.host.reentry.deferred ≡ [])
  unfolding Delivers
  deliver_rounds-in_order quiet rounds s depth room =
      delivers quiet rounds s.host.reentry.deferred s depth refl room
