-- ===== src/Device/Tape/Output.antt =====
-- The output of a recording, which goes out on its own.
use embed_bench.Prelude.{
  ℕ, zero, suc, ◌+◌, ◌≤◌, ◌<◌, ◌≡◌, refl, ap, sym, subst, ◌∙◌, Bool, true, false, ◌||◌, Option,
  none, some, ltb, not, if◌then◌else◌, length, take, max, arith, if_rule, ◌⊎◌, Bool-cases,
  Option-cases, inl, inr,
}
use embed_bench.Device.Port.{HostPort, send}
use embed_bench.Device.Tape.{
  serial_out, Step, Tape, is_serial_out, is_busy, step_at, current, arm_step, arm, advance_rounds,
  advance_to,
}
use embed_bench.Device.Tape.Moved.{
  arm-Moved, finish_step-Moved, finish, Moved, Moved-trans, step_at-beyond, unmoved,
}

module _ {ℓ} {P : Type ℓ} (h : HostPort P) where
  -- A round of the loop of advanceTo, at a step or past the last.
  abbrev pub waits : ℕ → Step → Tape → Bool
  waits now s c = not (is_serial_out s.kind) || not c.armed || ltb now c.due_us

  abbrev round : ℕ → ℕ → Tape → P → Option Step → Tape × P
  round rounds now c p none = (c, p)
  round rounds now c p (some t) =
      let f = finish h c (send (some h) (take t.len t.bytes) p) in
      if waits now t c then (c, p) else advance_rounds rounds (some h) now f.0 f.1

  advance_rounds-round :
      (rounds now : ℕ) (c : Tape) (p : P) (o : Option Step)
      → current c ≡ o
      → advance_rounds (suc rounds) (some h) now c p ≡ round rounds now c p o
  unfolding advance_rounds
  advance_rounds-round rounds now c p o e = split (current c) ∙ ap (round rounds now c p) e
    where
      split :
          (q : Option Step)
          → (elim q as (λ _. Tape × P) [
            | none ↦ (c, p)
            | some t ↦
                if waits now t c
                then (c, p)
                else advance_rounds rounds
                    (some h)
                    now
                    (finish h c (send (some h) (take t.len t.bytes) p)).0
                    (finish h c (send (some h) (take t.len t.bytes) p)).1
          ])
            ≡ round rounds now c p q
      split none = refl
      split (some t) = refl

  advance_rounds-none : (now : ℕ) (c : Tape) (p : P) → advance_rounds zero (some h) now c p ≡ (c, p)
  unfolding advance_rounds
  advance_rounds-none now c p = refl

  -- No step of serial output is due.
  abbrev pub Settled : ℕ → Tape → Type 0
  Settled now c = (current c ≡ none) ⊎ ((s : Step) × (current c ≡ some s) × (waits now s c ≡ true))

  -- Enough rounds, one for each step that is left, leave no output that is due.
  rounds_enough :
      (rounds now : ℕ) (c : Tape) (p : P)
      → c.progress ≡ 0
      → c.step_bad ≡ false
      → length c.steps < c.step + rounds
      → Moved c c.step (advance_rounds rounds (some h) now c p).0
        × Settled now (advance_rounds rounds (some h) now c p).0
  rounds_enough zero now c p z b l =
      subst (λ (r : Tape × P). Moved c c.step r.0 × Settled now r.0)
        (sym (advance_rounds-none now c p))
        (unmoved c z b, inl (step_at-beyond c.steps c.step (omega (arith, l))))
  rounds_enough (suc rounds) now c p z b l = elim (Option-cases (current c)) [
    | inl e ↦
        subst (λ (r : Tape × P). Moved c c.step r.0 × Settled now r.0)
          (sym (advance_rounds-round rounds now c p none e)) (unmoved c z b, inl e)
    | inr (s, e) ↦ elim (Bool-cases (waits now s c)) [
      | inl w ↦
          subst (λ (r : Tape × P). Moved c c.step r.0 × Settled now r.0)
            (sym (
              advance_rounds-round rounds now c p (some s) e
              ∙ if_rule (λ (r : Tape × P). r ≡ (c, p)) {b = waits now s c} (λ _. refl)
                  (λ k. absurd (ground (arith, k, w)))))
            (unmoved c z b, inr (s, e, w))
      | inr w ↦
          let p' = send (some h) (take s.len s.bytes) p in
          let f = finish_step-Moved h c p' in
          let rest =
            rounds_enough rounds now (finish h c p').0 (finish h c p').1 f.fresh_step f.good
              (omega (arith, l, f.onward, ap length f.same)) in
          subst (λ (r : Tape × P). Moved c c.step r.0 × Settled now r.0)
            (sym (
              advance_rounds-round rounds now c p (some s) e
              ∙ if_rule
                  (λ (r : Tape × P).
                    r ≡ advance_rounds rounds (some h) now (finish h c p').0 (finish h c p').1)
                  {b = waits now s c} (λ k. absurd (ground (arith, k, w))) (λ _. refl)))
            (Moved-trans c _ _ _ _ f (omega (arith, f.onward)) rest.0, rest.1)
    ]
  ]

  arm_lem :
      (c : Tape) (p : P) (o : Option Step)
      → current c ≡ o
      → (arm (some h) c p).0 ≡ elim o as (λ _. Tape) [ none ↦ c | some s ↦ (arm_step h s c p).0 ]
  unfolding arm
  arm_lem c p o e =
      split (current c)
      ∙ ap (λ (q : Option Step). elim q as (λ _. Tape) [ none ↦ c | some s ↦ (arm_step h s c p).0 ])
          e
    where
      split :
          (q : Option Step)
          → (elim q as (λ _. Tape × P) [ none ↦ (c, p) | some s ↦ arm_step h s c p ]).0
            ≡ elim q as (λ _. Tape) [ none ↦ c | some s ↦ (arm_step h s c p).0 ]
      split none = refl
      split (some s) = refl

  arm_step-out :
      (s : Step) (c : Tape) (p : P)
      → s.kind ≡ serial_out
      → ((arm_step h s c p).0.armed ≡ true)
        × ((arm_step h s c p).0.step ≡ c.step)
        × ((arm_step h s c p).0.steps ≡ c.steps)
  unfolding arm_step
  arm_step-out s c p k =
      let out = ap is_serial_out k in
      if_rule (λ (r : Tape × P). (r.0.armed ≡ true) × (r.0.step ≡ c.step) × (r.0.steps ≡ c.steps))
        {b = c.armed || not (is_serial_out s.kind || is_busy s.kind)}
        (λ b. (ground (arith, b, out), refl, refl)) (λ b. (refl, refl, refl))

  arm_step-armed : (s : Step) (c : Tape) (p : P) → c.armed ≡ true → (arm_step h s c p).0 ≡ c
  unfolding arm_step
  arm_step-armed s c p a = ground (arith, a)

  module _ (s : Step) (c : Tape) (p : P) (e : current c ≡ some s) (k : s.kind ≡ serial_out) where
    abbrev set : Tape
    set = (arm_step h s c p).0

    arm-set : (arm (some h) c p).0 ≡ set
    arm-set = arm_lem c p (some s) e

    set-here : current set ≡ some s
    set-here =
        let x = arm_step-out s c p k in
        ap (λ ss. step_at ss set.step) x.2 ∙ ap (step_at c.steps) x.1 ∙ e

    arm-here : current (arm (some h) c p).0 ≡ some s
    arm-here = ap (λ d. step_at d.steps d.step) arm-set ∙ set-here

    -- A call before the output is due only arms it.
    advance_to-early : (now : ℕ) → now < set.due_us → (advance_to (some h) now c p).0 ≡ set
    unfolding advance_to
    advance_to-early now early =
        let a = arm (some h) c p in
        let before : now < a.0.due_us = omega (arith, early, ap (λ d. d.due_us) arm-set) in
        let late : waits now s a.0 ≡ true = ground (arith, before) in
        let n : length c.steps + 1 ≡ suc (length c.steps) = omega arith in
        let rounds =
          advance_rounds-round (length c.steps) now a.0 a.1 (some s) arm-here
          ∙ if_rule (λ (r : Tape × P). r ≡ a) {b = waits now s a.0} (λ _. refl)
              (λ w. absurd (ground (arith, w, late))) in
        ap (λ (r : Tape × P). r.0) (ap (λ j. advance_rounds j (some h) now a.0 a.1) n ∙ rounds)
        ∙ arm-set

    -- The recorded output goes out once its time has come.
    advance_to-due :
        (now : ℕ)
        → set.due_us ≤ now
        → c.progress ≡ 0
        → c.step_bad ≡ false
        → Moved c (c.step + 1) (advance_to (some h) now c p).0
    unfolding advance_to
    advance_to-due now ripe z b =
        let a = (arm (some h) c p).0 in
        let q = (arm (some h) c p).1 in
        let m = arm-Moved h c p z b in
        let x = arm_step-out s c p k in
        let armed : a.armed ≡ true = ap (λ d. d.armed) arm-set ∙ x.0 in
        let due : a.due_us ≤ now = omega (arith, ap (λ d. d.due_us) arm-set, ripe) in
        let here : a.step ≡ c.step = ap (λ d. d.step) arm-set ∙ x.1 in
        let go : waits now s a ≡ false = ground (arith, ap is_serial_out k, armed, due) in
        let p' = send (some h) (take s.len s.bytes) q in
        let f = finish_step-Moved h a p' in
        let n : suc (length c.steps) ≡ length c.steps + 1 = omega arith in
        let rest =
          rounds_enough (length c.steps) now (finish h a p').0 (finish h a p').1 f.fresh_step f.good
            (omega (arith, f.onward, ap length f.same, ap length m.same)) in
        let r = Moved-trans a _ _ (a.step + 1) _ f (omega (arith, f.onward)) rest.0 in
        let round_eq =
          advance_rounds-round (length c.steps) now a q (some s) arm-here
          ∙ if_rule
              (λ (r : Tape × P).
                r
                ≡ advance_rounds (length c.steps) (some h) now (finish h a p').0 (finish h a p').1)
              {b = waits now s a} (λ w. absurd (ground (arith, w, go))) (λ _. refl) in
        subst (λ (t : Tape × P). Moved c (c.step + 1) t.0)
          (sym (ap (λ j. advance_rounds j (some h) now a q) (sym n) ∙ round_eq))
          (record {
            same = r.same ∙ m.same;
            onward = omega (arith, r.onward, here);
            faultless = r.faultless ∙ m.faultless;
            fresh_step = r.fresh_step;
            good = r.good;
          })

  -- Any call of advanceTo at the start of a step keeps to the recording.
  advance_to-onward :
      (now : ℕ) (c : Tape) (p : P)
      → c.progress ≡ 0
      → c.step_bad ≡ false
      → Moved c c.step (advance_to (some h) now c p).0
  unfolding advance_to
  advance_to-onward now c p z b =
      let m = arm-Moved h c p z b in
      let r =
        (rounds_enough (length c.steps + 1) now (arm (some h) c p).0 (arm (some h) c p).1
          m.fresh_step m.good (omega (arith, ap length m.same))).0 in
      Moved-trans c _ _ c.step _ m m.onward r

  -- The environment waits for an output: it calls advanceTo at its present time, and then at the time
  -- for which the tape is armed, if that is later. Until then time passes: `elapse`.
  abbrev pub await : (ℕ → P → P) → Tape → P → Tape × P
  await elapse c p =
      let a = advance_to (some h) (h.now_micros p) c p in
      let later = max a.0.due_us (h.now_micros a.1) in
      advance_to (some h) later a.0 (elapse later a.1)

  pub await-Moved :
      (elapse : ℕ → P → P) (s : Step) (c : Tape) (p : P)
      → current c ≡ some s
      → s.kind ≡ serial_out
      → c.progress ≡ 0
      → c.step_bad ≡ false
      → Moved c (c.step + 1) (await elapse c p).0
  await-Moved elapse s c p e k z b =
      let now = h.now_micros p in
      let a = advance_to (some h) now c p in
      let later = max a.0.due_us (h.now_micros a.1) in
      let q = elapse later a.1 in
      elim (Bool-cases (ltb now (set s c p e k).due_us)) [
        | inr ripe ↦
            let m = advance_to-due s c p e k now (ground (arith, ripe)) z b in
            Moved-trans c _ _ (c.step + 1) _ m m.onward
              (advance_to-onward later a.0 q m.fresh_step m.good)
        | inl early ↦
            let still = advance_to-early s c p e k now (ground (arith, early)) in
            let x = arm_step-out s c p k in
            let m : Moved c c.step a.0 = advance_to-onward now c p z b in
            let here : current a.0 ≡ some s =
              ap (λ d. step_at d.steps d.step) still ∙ set-here s c p e k in
            let armed : a.0.armed ≡ true = ap (λ d. d.armed) still ∙ x.0 in
            let kept = arm_step-armed s a.0 q armed in
            let r =
              advance_to-due s a.0 q here k later (omega (arith, ap (λ d. d.due_us) kept))
                m.fresh_step m.good in
            record {
              same = r.same ∙ m.same;
              onward = omega (arith, r.onward, m.onward);
              faultless = r.faultless ∙ m.faultless;
              fresh_step = r.fresh_step;
              good = r.good;
            }
      ]

  -- With one round for each step and one more, advanceTo leaves no output of the recording that
  -- is due, from any state at the start of a step.
  pub advance_to-Settled :
      (now : ℕ) (c : Tape) (p : P)
      → c.progress ≡ 0
      → c.step_bad ≡ false
      → Settled now (advance_to (some h) now c p).0
  unfolding advance_to
  advance_to-Settled now c p z b =
      let m = arm-Moved h c p z b in
      (rounds_enough (length c.steps + 1) now (arm (some h) c p).0 (arm (some h) c p).1 m.fresh_step
        m.good (omega (arith, ap length m.same))).1
