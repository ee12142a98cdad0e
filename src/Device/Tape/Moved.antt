-- ===== src/Device/Tape/Moved.antt =====
-- What a step of a recording that is played as recorded leaves.
use embed_bench.Prelude.{
  ℕ, zero, suc, ◌+◌, ◌≤◌, ◌<◌, ◌≡◌, refl, ap, subst, ◌∙◌, Bool, true, false, ◌||◌, Option, none,
  some, List, [], ◌∷◌, ◌==◌, not, if◌then◌else◌, length, get_or, take, drop, arith, if_rule,
}
use embed_bench.Device.Port.{HostPort}
use embed_bench.Device.Tape.{
  Kind, busy, unknown, Step, Tape, is_serial_in, is_serial_out, is_spi, is_busy, step_at, current,
  next_step, arm_step, arm, finish_step,
}

-- `d` stands at step `n` of the same recording at least, at the start of a step, with no mismatch more
-- than `c`.
pub record Moved (c : Tape) (n : ℕ) (d : Tape) : Type 0 where
  pub same : d.steps ≡ c.steps
  pub onward : n ≤ d.step
  pub faultless : d.mismatches ≡ c.mismatches
  pub fresh_step : d.progress ≡ 0
  pub good : d.step_bad ≡ false

pub Moved-trans :
    (b : Tape) (c : Tape) (m n : ℕ) (d : Tape)
    → Moved b m c
    → n ≤ c.step
    → Moved c c.step d
    → Moved b n d
Moved-trans b c m n d l k r = record {
  same = r.same ∙ l.same;
  onward = omega (arith, k, r.onward);
  faultless = r.faultless ∙ l.faultless;
  fresh_step = r.fresh_step;
  good = r.good;
}

-- A step that an application can play: the bytes that its length promises are there, twice for the
-- transfers of SPI, where each byte sent has a reply, and a step of
-- single bytes has one at least.
abbrev pub playable : Kind → Bool
playable busy = false
playable unknown = false
playable _ = true

pub record Playable (s : Step) : Type 0 where
  pub played : playable s.kind ≡ true
  pub there : s.len ≤ length s.bytes
  pub replies : is_spi s.kind ≡ true → s.len + s.len ≤ length s.bytes
  pub some_byte : (is_serial_in s.kind || is_spi s.kind) ≡ true → 0 < s.len

abbrev pub AllPlayable : List Step → Type 0
AllPlayable [] = Unit {0}
AllPlayable (s ∷ ss) = Playable s × AllPlayable ss

pub step_at-Playable :
    (ss : List Step) (i : ℕ) (s : Step) → AllPlayable ss → step_at ss i ≡ some s → Playable s
step_at-Playable [] i s a e = absurd (ground (arith, e))
step_at-Playable (t ∷ ss) zero s a e =
    subst (λ (o : Option Step). elim o [ none ↦ Unit {0} | some u ↦ Playable u ]) e a.0
step_at-Playable (t ∷ ss) (suc i) s a e = step_at-Playable ss i s a.1 e

pub step_at-bound : (ss : List Step) (i : ℕ) → step_at ss i ≡ none → length ss ≤ i
step_at-bound [] i e = omega arith
step_at-bound (t ∷ ss) zero e = absurd (ground (arith, e))
step_at-bound (t ∷ ss) (suc i) e = omega (arith, step_at-bound ss i e)

pub step_at-beyond : (ss : List Step) (i : ℕ) → length ss ≤ i → step_at ss i ≡ none
step_at-beyond [] i e = refl
step_at-beyond (t ∷ ss) zero e = absurd (omega (arith, e))
step_at-beyond (t ∷ ss) (suc i) e = step_at-beyond ss i (omega (arith, e))

-- What the head of a suffix of a prefix is, and what follows it.
pub drop-take_uncons :
    (xs : List ℕ) (k n b : ℕ) (bs : List ℕ)
    → drop k (take n xs) ≡ b ∷ bs
    → (get_or xs k 0 ≡ b) × (drop (suc k) (take n xs) ≡ bs)
drop-take_uncons xs zero zero b bs e = absurd (ground (arith, e))
drop-take_uncons xs (suc k) zero b bs e = absurd (ground (arith, e))
drop-take_uncons [] zero (suc n) b bs e = absurd (ground (arith, e))
drop-take_uncons [] (suc k) (suc n) b bs e = absurd (ground (arith, e))
drop-take_uncons (x ∷ xs) zero (suc n) b bs e = (ap (λ ys. get_or ys 0 0) e, ap (λ ys. drop 1 ys) e)
drop-take_uncons (x ∷ xs) (suc k) (suc n) b bs e = drop-take_uncons xs k n b bs e

pub empty : (xs : List ℕ) → length xs ≡ 0 → xs ≡ []
empty [] e = refl
empty (x ∷ xs) e = absurd (omega (arith, e))

pub unmoved : (c : Tape) → c.progress ≡ 0 → c.step_bad ≡ false → Moved c c.step c
unmoved c z b = record {
  same = refl;
  onward = omega arith;
  faultless = refl;
  fresh_step = z;
  good = b;
}

-- The number of bytes that a recorded read asks for.
abbrev pub asked : Step → ℕ
asked s = if s.request == 0 then s.len else s.request

module _ {ℓ} {P : Type ℓ} (h : HostPort P) where
  abbrev pub finish : Tape → P → Tape × P
  finish c p = finish_step (some h) c p

  arm_step-Moved :
      (s : Step) (c : Tape) (p : P)
      → c.progress ≡ 0
      → c.step_bad ≡ false
      → Moved c c.step (arm_step h s c p).0
  unfolding arm_step
  arm_step-Moved s c p z b =
      if_rule (λ (r : Tape × P). Moved c c.step r.0)
        {b = c.armed || not (is_serial_out s.kind || is_busy s.kind)}
        (λ a. record {
          same = refl;
          onward = omega arith;
          faultless = refl;
          fresh_step = z;
          good = b;
        })
        (λ a. record {
          same = refl;
          onward = omega arith;
          faultless = refl;
          fresh_step = z;
          good = b;
        })

  arm_at-Moved :
      (o : Option Step) (c : Tape) (p : P)
      → c.progress ≡ 0
      → c.step_bad ≡ false
      → Moved c c.step (elim o as (λ _. Tape × P) [ none ↦ (c, p) | some s ↦ arm_step h s c p ]).0
  arm_at-Moved none c p z b = record {
    same = refl;
    onward = omega arith;
    faultless = refl;
    fresh_step = z;
    good = b;
  }
  arm_at-Moved (some s) c p z b = arm_step-Moved s c p z b

  pub arm-Moved :
      (c : Tape) (p : P) → c.progress ≡ 0 → c.step_bad ≡ false → Moved c c.step (arm (some h) c p).0
  unfolding arm
  arm-Moved c p z b = arm_at-Moved (current c) c p z b

  pub finish_step-Moved : (c : Tape) (p : P) → Moved c (c.step + 1) (finish_step (some h) c p).0
  unfolding finish_step
  finish_step-Moved c p =
      let m = arm-Moved (next_step c) p refl refl in
      record {
        same = m.same;
        onward = m.onward;
        faultless = m.faultless;
        fresh_step = m.fresh_step;
        good = m.good;
      }
