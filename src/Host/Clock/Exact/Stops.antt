-- ===== src/Host/Clock/Exact/Stops.antt =====
-- The stops of a wait.
use embed_bench.Prelude.{
  ℕ, ◌+◌, ◌≤◌, ◌<◌, ◌≡◌, ◌≢◌, refl, true, false, ltb, if◌then◌else◌, if_rule, Bool-cases, inl, inr,
  arith,
}
use embed_bench.Wake.Table.{Has, next_wake_after_lem, Has-retire}
use embed_bench.Host.State.{Clock, word64}
use embed_bench.Host.Clock.{next_stop, reach}

-- The next stop is the earliest moment at which anything is due.
pub record Nearest (c : Clock) : Type 0 where
  pub later : c.vnow < (next_stop c).time
  pub wakes : (x : ℕ) → Has x c.wakes → c.vnow < x → (next_stop c).time ≤ x
  pub tick : (next_stop c).is_wake ≡ false → (next_stop c).time ≡ c.next_tick
  pub wake : (next_stop c).is_wake ≡ true → (next_stop c).time < c.next_tick

pub next_stop-Nearest : (c : Clock) → c.vnow < c.next_tick → Nearest c
unfolding next_stop
next_stop-Nearest c ahead = elim (next_wake_after_lem c.wakes c.vnow) [
  | inl (e, none_later) ↦ record {
    later = ground (arith, e);
    wakes = λ x h l. absurd (omega (arith, none_later x h));
    tick = λ b. ground (arith, b);
    wake = λ b. ground (arith, b, e);
  }
  | inr (h, l, least) ↦ record {
    later = ground (arith, l);
    wakes = λ x g k. ground (arith, least x g k);
    tick = λ b. ground (arith, b);
    wake = λ b. ground (arith, b);
  }
]

-- A clock between two stops: a tick is ahead, no tick is held back, and every wake lies ahead.
pub record Ready (c : Clock) : Type 0 where
  pub positive : 0 < c.tick_us
  pub ahead : c.vnow < c.next_tick
  pub none_held : c.pending_ticks ≡ 0
  pub fresh : (x : ℕ) → x ≢ 0 → Has x c.wakes → c.vnow < x

pub reach-Ready :
    (c : Clock) (target : ℕ)
    → Ready c
    → (next_stop c).time ≤ target
    → target + c.tick_us < word64
    → Ready (reach (next_stop c) c)
unfolding reach
reach-Ready c target r le room =
    let n = next_stop-Nearest c r.ahead in
    record {
      positive = r.positive;
      ahead = elim (Bool-cases (next_stop c).is_wake) [
        | inl b ↦ ground (arith, b, n.wake b)
        | inr b ↦ ground (arith, b, n.tick b, r.positive)
      ];
      none_held = r.none_held;
      fresh = λ x nz h. ((Has-retire c.wakes (next_stop c).time x nz).0 h).1;
    }

-- The clock at the end of a wait.
abbrev pub stopped_at : ℕ → Clock → Clock
stopped_at target c = if ltb c.vnow target then record c { vnow = target } else c

pub stopped_at-Ready :
    (c : Clock) (target : ℕ)
    → Ready c
    → c.vnow ≤ target
    → target < (next_stop c).time
    → ((stopped_at target c).vnow ≡ target) × Ready (stopped_at target c)
stopped_at-Ready c target r le over =
    let n = next_stop-Nearest c r.ahead in
    if_rule (λ d. (d.vnow ≡ target) × Ready d)
      (λ _. (
        refl,
        record {
          positive = r.positive;
          ahead = elim (Bool-cases (next_stop c).is_wake) [
            | inl b ↦ omega (arith, n.wake b, over)
            | inr b ↦ omega (arith, n.tick b, over)
          ];
          none_held = r.none_held;
          fresh = λ x nz h. omega (arith, over, n.wakes x h (r.fresh x nz h));
        },
      ))
      (λ b. (ground (arith, b, le), r))

-- A clock that is ready stays so when ticks are counted.
pub Ready-ticks : (c : Clock) → Ready c → (n : ℕ) → Ready (record c { ticks = n })
Ready-ticks c r n = record {
  positive = r.positive;
  ahead = r.ahead;
  none_held = r.none_held;
  fresh = r.fresh;
}

-- Where a stop leaves the next tick.
pub reach-wake :
    (c : Clock) → (next_stop c).is_wake ≡ true → (reach (next_stop c) c).next_tick ≡ c.next_tick
unfolding reach
reach-wake c b = ground (arith, b)

pub reach-tick :
    (c : Clock) (target : ℕ)
    → c.vnow < c.next_tick
    → (next_stop c).is_wake ≡ false
    → (next_stop c).time ≤ target
    → target + c.tick_us < word64
    → ((reach (next_stop c) c).next_tick ≡ c.next_tick + c.tick_us) × (c.next_tick ≤ target)
unfolding reach
reach-tick c target ahead b le room =
    let n = next_stop-Nearest c ahead in
    (ground (arith, b, n.tick b, le, room), omega (arith, n.tick b, le))

pub stopped_at-ticks :
    (target : ℕ) (c : Clock)
    → ((stopped_at target c).next_tick ≡ c.next_tick) × ((stopped_at target c).ticks ≡ c.ticks)
stopped_at-ticks target c =
    if_rule (λ (d : Clock). (d.next_tick ≡ c.next_tick) × (d.ticks ≡ c.ticks))
      {b = ltb c.vnow target} (λ _. (refl, refl)) (λ _. (refl, refl))
