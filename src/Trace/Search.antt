-- ===== src/Trace/Search.antt =====
-- What the two searches find: a block that really repeats, inside the buffer.
use embed_bench.Prelude.{
  ℕ, zero, suc, ◌+◌, ◌*◌, ◌≤◌, ◌<◌, ◌≡◌, sym, ap, subst, leb→le, true, false, Option, none, some,
  [], arith, length, get_or, ltb, leb, Bool-cases, Option-cases, &&-eq-true, str_eq, str_eq→eq, inl,
  inr,
}
use embed_bench.Trace.Cycle.{Keys, Cycle, same, more_copies, copies_of, removed}
use embed_bench.Trace.Fold.{scan_starts, scan_widths, first_cycle}
use embed_bench.Trace.Shape.{better, best_starts, best_widths, best_cycle}
use embed_bench.Trace.Repeats.{IsWithin}

-- The block of `width` keys at `start` stands there `copies` times in a row.
abbrev pub Repeats : Keys → ℕ → ℕ → ℕ → Type 0
Repeats ks start width copies =
    (j k : ℕ)
    → j < copies
    → k < width
    → get_or ks (start + width * j + k) [] ≡ get_or ks (start + k) []

pub record IsCycle (ks : Keys) (c : Cycle) : Type 0 where
  pub within : IsWithin c (length ks)
  pub narrow : c.width ≤ 8
  pub repeats : Repeats ks c.start c.width c.copies

same_split :
    (ks : Keys) (a b w : ℕ)
    → same ks a b (suc w) ≡ true
    → (str_eq (get_or ks a []) (get_or ks b []) ≡ true) × (same ks (a + 1) (b + 1) w ≡ true)
unfolding same
same_split ks a b w h = &&-eq-true _ _ h

-- The comparison loop compares the blocks.
same-eq :
    (ks : Keys) (a b width : ℕ)
    → same ks a b width ≡ true
    → (k : ℕ) → k < width
    → get_or ks (b + k) [] ≡ get_or ks (a + k) []
unfolding same
same-eq ks a b zero h k lt = absurd (omega arith)
same-eq ks a b (suc w) h zero lt =
    let p = same_split ks a b w h in
    let ea : a + 0 ≡ a = omega arith in
    let eb : b + 0 ≡ b = omega arith in rw (ea, eb) (sym (str_eq→eq _ _ p.0))
same-eq ks a b (suc w) h (suc k) lt =
    let p = same_split ks a b w h in
    let ea : a + suc k ≡ a + 1 + k = omega arith in
    let eb : b + suc k ≡ b + 1 + k = omega arith in
    rw (ea, eb) (same-eq ks (a + 1) (b + 1) w p.1 k (omega arith))

-- One more copy.
Repeats-suc :
    (ks : Keys) (start width copies : ℕ)
    → Repeats ks start width copies
    → same ks start (start + width * copies) width ≡ true
    → Repeats ks start width (copies + 1)
Repeats-suc ks start width copies r h j k hj hk = elim (Bool-cases (ltb j copies)) [
  | inl e ↦ r j k (ground arith) hk
  | inr e ↦
      let ej : j ≡ copies = ground arith in
      rw ej (same-eq ks start (start + width * copies) width h k hk)
]

more_copies-Repeats :
    (fuel : ℕ) (ks : Keys) (start width copies : ℕ)
    → Repeats ks start width copies
    → start + width * copies ≤ length ks
    → let n = more_copies fuel ks start width copies in
      Repeats ks start width n × (start + width * n ≤ length ks) × (copies ≤ n)
unfolding more_copies
more_copies-Repeats zero ks start width copies r h = (r, h, omega arith)
more_copies-Repeats (suc fuel) ks start width copies r h =
    elim (Bool-cases (ltb (length ks) (start + width * copies + width))) [
      | inl e ↦ rw e (r, h, omega arith)
      | inr e ↦ elim (Bool-cases (same ks start (start + width * copies) width)) [
        | inl f ↦
            let more =
              more_copies-Repeats fuel ks start width (copies + 1)
                (Repeats-suc ks start width copies r f) (step e) in
            rw (e, f) (more.0, more.1, omega (arith, more.2))
        | inr f ↦ rw (e, f) (r, h, omega arith)
      ]
    ]
  where
    step :
        ltb (length ks) (start + width * copies + width) ≡ false
        → start + width * (copies + 1) ≤ length ks
    step e =
        let m : width * (copies + 1) ≡ width * copies + width = grind arith in ground (arith, m)

abbrev cycle_at : Keys → ℕ → ℕ → Cycle
cycle_at ks start width = record { start = start; width = width; copies = copies_of ks start width }

cycle_at-IsCycle :
    (ks : Keys) (start width : ℕ)
    → 1 ≤ width
    → width ≤ 8
    → start + width * 2 ≤ length ks
    → same ks start (start + width) width ≡ true
    → IsCycle ks (cycle_at ks start width)
unfolding copies_of
cycle_at-IsCycle ks start width w1 w8 h s =
    let m = more_copies-Repeats (length ks) ks start width 2 two h in
    record { within = record { inside = m.1; copied = m.2; wide = w1 }; narrow = w8; repeats = m.0 }
  where
    once : Repeats ks start width 1
    once zero k hj hk =
        let e : start + width * 0 + k ≡ start + k = omega arith in ap (λ i. get_or ks i []) e
    once (suc j) k hj hk = absurd (omega arith)

    two : Repeats ks start width 2
    two = Repeats-suc ks start width 1 once (
        let e : start + width ≡ start + width * 1 = omega arith in
        subst (λ p. same ks start p width ≡ true) e s)

-- What a search returns, where it returns something, is a cycle.
abbrev pub Found : Keys → Option Cycle → Type 0
Found ks none = Unit {0}
Found ks (some c) = IsCycle ks c

scan_starts-Found :
    (rounds : ℕ) (ks : Keys) (width start : ℕ)
    → 1 ≤ width
    → width ≤ 8
    → Found ks (scan_starts rounds ks width start)
unfolding scan_starts
scan_starts-Found zero ks width start w1 w8 = tt
scan_starts-Found (suc rounds) ks width start w1 w8 =
    elim (Bool-cases (leb (start + width * 2) (length ks))) [
      | inr e ↦ rw e tt
      | inl e ↦ elim (Bool-cases (same ks start (start + width) width)) [
        | inl f ↦ rw (e, f) (cycle_at-IsCycle ks start width w1 w8 (leb→le _ _ e) f)
        | inr f ↦ rw (e, f) (scan_starts-Found rounds ks width (start + 1) w1 w8)
      ]
    ]

scan_widths-Found :
    (rounds : ℕ) (ks : Keys) (width : ℕ)
    → 1 ≤ width
    → width + rounds ≤ 9
    → Found ks (scan_widths rounds ks width)
unfolding scan_widths
scan_widths-Found zero ks width w1 w8 = tt
scan_widths-Found (suc rounds) ks width w1 w8 =
    let rest = scan_widths-Found rounds ks (width + 1) (omega arith) (omega arith) in
    let here = scan_starts-Found (length ks) ks width 0 w1 (omega arith) in
    elim (Bool-cases (ltb (length ks) (width * 2))) [
      | inl e ↦ rw e rest
      | inr e ↦ elim (Option-cases (scan_starts (length ks) ks width 0)) [
        | inl f ↦ rw (e, f) rest
        | inr (d, f) ↦ rw (e, f) (subst (Found ks) f here)
      ]
    ]

-- What the lossless search of `foldCycle` returns is a real cycle: two copies or more, side by side and
-- inside the buffer, of 1 to 8 records whose keys agree.
pub first_cycle-Found : (ks : Keys) → Found ks (first_cycle ks)
unfolding first_cycle
first_cycle-Found ks = scan_widths-Found 8 ks 1 (omega arith) (omega arith)

better-Found :
    (ks : Keys) (best : Option Cycle) (c : Cycle)
    → Found ks best
    → IsCycle ks c
    → Found ks (better best c)
unfolding better
better-Found ks none c h k = elim (Bool-cases (ltb 0 (removed c))) [
  | inl e ↦ rw e k
  | inr e ↦ rw e tt
]
better-Found ks (some b) c h k = elim (Bool-cases (ltb (removed b) (removed c))) [
  | inl e ↦ rw e k
  | inr e ↦ rw e h
]

best_starts-Found :
    (rounds : ℕ) (ks : Keys) (width start : ℕ) (best : Option Cycle)
    → 1 ≤ width
    → width ≤ 8
    → Found ks best
    → Found ks (best_starts rounds ks width start best)
unfolding best_starts
best_starts-Found zero ks width start best w1 w8 h = h
best_starts-Found (suc rounds) ks width start best w1 w8 h =
    elim (Bool-cases (leb (start + width * 2) (length ks))) [
      | inr e ↦ rw e h
      | inl e ↦ elim (Bool-cases (same ks start (start + width) width)) [
        | inl f ↦
            rw (e, f)
              (best_starts-Found rounds ks width (start + 1) _ w1 w8 (
                better-Found ks best (cycle_at ks start width) h
                  (cycle_at-IsCycle ks start width w1 w8 (leb→le _ _ e) f)))
        | inr f ↦ rw (e, f) (best_starts-Found rounds ks width (start + 1) best w1 w8 h)
      ]
    ]

best_widths-Found :
    (rounds : ℕ) (ks : Keys) (width : ℕ) (best : Option Cycle)
    → 1 ≤ width
    → width + rounds ≤ 9
    → Found ks best
    → Found ks (best_widths rounds ks width best)
unfolding best_widths
best_widths-Found zero ks width best w1 w8 h = h
best_widths-Found (suc rounds) ks width best w1 w8 h =
    elim (Bool-cases (ltb (length ks) (width * 2))) [
      | inl e ↦ rw e (best_widths-Found rounds ks (width + 1) best (omega arith) (omega arith) h)
      | inr e ↦ rw e (
          best_widths-Found rounds ks (width + 1) _ (omega arith) (omega arith)
            (best_starts-Found (length ks) ks width 0 best w1 (omega arith) h))
    ]

-- What the search of `foldShapeCycle` for the largest gain returns is a real cycle of shapes, in the same
-- sense.
pub best_cycle-Found : (ks : Keys) → Found ks (best_cycle ks)
unfolding best_cycle
best_cycle-Found ks = best_widths-Found 8 ks 1 none (omega arith) (omega arith) tt
