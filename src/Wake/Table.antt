-- ===== src/Wake/Table.antt =====
-- The wake table is a bounded set of moments.
use embed_bench.Prelude.{
  ℕ, suc, ◌≤◌, ◌<◌, ◌≡◌, refl, sym, ap, subst, ◌≢◌, ◌↔◌, true, ◌⊎◌, inl, inr, Option, none, some,
  List, [], ◌∷◌, arith, dec_lt, length, leb, leb→le, ==_iff, ◌==◌, ◌&&◌, not, Bool-cases, if_rule,
  if◌then◌else◌,
}
use mathlib.Core.Bool.{false≢true}
use embed_bench.Wake.{
  closer, next_from, next_wake_after, retire_wakes_up_to, holds, take_slot, request,
}

-- The moment `due` is outstanding in some slot.
abbrev pub Has : ℕ → List ℕ → Type 0
Has due [] = ⊥
Has due (w ∷ ws) = (w ≡ due) ⊎ Has due ws

-- What one slot does to the best so far.
closer_cases :
    (w after best : ℕ)
    → ((closer w after best ≡ best) × ((w ≤ after) ⊎ ((best ≢ 0) × (best ≤ w))))
      ⊎ ((closer w after best ≡ w) × (w ≢ 0) × (after < w) × ((best ≡ 0) ⊎ (w < best)))
unfolding closer
closer_cases w after best = ground arith

-- The best so far, or some outstanding moment after `after`.
abbrev Seen : List ℕ → ℕ → ℕ → ℕ → Type 0
Seen ws after best r = (r ≡ best) ⊎ (Has r ws × (after < r))

Seen-cons :
    (w : ℕ) (ws : List ℕ) (after best r : ℕ) → Seen ws after best r → Seen (w ∷ ws) after best r
Seen-cons w ws after best r (inl e) = inl e
Seen-cons w ws after best r (inr (h, l)) = inr (inr h, l)

Seen-head :
    (w : ℕ) (ws : List ℕ) (after best r : ℕ)
    → after < w
    → Seen ws after w r
    → Seen (w ∷ ws) after best r
Seen-head w ws after best r l (inl e) = inr (inl (sym e), omega arith)
Seen-head w ws after best r l (inr (h, k)) = inr (inr h, k)

next_from-Seen : (ws : List ℕ) (after best : ℕ) → Seen ws after best (next_from ws after best)
unfolding next_from
next_from-Seen [] after best = inl refl
next_from-Seen (w ∷ ws) after best = elim (closer_cases w after best) [
  | inl (e, _) ↦
      subst (λ b. Seen (w ∷ ws) after best (next_from ws after b)) (sym e)
        (Seen-cons w ws after best _ (next_from-Seen ws after best))
  | inr (e, _, l, _) ↦
      subst (λ b. Seen (w ∷ ws) after best (next_from ws after b)) (sym e)
        (Seen-head w ws after best _ l (next_from-Seen ws after w))
]

-- The best only improves.
next_from-le :
    (ws : List ℕ) (after best : ℕ)
    → best ≢ 0
    → (next_from ws after best ≢ 0) × (next_from ws after best ≤ best)
unfolding next_from
next_from-le [] after best h = (h, omega arith)
next_from-le (w ∷ ws) after best h = elim (closer_cases w after best) [
  | inl (e, _) ↦ rw e (next_from-le ws after best h)
  | inr (e, n, l, inl z) ↦ absurd (h z)
  | inr (e, n, l, inr m) ↦ rw e (omega (arith, next_from-le ws after w n))
]

-- No outstanding moment after `after` is earlier than the result.
next_from-least :
    (ws : List ℕ) (after best x : ℕ)
    → Has x ws
    → after < x
    → (next_from ws after best ≢ 0) × (next_from ws after best ≤ x)
unfolding next_from
next_from-least [] after best x h l = absurd h
next_from-least (w ∷ ws) after best x (inr h) l = next_from-least ws after _ x h l
next_from-least (w ∷ ws) after best x (inl p) l = elim (closer_cases w after best) [
  | inl (e, inl le) ↦ absurd (omega arith)
  | inl (e, inr (n, le)) ↦ rw e (omega (arith, next_from-le ws after best n))
  | inr (e, n, _, _) ↦ rw e (omega (arith, next_from-le ws after w n))
]

-- `nextWakeAfter` is 0 exactly if nothing is outstanding after that time, and otherwise the earliest
-- such moment: it is held in a slot, it is later than `after`, and no other one is earlier.
pub next_wake_after_lem :
    (ws : List ℕ) (after : ℕ)
    → ((next_wake_after ws after ≡ 0) × ((x : ℕ) → Has x ws → x ≤ after))
      ⊎ (Has (next_wake_after ws after) ws
          × (after < next_wake_after ws after)
          × ((x : ℕ) → Has x ws → after < x → next_wake_after ws after ≤ x))
unfolding next_wake_after
next_wake_after_lem ws after = elim (next_from-Seen ws after 0) [
  | inl e ↦ inl (
    e,
    λ x h. elim (dec_lt after x) [
      | yes l ↦ absurd ((next_from-least ws after 0 x h l).0 e)
      | no n ↦ omega arith
    ],
  )
  | inr (h, l) ↦ inr (h, l, λ x g k. (next_from-least ws after 0 x g k).1)
]

abbrev kept : ℕ → ℕ → ℕ
kept w due = if not (w == 0) && leb w due then 0 else w

kept_forth : (w due x : ℕ) → x ≢ 0 → kept w due ≡ x → (w ≡ x) × (due < x)
kept_forth w due x nz e = ground arith

kept_back : (w due x : ℕ) → w ≡ x → due < x → kept w due ≡ x
kept_back w due x e l = ground arith

retire_cons :
    (w : ℕ) (ws : List ℕ) (due x : ℕ)
    → x ≢ 0
    → Has x (retire_wakes_up_to ws due) ↔ (Has x ws × (due < x))
    → Has x (retire_wakes_up_to (w ∷ ws) due) ↔ (Has x (w ∷ ws) × (due < x))
unfolding retire_wakes_up_to
retire_cons w ws due x nz rest = (forth, λ h. back h.0 h.1)
  where
    forth : (kept w due ≡ x) ⊎ Has x (retire_wakes_up_to ws due) → ((w ≡ x) ⊎ Has x ws) × (due < x)
    forth (inl e) = let p = kept_forth w due x nz e in (inl p.0, p.1)
    forth (inr h) = (inr (rest.0 h).0, (rest.0 h).1)

    back : (w ≡ x) ⊎ Has x ws → due < x → (kept w due ≡ x) ⊎ Has x (retire_wakes_up_to ws due)
    back (inl e) l = inl (kept_back w due x e l)
    back (inr h) l = inr (rest.1 (h, l))

-- Retiring frees exactly the requests that are due: a moment is still outstanding afterwards if and
-- only if it was and lies after `due`.
pub Has-retire :
    (ws : List ℕ) (due x : ℕ) → x ≢ 0 → Has x (retire_wakes_up_to ws due) ↔ (Has x ws × (due < x))
unfolding retire_wakes_up_to
Has-retire [] due x nz = ((λ h. absurd h), λ h. absurd h.0)
Has-retire (w ∷ ws) due x nz = retire_cons w ws due x nz (Has-retire ws due x nz)

-- What an answer to a request says: refused, that no slot is free; granted, that exactly `due` was
-- added to the outstanding moments.
abbrev pub Answers : List ℕ → ℕ → Option (List ℕ) → Type 0
Answers ws due none = ¬ Has 0 ws
Answers ws due (some ws') =
    (length ws' ≡ length ws) × ((x : ℕ) → x ≢ 0 → Has x ws' ↔ ((x ≡ due) ⊎ Has x ws))

abbrev pass_on : ℕ → Option (List ℕ) → Option (List ℕ)
pass_on w r = elim r [ none ↦ none | some ws' ↦ some (w ∷ ws') ]

Answers-free : (ws : List ℕ) (due : ℕ) → Answers (0 ∷ ws) due (some (due ∷ ws))
Answers-free ws due = (refl, λ x nz. (forth x, back x nz))
  where
    forth : (x : ℕ) → (due ≡ x) ⊎ Has x ws → (x ≡ due) ⊎ Has x (0 ∷ ws)
    forth x (inl e) = inl (sym e)
    forth x (inr h) = inr (inr h)

    back : (x : ℕ) → x ≢ 0 → (x ≡ due) ⊎ Has x (0 ∷ ws) → (due ≡ x) ⊎ Has x ws
    back x nz (inl e) = inl (sym e)
    back x nz (inr (inl z)) = absurd (nz (sym z))
    back x nz (inr (inr h)) = inr h

still_full : (w : ℕ) (ws : List ℕ) → w ≢ 0 → ¬ Has 0 ws → ¬ Has 0 (w ∷ ws)
still_full w ws nz h (inl e) = nz e
still_full w ws nz h (inr g) = h g

Answers-cons :
    (w : ℕ) (ws : List ℕ) (due : ℕ) (r : Option (List ℕ))
    → w ≢ 0
    → Answers ws due r
    → Answers (w ∷ ws) due (pass_on w r)
Answers-cons w ws due none nz h = still_full w ws nz h
Answers-cons w ws due (some ws') nz (len, h) = (ap suc len, λ x xz. (forth x xz, back x xz))
  where
    forth : (x : ℕ) → x ≢ 0 → (w ≡ x) ⊎ Has x ws' → (x ≡ due) ⊎ Has x (w ∷ ws)
    forth x xz (inl e) = inr (inl e)
    forth x xz (inr g) = elim ((h x xz).0 g) [ inl e ↦ inl e | inr k ↦ inr (inr k) ]

    back : (x : ℕ) → x ≢ 0 → (x ≡ due) ⊎ Has x (w ∷ ws) → (w ≡ x) ⊎ Has x ws'
    back x xz (inl e) = inr ((h x xz).1 (inl e))
    back x xz (inr (inl e)) = inl e
    back x xz (inr (inr g)) = inr ((h x xz).1 (inr g))

take_slot-Answers : (ws : List ℕ) (due : ℕ) → Answers ws due (take_slot ws due)
unfolding take_slot
take_slot-Answers [] due = λ h. h
take_slot-Answers (w ∷ ws) due =
    if_rule (Answers (w ∷ ws) due)
      (λ e.
        subst (λ k. Answers (k ∷ ws) due (some (due ∷ ws))) (sym ((==_iff w 0).0 e))
          (Answers-free ws due))
      (λ e. Answers-cons w ws due (take_slot ws due) (ground arith) (take_slot-Answers ws due))

holds-Has : (ws : List ℕ) (due : ℕ) → holds ws due ≡ true → Has due ws
unfolding holds
holds-Has [] due h = absurd (false≢true h)
holds-Has (w ∷ ws) due h = elim (Bool-cases (w == due)) [
  | inl e ↦ inl ((==_iff w due).0 e)
  | inr e ↦ inr (holds-Has ws due (rw e at h))
]

-- A moment that some slot holds already needs no other.
held-Answers : (ws : List ℕ) (due : ℕ) → Has due ws → Answers ws due (some ws)
held-Answers ws due h = (refl, λ x nz. ((λ g. inr g), pick x))
  where
    pick : (x : ℕ) → (x ≡ due) ⊎ Has x ws → Has x ws
    pick x (inl e) = subst (λ k. Has k ws) (sym e) h
    pick x (inr g) = g

-- `requestWake` for a later moment answers truthfully: it is refused only if no slot is free
-- (none holds 0), and where it is granted exactly that moment joins the outstanding ones, so that no
-- earlier request of any device is lost or moved.
pub request-Answers : (ws : List ℕ) (now due : ℕ) → now < due → Answers ws due (request ws now due)
unfolding request
request-Answers ws now due l =
    if_rule (Answers ws due) {x = some ws} (λ e. absurd (omega (arith, leb→le due now e)))
      (λ _.
        if_rule (Answers ws due) {x = some ws} (λ e. held-Answers ws due (holds-Has ws due e))
          (λ _. take_slot-Answers ws due))
