-- ===== src/Wake.antt =====
-- The wake table of src/embedbench_host.cpp: `wakeAtUs`, `nextWakeAfter`, `retireWakesUpTo` and the
-- table part of `requestWake`. A free slot holds 0.
pub mod Table
use embed_bench.Prelude.{
  ℕ, ◌≡◌, refl, Bool, true, false, ◌&&◌, ◌||◌, Option, none, some, List, [], ◌∷◌, leb, ltb, ◌==◌,
  not, if◌then◌else◌, replicate,
}

-- kWakeSlots
abbrev pub wake_slots : ℕ
wake_slots = 8

abbrev pub no_wakes : List ℕ
no_wakes = replicate wake_slots 0

-- One slot of the minimum loop: it is passed over if it is free or not after `after`.
unfoldable pub closer : ℕ → ℕ → ℕ → ℕ
closer w after best =
    if w == 0 || leb w after then best else if best == 0 || ltb w best then w else best

-- The minimum loop of `nextWakeAfter`; `best` is 0 until one is found.
unfoldable pub next_from : List ℕ → ℕ → ℕ → ℕ
next_from [] after best = best
next_from (w ∷ ws) after best = next_from ws after (closer w after best)

-- The earliest outstanding wake strictly after `after`, or 0 for none.
unfoldable pub next_wake_after : List ℕ → ℕ → ℕ
unfolding next_from closer
next_wake_after ws after = next_from ws after 0

-- Every request due at or before `due` frees its slot.
unfoldable pub retire_wakes_up_to : List ℕ → ℕ → List ℕ
retire_wakes_up_to [] due = []
retire_wakes_up_to (w ∷ ws) due =
    (if not (w == 0) && leb w due then 0 else w) ∷ retire_wakes_up_to ws due

-- Whether some slot holds `due`.
unfoldable pub holds : List ℕ → ℕ → Bool
holds [] due = false
holds (w ∷ ws) due = w == due || holds ws due

-- The first free slot takes `due`; none if there is no free slot.
unfoldable pub take_slot : List ℕ → ℕ → Option (List ℕ)
take_slot [] due = none
take_slot (w ∷ ws) due =
    if w == 0
    then some (due ∷ ws)
    else elim (take_slot ws due) [ none ↦ none | some ws' ↦ some (w ∷ ws') ]

-- `requestWake` on the table: none where the request cannot be held.
unfoldable pub request : List ℕ → ℕ → ℕ → Option (List ℕ)
unfolding holds take_slot
request ws now due =
    if leb due now then some ws else if holds ws due then some ws else take_slot ws due

wakes_run : next_wake_after (0 ∷ 700 ∷ 300 ∷ 900 ∷ []) 300 ≡ 700
unfolding next_wake_after
wakes_run = refl
