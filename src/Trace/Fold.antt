-- ===== src/Trace/Fold.antt =====
-- `foldCycle` of src/embedbench_host.cpp: the lossless tier.
use embed_bench.Prelude.{
  ℕ, zero, suc, ◌+◌, ◌-◌, ◌*◌, ◌%◌, Option, none, some, List, [], ◌∷◌, ◌++◌, map, leb, ltb,
  if◌then◌else◌, length, get_or, take, drop,
}
use embed_bench.Trace.Buffer.{Event, blank, word32}
use embed_bench.Trace.Cycle.{Keys, Cycle, same, copies_of}

-- The scan of one width: `rounds` starts are left from `start` on, and the first block that the next
-- one repeats is taken.
unfoldable pub scan_starts : ℕ → Keys → ℕ → ℕ → Option Cycle
scan_starts zero ks width start = none
scan_starts (suc rounds) ks width start =
    let rest = scan_starts rounds ks width (start + 1) in
    if leb (start + width * 2) (length ks)
    then if same ks start (start + width) width
      then some (record { start = start; width = width; copies = copies_of ks start width })
      else rest
    else none

-- The loop over widths, shortest first.
unfoldable pub scan_widths : ℕ → Keys → ℕ → Option Cycle
unfolding scan_starts
scan_widths zero ks width = none
scan_widths (suc rounds) ks width =
    let rest = scan_widths rounds ks (width + 1) in
    if ltb (length ks) (width * 2)
    then rest
    else elim (scan_starts (length ks) ks width 0) [ none ↦ rest | some c ↦ some c ]

-- kMaxWidth
abbrev pub max_width : ℕ
max_width = 8

unfoldable pub first_cycle : Keys → Option Cycle
unfolding scan_widths
first_cycle ks = scan_widths max_width ks 1

-- The sum of the repeats of every copy of slot `i`, in 32 bits.
unfoldable pub total_repeats : List Event → ℕ → ℕ → ℕ → ℕ
total_repeats buf width zero i = 0
total_repeats buf width (suc copies) i =
    ((get_or buf i blank).repeats + total_repeats buf width copies (i + width)) % word32

-- The time of the last event of the last copy.
abbrev pub last_time : List Event → Cycle → ℕ
last_time buf c = (get_or buf (c.start + c.width * c.copies - 1) blank).time_us

-- The first copy's slots from `i` on, each standing for all of its copies.
unfoldable pub fold_heads : List Event → Cycle → ℕ → ℕ → List Event
unfolding total_repeats
fold_heads buf c zero i = []
fold_heads buf c (suc n) i =
    let head = get_or buf i blank in
    record head { repeats = total_repeats buf c.width c.copies i; last_time_us = last_time buf c }
    ∷ fold_heads buf c n (i + 1)

-- The buffer with a cycle's slots replaced by others: the copy loop that closes the gap.
abbrev pub splice : List Event → Cycle → List Event → List Event
splice buf c heads = take c.start buf ++ (heads ++ drop (c.start + c.width * c.copies) buf)

abbrev pub texts : List Event → Keys
texts = map (λ e. e.text)

-- none where nothing repeats; otherwise the new buffer with the cycle that was folded.
unfoldable pub fold_cycle : List Event → Option (List Event × Cycle)
unfolding first_cycle fold_heads
fold_cycle buf = elim (first_cycle (texts buf)) [
  | none ↦ none
  | some c ↦ some (splice buf c (fold_heads buf c c.width c.start), c)
]
