-- ===== src/Trace/Shape.antt =====
-- `shapeOf` and `foldShapeCycle` of src/embedbench_host.cpp: the tier that gives up the values.
use embed_bench.Prelude.{
  ℕ, zero, suc, ◌+◌, ◌-◌, ◌*◌, Bool, true, false, ◌&&◌, ◌||◌, Option, none, some, List, [], ◌∷◌,
  ◌++◌, map, leb, ltb, if◌then◌else◌, length, get_or, take, drop, str_eq,
}
use embed_bench.Label.{codes, hex_byte, fit, crc8_steps}
use embed_bench.Trace.Buffer.{Event, blank, text_size}
use embed_bench.Trace.Cycle.{Keys, Cycle, same, copies_of, removed}
use embed_bench.Trace.Fold.{total_repeats, last_time, splice, max_width}

-- 0-9 or A-F
abbrev pub is_hex : ℕ → Bool
is_hex c = (leb b'0' c && leb c b'9') || (leb b'A' c && leb c b'F')

-- The loop of `shapeOf`: `room` is cap - o, and a run of digits becomes one star.
unfoldable pub shape_from : List ℕ → ℕ → Bool → List ℕ
shape_from [] room in_digits = []
shape_from (c ∷ cs) room in_digits =
    let star = b'*' ∷ shape_from cs (room - 1) true in
    let run = shape_from cs room true in
    let plain = c ∷ shape_from cs (room - 1) false in
    if leb room 1 then [] else if is_hex c then if in_digits then run else star else plain

unfoldable pub shape_of : List ℕ → ℕ → List ℕ
unfolding shape_from
shape_of text cap = shape_from text cap false

-- The candidate kept so far; `removed` is 0 where there is none.
unfoldable pub better : Option Cycle → Cycle → Option Cycle
better none c = if ltb 0 (removed c) then some c else none
better (some b) c = if ltb (removed b) (removed c) then some c else some b

-- The scan of one width: every block that the next one repeats is a candidate.
unfoldable pub best_starts : ℕ → Keys → ℕ → ℕ → Option Cycle → Option Cycle
unfolding better
best_starts zero ks width start best = best
best_starts (suc rounds) ks width start best =
    let here : Cycle = record { start = start; width = width; copies = copies_of ks start width } in
    let next = if same ks start (start + width) width then better best here else best in
    let rest = best_starts rounds ks width (start + 1) next in
    if leb (start + width * 2) (length ks) then rest else best

unfoldable pub best_widths : ℕ → Keys → ℕ → Option Cycle → Option Cycle
unfolding best_starts
best_widths zero ks width best = best
best_widths (suc rounds) ks width best =
    let next =
      if ltb (length ks) (width * 2) then best else best_starts (length ks) ks width 0 best in
    best_widths rounds ks (width + 1) next

unfoldable pub best_cycle : Keys → Option Cycle
unfolding best_widths
best_cycle ks = best_widths max_width ks 1 none

-- The checksum of one position over every copy.
unfoldable pub copies_crc : List Event → ℕ → ℕ → ℕ → ℕ → ℕ
copies_crc buf width zero i crc = crc
copies_crc buf width (suc copies) i crc =
    copies_crc buf width copies (i + width) (crc8_steps crc (get_or buf i blank).text)

-- An older summary's " crc=*" is dropped before the new one is appended.
unfoldable pub without_crc : List ℕ → List ℕ
without_crc shape =
    let n = length shape in
    if ltb 6 n && str_eq (drop (n - 6) shape) (codes " crc=*") then take (n - 6) shape else shape

unfoldable pub summary : List ℕ → ℕ → List ℕ
unfolding without_crc
summary shape crc =
    fit text_size (fit (text_size * 2) (without_crc shape ++ codes " crc=" ++ hex_byte crc))

unfoldable pub shape_heads : List Event → Keys → Cycle → ℕ → ℕ → List Event
unfolding total_repeats summary copies_crc
shape_heads buf shapes c zero i = []
shape_heads buf shapes c (suc n) i =
    let head = get_or buf i blank in
    record head {
      repeats = total_repeats buf c.width c.copies i;
      last_time_us = last_time buf c;
      text = summary (get_or shapes i []) (copies_crc buf c.width c.copies i 0);
    }
    ∷ shape_heads buf shapes c n (i + 1)

abbrev pub shapes_of : List Event → Keys
shapes_of = map (λ e. shape_of e.text text_size)

unfoldable pub fold_shape_cycle : List Event → Option (List Event × Cycle)
unfolding best_cycle shape_heads shape_of
fold_shape_cycle buf = elim (best_cycle (shapes_of buf)) [
  | none ↦ none
  | some c ↦ some (splice buf c (shape_heads buf (shapes_of buf) c c.width c.start), c)
]
