-- ===== src/Host/Port/Lookup.antt =====
-- A mapping table of a `DevicePort` as a finite map.
use embed_bench.Prelude.{
  ℕ, ◌≡◌, ◌&&◌, none, some, List, [], ◌∷◌, ◌==◌, if◌then◌else◌, arith, Option-cases, Bool-cases,
  inl, inr,
}
use embed_bench.Host.Port.{Mapping, find_pin, repin, take_mapping, map_table}

find_pin-repin :
    (ms : List Mapping) (line pin held : ℕ)
    → find_pin ms line ≡ some held
    → (l : ℕ) → find_pin (repin ms line pin) l ≡ (if line == l then some pin else find_pin ms l)
unfolding find_pin repin
find_pin-repin [] line pin held e l = cc
find_pin-repin (m ∷ ms) line pin held e l = elim (Bool-cases (m.used && m.line == line)) [
  | inl t ↦ ground (arith, t)
  | inr t ↦
      (let there : find_pin ms line ≡ some held = ground (arith, e, t) in
        ground (arith, t, find_pin-repin ms line pin held there l))
]

find_pin-take_mapping :
    (ms : List Mapping) (line pin : ℕ) (ms' : List Mapping)
    → take_mapping ms line pin ≡ some ms'
    → find_pin ms line ≡ none
    → (l : ℕ) → find_pin ms' l ≡ (if line == l then some pin else find_pin ms l)
unfolding find_pin take_mapping
find_pin-take_mapping [] line pin ms' e free l = cc
find_pin-take_mapping (m ∷ ms) line pin ms' e free l =
    elim (Option-cases (take_mapping ms line pin)) [
      | inl n ↦ ground (arith, e, n)
      | inr (rest, n) ↦
          (let behind : find_pin ms line ≡ none = ground (arith, free) in
            ground (arith, e, n, find_pin-take_mapping ms line pin rest n behind l))
    ]

-- After a mapping that succeeds, the line has its pin, and every other line has what it had.
pub find_pin-map_table :
    (ms : List Mapping) (line pin : ℕ) (ms' : List Mapping)
    → map_table ms line pin ≡ some ms'
    → (l : ℕ) → find_pin ms' l ≡ (if line == l then some pin else find_pin ms l)
unfolding map_table
find_pin-map_table ms line pin ms' e l = elim (Option-cases (find_pin ms line)) [
  | inl n ↦ find_pin-take_mapping ms line pin ms' (ground (arith, e, n)) n l
  | inr (held, n) ↦ ground (arith, e, n, find_pin-repin ms line pin held n l)
]
