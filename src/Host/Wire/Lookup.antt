-- ===== src/Host/Wire/Lookup.antt =====
-- The table of I2C devices as a finite map.
use embed_bench.Prelude.{
  ℕ, ◌≡◌, true, ◌&&◌, none, some, List, [], ◌∷◌, ◌==◌, if◌then◌else◌, arith, Option-cases, inl, inr,
}
use embed_bench.Host.State.{WireSlot}
use embed_bench.Host.Wire.{find_wire_device, bind_slot}

-- A device bound at an address that no device answered to is found there, and nothing else changes.
pub find_wire_device-bind_slot :
    (ds : List WireSlot) (bus address ops : ℕ) (ds' : List WireSlot)
    → bind_slot ds (record { used = true; bus = bus; address = address; ops = ops }) ≡ some ds'
    → find_wire_device ds bus address ≡ none
    → (b a : ℕ)
    → find_wire_device ds' b a
      ≡ (if bus == b && address == a then some ops else find_wire_device ds b a)
unfolding find_wire_device bind_slot
find_wire_device-bind_slot [] bus address ops ds' e free b a = cc
find_wire_device-bind_slot (d ∷ ds) bus address ops ds' e free b a =
    elim (Option-cases
      (bind_slot ds (record { used = true; bus = bus; address = address; ops = ops }))) [
        | inl n ↦ ground (arith, e, n)
        | inr (rest, n) ↦
            (let behind : find_wire_device ds bus address ≡ none = ground (arith, free) in
              ground (arith, e, n, find_wire_device-bind_slot ds bus address ops rest n behind b a))
      ]
