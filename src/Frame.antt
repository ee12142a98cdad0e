-- ===== src/Frame.antt =====
-- Frame packing and the schema fingerprint of src/embedbench_device.h.
pub mod Bits
pub mod Padding
use embed_bench.Prelude.{
  ℕ, zero, suc, ◌+◌, ◌-◌, ◌*◌, ◌/◌, ◌%◌, ◌^◌, ◌≡◌, refl, Bool, true, false, List, [], ◌∷◌, bit_and,
  bit_xor, ◌==◌, Option, none, some, if◌then◌else◌, get_or,
}

-- frameBytes
unfoldable pub frame_bytes : ℕ → ℕ
frame_bytes bits = bits / 8 + (if bits % 8 == 0 then 0 else 1)

-- framePaddingClean; none for a null pointer.
unfoldable pub frame_padding_clean : Option (List ℕ) → ℕ → Bool
unfolding frame_bytes
frame_padding_clean bytes bits = if bits == 0 then true else elim bytes [
  | none ↦ false
  | some bs ↦
      if bits % 8 == 0
      then true
      else bit_and (get_or bs (frame_bytes bits - 1) 0) ((2 ^ (8 - bits % 8) - 1) % 256) == 0
]

-- schemaFingerprint: FNV-1a in 32 bits.
unfoldable pub fingerprint_from : ℕ → List ℕ → ℕ
fingerprint_from hash [] = hash
fingerprint_from hash (c ∷ cs) = fingerprint_from (bit_xor hash c * 16777619 % 2 ^ 32) cs

unfoldable pub schema_fingerprint : List ℕ → ℕ
unfolding fingerprint_from
schema_fingerprint layout = fingerprint_from 2166136261 layout

-- The published FNV-1a value of "a".
fnv1a_of_a : schema_fingerprint (97 ∷ []) ≡ 0xE40C292C
unfolding schema_fingerprint
fnv1a_of_a = refl
