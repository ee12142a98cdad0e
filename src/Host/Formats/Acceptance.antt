-- ===== src/Host/Formats/Acceptance.antt =====
-- What `frameAccept` lets through.
use embed_bench.Prelude.{
  ℕ, ◌-◌, ◌/◌, ◌%◌, ◌^◌, ◌≤◌, ◌<◌, ◌≡◌, refl, sym, ◌∙◌, true, false, Option, none, some, List,
  arith, get_or,
}
use embed_bench.Frame.{frame_bytes, frame_padding_clean}
use embed_bench.Frame.Bits.{low_mask}
use embed_bench.Host.State.{FormatSlot, free_format}
use embed_bench.Host.Formats.{frame_refusal, max_formats, max_frame_bits}

-- The byte that holds the last of `bits` bits, where they end within a byte.
abbrev pub last_byte : Option (List ℕ) → (bits : ℕ) → ℕ
last_byte none bits = 0
last_byte (some bs) bits = get_or bs (bits / 8) 0

-- A frame that may enter the environment: its format is registered, its size is within the limit, and
-- if it has bits at all it has data. Where the bits end within a byte, that byte is a multiple of the
-- power of two that the bits left free stand for.
pub record Acceptable (fs : List FormatSlot) (format : ℕ) (bytes : Option (List ℕ)) (bits : ℕ)
    : Type 0 where
  pub real : 1 ≤ format
  pub known : format ≤ max_formats
  pub registered : (get_or fs (format - 1) free_format).used ≡ true
  pub small : bits ≤ max_frame_bits
  pub data_given : 0 < bits → elim bytes [ none ↦ false | some _ ↦ true ] ≡ true
  pub padding : 0 < bits % 8 → last_byte bytes bits % 2 ^ (8 - bits % 8) ≡ 0

clean-padding :
    (bytes : Option (List ℕ)) (bits : ℕ)
    → frame_padding_clean bytes bits ≡ true
    → 0 < bits % 8
    → last_byte bytes bits % 2 ^ (8 - bits % 8) ≡ 0
unfolding frame_padding_clean frame_bytes
clean-padding none bits e h = absurd (ground (arith, e, h))
clean-padding (some bs) bits e h =
    let masked = low_mask (get_or bs (bits / 8) 0) (bits % 8) h (omega arith) in
    sym masked ∙ ground (arith, e, h)

padding-clean :
    (bytes : Option (List ℕ)) (bits : ℕ)
    → (0 < bits → elim bytes [ none ↦ false | some _ ↦ true ] ≡ true)
    → (0 < bits % 8 → last_byte bytes bits % 2 ^ (8 - bits % 8) ≡ 0)
    → frame_padding_clean bytes bits ≡ true
unfolding frame_padding_clean frame_bytes
padding-clean none bits given h = ground (arith, given)
padding-clean (some bs) bits given h =
    ground (arith, h, low_mask (get_or bs (bits / 8) 0) (bits % 8))

data_there :
    (bytes : Option (List ℕ)) (bits : ℕ)
    → frame_padding_clean bytes bits ≡ true
    → 0 < bits
    → elim bytes [ none ↦ false | some _ ↦ true ] ≡ true
unfolding frame_padding_clean
data_there none bits e h = ground (arith, e, h)
data_there (some bs) bits e h = refl

-- A frame is not refused exactly if its format is registered, its size is within the limit, it has data
-- where it has bits, and the bits that its last byte leaves free are zero.
pub frame_refusal_iff :
    (fs : List FormatSlot) (bus format : ℕ) (bytes : Option (List ℕ)) (bits : ℕ)
    → (frame_refusal fs bus format bytes bits ≡ none → Acceptable fs format bytes bits)
      × (Acceptable fs format bytes bits → frame_refusal fs bus format bytes bits ≡ none)
unfolding frame_refusal
frame_refusal_iff fs bus format bytes bits = (
  λ e.
      let clean : frame_padding_clean bytes bits ≡ true = ground (arith, e) in
      record {
        real = ground (arith, e);
        known = ground (arith, e);
        registered = ground (arith, e);
        small = ground (arith, e);
        data_given = data_there bytes bits clean;
        padding = clean-padding bytes bits clean;
      },
  λ v. ground (
    arith,
    v.real,
    v.known,
    v.registered,
    v.small,
    v.data_given,
    padding-clean bytes bits v.data_given v.padding,
  ),
)
