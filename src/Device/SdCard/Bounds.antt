-- ===== src/Device/SdCard/Bounds.antt =====
-- Whatever a bus, a clock and a test do to the SD card, no block access leaves its arrays.
use embed_bench.Prelude.{
  ℕ, ◌*◌, ◌<◌, ◌≡◌, refl, ap, ◌∙◌, ◌||◌, Option, none, some, List, [], ◌∷◌, ltb, not, length-splice,
  length-replicate, arith, if_rule, Bool-cases, inl, inr,
}
use embed_bench.Device.Port.{HostPort}
use embed_bench.Device.SdCard.{
  idle_phase, command_phase, SdCard, block_size, block_count, store_size, reset, fresh, load_blocks,
  Image, load_image, is_busy, line_in, spi_transfer, commit, advance_to, channel_write,
}
use embed_bench.Device.SdCard.Invariant.{
  InPhase, InBounds, reset-InBounds, load_image-InBounds, load_blocks-InBounds,
  channel_write-InBounds, busy_touches, at_rest, line_in-InBounds,
}
use embed_bench.Device.SdCard.Transfers.{spi_transfer-Stays}

advance_to-InBounds :
    (now : ℕ) (c : SdCard) → InBounds c → (c' : SdCard) × (advance_to now c ≡ some c') × InBounds c'
unfolding advance_to
advance_to-InBounds now c o = elim (Bool-cases (not (is_busy c.phase) || ltb now c.done_us)) [
  | inl e ↦ (c, ground (arith, e), o)
  | inr e ↦
      let k : c.block < block_count = o.safe (busy_touches c.phase c.after (ground (arith, e))) in
      let w =
        length-splice (c.block * block_size) c.staging c.store
          (omega (arith, k, o.whole, o.staged (ground (arith, e))))
        ∙ o.whole in
      (
        commit c,
        ground (arith, e, k),
        if_rule (λ q. InPhase q (commit c)) {b = c.selected}
            (λ s. at_rest command_phase _ refl refl refl w o.short o.next)
            (λ s. at_rest idle_phase _ refl refl refl w o.short o.next),
      )
]

-- What may happen to a card: the calls of the device interface, and the loads of a test.
pub data Use : Type 0 where
  restart : Use
  line : (number level : ℕ) → Use
  clock_in : (mosi : ℕ) → Use
  pass : (now : ℕ) → Use
  channel : (number : ℕ) → List ℕ → Use
  blocks : (first : ℕ) → Option (List ℕ) → Use
  volume : Image → Use

module _ {ℓ} {P : Type ℓ} where
  -- None stands for an access beyond an array.
  abbrev pub use_card : Option (HostPort P) → Use → SdCard → P → Option (SdCard × P)
  use_card port restart c p = some (reset c, p)
  use_card port (line number level) c p = some (line_in number level c, p)
  use_card port (clock_in mosi) c p = elim (spi_transfer port mosi c p) [
    | none ↦ none
    | some t ↦ some (t.1, t.2)
  ]
  use_card port (pass now) c p = elim (advance_to now c) [ none ↦ none | some c' ↦ some (c', p) ]
  use_card port (channel number bytes) c p = some ((channel_write number bytes c).1, p)
  use_card port (blocks first bytes) c p = some ((load_blocks first bytes c).1, p)
  use_card port (volume image) c p = some ((load_image image c).1, p)

  abbrev pub use_all : Option (HostPort P) → List Use → SdCard → P → Option (SdCard × P)
  use_all port [] c p = some (c, p)
  use_all port (u ∷ us) c p = elim (use_card port u c p) [
    | none ↦ none
    | some r ↦ use_all port us r.0 r.1
  ]

  abbrev Survives : Option (SdCard × P) → Type ℓ
  Survives r = (t : SdCard × P) × (r ≡ some t) × InBounds t.0

  use_card-Survives :
      (port : Option (HostPort P)) (u : Use) (c : SdCard) (p : P)
      → InBounds c
      → Survives (use_card port u c p)
  use_card-Survives port restart c p o = (_, refl, reset-InBounds c o)
  use_card-Survives port (line number level) c p o = (_, refl, line_in-InBounds number level c o)
  use_card-Survives port (clock_in mosi) c p o =
      let s = spi_transfer-Stays port mosi c p o in
      ((s.0.1, s.0.2), ap (λ r. elim r [ none ↦ none | some t ↦ some (t.1, t.2) ]) s.1, s.2)
  use_card-Survives port (pass now) c p o =
      let s = advance_to-InBounds now c o in
      ((s.0, p), ap (λ r. elim r [ none ↦ none | some c' ↦ some (c', p) ]) s.1, s.2)
  use_card-Survives port (channel number bytes) c p o =
      (_, refl, channel_write-InBounds number bytes c o)
  use_card-Survives port (blocks first bytes) c p o =
      (_, refl, load_blocks-InBounds first bytes c o)
  use_card-Survives port (volume image) c p o = (_, refl, load_image-InBounds image c o)

  -- A card that is in bounds stays so through any sequence of bus transfers, select lines, clock
  -- steps, resets, fills and loads, and none of them leaves an array: the sequence has a result.
  pub use_all-InBounds :
      (port : Option (HostPort P)) (us : List Use) (c : SdCard) (p : P)
      → InBounds c
      → (t : SdCard × P) × (use_all port us c p ≡ some t) × InBounds t.0
  use_all-InBounds port [] c p o = ((c, p), refl, o)
  use_all-InBounds port (u ∷ us) c p o =
      let s = use_card-Survives port u c p o in
      let r = use_all-InBounds port us s.0.0 s.0.1 s.2 in
      (r.0, ap (λ x. elim x [ none ↦ none | some y ↦ use_all port us y.0 y.1 ]) s.1 ∙ r.1, r.2)

pub fresh-InBounds : InBounds fresh
fresh-InBounds =
    at_rest idle_phase fresh refl refl refl (length-replicate {A = ℕ} store_size 0) (omega arith)
      refl
