-- ===== src/Device/SdCard/Invariant.antt =====
-- The SD card's block number and buffers stay in bounds: the invariant, and the operations off the bus.
use embed_bench.Prelude.{
  ℕ, zero, suc, ◌+◌, ◌*◌, ◌<◌, ◌≡◌, refl, ap, sym, subst, ◌∙◌, Bool, true, false, Option, none,
  some, List, [], ◌∷◌, ltb, ◌==◌, not, min, length, length-splice, length-replicate, arith, if_rule,
}
use embed_bench.Device.SdCard.{
  Phase, command_phase, reply_phase, read_phase, write_wait, write_phase, busy_phase, SdCard,
  block_size, block_count, store_size, reset, load_blocks, Image, load_runs, load_image, is_busy,
  select, line_in, pattern_from, channel_write,
}

-- The phases that use `block`, now or once the reply is out.
abbrev touches : Phase → Bool
touches read_phase = true
touches write_wait = true
touches write_phase = true
touches busy_phase = true
touches _ = false

abbrev pub will_touch : Phase → Phase → Bool
will_touch reply_phase after = touches after
will_touch phase after = touches phase

abbrev pub is_writing : Phase → Bool
is_writing write_phase = true
is_writing _ = false

-- What a reply may hand over to.
abbrev pub follows : Phase → Bool
follows command_phase = true
follows read_phase = true
follows write_wait = true
follows _ = false

-- A card in phase `ph`.
pub record InPhase (ph : Phase) (c : SdCard) : Type 0 where
  pub safe : will_touch ph c.after ≡ true → c.block < block_count
  pub whole : length c.store ≡ store_size
  pub brought : is_writing ph ≡ true → length c.staging ≡ min c.offset block_size
  pub staged : is_busy ph ≡ true → length c.staging ≡ block_size
  pub short : length c.command < 6
  pub next : follows c.after ≡ true

abbrev pub InBounds : SdCard → Type 0
InBounds c = InPhase c.phase c

pub reset-InBounds : (c : SdCard) → InBounds c → InBounds (reset c)
unfolding reset
reset-InBounds c o = record {
  safe = λ e. omega arith;
  whole = o.whole;
  brought = λ e. absurd (ground arith);
  staged = λ e. absurd (ground arith);
  short = omega arith;
  next = refl;
}

-- Another store of the same size.
restore-InBounds :
    (c : SdCard) (bytes : List ℕ)
    → length bytes ≡ store_size
    → InBounds c
    → InBounds (record c { store = bytes })
restore-InBounds c bytes h o = record {
  safe = o.safe;
  whole = h;
  brought = o.brought;
  staged = o.staged;
  short = o.short;
  next = o.next;
}

load_runs-InBounds :
    (runs : List (ℕ × List ℕ)) (c : SdCard) → InBounds c → InBounds (load_runs runs c).1
unfolding load_runs
load_runs-InBounds [] c o = o
load_runs-InBounds (run ∷ runs) c o =
    if_rule (λ (r : Bool × SdCard). InBounds r.1) {b = ltb store_size (run.0 + length run.1)}
      (λ b. o)
      (λ b. load_runs-InBounds runs _ (
        restore-InBounds c _
          (length-splice run.0 run.1 c.store (ground (arith, b, o.whole)) ∙ o.whole) o))

pub load_image-InBounds : (i : Image) (c : SdCard) → InBounds c → InBounds (load_image i c).1
unfolding load_image
load_image-InBounds i c o =
    if_rule (λ (r : Bool × SdCard). InBounds r.1) {b = ltb block_count i.blocks} (λ b. o)
      (λ b.
        load_runs-InBounds i.runs _
          (restore-InBounds c _ (length-replicate {A = ℕ} store_size 0) o))

pub load_blocks-InBounds :
    (first : ℕ) (bytes : Option (List ℕ)) (c : SdCard)
    → InBounds c
    → InBounds (load_blocks first bytes c).1
unfolding load_blocks
load_blocks-InBounds first none c o = o
load_blocks-InBounds first (some bytes) c o =
    if_rule (λ (r : Bool × SdCard). InBounds r.1)
      {b = ltb store_size (first * block_size + length bytes)} (λ b. o)
      (λ b.
        restore-InBounds c _
          (length-splice (first * block_size) bytes c.store (ground (arith, b, o.whole)) ∙ o.whole)
          o)

length-pattern : (n fill : ℕ) → length (pattern_from n fill) ≡ n
length-pattern zero fill = refl
length-pattern (suc n) fill = ap suc (length-pattern n (fill + 1))

pub channel_write-InBounds :
    (channel : ℕ) (bytes : List ℕ) (c : SdCard)
    → InBounds c
    → InBounds (channel_write channel bytes c).1
unfolding channel_write
channel_write-InBounds channel [] c o = o
channel_write-InBounds channel (block ∷ []) c o = o
channel_write-InBounds channel (block ∷ fill ∷ rest) c o =
    if_rule (λ (r : Bool × SdCard). InBounds r.1) (λ b. o)
      (λ b.
        let inside : block < block_count = ground (arith, b) in
        record {
          safe = λ e. inside;
          whole =
              length-splice (block * block_size) (pattern_from block_size fill) c.store
                (omega (arith, inside, o.whole, length-pattern block_size fill))
              ∙ o.whole;
          brought = o.brought;
          staged = o.staged;
          short = o.short;
          next = o.next;
        })

pub busy_touches : (ph after : Phase) → is_busy ph ≡ true → will_touch ph after ≡ true
busy_touches busy_phase after e = refl
busy_touches ph after e = absurd (ground (arith, e))

-- A phase that uses no block.
pub at_rest :
    (ph : Phase) (c : SdCard)
    → will_touch ph c.after ≡ false
    → is_writing ph ≡ false
    → is_busy ph ≡ false
    → length c.store ≡ store_size
    → length c.command < 6
    → follows c.after ≡ true
    → InPhase ph c
at_rest ph c t w b s l f = record {
  safe = λ e. absurd (ground (arith, e, t));
  whole = s;
  brought = λ e. absurd (ground (arith, e, w));
  staged = λ e. absurd (ground (arith, e, b));
  short = l;
  next = f;
}

-- The same, of a phase given by an equation.
pub same_phase : (ph : Phase) (c : SdCard) → c.phase ≡ ph → InBounds c → InPhase ph c
same_phase ph c e o = subst (λ q. InPhase q c) e o

select-InPhase :
    (ph : Phase) (now : Bool) (c : SdCard)
    → InPhase ph c
    → InBounds (select now (record c { phase = ph }))
select-InPhase ph now c o =
    if_rule (λ q. InPhase q (select now (record c { phase = ph }))) {b = is_busy ph}
      (λ b. record {
        safe = o.safe;
        whole = o.whole;
        brought = o.brought;
        staged = o.staged;
        short = ground (arith, o.short);
        next = o.next;
      })
      (λ b.
        if_rule (λ q. InPhase q (select now (record c { phase = ph }))) {b = now}
          (λ n. at_rest _ _ refl refl refl o.whole (ground (arith, o.short)) o.next)
          (λ n. at_rest _ _ refl refl refl o.whole (ground (arith, o.short)) o.next))

select-InBounds : (now : Bool) (c : SdCard) → InBounds c → InBounds (select now c)
select-InBounds now c o = select-InPhase c.phase now c o

pub line_in-InBounds : (line level : ℕ) (c : SdCard) → InBounds c → InBounds (line_in line level c)
unfolding line_in
line_in-InBounds line level c o =
    if_rule InBounds {b = not (line == 0)} (λ b. o)
      (λ b.
        if_rule InBounds {b = level == 0}
          (λ l. if_rule InBounds {b = c.selected} (λ k. o) (λ k. select-InBounds true c o))
          (λ l. if_rule InBounds {b = c.selected} (λ k. select-InBounds false c o) (λ k. o)))

-- A card on its way through a block that it sends, or receives.
pub moving :
    (ph : Phase) (c : SdCard)
    → c.phase ≡ ph
    → c.block < block_count
    → length c.store ≡ store_size
    → (is_writing ph ≡ true → length c.staging ≡ min c.offset block_size)
    → (is_busy ph ≡ true → length c.staging ≡ block_size)
    → length c.command < 6
    → follows c.after ≡ true
    → InBounds c
moving ph c e k w m n l f =
    subst (λ q. InPhase q c) (sym e)
      (record { safe = λ t. k; whole = w; brought = m; staged = n; short = l; next = f })

pub after_reply :
    (ph : Phase) (c : SdCard)
    → InPhase reply_phase (record c { after = ph })
    → InBounds (record c { phase = ph; after = ph; offset = 0; pending = 255 })
after_reply command_phase c o = at_rest _ _ refl refl refl o.whole o.short o.next
after_reply read_phase c o =
    moving read_phase _ refl (o.safe refl) o.whole (λ w. absurd (ground arith))
      (λ w. absurd (ground arith)) o.short o.next
after_reply write_wait c o =
    moving write_wait _ refl (o.safe refl) o.whole (λ w. absurd (ground arith))
      (λ w. absurd (ground arith)) o.short o.next
after_reply ph c o = absurd (ground (arith, o.next))
