-- ===== src/Device/SdCard/Transfers.antt =====
-- A byte over SPI keeps the SD card in bounds, and leaves no array.
use embed_bench.Prelude.{
  ℕ, ◌+◌, ◌-◌, ◌*◌, ◌≡◌, refl, ap, sym, subst, true, ◌||◌, Option, none, some, [], ◌∷◌, ◌++◌, ltb,
  leb, ◌==◌, not, length, drop-get_elem, length-append, arith, if_rule,
}
use embed_bench.Device.Port.{HostPort}
use embed_bench.Device.SdCard.{
  Phase, idle_phase, command_phase, reply_phase, read_phase, write_wait, write_phase, busy_phase,
  SdCard, block_size, block_count, store_size, token_start, is_busy, begin_block, run_command,
  begin_command, command_byte, read_byte, write_byte, in_phase, spi_transfer,
}
use embed_bench.Device.SdCard.Invariant.{
  will_touch, is_writing, follows, InPhase, InBounds, at_rest, same_phase, moving, after_reply,
}

module _ {ℓ} {P : Type ℓ} where
  -- A result of a transfer that stays in bounds.
  abbrev pub Stays : Option (ℕ × SdCard × P) → Type ℓ
  Stays r = (t : ℕ × SdCard × P) × (r ≡ some t) × InBounds t.1

  pub stays : (n : ℕ) (c : SdCard) (p : P) → InBounds c → Stays (some (n, c, p))
  stays n c p o = ((n, c, p), refl, o)

  begin_block-InBounds :
      (port : Option (HostPort P)) (op : ℕ) (c : SdCard) (p : P)
      → InPhase idle_phase c
      → InBounds (begin_block port op c p).0
  unfolding begin_block
  begin_block-InBounds port op c p o =
      if_rule (λ (r : SdCard × P). InBounds r.0) {b = not c.initialised}
        (λ b. at_rest _ _ refl refl refl o.whole o.short refl)
        (λ b.
          if_rule (λ (r : SdCard × P). InBounds r.0) {b = leb block_count c.block}
            (λ b. at_rest _ _ refl refl refl o.whole o.short refl)
            (λ b. record {
              safe = λ e. ground (arith, b);
              whole = o.whole;
              brought = λ e. absurd (ground arith);
              staged = λ e. absurd (ground arith);
              short = o.short;
              next = if_rule (λ q. follows q ≡ true) {b = op == 81} (λ _. refl) (λ _. refl);
            }))

  run_command-InBounds :
      (port : Option (HostPort P)) (op : ℕ) (c : SdCard) (p : P)
      → InPhase idle_phase c
      → InBounds (run_command port op c p).0
  unfolding run_command
  run_command-InBounds port op c p o =
      if_rule (λ (r : SdCard × P). InBounds r.0) {b = op == 64}
        (λ b. at_rest _ _ refl refl refl o.whole o.short refl)
        (λ b.
          if_rule (λ (r : SdCard × P). InBounds r.0) {b = op == 72}
            (λ b. at_rest _ _ refl refl refl o.whole o.short refl)
            (λ b.
              if_rule (λ (r : SdCard × P). InBounds r.0) {b = op == 81 || (op == 88)}
                (λ b. begin_block-InBounds port op c p o)
                (λ b. at_rest _ _ refl refl refl o.whole o.short refl)))

  begin_command-InBounds :
      (port : Option (HostPort P)) (c : SdCard) (p : P)
      → length c.store ≡ store_size
      → follows c.after ≡ true
      → InBounds (begin_command port c p).0
  unfolding begin_command
  begin_command-InBounds port c p w f =
      run_command-InBounds port _ _ p (at_rest idle_phase _ refl refl refl w (omega arith) f)

  command_byte-InBounds :
      (port : Option (HostPort P)) (mosi : ℕ) (c : SdCard) (p : P)
      → c.phase ≡ command_phase
      → InBounds c
      → InBounds (command_byte port mosi c p).1
  unfolding command_byte
  command_byte-InBounds port mosi c p e o =
      if_rule (λ (r : ℕ × SdCard × P). InBounds r.1) {b = mosi == 255} (λ b. o)
        (λ b.
          if_rule (λ (r : ℕ × SdCard × P). InBounds r.1) {b = length (c.command ++ mosi ∷ []) == 6}
            (λ b. begin_command-InBounds port _ p o.whole o.next)
            (λ b.
              at_rest _ _ (ap (λ q. will_touch q c.after) e) (ap is_writing e) (ap is_busy e)
                o.whole (ground (arith, b, o.short, length-append c.command (mosi ∷ []))) o.next))

  read_byte-Stays : (c : SdCard) (p : P) → c.phase ≡ read_phase → InBounds c → Stays (read_byte c p)
  unfolding read_byte
  read_byte-Stays c p e o =
      let here = same_phase read_phase c e o in
      let reading = λ (n : ℕ).
        moving read_phase (record c { offset = n }) e (here.safe refl) o.whole
          (λ w. absurd (ground arith)) (λ w. absurd (ground arith)) o.short o.next in
      if_rule Stays {b = c.offset == 0} (λ b. stays _ _ p (reading 1))
        (λ b.
          if_rule Stays {b = leb c.offset block_size}
            (λ k.
              let found =
                drop-get_elem c.store (c.block * block_size + (c.offset - 1))
                  (ground (arith, b, k, here.safe refl, o.whole)) in
              subst
                (λ (v : Option ℕ). Stays (elim v [
                  | none ↦ none
                  | some x ↦ some (x, record c { offset = c.offset + 1 }, p)
                ]))
                (sym found.1) (stays _ _ p (reading (c.offset + 1))))
            (λ k.
              if_rule Stays {b = leb (block_size + 3) (c.offset + 1)}
                (λ l. stays _ _ p (at_rest _ _ refl refl refl o.whole o.short o.next))
                (λ l. stays _ _ p (reading (c.offset + 1)))))

  write_byte-InBounds :
      (port : Option (HostPort P)) (mosi : ℕ) (c : SdCard) (p : P)
      → c.phase ≡ write_phase
      → InBounds c
      → InBounds (write_byte port mosi c p).1
  unfolding write_byte
  write_byte-InBounds port mosi c p e o =
      let here = same_phase write_phase c e o in
      let k = here.safe refl in
      if_rule (λ (r : ℕ × SdCard × P). InBounds r.1) {b = ltb c.offset block_size}
        (λ b.
          moving write_phase _ e k o.whole
            (λ w. ground (arith, b, here.brought refl, length-append c.staging (mosi ∷ [])))
            (λ w. absurd (ground arith)) o.short o.next)
        (λ b.
          if_rule (λ (r : ℕ × SdCard × P). InBounds r.1) {b = ltb (c.offset + 1) (block_size + 2)}
            (λ d.
              moving write_phase _ e k o.whole (λ w. ground (arith, b, here.brought refl))
                (λ w. absurd (ground arith)) o.short o.next)
            (λ d.
              moving busy_phase _ refl k o.whole (λ w. absurd (ground arith))
                (λ w. ground (arith, b, here.brought refl)) o.short o.next))

  in_phase-Stays :
      (ph : Phase) (port : Option (HostPort P)) (mosi : ℕ) (c : SdCard) (p : P)
      → c.phase ≡ ph
      → InBounds c
      → Stays (in_phase ph port mosi c p)
  unfolding in_phase
  in_phase-Stays idle_phase port mosi c p e o = stays _ c p o
  in_phase-Stays command_phase port mosi c p e o =
      (command_byte port mosi c p, refl, command_byte-InBounds port mosi c p e o)
  in_phase-Stays reply_phase port mosi c p e o =
      stays _ _ p (after_reply c.after c (same_phase reply_phase c e o))
  in_phase-Stays read_phase port mosi c p e o = read_byte-Stays c p e o
  in_phase-Stays write_wait port mosi c p e o =
      if_rule Stays {b = mosi == token_start}
        (λ b. stays _ _ p (
          moving write_phase _ refl ((same_phase write_wait c e o).safe refl) o.whole (λ w. refl)
            (λ w. absurd (ground arith)) o.short o.next))
        (λ b. stays _ c p o)
  in_phase-Stays write_phase port mosi c p e o =
      (write_byte port mosi c p, refl, write_byte-InBounds port mosi c p e o)
  in_phase-Stays busy_phase port mosi c p e o = stays _ c p o

  pub spi_transfer-Stays :
      (port : Option (HostPort P)) (mosi : ℕ) (c : SdCard) (p : P)
      → InBounds c
      → Stays (spi_transfer port mosi c p)
  unfolding spi_transfer
  spi_transfer-Stays port mosi c p o =
      if_rule Stays {b = not c.selected} (λ b. stays _ c p o)
        (λ b. in_phase-Stays c.phase port mosi c p refl o)
