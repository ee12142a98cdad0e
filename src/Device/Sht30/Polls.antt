-- ===== src/Device/Sht30/Polls.antt =====
-- A measurement of the SHT30 that the application polls for.
use embed_bench.Prelude.{
  ℕ, ◌+◌, ◌%◌, ◌≤◌, ◌<◌, ◌≡◌, refl, ap, sym, subst, ◌∙◌, true, false, Option, List, [], ◌∷◌, length,
  get_or, arith,
}
use embed_bench.Trace.{word32}
use embed_bench.Device.Port.{HostPort, clock, ack, address_nack}
use embed_bench.Device.Sht30.{
  crc8, Pending, nothing, measurement, Sht30, high_us, is_measurement, is_reset, start, obey,
  take_command, i2c_write, answer, read_ready, i2c_read,
}

-- A part that measures until `due` without holding the clock line, and has `bytes` for the first read
-- after that.
record Measuring (due : ℕ) (bytes : List ℕ) (c : Sht30) : Type 0 where
  measuring : is_measurement c.pending ≡ true
  free_clock : c.stretch ≡ false
  until : c.ready_at_us ≡ due
  got : c.result ≡ bytes
  none_held : c.holding ≡ false
  commanded : c.after_reset ≡ false

not_reset : (q : Pending) → is_measurement q ≡ true → is_reset q ≡ false
not_reset measurement e = refl
not_reset q e = absurd (ground (arith, e))

read_early :
    (now len due : ℕ) (bytes : List ℕ) (c : Sht30)
    → now < due
    → Measuring due bytes c
    → i2c_read now len c ≡ ([], record c { refused = (c.refused + 1) % word32 })
unfolding i2c_read
read_early now len due bytes c h m =
    ground (arith, h, m.measuring, m.free_clock, m.until, m.none_held)

answer_word :
    (a b x y : ℕ)
    → answer 6 (a ∷ b ∷ x ∷ y ∷ []) ≡ a ∷ b ∷ crc8 (a ∷ b ∷ []) ∷ x ∷ y ∷ crc8 (x ∷ y ∷ []) ∷ []
unfolding answer
answer_word a b x y = refl

abbrev read_once : Sht30 → Sht30
read_once c = record c { pending = nothing; holding = false }

read_due :
    (now due : ℕ) (bytes : List ℕ) (c : Sht30)
    → due ≤ now
    → Measuring due bytes c
    → i2c_read now 6 c ≡ (answer 6 bytes, read_once c)
unfolding i2c_read read_ready
read_due now due bytes c h m = ground (arith, h, m.measuring, m.until, m.commanded, m.got)

read_again :
    (now len due : ℕ) (c : Sht30)
    → due ≤ now
    → c.ready_at_us ≡ due
    → c.after_reset ≡ false
    → (i2c_read now len (read_once c)).0 ≡ []
unfolding i2c_read read_ready
read_again now len due c h u r = ground (arith, h, u, r)

module _ {ℓ} {P : Type ℓ} (port : Option (HostPort P)) where
  pub data Poll : Type ℓ where
    read_poll : (len : ℕ) → P → Poll
    write_poll : List ℕ → P → Poll

  -- When a poll is made.
  abbrev pub polled_at : Poll → ℕ
  polled_at (read_poll len p) = clock port p
  polled_at (write_poll bytes p) = clock port p

  abbrev pub after_poll : Poll → Sht30 → Sht30
  after_poll (read_poll len p) c = (i2c_read (clock port p) len c).1
  after_poll (write_poll bytes p) c = (i2c_write port bytes c p).1

  abbrev pub after_polls : List Poll → Sht30 → Sht30
  after_polls [] c = c
  after_polls (q ∷ qs) c = after_polls qs (after_poll q c)

  -- Every poll was made before `due`.
  abbrev pub AllBefore : ℕ → List Poll → Type 0
  AllBefore due [] = Unit {0}
  AllBefore due (q ∷ qs) = (polled_at q < due) × AllBefore due qs

  -- A poll was refused: a read brought nothing, and a write ended in the address NACK.
  abbrev pub Refused : Poll → Sht30 → Type 0
  Refused (read_poll len p) c = (i2c_read (clock port p) len c).0 ≡ []
  Refused (write_poll bytes p) c = (i2c_write port bytes c p).0 ≡ address_nack

  abbrev pub AllRefused : List Poll → Sht30 → Type 0
  AllRefused [] c = Unit {0}
  AllRefused (q ∷ qs) c = Refused q c × AllRefused qs (after_poll q c)

  write_early :
      (bytes : List ℕ) (due : ℕ) (got : List ℕ) (c : Sht30) (p : P)
      → clock port p < due
      → Measuring due got c
      → i2c_write port bytes c p
        ≡ (address_nack, record c { after_reset = false; refused = (c.refused + 1) % word32 }, p)
  unfolding i2c_write
  write_early bytes due got c p h m = ground (arith, h, m.until, not_reset c.pending m.measuring)

  still :
      (due : ℕ) (got : List ℕ) (c : Sht30) (n : ℕ)
      → Measuring due got c
      → Measuring due got (record c { after_reset = false; refused = n })
  still due got c n m = record {
    measuring = m.measuring;
    free_clock = m.free_clock;
    until = m.until;
    got = m.got;
    none_held = m.none_held;
    commanded = refl;
  }

  still_read :
      (due : ℕ) (got : List ℕ) (c : Sht30) (n : ℕ)
      → Measuring due got c
      → Measuring due got (record c { refused = n })
  still_read due got c n m = record {
    measuring = m.measuring;
    free_clock = m.free_clock;
    until = m.until;
    got = m.got;
    none_held = m.none_held;
    commanded = m.commanded;
  }

  after_poll-Measuring :
      (q : Poll) (due : ℕ) (got : List ℕ) (c : Sht30)
      → polled_at q < due
      → Measuring due got c
      → Refused q c × Measuring due got (after_poll q c)
  after_poll-Measuring (read_poll len p) due got c h m =
      let e = read_early (clock port p) len due got c h m in
      (
        ap (λ (r : List ℕ × Sht30). r.0) e,
        subst (λ (r : List ℕ × Sht30). Measuring due got r.1) (sym e) (still_read due got c _ m),
      )
  after_poll-Measuring (write_poll bytes p) due got c h m =
      let e = write_early bytes due got c p h m in
      (
        ap (λ (r : ℕ × Sht30 × P). r.0) e,
        subst (λ (r : ℕ × Sht30 × P). Measuring due got r.1) (sym e) (still due got c _ m),
      )

  after_polls-Measuring :
      (qs : List Poll) (due : ℕ) (got : List ℕ) (c : Sht30)
      → AllBefore due qs
      → Measuring due got c
      → AllRefused qs c × Measuring due got (after_polls qs c)
  after_polls-Measuring [] due got c h m = (tt, m)
  after_polls-Measuring (q ∷ qs) due got c h m =
      let one = after_poll-Measuring q due got c h.0 m in
      let rest = after_polls-Measuring qs due got (after_poll q c) h.1 one.1 in
      ((one.0, rest.0), rest.1)

  -- What the command 2400 leaves.
  abbrev commanded : Sht30 → P → Sht30
  commanded c p =
      start (clock port p) high_us false (record c { after_reset = false; bad_command = false })

  measure_lem :
      (c : Sht30) (p : P)
      → c.ready_at_us ≤ clock port p
      → i2c_write port (0x24 ∷ 0 ∷ []) c p ≡ (ack, commanded c p, p)
  unfolding i2c_write take_command obey
  measure_lem c p h = ground (arith, h)

  commanded-Measuring :
      (c : Sht30) (p : P) (bytes : List ℕ)
      → is_measurement c.pending ≡ false
      → c.holding ≡ false
      → 0 < length c.samples
      → get_or c.samples c.next_sample [] ≡ bytes
      → Measuring (clock port p + high_us) bytes (commanded c p)
  unfolding start
  commanded-Measuring c p bytes n k l g = record {
    measuring = refl;
    free_clock = refl;
    until = refl;
    got = ground (arith, l, g);
    none_held = ground (arith, n, k);
    commanded = refl;
  }

  -- A free part with a sample and no unread result acknowledges the command for a high-repeatability
  -- measurement. However it is polled in the 12.4 ms after that, it refuses every poll, and the
  -- first read of six bytes from then on brings the sample, each word with its checksum; any later
  -- read brings nothing.
  pub measure-polls-read :
      (qs : List Poll) (c : Sht30) (p : P) (a b x y now later len : ℕ)
      → c.ready_at_us ≤ clock port p
      → is_measurement c.pending ≡ false
      → c.holding ≡ false
      → 0 < length c.samples
      → get_or c.samples c.next_sample [] ≡ a ∷ b ∷ x ∷ y ∷ []
      → AllBefore (clock port p + high_us) qs
      → clock port p + high_us ≤ now
      → clock port p + high_us ≤ later
      → ((i2c_write port (0x24 ∷ 0 ∷ []) c p).0 ≡ ack)
        × AllRefused qs (i2c_write port (0x24 ∷ 0 ∷ []) c p).1
        × ((i2c_read now 6 (after_polls qs (i2c_write port (0x24 ∷ 0 ∷ []) c p).1)).0
            ≡ a ∷ b ∷ crc8 (a ∷ b ∷ []) ∷ x ∷ y ∷ crc8 (x ∷ y ∷ []) ∷ [])
        × ((i2c_read later len
              (i2c_read now 6 (after_polls qs (i2c_write port (0x24 ∷ 0 ∷ []) c p).1)).1).0
            ≡ [])
  measure-polls-read qs c p a b x y now later len free n k l g early due due' =
      let e = measure_lem c p free in
      let started =
        subst (λ (r : ℕ × Sht30 × P). Measuring (clock port p + high_us) (a ∷ b ∷ x ∷ y ∷ []) r.1)
          (sym e) (commanded-Measuring c p _ n k l g) in
      let polled =
        after_polls-Measuring qs _ _ (i2c_write port (0x24 ∷ 0 ∷ []) c p).1 early started in
      let d = read_due now _ _ _ due polled.1 in
      (
        ap (λ (r : ℕ × Sht30 × P). r.0) e,
        polled.0,
        ap (λ (r : List ℕ × Sht30). r.0) d ∙ answer_word a b x y,
        ap (λ (r : List ℕ × Sht30). (i2c_read later len r.1).0) d
            ∙ read_again later len _ (after_polls qs (i2c_write port (0x24 ∷ 0 ∷ []) c p).1) due'
                polled.1.until polled.1.commanded,
      )
