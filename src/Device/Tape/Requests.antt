-- ===== src/Device/Tape/Requests.antt =====
-- The requests of an application that follows a recording.
use embed_bench.Prelude.{
  ℕ, suc, ◌+◌, ◌≤◌, ◌<◌, ◌≡◌, refl, ap, sym, subst, ◌∙◌, Bool, false, Option, none, some, List, [],
  ◌∷◌, ◌++◌, ltb, leb, if◌then◌else◌, min, length, get_or, take, drop, arith, length-take,
  length-drop, str_eq_refl, if_rule, Bool-cases, inl, inr,
}
use embed_bench.Label.{codes, hex_byte}
use embed_bench.Device.Port.{HostPort, Transfer}
use embed_bench.Device.Tape.{
  write, read, serial_in, spi, Step, Tape, is_write, is_read, is_serial_in, is_spi, is_busy,
  step_at, exhausted, tell_unless, finish_step, check_busy, busy_step, write_at, write_after,
  read_at, read_after, serial_byte, spi_byte, check_stop, play_write, i2c_write, play_read,
  i2c_read, next_byte, match_byte, serial_bytes, spi_transfer,
}
use embed_bench.Device.Tape.Moved.{finish_step-Moved, finish, Moved, drop-take_uncons, empty, asked}

module _ {ℓ} {P : Type ℓ} (h : HostPort P) where
  check_busy_lem :
      (s : Step) (c : Tape) (p : P)
      → step_at c.steps c.step ≡ some s
      → is_busy s.kind ≡ false
      → check_busy (some h) c p ≡ (false, c, p)
  unfolding check_busy
  check_busy_lem s c p e k =
      ap
        (λ (o : Option Step). elim o as (λ _. Bool × Tape × P) [
          | none ↦ (false, c, p)
          | some t ↦ if is_busy t.kind then busy_step (some h) c p else (false, c, p)
        ])
        e
      ∙ if_rule (λ r. r ≡ (false, c, p)) {b = is_busy s.kind} (λ b. absurd (ground (arith, b, k)))
          (λ b. refl)

  check_stop_lem : (s : Step) (c : Tape) (p : P) → check_stop (some h) s s.stop c p ≡ (c, p)
  unfolding check_stop
  check_stop_lem s c p = ground arith

  -- The recorded write, at its step.
  play_write_lem :
      (s : Step) (c : Tape) (p : P)
      → s.len ≤ length s.bytes
      → play_write (some h) s (take s.len s.bytes) s.stop c p
        ≡ (s.status, (finish h c p).0, (finish h c p).1)
  unfolding play_write
  play_write_lem s c p l =
      ground (
        arith,
        length-take s.len s.bytes,
        str_eq_refl (take s.len s.bytes),
        l,
        check_stop_lem s c p,
      )

  pub i2c_write-Moved :
      (s : Step) (c : Tape) (p : P)
      → step_at c.steps c.step ≡ some s
      → s.kind ≡ write
      → s.len ≤ length s.bytes
      → Moved c
          (c.step + 1)
          (i2c_write
            (some h)
            (take s.len s.bytes)
            (record { stop = s.stop; continued = false })
            c
            p).1
  unfolding i2c_write write_at
  i2c_write-Moved s c p e k l =
      let xfer : Transfer = record { stop = s.stop; continued = false } in
      let bytes = take s.len s.bytes in
      let at =
        if_rule (λ r. r ≡ play_write (some h) s bytes s.stop c p) {b = is_write s.kind} (λ _. refl)
          (λ b. absurd (ground (arith, b, ap is_write k))) in
      subst (λ (r : ℕ × Tape × P). Moved c (c.step + 1) r.1)
        (sym (
          ap (write_after (some h) bytes xfer) (check_busy_lem s c p e (ap is_busy k))
          ∙ ap (λ o. write_at (some h) o bytes xfer c p) e
          ∙ at
          ∙ play_write_lem s c p l))
        (finish_step-Moved h c p)

  play_read_lem :
      (s : Step) (c : Tape) (p : P)
      → play_read (some h) s (asked s) s.stop c p
        ≡ (take (min (asked s) s.len) s.bytes, (finish h c p).0, (finish h c p).1)
  unfolding play_read
  play_read_lem s c p = ground (arith, check_stop_lem s c p)

  pub i2c_read-Moved :
      (s : Step) (c : Tape) (p : P)
      → step_at c.steps c.step ≡ some s
      → s.kind ≡ read
      → Moved c
          (c.step + 1)
          (i2c_read (some h) (asked s) (record { stop = s.stop; continued = false }) c p).1
  unfolding i2c_read read_at
  i2c_read-Moved s c p e k =
      let xfer : Transfer = record { stop = s.stop; continued = false } in
      let at =
        if_rule (λ r. r ≡ play_read (some h) s (asked s) s.stop c p) {b = is_read s.kind}
          (λ _. refl) (λ b. absurd (ground (arith, b, ap is_read k))) in
      subst (λ (r : List ℕ × Tape × P). Moved c (c.step + 1) r.1)
        (sym (
          ap (read_after (some h) (asked s) xfer) (check_busy_lem s c p e (ap is_busy k))
          ∙ ap (λ o. read_at (some h) o (asked s) xfer c p) e
          ∙ at
          ∙ play_read_lem s c p))
        (finish_step-Moved h c p)

  match_byte_lem :
      (name : List ℕ) (s : Step) (byte : ℕ) (c : Tape) (p : P)
      → get_or s.bytes c.progress 0 ≡ byte
      → match_byte (some h) name s byte c p ≡ next_byte (some h) s c p
  unfolding match_byte
  match_byte_lem name s byte c p e = ground (arith, e)

  -- One byte more of a step, or the end of it.
  next_byte-more :
      (s : Step) (c : Tape) (p : P)
      → c.progress + 1 < s.len
      → next_byte (some h) s c p ≡ (record c { progress = c.progress + 1 }, p)
  unfolding next_byte
  next_byte-more s c p l = ground (arith, l)

  next_byte-last :
      (s : Step) (c : Tape) (p : P)
      → s.len ≤ c.progress + 1
      → next_byte (some h) s c p ≡ ((finish h c p).0, (finish h c p).1)
  unfolding next_byte finish_step
  next_byte-last s c p l =
      if_rule (λ r. r ≡ ((finish h c p).0, (finish h c p).1)) {b = leb s.len (c.progress + 1)}
        (λ _. refl) (λ b. absurd (ground (arith, b, l)))

  -- A loop `feed` that hands a step its bytes one by one.
  module _ (feed : List ℕ → Tape → P → Tape × P) (s : Step)
      (feed_none : (c : Tape) (p : P) → feed [] c p ≡ (c, p))
      (feed_one : (b : ℕ) (bs : List ℕ) (c : Tape) (p : P)
        → step_at c.steps c.step ≡ some s
        → get_or s.bytes c.progress 0 ≡ b
        → feed (b ∷ bs) c p ≡ feed bs (next_byte (some h) s c p).0 (next_byte (some h) s c p).1)
      (there : s.len ≤ length s.bytes) where
    pub feed-Moved :
        (bs : List ℕ) (c : Tape) (p : P)
        → step_at c.steps c.step ≡ some s
        → drop c.progress (take s.len s.bytes) ≡ bs
        → c.progress < s.len
        → Moved c (c.step + 1) (feed bs c p).0
    feed-Moved [] c p e d l = absurd (
        omega (
          arith,
          ap length d,
          length-drop c.progress (take s.len s.bytes),
          length-take s.len s.bytes,
          there,
          l,
        ))
    feed-Moved (b ∷ bs) c p e d l =
        let u = drop-take_uncons s.bytes c.progress s.len b bs d in
        let f = feed_one b bs c p e u.0 in
        elim (Bool-cases (ltb (c.progress + 1) s.len)) [
          | inl k ↦
              let more : c.progress + 1 < s.len = ground (arith, k) in
              let c' : Tape = record c { progress = c.progress + 1 } in
              let index : c.progress + 1 ≡ suc c.progress = omega arith in
              let m =
                feed-Moved bs c' p e (ap (λ i. drop i (take s.len s.bytes)) index ∙ u.1) more in
              subst (λ (r : Tape × P). Moved c (c.step + 1) r.0)
                (sym (f ∙ ap (λ (r : Tape × P). feed bs r.0 r.1) (next_byte-more s c p more)))
                (record {
                  same = m.same;
                  onward = m.onward;
                  faultless = m.faultless;
                  fresh_step = m.fresh_step;
                  good = m.good;
                })
          | inr k ↦
              let last : s.len ≤ c.progress + 1 = ground (arith, k) in
              let none_left : bs ≡ [] = empty bs (
                omega (
                  arith,
                  ap length d,
                  length-drop c.progress (take s.len s.bytes),
                  length-take s.len s.bytes,
                  there,
                  last,
                )) in
              subst (λ (r : Tape × P). Moved c (c.step + 1) r.0)
                (sym (
                  f
                  ∙ ap (λ (r : Tape × P). feed bs r.0 r.1) (next_byte-last s c p last)
                  ∙ ap (λ xs. feed xs (finish h c p).0 (finish h c p).1) none_left
                  ∙ feed_none _ _))
                (finish_step-Moved h c p)
        ]

  pub serial_one :
      (s : Step) (b : ℕ) (bs : List ℕ) (c : Tape) (p : P)
      → s.kind ≡ serial_in
      → step_at c.steps c.step ≡ some s
      → get_or s.bytes c.progress 0 ≡ b
      → serial_bytes (some h) (b ∷ bs) c p
        ≡ serial_bytes (some h) bs (next_byte (some h) s c p).0 (next_byte (some h) s c p).1
  unfolding serial_bytes serial_byte
  serial_one s b bs c p k e g =
      let at : serial_byte (some h) s b c p ≡ next_byte (some h) s c p =
        if_rule (λ r. r ≡ next_byte (some h) s c p) {b = is_serial_in s.kind}
          (λ _. match_byte_lem (codes "serial byte ") s b c p g)
          (λ n. absurd (ground (arith, n, ap is_serial_in k))) in
      ap
        (λ (o : Option Step). elim o as (λ _. Tape × P) [
          | none ↦ (
            exhausted c,
            tell_unless c.exhausted_said (some h) (codes "tape ended: serial byte " ++ hex_byte b)
                p,
          )
          | some t ↦
              serial_bytes (some h) bs (serial_byte (some h) t b c p).0
                (serial_byte (some h) t b c p).1
        ])
        e
      ∙ ap (λ (r : Tape × P). serial_bytes (some h) bs r.0 r.1) at

  abbrev pub spi_all : List ℕ → Tape → P → Tape × P
  spi_all [] c p = (c, p)
  spi_all (m ∷ ms) c p = spi_all ms (spi_transfer (some h) m c p).1 (spi_transfer (some h) m c p).2

  pub spi_one :
      (s : Step) (b : ℕ) (bs : List ℕ) (c : Tape) (p : P)
      → s.kind ≡ spi
      → step_at c.steps c.step ≡ some s
      → get_or s.bytes c.progress 0 ≡ b
      → spi_all (b ∷ bs) c p ≡ spi_all bs (next_byte (some h) s c p).0 (next_byte (some h) s c p).1
  unfolding spi_transfer spi_byte
  spi_one s b bs c p k e g =
      let at : spi_byte (some h) s b c p ≡ (
        get_or s.bytes (s.len + c.progress) 0,
        (next_byte (some h) s c p).0,
        (next_byte (some h) s c p).1,
      ) =
        if_rule
          (λ r. r ≡ (
            get_or s.bytes (s.len + c.progress) 0,
            (next_byte (some h) s c p).0,
            (next_byte (some h) s c p).1,
          ))
          {b = is_spi s.kind}
          (λ _.
            ap (λ (r : Tape × P). (get_or s.bytes (s.len + c.progress) 0, r.0, r.1))
              (match_byte_lem (codes "spi byte ") s b c p g))
          (λ n. absurd (ground (arith, n, ap is_spi k))) in
      let got : spi_transfer (some h) b c p ≡ spi_byte (some h) s b c p =
        ap
          (λ (o : Option Step). elim o as (λ _. ℕ × Tape × P) [
            | none ↦ (
              255,
              exhausted c,
              tell_unless c.exhausted_said (some h) (codes "tape ended: spi byte " ++ hex_byte b) p,
            )
            | some t ↦ spi_byte (some h) t b c p
          ])
          e in
      ap (λ (r : ℕ × Tape × P). spi_all bs r.1 r.2) (got ∙ at)
