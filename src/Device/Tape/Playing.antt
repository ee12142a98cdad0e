-- ===== src/Device/Tape/Playing.antt =====
-- An application that does what the recording says plays it to its end, and hears of no mismatch.
use embed_bench.Prelude.{
  ℕ, zero, suc, ◌+◌, ◌≤◌, ◌<◌, ◌≡◌, refl, ap, sym, subst, ◌∙◌, true, false, ◌||◌, Option, none,
  some, List, [], length, take, drop, arith, le→leb, Option-cases, inl, inr,
}
use embed_bench.Device.Port.{HostPort}
use embed_bench.Device.Tape.{
  Kind, write, read, serial_in, serial_out, spi, busy, unknown, Step, Tape, is_serial_in, is_spi,
  rewound, current, finished, i2c_write, i2c_read, serial_bytes,
}
use embed_bench.Device.Tape.Moved.{
  Moved, playable, Playable, AllPlayable, step_at-Playable, step_at-bound, asked,
}
use embed_bench.Device.Tape.Requests.{
  i2c_write-Moved, i2c_read-Moved, feed-Moved, serial_one, spi_all, spi_one,
}
use embed_bench.Device.Tape.Output.{await, await-Moved}

module _ {ℓ} {P : Type ℓ} (h : HostPort P) (elapse : ℕ → P → P) where
  -- What the application does at a step: the recorded request, or waiting for the recorded output.
  abbrev pub act : Kind → Step → Tape → P → Tape × P
  act write s c p =
      let r =
        i2c_write (some h) (take s.len s.bytes) (record { stop = s.stop; continued = false }) c p in
      (r.1, r.2)
  act read s c p =
      let r = i2c_read (some h) (asked s) (record { stop = s.stop; continued = false }) c p in
      (r.1, r.2)
  act serial_in s c p = serial_bytes (some h) (take s.len s.bytes) c p
  act serial_out s c p = await h elapse c p
  act spi s c p = spi_all h (take s.len s.bytes) c p
  act busy s c p = (c, p)
  act unknown s c p = (c, p)

  abbrev pub turn_at : Option Step → Tape → P → Tape × P
  turn_at none c p = (c, p)
  turn_at (some s) c p = act s.kind s c p

  -- `n` turns of an application that follows the recording.
  abbrev pub play : ℕ → Tape → P → Tape × P
  play zero c p = (c, p)
  play (suc n) c p = play n (turn_at (current c) c p).0 (turn_at (current c) c p).1

  serial_none : (c : Tape) (p : P) → serial_bytes (some h) [] c p ≡ (c, p)
  unfolding serial_bytes
  serial_none c p = refl

  act-Moved :
      (k : Kind) (s : Step) (c : Tape) (p : P)
      → s.kind ≡ k
      → current c ≡ some s
      → Playable s
      → c.progress ≡ 0
      → c.step_bad ≡ false
      → Moved c (c.step + 1) (act k s c p).0
  act-Moved write s c p k e g z b = i2c_write-Moved h s c p e k g.there
  act-Moved read s c p k e g z b = i2c_read-Moved h s c p e k
  act-Moved serial_in s c p k e g z b =
      let filled : 0 < s.len = g.some_byte (ap (λ q. is_serial_in q || is_spi q) k) in
      feed-Moved h (serial_bytes (some h)) s serial_none (λ x xs d q. serial_one h s x xs d q k)
        g.there _ c p e (ap (λ i. drop i (take s.len s.bytes)) z) (omega (arith, z, filled))
  act-Moved serial_out s c p k e g z b = await-Moved h elapse s c p e k z b
  act-Moved spi s c p k e g z b =
      let filled : 0 < s.len = g.some_byte (ap (λ q. is_serial_in q || is_spi q) k) in
      feed-Moved h (spi_all h) s (λ d q. refl) (λ x xs d q. spi_one h s x xs d q k) g.there _ c p e
        (ap (λ i. drop i (take s.len s.bytes)) z) (omega (arith, z, filled))
  act-Moved busy s c p k e g z b = absurd (ground (arith, g.played, ap playable k))
  act-Moved unknown s c p k e g z b = absurd (ground (arith, g.played, ap playable k))

  play-ends :
      (n : ℕ) (c : Tape) (p : P)
      → AllPlayable c.steps
      → c.progress ≡ 0
      → c.step_bad ≡ false
      → length c.steps ≤ c.step + n
      → (length c.steps ≤ (play n c p).0.step)
        × ((play n c p).0.mismatches ≡ c.mismatches)
        × ((play n c p).0.steps ≡ c.steps)
  play-ends zero c p g z b l = (omega (arith, l), refl, refl)
  play-ends (suc n) c p g z b l = elim (Option-cases (current c)) [
    | inl e ↦
        let o = play-ends n c p g z b (omega (arith, step_at-bound c.steps c.step e)) in
        subst
          (λ q.
            (length c.steps ≤ (play n (turn_at q c p).0 (turn_at q c p).1).0.step)
            × ((play n (turn_at q c p).0 (turn_at q c p).1).0.mismatches ≡ c.mismatches)
            × ((play n (turn_at q c p).0 (turn_at q c p).1).0.steps ≡ c.steps))
          (sym e) o
    | inr (s, e) ↦
        let m = act-Moved s.kind s c p refl e (step_at-Playable c.steps c.step s g e) z b in
        let d = act s.kind s c p in
        let o =
          play-ends n d.0 d.1 (subst AllPlayable (sym m.same) g) m.fresh_step m.good
            (omega (arith, l, m.onward, ap length m.same)) in
        subst
          (λ q.
            (length c.steps ≤ (play n (turn_at q c p).0 (turn_at q c p).1).0.step)
            × ((play n (turn_at q c p).0 (turn_at q c p).1).0.mismatches ≡ c.mismatches)
            × ((play n (turn_at q c p).0 (turn_at q c p).1).0.steps ≡ c.steps))
          (sym e) (omega (arith, o.0, ap length m.same), o.1 ∙ m.faultless, o.2 ∙ m.same)
  ]

  -- A rewound recording without busy steps, whose steps have the bytes that they promise, plays to
  -- its end. Each turn makes the recorded request, or waits for the recorded output: the environment
  -- calls advanceTo at its present time, lets time pass, and calls it again at the time for which the
  -- tape is then armed, or at once if that is over. After one turn for each step the tape is finished and has counted no mismatch.
  pub play-finished :
      (steps : List Step) (p : P)
      → AllPlayable steps
      → (finished (play (length steps) (rewound steps) p).0 ≡ true)
        × ((play (length steps) (rewound steps) p).0.mismatches ≡ 0)
  unfolding finished
  play-finished steps p g =
      let o = play-ends (length steps) (rewound steps) p g refl refl (omega arith) in
      let d = (play (length steps) (rewound steps) p).0 in
      (le→leb (length d.steps) d.step (omega (arith, o.0, ap length o.2)), o.1)
