-- ===== src/Device/EnvSensor/Measuring.antt =====
-- A forced measurement of the environmental sensor.
use embed_bench.Prelude.{
  ℕ, ◌+◌, ◌*◌, ◌/◌, ◌%◌, ◌≤◌, ◌<◌, ◌≡◌, refl, ap, sym, ◌∙◌, true, false, some, [], ◌∷◌, arith,
}
use embed_bench.Device.Port.{HostPort}
use embed_bench.Device.EnvSensor.{
  EnvSensor, reg_ctrl, cmd_forced, measure_us, bytes_of, command, i2c_write, advance_to,
  channel_write, channel_read,
}

-- The sensor is shown the three bytes of a temperature, and told to measure at `p`.
abbrev pub measured {ℓ} : {P : Type ℓ} → HostPort P → (a b d : ℕ) → EnvSensor → P → EnvSensor
measured h a b d c p =
    (i2c_write (some h) (reg_ctrl ∷ cmd_forced ∷ []) (channel_write 0 (a ∷ b ∷ d ∷ []) c).1 p).1

module _ {ℓ} {P : Type ℓ} (h : HostPort P) where
  abbrev forced : (a b d : ℕ) → EnvSensor → P → EnvSensor
  forced a b d c p = record c {
    raw_temp = a * 65536 + b * 256 + d;
    pointer = reg_ctrl;
    ctrl = cmd_forced;
    measuring = true;
    ready_at_us = h.now_micros p + measure_us;
  }

  measured_lem :
      (a b d : ℕ) (c : EnvSensor) (p : P)
      → c.measuring ≡ false
      → measured h a b d c p ≡ forced a b d c p
  unfolding i2c_write channel_write command
  measured_lem a b d c p e = ground (arith, e)

  early :
      (now : ℕ) (a b d : ℕ) (c : EnvSensor) (p q : P)
      → now < h.now_micros p + measure_us
      → advance_to (some h) now (forced a b d c p) q ≡ (forced a b d c p, q)
  unfolding advance_to
  early now a b d c p q l = ground (arith, l)

  due :
      (now : ℕ) (a b d : ℕ) (c : EnvSensor) (p q : P)
      → h.now_micros p + measure_us ≤ now
      → (advance_to (some h) now (forced a b d c p) q).0.latched ≡ a * 65536 + b * 256 + d
  unfolding advance_to
  due now a b d c p q l = ground (arith, l)

  read_lem : (c : EnvSensor) (n : ℕ) → c.latched ≡ n → channel_read 0 3 c ≡ (3, bytes_of n)
  unfolding channel_read
  read_lem c n e = ap (λ k. (3, bytes_of k)) e

  bytes_of_lem :
      (a b d : ℕ)
      → a < 256
      → b < 256
      → d < 256
      → bytes_of (a * 65536 + b * 256 + d) ≡ a ∷ b ∷ d ∷ []
  bytes_of_lem a b d x y z =
      let e : (a * 65536 + b * 256 + d) / 65536 % 256 ≡ a = omega (arith, x, y, z) in
      let f : (a * 65536 + b * 256 + d) / 256 % 256 ≡ b = omega (arith, x, y, z) in
      let g : (a * 65536 + b * 256 + d) % 256 ≡ d = omega (arith, x, y, z) in
      ap (λ k. k ∷ (a * 65536 + b * 256 + d) / 256 % 256 ∷ (a * 65536 + b * 256 + d) % 256 ∷ []) e
      ∙ ap (λ k. a ∷ k ∷ (a * 65536 + b * 256 + d) % 256 ∷ []) f
      ∙ ap (λ k. a ∷ b ∷ k ∷ []) g

  -- A sensor that is not measuring is shown three bytes and told to measure. In the 7.5 ms after
  -- that its temperature channel reads what it read before; from then on it reads the three bytes.
  pub measured-read :
      (now later a b d : ℕ) (c : EnvSensor) (p q r : P)
      → c.measuring ≡ false
      → a < 256
      → b < 256
      → d < 256
      → now < h.now_micros p + measure_us
      → h.now_micros p + measure_us ≤ later
      → (channel_read 0 3 (advance_to (some h) now (measured h a b d c p) q).0 ≡ channel_read 0 3 c)
        × (channel_read 0 3 (advance_to (some h) later (measured h a b d c p) r).0
            ≡ (3, a ∷ b ∷ d ∷ []))
  measured-read now later a b d c p q r e x y z l m =
      let start = measured_lem a b d c p e in
      (
        ap (λ s. channel_read 0 3 (advance_to (some h) now s q).0) start
            ∙ ap (λ (s : EnvSensor × P). channel_read 0 3 s.0) (early now a b d c p q l)
            ∙ read_lem (forced a b d c p) c.latched refl
            ∙ sym (read_lem c c.latched refl),
        ap (λ s. channel_read 0 3 (advance_to (some h) later s r).0) start
            ∙ read_lem _ _ (due later a b d c p r m)
            ∙ ap (λ k. (3, k)) (bytes_of_lem a b d x y z),
      )
