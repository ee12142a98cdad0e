-- ===== src/Device/Rtc/Time.antt =====
-- The time that is read is the time that was set, and what has passed since.
use embed_bench.Prelude.{
  ℕ, ◌+◌, ◌-◌, ◌/◌, ◌%◌, ◌^◌, ◌≤◌, ◌<◌, ◌≡◌, refl, ap, ◌∙◌, some, List, [], ◌∷◌, get_or, arith,
}
use embed_bench.Trace.{word32}
use embed_bench.Device.Port.{HostPort}
use embed_bench.Device.Rtc.{
  Rtc, us_per_second, seconds_of, bytes_of, now_seconds, set_time, i2c_write, i2c_read,
}

-- The number that four bytes stand for.
abbrev pub decoded : List ℕ → ℕ
decoded bytes =
    seconds_of (get_or bytes 0 0) (get_or bytes 1 0) (get_or bytes 2 0) (get_or bytes 3 0)

decoded-bytes_of : (n : ℕ) → n < word32 → decoded (bytes_of n) ≡ n
decoded-bytes_of n h = omega (arith, h)

module _ {ℓ} {P : Type ℓ} (h : HostPort P) where
  write_lem :
      (x y z w : ℕ) (c : Rtc) (p : P)
      → (i2c_write (some h) (0 ∷ x ∷ y ∷ z ∷ w ∷ []) c p).1
        ≡ set_time (some h) (seconds_of x y z w) (record c { reg = 0 }) p
  unfolding i2c_write
  write_lem x y z w c p = refl

  read_lem :
      (seconds : ℕ) (c : Rtc) (p q : P)
      → h.now_micros p ≤ h.now_micros q
      → h.now_micros q < 2 ^ 64
      → i2c_read (some h) 4 (set_time (some h) seconds (record c { reg = 0 }) p) q
        ≡ bytes_of ((seconds + (h.now_micros q - h.now_micros p) / us_per_second) % word32)
  unfolding i2c_read now_seconds
  read_lem seconds c p q m l =
      let e : (h.now_micros q + 2 ^ 64 - h.now_micros p) % 2 ^ 64
          ≡ h.now_micros q - h.now_micros p =
        omega (arith, m, l) in
      ap (λ k. bytes_of ((seconds + k / us_per_second) % word32)) e

  -- A time that is written, and read back when some microseconds have passed, is the time written
  -- and the whole seconds among them, modulo 2^32.
  pub write-read_time :
      (x y z w : ℕ) (c : Rtc) (p q : P)
      → h.now_micros p ≤ h.now_micros q
      → h.now_micros q < 2 ^ 64
      → decoded (i2c_read (some h) 4 (i2c_write (some h) (0 ∷ x ∷ y ∷ z ∷ w ∷ []) c p).1 q)
        ≡ (seconds_of x y z w + (h.now_micros q - h.now_micros p) / us_per_second) % word32
  write-read_time x y z w c p q m l =
      ap (λ d. decoded (i2c_read (some h) 4 d q)) (write_lem x y z w c p)
      ∙ ap decoded (read_lem (seconds_of x y z w) c p q m l)
      ∙ decoded-bytes_of _ (omega arith)
