-- ===== src/Tests/Parts.antt =====
-- Runs of the models of parts with registers, and their theorems at concrete inputs.
use embed_bench.Prelude.{
  ℕ, ◌+◌, ◌-◌, ◌*◌, ◌/◌, ◌%◌, ◌≡◌, refl, true, false, some, List, [], ◌∷◌, ◌++◌, ◌^◌, ◌==◌,
  if◌then◌else◌, get_or, replicate, arith,
}
use mathlib.Core.Bool.{false≢true}
use embed_bench.Device.{HostPort}
use embed_bench.Device.Flash
use embed_bench.Device.Flash.Locked
use embed_bench.Device.Rtc
use embed_bench.Device.Rtc.Time.{write-read_time}
use embed_bench.Device.RegisterMap
use embed_bench.Device.RegisterMap.Registers.{fetch, fetch-i2c_write}
use embed_bench.Device.EnvSensor
use embed_bench.Device.EnvSensor.Measuring.{measured, measured-read}
use embed_bench.Device.Encoder
use embed_bench.Device.Encoder.Counter.{Turn, right, left, turned, Reads, write-turns-read}
use embed_bench.Device.Ir
use embed_bench.Device.Ir.Repeats.{Air, Over, code_frame, repeat_frame, hold_until, press-repeats}

-- A port whose environment is the time.
abbrev ticker : HostPort ℕ
ticker = record {
  now_micros = λ p. p;
  line_out = λ line level p. p;
  analog_out = λ line raw p. (true, p);
  request_wake = λ due p. (true, p);
  diagnose = λ text p. (true, p);
  serial_out = λ bytes p. (true, p);
  frame_out = λ bus format frame bits p. (false, p);
  format_id = λ name schema p. (0, p);
  max_frame_bits = λ bus. 0;
}

-- Select the part, try to program a page without enabling it, with the value 6 for its address and its
-- data, and try to erase it.
abbrev flash_uses : List (Flash.Locked.Use)
flash_uses =
    Locked.line 0 0
    ∷ Locked.clock_in 2
    ∷ Locked.clock_in 6
    ∷ Locked.clock_in 6
    ∷ Locked.line 0 1
    ∷ Locked.restart
    ∷ Locked.line 0 0
    ∷ Locked.clock_in 199
    ∷ Locked.line 0 1
    ∷ Locked.pass 9000
    ∷ []

use_all-IsLocked_example :
    Locked.IsLocked (replicate 64 255) (Locked.use_all (some ticker) flash_uses Flash.fresh 0).0
use_all-IsLocked_example =
    Locked.use_all-IsLocked (some ticker) flash_uses Locked.deselected (replicate 64 255)
      Flash.fresh 0 (tt, (omega arith, (tt, (tt, (tt, (tt, (tt, (omega arith, (tt, (tt, tt))))))))))
      (record { chosen = refl; past = λ e. absurd (false≢true e) })
      (record { not_enabled = refl; not_busy = refl; kept = refl })

write-read_time_example :
    Rtc.Time.decoded (
      Rtc.i2c_read
        (some ticker)
        4
        (Rtc.i2c_write (some ticker) (0 ∷ 255 ∷ 255 ∷ 255 ∷ 255 ∷ []) Rtc.fresh 5000000).1
        8500000)
    ≡ (Rtc.seconds_of 255 255 255 255 + (8500000 - 5000000) / 1000000) % 4294967296
write-read_time_example =
    write-read_time ticker 255 255 255 255 Rtc.fresh 5000000 8500000 (omega arith) (omega arith)

fetch-i2c_write_example :
    fetch 2 (RegisterMap.i2c_write (3 ∷ 7 ∷ []) RegisterMap.fresh).1
    ≡ (if 2 == 3 then 7 else get_or RegisterMap.fresh.regs 2 0) ∷ []
fetch-i2c_write_example = fetch-i2c_write 3 2 7 RegisterMap.fresh refl (omega arith) (omega arith)

measured-read_example :
    (EnvSensor.channel_read 0 3
        (EnvSensor.advance_to
          (some ticker)
          8000
          (measured ticker 1 2 3 EnvSensor.fresh 1000)
          8000).0
      ≡ EnvSensor.channel_read 0 3 EnvSensor.fresh)
    × (EnvSensor.channel_read 0 3
          (EnvSensor.advance_to
            (some ticker)
            9000
            (measured ticker 1 2 3 EnvSensor.fresh 1000)
            9000).0
        ≡ (3, 1 ∷ 2 ∷ 3 ∷ []))
measured-read_example =
    measured-read ticker 8000 9000 1 2 3 EnvSensor.fresh 1000 8000 9000 refl (omega arith)
      (omega arith) (omega arith) (omega arith) (omega arith)

-- One step to the right, and four back.
abbrev turns : List Turn
turns = right 1 ∷ left 1 ∷ left 1 ∷ left 2 ∷ []

write-turns-read_example : Reads (2 + 0 * 256) 1 4 (
    Encoder.i2c_read 2
      (turned turns (Encoder.i2c_write (some ticker) (0 ∷ 2 ∷ 0 ∷ []) Encoder.fresh 0).1))
write-turns-read_example =
    write-turns-read (some ticker) 2 0 turns Encoder.fresh 0 (omega arith) (omega arith) (
      omega arith,
      ((omega arith, omega arith), ((omega arith, omega arith), ((omega arith, omega arith), tt))),
    )

knob_runs : Encoder.i2c_read 2 (turned turns Encoder.fresh) ≡ 253 ∷ 255 ∷ []
unfolding Encoder.i2c_read Encoder.channel_write
knob_runs = refl

-- A unit with its formats, and an environment in which nothing was sent yet.
abbrev remote : Ir.Ir
remote = record Ir.fresh { code_format = 2; repeat_format = 3; resolved = true }

abbrev quiet : Air
quiet = record { time = 1000; frames = [] }

press-repeats_example :
    Over
      (replicate 3 (repeat_frame remote) ++ code_frame remote 4 5 ∷ [])
      ((0 + (3 + 1)) % 2 ^ 32)
      (hold_until 9000 4 5 3 remote quiet)
press-repeats_example =
    press-repeats 4 5 3 9000 remote quiet (omega arith)
      (record {
        resolved = refl;
        code = λ e. absurd (omega (arith, e));
        rep = λ e. absurd (omega (arith, e));
      })
      refl (omega arith) (omega arith)
