-- ===== src/Device/Rtc.antt =====
-- The real-time clock of devices/src/unit_rtc_model.cpp.
pub mod Time
use embed_bench.Prelude.{
  ℕ, zero, suc, ◌+◌, ◌-◌, ◌*◌, ◌/◌, ◌%◌, ◌^◌, Bool, true, false, ◌&&◌, ◌||◌, Option, none, some,
  List, [], ◌∷◌, ◌++◌, ltb, leb, ◌==◌, not, if◌then◌else◌, length, get_or,
}
use embed_bench.Label.{codes, dec}
use embed_bench.Trace.{word32}
use embed_bench.Device.Port.{HostPort, clock, say, drive, printed, ack, address_nack, data_nack}

pub record Rtc : Type 0 where
  pub reg : ℕ
  pub based : Bool
  pub base_sec : ℕ
  pub base_us : ℕ
  pub alarm_sec : ℕ
  pub alarm_set : Bool
  pub fired : Bool
  pub rejected : ℕ

abbrev pub us_per_second : ℕ
us_per_second = 1000000

abbrev pub reg_time : ℕ
reg_time = 0

abbrev pub reg_alarm : ℕ
reg_alarm = 16

abbrev pub reg_status : ℕ
reg_status = 32

-- reset, and the initial values.
abbrev pub fresh : Rtc
fresh = record {
  reg = 0;
  based = false;
  base_sec = 0;
  base_us = 0;
  alarm_sec = 0;
  alarm_set = false;
  fired = false;
  rejected = 0;
}

-- Four bytes, the highest first.
abbrev pub seconds_of : (a b c d : ℕ) → ℕ
seconds_of a b c d = a * 16777216 + b * 65536 + c * 256 + d

abbrev pub bytes_of : ℕ → List ℕ
bytes_of n = n / 16777216 % 256 ∷ n / 65536 % 256 ∷ n / 256 % 256 ∷ n % 256 ∷ []

abbrev pub set_alarm : ℕ → Rtc → Rtc
set_alarm seconds c = record c { alarm_sec = seconds; alarm_set = true; fired = false }

module _ {ℓ} {P : Type ℓ} where
  -- Both subtractions wrap as the source's unsigned types do.
  unfoldable pub now_seconds : Option (HostPort P) → Rtc → P → ℕ
  now_seconds none c p = c.base_sec
  now_seconds (some h) c p =
      if not c.based
      then c.base_sec
      else (c.base_sec + (h.now_micros p + 2 ^ 64 - c.base_us) % 2 ^ 64 / us_per_second) % word32

  unfoldable pub arm_alarm : Option (HostPort P) → Rtc → P → P
  arm_alarm none c p = p
  arm_alarm (some h) c p =
      if not c.alarm_set || not c.based
      then p
      else (h.request_wake
          ((c.base_us + (c.alarm_sec + word32 - c.base_sec) % word32 * us_per_second) % 2 ^ 64) p).1

  abbrev pub set_time : Option (HostPort P) → ℕ → Rtc → P → Rtc
  set_time port seconds c p = record c { base_sec = seconds; base_us = clock port p; based = true }

  -- i2cWrite with an alarm.
  unfoldable pub write_alarm : Option (HostPort P) → ℕ → Rtc → P → ℕ × Rtc × P
  write_alarm port when c p =
      if c.based && leb when (now_seconds port c p)
      then (
        data_nack,
        record c { rejected = (c.rejected + 1) % word32 },
        say port (codes "alarm time already past") p,
      )
      else (ack, set_alarm when c, arm_alarm port (set_alarm when c) p)

  -- i2cWrite with a register number alone, or with bytes that are too few.
  unfoldable pub write_pointer : Option (HostPort P) → Rtc → P → ℕ × Rtc × P
  write_pointer port c p =
      if c.reg == reg_time || (c.reg == reg_alarm) || (c.reg == reg_status)
      then (ack, c, p)
      else (data_nack, c, say port (codes "write to unmapped register") p)

  unfoldable pub i2c_write : Option (HostPort P) → List ℕ → Rtc → P → ℕ × Rtc × P
  i2c_write port [] c p = (address_nack, c, p)
  i2c_write port (reg ∷ x ∷ y ∷ z ∷ w ∷ rest) c p =
      let c' = record c { reg = reg } in
      let alarm = write_alarm port (seconds_of x y z w) c' p in
      let t = set_time port (seconds_of x y z w) c' p in
      if reg == reg_time
      then (ack, t, arm_alarm port t p)
      else if reg == reg_alarm
      then alarm
      else write_pointer port c' p
  i2c_write port (reg ∷ rest) c p = write_pointer port (record c { reg = reg }) p

  -- The bytes that came, their count being what the source returns.
  unfoldable pub i2c_read : Option (HostPort P) → ℕ → Rtc → P → List ℕ
  i2c_read port len c p =
      if c.reg == reg_time
      then (if ltb len 4 then [] else bytes_of (now_seconds port c p))
      else if c.reg == reg_status
      then (if ltb len 1 then [] else (if c.fired then 1 else 0) ∷ [])
      else []

  unfoldable pub advance_to : Option (HostPort P) → Rtc → P → Rtc × P
  advance_to port c p =
      if not c.alarm_set || c.fired || not c.based
      then (c, p)
      else if ltb (now_seconds port c p) c.alarm_sec
      then (c, p)
      else (record c { fired = true; alarm_set = false }, drive port 0 1 p)

  unfoldable pub dump : ℕ → Option (HostPort P) → Rtc → P → ℕ × List ℕ
  dump cap port c p = printed cap (
      codes "rtc sec="
      ++ dec (now_seconds port c p)
      ++ codes " alarm="
      ++ dec c.alarm_sec
      ++ codes " fired="
      ++ (if c.fired then codes "1" else codes "0")
      ++ codes " rejected="
      ++ dec c.rejected)
