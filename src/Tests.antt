-- ===== src/Tests.antt =====
-- Runs of the model, and the theorems at concrete inputs.
mod Devices
mod Parts
use embed_bench.Prelude.{
  ℕ, ◌+◌, ◌*◌, ◌≤◌, ◌<◌, ◌≡◌, ◌≢◌, ◌↔◌, ◌⊎◌, refl, ap, Bool, true, false, ◌&&◌, none, some, List,
  [], ◌∷◌, ◌++◌, ◌==◌, if◌then◌else◌, arith, length, str_eq, map,
}
use embed_bench.Label.{crc8, crc8_steps, bytes_label}
use embed_bench.Label.Detect.{crc8-single, crc8_steps-crc8}
use embed_bench.Label.Printable.{IsPrintable, bytes_label-IsPrintable}
use embed_bench.Trace.{app, dev, empty_trace, first_cycle, best_cycle, log}
use embed_bench.Trace.Search.{Found, first_cycle-Found, best_cycle-Found}
use embed_bench.Trace.Accounting.{IsAccounted, log-IsAccounted, empty_trace-IsAccounted}
use embed_bench.Wake.{no_wakes, next_wake_after, retire_wakes_up_to, request}
use embed_bench.Wake.Table.{Has, Answers, next_wake_after_lem, Has-retire, request-Answers}
use embed_bench.Frame.{frame_bytes}
use embed_bench.Frame.Padding.{frame_bytes_bounds}
use embed_bench.Host.State.{
  initial, Deferred, isr, frame, FormatSlot, WireSlot, free_wire, free_format,
}
use embed_bench.Host.Monad.{Sys, Outside, pure, when, ◌>>=◌}
use embed_bench.Host.Formats.{register, known, conflict}
use embed_bench.Host.Formats.Registry.{register_all, register_again}
use embed_bench.Host.Deferral.{deliver, deliver_rounds}
use embed_bench.Host.Deferral.Order.{Quiet, deliver_each, deliver_rounds-in_order}
use embed_bench.Host.Clock.{on_wait}
use embed_bench.Host.Clock.Exact.{Arrived, on_wait-Arrived}
use embed_bench.Host.Clock.Exact.Ticks.{Patient}
use embed_bench.Host.Clock.Exact.Stops.{Ready}
use embed_bench.Host.Formats.{frame_refusal}
use embed_bench.Host.Formats.Acceptance.{Acceptable, frame_refusal_iff}
use embed_bench.Host.Wire.Answers.{Fits, on_wire_read_on-Fits}
use embed_bench.Host.Wire.{on_wire_read_on, find_wire_device, bind_slot}
use embed_bench.Host.Wire.Lookup.{find_wire_device-bind_slot}
use embed_bench.Host.Port.{Mapping, find_pin, map_table, unmapped}
use embed_bench.Host.Port.Lookup.{find_pin-map_table}
use embed_bench.Host.Session.{
  Call, wait, wake, pin_write, inject_pin, bind_wire, wire_write, wire_read, say, dump, Step,
  calling, interrupt, attach_interrupt, perform_steps, run_window, scripted,
}
use embed_bench.Host.Contract.{Keeps}
use embed_bench.Host.Contract.Session.{perform_steps-Keeps}
use embed_bench.Host.Contract.Whole.{Closed, run_window-Closed, scripted-Tame, initial-Sound}

-- A sketch: it binds a device, talks to it, drives a pin and waits.
abbrev sketch : List Call
sketch =
    bind_wire 0 0x48 7
    ∷ wire_write 0 0x48 (1 ∷ 2 ∷ []) false
    ∷ wire_read 0 0x48 2 true
    ∷ pin_write 3 1
    ∷ inject_pin dev 4 1
    ∷ wake 700
    ∷ wait 1500
    ∷ dump (111 ∷ 107 ∷ [])
    ∷ []

-- The device 7 leaves a note, raises an edge and writes to another device, unbound, from inside its call.
abbrev device_script : ℕ → List Call
device_script fn =
    if fn == 7 then say (104 ∷ []) ∷ inject_pin dev 5 1 ∷ wire_write 0 0x20 [] true ∷ [] else []

abbrev world : Outside (Unit {0})
world = scripted 4000 device_script 1

abbrev quiet_world : Outside (Unit {0})
quiet_world = scripted 4000 device_script 0

abbrev start : Sys (Unit {0})
start = record { host = initial; world = tt; stuck = false }

-- The sketch, with an interrupt on its way whose handler talks to the device.
abbrev session : List Step
session =
    calling (attach_interrupt 2 3)
    ∷ calling (bind_wire 0 0x48 7)
    ∷ interrupt 2 (wire_write 0 0x48 (9 ∷ []) true ∷ [])
    ∷ map calling sketch

perform_steps-Keeps_example : Keeps 4 (perform_steps world session)
perform_steps-Keeps_example = perform_steps-Keeps world (scripted-Tame 4000 device_script 1) session

run_window-Closed_example : Closed (run_window world 1000 session start).1.host
run_window-Closed_example =
    run_window-Closed world (scripted-Tame 4000 device_script 1) 1000 session start (omega arith)
      initial-Sound

-- An application whose tick handler notes the numbers of the ticks.
abbrev note_tick : ℕ → List ℕ → List ℕ
note_tick tick w = w ++ (tick ∷ [])

abbrev noting : Outside (List ℕ)
noting = record (scripted 4000 device_script 0) {
  tick_handler = λ h tick s. (tt, record s { world = note_tick tick s.world });
}

noting-Patient : Patient noting note_tick
noting-Patient = record {
  clock = λ h t s. refl;
  bindings = λ h t s. refl;
  stuck = λ h t s. refl;
  world = λ h t s. refl;
}

abbrev ticking : Sys (List ℕ)
ticking = record {
  host = record initial {
    bindings = record initial.bindings { tick = record initial.bindings.tick { fn = 3 } };
  };
  world = [];
  stuck = false;
}

fresh_none : (x : ℕ) → x ≢ 0 → Has x no_wakes → 0 < x
fresh_none x nz h = omega (arith, nz)

initial-Ready : Ready initial.clock
initial-Ready = record {
  positive = omega arith;
  ahead = omega arith;
  none_held = refl;
  fresh = fresh_none;
}

on_wait-Arrived_example : Arrived note_tick 1500 ticking (on_wait noting 1500 ticking).1
unfolding scripted
on_wait-Arrived_example =
    on_wait-Arrived noting noting-Patient 1500 ticking (omega arith) (omega arith) (omega arith)
      refl refl (omega arith) initial-Ready (omega arith)

log-IsAccounted_example :
    IsAccounted
      (log
        (record empty_trace { running = true })
        (record { now = 40; ctx = 0 })
        app
        0
        (111 ∷ 107 ∷ [])).0
log-IsAccounted_example =
    log-IsAccounted (record empty_trace { running = true }) (record { now = 40; ctx = 0 }) app 0
      (111 ∷ 107 ∷ []) refl empty_trace-IsAccounted

-- A poll of two records, three times over.
abbrev polls : List (List ℕ)
polls = (1 ∷ []) ∷ (2 ∷ []) ∷ (1 ∷ []) ∷ (2 ∷ []) ∷ (1 ∷ []) ∷ (2 ∷ []) ∷ []

first_cycle-Found_example : Found polls (first_cycle polls)
first_cycle-Found_example = first_cycle-Found polls

best_cycle-Found_example : Found polls (best_cycle polls)
best_cycle-Found_example = best_cycle-Found polls

when_nothing : (b : Bool) (s : Sys (Unit {0})) → (when b (pure tt) s).1 ≡ s
unfolding when pure
when_nothing true s = refl
when_nothing false s = refl

-- Two effects held for receivers that raise nothing.
abbrev held : Sys (Unit {0})
held = record start {
  host = record initial {
    reentry = record initial.reentry { deferred = isr 3 ∷ frame 0 1 (0xA5 ∷ []) 8 ∷ [] };
  };
}

quiet_world-Quiet : Quiet quiet_world
unfolding deliver scripted ◌>>=◌
quiet_world-Quiet = record { depth = depth; queue = queue }
  where
    depth :
        (e : Deferred) (s : Sys (Unit {0}))
        → (deliver quiet_world e s).1.host.reentry.device_depth ≡ s.host.reentry.device_depth
    depth (isr pin) s = refl
    depth (frame bus format bytes bits) s = ap (λ t. t.host.reentry.device_depth) (when_nothing _ s)

    queue :
        (e : Deferred) (s : Sys (Unit {0}))
        → (deliver quiet_world e s).1.host.reentry.deferred ≡ s.host.reentry.deferred
    queue (isr pin) s = refl
    queue (frame bus format bytes bits) s = ap (λ t. t.host.reentry.deferred) (when_nothing _ s)

deliver_rounds-in_order_example :
    (deliver_rounds quiet_world 4 held ≡ deliver_each quiet_world held.host.reentry.deferred held)
    × ((deliver_rounds quiet_world 4 held).1.host.reentry.deferred ≡ [])
deliver_rounds-in_order_example =
    deliver_rounds-in_order quiet_world quiet_world-Quiet 4 held refl (omega arith)

-- Two wakes outstanding, two slots free.
abbrev wakes : List ℕ
wakes = 700 ∷ 0 ∷ 300 ∷ 0 ∷ []

next_wake_after_lem_example :
    ((next_wake_after wakes 400 ≡ 0) × ((x : ℕ) → Has x wakes → x ≤ 400))
    ⊎ (Has (next_wake_after wakes 400) wakes
        × (400 < next_wake_after wakes 400)
        × ((x : ℕ) → Has x wakes → 400 < x → next_wake_after wakes 400 ≤ x))
next_wake_after_lem_example = next_wake_after_lem wakes 400

Has-retire_example : Has 700 (retire_wakes_up_to wakes 300) ↔ (Has 700 wakes × (300 < 700))
Has-retire_example = Has-retire wakes 300 700 (λ e. absurd (omega arith))

request-Answers_example : Answers wakes 500 (request wakes 200 500)
request-Answers_example = request-Answers wakes 200 500 (omega arith)

crc8-single_example : crc8 (0xA5 ∷ 0x01 ∷ 0x02 ∷ []) ≢ crc8 (0xA5 ∷ 0x03 ∷ 0x02 ∷ [])
crc8-single_example =
    crc8-single (0xA5 ∷ []) (0x02 ∷ []) 0x01 0x03 (omega arith) (omega arith) (omega arith, tt)
      (omega arith, tt) (λ e. absurd (omega arith))

crc8_steps-crc8_example : crc8_steps (crc8 (1 ∷ 2 ∷ [])) (3 ∷ []) ≡ crc8 (1 ∷ 2 ∷ 3 ∷ [])
crc8_steps-crc8_example =
    crc8_steps-crc8 (1 ∷ 2 ∷ []) (3 ∷ []) (omega arith, (omega arith, tt)) (omega arith, tt)

-- A carriage return, a backslash, a NUL and a byte above ASCII.
bytes_label-IsPrintable_example :
    IsPrintable (bytes_label (104 ∷ 13 ∷ 92 ∷ 0 ∷ 200 ∷ []) 24)
    × (length (bytes_label (104 ∷ 13 ∷ 92 ∷ 0 ∷ 200 ∷ []) 24) < 24)
bytes_label-IsPrintable_example =
    bytes_label-IsPrintable (104 ∷ 13 ∷ 92 ∷ 0 ∷ 200 ∷ []) 24 (omega arith)

frame_bytes_bounds_example :
    (13 ≤ frame_bytes 13 * 8) × (frame_bytes 13 * 8 < 13 + 8) × (frame_bytes 13 ≤ 13)
frame_bytes_bounds_example = frame_bytes_bounds 13

abbrev registry : List FormatSlot
registry = record { used = true; name = 117 ∷ []; schema = 9 } ∷ free_format ∷ []

frame_refusal_iff_example :
    (frame_refusal registry 0 1 (some (0xF8 ∷ [])) 5 ≡ none
      → Acceptable registry 1 (some (0xF8 ∷ [])) 5)
    × (Acceptable registry 1 (some (0xF8 ∷ [])) 5
        → frame_refusal registry 0 1 (some (0xF8 ∷ [])) 5 ≡ none)
frame_refusal_iff_example = frame_refusal_iff registry 0 1 (some (0xF8 ∷ [])) 5

abbrev devices : List WireSlot
devices = record { used = true; bus = 0; address = 0x48; ops = 7 } ∷ free_wire ∷ []

abbrev more_devices : List WireSlot
more_devices =
    record { used = true; bus = 0; address = 0x48; ops = 7 }
    ∷ record { used = true; bus = 1; address = 0x48; ops = 9 }
    ∷ []

find_wire_device-bind_slot_example :
    find_wire_device more_devices 1 0x48
    ≡ (if 1 == 1 && 0x48 == 0x48 then some 9 else find_wire_device devices 1 0x48)
unfolding bind_slot find_wire_device
find_wire_device-bind_slot_example =
    find_wire_device-bind_slot devices 1 0x48 9 more_devices refl refl 1 0x48

abbrev table : List Mapping
table = record { line = 2; pin = 11; used = true } ∷ unmapped ∷ []

abbrev wider_table : List Mapping
wider_table =
    record { line = 2; pin = 11; used = true } ∷ record { line = 3; pin = 12; used = true } ∷ []

find_pin-map_table_example : find_pin wider_table 2 ≡ (if 3 == 2 then some 12 else find_pin table 2)
unfolding map_table find_pin
find_pin-map_table_example = find_pin-map_table table 3 12 wider_table refl 2

abbrev wider_registry : List FormatSlot
wider_registry =
    record { used = true; name = 117 ∷ []; schema = 9 }
    ∷ record { used = true; name = 118 ∷ []; schema = 4 }
    ∷ []

-- A new format, for which there is no slot, and the two that are known.
abbrev late_formats : List (List ℕ × ℕ)
late_formats = (119 ∷ [], 5) ∷ (118 ∷ [], 4) ∷ (117 ∷ [], 6) ∷ []

register_again_example :
    (register (register_all late_formats wider_registry) (118 ∷ []) 4 ≡ known 2)
    × ((other : ℕ)
        → other ≢ 4
        → register (register_all late_formats wider_registry) (118 ∷ []) other ≡ conflict)
unfolding register str_eq
register_again_example = register_again registry (118 ∷ []) 4 2 wider_registry late_formats refl

on_wire_read_on-Fits_example : Fits 2 (on_wire_read_on world 0 0x48 2 true start).0
on_wire_read_on-Fits_example = on_wire_read_on-Fits world 0 0x48 2 true start
