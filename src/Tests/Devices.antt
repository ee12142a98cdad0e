-- ===== src/Tests/Devices.antt =====
-- Runs of the device models, and their theorems at concrete inputs.
use embed_bench.Prelude.{
  ℕ, ◌*◌, ◌≡◌, refl, true, false, some, List, [], ◌∷◌, ◌++◌, length, replicate, length-replicate,
  splice, arith,
}
use mathlib.Core.Bool.{false≢true}
use embed_bench.Device.{HostPort, ack}
use embed_bench.Device.Chunk
use embed_bench.Device.Chunk.{Chunk}
use embed_bench.Device.Chunk.Delivery.{Ends, deliver, deliver-Ends}
use embed_bench.Device.SdCard
use embed_bench.Device.SdCard.{SdCard, advance_to, block_size}
use embed_bench.Device.SdCard.Invariant.{InBounds}
use embed_bench.Device.SdCard.Bounds.{
  Use, line, clock_in, pass, channel, use_all, use_all-InBounds, fresh-InBounds,
}
use embed_bench.Device.SdCard.Exchange.{
  ready, exchange, write_session, write_answers, read_session, read_answers,
}
use embed_bench.Device.SdCard.Blocks.{write-read}
use embed_bench.Device.Sht30
use embed_bench.Device.Sht30.{Sht30, nothing, crc8, high_us, i2c_write, i2c_read}
use embed_bench.Device.Sht30.Polls.{
  Poll, read_poll, write_poll, after_polls, AllRefused, measure-polls-read,
}
use embed_bench.Device.Modbus.{Modbus, handle_frame}
use embed_bench.Device.Modbus
use embed_bench.Device.Modbus.Replies.{Answers, handle_frame-Answers}
use embed_bench.Device.Tape.{
  Kind, Tape, Step, write, read, serial_in, serial_out, spi, rewound, finished,
}
use embed_bench.Device.Tape
use embed_bench.Device.Tape.Output.{Settled, advance_to-Settled}
use embed_bench.Device.Tape.Playing.{play, play-finished}

-- A port at time 0 that keeps the serial output and nothing else.
abbrev keeper : HostPort (List (List ℕ))
keeper = record {
  now_micros = λ p. 0;
  line_out = λ line level p. p;
  analog_out = λ line raw p. (true, p);
  request_wake = λ due p. (true, p);
  diagnose = λ text p. (true, p);
  serial_out = λ bytes p. (true, p ++ (bytes ∷ []));
  frame_out = λ bus format frame bits p. (false, p);
  format_id = λ name schema p. (0, p);
  max_frame_bits = λ bus. 0;
}

-- A chunking node that knows its format.
abbrev node : Chunk
node = record Chunk.fresh { format = 7; resolved = true }

deliver-Ends_example :
    Ends (1 ∷ 2 ∷ 3 ∷ 4 ∷ 5 ∷ []) 0 0 (deliver 32 0 2000 (1 ∷ 2 ∷ 3 ∷ 4 ∷ 5 ∷ []) node node)
deliver-Ends_example =
    deliver-Ends 32 0 2000 1 (2 ∷ 3 ∷ 4 ∷ 5 ∷ []) node node refl (omega arith) refl refl
      (omega arith) (omega arith) (omega arith)

-- Select the card, reset it, fill a block, and read that block.
abbrev card_uses : List Use
card_uses =
    channel 0 (3 ∷ 9 ∷ [])
    ∷ line 0 0
    ∷ clock_in 64
    ∷ clock_in 0
    ∷ clock_in 0
    ∷ clock_in 0
    ∷ clock_in 0
    ∷ clock_in 149
    ∷ clock_in 255
    ∷ clock_in 81
    ∷ clock_in 0
    ∷ clock_in 0
    ∷ clock_in 0
    ∷ clock_in 3
    ∷ clock_in 1
    ∷ clock_in 255
    ∷ clock_in 255
    ∷ clock_in 255
    ∷ pass 5000
    ∷ []

use_all-InBounds_example :
    (t : SdCard × List (List ℕ)) × (use_all (some keeper) card_uses SdCard.fresh [] ≡ some t)
    × InBounds t.0
use_all-InBounds_example = use_all-InBounds (some keeper) card_uses SdCard.fresh [] fresh-InBounds

write-read_example :
    (c1 : SdCard) × (p1 : List (List ℕ)) × (c2 : SdCard) × (c3 : SdCard) × (exchange
        (some keeper)
        (write_session 3 1 (replicate 512 7) 255 0 0)
        (ready SdCard.fresh)
        []
      ≡ some (write_answers, c1, p1))
    × (advance_to 4000 c1 ≡ some c2)
    × (c2.store ≡ splice (3 * block_size) (replicate 512 7) SdCard.fresh.store)
    × (exchange (some keeper) (read_session 3 1 (replicate 512 255) 255 255 255 255) c2 p1
        ≡ some (read_answers (replicate 512 7), c3, p1))
write-read_example =
    write-read (some keeper) 3 1 1 (replicate 512 7) (replicate 512 255) 255 0 0 255 255 255 255
      4000 (ready SdCard.fresh) []
      (record {
        selected = refl;
        waiting = refl;
        initialised = refl;
        no_command = refl;
        whole = length-replicate {A = ℕ} 4096 0;
      })
      (omega arith) (omega arith) (omega arith) (length-replicate {A = ℕ} 512 7)
      (length-replicate {A = ℕ} 512 255) (omega arith)

-- A sensor with one sample.
abbrev sensor : Sht30
sensor = record {
  alert = false;
  heater = false;
  reset_seen = false;
  bad_command = false;
  pending = nothing;
  stretch = false;
  ready_at_us = 0;
  samples = (0x66 ∷ 0x66 ∷ 0x80 ∷ 0 ∷ []) ∷ [];
  next_sample = 0;
  result = 0 ∷ 0 ∷ 0 ∷ 0 ∷ [];
  held = 0 ∷ 0 ∷ 0 ∷ 0 ∷ [];
  holding = false;
  after_reset = false;
  stretch_limit_us = 0;
  measurements = 0;
  refused = 0;
  stretched = 0;
  gave_up = 0;
}

abbrev asks : List (Poll (some keeper))
asks = read_poll 6 [] ∷ write_poll (0x24 ∷ 0 ∷ []) [] ∷ read_poll 6 [] ∷ []

measure-polls-read_example :
    ((i2c_write (some keeper) (0x24 ∷ 0 ∷ []) sensor []).0 ≡ ack)
    × AllRefused (some keeper) asks (i2c_write (some keeper) (0x24 ∷ 0 ∷ []) sensor []).1
    × ((i2c_read 12400 6
          (after_polls (some keeper) asks (i2c_write (some keeper) (0x24 ∷ 0 ∷ []) sensor []).1)).0
        ≡ 0x66 ∷ 0x66 ∷ crc8 (0x66 ∷ 0x66 ∷ []) ∷ 0x80 ∷ 0 ∷ crc8 (0x80 ∷ 0 ∷ []) ∷ [])
    × ((i2c_read 12500 6
          (i2c_read 12400 6 (
            after_polls
              (some keeper)
              asks
              (i2c_write (some keeper) (0x24 ∷ 0 ∷ []) sensor []).1)).1).0
        ≡ [])
measure-polls-read_example =
    measure-polls-read (some keeper) asks sensor [] 0x66 0x66 0x80 0 12400 12500 6 (omega arith)
      refl refl (omega arith) refl (omega arith, (omega arith, (omega arith, tt))) (omega arith)
      (omega arith)

crc8_runs : crc8 (0xBE ∷ 0xEF ∷ []) ≡ 0x92
unfolding crc8 Sht30.crc_from Sht30.crc_bits
crc8_runs = refl

-- A request for registers 1 and 2.
abbrev asked_frame : List ℕ
asked_frame = 0x11 ∷ 3 ∷ 0 ∷ 1 ∷ 0 ∷ 2 ∷ 151 ∷ 91 ∷ []

abbrev slave : Modbus
slave = record Modbus.fresh { frame = asked_frame; pending = true }

crc_runs : Modbus.crc_ok asked_frame ≡ true
unfolding Modbus.crc_ok Modbus.crc16 Modbus.crc_from Modbus.crc_bits
crc_runs = refl

handle_frame-Answers_example :
    (bytes : List ℕ) × ((handle_frame (some keeper) slave []).1 ≡ (keeper.serial_out bytes []).1)
    × Answers 1 2 1 slave.registers bytes
handle_frame-Answers_example =
    handle_frame-Answers keeper slave [] 1 refl crc_runs refl refl (omega arith) (omega arith)

abbrev step_of : Kind → ℕ → List ℕ → Step
step_of kind len bytes = record {
  kind = kind;
  status = 0;
  stop = true;
  len = len;
  request = 0;
  bytes = bytes;
  delay_us = 300;
}

-- A write, a read, a line of serial input, an answer to it, and two bytes over SPI.
abbrev tape : List Step
tape =
    step_of write 2 (0x2C ∷ 6 ∷ [])
    ∷ step_of read 3 (1 ∷ 2 ∷ 3 ∷ [])
    ∷ step_of serial_in 2 (65 ∷ 84 ∷ [])
    ∷ step_of serial_out 2 (79 ∷ 75 ∷ [])
    ∷ step_of spi 2 (5 ∷ 6 ∷ 7 ∷ 8 ∷ [])
    ∷ []

-- A port whose environment is the time.
abbrev timed : HostPort ℕ
timed = record {
  now_micros = λ p. p;
  line_out = λ line level p. p;
  analog_out = λ line raw p. (true, p);
  request_wake = λ due p. (true, p);
  diagnose = λ text p. (true, p);
  serial_out = λ bytes p. (true, p);
  frame_out = λ bus format frame bits p. (false, p);
  format_id = λ name schema p. (0, p);
  max_frame_bits = λ bus. 0;
}

-- Time passes up to the time given.
abbrev pass_to : ℕ → ℕ → ℕ
pass_to later p = later

play-finished_example :
    (finished (play timed pass_to (length tape) (rewound tape) 40).0 ≡ true)
    × ((play timed pass_to (length tape) (rewound tape) 40).0.mismatches ≡ 0)
play-finished_example = play-finished timed pass_to tape 40 (
  record {
    played = refl;
    there = omega arith;
    replies = λ e. absurd (false≢true e);
    some_byte = λ e. omega arith;
  },
  (
    record {
      played = refl;
      there = omega arith;
      replies = λ e. absurd (false≢true e);
      some_byte = λ e. omega arith;
    },
    (
      record {
        played = refl;
        there = omega arith;
        replies = λ e. absurd (false≢true e);
        some_byte = λ e. omega arith;
      },
      (
        record {
          played = refl;
          there = omega arith;
          replies = λ e. absurd (false≢true e);
          some_byte = λ e. omega arith;
        },
        (
          record {
            played = refl;
            there = omega arith;
            replies = λ e. omega arith;
            some_byte = λ e. omega arith;
          },
          tt,
        ),
      ),
    ),
  ),
)

abbrev talking : Tape
talking = rewound (step_of serial_out 1 (79 ∷ []) ∷ step_of serial_out 1 (75 ∷ []) ∷ [])

advance_to-Settled_example : Settled keeper 900 (Tape.advance_to (some keeper) 900 talking []).0
advance_to-Settled_example = advance_to-Settled keeper 900 talking [] refl refl
