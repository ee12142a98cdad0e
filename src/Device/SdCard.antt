-- ===== src/Device/SdCard.antt =====
-- The SD card of devices/src/unit_sdcard_model.cpp: a block device that answers commands of six
-- bytes over SPI.
pub mod Invariant
pub mod Transfers
pub mod Bounds
pub mod Exchange
pub mod Blocks
use embed_bench.Prelude.{
  ℕ, zero, suc, ◌+◌, ◌-◌, ◌*◌, ◌%◌, Bool, true, false, ◌&&◌, ◌||◌, Option, none, some, List, [],
  ◌∷◌, ◌++◌, ltb, leb, ◌==◌, not, if◌then◌else◌, length, get_or, get_elem?, splice, replicate, ◌^◌,
}
use embed_bench.Label.{codes, dec, hex_byte}
use embed_bench.Trace.{word32}
use embed_bench.Device.Port.{HostPort, clock, say, wake, printed, channel_unsupported}

pub data Phase : Type 0 where
  idle_phase command_phase reply_phase read_phase write_wait write_phase busy_phase : Phase

-- `command` has the commandLen_ bytes of the command so far, `staging` the bytes that a write has
-- brought so far, and `store` the blocks one after the other.
pub record SdCard : Type 0 where
  pub phase : Phase
  pub after : Phase
  pub selected : Bool
  pub initialised : Bool
  pub command : List ℕ
  pub block : ℕ
  pub offset : ℕ
  pub pending : ℕ
  pub done_us : ℕ
  pub store : List ℕ
  pub staging : List ℕ
  pub reads : ℕ
  pub writes : ℕ
  pub rejected : ℕ

abbrev pub block_size : ℕ
block_size = 512

abbrev pub block_count : ℕ
block_count = 8

abbrev pub store_size : ℕ
store_size = 4096

abbrev pub write_us : ℕ
write_us = 4000

abbrev pub r1_ok : ℕ
r1_ok = 0

abbrev pub r1_idle : ℕ
r1_idle = 1

abbrev pub r1_illegal_command : ℕ
r1_illegal_command = 4

abbrev pub token_start : ℕ
token_start = 254

abbrev pub data_accepted : ℕ
data_accepted = 5

-- reset; the blocks stay as they are.
unfoldable pub reset : SdCard → SdCard
reset c = record c {
  phase = idle_phase;
  after = command_phase;
  selected = false;
  initialised = false;
  command = [];
  block = 0;
  offset = 0;
  pending = 255;
  done_us = 0;
  staging = [];
  reads = 0;
  writes = 0;
  rejected = 0;
}

-- The initial values.
abbrev pub fresh : SdCard
fresh = record {
  phase = idle_phase;
  after = command_phase;
  selected = false;
  initialised = false;
  command = [];
  block = 0;
  offset = 0;
  pending = 0;
  done_us = 0;
  store = replicate store_size 0;
  staging = [];
  reads = 0;
  writes = 0;
  rejected = 0;
}

unfoldable pub load_blocks : ℕ → Option (List ℕ) → SdCard → Bool × SdCard
load_blocks first_block none c = (false, c)
load_blocks first_block (some bytes) c =
    if ltb store_size (first_block * block_size + length bytes)
    then (false, c)
    else (true, record c { store = splice (first_block * block_size) bytes c.store })

-- ImageRun and Image of devices/src/sd_images.h: an offset and the bytes there.
pub record Image : Type 0 where
  pub blocks : ℕ
  pub runs : List (ℕ × List ℕ)

-- The loop of loadImage; a run that does not fit ends it, with the runs before it in place.
unfoldable pub load_runs : List (ℕ × List ℕ) → SdCard → Bool × SdCard
load_runs [] c = (true, c)
load_runs (run ∷ runs) c =
    let rest = load_runs runs (record c { store = splice run.0 run.1 c.store }) in
    if ltb store_size (run.0 + length run.1) then (false, c) else rest

unfoldable pub load_image : Image → SdCard → Bool × SdCard
load_image image c =
    if ltb block_count image.blocks
    then (false, c)
    else load_runs image.runs (record c { store = replicate store_size 0 })

abbrev pub is_busy : Phase → Bool
is_busy busy_phase = true
is_busy _ = false

-- lineIn, when the select line changes.
abbrev pub select : Bool → SdCard → SdCard
select now c = record c {
  selected = now;
  phase = if is_busy c.phase then c.phase else if now then command_phase else idle_phase;
  command = if not now then [] else if is_busy c.phase then c.command else [];
}

unfoldable pub line_in : (line level : ℕ) → SdCard → SdCard
line_in line level c =
    if not (line == 0)
    then c
    else if level == 0
    then (if c.selected then c else select true c)
    else (if c.selected then select false c else c)

-- The answer of every command: what comes back, and what happens then.
abbrev pub answer : (reply : ℕ) → (next : Phase) → SdCard → SdCard
answer reply next c = record c { pending = reply; after = next; phase = reply_phase }

abbrev pub reject : SdCard → SdCard
reject c =
    answer r1_illegal_command command_phase (record c { rejected = (c.rejected + 1) % word32 })

-- A command that the card takes: CMD17 reads a block, CMD24 writes one.
abbrev pub transfer_block : ℕ → SdCard → SdCard
transfer_block op c =
    answer r1_ok (if op == 81 then read_phase else write_wait) (record c { offset = 0 })

-- `command` as the source reads it: the operation, and the block in the four bytes after it.
abbrev pub argument : List ℕ → ℕ
argument bytes =
    get_or bytes 1 0 * 16777216
    + get_or bytes 2 0 * 65536
    + get_or bytes 3 0 * 256
    + get_or bytes 4 0

module _ {ℓ} {P : Type ℓ} where
  unfoldable pub begin_block : Option (HostPort P) → ℕ → SdCard → P → SdCard × P
  begin_block port op c p =
      if not c.initialised
      then (reject c, say port (codes "command before CMD0") p)
      else if leb block_count c.block
      then (reject c, say port (codes "block out of range") p)
      else (transfer_block op c, p)

  unfoldable pub run_command : Option (HostPort P) → ℕ → SdCard → P → SdCard × P
  run_command port op c p =
      if op == 64
      then (answer r1_idle command_phase (record c { initialised = true }), p)
      else if op == 72
      then (answer (if c.initialised then r1_ok else r1_illegal_command) command_phase c, p)
      else if op == 81 || (op == 88)
      then begin_block port op c p
      else (reject c, say port (codes "unsupported command") p)

  unfoldable pub begin_command : Option (HostPort P) → SdCard → P → SdCard × P
  begin_command port c p =
      run_command port (get_or c.command 0 0)
        (record c { block = argument c.command; command = [] }) p

  -- The six bytes of a command, one after the other.
  unfoldable pub command_byte : Option (HostPort P) → ℕ → SdCard → P → ℕ × SdCard × P
  command_byte port mosi c p =
      let c' = record c { command = c.command ++ mosi ∷ [] } in
      let begun = begin_command port c' p in
      if mosi == 255
      then (255, c, p)
      else if length c'.command == 6
      then (255, begun.0, begun.1)
      else (255, c', p)

  -- A byte of a block on its way out: a token, the block and two more bytes. None stands for an
  -- index beyond the array.
  unfoldable pub read_byte : SdCard → P → Option (ℕ × SdCard × P)
  read_byte c p =
      let value = get_elem? c.store (c.block * block_size + (c.offset - 1)) in
      if c.offset == 0
      then some (token_start, record c { offset = 1 }, p)
      else if leb c.offset block_size
      then elim value [ none ↦ none | some v ↦ some (v, record c { offset = c.offset + 1 }, p) ]
      else if leb (block_size + 3) (c.offset + 1)
      then some (
        255,
        record c {
          offset = c.offset + 1;
          reads = (c.reads + 1) % word32;
          phase = command_phase;
          pending = 255;
        },
        p,
      )
      else some (255, record c { offset = c.offset + 1 }, p)

  -- A byte of a block on its way in; after two more the card is busy.
  unfoldable pub write_byte : Option (HostPort P) → ℕ → SdCard → P → ℕ × SdCard × P
  write_byte port mosi c p =
      let done = (clock port p + write_us) % 2 ^ 64 in
      if ltb c.offset block_size
      then (255, record c { staging = c.staging ++ mosi ∷ []; offset = c.offset + 1 }, p)
      else if ltb (c.offset + 1) (block_size + 2)
      then (255, record c { offset = c.offset + 1 }, p)
      else (
        data_accepted,
        record c { offset = c.offset + 1; phase = busy_phase; done_us = done },
        wake port done p,
      )

  -- spiTransfer, while the card is selected.
  unfoldable pub in_phase : Phase → Option (HostPort P) → ℕ → SdCard → P → Option (ℕ × SdCard × P)
  in_phase idle_phase port mosi c p = some (255, c, p)
  in_phase command_phase port mosi c p = some (command_byte port mosi c p)
  in_phase reply_phase port mosi c p =
      some (c.pending, record c { pending = 255; offset = 0; phase = c.after }, p)
  in_phase read_phase port mosi c p = read_byte c p
  in_phase write_wait port mosi c p =
      if mosi == token_start
      then some (255, record c { phase = write_phase; offset = 0; staging = [] }, p)
      else some (255, c, p)
  in_phase write_phase port mosi c p = some (write_byte port mosi c p)
  in_phase busy_phase port mosi c p = some (0, c, p)

  unfoldable pub spi_transfer : Option (HostPort P) → ℕ → SdCard → P → Option (ℕ × SdCard × P)
  spi_transfer port mosi c p =
      if not c.selected then some (255, c, p) else in_phase c.phase port mosi c p

abbrev pub commit : SdCard → SdCard
commit c = record c {
  store = splice (c.block * block_size) c.staging c.store;
  writes = (c.writes + 1) % word32;
  phase = if c.selected then command_phase else idle_phase;
  pending = 255;
}

-- The block that a write brought goes to the store. None stands for a block beyond the array.
unfoldable pub advance_to : ℕ → SdCard → Option SdCard
advance_to now c =
    if not (is_busy c.phase) || ltb now c.done_us
    then some c
    else if leb block_count c.block
    then none
    else some (commit c)

-- `n` bytes that count up from `fill`.
abbrev pub pattern_from : ℕ → ℕ → List ℕ
pattern_from zero fill = []
pattern_from (suc n) fill = fill % 256 ∷ pattern_from n (fill + 1)

unfoldable pub channel_write : ℕ → List ℕ → SdCard → Bool × SdCard
channel_write channel [] c = (false, c)
channel_write channel (block ∷ []) c = (false, c)
channel_write channel (block ∷ fill ∷ rest) c =
    if not (channel == 0) || leb block_count block then (false, c) else (
      true,
      record c {
        store = splice (block * block_size) (pattern_from block_size fill) c.store;
        block = block;
      },
    )

-- What channelRead returns and writes: the first bytes of the block. None stands for a block beyond
-- the array.
unfoldable pub channel_read : ℕ → ℕ → SdCard → Option (ℕ × List ℕ)
channel_read channel cap c =
    let at = λ (i : ℕ). get_or c.store (c.block * block_size + i) 0 in
    if not (channel == 1)
    then some (channel_unsupported, [])
    else if ltb cap 4
    then some (4, [])
    else if leb block_count c.block
    then none
    else some (4, at 0 ∷ at 1 ∷ at 2 ∷ at 3 ∷ [])

unfoldable pub dump : ℕ → SdCard → Option (ℕ × List ℕ)
dump cap c =
    let at = λ (i : ℕ). get_or c.store (c.block * block_size + i) 0 in
    if leb block_count c.block
    then none
    else some (
        printed cap (
          codes "sd init="
          ++ (if c.initialised then codes "1" else codes "0")
          ++ codes " blk="
          ++ dec c.block
          ++ codes " rd="
          ++ dec c.reads
          ++ codes " wr="
          ++ dec c.writes
          ++ codes " no="
          ++ dec c.rejected
          ++ codes " b0="
          ++ hex_byte (at 0)
          ++ hex_byte (at 1)))
