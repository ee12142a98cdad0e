-- ===== src/Device/Flash.antt =====
-- The SPI flash of devices/src/unit_flash_model.cpp.
pub mod Locked
use embed_bench.Prelude.{
  ℕ, zero, suc, ◌+◌, ◌-◌, ◌*◌, ◌%◌, Bool, true, false, ◌&&◌, ◌||◌, Option, none, some, List, [],
  ◌∷◌, ◌++◌, ltb, leb, ◌==◌, not, if◌then◌else◌, length, get_or, splice, take, replicate, ◌^◌,
}
use embed_bench.Label.{codes, dec, hex_byte}
use embed_bench.Trace.{word32}
use embed_bench.Device.Port.{HostPort, clock, say, wake, printed}

pub data Phase : Type 0 where
  idle command address data_phase : Phase

pub data Pending : Type 0 where
  nothing program_pending erase_pending : Pending

-- `staging` has the stagedLen_ bytes of a program so far, and `page` the pageLen_ bytes of the program
-- in flight.
pub record Flash : Type 0 where
  pub phase : Phase
  pub selected : Bool
  pub command_byte : ℕ
  pub address_byte : ℕ
  pub write_enabled : Bool
  pub busy : Bool
  pub pending : Pending
  pub done_us : ℕ
  pub memory : List ℕ
  pub staging : List ℕ
  pub page : List ℕ
  pub page_address : ℕ
  pub programs : ℕ
  pub refused : ℕ

abbrev pub size : ℕ
size = 64

abbrev pub write_enable : ℕ
write_enable = 6

abbrev pub page_program : ℕ
page_program = 2

abbrev pub read_command : ℕ
read_command = 3

abbrev pub status_command : ℕ
status_command = 5

abbrev pub chip_erase : ℕ
chip_erase = 199

abbrev pub program_us : ℕ
program_us = 3000

abbrev pub erase_us : ℕ
erase_us = 8000

-- A part out of the packet.
abbrev pub fresh : Flash
fresh = record {
  phase = idle;
  selected = false;
  command_byte = 0;
  address_byte = 0;
  write_enabled = false;
  busy = false;
  pending = nothing;
  done_us = 0;
  memory = replicate size 255;
  staging = [];
  page = [];
  page_address = 0;
  programs = 0;
  refused = 0;
}

-- reset: all but the memory.
unfoldable pub reset : Flash → Flash
reset c = record fresh { memory = c.memory }

-- The end of finishCommand.
abbrev pub command_over : Flash → Flash
command_over c = record c { phase = idle; command_byte = 0; staging = [] }

abbrev pub refuse : Flash → Flash
refuse c = record c { refused = (c.refused + 1) % word32 }

abbrev pub begin_erase : (now : ℕ) → Flash → Flash
begin_erase now c = record c {
  busy = true;
  pending = erase_pending;
  write_enabled = false;
  done_us = (now + erase_us) % 2 ^ 64;
}

abbrev pub begin_program : (now : ℕ) → Flash → Flash
begin_program now c = record c {
  busy = true;
  pending = program_pending;
  write_enabled = false;
  done_us = (now + program_us) % 2 ^ 64;
  page_address = c.address_byte;
  page = c.staging;
}

module _ {ℓ} {P : Type ℓ} where
  -- A command that changes the memory, when the select line is released.
  unfoldable pub commit :
      Option (HostPort P) → (what : List ℕ) → (begun : Flash) → Flash → P → Flash × P
  commit port what begun c p =
      if not c.write_enabled
      then (refuse c, say port (what ++ codes " without write-enable") p)
      else if c.busy
      then (refuse c, say port (what ++ codes " while busy") p)
      else (begun, wake port begun.done_us p)

  unfoldable pub finish_command : Option (HostPort P) → Flash → P → Flash × P
  finish_command port c p =
      let erase = commit port (codes "erase") (begin_erase (clock port p) c) c p in
      let program = commit port (codes "program") (begin_program (clock port p) c) c p in
      if c.command_byte == chip_erase
      then (command_over erase.0, erase.1)
      else if c.command_byte == page_program && ltb 0 (length c.staging)
      then (command_over program.0, program.1)
      else (command_over c, p)

  unfoldable pub line_in : Option (HostPort P) → (line level : ℕ) → Flash → P → Flash × P
  line_in port line level c p =
      let released = finish_command port (record c { selected = false }) p in
      if not (line == 0)
      then (c, p)
      else if level == 0
      then (if c.selected
          then (c, p)
          else (record c { selected = true; phase = command; command_byte = 0; staging = [] }, p))
      else if c.selected
      then released
      else (c, p)

-- The first byte of a command.
unfoldable pub take_command : ℕ → Flash → Flash
take_command mosi c =
    if mosi == write_enable
    then record c { command_byte = mosi; write_enabled = true; phase = idle }
    else if mosi == chip_erase
    then record c { command_byte = mosi; phase = idle }
    else if mosi == status_command
    then record c { command_byte = mosi; phase = data_phase }
    else record c { command_byte = mosi; phase = address }

-- A byte of data: the status, a byte read, or a byte to program.
unfoldable pub take_data : ℕ → Flash → ℕ × Flash
take_data mosi c =
    if c.command_byte == status_command
    then ((if c.busy then 1 else 0) + (if c.write_enabled then 2 else 0), c)
    else if c.command_byte == read_command
    then (if ltb c.address_byte size
        then (get_or c.memory c.address_byte 0, record c { address_byte = c.address_byte + 1 })
        else (255, c))
    else if c.command_byte == page_program && ltb (length c.staging) size
    then (255, record c { staging = c.staging ++ mosi ∷ [] })
    else (255, c)

unfoldable pub in_phase : Phase → ℕ → Flash → ℕ × Flash
in_phase idle mosi c = (255, c)
in_phase command mosi c = (255, take_command mosi c)
in_phase address mosi c = (255, record c { address_byte = mosi; phase = data_phase })
in_phase data_phase mosi c = take_data mosi c

unfoldable pub spi_transfer : ℕ → Flash → ℕ × Flash
spi_transfer mosi c = if not c.selected then (255, c) else in_phase c.phase mosi c

-- What a program or an erase leaves; a page is cut at the end of the memory.
unfoldable pub programmed : Pending → Flash → List ℕ
programmed erase_pending c = replicate size 255
programmed _ c = splice c.page_address (take (size - c.page_address) c.page) c.memory

unfoldable pub advance_to : ℕ → Flash → Flash
advance_to now c = if not c.busy || ltb now c.done_us then c else record c {
  busy = false;
  memory = programmed c.pending c;
  programs = (c.programs + 1) % word32;
  pending = nothing;
  page = [];
}

-- What channelRead returns and writes.
unfoldable pub channel_read : ℕ → ℕ → Flash → ℕ × List ℕ
channel_read channel cap c = if channel == 0 then (size, take cap c.memory) else (0, [])

unfoldable pub dump : ℕ → Flash → ℕ × List ℕ
dump cap c =
    let bit = λ (b : Bool). if b then codes "1" else codes "0" in
    printed cap (
      codes "flash we="
      ++ bit c.write_enabled
      ++ codes " busy="
      ++ bit c.busy
      ++ codes " progs="
      ++ dec c.programs
      ++ codes " no="
      ++ dec c.refused
      ++ codes " m0="
      ++ hex_byte (get_or c.memory 0 0)
      ++ codes " m1="
      ++ hex_byte (get_or c.memory 1 0))
