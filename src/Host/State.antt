-- ===== src/Host/State.antt =====
-- `State` of src/embedbench_host.cpp, one record for each group of its fields, and what stands
-- outside it.
use embed_bench.Prelude.{ℕ, ◌^◌, Bool, false, List, [], ◌∷◌, replicate}
use embed_bench.Trace.{Trace, empty_trace}
use embed_bench.Wake.{no_wakes}

abbrev pub word16 : ℕ
word16 = 2 ^ 16

abbrev pub word64 : ℕ
word64 = 2 ^ 64

-- A function pointer with its `user` pointer; `fn` is 0 for nullptr.
pub record Handler : Type 0 where
  pub fn : ℕ
  pub user : ℕ

abbrev pub null : Handler
null = record { fn = 0; user = 0 }

pub record Clock : Type 0 where
  pub tick_us : ℕ
  pub vnow : ℕ
  pub next_tick : ℕ
  pub ticks : ℕ
  pub pending_ticks : ℕ
  pub late_ticks : ℕ
  pub zero_waits : ℕ
  pub zero_in_director : ℕ
  pub wakes : List ℕ
  pub dropped_wakes : ℕ

pub record Context : Type 0 where
  pub dir_depth : ℕ
  pub isr_depth : ℕ

-- `Deferred`: kind 0 is an interrupt on `pin`, kind 1 a frame to the application's receiver.
pub data Deferred : Type 0 where
  isr : (pin : ℕ) → Deferred
  frame : (bus format : ℕ) → List ℕ → (bits : ℕ) → Deferred

pub record Reentry : Type 0 where
  pub device_depth : ℕ
  pub max_device_depth : ℕ
  pub deferred : List Deferred
  pub deferred_isrs : ℕ
  pub deferred_frames : ℕ
  pub deferred_dropped : ℕ

-- `WireDeviceSlot`; `ops` stands for its three pointers.
pub record WireSlot : Type 0 where
  pub used : Bool
  pub bus : ℕ
  pub address : ℕ
  pub ops : ℕ

abbrev pub free_wire : WireSlot
free_wire = record { used = false; bus = 0; address = 0; ops = 0 }

pub record FormatSlot : Type 0 where
  pub used : Bool
  pub name : List ℕ
  pub schema : ℕ

abbrev pub free_format : FormatSlot
free_format = record { used = false; name = []; schema = 0 }

pub record Spi : Type 0 where
  pub in_transaction : Bool
  pub bulk_count : ℕ
  pub mosi_sum : ℕ
  pub miso_sum : ℕ

pub record Bindings : Type 0 where
  pub uart : Handler
  pub uart2 : Handler
  pub channel : Handler
  pub spi_device : Handler
  pub pin_forward : Handler
  pub frame_device : Handler
  pub frame_receiver : Handler
  pub tick : Handler
  pub zero_wait : Handler
  pub tick_device : Handler

pub record Listeners : Type 0 where
  pub slots : List Handler
  pub rejected : ℕ
  pub dispatching : Bool

pub record Window : Type 0 where
  pub armed : Bool
  pub closed : Bool
  pub loops : ℕ
  pub tick_us : ℕ
  pub loops_done : ℕ

-- `open_address` is i2cOpenAddress[0] and [1].
pub record State : Type 0 where
  pub trace : Trace
  pub clock : Clock
  pub context : Context
  pub reentry : Reentry
  pub wire : List WireSlot
  pub open_address : List ℕ
  pub formats : List FormatSlot
  pub spi : Spi
  pub bindings : Bindings
  pub listeners : Listeners
  pub window : Window

-- 0xFFFF: no transfer is open on the bus.
abbrev pub closed_bus : List ℕ
closed_bus = 0xFFFF ∷ 0xFFFF ∷ []

abbrev pub idle_spi : Spi
idle_spi = record { in_transaction = false; bulk_count = 0; mosi_sum = 0; miso_sum = 0 }

abbrev pub quiet_reentry : Reentry
quiet_reentry = record {
  device_depth = 0;
  max_device_depth = 0;
  deferred = [];
  deferred_isrs = 0;
  deferred_frames = 0;
  deferred_dropped = 0;
}

-- A default-constructed `State`.
abbrev pub initial : State
initial = record {
  trace = empty_trace;
  clock = record {
    tick_us = 1000;
    vnow = 0;
    next_tick = 1000;
    ticks = 0;
    pending_ticks = 0;
    late_ticks = 0;
    zero_waits = 0;
    zero_in_director = 0;
    wakes = no_wakes;
    dropped_wakes = 0;
  };
  context = record { dir_depth = 0; isr_depth = 0 };
  reentry = quiet_reentry;
  wire = replicate 4 free_wire;
  open_address = closed_bus;
  formats = replicate 8 free_format;
  spi = idle_spi;
  bindings = record {
    uart = null;
    uart2 = null;
    channel = null;
    spi_device = null;
    pin_forward = null;
    frame_device = null;
    frame_receiver = null;
    tick = null;
    zero_wait = null;
    tick_device = null;
  };
  listeners = record { slots = replicate 4 null; rejected = 0; dispatching = false };
  window = record { armed = false; closed = false; loops = 0; tick_us = 1000; loops_done = 0 };
}
