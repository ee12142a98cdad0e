-- ===== src/Trace/Buffer.antt =====
-- `Origin`, `Event` and the trace fields of `State` (src/embedbench_host.h and .cpp).
use embed_bench.Prelude.{ℕ, ◌^◌, Bool, false, List, []}

pub data Origin : Type 0 where
  app dir dev core diag : Origin

-- `ctx` is 0 in main, 1 in a tick (director) and 2 in an interrupt; `link` is the request's sequence
-- number in a response and 0 otherwise.
pub record Event : Type 0 where
  pub seq : ℕ
  pub time_us : ℕ
  pub ctx : ℕ
  pub origin : Origin
  pub link : ℕ
  pub repeats : ℕ
  pub last_time_us : ℕ
  pub text : List ℕ

-- A default-constructed `Event`.
abbrev pub blank : Event
blank = record {
  seq = 0;
  time_us = 0;
  ctx = 0;
  origin = app;
  link = 0;
  repeats = 1;
  last_time_us = 0;
  text = [];
}

abbrev pub word32 : ℕ
word32 = 2 ^ 32

-- kCapacity
abbrev pub capacity : ℕ
capacity = 64

-- sizeof(Event::text)
abbrev pub text_size : ℕ
text_size = 56

pub record Trace : Type 0 where
  pub buf : List Event
  pub next_seq : ℕ
  pub dropped : ℕ
  pub folded : ℕ
  pub outside_window : ℕ
  pub windows : ℕ
  pub fold_exhausted : Bool
  pub truncated : Bool
  pub diag_count : ℕ
  pub running : Bool

-- The trace of a default-constructed `State`.
abbrev pub empty_trace : Trace
empty_trace = record {
  buf = [];
  next_seq = 1;
  dropped = 0;
  folded = 0;
  outside_window = 0;
  windows = 0;
  fold_exhausted = false;
  truncated = false;
  diag_count = 0;
  running = false;
}
