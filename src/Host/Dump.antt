-- ===== src/Host/Dump.antt =====
-- What a test reads of the environment in src/embedbench_host.cpp: `ctxName`, `originName`,
-- `formatTrace`, `respLineCount` and `stats`.
use embed_bench.Prelude.{
  ℕ, ◌+◌, ◌-◌, List, [], ◌∷◌, ◌++◌, ltb, ◌==◌, if◌then◌else◌, length, replicate,
}
use embed_bench.Label.{codes, dec}
use embed_bench.Trace.{Origin, app, dir, dev, core, diag, Event}
use embed_bench.Host.State.{State}

abbrev pub ctx_name : ℕ → List ℕ
ctx_name ctx = if ctx == 1 then codes "tick" else if ctx == 2 then codes "isr" else codes "main"

abbrev pub origin_name : Origin → List ℕ
origin_name dir = codes "dir"
origin_name dev = codes "dev"
origin_name core = codes "core"
origin_name diag = codes "diag"
origin_name app = codes "app"

-- %0Nu: zeros in front up to a width.
unfoldable pub padded : ℕ → ℕ → List ℕ
padded width n = replicate (width - length (dec n)) b'0' ++ dec n

-- One line of formatTrace, with the line feed.
unfoldable pub event_line : Event → List ℕ
unfolding padded
event_line e =
    padded 2 e.seq
    ++ codes " "
    ++ padded 6 e.time_us
    ++ codes " "
    ++ ctx_name e.ctx
    ++ codes " "
    ++ origin_name e.origin
    ++ codes " "
    ++ e.text
    ++ (if e.link == 0 then [] else codes " re=" ++ dec e.link)
    ++ (if ltb 1 e.repeats
        then codes " x" ++ dec e.repeats ++ codes ".." ++ padded 6 e.last_time_us
        else [])
    ++ 10 ∷ []

-- formatTrace into a buffer that is large enough for all of it.
unfoldable pub format_trace : List Event → List ℕ
unfolding event_line
format_trace [] = []
format_trace (e ∷ es) = event_line e ++ format_trace es

-- respLineCount
unfoldable pub resp_line_count : List Event → ℕ
resp_line_count [] = 0
resp_line_count (e ∷ es) = let rest = resp_line_count es in if e.link == 0 then rest else rest + 1

pub record Stats : Type 0 where
  pub events : ℕ
  pub dropped : ℕ
  pub folded : ℕ
  pub outside_window : ℕ
  pub windows : ℕ
  pub zero_waits : ℕ
  pub zero_in_director : ℕ
  pub late_ticks : ℕ
  pub ticks : ℕ
  pub diag_count : ℕ
  pub deferred_isrs : ℕ
  pub deferred_frames : ℕ
  pub deferred_dropped : ℕ
  pub max_device_depth : ℕ

unfoldable pub stats : State → Stats
stats s = record {
  events = length s.trace.buf;
  dropped = s.trace.dropped;
  folded = s.trace.folded;
  outside_window = s.trace.outside_window;
  windows = s.trace.windows;
  zero_waits = s.clock.zero_waits;
  zero_in_director = s.clock.zero_in_director;
  late_ticks = s.clock.late_ticks;
  ticks = s.clock.ticks;
  diag_count = s.trace.diag_count;
  deferred_isrs = s.reentry.deferred_isrs;
  deferred_frames = s.reentry.deferred_frames;
  deferred_dropped = s.reentry.deferred_dropped;
  max_device_depth = s.reentry.max_device_depth;
}
