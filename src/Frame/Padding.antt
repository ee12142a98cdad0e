-- ===== src/Frame/Padding.antt =====
-- How many bytes a frame takes.
use embed_bench.Prelude.{ℕ, ◌+◌, ◌*◌, ◌≤◌, ◌<◌, arith}
use embed_bench.Frame.{frame_bytes}

-- A frame takes the fewest whole bytes that hold its bits, and no more bytes than bits.
pub frame_bytes_bounds :
    (bits : ℕ)
    → (bits ≤ frame_bytes bits * 8) × (frame_bytes bits * 8 < bits + 8) × (frame_bytes bits ≤ bits)
unfolding frame_bytes
frame_bytes_bounds bits = ground arith
