-- ===== src/Trace.antt =====
-- The event record of src/embedbench_host.cpp: the buffer of `State`, its two folding tiers and
-- `vrecord` up to the fan-out to listeners.
-- `buf` holds the live slots only, so the source's `count` is its length.
mod Buffer
mod Cycle
mod Fold
mod Shape
mod Record
pub mod Repeats
pub mod Search
pub mod Accounting
unfoldable pub use Buffer.*
unfoldable pub use Cycle.*
unfoldable pub use Fold.*
unfoldable pub use Shape.*
unfoldable pub use Record.*
