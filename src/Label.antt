-- ===== src/Label.antt =====
-- The text of the trace: the conversions of the C library's `snprintf` that src/embedbench_host.cpp
-- writes into its event lines, and that file's own labels (`hexOf`, `crc8Step`, `crc8`,
-- `payloadLabel`, `bytesLabel`).
-- A C string is the list of its bytes, without the NUL.
mod Format
mod Crc
mod Bytes
unfoldable pub use Format.*
unfoldable pub use Crc.*
unfoldable pub use Bytes.*
pub mod Printable
pub mod Detect
