-- ===== src/Device.antt =====
-- The device interface of src/embedbench_device.h, and the models under devices/src that are written
-- against it.
mod Port
unfoldable pub use Port.*
pub mod Chunk
pub mod SdCard
pub mod Tape
pub mod Sht30
pub mod Modbus
pub mod Flash
pub mod Rtc
pub mod RegisterMap
pub mod EnvSensor
pub mod Encoder
pub mod Codec
pub mod Ir
