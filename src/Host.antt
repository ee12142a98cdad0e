-- ===== src/Host.antt =====
-- The environment of src/embedbench_host.cpp.
pub mod State
pub mod Monad
pub mod Record
pub mod Deferral
pub mod Clock
pub mod Gpio
pub mod Wire
pub mod Spi
pub mod Uart
pub mod Formats
pub mod Analog
pub mod Session
pub mod Window
pub mod Bind
pub mod Contract
pub mod Port
pub mod Dump
