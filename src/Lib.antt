-- ===== src/Lib.antt =====
-- EmbedBench's environment: the program that stands between an Arduino sketch, the models of the
-- devices that it talks to, and the virtual clock, and that records all they do as a trace.
--
-- src/embedbench_host.cpp holds one `State` and functions over it. Hooks of the host core (onWait,
-- onPinWrite, onWireWriteOn, onSpiTransfer, onUartActivity, ...) enter from the sketch; injections
-- (pinInject, uartInjectOn, frameRx, ...) enter from devices and directors; both record events and call
-- the code behind the bound pointers, which may call the environment again. Devices reach the
-- environment through src/embedbench_device.h, or ready-made through `DevicePort`.
--
-- Prelude: shared names, Boolean tests and list functions on native numbers.
-- Label: how values print, and checksums: hexOf, crc8Step, crc8, payloadLabel, bytesLabel.
-- Trace: the event buffer: foldCycle, shapeOf, foldShapeCycle, markTruncated, vrecord.
-- Wake: the table of wake requests: nextWakeAfter, retireWakesUpTo, the table part of requestWake.
-- Frame: frameBytes, framePaddingClean and schemaFingerprint of src/embedbench_device.h.
-- Host: the environment itself.
--   State: `State`, a record for each group of its fields. An array with its count is a list of the live
--   entries (trace, held effects), a table of slots a list of fixed length. A pointer to a function is a
--   number, 0 for nullptr. Counters wrap at 2^32 and times at 2^64, written out; in some device models
--   the time at which something is due, the present time and a delay, is not wrapped, and they are
--   faithful while it stays below 2^64: Sht30, EnvSensor.
--   Monad: actions over the state and a `world` that holds all else. `Outside` is the record of calls
--   that leave the file: the code behind the pointers and the host core. Each is a parameter.
--   Record: recordf, the fan-out to listeners, addListener, removeListener.
--   Deferral: enterDevice, leaveDevice, refuseReentrantCall, queueDeferred, deliverDeferred.
--   Clock: onWait, fireTick, requestWake. Gpio, Wire, Spi, Uart, Analog: the hooks of each bus and the
--   injections into it. Formats: registerFormat, frameAccept, frameTx, frameRx. Window: runBegin,
--   runEnd, armRunWindow, onLifecycle. Bind: the setters. Port: `DevicePort`. Dump: stats, formatTrace.
--   Session: calls of the entry points, and interrupts with the hooks on entry and exit, as values, for
--   statements about whole sequences. onLifecycle, runBegin and runEnd, which reset what such a sequence
--   keeps, stand round it.
--   Contract: what the calls of `Session` keep true, and what it asks of the code behind the pointers.
--   `Tame` is the contract for that code; Contract/Whole shows that code which consists of such
--   calls, nested to any depth, with interrupts between their hooks, is of that kind.
-- Device: the interface of src/embedbench_device.h and models of devices/src. Port: `HostPort`, a record
--   of services over any environment, and the statuses. A model is a record of its fields and a
--   function for each method, which takes the port (none before it is attached), the model and the
--   environment. An array with its count is the list of its live bytes.
--   Chunk: devices/src/unit_chunk_model.cpp; its children follow a message over a link.
--   SdCard: devices/src/unit_sdcard_model.cpp; an access beyond an array is none. Bounds and Blocks
--   have the theorems.
--   Sht30: devices/src/sht30_model.cpp. Modbus: devices/src/unit_modbus_model.cpp. Tape:
--   devices/src/tape_model.cpp, with the recording as a list of steps. Flash, Rtc, RegisterMap,
--   EnvSensor, Encoder, Codec, Ir: unit_flash_model.cpp, unit_rtc_model.cpp, regmap_model.cpp,
--   env_sensor_model.cpp, unit_encoder_model.cpp, unit_codec_model.cpp and unit_ir_model.cpp there.
-- Tests: runs, and the theorems at concrete inputs.
--
-- Loops whose length outside code decides run on `rounds` and set `stuck` where they ran out: the
-- `for (;;)` of onWait, the loop over late ticks, the loop over deferred ticks of a nested wait, and
-- deliverDeferred. For a one-shot wait a round for each microsecond is shown to be enough, and for
-- deliverDeferred a round for each held effect. The searches of the folding tiers run on the number of
-- records, which bounds their steps. advanceTo of the chunking node has a round for each byte that a
-- message may have and one more, that of the tape one for each step and one more, that of the
-- infrared unit one for each value of its byte of repeats. Printing a number runs on 20 digits, enough
-- for 64 bits.
--
-- Not modelled: the other device models under devices/src, which stand behind the same interface; the
-- host core, which is code behind the pointers, as a device is for Host; the capture shims and
-- command-line tools, which forward and print; the test environments.
-- `va_list` formatting is written out call by call, and the text of a call is the list of its codes.
pub mod Prelude
pub mod Label
pub mod Trace
pub mod Wake
pub mod Frame
pub mod Device
pub mod Host
mod Tests
