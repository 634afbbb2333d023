-- ===== src/Device.antt =====
-- src/device, and the retry worker's part in src/c64-source.c: the devices that a source has left.
pub mod StopQueue
pub mod Departure
