-- ===== src/Device.antt =====
-- Devices: include/device and src/device.
pub mod LoRa
