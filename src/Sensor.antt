-- ===== src/Sensor.antt =====
-- The sensor protocol: include/sensor and src/sensor.
pub mod Adapter
pub mod Sequence
pub mod Protocol
