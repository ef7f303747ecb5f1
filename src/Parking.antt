-- ===== src/Parking.antt =====
-- The parking domain: include/parking and src/parking.
pub mod Event
pub mod SequenceGuard
pub mod Gate
pub mod OcrPolicy
pub mod Session
pub mod Slots
pub mod ActiveIndex
pub mod Worker
pub mod Capture
pub mod Commands
pub mod Actor
pub mod SensorIndex
pub mod Scheduler
