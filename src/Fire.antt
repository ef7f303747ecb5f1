-- ===== src/Fire.antt =====
-- The fire alarms: src/event/FireAlarmService.cpp and their part of the database.
pub mod State
pub mod Outbox
pub mod Checks
pub mod Store
pub mod Service
pub mod Signals
pub mod Process
pub mod Decisions
pub mod Alarms
pub mod Agreement
pub mod Commits
pub mod Stored
pub mod Keys
pub mod Rows
pub mod Runs
pub mod Queue
pub mod Applied
pub mod Consistent
