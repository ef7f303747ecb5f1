-- ===== src/Scenarios.antt =====
-- Runs of the models on concrete inputs, and the theorems at inputs that meet their hypotheses.
mod Radio
mod Hall
mod Path
mod Text
mod Cameras
mod Captures
mod Timers
mod Commands
mod Alarms
