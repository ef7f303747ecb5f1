-- ===== src/Timer.antt =====
-- The overstay timers: src/timer and include/parking_timer.
pub mod Manager
