-- ===== src/Iva.antt =====
-- Occupancy from the cameras' video analysis: include/event/Iva*.hpp and src/event/Iva*.cpp.
pub mod Aggregator
pub mod Coordinator
