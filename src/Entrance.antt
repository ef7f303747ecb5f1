-- ===== src/Entrance.antt =====
-- The entrance: include/entrance and src/entrance.
pub mod Types
pub mod BestShot
