-- ===== src/Gps.antt =====
-- The GPS pipeline of telematics-edge: the track filter's data (`Filter`) and its step (`Process`),
-- with what is proved of them (`Process/Invariant`, `Process/Reports`, `Process/Parked`).
mod Tests
pub mod Filter
pub mod Process
