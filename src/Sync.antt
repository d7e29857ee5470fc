-- ===== src/Sync.antt =====
-- sync-service: the store-and-forward queues (`Queue`), one drain cycle (`Cycle`) and the loop round
-- it (`Loop`).
mod Tests
pub mod Queue
pub mod Cycle
pub mod Loop
