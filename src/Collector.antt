-- ===== src/Collector.antt =====
-- telematics-edge/main.py: the collector's workers on `RuntimeState`: the network watchdog (`Watchdog`), parked mode
-- (`Parked`), the track points (`Track`) and the maintenance (`Maintenance`).
mod Tests
pub mod Watchdog
pub mod Parked
pub mod Track
pub mod Maintenance
