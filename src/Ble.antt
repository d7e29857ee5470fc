-- ===== src/Ble.antt =====
-- ble-sensor/main.py: the scan loop and its contention with other scanners (`Contention`), the cadence on battery
-- (`Cadence`), the Pi's own location (`Location`), and where the tracked assets are (`Observers`, `Resolver`).
mod Tests
pub mod Contention
pub mod Cadence
pub mod Location
pub mod DeviceType
pub mod Records
pub mod Observers
pub mod Resolver
