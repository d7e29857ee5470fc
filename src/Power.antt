-- ===== src/Power.antt =====
-- power-monitor: the power flags and state (`Flags`), the shutdown policy (`Engine`, with what is proved
-- of it in `Engine/Poweroff`) and the sensor's sampling and recovery (`Sensor`).
mod Tests
pub mod Flags
pub mod Engine
pub mod Sensor
