-- ===== src/Wifi.antt =====
-- wifi-provisioner: nmcli's terse output (`Terse`), the calls of nmcli (`Networks`), the hotspot supervisor
-- (`Supervisor`) and the portal's handlers (`Portal`).
mod Tests
pub mod Terse
pub mod Networks
pub mod Supervisor
pub mod Portal
