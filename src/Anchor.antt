-- ===== src/Anchor.antt =====
-- The BLE-anchor pipeline: anchor-bridge (`Bridge`) turns the gateway's lines into MQTT messages, and
-- ble-sensor's ingest (`Ingest`, with its `Registry`) folds these into the queues. `Json` holds the values of
-- `json.loads`, `Mac` the address canonicaliser.
mod Tests
pub mod Json
pub mod Mac
pub mod Bridge
pub mod Registry
pub mod Ingest
