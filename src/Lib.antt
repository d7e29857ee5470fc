-- ===== src/Lib.antt =====
-- Smart truck telematics: a model of the edge services that run on the truck's computer.
--
-- The services share one SQLite database and one sentinel file. telematics-edge reads the GPS, filters
-- its fixes, tracks trips and geofences, and decides when the truck sleeps (Sentry Mode), which it tells the
-- others by the sentinel. power-monitor watches the battery and may power the host off. anchor-bridge
-- publishes the frames of the BLE anchors to MQTT, and ble-sensor folds them into the queues. sync-service
-- drains the queues to the cloud, and stops while the sentinel stands. wifi-provisioner restarts the edge
-- service when its heartbeats go stale, and raises a setup hotspot with a portal when no saved network is
-- in reach.
--
-- Files and the code they model:
-- - Base: what the models share: tests and lists on the native numbers (Base/Tests, Base/Lists), `FloatOps`,
--   a parameter for Python's floats and `math` (Base/Float, a concrete instance in Base/Ticks), Python's
--   texts (Base/Text) and integers (Base/Int), stable sorts (Base/Sort), calls that may raise (Base/Result).
-- - Gps: telematics-edge/gps_filter.py. `Gps.Process.process` is `GpsTrackFilter.process`, the filter's
--   fields a record; `process_all` is a drive.
-- - Sync: sync-service/main.py. Sync/Queue is the tables and the SQL on them, Sync/Cycle `sync_cycle`, with
--   SQLite, `json.loads` and HTTP in a record `World`, and Sync/Loop the loop of `run` and the beacon.
-- - Sentry: telematics-edge/sentry.py, shared/sentry_flag.py, and `sentry_mode_worker` and
--   `_enter_sentry` of telematics-edge/main.py (Sentry/Worker).
-- - Watchdog: wifi-provisioner/edge_watchdog.py.
-- - Power: power-monitor/main.py: the flags and the shutdown tests (Power/Flags), `state_engine_loop`
--   (Power/Engine), the recovery ladder of `sensor_loop` and the sampling interval (Power/Sensor).
-- - Anchor: anchor-bridge/main.py (Anchor/Bridge), ble-sensor/anchor_ingest.py (Anchor/Registry,
--   Anchor/Ingest), `_canonicalize_mac_address` of ble-sensor/main.py (Anchor/Mac), JSON values (Anchor/Json).
-- - Trip: telematics-edge/trip_tracker.py.
-- - Geofence: telematics-edge/geofence.py.
-- - Retry: `run_with_retry` of shared/sqlite_util.py. Env: shared/env.py.
-- - Nmea: `_update_reading` of telematics-edge/nmea_reader.py, and `_is_valid_fix` of its main.py.
-- - Wifi: wifi-provisioner/nm.py: the terse output (Wifi/Terse) and every call of nmcli (Wifi/Networks);
--   wifi-provisioner/main.py: `supervisor` (Wifi/Supervisor, a turn of its loop is `turn`) and the portal's page
--   and handlers (Wifi/Portal). NetworkManager is a parameter, and its state is passed through all of them.
-- - Db: telematics-edge/db.py, with its writes (Db), queries (Db/Queries) and purge (Db/Purge). Its queue tables are
--   those of Sync/Queue; Db/Pipeline has the steps of all services on one database.
-- - Ble: ble-sensor/main.py: the loop of `run` with BlueZ's contention (Ble/Contention), the cadence (Ble/Cadence),
--   `_collect_pi_location` (Ble/Location), `_device_type_from_metadata` with KNOWN_OUIS (Ble/DeviceType), the
--   registry and the observations (Ble/Records), `_rank_observers` (Ble/Observers) and
--   `_resolve_tracked_asset_positions` (Ble/Resolver).
-- - Collector: telematics-edge/main.py: `network_watchdog_worker` (Collector/Watchdog), the parked scan
--   (Collector/Parked), `gps_collector_worker` on Gps and Db (Collector/Track), `maintenance_worker`
--   (Collector/Maintenance).
-- Each part's Tests module has its concrete inputs.
--
-- Bounds and fuel: loops that run for ever are runs over a list of their inputs. The grace loop of
-- `_enter_sentry` takes as fuel one more than its grace in ticks; with a wake interval of at least one tick
-- the clock moves at least a tick at each turn, so that is enough. Clocks count ticks and do not go
-- back. Python's integers have no bound, and neither have the model's numbers; the
-- backoff of the BLE scanner, which Python multiplies by a float, overflows from attempt 1024 on.
--
-- Not modelled: the NMEA transport, the heartbeat payload and the start of the tasks of telematics-edge; the
-- INA219 driver; the scan over Bleak and the adapter reset of the BLE scanner; the loading of the services'
-- settings; the IMU; the calibration tools; the Supervisor client; and the anchors' firmware, which is no
-- Python. What nmcli prints is taken to be text that can be decoded, so `_run` never meets the UnicodeDecodeError
-- that it would let through. Log texts and start-up messages are left out throughout.
pub mod Base
pub mod Gps
pub mod Sync
pub mod Sentry
pub mod Watchdog
pub mod Power
pub mod Anchor
pub mod Trip
pub mod Geofence
pub mod Retry
pub mod Env
pub mod Nmea
pub mod Wifi
pub mod Db
pub mod Ble
pub mod Collector
