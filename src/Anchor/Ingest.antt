-- ===== src/Anchor/Ingest.antt =====
-- ble-sensor/anchor_ingest.py: `handle_frame` and the payloads that it builds, and the bounded queue
-- between the network thread and the writer. What it writes is a list of effects; the MAC
-- canonicaliser's tables, the OUI classifier and `str` of a value that is no text are parameters.
pub mod Quarantine
use smart_trucks.Base.{
  ℕ, suc, ◌+◌, ◌-◌, ◌≤◌, Bool, true, false, ◌&&◌, ◌||◌, not, ltb, leb, ◌==◌, Option, none, some,
  if◌then◌else◌, List, [], ◌∷◌, ◌++◌, length, map,
}
use smart_trucks.Base.Text.{Text, text_eq, codes, split}
use smart_trucks.Anchor.Json.{
  Json, null, boolean, integer, fraction, text, array, object, Items, nil, cons, Fields, get_or,
  get_none, truthy,
}
use smart_trucks.Anchor.Mac.{canonicalize_mac}
use smart_trucks.Anchor.Bridge.{valid_node_id}
use smart_trucks.Anchor.Registry.{Registry, RegistryFile, Cache, refresh, allows}

pub data Role : Type 0 where
  anchor gateway : Role

pub record Sensor : Type 0 where
  pub mac_address : Text  -- also `device_id`
  pub rssi : Json
  pub max_rssi : Json
  pub sample_count : Json
  pub device_type : Text

-- The `ble_sensor_scan` payload, less the fields that are the same in every one; `detail` is the
-- `anchor` block's frame.
pub record ScanPayload : Type 0 where
  pub observer_id : Text
  pub captured_at_utc : Text
  pub idempotency_key : Text
  pub scan_duration_seconds : Json
  pub sensor_count : ℕ
  pub sensors : List Sensor
  pub detail : Fields

pub data Effect : Type 0 where
  upsert_status : Text → Role → Bool → Fields → Effect  -- `_upsert_anchor_status`
  record_observations : ScanPayload → Effect
  enqueue_scan : ScanPayload → Effect

pub record Context : Type 0 where
  pub vehicle_id : Text
  pub allowlist : List Text
  pub refresh_seconds : ℕ
  pub alnum_beyond : ℕ → Bool
  pub upper_beyond : ℕ → Text
  pub classify_mac : Text → Text
  pub str_other : Json → Text

module _ (ctx : Context) where
  -- `str(v)`
  abbrev pub str : Json → Text
  str (text t) = t
  str v = ctx.str_other v

  -- `frame.get("devices") or []`, as the loop can walk it.
  abbrev pub devices_of : Fields → Items
  devices_of frame = elim (get_none (codes "devices") frame) [ array ds ↦ ds | _ ↦ nil ]

  -- Whether `for device in frame.get("devices") or []` can start: a number other than 0, or true, is no
  -- iterable and raises `TypeError`.
  abbrev pub walkable : Json → Bool
  walkable (boolean b) = not b
  walkable (integer s n) = n == 0
  walkable (fraction is_zero t) = is_zero
  walkable v = true

  abbrev pub mac_of : Fields → Text
  mac_of d =
      canonicalize_mac ctx.alnum_beyond ctx.upper_beyond (str (get_or (codes "mac") (text []) d))

  unfoldable pub sensors_of : Items → List Sensor
  sensors_of nil = []
  sensors_of (cons (object d) ds) =
      let rest = sensors_of ds in
      if length (mac_of d) == 17
      then record {
        mac_address = mac_of d;
        rssi = get_none (codes "rssi") d;
        max_rssi = get_none (codes "max_rssi") d;
        sample_count = get_none (codes "count") d;
        device_type = ctx.classify_mac (mac_of d);
      }
        ∷ rest
      else rest
  sensors_of (cons v ds) = sensors_of ds

  -- `str(frame.get("bridge_received_at_utc") or _utc_now_iso())`
  abbrev pub captured_at : Text → Fields → Text
  captured_at now frame =
      if truthy (get_none (codes "bridge_received_at_utc") frame)
      then str (get_none (codes "bridge_received_at_utc") frame)
      else now

  -- f"{vehicle_id}:ble_sensor_scan:{captured_at_utc}:{anchor_id}:{rest}"
  abbrev key_for : Text → Text → Text → Text
  key_for captured anchor_id rest =
      ctx.vehicle_id
      ++ codes ":ble_sensor_scan:"
      ++ captured
      ++ codes ":"
      ++ anchor_id
      ++ codes ":"
      ++ rest

  unfoldable pub build_scan_payload : Text → Text → Fields → ScanPayload
  unfolding sensors_of
  build_scan_payload now anchor_id frame = record {
    observer_id = anchor_id;
    captured_at_utc = captured_at now frame;
    idempotency_key = key_for (captured_at now frame) anchor_id (
        str (get_none (codes "seq") frame)
        ++ codes ":"
        ++ str (get_or (codes "part") (integer false 0) frame));
    scan_duration_seconds = get_none (codes "window_s") frame;
    sensor_count = length (sensors_of (devices_of frame));
    sensors = sensors_of (devices_of frame);
    detail = frame;
  }

  unfoldable pub build_heartbeat_payload : Text → Text → Fields → ScanPayload
  build_heartbeat_payload now anchor_id frame = record {
    observer_id = anchor_id;
    captured_at_utc = captured_at now frame;
    idempotency_key =
        key_for (captured_at now frame) anchor_id
          (codes "hb:" ++ str (get_none (codes "seq") frame));
    scan_duration_seconds = null;
    sensor_count = 0;
    sensors = [];
    detail = frame;
  }

  -- The ladder on `kind`, once the registry has answered. A frame whose devices raise leaves the status
  -- row behind: the writer thread catches the exception.
  unfoldable pub effects_of : Text → Text → Text → Fields → Bool → List Effect
  unfolding build_scan_payload build_heartbeat_payload
  effects_of now anchor_id kind frame allowed =
      if text_eq kind (codes "scan")
      then upsert_status anchor_id anchor allowed frame
        ∷ (if not allowed || not (walkable (get_none (codes "devices") frame))
            then []
            else (let payload = build_scan_payload now anchor_id frame in
                if ltb 0 payload.sensor_count
                then record_observations payload ∷ enqueue_scan payload ∷ []
                else enqueue_scan payload ∷ []))
      else if text_eq kind (codes "status")
      then upsert_status anchor_id anchor allowed frame
        ∷ (if not allowed
            then []
            else enqueue_scan (build_heartbeat_payload now anchor_id frame) ∷ [])
      else if text_eq kind (codes "gateway")
      then upsert_status anchor_id gateway allowed frame ∷ []
      else []

  -- `handle_frame` at a time of both clocks: the refreshed cache, and what is written.
  unfoldable pub handle_parts :
      RegistryFile → ℕ → Text → Cache → List Text → Fields → Cache × List Effect
  unfolding effects_of
  handle_parts file tick now c (root ∷ anchor_id ∷ kind ∷ []) frame =
      let fresh = refresh ctx.refresh_seconds ctx.allowlist file tick c in
      if not (text_eq root (codes "anchors"))
      then (c, [])
      else if text_eq kind (codes "status") && text_eq anchor_id (codes "bridge")
      then (c, [])
      else if not (valid_node_id (text anchor_id))
      then (c, [])
      else (fresh, effects_of now anchor_id kind frame (allows fresh.registry anchor_id))
  handle_parts file tick now c parts frame = (c, [])

  unfoldable pub handle_frame :
      RegistryFile → ℕ → Text → Cache → Text → Fields → Cache × List Effect
  unfolding handle_parts
  handle_frame file tick now c topic frame = handle_parts file tick now c (split b'/' topic) frame

-- `on_message`: a frame is queued unless _WORK_QUEUE_MAX, 256, wait already; then it is dropped.
unfoldable pub put_nowait {ℓ} : {A : Type ℓ} → A → List A → List A
put_nowait x q = if ltb (length q) 256 then q ++ x ∷ [] else q
