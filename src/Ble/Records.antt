-- ===== src/Ble/Records.antt =====
-- ble-sensor/main.py: the registry of tracked assets and the observations of a scan, on the sensor's own database.
-- `str` of a JSON value and letters beyond ASCII are parameters.
use smart_trucks.Base.{
  ℕ, Bool, true, Option, none, some, if◌then◌else◌, List, [], ◌∷◌, ◌++◌, length, keep_if, ◌≡◌, refl,
  arith, ◌∙◌, ap, sym,
}
use smart_trucks.Base.Text.{Text, codes, text_eq, text_eq_sound}
use smart_trucks.Anchor.Json.{
  Json, null, boolean, array, object, text, Items, nil, cons, Fields, get_or, get_none, truthy,
}
use smart_trucks.Anchor.Mac.{canonicalize_mac, accepted_mac}

-- A row of `tracked_asset_registry`; `tracked_mac_normalized` is its key.
pub record TrackedAsset : Type 0 where
  pub mac : Text
  pub label : Option Text
  pub is_active : Bool

-- `ON CONFLICT(tracked_mac_normalized) DO UPDATE`
unfoldable pub upsert : TrackedAsset → List TrackedAsset → List TrackedAsset
upsert a [] = a ∷ []
upsert a (b ∷ rows) = let rest = upsert a rows in if text_eq a.mac b.mac then a ∷ rows else b ∷ rest

unfoldable pub upsert_all : List TrackedAsset → List TrackedAsset → List TrackedAsset
unfolding upsert
upsert_all [] rows = rows
upsert_all (a ∷ tracked) rows = upsert_all tracked (upsert a rows)

-- A row of `ble_device_observations`, as it is inserted.
pub record NewObservation : Type 0 where
  pub captured_at_utc : Text
  pub pi_id : Text
  pub vehicle_id : Text
  pub mac : Text
  pub rssi : Json
  pub latitude : Json
  pub longitude : Json
  pub gps_timestamp : Json
  pub gps_age_seconds : Json
  pub observer_id : Text

abbrev fields_of : Json → Fields
fields_of (object fs) = fs
fields_of _ = Fields.end

module _ (alnum_beyond : ℕ → Bool) (upper_beyond : ℕ → Text) (str : Json → Text) where
  abbrev label_of : Json → Option Text
  label_of null = none
  label_of v = some (str v)

  abbrev asset_of : Fields → List TrackedAsset
  asset_of fs =
      let mac = str (get_or (codes "ble_mac_normalized") (text []) fs) in
      if accepted_mac alnum_beyond upper_beyond mac
      then record {
        mac = canonicalize_mac alnum_beyond upper_beyond mac;
        label = label_of (get_none (codes "label") fs);
        is_active = truthy (get_or (codes "active") (boolean true) fs);
      }
        ∷ []
      else []

  unfoldable pub assets_of : Items → List TrackedAsset
  assets_of nil = []
  assets_of (cons (object fs) items) = asset_of fs ++ assets_of items
  assets_of (cons v items) = assets_of items

  -- `_load_tracked_assets_from_registry`: no rows for a file that is not there or holds no list.
  unfoldable pub load_tracked_assets : Option Json → List TrackedAsset
  unfolding assets_of
  load_tracked_assets (some (array items)) = assets_of items
  load_tracked_assets _ = []

  -- `_sync_tracked_asset_registry`, by whether its write went through.
  unfoldable pub sync_tracked_asset_registry :
      Bool → Option Json → List TrackedAsset → List TrackedAsset
  unfolding load_tracked_assets upsert_all
  sync_tracked_asset_registry writable file rows =
      if writable then upsert_all (load_tracked_assets file) rows else rows

  -- `str(v or default)`
  abbrev str_or : Json → Text → Text
  str_or v default = if truthy v then str v else default

  abbrev observed : Fields → Text → Fields → List NewObservation
  observed payload now sensor =
      let mac = str (get_or (codes "mac_address") (text []) sensor) in
      let pi_id = str_or (get_none (codes "pi_id") payload) (codes "unknown-pi") in
      let location = fields_of (get_none (codes "pi_location") payload) in
      if accepted_mac alnum_beyond upper_beyond mac
      then record {
        captured_at_utc = str_or (get_none (codes "captured_at_utc") payload) now;
        pi_id = pi_id;
        vehicle_id = str_or (get_none (codes "vehicle_id") payload) (codes "UNKNOWN_TRUCK");
        mac = canonicalize_mac alnum_beyond upper_beyond mac;
        rssi = get_none (codes "rssi") sensor;
        latitude = get_none (codes "latitude") location;
        longitude = get_none (codes "longitude") location;
        gps_timestamp = get_none (codes "gps_timestamp") location;
        gps_age_seconds = get_none (codes "location_age_sec") location;
        observer_id = str_or (get_none (codes "observer_id") payload) pi_id;
      }
        ∷ []
      else []

  unfoldable pub observations_of : Fields → Text → Items → List NewObservation
  observations_of payload now nil = []
  observations_of payload now (cons (object fs) items) =
      observed payload now fs ++ observations_of payload now items
  observations_of payload now (cons v items) = observations_of payload now items

  abbrev sensors_of : Fields → Text → Json → List NewObservation
  sensors_of payload now (array items) = observations_of payload now items
  sensors_of payload now _ = []

  -- `_record_scan_observations`: the rows behind those that are there, if the write goes through.
  unfoldable pub record_scan_observations :
      Bool → Text → Fields → List NewObservation → List NewObservation
  unfolding observations_of
  record_scan_observations writable now payload rows =
      if writable then rows ++ sensors_of payload now (get_none (codes "sensors") payload) else rows

-- How many rows have the key.
abbrev pub keyed : Text → List TrackedAsset → ℕ
keyed mac rows = length (keep_if (λ a. text_eq mac a.mac) rows)

-- The row of a key: the first one.
abbrev pub asset_at : Text → List TrackedAsset → Option TrackedAsset
asset_at mac [] = none
asset_at mac (a ∷ rows) = if text_eq mac a.mac then some a else asset_at mac rows

-- The last of some rows with a key, or else what was there.
abbrev pub latest_in : Text → List TrackedAsset → Option TrackedAsset → Option TrackedAsset
latest_in mac [] before = before
latest_in mac (a ∷ tracked) before =
    latest_in mac tracked (if text_eq mac a.mac then some a else before)

same_key : (m a b : Text) → text_eq a b ≡ true → text_eq m a ≡ text_eq m b
same_key m a b h = ap (text_eq m) (text_eq_sound a b h)

joined_key : (m a b : Text) → text_eq m a ≡ true → text_eq m b ≡ true → text_eq a b ≡ true
joined_key m a b h k = ap (λ t. text_eq t b) (sym (text_eq_sound m a h)) ∙ k

asset_at-upsert :
    (mac : Text) (a : TrackedAsset) (rows : List TrackedAsset)
    → asset_at mac (upsert a rows) ≡ (if text_eq mac a.mac then some a else asset_at mac rows)
unfolding upsert
asset_at-upsert mac a [] = refl
asset_at-upsert mac a (b ∷ rows) =
    ground (arith, asset_at-upsert mac a rows, same_key mac a.mac b.mac, joined_key mac a.mac b.mac)

-- Whatever rows there are and whatever the registry lists: after the upserts the row of each key is the last one
-- listed with it, and the row of a key that is not listed stays as it was.
asset_at-upsert_all :
    (mac : Text) (tracked rows : List TrackedAsset)
    → asset_at mac (upsert_all tracked rows) ≡ latest_in mac tracked (asset_at mac rows)
unfolding upsert_all
asset_at-upsert_all mac [] rows = refl
asset_at-upsert_all mac (a ∷ tracked) rows =
    asset_at-upsert_all mac tracked (upsert a rows)
    ∙ ap (latest_in mac tracked) (asset_at-upsert mac a rows)
