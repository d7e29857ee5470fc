-- ===== src/Ble/DeviceType.antt =====
-- ble-sensor/main.py: `_device_type_from_metadata`. The metadata are given with their keys and values as texts, and with
-- `json.dumps(metadata).upper()`; case beyond ASCII is a parameter.
pub mod First
pub mod Second
use smart_trucks.Base.{
  ℕ, Bool, true, false, ◌||◌, Option, none, some, or_default, if◌then◌else◌, List, [], ◌∷◌, ◌++◌,
  any_of, map, take,
}
use smart_trucks.Base.Text.{Text, codes, text_eq, contains, join}
use smart_trucks.Anchor.Mac.{canonicalize_mac, upper}
use smart_trucks.Ble.DeviceType.First.{first_ouis}
use smart_trucks.Ble.DeviceType.Second.{second_ouis}

pub record Metadata : Type 0 where
  pub manufacturer_data : List (Text × Text)  -- company id, hex
  pub service_uuids : List Text
  pub dumped_upper : Text

-- `d.get(key)` of a literal dict: of two entries with one key, the later one counts.
unfoldable pub find_oui : Text → List (Text × Text) → Option Text
find_oui oui [] = none
find_oui oui ((k, v) ∷ table) = elim (find_oui oui table) [
  | some w ↦ some w
  | none ↦ if text_eq oui k then some v else none
]

abbrev has_key : Text → List (Text × Text) → Bool
has_key k entries = any_of (λ e. text_eq k e.0) entries

abbrev has_text : Text → List Text → Bool
has_text t texts = any_of (text_eq t) texts

module _ (alnum_beyond : ℕ → Bool) (upper_beyond : ℕ → Text) (lower : Text → Text) where
  -- `KNOWN_OUIS.get(_canonicalize_mac_address(mac)[:8], "Unknown")`
  unfoldable pub vendor_of : Text → Text
  unfolding find_oui
  vendor_of mac =
      or_default
        (find_oui (take 8 (canonicalize_mac alnum_beyond upper_beyond mac))
          (first_ouis ++ second_ouis))
        (codes "Unknown")

  unfoldable pub device_type : Text → Metadata → Text
  unfolding vendor_of
  device_type mac metadata =
      let ids = metadata.manufacturer_data in
      let uuids = map lower metadata.service_uuids in
      let hex = upper alnum_beyond upper_beyond (join (map (λ e. e.1) ids)) in
      if has_key (codes "76") ids
      then codes "Apple"
      else if has_key (codes "117") ids
      then codes "Samsung"
      else if has_key (codes "6") ids
      then codes "Microsoft"
      else if has_key (codes "87") ids
      then codes "Garmin"
      else if has_text (codes "0000fcf1-0000-1000-8000-00805f9b34fb") uuids
      then codes "Google / Android"
      else if has_text (codes "0000fe9f-0000-1000-8000-00805f9b34fb") uuids
      then codes "Garmin"
      else if contains hex (codes "494E54454C4C49")
      then codes "Govee Temp Sensor"
      else if contains metadata.dumped_upper (codes "TEMP_F")
      then codes "Govee Temp Sensor"
      else if contains hex (codes "0201061AFF4C")
      then codes "Apple iBeacon"
      else if contains hex (codes "0201060303AAFE")
      then codes "Eddystone Beacon"
      else vendor_of mac
