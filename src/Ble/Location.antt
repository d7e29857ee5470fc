-- ===== src/Ble/Location.antt =====
-- ble-sensor/main.py: the Pi's own location, `_collect_pi_location`. A source is given by what it reads, and by
-- whether it raises or times out; `_parse_iso_utc` and the clock's age in whole seconds are parameters.
use smart_trucks.Base.{
  ℕ, Bool, true, false, leb, ◌≤◌, leb→le, Option, none, some, if◌then◌else◌, List, [], ◌∷◌, ◌≡◌,
  refl,
}
use smart_trucks.Base.Text.{Text, codes}
use smart_trucks.Base.Int.{ℤ, pos, negsuc}
use smart_trucks.Base.Result.{Result, ok, raise}
use smart_trucks.Anchor.Json.{Json, null, text, object, Fields, get_none, truthy}

-- Latitude, longitude and time, as read.
pub record LastLocked : Type 0 where
  pub latitude : Json
  pub longitude : Json
  pub gps_timestamp : Json

pub record PiLocation : Type 0 where
  pub latitude : Json
  pub longitude : Json
  pub is_locked : Bool  -- `fix_status`: "locked", or "stale_or_unknown"
  pub gps_timestamp : Json
  pub location_age_sec : Option ℕ

-- `_empty_pi_location`
abbrev pub empty_pi_location : PiLocation
empty_pi_location = record {
  latitude = null;
  longitude = null;
  is_locked = false;
  gps_timestamp = null;
  location_age_sec = none;
}

-- `max(0, n)`
abbrev at_least_zero : ℤ → ℕ
at_least_zero (pos n) = n
at_least_zero (negsuc n) = 0

abbrev json_or : Json → Json → Json
json_or a b = if truthy a then a else b

abbrev unless_null : Json → Json → Json
unless_null null b = b
unless_null a b = a

-- `_read_pi_location_from_cache`, of a file that is there and parses
unfoldable pub from_cache : Json → Option LastLocked
from_cache (object fs) = some (record {
  latitude = unless_null (get_none (codes "latitude") fs) (get_none (codes "lat") fs);
  longitude = unless_null (get_none (codes "longitude") fs) (get_none (codes "lon") fs);
  gps_timestamp =
      json_or (get_none (codes "gps_timestamp") fs) (get_none (codes "captured_at_utc") fs);
})
from_cache _ = none

-- A locked row of `gps_points`, in the order of its query; its `payload_json` parsed, if it parses.
pub record LockedPoint : Type 0 where
  pub lat : Json
  pub lon : Json
  pub captured_at_utc : Text
  pub payload : Option Json

abbrev stamped_by : Fields → Json → Json
stamped_by fs captured = json_or (get_none (codes "gps_timestamp") fs) captured

abbrev location_stamp : Json → Fields → Json → Json
location_stamp (object location) fs captured = stamped_by location captured
location_stamp _ fs captured = stamped_by fs captured

abbrev payload_stamp : Option Json → Json → Json
payload_stamp (some (object fs)) captured =
    location_stamp (get_none (codes "location") fs) fs captured
payload_stamp _ captured = captured

-- `_read_last_locked_gps_from_db`, of the rows from the newest on
unfoldable pub from_db : List LockedPoint → Option LastLocked
from_db [] = none
from_db (p ∷ ps) = some (record {
  latitude = p.lat;
  longitude = p.lon;
  gps_timestamp = payload_stamp p.payload (text p.captured_at_utc);
})

module _ (stale_after : ℕ) (age : Json → Option ℤ) where
  abbrev aged : LastLocked → Option ℤ → PiLocation
  aged l none = record {
    latitude = l.latitude;
    longitude = l.longitude;
    is_locked = false;
    gps_timestamp = l.gps_timestamp;
    location_age_sec = none;
  }
  aged l (some a) = record {
    latitude = l.latitude;
    longitude = l.longitude;
    is_locked = leb (at_least_zero a) stale_after;
    gps_timestamp = l.gps_timestamp;
    location_age_sec = some (at_least_zero a);
  }

  -- `_pi_location_from_last_locked`
  unfoldable pub pi_location_from_last_locked : LastLocked → PiLocation
  pi_location_from_last_locked l = aged l (age l.gps_timestamp)

  -- A source that raises or times out counts as one that finds nothing.
  abbrev found : Result (Option LastLocked) → Option LastLocked
  found (ok l) = l
  found (raise e) = none

  abbrev located : Option LastLocked → PiLocation
  located none = empty_pi_location
  located (some l) = pi_location_from_last_locked l

  abbrev or_else : Option LastLocked → Option LastLocked → Option LastLocked
  or_else none b = b
  or_else (some l) b = some l

  -- `_collect_pi_location`: the cache first, and then the database.
  unfoldable pub collect_pi_location :
      Result (Option LastLocked) → Result (Option LastLocked) → PiLocation
  unfolding pi_location_from_last_locked
  collect_pi_location cache db = located (or_else (found cache) (found db))

  -- A location's fix is fresh: locked only with an age in range.
  abbrev pub IsFresh : PiLocation → Type 0
  IsFresh p = p.is_locked ≡ true → (a : ℕ) × (p.location_age_sec ≡ some a) × (a ≤ stale_after)

  aged-IsFresh : (l : LastLocked) (a : Option ℤ) → IsFresh (aged l a)
  aged-IsFresh l none h = absurd (cc)
  aged-IsFresh l (some a) h = (at_least_zero a, refl, leb→le (at_least_zero a) stale_after h)

  located-IsFresh : (l : Option LastLocked) → IsFresh (located l)
  unfolding pi_location_from_last_locked
  located-IsFresh none h = absurd (cc)
  located-IsFresh (some l) h = aged-IsFresh l (age l.gps_timestamp) h

  -- Whatever the cache and the database give, an error or a timeout included: the location that a scan is sent
  -- with says "locked" only with an age that is known and within the staleness limit.
  collect_pi_location-IsFresh :
      (cache db : Result (Option LastLocked)) → IsFresh (collect_pi_location cache db)
  unfolding collect_pi_location
  collect_pi_location-IsFresh cache db = located-IsFresh (or_else (found cache) (found db))
