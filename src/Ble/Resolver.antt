-- ===== src/Ble/Resolver.antt =====
-- ble-sensor/main.py: `_resolve_tracked_asset_positions`. Floats and times are parameters: a time is what the text of a
-- row parses to, if it does, and a difference of times is in seconds.
pub mod Winner
pub mod Filed
use smart_trucks.Base.{
  ℕ, zero, suc, ◌+◌, ◌-◌, ◌/◌, ◌%◌, Bool, true, false, ◌&&◌, ◌||◌, not, leb, ◌==◌, Option, none,
  some, or_default, is_some, if◌then◌else◌, List, [], ◌∷◌, ◌++◌, length, take, keep_if, map,
}
use smart_trucks.Base.Text.{Text, text_eq, text_le}
use smart_trucks.Base.Int.{ℤ, pos, negsuc, leℤ, ◌+ℤ◌}
use smart_trucks.Base.Float.{FloatOps, max, min}
use smart_trucks.Base.Sort.{sort_by}
use smart_trucks.Ble.Observers.{Candidate, rank_observers}

-- The parser of times.
pub record Times (F : Type 0) : Type 1 where
  pub Time : Type 0
  pub parse : Text → Option Time
  pub since : Time → Time → F  -- `(a - b).total_seconds()`

-- A row of `ble_device_observations`; `observer_id` is the row's, or else the Pi's.
pub record Observation (F : Type 0) : Type 0 where
  pub id : ℕ
  pub captured_at_utc : Text
  pub pi_id : Text
  pub mac : Text  -- tracked_mac_normalized
  pub rssi : Option ℤ
  pub latitude : Option F
  pub longitude : Option F
  pub gps_age_seconds : Option ℕ
  pub observer_id : Text

-- `max(-100, min(-30, rssi)) + 100`, for -100 where there is none
unfoldable pub bounded_rssi : Option ℤ → ℕ
bounded_rssi none = 0
bounded_rssi (some (pos n)) = 70
bounded_rssi (some (negsuc n)) = if leb 99 n then 0 else if leb n 29 then 70 else 99 - n

pub record Settings (F : Type 0) : Type 0 where
  pub candidate_window_seconds : ℕ  -- resolver_candidate_window_seconds
  pub stale_after_seconds : ℕ  -- pi_location_stale_after_seconds
  pub tie_epsilon : F  -- resolver_tie_epsilon
  pub is_stationary : Bool  -- resolver_stationary_mode_enabled
  pub vehicle_id : Text

-- `resolution_method`
pub data Method : Type 0 where
  highest_score stationary_hold centroid_top2 lexicographic_pi_tiebreak : Method

-- A row of `tracked_asset_resolutions`.
pub record Resolution (F : Type 0) : Type 0 where
  pub id : ℕ
  pub captured_at_utc : Text
  pub mac : Text
  pub vehicle_id : Text
  pub pi_id : Option Text
  pub latitude : Option F
  pub longitude : Option F
  pub method : Method
  pub candidate_count : ℕ
  pub confidence_score : F
  pub nearest_observer_id : Option Text
  pub observer_count : ℕ

-- `ORDER BY captured_at_utc DESC, id DESC`
abbrev pub newest_first : {F : Type 0} → Observation F → Observation F → Bool
newest_first a b =
    if text_eq a.captured_at_utc b.captured_at_utc
    then leb b.id a.id
    else text_le b.captured_at_utc a.captured_at_utc

abbrev newest_resolution : {F : Type 0} → Resolution F → Resolution F → Bool
newest_resolution a b =
    if text_eq a.captured_at_utc b.captured_at_utc
    then leb b.id a.id
    else text_le b.captured_at_utc a.captured_at_utc

module _ (fl : FloatOps) (times : Times fl.Float) (set : Settings fl.Float) where
  open fl use {Float, lit, add, sub, mul, div, lt, le, eq}
  open times use {Time, parse, since}

  -- The literal n/10.
  abbrev tenths : ℕ → Float
  tenths n = div (lit n) (lit 10)

  abbrev freshness : Float → ℕ → Float
  freshness age window =
      max fl (lit 0) (sub (lit 1) (div age (lit (if leb 1 window then window else 1))))

  abbrev gps_freshness : Option ℕ → Float
  gps_freshness none = lit 0
  gps_freshness (some age) = freshness (lit age) set.stale_after_seconds

  -- `_score_candidate`
  unfoldable pub score_candidate : Option ℤ → Float → Option ℕ → Float
  unfolding bounded_rssi
  score_candidate rssi scan_age gps_age =
      let rssi_score = div (lit (bounded_rssi rssi)) (lit 70) in
      let scan_score = freshness scan_age set.candidate_window_seconds in
      let gps_score = gps_freshness gps_age in
      add (add (mul (tenths 5) rssi_score) (mul (tenths 3) scan_score)) (mul (tenths 2) gps_score)

  abbrev pub candidate_at : Time → Observation Float → Time → Candidate Float
  candidate_at now o at = record {
    captured_at_utc = o.captured_at_utc;
    pi_id = o.pi_id;
    latitude = o.latitude;
    longitude = o.longitude;
    score = score_candidate o.rssi (max fl (lit 0) (since now at)) o.gps_age_seconds;
    rssi = o.rssi;
    observer_id = o.observer_id;
  }

  abbrev pub add_candidate :
      Time
      → Time
      → Observation Float
      → Option Time
      → List (Candidate Float)
      → List (Candidate Float)
  add_candidate now latest o none cs = cs
  add_candidate now latest o (some at) cs =
      if lt (lit set.candidate_window_seconds) (since latest at)
      then cs
      else candidate_at now o at ∷ cs

  -- The rows of the window behind the newest one.
  unfoldable pub candidates_of : Time → Time → List (Observation Float) → List (Candidate Float)
  unfolding score_candidate
  candidates_of now latest [] = []
  candidates_of now latest (o ∷ os) =
      add_candidate now latest o (parse o.captured_at_utc) (candidates_of now latest os)

  -- `(-score, pi_id, captured_at_utc)` of `a` is not above that of `b`.
  abbrev pub ranked_before : Candidate Float → Candidate Float → Bool
  ranked_before a b =
      if lt b.score a.score
      then true
      else if eq a.score b.score
      then (if text_eq a.pi_id b.pi_id
          then text_le a.captured_at_utc b.captured_at_utc
          else text_le a.pi_id b.pi_id)
      else false

  -- What is resolved: the Pi, the coordinates, and how.
  pub record Choice : Type 0 where
    pub pi_id : Option Text
    pub latitude : Option Float
    pub longitude : Option Float
    pub method : Method

  abbrev pub own_choice : Candidate Float → Method → Option Text → Choice
  own_choice w method pi = record {
    pi_id = pi;
    latitude = w.latitude;
    longitude = w.longitude;
    method = method;
  }

  abbrev lesser : Text → Text → Text
  lesser a b = if text_le a b then a else b

  abbrev pub tie_break : Candidate Float → Candidate Float → Choice
  tie_break w second = own_choice w lexicographic_pi_tiebreak (some (lesser w.pi_id second.pi_id))

  abbrev middle : Float → Float → Float
  middle a b = div (add a b) (lit 2)

  abbrev pub centroid_or :
      Candidate Float
      → Candidate Float
      → Option Float
      → Option Float
      → Option Float
      → Option Float
      → Choice
  centroid_or w second (some a) (some b) (some c) (some d) = record {
    pi_id = some w.pi_id;
    latitude = some (middle a c);
    longitude = some (middle b d);
    method = centroid_top2;
  }
  centroid_or w second _ _ _ _ = tie_break w second

  abbrev pub held_or : Candidate Float → Candidate Float → List (Resolution Float) → Choice
  held_or w second [] = tie_break w second
  held_or w second (prior ∷ more) = record {
    pi_id = some (or_default prior.pi_id w.pi_id);
    latitude = prior.latitude;
    longitude = prior.longitude;
    method = stationary_hold;
  }

  abbrev pub close_to : Float → Float → Bool
  close_to a b = let d = sub a b in le (if lt d (lit 0) then sub (lit 0) d else d) set.tie_epsilon

  -- The winner, with the second where it ties.
  unfoldable pub choose :
      List (Resolution Float) → Candidate Float → List (Candidate Float) → Choice
  choose priors w [] = own_choice w highest_score (some w.pi_id)
  choose priors w (second ∷ more) =
      if not (close_to w.score second.score)
      then own_choice w highest_score (some w.pi_id)
      else if set.is_stationary
      then held_or w second priors
      else centroid_or w second w.latitude w.longitude second.latitude second.longitude

  abbrev pub priors_of : Text → List (Resolution Float) → List (Resolution Float)
  priors_of mac resolved =
      take 1 (sort_by newest_resolution (keep_if (λ r. text_eq r.mac mac) resolved))

  abbrev pub resolution_of :
      Text
      → Text
      → ℕ
      → List (Resolution Float)
      → List (Candidate Float)
      → List (Candidate Float)
      → Option (Resolution Float)
  resolution_of now_text mac next_id resolved cs [] = none
  resolution_of now_text mac next_id resolved cs (w ∷ more) =
      let c = choose (priors_of mac resolved) w more in
      some (record {
        id = next_id;
        captured_at_utc = now_text;
        mac = mac;
        vehicle_id = set.vehicle_id;
        pi_id = c.pi_id;
        latitude = c.latitude;
        longitude = c.longitude;
        method = c.method;
        candidate_count = length cs;
        confidence_score = max fl (lit 0) (min fl (lit 1) w.score);
        nearest_observer_id = (rank_observers cs).0;
        observer_count = (rank_observers cs).1;
      })

  abbrev pub rows_of : Text → List (Observation Float) → List (Observation Float)
  rows_of mac seen = take 200 (sort_by newest_first (keep_if (λ o. text_eq o.mac mac) seen))

  abbrev pub latest_of : List (Observation Float) → Option Time
  latest_of [] = none
  latest_of (o ∷ os) = parse o.captured_at_utc

  abbrev pub resolve_rows :
      Time
      → Text
      → ℕ
      → List (Resolution Float)
      → Text
      → List (Observation Float)
      → Option Time
      → Option (Resolution Float)
  resolve_rows now now_text next_id resolved mac rows none = none
  resolve_rows now now_text next_id resolved mac rows (some latest) =
      let cs = candidates_of now latest rows in
      resolution_of now_text mac next_id resolved cs (sort_by ranked_before cs)

  -- The body of the loop over the tracked assets: the new row, unless there is nothing to resolve.
  unfoldable pub resolve_asset :
      Time
      → Text
      → List (Observation Float)
      → ℕ
      → List (Resolution Float)
      → Text
      → Option (Resolution Float)
  unfolding candidates_of choose rank_observers
  resolve_asset now now_text seen next_id resolved mac =
      resolve_rows now now_text next_id resolved mac (rows_of mac seen)
        (latest_of (rows_of mac seen))

  abbrev pub with_new :
      Option (Resolution Float) → List (Resolution Float) → List (Resolution Float)
  with_new none resolved = resolved
  with_new (some r) resolved = resolved ++ r ∷ []

  abbrev pub next_after : Option (Resolution Float) → ℕ → ℕ
  next_after none n = n
  next_after (some r) n = suc n

  -- `_resolve_tracked_asset_positions`, over the active assets of the registry, each with the reading of the
  -- clock at its insert.
  unfoldable pub resolve_positions :
      Time
      → List (Observation Float)
      → ℕ
      → List (Text × Text)
      → List (Resolution Float)
      → List (Resolution Float)
  unfolding resolve_asset
  resolve_positions now seen next_id [] resolved = resolved
  resolve_positions now seen next_id ((mac, now_text) ∷ assets) resolved =
      let r = resolve_asset now now_text seen next_id resolved mac in
      resolve_positions now seen (next_after r next_id) assets (with_new r resolved)
