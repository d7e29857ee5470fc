-- ===== src/Nmea/Position.antt =====
-- telematics-edge/nmea_reader.py: what the reading's position can be, and what a lost fix does.
use smart_trucks.Base.{
  Bool, true, false, ◌&&◌, ltb, Option, none, some, List, [], ◌∷◌, ◌≡◌, refl, arith, All,
}
use smart_trucks.Base.Float.{FloatOps}
use smart_trucks.Nmea.{
  Sentence, rmc, gga, gsa, gll, vtg, other_sentence, Reading, has_non_zero_coordinates,
  update_reading, update_all, is_valid_fix,
}

module _ (fl : FloatOps) where
  open fl use {Float}

  -- Both coordinates or none, and none of them 0.
  abbrev pub paired : Option Float → Option Float → Bool
  paired none none = true
  paired none (some lon) = false
  paired (some lat) lon = has_non_zero_coordinates fl (some lat) lon

  -- A sentence that sets the position.
  abbrev pub locates : Sentence fl → Bool
  locates (rmc is_active lat lon course knots) = is_active && has_non_zero_coordinates fl lat lon
  locates (gga quality sats lat lon alt dilution) =
      ltb 0 quality && has_non_zero_coordinates fl lat lon
  locates (gll is_active lat lon) = is_active && has_non_zero_coordinates fl lat lon
  locates (gsa mode dilution) = false
  locates (vtg kmh) = false
  locates other_sentence = false

  paired_some :
      (lat lon : Option Float) → has_non_zero_coordinates fl lat lon ≡ true → paired lat lon ≡ true
  unfolding has_non_zero_coordinates
  paired_some (some lat) lon h = h
  paired_some none lon h = cc

  update-paired :
      (s : Sentence fl) (r : Reading fl)
      → paired r.latitude r.longitude ≡ true
      → paired (update_reading fl s r).latitude (update_reading fl s r).longitude ≡ true
  unfolding update_reading
  update-paired (rmc is_active lat lon course knots) r h = ground (arith, paired_some lat lon)
  update-paired (gga quality sats lat lon alt dilution) r h = ground (arith, paired_some lat lon)
  update-paired (gsa mode dilution) r h = h
  update-paired (gll is_active lat lon) r h = ground (arith, paired_some lat lon)
  update-paired (vtg kmh) r h = h
  update-paired other_sentence r h = h

  -- From a reading whose coordinates are both absent or both present and not 0, any sentences lead to such a
  -- reading: a position is never half set, and never that of the null island.
  update_all-paired :
      (ss : List (Sentence fl)) (r : Reading fl)
      → paired r.latitude r.longitude ≡ true
      → paired (update_all fl ss r).latitude (update_all fl ss r).longitude ≡ true
  unfolding update_all
  update_all-paired [] r h = h
  update_all-paired (s ∷ ss) r h =
      update_all-paired ss (update_reading fl s r) (update-paired s r h)

  unlocated :
      (s : Sentence fl) (r : Reading fl)
      → locates s ≡ false
      → r.latitude ≡ none
      → (update_reading fl s r).latitude ≡ none
  unfolding update_reading
  unlocated (rmc is_active lat lon course knots) r l h = ground arith
  unlocated (gga quality sats lat lon alt dilution) r l h = ground arith
  unlocated (gsa mode dilution) r l h = h
  unlocated (gll is_active lat lon) r l h = ground arith
  unlocated (vtg kmh) r l h = h
  unlocated other_sentence r l h = h

  unlocated_run :
      (ss : List (Sentence fl)) (r : Reading fl)
      → All (λ s. locates s ≡ false) ss
      → r.latitude ≡ none
      → (update_all fl ss r).latitude ≡ none
  unfolding update_all
  unlocated_run [] r l h = h
  unlocated_run (s ∷ ss) r (l, ls) h =
      unlocated_run ss (update_reading fl s r) ls (unlocated s r l h)

  no_latitude :
      (r : Reading fl) → r.latitude ≡ none → is_valid_fix fl r.latitude r.longitude r ≡ false
  unfolding is_valid_fix
  no_latitude r h = rw h refl

  voided :
      (r : Reading fl) (lat lon course knots : Option Float)
      → (update_reading fl (rmc false lat lon course knots) r).latitude ≡ none
  unfolding update_reading
  voided r lat lon course knots = refl

  -- After an RMC sentence that is void, whatever the reading was, no fix is valid until a sentence sets
  -- a position again: any others in between, a GSA or GGA that claims a fix included, leave it invalid.
  pub void_invalidates :
      (r : Reading fl) (lat lon course knots : Option Float) (ss : List (Sentence fl))
      → All (λ s. locates s ≡ false) ss
      → let end = update_all fl ss (update_reading fl (rmc false lat lon course knots) r) in
        is_valid_fix fl end.latitude end.longitude end ≡ false
  void_invalidates r lat lon course knots ss l =
      no_latitude _ (unlocated_run ss _ l (voided r lat lon course knots))
