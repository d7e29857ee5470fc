-- ===== src/Collector/Track/Sequence.antt =====
-- telematics-edge/main.py: `gps_collector_worker` gives each queued point the next local sequence, and a reader that
-- stalls queues none.
use smart_trucks.Base.{
  ℕ, suc, ◌+◌, true, false, not, Option, none, some, List, [], ◌∷◌, length, length-append, All, ◌≡◌,
  refl, sym, ◌∙◌, ap, subst, arith, if_either,
}
use smart_trucks.Base.Text.{Text, text_eq_refl}
use smart_trucks.Base.Float.{FloatOps}
use smart_trucks.Base.Result.{Result, ok, raise}
use smart_trucks.Gps.Filter.{GpsTrackFilter, GpsFilterResult}
use smart_trucks.Retry.{returned, run_with_retry}
use smart_trucks.Sync.Queue.{gps_points}
use smart_trucks.Db.{
  Database, Columns, gps_columns, committed, inserted, execute_write_with_retry, insert_gps_point,
}
use smart_trucks.Collector.Track.{
  LockedGps, Runtime, TrackEvent, Config, Answers, Collector, point_columns, track_event,
  emit_point, published, publish, filtered, take_fix, is_new, tick_from, tick,
}

module _ (fl : FloatOps) {P : Type 0} (pad8 : ℕ → Text) (encode : TrackEvent fl → P)
    (cfg : Config fl) where
  -- The write of the tick goes through, after some retries or none.
  abbrev pub IsWritten : Answers fl → Type 0
  IsWritten a =
      (run_with_retry cfg.retries.is_negative cfg.retries.count a.attempt).last ≡ returned tt

  abbrev pub point_count : Collector fl P → ℕ
  point_count c = length (c.database.store gps_points)

  -- As many points were queued as sequence numbers given.
  abbrev pub InStep : Collector fl P → Collector fl P → Type 0
  InStep c c' =
      point_count c' + c.runtime.local_sequence ≡ point_count c + c'.runtime.local_sequence

  length-inserted :
      (a : Answers fl) (captured_at : Text) (columns : Columns fl.Float × P)
      (db : Database fl.Float P)
      → IsWritten a
      → length (
          (execute_write_with_retry cfg.retries a.attempt
              (inserted gps_points captured_at columns)
              db).store
            gps_points)
        ≡ suc (length (db.store gps_points))
  unfolding execute_write_with_retry
  length-inserted a captured_at columns db w =
      ap
        (λ e.
          length ((committed db (inserted gps_points captured_at columns db) e).store gps_points))
        w
      ∙ length-append (db.store gps_points) _
      ∙ omega arith

  emit-InStep :
      (a : Answers fl) (raw : LockedGps fl) (r : GpsFilterResult fl) (c : Collector fl P)
      → IsWritten a
      → InStep c (emit_point fl pad8 encode cfg a raw r c)
  unfolding insert_gps_point
  emit-InStep a raw r c w = omega (
    arith,
    length-inserted a a.captured_at
        (
          gps_columns (point_columns fl pad8 encode cfg raw r (c.runtime.local_sequence + 1)),
          encode (track_event fl pad8 encode cfg a raw r (c.runtime.local_sequence + 1)),
        )
        c.database w,
  )

  publish-InStep :
      (a : Answers fl) (raw : LockedGps fl) (f : GpsTrackFilter fl) (r : GpsFilterResult fl)
      (c : Collector fl P)
      → IsWritten a
      → InStep c (publish fl pad8 encode cfg a raw f r c)
  publish-InStep a raw f r c w =
      if_either (InStep c) r.emit
        (λ _. emit-InStep a raw r (published fl pad8 encode cfg a raw f r c) w) (λ _. refl)

  filtered-InStep :
      (a : Answers fl) (raw : LockedGps fl) (c : Collector fl P)
      (out : Result (GpsTrackFilter fl × GpsFilterResult fl))
      → IsWritten a
      → InStep c (filtered fl pad8 encode cfg a raw c out).0
  filtered-InStep a raw c (raise e) w = refl
  filtered-InStep a raw c (ok (f, r)) w = publish-InStep a raw f r c w

  take_fix-InStep :
      (a : Answers fl) (raw : LockedGps fl) (token : Text) (c : Collector fl P)
      → IsWritten a
      → InStep c (take_fix fl pad8 encode cfg a raw token c).0
  unfolding take_fix
  take_fix-InStep a raw token c w =
      filtered-InStep a raw (record c { last_processed_fix_utc = some token }) _ w

  tick_from-InStep :
      (a : Answers fl) (raw : Option (LockedGps fl)) (token : Option Text) (c : Collector fl P)
      → IsWritten a
      → InStep c (tick_from fl pad8 encode cfg a raw token c).0
  tick_from-InStep a (some raw) (some token) c w =
      if_either (λ (r : Collector fl P × ℕ). InStep c r.0) (is_new token c.last_processed_fix_utc)
        (λ _. take_fix-InStep a raw token c w) (λ _. refl)
  tick_from-InStep a (some raw) none c w = refl
  tick_from-InStep a none token c w = refl

  tick-InStep :
      (a : Answers fl) (c : Collector fl P) → IsWritten a → InStep c (tick fl pad8 encode cfg a c).0
  unfolding tick
  tick-InStep a c w =
      if_either (λ (r : Collector fl P × ℕ). InStep c r.0) a.is_parked (λ _. refl)
        λ _. tick_from-InStep a c.runtime.latest_valid_gps c.runtime.last_gps_fix_utc c w

  -- What the reader does between two ticks: it leaves the sequence.
  abbrev pub Reader : Type 0
  Reader = Runtime fl → Runtime fl

  abbrev read_by : Reader → Collector fl P → Collector fl P
  read_by reader c = record c {
    runtime = record (reader c.runtime) { local_sequence = c.runtime.local_sequence };
  }

  -- The worker's ticks, each behind what the reader did.
  unfoldable pub run_ticks : List (Reader × Answers fl) → Collector fl P → Collector fl P
  run_ticks [] c = c
  run_ticks ((reader, a) ∷ more) c = run_ticks more (tick fl pad8 encode cfg a (read_by reader c)).0

  -- Over any run of the worker, whatever the reader does between the ticks and whatever the filter decides, where
  -- every write goes through in the end: as many points are queued as local sequence numbers are given.
  pub run_ticks-InStep :
      (more : List (Reader × Answers fl)) (c : Collector fl P)
      → All (λ t. IsWritten t.1) more
      → InStep c (run_ticks more c)
  unfolding run_ticks
  run_ticks-InStep [] c h = refl
  run_ticks-InStep ((reader, a) ∷ more) c (w, h) = omega (
    arith,
    tick-InStep a (read_by reader c) w,
    run_ticks-InStep more (tick fl pad8 encode cfg a (read_by reader c)).0 h,
  )

  -- Nothing queued, published or filtered.
  abbrev pub Idle : Collector fl P → Collector fl P → Type 0
  Idle c c' =
      (c'.database ≡ c.database)
      × (c'.runtime.local_sequence ≡ c.runtime.local_sequence)
      × (c'.runtime.stabilized_gps ≡ c.runtime.stabilized_gps)
      × (c'.track_filter ≡ c.track_filter)

  old_fix :
      (token : Text) (o : Option Text) → o ≡ some token → is_new token o ≡ true → (true ≡ false)
  old_fix token o h k = sym k ∙ ap (is_new token) h ∙ ap not (text_eq_refl token)

  stalled_from :
      (a : Answers fl) (raw : Option (LockedGps fl)) (c : Collector fl P) (token : Text)
      → c.last_processed_fix_utc ≡ some token
      → Idle c (tick_from fl pad8 encode cfg a raw (some token) c).0
  stalled_from a none c token h = (refl, refl, refl, refl)
  stalled_from a (some raw) c token h =
      if_either (λ (r : Collector fl P × ℕ). Idle c r.0) (is_new token c.last_processed_fix_utc)
        (λ k. let e = old_fix token c.last_processed_fix_utc h k in absurd (cc))
        (λ _. (refl, refl, refl, refl))

  -- A reader that has stalled, its last fix processed already, queues nothing: a tick leaves the database, the
  -- sequence, the published position and the filter as they are, however old the fix is.
  pub tick_stalled :
      (a : Answers fl) (c : Collector fl P) (token : Text)
      → c.runtime.last_gps_fix_utc ≡ some token
      → c.last_processed_fix_utc ≡ some token
      → Idle c (tick fl pad8 encode cfg a c).0
  unfolding tick
  tick_stalled a c token e h =
      if_either (λ (r : Collector fl P × ℕ). Idle c r.0) a.is_parked (λ _. (refl, refl, refl, refl))
        λ _.
          subst (λ t. Idle c (tick_from fl pad8 encode cfg a c.runtime.latest_valid_gps t c).0)
            (sym e) (stalled_from a c.runtime.latest_valid_gps c token h)
