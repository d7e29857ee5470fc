-- ===== src/Ble/Resolver/Filed.antt =====
-- ble-sensor/main.py: the rows that a run of `_resolve_tracked_asset_positions` adds, over all tracked assets.
use smart_trucks.Base.{
  ℕ, suc, Bool, true, false, Option, none, some, is_some, List, [], ◌∷◌, ◌++◌, length, append_assoc,
  append-nil, ◌≡◌, refl, sym, ◌∙◌, ap, arith,
}
use smart_trucks.Base.Text.{Text}
use smart_trucks.Base.Float.{FloatOps}
use smart_trucks.Base.Sort.{sort_by, length-sort_by}
use smart_trucks.Ble.Observers.{Candidate}
use smart_trucks.Ble.Resolver.{
  resolve_rows, Times, Observation, Settings, Resolution, candidates_of, candidate_at,
  ranked_before, resolution_of, rows_of, resolve_asset, latest_of, next_after, with_new,
  resolve_positions,
}
use smart_trucks.Ble.Resolver.Winner.{IsResolved, resolve_asset-IsResolved}

module _ (fl : FloatOps) (times : Times fl.Float) (set : Settings fl.Float) where
  open fl use {Float, lit, lt}
  open times use {Time, parse, since}

  -- A time is in the window behind itself.
  abbrev pub Sane : Type 0
  Sane = (t : Time) → lt (lit set.candidate_window_seconds) (since t t) ≡ false

  -- The row is of the asset, made at that time and under that id.
  abbrev pub IsStamped : Text → Text → ℕ → Resolution Float → Type 0
  IsStamped mac now_text id r = (r.mac ≡ mac) × (r.captured_at_utc ≡ now_text) × (r.id ≡ id)

  -- The newest of the rows has a time that can be read.
  abbrev pub is_readable : List (Observation Float) → Bool
  is_readable rows = is_some (latest_of fl times set rows)

  -- A resolved asset has a stamped row, and it has a newest one with a time that can be read just if it is resolved.
  abbrev Outcome : Text → Text → ℕ → List (Observation Float) → Option (Resolution Float) → Type 0
  Outcome mac now_text id rows none = is_readable rows ≡ false
  Outcome mac now_text id rows (some r) = (is_readable rows ≡ true) × IsStamped mac now_text id r

  sorted-Outcome :
      (now_text mac : Text) (id : ℕ) (resolved : List (Resolution Float))
      (rows : List (Observation Float)) (cs sorted : List (Candidate Float)) (c : Candidate Float)
      → is_readable rows ≡ true
      → sort_by (ranked_before fl times set) (c ∷ cs) ≡ sorted
      → Outcome mac now_text id rows
          (resolution_of fl times set now_text mac id resolved (c ∷ cs) sorted)
  sorted-Outcome now_text mac id resolved rows cs [] c v e =
      absurd (omega (arith, length-sort_by (ranked_before fl times set) (c ∷ cs), ap length e))
  sorted-Outcome now_text mac id resolved rows cs (w ∷ more) c v e = (v, (refl, refl, refl))

  -- The newest row is a candidate.
  candidates_newest :
      (now latest : Time) (o : Observation Float) (os : List (Observation Float))
      → Sane
      → parse o.captured_at_utc ≡ some latest
      → candidates_of fl times set now latest (o ∷ os)
        ≡ candidate_at fl times set now o latest ∷ candidates_of fl times set now latest os
  unfolding candidates_of
  candidates_newest now latest o os sane e = rw (e, sane latest) refl

  rows-Outcome :
      (now : Time) (now_text : Text) (id : ℕ) (resolved : List (Resolution Float)) (mac : Text)
      (rows : List (Observation Float)) (latest : Option Time)
      → Sane
      → latest_of fl times set rows ≡ latest
      → Outcome mac now_text id rows
          (resolve_rows fl times set now now_text id resolved mac rows latest)
  rows-Outcome now now_text id resolved mac rows none sane e = ap is_some e
  rows-Outcome now now_text id resolved mac [] (some latest) sane e = absurd (cc)
  rows-Outcome now now_text id resolved mac (o ∷ os) (some latest) sane e =
      rw (candidates_newest now latest o os sane e) (
        sorted-Outcome now_text mac id resolved (o ∷ os) (candidates_of fl times set now latest os)
          _ (candidate_at fl times set now o latest) (ap is_some e) refl)

  asset-Outcome :
      (now : Time) (now_text : Text) (seen : List (Observation Float)) (id : ℕ)
      (resolved : List (Resolution Float)) (mac : Text)
      → Sane
      → Outcome mac now_text id
          (rows_of fl times set mac seen)
          (resolve_asset fl times set now now_text seen id resolved mac)
  unfolding resolve_asset
  asset-Outcome now now_text seen id resolved mac sane =
      rows-Outcome now now_text id resolved mac (rows_of fl times set mac seen) _ sane refl

  -- The rows that are added for the assets in turn, from an id on.
  pub data Filed (seen : List (Observation Float))
      : List (Text × Text) → ℕ → List (Resolution Float) → Type 0 where
    all_filed : (n : ℕ) → Filed seen [] n []
    unreadable :
        {mac now_text : Text} {assets : List (Text × Text)} {n : ℕ} {rs : List (Resolution Float)}
        → is_readable (rows_of fl times set mac seen) ≡ false
        → Filed seen assets n rs
        → Filed seen ((mac, now_text) ∷ assets) n rs
    filed :
        {mac now_text : Text} {assets : List (Text × Text)} {n : ℕ} {rs : List (Resolution Float)}
        {r : Resolution Float}
        → is_readable (rows_of fl times set mac seen) ≡ true
        → IsStamped mac now_text n r
        → IsResolved fl times set (rows_of fl times set mac seen) (some r)
        → Filed seen assets (suc n) rs
        → Filed seen ((mac, now_text) ∷ assets) n (r ∷ rs)

  -- The table is as it was, with filed rows behind.
  pub record Extended (seen : List (Observation Float)) (assets : List (Text × Text)) (n : ℕ)
      (resolved out : List (Resolution Float)) : Type 0 where
    new_rows : List (Resolution Float)
    appended : out ≡ resolved ++ new_rows
    in_turn : Filed seen assets n new_rows

  after_asset :
      (seen : List (Observation Float)) (mac now_text : Text) (assets : List (Text × Text)) (n : ℕ)
      (resolved out : List (Resolution Float)) (r : Option (Resolution Float))
      → Outcome mac now_text n (rows_of fl times set mac seen) r
      → IsResolved fl times set (rows_of fl times set mac seen) r
      → Extended seen assets (next_after fl times set r n) (with_new fl times set r resolved) out
      → Extended seen ((mac, now_text) ∷ assets) n resolved out
  after_asset seen mac now_text assets n resolved out none o i x = record {
    new_rows = x.new_rows;
    appended = x.appended;
    in_turn = unreadable o x.in_turn;
  }
  after_asset seen mac now_text assets n resolved out (some r) o i x = record {
    new_rows = r ∷ x.new_rows;
    appended = x.appended ∙ append_assoc resolved (r ∷ []) x.new_rows;
    in_turn = filed o.0 o.1 i x.in_turn;
  }

  -- Where a time is in the window behind itself: a run keeps every earlier resolution, and behind them adds, in the
  -- assets' order and under consecutive ids, one row for each asset whose newest observation has a readable
  -- time and none for the others. Each added row is stamped with its asset and time, has from 1 to 200
  -- candidates, and names the Pi of one of the asset's newest 200 observations unless it holds an earlier one.
  pub resolve_positions-Extended :
      (now : Time) (seen : List (Observation Float)) (n : ℕ) (assets : List (Text × Text))
      (resolved : List (Resolution Float))
      → Sane
      → Extended seen assets n resolved (resolve_positions fl times set now seen n assets resolved)
  unfolding resolve_positions
  resolve_positions-Extended now seen n [] resolved sane = record {
    new_rows = [];
    appended = sym (append-nil resolved);
    in_turn = all_filed n;
  }
  resolve_positions-Extended now seen n ((mac, now_text) ∷ assets) resolved sane =
      let r = resolve_asset fl times set now now_text seen n resolved mac in
      after_asset seen mac now_text assets n resolved _ r
        (asset-Outcome now now_text seen n resolved mac sane)
        (resolve_asset-IsResolved fl times set now now_text seen n resolved mac)
        (resolve_positions-Extended now seen (next_after fl times set r n) assets
          (with_new fl times set r resolved) sane)
