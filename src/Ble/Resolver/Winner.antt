-- ===== src/Ble/Resolver/Winner.antt =====
-- ble-sensor/main.py: whom a resolution names, and over how many candidates.
use smart_trucks.Base.{
  ℕ, suc, ◌≤◌, Bool, true, false, ◌||◌, not, Option, none, some, List, [], ◌∷◌, length, any_of,
  length-take, ◌≡◌, refl, sym, ◌∙◌, ap, arith, if_either,
}
use smart_trucks.Base.Text.{Text, text_eq, text_eq_refl}
use smart_trucks.Base.Float.{FloatOps}
use smart_trucks.Base.Sort.{sort_by, any_of-sort_by, length-sort_by}
use smart_trucks.Ble.Observers.{Candidate}
use smart_trucks.Ble.Resolver.{
  close_to, resolve_rows, Times, Observation, Settings, Method, stationary_hold, highest_score,
  Resolution, candidates_of, add_candidate, ranked_before, Choice, own_choice, tie_break,
  centroid_or, held_or, choose, priors_of, resolution_of, rows_of, resolve_asset, latest_of,
}

-- A text is the one named.
abbrev pub names : Option Text → Text → Bool
names none pi = false
names (some t) pi = text_eq t pi

abbrev pub is_hold : Method → Bool
is_hold stationary_hold = true
is_hold _ = false

or_true : (b : Bool) → (b || true) ≡ true
or_true b = ground arith

module _ (fl : FloatOps) (times : Times fl.Float) (set : Settings fl.Float) where
  abbrev Cand : Type 0
  Cand = Candidate fl.Float

  -- A choice among candidates: held from before, or one of theirs.
  abbrev Fair : List Cand → Choice fl times set → Type 0
  Fair cs c = (is_hold c.method || any_of (λ d. names c.pi_id d.pi_id) cs) ≡ true

  tie_break-Fair :
      (w second : Cand) (more : List Cand)
      → Fair (w ∷ second ∷ more) (tie_break fl times set w second)
  tie_break-Fair w second more = ground (arith, text_eq_refl w.pi_id, text_eq_refl second.pi_id)

  own-Fair :
      (w : Cand) (more : List Cand)
      → Fair (w ∷ more) (own_choice fl times set w highest_score (some w.pi_id))
  own-Fair w more = rw (text_eq_refl w.pi_id) refl

  held_or-Fair :
      (w second : Cand) (more : List Cand) (priors : List (Resolution fl.Float))
      → Fair (w ∷ second ∷ more) (held_or fl times set w second priors)
  held_or-Fair w second more [] = tie_break-Fair w second more
  held_or-Fair w second more (p ∷ ps) = refl

  centroid_or-Fair :
      (w second : Cand) (more : List Cand) (a b c d : Option fl.Float)
      → Fair (w ∷ second ∷ more) (centroid_or fl times set w second a b c d)
  centroid_or-Fair w second more none b c d = tie_break-Fair w second more
  centroid_or-Fair w second more (some a) none c d = tie_break-Fair w second more
  centroid_or-Fair w second more (some a) (some b) none d = tie_break-Fair w second more
  centroid_or-Fair w second more (some a) (some b) (some c) none = tie_break-Fair w second more
  centroid_or-Fair w second more (some a) (some b) (some c) (some d) =
      rw (text_eq_refl w.pi_id) refl

  choose-Fair :
      (priors : List (Resolution fl.Float)) (w : Cand) (more : List Cand)
      → Fair (w ∷ more) (choose fl times set priors w more)
  unfolding choose
  choose-Fair priors w [] = own-Fair w []
  choose-Fair priors w (second ∷ more) =
      if_either (Fair (w ∷ second ∷ more)) (not (close_to fl times set w.score second.score))
        (λ _. own-Fair w (second ∷ more))
        λ _.
          if_either (Fair (w ∷ second ∷ more)) set.is_stationary
            (λ _. held_or-Fair w second more priors)
            (λ _.
              centroid_or-Fair w second more w.latitude w.longitude second.latitude
                second.longitude)

  added :
      (now latest : times.Time) (o : Observation fl.Float) (at : Option times.Time) (cs : List Cand)
      (os : List (Observation fl.Float)) (p : Text → Bool)
      → (any_of (λ c. p c.pi_id) cs ≡ true → any_of (λ o. p o.pi_id) os ≡ true)
      → any_of (λ c. p c.pi_id) (add_candidate fl times set now latest o at cs) ≡ true
      → any_of (λ o. p o.pi_id) (o ∷ os) ≡ true
  added now latest o none cs os p h k = rw (h k) (or_true (p o.pi_id))
  added now latest o (some at) cs os p h k = ground (arith, h)

  -- A candidate's Pi is that of a row.
  of_row :
      (now latest : times.Time) (os : List (Observation fl.Float)) (p : Text → Bool)
      → any_of (λ c. p c.pi_id) (candidates_of fl times set now latest os) ≡ true
      → any_of (λ o. p o.pi_id) os ≡ true
  unfolding candidates_of
  of_row now latest [] p h = h
  of_row now latest (o ∷ os) p h =
      added now latest o (times.parse o.captured_at_utc) (candidates_of fl times set now latest os)
        os p (of_row now latest os p) h

  no_more :
      (now latest : times.Time) (o : Observation fl.Float) (at : Option times.Time) (cs : List Cand)
      → length (add_candidate fl times set now latest o at cs) ≤ suc (length cs)
  no_more now latest o none cs = omega arith
  no_more now latest o (some at) cs = ground arith

  length-candidates_of :
      (now latest : times.Time) (os : List (Observation fl.Float))
      → length (candidates_of fl times set now latest os) ≤ length os
  unfolding candidates_of
  length-candidates_of now latest [] = omega arith
  length-candidates_of now latest (o ∷ os) = omega (
    arith,
    no_more now latest o (times.parse o.captured_at_utc) (candidates_of fl times set now latest os),
    length-candidates_of now latest os,
  )

  -- What a resolution of an asset says, given the rows that are read for it.
  abbrev pub IsResolved : List (Observation fl.Float) → Option (Resolution fl.Float) → Type 0
  IsResolved rows none = Unit
  IsResolved rows (some r) =
      (1 ≤ r.candidate_count)
      × (r.candidate_count ≤ 200)
      × ((is_hold r.method || any_of (λ o. names r.pi_id o.pi_id) rows) ≡ true)

  fair_rows : (b x y : Bool) → (b || x) ≡ true → (x ≡ true → y ≡ true) → (b || y) ≡ true
  fair_rows true x y h k = refl
  fair_rows false x y h k = k h

  IsResolved-from :
      (now latest : times.Time) (now_text mac : Text) (next_id : ℕ)
      (resolved : List (Resolution fl.Float)) (rows : List (Observation fl.Float))
      (sorted : List Cand)
      → length rows ≤ 200
      → sort_by (ranked_before fl times set) (candidates_of fl times set now latest rows) ≡ sorted
      → IsResolved rows (
          resolution_of fl times set now_text mac next_id resolved
            (candidates_of fl times set now latest rows)
            sorted)
  IsResolved-from now latest now_text mac next_id resolved rows [] b e = tt
  IsResolved-from now latest now_text mac next_id resolved rows (w ∷ more) b e =
      let cs = candidates_of fl times set now latest rows in
      let c = choose fl times set (priors_of fl times set mac resolved) w more in
      let n = sym (length-sort_by (ranked_before fl times set) cs) ∙ ap length e in
      (
        omega (arith, n),
        omega (arith, length-candidates_of now latest rows),
        fair_rows (is_hold c.method) (any_of (λ d. names c.pi_id d.pi_id) (w ∷ more)) _
            (choose-Fair (priors_of fl times set mac resolved) w more)
            λ h. of_row now latest rows (names c.pi_id) (
              sym (any_of-sort_by (ranked_before fl times set) (λ d. names c.pi_id d.pi_id) cs)
              ∙ ap (any_of (λ d. names c.pi_id d.pi_id)) e
              ∙ h),
      )

  rows-IsResolved :
      (now : times.Time) (now_text : Text) (next_id : ℕ) (resolved : List (Resolution fl.Float))
      (mac : Text) (rows : List (Observation fl.Float)) (latest : Option times.Time)
      → length rows ≤ 200
      → IsResolved rows (resolve_rows fl times set now now_text next_id resolved mac rows latest)
  rows-IsResolved now now_text next_id resolved mac rows none b = tt
  rows-IsResolved now now_text next_id resolved mac rows (some latest) b =
      IsResolved-from now latest now_text mac next_id resolved rows _ b refl

  -- Whatever the rows say: an asset that is resolved has from 1 to 200 candidates, and the Pi that it is placed at is
  -- that of one of its newest 200 rows, unless the place of an earlier resolution is held.
  pub resolve_asset-IsResolved :
      (now : times.Time) (now_text : Text) (seen : List (Observation fl.Float)) (next_id : ℕ)
      (resolved : List (Resolution fl.Float)) (mac : Text)
      → IsResolved
          (rows_of fl times set mac seen)
          (resolve_asset fl times set now now_text seen next_id resolved mac)
  unfolding resolve_asset
  resolve_asset-IsResolved now now_text seen next_id resolved mac =
      rows-IsResolved now now_text next_id resolved mac (rows_of fl times set mac seen)
        (latest_of fl times set (rows_of fl times set mac seen)) (length-take 200 _)
