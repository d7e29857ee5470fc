-- ===== src/Power/Engine/Poweroff.antt =====
-- power-monitor/main.py: when `state_engine_loop` asks the host to power off.
use smart_trucks.Base.{
  ◌+◌, ◌≤◌, ◌<◌, leb, true, false, ◌&&◌, not, if◌then◌else◌, List, [], ◌∷◌, ◌≡◌, refl, arith,
  length, keep_if, All,
}
use smart_trucks.Base.Float.{FloatOps}
use smart_trucks.Power.Flags.{Payload, Config, evaluate_shutdown_recovery}
use smart_trucks.Power.Engine.{Engine, breaches, step, run}

module _ (fl : FloatOps) (cfg : Config fl) where
  requested_stays :
      (e : Engine fl) (ps : List (Payload fl))
      → e.shutdown_requested ≡ true
      → (run fl cfg e ps).0.shutdown_requested ≡ true
  unfolding run step
  requested_stays e [] h = h
  requested_stays e (p ∷ ps) h = ground (arith, requested_stays (step fl cfg e p).0 ps)

  -- Once a poweroff has been requested no event requests another, whatever the command answered.
  no_second_request :
      (e : Engine fl) (ps : List (Payload fl))
      → e.shutdown_requested ≡ true
      → (run fl cfg e ps).1 ≡ 0
  unfolding run step
  no_second_request e [] h = refl
  no_second_request e (p ∷ ps) h = ground (arith, no_second_request (step fl cfg e p).0 ps)

  -- Over any events at all the host is asked to power off at most once, and asked just when the flag
  -- `shutdown_requested` was clear before and is set after.
  pub one_request :
      (e : Engine fl) (ps : List (Payload fl))
      → (run fl cfg e ps).1
        ≡ (if (run fl cfg e ps).0.shutdown_requested && not e.shutdown_requested then 1 else 0)
  unfolding run step
  one_request e [] = ground arith
  one_request e (p ∷ ps) = ground (
    arith,
    one_request (step fl cfg e p).0 ps,
    no_second_request (step fl cfg e p).0 ps,
    requested_stays (step fl cfg e p).0 ps,
  )

  -- A request takes as many breaching samples as the policy asks for, counting those that the debounce
  -- counter already holds.
  request_needs_breaches :
      (e : Engine fl) (ps : List (Payload fl))
      → 1 ≤ (run fl cfg e ps).1
      → cfg.shutdown_consecutive_samples
        ≤ e.low_battery_counter + length (keep_if (breaches fl cfg) ps)
  unfolding run step
  request_needs_breaches e [] h = absurd (omega arith)
  request_needs_breaches e (p ∷ ps) h =
      ground (arith, request_needs_breaches (step fl cfg e p).0 ps)

  -- If no poweroff was requested before, a run of at least one sample, all breaching, that together
  -- with the debounce counter is as long as the policy asks for makes exactly one request.
  pub sustained_breach_requests :
      (e : Engine fl) (p : Payload fl) (ps : List (Payload fl))
      → e.shutdown_requested ≡ false
      → All (λ q. breaches fl cfg q ≡ true) (p ∷ ps)
      → cfg.shutdown_consecutive_samples ≤ e.low_battery_counter + length (p ∷ ps)
      → (run fl cfg e (p ∷ ps)).1 ≡ 1
  unfolding run step
  sustained_breach_requests e p [] f (b, bs) n = ground arith
  sustained_breach_requests e p (q ∷ ps) f (b, bs) n = ground (
    arith,
    sustained_breach_requests (step fl cfg e p).0 q ps,
    no_second_request (step fl cfg e p).0 (q ∷ ps),
  )

  -- A sample without a breach does not recover either.
  abbrev pub IsUnrecovered : Payload fl → Type 0
  IsUnrecovered q = breaches fl cfg q ≡ false → evaluate_shutdown_recovery fl cfg q ≡ false

  -- Over such samples the counter counts the breaches.
  counter_counts :
      (e : Engine fl) (ps : List (Payload fl))
      → All IsUnrecovered ps
      → (run fl cfg e ps).0.low_battery_counter
        ≡ e.low_battery_counter + length (keep_if (breaches fl cfg) ps)
  unfolding run step
  counter_counts e [] u = omega arith
  counter_counts e (p ∷ ps) (r, rs) = ground (arith, r, counter_counts (step fl cfg e p).0 ps rs)

  -- Breaching samples need not be consecutive: if no poweroff was requested before, the debounce counter is below its
  -- limit, and no sample without a breach recovers, then one poweroff is requested if the counter and the number of
  -- breaching samples, scattered as they may be, make up the limit, and otherwise none; and the counter holds
  -- their sum.
  pub scattered_breaches_request :
      (e : Engine fl) (ps : List (Payload fl))
      → e.shutdown_requested ≡ false
      → e.low_battery_counter < cfg.shutdown_consecutive_samples
      → All IsUnrecovered ps
      → ((run fl cfg e ps).1 ≡ (
          if leb cfg.shutdown_consecutive_samples
            (e.low_battery_counter + length (keep_if (breaches fl cfg) ps))
          then 1
          else 0))
        × ((run fl cfg e ps).0.low_battery_counter
            ≡ e.low_battery_counter + length (keep_if (breaches fl cfg) ps))
  unfolding run step
  scattered_breaches_request e [] f l u = (ground arith, omega arith)
  scattered_breaches_request e (p ∷ ps) f l (r, rs) = ground (
    arith,
    r,
    scattered_breaches_request (step fl cfg e p).0 ps,
    no_second_request (step fl cfg e p).0 ps,
    counter_counts (step fl cfg e p).0 ps rs,
  )
