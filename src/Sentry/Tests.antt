-- ===== src/Sentry/Tests.antt =====
-- Tests of Sentry Mode at concrete inputs.
use smart_trucks.Base.{true, false, ltb, List, [], ◌∷◌, ◌≡◌, refl, arith}
use smart_trucks.Sentry.Controller.{Call, apply, apply_all, failed_clear_strands}
use smart_trucks.Sentry.Worker.{World, State, cycles, boot}
use smart_trucks.Sentry.Shadow.{ShadowedEnd, boot_cycles_shadowed}

-- A truck that is idle until motion at 500.
abbrev yard : World
yard = record {
  idle_timeout = 100;
  wake_interval = 10;
  flush_grace = 20;
  active = λ t. ltb 499 t;
  charging = λ t. false;
  wifi = λ t. false;
  io_ok = λ t. true;
  lag = λ t. 0;
}

abbrev asleep : State
asleep = record {
  sentry_active = true;
  sentry_since_set = true;
  idle_since = 100;
  parked_mode = true;
  park_wake = false;
  announced = 1;
  controller = record { prev_suspended = true; flag_present = true };
}

boot_cycles_shadowed_example : ShadowedEnd (cycles yard 60 5 (boot yard 5 true))
boot_cycles_shadowed_example = boot_cycles_shadowed yard (omega arith) (λ t. refl) 60 5 true

abbrev calls : List Call
calls =
    record { io_ok = true; desired = true }
    ∷ record { io_ok = false; desired = false }
    ∷ record { io_ok = true; desired = false }
    ∷ []

abbrev awake_calls : List Call
awake_calls =
    record { io_ok = true; desired = false } ∷ record { io_ok = true; desired = false } ∷ []

failed_clear_strands_example :
    (apply_all awake_calls
      (apply false false (record { prev_suspended = true; flag_present = true })).0).0
    ≡ record { prev_suspended = false; flag_present = true }
failed_clear_strands_example =
    failed_clear_strands awake_calls (record { prev_suspended = true; flag_present = true }) refl
      refl (refl, (refl, tt))
