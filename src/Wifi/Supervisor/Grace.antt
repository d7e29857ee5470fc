-- ===== src/Wifi/Supervisor/Grace.antt =====
-- wifi-provisioner/main.py: `supervisor` and the grace time. The host is up at a reading of the clock, and the
-- setup hotspot is raised only when it has been offline for the grace time.
use smart_trucks.Base.{
  ℕ, ◌+◌, ◌-◌, ◌≤◌, Bool, true, false, ◌&&◌, not, ltb, if◌then◌else◌, ◌≡◌, refl, arith, if_either,
}
use smart_trucks.Base.Result.{Result, ok, raise}
use smart_trucks.Base.Text.{Text}
use smart_trucks.Wifi.Networks.{NetworkManager, start_hotspot}
use smart_trucks.Wifi.Supervisor.{
  Config, Turn, Host, rejoin_loop, sleep_or_wake, has_saved_client_profile, try_reconnect, started,
  start_setup, stop_setup, rejoin, settled, first_raise, turn,
}

-- The clock never goes back during a turn that begins after `c` and ends by `e`.
abbrev pub InTime : ℕ → Turn → ℕ → Type 0
InTime c t e =
    (c ≤ t.now)
    × (t.now ≤ t.settled_at)
    × (t.settled_at ≤ e)
    × (t.now ≤ t.rejoined_at)
    × (t.rejoined_at ≤ e)

module _ (nm : NetworkManager) (cfg : Config) where
  -- At clock `c`: the host was last known online by then, and with the hotspot up that is at least the grace
  -- time ago.
  abbrev pub Graced : ℕ → Host nm → Type 0
  Graced c s =
      (s.last_up_monotonic ≤ c)
      × (s.hotspot_active ≡ true → s.last_up_monotonic + cfg.grace_seconds ≤ c)

  -- Offline for the grace time, whether the hotspot is up or not.
  abbrev Overdue : ℕ → Host nm → Type 0
  Overdue c s = s.last_up_monotonic + cfg.grace_seconds ≤ c

  slept-up :
      (w : Bool) (s : Host nm) → (sleep_or_wake nm w s).0.last_up_monotonic ≡ s.last_up_monotonic
  unfolding sleep_or_wake
  slept-up w s = ground arith

  slept-active :
      (w : Bool) (s : Host nm) → (sleep_or_wake nm w s).0.hotspot_active ≡ s.hotspot_active
  unfolding sleep_or_wake
  slept-active w s = ground arith

  started-up :
      (s : Host nm) (r : nm.State × Result Text)
      → (started nm s r).last_up_monotonic ≡ s.last_up_monotonic
  started-up s (n, ok out) = refl
  started-up s (n, raise e) = refl

  start-up : (s : Host nm) → (start_setup nm cfg s).last_up_monotonic ≡ s.last_up_monotonic
  unfolding start_setup
  start-up s =
      if_either (λ (h : Host nm). h.last_up_monotonic ≡ s.last_up_monotonic) cfg.dry_run (λ _. refl)
        λ _.
          started-up (record s { rejoin_event = false })
            (start_hotspot nm cfg.setup_ssid cfg.setup_psk s.network_manager)

  start-Graced : (c : ℕ) (s : Host nm) → Overdue c s → Graced c (start_setup nm cfg s)
  start-Graced c s o = rw (start-up s) (omega (arith, o), λ _. o)

  -- Once online or asleep, with the hotspot down.
  down-Graced :
      (c : ℕ) (w : Bool) (s : Host nm)
      → s.last_up_monotonic ≤ c
      → s.hotspot_active ≡ false
      → Graced c (sleep_or_wake nm w s).0
  down-Graced c w s l d = rw (slept-up w s, slept-active w s) (l, λ h. absurd (cc))

  slept-Graced : (c : ℕ) (w : Bool) (s : Host nm) → Graced c s → Graced c (sleep_or_wake nm w s).0
  slept-Graced c w s g = rw (slept-up w s, slept-active w s) g

  rejoin-Graced :
      (c : ℕ) (t : Turn) (s : Host nm)
      → Overdue c s
      → t.rejoined_at ≤ c
      → Graced c (rejoin nm cfg t s)
  unfolding rejoin stop_setup
  rejoin-Graced c t s o l =
      let tried = (try_reconnect nm (stop_setup nm (sleep_or_wake nm t.retry_woke s).0)).0 in
      if_either (Graced c)
        (rejoin_loop (t.probing_from + cfg.hotspot_retry_probe_seconds) t.rejoin_probes)
        (λ r. (l, λ h. absurd (cc))) (λ r. start-Graced c tried (rw (slept-up t.retry_woke s) o))

  first_raise-Graced :
      (c : ℕ) (t : Turn) (s : Host nm)
      → Overdue c s
      → s.hotspot_active ≡ false
      → t.settled_at ≤ c
      → t.rejoined_at ≤ c
      → Graced c (first_raise nm cfg t s)
  unfolding first_raise has_saved_client_profile
  first_raise-Graced c t s o d k l =
      let listed = (has_saved_client_profile nm s).0 in
      let tried = (try_reconnect nm listed).0 in
      if_either (Graced c) (not (has_saved_client_profile nm s).1)
        (λ n. rejoin-Graced c t (start_setup nm cfg listed) (rw (start-up listed) o) l)
        (λ n.
          if_either (Graced c) ((try_reconnect nm listed).1 && settled t)
            (λ r. down-Graced c t.idle_woke (record tried { last_up_monotonic = t.settled_at }) k d)
            (λ r. rejoin-Graced c t (start_setup nm cfg tried) (rw (start-up tried) o) l))

  overdue :
      (t : Turn) (s : Host nm)
      → s.last_up_monotonic ≤ t.now
      → ltb (t.now - s.last_up_monotonic) cfg.grace_seconds ≡ false
      → Overdue t.now s
  overdue t s b w = ground arith

  -- The hotspot put down where the host is online.
  abbrev put_down : Turn → Host nm → Host nm
  put_down t s =
      let up = record s { last_up_monotonic = t.now } in
      if s.hotspot_active then stop_setup nm up else up

  IsDown : Turn → Host nm → Type 0
  IsDown t s = (s.hotspot_active ≡ false) × (s.last_up_monotonic ≡ t.now)

  put_down-IsDown : (t : Turn) (s : Host nm) → IsDown t (put_down t s)
  unfolding stop_setup IsDown
  put_down-IsDown t s = if_either (IsDown t) s.hotspot_active (λ a. (refl, refl)) (λ a. (a, refl))

  -- Whatever nmcli and the probes answer, a turn keeps the grace: after it the host was last known online by
  -- then, and the setup hotspot is up only if that is at least the grace time ago.
  pub turn-Graced :
      (c : ℕ) (t : Turn) (e : ℕ) (s : Host nm)
      → InTime c t e
      → Graced c s
      → Graced e (turn nm cfg t s)
  unfolding turn IsDown
  turn-Graced c t e s (i, k, l, m, o) (b, g) =
      if_either (Graced e) t.connected
        (λ u.
          down-Graced e t.idle_woke (put_down t s) (omega (arith, (put_down-IsDown t s).1))
            ((put_down-IsDown t s).0))
        (λ u.
          if_either (Graced e)
            (not s.hotspot_active && ltb (t.now - s.last_up_monotonic) cfg.grace_seconds)
            (λ w. slept-Graced e t.idle_woke s (omega arith, λ h. omega (arith, g h)))
            (λ w.
              if_either (Graced e) s.hotspot_active
                (λ a. rejoin-Graced e t s (omega (arith, g a)) o)
                (λ a.
                  first_raise-Graced e t s (omega (arith, overdue t s (omega arith) (waited a w))) a
                    l o)))
    where
      waited :
          s.hotspot_active ≡ false
          → (not s.hotspot_active && ltb (t.now - s.last_up_monotonic) cfg.grace_seconds) ≡ false
          → ltb (t.now - s.last_up_monotonic) cfg.grace_seconds ≡ false
      waited a w = rw a at w

  -- A turn whose first probe finds the host online ends with the setup hotspot down and the clock's reading as the last
  -- time online, whatever nmcli answers.
  turn_online :
      (t : Turn) (s : Host nm)
      → t.connected ≡ true
      → ((turn nm cfg t s).hotspot_active ≡ false) × ((turn nm cfg t s).last_up_monotonic ≡ t.now)
  unfolding turn IsDown
  turn_online t s u =
      rw (u, slept-active t.idle_woke (put_down t s), slept-up t.idle_woke (put_down t s))
        (put_down-IsDown t s)
