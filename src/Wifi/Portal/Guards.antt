-- ===== src/Wifi/Portal/Guards.antt =====
-- wifi-provisioner/main.py: what the portal's answers promise, and the service's runs: turns of the supervisor
-- and requests in any order.
use smart_trucks.Base.{
  ℕ, Bool, true, false, ◌&&◌, ◌||◌, not, ◌==◌, none, ◌∷◌, [], ◌≡◌, refl, arith, if_either,
}
use smart_trucks.Base.Text.{Text, text_eq, text_eq_sound, strip}
use smart_trucks.Base.Int.{ℤ}
use smart_trucks.Base.Result.{Result, PyError, ok, raise}
use smart_trucks.Wifi.Networks.{
  NetworkManager, is_blank, int_or_zero, add_network, delete_network, hotspot_profile,
  list_known_networks, scan_visible_networks,
}
use smart_trucks.Wifi.Supervisor.{Config, Turn, Host, turn}
use smart_trucks.Wifi.Supervisor.Grace.{InTime, Graced, turn-Graced}
use smart_trucks.Wifi.Portal.{Form, Response}
use smart_trucks.Wifi.Portal.Html.{render_portal}
use smart_trucks.Wifi.Portal.Handlers.{
  field_of, check_pin, psk_fits, psk_of, index, after_add, add_from, add_handler, after_delete,
  delete_from, delete_handler,
}

not-false : (b : Bool) → not b ≡ false → b ≡ true
not-false b h = ground arith

check_pin_sound : (cfg : Config) (pin : Text) → check_pin cfg pin ≡ true → pin ≡ cfg.setup_pin
unfolding check_pin
check_pin_sound cfg [] h = cc
check_pin_sound cfg (c ∷ pin) h = text_eq_sound (c ∷ pin) cfg.setup_pin h

module _ (nm : NetworkManager) (cfg : Config) (vehicle_id template : Text)
    (said : PyError → Text) where
  -- NetworkManager's state once a page is rendered, which lists and scans.
  abbrev pub viewed : Host nm → nm.State
  viewed s = (scan_visible_networks nm (list_known_networks nm s.network_manager).0).0

  -- A response to a request from `s`: status 200 only for an accepted one, which alone may wake the
  -- supervisor; a refused one does no more than render a page;
  -- and none touches when the host was online or whether the hotspot is up.
  abbrev pub Guarded : Type 0 → Bool → Host nm → Host nm × Response → Type 0
  Guarded Accepted wakes s answer =
      (answer.1.status == 200 ≡ true → Accepted)
      × (answer.0.rejoin_event ≡ (s.rejoin_event || wakes && answer.1.status == 200))
      × ((answer.1.status == 400 || answer.1.status == 401) ≡ true
          → answer.0.network_manager ≡ viewed s)
      × (answer.0.last_up_monotonic ≡ s.last_up_monotonic)
      × (answer.0.hotspot_active ≡ s.hotspot_active)

  same : (b : Bool) (wakes : Bool) → b ≡ (b || wakes && false)
  same b wakes = ground arith

  woken : (b : Bool) → true ≡ (b || true)
  woken b = ground arith

  calm : (b : Bool) → b ≡ (b || false)
  calm b = ground arith

  -- The form's fields are in order.
  abbrev pub Savable : Text → Text → Text → Type 0
  Savable ssid psk pin = (pin ≡ cfg.setup_pin) × (is_blank ssid ≡ false) × (psk_fits psk ≡ true)

  after_add-Guarded :
      (A : Type 0) (ssid : Text) (s : Host nm) (r : nm.State × Result Text)
      → A
      → Guarded A true s (after_add nm cfg vehicle_id template said ssid s r)
  unfolding render_portal
  after_add-Guarded A ssid s (n, ok out) a =
      (λ _. a, woken s.rejoin_event, λ h. absurd (cc), refl, refl)
  after_add-Guarded A ssid s (n, raise e) a =
      (λ h. absurd (cc), same s.rejoin_event true, λ h. absurd (cc), refl, refl)

  add_from-Guarded :
      (ssid psk : Text) (priority : ℤ) (pin : Text) (s : Host nm)
      → Guarded
          (Savable ssid psk pin)
          true
          s
          (add_from nm cfg vehicle_id template said ssid psk priority pin s)
  unfolding add_from render_portal
  add_from-Guarded ssid psk priority pin s =
      let P = Guarded (Savable ssid psk pin) true s in
      if_either P (not (check_pin cfg pin))
        (λ _. (λ h. absurd (cc), same s.rejoin_event true, λ _. refl, refl, refl))
        λ p.
          if_either P (is_blank ssid)
            (λ _. (λ h. absurd (cc), same s.rejoin_event true, λ _. refl, refl, refl))
            λ n.
              if_either P (not (psk_fits psk))
                (λ _. (λ h. absurd (cc), same s.rejoin_event true, λ _. refl, refl, refl))
                λ f.
                  if_either P cfg.dry_run
                    (λ _. (
                      λ _. (check_pin_sound cfg pin (not-false _ p), n, not-false _ f),
                      woken s.rejoin_event,
                      λ h. absurd (cc),
                      refl,
                      refl,
                    ))
                    λ _.
                      after_add-Guarded (Savable ssid psk pin) ssid s
                        (add_network nm ssid (psk_of psk) (nm.str_int priority) s.network_manager)
                        (check_pin_sound cfg pin (not-false _ p), n, not-false _ f)

  -- Whatever nmcli answers to a request of the form to save a network: it answers 200 only if the PIN is the
  -- configured one, the SSID is not blank and the password, if any, has 8 to 63 characters; exactly then it
  -- wakes the supervisor; and an answer of 400 or 401 leaves NetworkManager as rendering the page does, with
  -- nothing saved. When the host was last online and whether the hotspot is up stay as they were.
  pub add_handler-Guarded :
      (form : Form) (s : Host nm)
      → Guarded
          (Savable (strip (field_of form.ssid)) (strip (field_of form.psk)) (field_of form.pin))
          true
          s
          (add_handler nm cfg vehicle_id template said form s)
  unfolding add_handler
  add_handler-Guarded form s =
      add_from-Guarded (strip (field_of form.ssid)) (strip (field_of form.psk))
        (int_or_zero nm (field_of form.priority)) (field_of form.pin) s

  abbrev pub Deletable : Text → Text → Type 0
  Deletable name pin =
      (pin ≡ cfg.setup_pin)
      × (is_blank name ≡ false)
      × (cfg.dry_run ≡ false → text_eq name hotspot_profile ≡ false)

  after_delete-Guarded :
      (A : Type 0) (name : Text) (s : Host nm) (r : nm.State × Result Text)
      → A
      → Guarded A false s (after_delete nm cfg vehicle_id template said name s r)
  unfolding render_portal
  after_delete-Guarded A name s (n, ok out) a =
      (λ _. a, calm s.rejoin_event, λ h. absurd (cc), refl, refl)
  after_delete-Guarded A name s (n, raise e) a =
      (λ h. absurd (cc), calm s.rejoin_event, λ h. absurd (cc), refl, refl)

  delete_from-Guarded :
      (name pin : Text) (s : Host nm)
      → Guarded
          (Deletable name pin)
          false
          s
          (delete_from nm cfg vehicle_id template said name pin s)
  unfolding delete_from render_portal delete_network
  delete_from-Guarded name pin s =
      let P = Guarded (Deletable name pin) false s in
      if_either P (not (check_pin cfg pin))
        (λ _. (λ h. absurd (cc), calm s.rejoin_event, λ _. refl, refl, refl))
        λ p.
          if_either P (is_blank name)
            (λ _. (λ h. absurd (cc), calm s.rejoin_event, λ _. refl, refl, refl))
            λ n.
              if_either P cfg.dry_run
                (λ d. (
                  λ _. (check_pin_sound cfg pin (not-false _ p), n, λ e. absurd (cc)),
                  calm s.rejoin_event,
                  λ h. absurd (cc),
                  refl,
                  refl,
                ))
                λ _.
                  if_either (λ r. P (after_delete nm cfg vehicle_id template said name s r))
                    (text_eq name hotspot_profile)
                    (λ _. (λ h. absurd (cc), calm s.rejoin_event, λ h. absurd (cc), refl, refl))
                    λ e.
                      after_delete-Guarded (Deletable name pin) name s _
                        (check_pin_sound cfg pin (not-false _ p), n, λ _. e)

  -- Whatever nmcli answers to a request of the form to forget a network: it answers 200 only if the PIN is
  -- the configured one and the name is not blank nor, outside a dry run, the setup hotspot's; it never
  -- wakes the supervisor; and an answer of 400 or 401 leaves NetworkManager as rendering the page does. When
  -- the host was last online and whether the hotspot is up stay as they were.
  delete_handler-Guarded :
      (form : Form) (s : Host nm)
      → Guarded
          (Deletable (strip (field_of form.name)) (field_of form.pin))
          false
          s
          (delete_handler nm cfg vehicle_id template said form s)
  unfolding delete_handler
  delete_handler-Guarded form s =
      delete_from-Guarded (strip (field_of form.name)) (field_of form.pin) s

  -- The service from its start, by the clock.
  pub data Runs : ℕ → Host nm → Type 0 where
    booted :
        (c : ℕ) (n : nm.State)
        → Runs c (record {
          last_up_monotonic = c;
          hotspot_active = false;
          last_save_message = none;
          rejoin_event = false;
          network_manager = n;
        })
    turned :
        {c : ℕ} {s : Host nm} (t : Turn) (e : ℕ)
        → Runs c s
        → InTime c t e
        → Runs e (turn nm cfg t s)
    index_asked :
        {c : ℕ} {s : Host nm} → Runs c s → Runs c (index nm cfg vehicle_id template said s).0
    add_asked :
        {c : ℕ} {s : Host nm} (form : Form)
        → Runs c s
        → Runs c (add_handler nm cfg vehicle_id template said form s).0
    delete_asked :
        {c : ℕ} {s : Host nm} (form : Form)
        → Runs c s
        → Runs c (delete_handler nm cfg vehicle_id template said form s).0

  -- In every run of the service, with requests to the portal between the turns, whatever nmcli and the probes
  -- answer: the setup hotspot is up only if the host was last known online at least the grace time ago.
  pub Runs-Graced : {c : ℕ} {s : Host nm} → Runs c s → Graced nm cfg c s
  unfolding index render_portal
  Runs-Graced (booted c n) = (omega arith, λ h. absurd (cc))
  Runs-Graced (turned {c} {s} t e r i) = turn-Graced nm cfg c t e s i (Runs-Graced r)
  Runs-Graced (index_asked r) = Runs-Graced r
  Runs-Graced (add_asked {c} {s} form r) =
      let (a, w, v, up, active) = add_handler-Guarded form s in rw (up, active) (Runs-Graced r)
  Runs-Graced (delete_asked {c} {s} form r) =
      let (a, w, v, up, active) = delete_handler-Guarded form s in rw (up, active) (Runs-Graced r)
