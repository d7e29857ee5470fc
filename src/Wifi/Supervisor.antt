-- ===== src/Wifi/Supervisor.antt =====
-- wifi-provisioner/main.py: `State` and the loop of `supervisor`. A turn takes the answers of the socket probes, the
-- readings of `time.monotonic()` in ticks, and whether the portal set the event during a sleep; the calls of
-- nmcli run on NetworkManager's state, which `State` carries here.
pub mod Grace
use smart_trucks.Base.{
  ℕ, ◌+◌, ◌-◌, Bool, true, false, ◌&&◌, ◌||◌, not, ltb, Option, if◌then◌else◌, List, [], ◌∷◌, take,
  any_of,
}
use smart_trucks.Base.Text.{Text}
use smart_trucks.Base.Result.{Result, ok, raise}
use smart_trucks.Wifi.Networks.{
  NetworkManager, KnownNetwork, list_known_networks, reconnect_saved_networks, start_hotspot,
  stop_hotspot,
}

pub record Config : Type 0 where
  pub setup_ssid : Text
  pub setup_psk : Option Text
  pub setup_pin : Text
  pub grace_seconds : ℕ
  pub hotspot_retry_probe_seconds : ℕ
  pub dry_run : Bool

pub record State (N : Type 0) : Type 0 where
  pub last_up_monotonic : ℕ
  pub hotspot_active : Bool
  pub last_save_message : Option Text
  pub rejoin_event : Bool
  pub network_manager : N

-- What a turn meets, in the order of the code.
pub record Turn : Type 0 where
  pub connected : Bool
  pub now : ℕ  -- the reading behind the first probe
  pub idle_woke : Bool
  pub settle_probes : List Bool
  pub settled_at : ℕ
  pub retry_woke : Bool
  pub probing_from : ℕ
  pub rejoin_probes : List (ℕ × Bool)  -- the loop's reading, and the probe after its sleep
  pub rejoined_at : ℕ

-- The `while` loop of the rejoin: the readings stop where one is past the deadline.
unfoldable pub rejoin_loop : ℕ → List (ℕ × Bool) → Bool
rejoin_loop deadline [] = false
rejoin_loop deadline ((now, connected) ∷ probes) =
    let rest = rejoin_loop deadline probes in if ltb now deadline then connected || rest else false

-- The polls behind a reconnect.
abbrev pub settled : Turn → Bool
settled t = any_of (λ b. b) (take 5 t.settle_probes)

module _ (nm : NetworkManager) where
  abbrev pub Host : Type 0
  Host = State nm.State

  abbrev after_call : {A : Type 0} → Host → nm.State × Result A → Host
  after_call s (n, r) = record s { network_manager = n }

  -- `_sleep_or_wake`: an event that is set already ends the sleep at once.
  unfoldable pub sleep_or_wake : Bool → Host → Host × Bool
  sleep_or_wake woke s =
      if s.rejoin_event || woke then (record s { rejoin_event = false }, true) else (s, false)

  abbrev has_any : Result (List KnownNetwork) → Bool
  has_any (ok []) = false
  has_any (ok (n ∷ ns)) = true
  has_any (raise e) = false

  -- `_has_saved_client_profile`
  unfoldable pub has_saved_client_profile : Host → Host × Bool
  has_saved_client_profile s =
      let r = list_known_networks nm s.network_manager in (after_call s r, has_any r.1)

  abbrev pub try_reconnect : Host → Host × Bool
  try_reconnect s =
      let r = reconnect_saved_networks nm s.network_manager in
      (after_call s r, elim r.1 [ ok b ↦ b | raise e ↦ false ])

  abbrev started : Host → nm.State × Result Text → Host
  started s (n, ok out) = record s { hotspot_active = true; network_manager = n }
  started s (n, raise e) = record s { network_manager = n }

  -- `_start_hotspot`
  unfoldable pub start_setup : Config → Host → Host
  start_setup cfg s =
      let cleared = record s { rejoin_event = false } in
      if cfg.dry_run
      then record cleared { hotspot_active = true }
      else started cleared (start_hotspot nm cfg.setup_ssid cfg.setup_psk s.network_manager)

  -- `_stop_hotspot`
  unfoldable pub stop_setup : Host → Host
  stop_setup s = record (after_call s (stop_hotspot nm s.network_manager)) {
    hotspot_active = false;
  }

  -- With the hotspot up, or not raised after all: wait, drop it, and try to rejoin.
  unfoldable pub rejoin : Config → Turn → Host → Host
  unfolding rejoin_loop sleep_or_wake stop_setup start_setup
  rejoin cfg t s =
      let tried = (try_reconnect (stop_setup (sleep_or_wake t.retry_woke s).0)).0 in
      if rejoin_loop (t.probing_from + cfg.hotspot_retry_probe_seconds) t.rejoin_probes
      then record tried { last_up_monotonic = t.rejoined_at }
      else start_setup cfg tried

  -- Offline past the grace with no hotspot: a saved network, or the hotspot.
  unfoldable pub first_raise : Config → Turn → Host → Host
  unfolding rejoin start_setup has_saved_client_profile sleep_or_wake
  first_raise cfg t s =
      let listed = has_saved_client_profile s in
      let tried = try_reconnect listed.0 in
      if not listed.1
      then rejoin cfg t (start_setup cfg listed.0)
      else if tried.1 && settled t
      then (sleep_or_wake t.idle_woke (record tried.0 { last_up_monotonic = t.settled_at })).0
      else rejoin cfg t (start_setup cfg tried.0)

  -- One turn of the loop of `supervisor`.
  unfoldable pub turn : Config → Turn → Host → Host
  unfolding first_raise rejoin stop_setup sleep_or_wake
  turn cfg t s =
      let up = record s { last_up_monotonic = t.now } in
      if t.connected
      then (sleep_or_wake t.idle_woke (if s.hotspot_active then stop_setup up else up)).0
      else if not s.hotspot_active && ltb (t.now - s.last_up_monotonic) cfg.grace_seconds
      then (sleep_or_wake t.idle_woke s).0
      else if s.hotspot_active
      then rejoin cfg t s
      else first_raise cfg t s
