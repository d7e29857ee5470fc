-- ===== src/Wifi/Portal/Handlers.antt =====
-- wifi-provisioner/main.py: the handlers of `build_portal_app`, between two awaits of the supervisor. The page's
-- template is a parameter; `Save failed: {exc}` shows what NetworkManager said, another parameter.
use smart_trucks.Base.{
  ℕ, Bool, true, false, ◌&&◌, not, leb, Option, none, some, or_default, if◌then◌else◌, [], ◌∷◌,
  ◌++◌, length,
}
use smart_trucks.Base.Text.{Text, codes, text_eq, strip, join}
use smart_trucks.Base.Int.{ℤ}
use smart_trucks.Base.Result.{Result, PyError, ok, raise}
use smart_trucks.Wifi.Networks.{NetworkManager, is_blank, int_or_zero, add_network, delete_network}
use smart_trucks.Wifi.Supervisor.{Config, Host}
use smart_trucks.Wifi.Portal.{Form, Response}
use smart_trucks.Wifi.Portal.Html.{Banner, message, error, no_banner, render_portal}

-- `form.get(key) or ""`
abbrev pub field_of : Option Text → Text
field_of v = or_default v []

-- `_check_pin`
unfoldable pub check_pin : Config → Text → Bool
check_pin cfg supplied = if is_blank supplied then false else text_eq supplied cfg.setup_pin

-- `8 <= len(psk) <= 63`, unless there is none
abbrev pub psk_fits : Text → Bool
psk_fits [] = true
psk_fits (c ∷ psk) = leb 8 (length (c ∷ psk)) && leb (length (c ∷ psk)) 63

-- `.strip() or None`
abbrev pub psk_of : Text → Option Text
psk_of [] = none
psk_of (c ∷ psk) = some (c ∷ psk)

module _ (nm : NetworkManager) (cfg : Config) (vehicle_id template : Text)
    (said : PyError → Text) where
  abbrev pub respond : ℕ → Banner → Host nm → Host nm × Response
  respond status banner s =
      let page = render_portal nm template vehicle_id banner s in
      (page.0, record { status = status; body = page.1 })

  -- `index`
  unfoldable pub index : Host nm → Host nm × Response
  index s =
      respond 200 (elim s.last_save_message [ none ↦ no_banner | some m ↦ message m ])
        (record s { last_save_message = none })

  abbrev pub forget_message : Host nm × Response → Host nm × Response
  forget_message (s, r) = (record s { last_save_message = none }, r)

  abbrev pub saved_message : Text → Text
  saved_message ssid = join (
      codes "Saved "
      ∷ ssid
      ∷ codes ". Rejoining in ~"
      ∷ nm.str_int (ℤ.pos cfg.hotspot_retry_probe_seconds)
      ∷ codes "s; this hotspot will drop shortly."
      ∷ [])

  -- A saved network wakes the supervisor.
  abbrev pub saved : Text → Host nm → Host nm × Response
  saved ssid s = forget_message (
      respond 200 (message (saved_message ssid))
        (record s { last_save_message = some (saved_message ssid); rejoin_event = true }))

  abbrev pub after_add : Text → Host nm → nm.State × Result Text → Host nm × Response
  after_add ssid s (n, ok out) = saved ssid (record s { network_manager = n })
  after_add ssid s (n, raise e) =
      respond 500 (error (codes "Save failed: " ++ said e)) (record s { network_manager = n })

  -- The whole of `add_handler` behind the form's fields.
  unfoldable pub add_from : Text → Text → ℤ → Text → Host nm → Host nm × Response
  unfolding check_pin
  add_from ssid psk priority pin s =
      if not (check_pin cfg pin)
      then respond 401 (error (codes "Bad PIN.")) s
      else if is_blank ssid
      then respond 400 (error (codes "SSID is required.")) s
      else if not (psk_fits psk)
      then respond 400 (error (codes "WPA password must be 8 to 63 characters.")) s
      else if cfg.dry_run
      then saved ssid s
      else after_add ssid s
          (add_network nm ssid (psk_of psk) (nm.str_int priority) s.network_manager)

  unfoldable pub add_handler : Form → Host nm → Host nm × Response
  unfolding add_from
  add_handler form s =
      add_from (strip (field_of form.ssid)) (strip (field_of form.psk))
        (int_or_zero nm (field_of form.priority)) (field_of form.pin) s

  abbrev pub forgot : Text → Host nm → Host nm × Response
  forgot name s = respond 200 (message (codes "Forgot " ++ name ++ codes ".")) s

  abbrev pub after_delete : Text → Host nm → nm.State × Result Text → Host nm × Response
  after_delete name s (n, ok out) = forgot name (record s { network_manager = n })
  after_delete name s (n, raise e) =
      respond 500 (error (codes "Delete failed: " ++ said e)) (record s { network_manager = n })

  unfoldable pub delete_from : Text → Text → Host nm → Host nm × Response
  unfolding check_pin
  delete_from name pin s =
      if not (check_pin cfg pin)
      then respond 401 (error (codes "Bad PIN.")) s
      else if is_blank name
      then respond 400 (error (codes "Network name required.")) s
      else if cfg.dry_run
      then forgot name s
      else after_delete name s (delete_network nm name s.network_manager)

  unfoldable pub delete_handler : Form → Host nm → Host nm × Response
  unfolding delete_from
  delete_handler form s = delete_from (strip (field_of form.name)) (field_of form.pin) s
