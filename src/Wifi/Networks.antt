-- ===== src/Wifi/Networks.antt =====
-- wifi-provisioner/nm.py: the calls of nmcli. NetworkManager is a parameter: its state, and what an `nmcli`
-- process does to it and how it ends. So are Python's `int`, `str` and
-- `str.lower` on texts.
pub mod Listing
pub mod Reconnect
use smart_trucks.Base.{
  ℕ, zero, suc, Bool, true, false, ◌&&◌, ◌||◌, not, Option, none, some, or_default, if◌then◌else◌,
  List, [], ◌∷◌, ◌++◌, any_of, map,
}
use smart_trucks.Base.Text.{Text, text_or, codes, text_eq, splitlines, strip}
use smart_trucks.Base.Int.{ℤ, pos, leℤ, ltℤ}
use smart_trucks.Base.Sort.{sort_by}
use smart_trucks.Base.Result.{Result, ok, raise, value_error, command_error}
use smart_trucks.Wifi.Terse.{split_terse}

-- What `subprocess.run` gives: `OSError` or `SubprocessError`, or the exit code and stdout. That nmcli prints text which
-- `text=True` can decode is taken for granted: other bytes would raise UnicodeDecodeError, which `_run` lets through.
pub data Completed : Type 0 where
  launch_failed : Completed
  exited : ℕ → Text → Completed

pub record NetworkManager : Type 1 where
  pub State : Type 0
  pub run_process : List Text → State → State × Completed
  pub parse_int : Text → Option ℤ
  pub str_int : ℤ → Text
  pub lower : Text → Text

pub record KnownNetwork : Type 0 where
  pub name : Text
  pub ssid : Text
  pub autoconnect : Bool
  pub priority : ℤ

pub record ScanResult : Type 0 where
  pub ssid : Text
  pub signal : ℤ
  pub security : Text

-- HOTSPOT_PROFILE_NAME
abbrev pub hotspot_profile : Text
hotspot_profile = codes "_setup_ap"

abbrev pub wifi_type : Text
wifi_type = codes "802-11-wireless"

abbrev pub is_blank : Text → Bool
is_blank [] = true
is_blank (c ∷ s) = false

-- `seen[ssid] = ...`, for a stronger signal than the prior one: a new key goes to the end.
unfoldable pub see : ScanResult → List ScanResult → List ScanResult
see r [] = r ∷ []
see r (p ∷ seen) =
    let rest = see r seen in
    if text_eq r.ssid p.ssid
    then (if ltℤ p.signal r.signal then r ∷ seen else p ∷ seen)
    else p ∷ rest

abbrev pub stronger : ScanResult → ScanResult → Bool
stronger a b = leℤ b.signal a.signal

abbrev pub more_urgent : KnownNetwork → KnownNetwork → Bool
more_urgent a b = leℤ b.priority a.priority

-- The command lines.
abbrev pub list_args : List Text
list_args =
    codes "-t"
    ∷ codes "-f"
    ∷ codes "NAME,TYPE,AUTOCONNECT,AUTOCONNECT-PRIORITY"
    ∷ codes "connection"
    ∷ codes "show"
    ∷ []

abbrev pub rescan_args : List Text
rescan_args = codes "device" ∷ codes "wifi" ∷ codes "rescan" ∷ []

abbrev pub scan_args : List Text
scan_args =
    codes "-t"
    ∷ codes "-f"
    ∷ codes "SSID,SIGNAL,SECURITY"
    ∷ codes "device"
    ∷ codes "wifi"
    ∷ codes "list"
    ∷ []

abbrev pub retries_args : Text → List Text
retries_args name =
    codes "-t"
    ∷ codes "-f"
    ∷ codes "connection.autoconnect-retries"
    ∷ codes "connection"
    ∷ codes "show"
    ∷ name
    ∷ []

abbrev pub forever_args : Text → List Text
forever_args name =
    codes "connection"
    ∷ codes "modify"
    ∷ name
    ∷ codes "connection.autoconnect-retries"
    ∷ codes "0"
    ∷ []

abbrev pub active_args : List Text
active_args =
    codes "-t"
    ∷ codes "-f"
    ∷ codes "NAME,STATE"
    ∷ codes "connection"
    ∷ codes "show"
    ∷ codes "--active"
    ∷ []

abbrev pub client_args : Text → Text → List Text
client_args name priority =
    codes "connection"
    ∷ codes "add"
    ∷ codes "type"
    ∷ codes "wifi"
    ∷ codes "con-name"
    ∷ name
    ∷ codes "ifname"
    ∷ codes "wlan0"
    ∷ codes "ssid"
    ∷ name
    ∷ codes "connection.autoconnect"
    ∷ codes "yes"
    ∷ codes "connection.autoconnect-priority"
    ∷ priority
    ∷ codes "connection.autoconnect-retries"
    ∷ codes "0"
    ∷ []

abbrev pub hotspot_args : Text → List Text
hotspot_args ssid =
    codes "connection"
    ∷ codes "add"
    ∷ codes "type"
    ∷ codes "wifi"
    ∷ codes "ifname"
    ∷ codes "wlan0"
    ∷ codes "con-name"
    ∷ hotspot_profile
    ∷ codes "autoconnect"
    ∷ codes "no"
    ∷ codes "ssid"
    ∷ ssid
    ∷ codes "mode"
    ∷ codes "ap"
    ∷ codes "ipv4.method"
    ∷ codes "shared"
    ∷ codes "ipv6.method"
    ∷ codes "ignore"
    ∷ codes "802-11-wireless.band"
    ∷ codes "bg"
    ∷ []

abbrev pub delete_args : Text → List Text
delete_args name = codes "connection" ∷ codes "delete" ∷ name ∷ []

abbrev pub up_args : Text → List Text
up_args name = codes "connection" ∷ codes "up" ∷ name ∷ []

abbrev pub down_args : Text → List Text
down_args name = codes "connection" ∷ codes "down" ∷ name ∷ []

abbrev pub cons_some : {A : Type 0} → Option A → List A → List A
cons_some none l = l
cons_some (some a) l = a ∷ l

abbrev see_some : Option ScanResult → List ScanResult → List ScanResult
see_some none seen = seen
see_some (some r) seen = see r seen

-- `if psk:`
abbrev pub with_psk : Option Text → List Text → List Text
with_psk none args = args
with_psk (some []) args = args
with_psk (some (c ∷ psk)) args =
    args ++ codes "wifi-sec.key-mgmt" ∷ codes "wpa-psk" ∷ codes "wifi-sec.psk" ∷ (c ∷ psk) ∷ []

abbrev last_of : List Text → Option Text
last_of [] = none
last_of (t ∷ []) = some t
last_of (t ∷ u ∷ ts) = last_of (u ∷ ts)

abbrev retries_in : Text → Option Text
retries_in [] = none
retries_in (c ∷ line) = last_of (split_terse (c ∷ line))

abbrev pub is_zero : Option Text → Bool
is_zero none = false
is_zero (some t) = text_eq t (codes "0")

-- A saved network that may be brought up now.
abbrev pub eligible : List ScanResult → KnownNetwork → Bool
eligible visible n = n.autoconnect && any_of (λ s. text_eq n.ssid s.ssid) visible

abbrev pub none_seen : List ScanResult → Bool
none_seen [] = true
none_seen (r ∷ rs) = false

abbrev pub names_hotspot : List Text → Bool
names_hotspot [] = false
names_hotspot (name ∷ fields) = text_eq name hotspot_profile

abbrev active_row : Text → Bool
active_row [] = false
active_row (c ∷ line) = names_hotspot (split_terse (c ∷ line))

module _ (nm : NetworkManager) where
  open nm use {State, run_process, parse_int, lower}

  abbrev pub Nm : Type 0 → Type 0
  Nm A = State → State × Result A

  abbrev pub stdout_of : State × Completed → State × Result Text
  stdout_of (s, launch_failed) = (s, raise command_error)
  stdout_of (s, exited zero out) = (s, ok out)
  stdout_of (s, exited (suc code) out) = (s, raise command_error)

  -- `_run`, and its stdout
  unfoldable pub nmcli : List Text → Nm Text
  nmcli args s = stdout_of (run_process args s)

  abbrev pub after : {A B : Type 0} → State × Result A → (A → Nm B) → State × Result B
  after (s, ok a) rest = rest a s
  after (s, raise e) rest = (s, raise e)

  infixl 5 ◌>>=◌ ◌>>◌
  abbrev pub ◌>>=◌ : {A B : Type 0} → Nm A → (A → Nm B) → Nm B
  ◌>>=◌ m f s = after (m s) f

  abbrev pub ◌>>◌ : {A B : Type 0} → Nm A → Nm B → Nm B
  m >> k = m >>= λ _. k

  abbrev pub return : {A : Type 0} → A → Nm A
  return a s = (s, ok a)

  -- `try: ... except NmcliError: pass`
  abbrev pub settle : {A : Type 0} → A → State × Result A → State × Result A
  settle fallback (s, ok a) = (s, ok a)
  settle fallback (s, raise e) = (s, ok fallback)

  abbrev pub attempt : {A : Type 0} → A → Nm A → Nm A
  attempt fallback m s = settle fallback (m s)

  abbrev pub int_or_zero : Text → ℤ
  int_or_zero t = or_default (parse_int (text_or t (codes "0"))) (pos 0)

  -- The body of the loop of `list_known_networks`, from the fields of a line.
  unfoldable pub known_row : List Text → Option KnownNetwork
  known_row (name ∷ conn_type ∷ autoconnect ∷ priority ∷ more) =
      if not (text_eq conn_type wifi_type)
      then none
      else if text_eq name hotspot_profile
      then none
      else some (record {
        name = name;
        ssid = name;
        autoconnect = text_eq (lower autoconnect) (codes "yes");
        priority = int_or_zero priority;
      })
  known_row _ = none

  unfoldable pub known_of : List Text → List KnownNetwork
  unfolding known_row
  known_of [] = []
  known_of (line ∷ lines) =
      let rest = known_of lines in
      if is_blank line then rest else cons_some (known_row (split_terse line)) rest

  unfoldable pub list_known_networks : Nm (List KnownNetwork)
  unfolding known_of
  list_known_networks = nmcli list_args >>= λ out. return (known_of (splitlines out))

  -- The body of the loop of `scan_visible_networks`.
  unfoldable pub scan_row : List Text → Option ScanResult
  scan_row (ssid ∷ signal ∷ security ∷ more) =
      if is_blank ssid
      then none
      else some (record {
        ssid = ssid;
        signal = int_or_zero signal;
        security = text_or security (codes "--");
      })
  scan_row _ = none

  unfoldable pub seen_of : List ScanResult → List Text → List ScanResult
  unfolding scan_row see
  seen_of seen [] = seen
  seen_of seen (line ∷ lines) =
      seen_of (if is_blank line then seen else see_some (scan_row (split_terse line)) seen) lines

  -- It never raises: a failed rescan is passed over, a failed list is empty.
  unfoldable pub scan_visible_networks : Nm (List ScanResult)
  unfolding seen_of
  scan_visible_networks =
      attempt [] (nmcli rescan_args)
      >> (attempt [] (nmcli scan_args) >>= λ out.
          return (sort_by stronger (seen_of [] (splitlines out))))

  -- `add_network`, with `str(priority)` given.
  unfoldable pub add_network : Text → Option Text → Text → Nm Text
  add_network ssid psk priority s =
      let name = strip ssid in
      if is_blank name
      then (s, raise value_error)
      else (attempt [] (nmcli (delete_args name))
            >> nmcli (with_psk psk (client_args name priority)))
          s

  -- `_autoconnect_retries`
  unfoldable pub autoconnect_retries : Text → Nm (Option Text)
  autoconnect_retries name =
      attempt none (nmcli (retries_args name) >>= λ out. return (retries_in (strip out)))

  -- A profile at 0 is not written again.
  abbrev pub normalise_one : Text → Option Text → Nm Text
  normalise_one name retries =
      if is_zero retries then return [] else attempt [] (nmcli (forever_args name))

  -- The loop of `set_autoconnect_retries_infinite`.
  unfoldable pub normalise_retries : List KnownNetwork → Nm (Unit {0})
  unfolding autoconnect_retries
  normalise_retries [] = return tt
  normalise_retries (n ∷ ns) =
      autoconnect_retries n.name >>= λ retries. normalise_one n.name retries >> normalise_retries ns

  unfoldable pub set_autoconnect_retries_infinite : Nm (Unit {0})
  unfolding normalise_retries
  set_autoconnect_retries_infinite = attempt [] list_known_networks >>= normalise_retries

  abbrev pub came_up : Nm Bool → State × Result Text → State × Result Bool
  came_up rest (s, ok out) = (s, ok true)
  came_up rest (s, raise e) = rest s

  -- The loop of `reconnect_saved_networks`.
  unfoldable pub bring_up : List ScanResult → List KnownNetwork → Nm Bool
  bring_up visible [] s = (s, ok false)
  bring_up visible (n ∷ ns) s =
      if eligible visible n
      then came_up (bring_up visible ns) (nmcli (up_args n.name) s)
      else bring_up visible ns s

  -- The rest of `reconnect_saved_networks`, behind the scan.
  abbrev pub reconnect_from : List ScanResult → Nm Bool
  reconnect_from visible =
      if none_seen visible
      then return false
      else (attempt [] list_known_networks >>= λ known.
          bring_up visible (sort_by more_urgent known))

  unfoldable pub reconnect_saved_networks : Nm Bool
  unfolding bring_up
  reconnect_saved_networks = scan_visible_networks >>= reconnect_from

  unfoldable pub delete_network : Text → Nm Text
  delete_network name s =
      if text_eq name hotspot_profile then (s, raise value_error) else nmcli (delete_args name) s

  unfoldable pub activate_network : Text → Nm Text
  activate_network name = nmcli (up_args name)

  unfoldable pub start_hotspot : Text → Option Text → Nm Text
  start_hotspot ssid psk =
      attempt [] (nmcli (delete_args hotspot_profile))
      >> nmcli (with_psk psk (hotspot_args ssid))
      >> nmcli (up_args hotspot_profile)

  unfoldable pub stop_hotspot : Nm Text
  stop_hotspot =
      attempt [] (nmcli (down_args hotspot_profile))
      >> attempt [] (nmcli (delete_args hotspot_profile))

  unfoldable pub is_hotspot_active : Nm Bool
  is_hotspot_active =
      attempt false (nmcli active_args >>= λ out. return (any_of active_row (splitlines out)))
