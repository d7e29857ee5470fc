-- ===== src/Wifi/Tests.antt =====
-- Tests of the WiFi provisioner at concrete inputs.
use smart_trucks.Base.{
  ℕ, ◌+◌, Bool, true, false, none, some, if◌then◌else◌, List, [], ◌∷◌, ◌≡◌, arith,
}
use smart_trucks.Base.Text.{Text, codes, text_eq, strip}
use smart_trucks.Base.Result.{PyError}
use smart_trucks.Wifi.Terse.{split_terse, print_terse, split_terse-print_terse}
use smart_trucks.Wifi.Networks.{NetworkManager, exited, reconnect_saved_networks}
use smart_trucks.Wifi.Networks.Reconnect.{Reconnected, reconnect_saved_networks-Reconnected}
use smart_trucks.Wifi.Supervisor.{Config, Turn, Host, turn}
use smart_trucks.Wifi.Supervisor.Grace.{Graced}
use smart_trucks.Wifi.Portal.{Form}
use smart_trucks.Wifi.Portal.Handlers.{add_handler}
use smart_trucks.Wifi.Portal.Guards.{
  Guarded, Savable, add_handler-Guarded, booted, turned, Runs-Graced,
}

split_terse-print_terse_example :
    split_terse (print_terse (codes "depot:2") (codes "yes" ∷ []))
    ≡ codes "depot:2" ∷ codes "yes" ∷ []
split_terse-print_terse_example = split_terse-print_terse (codes "depot:2") (codes "yes" ∷ [])

abbrev is_listing : Text → Bool
is_listing fields = text_eq fields (codes "NAME,TYPE,AUTOCONNECT,AUTOCONNECT-PRIORITY")

-- What nmcli prints: one saved network, which is in range.
abbrev printed : List Text → Text
printed (flag ∷ f ∷ fields ∷ more) =
    if text_eq flag (codes "-t")
    then (if is_listing fields then codes "depot:802-11-wireless:yes:5" else codes "depot:70:WPA2")
    else []
printed _ = []

-- Its state counts the commands.
abbrev depot : NetworkManager
depot = record {
  State = ℕ;
  run_process = λ command s. (s + 1, exited 0 (printed command));
  parse_int = λ t. none;
  str_int = λ n. codes "0";
  lower = λ t. t;
}

reconnect_saved_networks-Reconnected_example :
    Reconnected depot 0 (reconnect_saved_networks depot 0)
reconnect_saved_networks-Reconnected_example = reconnect_saved_networks-Reconnected depot 0

abbrev settings : Config
settings = record {
  setup_ssid = codes "setup";
  setup_psk = none;
  setup_pin = codes "123456";
  grace_seconds = 180;
  hotspot_retry_probe_seconds = 45;
  dry_run = false;
}

-- Offline past the grace time, with no saved network coming up.
abbrev offline : Turn
offline = record {
  connected = false;
  now = 200;
  idle_woke = false;
  settle_probes = [];
  settled_at = 200;
  retry_woke = false;
  probing_from = 300;
  rejoin_probes = (300, false) ∷ [];
  rejoined_at = 305;
}

abbrev at_boot : Host depot
at_boot = record {
  last_up_monotonic = 0;
  hotspot_active = false;
  last_save_message = none;
  rejoin_event = false;
  network_manager = 0;
}

abbrev said : PyError → Text
said e = codes "failed"

Runs-Graced_example : Graced depot settings 310 (turn depot settings offline at_boot)
Runs-Graced_example = Runs-Graced depot settings (codes "truck") (codes "{{BANNER}}") said (
    turned offline 310 (booted 0 0)
      (omega arith, omega arith, omega arith, omega arith, omega arith))

abbrev form : Form
form = record {
  ssid = some (codes "depot");
  psk = some (codes "correct horse");
  priority = none;
  pin = some (codes "123456");
  name = none;
}

add_handler-Guarded_example :
    Guarded depot settings
      (codes "truck")
      (codes "{{BANNER}}")
      said
      (Savable depot settings
        (codes "truck")
        (codes "{{BANNER}}")
        said
        (strip (codes "depot"))
        (strip (codes "correct horse"))
        (codes "123456"))
      true
      at_boot
      (add_handler depot settings (codes "truck") (codes "{{BANNER}}") said form at_boot)
add_handler-Guarded_example =
    add_handler-Guarded depot settings (codes "truck") (codes "{{BANNER}}") said form at_boot
