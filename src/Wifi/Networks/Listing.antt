-- ===== src/Wifi/Networks/Listing.antt =====
-- wifi-provisioner/nm.py: `list_known_networks` against the profiles that nmcli prints, one to a line.
use smart_trucks.Base.{
  Bool, false, ◌&&◌, not, if◌then◌else◌, List, [], ◌∷◌, ◌++◌, map, keep_if, ◌≡◌, refl, arith,
}
use smart_trucks.Base.Text.{Text, codes, text_eq}
use smart_trucks.Wifi.Terse.{escape, print_terse, split_terse-print_terse}
use smart_trucks.Wifi.Networks.{
  NetworkManager, KnownNetwork, hotspot_profile, wifi_type, is_blank, int_or_zero, known_row,
  cons_some, known_of,
}

-- A connection profile, in the four columns asked for.
pub record Profile : Type 0 where
  pub name : Text
  pub conn_type : Text
  pub autoconnect : Text
  pub priority : Text

abbrev pub print_profile : Profile → Text
print_profile p = print_terse p.name (p.conn_type ∷ p.autoconnect ∷ p.priority ∷ [])

-- A saved WiFi client: neither another kind of connection nor the setup hotspot.
abbrev pub is_client : Profile → Bool
is_client p = text_eq p.conn_type wifi_type && not (text_eq p.name hotspot_profile)

not_blank : (f t : Text) → is_blank (escape f ++ b':' ∷ t) ≡ false
not_blank [] t = refl
not_blank (c ∷ f) t = ground arith

module _ (nm : NetworkManager) where
  abbrev pub network_of : Profile → KnownNetwork
  network_of p = record {
    name = p.name;
    ssid = p.name;
    autoconnect = text_eq (nm.lower p.autoconnect) (codes "yes");
    priority = int_or_zero nm p.priority;
  }

  known_row_client :
      (p : Profile) (l : List KnownNetwork)
      → cons_some (known_row nm (p.name ∷ p.conn_type ∷ p.autoconnect ∷ p.priority ∷ [])) l
        ≡ (if is_client p then network_of p ∷ l else l)
  unfolding known_row
  known_row_client p l = ground arith

  -- Whatever the profiles, names with colons and backslashes included: the lines that nmcli prints for them
  -- are listed as exactly the WiFi profiles other than the setup hotspot, in nmcli's order, each with its
  -- name, its autoconnect flag and its priority (0 where that is no number).
  known_of-print_profile :
      (ps : List Profile)
      → known_of nm (map print_profile ps) ≡ map network_of (keep_if is_client ps)
  unfolding known_of
  known_of-print_profile [] = refl
  known_of-print_profile (p ∷ ps) =
      rw
        (
          not_blank p.name (print_terse p.conn_type (p.autoconnect ∷ p.priority ∷ [])),
          split_terse-print_terse p.name (p.conn_type ∷ p.autoconnect ∷ p.priority ∷ []),
          known_row_client p (known_of nm (map print_profile ps)),
          known_of-print_profile ps,
        )
        (ground arith)
