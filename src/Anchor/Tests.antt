-- ===== src/Anchor/Tests.antt =====
-- Tests of the BLE-anchor pipeline at concrete inputs.
use smart_trucks.Base.{
  ℕ, Bool, true, false, ◌||◌, none, some, List, [], ◌∷◌, ◌≡◌, refl, any_of, ◌⊎◌, keep_if,
}
use smart_trucks.Base.Text.{Text, codes, split, text_eq}
use smart_trucks.Anchor.Json.{text, array, object, nil, cons, Fields, field}
use smart_trucks.Anchor.Mac.{is_alnum, accepted_mac, has_twelve_hex, accepted_mac_lem}
use smart_trucks.Anchor.Bridge.{route, valid_node_id}
use smart_trucks.Anchor.Bridge.Topics.{route-IsRouted}
use smart_trucks.Anchor.Registry.{
  RegistryFile, Cache, load_anchor_registry, allows, lists_active, any_item, file_items,
  allowed_needs_approval, refresh,
}
use smart_trucks.Anchor.Ingest.{Context, handle_frame}
use smart_trucks.Anchor.Ingest.Quarantine.{
  is_contribution, second, Recorded, handle_frame_quarantines, bridge_reaches_ingest,
}

abbrev no_alnum : ℕ → Bool
no_alnum c = false

abbrev same_upper : ℕ → Text
same_upper c = c ∷ []

abbrev plain : Text
plain = codes "aabbccddeeff"

abbrev dashed : Text
dashed = codes "aa-bb-cc-dd-ee-ff"

accepted_mac_lem_example :
    accepted_mac no_alnum same_upper (codes "not-a-mac-address")
    ≡ (has_twelve_hex no_alnum same_upper (codes "not-a-mac-address") || true)
accepted_mac_lem_example = accepted_mac_lem no_alnum same_upper (codes "not-a-mac-address") refl

plain_hex : has_twelve_hex no_alnum same_upper plain ≡ true
unfolding has_twelve_hex
plain_hex = refl

plain_same :
    keep_if (is_alnum no_alnum same_upper) plain ≡ keep_if (is_alnum no_alnum same_upper) dashed
unfolding is_alnum
plain_same = refl

abbrev node : Text
node = codes "anchor-a1b2c3"

-- A registry file with one active anchor.
abbrev file : RegistryFile
file = some (some (array (cons (object (field (codes "anchor_id") (text node) Fields.end)) nil)))

node_allowed : allows (load_anchor_registry file []) node ≡ true
unfolding load_anchor_registry allows valid_node_id
node_allowed = refl

allowed_needs_approval_example :
    (any_item (lists_active node) (file_items file) || any_of (text_eq node) []) ≡ true
allowed_needs_approval_example = allowed_needs_approval file [] node refl node_allowed

abbrev context : Context
context = record {
  vehicle_id = codes "truck";
  allowlist = [];
  refresh_seconds = 60;
  alnum_beyond = no_alnum;
  upper_beyond = same_upper;
  classify_mac = λ m. codes "unknown";
  str_other = λ v. codes "0";
}

abbrev fresh : Cache
fresh = record { registry = none; loaded_at = 0 }

abbrev beat : Fields
beat =
    field (codes "type") (text (codes "anchor_heartbeat"))
      (field (codes "anchor_id") (text node) Fields.end)

abbrev beat_topic : Text
beat_topic = codes "anchors/anchor-a1b2c3/status"

beat_contributes :
    any_of is_contribution (handle_frame context file 5 (codes "now") fresh beat_topic beat).1
    ≡ true
unfolding handle_frame split load_anchor_registry allows valid_node_id refresh
beat_contributes = refl

handle_frame_quarantines_example :
    allows
      (handle_frame context file 5 (codes "now") fresh beat_topic beat).0.registry
      (second (split b'/' beat_topic))
    ≡ true
handle_frame_quarantines_example =
    handle_frame_quarantines context file 5 (codes "now") fresh beat_topic beat beat_contributes

abbrev stamped : Fields
stamped = field (codes "type") (text (codes "anchor_heartbeat")) (
    field (codes "anchor_id") (text node)
      (field (codes "bridge_received_at_utc") (text (codes "now")) Fields.end))

beat_routed : route (codes "now") (object beat) ≡ some (beat_topic, stamped)
unfolding route
beat_routed = refl

bridge_reaches_ingest_example :
    ((route-IsRouted (codes "now") (object beat) beat_routed).kind ≡ codes "info")
    ⊎ Recorded context
        (route-IsRouted (codes "now") (object beat) beat_routed).node
        (handle_frame context file 5 (codes "later") fresh beat_topic stamped)
bridge_reaches_ingest_example =
    bridge_reaches_ingest context file 5 (codes "later") (codes "now") fresh (object beat)
      beat_routed

abbrev waiting : List ℕ
waiting = 1 ∷ []
