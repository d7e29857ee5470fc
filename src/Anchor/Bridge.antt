-- ===== src/Anchor/Bridge.antt =====
-- anchor-bridge/main.py: `parse_frame` and what it calls, the configuration command, and the session that
-- pumps lines to the broker. `json.loads`, the UTF-8 decoder and `str` of a value that is no text are
-- parameters.
pub mod Topics
use smart_trucks.Base.{
  ℕ, ◌≤◌, Bool, true, false, ◌&&◌, ◌||◌, not, leb, ltb, ◌==◌, Option, none, some, if◌then◌else◌,
  List, [], ◌∷◌, ◌++◌, length,
}
use smart_trucks.Base.Text.{Text, text_eq, codes, starts_with, drop, all_chars, strip}
use smart_trucks.Anchor.Json.{
  Json, null, integer, text, array, object, Items, nil, cons, Fields, get, get_none, put, is_int,
  is_text,
}

-- `ch in "0123456789abcdef"`
abbrev pub is_lower_hex : ℕ → Bool
is_lower_hex c = leb b'0' c && leb c b'9' || leb b'a' c && leb c b'f'

-- `_valid_node_id`, and `valid_anchor_id` of ble-sensor/anchor_ingest.py, which has the same body.
unfoldable pub valid_node_id : Json → Bool
valid_node_id (text s) =
    length s == 13 && starts_with s (codes "anchor-") && all_chars is_lower_hex (drop 7 s)
valid_node_id _ = false

-- `FRAME_TOPIC_SUFFIXES`, by the frame's type.
unfoldable pub topic_suffix : Json → Option Text
topic_suffix (text s) =
    if text_eq s (codes "anchor_scan")
    then some (codes "scan")
    else if text_eq s (codes "anchor_heartbeat")
    then some (codes "status")
    else if text_eq s (codes "gateway_status")
    then some (codes "gateway")
    else if text_eq s (codes "node_info")
    then some (codes "info")
    else none
topic_suffix _ = none

abbrev pub is_type : Text → Json → Bool
is_type name (text s) = text_eq s name
is_type name _ = false

-- The test of a device entry.
abbrev pub good_device : Json → Bool
good_device (object fs) = is_text (get_none (codes "mac") fs) && is_int (get_none (codes "rssi") fs)
good_device _ = false

unfoldable pub keep_devices : Items → Items
keep_devices nil = nil
keep_devices (cons d ds) = let rest = keep_devices ds in if good_device d then cons d rest else rest

-- `devices`, where it is a list, keeps its good entries; where not, the frame is dropped.
unfoldable pub filter_devices : Fields → Option Fields
unfolding keep_devices
filter_devices fs = elim (get_none (codes "devices") fs) [
  | array ds ↦ some (put (codes "devices") (array (keep_devices ds)) fs)
  | _ ↦ none
]

-- The key that names the node: anchor frames never fall back on the gateway's id.
abbrev pub node_of : Fields → Json
node_of fs =
    if is_type (codes "gateway_status") (get_none (codes "type") fs)
    then get_none (codes "gateway_id") fs
    else get_none (codes "anchor_id") fs

-- A valid id is a text.
abbrev pub id_text : Json → Text
id_text (text s) = s
id_text _ = []

-- f"anchors/{node_id}/{suffix}"
abbrev pub topic_for : Text → Text → Text
topic_for node suffix = codes "anchors" ++ b'/' ∷ (node ++ b'/' ∷ suffix)

abbrev pub stamp : Text → Fields → Fields
stamp now fs = put (codes "bridge_received_at_utc") (text now) fs

-- Behind `json.loads`: the topic and the enriched payload.
unfoldable pub route : Text → Json → Option (Text × Fields)
unfolding topic_suffix valid_node_id filter_devices
route now (object fs) = elim (topic_suffix (get_none (codes "type") fs)) [
  | none ↦ none
  | some suffix ↦
      if not (valid_node_id (node_of fs))
      then none
      else if is_type (codes "anchor_scan") (get_none (codes "type") fs)
      then elim (filter_devices fs) [
        | none ↦ none
        | some kept ↦ some (topic_for (id_text (node_of fs)) suffix, stamp now kept)
      ]
      else some (topic_for (id_text (node_of fs)) suffix, stamp now fs)
]
route now _ = none

module _ (loads : Text → Option Json) (decode_utf8 : List ℕ → Option Text) where
  -- A line that is text.
  unfoldable pub parse_line : Text → Text → Option (Text × Fields)
  unfolding route strip
  parse_line now raw =
      let line = strip raw in
      if not (starts_with line (codes "{"))
      then none
      else elim (loads line) [ none ↦ none | some v ↦ route now v ]

  -- `parse_frame` on bytes; MAX_LINE_BYTES is 8192.
  unfoldable pub parse_frame : Text → List ℕ → Option (Text × Fields)
  unfolding parse_line
  parse_frame now raw =
      if ltb 8192 (length raw)
      then none
      else elim (decode_utf8 raw) [ none ↦ none | some line ↦ parse_line now line ]

  -- The lines of one serial session, with the time of each: what `_pump_serial` publishes.
  unfoldable pub pump : List (Text × List ℕ) → List (Text × Fields)
  unfolding parse_frame
  pump [] = []
  pump ((now, raw) ∷ lines) =
      let rest = pump lines in
      elim raw [
        | [] ↦ rest
        | b ∷ bs ↦ elim (parse_frame now (b ∷ bs)) [ none ↦ rest | some message ↦ message ∷ rest ]
      ]

-- `build_config_command`: the body of the command, or `None` where nothing is to be set. The floor is
-- the negated `rssi_floor`.
unfoldable pub build_config_command : Option ℕ → Option ℕ → Option Fields
build_config_command none none = none
build_config_command (some interval) none = some (
    put (codes "report_interval_s") (integer false interval)
      (put (codes "cmd") (text (codes "config")) Fields.end))
build_config_command none (some floor) = some (
    put (codes "rssi_floor") (integer true floor)
      (put (codes "cmd") (text (codes "config")) Fields.end))
build_config_command (some interval) (some floor) = some (
    put (codes "rssi_floor") (integer true floor) (
      put (codes "report_interval_s") (integer false interval)
        (put (codes "cmd") (text (codes "config")) Fields.end)))

-- `_find_serial_port`
unfoldable pub find_serial_port : (Text → Bool) → List Text → Option Text
find_serial_port path_exists [] = none
find_serial_port path_exists (p ∷ ps) =
    let rest = find_serial_port path_exists ps in if path_exists p then some p else rest
