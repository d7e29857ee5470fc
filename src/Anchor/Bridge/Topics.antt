-- ===== src/Anchor/Bridge/Topics.antt =====
-- anchor-bridge/main.py: the topics that `parse_frame` builds are three parts that the ingest can take
-- apart again, with a valid node id in the middle.
use smart_trucks.Base.{
  true, ◌&&◌, not, ◌==◌, Option, none, some, if◌then◌else◌, [], ◌∷◌, ◌++◌, ◌≡◌, refl, sym, subst,
  ◌∙◌, ap, arith, length, Bool-cases, inl, inr, ◌⊎◌,
}
use smart_trucks.Base.Text.{
  Text, text_eq, codes, drop, starts_with, all_chars, split, free_of, split_free, split-append,
}
use smart_trucks.Anchor.Json.{Json, text, object, Fields, get_none, array}
use smart_trucks.Anchor.Bridge.{
  is_lower_hex, valid_node_id, topic_suffix, topic_for, node_of, id_text, stamp, filter_devices,
  is_type, route,
}

hex_free : (s : Text) → all_chars is_lower_hex s ≡ true → free_of b'/' s ≡ true
hex_free [] h = refl
hex_free (c ∷ s) h = ground (arith, hex_free s)

-- A text that begins with `p` is free of a separator if `p` and the rest are.
starts_free :
    (s p : Text)
    → starts_with s p ≡ true
    → free_of b'/' p ≡ true
    → free_of b'/' (drop (length p) s) ≡ true
    → free_of b'/' s ≡ true
starts_free s [] a b c = c
starts_free [] (x ∷ p) a b c = refl
starts_free (y ∷ s) (x ∷ p) a b c = ground (arith, starts_free s p)

valid_node_free : (s : Text) → valid_node_id (text s) ≡ true → free_of b'/' s ≡ true
unfolding valid_node_id
valid_node_free s h =
    starts_free s (codes "anchor-") (parts s h).0 refl (hex_free (drop 7 s) (parts s h).1)
  where
    parts :
        (s : Text)
        → (length s == 13 && starts_with s (codes "anchor-") && all_chars is_lower_hex (drop 7 s))
          ≡ true
        → (starts_with s (codes "anchor-") ≡ true) × (all_chars is_lower_hex (drop 7 s) ≡ true)
    parts s h = ground arith

pub split-topic_for :
    (node suffix : Text)
    → valid_node_id (text node) ≡ true
    → free_of b'/' suffix ≡ true
    → split b'/' (topic_for node suffix) ≡ codes "anchors" ∷ node ∷ suffix ∷ []
split-topic_for node suffix v f =
    split-append b'/' (codes "anchors") (node ++ b'/' ∷ suffix) refl
    ∙ ap (λ l. codes "anchors" ∷ l)
        (split-append b'/' node suffix (valid_node_free node v)
          ∙ ap (λ l. node ∷ l) (split_free b'/' suffix f))

-- The node, the kind and the payload of a routed frame.
pub record IsRouted (v : Json) (topic : Text) (frame : Fields) : Type 0 where
  pub node : Text
  pub kind : Text
  pub is_topic : topic ≡ topic_for node kind
  pub valid : valid_node_id (text node) ≡ true
  pub known :
      (kind ≡ codes "scan")
      ⊎ ((kind ≡ codes "status") ⊎ ((kind ≡ codes "gateway") ⊎ (kind ≡ codes "info")))

abbrev Routes : Json → Option (Text × Fields) → Type 0
Routes v none = Unit
Routes v (some (topic, frame)) = IsRouted v topic frame

valid_is_text : (v : Json) → valid_node_id v ≡ true → v ≡ text (id_text v)
unfolding valid_node_id
valid_is_text (text s) h = refl
valid_is_text Json.null h = cc
valid_is_text (Json.boolean b) h = cc
valid_is_text (Json.integer s n) h = cc
valid_is_text (Json.fraction z t) h = cc
valid_is_text (array items) h = cc
valid_is_text (object fs) h = cc

KnownSuffix : Text → Type 0
KnownSuffix kind =
    (kind ≡ codes "scan")
    ⊎ ((kind ≡ codes "status") ⊎ ((kind ≡ codes "gateway") ⊎ (kind ≡ codes "info")))

abbrev OnSome {ℓ} : {A : Type 0} → (A → Type ℓ) → Option A → Type ℓ
OnSome P none = Unit
OnSome P (some a) = P a

topic_suffix-KnownSuffix : (v : Json) → OnSome KnownSuffix (topic_suffix v)
unfolding topic_suffix KnownSuffix
topic_suffix-KnownSuffix (text s) = elim (Bool-cases (text_eq s (codes "anchor_scan"))) [
  | inl e ↦ rw e (inl refl)
  | inr n ↦ elim (Bool-cases (text_eq s (codes "anchor_heartbeat"))) [
    | inl e ↦ rw (n, e) (inr (inl refl))
    | inr m ↦ elim (Bool-cases (text_eq s (codes "gateway_status"))) [
      | inl e ↦ rw (n, m, e) (inr (inr (inl refl)))
      | inr o ↦ elim (Bool-cases (text_eq s (codes "node_info"))) [
        | inl e ↦ rw (n, m, o, e) (inr (inr (inr refl)))
        | inr q ↦ rw (n, m, o, q) tt
      ]
    ]
  ]
]
topic_suffix-KnownSuffix _ = tt

module _ (now : Text) (fs : Fields) where
  abbrev RoutesHere : Option (Text × Fields) → Type 0
  RoutesHere out = Routes (object fs) out

  routed :
      (suffix : Text) (frame : Fields)
      → KnownSuffix suffix
      → valid_node_id (node_of fs) ≡ true
      → IsRouted (object fs) (topic_for (id_text (node_of fs)) suffix) frame
  unfolding KnownSuffix
  routed suffix frame k v = record {
    node = id_text (node_of fs);
    kind = suffix;
    is_topic = refl;
    valid = ap valid_node_id (sym (valid_is_text (node_of fs) v)) ∙ v;
    known = k;
  }

  with_suffix :
      (suffix : Text)
      → KnownSuffix suffix
      → RoutesHere (
          if not (valid_node_id (node_of fs))
          then none
          else if is_type (codes "anchor_scan") (get_none (codes "type") fs)
          then elim (filter_devices fs) as (λ _. Option (Text × Fields)) [
            | none ↦ none
            | some kept ↦ some (topic_for (id_text (node_of fs)) suffix, stamp now kept)
          ]
          else some (topic_for (id_text (node_of fs)) suffix, stamp now fs))
  with_suffix suffix k = elim (Bool-cases (valid_node_id (node_of fs))) [
    | inr bad ↦ rw bad tt
    | inl good ↦ elim (Bool-cases (is_type (codes "anchor_scan") (get_none (codes "type") fs))) [
      | inr other ↦ rw (good, other) (routed suffix (stamp now fs) k good)
      | inl scan ↦ rw (good, scan) (kept_devices good (filter_devices fs))
    ]
  ]
    where
      kept_devices :
          valid_node_id (node_of fs) ≡ true
          → (devices : Option Fields)
          → RoutesHere (elim devices as (λ _. Option (Text × Fields)) [
            | none ↦ none
            | some kept ↦ some (topic_for (id_text (node_of fs)) suffix, stamp now kept)
          ])
      kept_devices good none = tt
      kept_devices good (some kept) = routed suffix (stamp now kept) k good

  route_object : RoutesHere (route now (object fs))
  unfolding route
  route_object =
      go (topic_suffix (get_none (codes "type") fs))
        (topic_suffix-KnownSuffix (get_none (codes "type") fs))
    where
      go :
          (suffix : Option Text)
          → OnSome KnownSuffix suffix
          → RoutesHere (elim suffix as (λ _. Option (Text × Fields)) [
            | none ↦ none
            | some suffix ↦
                if not (valid_node_id (node_of fs))
                then none
                else if is_type (codes "anchor_scan") (get_none (codes "type") fs)
                then elim (filter_devices fs) as (λ _. Option (Text × Fields)) [
                  | none ↦ none
                  | some kept ↦ some (topic_for (id_text (node_of fs)) suffix, stamp now kept)
                ]
                else some (topic_for (id_text (node_of fs)) suffix, stamp now fs)
          ])
      go none k = tt
      go (some suffix) k = with_suffix suffix k

route-Routes : (now : Text) (v : Json) → Routes v (route now v)
unfolding route
route-Routes now (object fs) = route_object now fs
route-Routes now _ = tt

-- Every message that the bridge routes is for a topic `anchors/<node>/<kind>` with a valid node id and one
-- of the four kinds.
pub route-IsRouted :
    (now : Text) (v : Json) {topic : Text} {frame : Fields}
    → route now v ≡ some (topic, frame)
    → IsRouted v topic frame
route-IsRouted now v {topic} {frame} h = subst (Routes v) h (route-Routes now v)
