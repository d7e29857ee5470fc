-- ===== src/Anchor/Ingest/Quarantine.antt =====
-- ble-sensor/anchor_ingest.py: an anchor that is not let through leaves a status row and nothing else, and
-- what the bridge publishes reaches the ingest.
use smart_trucks.Base.{
  ℕ, ◌≤◌, Bool, true, false, ◌&&◌, ◌||◌, not, ltb, some, if◌then◌else◌, List, [], ◌∷◌, ◌++◌, ◌≡◌,
  refl, ◌∙◌, ap, sym, subst, arith, any_of, length, length-append, Bool-cases, and-false, ltb→lt,
  inl, inr, ◌⊎◌,
}
use smart_trucks.Base.Text.{Text, text_eq, text_eq_refl, text_eq_sound, codes, split, free_of}
use smart_trucks.Anchor.Json.{Json, text, Fields}
use smart_trucks.Anchor.Bridge.{valid_node_id, topic_for, route}
use smart_trucks.Anchor.Bridge.Topics.{route-IsRouted, split-topic_for}
use smart_trucks.Anchor.Registry.{RegistryFile, Cache, refresh, allows}
use smart_trucks.Anchor.Ingest.{
  Effect, upsert_status, record_observations, enqueue_scan, Context, effects_of, handle_parts,
  handle_frame, put_nowait,
}

-- An effect on the observation store or the upload queue.
abbrev pub is_contribution : Effect → Bool
is_contribution (upsert_status a r b f) = false
is_contribution (record_observations p) = true
is_contribution (enqueue_scan p) = true

-- The status row of an anchor, with its registration as given.
abbrev pub has_status : Text → Bool → List Effect → Bool
has_status a allowed [] = false
has_status a allowed (upsert_status b r registered f ∷ es) =
    text_eq a b && (if allowed then registered else not registered) || has_status a allowed es
has_status a allowed (record_observations p ∷ es) = has_status a allowed es
has_status a allowed (enqueue_scan p ∷ es) = has_status a allowed es

abbrev pub second : List Text → Text
second (a ∷ b ∷ rest) = b
second _ = []

module _ (ctx : Context) where
  effects_contribute :
      (now a kind : Text) (frame : Fields) (allowed : Bool)
      → any_of is_contribution (effects_of ctx now a kind frame allowed) ≡ true
      → allowed ≡ true
  unfolding effects_of
  effects_contribute now a kind frame true h = refl
  effects_contribute now a kind frame false h = ground arith

  parts_contribute :
      (file : RegistryFile) (tick : ℕ) (now : Text) (c : Cache) (parts : List Text) (frame : Fields)
      → any_of is_contribution (handle_parts ctx file tick now c parts frame).1 ≡ true
      → allows (handle_parts ctx file tick now c parts frame).0.registry (second parts) ≡ true
  unfolding handle_parts
  parts_contribute file tick now c (root ∷ a ∷ kind ∷ []) frame h = ground (
    arith,
    effects_contribute now a kind frame
        (allows (refresh ctx.refresh_seconds ctx.allowlist file tick c).registry a),
  )
  parts_contribute file tick now c _ frame h = cc

  -- A message adds observations or queues a scan only if the registry, as the handler has just refreshed
  -- it, lets the anchor named in its topic through.
  pub handle_frame_quarantines :
      (file : RegistryFile) (tick : ℕ) (now : Text) (c : Cache) (topic : Text) (frame : Fields)
      → any_of is_contribution (handle_frame ctx file tick now c topic frame).1 ≡ true
      → allows (handle_frame ctx file tick now c topic frame).0.registry (second (split b'/' topic))
        ≡ true
  unfolding handle_frame
  handle_frame_quarantines file tick now c topic frame h =
      parts_contribute file tick now c (split b'/' topic) frame h

  effects_status :
      (now a kind : Text) (frame : Fields) (allowed : Bool)
      → (kind ≡ codes "scan") ⊎ ((kind ≡ codes "status") ⊎ (kind ≡ codes "gateway"))
      → has_status a allowed (effects_of ctx now a kind frame allowed) ≡ true
  unfolding effects_of
  effects_status now a kind frame allowed (inl k) =
      subst (λ s. has_status a allowed (effects_of ctx now a s frame allowed) ≡ true) (sym k)
        (ground (arith, text_eq_refl a))
  effects_status now a kind frame allowed (inr (inl k)) =
      subst (λ s. has_status a allowed (effects_of ctx now a s frame allowed) ≡ true) (sym k)
        (ground (arith, text_eq_refl a))
  effects_status now a kind frame allowed (inr (inr k)) =
      subst (λ s. has_status a allowed (effects_of ctx now a s frame allowed) ≡ true) (sym k)
        (ground (arith, text_eq_refl a))

  not_bridge :
      (node : Text) → valid_node_id (text node) ≡ true → text_eq node (codes "bridge") ≡ false
  unfolding valid_node_id
  not_bridge node v = elim (Bool-cases (text_eq node (codes "bridge"))) [
    | inl e ↦
        cc (subst (λ s. valid_node_id (text s) ≡ true) (text_eq_sound node (codes "bridge") e) v)
    | inr n ↦ n
  ]

  -- The status row after a message that is taken apart into valid parts.
  abbrev pub Recorded : Text → Cache × List Effect → Type 0
  Recorded node (c, es) = has_status node (allows c.registry node) es ≡ true

  parts-Recorded :
      (file : RegistryFile) (tick : ℕ) (now : Text) (c : Cache) (node kind : Text) (frame : Fields)
      → valid_node_id (text node) ≡ true
      → (kind ≡ codes "scan") ⊎ ((kind ≡ codes "status") ⊎ (kind ≡ codes "gateway"))
      → Recorded node (handle_parts ctx file tick now c (codes "anchors" ∷ node ∷ kind ∷ []) frame)
  unfolding handle_parts
  parts-Recorded file tick now c node kind frame v k =
      subst
        (λ b. Recorded node (
          if text_eq kind (codes "status") && b
          then (c, [])
          else if not (valid_node_id (text node))
          then (c, [])
          else (
            refresh ctx.refresh_seconds ctx.allowlist file tick c,
            effects_of ctx now node kind frame
                (allows (refresh ctx.refresh_seconds ctx.allowlist file tick c).registry node),
          )))
        (sym (not_bridge node v))
        (rw (and-false (text_eq kind (codes "status")), v) (effects_status now node kind frame _ k))

  -- A frame that the bridge routes, its own `node_info` apart, leaves a status row for its node in the
  -- ingest, whether the node is let through or not, with the registry's answer in it.
  pub bridge_reaches_ingest :
      (file : RegistryFile) (tick : ℕ) (now sent_at : Text) (c : Cache) (v : Json) {topic : Text}
      {frame : Fields}
      → (h : route sent_at v ≡ some (topic, frame))
      → let r = route-IsRouted sent_at v h in
        (r.kind ≡ codes "info") ⊎ Recorded r.node (handle_frame ctx file tick now c topic frame)
  unfolding handle_frame
  bridge_reaches_ingest file tick now sent_at c v {topic} {frame} h =
      let r = route-IsRouted sent_at v h in arrives r.node r.kind r.is_topic r.valid r.known
    where
      parts_of :
          (node kind : Text)
          → topic ≡ topic_for node kind
          → valid_node_id (text node) ≡ true
          → free_of b'/' kind ≡ true
          → (kind ≡ codes "scan") ⊎ ((kind ≡ codes "status") ⊎ (kind ≡ codes "gateway"))
          → Recorded node (handle_parts ctx file tick now c (split b'/' topic) frame)
      parts_of node kind t v f k =
          subst (λ parts. Recorded node (handle_parts ctx file tick now c parts frame))
            (sym (ap (split b'/') t ∙ split-topic_for node kind v f))
            (parts-Recorded file tick now c node kind frame v k)

      arrives :
          (node kind : Text)
          → topic ≡ topic_for node kind
          → valid_node_id (text node) ≡ true
          → (kind ≡ codes "scan")
            ⊎ ((kind ≡ codes "status") ⊎ ((kind ≡ codes "gateway") ⊎ (kind ≡ codes "info")))
          → (kind ≡ codes "info")
            ⊎ Recorded node (handle_parts ctx file tick now c (split b'/' topic) frame)
      arrives node kind t v (inl k) = inr (parts_of node kind t v (rw k refl) (inl k))
      arrives node kind t v (inr (inl k)) = inr (parts_of node kind t v (rw k refl) (inr (inl k)))
      arrives node kind t v (inr (inr (inl k))) =
          inr (parts_of node kind t v (rw k refl) (inr (inr k)))
      arrives node kind t v (inr (inr (inr k))) = inl k

-- The hand-over queue never holds more than 256 frames; a frame is taken in whole at the end, or dropped
-- and the queue left as it was.
put_nowait_bounded {ℓ} :
    {A : Type ℓ} (x : A) (q : List A)
    → length q ≤ 256
    → (length (put_nowait x q) ≤ 256) × ((put_nowait x q ≡ q ++ x ∷ []) ⊎ (put_nowait x q ≡ q))
unfolding put_nowait
put_nowait_bounded x q h = elim (Bool-cases (ltb (length q) 256)) [
  | inl room ↦ rw room (omega (arith, length-append q (x ∷ []), ltb→lt _ _ room), inl refl)
  | inr full ↦ rw full (h, inr refl)
]
