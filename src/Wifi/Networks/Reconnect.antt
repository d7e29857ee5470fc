-- ===== src/Wifi/Networks/Reconnect.antt =====
-- wifi-provisioner/nm.py: what `reconnect_saved_networks` comes to, and which networks it tries.
use smart_trucks.Base.{
  Bool, true, false, ◌&&◌, if◌then◌else◌, List, [], ◌∷◌, ◌++◌, keep_if, ◌≡◌, refl, ap, arith,
  Bool-cases, inl, inr,
}
use smart_trucks.Base.Text.{Text}
use smart_trucks.Base.Int.{ℤ, leℤ, leℤ_trans, leℤ_total}
use smart_trucks.Base.Sort.{sort_by, Sorted, sort_by-Sorted, keep_if-sort_by}
use smart_trucks.Base.Result.{Result, ok, raise, PyError}
use smart_trucks.Wifi.Networks.{
  NetworkManager, KnownNetwork, ScanResult, Nm, nmcli, up_args, more_urgent, eligible, came_up,
  bring_up, scan_visible_networks, list_known_networks, reconnect_saved_networks, reconnect_from,
  rescan_args, scan_args, after, settle, none_seen,
}

-- `n.priority == k`
abbrev pub has_priority : ℤ → KnownNetwork → Bool
has_priority k n = leℤ k n.priority && leℤ n.priority k

-- The list in falling priority, with networks of one priority in its own order.
abbrev pub InOrder : List KnownNetwork → List KnownNetwork → Type 0
InOrder known order =
    Sorted more_urgent order
    × ((k : ℤ) → keep_if (has_priority k) order ≡ keep_if (has_priority k) known)

sort_by-InOrder : (known : List KnownNetwork) → InOrder known (sort_by more_urgent known)
sort_by-InOrder known = (
  sort_by-Sorted more_urgent (λ a b h. leℤ_total b.priority a.priority h)
      (λ a b c h k. leℤ_trans c.priority b.priority a.priority k h) known,
  λ k. keep_if-sort_by more_urgent (has_priority k) (alike k) known,
)
  where
    alike :
        (k : ℤ) (x y : KnownNetwork)
        → has_priority k x ≡ true
        → has_priority k y ≡ true
        → more_urgent x y ≡ true
    alike k x y h i = ground (arith, leℤ_trans y.priority k x.priority)

module _ (nm : NetworkManager) where
  -- `connection up` failed on one network after the other, from a state to a state.
  pub data Exhausted : List KnownNetwork → nm.State → nm.State → Type 0 where
    none_tried : (s : nm.State) → Exhausted [] s s
    failed :
        {n : KnownNetwork} {ns : List KnownNetwork} {s u t : nm.State} (e : PyError)
        → nmcli nm (up_args n.name) s ≡ (u, raise e)
        → Exhausted ns u t
        → Exhausted (n ∷ ns) s t

  -- Networks are tried in turn, until one comes up or all have failed.
  pub data Ended (queue : List KnownNetwork) (s : nm.State) : nm.State → Bool → Type 0 where
    came :
        {tried : List KnownNetwork} {t u : nm.State} (n : KnownNetwork) (others : List KnownNetwork)
        (out : Text)
        → queue ≡ tried ++ n ∷ others
        → Exhausted tried s t
        → nmcli nm (up_args n.name) t ≡ (u, ok out)
        → Ended queue s u true
    gave_up : {t : nm.State} → Exhausted queue s t → Ended queue s t false

  abbrev pub Brought : List KnownNetwork → nm.State → nm.State × Result Bool → Type 0
  Brought queue s out = (b : Bool) × (out.1 ≡ ok b) × Ended queue s out.0 b

  Ended-cons :
      (n : KnownNetwork) (ns : List KnownNetwork) (s u t : nm.State) (e : PyError) (b : Bool)
      → nmcli nm (up_args n.name) s ≡ (u, raise e)
      → Ended ns u t b
      → Ended (n ∷ ns) s t b
  Ended-cons n ns s u t e b h (came m others out q x k) =
      came m others out (ap (λ l. n ∷ l) q) (failed e h x) k
  Ended-cons n ns s u t e b h (gave_up x) = gave_up (failed e h x)

  came_up-Brought :
      (n : KnownNetwork) (ns : List KnownNetwork) (rest : Nm nm Bool) (s : nm.State)
      (r : nm.State × Result Text)
      → nmcli nm (up_args n.name) s ≡ r
      → ((u : nm.State) → Brought ns u (rest u))
      → Brought (n ∷ ns) s (came_up nm rest r)
  came_up-Brought n ns rest s (u, ok out) h k = (true, refl, came n ns out refl (none_tried s) h)
  came_up-Brought n ns rest s (u, raise e) h k =
      let (b, v, x) = k u in (b, v, Ended-cons n ns s u (rest u).0 e b h x)

  bring_up-Brought :
      (visible : List ScanResult) (known : List KnownNetwork) (s : nm.State)
      → Brought (keep_if (eligible visible) known) s (bring_up nm visible known s)
  unfolding bring_up
  bring_up-Brought visible [] s = (false, refl, gave_up (none_tried s))
  bring_up-Brought visible (n ∷ ns) s = elim (Bool-cases (eligible visible n)) [
    | inl e ↦ rw e (
        came_up-Brought n (keep_if (eligible visible) ns) (bring_up nm visible ns) s
          (nmcli nm (up_args n.name) s) refl (bring_up-Brought visible ns))
    | inr e ↦ rw e (bring_up-Brought visible ns s)
  ]

  abbrev pub value_or : {A : Type 0} → A → Result A → A
  value_or d (ok a) = a
  value_or d (raise e) = d

  after-settle :
      {A B : Type 0} (d : A) (r : nm.State × Result A) (k : A → Nm nm B)
      → after nm (settle nm d r) k ≡ k (value_or d r.1) r.0
  after-settle d (s, ok a) k = refl
  after-settle d (s, raise e) k = refl

  -- The networks seen from a state, and then those listed.
  abbrev pub seen_from : nm.State → List ScanResult
  seen_from s = value_or [] (scan_visible_networks nm s).1

  abbrev pub known_from : nm.State → List KnownNetwork
  known_from s = value_or [] (list_known_networks nm (scan_visible_networks nm s).0).1

  scan-ok : (s : nm.State) → (scan_visible_networks nm s).1 ≡ ok (seen_from s)
  unfolding scan_visible_networks
  scan-ok s =
      rw
        (
          after-settle [] (nmcli nm rescan_args s),
          after-settle [] (nmcli nm scan_args (nmcli nm rescan_args s).0),
        )
        refl

  after-ok :
      {A B : Type 0} (r : nm.State × Result A) (a : A) (k : A → Nm nm B)
      → r.1 ≡ ok a
      → after nm r k ≡ k a r.0
  after-ok (s, ok b) a k h = ap (λ c. k c s) (cc)
  after-ok (s, raise e) a k h = cc

  none_eligible : (ns : List KnownNetwork) → keep_if (eligible []) ns ≡ []
  none_eligible [] = refl
  none_eligible (n ∷ ns) = ground (arith, none_eligible ns)

  -- The state in which the first network is tried; nothing is listed where no network is seen.
  abbrev pub ready_from : nm.State → nm.State
  ready_from s =
      let scanned = (scan_visible_networks nm s).0 in
      if none_seen (seen_from s) then scanned else (list_known_networks nm scanned).0

  -- The listed networks in order, and how trying those that are eligible ended.
  pub record Reconnected (s : nm.State) (out : nm.State × Result Bool) : Type 0 where
    order : List KnownNetwork
    in_order : InOrder (known_from s) order
    brought : Brought (keep_if (eligible (seen_from s)) order) (ready_from s) out

  -- Whatever text nmcli prints and however it exits: `reconnect_saved_networks` never raises. It tries the listed networks that have
  -- autoconnect on and are among those seen, in falling priority and in the list's order at equal ones, each by
  -- `connection up` in the state that the last failure left; it returns True, at once, where one comes up, and False
  -- where all of them failed.
  pub reconnect_saved_networks-Reconnected :
      (s : nm.State) → Reconnected s (reconnect_saved_networks nm s)
  unfolding reconnect_saved_networks
  reconnect_saved_networks-Reconnected s = record {
    order = sort_by more_urgent (known_from s);
    in_order = sort_by-InOrder (known_from s);
    brought =
        rw (after-ok (scan_visible_networks nm s) (seen_from s) (reconnect_from nm) (scan-ok s))
          (go (seen_from s));
  }
    where
      go :
          (visible : List ScanResult)
          → Brought
              (keep_if (eligible visible) (sort_by more_urgent (known_from s)))
              (if none_seen visible
                then (scan_visible_networks nm s).0
                else (list_known_networks nm (scan_visible_networks nm s).0).0)
              (reconnect_from nm visible (scan_visible_networks nm s).0)
      go [] =
          rw (none_eligible (sort_by more_urgent (known_from s)))
            (false, refl, gave_up (none_tried (scan_visible_networks nm s).0))
      go (r ∷ rs) =
          rw
            (after-settle [] (list_known_networks nm (scan_visible_networks nm s).0)
              (λ known. bring_up nm (r ∷ rs) (sort_by more_urgent known)))
            (bring_up-Brought (r ∷ rs) (sort_by more_urgent (known_from s))
              (list_known_networks nm (scan_visible_networks nm s).0).0)
