-- ===== src/Anchor/Registry.antt =====
-- ble-sensor/anchor_ingest.py: the registry of anchors, its cache, and whom it lets through. The file is
-- given by whether it exists and by what reading and parsing it gives. The monotonic clock counts ticks.
use smart_trucks.Base.{
  ℕ, ◌-◌, Bool, true, false, ◌&&◌, ◌||◌, not, ltb, Option, none, some, is_some, if◌then◌else◌, List,
  [], ◌∷◌, ◌≡◌, refl, arith, any_of,
}
use smart_trucks.Base.Text.{Text, text_eq, codes}
use smart_trucks.Anchor.Json.{
  Json, boolean, array, object, Items, nil, cons, get_or, get_none, truthy,
}
use smart_trucks.Anchor.Bridge.{valid_node_id, id_text}

-- A registry as an association list; a later entry is put in front and so wins.
abbrev pub Registry : Type 0
Registry = List (Text × Bool)

-- `registry.get(anchor_id, False)`
unfoldable pub registered : Text → Registry → Bool
registered a [] = false
registered a ((b, active) ∷ r) = if text_eq a b then active else registered a r

-- `{anchor_id: True for anchor_id in allowlist}`
unfoldable pub from_allowlist : List Text → Registry
from_allowlist [] = []
from_allowlist (a ∷ l) = (a, true) ∷ from_allowlist l

-- The loop over the file's list: entries that are no objects or have no valid id are passed over.
unfoldable pub merge_items : Items → Registry → Registry
merge_items nil r = r
merge_items (cons (object fs) items) r = merge_items items (
    if valid_node_id (get_none (codes "anchor_id") fs)
    then (
      id_text (get_none (codes "anchor_id") fs),
      truthy (get_or (codes "active") (boolean true) fs),
    )
      ∷ r
    else r)
merge_items (cons v items) r = merge_items items r

-- The registry file: `none` if it does not exist; else its value, unless it cannot be read or parsed.
abbrev pub RegistryFile : Type 0
RegistryFile = Option (Option Json)

abbrev pub is_nil : List Text → Bool
is_nil [] = true
is_nil (a ∷ l) = false

-- `load_anchor_registry`; `none` is open mode.
unfoldable pub load_anchor_registry : RegistryFile → List Text → Option Registry
unfolding from_allowlist merge_items
load_anchor_registry none allowlist =
    if is_nil allowlist then none else some (from_allowlist allowlist)
load_anchor_registry (some (some (array items))) allowlist =
    some (merge_items items (from_allowlist allowlist))
load_anchor_registry (some (some v)) allowlist = some (from_allowlist allowlist)
load_anchor_registry (some none) allowlist = some (from_allowlist allowlist)

-- The cache of `IngestContext`; `loaded_at` is 0 before the first load.
pub record Cache : Type 0 where
  pub registry : Option Registry
  pub loaded_at : ℕ

-- `_refresh_registry`
unfoldable pub refresh : ℕ → List Text → RegistryFile → ℕ → Cache → Cache
refresh every allowlist file now c =
    if ltb 0 c.loaded_at && ltb (now - c.loaded_at) every
    then c
    else record { registry = load_anchor_registry file allowlist; loaded_at = now }

unfoldable pub allows : Option Registry → Text → Bool
unfolding registered
allows none a = true
allows (some r) a = registered a r

-- Open mode is exactly the absence of configuration: no file and no allowlist.
open_mode_iff_unconfigured :
    (file : RegistryFile) (allowlist : List Text)
    → is_some (load_anchor_registry file allowlist) ≡ (is_some file || not (is_nil allowlist))
unfolding load_anchor_registry
open_mode_iff_unconfigured none [] = refl
open_mode_iff_unconfigured none (a ∷ l) = refl
open_mode_iff_unconfigured (some none) l = refl
open_mode_iff_unconfigured (some (some v)) l = ground arith

-- An entry of the file that admits anchor `a`.
abbrev pub lists_active : Text → Json → Bool
lists_active a (object fs) =
    valid_node_id (get_none (codes "anchor_id") fs)
    && text_eq a (id_text (get_none (codes "anchor_id") fs))
    && truthy (get_or (codes "active") (boolean true) fs)
lists_active a _ = false

abbrev pub any_item : (Json → Bool) → Items → Bool
any_item p nil = false
any_item p (cons v items) = p v || any_item p items

registered-merge_items :
    (a : Text) (items : Items) (r : Registry)
    → registered a (merge_items items r) ≡ true
    → (any_item (lists_active a) items || registered a r) ≡ true
unfolding merge_items registered
registered-merge_items a nil r h = ground arith
registered-merge_items a (cons (object fs) items) r h = ground (
  arith,
  registered-merge_items a items (
      if valid_node_id (get_none (codes "anchor_id") fs)
      then (
        id_text (get_none (codes "anchor_id") fs),
        truthy (get_or (codes "active") (boolean true) fs),
      )
        ∷ r
      else r),
)
registered-merge_items a (cons _ items) r h = ground (arith, registered-merge_items a items r)

registered-from_allowlist :
    (a : Text) (l : List Text) → registered a (from_allowlist l) ≡ any_of (text_eq a) l
unfolding registered from_allowlist
registered-from_allowlist a [] = refl
registered-from_allowlist a (b ∷ l) = ground (arith, registered-from_allowlist a l)

-- The file's entries, if it is a list.
abbrev pub file_items : RegistryFile → Items
file_items (some (some (array items))) = items
file_items _ = nil

-- Once an allowlist or a file is configured, an anchor is let through only if the allowlist names it or
-- the file has an entry for it that is active; an empty, unreadable or malformed file lets nobody
-- through that the allowlist does not name.
pub allowed_needs_approval :
    (file : RegistryFile) (allowlist : List Text) (a : Text)
    → (is_some file || not (is_nil allowlist)) ≡ true
    → allows (load_anchor_registry file allowlist) a ≡ true
    → (any_item (lists_active a) (file_items file) || any_of (text_eq a) allowlist) ≡ true
unfolding load_anchor_registry allows
allowed_needs_approval none [] a c h = cc
allowed_needs_approval none (b ∷ l) a c h = ground (arith, registered-from_allowlist a (b ∷ l))
allowed_needs_approval (some none) l a c h = ground (arith, registered-from_allowlist a l)
allowed_needs_approval (some (some (array items))) l a c h =
    ground (arith, registered-merge_items a items (from_allowlist l), registered-from_allowlist a l)
allowed_needs_approval (some (some v)) l a c h = ground (arith, registered-from_allowlist a l)
