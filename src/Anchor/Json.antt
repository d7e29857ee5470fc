-- ===== src/Anchor/Json.antt =====
-- The values of `json.loads`, as the services take them apart.
use smart_trucks.Base.{
  ℕ, Bool, true, false, not, Option, none, some, if◌then◌else◌, ◌==◌, [], ◌∷◌, ◌≡◌, arith,
}
use smart_trucks.Base.Text.{Text, text_eq, text_eq_refl}

mutual
  pub data Json : Type 0 where
    null : Json
    boolean : Bool → Json
    integer : Bool → ℕ → Json  -- with the sign, true for a negative number
    fraction : Bool → Text → Json  -- a number with a fraction or an exponent: whether it is 0.0, and its text
    text : Text → Json
    array : Items → Json
    object : Fields → Json

  pub data Items : Type 0 where
    nil : Items
    cons : Json → Items → Items

  pub data Fields : Type 0 where
    end : Fields
    field : Text → Json → Fields → Fields

-- `d.get(key)` where a missing key and an explicit `null` are told apart.
abbrev pub get : Text → Fields → Option Json
get k end = none
get k (field j v fs) = if text_eq k j then some v else get k fs

-- `d.get(key, default)`
abbrev pub get_or : Text → Json → Fields → Json
get_or k default fs = elim (get k fs) [ none ↦ default | some v ↦ v ]

-- `d.get(key)`
abbrev pub get_none : Text → Fields → Json
get_none k fs = get_or k null fs

-- `d[key] = v`
abbrev pub put : Text → Json → Fields → Fields
put k v end = field k v end
put k v (field j u fs) = if text_eq k j then field j v fs else field j u (put k v fs)

-- `bool(v)`
abbrev pub truthy : Json → Bool
truthy null = false
truthy (boolean b) = b
truthy (integer s n) = not (n == 0)
truthy (fraction zero_value t) = not zero_value
truthy (text []) = false
truthy (text (c ∷ t)) = true
truthy (array nil) = false
truthy (array (cons v vs)) = true
truthy (object end) = false
truthy (object (field k v fs)) = true

-- `isinstance(v, int) and not isinstance(v, bool)`
abbrev pub is_int : Json → Bool
is_int (integer s n) = true
is_int _ = false

abbrev pub is_text : Json → Bool
is_text (text t) = true
is_text _ = false

get-put_self : (k : Text) (v : Json) (fs : Fields) → get k (put k v fs) ≡ some v
get-put_self k v end = ground (arith, text_eq_refl k)
get-put_self k v (field j u fs) = ground (arith, get-put_self k v fs)
