-- ===== src/Env/Tests.antt =====
-- Tests of the environment parsing at concrete inputs.
use smart_trucks.Base.{ℕ, true, false, ltb, Option, some, ◌≡◌, refl, arith}
use smart_trucks.Base.Text.{Text, codes, strip}
use smart_trucks.Env.{nonempty, sanitize_env_value}
use smart_trucks.Env.Literals.{literal, sanitize-literal}

sanitize-literal_example :
    sanitize_env_value (some (literal (codes "BLE_POLL") (codes " 300 ")))
    ≡ nonempty (strip (codes " 300 "))
sanitize-literal_example = sanitize-literal (codes "BLE_POLL") (codes " 300 ") refl

ltb_asym : (a b : ℕ) → ltb a b ≡ true → ltb b a ≡ false
ltb_asym a b h = ground arith

-- Every text parses as 0.
abbrev parse_zero : Text → Option ℕ
parse_zero t = some 0
