-- ===== src/Wifi/Portal.antt =====
-- wifi-provisioner/main.py: the captive portal. A request's form is given, as `form.get` finds its fields; a response
-- is its status and its body.
pub mod Html
pub mod Handlers
pub mod Guards
use smart_trucks.Base.{ℕ, Option, some, none}
use smart_trucks.Base.Text.{Text}

pub record Form : Type 0 where
  pub ssid : Option Text
  pub psk : Option Text
  pub priority : Option Text
  pub pin : Option Text
  pub name : Option Text

pub record Response : Type 0 where
  pub status : ℕ
  pub body : Text
