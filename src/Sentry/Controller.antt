-- ===== src/Sentry/Controller.antt =====
-- shared/sentry_flag.py and telematics-edge/sentry.py: the suspend sentinel and its controller. A file is
-- its presence; each file operation is told whether the operating system lets it through.
use smart_trucks.Base.{
  ℕ, Bool, true, false, ◌&&◌, ◌||◌, not, leb, Option, none, some, if◌then◌else◌, List, [], ◌∷◌, ◌≡◌,
  refl, arith, All,
}

-- `set_suspended`: an `OSError` is logged and dropped.
unfoldable pub set_suspended : Bool → Bool → Bool
set_suspended io_ok present = if io_ok then true else present

-- `clear_suspended`: a missing file is fine, any other `OSError` is logged and dropped.
unfoldable pub clear_suspended : Bool → Bool → Bool
clear_suspended io_ok present = if io_ok then false else present

-- `should_suspend`, on the monotonic clock's ticks.
unfoldable pub should_suspend : Bool → Bool → Bool → Bool → ℕ → ℕ → Bool
should_suspend enabled truck_active is_charging wifi_connected idle_seconds idle_timeout =
    if not enabled
    then false
    else if truck_active || is_charging || wifi_connected
    then false
    else leb idle_timeout idle_seconds

pub data Action : Type 0 where
  suspend resume : Action

-- `next_action`
unfoldable pub next_action : Bool → Bool → Option Action
next_action desired_suspended prev_suspended =
    if desired_suspended && not prev_suspended
    then some suspend
    else if not desired_suspended && prev_suspended
    then some resume
    else none

-- `SentryController`, with the sentinel file that it writes.
pub record SentryController : Type 0 where
  pub prev_suspended : Bool
  pub flag_present : Bool

-- `boot_safety_clear`
unfoldable pub boot_safety_clear : Bool → SentryController → SentryController
unfolding clear_suspended
boot_safety_clear io_ok c = record {
  prev_suspended = false;
  flag_present = clear_suspended io_ok c.flag_present;
}

perform : Option Action → Bool → SentryController → SentryController
unfolding set_suspended clear_suspended
perform none io_ok c = c
perform (some suspend) io_ok c = record {
  prev_suspended = true;
  flag_present = set_suspended io_ok c.flag_present;
}
perform (some resume) io_ok c = record {
  prev_suspended = false;
  flag_present = clear_suspended io_ok c.flag_present;
}

-- `apply`: the new controller, and the transition that it reports.
unfoldable pub apply : Bool → Bool → SentryController → SentryController × Option Action
unfolding next_action perform
apply io_ok desired_suspended c =
    let action = next_action desired_suspended c.prev_suspended in (perform action io_ok c, action)

-- One call of `apply`: whether the file operation goes through, and what is wished.
pub record Call : Type 0 where
  pub io_ok : Bool
  pub desired : Bool

unfoldable pub apply_all : List Call → SentryController → SentryController × List (Option Action)
apply_all [] c = (c, [])
apply_all (k ∷ ks) c =
    let out = apply k.io_ok k.desired c in let rest = apply_all ks out.0 in (rest.0, out.1 ∷ rest.1)

-- The transitions of a history alternate, beginning with a suspend if `prev` is false.
abbrev pub Alternates : Bool → List (Option Action) → Type 0
Alternates prev [] = Unit
Alternates prev (none ∷ acts) = Alternates prev acts
Alternates prev (some suspend ∷ acts) = (prev ≡ false) × Alternates true acts
Alternates prev (some resume ∷ acts) = (prev ≡ true) × Alternates false acts

-- Whatever is wished and whatever the file system does, the controller's transitions alternate
-- between suspend and resume: there is one for each edge, and none is repeated.
apply_all-Alternates :
    (ks : List Call) (c : SentryController) → Alternates c.prev_suspended (apply_all ks c).1
unfolding apply_all apply
apply_all-Alternates [] c = tt
apply_all-Alternates (k ∷ ks) c =
    ground (arith, apply_all-Alternates ks (apply k.io_ok k.desired c).0)

awake_stays :
    (ks : List Call) (c : SentryController)
    → c.prev_suspended ≡ false
    → All (λ k. k.desired ≡ false) ks
    → (apply_all ks c).0 ≡ c
unfolding apply_all apply
awake_stays [] c p h = refl
awake_stays (k ∷ ks) c p (h, hs) = ground (arith, awake_stays ks c p hs)

-- A clear of the sentinel that fails at the wake is never made up for: however many further calls wish
-- to be awake, the controller believes that it is, and the sentinel stands.
pub failed_clear_strands :
    (ks : List Call) (c : SentryController)
    → c.prev_suspended ≡ true
    → c.flag_present ≡ true
    → All (λ k. k.desired ≡ false) ks
    → (apply_all ks (apply false false c).0).0
      ≡ record { prev_suspended = false; flag_present = true }
unfolding apply
failed_clear_strands ks c p f h =
    ground (arith, awake_stays ks (record { prev_suspended = false; flag_present = true }) refl h)
