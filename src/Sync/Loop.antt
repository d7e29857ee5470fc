-- ===== src/Sync/Loop.antt =====
-- sync-service/main.py: the loop of `run` and the priority beacon. An iteration is given its world and
-- whether the Sentry sentinel stands; the loop is a run over a list of these. What is kept of a beacon is
-- the call of `_send_events` that it makes, if it comes to one: the answer is only logged.
use smart_trucks.Base.{
  ℕ, ◌+◌, Bool, true, false, ◌&&◌, ◌||◌, not, none, some, if◌then◌else◌, List, [], ◌∷◌, ◌++◌, ◌≡◌,
  refl, All,
}
use smart_trucks.Base.Result.{Result, ok, raise, value_error, ◌>>=◌}
use smart_trucks.Sync.Queue.{TableName, heartbeats, edge_health, Row, Store, select_latest}
use smart_trucks.Sync.Cycle.{World, SyncOutcome, sync_cycle}

-- What an iteration sleeps: SENTRY_SUSPEND_POLL_SECONDS, SYNC_INTERVAL_SECONDS or
-- SYNC_DRAIN_DELAY_SECONDS.
pub data Sleep : Type 0 where
  suspend_poll interval drain_delay : Sleep

-- The variables of `run`: the queues and the latch `beacon_sent`, with the events that each beacon so far
-- handed to `_send_events`, the number of cycles made, and the last sleep.
pub record Loop (J P : Type 0) : Type 0 where
  pub store : Store J
  pub beacon_sent : Bool
  pub beacons : List (List P)
  pub cycles : ℕ
  pub last_sleep : Sleep

-- One turn: its world, and `SENTRY_MODE_ENABLED and is_suspended(...)`.
pub record Turn (J P : Type 0) : Type 0 where
  pub world : World J P
  pub suspended : Bool

-- A beacon's calls of `_send_events`: none without rows, or where loading them raises.
abbrev handed_over : {P : Type 0} → Result (List P) → List (List P)
handed_over (raise e) = []
handed_over (ok []) = []
handed_over (ok (p ∷ ps)) = (p ∷ ps) ∷ []

module _ {J P : Type 0} where
  unfoldable pub decode_payloads : World J P → List (Row J) → Result (List P)
  decode_payloads w [] = ok []
  decode_payloads w (r ∷ rows) =
      let rest = decode_payloads w rows in
      elim (w.decode r.payload_json) [
        | none ↦ raise value_error
        | some p ↦ rest >>= λ ps. ok (p ∷ ps)
      ]

  -- `_load_latest_payloads`
  unfoldable pub load_latest_payloads : World J P → TableName → ℕ → List (Row J) → Result (List P)
  unfolding decode_payloads
  load_latest_payloads w t limit rows =
      w.readable t >>= λ _. decode_payloads w (select_latest limit rows)

  -- `beacon`, where its loading does not raise
  unfoldable pub beacon_events : World J P → Store J → Result (List P)
  unfolding load_latest_payloads
  beacon_events w s = load_latest_payloads w heartbeats 1 (s heartbeats) >>= λ newest.
      load_latest_payloads w edge_health 1 (s edge_health) >>= λ health. ok (newest ++ health)

  -- `_send_priority_beacon`
  unfoldable pub send_priority_beacon : World J P → Store J → List (List P)
  unfolding beacon_events
  send_priority_beacon w s = handed_over (beacon_events w s)

  -- After `sync_cycle` has ended; the first argument is `PRIORITY_BEACON_ENABLED`.
  unfoldable pub after_cycle : Bool → World J P → Loop J P → Store J × Result SyncOutcome → Loop J P
  unfolding send_priority_beacon
  after_cycle enabled w l (s, raise e) = record l {
    store = s;
    beacon_sent = false;
    cycles = l.cycles + 1;
    last_sleep = interval;
  }
  after_cycle enabled w l (s, ok out) =
      if out.is_ok && out.more_pending
      then record l {
        store = s;
        beacon_sent = l.beacon_sent || enabled;
        beacons =
            if enabled && not l.beacon_sent
            then l.beacons ++ send_priority_beacon w s
            else l.beacons;
        cycles = l.cycles + 1;
        last_sleep = drain_delay;
      }
      else record l { store = s; beacon_sent = false; cycles = l.cycles + 1; last_sleep = interval }

  -- One turn of `while True`.
  unfoldable pub turn : Bool → Loop J P → Turn J P → Loop J P
  unfolding after_cycle
  turn enabled l t =
      if t.suspended
      then record l { beacon_sent = false; last_sleep = suspend_poll }
      else after_cycle enabled t.world l (sync_cycle t.world l.store)

  unfoldable pub run_turns : Bool → Loop J P → List (Turn J P) → Loop J P
  run_turns enabled l [] = l
  run_turns enabled l (t ∷ ts) = run_turns enabled (turn enabled l t) ts

  -- Every turn sleeps the short delay: a backlog is clearing.
  abbrev pub Draining : Bool → Loop J P → List (Turn J P) → Type 0
  Draining enabled l [] = Unit
  Draining enabled l (t ∷ ts) =
      ((turn enabled l t).last_sleep ≡ drain_delay) × Draining enabled (turn enabled l t) ts

  -- The latch and the beacons after a turn from `l` that drains.
  abbrev Latched : Bool → World J P → Loop J P → Store J → Loop J P → Type 0
  Latched enabled w l s after =
      (after.beacon_sent ≡ (l.beacon_sent || enabled))
      × (after.beacons ≡ (
          if enabled && not l.beacon_sent
          then l.beacons ++ send_priority_beacon w s
          else l.beacons))

  abbrev pub AllSuspended : List (Turn J P) → Type 0
  AllSuspended ts = All (λ t. t.suspended ≡ true) ts

  -- While the Sentry sentinel stands, the loop makes no cycle, sends no beacon and leaves every queue as
  -- it is; the latch is open again after the first such turn.
  suspended_is_quiet :
      (enabled : Bool) (l : Loop J P) (t : Turn J P) (ts : List (Turn J P))
      → AllSuspended (t ∷ ts)
      → run_turns enabled l (t ∷ ts) ≡ record l { beacon_sent = false; last_sleep = suspend_poll }
  unfolding run_turns turn
  suspended_is_quiet enabled l t [] (h, hs) = rw h refl
  suspended_is_quiet enabled l t (u ∷ ts) (h, hs) = rw h (
      suspended_is_quiet enabled (record l { beacon_sent = false; last_sleep = suspend_poll }) u ts
        hs)
