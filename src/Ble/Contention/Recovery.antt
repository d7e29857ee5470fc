-- ===== src/Ble/Contention/Recovery.antt =====
-- ble-sensor/main.py: when the scan loop gives up for a supervised restart, and how it spaces what it tries before.
use smart_trucks.Base.{
  ℕ, ◌+◌, ◌-◌, ◌≤◌, ◌<◌, Bool, true, false, ◌&&◌, leb, leb→le, le→leb, Option, none, some,
  or_default, List, [], ◌∷◌, length, All, ◌≡◌, refl, ◌∙◌, ap, arith, Bool-cases, inl, inr,
  if_either,
}
use smart_trucks.Ble.Contention.{
  Config, Scanner, Scan, in_progress, scanned, scan_failed, Answers, Action, slept, backed_off,
  persisted, Ended, goes_on, system_exit, backoff, elapsed, escalate, cooled, episode, tried_again,
  contend, turn, after_turn, run_turns,
}

abbrev pub leaves : Ended → Bool
leaves (goes_on s acts) = false
leaves (system_exit acts) = true

module _ (cfg : Config) where
  -- The scanner runs, and BlueZ is still busy, so long after the episode's start that a restart is due.
  abbrev pub IsStuck : ℕ → Answers → Type 0
  IsStuck since a =
      ((cfg.sentry_mode_enabled && a.is_suspended) ≡ false)
      × (a.scan ≡ in_progress)
      × (cfg.restart_after_seconds ≤ elapsed since a.later)

  escalate-leaves :
      (a : Answers) (since : ℕ) (before : List Action) (s : Scanner)
      → cfg.restart_after_seconds ≤ elapsed since a.later
      → escalate cfg a since before s ≡ system_exit before
  unfolding escalate
  escalate-leaves a since before s h =
      rw (le→leb cfg.restart_after_seconds (elapsed since a.later) h) refl

  turn_contends :
      (a : Answers) (s : Scanner)
      → (cfg.sentry_mode_enabled && a.is_suspended) ≡ false
      → a.scan ≡ in_progress
      → turn cfg a s ≡ contend cfg a s
  unfolding turn
  turn_contends a s e f = rw (e, f) refl

  waits : Answers → Scanner → List Action
  waits a s =
      backed_off (backoff cfg s.scan_retry_attempt + a.jitter)
      ∷ cooled cfg (s.scan_retry_attempt + 1)

  contend-exits :
      (a : Answers) (s : Scanner) (since : ℕ)
      → s.contention_since ≡ some since
      → cfg.restart_after_seconds ≤ elapsed since a.later
      → leb 1024 s.scan_retry_attempt ≡ false
      → leb cfg.max_attempts (s.scan_retry_attempt + 1) ≡ true
      → contend cfg a s ≡ system_exit (waits a s)
  unfolding contend waits
  contend-exits a s since e d f last = rw (e, f, last) (escalate-leaves a since (waits a s) _ d)

  contend_again :
      (a : Answers) (s : Scanner) (since : ℕ)
      → s.contention_since ≡ some since
      → leb 1024 s.scan_retry_attempt ≡ false
      → leb cfg.max_attempts (s.scan_retry_attempt + 1) ≡ false
      → contend cfg a s ≡ goes_on (tried_again s (s.scan_retry_attempt + 1)) (waits a s)
  unfolding contend waits
  contend_again a s since e f more = rw (e, f, more) refl

  -- A radio that stays stuck is not retried for ever, where the limit of the attempts is at most 1024, below which the
  -- backoff does not overflow: while an episode lasts, with every turn awake, busy and past the restart time, as many
  -- turns as the attempts lack to their limit make the process leave.
  pub run_turns-leaves :
      (bs : List Answers) (s : Scanner) (since : ℕ)
      → s.contention_since ≡ some since
      → All (IsStuck since) bs
      → s.scan_retry_attempt < 1024
      → cfg.max_attempts ≤ 1024
      → cfg.max_attempts ≤ s.scan_retry_attempt + length bs
      → 1 ≤ length bs
      → leaves (run_turns cfg bs s) ≡ true
  unfolding run_turns
  run_turns-leaves [] s since e h f m b l = absurd (omega arith)
  run_turns-leaves (a ∷ bs) s since e ((w, p, d), hs) f m b l =
      ap (λ r. leaves (after_turn (run_turns cfg bs) r)) (turn_contends a s w p)
      ∙ elim (Bool-cases (leb cfg.max_attempts (s.scan_retry_attempt + 1))) [
        | inl last ↦
            ap (λ r. leaves (after_turn (run_turns cfg bs) r))
              (contend-exits a s since e d (ground arith) last)
        | inr more ↦
            ap (λ r. leaves (after_turn (run_turns cfg bs) r))
              (contend_again a s since e (ground arith) more)
            ∙ run_turns-leaves bs (tried_again s (s.scan_retry_attempt + 1)) since e hs
                (ground arith) m (omega arith) (left more b)
      ]
    where
      left :
          leb cfg.max_attempts (s.scan_retry_attempt + 1) ≡ false
          → cfg.max_attempts ≤ s.scan_retry_attempt + length (a ∷ bs)
          → 1 ≤ length bs
      left more b = ground arith

  -- What a turn that leaves has met.
  abbrev pub GaveUp : Answers → Scanner → Ended → Type 0
  GaveUp a s (goes_on t acts) = Unit
  GaveUp a s (system_exit acts) =
      (a.scan ≡ in_progress)
      × (cfg.max_attempts ≤ s.scan_retry_attempt + 1)
      × (cfg.restart_after_seconds ≤ elapsed (or_default s.contention_since a.now) a.later)

  since_episode :
      (a : Answers) (s : Scanner)
      → or_default (episode a s).contention_since a.now ≡ or_default s.contention_since a.now
  since_episode a s = go s.contention_since refl
    where
      go :
          (o : Option ℕ)
          → s.contention_since ≡ o
          → or_default (episode a s).contention_since a.now ≡ or_default s.contention_since a.now
      go none e = rw e refl
      go (some t) e = rw e refl

  escalate-GaveUp :
      (a : Answers) (s t : Scanner) (since : ℕ) (before : List Action)
      → a.scan ≡ in_progress
      → cfg.max_attempts ≤ s.scan_retry_attempt + 1
      → since ≡ or_default s.contention_since a.now
      → GaveUp a s (escalate cfg a since before t)
  unfolding escalate
  escalate-GaveUp a s t since before p m e =
      if_either (GaveUp a s) (leb cfg.restart_after_seconds (elapsed since a.later))
        (λ h. (p, m, rw⁻¹ e (leb→le _ _ h)))
        λ _.
          if_either (GaveUp a s)
            (cfg.adapter_reset_enabled
              && leb cfg.adapter_reset_interval (a.later - t.last_adapter_reset))
            (λ _. tt)
            λ _.
              if_either (GaveUp a s) (leb cfg.summary_interval (a.later - t.last_contention_log))
                (λ _. tt) (λ _. tt)

  contend-GaveUp : (a : Answers) (s : Scanner) → a.scan ≡ in_progress → GaveUp a s (contend cfg a s)
  unfolding contend
  contend-GaveUp a s p =
      if_either (GaveUp a s) (leb 1024 s.scan_retry_attempt) (λ _. tt)
        λ _.
          if_either (GaveUp a s) (leb cfg.max_attempts (s.scan_retry_attempt + 1))
            (λ m.
              escalate-GaveUp a s (tried_again (episode a s) 0) _ _ p (leb→le _ _ m)
                (since_episode a s))
            (λ _. tt)

  -- The process leaves for a restart only where BlueZ is busy, the attempts are used up, and the episode has
  -- lasted for the restart time; any other failure of a scan keeps the loop going.
  turn_gives_up : (a : Answers) (s : Scanner) → GaveUp a s (turn cfg a s)
  unfolding turn
  turn_gives_up a s =
      if_either (GaveUp a s) (cfg.sentry_mode_enabled && a.is_suspended) (λ _. tt)
        (λ _. go a.scan refl)
    where
      go :
          (r : Scan)
          → a.scan ≡ r
          → GaveUp a s (elim r [
            | scanned ↦
                goes_on
                  (record s { contention_since = none; scan_retry_attempt = 0 })
                  (persisted ∷ slept a.poll_interval ∷ [])
            | in_progress ↦ contend cfg a s
            | scan_failed ↦ goes_on s (slept a.poll_interval ∷ [])
          ])
      go scanned e = tt
      go in_progress e = contend-GaveUp a s e
      go scan_failed e = tt
