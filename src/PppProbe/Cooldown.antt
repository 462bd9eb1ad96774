-- ===== src/PppProbe/Cooldown.antt =====
-- The cooldown between two recoveries, across the restart with which a recovery ends.
use tibbit.Common.{
  ℕ, ◌+◌, ◌<◌, ◌≡◌, ◌&&◌, Bool, false, not, List, [], ◌∷◌, some, is_neg, arith, length, ltb, ◌==◌,
}
use tibbit.PppProbe.Platform.{Callbacks, ops_ready, Services}
use tibbit.PppProbe.{
  Probe, fail_threshold, submit_recovery_work, start_recovery, handle_failure, health_stop,
}
use tibbit.PppProbe.Handlers.{reset_runtime_state, recovery_handler, on_startup_finalize}

module _ {Iface E : Type 0} (interval_ms cooldown_ms : ℕ) (p : Services Iface E) where
  -- Failures one after another, the outside being in the given state each time.
  abbrev pub fail_all : List E → Probe Iface E → Probe Iface E
  fail_all [] s = s
  fail_all (e ∷ es) s = fail_all es (handle_failure interval_ms cooldown_ms p s e).0

  -- No recovery runs, none is remembered, and `n` failures have been counted.
  record Fresh (c : Callbacks Iface E) (n : ℕ) (s : Probe Iface E) : Type 0 where
    idle : s.recovery_running ≡ false
    none_remembered : s.last_recovery_ms ≡ 0
    counted : s.consecutive_failures ≡ n
    ready : ops_ready s.probe_ops ≡ some c

  restarted-Fresh :
      (ok : Bool) (s : Probe Iface E) (c : Callbacks Iface E) (e₀ e₁ : E)
      → ops_ready s.probe_ops ≡ some c
      → Fresh c 0
          (on_startup_finalize interval_ms cooldown_ms p ok
            (recovery_handler interval_ms cooldown_ms p s e₀).0
            e₁).0
  unfolding recovery_handler reset_runtime_state health_stop on_startup_finalize
  restarted-Fresh ok s c e₀ e₁ ready = ground arith

  failure-Fresh :
      (n : ℕ) (s : Probe Iface E) (c : Callbacks Iface E) (e : E)
      → n + 1 < fail_threshold
      → Fresh c n s
      → Fresh c (n + 1) (handle_failure interval_ms cooldown_ms p s e).0
  unfolding handle_failure
  failure-Fresh n s c e few h = ground arith

  fail_all-Fresh :
      (es : List E) (n : ℕ) (s : Probe Iface E) (c : Callbacks Iface E)
      → n + length es < fail_threshold
      → Fresh c n s
      → Fresh c (n + length es) (fail_all es s)
  fail_all-Fresh [] n s c few h = ground (arith, h)
  fail_all-Fresh (e ∷ es) n s c few h =
      let s' = (handle_failure interval_ms cooldown_ms p s e).0 in
      let same : n + 1 + length es ≡ n + length (e ∷ es) = omega arith in
      rw (← same) (
        fail_all-Fresh es (n + 1) s' c (omega (arith, few))
          (failure-Fresh n s c e (omega (arith, few)) h))

  failure_recovers :
      (n : ℕ) (s : Probe Iface E) (c : Callbacks Iface E) (e : E)
      → Fresh c n s
      → (handle_failure interval_ms cooldown_ms p s e).0.recovery_running
        ≡ (not (ltb (n + 1) fail_threshold) && not (is_neg (c.submit_recovery e).0))
  unfolding handle_failure start_recovery submit_recovery_work
  failure_recovers n s c e h = ground arith

  -- However long `cooldown_ms` is and whatever the clock says, once a recovery has run, and
  -- `trigger_restart` has reset the probe, the cooldown does not hold the next recovery back: after
  -- the startup has ended, well or not, of the failures that follow one another the first three
  -- start no recovery and the fourth starts one if its work item can be queued.
  pub restart_forgets_cooldown :
      (ok : Bool) (s : Probe Iface E) (c : Callbacks Iface E) (e₀ e₁ e : E) (es : List E)
      → ops_ready s.probe_ops ≡ some c
      → length es < fail_threshold
      → let restarted = (recovery_handler interval_ms cooldown_ms p s e₀).0 in
        let started = (on_startup_finalize interval_ms cooldown_ms p ok restarted e₁).0 in
        ((fail_all es started).recovery_running ≡ false)
        × ((handle_failure interval_ms cooldown_ms p (fail_all es started) e).0.recovery_running
            ≡ (length es == 3 && not (is_neg (c.submit_recovery e).0)))
  restart_forgets_cooldown ok s c e₀ e₁ e es ready few =
      let restarted = (recovery_handler interval_ms cooldown_ms p s e₀).0 in
      let started = (on_startup_finalize interval_ms cooldown_ms p ok restarted e₁).0 in
      let fresh =
        fail_all-Fresh es 0 started c (omega (arith, few)) (restarted-Fresh ok s c e₀ e₁ ready) in
      let after = failure_recovers (0 + length es) (fail_all es started) c e fresh in
      (fresh.idle, ground (arith, few, after))
