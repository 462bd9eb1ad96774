-- ===== src/PppProbe/Failure.antt =====
-- What follows a result of the periodic probe.
use tibbit.Common.{
  ℕ, ◌+◌, ◌<◌, ◌≡◌, refl, ◌≢◌, ◌⊎◌, inl, inr, Bool, true, false, not, ◌&&◌, ◌||◌, some, ℤ, is_neg,
  ltb, leb, ◌==◌, arith, if◌then◌else◌, Bool-cases,
}
use tibbit.PppProbe.Platform.{health_work, Callbacks, ops_ready, Services}
use tibbit.PppProbe.{
  Probe, fail_threshold, unreachable_interval_ms, atomic_inc, reschedule_ms, submit_recovery_work,
  health_schedule, start_recovery, handle_failure, handle_result,
}

module _ {Iface E : Type 0} (interval_ms cooldown_ms : ℕ) (p : Services Iface E) where
  -- A failed probe starts a recovery if it is at least the fourth in a row, if no recovery was
  -- started since boot or the last one was `cooldown_ms` or more ago, if none is running, and if
  -- its work item can be queued; in any other case the recovery flag stays as it was.
  pub recovery_starts :
      (s : Probe Iface E) (e : E)
      → (handle_failure interval_ms cooldown_ms p s e).0.recovery_running ≡ (
          s.recovery_running
          || leb fail_threshold (s.consecutive_failures + 1)
            && (s.last_recovery_ms == 0 || leb (s.last_recovery_ms + cooldown_ms) (p.uptime e))
            && not (is_neg (submit_recovery_work s e).0))
  unfolding handle_failure start_recovery submit_recovery_work
  recovery_starts s e = ground arith

  -- The health check is armed again: from `e` or from what a failed submission of the recovery
  -- left.
  abbrev pub Rearmed : Callbacks Iface E → E → E → Type 0
  Rearmed c e e' =
      (delay_ms : ℕ) × (0 < delay_ms)
      × ((e' ≡ (c.reschedule_work health_work delay_ms e).1)
          ⊎ (e' ≡ (c.reschedule_work health_work delay_ms (c.submit_recovery e).1).1)
            × (is_neg (c.submit_recovery e).0 ≡ true))

  pub health_schedule_rearms :
      (s : Probe Iface E) (c : Callbacks Iface E) (e : E)
      → interval_ms ≢ 0
      → s.enabled ≡ true
      → ops_ready s.probe_ops ≡ some c
      → (delay_ms : ℕ) × (0 < delay_ms)
        × (health_schedule interval_ms cooldown_ms p (ℤ.negsuc 0) s e
            ≡ (c.reschedule_work health_work delay_ms e).1)
  unfolding health_schedule reschedule_ms
  health_schedule_rearms s c e on enabled ready = (
    if s.cycle_timeout_ms == 0 then interval_ms else s.cycle_timeout_ms,
    ground arith,
    ground arith,
  )

  abbrev Continues : Callbacks Iface E → E → Probe Iface E × E → Type 0
  Continues c e (s', e') =
      (s'.enabled ≡ true)
      × (Rearmed c e e'
          ⊎ (e' ≡ (c.submit_recovery e).1)
            × (is_neg (c.submit_recovery e).0 ≡ false)
            × (s'.recovery_running ≡ true)
            × (s'.consecutive_failures ≡ 0))

  retry-Continues :
      (s : Probe Iface E) (c : Callbacks Iface E) (e : E)
      → interval_ms ≢ 0
      → s.enabled ≡ true
      → ops_ready s.probe_ops ≡ some c
      → Continues c e (s, health_schedule interval_ms cooldown_ms p (ℤ.negsuc 0) s e)
  retry-Continues s c e on enabled ready =
      let (d, positive, armed) = health_schedule_rearms s c e on enabled ready in
      (enabled, inl (d, positive, inl armed))

  submit_ready :
      (s : Probe Iface E) (c : Callbacks Iface E) (e : E)
      → ops_ready s.probe_ops ≡ some c
      → submit_recovery_work s e ≡ c.submit_recovery e
  unfolding submit_recovery_work
  submit_ready s c e ready = rw (ready, submit_recovery_work) refl

  start_recovery-Continues :
      (s : Probe Iface E) (c : Callbacks Iface E) (e : E)
      → interval_ms ≢ 0
      → s.enabled ≡ true
      → ops_ready s.probe_ops ≡ some c
      → Continues c e (start_recovery interval_ms cooldown_ms p s e)
  unfolding start_recovery
  start_recovery-Continues s c e on enabled ready =
      let stopped : Probe Iface E = record s {
        recovery_running = false;
        consecutive_failures = 0;
        last_recovery_ms = p.uptime e;
      } in
      let (d, positive, armed) =
        health_schedule_rearms stopped c (c.submit_recovery e).1 on enabled ready in
      let sent = submit_ready (record stopped { recovery_running = true }) c e ready in
      elim (Bool-cases (is_neg (c.submit_recovery e).0)) [
        | inl f ↦ rw (sent, f) (enabled, inl (d, positive, inr (armed, refl)))
        | inr f ↦ rw (sent, f) (enabled, inr (refl, refl, refl, refl))
      ]

  handle_failure-Continues :
      (s₀ : Probe Iface E) (c : Callbacks Iface E) (e : E)
      → interval_ms ≢ 0
      → s₀.enabled ≡ true
      → ops_ready s₀.probe_ops ≡ some c
      → Continues c e (handle_failure interval_ms cooldown_ms p s₀ e)
  unfolding handle_failure
  handle_failure-Continues s₀ c e on enabled ready =
      let s : Probe Iface E = record s₀ {
        cycle_timeout_ms = unreachable_interval_ms;
        consecutive_failures = s₀.consecutive_failures + 1;
      } in
      let retry = retry-Continues s c e on enabled ready in
      let cooling =
        not (s₀.last_recovery_ms == 0) && ltb (p.uptime e) (s₀.last_recovery_ms + cooldown_ms) in
      elim (Bool-cases (ltb (s₀.consecutive_failures + 1) fail_threshold)) [
        | inl f ↦ rw f retry
        | inr f ↦ elim (Bool-cases cooling) [
          | inl g ↦ rw (f, g) retry
          | inr g ↦ elim (Bool-cases s₀.recovery_running) [
            | inl h ↦ rw (f, g, h) (rw h at retry)
            | inr h ↦ rw (f, g, h) (start_recovery-Continues s c e on enabled ready)
          ]
        ]
      ]

  -- While the probe is enabled, an outcome of a ping never stops it: a health check is armed
  -- again with a delay that is not 0, or the outcome is a failure and starts a recovery, whose
  -- work item has been queued, with the failures counted from 0 again.
  pub handle_result_continues :
      (probe_ok : Bool) (s : Probe Iface E) (c : Callbacks Iface E) (e : E)
      → interval_ms ≢ 0
      → s.enabled ≡ true
      → ops_ready s.probe_ops ≡ some c
      → let (s', e') = handle_result interval_ms cooldown_ms p probe_ok s e in
        (s'.enabled ≡ true)
        × (Rearmed c e e'
            ⊎ (e' ≡ (c.submit_recovery e).1)
              × (is_neg (c.submit_recovery e).0 ≡ false)
              × (probe_ok ≡ false)
              × (s'.recovery_running ≡ true)
              × (s'.consecutive_failures ≡ 0))
  unfolding handle_result
  handle_result_continues true s c e on enabled ready =
      let (d, positive, armed) =
        health_schedule_rearms
          (record s {
            pass_count = atomic_inc s.pass_count;
            consecutive_failures = 0;
            full_restart_attempts = 0;
            cycle_timeout_ms = interval_ms;
          })
          c e on enabled ready in
      (enabled, inl (d, positive, inl armed))
  handle_result_continues false s c e on enabled ready =
      let after =
        handle_failure-Continues (record s { fail_count = atomic_inc s.fail_count }) c e on enabled
          ready in
      elim after.1 [
        | inl armed ↦ (after.0, inl armed)
        | inr (sent, queued, running, reset) ↦ (after.0, inr (sent, queued, refl, running, reset))
      ]
