-- ===== src/PppProbe/Handlers.antt =====
-- tb45_ppp_probe.c: its work handlers and its public functions.
use tibbit.Common.{
  ℕ, ◌+◌, Bool, true, false, not, ◌&&◌, ◌||◌, Option, none, some, ℤ, pos, negsuc, is_neg, eqb_ℤ,
  ltb, ◌==◌, if◌then◌else◌,
}
use tibbit.Common.Errno.{einval}
use tibbit.PppProbe.Platform.{arm_work, runtime_defaults_work, Ops, ops_ready, Services}
use tibbit.PppProbe.{
  Probe, ProbeInfo, atomic_inc, arm_retry_ms, restore_delay_ms, restore_max_attempts, reschedule_ms,
  iface_runtime_ready, iface_runtime_defaults_ready, restore_runtime_defaults, health_schedule,
  arm_schedule, handle_failure, handle_result, health_stop, check_ready,
}

module _ {Iface E : Type 0} (interval_ms cooldown_ms : ℕ) (p : Services Iface E) where
  -- The modem is in service: remember since when, and go back to the normal interval.
  unfoldable pub activate : Probe Iface E → E → Probe Iface E × E
  unfolding health_schedule
  activate s₀ e =
      let s = record s₀ {
        active_since_ms = if s₀.active_since_ms == 0 then p.uptime e else s₀.active_since_ms;
        cycle_timeout_ms = interval_ms;
      } in
      (s, health_schedule interval_ms cooldown_ms p (negsuc 0) s e)

  unfoldable pub arm_handler : Probe Iface E → E → Probe Iface E × E
  unfolding check_ready arm_schedule activate
  arm_handler s e =
      let (ready, e') = check_ready interval_ms cooldown_ms p s e in
      let skipped = record s { gate_skip_count = atomic_inc s.gate_skip_count } in
      if interval_ms == 0 || not s.enabled
      then (s, e)
      else if not ready
      then (skipped, arm_schedule interval_ms cooldown_ms p (pos arm_retry_ms) skipped e')
      else activate s e'

  unfoldable pub reset_runtime_state : Probe Iface E → E → Probe Iface E × E
  unfolding health_stop
  reset_runtime_state s e =
      health_stop interval_ms cooldown_ms p
        (record s {
          recovery_running = false;
          restore_attempts = 0;
          full_restart_attempts = 0;
          last_recovery_ms = 0;
        })
        e

  -- Its `trigger_restart` is called through pointers that it does not check again.
  unfoldable pub recovery_handler : Probe Iface E → E → Probe Iface E × E
  unfolding reset_runtime_state
  recovery_handler s₀ e =
      let s = record s₀ {
        full_restart_attempts = atomic_inc s₀.full_restart_attempts;
        recovery_running = false;
      } in
      elim (ops_ready s₀.probe_ops) [
        | none ↦ (s, e)
        | some c ↦
            let (s', e') = reset_runtime_state s (c.trigger_restart.before_reset e) in
            (s', c.trigger_restart.after_reset e')
      ]

  -- The end of `health_handler`: one ping, unless one is on its way.
  unfoldable pub send_ping : Probe Iface E → E → Probe Iface E × E
  unfolding handle_result
  send_ping s₀ e =
      let s = record s₀ { pending = true } in
      let (ret, e') = p.ping_enqueue e in
      let failed = record s { pending = false } in
      if s₀.pending
      then (s₀, e)
      else if is_neg ret
      then handle_result interval_ms cooldown_ms p false failed e'
      else (s, e')

  unfoldable pub health_handler : Probe Iface E → E → Probe Iface E × E
  unfolding check_ready handle_failure send_ping
  health_handler s e =
      let (ready, e') = check_ready interval_ms cooldown_ms p s e in
      let skipped = record s {
        active_since_ms = 0;
        gate_skip_count = atomic_inc s.gate_skip_count;
      } in
      if interval_ms == 0 || not s.enabled
      then (s, e)
      else if not ready
      then handle_failure interval_ms cooldown_ms p skipped e'
      else send_ping s e'

  unfoldable pub init : Option (Ops Iface E) → Probe Iface E → ℤ × Probe Iface E
  init none s = (einval, s)
  init (some ops) s = (
    elim (ops_ready (some ops)) [ none ↦ einval | some c ↦ pos 0 ],
    record s { probe_ops = some ops; cycle_timeout_ms = interval_ms },
  )

  unfoldable pub set_enabled : Bool → Probe Iface E → E → Probe Iface E × E
  unfolding health_stop iface_runtime_defaults_ready arm_schedule activate
  set_enabled false s e =
      let (s', e') =
        health_stop interval_ms cooldown_ms p
          (record s { enabled = false; full_restart_attempts = 0; restore_attempts = 0 }) e in
      (s', p.cancel runtime_defaults_work e')
  set_enabled true s₀ e =
      let s = record s₀ { enabled = true } in
      if interval_ms == 0
      then (s, e)
      else if not (iface_runtime_defaults_ready (p.first_ppp e) s e)
      then (s, arm_schedule interval_ms cooldown_ms p (pos arm_retry_ms) s e)
      else activate s (p.cancel arm_work e)

  -- The destination is NULL where the first argument is false.
  unfoldable pub get_enabled : Bool → Probe Iface E → ℤ × Option Bool
  get_enabled false s = (einval, none)
  get_enabled true s = (pos 0, some s.enabled)

  unfoldable pub get_info : Bool → Probe Iface E → ℤ × Option ProbeInfo
  get_info false s = (einval, none)
  get_info true s = (
    pos 0,
    some (record {
      pass_count = s.pass_count;
      fail_count = s.fail_count;
      precheck_skip_count = s.precheck_skip_count;
      gate_skip_count = s.gate_skip_count;
      periodic_interval_ms = interval_ms;
      active_since_ms = s.active_since_ms;
    }),
  )

  unfoldable pub on_startup_finalize : Bool → Probe Iface E → E → Probe Iface E × E
  unfolding health_schedule
  on_startup_finalize startup_check_done s₀ e =
      let s = record s₀ { consecutive_failures = 0 } in
      let s' = record s { active_since_ms = p.uptime e; cycle_timeout_ms = interval_ms } in
      if startup_check_done && not (interval_ms == 0) && s.enabled
      then (s', health_schedule interval_ms cooldown_ms p (negsuc 0) s' e)
      else (s, e)

  -- Another attempt of `runtime_defaults_handler` after the delay, if the limit allows one.
  unfoldable pub retry_defaults : Probe Iface E → E → Probe Iface E × E
  unfolding reschedule_ms
  retry_defaults s e =
      if ltb s.restore_attempts restore_max_attempts
      then (s, (reschedule_ms runtime_defaults_work (pos restore_delay_ms) s e).1)
      else (s, e)

  unfoldable pub runtime_defaults_handler : Probe Iface E → E → Probe Iface E × E
  unfolding iface_runtime_ready iface_runtime_defaults_ready restore_runtime_defaults retry_defaults
      set_enabled
  runtime_defaults_handler s₀ e =
      let s = record s₀ { restore_attempts = s₀.restore_attempts + 1 } in
      let iface = p.first_ppp e in
      let (ret, e') = restore_runtime_defaults s e in
      if not (iface_runtime_ready iface s e)
      then retry_defaults s e
      else if iface_runtime_defaults_ready iface s e
      then set_enabled true s e
      else if eqb_ℤ ret (pos 0) && iface_runtime_defaults_ready iface s e'
      then set_enabled true s e'
      else retry_defaults s e'

  unfoldable pub on_ppp_ready_post_actions : Probe Iface E → E → Probe Iface E × E
  unfolding reschedule_ms
  on_ppp_ready_post_actions s₀ e =
      let s = record s₀ { restore_attempts = 0 } in
      (s, (reschedule_ms runtime_defaults_work (pos restore_delay_ms) s e).1)

  -- `tb45_ppp_probe_is_healthy_reachable` with CONFIG_NET_L2_PPP
  unfoldable pub is_healthy_reachable : Probe Iface E → E → Bool × Probe Iface E × E
  unfolding iface_runtime_ready
  is_healthy_reachable s e = elim (p.first_ppp e) [
    | none ↦ (false, s, e)
    | some iface ↦
        let skipped = record s { precheck_skip_count = atomic_inc s.precheck_skip_count } in
        let (ret, e') = p.ping_run e in
        if not (iface_runtime_ready (some iface) s e) || not (p.is_default iface e)
        then (false, skipped, e)
        else (not (is_neg ret), s, e')
  ]
