-- ===== src/PppProbe.antt =====
-- tb45_ppp_probe.c: the periodic probe of the PPP link, which restarts the modem after repeated
-- failures. The static variables are one record, and each function is one step on it and on the
-- state `E` of what lies outside: the kernel's work items and clock, the network interfaces, the
-- ping service, and the callbacks of `struct tb45_ppp_probe_ops`. Times are the milliseconds since
-- boot that `k_uptime_get` answers. `atomic_t` counters wrap at 2 ^ 32; the `int` of consecutive
-- failures is unbounded here.
pub mod Platform
pub mod Handlers
pub mod Failure
pub mod Cooldown
pub mod Restore
mod Tests
use tibbit.Common.{
  ℕ, ◌+◌, ◌%◌, ◌^◌, Bool, true, false, not, ◌&&◌, ◌||◌, Option, none, some, ℤ, pos, negsuc,
  pos_part, is_neg, eqb_ℤ, ltb, ◌==◌, if◌then◌else◌,
}
use tibbit.Common.Errno.{einval, eagain}
use tibbit.PppProbe.Platform.{
  Work, arm_work, health_work, runtime_defaults_work, Callbacks, Ops, ops_ready, Services,
}

abbrev pub fail_threshold : ℕ
fail_threshold = 4

abbrev pub unreachable_interval_ms : ℕ
unreachable_interval_ms = 5000

abbrev pub arm_retry_ms : ℕ
arm_retry_ms = 1000

abbrev pub restore_delay_ms : ℕ
restore_delay_ms = 500

-- TB45_WAIT_PPP_READY_TIMEOUT_MS / TB45_PPP_RUNTIME_DEFAULT_RESTORE_DELAY_MS
abbrev pub restore_max_attempts : ℕ
restore_max_attempts = 60

-- `atomic_inc`
abbrev pub atomic_inc : ℕ → ℕ
atomic_inc n = (n + 1) % 2 ^ 32

pub record Probe (Iface E : Type 0) : Type 0 where
  pub probe_ops : Option (Ops Iface E)
  pub recovery_running : Bool
  pub pass_count : ℕ
  pub fail_count : ℕ
  pub precheck_skip_count : ℕ
  pub gate_skip_count : ℕ
  pub enabled : Bool
  pub pending : Bool
  pub consecutive_failures : ℕ
  pub last_recovery_ms : ℕ
  pub active_since_ms : ℕ
  pub cycle_timeout_ms : ℕ
  pub full_restart_attempts : ℕ
  pub restore_attempts : ℕ

-- `struct tb45_cellular_probe_info`
pub record ProbeInfo : Type 0 where
  pub pass_count : ℕ
  pub fail_count : ℕ
  pub precheck_skip_count : ℕ
  pub gate_skip_count : ℕ
  pub periodic_interval_ms : ℕ
  pub active_since_ms : ℕ

module _ {Iface E : Type 0} where
  unfoldable pub reschedule_ms : Work → ℤ → Probe Iface E → E → ℤ × E
  reschedule_ms work delay_ms s e = elim (ops_ready s.probe_ops) [
    | none ↦ (eagain, e)
    | some c ↦ c.reschedule_work work (pos_part delay_ms) e
  ]

  unfoldable pub submit_recovery_work : Probe Iface E → E → ℤ × E
  submit_recovery_work s e = elim (ops_ready s.probe_ops) [
    | none ↦ (eagain, e)
    | some c ↦ c.submit_recovery e
  ]

  unfoldable pub iface_runtime_ready : Option Iface → Probe Iface E → E → Bool
  iface_runtime_ready iface s e = elim (ops_ready s.probe_ops) [
    | none ↦ false
    | some c ↦ c.ppp_iface_runtime_ready iface e
  ]

  unfoldable pub iface_runtime_defaults_ready : Option Iface → Probe Iface E → E → Bool
  iface_runtime_defaults_ready iface s e = elim (ops_ready s.probe_ops) [
    | none ↦ false
    | some c ↦ c.ppp_iface_runtime_defaults_ready iface e
  ]

  unfoldable pub restore_runtime_defaults : Probe Iface E → E → ℤ × E
  restore_runtime_defaults s e = elim (ops_ready s.probe_ops) [
    | none ↦ (eagain, e)
    | some c ↦ c.restore_ppp_runtime_defaults e
  ]

-- `interval_ms` is CONFIG_APP_TB45_PPP_PERIODIC_PROBE_INTERVAL_MS and `cooldown_ms` is
-- CONFIG_APP_TB45_PPP_PERIODIC_RECOVERY_COOLDOWN_MS, neither of which Kconfig lets be negative.
module _ {Iface E : Type 0} (interval_ms cooldown_ms : ℕ) (p : Services Iface E) where
  unfoldable pub health_schedule : ℤ → Probe Iface E → E → E
  unfolding reschedule_ms
  health_schedule delay_ms s e =
      let cycle = if s.cycle_timeout_ms == 0 then interval_ms else s.cycle_timeout_ms in
      let delay = if is_neg delay_ms then pos cycle else delay_ms in
      if interval_ms == 0 || not s.enabled then e else (reschedule_ms health_work delay s e).1

  unfoldable pub arm_schedule : ℤ → Probe Iface E → E → E
  unfolding reschedule_ms
  arm_schedule delay_ms s e =
      let delay = if is_neg delay_ms then pos arm_retry_ms else delay_ms in
      if interval_ms == 0 || not s.enabled then e else (reschedule_ms arm_work delay s e).1

  -- The end of `handle_failure`, behind its three guards.
  unfoldable pub start_recovery : Probe Iface E → E → Probe Iface E × E
  unfolding health_schedule submit_recovery_work
  start_recovery s₀ e =
      let s = record s₀ {
        recovery_running = true;
        consecutive_failures = 0;
        last_recovery_ms = p.uptime e;
      } in
      let (submit_ret, e') = submit_recovery_work s e in
      let stopped = record s { recovery_running = false } in
      if is_neg submit_ret then (stopped, health_schedule (negsuc 0) stopped e') else (s, e')

  unfoldable pub handle_failure : Probe Iface E → E → Probe Iface E × E
  unfolding health_schedule start_recovery
  handle_failure s₀ e =
      let s = record s₀ {
        cycle_timeout_ms = unreachable_interval_ms;
        consecutive_failures = s₀.consecutive_failures + 1;
      } in
      let retry : Probe Iface E × E = (s, health_schedule (negsuc 0) s e) in
      if ltb s.consecutive_failures fail_threshold
      then retry
      else if not (s.last_recovery_ms == 0) && ltb (p.uptime e) (s.last_recovery_ms + cooldown_ms)
      then retry
      else if s.recovery_running
      then retry
      else start_recovery s e

  unfoldable pub handle_result : Bool → Probe Iface E → E → Probe Iface E × E
  unfolding health_schedule handle_failure
  handle_result true s e =
      let s' = record s {
        pass_count = atomic_inc s.pass_count;
        consecutive_failures = 0;
        full_restart_attempts = 0;
        cycle_timeout_ms = interval_ms;
      } in
      (s', health_schedule (negsuc 0) s' e)
  handle_result false s e = handle_failure (record s { fail_count = atomic_inc s.fail_count }) e

  -- `tb45_periodic_ping_probe_complete`
  unfoldable pub ping_complete : ℤ → Probe Iface E → E → Probe Iface E × E
  unfolding handle_result
  ping_complete ret s₀ e =
      let s = record s₀ { pending = false } in
      if interval_ms == 0 || not s.enabled then (s, e) else handle_result (not (is_neg ret)) s e

  unfoldable pub health_stop : Probe Iface E → E → Probe Iface E × E
  health_stop s e = (
    record s {
      consecutive_failures = 0;
      active_since_ms = 0;
      cycle_timeout_ms = interval_ms;
      pending = false;
    },
    p.cancel health_work (p.cancel arm_work e),
  )

  -- What the two periodic handlers ask first: are the defaults in place, or can they be restored?
  unfoldable pub check_ready : Probe Iface E → E → Bool × E
  unfolding iface_runtime_ready iface_runtime_defaults_ready restore_runtime_defaults
  check_ready s e =
      let iface = p.first_ppp e in
      let e' = (restore_runtime_defaults s e).1 in
      if iface_runtime_defaults_ready iface s e
      then (true, e)
      else if iface_runtime_ready iface s e
      then (iface_runtime_defaults_ready iface s e', e')
      else (false, e)
