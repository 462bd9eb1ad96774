-- ===== src/PppProbe/Tests.antt =====
-- The probe over a network that never answers.
use tibbit.Common.{
  ℕ, ◌+◌, ◌≡◌, refl, ◌⊎◌, true, false, not, ◌&&◌, ◌||◌, some, List, [], ◌∷◌, pos, negsuc, is_neg,
  arith, leb, ◌==◌,
}
use tibbit.PppProbe.Platform.{Callbacks, Ops, ops_ready, Services}
use tibbit.PppProbe.{Probe, fail_threshold, submit_recovery_work, handle_failure, handle_result}
use tibbit.PppProbe.Handlers.{recovery_handler, on_startup_finalize}
use tibbit.PppProbe.Failure.{Rearmed, recovery_starts, handle_result_continues}
use tibbit.PppProbe.Cooldown.{fail_all, restart_forgets_cooldown}

-- The outside is the clock; whatever is scheduled takes a millisecond.
abbrev ops : Ops ℕ ℕ
ops = record {
  reschedule_work = some (λ w ms e. (pos 0, e + 1));
  submit_work = some (λ e. (pos 0, e + 1));
  restore_ppp_runtime_defaults = some (λ e. (negsuc 4, e));
  ppp_iface_runtime_ready = some (λ iface e. false);
  ppp_iface_runtime_defaults_ready = some (λ iface e. false);
  trigger_restart = some (record { before_reset = λ e. e; after_reset = λ e. e });
}

abbrev callbacks : Callbacks ℕ ℕ
callbacks = record {
  reschedule_work = λ w ms e. (pos 0, e + 1);
  submit_recovery = λ e. (pos 0, e + 1);
  restore_ppp_runtime_defaults = λ e. (negsuc 4, e);
  ppp_iface_runtime_ready = λ iface e. false;
  ppp_iface_runtime_defaults_ready = λ iface e. false;
  trigger_restart = record { before_reset = λ e. e; after_reset = λ e. e };
}

abbrev services : Services ℕ ℕ
services = record {
  uptime = λ e. e;
  cancel = λ w e. e;
  first_ppp = λ e. some 1;
  is_default = λ iface e. true;
  ping_enqueue = λ e. (negsuc 4, e);
  ping_run = λ e. (negsuc 4, e);
}

-- Three failures have been counted, and the last recovery was at 1000 ms.
abbrev failing : Probe ℕ ℕ
failing = record {
  probe_ops = some ops;
  recovery_running = false;
  pass_count = 0;
  fail_count = 3;
  precheck_skip_count = 0;
  gate_skip_count = 0;
  enabled = true;
  pending = true;
  consecutive_failures = 3;
  last_recovery_ms = 1000;
  active_since_ms = 1;
  cycle_timeout_ms = 5000;
  full_restart_attempts = 1;
  restore_attempts = 0;
}

ops_given : ops_ready (some ops) ≡ some callbacks
unfolding ops_ready
ops_given = refl

recovery_starts_example : (handle_failure 30000 60000 services failing 61000).0.recovery_running ≡ (
    false
    || leb fail_threshold (3 + 1)
      && (1000 == 0 || leb (1000 + 60000) 61000)
      && not (is_neg (submit_recovery_work failing 61000).0))
recovery_starts_example = recovery_starts 30000 60000 services failing 61000

handle_result_continues_example :
    let (s', e') = handle_result 30000 60000 services false failing 61000 in
    (s'.enabled ≡ true)
    × (Rearmed 30000 60000 services callbacks 61000 e'
        ⊎ (e' ≡ 61001)
          × (false ≡ false)
          × (false ≡ false)
          × (s'.recovery_running ≡ true)
          × (s'.consecutive_failures ≡ 0))
handle_result_continues_example =
    handle_result_continues 30000 60000 services false failing callbacks 61000 (ground arith) refl
      ops_given

-- A recovery at 61001 ms, and four failures within ten seconds of it.
restart_forgets_cooldown_example :
    let restarted = (recovery_handler 30000 60000 services failing 61001).0 in
    let started = (on_startup_finalize 30000 60000 services true restarted 62000).0 in
    let failures : List ℕ = 63000 ∷ 65000 ∷ 67000 ∷ [] in
    ((fail_all 30000 60000 services failures started).recovery_running ≡ false)
    × ((handle_failure 30000 60000 services
          (fail_all 30000 60000 services failures started)
          69000).0.recovery_running
        ≡ (3 == 3 && not (is_neg (callbacks.submit_recovery 69000).0)))
restart_forgets_cooldown_example =
    restart_forgets_cooldown 30000 60000 services true failing callbacks 61001 62000 69000
      (63000 ∷ 65000 ∷ 67000 ∷ []) ops_given (omega arith)
