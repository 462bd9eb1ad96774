-- ===== src/PppProbe/Platform.antt =====
-- What tb45_ppp_probe.c calls: `struct tb45_ppp_probe_ops` of tb45_ppp_probe.h, whose pointers may
-- be NULL and whose two readiness callbacks only read the state, and the services of the kernel, of
-- the network stack and of tb45_ping.c.
use tibbit.Common.{ℕ, Bool, Option, some, ℤ, ◌>>=◌}

-- The delayable work items of the file.
pub data Work : Type 0 where
  arm_work : Work
  health_work : Work
  runtime_defaults_work : Work

-- The callback `trigger_restart` is `tb45_startup_ppp_check_route_ready_restart` of tb45_cellular.c,
-- which calls `tb45_ppp_probe_reset_runtime_state`: what it does outside the probe before that call
-- and after it.
pub record Restart (E : Type 0) : Type 0 where
  pub before_reset : E → E
  pub after_reset : E → E

pub record Ops (Iface E : Type 0) : Type 0 where
  pub reschedule_work : Option (Work → ℕ → E → ℤ × E)
  pub submit_work : Option (E → ℤ × E)  -- of the recovery work item, the only one submitted
  pub restore_ppp_runtime_defaults : Option (E → ℤ × E)
  pub ppp_iface_runtime_ready : Option (Option Iface → E → Bool)
  pub ppp_iface_runtime_defaults_ready : Option (Option Iface → E → Bool)
  pub trigger_restart : Option (Restart E)

-- The callbacks when none of them is NULL.
pub record Callbacks (Iface E : Type 0) : Type 0 where
  pub reschedule_work : Work → ℕ → E → ℤ × E
  pub submit_recovery : E → ℤ × E
  pub restore_ppp_runtime_defaults : E → ℤ × E
  pub ppp_iface_runtime_ready : Option Iface → E → Bool
  pub ppp_iface_runtime_defaults_ready : Option Iface → E → Bool
  pub trigger_restart : Restart E

-- `tb45_ppp_probe_ops_ready`, with the callbacks it has found where it answers true
unfoldable pub ops_ready : {Iface E : Type 0} → Option (Ops Iface E) → Option (Callbacks Iface E)
ops_ready o = do
  ops ← o
  reschedule ← ops.reschedule_work
  submit ← ops.submit_work
  restore ← ops.restore_ppp_runtime_defaults
  runtime_ready ← ops.ppp_iface_runtime_ready
  defaults_ready ← ops.ppp_iface_runtime_defaults_ready
  restart ← ops.trigger_restart
  some (record {
    reschedule_work = reschedule;
    submit_recovery = submit;
    restore_ppp_runtime_defaults = restore;
    ppp_iface_runtime_ready = runtime_ready;
    ppp_iface_runtime_defaults_ready = defaults_ready;
    trigger_restart = restart;
  })

pub record Services (Iface E : Type 0) : Type 0 where
  pub uptime : E → ℕ  -- k_uptime_get
  pub cancel : Work → E → E  -- k_work_cancel_delayable
  pub first_ppp : E → Option Iface  -- net_if_get_first_by_type
  pub is_default : Iface → E → Bool  -- net_if_get_default() == iface
  pub ping_enqueue : E → ℤ × E  -- tb45_ping_enqueue_ex, to the probe's target
  pub ping_run : E → ℤ × E  -- tb45_ping_run_ex, to the probe's target
