-- ===== src/Sms/Receive.antt =====
-- tb45_sms.c: receiving. Triggers, each for one stored message or for a scan, wait in a queue, which
-- a work item polls; notices of messages go into another. The atomics are plain fields: those of
-- 0 and 1 are Booleans, the counters wrap around. Logging is left out, but for its flags.
pub mod Platform
pub mod Init
pub mod Delete
pub mod Capture
pub mod Worker
pub mod Newest
pub mod Queues
pub mod Scan
pub mod Started
pub mod Steady
pub mod Drain
pub mod Waiting
mod Tests
pub mod Setup
use tibbit.Common.{
  ℕ, ◌+◌, ◌%◌, ◌^◌, Bool, true, false, not, ◌||◌, Option, none, some, ℤ, pos, eqb_ℤ, ◌==◌, Bytes,
  if◌then◌else◌,
}
use tibbit.Common.Errno.{eagain, einval, enomsg}
use tibbit.Kernel.{MsgQueue}
use tibbit.Sms.Receive.Platform.{Trigger, Notice, Services}

-- `enum tb45_sms_rx_init_state`
pub data InitState : Type 0 where
  idle cmgf cscs cpms cnmi cleanup ready : InitState

-- `struct tb45_sms_rx_init_ctx`, without the kernel's objects and `cpms_cmd`, which is written
-- before it is read.
pub record InitCtx : Type 0 where
  pub state : InitState
  pub pending_trigger : Option Trigger  -- if `pending_trigger_valid`
  pub last_ret : ℤ

-- `struct tb45_sms_rx_delete_ctx`, without `cmd`
pub record DeleteCtx : Type 0 where
  pub storage_index : ℕ
  pub last_ret : ℤ

-- `struct tb45_sms_rx_capture_ctx`
pub record CaptureCtx : Type 0 where
  pub scanning : Bool  -- the state is CMGL, not IDLE
  pub last_ret : ℤ
  pub active : Bool

pub record Rx (E : Type 0) : Type 0 where
  pub started : Bool
  pub start_allowed : Bool
  pub setup_done : Bool
  pub cleanup_done : Bool
  pub init_wait_logged : Bool
  pub init_completed_logged : Bool
  pub wq_not_ready_warned : Bool
  pub init_retry_count : ℕ
  pub processed_count : ℕ
  pub scan_fail_count : ℕ
  pub delete_fail_count : ℕ
  pub trigger_queue_drop_count : ℕ
  pub result_queue_drop_count : ℕ
  pub init_ctx : InitCtx
  pub delete_ctx : DeleteCtx
  pub capture_ctx : CaptureCtx
  pub env : E

-- The Kconfig values that it reads.
pub record Config : Type 0 where
  pub startup_cleanup : Bool
  pub storage : Bytes
  pub scan_max_indexes : ℕ

-- `atomic_inc` on a uint32_t, where the value before is not used
abbrev pub next_count : ℕ → ℕ
next_count n = (n + 1) % 2 ^ 32

-- Two triggers become one for both.
unfoldable pub merge : Trigger → Trigger → Trigger
merge pending trigger =
    if not (pending.full_scan == 0)
      || not (trigger.full_scan == 0)
      || not (pending.storage_index == trigger.storage_index)
    then record { storage_index = 0; full_scan = 1 }
    else pending

module _ {E : Type 0} where
  unfoldable pub reset_runtime_state : Rx E → Rx E
  reset_runtime_state r = record r {
    setup_done = false;
    cleanup_done = false;
    init_wait_logged = false;
    init_completed_logged = false;
    init_ctx = record (r.init_ctx) {
      state = InitState.idle;
      pending_trigger = none;
      last_ret = pos 0;
    };
    capture_ctx = record { scanning = false; last_ret = pos 0; active = false };
  }

  unfoldable pub init_is_ready : Config → Rx E → Bool
  init_is_ready c r =
      if not r.setup_done then false else if not c.startup_cleanup then true else r.cleanup_done

  -- The trigger is not NULL where it is called.
  unfoldable pub init_merge_trigger : Trigger → Rx E → Rx E
  unfolding merge
  init_merge_trigger trigger r = record r {
    init_ctx = record (r.init_ctx) {
      pending_trigger = elim r.init_ctx.pending_trigger [
        | none ↦ some trigger
        | some pending ↦ some (merge pending trigger)
      ];
    };
  }

-- A message queue that makes room for the newest: the oldest is dropped if it is full. The answer,
-- and whether one was dropped.
unfoldable pub put_newest : {A E : Type 0} → MsgQueue A E → A → E → ℤ × Bool × E
put_newest q a e =
    let (ret, e₁) = q.put a e in
    let (_, _, e₂) = q.get e₁ in
    let (again_ret, e₃) = q.put a e₂ in
    if eqb_ℤ ret enomsg then (again_ret, true, e₃) else (ret, false, e₁)

module _ {E : Type 0} (p : Services E) where
  unfoldable pub submit_poll : Rx E → ℤ × Rx E
  submit_poll r =
      let (ret, env) = p.poll_submit r.env in
      if p.thread_ready r.env
      then (ret, record r { wq_not_ready_warned = false; env = env })
      else (eagain, record r { wq_not_ready_warned = true })

  -- The result is only logged.
  unfoldable pub resume_poll : Rx E → Rx E
  unfolding submit_poll
  resume_poll r = (submit_poll r).1

  unfoldable pub enqueue_trigger : ℕ → ℕ → Rx E → ℤ × Rx E
  unfolding put_newest resume_poll
  enqueue_trigger storage_index full_scan r =
      let trigger : Trigger = record { storage_index = storage_index; full_scan = full_scan } in
      let (ret, dropped, env) = put_newest p.triggers trigger r.env in
      let r' = record r {
        trigger_queue_drop_count =
            if dropped then next_count r.trigger_queue_drop_count else r.trigger_queue_drop_count;
        env = env;
      } in
      if not r.start_allowed
      then (eagain, r)
      else if eqb_ℤ ret (pos 0)
      then (pos 0, resume_poll r')
      else (ret, r')

  -- `k_msgq_put` answers 0 or a negative number.
  unfoldable pub publish_notice : ℕ → ℤ → Rx E → Rx E
  unfolding put_newest
  publish_notice storage_index status r =
      let notice : Notice = record { storage_index = storage_index; status = status } in
      let (ret, dropped, env) = put_newest p.notices notice r.env in
      let r' = record r {
        result_queue_drop_count =
            if dropped then next_count r.result_queue_drop_count else r.result_queue_drop_count;
        env = env;
      } in
      if eqb_ℤ ret (pos 0)
      then record r' { env = p.notify_rx_message storage_index status env }
      else r'

  unfoldable pub init_kick_pending_trigger : Rx E → Rx E
  unfolding enqueue_trigger
  init_kick_pending_trigger r = elim r.init_ctx.pending_trigger [
    | none ↦ r
    | some t ↦
        let r' = record r { init_ctx = record (r.init_ctx) { pending_trigger = none } } in
        (enqueue_trigger t.storage_index t.full_scan r').1
  ]

  -- The functions of tb45_sms.h that ask for messages to be read.
  unfoldable pub receive_trigger_scan : Rx E → ℤ × Rx E
  unfolding enqueue_trigger
  receive_trigger_scan r = enqueue_trigger 0 1 r

  unfoldable pub receive_trigger_index : ℕ → Rx E → ℤ × Rx E
  unfolding enqueue_trigger
  receive_trigger_index storage_index r =
      if storage_index == 0 then (einval, r) else enqueue_trigger storage_index 0 r

  unfoldable pub receive_prepare_for_modem_reconnect : Rx E → ℤ × Rx E
  unfolding reset_runtime_state
  receive_prepare_for_modem_reconnect r =
      (pos 0, reset_runtime_state (record r { start_allowed = false }))

  unfoldable pub receive_recover_after_modem_reconnect : Rx E → ℤ × Rx E
  unfolding reset_runtime_state receive_trigger_scan
  receive_recover_after_modem_reconnect r =
      receive_trigger_scan (record (reset_runtime_state r) { start_allowed = true })
