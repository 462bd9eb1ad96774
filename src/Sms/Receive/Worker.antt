-- ===== src/Sms/Receive/Worker.antt =====
-- tb45_sms.c: the poll item of the receiving part, which takes the triggers off their queue, and
-- all its state in one record.
use tibbit.Common.{
  ℕ, zero, suc, ◌+◌, true, false, not, ◌||◌, Option, none, some, pos, is_neg, ◌==◌, if◌then◌else◌,
}
use tibbit.DelayableRetry
use tibbit.DelayableRetry.{Retry}
use tibbit.Sms.Receive.Platform.{Trigger, Services}
use tibbit.Sms.Receive.{InitState, Rx, Config, init_is_ready, init_merge_trigger, resume_poll}
use tibbit.Sms.Receive.Init.{set_last_ret, init_retry_ops, init_reschedule}
use tibbit.Sms.Receive.Delete.{delete_retry_ops, delete_kick}
use tibbit.Sms.Receive.Capture.{scan_unread, process_index}

pub record Receiver (E : Type 0) : Type 0 where
  pub rx : Rx E
  pub init_retry : Option (Retry (Rx E))
  pub delete_retry : Option (Retry (Rx E))

module _ {E : Type 0} (c : Config) (p : Services E) where
  unfoldable pub init_retry_start : Receiver E → Receiver E
  unfolding init_reschedule DelayableRetry.start
  init_retry_start m =
      let (_, retry, rx) = DelayableRetry.start (init_reschedule c p) m.init_retry 0 m.rx in
      record m { rx = rx; init_retry = retry }

  unfoldable pub process_trigger : Trigger → Receiver E → Receiver E
  unfolding init_is_ready init_merge_trigger init_retry_start set_last_ret scan_unread process_index
      DelayableRetry.is_pending
  process_trigger trigger m =
      let r = if m.rx.setup_done then m.rx else record (m.rx) { init_wait_logged = true } in
      let merged = init_merge_trigger trigger r in
      let logged = record r { init_completed_logged = true } in
      if not (init_is_ready c r)
      then if DelayableRetry.is_pending m.init_retry
        then record m { rx = merged }
        else init_retry_start (record m { rx = set_last_ret (pos 0) merged })
      else if not (trigger.full_scan == 0) || trigger.storage_index == 0
      then record m { rx = (scan_unread p logged).1 }
      else record m { rx = (process_index p trigger.storage_index logged).1 }

  -- The loop of the handler, which takes a trigger off the queue in each round. `none` means that
  -- the rounds have run out.
  unfoldable pub poll_loop : ℕ → Receiver E → Option (Receiver E)
  unfolding process_trigger
  poll_loop zero m = none
  poll_loop (suc n) m =
      let (ret, got, env) = p.triggers.get m.rx.env in
      let m' = record m { rx = record (m.rx) { env = env } } in
      if is_neg ret then some m' else elim got [
        | none ↦ some m'
        | some trigger ↦
            let done = process_trigger trigger m' in
            let rest = poll_loop n done in if done.rx.capture_ctx.active then some done else rest
      ]

  unfoldable pub poll_work_handler : Receiver E → Option (Receiver E)
  unfolding poll_loop delete_kick resume_poll DelayableRetry.is_pending
  poll_work_handler m = elim (poll_loop (p.triggers_used m.rx.env + 1) m) [
    | none ↦ none
    | some m' ↦
        let (retry, rx) = delete_kick p m'.delete_retry m'.rx in
        let kicked = record m' { rx = rx; delete_retry = retry } in
        some (
          if m'.rx.capture_ctx.active
          then m'
          else if DelayableRetry.is_pending retry
          then kicked
          else record kicked { rx = resume_poll p rx })
  ]

  -- At boot. The objects of the kernel are made ready elsewhere.
  unfoldable pub rx_init : Receiver E → Receiver E
  unfolding init_retry_ops delete_retry_ops resume_poll DelayableRetry.init
  rx_init m =
      let rx = record (m.rx) {
        started = true;
        init_ctx = record { state = InitState.idle; pending_trigger = none; last_ret = pos 0 };
        delete_ctx = record { storage_index = 0; last_ret = pos 0 };
        capture_ctx = record { scanning = false; last_ret = pos 0; active = false };
        start_allowed = false;
      } in
      if m.rx.started then m else record {
        rx = resume_poll p rx;
        init_retry = DelayableRetry.init m.init_retry (some (init_retry_ops c p));
        delete_retry = DelayableRetry.init m.delete_retry (some (delete_retry_ops p));
      }
