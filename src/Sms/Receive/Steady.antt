-- ===== src/Sms/Receive/Steady.antt =====
-- tb45_sms_rx_process_trigger, and what it does to the queue of the triggers and to the callbacks of
-- the setup.
use tibbit.Common.{
  ℕ, ◌≡◌, refl, ◌∙◌, Bool, true, false, not, ◌||◌, if_elim, List, ℤ, pos, is_neg, eqb_ℤ, ◌==◌,
  arith, if◌then◌else◌, Bytes,
}
use tibbit.DelayableRetry
use tibbit.DelayableRetry.{Retry}
use tibbit.Sms.Receive.Platform.{Trigger, Notice, Services}
use tibbit.Sms.Receive.{Rx, Config, put_newest, publish_notice, init_is_ready, init_merge_trigger}
use tibbit.Sms.Receive.Init.{set_last_ret, set_state}
use tibbit.Sms.Receive.Capture.{report, scan_unread, capture_start_cmgl, process_index}
use tibbit.Sms.Receive.Worker.{Receiver, process_trigger}
use tibbit.Sms.Receive.Queues.{notice_of, put_newest_keeps}
use tibbit.Sms.Receive.Started.{Blind, IsArmed, init_retry_start_keeps}

-- What the worker calls, other than reading the queue of the triggers, leaves that queue alone.
pub record Alone {E : Type 0} (p : Services E) (triggers : E → List Trigger) : Type 0 where
  pub init_command : (cmd : Bytes) (e : E) → triggers (p.init_command cmd e).1 ≡ triggers e
  pub init_rearm : (ms : ℕ) (e : E) → triggers (p.init_reschedule ms e).1 ≡ triggers e
  pub capture_command : (cmd : Bytes) (e : E) → triggers (p.capture_command cmd e).1 ≡ triggers e
  pub put_notice : (n : Notice) (e : E) → triggers (p.notices.put n e).1 ≡ triggers e
  pub get_notice : (e : E) → triggers (p.notices.get e).2 ≡ triggers e
  pub notify : (i : ℕ) (ret : ℤ) (e : E) → triggers (p.notify_rx_message i ret e) ≡ triggers e

pub not-true : (b : Bool) → not b ≡ true → b ≡ false
not-true b h = ground (arith, h)

module _ {E : Type 0} (c : Config) (p : Services E) (triggers : E → List Trigger)
    (alone : Alone p triggers) where
  env-Blind : Blind c p (λ r. triggers r.env)
  unfolding set_state set_last_ret
  env-Blind = record {
    state = λ s r. refl;
    last_ret = λ ret r. refl;
    count = λ n r. refl;
    command = λ cmd r. alone.init_command cmd r.env;
    rearm = λ ms r. alone.init_rearm ms r.env;
  }

  publish_notice_triggers :
      (i : ℕ) (ret : ℤ) (r : Rx E) → triggers (publish_notice p i ret r).env ≡ triggers r.env
  unfolding publish_notice
  publish_notice_triggers i ret r =
      let n = notice_of i ret in
      let (put_ret, dropped, e) = put_newest p.notices n r.env in
      let same = put_newest_keeps p.notices triggers alone.put_notice alone.get_notice n r.env in
      if_elim (λ (x : Rx E). triggers x.env ≡ triggers r.env) (eqb_ℤ put_ret (pos 0))
        (λ done. alone.notify i ret e ∙ same) (λ lost. same)

  scan_unread_triggers : (r : Rx E) → triggers (scan_unread p r).1.env ≡ triggers r.env
  unfolding scan_unread capture_start_cmgl
  scan_unread_triggers r =
      let (ret, e) = p.capture_command _ r.env in
      if_elim (λ (x : ℤ × Rx E). triggers x.1.env ≡ triggers r.env) r.capture_ctx.active
        (λ busy. refl)
        (λ free.
          if_elim (λ (x : ℤ × Rx E). triggers x.1.env ≡ triggers r.env) (is_neg ret)
            (λ neg. alone.capture_command _ r.env) (λ good. alone.capture_command _ r.env))

  process_index_triggers :
      (i : ℕ) (r : Rx E) → triggers (process_index p i r).1.env ≡ triggers r.env
  unfolding process_index report
  process_index_triggers i r =
      if_elim (λ (x : ℤ × Rx E). triggers x.1.env ≡ triggers r.env) (i == 0) (λ z. refl)
        (λ nz. publish_notice_triggers i (pos 0) _)

  -- What each trigger does: the queue stays as it is, and so do the callbacks of the setup.
  abbrev pub Steady : Receiver E → Receiver E → Type 0
  Steady m m' = (triggers m'.rx.env ≡ triggers m.rx.env) × IsArmed c p m'.init_retry

  pub process_trigger-Steady :
      (t : Trigger) (m : Receiver E) → IsArmed c p m.init_retry → Steady m (process_trigger c p t m)
  unfolding process_trigger init_merge_trigger set_last_ret init_is_ready
  process_trigger-Steady t m armed =
      let r = if m.rx.setup_done then m.rx else record (m.rx) { init_wait_logged = true } in
      let same : triggers r.env ≡ triggers m.rx.env =
        if_elim (λ (x : Rx E). triggers x.env ≡ triggers m.rx.env) m.rx.setup_done (λ done. refl)
          (λ waits. refl) in
      let waiting : Receiver E = record m { rx = set_last_ret (pos 0) (init_merge_trigger t r) } in
      let logged = record r { init_completed_logged = true } in
      if_elim (Steady m) (not (init_is_ready c r))
        (λ more.
          if_elim (Steady m) (DelayableRetry.is_pending m.init_retry) (λ pending. (same, armed))
            (λ idle.
              let (kept, still) =
                init_retry_start_keeps c p (λ x. triggers x.env) waiting env-Blind armed
                  (not-true (init_is_ready c r) more) in
              (kept ∙ same, still)))
        (λ ready.
          if_elim (Steady m) (not (t.full_scan == 0) || t.storage_index == 0)
            (λ scan. (scan_unread_triggers logged ∙ same, armed))
            (λ index. (process_index_triggers t.storage_index logged ∙ same, armed)))
