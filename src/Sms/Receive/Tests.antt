-- ===== src/Sms/Receive/Tests.antt =====
-- The receiving part with two places in each queue: the state outside is what the queues hold and
-- the commands that the modem has taken.
use tibbit.Common.{
  ℕ, ◌+◌, ◌%◌, ◌^◌, ◌≡◌, refl, true, false, none, some, List, [], ◌∷◌, ◌++◌, pos, leb, arith,
  if◌then◌else◌, length, Bytes, codes,
}
use tibbit.Common.Errno.{enomsg}
use tibbit.Kernel.{MsgQueue, MsgQueueLaws}
use tibbit.Kernel.ListQueue.{put_to, get_from, put_to_room, put_to_full}
use tibbit.DelayableRetry
use tibbit.DelayableRetry.{Retry}
use tibbit.Sms.Receive.Platform.{Trigger, Notice, Services}
use tibbit.Sms.Receive.Newest.{newest}
use tibbit.Sms.Receive.{InitState, Rx, Config, next_count, enqueue_trigger, init_is_ready}
use tibbit.Sms.Receive.Queues.{notice_of, enqueue_trigger_refines}
use tibbit.Sms.Receive.Capture.{capture_continue_work_handler}
use tibbit.Sms.Receive.Scan.{listed, reports, scan_reports}
use tibbit.Sms.Receive.Init.{init_retry_ops, cpms_cmd}
use tibbit.Sms.Receive.Worker.{Receiver, process_trigger, poll_loop, poll_work_handler}
use tibbit.Sms.Receive.Setup.{Willing, setup_run}
use tibbit.Sms.Receive.Setup.Kick.{Separate}
use tibbit.Sms.Receive.Setup.Completes.{setup_completes}
use tibbit.Sms.Receive.Setup.Commands.{rounds, setup_commands}
use tibbit.Sms.Receive.Steady.{Alone}
use tibbit.Sms.Receive.Drain.{IdleBetween, poll_handler_drains, process_all, finish_poll}
use tibbit.Sms.Receive.Waiting.{Covers, process_each, waiting_trigger-Covers}

record World : Type 0 where
  triggers : List Trigger
  notices : List Notice
  sent : List Bytes

abbrev trigger_queue : MsgQueue Trigger World
trigger_queue = record {
  put = λ t w. let (ret, ts) = put_to w.triggers t in (ret, record w { triggers = ts });
  get = λ w. let (ret, t, ts) = get_from w.triggers in (ret, t, record w { triggers = ts });
}

abbrev notice_queue : MsgQueue Notice World
notice_queue = record {
  put = λ n w. let (ret, ns) = put_to w.notices n in (ret, record w { notices = ns });
  get = λ w. let (ret, n, ns) = get_from w.notices in (ret, n, record w { notices = ns });
}

trigger_laws : MsgQueueLaws trigger_queue 2 (λ w. w.triggers)
trigger_laws = record {
  put_room = λ t w room. rw (put_to_room w.triggers t room) (refl, refl);
  put_full = λ t w full. rw (put_to_full w.triggers t full) refl;
  get_none = λ w none_left. rw none_left refl;
  get_some = λ w t ts holds. rw holds (refl, refl, refl);
}

notice_laws : MsgQueueLaws notice_queue 2 (λ w. w.notices)
notice_laws = record {
  put_room = λ n w room. rw (put_to_room w.notices n room) (refl, refl);
  put_full = λ n w full. rw (put_to_full w.notices n full) refl;
  get_none = λ w none_left. rw none_left refl;
  get_some = λ w n ns holds. rw holds (refl, refl, refl);
}

-- Every call succeeds; the modem has listed two unread messages.
abbrev services : Services World
services = record {
  thread_ready = λ w. true;
  poll_submit = λ w. (pos 0, w);
  init_submit = λ w. (pos 0, w);
  capture_submit = λ w. (pos 0, w);
  init_reschedule = λ ms w. (pos 0, w);
  delete_reschedule = λ ms w. (pos 0, w);
  triggers = trigger_queue;
  triggers_used = λ w. length w.triggers;
  notices = notice_queue;
  deletes = record { put = λ i w. (enomsg, w); get = λ w. (enomsg, none, w) };
  notify_rx_message = λ i ret w. w;
  init_command = λ cmd w. (pos 0, record w { sent = w.sent ++ cmd ∷ [] });
  delete_command = λ cmd w. (pos 0, w);
  capture_command = λ cmd w. (pos 0, w);
  captured = λ w. codes "+CMGL: 3,\"REC UNREAD\"\n+CMGL: 12,\"REC UNREAD\"\n";
}

abbrev config : Config
config = record { startup_cleanup = true; storage = codes "ME"; scan_max_indexes = 8 }

abbrev blank : Retry (Rx World)
blank = record {
  ops = some (init_retry_ops config services);
  attempt = 0;
  max_attempts = 0;
  pending = false;
  attempt_in_progress = false;
}

abbrev message : ℕ → Trigger
message i = record { storage_index = i; full_scan = 0 }

-- Booted and allowed to receive, with the triggers of messages 1 and 2 in their queue, and the
-- notice of message 9 in its own.
abbrev booted : Rx World
booted = record {
  started = true;
  start_allowed = true;
  setup_done = false;
  cleanup_done = false;
  init_wait_logged = false;
  init_completed_logged = false;
  wq_not_ready_warned = false;
  init_retry_count = 0;
  processed_count = 0;
  scan_fail_count = 0;
  delete_fail_count = 0;
  trigger_queue_drop_count = 0;
  result_queue_drop_count = 0;
  init_ctx = record { state = InitState.idle; pending_trigger = none; last_ret = pos 0 };
  delete_ctx = record { storage_index = 0; last_ret = pos 0 };
  capture_ctx = record { scanning = false; last_ret = pos 0; active = false };
  env = record {
    triggers = message 1 ∷ message 2 ∷ [];
    notices = notice_of 9 (pos 0) ∷ [];
    sent = [];
  };
}

abbrev receiver : Receiver World
receiver = record { rx = booted; init_retry = some blank; delete_retry = none }

-- The third trigger drives the first out.
enqueue_trigger_refines_example :
    let (ret, r') = enqueue_trigger services 3 0 booted in
    (ret ≡ pos 0)
    × (r'.env.triggers ≡ newest 2 (booted.env.triggers ++ message 3 ∷ []))
    × (r'.trigger_queue_drop_count ≡ (
        if leb 2 (length booted.env.triggers)
        then next_count booted.trigger_queue_drop_count
        else booted.trigger_queue_drop_count))
enqueue_trigger_refines_example =
    enqueue_trigger_refines services 2 (λ w. w.triggers) trigger_laws 3 0 booted (λ w. refl)
      (omega arith) (omega arith)

abbrev scanned : Rx World
scanned = record booted {
  capture_ctx = record { scanning = true; last_ret = pos 0; active = true };
}

-- Two notices are added, the second of which drives the one of message 9 out.
scan_reports_example :
    let r' = capture_continue_work_handler services config scanned in
    let indexes = listed config services scanned in
    (r'.env.notices ≡ newest 2 (scanned.env.notices ++ reports indexes))
    × (r'.processed_count ≡ (scanned.processed_count + length indexes) % 2 ^ 32)
    × (r'.capture_ctx.active ≡ false)
scan_reports_example =
    scan_reports services 2 (λ w. w.notices) notice_laws (λ i ret w. refl) (λ w. refl) (omega arith)
      config scanned (omega arith) (omega arith)

willing : Willing services (λ w. w.sent)
willing = record {
  accepts = λ cmd w. refl;
  sends = λ cmd w. refl;
  submits = λ w. refl;
  submit_apart = λ w. refl;
}

apart : Separate services (λ w. w.sent) (λ w. w.triggers)
apart = record {
  put_sent = λ t w. refl;
  get_sent = λ w. refl;
  poll_sent = λ w. refl;
  poll_triggers = λ w. refl;
  command_triggers = λ cmd w. refl;
  submit_triggers = λ w. refl;
}

setup_completes_example :
    let m' = process_trigger config services (message 4) receiver in
    let (retry, r) = setup_run config services (rounds true) m'.init_retry m'.rx in
    (init_is_ready config r ≡ true)
    × (DelayableRetry.is_pending retry ≡ false)
    × (r.env.sent ≡ setup_commands config)
    × (r.init_ctx.pending_trigger ≡ none)
    × (r.env.triggers ≡ newest 2 (receiver.rx.env.triggers ++ message 4 ∷ []))
unfolding cpms_cmd
setup_completes_example =
    setup_completes config services willing apart trigger_laws (message 4) blank receiver refl refl
      refl refl refl refl (omega arith) (omega arith)

alone : Alone services (λ w. w.triggers)
alone = record {
  init_command = λ cmd w. refl;
  init_rearm = λ ms w. refl;
  capture_command = λ cmd w. refl;
  put_notice = λ n w. refl;
  get_notice = λ w. refl;
  notify = λ i ret w. refl;
}

abbrev set_up : Receiver World
set_up = record receiver { rx = record booted { setup_done = true; cleanup_done = true } }

poll_handler_drains_example :
    (taken : List Trigger) × (left : List Trigger) × (set_up.rx.env.triggers ≡ taken ++ left)
    × IdleBetween config services (λ w. w.triggers) alone taken set_up
    × (let d = process_all config services (λ w. w.triggers) alone taken set_up in
        (d.rx.env.triggers ≡ left)
        × (poll_loop config services (services.triggers_used set_up.rx.env + 1 + 5) set_up ≡ some d)
        × (if d.rx.capture_ctx.active
            then poll_work_handler config services set_up ≡ some d
            else (left ≡ [])
              × (poll_work_handler config services set_up
                  ≡ some (finish_poll config services (λ w. w.triggers) alone d))))
unfolding init_retry_ops
poll_handler_drains_example =
    poll_handler_drains config services (λ w. w.triggers) alone 2 trigger_laws set_up 5
      (blank, refl, refl) refl

waiting_trigger-Covers_example :
    (w : Trigger) × ((process_each config services
        (message 1 ∷ message 2 ∷ [])
        receiver).rx.init_ctx.pending_trigger
      ≡ some w)
    × Covers w (message 2)
unfolding init_retry_ops init_is_ready
waiting_trigger-Covers_example =
    waiting_trigger-Covers config services (message 1 ∷ message 2 ∷ []) receiver 1 (message 2)
      (blank, refl, refl) refl refl
