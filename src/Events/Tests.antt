-- ===== src/Events/Tests.antt =====
-- The event worker with a queue of two events, and the result worker with a ring of two results.
use mathlib.Core.List.{map}
use tibbit.Common.{
  ℕ, ◌+◌, ◌-◌, ◌≡◌, refl, true, false, Option, none, some, List, [], ◌∷◌, ◌++◌, ℤ, pos, negsuc,
  ◌==◌, arith, if◌then◌else◌,
}
use tibbit.Common.Errno.{eagain, enomsg}
use tibbit.Kernel.{MsgQueue, MsgQueueLaws, Semaphore, SemaphoreLaws}
use tibbit.Kernel.ListQueue.{put_to, get_from, put_to_room, put_to_full}
use tibbit.Sms.Request.{SmsResult}
use tibbit.Sms.ResultQueue.{ResultQueue, result_wait}
use tibbit.Events.Platform.{
  EventType, SmsEvent, receive_serial_status, receive_msg_output, Services,
}
use tibbit.Events.{Events, Config, dispatch_worker, result_worker}
use tibbit.Events.Delivery.{
  Listens, Always, ring_wait, stored, RingInSync, seen_result, seen_event, dispatch_worker_delivers,
  result_worker_delivers,
}

abbrev config : Config
config = record {
  result_worker_enable = true;
  trigger_event_path = true;
  serial_rx_debounce_ms = 1000;
  phone_max_len = 24;
}

-- What waits in the queue of events, and what the callback was told.
record World : Type 0 where
  queued : List SmsEvent
  told : List SmsEvent

abbrev event_queue : MsgQueue SmsEvent World
event_queue = record {
  put = λ v w. let (ret, es) = put_to w.queued v in (ret, record w { queued = es });
  get = λ w. let (ret, v, es) = get_from w.queued in (ret, v, record w { queued = es });
}

event_laws : MsgQueueLaws event_queue 2 (λ w. w.queued)
event_laws = record {
  put_room = λ v w room. rw (put_to_room w.queued v room) (refl, refl);
  put_full = λ v w full. rw (put_to_full w.queued v full) refl;
  get_none = λ w none_left. rw none_left refl;
  get_some = λ w v vs holds. rw holds (refl, refl, refl);
}

abbrev services : Services World
services = record {
  thread_ready = λ w. true;
  dispatch_submit = λ w. (pos 0, w);
  result_submit = λ w. (pos 0, w);
  events = event_queue;
  uptime = λ w. 0;
  result_wait = λ w. (eagain, none, w);
  trigger_scan = λ w. (pos 0, w);
  trigger_index = λ i w. (pos 0, w);
}

abbrev note : SmsEvent → World → World
note v w = record w { told = w.told ++ v ∷ [] }

note-Listens : Listens note (λ v. v) (λ w. w.told) event_queue.get (λ w. w.queued) Always
note-Listens = record {
  delivers = λ v w. refl;
  items_stay = λ v w. refl;
  stays_good = λ v w good. refl;
  get_tells_none = λ w. refl;
}

abbrev serial : SmsEvent
serial = record { event_type = receive_serial_status; timestamp_ms = 5; status = pos 0 }

abbrev message : SmsEvent
message = record { event_type = receive_msg_output 3; timestamp_ms = 6; status = pos 0 }

abbrev busy : Events World
busy = record {
  cb = some note;
  started = true;
  last_serial_rx_ms = 0;
  wq_not_ready_warned = false;
  env = record { queued = serial ∷ message ∷ []; told = [] };
}

dispatch_worker_delivers_example :
    let s' = dispatch_worker config services 3 busy in
    (s'.env.queued ≡ []) × (s'.env.told ≡ [] ++ serial ∷ message ∷ [])
dispatch_worker_delivers_example =
    dispatch_worker_delivers config services 2 (λ w. w.queued) (λ w. w.told) note event_laws 3 busy
      refl note-Listens (λ w. refl) (λ w. refl) (omega arith)

-- Behind the ring: the count of its semaphore, and what the callback was told of results.
record Behind : Type 0 where
  count : ℕ
  told : List (EventType × ℤ)

abbrev counter : Semaphore Behind
counter = record {
  give = λ k. record k { count = if k.count == 2 then 2 else k.count + 1 };
  take = λ k. if k.count == 0 then (eagain, k) else (pos 0, record k { count = k.count - 1 });
}

counter_laws : SemaphoreLaws counter 2 (λ k. k.count)
counter_laws = record {
  give_room = λ k h. ground arith;
  give_full = λ k h. ground arith;
  take_some = λ k h. ground arith;
  take_none = λ k h. ground arith;
}

-- The results of requests 7, which succeeded, and 8, which failed.
abbrev two_results : ResultQueue
two_results = record {
  results = λ i.
      if i == 0
      then record { request_id = 7; result = pos 0; phone = 49 ∷ [] }
      else record { request_id = 8; result = negsuc 4; phone = 50 ∷ [] };
  head = 0;
  tail = 0;
  count = 2;
  drop_count = 0;
}

abbrev counted_wait : ResultQueue × Behind → ℤ × Option SmsResult × (ResultQueue × Behind)
counted_wait = ring_wait config 2 counter (λ k. k.count) counter_laws

abbrev ring_services : Services (ResultQueue × Behind)
ring_services = record {
  thread_ready = λ e. true;
  dispatch_submit = λ e. (pos 0, e);
  result_submit = λ e. (pos 0, e);
  events = record { put = λ v e. (enomsg, e); get = λ e. (enomsg, none, e) };
  uptime = λ e. 0;
  result_wait = counted_wait;
  trigger_scan = λ e. (pos 0, e);
  trigger_index = λ i e. (pos 0, e);
}

abbrev note_result : SmsEvent → ResultQueue × Behind → ResultQueue × Behind
note_result v e = (e.0, record (e.1) { told = e.1.told ++ seen_event v ∷ [] })

note_result-Listens :
    Listens note_result seen_event
      (λ e. e.1.told)
      counted_wait
      (stored config 2 counter (λ k. k.count) counter_laws)
      (RingInSync config 2 counter (λ k. k.count) counter_laws)
unfolding result_wait
note_result-Listens = record {
  delivers = λ v e. refl;
  items_stay = λ v e. refl;
  stays_good = λ v e good. record { valid = good.valid; counted = good.counted };
  get_tells_none = λ e. ground arith;
}

abbrev full : Events (ResultQueue × Behind)
full = record {
  cb = some note_result;
  started = true;
  last_serial_rx_ms = 0;
  wq_not_ready_warned = false;
  env = (two_results, record { count = 2; told = [] });
}

full-RingInSync : RingInSync config 2 counter (λ k. k.count) counter_laws full.env
full-RingInSync = record {
  valid = record {
    has_room = omega arith;
    head_in = omega arith;
    count_in = omega arith;
    tail_at = refl;
  };
  counted = refl;
}

result_worker_delivers_example :
    let s' = result_worker config ring_services 3 full in
    let held = stored config 2 counter (λ k. k.count) counter_laws in
    (held s'.env ≡ [])
    × (s'.env.1.told
        ≡ [] ++ map (seen_result config 2 counter (λ k. k.count) counter_laws) (held full.env))
result_worker_delivers_example =
    result_worker_delivers config 2 counter (λ k. k.count) counter_laws ring_services note_result
      (λ e. e.1.told) 3 full refl refl note_result-Listens (λ e. refl) (λ e. refl) full-RingInSync
      (omega arith)
