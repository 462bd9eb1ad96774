-- ===== src/Sms/Send/Tests.antt =====
-- A request on its way: the state outside is the queue of jobs, the count of the semaphore and what
-- has been handed to the modem.
use tibbit.Common.{
  ℕ, ◌≡◌, refl, none, some, List, [], ◌∷◌, pos, Bytes, codes, arith, ◌==◌, ◌+◌, ◌-◌, if◌then◌else◌,
}
use tibbit.Common.Errno.{eagain}
use tibbit.Kernel.{MsgQueue, MsgQueueLaws, Semaphore, SemaphoreLaws}
use tibbit.Kernel.ListQueue.{put_to, get_from, put_to_room, put_to_full}
use tibbit.AsyncJob
use tibbit.AsyncJob.{AsyncJob, Registry}
use tibbit.Sms.Request.{Request}
use tibbit.Sms.ResultQueue.Service.{InSync}
use tibbit.Sms.Validation.{phone_is_valid, text_is_valid}
use tibbit.Sms.Send.{
  SmsPayload, Config, Sender, Services, async_register_handler, send_enqueue_with_result_id,
}
use tibbit.Sms.Send.Path.{Queued, Stored, sent, enqueued_request_sent}

abbrev config : Config
config = record { phone_max_len = 24; text_max_len = 160; result_queue_depth = 2 }

record World : Type 0 where
  jobs : List (AsyncJob (SmsPayload ℕ))
  given : ℕ
  sent : List (Bytes × Bytes)

abbrev job_queue : MsgQueue (AsyncJob (SmsPayload ℕ)) (Sender World)
job_queue = record {
  put = λ j s.
      let (ret, js) = put_to s.env.jobs j in (ret, record s { env = record (s.env) { jobs = js } });
  get = λ s.
      let (ret, j, js) = get_from s.env.jobs in
      (ret, j, record s { env = record (s.env) { jobs = js } });
}

job_queue_laws : MsgQueueLaws job_queue 2 (λ s. s.env.jobs)
job_queue_laws = record {
  put_room = λ j s room. rw (put_to_room s.env.jobs j room) (refl, refl);
  put_full = λ j s full. rw (put_to_full s.env.jobs j full) refl;
  get_none = λ s none_left. rw none_left refl;
  get_some = λ s j js holds. rw holds (refl, refl, refl);
}

abbrev counter : Semaphore World
counter = record {
  give = λ w. record w { given = if w.given == 2 then 2 else w.given + 1 };
  take = λ w. if w.given == 0 then (eagain, w) else (pos 0, record w { given = w.given - 1 });
}

counter_laws : SemaphoreLaws counter 2 (λ w. w.given)
counter_laws = record {
  give_room = λ w h. ground arith;
  give_full = λ w h. ground arith;
  take_some = λ w h. ground arith;
  take_none = λ w h. ground arith;
}

abbrev services : Services ℕ World
services = record {
  jobs = job_queue;
  result_sem = counter;
  send_text = λ cmd text w. (pos 0, record w { sent = (cmd, text) ∷ w.sent });
  complete_wait = λ a ret w. w;
  await = λ a s. (pos 0, s);
}

abbrev hello : Request
hello = record { phone_number = codes "+4912345"; message = codes "hello"; message_id = 7 }

abbrev idle : Sender World
idle = record {
  ring = record {
    results = λ i. record { request_id = 0; result = pos 0; phone = [] };
    head = 0;
    tail = 0;
    count = 0;
    drop_count = 0;
  };
  request_id_seed = 1;
  env = record { jobs = []; given = 0; sent = [] };
}

idle-InSync : InSync 2 24 counter (λ w. w.given) counter_laws idle.ring idle.env
idle-InSync = record {
  valid = record {
    has_room = omega arith;
    head_in = omega arith;
    count_in = omega arith;
    tail_at = refl;
  };
  counted = refl;
}

abbrev no_handlers : Registry (SmsPayload ℕ) (Sender World)
no_handlers = record { handlers = λ t. none; complete_cbs = λ t. none }

enqueued_request_sent_example :
    let reg' = async_register_handler config services no_handlers in
    (job : AsyncJob (SmsPayload ℕ)) × Queued config services 2
      (λ s. s.env.jobs)
      job_queue_laws
      (λ w. w.given)
      counter_laws
      job
      idle
      (send_enqueue_with_result_id config services (some hello) idle)
    × (AsyncJob.execute reg' (some job) idle
        ≡ sent config services 2
            (λ s. s.env.jobs)
            job_queue_laws
            (λ w. w.given)
            counter_laws
            hello
            idle)
    × Stored config services 2
        (λ s. s.env.jobs)
        job_queue_laws
        (λ w. w.given)
        counter_laws
        hello
        (pos 0)
        idle
        (AsyncJob.complete reg' (some job) (pos 0) idle)
unfolding phone_is_valid text_is_valid
enqueued_request_sent_example =
    enqueued_request_sent config services 2 (λ s. s.env.jobs) job_queue_laws (λ w. w.given)
      counter_laws no_handlers hello (pos 0) idle idle idle idle-InSync
