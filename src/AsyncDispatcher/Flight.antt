-- ===== src/AsyncDispatcher/Flight.antt =====
-- The dispatcher among the events that drive it, with a record of the jobs taken off the queue and
-- of the jobs reported to their callbacks. Whether the work queue is ready, what the submission of
-- the poll item answers, `take`, `resched` and the handlers are parameters; the wrappers log each
-- call before they pass it on.
use tibbit.Common.{
  ℕ, ◌<◌, Bool, true, false, ◌&&◌, ◌||◌, Option, none, some, List, [], ◌∷◌, ℤ, pos, is_neg, eqb_ℤ,
  ◌==◌, if◌then◌else◌,
}
use tibbit.Common.Errno.{einprogress, enomsg}
use tibbit.Kernel.{MsgQueue, WorkQueue}
use tibbit.AsyncJob.{AsyncJob, Config, Registry, ping_run, type_count}
use tibbit.DelayableRetry.{Retry}
use tibbit.DelayableRetry
use tibbit.AsyncDispatcher.{Dispatcher, work_handler, reschedule, complete_attempt, complete_job}

pub record Traced (P E : Type 0) : Type 0 where
  pub inner : E
  pub taken : List (AsyncJob P)  -- newest first
  pub ended : List (AsyncJob P)  -- newest first
  pub poll_armed : Bool
  pub refused : Bool  -- the last submission of the poll item failed
  pub timer_armed : Bool
  pub ping : Bool  -- a ping job is in flight
  pub ping_job : AsyncJob P  -- the last one

-- A job that `tb45_async_job_enqueue` let into the queue has a known type.
pub record Known (P : Type 0) : Type 0 where
  pub job : AsyncJob P
  pub known : job.job_type < type_count

pub data Event : Type 0 where
  poll_fires : Event
  timer_fires : Event
  sms_done : ℤ → Event
  ping_done : ℤ → Event

module _ {P E : Type 0} (config : Config) (handler : AsyncJob P → E → ℤ × E)
    (callback : AsyncJob P → ℤ → E → E) (take : E → Option (Known P × E)) (ready : E → Bool)
    (poll : E → ℤ × E) (resched : ℕ → E → ℤ × E) where
  abbrev log_handler : AsyncJob P → Traced P E → ℤ × Traced P E
  log_handler job t =
      let (ret, inner) = handler job t.inner in
      (
        ret,
        record t {
          inner = inner;
          ping = job.job_type == ping_run && eqb_ℤ ret einprogress || t.ping;
          ping_job = if job.job_type == ping_run then job else t.ping_job;
        },
      )

  abbrev log_callback : AsyncJob P → ℤ → Traced P E → Traced P E
  log_callback job ret t = record t { inner = callback job ret t.inner; ended = job ∷ t.ended }

  -- Every type has the one handler and the one callback, which may look at the job's type.
  abbrev pub traced_registry : Registry P (Traced P E)
  traced_registry = record {
    handlers = λ t. some log_handler;
    complete_cbs = λ t. some log_callback;
  }

  abbrev pub got : Traced P E → Option (Known P × E) → ℤ × Option (AsyncJob P) × Traced P E
  got t none = (enomsg, none, t)
  got t (some p) = (pos 0, some p.0.job, record t { inner = p.1; taken = p.0.job ∷ t.taken })

  abbrev pub traced_queue : MsgQueue (AsyncJob P) (Traced P E)
  traced_queue = record { put = λ job t. (pos 0, t); get = λ t. got t (take t.inner) }

  abbrev pub traced_wq : WorkQueue (Traced P E)
  traced_wq = record {
    thread_ready = λ t. ready t.inner;
    poll_submit = λ t.
        let (ret, inner) = poll t.inner in
        (
          ret,
          record t {
            inner = inner;
            poll_armed = if is_neg ret then t.poll_armed else true;
            refused = is_neg ret;
          },
        );
    reschedule = λ ms t.
        let (ret, inner) = resched ms t.inner in
        (ret, record t { inner = inner; timer_armed = if is_neg ret then t.timer_armed else true });
  }

  abbrev pub World : Type 0
  World = Dispatcher P (Traced P E)

  abbrev pub take_timer : World → World
  take_timer d = record d { env = record d.env { timer_armed = false } }

  -- A handler runs only if its work item is armed, and disarms it. The ping module reports the job
  -- that it was given, once.
  unfoldable pub handle : Event → Option (Retry World) → World → Option (Retry World) × World
  unfolding work_handler reschedule complete_attempt complete_job DelayableRetry.work_handler
  handle poll_fires r d =
      if d.env.poll_armed
      then work_handler config traced_queue traced_wq r
          (record d { env = record d.env { poll_armed = false } })
      else (r, d)
  handle timer_fires none d = (none, d)
  handle timer_fires (some r) d =
      if d.env.timer_armed
      then (let (r', d') =
            DelayableRetry.work_handler (reschedule config traced_queue traced_wq) r
              (take_timer d) in
          (some r', d'))
      else (some r, d)
  handle (sms_done ret) r d = complete_attempt config traced_queue traced_wq ret r d
  handle (ping_done ret) r d =
      if d.env.ping
      then (
        r,
        complete_job config traced_queue traced_wq (some d.env.ping_job) ret
            (record d { env = record d.env { ping = false } }),
      )
      else (r, d)

  unfoldable pub run : List Event → Option (Retry World) → World → Option (Retry World) × World
  run [] r d = (r, d)
  run (e ∷ es) r d = let (r', d') = handle e r d in run es r' d'
