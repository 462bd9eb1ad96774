-- ===== src/AsyncDispatcher.antt =====
-- tb45_async_dispatcher.c: the work handler that takes jobs off the queue, one at a time, and runs
-- them, the SMS jobs under a retry object. A ping job reports its end by `complete_job`, an SMS job
-- by `complete_attempt`. `retry_ctx` is split: its `job` is a field of `Dispatcher`, its `retry`
-- stands beside it, since the retry callbacks reach the rest through `CONTAINER_OF`. Logging is
-- left out, but for the flag that keeps a warning from being repeated.
pub mod Flight
pub mod Exclusive
pub mod OneAtATime
pub mod Unready
mod Tests
use tibbit.Common.{
  ℕ, Bool, true, false, not, Option, none, some, ℤ, eqb_ℤ, pos, ◌==◌, if◌then◌else◌,
}
use tibbit.Common.Errno.{eagain, einprogress, enomsg}
use tibbit.Kernel.{MsgQueue, WorkQueue}
use tibbit.AsyncJob.{AsyncJob, Config, Registry, ping_run, policy_get, retry_delay_ms}
use tibbit.AsyncJob
use tibbit.DelayableRetry.{Ops, Retry}
use tibbit.DelayableRetry

pub record Dispatcher (P E : Type 0) : Type 0 where
  pub job : AsyncJob P
  pub registry : Registry P E
  pub wq_not_ready_warned : Bool
  pub poll_event_ready : Bool  -- `state` of the one poll event, not K_POLL_STATE_NOT_READY
  pub env : E

module _ {P E : Type 0} (config : Config) (queue : MsgQueue (AsyncJob P) E) (wq : WorkQueue E) where
  unfoldable pub wq_ready : Dispatcher P E → Bool × Dispatcher P E
  wq_ready d =
      let ready = wq.thread_ready d.env in
      (ready, if ready then record d { wq_not_ready_warned = false } else d)

  unfoldable pub submit_poll : Dispatcher P E → ℤ × Dispatcher P E
  unfolding wq_ready
  submit_poll d₀ =
      let (ready, d) = wq_ready d₀ in
      let (ret, env) = wq.poll_submit d.env in
      if not ready
      then (eagain, record d { wq_not_ready_warned = true })
      else (ret, record d { poll_event_ready = false; env = env })

  -- The result is only logged.
  unfoldable pub resume_poll : Dispatcher P E → Dispatcher P E
  unfolding submit_poll
  resume_poll d = (submit_poll d).1

  -- A call of the job table, on the job that the retry context holds.
  unfoldable pub run_attempt : ℕ → Dispatcher P E → ℤ × Dispatcher P E
  run_attempt attempt d =
      let (ret, env) = AsyncJob.execute d.registry (some d.job) d.env in
      (ret, record d { env = env })

  unfoldable pub delay_of_job : ℕ → Dispatcher P E → ℕ × Dispatcher P E
  delay_of_job attempt d = (retry_delay_ms config d.job.job_type, d)

  -- `tb45_async_dispatcher_attempt_failed` only logs.
  unfoldable pub attempt_failed : ℤ → ℕ → ℕ → Dispatcher P E → Dispatcher P E
  attempt_failed ret attempt max_attempts d = d

  unfoldable pub retry_complete : ℤ → Dispatcher P E → Dispatcher P E
  unfolding resume_poll
  retry_complete ret d =
      resume_poll (record d { env = AsyncJob.complete d.registry (some d.job) ret d.env })

  unfoldable pub retry_ops : Ops (Dispatcher P E)
  unfolding run_attempt delay_of_job attempt_failed retry_complete
  retry_ops = record {
    run_attempt = some run_attempt;
    retry_delay_ms = some delay_of_job;
    attempt_failed = some attempt_failed;
    complete = some retry_complete;
  }

  -- `k_work_reschedule_for_queue` on the retry object's work item.
  unfoldable pub reschedule : ℕ → Dispatcher P E → ℤ × Dispatcher P E
  reschedule ms d = let (ret, env) = wq.reschedule ms d.env in (ret, record d { env = env })

  unfoldable pub complete_job : Option (AsyncJob P) → ℤ → Dispatcher P E → Dispatcher P E
  unfolding resume_poll
  complete_job job ret d =
      resume_poll (record d { env = AsyncJob.complete d.registry job ret d.env })

  unfoldable pub complete_attempt :
      ℤ
      → Option (Retry (Dispatcher P E))
      → Dispatcher P E
      → Option (Retry (Dispatcher P E)) × Dispatcher P E
  unfolding reschedule DelayableRetry.complete
  complete_attempt ret r d =
      let (_, r', d') = DelayableRetry.complete reschedule r ret d in (r', d')

  unfoldable pub run_job :
      AsyncJob P
      → ℕ
      → Option (Retry (Dispatcher P E))
      → Dispatcher P E
      → Bool × Option (Retry (Dispatcher P E)) × Dispatcher P E
  unfolding complete_job reschedule
  run_job job max_attempts r d =
      let (ret, env) = AsyncJob.execute d.registry (some job) d.env in
      let d' = record d { env = env } in
      if job.job_type == ping_run
      then (if eqb_ℤ ret einprogress
          then (true, r, d')
          else (false, r, complete_job (some job) ret d'))
      else DelayableRetry.start reschedule r max_attempts (record d { job = job })

  -- The body of the loop, after `k_msgq_get` has answered: it returns or breaks in its first round.
  unfoldable pub handle_message :
      Option (Retry (Dispatcher P E))
      → Dispatcher P E
      → ℤ × Option (AsyncJob P) × E
      → Option (Retry (Dispatcher P E)) × Dispatcher P E
  unfolding run_job resume_poll
  handle_message r d (ret, got, env) =
      let d' = record d { env = env } in
      if not (eqb_ℤ ret (pos 0)) then (r, resume_poll d') else elim got [
        | none ↦ (r, d')
        | some job ↦
            let (_, r', d'') = run_job job (policy_get config job.job_type) r d' in (r', d'')
      ]

  unfoldable pub work_handler :
      Option (Retry (Dispatcher P E))
      → Dispatcher P E
      → Option (Retry (Dispatcher P E)) × Dispatcher P E
  unfolding handle_message
  work_handler r d = handle_message r d (queue.get d.env)

  unfoldable pub init :
      Option (Retry (Dispatcher P E))
      → Dispatcher P E
      → ℤ × Option (Retry (Dispatcher P E)) × Dispatcher P E
  unfolding submit_poll retry_ops
  init r d = (pos 0, DelayableRetry.init r (some retry_ops), (submit_poll d).1)
