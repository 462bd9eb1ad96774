-- ===== src/AsyncDispatcher/Exclusive.antt =====
-- At most one job is in flight, and every job that is taken off the queue is ended once before the
-- next one is taken.
use tibbit.Common.Errno.{einprogress}
use tibbit.Common.{
  inl, inr, ap, ◌==◌, Bool-cases, eqb_ℤ, ℕ, ◌<◌, ◌≡◌, refl, ◌≢◌, ◌⊎◌, not, ◌||◌, Bool, true, false,
  Option, none, some, ◌∷◌, ℤ, arith,
}
use tibbit.AsyncJob.{AsyncJob, Config, type_count, ping_run, policy_get, execute, complete}
use tibbit.DelayableRetry.{Ops, Retry, finish_attempt, run_step, step, start}
use tibbit.AsyncDispatcher.{
  Dispatcher, retry_ops, reschedule, run_attempt, run_job, handle_message, work_handler,
}
use tibbit.AsyncDispatcher.Flight.{
  Traced, Known, Event, traced_registry, got, traced_queue, traced_wq, handle,
}

module _ {P E : Type 0} (r : Retry (Dispatcher P (Traced P E)))
    (d : Dispatcher P (Traced P E)) where
  -- No job in flight; the poll item waits for the queue if the last submission was accepted.
  pub record Free : Type 0 where
    pub poll : d.env.poll_armed ≡ not (d.wq_not_ready_warned || d.env.refused)
    pub timer : d.env.timer_armed ≡ false
    pub pending : r.pending ≡ false
    pub attempt : r.attempt_in_progress ≡ false
    pub ping : d.env.ping ≡ false
    pub log : d.env.taken ≡ d.env.ended

  -- The retry object holds the job in flight, between two attempts or within one.
  pub record Retrying : Type 0 where
    pub poll : d.env.poll_armed ≡ false
    pub accepted : (d.wq_not_ready_warned || d.env.refused) ≡ false
    pub pending : r.pending ≡ true
    pub source : d.env.timer_armed ≡ false → r.attempt_in_progress ≡ true
    pub timer : d.env.timer_armed ≡ true → r.attempt_in_progress ≡ false
    pub ping : d.env.ping ≡ false
    pub log : d.env.taken ≡ d.job ∷ d.env.ended
    pub known : (d.job.job_type < type_count) × (d.job.job_type ≢ ping_run)

  -- A ping job is in flight.
  pub record Pinging : Type 0 where
    pub poll : d.env.poll_armed ≡ false
    pub accepted : (d.wq_not_ready_warned || d.env.refused) ≡ false
    pub timer : d.env.timer_armed ≡ false
    pub pending : r.pending ≡ false
    pub attempt : r.attempt_in_progress ≡ false
    pub ping : d.env.ping ≡ true
    pub log : d.env.taken ≡ d.env.ping_job ∷ d.env.ended
    pub known : d.env.ping_job.job_type < type_count

  abbrev pub InFlight : Type 0
  InFlight = Free ⊎ Retrying ⊎ Pinging

module _ {P E : Type 0} (config : Config) (handler : AsyncJob P → E → ℤ × E)
    (callback : AsyncJob P → ℤ → E → E) (take : E → Option (Known P × E)) (ready : E → Bool)
    (poll : E → ℤ × E) (resched : ℕ → E → ℤ × E) where
  abbrev pub World : Type 0
  World = Dispatcher P (Traced P E)

  abbrev pub ops : Option (Ops World)
  ops = some (
      retry_ops config (traced_queue config handler callback take ready poll resched)
        (traced_wq config handler callback take ready poll resched))

  abbrev pub wired : World → World
  wired d = record d { registry = traced_registry config handler callback take ready poll resched }

  abbrev pub with_ops : Retry World → Retry World
  with_ops r = record r { ops = ops }

  abbrev again : ℕ → World → ℤ × World
  again =
      reschedule config (traced_queue config handler callback take ready poll resched)
        (traced_wq config handler callback take ready poll resched)

  abbrev pub Wired : Option (Retry World) → World → Type 0
  Wired none d = ⊥
  Wired (some r) d =
      (r.ops ≡ ops)
      × (d.registry ≡ traced_registry config handler callback take ready poll resched)
      × InFlight r d

  finish_flies :
      (r : Retry World) (ret : ℤ) (d : World)
      → Retrying r d
      → r.attempt_in_progress ≡ true
      → let (_, r', d') = finish_attempt again (with_ops r) ret (wired d) in Wired (some r') d'
  unfolding finish_attempt reschedule retry_ops complete
  finish_flies r ret d h b = ground arith

  -- The world in which an attempt at the held SMS job has returned.
  abbrev after_attempt : World → World
  after_attempt d = record d { env = record d.env { inner = (handler d.job d.env.inner).1 } }

  run_attempt_of_sms :
      (attempt : ℕ) (d : World)
      → d.job.job_type < type_count
      → d.job.job_type ≢ ping_run
      → run_attempt config
          (traced_queue config handler callback take ready poll resched)
          (traced_wq config handler callback take ready poll resched)
          attempt
          (wired d)
        ≡ ((handler d.job d.env.inner).0, wired (after_attempt d))
  unfolding run_attempt execute
  run_attempt_of_sms attempt d k n = ground arith

  run_step_flies :
      (r : Retry World) (d : World)
      → Retrying (record r { pending = true; attempt_in_progress = true }) d
      → let (_, r', d') =
          run_step again
            (with_ops r)
            (run_attempt config
              (traced_queue config handler callback take ready poll resched)
              (traced_wq config handler callback take ready poll resched))
            (wired d) in
        Wired (some r') d'
  unfolding run_step
  run_step_flies r d h =
      let begun : Retry World = record r { pending = true; attempt_in_progress = true } in
      let flies : Retrying begun (after_attempt d) = ground arith in
      let flies' : Retrying (with_ops begun) (wired (after_attempt d)) = ground arith in
      let ret : ℤ = (handler d.job d.env.inner).0 in
      rw (run_attempt_of_sms r.attempt d h.known.0 h.known.1)
        (elim (Bool-cases (eqb_ℤ ret einprogress)) [
          | inl e ↦ rw e (refl, refl, inr (inl flies'))
          | inr e ↦ rw e (finish_flies begun ret (after_attempt d) flies refl)
        ])

  ping_flies :
      (job : AsyncJob P) (n : ℕ) (r : Retry World) (d : World)
      → job.job_type < type_count
      → d.env.taken ≡ job ∷ d.env.ended
      → (d.env.poll_armed ≡ false)
        × ((d.wq_not_ready_warned || d.env.refused) ≡ false)
        × (d.env.timer_armed ≡ false)
        × (d.env.ping ≡ false)
        × (r.pending ≡ false)
        × (r.attempt_in_progress ≡ false)
      → (job.job_type == ping_run) ≡ true
      → let (_, r', d') =
          run_job config
            (traced_queue config handler callback take ready poll resched)
            (traced_wq config handler callback take ready poll resched)
            job
            n
            (some (with_ops r))
            (wired d) in
        Wired r' d'
  unfolding run_job execute complete
  ping_flies job n r d k l idle e = ground arith

  sms_flies :
      (job : AsyncJob P) (n : ℕ) (r : Retry World) (d : World)
      → job.job_type < type_count
      → d.env.taken ≡ job ∷ d.env.ended
      → (d.env.poll_armed ≡ false)
        × ((d.wq_not_ready_warned || d.env.refused) ≡ false)
        × (d.env.timer_armed ≡ false)
        × (d.env.ping ≡ false)
        × (r.pending ≡ false)
        × (r.attempt_in_progress ≡ false)
      → (job.job_type == ping_run) ≡ false
      → let (_, r', d') =
          run_job config
            (traced_queue config handler callback take ready poll resched)
            (traced_wq config handler callback take ready poll resched)
            job
            n
            (some (with_ops r))
            (wired d) in
        Wired r' d'
  unfolding run_job start step retry_ops
  sms_flies job n r d k l idle e =
      let fresh : Retry World = record r {
        attempt = 1;
        max_attempts = n;
        pending = false;
        attempt_in_progress = false;
      } in
      let flies : Retrying (record fresh { pending = true; attempt_in_progress = true })
          (record d { job = job }) =
        ground arith in
      rw e (run_step_flies fresh (record d { job = job }) flies)

  run_job_flies :
      (job : AsyncJob P) (n : ℕ) (r : Retry World) (d : World)
      → job.job_type < type_count
      → d.env.taken ≡ job ∷ d.env.ended
      → (d.env.poll_armed ≡ false)
        × ((d.wq_not_ready_warned || d.env.refused) ≡ false)
        × (d.env.timer_armed ≡ false)
        × (d.env.ping ≡ false)
        × (r.pending ≡ false)
        × (r.attempt_in_progress ≡ false)
      → let (_, r', d') =
          run_job config
            (traced_queue config handler callback take ready poll resched)
            (traced_wq config handler callback take ready poll resched)
            job
            n
            (some (with_ops r))
            (wired d) in
        Wired r' d'
  run_job_flies job n r d k l idle = elim (Bool-cases (job.job_type == ping_run)) [
    | inl e ↦ ping_flies job n r d k l idle e
    | inr e ↦ sms_flies job n r d k l idle e
  ]

  message_flies :
      (r : Retry World) (d : World) (o : Option (Known P × E))
      → Free r d
      → d.env.poll_armed ≡ true
      → let polled = record d { env = record d.env { poll_armed = false } } in
        let (r', d') =
          handle_message config
            (traced_queue config handler callback take ready poll resched)
            (traced_wq config handler callback take ready poll resched)
            (some (with_ops r))
            (wired polled)
            (got config handler callback take ready poll resched polled.env o) in
        Wired r' d'
  unfolding handle_message
  message_flies r d none h armed = ground arith
  message_flies r d (some (k, inner)) h armed =
      run_job_flies k.job (policy_get config k.job.job_type) r
        (record d {
          env = record d.env { inner = inner; taken = k.job ∷ d.env.taken; poll_armed = false };
        })
        k.known (ap (λ l. k.job ∷ l) h.log)
        (refl, ground (arith, h.poll, armed), h.timer, h.ping, h.pending, h.attempt)

  timer_flies :
      (r : Retry World) (d : World)
      → Retrying r d
      → d.env.timer_armed ≡ true
      → let (_, r', d') =
          step again
            (with_ops r)
            (record (wired d) { env = record d.env { timer_armed = false } }) in
        Wired (some r') d'
  unfolding step retry_ops
  timer_flies r d h t =
      let d₀ : World = record d { env = record d.env { timer_armed = false } } in
      let flies : Retrying (record r { pending = true; attempt_in_progress = true }) d₀ =
        ground arith in
      run_step_flies r d₀ flies

  pub handle-Wired :
      (e : Event) (r : Retry World) (d : World)
      → InFlight r d
      → let (r', d') =
          handle config handler callback take ready poll resched e (some (with_ops r)) (wired d) in
        Wired r' d'
  unfolding handle work_handler complete
  handle-Wired Event.poll_fires r d (inl h) = elim (Bool-cases d.env.poll_armed) [
    | inl e ↦ rw e (message_flies r d (take d.env.inner) h e)
    | inr e ↦ rw e (refl, refl, ground arith)
  ]
  handle-Wired Event.poll_fires r d (inr (inl h)) = rw h.poll (refl, refl, ground arith)
  handle-Wired Event.poll_fires r d (inr (inr h)) = rw h.poll (refl, refl, ground arith)
  handle-Wired Event.timer_fires r d (inl h) = rw h.timer (refl, refl, ground arith)
  handle-Wired Event.timer_fires r d (inr (inl h)) = elim (Bool-cases d.env.timer_armed) [
    | inl e ↦ rw e (timer_flies r d h e)
    | inr e ↦ rw e (refl, refl, ground arith)
  ]
  handle-Wired Event.timer_fires r d (inr (inr h)) = rw h.timer (refl, refl, ground arith)
  handle-Wired (Event.sms_done ret) r d h = ground (arith, finish_flies r ret d)
  handle-Wired (Event.ping_done ret) r d h = ground arith
