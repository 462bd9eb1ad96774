-- ===== src/AsyncDispatcher/Tests.antt =====
-- The dispatcher with a queue of two jobs.
use tibbit.Common.{
  ℕ, refl, ◌≡◌, inl, Bool, true, false, Option, none, some, List, [], ◌∷◌, ℤ, pos, negsuc, arith,
}
use tibbit.Common.Errno.{einprogress}
use tibbit.AsyncJob.{AsyncJob, Config, ping_run, sms_send}
use tibbit.DelayableRetry.{Retry}
use tibbit.AsyncDispatcher.{Dispatcher, init}
use tibbit.AsyncDispatcher.Flight.{
  Traced, Known, Event, poll_fires, timer_fires, sms_done, traced_registry, traced_queue, traced_wq,
  run,
}
use tibbit.AsyncDispatcher.Unready.{refused_init_stalls}
use tibbit.AsyncDispatcher.OneAtATime.{Served, Unused, one_at_a_time}

abbrev config : Config
config = record {
  sms_send_max_retries = 1;
  sms_send_retry_delay_ms = 3000;
  ping_extra_retries = 0;
  ping_retry_delay_ms = 1000;
}

-- The outside is the list of the jobs that wait. Every job takes its time.
abbrev World : Type 0
World = List (Known ℕ)

abbrev handler : AsyncJob ℕ → World → ℤ × World
handler job w = (einprogress, w)

abbrev callback : AsyncJob ℕ → ℤ → World → World
callback job ret w = w

abbrev take_job : World → Option (Known ℕ × World)
take_job [] = none
take_job (j ∷ w) = some (j, w)

abbrev ready : World → Bool
ready w = true

abbrev poll : World → ℤ × World
poll w = (pos 0, w)

abbrev arm : ℕ → World → ℤ × World
arm ms w = (pos 0, w)

abbrev two_jobs : World
two_jobs =
    record { job = record { job_type = sms_send; payload = 1 }; known = omega arith }
    ∷ record { job = record { job_type = ping_run; payload = 2 }; known = omega arith }
    ∷ []

abbrev asleep : Dispatcher ℕ (Traced ℕ World)
asleep = record {
  job = record { job_type = 0; payload = 0 };
  registry = traced_registry config handler callback take_job ready poll arm;
  wq_not_ready_warned = false;
  poll_event_ready = false;
  env = record {
    inner = two_jobs;
    taken = [];
    ended = [];
    poll_armed = false;
    refused = false;
    timer_armed = false;
    ping = false;
    ping_job = record { job_type = 0; payload = 0 };
  };
}

abbrev blank : Retry (Dispatcher ℕ (Traced ℕ World))
blank = record {
  ops = none;
  attempt = 0;
  max_attempts = 0;
  pending = false;
  attempt_in_progress = false;
}

asleep-Unused : Unused config handler callback take_job ready poll arm asleep
asleep-Unused = record {
  registry = refl;
  none_taken = refl;
  none_ended = refl;
  no_poll = refl;
  no_timer = refl;
  no_ping = refl;
}

-- The SMS job fails once, is tried again, and succeeds; the ping job is then under way.
abbrev events : List Event
events =
    poll_fires ∷ sms_done (negsuc 4) ∷ poll_fires ∷ timer_fires ∷ sms_done (pos 0) ∷ poll_fires ∷ []

one_at_a_time_example :
    let (_, r₀, d₀) =
      init config
        (traced_queue config handler callback take_job ready poll arm)
        (traced_wq config handler callback take_job ready poll arm)
        (some blank)
        asleep in
    let (r', d') = run config handler callback take_job ready poll arm events r₀ d₀ in
    Served config handler callback take_job ready poll arm r' d'
one_at_a_time_example =
    one_at_a_time config handler callback take_job ready poll arm events blank asleep asleep-Unused

-- At boot the work queue does not run yet.
abbrev not_ready : World → Bool
not_ready w = false

refused_init_stalls_example :
    let (_, r₀, d₀) =
      init config
        (traced_queue config handler callback take_job not_ready poll arm)
        (traced_wq config handler callback take_job not_ready poll arm)
        (some blank)
        (record asleep {
          registry = traced_registry config handler callback take_job not_ready poll arm;
        }) in
    let (r', d') = run config handler callback take_job not_ready poll arm events r₀ d₀ in
    (r' ≡ r₀) × (d' ≡ d₀) × (d'.env.taken ≡ [])
refused_init_stalls_example =
    refused_init_stalls config handler callback take_job not_ready poll arm events blank
      (record asleep {
        registry = traced_registry config handler callback take_job not_ready poll arm;
      })
      (record {
        registry = refl;
        none_taken = refl;
        none_ended = refl;
        no_poll = refl;
        no_timer = refl;
        no_ping = refl;
      })
      (inl refl)
