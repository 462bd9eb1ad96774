-- ===== src/AsyncDispatcher/Unready.antt =====
-- The dispatcher when its first submission of the poll item is refused.
use tibbit.Common.{
  ℕ, ◌≡◌, refl, ◌⊎◌, Bool, true, false, Option, none, some, List, [], ◌∷◌, ℤ, is_neg, arith,
}
use tibbit.AsyncJob.{AsyncJob, Config}
use tibbit.DelayableRetry.{Retry}
use tibbit.DelayableRetry
use tibbit.AsyncDispatcher.{Dispatcher, complete_attempt, retry_ops, init}
use tibbit.AsyncDispatcher.Flight.{Traced, Known, Event, traced_queue, traced_wq, handle, run}
use tibbit.AsyncDispatcher.OneAtATime.{Unused}

module _ {P E : Type 0} (config : Config) (handler : AsyncJob P → E → ℤ × E)
    (callback : AsyncJob P → ℤ → E → E) (take : E → Option (Known P × E)) (ready : E → Bool)
    (poll : E → ℤ × E) (resched : ℕ → E → ℤ × E) where
  -- Nothing is armed and nothing is under way.
  record Dead (r : Retry (Dispatcher P (Traced P E))) (d : Dispatcher P (Traced P E)) : Type 0 where
    no_poll : d.env.poll_armed ≡ false
    no_timer : d.env.timer_armed ≡ false
    no_ping : d.env.ping ≡ false
    no_attempt : r.attempt_in_progress ≡ false

  handle-Dead :
      (e : Event) (r : Retry (Dispatcher P (Traced P E))) (d : Dispatcher P (Traced P E))
      → Dead r d
      → handle config handler callback take ready poll resched e (some r) d ≡ (some r, d)
  unfolding handle complete_attempt DelayableRetry.complete
  handle-Dead Event.poll_fires r d h = rw h.no_poll refl
  handle-Dead Event.timer_fires r d h = rw h.no_timer refl
  handle-Dead (Event.sms_done ret) r d h = rw h.no_attempt refl
  handle-Dead (Event.ping_done ret) r d h = rw h.no_ping refl

  run-Dead :
      (es : List Event) (r : Retry (Dispatcher P (Traced P E))) (d : Dispatcher P (Traced P E))
      → Dead r d
      → run config handler callback take ready poll resched es (some r) d ≡ (some r, d)
  unfolding run
  run-Dead [] r d h = refl
  run-Dead (e ∷ es) r d h = rw (handle-Dead e r d h) (run-Dead es r d h)

  abbrev begun : Dispatcher P (Traced P E) → Dispatcher P (Traced P E)
  begun d =
      let (_, _, d₀) =
        init config (traced_queue config handler callback take ready poll resched)
          (traced_wq config handler callback take ready poll resched) none d in
      d₀

  abbrev fresh : Retry (Dispatcher P (Traced P E))
  fresh = record {
    ops = some (
        retry_ops config (traced_queue config handler callback take ready poll resched)
          (traced_wq config handler callback take ready poll resched));
    attempt = 0;
    max_attempts = 0;
    pending = false;
    attempt_in_progress = false;
  }

  init-Dead :
      (d : Dispatcher P (Traced P E))
      → Unused config handler callback take ready poll resched d
      → (ready d.env.inner ≡ false) ⊎ (is_neg (poll d.env.inner).0 ≡ true)
      → Dead fresh (begun d) × ((begun d).env.taken ≡ [])
  unfolding init
  init-Dead d u refused = ground arith

  -- If the work queue is not ready when the dispatcher is initialised, or does not take its poll item
  -- then, nothing submits that item again: whatever events follow, no handler changes anything, so
  -- no job is ever taken off the queue.
  pub refused_init_stalls :
      (es : List Event) (r : Retry (Dispatcher P (Traced P E))) (d : Dispatcher P (Traced P E))
      → Unused config handler callback take ready poll resched d
      → (ready d.env.inner ≡ false) ⊎ (is_neg (poll d.env.inner).0 ≡ true)
      → let (_, r₀, d₀) =
          init config
            (traced_queue config handler callback take ready poll resched)
            (traced_wq config handler callback take ready poll resched)
            (some r)
            d in
        let (r', d') = run config handler callback take ready poll resched es r₀ d₀ in
        (r' ≡ r₀) × (d' ≡ d₀) × (d'.env.taken ≡ [])
  unfolding init DelayableRetry.init
  refused_init_stalls es r d u refused =
      let (dead, none_taken) = init-Dead d u refused in
      rw (run-Dead es fresh (begun d) dead) (refl, refl, none_taken)
