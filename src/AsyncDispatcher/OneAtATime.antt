-- ===== src/AsyncDispatcher/OneAtATime.antt =====
-- The dispatcher from its initialisation on, over every sequence of events.
use mathlib.Core.Path.{subst₂}
use tibbit.Common.{
  ℕ, ◌≡◌, sym, ◌⊎◌, inl, inr, not, ◌||◌, Bool, false, Option, none, some, List, [], ◌∷◌, ℤ, arith,
}
use tibbit.AsyncJob.{AsyncJob, Config}
use tibbit.DelayableRetry.{Retry, is_pending}
use tibbit.DelayableRetry
use tibbit.AsyncDispatcher.{Dispatcher, init}
use tibbit.AsyncDispatcher.Flight.{
  Traced, Known, Event, traced_registry, traced_queue, traced_wq, handle, run,
}
use tibbit.AsyncDispatcher.Exclusive.{Wired, handle-Wired}

module _ {P E : Type 0} (config : Config) (handler : AsyncJob P → E → ℤ × E)
    (callback : AsyncJob P → ℤ → E → E) (take : E → Option (Known P × E)) (ready : E → Bool)
    (poll : E → ℤ × E) (resched : ℕ → E → ℤ × E) where
  abbrev Flies : Option (Retry (Dispatcher P (Traced P E))) → Dispatcher P (Traced P E) → Type 0
  Flies = Wired config handler callback take ready poll resched

  handle-Flies :
      (e : Event) (r : Option (Retry (Dispatcher P (Traced P E)))) (d : Dispatcher P (Traced P E))
      → Flies r d
      → let (r', d') = handle config handler callback take ready poll resched e r d in Flies r' d'
  handle-Flies e none d h = absurd h
  handle-Flies e (some r) d (same_ops, same_registry, h) =
      subst₂
        (λ o g.
          let (r', d') =
            handle config handler callback take ready poll resched e (some (record r { ops = o }))
              (record d { registry = g }) in
          Flies r' d')
        (sym same_ops) (sym same_registry)
        (handle-Wired config handler callback take ready poll resched e r d h)

  run-Flies :
      (es : List Event) (r : Option (Retry (Dispatcher P (Traced P E))))
      (d : Dispatcher P (Traced P E))
      → Flies r d
      → let (r', d') = run config handler callback take ready poll resched es r d in Flies r' d'
  unfolding run
  run-Flies [] r d h = h
  run-Flies (e ∷ es) r d h =
      let (r', d') = handle config handler callback take ready poll resched e r d in
      run-Flies es r' d' (handle-Flies e r d h)

  -- What an observer of the queue, the callbacks and the flags sees: no job in flight, or one.
  abbrev pub Served :
      Option (Retry (Dispatcher P (Traced P E))) → Dispatcher P (Traced P E) → Type 0
  Served r d =
      let t = d.env in
      (t.poll_armed ≡ not (d.wq_not_ready_warned || t.refused))
        × (t.taken ≡ t.ended)
        × (is_pending r ≡ false)
        × (t.ping ≡ false)
      ⊎ (j : AsyncJob P) × (t.poll_armed ≡ false)
        × ((d.wq_not_ready_warned || t.refused) ≡ false)
        × (t.taken ≡ j ∷ t.ended)
        × (is_pending r ≡ not t.ping)

  -- The traced dispatcher before `init`: nothing is taken and nothing is armed.
  pub record Unused (d : Dispatcher P (Traced P E)) : Type 0 where
    pub registry : d.registry ≡ traced_registry config handler callback take ready poll resched
    pub none_taken : d.env.taken ≡ []
    pub none_ended : d.env.ended ≡ []
    pub no_poll : d.env.poll_armed ≡ false
    pub no_timer : d.env.timer_armed ≡ false
    pub no_ping : d.env.ping ≡ false

  Flies-Served :
      (r : Option (Retry (Dispatcher P (Traced P E)))) (d : Dispatcher P (Traced P E))
      → Flies r d
      → Served r d
  unfolding is_pending
  Flies-Served none d h = absurd h
  Flies-Served (some r) d (_, _, inl h) = inl (ground arith)
  Flies-Served (some r) d (_, _, inr (inl h)) = inr (d.job, h.poll, h.accepted, h.log, ground arith)
  Flies-Served (some r) d (_, _, inr (inr h)) =
      inr (d.env.ping_job, h.poll, h.accepted, h.log, ground arith)

  init-Flies :
      (r : Retry (Dispatcher P (Traced P E))) (d : Dispatcher P (Traced P E))
      → Unused d
      → let (_, r', d') =
          init config
            (traced_queue config handler callback take ready poll resched)
            (traced_wq config handler callback take ready poll resched)
            (some r)
            d in
        Flies r' d'
  unfolding init DelayableRetry.init
  init-Flies r d u = ground arith

  -- From `init` on, over every sequence of events, and whatever the handlers answer, and whatever
  -- the kernel answers on the readiness of the work queue, to the submission of the poll item and to
  -- a reschedule: the jobs reported to their callbacks are the jobs taken off the queue, each once
  -- and in the order taken, but for at most one job that is in flight. While a job is in flight the
  -- poll item is not armed; it is with the retry object or a ping job, never both. While none is,
  -- the poll item is armed, so that a next job can be taken, exactly if the work queue was ready and
  -- took the item when it was last submitted.
  pub one_at_a_time :
      (es : List Event) (r : Retry (Dispatcher P (Traced P E))) (d : Dispatcher P (Traced P E))
      → Unused d
      → let (_, r₀, d₀) =
          init config
            (traced_queue config handler callback take ready poll resched)
            (traced_wq config handler callback take ready poll resched)
            (some r)
            d in
        let (r', d') = run config handler callback take ready poll resched es r₀ d₀ in Served r' d'
  one_at_a_time es r d u =
      let (_, r₀, d₀) =
        init config (traced_queue config handler callback take ready poll resched)
          (traced_wq config handler callback take ready poll resched) (some r) d in
      let (r', d') = run config handler callback take ready poll resched es r₀ d₀ in
      Flies-Served r' d' (run-Flies es r₀ d₀ (init-Flies r d u))
