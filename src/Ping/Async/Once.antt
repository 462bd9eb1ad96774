-- ===== src/Ping/Async/Once.antt =====
-- The jobs of the ping machine over a sequence of events.
use tibbit.Common.{
  ℕ, ◌+◌, ◌≤◌, ◌<◌, ◌≡◌, refl, sym, ap, ◌∙◌, ◌⊎◌, inl, inr, true, false, not, Option, none, some,
  List, arith, length, if◌then◌else◌,
}
use tibbit.Ping.Platform.{Progress, Services}
use tibbit.Ping.{Config}
use tibbit.Ping.Async.{
  State, idle, start_attempt, send_request, wait_reply, between_requests, retry_delay, is_idle,
}
use tibbit.Ping.Async.Trace.{Traced, Event, SmallCounts, run}
use tibbit.Ping.Async.Running.{Position}
use tibbit.Ping.Async.Ends.{Ended}
use tibbit.Ping.Async.Events.{M, run-Ended}

module _ {Addr Iface E : Type 0} (config : Config) (p : Services Addr Iface E)
    (on_progress : Progress Addr → E → E) where
  -- What holds after any sequence of events.
  abbrev pub Accounted : Option (M config p on_progress × Traced E) → Type 0
  Accounted none = ⊥
  Accounted (some (ctx, t)) =
      (t.armed ≡ not (is_idle ctx.state))
      × (t.accepted ≡ length t.completed + (if is_idle ctx.state then 0 else 1))

  -- Over every sequence of jobs, expiries and packets, from an idle machine with nothing armed, where
  -- no job asks for 65535 requests or more: the work handler returns every time, the number of
  -- jobs accepted is that of the jobs completed, and one more while the machine is not idle, and the
  -- timer is armed just then.
  pub jobs_complete_once :
      (es : List (Event Addr)) (ctx : M config p on_progress) (t : Traced E)
      → SmallCounts es
      → ctx.state ≡ idle
      → t.armed ≡ false
      → t.accepted ≡ length t.completed
      → Accounted (run config p on_progress es ctx t)
  jobs_complete_once es ctx t small at_rest off none_open =
      settle (run config p on_progress es ctx t) (
        run-Ended config p on_progress es ctx t small
          (inl (record { at_rest = at_rest; disarmed = off; all_completed = sym none_open })))
    where
      busy :
          (s : State) (ctx : M config p on_progress) (accepted done : ℕ)
          → Position config p on_progress s ctx
          → done + 1 ≡ accepted
          → (true ≡ not (is_idle s)) × (accepted ≡ done + (if is_idle s then 0 else 1))
      busy idle ctx accepted done at e = absurd at
      busy start_attempt ctx accepted done at e = (refl, sym e)
      busy send_request ctx accepted done at e = (refl, sym e)
      busy wait_reply ctx accepted done at e = (refl, sym e)
      busy between_requests ctx accepted done at e = (refl, sym e)
      busy retry_delay ctx accepted done at e = (refl, sym e)

      settled :
          (s : State) (accepted done : ℕ)
          → s ≡ idle
          → done ≡ accepted
          → accepted ≡ done + (if is_idle s then 0 else 1)
      settled s accepted done e all = rw e (omega (arith, all))

      settle :
          (r : Option (M config p on_progress × Traced E))
          → Ended config p on_progress r
          → Accounted r
      settle none ended = ended
      settle (some (ctx, t)) (inl s) = (
        s.disarmed ∙ sym (ap (λ s. not (is_idle s)) s.at_rest),
        settled ctx.state t.accepted (length t.completed) s.at_rest s.all_completed,
      )
      settle (some (ctx, t)) (inr b) =
          let (armed, owed) =
            busy ctx.state ctx t.accepted (length t.completed) b.position b.one_left in
          (b.is_armed ∙ armed, owed)

  abbrev CountersOf : State → M config p on_progress → Type 0
  CountersOf wait_reply ctx =
      (ctx.run_ctx.received < ctx.run_ctx.sent)
      × (ctx.run_ctx.sent ≤ ctx.sequence)
      × (ctx.sequence ≤ ctx.req.count)
  CountersOf between_requests ctx =
      (ctx.run_ctx.received ≤ ctx.run_ctx.sent)
      × (ctx.run_ctx.sent < ctx.sequence)
      × (ctx.sequence ≤ ctx.req.count)
  CountersOf _ ctx = Unit

  -- The counters of a job under way.
  abbrev pub WithinLimits : Option (M config p on_progress × Traced E) → Type 0
  WithinLimits none = ⊥
  WithinLimits (some (ctx, t)) =
      (ctx.state ≡ idle)
      ⊎ (0 < ctx.attempt) × (ctx.attempt ≤ ctx.max_attempts) × CountersOf ctx.state ctx

  -- After every sequence of events from an idle machine, as above: a job under way is in an attempt
  -- from 1 to the most attempts it may make. While it waits for a reply it has received fewer
  -- replies than it has sent requests, of which there are no more than its sequence number; while it
  -- waits for the next request it has received no more replies than it has sent requests, of which
  -- there are fewer than its sequence number; and this number is at most its count.
  pub counters_WithinLimits :
      (es : List (Event Addr)) (ctx : M config p on_progress) (t : Traced E)
      → SmallCounts es
      → ctx.state ≡ idle
      → t.armed ≡ false
      → t.accepted ≡ length t.completed
      → WithinLimits (run config p on_progress es ctx t)
  counters_WithinLimits es ctx t small at_rest off none_open =
      limits (run config p on_progress es ctx t) (
        run-Ended config p on_progress es ctx t small
          (inl (record { at_rest = at_rest; disarmed = off; all_completed = sym none_open })))
    where
      counters :
          (s : State) (ctx : M config p on_progress)
          → Position config p on_progress s ctx
          → CountersOf s ctx
      counters idle ctx at = absurd at
      counters start_attempt ctx at = tt
      counters send_request ctx at = tt
      counters wait_reply ctx at = omega (arith, at)
      counters between_requests ctx at = omega (arith, at)
      counters retry_delay ctx at = tt

      limits :
          (r : Option (M config p on_progress × Traced E))
          → Ended config p on_progress r
          → WithinLimits r
      limits none ended = ended
      limits (some (ctx, t)) (inl s) = inl s.at_rest
      limits (some (ctx, t)) (inr b) =
          inr (b.bounded.attempts.0, b.bounded.attempts.1, counters ctx.state ctx b.position)
