-- ===== src/DelayableRetry/Protocol.antt =====
-- The protocol of a retry object, over every sequence of events.
use mathlib.Core.Path.{subst}
use native.Mathlib.Decide.{ℕ_discrete}
use tibbit.Common.{
  ℕ, ◌+◌, ◌%◌, ◌≤◌, ◌<◌, ◌≡◌, sym, ◌≢◌, ◌⊎◌, not, true, false, Option, none, some, List, [], ◌∷◌, ℤ,
  arith,
}
use tibbit.DelayableRetry.{Ops, Retry, init, finish_attempt, run_step}
use tibbit.DelayableRetry.Trace.{
  Traced, Event, attempts, completions, traced_ops, log_run, log_reschedule, handle, run,
}

module _ {C : Type 0} (r : Retry (Traced C)) (s : Traced C) where
  -- No run is open: none was started, or the last one has reported its end once.
  pub record Idle : Type 0 where
    pub settled : r.pending ≡ false
    pub no_attempt : r.attempt_in_progress ≡ false
    pub no_timer : s.armed ≡ false
    pub reported : (s.calls ≡ []) ⊎ (completions s.calls ≡ 1)
    pub limit : r.max_attempts < 256
    pub bounded : r.max_attempts ≢ 0 → attempts s.calls ≤ r.max_attempts

  -- The timer is armed for the attempt `r.attempt`.
  pub record Waiting : Type 0 where
    pub is_open : r.pending ≡ true
    pub no_attempt : r.attempt_in_progress ≡ false
    pub timer : s.armed ≡ true
    pub unreported : completions s.calls ≡ 0
    pub limit : r.max_attempts < 256
    pub counts : (0 < r.attempt) × (r.attempt < 256)
    pub next :
        r.max_attempts ≢ 0 → (attempts s.calls + 1 ≡ r.attempt) × (r.attempt ≤ r.max_attempts)

  -- The attempt `r.attempt` has begun and has not reported its result.
  pub record Busy : Type 0 where
    pub is_open : r.pending ≡ true
    pub attempt : r.attempt_in_progress ≡ true
    pub no_timer : s.armed ≡ false
    pub unreported : completions s.calls ≡ 0
    pub limit : r.max_attempts < 256
    pub counts : (0 < r.attempt) × (r.attempt < 256)
    pub begun : r.max_attempts ≢ 0 → (attempts s.calls ≡ r.attempt) × (r.attempt ≤ r.max_attempts)

  abbrev pub IsValid : Type 0
  IsValid = Idle ⊎ Waiting ⊎ Busy

module _ {C : Type 0} (run_attempt : ℕ → C → ℤ × C) (complete : ℤ → C → C)
    (delay : Option (ℕ → C → ℕ × C)) (failed : Option (ℤ → ℕ → ℕ → C → C))
    (reschedule : ℕ → C → ℤ × C) where
  -- The two callbacks that must not be NULL are there; the others may be missing.
  abbrev pub given_ops : Option (Ops (Traced C))
  given_ops = some (
      traced_ops (record {
        run_attempt = some run_attempt;
        retry_delay_ms = delay;
        attempt_failed = failed;
        complete = some complete;
      }))

  abbrev pub with_ops : Retry (Traced C) → Retry (Traced C)
  with_ops r = record r { ops = given_ops }

  finish_ends :
      (r : Retry (Traced C)) (ret : ℤ) (s : Traced C)
      → Busy r s
      → let (_, r', s') = finish_attempt (log_reschedule reschedule) (with_ops r) ret s in
        (r'.ops ≡ given_ops) × (Idle r' s' ⊎ Waiting r' s')
  unfolding finish_attempt
  finish_ends r ret s b = ground arith

  abbrev pub MayRun : Retry (Traced C) → Traced C → Type 0
  MayRun r s =
      (s.armed ≡ false)
      × (completions s.calls ≡ 0)
      × (r.max_attempts < 256)
      × (0 < r.attempt)
      × (r.attempt < 256)
      × (r.max_attempts ≢ 0 → (attempts s.calls + 1 ≡ r.attempt) × (r.attempt ≤ r.max_attempts))

  run_step_ends :
      (r : Retry (Traced C)) (s : Traced C)
      → MayRun r s
      → let (_, r', s') =
          run_step (log_reschedule reschedule) (with_ops r) (log_run run_attempt) s in
        (r'.ops ≡ given_ops) × IsValid r' s'
  unfolding run_step
  run_step_ends r s m =
      let begun : Retry (Traced C) = record r { pending = true; attempt_in_progress = true } in
      let (ret, s') = log_run run_attempt r.attempt s in ground (arith, finish_ends begun ret s')

  abbrev pub Holds : Option (Retry (Traced C)) → Traced C → Type 0
  Holds none s = ⊥
  Holds (some r) s = (r.ops ≡ given_ops) × IsValid r s

  handle_given :
      (e : Event) (r : Retry (Traced C)) (s : Traced C)
      → IsValid r s
      → let (r', s') = handle reschedule e (some (with_ops r)) s in Holds r' s'
  unfolding handle
  handle_given (Event.begin n) r s h = ground (
    arith,
    run_step_ends
        (record r {
          attempt = 1;
          max_attempts = n % 256;
          pending = false;
          attempt_in_progress = false;
        })
        (record s { calls = [] }),
  )
  handle_given Event.fire r s h = ground (arith, run_step_ends r (record s { armed = false }))
  handle_given (Event.finish ret) r s h = ground (arith, finish_ends r ret s)

  -- Every event keeps the protocol state well-formed.
  pub handle-Holds :
      (e : Event) (r : Option (Retry (Traced C))) (s : Traced C)
      → Holds r s
      → let (r', s') = handle reschedule e r s in Holds r' s'
  handle-Holds e none s h = absurd h
  handle-Holds e (some r) s (same, valid) =
      subst (λ o. let (r', s') = handle reschedule e (some (record r { ops = o })) s in Holds r' s')
        (sym same) (handle_given e r s valid)

  pub run-Holds :
      (es : List Event) (r : Option (Retry (Traced C))) (s : Traced C)
      → Holds r s
      → let (r', s') = run reschedule es r s in Holds r' s'
  unfolding run
  run-Holds [] r s h = h
  run-Holds (e ∷ es) r s h =
      let (r', s') = handle reschedule e r s in run-Holds es r' s' (handle-Holds e r s h)

  -- What an observer of the callbacks may rely on: a run is open, with its end not reported and
  -- either the timer armed or an attempt in progress, or it is closed, with nothing under way and
  -- its end reported once; and a limit is kept.
  pub record Observed (r : Retry (Traced C)) (s : Traced C) : Type 0 where
    pub phase :
        (r.pending ≡ true) × (completions s.calls ≡ 0) × (r.attempt_in_progress ≡ not s.armed)
        ⊎ (r.pending ≡ false)
          × (r.attempt_in_progress ≡ false)
          × (s.armed ≡ false)
          × ((s.calls ≡ []) ⊎ (completions s.calls ≡ 1))
    pub limited : (r.max_attempts ≡ 0) ⊎ (attempts s.calls ≤ r.max_attempts)

  abbrev pub Shows : Option (Retry (Traced C)) → Traced C → Type 0
  Shows none s = ⊥
  Shows (some r) s = Observed r s

  pub Holds-Shows : (r : Option (Retry (Traced C))) (s : Traced C) → Holds r s → Shows r s
  Holds-Shows none s h = h
  Holds-Shows (some r) s h = record {
    phase = ground arith;
    limited = ground (arith, ℕ_discrete r.max_attempts 0);
  }

  pub fresh-Holds :
      (r : Retry (Traced C)) (s : Traced C)
      → s.calls ≡ []
      → s.armed ≡ false
      → Holds (init (some r) given_ops) s
  unfolding init
  fresh-Holds r s c a = ground arith

  -- From `init` on, whatever the callbacks and the kernel answer and whatever events come in
  -- whatever order: while a run is pending its end is not reported, and either the timer is armed
  -- or an attempt is in progress, never both; once it is not pending nothing is under way, and its
  -- end has been reported exactly once if anything was called at all; and under a limit no more
  -- attempts begin than it allows.
  pub run_protocol :
      (es : List Event) (r : Retry (Traced C)) (s : Traced C)
      → s.calls ≡ []
      → s.armed ≡ false
      → let (r', s') = run reschedule es (init (some r) given_ops) s in Shows r' s'
  run_protocol es r s c a =
      let (r', s') = run reschedule es (init (some r) given_ops) s in
      Holds-Shows r' s' (run-Holds es (init (some r) given_ops) s (fresh-Holds r s c a))
