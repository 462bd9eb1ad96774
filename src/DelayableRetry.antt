-- ===== src/DelayableRetry.antt =====
-- tb45_delayable_retry.h and tb45_delayable_retry.c: a retried operation on a delayable work item.
-- The callbacks of `struct tb45_delayable_retry_ops` act on the state `S` of the client that owns
-- the object; a pointer that may be NULL is an `Option`. `reschedule` stands for
-- `k_work_reschedule_for_queue` on the object's work item, with the delay in milliseconds.
pub mod Trace
pub mod Protocol
pub mod Settles
pub mod Keeps
mod Tests
use tibbit.Common.{
  ℕ, ◌+◌, ◌%◌, Bool, true, false, not, ◌||◌, Option, none, some, ℤ, pos, is_neg, eqb_ℤ, ltb, ◌==◌,
  if◌then◌else◌,
}
use tibbit.Common.Errno.{einprogress}

pub record Ops (S : Type 0) : Type 0 where
  pub run_attempt : Option (ℕ → S → ℤ × S)
  pub retry_delay_ms : Option (ℕ → S → ℕ × S)
  pub attempt_failed : Option (ℤ → ℕ → ℕ → S → S)
  pub complete : Option (ℤ → S → S)

pub record Retry (S : Type 0) : Type 0 where
  pub ops : Option (Ops S)
  pub attempt : ℕ  -- uint8_t
  pub max_attempts : ℕ  -- uint8_t
  pub pending : Bool
  pub attempt_in_progress : Bool

abbrev pub uint8_max : ℕ
uint8_max = 255

module _ {S : Type 0} where
  -- `retry->ops->complete(retry, ret)`. A NULL callback never gets here: see `ops_ready`.
  unfoldable pub call_complete : Option (Ops S) → ℤ → S → S
  call_complete none ret s = s
  call_complete (some ops) ret s = elim ops.complete [ none ↦ s | some f ↦ f ret s ]

  unfoldable pub call_attempt_failed : Option (Ops S) → ℤ → ℕ → ℕ → S → S
  call_attempt_failed none ret k n s = s
  call_attempt_failed (some ops) ret k n s = elim ops.attempt_failed [
    | none ↦ s
    | some f ↦ f ret k n s
  ]

  unfoldable pub call_retry_delay_ms : Option (Ops S) → ℕ → S → ℕ × S
  call_retry_delay_ms none k s = (0, s)
  call_retry_delay_ms (some ops) k s = elim ops.retry_delay_ms [ none ↦ (0, s) | some f ↦ f k s ]

  -- Whether `step` may run: `ops`, `run_attempt` and `complete` are not NULL.
  abbrev pub ops_ready : Option (Ops S) → Bool
  ops_ready none = false
  ops_ready (some ops) = elim ops.run_attempt [
    | none ↦ false
    | some _ ↦ elim ops.complete [ none ↦ false | some _ ↦ true ]
  ]

  -- `retry->attempt++`, which stops at `UINT8_MAX` where the attempts are not limited.
  unfoldable pub next_attempt : Retry S → ℕ
  next_attempt r =
      if not (r.max_attempts == 0) || ltb r.attempt uint8_max
      then (r.attempt + 1) % 256
      else r.attempt

  -- The end of `finish_attempt`: no further attempt will be made.
  unfoldable pub give_up : Retry S → ℤ → S → Bool × Retry S × S
  give_up r ret s = (false, record r { pending = false }, call_complete r.ops ret s)

  module _ (reschedule : ℕ → S → ℤ × S) where
    -- The branch of `finish_attempt` that arms the next attempt.
    unfoldable pub schedule_next : Retry S → S → Bool × Retry S × S
    unfolding give_up call_retry_delay_ms next_attempt
    schedule_next r s =
        let (delay_ms, s') = call_retry_delay_ms r.ops r.attempt s in
        let (sched_ret, s'') = reschedule delay_ms s' in
        if is_neg sched_ret
        then give_up r sched_ret s''
        else (true, record r { attempt = next_attempt r; pending = true }, s'')

    unfoldable pub finish_attempt : Retry S → ℤ → S → Bool × Retry S × S
    unfolding schedule_next give_up call_complete call_attempt_failed
    finish_attempt r₀ ret s =
        let r = record r₀ { attempt_in_progress = false } in
        let s' = call_attempt_failed r.ops ret r.attempt r.max_attempts s in
        if eqb_ℤ ret (pos 0)
        then (false, record r { pending = false }, call_complete r.ops (pos 0) s)
        else if r.max_attempts == 0 || ltb r.attempt r.max_attempts
        then schedule_next r s'
        else give_up r ret s'

    -- `step` behind its guard, with the callbacks that the guard has found.
    unfoldable pub run_step : Retry S → (ℕ → S → ℤ × S) → S → Bool × Retry S × S
    unfolding finish_attempt
    run_step r₀ run s =
        let r = record r₀ { pending = true; attempt_in_progress = true } in
        let (ret, s') = run r.attempt s in
        if eqb_ℤ ret einprogress then (true, r, s') else finish_attempt r ret s'

    unfoldable pub step : Retry S → S → Bool × Retry S × S
    unfolding run_step
    step r s = elim r.ops [
      | none ↦ (false, r, s)
      | some ops ↦ elim ops.run_attempt [
        | none ↦ (false, r, s)
        | some run ↦ elim ops.complete [ none ↦ (false, r, s) | some _ ↦ run_step r run s ]
      ]
    ]

    -- The work handler: `step`, its result dropped.
    unfoldable pub work_handler : Retry S → S → Retry S × S
    unfolding step
    work_handler r s = let (_, r', s') = step r s in (r', s')

    -- The NULL object of the calls below is `none`.
    unfoldable pub start : Option (Retry S) → ℕ → S → Bool × Option (Retry S) × S
    unfolding step
    start none max_attempts s = (false, none, s)
    start (some r) max_attempts s =
        let fresh = record r {
          attempt = 1;
          max_attempts = max_attempts;
          pending = false;
          attempt_in_progress = false;
        } in
        let (again, r', s') = step fresh s in (again, some r', s')

    unfoldable pub complete : Option (Retry S) → ℤ → S → Bool × Option (Retry S) × S
    unfolding finish_attempt
    complete none ret s = (false, none, s)
    complete (some r) ret s =
        if not r.attempt_in_progress
        then (false, some r, s)
        else let (again, r', s') = finish_attempt r ret s in (again, some r', s')

  unfoldable pub init : Option (Retry S) → Option (Ops S) → Option (Retry S)
  init none ops = none
  init (some r) ops = some (record {
    ops = ops;
    attempt = 0;
    max_attempts = 0;
    pending = false;
    attempt_in_progress = false;
  })

  unfoldable pub is_pending : Option (Retry S) → Bool
  is_pending none = false
  is_pending (some r) = r.pending
