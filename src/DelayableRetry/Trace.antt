-- ===== src/DelayableRetry/Trace.antt =====
-- A retry object among the events that drive it, with a record of the callbacks that it makes. The
-- client's callbacks and `k_work_reschedule_for_queue` are parameters; the wrappers below log each
-- call before they pass it on, and arm the timer where the reschedule succeeds.
use tibbit.Common.{
  ℕ, suc, ◌%◌, Bool, true, false, Option, none, some, List, [], ◌∷◌, ℤ, is_neg, if◌then◌else◌,
}
use tibbit.DelayableRetry.{Ops, Retry, start, complete, work_handler, is_pending}

pub data Call : Type 0 where
  attempted : ℕ → Call
  failed : ℤ → ℕ → Call
  rescheduled : ℤ → Call
  completed : ℤ → Call

-- `armed`: the delayable work item is queued, so its handler will run once.
pub record Traced (C : Type 0) : Type 0 where
  pub client : C
  pub calls : List Call  -- since the last `begin`, newest first
  pub armed : Bool

-- What may happen to the object: a client starts it, the timer fires, a client reports the result
-- of the attempt that is in progress.
pub data Event : Type 0 where
  begin : ℕ → Event
  fire : Event
  finish : ℤ → Event

abbrev pub attempts : List Call → ℕ
attempts [] = 0
attempts (attempted k ∷ cs) = suc (attempts cs)
attempts (_ ∷ cs) = attempts cs

abbrev pub completions : List Call → ℕ
completions [] = 0
completions (completed ret ∷ cs) = suc (completions cs)
completions (_ ∷ cs) = completions cs

abbrev map_callback {ℓ κ} : {A : Type ℓ} {B : Type κ} → (A → B) → Option A → Option B
map_callback f none = none
map_callback f (some g) = some (f g)

module _ {C : Type 0} where
  abbrev log : Call → Traced C → C → Traced C
  log c s client = record s { client = client; calls = c ∷ s.calls }

  abbrev pub log_run : (ℕ → C → ℤ × C) → ℕ → Traced C → ℤ × Traced C
  log_run f k s = let (ret, client) = f k s.client in (ret, log (attempted k) s client)

  abbrev log_delay : (ℕ → C → ℕ × C) → ℕ → Traced C → ℕ × Traced C
  log_delay f k s = let (ms, client) = f k s.client in (ms, record s { client = client })

  abbrev log_failed : (ℤ → ℕ → ℕ → C → C) → ℤ → ℕ → ℕ → Traced C → Traced C
  log_failed f ret k n s = log (failed ret k) s (f ret k n s.client)

  abbrev log_complete : (ℤ → C → C) → ℤ → Traced C → Traced C
  log_complete f ret s = log (completed ret) s (f ret s.client)

  abbrev pub traced_ops : Ops C → Ops (Traced C)
  traced_ops o = record {
    run_attempt = map_callback log_run o.run_attempt;
    retry_delay_ms = map_callback log_delay o.retry_delay_ms;
    attempt_failed = map_callback log_failed o.attempt_failed;
    complete = map_callback log_complete o.complete;
  }

  module _ (reschedule : ℕ → C → ℤ × C) where
    abbrev pub log_reschedule : ℕ → Traced C → ℤ × Traced C
    log_reschedule ms s =
        let (ret, client) = reschedule ms s.client in
        (
          ret,
          record s {
            client = client;
            calls = rescheduled ret ∷ s.calls;
            armed = if is_neg ret then s.armed else true;
          },
        )

    -- A client starts the object only while it is not pending, as `tb45_sms_rx_delete_kick` and
    -- `tb45_sms_rx_process_trigger` check; the count it passes is a `uint8_t`. The handler runs
    -- only if the work item is queued, and takes it off the queue.
    unfoldable pub handle :
        Event → Option (Retry (Traced C)) → Traced C → Option (Retry (Traced C)) × Traced C
    unfolding start complete work_handler is_pending
    handle (begin n) r s =
        if is_pending r
        then (r, s)
        else let (_, r', s') = start log_reschedule r (n % 256) (record s { calls = [] }) in
          (r', s')
    handle fire none s = (none, s)
    handle fire (some r) s =
        if s.armed
        then (let (r', s') = work_handler log_reschedule r (record s { armed = false }) in
            (some r', s'))
        else (some r, s)
    handle (finish ret) r s = let (_, r', s') = complete log_reschedule r ret s in (r', s')

    unfoldable pub run :
        List Event → Option (Retry (Traced C)) → Traced C → Option (Retry (Traced C)) × Traced C
    run [] r s = (r, s)
    run (e ∷ es) r s = let (r', s') = handle e r s in run es r' s'
