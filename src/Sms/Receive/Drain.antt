-- ===== src/Sms/Receive/Drain.antt =====
-- tb45_sms_rx_poll_work_handler on the triggers that wait in their queue.
use mathlib.Core.Path.{subst}
use tibbit.Common.{
  ℕ, zero, suc, ◌+◌, ◌<◌, ◌≡◌, refl, sym, ap, ◌∙◌, ◌⊎◌, inl, inr, Bool, true, false, if_elim,
  Option, some, List, [], ◌∷◌, ◌++◌, arith, if◌then◌else◌, length,
}
use Prim.{Unit, tt}
use tibbit.Kernel.{MsgQueueLaws}
use tibbit.DelayableRetry
use tibbit.DelayableRetry.{Retry}
use tibbit.Sms.Receive.Platform.{Trigger, Services}
use tibbit.Sms.Receive.{Rx, Config, resume_poll}
use tibbit.Sms.Receive.Worker.{Receiver, process_trigger, poll_loop, poll_work_handler}
use tibbit.Sms.Receive.Delete.{delete_kick}
use tibbit.Sms.Receive.Started.{IsArmed}
use tibbit.Sms.Receive.Steady.{Alone, process_trigger-Steady}

module _ {E : Type 0} (c : Config) (p : Services E) (triggers : E → List Trigger)
    (alone : Alone p triggers) where
  -- The triggers of a list, each taken off the queue and processed.
  abbrev pub process_all : List Trigger → Receiver E → Receiver E
  process_all [] m = m
  process_all (t ∷ ts) m =
      let taken = record m { rx = record (m.rx) { env = (p.triggers.get m.rx.env).2 } } in
      process_all ts (process_trigger c p t taken)

  -- No scan is running between two of the triggers, each of them processed before the next is taken.
  abbrev pub IdleBetween : List Trigger → Receiver E → Type 0
  IdleBetween [] m = Unit
  IdleBetween (t ∷ ts) m =
      let done = process_all (t ∷ []) m in
      ((ts ≡ []) ⊎ (done.rx.capture_ctx.active ≡ false)) × IdleBetween ts done

  -- How the handler ends where no scan is running.
  abbrev pub finish_poll : Receiver E → Receiver E
  finish_poll m =
      let (retry, rx) = delete_kick p m.delete_retry m.rx in
      record m {
        rx = if DelayableRetry.is_pending retry then rx else resume_poll p rx;
        delete_retry = retry;
      }

  module _ (depth : ℕ) (laws : MsgQueueLaws p.triggers depth triggers) where
    abbrev Drained : Receiver E → Option (Receiver E) → Type 0
    Drained m o =
        (taken : List Trigger) × (left : List Trigger) × (triggers m.rx.env ≡ taken ++ left)
        × IdleBetween taken m
        × (o ≡ some (process_all taken m))
        × (triggers (process_all taken m).rx.env ≡ left)
        × (((process_all taken m).rx.capture_ctx.active ≡ true) ⊎ (left ≡ []))

    poll_loop_ends :
        (n : ℕ) (m : Receiver E) → triggers m.rx.env ≡ [] → poll_loop c p (suc n) m ≡ some m
    unfolding poll_loop
    poll_loop_ends n m empty = rw (laws.get_none m.rx.env empty) refl

    poll_loop_goes :
        (n : ℕ) (m : Receiver E) (t : Trigger) (ts : List Trigger)
        → triggers m.rx.env ≡ t ∷ ts
        → let done = process_all (t ∷ []) m in
          poll_loop c p (suc n) m
          ≡ (if done.rx.capture_ctx.active then some done else poll_loop c p n done)
    unfolding poll_loop
    poll_loop_goes n m t ts holds =
        let (ok, got, _) = laws.get_some m.rx.env t ts holds in rw (ok, got) refl

    poll_loop-Drained :
        (ts : List Trigger) (n : ℕ) (m : Receiver E)
        → IsArmed c p m.init_retry
        → triggers m.rx.env ≡ ts
        → length ts < n
        → Drained m (poll_loop c p n m)
    poll_loop-Drained ts zero m armed holds short = absurd (omega (arith, short))
    poll_loop-Drained [] (suc n) m armed holds short =
        subst (Drained m) (sym (poll_loop_ends n m holds))
          ([], [], holds, tt, refl, holds, inr refl)
    poll_loop-Drained (t ∷ ts) (suc n) m armed holds short =
        let (_, _, left) = laws.get_some m.rx.env t ts holds in
        let got = record m { rx = record (m.rx) { env = (p.triggers.get m.rx.env).2 } } in
        let done = process_trigger c p t got in
        let (same, still) = process_trigger-Steady c p triggers alone t got armed in
        let (taken, last, split, idle_between, all, queued, ends) =
          poll_loop-Drained ts n done still (same ∙ left) (omega (arith, short)) in
        subst (Drained m) (sym (poll_loop_goes n m t ts holds)) (
          if_elim (Drained m) done.rx.capture_ctx.active
            (λ active. (t ∷ [], ts, holds, (inl refl, tt), refl, same ∙ left, inl active))
            (λ idle. (
              t ∷ taken,
              last,
              holds ∙ ap (t ∷◌) (sym (same ∙ left) ∙ split),
              (inr idle, idle_between),
              all,
              queued,
              ends,
            )))

    -- More rounds than the queue holds triggers change nothing.
    poll_loop_settles :
        (ts : List Trigger) (n extra : ℕ) (m : Receiver E)
        → IsArmed c p m.init_retry
        → triggers m.rx.env ≡ ts
        → length ts < n
        → poll_loop c p (n + extra) m ≡ poll_loop c p n m
    poll_loop_settles ts zero extra m armed holds short = absurd (omega (arith, short))
    poll_loop_settles [] (suc n) extra m armed holds short =
        let one_more : suc n + extra ≡ suc (n + extra) = omega arith in
        ap (λ k. poll_loop c p k m) one_more
        ∙ poll_loop_ends (n + extra) m holds
        ∙ sym (poll_loop_ends n m holds)
    poll_loop_settles (t ∷ ts) (suc n) extra m armed holds short =
        let (_, _, left) = laws.get_some m.rx.env t ts holds in
        let got = record m { rx = record (m.rx) { env = (p.triggers.get m.rx.env).2 } } in
        let done = process_trigger c p t got in
        let (same, still) = process_trigger-Steady c p triggers alone t got armed in
        let one_more : suc n + extra ≡ suc (n + extra) = omega arith in
        ap (λ k. poll_loop c p k m) one_more
        ∙ poll_loop_goes (n + extra) m t ts holds
        ∙ ap (λ rest. if done.rx.capture_ctx.active then some done else rest)
            (poll_loop_settles ts n extra done still (same ∙ left) (omega (arith, short)))
        ∙ sym (poll_loop_goes n m t ts holds)

    resume_inside :
        (pending : Bool) (m : Receiver E) (resumed : Rx E)
        → (if pending then m else record m { rx = resumed })
          ≡ record m { rx = if pending then m.rx else resumed }
    resume_inside true m resumed = refl
    resume_inside false m resumed = refl

    by_active :
        (m d : Receiver E) (left : List Trigger)
        → poll_work_handler c p m ≡ some (if d.rx.capture_ctx.active then d else finish_poll d)
        → (d.rx.capture_ctx.active ≡ true) ⊎ (left ≡ [])
        → if d.rx.capture_ctx.active
          then poll_work_handler c p m ≡ some d
          else (left ≡ []) × (poll_work_handler c p m ≡ some (finish_poll d))
    by_active m d left ends why = split d.rx.capture_ctx.active ends why
      where
        split :
            (b : Bool)
            → poll_work_handler c p m ≡ some (if b then d else finish_poll d)
            → (b ≡ true) ⊎ (left ≡ [])
            → if b
              then poll_work_handler c p m ≡ some d
              else (left ≡ []) × (poll_work_handler c p m ≡ some (finish_poll d))
        split true ends why = ends
        split false ends (inl h) = absurd (cc h)
        split false ends (inr h) = (h, ends)

    handler_ends :
        (m d : Receiver E)
        → poll_loop c p (p.triggers_used m.rx.env + 1) m ≡ some d
        → poll_work_handler c p m ≡ some (if d.rx.capture_ctx.active then d else finish_poll d)
    unfolding poll_work_handler
    handler_ends m d looped =
        let (retry, rx) = delete_kick p d.delete_retry d.rx in
        let kicked : Receiver E = record d { rx = rx; delete_retry = retry } in
        rw (looped, poll_work_handler)
          (ap (λ x. some (if d.rx.capture_ctx.active then d else x))
            (resume_inside (DelayableRetry.is_pending retry) kicked (resume_poll p rx)))

    -- When the poll item runs, it takes triggers off the queue from the oldest on and processes
    -- each, until a scan is running or the queue is empty: after a trigger that leaves a scan
    -- running it takes no other. Triggers that are left stay in their order; if no scan is running,
    -- none is left, the next deletion is started, and the poll item is submitted again unless a
    -- deletion is pending. It is assumed that `k_msgq_num_used_get` answers the length of the queue,
    -- and that what the handler calls leaves the queue alone. The rounds given to the loop are
    -- enough for it to end, and with `extra` more it ends in the same state.
    pub poll_handler_drains :
        (m : Receiver E) (extra : ℕ)
        → IsArmed c p m.init_retry
        → p.triggers_used m.rx.env ≡ length (triggers m.rx.env)
        → (taken : List Trigger) × (left : List Trigger) × (triggers m.rx.env ≡ taken ++ left)
          × IdleBetween taken m
          × (let d = process_all taken m in
              (triggers d.rx.env ≡ left)
              × (poll_loop c p (p.triggers_used m.rx.env + 1 + extra) m ≡ some d)
              × (if d.rx.capture_ctx.active
                  then poll_work_handler c p m ≡ some d
                  else (left ≡ []) × (poll_work_handler c p m ≡ some (finish_poll d))))
    poll_handler_drains m extra armed used =
        let ts = triggers m.rx.env in
        let (taken, left, split, idle_between, looped, queued, ends) =
          poll_loop-Drained ts (p.triggers_used m.rx.env + 1) m armed refl (omega (arith, used)) in
        let d = process_all taken m in
        let settled =
          poll_loop_settles ts (p.triggers_used m.rx.env + 1) extra m armed refl
            (omega (arith, used)) in
        (
          taken,
          left,
          split,
          idle_between,
          (queued, settled ∙ looped, by_active m d left (handler_ends m d looped) ends),
        )
