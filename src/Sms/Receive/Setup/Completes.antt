-- ===== src/Sms/Receive/Setup/Completes.antt =====
-- The whole setup of the modem, from the trigger that starts it to the trigger's place in the queue.
use mathlib.Core.Path.{subst}
use tibbit.Common.{
  ℕ, ◌≤◌, ◌<◌, ◌≡◌, refl, sym, ap, ◌∙◌, Bool, true, false, Option, none, some, List, [], ◌∷◌, ◌++◌,
  leb, if◌then◌else◌, length, Bytes, codes,
}
use tibbit.Kernel.{MsgQueueLaws}
use tibbit.DelayableRetry
use tibbit.DelayableRetry.{Retry}
use tibbit.Sms.Receive.Platform.{Trigger, Services}
use tibbit.Sms.Receive.Newest.{newest}
use tibbit.Sms.Receive.{
  Rx, Config, init_is_ready, init_merge_trigger, init_kick_pending_trigger, enqueue_trigger,
}
use tibbit.Sms.Receive.Init.{cpms_cmd, set_last_ret, init_retry_ops}
use tibbit.Sms.Receive.Worker.{Receiver, process_trigger}
use tibbit.Sms.Receive.Waiting.{kept_trigger, merged-kept_trigger}
use tibbit.Sms.Receive.Queues.{enqueue_trigger_refines}
use tibbit.Sms.Receive.Setup.Commands.{
  rounds, setup_commands, last_env, set_up, finishes, sent-last_env,
}
use tibbit.Sms.Receive.Setup.Kick.{Separate, enqueue_keeps, enqueue_trigger_sent}
use tibbit.Sms.Receive.Setup.{Willing, setup_run, finished, waiting, merged, start_sends}

when_true : (X Y : Type 0) (b : Bool) → b ≡ true → (if b then X else Y) → X
when_true X Y true e x = x
when_true X Y false e x = absurd (cc e)

module _ {E : Type 0} (c : Config) (p : Services E) {sent : E → List Bytes}
    {triggers : E → List Trigger} {depth : ℕ} (willing : Willing p sent)
    (apart : Separate p sent triggers) (laws : MsgQueueLaws p.triggers depth triggers) where
  triggers-last_env :
      (b : Bool) (e : E)
      → triggers (last_env c p willing b (p.init_command (codes "AT+CMGF=1") e).1) ≡ triggers e
  triggers-last_env false e = simp (apart.command_triggers, apart.submit_triggers) refl
  triggers-last_env true e = simp (apart.command_triggers, apart.submit_triggers) refl

  abbrev Completed : Trigger → Receiver E → Option (Retry (Rx E)) × Rx E → Type 0
  Completed t m (retry, r) =
      let t' = kept_trigger m.rx.init_ctx.pending_trigger t in
      (init_is_ready c r ≡ true)
      × (DelayableRetry.is_pending retry ≡ false)
      × (sent r.env ≡ sent m.rx.env ++ setup_commands c)
      × (r.init_ctx.pending_trigger ≡ none)
      × (triggers r.env ≡ newest depth (triggers m.rx.env ++ t' ∷ []))

  kick_enqueues :
      (t : Trigger) (r : Rx E)
      → r.init_ctx.pending_trigger ≡ some t
      → init_kick_pending_trigger p r
        ≡ (enqueue_trigger p t.storage_index t.full_scan
            (record r { init_ctx = record (r.init_ctx) { pending_trigger = none } })).1
  unfolding init_kick_pending_trigger
  kick_enqueues t r e =
      let r₀ = record r { init_ctx = record (r.init_ctx) { pending_trigger = none } } in
      ap (λ o. elim o [ none ↦ r | some u ↦ (enqueue_trigger p u.storage_index u.full_scan r₀).1 ])
        e

  kick-Completed :
      (t : Trigger) (m : Receiver E) (rt : Retry (Rx E)) (r : Rx E)
      → 0 < depth
      → length (triggers m.rx.env) ≤ depth
      → r.start_allowed ≡ true
      → init_is_ready c r ≡ true
      → r.init_ctx.pending_trigger ≡ some (kept_trigger m.rx.init_ctx.pending_trigger t)
      → sent r.env ≡ sent m.rx.env ++ setup_commands c
      → triggers r.env ≡ triggers m.rx.env
      → Completed t m (some (finished c p rt), init_kick_pending_trigger p r)
  unfolding init_is_ready DelayableRetry.is_pending
  kick-Completed t m rt r positive bound allowed ready waits told queued =
      let t' = kept_trigger m.rx.init_ctx.pending_trigger t in
      let i = t'.storage_index in
      let s = t'.full_scan in
      let r₀ = record r { init_ctx = record (r.init_ctx) { pending_trigger = none } } in
      let (_, stored, _) = when_true _ _ r₀.start_allowed allowed (
        enqueue_trigger_refines p depth triggers laws i s r₀ apart.poll_triggers positive
          (rw queued bound)) in
      let read = λ (x : Rx E). x.init_ctx.pending_trigger in
      subst (λ x. Completed t m (some (finished c p rt), x)) (sym (kick_enqueues t' r waits))
        (
          enqueue_keeps p (init_is_ready c) i s r₀ (λ n w e. refl) ∙ ready,
          refl,
          enqueue_trigger_sent p apart i s r₀ ∙ told,
          enqueue_keeps p read i s r₀ (λ n w e. refl),
          stored ∙ ap (λ ts. newest depth (ts ++ t' ∷ [])) queued,
        )

module _ {E : Type 0} (c : Config) (p : Services E) {sent : E → List Bytes}
    {triggers : E → List Trigger} {depth : ℕ} (willing : Willing p sent)
    (apart : Separate p sent triggers) (laws : MsgQueueLaws p.triggers depth triggers) where
  abbrev Ends : Config → Trigger → Receiver E → Type 0
  Ends c' t m =
      let m' = process_trigger c' p t m in
      Completed c' p willing apart laws t m
        (setup_run c' p (rounds c'.startup_cleanup) m'.init_retry m'.rx)

  set_up_ready :
      (b : Bool) (e : E) (r : Rx E)
      → init_is_ready (record c { startup_cleanup = b }) (set_up c p willing b e r) ≡ true
  unfolding init_is_ready
  set_up_ready false e r = refl
  set_up_ready true e r = refl

  merged_trigger :
      (t : Trigger) (r : Rx E)
      → (merged c p t r).init_ctx.pending_trigger ≡ some (kept_trigger r.init_ctx.pending_trigger t)
  unfolding set_last_ret init_merge_trigger
  merged_trigger t r = merged-kept_trigger t r.init_ctx.pending_trigger

  waiting-Ends :
      (b : Bool) (t : Trigger) (rt : Retry (Rx E)) (m : Receiver E)
      → m.rx.start_allowed ≡ true
      → leb 48 (length (cpms_cmd c)) ≡ false
      → 0 < depth
      → length (triggers m.rx.env) ≤ depth
      → let c' = record c { startup_cleanup = b } in Ends c' t (waiting c' p rt m)
  unfolding init_is_ready set_last_ret init_merge_trigger
  waiting-Ends b t rt m allowed fits positive bound =
      let c' = record c { startup_cleanup = b } in
      let rt' = record rt { attempt = 1; max_attempts = 0 } in
      let e = (p.init_command (codes "AT+CMGF=1") m.rx.env).1 in
      let r = merged c' p t m.rx in
      let begun = start_sends c' p willing t rt m in
      let done = finishes c p willing b rt' e r fits in
      let state = set_up c p willing b e r in
      subst (Completed c' p willing apart laws t (waiting c' p rt m))
        (sym (ap (λ (x : Receiver E). setup_run c' p (rounds b) x.init_retry x.rx) begun ∙ done))
        (kick-Completed c' p willing apart laws t (waiting c' p rt m) rt' state positive bound
          allowed (set_up_ready b e r) (merged_trigger t m.rx)
          (sent-last_env c p willing b m.rx.env)
          (triggers-last_env c p willing apart laws b m.rx.env))

  -- A trigger that finds the modem not set up, where receiving is allowed and no setup is pending,
  -- starts the setup, and if the modem takes each command and answers it OK, the setup ends. Then
  -- the commands have been sent in this order, each once: text mode, the character set, the
  -- storage, the indications of new messages, and, if it is configured, the deletion of all
  -- messages; the modem counts as ready, no attempt is pending, and the trigger, or the scan it was
  -- merged into, is the newest in the queue. It is assumed that the command for the storage fits
  -- its buffer, and that the queue and the modem's calls do not touch one another's state.
  pub setup_completes :
      (t : Trigger) (rt : Retry (Rx E)) (m : Receiver E)
      → m.rx.setup_done ≡ false
      → m.rx.start_allowed ≡ true
      → m.init_retry ≡ some rt
      → rt.ops ≡ some (init_retry_ops c p)
      → rt.pending ≡ false
      → leb 48 (length (cpms_cmd c)) ≡ false
      → 0 < depth
      → length (triggers m.rx.env) ≤ depth
      → let m' = process_trigger c p t m in
        let (retry, r) = setup_run c p (rounds c.startup_cleanup) m'.init_retry m'.rx in
        let t' = kept_trigger m.rx.init_ctx.pending_trigger t in
        (init_is_ready c r ≡ true)
        × (DelayableRetry.is_pending retry ≡ false)
        × (sent r.env ≡ sent m.rx.env ++ setup_commands c)
        × (r.init_ctx.pending_trigger ≡ none)
        × (triggers r.env ≡ newest depth (triggers m.rx.env ++ t' ∷ []))
  setup_completes t rt m not_done allowed held ops idle fits positive bound =
      let with_fields = λ (d : Bool) (r : Retry (Rx E)). record m {
        rx = record (m.rx) { setup_done = d };
        init_retry = some r;
      } in
      let fresh = record rt { ops = some (init_retry_ops c p); pending = false } in
      let same : waiting c p rt m ≡ m =
        ap (λ d. with_fields d fresh) (sym not_done)
        ∙ ap (λ o. with_fields m.rx.setup_done (record rt { ops = o; pending = false })) (sym ops)
        ∙ ap (λ b. with_fields m.rx.setup_done (record rt { pending = b })) (sym idle)
        ∙ ap (λ o. record m { init_retry = o }) (sym held) in
      subst (Ends c t) same (waiting-Ends c.startup_cleanup t rt m allowed fits positive bound)
