-- ===== src/Sms/Receive/Setup/Kick.antt =====
-- What putting the trigger into its queue at the end of the setup leaves as it is.
use tibbit.Common.{
  ℕ, ◌≡◌, refl, ◌∙◌, Bool, true, false, not, if_elim, List, ℤ, pos, eqb_ℤ, if◌then◌else◌, Bytes,
}
use tibbit.Sms.Receive.Platform.{Trigger, Services}
use tibbit.Sms.Receive.Queues.{put_newest_keeps}
use tibbit.Sms.Receive.{Rx, put_newest, next_count, submit_poll, resume_poll, enqueue_trigger}

-- The calls of the queue and of the poll item against those of the modem: neither side touches
-- what the other keeps.
pub record Separate {E : Type 0} (p : Services E) (sent : E → List Bytes)
    (triggers : E → List Trigger) : Type 0 where
  pub put_sent : (t : Trigger) (e : E) → sent (p.triggers.put t e).1 ≡ sent e
  pub get_sent : (e : E) → sent (p.triggers.get e).2 ≡ sent e
  pub poll_sent : (e : E) → sent (p.poll_submit e).1 ≡ sent e
  pub poll_triggers : (e : E) → triggers (p.poll_submit e).1 ≡ triggers e
  pub command_triggers : (cmd : Bytes) (e : E) → triggers (p.init_command cmd e).1 ≡ triggers e
  pub submit_triggers : (e : E) → triggers (p.init_submit e).1 ≡ triggers e

module _ {E : Type 0} (p : Services E) where
  -- What is read of the state apart from what `enqueue_trigger` may change.
  abbrev pub Ignores : {X : Type 0} → (Rx E → X) → Rx E → Type 0
  Ignores f r =
      (n : ℕ) (w : Bool) (e : E)
      → f (record r { trigger_queue_drop_count = n; wq_not_ready_warned = w; env = e }) ≡ f r

  submit_keeps :
      {X : Type 0} (f : Rx E → X) (r : Rx E) (n : ℕ) (e : E)
      → Ignores f r
      → f (submit_poll p (record r { trigger_queue_drop_count = n; env = e })).1 ≡ f r
  unfolding submit_poll
  submit_keeps f r n e same =
      if_elim (λ (x : ℤ × Rx E). f x.1 ≡ f r) (p.thread_ready e)
        (λ ready. same n false (p.poll_submit e).1) (λ waits. same n true e)

  pub enqueue_keeps :
      {X : Type 0} (f : Rx E → X) (storage_index full_scan : ℕ) (r : Rx E)
      → Ignores f r
      → f (enqueue_trigger p storage_index full_scan r).1 ≡ f r
  unfolding enqueue_trigger resume_poll
  enqueue_keeps f storage_index full_scan r same =
      let trigger : Trigger = record { storage_index = storage_index; full_scan = full_scan } in
      let (ret, dropped, e) = put_newest p.triggers trigger r.env in
      let n =
        if dropped then next_count r.trigger_queue_drop_count else r.trigger_queue_drop_count in
      if_elim (λ (x : ℤ × Rx E). f x.1 ≡ f r) (not r.start_allowed) (λ refused. refl)
        (λ allowed.
          if_elim (λ (x : ℤ × Rx E). f x.1 ≡ f r) (eqb_ℤ ret (pos 0))
            (λ stored. submit_keeps f r n e same) (λ lost. same n r.wq_not_ready_warned e))

  module _ {sent : E → List Bytes} {triggers : E → List Trigger}
      (apart : Separate p sent triggers) where
    put_newest_sent : (t : Trigger) (e : E) → sent (put_newest p.triggers t e).2 ≡ sent e
    put_newest_sent t e = put_newest_keeps p.triggers sent apart.put_sent apart.get_sent t e

    submit_poll_sent : (r : Rx E) → sent (submit_poll p r).1.env ≡ sent r.env
    unfolding submit_poll
    submit_poll_sent r =
        if_elim (λ (x : ℤ × Rx E). sent x.1.env ≡ sent r.env) (p.thread_ready r.env)
          (λ ready. apart.poll_sent r.env) (λ waits. refl)

    pub enqueue_trigger_sent :
        (storage_index full_scan : ℕ) (r : Rx E)
        → sent (enqueue_trigger p storage_index full_scan r).1.env ≡ sent r.env
    unfolding enqueue_trigger resume_poll
    enqueue_trigger_sent storage_index full_scan r =
        let trigger : Trigger = record { storage_index = storage_index; full_scan = full_scan } in
        let (ret, dropped, e) = put_newest p.triggers trigger r.env in
        let n =
          if dropped then next_count r.trigger_queue_drop_count else r.trigger_queue_drop_count in
        let r' = record r { trigger_queue_drop_count = n; env = e } in
        if_elim (λ (x : ℤ × Rx E). sent x.1.env ≡ sent r.env) (not r.start_allowed)
          (λ refused. refl)
          (λ allowed.
            if_elim (λ (x : ℤ × Rx E). sent x.1.env ≡ sent r.env) (eqb_ℤ ret (pos 0))
              (λ stored. submit_poll_sent r' ∙ put_newest_sent trigger r.env)
              (λ lost. put_newest_sent trigger r.env))
