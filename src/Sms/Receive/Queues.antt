-- ===== src/Sms/Receive/Queues.antt =====
-- The calls of tb45_sms.c that put a trigger or a notice into its queue and drop the oldest one if
-- it is full.
use tibbit.Common.{
  ℕ, suc, ◌≤◌, ◌<◌, ◌≡◌, refl, sym, ◌∙◌, inl, inr, Bool, false, Bool-cases, if_elim, List, [], ◌∷◌,
  ◌++◌, ℤ, pos, eqb_ℤ, ◌==◌, leb, arith, if◌then◌else◌, length, length-append,
}
use tibbit.Common.Errno.{eagain, enomsg}
use tibbit.Kernel.{MsgQueue, MsgQueueLaws}
use tibbit.Sms.Receive.Platform.{Trigger, Notice, Services}
use tibbit.Sms.Receive.Newest.{newest, newest_short, newest_full}
use tibbit.Sms.Receive.{
  Rx, put_newest, next_count, submit_poll, resume_poll, enqueue_trigger, publish_notice,
}

-- A reading of the state that neither call of the queue changes.
pub put_newest_keeps :
    {A E X : Type 0} (q : MsgQueue A E) (f : E → X)
    → ((a : A) (e : E) → f (q.put a e).1 ≡ f e)
    → ((e : E) → f (q.get e).2 ≡ f e)
    → (a : A) (e : E) → f (put_newest q a e).2 ≡ f e
unfolding put_newest
put_newest_keeps q f put_same get_same a e =
    let (ret, e₁) = q.put a e in
    let e₂ = (q.get e₁).2 in
    if_elim (λ (x : ℤ × Bool × _). f x.2 ≡ f e) (eqb_ℤ ret enomsg)
      (λ full. put_same a e₂ ∙ get_same e₁ ∙ put_same a e) (λ done. put_same a e)

module _ {A E : Type 0} (q : MsgQueue A E) (depth : ℕ) (contents : E → List A)
    (laws : MsgQueueLaws q depth contents) where
  abbrev Kept : A → E → ℤ × Bool × E → Type 0
  Kept a e (ret, dropped, e') =
      (ret ≡ pos 0)
      × (dropped ≡ leb depth (length (contents e)))
      × (contents e' ≡ newest depth (contents e ++ a ∷ []))

  put_room-Kept : (a : A) (e : E) → length (contents e) < depth → Kept a e (put_newest q a e)
  unfolding put_newest
  put_room-Kept a e room =
      let (done, stored) = laws.put_room a e room in
      let fits : length (contents e ++ a ∷ []) ≤ depth =
        omega (arith, room, length-append (contents e) (a ∷ [])) in
      let below : leb depth (length (contents e)) ≡ false = ground arith in
      rw done (refl, sym below, stored ∙ sym (newest_short depth (contents e ++ a ∷ []) fits))

  put_full-Kept :
      (a : A) (e : E) (x : A) (xs : List A)
      → contents e ≡ x ∷ xs
      → suc (length xs) ≡ depth
      → Kept a e (put_newest q a e)
  unfolding put_newest
  put_full-Kept a e x xs holds full =
      let e₂ = (q.get e).2 in
      let refused = laws.put_full a e (rw holds (omega (arith, full))) in
      let (_, _, left) = laws.get_some e x xs holds in
      let (done, stored) = laws.put_room a e₂ (rw left (omega (arith, full))) in
      rw (refused, done, stored, left, holds)
        (refl, ground arith, sym (newest_full depth x xs a full))

  pub put_newest-Kept :
      (a : A) (e : E) → 0 < depth → length (contents e) ≤ depth → Kept a e (put_newest q a e)
  put_newest-Kept a e positive bound = by_contents (contents e) refl
    where
      by_contents : (cs : List A) → contents e ≡ cs → Kept a e (put_newest q a e)
      by_contents [] eq = put_room-Kept a e (rw eq positive)
      by_contents (x ∷ xs) eq = elim (Bool-cases (length (x ∷ xs) == depth)) [
        | inl full ↦ put_full-Kept a e x xs eq (ground arith)
        | inr room ↦ put_room-Kept a e (rw eq (ground (arith, rw eq at bound)))
      ]

module _ {E : Type 0} (p : Services E) (depth : ℕ) (contents : E → List Trigger)
    (laws : MsgQueueLaws p.triggers depth contents) where
  -- Where receiving is allowed, a trigger is always accepted: afterwards the queue holds the newest of
  -- what it held and the trigger, and a drop is counted if and only if the queue was full. Where it
  -- is not allowed, the answer is -EAGAIN and nothing changes. It is assumed that the
  -- submission of the poll item does not touch the queue.
  pub enqueue_trigger_refines :
      (storage_index full_scan : ℕ) (r : Rx E)
      → ((e : E) → contents (p.poll_submit e).1 ≡ contents e)
      → 0 < depth
      → length (contents r.env) ≤ depth
      → let trigger : Trigger = record { storage_index = storage_index; full_scan = full_scan } in
        let (ret, r') = enqueue_trigger p storage_index full_scan r in
        if r.start_allowed
        then (ret ≡ pos 0)
          × (contents r'.env ≡ newest depth (contents r.env ++ trigger ∷ []))
          × (r'.trigger_queue_drop_count ≡ (
              if leb depth (length (contents r.env))
              then next_count r.trigger_queue_drop_count
              else r.trigger_queue_drop_count))
        else (ret ≡ eagain) × (r' ≡ r)
  unfolding enqueue_trigger resume_poll submit_poll
  enqueue_trigger_refines storage_index full_scan r apart positive bound =
      let trigger : Trigger = record { storage_index = storage_index; full_scan = full_scan } in
      let (done, dropped, stored) =
        put_newest-Kept p.triggers depth contents laws trigger r.env positive bound in
      let e = (put_newest p.triggers trigger r.env).2 in
      elim (Bool-cases r.start_allowed) [
        | inl allowed ↦ elim (Bool-cases (p.thread_ready e)) [
          | inl ready ↦ rw (allowed, done, ready) (refl, apart e ∙ stored, rw dropped refl)
          | inr waits ↦ rw (allowed, done, waits) (refl, stored, rw dropped refl)
        ]
        | inr refused ↦ rw refused (refl, refl)
      ]

abbrev pub notice_of : ℕ → ℤ → Notice
notice_of storage_index status = record { storage_index = storage_index; status = status }

module _ {E : Type 0} (p : Services E) (depth : ℕ) (contents : E → List Notice)
    (laws : MsgQueueLaws p.notices depth contents) where
  pub publish_notice-newest :
      (storage_index : ℕ) (status : ℤ) (r : Rx E)
      → ((i : ℕ) (ret : ℤ) (e : E) → contents (p.notify_rx_message i ret e) ≡ contents e)
      → 0 < depth
      → length (contents r.env) ≤ depth
      → contents (publish_notice p storage_index status r).env
        ≡ newest depth (contents r.env ++ notice_of storage_index status ∷ [])
  unfolding publish_notice
  publish_notice-newest storage_index status r apart positive bound =
      let notice = notice_of storage_index status in
      let (done, dropped, stored) =
        put_newest-Kept p.notices depth contents laws notice r.env positive bound in
      let e = (put_newest p.notices notice r.env).2 in
      rw done (apart storage_index status e ∙ stored)

  pub publish_notice-processed_count :
      (storage_index : ℕ) (status : ℤ) (r : Rx E)
      → (publish_notice p storage_index status r).processed_count ≡ r.processed_count
  unfolding publish_notice
  publish_notice-processed_count storage_index status r = ground arith
