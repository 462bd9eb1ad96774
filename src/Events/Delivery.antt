-- ===== src/Events/Delivery.antt =====
-- What the two workers of tb45_sms_event.c tell the application: of the events in the queue, and of
-- the results in the ring.
use mathlib.Core.List.{map, map-id, append_assoc, append-nil}
use tibbit.Common.{
  ℕ, zero, suc, ◌<◌, ◌≡◌, refl, sym, ap, ◌∙◌, ◌⊎◌, inl, inr, true, false, if_elim, Option, none,
  some, List, [], ◌∷◌, ◌++◌, ℤ, pos, is_neg, eqb_ℤ, neg_nonzero, arith, length, take,
}
use tibbit.Kernel.{no_wait, MsgQueueLaws, Semaphore, SemaphoreLaws}
use tibbit.Sms.Request.{SmsResult}
use tibbit.Sms.ResultQueue.{ResultQueue, result_wait}
use tibbit.Sms.ResultQueue.Refine.{contents}
use tibbit.Sms.ResultQueue.Service.{InSync}
use tibbit.Sms.ResultQueue.Wait.{take_now, take_now-AwaitLaws, result_wait_refines}
use tibbit.Events.Platform.{EventType, send_msg_status, SmsEvent, Services}
use tibbit.Events.{
  Events, Config, dispatch_combined, drain, submit_item, dispatch_loop, dispatch_worker,
  result_event, result_loop, result_worker,
}

-- Where a worker takes things from: `items` wait there in order while the state `IsGood`.
pub record Source {A E : Type 0} (get : E → ℤ × Option A × E) (items : E → List A)
    (IsGood : E → Type 0) : Type 0 where
  pub get_none :
      (e : E) → IsGood e → items e ≡ [] → (eqb_ℤ (get e).0 (pos 0) ≡ false) × (items (get e).2 ≡ [])
  pub get_some :
      (e : E) (a : A) (rest : List A)
      → IsGood e
      → items e ≡ a ∷ rest
      → ((get e).0 ≡ pos 0) × ((get e).1 ≡ some a) × (items (get e).2 ≡ rest) × IsGood (get e).2

-- The callback appends what is seen of an event to what was `delivered`, and leaves the rest alone.
pub record Listens {A E X : Type 0} (f : SmsEvent → E → E) (view : SmsEvent → X)
    (delivered : E → List X) (get : E → ℤ × Option A × E) (items : E → List A) (IsGood : E → Type 0)
    : Type 0 where
  pub delivers : (event : SmsEvent) (e : E) → delivered (f event e) ≡ delivered e ++ view event ∷ []
  pub items_stay : (event : SmsEvent) (e : E) → items (f event e) ≡ items e
  pub stays_good : (event : SmsEvent) (e : E) → IsGood e → IsGood (f event e)
  pub get_tells_none : (e : E) → delivered (get e).2 ≡ delivered e

module _ {A E X : Type 0} {f : SmsEvent → E → E} {view : SmsEvent → X} {delivered : E → List X}
    {get : E → ℤ × Option A × E} {items : E → List A} {IsGood : E → Type 0}
    (event_of : A → E → SmsEvent) (seen : A → X) (source : Source get items IsGood)
    (listens : Listens f view delivered get items IsGood)
    (same_view : (a : A) (e : E) → view (event_of a e) ≡ seen a) where
  abbrev Delivered : List A → Events E → Events E → Type 0
  Delivered as_all s s' =
      (items s'.env ≡ []) × (delivered s'.env ≡ delivered s.env ++ map seen as_all)

  drain-Delivered :
      (n : ℕ) (as_all : List A) (s : Events E)
      → s.cb ≡ some f
      → IsGood s.env
      → items s.env ≡ as_all
      → length as_all < n
      → Delivered as_all s (drain get event_of n s)
  unfolding drain dispatch_combined
  drain-Delivered zero as_all s heard good holds enough = absurd (omega (arith, enough))
  drain-Delivered (suc n) [] s heard good holds enough =
      let (stops, empty) = source.get_none s.env good holds in
      rw stops (empty, listens.get_tells_none s.env ∙ sym (append-nil (delivered s.env)))
  drain-Delivered (suc n) (a ∷ rest) s heard good holds enough =
      let (ok, got, left, still) = source.get_some s.env a rest good holds in
      let e = (get s.env).2 in
      let event = event_of a e in
      let s' = record s { env = f event e } in
      let (empty, told) =
        drain-Delivered n rest s' heard (listens.stays_good event e still)
          (listens.items_stay event e ∙ left) (omega (arith, enough)) in
      let now : delivered s'.env ≡ delivered s.env ++ seen a ∷ [] =
        listens.delivers event e
        ∙ ap (λ ds. ds ++ view event ∷ []) (listens.get_tells_none s.env)
        ∙ ap (λ v. delivered s.env ++ v ∷ []) (same_view a e) in
      rw (ok, got, heard)
        (
          empty,
          told
              ∙ ap (λ ds. ds ++ map seen rest) now
              ∙ append_assoc (delivered s.env) (seen a ∷ []) (map seen rest),
        )

module _ {E : Type 0} where
  -- A poll item that is submitted, or not, changes nothing that is seen here.
  submit_item_keeps :
      {X : Type 0} (p : Services E) (submit : E → ℤ × E) (look : E → X) (s : Events E)
      → ((e : E) → look (submit e).1 ≡ look e)
      → look (submit_item p submit s).1.env ≡ look s.env
  unfolding submit_item
  submit_item_keeps p submit look s apart =
      if_elim (λ (x : ℤ × Events E). look x.1.env ≡ look s.env) (p.thread_ready s.env)
        (λ ready. apart s.env) (λ waits. refl)

abbrev pub Always : {E : Type 0} → E → Type 0
Always e = e ≡ e

-- What is looked at of an event for a result: all but the time.
abbrev pub seen_event : SmsEvent → EventType × ℤ
seen_event event = (event.event_type, event.status)

module _ {E : Type 0} (c : Config) (p : Services E) (depth : ℕ)
    (queued delivered : E → List SmsEvent) (f : SmsEvent → E → E)
    (laws : MsgQueueLaws p.events depth queued) where
  queue-Source : Source p.events.get queued Always
  queue-Source = record {
    get_none = λ e good empty. rw (laws.get_none e empty) (refl, empty);
    get_some = λ e event rest good holds.
        let (ok, got, left) = laws.get_some e event rest holds in (ok, got, left, refl);
  }

  -- When the item for events runs, the callback is called once for every event of the queue, in its
  -- order, and the queue is empty afterwards. It is assumed that a callback is set, that it only
  -- notes what it is told, that the submission of a poll item changes nothing that is seen here,
  -- and that the rounds are more than the events.
  pub dispatch_worker_delivers :
      (rounds : ℕ) (s : Events E)
      → s.cb ≡ some f
      → Listens f (λ event. event) delivered p.events.get queued Always
      → ((e : E) → delivered (p.dispatch_submit e).1 ≡ delivered e)
      → ((e : E) → queued (p.dispatch_submit e).1 ≡ queued e)
      → length (queued s.env) < rounds
      → let s' = dispatch_worker c p rounds s in
        (queued s'.env ≡ []) × (delivered s'.env ≡ delivered s.env ++ queued s.env)
  unfolding dispatch_worker dispatch_loop
  dispatch_worker_delivers rounds s heard listens submit_delivered submit_queued enough =
      let (empty, told) =
        drain-Delivered (λ event e. event) (λ event. event) queue-Source listens (λ event e. refl)
          rounds (queued s.env) s heard refl refl enough in
      let done = drain p.events.get (λ event e. event) rounds s in
      (
        submit_item_keeps p p.dispatch_submit queued done submit_queued ∙ empty,
        submit_item_keeps p p.dispatch_submit delivered done submit_delivered
            ∙ told
            ∙ ap (λ es. delivered s.env ++ es) (map-id (queued s.env)),
      )

module _ {K : Type 0} (c : Config) (depth : ℕ) (sem : Semaphore K) (count : K → ℕ)
    (laws : SemaphoreLaws sem depth count) where
  -- The ring of tb45_sms.c behind `tb45_sms_result_wait`
  abbrev pub ring_wait : ResultQueue × K → ℤ × Option SmsResult × (ResultQueue × K)
  ring_wait (q, e) =
      let (ret, out, q', e') =
        result_wait depth (take_now depth c.phone_max_len sem count laws) true no_wait q e in
      (ret, out, (q', e'))

  abbrev pub stored : ResultQueue × K → List SmsResult
  stored (q, e) = contents depth q

  abbrev pub RingInSync : ResultQueue × K → Type 0
  RingInSync (q, e) = InSync depth c.phone_max_len sem count laws q e

  -- What is told of a result.
  abbrev pub seen_result : SmsResult → EventType × ℤ
  seen_result r = (send_msg_status r.request_id (take c.phone_max_len r.phone), r.result)

  ring-Source : Source ring_wait stored RingInSync
  ring-Source = record {
    get_none = λ e sync empty. none_left e empty (taken_now e sync).1;
    get_some = λ e a rest sync holds.
        let (still, outcome) = taken_now e sync in
        let (ok, out, left) = one_taken e a rest holds outcome in (ok, out, left, still);
  }
    where
      Outcome : ResultQueue × K → Type 0
      Outcome e =
          let (ret, out, next) = ring_wait e in
          (stored e ≡ []) × (is_neg ret ≡ true) × (out ≡ none) × (next.0 ≡ e.0)
          ⊎ (x : SmsResult) × (stored e ≡ x ∷ stored next) × (ret ≡ pos 0) × (out ≡ some x)

      taken_now : (e : ResultQueue × K) → RingInSync e → RingInSync (ring_wait e).2 × Outcome e
      taken_now e sync =
          (result_wait_refines depth c.phone_max_len sem count laws
            (take_now depth c.phone_max_len sem count laws)
            (take_now-AwaitLaws depth c.phone_max_len sem count laws) no_wait e.0 e.1 sync).0

      none_left :
          (e : ResultQueue × K)
          → stored e ≡ []
          → Outcome e
          → (eqb_ℤ (ring_wait e).0 (pos 0) ≡ false) × (stored (ring_wait e).2 ≡ [])
      none_left e empty (inl (_, neg, _, same)) =
          (neg_nonzero (ring_wait e).0 neg, ap (contents depth) same ∙ empty)
      none_left e empty (inr (x, split, _, _)) = absurd (cc (empty, split))

      one_taken :
          (e : ResultQueue × K) (a : SmsResult) (rest : List SmsResult)
          → stored e ≡ a ∷ rest
          → Outcome e
          → ((ring_wait e).0 ≡ pos 0) × ((ring_wait e).1 ≡ some a) × (stored (ring_wait e).2 ≡ rest)
      one_taken e a rest holds (inl (empty, _, _, _)) = absurd (cc (empty, holds))
      one_taken e a rest holds (inr (x, split, ok, out)) =
          let head : x ≡ a = cc (split, holds) in
          let tail : stored (ring_wait e).2 ≡ rest = cc (split, holds) in
          (ok, out ∙ ap some head, tail)

  module _ (p : Services (ResultQueue × K)) where
    result_event_seen :
        (r : SmsResult) (e : ResultQueue × K)
        → seen_event (result_event c p (p.uptime e) r) ≡ seen_result r
    unfolding result_event
    result_event_seen r e = refl

    -- When the item for results runs, the callback is called once for every result of the ring, in
    -- its order, with the identifier, the number and the outcome of that result, and the ring is empty
    -- afterwards. It is assumed that a callback is set, that it only notes what it is told, that
    -- the submission of a poll item changes nothing that is seen here, and that the rounds are
    -- more than the results.
    pub result_worker_delivers :
        (f : SmsEvent → ResultQueue × K → ResultQueue × K)
        → (delivered : ResultQueue × K → List (EventType × ℤ))
        → (rounds : ℕ) (s : Events (ResultQueue × K)) → p.result_wait ≡ ring_wait
        → s.cb ≡ some f
        → Listens f seen_event delivered ring_wait stored RingInSync
        → ((e : ResultQueue × K) → delivered (p.result_submit e).1 ≡ delivered e)
        → ((e : ResultQueue × K) → stored (p.result_submit e).1 ≡ stored e)
        → RingInSync s.env
        → length (stored s.env) < rounds
        → let s' = result_worker c p rounds s in
          (stored s'.env ≡ [])
          × (delivered s'.env ≡ delivered s.env ++ map seen_result (stored s.env))
    unfolding result_worker result_loop
    result_worker_delivers f delivered rounds s is_ring heard listens submit_delivered submit_stored
          sync enough =
        let event_of : SmsResult → ResultQueue × K → SmsEvent =
          λ r e. result_event c p (p.uptime e) r in
        let (empty, told) =
          drain-Delivered event_of seen_result ring-Source listens result_event_seen rounds
            (stored s.env) s heard sync refl enough in
        let by_ring = drain ring_wait event_of rounds s in
        let same : drain p.result_wait event_of rounds s ≡ by_ring =
          ap (λ wait. drain wait event_of rounds s) is_ring in
        let done = drain p.result_wait event_of rounds s in
        (
          submit_item_keeps p p.result_submit stored done submit_stored
              ∙ ap (λ (x : Events (ResultQueue × K)). stored x.env) same
              ∙ empty,
          submit_item_keeps p p.result_submit delivered done submit_delivered
              ∙ ap (λ (x : Events (ResultQueue × K)). delivered x.env) same
              ∙ told,
        )
