-- ===== src/Sms/Send/Path.antt =====
-- The way of a request through the queue of jobs: from the call that enqueues it to the result.
use tibbit.Common.{
  ℕ, zero, suc, ◌+◌, ◌≤◌, ◌<◌, ◌≡◌, refl, ap, ◌∙◌, ◌⊎◌, inl, inr, Bool, true, false, not, ◌&&◌,
  none, some, List, [], ◌∷◌, ◌++◌, ℤ, pos, is_neg, ltb, ◌==◌, if◌then◌else◌, length, take, Bytes,
  codes, length-append, arith, Bool-cases,
}
use tibbit.Common.Errno.{einval, eagain, einprogress}
use tibbit.Kernel.{MsgQueueLaws, SemaphoreLaws}
use tibbit.AsyncJob
use tibbit.AsyncJob.{AsyncJob, Registry, type_count, sms_send_capture_result}
use tibbit.AsyncJob.Laws.{enqueue_outcome}
use tibbit.Sms.Request.{Request, SmsResult}
use tibbit.Sms.ResultQueue.Refine.{contents, make_room_spec}
use tibbit.Sms.ResultQueue.Service.{InSync, store_refines}
use tibbit.Sms.Validation.{phone_is_valid, text_is_valid}
use tibbit.Sms.Send.{
  SmsPayload, Config, Sender, Services, build_enqueue_job, async_job_request,
  async_job_completion_ctx, async_dispatch, async_complete, async_register_handler, enqueue_built,
  send_enqueue_with_result_id,
}

take_all : {A : Type 0} → (n : ℕ) (xs : List A) → length xs ≤ n → take n xs ≡ xs
take_all zero [] h = refl
take_all (suc n) [] h = refl
take_all zero (x ∷ xs) h = absurd (omega (arith, h))
take_all (suc n) (x ∷ xs) h = ap (x ∷◌) (take_all n xs (omega (arith, h)))

valid_phone_short :
    (max : ℕ) (phone : Bytes) → phone_is_valid max (some phone) ≡ true → length phone ≤ max
unfolding phone_is_valid
valid_phone_short max [] h = omega arith
valid_phone_short max (ch ∷ rest) h = ground (arith, h)

-- The command for a number, and its length.
abbrev pub command : Bytes → Bytes
command phone = codes "AT+CMGS=" ++ b'"' ∷ phone ++ b'"' ∷ []

length-command : (phone : Bytes) → length (command phone) ≡ 10 + length phone
length-command phone = omega (arith, length-append phone (b'"' ∷ []))

module _ {W E : Type 0} (c : Config) (p : Services W E) (depth : ℕ)
    (waiting : Sender E → List (AsyncJob (SmsPayload W)))
    (queue_laws : MsgQueueLaws p.jobs depth waiting) (semaphore_count : E → ℕ)
    (sem_laws : SemaphoreLaws p.result_sem c.result_queue_depth semaphore_count) where
  abbrev job_of : Request → AsyncJob (SmsPayload W)
  job_of request = record {
    job_type = sms_send_capture_result;
    payload = record { request = request; completion_ctx = none };
  }

  -- A request that is taken for a result.
  abbrev pub is_acceptable : Request → Bool
  is_acceptable request =
      not (request.message_id == 0)
      && phone_is_valid c.phone_max_len (some request.phone_number)
      && elim (text_is_valid c.text_max_len (some request.message)) [
        | none ↦ false
        | some text_len ↦ true
      ]

  -- The job waits behind the others, or the queue was full.
  abbrev pub Queued : AsyncJob (SmsPayload W) → Sender E → ℤ × Sender E → Type 0
  Queued job s (ret, s') =
      (length (waiting s) < depth) × (ret ≡ pos 0) × (waiting s' ≡ waiting s ++ job ∷ [])
      ⊎ (depth ≤ length (waiting s)) × (ret ≡ eagain) × (s' ≡ s)

  -- What running the job does: 38 bytes of a number and more do not fit the command's buffer.
  abbrev pub sent : Request → Sender E → ℤ × Sender E
  sent request s =
      let (ret, env) = p.send_text (command request.phone_number) request.message s.env in
      if ltb (length request.phone_number) 38
      then ((if is_neg ret then ret else einprogress), record s { env = env })
      else (einval, s)

  abbrev pub Synced : Sender E → Type 0
  Synced s =
      InSync c.result_queue_depth c.phone_max_len p.result_sem semaphore_count sem_laws s.ring s.env

  abbrev pub results : Sender E → List SmsResult
  results s = contents c.result_queue_depth s.ring

  -- What completing the job leaves.
  abbrev pub Stored : Request → ℤ → Sender E → Sender E → Type 0
  Stored request ret s s' =
      Synced s'
      × (results s'
          ≡ make_room_spec c.result_queue_depth (results s)
            ++ record {
              request_id = request.message_id;
              result = ret;
              phone = request.phone_number;
            }
              ∷ [])

  enqueue-Queued :
      (request : Request) (s : Sender E)
      → Queued (job_of request) s (AsyncJob.enqueue p.jobs (some (job_of request)) s)
  enqueue-Queued request s =
      let known : sms_send_capture_result < type_count = omega arith in
      elim (enqueue_outcome p.jobs depth waiting (job_of request) s queue_laws) [
        | inl (unknown, _) ↦ absurd (omega (arith, known, unknown))
        | inr (inl (_, full, same)) ↦
            inr (full, ap (λ (x : ℤ × Sender E). x.0) same, ap (λ (x : ℤ × Sender E). x.1) same)
        | inr (inr (_, room, ok, added)) ↦ inl (room, ok, added)
      ]

  enqueued :
      (request : Request) (s : Sender E)
      → send_enqueue_with_result_id c p (some request) s ≡ (
          if is_acceptable request
          then AsyncJob.enqueue p.jobs (some (job_of request)) s
          else (einval, s))
  unfolding send_enqueue_with_result_id build_enqueue_job enqueue_built
  enqueued request s = ground arith

  job_runs :
      (reg : Registry (SmsPayload W) (Sender E)) (request : Request) (s : Sender E)
      → AsyncJob.execute (async_register_handler c p reg) (some (job_of request)) s ≡ sent request s
  unfolding async_register_handler AsyncJob.register_handler AsyncJob.execute async_dispatch
      async_job_request
  job_runs reg request s = ground (arith, length-command request.phone_number)

  job_stores :
      (reg : Registry (SmsPayload W) (Sender E)) (request : Request) (ret : ℤ) (s : Sender E)
      → length request.phone_number ≤ c.phone_max_len
      → Synced s
      → Stored request ret s
          (AsyncJob.complete (async_register_handler c p reg) (some (job_of request)) ret s)
  unfolding async_register_handler AsyncJob.register_handler AsyncJob.complete async_complete
      async_job_request async_job_completion_ctx
  job_stores reg request ret s short sync =
      let (still, kept) =
        store_refines c.result_queue_depth c.phone_max_len p.result_sem semaphore_count sem_laws
          request.message_id request.phone_number ret s.ring s.env sync in
      let entry : Bytes → SmsResult =
        λ phone. record { request_id = request.message_id; result = ret; phone = phone } in
      (
        still,
        kept
            ∙ ap (λ phone. make_room_spec c.result_queue_depth (results s) ++ entry phone ∷ [])
                (take_all c.phone_max_len request.phone_number short),
      )

  acceptable_short :
      (request : Request)
      → is_acceptable request ≡ true
      → length request.phone_number ≤ c.phone_max_len
  acceptable_short request h =
      valid_phone_short c.phone_max_len request.phone_number (ground (arith, h))

  -- For every request that is enqueued for a result: if its identifier is not 0 and its number and
  -- text are valid, it is one job, which waits behind the others, or is refused with -EAGAIN if the
  -- queue is full. With the handlers registered, running that job hands `AT+CMGS="<number>"` and
  -- the text to the modem and is in progress unless that fails, or answers -EINVAL if the command is
  -- too long; and completing it appends the outcome, under this identifier and number, to the
  -- results, of which a full ring first loses the oldest. Any other request is refused with
  -- -EINVAL, and nothing changes.
  pub enqueued_request_sent :
      (reg : Registry (SmsPayload W) (Sender E)) (request : Request) (ret : ℤ) (s s₁ s₂ : Sender E)
      → Synced s₂
      → let reg' = async_register_handler c p reg in
        let answer = send_enqueue_with_result_id c p (some request) s in
        if is_acceptable request
        then ((job : AsyncJob (SmsPayload W)) × Queued job s answer
            × (AsyncJob.execute reg' (some job) s₁ ≡ sent request s₁)
            × Stored request ret s₂ (AsyncJob.complete reg' (some job) ret s₂))
        else answer ≡ (einval, s)
  enqueued_request_sent reg request ret s s₁ s₂ sync = elim (Bool-cases (is_acceptable request)) [
    | inl t ↦
        rw (enqueued request s, t)
          (
            job_of request,
            enqueue-Queued request s,
            job_runs reg request s₁,
            job_stores reg request ret s₂ (acceptable_short request t) sync,
          )
    | inr f ↦ rw (enqueued request s, f) refl
  ]
