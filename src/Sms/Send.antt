-- ===== src/Sms/Send.antt =====
-- tb45_sms.c: sending through the job queue. A request becomes a job; the dispatcher calls the
-- handler, which starts the send of tb45_sms_at_helper.c, and at the end the completion callback,
-- which stores a result in the ring or wakes the thread that waits. Logging is left out.
pub mod Path
mod Tests
use tibbit.Common.{
  ℕ, ◌+◌, Bool, true, false, not, ◌||◌, ◌++◌, Option, none, some, ℤ, pos, is_neg, leb, ◌==◌,
  if◌then◌else◌, length, Bytes, codes,
}
use tibbit.Common.Errno.{einval, einprogress}
use tibbit.Kernel.{MsgQueue, Semaphore}
use tibbit.AsyncJob
use tibbit.AsyncJob.{AsyncJob, Registry, sms_send, sms_send_capture_result, sms_send_wait}
use tibbit.Sms.Request.{Request}
use tibbit.Sms.ResultQueue.{ResultQueue, store_async_result}
use tibbit.Sms.Validation.{phone_is_valid, text_is_valid, next_request_id}

-- The part of the payload of a job that belongs to the SMS types: `request` is the first member of
-- both structs of the union. `W` is the address of a `struct tb45_async_wait_ctx`.
pub record SmsPayload (W : Type 0) : Type 0 where
  pub request : Request
  pub completion_ctx : Option W

-- The Kconfig values that it reads.
pub record Config : Type 0 where
  pub phone_max_len : ℕ
  pub text_max_len : ℕ
  pub result_queue_depth : ℕ

pub record Sender (E : Type 0) : Type 0 where
  pub ring : ResultQueue
  pub request_id_seed : ℕ
  pub env : E

pub record Services (W E : Type 0) : Type 0 where
  pub jobs : MsgQueue (AsyncJob (SmsPayload W)) (Sender E)
  pub result_sem : Semaphore E
  pub send_text : Bytes → Bytes → E → ℤ × E  -- tb45_sms_at_send_text_raw_async_cb
  pub complete_wait : W → ℤ → E → E  -- tb45_async_job_complete_wait_ctx
  pub await : W → Sender E → ℤ × Sender E  -- k_sem_take with K_FOREVER, and the result

module _ {W : Type 0} where
  -- `none` stands for -EINVAL. The job is not NULL where it is called.
  unfoldable pub build_enqueue_job :
      Config → ℕ → Option Request → Option W → Option (AsyncJob (SmsPayload W))
  build_enqueue_job c job_type none completion_ctx = none
  build_enqueue_job c job_type (some request) completion_ctx =
      let job : Option W → Option (AsyncJob (SmsPayload W)) = λ ctx. some (record {
        job_type = job_type;
        payload = record { request = request; completion_ctx = ctx };
      }) in
      if not (phone_is_valid c.phone_max_len (some request.phone_number))
      then none
      else elim (text_is_valid c.text_max_len (some request.message)) [
        | none ↦ none
        | some text_len ↦
            if job_type == sms_send || job_type == sms_send_capture_result
            then job none
            else if job_type == sms_send_wait
            then job completion_ctx
            else none
      ]

  unfoldable pub async_job_request : AsyncJob (SmsPayload W) → Option Request
  async_job_request job =
      if job.job_type == sms_send
        || job.job_type == sms_send_capture_result
        || job.job_type == sms_send_wait
      then some job.payload.request
      else none

  unfoldable pub async_job_completion_ctx : AsyncJob (SmsPayload W) → Option W
  async_job_completion_ctx job =
      if job.job_type == sms_send_wait then job.payload.completion_ctx else none

abbrev pub cmgs_cmd : Bytes → Bytes
cmgs_cmd phone = codes "AT+CMGS=\"" ++ phone ++ codes "\""

module _ {W E : Type 0} (c : Config) (p : Services W E) where
  unfoldable pub async_dispatch : AsyncJob (SmsPayload W) → Sender E → ℤ × Sender E
  unfolding async_job_request
  async_dispatch job s = elim (async_job_request job) [
    | none ↦ (einval, s)
    | some request ↦
        let (ret, env) = p.send_text (cmgs_cmd request.phone_number) request.message s.env in
        let s' = record s { env = env } in
        if leb 48 (length (cmgs_cmd request.phone_number))
        then (einval, s)
        else if is_neg ret
        then (ret, s')
        else (einprogress, s')
  ]

  unfoldable pub async_complete : AsyncJob (SmsPayload W) → ℤ → Sender E → Sender E
  unfolding async_job_request async_job_completion_ctx
  async_complete job ret s = elim (async_job_request job) [
    | none ↦ s
    | some request ↦
        let (ring, env) =
          store_async_result c.result_queue_depth c.phone_max_len p.result_sem request.message_id
            (some request.phone_number) ret s.ring s.env in
        let s' =
          if job.job_type == sms_send_capture_result
          then record s { ring = ring; env = env }
          else s in
        elim (async_job_completion_ctx job) [
          | none ↦ s'
          | some w ↦ record s' { env = p.complete_wait w ret s'.env }
        ]
  ]

  -- At boot. The three calls succeed, or the first that fails ends it.
  unfoldable pub async_register_handler :
      Registry (SmsPayload W) (Sender E) → Registry (SmsPayload W) (Sender E)
  unfolding async_dispatch async_complete AsyncJob.register_handler
  async_register_handler reg =
      let add = λ (t : ℕ) (r : Registry (SmsPayload W) (Sender E)).
        AsyncJob.register_handler r t (some async_dispatch) (some async_complete) in
      let (ret₁, reg₁) = add sms_send reg in
      let (ret₂, reg₂) = add sms_send_capture_result reg₁ in
      let (_, reg₃) = add sms_send_wait reg₂ in
      if is_neg ret₁ then reg₁ else if is_neg ret₂ then reg₂ else reg₃

  -- What the functions that enqueue share.
  unfoldable pub enqueue_built : Option (AsyncJob (SmsPayload W)) → Sender E → ℤ × Sender E
  unfolding AsyncJob.enqueue
  enqueue_built none s = (einval, s)
  enqueue_built (some job) s = AsyncJob.enqueue p.jobs (some job) s

  unfoldable pub send_enqueue : Option Request → Sender E → ℤ × Sender E
  unfolding build_enqueue_job enqueue_built
  send_enqueue request s = enqueue_built (build_enqueue_job c sms_send request none) s

  unfoldable pub send_enqueue_with_result_id : Option Request → Sender E → ℤ × Sender E
  unfolding build_enqueue_job enqueue_built
  send_enqueue_with_result_id none s = (einval, s)
  send_enqueue_with_result_id (some request) s =
      if request.message_id == 0
      then (einval, s)
      else enqueue_built (build_enqueue_job c sms_send_capture_result (some request) none) s

  unfoldable pub send_enqueue_with_result_cb : Option Request → Sender E → ℤ × Sender E
  unfolding send_enqueue_with_result_id
  send_enqueue_with_result_cb none s = (einval, s)
  send_enqueue_with_result_cb (some request) s =
      let (id, seed) = next_request_id s.request_id_seed in
      if request.message_id == 0
      then send_enqueue_with_result_id (some (record request { message_id = id }))
          (record s { request_id_seed = seed })
      else send_enqueue_with_result_id (some request) s

  -- `w` is the address of the wait context on the caller's stack.
  unfoldable pub send_enqueue_wait : W → Option Request → Sender E → ℤ × Sender E
  unfolding build_enqueue_job enqueue_built
  send_enqueue_wait w request s =
      let (ret, s') = enqueue_built (build_enqueue_job c sms_send_wait request (some w)) s in
      if is_neg ret then (ret, s') else p.await w s'
