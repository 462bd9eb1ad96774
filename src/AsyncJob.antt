-- ===== src/AsyncJob.antt =====
-- tb45_async_job.h, tb45_async_job_internal.h and tb45_async_job.c: the queue of jobs, the retry
-- policy of each job type, and the table of handlers. `CONFIG_APP_TB45_SMS_ENABLE` is set. Job
-- types are the numbers of `enum tb45_async_job_type`; `P` is the payload, which this code only
-- copies, and `E` the state that handlers and callbacks act on. Logging is left out.
pub mod Laws
mod Tests
use tibbit.Common.{
  ℕ, suc, ◌+◌, ◌%◌, Bool, true, false, ◌||◌, Option, none, some, ℤ, pos, eqb_ℤ, ltb, leb, ◌==◌,
  if◌then◌else◌,
}
use tibbit.Common.Errno.{einval, enodev, enomsg, eagain}
use tibbit.Kernel.{MsgQueue}

abbrev pub sms_send : ℕ
sms_send = 0

abbrev pub sms_send_capture_result : ℕ
sms_send_capture_result = 1

abbrev pub sms_send_wait : ℕ
sms_send_wait = 2

abbrev pub ping_run : ℕ
ping_run = 3

abbrev pub type_count : ℕ
type_count = 4

pub record AsyncJob (P : Type 0) : Type 0 where
  pub job_type : ℕ
  pub payload : P

-- The Kconfig values that the policy reads.
pub record Config : Type 0 where
  pub sms_send_max_retries : ℕ
  pub sms_send_retry_delay_ms : ℕ
  pub ping_extra_retries : ℕ
  pub ping_retry_delay_ms : ℕ

abbrev is_sms : ℕ → Bool
is_sms t = t == sms_send || t == sms_send_capture_result || t == sms_send_wait

-- `tb45_async_job_policy_get`, whose result has the one field `max_attempts`, a `uint8_t`.
pub policy_get : Config → ℕ → ℕ
policy_get c t =
    let n =
      if is_sms t
      then (1 + c.sms_send_max_retries) % 256
      else if t == ping_run
      then (1 + c.ping_extra_retries) % 256
      else 1 in
    if n == 0 then 1 else n

unfoldable pub retry_delay_ms : Config → ℕ → ℕ
retry_delay_ms c t =
    if is_sms t
    then c.sms_send_retry_delay_ms
    else if t == ping_run
    then c.ping_retry_delay_ms
    else 0

-- `struct tb45_async_wait_ctx`: a semaphore with limit 1 and a result.
pub record WaitCtx : Type 0 where
  pub done : ℕ
  pub result : ℤ

pub wait_ctx_init : Option WaitCtx → ℤ → Option WaitCtx
wait_ctx_init none initial_result = none
wait_ctx_init (some w) initial_result = some (record { done = 0; result = initial_result })

-- `tb45_async_job_complete_wait_ctx`; `sem_give` stands for `k_sem_give` on the count of `done`.
pub complete_wait_ctx : (ℕ → ℕ) → Option WaitCtx → ℤ → Option WaitCtx
complete_wait_ctx sem_give none ret = none
complete_wait_ctx sem_give (some w) ret = some (record { done = sem_give w.done; result = ret })

-- The arrays `tb45_async_handlers` and `tb45_async_complete_cbs`, which are indexed below
-- `type_count` alone.
pub record Registry (P E : Type 0) : Type 0 where
  pub handlers : ℕ → Option (AsyncJob P → E → ℤ × E)
  pub complete_cbs : ℕ → Option (AsyncJob P → ℤ → E → E)

abbrev update : {A : Type 0} → (ℕ → A) → ℕ → A → ℕ → A
update f i v j = if j == i then v else f j

module _ {P E : Type 0} where
  unfoldable pub execute : Registry P E → Option (AsyncJob P) → E → ℤ × E
  execute reg none e = (einval, e)
  execute reg (some job) e =
      if leb type_count job.job_type
      then (einval, e)
      else elim (reg.handlers job.job_type) [ none ↦ (enodev, e) | some handler ↦ handler job e ]

  unfoldable pub register_handler :
      Registry P E
      → ℕ
      → Option (AsyncJob P → E → ℤ × E)
      → Option (AsyncJob P → ℤ → E → E)
      → ℤ × Registry P E
  register_handler reg t none complete_cb = (einval, reg)
  register_handler reg t (some handler) complete_cb = if leb type_count t then (einval, reg) else (
    pos 0,
    record {
      handlers = update reg.handlers t (some handler);
      complete_cbs = update reg.complete_cbs t complete_cb;
    },
  )

  -- `tb45_async_job_complete`
  unfoldable pub complete : Registry P E → Option (AsyncJob P) → ℤ → E → E
  complete reg none ret e = e
  complete reg (some job) ret e =
      if leb type_count job.job_type
      then e
      else elim (reg.complete_cbs job.job_type) [ none ↦ e | some f ↦ f job ret e ]

  unfoldable pub enqueue : MsgQueue (AsyncJob P) E → Option (AsyncJob P) → E → ℤ × E
  enqueue q none e = (einval, e)
  enqueue q (some job) e =
      if leb type_count job.job_type
      then (einval, e)
      else let (ret, e') = q.put job e in (if eqb_ℤ ret enomsg then eagain else ret, e')
