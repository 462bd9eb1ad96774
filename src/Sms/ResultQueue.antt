-- ===== src/Sms/ResultQueue.antt =====
-- tb45_sms.c: the ring of results of asynchronous sends (`tb45_sms_results` with its head, tail
-- and count, and the semaphore `tb45_sms_result_sem`). Each function runs under the mutex as one
-- step, with the semaphore call before or after it, in the order of the source. The ring has
-- `depth` slots (TB45_SMS_RESULT_QUEUE_DEPTH, less than 65536, so no cast to `uint16_t` cuts
-- anything off), indexed below `depth` alone. Bytes of the phone number beyond `phone_max_len` are
-- cut off by `snprintf`.
pub mod Slots
pub mod Refine
pub mod Service
pub mod Wait
mod Tests
use tibbit.Common.{
  ℕ, zero, suc, ◌+◌, ◌-◌, ◌%◌, Bool, true, false, Option, none, some, ℤ, pos, is_neg, ◌==◌,
  if◌then◌else◌, take, [], ◌^◌,
}
use tibbit.Common.Errno.{einval, eagain, enoent}
use tibbit.Kernel.{Timeout, Semaphore}
use tibbit.Sms.Request.{Bytes, SmsResult}

pub record ResultQueue : Type 0 where
  pub results : ℕ → SmsResult
  pub head : ℕ
  pub tail : ℕ
  pub count : ℕ
  pub drop_count : ℕ  -- atomic_t, wraps at 2 ^ 32

abbrev pub update : (ℕ → SmsResult) → ℕ → SmsResult → ℕ → SmsResult
update f i v j = if j == i then v else f j

module _ (depth : ℕ) where
  -- A full ring loses its oldest entry.
  pub make_room : ResultQueue → ResultQueue
  make_room q =
      if q.count == depth then record q { head = (q.head + 1) % depth; count = q.count - 1 } else q

  -- The new entry goes to the tail.
  pub append_entry : SmsResult → ResultQueue → ResultQueue
  append_entry entry q = record q {
    results = update q.results q.tail entry;
    tail = (q.tail + 1) % depth;
    count = q.count + 1;
  }

  pub put : SmsResult → ResultQueue → ResultQueue
  put entry q = append_entry entry (make_room q)

  -- The search of `tb45_sms_result_get` from position `i` on, `n` positions being left.
  pub find : ResultQueue → ℕ → ℕ → ℕ → Option ℕ
  find q request_id zero i = none
  find q request_id (suc n) i =
      let rest = find q request_id n (i + 1) in
      if (q.results ((q.head + i) % depth)).request_id == request_id then some i else rest

  -- Its inner loop: `n` entries from position `j + 1` on move down by one.
  pub shift : ℕ → ℕ → ℕ → (ℕ → SmsResult) → ℕ → SmsResult
  shift head zero j f = f
  shift head (suc n) j f =
      shift head n (j + 1) (update f ((head + j) % depth) (f ((head + j + 1) % depth)))

module _ {E : Type 0} (depth phone_max_len : ℕ) (sem : Semaphore E) where
  pub store_async_result : ℕ → Option Bytes → ℤ → ResultQueue → E → ResultQueue × E
  unfolding put
  store_async_result request_id phone result q e =
      let text : Bytes = elim phone [ none ↦ [] | some p ↦ take phone_max_len p ] in
      let q' = put depth (record { request_id = request_id; result = result; phone = text }) q in
      if q.count == depth
      then (record q' { drop_count = (q.drop_count + 1) % 2 ^ 32 }, e)
      else (q', sem.give e)

  pub result_get : ℕ → Bool → ResultQueue → E → ℤ × Option SmsResult × ResultQueue × E
  unfolding find shift
  result_get request_id false q e = (einval, none, q, e)
  result_get request_id true q e =
      if request_id == 0 then (einval, none, q, e) else elim (find depth q request_id q.count 0) [
        | none ↦ (enoent, none, q, e)
        | some i ↦ (
          pos 0,
          some (q.results ((q.head + i) % depth)),
          record q {
            results = shift depth q.head (q.count - 1 - i) i q.results;
            tail = (q.tail + depth - 1) % depth;
            count = q.count - 1;
          },
          (sem.take e).1,
        )
      ]

-- `await` is `k_sem_take` on the semaphore with the timeout of the caller. Other threads run while it
-- waits, so it acts on the ring too.
module _ {E : Type 0} (depth : ℕ) (await : Timeout → ResultQueue → E → ℤ × ResultQueue × E) where
  -- `out_result` is NULL where the first argument is false; what goes through it is the option.
  unfoldable pub result_wait :
      Bool → Timeout → ResultQueue → E → ℤ × Option SmsResult × ResultQueue × E
  result_wait false timeout q₀ e₀ = (einval, none, q₀, e₀)
  result_wait true timeout q₀ e₀ =
      let (ret, q, e) = await timeout q₀ e₀ in
      if is_neg ret then (ret, none, q, e) else if q.count == 0 then (eagain, none, q, e) else (
        pos 0,
        some (q.results q.head),
        record q { head = (q.head + 1) % depth; count = q.count - 1 },
        e,
      )
