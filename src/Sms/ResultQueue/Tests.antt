-- ===== src/Sms/ResultQueue/Tests.antt =====
-- A ring of two results.
use tibbit.Common.{
  ℕ, zero, suc, ℤ, ◌+◌, ◌-◌, ◌≡◌, refl, ◌⊎◌, true, none, some, [], ◌∷◌, ◌++◌, pos, arith,
  if◌then◌else◌, ◌==◌, take,
}
use tibbit.Common.Errno.{eagain, enoent}
use tibbit.Kernel.{Timeout, no_wait, wait_ms, forever, Semaphore, SemaphoreLaws}
use tibbit.Sms.Request.{SmsResult}
use tibbit.Sms.ResultQueue.{ResultQueue, store_async_result, result_get}
use tibbit.Sms.ResultQueue.Refine.{IsValid, contents, make_room_spec, remove_spec}
use tibbit.Sms.ResultQueue.Service.{InSync, result_get_refines, store_refines}

abbrev answer : ℕ → SmsResult
answer n = record { request_id = n; result = pos 0; phone = 43 ∷ 49 ∷ [] }

-- It holds the results of requests 7 and 8, the older one in the last slot.
abbrev full : ResultQueue
full = record {
  results = λ i. if i == 0 then answer 8 else answer 7;
  head = 1;
  tail = 1;
  count = 2;
  drop_count = 0;
}

full-IsValid : IsValid 2 full
full-IsValid = record {
  has_room = omega arith;
  head_in = omega arith;
  count_in = omega arith;
  tail_at = refl;
}

-- A semaphore with limit 2 is its count.
abbrev counter : Semaphore ℕ
counter = record {
  give = λ n. if n == 2 then 2 else n + 1;
  take = λ n. if n == 0 then (eagain, 0) else (pos 0, n - 1);
}

counter_laws : SemaphoreLaws counter 2 (λ n. n)
counter_laws = record {
  give_room = λ n h. ground arith;
  give_full = λ n h. ground arith;
  take_some = λ n h. ground arith;
  take_none = λ n h. ground arith;
}

full-InSync : InSync 2 24 counter (λ n. n) counter_laws full 2
full-InSync = record { valid = full-IsValid; counted = refl }

-- While the thread waits, another one stores the result of request 9.
abbrev await : Timeout → ResultQueue → ℕ → ℤ × ResultQueue × ℕ
await t q zero = elim t [
  | no_wait ↦ (eagain, q, 0)
  | wait_ms ms ↦ (pos 0, (store_async_result 2 24 counter 9 none (pos 0) q 0).0, 0)
  | forever ↦ (pos 0, (store_async_result 2 24 counter 9 none (pos 0) q 0).0, 0)
]
await t q (suc n) = (pos 0, q, n)

abbrev drained : ResultQueue
drained = record full { count = 0 }

-- The younger result leaves first.
result_get_refines_example :
    let (ret, out, q', e') = result_get 2 24 counter 8 true full 2 in
    InSync 2 24 counter (λ n. n) counter_laws q' e'
    × ((remove_spec 8 (contents 2 full) ≡ none)
          × (ret ≡ enoent)
          × (out ≡ none)
          × (q' ≡ full)
          × (e' ≡ 2)
        ⊎ (x : SmsResult) × (remove_spec 8 (contents 2 full) ≡ some (x, contents 2 q'))
          × (ret ≡ pos 0)
          × (out ≡ some x))
result_get_refines_example =
    result_get_refines 2 24 counter (λ n. n) counter_laws 8 full 2 (ground arith) full-InSync

store_refines_example :
    let (q', e') = store_async_result 2 24 counter 9 (some (43 ∷ [])) (pos 0) full 2 in
    InSync 2 24 counter (λ n. n) counter_laws q' e'
    × (contents 2 q'
        ≡ make_room_spec 2 (contents 2 full)
          ++ record { request_id = 9; result = pos 0; phone = take 24 (43 ∷ []) } ∷ [])
store_refines_example =
    store_refines 2 24 counter (λ n. n) counter_laws 9 (43 ∷ []) (pos 0) full 2 full-InSync
