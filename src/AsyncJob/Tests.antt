-- ===== src/AsyncJob/Tests.antt =====
-- The policy, the handler table and the queue of jobs at concrete values.
use tibbit.Common.{
  ℕ, ◌+◌, ◌<◌, ◌≤◌, ◌≡◌, refl, ◌⊎◌, none, some, List, [], ◌∷◌, ◌++◌, ℤ, pos, arith, length,
  if◌then◌else◌, ◌==◌,
}
use tibbit.Common.Errno.{einval, eagain, enomsg}
use tibbit.Kernel.{MsgQueue, MsgQueueLaws}
use tibbit.AsyncJob.{
  AsyncJob, Config, Registry, ping_run, policy_get, execute, complete, register_handler, enqueue,
}
use tibbit.AsyncJob.Laws.{execute-register_handler, enqueue_outcome}

abbrev config : Config
config = record {
  sms_send_max_retries = 2;
  sms_send_retry_delay_ms = 3000;
  ping_extra_retries = 255;
  ping_retry_delay_ms = 1000;
}

-- 256 attempts would be 0 as a `uint8_t`.
wrapped_policy : policy_get config ping_run ≡ 1
unfolding policy_get
wrapped_policy = refl

-- Handlers add the payload to a total, callbacks count.
abbrev add_payload : AsyncJob ℕ → ℕ → ℤ × ℕ
add_payload job e = (pos 0, e + job.payload)

abbrev count_end : AsyncJob ℕ → ℤ → ℕ → ℕ
count_end job ret e = e + 1

abbrev no_handlers : Registry ℕ ℕ
no_handlers = record { handlers = λ t. none; complete_cbs = λ t. none }

abbrev ping : AsyncJob ℕ
ping = record { job_type = ping_run; payload = 7 }

execute-register_handler_example :
    let reg' = (register_handler no_handlers 3 (some add_payload) (some count_end)).1 in
    (execute reg' (some ping) 5
      ≡ (if 3 == 3 then add_payload ping 5 else execute no_handlers (some ping) 5))
    × (complete reg' (some ping) (pos 0) 5
        ≡ (if 3 == 3 then count_end ping (pos 0) 5 else complete no_handlers (some ping) (pos 0) 5))
execute-register_handler_example =
    execute-register_handler no_handlers 3 add_payload count_end ping (pos 0) 5 (omega arith)

-- A queue that holds at most one job.
abbrev one_slot : MsgQueue (AsyncJob ℕ) (List (AsyncJob ℕ))
one_slot = record {
  put = λ job l. elim l [ [] ↦ (pos 0, job ∷ []) | x ∷ l' ↦ (enomsg, x ∷ l') ];
  get = λ l. elim l [ [] ↦ (enomsg, none, []) | job ∷ l' ↦ (pos 0, some job, l') ];
}

one_slot_laws : MsgQueueLaws one_slot 1 (λ l. l)
one_slot_laws = record {
  put_room = λ job l h.
      elim l
          as (λ l'.
            length l' < 1
            → ((one_slot.put job l').0 ≡ pos 0) × ((one_slot.put job l').1 ≡ l' ++ job ∷ [])) [
              | [] ↦ λ h'. (refl, refl)
              | x ∷ l' ↦ λ h'. absurd (ground (arith, h'))
            ]
        h;
  put_full = λ job l h.
      elim l as (λ l'. 1 ≤ length l' → one_slot.put job l' ≡ (enomsg, l')) [
        | [] ↦ λ h'. absurd (ground (arith, h'))
        | x ∷ l' ↦ λ h'. refl
      ]
        h;
  get_none = λ l h. ground arith;
  get_some = λ l job l' h. ground arith;
}

enqueue_outcome_example :
    (4 ≤ 3) × (enqueue one_slot (some ping) [] ≡ (einval, []))
    ⊎ (3 < 4) × (1 ≤ 0) × (enqueue one_slot (some ping) [] ≡ (eagain, []))
    ⊎ (3 < 4)
      × (0 < 1)
      × ((enqueue one_slot (some ping) []).0 ≡ pos 0)
      × ((enqueue one_slot (some ping) []).1 ≡ [] ++ ping ∷ [])
enqueue_outcome_example = enqueue_outcome one_slot 1 (λ l. l) ping [] one_slot_laws
