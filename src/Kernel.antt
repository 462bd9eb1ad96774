-- ===== src/Kernel.antt =====
-- The kernel services that the sources call, as interfaces: a message queue read and written
-- without waiting (`k_msgq_put`, `k_msgq_get` with K_NO_WAIT), and a work queue with its poll item
-- (`k_work_queue_thread_get`, `k_work_poll_submit_to_queue`). `E` is the state of everything
-- outside the sources. The laws are those of the kernel's documentation.
pub mod ListQueue
use tibbit.Common.{
  ℕ, ◌+◌, ◌≤◌, ◌<◌, ◌≡◌, Bool, Option, none, some, List, [], ◌∷◌, ◌++◌, ℤ, pos, is_neg, true,
  length,
}
use tibbit.Common.Errno.{enomsg}

pub record MsgQueue (A E : Type 0) : Type 0 where
  pub put : A → E → ℤ × E
  pub get : E → ℤ × Option A × E

-- The queue holds at most `depth` messages, oldest first; a call that fails changes nothing.
pub record MsgQueueLaws {A E : Type 0} (q : MsgQueue A E) (depth : ℕ) (contents : E → List A)
    : Type 0 where
  pub put_room :
      (a : A) (e : E)
      → length (contents e) < depth
      → ((q.put a e).0 ≡ pos 0) × (contents (q.put a e).1 ≡ contents e ++ a ∷ [])
  pub put_full : (a : A) (e : E) → depth ≤ length (contents e) → q.put a e ≡ (enomsg, e)
  pub get_none : (e : E) → contents e ≡ [] → q.get e ≡ (enomsg, none, e)
  pub get_some :
      (e : E) (a : A) (as_left : List A)
      → contents e ≡ a ∷ as_left
      → ((q.get e).0 ≡ pos 0) × ((q.get e).1 ≡ some a) × (contents (q.get e).2 ≡ as_left)

pub record WorkQueue (E : Type 0) : Type 0 where
  pub thread_ready : E → Bool
  pub poll_submit : E → ℤ × E
  pub reschedule : ℕ → E → ℤ × E

-- `k_timeout_t`
pub data Timeout : Type 0 where
  no_wait : Timeout
  wait_ms : ℕ → Timeout
  forever : Timeout

-- A counting semaphore: `k_sem_give`, and `k_sem_take` with K_NO_WAIT.
pub record Semaphore (E : Type 0) : Type 0 where
  pub give : E → E
  pub take : E → ℤ × E

-- The count goes up to `limit`; a take that fails changes nothing and answers a negative number.
pub record SemaphoreLaws {E : Type 0} (sem : Semaphore E) (limit : ℕ) (count : E → ℕ) : Type 0 where
  pub give_room : (e : E) → count e < limit → count (sem.give e) ≡ count e + 1
  pub give_full : (e : E) → count e ≡ limit → count (sem.give e) ≡ limit
  pub take_some :
      (e : E) → 0 < count e → ((sem.take e).0 ≡ pos 0) × (count (sem.take e).1 + 1 ≡ count e)
  pub take_none :
      (e : E) → count e ≡ 0 → (is_neg (sem.take e).0 ≡ true) × (count (sem.take e).1 ≡ 0)
