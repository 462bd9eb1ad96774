-- ===== src/AsyncJob/Laws.antt =====
-- The retry policy, the handler table and the job queue.
use native.Mathlib.Decide.{dec_lt}
use tibbit.Common.{
  ℕ, ◌≤◌, ◌<◌, ◌≡◌, refl, ◌≢◌, ◌⊎◌, Option, none, some, List, [], ◌∷◌, ◌++◌, ℤ, pos, arith, length,
  if◌then◌else◌, ◌==◌, leb, Bool-cases, inl, inr,
}
use tibbit.Common.Errno.{einval, eagain}
use tibbit.Kernel.{MsgQueue, MsgQueueLaws}
use tibbit.AsyncJob.{
  AsyncJob, Config, Registry, type_count, policy_get, execute, complete, register_handler, enqueue,
}

-- Whatever the configuration and the type, at least one attempt and at most 255 are allowed, so
-- the limit is never 0, which the retry object takes for "no limit".
pub policy_get_bounds : (c : Config) (t : ℕ) → (0 < policy_get c t) × (policy_get c t < 256)
unfolding policy_get
policy_get_bounds c t = ground arith

module _ {P E : Type 0} where
  -- A handler is entered exactly if it is not NULL and its type is below the count. A call that is
  -- refused changes nothing and answers -EINVAL.
  pub register_handler_accepts :
      (reg : Registry P E) (t : ℕ) (h : Option (AsyncJob P → E → ℤ × E))
      (cb : Option (AsyncJob P → ℤ → E → E))
      → (register_handler reg t h cb ≡ (einval, reg)) × ((type_count ≤ t) ⊎ (h ≡ none))
        ⊎ ((register_handler reg t h cb).0 ≡ pos 0) × (t < type_count) × (h ≢ none)
  unfolding register_handler
  register_handler_accepts reg t none cb = inl (refl, inr refl)
  register_handler_accepts reg t (some h) cb = elim (Bool-cases (leb type_count t)) [
    | inl e ↦ inl (rw e, inl (ground arith))
    | inr e ↦ inr (rw e, ground arith, λ p. cc)
  ]

  -- After a handler is entered, a job of its type runs it and reports to the callback beside it,
  -- and a job of any other type runs and reports as before.
  pub execute-register_handler :
      (reg : Registry P E) (t : ℕ) (h : AsyncJob P → E → ℤ × E) (cb : AsyncJob P → ℤ → E → E)
      (job : AsyncJob P) (ret : ℤ) (e : E)
      → t < type_count
      → let reg' = (register_handler reg t (some h) (some cb)).1 in
        (execute reg' (some job) e
          ≡ (if job.job_type == t then h job e else execute reg (some job) e))
        × (complete reg' (some job) ret e
            ≡ (if job.job_type == t then cb job ret e else complete reg (some job) ret e))
  unfolding execute complete register_handler
  execute-register_handler reg t h cb job ret e known = ground arith

  -- Over a queue that keeps the kernel's laws: a job of an unknown type is refused with -EINVAL,
  -- one that finds the queue full with -EAGAIN, both with no change; any other is appended behind
  -- the jobs that wait.
  pub enqueue_outcome :
      (q : MsgQueue (AsyncJob P) E) (depth : ℕ) (contents : E → List (AsyncJob P))
      (job : AsyncJob P) (e : E)
      → MsgQueueLaws q depth contents
      → (type_count ≤ job.job_type) × (enqueue q (some job) e ≡ (einval, e))
        ⊎ (job.job_type < type_count)
          × (depth ≤ length (contents e))
          × (enqueue q (some job) e ≡ (eagain, e))
        ⊎ (job.job_type < type_count)
          × (length (contents e) < depth)
          × ((enqueue q (some job) e).0 ≡ pos 0)
          × (contents (enqueue q (some job) e).1 ≡ contents e ++ job ∷ [])
  unfolding enqueue
  enqueue_outcome q depth contents job e laws = ground (
    arith,
    laws.put_room job e,
    laws.put_full job e,
    dec_lt job.job_type type_count,
    dec_lt (length (contents e)) depth,
  )
