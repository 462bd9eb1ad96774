-- ===== src/DelayableRetry/Settles.antt =====
-- A limited run comes to its end once the timer fires and each attempt reports a result.
use mathlib.Core.Path.{subst}
use tibbit.Common.{
  ℕ, ◌+◌, ◌-◌, ◌*◌, ◌%◌, ◌≤◌, ◌<◌, ◌≡◌, sym, ◌≢◌, true, false, Option, none, some, List, [], ◌∷◌, ℤ,
  arith, if◌then◌else◌, length,
}
use tibbit.DelayableRetry.{Retry, is_pending, finish_attempt, run_step}
use tibbit.DelayableRetry.Trace.{
  Traced, Event, attempts, completions, log_run, log_reschedule, handle,
}
use tibbit.DelayableRetry.Protocol.{Busy, IsValid, with_ops, MayRun, Holds, handle-Holds}

-- How many more events a pending run with a limit can take.
abbrev pub rounds : {C : Type 0} → Option (Retry (Traced C)) → ℕ
rounds none = 0
rounds (some r) =
    if r.pending
    then 2 * (r.max_attempts - r.attempt) + (if r.attempt_in_progress then 1 else 2)
    else 0

abbrev pub limit_of : {C : Type 0} → Option (Retry (Traced C)) → ℕ
limit_of none = 0
limit_of (some r) = r.max_attempts

module _ {C : Type 0} (run_attempt : ℕ → C → ℤ × C) (complete : ℤ → C → C)
    (delay : Option (ℕ → C → ℕ × C)) (failed : Option (ℤ → ℕ → ℕ → C → C))
    (reschedule : ℕ → C → ℤ × C) where
  abbrev ops_of : Retry (Traced C) → Retry (Traced C)
  ops_of = with_ops run_attempt complete delay failed reschedule

  abbrev Kept : Option (Retry (Traced C)) → Traced C → Type 0
  Kept = Holds run_attempt complete delay failed reschedule

  finish_falls :
      (r : Retry (Traced C)) (ret : ℤ) (s : Traced C)
      → Busy r s
      → r.max_attempts ≢ 0
      → let (_, r', s') = finish_attempt (log_reschedule reschedule) (ops_of r) ret s in
        (rounds (some r') < rounds (some r))
        × (r'.max_attempts ≡ r.max_attempts)
        × (attempts s'.calls ≡ attempts s.calls)
  unfolding finish_attempt
  finish_falls r ret s b n = ground arith

  run_step_falls :
      (r : Retry (Traced C)) (s : Traced C)
      → MayRun run_attempt complete delay failed reschedule r s
      → r.max_attempts ≢ 0
      → let (_, r', s') = run_step (log_reschedule reschedule) (ops_of r) (log_run run_attempt) s in
        (rounds (some r') ≤ 2 * (r.max_attempts - r.attempt) + 1)
        × (r'.max_attempts ≡ r.max_attempts)
        × (attempts s'.calls ≡ attempts s.calls + 1)
  unfolding run_step
  run_step_falls r s m n =
      let begun : Retry (Traced C) = record r { pending = true; attempt_in_progress = true } in
      let (ret, s') = log_run run_attempt r.attempt s in ground (arith, finish_falls begun ret s')

  -- The next event of an environment that reacts: the timer, or else the result `ret`.
  abbrev pub react : ℤ → Option (Retry (Traced C)) → Traced C → Option (Retry (Traced C)) × Traced C
  react ret r s = handle reschedule (if s.armed then Event.fire else Event.finish ret) r s

  react_given :
      (ret : ℤ) (r : Retry (Traced C)) (s : Traced C)
      → IsValid r s
      → r.max_attempts ≢ 0
      → let (r', s') = react ret (some (ops_of r)) s in
        (rounds r' ≤ rounds (some r) - 1)
        × (limit_of r' ≡ r.max_attempts)
        × (attempts s.calls ≤ attempts s'.calls)
  unfolding handle
  react_given ret r s v n =
      ground (arith, run_step_falls r (record s { armed = false }), finish_falls r ret s)

  react_falls :
      (ret : ℤ) (r : Option (Retry (Traced C))) (s : Traced C)
      → Kept r s
      → limit_of r ≢ 0
      → let (r', s') = react ret r s in
        (rounds r' ≤ rounds r - 1)
        × (limit_of r' ≡ limit_of r)
        × (attempts s.calls ≤ attempts s'.calls)
  react_falls ret none s h n = absurd h
  react_falls ret (some r) s (same, valid) n =
      subst
        (λ o.
          let r₀ = some (record r { ops = o }) in
          let (r', s') = react ret r₀ s in
          (rounds r' ≤ rounds r₀ - 1)
          × (limit_of r' ≡ limit_of r₀)
          × (attempts s.calls ≤ attempts s'.calls))
        (sym same) (react_given ret r s valid n)

  -- One reaction for each entry, which is the result of the attempt if one is in progress.
  pub settle : List ℤ → Option (Retry (Traced C)) → Traced C → Option (Retry (Traced C)) × Traced C
  settle [] r s = (r, s)
  settle (ret ∷ rets) r s = let (r', s') = react ret r s in settle rets r' s'

  settle_falls :
      (rets : List ℤ) (r : Option (Retry (Traced C))) (s : Traced C)
      → Kept r s
      → limit_of r ≢ 0
      → rounds r ≤ length rets
      → let (r', s') = settle rets r s in
        Kept r' s' × (rounds r' ≡ 0) × (attempts s.calls ≤ attempts s'.calls)
  unfolding settle
  settle_falls [] r s h n l = (h, omega arith, omega arith)
  settle_falls (ret ∷ rets) r s h n l =
      let (r', s') = react ret r s in
      let (lower, same, more) = react_falls ret r s h n in
      let kept =
        handle-Holds run_attempt complete delay failed reschedule
          (if s.armed then Event.fire else Event.finish ret) r s h in
      let (kept', ended, more') = settle_falls rets r' s' kept (omega arith) (omega arith) in
      (kept', ended, omega arith)

  begin_given :
      (n : ℕ) (r : Retry (Traced C)) (s : Traced C)
      → IsValid r s
      → 0 < n
      → n < 256
      → r.pending ≡ false
      → let (r', s') = handle reschedule (Event.begin n) (some (ops_of r)) s in
        (rounds r' ≤ 2 * n) × (limit_of r' ≡ n) × (0 < attempts s'.calls)
  unfolding handle
  begin_given n r s v lo hi p = ground (
    arith,
    run_step_falls
        (record r {
          attempt = 1;
          max_attempts = n % 256;
          pending = false;
          attempt_in_progress = false;
        })
        (record s { calls = [] }),
  )

  begin_falls :
      (n : ℕ) (r : Option (Retry (Traced C))) (s : Traced C)
      → Kept r s
      → 0 < n
      → n < 256
      → is_pending r ≡ false
      → let (r', s') = handle reschedule (Event.begin n) r s in
        (rounds r' ≤ 2 * n) × (limit_of r' ≡ n) × (0 < attempts s'.calls)
  unfolding is_pending
  begin_falls n none s h lo hi p = absurd h
  begin_falls n (some r) s (same, valid) lo hi p =
      subst
        (λ o.
          let (r', s') = handle reschedule (Event.begin n) (some (record r { ops = o })) s in
          (rounds r' ≤ 2 * n) × (limit_of r' ≡ n) × (0 < attempts s'.calls))
        (sym same) (begin_given n r s valid lo hi p)

  ended :
      (r : Option (Retry (Traced C))) (s : Traced C)
      → Kept r s
      → rounds r ≡ 0
      → 0 < attempts s.calls
      → (is_pending r ≡ false) × (completions s.calls ≡ 1)
  unfolding is_pending
  ended none s h z a = absurd h
  ended (some r) s h z a = ground arith

  -- A run that is started with a limit of `n` attempts on an object that is not pending has
  -- reported its end exactly once, and is no longer pending, after at most `2 * n` reactions,
  -- whatever the results of the attempts and the answers of the kernel.
  pub begin_settles :
      (n : ℕ) (rets : List ℤ) (r : Option (Retry (Traced C))) (s : Traced C)
      → Kept r s
      → 0 < n
      → n < 256
      → is_pending r ≡ false
      → 2 * n ≤ length rets
      → let (r', s') = handle reschedule (Event.begin n) r s in
        let (r'', s'') = settle rets r' s' in (is_pending r'' ≡ false) × (completions s''.calls ≡ 1)
  begin_settles n rets r s h lo hi p l =
      let (r', s') = handle reschedule (Event.begin n) r s in
      let kept = handle-Holds run_attempt complete delay failed reschedule (Event.begin n) r s h in
      let (bound, limit, begun) = begin_falls n r s h lo hi p in
      let (kept', zero_left, more) = settle_falls rets r' s' kept (omega arith) (omega arith) in
      let (r'', s'') = settle rets r' s' in ended r'' s'' kept' zero_left (omega arith)
