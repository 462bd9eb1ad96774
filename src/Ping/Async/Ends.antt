-- ===== src/Ping/Async/Ends.antt =====
-- The loop of the work handler ends within its fuel, and leaves the machine settled or armed.
use tibbit.Common.{
  ℕ, zero, suc, ◌+◌, ◌-◌, ◌≤◌, ◌<◌, ◌≡◌, refl, Option, none, some, ℤ, is_neg, arith, if_elim, ltb,
  ◌%◌, ◌^◌,
}
use native.Mathlib.Nat.{mod-eq_of_lt}
use mathlib.Core.Path.{subst}
use tibbit.Common.{sym}
use tibbit.Ping.Platform.{Progress, Services}
use tibbit.Ping.{Config, init_run_ctx}
use tibbit.Ping.Async.{
  State, idle, start_attempt, send_request, wait_reply, between_requests, retry_delay, Round,
  continue, return, start_round, sent_round, send_round, round, rounds, work_handler,
}
use tibbit.Ping.Async.Trace.{Traced, Machine, traced}
use tibbit.Ping.Async.Running.{Running, IsValid}
use tibbit.Ping.Async.Rounds.{Stepped, round-Stepped}

module _ {Addr Iface E : Type 0} (config : Config) (p : Services Addr Iface E)
    (on_progress : Progress Addr → E → E) where
  abbrev M : Type 0
  M = Machine config p on_progress

  -- The rounds that a job still needs before the handler returns.
  abbrev need : State → M → ℕ
  need idle ctx = 1
  need start_attempt ctx = ctx.req.count + 2
  need send_request ctx = ctx.req.count + 2 - ctx.sequence
  need wait_reply ctx = 1
  need between_requests ctx = ctx.req.count + 3 - ctx.sequence
  need retry_delay ctx = ctx.req.count + 3

  abbrev Closer : ℕ → Round Addr Iface (Traced E) → Type 0
  Closer n (continue ctx t) = need ctx.state ctx < n
  Closer n (return ctx t) = Unit

  start_round-Closer :
      (ctx : M) (t : Traced E)
      → Closer (ctx.req.count + 2) (start_round config (traced config p on_progress) ctx t)
  unfolding start_round
  start_round-Closer ctx t =
      let s = traced config p on_progress in
      let (ret, run_ctx, t') = init_run_ctx s ctx.req ctx.run_ctx t in
      if_elim (Closer (ctx.req.count + 2)) (is_neg ret)
        (λ _.
          if_elim (Closer (ctx.req.count + 2)) (ltb ctx.attempt ctx.max_attempts)
            (λ _.
              if_elim (Closer (ctx.req.count + 2))
                (is_neg (p.schedule config.retry_delay_ms t'.inner).0) (λ _. tt) (λ _. tt))
            (λ _. tt))
        (λ _. omega arith)

  sent_round-Closer :
      (ctx : M) (ret : ℤ) (t : Traced E)
      → ctx.state ≡ send_request
      → ctx.sequence ≤ ctx.req.count
      → ctx.req.count < 65535
      → Closer
          (ctx.req.count + 2 - ctx.sequence)
          (sent_round config (traced config p on_progress) ctx ret t)
  unfolding sent_round
  sent_round-Closer ctx ret t s le small =
      let no_wrap : (ctx.sequence + 1) % 2 ^ 16 ≡ ctx.sequence + 1 =
        mod-eq_of_lt {n = ctx.sequence + 1} {m = 2 ^ 16} (omega (arith, small, le)) in
      let failed : M = record ctx { last_ret = ret; sequence = (ctx.sequence + 1) % 2 ^ 16 } in
      let at : need send_request failed < ctx.req.count + 2 - ctx.sequence =
        omega (arith, no_wrap, le) in
      if_elim (Closer (ctx.req.count + 2 - ctx.sequence)) (is_neg ret)
        (λ _. subst (λ s. need s failed < ctx.req.count + 2 - ctx.sequence) (sym s) at) (λ _. tt)

  round-Closer :
      (s : State) (ctx : M) (t : Traced E)
      → ctx.state ≡ s
      → Running config p on_progress s ctx t
      → Closer (need s ctx) (round config (traced config p on_progress) s ctx t)
  unfolding round send_round
  round-Closer idle ctx t s r = tt
  round-Closer start_attempt ctx t s r = start_round-Closer ctx t
  round-Closer send_request ctx t s r =
      if_elim (Closer (ctx.req.count + 2 - ctx.sequence)) (ltb ctx.req.count ctx.sequence) (λ _. tt)
        (λ more. sent_round-Closer _ _ _ s (ground (arith, more)) r.bounded.small)
  round-Closer wait_reply ctx t s r = tt
  round-Closer between_requests ctx t s r = omega (arith, r.position)
  round-Closer retry_delay ctx t s r = omega arith

  abbrev pub Ended : Option (M × Traced E) → Type 0
  Ended none = ⊥
  Ended (some (ctx, t)) = IsValid config p on_progress ctx t

  need_pos :
      (s : State) (ctx : M) (t : Traced E) → Running config p on_progress s ctx t → 0 < need s ctx
  need_pos idle ctx t r = omega arith
  need_pos start_attempt ctx t r = omega arith
  need_pos send_request ctx t r = omega (arith, r.position)
  need_pos wait_reply ctx t r = omega arith
  need_pos between_requests ctx t r = omega (arith, r.position)
  need_pos retry_delay ctx t r = omega arith

  need_fits : (s : State) (ctx : M) → need s ctx ≤ ctx.req.count + 4
  need_fits idle ctx = omega arith
  need_fits start_attempt ctx = omega arith
  need_fits send_request ctx = omega arith
  need_fits wait_reply ctx = omega arith
  need_fits between_requests ctx = omega arith
  need_fits retry_delay ctx = omega arith

  rounds-Ended :
      (n : ℕ) (ctx : M) (t : Traced E)
      → Running config p on_progress ctx.state ctx t
      → need ctx.state ctx ≤ n
      → Ended (rounds config (traced config p on_progress) n ctx t)
  unfolding rounds
  rounds-Ended zero ctx t r le = absurd (omega (arith, need_pos ctx.state ctx t r, le))
  rounds-Ended (suc n) ctx t r le =
      after (round config (traced config p on_progress) ctx.state ctx t)
        (round-Stepped config p on_progress ctx.state ctx t refl r)
        (round-Closer ctx.state ctx t refl r) (rounds-Ended n)
    where
      after :
          (next : Round Addr Iface (Traced E))
          → Stepped config p on_progress next
          → Closer (need ctx.state ctx) next
          → ((ctx' : M) (t' : Traced E)
              → Running config p on_progress ctx'.state ctx' t'
              → need ctx'.state ctx' ≤ n
              → Ended (rounds config (traced config p on_progress) n ctx' t'))
          → Ended (elim next [
            | continue ctx' t' ↦ rounds config (traced config p on_progress) n ctx' t'
            | return ctx' t' ↦ some (ctx', t')
          ])
      after (continue ctx' t') stepped closer go = go ctx' t' stepped (omega (arith, closer, le))
      after (return ctx' t') stepped closer go = stepped

  pub work_handler-Ended :
      (ctx : M) (t : Traced E)
      → Running config p on_progress ctx.state ctx t
      → Ended (work_handler config (traced config p on_progress) ctx t)
  unfolding work_handler
  work_handler-Ended ctx t r = rounds-Ended (ctx.req.count + 4) ctx t r (need_fits ctx.state ctx)
