-- ===== src/Ping/Async/Rounds.antt =====
-- A round of the work handler keeps a job running, or settles it.
use mathlib.Core.Path.{subst}
use native.Mathlib.Nat.{mod-eq_of_lt}
use tibbit.Common.{
  ℕ, ◌+◌, ◌≤◌, ◌<◌, ◌≡◌, refl, sym, ap, ◌∙◌, ◌⊎◌, inl, inr, true, false, ℤ, pos, is_neg, arith,
  length, if_elim, ltb, ◌%◌, ◌^◌,
}
use tibbit.Ping.Platform.{Progress, Request, Services}
use tibbit.Ping.{Config, RunCtx, init_run_ctx}
use tibbit.Ping.Async.{
  State, idle, start_attempt, send_request, wait_reply, between_requests, retry_delay, Round,
  continue, return, start_round, sent_round, send_round, round,
}
use tibbit.Ping.Async.Running.{
  complete_job-Valid, finish_attempt-Valid, schedule_or_finish-Valid, wait_round-Valid,
  report_progress-same, Position, Bounded, Running, IsValid,
}
use tibbit.Ping.Async.Trace.{Traced, Machine, traced}

module _ {Addr Iface E : Type 0} (config : Config) (p : Services Addr Iface E)
    (on_progress : Progress Addr → E → E) where
  -- A round that goes on keeps the job running; one that returns settles it or arms the timer.
  abbrev pub Stepped : Round Addr Iface (Traced E) → Type 0
  Stepped (continue ctx t) = Running config p on_progress ctx.state ctx t
  Stepped (return ctx t) = IsValid config p on_progress ctx t

  -- A run that could be set up has sent and received nothing.
  init_run_ctx-fresh :
      (req : Request Addr (Traced E)) (c : RunCtx Addr Iface) (t : Traced E)
      → let (ret, c', t') = init_run_ctx (traced config p on_progress) req c t in
        (t'.armed ≡ t.armed)
        × (t'.accepted ≡ t.accepted)
        × (t'.completed ≡ t.completed)
        × ((is_neg ret ≡ true) ⊎ (c'.sent ≡ 0) × (c'.received ≡ 0))
  unfolding init_run_ctx
  init_run_ctx-fresh req c t = ground arith

  start_round-Stepped :
      (ctx : Machine config p on_progress) (t : Traced E)
      → Running config p on_progress start_attempt ctx t
      → Stepped (start_round config (traced config p on_progress) ctx t)
  unfolding start_round
  start_round-Stepped ctx₀ t r =
      let b = r.bounded in
      let s = traced config p on_progress in
      let (ret, run_ctx, t') = init_run_ctx s ctx₀.req ctx₀.run_ctx t in
      let (armed, accepted, completed, fresh) = init_run_ctx-fresh ctx₀.req ctx₀.run_ctx t in
      let ctx : Machine config p on_progress = record ctx₀ { run_ctx = run_ctx } in
      let b' : Bounded config p on_progress ctx = record {
        progress_kept = b.progress_kept;
        small = b.small;
        attempts = b.attempts;
      } in
      let one : length t'.completed + 1 ≡ t'.accepted =
        ap (λ l. length l + 1) completed ∙ r.one_left ∙ sym accepted in
      let off : t'.armed ≡ false = armed ∙ r.disarmed in
      let (sched_ret, t'') = s.schedule config.retry_delay_ms t' in
      let again : Machine config p on_progress = record ctx {
        attempt = (ctx.attempt + 1) % 256;
        state = retry_delay;
      } in
      let ready : Machine config p on_progress = record ctx {
        sequence = 1;
        last_ret = pos 0;
        state = send_request;
      } in
      let ready_b : Bounded config p on_progress ready = record {
        progress_kept = b.progress_kept;
        small = b.small;
        attempts = b.attempts;
      } in
      if_elim Stepped (is_neg ret)
        (λ _.
          if_elim Stepped (ltb ctx.attempt ctx.max_attempts)
            (λ more.
              if_elim Stepped (is_neg (p.schedule config.retry_delay_ms t'.inner).0)
                (λ n. complete_job-Valid config p on_progress ctx ret t'' b' one (rw n off))
                (λ n. inr (record {
                  bounded = record {
                    progress_kept = b.progress_kept;
                    small = b.small;
                    attempts = one_more more b.attempts;
                  };
                  one_left = one;
                  is_armed = rw n refl;
                  position = tt;
                })))
            (λ _. complete_job-Valid config p on_progress ctx ret t' b' one off))
        (λ set_up. record {
          bounded = ready_b;
          one_left = one;
          disarmed = off;
          position = elim fresh [ inl neg ↦ cc (neg, set_up) | inr z ↦ omega (arith, z.0, z.1) ];
        })
    where
      one_more :
          {a m : ℕ}
          → ltb a m ≡ true
          → (0 < a) × (a ≤ m) × (m < 256)
          → (0 < (a + 1) % 256) × ((a + 1) % 256 ≤ m) × (m < 256)
      one_more {a} {m} more h = ground (arith)

  sent_round-Stepped :
      (ctx : Machine config p on_progress) (ret : ℤ) (t : Traced E)
      → ctx.state ≡ send_request
      → ctx.sequence ≤ ctx.req.count
      → Running config p on_progress send_request ctx t
      → Stepped (sent_round config (traced config p on_progress) ctx ret t)
  unfolding sent_round
  sent_round-Stepped ctx ret t s le r =
      let b = r.bounded in
      let tr = traced config p on_progress in
      let failed : Machine config p on_progress = record ctx {
        last_ret = ret;
        sequence = (ctx.sequence + 1) % 2 ^ 16;
      } in
      let waiting : Machine config p on_progress = record ctx {
        run_ctx = record (ctx.run_ctx) { sent = ctx.run_ctx.sent + 1 };
        deadline_ms = ctx.started_at_ms + ctx.req.timeout_ms;
        state = wait_reply;
      } in
      let no_wrap : (ctx.sequence + 1) % 2 ^ 16 ≡ ctx.sequence + 1 =
        mod-eq_of_lt {n = ctx.sequence + 1} {m = 2 ^ 16} (omega (arith, b.small, le)) in
      let failed_b : Bounded config p on_progress failed = record {
        progress_kept = b.progress_kept;
        small = b.small;
        attempts = b.attempts;
      } in
      let waiting_b : Bounded config p on_progress waiting = record {
        progress_kept = b.progress_kept;
        small = b.small;
        attempts = b.attempts;
      } in
      let (armed, accepted, completed) =
        report_progress-same config p on_progress ctx t ctx.run_ctx ctx.sequence 0 false ret b in
      let at : Position config p on_progress send_request failed =
        (r.position.0, omega (arith, no_wrap, r.position), omega (arith, no_wrap, le)) in
      if_elim Stepped (is_neg ret)
        (λ _. record {
          bounded = failed_b;
          one_left = ap (λ l. length l + 1) completed ∙ r.one_left ∙ sym accepted;
          disarmed = armed ∙ r.disarmed;
          position = subst (λ s. Position config p on_progress s failed) (sym s) at;
        })
        (λ _.
          schedule_or_finish-Valid config p on_progress _ waiting t waiting_b r.one_left r.disarmed
            (omega (arith, r.position), omega (arith, r.position), le))

  send_round-Stepped :
      (ctx : Machine config p on_progress) (t : Traced E)
      → ctx.state ≡ send_request
      → Running config p on_progress send_request ctx t
      → Stepped (send_round config (traced config p on_progress) ctx t)
  unfolding send_round
  send_round-Stepped ctx t s r =
      let b = r.bounded in
      let fresh : Machine config p on_progress = record ctx {
        started_at_ms = p.uptime t.inner;
        run_ctx = record (ctx.run_ctx) {
          expected_sequence = ctx.sequence;
          reply_received = false;
          reply_addr = p.any_addr;
        };
      } in
      let (ret, inner) =
        p.send_echo fresh.run_ctx.iface fresh.run_ctx.dst_addr fresh.run_ctx.identifier ctx.sequence
          ctx.req.payload_size t.inner in
      let fresh_b : Bounded config p on_progress fresh = record {
        progress_kept = b.progress_kept;
        small = b.small;
        attempts = b.attempts;
      } in
      if_elim Stepped (ltb ctx.req.count ctx.sequence)
        (λ _. finish_attempt-Valid config p on_progress ctx ctx.last_ret t b r.one_left r.disarmed)
        (λ more.
          sent_round-Stepped fresh ret (record t { inner = inner }) s (ground (arith, more))
            (record {
              bounded = fresh_b;
              one_left = r.one_left;
              disarmed = r.disarmed;
              position = r.position;
            }))

  pub round-Stepped :
      (s : State) (ctx : Machine config p on_progress) (t : Traced E)
      → ctx.state ≡ s
      → Running config p on_progress s ctx t
      → Stepped (round config (traced config p on_progress) s ctx t)
  unfolding round
  round-Stepped idle ctx t s r = absurd r.position
  round-Stepped start_attempt ctx t s r = start_round-Stepped ctx t r
  round-Stepped send_request ctx t s r = send_round-Stepped ctx t s r
  round-Stepped wait_reply ctx t s r = wait_round-Valid config p on_progress ctx t s r
  round-Stepped between_requests ctx t s r = record {
    bounded = record {
      progress_kept = r.bounded.progress_kept;
      small = r.bounded.small;
      attempts = r.bounded.attempts;
    };
    one_left = r.one_left;
    disarmed = r.disarmed;
    position = (r.position.0, r.position.1, omega (arith, r.position));
  }
  round-Stepped retry_delay ctx t s r = record {
    bounded = record {
      progress_kept = r.bounded.progress_kept;
      small = r.bounded.small;
      attempts = r.bounded.attempts;
    };
    one_left = r.one_left;
    disarmed = r.disarmed;
    position = tt;
  }
