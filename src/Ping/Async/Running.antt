-- ===== src/Ping/Async/Running.antt =====
-- The rounds of the work handler keep a job running, or settle it.
use mathlib.Core.Path.{subst}
use native.Mathlib.Nat.{mod-eq_of_lt}
use tibbit.Common.{
  ℕ, ◌+◌, ◌≤◌, ◌<◌, ◌≡◌, refl, sym, ap, ◌∙◌, ◌⊎◌, inl, inr, Bool, true, false, none, some, ℤ, pos,
  is_neg, arith, length, if_elim, leb, ltb, ◌-◌, ◌%◌, ◌^◌,
}
use tibbit.Common.Errno.{eio, etimedout}
use tibbit.Ping.Platform.{Progress, Services}
use tibbit.Ping.{Config, RunCtx, report_progress}
use tibbit.Ping.Async.{
  State, idle, start_attempt, send_request, wait_reply, between_requests, retry_delay, complete_job,
  finish_attempt, schedule_or_finish, next_request, wait_round,
}
use tibbit.Ping.Async.Trace.{Traced, Machine, traced, progress}

module _ {Addr Iface E : Type 0} (config : Config) (p : Services Addr Iface E)
    (on_progress : Progress Addr → E → E) where
  -- Where a running job stands in its attempt.
  abbrev pub Position : State → Machine config p on_progress → Type 0
  Position idle ctx = ⊥
  Position start_attempt ctx = Unit
  Position send_request ctx =
      (ctx.run_ctx.received ≤ ctx.run_ctx.sent)
      × (ctx.run_ctx.sent < ctx.sequence)
      × (ctx.sequence ≤ ctx.req.count + 1)
  Position wait_reply ctx =
      (ctx.run_ctx.received < ctx.run_ctx.sent)
      × (ctx.run_ctx.sent ≤ ctx.sequence)
      × (ctx.sequence ≤ ctx.req.count)
  Position between_requests ctx =
      (ctx.run_ctx.received ≤ ctx.run_ctx.sent)
      × (ctx.run_ctx.sent < ctx.sequence)
      × (ctx.sequence ≤ ctx.req.count)
  Position retry_delay ctx = Unit

  -- The limits that a job keeps to, and its callback.
  pub record Bounded (ctx : Machine config p on_progress) : Type 0 where
    pub progress_kept :
        (ctx.req.progress_cb ≡ none) ⊎ (ctx.req.progress_cb ≡ some (progress config p on_progress))
    pub small : ctx.req.count < 65535
    pub attempts : (0 < ctx.attempt) × (ctx.attempt ≤ ctx.max_attempts) × (ctx.max_attempts < 256)

  -- Inside the handler the timer is not armed.
  pub record Running (s : State) (ctx : Machine config p on_progress) (t : Traced E) : Type 0 where
    pub bounded : Bounded ctx
    pub one_left : length t.completed + 1 ≡ t.accepted
    pub disarmed : t.armed ≡ false
    pub position : Position s ctx

  pub record Busy (ctx : Machine config p on_progress) (t : Traced E) : Type 0 where
    pub bounded : Bounded ctx
    pub one_left : length t.completed + 1 ≡ t.accepted
    pub is_armed : t.armed ≡ true
    pub position : Position ctx.state ctx

  pub record Settled (ctx : Machine config p on_progress) (t : Traced E) : Type 0 where
    pub at_rest : ctx.state ≡ idle
    pub disarmed : t.armed ≡ false
    pub all_completed : length t.completed ≡ t.accepted

  abbrev pub IsValid : Machine config p on_progress → Traced E → Type 0
  IsValid ctx t = Settled ctx t ⊎ Busy ctx t

  abbrev Valid : Machine config p on_progress × Traced E → Type 0
  Valid (ctx, t) = IsValid ctx t

  pub complete_job-Valid :
      (ctx : Machine config p on_progress) (ret : ℤ) (t : Traced E)
      → Bounded ctx
      → length t.completed + 1 ≡ t.accepted
      → t.armed ≡ false
      → Valid (complete_job config (traced config p on_progress) ctx ret t)
  unfolding complete_job
  complete_job-Valid ctx ret t b one off = inl (ground arith)

  pub finish_attempt-Valid :
      (ctx : Machine config p on_progress) (ret : ℤ) (t : Traced E)
      → Bounded ctx
      → length t.completed + 1 ≡ t.accepted
      → t.armed ≡ false
      → Valid (finish_attempt config (traced config p on_progress) ctx ret t)
  unfolding finish_attempt
  finish_attempt-Valid ctx ret t b one off = ground arith

  -- A reschedule arms the timer at a place of the attempt, or the attempt ends.
  pub schedule_or_finish-Valid :
      (ms : ℕ) (ctx : Machine config p on_progress) (t : Traced E)
      → Bounded ctx
      → length t.completed + 1 ≡ t.accepted
      → t.armed ≡ false
      → Position ctx.state ctx
      → Valid (schedule_or_finish config (traced config p on_progress) ms ctx t)
  unfolding schedule_or_finish
  schedule_or_finish-Valid ms ctx t b one off at =
      let (sched_ret, t') = (traced config p on_progress).schedule ms t in
      if_elim Valid (is_neg (p.schedule ms t.inner).0)
        (λ n. finish_attempt-Valid ctx eio t' b one (ground arith))
        (λ n. inr (record { bounded = b; one_left = one; is_armed = ground arith; position = at }))

  -- What a report of progress leaves as it was.
  pub report_progress-same :
      (ctx : Machine config p on_progress) (t : Traced E) (run_ctx : RunCtx Addr Iface)
      (sequence elapsed_ms : ℕ) (success : Bool) (status : ℤ)
      → Bounded ctx
      → let t' =
          report_progress
            (traced config p on_progress)
            ctx.req
            run_ctx
            sequence
            elapsed_ms
            success
            status
            t in
        (t'.armed ≡ t.armed) × (t'.accepted ≡ t.accepted) × (t'.completed ≡ t.completed)
  unfolding report_progress
  report_progress-same ctx t run_ctx sequence elapsed_ms success status b = elim b.progress_kept [
    | inl e ↦ rw e (refl, refl, refl)
    | inr e ↦ rw e (refl, refl, refl)
  ]

  pub next_request-Valid :
      (ctx : Machine config p on_progress) (ret : ℤ) (t : Traced E)
      → Bounded ctx
      → length t.completed + 1 ≡ t.accepted
      → t.armed ≡ false
      → (ctx.run_ctx.received ≤ ctx.run_ctx.sent)
        × (ctx.run_ctx.sent ≤ ctx.sequence)
        × (ctx.sequence ≤ ctx.req.count)
      → Valid (next_request config (traced config p on_progress) ctx ret t)
  unfolding next_request
  next_request-Valid ctx ret t b one off h =
      let next : Machine config p on_progress = record ctx {
        last_ret = ret;
        sequence = (ctx.sequence + 1) % 2 ^ 16;
      } in
      let pausing : Machine config p on_progress = record next { state = between_requests } in
      let no_wrap : (ctx.sequence + 1) % 2 ^ 16 ≡ ctx.sequence + 1 =
        mod-eq_of_lt {n = ctx.sequence + 1} {m = 2 ^ 16} (omega (arith, b.small)) in
      let b' : Bounded next = record {
        progress_kept = b.progress_kept;
        small = b.small;
        attempts = b.attempts;
      } in
      let b'' : Bounded pausing = record {
        progress_kept = b.progress_kept;
        small = b.small;
        attempts = b.attempts;
      } in
      if_elim Valid (ltb next.req.count next.sequence)
        (λ n. finish_attempt-Valid next ret t b' one off)
        (λ n. schedule_or_finish-Valid 1000 pausing t b'' one off (ground arith))

  pub wait_round-Valid :
      (ctx : Machine config p on_progress) (t : Traced E)
      → ctx.state ≡ wait_reply
      → Running wait_reply ctx t
      → Valid (wait_round config (traced config p on_progress) ctx t)
  unfolding wait_round
  wait_round-Valid ctx t s r =
      let b = r.bounded in
      let seq = ctx.sequence in
      let counted : Machine config p on_progress = record ctx {
        run_ctx = record (ctx.run_ctx) { received = ctx.run_ctx.received + 1 };
      } in
      let b' : Bounded counted = record {
        progress_kept = b.progress_kept;
        small = b.small;
        attempts = b.attempts;
      } in
      let now = p.uptime t.inner in
      let reported : ℕ → Bool → ℤ → RunCtx Addr Iface → Traced E = λ ms ok status c.
        report_progress (traced config p on_progress) ctx.req c seq ms ok status t in
      let owed : (ms : ℕ) (ok : Bool) (status : ℤ) (c : RunCtx Addr Iface)
          → let t' = reported ms ok status c in
            (length t'.completed + 1 ≡ t'.accepted) × (t'.armed ≡ false) =
        λ ms ok status c.
          let (armed, accepted, completed) = report_progress-same ctx t c seq ms ok status b in
          (ap (λ l. length l + 1) completed ∙ r.one_left ∙ sym accepted, armed ∙ r.disarmed) in
      let elapsed = (now - ctx.started_at_ms) % 2 ^ 32 in
      let got = owed elapsed true (pos 0) counted.run_ctx in
      let lost = owed ctx.req.timeout_ms false etimedout ctx.run_ctx in
      if_elim Valid ctx.run_ctx.reply_received
        (λ _.
          next_request-Valid counted (pos 0) _ b' got.0 got.1
            (omega (arith, r.position.0), r.position.1, r.position.2))
        (λ _.
          if_elim Valid (leb ctx.deadline_ms now)
            (λ _.
              next_request-Valid ctx etimedout _ b lost.0 lost.1
                (omega (arith, r.position.0), r.position.1, r.position.2))
            (λ _.
              schedule_or_finish-Valid _ ctx t b r.one_left r.disarmed
                (subst (λ s. Position s ctx) (sym s) r.position)))
