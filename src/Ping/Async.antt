-- ===== src/Ping/Async.antt =====
-- tb45_ping.c: the pings that run as jobs, a state machine on a delayable work item. The clock does
-- not go back, so a difference of times is not negative.
pub mod Trace
pub mod Running
pub mod Rounds
pub mod Ends
pub mod Events
pub mod Once
use tibbit.Common.{
  ℕ, zero, suc, ◌+◌, ◌-◌, ◌%◌, ◌^◌, Bool, true, false, not, ◌&&◌, Option, none, some, ℤ, pos,
  is_neg, leb, ltb, ◌==◌, if◌then◌else◌,
}
use tibbit.Common.Errno.{eio, einval, ebusy, etimedout, einprogress}
use tibbit.Ping.Platform.{Request, Services}
use tibbit.Ping.{
  between_requests_ms, wait_poll_ms, RunCtx, Config, init_run_ctx, finish_run, report_progress,
  reply_handler,
}

pub data State : Type 0 where
  idle start_attempt send_request wait_reply between_requests retry_delay : State

pub record AsyncCtx (Addr Iface E : Type 0) : Type 0 where
  pub req : Request Addr E
  pub run_ctx : RunCtx Addr Iface
  pub state : State
  pub sequence : ℕ  -- uint16_t
  pub attempt : ℕ  -- uint8_t
  pub max_attempts : ℕ  -- uint8_t
  pub last_ret : ℤ
  pub started_at_ms : ℕ
  pub deadline_ms : ℕ

-- A round of the work handler ends with `continue` or with `return`.
pub data Round (Addr Iface E : Type 0) : Type 0 where
  continue : AsyncCtx Addr Iface E → E → Round Addr Iface E
  return : AsyncCtx Addr Iface E → E → Round Addr Iface E

abbrev pub is_idle : State → Bool
is_idle State.idle = true
is_idle _ = false

abbrev pub min : ℕ → ℕ → ℕ
min a b = if ltb a b then a else b

module _ {Addr Iface E : Type 0} (config : Config) (p : Services Addr Iface E) where
  abbrev Ctx : Type 0
  Ctx = AsyncCtx Addr Iface E

  unfoldable pub complete_job : Ctx → ℤ → E → Ctx × E
  complete_job ctx ret e = (record ctx { state = State.idle }, p.complete_job ctx.req ret e)

  unfoldable pub finish_attempt : Ctx → ℤ → E → Ctx × E
  unfolding complete_job finish_run
  finish_attempt ctx ret₀ e =
      let (ret, e') = finish_run p ctx.run_ctx ret₀ e in
      let ctx' = record ctx { attempt = (ctx.attempt + 1) % 256; state = State.retry_delay } in
      let (sched_ret, e'') = p.schedule config.retry_delay_ms e' in
      if is_neg ret && ltb ctx.attempt ctx.max_attempts
      then (if is_neg sched_ret then complete_job ctx' eio e'' else (ctx', e''))
      else complete_job ctx ret e'

  -- `if (!schedule(...)) finish_attempt(ctx, -EIO); return;`
  unfoldable pub schedule_or_finish : ℕ → Ctx → E → Ctx × E
  unfolding finish_attempt
  schedule_or_finish delay_ms ctx e =
      let (sched_ret, e') = p.schedule delay_ms e in
      if is_neg sched_ret then finish_attempt ctx eio e' else (ctx, e')

  unfoldable pub start_round : Ctx → E → Round Addr Iface E
  unfolding init_run_ctx complete_job
  start_round ctx₀ e =
      let (ret, run_ctx, e') = init_run_ctx p ctx₀.req ctx₀.run_ctx e in
      let ctx = record ctx₀ { run_ctx = run_ctx } in
      let (sched_ret, e'') = p.schedule config.retry_delay_ms e' in
      let again = record ctx { attempt = (ctx.attempt + 1) % 256; state = State.retry_delay } in
      let ready = record ctx { sequence = 1; last_ret = pos 0; state = State.send_request } in
      if is_neg ret
      then (if ltb ctx.attempt ctx.max_attempts
          then (if is_neg sched_ret
              then (let (c, e₃) = complete_job ctx ret e'' in return c e₃)
              else return again e'')
          else (let (c, e₃) = complete_job ctx ret e' in return c e₃))
      else continue ready e'

  -- The context while a request is on its way, and the answer of the call that sends it.
  unfoldable pub sent_round : Ctx → ℤ → E → Round Addr Iface E
  unfolding report_progress schedule_or_finish
  sent_round ctx ret e =
      let failed = record ctx { last_ret = ret; sequence = (ctx.sequence + 1) % 2 ^ 16 } in
      let waiting = record ctx {
        run_ctx = record (ctx.run_ctx) { sent = ctx.run_ctx.sent + 1 };
        deadline_ms = ctx.started_at_ms + ctx.req.timeout_ms;
        state = State.wait_reply;
      } in
      if is_neg ret
      then continue failed (report_progress p ctx.req ctx.run_ctx ctx.sequence 0 false ret e)
      else (let (c, e') = schedule_or_finish (min ctx.req.timeout_ms wait_poll_ms) waiting e in
          return c e')

  unfoldable pub send_round : Ctx → E → Round Addr Iface E
  unfolding sent_round finish_attempt
  send_round ctx e =
      let fresh = record ctx {
        started_at_ms = p.uptime e;
        run_ctx = record (ctx.run_ctx) {
          expected_sequence = ctx.sequence;
          reply_received = false;
          reply_addr = p.any_addr;
        };
      } in
      let (ret, e') =
        p.send_echo fresh.run_ctx.iface fresh.run_ctx.dst_addr fresh.run_ctx.identifier ctx.sequence
          ctx.req.payload_size e in
      if ltb ctx.req.count ctx.sequence
      then (let (c, e₁) = finish_attempt ctx ctx.last_ret e in return c e₁)
      else sent_round fresh ret e'

  -- The end of the two branches that have an outcome for the request: it is counted, and the next
  -- request follows after a pause.
  unfoldable pub next_request : Ctx → ℤ → E → Ctx × E
  unfolding finish_attempt schedule_or_finish
  next_request ctx ret e =
      let ctx' = record ctx { last_ret = ret; sequence = (ctx.sequence + 1) % 2 ^ 16 } in
      if ltb ctx'.req.count ctx'.sequence
      then finish_attempt ctx' ret e
      else schedule_or_finish between_requests_ms (record ctx' { state = State.between_requests }) e

  unfoldable pub wait_round : Ctx → E → Ctx × E
  unfolding next_request report_progress schedule_or_finish
  wait_round ctx e =
      let counted = record ctx {
        run_ctx = record (ctx.run_ctx) { received = ctx.run_ctx.received + 1 };
      } in
      let elapsed_ms = (p.uptime e - ctx.started_at_ms) % 2 ^ 32 in
      if ctx.run_ctx.reply_received
      then next_request counted (pos 0)
          (report_progress p ctx.req counted.run_ctx ctx.sequence elapsed_ms true (pos 0) e)
      else if leb ctx.deadline_ms (p.uptime e)
      then next_request ctx etimedout
          (report_progress p ctx.req ctx.run_ctx ctx.sequence ctx.req.timeout_ms false etimedout e)
      else schedule_or_finish (min ((ctx.deadline_ms - p.uptime e) % 2 ^ 32) wait_poll_ms) ctx e

  -- `switch (ctx->state)`
  unfoldable pub round : State → Ctx → E → Round Addr Iface E
  unfolding start_round send_round wait_round
  round State.idle ctx e = return ctx e
  round State.start_attempt ctx e = start_round ctx e
  round State.send_request ctx e = send_round ctx e
  round State.wait_reply ctx e = let (c, e') = wait_round ctx e in return c e'
  round State.between_requests ctx e = continue (record ctx { state = State.send_request }) e
  round State.retry_delay ctx e = continue (record ctx { state = State.start_attempt }) e

  -- `while (true)`, with the rounds left; `none` is a loop that has not ended.
  unfoldable pub rounds : ℕ → Ctx → E → Option (Ctx × E)
  unfolding round
  rounds zero ctx e = none
  rounds (suc n) ctx e = elim (round ctx.state ctx e) [
    | continue ctx' e' ↦ rounds n ctx' e'
    | return ctx' e' ↦ some (ctx', e')
  ]

  -- At most every request of the run fails at once, after a start and before the end.
  unfoldable pub work_handler : Ctx → E → Option (Ctx × E)
  unfolding rounds
  work_handler ctx e = rounds (ctx.req.count + 4) ctx e

  -- `tb45_ping_async_dispatch` of a ping job
  unfoldable pub dispatch : Request Addr E → Ctx → E → ℤ × Ctx × E
  dispatch req ctx₀ e =
      let max_attempts = (1 + config.extra_retries) % 256 in
      let ctx = record ctx₀ {
        req = req;
        state = State.start_attempt;
        sequence = 0;
        attempt = 1;
        max_attempts = if max_attempts == 0 then 1 else max_attempts;
        last_ret = pos 0;
        started_at_ms = 0;
        deadline_ms = 0;
      } in
      let (sched_ret, e') = p.schedule 0 e in
      if not (is_idle ctx₀.state)
      then (ebusy, ctx₀, e)
      else if is_neg sched_ret
      then (eio, record ctx { state = State.idle }, e')
      else (einprogress, ctx, e')

  -- A packet comes in while the context of a run is registered.
  unfoldable pub reply : Addr → Option (ℕ × ℕ) → Ctx → Ctx
  unfolding reply_handler
  reply src id_seq ctx = record ctx { run_ctx = reply_handler p src id_seq ctx.run_ctx }
