-- ===== src/AtHelper/RawSend/Machine.antt =====
-- tb45_sms_at_helper.c: the work handler of the raw send, its end, and the call that starts it. The
-- callback of the client gets the result when the context is already free for the next send; what
-- it does is part of the state `E`.
use tibbit.Common.{
  ℕ, zero, suc, ◌+◌, true, false, not, ◌||◌, ◌&&◌, Option, none, some, ℤ, pos, is_neg, eqb_ℤ, leb,
  ltb, ◌==◌, if◌then◌else◌, [], ◌∷◌, length, ◌>>=◌, Bytes, codes,
}
use tibbit.Common.Errno.{einval, eagain, ebusy, enodev}
use tibbit.AtHelper.Platform.{Services}
use tibbit.AtHelper.RawSend.{
  setup_timeout_ms, prompt_timeout_ms, poll_interval_ms, min_timeout_ms, max_timeout_ms,
  raw_cmd_buf_size, State, idle, cpin_send, cpin_wait, cmgf_send, cmgf_wait, cscs_send, cscs_wait,
  cmgs_send, prompt_wait, text_send, ctrl_z_send, result_wait, Ctx, reset, Round, continue, break,
  prepare_wait, prepare_transmit, prepare_line, transmit_step, receive_step, check_ok, check_prompt,
  check_sms_result,
}

module _ {Pipe E : Type 0} (p : Services Pipe E) where
  -- A state that sends and then waits.
  unfoldable pub send_round : State → ℕ → Ctx Pipe E → E → Round Pipe E
  unfolding transmit_step prepare_wait
  send_round next timeout_ms ctx e =
      let (ret, ctx', e') = transmit_step p ctx e in
      if eqb_ℤ ret (pos 0)
      then continue (prepare_wait p timeout_ms (record ctx' { state = next }) e') e'
      else break ret ctx' e'

  -- The end of a round that has waited for OK: the next line, or the error.
  unfoldable pub line_round : State → Bytes → ℕ → ℤ × Ctx Pipe E × E → Round Pipe E
  unfolding prepare_line
  line_round next line timeout_ms (ret, ctx, e) =
      let (line_ret, ctx') = prepare_line p line timeout_ms ctx e in
      if eqb_ℤ ret (pos 0)
      then (if is_neg line_ret
          then break line_ret ctx' e
          else continue (record ctx' { state = next }) e)
      else break ret ctx e

  unfoldable pub text_round : ℤ × Ctx Pipe E × E → Round Pipe E
  unfolding prepare_transmit
  text_round (ret, ctx, e) =
      if eqb_ℤ ret (pos 0)
      then continue
          (record (prepare_transmit p ctx.text ctx.submit_timeout_ms ctx e) { state = text_send }) e
      else break ret ctx e

  -- 0x1A, Ctrl+Z, goes through `line_buf`.
  unfoldable pub ctrl_z_round : Ctx Pipe E → E → Round Pipe E
  unfolding transmit_step prepare_transmit
  ctrl_z_round ctx e =
      let (ret, ctx', e') = transmit_step p ctx e in
      let filled = record ctx' { line_buf = 26 ∷ [] } in
      if eqb_ℤ ret (pos 0)
      then continue
          (record (prepare_transmit p (26 ∷ []) ctx'.submit_timeout_ms filled e') {
            state = ctrl_z_send;
          })
          e'
      else break ret ctx' e'

  -- `switch (ctx->state)`
  unfoldable pub round : State → Ctx Pipe E → E → Option (Round Pipe E)
  unfolding send_round line_round text_round ctrl_z_round receive_step
  round idle ctx e = some (break einval ctx e)
  round cpin_send ctx e = some (send_round cpin_wait setup_timeout_ms ctx e)
  round cpin_wait ctx e = do
    waited ← receive_step p (check_ok (some (codes "+CPIN: READY"))) ctx e
    some (line_round cmgf_send (codes "AT+CMGF=1") setup_timeout_ms waited)
  round cmgf_send ctx e = some (send_round cmgf_wait setup_timeout_ms ctx e)
  round cmgf_wait ctx e = do
    waited ← receive_step p (check_ok none) ctx e
    some (line_round cscs_send (codes "AT+CSCS=\"IRA\"") setup_timeout_ms waited)
  round cscs_send ctx e = some (send_round cscs_wait setup_timeout_ms ctx e)
  round cscs_wait ctx e = do
    waited ← receive_step p (check_ok none) ctx e
    some (line_round cmgs_send waited.1.cmgs_cmd prompt_timeout_ms waited)
  round cmgs_send ctx e = some (send_round prompt_wait prompt_timeout_ms ctx e)
  round prompt_wait ctx e = do waited ← receive_step p check_prompt ctx e; some (text_round waited)
  round text_send ctx e = some (ctrl_z_round ctx e)
  round ctrl_z_send ctx e = some (send_round result_wait ctx.submit_timeout_ms ctx e)
  round result_wait ctx e = do
    (ret, ctx', e') ← receive_step p check_sms_result ctx e
    some (break ret ctx' e')

  unfoldable pub finish : ℤ → Ctx Pipe E → E → Ctx Pipe E × E
  finish ret ctx e =
      let (attach_ret, e') : ℤ × E = elim ctx.pipe [
        | none ↦ (pos 0, e)
        | some pipe ↦ p.chat_attach pipe e
      ] in
      let ret' = if is_neg attach_ret && eqb_ℤ ret (pos 0) then attach_ret else ret in
      let e'' = if ctx.user_pipe_claimed then p.release e' else e' in
      (reset, elim ctx.complete_cb [ none ↦ e'' | some complete_cb ↦ complete_cb ret' e'' ])

  -- What follows a `break`.
  unfoldable pub leave : ℤ → Ctx Pipe E → E → Ctx Pipe E × E
  unfolding finish
  leave ret ctx e =
      let (sched_ret, e') = p.schedule poll_interval_ms e in
      if eqb_ℤ ret eagain
      then (if is_neg sched_ret then finish sched_ret ctx e' else (ctx, e'))
      else finish ret ctx e

  -- `while (ctx->active)`, with the rounds left.
  unfoldable pub rounds : ℕ → Ctx Pipe E → E → Option (Ctx Pipe E × E)
  unfolding round leave
  rounds zero ctx e = none
  rounds (suc n) ctx e =
      let stepped = round ctx.state ctx e in
      if ctx.active
      then elim stepped [
        | none ↦ none
        | some r ↦ elim r [
          | continue ctx' e' ↦ rounds n ctx' e'
          | break ret ctx' e' ↦ some (leave ret ctx' e')
        ]
      ]
      else some (ctx, e)

  -- There are twelve states, and no round goes back to an earlier one.
  unfoldable pub work_handler : Ctx Pipe E → E → Option (Ctx Pipe E × E)
  unfolding rounds
  work_handler ctx e = rounds 12 ctx e

  -- At most `n` reads; what is read is dropped.
  unfoldable pub drain_rx : ℕ → Pipe → E → ℤ × E
  drain_rx zero pipe e = (pos 0, e)
  drain_rx (suc n) pipe e =
      let (ret, _, e') = p.receive (some pipe) e in
      let rest = drain_rx n pipe e' in
      if is_neg ret then (ret, e') else if eqb_ℤ ret (pos 0) then (pos 0, e') else rest

  -- From `out:` on: the pipe goes back to the chat. The flags are left as they are there.
  unfoldable pub abandon : ℤ → Pipe → Ctx Pipe E → E → ℤ × Ctx Pipe E × E
  abandon ret pipe ctx e =
      let (attach_ret, e') = p.chat_attach pipe e in
      (
        if is_neg attach_ret && eqb_ℤ ret (pos 0) then attach_ret else ret,
        record reset { active = ctx.active; user_pipe_claimed = ctx.user_pipe_claimed },
        p.release e',
      )

  -- The pipe is claimed, open and drained.
  unfoldable pub launch :
      Bytes → Bytes → ℕ → Option (ℤ → E → E) → Pipe → Ctx Pipe E → E → ℤ × Ctx Pipe E × E
  unfolding prepare_line abandon
  launch cmgs_cmd text submit_timeout_ms complete_cb pipe ctx₀ e =
      let ctx = record ctx₀ {
        pipe = some pipe;
        complete_cb = complete_cb;
        state = cpin_send;
        submit_timeout_ms = submit_timeout_ms;
        cmgs_cmd = cmgs_cmd;
        text = text;
        seen_cmgs = false;
        seen_ok = false;
        active = true;
        user_pipe_claimed = true;
      } in
      let (line_ret, ctx') = prepare_line p (codes "AT+CPIN?") setup_timeout_ms ctx e in
      let (sched_ret, e') = p.schedule 0 e in
      let stopped = record ctx' { active = false; user_pipe_claimed = false } in
      if is_neg line_ret
      then abandon line_ret pipe stopped e
      else if is_neg sched_ret
      then abandon sched_ret pipe stopped e'
      else (pos 0, ctx', e')

  -- The pipe is open, and what it still held has been read.
  unfoldable pub drained :
      Bytes → Bytes → ℕ → Option (ℤ → E → E) → Pipe → Ctx Pipe E → ℤ × E → ℤ × Ctx Pipe E × E
  unfolding launch abandon
  drained cmgs_cmd text submit_timeout_ms complete_cb pipe ctx (drain_ret, e) =
      if is_neg drain_ret
      then abandon drain_ret pipe ctx e
      else launch cmgs_cmd text submit_timeout_ms complete_cb pipe ctx e

  unfoldable pub opened :
      Bytes → Bytes → ℕ → Option (ℤ → E → E) → Pipe → Ctx Pipe E → ℤ × E → ℤ × Ctx Pipe E × E
  unfolding drained drain_rx abandon
  opened cmgs_cmd text submit_timeout_ms complete_cb pipe ctx (open_ret, e) =
      if is_neg open_ret
      then abandon open_ret pipe ctx e
      else drained cmgs_cmd text submit_timeout_ms complete_cb pipe ctx (drain_rx 64 pipe e)

  -- The pipe is there.
  unfoldable pub claim_and_launch :
      Bytes → Bytes → ℕ → Option (ℤ → E → E) → Pipe → Ctx Pipe E → E → ℤ × Ctx Pipe E × E
  unfolding opened
  claim_and_launch cmgs_cmd text submit_timeout_ms complete_cb pipe ctx e =
      let (claim_ret, e') = p.claim e in
      if is_neg claim_ret
      then (claim_ret, ctx, e')
      else opened cmgs_cmd text submit_timeout_ms complete_cb pipe ctx
          (p.open_async pipe (p.chat_release e'))

  -- The early returns of `tb45_sms_at_send_text_raw_async_cb` before the pipe is asked for, in their
  -- order; `text_max_len` is CONFIG_APP_TB45_SMS_TEXT_MAX_LEN.
  unfoldable pub refusal : ℕ → Bytes → Bytes → ℕ → Ctx Pipe E → E → Option ℤ
  refusal text_max_len c t ms ctx e =
      if ltb ms min_timeout_ms || ltb max_timeout_ms ms
      then some einval
      else if not (p.wq_ready e)
      then some eagain
      else if ctx.active
      then some ebusy
      else if length c == 0
          || leb raw_cmd_buf_size (length c)
          || length t == 0
          || leb (text_max_len + 1) (length t)
      then some einval
      else none

  -- A NULL text is `none`, and so is a negative timeout, which is out of range.
  unfoldable pub send_text_raw_async_cb :
      ℕ
      → Option Bytes
      → Option Bytes
      → Option ℕ
      → Option (ℤ → E → E)
      → Ctx Pipe E
      → E
      → ℤ × Ctx Pipe E × E
  unfolding claim_and_launch refusal
  send_text_raw_async_cb text_max_len none text submit_timeout_ms cb ctx e = (einval, ctx, e)
  send_text_raw_async_cb text_max_len (some c) none submit_timeout_ms cb ctx e = (einval, ctx, e)
  send_text_raw_async_cb text_max_len (some c) (some t) none cb ctx e = (einval, ctx, e)
  send_text_raw_async_cb text_max_len (some c) (some t) (some ms) cb ctx e =
      elim (refusal text_max_len c t ms ctx e) [
        | some ret ↦ (ret, ctx, e)
        | none ↦ elim (p.get_pipe e) [
          | none ↦ (enodev, ctx, e)
          | some pipe ↦ claim_and_launch c t ms cb pipe ctx e
        ]
      ]
