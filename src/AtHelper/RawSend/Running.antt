-- ===== src/AtHelper/RawSend/Running.antt =====
-- The rounds of the work handler keep the claim and the callback of the send.
use tibbit.Common.{
  ℕ, zero, suc, ◌+◌, ◌≡◌, ◌⊎◌, true, false, Option, none, some, ℤ, arith, length, Bytes, codes,
  take, drop, pos_part, ◌-◌, ◌>>=◌,
}
use tibbit.AtHelper.Window.{buf_append, rx_buf_size}
use tibbit.AtHelper.Platform.{Services, PipeLaws}
use tibbit.AtHelper.RawSend.{
  State, idle, cpin_send, cpin_wait, cmgf_send, cmgf_wait, cscs_send, cscs_wait, cmgs_send,
  prompt_wait, text_send, ctrl_z_send, result_wait, Ctx, Round, continue, break, transmit_loop,
  transmit_step, prepare_wait, prepare_line, prepare_transmit, receive_loop, receive_step, check_ok,
  check_prompt, check_sms_result,
}
use tibbit.AtHelper.RawSend.Machine.{
  send_round, line_round, text_round, ctrl_z_round, round, leave, finish,
}
use tibbit.AtHelper.RawSend.Trace.{Traced, traced, report}

module _ {Pipe E : Type 0} (p : Services Pipe E) (laws : PipeLaws p) (callback : ℤ → E → E) where
  -- No send is under way.
  pub record Free (ctx : Ctx Pipe (Traced E)) (t : Traced E) : Type 0 where
    pub inactive : ctx.active ≡ false
    pub unclaimed : ctx.user_pipe_claimed ≡ false
    pub balanced : t.claims ≡ t.releases
    pub disarmed : t.armed ≡ false
    pub all_reported : length t.reported ≡ t.accepted

  -- A send is under way, and the handler is not running.
  pub record Sending (ctx : Ctx Pipe (Traced E)) (t : Traced E) : Type 0 where
    pub active : ctx.active ≡ true
    pub claimed : ctx.user_pipe_claimed ≡ true
    pub callback_kept : ctx.complete_cb ≡ some (report p callback)
    pub one_claim : t.claims ≡ t.releases + 1
    pub is_armed : t.armed ≡ true
    pub one_to_report : length t.reported + 1 ≡ t.accepted

  -- A send is under way, inside the handler.
  pub record Running (ctx : Ctx Pipe (Traced E)) (t : Traced E) : Type 0 where
    pub active : ctx.active ≡ true
    pub claimed : ctx.user_pipe_claimed ≡ true
    pub callback_kept : ctx.complete_cb ≡ some (report p callback)
    pub one_claim : t.claims ≡ t.releases + 1
    pub not_armed : t.armed ≡ false
    pub one_to_report : length t.reported + 1 ≡ t.accepted

  abbrev pub IsValid : Ctx Pipe (Traced E) → Traced E → Type 0
  IsValid ctx t = Free ctx t ⊎ Sending ctx t

  transmit_loop-Running :
      (n : ℕ) (ctx : Ctx Pipe (Traced E)) (t : Traced E)
      → Running ctx t
      → let (_, ctx', t') = transmit_loop (traced p callback) n ctx t in Running ctx' t'
  unfolding transmit_loop
  transmit_loop-Running zero ctx t h = h
  transmit_loop-Running (suc n) ctx t h =
      let (ret, t') = (traced p callback).transmit ctx.pipe (drop ctx.tx_offset ctx.tx_buf) t in
      ground (
        arith,
        transmit_loop-Running n (record ctx { tx_offset = ctx.tx_offset + pos_part ret }) t',
      )

  transmit_step-Running :
      (ctx : Ctx Pipe (Traced E)) (t : Traced E)
      → Running ctx t
      → let (_, ctx', t') = transmit_step (traced p callback) ctx t in Running ctx' t'
  unfolding transmit_step
  transmit_step-Running ctx t h = transmit_loop-Running (length ctx.tx_buf - ctx.tx_offset) ctx t h

  -- A check only looks at the window and notes what it has seen.
  abbrev Harmless : (Ctx Pipe (Traced E) → Option ℤ × Ctx Pipe (Traced E)) → Type 0
  Harmless check =
      (ctx : Ctx Pipe (Traced E)) (t : Traced E) → Running ctx t → Running (check ctx).1 t

  check_ok-Harmless : (required_token : Option Bytes) → Harmless (check_ok required_token)
  unfolding check_ok
  check_ok-Harmless required_token ctx t h = ground arith

  check_prompt-Harmless : Harmless check_prompt
  unfolding check_prompt
  check_prompt-Harmless ctx t h = ground arith

  check_sms_result-Harmless : Harmless check_sms_result
  unfolding check_sms_result
  check_sms_result-Harmless ctx t h = ground arith

  abbrev Kept : Option (ℤ × Ctx Pipe (Traced E) × Traced E) → Type 0
  Kept none = Unit
  Kept (some (ret, ctx, t)) = Running ctx t

  receive_loop-Kept :
      (check : Ctx Pipe (Traced E) → Option ℤ × Ctx Pipe (Traced E)) (harmless : Harmless check)
      (n : ℕ) (ctx : Ctx Pipe (Traced E)) (t : Traced E)
      → Running ctx t
      → Kept (receive_loop (traced p callback) check n ctx t)
  unfolding receive_loop
  receive_loop-Kept check harmless zero ctx t h = tt
  receive_loop-Kept check harmless (suc n) ctx t h =
      let (ret, chunk, t') = (traced p callback).receive ctx.pipe t in
      let window = buf_append rx_buf_size ctx.rx_buf (take (pos_part ret) chunk) in
      let ctx' : Ctx Pipe (Traced E) = record ctx { rx_buf = window } in
      ground (arith, harmless ctx' t', receive_loop-Kept check harmless n (check ctx').1 t')

  receive_step-Kept :
      (check : Ctx Pipe (Traced E) → Option ℤ × Ctx Pipe (Traced E)) (harmless : Harmless check)
      (ctx : Ctx Pipe (Traced E)) (t : Traced E)
      → Running ctx t
      → Kept (receive_step (traced p callback) check ctx t)
  unfolding receive_step
  receive_step-Kept check harmless ctx t h =
      receive_loop-Kept check harmless (suc (p.unread t.inner)) ctx t h

  finish-Free :
      (ret : ℤ) (ctx : Ctx Pipe (Traced E)) (t : Traced E)
      → Running ctx t
      → let (ctx', t') = finish (traced p callback) ret ctx t in Free ctx' t'
  unfolding finish
  finish-Free ret ctx t h = ground arith

  pub leave-IsValid :
      (ret : ℤ) (ctx : Ctx Pipe (Traced E)) (t : Traced E)
      → Running ctx t
      → let (ctx', t') = leave (traced p callback) ret ctx t in IsValid ctx' t'
  unfolding leave
  leave-IsValid ret ctx t h =
      let (sched_ret, t') = (traced p callback).schedule 10 t in
      ground (arith, finish-Free ret ctx t, finish-Free sched_ret ctx t')

  abbrev pub Next : Round Pipe (Traced E) → Type 0
  Next (continue ctx t) = Running ctx t
  Next (break ret ctx t) = Running ctx t

  send_round-Next :
      (next : State) (ms : ℕ) (ctx : Ctx Pipe (Traced E)) (t : Traced E)
      → Running ctx t
      → Next (send_round (traced p callback) next ms ctx t)
  unfolding send_round prepare_wait
  send_round-Next next ms ctx t h = ground (arith, transmit_step-Running ctx t h)

  line_round-Next :
      (next : State) (line : Bytes) (ms : ℕ) (ret : ℤ) (ctx : Ctx Pipe (Traced E)) (t : Traced E)
      → Running ctx t
      → Next (line_round (traced p callback) next line ms (ret, ctx, t))
  unfolding line_round prepare_line prepare_transmit
  line_round-Next next line ms ret ctx t h = ground arith

  text_round-Next :
      (ret : ℤ) (ctx : Ctx Pipe (Traced E)) (t : Traced E)
      → Running ctx t
      → Next (text_round (traced p callback) (ret, ctx, t))
  unfolding text_round prepare_transmit
  text_round-Next ret ctx t h = ground arith

  ctrl_z_round-Next :
      (ctx : Ctx Pipe (Traced E)) (t : Traced E)
      → Running ctx t
      → Next (ctrl_z_round (traced p callback) ctx t)
  unfolding ctrl_z_round prepare_transmit
  ctrl_z_round-Next ctx t h = ground (arith, transmit_step-Running ctx t h)

  abbrev pub Nexts : Option (Round Pipe (Traced E)) → Type 0
  Nexts none = Unit
  Nexts (some r) = Next r

  -- A round that waits, and goes on by a `then_round` that keeps the send running.
  waits-Nexts :
      (check : Ctx Pipe (Traced E) → Option ℤ × Ctx Pipe (Traced E)) (harmless : Harmless check)
      (then_round : ℤ × Ctx Pipe (Traced E) × Traced E → Round Pipe (Traced E))
      → ((ret : ℤ) (ctx : Ctx Pipe (Traced E)) (t : Traced E)
          → Running ctx t
          → Next (then_round (ret, ctx, t)))
      → (ctx : Ctx Pipe (Traced E)) (t : Traced E) → Running ctx t
      → Nexts (receive_step (traced p callback) check ctx t >>= λ w. some (then_round w))
  waits-Nexts check harmless then_round keeps ctx t h =
      after (receive_step (traced p callback) check ctx t)
        (receive_step-Kept check harmless ctx t h)
    where
      after :
          (o : Option (ℤ × Ctx Pipe (Traced E) × Traced E))
          → Kept o
          → Nexts (o >>= λ w. some (then_round w))
      after none k = tt
      after (some (ret, c, u)) k = keeps ret c u k

  pub round-Nexts :
      (s : State) (ctx : Ctx Pipe (Traced E)) (t : Traced E)
      → Running ctx t
      → Nexts (round (traced p callback) s ctx t)
  unfolding round
  round-Nexts idle ctx t h = h
  round-Nexts cpin_send ctx t h = send_round-Next cpin_wait 10000 ctx t h
  round-Nexts cpin_wait ctx t h =
      waits-Nexts (check_ok (some (codes "+CPIN: READY"))) (check_ok-Harmless _)
        (line_round (traced p callback) cmgf_send (codes "AT+CMGF=1") 10000)
        (line_round-Next cmgf_send (codes "AT+CMGF=1") 10000) ctx t h
  round-Nexts cmgf_send ctx t h = send_round-Next cmgf_wait 10000 ctx t h
  round-Nexts cmgf_wait ctx t h =
      waits-Nexts (check_ok none) (check_ok-Harmless none)
        (line_round (traced p callback) cscs_send (codes "AT+CSCS=\"IRA\"") 10000)
        (line_round-Next cscs_send (codes "AT+CSCS=\"IRA\"") 10000) ctx t h
  round-Nexts cscs_send ctx t h = send_round-Next cscs_wait 10000 ctx t h
  round-Nexts cscs_wait ctx t h =
      waits-Nexts (check_ok none) (check_ok-Harmless none)
        (λ w. line_round (traced p callback) cmgs_send w.1.cmgs_cmd 10000 w)
        (λ ret c u k. line_round-Next cmgs_send c.cmgs_cmd 10000 ret c u k) ctx t h
  round-Nexts cmgs_send ctx t h = send_round-Next prompt_wait 10000 ctx t h
  round-Nexts prompt_wait ctx t h =
      waits-Nexts check_prompt check_prompt-Harmless (text_round (traced p callback))
        text_round-Next ctx t h
  round-Nexts text_send ctx t h = ctrl_z_round-Next ctx t h
  round-Nexts ctrl_z_send ctx t h = send_round-Next result_wait ctx.submit_timeout_ms ctx t h
  round-Nexts result_wait ctx t h =
      waits-Nexts check_sms_result check_sms_result-Harmless (λ (ret, c, u). break ret c u)
        (λ ret c u k. k) ctx t h
