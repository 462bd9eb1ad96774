-- ===== src/Sms/Receive/Init.antt =====
-- tb45_sms.c: setting the modem up for receiving, one AT command after the other, as a retried
-- operation. `init_command` registers `init_at_complete` to be called with the result.
use tibbit.Common.{
  ℕ, Bool, true, false, ◌++◌, Option, some, ℤ, pos, is_neg, eqb_ℤ, leb, if◌then◌else◌, length,
  Bytes, codes,
}
use tibbit.Common.Errno.{eperm, ebusy, einval, einprogress}
use tibbit.DelayableRetry
use tibbit.DelayableRetry.{Ops, Retry}
use tibbit.Sms.Receive.Platform.{Services}
use tibbit.Sms.Receive.{InitState, Rx, Config, next_count, init_is_ready, init_kick_pending_trigger}

abbrev pub init_retry_delay : ℕ
init_retry_delay = 2000

abbrev pub init_pipe_wait_delay_ms : ℕ
init_pipe_wait_delay_ms = 2000

abbrev pub init_busy_delay_ms : ℕ
init_busy_delay_ms = 250

unfoldable pub cpms_cmd : Config → Bytes
cpms_cmd c =
    codes "AT+CPMS=\""
    ++ c.storage
    ++ codes "\",\""
    ++ c.storage
    ++ codes "\",\""
    ++ c.storage
    ++ codes "\""

-- What a step does: it sends a command, or it answers at once.
pub data Step : Type 0 where
  send : Bytes → Step
  answer : ℤ → Step

unfoldable pub step_of : Config → InitState → Step
unfolding cpms_cmd
step_of c InitState.cmgf = Step.send (codes "AT+CMGF=1")
step_of c InitState.cscs = Step.send (codes "AT+CSCS=\"IRA\"")
step_of c InitState.cpms =
    if leb 48 (length (cpms_cmd c)) then Step.answer einval else Step.send (cpms_cmd c)
step_of c InitState.cnmi = Step.send (codes "AT+CNMI=2,1,0,0,0")
step_of c InitState.cleanup = Step.send (codes "AT+CMGD=1,4")
step_of c InitState.ready = Step.answer (pos 0)
step_of c InitState.idle = Step.answer einval

-- `state == TB45_SMS_RX_INIT_STATE_READY`
abbrev pub is_ready_state : InitState → Bool
is_ready_state InitState.ready = true
is_ready_state InitState.idle = false
is_ready_state InitState.cmgf = false
is_ready_state InitState.cscs = false
is_ready_state InitState.cpms = false
is_ready_state InitState.cnmi = false
is_ready_state InitState.cleanup = false

module _ {E : Type 0} where
  -- The `switch` of `tb45_sms_rx_init_at_complete`
  unfoldable pub advance : Config → Rx E → Rx E
  advance c r = elim r.init_ctx.state [
    | InitState.idle ↦ r
    | InitState.cmgf ↦ record r { init_ctx = record (r.init_ctx) { state = InitState.cscs } }
    | InitState.cscs ↦ record r { init_ctx = record (r.init_ctx) { state = InitState.cpms } }
    | InitState.cpms ↦ record r { init_ctx = record (r.init_ctx) { state = InitState.cnmi } }
    | InitState.cnmi ↦ record r {
      setup_done = true;
      init_ctx = record (r.init_ctx) {
        state = if c.startup_cleanup then InitState.cleanup else InitState.ready;
      };
    }
    | InitState.cleanup ↦ record r {
      cleanup_done = true;
      init_ctx = record (r.init_ctx) { state = InitState.ready };
    }
    | InitState.ready ↦ r
  ]

  unfoldable pub set_last_ret : ℤ → Rx E → Rx E
  set_last_ret ret r = record r { init_ctx = record (r.init_ctx) { last_ret = ret } }

  unfoldable pub set_state : InitState → Rx E → Rx E
  set_state state r = record r { init_ctx = record (r.init_ctx) { state = state } }

module _ {E : Type 0} (c : Config) (p : Services E) where
  unfoldable pub run_command : Bytes → Rx E → ℤ × Rx E
  unfolding set_last_ret
  run_command cmd r =
      let (ret, env) = p.init_command cmd r.env in
      let r' = record r { env = env } in
      if is_neg ret then (ret, set_last_ret ret r') else (einprogress, r')

  unfoldable pub init_start_step : Rx E → ℤ × Rx E
  unfolding step_of run_command
  init_start_step r = elim (step_of c r.init_ctx.state) [
    | send cmd ↦ run_command cmd r
    | answer ret ↦ (ret, r)
  ]

  unfoldable pub init_run_attempt : ℕ → Rx E → ℤ × Rx E
  unfolding init_is_ready set_state init_start_step
  init_run_attempt attempt r =
      let state = if r.setup_done then InitState.cleanup else InitState.cmgf in
      if init_is_ready c r
      then (pos 0, set_state InitState.ready r)
      else init_start_step (set_state state r)

  unfoldable pub init_retry_delay_ms : ℕ → Rx E → ℕ × Rx E
  init_retry_delay_ms attempt r =
      let delay =
        if eqb_ℤ r.init_ctx.last_ret eperm
        then init_pipe_wait_delay_ms
        else if eqb_ℤ r.init_ctx.last_ret ebusy
        then init_busy_delay_ms
        else init_retry_delay in
      (delay, r)

  unfoldable pub init_attempt_failed : ℤ → ℕ → ℕ → Rx E → Rx E
  unfolding set_last_ret
  init_attempt_failed ret attempt max_attempts r = record (set_last_ret ret r) {
    init_retry_count = next_count r.init_retry_count;
  }

  unfoldable pub init_complete : ℤ → Rx E → Rx E
  unfolding init_kick_pending_trigger
  init_complete ret r =
      if eqb_ℤ ret (pos 0)
      then init_kick_pending_trigger p (record r { init_completed_logged = true })
      else r

  unfoldable pub init_retry_ops : Ops (Rx E)
  unfolding init_run_attempt init_retry_delay_ms init_attempt_failed init_complete
  init_retry_ops = record {
    run_attempt = some init_run_attempt;
    retry_delay_ms = some init_retry_delay_ms;
    attempt_failed = some init_attempt_failed;
    complete = some init_complete;
  }

  unfoldable pub init_reschedule : ℕ → Rx E → ℤ × Rx E
  init_reschedule delay_ms r =
      let (ret, env) = p.init_reschedule delay_ms r.env in (ret, record r { env = env })

  -- `tb45_delayable_retry_complete(&ctx->retry, ret)`
  unfoldable pub init_retry_complete :
      ℤ → Option (Retry (Rx E)) → Rx E → Option (Retry (Rx E)) × Rx E
  unfolding init_reschedule DelayableRetry.complete
  init_retry_complete ret retry r =
      let (_, retry', r') = DelayableRetry.complete init_reschedule retry ret r in (retry', r')

  unfoldable pub init_at_complete : ℤ → Option (Retry (Rx E)) → Rx E → Option (Retry (Rx E)) × Rx E
  unfolding set_last_ret advance init_retry_complete
  init_at_complete ret retry r =
      let next = advance c r in
      let (submit_ret, env) = p.init_submit next.env in
      let next' = record next { env = env } in
      if is_neg ret
      then init_retry_complete ret retry (set_last_ret ret r)
      else if is_ready_state next.init_ctx.state
      then init_retry_complete (pos 0) retry next
      else if is_neg submit_ret
      then init_retry_complete submit_ret retry (set_last_ret submit_ret next')
      else (retry, next')

  unfoldable pub init_continue_work_handler :
      Option (Retry (Rx E)) → Rx E → Option (Retry (Rx E)) × Rx E
  unfolding set_last_ret init_start_step init_retry_complete
  init_continue_work_handler retry r =
      let (start_ret, r') = init_start_step r in
      if eqb_ℤ start_ret einprogress
      then (retry, r')
      else init_retry_complete start_ret retry (set_last_ret start_ret r')
