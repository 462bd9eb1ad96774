-- ===== src/AtHelper/RawSend.antt =====
-- tb45_sms_at_helper.c: sending one text message asynchronously, a state machine on a delayable
-- work item (`tb45_sms_at_raw_send_*`). A pointer into `line_buf` or `text` with its length is the
-- list of the bytes that it points to: those bytes are not written while they are being sent.
-- The calls of `k_uptime_get` read the clock after the call before them. The loops that read until
-- the pipe is dry take as fuel the bound `unread` that the pipe gives; `none` is a loop that has
-- not ended.
pub mod Machine
pub mod Total
pub mod Trace
pub mod Running
pub mod Submit
pub mod Once
pub mod Transcript
pub mod Written
pub mod Script
pub mod Handled
pub mod Delivery
mod Tests
use tibbit.Common.{
  ℕ, zero, suc, ◌+◌, ◌-◌, Bool, true, false, not, ◌||◌, ◌&&◌, Option, none, some, ℤ, pos, negsuc,
  is_neg, eqb_ℤ, pos_part, leb, ltb, ◌==◌, if◌then◌else◌, [], ◌∷◌, ◌++◌, length, take, drop, ◌>>=◌,
  Bytes, codes,
}
use tibbit.Common.Errno.{einval, eio, eagain, etimedout, ebusy, enodev}
use tibbit.AtHelper.Window.{rx_buf_size, buf_append, buf_contains, has_error}
use tibbit.AtHelper.Platform.{Services}

abbrev pub setup_timeout_ms : ℕ
setup_timeout_ms = 10000

abbrev pub prompt_timeout_ms : ℕ
prompt_timeout_ms = 10000

abbrev pub poll_interval_ms : ℕ
poll_interval_ms = 10

abbrev pub min_timeout_ms : ℕ
min_timeout_ms = 100

abbrev pub max_timeout_ms : ℕ
max_timeout_ms = 600000

-- TB45_SMS_AT_RAW_CMD_BUF_SIZE; `line_buf` has one byte more.
abbrev pub raw_cmd_buf_size : ℕ
raw_cmd_buf_size = 64

pub data State : Type 0 where
  idle cpin_send cpin_wait cmgf_send cmgf_wait cscs_send cscs_wait cmgs_send prompt_wait : State
  text_send ctrl_z_send result_wait : State

pub record Ctx (Pipe E : Type 0) : Type 0 where
  pub pipe : Option Pipe
  pub complete_cb : Option (ℤ → E → E)
  pub state : State
  pub tx_buf : Bytes  -- with tx_len
  pub tx_offset : ℕ
  pub rx_buf : Bytes  -- with rx_len
  pub deadline_ms : ℕ
  pub submit_timeout_ms : ℕ
  pub cmgs_cmd : Bytes
  pub line_buf : Bytes
  pub text : Bytes
  pub seen_cmgs : Bool
  pub seen_ok : Bool
  pub active : Bool
  pub user_pipe_claimed : Bool

-- What `finish` and the failed starts leave, and `tb45_sms_at_init` begins with.
abbrev pub reset : {Pipe E : Type 0} → Ctx Pipe E
reset = record {
  pipe = none;
  complete_cb = none;
  state = State.idle;
  tx_buf = [];
  tx_offset = 0;
  rx_buf = [];
  deadline_ms = 0;
  submit_timeout_ms = 0;
  cmgs_cmd = [];
  line_buf = [];
  text = [];
  seen_cmgs = false;
  seen_ok = false;
  active = false;
  user_pipe_claimed = false;
}

-- The rest of an iteration of the work handler: `continue`, or a `break` with its `ret`.
pub data Round (Pipe E : Type 0) : Type 0 where
  continue : Ctx Pipe E → E → Round Pipe E
  break : ℤ → Ctx Pipe E → E → Round Pipe E

module _ {Pipe E : Type 0} (p : Services Pipe E) where
  unfoldable pub prepare_wait : ℕ → Ctx Pipe E → E → Ctx Pipe E
  prepare_wait timeout_ms ctx e = record ctx {
    rx_buf = [];
    deadline_ms = p.uptime e + timeout_ms;
    seen_cmgs = false;
    seen_ok = false;
  }

  unfoldable pub prepare_transmit : Bytes → ℕ → Ctx Pipe E → E → Ctx Pipe E
  prepare_transmit buf timeout_ms ctx e = record ctx {
    tx_buf = buf;
    tx_offset = 0;
    deadline_ms = p.uptime e + timeout_ms;
  }

  -- Neither pointer is NULL where it is called.
  unfoldable pub prepare_line : Bytes → ℕ → Ctx Pipe E → E → ℤ × Ctx Pipe E
  unfolding prepare_transmit
  prepare_line line timeout_ms ctx e =
      let sent : Bytes = line ++ b'\r' ∷ [] in
      if leb raw_cmd_buf_size (length line)
      then (einval, ctx)
      else (pos 0, prepare_transmit sent timeout_ms (record ctx { line_buf = sent }) e)

  -- The answer to a pipe call that moved no byte.
  unfoldable pub no_progress : Ctx Pipe E → E → ℤ
  no_progress ctx e = if leb ctx.deadline_ms (p.uptime e) then etimedout else eagain

  -- The loop of `transmit_step`. Each round but the last moves at least one byte, so it makes at
  -- most as many rounds as there are bytes left.
  unfoldable pub transmit_loop : ℕ → Ctx Pipe E → E → ℤ × Ctx Pipe E × E
  unfolding no_progress
  transmit_loop zero ctx e = (pos 0, ctx, e)
  transmit_loop (suc n) ctx e =
      let (ret, e') = p.transmit ctx.pipe (drop ctx.tx_offset ctx.tx_buf) e in
      let rest = transmit_loop n (record ctx { tx_offset = ctx.tx_offset + pos_part ret }) e' in
      if not (ltb ctx.tx_offset (length ctx.tx_buf))
      then (pos 0, ctx, e)
      else if is_neg ret
      then (ret, ctx, e')
      else if eqb_ℤ ret (pos 0)
      then (no_progress ctx e', ctx, e')
      else rest

  unfoldable pub transmit_step : Ctx Pipe E → E → ℤ × Ctx Pipe E × E
  unfolding transmit_loop
  transmit_step ctx e = transmit_loop (length ctx.tx_buf - ctx.tx_offset) ctx e

  -- The three waiting steps are this loop, with what each does where no error was seen: it answers
  -- its result, or none to read on.
  unfoldable pub receive_loop :
      (Ctx Pipe E → Option ℤ × Ctx Pipe E) → ℕ → Ctx Pipe E → E → Option (ℤ × Ctx Pipe E × E)
  unfolding no_progress
  receive_loop check zero ctx e = none
  receive_loop check (suc n) ctx e =
      let (ret, chunk, e') = p.receive ctx.pipe e in
      let ctx' = record ctx {
        rx_buf = buf_append rx_buf_size ctx.rx_buf (take (pos_part ret) chunk);
      } in
      let (found, ctx'') = check ctx' in
      let rest = receive_loop check n ctx'' e' in
      if is_neg ret
      then some (ret, ctx, e')
      else if eqb_ℤ ret (pos 0)
      then some (no_progress ctx e', ctx, e')
      else if has_error ctx'.rx_buf
      then some (eio, ctx', e')
      else elim found [ none ↦ rest | some r ↦ some (r, ctx'', e') ]

  unfoldable pub receive_step :
      (Ctx Pipe E → Option ℤ × Ctx Pipe E) → Ctx Pipe E → E → Option (ℤ × Ctx Pipe E × E)
  unfolding receive_loop
  receive_step check ctx e = receive_loop check (suc (p.unread e)) ctx e

abbrev pub ok_token : Bytes
ok_token = codes "\r\nOK\r\n"

module _ {Pipe E : Type 0} where
  -- In `wait_for_ok_step`.
  unfoldable pub check_ok : Option Bytes → Ctx Pipe E → Option ℤ × Ctx Pipe E
  check_ok required_token ctx =
      let missing : Bool = elim required_token [
        | none ↦ false
        | some t ↦ not (buf_contains ctx.rx_buf t)
      ] in
      if buf_contains ctx.rx_buf ok_token
      then (if missing then (some eio, ctx) else (some (pos 0), ctx))
      else (none, ctx)

  -- In `wait_for_prompt_step`.
  unfoldable pub check_prompt : Ctx Pipe E → Option ℤ × Ctx Pipe E
  check_prompt ctx =
      if buf_contains ctx.rx_buf (codes "> ") || buf_contains ctx.rx_buf (codes ">")
      then (some (pos 0), ctx)
      else (none, ctx)

  -- In `wait_for_sms_result_step`.
  unfoldable pub check_sms_result : Ctx Pipe E → Option ℤ × Ctx Pipe E
  check_sms_result ctx =
      let ctx' = record ctx {
        seen_cmgs = ctx.seen_cmgs || buf_contains ctx.rx_buf (codes "+CMGS:");
        seen_ok = ctx.seen_ok || buf_contains ctx.rx_buf ok_token;
      } in
      if ctx'.seen_cmgs && ctx'.seen_ok then (some (pos 0), ctx') else (none, ctx')
