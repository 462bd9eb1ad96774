-- ===== src/AtHelper/Platform.antt =====
-- What tb45_sms_at_helper.c calls: the modem's pipe and chat, the claim on the user pipe, the clock
-- and the low priority work queue. `Pipe` is a pipe's handle, `E` the state of everything outside.
use tibbit.Common.{ℕ, ◌<◌, Bool, Option, ℤ, pos_part, Bytes}

pub record Services (Pipe E : Type 0) : Type 0 where
  pub uptime : E → ℕ  -- k_uptime_get
  pub wq_ready : E → Bool  -- k_work_queue_thread_get(&low_priority_wq) != NULL
  pub schedule : ℕ → E → ℤ × E  -- k_work_reschedule_for_queue, in milliseconds
  pub get_pipe : E → Option Pipe  -- modem_pipelink_get_pipe
  pub claim : E → ℤ × E  -- modem_at_user_pipe_claim
  pub release : E → E  -- modem_at_user_pipe_release
  pub chat_attach : Pipe → E → ℤ × E  -- modem_chat_attach
  pub chat_release : E → E  -- modem_chat_release
  pub open_async : Pipe → E → ℤ × E  -- modem_pipe_open_async
  pub transmit : Option Pipe → Bytes → E → ℤ × E  -- modem_pipe_transmit
  pub receive : Option Pipe → E → ℤ × Bytes × E  -- modem_pipe_receive, with the filled chunk
  pub unread : E → ℕ  -- a bound on the bytes that can still be received at once

-- `modem_pipe_receive` takes bytes out of a finite buffer: a call that gives any leaves fewer.
pub record PipeLaws {Pipe E : Type 0} (p : Services Pipe E) : Type 0 where
  pub receive_takes :
      (pipe : Option Pipe) (e : E)
      → 0 < pos_part (p.receive pipe e).0
      → p.unread (p.receive pipe e).2 < p.unread e
