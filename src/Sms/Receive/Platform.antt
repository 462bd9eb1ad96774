-- ===== src/Sms/Receive/Platform.antt =====
-- What the receiving part of tb45_sms.c calls: the work queue with its poll item, the timers of the
-- two retry objects, the three message queues, tb45_sms_event.c, and the AT commands of
-- tb45_sms_at_helper.c, whose scripts AtHelper/Script models. `E` is the state behind all of these.
use tibbit.Common.{ℕ, Bool, ℤ, Bytes}
use tibbit.Kernel.{MsgQueue}

-- `struct tb45_sms_rx_trigger`
pub record Trigger : Type 0 where
  pub storage_index : ℕ
  pub full_scan : ℕ

-- `struct tb45_sms_rx_notice`
pub record Notice : Type 0 where
  pub storage_index : ℕ
  pub status : ℤ

pub record Services (E : Type 0) : Type 0 where
  pub thread_ready : E → Bool  -- k_work_queue_thread_get(&low_priority_wq) != NULL
  pub poll_submit : E → ℤ × E  -- k_work_poll_submit_to_queue
  pub init_submit : E → ℤ × E  -- k_work_submit_to_queue, of the continue work of the setup
  pub capture_submit : E → ℤ × E  -- the same of the capture
  pub init_reschedule : ℕ → E → ℤ × E  -- k_work_reschedule_for_queue, of the retry of the setup
  pub delete_reschedule : ℕ → E → ℤ × E  -- the same of the deletions
  pub triggers : MsgQueue Trigger E
  pub triggers_used : E → ℕ  -- k_msgq_num_used_get
  pub notices : MsgQueue Notice E
  pub deletes : MsgQueue ℕ E
  pub notify_rx_message : ℕ → ℤ → E → E  -- tb45_sms_event_notify_rx_message
  pub init_command : Bytes → E → ℤ × E  -- tb45_sms_at_run_async_cb, with init_at_complete
  pub delete_command : Bytes → E → ℤ × E  -- the same with delete_at_complete
  pub capture_command : Bytes → E → ℤ × E  -- tb45_sms_at_run_async_capture_cb
  pub captured : E → Bytes  -- what the capture buffer holds
