-- ===== src/Events/Platform.antt =====
-- What tb45_sms_event.c calls: the work queue with its two poll items, the queue of events, the
-- clock, and tb45_sms.c, whose ring of results is Sms/ResultQueue and whose triggers are
-- Sms/Receive. `E` is the state behind all of these.
use tibbit.Common.{ℕ, Bool, Option, ℤ, Bytes}
use tibbit.Kernel.{MsgQueue}
use tibbit.Sms.Request.{SmsResult}

-- `enum tb45_sms_event_type`, each with the part of `data` that goes with it
pub data EventType : Type 0 where
  receive_serial_status : EventType
  receive_msg_output : ℕ → EventType
  send_msg_status : ℕ → Bytes → EventType

-- `struct tb45_sms_event`
pub record SmsEvent : Type 0 where
  pub event_type : EventType
  pub timestamp_ms : ℕ
  pub status : ℤ

pub record Services (E : Type 0) : Type 0 where
  pub thread_ready : E → Bool  -- k_work_queue_thread_get(&low_priority_wq) != NULL
  pub dispatch_submit : E → ℤ × E  -- k_work_poll_submit_to_queue, of the item for events
  pub result_submit : E → ℤ × E  -- the same of the item for results
  pub events : MsgQueue SmsEvent E
  pub uptime : E → ℕ  -- k_uptime_get_32
  pub result_wait : E → ℤ × Option SmsResult × E  -- tb45_sms_result_wait with K_NO_WAIT
  pub trigger_scan : E → ℤ × E  -- tb45_sms_receive_trigger_scan
  pub trigger_index : ℕ → E → ℤ × E  -- tb45_sms_receive_trigger_index
