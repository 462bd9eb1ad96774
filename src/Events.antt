-- ===== src/Events.antt =====
-- tb45_sms_event.c: events about messages, which go through a queue, and the results of sends, which
-- come from the ring of tb45_sms.c, to the one callback of the application. A callback has its user
-- data in it; without one an event is only logged, which is left out.
pub mod Platform
pub mod Delivery
mod Tests
use tibbit.Common.{
  ℕ, zero, suc, ◌+◌, ◌-◌, ◌%◌, ◌^◌, Bool, true, false, not, Option, none, some, ℤ, pos, eqb_ℤ, ltb,
  ◌==◌, if◌then◌else◌, take,
}
use tibbit.Common.Errno.{eagain}
use tibbit.Sms.Request.{SmsResult}
use tibbit.Events.Platform.{
  SmsEvent, send_msg_status, receive_serial_status, receive_msg_output, Services,
}

pub record Events (E : Type 0) : Type 0 where
  pub cb : Option (SmsEvent → E → E)
  pub started : Bool
  pub last_serial_rx_ms : ℕ
  pub wq_not_ready_warned : Bool
  pub env : E

-- The Kconfig values that it reads.
pub record Config : Type 0 where
  pub result_worker_enable : Bool
  pub trigger_event_path : Bool
  pub serial_rx_debounce_ms : ℕ
  pub phone_max_len : ℕ

module _ {E : Type 0} where
  unfoldable pub dispatch_combined : SmsEvent → Events E → Events E
  dispatch_combined event s = elim s.cb [ none ↦ s | some f ↦ record s { env = f event s.env } ]

  -- What the loops of the two workers share: each takes one thing after the other and dispatches an
  -- event for it, until a call answers an error.
  unfoldable pub drain :
      {A : Type 0} → (E → ℤ × Option A × E) → (A → E → SmsEvent) → ℕ → Events E → Events E
  unfolding dispatch_combined
  drain get event_of zero s = s
  drain get event_of (suc n) s =
      let (ret, got, env) = get s.env in
      let s' = record s { env = env } in
      if not (eqb_ℤ ret (pos 0)) then s' else elim got [
        | none ↦ s'
        | some a ↦ drain get event_of n (dispatch_combined (event_of a env) s')
      ]

  -- What the two functions that submit a poll item share.
  unfoldable pub submit_item : Services E → (E → ℤ × E) → Events E → ℤ × Events E
  submit_item p submit s =
      let (ret, env) = submit s.env in
      if p.thread_ready s.env
      then (ret, record s { wq_not_ready_warned = false; env = env })
      else (eagain, record s { wq_not_ready_warned = true })

  unfoldable pub set_callback : Option (SmsEvent → E → E) → Events E → ℤ × Events E
  set_callback cb s = (pos 0, record s { cb = cb })

module _ {E : Type 0} (c : Config) (p : Services E) where
  -- An event that the queue refuses is dropped, with a warning.
  unfoldable pub publish : SmsEvent → Events E → Events E
  publish event s = record s { env = (p.events.put event s.env).1 }

  unfoldable pub submit_dispatch_poll : Events E → ℤ × Events E
  unfolding submit_item
  submit_dispatch_poll s = submit_item p p.dispatch_submit s

  unfoldable pub submit_result_poll : Events E → ℤ × Events E
  unfolding submit_item
  submit_result_poll s = submit_item p p.result_submit s

  -- The loop of `tb45_sms_event_dispatch_worker`
  unfoldable pub dispatch_loop : ℕ → Events E → Events E
  unfolding drain
  dispatch_loop rounds s = drain p.events.get (λ event e. event) rounds s

  unfoldable pub dispatch_worker : ℕ → Events E → Events E
  unfolding dispatch_loop submit_dispatch_poll
  dispatch_worker rounds s = (submit_dispatch_poll (dispatch_loop rounds s)).1

  -- The event for a result, at the time `now`.
  unfoldable pub result_event : ℕ → SmsResult → SmsEvent
  result_event now result = record {
    event_type = send_msg_status result.request_id (take c.phone_max_len result.phone);
    timestamp_ms = now;
    status = result.result;
  }

  -- The loop of `tb45_sms_result_worker`
  unfoldable pub result_loop : ℕ → Events E → Events E
  unfolding drain result_event
  result_loop rounds s = drain p.result_wait (λ result e. result_event (p.uptime e) result) rounds s

  unfoldable pub result_worker : ℕ → Events E → Events E
  unfolding result_loop submit_result_poll
  result_worker rounds s = (submit_result_poll (result_loop rounds s)).1

  unfoldable pub event_init : Events E → ℤ × Events E
  unfolding submit_dispatch_poll submit_result_poll
  event_init s =
      let polled = (submit_dispatch_poll (record s { started = true })).1 in
      if s.started
      then (pos 0, s)
      else if c.result_worker_enable
      then (pos 0, (submit_result_poll polled).1)
      else (pos 0, polled)

  -- Differences of times wrap around at 2 ^ 32.
  unfoldable pub on_serial_rx : Events E → Events E
  unfolding publish
  on_serial_rx s =
      let scanned = record s { env = (p.trigger_scan s.env).1 } in
      let now = p.uptime scanned.env in
      let event : SmsEvent = record {
        event_type = receive_serial_status;
        timestamp_ms = now;
        status = pos 0;
      } in
      if not c.trigger_event_path
      then s
      else if ltb ((now + 2 ^ 32 - s.last_serial_rx_ms) % 2 ^ 32) c.serial_rx_debounce_ms
      then scanned
      else publish event (record scanned { last_serial_rx_ms = now })

  unfoldable pub on_cmti : ℕ → Events E → Events E
  on_cmti storage_index s =
      if storage_index == 0 then s else record s { env = (p.trigger_index storage_index s.env).1 }

  unfoldable pub notify_rx_message : ℕ → ℤ → Events E → Events E
  unfolding publish
  notify_rx_message storage_index status s =
      publish
        (record {
          event_type = receive_msg_output storage_index;
          timestamp_ms = p.uptime s.env;
          status = status;
        })
        s
