-- ===== src/Sms/Receive/Delete.antt =====
-- tb45_sms.c: deleting stored messages, one at a time from a queue, as a retried operation.
-- `delete_command` registers `delete_at_complete` to be called with the result.
use tibbit.Common.{
  ℕ, not, ◌++◌, ◌&&◌, Option, none, some, ℤ, pos, is_neg, eqb_ℤ, ltb, ◌==◌, if◌then◌else◌, Bytes,
  codes,
}
use tibbit.Common.Errno.{einval, einprogress}
use tibbit.DelayableRetry
use tibbit.DelayableRetry.{Ops, Retry}
use tibbit.Sms.Fields.{print}
use tibbit.Sms.Receive.Platform.{Services}
use tibbit.Sms.Receive.{Rx, next_count, resume_poll}

abbrev pub delete_max_attempts : ℕ
delete_max_attempts = 3

-- At most 13 bytes, which `cmd` holds.
abbrev pub cmgd : ℕ → Bytes
cmgd storage_index = codes "AT+CMGD=" ++ print 5 storage_index

module _ {E : Type 0} where
  unfoldable pub set_delete_ret : ℤ → Rx E → Rx E
  set_delete_ret ret r = record r { delete_ctx = record (r.delete_ctx) { last_ret = ret } }

  unfoldable pub set_index : ℕ → Rx E → Rx E
  set_index storage_index r = record r {
    delete_ctx = record (r.delete_ctx) { storage_index = storage_index };
  }

module _ {E : Type 0} (p : Services E) where
  unfoldable pub delete_run_attempt : ℕ → Rx E → ℤ × Rx E
  unfolding set_delete_ret
  delete_run_attempt attempt r =
      let (ret, env) = p.delete_command (cmgd r.delete_ctx.storage_index) r.env in
      let r' = record r { env = env } in
      if r.delete_ctx.storage_index == 0
      then (einval, r)
      else if is_neg ret
      then (ret, set_delete_ret ret r')
      else (einprogress, r')

  unfoldable pub delete_retry_delay_ms : ℕ → Rx E → ℕ × Rx E
  delete_retry_delay_ms attempt r = (100, r)

  unfoldable pub delete_attempt_failed : ℤ → ℕ → ℕ → Rx E → Rx E
  unfolding set_delete_ret
  delete_attempt_failed ret attempt max_attempts r =
      let r' = set_delete_ret ret r in
      if r.delete_ctx.storage_index == 0
      then r
      else if not (max_attempts == 0) && ltb attempt max_attempts
      then r'
      else record r' { delete_fail_count = next_count r.delete_fail_count }

  unfoldable pub delete_complete : ℤ → Rx E → Rx E
  unfolding set_index resume_poll
  delete_complete ret r = resume_poll p (set_index 0 r)

  unfoldable pub delete_retry_ops : Ops (Rx E)
  unfolding delete_run_attempt delete_retry_delay_ms delete_attempt_failed delete_complete
  delete_retry_ops = record {
    run_attempt = some delete_run_attempt;
    retry_delay_ms = some delete_retry_delay_ms;
    attempt_failed = some delete_attempt_failed;
    complete = some delete_complete;
  }

  unfoldable pub delete_reschedule : ℕ → Rx E → ℤ × Rx E
  delete_reschedule delay_ms r =
      let (ret, env) = p.delete_reschedule delay_ms r.env in (ret, record r { env = env })

  unfoldable pub delete_at_complete :
      ℤ → Option (Retry (Rx E)) → Rx E → Option (Retry (Rx E)) × Rx E
  unfolding set_delete_ret delete_reschedule DelayableRetry.complete
  delete_at_complete ret retry r =
      let (_, retry', r') =
        DelayableRetry.complete delete_reschedule retry ret (set_delete_ret ret r) in
      (retry', r')

  unfoldable pub delete_kick : Option (Retry (Rx E)) → Rx E → Option (Retry (Rx E)) × Rx E
  unfolding set_index delete_reschedule DelayableRetry.start DelayableRetry.is_pending
  delete_kick retry r =
      let (ret, got, env) = p.deletes.get r.env in
      let r' = record r { env = env } in
      if DelayableRetry.is_pending retry
      then (retry, r)
      else if is_neg ret
      then (retry, r')
      else elim got [
        | none ↦ (retry, r')
        | some storage_index ↦
            let (_, retry', r'') =
              DelayableRetry.start delete_reschedule retry delete_max_attempts
                (set_index storage_index r') in
            (retry', r'')
      ]

  unfoldable pub enqueue_delete : ℕ → Rx E → ℤ × Rx E
  unfolding resume_poll
  enqueue_delete storage_index r =
      let (ret, env) = p.deletes.put storage_index r.env in
      let r' = record r { env = env } in
      if eqb_ℤ ret (pos 0) then (ret, resume_poll p r') else (ret, r')

  unfoldable pub receive_delete_index : ℕ → Rx E → ℤ × Rx E
  unfolding enqueue_delete
  receive_delete_index storage_index r =
      if storage_index == 0 then (einval, r) else enqueue_delete storage_index r
