-- ===== src/Sms/Receive/Capture.antt =====
-- tb45_sms.c: looking for unread messages. An AT command lists them into the capture buffer, and a
-- work item then reports each. `capture_command` registers `capture_at_complete`.
use tibbit.Common.{
  ℕ, true, false, not, some, List, [], ◌∷◌, ℤ, pos, is_neg, ◌==◌, if◌then◌else◌, codes,
}
use tibbit.Common.Errno.{ebusy, einval}
use tibbit.Sms.Listing.{parse_cmgl_unread_indexes}
use tibbit.Sms.Receive.Platform.{Services}
use tibbit.Sms.Receive.{CaptureCtx, Rx, Config, next_count, publish_notice, resume_poll}

module _ {E : Type 0} (p : Services E) where
  unfoldable pub capture_finish : Rx E → Rx E
  unfolding resume_poll
  capture_finish r =
      let capture : CaptureCtx = record { scanning = false; last_ret = pos 0; active = false } in
      resume_poll p (record r { capture_ctx = capture })

  -- A scan that failed is reported as index 0.
  unfoldable pub scan_failed : ℤ → Rx E → Rx E
  unfolding publish_notice
  scan_failed ret r =
      publish_notice p 0 ret (record r { scan_fail_count = next_count r.scan_fail_count })

  unfoldable pub capture_at_complete : ℤ → Rx E → Rx E
  unfolding capture_finish scan_failed
  capture_at_complete ret r =
      let (submit_ret, env) = p.capture_submit r.env in
      let r' = record r { capture_ctx = record (r.capture_ctx) { last_ret = ret }; env = env } in
      let failure = if is_neg ret then ret else submit_ret in
      if is_neg submit_ret
      then capture_finish (if r.capture_ctx.scanning then scan_failed failure r' else r')
      else r'

  -- One message of the storage is reported, as `process_index` does for an index that is not 0.
  unfoldable pub report : ℕ → Rx E → Rx E
  unfolding publish_notice
  report storage_index r =
      publish_notice p storage_index (pos 0)
        (record r { processed_count = next_count r.processed_count })

  unfoldable pub report_all : List ℕ → Rx E → Rx E
  unfolding report
  report_all [] r = r
  report_all (index ∷ indexes) r = report_all indexes (report index r)

  unfoldable pub capture_continue_work_handler : Config → Rx E → Rx E
  unfolding capture_finish scan_failed report_all
  capture_continue_work_handler c r =
      let indexes = parse_cmgl_unread_indexes (some (p.captured r.env)) c.scan_max_indexes in
      if not r.capture_ctx.scanning
      then capture_finish r
      else if is_neg r.capture_ctx.last_ret
      then capture_finish (scan_failed r.capture_ctx.last_ret r)
      else capture_finish (report_all indexes r)

  unfoldable pub capture_start_cmgl : Rx E → ℤ × Rx E
  capture_start_cmgl r =
      let (ret, env) = p.capture_command (codes "AT+CMGL=\"REC UNREAD\"") r.env in
      let failed = record r {
        capture_ctx = record (r.capture_ctx) { scanning = false; last_ret = pos 0 };
        scan_fail_count = next_count r.scan_fail_count;
        env = env;
      } in
      let started = record r {
        capture_ctx = record { scanning = true; last_ret = pos 0; active = true };
        env = env;
      } in
      if r.capture_ctx.active
      then (ebusy, r)
      else if is_neg ret
      then (ret, failed)
      else (pos 0, started)

  unfoldable pub scan_unread : Rx E → ℤ × Rx E
  unfolding capture_start_cmgl
  scan_unread r = capture_start_cmgl r

  unfoldable pub process_index : ℕ → Rx E → ℤ × Rx E
  unfolding report
  process_index storage_index r =
      if storage_index == 0 then (einval, r) else (pos 0, report storage_index r)
