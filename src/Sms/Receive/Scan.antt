-- ===== src/Sms/Receive/Scan.antt =====
-- What a scan for unread messages reports: the notices that it puts into their queue.
use mathlib.Core.List.{map, append_assoc, append-nil}
use native.Mathlib.Nat.{mod-eq_of_lt, mod-add-mod}
use mathlib.Core.Path.{subst}
use tibbit.Common.{
  ℕ, suc, ◌+◌, ◌%◌, ◌^◌, ◌≤◌, ◌<◌, ◌≡◌, refl, sym, ap, ◌∙◌, Bool, true, false, not, if_elim, some,
  List, [], ◌∷◌, ◌++◌, ℤ, pos, is_neg, arith, if◌then◌else◌, length,
}
use tibbit.Kernel.{MsgQueueLaws}
use tibbit.Sms.Listing.{parse_cmgl_unread_indexes}
use tibbit.Sms.Receive.Platform.{Notice, Services}
use tibbit.Sms.Receive.Newest.{newest, newest_short, length-newest, newest-append}
use tibbit.Sms.Receive.{Rx, Config, next_count, publish_notice, submit_poll, resume_poll}
use tibbit.Sms.Receive.Capture.{
  capture_finish, scan_failed, report, report_all, capture_continue_work_handler,
}
use tibbit.Sms.Receive.Queues.{notice_of, publish_notice-newest, publish_notice-processed_count}

-- The messages that the answer of the modem lists.
abbrev pub listed : {E : Type 0} → Config → Services E → Rx E → List ℕ
listed c p r = parse_cmgl_unread_indexes (some (p.captured r.env)) c.scan_max_indexes

-- A report that is put into the queue, as the list of what it holds.
abbrev pub reports : List ℕ → List Notice
reports indexes = map (λ i. notice_of i (pos 0)) indexes

module _ {E : Type 0} (p : Services E) (depth : ℕ) (contents : E → List Notice)
    (laws : MsgQueueLaws p.notices depth contents)
    (notify_apart : (i : ℕ) (ret : ℤ) (e : E) → contents (p.notify_rx_message i ret e) ≡ contents e)
    (poll_apart : (e : E) → contents (p.poll_submit e).1 ≡ contents e) (positive : 0 < depth) where
  abbrev Holds : Rx E → List Notice → Type 0
  Holds r ns = (contents r.env ≡ newest depth ns) × (length (contents r.env) ≤ depth)

  publish_notice-Holds :
      (storage_index : ℕ) (status : ℤ) (r : Rx E) (ns : List Notice)
      → Holds r ns
      → Holds (publish_notice p storage_index status r) (ns ++ notice_of storage_index status ∷ [])
  publish_notice-Holds storage_index status r ns (same, bound) =
      let added =
        publish_notice-newest p depth contents laws storage_index status r notify_apart positive
          bound in
      let n = notice_of storage_index status in
      (
        added ∙ ap (λ cs. newest depth (cs ++ n ∷ [])) same ∙ newest-append depth ns (n ∷ []),
        rw added (length-newest depth (contents r.env ++ n ∷ [])),
      )

  report_all-Holds :
      (indexes : List ℕ) (r : Rx E) (ns : List Notice)
      → Holds r ns
      → Holds (report_all p indexes r) (ns ++ reports indexes)
  unfolding report_all report
  report_all-Holds [] r ns h = rw (append-nil ns) h
  report_all-Holds (i ∷ is) r ns h =
      let r' = record r { processed_count = next_count r.processed_count } in
      let next = publish_notice-Holds i (pos 0) r' ns h in
      let rest = report_all-Holds is (report p i r) (ns ++ notice_of i (pos 0) ∷ []) next in
      rw (append_assoc ns (notice_of i (pos 0) ∷ []) (reports is)) at rest

  capture_finish-env : (r : Rx E) → contents (capture_finish p r).env ≡ contents r.env
  unfolding capture_finish resume_poll submit_poll
  capture_finish-env r =
      if_elim (λ (x : ℤ × Rx E). contents x.1.env ≡ contents r.env) (p.thread_ready r.env)
        (λ ready. poll_apart r.env) (λ waits. refl)

  unchanged_count :
      (r : Rx E) → r.processed_count < 2 ^ 32 → r.processed_count ≡ (r.processed_count + 0) % 2 ^ 32
  unchanged_count r h =
      let none_more : r.processed_count ≡ r.processed_count + 0 = omega arith in
      none_more ∙ sym (mod-eq_of_lt (omega (arith, h)))

  report_all-processed_count :
      (indexes : List ℕ) (r : Rx E)
      → r.processed_count < 2 ^ 32
      → (report_all p indexes r).processed_count ≡ (r.processed_count + length indexes) % 2 ^ 32
  unfolding report_all report
  report_all-processed_count [] r h = unchanged_count r h
  report_all-processed_count (i ∷ is) r h =
      let r' = record r { processed_count = next_count r.processed_count } in
      let same = publish_notice-processed_count p depth contents laws i (pos 0) r' in
      let one_more : r.processed_count + 1 + length is ≡ r.processed_count + suc (length is) =
        omega arith in
      report_all-processed_count is (report p i r) (rw same (omega arith))
      ∙ ap (λ k. (k + length is) % 2 ^ 32) same
      ∙ mod-add-mod (r.processed_count + 1) (2 ^ 32) (length is)
      ∙ ap (λ k. k % 2 ^ 32) one_more

  abbrev Reported : List Notice → ℕ → Rx E → Rx E → Type 0
  Reported ns n r r' =
      (contents r'.env ≡ newest depth (contents r.env ++ ns))
      × (r'.processed_count ≡ (r.processed_count + n) % 2 ^ 32)
      × (r'.capture_ctx.active ≡ false)

  capture_finish-Reported :
      (ns : List Notice) (n : ℕ) (r r' : Rx E)
      → contents r'.env ≡ newest depth (contents r.env ++ ns)
      → r'.processed_count ≡ (r.processed_count + n) % 2 ^ 32
      → Reported ns n r (capture_finish p r')
  unfolding capture_finish resume_poll submit_poll
  capture_finish-Reported ns n r r' held counted = (
    capture_finish-env r' ∙ held,
    if_elim (λ (x : ℤ × Rx E). x.1.processed_count ≡ (r.processed_count + n) % 2 ^ 32)
        (p.thread_ready r'.env) (λ ready. counted) (λ waits. counted),
    if_elim (λ (x : ℤ × Rx E). x.1.capture_ctx.active ≡ false) (p.thread_ready r'.env)
        (λ ready. refl) (λ waits. refl),
  )

  handler_idle :
      (c : Config) (r : Rx E)
      → r.capture_ctx.scanning ≡ false
      → capture_continue_work_handler p c r ≡ capture_finish p r
  unfolding capture_continue_work_handler
  handler_idle c r idle =
      ap
        (λ b.
          if not b
          then capture_finish p r
          else if is_neg r.capture_ctx.last_ret
          then capture_finish p (scan_failed p r.capture_ctx.last_ret r)
          else capture_finish p (report_all p (listed c p r) r))
        idle

  handler_on :
      (c : Config) (r : Rx E)
      → r.capture_ctx.scanning ≡ true
      → capture_continue_work_handler p c r ≡ (
          if is_neg r.capture_ctx.last_ret
          then capture_finish p (scan_failed p r.capture_ctx.last_ret r)
          else capture_finish p (report_all p (listed c p r) r))
  unfolding capture_continue_work_handler
  handler_on c r on =
      ap
        (λ b.
          if not b
          then capture_finish p r
          else if is_neg r.capture_ctx.last_ret
          then capture_finish p (scan_failed p r.capture_ctx.last_ret r)
          else capture_finish p (report_all p (listed c p r) r))
        on

  handler_branch :
      (c : Config) (r : Rx E) (failed : Bool)
      → r.capture_ctx.scanning ≡ true
      → is_neg r.capture_ctx.last_ret ≡ failed
      → capture_continue_work_handler p c r ≡ (
          if failed
          then capture_finish p (scan_failed p r.capture_ctx.last_ret r)
          else capture_finish p (report_all p (listed c p r) r))
  handler_branch c r failed on how =
      handler_on c r on
      ∙ ap
          (λ b.
            if b
            then capture_finish p (scan_failed p r.capture_ctx.last_ret r)
            else capture_finish p (report_all p (listed c p r) r))
          how

  failed_notice :
      (ret : ℤ) (r : Rx E)
      → Holds r (contents r.env)
      → contents (scan_failed p ret r).env ≡ newest depth (contents r.env ++ notice_of 0 ret ∷ [])
  unfolding scan_failed
  failed_notice ret r start =
      (publish_notice-Holds 0 ret (record r { scan_fail_count = next_count r.scan_fail_count })
        (contents r.env) start).0

  failed_count : (ret : ℤ) (r : Rx E) → (scan_failed p ret r).processed_count ≡ r.processed_count
  unfolding scan_failed
  failed_count ret r =
      publish_notice-processed_count p depth contents laws 0 ret
        (record r { scan_fail_count = next_count r.scan_fail_count })

  -- When the work item of a scan runs, the scan ends, and the queue then holds the newest of what it
  -- held and, after a scan that the modem answered, one notice for each message that the answer
  -- lists, in its order, which are all counted; after a scan that failed, one notice for index 0
  -- with the error; and nothing more if no scan was running. It is assumed that the queue obeys its
  -- laws, and that neither telling the event module of a message nor submitting the poll item
  -- changes it.
  pub scan_reports :
      (c : Config) (r : Rx E)
      → length (contents r.env) ≤ depth
      → r.processed_count < 2 ^ 32
      → let r' = capture_continue_work_handler p c r in
        if not r.capture_ctx.scanning
        then Reported [] 0 r r'
        else if is_neg r.capture_ctx.last_ret
        then Reported (notice_of 0 r.capture_ctx.last_ret ∷ []) 0 r r'
        else Reported (reports (listed c p r)) (length (listed c p r)) r r'
  scan_reports c r bound small = by_state r.capture_ctx.scanning (is_neg ret) refl refl
    where
      ret : ℤ
      ret = r.capture_ctx.last_ret

      start : Holds r (contents r.env)
      start = (sym (newest_short depth (contents r.env) bound), bound)

      same : r.processed_count ≡ (r.processed_count + 0) % 2 ^ 32
      same = unchanged_count r small

      by_state :
          (scanning failed : Bool)
          → r.capture_ctx.scanning ≡ scanning
          → is_neg ret ≡ failed
          → let r' = capture_continue_work_handler p c r in
            if not scanning
            then Reported [] 0 r r'
            else if failed
            then Reported (notice_of 0 ret ∷ []) 0 r r'
            else Reported (reports (listed c p r)) (length (listed c p r)) r r'
      by_state false failed idle how =
          let kept : contents r.env ≡ newest depth (contents r.env ++ []) =
            rw (append-nil (contents r.env)) (start.0) in
          subst (Reported [] 0 r) (sym (handler_idle c r idle))
            (capture_finish-Reported [] 0 r r kept same)
      by_state true true on how =
          subst (Reported (notice_of 0 ret ∷ []) 0 r) (sym (handler_branch c r true on how)) (
            capture_finish-Reported (notice_of 0 ret ∷ []) 0 r (scan_failed p ret r)
              (failed_notice ret r start) (failed_count ret r ∙ same))
      by_state true false on how =
          subst (Reported (reports (listed c p r)) (length (listed c p r)) r)
            (sym (handler_branch c r false on how))
            (capture_finish-Reported (reports (listed c p r)) (length (listed c p r)) r
              (report_all p (listed c p r) r)
              (report_all-Holds (listed c p r) r (contents r.env) start).0
              (report_all-processed_count (listed c p r) r small))
