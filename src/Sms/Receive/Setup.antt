-- ===== src/Sms/Receive/Setup.antt =====
-- Setting the modem up from the first trigger to the end, where the modem answers OK each time.
pub mod Commands
pub mod Kick
pub mod Completes
use tibbit.Common.{
  ℕ, zero, suc, ◌+◌, ◌≤◌, ◌<◌, ◌≡◌, refl, sym, ap, ◌∙◌, Bool, true, false, not, Bool-cases, Option,
  none, some, List, [], ◌∷◌, ◌++◌, ℤ, pos, is_neg, eqb_ℤ, leb, arith, if◌then◌else◌, length, Bytes,
  codes,
}
use tibbit.Common.Errno.{einprogress}
use tibbit.Kernel.{MsgQueueLaws}
use tibbit.DelayableRetry
use tibbit.DelayableRetry.{Ops, Retry}
use tibbit.Sms.Receive.Platform.{Trigger, Services}
use tibbit.Sms.Receive.Newest.{newest}
use tibbit.Sms.Receive.{
  InitState, InitCtx, Rx, Config, merge, init_is_ready, init_merge_trigger,
  init_kick_pending_trigger, enqueue_trigger,
}
use tibbit.Sms.Receive.Init.{
  Step, step_of, cpms_cmd, advance, is_ready_state, set_state, set_last_ret, run_command,
  init_start_step, init_run_attempt, init_retry_ops, init_complete, init_at_complete,
  init_continue_work_handler, init_retry_complete,
}
use tibbit.Sms.Receive.Worker.{Receiver, init_retry_start, process_trigger}

-- The modem takes every command, and the work item of the next step can always be queued. `sent`
-- are the commands that it has taken, `triggers` what the queue of the triggers holds.
pub record Willing {E : Type 0} (p : Services E) (sent : E → List Bytes) : Type 0 where
  pub accepts : (cmd : Bytes) (e : E) → is_neg (p.init_command cmd e).0 ≡ false
  pub sends : (cmd : Bytes) (e : E) → sent (p.init_command cmd e).1 ≡ sent e ++ cmd ∷ []
  pub submits : (e : E) → is_neg (p.init_submit e).0 ≡ false
  pub submit_apart : (e : E) → sent (p.init_submit e).1 ≡ sent e

module _ {E : Type 0} (c : Config) (p : Services E) where
  -- The modem answers OK, and the work item of the next step runs.
  unfoldable pub next_step : Option (Retry (Rx E)) → Rx E → Option (Retry (Rx E)) × Rx E
  unfolding init_at_complete init_continue_work_handler
  next_step retry r =
      let (retry', r') = init_at_complete c p (pos 0) retry r in
      init_continue_work_handler c p retry' r'

  unfoldable pub setup_run : ℕ → Option (Retry (Rx E)) → Rx E → Option (Retry (Rx E)) × Rx E
  unfolding next_step
  setup_run zero retry r = init_at_complete c p (pos 0) retry r
  setup_run (suc n) retry r = let (retry', r') = next_step retry r in setup_run n retry' r'

  abbrev pub after : Bytes → E → E
  after cmd e = (p.init_command cmd (p.init_submit e).1).1

  abbrev pub at : InitState → E → Rx E → Rx E
  at state e r = record r { init_ctx = record (r.init_ctx) { state = state }; env = e }

  abbrev pub running : Retry (Rx E) → Retry (Rx E)
  running rt = record rt {
    ops = some (init_retry_ops c p);
    pending = true;
    attempt_in_progress = true;
  }

  abbrev pub finished : Retry (Rx E) → Retry (Rx E)
  finished rt = record rt {
    ops = some (init_retry_ops c p);
    pending = false;
    attempt_in_progress = false;
  }

  pub last_answer :
      (rt : Retry (Rx E)) (r : Rx E)
      → is_ready_state (advance c r).init_ctx.state ≡ true
      → init_at_complete c p (pos 0) (some (running rt)) r ≡ (
        some (finished rt),
        init_kick_pending_trigger p (record (advance c r) { init_completed_logged = true }),
      )
  unfolding init_at_complete init_retry_complete DelayableRetry.complete
      DelayableRetry.finish_attempt DelayableRetry.call_complete init_retry_ops init_complete
  last_answer rt r ready = rw ready refl

  -- A receiver whose setup is neither done nor running.
  abbrev pub waiting : Retry (Rx E) → Receiver E → Receiver E
  waiting rt m = record m {
    rx = record (m.rx) { setup_done = false };
    init_retry = some (record rt { ops = some (init_retry_ops c p); pending = false });
  }

  abbrev pub merged : Trigger → Rx E → Rx E
  merged t r =
      set_last_ret (pos 0)
        (init_merge_trigger t (record r { setup_done = false; init_wait_logged = true }))

  module _ {sent : E → List Bytes} (willing : Willing p sent) where
    run_command_accepted :
        (cmd : Bytes) (r : Rx E)
        → run_command c p cmd r ≡ (einprogress, record r { env = (p.init_command cmd r.env).1 })
    unfolding run_command
    run_command_accepted cmd r = rw (willing.accepts cmd r.env) refl

    start_step_sends :
        (cmd : Bytes) (r : Rx E)
        → step_of c r.init_ctx.state ≡ Step.send cmd
        → init_start_step c p r ≡ (einprogress, record r { env = (p.init_command cmd r.env).1 })
    unfolding init_start_step
    start_step_sends cmd r e =
        ap (λ s. elim s [ Step.send cmd ↦ run_command c p cmd r | Step.answer ret ↦ (ret, r) ]) e
        ∙ run_command_accepted cmd r

    continue_sends :
        (cmd : Bytes) (retry : Option (Retry (Rx E))) (r : Rx E)
        → step_of c r.init_ctx.state ≡ Step.send cmd
        → init_continue_work_handler c p retry r
          ≡ (retry, record r { env = (p.init_command cmd r.env).1 })
    unfolding init_continue_work_handler
    continue_sends cmd retry r e = rw (start_step_sends cmd r e) refl

    answered_submits :
        (retry : Option (Retry (Rx E))) (r : Rx E)
        → is_ready_state (advance c r).init_ctx.state ≡ false
        → init_at_complete c p (pos 0) retry r
          ≡ (retry, record (advance c r) { env = (p.init_submit (advance c r).env).1 })
    unfolding init_at_complete
    answered_submits retry r more = rw (more, willing.submits (advance c r).env) refl

    pub next_step_sends :
        (cmd : Bytes) (retry : Option (Retry (Rx E))) (r : Rx E)
        → is_ready_state (advance c r).init_ctx.state ≡ false
        → step_of c (advance c r).init_ctx.state ≡ Step.send cmd
        → next_step retry r ≡ (retry, record (advance c r) { env = after cmd (advance c r).env })
    unfolding next_step
    next_step_sends cmd retry r more e =
        let submitted = record (advance c r) { env = (p.init_submit (advance c r).env).1 } in
        rw (answered_submits retry r more) (continue_sends cmd retry submitted e)

    -- From the first command to the fourth.
    pub to_cnmi :
        (k : ℕ) (retry : Option (Retry (Rx E))) (e : E) (r : Rx E)
        → leb 48 (length (cpms_cmd c)) ≡ false
        → let e₁ = after (codes "AT+CSCS=\"IRA\"") e in
          let e₂ = after (cpms_cmd c) e₁ in
          setup_run (suc (suc (suc k))) retry (at InitState.cmgf e r)
          ≡ setup_run k retry (at InitState.cnmi (after (codes "AT+CNMI=2,1,0,0,0") e₂) r)
    unfolding setup_run advance step_of
    to_cnmi k retry e r fits =
        let e₁ = after (codes "AT+CSCS=\"IRA\"") e in
        let e₂ = after (cpms_cmd c) e₁ in
        let first =
          next_step_sends (codes "AT+CSCS=\"IRA\"") retry (at InitState.cmgf e r) refl refl in
        let second =
          next_step_sends (cpms_cmd c) retry (at InitState.cscs e₁ r) refl (rw fits refl) in
        let third =
          next_step_sends (codes "AT+CNMI=2,1,0,0,0") retry (at InitState.cpms e₂ r) refl refl in
        ap (λ s. setup_run (suc (suc k)) s.0 s.1) first
        ∙ ap (λ s. setup_run (suc k) s.0 s.1) second
        ∙ ap (λ s. setup_run k s.0 s.1) third

    pub start_sends :
        (t : Trigger) (rt : Retry (Rx E)) (m : Receiver E)
        → process_trigger c p t (waiting rt m) ≡ record m {
          rx = at InitState.cmgf (p.init_command (codes "AT+CMGF=1") m.rx.env).1 (merged t m.rx);
          init_retry = some (running (record rt { attempt = 1; max_attempts = 0 }));
        }
    unfolding process_trigger init_retry_start DelayableRetry.start DelayableRetry.step
        DelayableRetry.run_step DelayableRetry.is_pending init_retry_ops init_run_attempt
        init_is_ready set_state init_start_step step_of run_command set_last_ret init_merge_trigger
    start_sends t rt m = rw (willing.accepts (codes "AT+CMGF=1") m.rx.env) refl
