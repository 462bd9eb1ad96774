-- ===== src/Sms/Receive/Started.antt =====
-- The callbacks of the retried setup, and what a start of it does to the rest of the state.
use mathlib.Core.Path.{subst}
use tibbit.Common.{
  neg_nonzero, ℕ, ◌≡◌, refl, sym, ◌∙◌, Bool, true, false, if_elim, Option, some, ℤ, pos, is_neg,
  eqb_ℤ, if◌then◌else◌, Bytes,
}
use tibbit.DelayableRetry
use tibbit.DelayableRetry.{Retry}
use tibbit.DelayableRetry.Keeps.{Callbacks, ops_of, Keeps, start_keeps}
use tibbit.Sms.Receive.Platform.{Services}
use tibbit.Sms.Receive.{InitState, Rx, Config, init_is_ready}
use tibbit.Sms.Receive.Init.{
  Step, step_of, set_state, set_last_ret, run_command, init_start_step, init_run_attempt,
  init_retry_delay_ms, init_attempt_failed, init_complete, init_reschedule,
}
use tibbit.Sms.Receive.Worker.{Receiver, init_retry_start}

module _ {E : Type 0} (c : Config) (p : Services E) where
  abbrev pub init_callbacks : Callbacks (Rx E)
  init_callbacks = record {
    run_attempt = init_run_attempt c p;
    retry_delay_ms = init_retry_delay_ms c p;
    attempt_failed = init_attempt_failed c p;
    complete = init_complete c p;
  }

  -- A reading of the state that the setup does not change.
  pub record Blind {X : Type 0} (f : Rx E → X) : Type 0 where
    pub state : (s : InitState) (r : Rx E) → f (set_state s r) ≡ f r
    pub last_ret : (ret : ℤ) (r : Rx E) → f (set_last_ret ret r) ≡ f r
    pub count : (n : ℕ) (r : Rx E) → f (record r { init_retry_count = n }) ≡ f r
    pub command :
        (cmd : Bytes) (r : Rx E) → f (record r { env = (p.init_command cmd r.env).1 }) ≡ f r
    pub rearm : (ms : ℕ) (r : Rx E) → f (record r { env = (p.init_reschedule ms r.env).1 }) ≡ f r

  module _ {X : Type 0} (f : Rx E → X) (blind : Blind f) where
    run_command_keeps : (cmd : Bytes) (r : Rx E) → f (run_command c p cmd r).1 ≡ f r
    unfolding run_command
    run_command_keeps cmd r =
        let (ret, e) = p.init_command cmd r.env in
        if_elim (λ (x : ℤ × Rx E). f x.1 ≡ f r) (is_neg ret)
          (λ neg. blind.last_ret ret (record r { env = e }) ∙ blind.command cmd r)
          (λ good. blind.command cmd r)

    start_step_keeps : (r : Rx E) → f (init_start_step c p r).1 ≡ f r
    unfolding init_start_step
    start_step_keeps r = by_step (step_of c r.init_ctx.state)
      where
        by_step :
            (s : Step)
            → f
                (elim s as (λ x. ℤ × Rx E) [
                  | Step.send cmd ↦ run_command c p cmd r
                  | Step.answer ret ↦ (ret, r)
                ]).1
              ≡ f r
        by_step (Step.send cmd) = run_command_keeps cmd r
        by_step (Step.answer ret) = refl

    run_attempt_keeps : (k : ℕ) (r : Rx E) → f (init_run_attempt c p k r).1 ≡ f r
    unfolding init_run_attempt
    run_attempt_keeps k r =
        let s = if r.setup_done then InitState.cleanup else InitState.cmgf in
        if_elim (λ (x : ℤ × Rx E). f x.1 ≡ f r) (init_is_ready c r)
          (λ ready. blind.state InitState.ready r)
          (λ more. start_step_keeps (set_state s r) ∙ blind.state s r)

    complete_keeps :
        (ret : ℤ) (r : Rx E) → eqb_ℤ ret (pos 0) ≡ false → f (init_complete c p ret r) ≡ f r
    unfolding init_complete
    complete_keeps ret r ne = rw ne refl

    pub init_callbacks-Keeps : Keeps f (init_reschedule c p) init_callbacks
    unfolding init_retry_delay_ms init_attempt_failed init_reschedule
    init_callbacks-Keeps = record {
      run = run_attempt_keeps;
      delay = λ k r. refl;
      failed = λ ret k n r. blind.count _ (set_last_ret ret r) ∙ blind.last_ret ret r;
      rearm = blind.rearm;
      ended = complete_keeps;
    }

  -- An attempt that finds the modem not set up does not succeed at once.
  run_command_nonzero : (cmd : Bytes) (r : Rx E) → eqb_ℤ (run_command c p cmd r).0 (pos 0) ≡ false
  unfolding run_command
  run_command_nonzero cmd r =
      let ret = (p.init_command cmd r.env).0 in
      if_elim (λ (x : ℤ × Rx E). eqb_ℤ x.0 (pos 0) ≡ false) (is_neg ret)
        (λ neg. neg_nonzero ret neg) (λ good. refl)

  run_attempt_nonzero :
      (k : ℕ) (r : Rx E)
      → init_is_ready c r ≡ false
      → eqb_ℤ (init_run_attempt c p k r).0 (pos 0) ≡ false
  unfolding init_run_attempt init_start_step step_of set_state
  run_attempt_nonzero k r more = rw more (by_done r.setup_done)
    where
      by_done :
          (b : Bool)
          → let s = if b then InitState.cleanup else InitState.cmgf in
            eqb_ℤ (init_start_step c p (set_state s r)).0 (pos 0) ≡ false
      by_done true = run_command_nonzero _ (set_state InitState.cleanup r)
      by_done false = run_command_nonzero _ (set_state InitState.cmgf r)

  -- The callbacks of the setup are in place.
  abbrev pub IsArmed : Option (Retry (Rx E)) → Type 0
  IsArmed o = (rt : Retry (Rx E)) × (o ≡ some rt) × (rt.ops ≡ some (ops_of init_callbacks))

  pub init_retry_start_keeps :
      {X : Type 0} (f : Rx E → X) (m : Receiver E)
      → Blind f
      → IsArmed m.init_retry
      → init_is_ready c m.rx ≡ false
      → (f (init_retry_start c p m).rx ≡ f m.rx) × IsArmed (init_retry_start c p m).init_retry
  unfolding init_retry_start
  init_retry_start_keeps f m blind (rt, held, is_ops) more =
      subst
        (λ o.
          let (_, retry, r) = DelayableRetry.start (init_reschedule c p) o 0 m.rx in
          (f r ≡ f m.rx) × IsArmed retry)
        (sym held)
        (start_keeps f (init_reschedule c p) init_callbacks (init_callbacks-Keeps f blind) rt 0 m.rx
          is_ops (run_attempt_nonzero 1 m.rx more))
