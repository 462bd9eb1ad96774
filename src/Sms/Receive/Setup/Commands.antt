-- ===== src/Sms/Receive/Setup/Commands.antt =====
-- The commands of the setup, one after the other, up to the last answer.
use mathlib.Core.List.{append_assoc}
use tibbit.Common.{
  ℕ, ◌≡◌, refl, ap, ◌∙◌, Bool, true, false, some, List, [], ◌∷◌, ◌++◌, leb, if◌then◌else◌, length,
  Bytes, codes,
}
use tibbit.DelayableRetry.{Retry}
use tibbit.Sms.Receive.Platform.{Services}
use tibbit.Sms.Receive.{InitState, Rx, Config, init_kick_pending_trigger}
use tibbit.Sms.Receive.Init.{cpms_cmd, advance}
use tibbit.Sms.Receive.Setup.{
  Willing, setup_run, next_step_sends, to_cnmi, at, after, running, finished, last_answer,
}

-- How many commands follow the first.
abbrev pub rounds : Bool → ℕ
rounds cleanup = if cleanup then 4 else 3

abbrev pub setup_commands : Config → List Bytes
setup_commands c =
    codes "AT+CMGF=1"
    ∷ codes "AT+CSCS=\"IRA\""
    ∷ cpms_cmd c
    ∷ codes "AT+CNMI=2,1,0,0,0"
    ∷ (if c.startup_cleanup then codes "AT+CMGD=1,4" ∷ [] else [])

module _ {E : Type 0} (c : Config) (p : Services E) {sent : E → List Bytes}
    (willing : Willing p sent) where
  abbrev pub with : Bool → Config
  with b = record c { startup_cleanup = b }

  abbrev pub cnmi_env : Bool → E → E
  cnmi_env b e =
      after c p (codes "AT+CNMI=2,1,0,0,0")
        (after c p (cpms_cmd c) (after c p (codes "AT+CSCS=\"IRA\"") e))

  abbrev pub last_env : Bool → E → E
  last_env b e = if b then after c p (codes "AT+CMGD=1,4") (cnmi_env b e) else cnmi_env b e

  abbrev pub set_up : Bool → E → Rx E → Rx E
  set_up b e r = record r {
    setup_done = true;
    cleanup_done = if b then true else r.cleanup_done;
    init_completed_logged = true;
    init_ctx = record (r.init_ctx) { state = InitState.ready };
    env = last_env b e;
  }

  pub finishes :
      (b : Bool) (rt : Retry (Rx E)) (e : E) (r : Rx E)
      → leb 48 (length (cpms_cmd c)) ≡ false
      → setup_run (with b) p (rounds b) (some (running (with b) p rt)) (at c p InitState.cmgf e r)
        ≡ (some (finished (with b) p rt), init_kick_pending_trigger p (set_up b e r))
  unfolding advance cpms_cmd setup_run
  finishes false rt e r fits =
      let retry = some (running (with false) p rt) in
      let cnmi = at c p InitState.cnmi (cnmi_env false e) r in
      to_cnmi (with false) p willing 0 retry e r fits ∙ last_answer (with false) p rt cnmi refl
  finishes true rt e r fits =
      let retry = some (running (with true) p rt) in
      let cnmi = at c p InitState.cnmi (cnmi_env true e) r in
      let cleaning =
        next_step_sends (with true) p willing (codes "AT+CMGD=1,4") retry cnmi refl refl in
      to_cnmi (with true) p willing 1 retry e r fits
      ∙ ap (λ s. setup_run (with true) p 0 s.0 s.1) cleaning
      ∙ last_answer (with true) p rt
          (record (at c p InitState.cleanup (last_env true e) r) { setup_done = true }) refl

  sent-after : (cmd : Bytes) (e : E) → sent (after c p cmd e) ≡ sent e ++ cmd ∷ []
  sent-after cmd e =
      willing.sends cmd (p.init_submit e).1 ∙ ap (λ cs. cs ++ cmd ∷ []) (willing.submit_apart e)

  pub sent-last_env :
      (b : Bool) (e : E)
      → sent (last_env b (p.init_command (codes "AT+CMGF=1") e).1)
        ≡ sent e ++ setup_commands (with b)
  unfolding cpms_cmd
  sent-last_env false e = simp (sent-after, willing.sends, append_assoc) refl
  sent-last_env true e = simp (sent-after, willing.sends, append_assoc) refl
