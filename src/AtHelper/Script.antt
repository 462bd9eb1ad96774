-- ===== src/AtHelper/Script.antt =====
-- tb45_sms_at_helper.c: one AT command as a script of the modem's chat, with the callback of the
-- client that is called when the script ends. The static variables of the file are the fields of
-- `Script`; a shell is there or not, and what is printed on it is left out. A callback has its user
-- data in it.
pub mod Platform
pub mod Trace
pub mod Calls
pub mod Once
mod Tests
use tibbit.Common.{
  ℕ, zero, suc, ◌+◌, ◌/◌, Bool, true, false, not, ◌||◌, Option, none, some, ℤ, pos, is_neg, eqb_ℤ,
  ltb, ◌==◌, if◌then◌else◌, Bytes, codes,
}
use tibbit.Common.Errno.{einval, eio, ebusy, etimedout}
use tibbit.AtHelper.RawSend.{min_timeout_ms, max_timeout_ms, poll_interval_ms}
use tibbit.AtHelper.Capture.{Capture, capture_reset, capture_append}
use tibbit.AtHelper.Script.Platform.{ScriptServices, ScriptResult, success, abort, timeout}

pub record Script (E : Type 0) : Type 0 where
  pub active_shell : Bool
  pub last_result : ScriptResult
  pub complete_cb : Option (ℤ → E → E)
  pub capture : Capture

unfoldable pub script_result_to_errno : ScriptResult → ℤ
script_result_to_errno success = pos 0
script_result_to_errno timeout = etimedout
script_result_to_errno abort = eio

-- A NULL buffer of size 0.
abbrev pub no_capture : Capture
no_capture = record { out = none; size = 0 }

module _ {E : Type 0} where
  -- A line of the answer has come in, in `tb45_sms_at_print_any_match` and
  -- `tb45_sms_at_print_match`, which differ in the argument that holds it.
  unfoldable pub print_match : Bytes → Script E → Script E
  unfolding capture_append
  print_match line h = record h { capture = capture_append line h.capture }

  -- What `run_async_cb` and `run_async_capture_cb` do where the start has failed.
  unfoldable pub forget : Script E → Script E
  forget h = record h { capture = no_capture; complete_cb = none }

module _ {E : Type 0} (p : ScriptServices E) where
  -- The chat runs it at the end of a script.
  unfoldable pub script_callback : ScriptResult → Script E → E → Script E × E
  unfolding script_result_to_errno
  script_callback result h e =
      let ret = script_result_to_errno result in
      let e' = p.release e in
      (
        record {
          active_shell = false;
          last_result = result;
          complete_cb = none;
          capture = no_capture;
        },
        elim h.complete_cb [ none ↦ e' | some f ↦ f ret e' ],
      )

  -- The rest of `run_async`, with the pipe claimed.
  unfoldable pub claimed_run : Bool → Bytes → Bytes → ℕ → Script E → E → ℤ × Script E × E
  claimed_run sh request expected timeout_ms h e =
      let (request_ret, e₁) = p.set_request request e in
      let (match_ret, e₂) = p.set_match expected e₁ in
      let chat_timeout_ms = if ltb 65535 timeout_ms then 65535 else timeout_ms in
      let script_timeout_s = (timeout_ms + 999) / 1000 in
      let (ret, e₃) = p.run_script (p.set_timeouts chat_timeout_ms script_timeout_s e₂) in
      let h' = record h { active_shell = sh; last_result = abort } in
      if is_neg request_ret
      then (einval, h, p.release e₁)
      else if is_neg match_ret
      then (einval, h, p.release e₂)
      else if is_neg ret
      then (ret, record h' { active_shell = false }, p.release e₃)
      else (ret, h', e₃)

  -- A negative timeout is as short as one of 0.
  unfoldable pub run_async :
      Bool → Option Bytes → Option Bytes → ℕ → Script E → E → ℤ × Script E × E
  unfolding claimed_run
  run_async sh none expected_response timeout_ms h e = (einval, h, e)
  run_async sh (some request) expected_response timeout_ms h e =
      let expected : Bytes = elim expected_response [ none ↦ codes "OK" | some t ↦ t ] in
      let (claim_ret, e') = p.claim e in
      if ltb timeout_ms min_timeout_ms || ltb max_timeout_ms timeout_ms
      then (einval, h, e)
      else if is_neg claim_ret
      then (claim_ret, h, e')
      else claimed_run sh request expected timeout_ms h e'

  -- `capture`: NULL for `tb45_sms_at_run_async_cb`, the client's buffer for
  -- `tb45_sms_at_run_async_capture_cb`.
  unfoldable pub run_async_with :
      Capture
      → Bool
      → Option Bytes
      → Option Bytes
      → ℕ
      → Option (ℤ → E → E)
      → Script E
      → E
      → ℤ × Script E × E
  unfolding run_async forget
  run_async_with capture sh request expected_response timeout_ms cb h₀ e =
      let h = record h₀ { capture = capture; complete_cb = cb } in
      let (ret, h', e') = run_async sh request expected_response timeout_ms h e in
      if is_neg ret then (ret, forget h', e') else (ret, h', e')

  unfoldable pub run_async_cb :
      Bool → Option Bytes → Option Bytes → ℕ → Option (ℤ → E → E) → Script E → E → ℤ × Script E × E
  unfolding run_async_with capture_reset
  run_async_cb = run_async_with (capture_reset false 0)

  -- A NULL buffer is `false`.
  unfoldable pub run_async_capture_cb :
      Bool
      → Option Bytes
      → Option Bytes
      → ℕ
      → Bool
      → ℕ
      → Option (ℤ → E → E)
      → Script E
      → E
      → ℤ × Script E × E
  unfolding run_async_with capture_reset
  run_async_capture_cb sh request expected_response timeout_ms given size =
      run_async_with (capture_reset given size) sh request expected_response timeout_ms

  -- While the thread sleeps, the others change both states: `sleep` stands for `k_msleep` with them.
  module _ (sleep : ℕ → Script E → E → Script E × E) where
    -- The loop of `tb45_sms_at_run`, with the rounds left: each adds 10 ms to what it has waited.
    unfoldable pub wait_result : ℕ → Script E → E → ℤ × Script E × E
    wait_result zero h e = (etimedout, h, e)
    wait_result (suc n) h e =
        let (claim_ret, e') = p.claim e in
        let (h', e'') = sleep poll_interval_ms h e' in
        let rest = wait_result n h' e'' in
        let ret : ℤ = elim h.last_result [ success ↦ pos 0 | timeout ↦ etimedout | abort ↦ eio ] in
        if eqb_ℤ claim_ret ebusy
        then rest
        else if is_neg claim_ret
        then (claim_ret, h, e')
        else (ret, h, p.release e')

    unfoldable pub run : Bool → Option Bytes → Option Bytes → ℕ → Script E → E → ℤ × Script E × E
    unfolding run_async_cb wait_result
    run sh request expected_response timeout_ms h e =
        let (ret, h', e') = run_async_cb sh request expected_response timeout_ms none h e in
        let waited = wait_result ((timeout_ms + 9) / 10) h' e' in
        if is_neg ret then (ret, h', e') else waited
