-- ===== src/AtHelper/Script/Platform.antt =====
-- What the scripts of tb45_sms_at_helper.c call: the claim on the user pipe and the modem's chat.
-- `E` is the state of everything outside the file.
use tibbit.Common.{ℕ, ◌≡◌, Bool, true, false, ℤ, is_neg, Bytes}

-- `enum modem_chat_script_result`
pub data ScriptResult : Type 0 where
  success abort timeout : ScriptResult

pub record ScriptServices (E : Type 0) : Type 0 where
  pub claim : E → ℤ × E  -- modem_at_user_pipe_claim
  pub release : E → E  -- modem_at_user_pipe_release
  pub set_request : Bytes → E → ℤ × E  -- modem_chat_script_chat_set_request
  pub set_match : Bytes → E → ℤ × E  -- modem_chat_match_set_match
  pub set_timeouts : ℕ → ℕ → E → E  -- modem_chat_script_chat_set_timeout, modem_chat_script_set_timeout
  pub run_script : E → ℤ × E  -- modem_chat_run_script_async

-- One claim at a time: a second one is refused and changes nothing of it, and only a release ends it.
pub record ClaimLaws {E : Type 0} (p : ScriptServices E) (claimed : E → Bool) : Type 0 where
  pub claim_free : (e : E) → is_neg (p.claim e).0 ≡ false → claimed (p.claim e).1 ≡ true
  pub claim_fails : (e : E) → is_neg (p.claim e).0 ≡ true → claimed (p.claim e).1 ≡ claimed e
  pub claim_busy : (e : E) → claimed e ≡ true → is_neg (p.claim e).0 ≡ true
  pub release_frees : (e : E) → claimed (p.release e) ≡ false
  pub request_keeps : (b : Bytes) (e : E) → claimed (p.set_request b e).1 ≡ claimed e
  pub match_keeps : (b : Bytes) (e : E) → claimed (p.set_match b e).1 ≡ claimed e
  pub timeouts_keep : (a b : ℕ) (e : E) → claimed (p.set_timeouts a b e) ≡ claimed e
  pub script_keeps : (e : E) → claimed (p.run_script e).1 ≡ claimed e
