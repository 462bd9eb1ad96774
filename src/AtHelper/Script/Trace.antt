-- ===== src/AtHelper/Script/Trace.antt =====
-- The scripts among the events that drive them: calls, lines of answers, ends of scripts. The
-- callback of a call is known by the call's number.
use tibbit.Common.{
  ℕ, ◌≡◌, Bool, true, false, Option, none, some, List, [], ◌∷◌, ℤ, is_neg, if◌then◌else◌, Bytes,
}
use tibbit.AtHelper.Script.Platform.{ScriptServices, ScriptResult}
use tibbit.AtHelper.Script.{
  Script, script_callback, run_async_cb, run_async_capture_cb, print_match,
}

-- The calls accepted and reported, by their numbers, newest first.
pub record Traced (E : Type 0) : Type 0 where
  pub inner : E
  pub reported : List ℕ

pub record Call : Type 0 where
  pub number : ℕ
  pub request : Option Bytes
  pub expected : Option Bytes
  pub timeout_ms : ℕ
  pub capture_size : Option ℕ  -- of the buffer of `tb45_sms_at_run_async_capture_cb`

pub data Event : Type 0 where
  call : Call → Event
  line : Bytes → Event
  finish : ScriptResult → Event

-- `accepted`: the numbers of the calls that started a script, newest first; `in_flight`: the chat
-- runs a script.
pub record Machine (E : Type 0) : Type 0 where
  pub script : Script (Traced E)
  pub env : Traced E
  pub accepted : List ℕ
  pub in_flight : Bool

module _ {E : Type 0} (p : ScriptServices E) (callback : ℕ → ℤ → E → E) where
  abbrev pass : ℤ × E → Traced E → ℤ × Traced E
  pass (ret, inner) t = (ret, record t { inner = inner })

  abbrev pub traced : ScriptServices (Traced E)
  traced = record {
    claim = λ t. pass (p.claim t.inner) t;
    release = λ t. record t { inner = p.release t.inner };
    set_request = λ b t. pass (p.set_request b t.inner) t;
    set_match = λ b t. pass (p.set_match b t.inner) t;
    set_timeouts = λ a b t. record t { inner = p.set_timeouts a b t.inner };
    run_script = λ t. pass (p.run_script t.inner) t;
  }

  abbrev pub report : ℕ → ℤ → Traced E → Traced E
  report n ret t = record t { inner = callback n ret t.inner; reported = n ∷ t.reported }

  abbrev pub start : Call → Script (Traced E) → Traced E → ℤ × Script (Traced E) × Traced E
  start c h t = elim c.capture_size [
    | none ↦
        run_async_cb traced false c.request c.expected c.timeout_ms (some (report c.number)) h t
    | some size ↦
        run_async_capture_cb traced false c.request c.expected c.timeout_ms true size
          (some (report c.number)) h t
  ]

  abbrev pub started : ℕ → Machine E → ℤ × Script (Traced E) × Traced E → Machine E
  started n m (ret, h, t) =
      if is_neg ret
      then record m { script = h; env = t }
      else record { script = h; env = t; accepted = n ∷ m.accepted; in_flight = true }

  abbrev pub finished : Machine E → Script (Traced E) × Traced E → Machine E
  finished m (h, t) = record m { script = h; env = t; in_flight = false }

  -- A script ends only while it runs.
  unfoldable pub handle : Event → Machine E → Machine E
  unfolding script_callback print_match
  handle (call c) m = started c.number m (start c m.script m.env)
  handle (line text) m = record m { script = print_match text m.script }
  handle (finish result) m =
      if m.in_flight then finished m (script_callback traced result m.script m.env) else m

  unfoldable pub run_events : List Event → Machine E → Machine E
  run_events [] m = m
  run_events (e ∷ es) m = run_events es (handle e m)

  abbrev pub Waits : Event → Machine E → Type 0
  Waits (call c) m = m.in_flight ≡ false
  Waits (line text) m = Unit
  Waits (finish result) m = Unit

  -- No call comes while a script runs.
  abbrev pub Polite : List Event → Machine E → Type 0
  Polite [] m = Unit
  Polite (e ∷ es) m = Waits e m × Polite es (handle e m)
