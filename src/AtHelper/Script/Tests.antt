-- ===== src/AtHelper/Script/Tests.antt =====
-- Concrete scripts: the state outside is whether the pipe is claimed.
use tibbit.Common.{
  ℕ, ◌≡◌, refl, ◌⊎◌, Bool, true, false, none, some, List, [], ◌∷◌, pos, if◌then◌else◌, codes, arith,
}
use tibbit.Common.Errno.{ebusy}
use tibbit.AtHelper.Script.Platform.{ScriptServices, ClaimLaws, success, abort, timeout}
use tibbit.AtHelper.Script.{no_capture, run_async_cb}
use tibbit.AtHelper.Script.Trace.{Call, Event, call, line, finish, Machine, handle, run_events}
use tibbit.AtHelper.Script.Once.{claimed_in_flight, accepted_reported, refused_call_drops_callback}

abbrev services : ScriptServices Bool
services = record {
  claim = λ e. if e then (ebusy, e) else (pos 0, true);
  release = λ _. false;
  set_request = λ b e. (pos 0, e);
  set_match = λ b e. (pos 0, e);
  set_timeouts = λ a b e. e;
  run_script = λ e. (pos 0, e);
}

services_laws : ClaimLaws services (λ e. e)
services_laws = record {
  claim_free = λ e n. ground (arith, n);
  claim_fails = λ e n. ground (arith, n);
  claim_busy = λ e h. ground (arith, h);
  release_frees = λ e. refl;
  request_keeps = λ b e. refl;
  match_keeps = λ b e. refl;
  timeouts_keep = λ a b e. refl;
  script_keeps = λ e. refl;
}

abbrev at_rest : Machine Bool
at_rest = record {
  script = record {
    active_shell = false;
    last_result = abort;
    complete_cb = none;
    capture = no_capture;
  };
  env = record { inner = false; reported = [] };
  accepted = [];
  in_flight = false;
}

abbrev ask : ℕ → Call
ask n = record {
  number = n;
  request = some (codes "AT");
  expected = none;
  timeout_ms = 1000;
  capture_size = none;
}

abbrev two_calls : List Event
two_calls = call (ask 1) ∷ line (codes "OK") ∷ finish success ∷ call (ask 2) ∷ finish timeout ∷ []

two_reported : (run_events services (λ n ret e. e) two_calls at_rest).env.reported ≡ 2 ∷ 1 ∷ []
unfolding run_events run_async_cb handle
two_reported = refl

claimed_in_flight_example :
    let m = run_events services (λ n ret e. e) two_calls at_rest in m.env.inner ≡ m.in_flight
claimed_in_flight_example =
    claimed_in_flight services (λ e. e) services_laws (λ n ret e. e) (λ n ret e. refl) two_calls
      at_rest refl refl refl

accepted_reported_example :
    let m = run_events services (λ n ret e. e) two_calls at_rest in
    ((m.in_flight ≡ false) × (m.accepted ≡ m.env.reported))
    ⊎ (n : ℕ) × (m.in_flight ≡ true) × (m.accepted ≡ n ∷ m.env.reported)
unfolding handle run_async_cb
accepted_reported_example =
    accepted_reported services (λ e. e) services_laws (λ n ret e. e) two_calls at_rest
      (refl, (tt, (tt, (refl, (tt, tt))))) refl refl

abbrev one_running : Machine Bool
one_running = handle services (λ n ret e. e) (call (ask 1)) at_rest

refused_call_drops_callback_example :
    let m =
      handle services
        (λ n ret e. e)
        (finish success)
        (handle services (λ n ret e. e) (call (ask 2)) one_running) in
    (m.in_flight ≡ false) × (m.accepted ≡ 1 ∷ []) × (m.env.reported ≡ [])
unfolding handle run_async_cb
refused_call_drops_callback_example =
    refused_call_drops_callback services (λ e. e) services_laws (λ n ret e. e) (ask 2) success
      one_running refl refl
