-- ===== src/DelayableRetry/Tests.antt =====
-- Runs of the retry object at concrete callbacks.
use tibbit.Common.{
  ℕ, ◌+◌, ◌≡◌, refl, false, Option, none, some, List, [], ◌∷◌, ℤ, pos, negsuc, arith,
}
use tibbit.Common.Errno.{einprogress}
use tibbit.DelayableRetry.{Retry, init, is_pending}
use tibbit.DelayableRetry.Trace.{
  attempted, rescheduled, completed, Traced, Event, begin, fire, finish, completions, handle, run,
}
use tibbit.DelayableRetry.Protocol.{given_ops, Shows, run_protocol, fresh-Holds}
use tibbit.DelayableRetry.Settles.{settle, begin_settles}

-- The client counts the calls; each attempt answers that it is under way.
abbrev attempt_sms : ℕ → ℕ → ℤ × ℕ
attempt_sms k c = (einprogress, c + 1)

abbrev report : ℤ → ℕ → ℕ
report ret c = c

abbrev arm : ℕ → ℕ → ℤ × ℕ
arm ms c = (pos 0, c)

abbrev blank : Retry (Traced ℕ)
blank = record {
  ops = none;
  attempt = 0;
  max_attempts = 0;
  pending = false;
  attempt_in_progress = false;
}

abbrev quiet : Traced ℕ
quiet = record { client = 0; calls = []; armed = false }

abbrev wired : Option (Retry (Traced ℕ))
wired = init (some blank) (given_ops attempt_sms report none none arm)

-- Two attempts that fail, of two allowed, then a late answer.
abbrev two_failures : List Event
two_failures = begin 2 ∷ finish (negsuc 4) ∷ fire ∷ finish (negsuc 4) ∷ finish (pos 0) ∷ []

two_failures_report_once :
    (run arm two_failures wired quiet).1.calls
    ≡ completed (negsuc 4) ∷ attempted 2 ∷ rescheduled (pos 0) ∷ attempted 1 ∷ []
unfolding run init handle
two_failures_report_once = refl

run_protocol_example :
    let (r', s') = run arm two_failures wired quiet in Shows attempt_sms report none none arm r' s'
run_protocol_example =
    run_protocol attempt_sms report none none arm two_failures blank quiet refl refl

begin_settles_example :
    let (r', s') = handle arm (begin 2) wired quiet in
    let (r'', s'') =
      settle attempt_sms report none none arm (negsuc 4 ∷ negsuc 4 ∷ negsuc 4 ∷ pos 0 ∷ []) r' s' in
    (is_pending r'' ≡ false) × (completions s''.calls ≡ 1)
unfolding is_pending init
begin_settles_example =
    begin_settles attempt_sms report none none arm 2 (negsuc 4 ∷ negsuc 4 ∷ negsuc 4 ∷ pos 0 ∷ [])
      wired quiet (fresh-Holds attempt_sms report none none arm blank quiet refl refl) (omega arith)
      (omega arith) refl (omega arith)
