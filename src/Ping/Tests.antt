-- ===== src/Ping/Tests.antt =====
-- Concrete pings: an environment whose state is its clock, in which every call succeeds.
use tibbit.Common.{
  ℕ, ◌+◌, ◌≤◌, ◌<◌, ◌≡◌, refl, ◌⊎◌, true, false, Option, none, some, List, [], ◌∷◌, ℤ, pos, is_neg,
  arith, ◌==◌, eqb_ℤ,
}
use tibbit.Common.Errno.{etimedout, ecanceled}
use tibbit.Ping.Platform.{Request, Services}
use tibbit.Ping.{Config, RunCtx, run_result, prepare_request, async_wait_timeout_ms}
use tibbit.Ping.Limits.{
  Checked, prepare_request-InRange, run_result_zero, async_wait_timeout_covers,
}
use tibbit.Ping.Async.{AsyncCtx, State}
use tibbit.Ping.Async.Trace.{Traced, Job, Event, job, fire, packet, run}
use tibbit.Ping.Async.Once.{Accounted, jobs_complete_once, WithinLimits, counters_WithinLimits}

abbrev services : Services ℕ Unit ℕ
services = record {
  uptime = λ now. now;
  schedule = λ ms now. (pos 0, now + ms);
  pton = λ host. some 7;
  getaddrinfo = λ host now. (pos 0, none, now);
  freeaddrinfo = λ now. now;
  default_iface = λ now. some tt;
  icmp_init = λ now. (pos 0, now);
  icmp_cleanup = λ now. now;
  send_echo = λ iface dst identifier sequence size now. (pos 0, now);
  complete_job = λ req ret now. now;
  any_addr = 0;
  same_addr = λ a b. a == b;
}

abbrev config : Config
config = record {
  host_max_len = 63;
  default_count = 4;
  max_count = 10;
  default_timeout_ms = 1000;
  min_timeout_ms = 100;
  max_timeout_ms = 10000;
  extra_retries = 1;
  retry_delay_ms = 5000;
}

abbrev request : Request ℕ (Traced ℕ)
request = record {
  host = 104 ∷ [];
  count = 2;
  timeout_ms = 150;
  payload_size = 4;
  progress_cb = none;
  complete_cb = none;
}

abbrev run_ctx : RunCtx ℕ Unit
run_ctx = record {
  iface = none;
  dst_addr = 0;
  identifier = 0;
  expected_identifier = 0;
  expected_sequence = 0;
  sent = 2;
  received = 1;
  reply_addr = 0;
  reply_received = false;
  log_replies = false;
}

abbrev at_rest : AsyncCtx ℕ Unit (Traced ℕ)
at_rest = record {
  req = request;
  run_ctx = run_ctx;
  state = State.idle;
  sequence = 0;
  attempt = 0;
  max_attempts = 0;
  last_ret = pos 0;
  started_at_ms = 0;
  deadline_ms = 0;
}

abbrev untouched : Traced ℕ
untouched = record { inner = 3; armed = false; accepted = 0; completed = [] }

abbrev two_pings : Job
two_pings = record {
  host = 104 ∷ [];
  count = 2;
  timeout_ms = 150;
  payload_size = 4;
  wants_progress = true;
}

-- The first ping is answered; a second job comes too early; the second ping times out.
abbrev one_answer : List (Event ℕ)
one_answer =
    job two_pings ∷ fire ∷ packet 7 (some (3, 1)) ∷ job two_pings ∷ fire ∷ fire ∷ fire ∷ fire ∷ []

-- One more attempt follows a run without an answer.
abbrev no_answer : List (Event ℕ)
no_answer =
    job two_pings
    ∷ fire
    ∷ fire
    ∷ fire
    ∷ fire
    ∷ fire
    ∷ fire
    ∷ fire
    ∷ fire
    ∷ fire
    ∷ fire
    ∷ fire
    ∷ fire
    ∷ fire
    ∷ []

abbrev outcome : Option (AsyncCtx ℕ Unit (Traced ℕ) × Traced ℕ) → Option (ℕ × ℕ × List ℤ)
outcome none = none
outcome (some (ctx, t)) = some (ctx.attempt, t.accepted, t.completed)

abbrev ran : List (Event ℕ) → Option (AsyncCtx ℕ Unit (Traced ℕ) × Traced ℕ)
ran es = run config services (λ report now. now) es at_rest untouched

ping_answered : outcome (ran one_answer) ≡ some (1, 1, pos 0 ∷ [])
unfolding run tibbit.Ping.Async.Trace.handle tibbit.Ping.Async.dispatch
    tibbit.Ping.Async.work_handler
ping_answered = refl

ping_unanswered : outcome (ran no_answer) ≡ some (2, 1, etimedout ∷ [])
unfolding run tibbit.Ping.Async.Trace.handle tibbit.Ping.Async.dispatch
    tibbit.Ping.Async.work_handler
ping_unanswered = refl

jobs_complete_once_example : Accounted config services (λ report now. now) (ran one_answer)
jobs_complete_once_example =
    jobs_complete_once config services (λ report now. now) one_answer at_rest untouched
      (omega arith, (omega arith, tt)) refl refl refl

counters_WithinLimits_example : WithinLimits config services (λ report now. now) (ran no_answer)
counters_WithinLimits_example =
    counters_WithinLimits config services (λ report now. now) no_answer at_rest untouched
      (omega arith, tt) refl refl refl

prepare_request_example :
    Checked config
      (104 ∷ [])
      4
      150
      (prepare_request {Addr = ℕ} {E = ℕ} config (some (104 ∷ [])) 0 150)
prepare_request_example = prepare_request-InRange ℕ ℕ config (104 ∷ []) 0 150

run_result_example :
    ((run_result services run_ctx etimedout ≡ pos 0)
      × (eqb_ℤ etimedout ecanceled ≡ false)
      × (0 < run_ctx.received))
    ⊎ ((is_neg (run_result services run_ctx etimedout) ≡ true)
        × ((eqb_ℤ etimedout ecanceled ≡ true) ⊎ (run_ctx.received ≡ 0)))
run_result_example = run_result_zero services run_ctx etimedout (omega arith)

async_wait_timeout_example :
    let wait = async_wait_timeout_ms config (some request) in
    (1000 ≤ wait) × (wait ≤ 0x7fffffff) × ((wait ≡ 0x7fffffff) ⊎ (7600 ≤ wait))
async_wait_timeout_example = async_wait_timeout_covers config request
