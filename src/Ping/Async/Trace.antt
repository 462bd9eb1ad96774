-- ===== src/Ping/Async/Trace.antt =====
-- The machine of the ping jobs among the events that drive it: a job is dispatched, the timer
-- expires, a packet comes in. The services and the callback for progress are parameters; the
-- wrappers note which jobs were accepted and completed, and arm the timer where a reschedule
-- succeeds.
use tibbit.Common.{
  ℕ, ◌+◌, ◌<◌, Bool, true, false, Option, none, some, List, [], ◌∷◌, ℤ, is_neg, eqb_ℤ,
  if◌then◌else◌, Bytes,
}
use tibbit.Common.Errno.{einprogress}
use tibbit.Ping.Platform.{Progress, Request, Services}
use tibbit.Ping.{Config}
use tibbit.Ping.Async.{AsyncCtx, work_handler, dispatch, reply}

pub record Traced (E : Type 0) : Type 0 where
  pub inner : E
  pub armed : Bool
  pub accepted : ℕ  -- jobs
  pub completed : List ℤ  -- newest first

pub record Job : Type 0 where
  pub host : Bytes
  pub count : ℕ
  pub timeout_ms : ℕ
  pub payload_size : ℕ
  pub wants_progress : Bool

pub data Event (Addr : Type 0) : Type 0 where
  job : Job → Event Addr
  fire : Event Addr
  packet : Addr → Option (ℕ × ℕ) → Event Addr

-- `sequence` is a uint16_t: the limit that the Kconfig puts on a count is 1000.
abbrev pub SmallCounts : {Addr : Type 0} → List (Event Addr) → Type 0
SmallCounts [] = Unit
SmallCounts (job j ∷ es) = (j.count < 65535) × SmallCounts es
SmallCounts (fire ∷ es) = SmallCounts es
SmallCounts (packet src id_seq ∷ es) = SmallCounts es

module _ {Addr Iface E : Type 0} (config : Config) (p : Services Addr Iface E)
    (on_progress : Progress Addr → E → E) where
  abbrev pass : ℤ × E → Traced E → ℤ × Traced E
  pass (ret, inner) t = (ret, record t { inner = inner })

  abbrev pub progress : Progress Addr → Traced E → Traced E
  progress report t = record t { inner = on_progress report t.inner }

  abbrev untraced : Request Addr (Traced E) → Request Addr E
  untraced req = record {
    host = req.host;
    count = req.count;
    timeout_ms = req.timeout_ms;
    payload_size = req.payload_size;
    progress_cb = none;
    complete_cb = none;
  }

  abbrev pub traced : Services Addr Iface (Traced E)
  traced = record {
    uptime = λ t. p.uptime t.inner;
    schedule = λ ms t.
        let (ret, inner) = p.schedule ms t.inner in
        (ret, record t { inner = inner; armed = if is_neg ret then t.armed else true });
    pton = p.pton;
    getaddrinfo = λ host t.
        let (ret, results, inner) = p.getaddrinfo host t.inner in
        (ret, results, record t { inner = inner });
    freeaddrinfo = λ t. record t { inner = p.freeaddrinfo t.inner };
    default_iface = λ t. p.default_iface t.inner;
    icmp_init = λ t. pass (p.icmp_init t.inner) t;
    icmp_cleanup = λ t. record t { inner = p.icmp_cleanup t.inner };
    send_echo = λ iface dst id seq size t. pass (p.send_echo iface dst id seq size t.inner) t;
    complete_job = λ req ret t. record t {
      inner = p.complete_job (untraced req) ret t.inner;
      completed = ret ∷ t.completed;
    };
    any_addr = p.any_addr;
    same_addr = p.same_addr;
  }

  abbrev pub request_of : Job → Request Addr (Traced E)
  request_of j = record {
    host = j.host;
    count = j.count;
    timeout_ms = j.timeout_ms;
    payload_size = j.payload_size;
    progress_cb = if j.wants_progress then some progress else none;
    complete_cb = none;
  }

  abbrev pub Machine : Type 0
  Machine = AsyncCtx Addr Iface (Traced E)

  abbrev pub count_accepted : ℤ → Traced E → Traced E
  count_accepted ret t = record t {
    accepted = if eqb_ℤ ret einprogress then t.accepted + 1 else t.accepted;
  }

  -- The handler runs only if its work item is armed, and disarms it.
  unfoldable pub handle : Event Addr → Machine → Traced E → Option (Machine × Traced E)
  unfolding reply
  handle (job j) ctx t =
      let (ret, ctx', t') = dispatch config traced (request_of j) ctx t in
      some (ctx', count_accepted ret t')
  handle fire ctx t =
      if t.armed then work_handler config traced ctx (record t { armed = false }) else some (ctx, t)
  handle (packet src id_seq) ctx t = some (reply config traced src id_seq ctx, t)

  unfoldable pub run : List (Event Addr) → Machine → Traced E → Option (Machine × Traced E)
  run [] ctx t = some (ctx, t)
  run (e ∷ es) ctx t = elim (handle e ctx t) [ none ↦ none | some r ↦ run es r.0 r.1 ]
