-- ===== src/AtHelper/RawSend/Trace.antt =====
-- The raw send among the calls and timer expiries that drive it, with a record of the claims on the
-- user pipe and of the results that it reports. The services and the client's callback are
-- parameters; the wrappers below note each call and pass it on. A reschedule that succeeds arms the
-- timer.
use tibbit.Common.{
  ℕ, ◌+◌, Bool, true, false, Option, none, some, List, [], ◌∷◌, ℤ, is_neg, if◌then◌else◌, Bytes,
}
use tibbit.AtHelper.Platform.{Services}
use tibbit.AtHelper.RawSend.{Ctx}
use tibbit.AtHelper.RawSend.Machine.{work_handler, send_text_raw_async_cb}

pub record Traced (E : Type 0) : Type 0 where
  pub inner : E
  pub claims : ℕ  -- that succeeded
  pub releases : ℕ
  pub armed : Bool
  pub accepted : ℕ  -- calls that answered a number that is not negative
  pub reported : List ℤ  -- newest first

-- A call with its texts and its timeout, or the timer's expiry.
pub data Event : Type 0 where
  submit : Option Bytes → Option Bytes → Option ℕ → Event
  fire : Event

module _ {Pipe E : Type 0} (p : Services Pipe E) (callback : ℤ → E → E) where
  abbrev pass : ℤ × E → Traced E → ℤ × Traced E
  pass (ret, inner) t = (ret, record t { inner = inner })

  abbrev pub traced : Services Pipe (Traced E)
  traced = record {
    uptime = λ t. p.uptime t.inner;
    wq_ready = λ t. p.wq_ready t.inner;
    schedule = λ ms t.
        let (ret, inner) = p.schedule ms t.inner in
        (ret, record t { inner = inner; armed = if is_neg ret then t.armed else true });
    get_pipe = λ t. p.get_pipe t.inner;
    claim = λ t.
        let (ret, inner) = p.claim t.inner in
        (ret, record t { inner = inner; claims = if is_neg ret then t.claims else t.claims + 1 });
    release = λ t. record t { inner = p.release t.inner; releases = t.releases + 1 };
    chat_attach = λ pipe t. pass (p.chat_attach pipe t.inner) t;
    chat_release = λ t. record t { inner = p.chat_release t.inner };
    open_async = λ pipe t. pass (p.open_async pipe t.inner) t;
    transmit = λ pipe bytes t. pass (p.transmit pipe bytes t.inner) t;
    receive = λ pipe t.
        let (ret, chunk, inner) = p.receive pipe t.inner in
        (ret, chunk, record t { inner = inner });
    unread = λ t. p.unread t.inner;
  }

  abbrev pub report : ℤ → Traced E → Traced E
  report ret t = record t { inner = callback ret t.inner; reported = ret ∷ t.reported }

  abbrev pub count_accepted : ℤ → Traced E → Traced E
  count_accepted ret t = record t { accepted = if is_neg ret then t.accepted else t.accepted + 1 }

  -- The handler runs only if its work item is armed, and disarms it. `none`: it has not ended.
  unfoldable pub handle :
      ℕ → Event → Ctx Pipe (Traced E) → Traced E → Option (Ctx Pipe (Traced E) × Traced E)
  handle text_max_len (submit cmgs_cmd text ms) ctx t =
      let (ret, ctx', t') =
        send_text_raw_async_cb traced text_max_len cmgs_cmd text ms (some report) ctx t in
      some (ctx', count_accepted ret t')
  handle text_max_len fire ctx t =
      if t.armed then work_handler traced ctx (record t { armed = false }) else some (ctx, t)

  unfoldable pub run :
      ℕ → List Event → Ctx Pipe (Traced E) → Traced E → Option (Ctx Pipe (Traced E) × Traced E)
  run text_max_len [] ctx t = some (ctx, t)
  run text_max_len (e ∷ es) ctx t = elim (handle text_max_len e ctx t) [
    | none ↦ none
    | some r ↦ run text_max_len es r.0 r.1
  ]
