-- ===== src/AtHelper/RawSend/Once.antt =====
-- The claims, the timer and the reports over a sequence of events.
use tibbit.Common.{
  ℕ, ◌+◌, ◌≡◌, refl, inl, inr, false, some, List, [], ◌∷◌, ℤ, arith, length, if_elim, if◌then◌else◌,
}
use tibbit.AtHelper.Platform.{Services, PipeLaws}
use tibbit.AtHelper.RawSend.{Ctx, reset}
use tibbit.AtHelper.RawSend.Machine.{send_text_raw_async_cb}
use tibbit.AtHelper.RawSend.Trace.{
  Traced, Event, submit, fire, traced, report, handle, run, count_accepted,
}
use tibbit.AtHelper.RawSend.Running.{IsValid}
use tibbit.AtHelper.RawSend.Submit.{handler-IsValid, submit-Started}

module _ {Pipe E : Type 0} (p : Services Pipe E) (laws : PipeLaws p) (callback : ℤ → E → E) where
  -- An event is handled to its end and keeps the protocol.
  pub handle-IsValid :
      (text_max_len : ℕ) (e : Event) (ctx : Ctx Pipe (Traced E)) (t : Traced E)
      → IsValid p laws callback ctx t
      → (ctx' : Ctx Pipe (Traced E)) × (t' : Traced E) × (handle p callback text_max_len e ctx t
          ≡ some (ctx', t'))
        × IsValid p laws callback ctx' t'
  unfolding handle
  handle-IsValid text_max_len (submit c text ms) ctx t h =
      let (ret, ctx', t') =
        send_text_raw_async_cb (traced p callback) text_max_len c text ms (some (report p callback))
          ctx t in
      (
        ctx',
        count_accepted p callback ret t',
        refl,
        submit-Started p laws callback text_max_len c text ms ctx t h,
      )
  handle-IsValid text_max_len fire ctx t (inl f) =
      (ctx, t, if_elim (λ o. o ≡ some (ctx, t)) t.armed (λ a. cc (f.disarmed)) (λ a. refl), inl f)
  handle-IsValid text_max_len fire ctx t (inr s) =
      let (ctx', t', e, v) =
        handler-IsValid p laws callback ctx (record t { armed = false }) (ground arith) in
      (ctx', t', if_elim (λ o. o ≡ some (ctx', t')) t.armed (λ a. e) (λ a. cc (s.is_armed)), v)

  pub run-IsValid :
      (text_max_len : ℕ) (es : List Event) (ctx : Ctx Pipe (Traced E)) (t : Traced E)
      → IsValid p laws callback ctx t
      → (ctx' : Ctx Pipe (Traced E)) × (t' : Traced E) × (run p callback text_max_len es ctx t
          ≡ some (ctx', t'))
        × IsValid p laws callback ctx' t'
  unfolding run
  run-IsValid text_max_len [] ctx t h = (ctx, t, refl, h)
  run-IsValid text_max_len (e ∷ es) ctx t h =
      let (ctx₁, t₁, e₁, h₁) = handle-IsValid text_max_len e ctx t h in
      let (ctx₂, t₂, e₂, h₂) = run-IsValid text_max_len es ctx₁ t₁ h₁ in
      (ctx₂, t₂, rw (e₁, run) e₂, h₂)

  abbrev pub untouched : E → Traced E
  untouched inner = record {
    inner = inner;
    claims = 0;
    releases = 0;
    armed = false;
    accepted = 0;
    reported = [];
  }

  -- Over every sequence of calls and timer expiries from the reset context on, each handler run
  -- ends; while a send is under way the user pipe is claimed exactly once and the timer is armed,
  -- otherwise every claim has been released and the timer is not armed; and the results reported
  -- are as many as the calls accepted, less the one that is under way.
  pub sends_once :
      (text_max_len : ℕ) (es : List Event) (inner : E)
      → (ctx : Ctx Pipe (Traced E)) × (t : Traced E) × (run p callback text_max_len es reset
            (untouched inner)
          ≡ some (ctx, t))
        × (t.armed ≡ ctx.active)
        × (t.claims ≡ t.releases + (if ctx.active then 1 else 0))
        × (t.accepted ≡ length t.reported + (if ctx.active then 1 else 0))
  sends_once text_max_len es inner =
      let (ctx, t, e, h) =
        run-IsValid text_max_len es reset (untouched inner) (inl (ground arith)) in
      (ctx, t, e, ground arith, ground arith, ground arith)
