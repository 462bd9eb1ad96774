-- ===== src/AtHelper/RawSend/Delivery.antt =====
-- The results of the sends over a sequence of events, against what the modem was sent.
use mathlib.Core.Path.{subst}
use tibbit.Common.{
  ℕ, zero, suc, ◌≡◌, refl, sym, ◌∙◌, inl, inr, true, false, Option, none, some, List, [], ◌∷◌, ℤ,
  is_neg, arith, Bytes, if_elim,
}
use tibbit.Common.Errno.{enodev}
use tibbit.AtHelper.Platform.{Services, PipeLaws}
use tibbit.AtHelper.RawSend.{Ctx, reset, prepare_line, prepare_transmit}
use tibbit.AtHelper.RawSend.Machine.{
  send_text_raw_async_cb, drain_rx, launch, abandon, drained, opened, refusal, claim_and_launch,
}
use tibbit.AtHelper.RawSend.Total.{Refuses, refusal-Refuses}
use tibbit.AtHelper.RawSend.Trace.{Event, submit, fire}
use tibbit.AtHelper.RawSend.Transcript.{
  setup_1, sent_by, Noted, noted, outcome, note_accepted, deliver, deliver_all,
}
use tibbit.AtHelper.RawSend.Written.{AllWritten}
use tibbit.AtHelper.RawSend.Handled.{IsValid, At-Base, Ends, handler-IsValid}

module _ {Pipe E : Type 0} (p : Services Pipe E) (laws : PipeLaws p) (callback : ℤ → E → E) where
  -- An accepted call is under way with its texts; a refused one has changed nothing of this.
  abbrev Started : Bytes → Bytes → ℤ × Ctx Pipe (Noted E) × Noted E → Type 0
  Started c text (ret, ctx, t) =
      IsValid p laws callback ctx (note_accepted p callback (some c) (some text) ret t)

  abandon-Started :
      (c text : Bytes) (ret : ℤ) (pipe : Pipe) (ctx : Ctx Pipe (Noted E)) (t : Noted E)
      → is_neg ret ≡ true
      → ctx.active ≡ false
      → AllWritten t.outcomes
      → Started c text (abandon (noted p callback) ret pipe ctx t)
  unfolding abandon
  abandon-Started c text ret pipe ctx t neg off w = inl (ground arith)

  launch-Started :
      (c text : Bytes) (ms : ℕ) (pipe : Pipe) (ctx : Ctx Pipe (Noted E)) (t : Noted E)
      → t.sent ≡ []
      → AllWritten t.outcomes
      → Started c text (launch (noted p callback) c text ms (some (outcome p callback)) pipe ctx t)
  unfolding launch prepare_line prepare_transmit sent_by setup_1
  launch-Started c text ms pipe ctx t fresh w =
      let (sched_ret, inner) = p.schedule 0 t.inner in
      if_elim (Started c text) (is_neg sched_ret)
        (λ n.
          abandon-Started c text sched_ret pipe
            (record ctx { active = false; user_pipe_claimed = false }) (record t { inner = inner })
            n refl w)
        (λ _. inr (
          record {
            active = refl;
            state_is = refl;
            callback_kept = refl;
            cmgs_cmd_is = refl;
            text_is = refl;
            before = w;
          },
          rw fresh,
        ))

  -- What draining the pipe leaves as it was.
  record SameNotes (t t' : Noted E) : Type 0 where
    sent : t'.sent ≡ t.sent
    outcomes : t'.outcomes ≡ t.outcomes

  drain_rx-SameNotes :
      (n : ℕ) (pipe : Pipe) (t : Noted E) → SameNotes t (drain_rx (noted p callback) n pipe t).1
  unfolding drain_rx
  drain_rx-SameNotes zero pipe t = ground arith
  drain_rx-SameNotes (suc n) pipe t =
      let (ret, chunk, t') = (noted p callback).receive (some pipe) t in
      ground (arith, drain_rx-SameNotes n pipe t')

  module _ (c text : Bytes) (ms : ℕ) (pipe : Pipe) (ctx : Ctx Pipe (Noted E)) where
    opened-Started :
        (ret : ℤ) (t : Noted E)
        → ctx.active ≡ false
        → t.sent ≡ []
        → AllWritten t.outcomes
        → Started c text
            (opened (noted p callback) c text ms (some (outcome p callback)) pipe ctx (ret, t))
    unfolding opened drained
    opened-Started ret t off fresh w =
        let (drain_ret, t') = drain_rx (noted p callback) 64 pipe t in
        let same = drain_rx-SameNotes 64 pipe t in
        let w' = subst AllWritten (sym same.outcomes) w in
        if_elim (Started c text) (is_neg ret) (λ n. abandon-Started c text ret pipe ctx t n off w)
          (λ _.
            if_elim (Started c text) (is_neg drain_ret)
              (λ n. abandon-Started c text drain_ret pipe ctx t' n off w')
              (λ _. launch-Started c text ms pipe ctx t' (same.sent ∙ fresh) w'))

    claim_and_launch-Started :
        (t : Noted E)
        → ctx.active ≡ false
        → AllWritten t.outcomes
        → Started c text
            (claim_and_launch (noted p callback) c text ms (some (outcome p callback)) pipe ctx t)
    unfolding claim_and_launch
    claim_and_launch-Started t off w =
        let s = noted p callback in
        let (claim_ret, t₁) = s.claim t in
        let (open_ret, t₂) = s.open_async pipe (s.chat_release t₁) in
        if_elim (Started c text) (is_neg claim_ret) (λ n. inl (ground arith))
          (λ _. opened-Started open_ret t₂ off refl w)

  submit-Started :
      (text_max_len : ℕ) (c text : Bytes) (ms : Option ℕ) (ctx : Ctx Pipe (Noted E)) (t : Noted E)
      → IsValid p laws callback ctx t
      → Started c text (
          send_text_raw_async_cb
            (noted p callback)
            text_max_len
            (some c)
            (some text)
            ms
            (some (outcome p callback))
            ctx
            t)
  unfolding send_text_raw_async_cb
  submit-Started text_max_len c text none ctx t h = h
  submit-Started text_max_len c text (some ms) ctx t h =
      after (refusal (noted p callback) text_max_len c text ms ctx t)
        (refusal-Refuses (noted p callback) text_max_len c text ms ctx t)
    where
      free : ctx.active ≡ false → AllWritten t.outcomes
      free off = elim h [
        | inl f ↦ f.1
        | inr r ↦ cc (off, (At-Base p laws callback ctx.state ctx t r).active)
      ]

      after :
          (o : Option ℤ)
          → Refuses ctx o
          → Started c text (elim o [
            | some ret ↦ (ret, ctx, t)
            | none ↦ elim (p.get_pipe t.inner) [
              | none ↦ (enodev, ctx, t)
              | some pipe ↦
                  claim_and_launch
                    (noted p callback)
                    c
                    text
                    ms
                    (some (outcome p callback))
                    pipe
                    ctx
                    t
            ]
          ])
      after (some ret) neg = rw neg h
      after none off = with_pipe (p.get_pipe t.inner)
        where
          with_pipe :
              (o : Option Pipe)
              → Started c text (elim o [
                | none ↦ (enodev, ctx, t)
                | some pipe ↦
                    claim_and_launch
                      (noted p callback)
                      c
                      text
                      ms
                      (some (outcome p callback))
                      pipe
                      ctx
                      t
              ])
          with_pipe none = h
          with_pipe (some pipe) = claim_and_launch-Started c text ms pipe ctx t off (free off)

  deliver-IsValid :
      (text_max_len : ℕ) (e : Event) (ctx : Ctx Pipe (Noted E)) (t : Noted E)
      → IsValid p laws callback ctx t
      → Ends p laws callback (deliver p callback text_max_len e ctx t)
  unfolding deliver send_text_raw_async_cb
  deliver-IsValid text_max_len fire ctx t h = handler-IsValid p laws callback ctx t h
  deliver-IsValid text_max_len (submit none text ms) ctx t h = (ctx, t, refl, h)
  deliver-IsValid text_max_len (submit (some c) none ms) ctx t h = (ctx, t, refl, h)
  deliver-IsValid text_max_len (submit (some c) (some text) ms) ctx t h =
      let (ret, ctx', t') =
        send_text_raw_async_cb (noted p callback) text_max_len (some c) (some text) ms
          (some (outcome p callback)) ctx t in
      (
        ctx',
        note_accepted p callback (some c) (some text) ret t',
        refl,
        submit-Started text_max_len c text ms ctx t h,
      )

  deliver_all-IsValid :
      (text_max_len : ℕ) (es : List Event) (ctx : Ctx Pipe (Noted E)) (t : Noted E)
      → IsValid p laws callback ctx t
      → Ends p laws callback (deliver_all p callback text_max_len es ctx t)
  unfolding deliver_all
  deliver_all-IsValid text_max_len [] ctx t h = (ctx, t, refl, h)
  deliver_all-IsValid text_max_len (e ∷ es) ctx t h =
      let (ctx₁, t₁, e₁, h₁) = deliver-IsValid text_max_len e ctx t h in
      let (ctx₂, t₂, e₂, h₂) = deliver_all-IsValid text_max_len es ctx₁ t₁ h₁ in
      (ctx₂, t₂, rw (e₁, deliver_all) e₂, h₂)

  abbrev pub fresh : E → Noted E
  fresh inner = record { inner = inner; sent = []; cmgs_cmd = []; text = []; outcomes = [] }

  -- Over every sequence of calls and timer expiries from the reset context on, however the pipe cuts
  -- up what it takes, each result 0 is reported when the modem has been sent exactly `AT+CPIN?`,
  -- `AT+CMGF=1`, `AT+CSCS="IRA"` and the command of the call, each with a carriage return, then its
  -- text and Ctrl+Z.
  pub sends_script :
      (text_max_len : ℕ) (es : List Event) (inner : E)
      → (ctx : Ctx Pipe (Noted E)) × (t : Noted E) × (deliver_all p callback text_max_len es reset
            (fresh inner)
          ≡ some (ctx, t))
        × AllWritten t.outcomes
  sends_script text_max_len es inner =
      let (ctx, t, e, h) =
        deliver_all-IsValid text_max_len es reset (fresh inner) (inl (refl, tt)) in
      (
        ctx,
        t,
        e,
        elim h [ inl f ↦ f.1 | inr r ↦ (At-Base p laws callback ctx.state ctx t r).before ],
      )
