-- ===== src/AtHelper/RawSend/Submit.antt =====
-- The handler and the call that starts a send keep the protocol: claim, timer and reports.
use tibbit.Common.{
  ℕ, zero, suc, ◌+◌, ◌≡◌, inl, inr, true, false, Option, none, some, ℤ, arith, length, Bytes,
  is_neg, Bool-cases,
}
use tibbit.Common.Errno.{enodev}
use tibbit.AtHelper.Platform.{Services, PipeLaws}
use tibbit.AtHelper.RawSend.{Ctx, Round, continue, break, prepare_line, prepare_transmit}
use tibbit.AtHelper.RawSend.Machine.{
  round, work_handler, send_text_raw_async_cb, drain_rx, launch, abandon, drained, opened, refusal,
  claim_and_launch,
}
use tibbit.AtHelper.RawSend.Trace.{Traced, traced, report, count_accepted}
use tibbit.AtHelper.RawSend.Running.{Free, Running, IsValid, Nexts, leave-IsValid, round-Nexts}
use tibbit.AtHelper.RawSend.Total.{Refuses, refusal-Refuses, Stepped, work_handler-Ends}

module _ {Pipe E : Type 0} (p : Services Pipe E) (laws : PipeLaws p) (callback : ℤ → E → E) where
  traced_laws : PipeLaws (traced p callback)
  traced_laws = record { receive_takes = λ pipe t. laws.receive_takes pipe t.inner }

  round-Stepped :
      (ctx : Ctx Pipe (Traced E)) (t : Traced E)
      → Running p laws callback ctx t
      → (ctx.active ≡ true)
        × Stepped
            (traced p callback)
            traced_laws
            (Running p laws callback)
            (IsValid p laws callback)
            (round (traced p callback) ctx.state ctx t)
  round-Stepped ctx t h = (
    h.active,
    after (round (traced p callback) ctx.state ctx t)
        (round-Nexts p laws callback ctx.state ctx t h),
  )
    where
      after :
          (o : Option (Round Pipe (Traced E)))
          → Nexts p laws callback o
          → Stepped
              (traced p callback)
              traced_laws
              (Running p laws callback)
              (IsValid p laws callback)
              o
      after none k = tt
      after (some (continue c u)) k = k
      after (some (break ret c u)) k = leave-IsValid p laws callback ret c u k

  pub handler-IsValid :
      (ctx : Ctx Pipe (Traced E)) (t : Traced E)
      → Running p laws callback ctx t
      → (ctx' : Ctx Pipe (Traced E)) × (t' : Traced E) × (work_handler (traced p callback) ctx t
          ≡ some (ctx', t'))
        × IsValid p laws callback ctx' t'
  handler-IsValid =
      work_handler-Ends (traced p callback) traced_laws (Running p laws callback)
        (IsValid p laws callback) round-Stepped

  -- What draining the pipe leaves as it was.
  record SameNotes (t t' : Traced E) : Type 0 where
    claims : t'.claims ≡ t.claims
    releases : t'.releases ≡ t.releases
    armed : t'.armed ≡ t.armed
    accepted : t'.accepted ≡ t.accepted
    reported : t'.reported ≡ t.reported

  drain_rx-SameNotes :
      (n : ℕ) (pipe : Pipe) (t : Traced E) → SameNotes t (drain_rx (traced p callback) n pipe t).1
  unfolding drain_rx
  drain_rx-SameNotes zero pipe t = ground arith
  drain_rx-SameNotes (suc n) pipe t =
      let (ret, chunk, t') = (traced p callback).receive (some pipe) t in
      ground (arith, drain_rx-SameNotes n pipe t')

  -- A started send is under way and its call has answered 0; a refused one has left nothing behind.
  abbrev Started : ℤ × Ctx Pipe (Traced E) × Traced E → Type 0
  Started (ret, ctx, t) = IsValid p laws callback ctx (count_accepted p callback ret t)

  -- The claim is held, and the timer is not armed yet.
  record Claimed (t : Traced E) : Type 0 where
    one_claim : t.claims ≡ t.releases + 1
    disarmed : t.armed ≡ false
    all_reported : length t.reported ≡ t.accepted

  abandon-Started :
      (ret : ℤ) (pipe : Pipe) (ctx : Ctx Pipe (Traced E)) (t : Traced E)
      → is_neg ret ≡ true
      → ctx.active ≡ false
      → ctx.user_pipe_claimed ≡ false
      → Claimed t
      → Started (abandon (traced p callback) ret pipe ctx t)
  unfolding abandon
  abandon-Started ret pipe ctx t neg off free c = ground arith

  launch-Started :
      (cmgs_cmd text : Bytes) (ms : ℕ) (pipe : Pipe) (ctx : Ctx Pipe (Traced E)) (t : Traced E)
      → Claimed t
      → Started (launch (traced p callback) cmgs_cmd text ms (some (report p callback)) pipe ctx t)
  unfolding launch abandon prepare_line prepare_transmit
  launch-Started cmgs_cmd text ms pipe ctx t c = ground arith

  module _ (cmgs_cmd text : Bytes) (ms : ℕ) (pipe : Pipe) (ctx : Ctx Pipe (Traced E)) where
    drained-Started :
        (ret : ℤ) (t : Traced E)
        → ctx.active ≡ false
        → ctx.user_pipe_claimed ≡ false
        → Claimed t
        → Started (
            drained
              (traced p callback)
              cmgs_cmd
              text
              ms
              (some (report p callback))
              pipe
              ctx
              (ret, t))
    unfolding drained
    drained-Started ret t off free c = elim (Bool-cases (is_neg ret)) [
      | inl n ↦ rw n (abandon-Started ret pipe ctx t n off free c)
      | inr n ↦ rw n (launch-Started cmgs_cmd text ms pipe ctx t c)
    ]

    opened-Started :
        (ret : ℤ) (t : Traced E)
        → ctx.active ≡ false
        → ctx.user_pipe_claimed ≡ false
        → Claimed t
        → Started (
            opened
              (traced p callback)
              cmgs_cmd
              text
              ms
              (some (report p callback))
              pipe
              ctx
              (ret, t))
    unfolding opened
    opened-Started ret t off free c = elim (Bool-cases (is_neg ret)) [
      | inl n ↦ rw n (abandon-Started ret pipe ctx t n off free c)
      | inr n ↦
          let (drain_ret, t') = drain_rx (traced p callback) 64 pipe t in
          let c' : Claimed t' = ground (arith, drain_rx-SameNotes 64 pipe t) in
          rw n (drained-Started drain_ret t' off free c')
    ]

    claim_and_launch-Started :
        (t : Traced E)
        → Free p laws callback ctx t
        → Started (
            claim_and_launch
              (traced p callback)
              cmgs_cmd
              text
              ms
              (some (report p callback))
              pipe
              ctx
              t)
    unfolding claim_and_launch
    claim_and_launch-Started t f =
        let s = traced p callback in
        let (claim_ret, t₁) = s.claim t in
        let (open_ret, t₂) = s.open_async pipe (s.chat_release t₁) in
        elim (Bool-cases (is_neg (p.claim t.inner).0)) [
          | inl c ↦ rw c (inl (ground arith))
          | inr c ↦
              rw c (rw c at (opened-Started open_ret t₂ f.inactive f.unclaimed (ground arith)))
        ]

  pub submit-Started :
      (text_max_len : ℕ) (c text : Option Bytes) (ms : Option ℕ) (ctx : Ctx Pipe (Traced E))
      (t : Traced E)
      → IsValid p laws callback ctx t
      → Started (
          send_text_raw_async_cb
            (traced p callback)
            text_max_len
            c
            text
            ms
            (some (report p callback))
            ctx
            t)
  unfolding send_text_raw_async_cb
  submit-Started text_max_len none text ms ctx t h = h
  submit-Started text_max_len (some c) none ms ctx t h = h
  submit-Started text_max_len (some c) (some text) none ctx t h = h
  submit-Started text_max_len (some c) (some text) (some ms) ctx t h =
      after (refusal (traced p callback) text_max_len c text ms ctx t)
        (refusal-Refuses (traced p callback) text_max_len c text ms ctx t)
    where
      with_pipe :
          (o : Option Pipe)
          → Free p laws callback ctx t
          → Started (elim o [
            | none ↦ (enodev, ctx, t)
            | some pipe ↦
                claim_and_launch (traced p callback) c text ms (some (report p callback)) pipe ctx t
          ])
      with_pipe none f = h
      with_pipe (some pipe) f = claim_and_launch-Started c text ms pipe ctx t f

      after :
          (o : Option ℤ)
          → Refuses ctx o
          → Started (elim o [
            | some ret ↦ (ret, ctx, t)
            | none ↦ elim (p.get_pipe t.inner) [
              | none ↦ (enodev, ctx, t)
              | some pipe ↦
                  claim_and_launch
                    (traced p callback)
                    c
                    text
                    ms
                    (some (report p callback))
                    pipe
                    ctx
                    t
            ]
          ])
      after (some ret) neg = rw neg h
      after none off = with_pipe (p.get_pipe t.inner) (elim h [ inl f ↦ f | inr s ↦ cc (s.active) ])
