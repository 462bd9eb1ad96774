-- ===== src/AtHelper/RawSend/Handled.antt =====
-- The work handler against the script: a send goes on as it should, or is reported.
use mathlib.Core.Path.{subst}
use tibbit.Common.{
  ◌≡◌, refl, sym, ◌⊎◌, inl, inr, true, false, Option, none, some, ℤ, pos, is_neg, eqb_ℤ, arith,
  if_elim,
}
use tibbit.Common.Errno.{eagain}
use tibbit.AtHelper.Platform.{Services, PipeLaws}
use tibbit.AtHelper.RawSend.{State, idle, Ctx, Round, continue, break}
use tibbit.AtHelper.RawSend.Machine.{round, leave, finish, work_handler}
use tibbit.AtHelper.RawSend.Total.{Stepped, work_handler-Ends}
use tibbit.AtHelper.RawSend.Transcript.{script, Noted, noted}
use tibbit.AtHelper.RawSend.Written.{AllWritten, Base}
use tibbit.AtHelper.RawSend.Script.{At, Nexts, round-Nexts}

neg-ne-zero : (a : ℤ) → is_neg a ≡ true → eqb_ℤ a (pos 0) ≡ true → ⊥
neg-ne-zero a n e = ground arith

handler_off :
    {Pipe E : Type 0} (p : Services Pipe E) (ctx : Ctx Pipe E) (e : E)
    → ctx.active ≡ false
    → work_handler p ctx e ≡ some (ctx, e)
unfolding work_handler
handler_off p ctx e off =
    if_elim (λ o. o ≡ some (ctx, e)) ctx.active (λ on. cc (on, off)) (λ _. refl)

module _ {Pipe E : Type 0} (p : Services Pipe E) (laws : PipeLaws p) (callback : ℤ → E → E) where
  abbrev Running : Ctx Pipe (Noted E) → Noted E → Type 0
  Running ctx t = At p laws callback ctx.state ctx t

  abbrev pub IsValid : Ctx Pipe (Noted E) → Noted E → Type 0
  IsValid ctx t = (ctx.active ≡ false) × AllWritten t.outcomes ⊎ Running ctx t

  pub At-Base :
      (s : State) (ctx : Ctx Pipe (Noted E)) (t : Noted E)
      → At p laws callback s ctx t
      → Base p laws callback s ctx t
  At-Base idle ctx t h = absurd h
  At-Base _ ctx t h = h.0

  At-inner :
      (s : State) (ctx : Ctx Pipe (Noted E)) (t : Noted E) (inner : E)
      → At p laws callback s ctx t
      → At p laws callback s ctx (record t { inner = inner })
  At-inner idle ctx t inner h = h
  At-inner _ ctx t inner h = ground arith

  At-Running :
      (s : State) (ctx : Ctx Pipe (Noted E)) (t : Noted E)
      → At p laws callback s ctx t
      → Running ctx t
  At-Running s ctx t h =
      subst (λ s. At p laws callback s ctx t) (sym (At-Base s ctx t h).state_is) h

  finish-IsValid :
      (s : State) (ret : ℤ) (ctx : Ctx Pipe (Noted E)) (t : Noted E)
      → Base p laws callback s ctx t
      → (eqb_ℤ ret (pos 0) ≡ true → t.sent ≡ script t.cmgs_cmd t.text)
      → let (ctx', t') = finish (noted p callback) ret ctx t in
        (ctx'.active ≡ false) × AllWritten t'.outcomes
  unfolding finish
  finish-IsValid s ret ctx t b done = ground arith

  abbrev Valid : Ctx Pipe (Noted E) × Noted E → Type 0
  Valid (ctx, t) = IsValid ctx t

  noted_laws : PipeLaws (noted p callback)
  noted_laws = record { receive_takes = λ pipe t. laws.receive_takes pipe t.inner }

  leave-IsValid :
      (s : State) (ret : ℤ) (ctx : Ctx Pipe (Noted E)) (t : Noted E)
      → At p laws callback s ctx t
      → (eqb_ℤ ret (pos 0) ≡ true → t.sent ≡ script t.cmgs_cmd t.text)
      → let (ctx', t') = leave (noted p callback) ret ctx t in IsValid ctx' t'
  unfolding leave
  leave-IsValid s ret ctx t h done =
      let (sched_ret, inner) = p.schedule 10 t.inner in
      let t' : Noted E = record t { inner = inner } in
      let later = At-inner s ctx t inner h in
      if_elim Valid (eqb_ℤ ret eagain)
        (λ _.
          if_elim Valid (is_neg sched_ret)
            (λ n. inl (
              finish-IsValid s sched_ret ctx t' (At-Base s ctx t' later)
                (λ e. absurd (neg-ne-zero sched_ret n e))))
            (λ _. inr (At-Running s ctx t' later)))
        (λ _. inl (finish-IsValid s ret ctx t (At-Base s ctx t h) done))

  round-Stepped :
      (ctx : Ctx Pipe (Noted E)) (t : Noted E)
      → Running ctx t
      → (ctx.active ≡ true)
        × Stepped
            (noted p callback)
            noted_laws
            Running
            IsValid
            (round (noted p callback) ctx.state ctx t)
  round-Stepped ctx t h = (
    (At-Base ctx.state ctx t h).active,
    after (round (noted p callback) ctx.state ctx t)
        (round-Nexts p laws callback ctx.state ctx t h),
  )
    where
      after :
          (o : Option (Round Pipe (Noted E)))
          → Nexts p laws callback ctx.state o
          → Stepped (noted p callback) noted_laws Running IsValid o
      after none k = tt
      after (some (continue c u)) k = k
      after (some (break ret c u)) k = leave-IsValid ctx.state ret c u k.0 k.1

  abbrev pub Ends : Option (Ctx Pipe (Noted E) × Noted E) → Type 0
  Ends o = (ctx : Ctx Pipe (Noted E)) × (t : Noted E) × (o ≡ some (ctx, t)) × IsValid ctx t

  pub handler-IsValid :
      (ctx : Ctx Pipe (Noted E)) (t : Noted E)
      → IsValid ctx t
      → Ends (work_handler (noted p callback) ctx t)
  handler-IsValid ctx t (inr h) =
      work_handler-Ends (noted p callback) noted_laws Running IsValid round-Stepped ctx t h
  handler-IsValid ctx t (inl h) = (ctx, t, handler_off (noted p callback) ctx t h.0, inl h)
