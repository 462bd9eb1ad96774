-- ===== src/AtHelper/RawSend/Total.antt =====
-- The loops of the raw send end.
use mathlib.Core.Path.{subst}
use tibbit.Common.{
  false, is_neg, Bytes, ℕ, zero, suc, ◌+◌, ◌≤◌, ◌<◌, ◌≡◌, ◌≢◌, take, refl, sym, true, Option, none,
  some, ℤ, pos_part, arith, codes, codes, if◌then◌else◌,
}
use tibbit.AtHelper.Window.{buf_append, rx_buf_size}
use tibbit.AtHelper.Platform.{Services, PipeLaws}
use tibbit.AtHelper.RawSend.{
  State, idle, cpin_send, cpin_wait, cmgf_send, cmgf_wait, cscs_send, cscs_wait, cmgs_send,
  prompt_wait, text_send, ctrl_z_send, result_wait, Ctx, Round, continue, break, receive_loop,
  receive_step, check_ok, check_prompt, check_sms_result,
}
use tibbit.AtHelper.RawSend.Machine.{refusal, round, leave, rounds, work_handler}

-- The order in which a send goes through its states.
abbrev rank : State → ℕ
rank idle = 0
rank cpin_send = 1
rank cpin_wait = 2
rank cmgf_send = 3
rank cmgf_wait = 4
rank cscs_send = 5
rank cscs_wait = 6
rank cmgs_send = 7
rank prompt_wait = 8
rank text_send = 9
rank ctrl_z_send = 10
rank result_wait = 11

rank-lt : (s : State) → rank s < 12
rank-lt idle = omega arith
rank-lt _ = omega arith

module _ {Pipe E : Type 0} (p : Services Pipe E) (laws : PipeLaws p) where
  receive_loop-ne-none :
      (check : Ctx Pipe E → Option ℤ × Ctx Pipe E) (n : ℕ) (ctx : Ctx Pipe E) (e : E)
      → p.unread e < n
      → receive_loop p check n ctx e ≢ none
  unfolding receive_loop
  receive_loop-ne-none check zero ctx e h = elim h [ ]
  receive_loop-ne-none check (suc n) ctx e h =
      let (ret, chunk, e') = p.receive ctx.pipe e in
      let window = buf_append rx_buf_size ctx.rx_buf (take (pos_part ret) chunk) in
      ground (
        arith,
        laws.receive_takes ctx.pipe e,
        receive_loop-ne-none check n (check (record ctx { rx_buf = window })).1 e',
      )

  pub receive_step-ne-none :
      (check : Ctx Pipe E → Option ℤ × Ctx Pipe E) (ctx : Ctx Pipe E) (e : E)
      → receive_step p check ctx e ≢ none
  unfolding receive_step
  receive_step-ne-none check ctx e =
      receive_loop-ne-none check (suc (p.unread e)) ctx e (omega arith)

  -- A round ends, and one that goes on leaves a later state.
  abbrev Advances : State → Option (Round Pipe E) → Type 0
  Advances s none = ⊥
  Advances s (some (break ret ctx e)) = Unit
  Advances s (some (continue ctx e)) = rank s < rank ctx.state

  round-Advances : (s : State) (ctx : Ctx Pipe E) (e : E) → Advances s (round p s ctx e)
  unfolding round
  round-Advances idle ctx e = tt
  round-Advances cpin_wait ctx e =
      ground (arith, receive_step-ne-none (check_ok (some (codes "+CPIN: READY"))) ctx e)
  round-Advances cmgf_wait ctx e = ground (arith, receive_step-ne-none (check_ok none) ctx e)
  round-Advances cscs_wait ctx e = ground (arith, receive_step-ne-none (check_ok none) ctx e)
  round-Advances prompt_wait ctx e = ground (arith, receive_step-ne-none check_prompt ctx e)
  round-Advances result_wait ctx e = ground (arith, receive_step-ne-none check_sms_result ctx e)
  round-Advances _ ctx e = ground arith

  -- What is kept by the rounds that go on, `P`, and follows from the one that leaves, `Q`.
  abbrev pub Stepped :
      (Ctx Pipe E → E → Type 0) → (Ctx Pipe E → E → Type 0) → Option (Round Pipe E) → Type 0
  Stepped P Q none = Unit
  Stepped P Q (some (continue ctx e)) = P ctx e
  Stepped P Q (some (break ret ctx e)) = Q (leave p ret ctx e).0 (leave p ret ctx e).1

  module _ (P Q : Ctx Pipe E → E → Type 0)
      (step : (ctx : Ctx Pipe E) (e : E)
        → P ctx e
        → (ctx.active ≡ true) × Stepped P Q (round p ctx.state ctx e)) where
    abbrev Ends : Option (Ctx Pipe E × E) → Type 0
    Ends o = (ctx : Ctx Pipe E) × (e : E) × (o ≡ some (ctx, e)) × Q ctx e

    rounds_end :
        (n : ℕ) (ctx : Ctx Pipe E) (e : E)
        → 12 ≤ n + rank ctx.state
        → P ctx e
        → Ends (rounds p n ctx e)
    unfolding rounds
    rounds_end zero ctx e h k = absurd (omega (arith, rank-lt ctx.state))
    rounds_end (suc n) ctx e h k =
        let (active, kept) = step ctx e k in
        let stepped : Option (Ctx Pipe E × E) = elim (round p ctx.state ctx e) [
          | none ↦ none
          | some r ↦ elim r [
            | continue ctx' e' ↦ rounds p n ctx' e'
            | break ret ctx' e' ↦ some (leave p ret ctx' e')
          ]
        ] in
        subst (λ b. Ends (if b then stepped else some (ctx, e))) (sym active)
          (after (round p ctx.state ctx e) (round-Advances ctx.state ctx e) kept
            (λ c t. rounds_end n c t))
      where
        after :
            (r : Option (Round Pipe E))
            → Advances ctx.state r
            → Stepped P Q r
            → ((c : Ctx Pipe E) (t : E) → 12 ≤ n + rank c.state → P c t → Ends (rounds p n c t))
            → Ends (elim r [
              | none ↦ none
              | some r ↦ elim r [
                | continue ctx' e' ↦ rounds p n ctx' e'
                | break ret ctx' e' ↦ some (leave p ret ctx' e')
              ]
            ])
        after none a k ih = absurd a
        after (some (break ret c t)) a k ih = ((leave p ret c t).0, (leave p ret c t).1, refl, k)
        after (some (continue c t)) a k ih = ih c t (omega arith) k

    -- The work handler ends, in a state for which `Q` holds.
    pub work_handler-Ends : (ctx : Ctx Pipe E) (e : E) → P ctx e → Ends (work_handler p ctx e)
    unfolding work_handler
    work_handler-Ends ctx e k = rounds_end 12 ctx e (omega arith) k

-- A refusal is an error, and without one no send is under way.
abbrev pub Refuses : {Pipe E : Type 0} → Ctx Pipe E → Option ℤ → Type 0
Refuses ctx none = ctx.active ≡ false
Refuses ctx (some ret) = is_neg ret ≡ true

pub refusal-Refuses :
    {Pipe E : Type 0} (p : Services Pipe E) (text_max_len : ℕ) (c text : Bytes) (ms : ℕ)
    (ctx : Ctx Pipe E) (e : E)
    → Refuses ctx (refusal p text_max_len c text ms ctx e)
unfolding refusal
refusal-Refuses p text_max_len c text ms ctx e = ground arith
