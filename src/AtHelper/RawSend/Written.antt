-- ===== src/AtHelper/RawSend/Written.antt =====
-- What a step of a send has written to the pipe.
use mathlib.Core.List.{append_assoc, append-nil}
use tibbit.Common.{
  ℕ, zero, suc, ◌+◌, ◌-◌, ◌≤◌, ◌≡◌, ap, sym, ◌∙◌, true, Option, none, some, List, [], ◌∷◌, ◌++◌, ℤ,
  pos, eqb_ℤ, pos_part, arith, length, take, drop, take-append-drop, Bytes,
}
use tibbit.AtHelper.Window.{buf_append, rx_buf_size}
use tibbit.AtHelper.Window.Suffix.{drop_all, drop-drop}
use tibbit.AtHelper.Platform.{Services, PipeLaws}
use tibbit.AtHelper.RawSend.{
  State, Ctx, transmit_loop, transmit_step, receive_loop, check_ok, check_prompt, check_sms_result,
}
use tibbit.AtHelper.RawSend.Transcript.{script, sent_by, Outcome, Noted, noted, outcome}

-- Every result 0 was reported when the whole script of its send had been written.
abbrev pub AllWritten : List Outcome → Type 0
AllWritten [] = Unit
AllWritten (o ∷ os) = (o.ret ≡ pos 0 → o.sent ≡ script o.cmgs_cmd o.text) × AllWritten os

module _ {Pipe E : Type 0} (p : Services Pipe E) (laws : PipeLaws p) (callback : ℤ → E → E) where
  -- What a running send keeps.
  pub record Base (s : State) (ctx : Ctx Pipe (Noted E)) (t : Noted E) : Type 0 where
    pub active : ctx.active ≡ true
    pub state_is : ctx.state ≡ s
    pub callback_kept : ctx.complete_cb ≡ some (outcome p callback)
    pub cmgs_cmd_is : ctx.cmgs_cmd ≡ t.cmgs_cmd
    pub text_is : ctx.text ≡ t.text
    pub before : AllWritten t.outcomes

  -- In a state that sends: the rest of its bytes is what it still has to send.
  abbrev pub Sends : State → Ctx Pipe (Noted E) → Noted E → Type 0
  Sends s ctx t =
      Base s ctx t × (t.sent ++ drop ctx.tx_offset ctx.tx_buf ≡ sent_by t.cmgs_cmd t.text s)

  -- In a state that waits, and at the end of one that sends.
  abbrev pub HasSent : State → Ctx Pipe (Noted E) → Noted E → Type 0
  HasSent s ctx t = Base s ctx t × (t.sent ≡ sent_by t.cmgs_cmd t.text s)

  taken_bytes :
      (sent buf : Bytes) (offset k : ℕ)
      → (sent ++ take k (drop offset buf)) ++ drop (offset + k) buf ≡ sent ++ drop offset buf
  taken_bytes sent buf offset k =
      append_assoc sent (take k (drop offset buf)) (drop (offset + k) buf)
      ∙ ap (λ l. sent ++ l) (rw (← drop-drop k offset buf) (take-append-drop k (drop offset buf)))

  all_sent : (sent buf : Bytes) (offset : ℕ) → length buf ≤ offset → sent ++ drop offset buf ≡ sent
  all_sent sent buf offset h = rw (drop_all offset buf h) (append-nil sent)

  transmit_loop-Sends :
      (n : ℕ) (s : State) (ctx : Ctx Pipe (Noted E)) (t : Noted E)
      → length ctx.tx_buf ≤ ctx.tx_offset + n
      → Sends s ctx t
      → let (ret, ctx', t') = transmit_loop (noted p callback) n ctx t in
        Sends s ctx' t' × (eqb_ℤ ret (pos 0) ≡ true → length ctx'.tx_buf ≤ ctx'.tx_offset)
  unfolding transmit_loop
  transmit_loop-Sends zero s ctx t le h = (h, λ e. omega arith)
  transmit_loop-Sends (suc n) s ctx t le h =
      let (ret, t') = (noted p callback).transmit ctx.pipe (drop ctx.tx_offset ctx.tx_buf) t in
      ground (
        arith,
        taken_bytes t.sent ctx.tx_buf ctx.tx_offset (pos_part ret),
        transmit_loop-Sends n s (record ctx { tx_offset = ctx.tx_offset + pos_part ret }) t',
      )

  pub transmit_step-Sends :
      (s : State) (ctx : Ctx Pipe (Noted E)) (t : Noted E)
      → Sends s ctx t
      → let (ret, ctx', t') = transmit_step (noted p callback) ctx t in
        Sends s ctx' t' × (eqb_ℤ ret (pos 0) ≡ true → HasSent s ctx' t')
  unfolding transmit_step
  transmit_step-Sends s ctx t h =
      let n = length ctx.tx_buf - ctx.tx_offset in
      let (kept, done) = transmit_loop-Sends n s ctx t (omega arith) h in
      let (_, ctx', t') = transmit_loop (noted p callback) n ctx t in
      (kept, λ e. (kept.0, sym (all_sent t'.sent ctx'.tx_buf ctx'.tx_offset (done e)) ∙ kept.1))

  abbrev pub Harmless : (Ctx Pipe (Noted E) → Option ℤ × Ctx Pipe (Noted E)) → Type 0
  Harmless check =
      (s : State) (ctx : Ctx Pipe (Noted E)) (t : Noted E) → Base s ctx t → Base s (check ctx).1 t

  pub check_ok-Harmless : (required_token : Option Bytes) → Harmless (check_ok required_token)
  unfolding check_ok
  check_ok-Harmless required_token s ctx t h = ground arith

  pub check_prompt-Harmless : Harmless check_prompt
  unfolding check_prompt
  check_prompt-Harmless s ctx t h = ground arith

  pub check_sms_result-Harmless : Harmless check_sms_result
  unfolding check_sms_result
  check_sms_result-Harmless s ctx t h = ground arith

  abbrev pub Kept : State → Option (ℤ × Ctx Pipe (Noted E) × Noted E) → Type 0
  Kept s none = Unit
  Kept s (some (ret, ctx, t)) = HasSent s ctx t

  pub receive_loop-Kept :
      (check : Ctx Pipe (Noted E) → Option ℤ × Ctx Pipe (Noted E)) (harmless : Harmless check)
      (n : ℕ) (s : State) (ctx : Ctx Pipe (Noted E)) (t : Noted E)
      → HasSent s ctx t
      → Kept s (receive_loop (noted p callback) check n ctx t)
  unfolding receive_loop
  receive_loop-Kept check harmless zero s ctx t h = tt
  receive_loop-Kept check harmless (suc n) s ctx t h =
      let (ret, chunk, t') = (noted p callback).receive ctx.pipe t in
      let window = buf_append rx_buf_size ctx.rx_buf (take (pos_part ret) chunk) in
      let ctx' : Ctx Pipe (Noted E) = record ctx { rx_buf = window } in
      ground (arith, harmless s ctx' t', receive_loop-Kept check harmless n s (check ctx').1 t')
