-- ===== src/AtHelper/RawSend/Script.antt =====
-- The rounds of the work handler against the script of the send: what has been written in each state.
use tibbit.Common.{
  ℕ, suc, ◌≡◌, refl, ap, sym, ◌∙◌, inl, inr, true, false, Option, none, some, [], ◌∷◌, ◌++◌, ℤ, pos,
  eqb_ℤ, length, Bytes, codes, ◌>>=◌, Bool-cases, if_elim, leb,
}
use tibbit.Common.Errno.{einval}
use tibbit.AtHelper.Platform.{Services, PipeLaws}
use tibbit.AtHelper.RawSend.{
  State, idle, cpin_send, cpin_wait, cmgf_send, cmgf_wait, cscs_send, cscs_wait, cmgs_send,
  prompt_wait, text_send, ctrl_z_send, result_wait, Ctx, Round, continue, break, transmit_step,
  prepare_wait, prepare_line, prepare_transmit, raw_cmd_buf_size, receive_loop, receive_step,
  check_ok, check_prompt, check_sms_result,
}
use tibbit.AtHelper.RawSend.Machine.{send_round, line_round, text_round, ctrl_z_round, round}
use tibbit.AtHelper.RawSend.Transcript.{setup_1, setup_2, setup_3, script, sent_by, Noted, noted}
use tibbit.AtHelper.RawSend.Written.{
  Sends, HasSent, transmit_step-Sends, Harmless, check_ok-Harmless, check_prompt-Harmless,
  check_sms_result-Harmless, Kept, receive_loop-Kept,
}

module _ {Pipe E : Type 0} (p : Services Pipe E) (laws : PipeLaws p) (callback : ℤ → E → E) where
  -- What holds at a state while a send is under way.
  abbrev pub At : State → Ctx Pipe (Noted E) → Noted E → Type 0
  At idle ctx t = ⊥
  At cpin_send ctx t = Sends p laws callback cpin_send ctx t
  At cpin_wait ctx t = HasSent p laws callback cpin_wait ctx t
  At cmgf_send ctx t = Sends p laws callback cmgf_send ctx t
  At cmgf_wait ctx t = HasSent p laws callback cmgf_wait ctx t
  At cscs_send ctx t = Sends p laws callback cscs_send ctx t
  At cscs_wait ctx t = HasSent p laws callback cscs_wait ctx t
  At cmgs_send ctx t = Sends p laws callback cmgs_send ctx t
  At prompt_wait ctx t = HasSent p laws callback prompt_wait ctx t
  At text_send ctx t = Sends p laws callback text_send ctx t
  At ctrl_z_send ctx t = Sends p laws callback ctrl_z_send ctx t
  At result_wait ctx t = HasSent p laws callback result_wait ctx t

  -- A round that stops with 0 has sent the whole script.
  abbrev pub Next : State → Round Pipe (Noted E) → Type 0
  Next s (continue ctx t) = At ctx.state ctx t
  Next s (break ret ctx t) =
      At s ctx t × (eqb_ℤ ret (pos 0) ≡ true → t.sent ≡ script t.cmgs_cmd t.text)

  abbrev pub Nexts : State → Option (Round Pipe (Noted E)) → Type 0
  Nexts s none = Unit
  Nexts s (some r) = Next s r

  -- The bytes due in a state that waits are those of the state before it.
  send_round-Next :
      (s next : State) (ms : ℕ) (ctx : Ctx Pipe (Noted E)) (t : Noted E)
      → ((ctx : Ctx Pipe (Noted E)) (t : Noted E) → Sends p laws callback s ctx t → At s ctx t)
      → ((ctx : Ctx Pipe (Noted E)) (t : Noted E)
          → HasSent p laws callback next ctx t
          → At next ctx t)
      → ((c text : Bytes) → sent_by c text next ≡ sent_by c text s)
      → Sends p laws callback s ctx t
      → Next s (send_round (noted p callback) next ms ctx t)
  unfolding send_round prepare_wait
  send_round-Next s next ms ctx t as_at as_next same h =
      let (kept, done) = transmit_step-Sends p laws callback s ctx t h in
      let (ret, ctx', t') = transmit_step (noted p callback) ctx t in
      let waiting : Ctx Pipe (Noted E) =
        prepare_wait (noted p callback) ms (record ctx' { state = next }) t' in
      let moved : eqb_ℤ ret (pos 0) ≡ true → HasSent p laws callback next waiting t' = λ z. (
        record {
          active = kept.0.active;
          state_is = refl;
          callback_kept = kept.0.callback_kept;
          cmgs_cmd_is = kept.0.cmgs_cmd_is;
          text_is = kept.0.text_is;
          before = kept.0.before;
        },
        (done z).1 ∙ sym (same t'.cmgs_cmd t'.text),
      ) in
      if_elim (Next s) (eqb_ℤ ret (pos 0)) (λ z. as_next waiting t' (moved z))
        (λ z. (as_at ctx' t' kept, λ e. cc (z, e)))

  -- The next line is due behind what was sent.
  line_round-Next :
      (s next : State) (line : Bytes) (ms : ℕ) (ret : ℤ) (ctx : Ctx Pipe (Noted E)) (t : Noted E)
      → ((ctx : Ctx Pipe (Noted E)) (t : Noted E) → HasSent p laws callback s ctx t → At s ctx t)
      → ((ctx : Ctx Pipe (Noted E)) (t : Noted E)
          → Sends p laws callback next ctx t
          → At next ctx t)
      → (sent_by t.cmgs_cmd t.text next ≡ sent_by t.cmgs_cmd t.text s ++ (line ++ b'\r' ∷ []))
      → HasSent p laws callback s ctx t
      → Next s (line_round (noted p callback) next line ms (ret, ctx, t))
  unfolding line_round prepare_line prepare_transmit
  line_round-Next s next line ms ret ctx t as_at as_next due h =
      let stays : (r : ℤ) → eqb_ℤ r (pos 0) ≡ false → Next s (break r ctx t) =
        λ r z. (as_at ctx t h, λ e. cc (z, e)) in
      let sent = line ++ b'\r' ∷ [] in
      let ready : Ctx Pipe (Noted E) =
        record (prepare_transmit (noted p callback) sent ms (record ctx { line_buf = sent }) t) {
          state = next;
        } in
      let prepared : Sends p laws callback next ready t = (
        record {
          active = h.0.active;
          state_is = refl;
          callback_kept = h.0.callback_kept;
          cmgs_cmd_is = h.0.cmgs_cmd_is;
          text_is = h.0.text_is;
          before = h.0.before;
        },
        rw h.1 (sym due),
      ) in
      if_elim (Next s) (eqb_ℤ ret (pos 0))
        (λ _. elim (Bool-cases (leb raw_cmd_buf_size (length line))) [
          | inl long ↦ rw long (stays einval refl)
          | inr short ↦ rw short (as_next ready t prepared)
        ])
        (stays ret)

  text_round-Next :
      (ret : ℤ) (ctx : Ctx Pipe (Noted E)) (t : Noted E)
      → HasSent p laws callback prompt_wait ctx t
      → Next prompt_wait (text_round (noted p callback) (ret, ctx, t))
  unfolding text_round prepare_transmit sent_by
  text_round-Next ret ctx t h =
      if_elim (Next prompt_wait) (eqb_ℤ ret (pos 0))
        (λ _. (
          record {
            active = h.0.active;
            state_is = refl;
            callback_kept = h.0.callback_kept;
            cmgs_cmd_is = h.0.cmgs_cmd_is;
            text_is = h.0.text_is;
            before = h.0.before;
          },
          rw (h.1, h.0.text_is) refl,
        ))
        (λ z. (h, λ e. cc (z, e)))

  ctrl_z_round-Next :
      (ctx : Ctx Pipe (Noted E)) (t : Noted E)
      → Sends p laws callback text_send ctx t
      → Next text_send (ctrl_z_round (noted p callback) ctx t)
  unfolding ctrl_z_round prepare_transmit sent_by script
  ctrl_z_round-Next ctx t h =
      let (kept, done) = transmit_step-Sends p laws callback text_send ctx t h in
      let (ret, ctx', t') = transmit_step (noted p callback) ctx t in
      if_elim (Next text_send) (eqb_ℤ ret (pos 0))
        (λ z. (
          record {
            active = kept.0.active;
            state_is = refl;
            callback_kept = kept.0.callback_kept;
            cmgs_cmd_is = kept.0.cmgs_cmd_is;
            text_is = kept.0.text_is;
            before = kept.0.before;
          },
          ap (λ l. l ++ 26 ∷ []) (done z).1,
        ))
        (λ z. (kept, λ e. cc (z, e)))

  waits-Nexts :
      (s : State) (check : Ctx Pipe (Noted E) → Option ℤ × Ctx Pipe (Noted E))
      (harmless : Harmless p laws callback check)
      (then_round : ℤ × Ctx Pipe (Noted E) × Noted E → Round Pipe (Noted E))
      → ((ret : ℤ) (ctx : Ctx Pipe (Noted E)) (t : Noted E)
          → HasSent p laws callback s ctx t
          → Next s (then_round (ret, ctx, t)))
      → (ctx : Ctx Pipe (Noted E)) (t : Noted E) → HasSent p laws callback s ctx t
      → Nexts s (receive_step (noted p callback) check ctx t >>= λ w. some (then_round w))
  unfolding receive_step
  waits-Nexts s check harmless then_round keeps ctx t h =
      after (receive_loop (noted p callback) check (suc (p.unread t.inner)) ctx t)
        (receive_loop-Kept p laws callback check harmless (suc (p.unread t.inner)) s ctx t h)
    where
      after :
          (o : Option (ℤ × Ctx Pipe (Noted E) × Noted E))
          → Kept p laws callback s o
          → Nexts s (o >>= λ w. some (then_round w))
      after none k = tt
      after (some (ret, c, u)) k = keeps ret c u k

  pub round-Nexts :
      (s : State) (ctx : Ctx Pipe (Noted E)) (t : Noted E)
      → At s ctx t
      → Nexts s (round (noted p callback) s ctx t)
  unfolding round sent_by setup_1 setup_2 setup_3
  round-Nexts idle ctx t h = absurd h
  round-Nexts cpin_send ctx t h =
      send_round-Next cpin_send cpin_wait 10000 ctx t (λ c u k. k) (λ c u k. k) (λ c x. refl) h
  round-Nexts cpin_wait ctx t h =
      waits-Nexts cpin_wait (check_ok (some (codes "+CPIN: READY")))
        (check_ok-Harmless p laws callback _)
        (line_round (noted p callback) cmgf_send (codes "AT+CMGF=1") 10000)
        (λ ret c u k.
          line_round-Next cpin_wait cmgf_send (codes "AT+CMGF=1") 10000 ret c u (λ c u k. k)
            (λ c u k. k) refl k)
        ctx t h
  round-Nexts cmgf_send ctx t h =
      send_round-Next cmgf_send cmgf_wait 10000 ctx t (λ c u k. k) (λ c u k. k) (λ c x. refl) h
  round-Nexts cmgf_wait ctx t h =
      waits-Nexts cmgf_wait (check_ok none) (check_ok-Harmless p laws callback none)
        (line_round (noted p callback) cscs_send (codes "AT+CSCS=\"IRA\"") 10000)
        (λ ret c u k.
          line_round-Next cmgf_wait cscs_send (codes "AT+CSCS=\"IRA\"") 10000 ret c u (λ c u k. k)
            (λ c u k. k) refl k)
        ctx t h
  round-Nexts cscs_send ctx t h =
      send_round-Next cscs_send cscs_wait 10000 ctx t (λ c u k. k) (λ c u k. k) (λ c x. refl) h
  round-Nexts cscs_wait ctx t h =
      waits-Nexts cscs_wait (check_ok none) (check_ok-Harmless p laws callback none)
        (λ w. line_round (noted p callback) cmgs_send w.1.cmgs_cmd 10000 w)
        (λ ret c u k.
          line_round-Next cscs_wait cmgs_send c.cmgs_cmd 10000 ret c u (λ c u k. k) (λ c u k. k)
            (ap (λ l. setup_3 ++ (l ++ b'\r' ∷ [])) (sym k.0.cmgs_cmd_is)) k)
        ctx t h
  round-Nexts cmgs_send ctx t h =
      send_round-Next cmgs_send prompt_wait 10000 ctx t (λ c u k. k) (λ c u k. k) (λ c x. refl) h
  round-Nexts prompt_wait ctx t h =
      waits-Nexts prompt_wait check_prompt (check_prompt-Harmless p laws callback)
        (text_round (noted p callback)) text_round-Next ctx t h
  round-Nexts text_send ctx t h = ctrl_z_round-Next ctx t h
  round-Nexts ctrl_z_send ctx t h =
      send_round-Next ctrl_z_send result_wait ctx.submit_timeout_ms ctx t (λ c u k. k) (λ c u k. k)
        (λ c x. refl) h
  round-Nexts result_wait ctx t h =
      waits-Nexts result_wait check_sms_result (check_sms_result-Harmless p laws callback)
        (λ (ret, c, u). break ret c u) (λ ret c u k. (k, λ e. k.1)) ctx t h
