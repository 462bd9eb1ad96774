-- ===== src/AtHelper/RawSend/Transcript.antt =====
-- The raw send among its events, with a record of the bytes that the modem's pipe has taken since it
-- was opened, and of what had been sent when each result was reported.
use tibbit.Common.{
  ℕ, Option, none, some, List, [], ◌∷◌, ◌++◌, ℤ, is_neg, pos_part, if◌then◌else◌, Bytes, codes,
  take,
}
use tibbit.AtHelper.Platform.{Services}
use tibbit.AtHelper.RawSend.{
  State, idle, cpin_send, cpin_wait, cmgf_send, cmgf_wait, cscs_send, cscs_wait, cmgs_send,
  prompt_wait, text_send, ctrl_z_send, result_wait, Ctx,
}
use tibbit.AtHelper.RawSend.Machine.{work_handler, send_text_raw_async_cb}
use tibbit.AtHelper.RawSend.Trace.{Event, submit, fire}

-- The lines before the command, one more in each.
unfoldable pub setup_1 : Bytes
setup_1 = codes "AT+CPIN?\r"

unfoldable pub setup_2 : Bytes
setup_2 = setup_1 ++ codes "AT+CMGF=1\r"

unfoldable pub setup_3 : Bytes
setup_3 = setup_2 ++ codes "AT+CSCS=\"IRA\"\r"

-- All that a send of a text by a command writes to the modem; 26 is Ctrl+Z.
unfoldable pub script : Bytes → Bytes → Bytes
script c text = ((setup_3 ++ (c ++ b'\r' ∷ [])) ++ text) ++ 26 ∷ []

-- What has gone to the modem of it, when what a state sends is sent.
unfoldable pub sent_by : Bytes → Bytes → State → Bytes
unfolding script
sent_by c text idle = []
sent_by c text cpin_send = setup_1
sent_by c text cpin_wait = setup_1
sent_by c text cmgf_send = setup_2
sent_by c text cmgf_wait = setup_2
sent_by c text cscs_send = setup_3
sent_by c text cscs_wait = setup_3
sent_by c text cmgs_send = setup_3 ++ (c ++ b'\r' ∷ [])
sent_by c text prompt_wait = setup_3 ++ (c ++ b'\r' ∷ [])
sent_by c text text_send = (setup_3 ++ (c ++ b'\r' ∷ [])) ++ text
sent_by c text ctrl_z_send = script c text
sent_by c text result_wait = script c text

-- A result with the command and the text of its send and the bytes sent when it was reported.
pub record Outcome : Type 0 where
  pub ret : ℤ
  pub cmgs_cmd : Bytes
  pub text : Bytes
  pub sent : Bytes

pub record Noted (E : Type 0) : Type 0 where
  pub inner : E
  pub sent : Bytes  -- what the pipe has taken since it was opened
  pub cmgs_cmd : Bytes  -- of the last accepted call
  pub text : Bytes
  pub outcomes : List Outcome

module _ {Pipe E : Type 0} (p : Services Pipe E) (callback : ℤ → E → E) where
  abbrev pass : ℤ × E → Noted E → ℤ × Noted E
  pass (ret, inner) t = (ret, record t { inner = inner })

  abbrev pub noted : Services Pipe (Noted E)
  noted = record {
    uptime = λ t. p.uptime t.inner;
    wq_ready = λ t. p.wq_ready t.inner;
    schedule = λ ms t. pass (p.schedule ms t.inner) t;
    get_pipe = λ t. p.get_pipe t.inner;
    claim = λ t. pass (p.claim t.inner) t;
    release = λ t. record t { inner = p.release t.inner };
    chat_attach = λ pipe t. pass (p.chat_attach pipe t.inner) t;
    chat_release = λ t. record t { inner = p.chat_release t.inner };
    open_async = λ pipe t.
        let (ret, inner) = p.open_async pipe t.inner in
        (ret, record t { inner = inner; sent = [] });
    transmit = λ pipe bytes t.
        let (ret, inner) = p.transmit pipe bytes t.inner in
        (ret, record t { inner = inner; sent = t.sent ++ take (pos_part ret) bytes });
    receive = λ pipe t.
        let (ret, chunk, inner) = p.receive pipe t.inner in
        (ret, chunk, record t { inner = inner });
    unread = λ t. p.unread t.inner;
  }

  abbrev pub outcome : ℤ → Noted E → Noted E
  outcome ret t = record t {
    inner = callback ret t.inner;
    outcomes =
        record { ret = ret; cmgs_cmd = t.cmgs_cmd; text = t.text; sent = t.sent } ∷ t.outcomes;
  }

  abbrev pub note_accepted : Option Bytes → Option Bytes → ℤ → Noted E → Noted E
  note_accepted none text ret t = t
  note_accepted (some c) none ret t = t
  note_accepted (some c) (some text) ret t = record t {
    cmgs_cmd = if is_neg ret then t.cmgs_cmd else c;
    text = if is_neg ret then t.text else text;
  }

  -- The timer may expire at any time; without a send the handler does nothing.
  unfoldable pub deliver :
      ℕ → Event → Ctx Pipe (Noted E) → Noted E → Option (Ctx Pipe (Noted E) × Noted E)
  deliver text_max_len fire ctx t = work_handler noted ctx t
  deliver text_max_len (submit c text ms) ctx t =
      let (ret, ctx', t') =
        send_text_raw_async_cb noted text_max_len c text ms (some outcome) ctx t in
      some (ctx', note_accepted c text ret t')

  unfoldable pub deliver_all :
      ℕ → List Event → Ctx Pipe (Noted E) → Noted E → Option (Ctx Pipe (Noted E) × Noted E)
  deliver_all text_max_len [] ctx t = some (ctx, t)
  deliver_all text_max_len (e ∷ es) ctx t = elim (deliver text_max_len e ctx t) [
    | none ↦ none
    | some r ↦ deliver_all text_max_len es r.0 r.1
  ]
