-- ===== src/AtHelper/RawSend/Tests.antt =====
-- A modem that takes all it is sent and answers from a list of chunks.
use tibbit.Common.{
  ℕ, ◌+◌, ◌<◌, ◌≡◌, refl, true, none, some, pos_part, List, [], ◌∷◌, ℤ, pos, arith, length,
  if◌then◌else◌, Bytes, codes,
}
use tibbit.AtHelper.Platform.{Services, PipeLaws}
use tibbit.AtHelper.Window.{buf_append, has_error}
use tibbit.AtHelper.RawSend.{Ctx, reset, check_ok, check_prompt, check_sms_result}
use tibbit.AtHelper.RawSend.Machine.{work_handler, send_text_raw_async_cb}
use tibbit.AtHelper.RawSend.Trace.{Traced, Event, submit, fire, run}
use tibbit.AtHelper.RawSend.Once.{untouched, sends_once}
use tibbit.AtHelper.RawSend.Transcript.{
  Outcome, Noted, setup_1, setup_2, setup_3, script, deliver, deliver_all,
}
use tibbit.AtHelper.RawSend.Written.{AllWritten}
use tibbit.AtHelper.RawSend.Delivery.{fresh, sends_script}

abbrev read : List Bytes → ℤ × Bytes × List Bytes
read [] = (pos 0, [], [])
read (c ∷ cs) = (pos (length c), c, cs)

abbrev modem : Services ℕ (List Bytes)
modem = record {
  uptime = λ e. 0;
  wq_ready = λ e. true;
  schedule = λ ms e. (pos 0, e);
  get_pipe = λ e. some 1;
  claim = λ e. (pos 0, e);
  release = λ e. e;
  chat_attach = λ pipe e. (pos 0, e);
  chat_release = λ e. e;
  open_async = λ pipe e. (pos 0, e);
  transmit = λ pipe bytes e. (pos (length bytes), e);
  receive = λ pipe e. read e;
  unread = λ e. length e;
}

modem_laws : PipeLaws modem
modem_laws = record { receive_takes = λ pipe e h. takes e h }
  where
    takes : (e : List Bytes) → 0 < pos_part (read e).0 → length (read e).2 < length e
    takes [] h = absurd (omega arith)
    takes (c ∷ cs) h = omega arith

-- The first chunk is dropped when the pipe is drained, up to the call that gives nothing.
abbrev answers : List Bytes
answers =
    []
    ∷ codes "\r\n+CPIN: READY\r\n\r\nOK\r\n"
    ∷ codes "\r\nOK\r\n"
    ∷ codes "\r\nO"
    ∷ codes "K\r\n"
    ∷ codes "\r\n> "
    ∷ codes "\r\n+CMGS: 5\r\n\r\nOK\r\n"
    ∷ []

abbrev events : List Event
events = submit (some (codes "AT+CMGS=\"1\"")) (some (codes "hi")) (some 30000) ∷ fire ∷ []

abbrev nothing : ℤ → List Bytes → List Bytes
nothing ret e = e

sends_once_example :
    (ctx : Ctx ℕ (Traced (List Bytes))) × (t : Traced (List Bytes)) × (run modem nothing 160 events
        reset
        (untouched modem modem_laws nothing answers)
      ≡ some (ctx, t))
    × (t.armed ≡ ctx.active)
    × (t.claims ≡ t.releases + (if ctx.active then 1 else 0))
    × (t.accepted ≡ length t.reported + (if ctx.active then 1 else 0))
sends_once_example = sends_once modem modem_laws nothing 160 events answers

sends_script_example :
    (ctx : Ctx ℕ (Noted (List Bytes))) × (t : Noted (List Bytes)) × (deliver_all modem nothing 160
        events reset
        (fresh modem modem_laws nothing answers)
      ≡ some (ctx, t))
    × AllWritten t.outcomes
sends_script_example = sends_script modem modem_laws nothing 160 events answers

abbrev after : List Outcome
after = elim (deliver_all modem nothing 160 events reset (fresh modem modem_laws nothing answers)) [
  | none ↦ []
  | some r ↦ r.1.outcomes
]

sent_once :
    after
    ≡ record {
      ret = pos 0;
      cmgs_cmd = codes "AT+CMGS=\"1\"";
      text = codes "hi";
      sent = script (codes "AT+CMGS=\"1\"") (codes "hi");
    }
      ∷ []
unfolding deliver_all deliver script setup_1 setup_2 setup_3 work_handler send_text_raw_async_cb
    has_error buf_append check_ok check_prompt check_sms_result
sent_once = refl
