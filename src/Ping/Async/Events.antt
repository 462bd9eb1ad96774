-- ===== src/Ping/Async/Events.antt =====
-- Every event keeps a job of the ping machine running, or settles it.
use tibbit.Common.{
  ℕ, ◌+◌, ◌≤◌, ◌<◌, ◌≡◌, refl, ap, ◌⊎◌, inl, inr, Bool, true, false, not, Option, none, some, List,
  [], ◌∷◌, ℤ, is_neg, arith, if_elim, ◌%◌, if◌then◌else◌, ◌==◌,
}
use mathlib.Core.Path.{subst}
use tibbit.Ping.Platform.{Progress, Services}
use tibbit.Ping.{Config, RunCtx, reply_handler}
use tibbit.Ping.Async.{
  State, idle, start_attempt, send_request, wait_reply, between_requests, retry_delay, is_idle,
  dispatch, reply,
}
use tibbit.Ping.Async.Trace.{
  Traced, Job, Event, job, fire, packet, SmallCounts, Machine, traced, progress, request_of,
  count_accepted, handle, run,
}
use tibbit.Ping.Async.Running.{Settled, Position, IsValid}
use tibbit.Ping.Async.Ends.{Ended, work_handler-Ended}

module _ {Addr Iface E : Type 0} (config : Config) (p : Services Addr Iface E)
    (on_progress : Progress Addr → E → E) where
  abbrev pub M : Type 0
  M = Machine config p on_progress

  abbrev Valid : M × Traced E → Type 0
  Valid (ctx, t) = IsValid config p on_progress ctx t

  -- An event's answer to `tb45_ping_async_dispatch`, with the job counted if it was taken.
  abbrev Dispatched : ℤ × M × Traced E → Type 0
  Dispatched (ret, ctx, t) =
      IsValid config p on_progress ctx (count_accepted config p on_progress ret t)

  abbrev first_attempt : ℕ → ℕ
  first_attempt extra = let n = (1 + extra) % 256 in if n == 0 then 1 else n

  first_attempt_bounds :
      (extra : ℕ) → (0 < 1) × (1 ≤ first_attempt extra) × (first_attempt extra < 256)
  first_attempt_bounds extra = ground arith

  only_idle : (s : State) → not (is_idle s) ≡ false → s ≡ idle
  only_idle idle e = refl
  only_idle start_attempt e = cc e
  only_idle send_request e = cc e
  only_idle wait_reply e = cc e
  only_idle between_requests e = cc e
  only_idle retry_delay e = cc e

  idle-Settled :
      (ctx : M) (t : Traced E)
      → ctx.state ≡ idle
      → Valid (ctx, t)
      → Settled config p on_progress ctx t
  idle-Settled ctx t e (inl s) = s
  idle-Settled ctx t e (inr b) =
      absurd (subst (λ s. Position config p on_progress s ctx) e b.position)

  job-Valid :
      (j : Job) (ctx : M) (t : Traced E)
      → j.count < 65535
      → Valid (ctx, t)
      → Dispatched
          (dispatch config (traced config p on_progress) (request_of config p on_progress j) ctx t)
  unfolding dispatch
  job-Valid j ctx t small v =
      if_elim Dispatched (not (is_idle ctx.state)) (λ _. v)
        (λ e.
          let s = idle-Settled ctx t (only_idle ctx.state e) v in
          if_elim Dispatched (is_neg (p.schedule 0 t.inner).0)
            (λ n. inl (record {
              at_rest = refl;
              disarmed = rw n s.disarmed;
              all_completed = s.all_completed;
            }))
            (λ n. inr (record {
              bounded = record {
                progress_kept = kept j.wants_progress;
                small = small;
                attempts = first_attempt_bounds config.extra_retries;
              };
              one_left = ap (λ n. n + 1) s.all_completed;
              is_armed = rw n refl;
              position = tt;
            })))
    where
      kept :
          (wanted : Bool)
          → let cb = if wanted then some (progress config p on_progress) else none in
            (cb ≡ none) ⊎ (cb ≡ some (progress config p on_progress))
      kept true = inr refl
      kept false = inl refl

  fire-Ended :
      (ctx : M) (t : Traced E)
      → Valid (ctx, t)
      → Ended config p on_progress (handle config p on_progress fire ctx t)
  unfolding handle
  fire-Ended ctx t v =
      if_elim (Ended config p on_progress) t.armed
        (λ on. elim v [
          | inl s ↦ cc (on, s.disarmed)
          | inr b ↦
              work_handler-Ended config p on_progress ctx (record t { armed = false })
                (record {
                  bounded = b.bounded;
                  one_left = b.one_left;
                  disarmed = refl;
                  position = b.position;
                })
        ])
        (λ _. v)

  reply_handler-same :
      (src : Addr) (id_seq : Option (ℕ × ℕ)) (c : RunCtx Addr Iface)
      → let c' = reply_handler (traced config p on_progress) src id_seq c in
        (c'.sent ≡ c.sent) × (c'.received ≡ c.received)
  unfolding reply_handler
  reply_handler-same src none c = (refl, refl)
  reply_handler-same src (some (identifier, sequence)) c = ground arith

  Position-same :
      (s : State) (ctx : M) (c : RunCtx Addr Iface)
      → c.sent ≡ ctx.run_ctx.sent
      → c.received ≡ ctx.run_ctx.received
      → Position config p on_progress s ctx
      → Position config p on_progress s (record ctx { run_ctx = c })
  Position-same idle ctx c sent received at = at
  Position-same start_attempt ctx c sent received at = tt
  Position-same send_request ctx c sent received at = omega (arith, sent, received, at)
  Position-same wait_reply ctx c sent received at = omega (arith, sent, received, at)
  Position-same between_requests ctx c sent received at = omega (arith, sent, received, at)
  Position-same retry_delay ctx c sent received at = tt

  packet-Valid :
      (src : Addr) (id_seq : Option (ℕ × ℕ)) (ctx : M) (t : Traced E)
      → Valid (ctx, t)
      → Valid (reply config (traced config p on_progress) src id_seq ctx, t)
  unfolding reply
  packet-Valid src id_seq ctx t (inl s) =
      inl (record { at_rest = s.at_rest; disarmed = s.disarmed; all_completed = s.all_completed })
  packet-Valid src id_seq ctx t (inr b) =
      let (sent, received) = reply_handler-same src id_seq ctx.run_ctx in
      inr (record {
        bounded = record {
          progress_kept = b.bounded.progress_kept;
          small = b.bounded.small;
          attempts = b.bounded.attempts;
        };
        one_left = b.one_left;
        is_armed = b.is_armed;
        position = Position-same ctx.state ctx _ sent received b.position;
      })

  handle-Ended :
      (e : Event Addr) (ctx : M) (t : Traced E)
      → SmallCounts (e ∷ [])
      → Valid (ctx, t)
      → Ended config p on_progress (handle config p on_progress e ctx t)
  unfolding handle
  handle-Ended (job j) ctx t small v = job-Valid j ctx t small.0 v
  handle-Ended fire ctx t small v = fire-Ended ctx t v
  handle-Ended (packet src id_seq) ctx t small v = packet-Valid src id_seq ctx t v

  pub run-Ended :
      (es : List (Event Addr)) (ctx : M) (t : Traced E)
      → SmallCounts es
      → Valid (ctx, t)
      → Ended config p on_progress (run config p on_progress es ctx t)
  unfolding run
  run-Ended [] ctx t small v = v
  run-Ended (e ∷ es) ctx t small v =
      let (now, later) = SmallCounts_cons e es small in
      after (handle config p on_progress e ctx t) (handle-Ended e ctx t now v)
        (λ ctx' t' v'. run-Ended es ctx' t' later v')
    where
      SmallCounts_cons :
          (e : Event Addr) (es : List (Event Addr))
          → SmallCounts (e ∷ es)
          → SmallCounts (e ∷ []) × SmallCounts es
      SmallCounts_cons (job j) es (now, later) = ((now, tt), later)
      SmallCounts_cons fire es later = (tt, later)
      SmallCounts_cons (packet src id_seq) es later = (tt, later)

      after :
          (r : Option (M × Traced E))
          → Ended config p on_progress r
          → ((ctx' : M) (t' : Traced E)
              → Valid (ctx', t')
              → Ended config p on_progress (run config p on_progress es ctx' t'))
          → Ended config p on_progress
              (elim r [ none ↦ none | some q ↦ run config p on_progress es q.0 q.1 ])
      after none ended go = absurd ended
      after (some (ctx', t')) v' go = go ctx' t' v'
