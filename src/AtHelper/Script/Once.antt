-- ===== src/AtHelper/Script/Once.antt =====
-- Who is told the end of a script, and who holds the user pipe.
use tibbit.Common.{
  ℕ, ◌≡◌, refl, sym, ap, ◌∙◌, ◌⊎◌, inl, inr, Bool, true, false, Option, none, some, List, [], ◌∷◌,
  ℤ, is_neg, if_elim, if◌then◌else◌,
}
use tibbit.AtHelper.Script.Platform.{ScriptServices, ClaimLaws, ScriptResult}
use tibbit.AtHelper.Script.{Script, script_result_to_errno, script_callback, print_match}
use tibbit.AtHelper.Script.Trace.{
  Traced, Call, Event, call, line, finish, Machine, traced, report, start, started, finished,
  handle, run_events, Polite, Waits,
}
use tibbit.AtHelper.Script.Calls.{Outcome, start-Outcome}

module _ {E : Type 0} (p : ScriptServices E) (claimed : E → Bool) (laws : ClaimLaws p claimed)
    (callback : ℕ → ℤ → E → E) where
  -- The callback that is kept is none, or that of some call.
  abbrev Known : Machine E → Type 0
  Known m =
      (m.script.complete_cb ≡ none) ⊎ (n : ℕ) × (m.script.complete_cb ≡ some (report p callback n))

  abbrev Held : Machine E → Type 0
  Held m = (claimed m.env.inner ≡ m.in_flight) × Known m

  abbrev UnderWay : Machine E → Type 0
  UnderWay m =
      ((m.in_flight ≡ false) × (m.accepted ≡ m.env.reported))
      ⊎ (n : ℕ) × (m.in_flight ≡ true)
        × (m.accepted ≡ n ∷ m.env.reported)
        × (m.script.complete_cb ≡ some (report p callback n))

  started-Held :
      (n : ℕ) (m : Machine E) (r : ℤ × Script (Traced E) × Traced E)
      → Outcome p claimed laws callback n m.env r
      → Held m
      → Held (started p callback n m r)
  started-Held n m (ret, h, t) (same, o) held =
      if_elim Held (is_neg ret)
        (λ neg. elim o [ inl l ↦ (l.2 ∙ held.0, inl l.1) | inr k ↦ cc (neg, k.0) ])
        (λ ok. elim o [ inl l ↦ cc (ok, l.0) | inr k ↦ (k.3, inr (n, k.1)) ])

  started-UnderWay :
      (n : ℕ) (m : Machine E) (r : ℤ × Script (Traced E) × Traced E)
      → Outcome p claimed laws callback n m.env r
      → m.in_flight ≡ false
      → UnderWay m
      → UnderWay (started p callback n m r)
  started-UnderWay n m (ret, h, t) (same, o) idle u =
      let settled : m.accepted ≡ m.env.reported = elim u [ inl l ↦ l.1 | inr k ↦ cc (idle, k.1) ] in
      if_elim UnderWay (is_neg ret) (λ neg. inl (idle, settled ∙ sym same))
        (λ ok. elim o [
          | inl l ↦ cc (ok, l.0)
          | inr k ↦ inr (n, refl, ap (n ∷◌) (settled ∙ sym same), k.1)
        ])

  module _
      (callback_keeps : (n : ℕ) (ret : ℤ) (e : E) → claimed (callback n ret e) ≡ claimed e) where
    finish-Held :
        (result : ScriptResult) (m : Machine E)
        → Held m
        → Held (finished p callback m (script_callback (traced p callback) result m.script m.env))
    unfolding script_callback
    finish-Held result m held = (freed m.script.complete_cb held.1, inl refl)
      where
        freed :
            (cb : Option (ℤ → Traced E → Traced E))
            → (cb ≡ none) ⊎ (n : ℕ) × (cb ≡ some (report p callback n))
            → let t : Traced E = record (m.env) { inner = p.release m.env.inner } in
              let t' : Traced E = elim cb [
                | none ↦ t
                | some f ↦ f (script_result_to_errno result) t
              ] in
              claimed t'.inner ≡ false
        freed cb (inl e) = rw e (laws.release_frees m.env.inner)
        freed cb (inr (n, e)) = rw e (
            callback_keeps n (script_result_to_errno result) (p.release m.env.inner)
            ∙ laws.release_frees m.env.inner)

    handle-Held : (e : Event) (m : Machine E) → Held m → Held (handle p callback e m)
    unfolding handle
    handle-Held (call c) m held =
        started-Held c.number m (start p callback c m.script m.env)
          (start-Outcome p claimed laws callback c m.script m.env) held
    handle-Held (line text) m held = held
    handle-Held (finish result) m held =
        if_elim Held m.in_flight (λ _. finish-Held result m held) (λ _. held)

    events-Held : (es : List Event) (m : Machine E) → Held m → Held (run_events p callback es m)
    unfolding run_events
    events-Held [] m held = held
    events-Held (e ∷ es) m held = events-Held es (handle p callback e m) (handle-Held e m held)

    -- Over every sequence of calls, lines and ends of scripts from a machine on in which no script
    -- runs and the pipe is free: the user pipe is claimed exactly while a script runs.
    pub claimed_in_flight :
        (es : List Event) (m : Machine E)
        → m.in_flight ≡ false
        → m.script.complete_cb ≡ none
        → claimed m.env.inner ≡ false
        → let m' = run_events p callback es m in claimed m'.env.inner ≡ m'.in_flight
    claimed_in_flight es m idle no_cb free = (events-Held es m (free ∙ sym idle, inl no_cb)).0

  finish-UnderWay :
      (result : ScriptResult) (m : Machine E)
      → m.in_flight ≡ true
      → UnderWay m
      → UnderWay (finished p callback m (script_callback (traced p callback) result m.script m.env))
  unfolding script_callback
  finish-UnderWay result m running (inl l) = cc (running, l.0)
  finish-UnderWay result m running (inr (n, _, accepted, cb)) =
      inl (refl, accepted ∙ noted m.script.complete_cb cb)
    where
      noted :
          (cb : Option (ℤ → Traced E → Traced E))
          → cb ≡ some (report p callback n)
          → let t : Traced E = record (m.env) { inner = p.release m.env.inner } in
            let t' : Traced E = elim cb [
              | none ↦ t
              | some f ↦ f (script_result_to_errno result) t
            ] in
            n ∷ m.env.reported ≡ t'.reported
      noted cb e = rw e refl

  handle-UnderWay :
      (e : Event) (m : Machine E)
      → Waits p callback e m
      → UnderWay m
      → UnderWay (handle p callback e m)
  unfolding handle print_match
  handle-UnderWay (call c) m idle u =
      started-UnderWay c.number m (start p callback c m.script m.env)
        (start-Outcome p claimed laws callback c m.script m.env) idle u
  handle-UnderWay (line text) m w u = u
  handle-UnderWay (finish result) m w u =
      if_elim UnderWay m.in_flight (λ running. finish-UnderWay result m running u) (λ _. u)

  events-UnderWay :
      (es : List Event) (m : Machine E)
      → Polite p callback es m
      → UnderWay m
      → UnderWay (run_events p callback es m)
  unfolding run_events
  events-UnderWay [] m polite u = u
  events-UnderWay (e ∷ es) m polite u =
      events-UnderWay es (handle p callback e m) polite.1 (handle-UnderWay e m polite.0 u)

  -- Over every sequence of events in which no call is made while a script runs, from a machine on
  -- in which none runs: the calls whose callback was called are the calls that were accepted,
  -- each once and in their order, but for the one whose script runs.
  pub accepted_reported :
      (es : List Event) (m : Machine E)
      → Polite p callback es m
      → m.in_flight ≡ false
      → m.accepted ≡ m.env.reported
      → let m' = run_events p callback es m in
        ((m'.in_flight ≡ false) × (m'.accepted ≡ m'.env.reported))
        ⊎ (n : ℕ) × (m'.in_flight ≡ true) × (m'.accepted ≡ n ∷ m'.env.reported)
  accepted_reported es m polite idle same = elim (events-UnderWay es m polite (inl (idle, same))) [
    | inl l ↦ inl l
    | inr (n, running, accepted, _) ↦ inr (n, running, accepted)
  ]

  -- For every call that is made while a script runs and holds the pipe, and however that script
  -- then ends: the call is refused, and neither it nor the call that was accepted before is ever
  -- reported, since the refused call has dropped the callback.
  pub refused_call_drops_callback :
      (c : Call) (result : ScriptResult) (m : Machine E)
      → m.in_flight ≡ true
      → claimed m.env.inner ≡ true
      → let m' = handle p callback (finish result) (handle p callback (call c) m) in
        (m'.in_flight ≡ false) × (m'.accepted ≡ m.accepted) × (m'.env.reported ≡ m.env.reported)
  unfolding handle script_callback
  refused_call_drops_callback c result m running held =
      dropped (start p callback c m.script m.env)
        (start-Outcome p claimed laws callback c m.script m.env)
    where
      silent :
          (cb : Option (ℤ → Traced E → Traced E)) (t : Traced E)
          → cb ≡ none
          → let t₁ : Traced E = record t { inner = p.release t.inner } in
            let t' : Traced E = elim cb [
              | none ↦ t₁
              | some f ↦ f (script_result_to_errno result) t₁
            ] in
            t'.reported ≡ t.reported
      silent cb t e = rw e refl

      dropped :
          (r : ℤ × Script (Traced E) × Traced E)
          → Outcome p claimed laws callback c.number m.env r
          → let m₁ = started p callback c.number m r in
            let m' =
              if m₁.in_flight
              then finished p callback m₁
                  (script_callback (traced p callback) result m₁.script m₁.env)
              else m₁ in
            (m'.in_flight ≡ false) × (m'.accepted ≡ m.accepted) × (m'.env.reported ≡ m.env.reported)
      dropped (ret, h, t) (same, inl l) =
          let Lost : Machine E → Type 0 = λ m'.
            (m'.in_flight ≡ false)
            × (m'.accepted ≡ m.accepted)
            × (m'.env.reported ≡ m.env.reported) in
          let ended : Machine E → Machine E = λ m₁.
            if m₁.in_flight
            then finished p callback m₁
                (script_callback (traced p callback) result m₁.script m₁.env)
            else m₁ in
          if_elim (λ m₁. Lost (ended m₁)) (is_neg ret)
            (λ _.
              if_elim Lost m.in_flight (λ _. (refl, refl, silent h.complete_cb t l.1 ∙ same))
                (λ idle. cc (idle, running)))
            (λ ok. cc (ok, l.0))
      dropped (ret, h, t) (same, inr k) = cc (held, k.2)
