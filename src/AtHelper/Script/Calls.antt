-- ===== src/AtHelper/Script/Calls.antt =====
-- What a call of one command leaves behind: the pipe, and the callback that is to be called.
use tibbit.Common.{
  ℕ, ◌≡◌, refl, sym, ◌∙◌, ◌⊎◌, inl, inr, Bool, true, false, ◌||◌, Option, none, some, ℤ, is_neg,
  ltb, if_elim, Bool-cases, ◌+◌, ◌/◌, if◌then◌else◌, Bytes, codes,
}
use tibbit.AtHelper.Capture.{Capture, capture_reset}
use tibbit.AtHelper.RawSend.{min_timeout_ms, max_timeout_ms}
use tibbit.AtHelper.Script.Platform.{ScriptServices, ClaimLaws}
use tibbit.AtHelper.Script.{
  Script, claimed_run, run_async, run_async_with, run_async_cb, run_async_capture_cb, forget,
}
use tibbit.AtHelper.Script.Trace.{Traced, Call, traced, report, start}

module _ {E : Type 0} (p : ScriptServices E) (claimed : E → Bool) (laws : ClaimLaws p claimed)
    (callback : ℕ → ℤ → E → E) where
  -- What `run_async` does with the pipe: a refused call leaves it as it was, and one that has started
  -- a script holds it, which nobody did before.
  abbrev Ran :
      Option (ℤ → Traced E → Traced E) → Traced E → ℤ × Script (Traced E) × Traced E → Type 0
  Ran cb before (ret, h, t) =
      (t.reported ≡ before.reported)
      × (h.complete_cb ≡ cb)
      × (((is_neg ret ≡ true) × (claimed t.inner ≡ claimed before.inner))
          ⊎ (is_neg ret ≡ false) × (claimed before.inner ≡ false) × (claimed t.inner ≡ true))

  claimed_run-Ran :
      (sh : Bool) (request expected : Bytes) (ms : ℕ) (h : Script (Traced E)) (before t : Traced E)
      → t.reported ≡ before.reported
      → claimed before.inner ≡ false
      → claimed t.inner ≡ true
      → Ran h.complete_cb before (claimed_run (traced p callback) sh request expected ms h t)
  unfolding claimed_run
  claimed_run-Ran sh request expected ms h before t same free held =
      let e₁ = (p.set_request request t.inner).1 in
      let e₂ = (p.set_match expected e₁).1 in
      let e₃ = p.set_timeouts (if ltb 65535 ms then 65535 else ms) ((ms + 999) / 1000) e₂ in
      let P = Ran h.complete_cb before in
      let freed : (e : E) → claimed (p.release e) ≡ claimed before.inner =
        λ e. laws.release_frees e ∙ sym free in
      let held₁ = laws.request_keeps request t.inner ∙ held in
      let held₂ = laws.match_keeps expected e₁ ∙ held₁ in
      let held₃ =
        laws.timeouts_keep (if ltb 65535 ms then 65535 else ms) ((ms + 999) / 1000) e₂ ∙ held₂ in
      if_elim P (is_neg (p.set_request request t.inner).0) (λ _. (same, refl, inl (refl, freed e₁)))
        (λ _.
          if_elim P (is_neg (p.set_match expected e₁).0) (λ _. (same, refl, inl (refl, freed e₂)))
            (λ _.
              if_elim P (is_neg (p.run_script e₃).0)
                (λ n. (same, refl, inl (n, freed (p.run_script e₃).1)))
                (λ n. (same, refl, inr (n, free, laws.script_keeps e₃ ∙ held₃)))))

  unclaimed : (e : E) → is_neg (p.claim e).0 ≡ false → claimed e ≡ false
  unclaimed e n = elim (Bool-cases (claimed e)) [
    | inl held ↦ cc (n, laws.claim_busy e held)
    | inr free ↦ free
  ]

  run_async-Ran :
      (sh : Bool) (request expected : Option Bytes) (ms : ℕ) (h : Script (Traced E)) (t : Traced E)
      → Ran h.complete_cb t (run_async (traced p callback) sh request expected ms h t)
  unfolding run_async
  run_async-Ran sh none expected ms h t = (refl, refl, inl (refl, refl))
  run_async-Ran sh (some request) expected ms h t =
      let P = Ran h.complete_cb t in
      if_elim P (ltb ms min_timeout_ms || ltb max_timeout_ms ms)
        (λ _. (refl, refl, inl (refl, refl)))
        (λ _.
          if_elim P (is_neg (p.claim t.inner).0)
            (λ n. (refl, refl, inl (n, laws.claim_fails t.inner n)))
            (λ n.
              let t' : Traced E = record t { inner = (p.claim t.inner).1 } in
              claimed_run-Ran sh request (elim expected [ none ↦ codes "OK" | some s ↦ s ]) ms h t
                t' refl (unclaimed t.inner n) (laws.claim_free t.inner n)))

  -- The end of a call: a refused one leaves no callback, an accepted one its own.
  abbrev pub Outcome : ℕ → Traced E → ℤ × Script (Traced E) × Traced E → Type 0
  Outcome n before (ret, h, t) =
      (t.reported ≡ before.reported)
      × (((is_neg ret ≡ true) × (h.complete_cb ≡ none) × (claimed t.inner ≡ claimed before.inner))
          ⊎ (is_neg ret ≡ false)
            × (h.complete_cb ≡ some (report p callback n))
            × (claimed before.inner ≡ false)
            × (claimed t.inner ≡ true))

  run_async_with-Outcome :
      (capture : Capture) (request expected : Option Bytes) (ms n : ℕ) (h : Script (Traced E))
      (t : Traced E)
      → Outcome n t (
          run_async_with
            (traced p callback)
            capture
            false
            request
            expected
            ms
            (some (report p callback n))
            h
            t)
  unfolding run_async_with forget
  run_async_with-Outcome capture request expected ms n h t =
      settle
        (run_async (traced p callback) false request expected ms
          (record h { capture = capture; complete_cb = some (report p callback n) }) t)
        (run_async-Ran false request expected ms
          (record h { capture = capture; complete_cb = some (report p callback n) }) t)
    where
      settle :
          (r : ℤ × Script (Traced E) × Traced E)
          → Ran (some (report p callback n)) t r
          → Outcome n t (if is_neg r.0 then (r.0, forget r.1, r.2) else r)
      settle (ret, h', t') (same, cb, o) =
          if_elim (Outcome n t) (is_neg ret)
            (λ neg. (same, elim o [ inl l ↦ inl (neg, refl, l.1) | inr k ↦ cc (neg, k.0) ]))
            (λ ok. (same, elim o [ inl l ↦ cc (ok, l.0) | inr k ↦ inr (ok, cb, k.1, k.2) ]))

  pub start-Outcome :
      (c : Call) (h : Script (Traced E)) (t : Traced E)
      → Outcome c.number t (start p callback c h t)
  unfolding run_async_cb run_async_capture_cb
  start-Outcome c h t = sized c.capture_size
    where
      sized :
          (size : Option ℕ)
          → Outcome c.number t (elim size [
            | none ↦
                run_async_cb
                  (traced p callback)
                  false
                  c.request
                  c.expected
                  c.timeout_ms
                  (some (report p callback c.number))
                  h
                  t
            | some n ↦
                run_async_capture_cb
                  (traced p callback)
                  false
                  c.request
                  c.expected
                  c.timeout_ms
                  true
                  n
                  (some (report p callback c.number))
                  h
                  t
          ])
      sized none =
          run_async_with-Outcome (capture_reset false 0) c.request c.expected c.timeout_ms c.number
            h t
      sized (some n) =
          run_async_with-Outcome (capture_reset true n) c.request c.expected c.timeout_ms c.number h
            t
