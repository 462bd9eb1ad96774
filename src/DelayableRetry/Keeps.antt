-- ===== src/DelayableRetry/Keeps.antt =====
-- What a start of a retried operation leaves as it is: a reading `f` of the client's state that no
-- callback changes, but for a completion with success.
use mathlib.Core.Path.{subst}
use tibbit.Common.{
  neg_nonzero, ℕ, ◌≡◌, refl, sym, ◌∙◌, Bool, true, false, ◌||◌, if_elim, Option, some, ℤ, pos,
  is_neg, eqb_ℤ, ltb, ◌==◌,
}
use tibbit.Common.Errno.{einprogress}
use tibbit.DelayableRetry.{
  Ops, Retry, give_up, schedule_next, finish_attempt, run_step, step, start, call_complete,
  call_attempt_failed, call_retry_delay_ms,
}

pub record Callbacks (S : Type 0) : Type 0 where
  pub run_attempt : ℕ → S → ℤ × S
  pub retry_delay_ms : ℕ → S → ℕ × S
  pub attempt_failed : ℤ → ℕ → ℕ → S → S
  pub complete : ℤ → S → S

abbrev pub ops_of : {S : Type 0} → Callbacks S → Ops S
ops_of b = record {
  run_attempt = some b.run_attempt;
  retry_delay_ms = some b.retry_delay_ms;
  attempt_failed = some b.attempt_failed;
  complete = some b.complete;
}

pub record Keeps {S X : Type 0} (f : S → X) (reschedule : ℕ → S → ℤ × S) (b : Callbacks S)
    : Type 0 where
  pub run : (k : ℕ) (s : S) → f (b.run_attempt k s).1 ≡ f s
  pub delay : (k : ℕ) (s : S) → f (b.retry_delay_ms k s).1 ≡ f s
  pub failed : (ret : ℤ) (k n : ℕ) (s : S) → f (b.attempt_failed ret k n s) ≡ f s
  pub rearm : (ms : ℕ) (s : S) → f (reschedule ms s).1 ≡ f s
  pub ended : (ret : ℤ) (s : S) → eqb_ℤ ret (pos 0) ≡ false → f (b.complete ret s) ≡ f s

module _ {S X : Type 0} (f : S → X) (reschedule : ℕ → S → ℤ × S) (b : Callbacks S)
    (keeps : Keeps f reschedule b) where
  abbrev with_ops : Retry S → Retry S
  with_ops r = record r { ops = some (ops_of b) }

  abbrev Kept : S → Bool × Retry S × S → Type 0
  Kept s (_, r, s') = (f s' ≡ f s) × (r.ops ≡ some (ops_of b))

  schedule_next-Kept : (r : Retry S) (s : S) → Kept s (schedule_next reschedule (with_ops r) s)
  unfolding schedule_next give_up call_retry_delay_ms call_complete
  schedule_next-Kept r s =
      let (ms, s₁) = b.retry_delay_ms r.attempt s in
      let (ret, s₂) = reschedule ms s₁ in
      let armed = keeps.rearm ms s₁ ∙ keeps.delay r.attempt s in
      if_elim (Kept s) (is_neg ret)
        (λ neg. (keeps.ended ret s₂ (neg_nonzero ret neg) ∙ armed, refl)) (λ good. (armed, refl))

  finish_attempt-Kept :
      (r : Retry S) (ret : ℤ) (s : S)
      → eqb_ℤ ret (pos 0) ≡ false
      → Kept s (finish_attempt reschedule (with_ops r) ret s)
  unfolding finish_attempt call_attempt_failed call_complete give_up
  finish_attempt-Kept r ret s ne =
      let s₁ = b.attempt_failed ret r.attempt r.max_attempts s in
      let told = keeps.failed ret r.attempt r.max_attempts s in
      let r' = record r { attempt_in_progress = false } in
      if_elim (Kept s) (eqb_ℤ ret (pos 0)) (λ eq. absurd (cc (ne, eq)))
        (λ no.
          if_elim (Kept s) (r.max_attempts == 0 || ltb r.attempt r.max_attempts)
            (λ more. let (same, is_ops) = schedule_next-Kept r' s₁ in (same ∙ told, is_ops))
            (λ last. (keeps.ended ret s₁ ne ∙ told, refl)))

  step-Kept :
      (r : Retry S) (s : S)
      → eqb_ℤ (b.run_attempt r.attempt s).0 (pos 0) ≡ false
      → Kept s (step reschedule (with_ops r) s)
  unfolding step run_step
  step-Kept r s ne =
      let (ret, s₁) = b.run_attempt r.attempt s in
      let runs = record r { pending = true; attempt_in_progress = true } in
      let told = keeps.run r.attempt s in
      if_elim (Kept s) (eqb_ℤ ret einprogress) (λ runs. (told, refl))
        (λ ends. let (same, is_ops) = finish_attempt-Kept runs ret s₁ ne in (same ∙ told, is_ops))

  -- A started object keeps its callbacks, and the reading is the same.
  pub start_keeps :
      (r : Retry S) (n : ℕ) (s : S)
      → r.ops ≡ some (ops_of b)
      → eqb_ℤ (b.run_attempt 1 s).0 (pos 0) ≡ false
      → let (_, r', s') = start reschedule (some r) n s in
        (f s' ≡ f s) × ((retry : Retry S) × (r' ≡ some retry) × (retry.ops ≡ some (ops_of b)))
  unfolding start
  start_keeps r n s is_ops ne =
      let fresh : Option (Ops S) → Retry S = λ o. record {
        ops = o;
        attempt = 1;
        max_attempts = n;
        pending = false;
        attempt_in_progress = false;
      } in
      let (same, kept) = step-Kept (fresh (some (ops_of b))) s ne in
      subst
        (λ o.
          let (_, r', s') = step reschedule (fresh o) s in
          (f s' ≡ f s)
          × ((retry : Retry S) × (some r' ≡ some retry) × (retry.ops ≡ some (ops_of b))))
        (sym is_ops) (same, ((step reschedule (fresh (some (ops_of b))) s).1, refl, kept))
