-- ===== src/Sms/ResultQueue/Wait.antt =====
-- tb45_sms_result_wait, with any timeout.
use tibbit.Common.{
  ℕ, ◌+◌, ◌<◌, ◌≡◌, refl, sym, ap, ◌∙◌, Bool-cases, ◌≢◌, ◌⊎◌, true, false, inl, inr, Option, none,
  some, [], ◌∷◌, ℤ, pos, is_neg, arith, ◌==◌,
}
use tibbit.Kernel.{Timeout, no_wait, Semaphore, SemaphoreLaws}
use tibbit.Sms.Request.{SmsResult}
use tibbit.Sms.ResultQueue.{ResultQueue, result_wait}
use tibbit.Sms.ResultQueue.Refine.{IsValid, contents}
use tibbit.Sms.ResultQueue.Service.{popped_fits, InSync}

module _ {E : Type 0} (depth phone_max_len : ℕ) (sem : Semaphore E) (semaphore_count : E → ℕ)
    (laws : SemaphoreLaws sem depth semaphore_count) where
  abbrev Synced : ResultQueue → E → Type 0
  Synced = InSync depth phone_max_len sem semaphore_count laws

  -- What is relied on of `k_sem_take` on the semaphore, for a caller that finds the ring in sync. It
  -- takes at once if it can. Else it waits, if it may; in the meantime other threads store and take
  -- results, each in sync with the semaphore, and it fails or takes what was given for a result,
  -- which `tb45_sms_result_get` may still take from the ring before it.
  pub record AwaitLaws (await : Timeout → ResultQueue → E → ℤ × ResultQueue × E) : Type 0 where
    pub at_once :
        (t : Timeout) (q : ResultQueue) (e : E)
        → 0 < semaphore_count e
        → let (ret, q', e') = await t q e in
          (ret ≡ pos 0) × (q' ≡ q) × (semaphore_count e' + 1 ≡ semaphore_count e)
    pub waited :
        (t : Timeout) (q : ResultQueue) (e : E)
        → Synced q e
        → semaphore_count e ≡ 0
        → let (ret, q', e') = await t q e in
          (is_neg ret ≡ true) × Synced q' e'
          ⊎ (ret ≡ pos 0)
            × IsValid depth q'
            × ((semaphore_count e' + 1 ≡ q'.count) ⊎ (semaphore_count e' ≡ 0) × (q'.count ≡ 0))
    pub refused :
        (q : ResultQueue) (e : E)
        → semaphore_count e ≡ 0
        → let (ret, q', e') = await no_wait q e in (is_neg ret ≡ true) × (q' ≡ q)

  -- `k_sem_take` with K_NO_WAIT
  abbrev pub take_now : Timeout → ResultQueue → E → ℤ × ResultQueue × E
  take_now timeout q e = let (ret, e') = sem.take e in (ret, q, e')

  pub take_now-AwaitLaws : AwaitLaws take_now
  take_now-AwaitLaws = record {
    at_once = λ t q e some_left. let (ret, less) = laws.take_some e some_left in (ret, refl, less);
    waited = λ t q e s none_left.
        let (ret, same) = laws.take_none e none_left in
        inl (ret, record { valid = s.valid; counted = same ∙ sym none_left ∙ s.counted });
    refused = λ q e none_left. let (ret, _) = laws.take_none e none_left in (ret, refl);
  }

  -- What a call may do, after the wait has left the ring `waited`.
  abbrev pub Outcome : ResultQueue → ResultQueue → ℤ × Option SmsResult × ResultQueue × E → Type 0
  Outcome q waited (ret, out, q', e') =
      Synced q' e'
      × ((contents depth q ≡ []) × (is_neg ret ≡ true) × (out ≡ none) × (q' ≡ waited)
          ⊎ (x : SmsResult) × (contents depth waited ≡ x ∷ contents depth q')
            × (ret ≡ pos 0)
            × (out ≡ some x))

  module _ (await : Timeout → ResultQueue → E → ℤ × ResultQueue × E)
      (await_laws : AwaitLaws await) where
    refused_wait :
        (t : Timeout) (q : ResultQueue) (e : E)
        → is_neg (await t q e).0 ≡ true
        → q.count ≡ 0
        → Synced (await t q e).1 (await t q e).2
        → Outcome q (await t q e).1 (result_wait depth await true t q e)
    unfolding result_wait
    refused_wait t q e neg empty still = rw neg (still, inl (rw empty, neg, refl, refl))

    taken_wait :
        (t : Timeout) (q : ResultQueue) (e : E)
        → (await t q e).0 ≡ pos 0
        → IsValid depth (await t q e).1
        → semaphore_count (await t q e).2 + 1 ≡ (await t q e).1.count
        → Outcome q (await t q e).1 (result_wait depth await true t q e)
    unfolding result_wait
    taken_wait t q e ok valid less =
        let q' : ResultQueue = (await t q e).1 in
        let some_left : (q'.count == 0) ≡ false = ground arith in
        let (fits, split) = popped_fits depth q' valid (ground arith) in
        rw (ok, some_left)
          (
            record { valid = fits; counted = omega arith },
            inr (q'.results q'.head, split, refl, refl),
          )

    stolen_wait :
        (t : Timeout) (q : ResultQueue) (e : E)
        → (await t q e).0 ≡ pos 0
        → q.count ≡ 0
        → IsValid depth (await t q e).1
        → semaphore_count (await t q e).2 ≡ 0
        → (await t q e).1.count ≡ 0
        → Outcome q (await t q e).1 (result_wait depth await true t q e)
    unfolding result_wait
    stolen_wait t q e ok empty valid none_left gone =
        let none_there : ((await t q e).1.count == 0) ≡ true = ground arith in
        rw (ok, none_there)
          (
            record { valid = valid; counted = none_left ∙ sym gone },
            inl (rw empty, refl, refl, refl),
          )

    pub result_wait_refines :
        (t : Timeout) (q : ResultQueue) (e : E)
        → Synced q e
        → let waited = (await t q e).1 in
          Outcome q waited (result_wait depth await true t q e)
          × ((waited ≡ q) ⊎ (contents depth q ≡ []) × (t ≢ no_wait))
    result_wait_refines t q e s = elim (Bool-cases (q.count == 0)) [
      | inl z ↦
          let empty : q.count ≡ 0 = ground arith in
          let none_left = s.counted ∙ empty in
          let stays = stays_put t q e none_left empty in
          elim (await_laws.waited t q e s none_left) [
            | inl (neg, still) ↦ (refused_wait t q e neg empty still, stays)
            | inr (ok, valid, inl less) ↦ (taken_wait t q e ok valid less, stays)
            | inr (ok, valid, inr (gone, none_stored)) ↦
                (stolen_wait t q e ok empty valid gone none_stored, stays)
          ]
      | inr z ↦
          let (ok, same, less) = await_laws.at_once t q e (ground (arith, s.counted)) in
          (
            taken_wait t q e ok (rw same s.valid)
                (less ∙ s.counted ∙ ap ResultQueue.count (sym same)),
            inl same,
          )
    ]
      where
        stays_put :
            (t : Timeout) (q : ResultQueue) (e : E)
            → semaphore_count e ≡ 0
            → q.count ≡ 0
            → ((await t q e).1 ≡ q) ⊎ (contents depth q ≡ []) × (t ≢ no_wait)
        stays_put Timeout.no_wait q e none_left empty = inl (await_laws.refused q e none_left).1
        stays_put (Timeout.wait_ms n) q e none_left empty = inr (rw empty, λ h. cc h)
        stays_put Timeout.forever q e none_left empty = inr (rw empty, λ h. cc h)
