-- ===== src/Sms/ResultQueue/Service.antt =====
-- The calls on the ring together with its semaphore, against the list of stored results.
use mathlib.Core.Path.{ap₂}
use native.Mathlib.Nat.{mod-eq_of_lt, mod-lt, mod-mod, mod-add-mod, add-mod_right}
use tibbit.Common.{
  ℕ, zero, suc, ◌+◌, ◌-◌, ◌%◌, ◌<◌, ◌≡◌, refl, sym, ap, ◌∙◌, ◌≢◌, ◌⊎◌, true, false, Bool-cases, inl,
  inr, none, some, [], ◌∷◌, ◌++◌, ℤ, pos, arith, ◌==◌, if◌then◌else◌, take,
}
use tibbit.Common.Errno.{enoent}
use tibbit.Kernel.{Semaphore, SemaphoreLaws}
use tibbit.Sms.Request.{Bytes, SmsResult}
use tibbit.Sms.ResultQueue.{
  ResultQueue, make_room, append_entry, put, shift, store_async_result, result_get,
}
use tibbit.Sms.ResultQueue.Slots.{slots, slots-congr, slots-shift}
use tibbit.Sms.ResultQueue.Refine.{
  IsValid, contents, make_room_spec, remove_spec, put_refines, find_splits,
}

module _ (depth : ℕ) where
  slots_pos :
      (f : ℕ → SmsResult) (h n : ℕ)
      → n ≢ 0
      → slots depth f h n ≡ f (h % depth) ∷ slots depth f (h + 1) (n - 1)
  slots_pos f h zero ne = absurd (ne refl)
  slots_pos f h (suc n) ne = ap (λ k. f (h % depth) ∷ slots depth f (h + 1) k) (omega arith)

  abbrev pub popped : ResultQueue → ResultQueue
  popped q = record q { head = (q.head + 1) % depth; count = q.count - 1 }

  pub popped_fits :
      (q : ResultQueue)
      → IsValid depth q
      → q.count ≢ 0
      → IsValid depth (popped q) × (contents depth q ≡ q.results q.head ∷ contents depth (popped q))
  popped_fits q v ne = (
    record {
      has_room = v.has_room;
      head_in = mod-lt (q.head + 1) v.has_room;
      count_in = omega arith;
      tail_at =
          v.tail_at
          ∙ ap (λ k. k % depth) (omega arith)
          ∙ sym (mod-add-mod (q.head + 1) depth (q.count - 1));
    },
    slots_pos q.results q.head q.count ne
        ∙ ap₂ (λ i l. q.results i ∷ l) (mod-eq_of_lt v.head_in)
            (sym (
              slots-congr depth q.results ((q.head + 1) % depth) (q.head + 1) (q.count - 1)
                (mod-mod (q.head + 1) depth))),
  )

  abbrev removed : ResultQueue → ℕ → ResultQueue
  removed q i = record q {
    results = shift depth q.head (q.count - 1 - i) i q.results;
    tail = (q.tail + depth - 1) % depth;
    count = q.count - 1;
  }

  removed_fits :
      (q : ResultQueue) (k m : ℕ)
      → IsValid depth q
      → q.count ≡ k + 1 + m
      → IsValid depth (removed q k)
        × (contents depth (removed q k)
            ≡ slots depth q.results q.head k ++ slots depth q.results (q.head + k + 1) m)
  removed_fits q k m v e =
      let left : q.count - 1 - k ≡ m = omega arith in
      let short : q.count - 1 ≡ k + m = omega arith in
      (
        record {
          has_room = v.has_room;
          head_in = v.head_in;
          count_in = omega arith;
          tail_at =
              ap (λ k. k % depth) (omega arith)
              ∙ ap (λ t. (t + (depth - 1)) % depth) v.tail_at
              ∙ mod-add-mod (q.head + q.count) depth (depth - 1)
              ∙ ap (λ k. k % depth) (omega arith)
              ∙ add-mod_right (q.head + (q.count - 1)) depth;
        },
        rw (left, short) (slots-shift depth m k q.results q.head (omega arith)),
      )

  pub count-put :
      (entry : SmsResult) (q : ResultQueue)
      → 0 < depth
      → (put depth entry q).count ≡ (if q.count == depth then q.count else q.count + 1)
  unfolding put make_room append_entry
  count-put entry q lo = ground arith

module _ {E : Type 0} (depth phone_max_len : ℕ) (sem : Semaphore E) (semaphore_count : E → ℕ)
    (laws : SemaphoreLaws sem depth semaphore_count) where
  -- Between two calls the semaphore counts the stored results.
  pub record InSync (q : ResultQueue) (e : E) : Type 0 where
    pub valid : IsValid depth q
    pub counted : semaphore_count e ≡ q.count

  -- `tb45_sms_result_get` with an identifier that is not 0 and a destination for the result: it
  -- takes the oldest result with this identifier, wherever it stands, leaves the others in their
  -- order, and takes the semaphore once for it; if there is none, it answers -ENOENT and changes
  -- nothing.
  pub result_get_refines :
      (request_id : ℕ) (q : ResultQueue) (e : E)
      → request_id ≢ 0
      → InSync q e
      → let (ret, out, q', e') = result_get depth phone_max_len sem request_id true q e in
        InSync q' e'
        × ((remove_spec request_id (contents depth q) ≡ none)
              × (ret ≡ enoent)
              × (out ≡ none)
              × (q' ≡ q)
              × (e' ≡ e)
            ⊎ (x : SmsResult) × (remove_spec request_id (contents depth q)
                ≡ some (x, contents depth q'))
              × (ret ≡ pos 0)
              × (out ≡ some x))
  unfolding result_get
  result_get_refines request_id q e ne s =
      let not_zero : (request_id == 0) ≡ false = ground arith in
      let at_head : q.head + 0 ≡ q.head = omega arith in
      elim (find_splits depth q request_id q.count 0) [
        | inl (f, r) ↦ rw (not_zero, f) (s, inl (rw at_head at r, refl, refl, refl, refl))
        | inr (k, m, n, f, r) ↦
            let at_k : 0 + k ≡ k = omega arith in
            let (_, less) = laws.take_some e (omega arith) in
            let (fits, left) = removed_fits depth q k m s.valid n in
            rw (not_zero, f, at_k)
              (
                record { valid = fits; counted = omega arith },
                inr (q.results ((q.head + k) % depth), rw (at_head, at_k, ← left) at r, refl, refl),
              )
      ]

  -- `tb45_sms_store_async_result` keeps the semaphore at the number of stored results, and appends
  -- the result, with the phone number cut to `phone_max_len` bytes, to the results, of which a full
  -- ring first loses the oldest one.
  pub store_refines :
      (request_id : ℕ) (phone : Bytes) (result : ℤ) (q : ResultQueue) (e : E)
      → InSync q e
      → let (q', e') =
          store_async_result depth phone_max_len sem request_id (some phone) result q e in
        InSync q' e'
        × (contents depth q'
            ≡ make_room_spec depth (contents depth q)
              ++ record {
                request_id = request_id;
                result = result;
                phone = take phone_max_len phone;
              }
                ∷ [])
  unfolding store_async_result
  store_refines request_id phone result q e s =
      let entry : SmsResult = record {
        request_id = request_id;
        result = result;
        phone = take phone_max_len phone;
      } in
      let (v, kept) = put_refines depth entry q s.valid in
      elim (Bool-cases (q.count == depth)) [
        | inl f ↦ rw f (
          record {
            valid = record {
              has_room = v.has_room;
              head_in = v.head_in;
              count_in = v.count_in;
              tail_at = v.tail_at;
            };
            counted = s.counted ∙ sym (count-put depth entry q v.has_room ∙ rw f refl);
          },
          kept,
        )
        | inr f ↦ rw f (
          record {
            valid = v;
            counted =
                laws.give_room e (ground arith)
                ∙ rw s.counted (sym (count-put depth entry q v.has_room ∙ rw f refl));
          },
          kept,
        )
      ]
