-- ===== src/Sms/ResultQueue/Refine.antt =====
-- The ring behaves as a list of at most `depth` results, oldest first.
use native.Mathlib.Nat.{mod-lt, mod-mod, mod-add-mod, add-zero}
use tibbit.Common.{
  ℕ, zero, suc, ◌+◌, ◌-◌, ◌%◌, ◌≤◌, ◌<◌, ◌≡◌, refl, sym, ap, ◌∙◌, ◌⊎◌, Bool-cases, inl, inr, Option,
  none, some, List, [], ◌∷◌, ◌++◌, arith, length, ◌==◌, if◌then◌else◌,
}
use tibbit.Sms.Request.{SmsResult}
use tibbit.Sms.ResultQueue.{ResultQueue, make_room, append_entry, put, find}
use tibbit.Sms.ResultQueue.Slots.{slots, length-slots, slots-congr, slots-update_end}

-- A full list loses its oldest entry.
abbrev pub make_room_spec : ℕ → List SmsResult → List SmsResult
make_room_spec depth [] = []
make_room_spec depth (x ∷ l) = if length (x ∷ l) == depth then l else x ∷ l

-- Take out the oldest result with this identifier.
pub remove_spec : ℕ → List SmsResult → Option (SmsResult × List SmsResult)
remove_spec request_id [] = none
remove_spec request_id (x ∷ l) =
    let rest = remove_spec request_id l in
    if x.request_id == request_id
    then some (x, l)
    else elim rest [ none ↦ none | some (y, l') ↦ some (y, x ∷ l') ]

module _ (depth : ℕ) where
  pub record IsValid (q : ResultQueue) : Type 0 where
    pub has_room : 0 < depth
    pub head_in : q.head < depth
    pub count_in : q.count ≤ depth
    pub tail_at : q.tail ≡ (q.head + q.count) % depth

  abbrev pub contents : ResultQueue → List SmsResult
  contents q = slots depth q.results q.head q.count

  make_room_fits :
      (q : ResultQueue)
      → IsValid q
      → IsValid (make_room depth q) × ((make_room depth q).count < depth)
  unfolding make_room
  make_room_fits q v = elim (Bool-cases (q.count == depth)) [
    | inl e ↦ rw e (
      record {
        has_room = v.has_room;
        head_in = mod-lt (q.head + 1) v.has_room;
        count_in = omega arith;
        tail_at =
            v.tail_at
            ∙ ap (λ k. k % depth) (ground arith)
            ∙ sym (mod-add-mod (q.head + 1) depth (q.count - 1));
      },
      ground arith,
    )
    | inr e ↦ rw e (v, ground arith)
  ]

  drop_slots :
      (f : ℕ → SmsResult) (h n : ℕ)
      → make_room_spec depth (slots depth f h n)
        ≡ (if n == depth then slots depth f (h + 1) (n - 1) else slots depth f h n)
  drop_slots f h zero = ground arith
  drop_slots f h (suc n) =
      let e : suc n - 1 ≡ n = omega arith in
      ground (arith, length-slots depth f (h + 1) n, ap (slots depth f (h + 1)) e)

  contents-make_room :
      (q : ResultQueue)
      → IsValid q
      → contents (make_room depth q) ≡ make_room_spec depth (contents q)
  unfolding make_room
  contents-make_room q v = elim (Bool-cases (q.count == depth)) [
    | inl e ↦ rw e (
        slots-congr depth q.results ((q.head + 1) % depth) (q.head + 1) (q.count - 1)
          (mod-mod (q.head + 1) depth)
        ∙ sym (rw e at (drop_slots q.results q.head q.count)))
    | inr e ↦ rw e (sym (rw e at (drop_slots q.results q.head q.count)))
  ]

  append_entry_fits :
      (entry : SmsResult) (q : ResultQueue)
      → IsValid q
      → q.count < depth
      → IsValid (append_entry depth entry q)
        × (contents (append_entry depth entry q) ≡ contents q ++ entry ∷ [])
  unfolding append_entry
  append_entry_fits entry q v lo = (
    record {
      has_room = v.has_room;
      head_in = v.head_in;
      count_in = omega arith;
      tail_at =
          ap (λ k. (k + 1) % depth) v.tail_at
          ∙ mod-add-mod (q.head + q.count) depth 1
          ∙ ap (λ k. k % depth) (omega arith);
    },
    rw v.tail_at (slots-update_end depth q.results entry q.head q.count lo),
  )

  -- Storing a result keeps the ring well-formed, and appends it to the list of results; of a full
  -- list the oldest result is dropped first, and nothing else is lost.
  pub put_refines :
      (entry : SmsResult) (q : ResultQueue)
      → IsValid q
      → IsValid (put depth entry q)
        × (contents (put depth entry q) ≡ make_room_spec depth (contents q) ++ entry ∷ [])
  unfolding put
  put_refines entry q v =
      let (fits, room) = make_room_fits q v in
      let (fits', added) = append_entry_fits entry (make_room depth q) fits room in
      (fits', added ∙ ap (λ l. l ++ entry ∷ []) (contents-make_room q v))

  -- The search from position `i` fails and so does the removal, or it finds the position `i + k`,
  -- and the removal takes that entry out.
  abbrev pub Found : ResultQueue → ℕ → ℕ → ℕ → Type 0
  Found q request_id n i =
      (k m : ℕ) × (n ≡ k + 1 + m)
      × (find depth q request_id n i ≡ some (i + k))
      × (remove_spec request_id (slots depth q.results (q.head + i) n)
          ≡ some (
            q.results ((q.head + (i + k)) % depth),
            slots depth q.results (q.head + i) k ++ slots depth q.results (q.head + i + k + 1) m,
          ))

  pub find_splits :
      (q : ResultQueue) (request_id n i : ℕ)
      → (find depth q request_id n i ≡ none)
          × (remove_spec request_id (slots depth q.results (q.head + i) n) ≡ none)
        ⊎ Found q request_id n i
  unfolding find remove_spec
  find_splits q request_id zero i = inl (refl, refl)
  find_splits q request_id (suc n) i =
      let x = q.results ((q.head + i) % depth) in
      let next : q.head + (i + 1) ≡ q.head + i + 1 = omega arith in
      elim (Bool-cases (x.request_id == request_id)) [
        | inl e ↦ inr (0, n, omega arith, rw (e, add-zero), rw (e, add-zero, add-zero))
        | inr e ↦ elim (find_splits q request_id n (i + 1)) [
          | inl (f, r) ↦ inl (rw e f, rw (e, ← next, r))
          | inr (k, m, s, f, r) ↦
              let at : q.head + (i + 1 + k) ≡ q.head + (i + suc k) = omega arith in
              let behind : q.head + (i + 1) + k + 1 ≡ q.head + i + suc k + 1 = omega arith in
              inr (
                suc k,
                m,
                omega arith,
                rw (e, f) (ap some (omega arith)),
                rw (e, ← next, r, at, behind, next),
              )
        ]
      ]
