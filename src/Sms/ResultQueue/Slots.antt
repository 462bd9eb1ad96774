-- ===== src/Sms/ResultQueue/Slots.antt =====
-- The entries of the ring as a list, oldest first, and what writes and moves do to it.
use native.Mathlib.Nat.{
  zero-add, add-zero, suc-add, mod-add-mod, mod-eq_of_lt, mod-eq-sub-mod, mod-lt, add-mod_right,
}
use native.Mathlib.Decide.{dec_lt}
use mathlib.Core.Path.{ap₂}
use mathlib.Core.List.{append-nil, append_assoc}
use tibbit.Common.{
  ℕ, zero, suc, ◌+◌, ◌-◌, ◌%◌, ◌≤◌, ◌<◌, ◌≡◌, refl, sym, ap, ◌∙◌, ◌≢◌, List, [], ◌∷◌, ◌++◌, arith,
  length,
}
use tibbit.Sms.Request.{SmsResult}
use tibbit.Sms.ResultQueue.{update, shift}

module _ (depth : ℕ) where
  abbrev pub slots : (ℕ → SmsResult) → ℕ → ℕ → List SmsResult
  slots f h zero = []
  slots f h (suc n) = f (h % depth) ∷ slots f (h + 1) n

  pub length-slots : (f : ℕ → SmsResult) (h n : ℕ) → length (slots f h n) ≡ n
  length-slots f h zero = refl
  length-slots f h (suc n) = ap suc (length-slots f (h + 1) n)

  pub slots-append :
      (f : ℕ → SmsResult) (h m n : ℕ) → slots f h (m + n) ≡ slots f h m ++ slots f (h + m) n
  slots-append f h zero n = rw (zero-add, add-zero)
  slots-append f h (suc m) n =
      let e : h + 1 + m ≡ h + suc m = omega arith in
      rw suc-add (
        ap (λ l. f (h % depth) ∷ l)
          (slots-append f (h + 1) m n ∙ ap (λ k. slots f (h + 1) m ++ slots f k n) e))

  -- Only the residue of the start matters.
  pub slots-congr :
      (f : ℕ → SmsResult) (h k n : ℕ) → h % depth ≡ k % depth → slots f h n ≡ slots f k n
  slots-congr f h k zero e = refl
  slots-congr f h k (suc n) e =
      ap₂ (λ x l. f x ∷ l) e
        (slots-congr f (h + 1) (k + 1) n
          (sym (mod-add-mod h depth 1) ∙ ap (λ x. (x + 1) % depth) e ∙ mod-add-mod k depth 1))

  -- Fewer than `depth` steps round the ring do not come back to the start.
  add-mod-ne : (h k : ℕ) → h < depth → 0 < k → k < depth → (h + k) % depth ≢ h
  add-mod-ne h k fits lo hi = elim (dec_lt (h + k) depth) [
    | yes p ↦ omega (arith, mod-eq_of_lt p)
    | no p ↦ omega (
      arith,
      mod-eq-sub-mod {n = h + k} {m = depth} (omega arith),
      mod-eq_of_lt {n = h + k - depth} {m = depth} (omega arith),
    )
  ]

  later-mod-ne : (t h : ℕ) → t < h → h < t + depth → h % depth ≢ t % depth
  later-mod-ne t h lo hi e =
      let k = h - t in
      add-mod-ne (t % depth) k (mod-lt t (omega arith)) (omega arith) (omega arith)
        (mod-add-mod t depth k ∙ ap (λ x. x % depth) (omega arith) ∙ e)

  -- A write at `t` is not seen in a window that begins behind `t` and ends before `t` comes again.
  pub slots-update :
      (f : ℕ → SmsResult) (v : SmsResult) (t h n : ℕ)
      → t < h
      → h + n ≤ t + depth
      → slots (update f (t % depth) v) h n ≡ slots f h n
  slots-update f v t h zero lo hi = refl
  slots-update f v t h (suc n) lo hi =
      ap₂ ◌∷◌ (ground (arith, later-mod-ne t h lo (omega arith)))
        (slots-update f v t (h + 1) n (omega arith) (omega arith))

  -- The same for a window that begins less than a round before `t`.
  pub slots-update_behind :
      (f : ℕ → SmsResult) (v : SmsResult) (t h n : ℕ)
      → h + n ≤ t
      → t < h + depth
      → slots (update f (t % depth) v) h n ≡ slots f h n
  slots-update_behind f v t h n lo hi =
      let once_more =
        λ (g : ℕ → SmsResult). slots-congr g h (h + depth) n (sym (add-mod_right h depth)) in
      once_more (update f (t % depth) v)
      ∙ slots-update f v t (h + depth) n (omega arith) (omega arith)
      ∙ sym (once_more f)

  -- Moving the `m` entries behind position `j` down by one overwrites the entry at `j`.
  pub slots-shift :
      (m j : ℕ) (f : ℕ → SmsResult) (h : ℕ)
      → j + m < depth
      → slots (shift depth h m j f) h (j + m) ≡ slots f h j ++ slots f (h + j + 1) m
  unfolding shift
  slots-shift zero j f h fits = rw (add-zero, append-nil)
  slots-shift (suc m) j f h fits =
      let x = f ((h + j + 1) % depth) in
      let g = update f ((h + j) % depth) x in
      let e : j + suc m ≡ j + 1 + m = omega arith in
      let shorter : slots (shift depth h m (j + 1) g) h (j + 1 + m)
          ≡ slots g h (j + 1) ++ slots g (h + (j + 1) + 1) m =
        slots-shift m (j + 1) g h (omega arith) in
      let front : slots g h (j + 1) ≡ slots f h j ++ x ∷ [] =
        slots-append g h j 1
        ∙ ap₂ ◌++◌ (slots-update_behind f x (h + j) h j (omega arith) (omega arith))
            (ground arith) in
      let back : slots g (h + (j + 1) + 1) m ≡ slots f (h + j + 1 + 1) m =
        slots-update f x (h + j) (h + (j + 1) + 1) m (omega arith) (omega arith)
        ∙ ap (λ k. slots f k m) (omega arith) in
      rw e (
        shorter
        ∙ ap₂ ◌++◌ front back
        ∙ append_assoc (slots f h j) (x ∷ []) (slots f (h + j + 1 + 1) m))

  -- A write just behind a window that is not full extends the window.
  pub slots-update_end :
      (f : ℕ → SmsResult) (v : SmsResult) (h n : ℕ)
      → n < depth
      → slots (update f ((h + n) % depth) v) h (n + 1) ≡ slots f h n ++ v ∷ []
  slots-update_end f v h n lo =
      slots-append (update f ((h + n) % depth) v) h n 1
      ∙ ap₂ ◌++◌ (slots-update_behind f v (h + n) h n (omega arith) (omega arith)) (ground arith)
