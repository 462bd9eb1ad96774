-- ===== src/AtHelper/Window/Suffix.antt =====
-- The last bytes of a list, and lists that stand inside another.
use tibbit.Common.{
  ℕ, zero, suc, ◌+◌, ◌-◌, ◌≤◌, ◌≡◌, refl, ap, sym, ◌∙◌, List, [], ◌∷◌, ◌++◌, arith, length, take,
  drop, length-append, length-drop, take-append-drop,
}
use mathlib.Core.Path.{ap₂}
use mathlib.Core.List.{append_assoc}

module _ {ℓ} {A : Type ℓ} where
  pub drop_all : (n : ℕ) (xs : List A) → length xs ≤ n → drop n xs ≡ []
  drop_all zero [] h = refl
  drop_all zero (x ∷ xs) h = absurd (omega arith)
  drop_all (suc n) [] h = refl
  drop_all (suc n) (x ∷ xs) h = drop_all n xs (omega arith)

  pub drop-append :
      (n : ℕ) (xs ys : List A) → drop n (xs ++ ys) ≡ drop n xs ++ drop (n - length xs) ys
  drop-append zero [] ys = refl
  drop-append (suc n) [] ys = let e : suc n - 0 ≡ suc n = omega arith in rw e
  drop-append zero (x ∷ xs) ys = let e : 0 - suc (length xs) ≡ 0 = omega arith in rw e
  drop-append (suc n) (x ∷ xs) ys =
      let e : n - length xs ≡ suc n - suc (length xs) = omega arith in
      rw (← e) (drop-append n xs ys)

  pub drop-drop : (m n : ℕ) (xs : List A) → drop m (drop n xs) ≡ drop (n + m) xs
  drop-drop m zero xs = ap (λ k. drop k xs) {x = m} (omega arith)
  drop-drop zero (suc n) [] = let e : suc n + 0 ≡ suc n = omega arith in rw e
  drop-drop (suc m) (suc n) [] = let e : suc n + suc m ≡ suc (n + suc m) = omega arith in rw e
  drop-drop m (suc n) (x ∷ xs) =
      let e : suc n + m ≡ suc (n + m) = omega arith in rw e (drop-drop m n xs)

  pub take-append_self : (xs ys : List A) → take (length xs) (xs ++ ys) ≡ xs
  take-append_self [] ys = refl
  take-append_self (x ∷ xs) ys = ap (λ l. x ∷ l) (take-append_self xs ys)

  pub drop-append_self : (xs ys : List A) → drop (length xs) (xs ++ ys) ≡ ys
  drop-append_self [] ys = refl
  drop-append_self (x ∷ xs) ys = drop-append_self xs ys

  -- The last `n` elements, or all if there are fewer.
  abbrev pub last_n : ℕ → List A → List A
  last_n n xs = drop (length xs - n) xs

  -- `xs` stands in one piece in `ys`.
  abbrev pub Within : List A → List A → Type ℓ
  Within xs ys = (front : List A) × (back : List A) × (ys ≡ front ++ (xs ++ back))

  pub length-last_n : (n : ℕ) (xs : List A) → length (last_n n xs) ≤ n
  length-last_n n xs = omega (arith, length-drop (length xs - n) xs)

  pub last_n-append : (n : ℕ) (xs ys : List A) → last_n n (last_n n xs ++ ys) ≡ last_n n (xs ++ ys)
  last_n-append n xs ys =
      let k = length xs - n in
      let kept : length (drop k xs) ≡ length xs - k = length-drop k xs in
      let m = length (drop k xs ++ ys) - n in
      let both : length (drop k xs ++ ys) ≡ length (drop k xs) + length ys =
        length-append (drop k xs) ys in
      let all : length (xs ++ ys) ≡ length xs + length ys = length-append xs ys in
      let front : drop m (drop k xs) ≡ drop (length (xs ++ ys) - n) xs =
        drop-drop m k xs ∙ ap (λ j. drop j xs) {x = k + m} (omega arith) in
      let back : drop (m - length (drop k xs)) ys ≡ drop (length (xs ++ ys) - n - length xs) ys =
        ap (λ j. drop j ys) {x = m - length (drop k xs)} (omega arith) in
      drop-append m (drop k xs) ys
      ∙ ap₂ ◌++◌ front back
      ∙ sym (drop-append (length (xs ++ ys) - n) xs ys)

  pub Within-drop : (n : ℕ) (xs ys : List A) → Within xs (drop n ys) → Within xs ys
  Within-drop n xs ys (front, back, e) = (
    take n ys ++ front,
    back,
    sym (take-append-drop n ys) ∙ rw e (sym (append_assoc (take n ys) front (xs ++ back))),
  )
