-- ===== src/Sms/Receive/Newest.antt =====
-- The newest entries of a list: what a queue holds that drops the oldest.
use tibbit.Common.{
  ℕ, zero, suc, ◌+◌, ◌-◌, ◌≤◌, ◌≡◌, refl, sym, ap, ◌∙◌, List, [], ◌∷◌, ◌++◌, arith, length,
  length-append, length-drop, drop,
}

-- The last `n` entries.
abbrev pub newest {ℓ} : {A : Type ℓ} → ℕ → List A → List A
newest n xs = drop (length xs - n) xs

pub newest_short {ℓ} : {A : Type ℓ} (n : ℕ) (xs : List A) → length xs ≤ n → newest n xs ≡ xs
newest_short n xs h = let none_off : length xs - n ≡ 0 = omega arith in ap (λ k. drop k xs) none_off

pub newest_full {ℓ} :
    {A : Type ℓ} (n : ℕ) (x : A) (xs : List A) (y : A)
    → length (x ∷ xs) ≡ n
    → newest n ((x ∷ xs) ++ y ∷ []) ≡ xs ++ y ∷ []
newest_full n x xs y h =
    let one_off : length (x ∷ xs ++ y ∷ []) - n ≡ 1 = omega (arith, h, length-append xs (y ∷ [])) in
    ap (λ k. drop k (x ∷ xs ++ y ∷ [])) one_off

drop-append {ℓ} :
    {A : Type ℓ} (k : ℕ) (xs ys : List A) → k ≤ length xs → drop k (xs ++ ys) ≡ drop k xs ++ ys
drop-append zero xs ys h = refl
drop-append (suc k) [] ys h = absurd (omega (arith, h))
drop-append (suc k) (x ∷ xs) ys h = drop-append k xs ys (omega (arith, h))

drop_nil {ℓ} : {A : Type ℓ} (k : ℕ) → drop {A = A} k [] ≡ []
drop_nil zero = refl
drop_nil (suc k) = refl

drop-drop {ℓ} : {A : Type ℓ} (j k : ℕ) (xs : List A) → drop j (drop k xs) ≡ drop (k + j) xs
drop-drop j zero xs = let same : j ≡ 0 + j = omega arith in ap (λ n. drop n xs) same
drop-drop j (suc k) [] = drop_nil j ∙ sym (drop_nil (suc k + j))
drop-drop j (suc k) (x ∷ xs) =
    let same : suc (k + j) ≡ suc k + j = omega arith in
    drop-drop j k xs ∙ ap (λ n. drop n (x ∷ xs)) same

pub length-newest {ℓ} : {A : Type ℓ} (n : ℕ) (xs : List A) → length (newest n xs) ≤ n
length-newest n xs = omega (arith, length-drop (length xs - n) xs)

pub newest-append {ℓ} :
    {A : Type ℓ} (n : ℕ) (xs ys : List A) → newest n (newest n xs ++ ys) ≡ newest n (xs ++ ys)
newest-append n xs ys =
    let k = length xs - n in
    let j = length (drop k xs ++ ys) - n in
    let total : k + j ≡ length (xs ++ ys) - n =
      omega (arith, length-append xs ys, length-append (drop k xs) ys, length-drop k xs) in
    ap (drop j) (sym (drop-append k xs ys (omega arith)))
    ∙ drop-drop j k (xs ++ ys)
    ∙ ap (λ m. drop m (xs ++ ys)) total
