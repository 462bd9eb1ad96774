-- ===== src/Sms/Validation/Laws.antt =====
-- What the checks of a phone number and of a text accept, and which identifiers are given out.
use native.Mathlib.Nat.{mod-lt}
use tibbit.Common.{
  ℕ, zero, suc, ◌+◌, ◌-◌, ◌%◌, ◌^◌, ◌≤◌, ◌<◌, ◌≡◌, refl, ◌∙◌, ap, ◌≢◌, ◌↔◌, ◌⊎◌, inl, inr, Bool,
  true, ◌||◌, some, [], ◌∷◌, ltb, ◌==◌, if◌then◌else◌, length, Bytes, arith, get_elem?, if_elim,
}
use tibbit.Sms.Validation.{
  is_digit, all_digits, phone_is_valid, all_printable, text_is_valid, next_request_id, request_ids,
}

-- The bytes from `0` to `9`.
abbrev pub Digits : Bytes → Type 0
Digits [] = Unit
Digits (ch ∷ rest) = (48 ≤ ch) × (ch ≤ 57) × Digits rest

-- Three digits at least, after a plus sign or not, and `max` bytes in all at most.
abbrev pub PhoneNumber : ℕ → Bytes → Type 0
PhoneNumber max [] = ⊥
PhoneNumber max (ch ∷ rest) =
    (length (ch ∷ rest) ≤ max)
    × (((ch ≡ 43) × (3 ≤ length rest) × Digits rest)
        ⊎ ((3 ≤ length (ch ∷ rest)) × Digits (ch ∷ rest)))

-- No control character: from the blank on, without DEL.
abbrev pub Printable : Bytes → Type 0
Printable [] = Unit
Printable (ch ∷ rest) = (32 ≤ ch) × (ch ≢ 127) × Printable rest

all_digits_iff : (s : Bytes) → (all_digits s ≡ true) ↔ Digits s
unfolding all_digits
all_digits_iff [] = (λ _. tt, λ _. refl)
all_digits_iff (ch ∷ rest) =
    let (to, from) = all_digits_iff rest in
    (λ h. ground (arith, is_digit, h, to), λ h. ground (arith, is_digit, h.0, h.1, from h.2))

-- For every limit and string: a phone number is accepted exactly if it has at most that many
-- bytes, and is three or more digits, or a plus sign with three or more digits behind it.
pub phone_is_valid_iff :
    (max : ℕ) (phone : Bytes) → (phone_is_valid max (some phone) ≡ true) ↔ PhoneNumber max phone
unfolding phone_is_valid
phone_is_valid_iff max [] = (λ h. cc h, λ h. absurd h)
phone_is_valid_iff max (ch ∷ rest) =
    let (to, from) = all_digits_iff rest in
    let (to', from') = all_digits_iff (ch ∷ rest) in
    let len = length (ch ∷ rest) in
    let P : Bool → Type 0 = λ b. b ≡ true → PhoneNumber max (ch ∷ rest) in
    (
      if_elim P (ltb len 3 || ltb max len) (λ _ h. cc h)
          (λ len_ok.
            if_elim P (ch == 43)
              (λ plus.
                if_elim P (ltb len 4) (λ _ h. cc h)
                  (λ four h. (
                    ground (arith, len_ok),
                    inl (ground (arith, plus), ground (arith, four), to h),
                  )))
              (λ _ h. (ground (arith, len_ok), inr (ground (arith, len_ok), to' h)))),
      λ h.
          if_elim (λ b. b ≡ true) (ltb len 3 || ltb max len) (λ bad. ground (arith, bad, h))
            (λ _.
              if_elim (λ b. b ≡ true) (ch == 43)
                (λ plus.
                  if_elim (λ b. b ≡ true) (ltb len 4) (λ short. ground (arith, short, plus, h))
                    (λ _. elim h.1 [ inl d ↦ from d.2 | inr d ↦ ground (arith, plus, d) ]))
                (λ no_plus. elim h.1 [ inl d ↦ ground (arith, no_plus, d) | inr d ↦ from' d.1 ])),
    )

all_printable_iff : (s : Bytes) → (all_printable s ≡ true) ↔ Printable s
unfolding all_printable
all_printable_iff [] = (λ _. tt, λ _. refl)
all_printable_iff (ch ∷ rest) =
    let (to, from) = all_printable_iff rest in
    (λ h. ground (arith, h, to), λ h. ground (arith, h.0, h.1, from h.2))

-- For every limit and string: a text is accepted, with its length, exactly if it has between one
-- byte and that many, none of them a control character.
pub text_is_valid_iff :
    (max : ℕ) (text : Bytes)
    → (text_is_valid max (some text) ≡ some (length text))
      ↔ ((0 < length text) × (length text ≤ max) × Printable text)
unfolding text_is_valid
text_is_valid_iff max text =
    let (to, from) = all_printable_iff text in
    (λ h. ground (arith, h, to), λ h. ground (arith, h.0, h.1, from h.2))

abbrev first_id : ℕ → ℕ
first_id seed = if seed == 0 then 1 else seed

next_request_id_eq :
    (seed : ℕ) → next_request_id seed ≡ (first_id seed, (first_id seed + 1) % 2 ^ 32)
unfolding next_request_id tibbit.Sms.Validation.atomic_inc
next_request_id_eq seed = ground arith

first_id_eq :
    (seed : ℕ)
    → seed < 2 ^ 32
    → first_id seed ≡ 1 + ((if seed == 0 then 0 else seed - 1) + 0) % (2 ^ 32 - 1)
first_id_eq seed small = ground arith

one_further :
    (seed k : ℕ)
    → seed < 2 ^ 32
    → let seed' = (first_id seed + 1) % 2 ^ 32 in
      ((if seed' == 0 then 0 else seed' - 1) + k) % (2 ^ 32 - 1)
      ≡ ((if seed == 0 then 0 else seed - 1) + suc k) % (2 ^ 32 - 1)
one_further seed k small = ground arith

-- From any seed of 32 bits, the identifiers of requests in a row run through 1 to 2 ^ 32 - 1 in a
-- circle that begins at the seed, or at 1 for the seed 0.
pub request_ids_nth :
    (n k seed : ℕ)
    → k < n
    → seed < 2 ^ 32
    → get_elem? (request_ids n seed) k
      ≡ some (1 + ((if seed == 0 then 0 else seed - 1) + k) % (2 ^ 32 - 1))
unfolding request_ids
request_ids_nth zero k seed h small = absurd (omega (arith, h))
request_ids_nth (suc n) zero seed h small =
    rw (next_request_id_eq seed) (ap some (first_id_eq seed small))
request_ids_nth (suc n) (suc k) seed h small =
    let seed' = (first_id seed + 1) % 2 ^ 32 in
    rw (next_request_id_eq seed) (
      request_ids_nth n k seed' (omega (arith, h)) (mod-lt (first_id seed + 1) (omega arith))
      ∙ ap (λ i. some (1 + i)) (one_further seed k small))
