-- ===== src/Sms/Fields/Numbers.antt =====
-- The first number of a line is read back as it was printed.
use tibbit.Common.{
  ℕ, zero, suc, ◌+◌, ◌-◌, ◌*◌, ◌/◌, ◌%◌, ◌≤◌, ◌<◌, ◌≡◌, refl, ◌∙◌, ap, ◌⊎◌, not, some, [], ◌∷◌,
  ◌++◌, ltb, length, Bytes, arith, length-append, if_elim,
}
use tibbit.Sms.Validation.{is_digit}
use tibbit.Sms.Validation.Laws.{Digits}
use tibbit.Sms.Fields.{print, decimal, parse_u16, leading_digits, extract_first_u16}

abbrev power_of_ten : ℕ → ℕ
power_of_ten zero = 1
power_of_ten (suc width) = 10 * power_of_ten width

abbrev pub NoDigits : Bytes → Type 0
NoDigits [] = Unit
NoDigits (ch ∷ rest) = ((ch < b'0') ⊎ (b'9' < ch)) × NoDigits rest

-- Nothing, or a byte that is no digit and anything behind it.
abbrev pub EndsNumber : Bytes → Type 0
EndsNumber [] = Unit
EndsNumber (ch ∷ rest) = (ch < b'0') ⊎ (b'9' < ch)

decimal-append :
    (acc d : ℕ) (xs : Bytes) → decimal acc (xs ++ d ∷ []) ≡ decimal acc xs * 10 + (d - b'0')
unfolding decimal
decimal-append acc d [] = refl
decimal-append acc d (x ∷ xs) = decimal-append (acc * 10 + (x - b'0')) d xs

decimal-print : (width n : ℕ) → n < power_of_ten width → decimal 0 (print width n) ≡ n
unfolding decimal
decimal-print zero n h = omega (arith, h)
decimal-print (suc width) n h =
    if_elim (λ s. decimal 0 s ≡ n) (ltb n 10) (λ _. omega arith)
      (λ big.
        decimal-append 0 (b'0' + n % 10) (print width (n / 10))
        ∙ rw (decimal-print width (n / 10) (omega (arith, h))) (omega arith))

Digits-append : (xs : Bytes) (d : ℕ) → Digits xs → 48 ≤ d → d ≤ 57 → Digits (xs ++ d ∷ [])
Digits-append [] d h lo hi = (lo, hi, tt)
Digits-append (x ∷ xs) d h lo hi = (h.0, h.1, Digits-append xs d h.2 lo hi)

pub print-Digits : (width n : ℕ) → Digits (print width n)
print-Digits zero n = tt
print-Digits (suc width) n =
    if_elim Digits (ltb n 10) (λ small. ground (arith, small))
      (λ _.
        Digits-append (print width (n / 10)) (b'0' + n % 10) (print-Digits width (n / 10))
          (omega arith) (omega arith))

pub length-print : (width n : ℕ) → length (print width n) ≤ width
length-print zero n = omega arith
length-print (suc width) n =
    if_elim (λ s. length s ≤ suc width) (ltb n 10) (λ _. omega arith)
      (λ _. omega (
        arith,
        length-append (print width (n / 10)) ((b'0' + n % 10) ∷ []),
        length-print width (n / 10),
      ))

print_nonempty : (width n : ℕ) → 0 < length (print (suc width) n)
print_nonempty width n =
    if_elim (λ s. 0 < length s) (ltb n 10) (λ _. omega arith)
      (λ _. omega (arith, length-append (print width (n / 10)) ((b'0' + n % 10) ∷ [])))

leading_digits-stop :
    (room : ℕ) (ds after : Bytes)
    → Digits ds
    → length ds ≤ room
    → EndsNumber after
    → leading_digits room (ds ++ after) ≡ ds
unfolding leading_digits is_digit
leading_digits-stop zero [] after h le e = refl
leading_digits-stop zero (d ∷ ds) after h le e = absurd (omega (arith, le))
leading_digits-stop (suc room) [] [] h le e = refl
leading_digits-stop (suc room) [] (ch ∷ after) h le e = ground (arith, e)
leading_digits-stop (suc room) (d ∷ ds) after h le e =
    ground (arith, h.0, h.1, leading_digits-stop room ds after h.2 (omega (arith, le)) e)

number_read :
    (before ds after : Bytes)
    → NoDigits before
    → Digits ds
    → 0 < length ds
    → length ds ≤ 5
    → EndsNumber after
    → extract_first_u16 (before ++ (ds ++ after)) ≡ parse_u16 ds
unfolding extract_first_u16 is_digit
number_read [] [] after nb h pos le e = absurd (omega (arith, pos))
number_read [] (d ∷ ds) after nb h pos le e =
    if_elim (λ x. x ≡ parse_u16 (d ∷ ds)) (not (is_digit d)) (λ other. ground (arith, other, h))
      (λ _. ap parse_u16 (leading_digits-stop 5 (d ∷ ds) after h le e))
number_read (ch ∷ before) ds after nb h pos le e =
    ground (arith, nb.0, number_read before ds after nb.1 h pos le e)

parse_u16_read :
    (n : ℕ) (ds : Bytes) → 0 < length ds → decimal 0 ds ≡ n → n ≤ 65535 → parse_u16 ds ≡ some n
unfolding parse_u16
parse_u16_read n ds some_digit value small = rw value (ground (arith, some_digit, small))

-- For every number up to 65535 in a line, printed in decimal, with no digit before it and none
-- right behind it: it is the number that is read.
pub extract_first_u16-print :
    (before after : Bytes) (n : ℕ)
    → NoDigits before
    → EndsNumber after
    → n ≤ 65535
    → extract_first_u16 (before ++ (print 5 n ++ after)) ≡ some n
extract_first_u16-print before after n nb e small =
    number_read before (print 5 n) after nb (print-Digits 5 n) (print_nonempty 4 n)
      (length-print 5 n) e
    ∙ parse_u16_read n (print 5 n) (print_nonempty 4 n) (decimal-print 5 n (omega (arith, small)))
        small
