-- ===== src/Sms/Fields/Laws.antt =====
-- What is read out of a line: quoted fields, and the first number.
use native.Mathlib.Nat.{mod-eq_of_lt}
use tibbit.Common.{
  ℕ, zero, suc, ◌+◌, ◌-◌, ◌%◌, ◌≤◌, ◌<◌, ◌≡◌, refl, ◌∙◌, ap, ◌≢◌, not, Option, none, some, List, [],
  ◌∷◌, ◌++◌, ◌==◌, if◌then◌else◌, length, Bytes, arith, get_elem?, take, length-append, if_elim,
}
use tibbit.Sms.Fields.{strchr, quoted_loop, extract_quoted_field}

abbrev pub NoQuote : Bytes → Type 0
NoQuote [] = Unit
NoQuote (ch ∷ rest) = (ch ≢ b'"') × NoQuote rest

-- A field with what stands before its opening quote.
abbrev pub NoQuotes : List (Bytes × Bytes) → Type 0
NoQuotes [] = Unit
NoQuotes (f ∷ fs) = NoQuote f.0 × NoQuote f.1 × NoQuotes fs

-- A line of quoted fields, each after its separator, with an ending.
abbrev pub quoted_line : List (Bytes × Bytes) → Bytes → Bytes
quoted_line [] ending = ending
quoted_line ((before, field) ∷ fs) ending = before ++ b'"' ∷ (field ++ b'"' ∷ quoted_line fs ending)

abbrev pub field_of : ℕ → ℕ → List (Bytes × Bytes) → Option Bytes
field_of size k fs = elim (get_elem? fs k) [ none ↦ none | some f ↦ some (take (size - 1) f.1) ]

strchr-quote :
    (field rest : Bytes) → NoQuote field → strchr b'"' (field ++ b'"' ∷ rest) ≡ some (field, rest)
unfolding strchr
strchr-quote [] rest h = refl
strchr-quote (ch ∷ field) rest h = ground (arith, h.0, strchr-quote field rest h.1)

-- Bytes before a quote are skipped.
quoted_loop-skip :
    (n size wanted idx : ℕ) (before rest : Bytes)
    → NoQuote before
    → quoted_loop (length before + n) size wanted idx (before ++ rest)
      ≡ quoted_loop n size wanted idx rest
unfolding quoted_loop
quoted_loop-skip n size wanted idx [] rest h =
    ap (λ m. quoted_loop m size wanted idx rest) (omega arith)
quoted_loop-skip n size wanted idx (ch ∷ before) rest h =
    let fuel : length (ch ∷ before) + n ≡ suc (length before + n) = omega arith in
    ap (λ m. quoted_loop m size wanted idx (ch ∷ (before ++ rest))) fuel
    ∙ one (length before + n) (quoted_loop-skip n size wanted idx before rest h.1)
  where
    one :
        (m : ℕ)
        → quoted_loop m size wanted idx (before ++ rest) ≡ quoted_loop n size wanted idx rest
        → quoted_loop (suc m) size wanted idx (ch ∷ (before ++ rest))
          ≡ quoted_loop n size wanted idx rest
    one m e =
        if_elim (λ x. x ≡ quoted_loop n size wanted idx rest) (not (ch == b'"')) (λ _. e)
          (λ quote. absurd (h.0 (ground (arith, quote))))

ending_none :
    (n size wanted idx : ℕ) (ending : Bytes)
    → NoQuote ending
    → quoted_loop n size wanted idx ending ≡ none
unfolding quoted_loop
ending_none zero size wanted idx ending h = refl
ending_none (suc n) size wanted idx [] h = refl
ending_none (suc n) size wanted idx (ch ∷ ending) h =
    if_elim (λ x. x ≡ none) (not (ch == b'"')) (λ _. ending_none n size wanted idx ending h.1)
      (λ quote. absurd (h.0 (ground (arith, quote))))

-- The loop at a field that is quoted as it should be.
quoted_loop-field :
    (n size wanted idx : ℕ) (before field rest : Bytes)
    → NoQuote before
    → NoQuote field
    → length (before ++ b'"' ∷ (field ++ b'"' ∷ rest)) ≤ n
    → (m : ℕ) × (length rest ≤ m)
      × (quoted_loop n size wanted idx (before ++ b'"' ∷ (field ++ b'"' ∷ rest)) ≡ (
          if idx == wanted
          then some (take (size - 1) field)
          else quoted_loop m size wanted ((idx + 1) % 256) rest))
unfolding quoted_loop
quoted_loop-field n size wanted idx before field rest hb hf le =
    let m = n - length before - 1 in
    let total = length-append before (b'"' ∷ (field ++ b'"' ∷ rest)) in
    let inner = length-append field (b'"' ∷ rest) in
    let fuel : n ≡ length before + suc m = omega (arith, le, total, inner) in
    (
      m,
      omega (arith, le, total, inner),
      ap (λ x. quoted_loop x size wanted idx (before ++ b'"' ∷ (field ++ b'"' ∷ rest))) fuel
          ∙ quoted_loop-skip (suc m) size wanted idx before (b'"' ∷ (field ++ b'"' ∷ rest)) hb
          ∙ rw (strchr-quote field rest hf) refl,
    )

line_found :
    (n size wanted idx k : ℕ) (fs : List (Bytes × Bytes)) (ending : Bytes)
    → length (quoted_line fs ending) ≤ n
    → NoQuotes fs
    → NoQuote ending
    → idx + k ≡ wanted
    → wanted < 256
    → quoted_loop n size wanted idx (quoted_line fs ending) ≡ field_of size k fs
line_found n size wanted idx k [] ending le h e at small = ending_none n size wanted idx ending e
line_found n size wanted idx zero ((before, field) ∷ fs) ending le h e at small =
    let (m, _, step) =
      quoted_loop-field n size wanted idx before field (quoted_line fs ending) h.0 h.1 le in
    step ∙ ground (arith, at)
line_found n size wanted idx (suc k) ((before, field) ∷ fs) ending le h e at small =
    let (m, le', step) =
      quoted_loop-field n size wanted idx before field (quoted_line fs ending) h.0 h.1 le in
    let next : (idx + 1) % 256 ≡ idx + 1 =
      mod-eq_of_lt {n = idx + 1} {m = 256} (omega (arith, at, small)) in
    let rest = line_found m size wanted (idx + 1) k fs ending le' h.2 e (omega (arith, at)) small in
    step
    ∙ if_elim (λ x. x ≡ field_of size k fs) (idx == wanted) (λ same. ground (arith, same, at))
        (λ _. rw next rest)

-- For every line of quoted fields with other text before, between and behind them, none of which
-- holds a quote, and every index below 256 and buffer: the field with that index is read, cut to
-- the buffer without its last byte; and nothing is read if there is no such field.
pub extract_quoted_field_line :
    (fs : List (Bytes × Bytes)) (ending : Bytes) (k size : ℕ)
    → NoQuotes fs
    → NoQuote ending
    → k < 256
    → 0 < size
    → extract_quoted_field (quoted_line fs ending) k size ≡ field_of size k fs
unfolding extract_quoted_field
extract_quoted_field_line fs ending k size h e small room =
    if_elim (λ x. x ≡ field_of size k fs) (size == 0) (λ empty. ground (arith, empty, room))
      (λ _.
        line_found (length (quoted_line fs ending)) size k 0 k fs ending (omega arith) h e
          (omega arith) small)
