-- ===== src/AtHelper/Capture/Laws.antt =====
-- What is captured is the beginning of the answer.
use mathlib.Core.List.{append_assoc, append-nil}
use tibbit.Common.{
  ℕ, zero, suc, ◌-◌, ◌≤◌, ◌≡◌, refl, sym, ap, ◌∙◌, true, some, List, [], ◌∷◌, ◌++◌, leb, ltb, ◌==◌,
  if◌then◌else◌, length, take, Bytes, arith, if_elim, take-append_long, length-take,
}
use tibbit.AtHelper.Capture.{Capture, crlf, capture_reset, copy, capture_append, capture_lines}

abbrev pub joined : List Bytes → Bytes
joined [] = []
joined (line ∷ lines) = line ++ (crlf ++ joined lines)

take_all : (n : ℕ) (xs : Bytes) → length xs ≤ n → take n xs ≡ xs
take_all zero [] h = refl
take_all zero (x ∷ xs) h = absurd (omega (arith, h))
take_all (suc n) [] h = refl
take_all (suc n) (x ∷ xs) h = ap (x ∷◌) (take_all n xs (omega (arith, h)))

take-take_append : (n : ℕ) (xs ys : Bytes) → take n (take n xs ++ ys) ≡ take n (xs ++ ys)
take-take_append zero xs ys = refl
take-take_append (suc n) [] ys = refl
take-take_append (suc n) (x ∷ xs) ys = ap (x ∷◌) (take-take_append n xs ys)

-- A full buffer takes nothing more.
stays :
    (room : ℕ) (out bytes : Bytes)
    → length out ≤ room
    → room - length out ≡ 0
    → out ≡ take room (out ++ bytes)
stays room out bytes h full =
    sym (append-nil out)
    ∙ ap (λ k. out ++ take k bytes) (sym full)
    ∙ sym (take-append_long room out bytes h)

copy-take :
    (room : ℕ) (out bytes : Bytes)
    → length out ≤ room
    → copy room out bytes ≡ take room (out ++ bytes)
unfolding copy
copy-take room out bytes h =
    let whole = take-append_long room out bytes h in
    let remaining = room - length out in
    if_elim (λ x. x ≡ take room (out ++ bytes)) (remaining == 0)
      (λ full. stays room out bytes h (ground (arith, full)))
      (λ _. ap (λ s. out ++ s) (fits remaining bytes) ∙ sym whole)
  where
    fits :
        (k : ℕ) (bytes : Bytes)
        → take (if ltb (length bytes) k then length bytes else k) bytes ≡ take k bytes
    fits k bytes =
        if_elim (λ n. take n bytes ≡ take k bytes) (ltb (length bytes) k)
          (λ short.
            take_all (length bytes) bytes (omega arith)
            ∙ sym (take_all k bytes (ground (arith, short))))
          (λ _. refl)

capture_append-take :
    (line whole : Bytes) (size : ℕ)
    → capture_append line (record { out = some (take (size - 1) whole); size = size })
      ≡ record { out = some (take (size - 1) (whole ++ (line ++ crlf))); size = size }
unfolding capture_append
capture_append-take line whole size =
    let m = size - 1 in
    let out = take m whole in
    let P : Capture → Type 0 =
      λ c. c ≡ record { out = some (take m (whole ++ (line ++ crlf))); size = size } in
    let small : length out ≤ m = omega (arith, length-take m whole) in
    let unchanged : m - length out ≡ 0 → P (record { out = some out; size = size }) = λ full.
      ap (λ o. record { out = some o; size = size })
        (stays m out (line ++ crlf) small full ∙ take-take_append m whole (line ++ crlf)) in
    if_elim P (leb size 1) (λ one. unchanged (ground (arith, one)))
      (λ _.
        if_elim P (m - length out == 0) (λ full. unchanged (ground (arith, full)))
          (λ _.
            ap (λ o. record { out = some o; size = size })
              (ap (λ o. copy m o crlf) (copy-take m out line small ∙ take-take_append m whole line)
                ∙ copy-take m (take m (whole ++ line)) crlf
                    (omega (arith, length-take m (whole ++ line)))
                ∙ take-take_append m (whole ++ line) crlf
                ∙ ap (take m) (append_assoc whole line crlf))))

lines_follow :
    (lines : List Bytes) (whole : Bytes) (size : ℕ)
    → capture_lines lines (record { out = some (take (size - 1) whole); size = size })
      ≡ record { out = some (take (size - 1) (whole ++ joined lines)); size = size }
unfolding capture_lines
lines_follow [] whole size =
    ap (λ o. record { out = some (take (size - 1) o); size = size }) (sym (append-nil whole))
lines_follow (line ∷ lines) whole size =
    ap (capture_lines lines) (capture_append-take line whole size)
    ∙ lines_follow lines (whole ++ (line ++ crlf)) size
    ∙ ap (λ o. record { out = some (take (size - 1) o); size = size })
        (append_assoc whole (line ++ crlf) (joined lines)
          ∙ ap (λ o. whole ++ o) (append_assoc line crlf (joined lines)))

-- For every size and lines: what is captured is the lines, each with a carriage return and a newline,
-- cut to the buffer without its last byte.
pub capture_lines-take :
    (size : ℕ) (lines : List Bytes)
    → (capture_lines lines (capture_reset true size)).out ≡ some (take (size - 1) (joined lines))
unfolding capture_lines capture_reset
capture_lines-take size lines =
    ap (λ c. (capture_lines lines c).out)
      (ap (λ o. record { out = some o; size = size }) (nothing (size - 1)))
    ∙ ap (λ c. c.out) (lines_follow lines [] size)
  where
    nothing : (n : ℕ) → ◌≡◌ {A = Bytes} [] (take n [])
    nothing zero = refl
    nothing (suc n) = refl
