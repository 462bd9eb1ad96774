-- ===== src/Sms/Listing/Laws.antt =====
-- The indexes of a list of unread messages are read in their order.
use tibbit.Common.{
  ℕ, zero, suc, ◌+◌, ◌-◌, ◌≤◌, ◌<◌, ◌≡◌, refl, ◌∙◌, ap, ◌≢◌, true, false, some, List, [], ◌∷◌, ◌++◌,
  ◌==◌, if◌then◌else◌, length, take, Bytes, codes, arith, eq_bytes, if_elim, take-append_long,
  length-append,
}
use tibbit.Sms.Fields.{extract_first_u16}
use tibbit.Sms.Fields.Numbers.{EndsNumber, extract_first_u16-print, length-print, print-Digits}
use tibbit.Sms.Fields.{print}
use tibbit.Sms.Validation.Laws.{Digits}
use tibbit.Sms.Listing.{strstr, line_of, cmgl_loop, cmgl_token, parse_cmgl_unread_indexes}

-- An entry: the index, the rest of its line, and the text on the lines that follow.
pub record Entry : Type 0 where
  pub index : ℕ
  pub tail : Bytes
  pub body : Bytes

abbrev pub Lacks : ℕ → Bytes → Type 0
Lacks ch [] = Unit
Lacks ch (c ∷ rest) = (c ≢ ch) × Lacks ch rest

abbrev pub IsEntry : Entry → Type 0
IsEntry e = (e.index ≤ 65535) × EndsNumber e.tail × Lacks b'\n' e.tail × Lacks b'+' e.body

abbrev pub AreEntries : List Entry → Type 0
AreEntries [] = Unit
AreEntries (e ∷ es) = IsEntry e × AreEntries es

abbrev pub header : Entry → Bytes
header e = codes "+CMGL: " ++ (print 5 e.index ++ e.tail)

abbrev pub listing : List Entry → Bytes
listing [] = []
listing (e ∷ es) = header e ++ b'\n' ∷ (e.body ++ listing es)

abbrev pub indexes : List Entry → List ℕ
indexes [] = []
indexes (e ∷ es) = e.index ∷ indexes es

-- What has no plus sign holds no start of an entry.
strstr-skip :
    (before rest : Bytes)
    → Lacks b'+' before
    → strstr cmgl_token (before ++ rest) ≡ strstr cmgl_token rest
unfolding strstr
strstr-skip [] rest h = refl
strstr-skip (ch ∷ before) rest h =
    if_elim (λ x. x ≡ strstr cmgl_token rest) (eq_bytes (take 6 (ch ∷ (before ++ rest))) cmgl_token)
      (λ same. absurd (h.0 (ground (arith, same)))) (λ _. strstr-skip before rest h.1)

Lacks-append : (ch : ℕ) (xs ys : Bytes) → Lacks ch xs → Lacks ch ys → Lacks ch (xs ++ ys)
Lacks-append ch [] ys hx hy = hy
Lacks-append ch (x ∷ xs) ys hx hy = (hx.0, Lacks-append ch xs ys hx.1 hy)

Digits-Lacks : (ds : Bytes) → Digits ds → Lacks b'\n' ds
Digits-Lacks [] h = tt
Digits-Lacks (d ∷ ds) h = (λ e. ground (arith, e, h.0), Digits-Lacks ds h.2)

line_of-line :
    (line rest : Bytes) → Lacks b'\n' line → line_of (line ++ b'\n' ∷ rest) ≡ (line, b'\n' ∷ rest)
unfolding line_of
line_of-line [] rest h = refl
line_of-line (ch ∷ line) rest h = ground (arith, h.0, line_of-line line rest h.1)

take-EndsNumber : (n : ℕ) (s : Bytes) → EndsNumber s → EndsNumber (take n s)
take-EndsNumber zero s h = tt
take-EndsNumber (suc n) [] h = tt
take-EndsNumber (suc n) (ch ∷ s) h = h

header_read : (e : Entry) → IsEntry e → extract_first_u16 (take 95 (header e)) ≡ some e.index
header_read e h =
    let ds = print 5 e.index in
    ap (λ s. extract_first_u16 (codes "+CMGL: " ++ s))
      (take-append_long 88 ds e.tail (omega (arith, length-print 5 e.index)))
    ∙ extract_first_u16-print (codes "+CMGL: ") (take (88 - length ds) e.tail) e.index
        (ground arith) (take-EndsNumber (88 - length ds) e.tail h.1) h.0

header_line : (e : Entry) → IsEntry e → Lacks b'\n' (header e)
header_line e h = Lacks-append b'\n' (codes "+CMGL: ") (print 5 e.index ++ e.tail) (ground arith) (
    Lacks-append b'\n' (print 5 e.index) e.tail
      (Digits-Lacks (print 5 e.index) (print-Digits 5 e.index)) h.2)

cmgl_loop-step :
    (n room index : ℕ) (p q line rest : Bytes)
    → strstr cmgl_token p ≡ some q
    → line_of q ≡ (line, rest)
    → extract_first_u16 (take 95 line) ≡ some index
    → cmgl_loop (suc n) room p
      ≡ (if room == 1 then index ∷ [] else index ∷ cmgl_loop n (room - 1) rest)
unfolding cmgl_loop
cmgl_loop-step n room index p q line rest e₁ e₂ e₃ =
    rw (cmgl_loop, e₁, ap (λ r. r.0) e₂, e₃, ap (λ r. r.1) e₂) refl

zero_of : (room : ℕ) → (suc room == 1) ≡ true → 0 ≡ room
zero_of room one = ground (arith, one)

newline : ◌≢◌ {A = ℕ} 10 43
newline e = omega (arith, e)

-- The array has room for more.
room_left :
    (n room : ℕ) (p : Bytes) (found : List ℕ)
    → (suc room == 1) ≡ false
    → ((r : ℕ) → cmgl_loop n (suc r) p ≡ take (suc r) found)
    → cmgl_loop n (suc room - 1) p ≡ take room found
room_left n zero p found more read = cc more
room_left n (suc r) p found more read =
    let same : suc (suc r) - 1 ≡ suc r = omega arith in ap (λ m. cmgl_loop n m p) same ∙ read r

length-listing :
    (e : Entry) (es : List Entry)
    → length e.body + length (listing es) + 8 ≤ length (listing (e ∷ es))
length-listing e es =
    let head = codes "+CMGL: " in
    let ds = print 5 e.index in
    let rest = b'\n' ∷ (e.body ++ listing es) in
    let whole : length (header e ++ rest) ≡ length (header e) + length rest =
      length-append (header e) rest in
    let heads : length (header e) ≡ 7 + length (ds ++ e.tail) = length-append head (ds ++ e.tail) in
    omega (arith, whole, heads, length-append e.body (listing es))

listing_read :
    (n room : ℕ) (before : Bytes) (es : List Entry)
    → length before + length (listing es) < n
    → Lacks b'+' before
    → AreEntries es
    → cmgl_loop n (suc room) (before ++ listing es) ≡ take (suc room) (indexes es)
unfolding cmgl_loop
listing_read zero room before es le hb h = absurd (omega (arith, le))
listing_read (suc n) room before [] le hb h = rw (cmgl_loop, strstr-skip before [] hb, strstr) refl
listing_read (suc n) room before (e ∷ es) le hb h =
    let rest = b'\n' ∷ (e.body ++ listing es) in
    let step =
      cmgl_loop-step n (suc room) e.index (before ++ listing (e ∷ es)) (listing (e ∷ es)) (header e)
        rest (strstr-skip before (listing (e ∷ es)) hb ∙ refl)
        (line_of-line (header e) (e.body ++ listing es) (header_line e h.0)) (header_read e h.0) in
    step
    ∙ if_elim (λ x. x ≡ take (suc room) (indexes (e ∷ es))) (suc room == 1)
        (λ one. ap (λ m. e.index ∷ take m (indexes es)) (zero_of room one))
        (λ more. ap (e.index ∷◌) (
          room_left n room rest (indexes es) more (λ r.
            listing_read n r (b'\n' ∷ e.body) es (omega (arith, le, length-listing e es))
              (newline, h.0.3) h.1)))

-- For every list of entries with indexes up to 65535, printed in decimal, where the line of an
-- entry holds no newline and no digit right behind the index, and its text no plus sign, and for
-- every size of the array but 0: the indexes are read in their order, as many as the array holds.
pub parse_cmgl_unread_indexes-listing :
    (es : List Entry) (max : ℕ)
    → AreEntries es
    → 0 < max
    → parse_cmgl_unread_indexes (some (listing es)) max ≡ take max (indexes es)
unfolding parse_cmgl_unread_indexes
parse_cmgl_unread_indexes-listing es zero h some_room = absurd (omega (arith, some_room))
parse_cmgl_unread_indexes-listing es (suc room) h some_room =
    if_elim (λ x. x ≡ take (suc room) (indexes es)) (suc room == 0)
      (λ empty. absurd (ground (arith, empty)))
      (λ _. listing_read (length (listing es) + 1) room [] es (omega arith) tt h)
