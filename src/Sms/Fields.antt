-- ===== src/Sms/Fields.antt =====
-- tb45_sms.c: reading fields out of the answers of the modem. A pointer into a string is the rest of
-- the string from there; a result in a buffer is what the buffer holds before its NUL.
pub mod Laws
pub mod Numbers
mod Tests
use tibbit.Common.{
  ℕ, zero, suc, ◌+◌, ◌-◌, ◌*◌, ◌/◌, ◌%◌, ◌++◌, ◌^◌, Bool, true, false, not, ◌||◌, ◌&&◌, Option,
  none, some, List, [], ◌∷◌, leb, ltb, ◌==◌, if◌then◌else◌, length, take, drop, Bytes, codes,
  eq_bytes,
}
use tibbit.Sms.Validation.{is_digit}

-- `%u` of `snprintf`, for a number below 10 ^ width.
abbrev pub print : ℕ → ℕ → Bytes
print zero n = []
print (suc width) n =
    if ltb n 10 then (b'0' + n) ∷ [] else print width (n / 10) ++ (b'0' + n % 10) ∷ []

-- `strtoul` to the base 10 on digits alone.
unfoldable pub decimal : ℕ → Bytes → ℕ
decimal acc [] = acc
decimal acc (ch ∷ rest) = decimal (acc * 10 + (ch - b'0')) rest

-- Its one caller passes one to five digits, which `strtoul` reads to their end.
unfoldable pub parse_u16 : Bytes → Option ℕ
unfolding decimal
parse_u16 digits =
    let parsed = decimal 0 digits in
    if length digits == 0 || ltb 0xFFFF parsed then none else some parsed

-- The inner loop of `extract_first_u16`, which fills `digits` with `room` bytes at most.
unfoldable pub leading_digits : ℕ → Bytes → Bytes
unfolding is_digit
leading_digits zero s = []
leading_digits (suc room) [] = []
leading_digits (suc room) (ch ∷ rest) =
    let more = leading_digits room rest in if is_digit ch then ch ∷ more else []

unfoldable pub extract_first_u16 : Bytes → Option ℕ
unfolding parse_u16 leading_digits
extract_first_u16 [] = none
extract_first_u16 (ch ∷ rest) =
    let later = extract_first_u16 rest in
    if not (is_digit ch) then later else parse_u16 (leading_digits 5 (ch ∷ rest))

-- `strchr`: what stands before the byte, and what follows it.
unfoldable pub strchr : ℕ → Bytes → Option (Bytes × Bytes)
strchr wanted [] = none
strchr wanted (ch ∷ rest) =
    let later = strchr wanted rest in
    if ch == wanted
    then some ([], rest)
    else elim later [ none ↦ none | some r ↦ some (ch ∷ r.0, r.1) ]

-- The loop of `extract_quoted_field`; each round takes at least one byte, so the length of the
-- string is fuel enough.
unfoldable pub quoted_loop : ℕ → ℕ → ℕ → ℕ → Bytes → Option Bytes
unfolding strchr
quoted_loop zero out_size wanted_idx qidx p = none
quoted_loop (suc n) out_size wanted_idx qidx [] = none
quoted_loop (suc n) out_size wanted_idx qidx (ch ∷ rest) =
    let skipped = quoted_loop n out_size wanted_idx qidx rest in
    if not (ch == b'"') then skipped else elim (strchr b'"' rest) [
      | none ↦ none
      | some r ↦
          let next = quoted_loop n out_size wanted_idx ((qidx + 1) % 256) r.1 in
          if qidx == wanted_idx then some (take (out_size - 1) r.0) else next
    ]

-- `none` answers false; the buffer is then empty if it has a size.
unfoldable pub extract_quoted_field : Bytes → ℕ → ℕ → Option Bytes
unfolding quoted_loop
extract_quoted_field line wanted_idx out_size =
    if out_size == 0 then none else quoted_loop (length line) out_size wanted_idx 0 line
