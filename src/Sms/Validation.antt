-- ===== src/Sms/Validation.antt =====
-- tb45_sms.c: the checks of a phone number and of a text, and the identifiers of requests. The limits
-- on the lengths come from the Kconfig.
pub mod Laws
mod Tests
use tibbit.Common.{
  ℕ, zero, suc, ◌+◌, ◌%◌, ◌^◌, Bool, true, false, not, ◌||◌, ◌&&◌, Option, none, some, List, [],
  ◌∷◌, leb, ltb, ◌==◌, if◌then◌else◌, length, Bytes,
}

-- `isdigit`, in the C locale
unfoldable pub is_digit : ℕ → Bool
is_digit ch = leb b'0' ch && leb ch b'9'

-- The loops of the two checks, on the bytes that are left.
unfoldable pub all_digits : Bytes → Bool
unfolding is_digit
all_digits [] = true
all_digits (ch ∷ rest) = if not (is_digit ch) then false else all_digits rest

unfoldable pub phone_is_valid : ℕ → Option Bytes → Bool
unfolding all_digits
phone_is_valid phone_max_len none = false
phone_is_valid phone_max_len (some []) = false
phone_is_valid phone_max_len (some (first ∷ rest)) =
    let len = length (first ∷ rest) in
    if ltb len 3 || ltb phone_max_len len
    then false
    else if first == b'+'
    then (if ltb len 4 then false else all_digits rest)
    else all_digits (first ∷ rest)

unfoldable pub all_printable : Bytes → Bool
all_printable [] = true
all_printable (ch ∷ rest) = if ltb ch 0x20 || ch == 0x7F then false else all_printable rest

-- The answer, and the length that a valid text gives back.
unfoldable pub text_is_valid : ℕ → Option Bytes → Option ℕ
unfolding all_printable
text_is_valid text_max_len none = none
text_is_valid text_max_len (some text) =
    if length text == 0 || ltb text_max_len (length text)
    then none
    else if all_printable text
    then some (length text)
    else none

-- `atomic_inc` on a uint32_t: the value before, and the one after.
unfoldable pub atomic_inc : ℕ → ℕ × ℕ
atomic_inc seed = (seed, (seed + 1) % 2 ^ 32)

-- The identifier, and the seed for the next one; 0 is skipped.
unfoldable pub next_request_id : ℕ → ℕ × ℕ
unfolding atomic_inc
next_request_id seed =
    let (request_id, seed') = atomic_inc seed in
    if request_id == 0 then atomic_inc seed' else (request_id, seed')

-- The identifiers of `n` requests in a row.
unfoldable pub request_ids : ℕ → ℕ → List ℕ
unfolding next_request_id
request_ids zero seed = []
request_ids (suc n) seed =
    let (request_id, seed') = next_request_id seed in request_id ∷ request_ids n seed'
