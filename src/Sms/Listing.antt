-- ===== src/Sms/Listing.antt =====
-- tb45_sms.c: the indexes out of the answer of the modem to AT+CMGL, the list of unread messages.
pub mod Laws
mod Tests
use tibbit.Common.{
  ℕ, zero, suc, ◌+◌, ◌-◌, Bool, true, false, Option, none, some, List, [], ◌∷◌, ◌==◌, if◌then◌else◌,
  length, take, Bytes, codes, eq_bytes,
}
use tibbit.Sms.Fields.{extract_first_u16}

abbrev pub cmgl_token : Bytes
cmgl_token = codes "+CMGL:"

-- `strstr` for a needle that is not empty: the rest of the string from the first match on.
unfoldable pub strstr : Bytes → Bytes → Option Bytes
strstr needle [] = none
strstr needle (ch ∷ rest) =
    let later = strstr needle rest in
    if eq_bytes (take (length needle) (ch ∷ rest)) needle then some (ch ∷ rest) else later

-- A line up to its newline, and the rest from the newline on.
unfoldable pub line_of : Bytes → Bytes × Bytes
line_of [] = ([], [])
line_of (ch ∷ rest) =
    let more = line_of rest in if ch == b'\n' then ([], ch ∷ rest) else (ch ∷ more.0, more.1)

-- `line` holds 95 bytes.
unfoldable pub cmgl_loop : ℕ → ℕ → Bytes → List ℕ
unfolding strstr line_of
cmgl_loop zero room p = []
cmgl_loop (suc n) room p = elim (strstr cmgl_token p) [
  | none ↦ []
  | some q ↦
      let (line, line_end) = line_of q in
      let more = cmgl_loop n room line_end in
      let next = cmgl_loop n (room - 1) line_end in
      elim (extract_first_u16 (take 95 line)) [
        | none ↦ more
        | some index ↦ if room == 1 then index ∷ [] else index ∷ next
      ]
]

-- Every round but the last takes at least one byte; `room` is the part of `indexes` that is free.
unfoldable pub parse_cmgl_unread_indexes : Option Bytes → ℕ → List ℕ
unfolding cmgl_loop
parse_cmgl_unread_indexes none max_indexes = []
parse_cmgl_unread_indexes (some response) max_indexes =
    if max_indexes == 0 then [] else cmgl_loop (length response + 1) max_indexes response
