-- ===== src/AtHelper/Capture.antt =====
-- tb45_sms_at_helper.c: the buffer that the lines of a script's answer are copied into.
pub mod Laws
mod Tests
use tibbit.Common.{
  ℕ, ◌-◌, Bool, Option, none, some, List, [], ◌∷◌, ◌++◌, leb, ltb, ◌==◌, if◌then◌else◌, length,
  take, Bytes, codes,
}

-- `out` is NULL, or holds the bytes written so far: `tb45_sms_at_capture_len` is their number.
pub record Capture : Type 0 where
  pub out : Option Bytes
  pub size : ℕ

abbrev pub crlf : Bytes
crlf = codes "\r\n"

unfoldable pub capture_reset : Bool → ℕ → Capture
capture_reset given size = record { out = if given then some [] else none; size = size }

-- As many bytes as the buffer has room for, before its NUL.
unfoldable pub copy : ℕ → Bytes → Bytes → Bytes
copy room out bytes =
    let remaining = room - length out in
    let copy_len = if ltb (length bytes) remaining then length bytes else remaining in
    if remaining == 0 then out else out ++ take copy_len bytes

-- The line is not NULL where it is called.
unfoldable pub capture_append : Bytes → Capture → Capture
unfolding copy
capture_append line c = elim c.out [
  | none ↦ c
  | some out ↦
      let room = c.size - 1 in
      let filled = copy room (copy room out line) crlf in
      if leb c.size 1
      then c
      else if room - length out == 0
      then c
      else record c { out = some filled }
]

-- The lines of one answer.
unfoldable pub capture_lines : List Bytes → Capture → Capture
unfolding capture_append
capture_lines [] c = c
capture_lines (line ∷ lines) c = capture_lines lines (capture_append line c)
