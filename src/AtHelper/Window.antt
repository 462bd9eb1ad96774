-- ===== src/AtHelper/Window.antt =====
-- tb45_sms_at_helper.c: the window of the last received bytes, in which the answers of the modem
-- are looked for. A buffer with its length is the list of its bytes up to that length.
pub mod Suffix
pub mod Laws
mod Tests
use tibbit.Common.{
  ℕ, zero, suc, ◌+◌, ◌-◌, Bool, true, false, ◌||◌, ◌++◌, leb, ltb, ◌==◌, if◌then◌else◌, length,
  take, drop, Bytes, codes, eq_bytes,
}

-- TB45_SMS_AT_RX_BUF_SIZE
abbrev pub rx_buf_size : ℕ
rx_buf_size = 64

-- The positions from `i` on, `n` being left.
unfoldable pub contains_loop : Bytes → Bytes → ℕ → ℕ → Bool
contains_loop buf needle zero i = false
contains_loop buf needle (suc n) i =
    let rest = contains_loop buf needle n (i + 1) in
    if eq_bytes (take (length needle) (drop i buf)) needle then true else rest

unfoldable pub buf_contains : Bytes → Bytes → Bool
unfolding contains_loop
buf_contains buf needle =
    if length needle == 0 || ltb (length buf) (length needle)
    then false
    else contains_loop buf needle (length buf - length needle + 1) 0

-- A buffer of `cap` bytes keeps the newest ones.
unfoldable pub buf_append : ℕ → Bytes → Bytes → Bytes
buf_append cap dst src =
    if leb cap (length src)
    then drop (length src - cap) src
    else if ltb cap (length dst + length src)
    then drop (length dst - (cap - length src)) dst ++ src
    else dst ++ src

unfoldable pub has_error : Bytes → Bool
unfolding buf_contains
has_error buf =
    buf_contains buf (codes "ERROR")
    || buf_contains buf (codes "+CME ERROR")
    || buf_contains buf (codes "+CMS ERROR")
