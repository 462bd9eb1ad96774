-- ===== src/AtHelper/Window/Laws.antt =====
-- The window against the bytes received and against the search for a token in them.
use mathlib.Core.List.{append_assoc, append-nil}
use tibbit.Common.{
  ℕ, zero, suc, ◌+◌, ◌-◌, ◌≤◌, ◌<◌, ◌≡◌, ap, sym, ◌∙◌, ◌↔◌, true, false, List, [], ◌∷◌, ◌++◌, arith,
  length, take, drop, length-append, take-append-drop, Bytes, eq_bytes, eq_bytes→eq, eq_bytes_refl,
  leb, ltb, Bool-cases, inl, inr,
}
use tibbit.AtHelper.Window.{contains_loop, buf_contains, buf_append}
use tibbit.AtHelper.Window.Suffix.{
  drop_all, drop-append, take-append_self, drop-append_self, last_n, last_n-append, length-last_n,
  Within, Within-drop,
}

-- A buffer that is not over its size holds, after the bytes of `src` are appended, the last `cap`
-- bytes of what it held and of `src`.
pub buf_append-last_n :
    (cap : ℕ) (dst src : Bytes)
    → length dst ≤ cap
    → buf_append cap dst src ≡ last_n cap (dst ++ src)
unfolding buf_append
buf_append-last_n cap dst src h =
    let m = length (dst ++ src) - cap in
    let all : length (dst ++ src) ≡ length dst + length src = length-append dst src in
    elim (Bool-cases (leb cap (length src))) [
      | inl f ↦
          let gone : drop m dst ≡ [] = drop_all m dst (ground arith) in
          let kept : m - length dst ≡ length src - cap = ground arith in
          rw f (sym (drop-append m dst src ∙ rw (gone, kept)))
      | inr f ↦ elim (Bool-cases (ltb cap (length dst + length src))) [
        | inl g ↦
            let some_left : m ≡ length dst - (cap - length src) = ground arith in
            let no_more : m - length dst ≡ 0 = ground arith in
            rw (f, g) (sym (drop-append m dst src ∙ rw (no_more, some_left)))
        | inr g ↦ let none_gone : m ≡ 0 = ground arith in rw (f, g, none_gone)
      ]
    ]

-- What `memcmp` compares at position `i`.
abbrev At : Bytes → Bytes → ℕ → Type 0
At buf needle i = eq_bytes (take (length needle) (drop i buf)) needle ≡ true

contains_loop_sound :
    (buf needle : Bytes) (n i : ℕ) → contains_loop buf needle n i ≡ true → (k : ℕ) × At buf needle k
unfolding contains_loop
contains_loop_sound buf needle zero i h = ground arith
contains_loop_sound buf needle (suc n) i h =
    elim (Bool-cases (eq_bytes (take (length needle) (drop i buf)) needle)) [
      | inl f ↦ (i, f)
      | inr f ↦ contains_loop_sound buf needle n (i + 1) (rw f at h)
    ]

contains_loop_complete :
    (buf needle : Bytes) (n i k : ℕ)
    → k < n
    → At buf needle (i + k)
    → contains_loop buf needle n i ≡ true
unfolding contains_loop
contains_loop_complete buf needle zero i k h at = elim h [ ]
contains_loop_complete buf needle (suc n) i zero h at =
    let e : i + 0 ≡ i = omega arith in rw (rw e at at)
contains_loop_complete buf needle (suc n) i (suc k) h at =
    let e : i + suc k ≡ i + 1 + k = omega arith in
    let found = contains_loop_complete buf needle n (i + 1) k (omega arith) (rw e at at) in
    ground arith

Within-At : (buf needle : Bytes) (i : ℕ) → At buf needle i → Within needle buf
Within-At buf needle i h =
    let as_needle = eq_bytes→eq (take (length needle) (drop i buf)) needle h in
    (
      take i buf,
      drop (length needle) (drop i buf),
      sym (take-append-drop i buf)
          ∙ ap (λ l. take i buf ++ l)
              (sym (take-append-drop (length needle) (drop i buf)) ∙ rw as_needle),
    )

At-front : (needle front back : Bytes) → At (front ++ (needle ++ back)) needle (length front)
At-front needle front back =
    rw (drop-append_self front, take-append_self needle back) (eq_bytes_refl needle)

-- `tb45_sms_at_buf_contains` answers true exactly if the needle is not empty and stands somewhere
-- in the buffer.
pub buf_contains_iff :
    (buf needle : Bytes)
    → (buf_contains buf needle ≡ true) ↔ ((0 < length needle) × Within needle buf)
unfolding buf_contains
buf_contains_iff buf needle = (found, shown)
  where
    found : buf_contains buf needle ≡ true → (0 < length needle) × Within needle buf
    found h =
        let searched : contains_loop buf needle (length buf - length needle + 1) 0 ≡ true =
          ground arith in
        let (k, at) = contains_loop_sound buf needle (length buf - length needle + 1) 0 searched in
        (ground arith, Within-At buf needle k at)

    shown : (0 < length needle) × Within needle buf → buf_contains buf needle ≡ true
    shown (lo, at_some) =
        let (front, back, e) = at_some in
        let size : length buf ≡ length front + (length needle + length back) =
          ap length e
          ∙ length-append front (needle ++ back)
          ∙ ap (λ k. length front + k) (length-append needle back) in
        let at : At buf needle (0 + length front) =
          let z : 0 + length front ≡ length front = omega arith in
          rw (z, e) (At-front needle front back) in
        let hit =
          contains_loop_complete buf needle (length buf - length needle + 1) 0 (length front)
            (omega arith) at in
        ground arith

-- The window after chunks have come in one by one.
unfoldable pub append_all : ℕ → Bytes → List Bytes → Bytes
append_all cap window [] = window
append_all cap window (c ∷ cs) = append_all cap (buf_append cap window c) cs

abbrev pub received : List Bytes → Bytes
received [] = []
received (c ∷ cs) = c ++ received cs

window-received :
    (cap : ℕ) (chunks : List Bytes) (before window : Bytes)
    → window ≡ last_n cap before
    → append_all cap window chunks ≡ last_n cap (before ++ received chunks)
unfolding append_all
window-received cap [] before window e = rw append-nil e
window-received cap (c ∷ cs) before window e =
    let small : length window ≤ cap = rw e (length-last_n cap before) in
    window-received cap cs (before ++ c) (buf_append cap window c)
      (buf_append-last_n cap window c small ∙ rw e (last_n-append cap before c))
    ∙ ap (last_n cap) (append_assoc before c (received cs))

-- However the answer of the modem is cut into chunks, the window that began empty holds the last
-- `cap` bytes of it, and a token is found in it exactly if it is not empty and stands, whole, in
-- those bytes.
pub window_finds :
    (cap : ℕ) (chunks : List Bytes) (token : Bytes)
    → (append_all cap [] chunks ≡ last_n cap (received chunks))
      × ((buf_contains (append_all cap [] chunks) token ≡ true)
          ↔ ((0 < length token) × Within token (last_n cap (received chunks))))
window_finds cap chunks token =
    let same : append_all cap [] chunks ≡ last_n cap (received chunks) =
      window-received cap chunks [] [] (let z : 0 - cap ≡ 0 = omega arith in rw z) in
    (same, rw same (buf_contains_iff (last_n cap (received chunks)) token))

-- A chunk as long as the window or longer leaves nothing of what came before it: a token that
-- began before such a chunk and does not stand whole in it is not found.
pub split_token_lost :
    (cap : ℕ) (window chunk token : Bytes)
    → cap ≤ length chunk
    → ¬ (Within token chunk)
    → buf_contains (buf_append cap window chunk) token ≡ false
unfolding buf_append
split_token_lost cap window chunk token h lacks =
    let found_in = (buf_contains_iff (drop (length chunk - cap) chunk) token).0 in
    let long : leb cap (length chunk) ≡ true = ground arith in
    elim (Bool-cases (buf_contains (drop (length chunk - cap) chunk) token)) [
      | inl f ↦ absurd (lacks (Within-drop (length chunk - cap) token chunk (found_in f).1))
      | inr f ↦ rw (long, f)
    ]
