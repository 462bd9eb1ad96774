-- ===== src/AtHelper/Window/Tests.antt =====
-- Short windows and answers.
use tibbit.Common.{◌≡◌, refl, sym, ◌∙◌, true, false, codes, ◌↔◌, ◌<◌, length, arith, [], ◌∷◌}
use tibbit.AtHelper.Window.{buf_contains, buf_append}
use tibbit.AtHelper.Window.Suffix.{last_n, Within}
use tibbit.AtHelper.Window.Laws.{
  append_all, received, window_finds, split_token_lost, buf_contains_iff,
}

finds_ok : buf_contains (codes "AT\r\r\nOK\r\n") (codes "\r\nOK\r\n") ≡ true
unfolding buf_contains
finds_ok = refl

slides : buf_append 4 (codes "abc") (codes "def") ≡ codes "cdef"
unfolding buf_append
slides = refl

window_finds_example :
    let chunks = codes "\r\nO" ∷ codes "K\r\n" ∷ [] in
    (append_all 4 [] chunks ≡ last_n 4 (received chunks))
    × ((buf_contains (append_all 4 [] chunks) (codes "OK") ≡ true)
        ↔ ((0 < length (codes "OK")) × Within (codes "OK") (last_n 4 (received chunks))))
window_finds_example = window_finds 4 (codes "\r\nO" ∷ codes "K\r\n" ∷ []) (codes "OK")

-- The O of OK came before a chunk of four bytes, the size of the window.
no_ok : ¬ (Within (codes "OK") (codes "K\r\n+"))
no_ok w = cc (found ∙ searched)
  where
    searched : buf_contains (codes "K\r\n+") (codes "OK") ≡ false
    searched = unfold buf_contains in refl

    found : true ≡ buf_contains (codes "K\r\n+") (codes "OK")
    found = sym ((buf_contains_iff (codes "K\r\n+") (codes "OK")).1 (omega arith, w))

split_token_lost_example :
    buf_contains (buf_append 4 (codes "\r\nO") (codes "K\r\n+")) (codes "OK") ≡ false
split_token_lost_example =
    split_token_lost 4 (codes "\r\nO") (codes "K\r\n+") (codes "OK") (omega arith) no_ok
