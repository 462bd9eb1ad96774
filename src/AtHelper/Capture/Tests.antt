-- ===== src/AtHelper/Capture/Tests.antt =====
-- A concrete answer, cut in the middle of its second line.
use tibbit.Common.{◌≡◌, true, some, [], ◌∷◌, codes}
use tibbit.AtHelper.Capture.{capture_reset, capture_lines}
use tibbit.AtHelper.Capture.Laws.{capture_lines-take}

capture_lines_example :
    (capture_lines (codes "+CSQ: 9" ∷ codes "OK" ∷ []) (capture_reset true 11)).out
    ≡ some (codes "+CSQ: 9\r\nO")
capture_lines_example = capture_lines-take 11 (codes "+CSQ: 9" ∷ codes "OK" ∷ [])
