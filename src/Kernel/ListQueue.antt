-- ===== src/Kernel/ListQueue.antt =====
-- A message queue with two places as the list of what it holds, for concrete states.
use tibbit.Common.{
  ◌≤◌, ◌<◌, ◌≡◌, Option, none, some, List, [], ◌∷◌, ◌++◌, ℤ, pos, leb, arith, if◌then◌else◌, length,
}
use tibbit.Common.Errno.{enomsg}

abbrev pub put_to : {A : Type 0} → List A → A → ℤ × List A
put_to xs a = if leb 2 (length xs) then (enomsg, xs) else (pos 0, xs ++ a ∷ [])

abbrev pub get_from : {A : Type 0} → List A → ℤ × Option A × List A
get_from [] = (enomsg, none, [])
get_from (x ∷ xs) = (pos 0, some x, xs)

pub put_to_room :
    {A : Type 0} (xs : List A) (a : A) → length xs < 2 → put_to xs a ≡ (pos 0, xs ++ a ∷ [])
put_to_room xs a room = ground (arith, room)

pub put_to_full : {A : Type 0} (xs : List A) (a : A) → 2 ≤ length xs → put_to xs a ≡ (enomsg, xs)
put_to_full xs a full = ground (arith, full)
