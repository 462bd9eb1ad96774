-- ===== src/Sms/Validation/Tests.antt =====
-- Concrete numbers, texts and identifiers.
use tibbit.Common.{
  ◌-◌, ◌^◌, ◌≤◌, ◌<◌, ◌≡◌, refl, ◌↔◌, true, false, some, [], ◌∷◌, codes, arith, get_elem?,
}
use tibbit.Sms.Validation.{phone_is_valid, text_is_valid, request_ids}
use tibbit.Sms.Validation.Laws.{
  PhoneNumber, Printable, phone_is_valid_iff, text_is_valid_iff, request_ids_nth,
}

plus_only : phone_is_valid 16 (some (codes "+12")) ≡ false
unfolding phone_is_valid
plus_only = refl

phone_is_valid_example :
    (phone_is_valid 16 (some (codes "+123")) ≡ true) ↔ PhoneNumber 16 (codes "+123")
phone_is_valid_example = phone_is_valid_iff 16 (codes "+123")

text_is_valid_example :
    (text_is_valid 160 (some (codes "a b")) ≡ some 3)
    ↔ ((0 < 3) × (3 ≤ 160) × Printable (codes "a b"))
text_is_valid_example = text_is_valid_iff 160 (codes "a b")

ids_wrap : request_ids 3 (2 ^ 32 - 1) ≡ 4294967295 ∷ 1 ∷ 2 ∷ []
unfolding request_ids
ids_wrap = refl

request_ids_example : get_elem? (request_ids 3 (2 ^ 32 - 1)) 2 ≡ some 2
request_ids_example = request_ids_nth 3 2 (2 ^ 32 - 1) (omega arith) (omega arith)
