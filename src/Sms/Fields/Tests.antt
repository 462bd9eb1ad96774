-- ===== src/Sms/Fields/Tests.antt =====
-- A concrete answer of the modem to AT+CMGR and to AT+CMGL.
use tibbit.Common.{◌≡◌, refl, some, List, [], ◌∷◌, ◌++◌, Bytes, codes, arith}
use tibbit.Sms.Fields.{extract_first_u16, extract_quoted_field}
use tibbit.Sms.Fields.Laws.{quoted_line, extract_quoted_field_line}
use tibbit.Sms.Fields.Numbers.{extract_first_u16-print}
use tibbit.Sms.Fields.{print}

abbrev fields : List (Bytes × Bytes)
fields =
    (codes "+CMGR: ", codes "READ")
    ∷ (codes ",", codes "+49171")
    ∷ (codes ",,", codes "26/01/02,03:04:05+04")
    ∷ []

second_field :
    extract_quoted_field (codes "+CMGR: \"READ\",\"+49171\",,\"26/01/02,03:04:05+04\"") 1 16
    ≡ some (codes "+49171")
unfolding extract_quoted_field
second_field = refl

extract_quoted_field_example : extract_quoted_field (quoted_line fields []) 1 4 ≡ some (codes "+49")
extract_quoted_field_example =
    extract_quoted_field_line fields [] 1 4 (ground arith) tt (omega arith) (omega arith)

-- Only the first five digits of a longer number are read.
long_number : extract_first_u16 (codes "+CMGL: 123456,") ≡ some 12345
unfolding extract_first_u16
long_number = refl

extract_first_u16_example :
    extract_first_u16 (codes "+CMGL: " ++ (print 5 407 ++ codes ",\"REC UNREAD\"")) ≡ some 407
extract_first_u16_example =
    extract_first_u16-print (codes "+CMGL: ") (codes ",\"REC UNREAD\"") 407 (ground arith)
      (ground arith) (omega arith)
