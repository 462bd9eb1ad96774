-- ===== src/Sms/Listing/Tests.antt =====
-- A concrete list of two messages, of which one has two lines.
use tibbit.Common.{◌≡◌, refl, some, List, [], ◌∷◌, codes, arith}
use tibbit.Sms.Listing.{parse_cmgl_unread_indexes}
use tibbit.Sms.Listing.Laws.{Entry, listing, parse_cmgl_unread_indexes-listing}

abbrev two_entries : List Entry
two_entries =
    (record { index = 3; tail = codes ",\"REC UNREAD\"\r"; body = codes "hi\r\n" })
    ∷ (record { index = 12; tail = codes ",\"REC UNREAD\"\r"; body = codes "a\r\nb\r\n\r\nOK\r\n" })
    ∷ []

parse_cmgl_unread_indexes_example :
    parse_cmgl_unread_indexes (some (listing two_entries)) 8 ≡ 3 ∷ 12 ∷ []
parse_cmgl_unread_indexes_example =
    parse_cmgl_unread_indexes-listing two_entries 8 (ground arith) (omega arith)

-- A text that holds the token is read as an entry.
entry_in_text :
    parse_cmgl_unread_indexes (some (codes "+CMGL: 3,\"REC UNREAD\"\r\n+CMGL: 7\r\n\r\nOK\r\n")) 8
    ≡ 3 ∷ 7 ∷ []
unfolding parse_cmgl_unread_indexes tibbit.Sms.Fields.extract_first_u16
entry_in_text = refl
