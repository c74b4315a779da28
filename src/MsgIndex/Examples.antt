-- ===== src/MsgIndex/Examples.antt =====
-- The index at concrete messages.
use agent_letter_bridge.Prelude.{◌≡◌, refl, true, [], ◌∷◌, some, cons_not_nil}
use agent_letter_bridge.Prelude.Text.{Text, codes, lacks}
use agent_letter_bridge.MsgIndex.{Table, key, record_message, lookup}
use agent_letter_bridge.MsgIndex.Keys.{record_message_lem, first_of}

abbrev telegram : Text
telegram = codes "telegram"

abbrev table : Table
table = (key telegram (codes "-100") (codes "7"), "letter-a") ∷ []

record_message_lem_example :
    (lookup telegram
        (codes "-100")
        (codes "8")
        (record_message telegram (codes "-100") (codes "8") "letter-b" table)
      ≡ some (first_of (lookup telegram (codes "-100") (codes "8") table) "letter-b"))
    × ((p' o' m' : Text)
        → lacks b'|' p' ≡ true
        → lacks b'|' m' ≡ true
        → ¬ ((telegram ≡ p') × (codes "-100" ≡ o') × (codes "8" ≡ m'))
        → lookup p' o' m' (record_message telegram (codes "-100") (codes "8") "letter-b" table)
          ≡ lookup p' o' m' table)
record_message_lem_example =
    record_message_lem telegram (codes "-100") (codes "8") "letter-b" table cons_not_nil refl refl
