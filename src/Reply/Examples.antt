-- ===== src/Reply/Examples.antt =====
-- Replies at concrete letters.
use agent_letter_bridge.Prelude.{◌≤◌, String, ◌≡◌, refl, some, List, [], ◌∷◌, ok}
use agent_letter_bridge.Prelude.Dict
use agent_letter_bridge.Prelude.Text.{Text, codes}
use agent_letter_bridge.Initiate.{accepted}
use agent_letter_bridge.Reply.{Correspondents, Meta, Desk, claim, call, reply_id, send_legacy}
use agent_letter_bridge.Reply.Claims.{rest, next, attempt, dies_called, calls_for, at_most_one_call}

abbrev digest : Text → String
digest t = "r1"

abbrev empty : Desk
empty = record { claims = []; dead = []; calls = [] }

abbrev claimed : Desk
claimed = record empty { claims = ("r1", "in_flight") ∷ [] }

claims_it : claim (reply_id digest "letter-a" "hello") empty ≡ ok claimed
unfolding claim reply_id Dict.has Dict.get Dict.put
claims_it = refl

abbrev called : Desk
called = call (reply_id digest "letter-a" "hello") "42" "hello" (accepted (codes "7")) claimed

abbrev replayed : Desk
replayed = (send_legacy digest "letter-a" "42" "hello" (accepted (codes "8")) called).0

at_most_one_call_example : calls_for "r1" replayed.calls ≤ 1
at_most_one_call_example = at_most_one_call digest empty replayed "r1" refl (
    next empty called replayed
      (dies_called "letter-a" "42" "hello" (accepted (codes "7")) empty claimed claims_it)
      (next called replayed replayed (attempt "letter-a" "42" "hello" (accepted (codes "8")) called)
        (rest replayed)))

abbrev table : List (Text × String)
table = (codes "telegram:42", "c1") ∷ (codes "telegram:43", "c2") ∷ []

abbrev meta : Meta
meta = ("correspondent", "c1") ∷ []

abbrev held : Correspondents
held = some table
