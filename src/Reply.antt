-- ===== src/Reply.antt =====
-- alb/send/reply.py: where a reply goes, and the claim files of _send_legacy; the letter-first path of
-- send_reply is in LetterFirst. `digest` is the first 24 hex digits of SHA-256. Also origin_chat_for of
-- alb/outbound/store.py: the private map from a chat to its correspondent.
pub mod Claims
pub mod Destinations
pub mod LetterFirst
mod Examples
use agent_letter_bridge.Prelude.{
  append, String, Bool, true, false, not, ◌&&◌, ◌||◌, Option, none, some, List, [], ◌∷◌, ◌++◌,
  Result, ok, err, ◌==◌, if◌then◌else◌,
}
use agent_letter_bridge.Prelude.Dict
use agent_letter_bridge.Prelude.Dict.{Dict}
use agent_letter_bridge.Prelude.Text.{Text, codes, eq_text, partition}
use agent_letter_bridge.Outbound.{DeadLetter}
use agent_letter_bridge.Initiate.{Answer, accepted, throttles, refuses, is_ambiguous, fails}

-- correspondents.json, or `none` where it cannot be read: the key by origin, `platform:chat`
abbrev pub Correspondents : Type 0
Correspondents = Option (List (Text × String))

-- `[origin for origin, key in table.items() if key == correspondent]`
unfoldable pub matches : String → List (Text × String) → List Text
matches correspondent [] = []
matches correspondent ((origin, k) ∷ table) =
    let rest = matches correspondent table in if k == correspondent then origin ∷ rest else rest

-- the chat of an origin on the platform that asks
unfoldable pub chat_on : Text → Text → Option Text
chat_on platform origin =
    let (origin_platform, sep, chat) = partition b':' origin in
    if not (eq_text origin_platform platform) || (not sep || eq_text chat [])
    then none
    else some chat

abbrev pub only_match : Text → List Text → Option Text
only_match platform [] = none
only_match platform (origin ∷ []) = chat_on platform origin
only_match platform (origin ∷ other ∷ rest) = none

-- origin_chat_for(state, correspondent, platform)
unfoldable pub origin_chat_for : Correspondents → String → Text → Option Text
origin_chat_for none correspondent platform = none
origin_chat_for (some table) correspondent platform =
    if correspondent == "" then none else only_match platform (matches correspondent table)

-- the header fields of a stored letter
abbrev pub Meta : Type 0
Meta = Dict String

-- the first of DESTINATION_KEYS with a value that is not empty
unfoldable pub legacy_chat : List String → Meta → Option Text
legacy_chat [] meta = none
legacy_chat (name ∷ names) meta =
    let rest = legacy_chat names meta in
    elim (Dict.get name meta) [ none ↦ rest | some v ↦ if v == "" then rest else some (codes v) ]

abbrev pub destination_keys : List String
destination_keys = "telegram_chat_id" ∷ "chat_id" ∷ []

-- destination(meta, state, platform), with a state
unfoldable pub destination : Correspondents → Meta → Text → Option Text
destination map meta platform = elim (Dict.get "correspondent" meta) [
  | some key ↦ origin_chat_for map key platform
  | none ↦ if eq_text platform (codes "telegram") then legacy_chat destination_keys meta else none
]

-- _reply_id(letter_id, text)
unfoldable pub reply_id : (Text → String) → String → String → String
reply_id digest letter_id text = digest (codes letter_id ++ 0 ∷ codes text)

-- one call of the sender
pub record Sent : Type 0 where
  pub id : String
  pub chat : String
  pub body : String
  pub answer : Answer

-- the claim files with their outcome, the dead letters, and the calls of the sender so far
pub record Desk : Type 0 where
  pub claims : Dict String
  pub dead : Dict DeadLetter
  pub calls : List Sent

pub data ReplyError : Type 0 where
  already_claimed ambiguous_outcome definite_refusal throttled_out : ReplyError

-- _claim(state, reply_id)
unfoldable pub claim : String → Desk → Result ReplyError Desk
claim rid d =
    if Dict.has rid d.claims
    then err already_claimed
    else ok (record d { claims = Dict.put rid "in_flight" d.claims })

-- _record(path, outcome)
unfoldable pub record_outcome : String → String → Desk → Desk
record_outcome rid outcome d = record d { claims = Dict.put rid outcome d.claims }

-- _dead_letter(state, reply_id, letter_id, detail)
unfoldable pub dead_letter : String → String → String → Desk → Desk
dead_letter rid letter_id detail d = record d {
  dead = Dict.put rid (record { reply_id = rid; letter_id = letter_id; detail = detail }) d.dead;
}

abbrev pub sent_of : String → String → String → Answer → Sent
sent_of rid chat text answer = record { id = rid; chat = chat; body = text; answer = answer }

unfoldable pub call : String → String → String → Answer → Desk → Desk
call rid chat text answer d = record d { calls = d.calls ++ sent_of rid chat text answer ∷ [] }

-- what _send_legacy records of the sender's answer, and what it returns
unfoldable pub conclude : String → String → Answer → Desk → Desk × Result ReplyError String
conclude rid letter_id (accepted platform_id) d = (record_outcome rid "sent" d, ok rid)
conclude rid letter_id (throttles detail) d = (record_outcome rid "throttled" d, err throttled_out)
conclude rid letter_id (refuses detail) d = (record_outcome rid "refused" d, err definite_refusal)
conclude rid letter_id (is_ambiguous detail) d =
    (dead_letter rid letter_id detail (record_outcome rid "ambiguous" d), err ambiguous_outcome)
conclude rid letter_id (fails detail) d = (
  dead_letter rid letter_id (append "unclassified " detail) (record_outcome rid "ambiguous" d),
  err ambiguous_outcome,
)

abbrev pub after_claim :
    String
    → String
    → String
    → String
    → Answer
    → Desk
    → Result ReplyError Desk
    → Desk × Result ReplyError String
after_claim rid letter_id chat text answer d (err e) = (d, err e)
after_claim rid letter_id chat text answer d (ok claimed) =
    conclude rid letter_id answer (call rid chat text answer claimed)

-- _send_legacy(sender, state, letter_id, chat_id, text), where the sender, if it is called, does `answer`
unfoldable pub send_legacy :
    (Text → String) → String → String → String → Answer → Desk → Desk × Result ReplyError String
send_legacy digest letter_id chat text answer d =
    let rid = reply_id digest letter_id text in
    after_claim rid letter_id chat text answer d (claim rid d)
