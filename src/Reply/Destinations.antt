-- ===== src/Reply/Destinations.antt =====
-- Where a reply may go.
use agent_letter_bridge.Prelude.{String, ◌≡◌, refl, ap, none, some, List, [], ◌∷◌, ◌++◌, arith}
use agent_letter_bridge.Prelude.Dict
use agent_letter_bridge.Prelude.Text.{Text, eq_text→eq, partition, partition_sound}
use agent_letter_bridge.Reply.{
  Correspondents, Meta, matches, chat_on, only_match, origin_chat_for, destination,
}

chat_on-ok :
    (platform origin chat : Text)
    → chat_on platform origin ≡ some chat
    → origin ≡ platform ++ b':' ∷ chat
unfolding chat_on
chat_on-ok platform origin chat h =
    ground (arith, h, partition_sound b':' origin, eq_text→eq (partition b':' origin).0 platform)

only_match-ok :
    (platform chat : Text) (found : List Text)
    → only_match platform found ≡ some chat
    → found ≡ (platform ++ b':' ∷ chat) ∷ []
only_match-ok platform chat [] h = absurd (cc (h))
only_match-ok platform chat (origin ∷ []) h =
    ap (λ (o : Text). o ∷ []) (chat_on-ok platform origin chat h)
only_match-ok platform chat (origin ∷ other ∷ rest) h = absurd (cc (h))

-- A letter with a correspondent is answered only at the one chat that the private map has for that
-- correspondent, and only where that chat is on the platform that asks: the map holds its origin and
-- no other origin for the same correspondent.
pub destination_of_correspondent :
    (map : Correspondents) (meta : Meta) (platform : Text) (correspondent : String) (chat : Text)
    → Dict.get "correspondent" meta ≡ some correspondent
    → destination map meta platform ≡ some chat
    → (table : List (Text × String)) × (map ≡ some table)
      × (matches correspondent table ≡ (platform ++ b':' ∷ chat) ∷ [])
unfolding destination origin_chat_for
destination_of_correspondent none meta platform correspondent chat g h =
    absurd (ground (arith, g, h))
destination_of_correspondent (some table) meta platform correspondent chat g h =
    (table, refl, only_match-ok platform chat (matches correspondent table) (ground (arith, g, h)))
