-- ===== src/Ids/Examples.antt =====
-- Prefixed parts at concrete texts, under an encoder of ASCII.
use agent_letter_bridge.Prelude.{String, ◌≡◌, refl, List, [], ◌∷◌}
use agent_letter_bridge.Prelude.Text.{codes, codes-injective}
use agent_letter_bridge.Ids.{to_bytes, length_prefixed}
use agent_letter_bridge.Ids.Prefixes.{length_prefixed-injective}

abbrev two_parts : List String
two_parts = "a" ∷ "bc" ∷ []

abbrev body : String
body = "hi"

length_prefixed-injective_example : two_parts ≡ two_parts
unfolding length_prefixed to_bytes
length_prefixed-injective_example =
    length_prefixed-injective codes codes-injective two_parts two_parts _ refl refl
