-- ===== src/Allowlist/Examples.antt =====
-- The gate at concrete files.
use agent_letter_bridge.Prelude.{String, ◌≡◌, ◌↔◌, true, ok}
use agent_letter_bridge.Json.{Json, str, null, arr, obj, field, end, cons, nil}
use agent_letter_bridge.Allowlist.{AllowFile, holds, allows}
use agent_letter_bridge.Allowlist.Gate.{Lists, allows_iff}

abbrev text_of : Json → String
text_of null = "None"
text_of v = "…"

abbrev file : AllowFile
file = holds (obj (field "chats" (arr (cons (str "42") nil)) end))

allows_iff_example : (allows text_of file (str "42") ≡ ok true) ↔ Lists text_of file (str "42")
allows_iff_example = allows_iff text_of file (str "42")
