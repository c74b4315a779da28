-- ===== src/Allowlist.antt =====
-- alb/allowlist/gate.py: who may write, and who may be written to. Parameter: `text_of`, the reading
-- of a value that is no text by `str`.
pub mod Gate
mod Examples
use agent_letter_bridge.Prelude.{
  String, Bool, true, false, List, [], ◌∷◌, Option, none, some, Result, ok, err, ◌==◌, any_of, map,
}
use agent_letter_bridge.Prelude.Dict
use agent_letter_bridge.Json.{Json, str, arr, obj, fields_dict, items_list, cons, nil}

-- What reading the file gives; `undecodable` is a file that is not UTF-8.
pub data AllowFile : Type 0 where
  no_file undecodable not_json : AllowFile
  holds : Json → AllowFile

pub data GateError : Type 0 where
  unicode_error : GateError

-- `str(v)`
abbrev pub as_text : (Json → String) → Json → String
as_text text_of (str s) = s
as_text text_of v = text_of v

-- `data.get("chats")` of a dict, where it is a list
unfoldable pub chats_of : Json → List Json
chats_of (obj fs) = elim (Dict.get "chats" (fields_dict fs)) [
  | some (arr xs) ↦ items_list xs
  | _ ↦ []
]
chats_of _ = []

-- allows(path, chat_id): a file that is not UTF-8 raises
unfoldable pub allows : (Json → String) → AllowFile → Json → Result GateError Bool
allows text_of no_file chat = ok false
allows text_of undecodable chat = err unicode_error
allows text_of not_json chat = ok false
allows text_of (holds v) chat =
    ok (any_of (λ (c : Json). as_text text_of c == as_text text_of chat) (chats_of v))

-- permits_anyone(path)
unfoldable pub permits_anyone : AllowFile → Bool
permits_anyone (holds v) = elim (chats_of v) [ [] ↦ false | c ∷ cs ↦ true ]
permits_anyone _ = false
