-- ===== src/Slack/Events.antt =====
-- alb/adapters/slack/events.py: one Slack event as the item that the poller reads, or nothing.
use agent_letter_bridge.Prelude.{
  ℕ, zero, suc, ◌-◌, String, Bool, true, false, not, ◌&&◌, ◌||◌, Option, none, some, List, [], ◌∷◌,
  ◌++◌, ◌==◌, append, length, filter_by, if◌then◌else◌,
}
use agent_letter_bridge.Prelude.Dict
use agent_letter_bridge.Prelude.Dict.{Dict}
use agent_letter_bridge.Prelude.Text.{Text, codes, eq_text, starts_with, strip}
use agent_letter_bridge.Json.{Json, null, str, arr, obj, fields_dict, items_list, truthy}

-- t.replace(old, new) for an `old` that is not empty; `skip` counts the matched characters left
abbrev pub replace_from : ℕ → Text → Text → Text → Text
replace_from skip old new [] = []
replace_from (suc skip) old new (c ∷ t) = replace_from skip old new t
replace_from zero old new (c ∷ t) = elim (starts_with old (c ∷ t)) [
  | true ↦ new ++ replace_from (length old - 1) old new t
  | false ↦ c ∷ replace_from zero old new t
]

unfoldable pub replace : Text → Text → Text → Text
replace old new t = replace_from zero old new t

-- sub in t
unfoldable pub occurs : Text → Text → Bool
occurs sub [] = eq_text sub []
occurs sub (c ∷ t) = starts_with sub (c ∷ t) || occurs sub t

pub record File : Type 0 where
  pub id : String
  pub mimetype : String
  pub url : String

-- `thread_ts` is empty where the provenance has none.
pub record Item : Type 0 where
  pub update_id : String
  pub chat_id : String
  pub text : Text
  pub photo_file_id : String
  pub media_kind : String
  pub message_id : String
  pub reply_to_message_id : String
  pub reply_thread : String
  pub team : String
  pub channel : String
  pub thread_ts : String
  pub files : List File

-- the value, where it is a text, else the empty text
abbrev pub text_or : Option Json → String
text_or (some (str s)) = s
text_or _ = ""

-- source_id
unfoldable pub source_id : String → String → String → String
source_id team channel ts =
    append "slack:" (append team (append ":" (append channel (append ":" ts))))

-- <@bot>
unfoldable pub mention : String → Text
mention bot_user = codes "<@" ++ codes bot_user ++ codes ">"

-- the three entities, the ampersand last
unfoldable pub unescape : Text → Text
unescape t =
    replace (codes "&amp;") (codes "&")
      (replace (codes "&gt;") (codes ">") (replace (codes "&lt;") (codes "<") t))

-- _clean
unfoldable pub clean : Text → String → Text
clean text bot_user = unescape (strip (replace (mention bot_user) [] text))

abbrev first_text : List String → String
first_text [] = ""
first_text (s ∷ ss) = if s == "" then first_text ss else s

unfoldable pub file_of : Json → List File
file_of (obj fs) =
    let d : Dict Json = fields_dict fs in
    let id : String = text_or (Dict.get "id" d) in
    if id == ""
    then []
    else record {
      id = id;
      mimetype = text_or (Dict.get "mimetype" d);
      url = first_text (
          text_or (Dict.get "url_private_download" d)
          ∷ text_or (Dict.get "url_private" d)
          ∷ text_or (Dict.get "url" d)
          ∷ []);
    }
      ∷ []
file_of _ = []

unfoldable pub files_in : List Json → List File
files_in [] = []
files_in (v ∷ vs) = file_of v ++ files_in vs

-- _files
unfoldable pub files_of : Dict Json → List File
files_of event = elim (Dict.get "files" event) [ some (arr xs) ↦ files_in (items_list xs) | _ ↦ [] ]

abbrev is_image : File → Bool
is_image f = starts_with (codes "image/") (codes f.mimetype)

abbrev pub media_of : List File → List File → String × String
media_of (image ∷ images) files = ("photo", image.id)
media_of [] (file ∷ files) = ("document", "")
media_of [] [] = ("", "")

abbrev holds_value : Option Json → Bool
holds_value none = false
holds_value (some v) = truthy v

-- `event.get("user") == bot_user`
abbrev is_text : String → Option Json → Bool
is_text s (some (str t)) = t == s
is_text s _ = false

-- `subtype not in (None, "", "file_share")`
abbrev plain_subtype : Option Json → Bool
plain_subtype none = true
plain_subtype (some null) = true
plain_subtype (some (str s)) = s == "" || s == "file_share"
plain_subtype _ = false

-- the argument channel_type, or else the event's
abbrev channel_kind : Option String → Dict Json → String
channel_kind none event = text_or (Dict.get "channel_type" event)
channel_kind (some kind) event = kind

-- the guards up to the text: an event that may be a letter
unfoldable pub is_mail : Dict Json → String → String → Bool
is_mail event bot_user channel_type =
    let kind : String = text_or (Dict.get "type" event) in
    (kind == "message" || kind == "app_mention")
    && (not (holds_value (Dict.get "bot_id" event) || is_text bot_user (Dict.get "user" event))
        && (plain_subtype (Dict.get "subtype" event)
            && (not (
                  text_or (Dict.get "user" event) == ""
                  || (text_or (Dict.get "channel" event) == ""
                      || text_or (Dict.get "ts" event) == ""))
                && not (
                    kind == "message"
                    && (not (channel_type == "im")
                        && not (
                            occurs (mention bot_user)
                              (codes (text_or (Dict.get "text" event)))))))))

unfoldable pub item_of : Dict Json → String → String → Text → List File → Item
item_of event team channel_type text files =
    let channel : String = text_or (Dict.get "channel" event) in
    let ts : String = text_or (Dict.get "ts" event) in
    let thread_ts : String = text_or (Dict.get "thread_ts" event) in
    let media : String × String = media_of (filter_by is_image files) files in
    record {
      update_id = source_id team channel ts;
      chat_id = append channel (append "/" (text_or (Dict.get "user" event)));
      text = text;
      photo_file_id = media.1;
      media_kind = media.0;
      message_id = ts;
      reply_to_message_id = if thread_ts == ts then "" else thread_ts;
      reply_thread =
          if not (thread_ts == "")
          then thread_ts
          else if not (channel_type == "im")
          then ts
          else "";
      team = team;
      channel = channel;
      thread_ts = thread_ts;
      files = files;
    }

abbrev is_nil : List File → Bool
is_nil [] = true
is_nil (f ∷ fs) = false

-- normalise of an event that is an object, with its channel type
unfoldable pub normalise_event : Dict Json → String → String → String → Option Item
normalise_event event team bot_user channel_type =
    let files : List File = files_of event in
    let text : Text = clean (codes (text_or (Dict.get "text" event))) bot_user in
    if is_mail event bot_user channel_type && not (eq_text text [] && is_nil files)
    then some (item_of event team channel_type text files)
    else none

-- normalise(event, team, bot_user, channel_type)
unfoldable pub normalise : Json → String → String → Option String → Option Item
normalise (obj fs) team bot_user given =
    normalise_event (fields_dict fs) team bot_user (channel_kind given (fields_dict fs))
normalise _ team bot_user given = none
