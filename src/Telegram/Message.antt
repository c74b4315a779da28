-- ===== src/Telegram/Message.antt =====
-- An update of getUpdates as the item that `fetch` hands on. An update whose shape is not the
-- platform's raises; an update id that is no integer is one of these. `int_text` is Python's `int` of
-- a text, and `show` its `str` of a value that is no text.
use agent_letter_bridge.Prelude.{
  ◌+◌, ◌*◌, String, Bool, ◌&&◌, ◌||◌, Option, none, some, List, [], ◌∷◌, Result, ok, err, ◌>>=◌,
  if◌then◌else◌,
}
use agent_letter_bridge.Prelude.Dict
use agent_letter_bridge.Prelude.Int.{ℤ, pos, pos_part, neg_part, sub_ℕ, ltb_ℤ, leb_ℤ, trunc_div}
use agent_letter_bridge.Json.{
  Json, null, bool, int, float, finite, nan, inf, neg_inf, str, arr, obj, end, fields_dict,
  items_list, truthy, ConvError, value_error, type_error, overflow_error, million,
}
use agent_letter_bridge.Allowlist.{as_text}

pub data ShapeError : Type 0 where
  attribute_error key_error : ShapeError
  conversion : ConvError → ShapeError

-- int(v)
unfoldable pub int_json : (String → Option ℤ) → Json → Result ConvError ℤ
int_json int_text null = err type_error
int_json int_text (bool b) = ok (pos (if b then 1 else 0))
int_json int_text (int n) = ok n
int_json int_text (float (finite n)) = ok (trunc_div n million)
int_json int_text (float nan) = err value_error
int_json int_text (float inf) = err overflow_error
int_json int_text (float neg_inf) = err overflow_error
int_json int_text (str s) = elim (int_text s) [ none ↦ err value_error | some n ↦ ok n ]
int_json int_text (arr xs) = err type_error
int_json int_text (obj fs) = err type_error

-- `v.get(key, default)`
unfoldable pub get_or : String → Json → Json → Result ShapeError Json
get_or key default (obj fs) = elim (Dict.get key (fields_dict fs)) [
  | none ↦ ok default
  | some v ↦ ok v
]
get_or key default v = err attribute_error

-- `v or default`
abbrev pub or_else : Json → Json → Json
or_else v default = if truthy v then v else default

abbrev pub lift_conversion : {A : Type 0} → Result ConvError A → Result ShapeError A
lift_conversion (ok a) = ok a
lift_conversion (err e) = err (conversion e)

-- `int(item.get(key) or 0)` of a photo
unfoldable pub photo_number : (String → Option ℤ) → String → Json → Result ShapeError ℤ
photo_number int_text key item = do
  v ← get_or key null item
  lift_conversion (int_json int_text (or_else v (int (pos 0))))

abbrev times_ℤ : ℤ → ℤ → ℤ
times_ℤ a b =
    sub_ℕ (pos_part a * pos_part b + neg_part a * neg_part b)
      (pos_part a * neg_part b + neg_part a * pos_part b)

-- the key that photos are compared by: the file size, then the area
unfoldable pub photo_key : (String → Option ℤ) → Json → Result ShapeError (ℤ × ℤ)
photo_key int_text (obj fs) = do
  width ← photo_number int_text "width" (obj fs)
  height ← photo_number int_text "height" (obj fs)
  size ← photo_number int_text "file_size" (obj fs)
  ok (size, times_ℤ width height)
photo_key int_text v = ok (pos 0, pos 0)

abbrev pub ltb_key : ℤ × ℤ → ℤ × ℤ → Bool
ltb_key (a, b) (c, d) = ltb_ℤ a c || (leb_ℤ a c && ltb_ℤ b d)

-- max(photos, key=key): the first of the largest, from the best so far
unfoldable pub max_photo : (String → Option ℤ) → Json → ℤ × ℤ → List Json → Result ShapeError Json
max_photo int_text best key [] = ok best
max_photo int_text best key (p ∷ ps) = do
  k ← photo_key int_text p
  max_photo int_text (if ltb_key key k then p else best) (if ltb_key key k then k else key) ps

abbrev file_id_of : Json → String
file_id_of (obj fs) = elim (Dict.get "file_id" (fields_dict fs)) [ some (str s) ↦ s | _ ↦ "" ]
file_id_of v = ""

unfoldable pub best_photo : (String → Option ℤ) → List Json → Result ShapeError String
best_photo int_text [] = ok ""
best_photo int_text (p ∷ ps) = do
  k ← photo_key int_text p
  best ← max_photo int_text p k ps
  ok (file_id_of best)

abbrev photos_of : Json → List Json
photos_of (arr xs) = items_list xs
photos_of v = []

-- _largest_photo_id(message)
unfoldable pub largest_photo_id : (String → Option ℤ) → Json → Result ShapeError String
largest_photo_id int_text message = do
  photos ← get_or "photo" null message
  best_photo int_text (photos_of photos)

-- the first of the keys that the message has a value for
unfoldable pub first_kind : List String → Json → Result ShapeError String
first_kind [] message = ok ""
first_kind (k ∷ ks) message = do
  v ← get_or k null message
  rest ← first_kind ks message
  ok (if truthy v then k else rest)

-- _media_kind(message)
unfoldable pub media_kind : Json → Result ShapeError String
media_kind message = first_kind ("photo" ∷ "voice" ∷ "sticker" ∷ "document" ∷ []) message

pub record Item : Type 0 where
  pub update_id : ℤ
  pub chat_id : String
  pub text : Json
  pub caption : Json
  pub photo_file_id : String
  pub media_kind : String
  pub message_id : String
  pub reply_to_message_id : String

-- the chat of a message that is not empty
unfoldable pub chat_of : (Json → String) → Json → Result ShapeError String
chat_of show message =
    if truthy message
    then (do
      chat ← get_or "chat" (obj end) message
      id ← get_or "id" (str "") chat
      ok (as_text show id))
    else ok ""

-- `str(message.get(key, "") or "")`
unfoldable pub id_text : (Json → String) → String → Json → Result ShapeError String
id_text show key message = do
  v ← get_or key (str "") message
  ok (as_text show (or_else v (str "")))

unfoldable pub update_number : Json → Result ShapeError ℤ
update_number (obj fs) = elim (Dict.get "update_id" (fields_dict fs)) [
  | none ↦ err key_error
  | some (int n) ↦ ok n
  | some v ↦ err (conversion type_error)
]
update_number v = err attribute_error

-- one turn of the loop of `fetch`
unfoldable pub read_update : (String → Option ℤ) → (Json → String) → Json → Result ShapeError Item
read_update int_text show item = do
  given ← get_or "message" null item
  let message = or_else given (obj end)
  number ← update_number item
  chat ← chat_of show message
  text ← get_or "text" (str "") message
  caption ← get_or "caption" (str "") message
  photo ← largest_photo_id int_text message
  kind ← media_kind message
  id ← id_text show "message_id" message
  reply ← get_or "reply_to_message" null message
  reply_id ← id_text show "message_id" (or_else reply (obj end))
  ok (record {
    update_id = number;
    chat_id = chat;
    text = or_else text (str "");
    caption = or_else caption (str "");
    photo_file_id = photo;
    media_kind = kind;
    message_id = id;
    reply_to_message_id = reply_id;
  })

-- the loop
unfoldable pub read_updates :
    (String → Option ℤ) → (Json → String) → List Json → Result ShapeError (List Item)
read_updates int_text show [] = ok []
read_updates int_text show (x ∷ xs) = do
  item ← read_update int_text show x
  items ← read_updates int_text show xs
  ok (item ∷ items)
