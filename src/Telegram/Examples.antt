-- ===== src/Telegram/Examples.antt =====
-- The adapter at concrete answers of the platform.
use mathlib.Core.List.{Memᴰ}
use agent_letter_bridge.Prelude.{
  ◌≡◌, ◌≤◌, ◌↔◌, refl, String, true, false, Option, none, some, [], ◌∷◌, Result, ok, err, map,
}
use agent_letter_bridge.Prelude.Dict
use agent_letter_bridge.Prelude.Int.{ℤ, pos}
use agent_letter_bridge.Prelude.Text.{strip}
use agent_letter_bridge.Prelude.Number.{py_int}
use agent_letter_bridge.Json.{
  Json, int, str, obj, field, end, arr, nil, cons, Items, items_list, truthy,
}
use agent_letter_bridge.Watchdog.{max_retry_after}
use agent_letter_bridge.Initiate.Delivery.{may_arrive}
use agent_letter_bridge.Telegram.Message.{
  Item, int_json, ShapeError, get_or, read_update, read_updates, update_number, chat_of,
  largest_photo_id, best_photo, media_kind, first_kind, id_text,
}
use agent_letter_bridge.Telegram.{
  HttpError, answered, http_error, fetch, poll_failure, retry_after, body_seconds,
  parameter_seconds, sane, send, transient, no_file, holds, mark_json, load_offset, next_ℤ,
  next_offset, ack, confirm, confirm_after, save_offset,
}
use agent_letter_bridge.Telegram.Outcomes.{
  IsDefinite, send_iff, fetch_wait_bounds, fetch_keeps_updates,
}
use agent_letter_bridge.Telegram.Marks.{
  System, Steps, stop, more, acking, polling, confirming, IsFresh, saved_was_received,
}

-- `int` of a text and `str` of a number, at the only values that the examples convert
abbrev no_number : String → Option ℤ
no_number t = none

abbrev show_seven : Json → String
show_seven v = "7"

abbrev throttled : HttpError
throttled = record {
  status = 429;
  body = some (obj (field "parameters" (obj (field "retry_after" (int (pos 7)) end)) end));
  retry_header = none;
}

send_iff_example :
    (may_arrive (send show_seven (http_error throttled)) ≡ false)
    ↔ IsDefinite (http_error throttled)
send_iff_example = send_iff show_seven (http_error throttled)

throttled_wait : fetch no_number show_seven (http_error throttled) ≡ err (transient (some 7))
unfolding fetch poll_failure retry_after body_seconds parameter_seconds sane Dict.get py_int strip
throttled_wait = refl

fetch_wait_bounds_example : (1 ≤ 7) × (7 ≤ max_retry_after)
fetch_wait_bounds_example =
    fetch_wait_bounds no_number show_seven (http_error throttled) 7 throttled_wait

-- a message, and a reaction that carries none
abbrev updates : Items
updates =
    cons
      (obj
        (field "update_id" (int (pos 5)) (field "message" (obj (field "text" (str "hi") end)) end)))
      (cons (obj (field "update_id" (int (pos 6)) end)) nil)

abbrev payload : Json
payload = obj (field "ok" (int (pos 1)) (field "result" (arr updates) end))

abbrev item : ℤ → String → Item
item n t = record {
  update_id = n;
  chat_id = "";
  text = str t;
  caption = str "";
  photo_file_id = "";
  media_kind = "";
  message_id = "";
  reply_to_message_id = "";
}

payload_list : get_or "result" (arr nil) payload ≡ ok (arr updates)
unfolding get_or Dict.get
payload_list = refl

payload_items :
    fetch no_number show_seven (answered payload) ≡ ok (item (pos 5) "hi" ∷ item (pos 6) "" ∷ [])
unfolding fetch get_or Dict.get read_updates read_update update_number chat_of largest_photo_id
    best_photo media_kind first_kind id_text truthy
payload_items = refl

abbrev number_of : Item → Result ShapeError ℤ
number_of i = ok i.update_id

fetch_keeps_updates_example :
    map update_number (items_list updates)
    ≡ map number_of (item (pos 5) "hi" ∷ item (pos 6) "" ∷ [])
fetch_keeps_updates_example =
    fetch_keeps_updates no_number show_seven payload updates _ payload_list payload_items

abbrev fresh : System
fresh = record { bot = record { acked = none; file = no_file }; acks = []; received = [] }

fresh-IsFresh : IsFresh no_number show_seven fresh
unfolding load_offset
fresh-IsFresh = record { no_mark = refl; no_ack = refl; no_acks = refl; none_received = refl }

-- update 5 is acked, and the answered confirmation has written its mark
abbrev marked : System
marked = record {
  bot = record { acked = some (pos 5); file = holds (mark_json (pos 5)) };
  acks = pos 5 ∷ [];
  received = pos 6 ∷ [];
}

-- update 5 is acked, a poll is lost, and a confirmation is answered
fresh_marked : Steps no_number show_seven fresh marked
unfolding ack confirm confirm_after save_offset next_offset
fresh_marked = more fresh _ marked (acking (pos 5) fresh) (
    more _ _ marked (polling false _)
      (more _ _ marked (confirming (answered payload) true _) (stop marked)))

marked_file : load_offset no_number (holds (mark_json (pos 5))) ≡ ok (some (pos 5))
unfolding load_offset Dict.get int_json
marked_file = refl

saved_was_received_example : Memᴰ (next_ℤ (pos 5)) (pos 6 ∷ []) × Memᴰ (pos 5) (pos 5 ∷ [])
saved_was_received_example =
    saved_was_received no_number show_seven fresh marked fresh-IsFresh fresh_marked (pos 5)
      marked_file
