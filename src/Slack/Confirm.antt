-- ===== src/Slack/Confirm.antt =====
-- alb/adapters/slack/api.py: confirm, with _send_envelope_acks, _advance_markers, _cap_threads and
-- _persist_markers. The adapter has a state directory, as the bridge always gives it one. `send` tells
-- which envelopes the socket takes, and `writes` whether the file of the markers can be written.
use agent_letter_bridge.Prelude.{
  ℕ, zero, suc, String, Bool, true, false, not, ◌&&◌, ◌||◌, List, [], ◌∷◌, ◌++◌, Result, ok, err,
  ◌==◌, eqb, ltb, leb, length, if◌then◌else◌,
}
use agent_letter_bridge.Prelude.Dict
use agent_letter_bridge.Prelude.Dict.{Dict}
use agent_letter_bridge.Prelude.Text.{Text, codes}
use agent_letter_bridge.Slack.{
  Mark, Markers, Adapter, ConfirmError, socket_closed, send_failed, write_failed, keys, pop_all,
  all_envelopes, marks_to_apply, Floats, ts_value, advance, dict_or,
}

-- a thread of a conversation and its marker
pub record ThreadMark : Type 0 where
  pub conv : String
  pub thread : String
  pub ts : String

abbrev pub threads_of : String → Dict String → List ThreadMark
threads_of conv [] = []
threads_of conv ((thread, ts) ∷ d) =
    record { conv = conv; thread = thread; ts = ts } ∷ threads_of conv d

unfoldable pub flatten : Dict (Dict String) → List ThreadMark
flatten [] = []
flatten ((conv, mapping) ∷ d) = threads_of conv mapping ++ flatten d

-- s < t
abbrev text_lt : Text → Text → Bool
text_lt s [] = false
text_lt [] (b ∷ t) = true
text_lt (a ∷ s) (b ∷ t) = ltb a b || (eqb a b && text_lt s t)

abbrev str_lt : String → String → Bool
str_lt s t = text_lt (codes s) (codes t)

abbrev pub take {ℓ} : {A : Type ℓ} → ℕ → List A → List A
take n [] = []
take zero (x ∷ xs) = []
take (suc n) (x ∷ xs) = x ∷ take n xs

abbrev pub max_threads : ℕ
max_threads = 200

-- kept.setdefault(conv, {})[thread] = ts
abbrev pub keep_thread : Dict (Dict String) → ThreadMark → Dict (Dict String)
keep_thread kept t = Dict.put t.conv (Dict.put t.thread t.ts (dict_or (Dict.get t.conv kept))) kept

abbrev pub keep_threads : Dict (Dict String) → List ThreadMark → Dict (Dict String)
keep_threads kept [] = kept
keep_threads kept (t ∷ ts) = keep_threads (keep_thread kept t) ts

abbrev pub all_sent : (String → Bool) → List String → Bool
all_sent send [] = true
all_sent send (e ∷ es) = (e == "" || send e) && all_sent send es

-- the end of `confirm`, after the markers are written
unfoldable pub settle : List String → Adapter → Adapter
settle acked a = record a {
  marks = pop_all acked a.marks;
  dropped_marks = [];
  inflight = [];
  file = a.markers;
}

module _ (floats : Floats) where
  open floats use {Value, le}

  -- a > b for the tuples (value, conv, thread, ts)
  unfoldable pub tuple_gt : ThreadMark → ThreadMark → Bool
  tuple_gt a b =
      let va : Value = ts_value floats a.ts in
      let vb : Value = ts_value floats b.ts in
      not (le va vb)
      || (le vb va
          && (str_lt b.conv a.conv
              || (a.conv == b.conv
                  && (str_lt b.thread a.thread || (a.thread == b.thread && str_lt b.ts a.ts)))))

  abbrev pub insert_mark : ThreadMark → List ThreadMark → List ThreadMark
  insert_mark t [] = t ∷ []
  insert_mark t (u ∷ us) =
      let rest = insert_mark t us in if tuple_gt u t then u ∷ rest else t ∷ u ∷ us

  -- flat.sort(reverse=True)
  unfoldable pub sort_marks : List ThreadMark → List ThreadMark
  sort_marks [] = []
  sort_marks (t ∷ ts) = insert_mark t (sort_marks ts)

  -- _cap_threads
  unfoldable pub cap_threads : Markers → Markers
  cap_threads s =
      let flat : List ThreadMark = flatten s.threads in
      if leb (length flat) max_threads
      then s
      else record s { threads = keep_threads [] (take max_threads (sort_marks flat)) }

  -- _advance_markers
  unfoldable pub advance_markers : List String → Adapter → Adapter
  advance_markers acked a =
      let moved : Markers × List Mark =
        advance floats a.pending (a.held ++ marks_to_apply a acked) (a.markers, []) in
      record a { markers = cap_threads moved.0; held = moved.1 }

  -- confirm: an envelope that is not taken leaves all as it was
  unfoldable pub confirm :
      (String → Bool) → Bool → Adapter → Adapter × Result ConfirmError (Unit {0})
  confirm send writes a =
      if not a.connected
      then (a, err socket_closed)
      else if not (all_sent send (all_envelopes a.staged ++ a.dropped))
      then (a, err send_failed)
      else (let acked : List String = keys a.staged in
          let moved : Adapter = advance_markers acked (record a { staged = []; dropped = [] }) in
          if writes then (settle acked moved, ok tt) else (moved, err write_failed))
