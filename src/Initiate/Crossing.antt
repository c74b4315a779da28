-- ===== src/Initiate/Crossing.antt =====
-- A crossing up to the call of the sender: the sender is called for an open letter only, after a
-- receipt that says so, and all else leaves the letter as it was or closes it.
use agent_letter_bridge.Prelude.{
  String, ◌≡◌, ◌≢◌, ◌⊎◌, refl, ap, Bool, true, false, ◌||◌, none, List, [], ◌∷◌, Result, ok, err,
  arith, inl, inr, Bool-cases, Option-cases, any_of, cons_not_nil,
}
use agent_letter_bridge.Prelude.Dict
use agent_letter_bridge.Prelude.Text.{Text, eq_text}
use agent_letter_bridge.Outbound.{
  FileName, names_of, record_event, is_terminal, event_of, events_of, history, sort_by_seq,
  insert_by_seq, sending, refused, ambiguous,
}
use agent_letter_bridge.Outbound.History.{events}
use agent_letter_bridge.Grant.{Grant, PolicyError, text_field}
use agent_letter_bridge.Budget.{Reservation, Reservations, text_in, live}
use agent_letter_bridge.Initiate.{
  policy_error, World, After, CrossError, Host, Site, Message, Ready, terminal_exists, fail_after,
  settle, repair, terminal_receipt, ends_sending, unresolved_sending, prepare, prepare_open,
  prepare_readmitted, with_authority, start_sending, sending_recorded, readmit, crossing_authority,
  photo_ok, is_local,
}
use agent_letter_bridge.Initiate.Settling.{
  IsSound, Grew, Same-Grew, record_event-Grew, settle-Grew, repair-Same, fail_after-err,
}

any_terminal : List FileName → Bool
any_terminal = any_of (λ (x : FileName). is_terminal (event_of x))

any_terminal-insert :
    (x : FileName) (l : List FileName)
    → any_terminal (insert_by_seq x l) ≡ (is_terminal (event_of x) || any_terminal l)
unfolding insert_by_seq any_terminal
any_terminal-insert x [] = refl
any_terminal-insert x (y ∷ l) = ground (arith, any_terminal-insert x l)

any_terminal-sort : (l : List FileName) → any_terminal (sort_by_seq l) ≡ any_terminal l
unfolding sort_by_seq any_terminal
any_terminal-sort [] = refl
any_terminal-sort (x ∷ l) =
    ground (arith, any_terminal-insert x (sort_by_seq l), any_terminal-sort l)

any_terminal-events :
    (l : List FileName) → any_of is_terminal (events_of l) ≡ true → any_terminal l ≡ true
unfolding events_of any_terminal
any_terminal-events [] h = h
any_terminal-events (x ∷ l) h = ground (arith, any_terminal-events l)

terminal_receipt-none : (l : List FileName) → terminal_receipt l ≡ none → any_terminal l ≡ false
unfolding terminal_receipt any_terminal
terminal_receipt-none [] h = refl
terminal_receipt-none (x ∷ l) h = ground (arith, terminal_receipt-none l)

not_terminal :
    (l : List FileName) → terminal_receipt l ≡ none → any_of is_terminal (history l) ≡ false
unfolding history
not_terminal l h =
    ground
      (arith, any_terminal-events (sort_by_seq l), any_terminal-sort l, terminal_receipt-none l h)

-- The letter has a terminal event, or its last one is "sending": it is not sent again.
unfoldable pub is_closed : List Text → Bool
is_closed es = any_of is_terminal es || ends_sending es

abbrev pub IsQuiet : List Text → Type 0
IsQuiet tail = (tail ≡ []) ⊎ (any_of is_terminal tail ≡ true)

-- What is done before the sender is called: the call is prepared for a letter that was open, or it is
-- refused and the letter keeps its history or is closed.
pub record Stopped (w : World) (oid : String) (a : After Ready) : Type 0 where
  pub end : World
  pub error : CrossError
  pub stopped : a ≡ (end, err error)
  pub tail : List Text
  pub quiet : IsQuiet tail
  pub grew : Grew w end oid tail

pub record Started (w : World) (oid : String) (a : After Ready) : Type 0 where
  pub end : World
  pub ready : Ready
  pub started : a ≡ (end, ok ready)
  pub was_open : is_closed (events w.outbound oid) ≡ false
  pub grew : Grew w end oid (sending ∷ [])

-- The state differs in the reservations only.
Grew-reservations :
    (w w' : World) (rs : Reservations) (oid : String) (tail : List Text)
    → Grew (record w { reservations = rs }) w' oid tail
    → Grew w w' oid tail
Grew-reservations w w' rs oid tail g = record {
  posts_same = g.posts_same;
  histories = g.histories;
  sound = g.sound;
}

unchanged :
    (w : World) (oid : String) (e : CrossError) → IsSound w.outbound → Stopped w oid (w, err e)
unchanged w oid e v = record {
  end = w;
  error = e;
  stopped = refl;
  tail = [];
  quiet = inl refl;
  grew = Same-Grew w w oid v (record { same_receipts = refl; same_posts = refl });
}

settled :
    (w : World) (oid : String) (rec : Reservation) (event : Text) (detail : String) (e : CrossError)
    → IsSound w.outbound
    → event ≢ []
    → is_terminal event ≡ true
    → Stopped w oid (fail_after (settle oid rec event detail w) e)
settled w oid rec event detail e v n t =
    let (f, same) = fail_after-err Reservation Ready (settle oid rec event detail w) e in
    record {
      end = (settle oid rec event detail w).0;
      error = f;
      stopped = same;
      tail = event ∷ [];
      quiet = inr (rw t refl);
      grew = settle-Grew oid rec event detail w v n;
    }

repaired :
    (w : World) (oid : String) (rec : Reservation) (existing : Text) (e : CrossError)
    → IsSound w.outbound
    → Stopped w oid (fail_after (repair oid rec existing w) e)
repaired w oid rec existing e v =
    let (f, same) = fail_after-err Reservation Ready (repair oid rec existing w) e in
    record {
      end = (repair oid rec existing w).0;
      error = f;
      stopped = same;
      tail = [];
      quiet = inl refl;
      grew = Same-Grew w _ oid v (repair-Same oid rec existing w);
    }

refused_terminal : is_terminal refused ≡ true
unfolding is_terminal eq_text
refused_terminal = refl

ambiguous_terminal : is_terminal ambiguous ≡ true
unfolding is_terminal eq_text
ambiguous_terminal = refl

start_sending_lem :
    (w : World) (oid : String) (rec : Reservation) (found : Grant)
    → IsSound w.outbound
    → is_closed (events w.outbound oid) ≡ false
    → Stopped w oid (start_sending oid rec found w) ⊎ Started w oid (start_sending oid rec found w)
unfolding start_sending
start_sending_lem w oid rec found v c =
    by_platform (text_field "platform" found) (text_field "chat_id" found)
  where
    by_chat :
        (platform : String) (r : Result PolicyError String)
        → let a = elim r as (λ _. After Ready) [
          | err e ↦ (w, err (policy_error e))
          | ok chat ↦ sending_recorded rec platform chat w (record_event oid sending w.outbound)
        ] in
          Stopped w oid a ⊎ Started w oid a
    by_chat platform (err e) = inl (unchanged w oid (policy_error e) v)
    by_chat platform (ok chat) =
        let (o, e, g) = record_event-Grew w oid sending v cons_not_nil in
        inr (record {
          end = record w { outbound = o };
          ready = record { rec = rec; platform = platform; chat = chat };
          started = ap (sending_recorded rec platform chat w) e;
          was_open = c;
          grew = g;
        })

    by_platform :
        (p q : Result PolicyError String)
        → let a = elim p as (λ _. After Ready) [
          | err e ↦ (w, err (policy_error e))
          | ok platform ↦ elim q as (λ _. After Ready) [
            | err e ↦ (w, err (policy_error e))
            | ok chat ↦ sending_recorded rec platform chat w (record_event oid sending w.outbound)
          ]
        ] in
          Stopped w oid a ⊎ Started w oid a
    by_platform (err e) q = inl (unchanged w oid (policy_error e) v)
    by_platform (ok platform) q = by_chat platform q

by_authority :
    (h : Host) (s : Site) (oid : String) (rec : Reservation) (r : Result CrossError Grant)
    (w : World)
    → IsSound w.outbound
    → is_closed (events w.outbound oid) ≡ false
    → Stopped w oid (with_authority h s oid rec r w)
      ⊎ Started w oid (with_authority h s oid rec r w)
unfolding with_authority
by_authority h s oid rec (err e) w v c = elim (Bool-cases (is_local e)) [
  | inl l ↦ rw l (inl (settled w oid rec refused "local policy" e v cons_not_nil refused_terminal))
  | inr l ↦ rw l (inl (unchanged w oid e v))
]
by_authority h s oid rec (ok found) w v c = elim (Bool-cases (photo_ok h s oid rec)) [
  | inl p ↦ rw p (start_sending_lem w oid rec found v c)
  | inr p ↦ rw p (
      inl (
        settled w oid rec refused "staged photo missing or altered" _ v cons_not_nil
          refused_terminal))
]

from_reservations :
    (w : World) (rs : Reservations) (oid : String) (a : After Ready)
    → Stopped (record w { reservations = rs }) oid a
      ⊎ Started (record w { reservations = rs }) oid a
    → Stopped w oid a ⊎ Started w oid a
from_reservations w rs oid a (inl s) = inl (record {
  end = s.end;
  error = s.error;
  stopped = s.stopped;
  tail = s.tail;
  quiet = s.quiet;
  grew = Grew-reservations w s.end rs oid s.tail s.grew;
})
from_reservations w rs oid a (inr s) = inr (record {
  end = s.end;
  ready = s.ready;
  started = s.started;
  was_open = s.was_open;
  grew = Grew-reservations w s.end rs oid (sending ∷ []) s.grew;
})

by_readmission :
    (h : Host) (s : Site) (m : Message) (oid : String) (w : World)
    (r : Result CrossError (Reservation × Reservations))
    → IsSound w.outbound
    → is_closed (events w.outbound oid) ≡ false
    → Stopped w oid (prepare_readmitted h s m oid w r)
      ⊎ Started w oid (prepare_readmitted h s m oid w r)
by_readmission h s m oid w (err e) v c = inl (unchanged w oid e v)
by_readmission h s m oid w (ok (rec, rs)) v c =
    from_reservations w rs oid _
      (by_authority h s oid rec (crossing_authority h s m rec) (record w { reservations = rs }) v c)

open_letter :
    (names : List FileName)
    → terminal_receipt names ≡ none
    → unresolved_sending names ≡ false
    → is_closed (history names) ≡ false
unfolding is_closed unresolved_sending
open_letter names t u = rw (not_terminal names t) u

by_open :
    (h : Host) (s : Site) (grant : Grant) (m : Message) (oid : String) (rec : Reservation)
    (w : World)
    → IsSound w.outbound
    → terminal_receipt (names_of w.outbound oid) ≡ none
    → Stopped w oid (prepare_open h s grant m oid rec w)
      ⊎ Started w oid (prepare_open h s grant m oid rec w)
by_open h s grant m oid rec w v t =
    elim (Bool-cases (unresolved_sending (names_of w.outbound oid))) [
      | inl u ↦ rw u (
          inl (
            settled w oid rec ambiguous "sending with no terminal" _ v cons_not_nil
              ambiguous_terminal))
      | inr u ↦ elim (Bool-cases (text_in live (Dict.get "status" rec))) [
        | inl l ↦
            rw (u, l)
              (by_readmission h s m oid w (readmit s grant oid rec w) v
                (open_letter (names_of w.outbound oid) t u))
        | inr l ↦ rw (u, l) (inl (unchanged w oid terminal_exists v))
      ]
    ]

-- Before the sender is called, either the crossing stops with an error, and the letter has the
-- history that it had or one terminal event more; or the letter was open and now ends with "sending".
-- In both cases the sender is not called and no other letter changes. The receipts are sound.
pub prepare_lem :
    (h : Host) (s : Site) (grant : Grant) (m : Message) (oid : String) (rec : Reservation)
    (w : World)
    → IsSound w.outbound
    → Stopped w oid (prepare h s grant m oid rec w) ⊎ Started w oid (prepare h s grant m oid rec w)
unfolding prepare
prepare_lem h s grant m oid rec w v =
    elim (Option-cases (terminal_receipt (names_of w.outbound oid))) [
      | inl t ↦ rw t (by_open h s grant m oid rec w v t)
      | inr (existing, t) ↦ rw t (inl (repaired w oid rec existing terminal_exists v))
    ]
