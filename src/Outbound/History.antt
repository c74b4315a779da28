-- ===== src/Outbound/History.antt =====
-- The history of a letter is append-only: an event that is recorded becomes the last one, wherever
-- the directory lists its file, and the earlier ones stay.
use agent_letter_bridge.Prelude.{
  ℕ, suc, ◌+◌, ◌≤◌, ◌<◌, String, ◌≡◌, ◌≢◌, refl, sym, ap, ap₂, subst, ◌∙◌, Bool, true, false, List,
  [], ◌∷◌, ◌++◌, append-nil, ok, inl, inr, arith, eq_refl, Bool-cases, if_true, if_false, length,
  length-append, any_of, All, if◌then◌else◌, ◌==◌,
}
use agent_letter_bridge.Prelude.Dict
use agent_letter_bridge.Prelude.Dict.{Dict, get-put}
use agent_letter_bridge.Prelude.Number.{show, py_int-show, lacks-show, is_digit}
use agent_letter_bridge.Prelude.Text.{
  Text, codes, eq_text, eq_text_refl, eq_text→eq, partition, partition-append,
}
use agent_letter_bridge.Outbound.{
  FileName, Store, names_of, record_event, event_path, event_of, events_of, is_event_name, history,
  seq, seq_key, sort_by_seq, insert_by_seq, remove_suffix, suffix,
}

event_path-partition :
    (d : List FileName) (event : Text)
    → partition b'-' (event_path d event) ≡ (show (length d + 1), true, event ++ suffix)
unfolding event_path
event_path-partition d event =
    partition-append b'-' (show (length d + 1)) (event ++ suffix)
      (lacks-show b'-' (length d + 1) (unfold is_digit in refl))

seq_key-event_path :
    (d : List FileName) (event : Text) → seq_key (event_path d event) ≡ suc (length d + 1)
unfolding seq_key seq
seq_key-event_path d event =
    ground (arith, event_path-partition d event, py_int-show (length d + 1))

eq_text-longer : (c : ℕ) (e s : Text) → eq_text (c ∷ e ++ s) s ≡ false
eq_text-longer c e s = elim (Bool-cases (eq_text (c ∷ e ++ s) s)) [
  | inl h ↦ absurd (omega (arith, ap length (eq_text→eq (c ∷ e ++ s) s h), length-append e s))
  | inr h ↦ h
]

remove_suffix-append : (e : Text) (c : ℕ) (s : Text) → remove_suffix (c ∷ s) (e ++ c ∷ s) ≡ e
unfolding remove_suffix
remove_suffix-append [] c s = rw (eq_text_refl (c ∷ s))
remove_suffix-append (d ∷ e) c s =
    rw (eq_text-longer d e (c ∷ s)) (ap (λ (t : Text). d ∷ t) (remove_suffix-append e c s))

event_of-event_path : (d : List FileName) (event : Text) → event_of (event_path d event) ≡ event
unfolding event_of
event_of-event_path d event =
    ap (λ (p : Text × Bool × Text). remove_suffix suffix p.2) (event_path-partition d event)
    ∙ remove_suffix-append event b'.' (codes "json")

abbrev pub Below : ℕ → List FileName → Type 0
Below k = All (λ x. seq_key x < k)

Below-insert :
    (k : ℕ) (x : FileName) (l : List FileName)
    → seq_key x < k
    → Below k l
    → Below k (insert_by_seq x l)
unfolding insert_by_seq
Below-insert k x [] h b = (h, tt)
Below-insert k x (y ∷ l) h b = ground (arith, Below-insert k x l h b.1)

Below-sort : (k : ℕ) (l : List FileName) → Below k l → Below k (sort_by_seq l)
unfolding sort_by_seq
Below-sort k [] b = tt
Below-sort k (x ∷ l) b = Below-insert k x (sort_by_seq l) b.0 (Below-sort k l b.1)

insert-last :
    (x : FileName) (l : List FileName) → Below (seq_key x) l → insert_by_seq x l ≡ l ++ x ∷ []
unfolding insert_by_seq
insert-last x [] b = refl
insert-last x (y ∷ l) b = ground (arith, insert-last x l)

insert-before_last :
    (x y : FileName) (l : List FileName)
    → seq_key y < seq_key x
    → insert_by_seq y (l ++ x ∷ []) ≡ insert_by_seq y l ++ x ∷ []
unfolding insert_by_seq
insert-before_last x y [] h = ground arith
insert-before_last x y (z ∷ l) h = ground (arith, insert-before_last x y l)

-- A file with the largest number is sorted to the end, wherever it is listed.
sort-largest :
    (x : FileName) (before after : List FileName)
    → Below (seq_key x) before
    → Below (seq_key x) after
    → sort_by_seq (before ++ x ∷ after) ≡ sort_by_seq (before ++ after) ++ x ∷ []
unfolding sort_by_seq
sort-largest x [] after b a = insert-last x (sort_by_seq after) (Below-sort (seq_key x) after a)
sort-largest x (y ∷ before) after b a =
    ap (insert_by_seq y) (sort-largest x before after b.1 a)
    ∙ insert-before_last x y (sort_by_seq (before ++ after)) b.0

events_of-append :
    (l : List FileName) (x : FileName)
    → is_event_name x ≡ true
    → events_of (l ++ x ∷ []) ≡ events_of l ++ event_of x ∷ []
unfolding events_of
events_of-append [] x h = ground arith
events_of-append (y ∷ l) x h = ground (arith, events_of-append l x)

history-largest :
    (x : FileName) (before after : List FileName)
    → is_event_name x ≡ true
    → Below (seq_key x) before
    → Below (seq_key x) after
    → history (before ++ x ∷ after) ≡ history (before ++ after) ++ event_of x ∷ []
unfolding history
history-largest x before after h b a =
    ap events_of (sort-largest x before after b a)
    ∙ events_of-append (sort_by_seq (before ++ after)) x h

-- No file carries a number above the count of files, as after any number of recorded events; files
-- with no number do not count against this.
abbrev pub IsNumbered : List FileName → Type 0
IsNumbered d = Below (length d + 2) d

Below-all :
    (k : ℕ) (d : List FileName) (x : FileName)
    → Below k d
    → seq_key x ≡ k
    → any_of (eq_text x) d ≡ false
Below-all k [] x b e = refl
Below-all k (y ∷ d) x b e = elim (Bool-cases (eq_text x y)) [
  | inl h ↦ absurd (omega (arith, ap seq_key (eq_text→eq x y h), b.0))
  | inr h ↦ rw h (Below-all k d x b.1 e)
]

Below-append :
    (k m : ℕ) (d : List FileName) (x : FileName)
    → k ≤ m
    → Below k d
    → seq_key x < m
    → Below m (d ++ x ∷ [])
Below-append k m [] x l b h = (h, tt)
Below-append k m (y ∷ d) x l b h = (omega (arith, b.0), Below-append k m d x l b.1 h)

pub IsNumbered-append :
    (d : List FileName) (event : Text) → IsNumbered d → IsNumbered (d ++ event_path d event ∷ [])
IsNumbered-append d event b =
    Below-append (length d + 2) (length (d ++ event_path d event ∷ []) + 2) d (event_path d event)
      (omega (arith, length-append d (event_path d event ∷ []))) b
      (omega (arith, length-append d (event_path d event ∷ []), seq_key-event_path d event))

not_nil : (c : ℕ) (e : Text) → eq_text (c ∷ e) [] ≡ false
unfolding eq_text
not_nil c e = refl

is_event_name-event_path :
    (d : List FileName) (event : Text) → event ≢ [] → is_event_name (event_path d event) ≡ true
unfolding is_event_name
is_event_name-event_path d [] n = absurd (n refl)
is_event_name-event_path d (c ∷ e) n =
    ground (arith, event_of-event_path d (c ∷ e), seq_key-event_path d (c ∷ e), not_nil c e)

add-two : (n : ℕ) → n + 2 ≡ suc (n + 1)
add-two n = omega arith

pub history-event_path :
    (d : List FileName) (event : Text)
    → IsNumbered d
    → event ≢ []
    → history (d ++ event_path d event ∷ []) ≡ history d ++ event ∷ []
history-event_path d event b n =
    history-largest (event_path d event) d [] (is_event_name-event_path d event n)
      (subst (λ (k : ℕ). Below k d) (add-two (length d) ∙ sym (seq_key-event_path d event)) b) tt
    ∙ ap₂ (λ (l : List FileName) (e : Text). history l ++ e ∷ []) (append-nil d)
        (event_of-event_path d event)

-- The store with one more receipt.
abbrev pub recorded : String → Text → Store → Store
recorded id event s = record s {
  receipts = Dict.put id (names_of s id ++ event_path (names_of s id) event ∷ []) s.receipts;
}

pub record_event-eq-recorded :
    (id : String) (event : Text) (s : Store)
    → IsNumbered (names_of s id)
    → record_event id event s ≡ ok (recorded id event s)
unfolding record_event
record_event-eq-recorded id event s b = rw (
    Below-all (length (names_of s id) + 2) (names_of s id) (event_path (names_of s id) event) b
      (seq_key-event_path (names_of s id) event ∙ sym (add-two (length (names_of s id)))))

pub names_of-recorded :
    (j id : String) (event : Text) (s : Store)
    → names_of (recorded id event s) j
      ≡ (if id == j then names_of s id ++ event_path (names_of s id) event ∷ [] else names_of s j)
unfolding names_of
names_of-recorded j id event s =
    ground (arith, get-put j id (names_of s id ++ event_path (names_of s id) event ∷ []) s.receipts)

pub names_of-recorded_self :
    (id : String) (event : Text) (s : Store)
    → names_of (recorded id event s) id ≡ names_of s id ++ event_path (names_of s id) event ∷ []
names_of-recorded_self id event s = rw (names_of-recorded, eq_refl)

-- The history of a letter, oldest event first.
abbrev pub events : Store → String → List Text
events s id = history (names_of s id)

-- On a numbered directory an event is always recorded: it becomes the last of the letter's history
-- after all the earlier ones, and the directory stays numbered. No other directory changes.
pub record_event_lem :
    (id : String) (event : Text) (s : Store)
    → IsNumbered (names_of s id)
    → event ≢ []
    → (s' : Store) × (record_event id event s ≡ ok s')
      × (events s' id ≡ events s id ++ event ∷ [])
      × IsNumbered (names_of s' id)
      × ((j : String) → (id == j) ≡ false → names_of s' j ≡ names_of s j)
record_event_lem id event s b n = (
  recorded id event s,
  record_event-eq-recorded id event s b,
  ap history (names_of-recorded_self id event s) ∙ history-event_path (names_of s id) event b n,
  subst IsNumbered (sym (names_of-recorded_self id event s))
      (IsNumbered-append (names_of s id) event b),
  λ j h. rw (names_of-recorded, h),
)

pub events-recorded :
    (j id : String) (event : Text) (s : Store)
    → IsNumbered (names_of s id)
    → event ≢ []
    → events (recorded id event s) j ≡ (if id == j then events s id ++ event ∷ [] else events s j)
events-recorded j id event s b n = elim (Bool-cases (id == j)) [
  | inl h ↦ rw h (
      ap history (names_of-recorded j id event s ∙ if_true _ _ h)
      ∙ history-event_path (names_of s id) event b n)
  | inr h ↦ rw h (ap history (names_of-recorded j id event s ∙ if_false _ _ h))
]

pub IsNumbered-recorded :
    (j id : String) (event : Text) (s : Store)
    → IsNumbered (names_of s id)
    → IsNumbered (names_of s j)
    → IsNumbered (names_of (recorded id event s) j)
IsNumbered-recorded j id event s b c = elim (Bool-cases (id == j)) [
  | inl h ↦
      subst IsNumbered (sym (names_of-recorded j id event s ∙ if_true _ _ h))
        (IsNumbered-append (names_of s id) event b)
  | inr h ↦ subst IsNumbered (sym (names_of-recorded j id event s ∙ if_false _ _ h)) c
]
