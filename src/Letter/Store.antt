-- ===== src/Letter/Store.antt =====
-- publish, find_by_update and publish_once. `token` is update_token, the first 12 hex digits of a
-- SHA-256; a `Mint` is what a publication takes from the clock and from uuid4. The ledger's entries
-- are texts, as its callers write them.
pub mod Search
pub mod Once
pub mod Carried
pub mod Evidence
use agent_letter_bridge.Prelude.{
  ℕ, zero, suc, ◌-◌, Bool, true, false, not, ◌&&◌, ◌||◌, Option, none, some, List, [], ◌∷◌, ◌++◌,
  Result, ok, err, ◌>>=◌, length, ltb, eqb, if◌then◌else◌, any_of, filter_by,
}
use agent_letter_bridge.Prelude.Text.{Text, codes, eq_text}
use agent_letter_bridge.Prelude.TextDict
use agent_letter_bridge.Letter.{
  Meta, Letter, LetterError, unsafe_identifier, no_such_letter, malformed_letter, os_error,
  file_exists, text, Directory, serialise, resolve,
}

pub record Mint : Type 0 where
  pub stamp : Text
  pub sent : Text
  pub unique : Text

abbrev pub unique_part : Mint → Text
unique_part m = m.stamp ++ b'-' ∷ m.unique

abbrev pub suffix_for : (Text → Text) → Text → Text
suffix_for token update = b'-' ∷ b'u' ∷ token update

-- the id of a letter for an update
unfoldable pub letter_id : (Text → Text) → Mint → Text → Text
letter_id token m update = unique_part m ++ suffix_for token update

-- the header as `publish` stamps it
unfoldable pub stamped : Mint → Text → Meta → Meta
stamped m id meta =
    let with_sent = TextDict.put (codes "sent") m.sent meta in
    if TextDict.has (codes "id") with_sent
    then TextDict.put (codes "id") id with_sent
    else with_sent

-- publish(inbox, body, meta, update_id): the id and the directory, or a name that is taken
unfoldable pub publish :
    (Text → Text) → Mint → Directory → Text → Meta → Text → Result LetterError (Text × Directory)
publish token m inbox body meta update =
    let id = letter_id token m update in
    if TextDict.has id inbox
    then err file_exists
    else ok (id, TextDict.put id (text (serialise (stamped m id meta) body)) inbox)

abbrev pub ends_with : Text → Text → Bool
ends_with s [] = eq_text [] s
ends_with s (c ∷ t) = eq_text (c ∷ t) s || ends_with s t

-- s <= t for texts
unfoldable pub leb_text : Text → Text → Bool
leb_text [] t = true
leb_text (a ∷ s) [] = false
leb_text (a ∷ s) (b ∷ t) = ltb a b || (eqb a b && leb_text s t)

unfoldable pub insert_name : Text → List Text → List Text
insert_name x [] = x ∷ []
insert_name x (y ∷ ys) =
    let rest = insert_name x ys in if leb_text x y then x ∷ y ∷ ys else y ∷ rest

unfoldable pub sort_names : List Text → List Text
unfolding insert_name
sort_names [] = []
sort_names (x ∷ xs) = insert_name x (sort_names xs)

abbrev pub names : Directory → List Text
names [] = []
names ((id, f) ∷ dir) = id ∷ names dir

-- sorted(directory.glob(pattern))
unfoldable pub candidates : (Text → Text) → Text → Directory → List Text
candidates token update dir =
    sort_names (filter_by (ends_with (suffix_for token update)) (names dir))

abbrev pub or_empty : Option Text → Text
or_empty none = []
or_empty (some v) = v

-- the letter records this update
unfoldable pub is_for_update : Text → Letter → Bool
is_for_update update letter =
    eq_text (or_empty (TextDict.get (codes "source_id") letter.meta)) update

-- what the search passes over; a file that is not UTF-8 raises
abbrev pub is_skipped : LetterError → Bool
is_skipped malformed_letter = true
is_skipped no_such_letter = true
is_skipped unsafe_identifier = true
is_skipped os_error = true
is_skipped _ = false

-- one candidate, where `rest` is the search in the others
abbrev pub verify :
    Text
    → Text
    → Result LetterError Letter
    → Result LetterError (Option Text)
    → Result LetterError (Option Text)
verify update id (ok letter) rest = if is_for_update update letter then ok (some id) else rest
verify update id (err e) rest = if is_skipped e then rest else err e

unfoldable pub first_verified : Text → Directory → List Text → Result LetterError (Option Text)
first_verified update dir [] = ok none
first_verified update dir (id ∷ ids) =
    verify update id (resolve dir id) (first_verified update dir ids)

abbrev pub found_or :
    Directory
    → Result LetterError (Option Text)
    → Result LetterError (Option (Directory × Text))
    → Result LetterError (Option (Directory × Text))
found_or dir (ok none) rest = rest
found_or dir (ok (some id)) rest = ok (some (dir, id))
found_or dir (err e) rest = err e

-- find_by_update(update_id, searched): the directory and the id of the letter
unfoldable pub find_by_update :
    (Text → Text) → Text → List Directory → Result LetterError (Option (Directory × Text))
find_by_update token update [] = ok none
find_by_update token update (dir ∷ dirs) =
    found_or dir (first_verified update dir (candidates token update dir))
      (find_by_update token update dirs)

-- the ledger file; `none` where it is missing, unreadable or no list
abbrev pub Ledger : Type 0
Ledger = Option (List Text)

-- _load_delivered
unfoldable pub load_delivered : Ledger → List Text
load_delivered none = []
load_delivered (some delivered) = delivered

abbrev drop_first : ℕ → List Text → List Text
drop_first zero xs = xs
drop_first (suc n) [] = []
drop_first (suc n) (x ∷ xs) = drop_first n xs

-- xs[-n:]
unfoldable pub last_entries : ℕ → List Text → List Text
last_entries n xs = if eqb n 0 then xs else drop_first (length xs - n) xs

-- _record_delivered
unfoldable pub record_delivered : ℕ → List Text → Text → Ledger
record_delivered cap delivered update = some (last_entries cap (delivered ++ update ∷ []))

-- the inbox and the ledger
pub record Post : Type 0 where
  pub inbox : Directory
  pub ledger : Ledger

abbrev pub searched_or : Directory → List Directory → List Directory
searched_or inbox [] = inbox ∷ []
searched_or inbox (d ∷ ds) = d ∷ ds

-- publish_once after the search
unfoldable pub publish_unless :
    (Text → Text)
    → Mint
    → ℕ
    → Post
    → Text
    → Text
    → Meta
    → Option (Directory × Text)
    → Result LetterError (Option Text × Post)
publish_unless token m cap p update body meta (some found) =
    ok (none, record p { ledger = record_delivered cap (load_delivered p.ledger) update })
publish_unless token m cap p update body meta none = do
  (id, inbox) ← publish token m p.inbox body (TextDict.put (codes "source_id") update meta) update
  ok (
    some id,
    record { inbox = inbox; ledger = record_delivered cap (load_delivered p.ledger) update },
  )

-- publish_once(inbox, ledger, update_id, body, meta, cap, searched)
unfoldable pub publish_once :
    (Text → Text)
    → Mint
    → ℕ
    → Post
    → List Directory
    → Text
    → Text
    → Meta
    → Result LetterError (Option Text × Post)
publish_once token m cap p searched update body meta =
    if any_of (eq_text update) (load_delivered p.ledger) then ok (none, p) else (do
      found ← find_by_update token update (searched_or p.inbox searched)
      publish_unless token m cap p update body meta found)
