-- ===== src/MsgIndex.antt =====
-- alb/msgindex.py: which letter a platform message is. The index is a dict with text keys, in the
-- order of its writes; a file that cannot be read is an empty one. The lock around a write is not
-- modelled: a write is one step.
pub mod Keys
pub mod Origins
mod Examples
use agent_letter_bridge.Prelude.{
  ℕ, String, Bool, true, false, ◌&&◌, not, List, [], ◌∷◌, ◌++◌, Option, none, some, eqb, ◌==◌,
  if◌then◌else◌,
}
use agent_letter_bridge.Prelude.Text.{Text, codes, eq_text, partition}

-- the letter id by key
abbrev pub Table : Type 0
Table = List (Text × String)

-- `_key`
unfoldable pub key : Text → Text → Text → Text
key platform origin message_id = platform ++ b'|' ∷ (origin ++ b'|' ∷ message_id)

-- table.get(key)
unfoldable pub entry : Text → Table → Option String
entry k [] = none
entry k ((j, v) ∷ t) = if eq_text j k then some v else entry k t

-- record(state, platform, origin, message_id, letter_id): the first writer wins
unfoldable pub record_message : Text → Text → Text → String → Table → Table
record_message platform origin [] letter_id t = t
record_message platform origin (c ∷ m) letter_id t = elim (entry (key platform origin (c ∷ m)) t) [
  | some old ↦ t
  | none ↦ t ++ (key platform origin (c ∷ m), letter_id) ∷ []
]

-- lookup(state, platform, origin, message_id)
unfoldable pub lookup : Text → Text → Text → Table → Option String
lookup platform origin message_id t = entry (key platform origin message_id) t

-- t.rpartition(c): the parts around the last c
unfoldable pub rpartition : ℕ → Text → Text × Bool × Text
rpartition c [] = ([], false, [])
rpartition c (a ∷ t) =
    let (before, sep, after) = rpartition c t in
    if sep then (a ∷ before, true, after) else if eqb a c then ([], true, t) else ([], false, a ∷ t)

-- what one entry adds to the set
unfoldable pub origin_in : Text → String → Text → String → Option Text
origin_in platform letter_id k value =
    let (key_platform, sep, rest) = partition b'|' k in
    let (origin, sep2, message) = rpartition b'|' rest in
    if not (value == letter_id)
    then none
    else if (eq_text key_platform platform && sep) && (sep2 && not (eq_text origin []))
    then some origin
    else none

abbrev pub add_origin : Option Text → List Text → List Text
add_origin none found = found
add_origin (some o) found = o ∷ found

-- origins_of(state, platform, letter_id), a set: its members may stand more than once
unfoldable pub origins_of : Text → String → Table → List Text
unfolding origin_in
origins_of platform letter_id [] = []
origins_of platform letter_id ((k, v) ∷ t) =
    add_origin (origin_in platform letter_id k v) (origins_of platform letter_id t)
