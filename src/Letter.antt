-- ===== src/Letter.antt =====
-- alb/letter/store.py: the letter format and the store of letters. A directory of letters is a dict
-- from a letter's id to its file. A header is a dict of texts, in the order of its writes; every
-- caller hands texts over, so None and str() do not occur. Writing is atomic here: the temporary file
-- and the link are one step that refuses a name that is there.
pub mod Format
pub mod Headers
pub mod RoundTrip
pub mod Store
mod Examples
use agent_letter_bridge.Prelude.{
  ℕ, zero, suc, ◌-◌, Bool, true, false, not, ◌&&◌, ◌||◌, Option, none, some, List, [], ◌∷◌, ◌++◌,
  Result, ok, err, ◌>>=◌, length, leb, eqb, if◌then◌else◌,
}
use agent_letter_bridge.Prelude.Text.{
  Text, codes, eq_text, starts_with, all_chars, partition, splitlines, strip, rstrip_by, on_head,
}
use agent_letter_bridge.Prelude.TextDict
use agent_letter_bridge.Prelude.TextDict.{TextDict}

abbrev pub Meta : Type 0
Meta = TextDict Text

pub record Letter : Type 0 where
  pub meta : Meta
  pub body : Text

pub data LetterError : Type 0 where
  unsafe_identifier no_such_letter malformed_letter os_error decode_error file_exists : LetterError

abbrev is_alnum : ℕ → Bool
is_alnum c =
    (leb b'A' c && leb c b'Z') || ((leb b'a' c && leb c b'z') || (leb b'0' c && leb c b'9'))

abbrev pub is_id_char : ℕ → Bool
is_id_char c = is_alnum c || (eqb c b'.' || (eqb c b'_' || eqb c b'-'))

-- `_SAFE_ID`
unfoldable pub is_safe_id : Text → Bool
is_safe_id [] = false
is_safe_id (c ∷ t) = is_alnum c && all_chars is_id_char t

-- ENVELOPE_ORDER
abbrev pub envelope_order : List Text
envelope_order =
    codes "id"
    ∷ codes "from"
    ∷ codes "to"
    ∷ codes "type"
    ∷ codes "re"
    ∷ codes "thread"
    ∷ codes "priority"
    ∷ codes "requires_ack"
    ∷ codes "deadline"
    ∷ []

-- envelope(sender, recipient, kind, priority, extra)
unfoldable pub envelope : Text → Text → Text → Text → Meta → Meta
envelope sender recipient kind priority extra =
    TextDict.update
      ((codes "id", [])
        ∷ (codes "from", sender)
        ∷ (codes "to", recipient)
        ∷ (codes "type", kind)
        ∷ (codes "re", [])
        ∷ (codes "thread", [])
        ∷ (codes "priority", priority)
        ∷ (codes "requires_ack", codes "false")
        ∷ (codes "deadline", [])
        ∷ [])
      extra

abbrev pub add_field : Text → Option Text → Meta → Meta
add_field k none meta = meta
add_field k (some v) meta = (k, v) ∷ meta

-- `{k: meta[k] for k in keys if k in meta}`
unfoldable pub pick : List Text → Meta → Meta
pick [] meta = []
pick (k ∷ ks) meta = add_field k (TextDict.get k meta) (pick ks meta)

-- `{k: v for k, v in meta.items() if k not in out}`
unfoldable pub others : Meta → Meta → Meta
others out [] = []
others out ((k, v) ∷ meta) =
    let rest = others out meta in if TextDict.has k out then rest else (k, v) ∷ rest

-- _ordered(meta)
unfoldable pub ordered : Meta → Meta
ordered meta = let out = pick envelope_order meta in out ++ others out meta

-- one line of the header
unfoldable pub header_line : Text → Text → Text
header_line key [] = key ++ b':' ∷ []
header_line key (c ∷ v) = key ++ b':' ∷ b' ' ∷ c ∷ v

-- "---\n"
abbrev pub fence : Text
fence = b'-' ∷ b'-' ∷ b'-' ∷ 10 ∷ []

unfoldable pub header_lines : Meta → Text
header_lines [] = []
header_lines ((k, v) ∷ meta) = header_line k v ++ 10 ∷ header_lines meta

-- _serialise(meta, body): the lines, each with its line end
unfoldable pub serialise : Meta → Text → Text
serialise meta body = fence ++ (header_lines (ordered meta) ++ (fence ++ (body ++ 10 ∷ [])))

-- the universal newlines of read_text; the flag tells that a carriage return came just before
unfoldable pub newlines_from : Bool → Text → Text
newlines_from cr [] = []
newlines_from cr (c ∷ t) =
    let after_cr = newlines_from true t in
    let after = newlines_from false t in
    if eqb c 13 then 10 ∷ after_cr else if cr && eqb c 10 then after else c ∷ after

unfoldable pub universal_newlines : Text → Text
unfolding newlines_from
universal_newlines t = newlines_from false t

-- the loop of t.split(sep), where the next `skip` characters belong to a separator
unfoldable pub cut : Text → ℕ → Text → List Text
cut sep skip [] = [] ∷ []
cut sep zero (c ∷ t) =
    let parted = cut sep (length sep - 1) t in
    let on = cut sep zero t in
    if starts_with sep (c ∷ t) then [] ∷ parted else on_head (λ p. c ∷ p) on
cut sep (suc skip) (c ∷ t) = cut sep skip t

-- t.split(sep), for a separator that is not empty
unfoldable pub split_text : Text → Text → List Text
unfolding cut
split_text sep t = cut sep 0 t

-- sep.join(parts)
unfoldable pub join_text : Text → List Text → Text
join_text sep [] = []
join_text sep (p ∷ []) = p
join_text sep (p ∷ q ∷ ps) = p ++ (sep ++ join_text sep (q ∷ ps))

-- one line of the header into the dict
unfoldable pub read_header : Text → Meta → Meta
read_header line meta =
    let (key, sep, value) = partition b':' line in
    if sep then TextDict.put (strip key) (strip value) meta else meta

unfoldable pub read_headers : List Text → Meta → Meta
read_headers [] meta = meta
read_headers (line ∷ lines) meta = read_headers lines (read_header line meta)

-- text.rstrip("\n")
abbrev pub rstrip_newlines : Text → Text
rstrip_newlines t = rstrip_by (λ c. eqb c 10) t

-- the parts of the text between fences: two fences are required, the first at the start
unfoldable pub parse_parts : List Text → Result LetterError Letter
parse_parts ([] ∷ front ∷ part ∷ parts) = ok (record {
  meta = read_headers (splitlines front) [];
  body = rstrip_newlines (join_text fence (part ∷ parts));
})
parse_parts _ = err malformed_letter

-- the text of a file into a letter, in `resolve`
unfoldable pub parse : Text → Result LetterError Letter
parse text = parse_parts (split_text fence (universal_newlines text))

-- what reading a file gives
pub data LetterFile : Type 0 where
  text : Text → LetterFile
  unreadable undecodable : LetterFile

abbrev pub Directory : Type 0
Directory = TextDict LetterFile

unfoldable pub read_file : LetterFile → Result LetterError Letter
read_file (text t) = parse t
read_file unreadable = err os_error
read_file undecodable = err decode_error

-- resolve(inbox, letter_id)
unfoldable pub resolve : Directory → Text → Result LetterError Letter
resolve inbox id =
    if not (is_safe_id id)
    then err unsafe_identifier
    else elim (TextDict.get id inbox) [ none ↦ err no_such_letter | some f ↦ read_file f ]
