-- ===== src/Ids.antt =====
-- alb/initiate/ids.py: the id of an initiated letter and the digest of its payload. Parameters:
-- `encode`, a text as UTF-8 bytes, and `sha256`, the hex digest of bytes. A byte is a number.
pub mod Prefixes
mod Examples
use agent_letter_bridge.Prelude.{
  append, ℕ, ◌+◌, ◌*◌, ◌/◌, ◌%◌, ◌^◌, String, Bool, true, false, not, ◌&&◌, ◌||◌, List, [], ◌∷◌,
  ◌++◌, Option, none, some, Result, ok, err, ◌>>=◌, ◌>>◌, require, leb, ltb, eqb, ◌==◌, length,
  if◌then◌else◌,
}
use agent_letter_bridge.Prelude.Text.{Text, codes, all_chars, starts_with, lacks, strip, eq_text}
use agent_letter_bridge.Prelude.Number.{is_digit}
use agent_letter_bridge.Json.{Json, str, truthy}
use agent_letter_bridge.Grant.{PolicyError, safe_id}

abbrev pub Bytes : Type 0
Bytes = List ℕ

-- UsageError, and the other exceptions that these functions raise
pub data UsageError : Type 0 where
  usage overflow : UsageError
  bad_grant_id : PolicyError → UsageError

-- n.to_bytes(4, "big")
unfoldable pub to_bytes : ℕ → Result UsageError Bytes
to_bytes n =
    if ltb n (2 ^ 32)
    then ok (n / 2 ^ 24 % 256 ∷ n / 2 ^ 16 % 256 ∷ n / 2 ^ 8 % 256 ∷ n % 256 ∷ [])
    else err overflow

-- length_prefixed(*parts)
unfoldable pub length_prefixed : (String → Bytes) → List Json → Result UsageError Bytes
length_prefixed encode [] = ok []
length_prefixed encode (str part ∷ parts) = do
  size ← to_bytes (length (encode part))
  out ← length_prefixed encode parts
  ok (size ++ (encode part ++ out))
length_prefixed encode (v ∷ parts) = err usage

abbrev pub is_letter_or_digit : ℕ → Bool
is_letter_or_digit c =
    (leb b'A' c && leb c b'Z') || ((leb b'a' c && leb c b'z') || (leb b'0' c && leb c b'9'))

abbrev pub is_intent_char : ℕ → Bool
is_intent_char c =
    is_letter_or_digit c || ((eqb c b'.' || eqb c b'_') || (eqb c b':' || eqb c b'-'))

-- `_INTENT_RE.fullmatch`
unfoldable pub is_intent : Text → Bool
is_intent [] = false
is_intent (c ∷ t) = is_letter_or_digit c && (all_chars is_intent_char t && leb (length t) 127)

-- check_intent(intent_id)
unfoldable pub check_intent : Json → Result UsageError String
check_intent (str s) = if is_intent (codes s) then ok s else err usage
check_intent _ = err usage

abbrev lift_policy : Result PolicyError String → Result UsageError String
lift_policy (ok s) = ok s
lift_policy (err e) = err (bad_grant_id e)

-- `_RAW_CHAT.fullmatch`, for ASCII digits: a label of other digits is refused by `_LABEL_RE` just so
unfoldable pub is_raw_chat : Text → Bool
is_raw_chat [] = false
is_raw_chat (c ∷ []) = is_digit c
is_raw_chat (c ∷ d ∷ t) = (eqb c b'-' || is_digit c) && all_chars is_digit (d ∷ t)

abbrev pub is_label_char : ℕ → Bool
is_label_char c = is_letter_or_digit c || (eqb c b'_' || eqb c b'-')

abbrev pub is_letter : ℕ → Bool
is_letter c = (leb b'A' c && leb c b'Z') || (leb b'a' c && leb c b'z')

-- `_LABEL_RE.fullmatch`
unfoldable pub is_label : Text → Bool
is_label [] = false
is_label (c ∷ t) = is_letter c && (all_chars is_label_char t && leb (length t) 63)

abbrev pub is_raw_destination : Text → Bool
is_raw_destination t = is_raw_chat t || (not (lacks b':' t) || starts_with (b'@' ∷ []) t)

-- check_label(label)
unfoldable pub check_label : Json → Result UsageError String
check_label (str s) =
    if eq_text (codes s) []
    then err usage
    else if is_raw_destination (codes s)
    then err usage
    else if is_label (codes s)
    then ok s
    else err usage
check_label _ = err usage

-- check_reason(reason)
unfoldable pub check_reason : Json → Result UsageError String
check_reason (str s) = if eq_text (strip (codes s)) [] then err usage else ok s
check_reason _ = err usage

-- route_ref(grant_id, binding_key): the first 16 hex digits
unfoldable pub route_ref : (Text → String) → Json → Json → Result UsageError String
route_ref digest16 grant_id binding = do
  gid ← lift_policy (safe_id (some grant_id))
  key ← text_key binding
  ok (digest16 (codes "route" ++ (codes gid ++ codes key)))
  where
    text_key : Json → Result UsageError String
    text_key (str s) = if s == "" then err usage else ok s
    text_key _ = err usage

-- payload_digest(…), as the bytes that are hashed
unfoldable pub payload_bytes :
    (String → Bytes)
    → String
    → String
    → String
    → String
    → Json
    → String
    → Json
    → Result UsageError Bytes
payload_bytes encode body kind seat intent binding reason photo = length_prefixed encode (
    str body
    ∷ str kind
    ∷ str seat
    ∷ str intent
    ∷ binding
    ∷ str reason
    ∷ (if truthy photo then photo ∷ [] else []))

-- payload_digest(…)
unfoldable pub payload_digest :
    (String → Bytes)
    → (Bytes → String)
    → String
    → String
    → String
    → String
    → Json
    → String
    → Json
    → Result UsageError String
payload_digest encode sha256 body kind seat intent binding reason photo = do
  bytes ← payload_bytes encode body kind seat intent binding reason photo
  ok (sha256 bytes)

-- outbound_id(grant_id, seat, intent_id)
unfoldable pub outbound_id :
    (String → Bytes) → (Bytes → String) → Json → Json → Json → Result UsageError String
outbound_id encode sha256 grant_id seat intent = do
  gid ← lift_policy (safe_id (some grant_id))
  s ← text_seat seat
  i ← check_intent intent
  bytes ← length_prefixed encode (str gid ∷ str s ∷ str i ∷ [])
  ok (append "v1-" (sha256 bytes))
  where
    text_seat : Json → Result UsageError String
    text_seat (str s) = if s == "" then err usage else ok s
    text_seat _ = err usage
