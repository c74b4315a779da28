-- ===== src/MsgIndex/Origins.antt =====
-- The origins of a letter are the chats that it was recorded from.
use agent_letter_bridge.Prelude.{
  String, ◌≡◌, ◌≢◌, refl, ap, true, ◌&&◌, List, [], ◌∷◌, ◌++◌, Option, none, some, ◌==◌,
  if◌then◌else◌, arith,
}
use agent_letter_bridge.Prelude.Text.{Text, eq_text, partition-append, lacks}
use agent_letter_bridge.MsgIndex.{
  Table, key, record_message, lookup, origin_in, origins_of, add_origin,
}
use agent_letter_bridge.MsgIndex.Keys.{rpartition-append}

origins_of-append :
    (platform : Text) (letter : String) (t : Table) (k : Text) (v : String)
    → origins_of platform letter (t ++ (k, v) ∷ [])
      ≡ origins_of platform letter t ++ add_origin (origin_in platform letter k v) []
unfolding origins_of
origins_of-append platform letter [] k v = refl
origins_of-append platform letter ((j, w) ∷ t) k v =
    go (origin_in platform letter j w) (origins_of-append platform letter t k v)
  where
    go :
        (o : Option Text)
        → origins_of platform letter (t ++ (k, v) ∷ [])
          ≡ origins_of platform letter t ++ add_origin (origin_in platform letter k v) []
        → add_origin o (origins_of platform letter (t ++ (k, v) ∷ []))
          ≡ add_origin o (origins_of platform letter t)
            ++ add_origin (origin_in platform letter k v) []
    go none ih = ih
    go (some o) ih = ap (λ (l : List Text). o ∷ l) ih

origin_in-key :
    (q : Text) (asked : String) (p o m : Text) (letter : String)
    → lacks b'|' p ≡ true
    → lacks b'|' m ≡ true
    → o ≢ []
    → origin_in q asked (key p o m) letter
      ≡ (if (letter == asked) && eq_text p q then some o else none)
unfolding origin_in key eq_text
origin_in-key q asked p [] m letter hp hm n = absurd (n refl)
origin_in-key q asked p (c ∷ o) m letter hp hm n =
    rw (partition-append b'|' p ((c ∷ o) ++ b'|' ∷ m) hp)
      (rw (rpartition-append b'|' (c ∷ o) m hm) (ground arith))

-- A first record of a letter adds its origin to what is found for that letter on that platform, and
-- changes nothing for another letter or another platform. The origin and the message id are not
-- empty, and neither the platform nor the message id carries a bar.
pub origins_of-record :
    (q : Text) (asked : String) (p o m : Text) (letter : String) (t : Table)
    → lacks b'|' p ≡ true
    → lacks b'|' m ≡ true
    → o ≢ []
    → m ≢ []
    → lookup p o m t ≡ none
    → origins_of q asked (record_message p o m letter t) ≡ (
        if (letter == asked) && eq_text p q
        then origins_of q asked t ++ o ∷ []
        else origins_of q asked t ++ [])
unfolding record_message lookup
origins_of-record q asked p o [] letter t hp hm n k h = absurd (k refl)
origins_of-record q asked p o (c ∷ m) letter t hp hm n k h = ground (
  arith,
  h,
  origins_of-append q asked t (key p o (c ∷ m)) letter,
  origin_in-key q asked p o (c ∷ m) letter hp hm n,
)
