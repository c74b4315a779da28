-- ===== src/Letter/Examples.antt =====
-- A letter at concrete values: written, read back, and delivered twice.
use agent_letter_bridge.Prelude.{
  ◌≡◌, ◌⊎◌, refl, sym, subst, inl, inr, true, Option, none, some, [], ◌∷◌, ok, any_of,
}
use agent_letter_bridge.Prelude.Text.{
  Text, codes, eq_text, starts_with, partition, splitlines, strip, is_space, is_break,
}
use agent_letter_bridge.Prelude.TextDict
use agent_letter_bridge.Prelude.TextDict.{Distinct}
use agent_letter_bridge.Letter.{
  Meta, Letter, serialise, ordered, pick, others, header_line, header_lines, parse, resolve,
  is_safe_id, Directory, text, read_file, universal_newlines, split_text, parse_parts, join_text,
  read_headers, read_header,
}
use agent_letter_bridge.Letter.Format.{ends_dashes}
use agent_letter_bridge.Letter.Headers.{AllPlain}
use agent_letter_bridge.Letter.RoundTrip.{parse-serialise, read_body}
use agent_letter_bridge.Letter.Store.{
  Mint, Post, publish_once, publish_unless, publish, find_by_update, load_delivered,
  record_delivered, last_entries, letter_id, stamped, searched_or, first_verified, candidates,
  sort_names, leb_text, is_for_update,
}
use agent_letter_bridge.Letter.Store.Search.{Among, Records}
use agent_letter_bridge.Letter.Store.Once.{
  final_meta, IsWritable, Published, publish_once_lem, redelivery_publishes_nothing,
}

abbrev token : Text → Text
token t = codes "abc123"

abbrev mint : Mint
mint = record {
  stamp = codes "2026-01-02T101112";
  sent = codes "2026-01-02T10:11:12Z";
  unique = codes "00c0ffee";
}

abbrev update : Text
update = codes "77"

abbrev body : Text
body = codes "see below\n---\nfrom: nobody\n"

abbrev meta : Meta
meta =
    (codes "id", [])
    ∷ (codes "correspondent", codes "c1")
    ∷ (codes "from", codes "telegram-bridge")
    ∷ []

meta-Distinct : Distinct meta
unfolding TextDict.get eq_text
meta-Distinct = (refl, (refl, (refl, tt)))

meta-AllPlain : AllPlain meta
unfolding strip is_space is_break ends_dashes eq_text
meta-AllPlain = (
  record {
    key_line = refl;
    key_colon = refl;
    key_strip = refl;
    value_line = refl;
    value_strip = refl;
    value_end = refl;
  },
  (
    record {
      key_line = refl;
      key_colon = refl;
      key_strip = refl;
      value_line = refl;
      value_strip = refl;
      value_end = refl;
    },
    (
      record {
        key_line = refl;
        key_colon = refl;
        key_strip = refl;
        value_line = refl;
        value_strip = refl;
        value_end = refl;
      },
      tt,
    ),
  ),
)

parse-serialise_example :
    (letter : Letter) × (parse (serialise meta body) ≡ ok letter)
    × ((k : Text) → TextDict.get k letter.meta ≡ TextDict.get k meta)
    × (letter.body ≡ read_body body)
parse-serialise_example = parse-serialise meta body meta-Distinct meta-AllPlain

abbrev id : Text
id = codes "2026-01-02T101112-00c0ffee-uabc123"

abbrev stamped_meta : Meta
stamped_meta =
    (codes "id", id)
    ∷ (codes "correspondent", codes "c1")
    ∷ (codes "from", codes "telegram-bridge")
    ∷ (codes "source_id", update)
    ∷ (codes "sent", codes "2026-01-02T10:11:12Z")
    ∷ []

stamps : final_meta token mint update meta ≡ stamped_meta
unfolding stamped letter_id TextDict.put TextDict.get TextDict.has eq_text
stamps = refl

writable : IsWritable token mint update meta
unfolding letter_id is_safe_id
writable = record {
  safe = refl;
  distinct =
      subst Distinct (sym stamps)
        (unfold TextDict.get eq_text in (refl, (refl, (refl, (refl, (refl, tt))))));
  plain = subst AllPlain (sym stamps) (
      unfold strip is_space is_break ends_dashes eq_text in
      (
        record {
          key_line = refl;
          key_colon = refl;
          key_strip = refl;
          value_line = refl;
          value_strip = refl;
          value_end = refl;
        },
        (
          record {
            key_line = refl;
            key_colon = refl;
            key_strip = refl;
            value_line = refl;
            value_strip = refl;
            value_end = refl;
          },
          (
            record {
              key_line = refl;
              key_colon = refl;
              key_strip = refl;
              value_line = refl;
              value_strip = refl;
              value_end = refl;
            },
            (
              record {
                key_line = refl;
                key_colon = refl;
                key_strip = refl;
                value_line = refl;
                value_strip = refl;
                value_end = refl;
              },
              (
                record {
                  key_line = refl;
                  key_colon = refl;
                  key_strip = refl;
                  value_line = refl;
                  value_strip = refl;
                  value_end = refl;
                },
                tt,
              ),
            ),
          ),
        ),
      ));
}

abbrev empty : Post
empty = record { inbox = []; ledger = none }

abbrev delivered : Post
delivered = record {
  inbox = (id, text (serialise (final_meta token mint update meta) body)) ∷ [];
  ledger = some (update ∷ []);
}

delivers : publish_once token mint 1000 empty [] update body meta ≡ ok (some id, delivered)
unfolding publish_once publish_unless publish find_by_update load_delivered record_delivered
    last_entries first_verified candidates sort_names letter_id TextDict.put TextDict.has
    TextDict.get eq_text
delivers = refl

publish_once_lem_example :
    ((i : Text) × (some id ≡ some i) × Published token mint empty delivered update body meta i)
    ⊎ ((some id ≡ none)
        × (delivered.inbox ≡ empty.inbox)
        × ((any_of (eq_text update) (load_delivered empty.ledger) ≡ true)
            ⊎ ((d : Directory) × (i : Text) × Among d (searched_or empty.inbox [])
                × Records update d i)))
publish_once_lem_example =
    publish_once_lem token mint 1000 empty delivered [] update body meta (some id) writable delivers

-- the crash came before the ledger was written, and the letter was swept
abbrev crashed : Post
crashed = record { inbox = []; ledger = none }

abbrev again : Post
again = record { inbox = []; ledger = some (update ∷ []) }

delivers_nothing :
    publish_once token mint 1000 crashed ([] ∷ delivered.inbox ∷ []) update (codes "again") meta
    ≡ ok (none, again)
unfolding publish_once publish_unless find_by_update load_delivered record_delivered last_entries
    first_verified candidates sort_names leb_text resolve is_safe_id read_file is_for_update parse
    serialise universal_newlines split_text parse_parts join_text read_headers read_header
    starts_with partition splitlines strip is_space ordered pick others header_line header_lines
    stamped letter_id TextDict.put TextDict.has TextDict.get eq_text
delivers_nothing = refl

redelivery_publishes_nothing_example :
    (◌≡◌ {A = Option Text} none none) × (again.inbox ≡ crashed.inbox)
redelivery_publishes_nothing_example =
    redelivery_publishes_nothing token mint 1000 empty delivered [] update body meta id mint 1000
      crashed again ([] ∷ delivered.inbox ∷ []) (codes "again") meta delivered.inbox none writable
      delivers (inr (inl refl)) refl delivers_nothing
