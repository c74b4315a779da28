-- ===== src/Letter/RoundTrip.antt =====
-- What is serialised is read back.
use agent_letter_bridge.Prelude.{
  ◌≡◌, ◌≢◌, refl, sym, ap, ◌∙◌, true, false, Option, none, some, List, [], ◌∷◌, ◌++◌, append-nil,
  ok, arith,
}
use agent_letter_bridge.Prelude.Text.{Text, lacks, splitlines, eq_text}
use agent_letter_bridge.Prelude.TextDict
use agent_letter_bridge.Prelude.TextDict.{Distinct, get-update, get-nil}
use agent_letter_bridge.Letter.{
  Meta, Letter, fence, ordered, header_lines, serialise, cut, split_text, join_text, newlines_from,
  universal_newlines, read_headers, parse, parse_parts, rstrip_newlines,
}
use agent_letter_bridge.Letter.Format.{
  newlines-append, IsFree, cut-IsFree, cut-fence, cut-ne-nil, join-split,
}
use agent_letter_bridge.Letter.Headers.{
  AllPlain, get-ordered, Distinct-ordered, AllPlain-ordered, header_lines-IsFree,
  header_lines-no_cr, read_headers-lines,
}

-- the body as it is read: line ends made uniform, and none at the end
abbrev pub read_body : Text → Text
read_body body = rstrip_newlines (newlines_from false (body ++ 10 ∷ []))

newlines-serialise :
    (meta : Meta) (body : Text)
    → AllPlain (ordered meta)
    → newlines_from false (serialise meta body)
      ≡ fence ++ (header_lines (ordered meta) ++ (fence ++ newlines_from false (body ++ 10 ∷ [])))
unfolding serialise
newlines-serialise meta body a =
    newlines-append fence (header_lines (ordered meta) ++ (fence ++ (body ++ 10 ∷ []))) refl
    ∙ ap (λ (t : Text). fence ++ t)
        (newlines-append (header_lines (ordered meta)) (fence ++ (body ++ 10 ∷ []))
            (header_lines-no_cr (ordered meta) a)
          ∙ ap (λ (t : Text). header_lines (ordered meta) ++ t)
              (newlines-append fence (body ++ 10 ∷ []) refl))

-- the parts of a text after its header
parts_after :
    (head rest : Text) (ps : List Text)
    → cut fence 0 rest ≡ ps
    → ps ≢ []
    → parse_parts ([] ∷ head ∷ ps)
      ≡ ok (record {
        meta = read_headers (splitlines head) [];
        body = rstrip_newlines (join_text fence (cut fence 0 rest));
      })
unfolding parse_parts
parts_after head rest [] e n = absurd (n refl)
parts_after head rest (p ∷ ps) e n =
    ap
      (λ (qs : List Text). ok (record {
        meta = read_headers (splitlines head) [];
        body = rstrip_newlines (join_text fence qs);
      }))
      (sym e)

parse-fenced :
    (head rest : Text)
    → IsFree head (fence ++ rest)
    → parse_parts (cut fence 0 (fence ++ (head ++ (fence ++ rest))))
      ≡ ok (record { meta = read_headers (splitlines head) []; body = rstrip_newlines rest })
parse-fenced head rest f =
    ap parse_parts (
      cut-fence (head ++ (fence ++ rest))
      ∙ ap (λ (ps : List Text). [] ∷ ps)
          (cut-IsFree head (fence ++ rest) [] (cut fence 0 rest) f (cut-fence rest)
            ∙ ap (λ (h : Text). h ∷ cut fence 0 rest) (append-nil head)))
    ∙ (parts_after head rest (cut fence 0 rest) refl (cut-ne-nil 0 rest)
        ∙ ap
            (λ (b : Text).
              ok (record { meta = read_headers (splitlines head) []; body = rstrip_newlines b }))
            (join-split rest))

parse-serialise_ordered :
    (meta : Meta) (body : Text)
    → AllPlain meta
    → parse (serialise meta body)
      ≡ ok (record { meta = TextDict.update [] (ordered meta); body = read_body body })
unfolding parse universal_newlines split_text
parse-serialise_ordered meta body a =
    ap (λ (t : Text). parse_parts (cut fence 0 t))
      (newlines-serialise meta body (AllPlain-ordered meta a))
    ∙ (parse-fenced (header_lines (ordered meta)) (newlines_from false (body ++ 10 ∷ []))
          (header_lines-IsFree (ordered meta) _ (AllPlain-ordered meta a))
        ∙ ap (λ (m : Meta). ok (record { meta = m; body = read_body body }))
            (read_headers-lines (ordered meta) [] (AllPlain-ordered meta a)))

-- A serialised letter is read back as a letter with every field of its header and no other, and with
-- its body up to line ends. The header has no key twice, and each field is plain: no line break and
-- no blanks at its ends, no colon in a key, and no value that ends with three dashes. The body is any
-- text, fences and header lines included.
pub parse-serialise :
    (meta : Meta) (body : Text)
    → Distinct meta
    → AllPlain meta
    → (letter : Letter) × (parse (serialise meta body) ≡ ok letter)
      × ((k : Text) → TextDict.get k letter.meta ≡ TextDict.get k meta)
      × (letter.body ≡ read_body body)
parse-serialise meta body d a = (
  record { meta = TextDict.update [] (ordered meta); body = read_body body },
  parse-serialise_ordered meta body a,
  λ k.
      get-update k [] (ordered meta) (Distinct-ordered meta d)
      ∙ go k (TextDict.get k (ordered meta)) (get-ordered k meta),
  refl,
)
  where
    go :
        (k : Text) (o : Option Text)
        → o ≡ TextDict.get k meta
        → elim o as (λ _. Option Text) [ some v ↦ some v | none ↦ TextDict.get k [] ]
          ≡ TextDict.get k meta
    go k none e = get-nil k ∙ e
    go k (some v) e = e

rstrip_newlines-newline : (t : Text) → rstrip_newlines (t ++ 10 ∷ []) ≡ rstrip_newlines t
unfolding eq_text
rstrip_newlines-newline [] = refl
rstrip_newlines-newline (c ∷ t) = ground (arith, rstrip_newlines-newline t)

-- A body without carriage returns is read back without the line ends at its end, and whole where it
-- has none there.
pub read_body-plain : (body : Text) → lacks 13 body ≡ true → read_body body ≡ rstrip_newlines body
unfolding newlines_from
read_body-plain body h =
    ap rstrip_newlines (newlines-append body (10 ∷ []) h) ∙ rstrip_newlines-newline body
