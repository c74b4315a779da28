-- ===== src/Allowlist/Gate.antt =====
-- The gate opens for listed chats only, and the setup's question has the gate's answer.
use agent_letter_bridge.Prelude.{
  String, ◌≡◌, ◌↔◌, ◌⊎◌, refl, true, List, [], ◌∷◌, ok, ◌==◌, any_of, arith, eq_refl, eq_iff,
  Option, some, inl, inr, Bool-cases, subst,
}
use agent_letter_bridge.Prelude.Dict
use agent_letter_bridge.Json.{
  Json, Fields, Items, str, arr, obj, null, bool, int, float, fields_dict, items_list,
}
use agent_letter_bridge.Allowlist.{
  AllowFile, no_file, undecodable, not_json, holds, as_text, chats_of, allows, permits_anyone,
}

-- A text is written as it is, any other value as `text_of` reads it.
abbrev pub Spells : (Json → String) → Json → String → Type 0
Spells text_of (str t) s = t ≡ s
Spells text_of v s = text_of v ≡ s

-- An entry of the list and the value are the same text.
abbrev pub Named : (Json → String) → Json → List Json → Type 0
Named text_of chat [] = ⊥
Named text_of chat (c ∷ cs) =
    ((s : String) × Spells text_of c s × Spells text_of chat s) ⊎ Named text_of chat cs

-- The file holds a dict with the key "chats", whose value is a list that names the chat.
pub record Lists (text_of : Json → String) (file : AllowFile) (chat : Json) : Type 0 where
  pub fields : Fields
  pub entries : Items
  pub is_held : file ≡ holds (obj fields)
  pub listed : Dict.get "chats" (fields_dict fields) ≡ some (arr entries)
  pub named : Named text_of chat (items_list entries)

Spells-as_text : (text_of : Json → String) (v : Json) → Spells text_of v (as_text text_of v)
Spells-as_text text_of (str t) = refl
Spells-as_text text_of null = refl
Spells-as_text text_of (bool b) = refl
Spells-as_text text_of (int n) = refl
Spells-as_text text_of (float x) = refl
Spells-as_text text_of (arr xs) = refl
Spells-as_text text_of (obj fs) = refl

as_text-Spells :
    (text_of : Json → String) (v : Json) (s : String) → Spells text_of v s → as_text text_of v ≡ s
as_text-Spells text_of (str t) s h = h
as_text-Spells text_of null s h = h
as_text-Spells text_of (bool b) s h = h
as_text-Spells text_of (int n) s h = h
as_text-Spells text_of (float x) s h = h
as_text-Spells text_of (arr xs) s h = h
as_text-Spells text_of (obj fs) s h = h

any_of-Named :
    (text_of : Json → String) (chat : Json) (cs : List Json)
    → any_of (λ (c : Json). as_text text_of c == as_text text_of chat) cs ≡ true
    → Named text_of chat cs
any_of-Named text_of chat [] h = absurd (ground arith)
any_of-Named text_of chat (c ∷ cs) h =
    elim (Bool-cases (as_text text_of c == as_text text_of chat)) [
      | inl e ↦ inl (
        as_text text_of chat,
        subst (Spells text_of c) ((eq_iff (as_text text_of c) (as_text text_of chat)).0 e)
            (Spells-as_text text_of c),
        Spells-as_text text_of chat,
      )
      | inr e ↦ inr (any_of-Named text_of chat cs (ground (arith, e, h)))
    ]

Named-any_of :
    (text_of : Json → String) (chat : Json) (cs : List Json)
    → Named text_of chat cs
    → any_of (λ (c : Json). as_text text_of c == as_text text_of chat) cs ≡ true
Named-any_of text_of chat [] h = elim h [ ]
Named-any_of text_of chat (c ∷ cs) (inl (s, a, b)) = ground (
  arith,
  as_text-Spells text_of c s a,
  as_text-Spells text_of chat s b,
  eq_iff (as_text text_of c) (as_text text_of chat),
)
Named-any_of text_of chat (c ∷ cs) (inr h) = ground (arith, Named-any_of text_of chat cs h)

module _ (text_of : Json → String) where
  chats_of-listed :
      (fs : Fields) (xs : Items)
      → Dict.get "chats" (fields_dict fs) ≡ some (arr xs)
      → chats_of (obj fs) ≡ items_list xs
  unfolding chats_of
  chats_of-listed fs xs h = ground (arith, h)

  listed-Lists :
      (chat : Json) (fs : Fields) (o : Option Json)
      → Dict.get "chats" (fields_dict fs) ≡ o
      → allows text_of (holds (obj fs)) chat ≡ ok true
      → Lists text_of (holds (obj fs)) chat
  unfolding allows
  listed-Lists chat fs (some (arr xs)) e h = record {
    fields = fs;
    entries = xs;
    is_held = refl;
    listed = e;
    named = any_of-Named text_of chat (items_list xs) (ground (arith, h, chats_of-listed fs xs e));
  }
  listed-Lists chat fs o e h = absurd (unfold chats_of in ground (arith, e, h))

  -- The gate opens for a chat exactly where the file holds a dict with a list at "chats", an entry of
  -- which is the same text as the chat; a value that is no text stands for the text that `str`
  -- makes of it.
  pub allows_iff :
      (file : AllowFile) (chat : Json)
      → (allows text_of file chat ≡ ok true) ↔ Lists text_of file chat
  unfolding allows
  allows_iff file chat = (opened file, λ l. closed file l)
    where
      opened : (f : AllowFile) → allows text_of f chat ≡ ok true → Lists text_of f chat
      opened no_file h = absurd (ground arith)
      opened undecodable h = absurd (ground arith)
      opened not_json h = absurd (ground arith)
      opened (holds (obj fs)) h = listed-Lists chat fs (Dict.get "chats" (fields_dict fs)) refl h
      opened (holds d) h = absurd (unfold chats_of in ground (arith, h))

      closed : (f : AllowFile) → Lists text_of f chat → allows text_of f chat ≡ ok true
      closed f l = rw l.is_held (
          rw (chats_of-listed l.fields l.entries l.listed)
            (rw (Named-any_of text_of chat (items_list l.entries) l.named) refl))

  permits_some :
      (cs : List Json) (f : AllowFile) (d : Json)
      → f ≡ holds d
      → chats_of d ≡ cs
      → permits_anyone f ≡ true
      → (c : Json) × (allows text_of f c ≡ ok true)
  unfolding allows permits_anyone
  permits_some [] f d e g h = absurd (ground (arith, e, g))
  permits_some (c ∷ cs) f d e g h = (c, ground (arith, e, g, eq_refl (as_text text_of c)))

  some_permits :
      (f : AllowFile) (c d : Json) (cs : List Json)
      → f ≡ holds d
      → chats_of d ≡ cs
      → Named text_of c cs
      → permits_anyone f ≡ true
  unfolding permits_anyone
  some_permits f c d [] e g n = elim n [ ]
  some_permits f c d (x ∷ cs) e g n = ground (arith, e, g)

  some_chat :
      (f : AllowFile) → permits_anyone f ≡ true → (chat : Json) × (allows text_of f chat ≡ ok true)
  unfolding permits_anyone
  some_chat no_file h = absurd (ground arith)
  some_chat undecodable h = absurd (ground arith)
  some_chat not_json h = absurd (ground arith)
  some_chat (holds d) h = permits_some (chats_of d) (holds d) d refl refl h

  -- The setup's question is answered with yes exactly where the gate opens for some chat.
  pub permits_anyone_iff :
      (file : AllowFile)
      → (permits_anyone file ≡ true) ↔ ((chat : Json) × (allows text_of file chat ≡ ok true))
  permits_anyone_iff file = (
    some_chat file,
    λ found.
        let l = (allows_iff file found.0).0 found.1 in
        some_permits file found.0 (obj l.fields) (items_list l.entries) l.is_held
          (chats_of-listed l.fields l.entries l.listed) l.named,
  )
