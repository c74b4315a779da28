-- ===== src/Outbound/Identity.antt =====
-- correspondent_key of alb/outbound/store.py: the opaque key of an external principal. `derive` is the
-- truncated SHA-256 of the salt and the origin, `minted` a salt that is made where none can be used.
-- Reading and writing under the lock is one step.
use agent_letter_bridge.Prelude.{
  ◌≡◌, refl, sym, ap, ◌∙◌, Option, none, some, [], ◌∷◌, ◌++◌, Result, ok, err, ◌>>=◌, >>=-eq-ok,
  ◌⊎◌, Bool-cases, if◌then◌else◌, inl, inr,
}
use agent_letter_bridge.Prelude.Text.{Text, eq_text, eq_text_refl, eq_text→eq}
use agent_letter_bridge.Prelude.TextDict
use agent_letter_bridge.Prelude.TextDict.{TextDict, get-put}

-- what _read_valid_salt makes of the file: `unusable` is one that is refused, never replaced
pub data SaltFile : Type 0 where
  missing unusable malformed : SaltFile
  salt : Text → SaltFile

-- what _load_map makes of the map
pub data MapFile : Type 0 where
  no_map corrupt : MapFile
  table : TextDict Text → MapFile

pub record Identities : Type 0 where
  pub salt_file : SaltFile
  pub map : MapFile

pub data IdentityError : Type 0 where
  salt_unusable map_corrupt : IdentityError

-- _load_map
unfoldable pub load_map : MapFile → Result IdentityError (TextDict Text)
load_map no_map = ok []
load_map corrupt = err map_corrupt
load_map (table t) = ok t

-- _correspondent_salt: the salt, and the file after it
unfoldable pub correspondent_salt : Text → SaltFile → Result IdentityError (Text × SaltFile)
correspondent_salt minted missing = ok (minted, salt minted)
correspondent_salt minted malformed = ok (minted, salt minted)
correspondent_salt minted unusable = err salt_unusable
correspondent_salt minted (salt s) = ok (s, salt s)

-- `f"{platform}:{origin_chat}"`
abbrev pub origin_of : Text → Text → Text
origin_of platform chat = platform ++ b':' ∷ chat

abbrev derive_key :
    (Text → Text → Text) → Text → Text → TextDict Text → Text × SaltFile → Text × Identities
derive_key derive minted origin t (s, file) = (
  derive s origin,
  record { salt_file = file; map = table (TextDict.put origin (derive s origin) t) },
)

abbrev key_in :
    (Text → Text → Text)
    → Text
    → Text
    → Identities
    → TextDict Text
    → Option Text
    → Result IdentityError (Text × Identities)
key_in derive minted origin i t (some key) = ok (key, i)
key_in derive minted origin i t none = do
  salted ← correspondent_salt minted i.salt_file
  ok (derive_key derive minted origin t salted)

-- correspondent_key(state, origin_chat, platform)
unfoldable pub correspondent_key :
    (Text → Text → Text)
    → Text
    → Text
    → Text
    → Identities
    → Result IdentityError (Text × Identities)
correspondent_key derive minted platform chat i = do
  t ← load_map i.map
  key_in derive minted (origin_of platform chat) i t (TextDict.get (origin_of platform chat) t)

-- The map holds the key of the origin.
abbrev Holds : Text → Text → Identities → Type 0
Holds origin key i =
    (t : TextDict Text) × (load_map i.map ≡ ok t) × (TextDict.get origin t ≡ some key)

-- A successful call found the key, or wrote it.
abbrev Called : Text → Text → Identities → Identities → TextDict Text → Type 0
Called origin key i i' t =
    ((TextDict.get origin t ≡ some key) × (i ≡ i'))
    ⊎ ((TextDict.get origin t ≡ none) × (i'.map ≡ table (TextDict.put origin key t)))

abbrev ok_key : Text × Identities → Result IdentityError (Text × Identities)
ok_key r = ok r

call_lem :
    (derive : Text → Text → Text) (minted platform chat key : Text) (i i' : Identities)
    → correspondent_key derive minted platform chat i ≡ ok (key, i')
    → (t : TextDict Text) × (load_map i.map ≡ ok t) × Called (origin_of platform chat) key i i' t
unfolding correspondent_key
call_lem derive minted platform chat key i i' h =
    let (t, l, h) = >>=-eq-ok (load_map i.map) _ h in
    (t, l, go t (TextDict.get (origin_of platform chat) t) refl h)
  where
    wrote :
        (t : TextDict Text) (salted : Text × SaltFile)
        → ok_key (derive_key derive minted (origin_of platform chat) t salted) ≡ ok (key, i')
        → i'.map ≡ table (TextDict.put (origin_of platform chat) key t)
    wrote t (s, file) e =
        let same : derive_key derive minted (origin_of platform chat) t (s, file) ≡ (key, i') =
          cc (e) in
        sym (ap (λ r. r.1.map) same)
        ∙ ap (λ r. table (TextDict.put (origin_of platform chat) r.0 t)) same

    go :
        (t : TextDict Text) (o : Option Text)
        → TextDict.get (origin_of platform chat) t ≡ o
        → key_in derive minted (origin_of platform chat) i t o ≡ ok (key, i')
        → Called (origin_of platform chat) key i i' t
    go t (some k) g e = inl (g ∙ cc (e), cc (e))
    go t none g e =
        let (salted, q, e) = >>=-eq-ok (correspondent_salt minted i.salt_file) _ e in
        inr (g, wrote t salted e)

call-Holds :
    (derive : Text → Text → Text) (minted platform chat key : Text) (i i' : Identities)
    → correspondent_key derive minted platform chat i ≡ ok (key, i')
    → Holds (origin_of platform chat) key i'
unfolding load_map
call-Holds derive minted platform chat key i i' h =
    let (t, l, c) = call_lem derive minted platform chat key i i' h in
    elim c [
      | inl (g, same) ↦ (t, ap (λ x. load_map x.map) (sym same) ∙ l, g)
      | inr (g, m) ↦ (
        TextDict.put (origin_of platform chat) key t,
        ap load_map m,
        get-put (origin_of platform chat) (origin_of platform chat) key t
            ∙ rw (eq_text_refl (origin_of platform chat)) refl,
      )
    ]

kept-Holds :
    (derive : Text → Text → Text) (minted platform chat key : Text) (i i' : Identities)
    (origin k : Text)
    → correspondent_key derive minted platform chat i ≡ ok (key, i')
    → Holds origin k i
    → Holds origin k i'
unfolding load_map
kept-Holds derive minted platform chat key i i' origin k h (t₁, l₁, g₁) =
    let (t, l, c) = call_lem derive minted platform chat key i i' h in
    let same_map : t₁ ≡ t = cc (l, l₁) in
    let g : TextDict.get origin t ≡ some k = ap (TextDict.get origin) (sym same_map) ∙ g₁ in
    elim c [
      | inl (_, same) ↦ (t, ap (λ x. load_map x.map) (sym same) ∙ l, g)
      | inr (n, m) ↦ (
        TextDict.put (origin_of platform chat) key t,
        ap load_map m,
        get-put origin (origin_of platform chat) key t ∙ other t (origin_of platform chat) g n,
      )
    ]
  where
    other :
        (t : TextDict Text) (o : Text)
        → TextDict.get origin t ≡ some k
        → TextDict.get o t ≡ none
        → (if eq_text o origin then some key else TextDict.get origin t) ≡ some k
    other t o g n = elim (Bool-cases (eq_text o origin)) [
      | inl e ↦ absurd (cc (g, n, eq_text→eq o origin e))
      | inr e ↦ rw e g
    ]

-- What may happen to the files between two calls: calls for any chat of any platform, and any change
-- of the salt, its loss included.
pub data Later : Identities → Identities → Type 0 where
  now : (i : Identities) → Later i i
  call :
      (derive : Text → Text → Text) (minted platform chat key : Text) (i i' i'' : Identities)
      → correspondent_key derive minted platform chat i ≡ ok (key, i')
      → Later i' i''
      → Later i i''
  salt_change :
      (file : SaltFile) (i i'' : Identities)
      → Later (record i { salt_file = file }) i''
      → Later i i''

later-Holds :
    (i i' : Identities) (origin k : Text) → Later i i' → Holds origin k i → Holds origin k i'
later-Holds i i' origin k (now _) v = v
later-Holds i i'' origin k (call derive minted platform chat key _ i' _ h l) v =
    later-Holds i' i'' origin k l (kept-Holds derive minted platform chat key i i' origin k h v)
later-Holds i i'' origin k (salt_change file _ _ l) v =
    later-Holds (record i { salt_file = file }) i'' origin k l v

-- The key of a correspondent is stable: whatever calls came in between, and even if the salt was lost
-- or replaced, a later call for the same chat gives the first key and changes nothing.
pub key_is_stable :
    (derive derive₂ : Text → Text → Text) (minted minted₂ platform chat key : Text)
    (i i' i'' : Identities)
    → correspondent_key derive minted platform chat i ≡ ok (key, i')
    → Later i' i''
    → correspondent_key derive₂ minted₂ platform chat i'' ≡ ok (key, i'')
unfolding correspondent_key
key_is_stable derive derive₂ minted minted₂ platform chat key i i' i'' h l =
    let (t, m, g) =
      later-Holds i' i'' (origin_of platform chat) key l
        (call-Holds derive minted platform chat key i i' h) in
    rw m (rw g refl)
