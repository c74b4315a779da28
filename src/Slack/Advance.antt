-- ===== src/Slack/Advance.antt =====
-- What a confirmation does to the markers of the conversations.
use agent_letter_bridge.Prelude.{
  ◌≡◌, ◌≢◌, refl, ap, sym, ◌∙◌, String, Bool, true, false, Option, none, some, List, [], ◌∷◌, ◌++◌,
  append-nil, append_assoc, eq_refl, subst, ok, err, ◌==◌, eq_iff, elem, filter_by, Bool-cases, ◌⊎◌,
  inl, inr, arith, if◌then◌else◌,
}
use agent_letter_bridge.Prelude.Dict
use agent_letter_bridge.Prelude.Dict.{Dict}
use agent_letter_bridge.Slack.{
  Mark, Markers, Adapter, ConfirmError, write_failed, keys, marks_to_apply, all_envelopes, Floats,
  max_ts, bump, advance, put_ts,
}
use agent_letter_bridge.Slack.Confirm.{cap_threads, advance_markers, settle, confirm, all_sent}

-- the timestamps of the marks of one conversation
unfoldable pub stamps : String → List Mark → List String
stamps conv [] = []
stamps conv (m ∷ ms) = let rest = stamps conv ms in if m.conv == conv then m.ts ∷ rest else rest

module _ (floats : Floats) where
  -- the marker of one conversation, moved by timestamps one after the other
  unfoldable pub latest : Option String → List String → Option String
  latest current [] = current
  latest current (ts ∷ rest) = latest (max_ts floats current ts) rest

  max_ts-none :
      (current : Option String) (ts : String) → max_ts floats current ts ≡ none → current ≡ none
  unfolding max_ts
  max_ts-none none ts h = refl
  max_ts-none (some c) ts h = ground (arith, h)

  put_ts_view :
      (k conv ts : String) (d : Dict String)
      → Dict.get k (put_ts conv (max_ts floats (Dict.get conv d) ts) d)
        ≡ (if conv == k then max_ts floats (Dict.get k d) ts else Dict.get k d)
  put_ts_view k conv ts d = elim (Bool-cases (conv == k)) [
    | inl same ↦
        let e : conv ≡ k = (eq_iff conv k).0 same in
        subst
          (λ (c : String).
            Dict.get k (put_ts c (max_ts floats (Dict.get c d) ts) d)
            ≡ (if c == k then max_ts floats (Dict.get k d) ts else Dict.get k d))
          (sym e) (here (max_ts floats (Dict.get k d) ts) refl)
    | inr other ↦ there (max_ts floats (Dict.get conv d) ts) other
  ]
    where
      here :
          (r : Option String)
          → max_ts floats (Dict.get k d) ts ≡ r
          → Dict.get k (put_ts k r d) ≡ (if k == k then r else Dict.get k d)
      here none e = rw (eq_refl k) (max_ts-none (Dict.get k d) ts e)
      here (some new) e = rw (eq_refl k) (ground (arith, Dict.get-put k k new d, eq_refl k))

      there :
          (r : Option String)
          → (conv == k) ≡ false
          → Dict.get k (put_ts conv r d)
            ≡ (if conv == k then max_ts floats (Dict.get k d) ts else Dict.get k d)
      there none h = rw h refl
      there (some new) h = ground (arith, h, Dict.get-put k conv new d)

  bump_view :
      (k : String) (m : Mark) (s : Markers)
      → Dict.get k (bump floats m s).conversations ≡ (
          if m.conv == k
          then max_ts floats (Dict.get k s.conversations) m.ts
          else Dict.get k s.conversations)
  unfolding bump
  bump_view k m s = elim (Bool-cases (m.thread == "")) [
    | inl e ↦ rw e (put_ts_view k m.conv m.ts s.conversations)
    | inr e ↦ rw e (put_ts_view k m.conv m.ts s.conversations)
  ]

  advance_by :
      (pending : List String) (m : Mark) (ms : List Mark) (s : Markers) (held : List Mark)
      {b : Bool}
      → elem m.conv pending ≡ b
      → advance floats pending (m ∷ ms) (s, held)
        ≡ advance floats pending ms (if b then (s, held ++ m ∷ []) else (bump floats m s, held))
  unfolding advance
  advance_by pending m ms s held e =
      ap
        (λ (b : Bool).
          advance floats pending ms (if b then (s, held ++ m ∷ []) else (bump floats m s, held)))
        e

  -- The loop moves the marker of each conversation that is not pending by its marks in their order, and
  -- the marks of the pending ones are held in their order.
  advance_view :
      (pending : List String) (k : String) (ms : List Mark) (s : Markers) (held : List Mark)
      → Dict.get k (advance floats pending ms (s, held)).0.conversations ≡ (
          if elem k pending
          then Dict.get k s.conversations
          else latest (Dict.get k s.conversations) (stamps k ms))
  unfolding stamps latest
  advance_view pending k [] s held = unfold advance in ground arith
  advance_view pending k (m ∷ ms) s held = elim (Bool-cases (elem m.conv pending)) [
    | inl e ↦
        rw (advance_by pending m ms s held e)
          (advance_view pending k ms s (held ++ m ∷ []) ∙ skip e)
    | inr e ↦
        rw (advance_by pending m ms s held e)
          (advance_view pending k ms (bump floats m s) held ∙ step e)
  ]
    where
      skip :
          elem m.conv pending ≡ true
          → (if elem k pending
              then Dict.get k s.conversations
              else latest (Dict.get k s.conversations) (stamps k ms))
            ≡ (if elem k pending
                then Dict.get k s.conversations
                else latest (Dict.get k s.conversations) (stamps k (m ∷ ms)))
      skip e = elim (Bool-cases (m.conv == k)) [
        | inl q ↦
            ground (arith, subst (λ (c : String). elem c pending ≡ true) ((eq_iff m.conv k).0 q) e)
        | inr q ↦ rw q refl
      ]

      step :
          elem m.conv pending ≡ false
          → (if elem k pending
              then Dict.get k (bump floats m s).conversations
              else latest (Dict.get k (bump floats m s).conversations) (stamps k ms))
            ≡ (if elem k pending
                then Dict.get k s.conversations
                else latest (Dict.get k s.conversations) (stamps k (m ∷ ms)))
      step e = elim (Bool-cases (m.conv == k)) [
        | inl q ↦ ground (
          arith,
          subst (λ (c : String). elem c pending ≡ false) ((eq_iff m.conv k).0 q) e,
          bump_view k m s,
          q,
        )
        | inr q ↦ rw (bump_view k m s, q) refl
      ]

  advance_held :
      (pending : List String) (ms : List Mark) (s : Markers) (held : List Mark)
      → (advance floats pending ms (s, held)).1
        ≡ held ++ filter_by (λ (m : Mark). elem m.conv pending) ms
  advance_held pending [] s held = unfold advance in sym (append-nil held)
  advance_held pending (m ∷ ms) s held = elim (Bool-cases (elem m.conv pending)) [
    | inl e ↦
        rw (advance_by pending m ms s held e, e)
          (advance_held pending ms s (held ++ m ∷ [])
            ∙ append_assoc held (m ∷ []) (filter_by (λ (n : Mark). elem n.conv pending) ms))
    | inr e ↦
        rw (advance_by pending m ms s held e, e) (advance_held pending ms (bump floats m s) held)
  ]

  cap_threads_conversations : (s : Markers) → (cap_threads floats s).conversations ≡ s.conversations
  unfolding cap_threads
  cap_threads_conversations s = ground arith

  -- the marks that a confirmation has to apply: those held, those of the acked items in the order of
  -- the acks, and those of the dropped events
  abbrev pub due : Adapter → List Mark
  due a = a.held ++ marks_to_apply a (keys a.staged)

  moved_view :
      (a : Adapter) (acked : List String) (k : String)
      → Dict.get k (advance_markers floats acked a).markers.conversations ≡ (
          if elem k a.pending
          then Dict.get k a.markers.conversations
          else latest
              (Dict.get k a.markers.conversations)
              (stamps k (a.held ++ marks_to_apply a acked)))
  unfolding advance_markers
  moved_view a acked k =
      rw (cap_threads_conversations _)
        (advance_view a.pending k (a.held ++ marks_to_apply a acked) a.markers [])

  moved_held :
      (a : Adapter) (acked : List String)
      → (advance_markers floats acked a).held
        ≡ filter_by (λ (m : Mark). elem m.conv a.pending) (a.held ++ marks_to_apply a acked)
  unfolding advance_markers
  moved_held a acked = advance_held a.pending (a.held ++ marks_to_apply a acked) a.markers []

  -- what `confirm` settles, once the envelopes are sent
  abbrev sent : Adapter → Adapter
  sent a = advance_markers floats (keys a.staged) (record a { staged = []; dropped = [] })

  confirm_ok :
      (send : String → Bool) (writes : Bool) (a a' : Adapter)
      → confirm floats send writes a ≡ (a', ok tt)
      → a' ≡ settle (keys a.staged) (sent a)
  unfolding confirm
  confirm_ok send writes a a' h = ground (arith, h)

  confirm_err :
      (send : String → Bool) (writes : Bool) (a a' : Adapter) (e : ConfirmError)
      → confirm floats send writes a ≡ (a', err e)
      → (a' ≡ a) ⊎ ((a' ≡ sent a) × (e ≡ write_failed))
  unfolding confirm
  confirm_err send writes a a' e h = elim (Bool-cases a.connected) [
    | inl c ↦ elim (Bool-cases (all_sent send (all_envelopes a.staged ++ a.dropped))) [
      | inl s ↦ inr (ground (arith, h, c, s), ground (arith, h, c, s))
      | inr s ↦ inl (ground (arith, h, c, s))
    ]
    | inr c ↦ inl (ground (arith, h, c))
  ]

  -- The file after a confirmation that succeeded, as a function of the conversation; nothing is left
  -- in flight, nor to acknowledge.
  abbrev pub Advanced : Adapter → Adapter → Type 0
  Advanced a a' =
      ((k : String)
        → Dict.get k a'.file.conversations ≡ (
            if elem k a.pending
            then Dict.get k a.markers.conversations
            else latest (Dict.get k a.markers.conversations) (stamps k (due a))))
      × (a'.held ≡ filter_by (λ (m : Mark). elem m.conv a.pending) (due a))
      × (a'.inflight ≡ [])
      × (a'.staged ≡ [])
      × (a'.dropped ≡ [])

  -- A confirmation that succeeds writes a file whose marker of a conversation, as a function of the
  -- conversation, is the marker that the adapter had where the conversation is still being caught up,
  -- and else that marker moved by the timestamps of the due marks of the conversation, one after the
  -- other. The due marks of the conversations still being caught up are held, in their order, and
  -- no item stays in flight, and no envelope staged or dropped.
  pub confirm_refines :
      (send : String → Bool) (writes : Bool) (a a' : Adapter)
      → confirm floats send writes a ≡ (a', ok tt)
      → Advanced a a'
  unfolding settle advance_markers marks_to_apply
  confirm_refines send writes a a' h = subst (Advanced a) (sym (confirm_ok send writes a a' h)) (
    moved_view (record a { staged = []; dropped = [] }) (keys a.staged),
    moved_held (record a { staged = []; dropped = [] }) (keys a.staged),
    refl,
    refl,
    refl,
  )

  -- A confirmation that fails leaves the file, the items in flight and the marks as they were. Where
  -- it fails before the file is written, it changes nothing at all.
  pub confirm_failed :
      (send : String → Bool) (writes : Bool) (a a' : Adapter) (e : ConfirmError)
      → confirm floats send writes a ≡ (a', err e)
      → (a'.file ≡ a.file)
        × (a'.inflight ≡ a.inflight)
        × (a'.marks ≡ a.marks)
        × (e ≢ write_failed → a' ≡ a)
  unfolding advance_markers
  confirm_failed send writes a a' e h = elim (confirm_err send writes a a' e h) [
    | inl same ↦ (ap Adapter.file same, ap Adapter.inflight same, ap Adapter.marks same, λ _. same)
    | inr moved ↦ (
      ap Adapter.file moved.0,
      ap Adapter.inflight moved.0,
      ap Adapter.marks moved.0,
      λ n. absurd (n moved.1),
    )
  ]
