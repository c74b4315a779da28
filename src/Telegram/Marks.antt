-- ===== src/Telegram/Marks.antt =====
-- The mark of the handled updates over any run of the adapter: acks, calls of getUpdates that arrive
-- or are lost, confirmations with any end, and restarts.
use mathlib.Core.List.{Memᴰ}
use mathlib.Core.List.Memᴰ.{head, tail}
use agent_letter_bridge.Prelude.{
  String, ◌≡◌, refl, sym, ap, ◌∙◌, subst, Bool, true, false, ◌||◌, Option, none, some, ◌⊎◌, inl,
  inr, List, [], ◌∷◌, ok, if◌then◌else◌, arith,
}
use agent_letter_bridge.Prelude.Dict
use agent_letter_bridge.Prelude.Int.{ℤ}
use agent_letter_bridge.Json.{Json}
use agent_letter_bridge.Telegram.Message.{int_json}
use agent_letter_bridge.Telegram.{
  Wire, answered, not_json, no_network, http_error, OffsetFile, no_path, no_file, unreadable, holds,
  Bot, load_offset, mark_json, save_offset, next_ℤ, next_offset, ack, confirm, confirm_after,
  offset_after, saved_file, is_new, confirm_mark,
}

-- `acks` are the ids that `ack` was ever called with, `received` the offsets of the calls of
-- getUpdates that reached the platform, which forgets every update below one of these.
pub record System : Type 0 where
  pub bot : Bot
  pub acks : List ℤ
  pub received : List ℤ

-- the offsets after a call with `offset`
abbrev pub after_call : Bool → Option ℤ → List ℤ → List ℤ
after_call true (some o) os = o ∷ os
after_call true none os = os
after_call false offset os = os

abbrev pub was_answered : Wire → Bool
was_answered (answered payload) = true
was_answered _ = false

module _ (int_text : String → Option ℤ) (show : Json → String) where
  pub data Step : System → System → Type 0 where
    acking : (id : ℤ) (s : System) → Step s (record s { bot = ack id s.bot; acks = id ∷ s.acks })
    -- the call of `fetch`, or that of a `confirm` that dies before it writes
    polling :
        (arrived : Bool) (s : System)
        → Step s (record s { received = after_call arrived (next_offset s.bot) s.received })
    -- a call that was answered has arrived; one that was not may have
    confirming :
        (wire : Wire) (arrived : Bool) (s : System)
        → Step s (record s {
          bot = (confirm show wire s.bot).0;
          received = after_call (was_answered wire || arrived) (next_offset s.bot) s.received;
        })
    -- a new process reads the file, or dies of it
    restarting :
        (mark : Option ℤ) (s : System)
        → load_offset int_text s.bot.file ≡ ok mark
        → Step s (record s { bot = record { acked = mark; file = s.bot.file } })

  pub data Steps : System → System → Type 0 where
    stop : (s : System) → Steps s s
    more : (s m t : System) → Step s m → Steps m t → Steps s t

  pub record IsSafe (s : System) : Type 0 where
    pub marked : (n : ℤ) → s.bot.acked ≡ some n → Memᴰ n s.acks
    pub next : (o : ℤ) → Memᴰ o s.received → (n : ℤ) × (o ≡ next_ℤ n) × Memᴰ n s.acks
    pub saved :
        (n : ℤ)
        → load_offset int_text s.bot.file ≡ ok (some n)
        → Memᴰ (next_ℤ n) s.received × Memᴰ n s.acks

  load_offset-mark_json : (n : ℤ) → load_offset int_text (holds (mark_json n)) ≡ ok (some n)
  unfolding load_offset Dict.get int_json
  load_offset-mark_json n = refl

  after_call-Mem :
      (b : Bool) (offset : Option ℤ) (os : List ℤ) (o : ℤ)
      → Memᴰ o os
      → Memᴰ o (after_call b offset os)
  after_call-Mem true (some x) os o m = tail m
  after_call-Mem true none os o m = m
  after_call-Mem false offset os o m = m

  next_of_call :
      (b : Bool) (mark : Option ℤ) (os acks : List ℤ) (o : ℤ)
      → ((n : ℤ) → mark ≡ some n → Memᴰ n acks)
      → ((o : ℤ) → Memᴰ o os → (n : ℤ) × (o ≡ next_ℤ n) × Memᴰ n acks)
      → Memᴰ o (after_call b (offset_after mark) os)
      → (n : ℤ) × (o ≡ next_ℤ n) × Memᴰ n acks
  next_of_call true none os acks o marked next m = next o m
  next_of_call true (some n) os acks o marked next (head e) = (n, e, marked n refl)
  next_of_call true (some n) os acks o marked next (tail m) = next o m
  next_of_call false mark os acks o marked next m = next o m

  called-IsSafe :
      (b : Bool) (s : System)
      → IsSafe s
      → IsSafe (record s { received = after_call b (next_offset s.bot) s.received })
  unfolding next_offset
  called-IsSafe b s v = record {
    marked = v.marked;
    next = λ o m. next_of_call b s.bot.acked s.received s.acks o v.marked v.next m;
    saved = λ n e. (after_call-Mem b _ _ _ (v.saved n e).0, (v.saved n e).1);
  }

  acked-IsSafe :
      (id : ℤ) (s : System)
      → IsSafe s
      → IsSafe (record s { bot = ack id s.bot; acks = id ∷ s.acks })
  unfolding ack
  acked-IsSafe id s v = go (is_new s.bot.acked id)
    where
      go :
          (b : Bool)
          → IsSafe (record s {
            bot = if b then record { acked = some id; file = s.bot.file } else s.bot;
            acks = id ∷ s.acks;
          })
      go true = record {
        marked = λ n e. head (cc (e));
        next = λ o m. let (n, q, k) = v.next o m in (n, q, tail k);
        saved = λ n e. ((v.saved n e).0, tail (v.saved n e).1);
      }
      go false = record {
        marked = λ n e. tail (v.marked n e);
        next = λ o m. let (n, q, k) = v.next o m in (n, q, tail k);
        saved = λ n e. ((v.saved n e).0, tail (v.saved n e).1);
      }

  confirm-bot :
      (wire : Wire) (b : Bot)
      → (confirm show wire b).0 ≡ (if was_answered wire then save_offset b else b)
  unfolding confirm confirm_after save_offset
  confirm-bot wire b = go wire b.acked refl
    where
      go :
          (w : Wire) (mark : Option ℤ)
          → mark ≡ b.acked
          → (confirm_mark show w mark b).0 ≡ (if was_answered w then save_offset b else b)
      go (answered payload) none e = rw (sym e) refl
      go (answered payload) (some n) e = refl
      go not_json none e = refl
      go not_json (some n) e = refl
      go no_network none e = refl
      go no_network (some n) e = refl
      go (http_error x) none e = refl
      go (http_error x) (some n) e = refl

  load-saved :
      (mark : Option ℤ) (file : OffsetFile) (n : ℤ)
      → load_offset int_text (saved_file mark file) ≡ ok (some n)
      → (mark ≡ some n) ⊎ (load_offset int_text file ≡ ok (some n))
  load-saved none file n e = inr e
  load-saved (some m) no_path n e = inr e
  load-saved (some m) no_file n e = inl (cc (e, load_offset-mark_json m))
  load-saved (some m) unreadable n e = inl (cc (e, load_offset-mark_json m))
  load-saved (some m) (holds v) n e = inl (cc (e, load_offset-mark_json m))

  saved-IsSafe :
      (s : System)
      → IsSafe s
      → ((n : ℤ) → s.bot.acked ≡ some n → Memᴰ (next_ℤ n) s.received)
      → IsSafe (record s { bot = save_offset s.bot })
  unfolding save_offset
  saved-IsSafe s v k = record {
    marked = v.marked;
    next = v.next;
    saved = λ n e. elim (load-saved s.bot.acked s.bot.file n e) [
      | inl q ↦ (k n q, v.marked n q)
      | inr q ↦ v.saved n q
    ];
  }

  called-Mem :
      (s : System) (n : ℤ)
      → s.bot.acked ≡ some n
      → Memᴰ (next_ℤ n) (after_call true (next_offset s.bot) s.received)
  unfolding next_offset
  called-Mem s n e = rw e (head refl)

  confirmed-IsSafe :
      (b arrived : Bool) (s : System)
      → IsSafe s
      → IsSafe (record s {
        bot = if b then save_offset s.bot else s.bot;
        received = after_call (b || arrived) (next_offset s.bot) s.received;
      })
  confirmed-IsSafe true arrived s v = saved-IsSafe _ (called-IsSafe true s v) (called-Mem s)
  confirmed-IsSafe false arrived s v = called-IsSafe arrived s v

  Step-IsSafe : (s t : System) → Step s t → IsSafe s → IsSafe t
  Step-IsSafe s t (acking id _) v = acked-IsSafe id s v
  Step-IsSafe s t (polling arrived _) v = called-IsSafe arrived s v
  Step-IsSafe s t (confirming wire arrived _) v =
      rw (confirm-bot wire s.bot) (confirmed-IsSafe (was_answered wire) arrived s v)
  Step-IsSafe s t (restarting mark _ e) v = record {
    marked = λ n q. (v.saved n (e ∙ ap ok q)).1;
    next = v.next;
    saved = v.saved;
  }

  Steps-IsSafe : (s t : System) → Steps s t → IsSafe s → IsSafe t
  Steps-IsSafe s t (stop _) v = v
  Steps-IsSafe s t (more _ m _ x r) v = Steps-IsSafe m t r (Step-IsSafe s m x v)

  -- a first start: nothing was acked or received, and there is no mark
  pub record IsFresh (s : System) : Type 0 where
    pub no_mark : load_offset int_text s.bot.file ≡ ok none
    pub no_ack : s.bot.acked ≡ none
    pub no_acks : s.acks ≡ []
    pub none_received : s.received ≡ []

  fresh-IsSafe : (s : System) → IsFresh s → IsSafe s
  fresh-IsSafe s f = record {
    marked = λ n e. absurd (cc (e, f.no_ack));
    next = λ o m. absurd (elim (subst (Memᴰ o) f.none_received m) [ ]);
    saved = λ n e. absurd (ground (arith, e, f.no_mark));
  }

  -- From a first start, through any run of acks, polls, confirmations, losses and restarts: an offset
  -- that the platform was ever told is the one after an update that was acked.
  pub received_was_acked :
      (s t : System)
      → IsFresh s
      → Steps s t
      → (o : ℤ) → Memᴰ o t.received
      → (n : ℤ) × (o ≡ next_ℤ n) × Memᴰ n t.acks
  received_was_acked s t f r = (Steps-IsSafe s t r (fresh-IsSafe s f)).next

  -- From a first start, through any run of acks, polls, confirmations, losses and restarts: a mark
  -- that the next start would read from the file is an update that was acked, and the platform was
  -- told the offset after it.
  pub saved_was_received :
      (s t : System)
      → IsFresh s
      → Steps s t
      → (n : ℤ) → load_offset int_text t.bot.file ≡ ok (some n)
      → Memᴰ (next_ℤ n) t.received × Memᴰ n t.acks
  saved_was_received s t f r = (Steps-IsSafe s t r (fresh-IsSafe s f)).saved
