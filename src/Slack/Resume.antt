-- ===== src/Slack/Resume.antt =====
-- A read of pages that goes on over several cycles, against one read without a cap.
use agent_letter_bridge.Prelude.{
  ℕ, zero, suc, ◌+◌, ◌*◌, ◌≡◌, refl, ap, sym, ◌∙◌, String, Option, none, some, inl, inr, List, [],
  ◌∷◌, ◌++◌, append_assoc, append-nil, Result, ok, err, ◌==◌, Bool-cases, length, arith,
}
use agent_letter_bridge.Prelude.Dict.{Dict}
use agent_letter_bridge.Json.{Json}
use agent_letter_bridge.Slack.Pages.{
  Body, FetchError, page, skip, restart, failed, Pages, done, partial, skipped, broken, restarted,
  Window, page_step, pages_from, max_pages, window_or, save_window, all_pages,
}

-- the messages put in front of those that a read found
abbrev pub prepend : List (Dict Json) → Result FetchError Pages → Result FetchError Pages
prepend found (err e) = err e
prepend found (ok (done ms)) = ok (done (found ++ ms))
prepend found (ok (partial w ms)) = ok (partial w (found ++ ms))
prepend found (ok skipped) = ok skipped
prepend found (ok broken) = ok broken
prepend found (ok restarted) = ok restarted

abbrev after_cycle :
    (Option Window → Result FetchError Pages)
    → Result FetchError Pages × Option Window
    → Result FetchError Pages
after_cycle next (ok (partial w ms), saved) = prepend ms (next saved)
after_cycle next (err e, saved) = err e
after_cycle next (ok (done ms), saved) = ok (done ms)
after_cycle next (ok skipped, saved) = ok skipped
after_cycle next (ok broken, saved) = ok broken
after_cycle next (ok restarted, saved) = ok restarted

-- cycles one after the other, each with the start that it would take by itself, until one does not stop
-- at the cap
unfoldable pub cycles :
    (Window → Result FetchError Body) → List String → Option Window → Result FetchError Pages
cycles call [] saved = ok (partial (window_or "" saved) [])
cycles call (oldest ∷ rest) saved = after_cycle (cycles call rest) (all_pages call oldest saved)

prepend_nil : (r : Result FetchError Pages) → prepend [] r ≡ r
prepend_nil (err e) = refl
prepend_nil (ok (done ms)) = refl
prepend_nil (ok (partial w ms)) = refl
prepend_nil (ok skipped) = refl
prepend_nil (ok broken) = refl
prepend_nil (ok restarted) = refl

zero_plus : (k : ℕ) → 0 + k ≡ k
zero_plus k = omega arith

suc_plus : (j k : ℕ) → suc j + k ≡ suc (j + k)
suc_plus j k = omega arith

one_more : (xs : List String) → max_pages + length xs * max_pages ≡ suc (length xs) * max_pages
one_more xs = omega arith

module _ (call : Window → Result FetchError Body) where
  prepend_append :
      (f g : List (Dict Json)) (r : Result FetchError Pages)
      → prepend f (prepend g r) ≡ prepend (f ++ g) r
  prepend_append f g (err e) = refl
  prepend_append f g (ok (done ms)) =
      ap (λ (t : List (Dict Json)). ok (done t)) (sym (append_assoc f g ms))
  prepend_append f g (ok (partial w ms)) =
      ap (λ (t : List (Dict Json)). ok (partial w t)) (sym (append_assoc f g ms))
  prepend_append f g (ok skipped) = refl
  prepend_append f g (ok broken) = refl
  prepend_append f g (ok restarted) = refl

  pages_found :
      (k : ℕ) (w : Window) (found : List (Dict Json))
      → pages_from k call w found ≡ prepend found (pages_from k call w [])
  unfolding pages_from
  pages_found zero w found =
      ap (λ (t : List (Dict Json)). ok (partial w t)) (sym (append-nil found))
  pages_found (suc k) w found = go (call w) (pages_found k)
    where
      go :
          (b : Result FetchError Body)
          → ((v : Window) (f : List (Dict Json))
              → pages_from k call v f ≡ prepend f (pages_from k call v []))
          → page_step (pages_from k call) w found b
            ≡ prepend found (page_step (pages_from k call) w [] b)
      go (err e) ih = refl
      go (ok skip) ih = refl
      go (ok restart) ih = refl
      go (ok failed) ih = refl
      go (ok (page ms cursor)) ih = elim (Bool-cases (cursor == "")) [
        | inl e ↦ rw e refl
        | inr e ↦
            let next : Window = record { oldest = w.oldest; cursor = cursor } in
            rw e (
              ih next (found ++ ms)
              ∙ (sym (prepend_append found ms (pages_from k call next []))
                  ∙ ap (prepend found) (sym (ih next ms))))
      ]

  -- what a read that stops at its cap found, and what a longer read goes on with
  abbrev goes_on : ℕ → Result FetchError Pages → Result FetchError Pages
  goes_on k (err e) = err e
  goes_on k (ok (done ms)) = ok (done ms)
  goes_on k (ok (partial w ms)) = prepend ms (pages_from k call w [])
  goes_on k (ok skipped) = ok skipped
  goes_on k (ok broken) = ok broken
  goes_on k (ok restarted) = ok restarted

  goes_prepend :
      (k : ℕ) (found : List (Dict Json)) (r : Result FetchError Pages)
      → prepend found (goes_on k r) ≡ goes_on k (prepend found r)
  goes_prepend k found (err e) = refl
  goes_prepend k found (ok (done ms)) = refl
  goes_prepend k found (ok (partial w ms)) = prepend_append found ms (pages_from k call w [])
  goes_prepend k found (ok skipped) = refl
  goes_prepend k found (ok broken) = refl
  goes_prepend k found (ok restarted) = refl

  pages_more :
      (j k : ℕ) (w : Window) → pages_from (j + k) call w [] ≡ goes_on k (pages_from j call w [])
  unfolding pages_from
  pages_more zero k w =
      ap (λ (n : ℕ). pages_from n call w []) (zero_plus k)
      ∙ sym (prepend_nil (pages_from k call w []))
  pages_more (suc j) k w =
      ap (λ (n : ℕ). pages_from n call w []) (suc_plus j k) ∙ go (call w) (pages_more j k)
    where
      go :
          (b : Result FetchError Body)
          → ((v : Window) → pages_from (j + k) call v [] ≡ goes_on k (pages_from j call v []))
          → page_step (pages_from (j + k) call) w [] b
            ≡ goes_on k (page_step (pages_from j call) w [] b)
      go (err e) ih = refl
      go (ok skip) ih = refl
      go (ok restart) ih = refl
      go (ok failed) ih = refl
      go (ok (page ms cursor)) ih = elim (Bool-cases (cursor == "")) [
        | inl e ↦ rw e refl
        | inr e ↦
            let next : Window = record { oldest = w.oldest; cursor = cursor } in
            rw e (
              pages_found (j + k) next ms
              ∙ (ap (prepend ms) (ih next)
                  ∙ (goes_prepend k ms (pages_from j call next [])
                      ∙ ap (goes_on k) (sym (pages_found j next ms)))))
      ]

  goes_cycles :
      (k : ℕ) (next : Option Window → Result FetchError Pages) (saved : Option Window)
      (r : Result FetchError Pages)
      → ((w : Window) → next (some w) ≡ pages_from k call w [])
      → after_cycle next (r, save_window r saved) ≡ goes_on k r
  goes_cycles k next saved (err e) ih = refl
  goes_cycles k next saved (ok (done ms)) ih = refl
  goes_cycles k next saved (ok (partial w ms)) ih = ap (prepend ms) (ih w)
  goes_cycles k next saved (ok skipped) ih = refl
  goes_cycles k next saved (ok broken) ih = refl
  goes_cycles k next saved (ok restarted) ih = refl

  cycles_saved :
      (starts : List String) (w : Window)
      → cycles call starts (some w) ≡ pages_from (length starts * max_pages) call w []
  unfolding cycles all_pages
  cycles_saved [] w = unfold pages_from in refl
  cycles_saved (oldest ∷ rest) w =
      goes_cycles (length rest * max_pages) (cycles call rest) (some w)
        (pages_from max_pages call w []) (cycles_saved rest)
      ∙ (sym (pages_more max_pages (length rest * max_pages) w)
          ∙ ap (λ (n : ℕ). pages_from n call w []) (one_more rest))

  -- Read a conversation or a thread over several cycles, where each cycle would start at its own
  -- timestamp, stops after `max_pages` pages and keeps the window of the next page, and where the Web
  -- API gives a window the same answer in each cycle. The messages found, and how the read ends, are
  -- those of one read from the first cycle's timestamp, with a cap of `max_pages` pages for each cycle.
  pub cycles-pages_from :
      (oldest : String) (starts : List String)
      → cycles call (oldest ∷ starts) none
        ≡ pages_from
            (length (oldest ∷ starts) * max_pages)
            call
            (record { oldest = oldest; cursor = "" })
            []
  unfolding cycles all_pages
  cycles-pages_from oldest starts =
      goes_cycles (length starts * max_pages) (cycles call starts) none
        (pages_from max_pages call (record { oldest = oldest; cursor = "" }) [])
        (cycles_saved starts)
      ∙ (sym (pages_more max_pages (length starts * max_pages) _)
          ∙ ap (λ (n : ℕ). pages_from n call (record { oldest = oldest; cursor = "" }) [])
              (one_more starts))
