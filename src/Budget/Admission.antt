-- ===== src/Budget/Admission.antt =====
-- Admission: the limits hold after it, and it is refused while anything is unreadable.
use agent_letter_bridge.Prelude.{
  ℕ, ◌+◌, String, ◌≡◌, ◌≢◌, ◌⊎◌, sym, ap, subst, ◌∙◌, true, false, not, none, some, List, ok,
  >>=-eq-ok, arith, Bool-cases, inl, inr, if◌then◌else◌, ◌==◌, eq_refl,
}
use agent_letter_bridge.Prelude.Dict
use agent_letter_bridge.Prelude.Dict.{get-put, put_absent, has-none}
use agent_letter_bridge.Prelude.Int.{ℤ, pos, ◌≤ℤ◌}
use agent_letter_bridge.Json.{str}
use agent_letter_bridge.Grant.{Grant, load, is_this}
use agent_letter_bridge.Budget.{
  Reservation, Reservations, Tally, here, scope_of, count_one, count_here, count_live, count_all,
  counts, settle_tally, zero_tally, has_terminal, new_reservation, Env, add_if, which, which_more,
  refuse_hits, limit_in_effect, create, replace, admit_new, readmit_existing, same_windows,
  move_windows, move_into, Hit,
}
use agent_letter_bridge.Budget.Counting.{count_all-append, HasUnreadable, counts-unreadable}

-- A new reservation counts for its own binding, where its grant is bound to it.
scope_of-new :
    (e : Env) (grant : Grant) (oid gid intent seat payload : String)
    → load e.dir gid ≡ ok grant
    → is_this e.binding (Dict.get "binding_key" grant) ≡ true
    → scope_of e.dir e.binding (new_reservation oid e.binding gid intent seat payload e.day e.hour)
      ≡ here
unfolding scope_of Dict.get
scope_of-new e grant oid gid intent seat payload l b = ground (arith, l, b, eq_refl e.binding)

count_here-new :
    (e : Env) (oid gid intent seat payload : String) (t : Tally)
    → (e.day == "") ≡ false
    → (e.hour == "") ≡ false
    → count_here e.receipts e.day e.hour
        (new_reservation oid e.binding gid intent seat payload e.day e.hour)
        t
      ≡ ok (record t {
        day = t.day + 1;
        hour = t.hour + 1;
        active = add_if (not (has_terminal e.receipts oid)) t.active;
      })
unfolding count_here count_live Dict.get
count_here-new e oid gid intent seat payload t d h = ground (arith, eq_refl e.day, eq_refl e.hour)

settled_tally :
    (t : Tally) (d h q : ℕ)
    → settle_tally t ≡ ok (d, h, q)
    → (t.unknown ≡ false) × (t.unreadable ≡ false) × (t.day ≡ d) × (t.hour ≡ h) × (t.active ≡ q)
settled_tally t d h q e = ground arith

-- The count after a new reservation is the count before it and one more.
counts-create :
    (e : Env) (grant : Grant) (oid gid intent seat payload : String) (rs : Reservations) (d h q : ℕ)
    → load e.dir gid ≡ ok grant
    → is_this e.binding (Dict.get "binding_key" grant) ≡ true
    → (e.day == "") ≡ false
    → (e.hour == "") ≡ false
    → Dict.get oid rs ≡ none
    → counts e.dir e.receipts e.binding e.day e.hour none rs ≡ ok (d, h, q)
    → counts e.dir e.receipts e.binding e.day e.hour none (
        Dict.put oid (some (new_reservation oid e.binding gid intent seat payload e.day e.hour)) rs)
      ≡ ok (d + 1, h + 1, add_if (not (has_terminal e.receipts oid)) q)
unfolding counts count_one
counts-create e grant oid gid intent seat payload rs d h q l b dn hn absent before =
    let rec = new_reservation oid e.binding gid intent seat payload e.day e.hour in
    let (t, a, s) =
      >>=-eq-ok (count_all e.dir e.receipts e.binding e.day e.hour none rs zero_tally) _ before in
    let facts = settled_tally t d h q s in
    rw (put_absent oid (some rec) rs absent) (
      rw
        (count_all-append e.dir e.receipts e.binding e.day e.hour none rs oid (some rec) zero_tally)
        (rw a (
          ground (
            arith,
            facts,
            scope_of-new e grant oid gid intent seat payload l b,
            count_here-new e oid gid intent seat payload t dn hn,
          ))))

which-empty :
    (d h q : ℕ) (per_day per_hour max_queued : ℤ)
    → refuse_hits (which d h q per_day per_hour max_queued) ≡ ok tt
    → (pos (d + 1) ≤ℤ per_day) × (pos (h + 1) ≤ℤ per_hour) × (pos (q + 1) ≤ℤ max_queued)
unfolding which
which-empty d h q per_day per_hour max_queued e = ground arith

create-ok :
    (oid : String) (rec : Reservation) (rs rs' : Reservations)
    → create oid rec rs ≡ ok rs'
    → (Dict.get oid rs ≡ none) × (rs' ≡ Dict.put oid (some rec) rs)
unfolding create Dict.has
create-ok oid rec rs rs' h = ground arith

-- what was counted, and that it leaves room for one more of each
record Room (e : Env) (grant : Grant) (rs : Reservations) : Type 0 where
  day : ℕ
  hour : ℕ
  active : ℕ
  per_day : ℤ
  per_hour : ℤ
  max_queued : ℤ
  limits :
      (limit_in_effect grant "per_day" ≡ ok per_day)
      × (limit_in_effect grant "per_hour" ≡ ok per_hour)
      × (limit_in_effect grant "max_queued" ≡ ok max_queued)
  counted : counts e.dir e.receipts e.binding e.day e.hour none rs ≡ ok (day, hour, active)
  fits :
      (pos (day + 1) ≤ℤ per_day) × (pos (hour + 1) ≤ℤ per_hour) × (pos (active + 1) ≤ℤ max_queued)

admit_new-Room :
    (e : Env) (grant : Grant) (oid gid intent seat payload : String) (rs rs' : Reservations)
    (rec : Reservation)
    → admit_new e grant oid gid intent seat payload rs ≡ ok (rec, rs')
    → Room e grant rs
      × (rec ≡ new_reservation oid e.binding gid intent seat payload e.day e.hour)
      × (Dict.get oid rs ≡ none)
      × (rs' ≡ Dict.put oid (some rec) rs)
unfolding admit_new
admit_new-Room e grant oid gid intent seat payload rs rs' rec h =
    let (per_day, a, h1) = >>=-eq-ok (limit_in_effect grant "per_day") _ h in
    let (per_hour, b, h2) = >>=-eq-ok (limit_in_effect grant "per_hour") _ h1 in
    let (max_queued, c, h3) = >>=-eq-ok (limit_in_effect grant "max_queued") _ h2 in
    let ((d, hr, q), k, h4) =
      >>=-eq-ok (counts e.dir e.receipts e.binding e.day e.hour none rs) _ h3 in
    let (u, f, h5) = >>=-eq-ok (refuse_hits (which d hr q per_day per_hour max_queued)) _ h4 in
    let (new, g, h6) = >>=-eq-ok (create oid _ rs) _ h5 in
    let (absent, put) = create-ok oid _ rs new g in
    let same : new_reservation oid e.binding gid intent seat payload e.day e.hour ≡ rec = cc (h6) in
    let after : new ≡ rs' = cc (h6) in
    (
      record {
        day = d;
        hour = hr;
        active = q;
        per_day = per_day;
        per_hour = per_hour;
        max_queued = max_queued;
        limits = (a, b, c);
        counted = k;
        fits = which-empty d hr q per_day per_hour max_queued f;
      },
      sym same,
      absent,
      sym after ∙ (put ∙ ap (λ (r : Reservation). Dict.put oid (some r) rs) same),
    )

-- After a new admission under a grant that is bound to the same binding, the count for the binding is
-- within each limit in effect: the day's and the hour's are one more than before, and what waits is
-- at most one more. Before it there was no reservation of that id, now there is, and the files of all
-- other ids are as they were. The calendar keys are not empty.
pub admit_new_lem :
    (e : Env) (grant bound : Grant) (oid gid intent seat payload : String) (rs rs' : Reservations)
    (rec : Reservation)
    → admit_new e grant oid gid intent seat payload rs ≡ ok (rec, rs')
    → load e.dir gid ≡ ok bound
    → is_this e.binding (Dict.get "binding_key" bound) ≡ true
    → (e.day == "") ≡ false
    → (e.hour == "") ≡ false
    → (d h q : ℕ) × (per_day per_hour max_queued : ℤ) × (limit_in_effect grant "per_day"
        ≡ ok per_day)
      × (limit_in_effect grant "per_hour" ≡ ok per_hour)
      × (limit_in_effect grant "max_queued" ≡ ok max_queued)
      × (counts e.dir e.receipts e.binding e.day e.hour none rs ≡ ok (d, h, q))
      × (counts e.dir e.receipts e.binding e.day e.hour none rs'
          ≡ ok (d + 1, h + 1, add_if (not (has_terminal e.receipts oid)) q))
      × (pos (d + 1) ≤ℤ per_day)
      × (pos (h + 1) ≤ℤ per_hour)
      × (pos (q + 1) ≤ℤ max_queued)
      × (Dict.get oid rs ≡ none)
      × ((j : String) → Dict.get j rs' ≡ (if oid == j then some (some rec) else Dict.get j rs))
admit_new_lem e grant bound oid gid intent seat payload rs rs' rec done l b dn hn =
    let (room, same, absent, put) =
      admit_new-Room e grant oid gid intent seat payload rs rs' rec done in
    (
      room.day,
      room.hour,
      room.active,
      room.per_day,
      room.per_hour,
      room.max_queued,
      room.limits.0,
      room.limits.1,
      room.limits.2,
      room.counted,
      subst
          (λ (r : Reservations).
            counts e.dir e.receipts e.binding e.day e.hour none r
            ≡ ok (
              room.day + 1,
              room.hour + 1,
              add_if (not (has_terminal e.receipts oid)) room.active,
            ))
          (sym (put ∙ ap (λ (r : Reservation). Dict.put oid (some r) rs) same))
          (counts-create e bound oid gid intent seat payload rs room.day room.hour room.active l b
            dn hn absent room.counted),
      room.fits.0,
      room.fits.1,
      room.fits.2,
      absent,
      λ j. ap (Dict.get j) put ∙ get-put j oid (some rec) rs,
    )

-- While any reservation file cannot be read, no message of any binding is admitted.
pub unreadable_blocks :
    (e : Env) (grant : Grant) (oid gid intent seat payload : String) (rs rs' : Reservations)
    (rec : Reservation)
    → HasUnreadable rs
    → admit_new e grant oid gid intent seat payload rs ≢ ok (rec, rs')
unreadable_blocks e grant oid gid intent seat payload rs rs' rec u h =
    let (room, same, absent, put) =
      admit_new-Room e grant oid gid intent seat payload rs rs' rec h in
    counts-unreadable e.dir e.receipts e.binding e.day e.hour none rs
      (room.day, room.hour, room.active) u room.counted

which_more-empty :
    (d h : ℕ) (per_day per_hour : ℤ)
    → refuse_hits (which_more d h per_day per_hour) ≡ ok tt
    → (pos (d + 1) ≤ℤ per_day) × (pos (h + 1) ≤ℤ per_hour)
unfolding which_more
which_more-empty d h per_day per_hour e = ground arith

replace-ok :
    (oid : String) (rec : Reservation) (rs rs' : Reservations)
    → replace oid rec rs ≡ ok rs'
    → rs' ≡ Dict.put oid (some rec) rs
unfolding replace
replace-ok oid rec rs rs' h = ground arith

moved_windows : (e : Env) (rec : Reservation) → same_windows e (move_windows e rec) ≡ true
moved_windows e rec = ground (
  arith,
  get-put "day_key" "hour_key" (str e.hour) (Dict.put "day_key" (str e.day) rec),
  get-put "day_key" "day_key" (str e.day) rec,
  eq_refl e.day,
  eq_refl e.hour,
  get-put "hour_key" "hour_key" (str e.hour) (Dict.put "day_key" (str e.day) rec),
)

move_into-ok :
    (e : Env) (oid : String) (rec rec' : Reservation) (hits : List Hit) (rs rs' : Reservations)
    → move_into e oid rec hits rs ≡ ok (rec', rs')
    → (refuse_hits hits ≡ ok tt)
      × (new : Reservations) × (replace oid (move_windows e rec) rs ≡ ok new)
      × (move_windows e rec ≡ rec')
      × (new ≡ rs')
unfolding move_into
move_into-ok e oid rec rec' hits rs rs' h =
    let (u, f, h4) = >>=-eq-ok (refuse_hits hits) _ h in
    let (new, g, h5) = >>=-eq-ok (replace oid (move_windows e rec) rs) _ h4 in
    (f, new, g, cc (h5), cc (h5))

-- A crossing of an existing reservation that goes through either finds it in the current day and hour
-- and changes nothing, or moves it there: then the count without it is below both limits, the record
-- carries the current keys, and the files of all other ids are as they were.
pub readmit_existing_lem :
    (e : Env) (grant : Grant) (oid : String) (rec rec' : Reservation) (rs rs' : Reservations)
    → readmit_existing e grant oid rec rs ≡ ok (rec', rs')
    → ((same_windows e rec ≡ true) × (rec' ≡ rec) × (rs' ≡ rs))
      ⊎ ((d h q : ℕ) × (per_day per_hour : ℤ) × (limit_in_effect grant "per_day" ≡ ok per_day)
          × (limit_in_effect grant "per_hour" ≡ ok per_hour)
          × (counts e.dir e.receipts e.binding e.day e.hour (some oid) rs ≡ ok (d, h, q))
          × (pos (d + 1) ≤ℤ per_day)
          × (pos (h + 1) ≤ℤ per_hour)
          × (same_windows e rec' ≡ true)
          × ((j : String)
              → Dict.get j rs' ≡ (if oid == j then some (some rec') else Dict.get j rs)))
unfolding readmit_existing
readmit_existing_lem e grant oid rec rec' rs rs' done =
    let (per_day, a, h1) = >>=-eq-ok (limit_in_effect grant "per_day") _ done in
    let (per_hour, b, h2) = >>=-eq-ok (limit_in_effect grant "per_hour") _ h1 in
    let ((d, h, q), k, h3) =
      >>=-eq-ok (counts e.dir e.receipts e.binding e.day e.hour (some oid) rs) _ h2 in
    elim (Bool-cases (same_windows e rec)) [
      | inl w ↦ inl (w, ground (arith, h3, w), ground (arith, h3, w))
      | inr w ↦
          let moved : move_into e oid rec (which_more d h per_day per_hour) rs ≡ ok (rec', rs') =
            ground (arith, h3, w) in
          let (f, new, g, same, after) =
            move_into-ok e oid rec rec' (which_more d h per_day per_hour) rs rs' moved in
          let (fd, fh) = which_more-empty d h per_day per_hour f in
          inr (
            d,
            h,
            q,
            per_day,
            per_hour,
            a,
            b,
            k,
            fd,
            fh,
            subst (λ (r : Reservation). same_windows e r ≡ true) same (moved_windows e rec),
            λ j.
                ap (Dict.get j) (
                  sym after
                  ∙ (replace-ok oid (move_windows e rec) rs new g
                      ∙ ap (λ (r : Reservation). Dict.put oid (some r) rs) same))
                ∙ get-put j oid (some rec') rs,
          )
    ]
