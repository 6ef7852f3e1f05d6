-- ===== src/Alarms/Waking.antt =====
-- What the handler of the alarm does: which threads it wakes, and what is left.
use la_tte.Common.{
  ℕ, suc, ◌-◌, ◌<◌, ◌≡◌, refl, sym, ap, ◌∙◌, subst, inl, inr, Bool, true, false, ◌||◌, ◌&&◌,
  Bool-cases, Option, none, some, List, [], ◌∷◌, ◌==◌, leb, length, if◌then◌else◌, update, ==_to,
  ==_self, true_branch, false_branch, mem, arith,
}
use la_tte.Locks.{Threads, remove, iresume_thread}
use la_tte.Locks.Places.{NoTwice, mem_head, mem_later}
use la_tte.Locks.Moves.{resumed_running}
use la_tte.Alarms.{
  Sleepers, remove_from_alarm_q, leave_queue, resume_thread, wake_head, wake_rounds, restart_alarm,
  alarm_exception,
}
use la_tte.Alarms.Order.{Alarmed, NotBefore, Sorted}

-- The threads of a list that are not to be woken yet
abbrev pub pending : (ℕ → ℕ) → ℕ → List ℕ → List ℕ
pending time now [] = []
pending time now (t ∷ ts) =
    if leb (time t) now then pending time now ts else t ∷ pending time now ts

remove_absent : (t : ℕ) (ts : List ℕ) → mem t ts ≡ false → remove t ts ≡ ts
unfolding remove
remove_absent t [] n = refl
remove_absent t (u ∷ us) n = ground (arith, remove_absent t us (ground arith))

-- A thread that has been taken from the head of the list is resumed.
module _ (priority : ℕ → ℕ) (current t : ℕ) (s : Sleepers) (n : mem t s.alarm_list ≡ false)
    (r : s.threads.is_running t ≡ false) where
  abbrev after : Sleepers
  after = resume_thread priority current t s

  pub leave_same :
      (b : Option ℕ) (a : Sleepers)
      → ((leave_queue t b a).alarm_list ≡ a.alarm_list)
        × ((leave_queue t b a).time ≡ a.time)
        × ((leave_queue t b a).threads ≡ a.threads)
        × ((leave_queue t b a).has_alarm ≡ a.has_alarm)
  leave_same none a = (refl, refl, refl, refl)
  leave_same (some q) a = (refl, refl, refl, refl)

  pub resumed_list : after.alarm_list ≡ s.alarm_list
  unfolding resume_thread remove_from_alarm_q
  resumed_list = elim (Bool-cases (s.has_alarm t)) [
    | inl h ↦ rw (r, h) ((leave_same _ _).0 ∙ remove_absent t s.alarm_list n)
    | inr h ↦ rw (r, h) (leave_same _ _).0
  ]

  pub resumed_time : after.time ≡ s.time
  unfolding resume_thread remove_from_alarm_q
  resumed_time = elim (Bool-cases (s.has_alarm t)) [
    | inl h ↦ rw (r, h) (leave_same _ _).1
    | inr h ↦ rw (r, h) (leave_same _ _).1
  ]

  pub resumed_flags : s.has_alarm t ≡ true → after.has_alarm ≡ update s.has_alarm t false
  unfolding resume_thread remove_from_alarm_q
  resumed_flags h = rw (r, h) (leave_same _ _).3

  ran :
      (th : Threads)
      → th ≡ s.threads
      → (iresume_thread priority current t th).is_running ≡ update s.threads.is_running t true
  ran th e =
      ap (λ x. (iresume_thread priority current t x).is_running) e
      ∙ resumed_running priority current t s.threads r

  pub resumed_runs : after.threads.is_running ≡ update s.threads.is_running t true
  unfolding resume_thread remove_from_alarm_q
  resumed_runs = elim (Bool-cases (s.has_alarm t)) [
    | inl h ↦ rw (r, h) (ran _ (leave_same _ _).2)
    | inr h ↦ rw (r, h) (ran _ (leave_same _ _).2)
  ]

late : (now a : ℕ) → now < a → leb a now ≡ false
late now a l = ground arith

or_true : (a : Bool) → (a || true) ≡ true
or_true a = ground arith

and_false : (a b : Bool) → b ≡ false → (a && b) ≡ false
and_false a b e = ground arith

later-pending :
    (time : ℕ → ℕ) (now b : ℕ) (ts : List ℕ)
    → now < b
    → NotBefore time b ts
    → (pending time now ts ≡ ts) × ((j : ℕ) → (mem j ts && leb (time j) now) ≡ false)
later-pending time now b [] l h = (refl, λ j. refl)
later-pending time now b (t ∷ ts) l h =
    let r = later-pending time now b ts l h.1 in
    let f = late now (time t) (omega (arith, h.0)) in
    (
      false_branch (leb (time t) now) _ _ f ∙ ap (λ x. t ∷ x) r.0,
      λ j. elim (Bool-cases (t == j)) [
        | inl e ↦
            and_false (mem j (t ∷ ts)) (leb (time j) now)
              (subst (λ k. leb (time k) now ≡ false) (==_to t j e) f)
        | inr e ↦ rw e (r.1 j)
      ],
    )

-- What the rounds leave when there are as many of them as threads in the list
module _ (priority : ℕ → ℕ) (now current : ℕ) where
  pub record Woken (s w : Sleepers) : Type 0 where
    pub left : w.alarm_list ≡ pending s.time now s.alarm_list
    pub time : w.time ≡ s.time
    pub running :
        (j : ℕ)
        → w.threads.is_running j
          ≡ ((mem j s.alarm_list && leb (s.time j) now) || s.threads.is_running j)

  -- The head of the list is due: it runs, and the rest is as the rounds that follow leave it.
  module _ (t : ℕ) (ts : List ℕ) (s : Sleepers) (e : s.alarm_list ≡ t ∷ ts) (n : mem t ts ≡ false)
      (r : s.threads.is_running t ≡ false) (d : leb (s.time t) now ≡ true) where
    abbrev without : Sleepers
    without = record s { alarm_list = ts }

    abbrev first : Sleepers
    first = resume_thread priority current t without

    first_running : (j : ℕ) → first.threads.is_running j ≡ update s.threads.is_running t true j
    first_running j = ap (λ f. f j) (resumed_runs priority current t without n r)

    or_right :
        (j : ℕ)
        → ((mem j ts && leb (s.time j) now) || update s.threads.is_running t true j)
          ≡ ((mem j (t ∷ ts) && leb (s.time j) now) || s.threads.is_running j)
    or_right j = elim (Bool-cases (t == j)) [
      | inl u ↦
          let v = subst (λ k. leb (s.time k) now ≡ true) (==_to t j u) d in
          rw (u, v) (or_true (mem j ts && true))
      | inr u ↦ rw u refl
    ]

    first-Woken : (w : Sleepers) → Woken first w → Woken s w
    first-Woken w h =
        let q = resumed_list priority current t without n r in
        let c = resumed_time priority current t without n r in
        record {
          left =
              h.left
              ∙ ap (λ x. pending x now first.alarm_list) c
              ∙ ap (pending s.time now) q
              ∙ sym (true_branch (leb (s.time t) now) _ (t ∷ pending s.time now ts) d)
              ∙ ap (pending s.time now) (sym e);
          time = h.time ∙ c;
          running = λ j.
              h.running j
              ∙ ap (λ x. (mem j x && leb (first.time j) now) || first.threads.is_running j) q
              ∙ ap (λ x. (mem j ts && leb (x j) now) || first.threads.is_running j) c
              ∙ ap (λ x. (mem j ts && leb (s.time j) now) || x) (first_running j)
              ∙ or_right j
              ∙ ap (λ x. (mem j x && leb (s.time j) now) || s.threads.is_running j) (sym e);
        }

    first_asleep :
        ((j : ℕ) → mem j (t ∷ ts) ≡ true → s.threads.is_running j ≡ false)
        → (j : ℕ) → mem j ts ≡ true
        → first.threads.is_running j ≡ false
    first_asleep a j m = first_running j ∙ elim (Bool-cases (t == j)) [
      | inl u ↦ absurd (ground (arith, sym n ∙ ap (λ k. mem k ts) (==_to t j u) ∙ m))
      | inr u ↦ rw u (a j (mem_later t j ts u ∙ m))
    ]

  not_yet : (a : ℕ) → leb a now ≡ false → now < a
  not_yet a e = ground arith

  -- Nobody is due.
  none-Woken :
      (t : ℕ) (ts : List ℕ) (s : Sleepers)
      → s.alarm_list ≡ t ∷ ts
      → Sorted s.time (t ∷ ts)
      → leb (s.time t) now ≡ false
      → Woken s s
  none-Woken t ts s e o d =
      let l =
        later-pending s.time now (s.time t) (t ∷ ts) (not_yet (s.time t) d) (omega arith, o.0) in
      record {
        left = e ∙ sym l.0 ∙ ap (pending s.time now) (sym e);
        time = refl;
        running = λ j. sym (
            ap (λ q. (mem j q && leb (s.time j) now) || s.threads.is_running j) e
            ∙ ap (λ x. x || s.threads.is_running j) (l.1 j));
      }

  wake_rounds-Woken :
      (l : List ℕ) (s : Sleepers)
      → s.alarm_list ≡ l
      → Sorted s.time l
      → NoTwice l
      → ((j : ℕ) → mem j l ≡ true → s.threads.is_running j ≡ false)
      → Woken s (wake_rounds priority now current (length l) s)
  unfolding wake_rounds
  wake_rounds-Woken [] s e o n a = record {
    left = e ∙ sym (ap (pending s.time now) e);
    time = refl;
    running = λ j. sym (ap (λ q. (mem j q && leb (s.time j) now) || s.threads.is_running j) e);
  }
  wake_rounds-Woken (t ∷ ts) s e o n a =
      let h =
        ap (λ q. wake_head priority now current q (wake_rounds priority now current (length ts)) s)
          e in
      let r = a t (mem_head t t ts (==_self t)) in
      elim (Bool-cases (leb (s.time t) now)) [
        | inl d ↦ subst (Woken s) (sym (h ∙ true_branch (leb (s.time t) now) _ s d)) (
            first-Woken t ts s e n.0 r d _ (
              wake_rounds-Woken ts (first t ts s e n.0 r d)
                (resumed_list priority current t (record s { alarm_list = ts }) n.0 r)
                (subst (λ c. Sorted c ts)
                  (sym (resumed_time priority current t (record s { alarm_list = ts }) n.0 r)) o.1)
                n.1 (first_asleep t ts s e n.0 r d a)))
        | inr d ↦
            subst (Woken s) (sym (h ∙ false_branch (leb (s.time t) now) _ s d))
              (none-Woken t ts s e o d)
      ]

pending-NotBefore :
    (time : ℕ → ℕ) (now : ℕ) (ts : List ℕ) → NotBefore time (suc now) (pending time now ts)
pending-NotBefore time now [] = tt
pending-NotBefore time now (t ∷ ts) = elim (Bool-cases (leb (time t) now)) [
  | inl d ↦ rw d (pending-NotBefore time now ts)
  | inr d ↦ rw d (ground arith, pending-NotBefore time now ts)
]

-- The handler has woken every thread that was due and no other one, and has set the timer for the
-- first of those that are left.
pub record Handled (now : ℕ) (s w : Sleepers) : Type 0 where
  pub left : w.alarm_list ≡ pending s.time now s.alarm_list
  pub not_due : NotBefore s.time (suc now) w.alarm_list
  pub running :
      (j : ℕ)
      → w.threads.is_running j
        ≡ ((mem j s.alarm_list && leb (s.time j) now) || s.threads.is_running j)
  pub timer : (t : ℕ) (ts : List ℕ) → w.alarm_list ≡ t ∷ ts → w.timer ≡ some (s.time t - now)

restarted :
    (now : ℕ) (l : List ℕ) (w : Sleepers)
    → ((restart_alarm now l w).alarm_list ≡ w.alarm_list)
      × ((restart_alarm now l w).threads ≡ w.threads)
restarted now [] w = (refl, refl)
restarted now (t ∷ ts) w = (refl, refl)

-- From a list that is in the order of the times and holds sleeping threads, each once, the handler of
-- the alarm, when interrupts are not blocked, wakes the threads whose time has come and no others,
-- leaves the others in the list, and sets the timer for the first of them.
pub alarm_exception_lem :
    (priority : ℕ → ℕ) (now current : ℕ) (s : Sleepers)
    → Alarmed s
    → Handled now s (alarm_exception priority false now current s)
unfolding alarm_exception
alarm_exception_lem priority now current s a =
    let w = wake_rounds priority now current (length s.alarm_list) s in
    let h = wake_rounds-Woken priority now current s.alarm_list s refl a.sorted a.once a.asleep in
    let r = restarted now w.alarm_list w in
    record {
      left = r.0 ∙ h.left;
      not_due =
          subst (NotBefore s.time (suc now)) (sym (r.0 ∙ h.left))
            (pending-NotBefore s.time now s.alarm_list);
      running = λ j. ap (λ x. x.is_running j) r.1 ∙ h.running j;
      timer = λ t ts e.
          ap (λ l. (restart_alarm now l w).timer) (sym r.0 ∙ e) ∙ ap (λ f. some (f t - now)) h.time;
    }
