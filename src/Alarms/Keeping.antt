-- ===== src/Alarms/Keeping.antt =====
-- What the functions that put threads to sleep and wake them keep true of the alarm list.
use la_tte.Common.{
  Option, none, ℕ, zero, suc, ◌≡◌, refl, sym, ap, ◌∙◌, subst, inl, inr, Bool, true, false,
  Bool-cases, some, List, [], ◌∷◌, ◌==◌, ltb, leb, length, update, update_self, ==_to, ==_self, mem,
  arith,
}
use la_tte.Locks.{suspend_on_q_thread}
use la_tte.Locks.Places.{NoTwice, mem_head, mem_later}
use la_tte.Alarms.{
  queue_of, join_queue, Sleepers, resume_thread, wake_head, wake_rounds, restart_alarm,
  alarm_exception, suspend_thread_on_q,
}
use la_tte.Alarms.Order.{Alarmed, Sorted, add_to_alarm_q-Alarmed}
use la_tte.Alarms.Waking.{resumed_list, resumed_time, resumed_runs, resumed_flags}

awake_absent :
    (s : Sleepers)
    → Alarmed s
    → (t : ℕ) → s.threads.is_running t ≡ true
    → mem t s.alarm_list ≡ false
awake_absent s a t r = elim (Bool-cases (mem t s.alarm_list)) [
  | inl m ↦ absurd (ground (arith, sym r ∙ a.asleep t m))
  | inr m ↦ m
]

-- Another thread goes to sleep.
slept-Alarmed :
    (s w : Sleepers) (t : ℕ)
    → Alarmed s
    → w.alarm_list ≡ s.alarm_list
    → w.time ≡ s.time
    → w.has_alarm ≡ s.has_alarm
    → w.threads.is_running ≡ update s.threads.is_running t false
    → Alarmed w
slept-Alarmed s w t a l i f r = record {
  sorted = rw (l, i) a.sorted;
  once = rw l a.once;
  flags = λ j. ap (λ g. g j) f ∙ a.flags j ∙ ap (mem j) (sym l);
  asleep = λ j m. ap (λ g. g j) r ∙ elim (Bool-cases (t == j)) [
    | inl u ↦ rw u refl
    | inr u ↦ rw u (a.asleep j (ap (mem j) (sym l) ∙ m))
  ];
}

-- What the insertion into a queue leaves as it is
record SameAlarms (s w : Sleepers) : Type 0 where
  list : w.alarm_list ≡ s.alarm_list
  times : w.time ≡ s.time
  flags : w.has_alarm ≡ s.has_alarm
  statuses : w.threads.is_running ≡ s.threads.is_running

joined : (tid : ℕ) (q : Option ℕ) (l : List ℕ) (s : Sleepers) → SameAlarms s (join_queue tid q l s)
joined tid none l s = record { list = refl; times = refl; flags = refl; statuses = refl }
joined tid (some q) l s = record { list = refl; times = refl; flags = refl; statuses = refl }

module _ (priority : ℕ → ℕ) where
  -- `suspendOnQThread`, with a queue or without, with a time-out or without, up to the change of
  -- threads at its end, keeps the alarm list in the order of the times, each thread in it once, the
  -- flags as the list says, and no thread in it running.
  pub suspend_thread_on_q-Alarmed :
      (now tid : ℕ) (q : Option ℕ) (timeout : ℕ) (s : Sleepers)
      → Alarmed s
      → Alarmed (suspend_thread_on_q priority now tid q timeout s)
  unfolding suspend_thread_on_q suspend_on_q_thread
  suspend_thread_on_q-Alarmed now tid q timeout s a = elim (Bool-cases (s.threads.is_running tid)) [
    | inr f ↦ rw f a
    | inl r ↦ elim (Bool-cases (mem tid (s.threads.thread_q (priority tid)))) [
      | inr f ↦ rw (r, f) (slept-Alarmed s _ tid a refl refl refl refl)
      | inl m ↦
          let t = suspend_on_q_thread priority tid (queue_of s q) s.threads in
          let w : Sleepers = record s { threads = t.1 } in
          let k = joined tid q t.0 w in
          let b =
            slept-Alarmed s (join_queue tid q t.0 w) tid a k.list k.times k.flags k.statuses in
          elim (Bool-cases (ltb 0 timeout)) [
            | inl t ↦
                rw (r, m, t)
                  (add_to_alarm_q-Alarmed now tid timeout
                    (join_queue tid q (suspend_on_q_thread priority tid (queue_of s q) s.threads).0
                      w)
                    b (ap (mem tid) k.list ∙ awake_absent s a tid r)
                    (ap (λ g. g tid) k.statuses ∙ update_self s.threads.is_running tid false))
            | inr f ↦ rw (r, m, f) b
          ]
    ]
  ]

  first-Alarmed :
      (current t : ℕ) (ts : List ℕ) (s : Sleepers)
      → s.alarm_list ≡ t ∷ ts
      → Alarmed s
      → Alarmed (resume_thread priority current t (record s { alarm_list = ts }))
  first-Alarmed current t ts s e a =
      let w = record s { alarm_list = ts } in
      let n = (subst NoTwice e a.once).0 in
      let r = a.asleep t (ap (mem t) e ∙ mem_head t t ts (==_self t)) in
      let l = resumed_list priority current t w n r in
      let i = resumed_time priority current t w n r in
      let h = a.flags t ∙ ap (mem t) e ∙ mem_head t t ts (==_self t) in
      let f = resumed_flags priority current t w n r h in
      let g = resumed_runs priority current t w n r in
      record {
        sorted = rw (l, i) (subst (Sorted s.time) e a.sorted).1;
        once = rw l (subst NoTwice e a.once).1;
        flags = λ j. ap (λ x. x j) f ∙ elim (Bool-cases (t == j)) [
          | inl u ↦ rw u (sym (ap (mem j) l ∙ subst (λ k. mem k ts ≡ false) (==_to t j u) n))
          | inr u ↦ rw u (a.flags j ∙ ap (mem j) e ∙ mem_later t j ts u ∙ ap (mem j) (sym l))
        ];
        asleep = λ j m. ap (λ x. x j) g ∙ elim (Bool-cases (t == j)) [
          | inl u ↦
              absurd
                (ground (arith, sym n ∙ ap (λ k. mem k ts) (==_to t j u) ∙ ap (mem j) (sym l) ∙ m))
          | inr u ↦ rw u (a.asleep j (ap (mem j) e ∙ mem_later t j ts u ∙ ap (mem j) (sym l) ∙ m))
        ];
      }

  wake_head-Alarmed :
      (now current : ℕ) (l : List ℕ) (rounds : Sleepers → Sleepers) (s : Sleepers)
      → ((s : Sleepers) → Alarmed s → Alarmed (rounds s))
      → s.alarm_list ≡ l
      → Alarmed s
      → Alarmed (wake_head priority now current l rounds s)
  wake_head-Alarmed now current [] rounds s h e a = a
  wake_head-Alarmed now current (t ∷ ts) rounds s h e a = elim (Bool-cases (leb (s.time t) now)) [
    | inl d ↦ rw d (
        h (resume_thread priority current t (record s { alarm_list = ts }))
          (first-Alarmed current t ts s e a))
    | inr d ↦ rw d a
  ]

  wake_rounds-Alarmed :
      (now current n : ℕ) (s : Sleepers)
      → Alarmed s
      → Alarmed (wake_rounds priority now current n s)
  unfolding wake_rounds
  wake_rounds-Alarmed now current zero s a = a
  wake_rounds-Alarmed now current (suc n) s a =
      wake_head-Alarmed now current s.alarm_list (wake_rounds priority now current n) s
        (wake_rounds-Alarmed now current n) refl a

  restart_alarm-Alarmed :
      (now : ℕ) (l : List ℕ) (s : Sleepers) → Alarmed s → Alarmed (restart_alarm now l s)
  restart_alarm-Alarmed now [] s a = a
  restart_alarm-Alarmed now (t ∷ ts) s a = record {
    sorted = a.sorted;
    once = a.once;
    flags = a.flags;
    asleep = a.asleep;
  }

  -- `alarmException`, whether or not interrupts are blocked, keeps the alarm list in the order of the
  -- times, each thread in it once, the flags as the list says, and no thread in it running.
  pub alarm_exception-Alarmed :
      (blocked : Bool) (now current : ℕ) (s : Sleepers)
      → Alarmed s
      → Alarmed (alarm_exception priority blocked now current s)
  unfolding alarm_exception
  alarm_exception-Alarmed true now current s a = record {
    sorted = a.sorted;
    once = a.once;
    flags = a.flags;
    asleep = a.asleep;
  }
  alarm_exception-Alarmed false now current s a =
      restart_alarm-Alarmed now _ _ (wake_rounds-Alarmed now current (length s.alarm_list) s a)
