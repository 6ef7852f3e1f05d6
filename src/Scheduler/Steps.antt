-- ===== src/Scheduler/Steps.antt =====
-- What the operations of the scheduler keep true.
use la_tte.Common.{
  by_test, ℕ, ◌%◌, ◌^◌, ◌≤◌, ◌<◌, ◌≡◌, refl, sym, ap, ◌∙◌, subst, inl, inr, Bool, true, false, ◌||◌,
  ◌&&◌, Bool-cases, Option, List, [], ◌∷◌, ◌++◌, ◌==◌, ltb, update, update_self, update_ne, ==_to,
  true_branch, false_branch, arith,
}
use la_tte.Locks.{is_empty, remove, suspend_on_q_thread}
use la_tte.Scheduler.{
  Scheduler, max_priority, set_priority_thread, iresume, suspend_on_q, suspend_thread,
}
use la_tte.Scheduler.Fairness.{
  Fair, remove_empty, absent_sleeps, left-Queues, left_absent, more-Queues, asleep-Queues,
  renumbered,
}

not_less : (a b : ℕ) → ltb a b ≡ false → b ≤ a
not_less a b t = ground arith

-- What `reschedule` does: it changes no queue, status or priority, and no change of threads is due
-- afterwards; the thread that runs is the head of the queue of its priority, and all queues above are
-- empty.
pub record Switched (s after : Scheduler) : Type 0 where
  pub queues_kept : after.threads.thread_q ≡ s.threads.thread_q
  pub statuses_kept : after.threads.is_running ≡ s.threads.is_running
  pub priorities_kept : after.priority ≡ s.priority
  pub not_due : after.threads.need_reschedule ≡ false
  pub rest : List ℕ
  pub head : after.threads.thread_q (after.priority after.current) ≡ after.current ∷ rest
  pub none_above : (p : ℕ) → after.priority after.current < p → after.threads.thread_q p ≡ []

or_first : (a b : Bool) → (a || b) ≡ false → a ≡ false
or_first a b e = ground arith

unequal : (a b : ℕ) → a < b → (a == b) ≡ false
unequal a b h = ground arith

or_false : (a b : Bool) → (a || b) ≡ false → b ≡ false
or_false a b e = ground arith

-- The queues above the current priority when a thread has been added, or taken out
above_added :
    (q : ℕ → List ℕ) (p k c tid : ℕ) (need : Bool)
    → (need ≡ false → (k : ℕ) → c < k → q k ≡ [])
    → ((is_empty (q p) && ltb c p) || need) ≡ false
    → c < k
    → update q p (q p ++ tid ∷ []) k ≡ []
above_added q p k c tid need old n h = elim (Bool-cases (p == k)) [
  | inl e ↦
      let z = old (or_false _ _ n) k h in
      let y = subst (λ k. (q k ≡ []) × (c < k)) (sym (==_to p k e)) (z, h) in
      absurd (nonempty (q p) (ltb c p) need y.0 (lesser c p y.1) n)
  | inr e ↦ false_branch (p == k) (q p ++ tid ∷ []) (q k) e ∙ old (or_false _ _ n) k h
]
  where
    lesser : (a b : ℕ) → a < b → ltb a b ≡ true
    lesser a b h = ground arith

    nonempty :
        (l : List ℕ) (b need : Bool) → l ≡ [] → b ≡ true → ((is_empty l && b) || need) ≡ false → ⊥
    nonempty [] b need z y n = ground arith
    nonempty (u ∷ us) b need z y n = absurd (ground arith)

above_left : (q : ℕ → List ℕ) (p k tid : ℕ) → q k ≡ [] → update q p (remove tid (q p)) k ≡ []
above_left q p k tid z = elim (Bool-cases (p == k)) [
  | inl e ↦
      true_branch (p == k) (remove tid (q p)) (q k) e
      ∙ remove_empty tid (q p) (ap q (==_to p k e) ∙ z)
  | inr e ↦ false_branch (p == k) (remove tid (q p)) (q k) e ∙ z
]

-- `iresumeThread` of a thread that is in no queue keeps this: when the thread has a higher priority than
-- the current one, a change of threads is due.
pub iresume-Fair : (tid : ℕ) (s : Scheduler) → Fair s → Fair (iresume tid s)
unfolding iresume
iresume-Fair tid s f = elim (Bool-cases (s.threads.is_running tid)) [
  | inl r ↦ rw r f
  | inr r ↦
      let p = s.priority tid in
      let q = s.threads.thread_q in
      rw r (record {
        queues =
            more-Queues f.queues tid (update s.threads.is_running tid true) s.priority p
              (absent_sleeps f.queues tid r) (update_self s.threads.is_running tid true)
              (λ t n. update_ne s.threads.is_running tid t true n) refl (λ t n. refl);
        above = λ n k h.
            above_added q p k (s.priority s.current) tid s.threads.need_reschedule f.above n h;
      })
]

-- `suspendOnQThread` and `suspendThread`, before the change of threads, keep this.
slept-Fair :
    (tid : ℕ) (s : Scheduler)
    → (f : Fair s)
    → Fair (record s {
      threads = record s.threads {
        is_running = update s.threads.is_running tid false;
        thread_q =
            update s.threads.thread_q
              (s.priority tid)
              (remove tid (s.threads.thread_q (s.priority tid)));
      };
    })
slept-Fair tid s f = record {
  queues = asleep-Queues (left-Queues f.queues tid) tid (left_absent f.queues tid);
  above = λ n k h. above_left s.threads.thread_q (s.priority tid) k tid (f.above n k h);
}

suspend_on_q-Fair : (tid : ℕ) (s : Scheduler) → Fair s → Fair (suspend_on_q tid s)
unfolding suspend_on_q suspend_on_q_thread
suspend_on_q-Fair tid s f = slept-Fair tid s f

suspend_thread-Fair : (tid : ℕ) (s : Scheduler) → Fair s → Fair (suspend_thread tid s)
unfolding suspend_thread
suspend_thread-Fair tid s f = elim (Bool-cases (s.threads.is_running tid)) [
  | inl r ↦ rw r (slept-Fair tid s f)
  | inr r ↦ rw r f
]

above_moved :
    (tid current prio : ℕ) (priority : ℕ → ℕ) (need : Bool) (q : ℕ → List ℕ)
    → (need ≡ false → (p : ℕ) → priority current < p → q p ≡ [])
    → ((tid == current || ltb (priority current) prio) || need) ≡ false
    → (p : ℕ) → update priority tid (prio % 2 ^ 8) current < p
    → (let taken_out = update q (priority tid) (remove tid (q (priority tid))) in
        update taken_out prio (taken_out prio ++ tid ∷ []) p ≡ [])
above_moved tid current prio priority need q old n p h =
    let w = or_first _ _ n in
    let e : update priority tid (prio % 2 ^ 8) current ≡ priority current =
      false_branch (tid == current) (prio % 2 ^ 8) (priority current) (or_first _ _ w) in
    let b : prio ≤ priority current =
      not_less (priority current) prio
        (or_false (tid == current) (ltb (priority current) prio) w) in
    let l : priority current < p = omega (arith, e, h) in
    false_branch (prio == p) _ _ (unequal prio p (omega (arith, b, l)))
    ∙ above_left q (priority tid) p tid (old (or_false _ _ n) p l)

kept_fair :
    (tid prio : ℕ) (s : Scheduler)
    → prio ≤ max_priority
    → s.threads.is_running s.current ≡ true
    → Fair s
    → Fair (set_priority_thread tid prio s)
unfolding set_priority_thread
kept_fair tid prio s l c f = elim (Bool-cases (s.has_context tid)) [
  | inr x ↦ rw x (record { queues = f.queues; above = f.above })
  | inl x ↦ elim (Bool-cases (s.threads.is_running tid)) [
    | inr r ↦
        rw (x, r)
          (record {
            queues = renumbered f.queues tid (prio % 2 ^ 8) (absent_sleeps f.queues tid r);
            above = λ n p h. f.above n p (
                subst (λ v. v < p)
                  (update_ne s.priority tid s.current (prio % 2 ^ 8)
                    (λ e. absurd (ground (arith, c, r, ap s.threads.is_running e))))
                  h);
          })
    | inl r ↦
        rw (x, r)
          (record {
            queues =
                more-Queues (left-Queues f.queues tid) tid s.threads.is_running _ prio
                  (left_absent f.queues tid) r (λ t n. refl)
                  (update_self s.priority tid (prio % 2 ^ 8) ∙ omega arith)
                  (λ t n. update_ne s.priority tid t (prio % 2 ^ 8) n);
            above = λ n p h.
                above_moved tid s.current prio s.priority s.threads.need_reschedule
                  s.threads.thread_q f.above n p h;
          })
  ]
]

in_range :
    (tid v : ℕ) (priority : ℕ → ℕ)
    → v ≤ max_priority
    → ((t : ℕ) → priority t ≤ max_priority)
    → (t : ℕ) → update priority tid v t ≤ max_priority
in_range tid v priority l b t =
    by_test (λ n. n ≤ max_priority) (tid == t) v (priority t) (λ _. l) (λ _. b t)

-- When each thread in a run queue stands there once, in that of its priority, and runs, and the queues
-- above the priority of the current thread are empty unless a change of threads is due, then this is
-- so after `setPriorityThread` as well: for a thread without a context, one that sleeps, and one that
-- can run. The current thread must be running, and all priorities, the new one among them, at most
-- 10, which they are afterwards; so no access is outside the eleven queues.
pub set_priority_thread-Fair :
    (tid prio : ℕ) (s : Scheduler)
    → prio ≤ max_priority
    → ((t : ℕ) → s.priority t ≤ max_priority)
    → s.threads.is_running s.current ≡ true
    → Fair s
    → Fair (set_priority_thread tid prio s)
      × ((t : ℕ) → (set_priority_thread tid prio s).priority t ≤ max_priority)
unfolding set_priority_thread
set_priority_thread-Fair tid prio s l b c f = (
  kept_fair tid prio s l c f,
  λ t. elim (Bool-cases (s.has_context tid)) [
    | inr x ↦ rw x (b t)
    | inl x ↦ elim (Bool-cases (s.threads.is_running tid)) [
      | inr r ↦ rw (x, r) (in_range tid (prio % 2 ^ 8) s.priority (omega (arith, l)) b t)
      | inl r ↦ rw (x, r) (in_range tid (prio % 2 ^ 8) s.priority (omega (arith, l)) b t)
    ]
  ],
)
