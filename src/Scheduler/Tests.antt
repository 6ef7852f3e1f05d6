-- ===== src/Scheduler/Tests.antt =====
-- Three threads, one of a higher priority, one that sleeps.
use la_tte.Common.{
  ◌≤◌, ℕ, ◌≡◌, refl, sym, ap, ◌∙◌, Bool-cases, inl, inr, ==_to, true_branch, false_branch, true,
  false, [], ◌∷◌, ◌==◌, if◌then◌else◌, mem, arith,
}
use la_tte.Scheduler.{Scheduler, iresume, set_priority_thread}
use la_tte.Scheduler.Fairness.{Fair}
use la_tte.Scheduler.Steps.{set_priority_thread-Fair}

-- Thread 1 runs, 2 can run, both with priority 5; thread 3, with priority 7, sleeps.
abbrev two_run : Scheduler
two_run = record {
  threads = record {
    thread_q = λ p. if p == 5 then 1 ∷ 2 ∷ [] else [];
    is_running = λ t. if t == 1 then true else t == 2;
    need_reschedule = false;
  };
  current = 1;
  priority = λ t. if t == 3 then 7 else 5;
  java_priority = λ t. 5;
  has_context = λ t. true;
}

listed :
    (p t : ℕ) → mem t (two_run.threads.thread_q p) ≡ true → (5 ≡ p) × (mem t (1 ∷ 2 ∷ []) ≡ true)
listed p t m = elim (Bool-cases (p == 5)) [
  | inl e ↦ (sym (==_to p 5 e), sym (ap (mem t) (true_branch (p == 5) (1 ∷ 2 ∷ []) [] e)) ∙ m)
  | inr e ↦ absurd (ground (arith, sym (ap (mem t) (false_branch (p == 5) (1 ∷ 2 ∷ []) [] e)) ∙ m))
]

two_run-Fair : Fair two_run
two_run-Fair = record {
  queues = record {
    place = λ p t m. let l = listed p t m in ground (arith, l.0, l.1);
    runs = λ p t m. let l = listed p t m in ground (arith, l.1);
    once = λ p. elim (Bool-cases (p == 5)) [ inl e ↦ rw e (refl, (refl, tt)) | inr e ↦ rw e tt ];
  };
  above = λ n p h. ground arith;
}

three_wakes : (iresume 3 two_run).threads.need_reschedule ≡ true
unfolding iresume
three_wakes = refl

abbrev chosen : Scheduler
chosen = record (iresume 3 two_run) {
  current = 3;
  threads = record (iresume 3 two_run).threads { need_reschedule = false };
}

priorities_in_range : (t : ℕ) → two_run.priority t ≤ 10
priorities_in_range t = ground arith

set_priority_thread-Fair_example :
    Fair (set_priority_thread 2 8 two_run)
    × ((t : ℕ) → (set_priority_thread 2 8 two_run).priority t ≤ 10)
set_priority_thread-Fair_example =
    set_priority_thread-Fair 2 8 two_run (omega arith) priorities_in_range refl two_run-Fair
