-- ===== src/Scheduler.antt =====
-- Which thread runs: `reschedule` and `setPriorityThread` of runtime/thread-internal.c, with the run
-- queues of Locks.
--
-- A queue is a list, so that `threadQtail` is always its last thread; `suspendThread` of the source does
-- not set it. `priority` is the priority in a thread's context and `java_priority` that in the Java object;
-- `has_context` says that `PrivateInfo` is not 0. Dead threads, the switch of stacks and the killing
-- of threads are not modelled. The source has a queue for each priority from 0 to 10.
pub mod Fairness
pub mod Steps
mod Tests
use la_tte.Common.{
  ℕ, zero, suc, ◌+◌, ◌%◌, ◌^◌, Bool, true, false, ◌||◌, Option, none, some, List, [], ◌∷◌, ◌++◌,
  ◌==◌, ltb, if◌then◌else◌, update,
}
use la_tte.Locks.{Threads, remove, iresume_thread, suspend_on_q_thread}

abbrev pub max_priority : ℕ
max_priority = 10

pub record Scheduler : Type 0 where
  pub threads : Threads
  pub current : ℕ
  pub priority : ℕ → ℕ
  pub java_priority : ℕ → ℕ
  pub has_context : ℕ → Bool

abbrev pub first_or : List ℕ → Option ℕ → Option ℕ
first_or [] lower = lower
first_or (t ∷ _) lower = some t

-- The search for a thread to run, from the highest priority down to 1
unfoldable pub first_of_highest : ℕ → (ℕ → List ℕ) → Option ℕ
first_of_highest zero queues = none
first_of_highest (suc n) queues = first_or (queues (suc n)) (first_of_highest n queues)

abbrev pub switch_to : Scheduler → Option ℕ → Option Scheduler
switch_to s none = none
switch_to s (some t) =
    some (record s { current = t; threads = record s.threads { need_reschedule = false } })

-- `reschedule`, where `none` is that no thread can run and it waits for an event
unfoldable pub reschedule : Scheduler → Option Scheduler
unfolding first_of_highest
reschedule s = switch_to s (first_of_highest max_priority s.threads.thread_q)

unfoldable pub set_priority_thread : ℕ → ℕ → Scheduler → Scheduler
unfolding remove
set_priority_thread tid prio s =
    let old = s.priority tid in
    let taken_out = update s.threads.thread_q old (remove tid (s.threads.thread_q old)) in
    if s.has_context tid
    then if s.threads.is_running tid
      then record s {
        java_priority = update s.java_priority tid prio;
        priority = update s.priority tid (prio % 2 ^ 8);
        threads = record s.threads {
          thread_q = update taken_out prio (taken_out prio ++ tid ∷ []);
          need_reschedule =
              (tid == s.current || ltb (s.priority s.current) prio) || s.threads.need_reschedule;
        };
      }
      else record s { priority = update s.priority tid (prio % 2 ^ 8) }
    else record s { java_priority = update s.java_priority tid prio }

-- `suspendThread`, up to the change of threads that follows when the thread is the current one
unfoldable pub suspend_thread : ℕ → Scheduler → Scheduler
unfolding remove
suspend_thread tid s =
    let p = s.priority tid in
    if s.threads.is_running tid
    then record s {
      threads = record s.threads {
        is_running = update s.threads.is_running tid false;
        thread_q = update s.threads.thread_q p (remove tid (s.threads.thread_q p));
      };
    }
    else s

-- `iresumeThread`, of a thread in no queue, and `suspendOnQThread` of one that runs and is in its run
-- queue
unfoldable pub iresume : ℕ → Scheduler → Scheduler
unfolding iresume_thread
iresume tid s = record s { threads = iresume_thread s.priority s.current tid s.threads }

unfoldable pub suspend_on_q : ℕ → Scheduler → Scheduler
unfolding suspend_on_q_thread
suspend_on_q tid s = record s { threads = (suspend_on_q_thread s.priority tid [] s.threads).1 }
