-- ===== src/Locks/System.antt =====
-- The threads that use one monitor: where each of them stands, and their steps in any order.
use la_tte.Common.{
  ℕ, zero, suc, ◌+◌, ◌<◌, ◌^◌, ◌≡◌, true, false, List, [], if◌then◌else◌, update, mem,
}
use la_tte.Locks.{
  World, completed, suspended, lock_mutex, unlock_mutex, wait_cond, wait_cond_resumed, signal_cond,
  broadcast_cond,
}
use la_tte.Locks.LockWord.{semaphore}

-- Where a thread stands: it does not hold the monitor; it holds it, so many times; it sleeps in the
-- loop of `_lockMutex`, or is awake again there; it sleeps in `_waitCond`, first in the queue of the
-- condition, later in that of the lock, or is awake again there. The number is the saved word.
pub data Pc : Type 0 where
  outside : Pc
  inside : ℕ → Pc
  queued : Pc
  woken : Pc
  waiting : ℕ → Pc
  signalled : ℕ → Pc
  resumed : ℕ → Pc

pub record System : Type 0 where
  pub world : World
  pub pc : ℕ → Pc

-- What `iresumeThread` does to a thread in the queue of the lock.
abbrev pub resume : Pc → Pc
resume queued = woken
resume (signalled v) = resumed v
resume p = p

-- What a move to the queue of the lock does to a thread that waits for the condition.
abbrev pub notify : Pc → Pc
notify (waiting v) = signalled v
notify p = p

-- The other threads after a step to `w`: those in the queue of the lock are no longer in that of the
-- condition, and those that run have left the queue of the lock.
abbrev pub settle : World → (ℕ → Pc) → ℕ → Pc
settle w pc j =
    let p = if mem j w.monitor.waiter_queue then notify (pc j) else pc j in
    if w.threads.is_running j then resume p else p

-- Where a thread stands that gets the monitor, or gets it once more.
abbrev pub enter : Pc → Pc
enter (inside n) = inside (suc n)
enter p = inside 1

-- ... and after a release of it
abbrev pub leave : ℕ → Pc
leave zero = outside
leave (suc n) = inside (suc n)

-- A thread may call `_lockMutex`, or is in its loop. A word counts 32767 calls at most.
abbrev pub MayLock : Pc → Type 0
MayLock outside = Unit
MayLock woken = Unit
MayLock (inside n) = n + 1 < 2 ^ 15
MayLock p = ⊥

-- A step of one thread, to a new world, and to its new place. A thread that does not hold the monitor
-- takes no step but `_lockMutex`: that the other functions are called by the holder only is assumed
-- here. So is that no change of threads takes place within a step.
pub data Act (priority : ℕ → ℕ) (i : ℕ) (w : World) : Pc → World → Pc → Type 0 where
  lock_taken :
      {p : Pc} {w' : World}
      → MayLock p
      → lock_mutex priority i w ≡ completed w'
      → Act priority i w p w' (enter p)
  lock_missed :
      {p : Pc} {w' : World}
      → MayLock p
      → lock_mutex priority i w ≡ suspended w'
      → Act priority i w p w' queued
  unlock :
      {n : ℕ} {w' : World}
      → unlock_mutex priority i w ≡ completed w'
      → Act priority i w (inside (suc n)) w' (leave n)
  wait :
      {n : ℕ} {w' : World}
      → wait_cond priority i w ≡ suspended w'
      → Act priority i w (inside n) w' (waiting w.monitor.lock_info)
  wait_over :
      {v : ℕ} {w' : World}
      → wait_cond_resumed priority i v w ≡ completed w'
      → Act priority i w (resumed v) w' (inside (semaphore v))
  wait_on :
      {v : ℕ} {w' : World}
      → wait_cond_resumed priority i v w ≡ suspended w'
      → Act priority i w (resumed v) w' (signalled v)
  signal :
      {n : ℕ} {w' : World}
      → signal_cond priority i w ≡ completed w'
      → Act priority i w (inside n) w' (inside n)
  broadcast :
      {n : ℕ} {w' : World}
      → broadcast_cond priority i w ≡ completed w'
      → Act priority i w (inside n) w' (inside n)

-- All threads are outside, and the word is 0; every thread runs.
abbrev pub fresh : (ℕ → List ℕ) → System
fresh queues = record {
  world = record {
    monitor = record { lock_info = 0; waiter_queue = []; cond_var_queue = [] };
    threads = record { thread_q = queues; is_running = λ t. true; need_reschedule = false };
  };
  pc = λ t. outside;
}

-- The states that steps reach, in any order of the threads; thread numbers have sixteen bits.
pub data Reach (priority : ℕ → ℕ) : System → Type 0 where
  at_first : (queues : ℕ → List ℕ) → Reach priority (fresh queues)
  later :
      {s : System} {w' : World} {p' : Pc}
      → Reach priority s
      → (i : ℕ) → i < 2 ^ 16
      → Act priority i s.world (s.pc i) w' p'
      → Reach priority (record { world = w'; pc = update (settle w' s.pc) i p' })
