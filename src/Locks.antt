-- ===== src/Locks.antt =====
-- Monitors: runtime/locks.c, with what it uses of runtime/thread-internal.c.
--
-- As config-def.h configures it, `LOCK_OPT` and `PRECISE_MONITOREXIT` are defined and
-- `NEW_CTX_SWITCH` is not. Threads run one at a time; `me` is `currentThreadID`, which also stands for
-- the thread. A queue that is linked through `nextQ` is a list, its head first. The model is of one
-- object, since every object has its own word and queues (Table). Each function is cut where
-- `suspendOnQThread` gives the processor away, and what follows is a function of its own. Time-outs,
-- `ThreadDeath` and a change of threads inside a function are not modelled.
pub mod LockWord
pub mod Holding
pub mod Table
pub mod System
pub mod Exclusion
pub mod Waiters
pub mod Moves
pub mod Release
pub mod Places
pub mod Ordering
pub mod Wakeup
mod Tests
use la_tte.Common.{
  ℕ, zero, suc, ◌+◌, ◌-◌, ◌*◌, ◌/◌, ◌%◌, ◌^◌, bit_and, bit_or, Bool, true, false, not, ◌&&◌, ◌||◌,
  Option, none, some, List, [], ◌∷◌, ◌++◌, ◌==◌, ltb, leb, if◌then◌else◌, update,
}

-- `SEMAPHORE_MASK`, `OWNER_ID_MASK` and `HAS_WAITERS_MASK`, and what they select
abbrev pub semaphore_mask : ℕ
semaphore_mask = 0xfffe_0000

abbrev pub owner_id_mask : ℕ
owner_id_mask = 0xffff

abbrev pub has_waiters_mask : ℕ
has_waiters_mask = 0x1_0000

pub record Monitor : Type 0 where
  pub lock_info : ℕ
  pub waiter_queue : List ℕ
  pub cond_var_queue : List ℕ

-- The run queues by priority, and which threads are `THREAD_RUNNING`
pub record Threads : Type 0 where
  pub thread_q : ℕ → List ℕ
  pub is_running : ℕ → Bool
  pub need_reschedule : Bool

pub record World : Type 0 where
  pub monitor : Monitor
  pub threads : Threads

-- What a call does: it goes on, gives the processor away, throws `IllegalMonitorStateException`, or
-- reads through a null pointer.
pub data Result : Type 0 where
  completed : World → Result
  suspended : World → Result
  illegal_monitor_state : Result
  null_pointer : Result

-- A test of a queue's head against NULL
abbrev pub if_empty : List ℕ → ℕ → ℕ → ℕ
if_empty [] a b = a
if_empty (_ ∷ _) a b = b

abbrev pub is_empty : List ℕ → Bool
is_empty [] = true
is_empty (_ ∷ _) = false

-- The search of a queue for a thread that is to leave it
unfoldable pub remove : ℕ → List ℕ → List ℕ
remove tid [] = []
remove tid (t ∷ ts) = if t == tid then ts else t ∷ remove tid ts

-- `*((unsigned short *)&lock_info) += 2` and `-= 2`, on a big-endian machine
unfoldable pub semaphore_up : ℕ → ℕ
semaphore_up info = (info / 2 ^ 16 + 2) % 2 ^ 16 * 2 ^ 16 + info % 2 ^ 16

unfoldable pub semaphore_down : ℕ → ℕ
semaphore_down info = (info / 2 ^ 16 - 2) * 2 ^ 16 + info % 2 ^ 16

-- `*(((unsigned short *)&lock_info) + 1) = currentThreadID`
unfoldable pub set_owner : ℕ → ℕ → ℕ
set_owner me info = info / 2 ^ 16 * 2 ^ 16 + me % 2 ^ 16

module _ (priority : ℕ → ℕ) where
  -- `iresumeThread` of a thread that is in no queue; `current` is the thread that calls it.
  unfoldable pub iresume_thread : ℕ → ℕ → Threads → Threads
  iresume_thread current tid s = if s.is_running tid then s else record s {
    is_running = update s.is_running tid true;
    thread_q = update s.thread_q (priority tid) (s.thread_q (priority tid) ++ tid ∷ []);
    need_reschedule =
        (is_empty (s.thread_q (priority tid)) && ltb (priority current) (priority tid))
        || s.need_reschedule;
  }

  -- `suspendOnQThread` of a thread that runs and is in its run queue: the new run queues, and the
  -- queue it waits in. Alarms has the other cases.
  unfoldable pub suspend_on_q_thread : ℕ → List ℕ → Threads → List ℕ × Threads
  unfolding remove
  suspend_on_q_thread tid queue s = (
    tid ∷ queue,
    record s {
      is_running = update s.is_running tid false;
      thread_q = update s.thread_q (priority tid) (remove tid (s.thread_q (priority tid)));
    },
  )

  unfoldable pub wait_in_queue : ℕ → World → World
  unfolding suspend_on_q_thread
  wait_in_queue me w =
      let q = suspend_on_q_thread me w.monitor.waiter_queue w.threads in
      record {
        monitor = record w.monitor {
          lock_info = bit_or w.monitor.lock_info has_waiters_mask;
          waiter_queue = q.0;
        };
        threads = q.1;
      }

  -- One round of the loop of `_lockMutex`
  unfoldable pub lock_mutex : ℕ → World → Result
  unfolding wait_in_queue set_owner semaphore_up
  lock_mutex me w =
      let info = w.monitor.lock_info in
      if bit_and info semaphore_mask == 0
      then completed
          (record w { monitor = record w.monitor { lock_info = semaphore_up (set_owner me info) } })
      else if bit_and info owner_id_mask == me
      then completed (record w { monitor = record w.monitor { lock_info = semaphore_up info } })
      else suspended (wait_in_queue me w)

  -- `wakeup_waiter`, with the queue that it reads
  unfoldable pub wakeup_first : ℕ → List ℕ → World → Result
  unfolding iresume_thread
  wakeup_first me [] w = null_pointer
  wakeup_first me (t ∷ ts) w = completed (record {
    monitor = record w.monitor { waiter_queue = ts; lock_info = if_empty ts 0 w.monitor.lock_info };
    threads = iresume_thread me t w.threads;
  })

  unfoldable pub wakeup_waiter : ℕ → World → Result
  unfolding wakeup_first
  wakeup_waiter me w = wakeup_first me w.monitor.waiter_queue w

  unfoldable pub unlock_mutex : ℕ → World → Result
  unfolding wakeup_waiter semaphore_down
  unlock_mutex me w =
      let info = semaphore_down w.monitor.lock_info in
      let w' = record w { monitor = record w.monitor { lock_info = info } } in
      if leb 2 (w.monitor.lock_info / 2 ^ 16)
      then if info / 2 ^ 16 == 1 then wakeup_waiter me w' else completed w'
      else illegal_monitor_state

  -- The release of the lock in `_waitCond`, the waking of the first waiter, if any, and the wait
  unfoldable pub release_and_wait : ℕ → List ℕ → World → World
  unfolding iresume_thread suspend_on_q_thread
  release_and_wait me [] w =
      let q = suspend_on_q_thread me w.monitor.cond_var_queue w.threads in
      record {
        monitor = record w.monitor {
          lock_info = bit_and w.monitor.lock_info has_waiters_mask;
          cond_var_queue = q.0;
        };
        threads = q.1;
      }
  release_and_wait me (t ∷ ts) w =
      let q = suspend_on_q_thread me w.monitor.cond_var_queue (iresume_thread me t w.threads) in
      record {
        monitor = record {
          lock_info = if_empty ts 0 has_waiters_mask;
          waiter_queue = ts;
          cond_var_queue = q.0;
        };
        threads = q.1;
      }

  -- `_waitCond` up to the first loss of the processor
  unfoldable pub wait_cond : ℕ → World → Result
  unfolding release_and_wait
  wait_cond me w =
      if bit_and w.monitor.lock_info owner_id_mask == me
      then suspended (release_and_wait me w.monitor.waiter_queue w)
      else illegal_monitor_state

  -- `_waitCond` from there: one round of the loop, and what follows it; `saved` is the word that
  -- was in `lock_info` at the call.
  unfoldable pub wait_cond_resumed : ℕ → ℕ → World → Result
  unfolding wait_in_queue
  wait_cond_resumed me saved w =
      if bit_and w.monitor.lock_info semaphore_mask == 0
      then completed (record w {
        monitor = record w.monitor {
          lock_info =
              if_empty w.monitor.waiter_queue (bit_and saved 0xfffe_ffff)
                (bit_or saved has_waiters_mask);
        };
      })
      else suspended (wait_in_queue me w)

  unfoldable pub signal_queue : List ℕ → World → World
  signal_queue [] w = w
  signal_queue (t ∷ ts) w = record w {
    monitor = record {
      lock_info = bit_or w.monitor.lock_info has_waiters_mask;
      waiter_queue = t ∷ w.monitor.waiter_queue;
      cond_var_queue = ts;
    };
  }

  unfoldable pub signal_cond : ℕ → World → Result
  unfolding signal_queue
  signal_cond me w =
      if bit_and w.monitor.lock_info owner_id_mask == me
      then completed (signal_queue w.monitor.cond_var_queue w)
      else illegal_monitor_state

  unfoldable pub broadcast_queue : List ℕ → World → World
  broadcast_queue [] w = w
  broadcast_queue (t ∷ ts) w = record w {
    monitor = record {
      lock_info = bit_or w.monitor.lock_info has_waiters_mask;
      waiter_queue = (t ∷ ts) ++ w.monitor.waiter_queue;
      cond_var_queue = [];
    };
  }

  unfoldable pub broadcast_cond : ℕ → World → Result
  unfolding broadcast_queue
  broadcast_cond me w =
      if bit_and w.monitor.lock_info owner_id_mask == me
      then completed (broadcast_queue w.monitor.cond_var_queue w)
      else illegal_monitor_state
