-- ===== src/Alarms.antt =====
-- Threads that sleep with a time-out: the alarm list of runtime/thread-internal.c.
--
-- `alarm_list` is linked through `nextalarm`, its head first; `has_alarm` is `THREAD_FLAGS_ALARM`;
-- `block_queue` says which queue `blockqueue` points to, and `queues` are these queues. `timer` is what
-- the system's timer was last set to. Times do not overflow. `intsDisable` succeeds at once, and the
-- change of threads at the end of an operation is not modelled.
mod Order
mod Waking
mod Keeping
mod Tests
use la_tte.Common.{
  ℕ, zero, suc, ◌+◌, ◌-◌, Bool, true, false, Option, none, some, List, [], ◌∷◌, ◌&&◌, ltb, leb,
  ◌==◌, length, if◌then◌else◌, update, mem,
}
use la_tte.Locks.{Threads, remove, iresume_thread, suspend_on_q_thread}

pub record Sleepers : Type 0 where
  pub threads : Threads
  pub alarm_list : List ℕ
  pub time : ℕ → ℕ
  pub has_alarm : ℕ → Bool
  pub block_queue : ℕ → Option ℕ
  pub queues : ℕ → List ℕ
  pub timer : Option ℕ

-- The search for the place of a thread: before the first that is to be woken later
unfoldable pub insert_alarm : (ℕ → ℕ) → ℕ → List ℕ → List ℕ
insert_alarm time tid [] = tid ∷ []
insert_alarm time tid (t ∷ ts) =
    if ltb (time tid) (time t) then tid ∷ t ∷ ts else t ∷ insert_alarm time tid ts

-- `tidp == &alarmList`, that is, the thread is the head
abbrev pub starts_with : ℕ → List ℕ → Bool
starts_with tid [] = false
starts_with tid (t ∷ _) = t == tid

unfoldable pub add_to_alarm_q : ℕ → ℕ → ℕ → Sleepers → Sleepers
unfolding insert_alarm
add_to_alarm_q now tid timeout s =
    let time' = update s.time tid (timeout + now) in
    let list' = insert_alarm time' tid s.alarm_list in
    record s {
      has_alarm = update s.has_alarm tid true;
      time = time';
      alarm_list = list';
      timer = if starts_with tid list' then some timeout else s.timer;
    }

unfoldable pub remove_from_alarm_q : ℕ → Sleepers → Sleepers
unfolding remove
remove_from_alarm_q tid s = record s {
  has_alarm = update s.has_alarm tid false;
  alarm_list = remove tid s.alarm_list;
}

-- ... and from the queue in which it is blocked
abbrev leave_queue : ℕ → Option ℕ → Sleepers → Sleepers
leave_queue tid none s = s
leave_queue tid (some q) s = record s {
  queues = update s.queues q (remove tid (s.queues q));
  block_queue = update s.block_queue tid none;
}

-- `if (queue != 0)` of `suspendOnQThread`
abbrev pub queue_of : Sleepers → Option ℕ → List ℕ
queue_of s none = []
queue_of s (some q) = s.queues q

abbrev pub join_queue : ℕ → Option ℕ → List ℕ → Sleepers → Sleepers
join_queue tid none joined s = s
join_queue tid (some q) joined s = record s {
  queues = update s.queues q joined;
  block_queue = update s.block_queue tid (some q);
}

abbrev restart_alarm : ℕ → List ℕ → Sleepers → Sleepers
restart_alarm now [] s = s
restart_alarm now (t ∷ ts) s = record s { timer = some (s.time t - now) }

module _ (priority : ℕ → ℕ) where
  -- `iresumeThread` of any thread
  unfoldable pub resume_thread : ℕ → ℕ → Sleepers → Sleepers
  unfolding remove_from_alarm_q iresume_thread
  resume_thread current tid s =
      if s.threads.is_running tid
      then s
      else let a = if s.has_alarm tid then remove_from_alarm_q tid s else s in
        let b = leave_queue tid (a.block_queue tid) a in
        record b { threads = iresume_thread priority current tid b.threads }

  -- `suspendOnQThread` of any thread, with or without a queue, where `none` is NULL, and with or
  -- without a time-out
  unfoldable pub suspend_thread_on_q : ℕ → ℕ → Option ℕ → ℕ → Sleepers → Sleepers
  unfolding add_to_alarm_q suspend_on_q_thread
  suspend_thread_on_q now tid q timeout s =
      let r = suspend_on_q_thread priority tid (queue_of s q) s.threads in
      let asleep = join_queue tid q r.0 (record s { threads = r.1 }) in
      if s.threads.is_running tid
      then if mem tid (s.threads.thread_q (priority tid))
        then if ltb 0 timeout then add_to_alarm_q now tid timeout asleep else asleep
        else record s {
          threads = record s.threads { is_running = update s.threads.is_running tid false };
        }
      else s

  -- The loop of `alarmException`
  abbrev wake_head : ℕ → ℕ → List ℕ → (Sleepers → Sleepers) → Sleepers → Sleepers
  wake_head now current [] rounds s = s
  wake_head now current (t ∷ ts) rounds s =
      if leb (s.time t) now
      then rounds (resume_thread current t (record s { alarm_list = ts }))
      else s

  unfoldable pub wake_rounds : ℕ → ℕ → ℕ → Sleepers → Sleepers
  unfolding resume_thread
  wake_rounds now current zero s = s
  wake_rounds now current (suc n) s =
      wake_head now current s.alarm_list (wake_rounds now current n) s

  -- `alarmException`, where the rounds are as many as there are threads in the list; `blocked` is
  -- `blockInts > 1`.
  unfoldable pub alarm_exception : Bool → ℕ → ℕ → Sleepers → Sleepers
  unfolding wake_rounds
  alarm_exception blocked now current s =
      let w = wake_rounds now current (length s.alarm_list) s in
      if blocked then record s { timer = some 50 } else restart_alarm now w.alarm_list w
