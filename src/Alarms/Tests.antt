-- ===== src/Alarms/Tests.antt =====
-- Two threads that sleep, one of them until its time has come.
use la_tte.Common.{some, ℕ, ◌≡◌, refl, true, false, none, [], ◌∷◌, arith}
use la_tte.Alarms.{Sleepers, alarm_exception, suspend_thread_on_q}
use la_tte.Alarms.Order.{Alarmed}
use la_tte.Alarms.Waking.{Handled, alarm_exception_lem}
use la_tte.Alarms.Keeping.{suspend_thread_on_q-Alarmed, alarm_exception-Alarmed}

abbrev level : ℕ → ℕ
level t = 5

-- Threads 1, 2 and 3 run.
abbrev awake : Sleepers
awake = record {
  threads = record {
    thread_q = λ p. 1 ∷ 2 ∷ 3 ∷ [];
    is_running = λ t. true;
    need_reschedule = false;
  };
  alarm_list = [];
  time = λ t. 0;
  has_alarm = λ t. false;
  block_queue = λ t. none;
  queues = λ q. [];
  timer = none;
}

-- Thread 2 sleeps from 100 for 40, in no queue, and thread 1 from 110 for 10 in a queue.
abbrev two_sleep : Sleepers
two_sleep =
    suspend_thread_on_q level 110 1 (some 7) 10 (suspend_thread_on_q level 100 2 none 40 awake)

awake-Alarmed : Alarmed awake
awake-Alarmed = record {
  sorted = tt;
  once = tt;
  flags = λ j. refl;
  asleep = λ j e. absurd (ground arith);
}

two_sleep-Alarmed : Alarmed two_sleep
two_sleep-Alarmed =
    suspend_thread_on_q-Alarmed level 110 1 (some 7) 10
      (suspend_thread_on_q level 100 2 none 40 awake)
      (suspend_thread_on_q-Alarmed level 100 2 none 40 awake awake-Alarmed)

two_sleep_list : two_sleep.alarm_list ≡ 1 ∷ 2 ∷ []
unfolding suspend_thread_on_q
two_sleep_list = refl

two_sleep_wakes : (alarm_exception level false 125 3 two_sleep).alarm_list ≡ 2 ∷ []
unfolding suspend_thread_on_q alarm_exception
two_sleep_wakes = refl

suspend_thread_on_q-Alarmed_example : Alarmed (suspend_thread_on_q level 100 2 none 40 awake)
suspend_thread_on_q-Alarmed_example =
    suspend_thread_on_q-Alarmed level 100 2 none 40 awake awake-Alarmed

alarm_exception_lem_example : Handled 125 two_sleep (alarm_exception level false 125 3 two_sleep)
alarm_exception_lem_example = alarm_exception_lem level 125 3 two_sleep two_sleep-Alarmed

alarm_exception-Alarmed_example : Alarmed (alarm_exception level false 125 3 two_sleep)
alarm_exception-Alarmed_example =
    alarm_exception-Alarmed level false 125 3 two_sleep two_sleep-Alarmed
