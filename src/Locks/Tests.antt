-- ===== src/Locks/Tests.antt =====
-- Runs of three threads that use one monitor, and of the table of locks.
use la_tte.Common.{
  ℕ, ◌≡◌, ◌≢◌, refl, sym, ap, ◌∙◌, List, [], ◌∷◌, if◌then◌else◌, ◌==◌, update, arith,
}
use la_tte.Locks.{
  World, Result, completed, suspended, if_empty, lock_mutex, unlock_mutex, wait_cond, signal_cond,
  broadcast_cond,
}
use la_tte.Locks.LockWord.{semaphore}
use la_tte.Locks.System.{
  Pc, outside, inside, queued, System, settle, lock_taken, lock_missed, unlock, fresh, Reach,
  at_first, later,
}
use la_tte.Locks.Exclusion.{mutual_exclusion}
use la_tte.Locks.Waiters.{holder_proceeds}
use la_tte.Locks.Places.{Orderly}
use la_tte.Locks.Wakeup.{AtDoor, queues_lem, no_lost_wakeup}
use la_tte.Locks.Table.{JLock, get_lock, lock_of, write_lock, write_lock_lem}

abbrev low : ℕ → ℕ
low t = 5

abbrev run_queues : ℕ → List ℕ
run_queues p = if p == 5 then 1 ∷ 2 ∷ 3 ∷ [] else []

abbrev world_of : World → Result → World
world_of w (completed v) = v
world_of w (suspended v) = v
world_of w r = w

abbrev next : ℕ → System → Result → Pc → System
next i s r p = record {
  world = world_of s.world r;
  pc = update (settle (world_of s.world r) s.pc) i p;
}

-- Thread 1 locks the monitor, 2 and 3 wait for it, and 1 leaves it.
abbrev locked : System
locked = next 1 (fresh run_queues) (lock_mutex low 1 (fresh run_queues).world) (inside 1)

abbrev one_waits : System
one_waits = next 2 locked (lock_mutex low 2 locked.world) queued

abbrev two_wait : System
two_wait = next 3 one_waits (lock_mutex low 3 one_waits.world) queued

abbrev left : System
left = next 1 two_wait (unlock_mutex low 1 two_wait.world) outside

locked-Reach : Reach low locked
unfolding lock_mutex
locked-Reach = later (at_first run_queues) 1 (omega arith) (lock_taken {p = outside} tt refl)

one_waits-Reach : Reach low one_waits
unfolding lock_mutex
one_waits-Reach = later locked-Reach 2 (omega arith) (lock_missed {p = outside} tt refl)

two_wait-Reach : Reach low two_wait
unfolding lock_mutex
two_wait-Reach = later one_waits-Reach 3 (omega arith) (lock_missed {p = outside} tt refl)

left-Reach : Reach low left
unfolding lock_mutex unlock_mutex
left-Reach = later two_wait-Reach 1 (omega arith) (unlock {n = 0} refl)

two_wait-inside : two_wait.pc 1 ≡ inside 1
unfolding lock_mutex
two_wait-inside = refl

left_free : semaphore left.world.monitor.lock_info ≡ 0
unfolding lock_mutex unlock_mutex
left_free = refl

left_queue : left.world.monitor.waiter_queue ≡ 2 ∷ []
unfolding lock_mutex unlock_mutex
left_queue = refl

left_waits : left.world.monitor.waiter_queue ≢ []
left_waits e = absurd (omega (arith, ap (λ q. if_empty q 0 1) (sym left_queue ∙ e)))

abbrev table_0 : ℕ → List JLock
table_0 k = []

abbrev lock_64 : JLock
lock_64 = record { address = 64; waiter_queue = 7 ∷ []; cond_var_queue = [] }

mutual_exclusion_example : ◌≡◌ {A = ℕ} 1 1
mutual_exclusion_example =
    mutual_exclusion low two_wait two_wait-Reach 1 1 1 1 two_wait-inside two_wait-inside

holder_proceeds_example :
    ((w : World) × (unlock_mutex low 1 two_wait.world ≡ completed w))
    × ((w : World) × (wait_cond low 1 two_wait.world ≡ suspended w))
    × ((w : World) × (signal_cond low 1 two_wait.world ≡ completed w))
    × ((w : World) × (broadcast_cond low 1 two_wait.world ≡ completed w))
holder_proceeds_example = holder_proceeds low two_wait two_wait-Reach 1 1 two_wait-inside

queues_lem_example : Orderly left.world left.pc
queues_lem_example = queues_lem low left left-Reach

no_lost_wakeup_example : (t : ℕ) × AtDoor (left.pc t)
no_lost_wakeup_example = no_lost_wakeup low left left-Reach left_free left_waits

write_lock_lem_example :
    lock_of (write_lock lock_64 (get_lock 64 table_0).1) 2112
    ≡ (if 64 == 2112 then lock_64 else lock_of table_0 2112)
write_lock_lem_example = write_lock_lem table_0 lock_64 2112
