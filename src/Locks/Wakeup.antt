-- ===== src/Locks/Wakeup.antt =====
-- No thread that waits for a monitor is forgotten.
use la_tte.Common.{
  ℕ, zero, suc, ◌^◌, ◌<◌, ◌≡◌, ◌≢◌, refl, sym, ap, ◌∙◌, subst, inl, inr, Bool, true, false,
  Bool-cases, [], ◌∷◌, ◌==◌, ==_to, update, update_self, ==_self, mem, arith,
}
use la_tte.Locks.{World}
use la_tte.Locks.LockWord.{semaphore}
use la_tte.Locks.System.{
  Pc, outside, inside, queued, woken, waiting, signalled, resumed, System, settle, enter, leave,
  MayLock, Act, lock_taken, lock_missed, unlock, wait, wait_over, wait_on, signal, broadcast, Reach,
  at_first, later,
}
use la_tte.Locks.Exclusion.{Reach-Agrees, holder_lem}
use la_tte.Locks.Waiters.{Marked, waiters_bit_lem}
use la_tte.Locks.Moves.{
  in_lock_queue, in_cond_queue, lock_queue, running, Move, lock_taken-Move, lock_missed-Move,
  wait_over-Move, wait_on-Move, signal-Move, broadcast-Move, Completed, Suspended,
}
use la_tte.Locks.Release.{Release, silent, waking, unlock-Release, wait-Release}
use la_tte.Locks.Places.{NoTwice, settled, Orderly, mem_head}
use la_tte.Locks.Ordering.{it_runs, step-Orderly}

-- A step leaves the monitor held, or nobody in its queue, or has woken the thread that was the first
-- there.
data Covered (w w' : World) : Type 0 where
  is_held : 0 < semaphore w'.monitor.lock_info → Covered w w'
  nobody : lock_queue w' ≡ [] → Covered w w'
  woke : (t : ℕ) → lock_queue w ≡ t ∷ lock_queue w' → running w' t ≡ true → Covered w w'

MayLock-awake : (p : Pc) → MayLock p → (in_lock_queue p ≡ false) × (in_cond_queue p ≡ false)
MayLock-awake outside m = (refl, refl)
MayLock-awake (inside n) m = (refl, refl)
MayLock-awake queued m = elim m [ ]
MayLock-awake woken m = (refl, refl)
MayLock-awake (waiting v) m = elim m [ ]
MayLock-awake (signalled v) m = elim m [ ]
MayLock-awake (resumed v) m = elim m [ ]

enter_awake : (p : Pc) → (in_lock_queue (enter p) ≡ false) × (in_cond_queue (enter p) ≡ false)
enter_awake outside = (refl, refl)
enter_awake (inside n) = (refl, refl)
enter_awake queued = (refl, refl)
enter_awake woken = (refl, refl)
enter_awake (waiting v) = (refl, refl)
enter_awake (signalled v) = (refl, refl)
enter_awake (resumed v) = (refl, refl)

leave_awake : (n : ℕ) → (in_lock_queue (leave n) ≡ false) × (in_cond_queue (leave n) ≡ false)
leave_awake zero = (refl, refl)
leave_awake (suc n) = (refl, refl)

Release-Covered : {i : ℕ} {w w' : World} {a b : Bool} → Release i w w' a b → Covered w w'
Release-Covered (silent m (inl h) e) = is_held h
Release-Covered (silent m (inr h) e) = nobody (e ∙ h)
Release-Covered (waking t e r m) = woke t e r

Release-Move : {i : ℕ} {w w' : World} {a b : Bool} → Release i w w' a b → Move i w w' a b
Release-Move (silent m h e) = m
Release-Move (waking t e r m) = m

module _ (priority : ℕ → ℕ) (i : ℕ) (w w' : World) (pc : ℕ → Pc) (o : Orderly w pc) (m : Marked w)
    (h : w.monitor.lock_info < 2 ^ 32) where
  asleep : (t : ℕ) → mem t (lock_queue w) ≡ true → running w t ≡ false
  asleep t e = (o.placed t).run ∙ rw (sym (o.placed t).lock ∙ e) refl

  ordered :
      {a b : Bool} (p q : Pc)
      → pc i ≡ p
      → (in_lock_queue p ≡ false) × (in_cond_queue p ≡ false)
      → (in_lock_queue q ≡ a) × (in_cond_queue q ≡ b)
      → Move i w w' a b
      → Orderly w' (update (settle w' pc) i q)
  ordered p q e f g m =
      step-Orderly i w w' pc o (ap in_lock_queue e ∙ f.0) (ap in_cond_queue e ∙ f.1) q m g.0 g.1

  runs_inside : (n : ℕ) → pc i ≡ inside n → running w i ≡ true
  runs_inside n e = it_runs i w w pc o (ap in_lock_queue e) (ap in_cond_queue e)

  Act-Orderly :
      {p q : Pc} → pc i ≡ p → Act priority i w p w' q → Orderly w' (update (settle w' pc) i q)
  Act-Orderly c (lock_taken {p} k e) =
      ordered p (enter p) c (MayLock-awake p k) (enter_awake p)
        (subst (Completed _) e (lock_taken-Move priority i w h))
  Act-Orderly c (lock_missed {p} k e) =
      ordered p queued c (MayLock-awake p k) (refl, refl)
        (subst (Suspended _) e (lock_missed-Move priority i w h)).0
  Act-Orderly c (unlock {n} e) =
      ordered (inside (suc n)) (leave n) c (refl, refl) (leave_awake n)
        (Release-Move (subst (Completed _) e (unlock-Release priority i w m asleep)))
  Act-Orderly c (wait {n} e) =
      ordered (inside n) (waiting _) c (refl, refl) (refl, refl)
        (Release-Move
          (subst (Suspended _) e (wait-Release priority i w m asleep (runs_inside n c))))
  Act-Orderly c (wait_over {v} e) =
      ordered (resumed v) (inside _) c (refl, refl) (refl, refl)
        (subst (Completed _) e (wait_over-Move priority i w h v))
  Act-Orderly c (wait_on {v} e) =
      ordered (resumed v) (signalled v) c (refl, refl) (refl, refl)
        (subst (Suspended _) e (wait_on-Move priority i w h v)).0
  Act-Orderly c (signal {n} e) =
      ordered (inside n) (inside n) c (refl, refl) (refl, refl)
        (subst (Completed _) e (signal-Move priority i w h))
  Act-Orderly c (broadcast {n} e) =
      ordered (inside n) (inside n) c (refl, refl) (refl, refl)
        (subst (Completed _) e (broadcast-Move priority i w h))

  enter-inside : (p : Pc) → MayLock p → (n : ℕ) × (enter p ≡ inside n)
  enter-inside outside k = (1, refl)
  enter-inside (inside n) k = (suc n, refl)
  enter-inside queued k = elim k [ ]
  enter-inside woken k = (1, refl)
  enter-inside (waiting v) k = elim k [ ]
  enter-inside (signalled v) k = elim k [ ]
  enter-inside (resumed v) k = elim k [ ]

  Act-Covered :
      {p q : Pc}
      → pc i ≡ p
      → ((n : ℕ) → q ≡ inside n → 0 < semaphore w'.monitor.lock_info)
      → Act priority i w p w' q
      → Covered w w'
  Act-Covered c s (lock_taken {p} k e) = let n = enter-inside p k in is_held (s n.0 n.1)
  Act-Covered c s (lock_missed k e) =
      is_held (subst (Suspended _) e (lock_missed-Move priority i w h)).1
  Act-Covered c s (unlock e) =
      Release-Covered (subst (Completed _) e (unlock-Release priority i w m asleep))
  Act-Covered c s (wait {n} e) =
      Release-Covered (subst (Suspended _) e (wait-Release priority i w m asleep (runs_inside n c)))
  Act-Covered c s (wait_over {v} e) = is_held (s (semaphore v) refl)
  Act-Covered c s (wait_on {v} e) =
      is_held (subst (Suspended _) e (wait_on-Move priority i w h v)).1
  Act-Covered c s (signal {n} e) = is_held (s n refl)
  Act-Covered c s (broadcast {n} e) = is_held (s n refl)

-- A thread that has been woken, and is about to try again
abbrev pub AtDoor : Pc → Type 0
AtDoor woken = Unit
AtDoor (resumed v) = Unit
AtDoor p = ⊥

woken-AtDoor : (p : Pc) → in_lock_queue p ≡ true → AtDoor (settled false true p)
woken-AtDoor outside e = absurd (ground arith)
woken-AtDoor (inside n) e = absurd (ground arith)
woken-AtDoor queued e = tt
woken-AtDoor woken e = tt
woken-AtDoor (waiting v) e = absurd (ground arith)
woken-AtDoor (signalled v) e = tt
woken-AtDoor (resumed v) e = tt

-- In every state that the threads reach by the steps of `Act`, a thread is in the queue of the lock just when its place is
-- there, in the queue of the condition just when its place is there, and is `THREAD_RUNNING` just when
-- it is in neither; no thread is twice in a queue.
pub queues_lem : (priority : ℕ → ℕ) (s : System) → Reach priority s → Orderly s.world s.pc
queues_lem priority s (at_first queues) = record {
  placed = λ j. record { lock = refl; cond = refl; run = refl };
  lock_once = tt;
  cond_once = tt;
}
queues_lem priority s (later {s = t} {w'} {p'} r i lt act) =
    Act-Orderly priority i t.world w' t.pc (queues_lem priority t r) (waiters_bit_lem priority t r)
      (Reach-Agrees priority t r).small refl act

door_open :
    (i t : ℕ) (w w' : World) (pc : ℕ → Pc) (q : Pc)
    → Orderly w pc
    → in_lock_queue (pc i) ≡ false
    → lock_queue w ≡ t ∷ lock_queue w'
    → running w' t ≡ true
    → AtDoor (update (settle w' pc) i q t)
door_open i t w w' pc q o l e r =
    let m = (ap (mem t) e ∙ mem_head t t (lock_queue w') (==_self t)) in
    let place = sym (o.placed t).lock ∙ m in
    let once = (subst NoTwice e o.lock_once).0 in
    elim (Bool-cases (i == t)) [
      | inl f ↦
          absurd (ground (arith, sym l ∙ ap (λ k. in_lock_queue (pc k)) (==_to i t f) ∙ place))
      | inr f ↦ rw (f, once, r) (woken-AtDoor (pc t) place)
    ]

Act-awake :
    {priority : ℕ → ℕ} {i : ℕ} {w w' : World} {p q : Pc}
    → Act priority i w p w' q
    → in_lock_queue p ≡ false
Act-awake (lock_taken {p} k e) = (MayLock-awake p k).0
Act-awake (lock_missed {p} k e) = (MayLock-awake p k).0
Act-awake (unlock e) = refl
Act-awake (wait e) = refl
Act-awake (wait_over e) = refl
Act-awake (wait_on e) = refl
Act-awake (signal e) = refl
Act-awake (broadcast e) = refl

-- Two conditions stand in the steps (`Act`): a thread calls `_unlockMutex`, `_waitCond`, `_signalCond`
-- and `_broadcastCond` only while it is inside the monitor, which the code does not enforce, and a
-- call runs without a change of threads up to where it gives the processor away itself: so none takes
-- place between the test in `_lockMutex` and `intsDisable` in `wait_in_queue`, though
-- `alarmException` can make one there. In every state that the threads reach by such steps, when
-- nobody holds the monitor and a thread is in its queue, some thread has been woken and is about to
-- try the lock.
pub no_lost_wakeup :
    (priority : ℕ → ℕ) (s : System)
    → Reach priority s
    → semaphore s.world.monitor.lock_info ≡ 0
    → s.world.monitor.waiter_queue ≢ []
    → (t : ℕ) × AtDoor (s.pc t)
no_lost_wakeup priority s (at_first queues) z ne = absurd (ne refl)
no_lost_wakeup priority s (later {s = t} {w'} {p'} r i lt act) z ne =
    let o = queues_lem priority t r in
    let c =
      Act-Covered priority i t.world w' t.pc o (waiters_bit_lem priority t r)
        (Reach-Agrees priority t r).small refl
        (λ n e.
          let h =
            holder_lem priority s (later r i lt act) i n (update_self (settle w' t.pc) i p' ∙ e) in
          omega (arith, h.0, h.2))
        act in
    elim c [
      | is_held l ↦ absurd (omega arith)
      | nobody e ↦ absurd (ne e)
      | woke k e u ↦ (k, door_open i k t.world w' t.pc p' o (Act-awake act) e u)
    ]
