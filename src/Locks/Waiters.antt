-- ===== src/Locks/Waiters.antt =====
-- The bit of the waiters and the queue that it speaks of; what a thread that is inside can rely on.
use la_tte.Common.{
  ℕ, ◌/◌, ◌^◌, ◌≤◌, ◌<◌, ◌≡◌, refl, ◌∙◌, subst, inl, inr, true, Bool-cases, List, [], ◌∷◌, ◌++◌,
  ◌==◌, leb, bit_and, bit_or, true_branch, false_branch, arith,
}
use la_tte.Locks.{
  World, Result, completed, suspended, illegal_monitor_state, null_pointer, if_empty, semaphore_up,
  semaphore_down, set_owner, semaphore_mask, owner_id_mask, has_waiters_mask, lock_mutex,
  wakeup_first, wakeup_waiter, unlock_mutex, wait_in_queue, suspend_on_q_thread, release_and_wait,
  wait_cond, wait_cond_resumed, signal_queue, signal_cond, broadcast_queue, broadcast_cond,
}
use la_tte.Locks.LockWord.{
  semaphore, owner, waiters_bit, owner_lem, set_waiters_lem, keep_waiters_lem, clear_waiters_lem,
}
use la_tte.Locks.System.{
  Pc, inside, System, Act, lock_taken, lock_missed, unlock, wait, wait_over, wait_on, signal,
  broadcast, Reach, at_first, later,
}
use la_tte.Locks.Exclusion.{Reach-Agrees, holder_lem, Sound}

-- The bit is set when a thread waits in the queue, and only then.
abbrev pub Marks : ℕ → List ℕ → Type 0
Marks x q = waiters_bit x ≡ if_empty q 0 1

abbrev pub Marked : World → Type 0
Marked w = Marks w.monitor.lock_info w.monitor.waiter_queue

-- A call goes on, or waits, in such a world.
abbrev Proceeds : (World → Type 0) → Result → Type 0
Proceeds P (completed w) = P w
Proceeds P (suspended w) = P w
Proceeds P illegal_monitor_state = Unit
Proceeds P null_pointer = Unit

up-Marks : (x : ℕ) (q : List ℕ) → Marks x q → Marks (semaphore_up x) q
unfolding semaphore_up
up-Marks x q m = omega arith

owned-Marks : (i x : ℕ) (q : List ℕ) → Marks x q → Marks (set_owner i x) q
unfolding set_owner
owned-Marks i x q m = omega arith

set-Marks : (x t : ℕ) (ts : List ℕ) → Marks (bit_or x has_waiters_mask) (t ∷ ts)
set-Marks x t ts = omega (arith, set_waiters_lem x)

restored-Marks :
    (v : ℕ)
    → v < 2 ^ 32
    → (q : List ℕ) → Marks (if_empty q (bit_and v 0xfffe_ffff) (bit_or v has_waiters_mask)) q
restored-Marks v l [] = omega (arith, clear_waiters_lem v l)
restored-Marks v l (t ∷ ts) = set-Marks v t ts

-- What is left of a queue, with the word for it, when the first thread has been taken out
rest-Marks : (x t : ℕ) (ts : List ℕ) → Marks x (t ∷ ts) → Marks (if_empty ts 0 x) ts
rest-Marks x t [] m = refl
rest-Marks x t (u ∷ us) m = m

down-Marks : (x : ℕ) (q : List ℕ) → 2 ≤ x / 2 ^ 16 → Marks x q → Marks (semaphore_down x) q
unfolding semaphore_down
down-Marks x q l m = omega arith

module _ (priority : ℕ → ℕ) (i : ℕ) (w : World) (m : Marked w) where
  abbrev x : ℕ
  x = w.monitor.lock_info

  abbrev q : List ℕ
  q = w.monitor.waiter_queue

  lock_mutex-Marked : Proceeds Marked (lock_mutex priority i w)
  unfolding lock_mutex wait_in_queue suspend_on_q_thread
  lock_mutex-Marked = elim (Bool-cases (bit_and x semaphore_mask == 0)) [
    | inl t ↦ rw t (up-Marks (set_owner i x) q (owned-Marks i x q m))
    | inr f ↦ elim (Bool-cases (bit_and x owner_id_mask == i)) [
      | inl t ↦ rw (f, t) (up-Marks x q m)
      | inr g ↦ rw (f, g) (set-Marks x i q)
    ]
  ]

  wakeup_first-Marked :
      (y : ℕ) (q : List ℕ)
      → Marks y q
      → Proceeds Marked
          (wakeup_first priority i q (record w { monitor = record w.monitor { lock_info = y } }))
  unfolding wakeup_first
  wakeup_first-Marked y [] n = tt
  wakeup_first-Marked y (t ∷ ts) n = rest-Marks y t ts n

  unlock_mutex-Marked : Proceeds Marked (unlock_mutex priority i w)
  unfolding unlock_mutex wakeup_waiter
  unlock_mutex-Marked = elim (Bool-cases (leb 2 (x / 2 ^ 16))) [
    | inl t ↦
        let d = down-Marks x q (ground arith) m in
        elim (Bool-cases (semaphore_down x / 2 ^ 16 == 1)) [
          | inl u ↦ rw (t, u) (wakeup_first-Marked (semaphore_down x) q d)
          | inr g ↦ rw (t, g) d
        ]
    | inr f ↦ rw f tt
  ]

  released-Marked : (p : List ℕ) → q ≡ p → Marked (release_and_wait priority i p w)
  unfolding release_and_wait suspend_on_q_thread
  released-Marked [] e = let n = subst (Marks x) e m in rw e (omega (arith, keep_waiters_lem x, n))
  released-Marked (t ∷ []) e = refl
  released-Marked (t ∷ u ∷ us) e = refl

  wait_cond-Marked : Proceeds Marked (wait_cond priority i w)
  unfolding wait_cond
  wait_cond-Marked = elim (Bool-cases (bit_and x owner_id_mask == i)) [
    | inl t ↦ rw t (released-Marked q refl)
    | inr f ↦ rw f tt
  ]

  wait_cond_resumed-Marked :
      (v : ℕ) → v < 2 ^ 32 → Proceeds Marked (wait_cond_resumed priority i v w)
  unfolding wait_cond_resumed wait_in_queue suspend_on_q_thread
  wait_cond_resumed-Marked v l = elim (Bool-cases (bit_and x semaphore_mask == 0)) [
    | inl t ↦ rw t (restored-Marks v l q)
    | inr f ↦ rw f (set-Marks x i q)
  ]

  signal_queue-Marked : (c : List ℕ) → Marked (signal_queue priority c w)
  unfolding signal_queue
  signal_queue-Marked [] = m
  signal_queue-Marked (t ∷ ts) = set-Marks x t q

  broadcast_queue-Marked : (c : List ℕ) → Marked (broadcast_queue priority c w)
  unfolding broadcast_queue
  broadcast_queue-Marked [] = m
  broadcast_queue-Marked (t ∷ ts) = set-Marks x t (ts ++ q)

  signal_cond-Marked : Proceeds Marked (signal_cond priority i w)
  unfolding signal_cond
  signal_cond-Marked = elim (Bool-cases (bit_and x owner_id_mask == i)) [
    | inl t ↦ rw t (signal_queue-Marked w.monitor.cond_var_queue)
    | inr f ↦ rw f tt
  ]

  broadcast_cond-Marked : Proceeds Marked (broadcast_cond priority i w)
  unfolding broadcast_cond
  broadcast_cond-Marked = elim (Bool-cases (bit_and x owner_id_mask == i)) [
    | inl t ↦ rw t (broadcast_queue-Marked w.monitor.cond_var_queue)
    | inr f ↦ rw f tt
  ]

  step-Marked : {p p' : Pc} {w' : World} → Sound i p → Act priority i w p w' p' → Marked w'
  step-Marked s (lock_taken h e) = subst (Proceeds Marked) e lock_mutex-Marked
  step-Marked s (lock_missed h e) = subst (Proceeds Marked) e lock_mutex-Marked
  step-Marked s (unlock e) = subst (Proceeds Marked) e unlock_mutex-Marked
  step-Marked s (wait e) = subst (Proceeds Marked) e wait_cond-Marked
  step-Marked s (wait_over {v} e) = subst (Proceeds Marked) e (wait_cond_resumed-Marked v s.0)
  step-Marked s (wait_on {v} e) = subst (Proceeds Marked) e (wait_cond_resumed-Marked v s.0)
  step-Marked s (signal e) = subst (Proceeds Marked) e signal_cond-Marked
  step-Marked s (broadcast e) = subst (Proceeds Marked) e broadcast_cond-Marked

-- In every state that the threads reach, the bit of the waiters is set just when a thread is in the
-- queue of the lock.
pub waiters_bit_lem :
    (priority : ℕ → ℕ) (s : System)
    → Reach priority s
    → Marks s.world.monitor.lock_info s.world.monitor.waiter_queue
waiters_bit_lem priority s (at_first queues) = refl
waiters_bit_lem priority s (later {s = t} {w'} {p'} r i lt act) =
    step-Marked priority i t.world (waiters_bit_lem priority t r)
      ((Reach-Agrees priority t r).sound i) act

last_release : (x : ℕ) → (semaphore_down x / 2 ^ 16 == 1) ≡ true → semaphore_down x / 2 ^ 16 ≡ 1
last_release x u = ground arith

at_least : (x : ℕ) → 0 < semaphore x → leb 2 (x / 2 ^ 16) ≡ true
at_least x l = ground arith

module _ (priority : ℕ → ℕ) (i : ℕ) (w : World) (o : owner w.monitor.lock_info ≡ i) where
  own_word : (bit_and w.monitor.lock_info owner_id_mask == i) ≡ true
  own_word = ground (arith, owner_lem w.monitor.lock_info)

  wakeup_first_completes :
      (x : ℕ) (q : List ℕ) (w : World)
      → x / 2 ^ 16 ≡ 1
      → Marks x q
      → (w' : World) × (wakeup_first priority i q w ≡ completed w')
  unfolding wakeup_first
  wakeup_first_completes x [] w e m = absurd (omega arith)
  wakeup_first_completes x (t ∷ ts) w e m = (_, refl)

  unlock_completes :
      0 < semaphore w.monitor.lock_info
      → Marked w
      → (w' : World) × (unlock_mutex priority i w ≡ completed w')
  unfolding unlock_mutex wakeup_waiter
  unlock_completes l m =
      let x = w.monitor.lock_info in
      let d = down-Marks x w.monitor.waiter_queue (omega arith) m in
      let b = true_branch (leb 2 (x / 2 ^ 16)) _ illegal_monitor_state (at_least x l) in
      elim (Bool-cases (semaphore_down x / 2 ^ 16 == 1)) [
        | inl u ↦
            let r =
              wakeup_first_completes (semaphore_down x) w.monitor.waiter_queue
                (record w { monitor = record w.monitor { lock_info = semaphore_down x } })
                (last_release x u) d in
            (r.0, b ∙ true_branch _ _ _ u ∙ r.1)
        | inr g ↦ (_, b ∙ false_branch _ _ _ g)
      ]

-- Two conditions stand in the steps (`Act`): a thread calls `_unlockMutex`, `_waitCond`, `_signalCond`
-- and `_broadcastCond` only while it is inside the monitor (a thread that is not can count the word
-- down, and then the holder's call throws), and a call runs without a change of threads up to where
-- it gives the processor away itself. In every state that the threads reach by such steps, a thread
-- that is inside the monitor can leave it, wait, signal and broadcast: no call throws, and
-- `wakeup_waiter` finds a thread when it is called.
pub holder_proceeds :
    (priority : ℕ → ℕ) (s : System)
    → Reach priority s
    → (i n : ℕ) → s.pc i ≡ inside n
    → ((w : World) × (unlock_mutex priority i s.world ≡ completed w))
      × ((w : World) × (wait_cond priority i s.world ≡ suspended w))
      × ((w : World) × (signal_cond priority i s.world ≡ completed w))
      × ((w : World) × (broadcast_cond priority i s.world ≡ completed w))
unfolding wait_cond signal_cond broadcast_cond
holder_proceeds priority s r i n e =
    let h = holder_lem priority s r i n e in
    let t = own_word priority i s.world h.1 in
    (
      unlock_completes priority i s.world h.1 (omega (arith, h.0, h.2))
          (waiters_bit_lem priority s r),
      (_, true_branch _ _ _ t),
      (_, true_branch _ _ _ t),
      (_, true_branch _ _ _ t),
    )
