-- ===== src/Locks/Moves.antt =====
-- How a step of a thread changes the queues of a monitor and which threads run.
use la_tte.Common.{
  ℕ, ◌^◌, ◌<◌, ◌≡◌, refl, sym, ap, inl, inr, Bool, true, false, Bool-cases, List, [], ◌∷◌, ◌++◌,
  ◌==◌, if◌then◌else◌, bit_and, bit_or, update, arith,
}
use la_tte.Locks.{
  Threads, World, Result, completed, suspended, semaphore_mask, owner_id_mask, has_waiters_mask,
  iresume_thread, lock_mutex, wait_in_queue, suspend_on_q_thread, wait_cond_resumed, signal_queue,
  signal_cond, broadcast_queue, broadcast_cond,
}
use la_tte.Locks.LockWord.{semaphore, semaphore_lem, set_waiters_lem}
use la_tte.Locks.System.{Pc, queued, waiting, signalled}

-- Where a thread is by its place: in the queue of the lock, in that of the condition, running
abbrev pub in_lock_queue : Pc → Bool
in_lock_queue queued = true
in_lock_queue (signalled v) = true
in_lock_queue p = false

abbrev pub in_cond_queue : Pc → Bool
in_cond_queue (waiting v) = true
in_cond_queue p = false

abbrev pub runs : Pc → Bool
runs p = if in_lock_queue p then false else if in_cond_queue p then false else true

abbrev pub lock_queue : World → List ℕ
lock_queue w = w.monitor.waiter_queue

abbrev pub cond_queue : World → List ℕ
cond_queue w = w.monitor.cond_var_queue

abbrev pub running : World → ℕ → Bool
running w = w.threads.is_running

-- The queues before and after a step of thread `i`: nobody moves; it goes to sleep in the queue of
-- the lock; it wakes the first thread there; it waits for the condition, having woken one or not; it
-- moves one thread, or all, from the queue of the condition to that of the lock. The Booleans say
-- whether the thread ends up in the queue of the lock, and in that of the condition.
pub data Move (i : ℕ) (w w' : World) : Bool → Bool → Type 0 where
  stays :
      lock_queue w' ≡ lock_queue w
      → cond_queue w' ≡ cond_queue w
      → running w' ≡ running w
      → Move i w w' false false
  sleeps :
      lock_queue w' ≡ i ∷ lock_queue w
      → cond_queue w' ≡ cond_queue w
      → running w' ≡ update (running w) i false
      → Move i w w' true false
  wakes :
      (t : ℕ)
      → lock_queue w ≡ t ∷ lock_queue w'
      → cond_queue w' ≡ cond_queue w
      → running w' ≡ update (running w) t true
      → Move i w w' false false
  waits :
      lock_queue w' ≡ lock_queue w
      → cond_queue w' ≡ i ∷ cond_queue w
      → running w' ≡ update (running w) i false
      → Move i w w' false true
  wakes_and_waits :
      (t : ℕ)
      → lock_queue w ≡ t ∷ lock_queue w'
      → cond_queue w' ≡ i ∷ cond_queue w
      → running w' ≡ update (update (running w) t true) i false
      → Move i w w' false true
  signals :
      (t : ℕ)
      → lock_queue w' ≡ t ∷ lock_queue w
      → cond_queue w ≡ t ∷ cond_queue w'
      → running w' ≡ running w
      → Move i w w' false false
  broadcasts :
      lock_queue w' ≡ cond_queue w ++ lock_queue w
      → cond_queue w' ≡ []
      → running w' ≡ running w
      → Move i w w' false false

abbrev pub Completed : (World → Type 0) → Result → Type 0
Completed P (completed w) = P w
Completed P r = Unit

abbrev pub Suspended : (World → Type 0) → Result → Type 0
Suspended P (suspended w) = P w
Suspended P r = Unit

pub resumed_running :
    (priority : ℕ → ℕ) (me t : ℕ) (s : Threads)
    → s.is_running t ≡ false
    → (iresume_thread priority me t s).is_running ≡ update s.is_running t true
unfolding iresume_thread
resumed_running priority me t s e = rw e refl

module _ (priority : ℕ → ℕ) (i : ℕ) (w : World) (h : w.monitor.lock_info < 2 ^ 32) where
  abbrev x : ℕ
  x = w.monitor.lock_info

  pub lock_taken-Move : Completed (λ w'. Move i w w' false false) (lock_mutex priority i w)
  unfolding lock_mutex
  lock_taken-Move = elim (Bool-cases (bit_and x semaphore_mask == 0)) [
    | inl t ↦ rw t (stays refl refl refl)
    | inr f ↦ elim (Bool-cases (bit_and x owner_id_mask == i)) [
      | inl t ↦ rw (f, t) (stays refl refl refl)
      | inr g ↦ rw (f, g) tt
    ]
  ]

  counted : (bit_and x semaphore_mask == 0) ≡ false → 0 < semaphore (bit_or x has_waiters_mask)
  counted f = ground (arith, semaphore_lem x h, set_waiters_lem x)

  pub lock_missed-Move :
      Suspended
        (λ w'. Move i w w' true false × (0 < semaphore w'.monitor.lock_info))
        (lock_mutex priority i w)
  unfolding lock_mutex wait_in_queue suspend_on_q_thread
  lock_missed-Move = elim (Bool-cases (bit_and x semaphore_mask == 0)) [
    | inl t ↦ rw t tt
    | inr f ↦ elim (Bool-cases (bit_and x owner_id_mask == i)) [
      | inl t ↦ rw (f, t) tt
      | inr g ↦ rw (f, g) (sleeps refl refl refl, counted f)
    ]
  ]

  pub wait_over-Move :
      (v : ℕ) → Completed (λ w'. Move i w w' false false) (wait_cond_resumed priority i v w)
  unfolding wait_cond_resumed
  wait_over-Move v = elim (Bool-cases (bit_and x semaphore_mask == 0)) [
    | inl t ↦ rw t (stays refl refl refl)
    | inr f ↦ rw f tt
  ]

  pub wait_on-Move :
      (v : ℕ)
      → Suspended
          (λ w'. Move i w w' true false × (0 < semaphore w'.monitor.lock_info))
          (wait_cond_resumed priority i v w)
  unfolding wait_cond_resumed wait_in_queue suspend_on_q_thread
  wait_on-Move v = elim (Bool-cases (bit_and x semaphore_mask == 0)) [
    | inl t ↦ rw t tt
    | inr f ↦ rw f (sleeps refl refl refl, counted f)
  ]

  signal_queue-Move :
      (c : List ℕ) → cond_queue w ≡ c → Move i w (signal_queue priority c w) false false
  unfolding signal_queue
  signal_queue-Move [] e = stays refl refl refl
  signal_queue-Move (t ∷ ts) e = signals t refl e refl

  pub signal-Move : Completed (λ w'. Move i w w' false false) (signal_cond priority i w)
  unfolding signal_cond
  signal-Move = elim (Bool-cases (bit_and x owner_id_mask == i)) [
    | inl t ↦ rw t (signal_queue-Move (cond_queue w) refl)
    | inr f ↦ rw f tt
  ]

  broadcast_queue-Move :
      (c : List ℕ) → cond_queue w ≡ c → Move i w (broadcast_queue priority c w) false false
  unfolding broadcast_queue
  broadcast_queue-Move [] e = stays refl refl refl
  broadcast_queue-Move (t ∷ ts) e = broadcasts (ap (λ c. c ++ lock_queue w) (sym e)) refl refl

  pub broadcast-Move : Completed (λ w'. Move i w w' false false) (broadcast_cond priority i w)
  unfolding broadcast_cond
  broadcast-Move = elim (Bool-cases (bit_and x owner_id_mask == i)) [
    | inl t ↦ rw t (broadcast_queue-Move (cond_queue w) refl)
    | inr f ↦ rw f tt
  ]
