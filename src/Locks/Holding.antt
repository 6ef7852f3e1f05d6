-- ===== src/Locks/Holding.antt =====
-- What each operation of a monitor does to its lock word.
use la_tte.Common.{
  ℕ, suc, ◌+◌, ◌/◌, ◌^◌, ◌≤◌, ◌<◌, ◌≡◌, ◌≢◌, refl, sym, ◌⊎◌, inl, inr, true, Bool-cases, List, [],
  ◌∷◌, ◌==◌, leb, bit_and, bit_or, arith,
}
use la_tte.Locks.{
  World, Result, completed, suspended, if_empty, semaphore_up, semaphore_down, set_owner,
  semaphore_mask, owner_id_mask, has_waiters_mask, lock_mutex, wakeup_first, wakeup_waiter,
  unlock_mutex, wait_in_queue, release_and_wait, wait_cond, wait_cond_resumed, signal_queue,
  signal_cond, broadcast_queue, broadcast_cond,
}
use la_tte.Locks.LockWord.{
  semaphore, owner, owner_lem, semaphore_lem, set_waiters_lem, keep_waiters_lem, clear_waiters_lem,
}

-- Thread `i` has locked the monitor `n` times, says the word.
pub record Held (i n x : ℕ) : Type 0 where
  pub small : x < 2 ^ 32
  pub count : semaphore x ≡ n
  pub by : (n ≡ 0) ⊎ (owner x ≡ i)

-- Two words that differ in the bit of the waiters at most
pub record SameHolder (x y : ℕ) : Type 0 where
  pub small : y < 2 ^ 32
  pub count : semaphore y ≡ semaphore x
  pub by : owner y ≡ owner x

-- What is true of the lock word when a call completes, and when it waits
abbrev pub Completes : (ℕ → Type 0) → Result → Type 0
Completes P (completed w) = P w.monitor.lock_info
Completes P r = Unit

abbrev pub Suspends : (ℕ → Type 0) → Result → Type 0
Suspends P (suspended w) = P w.monitor.lock_info
Suspends P r = Unit

set_waiters-SameHolder : (x : ℕ) → x < 2 ^ 32 → SameHolder x (bit_or x has_waiters_mask)
set_waiters-SameHolder x h = record {
  small = omega (arith, set_waiters_lem x);
  count = omega (arith, set_waiters_lem x);
  by = omega (arith, set_waiters_lem x);
}

module _ (i : ℕ) (lt : i < 2 ^ 16) (x : ℕ) (h : x < 2 ^ 32) where
  first-Held : semaphore x ≡ 0 → Held i 1 (semaphore_up (set_owner i x))
  unfolding semaphore_up set_owner
  first-Held e = record { small = omega arith; count = omega arith; by = inr (omega arith) }

  again-Held : owner x ≡ i → semaphore x + 1 < 2 ^ 15 → Held i (suc (semaphore x)) (semaphore_up x)
  unfolding semaphore_up
  again-Held e b = record { small = omega arith; count = omega arith; by = inr (omega arith) }

  down-Held : (n : ℕ) → owner x ≡ i → semaphore x ≡ suc n → Held i n (semaphore_down x)
  unfolding semaphore_down
  down-Held n e s = record { small = omega arith; count = omega arith; by = inr (omega arith) }

module _ (priority : ℕ → ℕ) (i : ℕ) (lt : i < 2 ^ 16) (w : World)
    (h : w.monitor.lock_info < 2 ^ 32) where
  abbrev info : ℕ
  info = w.monitor.lock_info

  is_free : (bit_and info semaphore_mask == 0) ≡ true → semaphore info ≡ 0
  is_free t = ground (arith, semaphore_lem info h)

  is_owner : (bit_and info owner_id_mask == i) ≡ true → owner info ≡ i
  is_owner t = ground (arith, owner_lem info)

  pub lock_mutex-Completes :
      (owner info ≡ i → semaphore info + 1 < 2 ^ 15)
      → Completes
          (λ y. Held i (semaphore info) info × Held i (suc (semaphore info)) y)
          (lock_mutex priority i w)
  unfolding lock_mutex
  lock_mutex-Completes b = elim (Bool-cases (bit_and info semaphore_mask == 0)) [
    | inl t ↦
        let e = is_free t in
        rw t (
          record { small = h; count = refl; by = inl e },
          ground (arith, e, first-Held i lt info h e),
        )
    | inr f ↦ elim (Bool-cases (bit_and info owner_id_mask == i)) [
      | inl t ↦
          let e = is_owner t in
          rw (f, t) (record { small = h; count = refl; by = inr e }, again-Held i lt info h e (b e))
      | inr g ↦ rw (f, g) tt
    ]
  ]

  pub lock_mutex-Suspends :
      Suspends (λ y. (owner info ≢ i) × SameHolder info y) (lock_mutex priority i w)
  unfolding lock_mutex wait_in_queue
  lock_mutex-Suspends = elim (Bool-cases (bit_and info semaphore_mask == 0)) [
    | inl t ↦ rw t tt
    | inr f ↦ elim (Bool-cases (bit_and info owner_id_mask == i)) [
      | inl t ↦ rw (f, t) tt
      | inr g ↦
          rw (f, g) (λ o. absurd (ground (arith, owner_lem info)), set_waiters-SameHolder info h)
    ]
  ]

  woken-Held :
      (n : ℕ)
      → Held i n (semaphore_down info)
      → n ≡ 0
      → (q : List ℕ)
      → Completes (Held i n) (
          wakeup_first priority i q
            (record w { monitor = record w.monitor { lock_info = semaphore_down info } }))
  unfolding wakeup_first
  woken-Held n d z [] = tt
  woken-Held n d z (t ∷ []) = record { small = omega arith; count = sym z; by = inl z }
  woken-Held n d z (t ∷ u ∷ ts) = d

  leb_of : 2 ≤ info / 2 ^ 16 → leb 2 (info / 2 ^ 16) ≡ true
  leb_of l = ground arith

  pub unlock_mutex-Completes :
      (n : ℕ)
      → owner info ≡ i
      → semaphore info ≡ suc n
      → Completes (Held i n) (unlock_mutex priority i w)
  unfolding unlock_mutex wakeup_waiter wakeup_first
  unlock_mutex-Completes n e s =
      let d = down-Held i lt info h n e s in
      rw (leb_of (omega arith)) (elim (Bool-cases (semaphore_down info / 2 ^ 16 == 1)) [
        | inl t ↦ rw t (woken-Held n d (ground (arith, d.count)) w.monitor.waiter_queue)
        | inr f ↦ rw f d
      ])

  -- What the word is when nobody holds the monitor
  none-Held : (y : ℕ) → y < 2 ^ 17 → Held i 0 y
  none-Held y l = record { small = omega arith; count = omega arith; by = inl refl }

  released-Held : (q : List ℕ) → Held i 0 (release_and_wait priority i q w).monitor.lock_info
  unfolding release_and_wait
  released-Held [] =
      none-Held (bit_and info has_waiters_mask) (omega (arith, keep_waiters_lem info))
  released-Held (t ∷ []) = none-Held 0 (omega arith)
  released-Held (t ∷ u ∷ ts) = none-Held has_waiters_mask (omega arith)

  pub wait_cond-Suspends : Suspends (Held i 0) (wait_cond priority i w)
  unfolding wait_cond
  wait_cond-Suspends = elim (Bool-cases (bit_and info owner_id_mask == i)) [
    | inl t ↦ rw t (released-Held w.monitor.waiter_queue)
    | inr f ↦ rw f tt
  ]

  restored-Held :
      (v : ℕ)
      → v < 2 ^ 32
      → owner v ≡ i
      → (q : List ℕ)
      → Held i (semaphore v) (if_empty q (bit_and v 0xfffe_ffff) (bit_or v has_waiters_mask))
  restored-Held v l e [] = record {
    small = omega (arith, clear_waiters_lem v l);
    count = omega (arith, clear_waiters_lem v l);
    by = inr (omega (arith, clear_waiters_lem v l));
  }
  restored-Held v l e (t ∷ ts) = record {
    small = omega (arith, set_waiters_lem v);
    count = omega (arith, set_waiters_lem v);
    by = inr (omega (arith, set_waiters_lem v));
  }

  pub wait_cond_resumed-Completes :
      (v : ℕ)
      → v < 2 ^ 32
      → owner v ≡ i
      → Completes (λ y. Held i 0 info × Held i (semaphore v) y) (wait_cond_resumed priority i v w)
  unfolding wait_cond_resumed
  wait_cond_resumed-Completes v l e = elim (Bool-cases (bit_and info semaphore_mask == 0)) [
    | inl t ↦
        let z = is_free t in
        rw t (
          record { small = h; count = z; by = inl refl },
          restored-Held v l e w.monitor.waiter_queue,
        )
    | inr f ↦ rw f tt
  ]

  pub wait_cond_resumed-Suspends :
      (v : ℕ) → Suspends (SameHolder info) (wait_cond_resumed priority i v w)
  unfolding wait_cond_resumed wait_in_queue
  wait_cond_resumed-Suspends v = elim (Bool-cases (bit_and info semaphore_mask == 0)) [
    | inl t ↦ rw t tt
    | inr f ↦ rw f (set_waiters-SameHolder info h)
  ]

  signal_queue-SameHolder :
      (q : List ℕ) → SameHolder info (signal_queue priority q w).monitor.lock_info
  unfolding signal_queue
  signal_queue-SameHolder [] = record { small = h; count = refl; by = refl }
  signal_queue-SameHolder (t ∷ ts) = set_waiters-SameHolder info h

  broadcast_queue-SameHolder :
      (q : List ℕ) → SameHolder info (broadcast_queue priority q w).monitor.lock_info
  unfolding broadcast_queue
  broadcast_queue-SameHolder [] = record { small = h; count = refl; by = refl }
  broadcast_queue-SameHolder (t ∷ ts) = set_waiters-SameHolder info h

  pub signal_cond-Completes : Completes (SameHolder info) (signal_cond priority i w)
  unfolding signal_cond
  signal_cond-Completes = elim (Bool-cases (bit_and info owner_id_mask == i)) [
    | inl t ↦ rw t (signal_queue-SameHolder w.monitor.cond_var_queue)
    | inr f ↦ rw f tt
  ]

  pub broadcast_cond-Completes : Completes (SameHolder info) (broadcast_cond priority i w)
  unfolding broadcast_cond
  broadcast_cond-Completes = elim (Bool-cases (bit_and info owner_id_mask == i)) [
    | inl t ↦ rw t (broadcast_queue-SameHolder w.monitor.cond_var_queue)
    | inr f ↦ rw f tt
  ]
