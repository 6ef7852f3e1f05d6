-- ===== src/Locks/Exclusion.antt =====
-- At most one thread holds a monitor, whatever the threads do and in which order.
use la_tte.Common.{
  ℕ, zero, suc, ◌+◌, ◌^◌, ◌<◌, ◌≡◌, ◌≢◌, refl, sym, ap, ◌∙◌, subst, inl, inr, Bool-cases, ◌==◌,
  ==_to, if◌then◌else◌, update, mem, arith,
}
use la_tte.Locks.{World, completed, lock_mutex}
use la_tte.Locks.LockWord.{semaphore, owner}
use la_tte.Locks.Holding.{
  Held, SameHolder, Completes, Suspends, lock_mutex-Completes, lock_mutex-Suspends,
  unlock_mutex-Completes, wait_cond-Suspends, wait_cond_resumed-Completes,
  wait_cond_resumed-Suspends, signal_cond-Completes, broadcast_cond-Completes,
}
use la_tte.Locks.System.{
  Pc, outside, inside, queued, woken, waiting, signalled, resumed, System, resume, notify, settle,
  enter, leave, MayLock, Act, lock_taken, lock_missed, unlock, wait, wait_over, wait_on, signal,
  broadcast, Reach, at_first, later,
}

-- How often a thread holds the monitor: by where it stands, and by the word
abbrev pub held : Pc → ℕ
held (inside n) = n
held p = 0

abbrev pub held_by : ℕ → ℕ → ℕ
held_by x i = if owner x == i then semaphore x else 0

-- A thread that is inside holds the monitor, and the word that a waiting thread has saved says that
-- it held it.
abbrev pub Saved : ℕ → ℕ → Type 0
Saved i v = (v < 2 ^ 32) × (owner v ≡ i) × (0 < semaphore v)

abbrev pub Sound : ℕ → Pc → Type 0
Sound i (inside n) = 0 < n
Sound i (waiting v) = Saved i v
Sound i (signalled v) = Saved i v
Sound i (resumed v) = Saved i v
Sound i p = Unit

pub record Agrees (s : System) : Type 0 where
  pub small : s.world.monitor.lock_info < 2 ^ 32
  pub sound : (i : ℕ) → Sound i (s.pc i)
  pub counts : (i : ℕ) → held (s.pc i) ≡ held_by s.world.monitor.lock_info i

held-resume : (p : Pc) → held (resume p) ≡ held p
held-resume outside = refl
held-resume (inside n) = refl
held-resume queued = refl
held-resume woken = refl
held-resume (waiting v) = refl
held-resume (signalled v) = refl
held-resume (resumed v) = refl

held-notify : (p : Pc) → held (notify p) ≡ held p
held-notify outside = refl
held-notify (inside n) = refl
held-notify queued = refl
held-notify woken = refl
held-notify (waiting v) = refl
held-notify (signalled v) = refl
held-notify (resumed v) = refl

resume-Sound : (i : ℕ) (p : Pc) → Sound i p → Sound i (resume p)
resume-Sound i outside s = s
resume-Sound i (inside n) s = s
resume-Sound i queued s = s
resume-Sound i woken s = s
resume-Sound i (waiting v) s = s
resume-Sound i (signalled v) s = s
resume-Sound i (resumed v) s = s

notify-Sound : (i : ℕ) (p : Pc) → Sound i p → Sound i (notify p)
notify-Sound i outside s = s
notify-Sound i (inside n) s = s
notify-Sound i queued s = s
notify-Sound i woken s = s
notify-Sound i (waiting v) s = s
notify-Sound i (signalled v) s = s
notify-Sound i (resumed v) s = s

held-settle : (w : World) (pc : ℕ → Pc) (j : ℕ) → held (settle w pc j) ≡ held (pc j)
held-settle w pc j = elim (Bool-cases (mem j w.monitor.waiter_queue)) [
  | inl m ↦ elim (Bool-cases (w.threads.is_running j)) [
    | inl r ↦ rw (m, r) (held-resume (notify (pc j)) ∙ held-notify (pc j))
    | inr r ↦ rw (m, r) (held-notify (pc j))
  ]
  | inr m ↦ elim (Bool-cases (w.threads.is_running j)) [
    | inl r ↦ rw (m, r) (held-resume (pc j))
    | inr r ↦ rw (m, r) refl
  ]
]

settle-Sound : (w : World) (pc : ℕ → Pc) (j : ℕ) → Sound j (pc j) → Sound j (settle w pc j)
settle-Sound w pc j s = elim (Bool-cases (mem j w.monitor.waiter_queue)) [
  | inl m ↦ elim (Bool-cases (w.threads.is_running j)) [
    | inl r ↦ rw (m, r) (resume-Sound j (notify (pc j)) (notify-Sound j (pc j) s))
    | inr r ↦ rw (m, r) (notify-Sound j (pc j) s)
  ]
  | inr m ↦ elim (Bool-cases (w.threads.is_running j)) [
    | inl r ↦ rw (m, r) (resume-Sound j (pc j) s)
    | inr r ↦ rw (m, r) s
  ]
]

held_by-Held : (i n x : ℕ) → Held i n x → held_by x i ≡ n
held_by-Held i n x h = ground (arith, h.count, h.by)

held_by-other : (i j n x : ℕ) → Held i n x → i ≢ j → held_by x j ≡ 0
held_by-other i j n x h ne = ground (arith, h.count, h.by)

-- A step of thread `i` from `p` to `q` changes the word from `x` to `y`: the thread holds it before
-- and after, or the step changes the bit of the waiters only.
data Effect (i : ℕ) (p : Pc) (x y : ℕ) (q : Pc) : Type 0 where
  changed : Held i (held p) x → Held i (held q) y → Effect i p x y q
  kept : held q ≡ held p → SameHolder x y → Effect i p x y q

-- The thread whose number is in a word with a count holds it.
counted-Held : (i n x : ℕ) → 0 < n → n ≡ held_by x i → (owner x ≡ i) × (semaphore x ≡ n)
counted-Held i n x l e = elim (Bool-cases (owner x == i)) [
  | inl t ↦ (ground arith, ground arith)
  | inr f ↦ absurd (ground arith)
]

owned-Held : (i n x : ℕ) → x < 2 ^ 32 → 0 < n → n ≡ held_by x i → Held i n x
owned-Held i n x h l e =
    let c = counted-Held i n x l e in record { small = h; count = c.1; by = inr c.0 }

-- By how much a call of `_lockMutex` may raise the count.
MayLock-bound :
    (i x : ℕ) (p : Pc) → MayLock p → held p ≡ held_by x i → owner x ≡ i → semaphore x + 1 < 2 ^ 15
MayLock-bound i x outside m e o = ground arith
MayLock-bound i x (inside n) m e o = ground arith
MayLock-bound i x queued m e o = elim m [ ]
MayLock-bound i x woken m e o = ground arith
MayLock-bound i x (waiting v) m e o = elim m [ ]
MayLock-bound i x (signalled v) m e o = elim m [ ]
MayLock-bound i x (resumed v) m e o = elim m [ ]

held-enter : (p : Pc) → MayLock p → held (enter p) ≡ suc (held p)
held-enter outside m = refl
held-enter (inside n) m = refl
held-enter queued m = elim m [ ]
held-enter woken m = refl
held-enter (waiting v) m = elim m [ ]
held-enter (signalled v) m = elim m [ ]
held-enter (resumed v) m = elim m [ ]

enter-Sound : (i : ℕ) (p : Pc) → Sound i (enter p)
enter-Sound i outside = omega arith
enter-Sound i (inside n) = omega arith
enter-Sound i queued = omega arith
enter-Sound i woken = omega arith
enter-Sound i (waiting v) = omega arith
enter-Sound i (signalled v) = omega arith
enter-Sound i (resumed v) = omega arith

leave-Sound : (i n : ℕ) → Sound i (leave n)
leave-Sound i zero = tt
leave-Sound i (suc n) = omega arith

held-leave : (n : ℕ) → held (leave n) ≡ n
held-leave zero = refl
held-leave (suc n) = refl

held_by_other : (x i : ℕ) → owner x ≢ i → held_by x i ≡ 0
held_by_other x i ne = ground arith

module _ (priority : ℕ → ℕ) (i : ℕ) (lt : i < 2 ^ 16) (w w' : World)
    (h : w.monitor.lock_info < 2 ^ 32) where
  abbrev x : ℕ
  x = w.monitor.lock_info

  abbrev y : ℕ
  y = w'.monitor.lock_info

  lock_taken-Effect :
      (p : Pc)
      → held p ≡ held_by x i
      → MayLock p
      → lock_mutex priority i w ≡ completed w'
      → Effect i p x y (enter p)
  lock_taken-Effect p c m e =
      let r =
        subst (Completes _) e (lock_mutex-Completes priority i lt w h (MayLock-bound i x p m c)) in
      let n = c ∙ held_by-Held i (semaphore x) x r.0 in
      changed (subst (λ k. Held i k x) (sym n) r.0)
        (subst (λ k. Held i k y) (sym (held-enter p m ∙ ap suc n)) r.1)

  step-Effect :
      {p q : Pc}
      → Sound i p
      → held p ≡ held_by x i
      → Act priority i w p w' q
      → Sound i q × Effect i p x y q
  step-Effect s c (lock_taken {p} m e) = (enter-Sound i p, lock_taken-Effect p c m e)
  step-Effect s c (lock_missed {p} m e) =
      let r = subst (Suspends _) e (lock_mutex-Suspends priority i lt w h) in
      (tt, kept (sym (c ∙ held_by_other x i r.0)) r.1)
  step-Effect s c (unlock {n} e) =
      let o = counted-Held i (suc n) x (omega arith) c in
      (
        leave-Sound i n,
        changed (owned-Held i (suc n) x h (omega arith) c) (
            subst (λ k. Held i k y) (sym (held-leave n))
              (subst (Completes _) e (unlock_mutex-Completes priority i lt w h n o.0 o.1))),
      )
  step-Effect s c (wait {n} e) =
      let o = counted-Held i n x s c in
      (
        (h, o.0, omega (arith, o.1)),
        changed (owned-Held i n x h s c)
            (subst (Suspends _) e (wait_cond-Suspends priority i lt w h)),
      )
  step-Effect s c (wait_over {v} e) =
      let r = subst (Completes _) e (wait_cond_resumed-Completes priority i lt w h v s.0 s.1) in
      (s.2, changed r.0 r.1)
  step-Effect s c (wait_on {v} e) =
      (s, kept refl (subst (Suspends _) e (wait_cond_resumed-Suspends priority i lt w h v)))
  step-Effect s c (signal e) =
      (s, kept refl (subst (Completes _) e (signal_cond-Completes priority i lt w h)))
  step-Effect s c (broadcast e) =
      (s, kept refl (subst (Completes _) e (broadcast_cond-Completes priority i lt w h)))

-- What a step does to the count that the word gives a thread: that of the thread which takes the
-- step, and that of another one
Effect-own : (i x y : ℕ) (p q : Pc) → held p ≡ held_by x i → Effect i p x y q → held q ≡ held_by y i
Effect-own i x y p q c (changed a b) = sym (held_by-Held i (held q) y b)
Effect-own i x y p q c (kept e s) = ground (arith, s.count, s.by)

Effect-other : (i j x y : ℕ) (p q : Pc) → i ≢ j → Effect i p x y q → held_by y j ≡ held_by x j
Effect-other i j x y p q ne (changed a b) =
    held_by-other i j (held q) y b ne ∙ sym (held_by-other i j (held p) x a ne)
Effect-other i j x y p q ne (kept e s) = ground (arith, s.count, s.by)

Effect-small : (i x y : ℕ) (p q : Pc) → Effect i p x y q → y < 2 ^ 32
Effect-small i x y p q (changed a b) = b.small
Effect-small i x y p q (kept e s) = s.small

abbrev after : World → (ℕ → Pc) → ℕ → Pc → System
after w pc i q = record { world = w; pc = update (settle w pc) i q }

step-Agrees :
    (priority : ℕ → ℕ) (s : System) (w : World) (q : Pc) (i : ℕ)
    → i < 2 ^ 16
    → Agrees s
    → Act priority i s.world (s.pc i) w q
    → Agrees (after w s.pc i q)
step-Agrees priority s w q i lt a act =
    let r = step-Effect priority i lt s.world w a.small (a.sound i) (a.counts i) act in
    record {
      small = Effect-small i _ _ (s.pc i) q r.1;
      sound = λ j. elim (Bool-cases (i == j)) [
        | inl t ↦ rw t (subst (λ k. Sound k q) (==_to i j t) r.0)
        | inr f ↦ rw f (settle-Sound w s.pc j (a.sound j))
      ];
      counts = λ j. elim (Bool-cases (i == j)) [
        | inl t ↦ rw t (
            subst (λ k. held q ≡ held_by w.monitor.lock_info k) (==_to i j t)
              (Effect-own i _ _ (s.pc i) q (a.counts i) r.1))
        | inr f ↦ rw f (
            held-settle w s.pc j
            ∙ a.counts j
            ∙ sym (Effect-other i j _ _ (s.pc i) q (λ e. absurd (ground arith)) r.1))
      ];
    }

-- In every state that the threads reach, the word and the places of the threads agree.
pub Reach-Agrees : (priority : ℕ → ℕ) (s : System) → Reach priority s → Agrees s
Reach-Agrees priority s (at_first queues) = record {
  small = omega arith;
  sound = λ i. tt;
  counts = λ i. ground arith;
}
Reach-Agrees priority s (later {s = t} {w'} {p'} r i lt act) =
    step-Agrees priority t w' p' i lt (Reach-Agrees priority t r) act

-- In every state that the threads of one monitor reach, in any order, a thread that is inside it has
-- locked it at least once, the word names it as the owner, and the word counts its calls.
pub holder_lem :
    (priority : ℕ → ℕ) (s : System)
    → Reach priority s
    → (i n : ℕ) → s.pc i ≡ inside n
    → (0 < n) × (owner s.world.monitor.lock_info ≡ i) × (semaphore s.world.monitor.lock_info ≡ n)
holder_lem priority s r i n e =
    let a = Reach-Agrees priority s r in
    let l = (subst (Sound i) e (a.sound i)) in
    let c = counted-Held i n s.world.monitor.lock_info l (sym (ap held e) ∙ a.counts i) in
    (l, c.0, c.1)

-- Two conditions stand in the steps (`Act`): a thread calls `_unlockMutex`, `_waitCond`, `_signalCond`
-- and `_broadcastCond` only while it is inside the monitor, which the code does not enforce, and a
-- call runs without a change of threads up to where it gives the processor away itself, though
-- `alarmException` can change threads in between. In every state that the threads of one monitor
-- reach by such steps, in any order, two threads that are inside it are the same thread.
pub mutual_exclusion :
    (priority : ℕ → ℕ) (s : System)
    → Reach priority s
    → (i j m n : ℕ) → s.pc i ≡ inside m
    → s.pc j ≡ inside n
    → i ≡ j
mutual_exclusion priority s r i j m n ei ej =
    sym (holder_lem priority s r i m ei).1 ∙ (holder_lem priority s r j n ej).1
