-- ===== src/Locks/Release.antt =====
-- What a step does that gives up a monitor: whom it wakes.
use la_tte.Common.{
  ℕ, ◌/◌, ◌^◌, ◌≤◌, ◌<◌, ◌≡◌, ◌≢◌, refl, sym, ap, ◌∙◌, ◌⊎◌, inl, inr, Bool, true, false, Bool-cases,
  List, [], ◌∷◌, ◌==◌, ==_to, leb, bit_and, update, update_self, mem, arith,
}
use la_tte.Locks.{
  World, semaphore_down, owner_id_mask, wakeup_first, wakeup_waiter, unlock_mutex,
  suspend_on_q_thread, release_and_wait, wait_cond,
}
use la_tte.Locks.LockWord.{semaphore, waiters_bit}
use la_tte.Locks.Waiters.{Marks, Marked}
use la_tte.Locks.Moves.{
  lock_queue, running, Move, stays, wakes, waits, wakes_and_waits, Completed, Suspended,
  resumed_running,
}

distinct : true ≢ false
distinct e = absurd (ground arith)

-- A step that gives up the monitor, or a part of it: it wakes the first thread of the queue, unless
-- the monitor is still held or the queue is empty.
pub data Release (i : ℕ) (w w' : World) (l c : Bool) : Type 0 where
  silent :
      Move i w w' l c
      → (0 < semaphore w'.monitor.lock_info) ⊎ (lock_queue w ≡ [])
      → lock_queue w' ≡ lock_queue w
      → Release i w w' l c
  waking :
      (t : ℕ)
      → lock_queue w ≡ t ∷ lock_queue w'
      → running w' t ≡ true
      → Move i w w' l c
      → Release i w w' l c

module _ (priority : ℕ → ℕ) (i : ℕ) (w : World) (m : Marked w)
    (asleep : (t : ℕ) → mem t (lock_queue w) ≡ true → running w t ≡ false) where
  abbrev y : ℕ
  y = w.monitor.lock_info

  head_asleep : (t : ℕ) (ts : List ℕ) → lock_queue w ≡ t ∷ ts → running w t ≡ false
  head_asleep t ts e = asleep t (rw e (ground arith))

  silent-Release :
      (z : ℕ)
      → (0 < semaphore z) ⊎ (lock_queue w ≡ [])
      → Release i w (record w { monitor = record w.monitor { lock_info = z } }) false false
  silent-Release z s = silent (stays refl refl refl) s refl

  wakeup-Release :
      (z : ℕ) (q : List ℕ)
      → lock_queue w ≡ q
      → Completed
          (λ w'. Release i w w' false false)
          (wakeup_first priority i q (record w { monitor = record w.monitor { lock_info = z } }))
  unfolding wakeup_first
  wakeup-Release z [] e = tt
  wakeup-Release z (t ∷ ts) e =
      let r = resumed_running priority i t w.threads (head_asleep t ts e) in
      waking t e (ap (λ f. f t) r ∙ update_self (running w) t true) (wakes t e refl r)

  no_mark : (q : List ℕ) → Marks y q → waiters_bit y ≡ 0 → q ≡ []
  no_mark [] n z = refl
  no_mark (t ∷ ts) n z = absurd (omega arith)

  unlock-Silent :
      2 ≤ y / 2 ^ 16
      → (semaphore_down y / 2 ^ 16 == 1) ≡ false
      → (0 < semaphore (semaphore_down y)) ⊎ (lock_queue w ≡ [])
  unfolding semaphore_down
  unlock-Silent l g = elim (Bool-cases (leb 4 (y / 2 ^ 16))) [
    | inl t ↦ inl (ground arith)
    | inr f ↦ inr (no_mark (lock_queue w) m (ground arith))
  ]

  pub unlock-Release : Completed (λ w'. Release i w w' false false) (unlock_mutex priority i w)
  unfolding unlock_mutex wakeup_waiter
  unlock-Release = elim (Bool-cases (leb 2 (y / 2 ^ 16))) [
    | inl t ↦ elim (Bool-cases (semaphore_down y / 2 ^ 16 == 1)) [
      | inl u ↦ rw (t, u) (wakeup-Release (semaphore_down y) (lock_queue w) refl)
      | inr g ↦ rw (t, g) (silent-Release (semaphore_down y) (unlock-Silent (ground arith) g))
    ]
    | inr f ↦ rw f tt
  ]

  other_runs :
      (f g : ℕ → Bool) (i t : ℕ)
      → f i ≡ true
      → f t ≡ false
      → g ≡ update f t true
      → update g i false t ≡ true
  other_runs f g i t r a e = rw e (elim (Bool-cases (i == t)) [
    | inl s ↦ absurd (distinct (sym r ∙ ap f (==_to i t s) ∙ a))
    | inr s ↦ ground arith
  ])

  wait-Releases :
      (q : List ℕ)
      → lock_queue w ≡ q
      → running w i ≡ true
      → Release i w (release_and_wait priority i q w) false true
  unfolding release_and_wait suspend_on_q_thread
  wait-Releases [] e r = silent (waits refl refl refl) (inr e) refl
  wait-Releases (t ∷ ts) e r =
      let a = head_asleep t ts e in
      let u = resumed_running priority i t w.threads a in
      waking t e (other_runs (running w) _ i t r a u)
        (wakes_and_waits t e refl (ap (λ f. update f i false) u))

  pub wait-Release :
      running w i ≡ true → Suspended (λ w'. Release i w w' false true) (wait_cond priority i w)
  unfolding wait_cond
  wait-Release r = elim (Bool-cases (bit_and y owner_id_mask == i)) [
    | inl t ↦ rw t (wait-Releases (lock_queue w) refl r)
    | inr f ↦ rw f tt
  ]
