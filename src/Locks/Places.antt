-- ===== src/Locks/Places.antt =====
-- Every thread is in the queue that its place says, whatever step another thread takes.
use la_tte.Common.{
  ℕ, ◌≡◌, ◌≢◌, refl, sym, ap, ◌∙◌, subst, inl, inr, Bool, true, false, ◌||◌, Bool-cases, List, [],
  ◌∷◌, ◌++◌, ◌==◌, ==_to, if◌then◌else◌, update, update_ne, ==_of_ne, ==_self, true_branch,
  false_branch, mem, arith,
}
use la_tte.Locks.{World}
use la_tte.Locks.System.{
  Pc, outside, inside, queued, woken, waiting, signalled, resumed, resume, notify,
}
use la_tte.Locks.Moves.{
  in_lock_queue, in_cond_queue, runs, lock_queue, cond_queue, running, Move, stays, sleeps, wakes,
  waits, wakes_and_waits, signals, broadcasts,
}

-- Whether a thread is in the queue of the lock, and in that of the condition; in neither it runs.
pub record Standing (w : World) (j : ℕ) (a b : Bool) : Type 0 where
  pub lock : mem j (lock_queue w) ≡ a
  pub cond : mem j (cond_queue w) ≡ b
  pub run : running w j ≡ (if a then false else if b then false else true)

-- It stands as its place says.
abbrev pub Placed : World → ℕ → Pc → Type 0
Placed w j p = Standing w j (in_lock_queue p) (in_cond_queue p)

-- No thread is twice in a queue.
abbrev pub NoTwice : List ℕ → Type 0
NoTwice [] = Unit
NoTwice (t ∷ ts) = (mem t ts ≡ false) × NoTwice ts

abbrev pub settled : Bool → Bool → Pc → Pc
settled l r p = let q = if l then notify p else p in if r then resume q else q

still_settled : (p : Pc) → settled (in_lock_queue p) (runs p) p ≡ p
still_settled outside = refl
still_settled (inside n) = refl
still_settled queued = refl
still_settled woken = refl
still_settled (waiting v) = refl
still_settled (signalled v) = refl
still_settled (resumed v) = refl

-- A thread that a step does not concern
other-Placed :
    (w w' : World) (j : ℕ) (p : Pc)
    → mem j (lock_queue w') ≡ mem j (lock_queue w)
    → mem j (cond_queue w') ≡ mem j (cond_queue w)
    → running w' j ≡ running w j
    → Placed w j p
    → Placed w' j (settled (mem j (lock_queue w')) (running w' j) p)
other-Placed w w' j p l c r h =
    rw (l ∙ h.lock, r ∙ h.run, still_settled p)
      (record { lock = l ∙ h.lock; cond = c ∙ h.cond; run = r ∙ h.run })

-- A thread that is woken
woken-Placed :
    (w w' : World) (j : ℕ) (p : Pc)
    → in_lock_queue p ≡ true
    → mem j (lock_queue w') ≡ false
    → mem j (cond_queue w') ≡ mem j (cond_queue w)
    → running w' j ≡ true
    → Placed w j p
    → Placed w' j (settled (mem j (lock_queue w')) (running w' j) p)
woken-Placed w w' j p a l c r h = rw (l, r) (go p a (c ∙ h.cond))
  where
    go :
        (p : Pc)
        → in_lock_queue p ≡ true
        → mem j (cond_queue w') ≡ in_cond_queue p
        → Placed w' j (settled false true p)
    go outside a c = absurd (ground arith)
    go (inside n) a c = absurd (ground arith)
    go queued a c = record { lock = l; cond = c; run = r }
    go woken a c = absurd (ground arith)
    go (waiting v) a c = absurd (ground arith)
    go (signalled v) a c = record { lock = l; cond = c; run = r }
    go (resumed v) a c = absurd (ground arith)

-- A thread that is moved to the queue of the lock
moved-Placed :
    (w w' : World) (j : ℕ) (p : Pc)
    → in_cond_queue p ≡ true
    → mem j (lock_queue w') ≡ true
    → mem j (cond_queue w') ≡ false
    → running w' j ≡ running w j
    → Placed w j p
    → Placed w' j (settled (mem j (lock_queue w')) (running w' j) p)
moved-Placed w w' j p a l c r h = rw (l, r ∙ h.run) (go p a (r ∙ h.run))
  where
    go :
        (p : Pc)
        → in_cond_queue p ≡ true
        → running w' j ≡ runs p
        → Placed w' j (settled true (runs p) p)
    go outside a s = absurd (ground arith)
    go (inside n) a s = absurd (ground arith)
    go queued a s = absurd (ground arith)
    go woken a s = absurd (ground arith)
    go (waiting v) a s = record { lock = l; cond = c; run = s }
    go (signalled v) a s = absurd (ground arith)
    go (resumed v) a s = absurd (ground arith)

pub record Orderly (w : World) (pc : ℕ → Pc) : Type 0 where
  pub placed : (j : ℕ) → Placed w j (pc j)
  pub lock_once : NoTwice (lock_queue w)
  pub cond_once : NoTwice (cond_queue w)

pub mem_head : (t j : ℕ) (ts : List ℕ) → (t == j) ≡ true → mem j (t ∷ ts) ≡ true
mem_head t j ts e = ground arith

pub mem_later : (t j : ℕ) (ts : List ℕ) → (t == j) ≡ false → mem j (t ∷ ts) ≡ mem j ts
mem_later t j ts e = ground arith

-- A thread that waits for the condition is not in the queue of the lock.
apart : (p : Pc) → in_cond_queue p ≡ true → in_lock_queue p ≡ false
apart outside e = refl
apart (inside n) e = refl
apart queued e = absurd (ground arith)
apart woken e = refl
apart (waiting v) e = refl
apart (signalled v) e = absurd (ground arith)
apart (resumed v) e = refl

pub mem-++ : (j : ℕ) (xs ys : List ℕ) → mem j (xs ++ ys) ≡ (mem j xs || mem j ys)
mem-++ j [] ys = refl
mem-++ j (x ∷ xs) ys = ground (arith, mem-++ j xs ys)

pub append-NoTwice :
    (xs ys : List ℕ)
    → NoTwice xs
    → NoTwice ys
    → ((j : ℕ) → mem j xs ≡ true → mem j ys ≡ false)
    → NoTwice (xs ++ ys)
append-NoTwice [] ys a b h = b
append-NoTwice (x ∷ xs) ys a b h = (
  ground (arith, a.0, mem-++ x xs ys, h x (ground arith)),
  append-NoTwice xs ys a.1 b (λ j m. h j (ground arith)),
)

-- The other threads and the queues after a step
module _ (i : ℕ) (w w' : World) (pc : ℕ → Pc) (o : Orderly w pc) (l : in_lock_queue (pc i) ≡ false)
    (c : in_cond_queue (pc i) ≡ false) where
  abbrev rest : ℕ → Pc
  rest j = settled (mem j (lock_queue w')) (running w' j) (pc j)

  -- ... of which `t` is the one that was first in the queue of the lock, or in that of the condition
  wakes_place :
      (t j : ℕ)
      → lock_queue w ≡ t ∷ lock_queue w'
      → mem j (cond_queue w') ≡ mem j (cond_queue w)
      → running w' j ≡ update (running w) t true j
      → Placed w' j (rest j)
  wakes_place t j x y z = elim (Bool-cases (t == j)) [
    | inl e ↦
        woken-Placed w w' j (pc j)
          (sym (o.placed j).lock ∙ ap (mem j) x ∙ mem_head t j (lock_queue w') e)
          (subst (λ k. mem k (lock_queue w') ≡ false) (==_to t j e) (subst NoTwice x o.lock_once).0)
          y (z ∙ true_branch (t == j) true (running w j) e) (o.placed j)
    | inr e ↦
        other-Placed w w' j (pc j) (sym (ap (mem j) x ∙ mem_later t j (lock_queue w') e)) y
          (z ∙ false_branch (t == j) true (running w j) e) (o.placed j)
  ]

  signals_place :
      (t j : ℕ)
      → lock_queue w' ≡ t ∷ lock_queue w
      → cond_queue w ≡ t ∷ cond_queue w'
      → running w' j ≡ running w j
      → Placed w' j (rest j)
  signals_place t j x y z = elim (Bool-cases (t == j)) [
    | inl e ↦
        moved-Placed w w' j (pc j)
          (sym (o.placed j).cond ∙ ap (mem j) y ∙ mem_head t j (cond_queue w') e)
          (ap (mem j) x ∙ mem_head t j (lock_queue w) e)
          (subst (λ k. mem k (cond_queue w') ≡ false) (==_to t j e) (subst NoTwice y o.cond_once).0)
          z (o.placed j)
    | inr e ↦
        other-Placed w w' j (pc j) (ap (mem j) x ∙ mem_later t j (lock_queue w) e)
          (sym (ap (mem j) y ∙ mem_later t j (cond_queue w') e)) z (o.placed j)
  ]

  broadcasts_place :
      (j : ℕ)
      → lock_queue w' ≡ cond_queue w ++ lock_queue w
      → cond_queue w' ≡ []
      → running w' j ≡ running w j
      → Placed w' j (rest j)
  broadcasts_place j x y z =
      let m = ap (mem j) x ∙ mem-++ j (cond_queue w) (lock_queue w) in
      elim (Bool-cases (mem j (cond_queue w))) [
        | inl e ↦
            moved-Placed w w' j (pc j) (sym (o.placed j).cond ∙ e)
              (m ∙ ap (λ b. b || mem j (lock_queue w)) e) (ap (mem j) y) z (o.placed j)
        | inr e ↦
            other-Placed w w' j (pc j) (m ∙ ap (λ b. b || mem j (lock_queue w)) e)
              (ap (mem j) y ∙ sym e) z (o.placed j)
      ]

  pub moved_place : {a b : Bool} → Move i w w' a b → (j : ℕ) → i ≢ j → Placed w' j (rest j)
  moved_place (stays x y z) j ne =
      other-Placed w w' j (pc j) (ap (mem j) x) (ap (mem j) y) (ap (λ f. f j) z) (o.placed j)
  moved_place (sleeps x y z) j ne =
      other-Placed w w' j (pc j) (ap (mem j) x ∙ mem_later i j (lock_queue w) (==_of_ne i j ne))
        (ap (mem j) y) (ap (λ f. f j) z ∙ update_ne (running w) i j false ne) (o.placed j)
  moved_place (wakes t x y z) j ne = wakes_place t j x (ap (mem j) y) (ap (λ f. f j) z)
  moved_place (waits x y z) j ne =
      other-Placed w w' j (pc j) (ap (mem j) x)
        (ap (mem j) y ∙ mem_later i j (cond_queue w) (==_of_ne i j ne))
        (ap (λ f. f j) z ∙ update_ne (running w) i j false ne) (o.placed j)
  moved_place (wakes_and_waits t x y z) j ne =
      wakes_place t j x (ap (mem j) y ∙ mem_later i j (cond_queue w) (==_of_ne i j ne))
        (ap (λ f. f j) z ∙ update_ne (update (running w) t true) i j false ne)
  moved_place (signals t x y z) j ne = signals_place t j x y (ap (λ f. f j) z)
  moved_place (broadcasts x y z) j ne = broadcasts_place j x y (ap (λ f. f j) z)

  pub not_in_lock : mem i (lock_queue w) ≡ false
  not_in_lock = (o.placed i).lock ∙ l

  pub not_in_cond : mem i (cond_queue w) ≡ false
  not_in_cond = (o.placed i).cond ∙ c

  cond_not_lock : (j : ℕ) → mem j (cond_queue w) ≡ true → mem j (lock_queue w) ≡ false
  cond_not_lock j m = (o.placed j).lock ∙ apart (pc j) (sym (o.placed j).cond ∙ m)

  pub moved_lock_once : {a b : Bool} → Move i w w' a b → NoTwice (lock_queue w')
  moved_lock_once (stays x y z) = rw x o.lock_once
  moved_lock_once (sleeps x y z) = rw x (not_in_lock, o.lock_once)
  moved_lock_once (wakes t x y z) = (subst NoTwice x o.lock_once).1
  moved_lock_once (waits x y z) = rw x o.lock_once
  moved_lock_once (wakes_and_waits t x y z) = (subst NoTwice x o.lock_once).1
  moved_lock_once (signals t x y z) =
      rw x (cond_not_lock t (ap (mem t) y ∙ mem_head t t (cond_queue w') (==_self t)), o.lock_once)
  moved_lock_once (broadcasts x y z) =
      rw x (append-NoTwice (cond_queue w) (lock_queue w) o.cond_once o.lock_once cond_not_lock)

  pub moved_cond_once : {a b : Bool} → Move i w w' a b → NoTwice (cond_queue w')
  moved_cond_once (stays x y z) = rw y o.cond_once
  moved_cond_once (sleeps x y z) = rw y o.cond_once
  moved_cond_once (wakes t x y z) = rw y o.cond_once
  moved_cond_once (waits x y z) = rw y (not_in_cond, o.cond_once)
  moved_cond_once (wakes_and_waits t x y z) = rw y (not_in_cond, o.cond_once)
  moved_cond_once (signals t x y z) = (subst NoTwice y o.cond_once).1
  moved_cond_once (broadcasts x y z) = rw y tt
