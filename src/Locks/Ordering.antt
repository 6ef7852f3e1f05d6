-- ===== src/Locks/Ordering.antt =====
-- A step of a thread keeps every thread where its place says.
use la_tte.Common.{
  ℕ, ◌≡◌, refl, sym, ap, ◌∙◌, subst, inl, inr, Bool, true, false, ◌||◌, Bool-cases, List, ◌∷◌, ◌==◌,
  ==_to, update, update_self, ==_self, mem, arith,
}
use la_tte.Locks.{World}
use la_tte.Locks.System.{Pc, settle}
use la_tte.Locks.Moves.{
  in_lock_queue, in_cond_queue, lock_queue, cond_queue, running, Move, stays, sleeps, wakes, waits,
  wakes_and_waits, signals, broadcasts,
}
use la_tte.Locks.Places.{
  Standing, Placed, Orderly, mem_head, mem_later, mem-++, moved_place, moved_lock_once,
  moved_cond_once, not_in_lock, not_in_cond,
}

-- The thread that takes the step
module _ (i : ℕ) (w w' : World) (pc : ℕ → Pc) (o : Orderly w pc) (l : in_lock_queue (pc i) ≡ false)
    (c : in_cond_queue (pc i) ≡ false) where
  pub it_runs : running w i ≡ true
  it_runs = (o.placed i).run ∙ rw (l, c) refl

  out : mem i (lock_queue w) ≡ false
  out = not_in_lock i w w' pc o l c

  out_cond : mem i (cond_queue w) ≡ false
  out_cond = not_in_cond i w w' pc o l c

  mem_smaller : (t : ℕ) (q q' : List ℕ) → q ≡ t ∷ q' → mem i q ≡ false → mem i q' ≡ false
  mem_smaller t q q' e m = ground (arith, sym (ap (mem i) e) ∙ m)

  mem_other : (t : ℕ) (q q' : List ℕ) → q ≡ t ∷ q' → mem i q ≡ false → (t == i) ≡ false
  mem_other t q q' e m = ground (arith, sym (ap (mem i) e) ∙ m)

  woken_runs : (t : ℕ) → update (running w) t true i ≡ true
  woken_runs t = ground (arith, it_runs)

  own_place : {a b : Bool} → Move i w w' a b → Standing w' i a b
  own_place (stays x y z) = record {
    lock = ap (mem i) x ∙ out;
    cond = ap (mem i) y ∙ out_cond;
    run = ap (λ f. f i) z ∙ it_runs;
  }
  own_place (sleeps x y z) = record {
    lock = ap (mem i) x ∙ mem_head i i (lock_queue w) (==_self i);
    cond = ap (mem i) y ∙ out_cond;
    run = ap (λ f. f i) z ∙ update_self (running w) i false;
  }
  own_place (wakes t x y z) = record {
    lock = mem_smaller t _ _ x out;
    cond = ap (mem i) y ∙ out_cond;
    run = ap (λ f. f i) z ∙ woken_runs t;
  }
  own_place (waits x y z) = record {
    lock = ap (mem i) x ∙ out;
    cond = ap (mem i) y ∙ mem_head i i (cond_queue w) (==_self i);
    run = ap (λ f. f i) z ∙ update_self (running w) i false;
  }
  own_place (wakes_and_waits t x y z) = record {
    lock = mem_smaller t _ _ x out;
    cond = ap (mem i) y ∙ mem_head i i (cond_queue w) (==_self i);
    run = ap (λ f. f i) z ∙ update_self (update (running w) t true) i false;
  }
  own_place (signals t x y z) = record {
    lock = ap (mem i) x ∙ mem_later t i (lock_queue w) (mem_other t _ _ y out_cond) ∙ out;
    cond = mem_smaller t _ _ y out_cond;
    run = ap (λ f. f i) z ∙ it_runs;
  }
  own_place (broadcasts x y z) = record {
    lock =
        ap (mem i) x
        ∙ mem-++ i (cond_queue w) (lock_queue w)
        ∙ ap (λ b. b || mem i (lock_queue w)) out_cond
        ∙ out;
    cond = ap (mem i) y;
    run = ap (λ f. f i) z ∙ it_runs;
  }

  pub step-Orderly :
      {a b : Bool} (q : Pc)
      → Move i w w' a b
      → in_lock_queue q ≡ a
      → in_cond_queue q ≡ b
      → Orderly w' (update (settle w' pc) i q)
  step-Orderly {a} {b} q m e f = record {
    placed = λ j. elim (Bool-cases (i == j)) [
      | inl t ↦ rw t (
          subst (λ k. Placed w' k q) (==_to i j t)
            (subst (Standing w' i (in_lock_queue q)) (sym f)
              (subst (λ l. Standing w' i l b) (sym e) (own_place m))))
      | inr g ↦ rw g (moved_place i w w' pc o l c m j (λ e. absurd (ground arith)))
    ];
    lock_once = moved_lock_once i w w' pc o l c m;
    cond_once = moved_cond_once i w w' pc o l c m;
  }
