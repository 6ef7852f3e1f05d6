-- ===== src/Scheduler/Fairness.antt =====
-- No thread waits for the processor behind one of a lower priority, unless a change is due.
use la_tte.Common.{
  ℕ, zero, suc, ◌≤◌, ◌<◌, ◌≡◌, ◌≢◌, refl, sym, ap, ◌∙◌, subst, ◌⊎◌, inl, inr, Bool, true, false,
  ◌||◌, ◌&&◌, not, Bool-cases, some, List, [], ◌∷◌, ◌++◌, ◌==◌, update, update_self, update_ne,
  ==_to, true_branch, false_branch, mem, arith,
}
use mathlib.Core.Option.{some-injective}
use la_tte.Locks.{remove}
use la_tte.Locks.Places.{NoTwice, mem_later, mem-++, append-NoTwice}
use la_tte.Scheduler.{Scheduler, first_or, first_of_highest}

-- A thread in a run queue is in that of its priority, once, and runs.
pub record Queues (q : ℕ → List ℕ) (run : ℕ → Bool) (prio : ℕ → ℕ) : Type 0 where
  pub place : (p t : ℕ) → mem t (q p) ≡ true → prio t ≡ p
  pub runs : (p t : ℕ) → mem t (q p) ≡ true → run t ≡ true
  pub once : (p : ℕ) → NoTwice (q p)

-- Such queues, of which those above the priority of the current thread are empty when no change of
-- threads is due
pub record Fair (s : Scheduler) : Type 0 where
  pub queues : Queues s.threads.thread_q s.threads.is_running s.priority
  pub above :
      s.threads.need_reschedule ≡ false
      → (p : ℕ) → s.priority s.current < p
      → s.threads.thread_q p ≡ []

remove_here : (k u : ℕ) (us : List ℕ) → (u == k) ≡ true → remove k (u ∷ us) ≡ us
unfolding remove
remove_here k u us e = true_branch (u == k) _ _ e

remove_there : (k u : ℕ) (us : List ℕ) → (u == k) ≡ false → remove k (u ∷ us) ≡ u ∷ remove k us
unfolding remove
remove_there k u us e = false_branch (u == k) _ _ e

-- What is left in a queue when a thread has been taken out: the others
mem-remove : (k t : ℕ) (q : List ℕ) → NoTwice q → mem t (remove k q) ≡ (mem t q && not (k == t))
unfolding remove
mem-remove k t [] n = refl
mem-remove k t (u ∷ us) n = elim (Bool-cases (u == k)) [
  | inl e ↦ ap (mem t) (remove_here k u us e) ∙ elim (Bool-cases (k == t)) [
    | inl f ↦
        subst (λ x. mem x us ≡ false) (==_to u k e ∙ ==_to k t f) n.0
        ∙ sym (and_not (mem t (u ∷ us)) (k == t) f)
    | inr f ↦
        sym (mem_later u t us (subst (λ x. (x == t) ≡ false) (sym (==_to u k e)) f))
        ∙ sym (and_kept (mem t (u ∷ us)) (k == t) f)
  ]
  | inr e ↦
      ap (mem t) (remove_there k u us e)
      ∙ ap (λ b. (u == t) || b) (mem-remove k t us n.1)
      ∙ others (u == t) (k == t) (mem t us)
          (λ f g. absurd (ground (arith, ==_to u t f, ==_to k t g)))
]
  where
    and_not : (a b : Bool) → b ≡ true → (a && not b) ≡ false
    and_not a b e = ground arith

    others : (a b c : Bool) → (a ≡ true → b ≡ true → ⊥) → (a || (c && not b)) ≡ ((a || c) && not b)
    others a b c n = ground (arith, n)

    and_kept : (a b : Bool) → b ≡ false → (a && not b) ≡ a
    and_kept a b e = ground arith

remove-NoTwice : (k : ℕ) (q : List ℕ) → NoTwice q → NoTwice (remove k q)
unfolding remove
remove-NoTwice k [] n = tt
remove-NoTwice k (u ∷ us) n = elim (Bool-cases (u == k)) [
  | inl e ↦ subst NoTwice (sym (remove_here k u us e)) n.1
  | inr e ↦
      subst NoTwice (sym (remove_there k u us e))
        (mem-remove k u us n.1 ∙ ap (λ b. b && not (k == u)) n.0, remove-NoTwice k us n.1)
]

pub remove_empty : (k : ℕ) (q : List ℕ) → q ≡ [] → remove k q ≡ []
unfolding remove
remove_empty k [] e = refl
remove_empty k (u ∷ us) e = absurd (ground arith)

-- The search finds the head of the highest queue that is not empty.
pub record Found (n : ℕ) (queues : ℕ → List ℕ) (t : ℕ) : Type 0 where
  pub level : ℕ
  pub rest : List ℕ
  pub head : queues level ≡ t ∷ rest
  pub higher : (p : ℕ) → level < p → p ≤ n → queues p ≡ []

below : (p n : ℕ) → p ≤ suc n → (p == suc n) ≡ false → p ≤ n
below p n l f = ground arith

pub first_of_highest-Found :
    (n : ℕ) (queues : ℕ → List ℕ) (t : ℕ) → first_of_highest n queues ≡ some t → Found n queues t
unfolding first_of_highest
first_of_highest-Found zero queues t e = absurd (ground arith)
first_of_highest-Found (suc n) queues t e =
    go (queues (suc n)) refl (first_of_highest-Found n queues t) e
  where
    go :
        (q : List ℕ)
        → queues (suc n) ≡ q
        → (first_of_highest n queues ≡ some t → Found n queues t)
        → first_or q (first_of_highest n queues) ≡ some t
        → Found (suc n) queues t
    go [] d i e =
        let r = i e in
        record {
          level = r.level;
          rest = r.rest;
          head = r.head;
          higher = λ p h l. elim (Bool-cases (p == suc n)) [
            | inl f ↦ ap queues (==_to p (suc n) f) ∙ d
            | inr f ↦ r.higher p h (below p n l f)
          ];
        }
    go (u ∷ us) d i e = record {
      level = suc n;
      rest = us;
      head = d ∙ ap (λ x. x ∷ us) (some-injective u t e);
      higher = λ p h l. absurd (omega arith);
    }

pub absent_sleeps :
    {q : ℕ → List ℕ} {run : ℕ → Bool} {prio : ℕ → ℕ}
    → Queues q run prio
    → (tid : ℕ) → run tid ≡ false
    → (p : ℕ) → mem tid (q p) ≡ false
absent_sleeps {q} {run} {prio} h tid r p = elim (Bool-cases (mem tid (q p))) [
  | inl m ↦ absurd (ground (arith, sym r ∙ h.runs p tid m))
  | inr m ↦ m
]

module _ {q : ℕ → List ℕ} {run : ℕ → Bool} {prio : ℕ → ℕ} (h : Queues q run prio) (tid : ℕ) where
  abbrev pub left : ℕ → List ℕ
  left = update q (prio tid) (remove tid (q (prio tid)))

  both : (a : Bool) (b : Bool) → (a && not b) ≡ true → (a ≡ true) × (b ≡ false)
  both a b e = (ground arith, ground arith)

  left_here : (t : ℕ) → mem t (left (prio tid)) ≡ true → (mem t (q (prio tid)) ≡ true) × (tid ≢ t)
  left_here t m =
      let e =
        sym (mem-remove tid t (q (prio tid)) (h.once (prio tid)))
        ∙ sym (ap (mem t) (update_self q (prio tid) (remove tid (q (prio tid)))))
        ∙ m in
      let b = both (mem t (q (prio tid))) (tid == t) e in (b.0, λ u. absurd (ground (arith, b.1)))

  left_mem : (p t : ℕ) → mem t (left p) ≡ true → (mem t (q p) ≡ true) × (tid ≢ t)
  left_mem p t m = elim (Bool-cases (prio tid == p)) [
    | inl e ↦
        subst (λ p. mem t (left p) ≡ true → (mem t (q p) ≡ true) × (tid ≢ t)) (==_to (prio tid) p e)
          (left_here t) m
    | inr e ↦
        let n = sym (ap (mem t) (false_branch (prio tid == p) _ (q p) e)) ∙ m in
        (n, λ u. absurd (ground (arith, h.place p t n, ap prio u)))
  ]

  pub left-Queues : Queues left run prio
  left-Queues = record {
    place = λ p t m. h.place p t (left_mem p t m).0;
    runs = λ p t m. h.runs p t (left_mem p t m).0;
    once = λ p. elim (Bool-cases (prio tid == p)) [
      | inl e ↦ rw e (remove-NoTwice tid (q (prio tid)) (h.once (prio tid)))
      | inr e ↦ rw e (h.once p)
    ];
  }

  pub left_absent : (p : ℕ) → mem tid (left p) ≡ false
  left_absent p = elim (Bool-cases (mem tid (left p))) [
    | inl m ↦ absurd ((left_mem p tid m).1 refl)
    | inr m ↦ m
  ]

  -- ... and a thread that is in no queue is put at the end of one.
  module _ (run' : ℕ → Bool) (prio' : ℕ → ℕ) (x : ℕ) (absent : (p : ℕ) → mem tid (q p) ≡ false)
      (here : run' tid ≡ true) (there : (t : ℕ) → tid ≢ t → run' t ≡ run t) (level : prio' tid ≡ x)
      (levels : (t : ℕ) → tid ≢ t → prio' t ≡ prio t) where
    abbrev pub more : ℕ → List ℕ
    more = update q x (q x ++ tid ∷ [])

    old_mem : (t : ℕ) → (tid == t) ≡ false → mem t (q x ++ tid ∷ []) ≡ true → mem t (q x) ≡ true
    old_mem t e m = ground (arith, mem-++ t (q x) (tid ∷ []))

    new_once : (j : ℕ) → mem j (q x) ≡ true → mem j (tid ∷ []) ≡ false
    new_once j m = elim (Bool-cases (tid == j)) [
      | inl e ↦
          absurd (ground (arith, m, subst (λ k. mem k (q x) ≡ false) (==_to tid j e) (absent x)))
      | inr e ↦ ground arith
    ]

    more-mem :
        (p t : ℕ)
        → mem t (more p) ≡ true
        → ((tid ≢ t) × (mem t (q p) ≡ true)) ⊎ ((tid ≡ t) × (x ≡ p))
    more-mem p t m = elim (Bool-cases (tid == t)) [
      | inl e ↦ elim (Bool-cases (x == p)) [
        | inl f ↦ inr (==_to tid t e, ==_to x p f)
        | inr f ↦ absurd (
            ground (
              arith,
              sym (ap (mem t) (false_branch (x == p) (q x ++ tid ∷ []) (q p) f)) ∙ m,
              subst (λ k. mem k (q p) ≡ false) (==_to tid t e) (absent p),
            ))
      ]
      | inr e ↦ inl (
        λ u. absurd (ground arith),
        elim (Bool-cases (x == p)) [
          | inl f ↦
              subst (λ p. mem t (more p) ≡ true → mem t (q p) ≡ true) (==_to x p f)
                (λ o. old_mem t e (sym (ap (mem t) (update_self q x (q x ++ tid ∷ []))) ∙ o)) m
          | inr f ↦ sym (ap (mem t) (false_branch (x == p) (q x ++ tid ∷ []) (q p) f)) ∙ m
        ],
      )
    ]

    pub more-Queues : Queues more run' prio'
    more-Queues = record {
      place = λ p t m. elim (more-mem p t m) [
        | inl (n, o) ↦ levels t n ∙ h.place p t o
        | inr (e, f) ↦ sym (ap prio' e) ∙ level ∙ f
      ];
      runs = λ p t m. elim (more-mem p t m) [
        | inl (n, o) ↦ there t n ∙ h.runs p t o
        | inr (e, f) ↦ sym (ap run' e) ∙ here
      ];
      once = λ p. elim (Bool-cases (x == p)) [
        | inl e ↦ rw e (append-NoTwice (q x) (tid ∷ []) (h.once x) (refl, tt) new_once)
        | inr e ↦ rw e (h.once p)
      ];
    }

  -- It is put to sleep, being in no queue.
  pub asleep-Queues : ((p : ℕ) → mem tid (q p) ≡ false) → Queues q (update run tid false) prio
  asleep-Queues absent = record {
    place = h.place;
    runs = λ p t m. elim (Bool-cases (tid == t)) [
      | inl e ↦
          absurd (ground (arith, m, subst (λ k. mem k (q p) ≡ false) (==_to tid t e) (absent p)))
      | inr e ↦ rw e (h.runs p t m)
    ];
    once = h.once;
  }

  -- A thread that is in no queue gets another priority.
  pub renumbered : (v : ℕ) → ((p : ℕ) → mem tid (q p) ≡ false) → Queues q run (update prio tid v)
  renumbered v absent = record {
    place = λ p t m.
        update_ne prio tid t v
          (λ e. absurd (ground (arith, m, subst (λ k. mem k (q p) ≡ false) e (absent p))))
        ∙ h.place p t m;
    runs = h.runs;
    once = h.once;
  }
