-- ===== src/Alarms/Order.antt =====
-- The alarm list is in the order of the times, and holds the threads that the flags name.
use la_tte.Common.{
  ℕ, ◌+◌, ◌≤◌, ◌≡◌, refl, sym, ◌∙◌, subst, inl, inr, true, false, ◌||◌, Bool-cases, List, [], ◌∷◌,
  ◌==◌, ltb, update, ==_to, mem, arith,
}
use la_tte.Locks.Places.{NoTwice}
use la_tte.Alarms.{Sleepers, insert_alarm, add_to_alarm_q}

-- No thread of a list is to be woken before a time.
abbrev pub NotBefore : (ℕ → ℕ) → ℕ → List ℕ → Type 0
NotBefore time b [] = Unit
NotBefore time b (t ∷ ts) = (b ≤ time t) × NotBefore time b ts

abbrev pub Sorted : (ℕ → ℕ) → List ℕ → Type 0
Sorted time [] = Unit
Sorted time (t ∷ ts) = NotBefore time (time t) ts × Sorted time ts

pub record Alarmed (s : Sleepers) : Type 0 where
  pub sorted : Sorted s.time s.alarm_list
  pub once : NoTwice s.alarm_list
  pub flags : (j : ℕ) → s.has_alarm j ≡ mem j s.alarm_list
  pub asleep : (j : ℕ) → mem j s.alarm_list ≡ true → s.threads.is_running j ≡ false

pub earlier-NotBefore :
    (time : ℕ → ℕ) (a b : ℕ) (ts : List ℕ) → a ≤ b → NotBefore time b ts → NotBefore time a ts
earlier-NotBefore time a b [] l h = tt
earlier-NotBefore time a b (t ∷ ts) l h = (omega (arith, h.0), earlier-NotBefore time a b ts l h.1)

insert-NotBefore :
    (time : ℕ → ℕ) (tid b : ℕ) (ts : List ℕ)
    → b ≤ time tid
    → NotBefore time b ts
    → NotBefore time b (insert_alarm time tid ts)
unfolding insert_alarm
insert-NotBefore time tid b [] l h = (l, tt)
insert-NotBefore time tid b (t ∷ ts) l h = elim (Bool-cases (ltb (time tid) (time t))) [
  | inl e ↦ rw e (l, h)
  | inr e ↦ rw e (h.0, insert-NotBefore time tid b ts l h.1)
]

insert-Sorted :
    (time : ℕ → ℕ) (tid : ℕ) (ts : List ℕ) → Sorted time ts → Sorted time (insert_alarm time tid ts)
unfolding insert_alarm
insert-Sorted time tid [] h = (tt, tt)
insert-Sorted time tid (t ∷ ts) h = elim (Bool-cases (ltb (time tid) (time t))) [
  | inl e ↦
      let l = at_most (time tid) (time t) e in
      rw e ((l, earlier-NotBefore time (time tid) (time t) ts l h.0), h)
  | inr e ↦ rw e (
    insert-NotBefore time tid (time t) ts (not_less (time tid) (time t) e) h.0,
    insert-Sorted time tid ts h.1,
  )
]
  where
    at_most : (a b : ℕ) → ltb a b ≡ true → a ≤ b
    at_most a b e = ground arith

    not_less : (a b : ℕ) → ltb a b ≡ false → b ≤ a
    not_less a b e = ground arith

mem-insert :
    (time : ℕ → ℕ) (tid j : ℕ) (ts : List ℕ)
    → mem j (insert_alarm time tid ts) ≡ ((tid == j) || mem j ts)
unfolding insert_alarm
mem-insert time tid j [] = refl
mem-insert time tid j (t ∷ ts) = elim (Bool-cases (ltb (time tid) (time t))) [
  | inl e ↦ rw e refl
  | inr e ↦ rw (e, mem-insert time tid j ts) (ground arith)
]

insert-NoTwice :
    (time : ℕ → ℕ) (tid : ℕ) (ts : List ℕ)
    → mem tid ts ≡ false
    → NoTwice ts
    → NoTwice (insert_alarm time tid ts)
unfolding insert_alarm
insert-NoTwice time tid [] n h = (refl, tt)
insert-NoTwice time tid (t ∷ ts) n h = elim (Bool-cases (ltb (time tid) (time t))) [
  | inl e ↦ rw e (n, h)
  | inr e ↦ rw e (
    mem-insert time tid t ts ∙ ground (arith, h.0),
    insert-NoTwice time tid ts (ground arith) h.1,
  )
]

same-NotBefore :
    (time : ℕ → ℕ) (k v b : ℕ) (ts : List ℕ)
    → mem k ts ≡ false
    → NotBefore time b ts
    → NotBefore (update time k v) b ts
same-NotBefore time k v b [] n h = tt
same-NotBefore time k v b (t ∷ ts) n h =
    (ground (arith, h.0), same-NotBefore time k v b ts (ground arith) h.1)

kept_time :
    (time : ℕ → ℕ) (k v t : ℕ) (ts : List ℕ) → mem k (t ∷ ts) ≡ false → update time k v t ≡ time t
kept_time time k v t ts n = ground arith

same-Sorted :
    (time : ℕ → ℕ) (k v : ℕ) (ts : List ℕ)
    → mem k ts ≡ false
    → Sorted time ts
    → Sorted (update time k v) ts
same-Sorted time k v [] n h = tt
same-Sorted time k v (t ∷ ts) n h = (
  same-NotBefore time k v _ ts (ground arith)
      (subst (λ b. NotBefore time b ts) (sym (kept_time time k v t ts n)) h.0),
  same-Sorted time k v ts (ground arith) h.1,
)

-- A thread that sleeps and has no alarm is put into the list, in the order of the times: the list and
-- the flags still agree, and the others have kept their alarms.
pub add_to_alarm_q-Alarmed :
    (now tid timeout : ℕ) (s : Sleepers)
    → Alarmed s
    → mem tid s.alarm_list ≡ false
    → s.threads.is_running tid ≡ false
    → Alarmed (add_to_alarm_q now tid timeout s)
unfolding add_to_alarm_q
add_to_alarm_q-Alarmed now tid timeout s a n r =
    let time' = update s.time tid (timeout + now) in
    record {
      sorted =
          insert-Sorted time' tid s.alarm_list
            (same-Sorted s.time tid (timeout + now) s.alarm_list n a.sorted);
      once = insert-NoTwice time' tid s.alarm_list n a.once;
      flags = λ j. ground (arith, a.flags j, mem-insert time' tid j s.alarm_list);
      asleep = λ j e. elim (Bool-cases (tid == j)) [
        | inl t ↦ subst (λ k. s.threads.is_running k ≡ false) (==_to tid j t) r
        | inr f ↦ a.asleep j (ground (arith, sym (mem-insert time' tid j s.alarm_list) ∙ e))
      ];
    }
