-- ===== src/Locks/Table.antt =====
-- The table from which an object's queues are found: `getLock` of runtime/locks.c.
--
-- The `next` pointers of a chain are a list. `gc_malloc` gives zero-filled memory, so that the queues
-- of a new entry are empty. What the collector does with the entries is not modelled.
use la_tte.Common.{
  ℕ, ◌-◌, ◌/◌, ◌^◌, bit_and, ◌≡◌, ◌≢◌, inl, inr, refl, sym, ap, ◌∙◌, subst, Bool-cases, Option,
  none, some, List, [], ◌∷◌, ◌==◌, ==_to, if◌then◌else◌, update, true_branch, false_branch, arith,
}

abbrev pub max_lock : ℕ
max_lock = 256

unfoldable pub hash_lock : ℕ → ℕ
hash_lock a = bit_and (a / 2 ^ 3) (max_lock - 1)

pub record JLock : Type 0 where
  pub address : ℕ
  pub waiter_queue : List ℕ
  pub cond_var_queue : List ℕ

-- The search of a chain for an address
unfoldable pub find_lock : ℕ → List JLock → Option JLock
find_lock a [] = none
find_lock a (l ∷ ls) = if l.address == a then some l else find_lock a ls

abbrev pub new_lock : ℕ → JLock
new_lock a = record { address = a; waiter_queue = []; cond_var_queue = [] }

-- `getLock`, once it is known what the search has found
abbrev found_or_new : ℕ → (ℕ → List JLock) → Option JLock → JLock × (ℕ → List JLock)
found_or_new a table (some l) = (l, table)
found_or_new a table none =
    (new_lock a, update table (hash_lock a) (new_lock a ∷ table (hash_lock a)))

unfoldable pub get_lock : ℕ → (ℕ → List JLock) → JLock × (ℕ → List JLock)
unfolding hash_lock find_lock
get_lock a table = found_or_new a table (find_lock a (table (hash_lock a)))

-- A write through the pointer that `getLock` has returned
unfoldable write_chain : JLock → List JLock → List JLock
write_chain l [] = []
write_chain l (k ∷ ks) = if k.address == l.address then l ∷ ks else k ∷ write_chain l ks

unfoldable pub write_lock : JLock → (ℕ → List JLock) → ℕ → List JLock
unfolding write_chain
write_lock l table =
    update table (hash_lock l.address) (write_chain l (table (hash_lock l.address)))

-- The abstract view: every address has a lock, with empty queues until it is written.
abbrev or_new : ℕ → Option JLock → JLock
or_new a none = new_lock a
or_new a (some l) = l

abbrev pub lock_of : (ℕ → List JLock) → ℕ → JLock
lock_of table a = or_new a (find_lock a (table (hash_lock a)))

find_new : (a b : ℕ) (ls : List JLock) → a ≢ b → find_lock b (new_lock a ∷ ls) ≡ find_lock b ls
unfolding find_lock
find_new a b ls ne = ground arith

find_first : (l : JLock) (ls : List JLock) → find_lock l.address (l ∷ ls) ≡ some l
unfolding find_lock
find_first l ls = ground arith

at_bucket :
    (table : ℕ → List JLock) (h b : ℕ) (ls : List JLock)
    → h ≡ hash_lock b
    → find_lock b (update table h ls (hash_lock b)) ≡ find_lock b ls
at_bucket table h b ls e = ground arith

at_other_bucket :
    (table : ℕ → List JLock) (h b : ℕ) (ls : List JLock)
    → h ≢ hash_lock b
    → find_lock b (update table h ls (hash_lock b)) ≡ find_lock b (table (hash_lock b))
at_other_bucket table h b ls ne = ground arith

-- The chain of a bucket is replaced by one in which an address finds something else.
bucket_lem :
    (table : ℕ → List JLock) (h b : ℕ) (ls : List JLock)
    → (h ≡ hash_lock b → find_lock b ls ≡ find_lock b (table h))
    → lock_of (update table h ls) b ≡ lock_of table b
bucket_lem table h b ls f = elim (Bool-cases (h == hash_lock b)) [
  | inl t ↦
      let e = ==_to h (hash_lock b) t in
      ap (or_new b) (at_bucket table h b ls e ∙ f e ∙ ap (λ k. find_lock b (table k)) e)
  | inr g ↦ ap (or_new b) (at_other_bucket table h b ls (λ e. absurd (ground arith)))
]

new_lem :
    (table : ℕ → List JLock) (a b : ℕ)
    → find_lock a (table (hash_lock a)) ≡ none
    → lock_of (update table (hash_lock a) (new_lock a ∷ table (hash_lock a))) b ≡ lock_of table b
new_lem table a b e = elim (Bool-cases (a == b)) [
  | inl t ↦
      subst
        (λ c.
          lock_of (update table (hash_lock a) (new_lock a ∷ table (hash_lock a))) c
          ≡ lock_of table c)
        (==_to a b t)
        (ap (or_new a) (
            at_bucket table (hash_lock a) a (new_lock a ∷ table (hash_lock a)) refl
            ∙ find_first (new_lock a) (table (hash_lock a)))
          ∙ ap (or_new a) (sym e))
  | inr f ↦
      bucket_lem table (hash_lock a) b (new_lock a ∷ table (hash_lock a))
        (λ h. find_new a b (table (hash_lock a)) (λ e. absurd (ground arith)))
]

-- `getLock` returns the lock of the address, and changes that of no address.
get_lock_lem :
    (table : ℕ → List JLock) (a : ℕ)
    → ((get_lock a table).0 ≡ lock_of table a)
      × ((b : ℕ) → lock_of (get_lock a table).1 b ≡ lock_of table b)
unfolding get_lock
get_lock_lem table a = go (find_lock a (table (hash_lock a))) refl
  where
    go :
        (r : Option JLock)
        → find_lock a (table (hash_lock a)) ≡ r
        → ((found_or_new a table r).0 ≡ or_new a r)
          × ((b : ℕ) → lock_of (found_or_new a table r).1 b ≡ lock_of table b)
    go none e = (refl, λ b. new_lem table a b e)
    go (some l) e = (refl, λ b. refl)

-- The address has an entry in the table that `getLock` leaves.
get_lock_present :
    (table : ℕ → List JLock) (a : ℕ)
    → (k : JLock) × (find_lock a ((get_lock a table).1 (hash_lock a)) ≡ some k)
unfolding get_lock
get_lock_present table a = go (find_lock a (table (hash_lock a))) refl
  where
    go :
        (r : Option JLock)
        → find_lock a (table (hash_lock a)) ≡ r
        → (k : JLock) × (find_lock a ((found_or_new a table r).1 (hash_lock a)) ≡ some k)
    go (some l) e = (l, e)
    go none e = (
      new_lock a,
      at_bucket table (hash_lock a) a (new_lock a ∷ table (hash_lock a)) refl
          ∙ find_first (new_lock a) (table (hash_lock a)),
    )

written_other :
    (l : JLock) (b : ℕ) (ks : List JLock)
    → l.address ≢ b
    → find_lock b (write_chain l ks) ≡ find_lock b ks
unfolding find_lock write_chain
written_other l b [] ne = refl
written_other l b (k ∷ ks) ne = ground (arith, written_other l b ks ne)

written_found :
    (l k : JLock) (ks : List JLock)
    → find_lock l.address ks ≡ some k
    → find_lock l.address (write_chain l ks) ≡ some l
unfolding find_lock write_chain
written_found l k [] e = absurd (ground arith)
written_found l k (m ∷ ms) e = elim (Bool-cases (m.address == l.address)) [
  | inl t ↦ rw t (find_first l ms)
  | inr f ↦ let r = written_found l k ms (sym (false_branch _ _ _ f) ∙ e) in rw f (ground arith)
]

-- After `getLock`, a write through its result is a write to the lock of this address alone: the table
-- is a total map from addresses to locks.
pub write_lock_lem :
    (table : ℕ → List JLock) (l : JLock) (b : ℕ)
    → lock_of (write_lock l (get_lock l.address table).1) b
      ≡ (if l.address == b then l else lock_of table b)
unfolding write_lock
write_lock_lem table l b =
    let u = (get_lock l.address table).1 in
    let p = get_lock_present table l.address in
    let ks = write_chain l (u (hash_lock l.address)) in
    elim (Bool-cases (l.address == b)) [
      | inl t ↦
          sym (ap (lock_of (write_lock l u)) (==_to l.address b t))
          ∙ ap (or_new l.address) (
              at_bucket u (hash_lock l.address) l.address ks refl
              ∙ written_found l p.0 (u (hash_lock l.address)) p.1)
          ∙ sym (true_branch (l.address == b) l (lock_of table b) t)
      | inr f ↦
          bucket_lem u (hash_lock l.address) b ks
            (λ e. written_other l b (u (hash_lock l.address)) (λ e. absurd (ground arith)))
          ∙ (get_lock_lem table l.address).1 b
          ∙ sym (false_branch (l.address == b) l (lock_of table b) f)
    ]
