-- ===== src/Sma/Growing.antt =====
-- What the search for a new heap comes to: `SMA_IncreaseHeap` of translator/sma.c.

use la_tte.Common.{
  false, true_branch, false_branch, if◌then◌else◌, ℕ, suc, ◌+◌, ◌*◌, ◌^◌, ◌≤◌, ◌<◌, ◌≡◌, ◌≢◌, refl,
  sym, ap, ◌∙◌, ◌⊎◌, inl, inr, Bool-cases, Option, none, some, ltb, subst, ==_of_ne, arith,
}
use la_tte.Word.{pow_pos}
use la_tte.Sma.{
  Session, Sma, set_current_heap, allocate_new_heap, install, replace_heap, reuse_next,
  increase_heap, grow, is_heap,
}
use la_tte.Sma.Rounding.{grow_bound}
use la_tte.Sma.Step.{Blocks, Current, install-Current, install-Blocks, with_size, allocate-Blocks}

product_pos : (a b : ℕ) → 0 < a → 0 < b → 0 < a * b
product_pos a b p q = grind arith

power_double : (i : ℕ) → 2 ^ (i + 1) ≡ 2 ^ i * 2
power_double i = ap (λ k. 2 ^ k) {y = suc i} (omega arith) ∙ omega arith

times_double : (a i : ℕ) → a * 2 ^ (i + 1) ≡ a * 2 ^ i * 2
times_double a i = ap (λ p. a * p) (power_double i) ∙ grind arith

-- The current heap is a new, empty one at `index`, and the other places are as they were.
pub record Replaced (initial size place : ℕ) (m m' : Sma) : Type 0 where
  pub blocks : Blocks initial m'
  pub current : Current m'.session
  pub index : m'.session.current_heap_index ≡ place
  pub empty : m'.session.current_heap_free_size ≡ m'.session.current_heap_size
  pub room : size ≤ m'.session.current_heap_free_size
  pub kept : (k : ℕ) → place ≢ k → m'.session.heap_stack k ≡ m.session.heap_stack k

-- Why there is no new heap: the stack has no such place, an `int` does not have the size that the
-- doubling of `base` gives, or that size is the one requested.
abbrev pub NoHeap : ℕ → ℕ → ℕ → Type 0
NoHeap index base size =
    (n : ℕ) × (grow (suc size) (base * 2) size ≡ some n)
    × ((15 ≤ index) ⊎ ((2147483648 ≤ n) ⊎ (n ≡ size)))

-- What comes of the request for a new heap
abbrev pub Outcome : ℕ → ℕ → ℕ → ℕ → Sma → Option Sma → Type 0
Outcome initial size place base m o =
    ((m' : Sma) × (o ≡ some m') × Replaced initial size place m m')
    ⊎ ((o ≡ none) × NoHeap place base size)

no_heap :
    (index n size : ℕ)
    → size ≤ n
    → is_heap index n size ≡ false
    → (15 ≤ index) ⊎ ((2147483648 ≤ n) ⊎ (n ≡ size))
no_heap index n size l f = elim (Bool-cases (ltb index 15)) [
  | inr a ↦ inl (ground (arith, a))
  | inl a ↦ elim (Bool-cases (ltb n 2147483648)) [
    | inr b ↦ inr (inl (ground (arith, b)))
    | inl b ↦ inr (inr (ground (arith, a, b, f, l)))
  ]
]

module _ {initial : ℕ} {m : Sma} (v : Blocks initial m) (c : Current m.session) where
  current_bound : initial * 2 ^ m.session.current_heap_index ≤ m.session.current_heap_size
  current_bound = omega (arith, c.size, v.sizes m.session.current_heap_index c.index)

  current_pos : 0 < m.session.current_heap_size
  current_pos = omega (
    arith,
    current_bound,
    product_pos initial (2 ^ m.session.current_heap_index) v.positive (pow_pos _),
  )

  -- The block at `index`, replaced by a new one of at least `size` bytes.
  replace_heap-Outcome :
      (size index n : ℕ)
      → ((index ≡ m.session.heap_stack_size) × (n ≡ index + 1))
        ⊎ ((index < m.session.heap_stack_size) × (n ≡ m.session.heap_stack_size))
      → initial * 2 ^ index ≤ m.session.current_heap_size * 2
      → Outcome initial size index m.session.current_heap_size m
          (replace_heap (with_size m n) index size)
  unfolding replace_heap install set_current_heap allocate_new_heap
  replace_heap-Outcome size index n place enough =
      let (r, e, a, b, _) =
        grow_bound size (m.session.current_heap_size * 2) size (omega (arith, current_pos))
          (omega arith) in
      let next = install (allocate_new_heap (with_size m n) index r) index in
      elim (Bool-cases (is_heap index r size)) [
        | inr f ↦ inr (
          rw (e, replace_heap) (false_branch (is_heap index r size) (some next) none f),
          (r, e, no_heap index r size a f),
        )
        | inl t ↦ inl (
          next,
          rw (e, replace_heap) (true_branch (is_heap index r size) (some next) none t),
          record {
            blocks = install-Blocks index (allocate-Blocks v index r n place (omega arith));
            current =
                install-Current (allocate_new_heap (with_size m n) index r) index (below place);
            index = refl;
            empty = refl;
            room = ground arith;
            kept = λ k ne. ground (arith, ==_of_ne index k ne);
          },
        )
      ]
    where
      below :
          ((index ≡ m.session.heap_stack_size) × (n ≡ index + 1))
            ⊎ ((index < m.session.heap_stack_size) × (n ≡ m.session.heap_stack_size))
          → index < n
      below place = grind arith

-- The heap whose size is doubled
abbrev pub base_size : Session → ℕ
base_size s =
    if ltb (s.current_heap_index + 1) s.heap_stack_size
    then s.heap_size_stack (s.current_heap_index + 1)
    else s.current_heap_size

module _ {initial : ℕ} {m : Sma} (v : Blocks initial m) (c : Current m.session) where
  reuse_next-Outcome :
      (size : ℕ)
      → m.session.current_heap_index + 1 < m.session.heap_stack_size
      → Outcome initial size
          (m.session.current_heap_index + 1)
          (m.session.heap_size_stack (m.session.current_heap_index + 1))
          m
          (reuse_next (install m (m.session.current_heap_index + 1)) size)
  unfolding reuse_next install set_current_heap
  reuse_next-Outcome size lt =
      let i : ℕ = m.session.current_heap_index + 1 in
      let m1 = install m i in
      let v1 = install-Blocks i v in
      let c1 = install-Current m i lt in
      elim (Bool-cases (ltb m1.session.current_heap_free_size size)) [
        | inl t ↦
            elim (replace_heap-Outcome v1 c1 size i m.session.heap_stack_size (inr (lt, refl))
              (omega (arith, v.sizes i lt))) [
                | inr (n, w) ↦ inr (rw t n, w)
                | inl (m', e, r) ↦ inl (
                  m',
                  rw t e,
                  record {
                    blocks = r.blocks;
                    current = r.current;
                    index = r.index;
                    empty = r.empty;
                    room = r.room;
                    kept = r.kept;
                  },
                )
              ]
        | inr f ↦ inl (
          m1,
          rw f refl,
          record {
            blocks = v1;
            current = c1;
            index = refl;
            empty = refl;
            room = ground arith;
            kept = λ k ne. refl;
          },
        )
      ]

  pub increase_heap-Outcome :
      (size : ℕ)
      → Outcome initial size
          (m.session.current_heap_index + 1)
          (base_size m.session)
          m
          (increase_heap m size)
  unfolding increase_heap
  increase_heap-Outcome size =
      elim (Bool-cases (ltb (m.session.current_heap_index + 1) m.session.heap_stack_size)) [
        | inl t ↦ rw t (reuse_next-Outcome size (ground arith))
        | inr f ↦
            let last : m.session.current_heap_index + 1 ≡ m.session.heap_stack_size =
              ground (arith, c.index) in
            let o =
              replace_heap-Outcome v c size m.session.heap_stack_size
                (m.session.heap_stack_size + 1) (inl (refl, refl))
                (rw (← last) (
                  omega (
                    arith,
                    current_bound v c,
                    times_double initial m.session.current_heap_index,
                  ))) in
            rw f (
              subst
                (λ k. Outcome initial size k m.session.current_heap_size m (
                  replace_heap (with_size m (m.session.heap_stack_size + 1))
                    m.session.heap_stack_size size))
                (sym last) o)
      ]
