-- ===== src/Sma/Step.antt =====
-- What is true of a session between calls, and what an allocation does to it.
use mathlib.Core.Option.{some-injective}
use la_tte.Common.{
  ℕ, ◌+◌, ◌-◌, ◌*◌, ◌%◌, ◌^◌, ◌≤◌, ◌<◌, ◌≡◌, ◌≢◌, refl, sym, ◌∙◌, ◌⊎◌, inl, inr, true, Bool-cases,
  Option, none, some, ◌==◌, update, subst, ==_iff, arith,
}
use la_tte.Sma.{Session, Sma, set_current_heap, free_block, allocate_new_heap, install}

abbrev pub used : Session → ℕ
used s = s.current_heap_size - s.current_heap_free_size

-- The blocks of the stack: allocated, different from one another, and each with the size that the
-- doubling gives at least.
pub record Blocks (initial : ℕ) (m : Sma) : Type 0 where
  pub positive : 0 < initial
  pub present :
      (k : ℕ)
      → k < m.session.heap_stack_size
      → (b : ℕ) × (m.session.heap_stack k ≡ some b) × (b < m.next_block) × (m.is_allocated b ≡ true)
  pub apart :
      (j k b : ℕ)
      → j < m.session.heap_stack_size
      → k < m.session.heap_stack_size
      → m.session.heap_stack j ≡ some b
      → m.session.heap_stack k ≡ some b
      → j ≡ k
  pub absent : (k : ℕ) → m.session.heap_stack_size ≤ k → m.session.heap_stack k ≡ none
  pub sizes :
      (k : ℕ) → k < m.session.heap_stack_size → initial * 2 ^ k ≤ m.session.heap_size_stack k

-- The current heap is one of the stack.
pub record Current (s : Session) : Type 0 where
  pub index : s.current_heap_index < s.heap_stack_size
  pub block : s.current_heap ≡ s.heap_stack s.current_heap_index
  pub size : s.current_heap_size ≡ s.heap_size_stack s.current_heap_index
  pub free : s.current_heap_free_size ≤ s.current_heap_size
  pub aligned : used s % 8 ≡ 0

pub install-Current :
    (m : Sma) (k : ℕ) → k < m.session.heap_stack_size → Current (install m k).session
unfolding install set_current_heap
install-Current m k h = record {
  index = h;
  block = refl;
  size = refl;
  free = omega arith;
  aligned = omega arith;
}

pub install-Blocks :
    {initial : ℕ} {m : Sma} (k : ℕ) → Blocks initial m → Blocks initial (install m k)
unfolding install set_current_heap
install-Blocks k v = record {
  positive = v.positive;
  present = v.present;
  apart = v.apart;
  absent = v.absent;
  sizes = v.sizes;
}

-- The same memory with a stack of `n` blocks
abbrev pub with_size : Sma → ℕ → Sma
with_size m n = record m { session = record m.session { heap_stack_size = n } }

-- A new block at `index`, which is in the stack or the place after it.
module _ {initial : ℕ} {m : Sma} (v : Blocks initial m) (index size n : ℕ)
    (place : ((index ≡ m.session.heap_stack_size) × (n ≡ index + 1))
      ⊎ ((index < m.session.heap_stack_size) × (n ≡ m.session.heap_stack_size)))
    (enough : initial * 2 ^ index ≤ size) where
  freed_other :
      (k b : ℕ)
      → k < m.session.heap_stack_size
      → index ≢ k
      → m.session.heap_stack k ≡ some b
      → free_block (m.session.heap_stack index) m.is_allocated b ≡ m.is_allocated b
  unfolding free_block
  freed_other k b lt ne e = elim place [
    | inl (p, q) ↦ rw (v.absent index (omega arith)) refl
    | inr (p, q) ↦
        let (b', e', l, a) = v.present index p in rw e' (ground (arith, v.apart index k b p lt, e))
  ]

  old_place : (k : ℕ) → k < n → index ≢ k → k < m.session.heap_stack_size
  old_place k lt ne = elim place [ inl (p, q) ↦ grind arith | inr (p, q) ↦ omega arith ]

  block-lt :
      (k b : ℕ) → k < m.session.heap_stack_size → m.session.heap_stack k ≡ some b → b < m.next_block
  block-lt k b lt e =
      let (b', e', l, a) = v.present k lt in ground (arith, some-injective b' b (sym e' ∙ e))

  abbrev new_stack : ℕ → Option ℕ
  new_stack = update m.session.heap_stack index (some m.next_block)

  stack_apart : (j k b : ℕ) → j < n → k < n → new_stack j ≡ some b → new_stack k ≡ some b → j ≡ k
  stack_apart j k b lj lk ej ek = elim (Bool-cases (index == j)) [
    | inl t ↦ elim (Bool-cases (index == k)) [
      | inl u ↦ ground arith
      | inr u ↦ absurd (
          ground (arith, block-lt k b (old_place k lk (λ e. absurd (ground arith))) (ground arith)))
    ]
    | inr t ↦ elim (Bool-cases (index == k)) [
      | inl u ↦ absurd (
          ground (arith, block-lt j b (old_place j lj (λ e. absurd (ground arith))) (ground arith)))
      | inr u ↦
          v.apart j k b (old_place j lj (λ e. absurd (ground arith)))
            (old_place k lk (λ e. absurd (ground arith))) (ground arith) (ground arith)
    ]
  ]

  stack_absent : (k : ℕ) → n ≤ k → new_stack k ≡ none
  stack_absent k le = elim place [
    | inl (p, q) ↦ ground (arith, v.absent k (omega arith))
    | inr (p, q) ↦ ground (arith, v.absent k (omega arith))
  ]

  size_bound : (k : ℕ) → k < n → initial * 2 ^ k ≤ update m.session.heap_size_stack index size k
  size_bound k lt = elim (Bool-cases (index == k)) [
    | inl t ↦ rw t (subst (λ x. initial * 2 ^ x ≤ size) ((==_iff index k).0 t) enough)
    | inr f ↦ rw f (v.sizes k (old_place k lt (λ e. absurd (ground arith))))
  ]

  pub allocate-Blocks : Blocks initial (allocate_new_heap (with_size m n) index size)
  unfolding allocate_new_heap
  allocate-Blocks = record {
    positive = v.positive;
    present = λ k lt. elim (Bool-cases (index == k)) [
      | inl t ↦ (m.next_block, ground arith, omega arith, ground arith)
      | inr f ↦
          let o = old_place k lt (λ e. absurd (ground arith)) in
          let (b, e, l, a) = v.present k o in
          (
            b,
            ground arith,
            omega arith,
            ground (arith, freed_other k b o (λ e. absurd (ground arith)) e),
          )
    ];
    apart = stack_apart;
    absent = stack_absent;
    sizes = size_bound;
  }
