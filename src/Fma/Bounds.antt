-- ===== src/Fma/Bounds.antt =====
-- The arena over all its calls, and its end.
use mathlib.Core.Option.{some-injective}
use la_tte.Common.{
  ◌⊎◌, true_branch, false_branch, ℕ, zero, suc, ◌+◌, ◌<◌, ◌≡◌, refl, sym, ◌∙◌, inl, inr, Bool, true,
  false, not, ◌&&◌, ◌||◌, Bool-cases, Option, none, some, List, ltb, subst, ltb_ℕ, arith,
}
use la_tte.Sma.{free_block}
use la_tte.Sma.Ending.{is_block, free_block_lem}
use la_tte.Fma.{
  Fma, aligned_size, allocate_from, allocate, num_of_tolerable_overflows, end_rounds, end,
}
use la_tte.Fma.Granting.{
  Granted, begin, grant, AllApart, Holds, IsGrant, Allocated, chunks, start-Holds, in_place,
  in_new_heap, Chunk,
}

-- The assertion on the size
checked :
    (m : Fma) (size : ℕ) → 0 < size → size < 0x0fff_ffff → allocate m size ≡ allocate_from m size
unfolding allocate
checked m size p l =
    true_branch (ltb 0 size && ltb size 0x0fff_ffff) (allocate_from m size) none
      (ground (arith, p, l))

-- No room, and the stack of heaps is full.
no_heap :
    (m : Fma) (size : ℕ)
    → ltb_ℕ m.left_space (aligned_size size) ≡ true
    → ltb (m.top_of_init_heap_stack + 1) num_of_tolerable_overflows ≡ false
    → allocate_from m size ≡ none
unfolding allocate_from
no_heap m size t f = rw (t, f) refl

from_cases :
    {cs : List Chunk} {m : Fma}
    → Holds cs m
    → (size : ℕ) → size < 0x0fff_fff0
    → Allocated cs m size ⊎ (allocate_from m size ≡ none)
from_cases {m} h size small = elim (Bool-cases (ltb_ℕ m.left_space (aligned_size size))) [
  | inl t ↦ elim (Bool-cases (ltb (m.top_of_init_heap_stack + 1) num_of_tolerable_overflows)) [
    | inl room ↦ inl (in_new_heap h size small t room)
    | inr f ↦ inr (no_heap m size t f)
  ]
  | inr f ↦ inl (in_place h size small f)
]

same_call :
    {cs : List Chunk} {m' : Fma} {r : ℕ × ℕ} (m : Fma) (size : ℕ)
    → Allocated cs m size ⊎ (allocate_from m size ≡ none)
    → allocate_from m size ≡ some (r, m')
    → Holds (chunks r size cs) m'
same_call {cs} m size (inl (_, _, e', _, h)) e =
    subst (λ (q : (ℕ × ℕ) × Fma). Holds (chunks q.0 size cs) q.1) (some-injective _ _ (sym e' ∙ e))
      h
same_call m size (inr n) e = absurd (ground (arith, n, e))

-- A call that returns has passed the assertion.
passed :
    (m : Fma) (size : ℕ) (r : (ℕ × ℕ) × Fma)
    → allocate m size ≡ some r
    → allocate_from m size ≡ some r
unfolding allocate
passed m size r e = elim (Bool-cases (ltb 0 size && ltb size 0x0fff_ffff)) [
  | inl y ↦ sym (true_branch (ltb 0 size && ltb size 0x0fff_ffff) (allocate_from m size) none y) ∙ e
  | inr n ↦ absurd (
      ground
        (arith, e, false_branch (ltb 0 size && ltb size 0x0fff_ffff) (allocate_from m size) none n))
]

Granted-Holds : {cs : List Chunk} {m : Fma} → Granted cs m → Holds cs m
Granted-Holds (begin m h) = start-Holds m h
Granted-Holds (grant {m = m} {size = size} g small e) =
    same_call m size (from_cases (Granted-Holds g) size small) (passed m size _ e)

-- Since `FMA_start`, with every request below 0x0ffffff0 bytes: for a request of one byte at least,
-- while the current heap has room for it or the stack of five hundred heaps is not full, no assertion
-- of `FMA_allocate` fails, and it returns a chunk of the requested size at a multiple of eight inside
-- the current heap.
pub allocate-IsGrant :
    {cs : List Chunk} {m : Fma}
    → Granted cs m
    → (size : ℕ) → 0 < size
    → size < 0x0fff_fff0
    → (ltb_ℕ m.left_space (aligned_size size) ≡ false)
      ⊎ (m.top_of_init_heap_stack + 1 < num_of_tolerable_overflows)
    → (r : ℕ × ℕ) × (m' : Fma) × (allocate m size ≡ some (r, m')) × IsGrant size r m'
allocate-IsGrant {cs} {m} g size pos small room =
    let give : Allocated cs m size
        → (r : ℕ × ℕ) × (m' : Fma) × (allocate m size ≡ some (r, m')) × IsGrant size r m' =
      λ (r, m', e, i, _). (r, m', checked m size pos (omega (arith, small)) ∙ e, i) in
    elim (Bool-cases (ltb_ℕ m.left_space (aligned_size size))) [
      | inl t ↦ elim room [
        | inl f ↦ absurd (ground (arith, t, f))
        | inr l ↦ give (in_new_heap (Granted-Holds g) size small t (ground (arith, l)))
      ]
      | inr f ↦ give (in_place (Granted-Holds g) size small f)
    ]

-- All chunks that the arena has handed out since `FMA_start`, with every request below 0x0ffffff0
-- bytes, are pairwise disjoint.
pub Granted-Disjoint : {cs : List Chunk} {m : Fma} → Granted cs m → AllApart cs
Granted-Disjoint g = (Granted-Holds g).apart

-- One of the heaps 1 to `top` of the stack is the block `b`.
abbrev pub has_heap : ℕ → (ℕ → Option ℕ) → ℕ → Bool
has_heap zero stack b = false
has_heap (suc top) stack b = is_block (stack (suc top)) b || has_heap top stack b

end_rounds_lem :
    (top : ℕ) (m : Fma) (b : ℕ)
    → (end_rounds top m).is_allocated b
      ≡ (m.is_allocated b && not (has_heap top m.init_heap_stack b))
unfolding end_rounds
end_rounds_lem zero m b = ground arith
end_rounds_lem (suc top) m b =
    end_rounds_lem top
      (record m {
        top_of_init_heap_stack = top;
        is_allocated = free_block (m.init_heap_stack (suc top)) m.is_allocated;
      })
      b
    ∙ ground (arith, free_block_lem (m.init_heap_stack (suc top)) m.is_allocated b)

end_rounds-top :
    (top : ℕ) (m : Fma)
    → m.top_of_init_heap_stack ≡ top
    → (end_rounds top m).top_of_init_heap_stack ≡ 0
unfolding end_rounds
end_rounds-top zero m e = e
end_rounds-top (suc top) m e = end_rounds-top top _ refl

-- After `FMA_end` a block is allocated exactly if it was before and is none of the heaps on the stack
-- above the first, static one; and the stack is empty but for that one.
pub end_lem :
    (m : Fma) (b : ℕ)
    → ((end m).is_allocated b
        ≡ (m.is_allocated b && not (has_heap m.top_of_init_heap_stack m.init_heap_stack b)))
      × ((end m).top_of_init_heap_stack ≡ 0)
unfolding end
end_lem m b =
    (end_rounds_lem m.top_of_init_heap_stack m b, end_rounds-top m.top_of_init_heap_stack m refl)
