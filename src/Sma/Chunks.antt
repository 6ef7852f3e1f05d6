-- ===== src/Sma/Chunks.antt =====
-- The memory that a session hands out.
use mathlib.Core.Option.{some-injective}
use la_tte.Common.{
  Option, none, false, true_branch, false_branch, ℕ, ◌+◌, ◌*◌, ◌%◌, ◌^◌, ◌≤◌, ◌<◌, ◌≡◌, refl, sym,
  ◌∙◌, ◌⊎◌, inl, inr, true, Bool-cases, some, List, [], ◌∷◌, ltb, subst, arith,
}
use la_tte.Sma.{
  Session, Sma, Pointer, round, take, alloc_rounded, is_size, alloc, init_session, restart_session,
}
use la_tte.Sma.Rounding.{round_lem}
use la_tte.Sma.Growing.{NoHeap, base_size}
use la_tte.Sma.Taking.{
  Chunk, AllApart, Holds, new_chunk, times_mono, pow_mono, init_session-Holds,
  restart_session-Holds, take-Holds, increase_heap-Holds,
}

-- The chunks handed out since the session began or was restarted, the last one first.
pub data Granted (initial : ℕ) : List Chunk → Sma → Type 0 where
  begin :
      (m : Sma) → 0 < initial → initial < 2147483648 → Granted initial [] (init_session m initial)
  restart :
      {cs : List Chunk} {m : Sma} → Granted initial cs m → Granted initial [] (restart_session m)
  grant :
      {cs : List Chunk} {m m' : Sma} {p : Pointer} {size : ℕ}
      → Granted initial cs m
      → alloc m size ≡ some (p, m')
      → Granted initial (record { start = p; length = size } ∷ cs) m'

-- What a grant gives: a chunk for the request that begins at a multiple of eight, in an allocated
-- block of the stack, and does not reach past the block's end.
pub record IsGrant (size : ℕ) (p : Pointer) (m : Sma) : Type 0 where
  pub index : ℕ
  pub block : ℕ
  pub in_stack : (index < m.session.heap_stack_size) × (m.session.heap_stack index ≡ some block)
  pub starts : p.block ≡ some block
  pub allocated : m.is_allocated block ≡ true
  pub aligned : p.offset % 8 ≡ 0
  pub within : p.offset + size ≤ m.session.heap_size_stack index

take-IsGrant :
    {initial : ℕ} {cs : List Chunk} {m : Sma} (h : Holds initial cs m) (size r : ℕ)
    → size ≤ r
    → r ≤ m.session.current_heap_free_size
    → IsGrant size (take r m).0 (take r m).1
unfolding take
take-IsGrant {m} h size r small room =
    let (b, p, _, a) = h.blocks.present m.session.current_heap_index h.current.index in
    record {
      index = m.session.current_heap_index;
      block = b;
      in_stack = (h.current.index, p);
      starts = h.current.block ∙ p;
      allocated = a;
      aligned = h.current.aligned;
      within = omega (arith, h.current.free, h.current.size);
    }

-- A call that grants, with what it keeps
abbrev Grants : ℕ → List Chunk → Option (Pointer × Sma) → ℕ → Type 0
Grants initial cs o size =
    (p : Pointer) × (m' : Sma) × (o ≡ some (p, m'))
    × IsGrant size p m'
    × Holds initial (record { start = p; length = size } ∷ cs) m'

-- The current heap has no room for `size` bytes, and there is no new one.
abbrev pub Full : Session → ℕ → Type 0
Full s size =
    (s.current_heap_free_size < size) × NoHeap (s.current_heap_index + 1) (base_size s) size

alloc_rounded_cases :
    {initial : ℕ} {cs : List Chunk} {m : Sma}
    → Holds initial cs m
    → (size r : ℕ) → size ≤ r
    → r % 8 ≡ 0
    → Grants initial cs (alloc_rounded m r) size ⊎ ((alloc_rounded m r ≡ none) × Full m.session r)
unfolding alloc_rounded new_chunk
alloc_rounded_cases {m} h size r above multiple =
    elim (Bool-cases (ltb m.session.current_heap_free_size r)) [
      | inl t ↦ elim (increase_heap-Holds h r) [
        | inl (m', e, h', room) ↦ inl (
          (take r m').0,
          (take r m').1,
          rw t (rw e refl),
          take-IsGrant h' size r above room,
          take-Holds h' size r above multiple room,
        )
        | inr (e, w) ↦ inr (rw t (rw e refl), (ground (arith, t), w))
      ]
      | inr f ↦ inl (
        (take r m).0,
        (take r m).1,
        rw f refl,
        take-IsGrant h size r above (ground (arith, f)),
        take-Holds h size r above multiple (ground (arith, f)),
      )
    ]

alloc_checked :
    (m : Sma) (size : ℕ) → is_size size ≡ true → alloc m size ≡ alloc_rounded m (round size)
unfolding alloc
alloc_checked m size y = true_branch (is_size size) (alloc_rounded m (round size)) none y

alloc_refused : (m : Sma) (size : ℕ) → is_size size ≡ false → alloc m size ≡ none
unfolding alloc
alloc_refused m size n = false_branch (is_size size) (alloc_rounded m (round size)) none n

is_size-fits : (size : ℕ) → is_size size ≡ true → size + 8 < 2 ^ 32
is_size-fits size y = ground (arith, y)

alloc_cases :
    {initial : ℕ} {cs : List Chunk} {m : Sma}
    → Holds initial cs m
    → (size : ℕ) → is_size size ≡ true
    → Grants initial cs (alloc m size) size ⊎ ((alloc m size ≡ none) × Full m.session (round size))
alloc_cases {m} h size y =
    let (above, below, multiple) = round_lem size (is_size-fits size y) in
    let e = alloc_checked m size y in
    elim (alloc_rounded_cases h size (round size) (omega (arith, above)) multiple) [
      | inl (p, m', d, i, k) ↦ inl (p, m', e ∙ d, i, k)
      | inr (d, w) ↦ inr (e ∙ d, w)
    ]

same_grant :
    {initial : ℕ} {cs : List Chunk} {m m' : Sma} {p : Pointer} {size : ℕ}
    → Holds initial cs m
    → alloc m size ≡ some (p, m')
    → Holds initial (record { start = p; length = size } ∷ cs) m'
same_grant {initial} {cs} {m} {size = size} h e = elim (Bool-cases (is_size size)) [
  | inr n ↦ absurd (ground (arith, e, alloc_refused m size n))
  | inl y ↦ elim (alloc_cases h size y) [
    | inr (n, _) ↦ absurd (ground (arith, e, n))
    | inl (p', m1, d, _, k) ↦
        subst
          (λ (q : Pointer × Sma). Holds initial (record { start = q.0; length = size } ∷ cs) q.1)
          (some-injective _ _ (sym d ∙ e)) k
  ]
]

Granted-Holds :
    {initial : ℕ} {cs : List Chunk} {m : Sma} → Granted initial cs m → Holds initial cs m
Granted-Holds (begin m pos _) = init_session-Holds m pos
Granted-Holds (restart g) = restart_session-Holds (Granted-Holds g)
Granted-Holds (grant g e) = same_grant (Granted-Holds g) e

-- In a session begun with a positive size below 2^31, `SMA_Alloc` of less than 1073741815 bytes ends in one of two
-- ways. It returns a chunk of that size, aligned to eight bytes, inside one allocated block of the
-- stack; or it stops, when the current heap has no room for the request, rounded up, and the new heap
-- has no place among the fifteen, has a size that an `int` does not have, or would be exactly as
-- large as the rounded request, which the assertion in `SMA_IncreaseHeap` refuses.
pub alloc-IsGrant :
    {initial : ℕ} {cs : List Chunk} {m : Sma}
    → Granted initial cs m
    → (size : ℕ) → size + 8 < 1073741823
    → ((p : Pointer) × (m' : Sma) × (alloc m size ≡ some (p, m')) × IsGrant size p m')
      ⊎ ((alloc m size ≡ none) × Full m.session (round size))
alloc-IsGrant g size small =
    let (above, below, multiple) = round_lem size (omega (arith, small)) in
    elim (alloc_cases (Granted-Holds g) size (ground (arith, small, below))) [
      | inl (p, m', e, i, _) ↦ inl (p, m', e, i)
      | inr w ↦ inr w
    ]

-- All chunks that a session has handed out since it began or was restarted are pairwise disjoint, as
-- long as no call has stopped: no assertion has failed, every size is one that an `int` has, and the
-- stack has at most fifteen heaps.
pub Granted-AllApart :
    {initial : ℕ} {cs : List Chunk} {m : Sma} → Granted initial cs m → AllApart cs
Granted-AllApart g = (Granted-Holds g).apart

-- A heap in the stack of a session, at place `k`, that is smaller than `initial * 2 ^ 15` bytes has at
-- least `initial * 2 ^ k` bytes, and `k` is one of the fifteen places of the arrays `heapStack` and
-- `heapSizeStack`.
pub heap_stack_bound :
    {initial : ℕ} {cs : List Chunk} {m : Sma}
    → Granted initial cs m
    → (k : ℕ) → k < m.session.heap_stack_size
    → m.session.heap_size_stack k < initial * 2 ^ 15
    → (initial * 2 ^ k ≤ m.session.heap_size_stack k) × (k < 15)
heap_stack_bound {initial} g k lt small = (
  (Granted-Holds g).blocks.sizes k lt,
  elim (Bool-cases (ltb k 15)) [
    | inl t ↦ ground arith
    | inr f ↦ absurd (
        omega (
          arith,
          (Granted-Holds g).blocks.sizes k lt,
          times_mono initial (2 ^ 15) (2 ^ k) (pow_mono 15 k (ground arith)),
        ))
  ],
)
