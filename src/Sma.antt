-- ===== src/Sma.antt =====
-- The session memory allocator of translator/sma.c: a stack of heap blocks, each at least twice as
-- large as the one before, from which memory is handed out in order.
--
-- A block of the system's allocator is a number; `valloc` returns a number that it never returned
-- before, and does not fail. `none` is that the source stops or leaves what C defines: an assertion
-- fails, an `int` overflows, or the fifteen places of `heapStack` and `heapSizeStack` are passed.
pub mod Rounding
mod Step
mod Growing
pub mod Taking
pub mod Chunks
pub mod Ending
mod Tests
use la_tte.Common.{
  ℕ, zero, suc, ◌+◌, ◌-◌, ◌*◌, bit_and, Bool, true, false, ◌&&◌, Option, none, some, List, [], ◌∷◌,
  ltb, if◌then◌else◌, update,
}

pub record Session : Type 0 where
  pub heap_stack_size : ℕ
  pub heap_stack : ℕ → Option ℕ
  pub heap_size_stack : ℕ → ℕ
  pub current_heap : Option ℕ
  pub current_heap_index : ℕ
  pub current_heap_size : ℕ
  pub current_heap_free_size : ℕ

-- The session and the system's memory: the next block, and which blocks are allocated.
pub record Sma : Type 0 where
  pub session : Session
  pub next_block : ℕ
  pub is_allocated : ℕ → Bool

-- A place in a block
pub record Pointer : Type 0 where
  pub block : Option ℕ
  pub offset : ℕ

unfoldable pub set_current_heap : Session → ℕ → Session
set_current_heap s index = record s {
  current_heap_index = index;
  current_heap = s.heap_stack index;
  current_heap_size = s.heap_size_stack index;
  current_heap_free_size = s.heap_size_stack index;
}

-- `if (p != NULL) free(p);`
unfoldable pub free_block : Option ℕ → (ℕ → Bool) → ℕ → Bool
free_block none is_allocated = is_allocated
free_block (some b) is_allocated = update is_allocated b false

unfoldable pub allocate_new_heap : Sma → ℕ → ℕ → Sma
unfolding free_block
allocate_new_heap m index size = record {
  session = record m.session {
    heap_stack = update m.session.heap_stack index (some m.next_block);
    heap_size_stack = update m.session.heap_size_stack index size;
  };
  next_block = m.next_block + 1;
  is_allocated = update (free_block (m.session.heap_stack index) m.is_allocated) m.next_block true;
}

-- `SMA_SetCurrentHeap` after `SMA_AllocateNewHeap`
unfoldable pub install : Sma → ℕ → Sma
unfolding set_current_heap
install m index = record m { session = set_current_heap m.session index }

unfoldable pub init_session : Sma → ℕ → Sma
unfolding allocate_new_heap install
init_session m initial_size =
    install
      (allocate_new_heap
        (record m {
          session = record m.session {
            heap_stack = λ i. none;
            heap_size_stack = λ i. 0;
            heap_stack_size = 1;
          };
        })
        0 initial_size)
      0

unfoldable pub restart_session : Sma → Sma
restart_session m =
    let s = m.session in
    record m {
      session = record s {
        current_heap = s.heap_stack 0;
        current_heap_index = 0;
        current_heap_size = s.heap_size_stack 0;
        current_heap_free_size = s.heap_size_stack 0;
      };
    }

-- `while (new_heap_size < size) new_heap_size *= 2;` with fuel
unfoldable pub grow : ℕ → ℕ → ℕ → Option ℕ
grow zero new_heap_size size = none
grow (suc fuel) new_heap_size size = elim (ltb new_heap_size size) [
  | true ↦ grow fuel (new_heap_size * 2) size
  | false ↦ some new_heap_size
]

-- A new heap, of `n` bytes at `index`: there is such a place, an `int` has the size and those before it
-- in the doubling, and `assert(session->currentHeapFreeSize > size)` holds.
abbrev pub is_heap : ℕ → ℕ → ℕ → Bool
is_heap index n size = ltb index 15 && (ltb n 2147483648 && ltb size n)

-- The new heap of at least `size` bytes at `index`, twice as large as the current one at least.
unfoldable pub replace_heap : Sma → ℕ → ℕ → Option Sma
unfolding grow allocate_new_heap install
replace_heap m index size = elim (grow (suc size) (m.session.current_heap_size * 2) size) [
  | none ↦ none
  | some n ↦
      if is_heap index n size then some (install (allocate_new_heap m index n) index) else none
]

-- The next block of the stack, replaced where it is too small
unfoldable pub reuse_next : Sma → ℕ → Option Sma
unfolding replace_heap
reuse_next m size =
    if ltb m.session.current_heap_free_size size
    then replace_heap m m.session.current_heap_index size
    else some m

unfoldable pub increase_heap : Sma → ℕ → Option Sma
unfolding install replace_heap reuse_next
increase_heap m size =
    let s = m.session in
    if ltb (s.current_heap_index + 1) s.heap_stack_size
    then reuse_next (install m (s.current_heap_index + 1)) size
    else replace_heap (record m { session = record s { heap_stack_size = s.heap_stack_size + 1 } })
        s.heap_stack_size size

-- `(size + 8) & -8`, where the sum is below 2^31
unfoldable pub round : ℕ → ℕ
round size = bit_and (size + 8) 0xffff_fff8

-- `SMA_Alloc` once there is room
unfoldable pub take : ℕ → Sma → Pointer × Sma
take size m =
    let s = m.session in
    (
      record { block = s.current_heap; offset = s.current_heap_size - s.current_heap_free_size },
      record m { session = record s { current_heap_free_size = s.current_heap_free_size - size } },
    )

-- ... behind its assertion
unfoldable pub alloc_rounded : Sma → ℕ → Option (Pointer × Sma)
unfolding increase_heap take
alloc_rounded m size =
    if ltb m.session.current_heap_free_size size
    then elim (increase_heap m size) [ none ↦ none | some m' ↦ some (take size m') ]
    else some (take size m)

-- The sum is an `int`, and `assert(size < INT_MAX / 2)` holds.
abbrev pub is_size : ℕ → Bool
is_size requested = ltb (requested + 8) 2147483648 && ltb (round requested) 1073741823

-- `SMA_Alloc`
unfoldable pub alloc : Sma → ℕ → Option (Pointer × Sma)
unfolding alloc_rounded round
alloc m requested = if is_size requested then alloc_rounded m (round requested) else none

-- The loop over the blocks, with the rounds left
unfoldable pub free_from : ℕ → ℕ → (ℕ → Option ℕ) → (ℕ → Bool) → ℕ → Bool
unfolding free_block
free_from zero i heap_stack is_allocated = is_allocated
free_from (suc rounds) i heap_stack is_allocated =
    free_from rounds (i + 1) heap_stack (free_block (heap_stack i) is_allocated)

unfoldable pub end_session : Sma → Sma
unfolding free_from
end_session m = record m {
  is_allocated = free_from m.session.heap_stack_size 0 m.session.heap_stack m.is_allocated;
}
