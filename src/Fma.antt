-- ===== src/Fma.antt =====
-- The arena allocator of translator/fast_mem_allocator.c.
--
-- Block 0 is the static array `First_Init_Heap`; `calloc` returns the blocks 1, 2, … and does not
-- fail. The stack of heaps is the function `init_heap_stack`.
pub mod Granting
pub mod Bounds
mod Tests
use la_tte.Common.{
  ℕ, zero, suc, ◌+◌, ◌-◌, ◌*◌, bit_and, Bool, false, true, ◌&&◌, Option, none, some, ltb, leb,
  if◌then◌else◌, update, ℤ, pos, negsuc, sub_ℕ, ltb_ℕ, minus_ℕ, ℕ_minus,
}
use la_tte.Sma.{grow, free_block}

abbrev pub num_of_tolerable_overflows : ℕ
num_of_tolerable_overflows = 500

abbrev pub initial_heap_size : ℕ
initial_heap_size = 51200

-- The static variables, the next block of `calloc`, which blocks are allocated, and their sizes
pub record Fma : Type 0 where
  pub init_heap_stack : ℕ → Option ℕ
  pub current_init_heap : ℕ
  pub top_of_init_heap_stack : ℕ
  pub left_space : ℤ
  pub init_heap_size : ℕ
  pub next_block : ℕ
  pub is_allocated : ℕ → Bool
  pub block_size : ℕ → ℕ

unfoldable pub start : Fma → Fma
start m = record m {
  init_heap_stack = update (λ i. none) 0 (some 0);
  current_init_heap = 0;
  left_space = pos initial_heap_size;
  init_heap_size = initial_heap_size;
  top_of_init_heap_stack = 0;
  block_size = update m.block_size 0 initial_heap_size;
}

-- The cap on the size of a heap
abbrev pub cap_size : ℕ → ℕ
cap_size n = if leb 0x0fff_ffff n then 0x0fff_ffff else n

-- The new heap, of the size that the doubling has given
unfoldable pub overflow : Fma → ℕ → ℕ → Fma
overflow m doubled size =
    let top = m.top_of_init_heap_stack + 1 in
    record m {
      init_heap_size = cap_size doubled;
      init_heap_stack = update m.init_heap_stack top (some m.next_block);
      current_init_heap = m.next_block;
      top_of_init_heap_stack = top;
      left_space = sub_ℕ (cap_size doubled) size;
      next_block = m.next_block + 1;
      is_allocated = update m.is_allocated m.next_block true;
      block_size = update m.block_size m.next_block (cap_size doubled);
    }

-- `(size + 8) & -8`
unfoldable pub aligned_size : ℕ → ℕ
aligned_size size = bit_and (size + 8) 0xffff_fff8

-- A pointer is a block and an offset. `none` is `assert(0 && "memory subsystem full!")`, before which
-- the top of the stack is raised, or a doubling without end.
unfoldable pub allocate_from : Fma → ℕ → Option ((ℕ × ℕ) × Fma)
unfolding grow overflow aligned_size
allocate_from m requested =
    let first_free_element_index = ℕ_minus m.init_heap_size m.left_space in
    let size = aligned_size requested in
    if ltb_ℕ m.left_space size
    then if ltb (m.top_of_init_heap_stack + 1) num_of_tolerable_overflows
      then elim (grow (suc size) (m.init_heap_size * 2) size) [
        | none ↦ none
        | some doubled ↦ some ((m.next_block, 0), overflow m doubled size)
      ]
      else none
    else some (
      (m.current_init_heap, first_free_element_index),
      record m { left_space = minus_ℕ m.left_space size },
    )

-- `FMA_allocate`, with `assert(size > 0 && size < 0x0fffffff)`; `none` is a failed assertion.
unfoldable pub allocate : Fma → ℕ → Option ((ℕ × ℕ) × Fma)
unfolding allocate_from
allocate m requested =
    if ltb 0 requested && ltb requested 0x0fff_ffff then allocate_from m requested else none

-- `FMA_end`, with the loop's rounds left
unfoldable pub end_rounds : ℕ → Fma → Fma
unfolding free_block
end_rounds zero m = m
end_rounds (suc top) m = end_rounds top (record m {
  top_of_init_heap_stack = top;
  is_allocated = free_block (m.init_heap_stack (suc top)) m.is_allocated;
})

unfoldable pub end : Fma → Fma
unfolding end_rounds
end m = end_rounds m.top_of_init_heap_stack m
