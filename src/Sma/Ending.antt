-- ===== src/Sma/Ending.antt =====
-- What `SMA_EndSession` gives back.
use la_tte.Common.{
  ℕ, zero, suc, ◌+◌, ◌≡◌, ◌∙◌, Bool, false, not, ◌&&◌, ◌||◌, Option, none, some, ◌==◌, arith,
}
use la_tte.Sma.{Sma, free_block, free_from, end_session}

abbrev pub is_block : Option ℕ → ℕ → Bool
is_block none b = false
is_block (some c) b = c == b

-- Some place of the stack from `i` on, of `n`, has the block `b`.
abbrev pub has_block : ℕ → ℕ → (ℕ → Option ℕ) → ℕ → Bool
has_block zero i stack b = false
has_block (suc n) i stack b = is_block (stack i) b || has_block n (i + 1) stack b

pub free_block_lem :
    (o : Option ℕ) (is_allocated : ℕ → Bool) (b : ℕ)
    → free_block o is_allocated b ≡ (is_allocated b && not (is_block o b))
unfolding free_block
free_block_lem none is_allocated b = ground arith
free_block_lem (some c) is_allocated b = ground arith

free_from_lem :
    (n i : ℕ) (stack : ℕ → Option ℕ) (is_allocated : ℕ → Bool) (b : ℕ)
    → free_from n i stack is_allocated b ≡ (is_allocated b && not (has_block n i stack b))
unfolding free_from
free_from_lem zero i stack is_allocated b = ground arith
free_from_lem (suc n) i stack is_allocated b =
    free_from_lem n (i + 1) stack (free_block (stack i) is_allocated) b
    ∙ ground (arith, free_block_lem (stack i) is_allocated b)

-- After `SMA_EndSession` a block is allocated exactly if it was before and is in no place of the
-- stack: every block of the session is given back, and no other.
pub end_session_lem :
    (m : Sma) (b : ℕ)
    → (end_session m).is_allocated b
      ≡ (m.is_allocated b && not (has_block m.session.heap_stack_size 0 m.session.heap_stack b))
unfolding end_session
end_session_lem m b =
    free_from_lem m.session.heap_stack_size 0 m.session.heap_stack m.is_allocated b
