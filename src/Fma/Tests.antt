-- ===== src/Fma/Tests.antt =====
-- The arena at its start, a chunk from the first heap, and one that needs a new heap.
use la_tte.Common.{◌+◌, ◌<◌, inr, ℕ, ◌≡◌, refl, false, none, some, List, [], ◌∷◌, pos, arith}
use la_tte.Sma.{grow}
use la_tte.Fma.{Fma, start, allocate, aligned_size, overflow}
use la_tte.Fma.Granting.{Chunk, Granted, begin, grant, AllApart, IsGrant}
use la_tte.Fma.Bounds.{allocate-IsGrant, Granted-Disjoint}

abbrev begun : Fma
begun = start (record {
  init_heap_stack = λ i. none;
  current_init_heap = 0;
  top_of_init_heap_stack = 0;
  left_space = pos 0;
  init_heap_size = 0;
  next_block = 1;
  is_allocated = λ b. false;
  block_size = λ b. 0;
})

two_grants :
    (m1 : Fma) × (m2 : Fma) × (allocate begun 100 ≡ some ((0, 0), m1))
    × (allocate m1 60000 ≡ some ((1, 0), m2))
unfolding allocate aligned_size overflow grow start
two_grants = (_, _, refl, refl)

abbrev granted : List Chunk
granted =
    record { block = 1; offset = 0; length = 60000 }
    ∷ record { block = 0; offset = 0; length = 100 }
    ∷ []

Granted-begun : Granted [] begun
Granted-begun = begin _ (omega arith)

Granted-two : Granted granted two_grants.1
Granted-two = grant (grant Granted-begun (omega arith) two_grants.2) (omega arith) two_grants.3

empty_request : allocate begun 0 ≡ none
unfolding allocate
empty_request = refl

one_heap : two_grants.1.top_of_init_heap_stack + 1 < 500
unfolding two_grants
one_heap = omega arith

allocate-IsGrant_example :
    (r : ℕ × ℕ) × (m' : Fma) × (allocate two_grants.1 5 ≡ some (r, m')) × IsGrant 5 r m'
allocate-IsGrant_example = allocate-IsGrant Granted-two 5 (omega arith) (omega arith) (inr one_heap)

Granted-Disjoint_example : AllApart granted
Granted-Disjoint_example = Granted-Disjoint Granted-two
