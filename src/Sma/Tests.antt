-- ===== src/Sma/Tests.antt =====
-- A session of sixteen bytes, in which a chunk is granted, and then one that needs a new heap.
use la_tte.Common.{
  ◌^◌, ℕ, ◌+◌, ◌*◌, ◌%◌, ◌≤◌, ◌<◌, ◌≡◌, refl, ◌⊎◌, ◌&&◌, not, false, none, some, List, [], ◌∷◌,
  arith,
}
use la_tte.Sma.{
  Sma, Pointer, init_session, install, set_current_heap, allocate_new_heap, free_block, alloc,
  alloc_rounded, increase_heap, replace_heap, reuse_next, grow, take, round, end_session,
}
use la_tte.Sma.Rounding.{round_lem, grow_bound}
use la_tte.Sma.Taking.{Chunk, AllApart}
use la_tte.Sma.Chunks.{
  Granted, Full, begin, grant, IsGrant, alloc-IsGrant, Granted-AllApart, heap_stack_bound,
}
use la_tte.Sma.Ending.{has_block, end_session_lem}

abbrev nothing : Sma
nothing = record {
  session = record {
    heap_stack_size = 0;
    heap_stack = λ i. none;
    heap_size_stack = λ i. 0;
    current_heap = none;
    current_heap_index = 0;
    current_heap_size = 0;
    current_heap_free_size = 0;
  };
  next_block = 7;
  is_allocated = λ b. false;
}

abbrev begun : Sma
begun = init_session nothing 16

Granted-begun : Granted 16 [] begun
Granted-begun = begin nothing (omega arith) (omega arith)

abbrev at : ℕ → ℕ → Pointer
at b o = record { block = some b; offset = o }

-- The second request does not fit and gets the next block.
two_grants :
    (m1 : Sma) × (m2 : Sma) × (alloc begun 3 ≡ some (at 7 0, m1)) × (alloc m1 9 ≡ some (at 8 0, m2))
unfolding alloc alloc_rounded take round increase_heap replace_heap reuse_next grow install
    set_current_heap allocate_new_heap free_block init_session
two_grants = (_, _, refl, refl)

abbrev granted : List Chunk
granted = record { start = at 8 0; length = 9 } ∷ record { start = at 7 0; length = 3 } ∷ []

Granted-two : Granted 16 granted two_grants.1
Granted-two = grant (grant Granted-begun two_grants.2) two_grants.3

round_lem_example : (13 < round 13) × (round 13 ≤ 13 + 8) × (round 13 % 8 ≡ 0)
round_lem_example = round_lem 13 (omega arith)

grow_bound_example :
    (r : ℕ) × (grow 101 16 100 ≡ some r) × (100 ≤ r) × (16 ≤ r) × ((r ≡ 16) ⊎ (r < 2 * 100))
grow_bound_example = grow_bound 100 16 100 (omega arith) (omega arith)

-- A heap of 32 bytes is doubled for 32, which the assertion refuses.
exact_size : alloc begun 24 ≡ none
unfolding alloc alloc_rounded take round increase_heap replace_heap reuse_next grow install
    set_current_heap allocate_new_heap free_block init_session
exact_size = refl

alloc-IsGrant_example :
    ((p : Pointer) × (m' : Sma) × (alloc two_grants.1 100 ≡ some (p, m')) × IsGrant 100 p m')
    ⊎ ((alloc two_grants.1 100 ≡ none) × Full two_grants.1.session (round 100))
alloc-IsGrant_example = alloc-IsGrant Granted-two 100 (omega arith)

Granted-AllApart_example : AllApart granted
Granted-AllApart_example = Granted-AllApart Granted-two

heap_stack_bound_example : (16 * 2 ^ 0 ≤ begun.session.heap_size_stack 0) × ◌<◌ 0 15
unfolding init_session
heap_stack_bound_example = heap_stack_bound Granted-begun 0 (omega arith) (omega arith)

end_session_lem_example : (end_session begun).is_allocated 7 ≡ (
    begun.is_allocated 7
    && not (has_block begun.session.heap_stack_size 0 begun.session.heap_stack 7))
end_session_lem_example = end_session_lem begun 7
