-- ===== src/Sma/Taking.antt =====
-- What is true of the memory that a session has handed out, and what keeps it true.

use la_tte.Common.{
  none, ℕ, zero, suc, ◌+◌, ◌*◌, ◌%◌, ◌^◌, ◌≤◌, ◌<◌, ◌≡◌, ◌≢◌, refl, sym, ◌∙◌, ◌⊎◌, inl, inr, some,
  List, [], ◌∷◌, All, update, arith,
}
use la_tte.Word.{pow_pos}
use la_tte.Sma.{
  Session, Sma, Pointer, set_current_heap, free_block, allocate_new_heap, install, increase_heap,
  take, init_session, restart_session,
}
use la_tte.Sma.Step.{Blocks, Current, used}
use la_tte.Sma.Growing.{NoHeap, base_size, increase_heap-Outcome}

pub record Chunk : Type 0 where
  pub start : Pointer
  pub length : ℕ

-- The chunks have no byte in common.
abbrev pub Apart : Chunk → Chunk → Type 0
Apart c d =
    (c.start.block ≢ d.start.block)
    ⊎ ((c.start.offset + c.length ≤ d.start.offset) ⊎ (d.start.offset + d.length ≤ c.start.offset))

abbrev pub AllApart : List Chunk → Type 0
AllApart [] = Unit
AllApart (c ∷ cs) = All (Apart c) cs × AllApart cs

-- The chunk lies in an earlier block of the stack, or in what is used of the current one.
abbrev pub Placed : Session → Chunk → Type 0
Placed s c =
    (k : ℕ) × (k ≤ s.current_heap_index)
    × (s.heap_stack k ≡ c.start.block)
    × ((k < s.current_heap_index) ⊎ (c.start.offset + c.length ≤ used s))

pub record Holds (initial : ℕ) (cs : List Chunk) (m : Sma) : Type 0 where
  pub blocks : Blocks initial m
  pub current : Current m.session
  pub placed : All (Placed m.session) cs
  pub apart : AllApart cs

pub times_mono : (a p q : ℕ) → p ≤ q → a * p ≤ a * q
times_mono a p q h = grind arith

pub pow_mono : (j k : ℕ) → j ≤ k → 2 ^ j ≤ 2 ^ k
pow_mono zero k h = omega (arith, pow_pos k)
pow_mono (suc j) zero h = absurd (omega arith)
pow_mono (suc j) (suc k) h = omega (arith, pow_mono j k (omega arith))

All-map :
    {P Q : Chunk → Type 0} → ((c : Chunk) → P c → Q c) → (cs : List Chunk) → All P cs → All Q cs
All-map f [] a = tt
All-map f (c ∷ cs) a = (f c a.0, All-map f cs a.1)

pub init_session-Holds :
    {initial : ℕ} (m : Sma) → 0 < initial → Holds initial [] (init_session m initial)
unfolding init_session install set_current_heap allocate_new_heap free_block
init_session-Holds {initial} m pos = record {
  blocks = record {
    positive = pos;
    present = λ k lt. (m.next_block, ground arith, omega arith, ground arith);
    apart = λ j k b lj lk ej ek. omega arith;
    absent = λ k le. ground arith;
    sizes = λ k lt. first k lt;
  };
  current = record {
    index = omega arith;
    block = refl;
    size = refl;
    free = omega arith;
    aligned = omega arith;
  };
  placed = tt;
  apart = tt;
}
  where
    first : (k : ℕ) → k < 1 → initial * 2 ^ k ≤ update (λ i. 0) 0 initial k
    first zero lt = omega arith
    first (suc k) lt = absurd (omega arith)

pub restart_session-Holds :
    {initial : ℕ} {cs : List Chunk} {m : Sma}
    → Holds initial cs m
    → Holds initial [] (restart_session m)
unfolding restart_session
restart_session-Holds {m} h = record {
  blocks = record {
    positive = h.blocks.positive;
    present = h.blocks.present;
    apart = h.blocks.apart;
    absent = h.blocks.absent;
    sizes = h.blocks.sizes;
  };
  current = record {
    index = omega (arith, h.current.index);
    block = refl;
    size = refl;
    free = omega arith;
    aligned = omega arith;
  };
  placed = tt;
  apart = tt;
}

-- After a grant of `size` bytes, rounded up to `r`, from a heap with room for them.
module _ {initial : ℕ} {cs : List Chunk} {m : Sma} (h : Holds initial cs m) (size r : ℕ)
    (small : size ≤ r) (multiple : r % 8 ≡ 0) (room : r ≤ m.session.current_heap_free_size) where
  unfoldable pub new_chunk : Chunk
  new_chunk = record { start = (take r m).0; length = size }

  take-Current : Current (take r m).1.session
  unfolding take
  take-Current = record {
    index = h.current.index;
    block = h.current.block;
    size = h.current.size;
    free = omega (arith, h.current.free);
    aligned = omega (arith, h.current.free, h.current.aligned);
  }

  chunk-Apart : (c : Chunk) → Placed m.session c → Apart new_chunk c
  unfolding new_chunk take
  chunk-Apart c (k, le, e, inr f) = inr (inr f)
  chunk-Apart c (k, le, e, inl f) =
      let (b, p, _, _) = h.blocks.present k (omega (arith, h.current.index)) in
      inl (λ q. absurd (
        omega (
          arith,
          h.blocks.apart k m.session.current_heap_index b (omega (arith, h.current.index))
              h.current.index p (sym h.current.block ∙ q ∙ sym e ∙ p),
        )))

  still-Placed : (c : Chunk) → Placed m.session c → Placed (take r m).1.session c
  unfolding take
  still-Placed c (k, le, e, inl f) = (k, le, e, inl f)
  still-Placed c (k, le, e, inr f) = (k, le, e, inr (omega (arith, h.current.free)))

  new-Placed : Placed (take r m).1.session new_chunk
  unfolding take new_chunk
  new-Placed = (
    m.session.current_heap_index,
    omega arith,
    sym h.current.block,
    inr (omega (arith, h.current.free)),
  )

  pub take-Holds : Holds initial (new_chunk ∷ cs) (take r m).1
  unfolding take
  take-Holds = record {
    blocks = record {
      positive = h.blocks.positive;
      present = h.blocks.present;
      apart = h.blocks.apart;
      absent = h.blocks.absent;
      sizes = h.blocks.sizes;
    };
    current = take-Current;
    placed = (new-Placed, All-map still-Placed cs h.placed);
    apart = (All-map chunk-Apart cs h.placed, h.apart);
  }

pub increase_heap-Holds :
    {initial : ℕ} {cs : List Chunk} {m : Sma}
    → Holds initial cs m
    → (size : ℕ)
    → ((m' : Sma) × (increase_heap m size ≡ some m')
        × Holds initial cs m'
        × (size ≤ m'.session.current_heap_free_size))
      ⊎ ((increase_heap m size ≡ none)
          × NoHeap (m.session.current_heap_index + 1) (base_size m.session) size)
increase_heap-Holds {cs} {m} h size = elim (increase_heap-Outcome h.blocks h.current size) [
  | inr w ↦ inr w
  | inl (m', e, r) ↦ inl (
    m',
    e,
    record {
      blocks = r.blocks;
      current = r.current;
      placed =
          All-map
            (λ c (k, le, q, _). (
              k,
              omega (arith, r.index),
              r.kept k (λ z. absurd (omega arith)) ∙ q,
              inl (omega (arith, r.index)),
            ))
            cs h.placed;
      apart = h.apart;
    },
    r.room,
  )
]
