-- ===== src/Fma/Granting.antt =====
-- The chunks that the arena hands out: what holds between calls, and what a call gives.

use la_tte.Common.{
  ℕ, ◌+◌, ◌-◌, ◌*◌, ◌%◌, ◌≤◌, ◌<◌, ◌≡◌, ◌≢◌, refl, sym, ◌⊎◌, inl, inr, true, false, some, List, [],
  ◌∷◌, All, ltb, subst, pos, ltb_ℕ, minus_ℕ, ℕ_minus, arith,
}
use la_tte.Sma.{round}
use la_tte.Sma.Rounding.{round_lem, grow_bound}
use la_tte.Fma.{
  Fma, start, cap_size, overflow, aligned_size, allocate_from, allocate, initial_heap_size,
  num_of_tolerable_overflows,
}

pub aligned_size-eq-round : (size : ℕ) → aligned_size size ≡ round size
unfolding aligned_size round
aligned_size-eq-round size = refl

pub record Chunk : Type 0 where
  pub block : ℕ
  pub offset : ℕ
  pub length : ℕ

-- The chunks have no byte in common.
abbrev pub Apart : Chunk → Chunk → Type 0
Apart c d =
    (c.block ≢ d.block) ⊎ ((c.offset + c.length ≤ d.offset) ⊎ (d.offset + d.length ≤ c.offset))

abbrev pub AllApart : List Chunk → Type 0
AllApart [] = Unit
AllApart (c ∷ cs) = All (Apart c) cs × AllApart cs

-- The chunks handed out since the start, the last one first; every request is below 0x0ffffff0 bytes.
pub data Granted : List Chunk → Fma → Type 0 where
  begin : (m : Fma) → 0 < m.next_block → Granted [] (start m)
  grant :
      {cs : List Chunk} {m m' : Fma} {b o size : ℕ}
      → Granted cs m
      → size < 0x0fff_fff0
      → allocate m size ≡ some ((b, o), m')
      → Granted (record { block = b; offset = o; length = size } ∷ cs) m'

-- `left` bytes are left of the current heap, which is the newest block.
pub record IsValid (left : ℕ) (m : Fma) : Type 0 where
  pub left_space : m.left_space ≡ pos left
  pub left_le : left ≤ m.init_heap_size
  pub positive : 0 < m.init_heap_size
  pub capped : m.init_heap_size ≤ 0x0fff_ffff
  pub aligned : (m.init_heap_size - left) % 8 ≡ 0
  pub block : m.block_size m.current_init_heap ≡ m.init_heap_size
  pub newest : m.current_init_heap < m.next_block

abbrev pub Placed : Fma → ℕ → Chunk → Type 0
Placed m left c =
    (c.block < m.current_init_heap)
    ⊎ ((c.block ≡ m.current_init_heap) × (c.offset + c.length ≤ m.init_heap_size - left))

pub record Holds (cs : List Chunk) (m : Fma) : Type 0 where
  pub left : ℕ
  pub valid : IsValid left m
  pub placed : All (Placed m left) cs
  pub apart : AllApart cs

All-map :
    {P Q : Chunk → Type 0} → ((c : Chunk) → P c → Q c) → (cs : List Chunk) → All P cs → All Q cs
All-map f [] a = tt
All-map f (c ∷ cs) a = (f c a.0, All-map f cs a.1)

pub start-Holds : (m : Fma) → 0 < m.next_block → Holds [] (start m)
unfolding start
start-Holds m h = record {
  left = initial_heap_size;
  valid = record {
    left_space = refl;
    left_le = omega arith;
    positive = omega arith;
    capped = omega arith;
    aligned = omega arith;
    block = refl;
    newest = h;
  };
  placed = tt;
  apart = tt;
}

-- What a request for `size` bytes gives: a chunk at a multiple of eight inside the current heap
abbrev pub IsGrant : ℕ → ℕ × ℕ → Fma → Type 0
IsGrant size (b, o) m' = (b ≡ m'.current_init_heap) × (o % 8 ≡ 0) × (o + size ≤ m'.block_size b)

abbrev pub chunks : ℕ × ℕ → ℕ → List Chunk → List Chunk
chunks (b, o) size cs = record { block = b; offset = o; length = size } ∷ cs

-- A call's result, with what it keeps
abbrev pub Allocated : List Chunk → Fma → ℕ → Type 0
Allocated cs m size =
    (r : ℕ × ℕ) × (m' : Fma) × (allocate_from m size ≡ some (r, m'))
    × IsGrant size r m'
    × Holds (chunks r size cs) m'

module _ {cs : List Chunk} {m : Fma} (h : Holds cs m) (size : ℕ) (small : size < 0x0fff_fff0) where
  rounded :
      (size < aligned_size size) × (aligned_size size ≤ size + 8) × (aligned_size size % 8 ≡ 0)
  rounded =
      subst (λ r. (size < r) × (r ≤ size + 8) × (r % 8 ≡ 0)) (sym (aligned_size-eq-round size))
        (round_lem size (omega arith))

  -- There is room in the current heap.
  pub in_place : ltb_ℕ m.left_space (aligned_size size) ≡ false → Allocated cs m size
  unfolding allocate_from
  in_place f =
      let v = h.valid in
      let s = aligned_size size in
      let enough : s ≤ h.left = ground (arith, v.left_space) in
      (
        (m.current_init_heap, ℕ_minus m.init_heap_size m.left_space),
        record m { left_space = minus_ℕ m.left_space s },
        rw f refl,
        (
          refl,
          rw v.left_space v.aligned,
          rw (v.left_space, v.block) (omega (arith, v.left_le, rounded.0)),
        ),
        record {
          left = h.left - s;
          valid = record {
            left_space = rw v.left_space (ground arith);
            left_le = omega (arith, v.left_le);
            positive = v.positive;
            capped = v.capped;
            aligned = omega (arith, v.left_le, v.aligned, rounded.2);
            block = v.block;
            newest = v.newest;
          };
          placed = (
            inr (refl, rw v.left_space (omega (arith, v.left_le, rounded.0))),
            All-map (λ c p. elim p [ inl a ↦ inl a | inr b ↦ inr (b.0, omega (arith, b.1)) ]) cs
                h.placed,
          );
          apart = (
            All-map
                (λ c p. elim p [
                  | inl a ↦ inl (λ e. absurd (omega arith))
                  | inr b ↦ inr (inr (rw v.left_space b.1))
                ])
                cs h.placed,
            h.apart,
          );
        },
      )

  -- A new heap is taken.
  pub in_new_heap :
      ltb_ℕ m.left_space (aligned_size size) ≡ true
      → ltb (m.top_of_init_heap_stack + 1) num_of_tolerable_overflows ≡ true
      → Allocated cs m size
  unfolding allocate_from overflow
  in_new_heap t room =
      let v = h.valid in
      let s = aligned_size size in
      let (doubled, e, a, b, _) =
        grow_bound s (m.init_heap_size * 2) s (omega (arith, v.positive)) (omega arith) in
      let fits : s ≤ cap_size doubled = ground (arith, rounded.1) in
      (
        (m.next_block, 0),
        overflow m doubled s,
        rw (t, room) (rw e refl),
        (refl, refl, ground (arith, rounded.0)),
        record {
          left = cap_size doubled - s;
          valid = record {
            left_space = ground arith;
            left_le = omega arith;
            positive = omega (arith, rounded.0);
            capped = ground arith;
            aligned = omega (arith, rounded.2);
            block = ground arith;
            newest = omega arith;
          };
          placed = (
            inr (refl, omega (arith, rounded.0)),
            All-map
                (λ c p. elim p [
                  | inl a ↦ inl (omega (arith, v.newest))
                  | inr b ↦ inl (omega (arith, v.newest, b.0))
                ])
                cs h.placed,
          );
          apart = (
            All-map
                (λ c p. elim p [
                  | inl a ↦ inl (λ e. absurd (omega (arith, v.newest)))
                  | inr b ↦ inl (λ e. absurd (omega (arith, v.newest, b.0)))
                ])
                cs h.placed,
            h.apart,
          );
        },
      )
