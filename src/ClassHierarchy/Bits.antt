-- ===== src/ClassHierarchy/Bits.antt =====
-- The two bit operations of class_inclusion_test.c, in terms of the bits of a row.
use la_tte.Common.{
  ℕ, ◌-◌, ◌/◌, ◌%◌, ◌^◌, bit_and, bit_or, ◌≡◌, ap, ◌∙◌, not, List, ◌==◌, get_or, set, arith,
}
use la_tte.Word.{shl, test-digit, low_five}
use la_tte.BitRow.{bit_at, set_at}
use la_tte.ClassHierarchy.{set_ith_bit, is_ith_bit_set}

shift : (pos : ℕ) → shl 1 (31 - bit_and pos 0x1f) ≡ 2 ^ (31 - pos % 32)
shift pos = ap (λ k. shl 1 (31 - k)) (low_five pos) ∙ omega arith

pub set_ith_bit-eq-set_at : (row : List ℕ) (pos : ℕ) → set_ith_bit row pos ≡ set_at row pos
unfolding set_ith_bit set_at
set_ith_bit-eq-set_at row pos =
    ap (λ m. set row (pos / 32) (bit_or (get_or row (pos / 32) 0) m)) (shift pos)

pub is_ith_bit_set-eq-bit_at : (row : List ℕ) (pos : ℕ) → is_ith_bit_set row pos ≡ bit_at row pos
unfolding is_ith_bit_set bit_at
is_ith_bit_set-eq-bit_at row pos =
    ap (λ m. not (bit_and (get_or row (pos / 32) 0) m == 0)) (shift pos)
    ∙ test-digit (get_or row (pos / 32) 0) (31 - pos % 32)
