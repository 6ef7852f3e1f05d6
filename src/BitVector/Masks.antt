-- ===== src/BitVector/Masks.antt =====
-- The table of masks, and what the three single-bit operations do to a row of bits.
use la_tte.Common.{
  ℕ, ◌-◌, ◌/◌, ◌%◌, ◌^◌, ◌<◌, bit_and, bit_or, ◌≡◌, refl, ap, ◌∙◌, Bool, true, not, List, ◌==◌,
  ==_iff, always, always-at, get_or, set, arith,
}
use la_tte.Word.{test-digit}
use la_tte.BitRow.{bit_at, set_at}
use la_tte.BitVector.{mask, is_set, set_bit}

is_power : ℕ → Bool
is_power i = mask i == 2 ^ (31 - i)

table_checked : always is_power 32 ≡ true
unfolding always is_power mask
table_checked = refl

pub mask_lem : (i : ℕ) → i < 32 → mask i ≡ 2 ^ (31 - i)
unfolding is_power
mask_lem i h = (==_iff _ _).0 (always-at is_power i 32 h table_checked)

pub is_set-eq-bit_at : (v : List ℕ) (i : ℕ) → is_set v i ≡ bit_at v i
unfolding is_set bit_at
is_set-eq-bit_at v i =
    ap (λ m. not (bit_and (get_or v (i / 32) 0) m == 0)) (mask_lem (i % 32) (omega arith))
    ∙ test-digit (get_or v (i / 32) 0) (31 - i % 32)

pub set_bit-eq-set_at : (v : List ℕ) (i : ℕ) → set_bit v i ≡ set_at v i
unfolding set_bit set_at
set_bit-eq-set_at v i =
    ap (λ m. set v (i / 32) (bit_or (get_or v (i / 32) 0) m)) (mask_lem (i % 32) (omega arith))
