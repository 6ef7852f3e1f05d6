-- ===== src/BitVector/Laws.antt =====
-- The operations of bit_vector.ic, each by its effect on every bit.
use la_tte.Common.{
  ℕ, ◌-◌, ◌*◌, ◌/◌, ◌%◌, ◌^◌, ◌≤◌, ◌<◌, bit_and, ◌≡◌, refl, true, not, ◌&&◌, ◌||◌, List, [], ◌==◌,
  if◌then◌else◌, ltb, ltb→lt, leb, always, always-at, get_or, get_or-set, length, arith,
}
use la_tte.Word.{digit, digit-lt, digit-bit_and, digit-zero, digit-pow, digit-bit_not, bit_not}
use la_tte.BitRow.{bit_at, bit_at-set_at, get_or-each_word, bit_at-or_each, bit_at-copy_each}
use la_tte.BitVector.{is_set, set_bit, clear_bit, copy, or_words, and_words, clear_all, set_all}
use la_tte.BitVector.Masks.{mask_lem, is_set-eq-bit_at, set_bit-eq-set_at}

-- After `BV_SetBit` at an index inside the vector, `BV_IsSet` answers true there, and at every
-- other index what it answered before.
pub is_set-set_bit :
    (v : List ℕ) (i j : ℕ) → i < 32 * length v → is_set (set_bit v i) j ≡ ((i == j) || is_set v j)
is_set-set_bit v i j h = ground (
  arith,
  is_set-eq-bit_at (set_bit v i) j,
  is_set-eq-bit_at v j,
  set_bit-eq-set_at v i,
  bit_at-set_at v i j,
)

pow_bound : (n : ℕ) → n < 32 → 2 ^ n < 2 ^ 32
unfolding always
pow_bound n h = ltb→lt _ _ (always-at (λ n. ltb (2 ^ n) (2 ^ 32)) n 32 h refl)

digit_and_not :
    (w n k : ℕ)
    → n < 32
    → k < 32
    → (digit (bit_and w (bit_not (2 ^ n))) k == 1) ≡ (not (n == k) && (digit w k == 1))
digit_and_not w n k hn hk = ground (
  arith,
  digit-bit_and w (bit_not (2 ^ n)) k,
  digit-bit_not (2 ^ n) k (pow_bound n hn) hk,
  digit-pow n k,
  digit-lt w k,
)

-- After `BV_ClearBit` at an index inside the vector, `BV_IsSet` answers false there, and at every
-- other index what it answered before.
pub is_set-clear_bit :
    (v : List ℕ) (i j : ℕ)
    → i < 32 * length v
    → is_set (clear_bit v i) j ≡ (not (i == j) && is_set v j)
unfolding clear_bit bit_at
is_set-clear_bit v i j h = ground (
  arith,
  is_set-eq-bit_at (clear_bit v i) j,
  is_set-eq-bit_at v j,
  mask_lem (i % 32),
  get_or-set v (i / 32) (j / 32) (bit_and (get_or v (i / 32) 0) (bit_not (2 ^ (31 - i % 32)))) 0,
  digit_and_not (get_or v (i / 32) 0) (31 - i % 32) (31 - j % 32),
)

-- `BV_OR`, with `dest` of at least `size` words, makes each of the first `32 * size` bits of `dest`
-- the disjunction of the two vectors' bits, and leaves the bits past those as they were.
pub is_set-or_words :
    (dest src : List ℕ) (size j : ℕ)
    → size ≤ length dest
    → is_set (or_words dest src size) j ≡ (is_set dest j || (ltb j (32 * size) && is_set src j))
unfolding or_words
is_set-or_words dest src size j h = ground (
  arith,
  is_set-eq-bit_at (or_words dest src size) j,
  is_set-eq-bit_at dest j,
  is_set-eq-bit_at src j,
  bit_at-or_each size j dest src h,
)

-- `BV_AND`, with `dest` of at least `size` words, makes each of the first `32 * size` bits of
-- `dest` the conjunction of the two vectors' bits, and leaves the bits past those as they were.
pub is_set-and_words :
    (dest src : List ℕ) (size j : ℕ)
    → size ≤ length dest
    → is_set (and_words dest src size) j ≡ (is_set dest j && (leb (32 * size) j || is_set src j))
unfolding and_words bit_at
is_set-and_words dest src size j h = ground (
  arith,
  is_set-eq-bit_at (and_words dest src size) j,
  is_set-eq-bit_at dest j,
  is_set-eq-bit_at src j,
  get_or-each_word bit_and size 0 (j / 32) dest src,
  digit-bit_and (get_or dest (j / 32) 0) (get_or src (j / 32) 0) (31 - j % 32),
  digit-lt (get_or dest (j / 32) 0) (31 - j % 32),
  digit-lt (get_or src (j / 32) 0) (31 - j % 32),
)

-- After `BV_Copy` to a `dest` of at least `size` words the first `32 * size` bits of `dest` are
-- those of `src`, and the others are as they were.
pub is_set-copy :
    (dest src : List ℕ) (size j : ℕ)
    → size ≤ length dest
    → is_set (copy dest src size) j ≡ (if ltb j (32 * size) then is_set src j else is_set dest j)
unfolding copy
is_set-copy dest src size j h = ground (
  arith,
  is_set-eq-bit_at (copy dest src size) j,
  is_set-eq-bit_at dest j,
  is_set-eq-bit_at src j,
  bit_at-copy_each size j dest src h,
)

-- After `BV_ClearAll` of a vector of at least `size` words none of the first `32 * size` bits is
-- set, and the others are as they were.
pub is_set-clear_all :
    (v : List ℕ) (size j : ℕ)
    → size ≤ length v
    → is_set (clear_all v size) j ≡ (leb (32 * size) j && is_set v j)
unfolding clear_all bit_at
is_set-clear_all v size j h = ground (
  arith,
  is_set-eq-bit_at (clear_all v size) j,
  is_set-eq-bit_at v j,
  get_or-each_word (λ d s. 0) size 0 (j / 32) v [],
  digit-zero (31 - j % 32),
)

digit_ones : (k : ℕ) → k < 32 → (digit 0xffff_ffff k == 1) ≡ true
unfolding always digit
digit_ones k h = always-at (λ k. digit 0xffff_ffff k == 1) k 32 h refl

-- After `BV_SetAll` of a vector of at least `size` words each of the first `32 * size` bits is set,
-- and the others are as they were.
pub is_set-set_all :
    (v : List ℕ) (size j : ℕ)
    → size ≤ length v
    → is_set (set_all v size) j ≡ (ltb j (32 * size) || is_set v j)
unfolding set_all bit_at
is_set-set_all v size j h = ground (
  arith,
  is_set-eq-bit_at (set_all v size) j,
  is_set-eq-bit_at v j,
  get_or-each_word (λ d s. 0xffff_ffff) size 0 (j / 32) v [],
  digit_ones (31 - j % 32),
)
