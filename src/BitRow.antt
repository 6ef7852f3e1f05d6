-- ===== src/BitRow.antt =====
-- A row of 32-bit words read as a row of bits, the highest digit of the first word first. This is
-- the layout of translator/bit_vector.ic and of the rows of runtime/class_inclusion_test.c.
use la_tte.Common.{
  ℕ, zero, suc, ◌+◌, ◌-◌, ◌*◌, ◌/◌, ◌%◌, ◌^◌, ◌≤◌, ◌<◌, bit_or, ◌≡◌, refl, ◌∙◌, Bool, false, ◌||◌,
  List, ◌==◌, ltb, leb, ◌&&◌, if◌then◌else◌, get_or, set, get_or-set, get_or-past, length-set,
  length, replicate, get_or-replicate, arith,
}
use la_tte.Word.{digit, digit-lt, digit-zero, digit-bit_or, digit-pow}

unfoldable pub word_at : List ℕ → ℕ → ℕ
word_at row i = get_or row (i / 32) 0

-- Bit `i` of a row, by division.
unfoldable pub bit_at : List ℕ → ℕ → Bool
unfolding word_at
bit_at row i = digit (word_at row i) (31 - i % 32) == 1

-- What `row[i / 32] |= 1 << (31 - i % 32)` does to the row.
unfoldable pub set_at : List ℕ → ℕ → List ℕ
unfolding word_at
set_at row i = set row (i / 32) (bit_or (word_at row i) (2 ^ (31 - i % 32)))

same_bit : (i j : ℕ) → i / 32 ≡ j / 32 → (31 - i % 32 == 31 - j % 32) ≡ (i == j)
same_bit i j h = ground arith

digit_or_bit : (w n k : ℕ) → (digit (bit_or w (2 ^ n)) k == 1) ≡ ((n == k) || (digit w k == 1))
digit_or_bit w n k = ground (arith, digit-bit_or w (2 ^ n) k, digit-pow n k, digit-lt w k)

pub bit_at-set_at :
    (row : List ℕ) (i j : ℕ)
    → i < 32 * length row
    → bit_at (set_at row i) j ≡ ((i == j) || bit_at row j)
unfolding bit_at set_at
bit_at-set_at row i j h = ground (
  arith,
  get_or-set row (i / 32) (j / 32) (bit_or (get_or row (i / 32) 0) (2 ^ (31 - i % 32))) 0,
  digit_or_bit (get_or row (i / 32) 0) (31 - i % 32) (31 - j % 32),
  same_bit i j,
)

pub bit_at-past : (row : List ℕ) (i : ℕ) → 32 * length row ≤ i → bit_at row i ≡ false
unfolding bit_at
bit_at-past row i h =
    ground (arith, get_or-past row (i / 32) 0 (omega arith), digit-zero (31 - i % 32))

pub bit_at-zeros : (n i : ℕ) → bit_at (replicate n 0) i ≡ false
unfolding bit_at
bit_at-zeros n i = ground (arith, get_or-replicate {A = ℕ} n (i / 32) 0, digit-zero (31 - i % 32))

pub length-set_at : (row : List ℕ) (i : ℕ) → length (set_at row i) ≡ length row
unfolding set_at
length-set_at row i = length-set row (i / 32) _

-- `for (j = i; j < i + n; j++) dest[j] = f(dest[j], src[j]);`
unfoldable pub each_word : (ℕ → ℕ → ℕ) → ℕ → ℕ → List ℕ → List ℕ → List ℕ
each_word f zero i dest src = dest
each_word f (suc n) i dest src =
    each_word f n (i + 1) (set dest i (f (get_or dest i 0) (get_or src i 0))) src

pub length-each_word :
    (f : ℕ → ℕ → ℕ) (n i : ℕ) (dest src : List ℕ) → length (each_word f n i dest src) ≡ length dest
unfolding each_word
length-each_word f zero i dest src = refl
length-each_word f (suc n) i dest src =
    length-each_word f n (i + 1) (set dest i (f (get_or dest i 0) (get_or src i 0))) src
    ∙ length-set dest i (f (get_or dest i 0) (get_or src i 0))

pub get_or-each_word :
    (f : ℕ → ℕ → ℕ) (n i j : ℕ) (dest src : List ℕ)
    → i + n ≤ length dest
    → get_or (each_word f n i dest src) j 0
      ≡ (if leb i j && ltb j (i + n) then f (get_or dest j 0) (get_or src j 0) else get_or dest j 0)
unfolding each_word
get_or-each_word f zero i j dest src h = ground arith
get_or-each_word f (suc n) i j dest src h = ground (
  arith,
  length-set dest i (f (get_or dest i 0) (get_or src i 0)),
  get_or-each_word f n (i + 1) j (set dest i (f (get_or dest i 0) (get_or src i 0))) src,
  get_or-set dest i j (f (get_or dest i 0) (get_or src i 0)) 0,
)

-- `|=` word by word is a disjunction bit by bit.
pub bit_at-or_each :
    (size j : ℕ) (dest src : List ℕ)
    → size ≤ length dest
    → bit_at (each_word bit_or size 0 dest src) j
      ≡ (bit_at dest j || (ltb j (32 * size) && bit_at src j))
unfolding bit_at
bit_at-or_each size j dest src h = ground (
  arith,
  get_or-each_word bit_or size 0 (j / 32) dest src,
  digit-bit_or (get_or dest (j / 32) 0) (get_or src (j / 32) 0) (31 - j % 32),
  digit-lt (get_or dest (j / 32) 0) (31 - j % 32),
  digit-lt (get_or src (j / 32) 0) (31 - j % 32),
)

pub bit_at-copy_each :
    (size j : ℕ) (dest src : List ℕ)
    → size ≤ length dest
    → bit_at (each_word (λ d s. s) size 0 dest src) j
      ≡ (if ltb j (32 * size) then bit_at src j else bit_at dest j)
unfolding bit_at
bit_at-copy_each size j dest src h =
    ground (arith, get_or-each_word (λ d s. s) size 0 (j / 32) dest src)
