-- ===== src/Word.antt =====
-- Binary digits of machine words: what `&`, `|`, `~` and `1 << k` do to each digit.
use Prim.Native.Nat.{digits, bit_and-bitwise, bit_or-bitwise}
use la_tte.Common.{
  ℕ, zero, suc, ◌+◌, ◌-◌, ◌*◌, ◌/◌, ◌%◌, ◌^◌, ◌≤◌, ◌<◌, min, max, bit_and, bit_or, ◌≡◌, refl, ap,
  ◌∙◌, not, ◌==◌, if◌then◌else◌, arith,
}

-- `x >> k` and `x << k`; a shift to the left is cut to 32 bits where it is stored.
abbrev pub shr : ℕ → ℕ → ℕ
shr x k = x / 2 ^ k

abbrev pub shl : ℕ → ℕ → ℕ
shl x k = x * 2 ^ k

-- `~w` on 32 bits.
abbrev pub bit_not : ℕ → ℕ
bit_not w = 2 ^ 32 - 1 - w

-- Digit `k` of `w`, the lowest is digit 0.
unfoldable pub digit : ℕ → ℕ → ℕ
digit w zero = w % 2
digit w (suc k) = digit (w / 2) k

-- The recursion on digits, for any operation on two digits; `z` is what is left of the second
-- number when the first has run out.
module _ (z : ℕ → ℕ) (f : ℕ → ℕ → ℕ) where
  -- A step of fuel more than the number is large changes nothing.
  spare_step : (b n a : ℕ) → a ≤ n → digits z f (suc n) a b ≡ digits z f n a b
  spare_step b n zero h = from_zero n
    where
      from_zero : (n : ℕ) → digits z f (suc n) zero b ≡ digits z f n zero b
      from_zero zero = refl
      from_zero (suc n) = refl
  spare_step b zero (suc a) h = elim h [ ]
  spare_step b (suc n) (suc a) h =
      ap (λ t. t * 2 + f (suc a % 2) (b % 2)) (spare_step (b / 2) n (suc a / 2) (omega arith))

  spare_fuel : (k n a b : ℕ) → a ≤ n → digits z f (k + n) a b ≡ digits z f n a b
  spare_fuel zero n a b h = ap (λ m. digits z f m a b) (omega arith)
  spare_fuel (suc k) n a b h =
      ap (λ m. digits z f m a b) {y = suc (k + n)} (omega arith)
      ∙ spare_step b (k + n) a (omega arith)
      ∙ spare_fuel k n a b h

  lowest_digit :
      ((b : ℕ) → z b ≡ z (b / 2) * 2 + f 0 (b % 2))
      → (a b : ℕ) → digits z f a a b ≡ digits z f (a / 2) (a / 2) (b / 2) * 2 + f (a % 2) (b % 2)
  lowest_digit run_out zero b = run_out b
  lowest_digit run_out (suc a) b = ap (λ t. t * 2 + f (suc a % 2) (b % 2)) halved
    where
      half : ℕ
      half = suc a / 2

      halved : digits z f a half (b / 2) ≡ digits z f half half (b / 2)
      halved =
          ap (λ n. digits z f n half (b / 2)) (omega arith)
          ∙ spare_fuel (a - half) half half (b / 2) (omega arith)

pub and_lowest : (a b : ℕ) → bit_and a b ≡ bit_and (a / 2) (b / 2) * 2 + min (a % 2) (b % 2)
and_lowest a b = omega (
  arith,
  lowest_digit (λ b. zero) min (λ b. omega arith) a b,
  bit_and-bitwise a b,
  bit_and-bitwise (a / 2) (b / 2),
)

pub or_lowest : (a b : ℕ) → bit_or a b ≡ bit_or (a / 2) (b / 2) * 2 + max (a % 2) (b % 2)
or_lowest a b = omega (
  arith,
  lowest_digit (λ b. b) max (λ b. omega arith) a b,
  bit_or-bitwise a b,
  bit_or-bitwise (a / 2) (b / 2),
)

nothing_in_common : (n a : ℕ) → digits (λ b. zero) min n a 0 ≡ 0
nothing_in_common zero a = refl
nothing_in_common (suc n) zero = refl
nothing_in_common (suc n) (suc a) = omega (arith, nothing_in_common n (suc a / 2))

pub and-zero : (a : ℕ) → bit_and a 0 ≡ 0
and-zero a = bit_and-bitwise a 0 ∙ nothing_in_common a a

pub pow_pos : (n : ℕ) → 0 < 2 ^ n
pow_pos zero = omega arith
pow_pos (suc n) = omega (arith, pow_pos n)

pub digit-lt : (w k : ℕ) → digit w k < 2
unfolding digit
digit-lt w zero = omega arith
digit-lt w (suc k) = digit-lt (w / 2) k

pub digit-bit_or : (a b k : ℕ) → digit (bit_or a b) k ≡ max (digit a k) (digit b k)
unfolding digit
digit-bit_or a b zero = omega (arith, or_lowest a b)
digit-bit_or a b (suc k) =
    ap (λ t. digit t k) (omega (arith, or_lowest a b)) ∙ digit-bit_or (a / 2) (b / 2) k

pub digit-bit_and : (a b k : ℕ) → digit (bit_and a b) k ≡ min (digit a k) (digit b k)
unfolding digit
digit-bit_and a b zero = omega (arith, and_lowest a b)
digit-bit_and a b (suc k) =
    ap (λ t. digit t k) (omega (arith, and_lowest a b)) ∙ digit-bit_and (a / 2) (b / 2) k

pub digit-zero : (k : ℕ) → digit 0 k ≡ 0
unfolding digit
digit-zero zero = refl
digit-zero (suc k) = digit-zero k

half_pow : (n : ℕ) → 2 ^ suc n / 2 ≡ 2 ^ n
half_pow n = omega arith

pub digit-pow : (n k : ℕ) → digit (2 ^ n) k ≡ (if n == k then 1 else 0)
unfolding digit
digit-pow zero zero = refl
digit-pow zero (suc k) = ground (arith, digit-zero k)
digit-pow (suc n) zero = ground arith
digit-pow (suc n) (suc k) = ap (λ t. digit t k) (half_pow n) ∙ ground (arith, digit-pow n k)

digit-complement : (n w k : ℕ) → w < 2 ^ n → k < n → digit (2 ^ n - 1 - w) k ≡ 1 - digit w k
unfolding digit
digit-complement zero w k h p = absurd (omega arith)
digit-complement (suc n) w zero h p = omega arith
digit-complement (suc n) w (suc k) h p =
    ap (λ t. digit t k) (omega arith) ∙ digit-complement n (w / 2) k (omega arith) (omega arith)

pub digit-bit_not : (w k : ℕ) → w < 2 ^ 32 → k < 32 → digit (bit_not w) k ≡ 1 - digit w k
digit-bit_not w k h p = digit-complement 32 w k h p

-- `w & (1 << n)` is nonzero exactly when digit `n` of `w` is 1.
has_digit : (w n : ℕ) → bit_and w (2 ^ n) ≡ (if digit w n == 1 then 2 ^ n else 0)
unfolding digit
has_digit w zero = ground (arith, and_lowest w 1, and-zero (w / 2))
has_digit w (suc n) = ground (arith, and_lowest w (2 ^ suc n), half, has_digit (w / 2) n)
  where
    half : bit_and (w / 2) (2 ^ suc n / 2) ≡ bit_and (w / 2) (2 ^ n)
    half = ap (bit_and (w / 2)) (omega arith)

pub test-digit : (w n : ℕ) → not (bit_and w (2 ^ n) == 0) ≡ (digit w n == 1)
test-digit w n = ground (arith, has_digit w n, pow_pos n)

-- A mask that ends in a one keeps the lowest digit.
pub keep_lowest : (a m : ℕ) → m % 2 ≡ 1 → bit_and a m ≡ bit_and (a / 2) (m / 2) * 2 + a % 2
keep_lowest a m odd = omega (arith, and_lowest a m)

-- A mask of ones keeps a number below its power of two.
pub low_mask : (n a : ℕ) → a < 2 ^ n → bit_and a (2 ^ n - 1) ≡ a
low_mask zero a h = ap (λ b. bit_and b 0) {y = 0} (omega arith) ∙ and-zero 0 ∙ omega arith
low_mask (suc n) a h =
    and_lowest a (2 ^ suc n - 1)
    ∙ omega (arith, half_mask, low_mask n (a / 2) (omega arith), pow_pos n)
  where
    half_mask : bit_and (a / 2) ((2 ^ suc n - 1) / 2) ≡ bit_and (a / 2) (2 ^ n - 1)
    half_mask = ap (bit_and (a / 2)) (omega (arith, pow_pos n))

low_two : (a : ℕ) → bit_and a 3 ≡ a % 4
low_two a = omega (arith, keep_lowest a 3 refl, keep_lowest (a / 2) 1 refl, and-zero (a / 2 / 2))

pub low_five : (a : ℕ) → bit_and a 0x1f ≡ a % 32
low_five a = omega (
  arith,
  keep_lowest a 31 refl,
  keep_lowest (a / 2) 15 refl,
  keep_lowest (a / 2 / 2) 7 refl,
  low_two (a / 2 / 2 / 2),
)

shift_double : (x n : ℕ) → x * 2 ^ suc n ≡ x * 2 ^ n * 2
shift_double x n = ap (λ p. x * p) {y = 2 ^ n * 2} (omega arith) ∙ grind arith

cut_half : (x n l : ℕ) → (x * 2 ^ suc n + l) / 2 ≡ x * 2 ^ n + l / 2
cut_half x n l = omega (arith, shift_double x n)

cut_lowest : (x n l : ℕ) → (x * 2 ^ suc n + l) % 2 ≡ l % 2
cut_lowest x n l = omega (arith, shift_double x n)

-- An operation on digits, of two numbers that are cut at the same digit, one part at a time.
module _ (op f : ℕ → ℕ → ℕ)
    (lowest : (a b : ℕ) → op a b ≡ op (a / 2) (b / 2) * 2 + f (a % 2) (b % 2))
    (nothing : op 0 0 ≡ 0) where
  op_of : {a b c d : ℕ} → a ≡ c → b ≡ d → op a b ≡ op c d
  op_of {a} {b} {c} {d} e g = ap (λ x. op x b) e ∙ ap (op c) g

  parts :
      (n h l k m : ℕ)
      → l < 2 ^ n
      → m < 2 ^ n
      → op (h * 2 ^ n + l) (k * 2 ^ n + m) ≡ op h k * 2 ^ n + op l m
  parts zero h l k m p q =
      op_of {c = h} {d = k} (omega arith) (omega arith)
      ∙ omega (arith, op_of {a = l} {b = m} {c = 0} {d = 0} (omega arith) (omega arith), nothing)
  parts (suc n) h l k m p q =
      lowest (h * 2 ^ suc n + l) (k * 2 ^ suc n + m)
      ∙ ap2
          (op_of (cut_half h n l) (cut_half k n m)
            ∙ parts n h (l / 2) k (m / 2) (omega arith) (omega arith))
          (ap (λ x. f x ((k * 2 ^ suc n + m) % 2)) (cut_lowest h n l)
            ∙ ap (f (l % 2)) (cut_lowest k n m))
      ∙ omega (arith, lowest l m, shift_double (op h k) n)
    where
      ap2 : {a b c d : ℕ} → a ≡ c → b ≡ d → a * 2 + b ≡ c * 2 + d
      ap2 e g = omega arith

pub and_parts :
    (n h l k m : ℕ)
    → l < 2 ^ n
    → m < 2 ^ n
    → bit_and (h * 2 ^ n + l) (k * 2 ^ n + m) ≡ bit_and h k * 2 ^ n + bit_and l m
and_parts = parts bit_and min and_lowest refl

pub or_parts :
    (n h l k m : ℕ)
    → l < 2 ^ n
    → m < 2 ^ n
    → bit_or (h * 2 ^ n + l) (k * 2 ^ n + m) ≡ bit_or h k * 2 ^ n + bit_or l m
or_parts = parts bit_or max or_lowest refl
