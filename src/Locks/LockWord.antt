-- ===== src/Locks/LockWord.antt =====
-- The three fields of a lock word, `semaphore(31:17) | has_waiters(16) | owner_id(15:0)`.
use la_tte.Common.{
  ℕ, zero, suc, ◌+◌, ◌*◌, ◌/◌, ◌%◌, ◌^◌, ◌≤◌, ◌<◌, bit_and, bit_or, ◌≡◌, refl, ap, ◌∙◌, arith,
}
use la_tte.Word.{and_lowest, or_lowest, and-zero, keep_lowest, low_mask, and_parts, or_parts}
use la_tte.Locks.{semaphore_mask, owner_id_mask, has_waiters_mask}

abbrev pub semaphore : ℕ → ℕ
semaphore x = x / 131072

abbrev pub waiters_bit : ℕ → ℕ
waiters_bit x = x / 65536 % 2

abbrev pub owner : ℕ → ℕ
owner x = x % 65536

-- The word with these fields
abbrev pub word : ℕ → ℕ → ℕ → ℕ
word s b o = s * 131072 + b * 65536 + o

or_zero_below : (n a : ℕ) → a ≤ n → bit_or a 0 ≡ a
or_zero_below n zero h = refl
or_zero_below zero (suc a) h = elim h [ ]
or_zero_below (suc n) (suc a) h =
    omega (arith, or_lowest (suc a) 0, or_zero_below n (suc a / 2) (omega arith))

or-zero : (a : ℕ) → bit_or a 0 ≡ a
or-zero a = or_zero_below a a (omega arith)

-- A word, cut at digit 16 and at digit 17
module _ (x : ℕ) where
  cut_16 : (op : ℕ → ℕ → ℕ) (m : ℕ) → op x m ≡ op (x / 65536 * 65536 + x % 65536) m
  cut_16 op m = ap (λ y. op y m) (omega arith)

  cut_17 : (op : ℕ → ℕ → ℕ) (m : ℕ) → op x m ≡ op (x / 131072 * 131072 + x % 131072) m
  cut_17 op m = ap (λ y. op y m) (omega arith)

  pub owner_lem : bit_and x owner_id_mask ≡ owner x
  owner_lem =
      cut_16 bit_and owner_id_mask
      ∙ omega (
        arith,
        and_parts 16 (x / 65536) (x % 65536) 0 0xffff (omega arith) (omega arith),
        and-zero (x / 65536),
        low_mask 16 (x % 65536) (omega arith),
      )

  pub semaphore_lem : x < 2 ^ 32 → bit_and x semaphore_mask ≡ semaphore x * 131072
  semaphore_lem h =
      cut_17 bit_and semaphore_mask
      ∙ omega (
        arith,
        and_parts 17 (x / 131072) (x % 131072) 0x7fff 0 (omega arith) (omega arith),
        and-zero (x % 131072),
        low_mask 15 (x / 131072) (omega arith),
      )

  pub set_waiters_lem : bit_or x has_waiters_mask ≡ word (semaphore x) 1 (owner x)
  set_waiters_lem =
      cut_16 bit_or has_waiters_mask
      ∙ omega (
        arith,
        or_parts 16 (x / 65536) (x % 65536) 1 0 (omega arith) (omega arith),
        or-zero (x % 65536),
        or_lowest (x / 65536) 1,
        or-zero (x / 65536 / 2),
      )

  pub keep_waiters_lem : bit_and x has_waiters_mask ≡ waiters_bit x * 65536
  keep_waiters_lem =
      cut_16 bit_and has_waiters_mask
      ∙ omega (
        arith,
        and_parts 16 (x / 65536) (x % 65536) 1 0 (omega arith) (omega arith),
        and-zero (x % 65536),
        keep_lowest (x / 65536) 1 refl,
        and-zero (x / 65536 / 2),
      )

  pub clear_waiters_lem : x < 2 ^ 32 → bit_and x 0xfffe_ffff ≡ word (semaphore x) 0 (owner x)
  clear_waiters_lem h =
      cut_16 bit_and 0xfffe_ffff
      ∙ omega (
        arith,
        and_parts 16 (x / 65536) (x % 65536) 0xfffe 0xffff (omega arith) (omega arith),
        low_mask 16 (x % 65536) (omega arith),
        and_lowest (x / 65536) 0xfffe,
        low_mask 15 (x / 65536 / 2) (omega arith),
      )
