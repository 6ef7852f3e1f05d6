-- ===== src/ClassHierarchy/Stores.antt =====
-- The three kinds of store into a row: a bit is set, the superclass's row is copied, an interface's
-- row is joined. Each keeps the invariant, and changes the bits of its own row only.
use la_tte.Common.{
  ℕ, ◌<◌, bit_or, ◌≡◌, ap, ◌∙◌, Bool, ◌&&◌, ◌||◌, List, ◌==◌, if◌then◌else◌, length, In, arith,
}
use la_tte.BitRow.{
  bit_at, bit_at-set_at, length-set_at, each_word, length-each_word, bit_at-or_each,
  bit_at-copy_each,
}
use la_tte.ClassHierarchy.{Class, Cit, row_of, write_row, mark, set_ith_bit}
use la_tte.ClassHierarchy.Bits.{set_ith_bit-eq-set_at}
use la_tte.ClassHierarchy.Invariant.{IsValid, row_of-write_row, write_row-IsValid}

-- Bit `i` of the row of class `a`.
abbrev pub bit : Cit → ℕ → ℕ → Bool
bit st a i = bit_at (row_of st a) i

module _ {class : ℕ → Class} {size : ℕ} {cs : List ℕ} {st : Cit}
    (v : IsValid class size cs st) where
  -- A bit set in a valid row, at a column in use.
  bit_at-set_ith_bit :
      (c pos i : ℕ)
      → In c cs
      → pos < st.column_idx
      → bit_at (set_ith_bit (row_of st c) pos) i ≡ ((pos == i) || bit st c i)
  bit_at-set_ith_bit c pos i m h =
      ap (λ r. bit_at r i) (set_ith_bit-eq-set_at (row_of st c) pos)
      ∙ bit_at-set_at (row_of st c) pos i (omega (arith, v.room, v.lengths c m))

  pub bit-mark :
      (c pos a i : ℕ)
      → In c cs
      → In a cs
      → pos < st.column_idx
      → bit (mark c pos st) a i ≡ (((c == a) && (pos == i)) || bit st a i)
  unfolding mark
  bit-mark c pos a i m n h =
      ap (λ r. bit_at r i)
        (row_of-write_row st c a (set_ith_bit (row_of st c) pos) (v.rows_apart c a m n))
      ∙ ground (arith, bit_at-set_ith_bit c pos i m h)

  pub mark-IsValid :
      (c pos : ℕ) → In c cs → pos < st.column_idx → IsValid class size cs (mark c pos st)
  unfolding mark
  mark-IsValid c pos m h =
      write_row-IsValid v c (set_ith_bit (row_of st c) pos) m
        (omega (
          arith,
          v.lengths c m,
          ap length (set_ith_bit-eq-set_at (row_of st c) pos),
          length-set_at (row_of st c) pos,
        ))
        (λ i p. ground (arith, bit_at-set_ith_bit c pos i m h, v.blank c i m p))

  -- The row of `d` joined to the row of `c`.
  abbrev pub joined : ℕ → ℕ → List ℕ
  joined c d = each_word bit_or size 0 (row_of st c) (row_of st d)

  bit_at-joined :
      (c d i : ℕ) → In c cs → In d cs → bit_at (joined c d) i ≡ (bit st c i || bit st d i)
  bit_at-joined c d i m n = ground (
    arith,
    bit_at-or_each size i (row_of st c) (row_of st d) (v.lengths c m),
    v.blank d i n,
    v.room,
  )

  pub bit-join :
      (c d a i : ℕ)
      → In c cs
      → In d cs
      → In a cs
      → bit (write_row c (joined c d) st) a i ≡ (bit st a i || ((c == a) && bit st d i))
  bit-join c d a i m n k =
      ap (λ r. bit_at r i) (row_of-write_row st c a (joined c d) (v.rows_apart c a m k))
      ∙ ground (arith, bit_at-joined c d i m n)

  pub join-IsValid :
      (c d : ℕ) → In c cs → In d cs → IsValid class size cs (write_row c (joined c d) st)
  join-IsValid c d m n =
      write_row-IsValid v c (joined c d) m
        (omega (arith, v.lengths c m, length-each_word bit_or size 0 (row_of st c) (row_of st d)))
        (λ i p. ground (arith, bit_at-joined c d i m n, v.blank c i m p, v.blank d i n p))

  -- The row of `s` copied over the row of `c`.
  abbrev pub copied : ℕ → ℕ → List ℕ
  copied c s = each_word (λ d s. s) size 0 (row_of st c) (row_of st s)

  bit_at-copied : (c s i : ℕ) → In c cs → In s cs → bit_at (copied c s) i ≡ bit st s i
  bit_at-copied c s i m n = ground (
    arith,
    bit_at-copy_each size i (row_of st c) (row_of st s) (v.lengths c m),
    v.blank c i m,
    v.blank s i n,
    v.room,
  )

  pub bit-copy :
      (c s a i : ℕ)
      → In c cs
      → In s cs
      → In a cs
      → bit (write_row c (copied c s) st) a i ≡ (if c == a then bit st s i else bit st a i)
  bit-copy c s a i m n k =
      ap (λ r. bit_at r i) (row_of-write_row st c a (copied c s) (v.rows_apart c a m k))
      ∙ ground (arith, bit_at-copied c s i m n)

  pub copy-IsValid :
      (c s : ℕ) → In c cs → In s cs → IsValid class size cs (write_row c (copied c s) st)
  copy-IsValid c s m n =
      write_row-IsValid v c (copied c s) m
        (omega
          (arith, v.lengths c m, length-each_word (λ d s. s) size 0 (row_of st c) (row_of st s)))
        (λ i p. ground (arith, bit_at-copied c s i m n, v.blank s i n p))
