-- ===== src/Utf8Table/Deleting.antt =====
-- A constant that is no longer used is taken out: `finalizeUtf8const` of runtime/string.c.
use la_tte.Common.{
  ℕ, zero, suc, ◌+◌, ◌-◌, ◌<◌, ◌≡◌, ◌≢◌, refl, sym, ap, ◌∙◌, true, false, Option, some, List,
  true_branch, false_branch, update_self, arith,
}
use la_tte.Utf8Table.{
  Utf8Const, Cell, free, deleted, constant, Utf8Table, hash_utf8_string, same_bytes, stops,
  next_index, with_cell, constant_round, search_constant, delete_at, finalize_utf8_const,
}
use la_tte.ExceptionTable.Residues.{is_prime, is_prime-gt_1}
use la_tte.Utf8Table.Searching.{place_of, next_index-place, place_of-start}
use la_tte.Utf8Table.Interning.{Interned, kept-Interned}

round-pass :
    (s : List ℕ)
    → (index : ℕ) → (rest : Option ℕ) → (x : Cell) → stops s x ≡ false
    → constant_round s index rest x ≡ rest
unfolding constant_round stops
round-pass s index rest free e = absurd (ground (arith, e))
round-pass s index rest deleted e = refl
round-pass s index rest (constant m) e = false_branch (same_bytes m.bytes s) (some index) rest e

round-stop :
    (s : List ℕ)
    → (index : ℕ) → (rest : Option ℕ) → (m : Utf8Const) → stops s (constant m) ≡ true
    → constant_round s index rest (constant m) ≡ some index
unfolding constant_round stops
round-stop s index rest m e = true_branch (same_bytes m.bytes s) (some index) rest e

search_constant-Interned :
    (n fuel : ℕ)
    → (table : Utf8Table) → (s : List ℕ) → (m : Utf8Const) → (i : ℕ) → is_prime table.size ≡ true
    → table.size < 2147483648
    → (held : Interned table s m) → i + n ≡ held.0
    → n < fuel
    → search_constant fuel table s i (place_of table s i) ≡ some (place_of table s held.0)
unfolding search_constant
search_constant-Interned n zero table s m i e b held u l = absurd (omega (arith, l))
search_constant-Interned zero (suc fuel) table s m i e b held u l =
    let same : i ≡ held.0 = omega (arith, u) in
    let at = place_of table s i in
    let is_m : table.cells at ≡ constant m =
      ap (λ k. table.cells (place_of table s k)) same ∙ held.3 in
    let rest = search_constant fuel table s (suc i) (next_index table.size i at) in
    ap (constant_round s at rest) is_m
    ∙ round-stop s at rest m (ap (stops s) (sym held.3) ∙ held.2.0)
    ∙ ap (λ k. some (place_of table s k)) same
search_constant-Interned (suc n) (suc fuel) table s m i e b held u l =
    let at = place_of table s i in
    round-pass s at (search_constant fuel table s (suc i) (next_index table.size i at))
      (table.cells at) (held.2.1 i (omega (arith, u)))
    ∙ ap (search_constant fuel table s (suc i)) (
        next_index-place table.size (hash_utf8_string s) i (is_prime-gt_1 table.size e) b
          (omega (arith, u, held.1)))
    ∙ search_constant-Interned n fuel table s m (suc i) e b held (omega (arith, u))
        (omega (arith, l))

stops_deleted : (s : List ℕ) → stops s deleted ≡ false
unfolding stops
stops_deleted s = refl

other_constant :
    (m n : Utf8Const) → (x : Cell) → x ≡ constant m → n.bytes ≢ m.bytes → x ≢ constant n
other_constant m n x e d f = d (ground (arith, e, f))

-- Of a constant that a search for its bytes finds, in a table with a prime number of cells,
-- `finalizeUtf8const` ends and takes one off the count. The cell is then marked as deleted, and each
-- constant with other bytes that was found before is still found.
pub finalize_utf8_const_lem :
    (table : Utf8Table)
    → (m : Utf8Const) → is_prime table.size ≡ true
    → table.size < 2147483648
    → (held : Interned table m.bytes m)
    → (after : Utf8Table) × (finalize_utf8_const table m ≡ some after)
      × (after.count ≡ table.count - 1)
      × (after.cells (place_of table m.bytes held.0) ≡ deleted)
      × ((t : List ℕ)
          → (n : Utf8Const) → n.bytes ≢ m.bytes
          → Interned table t n
          → Interned after t n)
unfolding finalize_utf8_const
finalize_utf8_const_lem table m e b held =
    let goal = place_of table m.bytes held.0 in
    let found =
      ap (search_constant (suc table.size) table m.bytes 0) (place_of-start table m.bytes)
      ∙ search_constant-Interned held.0 (suc table.size) table m.bytes m 0 e b held (omega arith)
          (omega (arith, held.1)) in
    (
      with_cell table (table.count - 1) goal deleted,
      ap (delete_at table) found,
      refl,
      update_self table.cells goal deleted,
      λ t n d i.
          kept-Interned table (table.count - 1) goal deleted t n i
            (other_constant m n (table.cells goal) held.3 d) (λ _. stops_deleted t),
    )
