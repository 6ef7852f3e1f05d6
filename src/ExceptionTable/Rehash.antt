-- ===== src/ExceptionTable/Rehash.antt =====
-- A table's entries are moved to a larger one: `rehash` of translator/exception_info.c.
use la_tte.Common.{
  ℕ, zero, suc, ◌*◌, ◌≤◌, ◌<◌, ◌≡◌, ◌≢◌, refl, sym, ap, ◌∙◌, true, some, inl, inr, arith,
}
use la_tte.Prime.{get_next_prime}
use la_tte.ExceptionTable.{ExceptionInfoTable, move, move_first, grown, rehash_to, rehash}
use la_tte.ExceptionTable.Counts.{count}
use la_tte.ExceptionTable.Residues.{is_prime}
use la_tte.ExceptionTable.Probing.{Roomy, occupied_cells, is_occupied}
use la_tte.ExceptionTable.Lookup.{look_up, Placed, contents, contents_cases, look_up-absent}
use la_tte.ExceptionTable.Moving.{Moved, move-Moved}

-- A table without entries
count-free : (size n : ℕ) → (old : ExceptionInfoTable) → count (is_occupied (grown old size)) n ≡ 0
unfolding count
count-free size zero old = refl
count-free size (suc n) old = count-free size n old

grown-Moved :
    (old : ExceptionInfoTable)
    → (size : ℕ) → is_prime size ≡ true
    → size < 2147483648
    → Moved old size 0 (grown old size)
unfolding count
grown-Moved old size e b =
    let r : Roomy (grown old size) = record {
      prime = e;
      int_size = b;
      half_free = omega (arith, count-free size size old);
    } in
    record {
      roomy = r;
      placed = λ q c nz l u. absurd (nz (sym u));
      size_is = refl;
      few = omega (arith, count-free size size old);
      holds = λ q c nz l u. absurd (omega (arith, l));
      absent = λ q nz h. look_up-absent (grown old size) q r nz (λ c l u. nz (sym u));
    }

move_first-Moved :
    (old : ExceptionInfoTable)
    → (size i : ℕ) → Placed old
    → is_prime size ≡ true
    → size < 2147483648
    → 2 * occupied_cells old ≤ size
    → i ≤ old.size
    → (after : ExceptionInfoTable) × (move_first i old.info (grown old size) ≡ some after)
      × Moved old size i after
unfolding move_first
move_first-Moved old size zero po e b room l = (grown old size, refl, grown-Moved old size e b)
move_first-Moved old size (suc i) po e b room l =
    let before = move_first-Moved old size i po e b room (omega (arith, l)) in
    let step = move-Moved old before.0 size i po (omega (arith, l)) room before.2 in
    (step.0, ap (move (old.info i)) before.1 ∙ step.1, step.2)

-- What a larger table has of an old one
pub record Rehashed (old : ExceptionInfoTable) (size : ℕ) (after : ExceptionInfoTable)
    : Type 0 where
  pub roomy : Roomy after
  pub placed : Placed after
  pub size_is : after.size ≡ size
  pub no_more : occupied_cells after ≤ occupied_cells old
  pub same : (q : ℕ) → q ≢ 0 → look_up after q ≡ contents old q

-- For a table, however full it is, in which each occupied cell is the first stop of the probing for
-- its address: where `get_next_prime` gives a prime below 2^31, and at most half of so many cells will
-- be occupied, `rehash` ends and no assertion in it fails. In the larger table each occupied cell is
-- again where its address is found; `look_up` there finds for every address other than 0 what some
-- cell of the old table has of it, and nothing if none has.
pub rehash-Rehashed :
    (table : ExceptionInfoTable)
    → (size : ℕ) → Placed table
    → get_next_prime (table.size * 2) ≡ some size
    → is_prime size ≡ true
    → size < 2147483648
    → 2 * occupied_cells table ≤ size
    → (after : ExceptionInfoTable) × (rehash table ≡ some after) × Rehashed table size after
unfolding rehash
rehash-Rehashed table size p g e b room =
    let all = move_first-Moved table size table.size p e b room (omega arith) in
    let m = all.2 in
    (
      all.0,
      ap (rehash_to table) g ∙ all.1,
      record {
        roomy = m.roomy;
        placed = m.placed;
        size_is = m.size_is;
        no_more = m.few;
        same = λ q nz. elim (contents_cases table.size table.info q) [
          | inl c ↦ m.holds q c.0 nz c.1 c.2 ∙ sym c.3
          | inr h ↦ m.absent q nz h.0 ∙ sym h.1
        ];
      },
    )
