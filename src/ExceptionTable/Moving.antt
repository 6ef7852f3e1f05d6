-- ===== src/ExceptionTable/Moving.antt =====
-- A round of the loop in `rehash` of translator/exception_info.c.
use la_tte.Common.{
  ℕ, suc, ◌*◌, ◌≤◌, ◌<◌, ◌≡◌, ◌≢◌, refl, sym, ap, ◌∙◌, true, not, ◌==◌, Option, some, none, inl,
  inr, ◌⊎◌, true_branch, false_branch, ==_of_ne, ==_to, Bool-cases, arith,
}
use la_tte.ExceptionTable.{ExceptionInfo, ExceptionInfoTable, find, write, write_free, move}
use la_tte.ExceptionTable.Counts.{count, count-more, count-passed}
use la_tte.ExceptionTable.Probing.{
  Roomy, occupied_cells, is_occupied, place_in, place-within, first_stop, find-first,
}
use la_tte.ExceptionTable.Lookup.{look_up, Placed, same_cell, look_up-at}
use la_tte.ExceptionTable.Writing.{Written, write-Written, free_or_own}

-- After the first rounds, the larger table has the entries of the first cells of the old one.
pub record Moved (old : ExceptionInfoTable) (size i : ℕ) (table : ExceptionInfoTable) : Type 0 where
  pub roomy : Roomy table
  pub placed : Placed table
  pub size_is : table.size ≡ size
  pub few : occupied_cells table ≤ count (is_occupied old) i
  pub holds :
      (q c : ℕ) → q ≢ 0 → c < i → (old.info c).native_pc ≡ q → look_up table q ≡ some (old.info c)
  pub absent :
      (q : ℕ) → q ≢ 0 → ((c : ℕ) → c < i → (old.info c).native_pc ≢ q) → look_up table q ≡ none

some-not_none : {A : Type 0} → (a : A) → (o : Option A) → o ≡ some a → o ≢ none
some-not_none a o e f = ground (arith, e, f)

-- An address that is not found is written to a free cell.
write_free-step :
    (table : ExceptionInfoTable)
    → (entry : ExceptionInfo) → Roomy table
    → Placed table
    → entry.native_pc ≢ 0
    → 2 * suc (occupied_cells table) ≤ table.size
    → look_up table entry.native_pc ≡ none
    → (after : ExceptionInfoTable) × (move entry (some table) ≡ some after)
      × Written table entry after
write_free-step table entry r p ne room absent =
    let q = entry.native_pc in
    let f = first_stop table q r in
    let goal = place_in table q f.0 in
    let after = write table entry goal in
    let free : (table.info goal).native_pc ≡ 0 = elim (free_or_own table entry f.0 r p ne f.1 f.2) [
      | inl z ↦ z
      | inr y ↦ absurd (
          some-not_none (table.info goal) (look_up table q)
            (look_up-at table q goal r p ne (place-within table q f.0 r.prime) y) absent)
    ] in
    (
      after,
      false_branch (q == 0) (some table) (write_free table entry (find table q)) (==_of_ne q 0 ne)
          ∙ ap (write_free table entry) (find-first table q f.0 r.prime r.int_size ne f.2 f.1)
          ∙ true_branch ((table.info goal).native_pc == 0) (some after) none (ground (arith, free)),
      write-Written table entry f.0 r p ne f.1 f.2 room,
    )

last_or_before : (c i : ℕ) → c < suc i → (c ≡ i) ⊎ (c < i)
last_or_before c i l = elim (Bool-cases (c == i)) [
  | inl y ↦ inl (==_to c i y)
  | inr n ↦ inr (ground (arith, n, l))
]

-- A round passes over a free cell.
module _ (old table : ExceptionInfoTable) (size i : ℕ) (m : Moved old size i table) where
  passed-Moved : (old.info i).native_pc ≡ 0 → Moved old size (suc i) table
  passed-Moved z = record {
    roomy = m.roomy;
    placed = m.placed;
    size_is = m.size_is;
    few = omega (arith, m.few, count-more (is_occupied old) i (suc i) (omega arith));
    holds = λ q c nz l e. elim (last_or_before c i l) [
      | inl at ↦ absurd (nz (sym e ∙ ap (λ k. (old.info k).native_pc) at ∙ z))
      | inr before ↦ m.holds q c nz before e
    ];
    absent = λ q nz h. m.absent q nz (λ c l. h c (omega (arith, l)));
  }

  -- It moves the entry of an occupied one.
  module _ (po : Placed old) (li : i < old.size) (ne : (old.info i).native_pc ≢ 0) where
    distinct : (c : ℕ) → c < i → (old.info c).native_pc ≢ (old.info i).native_pc
    distinct c l e =
        let same =
          same_cell old (old.info i).native_pc c i po ne (omega (arith, l, li)) li e refl in
        absurd (omega (arith, same, l))

    one_more_cell : suc (count (is_occupied old) i) ≤ occupied_cells old
    one_more_cell =
        let full : is_occupied old i ≡ true = ap not (==_of_ne (old.info i).native_pc 0 ne) in
        omega (
          arith,
          count-passed (is_occupied old) i full,
          count-more (is_occupied old) (suc i) old.size (omega (arith, li)),
        )

    entry-Moved :
        (after : ExceptionInfoTable)
        → Written table (old.info i) after
        → Moved old size (suc i) after
    entry-Moved after w =
        let full : is_occupied old i ≡ true = ap not (==_of_ne (old.info i).native_pc 0 ne) in
        record {
          roomy = w.roomy;
          placed = w.placed;
          size_is = w.size_kept ∙ m.size_is;
          few = omega (arith, w.one_more, m.few, count-passed (is_occupied old) i full);
          holds = λ q c nz l e. elim (last_or_before c i l) [
            | inl at ↦
                ap (look_up after) (sym e ∙ ap (λ k. (old.info k).native_pc) at)
                ∙ w.own
                ∙ ap (λ k. some (old.info k)) (sym at)
            | inr before ↦ w.others q nz (λ u. distinct c before (e ∙ u)) ∙ m.holds q c nz before e
          ];
          absent = λ q nz h.
              w.others q nz (λ u. h i (omega arith) (sym u))
              ∙ m.absent q nz (λ c l. h c (omega (arith, l)));
        }

-- A round of the loop
pub move-Moved :
    (old table : ExceptionInfoTable)
    → (size i : ℕ) → Placed old
    → i < old.size
    → 2 * occupied_cells old ≤ size
    → Moved old size i table
    → (after : ExceptionInfoTable) × (move (old.info i) (some table) ≡ some after)
      × Moved old size (suc i) after
move-Moved old table size i po li room m = elim (Bool-cases ((old.info i).native_pc == 0)) [
  | inl z ↦ (
    table,
    true_branch ((old.info i).native_pc == 0) (some table)
        (write_free table (old.info i) (find table (old.info i).native_pc)) z,
    passed-Moved old table size i m (==_to (old.info i).native_pc 0 z),
  )
  | inr n ↦
      let ne : (old.info i).native_pc ≢ 0 = λ e. absurd (ground (arith, n, e)) in
      let enough : 2 * suc (occupied_cells table) ≤ table.size =
        omega (arith, room, m.few, m.size_is, one_more_cell old table size i m po li ne) in
      let gone = m.absent (old.info i).native_pc ne (distinct old table size i m po li ne) in
      let step = write_free-step table (old.info i) m.roomy m.placed ne enough gone in
      (step.0, step.1, entry-Moved old table size i m po li ne step.0 step.2)
]
