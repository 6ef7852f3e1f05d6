-- ===== src/ExceptionTable/Inserting.antt =====
-- `EIT_insert` of translator/exception_info.c, with and without a larger table.
use la_tte.Common.{
  ℕ, suc, ◌*◌, ◌≤◌, ◌<◌, ◌≡◌, ◌≢◌, sym, ap, ◌∙◌, true, some, if◌then◌else◌, inl, inr, true_branch,
  false_branch, Bool-cases, arith,
}
use la_tte.Prime.{get_next_prime}
use la_tte.ExceptionTable.{
  ExceptionInfo, ExceptionInfoTable, put_into, counted, is_loaded, rehash, insert, next_size,
}
use la_tte.ExceptionTable.Residues.{is_prime}
use la_tte.ExceptionTable.Probing.{Roomy, occupied_cells}
use la_tte.ExceptionTable.Lookup.{look_up, Placed, contents, look_up-contents}
use la_tte.ExceptionTable.Writing.{put-Written}
use la_tte.ExceptionTable.Rehash.{Rehashed, rehash-Rehashed}

-- A table that is not enlarged
unchanged :
    (table : ExceptionInfoTable)
    → (size : ℕ) → Placed table
    → table.size ≡ size
    → is_prime size ≡ true
    → size < 2147483648
    → 2 * occupied_cells table ≤ size
    → Rehashed (counted table) size (counted table)
unchanged table size p same e b room =
    let r : Roomy (counted table) = record {
      prime = ap is_prime same ∙ e;
      int_size = omega (arith, same, b);
      half_free = omega (arith, same, room);
    } in
    record {
      roomy = r;
      placed = p;
      size_is = same;
      no_more = omega arith;
      same = λ q nz. look_up-contents (counted table) q r p nz;
    }

-- The larger table, or the same
prepared :
    (table : ExceptionInfoTable)
    → (size : ℕ) → Placed table
    → next_size table ≡ some size
    → is_prime size ≡ true
    → size < 2147483648
    → 2 * suc (occupied_cells table) ≤ size
    → (ready : ExceptionInfoTable) × ((if is_loaded table
          then rehash (counted table)
          else some (counted table))
        ≡ some ready)
      × Rehashed (counted table) size ready
unfolding next_size
prepared table size p g e b room = elim (Bool-cases (is_loaded table)) [
  | inl y ↦
      let next =
        sym (true_branch (is_loaded table) (get_next_prime (table.size * 2)) (some table.size) y)
        ∙ g in
      let made = rehash-Rehashed (counted table) size p next e b (omega (arith, room)) in
      (
        made.0,
        true_branch (is_loaded table) (rehash (counted table)) (some (counted table)) y ∙ made.1,
        made.2,
      )
  | inr n ↦
      let kept : some table.size ≡ some size =
        sym (false_branch (is_loaded table) (get_next_prime (table.size * 2)) (some table.size) n)
        ∙ g in
      (
        counted table,
        false_branch (is_loaded table) (rehash (counted table)) (some (counted table)) n,
        unchanged table size p (ground (arith, kept)) e b (omega (arith, room)),
      )
]

-- For a table in which each occupied cell is the first stop of the probing for its address: where the
-- number of cells that the insertion works with, the same or that of a larger table, is a prime below 2^31, and at most half of so many cells will be occupied,
-- `EIT_insert` of an entry with an address other than 0 ends without a crash. The entry is found by
-- its address; of each other address, `look_up` finds what some cell of the table had of it, and
-- nothing if none had; and in the new table, too, each occupied cell is the first stop for its
-- address. The old table may be fuller than half where it is enlarged.
pub insert-Placed :
    (table : ExceptionInfoTable)
    → (entry : ExceptionInfo) → (size : ℕ) → Placed table
    → entry.native_pc ≢ 0
    → next_size table ≡ some size
    → is_prime size ≡ true
    → size < 2147483648
    → 2 * suc (occupied_cells table) ≤ size
    → (after : ExceptionInfoTable) × (insert table entry ≡ some after)
      × Roomy after
      × Placed after
      × (look_up after entry.native_pc ≡ some entry)
      × ((q : ℕ) → q ≢ 0 → q ≢ entry.native_pc → look_up after q ≡ contents table q)
unfolding insert
insert-Placed table entry size p ne g e b room =
    let made = prepared table size p g e b room in
    let m = made.2 in
    let w =
      put-Written made.0 entry m.roomy m.placed ne (omega (arith, room, m.no_more, m.size_is)) in
    (
      w.0,
      ap (put_into entry) made.1 ∙ w.1,
      w.2.roomy,
      w.2.placed,
      w.2.own,
      λ q nz nk. w.2.others q nz nk ∙ m.same q nz,
    )
