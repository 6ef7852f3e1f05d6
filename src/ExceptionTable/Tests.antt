-- ===== src/ExceptionTable/Tests.antt =====
-- A table of seven cells with two entries that start at the same cell; one of 61 cells whose squares
-- are occupied; and one of seven that is loaded.
use la_tte.Common.{
  ltb, ℕ, ◌+◌, ◌*◌, ◌%◌, Bool-cases, ◌⊎◌, false_branch, true_branch, ◌≡◌, ◌≢◌, ◌<◌, refl, sym, ap,
  ◌∙◌, true, false, some, if◌then◌else◌, ◌==◌, always, arith, inl, inr,
}
use la_tte.ExceptionTable.Rehash.{Rehashed, rehash-Rehashed}
use la_tte.ExceptionTable.Inserting.{insert-Placed}
use la_tte.ExceptionTable.{
  stops, ExceptionInfo, ExceptionInfoTable, no_info, find, probe, next_cell, cell, astray, insert,
  rehash, next_size,
}
use la_tte.Prime.{get_next_prime, halve, choose, chosen}
use la_tte.ExceptionTable.Counts.{count}
use la_tte.ExceptionTable.Residues.{is_prime}
use la_tte.ExceptionTable.Probing.{Roomy, place_in, find-ends}
use la_tte.ExceptionTable.Lookup.{Placed, look_up, contents, stops_at_own}

abbrev entry_of : ℕ → ExceptionInfo
entry_of pc = record { native_pc = pc; bytecode_pc = pc + 1000; var_map = 0; method_instance = 1 }

abbrev two_entries : ExceptionInfoTable
two_entries = record {
  size = 7;
  num_of_infos = 5;
  info = λ c. if c == 3 then entry_of 10 else if c == 4 then entry_of 17 else no_info;
}

second_round : find two_entries 17 ≡ cell 4
unfolding find probe next_cell
second_round = refl

two_entries-Roomy : Roomy two_entries
unfolding is_prime always count
two_entries-Roomy = record { prime = refl; int_size = omega arith; half_free = omega arith }

-- The 31 squares are full; the search for an address that starts at cell 0 leaves the table.
abbrev full_squares : ExceptionInfoTable
full_squares = record {
  size = 61;
  num_of_infos = 31;
  info = λ c.
      if always (λ i. if (i * i) % 61 == c then false else true) 31
      then no_info
      else entry_of (c + 61);
}

runs_behind : find full_squares 122 ≡ astray
unfolding find probe next_cell always
runs_behind = refl

find-ends_example :
    (c : ℕ) × (find two_entries 24 ≡ cell c)
    × (c < two_entries.size)
    × (((two_entries.info c).native_pc ≡ 0) ⊎ ((two_entries.info c).native_pc ≡ 24))
find-ends_example = find-ends two_entries 24 two_entries-Roomy (λ e. absurd (omega (arith, e)))

-- Five of seven cells are occupied, which is more than half and makes the table loaded.
abbrev five_entries : ExceptionInfoTable
five_entries = record {
  size = 7;
  num_of_infos = 5;
  info = λ c. if ltb c 5 then entry_of (c + 7) else no_info;
}

five_entries-Placed : Placed five_entries
five_entries-Placed q c nz l e = elim (Bool-cases (ltb c 5)) [
  | inl y ↦
      let own : q ≡ c + 7 =
        sym e
        ∙ ap (λ (x : ExceptionInfo). x.native_pc)
            (true_branch (ltb c 5) (entry_of (c + 7)) no_info y) in
      let at : place_in five_entries q 0 ≡ c = omega (arith, own, l) in
      (
        0,
        omega arith,
        (
          ap (stops five_entries q) at ∙ stops_at_own five_entries q c e,
          λ k u. absurd (omega (arith, u)),
        ),
        at,
      )
  | inr n ↦ absurd (
      nz (
        sym e
        ∙ ap (λ (x : ExceptionInfo). x.native_pc)
            (false_branch (ltb c 5) (entry_of (c + 7)) no_info n)))
]

rehash-Rehashed_example :
    (after : ExceptionInfoTable) × (rehash five_entries ≡ some after)
    × Rehashed five_entries 13 after
unfolding count is_prime always get_next_prime halve choose chosen
rehash-Rehashed_example =
    rehash-Rehashed five_entries 13 five_entries-Placed refl refl (omega arith) (omega arith)

insert-Placed_example :
    (after : ExceptionInfoTable) × (insert five_entries (entry_of 24) ≡ some after)
    × Roomy after
    × Placed after
    × (look_up after 24 ≡ some (entry_of 24))
    × ((q : ℕ) → q ≢ 0 → q ≢ 24 → look_up after q ≡ contents five_entries q)
unfolding next_size count is_prime always get_next_prime halve choose chosen
insert-Placed_example =
    insert-Placed five_entries (entry_of 24) 13 five_entries-Placed (λ e. absurd (omega (arith, e)))
      refl refl (omega arith) (omega arith)
