-- ===== src/Utf8Table/Tests.antt =====
-- A table of seven cells, in which a string was deleted and another was made; hashing.
use la_tte.Common.{
  ℕ, ◌-◌, ◌<◌, ◌≡◌, ◌≢◌, refl, ap, false, some, none, List, [], ◌∷◌, if◌then◌else◌, ◌==◌, always,
  arith,
}
use la_tte.Utf8Table.{
  Utf8Const, free, deleted, constant, Utf8Table, hash_utf8_string, hash_from, same_bytes, stops,
  make_utf8_const, finalize_utf8_const, prepare, move_last,
}
use la_tte.Prime.{get_next_prime, halve, choose, chosen}
use la_tte.ExceptionTable.Counts.{count}
use la_tte.ExceptionTable.Residues.{is_prime}
use la_tte.Utf8Table.Searching.{Roomy, place_of, stops_at}
use la_tte.Utf8Table.Interning.{Interned, Makes, make_utf8_const-Makes, make_utf8_const-Interned}
use la_tte.Utf8Table.Deleting.{finalize_utf8_const_lem}

-- 37 + 2 is 4 modulo 7, and so is 4.
abbrev made : Utf8Const
made = record { address = 64; bytes = 1 ∷ 2 ∷ [] }

abbrev after_deletion : Utf8Table
after_deletion = record {
  size = 7;
  count = 1;
  cells = λ c. if c == 4 then deleted else if c == 5 then constant made else free;
}

hash_of_high_byte : hash_utf8_string (200 ∷ []) ≡ 4294967240
unfolding hash_from
hash_of_high_byte = refl

after_deletion-Roomy : Roomy after_deletion
unfolding is_prime always count
after_deletion-Roomy = record { prime = refl; int_size = omega arith; half_free = omega arith }

passes_deleted : (k : ℕ) → k < 1 → stops_at after_deletion (1 ∷ 2 ∷ []) k ≡ false
unfolding stops hash_from
passes_deleted k l = let z : k ≡ 0 = omega (arith, l) in ap (stops_at after_deletion (1 ∷ 2 ∷ [])) z

made-Interned : Interned after_deletion (1 ∷ 2 ∷ []) made
unfolding stops same_bytes hash_from
made-Interned = (1, omega arith, (refl, passes_deleted), refl)

-- A table that is to be enlarged after a deletion: the deleted cell's pointer is read.
abbrev loaded : Utf8Table
loaded = record { size = 7; count = 5; cells = λ c. if c == 0 then deleted else free }

enlarging_crashes : prepare loaded ≡ none
unfolding prepare move_last get_next_prime halve choose chosen
enlarging_crashes = refl

make_utf8_const-Makes_example :
    Makes after_deletion (4 ∷ []) (make_utf8_const after_deletion (4 ∷ []) 128)
make_utf8_const-Makes_example =
    make_utf8_const-Makes after_deletion (4 ∷ []) 128 after_deletion-Roomy refl

make_utf8_const-Interned_example :
    make_utf8_const after_deletion (1 ∷ 2 ∷ []) 128 ≡ some (made, after_deletion)
unfolding is_prime always
make_utf8_const-Interned_example =
    make_utf8_const-Interned after_deletion (1 ∷ 2 ∷ []) made 128 refl (omega arith) made-Interned
      refl

finalize_utf8_const_lem_example :
    (after : Utf8Table) × (finalize_utf8_const after_deletion made ≡ some after)
    × (after.count ≡ 1 - 1)
    × (after.cells (place_of after_deletion (1 ∷ 2 ∷ []) made-Interned.0) ≡ deleted)
    × ((t : List ℕ)
        → (n : Utf8Const) → n.bytes ≢ (1 ∷ 2 ∷ [])
        → Interned after_deletion t n
        → Interned after t n)
unfolding is_prime always
finalize_utf8_const_lem_example =
    finalize_utf8_const_lem after_deletion made refl (omega arith) made-Interned
