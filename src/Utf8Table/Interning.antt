-- ===== src/Utf8Table/Interning.antt =====
-- Equal strings have one address: `makeUtf8Const` and `finalizeUtf8const` of runtime/string.c.
use la_tte.Common.{
  ℕ, ◌+◌, ◌*◌, ◌/◌, ◌≤◌, ◌<◌, ◌≡◌, ◌≢◌, refl, sym, ap, ◌∙◌, subst, true, false, Option, some, List,
  [], ◌∷◌, ◌==◌, leb, if◌then◌else◌, inl, inr, ◌⊎◌, false_branch, ==_to, ==_self, Bool-cases,
  update, update_self, update_ne, arith,
}
use la_tte.Prime.{get_next_prime}
use la_tte.Utf8Table.{
  Utf8Const, Cell, free, deleted, constant, Utf8Table, same_bytes, stops, with_cell, new_or_old,
  make_at, make_in, prepare, rehash_to, make_utf8_const,
}
use la_tte.ExceptionTable.Residues.{is_prime}
use la_tte.Utf8Table.Searching.{Roomy, place_of, FirstStop, first_stop, find_utf8hash-first}

pub same_bytes_self : (s : List ℕ) → same_bytes s s ≡ true
unfolding same_bytes
same_bytes_self [] = refl
same_bytes_self (a ∷ s) = ground (arith, same_bytes_self s, ==_self a)

pub same_bytes_to : (s t : List ℕ) → same_bytes s t ≡ true → s ≡ t
unfolding same_bytes
same_bytes_to [] [] e = refl
same_bytes_to [] (_ ∷ _) e = absurd (ground (arith, e))
same_bytes_to (_ ∷ _) [] e = absurd (ground (arith, e))
same_bytes_to (a ∷ s) (b ∷ t) e =
    let head : a ≡ b = ground (arith, e) in
    let tail : same_bytes s t ≡ true = ground (arith, e) in
    ap (λ n. n ∷ s) head ∙ ap (λ l. b ∷ l) (same_bytes_to s t tail)

-- The search for a string stops first at the cell that has this constant.
abbrev pub Interned : Utf8Table → List ℕ → Utf8Const → Type 0
Interned table s m =
    (j : ℕ) × (j ≤ table.size / 2)
    × FirstStop table s j
    × (table.cells (place_of table s j) ≡ constant m)

goal_or_not : (goal c : ℕ) → (goal ≡ c) ⊎ (goal ≢ c)
goal_or_not goal c = elim (Bool-cases (goal == c)) [
  | inl y ↦ inl (==_to goal c y)
  | inr n ↦ inr (λ e. absurd (ground (arith, n, e)))
]

-- What a write keeps of a search that does not stop at the cell before: it does not stop there
-- afterwards, and the constant that was found is still.
pub kept-Interned :
    (table : Utf8Table)
    → (count goal : ℕ) → (x : Cell) → (s : List ℕ) → (m : Utf8Const) → Interned table s m
    → (table.cells goal ≢ constant m)
    → (stops s (table.cells goal) ≡ false → stops s x ≡ false)
    → Interned (with_cell table count goal x) s m
kept-Interned table count goal x s m i ne h =
    let at = place_of table s i.0 in
    let cell_kept : update table.cells goal x at ≡ table.cells at =
      update_ne table.cells goal at x (λ e. ne (ap table.cells e ∙ i.3)) in
    (
      i.0,
      i.1,
      (
        ap (stops s) cell_kept ∙ i.2.0,
        λ k l. elim (goal_or_not goal (place_of table s k)) [
          | inl e ↦
              ap (λ c. stops s (update table.cells goal x c)) (sym e)
              ∙ ap (stops s) (update_self table.cells goal x)
              ∙ h (ap (λ c. stops s (table.cells c)) e ∙ i.2.1 k l)
          | inr n ↦ ap (stops s) (update_ne table.cells goal (place_of table s k) x n) ∙ i.2.1 k l
        ],
      ),
      cell_kept ∙ i.3,
    )

-- What a call of `makeUtf8Const` gives
abbrev pub Makes : Utf8Table → List ℕ → Option (Utf8Const × Utf8Table) → Type 0
Makes table s result =
    (m : Utf8Const) × (after : Utf8Table) × (result ≡ some (m, after))
    × (m.bytes ≡ s)
    × Interned after s m
    × ((t : List ℕ) → (n : Utf8Const) → Interned table t n → Interned after t n)

free-not_constant : (x : Cell) → (m : Utf8Const) → x ≡ free → x ≢ constant m
free-not_constant x m e f = ground (arith, e, f)

make_at-Makes :
    (table : Utf8Table)
    → (s : List ℕ) → (address j : ℕ) → j ≤ table.size / 2
    → FirstStop table s j
    → (x : Cell) → table.cells (place_of table s j) ≡ x
    → Makes table s (new_or_old table s address (place_of table s j) x)
unfolding stops
make_at-Makes table s address j h f free e =
    let goal = place_of table s j in
    let m : Utf8Const = record { address = address; bytes = s } in
    let after = with_cell table (table.count + 1) goal (constant m) in
    let at_goal : after.cells goal ≡ constant m = update_self table.cells goal (constant m) in
    let own : Interned after s m = (
      j,
      h,
      (
        ap (stops s) at_goal ∙ same_bytes_self s,
        λ k l.
            ap (stops s) (
              update_ne table.cells goal (place_of table s k) (constant m)
                (λ u. absurd (ground (arith, f.0, f.1 k l, ap (λ c. stops s (table.cells c)) u))))
            ∙ f.1 k l,
      ),
      at_goal,
    ) in
    (
      m,
      after,
      refl,
      refl,
      own,
      λ t n i.
          kept-Interned table (table.count + 1) goal (constant m) t n i
            (free-not_constant (table.cells goal) n e)
            (λ u. absurd (ground (arith, u, ap (stops t) e))),
    )
make_at-Makes table s address j h f deleted e = absurd (ground (arith, f.0, ap (stops s) e))
make_at-Makes table s address j h f (constant m) e =
    (m, table, refl, same_bytes_to m.bytes s (sym (ap (stops s) e) ∙ f.0), (j, h, f, e), λ t n i. i)

-- In a table with a prime number of cells, of which at most half have a string or had one, and that
-- is not to be enlarged, `makeUtf8Const` ends. It returns a constant with the bytes that it is given,
-- which a later search finds, and each constant that was found before is still found.
pub make_utf8_const-Makes :
    (table : Utf8Table)
    → (s : List ℕ) → (address : ℕ) → Roomy table
    → leb (2 * table.size) (3 * table.count) ≡ false
    → Makes table s (make_utf8_const table s address)
unfolding make_utf8_const prepare
make_utf8_const-Makes table s address r few =
    let f = first_stop table s r in
    let same : make_in s address (prepare table)
        ≡ make_at table s address (some (place_of table s f.0)) =
      ap (make_in s address) (
        false_branch (leb (2 * table.size) (3 * table.count))
          (if table.size == 0
            then some (record { size = 1021; count = table.count; cells = λ _. free })
            else rehash_to table (get_next_prime (table.size * 2)))
          (some table) few)
      ∙ ap (make_at table s address) (find_utf8hash-first table s f.0 r.prime r.int_size f.2 f.1) in
    subst (Makes table s) (sym same)
      (make_at-Makes table s address f.0 f.1 f.2 (table.cells (place_of table s f.0)) refl)

-- In a table with a prime number of cells below 2^31 that `makeUtf8Const` is not to enlarge, that is,
-- whose load is below two thirds: a string for which the search finds a constant is given that
-- constant, and the table is kept.
pub make_utf8_const-Interned :
    (table : Utf8Table)
    → (s : List ℕ) → (m : Utf8Const) → (address : ℕ) → is_prime table.size ≡ true
    → table.size < 2147483648
    → Interned table s m
    → leb (2 * table.size) (3 * table.count) ≡ false
    → make_utf8_const table s address ≡ some (m, table)
unfolding make_utf8_const prepare
make_utf8_const-Interned table s m address e b i few =
    ap (make_in s address) (
      false_branch (leb (2 * table.size) (3 * table.count))
        (if table.size == 0
          then some (record { size = 1021; count = table.count; cells = λ _. free })
          else rehash_to table (get_next_prime (table.size * 2)))
        (some table) few)
    ∙ ap (make_at table s address) (find_utf8hash-first table s i.0 e b i.2 i.1)
    ∙ ap (new_or_old table s address (place_of table s i.0)) i.3
