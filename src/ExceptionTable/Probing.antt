-- ===== src/ExceptionTable/Probing.antt =====
-- The loop of `EIT_find` in translator/exception_info.c ends at the first cell that stops it.
use la_tte.Common.{
  ℕ, zero, suc, ◌+◌, ◌*◌, ◌/◌, ◌%◌, ◌≤◌, ◌<◌, ◌≡◌, ◌≢◌, ap, ◌∙◌, Bool, true, false, not, ◌==◌, ltb,
  if◌then◌else◌, inl, inr, ◌⊎◌, true_branch, false_branch, lt→ltb, ==_of_ne, ==_to, ||_elim, arith,
}
use native.Mathlib.Nat.{mod-lt}
use la_tte.ExceptionTable.{
  ExceptionInfoTable, next_cell, stops, cell, astray, null, probe, hash_val, find,
}
use la_tte.ExceptionTable.Counts.{count, pigeonhole, first_or_none}
use la_tte.ExceptionTable.Residues.{
  is_prime, is_prime-gt_1, place, place-distinct, back_within-place,
}

abbrev pub is_occupied : ExceptionInfoTable → ℕ → Bool
is_occupied table c = not ((table.info c).native_pc == 0)

abbrev pub occupied_cells : ExceptionInfoTable → ℕ
occupied_cells table = count (is_occupied table) table.size

-- The size is a prime that an `int` has, and at most half of the cells are occupied.
pub record Roomy (table : ExceptionInfoTable) : Type 0 where
  pub prime : is_prime table.size ≡ true
  pub int_size : table.size < 2147483648
  pub half_free : 2 * occupied_cells table ≤ table.size

abbrev pub place_in : ExceptionInfoTable → ℕ → ℕ → ℕ
place_in table q i = place table.size q i

-- The loop stops in round `j`, and in no round before.
abbrev pub FirstStop : ExceptionInfoTable → ℕ → ℕ → Type 0
FirstStop table q j =
    (stops table q (place_in table q j) ≡ true)
    × ((k : ℕ) → k < j → stops table q (place_in table q k) ≡ false)

pub place-within :
    (table : ExceptionInfoTable)
    → (q i : ℕ) → is_prime table.size ≡ true
    → place_in table q i < table.size
place-within table q i e = mod-lt (q + i * i) (omega (arith, is_prime-gt_1 table.size e))

probe-stop :
    (fuel : ℕ)
    → (table : ExceptionInfoTable) → (q i c : ℕ) → c < table.size
    → stops table q c ≡ true
    → probe (suc fuel) table q i c ≡ cell c
unfolding probe
probe-stop fuel table q i c l s =
    let rest = probe fuel table q (suc i) (next_cell table.size i c) in
    true_branch (ltb c table.size) (if stops table q c then cell c else rest) astray
      (lt→ltb c table.size l)
    ∙ true_branch (stops table q c) (cell c) rest s

probe-pass :
    (fuel : ℕ)
    → (table : ExceptionInfoTable) → (q i c : ℕ) → c < table.size
    → stops table q c ≡ false
    → probe (suc fuel) table q i c ≡ probe fuel table q (suc i) (next_cell table.size i c)
unfolding probe
probe-pass fuel table q i c l s =
    let rest = probe fuel table q (suc i) (next_cell table.size i c) in
    true_branch (ltb c table.size) (if stops table q c then cell c else rest) astray
      (lt→ltb c table.size l)
    ∙ false_branch (stops table q c) (cell c) rest s

probe-first :
    (n fuel : ℕ)
    → (table : ExceptionInfoTable) → (q i j : ℕ) → is_prime table.size ≡ true
    → table.size < 2147483648
    → FirstStop table q j
    → i + n ≡ j
    → j ≤ table.size / 2
    → n < fuel
    → probe fuel table q i (place_in table q i) ≡ cell (place_in table q j)
unfolding next_cell
probe-first n zero table q i j e b f s h l = absurd (omega (arith, l))
probe-first zero (suc fuel) table q i j e b f s h l =
    let same : i ≡ j = omega (arith, s) in
    let at = place_in table q i in
    probe-stop fuel table q i at (place-within table q i e)
      (ap (λ k. stops table q (place_in table q k)) same ∙ f.0)
    ∙ ap (λ k. cell (place_in table q k)) same
probe-first (suc n) (suc fuel) table q i j e b f s h l =
    let at = place_in table q i in
    probe-pass fuel table q i at (place-within table q i e) (f.1 i (omega (arith, s)))
    ∙ ap (probe fuel table q (suc i))
        (back_within-place table.size q i (is_prime-gt_1 table.size e) b (omega (arith, s, h)))
    ∙ probe-first n fuel table q (suc i) j e b f (omega (arith, s)) h (omega (arith, l))

pub find-first :
    (table : ExceptionInfoTable)
    → (q j : ℕ) → is_prime table.size ≡ true
    → table.size < 2147483648
    → q ≢ 0
    → FirstStop table q j
    → j ≤ table.size / 2
    → find table q ≡ cell (place_in table q j)
unfolding find
find-first table q j e b ne f h =
    let start : q % table.size ≡ place_in table q 0 =
      ap (λ n. n % table.size) (let z : q ≡ (q + 0 * 0) = omega arith in z) in
    false_branch (q == 0) null (probe (suc table.size) table q 0 (hash_val q table.size))
      (==_of_ne q 0 ne)
    ∙ ap (probe (suc table.size) table q 0) start
    ∙ probe-first j (suc table.size) table q 0 j e b f (omega arith) h (omega (arith, h))

occupied_of_pass :
    (table : ExceptionInfoTable) → (q c : ℕ) → stops table q c ≡ false → is_occupied table c ≡ true
occupied_of_pass table q c s = ground (arith, s)

-- With room, the loop stops within half as many rounds as the table has cells.
pub first_stop :
    (table : ExceptionInfoTable)
    → (q : ℕ) → Roomy table
    → (j : ℕ) × (j ≤ table.size / 2) × FirstStop table q j
first_stop table q r =
    let rounds = suc (table.size / 2) in
    elim (first_or_none (λ k. stops table q (place_in table q k)) rounds) [
      | inl f ↦ (f.0, omega (arith, f.1), (f.2, f.3))
      | inr h ↦
          let many : rounds ≤ occupied_cells table =
            pigeonhole rounds (is_occupied table) (place_in table q) table.size
              (λ i _. place-within table q i r.prime)
              (λ i l. occupied_of_pass table q (place_in table q i) (h i l))
              (λ i j l u. place-distinct table.size q i j r.prime l (omega (arith, u))) in
          let half = r.half_free in absurd (omega (arith, many, half))
    ]

-- In a table with a prime number of cells, of which at most half are occupied, `EIT_find` of an
-- address other than 0 ends, reads no cell behind the table, and returns a cell that is free or is
-- that of the address.
pub find-ends :
    (table : ExceptionInfoTable)
    → (q : ℕ) → Roomy table
    → q ≢ 0
    → (c : ℕ) × (find table q ≡ cell c)
      × (c < table.size)
      × (((table.info c).native_pc ≡ 0) ⊎ ((table.info c).native_pc ≡ q))
find-ends table q r ne =
    let f = first_stop table q r in
    let c = place_in table q f.0 in
    (
      c,
      find-first table q f.0 r.prime r.int_size ne f.2 f.1,
      place-within table q f.0 r.prime,
      elim (||_elim ((table.info c).native_pc == 0) ((table.info c).native_pc == q) f.2.0) [
        | inl z ↦ inl (==_to (table.info c).native_pc 0 z)
        | inr y ↦ inr (==_to (table.info c).native_pc q y)
      ],
    )
