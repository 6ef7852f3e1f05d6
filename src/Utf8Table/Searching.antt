-- ===== src/Utf8Table/Searching.antt =====
-- The searches of runtime/string.c for the cell of a string.
use la_tte.Common.{
  ℕ, zero, suc, ◌+◌, ◌*◌, ◌/◌, ◌%◌, ◌≤◌, ◌<◌, ◌≡◌, refl, sym, ap, ◌∙◌, Bool, true, false, some,
  List, inl, inr, true_branch, false_branch, arith,
}
use native.Mathlib.Nat.{mod-lt, mod-eq_of_lt, mod-add-mod}
use la_tte.Utf8Table.{
  Cell, free, deleted, constant, Utf8Table, hash_utf8_string, stops, next_index, search_from,
  find_utf8hash,
}
use la_tte.ExceptionTable.Counts.{count, pigeonhole, first_or_none}
use la_tte.ExceptionTable.Residues.{is_prime, is_prime-gt_1, place, place-distinct, square_suc}

abbrev pub is_used : Utf8Table → ℕ → Bool
is_used table c = elim (table.cells c) [ free ↦ false | deleted ↦ true | constant _ ↦ true ]

-- The size is a prime that an `int` has, and at most half of the cells have a string or had one.
pub record Roomy (table : Utf8Table) : Type 0 where
  pub prime : is_prime table.size ≡ true
  pub int_size : table.size < 2147483648
  pub half_free : 2 * count (is_used table) table.size ≤ table.size

abbrev pub place_of : Utf8Table → List ℕ → ℕ → ℕ
place_of table s j = place table.size (hash_utf8_string s) j

abbrev pub stops_at : Utf8Table → List ℕ → ℕ → Bool
stops_at table s j = stops s (table.cells (place_of table s j))

abbrev pub FirstStop : Utf8Table → List ℕ → ℕ → Type 0
FirstStop table s j = (stops_at table s j ≡ true) × ((k : ℕ) → k < j → stops_at table s k ≡ false)

pub next_index-place :
    (p start i : ℕ)
    → 1 < p
    → p < 2147483648
    → suc i ≤ p / 2
    → next_index p i (place p start i) ≡ place p start (suc i)
next_index-place p start i g b h =
    let c = place p start i in
    let cp : c < p = mod-lt (start + i * i) (omega (arith, g)) in
    let wide : (c + (2 * i + 1)) % 4294967296 ≡ c + (2 * i + 1) =
      mod-eq_of_lt (omega (arith, cp, b, h)) in
    let sum : (start + i * i + (2 * i + 1)) ≡ (start + suc i * suc i) =
      omega (arith, square_suc i) in
    ap (λ n. n % p) wide ∙ mod-add-mod (start + i * i) p (2 * i + 1) ∙ ap (λ n. n % p) sum

search_from-first :
    (n fuel : ℕ)
    → (table : Utf8Table) → (s : List ℕ) → (i j : ℕ) → is_prime table.size ≡ true
    → table.size < 2147483648
    → FirstStop table s j
    → i + n ≡ j
    → j ≤ table.size / 2
    → n < fuel
    → search_from fuel table s i (place_of table s i) ≡ some (place_of table s j)
unfolding search_from
search_from-first n zero table s i j e b f u h l = absurd (omega (arith, l))
search_from-first zero (suc fuel) table s i j e b f u h l =
    let same : i ≡ j = omega (arith, u) in
    let at = place_of table s i in
    true_branch (stops s (table.cells at)) (some at)
      (search_from fuel table s (suc i) (next_index table.size i at))
      (ap (stops_at table s) same ∙ f.0)
    ∙ ap (λ k. some (place_of table s k)) same
search_from-first (suc n) (suc fuel) table s i j e b f u h l =
    let at = place_of table s i in
    false_branch (stops s (table.cells at)) (some at)
      (search_from fuel table s (suc i) (next_index table.size i at)) (f.1 i (omega (arith, u)))
    ∙ ap (search_from fuel table s (suc i)) (
        next_index-place table.size (hash_utf8_string s) i (is_prime-gt_1 table.size e) b
          (omega (arith, u, h)))
    ∙ search_from-first n fuel table s (suc i) j e b f (omega (arith, u)) h (omega (arith, l))

pub place_of-start :
    (table : Utf8Table) → (s : List ℕ) → hash_utf8_string s % table.size ≡ place_of table s 0
place_of-start table s =
    ap (λ n. n % table.size)
      (let z : hash_utf8_string s ≡ (hash_utf8_string s + 0 * 0) = omega arith in z)

pub find_utf8hash-first :
    (table : Utf8Table)
    → (s : List ℕ) → (j : ℕ) → is_prime table.size ≡ true
    → table.size < 2147483648
    → FirstStop table s j
    → j ≤ table.size / 2
    → find_utf8hash table s ≡ some (place_of table s j)
unfolding find_utf8hash
find_utf8hash-first table s j e b f h =
    ap (search_from (suc table.size) table s 0) (place_of-start table s)
    ∙ search_from-first j (suc table.size) table s 0 j e b f (omega arith) h (omega (arith, h))

used_of_pass :
    (s : List ℕ)
    → (x : Cell) → stops s x ≡ false
    → (elim x [ free ↦ false | deleted ↦ true | constant _ ↦ true ]) ≡ true
unfolding stops
used_of_pass s free e = sym e
used_of_pass s deleted e = refl
used_of_pass s (constant m) e = refl

pub first_stop :
    (table : Utf8Table)
    → (s : List ℕ) → Roomy table
    → (j : ℕ) × (j ≤ table.size / 2) × FirstStop table s j
first_stop table s r =
    let rounds = suc (table.size / 2) in
    elim (first_or_none (stops_at table s) rounds) [
      | inl f ↦ (f.0, omega (arith, f.1), (f.2, f.3))
      | inr h ↦
          let many : rounds ≤ count (is_used table) table.size =
            pigeonhole rounds (is_used table) (place_of table s) table.size
              (λ i _.
                mod-lt (hash_utf8_string s + i * i)
                  (omega (arith, is_prime-gt_1 table.size r.prime)))
              (λ i l. used_of_pass s (table.cells (place_of table s i)) (h i l))
              (λ i j l u.
                place-distinct table.size (hash_utf8_string s) i j r.prime l (omega (arith, u))) in
          let half = r.half_free in absurd (omega (arith, many, half))
    ]
