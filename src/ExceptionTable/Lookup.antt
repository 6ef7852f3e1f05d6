-- ===== src/ExceptionTable/Lookup.antt =====
-- What `EIT_find` of translator/exception_info.c finds after an entry is written.
use la_tte.Common.{
  refl, ℕ, ◌/◌, ◌≤◌, ◌<◌, ◌≡◌, ◌≢◌, sym, ap, ◌∙◌, true, ◌==◌, Option, some, none, if◌then◌else◌,
  inl, zero, suc, inr, ◌⊎◌, true_branch, false_branch, ==_of_ne, ==_to, Bool-cases, arith,
}
use la_tte.ExceptionTable.{ExceptionInfo, ExceptionInfoTable, stops, Found, cell, find}
use la_tte.ExceptionTable.Counts.{first_or_none}
use la_tte.ExceptionTable.Probing.{Roomy, place_in, FirstStop, find-first, find-ends}

-- The entry of an address, if the cell that `EIT_find` returns has it
abbrev pub entry_at : ExceptionInfoTable → ℕ → Found → Option ExceptionInfo
entry_at table q (cell c) = if (table.info c).native_pc == q then some (table.info c) else none
entry_at table q _ = none

unfoldable pub look_up : ExceptionInfoTable → ℕ → Option ExceptionInfo
look_up table q = entry_at table q (find table q)

-- Each occupied cell is where the loop stops first for its address.
abbrev pub Placed : ExceptionInfoTable → Type 0
Placed table =
    (q c : ℕ)
    → q ≢ 0
    → c < table.size
    → (table.info c).native_pc ≡ q
    → (j : ℕ) × (j ≤ table.size / 2) × FirstStop table q j × (place_in table q j ≡ c)

pub stops_at_own :
    (table : ExceptionInfoTable) → (q c : ℕ) → (table.info c).native_pc ≡ q → stops table q c ≡ true
stops_at_own table q c e = ground (arith, e)

-- The first stop is unique.
pub FirstStop-unique :
    (table : ExceptionInfoTable) → (q i j : ℕ) → FirstStop table q i → FirstStop table q j → i ≡ j
FirstStop-unique table q i j f g = elim (Bool-cases (i == j)) [
  | inl y ↦ ==_to i j y
  | inr n ↦ ground (arith, n, f.0, g.0, f.1 j, g.1 i)
]

pub same_cell :
    (table : ExceptionInfoTable)
    → (q c d : ℕ) → Placed table
    → q ≢ 0
    → c < table.size
    → d < table.size
    → (table.info c).native_pc ≡ q
    → (table.info d).native_pc ≡ q
    → c ≡ d
same_cell table q c d p ne lc ld ec ed =
    let f = p q c ne lc ec in
    let g = p q d ne ld ed in
    sym f.3 ∙ ap (place_in table q) (FirstStop-unique table q f.0 g.0 f.2 g.2) ∙ g.3

pub look_up-at :
    (table : ExceptionInfoTable)
    → (q c : ℕ) → Roomy table
    → Placed table
    → q ≢ 0
    → c < table.size
    → (table.info c).native_pc ≡ q
    → look_up table q ≡ some (table.info c)
unfolding look_up
look_up-at table q c r p ne lc e =
    let f = p q c ne lc e in
    ap (entry_at table q) (find-first table q f.0 r.prime r.int_size ne f.2 f.1 ∙ ap cell f.3)
    ∙ true_branch ((table.info c).native_pc == q) (some (table.info c)) none (ground (arith, e))

pub look_up-absent :
    (table : ExceptionInfoTable)
    → (q : ℕ) → Roomy table
    → q ≢ 0
    → ((c : ℕ) → c < table.size → (table.info c).native_pc ≢ q)
    → look_up table q ≡ none
unfolding look_up
look_up-absent table q r ne h =
    let f = find-ends table q r ne in
    ap (entry_at table q) f.1
    ∙ false_branch ((table.info f.0).native_pc == q) (some (table.info f.0)) none
        (==_of_ne (table.info f.0).native_pc q (h f.0 f.2))

-- The entry of an address, wherever it is in the table: of the first cells, and of all
unfoldable pub contents_below : ℕ → (ℕ → ExceptionInfo) → ℕ → Option ExceptionInfo
contents_below zero info q = none
contents_below (suc n) info q =
    let rest = contents_below n info q in (if (info n).native_pc == q then some (info n) else rest)

abbrev pub contents : ExceptionInfoTable → ℕ → Option ExceptionInfo
contents table q = contents_below table.size table.info q

pub contents_cases :
    (n : ℕ)
    → (info : ℕ → ExceptionInfo) → (q : ℕ)
    → ((c : ℕ) × (c < n) × ((info c).native_pc ≡ q) × (contents_below n info q ≡ some (info c)))
      ⊎ (((c : ℕ) → c < n → (info c).native_pc ≢ q) × (contents_below n info q ≡ none))
unfolding contents_below
contents_cases zero info q = inr (λ c l. absurd (omega (arith, l)), refl)
contents_cases (suc n) info q = elim (Bool-cases ((info n).native_pc == q)) [
  | inl y ↦ inl (
    n,
    omega arith,
    ==_to (info n).native_pc q y,
    true_branch ((info n).native_pc == q) (some (info n)) (contents_below n info q) y,
  )
  | inr d ↦
      let skip =
        false_branch ((info n).native_pc == q) (some (info n)) (contents_below n info q) d in
      elim (contents_cases n info q) [
        | inl f ↦ inl (f.0, omega (arith, f.1), f.2, skip ∙ f.3)
        | inr h ↦ inr (
          λ c l e. elim (Bool-cases (c == n)) [
            | inl y ↦
                absurd (ground (arith, d, sym (ap (λ k. (info k).native_pc) (==_to c n y)) ∙ e))
            | inr u ↦ h.0 c (ground (arith, u, l)) e
          ],
          skip ∙ h.1,
        )
      ]
]

-- Whether some cell has an address
pub held_or_absent :
    (table : ExceptionInfoTable)
    → (q : ℕ)
    → ((c : ℕ) × (c < table.size) × ((table.info c).native_pc ≡ q))
      ⊎ ((c : ℕ) → c < table.size → (table.info c).native_pc ≢ q)
held_or_absent table q = elim (first_or_none (λ c. (table.info c).native_pc == q) table.size) [
  | inl f ↦ inl (f.0, f.1, ==_to (table.info f.0).native_pc q f.2)
  | inr h ↦ inr (λ c l e. absurd (ground (arith, h c l, e)))
]

-- In a table that finds its entries, the search finds what the table has.
pub look_up-contents :
    (table : ExceptionInfoTable)
    → (q : ℕ) → Roomy table
    → Placed table
    → q ≢ 0
    → look_up table q ≡ contents table q
look_up-contents table q r p ne = elim (contents_cases table.size table.info q) [
  | inl c ↦ look_up-at table q c.0 r p ne c.1 c.2 ∙ sym c.3
  | inr h ↦ look_up-absent table q r ne h.0 ∙ sym h.1
]
