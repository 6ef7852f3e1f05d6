-- ===== src/ExceptionTable/Counts.antt =====
-- How many numbers under a bound pass a test, and the pigeonhole principle for it.
use la_tte.Common.{
  ℕ, zero, suc, ◌≤◌, ◌<◌, ◌≡◌, ◌≢◌, refl, sym, subst, ap, ◌∙◌, Bool, true, false, ◌==◌, ==_to,
  ==_of_ne, if◌then◌else◌, Bool-cases, inl, inr, ◌⊎◌, true_branch, false_branch, arith,
}

unfoldable pub count : (ℕ → Bool) → ℕ → ℕ
count test zero = 0
count test (suc n) = let rest = count test n in (if test n then suc rest else rest)

abbrev pub without : (ℕ → Bool) → ℕ → ℕ → Bool
without test k j = if k == j then false else test j

pub count_mono :
    (test wider : ℕ → Bool)
    → (n : ℕ) → ((j : ℕ) → j < n → test j ≡ true → wider j ≡ true)
    → count test n ≤ count wider n
unfolding count
count_mono test wider zero h = omega arith
count_mono test wider (suc n) h =
    let ih = count_mono test wider n (λ j l. h j (omega (arith, l))) in ground (arith, ih, h n)

pub count_same :
    (test other : ℕ → Bool)
    → (n : ℕ) → ((j : ℕ) → j < n → test j ≡ other j)
    → count test n ≡ count other n
unfolding count
count_same test other zero h = refl
count_same test other (suc n) h =
    let ih = count_same test other n (λ j l. h j (omega (arith, l))) in
    ground (arith, ih, h n (omega arith))

pub count-more : (test : ℕ → Bool) → (m n : ℕ) → m ≤ n → count test m ≤ count test n
unfolding count
count-more test m zero h =
    let e : m ≡ 0 = omega (arith, h) in subst (λ k. count test k ≤ 0) (sym e) (omega arith)
count-more test m (suc n) h = elim (Bool-cases (m == suc n)) [
  | inl y ↦ subst (λ k. count test k ≤ count test (suc n)) (sym (==_to m (suc n) y)) (omega arith)
  | inr d ↦ let ih = count-more test m n (ground (arith, d, h)) in ground (arith, ih)
]

pub count-passed :
    (test : ℕ → Bool) → (n : ℕ) → test n ≡ true → count test (suc n) ≡ suc (count test n)
unfolding count
count-passed test n e = true_branch (test n) (suc (count test n)) (count test n) e

-- One number that passes is left out.
pub count-without :
    (test : ℕ → Bool)
    → (k n : ℕ) → k < n
    → test k ≡ true
    → suc (count (without test k) n) ≡ count test n
unfolding count
count-without test k zero h t = absurd (omega (arith, h))
count-without test k (suc n) h t = elim (Bool-cases (k == n)) [
  | inl y ↦
      let e = ==_to k n y in
      let same = count_same (without test k) test n (λ j l.
        false_branch (k == j) false (test j)
          (==_of_ne k j (λ kj. absurd (omega (arith, l, kj, e))))) in
      let tn : test n ≡ true = ap test (sym e) ∙ t in ground (arith, same, tn, y)
  | inr d ↦ let ih = count-without test k n (ground (arith, d, h)) t in ground (arith, ih, d)
]

-- Distinct numbers under a bound that pass a test are at most as many as the numbers that pass.
pub pigeonhole :
    (m : ℕ)
    → (test : ℕ → Bool) → (place : ℕ → ℕ) → (n : ℕ) → ((i : ℕ) → i < m → place i < n)
    → ((i : ℕ) → i < m → test (place i) ≡ true)
    → ((i j : ℕ) → i < j → j < m → place i ≢ place j)
    → m ≤ count test n
unfolding count
pigeonhole zero test place n b t d = omega arith
pigeonhole (suc m) test place n b t d =
    let k = place m in
    let still : (i : ℕ) → i < m → without test k (place i) ≡ true = λ i l.
      false_branch (k == place i) false (test (place i))
        (==_of_ne k (place i) (λ e. d i m l (omega arith) (sym e)))
      ∙ t i (omega (arith, l)) in
    let ih =
      pigeonhole m (without test k) place n (λ i l. b i (omega (arith, l))) still
        (λ i j l h. d i j l (omega (arith, h))) in
    omega (arith, ih, count-without test k n (b m (omega arith)) (t m (omega arith)))

-- The first number under a bound that passes, if there is one
pub first_or_none :
    (test : ℕ → Bool)
    → (n : ℕ)
    → ((j : ℕ) × (j < n) × (test j ≡ true) × ((i : ℕ) → i < j → test i ≡ false))
      ⊎ ((i : ℕ) → i < n → test i ≡ false)
first_or_none test zero = inr (λ i l. absurd (omega (arith, l)))
first_or_none test (suc n) = elim (first_or_none test n) [
  | inl f ↦ inl (f.0, omega (arith, f.1), f.2, f.3)
  | inr h ↦ elim (Bool-cases (test n)) [
    | inl y ↦ inl (n, omega arith, y, h)
    | inr d ↦ inr (λ i l. elim (Bool-cases (i == n)) [
      | inl e ↦ ap test (==_to i n e) ∙ d
      | inr u ↦ h i (ground (arith, u, l))
    ])
  ]
]
