-- ===== src/ExceptionTable/Residues.antt =====
-- The squares that quadratic probing adds, as remainders of a prime.
use la_tte.Common.{
  ℕ, suc, ◌+◌, ◌-◌, ◌*◌, ◌/◌, ◌%◌, ◌≤◌, ◌<◌, ◌≡◌, ◌≢◌, sym, ap, ◌∙◌, Bool, true, not, ◌&&◌, ◌||◌,
  ◌==◌, ltb, leb, always, always-at, inl, inr, ◌⊎◌, by_test, arith,
}
use la_tte.ExceptionTable.{back_within}
use native.Mathlib.Nat.{
  mod-lt, mod-eq_of_lt, mod-eq-sub-mod, mod-add-mod, div-add-mod, mul-sub, mul-mod_right,
}

-- The size is at least 2, and of two numbers under it whose product it divides one is 0.
unfoldable pub is_prime : ℕ → Bool
unfolding always
is_prime p =
    ltb 1 p && always (λ a. always (λ b. not (a * b % p == 0) || ((a == 0) || (b == 0))) p) p

pub is_prime-gt_1 : (p : ℕ) → is_prime p ≡ true → 1 < p
unfolding is_prime
is_prime-gt_1 p e = ground (arith, e)

pub is_prime-divides :
    (p a b : ℕ) → is_prime p ≡ true → a < p → b < p → a * b % p ≡ 0 → (a ≡ 0) ⊎ (b ≡ 0)
unfolding is_prime
is_prime-divides p a b e la lb d =
    let all : always (λ a. always (λ b. not (a * b % p == 0) || ((a == 0) || (b == 0))) p) p
        ≡ true =
      ground (arith, e) in
    let one =
      always-at (λ b. not (a * b % p == 0) || ((a == 0) || (b == 0))) b p lb
        (always-at (λ a. always (λ b. not (a * b % p == 0) || ((a == 0) || (b == 0))) p) a p la
          all) in
    ground (arith, one, d)

-- Numbers with the same remainder differ by a multiple.
difference-multiple : (p x d : ℕ) → x % p ≡ (x + d) % p → d % p ≡ 0
difference-multiple p x d e =
    let a = div-add-mod x p in
    let b = div-add-mod (x + d) p in
    let eq : d ≡ p * ((x + d) / p) - p * (x / p) = omega (arith, a, b, e) in
    ap (λ n. n % p) (eq ∙ sym (mul-sub p ((x + d) / p) (x / p)))
    ∙ mul-mod_right p ((x + d) / p - x / p)

-- The cell of a round, where `start` is the first
abbrev pub place : ℕ → ℕ → ℕ → ℕ
place p start i = (start + i * i) % p

pub square_suc : (i : ℕ) → suc i * suc i ≡ i * i + (2 * i + 1)
square_suc i = omega arith

square_gap : (i d : ℕ) → (i + d) * (i + d) ≡ i * i + d * (i + (i + d))
square_gap i d = omega arith

-- In the first half of the rounds, the cells are distinct.
pub place-distinct :
    (p start i j : ℕ) → is_prime p ≡ true → i < j → j ≤ p / 2 → place p start i ≢ place p start j
place-distinct p start i j e l h same =
    let d : ℕ = j - i in
    let gap : start + j * j ≡ start + i * i + d * (i + (i + d)) =
      (let back : j ≡ i + d = omega (arith, l) in
        omega (arith, ap (λ n. n * n) back, square_gap i d)) in
    let z =
      difference-multiple p (start + i * i) (d * (i + (i + d))) (same ∙ ap (λ n. n % p) gap) in
    elim (is_prime-divides p d (i + (i + d)) e (omega (arith, l, h)) (omega (arith, l, h)) z) [
      | inl y ↦ omega (arith, y, l)
      | inr y ↦ omega (arith, y, l)
    ]

-- A round goes from the cell of its number to that of the next.
pub back_within-place :
    (p start i : ℕ)
    → 1 < p
    → p < 2147483648
    → suc i ≤ p / 2
    → back_within p ((place p start i + (2 * i + 1)) % 4294967296) ≡ place p start (suc i)
back_within-place p start i g b h =
    let c = place p start i in
    let s = c + (2 * i + 1) in
    let cp : c < p = mod-lt (start + i * i) (omega (arith, g)) in
    let wide : s % 4294967296 ≡ s = mod-eq_of_lt (omega (arith, cp, b, h)) in
    let sum : (start + i * i + (2 * i + 1)) ≡ (start + suc i * suc i) =
      omega (arith, square_suc i) in
    let goal : s % p ≡ place p start (suc i) =
      mod-add-mod (start + i * i) p (2 * i + 1) ∙ ap (λ n. n % p) sum in
    ap (back_within p) wide
    ∙ by_test (λ n. n ≡ s % p) (leb p s) (s - p) s
        (λ y.
          let ps : p ≤ s = ground (arith, y) in
          sym (mod-eq-sub-mod ps ∙ mod-eq_of_lt (omega (arith, cp, h, ps))))
        (λ n. sym (mod-eq_of_lt (ground (arith, n))))
    ∙ goal
