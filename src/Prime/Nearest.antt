-- ===== src/Prime/Nearest.antt =====
-- What `get_next_prime` of runtime/prime.h returns for values within its table.
use la_tte.Common.{
  subst, sym, ℕ, zero, suc, ◌+◌, ◌-◌, ◌/◌, ◌≤◌, ◌<◌, ◌≡◌, refl, ap, ◌||◌, Option, some, ltb, leb,
  if◌then◌else◌, always, always-at, Bool-cases, inl, inr, ◌⊎◌, by_test, arith,
}
use la_tte.Prime.{
  num_of_primes, prime_at, Left, exact, between, halve, difference, near_above, near_below, choose,
  chosen, get_next_prime,
}

-- One of the primes of the table, the leading 0 left out
abbrev pub IsEntry : ℕ → Type 0
IsEntry p = (i : ℕ) × (1 ≤ i) × (i < num_of_primes) × (prime_at i ≡ p)

low_entries : (m : ℕ) → m ≤ 2 → prime_at m ≤ prime_at 2
unfolding always
low_entries m h =
    ground (arith, always-at (λ i. leb (prime_at i) (prime_at 2)) m 3 (omega (arith, h)) refl)

high_entries : (m : ℕ) → 19 ≤ m → m ≤ 20 → prime_at 19 ≤ prime_at m
unfolding always
high_entries m l h = ground (
  arith,
  l,
  always-at (λ i. ltb i 19 || leb (prime_at 19) (prime_at i)) m 21 (omega (arith, h)) refl,
)

abbrev pub distance : ℕ → ℕ → ℕ
distance a b = a - b + (b - a)

-- No entry of the table is nearer to the value.
abbrev pub IsNearest : ℕ → ℕ → Type 0
IsNearest val p = (i : ℕ) → 1 ≤ i → i < num_of_primes → distance val p ≤ distance val (prime_at i)

sorted_entries : (i j : ℕ) → i ≤ j → j < num_of_primes → prime_at i ≤ prime_at j
unfolding always
sorted_entries i j h l = ground (
  arith,
  h,
  always-at (λ a. ltb j a || leb (prime_at a) (prime_at j)) i 22 (omega (arith, h, l))
      (always-at (λ b. always (λ a. ltb b a || leb (prime_at a) (prime_at b)) 22) j 22 l refl),
)

-- The nearer of the two entries around a value is the nearest.
nearer-IsNearest :
    (val p high : ℕ)
    → high + 1 < num_of_primes
    → prime_at high < val
    → val < prime_at (high + 1)
    → distance val p ≤ distance val (prime_at high)
    → distance val p ≤ distance val (prime_at (high + 1))
    → IsNearest val p
nearer-IsNearest val p high r b a db da i l h = elim (Bool-cases (leb i high)) [
  | inl y ↦
      let le : i ≤ high = ground (arith, y) in
      omega (arith, b, db, sorted_entries i high le (omega (arith, r)))
  | inr n ↦
      let ge : high + 1 ≤ i = ground (arith, n) in
      omega (arith, a, da, sorted_entries (high + 1) i ge h)
]

-- What is chosen behind the loop: the value lies between the entries at `high` and after it, and
-- `mid` is one of the two.
abbrev Chosen : ℕ → ℕ → Type 0
Chosen val p = IsEntry p × IsNearest val p

near_above-Chosen :
    (val high : ℕ)
    → 2 ≤ high
    → high ≤ 18
    → prime_at high < val
    → val < prime_at (high + 1)
    → Chosen val (near_above val (high + 1))
near_above-Chosen val high h2 h18 b a =
    let same : high + 1 - 1 ≡ high = omega arith in
    let low : prime_at (high + 1 - 1) ≡ prime_at high = ap prime_at same in
    by_test (Chosen val)
      (ltb (difference val (prime_at (high + 1 - 1))) (difference (prime_at (high + 1)) val))
      (prime_at (high + 1 - 1)) (prime_at (high + 1))
      (λ y. (
        (high + 1 - 1, omega (arith, h2), omega (arith, h18), refl),
        nearer-IsNearest val (prime_at (high + 1 - 1)) high (omega (arith, h18)) b a
            (omega (arith, low)) (ground (arith, y, low, b, a)),
      ))
      (λ n. (
        (high + 1, omega arith, omega (arith, h18), refl),
        nearer-IsNearest val (prime_at (high + 1)) high (omega (arith, h18)) b a
            (ground (arith, n, low, b, a)) (omega arith),
      ))

near_below-Chosen :
    (val high : ℕ)
    → 2 ≤ high
    → high ≤ 18
    → prime_at high < val
    → val < prime_at (high + 1)
    → Chosen val (near_below val high)
near_below-Chosen val high h2 h18 b a =
    by_test (Chosen val)
      (leb (difference (prime_at (high + 1)) val) (difference val (prime_at high)))
      (prime_at (high + 1)) (prime_at high)
      (λ y. (
        (high + 1, omega arith, omega (arith, h18), refl),
        nearer-IsNearest val (prime_at (high + 1)) high (omega (arith, h18)) b a
            (ground (arith, y, b, a)) (omega arith),
      ))
      (λ n. (
        (high, omega (arith, h2), omega (arith, h18), refl),
        nearer-IsNearest val (prime_at high) high (omega (arith, h18)) b a (omega arith)
            (ground (arith, n, b, a)),
      ))

between-Chosen :
    (val low high mid : ℕ)
    → 2 ≤ high
    → low ≤ 19
    → low ≡ high + 1
    → (mid ≡ high) ⊎ (mid ≡ high + 1)
    → prime_at high < val
    → val < prime_at (high + 1)
    → Chosen val (choose val (between low high mid))
unfolding choose
between-Chosen val low high mid h2 l19 lh m b a =
    by_test (Chosen val) (leb high 1 || leb (num_of_primes - 2) low) (difference val 1)
      (if ltb val (prime_at mid) then near_above val mid else near_below val mid)
      (λ y. absurd (ground (arith, y, h2, l19)))
      (λ _.
        by_test (Chosen val) (ltb val (prime_at mid)) (near_above val mid) (near_below val mid)
          (λ y. elim m [
            | inl e ↦ absurd (ground (arith, y, b, ap prime_at e))
            | inr e ↦
                subst (λ k. Chosen val (near_above val k)) (sym e)
                  (near_above-Chosen val high h2 (omega (arith, l19, lh)) b a)
          ])
          (λ n. elim m [
            | inl e ↦
                subst (λ k. Chosen val (near_below val k)) (sym e)
                  (near_below-Chosen val high h2 (omega (arith, l19, lh)) b a)
            | inr e ↦ absurd (ground (arith, n, a, ap prime_at e))
          ]))

-- What the loop is left with
abbrev EndsChosen : ℕ → Option Left → Type 0
EndsChosen val o = (l : Left) × (o ≡ some l) × Chosen val (choose val l)

at_exact :
    (val m : ℕ)
    → 1 ≤ m
    → m < num_of_primes
    → val ≡ prime_at m
    → EndsChosen val (some (exact (prime_at m)))
unfolding choose
at_exact val m l h e = (exact (prime_at m), refl, ((m, l, h, refl), λ i _ _. omega (arith, e)))

above_stops : (high m : ℕ) → m ≤ high → (m + 1 ≤ high) ⊎ ((m ≡ high) ⊎ (m ≡ high + 1))
above_stops high m h = elim (Bool-cases (leb (m + 1) high)) [
  | inl y ↦ inl (ground (arith, y))
  | inr n ↦ inr (inl (ground (arith, n, h)))
]

halve-EndsChosen :
    (fuel val low high mid : ℕ)
    → prime_at 2 ≤ val
    → val ≤ prime_at 19
    → 1 ≤ low
    → 2 ≤ high
    → low ≤ 19
    → high ≤ 20
    → (low ≤ high) ⊎ ((mid ≡ high) ⊎ (mid ≡ high + 1))
    → low ≤ high + 1
    → high + 1 < low + fuel
    → prime_at (low - 1) < val
    → val < prime_at (high + 1)
    → EndsChosen val (halve fuel val low high mid)
unfolding halve
halve-EndsChosen zero val low high mid v2 v19 l1 h2 l19 h20 i g f b a = absurd (omega (arith, f, g))
halve-EndsChosen (suc fuel) val low high mid v2 v19 l1 h2 l19 h20 i g f b a =
    let m : ℕ = (low + high) / 2 in
    let below = halve fuel val low (m - 1) m in
    let above = halve fuel val (m + 1) high m in
    let at = some (exact (prime_at m)) in
    by_test (EndsChosen val) (leb low high)
      (if ltb val (prime_at m) then below else (if ltb (prime_at m) val then above else at))
      (some (between low high mid))
      (λ y.
        let lh : low ≤ high = ground (arith, y) in
        by_test (EndsChosen val) (ltb val (prime_at m)) below
          (if ltb (prime_at m) val then above else at)
          (λ t.
            let far : 2 < m = ground (arith, t, v2, low_entries m) in
            let back : m - 1 + 1 ≡ m = omega (arith, far) in
            let under : val < prime_at m = ground (arith, t) in
            halve-EndsChosen fuel val low (m - 1) m v2 v19 l1 (omega (arith, far)) l19
              (omega (arith, lh, h20)) (inr (inr (sym back))) (omega (arith, lh, far))
              (omega (arith, f, lh, far)) b (subst (λ k. val < prime_at k) (sym back) under))
          (λ u.
            by_test (EndsChosen val) (ltb (prime_at m) val) above at
              (λ t.
                let near : m < 19 = ground (arith, t, v19, lh, h20, high_entries m) in
                let over : prime_at m < val = ground (arith, t) in
                let back : m ≡ m + 1 - 1 = omega arith in
                halve-EndsChosen fuel val (m + 1) high m v2 v19 (omega arith) h2
                  (omega (arith, near)) h20 (above_stops high m (omega (arith, lh)))
                  (omega (arith, lh)) (omega (arith, f, lh))
                  (subst (λ k. prime_at k < val) back over) a)
              (λ w.
                at_exact val m (omega (arith, l1, lh)) (omega (arith, lh, h20))
                  (ground (arith, u, w)))))
      (λ n.
        let last : low ≡ high + 1 = ground (arith, n, g) in
        let ends : (mid ≡ high) ⊎ (mid ≡ high + 1) = elim i [
          | inl x ↦ absurd (ground (arith, n, x))
          | inr x ↦ x
        ] in
        let back : low - 1 ≡ high = omega (arith, last) in
        (
          between low high mid,
          refl,
          between-Chosen val low high mid h2 l19 last ends (subst (λ k. prime_at k < val) back b) a,
        ))

-- For a value from 251 to 33554393, `get_next_prime` ends and returns an entry of the table other
-- than its leading 0, and no entry but that 0 is nearer to the value.
pub get_next_prime-IsNearest :
    (val : ℕ)
    → prime_at 2 ≤ val
    → val ≤ prime_at 19
    → (p : ℕ) × (get_next_prime val ≡ some p) × IsEntry p × IsNearest val p
unfolding get_next_prime chosen choose
get_next_prime-IsNearest val v2 v19 =
    let l =
      halve-EndsChosen num_of_primes val 1 (num_of_primes - 2) 0 v2 v19 (omega arith) (omega arith)
        (omega arith) (omega arith) (inl (omega arith)) (omega arith) (omega arith)
        (omega (arith, v2)) (omega (arith, v19)) in
    (choose val l.0, ap (chosen val) l.1, l.2.0, l.2.1)
