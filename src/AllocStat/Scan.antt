-- ===== src/AllocStat/Scan.antt =====
-- The loops of the searches: what they return, and that they miss nothing.
use la_tte.Common.{
  ℕ, zero, suc, ◌+◌, ◌*◌, ◌<◌, ◌≡◌, ◌⊎◌, inl, inr, Bool, true, false, Bool-cases, subst, Option,
  none, some, arith,
}
use la_tte.AllocStat.{scan, before}

-- The location has the property, and where there is none, no location has it.
abbrev pub Finds : Option ℕ → (ℕ → Type 0) → Type 0
Finds none P = (x : ℕ) → ¬ P x
Finds (some r) P = P r

pub Finds-iff :
    (P Q : ℕ → Type 0) (o : Option ℕ)
    → ((x : ℕ) → P x → Q x)
    → ((x : ℕ) → Q x → P x)
    → Finds o P
    → Finds o Q
Finds-iff P Q none f g h = λ x q. h x (g x q)
Finds-iff P Q (some r) f g h = f r h

pub Finds-before :
    (P Q : ℕ → Type 0) (o rest : Option ℕ)
    → Finds o P
    → Finds rest Q
    → Finds (before o rest) (λ x. P x ⊎ Q x)
unfolding before
Finds-before P Q none none h k = λ x d. elim d [ inl p ↦ h x p | inr q ↦ k x q ]
Finds-before P Q none (some r) h k = inr k
Finds-before P Q (some r) rest h k = inl h

-- `x` is the location of some round, and passes.
abbrev pub Visited : (ℕ → Bool) → ℕ → ℕ → ℕ → ℕ → Type 0
Visited test rounds r step x = (k : ℕ) × (k < rounds) × (x ≡ r + k * step) × (test x ≡ true)

pub scan-Finds :
    (test : ℕ → Bool) (rounds r step : ℕ)
    → Finds (scan test rounds r step) (Visited test rounds r step)
unfolding scan
scan-Finds test zero r step = λ x (k, lt, e, t). absurd (omega arith)
scan-Finds test (suc rounds) r step = elim (Bool-cases (test r)) [
  | inl t ↦ rw t (zero, omega arith, omega arith, t)
  | inr f ↦ rw f (
      Finds-iff (Visited test rounds (r + step) step) (Visited test (suc rounds) r step)
        (scan test rounds (r + step) step) (λ x (k, lt, e, t). (suc k, omega arith, omega arith, t))
        (λ x (k, lt, e, t). later x k lt e t f) (scan-Finds test rounds (r + step) step))
]
  where
    later :
        (x k : ℕ)
        → k < suc rounds
        → x ≡ r + k * step
        → test x ≡ true
        → test r ≡ false
        → Visited test rounds (r + step) step x
    later x zero lt e t f = absurd (ground (arith, subst (λ y. test y ≡ true) e t))
    later x (suc k) lt e t f = (k, omega arith, omega arith, t)
