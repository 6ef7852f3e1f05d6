-- ===== src/Common/Tests.antt =====
-- Boolean tests on the native numbers, the conditional, and splits that keep an equation.
use Prim.Native.Nat.{ℕ, zero, suc, ◌<◌, compare, Ordering}
use mathlib.Core.Path.{◌≡◌, refl}
use mathlib.Core.Logic.{◌≢◌, ◌↔◌, ◌⊎◌, inl, inr}
use mathlib.Core.Bool.{Bool, true, false, ◌||◌, ◌&&◌}
use mathlib.Core.Option.{Option, none, some}
use native.Mathlib.Omega.{arith}

abbrev pub ltb : ℕ → ℕ → Bool
ltb a b = elim (compare a b) [ Ordering.lt ↦ true | _ ↦ false ]

abbrev pub leb : ℕ → ℕ → Bool
leb a b = elim (compare a b) [ Ordering.gt ↦ false | _ ↦ true ]

infix 50 ◌==◌
abbrev pub ◌==◌ : ℕ → ℕ → Bool
a == b = elim (compare a b) [ Ordering.eq ↦ true | _ ↦ false ]

infix 1 if◌then◌else◌
abbrev pub if◌then◌else◌ {ℓ} : {A : Type ℓ} → Bool → A → A → A
if true then x else y = x
if false then x else y = y

pub ltb→lt : (a b : ℕ) → ltb a b ≡ true → a < b
ltb→lt a b h = ground arith

pub lt→ltb : (a b : ℕ) → a < b → ltb a b ≡ true
lt→ltb a b h = ground arith

pub ==_iff : (a b : ℕ) → ((a == b) ≡ true) ↔ (a ≡ b)
==_iff a b = ground arith

pub ==_to : (a b : ℕ) → (a == b) ≡ true → a ≡ b
==_to a b t = ground arith

pub ==_self : (a : ℕ) → (a == a) ≡ true
==_self a = ground arith

pub ==_of_ne : (a b : ℕ) → a ≢ b → (a == b) ≡ false
==_of_ne a b h = ground arith

-- To split on a computed value and keep the equation.
pub Bool-cases : (b : Bool) → (b ≡ true) ⊎ (b ≡ false)
Bool-cases true = inl refl
Bool-cases false = inr refl

pub Option-cases {ℓ} : {A : Type ℓ} (o : Option A) → (o ≡ none) ⊎ ((a : A) × (o ≡ some a))
Option-cases none = inl refl
Option-cases (some a) = inr (a, refl)

-- Two tests that pass on the same inputs are equal.
pub Bool-ext : (a b : Bool) → (a ≡ true → b ≡ true) → (b ≡ true → a ≡ true) → a ≡ b
Bool-ext true b f g = ground (arith, f refl)
Bool-ext false true f g = g refl
Bool-ext false false f g = refl

pub ||_elim : (a b : Bool) → (a || b) ≡ true → (a ≡ true) ⊎ (b ≡ true)
||_elim a b h = ground arith

-- A test at every number under a bound, decided by running it.
unfoldable pub always : (ℕ → Bool) → ℕ → Bool
always test zero = true
always test (suc k) = always test k && test k

pub always-at :
    (test : ℕ → Bool) (i bound : ℕ) → i < bound → always test bound ≡ true → test i ≡ true
unfolding always
always-at test i zero h t = elim h [ ]
always-at test i (suc k) h t = ground (arith, always-at test i k)

-- What both branches have, the conditional has.
pub in_either {ℓ κ} :
    {A : Type ℓ} (Holds : A → Type κ) {yes_case no_case : A} (test : Bool)
    → Holds yes_case
    → Holds no_case
    → Holds (if test then yes_case else no_case)
in_either Holds true y n = y
in_either Holds false y n = n

-- What each branch has when it is taken, the conditional has.
pub by_test {ℓ κ} :
    {A : Type ℓ} (Holds : A → Type κ) (test : Bool) (yes_case no_case : A)
    → (test ≡ true → Holds yes_case)
    → (test ≡ false → Holds no_case)
    → Holds (if test then yes_case else no_case)
by_test Holds true a b y n = y refl
by_test Holds false a b y n = n refl

-- A test whose outcome is known
pub true_branch {ℓ} : {A : Type ℓ} → (t : Bool) (a b : A) → t ≡ true → (if t then a else b) ≡ a
true_branch true a b e = refl
true_branch false a b e = absurd (ground arith)

pub false_branch {ℓ} : {A : Type ℓ} → (t : Bool) (a b : A) → t ≡ false → (if t then a else b) ≡ b
false_branch true a b e = absurd (ground arith)
false_branch false a b e = refl
