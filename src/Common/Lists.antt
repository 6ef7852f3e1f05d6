-- ===== src/Common/Lists.antt =====
-- Lists measured and indexed by native numbers, under the library's names.
use Prim.Native.Nat.{ℕ, zero, suc, ◌+◌, ◌≤◌, ◌<◌}
use mathlib.Core.Path.{◌≡◌, refl, sym, ap, subst}
use mathlib.Core.Logic.{◌↔◌, ◌⊎◌, inl, inr}
use mathlib.Core.Bool.{Bool, true, false, ◌||◌}
use mathlib.Core.List.{List, [], ◌∷◌, ◌++◌}
use native.Mathlib.Omega.{arith}
use la_tte.Common.Tests.{◌==◌, ==_iff, ||_elim, if◌then◌else◌}

module _ {ℓ} {A : Type ℓ} where
  abbrev pub length : List A → ℕ
  length [] = 0
  length (_ ∷ xs) = suc (length xs)

  -- A read out of range gives the default.
  abbrev pub get_or : List A → ℕ → A → A
  get_or [] _ d = d
  get_or (x ∷ _) zero _ = x
  get_or (_ ∷ xs) (suc i) d = get_or xs i d

  -- A write out of range changes nothing.
  abbrev pub set : List A → ℕ → A → List A
  set [] _ _ = []
  set (_ ∷ xs) zero v = v ∷ xs
  set (x ∷ xs) (suc i) v = x ∷ set xs i v

  abbrev pub replicate : ℕ → A → List A
  replicate zero a = []
  replicate (suc n) a = a ∷ replicate n a

module _ {ℓ} {A : Type ℓ} where
  pub length-set : (xs : List A) (i : ℕ) (v : A) → length (set xs i v) ≡ length xs
  length-set [] i v = refl
  length-set (x ∷ xs) zero v = refl
  length-set (x ∷ xs) (suc i) v = ap suc (length-set xs i v)

  pub get_or-set :
      (xs : List A) (i j : ℕ) (v d : A)
      → i < length xs
      → get_or (set xs i v) j d ≡ (if i == j then v else get_or xs j d)
  get_or-set [] i j v d h = absurd (omega arith)
  get_or-set (x ∷ xs) zero zero v d h = refl
  get_or-set (x ∷ xs) zero (suc j) v d h = ground arith
  get_or-set (x ∷ xs) (suc i) zero v d h = ground arith
  get_or-set (x ∷ xs) (suc i) (suc j) v d h = ground (arith, get_or-set xs i j v d)

  pub get_or-past : (xs : List A) (i : ℕ) (d : A) → length xs ≤ i → get_or xs i d ≡ d
  get_or-past [] i d h = refl
  get_or-past (x ∷ xs) zero d h = absurd (omega arith)
  get_or-past (x ∷ xs) (suc i) d h = get_or-past xs i d (omega arith)

  pub length-replicate : (n : ℕ) (a : A) → length (replicate n a) ≡ n
  length-replicate zero a = refl
  length-replicate (suc n) a = ap suc (length-replicate n a)

  pub get_or-replicate : (n i : ℕ) (a : A) → get_or (replicate n a) i a ≡ a
  get_or-replicate zero i a = refl
  get_or-replicate (suc n) zero a = refl
  get_or-replicate (suc n) (suc i) a = get_or-replicate n i a

  pub length-append : (xs ys : List A) → length (xs ++ ys) ≡ length xs + length ys
  length-append [] ys = omega arith
  length-append (x ∷ xs) ys = omega (arith, length-append xs ys)

-- Membership of a number in a list, by recursion.
abbrev pub In : ℕ → List ℕ → Type 0
In a [] = ⊥
In a (x ∷ xs) = (a ≡ x) ⊎ In a xs

abbrev pub All {ℓ κ} : {A : Type ℓ} → (A → Type κ) → List A → Type κ
All P [] = Unit
All P (x ∷ xs) = P x × All P xs

pub All-In : (P : ℕ → Type 0) (xs : List ℕ) → All P xs → (a : ℕ) → In a xs → P a
All-In P [] h a m = absurd m
All-In P (x ∷ xs) h a (inl e) = subst P (sym e) h.0
All-In P (x ∷ xs) h a (inr m) = All-In P xs h.1 a m

pub In-append : (a : ℕ) (xs ys : List ℕ) → In a (xs ++ ys) → In a xs ⊎ In a ys
In-append a [] ys m = inr m
In-append a (x ∷ xs) ys (inl e) = inl (inl e)
In-append a (x ∷ xs) ys (inr m) = elim (In-append a xs ys m) [ inl h ↦ inl (inr h) | inr h ↦ inr h ]

-- A property of the head and of every member of the tail; the same for two members.
module _ {ℓ} (c : ℕ) (xs : List ℕ) where
  pub In-cons-elim :
      (P : ℕ → Type ℓ) → P c → ((a : ℕ) → In a xs → P a) → (a : ℕ) → In a (c ∷ xs) → P a
  In-cons-elim P p f a (inl e) = subst P (sym e) p
  In-cons-elim P p f a (inr m) = f a m

  pub In-cons-elim_pair :
      (P : ℕ → ℕ → Type ℓ)
      → P c c
      → ((b : ℕ) → In b xs → P c b)
      → ((a : ℕ) → In a xs → P a c)
      → ((a b : ℕ) → In a xs → In b xs → P a b)
      → (a b : ℕ) → In a (c ∷ xs)
      → In b (c ∷ xs)
      → P a b
  In-cons-elim_pair P cc cb ac ab a b m n =
      In-cons-elim (λ x. P x b) (In-cons-elim (P c) cc cb b n)
        (λ x k. In-cons-elim (P x) (ac x k) (λ y l. ab x y k l) b n) a m

abbrev pub mem : ℕ → List ℕ → Bool
mem a [] = false
mem a (x ∷ xs) = (x == a) || mem a xs

pub mem_iff : (a : ℕ) (xs : List ℕ) → (mem a xs ≡ true) ↔ In a xs
mem_iff a [] = (λ h. absurd (ground arith), λ m. absurd m)
mem_iff a (x ∷ xs) = (
  (λ h. elim (||_elim (x == a) (mem a xs) h) [
    | inl e ↦ inl (sym ((==_iff x a).0 e))
    | inr m ↦ inr ((mem_iff a xs).0 m)
  ]),
  (λ n. elim n [
    | inl e ↦ ground (arith, (==_iff x a).1 (sym e))
    | inr m ↦ ground (arith, (mem_iff a xs).1 m)
  ]),
)

pub In-append_left : (a : ℕ) (xs ys : List ℕ) → In a xs → In a (xs ++ ys)
In-append_left a [] ys m = absurd m
In-append_left a (x ∷ xs) ys (inl e) = inl e
In-append_left a (x ∷ xs) ys (inr m) = inr (In-append_left a xs ys m)

pub In-append_right : (a : ℕ) (xs ys : List ℕ) → In a ys → In a (xs ++ ys)
In-append_right a [] ys m = m
In-append_right a (x ∷ xs) ys m = inr (In-append_right a xs ys m)
