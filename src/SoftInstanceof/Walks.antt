-- ===== src/SoftInstanceof/Walks.antt =====
-- The recursive walk of `instanceof_class` comes to an end and decides the subclass relation.
use mathlib.Core.Option.{some-injective}
use la_tte.Common.{
  ℕ, zero, suc, ◌+◌, ◌<◌, ◌≡◌, refl, ◌↔◌, ◌⊎◌, inl, inr, Bool, true, false, Bool-cases, Option,
  some, Option-cases, List, [], ◌∷◌, ◌==◌, ==_iff, In, subst, arith,
}
use la_tte.ClassHierarchy.{Class}
use la_tte.ClassHierarchy.Spec.{Subclass, itself, by_superclass, by_interface}
use la_tte.ClassHierarchy.Faithful.{IsClosed, Subclass-cases}
use la_tte.SoftInstanceof.{or_else, any_interface, instanceof_class}

-- The walk has ended, and its answer decides `P`.
abbrev pub Decides : Option Bool → Type 0 → Type 0
Decides o P = (b : Bool) × (o ≡ some b) × ((b ≡ true) ↔ P)

Decides-iff : {o : Option Bool} {P Q : Type 0} → (P → Q) → (Q → P) → Decides o P → Decides o Q
Decides-iff f g (b, e, h) = (b, e, (λ t. f (h.0 t), λ q. h.1 (g q)))

Decides-or_else :
    {o r : Option Bool} {P Q : Type 0} → Decides o P → Decides r Q → Decides (or_else o r) (P ⊎ Q)
unfolding or_else
Decides-or_else (true, e, h) (d, k, j) = rw e (true, refl, (λ t. inl (h.0 t), λ q. refl))
Decides-or_else (false, e, h) (d, k, j) = rw e (
  d,
  k,
  (λ t. inr (j.0 t), λ q. elim q [ inl p ↦ absurd (ground (arith, h.1 p)) | inr r ↦ j.1 r ]),
)

Decides-any :
    (test : ℕ → Option Bool) (P : ℕ → Type 0) (is : List ℕ)
    → ((i : ℕ) → In i is → Decides (test i) (P i))
    → Decides (any_interface test is) ((i : ℕ) × In i is × P i)
unfolding any_interface
Decides-any test P [] h = (false, refl, (λ t. absurd (ground arith), λ q. absurd q.1))
Decides-any test P (i ∷ is) h =
    Decides-iff (λ q. elim q [ inl p ↦ (i, inl refl, p) | inr r ↦ (r.0, inr r.1, r.2) ])
      (λ q. elim q.1 [ inl e ↦ inl (subst P e q.2) | inr m ↦ inr (q.0, m, q.2) ])
      (Decides-or_else (h i (inl refl)) (Decides-any test P is (λ j m. h j (inr m))))

module _ {class : ℕ → Class} {object_class : ℕ} {cs : List ℕ} {pos : ℕ → ℕ}
    (cl : IsClosed class object_class cs pos) where
  -- Through the superclass, where there is one.
  Above : ℕ → ℕ → Type 0
  Above a c = (s : ℕ) × ((class a).superclass ≡ some s) × Subclass class s c

  pub here :
      (fuel c oc : ℕ) → (oc == c) ≡ true → instanceof_class class (suc fuel) c (some oc) ≡ some true
  unfolding instanceof_class
  here fuel c oc h = ground (arith, h)

  onward :
      (fuel c oc : ℕ)
      → (oc == c) ≡ false
      → instanceof_class class (suc fuel) c (some oc)
        ≡ or_else
            (instanceof_class class fuel c (class oc).superclass)
            (any_interface (λ ic. instanceof_class class fuel c (some ic)) (class oc).interfaces)
  unfolding instanceof_class
  onward fuel c oc h = ground (arith, h)

  above :
      (fuel c oc : ℕ)
      → ((s : ℕ)
          → (class oc).superclass ≡ some s
          → Decides (instanceof_class class (suc fuel) c (some s)) (Subclass class s c))
      → Decides (instanceof_class class (suc fuel) c (class oc).superclass) (Above oc c)
  unfolding instanceof_class Above
  above fuel c oc rec = elim (Option-cases (class oc).superclass) [
    | inl e ↦ rw e (false, refl, (λ t. absurd (ground arith), λ q. absurd (ground (arith, q.1))))
    | inr (s, e) ↦
        rw e (Decides-iff (λ q. (s, refl, q)) (λ q. rw (some-injective s q.0 q.1) q.2) (rec s e))
  ]

  pub Decides-instanceof_class :
      (fuel c oc : ℕ)
      → In oc cs
      → pos oc + 1 < fuel
      → Decides (instanceof_class class fuel c (some oc)) (Subclass class oc c)
  unfolding instanceof_class Above
  Decides-instanceof_class zero c oc m h = absurd (omega arith)
  Decides-instanceof_class (suc zero) c oc m h = absurd (omega arith)
  Decides-instanceof_class (suc (suc fuel)) c oc m h = elim (Bool-cases (oc == c)) [
    | inl e ↦ rw (here (suc fuel) c oc e) (true, refl, (λ t. itself ((==_iff oc c).0 e), λ q. refl))
    | inr ne ↦ rw (onward (suc fuel) c oc ne) (
        Decides-iff (λ q. elim q [ inl a ↦ by_superclass a.1 a.2 | inr i ↦ by_interface i.1 i.2 ])
          (λ q. elim (Subclass-cases class object_class q) [
            | inl e ↦ absurd (ground arith)
            | inr r ↦ r
          ])
          (Decides-or_else
            (above fuel c oc (λ s e.
              let k = cl.superclass oc s m e in
              Decides-instanceof_class (suc fuel) c s k.0 (omega (arith, k.2))))
            (Decides-any (λ ic. instanceof_class class (suc fuel) c (some ic))
              (λ i. Subclass class i c) (class oc).interfaces
              (λ i n.
                let k = cl.interface oc i m n in
                Decides-instanceof_class (suc fuel) c i k.0 (omega (arith, k.2))))))
  ]
