-- ===== src/ClassHierarchy/Faithful.antt =====
-- The matrix of a loaded state, compared with the class table: the statement that is kept.
use la_tte.Common.{
  ℕ, ◌≤◌, ◌<◌, ◌≡◌, ◌≢◌, ◌↔◌, ◌⊎◌, inl, inr, Bool, true, false, List, ◌==◌, ◌&&◌, ◌||◌, some, In,
  subst, Bool-cases, arith,
}
use la_tte.ClassHierarchy.{Class}
use la_tte.ClassHierarchy.Spec.{Subclass, itself, by_superclass, by_interface, array_rule}

module _ (class : ℕ → Class) (object_class : ℕ) where
  -- The arrays `a` and `b` both have `java.lang.Object` as their element type.
  abbrev pub both_object : ℕ → ℕ → Bool
  both_object a b =
      ((class a).element_type == object_class) && ((class b).element_type == object_class)

  -- What the classes that have been entered have in common; `pos` is the column of a class.
  pub record IsClosed (cs : List ℕ) (pos : ℕ → ℕ) : Type 0 where
    pub superclass :
        (a s : ℕ)
        → In a cs
        → (class a).superclass ≡ some s
        → In s cs × ((class s).is_array ≡ false) × (pos s < pos a)
    pub interface :
        (a i : ℕ)
        → In a cs
        → In i (class a).interfaces
        → In i cs × ((class i).is_array ≡ false) × (pos i < pos a)
    pub element :
        (a : ℕ)
        → In a cs
        → (class a).is_array ≡ true
        → (class (class a).element_type).is_primitive ≡ false
        → In (class a).element_type cs × ((class (class a).element_type).is_array ≡ false)
    pub one_of_a_kind :
        (a b : ℕ)
        → In a cs
        → In b cs
        → (class a).is_array ≡ true
        → (class b).is_array ≡ true
        → (class a).element_type ≡ (class b).element_type
        → (class a).dimension ≡ (class b).dimension
        → a ≡ b

  pub record Agreement (cs : List ℕ) (sub : ℕ → ℕ → Bool) : Type 0 where
    pub plain :
        (a b : ℕ)
        → In a cs
        → In b cs
        → (class b).is_array ≡ false
        → (sub a b ≡ true) ↔ Subclass class a b
    pub no_array :
        (a b : ℕ)
        → In a cs
        → In b cs
        → (class a).is_array ≡ false
        → (class b).is_array ≡ true
        → sub a b ≡ false
    pub same : (a : ℕ) → In a cs → sub a a ≡ true
    pub arrays :
        (a b : ℕ)
        → In a cs
        → In b cs
        → (class a).is_array ≡ true
        → (class b).is_array ≡ true
        → a ≢ b
        → both_object a b ≡ false
        → sub a b ≡ array_rule class object_class sub a b

  -- The ancestors of an entered class are entered, and none is a later one.
  module _ {cs : List ℕ} {pos : ℕ → ℕ} (cl : IsClosed cs pos) where
    pub Subclass-In : {a b : ℕ} → Subclass class a b → In a cs → In b cs
    Subclass-In (itself e) m = subst (λ x. In x cs) e m
    Subclass-In (by_superclass {a} {b} {s} e r) m = Subclass-In r (cl.superclass a s m e).0
    Subclass-In (by_interface {a} {b} {i} n r) m = Subclass-In r (cl.interface a i m n).0

    pub Subclass-le : {a b : ℕ} → Subclass class a b → In a cs → pos b ≤ pos a
    Subclass-le (itself {a} {b} e) m = rw e (omega arith)
    Subclass-le (by_superclass {a} {b} {s} e r) m =
        let h = cl.superclass a s m e in omega (arith, Subclass-le r h.0)
    Subclass-le (by_interface {a} {b} {i} n r) m =
        let h = cl.interface a i m n in omega (arith, Subclass-le r h.0)

  -- The first step of a derivation.
  pub Subclass-cases :
      {a b : ℕ}
      → Subclass class a b
      → (a ≡ b)
        ⊎ ((s : ℕ) × ((class a).superclass ≡ some s) × Subclass class s b)
        ⊎ ((i : ℕ) × In i (class a).interfaces × Subclass class i b)
  Subclass-cases (itself e) = inl e
  Subclass-cases (by_superclass {a} {b} {s} e r) = inr (inl (s, e, r))
  Subclass-cases (by_interface {a} {b} {i} n r) = inr (inr (i, n, r))

  pub array_rule-same :
      (sub sub' : ℕ → ℕ → Bool) (a b : ℕ)
      → ((class (class a).element_type).is_primitive || (class (class b).element_type).is_primitive
            ≡ false
          → sub' (class a).element_type (class b).element_type
            ≡ sub (class a).element_type (class b).element_type)
      → array_rule class object_class sub' a b ≡ array_rule class object_class sub a b
  array_rule-same sub sub' a b h =
      elim (Bool-cases (
        (class (class a).element_type).is_primitive
        || (class (class b).element_type).is_primitive)) [
          | inl p ↦ ground arith
          | inr p ↦ ground (arith, h p)
        ]
