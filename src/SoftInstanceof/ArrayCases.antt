-- ===== src/SoftInstanceof/ArrayCases.antt =====
-- The walk of `instanceof_array`, case by case, compared with the matrix at two array classes.
use la_tte.Common.{
  ℕ, ◌<◌, ◌≡◌, ◌≢◌, sym, ap, ◌∙◌, inl, inr, Bool, true, false, Bool-cases, Bool-ext, not, ◌&&◌,
  ◌||◌, some, List, ◌==◌, ==_iff, ==_of_ne, ==_self, In, subst, arith,
}
use la_tte.ClassHierarchy.{Class, Cit, is_subclass}
use la_tte.ClassHierarchy.Spec.{Subclass, array_rule, Loaded}
use la_tte.ClassHierarchy.Faithful.{Subclass-le}
use la_tte.ClassHierarchy.Inclusion.{
  Loaded-IsClosed, pos_of-lt, is_subclass-iff-Subclass, is_subclass-array_rule, is_subclass_self,
  rows_kept,
}
use la_tte.SoftInstanceof.{instanceof_class, instanceof, instanceof_base}
use la_tte.SoftInstanceof.Walks.{Decides-instanceof_class}
use la_tte.SoftInstanceof.Peeled.{ArraysBuilt}
use la_tte.SoftInstanceof.Bases.{
  base_of_primitive, base_on_array, base_on_primitive, base_of_classes,
}

module _ (class : ℕ → Class) (object_class : ℕ) where
  -- Two different array classes where `b` has element type `java.lang.Object`, and `a` has it as
  -- well, or has a primitive element type and the dimension of `b`.
  abbrev pub special_arrays : ℕ → ℕ → Bool
  special_arrays a b =
      let e = (class a).element_type in
      ((class a).is_array && (class b).is_array)
      && (not (a == b)
          && (((class b).element_type == object_class)
              && ((e == object_class)
                  || (((class a).dimension == (class b).dimension) && (class e).is_primitive))))

module _ {class : ℕ → Class} {object_class : ℕ} {cs : List ℕ} {st : Cit}
    (loaded : Loaded class object_class cs st) (built : ArraysBuilt class object_class)
    (on_top : (a : ℕ) → In a cs → Subclass class a object_class) where
  pub walk-eq-is_subclass :
      (fuel a b : ℕ)
      → In a cs
      → In b cs
      → (class b).is_array ≡ false
      → st.column_idx < fuel
      → instanceof_class class fuel b (some a) ≡ some (is_subclass st a b)
  walk-eq-is_subclass fuel a b m n p h =
      let (d, e, i) =
        Decides-instanceof_class (Loaded-IsClosed loaded) fuel b a m
          (omega (arith, pos_of-lt loaded a m)) in
      let j = is_subclass-iff-Subclass loaded a b m n p in
      e ∙ ap some (Bool-ext d (is_subclass st a b) (λ t. j.1 (i.0 t)) (λ t. i.1 (j.0 t)))

  -- `java.lang.Object` is a subclass of nothing else.
  object_alone :
      (f : ℕ)
      → In object_class cs
      → In f cs
      → (class f).is_array ≡ false
      → f ≢ object_class
      → is_subclass st object_class f ≡ false
  object_alone f m n p ne = elim (Bool-cases (is_subclass st object_class f)) [
    | inl t ↦
        let cl = Loaded-IsClosed loaded in
        let r = (is_subclass-iff-Subclass loaded object_class f m n p).0 t in
        absurd (
          ne (
            (rows_kept loaded f object_class n m).3 (
              omega (
                arith,
                Subclass-le class object_class cl r m,
                Subclass-le class object_class cl (on_top f n) n,
              ))))
    | inr e ↦ e
  ]

  module _ (fuel a b : ℕ) (m : In a cs) (n : In b cs) (p : (class a).is_array ≡ true)
      (q : (class b).is_array ≡ true) (enough : st.column_idx < fuel) where
    element_of_a :
        (class (class a).element_type).is_primitive ≡ false → In (class a).element_type cs
    element_of_a s = ((Loaded-IsClosed loaded).element a m p s).0

    element_of_b :
        (class (class b).element_type).is_primitive ≡ false → In (class b).element_type cs
    element_of_b s = ((Loaded-IsClosed loaded).element b n q s).0

    abbrev Agree : ℕ → ℕ → Type 0
    Agree c' oc' =
        instanceof class object_class fuel b a ≡ instanceof_base class object_class fuel c' oc'
        → instanceof class object_class fuel b a ≡ some (is_subclass st a b)

    pub same_arrays : a ≡ b → Agree (class b).element_type (class a).element_type
    same_arrays e = λ start.
        (start ∙ base)
        ∙ ap some (sym (ap (is_subclass st a) (sym e) ∙ (is_subclass_self loaded a a m m).0))
      where
        base :
            instanceof_base class object_class fuel (class b).element_type (class a).element_type
            ≡ some true
        base = elim (Bool-cases (class (class b).element_type).is_primitive) [
          | inl s ↦
              base_of_primitive class object_class fuel _ _ (built.element b q) s
              ∙ ap some (rw e (==_self (class b).element_type))
          | inr s ↦
              ap
                (λ x.
                  instanceof_base class object_class fuel (class b).element_type
                    (class x).element_type)
                e
              ∙ base_of_classes class object_class fuel _ _ (built.element b q) s
                  (built.element b q) s
              ∙ walk-eq-is_subclass fuel _ _ (element_of_b s) (element_of_b s) (built.element b q)
                  enough
              ∙ ap some (is_subclass_self loaded _ _ (element_of_b s) (element_of_b s)).0
        ]

    module _ (ne : a ≢ b) (usual : special_arrays class object_class a b ≡ false) where
      rule : is_subclass st a b ≡ array_rule class object_class (is_subclass st) a b
      rule =
          is_subclass-array_rule loaded a b m n p q ne
            (ground (arith, ==_of_ne a b ne, p, q, usual))

      different_elements :
          (class a).dimension ≡ (class b).dimension
          → (class b).element_type ≢ (class a).element_type
      different_elements d e = ne ((Loaded-IsClosed loaded).one_of_a_kind a b m n p q (sym e) d)

      level_primitive :
          (class a).dimension ≡ (class b).dimension
          → (class (class b).element_type).is_primitive ≡ true
          → is_subclass st a b ≡ false
      level_primitive d s = rule ∙ elim (Bool-cases ((class b).element_type == object_class)) [
        | inl o ↦ absurd (
            ground (
              arith,
              ap (λ x. (class x).is_primitive) ((==_iff _ _).0 o),
              built.object_no_primitive,
            ))
        | inr o ↦ ground (arith, o, s)
      ]

      level_on_primitive :
          (class a).dimension ≡ (class b).dimension
          → (class (class a).element_type).is_primitive ≡ true
          → is_subclass st a b ≡ false
      level_on_primitive d s = rule ∙ ground (arith, ==_of_ne a b ne, p, q, usual, d, s)

      level_classes :
          (class a).dimension ≡ (class b).dimension
          → (class (class b).element_type).is_primitive ≡ false
          → (class (class a).element_type).is_primitive ≡ false
          → is_subclass st (class a).element_type (class b).element_type ≡ is_subclass st a b
      level_classes d s t = elim (Bool-cases ((class b).element_type == object_class)) [
        | inl o ↦
            ((is_subclass-iff-Subclass loaded _ _ (element_of_a t) (element_of_b s)
                (built.element b q)).1
              (rw ((==_iff (class b).element_type object_class).0 o) (on_top _ (element_of_a t))))
            ∙ sym (rule ∙ ground (arith, o, d))
        | inr o ↦ elim (Bool-cases ((class a).element_type == object_class)) [
          | inl x ↦
              let y = (==_iff (class a).element_type object_class).0 x in
              ap (λ z. is_subclass st z (class b).element_type) y
              ∙ object_alone (class b).element_type (subst (λ z. In z cs) y (element_of_a t))
                  (element_of_b s) (built.element b q) (λ z. absurd (ground arith))
              ∙ sym (rule ∙ ground (arith, o, x))
          | inr x ↦ sym (rule ∙ ground (arith, o, x, d, s, t))
        ]
      ]

      pub deep_unrelated : (class a).dimension < (class b).dimension → is_subclass st a b ≡ false
      deep_unrelated d = rule ∙ ground arith

      shallow_related :
          (class b).dimension < (class a).dimension
          → (((class b).element_type == object_class) ≡ is_subclass st a b)
      shallow_related d = sym (rule ∙ ground arith)

      shallow_primitive :
          (class b).dimension < (class a).dimension
          → (class (class b).element_type).is_primitive ≡ true
          → (oc : ℕ) → (class oc).is_array ≡ true
          → (((class b).element_type == oc) ≡ is_subclass st a b)
      shallow_primitive d s oc r =
          ==_of_ne (class b).element_type oc
            (λ e. absurd (ground (arith, ap (λ x. (class x).is_array) e, built.element b q)))
          ∙ sym (
              sym (shallow_related d)
              ∙ ==_of_ne (class b).element_type object_class (λ e.
                absurd
                  (ground (arith, ap (λ x. (class x).is_primitive) e, built.object_no_primitive))))

      pub level_arrays :
          (class a).dimension ≡ (class b).dimension
          → Agree (class b).element_type (class a).element_type
      level_arrays d = λ start.
          start ∙ elim (Bool-cases (class (class b).element_type).is_primitive) [
            | inl s ↦
                base_of_primitive class object_class fuel _ _ (built.element b q) s
                ∙ ap some (==_of_ne _ _ (different_elements d) ∙ sym (level_primitive d s))
            | inr s ↦ elim (Bool-cases (class (class a).element_type).is_primitive) [
              | inl t ↦
                  base_on_primitive class object_class fuel _ _ (built.element b q) s
                    (built.element a p) t
                  ∙ ap some (sym (level_on_primitive d t))
              | inr t ↦
                  base_of_classes class object_class fuel _ _ (built.element b q) s
                    (built.element a p) t
                  ∙ walk-eq-is_subclass fuel _ _ (element_of_a t) (element_of_b s)
                      (built.element b q) enough
                  ∙ ap some (level_classes d s t)
            ]
          ]

      pub shallow_arrays :
          (oc : ℕ)
          → (class b).dimension < (class a).dimension
          → (class oc).is_array ≡ true
          → Agree (class b).element_type oc
      shallow_arrays oc d r = λ start.
          start ∙ elim (Bool-cases (class (class b).element_type).is_primitive) [
            | inl s ↦
                base_of_primitive class object_class fuel _ oc (built.element b q) s
                ∙ ap some (shallow_primitive d s oc r)
            | inr s ↦
                base_on_array class object_class fuel _ oc (built.element b q) s r
                ∙ ap some (shallow_related d)
          ]
