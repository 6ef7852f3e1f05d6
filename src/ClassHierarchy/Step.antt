-- ===== src/ClassHierarchy/Step.antt =====
-- Entering one class keeps the agreement of the matrix with the class table. The matrix before and
-- after are any two functions `sub` and `sub'`, so that no word of memory is left here.
use la_tte.Common.{
  ℕ, ◌<◌, ◌≡◌, ◌≢◌, ◌↔◌, refl, sym, ◌∙◌, inr, Bool, true, false, List, ◌∷◌, some, In, In-cons-elim,
  In-cons-elim_pair, arith,
}
use la_tte.ClassHierarchy.{Class}
use la_tte.ClassHierarchy.Spec.{Subclass, itself, array_rule, CanLoad}
use la_tte.ClassHierarchy.Faithful.{IsClosed, Agreement, Subclass-In, array_rule-same, both_object}

module _ {class : ℕ → Class} {object_class : ℕ} {cs : List ℕ} {c : ℕ}
    (can : CanLoad class object_class cs c) where
  module _ {pos pos' : ℕ → ℕ} (cl : IsClosed class object_class cs pos)
      (old_pos : (a : ℕ) → In a cs → pos' a ≡ pos a)
      (new_pos : (a : ℕ) → In a cs → pos' a < pos' c) where
    pub IsClosed-step : IsClosed class object_class (c ∷ cs) pos'
    IsClosed-step = record {
      superclass = λ a s m.
          In-cons-elim c cs
            (λ a.
              (class a).superclass ≡ some s
              → In s (c ∷ cs) × ((class s).is_array ≡ false) × (pos' s < pos' a))
            (λ p. let h = can.superclass s p in (inr h.0, h.1, new_pos s h.0))
            (λ a m p.
              let h = cl.superclass a s m p in
              (inr h.0, h.1, omega (arith, h.2, old_pos a m, old_pos s h.0)))
            a m;
      interface = λ a i m.
          In-cons-elim c cs
            (λ a.
              In i (class a).interfaces
              → In i (c ∷ cs) × ((class i).is_array ≡ false) × (pos' i < pos' a))
            (λ p. let h = can.interface i p in (inr h.0, h.1, new_pos i h.0))
            (λ a m p.
              let h = cl.interface a i m p in
              (inr h.0, h.1, omega (arith, h.2, old_pos a m, old_pos i h.0)))
            a m;
      element = λ a m.
          In-cons-elim c cs
            (λ a.
              (class a).is_array ≡ true
              → (class (class a).element_type).is_primitive ≡ false
              → In (class a).element_type (c ∷ cs)
                × ((class (class a).element_type).is_array ≡ false))
            (λ p q. let h = can.element p q in (inr h.0, h.1))
            (λ a m p q. let h = cl.element a m p q in (inr h.0, h.1)) a m;
      one_of_a_kind =
          In-cons-elim_pair c cs
            (λ a b.
              (class a).is_array ≡ true
              → (class b).is_array ≡ true
              → (class a).element_type ≡ (class b).element_type
              → (class a).dimension ≡ (class b).dimension
              → a ≡ b)
            (λ p q e d. refl) (λ b n p q e d. absurd (can.one_of_a_kind b n p q (sym e) (sym d)))
            (λ a m p q e d. absurd (can.one_of_a_kind a m q p e d))
            (λ a b m n. cl.one_of_a_kind a b m n);
    }

  module _ {pos : ℕ → ℕ} {sub sub' : ℕ → ℕ → Bool} (cl : IsClosed class object_class cs pos)
      (ag : Agreement class object_class cs sub)
      (old_old : (a b : ℕ) → In a cs → In b cs → sub' a b ≡ sub a b) (new_new : sub' c c ≡ true)
      (row_plain : (b : ℕ)
        → In b cs
        → (class b).is_array ≡ false
        → (sub' c b ≡ true) ↔ Subclass class c b)
      (column_plain : (a : ℕ) → In a cs → (class c).is_array ≡ false → sub' a c ≡ false)
      (row_no_array : (b : ℕ)
        → In b cs
        → (class c).is_array ≡ false
        → (class b).is_array ≡ true
        → sub' c b ≡ false)
      (column_no_array : (a : ℕ)
        → In a cs
        → (class a).is_array ≡ false
        → (class c).is_array ≡ true
        → sub' a c ≡ false)
      (row_arrays : (b : ℕ)
        → In b cs
        → (class c).is_array ≡ true
        → (class b).is_array ≡ true
        → both_object class object_class c b ≡ false
        → sub' c b ≡ array_rule class object_class sub c b)
      (column_arrays : (a : ℕ)
        → In a cs
        → (class a).is_array ≡ true
        → (class c).is_array ≡ true
        → both_object class object_class a c ≡ false
        → sub' a c ≡ array_rule class object_class sub a c) where
    element-In :
        (a : ℕ)
        → In a (c ∷ cs)
        → (class a).is_array ≡ true
        → (class (class a).element_type).is_primitive ≡ false
        → In (class a).element_type cs
    element-In =
        In-cons-elim c cs
          (λ a.
            (class a).is_array ≡ true
            → (class (class a).element_type).is_primitive ≡ false
            → In (class a).element_type cs)
          (λ p q. (can.element p q).0) (λ a m p q. (cl.element a m p q).0)

    rule-old :
        (a b : ℕ)
        → In a (c ∷ cs)
        → In b (c ∷ cs)
        → (class a).is_array ≡ true
        → (class b).is_array ≡ true
        → array_rule class object_class sub a b ≡ array_rule class object_class sub' a b
    rule-old a b m n p q = sym (
        array_rule-same class object_class sub sub' a b
          (λ r. old_old _ _ (element-In a m p (ground arith)) (element-In b n q (ground arith))))

    not_below_new : (a : ℕ) → In a cs → ¬ Subclass class a c
    not_below_new a m r = can.fresh (Subclass-In class object_class cl r m)

    pub Agreement-step : Agreement class object_class (c ∷ cs) sub'
    Agreement-step = record {
      plain =
          In-cons-elim_pair c cs
            (λ a b. (class b).is_array ≡ false → (sub' a b ≡ true) ↔ Subclass class a b)
            (λ p. (λ h. itself refl, λ r. new_new)) row_plain
            (λ a m p.
              (λ h. absurd (ground (arith, column_plain a m p)), λ r. absurd (not_below_new a m r)))
            (λ a b m n p. rw (old_old a b m n) (ag.plain a b m n p));
      no_array =
          In-cons-elim_pair c cs
            (λ a b. (class a).is_array ≡ false → (class b).is_array ≡ true → sub' a b ≡ false)
            (λ p q. ground arith) row_no_array column_no_array
            (λ a b m n p q. old_old a b m n ∙ ag.no_array a b m n p q);
      same =
          In-cons-elim c cs (λ a. sub' a a ≡ true) new_new (λ a m. old_old a a m m ∙ ag.same a m);
      arrays = λ a b m n p q ne nb. rules a b m n p q ne nb ∙ rule-old a b m n p q;
    }
      where
        rules :
            (a b : ℕ)
            → In a (c ∷ cs)
            → In b (c ∷ cs)
            → (class a).is_array ≡ true
            → (class b).is_array ≡ true
            → a ≢ b
            → both_object class object_class a b ≡ false
            → sub' a b ≡ array_rule class object_class sub a b
        rules =
            In-cons-elim_pair c cs
              (λ a b.
                (class a).is_array ≡ true
                → (class b).is_array ≡ true
                → a ≢ b
                → both_object class object_class a b ≡ false
                → sub' a b ≡ array_rule class object_class sub a b)
              (λ p q ne nb. absurd (ne refl)) (λ b n p q ne nb. row_arrays b n p q nb)
              (λ a m p q ne nb. column_arrays a m p q nb)
              (λ a b m n p q ne nb. old_old a b m n ∙ ag.arrays a b m n p q ne nb)
