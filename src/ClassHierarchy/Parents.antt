-- ===== src/ClassHierarchy/Parents.antt =====
-- The new row and the new column, read as the subclass relation and as the rule for arrays.
use la_tte.Common.{
  ℕ, ◌≡◌, ◌↔◌, refl, sym, ap, inl, inr, true, false, List, [], ◌∷◌, ◌==◌, ==_iff, ◌&&◌, ◌||◌,
  ||_elim, Option, none, some, In, subst, mem, Bool-cases, arith,
}
use la_tte.ClassHierarchy.{Class, Cit, pos_of}
use la_tte.ClassHierarchy.Spec.{Subclass, by_superclass, by_interface, array_rule, CanLoad}
use la_tte.ClassHierarchy.Invariant.{IsValid}
use la_tte.ClassHierarchy.Stores.{bit}
use la_tte.ClassHierarchy.Enter.{super_bit, any_bit}
use la_tte.ClassHierarchy.Arrays.{sub_of, marks_new, marks_old, any_new, any_old}
use la_tte.ClassHierarchy.Load.{parent_row}
use la_tte.ClassHierarchy.Faithful.{IsClosed, Agreement, Subclass-le, Subclass-cases, both_object}

any_bit-elim :
    (st : Cit) (is : List ℕ) (i : ℕ)
    → any_bit st is i ≡ true
    → (d : ℕ) × In d is × (bit st d i ≡ true)
any_bit-elim st [] i h = absurd (ground arith)
any_bit-elim st (d ∷ is) i h = elim (||_elim (bit st d i) (any_bit st is i) h) [
  | inl e ↦ (d, inl refl, e)
  | inr e ↦ let (x, m, b) = any_bit-elim st is i e in (x, inr m, b)
]

any_bit-intro :
    (st : Cit) (is : List ℕ) (i d : ℕ) → In d is → bit st d i ≡ true → any_bit st is i ≡ true
any_bit-intro st [] i d m b = elim m [ ]
any_bit-intro st (x ∷ is) i d (inl e) b = ground (arith, subst (λ y. bit st y i ≡ true) e b)
any_bit-intro st (x ∷ is) i d (inr m) b = ground (arith, any_bit-intro st is i d m b)

super_bit-elim :
    (st : Cit) (o : Option ℕ) (i : ℕ)
    → super_bit st o i ≡ true
    → (s : ℕ) × (o ≡ some s) × (bit st s i ≡ true)
super_bit-elim st none i h = absurd (ground arith)
super_bit-elim st (some s) i h = (s, refl, h)

module _ {class : ℕ → Class} {object_class : ℕ} {cs : List ℕ} (st : Cit)
    (ag : Agreement class object_class cs (sub_of st)) (c : ℕ)
    (can : CanLoad class object_class cs c) where
  -- The superclass's and the interfaces' rows together say what the subclass relation says.
  pub parent_row_iff :
      (b : ℕ)
      → In b cs
      → (class b).is_array ≡ false
      → (parent_row class st c b ≡ true) ↔ Subclass class c b
  parent_row_iff b n p = (
    (λ h. elim (||_elim _ _ h) [
      | inl e ↦
          let (s, q, t) = super_bit-elim st (class c).superclass (pos_of st b) e in
          by_superclass q ((ag.plain s b (can.superclass s q).0 n p).0 t)
      | inr e ↦
          let (d, m, t) = any_bit-elim st (class c).interfaces (pos_of st b) e in
          by_interface m ((ag.plain d b (can.interface d m).0 n p).0 t)
    ]),
    (λ r. elim (Subclass-cases class object_class r) [
      | inl e ↦ absurd (can.fresh (subst (λ x. In x cs) (sym e) n))
      | inr (inl (s, q, t)) ↦
          let h = (ag.plain s b (can.superclass s q).0 n p).1 t in
          let g : super_bit st (class c).superclass (pos_of st b) ≡ true = rw q h in ground arith
      | inr (inr (d, m, t)) ↦
          let h = (ag.plain d b (can.interface d m).0 n p).1 t in
          ground (arith, any_bit-intro st (class c).interfaces (pos_of st b) d m h)
    ]),
  )

  pub super_bit-array :
      (b : ℕ)
      → In b cs
      → (class b).is_array ≡ true
      → super_bit st (class c).superclass (pos_of st b) ≡ false
  super_bit-array b n p = elim (Bool-cases (super_bit st (class c).superclass (pos_of st b))) [
    | inl e ↦
        let (s, q, t) = super_bit-elim st (class c).superclass (pos_of st b) e in
        let h = can.superclass s q in ground (arith, ag.no_array s b h.0 n h.1 p)
    | inr e ↦ e
  ]

  pub parent_row-array :
      (b : ℕ) → In b cs → (class b).is_array ≡ true → parent_row class st c b ≡ false
  parent_row-array b n p = elim (Bool-cases (any_bit st (class c).interfaces (pos_of st b))) [
    | inl e ↦
        let (d, m, t) = any_bit-elim st (class c).interfaces (pos_of st b) e in
        let h = can.interface d m in ground (arith, ag.no_array d b h.0 n h.1 p)
    | inr e ↦ ground (arith, super_bit-array b n p)
  ]

  -- The rounds over `ts`, at the column of `b` and in the row of `a`.
  module _ {size : ℕ} (v : IsValid class size cs st) where
    pub any_new-at :
        (ts : List ℕ) (b : ℕ)
        → ((t : ℕ) → In t ts → In t cs)
        → In b cs
        → any_new class object_class (sub_of st) st c ts (pos_of st b)
          ≡ (mem b ts && marks_new class object_class (sub_of st) c b)
    any_new-at [] b sub n = refl
    any_new-at (t ∷ ts) b sub n = elim (Bool-cases (t == b)) [
      | inl e ↦
          let d : t ≡ b = (==_iff t b).0 e in
          ground (
            arith,
            ap (λ x. marks_new class object_class (sub_of st) c x) d,
            ap (pos_of st) d,
            any_new-at ts b (λ x m. sub x (inr m)) n,
          )
      | inr e ↦ ground (
        arith,
        v.columns_apart t b (sub t (inl refl)) n,
        any_new-at ts b (λ x m. sub x (inr m)) n,
      )
    ]

  pub any_old-at :
      (ts : List ℕ) (a : ℕ)
      → any_old class object_class (sub_of st) c ts a
        ≡ (mem a ts && marks_old class object_class (sub_of st) c a)
  any_old-at [] a = refl
  any_old-at (t ∷ ts) a = elim (Bool-cases (t == a)) [
    | inl e ↦ ground (
      arith,
      ap (λ x. marks_old class object_class (sub_of st) c x) ((==_iff t a).0 e),
      any_old-at ts a,
    )
    | inr e ↦ ground (arith, any_old-at ts a)
  ]

  -- Two element types of one dimension are not subclasses of each other.
  marks-antisym :
      (cl : IsClosed class object_class cs (pos_of st)) (a : ℕ)
      → ((x y : ℕ) → In x cs → In y cs → pos_of st x ≡ pos_of st y → x ≡ y)
      → In a cs
      → (class c).is_array ≡ true
      → (class a).is_array ≡ true
      → (class c).dimension ≡ (class a).dimension
      → (class (class c).element_type).is_primitive || (class (class a).element_type).is_primitive
        ≡ false
      → sub_of st (class a).element_type (class c).element_type ≡ true
      → sub_of st (class c).element_type (class a).element_type ≡ false
  marks-antisym cl a apart m pc pa d np up =
      elim (Bool-cases (sub_of st (class c).element_type (class a).element_type)) [
        | inl down ↦
            let (ec, nc) = can.element pc (ground arith) in
            let (ea, na) = cl.element a m pa (ground arith) in
            let r = (ag.plain _ _ ec ea na).0 down in
            let q = (ag.plain _ _ ea ec nc).0 up in
            let same : (class a).element_type ≡ (class c).element_type = apart _ _ ea ec (
              omega (
                arith,
                Subclass-le class object_class cl r ec,
                Subclass-le class object_class cl q ea,
              )) in
            absurd (can.one_of_a_kind a m pc pa same (sym d))
        | inr apart_below ↦ apart_below
      ]

  pub new-array_rule :
      (b : ℕ)
      → both_object class object_class c b ≡ false
      → marks_new class object_class (sub_of st) c b ≡ array_rule class object_class (sub_of st) c b
  new-array_rule b h = ground arith

  pub old-array_rule :
      (cl : IsClosed class object_class cs (pos_of st)) (a : ℕ)
      → ((x y : ℕ) → In x cs → In y cs → pos_of st x ≡ pos_of st y → x ≡ y)
      → In a cs
      → (class c).is_array ≡ true
      → (class a).is_array ≡ true
      → both_object class object_class a c ≡ false
      → marks_old class object_class (sub_of st) c a ≡ array_rule class object_class (sub_of st) a c
  old-array_rule cl a apart m pc pa h = ground (arith, marks-antisym cl a apart m pc pa)
