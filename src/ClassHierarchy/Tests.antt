-- ===== src/ClassHierarchy/Tests.antt =====
-- A small class table, the order in which its classes are entered, and the theorems at it.
use mathlib.Core.Option.{some-injective}
use la_tte.Common.{
  ℕ, ◌≤◌, ◌<◌, ◌*◌, ◌≡◌, ◌≢◌, ◌↔◌, refl, sym, ap, ◌∙◌, subst, Bool, true, false, Option, none, some,
  List, [], ◌∷◌, In, In-cons-elim, not, ◌&&◌, ◌==◌, inl, inr, get_or, length, arith,
}
use la_tte.ClassHierarchy.{Class, Cit, init, is_subclass, update_class_hierarchy, row_of, pos_of}
use la_tte.ClassHierarchy.Spec.{Subclass, array_rule, CanLoad, Loaded, start, load}
use la_tte.ClassHierarchy.Inclusion.{
  is_subclass-iff-Subclass, is_subclass-array_rule, rows_kept, is_subclass-stable,
}

abbrev plain : Option ℕ → List ℕ → Class
plain s is = record {
  superclass = s;
  interfaces = is;
  is_array = false;
  is_primitive = false;
  has_vtable = true;
  component_type = 0;
  element_type = 0;
  dimension = 0;
}

abbrev array_of : ℕ → ℕ → ℕ → Class
array_of component element dim = record {
  superclass = some 0;
  interfaces = [];
  is_array = true;
  is_primitive = false;
  has_vtable = true;
  component_type = component;
  element_type = element;
  dimension = dim;
}

abbrev pub primitive : Class
primitive = record {
  superclass = none;
  interfaces = [];
  is_array = false;
  is_primitive = true;
  has_vtable = false;
  component_type = 0;
  element_type = 0;
  dimension = 0;
}

-- 0 Object, 1 an interface, 2 a class that implements it, 3 a subclass of that, 4 int,
-- 5 Object[], 6 Object[][], 7 int[], 8 and 9 the arrays of 2 and 3.
abbrev pub rows : List Class
rows =
    plain none []
    ∷ plain (some 0) []
    ∷ plain (some 0) (1 ∷ [])
    ∷ plain (some 2) []
    ∷ primitive
    ∷ array_of 0 0 1
    ∷ array_of 5 0 2
    ∷ array_of 4 4 1
    ∷ array_of 2 2 1
    ∷ array_of 3 3 1
    ∷ []

abbrev pub table : ℕ → Class
table c = get_or rows c primitive

abbrev pub enter : ℕ → Cit → Cit
enter c st = update_class_hierarchy table 0 c st

abbrev after_three : Cit
after_three = enter 3 (enter 2 (enter 1 (enter 0 init)))

can_0 : CanLoad table 0 [] 0
can_0 = record {
  fresh = λ m. m;
  superclass = λ s e. absurd (ground arith);
  interface = λ i m. absurd m;
  array_interfaces = λ p. refl;
  element = λ p q. absurd (ground arith);
  one_of_a_kind = λ t m p q e d. absurd m;
}

module _ (cs : List ℕ) (c s : ℕ) (is : List ℕ) (here : table c ≡ plain (some s) is) where
  can_plain :
      ¬ In c cs
      → In s cs × ((table s).is_array ≡ false)
      → ((i : ℕ) → In i is → In i cs × ((table i).is_array ≡ false))
      → CanLoad table 0 cs c
  can_plain fresh sup ifs =
      let no_array : (table c).is_array ≡ false = ap (λ (k : Class). k.is_array) here in
      record {
        fresh = fresh;
        superclass = λ t e.
            subst (λ x. In x cs × ((table x).is_array ≡ false))
              (some-injective _ _ (sym (ap (λ (k : Class). k.superclass) here) ∙ e)) sup;
        interface = λ i m. ifs i (subst (In i) (ap (λ (k : Class). k.interfaces) here) m);
        array_interfaces = λ p. absurd (ground arith);
        element = λ p q. absurd (ground arith);
        one_of_a_kind = λ t m p q e d. absurd (ground arith);
      }

module _ (cs : List ℕ) (c component e dim : ℕ) (here : table c ≡ array_of component e dim) where
  pub can_array :
      ¬ In c cs
      → In 0 cs
      → ((table e).is_primitive ≡ false → In e cs × ((table e).is_array ≡ false))
      → ((t : ℕ)
          → In t cs
          → (table t).is_array ≡ true
          → (table t).element_type ≡ e
          → (table t).dimension ≢ dim)
      → CanLoad table 0 cs c
  can_array fresh object elem others =
      let elem_here : (table c).element_type ≡ e = ap (λ (k : Class). k.element_type) here in
      let dim_here : (table c).dimension ≡ dim = ap (λ (k : Class). k.dimension) here in
      record {
        fresh = fresh;
        superclass = λ t h.
            subst (λ x. In x cs × ((table x).is_array ≡ false))
              (some-injective _ _ (sym (ap (λ (k : Class). k.superclass) here) ∙ h)) (object, refl);
        interface = λ i m. absurd (subst (In i) (ap (λ (k : Class). k.interfaces) here) m);
        array_interfaces = λ p. ap (λ (k : Class). k.interfaces) here;
        element = λ p q.
            subst (λ x. In x cs × ((table x).is_array ≡ false)) (sym elem_here)
              (elem (subst (λ x. (table x).is_primitive ≡ false) elem_here q));
        one_of_a_kind = λ t m p q h d. others t m q (h ∙ elem_here) (d ∙ dim_here);
      }

-- No array class of the list has this element type and dimension.
abbrev pub no_clash : ℕ → ℕ → List ℕ → Bool
no_clash e dim [] = true
no_clash e dim (t ∷ ts) =
    not ((table t).is_array && ((table t).element_type == e && (table t).dimension == dim))
    && no_clash e dim ts

pub no_clash_sound :
    (e dim : ℕ) (ts : List ℕ)
    → no_clash e dim ts ≡ true
    → (t : ℕ) → In t ts
    → (table t).is_array ≡ true
    → (table t).element_type ≡ e
    → (table t).dimension ≢ dim
no_clash_sound e dim [] h t m = elim m [ ]
no_clash_sound e dim (x ∷ ts) h t m =
    In-cons-elim x ts
      (λ t. (table t).is_array ≡ true → (table t).element_type ≡ e → (table t).dimension ≢ dim)
      (λ p q d. ground arith) (λ t m. no_clash_sound e dim ts (ground arith) t m) t m

abbrev four : List ℕ
four = 3 ∷ 2 ∷ 1 ∷ 0 ∷ []

Loaded-four : Loaded table 0 four after_three
Loaded-four =
    load
      (load
        (load (load start can_0)
          (can_plain _ 1 0 [] refl (λ m. omega arith) (inl refl, refl) (λ i m. absurd m)))
        (can_plain _ 2 0 (1 ∷ []) refl (λ m. omega arith) (inr (inl refl), refl)
          (λ i m. elim m [ inl e ↦ rw e (inl refl, refl) | inr z ↦ absurd z ])))
      (can_plain _ 3 2 [] refl (λ m. omega arith) (inl refl, refl) (λ i m. absurd m))

-- The arrays of 2 and of 3, and `Object[]`.
abbrev pub six : List ℕ
six = 5 ∷ 9 ∷ 8 ∷ four

abbrev pub after_six : Cit
after_six = enter 5 (enter 9 (enter 8 after_three))

pub Loaded-six : Loaded table 0 six after_six
Loaded-six =
    load
      (load
        (load Loaded-four (
          can_array four 8 2 2 1 refl (λ m. omega arith) (inr (inr (inr (inl refl))))
            (λ p. (inr (inl refl), refl)) (no_clash_sound 2 1 four refl)))
        (can_array (8 ∷ four) 9 3 3 1 refl (λ m. omega arith) (inr (inr (inr (inr (inl refl)))))
          (λ p. (inr (inl refl), refl)) (no_clash_sound 3 1 (8 ∷ four) refl)))
      (can_array (9 ∷ 8 ∷ four) 5 0 0 1 refl (λ m. omega arith)
        (inr (inr (inr (inr (inr (inl refl))))))
        (λ p. (inr (inr (inr (inr (inr (inl refl))))), refl))
        (no_clash_sound 0 1 (9 ∷ 8 ∷ four) refl))

pub can_6 : CanLoad table 0 six 6
can_6 =
    can_array six 6 5 0 2 refl (λ m. omega arith) (inr (inr (inr (inr (inr (inr (inl refl)))))))
      (λ p. (inr (inr (inr (inr (inr (inr (inl refl)))))), refl)) (no_clash_sound 0 2 six refl)

is_subclass-iff-Subclass_example : (is_subclass after_three 3 1 ≡ true) ↔ Subclass table 3 1
is_subclass-iff-Subclass_example =
    is_subclass-iff-Subclass Loaded-four 3 1 (inl refl) (inr (inr (inl refl))) refl

is_subclass-array_rule_example :
    is_subclass after_six 9 8 ≡ array_rule table 0 (is_subclass after_six) 9 8
is_subclass-array_rule_example =
    is_subclass-array_rule Loaded-six 9 8 (inr (inl refl)) (inr (inr (inl refl))) refl refl
      (λ e. omega arith) refl

rows_kept_example :
    (after_six.bitvec_size ≤ length (row_of after_six 9))
    × (pos_of after_six 3 < 32 * length (row_of after_six 9))
    × ((after_six.type_rep 9).row ≡ (after_six.type_rep 3).row → ◌≡◌ {A = ℕ} 9 3)
    × (pos_of after_six 9 ≡ pos_of after_six 3 → ◌≡◌ {A = ℕ} 9 3)
    × ((table 9).has_vtable ≡ true → after_six.vtable_row 9 ≡ (after_six.type_rep 9).row)
rows_kept_example = rows_kept Loaded-six 9 3 (inr (inl refl)) (inr (inr (inr (inl refl))))

is_subclass-stable_example : is_subclass (enter 6 after_six) 9 8 ≡ is_subclass after_six 9 8
is_subclass-stable_example =
    is_subclass-stable Loaded-six can_6 9 8 (inr (inl refl)) (inr (inr (inl refl)))
