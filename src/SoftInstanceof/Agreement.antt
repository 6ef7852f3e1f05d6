-- ===== src/SoftInstanceof/Agreement.antt =====
-- The type tests of runtime/soft.c and of translated code give the same answers, and where they do
-- not.
use la_tte.Common.{
  ℕ, zero, suc, ◌≤◌, ◌<◌, ◌≡◌, ◌≢◌, refl, sym, ap, ◌∙◌, inl, inr, true, false, Bool-cases, Option,
  none, some, List, ◌==◌, ==_iff, ==_of_ne, ==_self, if◌then◌else◌, In, arith,
}
use la_tte.ClassHierarchy.{Class, Cit, is_subclass, update_class_hierarchy}
use la_tte.ClassHierarchy.Spec.{Subclass, CanLoad, Loaded}
use la_tte.ClassHierarchy.Inclusion.{
  Loaded-IsClosed, is_subclass_self, is_subclass-array_rule, object_array-unrelated,
}
use la_tte.SoftInstanceof.{
  instanceof, soft_instanceof, soft_checkcast, soft_checkarraystore, rt_is_instanceof,
  rt_check_cast, array_store_exception, instanceof_base,
}
use la_tte.SoftInstanceof.Walks.{here}
use la_tte.SoftInstanceof.Peeled.{ArraysBuilt, level, shallow, deep, stop, skip_arrays-EndsAt}
use la_tte.SoftInstanceof.Bases.{
  base_of_array, base_on_primitive, base_on_array, base_of_classes, instanceof-array,
  instanceof-plain,
}
use la_tte.SoftInstanceof.ArrayCases.{
  special_arrays, walk-eq-is_subclass, same_arrays, deep_unrelated, level_arrays, shallow_arrays,
}

-- What is no array is cast to no array.
no_array :
    (class : ℕ → Class) (object_class fuel a b : ℕ)
    → (class b).is_array ≡ true
    → (class a).is_array ≡ false
    → 0 < fuel
    → instanceof class object_class fuel b a ≡ some false
no_array class object_class zero a b q p h = absurd (omega arith)
no_array class object_class (suc fuel) a b q p h =
    instanceof-array class object_class (suc fuel) b a b a q
      (stop class fuel b a (ground (arith, q, p)))
    ∙ base_of_array class object_class (suc fuel) b a q

module _ {class : ℕ → Class} {object_class : ℕ} {cs : List ℕ} {st : Cit}
    (loaded : Loaded class object_class cs st) (built : ArraysBuilt class object_class)
    (on_top : (a : ℕ) → In a cs → Subclass class a object_class) where
  arrays_agree :
      (fuel a b : ℕ)
      → In a cs
      → In b cs
      → (class a).is_array ≡ true
      → (class b).is_array ≡ true
      → st.column_idx < fuel
      → (class b).dimension < fuel
      → special_arrays class object_class a b ≡ false
      → instanceof class object_class fuel b a ≡ some (is_subclass st a b)
  arrays_agree fuel a b m n p q enough deep_enough usual =
      let (c, oc, e, s) = skip_arrays-EndsAt class built fuel b a q p deep_enough in
      let start = instanceof-array class object_class fuel b a c oc q e in
      elim (Bool-cases (a == b)) [
        | inl same ↦
            let a_is_b = (==_iff a b).0 same in
            elim s [
              | level d x y ↦
                  same_arrays loaded built on_top fuel a b m n p q enough a_is_b
                    (start ∙ rw (x, y) refl)
              | shallow d x y ↦ absurd (ground (arith, ap (λ z. (class z).dimension) a_is_b))
              | deep d x ↦ absurd (ground (arith, ap (λ z. (class z).dimension) a_is_b))
            ]
        | inr other ↦
            let ne : a ≢ b = λ z. absurd (ground (arith, (==_iff a b).1 z)) in
            elim s [
              | level d x y ↦
                  level_arrays loaded built on_top fuel a b m n p q enough ne usual (sym d)
                    (start ∙ rw (x, y) refl)
              | shallow d x y ↦
                  shallow_arrays loaded built on_top fuel a b m n p q enough ne usual oc d y
                    (start ∙ rw x refl)
              | deep d x ↦
                  start
                  ∙ base_of_array class object_class fuel c oc x
                  ∙ ap some
                      (sym (deep_unrelated loaded built on_top fuel a b m n p q enough ne usual d))
            ]
      ]

  -- In a state that is reached by entering classes, where array classes are built as `lookupArray`
  -- builds them and every entered class is a subclass of `java.lang.Object`, `instanceof(b, a)` of
  -- soft.c comes to an end at entered classes `a` and `b`, once its fuel exceeds the number of
  -- columns and the dimension of `b`, and its answer is that of `CIT_is_subclass(a, b)`. Excepted
  -- are two different array classes where `b` has element type `java.lang.Object`, and `a` has it
  -- as well or has a primitive element type and the dimension of `b`.
  pub instanceof-eq-is_subclass :
      (fuel a b : ℕ)
      → In a cs
      → In b cs
      → st.column_idx < fuel
      → (class b).dimension < fuel
      → special_arrays class object_class a b ≡ false
      → instanceof class object_class fuel b a ≡ some (is_subclass st a b)
  instanceof-eq-is_subclass fuel a b m n enough deep_enough usual =
      elim (Bool-cases (class b).is_array) [
        | inl q ↦ elim (Bool-cases (class a).is_array) [
          | inl p ↦ arrays_agree fuel a b m n p q enough deep_enough usual
          | inr p ↦
              no_array class object_class fuel a b q p (omega arith)
              ∙ ap some (sym ((is_subclass_self loaded a b m n).1 p q))
        ]
        | inr q ↦
            instanceof-plain class object_class fuel b a q
            ∙ walk-eq-is_subclass loaded built on_top fuel a b m n q enough
      ]

  -- In a state that is reached by entering classes, where array classes are built as `lookupArray`
  -- builds them and every entered class is a subclass of `java.lang.Object`, let the object that is
  -- tested be null or of an entered class, the class `c` entered, the two not an excepted pair of
  -- arrays (`special_arrays`), and the fuel above the number of columns and the dimension of `c`.
  -- Then `soft_instanceof` answers as `RT_is_instanceof`, null included, and `soft_checkcast`
  -- throws exactly when `RT_check_cast` does, and otherwise hands on the object.
  pub soft_checkcast-eq-rt_check_cast :
      (class_of : ℕ → ℕ) (fuel c : ℕ) (o : Option ℕ)
      → ((obj : ℕ)
          → o ≡ some obj
          → In (class_of obj) cs × (special_arrays class object_class (class_of obj) c ≡ false))
      → In c cs
      → st.column_idx < fuel
      → (class c).dimension < fuel
      → (soft_instanceof class object_class class_of fuel c o
          ≡ some (rt_is_instanceof class_of st c o))
        × (soft_checkcast class object_class class_of fuel c o
            ≡ some (rt_check_cast class_of st c o))
  unfolding soft_instanceof soft_checkcast rt_is_instanceof rt_check_cast
  soft_checkcast-eq-rt_check_cast class_of fuel c none usual n enough deep_enough = (refl, refl)
  soft_checkcast-eq-rt_check_cast class_of fuel c (some obj) usual n enough deep_enough =
      let u = usual obj refl in
      let e = instanceof-eq-is_subclass fuel (class_of obj) c u.0 n enough deep_enough u.1 in
      (e, rw e (ground arith))

  -- In a state that is reached by entering classes, where array classes are built as `lookupArray`
  -- builds them and every entered class is a subclass of `java.lang.Object`, and with fuel above
  -- the number of columns and the dimension of the component type, `soft_checkarraystore` lets null
  -- pass, and stores an object of an entered class into an array whose component type is entered
  -- exactly when `CIT_is_subclass` holds of the object's class and that component type; otherwise
  -- it throws. The two are not to be an excepted pair of arrays (`special_arrays`).
  pub soft_checkarraystore_lem :
      (class_of : ℕ → ℕ) (fuel array obj component : ℕ)
      → (class (class_of array)).component_type ≡ component
      → In (class_of obj) cs
      → In component cs
      → st.column_idx < fuel
      → (class component).dimension < fuel
      → special_arrays class object_class (class_of obj) component ≡ false
      → (soft_checkarraystore class object_class class_of fuel array none ≡ some (inr none))
        × (soft_checkarraystore class object_class class_of fuel array (some obj)
            ≡ some (
                if is_subclass st (class_of obj) component
                then inr (some obj)
                else inl array_store_exception))
  unfolding soft_checkarraystore soft_instanceof
  soft_checkarraystore_lem class_of fuel array obj component e m n enough deep_enough usual = (
    refl,
    rw (e, instanceof-eq-is_subclass fuel (class_of obj) component m n enough deep_enough usual)
        (ground arith),
  )

  -- In a state that is reached by entering classes, where array classes are built as `lookupArray`
  -- builds them and every entered class is a subclass of `java.lang.Object`, an entered array class
  -- of primitive elements is cast to the array class of `java.lang.Object` with the same dimension
  -- by the matrix, and not by `instanceof` of soft.c with fuel above that dimension.
  pub primitive_array-diverges :
      (fuel a b : ℕ)
      → In a cs
      → In b cs
      → (class a).is_array ≡ true
      → (class b).is_array ≡ true
      → (class b).element_type ≡ object_class
      → (class (class a).element_type).is_primitive ≡ true
      → (class a).dimension ≡ (class b).dimension
      → (class b).dimension < fuel
      → (instanceof class object_class fuel b a ≡ some false) × (is_subclass st a b ≡ true)
  primitive_array-diverges fuel a b m n p q o s d deep_enough =
      let (c, oc, e, k) = skip_arrays-EndsAt class built fuel b a q p deep_enough in
      let e_ne : (class a).element_type ≢ object_class = λ z.
        absurd (ground (arith, ap (λ x. (class x).is_primitive) z, built.object_no_primitive)) in
      (
        elim k [
          | level l x y ↦
              instanceof-array class object_class fuel b a c oc q e
              ∙ base_on_primitive class object_class fuel c oc (rw (x ∙ o) built.object_no_array)
                  (rw (x ∙ o) built.object_no_primitive) (rw y (built.element a p)) (rw y s)
          | shallow l x y ↦ absurd (omega arith)
          | deep l x ↦ absurd (omega arith)
        ],
        is_subclass-array_rule loaded a b m n p q
              (λ z. e_ne (ap (λ x. (class x).element_type) z ∙ o))
              (ground (arith, ==_of_ne (class a).element_type object_class e_ne))
            ∙ ground (arith, (==_iff (class b).element_type object_class).1 o),
      )

  -- In a state that is reached by entering classes, where array classes are built as `lookupArray`
  -- builds them and every entered class is a subclass of `java.lang.Object`, an array class of
  -- `java.lang.Object` that is entered after another one of no greater dimension is cast to that
  -- one by `instanceof` of soft.c with fuel above the latter's dimension, and not by the matrix.
  pub object_array-diverges :
      {c : ℕ}
      → CanLoad class object_class cs c
      → (fuel t : ℕ) → In t cs
      → (class c).is_array ≡ true
      → (class t).is_array ≡ true
      → (class c).element_type ≡ object_class
      → (class t).element_type ≡ object_class
      → (class t).dimension ≤ (class c).dimension
      → (class t).dimension < fuel
      → (instanceof class object_class fuel t c ≡ some true)
        × (is_subclass (update_class_hierarchy class object_class c st) c t ≡ false)
  object_array-diverges {c} can fuel t m p q o o' le deep_enough =
      let (k, oc, e, s) = skip_arrays-EndsAt class built fuel t c q p deep_enough in
      (
        instanceof-array class object_class fuel t c k oc q e ∙ elim s [
          | level l x y ↦ rw (x ∙ o', y ∙ o) (object_to_object fuel (omega arith))
          | shallow l x y ↦ rw (x ∙ o') (
              base_on_array class object_class fuel object_class oc built.object_no_array
                built.object_no_primitive y
              ∙ ap some (==_self object_class))
          | deep l x ↦ absurd (omega arith)
        ],
        object_array-unrelated loaded can t m p q o,
      )
    where
      object_to_object :
          (fuel : ℕ)
          → 0 < fuel
          → instanceof_base class object_class fuel object_class object_class ≡ some true
      object_to_object zero h = absurd (omega arith)
      object_to_object (suc fuel) h =
          base_of_classes class object_class (suc fuel) object_class object_class
            built.object_no_array built.object_no_primitive built.object_no_array
            built.object_no_primitive
          ∙ here (Loaded-IsClosed loaded) fuel object_class object_class (==_self object_class)
