-- ===== src/SoftInstanceof/Tests.antt =====
-- The comparison at the class table of the tests of the matrix.
use mathlib.Core.Option.{some-injective}
use la_tte.Common.{
  ℕ, zero, suc, ◌+◌, ◌≡◌, refl, ◌⊎◌, inl, inr, true, false, if◌then◌else◌, none, some, List, [],
  ◌∷◌, In, subst, All, All-In, get_or, arith,
}
use la_tte.BitRow.{each_word}
use la_tte.ClassHierarchy.{
  is_ith_bit_set, set_ith_bit, update_class_hierarchy, claim_column, update_array_class_hierarchy,
  update_normal_class_hierarchy, relate_all, relate_arrays, new_row, copy_super, mark, write_row,
  or_interfaces, Class, Cit, is_subclass,
}
use la_tte.ClassHierarchy.Spec.{Subclass, itself, by_superclass, Loaded, load}
use la_tte.ClassHierarchy.Tests.{
  rows, primitive, table, six, after_six, enter, Loaded-six, can_6, no_clash_sound, can_array,
}
use la_tte.SoftInstanceof.{
  instanceof, soft_instanceof, soft_checkcast, soft_checkarraystore, rt_is_instanceof,
  rt_check_cast, array_store_exception,
}
use la_tte.SoftInstanceof.Peeled.{ArraysBuilt}
use la_tte.SoftInstanceof.ArrayCases.{special_arrays}
use la_tte.SoftInstanceof.Agreement.{
  instanceof-eq-is_subclass, soft_checkcast-eq-rt_check_cast, soft_checkarraystore_lem,
  primitive_array-diverges, object_array-diverges,
}

get_or-All :
    (P : Class → Type 0) (ks : List Class) (d : Class)
    → All P ks
    → P d
    → (i : ℕ) → P (get_or ks i d)
get_or-All P [] d h k i = k
get_or-All P (r ∷ rs) d h k zero = h.0
get_or-All P (r ∷ rs) d h k (suc i) = get_or-All P rs d h.1 k i

abbrev Element : Class → Type 0
Element k = k.is_array ≡ true → (table k.element_type).is_array ≡ false

abbrev Component : Class → Type 0
Component k =
    k.is_array ≡ true
    → ((k.dimension ≡ 1) × (k.component_type ≡ k.element_type))
      ⊎ (((table k.component_type).is_array ≡ true)
          × (k.dimension ≡ (table k.component_type).dimension + 1)
          × ((table k.component_type).element_type ≡ k.element_type))

table-ArraysBuilt : ArraysBuilt table 0
table-ArraysBuilt = record {
  object_no_array = refl;
  object_no_primitive = refl;
  element = λ a.
      get_or-All Element rows primitive
        (
          λ p. absurd (ground arith),
          (
            λ p. absurd (ground arith),
            (
              λ p. absurd (ground arith),
              (
                λ p. absurd (ground arith),
                (
                  λ p. absurd (ground arith),
                  (λ p. refl, (λ p. refl, (λ p. refl, (λ p. refl, (λ p. refl, tt))))),
                ),
              ),
            ),
          ),
        )
        (λ p. absurd (ground arith)) a;
  component = λ a.
      get_or-All Component rows primitive
        (
          λ p. absurd (ground arith),
          (
            λ p. absurd (ground arith),
            (
              λ p. absurd (ground arith),
              (
                λ p. absurd (ground arith),
                (
                  λ p. absurd (ground arith),
                  (
                    λ p. inl (refl, refl),
                    (
                      λ p. inr (refl, refl, refl),
                      (λ p. inl (refl, refl), (λ p. inl (refl, refl), (λ p. inl (refl, refl), tt))),
                    ),
                  ),
                ),
              ),
            ),
          ),
        )
        (λ p. absurd (ground arith)) a;
}

abbrev seven : List ℕ
seven = 7 ∷ six

abbrev after_seven : Cit
after_seven = enter 7 after_six

Loaded-seven : Loaded table 0 seven after_seven
Loaded-seven = load Loaded-six (
    can_array six 7 4 4 1 refl (λ m. omega arith) (inr (inr (inr (inr (inr (inr (inl refl)))))))
      (λ p. absurd (ground arith)) (no_clash_sound 4 1 six refl))

direct : {a : ℕ} → (table a).superclass ≡ some 0 → Subclass table a 0
direct h = by_superclass h (itself refl)

object_on_top : (a : ℕ) → In a seven → Subclass table a 0
object_on_top =
    All-In (λ a. Subclass table a 0) seven
      (
        direct refl,
        (
          direct refl,
          (
            direct refl,
            (
              direct refl,
              (
                by_superclass {s = 2} refl (direct refl),
                (direct refl, (direct refl, (itself refl, tt))),
              ),
            ),
          ),
        ),
      )

columns : after_seven.column_idx ≡ 8
unfolding update_class_hierarchy claim_column update_array_class_hierarchy
    update_normal_class_hierarchy relate_all relate_arrays new_row copy_super mark write_row
    or_interfaces is_ith_bit_set set_ith_bit each_word
columns = refl

in_9 : In 9 seven
in_9 = inr (inr (inl refl))

in_8 : In 8 seven
in_8 = inr (inr (inr (inl refl)))

in_3 : In 3 seven
in_3 = inr (inr (inr (inr (inl refl))))

in_2 : In 2 seven
in_2 = inr (inr (inr (inr (inr (inl refl)))))

instanceof-eq-is_subclass_example : instanceof table 0 9 8 9 ≡ some (is_subclass after_seven 9 8)
instanceof-eq-is_subclass_example =
    instanceof-eq-is_subclass Loaded-seven table-ArraysBuilt object_on_top 9 9 8 in_9 in_8
      (omega (arith, columns)) (omega arith) refl

soft_checkcast-eq-rt_check_cast_example :
    (soft_instanceof table 0 (λ o. o) 9 2 (some 3)
      ≡ some (rt_is_instanceof (λ o. o) after_seven 2 (some 3)))
    × (soft_checkcast table 0 (λ o. o) 9 2 (some 3)
        ≡ some (rt_check_cast (λ o. o) after_seven 2 (some 3)))
soft_checkcast-eq-rt_check_cast_example =
    soft_checkcast-eq-rt_check_cast Loaded-seven table-ArraysBuilt object_on_top (λ o. o) 9 2
      (some 3)
      (λ obj e.
        subst (λ k. In k seven × (special_arrays table 0 k 2 ≡ false)) (some-injective 3 obj e)
          (in_3, refl))
      in_2 (omega (arith, columns)) (omega arith)

-- Object 8 is an array of class 8, object 3 an instance of class 3.
soft_checkarraystore_lem_example :
    (soft_checkarraystore table 0 (λ o. o) 9 8 none ≡ some (inr none))
    × (soft_checkarraystore table 0 (λ o. o) 9 8 (some 3)
        ≡ some (if is_subclass after_seven 3 2 then inr (some 3) else inl array_store_exception))
soft_checkarraystore_lem_example =
    soft_checkarraystore_lem Loaded-seven table-ArraysBuilt object_on_top (λ o. o) 9 8 3 2 refl in_3
      in_2 (omega (arith, columns)) (omega arith) refl

primitive_array-diverges_example :
    (instanceof table 0 9 5 7 ≡ some false) × (is_subclass after_seven 7 5 ≡ true)
primitive_array-diverges_example =
    primitive_array-diverges Loaded-seven table-ArraysBuilt object_on_top 9 7 5 (inl refl)
      (inr (inl refl)) refl refl refl refl refl (omega arith)

object_array-diverges_example :
    (instanceof table 0 9 5 6 ≡ some true) × (is_subclass (enter 6 after_six) 6 5 ≡ false)
object_array-diverges_example =
    object_array-diverges Loaded-six table-ArraysBuilt (λ a m. object_on_top a (inr m)) can_6 9 5
      (inl refl) refl refl refl refl (omega arith) (omega arith)
