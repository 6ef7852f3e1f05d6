-- ===== src/SoftInstanceof.antt =====
-- The type tests of runtime/soft.c, which walk the class graph, and the ones that translated code
-- calls in translator/functions.c, which read the matrix of runtime/class_inclusion_test.c.
--
-- The walks take fuel: `none` is a walk that has not come to an end. The classes are prepared, as
-- every class that has been entered into the matrix is, so `processClass` is not called. An object
-- is a number, `class_of` its class, and `none` the null pointer.
mod Walks
mod Peeled
mod Bases
mod ArrayCases
pub mod Agreement
mod Tests
use la_tte.Common.{
  ℕ, zero, suc, ◌⊎◌, inl, inr, Bool, true, false, not, ◌&&◌, Option, none, some, List, [], ◌∷◌,
  ◌==◌, if◌then◌else◌,
}
use la_tte.ClassHierarchy.{Class, Cit, is_subclass}

pub data Exception : Type 0 where
  class_cast_exception : Exception
  array_store_exception : Exception

-- `if (x) return 1;` before the rest.
unfoldable pub or_else : Option Bool → Option Bool → Option Bool
or_else none rest = none
or_else (some true) rest = some true
or_else (some false) rest = rest

-- The loop over the interfaces.
unfoldable pub any_interface : (ℕ → Option Bool) → List ℕ → Option Bool
unfolding or_else
any_interface test [] = some false
any_interface test (i ∷ is) = or_else (test i) (any_interface test is)

module _ (class : ℕ → Class) where
  unfoldable pub instanceof_class : ℕ → ℕ → Option ℕ → Option Bool
  unfolding or_else any_interface
  instanceof_class zero c oc = none
  instanceof_class (suc fuel) c none = some false
  instanceof_class (suc fuel) c (some oc) = elim (oc == c) [
    | true ↦ some true
    | false ↦
        or_else (instanceof_class fuel c (class oc).superclass)
          (any_interface (λ ic. instanceof_class fuel c (some ic)) (class oc).interfaces)
  ]

  -- The loop of `instanceof_array` that skips arrays of arrays.
  unfoldable pub skip_arrays : ℕ → ℕ → ℕ → Option (ℕ × ℕ)
  skip_arrays zero c oc = none
  skip_arrays (suc fuel) c oc = elim ((class c).is_array && (class oc).is_array) [
    | true ↦ skip_arrays fuel (class c).component_type (class oc).component_type
    | false ↦ some (c, oc)
  ]

  module _ (object_class : ℕ) where
    -- `instanceof_array` after the loop.
    unfoldable pub instanceof_base : ℕ → ℕ → ℕ → Option Bool
    unfolding instanceof_class
    instanceof_base fuel c oc =
        if (class c).is_array
        then some false
        else if (class c).is_primitive
        then some (c == oc)
        else if (class oc).is_array
        then some (c == object_class)
        else if (class oc).is_primitive
        then some false
        else instanceof_class fuel c (some oc)

    unfoldable pub instanceof_array : ℕ → ℕ → ℕ → Option Bool
    unfolding skip_arrays instanceof_base
    instanceof_array fuel c oc = elim (skip_arrays fuel c oc) [
      | none ↦ none
      | some (c', oc') ↦ instanceof_base fuel c' oc'
    ]

    unfoldable pub instanceof : ℕ → ℕ → ℕ → Option Bool
    unfolding instanceof_class instanceof_array
    instanceof fuel c oc =
        if (class c).is_array then instanceof_array fuel c oc else instanceof_class fuel c (some oc)

    module _ (class_of : ℕ → ℕ) where
      unfoldable pub soft_instanceof : ℕ → ℕ → Option ℕ → Option Bool
      unfolding instanceof
      soft_instanceof fuel c none = some false
      soft_instanceof fuel c (some o) = instanceof fuel c (class_of o)

      -- `throwException(exception)` unless the test holds, and then the object.
      abbrev unless : Exception → Option ℕ → Option Bool → Option (Exception ⊎ Option ℕ)
      unless exception o none = none
      unless exception o (some true) = some (inr o)
      unless exception o (some false) = some (inl exception)

      unfoldable pub soft_checkcast : ℕ → ℕ → Option ℕ → Option (Exception ⊎ Option ℕ)
      unfolding soft_instanceof
      soft_checkcast fuel c none = some (inr none)
      soft_checkcast fuel c (some o) =
          unless class_cast_exception (some o) (soft_instanceof fuel c (some o))

      unfoldable pub soft_checkarraystore : ℕ → ℕ → Option ℕ → Option (Exception ⊎ Option ℕ)
      unfolding soft_instanceof
      soft_checkarraystore fuel array none = some (inr none)
      soft_checkarraystore fuel array (some obj) =
          unless array_store_exception (some obj)
            (soft_instanceof fuel (class (class_of array)).component_type (some obj))

-- `RT_is_instanceof` and `RT_check_cast`; the latter hands the object on, as the code after the call
-- does.
module _ (class_of : ℕ → ℕ) where
  unfoldable pub rt_is_instanceof : Cit → ℕ → Option ℕ → Bool
  rt_is_instanceof st c none = false
  rt_is_instanceof st c (some obj) = is_subclass st (class_of obj) c

  unfoldable pub rt_check_cast : Cit → ℕ → Option ℕ → Exception ⊎ Option ℕ
  rt_check_cast st c none = inr none
  rt_check_cast st c (some obj) =
      if is_subclass st (class_of obj) c then inr (some obj) else inl class_cast_exception
