-- ===== src/SoftInstanceof/Bases.antt =====
-- The cases of `instanceof_base`, and of the entry to `instanceof_array`, as equations.
use la_tte.Common.{ℕ, ◌≡◌, refl, true, false, some, ◌==◌, arith}
use la_tte.ClassHierarchy.{Class}
use la_tte.SoftInstanceof.{
  skip_arrays, instanceof_class, instanceof_base, instanceof_array, instanceof,
}

module _ (class : ℕ → Class) (object_class fuel c oc : ℕ) where
  pub base_of_array :
      (class c).is_array ≡ true → instanceof_base class object_class fuel c oc ≡ some false
  unfolding instanceof_base
  base_of_array p = ground (arith, p)

  pub base_of_primitive :
      (class c).is_array ≡ false
      → (class c).is_primitive ≡ true
      → instanceof_base class object_class fuel c oc ≡ some (c == oc)
  unfolding instanceof_base
  base_of_primitive p q = ground (arith, p, q)

  pub base_on_array :
      (class c).is_array ≡ false
      → (class c).is_primitive ≡ false
      → (class oc).is_array ≡ true
      → instanceof_base class object_class fuel c oc ≡ some (c == object_class)
  unfolding instanceof_base
  base_on_array p q r = ground (arith, p, q, r)

  pub base_on_primitive :
      (class c).is_array ≡ false
      → (class c).is_primitive ≡ false
      → (class oc).is_array ≡ false
      → (class oc).is_primitive ≡ true
      → instanceof_base class object_class fuel c oc ≡ some false
  unfolding instanceof_base
  base_on_primitive p q r t = ground (arith, p, q, r, t)

  pub base_of_classes :
      (class c).is_array ≡ false
      → (class c).is_primitive ≡ false
      → (class oc).is_array ≡ false
      → (class oc).is_primitive ≡ false
      → instanceof_base class object_class fuel c oc ≡ instanceof_class class fuel c (some oc)
  unfolding instanceof_base
  base_of_classes p q r t = ground (arith, p, q, r, t)

  pub instanceof-array :
      (c' oc' : ℕ)
      → (class c).is_array ≡ true
      → skip_arrays class fuel c oc ≡ some (c', oc')
      → instanceof class object_class fuel c oc ≡ instanceof_base class object_class fuel c' oc'
  unfolding instanceof instanceof_array
  instanceof-array c' oc' p e = rw p (rw (e, instanceof_array) refl)

  pub instanceof-plain :
      (class c).is_array ≡ false
      → instanceof class object_class fuel c oc ≡ instanceof_class class fuel c (some oc)
  unfolding instanceof
  instanceof-plain p = ground (arith, p)
