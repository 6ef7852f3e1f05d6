-- ===== src/ClassHierarchy/Inclusion.antt =====
-- What the matrix answers, and that its memory stays in order.
use la_tte.Common.{ℕ, ◌*◌, ◌≤◌, ◌<◌, ◌≡◌, ◌≢◌, ◌↔◌, sym, ◌∙◌, true, false, List, length, In, arith}
use la_tte.ClassHierarchy.{Class, Cit, is_subclass, row_of, pos_of, update_class_hierarchy}
use la_tte.ClassHierarchy.Bits.{is_ith_bit_set-eq-bit_at}
use la_tte.ClassHierarchy.Spec.{Subclass, array_rule, CanLoad, Loaded}
use la_tte.ClassHierarchy.Arrays.{sub_of}
use la_tte.ClassHierarchy.Faithful.{both_object, IsClosed}
use la_tte.ClassHierarchy.Reached.{Loaded-Matches, old-stable, object_array-unmarked}

pub is_subclass-eq-sub_of : (st : Cit) (a b : ℕ) → is_subclass st a b ≡ sub_of st a b
unfolding is_subclass
is_subclass-eq-sub_of st a b = is_ith_bit_set-eq-bit_at (row_of st a) (pos_of st b)

module _ {class : ℕ → Class} {object_class : ℕ} {cs : List ℕ} {st : Cit}
    (loaded : Loaded class object_class cs st) where
  pub Loaded-IsClosed : IsClosed class object_class cs (pos_of st)
  Loaded-IsClosed = (Loaded-Matches class object_class loaded).closed

  pub pos_of-lt : (a : ℕ) → In a cs → pos_of st a < st.column_idx
  pos_of-lt a m = (Loaded-Matches class object_class loaded).valid.columns a m

  -- In every state that is reached by entering classes, superclasses and interfaces first,
  -- `CIT_is_subclass(a, b)` holds for an entered class `a` and an entered class `b` that is no
  -- array exactly if `b` is `a` or an ancestor of `a` through superclasses and interfaces.
  pub is_subclass-iff-Subclass :
      (a b : ℕ)
      → In a cs
      → In b cs
      → (class b).is_array ≡ false
      → (is_subclass st a b ≡ true) ↔ Subclass class a b
  is_subclass-iff-Subclass a b m n p =
      rw (is_subclass-eq-sub_of st a b)
        ((Loaded-Matches class object_class loaded).agreement.plain a b m n p)

  -- In every state that is reached by entering classes, superclasses, interfaces and element types
  -- first, of two different entered array classes, not both with element type `java.lang.Object`,
  -- `a` is a subclass of `b` exactly by the rule for arrays: if the element type of `b` is
  -- `java.lang.Object`, when `a` has at least the dimension of `b`; otherwise when neither element
  -- type is primitive nor that of `a` is `java.lang.Object`, the dimensions are equal, and the
  -- element type of `a` is a subclass of that of `b`.
  pub is_subclass-array_rule :
      (a b : ℕ)
      → In a cs
      → In b cs
      → (class a).is_array ≡ true
      → (class b).is_array ≡ true
      → a ≢ b
      → both_object class object_class a b ≡ false
      → is_subclass st a b ≡ array_rule class object_class (is_subclass st) a b
  is_subclass-array_rule a b m n p q ne nb =
      is_subclass-eq-sub_of st a b
      ∙ (Loaded-Matches class object_class loaded).agreement.arrays a b m n p q ne nb
      ∙ ground (arith, is_subclass-eq-sub_of st (class a).element_type (class b).element_type)

  -- In every state that is reached by entering classes, superclasses and interfaces first, every
  -- entered class is a subclass of itself, and one that is no array is a subclass of no array.
  pub is_subclass_self :
      (a b : ℕ)
      → In a cs
      → In b cs
      → (is_subclass st a a ≡ true)
        × ((class a).is_array ≡ false → (class b).is_array ≡ true → is_subclass st a b ≡ false)
  is_subclass_self a b m n =
      let ag = (Loaded-Matches class object_class loaded).agreement in
      (
        is_subclass-eq-sub_of st a a ∙ ag.same a m,
        λ p q. is_subclass-eq-sub_of st a b ∙ ag.no_array a b m n p q,
      )

  -- In every state that is reached by entering classes, superclasses and interfaces first, every
  -- row of an entered class has at least `bitvec_size` words and there are no more columns than
  -- bits in them, so that no bit of an entered class lies outside a row; different classes have
  -- different rows and different columns; and a class's virtual table points to its row.
  pub rows_kept :
      (a b : ℕ)
      → In a cs
      → In b cs
      → (st.bitvec_size ≤ length (row_of st a))
        × (pos_of st b < 32 * length (row_of st a))
        × ((st.type_rep a).row ≡ (st.type_rep b).row → a ≡ b)
        × (pos_of st a ≡ pos_of st b → a ≡ b)
        × ((class a).has_vtable ≡ true → st.vtable_row a ≡ (st.type_rep a).row)
  rows_kept a b m n =
      let v = (Loaded-Matches class object_class loaded).valid in
      (
        v.lengths a m,
        omega (arith, v.columns b n, v.room, v.lengths a m),
        v.rows_apart a b m n,
        v.columns_apart a b m n,
        v.vtables a m,
      )

  -- In every state that is reached by entering classes, superclasses and interfaces first, entering
  -- one more class whose superclass and interfaces are entered, with or without an expansion of the
  -- matrix, changes no answer about two classes that were entered before.
  pub is_subclass-stable :
      {c : ℕ}
      → CanLoad class object_class cs c
      → (a b : ℕ) → In a cs
      → In b cs
      → is_subclass (update_class_hierarchy class object_class c st) a b ≡ is_subclass st a b
  is_subclass-stable {c} can a b m n =
      is_subclass-eq-sub_of (update_class_hierarchy class object_class c st) a b
      ∙ old-stable class object_class (Loaded-Matches class object_class loaded) can a b m n
      ∙ sym (is_subclass-eq-sub_of st a b)

  -- An array class whose element type is `java.lang.Object` does not become, when it is entered, a
  -- subclass of any array class that is there already, whatever the dimensions; so `Object[][]`,
  -- which is entered after its component `Object[]`, is no subclass of it.
  pub object_array-unrelated :
      {c : ℕ}
      → CanLoad class object_class cs c
      → (t : ℕ) → In t cs
      → (class c).is_array ≡ true
      → (class t).is_array ≡ true
      → (class c).element_type ≡ object_class
      → is_subclass (update_class_hierarchy class object_class c st) c t ≡ false
  object_array-unrelated {c} can t m p q e =
      is_subclass-eq-sub_of (update_class_hierarchy class object_class c st) c t
      ∙ object_array-unmarked class object_class (Loaded-Matches class object_class loaded) can t m
          p q e
