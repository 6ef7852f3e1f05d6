-- ===== src/ClassHierarchy/Spec.antt =====
-- What the matrix is to say: the subclass relation of the class table, in which order classes are
-- entered, and the states that this reaches.
use la_tte.Common.{
  ℕ, ◌≡◌, ◌≢◌, Bool, true, false, not, ◌&&◌, ◌||◌, List, [], ◌∷◌, ◌==◌, leb, if◌then◌else◌, some,
  In,
}
use la_tte.ClassHierarchy.{Class, Cit, init, update_class_hierarchy}

-- `a` is `b`, or one of its ancestors is, through superclasses and interfaces.
pub data Subclass (class : ℕ → Class) : ℕ → ℕ → Type 0 where
  itself : {a b : ℕ} → a ≡ b → Subclass class a b
  by_superclass :
      {a b s : ℕ} → (class a).superclass ≡ some s → Subclass class s b → Subclass class a b
  by_interface : {a b i : ℕ} → In i (class a).interfaces → Subclass class i b → Subclass class a b

module _ (class : ℕ → Class) (object_class : ℕ) where
  -- When the array class `a` is a subclass of another array class `b`, by the rule of the code. `sub`
  -- answers for the element types.
  abbrev pub array_rule : (ℕ → ℕ → Bool) → ℕ → ℕ → Bool
  array_rule sub a b =
      let e = (class a).element_type in
      let f = (class b).element_type in
      if f == object_class
      then leb (class b).dimension (class a).dimension
      else if e == object_class
      then false
      else ((class a).dimension == (class b).dimension)
        && (not ((class e).is_primitive || (class f).is_primitive) && sub e f)

  -- What the loader guarantees when it enters `c` after `cs`: it is entered once; its superclass,
  -- its interfaces and the element type of an array are entered already and are no arrays (a
  -- primitive element type is never entered); an array class has no interfaces, and no other array
  -- class has its element type and dimension.
  pub record CanLoad (cs : List ℕ) (c : ℕ) : Type 0 where
    pub fresh : ¬ In c cs
    pub superclass :
        (s : ℕ) → (class c).superclass ≡ some s → In s cs × ((class s).is_array ≡ false)
    pub interface : (i : ℕ) → In i (class c).interfaces → In i cs × ((class i).is_array ≡ false)
    pub array_interfaces : (class c).is_array ≡ true → (class c).interfaces ≡ []
    pub element :
        (class c).is_array ≡ true
        → (class (class c).element_type).is_primitive ≡ false
        → In (class c).element_type cs × ((class (class c).element_type).is_array ≡ false)
    pub one_of_a_kind :
        (t : ℕ)
        → In t cs
        → (class c).is_array ≡ true
        → (class t).is_array ≡ true
        → (class t).element_type ≡ (class c).element_type
        → (class t).dimension ≢ (class c).dimension

  -- The states after the classes of the list, the last one first, have been entered.
  pub data Loaded : List ℕ → Cit → Type 0 where
    start : Loaded [] init
    load :
        {cs : List ℕ} {st : Cit} {c : ℕ}
        → Loaded cs st
        → CanLoad cs c
        → Loaded (c ∷ cs) (update_class_hierarchy class object_class c st)
