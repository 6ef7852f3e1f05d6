-- ===== src/ClassHierarchy/Arrays.antt =====
-- The loop of `_update_array_class_hierarchy` over the array classes that are there already: which
-- bits of which rows it sets.
use la_tte.Common.{
  ℕ, ◌≡◌, ◌≢◌, refl, ap, ◌∙◌, inl, inr, Bool, false, not, List, [], ◌∷◌, ◌==◌, ==_of_ne, ◌&&◌, ◌||◌,
  leb, if◌then◌else◌, In, Bool-cases, in_either, arith,
}
use la_tte.ClassHierarchy.{Class, Cit, row_of, pos_of, mark, relate_arrays, relate_all}
use la_tte.ClassHierarchy.Bits.{is_ith_bit_set-eq-bit_at}
use la_tte.ClassHierarchy.Invariant.{IsValid}
use la_tte.ClassHierarchy.Stores.{bit, bit-mark, mark-IsValid}
use la_tte.ClassHierarchy.Enter.{
  SameShape, SameShape-refl, SameShape-trans, SameShape-mark, pos_of-same,
}

-- What the matrix says of two classes.
abbrev pub sub_of : Cit → ℕ → ℕ → Bool
sub_of st x y = bit st x (pos_of st y)

-- `x` is a class in `cs` whose row no round over `all` writes to.
abbrev pub Untouched : List ℕ → ℕ → List ℕ → ℕ → Type 0
Untouched cs c all x = In x cs × (c ≢ x) × ((y : ℕ) → In y all → y ≢ x)

module _ (class : ℕ → Class) (object_class : ℕ) where
  -- Whether entering the array class `c` makes it a subclass of the array class `t`, and the other
  -- way round; `sub` answers for the element types.
  abbrev pub marks_new : (ℕ → ℕ → Bool) → ℕ → ℕ → Bool
  marks_new sub c t =
      let e = (class c).element_type in
      let f = (class t).element_type in
      if e == object_class
      then false
      else if f == object_class
      then leb (class t).dimension (class c).dimension
      else ((class c).dimension == (class t).dimension)
        && (not ((class e).is_primitive || (class f).is_primitive) && sub e f)

  abbrev pub marks_old : (ℕ → ℕ → Bool) → ℕ → ℕ → Bool
  marks_old sub c t =
      let e = (class c).element_type in
      let f = (class t).element_type in
      if e == object_class
      then leb (class c).dimension (class t).dimension
      else if f == object_class
      then false
      else ((class c).dimension == (class t).dimension)
        && (not ((class e).is_primitive || (class f).is_primitive) && (not (sub e f) && sub f e))

  -- A round leaves the state, or marks one of the two rows.
  relate_arrays-cases :
      (P : Cit → Type 0) (c t : ℕ) (st : Cit)
      → P st
      → P (mark c (pos_of st t) st)
      → P (mark t (pos_of st c) st)
      → P (relate_arrays class object_class c t st)
  unfolding relate_arrays
  relate_arrays-cases P c t st p q r =
      in_either P ((class c).element_type == object_class) (in_either P _ r p) (
        in_either P ((class t).element_type == object_class) (in_either P _ q p) (
          in_either P ((class c).dimension == (class t).dimension)
            (in_either P _ p (in_either P _ q (in_either P _ r p))) p))

  relate_arrays-shape :
      (c t : ℕ) (st : Cit) → SameShape st (relate_arrays class object_class c t st)
  relate_arrays-shape c t st =
      relate_arrays-cases (λ s. SameShape st s) c t st (SameShape-refl st)
        (SameShape-mark c (pos_of st t) st) (SameShape-mark t (pos_of st c) st)

  module _ {size : ℕ} {cs : List ℕ} (c : ℕ) (m : In c cs) where
    relate_arrays-IsValid :
        (t : ℕ) {st : Cit}
        → IsValid class size cs st
        → In t cs
        → IsValid class size cs (relate_arrays class object_class c t st)
    relate_arrays-IsValid t {st} v n =
        relate_arrays-cases (λ s. IsValid class size cs s) c t st v
          (mark-IsValid v c (pos_of st t) m (v.columns t n))
          (mark-IsValid v t (pos_of st c) n (v.columns c m))

    bit-relate_arrays :
        (t a i : ℕ) {st : Cit}
        → IsValid class size cs st
        → In t cs
        → In a cs
        → bit (relate_arrays class object_class c t st) a i ≡ (
            bit st a i
            || (((c == a) && ((pos_of st t == i) && marks_new (sub_of st) c t))
                || ((t == a) && ((pos_of st c == i) && marks_old (sub_of st) c t))))
    unfolding relate_arrays
    bit-relate_arrays t a i {st} v n k = ground (
      arith,
      bit-mark v c (pos_of st t) a i m k (v.columns t n),
      bit-mark v t (pos_of st c) a i n k (v.columns c m),
      is_ith_bit_set-eq-bit_at (row_of st (class c).element_type)
          (pos_of st (class t).element_type),
      is_ith_bit_set-eq-bit_at (row_of st (class t).element_type)
          (pos_of st (class c).element_type),
    )

  -- The bits that the rounds over `ts` set in the row of `c`, and in the row of `a`.
  abbrev pub any_new : (ℕ → ℕ → Bool) → Cit → ℕ → List ℕ → ℕ → Bool
  any_new sub st c [] i = false
  any_new sub st c (t ∷ ts) i = ((pos_of st t == i) && marks_new sub c t) || any_new sub st c ts i

  abbrev pub any_old : (ℕ → ℕ → Bool) → ℕ → List ℕ → ℕ → Bool
  any_old sub c [] a = false
  any_old sub c (t ∷ ts) a = ((t == a) && marks_old sub c t) || any_old sub c ts a

  -- `sub` agrees with the matrix wherever a round may ask it.
  abbrev pub Agrees : (ℕ → ℕ → Bool) → ℕ → List ℕ → Cit → Type 0
  Agrees sub c ts st =
      (t : ℕ)
      → In t ts
      → (class (class c).element_type).is_primitive || (class (class t).element_type).is_primitive
        ≡ false
      → (sub_of st (class c).element_type (class t).element_type
          ≡ sub (class c).element_type (class t).element_type)
        × (sub_of st (class t).element_type (class c).element_type
            ≡ sub (class t).element_type (class c).element_type)

  pub record Related (size : ℕ) (cs : List ℕ) (sub : ℕ → ℕ → Bool) (c : ℕ) (ts : List ℕ)
      (st st' : Cit) : Type 0 where
    pub valid : IsValid class size cs st'
    pub shape : SameShape st st'
    pub bits :
        (a i : ℕ)
        → In a cs
        → bit st' a i ≡ (
            bit st a i
            || (((c == a) && any_new sub st c ts i) || ((pos_of st c == i) && any_old sub c ts a)))

  marks-agree :
      (sub : ℕ → ℕ → Bool) (c t : ℕ) (ts : List ℕ) (st : Cit)
      → Agrees sub c (t ∷ ts) st
      → (marks_new (sub_of st) c t ≡ marks_new sub c t)
        × (marks_old (sub_of st) c t ≡ marks_old sub c t)
  marks-agree sub c t ts st agree =
      elim (Bool-cases (
        (class (class c).element_type).is_primitive
        || (class (class t).element_type).is_primitive)) [
          | inl p ↦ ground arith
          | inr p ↦ ground (arith, agree t (inl refl) p)
        ]

  any_new-same :
      (sub : ℕ → ℕ → Bool) (c : ℕ) (ts : List ℕ) (s t : Cit) (i : ℕ)
      → SameShape s t
      → any_new sub t c ts i ≡ any_new sub s c ts i
  any_new-same sub c [] s t i h = refl
  any_new-same sub c (x ∷ ts) s t i h =
      ground (arith, pos_of-same x h, any_new-same sub c ts s t i h)

  module _ {size : ℕ} {cs : List ℕ} (c : ℕ) (m : In c cs) (sub : ℕ → ℕ → Bool) (all : List ℕ)
      (listed : (t : ℕ) → In t all → In t cs)
      (elements : (t : ℕ)
        → In t all
        → (class (class c).element_type).is_primitive || (class (class t).element_type).is_primitive
          ≡ false
        → Untouched cs c all (class c).element_type
          × Untouched cs c all (class t).element_type) where
    sub_of-relate_arrays :
        (t x y : ℕ) {st : Cit}
        → IsValid class size cs st
        → In t all
        → Untouched cs c all x
        → sub_of (relate_arrays class object_class c t st) x y ≡ sub_of st x y
    sub_of-relate_arrays t x y {st} v n u =
        ap (λ p. bit (relate_arrays class object_class c t st) x p)
          (pos_of-same y (relate_arrays-shape c t st))
        ∙ ground (
          arith,
          bit-relate_arrays c m t x (pos_of st y) v (listed t n) u.0,
          ==_of_ne c x u.1,
          ==_of_ne t x (u.2 t n),
        )

    Agrees-relate_arrays :
        (t : ℕ) (ts : List ℕ) {st : Cit}
        → IsValid class size cs st
        → In t all
        → ((x : ℕ) → In x ts → In x all)
        → Agrees sub c ts st
        → Agrees sub c ts (relate_arrays class object_class c t st)
    Agrees-relate_arrays t ts v n within agree x k p =
        let (u, w) = elements x (within x k) p in
        let (e, f) = agree x k p in
        (
          sub_of-relate_arrays t (class c).element_type (class x).element_type v n u ∙ e,
          sub_of-relate_arrays t (class x).element_type (class c).element_type v n w ∙ f,
        )

    pub relate_all-Related :
        (ts : List ℕ) {st : Cit}
        → IsValid class size cs st
        → ((x : ℕ) → In x ts → In x all)
        → Agrees sub c ts st
        → Related size cs sub c ts st (relate_all class object_class c ts st)
    unfolding relate_all
    relate_all-Related [] v within agree = record {
      valid = v;
      shape = SameShape-refl _;
      bits = λ a i n. ground arith;
    }
    relate_all-Related (t ∷ ts) {st} v within agree =
        let n = within t (inl refl) in
        let st1 = relate_arrays class object_class c t st in
        let shape1 = relate_arrays-shape c t st in
        let r =
          relate_all-Related ts {st = st1} (relate_arrays-IsValid c m t v (listed t n))
            (λ x k. within x (inr k))
            (Agrees-relate_arrays t ts v n (λ x k. within x (inr k)) (λ x k. agree x (inr k))) in
        record {
          valid = r.valid;
          shape = SameShape-trans shape1 r.shape;
          bits = λ a i k. ground (
            arith,
            r.bits a i k,
            bit-relate_arrays c m t a i v (listed t n) k,
            marks-agree sub c t ts st agree,
            any_new-same sub c ts st st1 i shape1,
            pos_of-same c shape1,
          );
        }
