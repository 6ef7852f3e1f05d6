-- ===== src/ClassHierarchy/Load.antt =====
-- `CIT_update_class_hierarchy` as a whole: the matrix after the entry of a class, in terms of the
-- matrix before it.
use la_tte.Common.{
  ℕ, ◌*◌, ◌<◌, ◌≡◌, ◌≢◌, refl, sym, ap, ◌∙◌, inl, inr, Bool, true, false, List, [], ◌∷◌, ◌==◌,
  ==_self, ==_of_ne, ◌&&◌, ◌||◌, leb, if◌then◌else◌, In, subst, Bool-cases, arith,
}
use la_tte.ClassHierarchy.{
  Class, Cit, pos_of, expand_binary_matrix, claim_column, or_interfaces,
  update_normal_class_hierarchy, relate_all,
}
use la_tte.ClassHierarchy.Invariant.{IsValid}
use la_tte.ClassHierarchy.Stores.{bit}
use la_tte.ClassHierarchy.Expand.{Listed, expand_binary_matrix-Grown, expand_binary_matrix-IsValid}
use la_tte.ClassHierarchy.Enter.{
  SameShape, pos_of-same, super_bit, any_bit, Within, Claimed, claim_column-Claimed, Joined,
  or_interfaces-Joined,
}
use la_tte.ClassHierarchy.Arrays.{sub_of, any_new, any_old, Related, Untouched, relate_all-Related}

-- The expansion, where it takes place.
unfoldable pub with_room : (ℕ → Class) → Cit → Cit
with_room class st =
    if leb (st.bitvec_size * 32) st.column_idx then expand_binary_matrix class st else st

-- What the entry of `c` does to the matrix of `cs`: the row and the column of `c` are new.
pub record Added (class : ℕ → Class) (cs : List ℕ) (c : ℕ) (new_row new_column : ℕ → Bool)
    (st st' : Cit) : Type 0 where
  pub valid : IsValid class st'.bitvec_size (c ∷ cs) st'
  pub old_old : (a b : ℕ) → In a cs → In b cs → sub_of st' a b ≡ sub_of st a b
  pub new_new : sub_of st' c c ≡ true
  pub new_old : (b : ℕ) → In b cs → sub_of st' c b ≡ new_row b
  pub old_new : (a : ℕ) → In a cs → sub_of st' a c ≡ new_column a
  pub old_pos : (a : ℕ) → In a cs → pos_of st' a ≡ pos_of st a
  pub new_pos : (a : ℕ) → In a cs → pos_of st' a < pos_of st' c

-- The matrix, the columns and the lists are those of `st`, and there is room for a column.
pub record Roomy (class : ℕ → Class) (cs : List ℕ) (st st' : Cit) : Type 0 where
  pub valid : IsValid class st'.bitvec_size cs st'
  pub bits : (a i : ℕ) → In a cs → bit st' a i ≡ bit st a i
  pub positions : (a : ℕ) → pos_of st' a ≡ pos_of st a
  pub normal_head : st'.normal_head ≡ st.normal_head
  pub array_head : st'.array_head ≡ st.array_head
  pub fits : st'.column_idx < 32 * st'.bitvec_size

module _ {class : ℕ → Class} {cs : List ℕ} {st : Cit} (v : IsValid class st.bitvec_size cs st)
    (l : Listed cs st) where
  pub with_room-Roomy : Roomy class cs st (with_room class st)
  unfolding with_room
  with_room-Roomy = elim (Bool-cases (leb (st.bitvec_size * 32) st.column_idx)) [
    | inl full ↦
        let g = expand_binary_matrix-Grown v l in
        rw full (record {
          valid = expand_binary_matrix-IsValid v l;
          bits = g.bits;
          positions = g.positions;
          normal_head = g.normal_head;
          array_head = g.array_head;
          fits = omega (arith, g.bitvec_size, g.column_idx, v.room);
        })
    | inr free ↦ rw free (record {
      valid = v;
      bits = λ a i n. refl;
      positions = λ a. refl;
      normal_head = refl;
      array_head = refl;
      fits = ground arith;
    })
  ]

-- The invariant and the matrix do not depend on the lists and the encodings.
IsValid-relist :
    {class : ℕ → Class} {size : ℕ} {cs : List ℕ} {t : Cit} (normal array : List ℕ) (codes : ℕ → ℕ)
    → IsValid class size cs t
    → IsValid class size cs
        (record t { normal_head = normal; array_head = array; encoding = codes })
IsValid-relist normal array codes v = record {
  lengths = v.lengths;
  allocated = v.allocated;
  rows_apart = v.rows_apart;
  columns = v.columns;
  columns_apart = v.columns_apart;
  room = v.room;
  blank = v.blank;
  vtables = v.vtables;
}

pub relist :
    {class : ℕ → Class} {cs : List ℕ} {c : ℕ} {new_row new_column : ℕ → Bool} {st t : Cit}
    (normal array : List ℕ) (codes : ℕ → ℕ)
    → Added class cs c new_row new_column st t
    → Added class cs c new_row new_column st
        (record t { normal_head = normal; array_head = array; encoding = codes })
relist normal array codes a = record {
  valid = IsValid-relist normal array codes a.valid;
  old_old = a.old_old;
  new_new = a.new_new;
  new_old = a.new_old;
  old_new = a.old_new;
  old_pos = a.old_pos;
  new_pos = a.new_pos;
}

sized :
    {class : ℕ → Class} {cs : List ℕ} {s t : Cit}
    → IsValid class s.bitvec_size cs t
    → SameShape s t
    → IsValid class t.bitvec_size cs t
sized {class} {cs} {s} {t} v h = subst (λ k. IsValid class k cs t) (sym h.bitvec_size) v

-- The bit in the row of the superclass or of an interface, at the column of `b`.
abbrev pub parent_row : (ℕ → Class) → Cit → ℕ → ℕ → Bool
parent_row class st c b =
    super_bit st (class c).superclass (pos_of st b) || any_bit st (class c).interfaces (pos_of st b)

module _ {class : ℕ → Class} {cs : List ℕ} {st : Cit} (v : IsValid class st.bitvec_size cs st)
    (c : ℕ) (fresh : ¬ In c cs) (fits : st.column_idx < 32 * st.bitvec_size)
    (parent : Within cs (class c).superclass) where
  claimed : Claimed class cs c st (claim_column class c st)
  claimed = claim_column-Claimed v c fresh fits parent

  c_apart : (a : ℕ) → In a cs → c ≢ a
  c_apart a m e = fresh (subst (λ x. In x cs) (sym e) m)

  any_bit-claimed :
      (is : List ℕ) (i : ℕ)
      → ((d : ℕ) → In d is → In d cs)
      → any_bit (claim_column class c st) is i ≡ any_bit st is i
  any_bit-claimed [] i sub = refl
  any_bit-claimed (d ∷ is) i sub =
      ground (
        arith,
        claimed.old_bits d i (sub d (inl refl)),
        any_bit-claimed is i (λ x n. sub x (inr n)),
      )

  any_bit-blank :
      (is : List ℕ) → ((d : ℕ) → In d is → In d cs) → any_bit st is st.column_idx ≡ false
  any_bit-blank [] sub = refl
  any_bit-blank (d ∷ is) sub = ground (
    arith,
    v.blank d st.column_idx (sub d (inl refl)) (omega arith),
    any_bit-blank is (λ x n. sub x (inr n)),
  )

  -- From the claimed column to the end: `extra` are the bits that the rest of the function sets.
  module _ {t : Cit} (valid : IsValid class t.bitvec_size (c ∷ cs) t)
      (shape : SameShape (claim_column class c st) t) (extra : ℕ → ℕ → Bool)
      (bits : (a i : ℕ)
        → In a (c ∷ cs)
        → bit t a i ≡ (bit (claim_column class c st) a i || extra a i)) where
    pos_old : (a : ℕ) → In a cs → pos_of t a ≡ pos_of st a
    pos_old a m = pos_of-same a shape ∙ claimed.old_pos a m

    pos_new : pos_of t c ≡ st.column_idx
    pos_new = pos_of-same c shape ∙ claimed.new_pos

    Added-from :
        (new_row new_column : ℕ → Bool)
        → ((a b : ℕ) → In a cs → In b cs → extra a (pos_of st b) ≡ false)
        → ((b : ℕ)
            → In b cs
            → (super_bit st (class c).superclass (pos_of st b) || extra c (pos_of st b))
              ≡ new_row b)
        → ((a : ℕ) → In a cs → extra a st.column_idx ≡ new_column a)
        → Added class cs c new_row new_column st t
    Added-from new_row new_column none_old row column = record {
      valid = valid;
      old_old = λ a b m n. rw (pos_old b n) (
          ground (
            arith,
            bits a (pos_of st b) (inr m),
            claimed.old_bits a (pos_of st b) m,
            none_old a b m n,
          ));
      new_new =
          rw pos_new
            (ground (arith, bits c st.column_idx (inl refl), claimed.new_bits st.column_idx));
      new_old = λ b n. rw (pos_old b n) (
          ground (
            arith,
            bits c (pos_of st b) (inl refl),
            claimed.new_bits (pos_of st b),
            row b n,
            v.columns b n,
          ));
      old_new = λ a m. rw pos_new (
          ground (
            arith,
            bits a st.column_idx (inr m),
            claimed.old_bits a st.column_idx m,
            v.blank a st.column_idx m (omega arith),
            column a m,
          ));
      old_pos = pos_old;
      new_pos = λ a m. omega (arith, pos_old a m, pos_new, v.columns a m);
    }

  module _ (interfaces : (d : ℕ) → In d (class c).interfaces → In d cs) where
    joined :
        Joined class
          (c ∷ cs)
          c
          (class c).interfaces
          (claim_column class c st)
          (or_interfaces c (class c).interfaces (claim_column class c st))
    joined =
        or_interfaces-Joined c (inl refl) (class c).interfaces
          (subst (λ k. IsValid class k (c ∷ cs) (claim_column class c st)) (sym claimed.bitvec_size)
            claimed.valid)
          (λ d n. (inr (interfaces d n), c_apart d (interfaces d n)))

    pub normal-Added :
        Added class cs c
          (parent_row class st c)
          (λ a. false)
          st
          (update_normal_class_hierarchy class c (claim_column class c st))
    unfolding update_normal_class_hierarchy
    normal-Added = relist _ _ _ (
        Added-from (sized joined.valid joined.shape) joined.shape
          (λ a i. (c == a) && any_bit (claim_column class c st) (class c).interfaces i) joined.bits
          (parent_row class st c) (λ a. false)
          (λ a b m n. ground (arith, ==_of_ne c a (c_apart a m)))
          (λ b n.
            ground
              (arith, ==_self c, any_bit-claimed (class c).interfaces (pos_of st b) interfaces))
          (λ a m. ground (arith, ==_of_ne c a (c_apart a m))))

    pub normal_heads :
        ((update_normal_class_hierarchy class c (claim_column class c st)).normal_head
          ≡ c ∷ st.normal_head)
        × ((update_normal_class_hierarchy class c (claim_column class c st)).array_head
            ≡ st.array_head)
    unfolding update_normal_class_hierarchy
    normal_heads = (
      ap (λ l. c ∷ l) (joined.shape.normal_head ∙ claimed.normal_head),
      joined.shape.array_head ∙ claimed.array_head,
    )

  pub array_head-claimed : (claim_column class c st).array_head ≡ st.array_head
  array_head-claimed = claimed.array_head

  -- The state in which the loop over the array classes starts.
  abbrev pub encoded : (ℕ → ℕ) → Cit
  encoded codes = record (claim_column class c st) { encoding = codes }

  module _ (object_class : ℕ) (codes : ℕ → ℕ) (arrays : (t : ℕ) → In t st.array_head → In t cs)
      (elements : (t : ℕ)
        → In t st.array_head
        → (class (class c).element_type).is_primitive || (class (class t).element_type).is_primitive
          ≡ false
        → Untouched cs c st.array_head (class c).element_type
          × Untouched cs c st.array_head (class t).element_type) where
    encoded-IsValid : IsValid class st.bitvec_size (c ∷ cs) (encoded codes)
    encoded-IsValid = IsValid-relist _ _ codes claimed.valid

    wider : (x : ℕ) → Untouched cs c st.array_head x → Untouched (c ∷ cs) c st.array_head x
    wider x u = (inr u.0, u.1, u.2)

    -- The element types are old classes, and the matrix says of them what it said.
    sub-encoded : (x y : ℕ) → In x cs → In y cs → sub_of (encoded codes) x y ≡ sub_of st x y
    sub-encoded x y m n =
        ap (λ p. bit (claim_column class c st) x p) (claimed.old_pos y n)
        ∙ claimed.old_bits x (pos_of st y) m

    related :
        Related class object_class st.bitvec_size
          (c ∷ cs)
          (sub_of st)
          c
          st.array_head
          (encoded codes)
          (relate_all class object_class c st.array_head (encoded codes))
    related =
        relate_all-Related class object_class c (inl refl) (sub_of st) st.array_head
          (λ t n. inr (arrays t n)) (λ t n p. let (u, w) = elements t n p in (wider _ u, wider _ w))
          st.array_head encoded-IsValid (λ x n. n)
          (λ t n p.
            let (u, w) = elements t n p in (sub-encoded _ _ u.0 w.0, sub-encoded _ _ w.0 u.0))

    related-IsValid :
        IsValid class
          (relate_all class object_class c st.array_head (encoded codes)).bitvec_size
          (c ∷ cs)
          (relate_all class object_class c st.array_head (encoded codes))
    related-IsValid =
        subst
          (λ k.
            IsValid class k (c ∷ cs)
              (relate_all class object_class c st.array_head (encoded codes)))
          (sym (related.shape.bitvec_size ∙ claimed.bitvec_size)) related.valid

    related_shape :
        SameShape
          (claim_column class c st)
          (relate_all class object_class c st.array_head (encoded codes))
    related_shape = record {
      type_rep = related.shape.type_rep;
      column_idx = related.shape.column_idx;
      bitvec_size = related.shape.bitvec_size;
      normal_head = related.shape.normal_head;
      array_head = related.shape.array_head;
    }

    extra : ℕ → ℕ → Bool
    extra a i =
        ((c == a) && any_new class object_class (sub_of st) (encoded codes) c st.array_head i)
        || ((pos_of (encoded codes) c == i)
            && any_old class object_class (sub_of st) c st.array_head a)

    any_new-encoded :
        (ts : List ℕ) (i : ℕ)
        → ((t : ℕ) → In t ts → In t cs)
        → any_new class object_class (sub_of st) (encoded codes) c ts i
          ≡ any_new class object_class (sub_of st) st c ts i
    any_new-encoded [] i sub = refl
    any_new-encoded (t ∷ ts) i sub =
        ground
          (arith, claimed.old_pos t (sub t (inl refl)), any_new-encoded ts i (λ x n. sub x (inr n)))

    any_new-unused :
        (ts : List ℕ)
        → ((t : ℕ) → In t ts → In t cs)
        → any_new class object_class (sub_of st) st c ts st.column_idx ≡ false
    any_new-unused [] sub = refl
    any_new-unused (t ∷ ts) sub =
        ground (arith, v.columns t (sub t (inl refl)), any_new-unused ts (λ x n. sub x (inr n)))

    pub array-Added :
        Added class cs c
          (λ b.
            super_bit st (class c).superclass (pos_of st b)
            || any_new class object_class (sub_of st) st c st.array_head (pos_of st b))
          (λ a. any_old class object_class (sub_of st) c st.array_head a)
          st
          (relate_all class object_class c st.array_head (encoded codes))
    unfolding extra
    array-Added =
        Added-from related-IsValid related_shape extra related.bits _ _
          (λ a b m n. ground (arith, ==_of_ne c a (c_apart a m), claimed.new_pos, v.columns b n))
          (λ b n. ground (
            arith,
            ==_self c,
            claimed.new_pos,
            v.columns b n,
            any_new-encoded st.array_head (pos_of st b) arrays,
          ))
          (λ a m. ground (arith, ==_of_ne c a (c_apart a m), claimed.new_pos))

    pub array_heads :
        ((relate_all class object_class c st.array_head (encoded codes)).normal_head
          ≡ st.normal_head)
        × ((relate_all class object_class c st.array_head (encoded codes)).array_head
            ≡ st.array_head)
    array_heads = (
      related_shape.normal_head ∙ claimed.normal_head,
      related_shape.array_head ∙ claimed.array_head,
    )
