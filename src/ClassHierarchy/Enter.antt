-- ===== src/ClassHierarchy/Enter.antt =====
-- `CIT_update_class_hierarchy` up to the lists: the column and the row of the new class, with the
-- superclass's row copied in, and the loop over its interfaces.
use la_tte.Common.{
  ℕ, ◌+◌, ◌*◌, ◌<◌, ◌≡◌, ◌≢◌, refl, sym, ap, ◌∙◌, inl, inr, Bool, false, List, [], ◌∷◌, ◌==◌,
  ==_of_ne, ◌&&◌, ◌||◌, if◌then◌else◌, Option, none, some, In, subst, arith,
}
use la_tte.BitRow.{bit_at, bit_at-zeros}
use la_tte.ClassHierarchy.{
  Class, Cit, TypeRep, pos_of, write_row, new_row, mark, copy_super, or_interfaces, claim_column,
}
use la_tte.ClassHierarchy.Invariant.{
  IsValid, enter, row_of-enter_self, row_of-enter, pos_of-enter_self, pos_of-enter, enter-IsValid,
}
use la_tte.ClassHierarchy.Stores.{
  bit, bit-mark, mark-IsValid, joined, bit-join, join-IsValid, bit-copy, copy-IsValid,
}

-- What stores into rows leave alone.
pub record SameShape (s t : Cit) : Type 0 where
  pub type_rep : t.type_rep ≡ s.type_rep
  pub column_idx : t.column_idx ≡ s.column_idx
  pub bitvec_size : t.bitvec_size ≡ s.bitvec_size
  pub normal_head : t.normal_head ≡ s.normal_head
  pub array_head : t.array_head ≡ s.array_head

pub SameShape-refl : (s : Cit) → SameShape s s
SameShape-refl s = record {
  type_rep = refl;
  column_idx = refl;
  bitvec_size = refl;
  normal_head = refl;
  array_head = refl;
}

pub SameShape-trans : {s t u : Cit} → SameShape s t → SameShape t u → SameShape s u
SameShape-trans g h = record {
  type_rep = h.type_rep ∙ g.type_rep;
  column_idx = h.column_idx ∙ g.column_idx;
  bitvec_size = h.bitvec_size ∙ g.bitvec_size;
  normal_head = h.normal_head ∙ g.normal_head;
  array_head = h.array_head ∙ g.array_head;
}

pub SameShape-mark : (c pos : ℕ) (st : Cit) → SameShape st (mark c pos st)
unfolding mark write_row
SameShape-mark c pos st = record {
  type_rep = refl;
  column_idx = refl;
  bitvec_size = refl;
  normal_head = refl;
  array_head = refl;
}

pub pos_of-same : {s t : Cit} (a : ℕ) → SameShape s t → pos_of t a ≡ pos_of s a
pos_of-same a h = ap (λ (f : ℕ → TypeRep). (f a).pos) h.type_rep

-- Bit `i` of the superclass's row.
abbrev pub super_bit : Cit → Option ℕ → ℕ → Bool
super_bit st none i = false
super_bit st (some s) i = bit st s i

-- Whether bit `i` is set in one of the rows.
abbrev pub any_bit : Cit → List ℕ → ℕ → Bool
any_bit st [] i = false
any_bit st (d ∷ ds) i = bit st d i || any_bit st ds i

abbrev pub Within : List ℕ → Option ℕ → Type 0
Within cs none = Unit
Within cs (some s) = In s cs

module _ {class : ℕ → Class} {cs : List ℕ} {st : Cit} (v : IsValid class st.bitvec_size cs st)
    (c : ℕ) (m : In c cs) where
  copy_super-IsValid :
      (o : Option ℕ) → Within cs o → IsValid class st.bitvec_size cs (copy_super c o st)
  unfolding copy_super
  copy_super-IsValid none w = v
  copy_super-IsValid (some s) w = copy-IsValid v c s m w

  SameShape-copy_super : (o : Option ℕ) → SameShape st (copy_super c o st)
  unfolding copy_super write_row
  SameShape-copy_super none = SameShape-refl st
  SameShape-copy_super (some s) = record {
    type_rep = refl;
    column_idx = refl;
    bitvec_size = refl;
    normal_head = refl;
    array_head = refl;
  }

  bit-copy_super :
      (o : Option ℕ) (a i : ℕ)
      → Within cs o
      → In a cs
      → ((i : ℕ) → bit st c i ≡ false)
      → bit (copy_super c o st) a i ≡ (if c == a then super_bit st o i else bit st a i)
  unfolding copy_super
  bit-copy_super none a i w n blank = ground (arith, blank i)
  bit-copy_super (some s) a i w n blank = bit-copy v c s a i m w n

-- What the loop over the interfaces leaves.
pub record Joined (class : ℕ → Class) (cs : List ℕ) (c : ℕ) (is : List ℕ) (st st' : Cit)
    : Type 0 where
  pub valid : IsValid class st.bitvec_size cs st'
  pub bits : (a i : ℕ) → In a cs → bit st' a i ≡ (bit st a i || ((c == a) && any_bit st is i))
  pub shape : SameShape st st'

any_bit-same :
    (s t : Cit) (is : List ℕ) (i : ℕ)
    → ((d : ℕ) → In d is → bit t d i ≡ bit s d i)
    → any_bit t is i ≡ any_bit s is i
any_bit-same s t [] i h = refl
any_bit-same s t (d ∷ is) i h =
    ground (arith, h d (inl refl), any_bit-same s t is i (λ d n. h d (inr n)))

SameShape-write_row : (c : ℕ) (words : List ℕ) (st : Cit) → SameShape st (write_row c words st)
unfolding write_row
SameShape-write_row c words st = record {
  type_rep = refl;
  column_idx = refl;
  bitvec_size = refl;
  normal_head = refl;
  array_head = refl;
}

module _ {class : ℕ → Class} {cs : List ℕ} (c : ℕ) (m : In c cs) where
  -- Joining the row of `d` changes no row but that of `c`.
  bit-join_ne :
      {st : Cit} (v : IsValid class st.bitvec_size cs st) (d a i : ℕ)
      → In d cs
      → In a cs
      → c ≢ a
      → bit (write_row c (joined v c d) st) a i ≡ bit st a i
  bit-join_ne v d a i n k ne = ground (arith, bit-join v c d a i m n k, ==_of_ne c a ne)

  pub or_interfaces-Joined :
      (is : List ℕ) {st : Cit}
      → IsValid class st.bitvec_size cs st
      → ((d : ℕ) → In d is → In d cs × (c ≢ d))
      → Joined class cs c is st (or_interfaces c is st)
  unfolding or_interfaces
  or_interfaces-Joined [] v sub = record {
    valid = v;
    bits = λ a i n. ground arith;
    shape = SameShape-refl _;
  }
  or_interfaces-Joined (d ∷ is) {st} v sub =
      let d_in = (sub d (inl refl)).0 in
      let st1 = write_row c (joined v c d) st in
      let r =
        or_interfaces-Joined is {st = st1} (unfold write_row in join-IsValid v c d m d_in)
          (λ d n. sub d (inr n)) in
      record {
        valid = unfold write_row in r.valid;
        bits = λ a i n. ground (
          arith,
          r.bits a i n,
          bit-join v c d a i m d_in n,
          any_bit-same st st1 is i
              (λ x k. bit-join_ne v d x i d_in (sub x (inr k)).0 (sub x (inr k)).1),
        );
        shape = SameShape-trans (SameShape-write_row c (joined v c d) st) r.shape;
      }

-- The new class after `claim_column`.
pub record Claimed (class : ℕ → Class) (cs : List ℕ) (c : ℕ) (st st' : Cit) : Type 0 where
  pub valid : IsValid class st.bitvec_size (c ∷ cs) st'
  pub old_bits : (a i : ℕ) → In a cs → bit st' a i ≡ bit st a i
  pub new_bits :
      (i : ℕ) → bit st' c i ≡ ((st.column_idx == i) || super_bit st (class c).superclass i)
  pub old_pos : (a : ℕ) → In a cs → pos_of st' a ≡ pos_of st a
  pub new_pos : pos_of st' c ≡ st.column_idx
  pub column_idx : st'.column_idx ≡ st.column_idx + 1
  pub bitvec_size : st'.bitvec_size ≡ st.bitvec_size
  pub normal_head : st'.normal_head ≡ st.normal_head
  pub array_head : st'.array_head ≡ st.array_head

module _ {class : ℕ → Class} {cs : List ℕ} {st : Cit} (v : IsValid class st.bitvec_size cs st)
    (c : ℕ) (fresh : ¬ In c cs) (fits : st.column_idx < 32 * st.bitvec_size)
    (parent : Within cs (class c).superclass) where
  e-IsValid : IsValid class st.bitvec_size (c ∷ cs) (enter class c st)
  e-IsValid = enter-IsValid v c fresh fits (omega arith)

  within : (o : Option ℕ) → Within cs o → Within (c ∷ cs) o
  within none w = tt
  within (some s) w = inr w

  super_bit-enter :
      (o : Option ℕ) (i : ℕ) → Within cs o → super_bit (enter class c st) o i ≡ super_bit st o i
  super_bit-enter none i w = refl
  super_bit-enter (some s) i w =
      ap (λ r. bit_at r i) (row_of-enter v c fresh fits (omega arith) s w)

  blank_row : (i : ℕ) → bit (enter class c st) c i ≡ false
  blank_row i = rw (row_of-enter_self v c fresh fits (omega arith)) (bit_at-zeros st.bitvec_size i)

  -- The state before the class's own bit is set.
  st3 : Cit
  unfolding enter new_row
  st3 = copy_super c (class c).superclass (enter class c st)

  st3-IsValid : IsValid class st.bitvec_size (c ∷ cs) st3
  unfolding st3 enter new_row
  st3-IsValid =
      copy_super-IsValid {st = enter class c st} e-IsValid c (inl refl) (class c).superclass
        (within (class c).superclass parent)

  st3-shape : SameShape (enter class c st) st3
  unfolding st3 enter new_row
  st3-shape =
      SameShape-copy_super {st = enter class c st} e-IsValid c (inl refl) (class c).superclass

  st3-bits :
      (a i : ℕ)
      → In a (c ∷ cs)
      → bit st3 a i
        ≡ (if c == a then super_bit st (class c).superclass i else bit (enter class c st) a i)
  unfolding st3 enter new_row
  st3-bits a i n =
      bit-copy_super {st = enter class c st} e-IsValid c (inl refl) (class c).superclass a i
        (within (class c).superclass parent) n blank_row
      ∙ ap (λ x. if c == a then x else bit (enter class c st) a i)
          (super_bit-enter (class c).superclass i parent)

  st3-pos : pos_of st3 c ≡ st.column_idx
  st3-pos = pos_of-same c st3-shape ∙ pos_of-enter_self v c fresh fits (omega arith)

  st3-columns : st3.column_idx ≡ st.column_idx + 1
  unfolding enter new_row st3
  st3-columns = st3-shape.column_idx

  pub claim_column-Claimed : Claimed class cs c st (claim_column class c st)
  unfolding claim_column st3 enter new_row
  claim_column-Claimed =
      let room : pos_of st3 c < st3.column_idx = omega (arith, st3-pos, st3-columns) in
      let shape = SameShape-trans st3-shape (SameShape-mark c (pos_of st3 c) st3) in
      record {
        valid = mark-IsValid st3-IsValid c (pos_of st3 c) (inl refl) room;
        old_bits = λ a i n. ground (
          arith,
          bit-mark st3-IsValid c (pos_of st3 c) a i (inl refl) (inr n) room,
          st3-bits a i (inr n),
          apart_new a n,
          ap (λ r. bit_at r i) (row_of-enter v c fresh fits (omega arith) a n),
        );
        new_bits = λ i. ground (
          arith,
          bit-mark st3-IsValid c (pos_of st3 c) c i (inl refl) (inl refl) room,
          st3-bits c i (inl refl),
          st3-pos,
        );
        old_pos = λ a n. pos_of-same a shape ∙ pos_of-enter v c fresh fits (omega arith) a n;
        new_pos = pos_of-same c shape ∙ pos_of-enter_self v c fresh fits (omega arith);
        column_idx = shape.column_idx ∙ refl;
        bitvec_size = shape.bitvec_size ∙ refl;
        normal_head = shape.normal_head ∙ refl;
        array_head = shape.array_head ∙ refl;
      }
    where
      apart_new : (a : ℕ) → In a cs → (c == a) ≡ false
      apart_new a n = ==_of_ne c a (λ e. fresh (subst (λ x. In x cs) (sym e) n))
