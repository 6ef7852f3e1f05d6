-- ===== src/ClassHierarchy/Invariant.antt =====
-- What holds of the rows of the classes `cs` that have been entered, and its preservation by a store
-- into one row and by the entry of a fresh class.
use la_tte.Common.{
  ℕ, ◌+◌, ◌*◌, ◌≤◌, ◌<◌, ◌≡◌, ◌≢◌, sym, ap, ◌∙◌, subst, inl, inr, true, false, List, ◌∷◌, ◌==◌,
  if◌then◌else◌, length, replicate, length-replicate, update, In, arith,
}
use la_tte.BitRow.{bit_at, bit_at-zeros}
use la_tte.ClassHierarchy.{Class, Cit, TypeRep, row_of, pos_of, write_row, new_row}

-- Every row has `size` words at least; no two classes share a row or a column; what lies past the
-- columns in use is blank; the virtual table points to the row.
pub record IsValid (class : ℕ → Class) (size : ℕ) (cs : List ℕ) (st : Cit) : Type 0 where
  pub lengths : (c : ℕ) → In c cs → size ≤ length (row_of st c)
  pub allocated : (c : ℕ) → In c cs → (st.type_rep c).row < st.heap_end
  pub rows_apart : (a b : ℕ) → In a cs → In b cs → (st.type_rep a).row ≡ (st.type_rep b).row → a ≡ b
  pub columns : (c : ℕ) → In c cs → pos_of st c < st.column_idx
  pub columns_apart : (a b : ℕ) → In a cs → In b cs → pos_of st a ≡ pos_of st b → a ≡ b
  pub room : st.column_idx ≤ 32 * size
  pub blank : (c i : ℕ) → In c cs → st.column_idx ≤ i → bit_at (row_of st c) i ≡ false
  pub vtables :
      (c : ℕ) → In c cs → (class c).has_vtable ≡ true → st.vtable_row c ≡ (st.type_rep c).row

-- The row of `a` after a store into the row of `c`.
pub row_of-write_row :
    (st : Cit) (c a : ℕ) (words : List ℕ)
    → ((st.type_rep c).row ≡ (st.type_rep a).row → c ≡ a)
    → row_of (write_row c words st) a ≡ (if c == a then words else row_of st a)
unfolding write_row
row_of-write_row st c a words apart = ground arith

module _ {class : ℕ → Class} {size : ℕ} {cs : List ℕ} {st : Cit}
    (v : IsValid class size cs st) where
  pub write_row-IsValid :
      (c : ℕ) (words : List ℕ)
      → In c cs
      → size ≤ length words
      → ((i : ℕ) → st.column_idx ≤ i → bit_at words i ≡ false)
      → IsValid class size cs (write_row c words st)
  unfolding write_row
  write_row-IsValid c words m long past = record {
    lengths = λ a h.
        subst (λ r. size ≤ length r) (sym (row_of-write_row st c a words (v.rows_apart c a m h)))
          (ground (arith, v.lengths a h));
    allocated = v.allocated;
    rows_apart = v.rows_apart;
    columns = v.columns;
    columns_apart = v.columns_apart;
    room = v.room;
    blank = λ a i h p.
        ap (λ r. bit_at r i) (row_of-write_row st c a words (v.rows_apart c a m h))
        ∙ ground (arith, v.blank a i h p, past i p);
    vtables = v.vtables;
  }

-- A class that has not been entered takes the next column, and a fresh row of zeros.
abbrev pub at_next_column : ℕ → Cit → Cit
at_next_column c st = record st {
  type_rep = update st.type_rep c (record { pos = st.column_idx; row = (st.type_rep c).row });
  column_idx = st.column_idx + 1;
}

unfoldable pub enter : (ℕ → Class) → ℕ → Cit → Cit
enter class c st = new_row class c (at_next_column c st)

module _ {class : ℕ → Class} {size : ℕ} {cs : List ℕ} {st : Cit} (v : IsValid class size cs st)
    (c : ℕ) (fresh : ¬ In c cs) (fits : st.column_idx < 32 * size)
    (wide : size ≤ st.bitvec_size) where
  apart : (a : ℕ) → In a cs → c ≢ a
  apart a m e = fresh (subst (λ x. In x cs) (sym e) m)

  pub row_of-enter_self : row_of (enter class c st) c ≡ replicate st.bitvec_size 0
  unfolding enter new_row
  row_of-enter_self = ground arith

  pub pos_of-enter_self : pos_of (enter class c st) c ≡ st.column_idx
  unfolding enter new_row
  pos_of-enter_self = ground arith

  type_rep-enter : (a : ℕ) → c ≢ a → (enter class c st).type_rep a ≡ st.type_rep a
  unfolding enter new_row
  type_rep-enter a ne = ground arith

  pub pos_of-enter : (a : ℕ) → In a cs → pos_of (enter class c st) a ≡ pos_of st a
  pos_of-enter a m = ap (λ (t : TypeRep). t.pos) (type_rep-enter a (apart a m))

  pub row_of-enter : (a : ℕ) → In a cs → row_of (enter class c st) a ≡ row_of st a
  unfolding enter new_row
  row_of-enter a m = ground (arith, apart a m, v.allocated a m)

  address-enter_self : ((enter class c st).type_rep c).row ≡ st.heap_end
  unfolding enter new_row
  address-enter_self = ground arith

  address-enter : (a : ℕ) → In a cs → ((enter class c st).type_rep a).row ≡ (st.type_rep a).row
  address-enter a m = ap (λ (t : TypeRep). t.row) (type_rep-enter a (apart a m))

  enter-lengths : (a : ℕ) → In a (c ∷ cs) → size ≤ length (row_of (enter class c st) a)
  enter-lengths a (inl e) = rw (e, row_of-enter_self, length-replicate) wide
  enter-lengths a (inr m) = rw (row_of-enter a m) (v.lengths a m)

  enter-rows_apart :
      (a b : ℕ)
      → In a (c ∷ cs)
      → In b (c ∷ cs)
      → ((enter class c st).type_rep a).row ≡ ((enter class c st).type_rep b).row
      → a ≡ b
  enter-rows_apart a b (inl e) (inl f) p = e ∙ sym f
  enter-rows_apart a b (inl e) (inr m) p =
      absurd (ground (arith, address-enter_self, address-enter b m, v.allocated b m))
  enter-rows_apart a b (inr m) (inl f) p =
      absurd (ground (arith, address-enter_self, address-enter a m, v.allocated a m))
  enter-rows_apart a b (inr m) (inr n) p =
      v.rows_apart a b m n (sym (address-enter a m) ∙ p ∙ address-enter b n)

  enter-columns_apart :
      (a b : ℕ)
      → In a (c ∷ cs)
      → In b (c ∷ cs)
      → pos_of (enter class c st) a ≡ pos_of (enter class c st) b
      → a ≡ b
  enter-columns_apart a b (inl e) (inl f) p = e ∙ sym f
  enter-columns_apart a b (inl e) (inr m) p =
      absurd (ground (arith, pos_of-enter_self, pos_of-enter b m, v.columns b m))
  enter-columns_apart a b (inr m) (inl f) p =
      absurd (ground (arith, pos_of-enter_self, pos_of-enter a m, v.columns a m))
  enter-columns_apart a b (inr m) (inr n) p =
      v.columns_apart a b m n (sym (pos_of-enter a m) ∙ p ∙ pos_of-enter b n)

  enter-blank :
      (a i : ℕ)
      → In a (c ∷ cs)
      → st.column_idx + 1 ≤ i
      → bit_at (row_of (enter class c st) a) i ≡ false
  enter-blank a i (inl e) p = rw (e, row_of-enter_self) (bit_at-zeros st.bitvec_size i)
  enter-blank a i (inr m) p = rw (row_of-enter a m) (v.blank a i m (omega arith))

  pub enter-IsValid : IsValid class size (c ∷ cs) (enter class c st)
  unfolding enter new_row
  enter-IsValid = record {
    lengths = enter-lengths;
    allocated = λ a h. elim h [ inl e ↦ ground arith | inr m ↦ ground (arith, v.allocated a m) ];
    rows_apart = enter-rows_apart;
    columns = λ a h. elim h [ inl e ↦ ground arith | inr m ↦ ground (arith, v.columns a m) ];
    columns_apart = enter-columns_apart;
    room = omega arith;
    blank = enter-blank;
    vtables = λ a h p. elim h [
      | inl e ↦ ground arith
      | inr m ↦ ground (arith, apart a m, v.vtables a m p)
    ];
  }
