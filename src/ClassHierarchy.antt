-- ===== src/ClassHierarchy.antt =====
-- runtime/class_inclusion_test.c: the matrix of bits by which the virtual machine decides whether
-- one loaded class is a subclass of another.
--
-- A class is its number. What the loader has written into a class before this code sees it is the
-- table `class`; what this code writes is the state `Cit`, with rows on an explicit heap, so that
-- `type_rep.row` and the virtual table's `row` are two pointers that may or may not agree.
mod Bits
mod Invariant
mod Stores
mod Expand
mod Enter
mod Arrays
mod Load
pub mod Faithful
mod Step
mod Parents
mod Matches
mod Reached
pub mod Spec
pub mod Inclusion
pub mod Tests
use la_tte.Common.{
  ℕ, zero, suc, ◌+◌, ◌-◌, ◌*◌, ◌≤◌, bit_and, bit_or, Bool, true, false, not, ◌&&◌, ◌||◌, Option,
  none, some, List, [], ◌∷◌, ◌==◌, leb, if◌then◌else◌, get_or, set, replicate, update,
}
use la_tte.Word.{shr, shl}
use la_tte.BitRow.{each_word}

-- `TypeRep` of classMethod.h
pub record TypeRep : Type 0 where
  pub pos : ℕ
  pub row : ℕ

-- The fields of `Hjava_lang_Class` that are read here. The last three are those of an array class.
pub record Class : Type 0 where
  pub superclass : Option ℕ
  pub interfaces : List ℕ
  pub is_array : Bool
  pub is_primitive : Bool
  pub has_vtable : Bool
  pub component_type : ℕ
  pub element_type : ℕ
  pub dimension : ℕ

-- The static variables of the file, and what it writes into classes and virtual tables.
pub record Cit : Type 0 where
  pub column_idx : ℕ
  pub bitvec_size : ℕ
  pub normal_head : List ℕ
  pub array_head : List ℕ
  pub type_rep : ℕ → TypeRep
  pub vtable_row : ℕ → ℕ
  pub encoding : ℕ → ℕ
  pub heap : ℕ → List ℕ
  pub heap_end : ℕ

abbrev pub expand_bitvec_size : ℕ
expand_bitvec_size = 5

-- `INITIAL_BITVEC_SIZE` columns of words, and no class.
abbrev pub init : Cit
init = record {
  column_idx = 0;
  bitvec_size = 5;
  normal_head = [];
  array_head = [];
  type_rep = λ c. record { pos = 0; row = 0 };
  vtable_row = λ c. 0;
  encoding = λ c. 0;
  heap = λ p. [];
  heap_end = 0;
}

-- `row[pos >> 5] |= (0x1 << (31-(pos & 0x1f)))`
unfoldable pub set_ith_bit : List ℕ → ℕ → List ℕ
set_ith_bit row pos =
    set row (shr pos 5) (bit_or (get_or row (shr pos 5) 0) (shl 1 (31 - bit_and pos 0x1f)))

unfoldable pub is_ith_bit_set : List ℕ → ℕ → Bool
is_ith_bit_set row pos =
    not (bit_and (get_or row (shr pos 5) 0) (shl 1 (31 - bit_and pos 0x1f)) == 0)

-- `*type_rep->row` of a class
abbrev pub row_of : Cit → ℕ → List ℕ
row_of st c = st.heap (st.type_rep c).row

abbrev pub pos_of : Cit → ℕ → ℕ
pos_of st c = (st.type_rep c).pos

-- A store through `type_rep->row`.
unfoldable pub write_row : ℕ → List ℕ → Cit → Cit
write_row c words st = record st { heap = update st.heap (st.type_rep c).row words }

-- `set_ith_bit(type_rep(c)->row, pos)`
unfoldable pub mark : ℕ → ℕ → Cit → Cit
unfolding write_row
mark c pos st = write_row c (set_ith_bit (row_of st c) pos) st

-- `CIT_SetEncoding`: the byte and the mask of a column.
unfoldable pub make_encoding : ℕ → ℕ
make_encoding pos = bit_or (shl (shr pos 3) 8) (shl 1 (7 - bit_and pos 0x7))

-- `CIT_is_subclass`
unfoldable pub is_subclass : Cit → ℕ → ℕ → Bool
is_subclass st class1 class2 = is_ith_bit_set (row_of st class1) (pos_of st class2)

-- The loop over the interfaces: `type_rep->row[j] |= Class_GetTypeRep(interface)->row[j]`.
unfoldable pub or_interfaces : ℕ → List ℕ → Cit → Cit
unfolding write_row
or_interfaces c [] st = st
or_interfaces c (i ∷ is) st =
    or_interfaces c is
      (write_row c (each_word bit_or st.bitvec_size 0 (row_of st c) (row_of st i)) st)

-- `memcpy(type_rep->row, Class_GetTypeRep(superclass)->row, …)` where there is a superclass
unfoldable pub copy_super : ℕ → Option ℕ → Cit → Cit
unfolding write_row
copy_super c none st = st
copy_super c (some s) st =
    write_row c (each_word (λ d s. s) st.bitvec_size 0 (row_of st c) (row_of st s)) st

module _ (class : ℕ → Class) where
  -- `type_rep->row = CIT_MALLOC(bitvec_size)`, a fresh block of zeros, and the virtual table's copy
  -- of the pointer.
  unfoldable pub new_row : ℕ → Cit → Cit
  new_row c st = record st {
    heap = update st.heap st.heap_end (replicate st.bitvec_size 0);
    heap_end = st.heap_end + 1;
    type_rep = update st.type_rep c (record { pos = pos_of st c; row = st.heap_end });
    vtable_row = if (class c).has_vtable then update st.vtable_row c st.heap_end else st.vtable_row;
  }

  -- `_expand_binary_matrix_in_class_list`
  unfoldable pub expand_in_class_list : List ℕ → ℕ → Cit → Cit
  unfolding new_row write_row
  expand_in_class_list [] prev_size st = st
  expand_in_class_list (c ∷ cl) prev_size st =
      let prev_row = row_of st c in
      let st' = new_row c st in
      expand_in_class_list cl prev_size
        (write_row c (each_word (λ d s. s) prev_size 0 (row_of st' c) prev_row) st')

  unfoldable pub expand_binary_matrix : Cit → Cit
  unfolding expand_in_class_list
  expand_binary_matrix st =
      let prev_size = st.bitvec_size in
      let st1 = record st { bitvec_size = st.bitvec_size + expand_bitvec_size } in
      let st2 = expand_in_class_list st1.normal_head prev_size st1 in
      expand_in_class_list st2.array_head prev_size st2

  -- `_update_normal_class_hierarchy`
  unfoldable pub update_normal_class_hierarchy : ℕ → Cit → Cit
  unfolding or_interfaces
  update_normal_class_hierarchy c st =
      let st' = or_interfaces c (class c).interfaces st in
      record st' { normal_head = c ∷ st'.normal_head }

  -- The new row, before the hierarchy of the class is entered: the superclass's row is copied in,
  -- and the class is a subclass of itself.
  unfoldable pub claim_column : ℕ → Cit → Cit
  unfolding new_row copy_super mark
  claim_column c st =
      let st1 = record st {
        type_rep = update st.type_rep c (record { pos = st.column_idx; row = (st.type_rep c).row });
        column_idx = st.column_idx + 1;
      } in
      let st2 = new_row c st1 in
      let st3 = copy_super c (class c).superclass st2 in mark c (pos_of st3 c) st3

  module _ (object_class : ℕ) where
    -- One round of the loop of `_update_array_class_hierarchy`, at the array class `t` of the list.
    unfoldable pub relate_arrays : ℕ → ℕ → Cit → Cit
    unfolding mark
    relate_arrays c t st =
        let elem = (class c).element_type in
        let tmp_elem = (class t).element_type in
        let dim = (class c).dimension in
        let tmp_dim = (class t).dimension in
        if elem == object_class
        then if leb dim tmp_dim then mark t (pos_of st c) st else st
        else if tmp_elem == object_class
        then if leb tmp_dim dim then mark c (pos_of st t) st else st
        else if dim == tmp_dim
        then if (class elem).is_primitive || (class tmp_elem).is_primitive
          then st
          else if is_ith_bit_set (row_of st elem) (pos_of st tmp_elem)
          then mark c (pos_of st t) st
          else if is_ith_bit_set (row_of st tmp_elem) (pos_of st elem)
          then mark t (pos_of st c) st
          else st
        else st

    unfoldable pub relate_all : ℕ → List ℕ → Cit → Cit
    unfolding relate_arrays
    relate_all c [] st = st
    relate_all c (t ∷ cl) st = relate_all c cl (relate_arrays c t st)

    -- `_update_array_class_hierarchy`
    unfoldable pub update_array_class_hierarchy : ℕ → Cit → Cit
    unfolding relate_all make_encoding
    update_array_class_hierarchy c st =
        let component = (class c).component_type in
        let st1 = if (class component).is_primitive then st else record st {
          encoding = update st.encoding c (make_encoding (pos_of st component));
        } in
        let st2 = relate_all c st1.array_head st1 in record st2 { array_head = c ∷ st2.array_head }

    -- `CIT_update_class_hierarchy`
    unfoldable pub update_class_hierarchy : ℕ → Cit → Cit
    unfolding expand_binary_matrix claim_column update_array_class_hierarchy
        update_normal_class_hierarchy
    update_class_hierarchy c st =
        let st1 = if leb (st.bitvec_size * 32) st.column_idx then expand_binary_matrix st else st in
        let st2 = claim_column c st1 in
        if (class c).is_array
        then update_array_class_hierarchy c st2
        else update_normal_class_hierarchy c st2
