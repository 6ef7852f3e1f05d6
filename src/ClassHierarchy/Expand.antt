-- ===== src/ClassHierarchy/Expand.antt =====
-- `expand_binary_matrix`: every row moves to a longer block, and no bit changes.
use la_tte.Common.{
  ℕ, ◌+◌, ◌≤◌, ◌≡◌, ◌≢◌, refl, sym, ap, ◌∙◌, subst, inl, inr, true, List, [], ◌∷◌, ◌++◌, ◌==◌,
  ==_iff, if◌then◌else◌, length, replicate, length-replicate, In, In-append, Bool-cases, arith,
}
use la_tte.BitRow.{bit_at, bit_at-zeros, each_word, length-each_word, bit_at-copy_each}
use la_tte.ClassHierarchy.{
  Class, Cit, row_of, pos_of, write_row, new_row, expand_in_class_list, expand_binary_matrix,
  expand_bitvec_size,
}
use la_tte.ClassHierarchy.Invariant.{IsValid}
use la_tte.ClassHierarchy.Stores.{bit}

-- One class of the list: a longer row, with the words of the old one in front.
pub grow : (ℕ → Class) → ℕ → ℕ → Cit → Cit
grow class prev c st =
    write_row c (each_word (λ d s. s) prev 0 (row_of (new_row class c st) c) (row_of st c))
      (new_row class c st)

-- What a part of the expansion leaves as it was, and what it has done to the classes `done`.
pub record Grown (class : ℕ → Class) (prev : ℕ) (cs done : List ℕ) (st st' : Cit) : Type 0 where
  pub valid : IsValid class prev cs st'
  pub bits : (a i : ℕ) → In a cs → bit st' a i ≡ bit st a i
  pub positions : (a : ℕ) → pos_of st' a ≡ pos_of st a
  pub stays_long :
      (a : ℕ)
      → In a cs
      → st.bitvec_size ≤ length (row_of st a)
      → st.bitvec_size ≤ length (row_of st' a)
  pub long : (a : ℕ) → In a done → st.bitvec_size ≤ length (row_of st' a)
  pub column_idx : st'.column_idx ≡ st.column_idx
  pub bitvec_size : st'.bitvec_size ≡ st.bitvec_size
  pub normal_head : st'.normal_head ≡ st.normal_head
  pub array_head : st'.array_head ≡ st.array_head

module _ {class : ℕ → Class} {prev : ℕ} {cs : List ℕ} {st : Cit} (v : IsValid class prev cs st)
    (wide : prev ≤ st.bitvec_size) (c : ℕ) (m : In c cs) where
  long_row : List ℕ
  long_row = each_word (λ d s. s) prev 0 (replicate st.bitvec_size 0) (row_of st c)

  length-long_row : length long_row ≡ st.bitvec_size
  unfolding long_row
  length-long_row =
      length-each_word (λ d s. s) prev 0 (replicate st.bitvec_size 0) (row_of st c)
      ∙ length-replicate st.bitvec_size 0

  bit_at-long_row : (i : ℕ) → bit_at long_row i ≡ bit st c i
  unfolding long_row
  bit_at-long_row i =
      bit_at-copy_each prev i (replicate st.bitvec_size 0) (row_of st c)
        (omega (arith, length-replicate st.bitvec_size (let z : ℕ = 0 in z)))
      ∙ ground (arith, bit_at-zeros st.bitvec_size i, v.blank c i m, v.room)

  row_of-grow_self : row_of (grow class prev c st) c ≡ long_row
  unfolding grow new_row write_row long_row
  row_of-grow_self = ground arith

  row_of-grow : (a : ℕ) → In a cs → c ≢ a → row_of (grow class prev c st) a ≡ row_of st a
  unfolding grow new_row write_row
  row_of-grow a n ne = ground (arith, v.allocated a n)

  address-grow :
      (a : ℕ)
      → ((grow class prev c st).type_rep a).row
        ≡ (if c == a then st.heap_end else (st.type_rep a).row)
  unfolding grow new_row write_row
  address-grow a = ground arith

  grow-positions : (a : ℕ) → pos_of (grow class prev c st) a ≡ pos_of st a
  unfolding grow new_row write_row
  grow-positions a = ground arith

  grow-cases :
      (P : List ℕ → Type 0) (a : ℕ)
      → In a cs
      → (c ≡ a → P long_row)
      → (c ≢ a → P (row_of st a))
      → P (row_of (grow class prev c st) a)
  grow-cases P a n f g = elim (Bool-cases (c == a)) [
    | inl e ↦
        subst (λ x. P (row_of (grow class prev c st) x)) ((==_iff c a).0 e)
          (rw row_of-grow_self (f ((==_iff c a).0 e)))
    | inr ne ↦ let d : c ≢ a = λ e. ground arith in rw (row_of-grow a n d) (g d)
  ]

  grow-bits : (a i : ℕ) → In a cs → bit (grow class prev c st) a i ≡ bit st a i
  grow-bits a i n =
      grow-cases (λ r. bit_at r i ≡ bit st a i) a n
        (λ e. bit_at-long_row i ∙ ap (λ x. bit st x i) e) (λ ne. refl)

  grow-lengths : (a : ℕ) → In a cs → prev ≤ length (row_of (grow class prev c st) a)
  grow-lengths a n =
      grow-cases (λ r. prev ≤ length r) a n (λ e. omega (arith, length-long_row))
        (λ ne. v.lengths a n)

  grow-rows_apart :
      (a b : ℕ)
      → In a cs
      → In b cs
      → ((grow class prev c st).type_rep a).row ≡ ((grow class prev c st).type_rep b).row
      → a ≡ b
  grow-rows_apart a b n k p = ground (
    arith,
    address-grow a,
    address-grow b,
    v.allocated a n,
    v.allocated b k,
    v.rows_apart a b n k,
  )

  grow-vtables :
      (a : ℕ)
      → In a cs
      → (class a).has_vtable ≡ true
      → (grow class prev c st).vtable_row a ≡ ((grow class prev c st).type_rep a).row
  unfolding grow new_row write_row
  grow-vtables a n p = elim (Bool-cases (c == a)) [
    | inl e ↦ let d : c ≡ a = (==_iff c a).0 e in ground (arith, ap (λ x. (class x).has_vtable) d)
    | inr ne ↦ ground (arith, v.vtables a n p)
  ]

  grow-IsValid : IsValid class prev cs (grow class prev c st)
  unfolding grow new_row write_row
  grow-IsValid = record {
    lengths = grow-lengths;
    allocated = λ a n. ground (arith, address-grow a, v.allocated a n);
    rows_apart = grow-rows_apart;
    columns = λ a n. ground (arith, grow-positions a, v.columns a n);
    columns_apart =
        λ a b n k p. v.columns_apart a b n k (sym (grow-positions a) ∙ p ∙ grow-positions b);
    room = v.room;
    blank = λ a i n p. grow-bits a i n ∙ v.blank a i n p;
    vtables = grow-vtables;
  }

  pub grow-Grown : Grown class prev cs (c ∷ []) st (grow class prev c st)
  unfolding grow new_row write_row
  grow-Grown = record {
    valid = grow-IsValid;
    bits = grow-bits;
    positions = grow-positions;
    stays_long = λ a n p.
        grow-cases (λ r. st.bitvec_size ≤ length r) a n (λ e. omega (arith, length-long_row))
          (λ ne. p);
    long = λ a h. elim h [
      | inl e ↦ rw (e, row_of-grow_self) (omega (arith, length-long_row))
      | inr h ↦ absurd h
    ];
    column_idx = refl;
    bitvec_size = refl;
    normal_head = refl;
    array_head = refl;
  }

module _ {class : ℕ → Class} {prev : ℕ} {cs : List ℕ} where
  -- Two parts of an expansion, one after the other.
  pub Grown-trans :
      (xs ys : List ℕ) {s t u : Cit}
      → ((a : ℕ) → In a xs → In a cs)
      → Grown class prev cs xs s t
      → Grown class prev cs ys t u
      → Grown class prev cs (xs ++ ys) s u
  Grown-trans xs ys {s} {t} {u} sub g h = record {
    valid = h.valid;
    bits = λ a i n. h.bits a i n ∙ g.bits a i n;
    positions = λ a. h.positions a ∙ g.positions a;
    stays_long = λ a n p. keeps a n (g.stays_long a n p);
    long = λ a n. elim (In-append a xs ys n) [
      | inl m ↦ keeps a (sub a m) (g.long a m)
      | inr m ↦ omega (arith, h.long a m, g.bitvec_size)
    ];
    column_idx = h.column_idx ∙ g.column_idx;
    bitvec_size = h.bitvec_size ∙ g.bitvec_size;
    normal_head = h.normal_head ∙ g.normal_head;
    array_head = h.array_head ∙ g.array_head;
  }
    where
      keeps :
          (a : ℕ)
          → In a cs
          → s.bitvec_size ≤ length (row_of t a)
          → s.bitvec_size ≤ length (row_of u a)
      keeps a n p =
          subst (λ k. k ≤ length (row_of u a)) g.bitvec_size
            (h.stays_long a n (subst (λ k. k ≤ length (row_of t a)) (sym g.bitvec_size) p))

  -- The list is expanded class by class.
  pub expand-Grown :
      (cl : List ℕ) {st : Cit}
      → IsValid class prev cs st
      → prev ≤ st.bitvec_size
      → ((a : ℕ) → In a cl → In a cs)
      → Grown class prev cs cl st (expand_in_class_list class cl prev st)
  unfolding expand_in_class_list grow
  expand-Grown [] v wide sub = record {
    valid = v;
    bits = λ a i n. refl;
    positions = λ a. refl;
    stays_long = λ a n p. p;
    long = λ a h. absurd h;
    column_idx = refl;
    bitvec_size = refl;
    normal_head = refl;
    array_head = refl;
  }
  expand-Grown (c ∷ cl) {st} v wide sub =
      let g = grow-Grown v wide c (sub c (inl refl)) in
      let r =
        expand-Grown cl {st = grow class prev c st} g.valid (omega (arith, g.bitvec_size))
          (λ a n. sub a (inr n)) in
      Grown-trans (c ∷ []) cl (λ a n. elim n [ inl e ↦ sub a (inl e) | inr z ↦ absurd z ]) g r

-- Longer rows hold at the larger size.
pub widen :
    {class : ℕ → Class} {prev size : ℕ} {cs : List ℕ} {st : Cit}
    → IsValid class prev cs st
    → prev ≤ size
    → ((a : ℕ) → In a cs → size ≤ length (row_of st a))
    → IsValid class size cs st
widen v wide long = record {
  lengths = long;
  allocated = v.allocated;
  rows_apart = v.rows_apart;
  columns = v.columns;
  columns_apart = v.columns_apart;
  room = omega (arith, v.room);
  blank = v.blank;
  vtables = v.vtables;
}

abbrev larger : Cit → Cit
larger st = record st { bitvec_size = st.bitvec_size + expand_bitvec_size }

larger-IsValid :
    {class : ℕ → Class} {size : ℕ} {cs : List ℕ} {st : Cit}
    → IsValid class size cs st
    → IsValid class size cs (larger st)
larger-IsValid v = record {
  lengths = v.lengths;
  allocated = v.allocated;
  rows_apart = v.rows_apart;
  columns = v.columns;
  columns_apart = v.columns_apart;
  room = v.room;
  blank = v.blank;
  vtables = v.vtables;
}

-- `cs` are the classes of the two lists.
pub record Listed (cs : List ℕ) (st : Cit) : Type 0 where
  pub covered : (a : ℕ) → In a cs → In a (st.normal_head ++ st.array_head)
  pub normal_in : (a : ℕ) → In a st.normal_head → In a cs
  pub array_in : (a : ℕ) → In a st.array_head → In a cs

module _ {class : ℕ → Class} {cs : List ℕ} {st : Cit} (v : IsValid class st.bitvec_size cs st)
    (l : Listed cs st) where
  pub expand_binary_matrix-Grown :
      Grown class st.bitvec_size cs
        (st.normal_head ++ st.array_head)
        (larger st)
        (expand_binary_matrix class st)
  unfolding expand_binary_matrix
  expand_binary_matrix-Grown =
      let g = expand-Grown st.normal_head (larger-IsValid v) (omega arith) l.normal_in in
      let st2 = expand_in_class_list class st.normal_head st.bitvec_size (larger st) in
      Grown-trans st.normal_head st.array_head l.normal_in g (
        subst
          (λ h.
            Grown class st.bitvec_size cs st.array_head st2
              (expand_in_class_list class h st.bitvec_size st2))
          (sym g.array_head)
          (expand-Grown st.array_head g.valid (omega (arith, g.bitvec_size)) l.array_in))

  pub expand_binary_matrix-IsValid :
      IsValid class (expand_binary_matrix class st).bitvec_size cs (expand_binary_matrix class st)
  expand_binary_matrix-IsValid =
      let g = expand_binary_matrix-Grown in
      subst (λ k. IsValid class k cs (expand_binary_matrix class st)) (sym g.bitvec_size)
        (widen g.valid (omega arith) (λ a m. g.long a (l.covered a m)))
