-- ===== src/ClassHierarchy/Reached.antt =====
-- The entry of an array class, and the induction over the order of entry.
use la_tte.Common.{
  ℕ, ◌*◌, ◌<◌, ◌≡◌, ◌↔◌, refl, sym, ap, ◌∙◌, inl, inr, true, false, List, [], ◌∷◌, ◌&&◌, ◌||◌,
  if◌then◌else◌, In, In-append_right, subst, mem, mem_iff, Bool-cases, Bool-ext, update, arith,
}
use la_tte.ClassHierarchy.{
  Class, Cit, init, pos_of, claim_column, update_normal_class_hierarchy,
  update_array_class_hierarchy, update_class_hierarchy, relate_all,
}
use la_tte.ClassHierarchy.Spec.{Subclass, array_rule, CanLoad, Loaded, start, load}
use la_tte.ClassHierarchy.Enter.{super_bit}
use la_tte.ClassHierarchy.Arrays.{sub_of, Untouched, marks_old, any_new, any_old}
use la_tte.ClassHierarchy.Load.{
  with_room, with_room-Roomy, Added, parent_row, relist, normal-Added, array-Added, array_heads,
  array_head-claimed, encoded,
}
use la_tte.ClassHierarchy.Faithful.{both_object}
use la_tte.ClassHierarchy.Stores.{bit}
use la_tte.ClassHierarchy.Step.{IsClosed-step, Agreement-step}
use la_tte.ClassHierarchy.Parents.{
  parent_row_iff, super_bit-array, any_new-at, any_old-at, new-array_rule, old-array_rule,
}
use la_tte.ClassHierarchy.Matches.{
  Matches, with_room-Matches, normal-Matches, Within-super, listed-cons,
}

module _ (class : ℕ → Class) (object_class : ℕ) where
  module _ {cs : List ℕ} {st : Cit} (h : Matches class object_class cs st)
      (fits : st.column_idx < 32 * st.bitvec_size) {c : ℕ}
      (can : CanLoad class object_class cs c) where
    untouched :
        (x : ℕ)
        → In x cs
        → (class c).is_array ≡ true
        → (class x).is_array ≡ false
        → Untouched cs c st.array_head x
    untouched x m p q = (
      m,
      λ e. ground (arith, ap (λ y. (class y).is_array) e),
      λ y n e. ground (arith, h.only_arrays y n, ap (λ y. (class y).is_array) e),
    )

    elements :
        (class c).is_array ≡ true
        → (t : ℕ) → In t st.array_head
        → (class (class c).element_type).is_primitive || (class (class t).element_type).is_primitive
          ≡ false
        → Untouched cs c st.array_head (class c).element_type
          × Untouched cs c st.array_head (class t).element_type
    elements p t n np =
        let (ec, nc) = can.element p (ground arith) in
        let (et, nt) =
          h.closed.element t (h.listed.array_in t n) (h.only_arrays t n) (ground arith) in
        (untouched (class c).element_type ec p nc, untouched (class t).element_type et p nt)

    -- A class of `cs` stands in the list of arrays exactly if it is one.
    listed_array : (b : ℕ) → In b cs → mem b st.array_head ≡ (class b).is_array
    listed_array b n =
        Bool-ext _ _ (λ e. h.only_arrays b ((mem_iff b st.array_head).0 e))
          (λ e. (mem_iff b st.array_head).1 (h.arrays_in b n e))

    module _ (codes : ℕ → ℕ) (p : (class c).is_array ≡ true) where
      after : Cit
      after =
          relate_all class object_class c st.array_head
            (encoded h.valid c can.fresh fits (Within-super class object_class can) codes)

      added :
          Added class cs c
            (λ b.
              super_bit st (class c).superclass (pos_of st b)
              || any_new class object_class (sub_of st) st c st.array_head (pos_of st b))
            (λ a. any_old class object_class (sub_of st) c st.array_head a)
            st
            after
      unfolding after
      added =
          array-Added h.valid c can.fresh fits (Within-super class object_class can) object_class
            codes h.listed.array_in (elements p)

      row_plain :
          (b : ℕ)
          → In b cs
          → (class b).is_array ≡ false
          → (sub_of after c b ≡ true) ↔ Subclass class c b
      row_plain b n q =
          let iff = parent_row_iff st h.agreement c can b n q in
          let same : sub_of after c b ≡ parent_row class st c b =
            added.new_old b n
            ∙ ground (
              arith,
              can.array_interfaces p,
              any_new-at st h.agreement c can h.valid st.array_head b h.listed.array_in n,
              listed_array b n,
            ) in
          rw same iff

      row_arrays :
          (b : ℕ)
          → In b cs
          → (class b).is_array ≡ true
          → both_object class object_class c b ≡ false
          → sub_of after c b ≡ array_rule class object_class (sub_of st) c b
      row_arrays b n q nb =
          added.new_old b n
          ∙ ground (
            arith,
            any_new-at st h.agreement c can h.valid st.array_head b h.listed.array_in n,
            listed_array b n,
            super_bit-array st h.agreement c can b n q,
            new-array_rule st h.agreement c can b nb,
          )

      column :
          (a : ℕ)
          → In a cs
          → sub_of after a c ≡ ((class a).is_array && marks_old class object_class (sub_of st) c a)
      column a m =
          added.old_new a m
          ∙ ground (arith, any_old-at st h.agreement c can st.array_head a, listed_array a m)

      column_arrays :
          (a : ℕ)
          → In a cs
          → (class a).is_array ≡ true
          → both_object class object_class a c ≡ false
          → sub_of after a c ≡ array_rule class object_class (sub_of st) a c
      column_arrays a m q nb = ground (
        arith,
        column a m,
        old-array_rule st h.agreement c can h.closed a h.valid.columns_apart m p q nb,
      )

      after-heads : (after.normal_head ≡ st.normal_head) × (after.array_head ≡ st.array_head)
      unfolding after
      after-heads =
          array_heads h.valid c can.fresh fits (Within-super class object_class can) object_class
            codes h.listed.array_in (elements p)

      array-Matches :
          Matches class object_class (c ∷ cs) (record after { array_head = c ∷ after.array_head })
      array-Matches =
          let ad = relist after.normal_head (c ∷ after.array_head) after.encoding added in
          let (hn, ha) = after-heads in
          record {
            valid = ad.valid;
            listed = record {
              covered =
                  rw (hn, ha)
                    (listed-cons class object_class cs st.normal_head st.array_head st.normal_head
                      (c ∷ st.array_head) c h.listed.covered (λ a n. n) (λ a n. inr n)
                      (In-append_right c st.normal_head (c ∷ st.array_head) (inl refl)));
              normal_in = λ a m. inr (h.listed.normal_in a (subst (In a) hn m));
              array_in = λ a m. elim m [
                | inl e ↦ inl e
                | inr n ↦ inr (h.listed.array_in a (subst (In a) ha n))
              ];
            };
            arrays_in = λ a m q. elim m [
              | inl e ↦ inl e
              | inr n ↦ inr (subst (In a) (sym ha) (h.arrays_in a n q))
            ];
            only_arrays = λ a m. elim m [
              | inl e ↦ subst (λ x. (class x).is_array ≡ true) (sym e) p
              | inr n ↦ h.only_arrays a (subst (In a) ha n)
            ];
            closed = IsClosed-step can h.closed ad.old_pos ad.new_pos;
            agreement =
                Agreement-step can h.closed h.agreement ad.old_old ad.new_new row_plain
                  (λ a m q. absurd (ground arith)) (λ b n q r. absurd (ground arith))
                  (λ a m q r. ground (arith, column a m)) (λ b n q r nb. row_arrays b n r nb)
                  (λ a m q r nb. column_arrays a m q nb);
          }

    -- The state after the loop, wherever the encodings are.
    abbrev with_array : (ℕ → ℕ) → List ℕ → Cit
    with_array codes l =
        let t =
          relate_all class object_class c l
            (record (claim_column class c st) { encoding = codes }) in
        record t { array_head = c ∷ t.array_head }

    array_head_here : (claim_column class c st).array_head ≡ st.array_head
    array_head_here =
        array_head-claimed h.valid c can.fresh fits (Within-super class object_class can)

    -- The final state of an array class has the matrix of `after`, whatever its encodings.
    update_array-cases :
        (P : Cit → Type 0)
        → ((codes : ℕ → ℕ) → P (with_array codes st.array_head))
        → P (update_array_class_hierarchy class object_class c (claim_column class c st))
    unfolding update_array_class_hierarchy
    update_array-cases P f = elim (Bool-cases (class (class c).component_type).is_primitive) [
      | inl e ↦ rw e (any_codes (claim_column class c st).encoding)
      | inr e ↦ rw e (any_codes (update (claim_column class c st).encoding c _))
    ]
      where
        any_codes : (codes : ℕ → ℕ) → P (with_array codes (claim_column class c st).array_head)
        any_codes codes = subst (λ l. P (with_array codes l)) (sym array_head_here) (f codes)

    update_array-Matches :
        (class c).is_array ≡ true
        → Matches class object_class
            (c ∷ cs)
            (update_array_class_hierarchy class object_class c (claim_column class c st))
    update_array-Matches p =
        update_array-cases (Matches class object_class (c ∷ cs))
          (λ codes. unfold after in array-Matches codes p)

    Added-bits :
        (codes : ℕ → ℕ) (p : (class c).is_array ≡ true)
        → Added class cs c
            (λ b.
              super_bit st (class c).superclass (pos_of st b)
              || any_new class object_class (sub_of st) st c st.array_head (pos_of st b))
            (λ a. any_old class object_class (sub_of st) c st.array_head a)
            st
            (with_array codes st.array_head)
    Added-bits codes p = unfold after in relist _ _ _ (added codes p)

    update-stable :
        (a b : ℕ)
        → In a cs
        → In b cs
        → sub_of
            (if (class c).is_array
              then update_array_class_hierarchy class object_class c (claim_column class c st)
              else update_normal_class_hierarchy class c (claim_column class c st))
            a
            b
          ≡ sub_of st a b
    update-stable a b m n = elim (Bool-cases (class c).is_array) [
      | inl p ↦ rw p (
          update_array-cases (λ t. sub_of t a b ≡ sub_of st a b)
            (λ codes. (Added-bits codes p).old_old a b m n))
      | inr p ↦ rw p (
          (normal-Added h.valid c can.fresh fits (Within-super class object_class can)
              (λ d k. (can.interface d k).0)).old_old
            a b m n)
    ]

    update-object_array :
        (t : ℕ)
        → In t cs
        → (class c).is_array ≡ true
        → (class t).is_array ≡ true
        → (class c).element_type ≡ object_class
        → sub_of (update_array_class_hierarchy class object_class c (claim_column class c st)) c t
          ≡ false
    update-object_array t m p q e =
        update_array-cases (λ s. sub_of s c t ≡ false)
          (λ codes.
            (Added-bits codes p).new_old t m
            ∙ ground (
              arith,
              any_new-at st h.agreement c can h.valid st.array_head t h.listed.array_in m,
              super_bit-array st h.agreement c can t m q,
            ))

  -- The entry of one class, whatever its kind.
  update_class_hierarchy-Matches :
      {cs : List ℕ} {st : Cit} {c : ℕ}
      → Matches class object_class cs st
      → CanLoad class object_class cs c
      → Matches class object_class (c ∷ cs) (update_class_hierarchy class object_class c st)
  unfolding update_class_hierarchy with_room
  update_class_hierarchy-Matches {cs} {st} {c} h can =
      let h' = with_room-Matches class object_class h in
      let fits = (with_room-Roomy h.valid h.listed).fits in
      elim (Bool-cases (class c).is_array) [
        | inl p ↦ rw p (update_array-Matches h' fits can p)
        | inr p ↦ rw p (normal-Matches class object_class h' fits can p)
      ]

  init-Matches : Matches class object_class [] init
  init-Matches = record {
    valid = record {
      lengths = λ c m. absurd m;
      allocated = λ c m. absurd m;
      rows_apart = λ a b m n e. absurd m;
      columns = λ c m. absurd m;
      columns_apart = λ a b m n e. absurd m;
      room = omega arith;
      blank = λ c i m p. absurd m;
      vtables = λ c m p. absurd m;
    };
    listed = record { covered = λ a m. m; normal_in = λ a m. m; array_in = λ a m. m };
    arrays_in = λ a m p. absurd m;
    only_arrays = λ a m. absurd m;
    closed = record {
      superclass = λ a s m e. absurd m;
      interface = λ a i m n. absurd m;
      element = λ a m p q. absurd m;
      one_of_a_kind = λ a b m n p q e d. absurd m;
    };
    agreement = record {
      plain = λ a b m n p. absurd m;
      no_array = λ a b m n p q. absurd m;
      same = λ a m. absurd m;
      arrays = λ a b m n p q ne nb. absurd m;
    };
  }

  pub Loaded-Matches :
      {cs : List ℕ} {st : Cit} → Loaded class object_class cs st → Matches class object_class cs st
  Loaded-Matches start = init-Matches
  Loaded-Matches (load r can) = update_class_hierarchy-Matches (Loaded-Matches r) can

  module _ {cs : List ℕ} {st : Cit} {c : ℕ} (h : Matches class object_class cs st)
      (can : CanLoad class object_class cs c) where
    fits_here : (with_room class st).column_idx < 32 * (with_room class st).bitvec_size
    fits_here = (with_room-Roomy h.valid h.listed).fits

    -- The expansion changes no answer.
    sub-with_room : (a b : ℕ) → In a cs → sub_of (with_room class st) a b ≡ sub_of st a b
    sub-with_room a b m =
        let r = with_room-Roomy h.valid h.listed in
        ap (λ p. bit (with_room class st) a p) (r.positions b) ∙ r.bits a (pos_of st b) m

    pub old-stable :
        (a b : ℕ)
        → In a cs
        → In b cs
        → sub_of (update_class_hierarchy class object_class c st) a b ≡ sub_of st a b
    unfolding update_class_hierarchy with_room
    old-stable a b m n =
        update-stable (with_room-Matches class object_class h) fits_here can a b m n
        ∙ sub-with_room a b m

    pub object_array-unmarked :
        (t : ℕ)
        → In t cs
        → (class c).is_array ≡ true
        → (class t).is_array ≡ true
        → (class c).element_type ≡ object_class
        → sub_of (update_class_hierarchy class object_class c st) c t ≡ false
    unfolding update_class_hierarchy with_room
    object_array-unmarked t m p q e =
        rw p (update-object_array (with_room-Matches class object_class h) fits_here can t m p q e)
