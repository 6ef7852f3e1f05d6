-- ===== src/ClassHierarchy/Matches.antt =====
-- Every loaded state has a valid memory and a matrix that agrees with the class table.
use la_tte.Common.{
  ℕ, ◌*◌, ◌<◌, ◌≡◌, refl, sym, ap, ◌∙◌, inl, inr, Bool, true, false, List, ◌∷◌, ◌++◌, Option, none,
  some, In, In-append, In-append_left, In-append_right, subst, arith,
}
use la_tte.ClassHierarchy.{Class, Cit, pos_of, claim_column, update_normal_class_hierarchy}
use la_tte.ClassHierarchy.Spec.{CanLoad}
use la_tte.ClassHierarchy.Invariant.{IsValid}
use la_tte.ClassHierarchy.Expand.{Listed}
use la_tte.ClassHierarchy.Enter.{Within}
use la_tte.ClassHierarchy.Arrays.{sub_of}
use la_tte.ClassHierarchy.Load.{with_room, with_room-Roomy, normal-Added, normal_heads}
use la_tte.ClassHierarchy.Faithful.{IsClosed, Agreement, array_rule-same}
use la_tte.ClassHierarchy.Stores.{bit}
use la_tte.ClassHierarchy.Step.{IsClosed-step, Agreement-step}
use la_tte.ClassHierarchy.Parents.{parent_row_iff, parent_row-array}

module _ (class : ℕ → Class) (object_class : ℕ) where
  pub record Matches (cs : List ℕ) (st : Cit) : Type 0 where
    pub valid : IsValid class st.bitvec_size cs st
    pub listed : Listed cs st
    pub arrays_in : (a : ℕ) → In a cs → (class a).is_array ≡ true → In a st.array_head
    pub only_arrays : (a : ℕ) → In a st.array_head → (class a).is_array ≡ true
    pub closed : IsClosed class object_class cs (pos_of st)
    pub agreement : Agreement class object_class cs (sub_of st)

  module _ {cs : List ℕ} {pos pos' : ℕ → ℕ} (same : (a : ℕ) → pos' a ≡ pos a) where
    IsClosed-same : IsClosed class object_class cs pos → IsClosed class object_class cs pos'
    IsClosed-same cl = record {
      superclass = λ a s m e.
          let h = cl.superclass a s m e in (h.0, h.1, omega (arith, h.2, same a, same s));
      interface =
          λ a i m n. let h = cl.interface a i m n in (h.0, h.1, omega (arith, h.2, same a, same i));
      element = cl.element;
      one_of_a_kind = cl.one_of_a_kind;
    }

  module _ {cs : List ℕ} {pos : ℕ → ℕ} {sub sub' : ℕ → ℕ → Bool}
      (cl : IsClosed class object_class cs pos)
      (same : (a b : ℕ) → In a cs → sub' a b ≡ sub a b) where
    Agreement-same : Agreement class object_class cs sub → Agreement class object_class cs sub'
    Agreement-same ag = record {
      plain = λ a b m n p. rw (same a b m) (ag.plain a b m n p);
      no_array = λ a b m n p q. same a b m ∙ ag.no_array a b m n p q;
      same = λ a m. same a a m ∙ ag.same a m;
      arrays = λ a b m n p q ne nb.
          same a b m
          ∙ ag.arrays a b m n p q ne nb
          ∙ sym (
              array_rule-same class object_class sub sub' a b
                (λ r. same _ _ (cl.element a m p (ground arith)).0));
    }

  -- The expansion changes neither the matrix nor the lists.
  pub with_room-Matches : {cs : List ℕ} {st : Cit} → Matches cs st → Matches cs (with_room class st)
  with_room-Matches {cs} {st} h =
      let r = with_room-Roomy h.valid h.listed in
      record {
        valid = r.valid;
        listed = record {
          covered = λ a m. rw (r.normal_head, r.array_head) (h.listed.covered a m);
          normal_in = λ a m. h.listed.normal_in a (subst (In a) r.normal_head m);
          array_in = λ a m. h.listed.array_in a (subst (In a) r.array_head m);
        };
        arrays_in = λ a m p. subst (In a) (sym r.array_head) (h.arrays_in a m p);
        only_arrays = λ a m. h.only_arrays a (subst (In a) r.array_head m);
        closed = IsClosed-same r.positions h.closed;
        agreement =
            Agreement-same h.closed
              (λ a b m.
                ap (λ p. bit (with_room class st) a p) (r.positions b) ∙ r.bits a (pos_of st b) m)
              h.agreement;
      }

  pub Within-super :
      {cs : List ℕ} {c : ℕ} → CanLoad class object_class cs c → Within cs (class c).superclass
  Within-super {cs} {c} can = go (class c).superclass (λ s e. (can.superclass s e).0)
    where
      go : (o : Option ℕ) → ((s : ℕ) → o ≡ some s → In s cs) → Within cs o
      go none f = tt
      go (some s) f = f s refl

  -- A list of the two heads, with `c` at the front of one of them.
  pub listed-cons :
      (cs normal array normal' array' : List ℕ) (c : ℕ)
      → ((a : ℕ) → In a cs → In a (normal ++ array))
      → ((a : ℕ) → In a normal → In a normal')
      → ((a : ℕ) → In a array → In a array')
      → In c (normal' ++ array')
      → (a : ℕ) → In a (c ∷ cs)
      → In a (normal' ++ array')
  listed-cons cs normal array normal' array' c cov f g here a (inl e) =
      subst (λ x. In x (normal' ++ array')) (sym e) here
  listed-cons cs normal array normal' array' c cov f g here a (inr m) =
      elim (In-append a normal array (cov a m)) [
        | inl n ↦ In-append_left a normal' array' (f a n)
        | inr n ↦ In-append_right a normal' array' (g a n)
      ]

  module _ {cs : List ℕ} {st : Cit} (h : Matches cs st) (fits : st.column_idx < 32 * st.bitvec_size)
      {c : ℕ} (can : CanLoad class object_class cs c) where
    pub normal-Matches :
        (class c).is_array ≡ false
        → Matches (c ∷ cs) (update_normal_class_hierarchy class c (claim_column class c st))
    normal-Matches plain =
        let ad =
          normal-Added h.valid c can.fresh fits (Within-super can) (λ d n. (can.interface d n).0) in
        let heads =
          normal_heads h.valid c can.fresh fits (Within-super can) (λ d n. (can.interface d n).0) in
        record {
          valid = ad.valid;
          listed = record {
            covered =
                rw (heads.0, heads.1)
                  (listed-cons cs st.normal_head st.array_head (c ∷ st.normal_head) st.array_head c
                    h.listed.covered (λ a n. inr n) (λ a n. n) (inl refl));
            normal_in = λ a m. elim (subst (In a) heads.0 m) [
              | inl e ↦ inl e
              | inr n ↦ inr (h.listed.normal_in a n)
            ];
            array_in = λ a m. inr (h.listed.array_in a (subst (In a) heads.1 m));
          };
          arrays_in = λ a m p. rw heads.1 (elim m [
            | inl e ↦ absurd (ground (arith, ap (λ x. (class x).is_array) e))
            | inr n ↦ h.arrays_in a n p
          ]);
          only_arrays = λ a m. h.only_arrays a (subst (In a) heads.1 m);
          closed = IsClosed-step can h.closed ad.old_pos ad.new_pos;
          agreement =
              Agreement-step can h.closed h.agreement ad.old_old ad.new_new
                (λ b n p. rw (ad.new_old b n) (parent_row_iff st h.agreement c can b n p))
                (λ a m p. ad.old_new a m)
                (λ b n p q. ad.new_old b n ∙ parent_row-array st h.agreement c can b n q)
                (λ a m p q. absurd (ground arith)) (λ b n p q nb. absurd (ground arith))
                (λ a m p q nb. absurd (ground arith));
        }
