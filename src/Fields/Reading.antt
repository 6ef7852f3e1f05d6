-- ===== src/Fields/Reading.antt =====
-- The order of the fields when a class has been read.
use la_tte.Common.{
  ℕ, zero, suc, ◌+◌, ◌-◌, ◌≤◌, ◌<◌, ◌≡◌, ◌≢◌, refl, sym, ap, ◌∙◌, subst, ◌⊎◌, inl, inr, Bool, true,
  false, Bool-cases, Option, none, some, List, [], ◌∷◌, ◌++◌, ◌==◌, ltb, if◌then◌else◌, update,
  update_self, update_ne, length, ==_to, arith,
}
use la_tte.Fields.{
  Field, FieldType, FieldInfo, FieldTable, new_field, add_field, add_fields, read_start, exchange,
  swap_ends, ifields, finish_fields,
}

abbrev pub nth {ℓ} : {A : Type ℓ} → List A → ℕ → Option A
nth [] k = none
nth (x ∷ xs) zero = some x
nth (x ∷ xs) (suc k) = nth xs k

-- A field with a name and a signature, as `addField` checks them
pub record Good : Type 0 where
  pub is_static : Bool
  pub name : ℕ
  pub type : FieldType

abbrev pub info_of : Good → FieldInfo
info_of g = record { is_static = g.is_static; name = some g.name; signature = some g.type }

abbrev pub infos : List Good → List FieldInfo
infos [] = []
infos (g ∷ gs) = info_of g ∷ infos gs

-- The static fields of a class file, or the others, in its order
abbrev pub part : Bool → List Good → List Field
part b [] = []
part b (g ∷ gs) =
    if g.is_static
    then (if b then new_field g.name g.type ∷ part b gs else part b gs)
    else (if b then part b gs else new_field g.name g.type ∷ part b gs)

module _ (f : ℕ → Option Field) (a b : ℕ) where
  exchange_first : exchange f a b a ≡ f b
  exchange_first = ground arith

  exchange_last : exchange f a b b ≡ f a
  exchange_last = ground arith

  exchange_other : (k : ℕ) → a ≢ k → b ≢ k → exchange f a b k ≡ f k
  exchange_other k na nb = ground arith

less : (a b : ℕ) → ltb a b ≡ true → a < b
less a b t = ground arith

not_less : (a b : ℕ) → ltb a b ≡ false → b ≤ a
not_less a b t = ground arith

positive : (k : ℕ) → (k == 0) ≡ false → 0 < k
positive k z = ground arith

different : (a b : ℕ) → (a == b) ≡ false → a ≢ b
different a b z = ground arith

-- What the exchange of the ends of a part does to the other places, and to each place of it
swap_ends_outside :
    (rounds start n k : ℕ) (fields : ℕ → Option Field)
    → (k < start) ⊎ (start + n ≤ k)
    → swap_ends rounds start n fields k ≡ fields k
unfolding swap_ends
swap_ends_outside zero start n k fields h = refl
swap_ends_outside (suc rounds) start n k fields h = elim (Bool-cases (ltb 1 n)) [
  | inr f ↦ rw f refl
  | inl t ↦
      let l = less 1 n t in
      rw t (
        swap_ends_outside rounds (start + 1) (n - 2) k (exchange fields start (start + n - 1))
          (outside h l)
        ∙ exchange_other fields start (start + n - 1) k (λ e. absurd (omega arith))
            (λ e. absurd (omega arith)))
]
  where
    outside : (k < start) ⊎ (start + n ≤ k) → 1 < n → (k < start + 1) ⊎ (start + 1 + (n - 2) ≤ k)
    outside (inl a) l = inl (omega arith)
    outside (inr a) l = inr (omega arith)

swap_ends_inside :
    (rounds start n k : ℕ) (fields : ℕ → Option Field)
    → n ≤ rounds + rounds + 1
    → k < n
    → swap_ends rounds start n fields (start + k) ≡ fields (start + (n - 1 - k))
unfolding swap_ends
swap_ends_inside zero start n k fields h l = ap fields (omega arith)
swap_ends_inside (suc rounds) start n k fields h l =
    let last = start + n - 1 in
    let next = exchange fields start last in
    elim (Bool-cases (ltb 1 n)) [
      | inr f ↦ let m = not_less 1 n f in rw f (ap fields (omega arith))
      | inl t ↦
          let m = less 1 n t in
          rw t (elim (Bool-cases (k == 0)) [
            | inl z ↦
                let e = ==_to k 0 z in
                swap_ends_outside rounds (start + 1) (n - 2) (start + k) next (inl (omega arith))
                ∙ ap next (omega arith)
                ∙ exchange_first fields start last
                ∙ ap fields (omega arith)
            | inr z ↦
                let p = positive k z in
                elim (Bool-cases (k + 1 == n)) [
                  | inl y ↦
                      let e = ==_to (k + 1) n y in
                      swap_ends_outside rounds (start + 1) (n - 2) (start + k) next
                        (inr (omega arith))
                      ∙ ap next (omega arith)
                      ∙ exchange_last fields start last
                      ∙ ap fields (omega arith)
                  | inr y ↦
                      let q = different (k + 1) n y in
                      ap (swap_ends rounds (start + 1) (n - 2) next) (omega arith)
                      ∙ swap_ends_inside rounds (start + 1) (n - 2) (k - 1) next (omega arith)
                          (omega arith)
                      ∙ exchange_other fields start last (start + 1 + (n - 2 - 1 - (k - 1)))
                          (λ e. absurd (omega arith)) (λ e. absurd (omega arith))
                      ∙ ap fields (omega arith)
                ]
          ])
    ]

-- How many of a list `addField` puts at either end
abbrev statics_of : List Good → ℕ
statics_of gs = length (part true gs)

abbrev others_of : List Good → ℕ
others_of gs = length (part false gs)

-- What `addField` of a list does to the table: where the counters stand, and what is at each place
record Added (c : FieldTable) (gs : List Good) (d : FieldTable) : Type 0 where
  pub statics : d.nsfields ≡ c.nsfields + statics_of gs
  pub top : d.nsfields + d.bfsize + others_of gs ≡ c.nsfields + c.bfsize
  pub first : (k : ℕ) → k < statics_of gs → d.fields (c.nsfields + k) ≡ nth (part true gs) k
  pub last :
      (k : ℕ) → k < others_of gs → d.fields (c.nsfields + c.bfsize - 1 - k) ≡ nth (part false gs) k
  pub below : (k : ℕ) → k < c.nsfields → d.fields k ≡ c.fields k
  pub above : (k : ℕ) → c.nsfields + c.bfsize ≤ k → d.fields k ≡ c.fields k

part_sizes : (gs : List Good) → statics_of gs + others_of gs ≡ length gs
part_sizes [] = refl
part_sizes (g ∷ gs) = elim (Bool-cases g.is_static) [
  | inl t ↦ rw t (omega (arith, part_sizes gs))
  | inr f ↦ rw f (omega (arith, part_sizes gs))
]

module _ (g : Good) (gs : List Good) (c : FieldTable) where
  abbrev field : Field
  field = new_field g.name g.type

  abbrev static_next : FieldTable
  static_next = record {
    fields = update c.fields c.nsfields (some field);
    nsfields = c.nsfields + 1;
    bfsize = c.bfsize - 1;
  }

  abbrev other_next : FieldTable
  other_next = record {
    fields = update c.fields (c.bfsize - 1 + c.nsfields) (some field);
    nsfields = c.nsfields;
    bfsize = c.bfsize - 1;
  }

  module _ (d : FieldTable) (l : suc (length gs) ≤ c.bfsize) where
    static_first :
        Added static_next gs d
        → (k : ℕ) → k < suc (statics_of gs)
        → d.fields (c.nsfields + k) ≡ nth (field ∷ part true gs) k
    static_first a zero h =
        ap d.fields (omega arith)
        ∙ a.below c.nsfields (omega arith)
        ∙ update_self c.fields c.nsfields (some field)
    static_first a (suc k) h = ap d.fields (omega arith) ∙ a.first k (omega arith)

    static-Added : g.is_static ≡ true → Added static_next gs d → Added c (g ∷ gs) d
    static-Added t a = rw t (record {
      statics = omega (arith, a.statics);
      top = omega (arith, a.top);
      first = static_first a;
      last = λ k h. ap d.fields (omega arith) ∙ a.last k h;
      below = λ k h.
          a.below k (omega arith)
          ∙ update_ne c.fields c.nsfields k (some field) (λ e. absurd (omega arith));
      above = λ k h.
          a.above k (omega arith)
          ∙ update_ne c.fields c.nsfields k (some field) (λ e. absurd (omega arith));
    })

    other_last :
        Added other_next gs d
        → (k : ℕ) → k < suc (others_of gs)
        → d.fields (c.nsfields + c.bfsize - 1 - k) ≡ nth (field ∷ part false gs) k
    other_last a zero h =
        ap d.fields (omega arith)
        ∙ a.above (c.bfsize - 1 + c.nsfields) (omega arith)
        ∙ update_self c.fields (c.bfsize - 1 + c.nsfields) (some field)
    other_last a (suc k) h = ap d.fields (omega arith) ∙ a.last k (omega arith)

    other-Added : g.is_static ≡ false → Added other_next gs d → Added c (g ∷ gs) d
    other-Added t a = rw t (record {
      statics = a.statics;
      top = omega (arith, a.top);
      first = a.first;
      last = other_last a;
      below = λ k h.
          a.below k h
          ∙ update_ne c.fields (c.bfsize - 1 + c.nsfields) k (some field)
              (λ e. absurd (omega arith));
      above = λ k h.
          a.above k (omega arith)
          ∙ update_ne c.fields (c.bfsize - 1 + c.nsfields) k (some field)
              (λ e. absurd (omega arith));
    })

  add_field_static : g.is_static ≡ true → (add_field c (info_of g)).1 ≡ static_next
  unfolding add_field
  add_field_static t = rw t refl

  add_field_other : g.is_static ≡ false → (add_field c (info_of g)).1 ≡ other_next
  unfolding add_field
  add_field_other t = rw t refl

add_fields-Added :
    (gs : List Good) (c : FieldTable) → length gs ≤ c.bfsize → Added c gs (add_fields c (infos gs))
unfolding add_fields
add_fields-Added [] c l = record {
  statics = omega arith;
  top = omega arith;
  first = λ k h. absurd (omega arith);
  last = λ k h. absurd (omega arith);
  below = λ k h. refl;
  above = λ k h. refl;
}
add_fields-Added (g ∷ gs) c l = elim (Bool-cases g.is_static) [
  | inl t ↦
      subst (λ x. Added c (g ∷ gs) (add_fields x (infos gs))) (sym (add_field_static g gs c t))
        (static-Added g gs c _ l t (add_fields-Added gs (static_next g gs c) (omega arith)))
  | inr f ↦
      subst (λ x. Added c (g ∷ gs) (add_fields x (infos gs))) (sym (add_field_other g gs c f))
        (other-Added g gs c _ l f (add_fields-Added gs (other_next g gs c) (omega arith)))
]

module _ {ℓ} {A : Type ℓ} where
  nth_front : (xs ys : List A) (k : ℕ) → k < length xs → nth (xs ++ ys) k ≡ nth xs k
  nth_front [] ys k h = absurd (omega arith)
  nth_front (x ∷ xs) ys zero h = refl
  nth_front (x ∷ xs) ys (suc k) h = nth_front xs ys k (omega arith)

  nth_back : (xs ys : List A) (k : ℕ) → nth (xs ++ ys) (length xs + k) ≡ nth ys k
  nth_back [] ys k = ap (nth ys) (omega arith)
  nth_back (x ∷ xs) ys k =
      let e : suc (length xs) + k ≡ suc (length xs + k) = omega arith in
      ap (nth (x ∷ xs ++ ys)) e ∙ nth_back xs ys k

  nth_past : (xs : List A) (k : ℕ) → length xs ≤ k → nth xs k ≡ none
  nth_past [] k h = refl
  nth_past (x ∷ xs) zero h = absurd (omega arith)
  nth_past (x ∷ xs) (suc k) h = nth_past xs k (omega arith)

-- A class file with less than 32768 fields, which all have a name and a signature, is read into a
-- table with its static fields in their order, and after them the others in theirs.
pub finish_fields_lem :
    (gs : List Good) (k : ℕ)
    → length gs < 32768
    → (finish_fields (length gs) (add_fields (read_start (length gs)) (infos gs))).fields k
      ≡ nth (part true gs ++ part false gs) k
unfolding finish_fields
finish_fields_lem gs k small =
    let c = add_fields (read_start (length gs)) (infos gs) in
    let a = add_fields-Added gs (read_start (length gs)) (omega arith) in
    let s = a.statics in
    let n = ifields (length gs) c.nsfields in
    let sizes = part_sizes gs in
    let exact : n ≡ length gs - c.nsfields = ground (arith, small, s, sizes) in
    elim (Bool-cases (ltb k (statics_of gs))) [
      | inl t ↦
          let h = less k (statics_of gs) t in
          swap_ends_outside n c.nsfields n k c.fields (inl (omega arith))
          ∙ ap c.fields (omega arith)
          ∙ a.first k h
          ∙ sym (nth_front (part true gs) (part false gs) k h)
      | inr f ↦
          let h = not_less k (statics_of gs) f in
          elim (Bool-cases (ltb k (length gs))) [
            | inl t ↦
                let l = less k (length gs) t in
                let j = k - statics_of gs in
                ap (swap_ends n c.nsfields n c.fields) (omega arith)
                ∙ swap_ends_inside n c.nsfields n j c.fields (omega arith) (omega arith)
                ∙ ap c.fields (omega arith)
                ∙ a.last j (omega arith)
                ∙ sym (nth_back (part true gs) (part false gs) j)
                ∙ ap (nth (part true gs ++ part false gs)) (omega arith)
            | inr g ↦
                let l = not_less k (length gs) g in
                swap_ends_outside n c.nsfields n k c.fields (inr (omega arith))
                ∙ a.above k (omega arith)
                ∙ sym (nth_past (part false gs) (k - statics_of gs) (omega arith))
                ∙ sym (nth_back (part true gs) (part false gs) (k - statics_of gs))
                ∙ ap (nth (part true gs ++ part false gs)) (omega arith)
          ]
    ]
