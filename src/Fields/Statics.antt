-- ===== src/Fields/Statics.antt =====
-- Where the static fields of a class lie, and what is written there when the class is prepared.
use la_tte.Common.{
  ℕ, zero, suc, ◌+◌, ◌*◌, ◌%◌, ◌^◌, ◌≤◌, ◌<◌, ◌≡◌, refl, sym, ap, ◌∙◌, subst, ◌⊎◌, inl, inr, some,
  List, [], ◌∷◌, map, ltb, if◌then◌else◌, arith,
}
use la_tte.Fields.{
  Field, FieldType, byte_type, short_type, int_type, long_type, boolean_type, char_type, float_type,
  double_type, reference_type, prim_size, new_field,
}
use la_tte.Fields.Slots.{
  type_size, align_up, static_size, place_statics, point_static, alloc_static_fields,
}
use la_tte.Fields.Reading.{nth}
use la_tte.Fields.Layout.{width, declarations, align_up_lem, Laid, Laid-within, Laid-apart}

static_sizes : (f : Field) → (static_size f ≡ 4) ⊎ (static_size f ≡ 8)
unfolding prim_size
static_sizes f = go f.type
  where
    go :
        (t : FieldType)
        → ((if ltb (type_size t) 4 then 4 else type_size t) ≡ 4)
          ⊎ ((if ltb (type_size t) 4 then 4 else type_size t) ≡ 8)
    go byte_type = inl refl
    go short_type = inl refl
    go int_type = inl refl
    go long_type = inr refl
    go boolean_type = inl refl
    go char_type = inl refl
    go float_type = inl refl
    go double_type = inr refl
    go reference_type = inl refl

static_size_positive : (f : Field) → 0 < static_size f
static_size_positive f = elim (static_sizes f) [ inl e ↦ omega arith | inr e ↦ omega arith ]

-- A multiple of the size of a slot, in a block whose start is a multiple of eight
aligned_in_block :
    (f : Field) (mem p : ℕ) → mem % 8 ≡ 0 → p % static_size f ≡ 0 → (mem + p) % static_size f ≡ 0
aligned_in_block f mem p m h = elim (static_sizes f) [
  | inl e ↦ four (static_size f) e h
  | inr e ↦ eight (static_size f) e h
]
  where
    four : (s : ℕ) → s ≡ 4 → p % s ≡ 0 → (mem + p) % s ≡ 0
    four s e h = let g : p % 4 ≡ 0 = subst (λ s. p % s ≡ 0) e h in rw e (omega arith)

    eight : (s : ℕ) → s ≡ 8 → p % s ≡ 0 → (mem + p) % s ≡ 0
    eight s e h = let g : p % 8 ≡ 0 = subst (λ s. p % s ≡ 0) e h in rw e (omega arith)

place_statics_bound : (offset : ℕ) (fs : List Field) → offset ≤ (place_statics offset fs).1
unfolding place_statics
place_statics_bound offset [] = omega arith
place_statics_bound offset (f ∷ fs) =
    let a = align_up_lem offset (static_size f) (static_size_positive f) in
    omega (arith, a.0, place_statics_bound (align_up offset (static_size f) + static_size f) fs)

place_statics-Laid :
    (mem offset : ℕ) (fs : List Field)
    → mem % 8 ≡ 0
    → (place_statics offset fs).1 ≤ 2 ^ 16
    → Laid static_size
        (mem + offset)
        (map (point_static mem) (place_statics offset fs).0)
        (mem + (place_statics offset fs).1)
unfolding place_statics
place_statics-Laid mem offset [] m h = omega arith
place_statics-Laid mem offset (f ∷ fs) m h =
    let p = align_up offset (static_size f) in
    let s = static_size_positive f in
    let a = align_up_lem offset (static_size f) s in
    let b = place_statics_bound (p + static_size f) fs in
    let e : mem + p % 2 ^ 16 ≡ mem + p = omega (arith, b, h, s) in
    let n : mem + (p + static_size f) ≡ mem + p % 2 ^ 16 + static_size f = omega (arith, e) in
    (
      omega (arith, e, a.0),
      ap (λ x. x % static_size f) e ∙ aligned_in_block f mem p m a.2,
      subst
          (λ x.
            Laid static_size x (map (point_static mem) (place_statics (p + static_size f) fs).0)
              (mem + (place_statics (p + static_size f) fs).1))
          n (place_statics-Laid mem (p + static_size f) fs m h),
    )

-- The static fields in a block: the bytes of each value are inside the block, from a multiple of their
-- number on, and those of two fields do not overlap.
pub record Separate (mem end : ℕ) (fs : List Field) : Type 0 where
  pub within :
      (k : ℕ) (f : Field)
      → nth fs k ≡ some f
      → (mem ≤ f.place) × (f.place + width f.type ≤ end) × (f.place % width f.type ≡ 0)
  pub apart :
      (j k : ℕ) (f g : Field)
      → j < k
      → nth fs j ≡ some f
      → nth fs k ≡ some g
      → f.place + width f.type ≤ g.place

-- A slot has room for the value, and is aligned as the value is.
slot_enough : (t : FieldType) → width t ≤ (if ltb (type_size t) 4 then 4 else type_size t)
unfolding prim_size width
slot_enough byte_type = omega arith
slot_enough short_type = omega arith
slot_enough int_type = omega arith
slot_enough long_type = omega arith
slot_enough boolean_type = omega arith
slot_enough char_type = omega arith
slot_enough float_type = omega arith
slot_enough double_type = omega arith
slot_enough reference_type = omega arith

slot_aligned :
    (t : FieldType)
    → (p : ℕ) → p % (if ltb (type_size t) 4 then 4 else type_size t) ≡ 0
    → p % width t ≡ 0
unfolding prim_size width
slot_aligned byte_type p h = omega arith
slot_aligned short_type p h = omega (arith, h)
slot_aligned int_type p h = omega (arith, h)
slot_aligned long_type p h = omega (arith, h)
slot_aligned boolean_type p h = omega arith
slot_aligned char_type p h = omega (arith, h)
slot_aligned float_type p h = omega (arith, h)
slot_aligned double_type p h = omega (arith, h)
slot_aligned reference_type p h = omega (arith, h)

static_declarations :
    (mem offset : ℕ) (fs : List Field)
    → declarations (map (point_static mem) (place_statics offset fs).0) ≡ declarations fs
unfolding place_statics declarations
static_declarations mem offset [] = refl
static_declarations mem offset (f ∷ fs) =
    ap (λ ds. (f.name, f.type) ∷ ds)
      (static_declarations mem (align_up offset (static_size f) + static_size f) fs)

-- When the block of the static fields has at most 65536 bytes and starts at a multiple of eight,
-- `allocStaticFields` keeps the fields' names and types, and gives each a place: the bytes of its
-- value, as many as its type has, lie inside the block, from a multiple of their number on, and those
-- of two fields do not overlap.
pub alloc_static_fields_lem :
    (mem : ℕ) (fs : List Field)
    → mem % 8 ≡ 0
    → (alloc_static_fields mem fs).1 ≤ 2 ^ 16
    → Separate mem (mem + (alloc_static_fields mem fs).1) (alloc_static_fields mem fs).0
      × (declarations (alloc_static_fields mem fs).0 ≡ declarations fs)
unfolding alloc_static_fields
alloc_static_fields_lem mem fs m h =
    let l = place_statics-Laid mem 0 fs m h in
    (
      record {
        within = λ k f e.
            let w = Laid-within static_size (mem + 0) _ _ k f l e in
            (
              omega (arith, w.0),
              omega (arith, w.1, slot_enough f.type),
              slot_aligned f.type f.place w.2,
            );
        apart = λ j k f g o e d.
            omega (arith, Laid-apart static_size (mem + 0) _ _ j k f g l o e d, slot_enough f.type);
      },
      static_declarations mem 0 fs,
    )

-- Fields of type `int`
abbrev pub ints : ℕ → List Field
ints zero = []
ints (suc n) = new_field 0 int_type ∷ ints n

abbrev pub places : List Field → List ℕ
places [] = []
places (f ∷ fs) = f.place ∷ places fs

int_place :
    (mem n m k : ℕ)
    → k < n
    → nth (places (map (point_static mem) (place_statics (4 * m) (ints n)).0)) k
      ≡ some (mem + 4 * (m + k) % 2 ^ 16)
unfolding place_statics prim_size
int_place mem zero m k h = absurd (omega arith)
int_place mem (suc n) m zero h = ap some (omega arith)
int_place mem (suc n) m (suc k) h =
    let e : align_up (4 * m) 4 + 4 ≡ 4 * (m + 1) = omega arith in
    ap (λ x. nth (places (map (point_static mem) (place_statics x (ints n)).0)) k) e
    ∙ int_place mem n (m + 1) k (omega arith)
    ∙ ap some (omega arith)

-- A class with more than 16384 static fields of type `int` has two of them at the same address, the
-- first and the one 16384 after it: the offset is kept in sixteen bits.
pub static_fields_overlap :
    (mem n : ℕ)
    → 16384 < n
    → nth (places (alloc_static_fields mem (ints n)).0) 0
      ≡ nth (places (alloc_static_fields mem (ints n)).0) 16384
unfolding alloc_static_fields
static_fields_overlap mem n h =
    int_place mem n 0 0 (omega arith) ∙ ap some (omega arith) ∙ sym (int_place mem n 0 16384 h)
