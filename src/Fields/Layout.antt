-- ===== src/Fields/Layout.antt =====
-- Where the fields of an object lie.
use la_tte.Common.{
  ℕ, zero, suc, ◌+◌, ◌-◌, ◌/◌, ◌%◌, ◌≤◌, ◌<◌, ◌≡◌, refl, sym, subst, ap, ◌∙◌, All, by_test, false,
  not, some, List, [], ◌∷◌, map, ltb, if◌then◌else◌, arith,
}
use mathlib.Core.Option.{some-injective}
use native.Mathlib.Nat.{mul-div-le, lt-mul-div-succ, mul_comm, mul-suc, mul-mod_left}
use la_tte.Fields.{
  Field, FieldType, byte_type, short_type, int_type, long_type, boolean_type, char_type, float_type,
  double_type, reference_type, is_reference, ptr_type_size, prim_size,
}
use la_tte.Fields.Slots.{
  type_size, measure, slot_size, align_up, place_fields, largest_alignment, start_of,
  resolve_object_fields,
}
use la_tte.Fields.Reading.{nth}

-- A multiple of `align`, not below `offset`, and less than `align` above it
pub align_up_lem :
    (offset align : ℕ)
    → 0 < align
    → (offset ≤ align_up offset align)
      × (align_up offset align < offset + align)
      × (align_up offset align % align ≡ 0)
align_up_lem offset align h =
    let n = offset + align - 1 in
    let c = mul_comm (n / align) align in
    let low = mul-div-le n align in
    let high = lt-mul-div-succ n h in
    let e = mul-suc align (n / align) in
    (omega (arith, c, low, high, e), omega (arith, c, low, high, e), mul-mod_left (n / align) align)

-- Slots in the order of a list: each one starts where the one before it ends, or later, at a multiple
-- of its own size, and the last one ends at `end` or before.
abbrev pub Laid : (Field → ℕ) → ℕ → List Field → ℕ → Type 0
Laid size offset [] end = offset ≤ end
Laid size offset (f ∷ fs) end =
    (offset ≤ f.place) × (f.place % size f ≡ 0) × Laid size (f.place + size f) fs end

Laid-end :
    (size : Field → ℕ) (offset end : ℕ) (fs : List Field) → Laid size offset fs end → offset ≤ end
Laid-end size offset end [] l = l
Laid-end size offset end (f ∷ fs) l =
    omega (arith, l.0, Laid-end size (f.place + size f) end fs l.2)

-- What follows for the slot at each place of the list, and for two of them
pub Laid-within :
    (size : Field → ℕ) (offset end : ℕ) (fs : List Field) (k : ℕ) (f : Field)
    → Laid size offset fs end
    → nth fs k ≡ some f
    → (offset ≤ f.place) × (f.place + size f ≤ end) × (f.place % size f ≡ 0)
Laid-within size offset end [] k f l e = absurd (ground arith)
Laid-within size offset end (g ∷ gs) zero f l e =
    let q = some-injective g f e in
    subst (λ f. (offset ≤ f.place) × (f.place + size f ≤ end) × (f.place % size f ≡ 0)) q
      (l.0, Laid-end size (g.place + size g) end gs l.2, l.1)
Laid-within size offset end (g ∷ gs) (suc k) f l e =
    let r = Laid-within size (g.place + size g) end gs k f l.2 e in
    (omega (arith, r.0, l.0), r.1, r.2)

pub Laid-apart :
    (size : Field → ℕ) (offset end : ℕ) (fs : List Field) (j k : ℕ) (f g : Field)
    → Laid size offset fs end
    → j < k
    → nth fs j ≡ some f
    → nth fs k ≡ some g
    → f.place + size f ≤ g.place
Laid-apart size offset end [] j k f g l h e d = absurd (ground arith)
Laid-apart size offset end (x ∷ xs) j zero f g l h e d = absurd (omega arith)
Laid-apart size offset end (x ∷ xs) zero (suc k) f g l h e d =
    let q = some-injective x f e in
    subst (λ f. f.place + size f ≤ g.place) q
      (Laid-within size (x.place + size x) end xs k g l.2 d).0
Laid-apart size offset end (x ∷ xs) (suc j) (suc k) f g l h e d =
    Laid-apart size (x.place + size x) end xs j k f g l.2 (omega arith) e d

-- Every field has a slot, none of them empty.
abbrev Sized : List Field → Type 0
Sized [] = Unit
Sized (f ∷ fs) = (0 < slot_size f) × Sized fs

place_fields-Laid :
    (offset : ℕ) (fs : List Field)
    → Sized fs
    → Laid slot_size offset (place_fields offset fs).0 (place_fields offset fs).1
unfolding place_fields
place_fields-Laid offset [] h = omega arith
place_fields-Laid offset (f ∷ fs) h =
    let a = align_up_lem offset (slot_size f) h.0 in
    (a.0, a.2, place_fields-Laid (align_up offset (slot_size f) + slot_size f) fs h.1)

-- A field as `addField` leaves it
abbrev pub Fresh : List Field → Type 0
Fresh [] = Unit
Fresh (f ∷ fs) = (f.is_resolved ≡ false) × Fresh fs

type_size_positive : (t : FieldType) → 0 < type_size t
unfolding prim_size
type_size_positive byte_type = omega arith
type_size_positive short_type = omega arith
type_size_positive int_type = omega arith
type_size_positive long_type = omega arith
type_size_positive boolean_type = omega arith
type_size_positive char_type = omega arith
type_size_positive float_type = omega arith
type_size_positive double_type = omega arith
type_size_positive reference_type = omega arith

-- The slot of a measured field has the size of its type.
measure_slot : (f : Field) → f.is_resolved ≡ false → slot_size (measure f) ≡ type_size f.type
unfolding measure
measure_slot f e = rw e (go f.type)
  where
    go :
        (t : FieldType)
        → (if not (is_reference t) then type_size t else ptr_type_size) ≡ type_size t
    go byte_type = refl
    go short_type = refl
    go int_type = refl
    go long_type = refl
    go boolean_type = refl
    go char_type = refl
    go float_type = refl
    go double_type = refl
    go reference_type = refl

measure-Sized : (fs : List Field) → Fresh fs → Sized (map measure fs)
measure-Sized [] h = tt
measure-Sized (f ∷ fs) h = (
  subst (λ n. 0 < n) (sym (measure_slot f h.0)) (type_size_positive f.type),
  measure-Sized fs h.1,
)

greater : (a b : ℕ) → a ≤ (if ltb a b then b else a)
greater a b = ground arith

largest_alignment_bound : (align : ℕ) (fs : List Field) → align ≤ largest_alignment align fs
unfolding largest_alignment
largest_alignment_bound align [] = omega arith
largest_alignment_bound align (f ∷ fs) = omega (
  arith,
  largest_alignment_bound (if ltb align f.bsize then f.bsize else align) fs,
  greater align f.bsize,
)

-- The bytes of a value of each type, as the Java types have them; a reference is a pointer of four.
unfoldable pub width : FieldType → ℕ
width byte_type = 1
width short_type = 2
width int_type = 4
width long_type = 8
width boolean_type = 1
width char_type = 2
width float_type = 4
width double_type = 8
width reference_type = 4

abbrev pub width_of : Field → ℕ
width_of f = width f.type

-- What a class declares: the names and types of its fields, in order
unfoldable pub declarations : List Field → List (ℕ × FieldType)
declarations [] = []
declarations (f ∷ fs) = (f.name, f.type) ∷ declarations fs

-- The layout of an object: the bytes of each field's value lie behind the part of the superclass and
-- inside the object, from a multiple of their number on, and those of two fields do not overlap.
pub record Proper (bfsize end : ℕ) (fs : List Field) : Type 0 where
  pub within :
      (k : ℕ) (f : Field)
      → nth fs k ≡ some f
      → (bfsize ≤ f.place) × (f.place + width f.type ≤ end) × (f.place % width f.type ≡ 0)
  pub apart :
      (j k : ℕ) (f g : Field)
      → j < k
      → nth fs j ≡ some f
      → nth fs k ≡ some g
      → f.place + width f.type ≤ g.place

behind : (header bfsize : ℕ) → bfsize ≤ start_of header bfsize
behind header bfsize = ground arith

-- The same slots, with another name for their sizes
Laid-same :
    (size other : Field → ℕ)
    → (offset end : ℕ) → (fs : List Field) → All (λ f. size f ≡ other f) fs
    → Laid size offset fs end
    → Laid other offset fs end
Laid-same size other offset end [] a l = l
Laid-same size other offset end (f ∷ fs) a l = (
  l.0,
  subst (λ n. f.place % n ≡ 0) a.0 l.1,
  Laid-same size other (f.place + other f) end fs a.1
      (subst (λ n. Laid size (f.place + n) fs end) a.0 l.2),
)

type_size-eq-width : (t : FieldType) → type_size t ≡ width t
unfolding prim_size width
type_size-eq-width byte_type = refl
type_size-eq-width short_type = refl
type_size-eq-width int_type = refl
type_size-eq-width long_type = refl
type_size-eq-width boolean_type = refl
type_size-eq-width char_type = refl
type_size-eq-width float_type = refl
type_size-eq-width double_type = refl
type_size-eq-width reference_type = refl

measure_type : (f : Field) → (measure f).type ≡ f.type
unfolding measure
measure_type f =
    by_test (λ (g : Field). g.type ≡ f.type) f.is_resolved f
      (record f { is_resolved = not (is_reference f.type); bsize = type_size f.type }) (λ _. refl)
      (λ _. refl)

measure_name : (f : Field) → (measure f).name ≡ f.name
unfolding measure
measure_name f =
    by_test (λ (g : Field). g.name ≡ f.name) f.is_resolved f
      (record f { is_resolved = not (is_reference f.type); bsize = type_size f.type }) (λ _. refl)
      (λ _. refl)

place_fields-sizes :
    (offset : ℕ)
    → (fs : List Field) → Fresh fs
    → All (λ f. slot_size f ≡ width f.type) (place_fields offset (map measure fs)).0
unfolding place_fields
place_fields-sizes offset [] h = tt
place_fields-sizes offset (f ∷ fs) h = (
  measure_slot f h.0 ∙ type_size-eq-width f.type ∙ ap width (sym (measure_type f)),
  place_fields-sizes (align_up offset (slot_size (measure f)) + slot_size (measure f)) fs h.1,
)

place_fields-declarations :
    (offset : ℕ)
    → (fs : List Field) → declarations (place_fields offset (map measure fs)).0 ≡ declarations fs
unfolding place_fields declarations
place_fields-declarations offset [] = refl
place_fields-declarations offset (f ∷ fs) =
    let rest =
      place_fields-declarations (align_up offset (slot_size (measure f)) + slot_size (measure f))
        fs in
    ap (λ ds. ((measure f).name, (measure f).type) ∷ ds) rest
    ∙ ap (λ n. (n, (measure f).type) ∷ declarations fs) (measure_name f)
    ∙ ap (λ t. (f.name, t) ∷ declarations fs) (measure_type f)

-- For fields that are not resolved, as `addField` leaves them, and with a superclass or without one,
-- `resolveObjectFields` keeps the fields' names and types, and gives each a place: the bytes of its
-- value, as many as its type has, lie behind the object of the superclass and within the object's
-- size, from a multiple of their number on; those of two fields do not overlap; and the object is not
-- smaller than one of the superclass.
pub resolve_object_fields_lem :
    (header bfsize ref_field super_refs : ℕ) (fs : List Field)
    → Fresh fs
    → (let r = resolve_object_fields header bfsize ref_field super_refs fs in
        Proper bfsize r.bfsize r.fields
        × (declarations r.fields ≡ declarations fs)
        × (bfsize ≤ r.bfsize))
unfolding resolve_object_fields
resolve_object_fields_lem header bfsize ref_field super_refs fs h =
    let start = start_of header bfsize in
    let big = largest_alignment 1 (map measure fs) in
    let a = align_up_lem start big (omega (arith, largest_alignment_bound 1 (map measure fs))) in
    let own = place_fields-Laid (align_up start big) (map measure fs) (measure-Sized fs h) in
    let l =
      Laid-same slot_size width_of (align_up start big) _ _
        (place_fields-sizes (align_up start big) fs h) own in
    let s = behind header bfsize in
    (
      record {
        within = λ k f e.
            let w = Laid-within width_of (align_up start big) _ _ k f l e in
            (omega (arith, w.0, a.0, s), w.1, w.2);
        apart = λ j k f g o e d. Laid-apart width_of (align_up start big) _ _ j k f g l o e d;
      },
      place_fields-declarations (align_up start big) fs,
      omega (arith, Laid-end width_of (align_up start big) _ _ l, a.0, s),
    )
