-- ===== src/Fields/Slots.antt =====
-- Where `resolveObjectFields` and `allocStaticFields` of runtime/classMethod.c put the fields.
use la_tte.Common.{
  ℕ, ◌+◌, ◌-◌, ◌*◌, ◌/◌, ◌%◌, ◌^◌, not, List, [], ◌∷◌, ◌==◌, ltb, if◌then◌else◌, map,
}
use la_tte.Fields.{FieldType, reference_type, Field, prim_size, is_reference, ptr_type_size}

abbrev pub align_up : ℕ → ℕ → ℕ
align_up offset align = (offset + align - 1) / align * align

-- The size that the signature gives; a reference has no `prim_size`.
abbrev pub type_size : FieldType → ℕ
type_size reference_type = ptr_type_size
type_size type = prim_size type

-- The first walk of `resolveObjectFields`: the size of a field, which is resolved if it is primitive
unfoldable pub measure : Field → Field
measure f =
    if f.is_resolved
    then f
    else record f { is_resolved = not (is_reference f.type); bsize = type_size f.type }

unfoldable pub largest_alignment : ℕ → List Field → ℕ
largest_alignment align [] = align
largest_alignment align (f ∷ fs) =
    largest_alignment (if ltb align f.bsize then f.bsize else align) fs

abbrev pub slot_size : Field → ℕ
slot_size f = if f.is_resolved then f.bsize else ptr_type_size

-- The second walk: the place of each field, and where the last one ends
unfoldable pub place_fields : ℕ → List Field → List Field × ℕ
place_fields offset [] = ([], offset)
place_fields offset (f ∷ fs) =
    let place = align_up offset (slot_size f) in
    let rest = place_fields (place + slot_size f) fs in
    (record f { place = place } ∷ rest.0, rest.1)

unfoldable pub count_references : List Field → ℕ
count_references [] = 0
count_references (f ∷ fs) = (if is_reference f.type then 1 else 0) + count_references fs

-- What `resolveObjectFields` writes into the class
pub record ObjectLayout : Type 0 where
  pub fields : List Field
  pub bfsize : ℕ
  pub ref_field : ℕ

abbrev pub start_of : ℕ → ℕ → ℕ
start_of header bfsize = if bfsize == 0 then header else bfsize

-- `bfsize` is the size of an object of the superclass, 0 if there is none; `ref_field` counts the
-- references in the class, `super_refs` those in the superclass.
unfoldable pub resolve_object_fields : ℕ → ℕ → ℕ → ℕ → List Field → ObjectLayout
unfolding measure largest_alignment place_fields count_references
resolve_object_fields header bfsize ref_field super_refs fields =
    let measured = map measure fields in
    let start = align_up (start_of header bfsize) (largest_alignment 1 measured) in
    let placed = place_fields start measured in
    record {
      fields = placed.0;
      bfsize = placed.1;
      ref_field = (if bfsize == 0 then ref_field else super_refs) + count_references placed.0;
    }

-- The first walk of `allocStaticFields`: `bsize`, of sixteen bits, holds the offset in the meantime.
abbrev pub static_size : Field → ℕ
static_size f = if ltb (type_size f.type) 4 then 4 else type_size f.type

unfoldable pub place_statics : ℕ → List Field → List Field × ℕ
place_statics offset [] = ([], offset)
place_statics offset (f ∷ fs) =
    let place = align_up offset (static_size f) in
    let rest = place_statics (place + static_size f) fs in
    (record f { is_resolved = not (is_reference f.type); bsize = place % 2 ^ 16 } ∷ rest.0, rest.1)

-- The second walk; the index of the constant goes where the offset was.
abbrev pub point_static : ℕ → Field → Field
point_static mem f = record f { bsize = f.const_idx; place = mem + f.bsize }

-- `mem` is where `gc_malloc` puts the block, whose size is the second part of the result.
unfoldable pub alloc_static_fields : ℕ → List Field → List Field × ℕ
unfolding place_statics
alloc_static_fields mem fields =
    let placed = place_statics 0 fields in (map (point_static mem) placed.0, placed.1)
