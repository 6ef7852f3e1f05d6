-- ===== src/Fields/Tests.antt =====
-- A class with four fields, as it is read and laid out.
use la_tte.Common.{◌+◌, ◌≡◌, ◌≤◌, refl, true, false, some, List, [], ◌∷◌, ◌++◌, arith}
use la_tte.Fields.{
  Field, prim_size, long_type, byte_type, reference_type, new_field, set_field_value, read_start,
  add_fields, finish_fields, lookup_class_field,
}
use la_tte.Fields.Slots.{resolve_object_fields, alloc_static_fields}
use la_tte.Fields.Constants.{resolve_static_fields, string_const}
use la_tte.Fields.Reading.{Good, infos, nth, part, finish_fields_lem}
use la_tte.Fields.Layout.{declarations, Proper, resolve_object_fields_lem}
use la_tte.Fields.Writing.{initial_stores, resolve_static_fields_lem}
use la_tte.Fields.Statics.{Separate, alloc_static_fields_lem, ints, places, static_fields_overlap}

abbrev declared : List Good
declared =
    record { is_static = false; name = 1; type = byte_type }
    ∷ record { is_static = true; name = 2; type = reference_type }
    ∷ record { is_static = false; name = 3; type = long_type }
    ∷ record { is_static = true; name = 4; type = long_type }
    ∷ []

abbrev of_object : List Field
of_object = new_field 1 byte_type ∷ new_field 3 long_type ∷ []

abbrev of_class : List Field
of_class = set_field_value (new_field 2 reference_type) 7 ∷ new_field 4 long_type ∷ []

laid_out : (resolve_object_fields 8 0 0 0 of_object).bfsize ≡ 24
unfolding resolve_object_fields prim_size
laid_out = refl

static_places : places (alloc_static_fields 800 of_class).0 ≡ 800 ∷ 808 ∷ []
unfolding alloc_static_fields set_field_value prim_size
static_places = refl

found :
    (lookup_class_field 3 of_object).0
    ≡ some (record (new_field 3 long_type) { is_resolved = true })
unfolding lookup_class_field
found = refl

finish_fields_lem_example :
    (finish_fields 4 (add_fields (read_start 4) (infos declared))).fields 2
    ≡ nth (part true declared ++ part false declared) 2
finish_fields_lem_example = finish_fields_lem declared 2 (omega arith)

resolve_object_fields_lem_example :
    Proper 12
      (resolve_object_fields 8 12 0 1 of_object).bfsize
      (resolve_object_fields 8 12 0 1 of_object).fields
    × (declarations (resolve_object_fields 8 12 0 1 of_object).fields ≡ declarations of_object)
    × (12 ≤ (resolve_object_fields 8 12 0 1 of_object).bfsize)
resolve_object_fields_lem_example = resolve_object_fields_lem 8 12 0 1 of_object (refl, (refl, tt))

small : (alloc_static_fields 800 of_class).1 ≤ 65536
unfolding alloc_static_fields set_field_value prim_size
small = omega arith

alloc_static_fields_lem_example :
    Separate 800 (800 + (alloc_static_fields 800 of_class).1) (alloc_static_fields 800 of_class).0
    × (declarations (alloc_static_fields 800 of_class).0 ≡ declarations of_class)
alloc_static_fields_lem_example = alloc_static_fields_lem 800 of_class refl small

static_fields_overlap_example :
    nth (places (alloc_static_fields 800 (ints 16385)).0) 0
    ≡ nth (places (alloc_static_fields 800 (ints 16385)).0) 16384
static_fields_overlap_example = static_fields_overlap 800 16385 (omega arith)

resolve_static_fields_lem_example :
    (resolve_static_fields
      (λ s. s + 1000)
      9
      (λ i. string_const i)
      (alloc_static_fields 800 of_class).0).stores
    ≡ initial_stores (λ s. s + 1000) 9 (λ i. string_const i) (alloc_static_fields 800 of_class).0
resolve_static_fields_lem_example =
    resolve_static_fields_lem (λ s. s + 1000) 9 (λ i. string_const i)
      (alloc_static_fields 800 of_class).0
