-- ===== src/Fields.antt =====
-- The fields of a class: `addField` to `resolveStaticFields` of runtime/classMethod.c.
--
-- `Field` is `fields` of runtime/classMethod.h: `type` is what its signature says, `bsize` has sixteen
-- bits, and the union `info` is `const_idx` until a place is given to the field. A pointer has four
-- bytes, and `ALIGNMENT_OF_SIZE` is the default. `header` is the size of `Hjava_lang_Object`.
pub mod Slots
pub mod Constants
pub mod Reading
pub mod Layout
pub mod Statics
pub mod Writing
mod Tests
use la_tte.Common.{
  ℕ, zero, suc, ◌+◌, ◌-◌, ◌*◌, ◌/◌, ◌%◌, ◌^◌, Bool, true, false, not, ◌&&◌, Option, none, some,
  List, [], ◌∷◌, ◌++◌, ◌==◌, ltb, if◌then◌else◌, update, map,
}

-- The first character of a signature; `L` and `[` are one.
pub data FieldType : Type 0 where
  byte_type : FieldType
  short_type : FieldType
  int_type : FieldType
  long_type : FieldType
  boolean_type : FieldType
  char_type : FieldType
  float_type : FieldType
  double_type : FieldType
  reference_type : FieldType

-- `TYPE_PRIM_SIZE` of the primitive classes, as `initTypes` sets it
unfoldable pub prim_size : FieldType → ℕ
prim_size byte_type = 1
prim_size short_type = 2
prim_size int_type = 4
prim_size long_type = 8
prim_size boolean_type = 1
prim_size char_type = 2
prim_size float_type = 4
prim_size double_type = 8
prim_size reference_type = 0

abbrev pub is_reference : FieldType → Bool
is_reference reference_type = true
is_reference _ = false

abbrev pub ptr_type_size : ℕ
ptr_type_size = 4

pub record Field : Type 0 where
  pub name : ℕ
  pub type : FieldType
  pub is_resolved : Bool
  pub has_constant : Bool
  pub bsize : ℕ
  pub const_idx : ℕ
  pub place : ℕ

-- What the class file says of a field; `none` in place of a name or a signature is a constant of
-- another kind.
pub record FieldInfo : Type 0 where
  pub is_static : Bool
  pub name : Option ℕ
  pub signature : Option FieldType

-- The array `fields`, zero where nothing has been written; `bfsize` counts the places still empty.
-- `nsfields` is an index as long as it is below 32768; the source keeps it in a `short`.
pub record FieldTable : Type 0 where
  pub fields : ℕ → Option Field
  pub nsfields : ℕ
  pub bfsize : ℕ

abbrev pub new_field : ℕ → FieldType → Field
new_field name type = record {
  name = name;
  type = type;
  is_resolved = false;
  has_constant = false;
  bsize = 0;
  const_idx = 0;
  place = 0;
}

-- The place of a new field, with the counters that go with it
abbrev next_place : Bool → FieldTable → ℕ × FieldTable
next_place is_static c =
    let left = c.bfsize - 1 in
    if is_static
    then (c.nsfields, record c { nsfields = c.nsfields + 1; bfsize = left })
    else (left + c.nsfields, record c { bfsize = left })

abbrev fill : Option FieldType → ℕ → ℕ × FieldTable → Bool × FieldTable
fill none name (i, c) = (false, c)
fill (some type) name (i, c) =
    (true, record c { fields = update c.fields i (some (new_field name type)) })

-- The Boolean says whether the field was added; if not, the function returns NULL.
unfoldable pub add_field : FieldTable → FieldInfo → Bool × FieldTable
add_field c f = elim f.name [
  | none ↦ (false, c)
  | some name ↦ fill f.signature name (next_place f.is_static c)
]

unfoldable pub set_field_value : Field → ℕ → Field
set_field_value f idx = record f { const_idx = idx % 2 ^ 16; has_constant = true }

-- `READFIELD_START` and the calls of `addField`; `finish_fields` is given `nfields`.
abbrev pub read_start : ℕ → FieldTable
read_start count = record { fields = λ k. none; nsfields = 0; bfsize = count }

unfoldable pub add_fields : FieldTable → List FieldInfo → FieldTable
unfolding add_field
add_fields c [] = c
add_fields c (f ∷ fs) = add_fields (add_field c f).1 fs

abbrev pub exchange : (ℕ → Option Field) → ℕ → ℕ → ℕ → Option Field
exchange fields a b = update (update fields a (fields b)) b (fields a)

-- The loop of `finishFields`: the first and the last place of a part are exchanged, and so on inwards.
unfoldable pub swap_ends : ℕ → ℕ → ℕ → (ℕ → Option Field) → ℕ → Option Field
swap_ends zero start n fields = fields
swap_ends (suc rounds) start n fields =
    let rest = swap_ends rounds (start + 1) (n - 2) (exchange fields start (start + n - 1)) in
    if ltb 1 n then rest else fields

-- `CLASS_NIFIELDS`, the difference of two `short`, of which the class holds the low sixteen bits; a
-- negative one is 0 here, since the loop does nothing in both cases.
abbrev pub ifields : ℕ → ℕ → ℕ
ifields count nsfields =
    let a = count % 2 ^ 16 in
    let b = nsfields % 2 ^ 16 in
    a + (if ltb b 32768 then 0 else 65536) - (b + (if ltb a 32768 then 0 else 65536))

-- `count` is what the class file says of `nfields`; each round takes two places from it.
unfoldable pub finish_fields : ℕ → FieldTable → FieldTable
unfolding swap_ends
finish_fields count c =
    let n = ifields count c.nsfields in record c { fields = swap_ends n c.nsfields n c.fields }

-- The walk of `lookupClassField`: the first field of the name, which is resolved if it was not
unfoldable pub lookup_class_field : ℕ → List Field → Option Field × List Field
lookup_class_field name [] = (none, [])
lookup_class_field name (f ∷ fs) =
    let rest = lookup_class_field name fs in
    if f.name == name
    then (some (record f { is_resolved = true }), record f { is_resolved = true } ∷ fs)
    else (rest.0, f ∷ rest.1)
