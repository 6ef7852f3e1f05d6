-- ===== src/Signature.antt =====
-- Signatures of fields and methods: `sizeofSigItem`, `sizeofSig` and `countInsAndOuts` of
-- runtime/classMethod.c, and `classFromSig` of runtime/itypes.c.
--
-- A string is the list of its characters before the final 0. What the source does past the end of a
-- string is `overrun`. A class is what names it: the class loader and `lookupArray` are not modelled.
pub mod Printing
pub mod Counting
mod Tests
use la_tte.Common.{
  ℕ, zero, suc, ◌+◌, ◌/◌, ◌%◌, Bool, true, false, Option, none, some, List, [], ◌∷◌, if◌then◌else◌,
  length,
}

-- The characters that a signature is read by, and all others
pub data Symbol : Type 0 where
  open_paren : Symbol
  close_paren : Symbol
  v_sig : Symbol
  i_sig : Symbol
  z_sig : Symbol
  s_sig : Symbol
  b_sig : Symbol
  c_sig : Symbol
  f_sig : Symbol
  d_sig : Symbol
  j_sig : Symbol
  open_bracket : Symbol
  l_sig : Symbol
  semicolon : Symbol
  other_symbol : ℕ → Symbol

unfoldable pub is_semicolon : Symbol → Bool
is_semicolon semicolon = true
is_semicolon _ = false

-- What `sizeofSigItem` returns: a size, or -1; with the string that it leaves in `strp`, which is
-- `none` where that points behind the final 0. `aborted` is `ABORT`.
pub data Item : Type 0 where
  item : ℕ → List Symbol → Item
  last : Option (List Symbol) → Item
  aborted : Item
  overrun : Item

-- `while (*str != ';') str++;`, and what stands behind that character
unfoldable pub skip_reference : ℕ → List Symbol → Item
unfolding is_semicolon
skip_reference count [] = overrun
skip_reference count (c ∷ s) =
    let rest = skip_reference count s in (if is_semicolon c then item count s else rest)

-- From `arrayofarray`, at the character that `str` is moved to; at the end of the string, the loop
-- is left with a pointer behind it.
unfoldable pub skip_array : ℕ → List Symbol → Item
unfolding skip_reference
skip_array count [] = overrun
skip_array count (l_sig ∷ s) = skip_reference count s
skip_array count (open_bracket ∷ s) = skip_array count s
skip_array count (_ ∷ s) = item count s

-- The size of a reference in words; a pointer has four bytes, whether wide ones are wanted or not.
abbrev pub reference_words : Bool → ℕ
reference_words want_wide_refs = if want_wide_refs then 4 / 4 else 1

unfoldable pub sizeof_sig_item : Bool → List Symbol → Item
unfolding skip_reference skip_array
sizeof_sig_item wide [] = last none
sizeof_sig_item wide (open_paren ∷ s) = sizeof_sig_item wide s
sizeof_sig_item wide (close_paren ∷ s) = last (some s)
sizeof_sig_item wide (v_sig ∷ s) = item 0 s
sizeof_sig_item wide (i_sig ∷ s) = item 1 s
sizeof_sig_item wide (z_sig ∷ s) = item 1 s
sizeof_sig_item wide (s_sig ∷ s) = item 1 s
sizeof_sig_item wide (b_sig ∷ s) = item 1 s
sizeof_sig_item wide (c_sig ∷ s) = item 1 s
sizeof_sig_item wide (f_sig ∷ s) = item 1 s
sizeof_sig_item wide (d_sig ∷ s) = item 2 s
sizeof_sig_item wide (j_sig ∷ s) = item 2 s
sizeof_sig_item wide (open_bracket ∷ s) = skip_array (reference_words wide) s
sizeof_sig_item wide (l_sig ∷ s) = skip_reference (reference_words wide) s
sizeof_sig_item wide (_ ∷ s) = aborted

-- What `sizeofSig` returns, and the string that it leaves
abbrev pub Sized : Type 0
Sized = Option (ℕ × Option (List Symbol))

abbrev pub add_item : ℕ → Sized → Sized
add_item count none = none
add_item count (some (n, s)) = some (count + n, s)

-- `sizeofSig`; `none` is that it does not return, or that it reads behind the string. `fuel` is the
-- number of items.
unfoldable pub sizeof_sig : ℕ → Bool → List Symbol → Sized
unfolding sizeof_sig_item
sizeof_sig zero wide s = none
sizeof_sig (suc fuel) wide s = elim (sizeof_sig_item wide s) [
  | item count rest ↦ add_item count (sizeof_sig fuel wide rest)
  | last rest ↦ some (0, rest)
  | aborted ↦ none
  | overrun ↦ none
]

-- `*outtype = str[0]`, which is `none` for the final 0
abbrev pub first_of : List Symbol → Option Symbol
first_of [] = none
first_of (c ∷ _) = some c

-- The bits of a `short`
abbrev pub as_short : ℕ → ℕ
as_short n = n % 65536

abbrev pub with_ins : ℕ → List Symbol → Sized → Option (ℕ × ℕ × Option Symbol)
with_ins ins s none = none
with_ins ins s (some (outs, _)) = some (as_short ins, as_short outs, first_of s)

abbrev pub then_outs : ℕ → Sized → Option (ℕ × ℕ × Option Symbol)
then_outs fuel none = none
then_outs fuel (some (ins, none)) = none
then_outs fuel (some (ins, some s)) = with_ins ins s (sizeof_sig fuel false s)

-- `countInsAndOuts`: the words of the arguments and of the result, and the first character of the
-- result's type
unfoldable pub count_ins_and_outs : List Symbol → Option (ℕ × ℕ × Option Symbol)
unfolding sizeof_sig
count_ins_and_outs s = then_outs (suc (length s)) (sizeof_sig (suc (length s)) false s)

-- A class as a signature names it
pub data ClassName : Type 0 where
  void_class : ClassName
  int_class : ClassName
  boolean_class : ClassName
  short_class : ClassName
  byte_class : ClassName
  char_class : ClassName
  float_class : ClassName
  double_class : ClassName
  long_class : ClassName
  array_class : ClassName → ClassName
  named_class : List Symbol → ClassName

-- The name up to a semicolon, or to the end of the string, and what stands behind it
unfoldable pub read_name : List Symbol → List Symbol × List Symbol
unfolding is_semicolon
read_name [] = ([], [])
read_name (c ∷ s) =
    let rest = read_name s in (if is_semicolon c then ([], s) else (c ∷ rest.0, rest.1))

-- What `classFromSig` returns, with the string that it leaves: a class, or NULL, where `none` is a
-- pointer behind the final 0. `lookupArray` of NULL reads through the pointer.
pub data FoundClass : Type 0 where
  found : ClassName → List Symbol → FoundClass
  null : Option (List Symbol) → FoundClass
  crash : FoundClass

abbrev pub as_array : FoundClass → FoundClass
as_array (found c s) = found (array_class c) s
as_array (null _) = crash
as_array crash = crash

abbrev pub named : List Symbol × List Symbol → FoundClass
named r = found (named_class r.0) r.1

-- `classFromSig`
unfoldable pub class_from_sig : List Symbol → FoundClass
unfolding read_name
class_from_sig [] = null none
class_from_sig (v_sig ∷ s) = found void_class s
class_from_sig (i_sig ∷ s) = found int_class s
class_from_sig (z_sig ∷ s) = found boolean_class s
class_from_sig (s_sig ∷ s) = found short_class s
class_from_sig (b_sig ∷ s) = found byte_class s
class_from_sig (c_sig ∷ s) = found char_class s
class_from_sig (f_sig ∷ s) = found float_class s
class_from_sig (d_sig ∷ s) = found double_class s
class_from_sig (j_sig ∷ s) = found long_class s
class_from_sig (open_bracket ∷ s) = as_array (class_from_sig s)
class_from_sig (l_sig ∷ s) = named (read_name s)
class_from_sig (_ ∷ s) = null (some s)
