-- ===== src/Signature/Tests.antt =====
-- A method of an array of arrays of a class, a double and an array of bytes, which returns a long; a
-- string that ends within a class's name; one with a character that stands for no type.
use la_tte.Common.{◌≡◌, refl, none, some, List, [], ◌∷◌}
use la_tte.Signature.{
  open_bracket, found, crash, Symbol, open_paren, close_paren, is_semicolon, l_sig, j_sig, d_sig,
  v_sig, i_sig, other_symbol, skip_reference, skip_array, sizeof_sig_item, sizeof_sig, first_of,
  as_short, count_ins_and_outs, ClassName, long_class, double_class, byte_class, array_class,
  named_class, read_name, class_from_sig,
}
use la_tte.Signature.Printing.{print, has_semicolon, is_printable, class_from_sig-print}
use la_tte.Signature.Counting.{
  words, words_of_all, print_all, are_printable, method_signature,
  count_ins_and_outs-method_signature,
}

abbrev name : List Symbol
name = other_symbol 97 ∷ i_sig ∷ []

abbrev arguments : List ClassName
arguments =
    array_class (array_class (named_class name)) ∷ double_class ∷ array_class byte_class ∷ []

sizes : count_ins_and_outs (method_signature arguments long_class) ≡ some (4, 2, some j_sig)
unfolding count_ins_and_outs method_signature print_all print sizeof_sig sizeof_sig_item
    skip_reference skip_array is_semicolon
sizes = refl

cut_short : count_ins_and_outs (open_paren ∷ l_sig ∷ name) ≡ none
unfolding count_ins_and_outs sizeof_sig sizeof_sig_item skip_reference is_semicolon
cut_short = refl

-- `classFromSig` stops at the end of the string, where `sizeofSigItem` does not.
name_cut_short : class_from_sig (l_sig ∷ name) ≡ found (named_class name) []
unfolding class_from_sig read_name is_semicolon
name_cut_short = refl

array_of_no_type : class_from_sig (open_bracket ∷ other_symbol 63 ∷ []) ≡ crash
unfolding class_from_sig
array_of_no_type = refl

no_type : count_ins_and_outs (open_paren ∷ other_symbol 63 ∷ close_paren ∷ v_sig ∷ []) ≡ none
unfolding count_ins_and_outs sizeof_sig sizeof_sig_item
no_type = refl

class_from_sig-print_example :
    class_from_sig (print (array_class (named_class name)) (d_sig ∷ []))
    ≡ found (array_class (named_class name)) (d_sig ∷ [])
unfolding is_printable has_semicolon is_semicolon
class_from_sig-print_example =
    class_from_sig-print (array_class (named_class name)) (d_sig ∷ []) refl

count_ins_and_outs-method_signature_example :
    count_ins_and_outs (method_signature arguments long_class)
    ≡ some (
      as_short (words_of_all arguments),
      as_short (words long_class),
      first_of (print long_class []),
    )
unfolding is_printable are_printable has_semicolon is_semicolon
count_ins_and_outs-method_signature_example =
    count_ins_and_outs-method_signature arguments long_class refl refl
