-- ===== src/Signature/Printing.antt =====
-- How a signature is written, and `classFromSig` of runtime/itypes.c against it.
use la_tte.Common.{
  ◌≡◌, refl, ap, ◌∙◌, Bool, true, false, not, List, [], ◌∷◌, ◌++◌, Bool-cases, inl, inr,
  true_branch, false_branch, if◌then◌else◌, arith,
}
use la_tte.Signature.{
  named, found, Symbol, v_sig, i_sig, z_sig, s_sig, b_sig, c_sig, f_sig, d_sig, j_sig, open_bracket,
  l_sig, semicolon, is_semicolon, ClassName, void_class, int_class, boolean_class, short_class,
  byte_class, char_class, float_class, double_class, long_class, array_class, named_class,
  read_name, as_array, class_from_sig,
}

-- The characters of a class, in front of others
unfoldable pub print : ClassName → List Symbol → List Symbol
print void_class s = v_sig ∷ s
print int_class s = i_sig ∷ s
print boolean_class s = z_sig ∷ s
print short_class s = s_sig ∷ s
print byte_class s = b_sig ∷ s
print char_class s = c_sig ∷ s
print float_class s = f_sig ∷ s
print double_class s = d_sig ∷ s
print long_class s = j_sig ∷ s
print (array_class t) s = open_bracket ∷ print t s
print (named_class name) s = l_sig ∷ name ++ semicolon ∷ s

unfoldable pub has_semicolon : List Symbol → Bool
unfolding is_semicolon
has_semicolon [] = false
has_semicolon (c ∷ s) = let rest = has_semicolon s in (if is_semicolon c then true else rest)

-- No name in it has a semicolon.
unfoldable pub is_printable : ClassName → Bool
unfolding has_semicolon
is_printable (array_class t) = is_printable t
is_printable (named_class name) = not (has_semicolon name)
is_printable _ = true

pub has_semicolon_head :
    (c : Symbol)
    → (s : List Symbol) → has_semicolon (c ∷ s) ≡ false
    → (is_semicolon c ≡ false) × (has_semicolon s ≡ false)
unfolding has_semicolon
has_semicolon_head c s e = elim (Bool-cases (is_semicolon c)) [
  | inl y ↦ absurd (ground (arith, e, true_branch (is_semicolon c) true (has_semicolon s) y))
  | inr n ↦ (n, ground (arith, e, false_branch (is_semicolon c) true (has_semicolon s) n))
]

pub not-is_false : (b : Bool) → not b ≡ true → b ≡ false
not-is_false b e = ground (arith, e)

pub read_name-++ :
    (name s : List Symbol)
    → has_semicolon name ≡ false
    → read_name (name ++ semicolon ∷ s) ≡ (name, s)
unfolding read_name
read_name-++ [] s e = refl
read_name-++ (c ∷ name) s e =
    let h = has_semicolon_head c name e in
    let ih = read_name-++ name s h.1 in
    let rest = read_name (name ++ semicolon ∷ s) in
    false_branch (is_semicolon c) ([], name ++ semicolon ∷ s) (c ∷ rest.0, rest.1) h.0
    ∙ ap (λ r. (c ∷ r.0, r.1)) ih

-- A class in whose signature no name has a semicolon, written in front of any other characters, is
-- read by `classFromSig` as that class, and those characters are left.
pub class_from_sig-print :
    (t : ClassName)
    → (s : List Symbol) → is_printable t ≡ true
    → class_from_sig (print t s) ≡ found t s
unfolding class_from_sig print is_printable
class_from_sig-print void_class s e = refl
class_from_sig-print int_class s e = refl
class_from_sig-print boolean_class s e = refl
class_from_sig-print short_class s e = refl
class_from_sig-print byte_class s e = refl
class_from_sig-print char_class s e = refl
class_from_sig-print float_class s e = refl
class_from_sig-print double_class s e = refl
class_from_sig-print long_class s e = refl
class_from_sig-print (array_class t) s e = ap as_array (class_from_sig-print t s e)
class_from_sig-print (named_class name) s e =
    ap named (read_name-++ name s (not-is_false (has_semicolon name) e))
