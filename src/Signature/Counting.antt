-- ===== src/Signature/Counting.antt =====
-- The words that a method's signature takes: `countInsAndOuts` of runtime/classMethod.c.
use la_tte.Common.{
  ℕ, zero, suc, ◌+◌, ◌≤◌, ◌<◌, ◌≡◌, refl, ap, ◌∙◌, Bool, true, false, ◌&&◌, Option, some, none,
  List, [], ◌∷◌, ◌++◌, length, false_branch, arith,
}
use la_tte.Signature.{
  Symbol, open_paren, close_paren, semicolon, is_semicolon, item, skip_reference, skip_array,
  sizeof_sig_item, add_item, sizeof_sig, first_of, as_short, with_ins, then_outs,
  count_ins_and_outs, ClassName, void_class, int_class, boolean_class, short_class, byte_class,
  char_class, float_class, double_class, long_class, array_class, named_class,
}
use la_tte.Signature.Printing.{print, has_semicolon, has_semicolon_head, is_printable, not-is_false}

-- The words of a value: none of void, two of a long or a double
unfoldable pub words : ClassName → ℕ
words void_class = 0
words long_class = 2
words double_class = 2
words _ = 1

unfoldable pub words_of_all : List ClassName → ℕ
unfolding words
words_of_all [] = 0
words_of_all (t ∷ ts) = words t + words_of_all ts

unfoldable pub print_all : List ClassName → List Symbol → List Symbol
unfolding print
print_all [] s = s
print_all (t ∷ ts) s = print t (print_all ts s)

unfoldable pub are_printable : List ClassName → Bool
unfolding is_printable
are_printable [] = true
are_printable (t ∷ ts) = is_printable t && are_printable ts

-- The signature of a method
unfoldable pub method_signature : List ClassName → ClassName → List Symbol
unfolding print_all
method_signature args result = open_paren ∷ print_all args (close_paren ∷ print result [])

and_both : (a b : Bool) → (a && b) ≡ true → (a ≡ true) × (b ≡ true)
and_both a b e = (ground (arith, e), ground (arith, e))

skip_reference-++ :
    (count : ℕ)
    → (name s : List Symbol) → has_semicolon name ≡ false
    → skip_reference count (name ++ semicolon ∷ s) ≡ item count s
unfolding skip_reference
skip_reference-++ count [] s e = refl
skip_reference-++ count (c ∷ name) s e =
    let h = has_semicolon_head c name e in
    let others = name ++ semicolon ∷ s in
    false_branch (is_semicolon c) (item count others) (skip_reference count others) h.0
    ∙ skip_reference-++ count name s h.1

skip_array-print :
    (count : ℕ)
    → (t : ClassName) → (s : List Symbol) → is_printable t ≡ true
    → skip_array count (print t s) ≡ item count s
unfolding skip_array print is_printable
skip_array-print count void_class s e = refl
skip_array-print count int_class s e = refl
skip_array-print count boolean_class s e = refl
skip_array-print count short_class s e = refl
skip_array-print count byte_class s e = refl
skip_array-print count char_class s e = refl
skip_array-print count float_class s e = refl
skip_array-print count double_class s e = refl
skip_array-print count long_class s e = refl
skip_array-print count (array_class t) s e = skip_array-print count t s e
skip_array-print count (named_class name) s e =
    skip_reference-++ count name s (not-is_false (has_semicolon name) e)

sizeof_sig_item-print :
    (t : ClassName)
    → (s : List Symbol) → is_printable t ≡ true
    → sizeof_sig_item false (print t s) ≡ item (words t) s
unfolding sizeof_sig_item print is_printable words
sizeof_sig_item-print void_class s e = refl
sizeof_sig_item-print int_class s e = refl
sizeof_sig_item-print boolean_class s e = refl
sizeof_sig_item-print short_class s e = refl
sizeof_sig_item-print byte_class s e = refl
sizeof_sig_item-print char_class s e = refl
sizeof_sig_item-print float_class s e = refl
sizeof_sig_item-print double_class s e = refl
sizeof_sig_item-print long_class s e = refl
sizeof_sig_item-print (array_class t) s e = skip_array-print 1 t s e
sizeof_sig_item-print (named_class name) s e =
    skip_reference-++ 1 name s (not-is_false (has_semicolon name) e)

sizeof_sig-of_item :
    (fuel count : ℕ)
    → (s rest : List Symbol) → sizeof_sig_item false s ≡ item count rest
    → sizeof_sig (suc fuel) false s ≡ add_item count (sizeof_sig fuel false rest)
unfolding sizeof_sig
sizeof_sig-of_item fuel count s rest e = rw (e, sizeof_sig)

sizeof_sig-print_all :
    (ts : List ClassName)
    → (s : List Symbol) → (fuel n : ℕ) → (left : Option (List Symbol)) → are_printable ts ≡ true
    → ((k : ℕ) → sizeof_sig (suc k) false s ≡ some (n, left))
    → length ts < fuel
    → sizeof_sig fuel false (print_all ts s) ≡ some (words_of_all ts + n, left)
unfolding print_all words_of_all are_printable
sizeof_sig-print_all [] s zero n left e h lt = absurd (omega (arith, lt))
sizeof_sig-print_all [] s (suc k) n left e h lt =
    let sum : n ≡ (0 + n) = omega arith in h k ∙ ap (λ m. some (m, left)) sum
sizeof_sig-print_all (t ∷ ts) s zero n left e h lt = absurd (omega (arith, lt))
sizeof_sig-print_all (t ∷ ts) s (suc k) n left e h lt =
    let b = and_both (is_printable t) (are_printable ts) e in
    let ih = sizeof_sig-print_all ts s k n left b.1 h (omega (arith, lt)) in
    let sum : (words t + (words_of_all ts + n)) ≡ (words t + words_of_all ts + n) = omega arith in
    sizeof_sig-of_item k (words t) (print t (print_all ts s)) (print_all ts s)
      (sizeof_sig_item-print t (print_all ts s) b.0)
    ∙ ap (add_item (words t)) ih
    ∙ ap (λ m. some (m, left)) sum

length_of_name : (name s : List Symbol) → length s ≤ length (name ++ s)
length_of_name [] s = omega arith
length_of_name (c ∷ name) s = omega (arith, length_of_name name s)

length-print : (t : ClassName) → (s : List Symbol) → length s < length (print t s)
unfolding print
length-print void_class s = omega arith
length-print int_class s = omega arith
length-print boolean_class s = omega arith
length-print short_class s = omega arith
length-print byte_class s = omega arith
length-print char_class s = omega arith
length-print float_class s = omega arith
length-print double_class s = omega arith
length-print long_class s = omega arith
length-print (array_class t) s = omega (arith, length-print t s)
length-print (named_class name) s = omega (arith, length_of_name name (semicolon ∷ s))

length-print_all :
    (ts : List ClassName) → (s : List Symbol) → (length ts + length s) ≤ length (print_all ts s)
unfolding print_all
length-print_all [] s = omega arith
length-print_all (t ∷ ts) s = omega (arith, length-print t (print_all ts s), length-print_all ts s)

sizeof_sig-end : (k : ℕ) → sizeof_sig (suc k) false [] ≡ some (0, none)
unfolding sizeof_sig
sizeof_sig-end k = refl

sizeof_sig-close :
    (s : List Symbol) → (k : ℕ) → sizeof_sig (suc k) false (close_paren ∷ s) ≡ some (0, some s)
unfolding sizeof_sig
sizeof_sig-close s k = refl

sizeof_sig-open :
    (s : List Symbol)
    → (fuel : ℕ) → sizeof_sig (suc fuel) false (open_paren ∷ s) ≡ sizeof_sig (suc fuel) false s
unfolding sizeof_sig
sizeof_sig-open s fuel = refl

-- Of the signature of a method in which no class's name has a semicolon, `countInsAndOuts` ends
-- without reading behind the string. It gives the words of all arguments and of the result, each as
-- a `short`, and the first character of the result's type.
pub count_ins_and_outs-method_signature :
    (args : List ClassName)
    → (result : ClassName) → are_printable args ≡ true
    → is_printable result ≡ true
    → count_ins_and_outs (method_signature args result)
      ≡ some (as_short (words_of_all args), as_short (words result), first_of (print result []))
unfolding count_ins_and_outs method_signature are_printable words_of_all
count_ins_and_outs-method_signature args result pa pr =
    let tail = print result [] in
    let s = print_all args (close_paren ∷ tail) in
    let fuel = suc (length s) in
    let lens = length-print_all args (close_paren ∷ tail) in
    let ins =
      sizeof_sig-open s fuel
      ∙ sizeof_sig-print_all args (close_paren ∷ tail) (suc fuel) 0 (some tail) pa
          (sizeof_sig-close tail) (omega (arith, lens)) in
    let shut = ap (λ b. b && true) pr in
    let outs =
      sizeof_sig-print_all (result ∷ []) [] (suc fuel) 0 none shut sizeof_sig-end (omega arith) in
    let ins_sum : (words_of_all args + 0) ≡ words_of_all args = omega arith in
    let outs_sum : (words result + 0 + 0) ≡ words result = omega arith in
    ap (then_outs (suc fuel)) ins
    ∙ ap (with_ins (words_of_all args + 0) tail) outs
    ∙ ap (λ n. some (as_short n, as_short (words result + 0 + 0), first_of tail)) ins_sum
    ∙ ap (λ n. some (as_short (words_of_all args), as_short n, first_of tail)) outs_sum
