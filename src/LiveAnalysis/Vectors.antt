-- ===== src/LiveAnalysis/Vectors.antt =====
-- The vectors of live variables, bit by bit.
use la_tte.Common.{
  ℕ, zero, suc, ◌+◌, ◌-◌, ◌*◌, ◌≤◌, ◌<◌, ◌≡◌, sym, ◌∙◌, Bool, true, false, ◌&&◌, ◌||◌, Option, List,
  ◌==◌, ap, ==_iff, [], ltb, leb, if◌then◌else◌, length, length-set, inl, inr, Bool-cases, arith,
}
use la_tte.BitRow.{length-each_word}
use la_tte.BitVector.{is_set, set_bit, clear_bit, clear_all, init}
use la_tte.BitVector.Laws.{is_set-set_bit, is_set-clear_bit, is_set-clear_all}
use la_tte.LiveAnalysis.{
  is_register, each_bit, set_live_except_vn_vars, kill_vn_vars, initialize_live_bitvector_from_h,
}

-- The body of a loop that gives bit `i` the value `value i`, and keeps the others.
record Assigns (body : List ℕ → ℕ → List ℕ) (value : ℕ → Bool) : Type 0 where
  same_length : (v : List ℕ) (i : ℕ) → length (body v i) ≡ length v
  assigned :
      (v : List ℕ) (i j : ℕ)
      → i < 32 * length v
      → is_set (body v i) j ≡ (if i == j then value j else is_set v j)

is_set-each_bit :
    {body : List ℕ → ℕ → List ℕ} {value : ℕ → Bool}
    → Assigns body value
    → (rounds i : ℕ) (v : List ℕ) (j : ℕ) → i + rounds ≤ 32 * length v
    → is_set (each_bit body rounds i v) j
      ≡ (if leb i j && ltb j (i + rounds) then value j else is_set v j)
unfolding each_bit
is_set-each_bit a zero i v j h = ground arith
is_set-each_bit {body} a (suc rounds) i v j h =
    is_set-each_bit a rounds (i + 1) (body v i) j (omega (arith, a.same_length v i))
    ∙ ground (arith, a.assigned v i j (omega arith))

set_bit-Assigns : Assigns set_bit (λ i. true)
unfolding set_bit
set_bit-Assigns = record {
  same_length = λ v i. length-set v _ _;
  assigned = λ v i j h. is_set-set_bit v i j h ∙ ground arith;
}

clear_bit-Assigns : Assigns clear_bit (λ i. false)
unfolding clear_bit
clear_bit-Assigns = record {
  same_length = λ v i. length-set v _ _;
  assigned = λ v i j h. is_set-clear_bit v i j h ∙ ground arith;
}

by_test : (test : ℕ → Bool) (i j : ℕ) (b : Bool) → test i ≡ b → (i == j) ≡ true → test j ≡ b
by_test test i j b t e = sym (ap test ((==_iff i j).0 e)) ∙ t

choice-Assigns :
    (test : ℕ → Bool) → Assigns (λ l i. if test i then set_bit l i else clear_bit l i) test
choice-Assigns test = record {
  same_length = λ v i. elim (Bool-cases (test i)) [
    | inl t ↦ rw t (set_bit-Assigns.same_length v i)
    | inr f ↦ rw f (clear_bit-Assigns.same_length v i)
  ];
  assigned = λ v i j h. elim (Bool-cases (test i)) [
    | inl t ↦ rw t (is_set-set_bit v i j h ∙ ground (arith, by_test test i j true t))
    | inr f ↦ rw f (is_set-clear_bit v i j h ∙ ground (arith, by_test test i j false f))
  ];
}

-- In a vector with room for the variables, `set_live_except_vn_vars` makes the local and stack
-- variables and the eleven after them live, and `kill_vn_vars` makes dead every variable after
-- those; both leave the other bits as they were.
pub set_live-kill_vn_vars :
    (local_vars stack_vars vars : ℕ) (live : List ℕ) (v : ℕ)
    → local_vars + stack_vars + 11 ≤ vars
    → vars ≤ 32 * length live
    → (is_set (set_live_except_vn_vars local_vars stack_vars live) v
        ≡ (ltb v (local_vars + stack_vars + 11) || is_set live v))
      × (is_set (kill_vn_vars local_vars stack_vars vars live) v
          ≡ (if leb (local_vars + stack_vars + 11) v && ltb v vars then false else is_set live v))
unfolding set_live_except_vn_vars kill_vn_vars
set_live-kill_vn_vars local_vars stack_vars vars live v h k = (
  is_set-each_bit set_bit-Assigns (local_vars + stack_vars + 11) 0 live v (omega arith)
      ∙ ground arith,
  is_set-each_bit clear_bit-Assigns (vars - (local_vars + stack_vars + 11))
        (local_vars + stack_vars + 11) live v (omega arith)
      ∙ ground arith,
)

length-clear_all : (v : List ℕ) (size : ℕ) → length (clear_all v size) ≡ length v
unfolding clear_all init
length-clear_all v size = length-each_word (λ d s. 0) size 0 v []

-- In a vector of at least `bitvec_size` words with room for the variables in those words, after
-- `initialize_live_bitvector_from_h` exactly the variables that the map sends to a register or spill
-- location are live, and no other bit of those words is set, whatever the vector held before.
pub is_set-initialize :
    (find : ℕ → Option ℕ) (vars bitvec_size : ℕ) (live : List ℕ) (v : ℕ)
    → bitvec_size ≤ length live
    → vars ≤ 32 * bitvec_size
    → v < 32 * bitvec_size
    → is_set (initialize_live_bitvector_from_h find vars bitvec_size live) v
      ≡ (ltb v vars && is_register (find v))
unfolding initialize_live_bitvector_from_h
is_set-initialize find vars bitvec_size live v h k lt =
    is_set-each_bit (choice-Assigns (λ i. is_register (find i))) vars 0 (clear_all live bitvec_size)
      v (omega (arith, length-clear_all live bitvec_size))
    ∙ ground (arith, is_set-clear_all live bitvec_size v h)
