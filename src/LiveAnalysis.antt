-- ===== src/LiveAnalysis.antt =====
-- The functions of translator/live_analysis.c that set up the vector of live variables.
--
-- A variable is its number; `local_vars`, `stack_vars` and `vars` are what `CFG_GetNumOfLocalVars`,
-- `CFG_GetNumOfStackVars` and `CFG_GetNumOfVars` return, and `find v` is `AllocStat_Find(h, v)`, where
-- -1 is `none`.
pub mod Vectors
mod Tests
use la_tte.Common.{
  ℕ, zero, suc, ◌+◌, ◌-◌, bit_and, Bool, false, Option, none, some, List, ◌==◌, if◌then◌else◌,
}
use la_tte.BitVector.{set_bit, clear_bit, clear_all}

-- `Reg_IsRegister`, with `VAR_NUM_MASK`; -1 has bits outside the mask.
abbrev pub is_register : Option ℕ → Bool
is_register none = false
is_register (some reg) = bit_and reg 0x0003_FFFF == reg

-- `for (; …; i++)` over the bits of a vector, with the number of its rounds.
unfoldable pub each_bit : (List ℕ → ℕ → List ℕ) → ℕ → ℕ → List ℕ → List ℕ
each_bit body zero i live = live
each_bit body (suc rounds) i live = each_bit body rounds (i + 1) (body live i)

unfoldable pub set_live_except_vn_vars : ℕ → ℕ → List ℕ → List ℕ
unfolding each_bit
set_live_except_vn_vars local_vars stack_vars live =
    each_bit set_bit (local_vars + stack_vars + 11) 0 live

unfoldable pub kill_vn_vars : ℕ → ℕ → ℕ → List ℕ → List ℕ
unfolding each_bit
kill_vn_vars local_vars stack_vars vars live =
    let i = local_vars + stack_vars + 11 in each_bit clear_bit (vars - i) i live

unfoldable pub initialize_live_bitvector_from_h : (ℕ → Option ℕ) → ℕ → ℕ → List ℕ → List ℕ
unfolding each_bit
initialize_live_bitvector_from_h find vars bitvec_size live =
    each_bit (λ l i. if is_register (find i) then set_bit l i else clear_bit l i) vars 0
      (clear_all live bitvec_size)
