-- ===== src/AllocStat.antt =====
-- The searches for a free storage location of translator/AllocStat.c and .ic. A location is its
-- number; `refcount` counts the variables that a location holds; `-1`, which says that there is no
-- free location, is `none`.
mod Scan
pub mod Search
mod Tests
use la_tte.Common.{
  ℕ, zero, suc, ◌+◌, ◌-◌, ◌*◌, ◌/◌, ◌%◌, Bool, false, ◌&&◌, Option, none, some, ◌==◌, ltb,
  if◌then◌else◌,
}

-- `VarType` of pseudo_reg.h
pub data VarType : Type 0 where
  t_int : VarType
  t_long : VarType
  t_cc : VarType
  t_float : VarType
  t_double : VarType
  t_ref : VarType
  t_ivoid : VarType
  t_fvoid : VarType
  t_invalid : VarType

-- The numbers of registers in reg.h
abbrev pub o0 : ℕ
o0 = 8

abbrev pub l0 : ℕ
l0 = 16

abbrev pub i0 : ℕ
i0 = 24

abbrev pub f0 : ℕ
f0 = 32

abbrev pub reg_number : ℕ
reg_number = 72

-- `Reg_IsHW`
abbrev pub is_hw : Option ℕ → Bool
is_hw none = false
is_hw (some reg) = ltb reg reg_number

-- `for (r = …; …; r += step) if (test) return r;`, with the number of its rounds.
unfoldable pub scan : (ℕ → Bool) → ℕ → ℕ → ℕ → Option ℕ
scan test zero r step = none
scan test (suc rounds) r step =
    let rest = scan test rounds (r + step) step in if test r then some r else rest

-- A loop after a loop.
unfoldable pub before : Option ℕ → Option ℕ → Option ℕ
before none rest = rest
before (some r) rest = some r

-- The parity of `RegAlloc_get_spill_offset(r)`, which is `-12 - 4 * (r - Reg_number)`.
abbrev pub is_aligned : ℕ → Bool
is_aligned r = (12 + 4 * (r - reg_number)) % 8 == 0

module _ (refcount : ℕ → ℕ) where
  abbrev pub is_free : ℕ → Bool
  is_free r = refcount r == 0

  abbrev pub is_free_pair : ℕ → Bool
  is_free_pair r = (refcount r == 0) && (refcount (r + 1) == 0)

  -- The loops of integer types: locals, ins, outs.
  unfoldable pub find_integer_reg : Option ℕ
  unfolding scan before
  find_integer_reg =
      before (scan is_free 8 l0 1) (before (scan is_free 6 i0 1) (scan is_free 6 o0 1))

  unfoldable pub find_free_reg : VarType → Option ℕ
  unfolding find_integer_reg scan
  find_free_reg t_int = find_integer_reg
  find_free_reg t_ref = find_integer_reg
  find_free_reg t_ivoid = find_integer_reg
  find_free_reg t_long = find_integer_reg
  find_free_reg t_float = scan is_free 32 f0 1
  find_free_reg t_fvoid = scan is_free 32 f0 1
  find_free_reg t_double = scan is_free_pair 16 f0 2
  find_free_reg t_cc = none
  find_free_reg t_invalid = none

  -- `locations` is `CFG_GetNumOfStorageLocations(cfg)`.
  unfoldable pub find_free_spill : ℕ → VarType → Option ℕ
  unfolding scan
  find_free_spill locations t_double =
      let r = if is_aligned (reg_number + 1) then reg_number else reg_number + 1 in
      scan is_free_pair ((locations - r) / 2) r 2
  find_free_spill locations t_cc = none
  find_free_spill locations t_invalid = none
  find_free_spill locations _ = scan is_free (locations - reg_number) reg_number 1

  unfoldable pub find_free_storage : ℕ → VarType → Option ℕ
  unfolding find_free_reg find_free_spill
  find_free_storage locations type =
      let new_r = find_free_reg type in
      if is_hw new_r then new_r else find_free_spill locations type

  unfoldable pub find_free_non_caller_save_reg : VarType → Option ℕ
  unfolding scan before
  find_free_non_caller_save_reg t_float = none
  find_free_non_caller_save_reg t_double = none
  find_free_non_caller_save_reg t_fvoid = none
  find_free_non_caller_save_reg t_cc = none
  find_free_non_caller_save_reg t_invalid = none
  find_free_non_caller_save_reg _ = before (scan is_free 8 l0 1) (scan is_free 6 i0 1)
