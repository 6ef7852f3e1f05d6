-- ===== src/AllocStat/Tests.antt =====
-- The searches where %l0 to %l7 are taken, and where every register and the first spill location is.
use la_tte.Common.{ℕ, ◌≡◌, refl, if◌then◌else◌, none, some, ltb}
use la_tte.AllocStat.{
  t_int, t_double, find_integer_reg, find_free_reg, find_free_spill, find_free_storage, scan,
  before,
}

abbrev taken_below : ℕ → ℕ → ℕ
taken_below n r = if ltb r n then 1 else 0

locals_taken : find_free_reg (taken_below 24) t_int ≡ some 24
unfolding find_free_reg find_integer_reg scan before
locals_taken = refl

spilled : find_free_storage (taken_below 73) 80 t_double ≡ some 74
unfolding find_free_storage find_free_reg find_free_spill scan
spilled = refl

full : find_free_storage (taken_below 80) 80 t_int ≡ none
unfolding find_free_storage find_free_reg find_free_spill find_integer_reg scan before
full = refl
