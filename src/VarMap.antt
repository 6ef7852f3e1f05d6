-- ===== src/VarMap.antt =====
-- The map from variables to storage locations of translator/AllocStat.ic and .c.
--
-- A `map` is the list of its entries, by variable number; an entry of -1 is `none`. A variable is given
-- by its number, `CFG_get_var_number(v)`, and a null pointer to a map is `none`.
pub mod Merge
mod Tests
use la_tte.Common.{
  ℕ, zero, suc, ◌+◌, Bool, true, false, Option, none, some, List, get_or, set, replicate,
  if◌then◌else◌,
}

-- An entry `>= 0`
abbrev pub is_mapped : Option ℕ → Bool
is_mapped none = false
is_mapped (some r) = true

abbrev pub map_init : ℕ → List (Option ℕ)
map_init vars = replicate vars none

unfoldable pub map_insert : List (Option ℕ) → ℕ → ℕ → List (Option ℕ)
map_insert h v p = set h v (some p)

unfoldable pub map_find : List (Option ℕ) → ℕ → Option ℕ
map_find h v = get_or h v none

unfoldable pub map_erase : List (Option ℕ) → ℕ → List (Option ℕ)
map_erase h v = set h v none

-- The loop of `map_merge`, which writes into the second map.
unfoldable pub merge_from : ℕ → ℕ → List (Option ℕ) → List (Option ℕ) → List (Option ℕ)
unfolding map_find
merge_from zero i h1 h2 = h2
merge_from (suc rounds) i h1 h2 =
    merge_from rounds (i + 1) h1
      (if is_mapped (map_find h1 i) then set h2 i (map_find h1 i) else h2)

unfoldable pub map_merge :
    ℕ → Option (List (Option ℕ)) → Option (List (Option ℕ)) → Option (List (Option ℕ))
unfolding merge_from
map_merge vars none h2 = h2
map_merge vars (some h1) none = some h1
map_merge vars (some h1) (some h2) = some (merge_from vars 0 h1 h2)
