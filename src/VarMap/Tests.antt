-- ===== src/VarMap/Tests.antt =====
-- Maps of three variables.
use la_tte.Common.{ℕ, ◌≡◌, Option, none, some, List, [], ◌∷◌, if◌then◌else◌, arith}
use la_tte.VarMap.{is_mapped, map_find, map_merge}
use la_tte.VarMap.Merge.{map_find-map_merge}

abbrev first : List (Option ℕ)
first = some 16 ∷ none ∷ none ∷ []

abbrev second : List (Option ℕ)
second = some 17 ∷ some 24 ∷ none ∷ []

map_find-map_merge_example :
    ((h : List (Option ℕ)) × (map_merge 3 (some first) (some second) ≡ some h)
      × (map_find h 1
          ≡ (if is_mapped (map_find first 1) then map_find first 1 else map_find second 1)))
    × (map_merge 3 (some first) none ≡ some first)
    × (map_merge 3 none (some second) ≡ some second)
map_find-map_merge_example = map_find-map_merge 3 first second 1 (omega arith) (omega arith)
