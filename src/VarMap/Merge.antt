-- ===== src/VarMap/Merge.antt =====
-- Look-ups after the operations of a map.
use la_tte.Common.{
  ℕ, zero, suc, ◌+◌, ◌≤◌, ◌<◌, ◌≡◌, refl, ◌∙◌, inl, inr, Bool, true, false, Bool-cases, ◌&&◌,
  Option, none, some, List, ◌==◌, ltb, leb, if◌then◌else◌, get_or, set, get_or-set, length,
  length-set, subst, ==_iff, arith,
}
use la_tte.VarMap.{is_mapped, map_insert, map_find, map_erase, merge_from, map_merge}

-- After `map_Insert` of a variable of the map, `map_Find` returns its new location, and after
-- `map_Erase` it returns -1; it returns what it did before for every other variable.
pub map_find-update :
    (h : List (Option ℕ)) (v w p : ℕ)
    → v < length h
    → (map_find (map_insert h v p) w ≡ (if v == w then some p else map_find h w))
      × (map_find (map_erase h v) w ≡ (if v == w then none else map_find h w))
unfolding map_find map_insert map_erase
map_find-update h v w p lt = (get_or-set h v w (some p) none lt, get_or-set h v w none none lt)

map_find-merge_from :
    (rounds i : ℕ) (h1 h2 : List (Option ℕ)) (w : ℕ)
    → i + rounds ≤ length h2
    → map_find (merge_from rounds i h1 h2) w ≡ (
        if (leb i w && ltb w (i + rounds)) && is_mapped (map_find h1 w)
        then map_find h1 w
        else map_find h2 w)
unfolding merge_from map_find
map_find-merge_from zero i h1 h2 w h = ground arith
map_find-merge_from (suc rounds) i h1 h2 w h = elim (Bool-cases (is_mapped (get_or h1 i none))) [
  | inl t ↦ rw t (
      map_find-merge_from rounds (i + 1) h1 (set h2 i (get_or h1 i none)) w
        (omega (arith, length-set h2 i (get_or h1 i none)))
      ∙ elim (Bool-cases (i == w)) [
        | inl e ↦ rw ((==_iff i w).0 e) (
            ground
              (arith, get_or-set h2 w w (get_or h1 w none) none, at_w w ((==_iff i w).0 e) true t))
        | inr n ↦ ground (arith, get_or-set h2 i w (get_or h1 i none) none)
      ])
  | inr f ↦ rw f (
      map_find-merge_from rounds (i + 1) h1 h2 w (omega arith) ∙ elim (Bool-cases (i == w)) [
        | inl e ↦ ground (arith, at_w w ((==_iff i w).0 e) false f)
        | inr n ↦ ground arith
      ])
]
  where
    at_w :
        (w : ℕ)
        → i ≡ w
        → (b : Bool) → is_mapped (get_or h1 i none) ≡ b
        → is_mapped (get_or h1 w none) ≡ b
    at_w w e b t = subst (λ x. is_mapped (get_or h1 x none) ≡ b) e t

-- `map_merge` of two maps, the second with the entries of `vars` variables at least, returns a map
-- in which a variable below `vars` has its location in the first map, where it has one there, and
-- otherwise its location in the second; where one of the two is null, it returns the other.
pub map_find-map_merge :
    (vars : ℕ) (h1 h2 : List (Option ℕ)) (w : ℕ)
    → vars ≤ length h2
    → w < vars
    → ((h : List (Option ℕ)) × (map_merge vars (some h1) (some h2) ≡ some h)
        × (map_find h w ≡ (if is_mapped (map_find h1 w) then map_find h1 w else map_find h2 w)))
      × (map_merge vars (some h1) none ≡ some h1)
      × (map_merge vars none (some h2) ≡ some h2)
unfolding map_merge
map_find-map_merge vars h1 h2 w h lt = (
  (merge_from vars 0 h1 h2, refl, map_find-merge_from vars 0 h1 h2 w (omega arith) ∙ ground arith),
  refl,
  refl,
)
